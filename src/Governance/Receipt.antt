-- ===== src/Governance/Receipt.antt =====
-- execution-receipt-manager.ts, domain/execution-receipt.ts and the receipts table of
-- packages/storage-sqlite/src/index.ts, which has no update. `recordCommandExecution` reads before it
-- inserts, and other recorders can insert between the two: `prepare` is the part before, `commit`
-- the part after, each on the table as it is then.
pub mod Race
pub mod Recorded
use chunsik_bot.Base.{
  String, Bool, true, false, not, ◌&&◌, ◌||◌, Option, none, some, List, [], ◌∷◌, ◌++◌,
  if◌then◌else◌, ◌==◌, string_eq, find, any,
}
use chunsik_bot.Base.Result.{Result, ok, err}
use chunsik_bot.Base.Json.{◌⊕◌}
use chunsik_bot.Domain.{EntityId, IsoTimestamp, CommandExecutionStatus}
use chunsik_bot.Domain.Names.{command_status_name}
use chunsik_bot.Governance.Approval.{ApprovalRef}
use chunsik_bot.Governance.Execution.{CommandExecution, command_entity, RunCommandInput}
use chunsik_bot.Governance.Command.{CommandWorld, RunDraws, run, CommandRunOptions, RunnerReply}
use chunsik_bot.Storage.{get}

pub data ExecutionKind : Type 0 where
  command : ExecutionKind

pub data ExecutionReceiptOutcome : Type 0 where
  succeeded failed : ExecutionReceiptOutcome

pub data ExecutionReceiptFailureClass : Type 0 where
  execution_failed timed_out : ExecutionReceiptFailureClass

pub data ExecutionReceiptAuthorization : Type 0 where
  not_required : ExecutionReceiptAuthorization
  approval : EntityId → ExecutionReceiptAuthorization

pub record ExecutionReceipt : Type 0 where
  pub id : EntityId
  pub execution_kind : ExecutionKind
  pub source_id : EntityId
  pub execution_plan_id : EntityId
  pub authorization : ExecutionReceiptAuthorization
  pub outcome : ExecutionReceiptOutcome
  pub failure_class : Option ExecutionReceiptFailureClass
  pub recorded_at : IsoTimestamp

abbrev same_kind : ExecutionKind → ExecutionKind → Bool
same_kind command command = true

unfoldable pub find_by_source :
    ExecutionKind → EntityId → List ExecutionReceipt → Option ExecutionReceipt
find_by_source kind source table =
    find (λ r. same_kind r.execution_kind kind && r.source_id == source) table

-- A row that the PRIMARY KEY or the UNIQUE constraint excludes beside another.
abbrev pub clashes : ExecutionReceipt → ExecutionReceipt → Bool
clashes receipt r =
    r.id == receipt.id
    || same_kind r.execution_kind receipt.execution_kind && r.source_id == receipt.source_id

-- `none` is the error of a constraint.
unfoldable pub insert_receipt :
    ExecutionReceipt → List ExecutionReceipt → Option (List ExecutionReceipt)
insert_receipt receipt table =
    if any (clashes receipt) table then none else some (table ++ receipt ∷ [])

pub record Terminal : Type 0 where
  pub outcome : ExecutionReceiptOutcome
  pub failure_class : Option ExecutionReceiptFailureClass

unfoldable pub derive_terminal : CommandExecution → Result String Terminal
derive_terminal execution = elim execution.status [
  | CommandExecutionStatus.succeeded ↦ ok (record { outcome = succeeded; failure_class = none })
  | CommandExecutionStatus.failed ↦
      ok (record { outcome = failed; failure_class = some execution_failed })
  | CommandExecutionStatus.timed_out ↦
      ok (record { outcome = failed; failure_class = some timed_out })
  | status ↦
      err (
        "CommandExecution "
        ⊕ execution.id
        ⊕ " is not terminal ("
        ⊕ command_status_name status
        ⊕ ")")
]

abbrev pub authorization_of : Option ApprovalRef → ExecutionReceiptAuthorization
authorization_of none = not_required
authorization_of (some ref) = approval ref.id

-- The id and the time that a recorder draws.
pub record ReceiptDraws : Type 0 where
  pub id : EntityId
  pub recorded_at : IsoTimestamp

abbrev pub receipt_of : CommandExecution → Terminal → ReceiptDraws → ExecutionReceipt
receipt_of execution terminal draws = record {
  id = draws.id;
  execution_kind = command;
  source_id = execution.id;
  execution_plan_id = execution.plan_ref.id;
  authorization = authorization_of execution.approval;
  outcome = terminal.outcome;
  failure_class = terminal.failure_class;
  recorded_at = draws.recorded_at;
}

-- A receipt that is there, or one to insert.
pub data Prepared : Type 0 where
  existing to_insert : ExecutionReceipt → Prepared

unfoldable pub prepare :
    EntityId → ReceiptDraws → List CommandExecution → List ExecutionReceipt → Result String Prepared
prepare id draws executions table = elim (get id executions) [
  | none ↦ err ("CommandExecution " ⊕ id ⊕ " does not exist")
  | some execution ↦ elim (derive_terminal execution) [
    | err message ↦ err message
    | ok terminal ↦ elim (find_by_source command execution.id table) [
      | some receipt ↦ ok (existing receipt)
      | none ↦ ok (to_insert (receipt_of execution terminal draws))
    ]
  ]
]

abbrev pub recording_failed : EntityId → String
recording_failed source = "execution receipt recording failed for CommandExecution " ⊕ source

-- Insert, and where the insert fails look for the receipt of a recorder that won.
unfoldable pub commit :
    Prepared → List ExecutionReceipt → Result String ExecutionReceipt × List ExecutionReceipt
commit (existing receipt) table = (ok receipt, table)
commit (to_insert receipt) table = elim (insert_receipt receipt table) [
  | some next ↦ (ok receipt, next)
  | none ↦ elim (find_by_source command receipt.source_id table) [
    | some raced ↦ (ok raced, table)
    | none ↦ (err (recording_failed receipt.source_id), table)
  ]
]

unfoldable pub record_command_execution :
    EntityId
    → ReceiptDraws
    → List CommandExecution
    → List ExecutionReceipt
    → Result String ExecutionReceipt × List ExecutionReceipt
record_command_execution id draws executions table = elim (prepare id draws executions table) [
  | err message ↦ (err message, table)
  | ok prepared ↦ commit prepared table
]

pub record ReceiptWorld : Type 0 where
  pub commands : CommandWorld
  pub receipts : List ExecutionReceipt

-- `CommandExecutionReceiptRunner.run`: run once, then record.
unfoldable pub run_with_receipt :
    (String → List String → CommandRunOptions → RunnerReply)
    → List String
    → RunCommandInput
    → RunDraws
    → ReceiptDraws
    → ReceiptWorld
    → Result String CommandExecution × ReceiptWorld
run_with_receipt runner allowed input draws receipt_draws world =
    let (outcome, commands) = run runner allowed input draws world.commands in
    elim outcome [
      | err message ↦ (err message, record { commands = commands; receipts = world.receipts })
      | ok execution ↦
          let (recorded, receipts) =
            record_command_execution execution.id receipt_draws commands.executions
              world.receipts in
          elim recorded [
            | err message ↦ (err message, record { commands = commands; receipts = receipts })
            | ok receipt ↦ (ok execution, record { commands = commands; receipts = receipts })
          ]
    ]
