-- ===== src/Governance/Receipt/Race.antt =====
-- execution-receipt-manager.ts: recorders of one execution that overlap.
use chunsik_bot.Base.{
  ◌≡◌, refl, true, false, none, some, List, [], ◌∷◌, ◌++◌, arith, ◌==◌, string_eq, beq_refl, any,
  none_not_some,
}
use chunsik_bot.Base.Result.{ok}
use chunsik_bot.Domain.{EntityId}
use chunsik_bot.Governance.Execution.{CommandExecution, command_entity}
use chunsik_bot.Governance.Receipt.{
  ExecutionReceipt, command, Terminal, Prepared, to_insert, ReceiptDraws, receipt_of,
  find_by_source, insert_receipt, clashes, derive_terminal, prepare, commit,
  record_command_execution,
}
use chunsik_bot.Storage.{get}

-- No receipt has the id.
abbrev pub IsFresh : EntityId → List ExecutionReceipt → Type 0
IsFresh id table = any (λ r. r.id == id) table ≡ false

found-clashes :
    (receipt : ExecutionReceipt) (table : List ExecutionReceipt) (found : ExecutionReceipt)
    → receipt.execution_kind ≡ command
    → find_by_source command receipt.source_id table ≡ some found
    → any (clashes receipt) table ≡ true
unfolding find_by_source
found-clashes receipt [] found k e = absurd (none_not_some e)
found-clashes receipt (r ∷ table) found k e = ground (arith, found-clashes receipt table found k)

unfound-clashes :
    (receipt : ExecutionReceipt) (table : List ExecutionReceipt)
    → receipt.execution_kind ≡ command
    → find_by_source command receipt.source_id table ≡ none
    → IsFresh receipt.id table
    → any (clashes receipt) table ≡ false
unfolding find_by_source
unfound-clashes receipt [] k e fresh = refl
unfound-clashes receipt (r ∷ table) k e fresh = ground (arith, unfound-clashes receipt table k)

pub find-appended :
    (receipt : ExecutionReceipt) (table : List ExecutionReceipt)
    → find_by_source command receipt.source_id table ≡ none
    → find_by_source command receipt.source_id (table ++ receipt ∷ []) ≡ some receipt
unfolding find_by_source
find-appended receipt [] e = ground (arith, beq_refl receipt.source_id)
find-appended receipt (r ∷ table) e = ground (arith, find-appended receipt table)

-- Where the table has no receipt of the source, a prepared one is inserted.
commit-first :
    (receipt : ExecutionReceipt) (table : List ExecutionReceipt)
    → receipt.execution_kind ≡ command
    → find_by_source command receipt.source_id table ≡ none
    → IsFresh receipt.id table
    → commit (to_insert receipt) table ≡ (ok receipt, table ++ receipt ∷ [])
unfolding commit insert_receipt
commit-first receipt table k e fresh =
    rw (unfound-clashes receipt table k e fresh, insert_receipt, commit) refl

-- Where another recorder has won, its receipt is the answer and the table stays.
commit-raced :
    (receipt raced : ExecutionReceipt) (table : List ExecutionReceipt)
    → receipt.execution_kind ≡ command
    → find_by_source command receipt.source_id table ≡ some raced
    → commit (to_insert receipt) table ≡ (ok raced, table)
unfolding commit insert_receipt
commit-raced receipt raced table k e =
    rw (found-clashes receipt table raced k e, e, insert_receipt, commit) refl

prepare-first :
    (id : EntityId) (draws : ReceiptDraws) (executions : List CommandExecution)
    (table : List ExecutionReceipt) (execution : CommandExecution) (terminal : Terminal)
    → get id executions ≡ some execution
    → derive_terminal execution ≡ ok terminal
    → find_by_source command execution.id table ≡ none
    → prepare id draws executions table ≡ ok (to_insert (receipt_of execution terminal draws))
unfolding prepare
prepare-first id draws executions table execution terminal e t f = rw (e, t, f, prepare) refl

-- Two recorders of a terminal execution overlap: both read the table before either inserts. The first
-- inserts its receipt, and the second, whose insert the constraint refuses, answers with the first
-- one's: both answer the same receipt, it is the one that the table has for the execution, and the
-- table has grown by it alone. The id of the first is assumed to be new to the table.
pub overlapping_recorders-agree :
    (id : EntityId) (first second : ReceiptDraws) (executions : List CommandExecution)
    (table : List ExecutionReceipt) (execution : CommandExecution) (terminal : Terminal)
    → get id executions ≡ some execution
    → derive_terminal execution ≡ ok terminal
    → find_by_source command execution.id table ≡ none
    → IsFresh first.id table
    → (a b : Prepared) × (prepare id first executions table ≡ ok a)
      × (prepare id second executions table ≡ ok b)
      × (commit a table ≡ (
        ok (receipt_of execution terminal first),
        table ++ receipt_of execution terminal first ∷ [],
      ))
      × (commit b (commit a table).1 ≡ (
        ok (receipt_of execution terminal first),
        table ++ receipt_of execution terminal first ∷ [],
      ))
      × (find_by_source command execution.id (commit a table).1
          ≡ some (receipt_of execution terminal first))
overlapping_recorders-agree id first second executions table execution terminal e t f fresh = (
  to_insert winner,
  to_insert (receipt_of execution terminal second),
  prepare-first id first executions table execution terminal e t f,
  prepare-first id second executions table execution terminal e t f,
  done,
  rw done (
      commit-raced (receipt_of execution terminal second) winner (table ++ winner ∷ []) refl there),
  rw done there,
)
  where
    winner : ExecutionReceipt
    winner = receipt_of execution terminal first

    done : commit (to_insert winner) table ≡ (ok winner, table ++ winner ∷ [])
    done = commit-first winner table refl f fresh

    there : find_by_source command execution.id (table ++ winner ∷ []) ≡ some winner
    there = find-appended winner table f

-- The first recording of a terminal execution inserts its receipt.
pub record_command_execution-first :
    (id : EntityId) (draws : ReceiptDraws) (executions : List CommandExecution)
    (table : List ExecutionReceipt) (execution : CommandExecution) (terminal : Terminal)
    → get id executions ≡ some execution
    → derive_terminal execution ≡ ok terminal
    → find_by_source command execution.id table ≡ none
    → IsFresh draws.id table
    → record_command_execution id draws executions table ≡ (
      ok (receipt_of execution terminal draws),
      table ++ receipt_of execution terminal draws ∷ [],
    )
unfolding record_command_execution
record_command_execution-first id draws executions table execution terminal e t f fresh =
    rw (prepare-first id draws executions table execution terminal e t f, record_command_execution)
      (commit-first (receipt_of execution terminal draws) table refl f fresh)
