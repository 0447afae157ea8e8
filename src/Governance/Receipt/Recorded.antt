-- ===== src/Governance/Receipt/Recorded.antt =====
-- execution-receipt-manager.ts with command-execution-manager.ts: a command that is run and recorded.
use chunsik_bot.Base.{String, ◌≡◌, refl, ap, ◌↔◌, inl, inr, true, Option, none, some, List}
use chunsik_bot.Base.Result.{Result, ok}
use chunsik_bot.Domain.{CommandExecutionStatus}
use chunsik_bot.Governance.Approval.{ApprovalRef}
use chunsik_bot.Governance.Execution.{CommandExecution, command_entity, RunCommandInput}
use chunsik_bot.Governance.Command.{
  CommandRunOptions, RunnerReply, RunDraws, CommandWorld, run, finished, base_execution,
}
use chunsik_bot.Governance.Command.Gates.{IsPermitted, IsRun, run_lem, is_terminal}
use chunsik_bot.Governance.Receipt.{
  ExecutionReceipt, ExecutionReceiptOutcome, ExecutionReceiptFailureClass, command, Terminal,
  not_required, approval, ReceiptDraws, ReceiptWorld, receipt_of, find_by_source, derive_terminal,
  authorization_of, run_with_receipt,
}
use chunsik_bot.Governance.Receipt.Race.{IsFresh, record_command_execution-first, find-appended}

-- An outcome and a failure class that say how an execution ended.
pub record Agrees (outcome : ExecutionReceiptOutcome)
    (failure : Option ExecutionReceiptFailureClass) (execution : CommandExecution) : Type 0 where
  pub succeeded :
      (outcome ≡ ExecutionReceiptOutcome.succeeded)
      ↔ (execution.status ≡ CommandExecutionStatus.succeeded)
  pub unfailed : (failure ≡ none) ↔ (execution.status ≡ CommandExecutionStatus.succeeded)
  pub timed_out :
      (failure ≡ some ExecutionReceiptFailureClass.timed_out)
      ↔ (execution.status ≡ CommandExecutionStatus.timed_out)

derive_terminal-faithful :
    (execution : CommandExecution)
    → is_terminal execution.status ≡ true
    → (terminal : Terminal) × (derive_terminal execution ≡ ok terminal)
      × Agrees terminal.outcome terminal.failure_class execution
unfolding derive_terminal is_terminal
derive_terminal-faithful execution e = helper execution.status refl e
  where
    helper :
        (s : CommandExecutionStatus)
        → execution.status ≡ s
        → is_terminal s ≡ true
        → (terminal : Terminal) × (derive_terminal execution ≡ ok terminal)
          × Agrees terminal.outcome terminal.failure_class execution
    helper CommandExecutionStatus.succeeded s t = (
      record { outcome = ExecutionReceiptOutcome.succeeded; failure_class = none },
      rw (s, derive_terminal) refl,
      record {
        succeeded = (λ _. s, λ _. refl);
        unfailed = (λ _. s, λ _. refl);
        timed_out = (λ h. cc, λ h. cc);
      },
    )
    helper CommandExecutionStatus.failed s t = (
      record {
        outcome = ExecutionReceiptOutcome.failed;
        failure_class = some ExecutionReceiptFailureClass.execution_failed;
      },
      rw (s, derive_terminal) refl,
      record {
        succeeded = (λ h. cc, λ h. cc);
        unfailed = (λ h. cc, λ h. cc);
        timed_out = (λ h. cc, λ h. cc);
      },
    )
    helper CommandExecutionStatus.timed_out s t = (
      record {
        outcome = ExecutionReceiptOutcome.failed;
        failure_class = some ExecutionReceiptFailureClass.timed_out;
      },
      rw (s, derive_terminal) refl,
      record {
        succeeded = (λ h. cc, λ h. cc);
        unfailed = (λ h. cc, λ h. cc);
        timed_out = (λ _. s, λ _. refl);
      },
    )
    helper CommandExecutionStatus.pending s t = cc
    helper CommandExecutionStatus.running s t = cc

-- What the composed runner leaves behind.
pub record IsRecorded (input : RunCommandInput) (execution : CommandExecution)
    (out : Result String CommandExecution × ReceiptWorld) : Type 0 where
  pub answered : out.0 ≡ ok execution
  pub receipt : ExecutionReceipt
  pub found : find_by_source command execution.id out.1.receipts ≡ some receipt
  pub plan : receipt.execution_plan_id ≡ input.plan_ref.id
  pub unapproved : input.approval ≡ none → receipt.authorization ≡ not_required
  pub approved :
      (ref : ApprovalRef) → input.approval ≡ some ref → receipt.authorization ≡ approval ref.id
  pub faithful : Agrees receipt.outcome receipt.failure_class execution

-- A permitted command that is run with a receipt, whatever the runner does: the execution is answered,
-- and the receipts have one for it, of the plan of the input. It has the id of the approval that the
-- input refers to, and NOT_REQUIRED where it refers to none. Its outcome is SUCCEEDED, and it has no
-- failure class, exactly when the execution succeeded, and the class is TIMED_OUT exactly when the
-- execution timed out. The ids that the run draws are assumed to be new.
pub run_with_receipt-IsRecorded :
    (runner : String → List String → CommandRunOptions → RunnerReply) (allowed : List String)
    (input : RunCommandInput) (draws : RunDraws) (receipt_draws : ReceiptDraws)
    (world : ReceiptWorld)
    → IsPermitted allowed input
    → find_by_source command draws.id world.receipts ≡ none
    → IsFresh receipt_draws.id world.receipts
    → IsRecorded input
        (finished runner input draws)
        (run_with_receipt runner allowed input draws receipt_draws world)
unfolding run_with_receipt finished base_execution
run_with_receipt-IsRecorded runner allowed input draws receipt_draws world permitted new fresh =
    elim (run_lem runner allowed input draws world.commands) [
      | inl refused ↦ absurd (refused.forbidden permitted)
      | inr v ↦
          let (terminal, derived, faithful) =
            derive_terminal-faithful (finished runner input draws) v.terminal in
          recorded v terminal derived faithful
    ]
  where
    execution : CommandExecution
    execution = finished runner input draws

    commands : CommandWorld
    commands = (run runner allowed input draws world.commands).1

    recorded :
        IsRun runner allowed input draws world.commands
          (run runner allowed input draws world.commands)
        → (terminal : Terminal) → derive_terminal execution ≡ ok terminal
        → Agrees terminal.outcome terminal.failure_class execution
        → IsRecorded input execution
            (run_with_receipt runner allowed input draws receipt_draws world)
    recorded v terminal derived faithful =
        let first =
          record_command_execution-first execution.id receipt_draws commands.executions
            world.receipts execution terminal v.stored derived new fresh in
        rw (v.answered, first, run_with_receipt)
          (record {
            answered = refl;
            receipt = receipt_of execution terminal receipt_draws;
            found =
                rw first
                  (find-appended (receipt_of execution terminal receipt_draws) world.receipts new);
            plan = refl;
            unapproved = λ e. ap authorization_of e;
            approved = λ ref e. ap authorization_of e;
            faithful = faithful;
          })
