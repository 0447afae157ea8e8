-- ===== src/Governance/Tests/Commands.antt =====
-- A push with an approval, and its receipts.
use chunsik_bot.Base.{
  ◌∙◌, sym, ◌≡◌, refl, sym, ◌∙◌, false_not_true, ◌⊎◌, inl, inr, false, none, some, List, [], ◌∷◌,
  String, string_eq,
}
use chunsik_bot.Base.Result.{ok}
use chunsik_bot.Base.Integer.{pos}
use chunsik_bot.Base.Regex.{test_regex, ends}
use chunsik_bot.Domain.{RiskLevel, ApprovalStatus, CommandExecutionStatus}
use chunsik_bot.Domain.Plan.{ExecutionPlanRef}
use chunsik_bot.Storage.{get}
use chunsik_bot.Governance.Risk.{assess_command, critical_patterns, high_patterns}
use chunsik_bot.Governance.Approval.{ApprovalRef}
use chunsik_bot.Governance.Execution.{RunCommandInput, CommandExecution, command_entity}
use chunsik_bot.Governance.Command.{
  CommandRunOptions, RunnerReply, returned, RunDraws, CommandWorld, run, finished, risk_of, join,
  default_allowed_commands,
}
use chunsik_bot.Governance.Command.Gates.{IsPermitted, IsRefused, IsRun, run_lem}
use chunsik_bot.Governance.Receipt.{
  Terminal, Prepared, ReceiptDraws, command, prepare, commit, derive_terminal, find_by_source,
  receipt_of, run_with_receipt, succeeded,
}
use chunsik_bot.Governance.Receipt.Race.{overlapping_recorders-agree}
use chunsik_bot.Governance.Receipt.Recorded.{IsRecorded, run_with_receipt-IsRecorded}

abbrev plan_ref : ExecutionPlanRef
plan_ref = record { id = "plan-1"; goal = "publish"; integrity = none }

abbrev grant : ApprovalRef
grant = record { id = "a-1"; status = ApprovalStatus.approved; plan_ref = plan_ref }

abbrev input : RunCommandInput
input = record {
  plan_ref = plan_ref;
  approval = some grant;
  workspace_ref = record {
    id = "w-1";
    project_id = none;
    root_path = "/work";
    kind = "local-clone";
    branch = none;
    metadata = none;
  };
  workspace_change_ref = none;
  command = "npm";
  args = "publish" ∷ [];
  timeout_ms = none;
}

abbrev runner : String → List String → CommandRunOptions → RunnerReply
runner name args options =
    returned (record { exit_code = some 0; stdout = "published"; stderr = ""; timed_out = false })

abbrev draws : RunDraws
draws = record { id = "c-1"; ts = 10; started_at = 11; finished_at = 15 }

abbrev empty_world : CommandWorld
empty_world = record { executions = []; runs = [] }

publish_is_high : risk_of input ≡ RiskLevel.high
unfolding risk_of join assess_command critical_patterns high_patterns test_regex ends
publish_is_high = refl

npm_is_not_node : input.command ≡ "node" → ⊥
npm_is_not_node e = false_not_true refl ((string_eq.agrees input.command "node").1 e)

input-IsPermitted : IsPermitted default_allowed_commands input
input-IsPermitted = record {
  listed = inr (inl refl);
  no_eval = λ e. absurd (npm_is_not_node e);
  not_critical = λ e. high_is_not_critical (sym publish_is_high ∙ e);
  authorized = λ e. (grant, refl, (refl, refl));
}
  where
    high_is_not_critical : RiskLevel.high ≡ RiskLevel.critical → ⊥
    high_is_not_critical e = cc

run_lem_example :
    IsRefused default_allowed_commands input empty_world
      (run runner default_allowed_commands input draws empty_world)
    ⊎ IsRun runner default_allowed_commands input draws empty_world
        (run runner default_allowed_commands input draws empty_world)
run_lem_example = run_lem runner default_allowed_commands input draws empty_world

run_with_receipt-IsRecorded_example : IsRecorded input (finished runner input draws) (
    run_with_receipt runner default_allowed_commands input draws
      (record { id = "r-1"; recorded_at = 16 })
      (record { commands = empty_world; receipts = [] }))
unfolding find_by_source
run_with_receipt-IsRecorded_example =
    run_with_receipt-IsRecorded runner default_allowed_commands input draws
      (record { id = "r-1"; recorded_at = 16 }) (record { commands = empty_world; receipts = [] })
      input-IsPermitted refl refl

abbrev execution : CommandExecution
execution = record {
  id = "c-1";
  plan_ref = plan_ref;
  approval = some grant;
  workspace_ref = input.workspace_ref;
  workspace_change_ref = none;
  command = "npm";
  args = "publish" ∷ [];
  command_hash = "";
  status = CommandExecutionStatus.succeeded;
  exit_code = some 0;
  stdout = "published";
  stderr = "";
  duration_ms = pos 4;
  risk_level = RiskLevel.high;
  created_at = 10;
  updated_at = 15;
}

abbrev terminal : Terminal
terminal = record { outcome = succeeded; failure_class = none }

abbrev first_draws : ReceiptDraws
first_draws = record { id = "r-1"; recorded_at = 16 }

abbrev second_draws : ReceiptDraws
second_draws = record { id = "r-2"; recorded_at = 17 }

overlapping_recorders-agree_example :
    (a b : Prepared) × (prepare "c-1" first_draws (execution ∷ []) [] ≡ ok a)
    × (prepare "c-1" second_draws (execution ∷ []) [] ≡ ok b)
    × (commit a [] ≡ (
      ok (receipt_of execution terminal first_draws),
      receipt_of execution terminal first_draws ∷ [],
    ))
    × (commit b (commit a []).1 ≡ (
      ok (receipt_of execution terminal first_draws),
      receipt_of execution terminal first_draws ∷ [],
    ))
    × (find_by_source command "c-1" (commit a []).1
        ≡ some (receipt_of execution terminal first_draws))
unfolding get derive_terminal find_by_source
overlapping_recorders-agree_example =
    overlapping_recorders-agree "c-1" first_draws second_draws (execution ∷ []) [] execution
      terminal refl refl refl refl
