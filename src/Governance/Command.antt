-- ===== src/Governance/Command.antt =====
-- command-execution-manager.ts, ports/command-runner.port.ts: the gates on a command, its run and its
-- record. The runner is a parameter; the ids and times that a run draws are arguments.
pub mod Gates
use chunsik_bot.Base.{
  ℕ, String, Bool, true, false, not, ◌&&◌, ◌||◌, Option, none, some, List, [], ◌∷◌, ◌++◌, map,
  if◌then◌else◌, ◌==◌, string_eq, nat_eq, any, filter, contains, get_or,
}
use chunsik_bot.Base.Result.{Result, ok, err, ◌>>=◌, ◌>>◌, require}
use chunsik_bot.Base.Json.{Json, str, json_array, stringify, ◌⊕◌}
use chunsik_bot.Base.Hash.{content_hash}
use chunsik_bot.Base.Integer.{ℤ, pos, difference}
use chunsik_bot.Base.Regex.{Regex, one, many, alt, at_end, ◌then◌, char, word, test_prefix}
use chunsik_bot.Domain.{
  EntityId, IsoTimestamp, RiskLevel, ApprovalStatus, CommandExecutionStatus, WorkspaceChangeStatus,
  approval_status_eq,
}
use chunsik_bot.Domain.Names.{risk_level_name, approval_status_name}
use chunsik_bot.Domain.Plan.{ExecutionPlanRef}
use chunsik_bot.Governance.Risk.{assess_command, requires_approval}
use chunsik_bot.Governance.Approval.{ApprovalRef}
use chunsik_bot.Storage.{get, save}
use chunsik_bot.Governance.Execution.{
  WorkspaceRef, WorkspaceChangeRef, CommandExecution, command_entity, RunCommandInput,
}

pub record CommandRunOptions : Type 0 where
  pub cwd : String
  pub timeout_ms : ℕ

pub record CommandRunResult : Type 0 where
  pub exit_code : Option ℕ
  pub stdout : String
  pub stderr : String
  pub timed_out : Bool

-- What a call of the runner comes to: a result, or an error that it throws, by its message.
pub data RunnerReply : Type 0 where
  returned : CommandRunResult → RunnerReply
  threw : String → RunnerReply

abbrev pub default_command_timeout_ms : ℕ
default_command_timeout_ms = 120000

abbrev pub default_allowed_commands : List String
default_allowed_commands = "pnpm" ∷ "npm" ∷ "node" ∷ []

-- `/^--(eval|print)(=|$)/` or `/^-[^-]*[ep]/`
unfoldable pub is_node_eval_arg : String → Bool
is_node_eval_arg arg =
    test_prefix (word "--" then alt (word "eval") (word "print") then alt (char b'=') at_end) arg
    || test_prefix
        (char b'-' then many (λ c. not (c == b'-')) then one (λ c. c == b'e' || c == b'p')) arg

unfoldable pub has_dangerous_args : String → List String → Bool
has_dangerous_args command args = if command == "node" then any is_node_eval_arg args else false

unfoldable pub derive_status : CommandRunResult → CommandExecutionStatus
derive_status result =
    if result.timed_out then CommandExecutionStatus.timed_out else elim result.exit_code [
      | none ↦ CommandExecutionStatus.failed
      | some code ↦
          if code == 0 then CommandExecutionStatus.succeeded else CommandExecutionStatus.failed
    ]

-- `texts.join(separator)`
unfoldable pub join : String → List String → String
join separator [] = ""
join separator (text ∷ []) = text
join separator (text ∷ next ∷ texts) = text ⊕ separator ⊕ join separator (next ∷ texts)

unfoldable pub risk_of : RunCommandInput → RiskLevel
risk_of input = assess_command (join " " (input.command ∷ input.args))

unfoldable pub approval_gate : RunCommandInput → RiskLevel → Result String (Unit {0})
approval_gate input risk = elim input.approval [
  | none ↦ err (
      "command execution requires an APPROVED approval for "
      ⊕ risk_level_name risk
      ⊕ " risk (got none)")
  | some approval ↦ do
    require (approval.status == ApprovalStatus.approved) (
        "command execution requires an APPROVED approval for "
        ⊕ risk_level_name risk
        ⊕ " risk (got "
        ⊕ approval_status_name approval.status
        ⊕ ")")
    require (approval.plan_ref.id == input.plan_ref.id) (
        "approval " ⊕ approval.id ⊕ " is scoped to a different ExecutionPlan ("
        ⊕ approval.plan_ref.id ⊕ ", expected " ⊕ input.plan_ref.id ⊕ ")")
]

abbrev pub is_critical : RiskLevel → Bool
is_critical RiskLevel.critical = true
is_critical _ = false

-- The four gates, in order.
unfoldable pub check_gates : List String → RunCommandInput → Result String (Unit {0})
unfolding approval_gate
check_gates allowed input = do
  require (contains allowed input.command)
      ("command '" ⊕ input.command ⊕ "' is not allow-listed (allowed: " ⊕ join ", " allowed ⊕ ")")
  require (not (has_dangerous_args input.command input.args))
      ("command '" ⊕ input.command ⊕ "' may not use eval-style arguments: " ⊕ join " " input.args)
  require (not (is_critical (risk_of input)))
      ("refusing to run a CRITICAL/destructive command: " ⊕ input.command)
  if requires_approval (risk_of input) then approval_gate input (risk_of input) else ok tt

-- The executions table, and the calls of the runner so far.
pub record CommandWorld : Type 0 where
  pub executions : List CommandExecution
  pub runs : List (String × List String × CommandRunOptions)

-- What one run draws: its id and the times of `now()`.
pub record RunDraws : Type 0 where
  pub id : EntityId
  pub ts : IsoTimestamp
  pub started_at : IsoTimestamp
  pub finished_at : IsoTimestamp

unfoldable pub base_execution : RunCommandInput → RunDraws → CommandExecution
base_execution input draws = record {
  id = draws.id;
  plan_ref = input.plan_ref;
  approval = input.approval;
  workspace_ref = input.workspace_ref;
  workspace_change_ref = input.workspace_change_ref;
  command = input.command;
  args = input.args;
  command_hash = content_hash (stringify (json_array (map str (input.command ∷ input.args))));
  status = CommandExecutionStatus.pending;
  exit_code = none;
  stdout = "";
  stderr = "";
  duration_ms = pos 0;
  risk_level = risk_of input;
  created_at = draws.ts;
  updated_at = draws.ts;
}

-- `catch (err)`: an error of the runner is a failed run with its message.
abbrev pub result_of : RunnerReply → CommandRunResult
result_of (returned result) = result
result_of (threw message) = record {
  exit_code = none;
  stdout = "";
  stderr = message;
  timed_out = false;
}

abbrev pub with_outcome : CommandExecution → RunDraws → CommandRunResult → CommandExecution
with_outcome base draws result = record {
  id = base.id;
  plan_ref = base.plan_ref;
  approval = base.approval;
  workspace_ref = base.workspace_ref;
  workspace_change_ref = base.workspace_change_ref;
  command = base.command;
  args = base.args;
  command_hash = base.command_hash;
  status = derive_status result;
  exit_code = result.exit_code;
  stdout = result.stdout;
  stderr = result.stderr;
  duration_ms = difference draws.finished_at draws.started_at;
  risk_level = base.risk_level;
  created_at = base.created_at;
  updated_at = draws.finished_at;
}

abbrev pub running : CommandExecution → CommandExecution
running base = record {
  id = base.id;
  plan_ref = base.plan_ref;
  approval = base.approval;
  workspace_ref = base.workspace_ref;
  workspace_change_ref = base.workspace_change_ref;
  command = base.command;
  args = base.args;
  command_hash = base.command_hash;
  status = CommandExecutionStatus.running;
  exit_code = base.exit_code;
  stdout = base.stdout;
  stderr = base.stderr;
  duration_ms = base.duration_ms;
  risk_level = base.risk_level;
  created_at = base.created_at;
  updated_at = base.updated_at;
}

module _ (runner : String → List String → CommandRunOptions → RunnerReply) where
  abbrev pub options_of : RunCommandInput → CommandRunOptions
  options_of input = record {
    cwd = input.workspace_ref.root_path;
    timeout_ms = get_or input.timeout_ms default_command_timeout_ms;
  }

  -- The execution that a permitted run records at its end.
  unfoldable pub finished : RunCommandInput → RunDraws → CommandExecution
  finished input draws =
      with_outcome (base_execution input draws) draws
        (result_of (runner input.command input.args (options_of input)))

  unfoldable pub run :
      List String
      → RunCommandInput
      → RunDraws
      → CommandWorld
      → Result String CommandExecution × CommandWorld
  unfolding finished
  run allowed input draws world = elim (check_gates allowed input) [
    | err message ↦ (err message, world)
    | ok u ↦
        let recorded = save (running (base_execution input draws)) world.executions in
        (
          ok (finished input draws),
          record {
            executions = save (finished input draws) recorded;
            runs = world.runs ++ (input.command, input.args, options_of input) ∷ [];
          },
        )
  ]
