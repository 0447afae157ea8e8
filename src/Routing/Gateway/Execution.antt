-- ===== src/Routing/Gateway/Execution.antt =====
-- provider-routing-gateway.ts: the state of one execution, its end and one attempt.
use chunsik_bot.Base.{
  ℕ, ◌-◌, ◌*◌, ◌/◌, String, Bool, Option, none, some, List, [], ◌∷◌, ◌++◌, if◌then◌else◌, ◌==◌,
  string_eq, length, ltb, min,
}
use chunsik_bot.Base.Text.{is_routing_identifier, is_version, is_sha256}
use chunsik_bot.Domain.{AiFailureKind}
use chunsik_bot.Routing.Failure.{RoutingFailureCode, classify_provider_failure}
use chunsik_bot.Routing.Machine.{
  RoutingExecutionState, RoutingExecutionStateMachine, transition, state_eq,
}
use chunsik_bot.Routing.Plan.{
  ProviderExecutionPlan, ProviderExecutionTarget, ExecutionTargetPurpose,
}
use chunsik_bot.Routing.Gateway.{
  AiRequest, AiExecutionResult, BoundedProviderOutput, ProviderAttemptAudit, ProviderExecutionPath,
  ProviderExecutionAudit, ProviderGatewayResult, ProviderGatewayFailureCode, routing, binding,
  ProviderGatewayTerminalStatus, DeadlineBudget, ProviderRoutingGateway, ProviderReply, replied,
  ai_error, Environment,
}
use chunsik_bot.Routing.Gateway.Checks.{binding_failure, code_name, human_review}

-- The variables of `execute`, with the requests that were sent so far.
pub record ExecutionState : Type 0 where
  pub machine : RoutingExecutionStateMachine
  pub attempts : List ProviderAttemptAudit
  pub path : ProviderExecutionPath
  pub final_target : Option ProviderExecutionTarget
  pub calls : List (String × AiRequest)

abbrev pub valid_or : (String → Bool) → String → String → String
valid_or valid text fallback = if valid text then text else fallback

abbrev pub zeros : String
zeros = "0000000000000000000000000000000000000000000000000000000000000000"

abbrev pub cause_of : Option ProviderGatewayFailureCode → String
cause_of none = "ACCEPTED"
cause_of (some code) = code_name code

abbrev sha_of : Option BoundedProviderOutput → Option String
sha_of none = none
sha_of (some output) = some output.response_sha256

abbrev provider_of : Option ProviderExecutionTarget → Option String
provider_of none = none
provider_of (some target) = some target.provider_id

abbrev purpose_of : Option ProviderExecutionTarget → Option ExecutionTargetPurpose
purpose_of none = none
purpose_of (some target) = some target.purpose

-- `if (machine.state !== TERMINAL) machine.transition(TERMINAL, …)`
unfoldable pub end_machine :
    RoutingExecutionStateMachine → String → Option RoutingExecutionStateMachine
end_machine m cause =
    if m.current_state == RoutingExecutionState.terminal
    then some m
    else transition m RoutingExecutionState.terminal cause

module _ (gateway : ProviderRoutingGateway) (plan : ProviderExecutionPlan) where
  unfoldable pub audit_of :
      ExecutionState
      → RoutingExecutionStateMachine
      → ProviderGatewayTerminalStatus
      → Option ProviderGatewayFailureCode
      → Option BoundedProviderOutput
      → ProviderExecutionAudit
  audit_of st machine status code output = record {
    schema_version = "provider-execution-audit-v2";
    execution_id = valid_or is_routing_identifier plan.execution_id "invalid-execution";
    decision_id = valid_or is_sha256 plan.decision_id zeros;
    plan_digest = valid_or is_sha256 plan.plan_digest zeros;
    execution_configuration_digest = valid_or is_sha256 plan.execution_configuration_digest zeros;
    deadline_policy_version = valid_or is_version gateway.deadline_version "invalid";
    capability = plan.capability;
    validation_profile = valid_or is_routing_identifier plan.validation_profile "invalid-profile";
    matched_policy_id = valid_or is_routing_identifier plan.matched_policy_id "invalid-policy";
    policy_version = valid_or is_version plan.policy_version "invalid";
    registry_version = valid_or is_version plan.registry_version "invalid";
    registry_configuration_digest = valid_or is_sha256 plan.registry_configuration_digest zeros;
    policy_configuration_digest = valid_or is_sha256 plan.policy_configuration_digest zeros;
    configuration_digest = valid_or is_sha256 plan.configuration_digest zeros;
    path = st.path;
    attempt_count = length st.attempts;
    attempts = st.attempts;
    transitions = machine.records;
    terminal_status = status;
    terminal_code = code;
    final_provider_id = provider_of st.final_target;
    final_purpose = purpose_of st.final_target;
    accepted_response_sha256 = sha_of output;
  }

  -- The closure `finish`; `none` is an error that it throws.
  unfoldable pub finish :
      ExecutionState
      → ProviderGatewayTerminalStatus
      → Option ProviderGatewayFailureCode
      → Option BoundedProviderOutput
      → Option ProviderGatewayResult
  finish st status code output = elim (end_machine st.machine (cause_of code)) [
    | none ↦ none
    | some machine ↦ elim (human_review status code) [
      | none ↦ none
      | some review ↦ some (record {
        status = status;
        failure_code = code;
        human_review_required = review;
        output = output;
        audit = audit_of st machine status code output;
      })
    ]
  ]

abbrev pub with_machine : ExecutionState → RoutingExecutionStateMachine → ExecutionState
with_machine st machine = record {
  machine = machine;
  attempts = st.attempts;
  path = st.path;
  final_target = st.final_target;
  calls = st.calls;
}

abbrev pub with_target : ExecutionState → ProviderExecutionTarget → ExecutionState
with_target st target = record {
  machine = st.machine;
  attempts = st.attempts;
  path = st.path;
  final_target = some target;
  calls = st.calls;
}

abbrev pub with_call : ExecutionState → String → AiRequest → ExecutionState
with_call st id request = record {
  machine = st.machine;
  attempts = st.attempts;
  path = st.path;
  final_target = st.final_target;
  calls = st.calls ++ (id, request) ∷ [];
}

-- The states of an attempt, by its purpose.
abbrev pub executing_state : ExecutionTargetPurpose → RoutingExecutionState
executing_state ExecutionTargetPurpose.primary = RoutingExecutionState.primary_executing
executing_state ExecutionTargetPurpose.fallback = RoutingExecutionState.fallback_executing
executing_state ExecutionTargetPurpose.escalation = RoutingExecutionState.escalation_executing

abbrev pub validating_state : ExecutionTargetPurpose → RoutingExecutionState
validating_state ExecutionTargetPurpose.primary = RoutingExecutionState.primary_validating
validating_state ExecutionTargetPurpose.fallback = RoutingExecutionState.fallback_validating
validating_state ExecutionTargetPurpose.escalation = RoutingExecutionState.escalation_validating

-- How an attempt ended: with a result of the gateway, with the provider's answer or with its failure;
-- the numbers are the provider's budget and the time it took.
pub data AttemptResult : Type 0 where
  ended : ProviderGatewayResult → AttemptResult
  answered : AiExecutionResult → ℕ → ℕ → AttemptResult
  failed : RoutingFailureCode → ℕ → ℕ → AttemptResult

-- `Math.max(0, Math.min(request.timeoutMs ?? Infinity, providerBudgetMs))`
abbrev pub effective_timeout : Option ℕ → ℕ → ℕ
effective_timeout none budget = budget
effective_timeout (some timeout) budget = min timeout budget

abbrev pub with_timeout : AiRequest → ℕ → AiRequest
with_timeout request timeout = record {
  capability = request.capability;
  prompt = request.prompt;
  context_files = request.context_files;
  workspace = request.workspace;
  timeout_ms = some timeout;
  metadata = request.metadata;
}

abbrev pub ended_in :
    {W : Type 0}
    → ExecutionState
    → W
    → Option ProviderGatewayResult
    → Option (AttemptResult × ExecutionState × W)
ended_in st w none = none
ended_in st w (some result) = some (ended result, st, w)

abbrev kind_of : ProviderReply → AiFailureKind
kind_of (ai_error kind) = kind
kind_of other = AiFailureKind.execution_failed

abbrev pub nanoseconds : ℕ → ℕ
nanoseconds milliseconds = milliseconds * 1000000

module _ (gateway : ProviderRoutingGateway) (plan : ProviderExecutionPlan) (request : AiRequest)
    {W : Type 0} (env : Environment W) where
  -- The `catch` of an attempt: the clock is read, and the failure classified.
  unfoldable pub caught :
      AiFailureKind → ℕ → ℕ → ExecutionState → W → AttemptResult × ExecutionState × W
  caught kind budget_ms started st w =
      let (finished, w1) = env.now w in
      (failed (classify_provider_failure kind) budget_ms (finished - started), st, w1)

  -- After the call: an error is caught, and so is one of the transition that follows an answer.
  unfoldable pub after_reply :
      ProviderExecutionTarget
      → ℕ
      → ℕ
      → ExecutionState
      → ProviderReply
      → W
      → AttemptResult × ExecutionState × W
  unfolding caught
  after_reply target budget_ms started st (replied result) w =
      let (finished, w1) = env.now w in
      elim (transition st.machine (validating_state target.purpose) "PROVIDER_RETURNED") [
        | none ↦ caught AiFailureKind.execution_failed budget_ms started st w1
        | some machine ↦
            (answered result budget_ms (finished - started), with_machine st machine, w1)
      ]
  after_reply target budget_ms started st reply w = caught (kind_of reply) budget_ms started st w

  -- The closure `runAttempt`. The difference of the times is cut off at 0, where the budget is below the
  -- minimum, which is positive.
  unfoldable pub run_attempt :
      DeadlineBudget
      → ℕ
      → ProviderExecutionTarget
      → ExecutionState
      → W
      → Option (AttemptResult × ExecutionState × W)
  unfolding after_reply
  run_attempt budget deadline_at target st w =
      let (now, w1) = env.now w in
      let budget_ms = (deadline_at - now - nanoseconds budget.validation_reserve_ms) / 1000000 in
      let bound = with_target st target in
      if ltb budget_ms budget.minimum_attempt_budget_ms
      then ended_in bound w1 (
          finish gateway plan bound ProviderGatewayTerminalStatus.execution_failed
            (some (routing RoutingFailureCode.deadline_exhausted)) none)
      else elim (binding_failure gateway.bindings target) [
        | some code ↦ ended_in bound w1 (
            finish gateway plan bound ProviderGatewayTerminalStatus.configuration_failed
              (some (binding code)) none)
        | none ↦
            elim (transition st.machine (executing_state target.purpose) "ATTEMPT_DISPATCHED") [
              | none ↦ none
              | some machine ↦
                  let (started, w2) = env.now w1 in
                  let sent =
                    with_timeout request (effective_timeout request.timeout_ms budget_ms) in
                  let (reply, w3) = env.call target.provider_id sent w2 in
                  some (
                    after_reply target budget_ms started
                      (with_call (with_machine st machine) target.provider_id sent) reply w3)
            ]
      ]
