-- ===== src/Routing/Gateway/Loop.antt =====
-- provider-routing-gateway.ts: one round of the loop of `execute`.
use chunsik_bot.Base.{
  ℕ, ◌+◌, String, Bool, false, not, Option, none, some, List, [], ◌∷◌, ◌++◌, map, if◌then◌else◌,
  ◌==◌, string_eq, length, leb, get_or, is_some,
}
use chunsik_bot.Routing.Failure.{
  RoutingFailureCode, RoutingFailurePolicy, RoutingFailureClass, RuntimeValidationResult,
  failure_policy, failure_class_eq, failure_code_eq, classify_validation_failure,
}
use chunsik_bot.Routing.Plan.{ProviderExecutionPlan, ProviderExecutionTarget, purpose_eq}
use chunsik_bot.Routing.Gateway.{
  AiRequest, AiExecutionResult, ContextFile, ProviderAttemptAudit, ProviderAttemptOutcome,
  provider_failed, validation_accepted, validation_rejected, routing, ProviderGatewayTerminalStatus,
  ProviderRoutingGateway, DeadlineBudget, ValidationProfileView, ResponseValidator, Environment,
  ProviderRoutingValidationFacts, RuntimeValidationInputView,
}
use chunsik_bot.Routing.Gateway.Execution.{
  ExecutionState, finish, run_attempt, ended, answered, failed, with_target,
}
use chunsik_bot.Routing.Gateway.Hops.{Round, after_failure, after_rejection, stop, stop_with}

abbrev pub failure_audit :
    ExecutionState → ProviderExecutionTarget → RoutingFailureCode → ℕ → ℕ → ProviderAttemptAudit
failure_audit st target code budget_ms duration = record {
  attempt_index = length st.attempts + 1;
  purpose = target.purpose;
  provider_id = target.provider_id;
  binding_digest = target.binding_identity.binding_digest;
  outcome = provider_failed;
  failure_code = some code;
  validation_disposition = none;
  validation_reason_codes = [];
  validation_succeeded = false;
  response_sha256 = none;
  response_byte_count = none;
  provider_budget_ms = budget_ms;
  duration = duration;
}

abbrev outcome_of : Option RoutingFailureCode → ProviderAttemptOutcome
outcome_of none = validation_accepted
outcome_of (some code) = validation_rejected

abbrev pub validation_audit :
    ExecutionState
    → ProviderExecutionTarget
    → Option RoutingFailureCode
    → RuntimeValidationResult
    → ℕ
    → ℕ
    → ProviderAttemptAudit
validation_audit st target failure validation budget_ms duration = record {
  attempt_index = length st.attempts + 1;
  purpose = target.purpose;
  provider_id = target.provider_id;
  binding_digest = target.binding_identity.binding_digest;
  outcome = outcome_of failure;
  failure_code = failure;
  validation_disposition = some validation.disposition;
  validation_reason_codes = validation.reason_codes;
  validation_succeeded = not (is_some failure);
  response_sha256 = some validation.response_sha256;
  response_byte_count = some validation.byte_count;
  provider_budget_ms = budget_ms;
  duration = duration;
}

abbrev pub with_attempt : ExecutionState → ProviderAttemptAudit → ExecutionState
with_attempt st attempt = record {
  machine = st.machine;
  attempts = st.attempts ++ attempt ∷ [];
  path = st.path;
  final_target = st.final_target;
  calls = st.calls;
}

abbrev contents : Option (List ContextFile) → Option (List String)
contents none = none
contents (some files) = some (map (λ (file : ContextFile). file.content) files)

-- `validationFacts && 'contextCorpus' in validationFacts ? … : request.contextFiles?.map(…)`
abbrev corpus_of : Option ProviderRoutingValidationFacts → AiRequest → Option (List String)
corpus_of none request = contents request.context_files
corpus_of (some facts) request = get_or facts.context_corpus (contents request.context_files)

abbrev recency_of : Option ProviderRoutingValidationFacts → Option String
recency_of none = none
recency_of (some facts) = facts.recency_fact

abbrev turn_of : Option ProviderRoutingValidationFacts → Option String
turn_of none = none
turn_of (some facts) = facts.current_user_turn

abbrev pub validation_input :
    ProviderExecutionPlan
    → AiRequest
    → Option ProviderRoutingValidationFacts
    → AiExecutionResult
    → RuntimeValidationInputView
validation_input plan request facts result = record {
  validation_profile = plan.validation_profile;
  prompt = request.prompt;
  recency_fact = recency_of facts;
  current_user_turn = turn_of facts;
  context_corpus = corpus_of facts request;
  result = result;
}

abbrev pub is_safety : RoutingFailurePolicy → Bool
is_safety policy = policy.failure_class == RoutingFailureClass.safety

module _ (gateway : ProviderRoutingGateway) (validator : ResponseValidator)
    (plan : ProviderExecutionPlan) (request : AiRequest)
    (facts : Option ProviderRoutingValidationFacts) {W : Type 0} (env : Environment W) where
  -- The deadline is looked at again, and an accepted response ends the execution.
  unfoldable pub after_safety :
      ValidationProfileView
      → ℕ
      → ProviderExecutionTarget
      → AiExecutionResult
      → RuntimeValidationResult
      → Option (RoutingFailureCode × RoutingFailurePolicy)
      → ExecutionState
      → W
      → Option (Round W)
  unfolding after_rejection
  after_safety profile deadline_at target result validation failure st w =
      let (now, w1) = env.now w in
      if leb deadline_at now
      then stop_with st w1 (
          finish gateway plan st ProviderGatewayTerminalStatus.execution_failed
            (some (routing RoutingFailureCode.deadline_exhausted)) none)
      else elim failure [
        | some (code, policy) ↦
            after_rejection gateway plan profile target validation code policy st w1
        | none ↦ elim (validator.project result validation) [
          | none ↦ none
          | some output ↦
              stop_with st w1
                (finish gateway plan st ProviderGatewayTerminalStatus.accepted none (some output))
        ]
      ]

  unfoldable pub after_answer :
      ValidationProfileView
      → ℕ
      → ProviderExecutionTarget
      → AiExecutionResult
      → ℕ
      → ℕ
      → ExecutionState
      → W
      → Option (Round W)
  unfolding after_safety
  after_answer profile deadline_at target result budget_ms duration st w =
      let validation = validator.validate (validation_input plan request facts result) in
      elim (classify_validation_failure validation) [
        | none ↦ none
        | some none ↦
            after_safety profile deadline_at target result validation none
              (with_attempt st (validation_audit st target none validation budget_ms duration)) w
        | some (some code) ↦
            let next =
              with_attempt st
                (validation_audit st target (some code) validation budget_ms duration) in
            elim (failure_policy code) [
              | none ↦ none
              | some policy ↦
                  if is_safety policy
                  then stop_with next w (
                      finish gateway plan next ProviderGatewayTerminalStatus.safety_blocked
                        (some (routing code)) none)
                  else after_safety profile deadline_at target result validation
                      (some (code, policy)) next w
            ]
      ]

  -- One round of the loop, for its target.
  unfoldable pub round :
      ValidationProfileView
      → DeadlineBudget
      → ℕ
      → ProviderExecutionTarget
      → ExecutionState
      → W
      → Option (Round W)
  unfolding after_answer
  round profile budget deadline_at target st w =
      elim (run_attempt gateway plan request env budget deadline_at target (with_target st target)
        w) [
          | none ↦ none
          | some (ended result, next, w1) ↦ some (stop result next w1)
          | some (failed code budget_ms duration, next, w1) ↦
              after_failure gateway plan target code
                (with_attempt next (failure_audit next target code budget_ms duration)) w1
          | some (answered result budget_ms duration, next, w1) ↦
              after_answer profile deadline_at target result budget_ms duration next w1
        ]
