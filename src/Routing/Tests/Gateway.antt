-- ===== src/Routing/Tests/Gateway.antt =====
-- A plan of one provider that answers.
use chunsik_bot.Routing.Machine.{new_machine, RoutingExecutionState-discrete, allowed, transition}
use chunsik_bot.Routing.Gateway.Loop.{after_safety, after_answer, round}
use chunsik_bot.Base.Text.{is_sha256, is_version, is_routing_identifier}
use chunsik_bot.Routing.Gateway.Checks.{
  human_review, binding_failure, structure_malformed, texts_malformed, validate_plan_shape,
}
use chunsik_bot.Base.{ℕ, suc, ◌*◌, ◌≡◌, refl, false, Option, none, some, [], ◌∷◌, String, string_eq}
use chunsik_bot.Domain.{Capability-discrete, Capability}
use chunsik_bot.Routing.Failure.{classify_validation_failure, ValidationDisposition}
use chunsik_bot.Routing.Plan.{
  ExecutionTargetPurpose-discrete, get_binding, plan_digest_of, execution_configuration_digest_of,
  combined_routing_configuration_digest, ProviderBindingIdentity, ProviderExecutionPlan,
  ProviderExecutionTarget, ExecutionTargetPurpose, DeadlineClass,
}
use chunsik_bot.Routing.Gateway.{
  AiRequest, ProviderGatewayResult, ProviderGatewayTerminalStatus, ProviderRoutingGateway,
  ResponseValidator, Environment, replied, deadline_policy_version, budget_of,
}
use chunsik_bot.Routing.Gateway.Execution.{
  end_machine, finish, after_reply, run_attempt, ExecutionState,
}
use chunsik_bot.Routing.Gateway.Run.{start_state, loop, check_bindings, preflight, execute}
use chunsik_bot.Routing.Gateway.Answers.{ProjectsAccepted, IsValidated}
use chunsik_bot.Routing.Gateway.Correct.{execute-IsBounded, IsBounded}
use chunsik_bot.Samples.{sample_platform, sample_digest}

abbrev identity : String → ProviderBindingIdentity
identity id = record { provider_id = id; binding_version = "1.0.0"; binding_digest = sample_digest }

abbrev target : ExecutionTargetPurpose → String → ProviderExecutionTarget
target purpose id = record { purpose = purpose; provider_id = id; binding_identity = identity id }

abbrev pub plan : ProviderExecutionPlan
plan = record {
  registry_configuration_digest = sample_digest;
  policy_configuration_digest = sample_digest;
  validation_profile_configuration_digest = sample_digest;
  failure_matrix = "routing-failure-matrix-v4";
  max_attempts = 2;
  max_additional_hops = 1;
  deadline_class = DeadlineClass.interactive;
  capability = Capability.general_chat;
  validation_profile = "GENERAL_CHAT";
  matched_policy_id = "main";
  primary_target = target ExecutionTargetPurpose.primary "large";
  operational_fallback = some (target ExecutionTargetPurpose.fallback "small");
  semantic_escalation = none;
  validation_profile_version = "1.0.0";
  decision_id = sample_digest;
  execution_id = "execution-1";
  execution_configuration_digest = sample_digest;
  plan_digest = sample_digest;
  policy_version = "1.0.0";
  registry_version = "1.0.0";
  configuration_digest = sample_digest;
}

abbrev pub request : AiRequest
request = record {
  capability = Capability.general_chat;
  prompt = "hello";
  context_files = none;
  workspace = none;
  timeout_ms = none;
  metadata = none;
}

abbrev pub gateway : ProviderRoutingGateway
gateway = record {
  bindings = record {
    bindings =
        record { provider_id = "large"; identity = identity "large"; provider = "large" }
        ∷ record { provider_id = "small"; identity = identity "small"; provider = "small" }
        ∷ [];
    registry_version = "1.0.0";
    registry_configuration_digest = sample_digest;
  };
  resolve_profile = λ id. some (record {
    version = "1.0.0";
    configuration_digest = sample_digest;
    escalation_enabled = false;
  });
  deadline_version = deadline_policy_version;
  resolve_deadline = λ c. some (budget_of c);
}

abbrev validator : ResponseValidator
validator = record {
  validate = λ input. record {
    disposition = ValidationDisposition.accept;
    reason_codes = [];
    response_sha256 = sample_digest;
    byte_count = 2;
    profile_version = "1.0.0";
    rule_contract_version = "routing-response-rules-v2";
  };
  project = λ result validation. some (record {
    text = result.text;
    artifacts = [];
    response_sha256 = validation.response_sha256;
    byte_count = validation.byte_count;
  });
}

validator-ProjectsAccepted : ProjectsAccepted validator
validator-ProjectsAccepted input accepted = (_, refl)

-- A clock that a reading moves on by a millisecond, and providers that answer.
abbrev pub environment : Environment ℕ
environment = record {
  now = λ t. (t * 1000000, suc t);
  call = λ id sent t.
      (replied (record { text = "hi"; artifacts = none; audit = none; raw = none }), suc t);
}

execute-IsBounded_example :
    (r : ProviderGatewayResult) × (st : ExecutionState) × (last : ℕ) × (execute sample_platform
        gateway validator plan request none environment 0
      ≡ some (r, st, last))
    × IsBounded (IsValidated validator plan request none environment) r st
execute-IsBounded_example =
    execute-IsBounded sample_platform gateway validator plan request none environment 0
      validator-ProjectsAccepted

abbrev status_of :
    Option (ProviderGatewayResult × ExecutionState × ℕ) → Option ProviderGatewayTerminalStatus
status_of none = none
status_of (some (r, st, last)) = some r.status

accepted_at_once :
    status_of (execute sample_platform gateway validator plan request none environment 0)
    ≡ some ProviderGatewayTerminalStatus.accepted
unfolding execute preflight validate_plan_shape texts_malformed structure_malformed
    is_routing_identifier is_version is_sha256 combined_routing_configuration_digest
    execution_configuration_digest_of plan_digest_of check_bindings binding_failure get_binding loop
    round run_attempt after_reply after_answer after_safety classify_validation_failure transition
    allowed RoutingExecutionState-discrete ExecutionTargetPurpose-discrete Capability-discrete
    new_machine start_state finish end_machine human_review
accepted_at_once = refl
