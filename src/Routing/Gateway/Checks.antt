-- ===== src/Routing/Gateway/Checks.antt =====
-- provider-routing-gateway.ts: the checks of a plan and its bindings, and the status of a failure.
use chunsik_bot.Base.{
  ℕ, String, Bool, true, false, not, ◌||◌, Option, none, some, List, [], ◌∷◌, if◌then◌else◌, ◌==◌,
  string_eq, nat_eq, any,
}
use chunsik_bot.Base.Text.{is_routing_identifier, is_version, is_sha256}
use chunsik_bot.Base.Platform.{Platform}
use chunsik_bot.Domain.{capability_eq}
use chunsik_bot.Routing.Contracts.{ProviderId}
use chunsik_bot.Routing.Failure.{
  RoutingFailureCode, RoutingFailureClass, failure_policy, failure_class_eq,
}
use chunsik_bot.Routing.Plan.{
  ProviderBindingFailureCode, ProviderBindingRegistry, get_binding, ProviderExecutionPlan,
  ProviderExecutionTarget, ExecutionTargetPurpose, purpose_eq, max_provider_attempts,
  max_additional_provider_hops, failure_matrix_version, combined_routing_configuration_digest,
  execution_configuration_digest_of, plan_digest_of,
}
use chunsik_bot.Routing.Gateway.{
  AiRequest, ProviderGatewayFailureCode, routing, binding, ProviderGatewayTerminalStatus,
}

unfoldable pub failure_code_name : RoutingFailureCode → String
failure_code_name RoutingFailureCode.routing_configuration_mismatch =
    "ROUTING_CONFIGURATION_MISMATCH"
failure_code_name RoutingFailureCode.binding_mismatch = "BINDING_MISMATCH"
failure_code_name RoutingFailureCode.provider_binding_not_found = "PROVIDER_BINDING_NOT_FOUND"
failure_code_name RoutingFailureCode.provider_disabled = "PROVIDER_DISABLED"
failure_code_name RoutingFailureCode.unknown_validation_profile = "UNKNOWN_VALIDATION_PROFILE"
failure_code_name RoutingFailureCode.provider_unavailable = "PROVIDER_UNAVAILABLE"
failure_code_name RoutingFailureCode.provider_auth_required = "PROVIDER_AUTH_REQUIRED"
failure_code_name RoutingFailureCode.provider_timeout = "PROVIDER_TIMEOUT"
failure_code_name RoutingFailureCode.provider_execution_failed = "PROVIDER_EXECUTION_FAILED"
failure_code_name RoutingFailureCode.provider_spawn_failed = "PROVIDER_SPAWN_FAILED"
failure_code_name RoutingFailureCode.empty_output = "EMPTY_OUTPUT"
failure_code_name RoutingFailureCode.output_limit_violation = "OUTPUT_LIMIT_VIOLATION"
failure_code_name RoutingFailureCode.structural_validation_failed = "STRUCTURAL_VALIDATION_FAILED"
failure_code_name RoutingFailureCode.semantic_validation_failed = "SEMANTIC_VALIDATION_FAILED"
failure_code_name RoutingFailureCode.semantic_validation_unresolved =
    "SEMANTIC_VALIDATION_UNRESOLVED"
failure_code_name RoutingFailureCode.structural_validation_unresolved =
    "STRUCTURAL_VALIDATION_UNRESOLVED"
failure_code_name RoutingFailureCode.deadline_exhausted = "DEADLINE_EXHAUSTED"
failure_code_name RoutingFailureCode.prompt_leak = "PROMPT_LEAK"
failure_code_name RoutingFailureCode.multi_entry_echo = "MULTI_ENTRY_ECHO"
failure_code_name RoutingFailureCode.secret_exposure_risk = "SECRET_EXPOSURE_RISK"
failure_code_name RoutingFailureCode.containment_failure = "CONTAINMENT_FAILURE"
failure_code_name RoutingFailureCode.model_download_detected = "MODEL_DOWNLOAD_DETECTED"
failure_code_name RoutingFailureCode.validator_internal_failure = "VALIDATOR_INTERNAL_FAILURE"

unfoldable pub binding_code_name : ProviderBindingFailureCode → String
binding_code_name ProviderBindingFailureCode.invalid_provider_binding = "INVALID_PROVIDER_BINDING"
binding_code_name ProviderBindingFailureCode.duplicate_provider_binding =
    "DUPLICATE_PROVIDER_BINDING"
binding_code_name ProviderBindingFailureCode.unknown_provider_binding = "UNKNOWN_PROVIDER_BINDING"
binding_code_name ProviderBindingFailureCode.provider_binding_not_found =
    "PROVIDER_BINDING_NOT_FOUND"
binding_code_name ProviderBindingFailureCode.provider_binding_mismatch = "PROVIDER_BINDING_MISMATCH"
binding_code_name ProviderBindingFailureCode.provider_disabled = "PROVIDER_DISABLED"
binding_code_name ProviderBindingFailureCode.routing_configuration_mismatch =
    "ROUTING_CONFIGURATION_MISMATCH"

abbrev pub code_name : ProviderGatewayFailureCode → String
code_name (routing code) = failure_code_name code
code_name (binding code) = binding_code_name code

abbrev pub timeout_invalid : Option ℕ → Bool
timeout_invalid none = false
timeout_invalid (some timeout) = timeout == 0

abbrev pub present :
    Option ProviderExecutionTarget → List ProviderExecutionTarget → List ProviderExecutionTarget
present none rest = rest
present (some target) rest = target ∷ rest

-- The targets that are not null, in order.
abbrev pub targets : ProviderExecutionPlan → List ProviderExecutionTarget
targets plan =
    plan.primary_target ∷ present plan.operational_fallback (present plan.semantic_escalation [])

abbrev pub has_purpose : ExecutionTargetPurpose → Option ProviderExecutionTarget → Bool
has_purpose purpose none = true
has_purpose purpose (some target) = target.purpose == purpose

abbrev pub is_provider : Option ProviderExecutionTarget → ProviderId → Bool
is_provider none id = false
is_provider (some target) id = target.provider_id == id

abbrev pub same_provider : Option ProviderExecutionTarget → Option ProviderExecutionTarget → Bool
same_provider none other = false
same_provider (some target) other = is_provider other target.provider_id

abbrev pub target_malformed : ProviderExecutionTarget → Bool
target_malformed target =
    not (is_routing_identifier target.provider_id)
    || not (target.binding_identity.provider_id == target.provider_id)
    || not (is_version target.binding_identity.binding_version)
    || not (is_sha256 target.binding_identity.binding_digest)

unfoldable pub texts_malformed : ProviderExecutionPlan → AiRequest → Bool
texts_malformed plan request =
    not (is_routing_identifier plan.matched_policy_id)
    || not (is_version plan.policy_version)
    || not (is_version plan.registry_version)
    || not (is_sha256 plan.registry_configuration_digest)
    || not (is_sha256 plan.policy_configuration_digest)
    || not (is_sha256 plan.configuration_digest)
    || not (is_sha256 plan.validation_profile_configuration_digest)
    || not (is_sha256 plan.execution_configuration_digest)
    || not (is_sha256 plan.decision_id)
    || not (is_sha256 plan.plan_digest)
    || not (is_version plan.validation_profile_version)
    || not (is_routing_identifier plan.validation_profile)
    || not (is_routing_identifier plan.execution_id)
    || timeout_invalid request.timeout_ms

module _ (platform : Platform) where
  unfoldable pub structure_malformed : ProviderExecutionPlan → AiRequest → Bool
  structure_malformed plan request =
      not (
        plan.configuration_digest
        == combined_routing_configuration_digest platform plan.registry_configuration_digest
            plan.policy_configuration_digest)
      || not (plan.primary_target.purpose == ExecutionTargetPurpose.primary)
      || not (has_purpose ExecutionTargetPurpose.fallback plan.operational_fallback)
      || not (has_purpose ExecutionTargetPurpose.escalation plan.semantic_escalation)
      || is_provider plan.operational_fallback plan.primary_target.provider_id
      || is_provider plan.semantic_escalation plan.primary_target.provider_id
      || same_provider plan.operational_fallback plan.semantic_escalation
      || any target_malformed (targets plan)
      || not (plan.failure_matrix == failure_matrix_version)
      || not (plan.max_attempts == max_provider_attempts)
      || not (plan.max_additional_hops == max_additional_provider_hops)
      || not
          (plan.execution_configuration_digest == execution_configuration_digest_of platform plan)
      || not (
          plan.plan_digest
          == plan_digest_of platform plan.decision_id plan.execution_configuration_digest)
      || not (request.capability == plan.capability)

  unfoldable pub validate_plan_shape :
      ProviderExecutionPlan → AiRequest → Option ProviderBindingFailureCode
  validate_plan_shape plan request =
      if texts_malformed plan request
      then some ProviderBindingFailureCode.routing_configuration_mismatch
      else if structure_malformed plan request
      then some ProviderBindingFailureCode.routing_configuration_mismatch
      else none

unfoldable pub binding_failure :
    ProviderBindingRegistry → ProviderExecutionTarget → Option ProviderBindingFailureCode
binding_failure registry target = elim (get_binding registry target.provider_id) [
  | none ↦ some ProviderBindingFailureCode.provider_binding_not_found
  | some bound ↦
      if not (bound.provider_id == target.provider_id)
        || not (bound.identity.provider_id == target.provider_id)
        || not (bound.provider == target.provider_id)
        || not (bound.identity.binding_version == target.binding_identity.binding_version)
        || not (bound.identity.binding_digest == target.binding_identity.binding_digest)
      then some ProviderBindingFailureCode.provider_binding_mismatch
      else none
]

-- `Object.values(ProviderBindingFailureCode).includes(code)`: three routing codes have the text of a
-- binding code.
abbrev pub is_binding_code : ProviderGatewayFailureCode → Bool
is_binding_code (binding code) = true
is_binding_code (routing RoutingFailureCode.routing_configuration_mismatch) = true
is_binding_code (routing RoutingFailureCode.provider_binding_not_found) = true
is_binding_code (routing RoutingFailureCode.provider_disabled) = true
is_binding_code (routing other) = false

abbrev pub is_unresolved : RoutingFailureCode → Bool
is_unresolved RoutingFailureCode.semantic_validation_unresolved = true
is_unresolved RoutingFailureCode.structural_validation_unresolved = true
is_unresolved other = false

abbrev pub is_output_failure : RoutingFailureCode → Bool
is_output_failure RoutingFailureCode.empty_output = true
is_output_failure RoutingFailureCode.output_limit_violation = true
is_output_failure other = false

-- `terminalStatus` of a routing code; `none` is the error of `failurePolicy`.
unfoldable pub terminal_status : RoutingFailureCode → Option ProviderGatewayTerminalStatus
terminal_status code =
    if is_binding_code (routing code)
    then some ProviderGatewayTerminalStatus.configuration_failed
    else if is_unresolved code
    then some ProviderGatewayTerminalStatus.human_review_required
    else elim (failure_policy code) [
      | none ↦ none
      | some policy ↦ some (
          if policy.failure_class == RoutingFailureClass.safety
          then ProviderGatewayTerminalStatus.safety_blocked
          else if policy.failure_class == RoutingFailureClass.configuration
          then ProviderGatewayTerminalStatus.configuration_failed
          else if is_output_failure code || policy.failure_class == RoutingFailureClass.validation
          then ProviderGatewayTerminalStatus.rejected
          else ProviderGatewayTerminalStatus.execution_failed)
    ]

abbrev pub needs_review : ProviderGatewayTerminalStatus → Bool
needs_review ProviderGatewayTerminalStatus.human_review_required = true
needs_review other = false

-- `humanReviewRequired`; `none` is the error of `failurePolicy`.
unfoldable pub human_review :
    ProviderGatewayTerminalStatus → Option ProviderGatewayFailureCode → Option Bool
human_review status none = some (needs_review status)
human_review status (some (binding code)) = some (needs_review status)
human_review status (some (routing code)) =
    if needs_review status
    then some true
    else if is_binding_code (routing code)
    then some false
    else elim (failure_policy code) [
      | none ↦ none
      | some policy ↦ some policy.human_review_candidate
    ]
