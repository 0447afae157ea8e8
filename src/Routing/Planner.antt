-- ===== src/Routing/Planner.antt =====
-- provider-execution-plan.ts: `ProviderExecutionPlanner.create`, which turns a selection into a bounded
-- plan. An error is thrown with its code. Enumerations are data types, so the checks that a capability
-- or a deadline class is known fall away.
use chunsik_bot.Base.{
  ℕ, String, Bool, true, false, not, ◌&&◌, ◌||◌, Option, none, some, List, [], ◌∷◌, map, filter,
  find, all, contains, distinct, is_some, get_or, if◌then◌else◌, ◌==◌, string_eq, ltb, leb,
}
use chunsik_bot.Base.Text.{is_routing_identifier, is_version, is_sha256}
use chunsik_bot.Base.Result.{Result, ok, err, ◌>>=◌, ◌>>◌, require}
use chunsik_bot.Base.Json.{◌⊕◌, Json, null, str, json_object, json_array, stringify}
use chunsik_bot.Base.Platform.{Platform}
use chunsik_bot.Domain.{Capability}
use chunsik_bot.Routing.Contracts.{
  ProviderId, PolicyId, ValidationProfileId, ProviderRegistrySnapshot, RegisteredProviderSnapshot,
  ProviderSelectionDecision, ProviderDescriptor,
}
use chunsik_bot.Routing.Contracts.Enums.{ReliabilityTier, RoutingReasonCode}
use chunsik_bot.Routing.Contracts.Names.{routing_reason_code_name}
use chunsik_bot.Routing.Policy.{is_available}
use chunsik_bot.Routing.Failure.{RoutingFailureCode}
use chunsik_bot.Routing.Plan.{
  ProviderBindingFailureCode, ProviderBindingRegistry, ValidatedExecutableProviderBinding,
  get_binding, matches_snapshot, DeadlineClass, ExecutionTargetPurpose, purpose_eq,
  max_provider_attempts, max_additional_provider_hops, failure_matrix_version,
  ProviderExecutionTarget, ProviderExecutionPlan, combined_routing_configuration_digest,
  execution_configuration_digest_of, plan_digest_of,
}
use chunsik_bot.Routing.Profile.{ValidationReliabilityAxis, ValidationProfileDefinition, resolve}
use chunsik_bot.Routing.Gateway.Checks.{is_provider, same_provider}
use chunsik_bot.Routing.Gateway.{ProviderGatewayFailureCode, routing, binding}
pub mod Sources
pub mod Inversion
pub mod Admitted
pub mod Create
pub mod Shapes

pub record ProviderExecutionPlanInput : Type 0 where
  pub capability : Capability
  pub validation_profile : ValidationProfileId
  pub deadline_class : DeadlineClass
  pub execution_id : String

pub record ProviderExecutionPlanError : Type 0 where
  pub code : ProviderGatewayFailureCode
  pub message : String

abbrev pub Planned : Type 0 → Type 0
Planned = Result ProviderExecutionPlanError

abbrev pub plan_error : ProviderBindingFailureCode → String → ProviderExecutionPlanError
plan_error code message = record { code = binding code; message = message }

abbrev pub mismatch : String → ProviderExecutionPlanError
mismatch = plan_error ProviderBindingFailureCode.routing_configuration_mismatch

abbrev pub present_or : {A : Type 0} → Option A → ProviderExecutionPlanError → Planned A
present_or none e = err e
present_or (some a) e = ok a

abbrev pub reliability_score : ReliabilityTier → ℕ
reliability_score ReliabilityTier.unproven = 0
reliability_score ReliabilityTier.low = 1
reliability_score ReliabilityTier.standard = 2
reliability_score ReliabilityTier.high = 3

abbrev pub optional_text : Option String → Json
optional_text none = null
optional_text (some text) = str text

unfoldable pub find_entry :
    ProviderRegistrySnapshot → ProviderId → Option RegisteredProviderSnapshot
find_entry registry id =
    find (λ (entry : RegisteredProviderSnapshot). entry.descriptor.provider_id == id)
      registry.providers

abbrev tier_of : ValidationReliabilityAxis → ProviderDescriptor → ReliabilityTier
tier_of ValidationReliabilityAxis.authority d = d.capabilities.authority_reliability
tier_of ValidationReliabilityAxis.semantic d = d.capabilities.semantic_reliability

unfoldable pub reliability :
    ProviderRegistrySnapshot → ProviderId → ValidationReliabilityAxis → Planned ReliabilityTier
reliability registry id axis = do
  entry ← present_or (find_entry registry id) (
      plan_error ProviderBindingFailureCode.unknown_provider_binding
        "Execution target has no descriptor")
  ok (tier_of axis entry.descriptor)

-- The entry of a provider that may run; the errors say whose it is.
unfoldable pub check_entry : ProviderRegistrySnapshot → ProviderId → String → Planned (Unit {0})
check_entry registry id whose = do
  entry ← present_or (find_entry registry id) (
      plan_error ProviderBindingFailureCode.unknown_provider_binding (whose ⊕ " has no descriptor"))
  require entry.descriptor.enabled
      (plan_error ProviderBindingFailureCode.provider_disabled (whose ⊕ " is disabled"))
  require (is_available entry.availability) (mismatch (whose ⊕ " is unavailable"))

unfoldable pub validate_target :
    ProviderExecutionTarget
    → ExecutionTargetPurpose
    → List ProviderId
    → ProviderRegistrySnapshot
    → ProviderBindingRegistry
    → Planned (Unit {0})
validate_target target expected eligible registry bindings = do
  require (target.purpose == expected && contains eligible target.provider_id)
      (mismatch "Invalid execution target purpose or eligibility")
  check_entry registry target.provider_id "Execution target"
  bound ← present_or (get_binding bindings target.provider_id) (
      plan_error ProviderBindingFailureCode.provider_binding_not_found
        "Execution target has no executable binding")
  require
      (bound.provider_id == target.provider_id
        && bound.identity.provider_id == target.provider_id
        && bound.identity.binding_version == target.binding_identity.binding_version
        && bound.identity.binding_digest == target.binding_identity.binding_digest)
      (plan_error ProviderBindingFailureCode.provider_binding_mismatch
        "Execution target binding identity mismatch")

unfoldable pub validate_optional :
    Option ProviderExecutionTarget
    → ExecutionTargetPurpose
    → List ProviderId
    → ProviderRegistrySnapshot
    → ProviderBindingRegistry
    → Planned (Unit {0})
validate_optional none expected eligible registry bindings = ok tt
validate_optional (some target) expected eligible registry bindings =
    validate_target target expected eligible registry bindings

pub record ExecutionTargets : Type 0 where
  pub primary_target : ProviderExecutionTarget
  pub operational_fallback : Option ProviderExecutionTarget
  pub semantic_escalation : Option ProviderExecutionTarget

-- The axis on which a profile lets an execution escalate.
abbrev pub escalation_axis : ValidationProfileDefinition → Option ValidationReliabilityAxis
escalation_axis profile =
    if profile.escalation_enabled then profile.escalation_reliability_axis else none

abbrev pub minimum_reliability : ValidationProfileDefinition → ReliabilityTier
minimum_reliability profile = get_or profile.minimum_escalation_reliability ReliabilityTier.unproven

unfoldable pub assert_stronger :
    Option ProviderExecutionTarget
    → ProviderExecutionTarget
    → ProviderRegistrySnapshot
    → ValidationProfileDefinition
    → Planned (Unit {0})
assert_stronger none primary registry profile = ok tt
assert_stronger (some escalation) primary registry profile = do
  axis ← present_or (escalation_axis profile) (mismatch "Validation profile prohibits escalation")
  reached ← reliability registry escalation.provider_id axis
  base ← reliability registry primary.provider_id axis
  require
      (ltb (reliability_score base) (reliability_score reached)
        && leb (reliability_score (minimum_reliability profile)) (reliability_score reached))
      (mismatch "Escalation target must be stronger")

unfoldable pub assert_provider_execution_targets :
    ExecutionTargets
    → List ProviderId
    → ProviderRegistrySnapshot
    → ProviderBindingRegistry
    → ValidationProfileDefinition
    → Planned (Unit {0})
assert_provider_execution_targets t eligible registry bindings profile = do
  validate_target t.primary_target ExecutionTargetPurpose.primary eligible registry bindings
  validate_optional t.operational_fallback ExecutionTargetPurpose.fallback eligible registry
      bindings
  validate_optional t.semantic_escalation ExecutionTargetPurpose.escalation eligible registry
      bindings
  require
      (not (is_provider t.operational_fallback t.primary_target.provider_id)
        && not (is_provider t.semantic_escalation t.primary_target.provider_id)
        && not (same_provider t.operational_fallback t.semantic_escalation))
      (mismatch "Execution targets must be unique")
  assert_stronger t.semantic_escalation t.primary_target registry profile
