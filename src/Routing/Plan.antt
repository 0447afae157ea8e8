-- ===== src/Routing/Plan.antt =====
-- provider-execution-plan.ts and provider-binding-registry.ts: the bounded plan of one execution, its
-- digests, and the bindings that make a provider executable.
use chunsik_bot.Base.{
  ℕ, String, Bool, ◌&&◌, Option, none, some, List, [], ◌∷◌, find, ◌==◌, string_eq, Eq, discrete_eq,
}
use chunsik_bot.Base.Json.{Json, null, num, str, json_object, stringify}
use chunsik_bot.Base.Platform.{Platform}
use chunsik_bot.Domain.{Capability}
use chunsik_bot.Domain.Names.{capability_name}
use chunsik_bot.Routing.Contracts.{
  ProviderId, PolicyId, ValidationProfileId, ProviderRegistrySnapshot,
}

pub data ProviderBindingFailureCode : Type 0 where
  invalid_provider_binding duplicate_provider_binding unknown_provider_binding
        provider_binding_not_found provider_binding_mismatch provider_disabled
        routing_configuration_mismatch :
      ProviderBindingFailureCode

pub record ProviderBindingIdentity : Type 0 where
  pub provider_id : ProviderId
  pub binding_version : String
  pub binding_digest : String

-- The provider itself is outside; the field holds `provider.id`.
pub record ValidatedExecutableProviderBinding : Type 0 where
  pub provider_id : ProviderId
  pub identity : ProviderBindingIdentity
  pub provider : String

pub record ProviderBindingRegistry : Type 0 where
  pub bindings : List ValidatedExecutableProviderBinding
  pub registry_version : String
  pub registry_configuration_digest : String

unfoldable pub get_binding :
    ProviderBindingRegistry → ProviderId → Option ValidatedExecutableProviderBinding
get_binding registry id = find (λ binding. binding.provider_id == id) registry.bindings

unfoldable pub matches_snapshot : ProviderBindingRegistry → ProviderRegistrySnapshot → Bool
matches_snapshot registry snapshot =
    snapshot.version == registry.registry_version
    && snapshot.configuration_digest == registry.registry_configuration_digest

pub data DeadlineClass : Type 0 where
  interactive standard extended : DeadlineClass

pub data ExecutionTargetPurpose : Type 0 where
  primary fallback escalation : ExecutionTargetPurpose

unfoldable pub ExecutionTargetPurpose-discrete : Discrete ExecutionTargetPurpose
ExecutionTargetPurpose-discrete = hlevel

instance abbrev pub purpose_eq : Eq ExecutionTargetPurpose
purpose_eq = discrete_eq ExecutionTargetPurpose-discrete

unfoldable pub deadline_class_name : DeadlineClass → String
deadline_class_name interactive = "INTERACTIVE"
deadline_class_name standard = "STANDARD"
deadline_class_name extended = "EXTENDED"

unfoldable pub purpose_name : ExecutionTargetPurpose → String
purpose_name primary = "PRIMARY"
purpose_name fallback = "FALLBACK"
purpose_name escalation = "ESCALATION"

abbrev pub max_provider_attempts : ℕ
max_provider_attempts = 2

abbrev pub max_additional_provider_hops : ℕ
max_additional_provider_hops = 1

abbrev pub failure_matrix_version : String
failure_matrix_version = "routing-failure-matrix-v4"

pub record ProviderExecutionTarget : Type 0 where
  pub purpose : ExecutionTargetPurpose
  pub provider_id : ProviderId
  pub binding_identity : ProviderBindingIdentity

-- The digest material and the fields that the plan adds to it.
pub record ProviderExecutionPlan : Type 0 where
  pub registry_configuration_digest : String
  pub policy_configuration_digest : String
  pub validation_profile_configuration_digest : String
  pub failure_matrix : String
  pub max_attempts : ℕ
  pub max_additional_hops : ℕ
  pub deadline_class : DeadlineClass
  pub capability : Capability
  pub validation_profile : ValidationProfileId
  pub matched_policy_id : PolicyId
  pub primary_target : ProviderExecutionTarget
  pub operational_fallback : Option ProviderExecutionTarget
  pub semantic_escalation : Option ProviderExecutionTarget
  pub validation_profile_version : String
  pub decision_id : String
  pub execution_id : String
  pub execution_configuration_digest : String
  pub plan_digest : String
  pub policy_version : String
  pub registry_version : String
  pub configuration_digest : String

abbrev target_digest_shape : ProviderExecutionTarget → Json
target_digest_shape target = json_object (
    ("purpose", str (purpose_name target.purpose))
    ∷ ("providerId", str target.provider_id)
    ∷ ("bindingDigest", str target.binding_identity.binding_digest)
    ∷ [])

abbrev optional_target : Option ProviderExecutionTarget → Json
optional_target none = null
optional_target (some target) = target_digest_shape target

module _ (platform : Platform) where
  open platform use {sha256}

  unfoldable pub combined_routing_configuration_digest : String → String → String
  combined_routing_configuration_digest registry policy = sha256 (
      stringify
        (json_object (("registryDigest", str registry) ∷ ("policyDigest", str policy) ∷ [])))

  unfoldable pub execution_configuration_digest_of : ProviderExecutionPlan → String
  execution_configuration_digest_of m = sha256 (
      stringify (
        json_object (
          ("registryConfigurationDigest", str m.registry_configuration_digest)
          ∷ ("policyConfigurationDigest", str m.policy_configuration_digest)
          ∷ ("validationProfileConfigurationDigest", str m.validation_profile_configuration_digest)
          ∷ ("failureMatrixVersion", str m.failure_matrix)
          ∷ ("maxAttempts", num m.max_attempts)
          ∷ ("maxAdditionalHops", num m.max_additional_hops)
          ∷ ("deadlineClass", str (deadline_class_name m.deadline_class))
          ∷ ("capability", str (capability_name m.capability))
          ∷ ("validationProfile", str m.validation_profile)
          ∷ ("matchedPolicyId", str m.matched_policy_id)
          ∷ ("primary", target_digest_shape m.primary_target)
          ∷ ("operationalFallback", optional_target m.operational_fallback)
          ∷ ("semanticEscalation", optional_target m.semantic_escalation)
          ∷ [])))

  unfoldable pub plan_digest_of : String → String → String
  plan_digest_of decision_id execution_configuration_digest = sha256 (
      stringify (
        json_object (
          ("decisionId", str decision_id)
          ∷ ("executionConfigurationDigest", str execution_configuration_digest)
          ∷ [])))
