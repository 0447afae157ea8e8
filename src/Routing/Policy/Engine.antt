-- ===== src/Routing/Policy/Engine.antt =====
-- routing-policy-engine.ts: the class `RoutingPolicyEngine`, its constructor and `select`.
pub mod Selection
pub mod Precedence
use Prim.Native.Nat.{compare, Ordering}
use chunsik_bot.Base.{
  ℕ, String, Bool, true, false, not, ◌&&◌, Option, none, some, List, [], ◌∷◌, map, if◌then◌else◌,
  ◌==◌, string_eq, find, filter, contains, is_empty,
}
use chunsik_bot.Base.Text.{is_routing_identifier}
use chunsik_bot.Base.Sort.{sort, or_compare}
use chunsik_bot.Base.Result.{Result, ok, err, ◌>>=◌, ◌>>◌, require}
use chunsik_bot.Base.Json.{Json, str, json_object, json_array, stringify, ◌⊕◌}
use chunsik_bot.Base.Platform.{Platform}
use chunsik_bot.Routing.Contracts.{
  RoutingContext, ProviderDescriptor, ProviderRegistrySnapshot, RegisteredProviderSnapshot,
  RankingRule, RoutingPolicy, RoutingPolicyConfiguration, ProviderSelectionDecision, ProviderId,
  PolicyId, RoutingReasonCode, selected, policy_not_matched, no_eligible_provider,
}
use chunsik_bot.Routing.Policy.{is_available, matches_predicate, eligible, compare_by_rule}
use chunsik_bot.Routing.Policy.Rules.{
  freeze_policy, ConfigurationError, configuration_error, Checked, assert_version,
}
use chunsik_bot.Routing.Policy.Canonical.{canonical_policy}

pub record RoutingPolicyEngine : Type 0 where
  pub policies : List RoutingPolicy
  pub policy_version : String
  pub policy_digest : String

-- The loop over `configuration.policies`, with the ids seen so far.
unfoldable pub freeze_policies : List PolicyId → List RoutingPolicy → Checked (List RoutingPolicy)
freeze_policies ids [] = ok []
freeze_policies ids (policy ∷ rest) = do
  require (is_routing_identifier policy.policy_id) (configuration_error "Invalid policyId")
  require (not (contains ids policy.policy_id))
      (configuration_error ("Duplicate policyId: " ⊕ policy.policy_id))
  frozen ← freeze_policy policy
  others ← freeze_policies (policy.policy_id ∷ ids) rest
  ok (frozen ∷ others)

-- The registry view that the selection reads.
abbrev pub available_descriptors : List RegisteredProviderSnapshot → List ProviderDescriptor
available_descriptors entries =
    map (λ (entry : RegisteredProviderSnapshot). entry.descriptor)
      (filter (λ entry. is_available entry.availability) entries)

module _ (platform : Platform) where
  open platform use {sha256, locale_compare}

  unfoldable pub sha256_canonical : Json → String
  sha256_canonical value = sha256 (stringify value)

  abbrev pub by_precedence : RoutingPolicy → RoutingPolicy → Ordering
  by_precedence a b =
      or_compare (compare b.precedence a.precedence) (locale_compare a.policy_id b.policy_id)

  abbrev by_policy_id : RoutingPolicy → RoutingPolicy → Ordering
  by_policy_id a b = locale_compare a.policy_id b.policy_id

  unfoldable pub new_engine : RoutingPolicyConfiguration → Checked RoutingPolicyEngine
  unfolding freeze_policies sha256_canonical
  new_engine configuration = do
    assert_version configuration.version "policyConfiguration.version"
    require (not (is_empty configuration.policies))
        (configuration_error "Routing policy configuration must not be empty")
    frozen ← freeze_policies [] configuration.policies
    let policies = sort by_precedence frozen
    ok (record {
      policies = policies;
      policy_version = configuration.version;
      policy_digest = sha256_canonical (
          json_object (
            ("version", str configuration.version)
            ∷ ("policies", json_array (map canonical_policy (sort by_policy_id policies)))
            ∷ []));
    })

  -- The comparator of the candidates: the rules in turn, then the provider id.
  unfoldable pub compare_candidates :
      List RankingRule → ProviderDescriptor → ProviderDescriptor → Ordering
  compare_candidates [] a b = locale_compare a.provider_id b.provider_id
  compare_candidates (rule ∷ rules) a b =
      or_compare (compare_by_rule a b rule) (compare_candidates rules a b)

  unfoldable pub candidates_of :
      RoutingPolicy → RoutingContext → ProviderRegistrySnapshot → List ProviderDescriptor
  candidates_of policy context registry = sort (compare_candidates policy.ranking) (
      filter (λ descriptor. eligible descriptor context policy.eligibility)
        (available_descriptors registry.providers))

  unfoldable pub combined_digest : String → ProviderRegistrySnapshot → String
  unfolding sha256_canonical
  combined_digest policy_digest registry = sha256_canonical (
      json_object (
        ("registryDigest", str registry.configuration_digest)
        ∷ ("policyDigest", str policy_digest)
        ∷ []))

  -- The private method `decision`.
  unfoldable pub decision :
      RoutingPolicyEngine
      → ProviderRegistrySnapshot
      → Option ProviderId
      → List ProviderId
      → Option PolicyId
      → RoutingReasonCode
      → ProviderSelectionDecision
  unfolding combined_digest
  decision engine registry selected_id eligible_ids policy_id reason = record {
    selected_provider_id = selected_id;
    eligible_provider_ids = eligible_ids;
    matched_policy_id = policy_id;
    reason_code = reason;
    policy_version = engine.policy_version;
    registry_version = registry.version;
    registry_configuration_digest = registry.configuration_digest;
    policy_configuration_digest = engine.policy_digest;
    configuration_digest = combined_digest engine.policy_digest registry;
  }

  abbrev pub decide_among :
      RoutingPolicyEngine
      → ProviderRegistrySnapshot
      → PolicyId
      → List ProviderId
      → ProviderSelectionDecision
  decide_among engine registry policy_id [] =
      decision engine registry none [] (some policy_id) no_eligible_provider
  decide_among engine registry policy_id (first ∷ rest) =
      decision engine registry (some first) (first ∷ rest) (some policy_id) selected

  unfoldable pub select :
      RoutingPolicyEngine
      → RoutingContext
      → ProviderRegistrySnapshot
      → Checked ProviderSelectionDecision
  select engine context registry = do
    require (is_routing_identifier context.validation_profile)
        (configuration_error "Invalid validationProfile")
    ok (elim (find (λ candidate. matches_predicate candidate.when context) engine.policies) [
      | none ↦ decision engine registry none [] none policy_not_matched
      | some policy ↦
          decide_among engine registry policy.policy_id
            (map (λ candidate. candidate.provider_id) (candidates_of policy context registry))
    ])
