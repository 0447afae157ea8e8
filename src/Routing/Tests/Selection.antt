-- ===== src/Routing/Tests/Selection.antt =====
-- A registry of two providers under a configuration of two policies.
use chunsik_bot.Base.Sort.{sort}
use chunsik_bot.Routing.Policy.Rules.{freeze_policy}
use chunsik_bot.Base.{ℕ, ◌≡◌, refl, ◌↔◌, ◌≢◌, ◌⊎◌, ◌<◌, true, none, some, [], ◌∷◌, String, In}
use Prim.Native.Nat.{Ordering}
use chunsik_bot.Base.Text.{is_version, is_routing_identifier}
use chunsik_bot.Base.Result.{ok}
use chunsik_bot.Domain.{Capability-discrete, Capability, IntentType}
use chunsik_bot.Routing.Contracts.{
  RankingDimension-discrete, RoutingContext, ProviderDescriptor, ProviderRegistrySnapshot,
  RoutingPredicate, EligibilityRule, RoutingPolicy, RoutingPolicyConfiguration,
  ProviderSelectionDecision, RoutingRequestType, SemanticRisk, LatencyClass, Requirement,
  AuthorityRequirement, OutputSizeClass, ReliabilityTier, SupportLevel, ContextCapacity,
  ExecutionLocality, RoutingClass, LatencyTier, TimeoutClass, CostTier, ConcurrencyClass,
  AvailabilityClass, ProviderAvailability, RankingDimension, SortDirection, TerminalDecision,
  RoutingReasonCode,
}
use chunsik_bot.Routing.Policy.{compare_by_rule, matches_predicate, eligible}
use chunsik_bot.Routing.Policy.Eligibility.{IsEligible, eligible_iff}
use chunsik_bot.Routing.Policy.Engine.{
  compare_candidates, candidates_of, sha256_canonical, combined_digest, freeze_policies, decision,
  RoutingPolicyEngine, new_engine, select,
}
use chunsik_bot.Routing.Policy.Engine.Selection.{IsGoverned, IsUngoverned, select_lem}
use chunsik_bot.Routing.Policy.Engine.Precedence.{select-highest}
use chunsik_bot.Samples.{sample_platform, sample_platform-HasCollation, sample_digest}

abbrev chat_context : RoutingContext
chat_context = record {
  capability = Capability.general_chat;
  request_type = RoutingRequestType.conversational;
  intent_type = IntentType.chat;
  semantic_risk = SemanticRisk.low;
  latency_class = LatencyClass.interactive;
  tool_use_requirement = Requirement.not_required;
  authority_requirement = AuthorityRequirement.not_required;
  continuity_requirement = Requirement.not_required;
  expected_output_size = OutputSizeClass.small;
  validation_profile = "chat";
}

abbrev pub provider : String → ReliabilityTier → ProviderDescriptor
provider id tier = record {
  provider_id = id;
  adapter_id = "cli";
  model_id = "model";
  capabilities = record {
    supported_capabilities = Capability.general_chat ∷ [];
    routing_classes = RoutingClass.balanced ∷ [];
    semantic_reliability = tier;
    authority_reliability = tier;
    continuity_reliability = tier;
    tool_use = SupportLevel.supported;
    structured_output = SupportLevel.supported;
    context_capacity = ContextCapacity.large;
    streaming = SupportLevel.unsupported;
    execution_locality = ExecutionLocality.local;
  };
  operational_profile = record {
    latency_tier = LatencyTier.fast;
    timeout_class = TimeoutClass.short;
    cost_tier = CostTier.low;
    concurrency_class = ConcurrencyClass.single;
    availability_class = AvailabilityClass.local_stable;
  };
  enabled = true;
  profile_version = "1.0.0";
  evidence_binding_digest = none;
}

abbrev pub registry : ProviderRegistrySnapshot
registry = record {
  version = "1.0.0";
  configuration_digest = sample_digest;
  providers =
      record {
        descriptor = provider "small" ReliabilityTier.low;
        availability = ProviderAvailability.available;
      }
      ∷ record {
        descriptor = provider "large" ReliabilityTier.high;
        availability = ProviderAvailability.available;
      }
      ∷ [];
}

abbrev any_request : RoutingPredicate
any_request = record {
  capabilities = none;
  request_types = none;
  intent_types = none;
  semantic_risks = none;
  latency_classes = none;
  tool_use_requirements = none;
  authority_requirements = none;
  continuity_requirements = none;
  output_sizes = none;
  validation_profiles = none;
}

abbrev reliable : EligibilityRule
reliable = record {
  required_routing_classes = none;
  excluded_routing_classes = none;
  minimum_semantic_reliability = some ReliabilityTier.standard;
  minimum_authority_reliability = none;
  minimum_continuity_reliability = none;
  requires_tool_use = none;
  requires_structured_output = none;
  minimum_context_capacity = none;
  execution_locality = none;
}

abbrev policy : String → ℕ → RoutingPolicy
policy id precedence = record {
  policy_id = id;
  version = "1.0.0";
  precedence = precedence;
  when = any_request;
  eligibility = reliable;
  ranking =
      record {
        dimension = RankingDimension.semantic_reliability;
        direction = SortDirection.descending;
        routing_class_preference = none;
      }
      ∷ [];
  terminal = TerminalDecision.no_selection;
}

abbrev configuration : RoutingPolicyConfiguration
configuration = record { version = "1.0.0"; policies = policy "fallback" 1 ∷ policy "main" 10 ∷ [] }

abbrev engine : RoutingPolicyEngine
engine = record {
  policies = policy "main" 10 ∷ policy "fallback" 1 ∷ [];
  policy_version = "1.0.0";
  policy_digest = sample_digest;
}

abbrev chosen : ProviderSelectionDecision
chosen = record {
  selected_provider_id = some "large";
  eligible_provider_ids = "large" ∷ [];
  matched_policy_id = some "main";
  reason_code = RoutingReasonCode.selected;
  policy_version = "1.0.0";
  registry_version = "1.0.0";
  registry_configuration_digest = sample_digest;
  policy_configuration_digest = sample_digest;
  configuration_digest = sample_digest;
}

built : new_engine sample_platform configuration ≡ ok engine
unfolding new_engine freeze_policies freeze_policy sort is_routing_identifier is_version
    sha256_canonical RankingDimension-discrete
built = refl

selects_large : select sample_platform engine chat_context registry ≡ ok chosen
unfolding select decision combined_digest sha256_canonical matches_predicate candidates_of sort
    eligible compare_candidates compare_by_rule is_routing_identifier Capability-discrete
selects_large = refl

eligible_iff_example :
    (eligible (provider "large" ReliabilityTier.high) chat_context reliable ≡ true)
    ↔ IsEligible (provider "large" ReliabilityTier.high) chat_context reliable
eligible_iff_example = eligible_iff (provider "large" ReliabilityTier.high) chat_context reliable

select_lem_example :
    (d : ProviderSelectionDecision) × (select sample_platform engine chat_context registry ≡ ok d)
    × (IsUngoverned engine chat_context d
        ⊎ IsGoverned sample_platform engine chat_context registry d)
unfolding is_routing_identifier
select_lem_example =
    select_lem sample_platform engine chat_context registry sample_platform-HasCollation refl

select-highest_example :
    (governing : RoutingPolicy) × In governing configuration.policies
    × (governing.policy_id ≡ "main")
    × (matches_predicate governing.when chat_context ≡ true)
    × ((other : RoutingPolicy)
        → In other configuration.policies
        → matches_predicate other.when chat_context ≡ true
        → (other.precedence < governing.precedence)
          ⊎ ((other.precedence ≡ governing.precedence)
              × (sample_platform.locale_compare governing.policy_id other.policy_id ≢ Ordering.gt)))
select-highest_example =
    select-highest sample_platform configuration engine chat_context registry chosen "main"
      sample_platform-HasCollation built selects_large refl
