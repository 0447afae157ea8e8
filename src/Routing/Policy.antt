-- ===== src/Routing/Policy.antt =====
-- routing-policy-engine.ts: which policy governs a request, which providers it admits, in which
-- order. Enumerations are data types here, so the checks that a text is one of them fall away.
pub mod Eligibility
pub mod Rules
pub mod Canonical
pub mod Engine
use Prim.Native.Nat.{compare, Ordering}
use chunsik_bot.Base.{
  ℕ, zero, suc, min, String, Bool, true, false, not, ◌&&◌, ◌||◌, Option, none, some, List, [], ◌∷◌,
  map, leb, ltb, if◌then◌else◌, ◌==◌, string_eq, find, filter, any, contains, get_or, is_empty,
}
use chunsik_bot.Base.Text.{is_routing_identifier, is_version}
use chunsik_bot.Base.Sort.{sort}
use chunsik_bot.Base.Result.{Result, ok, err, ◌>>=◌, ◌>>◌, require}
use chunsik_bot.Base.Json.{Json, str, json_object, json_array, stringify}
use chunsik_bot.Domain.{capability_eq, intent_type_eq}
use chunsik_bot.Routing.Contracts.{
  RoutingContext, ProviderCapabilities, ProviderDescriptor, ProviderRegistrySnapshot,
  RegisteredProviderSnapshot, RoutingPredicate, EligibilityRule, RankingRule, RoutingPolicy,
  RoutingPolicyConfiguration, ProviderSelectionDecision, ProviderId, PolicyId, Requirement,
  required, SupportLevel, supported, ProviderAvailability, available, ReliabilityTier,
  ContextCapacity, ExecutionLocality, LatencyTier, CostTier, RoutingClass, RankingDimension,
  SortDirection, ascending, descending, RoutingReasonCode, selected, policy_not_matched,
  no_eligible_provider, routing_request_type_eq, semantic_risk_eq, latency_class_eq, requirement_eq,
  authority_requirement_eq, output_size_class_eq, routing_class_eq, execution_locality_eq,
}

abbrev pub reliability_order : ReliabilityTier → ℕ
reliability_order ReliabilityTier.unproven = 0
reliability_order ReliabilityTier.low = 1
reliability_order ReliabilityTier.standard = 2
reliability_order ReliabilityTier.high = 3

abbrev pub context_order : ContextCapacity → ℕ
context_order ContextCapacity.small = 0
context_order ContextCapacity.medium = 1
context_order ContextCapacity.large = 2

abbrev pub latency_order : LatencyTier → ℕ
latency_order LatencyTier.fast = 0
latency_order LatencyTier.balanced = 1
latency_order LatencyTier.slow = 2
latency_order LatencyTier.unknown = 3

abbrev pub cost_order : CostTier → ℕ
cost_order CostTier.low = 0
cost_order CostTier.standard = 1
cost_order CostTier.high = 2
cost_order CostTier.unknown = 3

-- `allowed === undefined || allowed.includes(actual)`
abbrev pub matches : {T : Type 0} → (T → T → Bool) → Option (List T) → T → Bool
matches same none actual = true
matches same (some allowed) actual = any (λ value. same value actual) allowed

unfoldable pub matches_predicate : RoutingPredicate → RoutingContext → Bool
matches_predicate p c =
    matches ◌==◌ p.capabilities c.capability
    && matches ◌==◌ p.request_types c.request_type
    && matches ◌==◌ p.intent_types c.intent_type
    && matches ◌==◌ p.semantic_risks c.semantic_risk
    && matches ◌==◌ p.latency_classes c.latency_class
    && matches ◌==◌ p.tool_use_requirements c.tool_use_requirement
    && matches ◌==◌ p.authority_requirements c.authority_requirement
    && matches ◌==◌ p.continuity_requirements c.continuity_requirement
    && matches ◌==◌ p.output_sizes c.expected_output_size
    && matches ◌==◌ p.validation_profiles c.validation_profile

abbrev pub at_least : ReliabilityTier → Option ReliabilityTier → Bool
at_least actual none = true
at_least actual (some minimum) = leb (reliability_order minimum) (reliability_order actual)

abbrev pub is_supported : SupportLevel → Bool
is_supported supported = true
is_supported _ = false

abbrev pub is_required : Requirement → Bool
is_required required = true
is_required _ = false

abbrev pub is_available : ProviderAvailability → Bool
is_available available = true
is_available _ = false

-- `rule.requires… === true`
abbrev pub demands : Option Bool → Bool
demands (some true) = true
demands _ = false

abbrev pub capacity_short : Option ContextCapacity → ContextCapacity → Bool
capacity_short none actual = false
capacity_short (some minimum) actual = ltb (context_order actual) (context_order minimum)

abbrev pub shares_class : List RoutingClass → List RoutingClass → Bool
shares_class wanted classes = any (λ value. contains classes value) wanted

abbrev pub locality_differs : Option ExecutionLocality → ExecutionLocality → Bool
locality_differs none actual = false
locality_differs (some locality) actual = not (actual == locality)

abbrev pub misses_required_class : Option (List RoutingClass) → List RoutingClass → Bool
misses_required_class none classes = false
misses_required_class (some wanted) classes = not (shares_class wanted classes)

abbrev pub has_excluded_class : Option (List RoutingClass) → List RoutingClass → Bool
has_excluded_class none classes = false
has_excluded_class (some excluded) classes = shares_class excluded classes

-- The early returns, in order.
unfoldable pub eligible : ProviderDescriptor → RoutingContext → EligibilityRule → Bool
eligible d context rule =
    if not d.enabled || not (contains c.supported_capabilities context.capability)
    then false
    else if is_required context.tool_use_requirement && not (is_supported c.tool_use)
    then false
    else if demands rule.requires_tool_use && not (is_supported c.tool_use)
    then false
    else if demands rule.requires_structured_output && not (is_supported c.structured_output)
    then false
    else if locality_differs rule.execution_locality c.execution_locality
    then false
    else if capacity_short rule.minimum_context_capacity c.context_capacity
    then false
    else if not (at_least c.semantic_reliability rule.minimum_semantic_reliability)
    then false
    else if not (at_least c.authority_reliability rule.minimum_authority_reliability)
    then false
    else if not (at_least c.continuity_reliability rule.minimum_continuity_reliability)
    then false
    else if misses_required_class rule.required_routing_classes c.routing_classes
    then false
    else if has_excluded_class rule.excluded_routing_classes c.routing_classes
    then false
    else true
  where
    open d use {capabilities as c}

abbrev pub compare_number : ℕ → ℕ → SortDirection → Ordering
compare_number a b ascending = compare a b
compare_number a b descending = compare b a

-- `preference.indexOf(value)`; `none` is -1.
unfoldable pub index_of : List RoutingClass → RoutingClass → Option ℕ
index_of [] value = none
index_of (c ∷ cs) value =
    if c == value then some 0 else elim (index_of cs value) [ none ↦ none | some i ↦ some (suc i) ]

abbrev pub max_safe_integer : ℕ
max_safe_integer = 9007199254740991

abbrev least : Option ℕ → Option ℕ → Option ℕ
least none other = other
least (some i) none = some i
least (some i) (some j) = some (min i j)

-- `Math.min` of the indexes that are not -1
least_index : List RoutingClass → List RoutingClass → Option ℕ
unfolding index_of
least_index preference [] = none
least_index preference (c ∷ cs) = least (index_of preference c) (least_index preference cs)

unfoldable pub class_rank : ProviderDescriptor → List RoutingClass → ℕ
unfolding least_index
class_rank d preference =
    get_or (least_index preference d.capabilities.routing_classes) max_safe_integer

-- What a dimension reads of a descriptor.
unfoldable pub dimension_value :
    RankingDimension → Option (List RoutingClass) → ProviderDescriptor → ℕ
dimension_value RankingDimension.routing_class preference d = class_rank d (get_or preference [])
dimension_value RankingDimension.semantic_reliability _ d =
    reliability_order d.capabilities.semantic_reliability
dimension_value RankingDimension.authority_reliability _ d =
    reliability_order d.capabilities.authority_reliability
dimension_value RankingDimension.continuity_reliability _ d =
    reliability_order d.capabilities.continuity_reliability
dimension_value RankingDimension.latency_tier _ d = latency_order d.operational_profile.latency_tier
dimension_value RankingDimension.cost_tier _ d = cost_order d.operational_profile.cost_tier

unfoldable pub compare_by_rule : ProviderDescriptor → ProviderDescriptor → RankingRule → Ordering
compare_by_rule a b rule = compare_number (value a) (value b) rule.direction
  where
    value : ProviderDescriptor → ℕ
    value = dimension_value rule.dimension rule.routing_class_preference
