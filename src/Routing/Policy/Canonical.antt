-- ===== src/Routing/Policy/Canonical.antt =====
-- routing-policy-engine.ts: `canonicalPolicy`, the value that the policy digest is computed from.
use Prim.Native.Nat.{compare, Ordering}
use Prim.Native.String.{String}
use chunsik_bot.Base.{ℕ, Option, none, some, List, [], ◌∷◌, map}
use chunsik_bot.Base.Text.{codes}
use chunsik_bot.Base.Sort.{sort}
use chunsik_bot.Base.Json.{Json, null, bool, num, str, json_object, json_array}
use chunsik_bot.Domain.Names.{capability_name, intent_type_name}
use chunsik_bot.Routing.Contracts.{
  RoutingPredicate, EligibilityRule, RankingRule, RoutingPolicy, ReliabilityTier, RoutingClass,
}
use chunsik_bot.Routing.Contracts.Names.{
  routing_request_type_name, semantic_risk_name, latency_class_name, requirement_name,
  authority_requirement_name, output_size_class_name, reliability_tier_name, context_capacity_name,
  execution_locality_name, routing_class_name, ranking_dimension_name, sort_direction_name,
  terminal_decision_name,
}

-- The default order of `sort()`, by code units; the texts here are ASCII.
compare_codes : List ℕ → List ℕ → Ordering
compare_codes [] [] = Ordering.eq
compare_codes [] (d ∷ ds) = Ordering.lt
compare_codes (c ∷ cs) [] = Ordering.gt
compare_codes (c ∷ cs) (d ∷ ds) = elim (compare c d) [
  | Ordering.eq ↦ compare_codes cs ds
  | other ↦ other
]

compare_texts : String → String → Ordering
unfolding compare_codes
compare_texts s t = compare_codes (codes s) (codes t)

-- `value ? [...value].sort() : null`
sorted_texts : {T : Type 0} → (T → String) → Option (List T) → Json
unfolding compare_texts sort
sorted_texts name none = null
sorted_texts name (some values) = json_array (map str (sort compare_texts (map name values)))

-- `value ?? null`
or_null : {T : Type 0} → (T → Json) → Option T → Json
or_null to_json none = null
or_null to_json (some value) = to_json value

canonical_predicate : RoutingPredicate → Json
unfolding sorted_texts
canonical_predicate p = json_object (
    ("capabilities", sorted_texts capability_name p.capabilities)
    ∷ ("requestTypes", sorted_texts routing_request_type_name p.request_types)
    ∷ ("intentTypes", sorted_texts intent_type_name p.intent_types)
    ∷ ("semanticRisks", sorted_texts semantic_risk_name p.semantic_risks)
    ∷ ("latencyClasses", sorted_texts latency_class_name p.latency_classes)
    ∷ ("toolUseRequirements", sorted_texts requirement_name p.tool_use_requirements)
    ∷ ("authorityRequirements", sorted_texts authority_requirement_name p.authority_requirements)
    ∷ ("continuityRequirements", sorted_texts requirement_name p.continuity_requirements)
    ∷ ("outputSizes", sorted_texts output_size_class_name p.output_sizes)
    ∷ ("validationProfiles", sorted_texts (λ id. id) p.validation_profiles)
    ∷ [])

canonical_eligibility : EligibilityRule → Json
unfolding sorted_texts or_null
canonical_eligibility rule = json_object (
    ("requiredRoutingClasses", sorted_texts routing_class_name rule.required_routing_classes)
    ∷ ("excludedRoutingClasses", sorted_texts routing_class_name rule.excluded_routing_classes)
    ∷ ("minimumSemanticReliability", or_null tier rule.minimum_semantic_reliability)
    ∷ ("minimumAuthorityReliability", or_null tier rule.minimum_authority_reliability)
    ∷ ("minimumContinuityReliability", or_null tier rule.minimum_continuity_reliability)
    ∷ ("requiresToolUse", or_null bool rule.requires_tool_use)
    ∷ ("requiresStructuredOutput", or_null bool rule.requires_structured_output)
    ∷ (
      "minimumContextCapacity",
      or_null (λ c. str (context_capacity_name c)) rule.minimum_context_capacity,
    )
    ∷ ("executionLocality", or_null (λ l. str (execution_locality_name l)) rule.execution_locality)
    ∷ [])
  where
    tier : ReliabilityTier → Json
    tier t = str (reliability_tier_name t)

canonical_rule : RankingRule → Json
unfolding or_null
canonical_rule rule = json_object (
    ("dimension", str (ranking_dimension_name rule.dimension))
    ∷ ("direction", str (sort_direction_name rule.direction))
    ∷ ("routingClassPreference", or_null classes rule.routing_class_preference)
    ∷ [])
  where
    classes : List RoutingClass → Json
    classes cs = json_array (map (λ c. str (routing_class_name c)) cs)

unfoldable pub canonical_policy : RoutingPolicy → Json
unfolding canonical_predicate canonical_eligibility canonical_rule
canonical_policy policy = json_object (
    ("policyId", str policy.policy_id)
    ∷ ("version", str policy.version)
    ∷ ("precedence", num policy.precedence)
    ∷ ("when", canonical_predicate policy.when)
    ∷ ("eligibility", canonical_eligibility policy.eligibility)
    ∷ ("ranking", json_array (map canonical_rule policy.ranking))
    ∷ ("terminal", str (terminal_decision_name policy.terminal))
    ∷ [])
