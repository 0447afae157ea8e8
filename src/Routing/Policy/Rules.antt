-- ===== src/Routing/Policy/Rules.antt =====
-- routing-policy-engine.ts: the validation of a policy when the engine is built. The copies and
-- `Object.freeze` change no value, so a valid policy is returned as it is.
use chunsik_bot.Base.{
  String, Bool, true, false, not, ◌||◌, Option, none, some, List, [], ◌∷◌, map, leb, if◌then◌else◌,
  ◌==◌, Eq, string_eq, all, contains, distinct, get_or, is_empty, is_some,
}
use chunsik_bot.Base.Text.{is_routing_identifier, is_version}
use chunsik_bot.Base.Result.{Result, ok, ◌>>◌, require}
use chunsik_bot.Base.Json.{◌⊕◌}
use chunsik_bot.Domain.{capability_eq, intent_type_eq}
use chunsik_bot.Routing.Contracts.{
  RoutingPredicate, EligibilityRule, RankingRule, RoutingPolicy, routing_class, SortDirection,
  ascending, routing_request_type_eq, semantic_risk_eq, latency_class_eq, requirement_eq,
  authority_requirement_eq, output_size_class_eq, routing_class_eq, ranking_dimension_eq,
}

-- RoutingConfigurationError, with its message.
pub data ConfigurationError : Type 0 where
  configuration_error : String → ConfigurationError

abbrev pub Checked : Type 0 → Type 0
Checked = Result ConfigurationError

pub assert_version : String → String → Checked (Unit {0})
assert_version value field = require (is_version value) (configuration_error ("Invalid " ⊕ field))

module _ {T : Type 0} ⦃e : Eq T⦄ where
  pub validate_optional_array : Option (List T) → String → Checked (Unit {0})
  validate_optional_array none field = ok tt
  validate_optional_array (some values) field = do
    require (not (is_empty values)) (configuration_error (field ⊕ " must not be empty"))
    require (distinct values) (configuration_error (field ⊕ " has duplicates"))

validate_profiles : Option (List String) → Checked (Unit {0})
validate_profiles none = ok tt
validate_profiles (some profiles) = do
  require (not (is_empty profiles))
      (configuration_error "predicate.validationProfiles must not be empty")
  require (distinct profiles) (configuration_error "predicate.validationProfiles has duplicates")
  require (all is_routing_identifier profiles)
      (configuration_error "Invalid predicate.validationProfiles")

pub validate_predicate : RoutingPredicate → Checked (Unit {0})
unfolding validate_profiles
validate_predicate p = do
  validate_optional_array p.capabilities "predicate.capabilities"
  validate_optional_array p.request_types "predicate.requestTypes"
  validate_optional_array p.intent_types "predicate.intentTypes"
  validate_optional_array p.semantic_risks "predicate.semanticRisks"
  validate_optional_array p.latency_classes "predicate.latencyClasses"
  validate_optional_array p.tool_use_requirements "predicate.toolUseRequirements"
  validate_optional_array p.authority_requirements "predicate.authorityRequirements"
  validate_optional_array p.continuity_requirements "predicate.continuityRequirements"
  validate_optional_array p.output_sizes "predicate.outputSizes"
  validate_profiles p.validation_profiles

pub validate_eligibility : EligibilityRule → Checked (Unit {0})
validate_eligibility rule = do
  validate_optional_array rule.required_routing_classes "requiredRoutingClasses"
  validate_optional_array rule.excluded_routing_classes "excludedRoutingClasses"
  let required = get_or rule.required_routing_classes []
  let excluded = get_or rule.excluded_routing_classes []
  require (is_empty required || not (all (contains excluded) required))
      (configuration_error "Eligibility requires only excluded routing classes")

abbrev is_ascending : SortDirection → Bool
is_ascending ascending = true
is_ascending _ = false

validate_ranking_rule : RankingRule → Checked (Unit {0})
validate_ranking_rule rule =
    if rule.dimension == routing_class
    then (do
      validate_optional_array rule.routing_class_preference "routingClassPreference"
      require (is_some rule.routing_class_preference)
          (configuration_error "ROUTING_CLASS ranking requires routingClassPreference")
      require (is_ascending rule.direction)
          (configuration_error "ROUTING_CLASS preference must use ASCENDING order"))
    else require (not (is_some rule.routing_class_preference))
        (configuration_error "routingClassPreference is only valid for ROUTING_CLASS ranking")

validate_ranking_rules : List RankingRule → Checked (Unit {0})
unfolding validate_ranking_rule
validate_ranking_rules [] = ok tt
validate_ranking_rules (rule ∷ rules) = do validate_ranking_rule rule; validate_ranking_rules rules

pub validate_ranking : List RankingRule → Checked (Unit {0})
unfolding validate_ranking_rules
validate_ranking ranking = do
  require (not (is_empty ranking)) (configuration_error "ranking must not be empty")
  validate_ranking_rules ranking
  require (distinct (map (λ rule. rule.dimension) ranking))
      (configuration_error "ranking dimensions must be unique")

unfoldable pub freeze_policy : RoutingPolicy → Checked RoutingPolicy
unfolding assert_version validate_optional_array validate_predicate validate_eligibility
    validate_ranking
freeze_policy policy = do
  assert_version policy.version "policy.version"
  require (leb policy.precedence 10000) (configuration_error "Invalid policy.precedence")
  validate_predicate policy.when
  validate_eligibility policy.eligibility
  validate_ranking policy.ranking
  ok policy
