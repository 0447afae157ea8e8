-- ===== src/Routing/Profile.antt =====
-- validation-profile-registry.ts: validation profiles in a normal form with a digest, and the registry
-- that resolves them. `Object.freeze` and copies change no value.
pub mod Canonical
pub mod Lookup
use chunsik_bot.Base.{
  ℕ, String, Bool, true, false, not, ◌&&◌, ◌||◌, Option, none, some, List, [], ◌∷◌, ◌++◌, map, find,
  is_empty, is_some, contains, distinct, ◌==◌, string_eq, Eq, discrete_eq, ltb, leb,
}
use Prim.Native.Nat.{compare, Ordering}
use chunsik_bot.Base.Text.{is_routing_identifier, is_version}
use chunsik_bot.Base.Sort.{sort}
use chunsik_bot.Base.Result.{Result, ok, err, ◌>>=◌, ◌>>◌, require}
use chunsik_bot.Base.Json.{Json, str, num, bool, json_object, json_array, stringify}
use chunsik_bot.Base.Platform.{Platform}
use chunsik_bot.Routing.Contracts.{ValidationProfileId}
use chunsik_bot.Routing.Contracts.Enums.{ReliabilityTier}
use chunsik_bot.Routing.Contracts.Names.{reliability_tier_name}
use chunsik_bot.Routing.Failure.{RoutingFailureCode}

pub data RuntimeValidationRule : Type 0 where
  non_empty output_limit prompt_leak multi_entry_echo secret_exposure_risk recency_grounding
        authority_semantic_scope :
      RuntimeValidationRule

unfoldable pub RuntimeValidationRule-discrete : Discrete RuntimeValidationRule
RuntimeValidationRule-discrete = hlevel

instance abbrev pub rule_eq : Eq RuntimeValidationRule
rule_eq = discrete_eq RuntimeValidationRule-discrete

-- `RULE_ORDER.indexOf(rule)`
abbrev pub rule_order : RuntimeValidationRule → ℕ
rule_order non_empty = 0
rule_order output_limit = 1
rule_order prompt_leak = 2
rule_order multi_entry_echo = 3
rule_order secret_exposure_risk = 4
rule_order recency_grounding = 5
rule_order authority_semantic_scope = 6

abbrev pub rule_name : RuntimeValidationRule → String
rule_name non_empty = "NON_EMPTY"
rule_name output_limit = "OUTPUT_LIMIT"
rule_name prompt_leak = "PROMPT_LEAK"
rule_name multi_entry_echo = "MULTI_ENTRY_ECHO"
rule_name secret_exposure_risk = "SECRET_EXPOSURE_RISK"
rule_name recency_grounding = "RECENCY_GROUNDING"
rule_name authority_semantic_scope = "AUTHORITY_SEMANTIC_SCOPE"

pub data ValidationReliabilityAxis : Type 0 where
  semantic authority : ValidationReliabilityAxis

abbrev pub axis_name : ValidationReliabilityAxis → String
axis_name semantic = "SEMANTIC"
axis_name authority = "AUTHORITY"

abbrev pub rule_contract_version : String
rule_contract_version = "routing-response-rules-v2"

abbrev pub max_profile_output_bytes : ℕ
max_profile_output_bytes = 1048576

abbrev pub default_output_limit_bytes : ℕ
default_output_limit_bytes = 65536

pub record ValidationProfileConfiguration : Type 0 where
  pub profile_id : ValidationProfileId
  pub version : String
  pub rules : List RuntimeValidationRule
  pub output_limit_bytes : ℕ
  pub escalation_enabled : Bool
  pub escalation_reliability_axis : Option ValidationReliabilityAxis
  pub minimum_escalation_reliability : Option ReliabilityTier

pub record ValidationProfileDefinition : Type 0 where
  pub profile_id : ValidationProfileId
  pub version : String
  pub rules : List RuntimeValidationRule
  pub output_limit_bytes : ℕ
  pub escalation_enabled : Bool
  pub escalation_reliability_axis : Option ValidationReliabilityAxis
  pub minimum_escalation_reliability : Option ReliabilityTier
  pub contract_version : String
  pub configuration_digest : String

pub record ValidationProfileConfigurationError : Type 0 where
  pub code : RoutingFailureCode
  pub message : String

abbrev Profiled : Type 0 → Type 0
Profiled = Result ValidationProfileConfigurationError

abbrev pub mismatch : String → ValidationProfileConfigurationError
mismatch message = record {
  code = RoutingFailureCode.routing_configuration_mismatch;
  message = message;
}

abbrev pub by_rule_order : RuntimeValidationRule → RuntimeValidationRule → Ordering
by_rule_order left right = compare (rule_order left) (rule_order right)

abbrev same_bool : Bool → Bool → Bool
same_bool true b = b
same_bool false b = not b

-- The member that `...(value ? { key: value } : {})` adds.
abbrev axis_member : Option ValidationReliabilityAxis → List (String × Json)
axis_member none = []
axis_member (some axis) = ("escalationReliabilityAxis", str (axis_name axis)) ∷ []

abbrev tier_member : Option ReliabilityTier → List (String × Json)
tier_member none = []
tier_member (some tier) = ("minimumEscalationReliability", str (reliability_tier_name tier)) ∷ []

-- The value that is digested, for the rules in their order.
abbrev pub canonical_profile : ValidationProfileConfiguration → List RuntimeValidationRule → Json
canonical_profile c rules = json_object (
    ("profileId", str c.profile_id)
    ∷ ("version", str c.version)
    ∷ ("rules", json_array (map (λ rule. str (rule_name rule)) rules))
    ∷ ("outputLimitBytes", num c.output_limit_bytes)
    ∷ ("escalationEnabled", bool c.escalation_enabled)
    ∷ (axis_member c.escalation_reliability_axis
        ++ (tier_member c.minimum_escalation_reliability
            ++ ("ruleContractVersion", str rule_contract_version) ∷ [])))

-- The definition for the rules in their order.
unfoldable pub definition_of :
    Platform
    → ValidationProfileConfiguration
    → List RuntimeValidationRule
    → ValidationProfileDefinition
definition_of platform c rules = record {
  profile_id = c.profile_id;
  version = c.version;
  rules = rules;
  output_limit_bytes = c.output_limit_bytes;
  escalation_enabled = c.escalation_enabled;
  escalation_reliability_axis = c.escalation_reliability_axis;
  minimum_escalation_reliability = c.minimum_escalation_reliability;
  contract_version = rule_contract_version;
  configuration_digest = platform.sha256 (stringify (canonical_profile c rules));
}

unfoldable pub normalize :
    Platform → ValidationProfileConfiguration → Profiled ValidationProfileDefinition
normalize platform c = do
  require (is_routing_identifier c.profile_id && is_version c.version)
      (mismatch "Invalid validation profile identity")
  require
      (ltb 0 c.output_limit_bytes
        && leb c.output_limit_bytes max_profile_output_bytes
        && not (is_empty c.rules))
      (mismatch "Invalid validation profile bounds")
  require (distinct c.rules) (mismatch "Invalid validation profile rules")
  require
      (same_bool c.escalation_enabled (is_some c.escalation_reliability_axis)
        && same_bool c.escalation_enabled (is_some c.minimum_escalation_reliability))
      (mismatch "Invalid validation escalation configuration")
  ok (definition_of platform c (sort by_rule_order c.rules))

unfoldable pub normalize_all :
    Platform
    → List ValidationProfileId
    → List ValidationProfileConfiguration
    → Profiled (List ValidationProfileDefinition)
normalize_all platform seen [] = ok []
normalize_all platform seen (c ∷ rest) = do
  require (not (contains seen c.profile_id)) (mismatch "Duplicate validation profile")
  definition ← normalize platform c
  others ← normalize_all platform (c.profile_id ∷ seen) rest
  ok (definition ∷ others)

unfoldable pub by_profile_id :
    Platform → ValidationProfileDefinition → ValidationProfileDefinition → Ordering
by_profile_id platform left right = platform.locale_compare left.profile_id right.profile_id

-- `ValidationProfileRegistry`: its definitions, sorted by id.
unfoldable pub new_profile_registry :
    Platform → List ValidationProfileConfiguration → Profiled (List ValidationProfileDefinition)
new_profile_registry platform configurations = do
  require (not (is_empty configurations)) (mismatch "Validation profile registry must not be empty")
  definitions ← normalize_all platform [] configurations
  ok (sort (by_profile_id platform) definitions)

-- `none` is the error UNKNOWN_VALIDATION_PROFILE.
unfoldable pub resolve :
    List ValidationProfileDefinition → ValidationProfileId → Option ValidationProfileDefinition
resolve definitions id =
    find (λ (candidate : ValidationProfileDefinition). candidate.profile_id == id) definitions

abbrev pub default_profiles : List ValidationProfileConfiguration
default_profiles =
    record {
      profile_id = "LOW_RISK_FAST_PATH";
      version = "1";
      rules = non_empty ∷ output_limit ∷ [];
      output_limit_bytes = default_output_limit_bytes;
      escalation_enabled = false;
      escalation_reliability_axis = none;
      minimum_escalation_reliability = none;
    }
    ∷ record {
      profile_id = "GENERAL_CHAT";
      version = "2";
      rules =
          non_empty ∷ output_limit ∷ prompt_leak ∷ multi_entry_echo ∷ secret_exposure_risk
          ∷ recency_grounding ∷ [];
      output_limit_bytes = default_output_limit_bytes;
      escalation_enabled = true;
      escalation_reliability_axis = some semantic;
      minimum_escalation_reliability = some ReliabilityTier.high;
    }
    ∷ record {
      profile_id = "AUTHORITY_SENSITIVE";
      version = "1";
      rules =
          non_empty ∷ output_limit ∷ prompt_leak ∷ multi_entry_echo ∷ secret_exposure_risk
          ∷ authority_semantic_scope ∷ [];
      output_limit_bytes = default_output_limit_bytes;
      escalation_enabled = true;
      escalation_reliability_axis = some authority;
      minimum_escalation_reliability = some ReliabilityTier.standard;
    }
    ∷ []
