-- ===== src/Routing/Contracts.antt =====
-- provider-routing-contracts.ts: descriptors of providers, routing policies and the selection.
pub mod Enums
pub mod Names
unfoldable pub use Enums.*
use chunsik_bot.Base.{ℕ, String, Bool, Option, List}
use chunsik_bot.Domain.{Capability, IntentType}

abbrev pub ProviderId : Type 0
ProviderId = String

abbrev pub AdapterId : Type 0
AdapterId = String

abbrev pub PolicyId : Type 0
PolicyId = String

abbrev pub ValidationProfileId : Type 0
ValidationProfileId = String

pub record RoutingContext : Type 0 where
  pub capability : Capability
  pub request_type : RoutingRequestType
  pub intent_type : IntentType
  pub semantic_risk : SemanticRisk
  pub latency_class : LatencyClass
  pub tool_use_requirement : Requirement
  pub authority_requirement : AuthorityRequirement
  pub continuity_requirement : Requirement
  pub expected_output_size : OutputSizeClass
  pub validation_profile : ValidationProfileId

pub record ProviderCapabilities : Type 0 where
  pub supported_capabilities : List Capability
  pub routing_classes : List RoutingClass
  pub semantic_reliability : ReliabilityTier
  pub authority_reliability : ReliabilityTier
  pub continuity_reliability : ReliabilityTier
  pub tool_use : SupportLevel
  pub structured_output : SupportLevel
  pub context_capacity : ContextCapacity
  pub streaming : SupportLevel
  pub execution_locality : ExecutionLocality

pub record ProviderOperationalProfile : Type 0 where
  pub latency_tier : LatencyTier
  pub timeout_class : TimeoutClass
  pub cost_tier : CostTier
  pub concurrency_class : ConcurrencyClass
  pub availability_class : AvailabilityClass

pub record ProviderDescriptor : Type 0 where
  pub provider_id : ProviderId
  pub adapter_id : AdapterId
  pub model_id : String
  pub capabilities : ProviderCapabilities
  pub operational_profile : ProviderOperationalProfile
  pub enabled : Bool
  pub profile_version : String
  pub evidence_binding_digest : Option String

pub record RegisteredProviderSnapshot : Type 0 where
  pub descriptor : ProviderDescriptor
  pub availability : ProviderAvailability

pub record ProviderRegistrySnapshot : Type 0 where
  pub version : String
  pub configuration_digest : String
  pub providers : List RegisteredProviderSnapshot

pub record RoutingPredicate : Type 0 where
  pub capabilities : Option (List Capability)
  pub request_types : Option (List RoutingRequestType)
  pub intent_types : Option (List IntentType)
  pub semantic_risks : Option (List SemanticRisk)
  pub latency_classes : Option (List LatencyClass)
  pub tool_use_requirements : Option (List Requirement)
  pub authority_requirements : Option (List AuthorityRequirement)
  pub continuity_requirements : Option (List Requirement)
  pub output_sizes : Option (List OutputSizeClass)
  pub validation_profiles : Option (List ValidationProfileId)

pub record EligibilityRule : Type 0 where
  pub required_routing_classes : Option (List RoutingClass)
  pub excluded_routing_classes : Option (List RoutingClass)
  pub minimum_semantic_reliability : Option ReliabilityTier
  pub minimum_authority_reliability : Option ReliabilityTier
  pub minimum_continuity_reliability : Option ReliabilityTier
  pub requires_tool_use : Option Bool
  pub requires_structured_output : Option Bool
  pub minimum_context_capacity : Option ContextCapacity
  pub execution_locality : Option ExecutionLocality

pub record RankingRule : Type 0 where
  pub dimension : RankingDimension
  pub direction : SortDirection
  pub routing_class_preference : Option (List RoutingClass)

pub record RoutingPolicy : Type 0 where
  pub policy_id : PolicyId
  pub version : String
  pub precedence : ℕ
  pub when : RoutingPredicate
  pub eligibility : EligibilityRule
  pub ranking : List RankingRule
  pub terminal : TerminalDecision

pub record RoutingPolicyConfiguration : Type 0 where
  pub version : String
  pub policies : List RoutingPolicy

pub record ProviderSelectionDecision : Type 0 where
  pub selected_provider_id : Option ProviderId
  pub eligible_provider_ids : List ProviderId
  pub matched_policy_id : Option PolicyId
  pub reason_code : RoutingReasonCode
  pub policy_version : String
  pub registry_version : String
  pub registry_configuration_digest : String
  pub policy_configuration_digest : String
  pub configuration_digest : String
