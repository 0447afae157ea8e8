-- ===== src/Routing/Contracts/Enums.antt =====
-- The enumerations of provider-routing-contracts.ts.
use chunsik_bot.Base.{Eq, discrete_eq}

pub data RoutingRequestType : Type 0 where
  conversational work code_generation unknown : RoutingRequestType

unfoldable pub RoutingRequestType-discrete : Discrete RoutingRequestType
RoutingRequestType-discrete = hlevel

instance abbrev pub routing_request_type_eq : Eq RoutingRequestType
routing_request_type_eq = discrete_eq RoutingRequestType-discrete

pub data SemanticRisk : Type 0 where
  low standard high unknown : SemanticRisk

unfoldable pub SemanticRisk-discrete : Discrete SemanticRisk
SemanticRisk-discrete = hlevel

instance abbrev pub semantic_risk_eq : Eq SemanticRisk
semantic_risk_eq = discrete_eq SemanticRisk-discrete

pub data LatencyClass : Type 0 where
  interactive balanced batch unknown : LatencyClass

unfoldable pub LatencyClass-discrete : Discrete LatencyClass
LatencyClass-discrete = hlevel

instance abbrev pub latency_class_eq : Eq LatencyClass
latency_class_eq = discrete_eq LatencyClass-discrete

pub data Requirement : Type 0 where
  required not_required unknown : Requirement

unfoldable pub Requirement-discrete : Discrete Requirement
Requirement-discrete = hlevel

instance abbrev pub requirement_eq : Eq Requirement
requirement_eq = discrete_eq Requirement-discrete

pub data AuthorityRequirement : Type 0 where
  required not_required unknown : AuthorityRequirement

unfoldable pub AuthorityRequirement-discrete : Discrete AuthorityRequirement
AuthorityRequirement-discrete = hlevel

instance abbrev pub authority_requirement_eq : Eq AuthorityRequirement
authority_requirement_eq = discrete_eq AuthorityRequirement-discrete

pub data OutputSizeClass : Type 0 where
  small medium large unknown : OutputSizeClass

unfoldable pub OutputSizeClass-discrete : Discrete OutputSizeClass
OutputSizeClass-discrete = hlevel

instance abbrev pub output_size_class_eq : Eq OutputSizeClass
output_size_class_eq = discrete_eq OutputSizeClass-discrete

pub data ReliabilityTier : Type 0 where
  unproven low standard high : ReliabilityTier

unfoldable pub ReliabilityTier-discrete : Discrete ReliabilityTier
ReliabilityTier-discrete = hlevel

instance abbrev pub reliability_tier_eq : Eq ReliabilityTier
reliability_tier_eq = discrete_eq ReliabilityTier-discrete

pub data SupportLevel : Type 0 where
  unsupported supported : SupportLevel

pub data ContextCapacity : Type 0 where
  small medium large : ContextCapacity

unfoldable pub ContextCapacity-discrete : Discrete ContextCapacity
ContextCapacity-discrete = hlevel

instance abbrev pub context_capacity_eq : Eq ContextCapacity
context_capacity_eq = discrete_eq ContextCapacity-discrete

pub data ExecutionLocality : Type 0 where
  local network : ExecutionLocality

unfoldable pub ExecutionLocality-discrete : Discrete ExecutionLocality
ExecutionLocality-discrete = hlevel

instance abbrev pub execution_locality_eq : Eq ExecutionLocality
execution_locality_eq = discrete_eq ExecutionLocality-discrete

pub data RoutingClass : Type 0 where
  balanced semantic_high latency_restricted deprioritized : RoutingClass

unfoldable pub RoutingClass-discrete : Discrete RoutingClass
RoutingClass-discrete = hlevel

instance abbrev pub routing_class_eq : Eq RoutingClass
routing_class_eq = discrete_eq RoutingClass-discrete

pub data LatencyTier : Type 0 where
  fast balanced slow unknown : LatencyTier

pub data TimeoutClass : Type 0 where
  short standard long : TimeoutClass

pub data CostTier : Type 0 where
  low standard high unknown : CostTier

pub data ConcurrencyClass : Type 0 where
  single limited scalable unknown : ConcurrencyClass

pub data AvailabilityClass : Type 0 where
  local_stable local_optional network_dependent unknown : AvailabilityClass

pub data ProviderAvailability : Type 0 where
  available unavailable unknown : ProviderAvailability

pub data RankingDimension : Type 0 where
  routing_class semantic_reliability authority_reliability continuity_reliability latency_tier
        cost_tier :
      RankingDimension

unfoldable pub RankingDimension-discrete : Discrete RankingDimension
RankingDimension-discrete = hlevel

instance abbrev pub ranking_dimension_eq : Eq RankingDimension
ranking_dimension_eq = discrete_eq RankingDimension-discrete

pub data SortDirection : Type 0 where
  ascending descending : SortDirection

pub data TerminalDecision : Type 0 where
  no_selection : TerminalDecision

pub data RoutingReasonCode : Type 0 where
  selected policy_not_matched no_eligible_provider : RoutingReasonCode
