-- ===== src/Routing/Contracts/Names.antt =====
-- The texts of the enumerations of provider-routing-contracts.ts, where a digest holds them.
use Prim.Native.String.{String}
use chunsik_bot.Routing.Contracts.Enums.{
  RoutingRequestType, SemanticRisk, LatencyClass, Requirement, AuthorityRequirement,
  OutputSizeClass, ReliabilityTier, ContextCapacity, ExecutionLocality, RoutingClass,
  RankingDimension, SortDirection, TerminalDecision, RoutingReasonCode,
}

unfoldable pub routing_request_type_name : RoutingRequestType → String
routing_request_type_name RoutingRequestType.conversational = "CONVERSATIONAL"
routing_request_type_name RoutingRequestType.work = "WORK"
routing_request_type_name RoutingRequestType.code_generation = "CODE_GENERATION"
routing_request_type_name RoutingRequestType.unknown = "UNKNOWN"

unfoldable pub semantic_risk_name : SemanticRisk → String
semantic_risk_name SemanticRisk.low = "LOW"
semantic_risk_name SemanticRisk.standard = "STANDARD"
semantic_risk_name SemanticRisk.high = "HIGH"
semantic_risk_name SemanticRisk.unknown = "UNKNOWN"

unfoldable pub latency_class_name : LatencyClass → String
latency_class_name LatencyClass.interactive = "INTERACTIVE"
latency_class_name LatencyClass.balanced = "BALANCED"
latency_class_name LatencyClass.batch = "BATCH"
latency_class_name LatencyClass.unknown = "UNKNOWN"

unfoldable pub requirement_name : Requirement → String
requirement_name Requirement.required = "REQUIRED"
requirement_name Requirement.not_required = "NOT_REQUIRED"
requirement_name Requirement.unknown = "UNKNOWN"

unfoldable pub authority_requirement_name : AuthorityRequirement → String
authority_requirement_name AuthorityRequirement.required = "REQUIRED"
authority_requirement_name AuthorityRequirement.not_required = "NOT_REQUIRED"
authority_requirement_name AuthorityRequirement.unknown = "UNKNOWN"

unfoldable pub output_size_class_name : OutputSizeClass → String
output_size_class_name OutputSizeClass.small = "SMALL"
output_size_class_name OutputSizeClass.medium = "MEDIUM"
output_size_class_name OutputSizeClass.large = "LARGE"
output_size_class_name OutputSizeClass.unknown = "UNKNOWN"

unfoldable pub reliability_tier_name : ReliabilityTier → String
reliability_tier_name ReliabilityTier.unproven = "UNPROVEN"
reliability_tier_name ReliabilityTier.low = "LOW"
reliability_tier_name ReliabilityTier.standard = "STANDARD"
reliability_tier_name ReliabilityTier.high = "HIGH"

unfoldable pub context_capacity_name : ContextCapacity → String
context_capacity_name ContextCapacity.small = "SMALL"
context_capacity_name ContextCapacity.medium = "MEDIUM"
context_capacity_name ContextCapacity.large = "LARGE"

unfoldable pub execution_locality_name : ExecutionLocality → String
execution_locality_name ExecutionLocality.local = "LOCAL"
execution_locality_name ExecutionLocality.network = "NETWORK"

unfoldable pub routing_class_name : RoutingClass → String
routing_class_name RoutingClass.balanced = "BALANCED"
routing_class_name RoutingClass.semantic_high = "SEMANTIC_HIGH"
routing_class_name RoutingClass.latency_restricted = "LATENCY_RESTRICTED"
routing_class_name RoutingClass.deprioritized = "DEPRIORITIZED"

unfoldable pub ranking_dimension_name : RankingDimension → String
ranking_dimension_name RankingDimension.routing_class = "ROUTING_CLASS"
ranking_dimension_name RankingDimension.semantic_reliability = "SEMANTIC_RELIABILITY"
ranking_dimension_name RankingDimension.authority_reliability = "AUTHORITY_RELIABILITY"
ranking_dimension_name RankingDimension.continuity_reliability = "CONTINUITY_RELIABILITY"
ranking_dimension_name RankingDimension.latency_tier = "LATENCY_TIER"
ranking_dimension_name RankingDimension.cost_tier = "COST_TIER"

unfoldable pub sort_direction_name : SortDirection → String
sort_direction_name SortDirection.ascending = "ASCENDING"
sort_direction_name SortDirection.descending = "DESCENDING"

unfoldable pub terminal_decision_name : TerminalDecision → String
terminal_decision_name TerminalDecision.no_selection = "NO_SELECTION"

unfoldable pub routing_reason_code_name : RoutingReasonCode → String
routing_reason_code_name RoutingReasonCode.selected = "SELECTED"
routing_reason_code_name RoutingReasonCode.policy_not_matched = "POLICY_NOT_MATCHED"
routing_reason_code_name RoutingReasonCode.no_eligible_provider = "NO_ELIGIBLE_PROVIDER"
