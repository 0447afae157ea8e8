-- ===== src/Routing/Gateway.antt =====
-- provider-routing-gateway.ts: the records of one execution, the checks before it and its end. The
-- response validator is an interface; a time is in nanoseconds, the unit of the monotonic clock.
pub mod Checks
pub mod Execution
pub mod Hops
pub mod Loop
pub mod Run
pub mod Total
pub mod Rounds
pub mod Inputs
pub mod Answers
pub mod Correct
pub mod Moves
pub mod Purposes
use chunsik_bot.Base.{
  ℕ, ◌*◌, String, Bool, true, false, not, ◌&&◌, ◌||◌, Option, none, some, List, [], ◌∷◌, map,
  if◌then◌else◌, ◌==◌, string_eq, nat_eq, ltb, leb, any, is_some, length, get_or,
}
use chunsik_bot.Base.Text.{is_routing_identifier, is_version, is_sha256}
use chunsik_bot.Base.Json.{Json}
use chunsik_bot.Base.Platform.{Platform}
use chunsik_bot.Domain.{
  EntityId, IsoTimestamp, Capability, capability_eq, ArtifactKind, AiFailureKind,
}
use chunsik_bot.Routing.Contracts.{ProviderId, PolicyId, ValidationProfileId}
use chunsik_bot.Routing.Failure.{
  RoutingFailureCode, RoutingFailurePolicy, RoutingFailureClass, ResponseValidationReasonCode,
  ValidationDisposition, RuntimeValidationResult, failure_policy, failure_class_eq, failure_code_eq,
  semantic_validation_unresolved, structural_validation_unresolved,
}
use chunsik_bot.Routing.Machine.{
  RoutingTransitionAudit, RoutingExecutionStateMachine, RoutingExecutionState, state_eq, transition,
}
use chunsik_bot.Governance.Execution.{WorkspaceRef}
use chunsik_bot.Routing.Plan.{
  ProviderBindingFailureCode, ProviderBindingRegistry, get_binding, ProviderExecutionPlan,
  ProviderExecutionTarget, ExecutionTargetPurpose, purpose_eq, max_provider_attempts,
  max_additional_provider_hops, failure_matrix_version, DeadlineClass,
  combined_routing_configuration_digest, execution_configuration_digest_of, plan_digest_of,
}

pub data ProviderGatewayTerminalStatus : Type 0 where
  accepted rejected human_review_required execution_failed safety_blocked configuration_failed :
      ProviderGatewayTerminalStatus

pub data ProviderAttemptOutcome : Type 0 where
  provider_failed validation_accepted validation_rejected : ProviderAttemptOutcome

pub data ProviderGatewayFailureCode : Type 0 where
  routing : RoutingFailureCode → ProviderGatewayFailureCode
  binding : ProviderBindingFailureCode → ProviderGatewayFailureCode

pub record ContextFile : Type 0 where
  pub path : String
  pub content : String

pub record AiRequest : Type 0 where
  pub capability : Capability
  pub prompt : String
  pub context_files : Option (List ContextFile)
  pub workspace : Option WorkspaceRef
  pub timeout_ms : Option ℕ
  pub metadata : Option Json

pub record Artifact : Type 0 where
  pub id : EntityId
  pub task_id : Option EntityId
  pub task_run_id : Option EntityId
  pub kind : ArtifactKind
  pub title : String
  pub content : Option String
  pub uri : Option String
  pub mime_type : Option String
  pub metadata : Option Json
  pub created_at : IsoTimestamp

pub record AiExecutionResult : Type 0 where
  pub text : String
  pub artifacts : Option (List Artifact)
  pub audit : Option Json
  pub raw : Option Json

-- The projection of an artifact leaves out `uri` and `metadata`.
pub record BoundedProviderArtifact : Type 0 where
  pub id : EntityId
  pub kind : ArtifactKind
  pub title : String
  pub created_at : IsoTimestamp
  pub task_id : Option EntityId
  pub task_run_id : Option EntityId
  pub content : Option String
  pub mime_type : Option String

pub record BoundedProviderOutput : Type 0 where
  pub text : String
  pub artifacts : List BoundedProviderArtifact
  pub response_sha256 : String
  pub byte_count : ℕ

pub record ProviderRoutingValidationFacts : Type 0 where
  pub recency_fact : Option String
  pub current_user_turn : Option String
  -- absent, or present and possibly undefined
  pub context_corpus : Option (Option (List String))

pub record RuntimeValidationInputView : Type 0 where
  pub validation_profile : ValidationProfileId
  pub prompt : String
  pub recency_fact : Option String
  pub current_user_turn : Option String
  pub context_corpus : Option (List String)
  pub result : AiExecutionResult

pub record ProviderAttemptAudit : Type 0 where
  pub attempt_index : ℕ
  pub purpose : ExecutionTargetPurpose
  pub provider_id : ProviderId
  pub binding_digest : String
  pub outcome : ProviderAttemptOutcome
  pub failure_code : Option RoutingFailureCode
  pub validation_disposition : Option ValidationDisposition
  pub validation_reason_codes : List ResponseValidationReasonCode
  pub validation_succeeded : Bool
  pub response_sha256 : Option String
  pub response_byte_count : Option ℕ
  pub provider_budget_ms : ℕ
  pub duration : ℕ

pub data ProviderExecutionPath : Type 0 where
  primary_only fallback_path escalation_path : ProviderExecutionPath

pub record ProviderExecutionAudit : Type 0 where
  pub schema_version : String
  pub execution_id : String
  pub decision_id : String
  pub plan_digest : String
  pub execution_configuration_digest : String
  pub deadline_policy_version : String
  pub capability : Capability
  pub validation_profile : ValidationProfileId
  pub matched_policy_id : PolicyId
  pub policy_version : String
  pub registry_version : String
  pub registry_configuration_digest : String
  pub policy_configuration_digest : String
  pub configuration_digest : String
  pub path : ProviderExecutionPath
  pub attempt_count : ℕ
  pub attempts : List ProviderAttemptAudit
  pub transitions : List RoutingTransitionAudit
  pub terminal_status : ProviderGatewayTerminalStatus
  pub terminal_code : Option ProviderGatewayFailureCode
  pub final_provider_id : Option ProviderId
  pub final_purpose : Option ExecutionTargetPurpose
  pub accepted_response_sha256 : Option String

pub record ProviderGatewayResult : Type 0 where
  pub status : ProviderGatewayTerminalStatus
  pub failure_code : Option ProviderGatewayFailureCode
  pub human_review_required : Bool
  pub output : Option BoundedProviderOutput
  pub audit : ProviderExecutionAudit

-- What the gateway reads of a profile (validation-profile-registry.ts).
pub record ValidationProfileView : Type 0 where
  pub version : String
  pub configuration_digest : String
  pub escalation_enabled : Bool

pub record DeadlineBudget : Type 0 where
  pub overall_budget_ms : ℕ
  pub validation_reserve_ms : ℕ
  pub minimum_attempt_budget_ms : ℕ

-- `DEFAULT_PROVIDER_DEADLINE_POLICY` of deadline-policy.ts
abbrev pub deadline_policy_version : String
deadline_policy_version = "provider-deadline-policy-v1"

abbrev pub budget_of : DeadlineClass → DeadlineBudget
budget_of DeadlineClass.interactive = record {
  overall_budget_ms = 15000;
  validation_reserve_ms = 250;
  minimum_attempt_budget_ms = 50;
}
budget_of DeadlineClass.standard = record {
  overall_budget_ms = 60000;
  validation_reserve_ms = 500;
  minimum_attempt_budget_ms = 100;
}
budget_of DeadlineClass.extended = record {
  overall_budget_ms = 300000;
  validation_reserve_ms = 1000;
  minimum_attempt_budget_ms = 250;
}

-- `resolve` throws where it is `none`.
pub record ProviderRoutingGateway : Type 0 where
  pub bindings : ProviderBindingRegistry
  pub resolve_profile : ValidationProfileId → Option ValidationProfileView
  pub deadline_version : String
  pub resolve_deadline : DeadlineClass → Option DeadlineBudget

-- The response validator and the projection of its accepted output, which throws where it is `none`.
pub record ResponseValidator : Type 0 where
  pub validate : RuntimeValidationInputView → RuntimeValidationResult
  pub project : AiExecutionResult → RuntimeValidationResult → Option BoundedProviderOutput

-- What a call of a provider comes to.
pub data ProviderReply : Type 0 where
  replied : AiExecutionResult → ProviderReply
  ai_error : AiFailureKind → ProviderReply
  other_error : ProviderReply

-- The clock and the providers: any functions of a state that they alone see.
pub record Environment (W : Type 0) : Type 0 where
  pub now : W → ℕ × W
  pub call : ProviderId → AiRequest → W → ProviderReply × W
