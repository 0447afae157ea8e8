-- ===== src/Domain/Plan.antt =====
-- packages/core/src/domain/execution-plan.ts: the plan that capabilities act under, and its reference.
use chunsik_bot.Base.{ℕ, String, Bool, Option, List}
use chunsik_bot.Domain.{
  EntityId, IsoTimestamp, Capability, RiskLevel, ArtifactKind, ExecutionStatus,
}

pub data ChangeScope : Type 0 where
  none local broad : ChangeScope

pub record EstimatedChanges : Type 0 where
  pub file_count : ℕ
  pub estimated_changed_lines : Option ℕ
  pub scope : ChangeScope

pub record ExecutionStep : Type 0 where
  pub id : EntityId
  pub title : String
  pub description : String
  pub capability : Capability
  pub status : ExecutionStatus

pub record ExecutionPlanIntegrityRef : Type 0 where
  pub kind : String
  pub contract_version : String
  pub digest : String

pub record ExecutionPlan : Type 0 where
  pub id : EntityId
  pub goal : String
  pub summary : String
  pub steps : List ExecutionStep
  pub required_capabilities : List Capability
  pub required_resources : List String
  pub estimated_changes : EstimatedChanges
  pub approval_required : Bool
  pub overall_risk : RiskLevel
  pub expected_artifacts : List ArtifactKind
  pub status : ExecutionStatus
  pub integrity : Option ExecutionPlanIntegrityRef
  pub project_id : Option EntityId
  pub created_at : IsoTimestamp

pub record ExecutionPlanRef : Type 0 where
  pub id : EntityId
  pub goal : String
  pub integrity : Option ExecutionPlanIntegrityRef

unfoldable pub execution_plan_ref : ExecutionPlan → ExecutionPlanRef
execution_plan_ref plan = record { id = plan.id; goal = plan.goal; integrity = plan.integrity }
