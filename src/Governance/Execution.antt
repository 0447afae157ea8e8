-- ===== src/Governance/Execution.antt =====
-- domain/command-execution.ts and the references that it holds (domain/workspace.ts,
-- domain/workspace-change.ts).
use chunsik_bot.Base.{ℕ, String, Option, List}
use chunsik_bot.Base.Json.{Json}
use chunsik_bot.Base.Integer.{ℤ}
use chunsik_bot.Domain.{
  EntityId, IsoTimestamp, RiskLevel, CommandExecutionStatus, WorkspaceChangeStatus,
}
use chunsik_bot.Domain.Plan.{ExecutionPlanRef}
use chunsik_bot.Governance.Approval.{ApprovalRef}
use chunsik_bot.Storage.{Entity}

pub record WorkspaceRef : Type 0 where
  pub id : EntityId
  pub project_id : Option EntityId
  pub root_path : String
  pub kind : String
  pub branch : Option String
  pub metadata : Option Json

pub record WorkspaceChangeRef : Type 0 where
  pub id : EntityId
  pub status : WorkspaceChangeStatus

pub record CommandExecution : Type 0 where
  pub id : EntityId
  pub plan_ref : ExecutionPlanRef
  pub approval : Option ApprovalRef
  pub workspace_ref : WorkspaceRef
  pub workspace_change_ref : Option WorkspaceChangeRef
  pub command : String
  pub args : List String
  pub command_hash : String
  pub status : CommandExecutionStatus
  pub exit_code : Option ℕ
  pub stdout : String
  pub stderr : String
  pub duration_ms : ℤ
  pub risk_level : RiskLevel
  pub created_at : IsoTimestamp
  pub updated_at : IsoTimestamp

instance abbrev pub command_entity : Entity CommandExecution
command_entity = record { id_of = λ e. e.id }

pub record RunCommandInput : Type 0 where
  pub plan_ref : ExecutionPlanRef
  pub approval : Option ApprovalRef
  pub workspace_ref : WorkspaceRef
  pub workspace_change_ref : Option WorkspaceChangeRef
  pub command : String
  pub args : List String
  pub timeout_ms : Option ℕ
