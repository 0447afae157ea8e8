-- ===== src/Domain/Names.antt =====
-- The texts of the enumerations (packages/core/src/domain/enums.ts), where a digest holds them.
use Prim.Native.String.{String}
use chunsik_bot.Domain.{
  Capability, RiskLevel, ApprovalStatus, CommandExecutionStatus, TaskStatus, ArtifactKind,
  IntentType,
}

unfoldable pub capability_name : Capability → String
capability_name Capability.general_chat = "GENERAL_CHAT"
capability_name Capability.summarization = "SUMMARIZATION"
capability_name Capability.document_analysis = "DOCUMENT_ANALYSIS"
capability_name Capability.code_implementation = "CODE_IMPLEMENTATION"
capability_name Capability.code_review = "CODE_REVIEW"
capability_name Capability.architecture_planning = "ARCHITECTURE_PLANNING"
capability_name Capability.test_execution = "TEST_EXECUTION"
capability_name Capability.readonly_lookup = "READONLY_LOOKUP"
capability_name Capability.project_analysis = "PROJECT_ANALYSIS"
capability_name Capability.embedding = "EMBEDDING"

unfoldable pub artifact_kind_name : ArtifactKind → String
artifact_kind_name ArtifactKind.markdown_report = "MARKDOWN_REPORT"
artifact_kind_name ArtifactKind.code_diff = "CODE_DIFF"
artifact_kind_name ArtifactKind.patch = "PATCH"
artifact_kind_name ArtifactKind.test_log = "TEST_LOG"
artifact_kind_name ArtifactKind.jira_report = "JIRA_REPORT"
artifact_kind_name ArtifactKind.slack_summary = "SLACK_SUMMARY"
artifact_kind_name ArtifactKind.confluence_draft = "CONFLUENCE_DRAFT"
artifact_kind_name ArtifactKind.document_summary = "DOCUMENT_SUMMARY"

unfoldable pub intent_type_name : IntentType → String
intent_type_name IntentType.chat = "CHAT"
intent_type_name IntentType.summarize = "SUMMARIZE"
intent_type_name IntentType.analyze_document = "ANALYZE_DOCUMENT"
intent_type_name IntentType.implement_code = "IMPLEMENT_CODE"
intent_type_name IntentType.review_code = "REVIEW_CODE"
intent_type_name IntentType.plan_architecture = "PLAN_ARCHITECTURE"
intent_type_name IntentType.run_tests = "RUN_TESTS"
intent_type_name IntentType.lookup = "LOOKUP"
intent_type_name IntentType.register_project = "REGISTER_PROJECT"
intent_type_name IntentType.project_analysis = "PROJECT_ANALYSIS"
intent_type_name IntentType.unknown = "UNKNOWN"

unfoldable pub risk_level_name : RiskLevel → String
risk_level_name RiskLevel.low = "LOW"
risk_level_name RiskLevel.medium = "MEDIUM"
risk_level_name RiskLevel.high = "HIGH"
risk_level_name RiskLevel.critical = "CRITICAL"

unfoldable pub approval_status_name : ApprovalStatus → String
approval_status_name ApprovalStatus.pending = "PENDING"
approval_status_name ApprovalStatus.approved = "APPROVED"
approval_status_name ApprovalStatus.rejected = "REJECTED"

unfoldable pub command_status_name : CommandExecutionStatus → String
command_status_name CommandExecutionStatus.pending = "PENDING"
command_status_name CommandExecutionStatus.running = "RUNNING"
command_status_name CommandExecutionStatus.succeeded = "SUCCEEDED"
command_status_name CommandExecutionStatus.failed = "FAILED"
command_status_name CommandExecutionStatus.timed_out = "TIMED_OUT"

unfoldable pub task_status_name : TaskStatus → String
task_status_name TaskStatus.pending = "PENDING"
task_status_name TaskStatus.planning = "PLANNING"
task_status_name TaskStatus.waiting_approval = "WAITING_APPROVAL"
task_status_name TaskStatus.running = "RUNNING"
task_status_name TaskStatus.testing = "TESTING"
task_status_name TaskStatus.failed = "FAILED"
task_status_name TaskStatus.canceled = "CANCELED"
task_status_name TaskStatus.completed = "COMPLETED"
task_status_name TaskStatus.needs_review = "NEEDS_REVIEW"
