-- ===== src/Domain.antt =====
-- packages/core/src/domain/enums.ts, common.ts: the enumerations and scalar types that the
-- capabilities share. Times are milliseconds, as `Date.parse` reads the ISO texts of `now()`.
pub mod Names
pub mod Plan
use Prim.Native.Nat.{ℕ}
use Prim.Native.String.{String}
use chunsik_bot.Base.{Eq, discrete_eq}

abbrev pub EntityId : Type 0
EntityId = String

abbrev pub IsoTimestamp : Type 0
IsoTimestamp = ℕ

pub data TaskStatus : Type 0 where
  pending planning waiting_approval running testing failed canceled completed needs_review :
      TaskStatus

pub data TaskRunStatus : Type 0 where
  started succeeded failed canceled : TaskRunStatus

pub data RiskLevel : Type 0 where
  low medium high critical : RiskLevel

pub data Capability : Type 0 where
  general_chat summarization document_analysis code_implementation code_review architecture_planning
        test_execution readonly_lookup project_analysis embedding :
      Capability

pub data IntentType : Type 0 where
  chat summarize analyze_document implement_code review_code plan_architecture run_tests lookup
        register_project project_analysis unknown :
      IntentType

pub data AiFailureKind : Type 0 where
  unavailable auth_required timeout execution_failed empty_output : AiFailureKind

pub data ExecutionStatus : Type 0 where
  pending approved rejected executing completed failed : ExecutionStatus

pub data WorkspaceChangeStatus : Type 0 where
  pending applying applied partially_applied failed : WorkspaceChangeStatus

pub data ApprovalStatus : Type 0 where
  pending approved rejected : ApprovalStatus

pub data CommandExecutionStatus : Type 0 where
  pending running succeeded failed timed_out : CommandExecutionStatus

pub data ArtifactKind : Type 0 where
  markdown_report code_diff patch test_log jira_report slack_summary confluence_draft
        document_summary :
      ArtifactKind

unfoldable pub TaskStatus-discrete : Discrete TaskStatus
TaskStatus-discrete = hlevel

unfoldable pub Capability-discrete : Discrete Capability
Capability-discrete = hlevel

unfoldable pub IntentType-discrete : Discrete IntentType
IntentType-discrete = hlevel

unfoldable pub ApprovalStatus-discrete : Discrete ApprovalStatus
ApprovalStatus-discrete = hlevel

instance abbrev pub task_status_eq : Eq TaskStatus
task_status_eq = discrete_eq TaskStatus-discrete

instance abbrev pub capability_eq : Eq Capability
capability_eq = discrete_eq Capability-discrete

instance abbrev pub intent_type_eq : Eq IntentType
intent_type_eq = discrete_eq IntentType-discrete

instance abbrev pub approval_status_eq : Eq ApprovalStatus
approval_status_eq = discrete_eq ApprovalStatus-discrete
