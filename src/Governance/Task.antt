-- ===== src/Governance/Task.antt =====
-- task-manager.ts, domain/task.ts: the status of a task and the runs of its attempts. The tables are
-- passed in and out; the id of `newId()` and the time of `now()` are arguments.
pub mod Path
use chunsik_bot.Base.{
  ℕ, ◌-◌, String, Bool, true, false, Option, none, some, List, [], ◌∷◌, if◌then◌else◌, ◌==◌,
  string_eq, contains, or_else,
}
use chunsik_bot.Base.Result.{Result, ok, err, ◌>>=◌, ◌>>◌, require}
use chunsik_bot.Base.Json.{Json, ◌⊕◌}
use chunsik_bot.Domain.{
  EntityId, IsoTimestamp, TaskStatus, TaskRunStatus, RiskLevel, Capability, IntentType,
  task_status_eq,
}
use chunsik_bot.Domain.Names.{task_status_name}
use chunsik_bot.Storage.{Entity, get, save}

-- The confidence, a number from 0 to 1 that nothing here computes with, is its decimal text.
pub record Intent : Type 0 where
  pub type : IntentType
  pub capability : Capability
  pub confidence : String
  pub requires_work : Bool
  pub summary : String
  pub raw : Option Json

pub record ConversationContext : Type 0 where
  pub platform : String
  pub space_id : Option String
  pub channel_id : String
  pub thread_id : Option String
  pub user_id : String

pub record Task : Type 0 where
  pub id : EntityId
  pub title : String
  pub description : String
  pub status : TaskStatus
  pub intent : Intent
  pub risk_level : RiskLevel
  pub context : ConversationContext
  pub actor_id : Option EntityId
  pub session_id : Option EntityId
  pub project_id : Option EntityId
  pub workspace_ref_id : Option EntityId
  pub plan_id : Option EntityId
  pub created_at : IsoTimestamp
  pub updated_at : IsoTimestamp
  pub metadata : Option Json

pub record TaskRun : Type 0 where
  pub id : EntityId
  pub task_id : EntityId
  pub attempt : ℕ
  pub status : TaskRunStatus
  pub capability : Capability
  pub provider_id : Option String
  pub artifact_ids : List EntityId
  pub started_at : IsoTimestamp
  pub finished_at : Option IsoTimestamp
  pub duration_ms : Option ℕ
  pub error : Option String
  pub metadata : Option Json

instance abbrev pub task_entity : Entity Task
task_entity = record { id_of = λ t. t.id }

instance abbrev pub task_run_entity : Entity TaskRun
task_run_entity = record { id_of = λ r. r.id }

-- The table TRANSITIONS.
unfoldable pub transitions : TaskStatus → List TaskStatus
transitions TaskStatus.pending = TaskStatus.planning ∷ TaskStatus.canceled ∷ []
transitions TaskStatus.planning =
    TaskStatus.waiting_approval ∷ TaskStatus.running ∷ TaskStatus.failed ∷ TaskStatus.canceled ∷ []
transitions TaskStatus.waiting_approval = TaskStatus.running ∷ TaskStatus.canceled ∷ []
transitions TaskStatus.running =
    TaskStatus.testing ∷ TaskStatus.needs_review ∷ TaskStatus.completed ∷ TaskStatus.failed
    ∷ TaskStatus.canceled ∷ []
transitions TaskStatus.testing =
    TaskStatus.completed ∷ TaskStatus.needs_review ∷ TaskStatus.failed ∷ []
transitions TaskStatus.needs_review =
    TaskStatus.running ∷ TaskStatus.completed ∷ TaskStatus.canceled ∷ []
transitions TaskStatus.failed = TaskStatus.planning ∷ []
transitions TaskStatus.canceled = []
transitions TaskStatus.completed = []

unfoldable pub can_transition : TaskStatus → TaskStatus → Bool
unfolding transitions
can_transition from to = contains (transitions from) to

abbrev pub with_status : Task → TaskStatus → IsoTimestamp → Task
with_status task to ts = record {
  id = task.id;
  title = task.title;
  description = task.description;
  status = to;
  intent = task.intent;
  risk_level = task.risk_level;
  context = task.context;
  actor_id = task.actor_id;
  session_id = task.session_id;
  project_id = task.project_id;
  workspace_ref_id = task.workspace_ref_id;
  plan_id = task.plan_id;
  created_at = task.created_at;
  updated_at = ts;
  metadata = task.metadata;
}

-- The method `transition`: the caller passes the task as it has it.
unfoldable pub change_status :
    Task → TaskStatus → IsoTimestamp → List Task → Result String (Task × List Task)
change_status task to ts table = do
  require (can_transition task.status to)
      ("Illegal task transition: " ⊕ task_status_name task.status ⊕ " -> " ⊕ task_status_name to)
  ok (with_status task to ts, save (with_status task to ts) table)

-- `Math.max(0, Date.parse(finishedAt) - Date.parse(startedAt))`
abbrev pub elapsed : IsoTimestamp → IsoTimestamp → ℕ
elapsed started_at finished_at = finished_at - started_at

-- `value ? { key: value } : {}` over what is there already
abbrev pub text_or : Option String → Option String → Option String
text_or none old = old
text_or (some text) old = if text == "" then old else some text

pub record RunInfo : Type 0 where
  pub provider_id : Option String
  pub metadata : Option Json

unfoldable pub complete_run :
    TaskRun → List EntityId → RunInfo → IsoTimestamp → List TaskRun → TaskRun × List TaskRun
complete_run run artifact_ids info finished_at table = (updated, save updated table)
  where
    updated : TaskRun
    updated = record {
      id = run.id;
      task_id = run.task_id;
      attempt = run.attempt;
      status = TaskRunStatus.succeeded;
      capability = run.capability;
      provider_id = text_or info.provider_id run.provider_id;
      artifact_ids = artifact_ids;
      started_at = run.started_at;
      finished_at = some finished_at;
      duration_ms = some (elapsed run.started_at finished_at);
      error = run.error;
      metadata = or_else info.metadata run.metadata;
    }

unfoldable pub fail_run :
    TaskRun → String → RunInfo → IsoTimestamp → List TaskRun → TaskRun × List TaskRun
fail_run run error info finished_at table = (updated, save updated table)
  where
    updated : TaskRun
    updated = record {
      id = run.id;
      task_id = run.task_id;
      attempt = run.attempt;
      status = TaskRunStatus.failed;
      capability = run.capability;
      provider_id = text_or info.provider_id run.provider_id;
      artifact_ids = run.artifact_ids;
      started_at = run.started_at;
      finished_at = some finished_at;
      duration_ms = some (elapsed run.started_at finished_at);
      error = some error;
      metadata = or_else info.metadata run.metadata;
    }
