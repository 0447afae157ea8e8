-- ===== src/Continuation/Admission.antt =====
-- storage-sqlite/src/continuation-binding-repository.ts (under packages/): a handoff is bound to the one
-- task that continues it, while the task has not run yet.
use chunsik_bot.Base.{
  String, Bool, not, ◌&&◌, ◌||◌, Option, none, some, List, [], ◌∷◌, ◌++◌, any, filter, is_empty,
  find, ◌==◌, string_eq, option_eq,
}
use chunsik_bot.Base.Result.{Result, ok, err}
use chunsik_bot.Base.Guards.{◌>>◌, require}
use chunsik_bot.Domain.{EntityId, IsoTimestamp, TaskStatus, task_status_eq}
use chunsik_bot.Governance.Task.{Task, task_entity}
use chunsik_bot.Continuation.Documents.{
  WorkItem, WorkHandoff, ContinuationBinding, work_item_entity, work_handoff_entity, work_item_json,
  work_handoff_json, task_json,
}
use chunsik_bot.Continuation.Tables.{Tables}
use chunsik_bot.Continuation.Runs.{is_current, is_active}

pub data AdmissionError : Type 0 where
  inconsistent_state stale_state conflict : AdmissionError
  sql : String → AdmissionError

pub record Admission : Type 0 where
  pub handoff : WorkHandoff
  pub work_item : WorkItem
  pub task : Task

unfoldable pub find_binding : EntityId → List ContinuationBinding → Option ContinuationBinding
find_binding handoff_id bindings = find (λ b. b.handoff_id == handoff_id) bindings

unfoldable pub begin_admission : Option String → Result AdmissionError (Unit {0})
begin_admission none = ok tt
begin_admission (some code) = err (sql code)

abbrev pub touches : WorkHandoff → Task → ContinuationBinding → Bool
touches handoff task b = b.handoff_id == handoff.id || b.task_id == task.id

unfoldable pub admit_new :
    WorkHandoff
    → Task
    → IsoTimestamp
    → Tables
    → Result AdmissionError (ContinuationBinding × Tables)
admit_new handoff task now db = do
  require (not (any (λ run. run.task_id == task.id) db.runs)) stale_state
  ok (result, record db { bindings = db.bindings ++ (result ∷ []) })
  where
    result : ContinuationBinding
    result = record { handoff_id = handoff.id; task_id = task.id; recorded_at = now }

unfoldable pub admit :
    Option String
    → Admission
    → IsoTimestamp
    → Tables
    → Result AdmissionError (ContinuationBinding × Tables)
unfolding is_current work_handoff_json work_item_json task_json admit_new begin_admission
admit lock expected now db = do
  begin_admission lock
  require (is_current work_handoff_json db.work_handoffs handoff) stale_state
  require (is_current work_item_json db.work_items work_item) stale_state
  require (is_current task_json db.tasks task) stale_state
  require
      (handoff.work_item_id == work_item.id
        && is_active work_item.status
        && task.status == TaskStatus.pending
        && not (work_item.actor_id == "")
        && task.actor_id == some work_item.actor_id
        && task.project_id == work_item.project_id)
      inconsistent_state
  elim (filter (touches handoff task) db.bindings) [
    | [] ↦ admit_new handoff task now db
    | row ∷ rows ↦ (do
      require (is_empty rows && row.handoff_id == handoff.id && row.task_id == task.id) conflict
      ok (row, db))
  ]
  where
    open expected use {handoff, work_item, task}
