-- ===== src/Continuation/Runs.antt =====
-- storage-sqlite/src/index.ts (under packages/): SqliteTaskRunRepository. Each method is one
-- transaction; the error with which the driver fails to begin it, the id of `newId()` and the time of
-- `now()` are arguments.
pub mod Contained
use chunsik_bot.Base.{
  ℕ, ◌+◌, ◌-◌, String, Bool, true, false, not, ◌&&◌, ◌||◌, Option, none, some, List, [], ◌∷◌, leb,
  any, find, filter, is_some, or_else, get_or, if◌then◌else◌, ◌==◌, string_eq, nat_eq, option_eq,
}
use mathlib.Core.Option
use chunsik_bot.Base.Platform.{Platform}
use chunsik_bot.Base.Result.{Result, ok, err}
use chunsik_bot.Base.Guards.{◌>>=◌, ◌>>◌, require}
use chunsik_bot.Base.Json.{Json, obj, Members, end}
use chunsik_bot.Base.Members.{lookup, set_member, delete_member, assign, deep_equal}
use chunsik_bot.Domain.{
  EntityId, IsoTimestamp, TaskStatus, TaskRunStatus, Capability, ApprovalStatus, task_status_eq,
  capability_eq, approval_status_eq,
}
use chunsik_bot.Domain.Plan.{ExecutionPlanRef}
use chunsik_bot.Storage.{Entity, get}
use chunsik_bot.Governance.Approval.{ApprovalRequest, approval_entity}
use chunsik_bot.Governance.Task.{Task, TaskRun, task_entity, task_run_entity, elapsed, text_or}
use chunsik_bot.Continuation.Documents.{
  WorkItem, WorkItemStatus, WorkHandoff, ContinuationBinding, work_item_entity, work_handoff_entity,
  work_item_json, work_handoff_json, task_json, approval_json, plan_ref_json,
}
use chunsik_bot.Continuation.Evidence.{ContainmentAudit}
use chunsik_bot.Continuation.Evidence.Audit.{
  snapshot_containment_audit, audit_json, binding_identical, post_attempt_identical,
  containment_evidence_identical,
}
use chunsik_bot.Continuation.Tables.{
  Tables, GuardCode, ConflictReason, RunError, guarded, conflict,
  task_run_start_invalid_or_stale_task, task_run_attempt_exhausted, Answer, begin_immediate,
  no_contention, is_bound, is_started, insert_run, upsert_run, greatest_attempt,
}

abbrev pub containment_audit_metadata_key : String
containment_audit_metadata_key = "containmentAudit"

-- `metadata ?? {}`
unfoldable pub metadata_members : Option Json → Members
metadata_members (some (obj ms)) = ms
metadata_members _ = end

unfoldable pub extract_containment_audit : Platform → TaskRun → Option ContainmentAudit
unfolding metadata_members lookup snapshot_containment_audit
extract_containment_audit p run =
    elim (lookup containment_audit_metadata_key (metadata_members run.metadata)) [
      | none ↦ none
      | some raw ↦ snapshot_containment_audit p raw run.id run.id
    ]

-- `row && isDeepStrictEqual(JSON.parse(row.data), JSON.parse(JSON.stringify(value)))`
unfoldable pub is_current : {T : Type 0} ⦃entity : Entity T⦄ → (T → Json) → List T → T → Bool
unfolding get deep_equal
is_current ⦃entity⦄ json_of rows value = elim (get (entity.id_of value) rows) [
  | none ↦ false
  | some row ↦ deep_equal (json_of row) (json_of value)
]

abbrev pub with_runs : Tables → List TaskRun → Tables
with_runs db rows = record db { runs = rows }

-- The new run, its ordinal one more than the greatest of its task.
unfoldable pub started_run :
    EntityId → Capability → EntityId → IsoTimestamp → List TaskRun → TaskRun
unfolding greatest_attempt
started_run task_id capability new_id now runs = record {
  id = new_id;
  task_id = task_id;
  attempt = greatest_attempt task_id runs + 1;
  status = TaskRunStatus.started;
  capability = capability;
  provider_id = none;
  artifact_ids = [];
  started_at = now;
  finished_at = none;
  duration_ms = none;
  error = none;
  metadata = none;
}

unfoldable pub insert_started :
    EntityId → Capability → EntityId → IsoTimestamp → Tables → Answer TaskRun
unfolding insert_run started_run greatest_attempt
insert_started task_id capability new_id now db = do
  require (leb (greatest_attempt task_id db.runs + 1) 9007199254740991) task_run_attempt_exhausted
  rows ← insert_run (started_run task_id capability new_id now db.runs) db.runs
  ok (started_run task_id capability new_id now db.runs, with_runs db rows)

unfoldable pub start :
    Option String → Task → Capability → EntityId → IsoTimestamp → Tables → Answer TaskRun
unfolding no_contention begin_immediate is_bound is_current insert_started task_json
start lock task capability new_id now db = no_contention (do
  begin_immediate lock
  require (not (is_bound task.id db.bindings)) (guarded GuardCode.continuation_guard_required)
  require (task.status == TaskStatus.running && is_current task_json db.tasks task)
      task_run_start_invalid_or_stale_task
  insert_started task.id capability new_id now db)

pub data ApprovalFacts : Type 0 where
  not_required : Option ExecutionPlanRef → ApprovalFacts
  approved : ApprovalRequest → ExecutionPlanRef → ApprovalFacts

pub record GuardedTaskRunStartFacts : Type 0 where
  pub handoff : WorkHandoff
  pub binding : ContinuationBinding
  pub work_item : WorkItem
  pub task : Task
  pub approval : ApprovalFacts

abbrev pub is_active : WorkItemStatus → Bool
is_active WorkItemStatus.active = true
is_active _ = false

unfoldable pub binds_as :
    ContinuationBinding → WorkHandoff → Task → Option ContinuationBinding → Bool
binds_as binding handoff task none = false
binds_as binding handoff task (some bound) =
    binding.handoff_id == handoff.id
    && binding.task_id == task.id
    && bound.handoff_id == binding.handoff_id
    && bound.task_id == binding.task_id
    && bound.recorded_at == binding.recorded_at

unfoldable pub plan_of : ApprovalFacts → Option EntityId
plan_of (not_required r) = Option.map (λ r. r.id) r
plan_of (approved request r) = some r.id

unfoldable pub is_granted : List ApprovalRequest → ApprovalFacts → Bool
unfolding get deep_equal approval_json plan_ref_json
is_granted approvals (not_required r) = true
is_granted approvals (approved request r) = elim (get request.id approvals) [
  | none ↦ false
  | some persisted ↦
      persisted.id == request.id
      && persisted.status == ApprovalStatus.approved
      && deep_equal (approval_json persisted) (approval_json request)
      && deep_equal (plan_ref_json persisted.plan_ref) (plan_ref_json r)
]

unfoldable pub has_unresolved : EntityId → List TaskRun → Bool
has_unresolved task_id runs = any (λ run. run.task_id == task_id && is_started run.status) runs

unfoldable pub guarded_start :
    Option String
    → GuardedTaskRunStartFacts
    → Capability
    → EntityId
    → IsoTimestamp
    → Tables
    → Answer TaskRun
unfolding no_contention begin_immediate is_current binds_as plan_of is_granted has_unresolved
    insert_started task_json work_item_json work_handoff_json
guarded_start lock facts capability new_id now db = no_contention (do
  begin_immediate lock
  require (is_current work_handoff_json db.work_handoffs handoff) (guarded GuardCode.stale_handoff)
  require (is_current work_item_json db.work_items work_item)
      (guarded GuardCode.work_item_not_continuable)
  require (is_current task_json db.tasks task) (guarded GuardCode.task_not_executable)
  require (binds_as binding handoff task (find (λ b. b.handoff_id == handoff.id) db.bindings))
      (guarded GuardCode.binding_mismatch)
  require (handoff.work_item_id == work_item.id && is_active work_item.status)
      (guarded GuardCode.work_item_not_continuable)
  require
      (task.status == TaskStatus.running
        && not (work_item.actor_id == "")
        && task.actor_id == some work_item.actor_id
        && task.project_id == work_item.project_id
        && capability == task.intent.capability)
      (guarded GuardCode.task_not_executable)
  require (task.plan_id == plan_of approval) (guarded GuardCode.approval_stale)
  require (is_granted db.approvals approval) (guarded GuardCode.approval_stale)
  require (not (has_unresolved task.id db.runs)) (guarded GuardCode.unresolved_started_run)
  insert_started task.id capability new_id now db)
  where
    open facts use {handoff, binding, work_item, task, approval}

-- The evidence of a run that is saved is that of the row, or the save is refused for a reason.
unfoldable pub conflict_reason : Option ContainmentAudit → Option ContainmentAudit → ConflictReason
conflict_reason none incoming = ConflictReason.malformed_evidence
conflict_reason (some a) none = ConflictReason.evidence_removed
conflict_reason (some a) (some b) = ConflictReason.binding_digest_conflict

unfoldable pub carries_evidence : TaskRun → Bool
unfolding lookup metadata_members
carries_evidence run =
    is_some (lookup containment_audit_metadata_key (metadata_members run.metadata))

unfoldable pub closes_contained : Option TaskRun → TaskRun → Bool
unfolding carries_evidence
closes_contained none run = false
closes_contained (some old) run =
    is_started old.status && not (is_started run.status) && carries_evidence old

unfoldable pub check_bound : Platform → Option TaskRun → TaskRun → Result RunError (Unit {0})
unfolding extract_containment_audit containment_evidence_identical conflict_reason
check_bound p none run = err (guarded GuardCode.continuation_guard_required)
check_bound p (some old) run = do
  require (not (is_started run.status && not (is_started old.status)))
      (guarded GuardCode.continuation_guard_required)
  require
      (containment_evidence_identical (extract_containment_audit p old)
        (extract_containment_audit p run))
      (conflict
        (conflict_reason (extract_containment_audit p old) (extract_containment_audit p run)))

unfoldable pub save : Platform → Option String → TaskRun → Tables → Answer TaskRun
unfolding no_contention begin_immediate is_bound closes_contained check_bound upsert_run get
save p lock run db = no_contention (do
  begin_immediate lock
  require (not (closes_contained (get run.id db.runs) run))
      (guarded GuardCode.continuation_guard_required)
  if is_bound run.task_id db.bindings then check_bound p (get run.id db.runs) run else ok tt
  rows ← upsert_run run db.runs
  ok (run, with_runs db rows))
