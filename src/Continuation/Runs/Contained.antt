-- ===== src/Continuation/Runs/Contained.antt =====
-- storage-sqlite/src/index.ts (under packages/): the methods of SqliteTaskRunRepository that record the
-- evidence of a contained run and end it, and the deletion and listing of runs.
use chunsik_bot.Base.{
  String, Bool, true, false, not, ◌||◌, Option, none, some, List, is_some, get_or, ◌==◌, string_eq,
  nat_eq,
}
use chunsik_bot.Base.Platform.{Platform}
use chunsik_bot.Base.Result.{Result, ok, err}
use chunsik_bot.Base.Guards.{◌>>=◌, ◌>>◌, require}
use chunsik_bot.Base.Json.{Json, obj, Members, end, member}
use chunsik_bot.Base.Members.{lookup, set_member, delete_member, assign}
use chunsik_bot.Domain.{EntityId, IsoTimestamp, TaskRunStatus}
use chunsik_bot.Storage.{get, delete}
use chunsik_bot.Governance.Task.{TaskRun, task_run_entity, elapsed, text_or}
use chunsik_bot.Continuation.Evidence.{ContainmentAudit, PostAttempt}
use chunsik_bot.Continuation.Evidence.Audit.{
  snapshot_containment_audit, audit_json, binding_identical, post_attempt_identical,
}
use chunsik_bot.Continuation.Tables.{
  Tables, GuardCode, ConflictReason, RunError, guarded, conflict, Answer, begin_immediate,
  no_contention, is_bound, is_started, upsert_run,
}
use chunsik_bot.Continuation.Runs.{
  with_runs, containment_audit_metadata_key, metadata_members, extract_containment_audit,
}

unfoldable pub load_started_run_or_throw : EntityId → Tables → Result RunError TaskRun
unfolding get is_bound
load_started_run_or_throw id db = elim (get id db.runs) [
  | none ↦ err (conflict ConflictReason.run_not_found)
  | some run ↦ (do
    require (is_bound run.task_id db.bindings) (conflict ConflictReason.run_not_continuation_bound)
    require (is_started run.status) (conflict ConflictReason.run_not_started)
    ok run)
]

-- The row with the projected evidence in its metadata.
unfoldable pub with_audit : TaskRun → ContainmentAudit → TaskRun
unfolding metadata_members set_member audit_json
with_audit run audit = record run {
  metadata = some (
      obj (
        set_member containment_audit_metadata_key (audit_json audit)
          (metadata_members run.metadata)));
}

unfoldable pub write_containment_audit : TaskRun → ContainmentAudit → Tables → Answer TaskRun
unfolding with_audit upsert_run
write_containment_audit run audit db = do
  rows ← upsert_run (with_audit run audit) db.runs
  ok (with_audit run audit, with_runs db rows)

-- `current` is the evidence of the row, `projected` that of the caller.
unfoldable pub bind_if_absent :
    TaskRun → Option ContainmentAudit → ContainmentAudit → Tables → Answer TaskRun
unfolding write_containment_audit binding_identical
bind_if_absent run none projected db = write_containment_audit run projected db
bind_if_absent run (some current) projected db = do
  require (binding_identical current.binding projected.binding)
      (conflict ConflictReason.binding_digest_conflict)
  ok (run, db)

unfoldable pub bind_projected :
    TaskRun → Option ContainmentAudit → Option ContainmentAudit → Tables → Answer TaskRun
unfolding bind_if_absent
bind_projected run current none db = err (conflict ConflictReason.malformed_evidence)
bind_projected run current (some projected) db = do
  require (not (is_some projected.post_attempt)) (conflict ConflictReason.malformed_evidence)
  bind_if_absent run current projected db

unfoldable pub record_containment_binding_if_absent :
    Platform → Option String → EntityId → Json → Tables → Answer TaskRun
unfolding no_contention begin_immediate load_started_run_or_throw snapshot_containment_audit
    extract_containment_audit bind_projected
record_containment_binding_if_absent p lock id value db = no_contention (do
  begin_immediate lock
  run ← load_started_run_or_throw id db
  bind_projected run (extract_containment_audit p run) (snapshot_containment_audit p value id id)
      db)

unfoldable pub append_if_absent :
    TaskRun → Option PostAttempt → ContainmentAudit → PostAttempt → Tables → Answer TaskRun
unfolding write_containment_audit post_attempt_identical
append_if_absent run none projected attempt db = write_containment_audit run projected db
append_if_absent run (some recorded) projected attempt db = do
  require (post_attempt_identical recorded attempt) (conflict ConflictReason.post_attempt_conflict)
  ok (run, db)

unfoldable pub observe_bound :
    TaskRun → Option ContainmentAudit → ContainmentAudit → PostAttempt → Tables → Answer TaskRun
unfolding append_if_absent binding_identical
observe_bound run none projected attempt db = err (conflict ConflictReason.binding_missing)
observe_bound run (some current) projected attempt db = do
  require (binding_identical current.binding projected.binding)
      (conflict ConflictReason.binding_digest_conflict)
  append_if_absent run current.post_attempt projected attempt db

unfoldable pub observe_given :
    TaskRun
    → Option ContainmentAudit
    → ContainmentAudit
    → Option PostAttempt
    → Tables
    → Answer TaskRun
unfolding observe_bound
observe_given run current projected none db = err (conflict ConflictReason.malformed_evidence)
observe_given run current projected (some attempt) db =
    observe_bound run current projected attempt db

unfoldable pub observe_projected :
    TaskRun → Option ContainmentAudit → Option ContainmentAudit → Tables → Answer TaskRun
unfolding observe_given
observe_projected run current none db = err (conflict ConflictReason.malformed_evidence)
observe_projected run current (some projected) db =
    observe_given run current projected projected.post_attempt db

unfoldable pub record_containment_post_evidence_if_absent :
    Platform → Option String → EntityId → Json → Tables → Answer TaskRun
unfolding no_contention begin_immediate load_started_run_or_throw snapshot_containment_audit
    extract_containment_audit observe_projected
record_containment_post_evidence_if_absent p lock id value db = no_contention (do
  begin_immediate lock
  run ← load_started_run_or_throw id db
  observe_projected run (extract_containment_audit p run) (snapshot_containment_audit p value id id)
      db)

-- The type allows SUCCEEDED and FAILED alone, so the check of the status falls away.
pub data TerminalStatus : Type 0 where
  succeeded failed : TerminalStatus

pub record TerminalizeRequest : Type 0 where
  pub terminal_status : TerminalStatus
  pub finished_at : IsoTimestamp
  pub artifact_ids : Option (List EntityId)
  pub provider_id : Option String
  pub error : Option String
  pub metadata : Option Json

-- An observation after the attempt that leaves its outcome open.
unfoldable pub is_uncertain : Option ContainmentAudit → Bool
is_uncertain none = false
is_uncertain (some audit) = elim audit.post_attempt [
  | none ↦ false
  | some q ↦ q.post_attempt_model_integrity == "MISMATCH" || is_some q.failure_code
]

unfoldable pub merged_metadata : TaskRun → TerminalizeRequest → Option ContainmentAudit → Members
unfolding assign metadata_members set_member delete_member audit_json
merged_metadata run request none =
    delete_member containment_audit_metadata_key
      (assign (metadata_members run.metadata) (metadata_members request.metadata))
merged_metadata run request (some audit) =
    set_member containment_audit_metadata_key (audit_json audit)
      (assign (metadata_members run.metadata) (metadata_members request.metadata))

-- `Object.keys(merged).length > 0 ? { metadata: merged } : {}`
unfoldable pub metadata_or : Members → Option Json → Option Json
metadata_or end old = old
metadata_or (member k v ms) old = some (obj (member k v ms))

abbrev pub terminal_run_status : TerminalStatus → TaskRunStatus
terminal_run_status TerminalStatus.succeeded = TaskRunStatus.succeeded
terminal_run_status TerminalStatus.failed = TaskRunStatus.failed

unfoldable pub terminal_run : TaskRun → TerminalizeRequest → Option ContainmentAudit → TaskRun
unfolding merged_metadata metadata_or
terminal_run run request preserved = record {
  id = run.id;
  task_id = run.task_id;
  attempt = run.attempt;
  status = terminal_run_status request.terminal_status;
  capability = run.capability;
  provider_id = text_or request.provider_id run.provider_id;
  artifact_ids = get_or request.artifact_ids run.artifact_ids;
  started_at = run.started_at;
  finished_at = some request.finished_at;
  duration_ms = some (elapsed run.started_at request.finished_at);
  error = text_or request.error run.error;
  metadata = metadata_or (merged_metadata run request preserved) run.metadata;
}

-- A key of the caller's metadata under which evidence is kept.
unfoldable pub supplies_evidence : TerminalizeRequest → Bool
unfolding lookup metadata_members
supplies_evidence request =
    is_some (lookup containment_audit_metadata_key (metadata_members request.metadata))

-- Current uncertainty vetoes the end; the row stays as it is.
unfoldable pub end_unless :
    Bool → TaskRun → Option ContainmentAudit → TerminalizeRequest → Tables → Answer TaskRun
unfolding terminal_run upsert_run
end_unless true run preserved request db = ok (run, db)
end_unless false run preserved request db = do
  rows ← upsert_run (terminal_run run request preserved) db.runs
  ok (terminal_run run request preserved, with_runs db rows)

unfoldable pub terminalize_preserving_security_evidence :
    Platform → Option String → EntityId → TerminalizeRequest → Tables → Answer TaskRun
unfolding no_contention begin_immediate load_started_run_or_throw supplies_evidence
    extract_containment_audit is_uncertain end_unless
terminalize_preserving_security_evidence p lock id request db = no_contention (do
  begin_immediate lock
  run ← load_started_run_or_throw id db
  require (not (supplies_evidence request)) (conflict ConflictReason.caller_supplied_evidence)
  end_unless (is_uncertain (extract_containment_audit p run)) run (extract_containment_audit p run)
      request db)

unfoldable pub delete_run : Option String → EntityId → Tables → Answer (Unit {0})
unfolding no_contention begin_immediate is_bound get delete
delete_run lock id db = no_contention (do
  begin_immediate lock
  elim (get id db.runs) [
    | none ↦ ok (tt, db)
    | some run ↦ (do
      require (not (is_bound run.task_id db.bindings))
          (guarded GuardCode.continuation_run_delete_forbidden)
      ok (tt, with_runs db (delete id db.runs)))
  ])
