-- ===== src/Continuation/Calls.antt =====
-- Calls of the two repositories, one after another, on the tables of one database. Other code writes
-- the other tables in between, as it likes.
use chunsik_bot.Base.{String, Option, List, [], ◌∷◌}
use chunsik_bot.Base.Platform.{Platform}
use chunsik_bot.Base.Result.{Result, ok, err}
use chunsik_bot.Base.Json.{Json}
use chunsik_bot.Domain.{EntityId, IsoTimestamp, Capability}
use chunsik_bot.Governance.Approval.{ApprovalRequest}
use chunsik_bot.Governance.Task.{Task, TaskRun}
use chunsik_bot.Continuation.Documents.{WorkItem, WorkHandoff}
use chunsik_bot.Continuation.Tables.{Tables}
use chunsik_bot.Continuation.Runs.{GuardedTaskRunStartFacts, start, guarded_start, save}
use chunsik_bot.Continuation.Runs.Contained.{
  TerminalizeRequest, record_containment_binding_if_absent,
  record_containment_post_evidence_if_absent, terminalize_preserving_security_evidence, delete_run,
}
use chunsik_bot.Continuation.Admission.{Admission, admit}

-- The first argument of each is the error, if any, with which the driver fails to begin.
pub data Call : Type 0 where
  start_call : Option String → Task → Capability → EntityId → IsoTimestamp → Call
  guarded_start_call :
      Option String → GuardedTaskRunStartFacts → Capability → EntityId → IsoTimestamp → Call
  save_call : Option String → TaskRun → Call
  binding_call : Option String → EntityId → Json → Call
  post_evidence_call : Option String → EntityId → Json → Call
  terminalize_call : Option String → EntityId → TerminalizeRequest → Call
  delete_call : Option String → EntityId → Call
  admit_call : Option String → Admission → IsoTimestamp → Call
  other_call : List WorkHandoff → List WorkItem → List Task → List ApprovalRequest → Call

-- A call that throws is rolled back.
unfoldable pub committed : {E A : Type 0} → Tables → Result E (A × Tables) → Tables
committed db (ok (answer, after)) = after
committed db (err e) = db

unfoldable pub perform : Platform → Call → Tables → Tables
unfolding committed start guarded_start save record_containment_binding_if_absent
    record_containment_post_evidence_if_absent terminalize_preserving_security_evidence delete_run
    admit
perform p (start_call lock task capability id now) db =
    committed db (start lock task capability id now db)
perform p (guarded_start_call lock facts capability id now) db =
    committed db (guarded_start lock facts capability id now db)
perform p (save_call lock run) db = committed db (save p lock run db)
perform p (binding_call lock id value) db =
    committed db (record_containment_binding_if_absent p lock id value db)
perform p (post_evidence_call lock id value) db =
    committed db (record_containment_post_evidence_if_absent p lock id value db)
perform p (terminalize_call lock id request) db =
    committed db (terminalize_preserving_security_evidence p lock id request db)
perform p (delete_call lock id) db = committed db (delete_run lock id db)
perform p (admit_call lock expected now) db = committed db (admit lock expected now db)
perform p (other_call work_handoffs work_items tasks approvals) db = record db {
  work_handoffs = work_handoffs;
  work_items = work_items;
  tasks = tasks;
  approvals = approvals;
}

unfoldable pub perform_all : Platform → List Call → Tables → Tables
unfolding perform
perform_all p [] db = db
perform_all p (call ∷ calls) db = perform_all p calls (perform p call db)
