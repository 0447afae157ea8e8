-- ===== src/Continuation/Ledger/Tests.antt =====
-- The calls on a bound run, one after another, and its start and end.
use chunsik_bot.Base.Guards.{require, ◌>>◌}
use chunsik_bot.Base.Hash.{code_units}
use chunsik_bot.Base.Text.{is_sha256, is_version, is_routing_identifier}
use chunsik_bot.Base.{◌≡◌, refl, true, Option, none, some, List, [], ◌∷◌, string_eq, arith}
use chunsik_bot.Base.Json.{Json, bool, json_object}
use chunsik_bot.Base.Result.{ok}
use chunsik_bot.Samples.{sample_platform}
use chunsik_bot.Domain.{TaskStatus-discrete, Capability-discrete, Capability}
use chunsik_bot.Storage
use chunsik_bot.Governance.Task.{TaskRun, task_run_entity, task_entity}
use chunsik_bot.Continuation.Documents.{task_json, work_item_json, work_handoff_json}
use chunsik_bot.Continuation.Evidence.Audit.{audit_json}
use chunsik_bot.Continuation.Tables.{Tables, greatest_attempt, has_identity, is_bound, is_started}
use chunsik_bot.Continuation.Runs.{
  has_unresolved, is_granted, plan_of, binds_as, is_current, GuardedTaskRunStartFacts,
  ApprovalFacts, extract_containment_audit, guarded_start, started_run, with_runs,
}
use chunsik_bot.Continuation.Calls.{
  Call, binding_call, post_evidence_call, save_call, terminalize_call, delete_call, perform_all,
}
use chunsik_bot.Continuation.Ledger.Refined.{IsHeld, HasReached, perform_all-HasReached}
use chunsik_bot.Continuation.Ledger.Kept.{HasExtended, perform_all-uncertain, perform_all-Extends}
use chunsik_bot.Continuation.Ledger.Sound.{IsSound, perform_all-IsSound}
use chunsik_bot.Continuation.Ledger.Admits.{guarded_start-IsStartable}
use chunsik_bot.Continuation.Ledger.Starting.{
  IsStartable, IsNewRun, guarded_start-started, guarded_start-returns,
}
use chunsik_bot.Continuation.Ledger.Progress.{IsEnded, terminalize-returns}
use chunsik_bot.Continuation.Runs.Contained.{
  is_uncertain, terminal_run, supplies_evidence, terminalize_preserving_security_evidence,
}
use chunsik_bot.Continuation.Tests.{
  bound_audit, mismatch_audit, task, work_item, handoff, continuation, run, evidence, tables,
  request,
}

-- A bound run cannot be deleted, revived by a save, or ended by one where evidence is kept; the
-- evidence is recorded, observed, and then the end is vetoed.
abbrev calls : List Call
calls =
    delete_call none "run-1"
    ∷ binding_call none "run-1" (audit_json bound_audit)
    ∷ save_call none (run none)
    ∷ post_evidence_call none "run-1" (audit_json mismatch_audit)
    ∷ terminalize_call none "run-1" (request none)
    ∷ []

performed :
    (perform_all sample_platform calls (tables (run none ∷ []))).runs
    ≡ run (evidence mismatch_audit) ∷ []
unfolding perform_all ◌>>◌ require is_routing_identifier is_version is_sha256 code_units
    Capability-discrete
performed = refl

is_held : (metadata : Option Json) → IsHeld "run-1" (tables (run metadata ∷ [])) (run metadata)
unfolding Storage.get is_bound
is_held metadata = record { found = refl; bound = refl }

perform_all-HasReached_example :
    HasReached sample_platform "run-1"
      (perform_all sample_platform calls (tables (run none ∷ [])))
      (run none)
perform_all-HasReached_example =
    perform_all-HasReached sample_platform calls (tables (run none ∷ [])) "run-1" (run none)
      (is_held none)

perform_all-uncertain_example :
    (now : TaskRun) × (Storage.get "run-1"
        (perform_all sample_platform calls (tables (run (evidence mismatch_audit) ∷ []))).runs
      ≡ some now)
    × (is_started now.status ≡ true)
    × (extract_containment_audit sample_platform now
        ≡ extract_containment_audit sample_platform (run (evidence mismatch_audit)))
unfolding is_uncertain extract_containment_audit audit_json is_routing_identifier is_version
    is_sha256 code_units
perform_all-uncertain_example =
    perform_all-uncertain sample_platform calls (tables (run (evidence mismatch_audit) ∷ []))
      "run-1" (run (evidence mismatch_audit)) (is_held (evidence mismatch_audit)) refl refl

perform_all-Extends_example :
    (now : TaskRun) × (Storage.get "run-1"
        (perform_all sample_platform calls (tables (run (evidence bound_audit) ∷ []))).runs
      ≡ some now)
    × HasExtended bound_audit (extract_containment_audit sample_platform now)
unfolding extract_containment_audit audit_json is_routing_identifier is_version is_sha256 code_units
perform_all-Extends_example =
    perform_all-Extends sample_platform calls (tables (run (evidence bound_audit) ∷ [])) "run-1"
      (run (evidence bound_audit)) (is_held (evidence bound_audit)) bound_audit refl

is_sound : (metadata : Option Json) → IsSound (continuation ∷ []) (run metadata ∷ [])
unfolding has_identity
is_sound metadata = record { identities = (refl, tt); apart = (tt, tt) }

perform_all-IsSound_example :
    IsSound
      (perform_all sample_platform calls (tables (run none ∷ []))).bindings
      (perform_all sample_platform calls (tables (run none ∷ []))).runs
perform_all-IsSound_example =
    perform_all-IsSound sample_platform calls (tables (run none ∷ [])) (is_sound none)

terminalize-returns_example :
    (ended : TaskRun) × (after : Tables) × (terminalize_preserving_security_evidence sample_platform
        none "run-1"
        (request none)
        (tables (run (evidence bound_audit) ∷ []))
      ≡ ok (ended, after))
    × IsEnded sample_platform "run-1"
        (tables (run (evidence bound_audit) ∷ []))
        (run (evidence bound_audit))
        (request none)
        ended
        after
unfolding is_uncertain extract_containment_audit audit_json is_routing_identifier is_version
    is_sha256 code_units supplies_evidence
terminalize-returns_example =
    terminalize-returns sample_platform (tables (run (evidence bound_audit) ∷ [])) "run-1"
      (run (evidence bound_audit)) (request none) (is_sound (evidence bound_audit))
      (is_held (evidence bound_audit)) refl refl refl

abbrev facts : GuardedTaskRunStartFacts
facts = record {
  handoff = handoff;
  binding = continuation;
  work_item = work_item;
  task = task;
  approval = ApprovalFacts.not_required none;
}

is_startable : IsStartable facts Capability.summarization "run-2" (tables [])
unfolding is_current work_handoff_json work_item_json task_json binds_as TaskStatus-discrete
    Capability-discrete plan_of is_granted has_unresolved greatest_attempt
is_startable = record {
  handoff = refl;
  work_item = refl;
  task = refl;
  binding = refl;
  continuable = refl;
  executable = refl;
  planned = refl;
  granted = refl;
  resolved = refl;
  named = λ e. cc;
  tasked = λ e. cc;
  unused = refl;
  countable = omega arith;
}

guarded_start-returns_example :
    (started : TaskRun) × (after : Tables) × (guarded_start none facts Capability.summarization
        "run-2" 7
        (tables [])
      ≡ ok (started, after))
    × IsNewRun facts Capability.summarization "run-2" 7 (tables []) started after
guarded_start-returns_example =
    guarded_start-returns facts Capability.summarization "run-2" 7 (tables []) is_startable

-- Malformed evidence is no evidence, and stays in the row where it is all the metadata there is.
malformed_kept :
    (terminal_run
      (run (some (json_object (("containmentAudit", bool true) ∷ []))))
      (request none)
      none).metadata
    ≡ some (json_object (("containmentAudit", bool true) ∷ []))
unfolding terminal_run
malformed_kept = refl

guarded_start-IsStartable_example :
    IsStartable facts Capability.summarization "run-2" (tables [])
    × (started_run "task-1" Capability.summarization "run-2" 7 []
        ≡ started_run "task-1" Capability.summarization "run-2" 7 [])
    × (with_runs (tables []) (started_run "task-1" Capability.summarization "run-2" 7 [] ∷ [])
        ≡ with_runs (tables []) (started_run "task-1" Capability.summarization "run-2" 7 [] ∷ []))
guarded_start-IsStartable_example =
    guarded_start-IsStartable facts Capability.summarization "run-2" 7 (tables []) none
      (started_run "task-1" Capability.summarization "run-2" 7 [])
      (with_runs (tables []) (started_run "task-1" Capability.summarization "run-2" 7 [] ∷ []))
      (guarded_start-started facts Capability.summarization "run-2" 7 (tables []) is_startable)
