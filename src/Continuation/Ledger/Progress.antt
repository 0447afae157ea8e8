-- ===== src/Continuation/Ledger/Progress.antt =====
-- storage-sqlite/src/index.ts (under packages/): terminalizePreservingSecurityEvidence where its guards
-- pass, down to the triggers and indexes of the row that is written.
use chunsik_bot.Base.{
  ◌≡◌, ◌≢◌, ap, get_or, refl, sym, ◌∙◌, subst, Bool, true, false, Option, none, some, List, [], ◌∷◌,
  All, if◌then◌else◌, ◌==◌, string_eq, nat_eq, option_eq, beq_refl, some-injective,
}
use chunsik_bot.Base.Platform.{Platform}
use chunsik_bot.Base.Result.{ok}
use chunsik_bot.Base.Guards.{◌>>=◌, ◌>>◌, require}
use chunsik_bot.Domain.{EntityId, TaskRunStatus, task_status_eq, capability_eq}
use chunsik_bot.Storage
use chunsik_bot.Storage.Laws.{get-id, get-save_same, get-save_other}
use chunsik_bot.Governance.Task.{TaskRun, task_run_entity, task_entity}
use chunsik_bot.Continuation.Evidence.{ContainmentAudit}
use chunsik_bot.Continuation.Tables.{
  Tables, begin_immediate, no_contention, is_started, has_identity, same_start, update_run,
  upsert_run,
}
use chunsik_bot.Continuation.Documents.{work_handoff_entity, work_item_entity}
use chunsik_bot.Continuation.Runs.{with_runs, extract_containment_audit}
use chunsik_bot.Continuation.Runs.Contained.{
  TerminalizeRequest, TerminalStatus, terminal_run_status, load_started_run_or_throw,
  supplies_evidence, is_uncertain, terminal_run, end_unless,
  terminalize_preserving_security_evidence,
}
use chunsik_bot.Continuation.Ledger.Ends.{terminal_evidence}
use chunsik_bot.Continuation.Ledger.Refined.{IsHeld}
use chunsik_bot.Continuation.Ledger.Sound.{HasIdentity, IsSound}

All-get :
    (P : TaskRun → Type 0) (id : EntityId) (rows : List TaskRun) {run : TaskRun}
    → All P rows
    → Storage.get id rows ≡ some run
    → P run
unfolding Storage.get
All-get P id [] h e = cc
All-get P id (row ∷ rows) {run} (hr, hs) e = helper (row.id == id) e (All-get P id rows hs)
  where
    helper :
        (b : Bool)
        → (if b then some row else Storage.get id rows) ≡ some run
        → (Storage.get id rows ≡ some run → P run)
        → P run
    helper true is rest = subst P (some-injective is) hr
    helper false is rest = rest is

same_start-terminal :
    (run : TaskRun) (request : TerminalizeRequest) (preserved : Option ContainmentAudit)
    → same_start run (terminal_run run request preserved) ≡ true
unfolding same_start terminal_run
same_start-terminal run request preserved =
    rw
      (beq_refl run.task_id, beq_refl run.attempt, beq_refl run.started_at, beq_refl run.capability)
      refl

load-held :
    (db : Tables) (id : EntityId) (run : TaskRun)
    → IsHeld id db run
    → is_started run.status ≡ true
    → load_started_run_or_throw id db ≡ ok run
unfolding load_started_run_or_throw ◌>>=◌ ◌>>◌ require
load-held db id run held opened =
    rw (load_started_run_or_throw, held.found, held.bound, opened) refl

update_run-same :
    (old run : TaskRun) (rows : List TaskRun)
    → Storage.get run.id rows ≡ some old
    → has_identity run ≡ true
    → same_start old run ≡ true
    → upsert_run run rows ≡ ok (Storage.save run rows)
unfolding upsert_run update_run ◌>>=◌ ◌>>◌ require
update_run-same old run rows found identity start =
    rw (upsert_run, update_run, found, identity, start) refl

terminal-identity :
    (run : TaskRun) (request : TerminalizeRequest) (preserved : Option ContainmentAudit)
    → has_identity (terminal_run run request preserved) ≡ has_identity run
unfolding has_identity terminal_run
terminal-identity run request preserved = refl

end_unless-ok :
    (run : TaskRun) (preserved : Option ContainmentAudit) (request : TerminalizeRequest)
    (db : Tables)
    → Storage.get run.id db.runs ≡ some run
    → has_identity run ≡ true
    → end_unless false run preserved request db
      ≡ ok (
        terminal_run run request preserved,
        with_runs db (Storage.save (terminal_run run request preserved) db.runs),
      )
unfolding end_unless ◌>>=◌ terminal_run
end_unless-ok run preserved request db found identity =
    rw
      (update_run-same run (terminal_run run request preserved) db.runs found
        (terminal-identity run request preserved ∙ identity)
        (same_start-terminal run request preserved))
      refl

-- What a run is after its end, as the request has it, and what the tables are beside it.
pub record IsEnded (p : Platform) (id : EntityId) (db : Tables) (run : TaskRun)
    (request : TerminalizeRequest) (ended : TaskRun) (after : Tables) : Type 0 where
  pub stored : Storage.get id after.runs ≡ some ended
  pub others :
      (other : EntityId) → other ≢ id → Storage.get other after.runs ≡ Storage.get other db.runs
  pub alone : after ≡ record db { runs = after.runs }
  pub succeeded :
      request.terminal_status ≡ TerminalStatus.succeeded → ended.status ≡ TaskRunStatus.succeeded
  pub failed : request.terminal_status ≡ TerminalStatus.failed → ended.status ≡ TaskRunStatus.failed
  pub finished : ended.finished_at ≡ some request.finished_at
  pub task : ended.task_id ≡ run.task_id
  pub attempt : ended.attempt ≡ run.attempt
  pub started : ended.started_at ≡ run.started_at
  pub capability : ended.capability ≡ run.capability
  pub artifacts : (ids : List EntityId) → request.artifact_ids ≡ some ids → ended.artifact_ids ≡ ids
  pub kept_artifacts : request.artifact_ids ≡ none → ended.artifact_ids ≡ run.artifact_ids
  pub evidence : extract_containment_audit p ended ≡ extract_containment_audit p run

terminal_run-IsEnded :
    (p : Platform) (db : Tables) (run : TaskRun) (request : TerminalizeRequest)
    → IsEnded p run.id db run request (terminal_run run request (extract_containment_audit p run)) (
        with_runs db
          (Storage.save (terminal_run run request (extract_containment_audit p run)) db.runs))
unfolding terminal_run
terminal_run-IsEnded p db run request = record {
  stored = get-save_same (terminal_run run request (extract_containment_audit p run)) db.runs;
  others = λ other n.
      get-save_other (terminal_run run request (extract_containment_audit p run)) db.runs other n;
  alone = refl;
  succeeded = λ e. ap terminal_run_status e;
  failed = λ e. ap terminal_run_status e;
  finished = refl;
  task = refl;
  attempt = refl;
  started = refl;
  capability = refl;
  artifacts = λ ids e. ap (λ o. get_or o run.artifact_ids) e;
  kept_artifacts = λ e. ap (λ o. get_or o run.artifact_ids) e;
  evidence = terminal_evidence p run request (extract_containment_audit p run) refl;
}

-- In sound tables a STARTED run of a bound task, whose evidence leaves nothing open, is ended by a
-- request that brings no evidence of its own: the call returns the ended run and has stored it. It is
-- SUCCEEDED or FAILED as the request asks, finished at the time of the request, with its artifacts where
-- it names any, and has the task, the ordinal, the start and the evidence of before. The other runs and
-- the other tables are as they were.
pub terminalize-returns :
    (p : Platform) (db : Tables) (id : EntityId) (run : TaskRun) (request : TerminalizeRequest)
    → IsSound db.bindings db.runs
    → IsHeld id db run
    → is_started run.status ≡ true
    → is_uncertain (extract_containment_audit p run) ≡ false
    → supplies_evidence request ≡ false
    → (ended : TaskRun) × (after : Tables) × (terminalize_preserving_security_evidence p none id
          request db
        ≡ ok (ended, after))
      × IsEnded p id db run request ended after
unfolding terminalize_preserving_security_evidence no_contention begin_immediate ◌>>=◌ ◌>>◌ require
terminalize-returns p db id run request sound held opened certain plain = (
  _,
  _,
  rw
      (
        terminalize_preserving_security_evidence,
        no_contention,
        load-held db id run held opened,
        plain,
        certain,
        end_unless-ok run (extract_containment_audit p run) request db own
            (All-get HasIdentity id db.runs sound.identities held.found),
      )
      refl,
  subst
      (λ i.
        IsEnded p i db run request (terminal_run run request (extract_containment_audit p run)) (
          with_runs db
            (Storage.save (terminal_run run request (extract_containment_audit p run)) db.runs)))
      same (terminal_run-IsEnded p db run request),
)
  where
    same : run.id ≡ id
    same = get-id id db.runs held.found

    own : Storage.get run.id db.runs ≡ some run
    own = subst (λ i. Storage.get i db.runs ≡ some run) (sym same) held.found
