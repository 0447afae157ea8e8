-- ===== src/Continuation/Ledger/Evidence.antt =====
-- storage-sqlite/src/index.ts (under packages/): the methods that record evidence, followed through
-- their guards to a step of the ledger.
use chunsik_bot.Base.{
  String, ◌≡◌, refl, sym, ap, ◌∙◌, subst, true, not, Option, none, some, inl, inr, Option-cases,
  none_not_some, some-injective, is_some,
}
use chunsik_bot.Base.Platform.{Platform}
use chunsik_bot.Base.Result.{Result, ok, err}
use chunsik_bot.Base.Guards.{require-eq-ok}
use chunsik_bot.Base.Json.{Json}
use chunsik_bot.Base.Members.{lookup-set_same}
use chunsik_bot.Domain.{EntityId}
use chunsik_bot.Storage
use chunsik_bot.Storage.Laws.{get-id}
use chunsik_bot.Governance.Task.{TaskRun, task_run_entity}
use chunsik_bot.Continuation.Evidence.{ContainmentAudit, PostAttempt}
use chunsik_bot.Continuation.Evidence.Audit.{snapshot_containment_audit, audit_json}
use chunsik_bot.Continuation.Evidence.Identical.{binding_identical_sound, audit_path}
use chunsik_bot.Continuation.Evidence.Stored.{IsProjected, snapshot-IsProjected, snapshot_back}
use chunsik_bot.Continuation.Tables.{Tables, is_bound, is_started, upsert_run}
use chunsik_bot.Continuation.Runs.{
  containment_audit_metadata_key, metadata_members, extract_containment_audit,
}
use chunsik_bot.Continuation.Runs.Contained.{
  load_started_run_or_throw, with_audit, write_containment_audit, bind_if_absent, bind_projected,
  record_containment_binding_if_absent, append_if_absent, observe_bound, observe_given,
  observe_projected, record_containment_post_evidence_if_absent,
}
use chunsik_bot.Continuation.Ledger.{view, Moves, binds, observes}
use chunsik_bot.Continuation.Ledger.Saves.{extract_stored}
use chunsik_bot.Continuation.Ledger.Writes.{
  Commits, Commits-err, Commits-same, Commits-Step, Commits-require, Commits-bind, Commits-begun,
  upsert_run-Step,
}

err_not_ok : {E A : Type 0} {e : E} {a : A} → ◌≡◌ {A = Result E A} (err e) (ok a) → ⊥
err_not_ok h = cc

-- What `loadStartedRunOrThrow` has checked.
pub record IsLoaded (id : EntityId) (db : Tables) (run : TaskRun) : Type 0 where
  pub found : Storage.get id db.runs ≡ some run
  pub same_id : run.id ≡ id
  pub opened : is_started run.status ≡ true

pub load-IsLoaded :
    (id : EntityId) (db : Tables) {run : TaskRun}
    → load_started_run_or_throw id db ≡ ok run
    → IsLoaded id db run
unfolding load_started_run_or_throw
load-IsLoaded id db {run} e = elim (Option-cases (Storage.get id db.runs)) [
  | inl absent ↦ absurd (err_not_ok (rw (load_started_run_or_throw, absent) at e))
  | inr (row, found) ↦
      let (bound, rest) =
        require-eq-ok (is_bound row.task_id db.bindings) _ _
          (rw (load_started_run_or_throw, found) at e) in
      let (opened, same) = require-eq-ok (is_started row.status) _ _ rest in
      subst (IsLoaded id db) (cc same)
        (record { found = found; same_id = get-id id db.runs found; opened = opened })
]

-- The row is found by its own id.
pub own_row :
    {id : EntityId} {db : Tables} {run : TaskRun}
    → IsLoaded id db run
    → Storage.get run.id db.runs ≡ some run
own_row {db} {run} loaded =
    subst (λ i. Storage.get i db.runs ≡ some run) (sym loaded.same_id) loaded.found

module _ (p : Platform) (db : Tables) (run : TaskRun) where
  audit_kept :
      (audit : ContainmentAudit)
      → IsProjected p run.id audit
      → extract_containment_audit p (with_audit run audit) ≡ some audit
  unfolding with_audit metadata_members
  audit_kept audit projected =
      extract_stored p (with_audit run audit) (audit_json audit) (
        lookup-set_same containment_audit_metadata_key (audit_json audit)
          (metadata_members run.metadata))
      ∙ snapshot_back p run.id audit projected

  write-Step :
      (audit : ContainmentAudit)
      → Storage.get run.id db.runs ≡ some run
      → Moves (view p run) (view p (with_audit run audit))
      → Commits p db (write_containment_audit run audit db)
  unfolding write_containment_audit
  write-Step audit found moves = Commits-bind p db (upsert_run _ db.runs) _ λ rows e.
      Commits-Step p db _ _ (
        upsert_run-Step p db (with_audit run audit) e
          (λ absent. absurd (none_not_some (sym absent ∙ found)))
          (λ old is_old start bound.
            subst (λ o. Moves (view p o) (view p (with_audit run audit)))
              (some-injective (sym found ∙ is_old)) moves))

  module _ (found : Storage.get run.id db.runs ≡ some run)
      (opened : is_started run.status ≡ true) where
    bind-Step :
        (current projected : Option ContainmentAudit)
        → extract_containment_audit p run ≡ current
        → ((audit : ContainmentAudit) → projected ≡ some audit → IsProjected p run.id audit)
        → Commits p db (bind_projected run current projected db)
    unfolding bind_projected bind_if_absent
    bind-Step current none e projected = Commits-err p db _ _
    bind-Step (some evidence) (some audit) e projected =
        Commits-require p db _ _ _
          λ no_post. Commits-require p db _ _ _ λ same. Commits-same p db _ _
    bind-Step none (some audit) e projected = Commits-require p db _ _ _ λ no_post.
        write-Step audit found (
          binds audit.binding opened opened e (
            audit_kept audit (projected audit refl)
            ∙ ap some (audit_path _ _ refl (absent _ no_post))))
      where
        absent : {A : Type 0} (o : Option A) → not (is_some o) ≡ true → o ≡ none
        absent none h = refl
        absent (some a) h = cc

    append-Step :
        (current audit : ContainmentAudit) (attempt : PostAttempt) (recorded : Option PostAttempt)
        → extract_containment_audit p run ≡ some current
        → current.binding ≡ audit.binding
        → current.post_attempt ≡ recorded
        → audit.post_attempt ≡ some attempt
        → IsProjected p run.id audit
        → Commits p db (append_if_absent run recorded audit attempt db)
    unfolding append_if_absent
    append-Step current audit attempt (some q) e same c a projected =
        Commits-require p db _ _ _ λ identical. Commits-same p db _ _
    append-Step current audit attempt none e same c a projected = write-Step audit found (
        observes audit.binding attempt opened opened (e ∙ ap some (audit_path _ _ same c))
          (audit_kept audit projected ∙ ap some (audit_path _ _ refl a)))

    observe_bound-Step :
        (current : Option ContainmentAudit) (audit : ContainmentAudit) (attempt : PostAttempt)
        → extract_containment_audit p run ≡ current
        → audit.post_attempt ≡ some attempt
        → IsProjected p run.id audit
        → Commits p db (observe_bound run current audit attempt db)
    unfolding observe_bound
    observe_bound-Step none audit attempt e a projected = Commits-err p db _ _
    observe_bound-Step (some current) audit attempt e a projected =
        Commits-require p db _ _ _ λ same.
          append-Step current audit attempt current.post_attempt e
            (binding_identical_sound _ _ same) refl a projected

    observe-Step :
        (current projected : Option ContainmentAudit)
        → extract_containment_audit p run ≡ current
        → ((audit : ContainmentAudit) → projected ≡ some audit → IsProjected p run.id audit)
        → Commits p db (observe_projected run current projected db)
    unfolding observe_projected observe_given
    observe-Step current none e projected = Commits-err p db _ _
    observe-Step current (some audit) e projected = helper audit.post_attempt refl
      where
        helper :
            (post : Option PostAttempt)
            → audit.post_attempt ≡ post
            → Commits p db (observe_given run current audit post db)
        helper none a = Commits-err p db _ _
        helper (some attempt) a =
            observe_bound-Step current audit attempt e a (projected audit refl)

module _ (p : Platform) (db : Tables) (lock : Option String) (id : EntityId) (value : Json) where
  given-IsProjected :
      {run : TaskRun}
      → IsLoaded id db run
      → (audit : ContainmentAudit) → snapshot_containment_audit p value id id ≡ some audit
      → IsProjected p run.id audit
  given-IsProjected loaded audit e =
      subst (λ i. IsProjected p i audit) (sym loaded.same_id) (snapshot-IsProjected p value id e)

  pub record_binding-Step : Commits p db (record_containment_binding_if_absent p lock id value db)
  unfolding record_containment_binding_if_absent
  record_binding-Step = Commits-begun p db lock _ (
      Commits-bind p db (load_started_run_or_throw id db) _ λ run e.
        let loaded = load-IsLoaded id db e in
        bind-Step p db run (own_row loaded) loaded.opened _ _ refl (given-IsProjected loaded))

  pub record_post_evidence-Step :
      Commits p db (record_containment_post_evidence_if_absent p lock id value db)
  unfolding record_containment_post_evidence_if_absent
  record_post_evidence-Step = Commits-begun p db lock _ (
      Commits-bind p db (load_started_run_or_throw id db) _ λ run e.
        let loaded = load-IsLoaded id db e in
        observe-Step p db run (own_row loaded) loaded.opened _ _ refl (given-IsProjected loaded))
