-- ===== src/Continuation/Ledger/Saves.antt =====
-- storage-sqlite/src/index.ts (under packages/): the generic `save` of a run, followed through its
-- guards to a step of the ledger.
use chunsik_bot.Base.{
  String, ◌≡◌, refl, sym, ap, ◌∙◌, subst, Bool, true, false, not, ◌&&◌, Option, none, some,
  if◌then◌else◌, Bool-cases, ◌⊎◌, inl, inr, not-eq-true, false_not_true, is_some, arith,
}
use chunsik_bot.Base.Platform.{Platform}
use chunsik_bot.Base.Result.{Result, ok}
use chunsik_bot.Base.Guards.{require-eq-ok, require_last-eq-ok}
use chunsik_bot.Base.Json.{Json}
use chunsik_bot.Base.Members.{lookup}
use chunsik_bot.Governance.Task.{TaskRun, task_run_entity}
use chunsik_bot.Continuation.Evidence.Audit.{snapshot_containment_audit}
use chunsik_bot.Continuation.Evidence.Identical.{evidence_identical_sound}
use chunsik_bot.Continuation.Tables.{Tables, is_bound, is_started, upsert_run}
use chunsik_bot.Continuation.Runs.{
  containment_audit_metadata_key, metadata_members, extract_containment_audit, carries_evidence,
  closes_contained, check_bound, save,
}
use chunsik_bot.Continuation.Runs.Contained.{is_uncertain}
use chunsik_bot.Continuation.Ledger.{View, view, Moves, stays, closes}
use chunsik_bot.Continuation.Ledger.Writes.{
  Commits, Commits-Step, Commits-require, Commits-given, Commits-bind, Commits-begun,
  upsert_run-Step,
}

pub extract_absent :
    (p : Platform) (run : TaskRun)
    → lookup containment_audit_metadata_key (metadata_members run.metadata) ≡ none
    → extract_containment_audit p run ≡ none
unfolding extract_containment_audit
extract_absent p run e = rw (extract_containment_audit, e) refl

pub extract_stored :
    (p : Platform) (run : TaskRun) (raw : Json)
    → lookup containment_audit_metadata_key (metadata_members run.metadata) ≡ some raw
    → extract_containment_audit p run ≡ snapshot_containment_audit p raw run.id run.id
unfolding extract_containment_audit
extract_stored p run raw e = rw (extract_containment_audit, e) refl

extract-none :
    (p : Platform) (run : TaskRun)
    → carries_evidence run ≡ false
    → extract_containment_audit p run ≡ none
unfolding carries_evidence
extract-none p run h = extract_absent p run (absent _ h)
  where
    absent : (o : Option Json) → is_some o ≡ false → o ≡ none
    absent none e = refl
    absent (some v) e = cc

-- Nothing is opened again, evidence is kept, and an uncertain end is not closed.
pub keeps-Moves :
    (v w : View)
    → not (w.is_open && not v.is_open) ≡ true
    → w.evidence ≡ v.evidence
    → (v.is_open ≡ true → w.is_open ≡ false → is_uncertain v.evidence ≡ false)
    → Moves v w
keeps-Moves v w shut same certain = helper (Bool-cases v.is_open) (Bool-cases w.is_open)
  where
    helper :
        (v.is_open ≡ true) ⊎ (v.is_open ≡ false)
        → (w.is_open ≡ true) ⊎ (w.is_open ≡ false)
        → Moves v w
    helper (inl a) (inl b) = stays (b ∙ sym a) same
    helper (inl a) (inr b) = closes a b same (certain a b)
    helper (inr a) (inr b) = stays (b ∙ sym a) same
    helper (inr a) (inl b) = absurd (false_not_true (rw (a, b) refl) shut)

check_bound-Moves :
    (p : Platform) (old run : TaskRun)
    → check_bound p (some old) run ≡ ok tt
    → closes_contained (some old) run ≡ false
    → Moves (view p old) (view p run)
unfolding check_bound closes_contained is_uncertain
check_bound-Moves p old run checked allowed =
    let (shut, rest) =
      require-eq-ok (not (is_started run.status && not (is_started old.status))) _ _ checked in
    keeps-Moves (view p old) (view p run) shut
      (sym (evidence_identical_sound _ _ (require_last-eq-ok _ _ rest)))
      (λ opened closed. ap is_uncertain (
        extract-none p old (
          uncontained (is_started old.status) opened (is_started run.status) closed
            (carries_evidence old) allowed)))
  where
    uncontained :
        (a : Bool)
        → a ≡ true
        → (b : Bool) → b ≡ false
        → (c : Bool) → (a && not b && c) ≡ false
        → c ≡ false
    uncontained a ha b hb c h = ground arith

check_bound-novel :
    (p : Platform) (run : TaskRun) {u : Unit {0}} → check_bound p none run ≡ ok u → ⊥
unfolding check_bound
check_bound-novel p run e = cc

bound_checked :
    {E : Type 0} (b : Bool) (m : Result E (Unit {0}))
    → (if b then m else ok tt) ≡ ok tt
    → b ≡ true
    → m ≡ ok tt
bound_checked true m e h = e
bound_checked false m e h = absurd (false_not_true refl h)

module _ (p : Platform) (db : Tables) (lock : Option String) (run : TaskRun) where
  pub save-Step : Commits p db (save p lock run db)
  unfolding save
  save-Step = Commits-begun p db lock _ (
      Commits-require p db _ _ _ λ allowed. Commits-given p db _ _ λ checked.
        Commits-bind p db (upsert_run run db.runs) _ λ rows e. Commits-Step p db _ _ (
          upsert_run-Step p db run e
            (λ absent. elim (Bool-cases (is_bound run.task_id db.bindings)) [
              | inl bound ↦ absurd (
                  check_bound-novel p run (
                    subst (λ found. check_bound p found run ≡ ok tt) absent
                      (bound_checked _ _ checked bound)))
              | inr unbound ↦ unbound
            ])
            (λ old found start bound.
              check_bound-Moves p old run
                (subst (λ found. check_bound p found run ≡ ok tt) found
                  (bound_checked _ _ checked bound))
                (subst (λ found. closes_contained found run ≡ false) found
                  (not-eq-true _ allowed)))))
