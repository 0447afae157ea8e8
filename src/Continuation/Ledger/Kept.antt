-- ===== src/Continuation/Ledger/Kept.antt =====
-- storage-sqlite/src/index.ts (under packages/): the evidence and the status of the run of a bound task
-- after any calls.
use chunsik_bot.Base.{
  ◌≡◌, refl, sym, ap, ◌∙◌, true, Option, some, List, false_not_true, some-injective, none_not_some,
}
use chunsik_bot.Base.Platform.{Platform}
use chunsik_bot.Domain.{EntityId}
use chunsik_bot.Storage
use chunsik_bot.Governance.Task.{TaskRun, task_run_entity}
use chunsik_bot.Continuation.Evidence.{ContainmentAudit, PostAttempt}
use chunsik_bot.Continuation.Tables.{Tables, is_started}
use chunsik_bot.Continuation.Runs.{extract_containment_audit}
use chunsik_bot.Continuation.Runs.Contained.{is_uncertain}
use chunsik_bot.Continuation.Calls.{Call, perform_all}
use chunsik_bot.Continuation.Ledger.{View, Moves, stays, binds, observes, closes}
use chunsik_bot.Continuation.Ledger.Refined.{IsHeld, Reaches, here, next, perform_all-HasReached}

-- An open run with this evidence.
abbrev IsOpenWith : Option ContainmentAudit → View → Type 0
IsOpenWith evidence v = (v.is_open ≡ true) × (v.evidence ≡ evidence)

Moves-uncertain :
    (evidence : Option ContainmentAudit) (v w : View)
    → is_uncertain evidence ≡ true
    → Moves v w
    → IsOpenWith evidence v
    → IsOpenWith evidence w
unfolding is_uncertain
Moves-uncertain evidence v w u (stays same_open same) (opened, is) = (same_open ∙ opened, same ∙ is)
Moves-uncertain evidence v w u (binds b _ _ bare _) (opened, is) =
    absurd (false_not_true (ap is_uncertain (sym is ∙ bare)) u)
Moves-uncertain evidence v w u (observes b q _ _ unseen _) (opened, is) =
    absurd (false_not_true (ap is_uncertain (sym is ∙ unseen)) u)
Moves-uncertain evidence v w u (closes _ _ _ certain) (opened, is) =
    absurd (false_not_true (ap is_uncertain (sym is) ∙ certain) u)

Reaches-uncertain :
    (evidence : Option ContainmentAudit) (v w : View)
    → is_uncertain evidence ≡ true
    → Reaches v w
    → IsOpenWith evidence v
    → IsOpenWith evidence w
Reaches-uncertain evidence v w u (here _) h = h
Reaches-uncertain evidence v w u (next _ m _ moves rest) h =
    Reaches-uncertain evidence m w u rest (Moves-uncertain evidence v m u moves h)

-- The later evidence has the same binding, and the observation of the earlier if there was one.
pub record Extends (earlier later : ContainmentAudit) : Type 0 where
  pub same_binding : later.binding ≡ earlier.binding
  pub same_attempt : (q : PostAttempt) → earlier.post_attempt ≡ some q → later.post_attempt ≡ some q

abbrev pub HasExtended : ContainmentAudit → Option ContainmentAudit → Type 0
HasExtended earlier evidence =
    (later : ContainmentAudit) × (evidence ≡ some later) × Extends earlier later

Moves-Extends :
    (earlier : ContainmentAudit) (v w : View)
    → Moves v w
    → HasExtended earlier v.evidence
    → HasExtended earlier w.evidence
Moves-Extends earlier v w (stays same_open same) (a, is, kept) = (a, same ∙ is, kept)
Moves-Extends earlier v w (closes _ _ same _) (a, is, kept) = (a, same ∙ is, kept)
Moves-Extends earlier v w (binds b _ _ bare _) (a, is, kept) =
    absurd (none_not_some (sym bare ∙ is))
Moves-Extends earlier v w (observes b q _ _ unseen seen) (a, is, kept) = (
  _,
  seen,
  record {
    same_binding =
        ap (λ (x : ContainmentAudit). x.binding) (some-injective (sym unseen ∙ is))
        ∙ kept.same_binding;
    same_attempt = λ r was. absurd (
        none_not_some (
          ap (λ (x : ContainmentAudit). x.post_attempt) (some-injective (sym unseen ∙ is))
          ∙ kept.same_attempt r was));
  },
)

Reaches-Extends :
    (earlier : ContainmentAudit) (v w : View)
    → Reaches v w
    → HasExtended earlier v.evidence
    → HasExtended earlier w.evidence
Reaches-Extends earlier v w (here _) h = h
Reaches-Extends earlier v w (next _ m _ moves rest) h =
    Reaches-Extends earlier m w rest (Moves-Extends earlier v m moves h)

module _ (p : Platform) (calls : List Call) (db : Tables) (id : EntityId) (run : TaskRun)
    (held : IsHeld id db run) where
  -- A STARTED run of a bound task, with an observation of a mismatch or of a failure in its evidence,
  -- is still STARTED with the same evidence after any calls: none makes it succeed, fail or vanish.
  pub perform_all-uncertain :
      is_started run.status ≡ true
      → is_uncertain (extract_containment_audit p run) ≡ true
      → (now : TaskRun) × (Storage.get id (perform_all p calls db).runs ≡ some now)
        × (is_started now.status ≡ true)
        × (extract_containment_audit p now ≡ extract_containment_audit p run)
  perform_all-uncertain opened uncertain =
      let r = perform_all-HasReached p calls db id run held in
      let (still, same) =
        Reaches-uncertain (extract_containment_audit p run) _ _ uncertain r.reached
          (opened, refl) in
      (r.now, r.held.found, still, same)

  -- The evidence of a run of a bound task is written once: after any calls the run is stored with the
  -- same binding, and with the same observation where one was recorded.
  pub perform_all-Extends :
      (audit : ContainmentAudit)
      → extract_containment_audit p run ≡ some audit
      → (now : TaskRun) × (Storage.get id (perform_all p calls db).runs ≡ some now)
        × HasExtended audit (extract_containment_audit p now)
  perform_all-Extends audit has =
      let r = perform_all-HasReached p calls db id run held in
      (
        r.now,
        r.held.found,
        Reaches-Extends audit _ _ r.reached
            (audit, has, record { same_binding = refl; same_attempt = λ q e. e }),
      )
