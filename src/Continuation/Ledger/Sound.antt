-- ===== src/Continuation/Ledger/Sound.antt =====
-- storage-sqlite/src/index.ts, migrations.ts (under packages/): the invariant of the stored runs.
use chunsik_bot.Base.{
  ◌≡◌, ◌≢◌, refl, sym, ap, ◌∙◌, subst, true, false, ◌&&◌, some, List, [], ◌∷◌, ◌++◌, All, any, ◌==◌,
  string_eq, nat_eq, eq_of_beq, beq_refl, false_not_true, arith,
}
use chunsik_bot.Base.Platform.{Platform}
use chunsik_bot.Base.Pairs.{
  Pairwise, Pairwise-append, Pairwise-filter, Pairwise-map, All-append, All-filter, All-zip,
  any-false,
}
use chunsik_bot.Domain.{EntityId}
use chunsik_bot.Storage
use chunsik_bot.Storage.Laws.{get-id, All-save, Pairwise-save}
use chunsik_bot.Governance.Task.{TaskRun, task_run_entity}
use chunsik_bot.Continuation.Documents.{ContinuationBinding}
use chunsik_bot.Continuation.Tables.{
  Tables, is_bound, is_started, has_identity, takes_attempt, same_start,
}
use chunsik_bot.Continuation.Runs.{has_unresolved}
use chunsik_bot.Continuation.Calls.{Call, perform, perform_all}
use chunsik_bot.Continuation.Ledger.{
  View, view, Moves, stays, binds, observes, closes, Step, others, admitted, inserted, updated,
  deleted,
}
use chunsik_bot.Continuation.Ledger.Refined.{perform-Step}

-- Two runs have different ids, differ in their attempts if they are of one task, and are not both
-- STARTED if the task is bound.
pub record Apart (bindings : List ContinuationBinding) (r s : TaskRun) : Type 0 where
  pub ids : r.id ≢ s.id
  pub attempts : r.task_id ≡ s.task_id → r.attempt ≢ s.attempt
  pub unresolved :
      r.task_id ≡ s.task_id
      → is_bound r.task_id bindings ≡ true
      → is_started r.status ≡ true
      → is_started s.status ≡ true
      → ⊥

abbrev pub HasIdentity : TaskRun → Type 0
HasIdentity run = has_identity run ≡ true

pub record IsSound (bindings : List ContinuationBinding) (runs : List TaskRun) : Type 0 where
  pub identities : All HasIdentity runs
  pub apart : Pairwise (Apart bindings) runs

Apart-sym :
    (bindings : List ContinuationBinding) (r s : TaskRun) → Apart bindings r s → Apart bindings s r
Apart-sym bindings r s a = record {
  ids = λ e. a.ids (sym e);
  attempts = λ t e. a.attempts (sym t) (sym e);
  unresolved = λ t bound s_open r_open.
      a.unresolved (sym t) (subst (λ i. is_bound i bindings ≡ true) t bound) r_open s_open;
}

-- A row that takes the place of another, as that started, and that is not opened again.
Apart-replaced :
    (bindings : List ContinuationBinding) (old run s : TaskRun)
    → (is_bound run.task_id bindings ≡ true
        → is_started run.status ≡ true
        → is_started old.status ≡ true)
    → run.id ≡ old.id
    → run.task_id ≡ old.task_id
    → run.attempt ≡ old.attempt
    → Apart bindings old s
    → Apart bindings run s
Apart-replaced bindings old run s r same_id same_task same_attempt a = record {
  ids = λ e. a.ids (sym same_id ∙ e);
  attempts = λ t e. a.attempts (sym same_task ∙ t) (sym same_attempt ∙ e);
  unresolved = λ t bound run_open s_open.
      a.unresolved (sym same_task ∙ t) (subst (λ i. is_bound i bindings ≡ true) same_task bound)
        (r bound run_open) s_open;
}

Moves-opened : (v w : View) → Moves v w → w.is_open ≡ true → v.is_open ≡ true
Moves-opened v w (stays same _) h = sym same ∙ h
Moves-opened v w (binds _ opened _ _ _) h = opened
Moves-opened v w (observes _ _ opened _ _ _) h = opened
Moves-opened v w (closes opened _ _ _) h = opened

same_start-parts :
    (old run : TaskRun)
    → same_start old run ≡ true
    → (run.task_id ≡ old.task_id) × (run.attempt ≡ old.attempt)
unfolding same_start
same_start-parts old run e =
    ground (arith, eq_of_beq run.task_id old.task_id, eq_of_beq run.attempt old.attempt)

bound_before :
    (task_id : EntityId) (bindings : List ContinuationBinding) (b : ContinuationBinding)
    → (task_id == b.task_id) ≡ false
    → is_bound task_id (bindings ++ (b ∷ [])) ≡ true
    → is_bound task_id bindings ≡ true
unfolding is_bound
bound_before task_id [] b n h = ground (arith, eq_of_beq b.task_id task_id, beq_refl task_id)
bound_before task_id (c ∷ bindings) b n h = ground (arith, bound_before task_id bindings b)

module _ (p : Platform) (db after : Tables) (sound : IsSound db.bindings db.runs) where
  in_place :
      {bindings : List ContinuationBinding} {runs : List TaskRun}
      → after.bindings ≡ bindings
      → after.runs ≡ runs
      → IsSound bindings runs
      → IsSound after.bindings after.runs
  in_place {bindings} b r h =
      subst (λ bs. IsSound bs after.runs) (sym b) (subst (λ rs. IsSound bindings rs) (sym r) h)

  admitted-IsSound :
      (b : ContinuationBinding)
      → any (λ run. run.task_id == b.task_id) db.runs ≡ false
      → IsSound (db.bindings ++ (b ∷ [])) db.runs
  admitted-IsSound b unused = record {
    identities = sound.identities;
    apart =
        Pairwise-map (Apart db.bindings) (Apart (db.bindings ++ (b ∷ [])))
          (λ r. Unit → (r.task_id == b.task_id) ≡ false) db.runs
          (λ r s other a. record {
            ids = a.ids;
            attempts = a.attempts;
            unresolved =
                λ t bound. a.unresolved t (bound_before r.task_id db.bindings b (other tt) bound);
          })
          (any-false (λ r. r.task_id == b.task_id) db.runs (λ _. unused)) sound.apart;
  }

  inserted-IsSound :
      (run : TaskRun)
      → has_identity run ≡ true
      → any (λ other. other.id == run.id) db.runs ≡ false
      → any (takes_attempt run) db.runs ≡ false
      → (is_bound run.task_id db.bindings ≡ true → has_unresolved run.task_id db.runs ≡ false)
      → IsSound db.bindings (db.runs ++ (run ∷ []))
  unfolding has_unresolved takes_attempt
  inserted-IsSound run identity fresh free resolved = record {
    identities = All-append HasIdentity db.runs run sound.identities identity;
    apart = Pairwise-append (Apart db.bindings) db.runs run sound.apart (
        All-zip Fresh Resolved (λ r. Apart db.bindings r run) db.runs
          (λ r n u. record {
            ids = λ e. false_not_true (n tt).0 (ap (λ i. i == run.id) e ∙ beq_refl run.id);
            attempts = λ t e.
                false_not_true (n tt).1
                  (rw (t, e, beq_refl run.task_id, beq_refl run.attempt) refl);
            unresolved = λ t bound r_open run_open.
                false_not_true (u (subst (λ i. is_bound i db.bindings ≡ true) t bound))
                  (rw (t, beq_refl run.task_id, r_open) refl);
          })
          (All-zip NewId NewAttempt Fresh db.runs (λ r i a u. (i u, a u))
            (any-false (λ r. r.id == run.id) db.runs (λ _. fresh))
            (any-false (takes_attempt run) db.runs (λ _. free)))
          (any-false (λ r. r.task_id == run.task_id && is_started r.status) db.runs resolved));
  }
    where
      NewId : TaskRun → Type 0
      NewId r = Unit → (r.id == run.id) ≡ false

      NewAttempt : TaskRun → Type 0
      NewAttempt r = Unit → (r.task_id == run.task_id && r.attempt == run.attempt) ≡ false

      Fresh : TaskRun → Type 0
      Fresh r =
          Unit
          → ((r.id == run.id) ≡ false)
            × ((r.task_id == run.task_id && r.attempt == run.attempt) ≡ false)

      Resolved : TaskRun → Type 0
      Resolved r =
          is_bound run.task_id db.bindings ≡ true
          → (r.task_id == run.task_id && is_started r.status) ≡ false

  updated-IsSound :
      (old run : TaskRun)
      → Storage.get run.id db.runs ≡ some old
      → has_identity run ≡ true
      → same_start old run ≡ true
      → (is_bound run.task_id db.bindings ≡ true → Moves (view p old) (view p run))
      → IsSound db.bindings (Storage.save run db.runs)
  updated-IsSound old run found identity start moves =
      let (same_task, same_attempt) = same_start-parts old run start in
      record {
        identities = All-save HasIdentity run old db.runs found (λ _. identity) sound.identities;
        apart =
            Pairwise-save (Apart db.bindings) run old db.runs found
              (λ s a. Apart-sym _ _ _ (replaced same_task same_attempt s (Apart-sym _ _ _ a)))
              (replaced same_task same_attempt) sound.apart;
      }
    where
      replaced :
          run.task_id ≡ old.task_id
          → run.attempt ≡ old.attempt
          → (s : TaskRun) → Apart db.bindings old s
          → Apart db.bindings run s
      replaced same_task same_attempt s =
          Apart-replaced db.bindings old run s
            (λ bound. Moves-opened (view p old) (view p run) (moves bound))
            (sym (get-id run.id db.runs found)) same_task same_attempt

  pub Step-IsSound : Step p db after → IsSound after.bindings after.runs
  unfolding Storage.delete
  Step-IsSound (others runs bindings) = in_place bindings runs sound
  Step-IsSound (admitted b runs bindings unused) =
      in_place bindings runs (admitted-IsSound b unused)
  Step-IsSound (inserted run bindings runs identity fresh free resolved) =
      in_place bindings runs (inserted-IsSound run identity fresh free resolved)
  Step-IsSound (updated old run bindings found runs identity start moves) =
      in_place bindings runs (updated-IsSound old run found identity start moves)
  Step-IsSound (deleted id bindings runs unbound) = in_place bindings runs (record {
    identities = All-filter HasIdentity _ db.runs sound.identities;
    apart = Pairwise-filter (Apart db.bindings) _ db.runs sound.apart;
  })

-- Sound tables, such as those without runs, stay sound whatever calls follow: each run has an id, a
-- task and an attempt from 1 to 2^53 - 1, no two have the same id, no two of one task the same attempt,
-- and of a bound task no two are STARTED.
pub perform_all-IsSound :
    (p : Platform) (calls : List Call) (db : Tables)
    → IsSound db.bindings db.runs
    → IsSound (perform_all p calls db).bindings (perform_all p calls db).runs
unfolding perform_all
perform_all-IsSound p [] db sound = sound
perform_all-IsSound p (call ∷ calls) db sound =
    perform_all-IsSound p calls (perform p call db)
      (Step-IsSound p db (perform p call db) sound (perform-Step p call db))
