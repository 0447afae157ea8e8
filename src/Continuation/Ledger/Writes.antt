-- ===== src/Continuation/Ledger/Writes.antt =====
-- storage-sqlite/src/index.ts (under packages/): what a method commits where its guards pass, and the
-- writes of rows as steps of the ledger.
use chunsik_bot.Base.{
  String, ◌≡◌, refl, Bool, true, false, not, Option, none, some, List, [], ◌∷◌, ◌++◌, ◌==◌,
  string_eq, any, inl, inr, Option-cases, not-eq-true, false_not_true,
}
use chunsik_bot.Base.Platform.{Platform}
use chunsik_bot.Base.Result.{Result, ok, err}
use chunsik_bot.Base.Guards.{◌>>=◌, ◌>>◌, require, require-eq-ok}
use chunsik_bot.Storage
use chunsik_bot.Governance.Task.{TaskRun, task_run_entity}
use chunsik_bot.Continuation.Tables.{
  Tables, Answer, begin_immediate, no_contention, is_bound, has_identity, takes_attempt, same_start,
  insert_run, update_run, upsert_run,
}
use chunsik_bot.Continuation.Runs.{with_runs, has_unresolved}
use chunsik_bot.Continuation.Calls.{committed}
use chunsik_bot.Continuation.Ledger.{view, Moves, Step, others, inserted, updated}

module _ (p : Platform) (db : Tables) where
  -- What is committed is a step.
  abbrev pub Commits : {E A : Type 0} → Result E (A × Tables) → Type 0
  Commits m = Step p db (committed db m)

  pub Commits-err : {E : Type 0} (A : Type 0) (e : E) → Commits {E = E} {A = A} (err e)
  unfolding committed
  Commits-err A e = others refl refl

  pub Commits-same : {A : Type 0} (E : Type 0) (a : A) → Commits {E = E} (ok (a, db))
  unfolding committed
  Commits-same E a = others refl refl

  pub Commits-Step :
      {A : Type 0} (E : Type 0) (a : A) {after : Tables}
      → Step p db after
      → Commits {E = E} (ok (a, after))
  unfolding committed
  Commits-Step E a h = h

  pub Commits-require :
      {E A : Type 0} (test : Bool) (e : E) (k : Result E (A × Tables))
      → (test ≡ true → Commits k)
      → Commits (require test e >> k)
  unfolding ◌>>=◌ ◌>>◌ require
  Commits-require true e k h = h refl
  Commits-require {A} false e k h = Commits-err A e

  pub Commits-bind :
      {E A B : Type 0} (m : Result E A) (k : A → Result E (B × Tables))
      → ((a : A) → m ≡ ok a → Commits (k a))
      → Commits (m >>= k)
  unfolding ◌>>=◌
  Commits-bind (ok a) k h = h a refl
  Commits-bind {B} (err e) k h = Commits-err B e

  pub Commits-given :
      {E A : Type 0} (m : Result E (Unit {0})) (k : Result E (A × Tables))
      → (m ≡ ok tt → Commits k)
      → Commits (m >> k)
  unfolding ◌>>◌
  Commits-given m k h = Commits-bind m (λ _. k) (λ _ e. h e)

  pub Commits-then :
      {E A : Type 0} (m : Result E (Unit {0})) (k : Result E (A × Tables))
      → Commits k
      → Commits (m >> k)
  unfolding ◌>>◌
  Commits-then m k h = Commits-bind m (λ _. k) (λ _ _. h)

  pub Commits-no_contention : {A : Type 0} (m : Answer A) → Commits m → Commits (no_contention m)
  unfolding no_contention committed
  Commits-no_contention (ok answer) h = h
  Commits-no_contention (err e) h = others refl refl

  -- The beginning of each method.
  pub Commits-begun :
      {A : Type 0} (lock : Option String) (k : Answer A)
      → Commits k
      → Commits (no_contention (begin_immediate lock >> k))
  Commits-begun lock k h = Commits-no_contention _ (Commits-then (begin_immediate lock) k h)

pub record Inserts (run : TaskRun) (rows after : List TaskRun) : Type 0 where
  pub identity : has_identity run ≡ true
  pub fresh : any (λ other. other.id == run.id) rows ≡ false
  pub free : any (takes_attempt run) rows ≡ false
  pub result : after ≡ rows ++ (run ∷ [])

pub insert_run-eq-ok :
    (run : TaskRun) (rows : List TaskRun) {after : List TaskRun}
    → insert_run run rows ≡ ok after
    → Inserts run rows after
unfolding insert_run
insert_run-eq-ok run rows e =
    let (identity, e1) = require-eq-ok (has_identity run) _ _ e in
    let (fresh, e2) = require-eq-ok (not (any (λ other. other.id == run.id) rows)) _ _ e1 in
    let (free, e3) = require-eq-ok (not (any (takes_attempt run) rows)) _ _ e2 in
    record {
      identity = identity;
      fresh = not-eq-true _ fresh;
      free = not-eq-true _ free;
      result = cc e3;
    }

update_run-eq-ok :
    (old run : TaskRun) (rows : List TaskRun) {after : List TaskRun}
    → update_run old run rows ≡ ok after
    → (has_identity run ≡ true) × (same_start old run ≡ true) × (after ≡ Storage.save run rows)
unfolding update_run
update_run-eq-ok old run rows e =
    let (identity, e1) = require-eq-ok (has_identity run) _ _ e in
    let (start, e2) = require-eq-ok (same_start old run) _ _ e1 in (identity, start, cc e2)

module _ (p : Platform) (db : Tables) (run : TaskRun) {rows : List TaskRun} where
  pub insert_run-Step :
      insert_run run db.runs ≡ ok rows
      → (is_bound run.task_id db.bindings ≡ true → has_unresolved run.task_id db.runs ≡ false)
      → Step p db (with_runs db rows)
  insert_run-Step e h =
      let i = insert_run-eq-ok run db.runs e in
      inserted run refl i.result i.identity i.fresh i.free h

  pub upsert_run-Step :
      upsert_run run db.runs ≡ ok rows
      → (Storage.get run.id db.runs ≡ none → is_bound run.task_id db.bindings ≡ false)
      → ((old : TaskRun)
          → Storage.get run.id db.runs ≡ some old
          → same_start old run ≡ true
          → is_bound run.task_id db.bindings ≡ true
          → Moves (view p old) (view p run))
      → Step p db (with_runs db rows)
  unfolding upsert_run
  upsert_run-Step e novel known = elim (Option-cases (Storage.get run.id db.runs)) [
    | inl absent ↦
        insert_run-Step (rw (upsert_run, absent) at e)
          (λ bound. absurd (false_not_true (novel absent) bound))
    | inr (old, found) ↦
        let (identity, start, result) =
          update_run-eq-ok old run db.runs (rw (upsert_run, found) at e) in
        updated old run refl found result identity start (known old found start)
  ]
