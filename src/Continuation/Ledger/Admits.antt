-- ===== src/Continuation/Ledger/Admits.antt =====
-- storage-sqlite/src/index.ts (under packages/): guardedStart where it returns, back through its guards.
use chunsik_bot.Base.{
  ◌+◌, leb, leb→le, String, ◌≡◌, ◌≢◌, sym, ap, ◌∙◌, subst, Bool, true, not, ◌&&◌, Option, [], ◌∷◌,
  ◌++◌, ◌==◌, string_eq, nat_eq, option_eq, not-eq-true, beq_refl, arith,
}
use chunsik_bot.Base.Result.{Result, ok, err}
use chunsik_bot.Base.Guards.{require-eq-ok, bind-eq-ok, then-eq-ok}
use chunsik_bot.Domain.{EntityId, IsoTimestamp, Capability, task_status_eq, capability_eq}
use chunsik_bot.Governance.Task.{TaskRun, task_run_entity, task_entity}
use chunsik_bot.Continuation.Documents.{work_handoff_entity, work_item_entity}
use chunsik_bot.Continuation.Tables.{
  Tables, Answer, begin_immediate, no_contention, has_identity, insert_run, greatest_attempt,
}
use chunsik_bot.Continuation.Runs.{
  GuardedTaskRunStartFacts, started_run, insert_started, guarded_start, with_runs,
}
use chunsik_bot.Continuation.Ledger.Starting.{IsStartable}
use chunsik_bot.Continuation.Ledger.Writes.{Inserts, insert_run-eq-ok}

no_contention-eq-ok :
    {A : Type 0} (m : Answer A) {a : A × Tables} → no_contention m ≡ ok a → m ≡ ok a
unfolding no_contention
no_contention-eq-ok (ok b) e = e
no_contention-eq-ok (err b) e = cc

ok_value :
    {E : Type 0} {a b : TaskRun × Tables}
    → ◌≡◌ {A = Result E (TaskRun × Tables)} (ok a) (ok b)
    → a ≡ b
ok_value h = cc

identity-parts : (run : TaskRun) → has_identity run ≡ true → (run.id ≢ "") × (run.task_id ≢ "")
unfolding has_identity
identity-parts run e = (
  λ p. named run.id run.task_id _ _ (ap (λ i. i == "") p ∙ beq_refl {A = String} "") e,
  λ p. tasked run.id run.task_id _ _ (ap (λ i. i == "") p ∙ beq_refl {A = String} "") e,
)
  where
    named :
        (a b : String) (c d : Bool)
        → (a == "") ≡ true
        → (not (a == "") && not (b == "") && c && d) ≡ true
        → ⊥
    named a b c d h e = ground arith

    tasked :
        (a b : String) (c d : Bool)
        → (b == "") ≡ true
        → (not (a == "") && not (b == "") && c && d) ≡ true
        → ⊥
    tasked a b c d h e = ground arith

module _ (facts : GuardedTaskRunStartFacts) (capability : Capability) (new_id : EntityId)
    (now : IsoTimestamp) (db : Tables) where
  abbrev new_run : TaskRun
  new_run = started_run facts.task.id capability new_id now db.runs

  record IsInserted (run : TaskRun) (after : Tables) : Type 0 where
    countable : leb (greatest_attempt facts.task.id db.runs + 1) 9007199254740991 ≡ true
    inserts : Inserts new_run db.runs (db.runs ++ (new_run ∷ []))
    answered : run ≡ new_run
    stored : after ≡ with_runs db (db.runs ++ (new_run ∷ []))

  insert_started-eq-ok :
      {run : TaskRun} {after : Tables}
      → insert_started facts.task.id capability new_id now db ≡ ok (run, after)
      → IsInserted run after
  unfolding insert_started
  insert_started-eq-ok e =
      let (countable, e1) =
        require-eq-ok (leb (greatest_attempt facts.task.id db.runs + 1) 9007199254740991) _ _ e in
      let (rows, inserted, done) = bind-eq-ok (insert_run new_run db.runs) _ e1 in
      let i = insert_run-eq-ok new_run db.runs inserted in
      record {
        countable = countable;
        inserts = subst (Inserts new_run db.runs) i.result i;
        answered = sym (ap (λ (o : TaskRun × Tables). o.0) (ok_value done));
        stored =
            sym (ap (λ (o : TaskRun × Tables). o.1) (ok_value done)) ∙ ap (with_runs db) i.result;
      }

  -- A guarded start that returns has passed every guard: the handoff, the work item and the task are
  -- stored as the caller has them, the stored binding is theirs, the task may run, where an approval is
  -- required it is stored as approved for this plan, no run of the task was STARTED, and id and ordinal
  -- of the new run were free. What it returns is the new run, and this is all that it has stored.
  pub guarded_start-IsStartable :
      (lock : Option String) (run : TaskRun) (after : Tables)
      → guarded_start lock facts capability new_id now db ≡ ok (run, after)
      → IsStartable facts capability new_id db
        × (run ≡ new_run)
        × (after ≡ with_runs db (db.runs ++ (new_run ∷ [])))
  unfolding guarded_start
  guarded_start-IsStartable lock run after e =
      let (_, e0) = then-eq-ok (begin_immediate lock) _ (no_contention-eq-ok _ e) in
      let (handoff, e1) = require-eq-ok _ _ _ e0 in
      let (work_item, e2) = require-eq-ok _ _ _ e1 in
      let (task, e3) = require-eq-ok _ _ _ e2 in
      let (binding, e4) = require-eq-ok _ _ _ e3 in
      let (continuable, e5) = require-eq-ok _ _ _ e4 in
      let (executable, e6) = require-eq-ok _ _ _ e5 in
      let (planned, e7) = require-eq-ok _ _ _ e6 in
      let (granted, e8) = require-eq-ok _ _ _ e7 in
      let (resolved, e9) = require-eq-ok _ _ _ e8 in
      let i = insert_started-eq-ok e9 in
      let (named, tasked) = identity-parts new_run i.inserts.identity in
      (
        record {
          handoff = handoff;
          work_item = work_item;
          task = task;
          binding = binding;
          continuable = continuable;
          executable = executable;
          planned = planned;
          granted = granted;
          resolved = not-eq-true _ resolved;
          named = named;
          tasked = tasked;
          unused = i.inserts.fresh;
          countable = leb→le _ _ i.countable;
        },
        i.answered,
        i.stored,
      )
