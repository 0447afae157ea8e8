-- ===== src/Continuation/Ledger/Starts.antt =====
-- storage-sqlite/src/index.ts, continuation-binding-repository.ts (under packages/): the methods that
-- start and delete runs and that bind a handoff, as steps of the ledger.
use chunsik_bot.Base.{
  String, ◌≡◌, refl, sym, ◌∙◌, subst, true, false, not, Option, none, some, List, [], ◌∷◌, ◌==◌,
  string_eq, filter, is_empty, ◌&&◌, not-eq-true, false_not_true, some-injective,
}
use chunsik_bot.Base.Platform.{Platform}
use chunsik_bot.Base.Result.{ok}
use chunsik_bot.Base.Guards.{◌>>◌, require}
use chunsik_bot.Domain.{EntityId, IsoTimestamp, Capability}
use chunsik_bot.Storage
use chunsik_bot.Governance.Task.{Task, TaskRun, task_run_entity}
use chunsik_bot.Continuation.Documents.{ContinuationBinding, WorkHandoff}
use chunsik_bot.Continuation.Tables.{Tables, GuardCode, guarded, is_bound, insert_run}
use chunsik_bot.Continuation.Runs.{
  GuardedTaskRunStartFacts, has_unresolved, insert_started, start, guarded_start, with_runs,
}
use chunsik_bot.Continuation.Runs.Contained.{delete_run}
use chunsik_bot.Continuation.Admission.{Admission, conflict, touches, admit_new, admit}
use chunsik_bot.Continuation.Ledger.{admitted, deleted}
use chunsik_bot.Continuation.Ledger.Writes.{
  Commits, Commits-same, Commits-Step, Commits-require, Commits-bind, Commits-then, Commits-begun,
  insert_run-Step,
}

module _ (p : Platform) (db : Tables) where
  insert_started-Step :
      (task_id : EntityId) (capability : Capability) (new_id : EntityId) (now : IsoTimestamp)
      → (is_bound task_id db.bindings ≡ true → has_unresolved task_id db.runs ≡ false)
      → Commits p db (insert_started task_id capability new_id now db)
  unfolding insert_started
  insert_started-Step task_id capability new_id now h = Commits-require p db _ _ _ λ safe.
      Commits-bind p db (insert_run _ db.runs) _
        λ rows e. Commits-Step p db _ _ (insert_run-Step p db _ e h)

  pub start-Step :
      (lock : Option String) (task : Task) (capability : Capability) (new_id : EntityId)
      (now : IsoTimestamp)
      → Commits p db (start lock task capability new_id now db)
  unfolding start
  start-Step lock task capability new_id now = Commits-begun p db lock _ (
      Commits-require p db _ _ _ λ unbound. Commits-require p db _ _ _ λ current.
        insert_started-Step task.id capability new_id now
          (λ bound. absurd (false_not_true (not-eq-true _ unbound) bound)))

  pub guarded_start-Step :
      (lock : Option String) (facts : GuardedTaskRunStartFacts) (capability : Capability)
      (new_id : EntityId) (now : IsoTimestamp)
      → Commits p db (guarded_start lock facts capability new_id now db)
  unfolding guarded_start
  guarded_start-Step lock facts capability new_id now = Commits-begun p db lock _ (
      Commits-require p db _ _ _ λ handoff. Commits-require p db _ _ _ λ item.
        Commits-require p db _ _ _ λ task. Commits-require p db _ _ _ λ binds.
          Commits-require p db _ _ _ λ active. Commits-require p db _ _ _ λ executable.
            Commits-require p db _ _ _ λ plan. Commits-require p db _ _ _ λ granted.
              Commits-require p db _ _ _ λ resolved.
                insert_started-Step facts.task.id capability new_id now
                  (λ _. not-eq-true _ resolved))

  pub delete_run-Step :
      (lock : Option String) (id : EntityId) → Commits p db (delete_run lock id db)
  unfolding delete_run
  delete_run-Step lock id = Commits-begun p db lock _ (helper (Storage.get id db.runs) refl)
    where
      helper :
          (found : Option TaskRun)
          → Storage.get id db.runs ≡ found
          → Commits p db (elim found [
            | none ↦ ok (tt, db)
            | some run ↦
                require
                  (not (is_bound run.task_id db.bindings))
                  (guarded GuardCode.continuation_run_delete_forbidden)
                >> ok (tt, with_runs db (Storage.delete id db.runs))
          ])
      helper none e = Commits-same p db _ _
      helper (some run) e = Commits-require p db _ _ _ λ unbound. Commits-Step p db _ _ (
          deleted id refl refl (λ other found.
            subst (λ r. is_bound r.task_id db.bindings ≡ false) (some-injective (sym e ∙ found))
              (not-eq-true _ unbound)))

  admit_new-Step :
      (handoff : WorkHandoff) (task : Task) (now : IsoTimestamp)
      → Commits p db (admit_new handoff task now db)
  unfolding admit_new
  admit_new-Step handoff task now =
      Commits-require p db _ _ _
        λ unused. Commits-Step p db _ _ (admitted _ refl refl (not-eq-true _ unused))

  pub admit-Step :
      (lock : Option String) (expected : Admission) (now : IsoTimestamp)
      → Commits p db (admit lock expected now db)
  unfolding admit
  admit-Step lock expected now = Commits-then p db _ _ (
      Commits-require p db _ _ _ λ handoff. Commits-require p db _ _ _ λ item.
        Commits-require p db _ _ _ λ task.
          Commits-require p db _ _ _
            λ consistent. helper (filter (touches expected.handoff expected.task) db.bindings))
    where
      helper :
          (existing : List ContinuationBinding)
          → Commits p db (elim existing [
            | [] ↦ admit_new expected.handoff expected.task now db
            | row ∷ rows ↦
                require
                  (is_empty rows
                    && row.handoff_id == expected.handoff.id
                    && row.task_id == expected.task.id)
                  conflict
                >> ok (row, db)
          ])
      helper [] = admit_new-Step expected.handoff expected.task now
      helper (row ∷ rows) = Commits-require p db _ _ _ λ same. Commits-same p db _ _
