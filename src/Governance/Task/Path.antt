-- ===== src/Governance/Task/Path.antt =====
-- task-manager.ts: the statuses that a task goes through, as its owner drives it.
use chunsik_bot.Base.{
  String, ◌≡◌, refl, sym, ap, ◌∙◌, ◌≢◌, ◌⊎◌, inl, inr, Bool, true, false, some, List, [], ◌∷◌,
  arith, In, contains, contains_iff, false_not_true, Bool-cases,
}
use chunsik_bot.Base.Result.{Result, ok, err, ◌>>=◌, require, bind-eq-ok, require-eq-ok}
use chunsik_bot.Base.Json.{◌⊕◌}
use chunsik_bot.Domain.Names.{task_status_name}
use chunsik_bot.Domain.{task_status_eq, EntityId, IsoTimestamp, TaskStatus, TaskStatus-discrete}
use chunsik_bot.Storage.{get, save}
use chunsik_bot.Storage.Laws.{get-save_same, get-save_other}
use chunsik_bot.Governance.Task.{
  Task, task_entity, transitions, can_transition, with_status, change_status,
}

-- One transition after another, each of the task that the one before it answered.
unfoldable pub drive :
    Task → List (TaskStatus × IsoTimestamp) → List Task → Result String (Task × List Task)
drive task [] table = ok (task, table)
drive task ((to, ts) ∷ steps) table = do
  (next, saved) ← change_status task to ts table
  drive next steps saved

-- The statuses from which a task has not run since it was last planned.
before_running : TaskStatus → Bool
before_running TaskStatus.pending = true
before_running TaskStatus.planning = true
before_running TaskStatus.waiting_approval = true
before_running TaskStatus.failed = true
before_running TaskStatus.canceled = true
before_running _ = false

change_status-step :
    (task : Task) (to : TaskStatus) (ts : IsoTimestamp) (table : List Task) (out : Task × List Task)
    → change_status task to ts table ≡ ok out
    → (can_transition task.status to ≡ true)
      × (out ≡ (with_status task to ts, save (with_status task to ts) table))
unfolding change_status
change_status-step task to ts table out e =
    let (u, allowed, done) = bind-eq-ok (require (can_transition task.status to) _) _ e in
    (require-eq-ok _ _ allowed, sym (ok_value done))
  where
    ok_value :
        {a : Task × List Task}
        → ◌≡◌ {A = Result String (Task × List Task)} (ok a) (ok out)
        → a ≡ out
    ok_value h = cc

abbrev pub statuses : List (TaskStatus × IsoTimestamp) → List TaskStatus
statuses [] = []
statuses ((to, ts) ∷ steps) = to ∷ statuses steps

running-entered :
    (from to : TaskStatus)
    → can_transition from to ≡ true
    → before_running from ≡ true
    → (to ≡ TaskStatus.running) ⊎ (before_running to ≡ true)
unfolding can_transition transitions before_running TaskStatus-discrete
running-entered from to e b = ground arith

stopped :
    {task final : Task} {table saved : List Task}
    → ◌≡◌ {A = Result String (Task × List Task)} (ok (task, table)) (ok (final, saved))
    → task.status ≡ final.status
stopped {task} e =
    ap
      (λ (r : Result String (Task × List Task)). elim r [ ok o ↦ o.0.status | err m ↦ task.status ])
      e

drive-runs :
    (steps : List (TaskStatus × IsoTimestamp)) (task : Task) (table : List Task) (final : Task)
    (saved : List Task)
    → drive task steps table ≡ ok (final, saved)
    → before_running task.status ≡ true
    → before_running final.status ≡ false
    → In TaskStatus.running (statuses steps)
unfolding drive
drive-runs [] task table final saved e b n =
    absurd (false_not_true n (sym (ap before_running (stopped e)) ∙ b))
drive-runs ((to, ts) ∷ steps) task table final saved e b n =
    let ((next, between), step, rest) = bind-eq-ok (change_status task to ts table) _ e in
    let (allowed, same) = change_status-step task to ts table (next, between) step in
    elim (running-entered task.status to allowed b) [
      | inl now ↦ inl (sym now)
      | inr not_yet ↦ inr (
          drive-runs steps next between final saved rest
            (ap (λ (o : Task × List Task). before_running o.0.status) same ∙ not_yet) n)
    ]

drive-canceled :
    (steps : List (TaskStatus × IsoTimestamp)) (task : Task) (table : List Task) (final : Task)
    (saved : List Task)
    → drive task steps table ≡ ok (final, saved)
    → task.status ≡ TaskStatus.canceled
    → final.status ≡ TaskStatus.canceled
unfolding drive can_transition transitions
drive-canceled [] task table final saved e c = sym (stopped e) ∙ c
drive-canceled ((to, ts) ∷ steps) task table final saved e c =
    let ((next, between), step, rest) = bind-eq-ok (change_status task to ts table) _ e in
    let (allowed, same) = change_status-step task to ts table (next, between) step in
    absurd (false_not_true refl (rw c at allowed))

after_pending :
    (s : TaskStatus)
    → can_transition TaskStatus.pending s ≡ true
    → (s ≡ TaskStatus.planning) ⊎ (s ≡ TaskStatus.canceled)
unfolding can_transition transitions TaskStatus-discrete
after_pending s h = ground arith

-- A pending task that is driven to completion, by transitions of which none was refused: the first led
-- to PLANNING, and a later one to RUNNING.
pub drive-completed :
    (steps : List (TaskStatus × IsoTimestamp)) (task : Task) (table : List Task) (final : Task)
    (saved : List Task)
    → task.status ≡ TaskStatus.pending
    → drive task steps table ≡ ok (final, saved)
    → final.status ≡ TaskStatus.completed
    → (rest : List TaskStatus) × (statuses steps ≡ TaskStatus.planning ∷ rest)
      × In TaskStatus.running rest
unfolding drive before_running
drive-completed [] task table final saved p e c = absurd (apart (sym p ∙ stopped e ∙ c))
  where
    apart : TaskStatus.pending ≡ TaskStatus.completed → ⊥
    apart h = cc
drive-completed ((to, ts) ∷ steps) task table final saved p e c =
    let ((next, between), step, rest) = bind-eq-ok (change_status task to ts table) _ e in
    let (allowed, same) = change_status-step task to ts table (next, between) step in
    let arrived : next.status ≡ to = ap (λ (o : Task × List Task). o.0.status) same in
    elim (after_pending to (rw p at allowed)) [
      | inl planned ↦ (
        statuses steps,
        ap (λ s. s ∷ statuses steps) planned,
        drive-runs steps next between final saved rest (rw (arrived, planned, before_running) refl)
            (rw (c, before_running) refl),
      )
      | inr given_up ↦ absurd (
          apart (sym (drive-canceled steps next between final saved rest (arrived ∙ given_up)) ∙ c))
    ]
  where
    apart : TaskStatus.canceled ≡ TaskStatus.completed → ⊥
    apart h = cc

-- An accepted transition, as the table and the caller have it afterwards.
pub record IsStored (task : Task) (to : TaskStatus) (ts : IsoTimestamp) (table : List Task)
    (out : Task × List Task) : Type 0 where
  pub allowed : In to (transitions task.status)
  pub task_after : out.0 ≡ with_status task to ts
  pub stored : get task.id out.1 ≡ some out.0
  pub others : (id : EntityId) → id ≢ task.id → get id out.1 ≡ get id table

-- A transition throws exactly when the table of transitions does not have it. Otherwise the task
-- answered is the one given but for its status and time, it is the one that is stored, and every
-- other task is stored as before.
pub change_status-IsStored :
    (task : Task) (to : TaskStatus) (ts : IsoTimestamp) (table : List Task)
    → ((message : String) × (change_status task to ts table ≡ err message)
        × (In to (transitions task.status) → ⊥))
      ⊎ ((out : Task × List Task) × (change_status task to ts table ≡ ok out)
          × IsStored task to ts table out)
unfolding change_status can_transition
change_status-IsStored task to ts table =
    elim (Bool-cases (contains (transitions task.status) to)) [
      | inl yes_edge ↦
          let next : Task = with_status task to ts in
          inr (
            (next, save next table),
            rw (yes_edge, change_status, can_transition) refl,
            record {
              allowed = (contains_iff (transitions task.status) to).0 yes_edge;
              task_after = refl;
              stored = get-save_same next table;
              others = λ id n. get-save_other next table id n;
            },
          )
      | inr no_edge ↦ inl (
        refusal,
        rw (no_edge, change_status, can_transition) refl,
        λ m. false_not_true no_edge ((contains_iff (transitions task.status) to).1 m),
      )
    ]
  where
    refusal : String
    refusal =
        "Illegal task transition: " ⊕ task_status_name task.status ⊕ " -> " ⊕ task_status_name to
