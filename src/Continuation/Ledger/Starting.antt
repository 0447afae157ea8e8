-- ===== src/Continuation/Ledger/Starting.antt =====
-- storage-sqlite/src/index.ts (under packages/): guardedStart where its guards pass, down to the triggers
-- and indexes of the row that is written.
use chunsik_bot.Base.{
  ℕ, ◌+◌, ◌≤◌, ◌<◌, In, ◌⊎◌, inl, inr, ap, le→leb, ◌≡◌, ◌≢◌, refl, true, false, not, ◌&&◌, none,
  some, List, [], ◌∷◌, ◌++◌, any, find, ◌==◌, string_eq, nat_eq, option_eq, eq_of_beq, arith,
}
use chunsik_bot.Base.Result.{ok}
use chunsik_bot.Base.Guards.{◌>>=◌, ◌>>◌, require}
use chunsik_bot.Domain.{
  EntityId, IsoTimestamp, Capability, TaskRunStatus, TaskStatus, task_status_eq, capability_eq,
}
use chunsik_bot.Storage
use chunsik_bot.Governance.Task.{TaskRun, task_run_entity, task_entity}
use chunsik_bot.Continuation.Tables.{
  Tables, begin_immediate, no_contention, has_identity, takes_attempt, insert_run, greatest_attempt,
}
use chunsik_bot.Continuation.Ledger.Ordinals.{
  below_greatest, greatest_attempt-reached, get-last, get-others, has_unresolved-last,
}
use chunsik_bot.Continuation.Documents.{
  work_handoff_entity, work_item_entity, work_handoff_json, work_item_json, task_json,
}
use chunsik_bot.Continuation.Runs.{
  GuardedTaskRunStartFacts, is_current, binds_as, is_active, plan_of, is_granted, has_unresolved,
  started_run, insert_started, guarded_start, with_runs,
}

attempt_free :
    (task_id : EntityId) (m : ℕ) (rows : List TaskRun)
    → greatest_attempt task_id rows ≤ m
    → any (λ other. other.task_id == task_id && other.attempt == m + 1) rows ≡ false
unfolding greatest_attempt
attempt_free task_id m [] h = refl
attempt_free task_id m (row ∷ rows) h =
    ground (arith, eq_of_beq row.attempt (m + 1), attempt_free task_id m rows)

-- The guards of `guardedStart`, and an id and an ordinal for the new run.
pub record IsStartable (facts : GuardedTaskRunStartFacts) (capability : Capability)
    (new_id : EntityId) (db : Tables) : Type 0 where
  pub handoff : is_current work_handoff_json db.work_handoffs facts.handoff ≡ true
  pub work_item : is_current work_item_json db.work_items facts.work_item ≡ true
  pub task : is_current task_json db.tasks facts.task ≡ true
  pub binding :
      binds_as facts.binding facts.handoff facts.task
        (find (λ b. b.handoff_id == facts.handoff.id) db.bindings)
      ≡ true
  pub continuable :
      (facts.handoff.work_item_id == facts.work_item.id && is_active facts.work_item.status) ≡ true
  pub executable :
      (facts.task.status == TaskStatus.running
        && not (facts.work_item.actor_id == "")
        && facts.task.actor_id == some facts.work_item.actor_id
        && facts.task.project_id == facts.work_item.project_id
        && capability == facts.task.intent.capability)
      ≡ true
  pub planned : (facts.task.plan_id == plan_of facts.approval) ≡ true
  pub granted : is_granted db.approvals facts.approval ≡ true
  pub resolved : has_unresolved facts.task.id db.runs ≡ false
  pub named : new_id ≢ ""
  pub tasked : facts.task.id ≢ ""
  pub unused : any (λ other. other.id == new_id) db.runs ≡ false
  pub countable : greatest_attempt facts.task.id db.runs + 1 ≤ 9007199254740991

insert_run-returns :
    (run : TaskRun) (rows : List TaskRun)
    → has_identity run ≡ true
    → any (λ other. other.id == run.id) rows ≡ false
    → any (takes_attempt run) rows ≡ false
    → insert_run run rows ≡ ok (rows ++ (run ∷ []))
unfolding insert_run ◌>>=◌ ◌>>◌ require
insert_run-returns run rows identity fresh free = rw (insert_run, identity, fresh, free) refl

module _ (task_id : EntityId) (capability : Capability) (new_id : EntityId) (now : IsoTimestamp)
    (db : Tables) where
  abbrev new_run : TaskRun
  new_run = started_run task_id capability new_id now db.runs

  started_run-identity :
      new_id ≢ ""
      → task_id ≢ ""
      → greatest_attempt task_id db.runs + 1 ≤ 9007199254740991
      → has_identity new_run ≡ true
  unfolding has_identity started_run
  started_run-identity named tasked countable = ground (
    arith,
    eq_of_beq new_id "",
    eq_of_beq task_id "",
    le→leb (greatest_attempt task_id db.runs + 1) 9007199254740991 countable,
  )

  started_run-free : any (takes_attempt new_run) db.runs ≡ false
  unfolding takes_attempt started_run
  started_run-free = attempt_free task_id (greatest_attempt task_id db.runs) db.runs (omega arith)

  insert_started-returns :
      new_id ≢ ""
      → task_id ≢ ""
      → any (λ other. other.id == new_id) db.runs ≡ false
      → greatest_attempt task_id db.runs + 1 ≤ 9007199254740991
      → insert_started task_id capability new_id now db
        ≡ ok (new_run, with_runs db (db.runs ++ (new_run ∷ [])))
  unfolding insert_started ◌>>=◌ ◌>>◌ require
  insert_started-returns named tasked unused countable =
      rw
        (
          insert_started,
          insert_run-returns new_run db.runs (started_run-identity named tasked countable) unused
              started_run-free,
          le→leb (greatest_attempt task_id db.runs + 1) 9007199254740991 countable,
        )
        refl

-- The run that is started, as the code builds it.
pub guarded_start-started :
    (facts : GuardedTaskRunStartFacts) (capability : Capability) (new_id : EntityId)
    (now : IsoTimestamp) (db : Tables)
    → IsStartable facts capability new_id db
    → guarded_start none facts capability new_id now db
      ≡ ok (
        started_run facts.task.id capability new_id now db.runs,
        with_runs db (db.runs ++ (started_run facts.task.id capability new_id now db.runs ∷ [])),
      )
unfolding guarded_start no_contention begin_immediate ◌>>=◌ ◌>>◌ require
guarded_start-started facts capability new_id now db s =
    rw
      (
        guarded_start,
        s.handoff,
        s.work_item,
        s.task,
        s.binding,
        s.continuable,
        s.executable,
        s.planned,
        s.granted,
        s.resolved,
        insert_started-returns facts.task.id capability new_id now db s.named s.tasked s.unused
            s.countable,
      )
      refl

-- The run that a start has made, and the tables with it.
pub record IsNewRun (facts : GuardedTaskRunStartFacts) (capability : Capability) (new_id : EntityId)
    (now : IsoTimestamp) (db : Tables) (run : TaskRun) (after : Tables) : Type 0 where
  pub named : run.id ≡ new_id
  pub task : run.task_id ≡ facts.task.id
  pub status : run.status ≡ TaskRunStatus.started
  pub able : run.capability ≡ capability
  pub started : run.started_at ≡ now
  pub unfinished : run.finished_at ≡ none
  pub greater : (r : TaskRun) → In r db.runs → r.task_id ≡ facts.task.id → r.attempt < run.attempt
  pub next :
      (run.attempt ≡ 1)
      ⊎ ((r : TaskRun) × In r db.runs × (r.task_id ≡ facts.task.id) × (run.attempt ≡ r.attempt + 1))
  pub stored : Storage.get new_id after.runs ≡ some run
  pub others : (id : EntityId) → id ≢ new_id → Storage.get id after.runs ≡ Storage.get id db.runs
  pub alone : after ≡ record db { runs = after.runs }
  pub blocks : has_unresolved facts.task.id after.runs ≡ true

started_run-IsNewRun :
    (facts : GuardedTaskRunStartFacts) (capability : Capability) (new_id : EntityId)
    (now : IsoTimestamp) (db : Tables)
    → any (λ other. other.id == new_id) db.runs ≡ false
    → IsNewRun facts capability new_id now db
        (new_run facts.task.id capability new_id now db)
        (with_runs db (db.runs ++ (new_run facts.task.id capability new_id now db ∷ [])))
unfolding started_run
started_run-IsNewRun facts capability new_id now db unused = record {
  named = refl;
  task = refl;
  status = refl;
  able = refl;
  started = refl;
  unfinished = refl;
  greater = below_greatest facts.task.id db.runs;
  next = elim (greatest_attempt-reached facts.task.id db.runs) [
    | inl bare ↦ inl (ap (λ n. n + 1) bare)
    | inr (r, m, e, same) ↦ inr (r, m, e, ap (λ n. n + 1) same)
  ];
  stored = get-last (new_run facts.task.id capability new_id now db) db.runs unused;
  others = λ id n. get-others (new_run facts.task.id capability new_id now db) db.runs id n;
  alone = refl;
  blocks = has_unresolved-last (new_run facts.task.id capability new_id now db) db.runs refl;
}

-- Where every guard of `guardedStart` passes, the id is new, and the ordinals of the task are not used
-- up, the call returns a run and has stored it. It has the new id, the task, the capability and the
-- time, it is STARTED and not finished, and its ordinal is above those of all stored runs of the task:
-- one more than that of one of them, or 1. The other runs and the other tables are as they were, and
-- the task has an unresolved run now.
pub guarded_start-returns :
    (facts : GuardedTaskRunStartFacts) (capability : Capability) (new_id : EntityId)
    (now : IsoTimestamp) (db : Tables)
    → IsStartable facts capability new_id db
    → (run : TaskRun) × (after : Tables) × (guarded_start none facts capability new_id now db
        ≡ ok (run, after))
      × IsNewRun facts capability new_id now db run after
guarded_start-returns facts capability new_id now db s = (
  _,
  _,
  guarded_start-started facts capability new_id now db s,
  started_run-IsNewRun facts capability new_id now db s.unused,
)
