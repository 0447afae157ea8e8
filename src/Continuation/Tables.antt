-- ===== src/Continuation/Tables.antt =====
-- storage-sqlite/src/index.ts, migrations.ts, core/src/errors.ts (under packages/): the tables that the
-- runs of continuations are guarded by, the errors, a transaction, and the writes of `task_runs` under
-- its primary key, its unique index and its triggers. The columns `id` and `task_id` of a run are those
-- of its data: every write takes them from there, and a trigger checks it.
use chunsik_bot.Base.{
  ℕ, max, String, Bool, true, false, not, ◌&&◌, Option, none, some, List, [], ◌∷◌, ◌++◌, leb, any,
  if◌then◌else◌, ◌==◌, string_eq, nat_eq,
}
use chunsik_bot.Base.Text.{codes}
use chunsik_bot.Base.Result.{Result, ok, err}
use chunsik_bot.Base.Guards.{◌>>◌, require}
use chunsik_bot.Domain.{EntityId, TaskRunStatus, capability_eq}
use chunsik_bot.Storage.{get, save}
use chunsik_bot.Governance.Approval.{ApprovalRequest}
use chunsik_bot.Governance.Task.{Task, TaskRun, task_run_entity}
use chunsik_bot.Continuation.Documents.{WorkItem, WorkHandoff, ContinuationBinding}

pub record Tables : Type 0 where
  pub work_handoffs : List WorkHandoff
  pub work_items : List WorkItem
  pub tasks : List Task
  pub approvals : List ApprovalRequest
  pub bindings : List ContinuationBinding
  pub runs : List TaskRun

pub data GuardCode : Type 0 where
  stale_handoff binding_mismatch work_item_not_continuable task_not_executable approval_stale
        unresolved_started_run continuation_guard_required continuation_run_delete_forbidden
        task_run_storage_busy :
      GuardCode

pub data ConflictReason : Type 0 where
  run_not_found run_not_started run_not_continuation_bound caller_supplied_evidence
        binding_digest_conflict binding_missing post_attempt_conflict evidence_removed
        malformed_evidence :
      ConflictReason

-- The typed errors, the two plain ones, and an error of the driver with its code.
pub data RunError : Type 0 where
  guarded : GuardCode → RunError
  conflict : ConflictReason → RunError
  task_run_start_invalid_or_stale_task : RunError
  task_run_attempt_exhausted : RunError
  sql : String → RunError

-- What a call answers, with the tables after it.
abbrev pub Answer : Type 0 → Type 0
Answer A = Result RunError (A × Tables)

starts_with : List ℕ → List ℕ → Bool
starts_with [] cs = true
starts_with (p ∷ ps) [] = false
starts_with (p ∷ ps) (c ∷ cs) = p == c && starts_with ps cs

unfoldable is_lock_contention : String → Bool
unfolding starts_with
is_lock_contention code = starts_with (codes "SQLITE_BUSY") (codes code)

-- The driver takes the lock at once, or it throws an error with a code; then nothing is written.
unfoldable pub begin_immediate : Option String → Result RunError (Unit {0})
begin_immediate none = ok tt
begin_immediate (some code) = err (sql code)

unfoldable translate : RunError → RunError
unfolding is_lock_contention
translate (sql code) =
    if is_lock_contention code then guarded GuardCode.task_run_storage_busy else sql code
translate e = e

unfoldable pub no_contention : {A : Type 0} → Answer A → Answer A
unfolding translate
no_contention (ok answer) = ok answer
no_contention (err e) = err (translate e)

unfoldable pub is_bound : EntityId → List ContinuationBinding → Bool
is_bound task_id bindings = any (λ b. b.task_id == task_id) bindings

abbrev pub is_started : TaskRunStatus → Bool
is_started TaskRunStatus.started = true
is_started _ = false

abbrev max_safe_integer : ℕ
max_safe_integer = 9007199254740991

-- The triggers `task_runs_validate_insert` and `task_runs_validate_update`
unfoldable pub has_identity : TaskRun → Bool
has_identity run =
    not (run.id == "")
    && not (run.task_id == "")
    && leb 1 run.attempt
    && leb run.attempt max_safe_integer

-- The unique index `task_runs_task_attempt`
unfoldable pub takes_attempt : TaskRun → TaskRun → Bool
takes_attempt run other = other.task_id == run.task_id && other.attempt == run.attempt

-- `INSERT INTO task_runs`
unfoldable pub insert_run : TaskRun → List TaskRun → Result RunError (List TaskRun)
unfolding has_identity takes_attempt
insert_run run rows = do
  require (has_identity run) (sql "SQLITE_CONSTRAINT_TRIGGER")
  require (not (any (λ other. other.id == run.id) rows)) (sql "SQLITE_CONSTRAINT_PRIMARYKEY")
  require (not (any (takes_attempt run) rows)) (sql "SQLITE_CONSTRAINT_UNIQUE")
  ok (rows ++ (run ∷ []))

-- The trigger `task_runs_immutable_start`; the id is the same, since the row is found by it.
unfoldable pub same_start : TaskRun → TaskRun → Bool
same_start old run =
    run.task_id == old.task_id
    && run.attempt == old.attempt
    && run.started_at == old.started_at
    && run.capability == old.capability

unfoldable pub update_run : TaskRun → TaskRun → List TaskRun → Result RunError (List TaskRun)
unfolding has_identity same_start save
update_run old run rows = do
  require (has_identity run) (sql "SQLITE_CONSTRAINT_TRIGGER")
  require (same_start old run) (sql "SQLITE_CONSTRAINT_TRIGGER")
  ok (save run rows)

-- `INSERT … ON CONFLICT(id) DO UPDATE`
unfoldable pub upsert_run : TaskRun → List TaskRun → Result RunError (List TaskRun)
unfolding insert_run update_run get
upsert_run run rows = elim (get run.id rows) [
  | none ↦ insert_run run rows
  | some old ↦ update_run old run rows
]

-- `MAX(json_extract(data, '$.attempt'))` over the runs of a task, `?? 0`
unfoldable pub greatest_attempt : EntityId → List TaskRun → ℕ
greatest_attempt task_id [] = 0
greatest_attempt task_id (run ∷ rows) =
    let rest = greatest_attempt task_id rows in
    if run.task_id == task_id then max run.attempt rest else rest
