-- ===== src/Continuation/Ledger/Ordinals.antt =====
-- storage-sqlite/src/index.ts (under packages/): the rows of task_runs when one is appended, and the
-- greatest ordinal of a task.
use chunsik_bot.Base.{
  ℕ, ◌+◌, ◌<◌, max, In, ◌⊎◌, inl, inr, beq_refl, ap, sym, ◌∙◌, String, Bool, if◌then◌else◌, ◌≡◌,
  ◌≢◌, refl, true, false, some, List, [], ◌∷◌, ◌++◌, any, ◌==◌, string_eq, eq_of_beq, arith,
}
use chunsik_bot.Domain.{EntityId, TaskRunStatus}
use chunsik_bot.Storage
use chunsik_bot.Governance.Task.{TaskRun, task_run_entity}
use chunsik_bot.Continuation.Tables.{is_started, greatest_attempt}
use chunsik_bot.Continuation.Runs.{has_unresolved}

pub below_greatest :
    (task_id : EntityId) (rows : List TaskRun) (r : TaskRun)
    → In r rows
    → r.task_id ≡ task_id
    → r.attempt < greatest_attempt task_id rows + 1
unfolding greatest_attempt
below_greatest task_id [] r m e = absurd m
below_greatest task_id (row ∷ rows) r (inl same) e = ground (
  arith,
  ap (λ (o : TaskRun). o.task_id == task_id) (sym same)
      ∙ ap (λ i. i == task_id) e
      ∙ beq_refl {A = String} task_id,
  ap (λ (o : TaskRun). o.attempt) same,
)
below_greatest task_id (row ∷ rows) r (inr later) e =
    ground (arith, below_greatest task_id rows r later e)

max-cases : (a b : ℕ) → (max a b ≡ a) ⊎ (max a b ≡ b)
max-cases a b = ground arith

-- The ordinal before the new one is that of a run of the task, where there is one.
pub greatest_attempt-reached :
    (task_id : EntityId) (rows : List TaskRun)
    → (greatest_attempt task_id rows ≡ 0)
      ⊎ ((r : TaskRun) × In r rows
          × (r.task_id ≡ task_id)
          × (greatest_attempt task_id rows ≡ r.attempt))
unfolding greatest_attempt
greatest_attempt-reached task_id [] = inl refl
greatest_attempt-reached task_id (row ∷ rows) =
    helper (row.task_id == task_id) (λ e. eq_of_beq row.task_id task_id e)
      (greatest_attempt-reached task_id rows)
  where
    helper :
        (b : Bool)
        → (b ≡ true → row.task_id ≡ task_id)
        → (greatest_attempt task_id rows ≡ 0)
          ⊎ ((r : TaskRun) × In r rows
              × (r.task_id ≡ task_id)
              × (greatest_attempt task_id rows ≡ r.attempt))
        → let greatest =
            if b
            then max row.attempt (greatest_attempt task_id rows)
            else greatest_attempt task_id rows in
          (greatest ≡ 0)
          ⊎ ((r : TaskRun) × In r (row ∷ rows) × (r.task_id ≡ task_id) × (greatest ≡ r.attempt))
    helper true own (inl bare) = inr (row, inl refl, own refl, omega (arith, bare))
    helper true own (inr (r, m, e, same)) =
        elim (max-cases row.attempt (greatest_attempt task_id rows)) [
          | inl left ↦ inr (row, inl refl, own refl, left)
          | inr right ↦ inr (r, inr m, e, right ∙ same)
        ]
    helper false own (inl bare) = inl bare
    helper false own (inr (r, m, e, same)) = inr (r, inr m, e, same)

pub get-last :
    (row : TaskRun) (rows : List TaskRun)
    → any (λ other. other.id == row.id) rows ≡ false
    → Storage.get row.id (rows ++ (row ∷ [])) ≡ some row
unfolding Storage.get
get-last row [] h = ground (arith, beq_refl row.id)
get-last row (other ∷ rows) h = ground (arith, get-last row rows)

pub get-others :
    (row : TaskRun) (rows : List TaskRun) (id : EntityId)
    → id ≢ row.id
    → Storage.get id (rows ++ (row ∷ [])) ≡ Storage.get id rows
unfolding Storage.get
get-others row [] id n = ground (arith, eq_of_beq row.id id)
get-others row (other ∷ rows) id n = ground (arith, get-others row rows id n)

pub has_unresolved-last :
    (row : TaskRun) (rows : List TaskRun)
    → row.status ≡ TaskRunStatus.started
    → has_unresolved row.task_id (rows ++ (row ∷ [])) ≡ true
unfolding has_unresolved
has_unresolved-last row [] h = ground (arith, beq_refl row.task_id, ap is_started h)
has_unresolved-last row (other ∷ rows) h = ground (arith, has_unresolved-last row rows h)
