-- ===== src/Continuation/Ledger/Refined.antt =====
-- storage-sqlite/src/index.ts, continuation-binding-repository.ts (under packages/): calls as steps of
-- the ledger, and the steps as moves of one run.
use chunsik_bot.Base.{
  ◌≡◌, refl, sym, ap, ◌∙◌, subst, true, some, List, [], ◌∷◌, ◌++◌, Bool-cases, inl, inr,
  false_not_true, some-injective, ◌==◌, string_eq, eq_of_beq, ne_of_beq, arith,
}
use chunsik_bot.Base.Platform.{Platform}
use chunsik_bot.Domain.{EntityId}
use chunsik_bot.Storage
use chunsik_bot.Storage.Laws.{get-save_same, get-save_other, get-delete_other, get-append}
use chunsik_bot.Governance.Task.{TaskRun, task_run_entity}
use chunsik_bot.Continuation.Documents.{ContinuationBinding}
use chunsik_bot.Continuation.Tables.{Tables, is_bound, same_start}
use chunsik_bot.Continuation.Calls.{
  Call, start_call, guarded_start_call, save_call, binding_call, post_evidence_call,
  terminalize_call, delete_call, admit_call, other_call, perform, perform_all,
}
use chunsik_bot.Continuation.Ledger.{
  View, view, Moves, stays, Step, others, admitted, inserted, updated, deleted,
}
use chunsik_bot.Continuation.Ledger.Starts.{
  start-Step, guarded_start-Step, delete_run-Step, admit-Step,
}
use chunsik_bot.Continuation.Ledger.Saves.{save-Step}
use chunsik_bot.Continuation.Ledger.Evidence.{record_binding-Step, record_post_evidence-Step}
use chunsik_bot.Continuation.Ledger.Ends.{terminalize-Step}

pub perform-Step : (p : Platform) (call : Call) (db : Tables) → Step p db (perform p call db)
unfolding perform
perform-Step p (start_call lock task capability id now) db =
    start-Step p db lock task capability id now
perform-Step p (guarded_start_call lock facts capability id now) db =
    guarded_start-Step p db lock facts capability id now
perform-Step p (save_call lock run) db = save-Step p db lock run
perform-Step p (binding_call lock id value) db = record_binding-Step p db lock id value
perform-Step p (post_evidence_call lock id value) db = record_post_evidence-Step p db lock id value
perform-Step p (terminalize_call lock id request) db = terminalize-Step p db lock id request
perform-Step p (delete_call lock id) db = delete_run-Step p db lock id
perform-Step p (admit_call lock expected now) db = admit-Step p db lock expected now
perform-Step p (other_call work_handoffs work_items tasks approvals) db = others refl refl

-- A run of a bound task that is stored.
pub record IsHeld (id : EntityId) (db : Tables) (run : TaskRun) : Type 0 where
  pub found : Storage.get id db.runs ≡ some run
  pub bound : is_bound run.task_id db.bindings ≡ true

is_bound-append :
    (task_id : EntityId) (bindings : List ContinuationBinding) (b : ContinuationBinding)
    → is_bound task_id bindings ≡ true
    → is_bound task_id (bindings ++ (b ∷ [])) ≡ true
unfolding is_bound
is_bound-append task_id [] b h = cc
is_bound-append task_id (c ∷ bindings) b h = ground (arith, is_bound-append task_id bindings b)

same_start-task : (old new : TaskRun) → same_start old new ≡ true → new.task_id ≡ old.task_id
unfolding same_start
same_start-task old new e = ground (arith, eq_of_beq new.task_id old.task_id)

-- The row of a held run is moved by a step, and stays held.
pub record IsMoved (p : Platform) (id : EntityId) (db after : Tables) (run : TaskRun) : Type 0 where
  pub now : TaskRun
  pub held : IsHeld id after now
  pub same_task : now.task_id ≡ run.task_id
  pub moves : Moves (view p run) (view p now)

module _ (p : Platform) (id : EntityId) (db after : Tables) (run : TaskRun)
    (h : IsHeld id db run) where
  unmoved :
      Storage.get id after.runs ≡ some run
      → is_bound run.task_id after.bindings ≡ true
      → IsMoved p id db after run
  unmoved found bound = record {
    now = run;
    held = record { found = found; bound = bound };
    same_task = refl;
    moves = stays refl refl;
  }

  with_bindings : after.bindings ≡ db.bindings → is_bound run.task_id after.bindings ≡ true
  with_bindings same = subst (λ bs. is_bound run.task_id bs ≡ true) (sym same) h.bound

  in_rows :
      {rows : List TaskRun} {row : TaskRun}
      → after.runs ≡ rows
      → Storage.get id rows ≡ some row
      → Storage.get id after.runs ≡ some row
  in_rows same found = ap (λ rows. Storage.get id rows) same ∙ found

  is_run :
      {new_id : EntityId} (old : TaskRun)
      → id ≡ new_id
      → Storage.get new_id db.runs ≡ some old
      → old ≡ run
  is_run old same found =
      some-injective (sym found ∙ ap (λ i. Storage.get i db.runs) (sym same) ∙ h.found)

  replaced :
      (new : TaskRun)
      → after.bindings ≡ db.bindings
      → id ≡ new.id
      → after.runs ≡ Storage.save new db.runs
      → same_start run new ≡ true
      → (is_bound new.task_id db.bindings ≡ true → Moves (view p run) (view p new))
      → IsMoved p id db after run
  replaced new bindings same runs start moves = record {
    now = new;
    held = record {
      found =
          in_rows runs
            (ap (λ i. Storage.get i (Storage.save new db.runs)) same ∙ get-save_same new db.runs);
      bound = subst (λ bs. is_bound new.task_id bs ≡ true) (sym bindings) bound_task;
    };
    same_task = task;
    moves = moves bound_task;
  }
    where
      task : new.task_id ≡ run.task_id
      task = same_start-task run new start

      bound_task : is_bound new.task_id db.bindings ≡ true
      bound_task = subst (λ t. is_bound t db.bindings ≡ true) (sym task) h.bound

  pub Step-IsMoved : Step p db after → IsMoved p id db after run
  Step-IsMoved (others runs bindings) = unmoved (in_rows runs h.found) (with_bindings bindings)
  Step-IsMoved (admitted b runs bindings unused) = unmoved (in_rows runs h.found) (
      subst (λ bs. is_bound run.task_id bs ≡ true) (sym bindings)
        (is_bound-append run.task_id db.bindings b h.bound))
  Step-IsMoved (inserted new bindings runs identity fresh free resolved) =
      unmoved (in_rows runs (get-append id db.runs (new ∷ []) run h.found)) (with_bindings bindings)
  Step-IsMoved (deleted other bindings runs unbound) =
      unmoved
        (in_rows runs (
          get-delete_other id other db.runs (λ same. absurd (
            false_not_true
              (unbound run (subst (λ i. Storage.get i db.runs ≡ some run) same h.found)) h.bound))
          ∙ h.found))
        (with_bindings bindings)
  Step-IsMoved (updated old new bindings found runs identity start moves) =
      elim (Bool-cases (id == new.id)) [
        | inr apart ↦
            unmoved
              (in_rows runs (get-save_other new db.runs id (ne_of_beq id new.id apart) ∙ h.found))
              (with_bindings bindings)
        | inl same ↦
            replaced new bindings (eq_of_beq id new.id same) runs
              (subst (λ o. same_start o new ≡ true) (is_run old (eq_of_beq id new.id same) found)
                start)
              (subst (λ o. is_bound new.task_id db.bindings ≡ true → Moves (view p o) (view p new))
                (is_run old (eq_of_beq id new.id same) found) moves)
      ]

-- Any number of moves.
pub data Reaches : View → View → Type 0 where
  here : (v : View) → Reaches v v
  next : (v u w : View) → Moves v u → Reaches u w → Reaches v w

pub record HasReached (p : Platform) (id : EntityId) (after : Tables) (run : TaskRun) : Type 0 where
  pub now : TaskRun
  pub held : IsHeld id after now
  pub same_task : now.task_id ≡ run.task_id
  pub reached : Reaches (view p run) (view p now)

-- Whatever calls of the repositories follow, and whatever other code writes to the other tables: the
-- row of a run of a bound task stays stored for that task, and what can be seen of it, whether it is
-- open and its evidence, changes by moves of the ledger alone. So it is neither deleted nor opened
-- again, its evidence is bound once and observed once, and it is closed only where no observation
-- leaves its outcome open.
pub perform_all-HasReached :
    (p : Platform) (calls : List Call) (db : Tables) (id : EntityId) (run : TaskRun)
    → IsHeld id db run
    → HasReached p id (perform_all p calls db) run
unfolding perform_all
perform_all-HasReached p [] db id run h = record {
  now = run;
  held = h;
  same_task = refl;
  reached = here (view p run);
}
perform_all-HasReached p (call ∷ calls) db id run h =
    let m = Step-IsMoved p id db (perform p call db) run h (perform-Step p call db) in
    let r = perform_all-HasReached p calls (perform p call db) id m.now m.held in
    record {
      now = r.now;
      held = r.held;
      same_task = r.same_task ∙ m.same_task;
      reached = next (view p run) (view p m.now) (view p r.now) m.moves r.reached;
    }
