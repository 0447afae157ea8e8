-- ===== src/Continuation/Ledger.antt =====
-- The abstract account of the runs that packages/storage-sqlite/src/index.ts stores, without their
-- representation: what is seen of a run and its moves, and the steps that change the tables.
pub mod Writes
pub mod Starts
pub mod Saves
pub mod Evidence
pub mod Ends
pub mod Refined
pub mod Kept
pub mod Sound
pub mod Progress
pub mod Ordinals
pub mod Starting
pub mod Admits
mod Tests
use chunsik_bot.Base.{
  String, ◌≡◌, Bool, true, false, Option, none, some, List, [], ◌∷◌, ◌++◌, ◌==◌, string_eq, any,
}
use chunsik_bot.Base.Platform.{Platform}
use chunsik_bot.Domain.{EntityId}
use chunsik_bot.Storage
use chunsik_bot.Governance.Task.{TaskRun, task_run_entity}
use chunsik_bot.Continuation.Documents.{ContinuationBinding}
use chunsik_bot.Continuation.Evidence.{ContainmentBinding, ContainmentAudit, PostAttempt}
use chunsik_bot.Continuation.Tables.{
  Tables, is_bound, is_started, has_identity, takes_attempt, same_start,
}
use chunsik_bot.Continuation.Runs.{extract_containment_audit, has_unresolved}
use chunsik_bot.Continuation.Runs.Contained.{is_uncertain}

pub record View : Type 0 where
  pub is_open : Bool
  pub evidence : Option ContainmentAudit

abbrev pub view : Platform → TaskRun → View
view p run = record { is_open = is_started run.status; evidence = extract_containment_audit p run }

pub data Moves (v w : View) : Type 0 where
  stays : w.is_open ≡ v.is_open → w.evidence ≡ v.evidence → Moves v w
  binds :
      (b : ContainmentBinding)
      → v.is_open ≡ true
      → w.is_open ≡ true
      → v.evidence ≡ none
      → w.evidence ≡ some (record { binding = b; post_attempt = none })
      → Moves v w
  observes :
      (b : ContainmentBinding) (q : PostAttempt)
      → v.is_open ≡ true
      → w.is_open ≡ true
      → v.evidence ≡ some (record { binding = b; post_attempt = none })
      → w.evidence ≡ some (record { binding = b; post_attempt = some q })
      → Moves v w
  closes :
      v.is_open ≡ true
      → w.is_open ≡ false
      → w.evidence ≡ v.evidence
      → is_uncertain v.evidence ≡ false
      → Moves v w

pub data Step (p : Platform) (db after : Tables) : Type 0 where
  others : after.runs ≡ db.runs → after.bindings ≡ db.bindings → Step p db after
  admitted :
      (b : ContinuationBinding)
      → after.runs ≡ db.runs
      → after.bindings ≡ db.bindings ++ (b ∷ [])
      → any (λ run. run.task_id == b.task_id) db.runs ≡ false
      → Step p db after
  inserted :
      (run : TaskRun)
      → after.bindings ≡ db.bindings
      → after.runs ≡ db.runs ++ (run ∷ [])
      → has_identity run ≡ true
      → any (λ other. other.id == run.id) db.runs ≡ false
      → any (takes_attempt run) db.runs ≡ false
      → (is_bound run.task_id db.bindings ≡ true → has_unresolved run.task_id db.runs ≡ false)
      → Step p db after
  updated :
      (old run : TaskRun)
      → after.bindings ≡ db.bindings
      → Storage.get run.id db.runs ≡ some old
      → after.runs ≡ Storage.save run db.runs
      → has_identity run ≡ true
      → same_start old run ≡ true
      → (is_bound run.task_id db.bindings ≡ true → Moves (view p old) (view p run))
      → Step p db after
  deleted :
      (id : EntityId)
      → after.bindings ≡ db.bindings
      → after.runs ≡ Storage.delete id db.runs
      → ((run : TaskRun)
          → Storage.get id db.runs ≡ some run
          → is_bound run.task_id db.bindings ≡ false)
      → Step p db after
