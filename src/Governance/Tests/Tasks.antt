-- ===== src/Governance/Tests/Tasks.antt =====
-- A task that is planned, run and completed.
use chunsik_bot.Base.{◌≡◌, refl, ◌⊎◌, true, none, List, [], ◌∷◌, String, In, string_eq}
use chunsik_bot.Base.Result.{ok, err}
use chunsik_bot.Domain.{
  TaskStatus, TaskStatus-discrete, IsoTimestamp, IntentType, Capability, RiskLevel,
}
use chunsik_bot.Storage.{save}
use chunsik_bot.Governance.Task.{Task, task_entity, transitions, can_transition, change_status}
use chunsik_bot.Governance.Task.Path.{
  drive, statuses, drive-completed, IsStored, change_status-IsStored,
}

abbrev task : TaskStatus → IsoTimestamp → Task
task status ts = record {
  id = "t-1";
  title = "tests";
  description = "run the tests";
  status = status;
  intent = record {
    type = IntentType.run_tests;
    capability = Capability.test_execution;
    confidence = "0.9";
    requires_work = true;
    summary = "tests";
    raw = none;
  };
  risk_level = RiskLevel.medium;
  context = record {
    platform = "discord";
    space_id = none;
    channel_id = "c";
    thread_id = none;
    user_id = "u";
  };
  actor_id = none;
  session_id = none;
  project_id = none;
  workspace_ref_id = none;
  plan_id = none;
  created_at = 1;
  updated_at = ts;
  metadata = none;
}

abbrev steps : List (TaskStatus × IsoTimestamp)
steps = (TaskStatus.planning, 2) ∷ (TaskStatus.running, 3) ∷ (TaskStatus.completed, 4) ∷ []

driven :
    drive (task TaskStatus.pending 1) steps (task TaskStatus.pending 1 ∷ [])
    ≡ ok (task TaskStatus.completed 4, task TaskStatus.completed 4 ∷ [])
unfolding drive change_status can_transition transitions save TaskStatus-discrete
driven = refl

drive-completed_example :
    (rest : List TaskStatus) × (statuses steps ≡ TaskStatus.planning ∷ rest)
    × In TaskStatus.running rest
drive-completed_example =
    drive-completed steps (task TaskStatus.pending 1) (task TaskStatus.pending 1 ∷ [])
      (task TaskStatus.completed 4) (task TaskStatus.completed 4 ∷ []) refl driven refl

change_status-IsStored_example :
    ((message : String) × (change_status (task TaskStatus.pending 1) TaskStatus.planning 2 []
        ≡ err message)
      × (In TaskStatus.planning (transitions TaskStatus.pending) → ⊥))
    ⊎ ((out : Task × List Task) × (change_status
            (task TaskStatus.pending 1)
            TaskStatus.planning
            2
            []
          ≡ ok out)
        × IsStored (task TaskStatus.pending 1) TaskStatus.planning 2 [] out)
change_status-IsStored_example =
    change_status-IsStored (task TaskStatus.pending 1) TaskStatus.planning 2 []
