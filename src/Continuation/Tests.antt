-- ===== src/Continuation/Tests.antt =====
-- A handoff whose task runs, the rows of the tables and the evidence: data of the tests, and projections.

use chunsik_bot.Base.Hash.{code_units}
use chunsik_bot.Base.Text.{is_sha256, is_version, is_routing_identifier}
use chunsik_bot.Base.{◌≡◌, refl, true, Option, none, some, List, [], ◌∷◌, string_eq}
use chunsik_bot.Base.Json.{Json, json_object}
use chunsik_bot.Samples.{sample_digest, sample_platform}
use chunsik_bot.Domain.{Capability, TaskStatus, TaskRunStatus, IntentType, RiskLevel}
use chunsik_bot.Governance.Task.{Task, TaskRun, task_run_entity, task_entity}
use chunsik_bot.Continuation.Documents.{
  WorkItem, WorkItemStatus, WorkItemOrigin, WorkHandoff, ContinuationBinding,
}
use chunsik_bot.Continuation.Evidence.{ContainmentBinding, ContainmentAudit}
use chunsik_bot.Continuation.Evidence.Audit.{snapshot_containment_audit, audit_json}
use chunsik_bot.Continuation.Evidence.Stored.{snapshot-audit_json}
use chunsik_bot.Continuation.Tables.{Tables}
use chunsik_bot.Continuation.Runs.Contained.{TerminalizeRequest, TerminalStatus}

abbrev pub binding : ContainmentBinding
binding = record {
  prepared = none;
  execution_id = "run-1";
  task_run_id = "run-1";
  containment_policy_id = "policy";
  containment_policy_version = "1";
  containment_policy_digest = sample_digest;
  containment_binding_digest = sample_digest;
  provider_id = "local";
  model_id = "model";
  model_digest = sample_digest;
  image_digest = sample_digest;
  runtime_family = "NONE";
  runtime_version = "1";
  security_profile_digest = sample_digest;
  model_mount_identity_digest = sample_digest;
  verifier_version = "1";
  channel_a_result_digest = sample_digest;
  channel_b_result_digest = sample_digest;
  preflight_disposition = "VERIFIED";
}

abbrev pub bound_audit : ContainmentAudit
bound_audit = record { binding = binding; post_attempt = none }

abbrev pub mismatch_audit : ContainmentAudit
mismatch_audit = record {
  binding = binding;
  post_attempt = some (record { post_attempt_model_integrity = "MISMATCH"; failure_code = none });
}

-- A text that is not evidence of this run.
foreign : snapshot_containment_audit sample_platform (audit_json bound_audit) "run-2" "run-2" ≡ none
unfolding snapshot_containment_audit audit_json
foreign = refl

projected :
    snapshot_containment_audit sample_platform (audit_json mismatch_audit) "run-1" "run-1"
    ≡ some mismatch_audit
unfolding snapshot_containment_audit audit_json is_routing_identifier is_version is_sha256
    code_units
projected = refl

snapshot-audit_json_example :
    snapshot_containment_audit sample_platform (audit_json mismatch_audit) "run-1" "run-1"
    ≡ some mismatch_audit
snapshot-audit_json_example =
    snapshot-audit_json sample_platform (audit_json mismatch_audit) "run-1" mismatch_audit projected

abbrev pub task : Task
task = record {
  id = "task-1";
  title = "go on";
  description = "go on with the report";
  status = TaskStatus.running;
  intent = record {
    type = IntentType.summarize;
    capability = Capability.summarization;
    confidence = "0.9";
    requires_work = true;
    summary = "go on";
    raw = none;
  };
  risk_level = RiskLevel.low;
  context = record {
    platform = "discord";
    space_id = none;
    channel_id = "c";
    thread_id = none;
    user_id = "u";
  };
  actor_id = some "actor-1";
  session_id = none;
  project_id = none;
  workspace_ref_id = none;
  plan_id = none;
  created_at = 1;
  updated_at = 2;
  metadata = none;
}

abbrev pub work_item : WorkItem
work_item = record {
  id = "work-1";
  actor_id = "actor-1";
  project_id = none;
  resource_refs = [];
  status = WorkItemStatus.active;
  origin = WorkItemOrigin.conversation;
  created_at = 1;
  updated_at = 1;
}

abbrev pub handoff : WorkHandoff
handoff = record {
  id = "handoff-1";
  work_item_id = "work-1";
  from_agent_profile_id = "a";
  to_agent_profile_id = "b";
  objective = "the report";
  resource_refs = [];
  artifact_ids = [];
  execution_receipt_ids = [];
  created_at = 1;
}

abbrev pub continuation : ContinuationBinding
continuation = record { handoff_id = "handoff-1"; task_id = "task-1"; recorded_at = 1 }

abbrev pub run : Option Json → TaskRun
run metadata = record {
  id = "run-1";
  task_id = "task-1";
  attempt = 1;
  status = TaskRunStatus.started;
  capability = Capability.summarization;
  provider_id = none;
  artifact_ids = [];
  started_at = 5;
  finished_at = none;
  duration_ms = none;
  error = none;
  metadata = metadata;
}

abbrev pub evidence : ContainmentAudit → Option Json
evidence audit = some (json_object (("containmentAudit", audit_json audit) ∷ []))

abbrev pub tables : List TaskRun → Tables
tables runs = record {
  work_handoffs = handoff ∷ [];
  work_items = work_item ∷ [];
  tasks = task ∷ [];
  approvals = [];
  bindings = continuation ∷ [];
  runs = runs;
}

abbrev pub request : Option Json → TerminalizeRequest
request metadata = record {
  terminal_status = TerminalStatus.succeeded;
  finished_at = 9;
  artifact_ids = none;
  provider_id = some "local";
  error = none;
  metadata = metadata;
}
