-- ===== src/Continuation/Documents.antt =====
-- core/src/domain/work-item.ts, work-handoff.ts, continuation-binding.ts (under packages/): what a
-- continuation refers to, and the rows as `JSON.parse(JSON.stringify(value))` compares them.
use chunsik_bot.Base.{String, Option, none, some, List, [], ◌∷◌, ◌++◌, map}
use mathlib.Core.Option
use chunsik_bot.Base.Json.{Json, bool, num, str, json_object, json_array}
use chunsik_bot.Domain.{EntityId, IsoTimestamp}
use chunsik_bot.Domain.Names.{
  capability_name, intent_type_name, risk_level_name, approval_status_name, task_status_name,
}
use chunsik_bot.Domain.Plan.{ExecutionPlanRef, ExecutionPlanIntegrityRef}
use chunsik_bot.Storage.{Entity}
use chunsik_bot.Governance.Approval.{ApprovalRequest}
use chunsik_bot.Governance.Task.{Task, Intent, ConversationContext}

pub data WorkItemStatus : Type 0 where
  active completed canceled : WorkItemStatus

pub data WorkItemOrigin : Type 0 where
  conversation connector : WorkItemOrigin

pub record ResourceRef : Type 0 where
  pub source : String
  pub external_id : String

pub record WorkItem : Type 0 where
  pub id : EntityId
  pub actor_id : EntityId
  pub project_id : Option EntityId
  pub resource_refs : List ResourceRef
  pub status : WorkItemStatus
  pub origin : WorkItemOrigin
  pub created_at : IsoTimestamp
  pub updated_at : IsoTimestamp

pub record WorkHandoff : Type 0 where
  pub id : EntityId
  pub work_item_id : EntityId
  pub from_agent_profile_id : String
  pub to_agent_profile_id : String
  pub objective : String
  pub resource_refs : List ResourceRef
  pub artifact_ids : List EntityId
  pub execution_receipt_ids : List EntityId
  pub created_at : IsoTimestamp

pub record ContinuationBinding : Type 0 where
  pub handoff_id : EntityId
  pub task_id : EntityId
  pub recorded_at : IsoTimestamp

instance abbrev pub work_item_entity : Entity WorkItem
work_item_entity = record { id_of = λ w. w.id }

instance abbrev pub work_handoff_entity : Entity WorkHandoff
work_handoff_entity = record { id_of = λ h. h.id }

-- `undefined` leaves the key out.
unfoldable optional : String → Option Json → List (String × Json)
optional key none = []
optional key (some v) = (key, v) ∷ []

unfoldable optional_text : String → Option String → List (String × Json)
optional_text key none = []
optional_text key (some s) = (key, str s) ∷ []

unfoldable work_item_status_name : WorkItemStatus → String
work_item_status_name WorkItemStatus.active = "ACTIVE"
work_item_status_name WorkItemStatus.completed = "COMPLETED"
work_item_status_name WorkItemStatus.canceled = "CANCELED"

unfoldable work_item_origin_name : WorkItemOrigin → String
work_item_origin_name WorkItemOrigin.conversation = "conversation"
work_item_origin_name WorkItemOrigin.connector = "connector"

unfoldable resource_ref_json : ResourceRef → Json
resource_ref_json r =
    json_object (("source", str r.source) ∷ ("externalId", str r.external_id) ∷ [])

unfoldable pub work_item_json : WorkItem → Json
unfolding optional_text work_item_status_name work_item_origin_name resource_ref_json
work_item_json w = json_object (
    ("id", str w.id)
    ∷ ("actorId", str w.actor_id)
    ∷ (optional_text "projectId" w.project_id
        ++ (("resourceRefs", json_array (map resource_ref_json w.resource_refs))
            ∷ ("status", str (work_item_status_name w.status))
            ∷ ("origin", str (work_item_origin_name w.origin))
            ∷ ("createdAt", num w.created_at)
            ∷ ("updatedAt", num w.updated_at)
            ∷ [])))

unfoldable pub work_handoff_json : WorkHandoff → Json
unfolding resource_ref_json
work_handoff_json h = json_object (
    ("id", str h.id)
    ∷ ("workItemId", str h.work_item_id)
    ∷ ("fromAgentProfileId", str h.from_agent_profile_id)
    ∷ ("toAgentProfileId", str h.to_agent_profile_id)
    ∷ ("objective", str h.objective)
    ∷ ("resourceRefs", json_array (map resource_ref_json h.resource_refs))
    ∷ ("artifactIds", json_array (map str h.artifact_ids))
    ∷ ("executionReceiptIds", json_array (map str h.execution_receipt_ids))
    ∷ ("createdAt", num h.created_at)
    ∷ [])

unfoldable intent_json : Intent → Json
unfolding intent_type_name capability_name optional
intent_json i = json_object (
    ("type", str (intent_type_name i.type))
    ∷ ("capability", str (capability_name i.capability))
    ∷ ("confidence", str i.confidence)
    ∷ ("requiresWork", bool i.requires_work)
    ∷ ("summary", str i.summary)
    ∷ optional "raw" i.raw)

unfoldable context_json : ConversationContext → Json
unfolding optional_text
context_json c = json_object (
    ("platform", str c.platform)
    ∷ ("channelId", str c.channel_id)
    ∷ ("userId", str c.user_id)
    ∷ (optional_text "spaceId" c.space_id ++ optional_text "threadId" c.thread_id))

unfoldable pub task_json : Task → Json
unfolding task_status_name risk_level_name intent_json context_json optional optional_text
task_json t = json_object (
    ("id", str t.id)
    ∷ ("title", str t.title)
    ∷ ("description", str t.description)
    ∷ ("status", str (task_status_name t.status))
    ∷ ("intent", intent_json t.intent)
    ∷ ("riskLevel", str (risk_level_name t.risk_level))
    ∷ ("context", context_json t.context)
    ∷ ("createdAt", num t.created_at)
    ∷ ("updatedAt", num t.updated_at)
    ∷ (optional_text "actorId" t.actor_id
        ++ optional_text "sessionId" t.session_id
        ++ optional_text "projectId" t.project_id
        ++ optional_text "workspaceRefId" t.workspace_ref_id
        ++ optional_text "planId" t.plan_id
        ++ optional "metadata" t.metadata))

unfoldable integrity_json : Option ExecutionPlanIntegrityRef → List (String × Json)
integrity_json none = []
integrity_json (some i) =
    (
      "integrity",
      json_object (
          ("kind", str i.kind)
          ∷ ("contractVersion", str i.contract_version)
          ∷ ("digest", str i.digest)
          ∷ []),
    )
    ∷ []

unfoldable pub plan_ref_json : ExecutionPlanRef → Json
unfolding integrity_json
plan_ref_json r = json_object (("id", str r.id) ∷ ("goal", str r.goal) ∷ integrity_json r.integrity)

unfoldable pub approval_json : ApprovalRequest → Json
unfolding plan_ref_json approval_status_name risk_level_name optional optional_text
approval_json r = json_object (
    ("id", str r.id)
    ∷ ("executionPlanRef", plan_ref_json r.plan_ref)
    ∷ ("status", str (approval_status_name r.status))
    ∷ ("riskLevel", str (risk_level_name r.risk_level))
    ∷ ("reason", str r.reason)
    ∷ ("requestedBy", str r.requested_by)
    ∷ ("createdAt", num r.created_at)
    ∷ ("updatedAt", num r.updated_at)
    ∷ (optional "decision" (Option.map bool r.decision)
        ++ optional_text "decidedBy" r.decided_by
        ++ optional "decidedAt" (Option.map num r.decided_at)
        ++ optional_text "comment" r.comment
        ++ optional_text "taskId" r.task_id))
