-- ===== src/Governance/Approval.antt =====
-- approval-manager.ts, approval-policy.ts, domain/approval.ts: approval requests and their decisions.
-- The approvals table is passed in and out; the id of `newId()` and the time of `now()` are arguments.
pub mod Lifecycle
pub mod Final
use chunsik_bot.Base.{
  ℕ, String, Bool, true, false, not, ◌&&◌, ◌||◌, Option, none, some, List, [], ◌∷◌, if◌then◌else◌,
  ◌==◌, string_eq, any, filter,
}
use chunsik_bot.Base.Result.{Result, ok, err, ◌>>=◌, ◌>>◌, require}
use chunsik_bot.Base.Json.{◌⊕◌}
use chunsik_bot.Base.Text.{codes}
use chunsik_bot.Base.Regex.{is_space}
use chunsik_bot.Domain.{EntityId, IsoTimestamp, RiskLevel, ApprovalStatus, approval_status_eq}
use chunsik_bot.Domain.Names.{risk_level_name, approval_status_name}
use chunsik_bot.Domain.Plan.{ExecutionPlan, ExecutionPlanRef, execution_plan_ref}
use chunsik_bot.Governance.Risk.{requires_approval}
use chunsik_bot.Storage.{Entity, get, save}

pub record ApprovalRequest : Type 0 where
  pub id : EntityId
  pub plan_ref : ExecutionPlanRef
  pub status : ApprovalStatus
  pub risk_level : RiskLevel
  pub reason : String
  pub requested_by : String
  pub decision : Option Bool
  pub decided_by : Option String
  pub decided_at : Option IsoTimestamp
  pub comment : Option String
  pub task_id : Option EntityId
  pub created_at : IsoTimestamp
  pub updated_at : IsoTimestamp

instance abbrev pub approval_entity : Entity ApprovalRequest
approval_entity = record { id_of = λ r. r.id }

pub record ApprovalDecision : Type 0 where
  pub approval_id : EntityId
  pub approved : Bool
  pub decided_by : String
  pub decided_at : IsoTimestamp
  pub comment : Option String

pub record ApprovalRef : Type 0 where
  pub id : EntityId
  pub status : ApprovalStatus
  pub plan_ref : ExecutionPlanRef

unfoldable pub approval_ref : ApprovalRequest → ApprovalRef
approval_ref r = record { id = r.id; status = r.status; plan_ref = r.plan_ref }

pub record ApprovalEvaluation : Type 0 where
  pub requires : Bool
  pub reason : String
  pub risk_level : RiskLevel
  pub requested_by : String

unfoldable pub evaluate : ExecutionPlan → String → ApprovalEvaluation
evaluate plan requested_by = record {
  requires = requires_approval plan.overall_risk;
  reason =
      risk_level_name plan.overall_risk
      ⊕ (if requires_approval plan.overall_risk
          then " risk requires human approval"
          else " risk is auto-approved (no human approval required)");
  risk_level = plan.overall_risk;
  requested_by = requested_by;
}

-- A call's answer, with the table after it.
abbrev pub Answer : Type 0 → Type 0
Answer A = Result String (A × List ApprovalRequest)

-- The request that `requestFor` stores.
unfoldable pub new_request : ExecutionPlan → String → EntityId → IsoTimestamp → ApprovalRequest
unfolding evaluate execution_plan_ref
new_request plan requested_by id ts = record {
  id = id;
  plan_ref = execution_plan_ref plan;
  status = if auto then ApprovalStatus.approved else ApprovalStatus.pending;
  risk_level = evaluation.risk_level;
  reason = evaluation.reason;
  requested_by = requested_by;
  decision = if auto then some true else none;
  decided_by = if auto then some "system" else none;
  decided_at = if auto then some ts else none;
  comment = none;
  task_id = none;
  created_at = ts;
  updated_at = ts;
}
  where
    evaluation : ApprovalEvaluation
    evaluation = evaluate plan requested_by

    auto : Bool
    auto = not evaluation.requires

unfoldable pub request_for :
    ExecutionPlan → String → EntityId → IsoTimestamp → List ApprovalRequest → Answer ApprovalRequest
request_for plan requested_by id ts table =
    ok (new_request plan requested_by id ts, save (new_request plan requested_by id ts) table)

abbrev pub status_of : Bool → ApprovalStatus
status_of true = ApprovalStatus.approved
status_of false = ApprovalStatus.rejected

-- `decision.comment ? … : {}`: an absent or empty comment keeps the one that is there.
abbrev pub truthy_text : Option String → Option String → Option String
truthy_text none old = old
truthy_text (some text) old = if text == "" then old else some text

abbrev pub decided : ApprovalRequest → ApprovalDecision → IsoTimestamp → ApprovalRequest
decided existing d ts = record {
  id = existing.id;
  plan_ref = existing.plan_ref;
  status = status_of d.approved;
  risk_level = existing.risk_level;
  reason = existing.reason;
  requested_by = existing.requested_by;
  decision = some d.approved;
  decided_by = some d.decided_by;
  decided_at = some d.decided_at;
  comment = truthy_text d.comment existing.comment;
  task_id = existing.task_id;
  created_at = existing.created_at;
  updated_at = ts;
}

unfoldable pub decide :
    EntityId → ApprovalDecision → IsoTimestamp → List ApprovalRequest → Answer ApprovalRequest
decide id d ts table = elim (get id table) [
  | none ↦ err ("approval not found: " ⊕ id)
  | some existing ↦ do
    require (existing.status == ApprovalStatus.pending)
        ("approval " ⊕ id ⊕ " already decided (" ⊕ approval_status_name existing.status ⊕ ")")
    ok (decided existing d ts, save (decided existing d ts) table)
]

-- `text.trim()` is not empty.
pub is_blank : String → Bool
is_blank text = not (any (λ c. not (is_space c)) (codes text))

pub record RiskRequest : Type 0 where
  pub plan_ref : ExecutionPlanRef
  pub risk_level : RiskLevel
  pub reason : String
  pub requested_by : String

pub is_high_or_critical : RiskLevel → Bool
is_high_or_critical RiskLevel.high = true
is_high_or_critical RiskLevel.critical = true
is_high_or_critical _ = false

abbrev pub risk_request : RiskRequest → EntityId → IsoTimestamp → ApprovalRequest
risk_request input id ts = record {
  id = id;
  plan_ref = input.plan_ref;
  status = ApprovalStatus.pending;
  risk_level = input.risk_level;
  reason = input.reason;
  requested_by = input.requested_by;
  decision = none;
  decided_by = none;
  decided_at = none;
  comment = none;
  task_id = none;
  created_at = ts;
  updated_at = ts;
}

unfoldable pub request_for_risk :
    RiskRequest → EntityId → IsoTimestamp → List ApprovalRequest → Answer ApprovalRequest
unfolding is_blank is_high_or_critical
request_for_risk input id ts table = do
  require (not (is_blank input.reason)) "requestForRisk: a non-empty reason is required"
  require (not (is_blank input.requested_by)) "requestForRisk: a non-empty requestedBy is required"
  require (is_high_or_critical input.risk_level)
      "requestForRisk: only HIGH/CRITICAL risk is accepted (it bypasses ApprovalPolicy)"
  ok (risk_request input id ts, save (risk_request input id ts) table)

unfoldable pub find_by_execution_plan : EntityId → List ApprovalRequest → List ApprovalRequest
find_by_execution_plan plan_id table = filter (λ r. r.plan_ref.id == plan_id) table

unfoldable pub is_approved : EntityId → List ApprovalRequest → Bool
unfolding find_by_execution_plan
is_approved plan_id table =
    any (λ r. r.status == ApprovalStatus.approved) (find_by_execution_plan plan_id table)
