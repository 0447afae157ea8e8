-- ===== src/Governance/Tests/Approvals.antt =====
-- A HIGH plan that a person approves.
use chunsik_bot.Base.{◌≡◌, refl, ◌≢◌, Bool, true, false, none, some, List, [], ◌∷◌, In, string_eq}
use chunsik_bot.Domain.{RiskLevel, ApprovalStatus, ApprovalStatus-discrete, ExecutionStatus}
use chunsik_bot.Domain.Names.{risk_level_name}
use chunsik_bot.Domain.Plan.{ExecutionPlan, ChangeScope, execution_plan_ref}
use chunsik_bot.Storage.{get, save}
use chunsik_bot.Governance.Risk.{requires_approval}
use chunsik_bot.Governance.Approval.{
  ApprovalRequest, ApprovalDecision, approval_entity, is_approved, find_by_execution_plan,
  request_for, new_request, evaluate, decide,
}
use chunsik_bot.Governance.Approval.Final.{after_calls-final}
use chunsik_bot.Governance.Approval.Lifecycle.{
  ApprovalCall, requested, decision_made, after_calls, GrantsAny, is_approved-granted,
}

abbrev pub plan : ExecutionPlan
plan = record {
  id = "plan-1";
  goal = "change the code";
  summary = "";
  steps = [];
  required_capabilities = [];
  required_resources = [];
  estimated_changes = record {
    file_count = 1;
    estimated_changed_lines = none;
    scope = ChangeScope.local;
  };
  approval_required = true;
  overall_risk = RiskLevel.high;
  expected_artifacts = [];
  status = ExecutionStatus.pending;
  integrity = none;
  project_id = none;
  created_at = 10;
}

abbrev decision : Bool → ApprovalDecision
decision yes_or_no = record {
  approval_id = "a-1";
  approved = yes_or_no;
  decided_by = "ops";
  decided_at = 12;
  comment = none;
}

abbrev calls : List ApprovalCall
calls = requested plan "user" "a-1" 11 ∷ decision_made "a-1" (decision true) 13 ∷ []

abbrev approved_request : ApprovalRequest
approved_request = record {
  id = "a-1";
  plan_ref = record { id = "plan-1"; goal = "change the code"; integrity = none };
  status = ApprovalStatus.approved;
  risk_level = RiskLevel.high;
  reason = "HIGH risk requires human approval";
  requested_by = "user";
  decision = some true;
  decided_by = some "ops";
  decided_at = some 12;
  comment = none;
  task_id = none;
  created_at = 11;
  updated_at = 13;
}

table_after_calls : after_calls calls [] ≡ approved_request ∷ []
unfolding after_calls request_for new_request evaluate execution_plan_ref requires_approval
    risk_level_name decide get save ApprovalStatus-discrete
table_after_calls = refl

plan_approved : is_approved "plan-1" (after_calls calls []) ≡ true
unfolding is_approved find_by_execution_plan after_calls request_for new_request evaluate
    execution_plan_ref requires_approval decide get save ApprovalStatus-discrete
plan_approved = refl

is_approved-granted_example :
    (r : ApprovalRequest) × In r (after_calls calls [])
    × (r.plan_ref.id ≡ "plan-1")
    × (r.status ≡ ApprovalStatus.approved)
    × (requires_approval r.risk_level ≡ true → GrantsAny calls r.id)
is_approved-granted_example = is_approved-granted calls "plan-1" plan_approved

found_approved : get "a-1" (approved_request ∷ []) ≡ some approved_request
unfolding get
found_approved = refl

not_pending : ApprovalStatus.approved ≢ ApprovalStatus.pending
not_pending e = cc

after_calls-final_example :
    get "a-1" (after_calls (decision_made "a-1" (decision false) 20 ∷ []) (approved_request ∷ []))
    ≡ some approved_request
after_calls-final_example =
    after_calls-final (decision_made "a-1" (decision false) 20 ∷ []) (approved_request ∷ []) "a-1"
      approved_request found_approved not_pending ((λ e. e), tt)
