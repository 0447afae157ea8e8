-- ===== src/Governance/Approval/Lifecycle.antt =====
-- approval-manager.ts, approval-policy.ts: sequences of calls of the approval manager.
use chunsik_bot.Base.{
  String, ◌≡◌, refl, sym, subst, ◌⊎◌, inl, inr, true, not, some, List, [], ◌∷◌, arith, ◌==◌, In,
  Option-cases, eq_of_beq, string_eq,
}
use chunsik_bot.Domain.{EntityId, IsoTimestamp, ApprovalStatus, approval_status_eq}
use chunsik_bot.Storage.{get, save}
use chunsik_bot.Storage.Laws.{In-save, get-id}
use chunsik_bot.Governance.Risk.{requires_approval}
use chunsik_bot.Governance.Approval.{
  find_by_execution_plan, evaluate, ApprovalRequest, ApprovalDecision, RiskRequest, approval_entity,
  new_request, request_for, request_for_risk, decide, decided, risk_request, is_approved, Answer,
  is_blank, is_high_or_critical, find_by_execution_plan,
}
use chunsik_bot.Domain.Plan.{ExecutionPlan}
use chunsik_bot.Base.Result.{ok, err, require-cases, require, Gives, Gives-then}
use chunsik_bot.Base.Json.{◌⊕◌}
use chunsik_bot.Domain.Names.{approval_status_name}
use chunsik_bot.Base.Membership.{In-filter_iff, any-In}

-- A call of a method that writes, with the id and the time that it draws.
pub data ApprovalCall : Type 0 where
  requested : ExecutionPlan → String → EntityId → IsoTimestamp → ApprovalCall
  risk_requested : RiskRequest → EntityId → IsoTimestamp → ApprovalCall
  decision_made : EntityId → ApprovalDecision → IsoTimestamp → ApprovalCall

unfoldable pub answer : ApprovalCall → List ApprovalRequest → Answer ApprovalRequest
answer (requested plan by id ts) table = request_for plan by id ts table
answer (risk_requested input id ts) table = request_for_risk input id ts table
answer (decision_made id d ts) table = decide id d ts table

abbrev pub table_after : Answer ApprovalRequest → List ApprovalRequest → List ApprovalRequest
table_after (ok (request, next)) table = next
table_after (err message) table = table

-- The table after calls; the first call is made first, and one that throws writes nothing.
unfoldable pub after_calls : List ApprovalCall → List ApprovalRequest → List ApprovalRequest
unfolding answer
after_calls [] table = table
after_calls (call ∷ calls) table = after_calls calls (table_after (answer call table) table)

-- A call that approves a request by a decision.
abbrev pub Grants : ApprovalCall → EntityId → Type 0
Grants (requested plan by id ts) r = ⊥
Grants (risk_requested input id ts) r = ⊥
Grants (decision_made id d ts) r = (id ≡ r) × (d.approved ≡ true)

-- What a request that is approved without a decision can be.
abbrev NeedsHuman : ApprovalRequest → Type 0
NeedsHuman r = (r.status ≡ ApprovalStatus.approved) × (requires_approval r.risk_level ≡ true)

requested-pending :
    (plan : ExecutionPlan) (by : String) (id : EntityId) (ts : IsoTimestamp)
    → NeedsHuman (new_request plan by id ts)
    → ⊥
unfolding new_request evaluate
requested-pending plan by id ts (a, b) = ground arith

decided-Grants :
    (id : EntityId) (existing : ApprovalRequest) (d : ApprovalDecision) (ts : IsoTimestamp)
    → existing.id ≡ id
    → NeedsHuman (decided existing d ts)
    → Grants (decision_made id d ts) (decided existing d ts).id
decided-Grants id existing d ts e (a, b) = (sym e, ground arith)

abbrev Throws : Answer ApprovalRequest → Type 0
Throws a = (message : String) × (a ≡ err message)

abbrev already_decided : EntityId → ApprovalRequest → String
already_decided id r = "approval " ⊕ id ⊕ " already decided (" ⊕ approval_status_name r.status ⊕ ")"

pub request_for_risk-cases :
    (input : RiskRequest) (id : EntityId) (ts : IsoTimestamp) (table : List ApprovalRequest)
    → Gives
        (request_for_risk input id ts table)
        (risk_request input id ts, save (risk_request input id ts) table)
unfolding request_for_risk
request_for_risk-cases input id ts table =
    Gives-then (require (not (is_blank input.reason)) _) _ _ (
      Gives-then (require (not (is_blank input.requested_by)) _) _ _ (
        Gives-then (require (is_high_or_critical input.risk_level) _) (ok written) written
          (inr refl)))
  where
    written : ApprovalRequest × List ApprovalRequest
    written = (risk_request input id ts, save (risk_request input id ts) table)

-- A decision throws, or decides a request that was pending.
pub decide-cases :
    (id : EntityId) (d : ApprovalDecision) (ts : IsoTimestamp) (table : List ApprovalRequest)
    → Throws (decide id d ts table)
      ⊎ ((existing : ApprovalRequest) × (get id table ≡ some existing)
          × (existing.status ≡ ApprovalStatus.pending)
          × (decide id d ts table ≡ ok (decided existing d ts, save (decided existing d ts) table)))
unfolding decide
decide-cases id d ts table = elim (Option-cases (get id table)) [
  | inl missing ↦ inl ("approval not found: " ⊕ id, rw (missing, decide) refl)
  | inr (existing, found) ↦
      let written : ApprovalRequest × List ApprovalRequest =
        (decided existing d ts, save (decided existing d ts) table) in
      elim (require-cases (existing.status == ApprovalStatus.pending) (already_decided id existing)
        (ok written)) [
          | inl e ↦ inl (already_decided id existing, rw (found, decide) e)
          | inr (waiting, e) ↦ inr (
            existing,
            found,
            eq_of_beq existing.status ApprovalStatus.pending waiting,
            rw (found, decide) e,
          )
        ]
]

-- A row of the table after a call was there before it, or the call wrote it with authority.
answer-written :
    (call : ApprovalCall) (table : List ApprovalRequest) (r : ApprovalRequest)
    → In r (table_after (answer call table) table)
    → NeedsHuman r
    → In r table ⊎ Grants call r.id
unfolding answer request_for
answer-written (requested plan by id ts) table r m h = elim (In-save r _ table m) [
  | inl e ↦ absurd (requested-pending plan by id ts (subst NeedsHuman e h))
  | inr old ↦ inl old
]
answer-written (risk_requested input id ts) table r m h =
    elim (request_for_risk-cases input id ts table) [
      | inl (message, e) ↦ inl (rw e at m)
      | inr e ↦ elim (In-save r (risk_request input id ts) table (rw e at m)) [
        | inl same ↦ absurd (status_clash (subst NeedsHuman same h).0)
        | inr old ↦ inl old
      ]
    ]
  where
    status_clash : ApprovalStatus.pending ≡ ApprovalStatus.approved → ⊥
    status_clash e = cc
answer-written (decision_made id d ts) table r m h = elim (decide-cases id d ts table) [
  | inl (message, e) ↦ inl (rw e at m)
  | inr (existing, found, waiting, e) ↦ elim (In-save r (decided existing d ts) table (rw e at m)) [
    | inl same ↦ inr (
        subst (λ x. Grants (decision_made id d ts) x.id) (sym same)
          (decided-Grants id existing d ts (get-id id table found) (subst NeedsHuman same h)))
    | inr old ↦ inl old
  ]
]

-- Some call of a sequence approves the request.
abbrev pub GrantsAny : List ApprovalCall → EntityId → Type 0
GrantsAny [] r = ⊥
GrantsAny (call ∷ calls) r = Grants call r ⊎ GrantsAny calls r

after_calls-granted :
    (calls : List ApprovalCall) (table : List ApprovalRequest) (r : ApprovalRequest)
    → In r (after_calls calls table)
    → NeedsHuman r
    → In r table ⊎ GrantsAny calls r.id
unfolding after_calls
after_calls-granted [] table r m h = inl m
after_calls-granted (call ∷ calls) table r m h =
    elim (after_calls-granted calls (table_after (answer call table) table) r m h) [
      | inl old ↦ elim (answer-written call table r old h) [
        | inl older ↦ inl older
        | inr now ↦ inr (inl now)
      ]
      | inr later ↦ inr (inr later)
    ]

approved_scoped :
    (plan_id : EntityId) (table : List ApprovalRequest)
    → is_approved plan_id table ≡ true
    → (r : ApprovalRequest) × In r table
      × (r.plan_ref.id ≡ plan_id)
      × (r.status ≡ ApprovalStatus.approved)
unfolding is_approved find_by_execution_plan
approved_scoped plan_id table e =
    let (r, kept, status) = any-In _ _ e in
    let (listed, scope) = (In-filter_iff _ r table).0 kept in
    (
      r,
      listed,
      eq_of_beq r.plan_ref.id plan_id scope,
      eq_of_beq r.status ApprovalStatus.approved status,
    )

-- Whatever calls are made on an empty table, in any order: when the manager says that a plan is
-- approved, there is an approved request of that plan, and if the risk of this request requires an
-- approval, one of the calls was a decision on it that approves. No HIGH or CRITICAL request is
-- approved by the policy alone.
pub is_approved-granted :
    (calls : List ApprovalCall) (plan_id : EntityId)
    → is_approved plan_id (after_calls calls []) ≡ true
    → (r : ApprovalRequest) × In r (after_calls calls [])
      × (r.plan_ref.id ≡ plan_id)
      × (r.status ≡ ApprovalStatus.approved)
      × (requires_approval r.risk_level ≡ true → GrantsAny calls r.id)
is_approved-granted calls plan_id e =
    let (r, listed, scope, status) = approved_scoped plan_id (after_calls calls []) e in
    (
      r,
      listed,
      scope,
      status,
      λ risky. elim (after_calls-granted calls [] r listed (status, risky)) [
        | inl nowhere ↦ elim nowhere [ ]
        | inr granted ↦ granted
      ],
    )
