-- ===== src/Routing/Gateway/Purposes.antt =====
-- provider-routing-gateway.ts: a plan that passes the preflight has its targets in their places.
use chunsik_bot.Base.{
  ◌≡◌, subst, inl, inr, Bool, true, false, not, ◌||◌, Option, some, arith, Bool-cases, eq_of_beq,
}
use chunsik_bot.Base.Result.{Result, ok, err, bind-eq-ok}
use chunsik_bot.Base.Platform.{Platform}
use chunsik_bot.Routing.Plan.{
  ProviderExecutionPlan, ProviderExecutionTarget, ExecutionTargetPurpose, purpose_eq,
}
use chunsik_bot.Routing.Gateway.{
  AiRequest, ProviderGatewayFailureCode, ProviderRoutingGateway, DeadlineBudget,
  ValidationProfileView,
}
use chunsik_bot.Routing.Gateway.Checks.{
  validate_plan_shape, structure_malformed, texts_malformed, has_purpose,
}
use chunsik_bot.Routing.Gateway.Run.{preflight, absent}
use chunsik_bot.Routing.Gateway.Rounds.{HasPurposes}

or-false : (a b : Bool) → (a || b) ≡ false → (a ≡ false) × (b ≡ false)
or-false a b h = ground arith

not-false : (b : Bool) → not b ≡ false → b ≡ true
not-false b h = ground arith

has_purpose-some :
    (purpose : ExecutionTargetPurpose) (target : Option ProviderExecutionTarget)
    (t : ProviderExecutionTarget)
    → has_purpose purpose target ≡ true
    → target ≡ some t
    → t.purpose ≡ purpose
has_purpose-some purpose target t h e =
    eq_of_beq t.purpose purpose (subst (λ o. has_purpose purpose o ≡ true) e h)

shape-HasPurposes :
    (platform : Platform) (plan : ProviderExecutionPlan) (request : AiRequest)
    → structure_malformed platform plan request ≡ false
    → HasPurposes plan
unfolding structure_malformed
shape-HasPurposes platform plan request h =
    let t1 = (or-false _ _ h).0 in
    let t2 = (or-false _ _ t1).0 in
    let t3 = (or-false _ _ t2).0 in
    let t4 = (or-false _ _ t3).0 in
    let t5 = (or-false _ _ t4).0 in
    let t6 = (or-false _ _ t5).0 in
    let t7 = (or-false _ _ t6).0 in
    let t8 = (or-false _ _ t7).0 in
    let t9 = (or-false _ _ t8).0 in
    let t10 = (or-false _ _ t9).0 in
    let (t11, h4) = or-false _ _ t10 in
    let (t12, h3) = or-false _ _ t11 in
    let h2 = (or-false _ _ t12).1 in
    record {
      first = eq_of_beq plan.primary_target.purpose ExecutionTargetPurpose.primary (not-false _ h2);
      fallbacks = λ t e.
          has_purpose-some ExecutionTargetPurpose.fallback plan.operational_fallback t
            (not-false _ h3) e;
      escalations = λ t e.
          has_purpose-some ExecutionTargetPurpose.escalation plan.semantic_escalation t
            (not-false _ h4) e;
    }

pub preflight-HasPurposes :
    (platform : Platform) (gateway : ProviderRoutingGateway) (plan : ProviderExecutionPlan)
    (request : AiRequest) (passed : ValidationProfileView × DeadlineBudget)
    → preflight platform gateway plan request ≡ ok passed
    → HasPurposes plan
unfolding preflight validate_plan_shape
preflight-HasPurposes platform gateway plan request passed e =
    let (u, shape, rest) = bind-eq-ok (absent (validate_plan_shape platform plan request)) _ e in
    elim (Bool-cases (texts_malformed plan request)) [
      | inl bad ↦ absurd (refused (rw (bad, validate_plan_shape) at shape))
      | inr fine ↦ elim (Bool-cases (structure_malformed platform plan request)) [
        | inl bad ↦ absurd (refused (rw (fine, bad, validate_plan_shape) at shape))
        | inr sound ↦ shape-HasPurposes platform plan request sound
      ]
    ]
  where
    refused :
        {code : ProviderGatewayFailureCode} {u : Unit {0}}
        → ◌≡◌ {A = Result ProviderGatewayFailureCode (Unit {0})} (err code) (ok u)
        → ⊥
    refused e = cc
