-- ===== src/Routing/Gateway/Moves.antt =====
-- provider-routing-gateway.ts: where a hop can lead, and the transitions that it needs.
use chunsik_bot.Base.{
  ◌≡◌, refl, ◌≢◌, inl, inr, Bool, true, false, Option, some, arith, Bool-cases, contains, ◌==◌,
  eq_of_beq, if◌then◌else◌, none_not_some,
}
use chunsik_bot.Routing.Failure.{RoutingFailureCode, RoutingFailureClass, failure_class_eq}
use chunsik_bot.Routing.Failure.Laws.{failure_policy-total}
use chunsik_bot.Routing.Machine.{
  RoutingExecutionState, RoutingExecutionState-discrete, allowed, state_eq,
}
use chunsik_bot.Routing.Plan.{ProviderExecutionTarget, ExecutionTargetPurpose, purpose_eq}
use chunsik_bot.Routing.Gateway.{routing, ProviderGatewayTerminalStatus}
use chunsik_bot.Routing.Gateway.Checks.{terminal_status, is_unresolved, is_binding_code}
use chunsik_bot.Routing.Gateway.Execution.{ExecutionState}
use chunsik_bot.Routing.Gateway.Hops.{hop}

pub hop-some :
    (go : Bool) (target t : ProviderExecutionTarget) (next : Option ProviderExecutionTarget)
    (st : ExecutionState)
    → hop go target next st ≡ some t
    → (target.purpose ≡ ExecutionTargetPurpose.primary) × (next ≡ some t)
hop-some go target t next st e =
    elim (Bool-cases (target.purpose == ExecutionTargetPurpose.primary)) [
      | inl first ↦ (eq_of_beq target.purpose ExecutionTargetPurpose.primary first, ground arith)
      | inr later ↦ absurd (none_not_some (rw later at e))
    ]

pub terminal_status-total :
    (code : RoutingFailureCode)
    → (status : ProviderGatewayTerminalStatus) × (terminal_status code ≡ some status)
      × (status ≢ ProviderGatewayTerminalStatus.accepted)
unfolding terminal_status
terminal_status-total code =
    let (policy, known, same) = failure_policy-total code in
    rw (known, terminal_status)
      (pick (is_binding_code (routing code)) (is_unresolved code)
        (policy.failure_class == RoutingFailureClass.safety)
        (policy.failure_class == RoutingFailureClass.configuration) _)
  where
    pick :
        (a b c d e : Bool)
        → (status : ProviderGatewayTerminalStatus) × ((if a
              then some ProviderGatewayTerminalStatus.configuration_failed
              else if b
              then some ProviderGatewayTerminalStatus.human_review_required
              else some (
                  if c
                  then ProviderGatewayTerminalStatus.safety_blocked
                  else if d
                  then ProviderGatewayTerminalStatus.configuration_failed
                  else if e
                  then ProviderGatewayTerminalStatus.rejected
                  else ProviderGatewayTerminalStatus.execution_failed))
            ≡ some status)
          × (status ≢ ProviderGatewayTerminalStatus.accepted)
    pick true b c d e = (ProviderGatewayTerminalStatus.configuration_failed, refl, λ h. cc)
    pick false true c d e = (ProviderGatewayTerminalStatus.human_review_required, refl, λ h. cc)
    pick false false true d e = (ProviderGatewayTerminalStatus.safety_blocked, refl, λ h. cc)
    pick false false false true e =
        (ProviderGatewayTerminalStatus.configuration_failed, refl, λ h. cc)
    pick false false false false true = (ProviderGatewayTerminalStatus.rejected, refl, λ h. cc)
    pick false false false false false =
        (ProviderGatewayTerminalStatus.execution_failed, refl, λ h. cc)

pub executing-fallback :
    contains (allowed RoutingExecutionState.primary_executing) RoutingExecutionState.fallback_ready
    ≡ true
unfolding allowed RoutingExecutionState-discrete
executing-fallback = refl

pub validating-fallback :
    contains (allowed RoutingExecutionState.primary_validating) RoutingExecutionState.fallback_ready
    ≡ true
unfolding allowed RoutingExecutionState-discrete
validating-fallback = refl

pub validating-escalation :
    contains
      (allowed RoutingExecutionState.primary_validating)
      RoutingExecutionState.escalation_ready
    ≡ true
unfolding allowed RoutingExecutionState-discrete
validating-escalation = refl
