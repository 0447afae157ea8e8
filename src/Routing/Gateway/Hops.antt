-- ===== src/Routing/Gateway/Hops.antt =====
-- provider-routing-gateway.ts: how a round of the loop of `execute` ends, or goes on to another
-- target after a failure.
use chunsik_bot.Base.{
  Bool, true, false, ◌&&◌, Option, none, some, if◌then◌else◌, ◌==◌, string_eq, length, ltb,
}
use chunsik_bot.Routing.Failure.{
  RoutingFailureCode, RoutingFailurePolicy, ValidationDisposition, escalate,
  RuntimeValidationResult, failure_policy, failure_class_eq, failure_code_eq,
}
use chunsik_bot.Routing.Machine.{RoutingExecutionState, transition}
use chunsik_bot.Routing.Plan.{
  ProviderExecutionPlan, ProviderExecutionTarget, ExecutionTargetPurpose, purpose_eq,
  max_provider_attempts,
}
use chunsik_bot.Routing.Gateway.{
  ProviderExecutionPath, fallback_path, escalation_path, ProviderGatewayResult, routing,
  ProviderGatewayTerminalStatus, ProviderRoutingGateway, ValidationProfileView,
}
use chunsik_bot.Routing.Gateway.Checks.{terminal_status, failure_code_name}
use chunsik_bot.Routing.Gateway.Execution.{ExecutionState, finish}

-- What one round of the loop comes to: the end, or another round for a target.
pub data Round (W : Type 0) : Type 0 where
  stop : ProviderGatewayResult → ExecutionState → W → Round W
  again : ProviderExecutionTarget → ExecutionState → W → Round W

abbrev pub stop_with :
    {W : Type 0} → ExecutionState → W → Option ProviderGatewayResult → Option (Round W)
stop_with st w none = none
stop_with st w (some result) = some (stop result st w)

-- Another round on a path, after the transition that makes its target ready.
abbrev pub take_path :
    {W : Type 0}
    → ExecutionState
    → ProviderExecutionPath
    → RoutingExecutionState
    → RoutingFailureCode
    → ProviderExecutionTarget
    → W
    → Option (Round W)
take_path st path ready code target w =
    elim (transition st.machine ready (failure_code_name code)) [
      | none ↦ none
      | some machine ↦ some (
          again target
            (record {
              machine = machine;
              attempts = st.attempts;
              path = path;
              final_target = st.final_target;
              calls = st.calls;
            })
            w)
    ]

-- The hop that a failure of the primary target may take: the target, where there is one.
abbrev pub hop :
    Bool
    → ProviderExecutionTarget
    → Option ProviderExecutionTarget
    → ExecutionState
    → Option ProviderExecutionTarget
hop allowed target next st =
    if target.purpose == ExecutionTargetPurpose.primary
      && allowed
      && ltb (length st.attempts) max_provider_attempts
    then next
    else none

abbrev pub is_escalate : ValidationDisposition → Bool
is_escalate escalate = true
is_escalate other = false

-- The failure that stays unresolved, of a semantic or structural one.
abbrev pub unresolved_of : RoutingFailureCode → Option RoutingFailureCode
unresolved_of RoutingFailureCode.semantic_validation_failed =
    some RoutingFailureCode.semantic_validation_unresolved
unresolved_of RoutingFailureCode.structural_validation_failed =
    some RoutingFailureCode.structural_validation_unresolved
unresolved_of other = none

module _ (gateway : ProviderRoutingGateway) (plan : ProviderExecutionPlan) where
  -- `finish(terminalStatus(code), code)`
  unfoldable pub finish_failed : ExecutionState → RoutingFailureCode → Option ProviderGatewayResult
  finish_failed st code = elim (terminal_status code) [
    | none ↦ none
    | some status ↦ finish gateway plan st status (some (routing code)) none
  ]

  -- After a failure of the provider: fall back, or end.
  unfoldable pub after_failure :
      {W : Type 0}
      → ProviderExecutionTarget
      → RoutingFailureCode
      → ExecutionState
      → W
      → Option (Round W)
  unfolding finish_failed
  after_failure target code st w = elim (failure_policy code) [
    | none ↦ none
    | some policy ↦ elim (hop policy.fallback_allowed target plan.operational_fallback st) [
      | some next ↦ take_path st fallback_path RoutingExecutionState.fallback_ready code next w
      | none ↦ stop_with st w (finish_failed st code)
    ]
  ]

  -- After a response that was not accepted and is neither unsafe nor late.
  unfoldable pub after_rejection :
      {W : Type 0}
      → ValidationProfileView
      → ProviderExecutionTarget
      → RuntimeValidationResult
      → RoutingFailureCode
      → RoutingFailurePolicy
      → ExecutionState
      → W
      → Option (Round W)
  unfolding finish_failed
  after_rejection profile target validation code policy st w =
      elim (hop policy.fallback_allowed target plan.operational_fallback st) [
        | some next ↦ take_path st fallback_path RoutingExecutionState.fallback_ready code next w
        | none ↦
            elim (hop
              (is_escalate validation.disposition
                && policy.escalation_allowed
                && profile.escalation_enabled)
              target plan.semantic_escalation st) [
                | some next ↦
                    take_path st escalation_path RoutingExecutionState.escalation_ready code next w
                | none ↦ elim (unresolved_of code) [
                  | some unresolved ↦ stop_with st w (
                      finish gateway plan st ProviderGatewayTerminalStatus.human_review_required
                        (some (routing unresolved)) none)
                  | none ↦ stop_with st w (finish_failed st code)
                ]
              ]
      ]
