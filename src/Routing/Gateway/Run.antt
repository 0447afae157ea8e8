-- ===== src/Routing/Gateway/Run.antt =====
-- provider-routing-gateway.ts: the checks before the first attempt, the loop and `execute`.
use chunsik_bot.Base.{
  ℕ, zero, suc, ◌+◌, Bool, true, false, ◌&&◌, Option, none, some, List, [], ◌∷◌, ◌==◌, string_eq,
  length, ltb, leb,
}
use chunsik_bot.Base.Text.{is_version}
use chunsik_bot.Base.Platform.{Platform}
use chunsik_bot.Base.Result.{Result, ok, err, ◌>>=◌, ◌>>◌, require}
use chunsik_bot.Routing.Failure.{RoutingFailureCode}
use chunsik_bot.Routing.Machine.{RoutingExecutionState, transition, new_machine}
use chunsik_bot.Routing.Plan.{
  ProviderBindingFailureCode, ProviderBindingRegistry, ProviderExecutionPlan,
  ProviderExecutionTarget, max_provider_attempts,
}
use chunsik_bot.Routing.Gateway.{
  AiRequest, primary_only, ProviderGatewayResult, ProviderGatewayFailureCode, routing, binding,
  ProviderGatewayTerminalStatus, ProviderRoutingGateway, DeadlineBudget, ValidationProfileView,
  ResponseValidator, Environment, ProviderRoutingValidationFacts,
}
use chunsik_bot.Routing.Gateway.Checks.{validate_plan_shape, binding_failure, targets}
use chunsik_bot.Routing.Gateway.Execution.{ExecutionState, finish, with_machine, nanoseconds}
use chunsik_bot.Routing.Gateway.Hops.{stop, again}
use chunsik_bot.Routing.Gateway.Loop.{round}

abbrev mismatch : ProviderGatewayFailureCode
mismatch = binding ProviderBindingFailureCode.routing_configuration_mismatch

abbrev pub Preflight : Type 0 → Type 0
Preflight = Result ProviderGatewayFailureCode

abbrev pub absent : Option ProviderBindingFailureCode → Preflight (Unit {0})
absent none = ok tt
absent (some code) = err (binding code)

abbrev given : {A : Type 0} → Option A → ProviderGatewayFailureCode → Preflight A
given none code = err code
given (some a) code = ok a

-- The loop over the targets, to the first failure.
unfoldable pub check_bindings :
    ProviderBindingRegistry → List ProviderExecutionTarget → Preflight (Unit {0})
check_bindings registry [] = ok tt
check_bindings registry (target ∷ rest) = do
  absent (binding_failure registry target)
  check_bindings registry rest

abbrev pub budget_valid : DeadlineBudget → Bool
budget_valid budget =
    ltb 0 budget.overall_budget_ms
    && ltb 0 budget.validation_reserve_ms
    && ltb 0 budget.minimum_attempt_budget_ms
    && leb (budget.validation_reserve_ms + budget.minimum_attempt_budget_ms)
        budget.overall_budget_ms

-- Every check before the first attempt; each failure ends the execution as CONFIGURATION_FAILED.
unfoldable pub preflight :
    Platform
    → ProviderRoutingGateway
    → ProviderExecutionPlan
    → AiRequest
    → Preflight (ValidationProfileView × DeadlineBudget)
preflight platform gateway plan request = do
  absent (validate_plan_shape platform plan request)
  require
      (is_version gateway.deadline_version
        && plan.registry_version == gateway.bindings.registry_version
        && plan.registry_configuration_digest == gateway.bindings.registry_configuration_digest)
      mismatch
  profile ←
      given (gateway.resolve_profile plan.validation_profile)
        (routing RoutingFailureCode.unknown_validation_profile)
  require
      (profile.version == plan.validation_profile_version
        && profile.configuration_digest == plan.validation_profile_configuration_digest)
      mismatch
  check_bindings gateway.bindings (targets plan)
  budget ← given (gateway.resolve_deadline plan.deadline_class) mismatch
  require (budget_valid budget) mismatch
  ok (profile, budget)

unfoldable pub start_state : ExecutionState
start_state = record {
  machine = new_machine;
  attempts = [];
  path = primary_only;
  final_target = none;
  calls = [];
}

abbrev answer_with :
    {W : Type 0}
    → ExecutionState
    → W
    → Option ProviderGatewayResult
    → Option (ProviderGatewayResult × ExecutionState × W)
answer_with st w none = none
answer_with st w (some result) = some (result, st, w)

module _ (platform : Platform) (gateway : ProviderRoutingGateway) (validator : ResponseValidator)
    (plan : ProviderExecutionPlan) (request : AiRequest)
    (facts : Option ProviderRoutingValidationFacts) {W : Type 0} (env : Environment W) where
  -- The loop, on fuel: `none` is an error that is thrown, or that the fuel is used up.
  unfoldable pub loop :
      ℕ
      → ValidationProfileView
      → DeadlineBudget
      → ℕ
      → ProviderExecutionTarget
      → ExecutionState
      → W
      → Option (ProviderGatewayResult × ExecutionState × W)
  loop zero profile budget deadline_at target st w = none
  loop (suc fuel) profile budget deadline_at target st w =
      elim (ltb (length st.attempts) max_provider_attempts) [
        | false ↦ answer_with st w (
            finish gateway plan st ProviderGatewayTerminalStatus.execution_failed
              (some (routing RoutingFailureCode.provider_execution_failed)) none)
        | true ↦
            elim (round gateway validator plan request facts env profile budget deadline_at target
              st w) [
                | none ↦ none
                | some (stop result next w1) ↦ some (result, next, w1)
                | some (again other next w1) ↦ loop fuel profile budget deadline_at other next w1
              ]
      ]

  unfoldable pub execute : W → Option (ProviderGatewayResult × ExecutionState × W)
  unfolding start_state
  execute w = elim (preflight platform gateway plan request) [
    | err code ↦ answer_with start_state w (
        finish gateway plan start_state ProviderGatewayTerminalStatus.configuration_failed
          (some code) none)
    | ok (profile, budget) ↦
        let (now, w1) = env.now w in
        let deadline_at = now + nanoseconds budget.overall_budget_ms in
        elim (transition start_state.machine RoutingExecutionState.primary_ready
          "PREFLIGHT_PASSED") [
            | none ↦ none
            | some machine ↦
                loop 3 profile budget deadline_at plan.primary_target
                  (with_machine start_state machine) w1
          ]
  ]
