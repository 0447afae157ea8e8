-- ===== src/Routing/Gateway/Correct.antt =====
-- provider-routing-gateway.ts: `execute` as a whole.
use chunsik_bot.Base.{
  ℕ, suc, ◌≤◌, ◌≡◌, refl, sym, ap, ◌∙◌, subst, ◌≢◌, true, Option, none, some, arith, length, ltb,
}
use chunsik_bot.Base.Result.{Result, ok, err}
use chunsik_bot.Base.Platform.{Platform}
use chunsik_bot.Routing.Machine.{RoutingExecutionState, RoutingExecutionState-discrete, allowed}
use chunsik_bot.Routing.Machine.Bounds.{IsTrail, IsAt, new_machine-IsAt, transition-IsAt}
use chunsik_bot.Routing.Plan.{
  ProviderExecutionPlan, ProviderExecutionTarget, ExecutionTargetPurpose, purpose_eq,
}
use chunsik_bot.Routing.Gateway.{
  AiRequest, ProviderGatewayResult, ProviderGatewayTerminalStatus, ProviderGatewayFailureCode,
  ProviderRoutingGateway, DeadlineBudget, ValidationProfileView, ResponseValidator, Environment,
  ProviderRoutingValidationFacts,
}
use chunsik_bot.Routing.Gateway.Execution.{ExecutionState, with_machine}
use chunsik_bot.Routing.Gateway.Hops.{Round, stop, again}
use chunsik_bot.Routing.Gateway.Loop.{round}
use chunsik_bot.Routing.Gateway.Run.{preflight, loop, execute, start_state}
use chunsik_bot.Routing.Gateway.Total.{IsSettled, finish-settles, ready_state}
use chunsik_bot.Routing.Gateway.Rounds.{Tally, HasPurposes, RoundHolds, Validity, Accepts}
use chunsik_bot.Routing.Gateway.Answers.{ProjectsAccepted, IsValidated, round-holds}
use chunsik_bot.Routing.Gateway.Purposes.{preflight-HasPurposes}

abbrev pub OutcomeHolds :
    {W : Type 0} → Validity → Option (ProviderGatewayResult × ExecutionState × W) → Type 0
OutcomeHolds Valid none = ⊥
OutcomeHolds Valid (some (r, st, w)) =
    IsSettled r st × ((k : ℕ) × (k ≤ 2) × Tally k st) × Accepts Valid r st

module _ (platform : Platform) (gateway : ProviderRoutingGateway) (validator : ResponseValidator)
    (plan : ProviderExecutionPlan) (request : AiRequest)
    (facts : Option ProviderRoutingValidationFacts) {W : Type 0} (env : Environment W)
    (projects : ProjectsAccepted validator) where
  -- The second round is not of the primary target, and ends the execution.
  second-holds :
      HasPurposes plan
      → (fuel : ℕ) (profile : ValidationProfileView) (budget : DeadlineBudget) (deadline_at : ℕ)
        (target : ProviderExecutionTarget) (st : ExecutionState) (w : W)
      → IsAt (ready_state target.purpose) st.machine
      → Tally 1 st
      → target.purpose ≢ ExecutionTargetPurpose.primary
      → OutcomeHolds (IsValidated validator plan request facts env) (
          loop platform gateway validator plan request facts env
            (suc fuel)
            profile
            budget
            deadline_at
            target
            st
            w)
  unfolding loop
  second-holds purposes fuel profile budget deadline_at target st w v tally later =
      helper (round gateway validator plan request facts env profile budget deadline_at target st w)
        refl
        (round-holds gateway validator plan request facts env purposes projects 1 profile budget
          deadline_at target st w v tally)
    where
      room : ltb (length st.attempts) 2 ≡ true
      room = ap (λ k. ltb k 2) tally.0

      helper :
          (outcome : Option (Round W))
          → round gateway validator plan request facts env profile budget deadline_at target st w
            ≡ outcome
          → RoundHolds (IsValidated validator plan request facts env) 2 target.purpose outcome
          → OutcomeHolds (IsValidated validator plan request facts env) (
              loop platform gateway validator plan request facts env
                (suc fuel)
                profile
                budget
                deadline_at
                target
                st
                w)
      helper none e h = absurd h
      helper (some (stop r next w1)) e h = rw (room, e, loop) h
      helper (some (again other next w1)) e (ready, counted, other_later, first) =
          absurd (later first)

  first-holds :
      HasPurposes plan
      → (fuel : ℕ) (profile : ValidationProfileView) (budget : DeadlineBudget) (deadline_at : ℕ)
        (target : ProviderExecutionTarget) (st : ExecutionState) (w : W)
      → IsAt (ready_state target.purpose) st.machine
      → Tally 0 st
      → OutcomeHolds (IsValidated validator plan request facts env) (
          loop platform gateway validator plan request facts env
            (suc (suc fuel))
            profile
            budget
            deadline_at
            target
            st
            w)
  unfolding loop
  first-holds purposes fuel profile budget deadline_at target st w v tally =
      helper (round gateway validator plan request facts env profile budget deadline_at target st w)
        refl
        (round-holds gateway validator plan request facts env purposes projects 0 profile budget
          deadline_at target st w v tally)
    where
      room : ltb (length st.attempts) 2 ≡ true
      room = ap (λ k. ltb k 2) tally.0

      helper :
          (outcome : Option (Round W))
          → round gateway validator plan request facts env profile budget deadline_at target st w
            ≡ outcome
          → RoundHolds (IsValidated validator plan request facts env) 1 target.purpose outcome
          → OutcomeHolds (IsValidated validator plan request facts env) (
              loop platform gateway validator plan request facts env
                (suc (suc fuel))
                profile
                budget
                deadline_at
                target
                st
                w)
      helper none e h = absurd h
      helper (some (stop r next w1)) e (settled, (k, bound, counted), accepts) =
          rw (room, e, loop) (settled, (k, omega arith, counted), accepts)
      helper (some (again other next w1)) e (ready, counted, other_later, first) =
          rw (room, e, loop)
            (second-holds purposes fuel profile budget deadline_at other next w1 ready counted
              other_later)

  start-IsAt : IsAt RoutingExecutionState.initial start_state.machine
  unfolding start_state
  start-IsAt = new_machine-IsAt

  execute-holds :
      (w : W)
      → OutcomeHolds
          (IsValidated validator plan request facts env)
          (execute platform gateway validator plan request facts env w)
  unfolding execute start_state allowed RoutingExecutionState-discrete
  execute-holds w = helper (preflight platform gateway plan request) refl
    where
      helper :
          (checked : Result ProviderGatewayFailureCode (ValidationProfileView × DeadlineBudget))
          → preflight platform gateway plan request ≡ checked
          → OutcomeHolds
              (IsValidated validator plan request facts env)
              (execute platform gateway validator plan request facts env w)
      helper (err code) e =
          let (r, done, settled, status_is, output_is) =
            finish-settles gateway plan start_state RoutingExecutionState.initial
              ProviderGatewayTerminalStatus.configuration_failed (some code) none start-IsAt in
          rw (e, done, execute)
            (settled, (0, omega arith, (refl, refl)), λ a. absurd (apart (sym status_is ∙ a)))
        where
          apart :
              ProviderGatewayTerminalStatus.configuration_failed
                ≡ ProviderGatewayTerminalStatus.accepted
              → ⊥
          apart h = cc
      helper (ok (profile, budget)) e =
          let (machine, made, ready) =
            transition-IsAt start_state.machine RoutingExecutionState.initial
              RoutingExecutionState.primary_ready "PREFLIGHT_PASSED" start-IsAt refl in
          let purposes = preflight-HasPurposes platform gateway plan request (profile, budget) e in
          rw (e, made, execute)
            (first-holds purposes 1 profile budget _ plan.primary_target
              (with_machine start_state machine) _ (rw (ap ready_state purposes.first) ready)
              (refl, refl))

-- What an execution promises of its result and of the requests that it sent to providers.
pub record IsBounded (Valid : Validity) (r : ProviderGatewayResult) (st : ExecutionState)
    : Type 0 where
  pub trail :
      IsTrail 0 RoutingExecutionState.initial r.audit.transitions RoutingExecutionState.terminal
  pub bounded : r.audit.attempt_count ≤ 2
  pub complete : length r.audit.attempts ≡ r.audit.attempt_count
  pub called : length st.calls ≡ r.audit.attempt_count
  pub accepts : r.status ≡ ProviderGatewayTerminalStatus.accepted → Valid st.calls r.output

-- For every plan, request, clock and provider, with answers and errors as they like: `execute` throws
-- nothing and its loop ends. Its audit has a connected trail of transitions from INITIAL to TERMINAL and
-- an entry for every request that was sent to a provider, of which there are at most two. The status is
-- ACCEPTED only with an output, and this is the projection of an answer that a provider replied to the
-- last request that was sent, and that the validator, given the request's prompt and the plan's profile,
-- accepts without a reason against it. The validator is assumed to project what it accepts.
pub execute-IsBounded :
    (platform : Platform) (gateway : ProviderRoutingGateway) (validator : ResponseValidator)
    (plan : ProviderExecutionPlan) (request : AiRequest)
    (facts : Option ProviderRoutingValidationFacts) {W : Type 0} (env : Environment W) (w : W)
    → ProjectsAccepted validator
    → (r : ProviderGatewayResult) × (st : ExecutionState) × (last : W) × (execute platform gateway
          validator plan request facts env w
        ≡ some (r, st, last))
      × IsBounded (IsValidated validator plan request facts env) r st
execute-IsBounded platform gateway validator plan request facts {W} env w projects =
    helper (execute platform gateway validator plan request facts env w) refl
      (execute-holds platform gateway validator plan request facts env projects w)
  where
    helper :
        (outcome : Option (ProviderGatewayResult × ExecutionState × W))
        → execute platform gateway validator plan request facts env w ≡ outcome
        → OutcomeHolds (IsValidated validator plan request facts env) outcome
        → (r : ProviderGatewayResult) × (st : ExecutionState) × (last : W) × (execute platform
              gateway validator plan request facts env w
            ≡ some (r, st, last))
          × IsBounded (IsValidated validator plan request facts env) r st
    helper none e h = absurd h
    helper (some (r, st, last)) e (settled, (k, bound, (attempts, calls)), accepts) = (
      r,
      st,
      last,
      e,
      record {
        trail = settled.trail;
        bounded = subst (λ n. n ≤ 2) (sym attempts ∙ sym settled.counted) bound;
        complete = ap length settled.attempts ∙ sym settled.counted;
        called = calls ∙ sym attempts ∙ sym settled.counted;
        accepts = accepts;
      },
    )
