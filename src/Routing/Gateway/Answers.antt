-- ===== src/Routing/Gateway/Answers.antt =====
-- provider-routing-gateway.ts: the part of a round that validates an answer.
use chunsik_bot.Base.{
  none_not_some, ◌↔◌, ℕ, ◌+◌, ◌≡◌, refl, sym, ap, ◌∙◌, inl, inr, Option, none, some, [], ◌∷◌, arith,
  length, length-append, leb, Bool-cases, Option-cases,
}
use chunsik_bot.Routing.Failure.{
  RoutingFailureCode, RoutingFailurePolicy, RuntimeValidationResult, accept,
  classify_validation_failure,
}
use chunsik_bot.Routing.Failure.Laws.{failure_policy-total, classify_validation_failure_lem}
use chunsik_bot.Routing.Machine.Bounds.{IsAt}
use chunsik_bot.Routing.Plan.{ProviderExecutionPlan, ProviderExecutionTarget}
use chunsik_bot.Routing.Gateway.{
  AiRequest, AiExecutionResult, BoundedProviderOutput, ProviderAttemptAudit, routing,
  ProviderGatewayTerminalStatus, ProviderRoutingGateway, DeadlineBudget, ValidationProfileView,
  ResponseValidator, Environment, ProviderRoutingValidationFacts, RuntimeValidationInputView,
}
use chunsik_bot.Routing.Gateway.Execution.{
  ExecutionState, AttemptResult, ended, answered, failed, run_attempt, validating_state,
  with_target,
}
use chunsik_bot.Routing.Gateway.Loop.{
  after_safety, after_answer, round, with_attempt, is_safety, validation_input, validation_audit,
  failure_audit,
}
use chunsik_bot.Routing.Gateway.Inputs.{IsAbout, validation_input-IsAbout}
use chunsik_bot.Routing.Gateway.Total.{
  ready_state, run_attempt-holds, CalledOnce, IsAnswer, AttemptHolds,
}
use chunsik_bot.Routing.Gateway.Rounds.{
  Tally, HasPurposes, RoundHolds, Validity, stop-holds, after_failure-holds, after_rejection-holds,
}

-- What the gateway relies on: an accepted response can be projected.
abbrev pub ProjectsAccepted : ResponseValidator → Type 0
ProjectsAccepted validator =
    (input : RuntimeValidationInputView)
    → (validator.validate input).disposition ≡ accept
    → (output : BoundedProviderOutput) × (validator.project input.result (validator.validate input)
        ≡ some output)

-- An output that is the projection of an answer to the last request that was sent, which the validator
-- accepts without a reason against.
abbrev pub IsValidated :
    {W : Type 0}
    → ResponseValidator
    → ProviderExecutionPlan
    → AiRequest
    → Option ProviderRoutingValidationFacts
    → Environment W
    → Validity
IsValidated validator plan request facts env calls output =
    (result : AiExecutionResult) × IsAnswer env request calls result
    × IsAbout plan request facts result (validation_input plan request facts result)
    × ((validator.validate (validation_input plan request facts result)).disposition ≡ accept)
    × ((validator.validate (validation_input plan request facts result)).reason_codes ≡ [])
    × (output
        ≡ validator.project result
            (validator.validate (validation_input plan request facts result)))
    × ((kept : BoundedProviderOutput) × (output ≡ some kept))

attempted :
    (n : ℕ) (st next : ExecutionState) (attempt : ProviderAttemptAudit)
    → Tally n st
    → CalledOnce st next
    → Tally (n + 1) (with_attempt next attempt)
attempted n st next attempt (a, c) (same, called) = (
  length-append next.attempts (attempt ∷ []) ∙ ap (λ xs. length xs + 1) same ∙ ap (λ k. k + 1) a,
  called ∙ ap (λ k. k + 1) c,
)

module _ (gateway : ProviderRoutingGateway) (validator : ResponseValidator)
    (plan : ProviderExecutionPlan) (request : AiRequest)
    (facts : Option ProviderRoutingValidationFacts) {W : Type 0} (env : Environment W)
    (purposes : HasPurposes plan) (projects : ProjectsAccepted validator) where
  late-holds :
      (n : ℕ) (profile : ValidationProfileView) (deadline_at : ℕ) (target : ProviderExecutionTarget)
      (result : AiExecutionResult) (validation : RuntimeValidationResult)
      (failure : Option (RoutingFailureCode × RoutingFailurePolicy)) (st : ExecutionState) (w : W)
      → IsAt (validating_state target.purpose) st.machine
      → Tally n st
      → (failure ≡ none
          → (output : BoundedProviderOutput) × (validator.project result validation ≡ some output)
            × IsValidated validator plan request facts env st.calls (some output))
      → RoundHolds (IsValidated validator plan request facts env) n target.purpose (
          after_safety gateway validator plan request facts env profile deadline_at target result
            validation failure st w)
  unfolding after_safety
  late-holds n profile deadline_at target result validation failure st w v tally good =
      elim (Bool-cases (leb deadline_at (env.now w).0)) [
        | inl late ↦
            rw (late, after_safety)
              (stop-holds gateway plan (IsValidated validator plan request facts env) n
                target.purpose st (validating_state target.purpose)
                ProviderGatewayTerminalStatus.execution_failed
                (some (routing RoutingFailureCode.deadline_exhausted)) none _ v tally (λ e. cc))
        | inr in_time ↦ elim (Option-cases failure) [
          | inl accepted ↦
              let (output, projected, validated) = good accepted in
              rw (in_time, accepted, projected, after_safety)
                (stop-holds gateway plan (IsValidated validator plan request facts env) n
                  target.purpose st (validating_state target.purpose)
                  ProviderGatewayTerminalStatus.accepted none (some output) _ v tally
                  (λ e. validated))
          | inr ((code, policy), rejected) ↦
              rw (in_time, rejected, after_safety)
                (after_rejection-holds gateway plan (IsValidated validator plan request facts env)
                  purposes n profile target validation code policy st _ v tally)
        ]
      ]

  after_answer-holds :
      (n : ℕ) (profile : ValidationProfileView) (deadline_at : ℕ) (target : ProviderExecutionTarget)
      (result : AiExecutionResult) (budget_ms duration : ℕ) (st next : ExecutionState) (w : W)
      → IsAt (validating_state target.purpose) next.machine
      → Tally n st
      → CalledOnce st next
      → IsAnswer env request next.calls result
      → RoundHolds (IsValidated validator plan request facts env) (n + 1) target.purpose (
          after_answer gateway validator plan request facts env profile deadline_at target result
            budget_ms duration next w)
  unfolding after_answer
  after_answer-holds n profile deadline_at target result budget_ms duration st next w v tally called
        replies =
      let (failure, known, none_iff, first) = classify_validation_failure_lem validation in
      helper failure known none_iff
    where
      validation : RuntimeValidationResult
      validation = validator.validate (validation_input plan request facts result)

      audit : Option RoutingFailureCode → ExecutionState
      audit failure =
          with_attempt next (validation_audit next target failure validation budget_ms duration)

      counted : (failure : Option RoutingFailureCode) → Tally (n + 1) (audit failure)
      counted failure =
          attempted n st next (validation_audit next target failure validation budget_ms duration)
            tally called

      helper :
          (failure : Option RoutingFailureCode)
          → classify_validation_failure validation ≡ some failure
          → ((failure ≡ none)
              ↔ ((validation.disposition ≡ accept) × (validation.reason_codes ≡ [])))
          → RoundHolds (IsValidated validator plan request facts env) (n + 1) target.purpose (
              after_answer gateway validator plan request facts env profile deadline_at target
                result budget_ms duration next w)
      helper none known none_iff =
          let (disposed, reasonless) = none_iff.0 refl in
          let (output, projected) =
            projects (validation_input plan request facts result) disposed in
          rw (known, after_answer)
            (late-holds (n + 1) profile deadline_at target result validation none (audit none) w v
              (counted none)
              (λ e. (
                output,
                projected,
                (
                  result,
                  replies,
                  validation_input-IsAbout plan request facts result,
                  disposed,
                  reasonless,
                  sym projected,
                  (output, refl),
                ),
              )))
      helper (some code) known none_iff =
          let (policy, row, same) = failure_policy-total code in
          elim (Bool-cases (is_safety policy)) [
            | inl unsafe ↦
                rw (known, row, unsafe, after_answer)
                  (stop-holds gateway plan (IsValidated validator plan request facts env) (n + 1)
                    target.purpose (audit (some code)) (validating_state target.purpose)
                    ProviderGatewayTerminalStatus.safety_blocked (some (routing code)) none w v
                    (counted (some code)) (λ e. cc))
            | inr safe ↦
                rw (known, row, safe, after_answer)
                  (late-holds (n + 1) profile deadline_at target result validation
                    (some (code, policy)) (audit (some code)) w v (counted (some code))
                    (λ e. absurd (none_not_some (sym e))))
          ]

  pub round-holds :
      (n : ℕ) (profile : ValidationProfileView) (budget : DeadlineBudget) (deadline_at : ℕ)
      (target : ProviderExecutionTarget) (st : ExecutionState) (w : W)
      → IsAt (ready_state target.purpose) st.machine
      → Tally n st
      → RoundHolds
          (IsValidated validator plan request facts env)
          (n + 1)
          target.purpose
          (round gateway validator plan request facts env profile budget deadline_at target st w)
  unfolding round
  round-holds n profile budget deadline_at target st w v tally =
      helper
        (run_attempt gateway plan request env budget deadline_at target (with_target st target) w)
        refl
        (run_attempt-holds gateway plan request env budget deadline_at target
          (with_target st target) w v)
    where
      helper :
          (attempt : Option (AttemptResult × ExecutionState × W))
          → run_attempt gateway plan request env budget deadline_at target (with_target st target) w
            ≡ attempt
          → AttemptHolds env request target.purpose (with_target st target) attempt
          → RoundHolds (IsValidated validator plan request facts env) (n + 1) target.purpose (
              round gateway validator plan request facts env profile budget deadline_at target st w)
      helper none e h = absurd h
      helper (some (ended r, next, w1)) e (settled, same, uncalled, unaccepted) =
          rw (e, round)
            (
              settled,
              (n, omega arith, (ap length same ∙ tally.0, ap length uncalled ∙ tally.1)),
              λ a. absurd (unaccepted a),
            )
      helper (some (answered result budget_ms duration, next, w1)) e
            (at_validating, called, replies) =
          rw (e, round)
            (after_answer-holds n profile deadline_at target result budget_ms duration
              (with_target st target) next w1 at_validating tally called replies)
      helper (some (failed code budget_ms duration, next, w1)) e (at_executing, called) =
          rw (e, round)
            (after_failure-holds gateway plan (IsValidated validator plan request facts env)
              purposes (n + 1) target code
              (with_attempt next (failure_audit next target code budget_ms duration)) w1
              at_executing
              (attempted n (with_target st target) next
                (failure_audit next target code budget_ms duration) tally called))
