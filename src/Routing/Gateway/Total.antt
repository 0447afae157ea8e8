-- ===== src/Routing/Gateway/Total.antt =====
-- provider-routing-gateway.ts: `finish` and `runAttempt` on a machine in an expected state.
use chunsik_bot.Base.{
  ℕ, ◌+◌, ◌-◌, ◌/◌, String, ◌≡◌, refl, sym, ◌∙◌, subst, ◌≢◌, inl, inr, Bool, true, false, Option,
  none, some, List, [], ◌∷◌, ◌++◌, arith, length, length-append, ltb, ◌==◌, eq_of_beq, ne_of_beq,
  Bool-cases, Option-cases, contains, if◌then◌else◌,
}
use chunsik_bot.Routing.Failure.Laws.{failure_policy-total}
use chunsik_bot.Routing.Machine.{
  RoutingExecutionState, RoutingExecutionState-discrete, RoutingExecutionStateMachine, initial,
  terminal, allowed, state_eq,
}
use chunsik_bot.Routing.Machine.Bounds.{IsTrail, IsAt, transition-IsAt}
use chunsik_bot.Routing.Plan.{
  ProviderExecutionPlan, ProviderExecutionTarget, ExecutionTargetPurpose, purpose_eq,
}
use chunsik_bot.Routing.Contracts.{ProviderId}
use chunsik_bot.Routing.Gateway.{
  AiExecutionResult, ai_error, replied, AiRequest, BoundedProviderOutput, ProviderGatewayResult,
  ProviderGatewayFailureCode, routing, binding, ProviderGatewayTerminalStatus,
  ProviderRoutingGateway, DeadlineBudget, Environment, ProviderReply, replied, ai_error,
  other_error,
}
use chunsik_bot.Routing.Gateway.Checks.{
  human_review, is_binding_code, needs_review, binding_failure,
}
use chunsik_bot.Routing.Gateway.Execution.{
  caught, after_reply, ExecutionState, finish, end_machine, audit_of, cause_of, AttemptResult,
  ended, answered, failed, run_attempt, executing_state, validating_state, with_target, ended_in,
  with_timeout, effective_timeout, after_reply, caught, nanoseconds,
}

-- The audit of a machine that has ended.
abbrev pub Ends : ProviderGatewayResult → Type 0
Ends r = IsTrail 0 initial r.audit.transitions terminal

-- What is proved of a result, with the state at its end.
pub record IsSettled (r : ProviderGatewayResult) (st : ExecutionState) : Type 0 where
  pub trail : Ends r
  pub attempts : r.audit.attempts ≡ st.attempts
  pub counted : r.audit.attempt_count ≡ length st.attempts

to_terminal : (s : RoutingExecutionState) → s ≢ terminal → contains (allowed s) terminal ≡ true
unfolding allowed RoutingExecutionState-discrete
to_terminal s n = ground arith

end_machine-ends :
    (m : RoutingExecutionStateMachine) (s : RoutingExecutionState) (cause : String)
    → IsAt s m
    → (next : RoutingExecutionStateMachine) × (end_machine m cause ≡ some next) × IsAt terminal next
unfolding end_machine
end_machine-ends m s cause v = elim (Bool-cases (m.current_state == terminal)) [
  | inl there ↦ (
    m,
    rw (there, end_machine) refl,
    record { sound = v.sound; state = eq_of_beq m.current_state terminal there },
  )
  | inr elsewhere ↦
      let (next, made, at_end) =
        transition-IsAt m s terminal cause v
          (to_terminal s (λ e. ne_of_beq m.current_state terminal elsewhere (v.state ∙ e))) in
      (next, rw (elsewhere, end_machine) made, at_end)
]

human_review-total :
    (status : ProviderGatewayTerminalStatus) (code : Option ProviderGatewayFailureCode)
    → (review : Bool) × (human_review status code ≡ some review)
unfolding human_review
human_review-total status none = (_, refl)
human_review-total status (some (binding code)) = (_, refl)
human_review-total status (some (routing code)) =
    let (policy, known, same) = failure_policy-total code in
    rw (known, human_review)
      (pick (needs_review status) (is_binding_code (routing code)) policy.human_review_candidate)
  where
    pick :
        (a b c : Bool)
        → (review : Bool) × ((if a then some true else if b then some false else some c)
            ≡ some review)
    pick true b c = (true, refl)
    pick false true c = (false, refl)
    pick false false c = (c, refl)

pub finish-settles :
    (gateway : ProviderRoutingGateway) (plan : ProviderExecutionPlan) (st : ExecutionState)
    (s : RoutingExecutionState) (status : ProviderGatewayTerminalStatus)
    (code : Option ProviderGatewayFailureCode) (output : Option BoundedProviderOutput)
    → IsAt s st.machine
    → (r : ProviderGatewayResult) × (finish gateway plan st status code output ≡ some r)
      × IsSettled r st
      × (r.status ≡ status)
      × (r.output ≡ output)
unfolding finish audit_of
finish-settles gateway plan st s status code output v =
    let (machine, made, at_end) = end_machine-ends st.machine s (cause_of code) v in
    let (review, known) = human_review-total status code in
    (
      record {
        status = status;
        failure_code = code;
        human_review_required = review;
        output = output;
        audit = audit_of gateway plan st machine status code output;
      },
      rw (made, known, finish) refl,
      record {
        trail = subst (IsTrail 0 initial machine.records) at_end.state at_end.sound.trail;
        attempts = refl;
        counted = refl;
      },
      refl,
      refl,
    )

abbrev pub ready_state : ExecutionTargetPurpose → RoutingExecutionState
ready_state ExecutionTargetPurpose.primary = RoutingExecutionState.primary_ready
ready_state ExecutionTargetPurpose.fallback = RoutingExecutionState.fallback_ready
ready_state ExecutionTargetPurpose.escalation = RoutingExecutionState.escalation_ready

-- One call more, and no attempt more yet.
abbrev pub CalledOnce : ExecutionState → ExecutionState → Type 0
CalledOnce st next = (next.attempts ≡ st.attempts) × (length next.calls ≡ length st.calls + 1)

-- A provider's answer to the last of the requests that were sent, which is the request of the caller
-- with a time limit: what the provider replies to it in some state of the world.
pub record IsAnswer {W : Type 0} (env : Environment W) (request : AiRequest)
    (calls : List (ProviderId × AiRequest)) (result : AiExecutionResult) : Type 0 where
  pub before : List (ProviderId × AiRequest)
  pub id : ProviderId
  pub sent : AiRequest
  pub last : calls ≡ before ++ (id, sent) ∷ []
  pub asks : sent ≡ record request { timeout_ms = sent.timeout_ms }
  pub sent_in : W
  pub after : W
  pub reply : env.call id sent sent_in ≡ (replied result, after)

abbrev pub AttemptHolds :
    {W : Type 0}
    → Environment W
    → AiRequest
    → ExecutionTargetPurpose
    → ExecutionState
    → Option (AttemptResult × ExecutionState × W)
    → Type 0
AttemptHolds env request purpose st none = ⊥
AttemptHolds env request purpose st (some (ended r, next, w)) =
    IsSettled r next
    × (next.attempts ≡ st.attempts)
    × (next.calls ≡ st.calls)
    × (r.status ≢ ProviderGatewayTerminalStatus.accepted)
AttemptHolds env request purpose st (some (answered result budget duration, next, w)) =
    IsAt (validating_state purpose) next.machine
    × CalledOnce st next
    × IsAnswer env request next.calls result
AttemptHolds env request purpose st (some (failed code budget duration, next, w)) =
    IsAt (executing_state purpose) next.machine × CalledOnce st next

length-snoc : {A : Type 0} (xs : List A) (x : A) → length (xs ++ x ∷ []) ≡ length xs + 1
length-snoc xs x = length-append xs (x ∷ [])

executing-ready :
    (p : ExecutionTargetPurpose) → contains (allowed (ready_state p)) (executing_state p) ≡ true
unfolding allowed RoutingExecutionState-discrete
executing-ready ExecutionTargetPurpose.primary = refl
executing-ready ExecutionTargetPurpose.fallback = refl
executing-ready ExecutionTargetPurpose.escalation = refl

validating-executing :
    (p : ExecutionTargetPurpose)
    → contains (allowed (executing_state p)) (validating_state p) ≡ true
unfolding allowed RoutingExecutionState-discrete
validating-executing ExecutionTargetPurpose.primary = refl
validating-executing ExecutionTargetPurpose.fallback = refl
validating-executing ExecutionTargetPurpose.escalation = refl

module _ (gateway : ProviderRoutingGateway) (plan : ProviderExecutionPlan) (request : AiRequest)
    {W : Type 0} (env : Environment W) where
  after_reply-holds :
      (target : ProviderExecutionTarget) (budget_ms started : ℕ) (st bound : ExecutionState)
      (reply : ProviderReply) (w : W)
      → IsAt (executing_state target.purpose) bound.machine
      → CalledOnce st bound
      → ((result : AiExecutionResult)
          → reply ≡ replied result
          → IsAnswer env request bound.calls result)
      → AttemptHolds env request target.purpose st
          (some (after_reply gateway plan request env target budget_ms started bound reply w))
  unfolding after_reply caught
  after_reply-holds target budget_ms started st bound (replied result) w v c known =
      let (next, made, at_validating) =
        transition-IsAt bound.machine (executing_state target.purpose)
          (validating_state target.purpose) "PROVIDER_RETURNED" v
          (validating-executing target.purpose) in
      rw (made, after_reply) (at_validating, c, known result refl)
  after_reply-holds target budget_ms started st bound (ai_error kind) w v c known = (v, c)
  after_reply-holds target budget_ms started st bound other_error w v c known = (v, c)

  ended-holds :
      (purpose : ExecutionTargetPurpose) (st bound : ExecutionState) (w : W)
      (status : ProviderGatewayTerminalStatus) (code : Option ProviderGatewayFailureCode)
      → IsAt (ready_state purpose) bound.machine
      → bound.attempts ≡ st.attempts
      → bound.calls ≡ st.calls
      → status ≢ ProviderGatewayTerminalStatus.accepted
      → AttemptHolds env request purpose st
          (ended_in bound w (finish gateway plan bound status code none))
  ended-holds purpose st bound w status code v a c n =
      let (r, done, settled, status_is, output_is) =
        finish-settles gateway plan bound (ready_state purpose) status code none v in
      rw done (settled, a, c, λ e. n (sym status_is ∙ e))

  pub run_attempt-holds :
      (budget : DeadlineBudget) (deadline_at : ℕ) (target : ProviderExecutionTarget)
      (st : ExecutionState) (w : W)
      → IsAt (ready_state target.purpose) st.machine
      → AttemptHolds env request target.purpose st
          (run_attempt gateway plan request env budget deadline_at target st w)
  unfolding run_attempt
  run_attempt-holds budget deadline_at target st w v =
      let budget_ms : ℕ =
        (deadline_at - (env.now w).0 - nanoseconds budget.validation_reserve_ms) / 1000000 in
      let sent : AiRequest =
        with_timeout request (effective_timeout request.timeout_ms budget_ms) in
      let sent_in : W = (env.now (env.now w).1).1 in
      elim (Bool-cases (ltb budget_ms budget.minimum_attempt_budget_ms)) [
        | inl late ↦
            rw (late, run_attempt)
              (ended-holds target.purpose st (with_target st target) _ _ _ v refl refl (λ e. cc))
        | inr in_time ↦ elim (Option-cases (binding_failure gateway.bindings target)) [
          | inr (code, unbound) ↦
              rw (in_time, unbound, run_attempt)
                (ended-holds target.purpose st (with_target st target) _ _ _ v refl refl (λ e. cc))
          | inl bound ↦
              let (machine, made, at_executing) =
                transition-IsAt st.machine (ready_state target.purpose)
                  (executing_state target.purpose) "ATTEMPT_DISPATCHED" v
                  (executing-ready target.purpose) in
              rw (in_time, bound, made, run_attempt)
                (after_reply-holds target _ _ st _ _ _ at_executing (refl, length-snoc st.calls _)
                  (λ result is. record {
                    before = st.calls;
                    id = target.provider_id;
                    sent = sent;
                    last = refl;
                    asks = refl;
                    sent_in = sent_in;
                    after = (env.call target.provider_id sent sent_in).1;
                    reply = λ i. (is i, (env.call target.provider_id sent sent_in).1);
                  }))
        ]
      ]
