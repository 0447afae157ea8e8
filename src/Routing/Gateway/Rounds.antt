-- ===== src/Routing/Gateway/Rounds.antt =====
-- provider-routing-gateway.ts: the ways in which one round of the loop of `execute` goes on.
use chunsik_bot.Base.{
  ℕ, ◌≤◌, ◌≡◌, sym, ap, ◌∙◌, subst, ◌≢◌, inl, inr, Bool, true, ◌&&◌, Option, none, some, List,
  arith, length, Option-cases, contains,
}
use chunsik_bot.Routing.Failure.{
  RoutingFailureCode, RoutingFailurePolicy, RuntimeValidationResult, failure_class_eq,
}
use chunsik_bot.Routing.Failure.Laws.{failure_policy-total}
use chunsik_bot.Routing.Machine.{RoutingExecutionState, allowed, state_eq}
use chunsik_bot.Routing.Machine.Bounds.{IsAt, transition-IsAt}
use chunsik_bot.Routing.Plan.{
  ProviderExecutionPlan, ProviderExecutionTarget, ExecutionTargetPurpose, purpose_eq,
}
use chunsik_bot.Routing.Contracts.{ProviderId}
use chunsik_bot.Routing.Gateway.{
  AiRequest, BoundedProviderOutput, ProviderExecutionPath, fallback_path, escalation_path,
  ProviderGatewayResult, ProviderGatewayFailureCode, routing, ProviderGatewayTerminalStatus,
  ProviderRoutingGateway, ValidationProfileView,
}
use chunsik_bot.Routing.Gateway.Checks.{failure_code_name}
use chunsik_bot.Routing.Gateway.Execution.{
  ExecutionState, finish, executing_state, validating_state,
}
use chunsik_bot.Routing.Gateway.Hops.{
  is_escalate, Round, stop, again, stop_with, finish_failed, after_failure, after_rejection,
  take_path, hop, unresolved_of,
}
use chunsik_bot.Routing.Gateway.Total.{IsSettled, finish-settles, ready_state}
use chunsik_bot.Routing.Gateway.Moves.{
  hop-some, terminal_status-total, executing-fallback, validating-fallback, validating-escalation,
}

-- As many calls as attempts.
abbrev pub Tally : ℕ → ExecutionState → Type 0
Tally n st = (length st.attempts ≡ n) × (length st.calls ≡ n)

-- The purposes of a plan's targets.
pub record HasPurposes (plan : ProviderExecutionPlan) : Type 0 where
  pub first : plan.primary_target.purpose ≡ ExecutionTargetPurpose.primary
  pub fallbacks :
      (t : ProviderExecutionTarget)
      → plan.operational_fallback ≡ some t
      → t.purpose ≡ ExecutionTargetPurpose.fallback
  pub escalations :
      (t : ProviderExecutionTarget)
      → plan.semantic_escalation ≡ some t
      → t.purpose ≡ ExecutionTargetPurpose.escalation

-- Of which outputs a result is valid, by the requests that were sent to providers.
abbrev pub Validity : Type 1
Validity = List (ProviderId × AiRequest) → Option BoundedProviderOutput → Type 0

-- An accepted result has an output that is valid.
abbrev pub Accepts : Validity → ProviderGatewayResult → ExecutionState → Type 0
Accepts Valid r st = r.status ≡ ProviderGatewayTerminalStatus.accepted → Valid st.calls r.output

abbrev pub RoundHolds :
    {W : Type 0} → Validity → ℕ → ExecutionTargetPurpose → Option (Round W) → Type 0
RoundHolds Valid n purpose none = ⊥
RoundHolds Valid n purpose (some (stop r next w)) =
    IsSettled r next × ((k : ℕ) × (k ≤ n) × Tally k next) × Accepts Valid r next
RoundHolds Valid n purpose (some (again t next w)) =
    IsAt (ready_state t.purpose) next.machine
    × Tally n next
    × (t.purpose ≢ ExecutionTargetPurpose.primary)
    × (purpose ≡ ExecutionTargetPurpose.primary)

module _ (gateway : ProviderRoutingGateway) (plan : ProviderExecutionPlan) {W : Type 0}
    (Valid : Validity) where
  pub stop-holds :
      (n : ℕ) (purpose : ExecutionTargetPurpose) (st : ExecutionState) (s : RoutingExecutionState)
      (status : ProviderGatewayTerminalStatus) (code : Option ProviderGatewayFailureCode)
      (output : Option BoundedProviderOutput) (w : W)
      → IsAt s st.machine
      → Tally n st
      → (status ≡ ProviderGatewayTerminalStatus.accepted → Valid st.calls output)
      → RoundHolds Valid n purpose (stop_with st w (finish gateway plan st status code output))
  stop-holds n purpose st s status code output w v tally good =
      let (r, done, settled, status_is, output_is) =
        finish-settles gateway plan st s status code output v in
      rw done (
        settled,
        (n, omega arith, tally),
        λ e. subst (Valid st.calls) (sym output_is) (good (sym status_is ∙ e)),
      )

  failed-holds :
      (n : ℕ) (purpose : ExecutionTargetPurpose) (st : ExecutionState) (s : RoutingExecutionState)
      (code : RoutingFailureCode) (w : W)
      → IsAt s st.machine
      → Tally n st
      → RoundHolds Valid n purpose (stop_with st w (finish_failed gateway plan st code))
  unfolding finish_failed
  failed-holds n purpose st s code w v tally =
      let (status, known, unaccepted) = terminal_status-total code in
      rw (known, finish_failed)
        (stop-holds n purpose st s status (some (routing code)) none w v tally
          (λ e. absurd (unaccepted e)))

  take_path-holds :
      (n : ℕ) (purpose : ExecutionTargetPurpose) (st : ExecutionState)
      (path : ProviderExecutionPath) (s : RoutingExecutionState) (code : RoutingFailureCode)
      (t : ProviderExecutionTarget) (w : W)
      → IsAt s st.machine
      → contains (allowed s) (ready_state t.purpose) ≡ true
      → Tally n st
      → t.purpose ≢ ExecutionTargetPurpose.primary
      → purpose ≡ ExecutionTargetPurpose.primary
      → RoundHolds Valid n purpose (take_path st path (ready_state t.purpose) code t w)
  take_path-holds n purpose st path s code t w v edge tally later first =
      let (machine, made, ready) =
        transition-IsAt st.machine s (ready_state t.purpose) (failure_code_name code) v edge in
      rw (made, take_path, RoundHolds) (ready, tally, later, first)

  module _ (purposes : HasPurposes plan) where
    fall_back-holds :
        (n : ℕ) (purpose : ExecutionTargetPurpose) (st : ExecutionState) (s : RoutingExecutionState)
        (code : RoutingFailureCode) (t : ProviderExecutionTarget) (w : W)
        → IsAt s st.machine
        → contains (allowed s) RoutingExecutionState.fallback_ready ≡ true
        → Tally n st
        → plan.operational_fallback ≡ some t
        → purpose ≡ ExecutionTargetPurpose.primary
        → RoundHolds Valid n purpose
            (take_path st fallback_path RoutingExecutionState.fallback_ready code t w)
    fall_back-holds n purpose st s code t w v edge tally found first =
        let same : t.purpose ≡ ExecutionTargetPurpose.fallback = purposes.fallbacks t found in
        let ready : ready_state t.purpose ≡ RoutingExecutionState.fallback_ready =
          ap ready_state same in
        subst (λ r. RoundHolds Valid n purpose (take_path st fallback_path r code t w)) ready
          (take_path-holds n purpose st fallback_path s code t w v (rw ready edge) tally
            (λ e. apart (sym same ∙ e)) first)
      where
        apart : ExecutionTargetPurpose.fallback ≡ ExecutionTargetPurpose.primary → ⊥
        apart e = cc

    escalate-holds :
        (n : ℕ) (purpose : ExecutionTargetPurpose) (st : ExecutionState) (s : RoutingExecutionState)
        (code : RoutingFailureCode) (t : ProviderExecutionTarget) (w : W)
        → IsAt s st.machine
        → contains (allowed s) RoutingExecutionState.escalation_ready ≡ true
        → Tally n st
        → plan.semantic_escalation ≡ some t
        → purpose ≡ ExecutionTargetPurpose.primary
        → RoundHolds Valid n purpose
            (take_path st escalation_path RoutingExecutionState.escalation_ready code t w)
    escalate-holds n purpose st s code t w v edge tally found first =
        let same : t.purpose ≡ ExecutionTargetPurpose.escalation = purposes.escalations t found in
        let ready : ready_state t.purpose ≡ RoutingExecutionState.escalation_ready =
          ap ready_state same in
        subst (λ r. RoundHolds Valid n purpose (take_path st escalation_path r code t w)) ready
          (take_path-holds n purpose st escalation_path s code t w v (rw ready edge) tally
            (λ e. apart (sym same ∙ e)) first)
      where
        apart : ExecutionTargetPurpose.escalation ≡ ExecutionTargetPurpose.primary → ⊥
        apart e = cc

    pub after_failure-holds :
        (n : ℕ) (target : ProviderExecutionTarget) (code : RoutingFailureCode) (st : ExecutionState)
        (w : W)
        → IsAt (executing_state target.purpose) st.machine
        → Tally n st
        → RoundHolds Valid n target.purpose (after_failure gateway plan target code st w)
    unfolding after_failure
    after_failure-holds n target code st w v tally =
        let (policy, known, same) = failure_policy-total code in
        elim (Option-cases (hop policy.fallback_allowed target plan.operational_fallback st)) [
          | inl stay ↦
              rw (known, stay, after_failure)
                (failed-holds n target.purpose st (executing_state target.purpose) code w v tally)
          | inr (t, go) ↦
              let (first, found) =
                hop-some policy.fallback_allowed target t plan.operational_fallback st go in
              rw (known, go, after_failure)
                (fall_back-holds n target.purpose st (executing_state target.purpose) code t w v
                  (edge first) tally found first)
        ]
      where
        edge :
            target.purpose ≡ ExecutionTargetPurpose.primary
            → contains
                (allowed (executing_state target.purpose))
                RoutingExecutionState.fallback_ready
              ≡ true
        edge first = rw first executing-fallback

    pub after_rejection-holds :
        (n : ℕ) (profile : ValidationProfileView) (target : ProviderExecutionTarget)
        (validation : RuntimeValidationResult) (code : RoutingFailureCode)
        (policy : RoutingFailurePolicy) (st : ExecutionState) (w : W)
        → IsAt (validating_state target.purpose) st.machine
        → Tally n st
        → RoundHolds Valid n target.purpose
            (after_rejection gateway plan profile target validation code policy st w)
    unfolding after_rejection
    after_rejection-holds n profile target validation code policy st w v tally =
        elim (Option-cases (hop policy.fallback_allowed target plan.operational_fallback st)) [
          | inr (t, go) ↦
              let (first, found) =
                hop-some policy.fallback_allowed target t plan.operational_fallback st go in
              rw (go, after_rejection)
                (fall_back-holds n target.purpose st (validating_state target.purpose) code t w v
                  (rw first validating-fallback) tally found first)
          | inl stay ↦ elim (Option-cases (hop escalates target plan.semantic_escalation st)) [
            | inr (t, go) ↦
                let (first, found) = hop-some escalates target t plan.semantic_escalation st go in
                rw (stay, go, after_rejection)
                  (escalate-holds n target.purpose st (validating_state target.purpose) code t w v
                    (rw first validating-escalation) tally found first)
            | inl remain ↦ elim (Option-cases (unresolved_of code)) [
              | inr (unresolved, e) ↦
                  rw (stay, remain, e, after_rejection)
                    (stop-holds n target.purpose st (validating_state target.purpose)
                      ProviderGatewayTerminalStatus.human_review_required
                      (some (routing unresolved)) none w v tally (λ e. cc))
              | inl e ↦
                  rw (stay, remain, e, after_rejection)
                    (failed-holds n target.purpose st (validating_state target.purpose) code w v
                      tally)
            ]
          ]
        ]
      where
        escalates : Bool
        escalates =
            is_escalate validation.disposition
            && policy.escalation_allowed
            && profile.escalation_enabled
