-- ===== src/Routing/Tests.antt =====
-- Provider routing at concrete inputs.
mod Selection
mod Gateway
mod Bindings
mod Response
mod Planner
mod Limits
use chunsik_bot.Base.{
  ℕ, ◌≡◌, refl, ◌↔◌, ◌≤◌, Bool, true, Option, none, some, List, [], ◌∷◌, length, is_some, contains,
  String,
}
use chunsik_bot.Routing.Machine.{
  RoutingExecutionState, RoutingExecutionState-discrete, RoutingExecutionStateMachine, initial,
  primary_ready, primary_executing, fallback_ready, terminal, new_machine, transition,
  run_transitions, allowed, state_eq, audit_entry,
}
use chunsik_bot.Routing.Machine.Bounds.{reachable-IsTrail, reachable-transition_iff, IsTrail}
use chunsik_bot.Routing.Failure.{
  RoutingFailureCode, RuntimeValidationResult, ResponseValidationReasonCode, ValidationDisposition,
  RoutingFailurePolicy, failure_policy, classify_validation_failure, mapped_codes,
}
use chunsik_bot.Routing.Failure.Laws.{
  failure_policy-total, classify_validation_failure_lem, IsFirst,
}

abbrev calls_to_fallback : List (RoutingExecutionState × String)
calls_to_fallback =
    (primary_ready, "PLAN_VALIDATED")
    ∷ (primary_executing, "PRIMARY_ATTEMPT")
    ∷ (fallback_ready, "OPERATIONAL_FAILURE")
    ∷ []

abbrev machine_at_fallback : RoutingExecutionStateMachine
machine_at_fallback = record {
  current_state = fallback_ready;
  records =
      record { sequence = 1; from = initial; to = primary_ready; cause = "PLAN_VALIDATED" }
      ∷ record {
        sequence = 2;
        from = primary_ready;
        to = primary_executing;
        cause = "PRIMARY_ATTEMPT";
      }
      ∷ record {
        sequence = 3;
        from = primary_executing;
        to = fallback_ready;
        cause = "OPERATIONAL_FAILURE";
      }
      ∷ [];
}

run_to_fallback : run_transitions new_machine calls_to_fallback ≡ some machine_at_fallback
unfolding run_transitions transition new_machine allowed RoutingExecutionState-discrete
run_to_fallback = refl

reachable-IsTrail_example :
    IsTrail 0 initial machine_at_fallback.records machine_at_fallback.current_state
    × (length machine_at_fallback.records ≤ 7)
reachable-IsTrail_example = reachable-IsTrail calls_to_fallback machine_at_fallback run_to_fallback

reachable-transition_iff_example :
    (is_some (transition machine_at_fallback terminal "STOP") ≡ true)
    ↔ (contains (allowed machine_at_fallback.current_state) terminal ≡ true)
reachable-transition_iff_example =
    reachable-transition_iff calls_to_fallback machine_at_fallback terminal "STOP" run_to_fallback

failure_policy-total_example :
    (policy : RoutingFailurePolicy) × (failure_policy RoutingFailureCode.prompt_leak ≡ some policy)
    × (policy.code ≡ RoutingFailureCode.prompt_leak)
failure_policy-total_example = failure_policy-total RoutingFailureCode.prompt_leak

abbrev leaking : RuntimeValidationResult
leaking = record {
  disposition = ValidationDisposition.reject;
  reason_codes =
      ResponseValidationReasonCode.empty_output ∷ ResponseValidationReasonCode.prompt_leak ∷ [];
  response_sha256 = "";
  byte_count = 0;
  profile_version = "1.0.0";
  rule_contract_version = "1.0.0";
}

classify_validation_failure_lem_example :
    (result : Option RoutingFailureCode) × (classify_validation_failure leaking ≡ some result)
    × ((result ≡ none)
        ↔ ((leaking.disposition ≡ ValidationDisposition.accept) × (leaking.reason_codes ≡ [])))
    × ((code : RoutingFailureCode)
        → result ≡ some code
        → IsFirst (mapped_codes leaking.reason_codes) code)
classify_validation_failure_lem_example = classify_validation_failure_lem leaking
