-- ===== src/Routing/Machine.antt =====
-- routing-execution-state.ts: the state machine of one routed execution, with its audit records.
pub mod Bounds
use chunsik_bot.Base.{
  ℕ, ◌+◌, String, Bool, ◌||◌, not, Option, none, some, List, [], ◌∷◌, ◌++◌, leb, if◌then◌else◌,
  length, contains, Eq, discrete_eq,
}

abbrev pub max_routing_transitions : ℕ
max_routing_transitions = 7

pub data RoutingExecutionState : Type 0 where
  initial primary_ready primary_executing primary_validating fallback_ready fallback_executing
        fallback_validating escalation_ready escalation_executing escalation_validating terminal :
      RoutingExecutionState

unfoldable pub RoutingExecutionState-discrete : Discrete RoutingExecutionState
RoutingExecutionState-discrete = hlevel

instance abbrev pub state_eq : Eq RoutingExecutionState
state_eq = discrete_eq RoutingExecutionState-discrete

pub record RoutingTransitionAudit : Type 0 where
  pub sequence : ℕ
  pub from : RoutingExecutionState
  pub to : RoutingExecutionState
  pub cause : String

-- The table ALLOWED.
unfoldable pub allowed : RoutingExecutionState → List RoutingExecutionState
allowed initial = primary_ready ∷ terminal ∷ []
allowed primary_ready = primary_executing ∷ terminal ∷ []
allowed primary_executing = primary_validating ∷ fallback_ready ∷ terminal ∷ []
allowed primary_validating = fallback_ready ∷ escalation_ready ∷ terminal ∷ []
allowed fallback_ready = fallback_executing ∷ terminal ∷ []
allowed fallback_executing = fallback_validating ∷ terminal ∷ []
allowed fallback_validating = terminal ∷ []
allowed escalation_ready = escalation_executing ∷ terminal ∷ []
allowed escalation_executing = escalation_validating ∷ terminal ∷ []
allowed escalation_validating = terminal ∷ []
allowed terminal = []

pub record RoutingExecutionStateMachine : Type 0 where
  pub current_state : RoutingExecutionState
  pub records : List RoutingTransitionAudit

unfoldable pub new_machine : RoutingExecutionStateMachine
new_machine = record { current_state = initial; records = [] }

abbrev pub audit_entry :
    RoutingExecutionStateMachine → RoutingExecutionState → String → RoutingTransitionAudit
audit_entry m to cause = record {
  sequence = length m.records + 1;
  from = m.current_state;
  to = to;
  cause = cause;
}

-- `none` is the thrown error.
unfoldable pub transition :
    RoutingExecutionStateMachine
    → RoutingExecutionState
    → String
    → Option RoutingExecutionStateMachine
transition m to cause =
    if not (contains (allowed m.current_state) to) || leb max_routing_transitions (length m.records)
    then none
    else some (record { current_state = to; records = m.records ++ audit_entry m to cause ∷ [] })

-- A sequence of calls; the first that throws ends it.
unfoldable pub run_transitions :
    RoutingExecutionStateMachine
    → List (RoutingExecutionState × String)
    → Option RoutingExecutionStateMachine
run_transitions m [] = some m
run_transitions m ((to, cause) ∷ calls) = elim (transition m to cause) [
  | none ↦ none
  | some next ↦ run_transitions next calls
]
