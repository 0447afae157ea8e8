-- ===== src/Routing/Machine/Bounds.antt =====
-- routing-execution-state.ts: the machines that are reachable, and the limit on their audit.
use chunsik_bot.Base.{
  false, ℕ, ◌+◌, ◌≤◌, ◌<◌, String, ◌≡◌, refl, sym, ◌∙◌, subst, ◌↔◌, inl, inr, true, some, List, [],
  ◌∷◌, ◌++◌, arith, leb, length, length-append, Bool-cases, contains, some-injective, is_some,
  subst, Option-cases,
}
use chunsik_bot.Routing.Machine.{
  RoutingExecutionState, initial, primary_ready, primary_executing, primary_validating,
  fallback_ready, fallback_executing, fallback_validating, escalation_ready, escalation_executing,
  escalation_validating, terminal, RoutingTransitionAudit, RoutingExecutionStateMachine, allowed,
  new_machine, transition, audit_entry, run_transitions, state_eq, RoutingExecutionState-discrete,
  max_routing_transitions,
}

-- How many transitions can have led to a state: every edge goes up.
abbrev pub rank : RoutingExecutionState → ℕ
rank initial = 0
rank primary_ready = 1
rank primary_executing = 2
rank primary_validating = 3
rank fallback_ready = 4
rank fallback_executing = 5
rank fallback_validating = 6
rank escalation_ready = 4
rank escalation_executing = 5
rank escalation_validating = 6
rank terminal = 7

-- The records from `n` on lead from one state to the other along the table, numbered in order.
abbrev pub IsTrail :
    ℕ → RoutingExecutionState → List RoutingTransitionAudit → RoutingExecutionState → Type 0
IsTrail n from [] to = from ≡ to
IsTrail n from (r ∷ rs) to =
    (r.sequence ≡ n + 1)
    × (r.from ≡ from)
    × (contains (allowed from) r.to ≡ true)
    × IsTrail (n + 1) r.to rs to

pub record IsSound (m : RoutingExecutionStateMachine) : Type 0 where
  pub trail : IsTrail 0 initial m.records m.current_state
  pub short : length m.records ≤ rank m.current_state

IsTrail-concat :
    (n k : ℕ) (from mid to : RoutingExecutionState) (rs : List RoutingTransitionAudit)
    (entry : RoutingTransitionAudit)
    → IsTrail n from rs mid
    → n + length rs ≡ k
    → entry.sequence ≡ k + 1
    → entry.from ≡ mid
    → contains (allowed mid) entry.to ≡ true
    → entry.to ≡ to
    → IsTrail n from (rs ++ entry ∷ []) to
IsTrail-concat n k from mid to [] entry t e s f a g =
    let p : k ≡ n = omega arith in (rw p at s, f ∙ sym t, rw t a, g)
IsTrail-concat n k from mid to (r ∷ rs) entry (s', f', a', t) e s f a g =
    (s', f', a', IsTrail-concat (n + 1) k r.to mid to rs entry t (omega arith) s f a g)

rank-allowed :
    (from to : RoutingExecutionState) → contains (allowed from) to ≡ true → rank from < rank to
unfolding allowed RoutingExecutionState-discrete
rank-allowed from to h = ground arith

rank-le : (s : RoutingExecutionState) → rank s ≤ 7
rank-le initial = omega arith
rank-le _ = omega arith

new_machine-IsSound : IsSound new_machine
unfolding new_machine
new_machine-IsSound = record { trail = refl; short = omega arith }

pub transition-IsSound :
    (m next : RoutingExecutionStateMachine) (to : RoutingExecutionState) (cause : String)
    → IsSound m
    → transition m to cause ≡ some next
    → IsSound next
unfolding transition
transition-IsSound m next to cause v e = elim (Bool-cases (contains (allowed m.current_state) to)) [
  | inl edge ↦ elim (Bool-cases (leb max_routing_transitions (length m.records))) [
    | inl full ↦ cc (rw (edge, full) at e)
    | inr room ↦
        let last = audit_entry m to cause in
        let done : some (record { current_state = to; records = m.records ++ last ∷ [] })
            ≡ some next =
          rw (edge, room) at e in
        subst IsSound (some-injective done) (record {
          trail =
              IsTrail-concat 0 (length m.records) initial m.current_state to m.records last v.trail
                (omega arith) refl refl edge refl;
          short = omega (
            arith,
            length-append m.records (last ∷ []),
            rank-allowed m.current_state to edge,
            v.short,
          );
        })
  ]
  | inr closed ↦ cc (rw closed at e)
]

pub transition-defined_iff :
    (m : RoutingExecutionStateMachine) (to : RoutingExecutionState) (cause : String)
    → IsSound m
    → (is_some (transition m to cause) ≡ true) ↔ (contains (allowed m.current_state) to ≡ true)
unfolding transition
transition-defined_iff m to cause v =
    ground (arith, rank-allowed m.current_state to, rank-le m.current_state, rank-le to)

pub run_transitions-IsSound :
    (calls : List (RoutingExecutionState × String)) (m final : RoutingExecutionStateMachine)
    → IsSound m
    → run_transitions m calls ≡ some final
    → IsSound final
unfolding run_transitions
run_transitions-IsSound [] m final v e = subst IsSound (some-injective e) v
run_transitions-IsSound ((to, cause) ∷ calls) m final v e =
    elim (Option-cases (transition m to cause)) [
      | inl failed ↦ absurd (ground arith)
      | inr (next, done) ↦
          run_transitions-IsSound calls next final (transition-IsSound m next to cause v done)
            (rw (done, run_transitions) at e)
    ]

-- Whatever transitions a caller requests of a new machine, one after another without an error, the
-- audit is a trail: its records are numbered 1, 2, … in order, they start at INITIAL, each starts
-- where the one before it ended, each step is in the table, and the last ends in the current
-- state. There are at most seven.
pub reachable-IsTrail :
    (calls : List (RoutingExecutionState × String)) (final : RoutingExecutionStateMachine)
    → run_transitions new_machine calls ≡ some final
    → IsTrail 0 initial final.records final.current_state
      × (length final.records ≤ max_routing_transitions)
reachable-IsTrail calls final e =
    let v = run_transitions-IsSound calls new_machine final new_machine-IsSound e in
    (v.trail, omega (arith, v.short, rank-le final.current_state))

-- At any machine that a sequence of calls reaches from a new one, the next call is refused exactly
-- when the table has no edge for it; the limit of seven records refuses nothing by itself.
pub reachable-transition_iff :
    (calls : List (RoutingExecutionState × String)) (m : RoutingExecutionStateMachine)
    (to : RoutingExecutionState) (cause : String)
    → run_transitions new_machine calls ≡ some m
    → (is_some (transition m to cause) ≡ true) ↔ (contains (allowed m.current_state) to ≡ true)
reachable-transition_iff calls m to cause e =
    transition-defined_iff m to cause
      (run_transitions-IsSound calls new_machine m new_machine-IsSound e)

-- A machine that holds a trail to a state.
pub record IsAt (s : RoutingExecutionState) (m : RoutingExecutionStateMachine) : Type 0 where
  pub sound : IsSound m
  pub state : m.current_state ≡ s

pub new_machine-IsAt : IsAt initial new_machine
unfolding new_machine
new_machine-IsAt = record { sound = new_machine-IsSound; state = refl }

-- A transition along an edge is made, and leads to its end.
pub transition-IsAt :
    (m : RoutingExecutionStateMachine) (s to : RoutingExecutionState) (cause : String)
    → IsAt s m
    → contains (allowed s) to ≡ true
    → (next : RoutingExecutionStateMachine) × (transition m to cause ≡ some next) × IsAt to next
unfolding transition
transition-IsAt m s to cause v edge =
    (moved, made, record { sound = transition-IsSound m moved to cause v.sound made; state = refl })
  where
    moved : RoutingExecutionStateMachine
    moved = record { current_state = to; records = m.records ++ audit_entry m to cause ∷ [] }

    here : contains (allowed m.current_state) to ≡ true
    here = rw v.state edge

    full : leb max_routing_transitions (length m.records) ≡ false
    full = ground (arith, v.sound.short, rank-allowed m.current_state to here, rank-le to)

    made : transition m to cause ≡ some moved
    made = rw (here, full, transition) refl
