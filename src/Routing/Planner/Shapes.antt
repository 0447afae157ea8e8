-- ===== src/Routing/Planner/Shapes.antt =====
-- provider-execution-plan.ts, provider-routing-gateway.ts: targets that the planner accepts have the
-- shape and the bindings that the gateway asks for.

use chunsik_bot.Routing.Planner.{ExecutionTargets}
use chunsik_bot.Base.{
  ◌≡◌, refl, ap, Bool, true, false, not, ◌||◌, Option, none, some, List, [], ◌∷◌, all, any,
  contains, string_eq, arith,
}
use chunsik_bot.Base.Text.{is_routing_identifier}
use chunsik_bot.Base.Result.{ok}
use chunsik_bot.Domain.{capability_eq}
use chunsik_bot.Routing.Contracts.{ProviderId}
use chunsik_bot.Routing.Plan.{
  ProviderBindingRegistry, ProviderExecutionTarget, ExecutionTargetPurpose, purpose_eq,
}
use chunsik_bot.Routing.Gateway.Checks.{target_malformed, present, has_purpose}
use chunsik_bot.Routing.Gateway.Run.{check_bindings}
use chunsik_bot.Routing.Planner.Sources.{IsConsistent, IsSound, target_of-IsSound}
use chunsik_bot.Routing.Planner.Inversion.{AreBuilt, AreAsserted}

all-contains :
    (p : ProviderId → Bool) (ids : List ProviderId) (id : ProviderId)
    → all p ids ≡ true
    → contains ids id ≡ true
    → p id ≡ true
all-contains p [] id h m = cc
all-contains p (x ∷ xs) id h m =
    ground (arith, all-contains p xs id, string_eq.agrees id x, λ (e : id ≡ x). ap p e)

pub all_of_or :
    {a b c d e f g h i j k l m n : Bool}
    → ((a ≡ true)
        × (b ≡ true)
        × (c ≡ true)
        × (d ≡ true)
        × (e ≡ false)
        × (f ≡ false)
        × (g ≡ false)
        × (h ≡ false)
        × (i ≡ true)
        × (j ≡ true)
        × (k ≡ true)
        × (l ≡ true)
        × (m ≡ true)
        × (n ≡ true))
    → (not a
        || not b
        || not c
        || not d
        || e
        || f
        || g
        || h
        || not i
        || not j
        || not k
        || not l
        || not m
        || not n)
      ≡ false
all_of_or (ea, eb, ec, ed, ee, ef, eg, eh, ei, ej, ek, el, em, en) =
    rw (ea, eb, ec, ed, ee, ef, eg, eh, ei, ej, ek, el, em, en)

abbrev Optional : (ProviderExecutionTarget → Type 0) → Option ProviderExecutionTarget → Type 0
Optional P o = (target : ProviderExecutionTarget) → o ≡ some target → P target

-- Three targets of which each is sound.
pub record AreSound (bindings : ProviderBindingRegistry) (t : ExecutionTargets) : Type 0 where
  pub primary : IsSound bindings ExecutionTargetPurpose.primary t.primary_target
  pub fallback : Optional (IsSound bindings ExecutionTargetPurpose.fallback) t.operational_fallback
  pub escalation :
      Optional (IsSound bindings ExecutionTargetPurpose.escalation) t.semantic_escalation

pub targets-AreSound :
    (bindings : ProviderBindingRegistry) (eligible : List ProviderId) (t : ExecutionTargets)
    → IsConsistent bindings
    → all is_routing_identifier eligible ≡ true
    → AreBuilt bindings t
    → AreAsserted eligible t
    → AreSound bindings t
targets-AreSound bindings eligible t consistent valid built asserted = record {
  primary =
      target_of-IsSound bindings consistent ExecutionTargetPurpose.primary built.primary.0
        (all-contains is_routing_identifier eligible _ valid asserted.primary) built.primary.1;
  fallback = λ target e.
      let (id, at) = built.fallback target e in
      target_of-IsSound bindings consistent ExecutionTargetPurpose.fallback id
        (all-contains is_routing_identifier eligible _ valid (asserted.fallback target e)) at;
  escalation = λ target e.
      let (id, at) = built.escalation target e in
      target_of-IsSound bindings consistent ExecutionTargetPurpose.escalation id
        (all-contains is_routing_identifier eligible _ valid (asserted.escalation target e)) at;
}

pub has_purpose_sound :
    (bindings : ProviderBindingRegistry) (purpose : ExecutionTargetPurpose)
    (o : Option ProviderExecutionTarget)
    → Optional (IsSound bindings purpose) o
    → has_purpose purpose o ≡ true
has_purpose_sound bindings purpose none h = refl
has_purpose_sound bindings purpose (some target) h =
    (purpose_eq.agrees target.purpose purpose).1 (h target refl).has_purpose

module _ (bindings : ProviderBindingRegistry) where
  -- The two checks over the targets that are there.
  abbrev pub Pass : List ProviderExecutionTarget → Type 0
  Pass ts = (any target_malformed ts ≡ false) × (check_bindings bindings ts ≡ ok tt)

  pub Pass-cons :
      {purpose : ExecutionTargetPurpose} (target : ProviderExecutionTarget)
      (rest : List ProviderExecutionTarget)
      → IsSound bindings purpose target
      → Pass rest
      → Pass (target ∷ rest)
  unfolding check_bindings
  Pass-cons target rest sound pass = (rw (sound.formed) pass.0, rw sound.bound pass.1)

  pub Pass-present :
      {purpose : ExecutionTargetPurpose} (o : Option ProviderExecutionTarget)
      (rest : List ProviderExecutionTarget)
      → Optional (IsSound bindings purpose) o
      → Pass rest
      → Pass (present o rest)
  Pass-present none rest h pass = pass
  Pass-present (some target) rest h pass = Pass-cons target rest (h target refl) pass

  pub Pass-nil : Pass []
  unfolding check_bindings
  Pass-nil = (refl, refl)
