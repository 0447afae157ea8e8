-- ===== src/Routing/Policy/Eligibility.antt =====
-- routing-policy-engine.ts: `eligible`, beside a description without early returns.
use chunsik_bot.Base.{
  ◌≤◌, ◌≡◌, refl, ◌⊎◌, inl, inr, ◌↔◌, Bool, true, false, not, ◌&&◌, ◌||◌, Option, none, some, List,
  [], ◌∷◌, arith, contains, contains_iff, if◌then◌else◌, In, Bool-cases, subst,
}
use chunsik_bot.Domain.{Capability, capability_eq}
use chunsik_bot.Routing.Contracts.{
  RoutingContext, ProviderDescriptor, EligibilityRule, required, supported, ReliabilityTier,
  ContextCapacity, ExecutionLocality, RoutingClass, SupportLevel, Requirement, routing_class_eq,
  execution_locality_eq,
}
use chunsik_bot.Routing.Policy.{
  eligible, reliability_order, context_order, is_supported, is_required, demands, at_least,
  capacity_short, locality_differs, misses_required_class, has_excluded_class, shares_class,
}

-- A tier that is asked for is reached.
abbrev pub Reaches : Option ReliabilityTier → ReliabilityTier → Type 0
Reaches none actual = Unit
Reaches (some minimum) actual = reliability_order minimum ≤ reliability_order actual

abbrev pub IsLocal : Option ExecutionLocality → ExecutionLocality → Type 0
IsLocal none actual = Unit
IsLocal (some l) actual = actual ≡ l

abbrev pub HasCapacity : Option ContextCapacity → ContextCapacity → Type 0
HasCapacity none actual = Unit
HasCapacity (some minimum) actual = context_order minimum ≤ context_order actual

-- Some class is in both lists.
abbrev pub Overlap : List RoutingClass → List RoutingClass → Type 0
Overlap wanted classes = (c : RoutingClass) × In c wanted × In c classes

abbrev pub RequiresClass : Option (List RoutingClass) → List RoutingClass → Type 0
RequiresClass none classes = Unit
RequiresClass (some wanted) classes = Overlap wanted classes

abbrev pub ExcludesClass : Option (List RoutingClass) → List RoutingClass → Type 0
ExcludesClass none classes = Unit
ExcludesClass (some excluded) classes = ¬ Overlap excluded classes

pub record IsEligible (d : ProviderDescriptor) (context : RoutingContext) (rule : EligibilityRule)
    : Type 0 where
  pub enabled : d.enabled ≡ true
  pub serves : In context.capability d.capabilities.supported_capabilities
  pub tools :
      (context.tool_use_requirement ≡ required) ⊎ (rule.requires_tool_use ≡ some true)
      → d.capabilities.tool_use ≡ supported
  pub structured :
      rule.requires_structured_output ≡ some true → d.capabilities.structured_output ≡ supported
  pub locality : IsLocal rule.execution_locality d.capabilities.execution_locality
  pub capacity : HasCapacity rule.minimum_context_capacity d.capabilities.context_capacity
  pub semantic : Reaches rule.minimum_semantic_reliability d.capabilities.semantic_reliability
  pub authority : Reaches rule.minimum_authority_reliability d.capabilities.authority_reliability
  pub continuity : Reaches rule.minimum_continuity_reliability d.capabilities.continuity_reliability
  pub required_class : RequiresClass rule.required_routing_classes d.capabilities.routing_classes
  pub excluded_class : ExcludesClass rule.excluded_routing_classes d.capabilities.routing_classes

any_class :
    (w : RoutingClass) (ws classes : List RoutingClass)
    → (Overlap ws classes → shares_class ws classes ≡ true)
    → (c : RoutingClass) → In c (w ∷ ws)
    → In c classes
    → shares_class (w ∷ ws) classes ≡ true
any_class w ws classes ih c (inl e) m =
    rw ((contains_iff classes w).1 (subst (λ k. In k classes) e m))
any_class w ws classes ih c (inr l) m = ground (arith, ih (c, l, m))

shares_class_iff :
    (wanted classes : List RoutingClass)
    → (shares_class wanted classes ≡ true) ↔ Overlap wanted classes
shares_class_iff [] classes = (λ h. cc, λ o. elim o.1 [ ])
shares_class_iff (w ∷ ws) classes = (
  λ h. elim (Bool-cases (contains classes w)) [
    | inl m ↦ (w, inl refl, (contains_iff classes w).0 m)
    | inr n ↦
        let (c, listed, found) = (shares_class_iff ws classes).0 (rw n at h) in
        (c, inr listed, found)
  ],
  λ o. any_class w ws classes (shares_class_iff ws classes).1 o.0 o.1 o.2,
)

locality_iff :
    (o : Option ExecutionLocality) (actual : ExecutionLocality)
    → (locality_differs o actual ≡ false) ↔ IsLocal o actual
locality_iff none actual = (λ _. tt, λ _. refl)
locality_iff (some l) actual = ground (arith, execution_locality_eq.agrees actual l)

required_class_iff :
    (o : Option (List RoutingClass)) (classes : List RoutingClass)
    → (misses_required_class o classes ≡ false) ↔ RequiresClass o classes
required_class_iff none classes = (λ _. tt, λ _. refl)
required_class_iff (some wanted) classes = (
  λ h. (shares_class_iff wanted classes).0 (ground arith),
  λ h. rw ((shares_class_iff wanted classes).1 h),
)

excluded_class_iff :
    (o : Option (List RoutingClass)) (classes : List RoutingClass)
    → (has_excluded_class o classes ≡ false) ↔ ExcludesClass o classes
excluded_class_iff none classes = (λ _. tt, λ _. refl)
excluded_class_iff (some excluded) classes = (
  λ h o. let t = (shares_class_iff excluded classes).1 o in cc,
  λ h. elim (Bool-cases (shares_class excluded classes)) [
    | inl t ↦ absurd (h ((shares_class_iff excluded classes).0 t))
    | inr f ↦ f
  ],
)

at_least_iff :
    (actual : ReliabilityTier) (minimum : Option ReliabilityTier)
    → (at_least actual minimum ≡ true) ↔ Reaches minimum actual
at_least_iff actual none = (λ _. tt, λ _. refl)
at_least_iff actual (some minimum) = ground arith

capacity_iff :
    (minimum : Option ContextCapacity) (actual : ContextCapacity)
    → (capacity_short minimum actual ≡ false) ↔ HasCapacity minimum actual
capacity_iff none actual = (λ _. tt, λ _. refl)
capacity_iff (some minimum) actual = ground arith

-- One early return.
ladder_iff :
    (test rest : Bool) → ((if test then false else rest) ≡ true) ↔ ((test ≡ false) × (rest ≡ true))
ladder_iff true rest = (λ h. cc, λ h. cc)
ladder_iff false rest = (λ h. (refl, h), λ h. h.1)

serves_iff :
    (enabled : Bool) (capabilities : List Capability) (c : Capability)
    → ((not enabled || not (contains capabilities c)) ≡ false)
      ↔ ((enabled ≡ true) × In c capabilities)
serves_iff enabled capabilities c = ground (arith, contains_iff capabilities c)

tools_iff :
    (requirement : Requirement) (demand : Option Bool) (given : SupportLevel)
    → (((is_required requirement && not (is_supported given)) ≡ false)
        × ((demands demand && not (is_supported given)) ≡ false))
      ↔ ((requirement ≡ required) ⊎ (demand ≡ some true) → given ≡ supported)
tools_iff requirement demand given = (λ h k. ground arith, λ h. helper requirement demand given h)
  where
    helper :
        (requirement : Requirement) (demand : Option Bool) (given : SupportLevel)
        → ((requirement ≡ required) ⊎ (demand ≡ some true) → given ≡ supported)
        → ((is_required requirement && not (is_supported given)) ≡ false)
          × ((demands demand && not (is_supported given)) ≡ false)
    helper requirement demand supported h = ground arith
    helper required demand SupportLevel.unsupported h = let e = h (inl refl) in cc
    helper requirement (some true) SupportLevel.unsupported h = let e = h (inr refl) in cc
    helper requirement demand SupportLevel.unsupported h = ground arith

structured_iff :
    (demand : Option Bool) (given : SupportLevel)
    → ((demands demand && not (is_supported given)) ≡ false)
      ↔ (demand ≡ some true → given ≡ supported)
structured_iff (some true) given = ground arith
structured_iff demand given = ground arith

not_iff : (b : Bool) → (not b ≡ false) ↔ (b ≡ true)
not_iff b = ground arith

-- The early returns of `eligible` let exactly those providers through that the rule and the request
-- admit.
pub eligible_iff :
    (d : ProviderDescriptor) (context : RoutingContext) (rule : EligibilityRule)
    → (eligible d context rule ≡ true) ↔ IsEligible d context rule
unfolding eligible
eligible_iff d context rule = (
  λ h.
      let (h1, r1) = (ladder_iff _ _).0 h in
      let (h2, r2) = (ladder_iff _ _).0 r1 in
      let (h3, r3) = (ladder_iff _ _).0 r2 in
      let (h4, r4) = (ladder_iff _ _).0 r3 in
      let (h5, r5) = (ladder_iff _ _).0 r4 in
      let (h6, r6) = (ladder_iff _ _).0 r5 in
      let (h7, r7) = (ladder_iff _ _).0 r6 in
      let (h8, r8) = (ladder_iff _ _).0 r7 in
      let (h9, r9) = (ladder_iff _ _).0 r8 in
      let (h10, r10) = (ladder_iff _ _).0 r9 in
      let (h11, _) = (ladder_iff _ _).0 r10 in
      record {
        enabled = ((serves_iff _ _ _).0 h1).0;
        serves = ((serves_iff _ _ _).0 h1).1;
        tools = (tools_iff _ _ _).0 (h2, h3);
        structured = (structured_iff _ _).0 h4;
        locality = (locality_iff _ _).0 h5;
        capacity = (capacity_iff _ _).0 h6;
        semantic = (at_least_iff _ _).0 ((not_iff _).0 h7);
        authority = (at_least_iff _ _).0 ((not_iff _).0 h8);
        continuity = (at_least_iff _ _).0 ((not_iff _).0 h9);
        required_class = (required_class_iff _ _).0 h10;
        excluded_class = (excluded_class_iff _ _).0 h11;
      },
  λ v.
      let (t1, t2) = (tools_iff _ _ _).1 v.tools in
      rw (
        (serves_iff _ _ _).1 (v.enabled, v.serves),
        t1,
        t2,
        (structured_iff _ _).1 v.structured,
        (locality_iff _ _).1 v.locality,
        (capacity_iff _ _).1 v.capacity,
        (at_least_iff _ _).1 v.semantic,
        (at_least_iff _ _).1 v.authority,
        (at_least_iff _ _).1 v.continuity,
        (required_class_iff _ _).1 v.required_class,
        (excluded_class_iff _ _).1 v.excluded_class,
        eligible,
      ),
)
