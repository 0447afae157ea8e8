-- ===== src/Routing/Policy/Engine/Selection.antt =====
-- routing-policy-engine.ts: `select`, beside what a selection has to have.

use chunsik_bot.Base.{
  ℕ, ◌≡◌, refl, ◌⊎◌, inl, inr, ◌↔◌, true, false, Option, none, some, List, [], ◌∷◌, map, arith,
  find, In, subst,
}
use chunsik_bot.Base.Text.{is_routing_identifier}
use chunsik_bot.Base.Membership.{In-filter_iff, In-map, In-map_of, find-some, find-none_iff}
use chunsik_bot.Base.Sort.{IsPreorder}
use chunsik_bot.Base.Sort.Laws.{
  In-sort_iff, sort-IsOrdered, IsOrdered, by_number-IsPreorder, flipped-IsPreorder,
  lexicographic-IsPreorder,
}
use chunsik_bot.Base.Result.{ok}
use chunsik_bot.Base.Platform.{Platform, HasCollation}
use chunsik_bot.Routing.Contracts.{
  RoutingContext, ProviderDescriptor, ProviderRegistrySnapshot, RegisteredProviderSnapshot,
  RankingRule, RoutingPolicy, ProviderSelectionDecision, SortDirection, ascending, descending,
  selected, policy_not_matched, no_eligible_provider, ProviderAvailability, available,
}
use chunsik_bot.Routing.Policy.{is_available, matches_predicate, compare_by_rule, dimension_value}
use chunsik_bot.Routing.Policy.Eligibility.{IsEligible, eligible_iff}
use chunsik_bot.Routing.Policy.Engine.{
  RoutingPolicyEngine, available_descriptors, compare_candidates, candidates_of, decision,
  decide_among, select,
}

compare_by_rule-IsPreorder : (rule : RankingRule) → IsPreorder (λ a b. compare_by_rule a b rule)
unfolding compare_by_rule
compare_by_rule-IsPreorder rule = helper rule.direction refl
  where
    value : ProviderDescriptor → ℕ
    value = dimension_value rule.dimension rule.routing_class_preference

    helper : (d : SortDirection) → rule.direction ≡ d → IsPreorder (λ a b. compare_by_rule a b rule)
    helper ascending e = rw (e, compare_by_rule) (by_number-IsPreorder value)
    helper descending e =
        rw (e, compare_by_rule) (flipped-IsPreorder _ (by_number-IsPreorder value))

module _ (platform : Platform) (collation : HasCollation platform) where
  compare_candidates-IsPreorder :
      (rules : List RankingRule) → IsPreorder (compare_candidates platform rules)
  unfolding compare_candidates
  compare_candidates-IsPreorder [] = record {
    flips = λ a b. collation.flips a.provider_id b.provider_id;
    chains = λ a b c. collation.chains a.provider_id b.provider_id c.provider_id;
  }
  compare_candidates-IsPreorder (rule ∷ rules) =
      lexicographic-IsPreorder _ _ (compare_by_rule-IsPreorder rule)
        (compare_candidates-IsPreorder rules)

-- A provider of the registry that is available and admitted by the policy.
pub record IsAdmitted (policy : RoutingPolicy) (context : RoutingContext)
    (registry : ProviderRegistrySnapshot) (descriptor : ProviderDescriptor) : Type 0 where
  pub entry : RegisteredProviderSnapshot
  pub registered : In entry registry.providers
  pub describes : entry.descriptor ≡ descriptor
  pub ready : entry.availability ≡ available
  pub suits : IsEligible descriptor context policy.eligibility

In-available_iff :
    (registry : ProviderRegistrySnapshot) (descriptor : ProviderDescriptor)
    → In descriptor (available_descriptors registry.providers) ↔ (
        (entry : RegisteredProviderSnapshot) × In entry registry.providers
        × (entry.descriptor ≡ descriptor)
        × (entry.availability ≡ available))
In-available_iff registry descriptor = (
  λ m.
      let (entry, kept, same) = In-map _ descriptor _ m in
      let (listed, ready) = (In-filter_iff _ entry registry.providers).0 kept in
      (entry, listed, same, available_of entry.availability ready),
  λ h.
      subst (λ x. In x (available_descriptors registry.providers)) h.2
        (In-map_of (λ (e : RegisteredProviderSnapshot). e.descriptor) h.0 _
          ((In-filter_iff _ h.0 registry.providers).1 (h.1, rw h.3))),
)
  where
    available_of : (a : ProviderAvailability) → is_available a ≡ true → a ≡ available
    available_of a e = ground arith

In-candidates_iff :
    (platform : Platform) (policy : RoutingPolicy) (context : RoutingContext)
    (registry : ProviderRegistrySnapshot) (descriptor : ProviderDescriptor)
    → In descriptor (candidates_of platform policy context registry)
      ↔ IsAdmitted policy context registry descriptor
unfolding candidates_of
In-candidates_iff platform policy context registry descriptor = (
  λ m.
      let kept = (In-sort_iff _ descriptor _).0 m in
      let (listed, suits) = (In-filter_iff _ descriptor _).0 kept in
      let (entry, registered, describes, ready) = (In-available_iff registry descriptor).0 listed in
      record {
        entry = entry;
        registered = registered;
        describes = describes;
        ready = ready;
        suits = (eligible_iff descriptor context policy.eligibility).0 suits;
      },
  λ v. (In-sort_iff _ descriptor _).1 (
      (In-filter_iff _ descriptor _).1 (
        (In-available_iff registry descriptor).1 (v.entry, v.registered, v.describes, v.ready),
        (eligible_iff descriptor context policy.eligibility).1 v.suits,
      )),
)

-- The decision's reason and provider, by the ranked candidates.
abbrev pub Decides : List ProviderDescriptor → ProviderSelectionDecision → Type 0
Decides [] d = (d.reason_code ≡ no_eligible_provider) × (d.selected_provider_id ≡ none)
Decides (best ∷ others) d =
    (d.reason_code ≡ selected) × (d.selected_provider_id ≡ some best.provider_id)

pub record IsGoverned (platform : Platform) (engine : RoutingPolicyEngine)
    (context : RoutingContext) (registry : ProviderRegistrySnapshot) (d : ProviderSelectionDecision)
    : Type 0 where
  pub policy : RoutingPolicy
  pub listed : In policy engine.policies
  pub first :
      find (λ (c : RoutingPolicy). matches_predicate c.when context) engine.policies ≡ some policy
  pub applies : matches_predicate policy.when context ≡ true
  pub candidates : List ProviderDescriptor
  pub admitted :
      (descriptor : ProviderDescriptor)
      → In descriptor candidates ↔ IsAdmitted policy context registry descriptor
  pub ranked : IsOrdered (compare_candidates platform policy.ranking) candidates
  pub matched : d.matched_policy_id ≡ some policy.policy_id
  pub ids : d.eligible_provider_ids ≡ map (λ (c : ProviderDescriptor). c.provider_id) candidates
  pub decides : Decides candidates d

pub record IsUngoverned (engine : RoutingPolicyEngine) (context : RoutingContext)
    (d : ProviderSelectionDecision) : Type 0 where
  pub none_applies :
      (policy : RoutingPolicy)
      → In policy engine.policies
      → matches_predicate policy.when context ≡ false
  pub reason : d.reason_code ≡ policy_not_matched
  pub unmatched : d.matched_policy_id ≡ none
  pub nobody : d.selected_provider_id ≡ none
  pub ids : d.eligible_provider_ids ≡ []

-- For every request whose validation profile is an identifier, `select` returns a decision. Either no
-- policy applies, and the decision says so and selects nothing; or it is made under the first policy
-- of the engine that applies: its eligible providers are exactly the registered providers that are
-- available and admitted by that policy, ranked by the policy's rules and then by provider id, and
-- the selected provider is the first of them, with NO_ELIGIBLE_PROVIDER where there is none. The
-- collation is assumed to be a total preorder.
pub select_lem :
    (platform : Platform) (engine : RoutingPolicyEngine) (context : RoutingContext)
    (registry : ProviderRegistrySnapshot)
    → HasCollation platform
    → is_routing_identifier context.validation_profile ≡ true
    → (d : ProviderSelectionDecision) × (select platform engine context registry ≡ ok d)
      × (IsUngoverned engine context d ⊎ IsGoverned platform engine context registry d)
unfolding select decision candidates_of
select_lem platform engine context registry collation valid =
    helper (find (λ (c : RoutingPolicy). matches_predicate c.when context) engine.policies) refl
  where
    decided : RoutingPolicy → ProviderSelectionDecision
    decided policy = decide_among platform engine registry policy.policy_id (
        map (λ (c : ProviderDescriptor). c.provider_id)
          (candidates_of platform policy context registry))

    decides :
        (policy : RoutingPolicy) (cs : List ProviderDescriptor)
        → let d =
            decide_among platform engine registry policy.policy_id
              (map (λ (c : ProviderDescriptor). c.provider_id) cs) in
          (d.matched_policy_id ≡ some policy.policy_id)
          × (d.eligible_provider_ids ≡ map (λ (c : ProviderDescriptor). c.provider_id) cs)
          × Decides cs d
    decides policy [] = (refl, refl, (refl, refl))
    decides policy (c ∷ cs) = (refl, refl, (refl, refl))

    helper :
        (found : Option RoutingPolicy)
        → find (λ (c : RoutingPolicy). matches_predicate c.when context) engine.policies ≡ found
        → (d : ProviderSelectionDecision) × (select platform engine context registry ≡ ok d)
          × (IsUngoverned engine context d ⊎ IsGoverned platform engine context registry d)
    helper none e = (
      decision platform engine registry none [] none policy_not_matched,
      rw (valid, e, select),
      inl (record {
        none_applies = (find-none_iff _ engine.policies).0 e;
        reason = refl;
        unmatched = refl;
        nobody = refl;
        ids = refl;
      }),
    )
    helper (some policy) e =
        let (listed, applies) = find-some _ engine.policies e in
        let (matched, ids, outcome) =
          decides policy (candidates_of platform policy context registry) in
        (
          decided policy,
          rw (valid, e, select),
          inr (record {
            policy = policy;
            listed = listed;
            first = e;
            applies = applies;
            candidates = candidates_of platform policy context registry;
            admitted = In-candidates_iff platform policy context registry;
            ranked =
                sort-IsOrdered (compare_candidates platform policy.ranking)
                  (compare_candidates-IsPreorder platform collation policy.ranking) _;
            matched = matched;
            ids = ids;
            decides = outcome;
          }),
        )
