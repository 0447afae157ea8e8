-- ===== src/Routing/Policy/Engine/Precedence.antt =====
-- routing-policy-engine.ts: the constructor and `select`, and the policy that governs a decision.
use Prim.Native.Nat.{Ordering}
use chunsik_bot.Base.{
  ◌<◌, leb, ◌≡◌, refl, sym, ◌≢◌, ◌⊎◌, inl, inr, Bool, true, false, not, some, List, [], ◌∷◌, arith,
  find, if◌then◌else◌, In, All, some-injective, subst, ap, contains, is_empty, string_eq,
  none_not_some, false_not_true, ◌∙◌,
}
use chunsik_bot.Base.Text.{is_routing_identifier}
use chunsik_bot.Base.Sort.{sort, IsPreorder}
use chunsik_bot.Base.Sort.Laws.{
  In-sort_iff, sort-IsOrdered, IsOrdered, by_number-IsPreorder, flipped-IsPreorder,
  lexicographic-IsPreorder,
}
use chunsik_bot.Base.Result.{ok, err, ◌>>=◌, ◌>>◌, require, bind-eq-ok, require-eq-ok}
use chunsik_bot.Base.Platform.{Platform, HasCollation}
use chunsik_bot.Routing.Contracts.{
  RoutingContext, ProviderRegistrySnapshot, RoutingPolicy, RoutingPolicyConfiguration,
  ProviderSelectionDecision, PolicyId,
}
use chunsik_bot.Routing.Policy.{matches_predicate}
use chunsik_bot.Routing.Policy.Rules.{
  freeze_policy, Checked, ConfigurationError, configuration_error, assert_version,
  validate_predicate, validate_eligibility, validate_ranking,
}
use chunsik_bot.Routing.Policy.Engine.{
  RoutingPolicyEngine, freeze_policies, by_precedence, new_engine, select,
}
use chunsik_bot.Routing.Policy.Engine.Selection.{select_lem}

-- A check returns the value that it was given, or throws.
abbrev Keeps : {A : Type 0} → Checked A → A → Type 0
Keeps m a = (m ≡ ok a) ⊎ ((e : ConfigurationError) × (m ≡ err e))

Keeps-then :
    {A : Type 0} (m : Checked (Unit {0})) (k : Checked A) (a : A) → Keeps k a → Keeps (m >> k) a
Keeps-then (ok u) k a h = h
Keeps-then (err e) k a h = inr (e, refl)

freeze_policy-Keeps : (policy : RoutingPolicy) → Keeps (freeze_policy policy) policy
unfolding freeze_policy
freeze_policy-Keeps policy = Keeps-then (assert_version policy.version "policy.version") _ policy (
    Keeps-then
      (require (leb policy.precedence 10000) (configuration_error "Invalid policy.precedence")) _
      policy
      (Keeps-then (validate_predicate policy.when) _ policy (
        Keeps-then (validate_eligibility policy.eligibility) _ policy
          (Keeps-then (validate_ranking policy.ranking) (ok policy) policy (inl refl)))))

freeze_policies-Keeps :
    (ids : List PolicyId) (policies : List RoutingPolicy)
    → Keeps (freeze_policies ids policies) policies
unfolding freeze_policies
freeze_policies-Keeps ids [] = inl refl
freeze_policies-Keeps ids (policy ∷ rest) =
    Keeps-then (require (is_routing_identifier policy.policy_id) _) _ _ (
      Keeps-then (require (not (contains ids policy.policy_id)) _) _ _ (
        Keeps-cons (freeze_policy policy) (freeze_policies (policy.policy_id ∷ ids) rest)
          (freeze_policy-Keeps policy) (freeze_policies-Keeps (policy.policy_id ∷ ids) rest)))
  where
    Keeps-cons :
        (m : Checked RoutingPolicy) (k : Checked (List RoutingPolicy))
        → Keeps m policy
        → Keeps k rest
        → Keeps (m >>= λ p. k >>= λ ps. ok (p ∷ ps)) (policy ∷ rest)
    Keeps-cons m k (inl e) (inl f) = inl (rw (e, f))
    Keeps-cons m k (inr (x, e)) h = inr (x, rw e)
    Keeps-cons m k (inl e) (inr (x, f)) = inr (x, rw (e, f))

by_precedence-IsPreorder :
    (platform : Platform) → HasCollation platform → IsPreorder (by_precedence platform)
by_precedence-IsPreorder platform collation =
    lexicographic-IsPreorder _ _
      (flipped-IsPreorder _ (by_number-IsPreorder (λ (p : RoutingPolicy). p.precedence)))
      (record {
        flips = λ a b. collation.flips a.policy_id b.policy_id;
        chains = λ a b c. collation.chains a.policy_id b.policy_id c.policy_id;
      })

-- The first item that passes a test comes after no other that passes it.
find-first :
    {A : Type 0} (compare_fn : A → A → Ordering)
    → IsPreorder compare_fn
    → (p : A → Bool) (xs : List A) {x : A} (y : A) → IsOrdered compare_fn xs
    → find p xs ≡ some x
    → In y xs
    → p y ≡ true
    → compare_fn x y ≢ Ordering.gt
find-first compare_fn total p [] y h e m t = elim m [ ]
find-first {A} compare_fn total p (z ∷ zs) {x} y (h, hs) e m t =
    helper (p z) refl e m (find-first compare_fn total p zs {x = x} y hs)
  where
    before :
        (ws : List A)
        → All (λ w. compare_fn z w ≢ Ordering.gt) ws
        → In y ws
        → compare_fn z y ≢ Ordering.gt
    before [] a l = elim l [ ]
    before (w ∷ ws) (a, later) (inl s) = rw s a
    before (w ∷ ws) (a, later) (inr l) = before ws later l

    self : (a : A) → compare_fn a a ≢ Ordering.gt
    self a = ground (arith, total.flips a a)

    helper :
        (b : Bool)
        → p z ≡ b
        → (if b then some z else find p zs) ≡ some x
        → (y ≡ z) ⊎ In y zs
        → (find p zs ≡ some x → In y zs → p y ≡ true → compare_fn x y ≢ Ordering.gt)
        → compare_fn x y ≢ Ordering.gt
    helper true c f (inl s) ih =
        subst (λ w. compare_fn w y ≢ Ordering.gt) (some-injective f)
          (subst (λ w. compare_fn z w ≢ Ordering.gt) (sym s) (self z))
    helper true c f (inr l) ih =
        subst (λ w. compare_fn w y ≢ Ordering.gt) (some-injective f) (before zs h l)
    helper false c f (inl s) ih = absurd (false_not_true c (sym (ap p s) ∙ t))
    helper false c f (inr l) ih = ih f l t

new_engine-policies :
    (platform : Platform) (cfg : RoutingPolicyConfiguration) (engine : RoutingPolicyEngine)
    → new_engine platform cfg ≡ ok engine
    → engine.policies ≡ sort (by_precedence platform) cfg.policies
unfolding new_engine
new_engine-policies platform cfg engine e =
    let (u, version, e1) = bind-eq-ok (assert_version cfg.version _) _ e in
    let (v, some_policy, e2) = bind-eq-ok (require (not (is_empty cfg.policies)) _) _ e1 in
    let (frozen, kept, e3) = bind-eq-ok (freeze_policies [] cfg.policies) _ e2 in
    sym (ap (λ (r : Checked RoutingPolicyEngine). elim r [ ok x ↦ x.policies | err x ↦ [] ]) e3)
    ∙ ap (sort (by_precedence platform)) (same frozen kept (freeze_policies-Keeps [] cfg.policies))
  where
    same :
        (frozen : List RoutingPolicy)
        → freeze_policies [] cfg.policies ≡ ok frozen
        → Keeps (freeze_policies [] cfg.policies) cfg.policies
        → frozen ≡ cfg.policies
    same frozen kept (inl e) = cc
    same frozen kept (inr (x, e)) = cc

ok-injective : {A : Type 0} {a b : A} → ◌≡◌ {A = Checked A} (ok a) (ok b) → a ≡ b
ok-injective h = cc

-- When an engine is built of a configuration and its selection names a policy, this is a policy of
-- the configuration that applies to the request, and no policy of the configuration that applies
-- comes before it: none has a higher precedence, and those of the same precedence do not collate
-- before it. The collation is assumed to be a total preorder.
pub select-highest :
    (platform : Platform) (cfg : RoutingPolicyConfiguration) (engine : RoutingPolicyEngine)
    (context : RoutingContext) (registry : ProviderRegistrySnapshot) (d : ProviderSelectionDecision)
    (matched : PolicyId)
    → HasCollation platform
    → new_engine platform cfg ≡ ok engine
    → select platform engine context registry ≡ ok d
    → d.matched_policy_id ≡ some matched
    → (policy : RoutingPolicy) × In policy cfg.policies
      × (policy.policy_id ≡ matched)
      × (matches_predicate policy.when context ≡ true)
      × ((other : RoutingPolicy)
          → In other cfg.policies
          → matches_predicate other.when context ≡ true
          → (other.precedence < policy.precedence)
            ⊎ ((other.precedence ≡ policy.precedence)
                × (platform.locale_compare policy.policy_id other.policy_id ≢ Ordering.gt)))
unfolding select
select-highest platform cfg engine context registry d matched collation built e m =
    let (valid, d', agreed) =
      bind-eq-ok (require (is_routing_identifier context.validation_profile) _) _ e in
    let (decided, done, outcome) =
      select_lem platform engine context registry collation (require-eq-ok _ _ d') in
    let same : decided ≡ d = ok-injective (sym done ∙ e) in
    elim outcome [
      | inl v ↦ absurd (
          none_not_some (
            sym v.unmatched ∙ ap (λ (x : ProviderSelectionDecision). x.matched_policy_id) same ∙ m))
      | inr v ↦ (
        v.policy,
        (In-sort_iff _ v.policy cfg.policies).0 (subst (In v.policy) policies v.listed),
        some-injective
            (sym v.matched ∙ ap (λ (x : ProviderSelectionDecision). x.matched_policy_id) same ∙ m),
        v.applies,
        λ other listed applies. not_after v.policy other (
            find-first (by_precedence platform) (by_precedence-IsPreorder platform collation)
              (λ (c : RoutingPolicy). matches_predicate c.when context)
              (sort (by_precedence platform) cfg.policies) other
              (sort-IsOrdered (by_precedence platform) (by_precedence-IsPreorder platform collation)
                cfg.policies)
              (rw policies at v.first) ((In-sort_iff _ other cfg.policies).1 listed) applies),
      )
    ]
  where
    policies : engine.policies ≡ sort (by_precedence platform) cfg.policies
    policies = new_engine-policies platform cfg engine built

    not_after :
        (policy other : RoutingPolicy)
        → by_precedence platform policy other ≢ Ordering.gt
        → (other.precedence < policy.precedence)
          ⊎ ((other.precedence ≡ policy.precedence)
              × (platform.locale_compare policy.policy_id other.policy_id ≢ Ordering.gt))
    not_after policy other h = ground arith
