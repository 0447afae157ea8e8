-- ===== src/Routing/Bindings/Validation.antt =====
-- provider-binding-registry.ts: the validation of the bindings that the constructor is given.
use chunsik_bot.Routing.Bindings.{
  validate_bindings, binding_valid, validated, binding_matches, descriptor_or, validate_binding,
  ProviderBindingConfigurationError, ExecutableProviderBinding,
}
use chunsik_bot.Base.{
  arith, Bool, true, false, ◌&&◌, Option, none, some, List, [], ◌∷◌, In, contains, ◌==◌, string_eq,
  ◌≡◌, refl, sym, ◌∙◌, ap, inl, inr, ◌≢◌, subst, not-eq-true,
}
use chunsik_bot.Base.Result.{ok-injective, ok, bind-eq-ok, require-eq-ok}
use chunsik_bot.Base.Membership.{find-some}
use chunsik_bot.Base.Platform.{Platform}
use chunsik_bot.Routing.Contracts.{ProviderId, ProviderDescriptor}
use chunsik_bot.Routing.Plan.{ValidatedExecutableProviderBinding}

-- The binding may be executed: its descriptor is one of these, is enabled and has the same model.
pub record IsExecutable (descriptors : List ProviderDescriptor) (x : ExecutableProviderBinding)
    (d : ProviderDescriptor) : Type 0 where
  pub known : In d descriptors
  pub enabled : d.enabled ≡ true
  pub valid : binding_valid x ≡ true
  pub provider : x.provider ≡ x.provider_id
  pub same_id : d.provider_id ≡ x.provider_id
  pub same_adapter : d.adapter_id ≡ x.adapter_id
  pub same_model : d.model_id ≡ x.model_id

descriptor_or-eq-ok :
    (m : Option ProviderDescriptor) (e : ProviderBindingConfigurationError) {d : ProviderDescriptor}
    → descriptor_or m e ≡ ok d
    → m ≡ some d
descriptor_or-eq-ok none e h = cc
descriptor_or-eq-ok (some d) e h = cc

matches-fields :
    (d : ProviderDescriptor) (x : ExecutableProviderBinding)
    → binding_matches d x ≡ true
    → (d.provider_id ≡ x.provider_id)
      × (x.provider ≡ x.provider_id)
      × (d.adapter_id ≡ x.adapter_id)
      × (d.model_id ≡ x.model_id)
matches-fields d x h = ground (
  arith,
  string_eq.agrees d.provider_id x.provider_id,
  string_eq.agrees x.provider x.provider_id,
  string_eq.agrees d.adapter_id x.adapter_id,
  string_eq.agrees d.model_id x.model_id,
)

pub both : (a b : Bool) → a ≡ true → b ≡ true → (a && b) ≡ true
both true b h k = k
both false b h k = h

module _ (platform : Platform) (descriptors : List ProviderDescriptor) where
  validate_binding-eq-ok :
      (seen : List ProviderId) (x : ExecutableProviderBinding)
      {b : ValidatedExecutableProviderBinding}
      → validate_binding platform descriptors seen x ≡ ok b
      → (contains seen x.provider_id ≡ false)
        × (d : ProviderDescriptor) × IsExecutable descriptors x d
        × (b ≡ validated platform x d)
  unfolding validate_binding
  validate_binding-eq-ok seen x h =
      let (u, valid, h1) = bind-eq-ok _ _ h in
      let (u1, fresh, h2) = bind-eq-ok _ _ h1 in
      let (d, found, h3) = bind-eq-ok _ _ h2 in
      let (u2, enabled, h4) = bind-eq-ok _ _ h3 in
      let (u3, matches, h5) = bind-eq-ok _ _ h4 in
      let (known, same) =
        find-some (λ (d : ProviderDescriptor). d.provider_id == x.provider_id) descriptors
          (descriptor_or-eq-ok _ _ found) in
      let (same_id, provider, same_adapter, same_model) =
        matches-fields d x (require-eq-ok _ _ matches) in
      (
        not-eq-true _ (require-eq-ok _ _ fresh),
        d,
        record {
          known = known;
          enabled = require-eq-ok _ _ enabled;
          valid = require-eq-ok _ _ valid;
          provider = provider;
          same_id = same_id;
          same_adapter = same_adapter;
          same_model = same_model;
        },
        sym (ok-injective _ refl h5),
      )

  -- Each binding that was read is validated, no two of one provider, and nothing else is there.
  pub record Validates (seen : List ProviderId) (xs : List ExecutableProviderBinding)
      (bs : List ValidatedExecutableProviderBinding) : Type 0 where
    pub covers :
        (x : ExecutableProviderBinding)
        → In x xs
        → (d : ProviderDescriptor) × IsExecutable descriptors x d × In (validated platform x d) bs
    pub comes :
        (b : ValidatedExecutableProviderBinding)
        → In b bs
        → (contains seen b.provider_id ≡ false)
          × (x : ExecutableProviderBinding) × In x xs
          × (x.provider_id ≡ b.provider_id)
    pub unique :
        (a b : ValidatedExecutableProviderBinding)
        → In a bs
        → In b bs
        → a.provider_id ≡ b.provider_id
        → a ≡ b

  not_seen :
      (seen : List ProviderId) (id other : ProviderId)
      → contains (id ∷ seen) other ≡ false
      → (contains seen other ≡ false) × (other ≢ id)
  not_seen seen id other h = ground (arith, string_eq.agrees other id)

  Validates-cons :
      (seen : List ProviderId) (x : ExecutableProviderBinding) (d : ProviderDescriptor)
      {b : ValidatedExecutableProviderBinding} {xs : List ExecutableProviderBinding}
      {bs : List ValidatedExecutableProviderBinding}
      → contains seen x.provider_id ≡ false
      → IsExecutable descriptors x d
      → b ≡ validated platform x d
      → Validates (x.provider_id ∷ seen) xs bs
      → Validates seen (x ∷ xs) (b ∷ bs)
  Validates-cons seen x d {b} {xs} {bs} fresh permits e rest = record {
    covers = λ y m. elim m [
      | inl s ↦ (
        d,
        subst (λ z. IsExecutable descriptors z d) (sym s) permits,
        inl (ap (λ z. validated platform z d) s ∙ sym e),
      )
      | inr l ↦ let (d', p, i) = rest.covers y l in (d', p, inr i)
    ];
    comes = λ c m. elim m [
      | inl s ↦ (
        subst (λ id. contains seen id ≡ false) (sym (of_first c s)) fresh,
        x,
        inl refl,
        sym (of_first c s),
      )
      | inr l ↦
          let (unseen, y, i, same) = rest.comes c l in
          ((not_seen seen x.provider_id c.provider_id unseen).0, y, inr i, same)
    ];
    unique = λ a c m n same. elim m [
      | inl s ↦ elim n [
        | inl t ↦ s ∙ sym t
        | inr l ↦ absurd (
            (not_seen seen x.provider_id c.provider_id (rest.comes c l).0).1
              (sym same ∙ of_first a s))
      ]
      | inr k ↦ elim n [
        | inl t ↦
            absurd (
              (not_seen seen x.provider_id a.provider_id (rest.comes a k).0).1
                (same ∙ of_first c t))
        | inr l ↦ rest.unique a c k l same
      ]
    ];
  }
    where
      of_first : (c : ValidatedExecutableProviderBinding) → c ≡ b → c.provider_id ≡ x.provider_id
      of_first c s = ap (λ (z : ValidatedExecutableProviderBinding). z.provider_id) (s ∙ e)

  pub validate_bindings-eq-ok :
      (seen : List ProviderId) (xs : List ExecutableProviderBinding)
      {bs : List ValidatedExecutableProviderBinding}
      → validate_bindings platform descriptors seen xs ≡ ok bs
      → Validates seen xs bs
  unfolding validate_bindings
  validate_bindings-eq-ok seen [] {bs} h =
      subst (Validates seen []) (ok-injective _ refl h) (record {
        covers = λ x m. elim m [ ];
        comes = λ b m. elim m [ ];
        unique = λ a b m n same. elim m [ ];
      })
  validate_bindings-eq-ok seen (x ∷ xs) {bs} h =
      let (b, one, h1) = bind-eq-ok _ _ h in
      let (others, all_rest, h2) = bind-eq-ok _ _ h1 in
      let (fresh, d, permits, e) = validate_binding-eq-ok seen x one in
      subst (Validates seen (x ∷ xs)) (ok-injective _ refl h2) (
        Validates-cons seen x d fresh permits e
          (validate_bindings-eq-ok (x.provider_id ∷ seen) xs all_rest))
