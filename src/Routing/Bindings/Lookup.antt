-- ===== src/Routing/Bindings/Lookup.antt =====
-- provider-binding-registry.ts: the constructor, and what `get` finds in the registry that it builds.
use chunsik_bot.Routing.Bindings.{
  Bound, read_descriptors, new_binding_registry, by_provider, validate_bindings, validated,
  ExecutableProviderBinding,
}
use chunsik_bot.Base.{
  String, true, some, List, [], ◌∷◌, In, ◌==◌, string_eq, ◌≡◌, refl, sym, ◌∙◌, ap, subst, beq_refl,
  eq_of_beq,
}
use chunsik_bot.Base.Result.{ok-injective, ok, ◌>>=◌, bind-eq-ok, then-eq-ok}
use chunsik_bot.Base.Sort.{sort}
use chunsik_bot.Base.Sort.Laws.{In-sort_iff}
use chunsik_bot.Base.Membership.{find-some, find_unique}
use chunsik_bot.Base.Platform.{Platform}
use chunsik_bot.Routing.Contracts.{
  ProviderId, ProviderDescriptor, ProviderRegistrySnapshot, RegisteredProviderSnapshot,
}
use chunsik_bot.Routing.Plan.{
  matches_snapshot, ValidatedExecutableProviderBinding, ProviderBindingRegistry, get_binding,
}
use chunsik_bot.Routing.Bindings.Validation.{IsExecutable, both, Validates, validate_bindings-eq-ok}

-- The registry answers for each binding it was built from, with a digest over what the snapshot's
-- descriptor and the binding agree on.
pub record Binds (platform : Platform) (descriptors : List ProviderDescriptor)
    (bindings : List ExecutableProviderBinding) (registry : ProviderBindingRegistry) : Type 0 where
  pub binds :
      (x : ExecutableProviderBinding)
      → In x bindings
      → (d : ProviderDescriptor) × IsExecutable descriptors x d
        × (get_binding registry x.provider_id ≡ some (validated platform x d))
  pub only :
      (id : ProviderId) (b : ValidatedExecutableProviderBinding)
      → get_binding registry id ≡ some b
      → (x : ExecutableProviderBinding) × In x bindings × (x.provider_id ≡ id)

sorted-Binds :
    (platform : Platform) (descriptors : List ProviderDescriptor)
    (bindings : List ExecutableProviderBinding) (checked : List ValidatedExecutableProviderBinding)
    (version digest : String)
    → Validates platform descriptors [] bindings checked
    → Binds platform descriptors bindings (record {
      bindings = sort (by_provider platform) checked;
      registry_version = version;
      registry_configuration_digest = digest;
    })
unfolding get_binding
sorted-Binds platform descriptors bindings checked version digest v = record {
  binds = λ x m.
      let (d, permits, i) = v.covers x m in
      (
        d,
        permits,
        find_unique (λ (b : ValidatedExecutableProviderBinding). b.provider_id == x.provider_id)
            (sort (by_provider platform) checked) (validated platform x d)
            ((In-sort_iff (by_provider platform) _ checked).1 i) (beq_refl x.provider_id)
            (λ y l same.
              v.unique y (validated platform x d)
                ((In-sort_iff (by_provider platform) y checked).0 l) i
                (eq_of_beq y.provider_id x.provider_id same)),
      );
  only = λ id b e.
      let (l, same) =
        find-some (λ (b : ValidatedExecutableProviderBinding). b.provider_id == id)
          (sort (by_provider platform) checked) e in
      let (fresh, x, i, at) = v.comes b ((In-sort_iff (by_provider platform) b checked).0 l) in
      (x, i, at ∙ eq_of_beq b.provider_id id same);
}

-- The descriptors of a snapshot, whatever their availability.
abbrev pub descriptors_of : List RegisteredProviderSnapshot → List ProviderDescriptor
descriptors_of [] = []
descriptors_of (entry ∷ rest) = entry.descriptor ∷ descriptors_of rest

read_descriptors-eq-ok :
    (seen : List ProviderId) (entries : List RegisteredProviderSnapshot)
    {ds : List ProviderDescriptor}
    → read_descriptors seen entries ≡ ok ds
    → descriptors_of entries ≡ ds
unfolding read_descriptors
read_descriptors-eq-ok seen [] h = ok-injective _ refl h
read_descriptors-eq-ok seen (entry ∷ rest) h =
    let (u, valid, h1) =
      bind-eq-ok {A = Unit {0}} _
        (λ _. read_descriptors (entry.descriptor.provider_id ∷ seen) rest >>= λ others.
          ok (entry.descriptor ∷ others))
        h in
    let (others, all_rest, h2) =
      bind-eq-ok (read_descriptors (entry.descriptor.provider_id ∷ seen) rest)
        (λ others. ok (entry.descriptor ∷ others)) h1 in
    ap (λ ds. entry.descriptor ∷ ds)
      (read_descriptors-eq-ok (entry.descriptor.provider_id ∷ seen) rest all_rest)
    ∙ ok-injective _ refl h2

-- When the constructor throws nothing, the registry matches the snapshot it was built from. `get` then
-- answers for every binding that was passed: with that binding's provider and version, and a digest
-- over it and a descriptor of the snapshot that is enabled and has the same provider, adapter and
-- model. What `get` finds has the id of a binding that was passed.
pub new_binding_registry-Binds :
    (platform : Platform) (snapshot : ProviderRegistrySnapshot)
    (bindings : List ExecutableProviderBinding) {registry : ProviderBindingRegistry}
    → new_binding_registry platform snapshot bindings ≡ ok registry
    → (matches_snapshot registry snapshot ≡ true)
      × Binds platform (descriptors_of snapshot.providers) bindings registry
unfolding new_binding_registry matches_snapshot
new_binding_registry-Binds platform snapshot bindings h =
    let build : List ValidatedExecutableProviderBinding → Bound ProviderBindingRegistry = λ checked.
      ok (record {
        bindings = sort (by_provider platform) checked;
        registry_version = snapshot.version;
        registry_configuration_digest = snapshot.configuration_digest;
      }) in
    let validate : List ProviderDescriptor → Bound ProviderBindingRegistry =
      λ descriptors. validate_bindings platform descriptors [] bindings >>= build in
    let (full, rest) = then-eq-ok _ _ h in
    let (identified, rest1) = then-eq-ok _ _ rest in
    let (descriptors, read, h1) =
      bind-eq-ok (read_descriptors [] snapshot.providers) validate rest1 in
    let (checked, validates, h2) =
      bind-eq-ok (validate_bindings platform descriptors [] bindings) build h1 in
    subst
      (λ registry.
        (matches_snapshot registry snapshot ≡ true)
        × Binds platform (descriptors_of snapshot.providers) bindings registry)
      (ok-injective _ refl h2)
      (
        both _ _ (beq_refl snapshot.version) (beq_refl snapshot.configuration_digest),
        sorted-Binds platform (descriptors_of snapshot.providers) bindings checked snapshot.version
            snapshot.configuration_digest
            (subst (λ ds. Validates platform ds [] bindings checked)
              (sym (read_descriptors-eq-ok [] snapshot.providers read))
              (validate_bindings-eq-ok platform descriptors [] bindings validates)),
      )
