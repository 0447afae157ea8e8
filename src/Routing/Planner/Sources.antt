-- ===== src/Routing/Planner/Sources.antt =====
-- provider-binding-registry.ts, validation-profile-registry.ts: what a plan takes from the registries.
use chunsik_bot.Routing.Profile.Lookup.{new_profile_registry-Resolves}
use chunsik_bot.Routing.Planner.Create.{target_of}
use chunsik_bot.Routing.Planner.{stringify}
use chunsik_bot.Base.{
  ◌≡◌, refl, sym, ap, ◌∙◌, subst, true, false, Option, none, some, List, string_eq, arith, beq_refl,
  some-injective, none_not_some,
}
use chunsik_bot.Base.Text.{is_routing_identifier, is_version, is_sha256}
use chunsik_bot.Base.Result.{ok}
use chunsik_bot.Base.Sort.{sort}
use chunsik_bot.Base.Platform.{Platform, HasHexDigests}
use chunsik_bot.Routing.Contracts.{ProviderId, ProviderRegistrySnapshot, ValidationProfileId}
use chunsik_bot.Routing.Plan.{
  ProviderBindingRegistry, ValidatedExecutableProviderBinding, get_binding, ExecutionTargetPurpose,
  ProviderExecutionTarget,
}
use chunsik_bot.Routing.Bindings.{
  ExecutableProviderBinding, new_binding_registry, validated, binding_digest,
}
use chunsik_bot.Routing.Bindings.Lookup.{new_binding_registry-Binds}
use chunsik_bot.Routing.Profile.{
  by_rule_order, canonical_profile, ValidationProfileConfiguration, ValidationProfileDefinition,
  definition_of, normalize, new_profile_registry, resolve,
}
use chunsik_bot.Routing.Gateway.Checks.{binding_failure, target_malformed}

-- A binding that a registry finds for an id carries that id and a well-formed identity.
pub record IsBoundAs (id : ProviderId) (bound : ValidatedExecutableProviderBinding) : Type 0 where
  pub same : bound.provider_id ≡ id
  pub same_identity : bound.identity.provider_id ≡ id
  pub same_provider : bound.provider ≡ id
  pub version : is_version bound.identity.binding_version ≡ true
  pub digest : is_sha256 bound.identity.binding_digest ≡ true

abbrev pub IsConsistent : ProviderBindingRegistry → Type 0
IsConsistent bindings =
    (id : ProviderId) (bound : ValidatedExecutableProviderBinding)
    → get_binding bindings id ≡ some bound
    → IsBoundAs id bound

pub new_binding_registry-IsConsistent :
    (platform : Platform)
    → HasHexDigests platform
    → (snapshot : ProviderRegistrySnapshot) (executables : List ExecutableProviderBinding)
      {bindings : ProviderBindingRegistry}
    → new_binding_registry platform snapshot executables ≡ ok bindings
    → IsConsistent bindings
unfolding binding_digest
new_binding_registry-IsConsistent platform hex snapshot executables {bindings} built id bound
      found =
    let binds = (new_binding_registry-Binds platform snapshot executables built).1 in
    let (x, m, same) = binds.only id bound found in
    let (d, executable, at) = binds.binds x m in
    let same_bound : validated platform x d ≡ bound =
      some-injective (sym at ∙ ap (get_binding bindings) same ∙ found) in
    subst (IsBoundAs id) same_bound (record {
      same = same;
      same_identity = same;
      same_provider = executable.provider ∙ same;
      version = ground (arith, executable.valid);
      digest = hex _;
    })

-- A target is built from such a binding, so the gateway finds nothing wrong with it.
pub record IsSound (bindings : ProviderBindingRegistry) (purpose : ExecutionTargetPurpose)
    (target : ProviderExecutionTarget) : Type 0 where
  pub has_purpose : target.purpose ≡ purpose
  pub bound : binding_failure bindings target ≡ none
  pub formed : target_malformed target ≡ false

pub target_of-IsSound :
    (bindings : ProviderBindingRegistry)
    → IsConsistent bindings
    → (purpose : ExecutionTargetPurpose) (id : ProviderId) {target : ProviderExecutionTarget}
    → is_routing_identifier target.provider_id ≡ true
    → target_of purpose id bindings ≡ some target
    → IsSound bindings purpose target
unfolding target_of binding_failure
target_of-IsSound bindings consistent purpose id {target} valid built =
    helper (get_binding bindings id) refl built
  where
    helper :
        (found : Option ValidatedExecutableProviderBinding)
        → get_binding bindings id ≡ found
        → ◌≡◌ {A = Option ProviderExecutionTarget}
            (elim found [
              | none ↦ none
              | some bound ↦ some (record {
                purpose = purpose;
                provider_id = id;
                binding_identity = bound.identity;
              })
            ])
            (some target)
        → IsSound bindings purpose target
    helper none e h = absurd (none_not_some h)
    helper (some bound) e h =
        let facts = consistent id bound e in
        let same : ◌≡◌ {A = ProviderExecutionTarget}
            (record { purpose = purpose; provider_id = id; binding_identity = bound.identity })
            target =
          some-injective h in
        let valid_id : is_routing_identifier id ≡ true =
          subst (λ (t : ProviderExecutionTarget). is_routing_identifier t.provider_id ≡ true)
            (sym same) valid in
        subst (IsSound bindings purpose) same (record {
          has_purpose = refl;
          bound = rw (
            e,
            binding_failure,
            facts.same,
            facts.same_identity,
            facts.same_provider,
            beq_refl id,
            beq_refl bound.identity.binding_version,
            beq_refl bound.identity.binding_digest,
          );
          formed = rw (valid_id, facts.same_identity, beq_refl id, facts.version, facts.digest);
        })

normalize-eq-ok :
    (platform : Platform)
    → HasHexDigests platform
    → (c : ValidationProfileConfiguration) {profile : ValidationProfileDefinition}
    → normalize platform c ≡ ok profile
    → (is_version profile.version ≡ true) × (is_sha256 profile.configuration_digest ≡ true)
unfolding normalize definition_of
normalize-eq-ok platform hex c h =
    ground (arith, hex (stringify (canonical_profile c (sort by_rule_order c.rules))))

-- A profile that a registry resolves has a version and a digest.
abbrev pub IsIdentified : ValidationProfileDefinition → Type 0
IsIdentified profile =
    (is_version profile.version ≡ true) × (is_sha256 profile.configuration_digest ≡ true)

pub resolve-IsIdentified :
    (platform : Platform)
    → HasHexDigests platform
    → (cs : List ValidationProfileConfiguration) {profiles : List ValidationProfileDefinition}
    → new_profile_registry platform cs ≡ ok profiles
    → (id : ValidationProfileId) {profile : ValidationProfileDefinition}
    → resolve profiles id ≡ some profile
    → IsIdentified profile
resolve-IsIdentified platform hex cs built id {profile} found =
    let (c, among, normal, same) =
      (new_profile_registry-Resolves platform cs built).only id profile found in
    normalize-eq-ok platform hex c normal
