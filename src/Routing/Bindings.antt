-- ===== src/Routing/Bindings.antt =====
-- provider-binding-registry.ts: the constructor of `ProviderBindingRegistry`. The bindings are checked
-- in order, each against the descriptors of the snapshot; the first failure is thrown.
use Prim.Native.Nat.{suc, Ordering}
use chunsik_bot.Base.{
  ℕ, ◌+◌, String, Bool, true, false, not, ◌&&◌, ◌||◌, Option, none, some, List, [], ◌∷◌, find, any,
  is_empty, contains, if◌then◌else◌, ◌==◌, string_eq, nat_eq, list_eq, ltb, leb,
}
use chunsik_bot.Base.Text.{codes, is_routing_identifier, is_version, is_sha256}
use chunsik_bot.Base.Unicode.{trim, utf16_length}
use chunsik_bot.Base.Sort.{sort}
use chunsik_bot.Base.Result.{Result, ok, err, ◌>>=◌, ◌>>◌, require}
use chunsik_bot.Base.Json.{Json, str, json_object, stringify}
use chunsik_bot.Base.Platform.{Platform}
use chunsik_bot.Routing.Contracts.{
  ProviderId, AdapterId, ProviderDescriptor, ProviderRegistrySnapshot, RegisteredProviderSnapshot,
}
use chunsik_bot.Routing.Plan.{
  ProviderBindingFailureCode, ProviderBindingIdentity, ValidatedExecutableProviderBinding,
  ProviderBindingRegistry,
}
pub mod Lookup
pub mod Validation

pub record ProviderBindingConfigurationError : Type 0 where
  pub code : ProviderBindingFailureCode
  pub message : String

-- The provider itself is outside; the field holds `provider.id`.
pub record ExecutableProviderBinding : Type 0 where
  pub provider_id : ProviderId
  pub adapter_id : AdapterId
  pub model_id : String
  pub binding_version : String
  pub provider : String

abbrev Bound : Type 0 → Type 0
Bound = Result ProviderBindingConfigurationError

abbrev pub failure : ProviderBindingFailureCode → String → ProviderBindingConfigurationError
failure code message = record { code = code; message = message }

is_control : ℕ → Bool
is_control c = leb c 0x1f || c == 0x7f

-- `value.trim() === value && value.length > 0 && value.length <= 256 && no control character`
unfoldable pub valid_opaque : String → Bool
unfolding is_control trim utf16_length
valid_opaque value =
    trim (codes value) == codes value
    && ltb 0 (utf16_length (codes value))
    && leb (utf16_length (codes value)) 256
    && not (any is_control (codes value))

abbrev pub descriptor_valid : ProviderDescriptor → Bool
descriptor_valid d =
    is_routing_identifier d.provider_id
    && is_routing_identifier d.adapter_id
    && valid_opaque d.model_id
    && is_version d.profile_version

-- The map of descriptors by provider; `seen` holds its keys.
unfoldable pub read_descriptors :
    List ProviderId → List RegisteredProviderSnapshot → Bound (List ProviderDescriptor)
read_descriptors seen [] = ok []
read_descriptors seen (entry ∷ rest) = do
  require (descriptor_valid entry.descriptor && not (contains seen entry.descriptor.provider_id)) (
      failure ProviderBindingFailureCode.routing_configuration_mismatch
        "Invalid descriptor snapshot identity")
  others ← read_descriptors (entry.descriptor.provider_id ∷ seen) rest
  ok (entry.descriptor ∷ others)

abbrev pub binding_valid : ExecutableProviderBinding → Bool
binding_valid x =
    is_routing_identifier x.provider_id
    && is_routing_identifier x.adapter_id
    && is_version x.binding_version
    && valid_opaque x.model_id

abbrev pub binding_matches : ProviderDescriptor → ExecutableProviderBinding → Bool
binding_matches d x =
    d.provider_id == x.provider_id
    && x.provider == x.provider_id
    && d.adapter_id == x.adapter_id
    && d.model_id == x.model_id

abbrev pub descriptor_or :
    Option ProviderDescriptor → ProviderBindingConfigurationError → Bound ProviderDescriptor
descriptor_or none e = err e
descriptor_or (some d) e = ok d

module _ (platform : Platform) where
  open platform use {sha256, locale_compare}

  unfoldable pub binding_digest : ExecutableProviderBinding → ProviderDescriptor → String
  binding_digest x d = sha256 (
      stringify (
        json_object (
          ("providerId", str x.provider_id)
          ∷ ("adapterId", str x.adapter_id)
          ∷ ("modelId", str x.model_id)
          ∷ ("bindingVersion", str x.binding_version)
          ∷ ("profileVersion", str d.profile_version)
          ∷ [])))

  abbrev pub validated :
      ExecutableProviderBinding → ProviderDescriptor → ValidatedExecutableProviderBinding
  validated x d = record {
    provider_id = x.provider_id;
    identity = record {
      provider_id = x.provider_id;
      binding_version = x.binding_version;
      binding_digest = binding_digest x d;
    };
    provider = x.provider;
  }

  unfoldable pub validate_binding :
      List ProviderDescriptor
      → List ProviderId
      → ExecutableProviderBinding
      → Bound ValidatedExecutableProviderBinding
  validate_binding descriptors seen x = do
    require (binding_valid x) (
        failure ProviderBindingFailureCode.invalid_provider_binding
          "Invalid executable Provider binding")
    require (not (contains seen x.provider_id)) (
        failure ProviderBindingFailureCode.duplicate_provider_binding
          "Duplicate executable Provider binding")
    d ←
        descriptor_or
          (find (λ (d : ProviderDescriptor). d.provider_id == x.provider_id) descriptors)
          (failure ProviderBindingFailureCode.unknown_provider_binding
            "Executable binding has no descriptor")
    require d.enabled (
        failure ProviderBindingFailureCode.provider_disabled
          "Disabled Provider cannot be executable")
    require (binding_matches d x) (
        failure ProviderBindingFailureCode.provider_binding_mismatch
          "Executable Provider binding mismatch")
    ok (validated x d)

  unfoldable pub validate_bindings :
      List ProviderDescriptor
      → List ProviderId
      → List ExecutableProviderBinding
      → Bound (List ValidatedExecutableProviderBinding)
  validate_bindings descriptors seen [] = ok []
  validate_bindings descriptors seen (x ∷ rest) = do
    first ← validate_binding descriptors seen x
    others ← validate_bindings descriptors (x.provider_id ∷ seen) rest
    ok (first ∷ others)

  abbrev pub by_provider :
      ValidatedExecutableProviderBinding → ValidatedExecutableProviderBinding → Ordering
  by_provider a b = locale_compare a.provider_id b.provider_id

  unfoldable pub new_binding_registry :
      ProviderRegistrySnapshot → List ExecutableProviderBinding → Bound ProviderBindingRegistry
  new_binding_registry snapshot bindings = do
    require (is_version snapshot.version && is_sha256 snapshot.configuration_digest) (
        failure ProviderBindingFailureCode.routing_configuration_mismatch
          "Invalid Provider Registry identity")
    require (not (is_empty bindings)) (
        failure ProviderBindingFailureCode.invalid_provider_binding
          "Provider binding registry must not be empty")
    descriptors ← read_descriptors [] snapshot.providers
    checked ← validate_bindings descriptors [] bindings
    ok (record {
      bindings = sort by_provider checked;
      registry_version = snapshot.version;
      registry_configuration_digest = snapshot.configuration_digest;
    })
