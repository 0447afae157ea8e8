-- ===== src/Routing/Tests/Bindings.antt =====
-- Bindings of two providers.
use chunsik_bot.Base.Sort.{sort}
use chunsik_bot.Base.Text.{is_routing_identifier, is_sha256, is_version}
use chunsik_bot.Base.{◌≡◌, refl, true, List, [], ◌∷◌, String}
use chunsik_bot.Base.Result.{ok}
use chunsik_bot.Routing.Plan.{ProviderBindingRegistry, matches_snapshot}
use chunsik_bot.Routing.Bindings.{
  validate_binding, validate_bindings, valid_opaque, read_descriptors, ExecutableProviderBinding,
  validated, new_binding_registry,
}
use chunsik_bot.Routing.Bindings.Lookup.{Binds, descriptors_of, new_binding_registry-Binds}
use chunsik_bot.Routing.Contracts.{ReliabilityTier}
use chunsik_bot.Routing.Tests.Selection.{provider, registry}
use chunsik_bot.Samples.{sample_platform, sample_digest}

abbrev pub executable : String → ExecutableProviderBinding
executable id = record {
  provider_id = id;
  adapter_id = "cli";
  model_id = "model";
  binding_version = "1.0.0";
  provider = id;
}

abbrev pub executables : List ExecutableProviderBinding
executables = executable "large" ∷ executable "small" ∷ []

abbrev pub bound_registry : ProviderBindingRegistry
bound_registry = record {
  bindings =
      validated sample_platform (executable "large") (provider "large" ReliabilityTier.high)
      ∷ validated sample_platform (executable "small") (provider "small" ReliabilityTier.low)
      ∷ [];
  registry_version = "1.0.0";
  registry_configuration_digest = sample_digest;
}

pub built : new_binding_registry sample_platform registry executables ≡ ok bound_registry
unfolding new_binding_registry is_version is_sha256 read_descriptors is_routing_identifier
    valid_opaque validate_bindings validate_binding sort
built = refl

new_binding_registry-Binds_example :
    (matches_snapshot bound_registry registry ≡ true)
    × Binds sample_platform (descriptors_of registry.providers) executables bound_registry
new_binding_registry-Binds_example =
    new_binding_registry-Binds sample_platform registry executables built
