-- ===== src/Routing/Tests/Planner.antt =====
-- A plan for two providers, and the gateway's checks of it.
use chunsik_bot.Routing.Bindings.{binding_digest}
use chunsik_bot.Base.Sort.{sort}
use chunsik_bot.Base.Text.{is_sha256, is_routing_identifier, is_version}
use chunsik_bot.Base.{◌≡◌, refl, none, some, [], ◌∷◌, String}
use chunsik_bot.Base.Result.{ok}
use chunsik_bot.Domain.{Capability}
use chunsik_bot.Routing.Contracts.{ProviderSelectionDecision}
use chunsik_bot.Routing.Contracts.Enums.{RoutingReasonCode}
use chunsik_bot.Routing.Plan.{
  ExecutionTargetPurpose-discrete, combined_routing_configuration_digest, matches_snapshot,
  get_binding, DeadlineClass, ExecutionTargetPurpose, ProviderExecutionTarget,
}
use chunsik_bot.Routing.Profile.{
  definition_of, RuntimeValidationRule-discrete, normalize, normalize_all,
  ValidationProfileDefinition, resolve, new_profile_registry,
}
use chunsik_bot.Routing.Gateway.{budget_of, deadline_policy_version}
use chunsik_bot.Routing.Gateway.Run.{preflight}
use chunsik_bot.Routing.Response.Accepted.{new_gateway, profile_view}
use chunsik_bot.Routing.Planner.Create.{
  choose_escalation, executable_candidates, target_of, check_eligible, choose_targets,
  check_decision, plan_of, create,
}
use chunsik_bot.Routing.Planner.{
  assert_stronger, validate_optional, validate_target, find_entry, check_entry,
  assert_provider_execution_targets, ProviderExecutionPlanInput, ExecutionTargets,
}
use chunsik_bot.Routing.Planner.Admitted.{create-preflight}
use chunsik_bot.Routing.Tests.Bindings.{executables, bound_registry, built}
use chunsik_bot.Routing.Tests.Selection.{registry}
use chunsik_bot.Routing.Tests.Response.{configuration, profile}
use chunsik_bot.Routing.Tests.Gateway.{request}
use chunsik_bot.Samples.{sample_platform, sample_platform-HasHexDigests, sample_digest}

abbrev decision : ProviderSelectionDecision
decision = record {
  selected_provider_id = some "large";
  eligible_provider_ids = "large" ∷ "small" ∷ [];
  matched_policy_id = some "main";
  reason_code = RoutingReasonCode.selected;
  policy_version = "1.0.0";
  registry_version = "1.0.0";
  registry_configuration_digest = sample_digest;
  policy_configuration_digest = sample_digest;
  configuration_digest = sample_digest;
}

abbrev input : ProviderExecutionPlanInput
input = record {
  capability = Capability.general_chat;
  validation_profile = "GENERAL_CHAT";
  deadline_class = DeadlineClass.interactive;
  execution_id = "execution-1";
}

abbrev planned : ExecutionTargetPurpose → String → ProviderExecutionTarget
planned purpose id = record {
  purpose = purpose;
  provider_id = id;
  binding_identity = record {
    provider_id = id;
    binding_version = "1.0.0";
    binding_digest = sample_digest;
  };
}

abbrev two_targets : ExecutionTargets
two_targets = record {
  primary_target = planned ExecutionTargetPurpose.primary "large";
  operational_fallback = some (planned ExecutionTargetPurpose.fallback "small");
  semantic_escalation = none;
}

pub profiled : new_profile_registry sample_platform (configuration ∷ []) ≡ ok (profile ∷ [])
unfolding new_profile_registry normalize_all normalize is_routing_identifier is_version
    RuntimeValidationRule-discrete sort
profiled = refl

created :
    create sample_platform decision registry bound_registry (profile ∷ []) input
    ≡ ok (plan_of sample_platform decision profile input "main" two_targets)
unfolding create check_decision choose_targets assert_provider_execution_targets check_eligible
    check_entry find_entry validate_target validate_optional target_of executable_candidates
    choose_escalation assert_stronger get_binding matches_snapshot resolve is_version is_sha256
    is_routing_identifier combined_routing_configuration_digest ExecutionTargetPurpose-discrete
    definition_of binding_digest
created = refl

create-preflight_example :
    (found : ValidationProfileDefinition) × (resolve (profile ∷ []) "GENERAL_CHAT" ≡ some found)
    × (preflight sample_platform
          (new_gateway bound_registry
            (profile ∷ [])
            deadline_policy_version
            (λ c. some (budget_of c)))
          (plan_of sample_platform decision profile input "main" two_targets)
          request
        ≡ ok (profile_view found, budget_of DeadlineClass.interactive))
unfolding is_version
create-preflight_example =
    create-preflight sample_platform sample_platform-HasHexDigests registry executables
      (configuration ∷ []) decision registry input deadline_policy_version (λ c. some (budget_of c))
      request built profiled created refl refl refl refl refl
