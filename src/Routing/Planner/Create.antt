-- ===== src/Routing/Planner/Create.antt =====
-- provider-execution-plan.ts: `ProviderExecutionPlanner.create`: the guards on the selection, the choice
-- of the targets, and the plan with its digests.
use chunsik_bot.Base.{
  String, Bool, true, false, not, ◌&&◌, Option, none, some, List, [], ◌∷◌, map, filter, find, all,
  contains, distinct, is_some, if◌then◌else◌, ◌==◌, string_eq, ltb, leb,
}
use chunsik_bot.Base.Text.{is_routing_identifier, is_version, is_sha256}
use chunsik_bot.Base.Result.{ok, ◌>>=◌, ◌>>◌, require}
use chunsik_bot.Base.Json.{str, json_object, json_array, stringify}
use chunsik_bot.Base.Platform.{Platform}
use chunsik_bot.Routing.Contracts.{
  ProviderId, PolicyId, ProviderRegistrySnapshot, ProviderSelectionDecision,
}
use chunsik_bot.Routing.Contracts.Enums.{ReliabilityTier, RoutingReasonCode}
use chunsik_bot.Routing.Contracts.Names.{routing_reason_code_name}
use chunsik_bot.Routing.Failure.{RoutingFailureCode}
use chunsik_bot.Routing.Plan.{
  ProviderBindingFailureCode, ProviderBindingRegistry, get_binding, matches_snapshot,
  ExecutionTargetPurpose, purpose_eq, max_provider_attempts, max_additional_provider_hops,
  failure_matrix_version, ProviderExecutionTarget, ProviderExecutionPlan,
  combined_routing_configuration_digest, execution_configuration_digest_of, plan_digest_of,
}
use chunsik_bot.Routing.Profile.{ValidationReliabilityAxis, ValidationProfileDefinition, resolve}
use chunsik_bot.Routing.Gateway.Checks.{is_provider}
use chunsik_bot.Routing.Gateway.{routing}
use chunsik_bot.Routing.Planner.{
  ProviderExecutionPlanInput, Planned, plan_error, mismatch, present_or, reliability_score,
  optional_text, reliability, check_entry, ExecutionTargets, escalation_axis, minimum_reliability,
  assert_provider_execution_targets,
}

unfoldable pub target_of :
    ExecutionTargetPurpose → ProviderId → ProviderBindingRegistry → Option ProviderExecutionTarget
target_of purpose id bindings = elim (get_binding bindings id) [
  | none ↦ none
  | some bound ↦
      some (record { purpose = purpose; provider_id = id; binding_identity = bound.identity })
]

-- `id ? target(purpose, id, bindings) : null`
abbrev pub target_if :
    ExecutionTargetPurpose
    → Option ProviderId
    → ProviderBindingRegistry
    → Option ProviderExecutionTarget
target_if purpose none bindings = none
target_if purpose (some id) bindings = if id == "" then none else target_of purpose id bindings

unfoldable pub executable_candidates :
    List ProviderId → ProviderId → ProviderBindingRegistry → List ProviderId
executable_candidates eligible selected bindings =
    filter (λ id. not (id == selected) && is_some (get_binding bindings id)) eligible

-- `candidates.find(…)`, whose test can throw.
unfoldable pub find_stronger :
    ProviderRegistrySnapshot
    → ValidationReliabilityAxis
    → ReliabilityTier
    → ReliabilityTier
    → List ProviderId
    → Planned (Option ProviderId)
find_stronger registry axis base minimum [] = ok none
find_stronger registry axis base minimum (candidate ∷ rest) =
    let later = find_stronger registry axis base minimum rest in
    reliability registry candidate axis >>= λ reached.
    if ltb (reliability_score base) (reliability_score reached)
      && leb (reliability_score minimum) (reliability_score reached)
    then ok (some candidate)
    else later

unfoldable pub choose_escalation :
    Option ValidationReliabilityAxis
    → ProviderRegistrySnapshot
    → ValidationProfileDefinition
    → ProviderId
    → List ProviderId
    → Planned (Option ProviderId)
choose_escalation none registry profile primary candidates = ok none
choose_escalation (some axis) registry profile primary candidates = do
  base ← reliability registry primary axis
  find_stronger registry axis base (minimum_reliability profile) candidates

unfoldable pub check_eligible : ProviderRegistrySnapshot → List ProviderId → Planned (Unit {0})
check_eligible registry [] = ok tt
check_eligible registry (id ∷ rest) = do
  check_entry registry id "Eligible Provider"
  check_eligible registry rest

abbrev pub is_selected : RoutingReasonCode → Bool
is_selected RoutingReasonCode.selected = true
is_selected _ = false

-- What the guards on the decision and the input give.
unfoldable pub check_decision :
    Platform
    → ProviderSelectionDecision
    → ProviderRegistrySnapshot
    → ProviderBindingRegistry
    → ProviderExecutionPlanInput
    → Planned (ProviderId × PolicyId)
check_decision platform decision registry bindings input = do
  require (is_selected decision.reason_code) (mismatch "A selected Provider decision is required")
  selected ←
      present_or decision.selected_provider_id (mismatch "A selected Provider decision is required")
  matched ←
      present_or decision.matched_policy_id (mismatch "A selected Provider decision is required")
  require (contains decision.eligible_provider_ids selected)
      (mismatch "Selected Provider must be eligible")
  require
      (is_routing_identifier selected
        && is_routing_identifier matched
        && distinct decision.eligible_provider_ids
        && all is_routing_identifier decision.eligible_provider_ids)
      (mismatch "Invalid selection identity")
  require (is_version decision.policy_version && is_version decision.registry_version)
      (mismatch "Invalid selection version")
  require
      (is_sha256 decision.registry_configuration_digest
        && is_sha256 decision.policy_configuration_digest
        && is_sha256 decision.configuration_digest)
      (mismatch "Invalid selection configuration digest")
  require
      (decision.registry_version == registry.version
        && decision.registry_configuration_digest == registry.configuration_digest
        && matches_snapshot bindings registry
        && decision.configuration_digest
          == combined_routing_configuration_digest platform decision.registry_configuration_digest
              decision.policy_configuration_digest)
      (mismatch "Routing configuration identity mismatch")
  require
      (is_routing_identifier input.validation_profile && is_routing_identifier input.execution_id)
      (mismatch "Invalid execution input")
  ok (selected, matched)

unfoldable pub choose_targets :
    ProviderSelectionDecision
    → ProviderRegistrySnapshot
    → ProviderBindingRegistry
    → ValidationProfileDefinition
    → ProviderId
    → Planned ExecutionTargets
choose_targets decision registry bindings profile selected = do
  check_eligible registry decision.eligible_provider_ids
  primary_target ← present_or (target_of ExecutionTargetPurpose.primary selected bindings) (
      plan_error ProviderBindingFailureCode.provider_binding_not_found
        "Selected Provider has no executable binding")
  let candidates = executable_candidates decision.eligible_provider_ids selected bindings
  escalation_id ←
      choose_escalation (escalation_axis profile) registry profile primary_target.provider_id
        candidates
  let escalation = target_if ExecutionTargetPurpose.escalation escalation_id bindings
  let fallback_id = find (λ candidate. not (is_provider escalation candidate)) candidates
  ok (record {
    primary_target = primary_target;
    operational_fallback = target_if ExecutionTargetPurpose.fallback fallback_id bindings;
    semantic_escalation = escalation;
  })

module _ (platform : Platform) where
  unfoldable pub selection_decision_id : ProviderSelectionDecision → String
  selection_decision_id decision = platform.sha256 (
      stringify (
        json_object (
          ("selectedProviderId", optional_text decision.selected_provider_id)
          ∷ ("eligibleProviderIds", json_array (map str decision.eligible_provider_ids))
          ∷ ("matchedPolicyId", optional_text decision.matched_policy_id)
          ∷ ("reasonCode", str (routing_reason_code_name decision.reason_code))
          ∷ ("policyVersion", str decision.policy_version)
          ∷ ("registryVersion", str decision.registry_version)
          ∷ ("registryConfigurationDigest", str decision.registry_configuration_digest)
          ∷ ("policyConfigurationDigest", str decision.policy_configuration_digest)
          ∷ ("configurationDigest", str decision.configuration_digest)
          ∷ [])))

  -- The plan with two of its digests given.
  abbrev pub plan_with :
      ProviderSelectionDecision
      → ValidationProfileDefinition
      → ProviderExecutionPlanInput
      → PolicyId
      → ExecutionTargets
      → String
      → String
      → ProviderExecutionPlan
  plan_with decision profile input matched t execution_digest plan_digest = record {
    registry_configuration_digest = decision.registry_configuration_digest;
    policy_configuration_digest = decision.policy_configuration_digest;
    validation_profile_configuration_digest = profile.configuration_digest;
    failure_matrix = failure_matrix_version;
    max_attempts = max_provider_attempts;
    max_additional_hops = max_additional_provider_hops;
    deadline_class = input.deadline_class;
    capability = input.capability;
    validation_profile = input.validation_profile;
    matched_policy_id = matched;
    primary_target = t.primary_target;
    operational_fallback = t.operational_fallback;
    semantic_escalation = t.semantic_escalation;
    validation_profile_version = profile.version;
    decision_id = selection_decision_id decision;
    execution_id = input.execution_id;
    execution_configuration_digest = execution_digest;
    plan_digest = plan_digest;
    policy_version = decision.policy_version;
    registry_version = decision.registry_version;
    configuration_digest = decision.configuration_digest;
  }

  -- The digest of the material does not read the two digests of the plan.
  unfoldable pub plan_of :
      ProviderSelectionDecision
      → ValidationProfileDefinition
      → ProviderExecutionPlanInput
      → PolicyId
      → ExecutionTargets
      → ProviderExecutionPlan
  plan_of decision profile input matched t =
      plan_with decision profile input matched t
        (execution_configuration_digest_of platform
          (plan_with decision profile input matched t "" ""))
        (plan_digest_of platform (selection_decision_id decision) (
          execution_configuration_digest_of platform
            (plan_with decision profile input matched t "" "")))

  unfoldable pub create :
      ProviderSelectionDecision
      → ProviderRegistrySnapshot
      → ProviderBindingRegistry
      → List ValidationProfileDefinition
      → ProviderExecutionPlanInput
      → Planned ProviderExecutionPlan
  create decision registry bindings profiles input = do
    (selected, matched) ← check_decision platform decision registry bindings input
    profile ← present_or (resolve profiles input.validation_profile) (record {
      code = routing RoutingFailureCode.unknown_validation_profile;
      message = "Unknown validation profile";
    })
    t ← choose_targets decision registry bindings profile selected
    assert_provider_execution_targets t decision.eligible_provider_ids registry bindings profile
    ok (plan_of decision profile input matched t)
