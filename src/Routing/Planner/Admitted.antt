-- ===== src/Routing/Planner/Admitted.antt =====
-- provider-execution-plan.ts with provider-routing-gateway.ts: a plan that the planner creates, before
-- the gateway's checks.
use chunsik_bot.Routing.Planner.Create.{
  check_decision, choose_targets, selection_decision_id, plan_of, create,
}
use chunsik_bot.Routing.Planner.{
  present_or, assert_provider_execution_targets, Planned, RoutingFailureCode,
  ProviderExecutionPlanError, ProviderExecutionPlanInput, ExecutionTargets,
}
use chunsik_bot.Base.{
  ◌≡◌, refl, subst, String, true, false, Option, none, some, List, ◌==◌, string_eq, arith, beq_refl,
}
use chunsik_bot.Base.Text.{is_version}
use chunsik_bot.Base.Result.{ok, err, ◌>>=◌, ◌>>◌, ok-injective, then-eq-ok}
use chunsik_bot.Base.Platform.{Platform, HasHexDigests}
use chunsik_bot.Domain.{capability_eq}
use chunsik_bot.Routing.Contracts.{
  ProviderId, PolicyId, ProviderRegistrySnapshot, ProviderSelectionDecision,
}
use chunsik_bot.Routing.Plan.{
  ProviderBindingRegistry, ProviderExecutionPlan, ExecutionTargetPurpose, purpose_eq, DeadlineClass,
  execution_configuration_digest_of, plan_digest_of, matches_snapshot,
}
use chunsik_bot.Routing.Bindings.{ExecutableProviderBinding, new_binding_registry}
use chunsik_bot.Routing.Profile.{
  ValidationProfileConfiguration, ValidationProfileDefinition, new_profile_registry, resolve,
}
use chunsik_bot.Routing.Gateway.{routing, AiRequest, DeadlineBudget}
use chunsik_bot.Routing.Gateway.Checks.{
  timeout_invalid, texts_malformed, structure_malformed, validate_plan_shape, targets,
}
use chunsik_bot.Routing.Gateway.Run.{preflight, budget_valid}
use chunsik_bot.Routing.Response.Accepted.{new_gateway, profile_view}
use chunsik_bot.Routing.Planner.Sources.{
  IsConsistent, new_binding_registry-IsConsistent, IsIdentified, resolve-IsIdentified,
}
use chunsik_bot.Routing.Planner.Inversion.{
  Decided, check_decision-eq-ok, AreBuilt, choose_targets-eq-ok, AreAsserted, assert-eq-ok,
}
use chunsik_bot.Routing.Planner.Shapes.{
  all_of_or, AreSound, targets-AreSound, has_purpose_sound, Pass, Pass-cons, Pass-present, Pass-nil,
}

module _ (platform : Platform) (decision : ProviderSelectionDecision)
    (registry : ProviderRegistrySnapshot) (bindings : ProviderBindingRegistry)
    (profiles : List ValidationProfileDefinition) (input : ProviderExecutionPlanInput) where
  -- The parts of a plan that is created, with what was checked of them.
  pub record Parts (plan : ProviderExecutionPlan) : Type 0 where
    pub selected : ProviderId
    pub matched : PolicyId
    pub profile : ValidationProfileDefinition
    pub t : ExecutionTargets
    pub decided : Decided platform decision registry bindings input selected matched
    pub resolved : resolve profiles input.validation_profile ≡ some profile
    pub built : AreBuilt bindings t
    pub asserted : AreAsserted decision.eligible_provider_ids t
    pub whole : plan_of platform decision profile input matched t ≡ plan

  create-Parts :
      {plan : ProviderExecutionPlan}
      → create platform decision registry bindings profiles input ≡ ok plan
      → Parts plan
  unfolding create
  create-Parts {plan} h =
      decide (check_decision platform decision registry bindings input) refl
        (resolve profiles input.validation_profile) refl h
    where
      unknown : ProviderExecutionPlanError
      unknown = record {
        code = routing RoutingFailureCode.unknown_validation_profile;
        message = "Unknown validation profile";
      }

      choose :
          (selected : ProviderId) (matched : PolicyId) (profile : ValidationProfileDefinition)
          → Decided platform decision registry bindings input selected matched
          → resolve profiles input.validation_profile ≡ some profile
          → (chosen : Planned ExecutionTargets)
          → choose_targets decision registry bindings profile selected ≡ chosen
          → (chosen >>= λ t.
              assert_provider_execution_targets t decision.eligible_provider_ids registry bindings
                profile
              >> ok (plan_of platform decision profile input matched t))
            ≡ ok plan
          → Parts plan
      choose selected matched profile decided resolved (err x) e h = cc
      choose selected matched profile decided resolved (ok t) e h =
          let (checked, whole) =
            then-eq-ok
              (assert_provider_execution_targets t decision.eligible_provider_ids registry bindings
                profile)
              (ok (plan_of platform decision profile input matched t)) h in
          record {
            selected = selected;
            matched = matched;
            profile = profile;
            t = t;
            decided = decided;
            resolved = resolved;
            built = choose_targets-eq-ok decision registry bindings profile selected e;
            asserted =
                assert-eq-ok t decision.eligible_provider_ids registry bindings profile checked;
            whole = ok-injective _ refl whole;
          }

      decide :
          (decided : Planned (ProviderId × PolicyId))
          → check_decision platform decision registry bindings input ≡ decided
          → (found : Option ValidationProfileDefinition)
          → resolve profiles input.validation_profile ≡ found
          → (decided >>= λ pair. present_or found unknown >>= λ profile.
              choose_targets decision registry bindings profile pair.0 >>= λ t.
              assert_provider_execution_targets t decision.eligible_provider_ids registry bindings
                profile
              >> ok (plan_of platform decision profile input pair.1 t))
            ≡ ok plan
          → Parts plan
      decide (err x) e found f h = cc
      decide (ok (selected, matched)) e none f h = cc
      decide (ok (selected, matched)) e (some profile) f h =
          choose selected matched profile
            (check_decision-eq-ok platform decision registry bindings input e) f
            (choose_targets decision registry bindings profile selected) refl h

  module _ (hex : HasHexDigests platform) (consistent : IsConsistent bindings) (request : AiRequest)
      {plan : ProviderExecutionPlan} (parts : Parts plan) (identified : IsIdentified parts.profile)
      (capable : request.capability ≡ input.capability)
      (timed : timeout_invalid request.timeout_ms ≡ false) where
    abbrev made : ProviderExecutionPlan
    made = plan_of platform decision parts.profile input parts.matched parts.t

    texts-made : texts_malformed made request ≡ false
    unfolding texts_malformed plan_of selection_decision_id execution_configuration_digest_of
        plan_digest_of
    texts-made = rw (
      parts.decided.matched_id,
      parts.decided.policy_version,
      parts.decided.registry_version,
      parts.decided.registry_digest,
      parts.decided.policy_digest,
      parts.decided.digest,
      identified.0,
      identified.1,
      parts.decided.profile_id,
      parts.decided.execution_id,
      timed,
      hex _,
      hex _,
      hex _,
    )

    sound : AreSound bindings parts.t
    sound =
        targets-AreSound bindings decision.eligible_provider_ids parts.t consistent
          parts.decided.eligible_ids parts.built parts.asserted

    made-Pass : Pass bindings (targets made)
    unfolding plan_of
    made-Pass = Pass-cons bindings parts.t.primary_target _ sound.primary (
        Pass-present bindings parts.t.operational_fallback _ sound.fallback (
          Pass-present bindings parts.t.semantic_escalation _ sound.escalation (Pass-nil bindings)))

    structure-made : structure_malformed platform made request ≡ false
    unfolding structure_malformed plan_of execution_configuration_digest_of plan_digest_of
    structure-made = all_of_or (
      parts.decided.combined,
      (purpose_eq.agrees _ _).1 sound.primary.has_purpose,
      has_purpose_sound bindings ExecutionTargetPurpose.fallback _ sound.fallback,
      has_purpose_sound bindings ExecutionTargetPurpose.escalation _ sound.escalation,
      parts.asserted.fallback_differs,
      parts.asserted.escalation_differs,
      parts.asserted.both_differ,
      made-Pass.0,
      refl,
      refl,
      refl,
      beq_refl {A = String} _,
      beq_refl {A = String} _,
      (capability_eq.agrees _ _).1 capable,
    )

    shape-made : validate_plan_shape platform made request ≡ none
    unfolding validate_plan_shape
    shape-made = rw (texts-made, structure-made)

    preflight-made :
        (deadline_version : String) (resolve_deadline : DeadlineClass → Option DeadlineBudget)
        {budget : DeadlineBudget}
        → is_version deadline_version ≡ true
        → resolve_deadline input.deadline_class ≡ some budget
        → budget_valid budget ≡ true
        → preflight platform
            (new_gateway bindings profiles deadline_version resolve_deadline)
            made
            request
          ≡ ok (profile_view parts.profile, budget)
    unfolding preflight plan_of matches_snapshot
    preflight-made deadline_version resolve_deadline {budget} version resolved valid =
        let same_version : (decision.registry_version == bindings.registry_version) ≡ true =
          ground (
            arith,
            parts.decided.matches,
            parts.decided.same_version,
            string_eq.agrees decision.registry_version registry.version,
            string_eq.agrees registry.version bindings.registry_version,
            string_eq.agrees decision.registry_version bindings.registry_version,
          ) in
        let same_digest : (decision.registry_configuration_digest
              == bindings.registry_configuration_digest)
            ≡ true =
          ground (
            arith,
            parts.decided.matches,
            parts.decided.same_digest,
            string_eq.agrees decision.registry_configuration_digest registry.configuration_digest,
            string_eq.agrees registry.configuration_digest bindings.registry_configuration_digest,
            string_eq.agrees decision.registry_configuration_digest
                bindings.registry_configuration_digest,
          ) in
        rw (
          shape-made,
          version,
          same_version,
          same_digest,
          parts.resolved,
          beq_refl parts.profile.version,
          beq_refl parts.profile.configuration_digest,
          made-Pass.1,
          resolved,
          valid,
        )

-- The planner and the gateway agree. Take a registry of bindings and one of profiles that their
-- constructors accept, and a plan that `create` returns for them. A gateway over these registries, with a
-- deadline policy that has a well-formed version and a valid budget for the plan's class, finds nothing to
-- refuse: its preflight passes for every request for the plan's capability whose timeout is absent or
-- positive. A digest is assumed to have 64 hexadecimal digits.
pub create-preflight :
    (platform : Platform)
    → HasHexDigests platform
    → (snapshot : ProviderRegistrySnapshot) (executables : List ExecutableProviderBinding)
      (configurations : List ValidationProfileConfiguration) (decision : ProviderSelectionDecision)
      (registry : ProviderRegistrySnapshot) (input : ProviderExecutionPlanInput)
      (deadline_version : String) (resolve_deadline : DeadlineClass → Option DeadlineBudget)
      (request : AiRequest) {bindings : ProviderBindingRegistry}
      {profiles : List ValidationProfileDefinition} {plan : ProviderExecutionPlan}
      {budget : DeadlineBudget}
    → new_binding_registry platform snapshot executables ≡ ok bindings
    → new_profile_registry platform configurations ≡ ok profiles
    → create platform decision registry bindings profiles input ≡ ok plan
    → is_version deadline_version ≡ true
    → resolve_deadline input.deadline_class ≡ some budget
    → budget_valid budget ≡ true
    → request.capability ≡ input.capability
    → timeout_invalid request.timeout_ms ≡ false
    → (profile : ValidationProfileDefinition) × (resolve profiles input.validation_profile
        ≡ some profile)
      × (preflight platform
            (new_gateway bindings profiles deadline_version resolve_deadline)
            plan
            request
          ≡ ok (profile_view profile, budget))
create-preflight platform hex snapshot executables configurations decision registry input
      deadline_version resolve_deadline request {bindings} {profiles} {plan} {budget} bound profiled
      created version resolved valid capable timed =
    let parts = create-Parts platform decision registry bindings profiles input created in
    (
      parts.profile,
      parts.resolved,
      subst
          (λ p.
            preflight platform (new_gateway bindings profiles deadline_version resolve_deadline) p
              request
            ≡ ok (profile_view parts.profile, budget))
          parts.whole
          (preflight-made platform decision registry bindings profiles input hex
            (new_binding_registry-IsConsistent platform hex snapshot executables bound) request
            parts
            (resolve-IsIdentified platform hex configurations profiled input.validation_profile
              parts.resolved)
            capable timed deadline_version resolve_deadline version resolved valid),
    )
