-- ===== src/Routing/Planner/Inversion.antt =====
-- provider-execution-plan.ts: what the guards of `create` have checked of a plan that it returns.
use chunsik_bot.Routing.Planner.Create.{
  check_eligible, choose_escalation, executable_candidates, target_of, target_if, choose_targets,
  check_decision,
}
use chunsik_bot.Routing.Planner.{
  assert_stronger, mismatch, escalation_axis, plan_error, present_or, same_provider, Planned,
  is_provider, ValidationProfileDefinition, validate_optional, assert_provider_execution_targets,
  validate_target, ExecutionTargets, ProviderExecutionPlanInput,
}
use chunsik_bot.Base.{
  some-injective, ◌≡◌, refl, subst, Bool, true, false, not, ◌&&◌, Option, none, some, List, find,
  all, contains, ◌==◌, string_eq, arith,
}
use chunsik_bot.Base.Text.{is_routing_identifier, is_version, is_sha256}
use chunsik_bot.Base.Result.{require-eq-ok, then-eq-ok, ok-injective, ok, err, ◌>>=◌, ◌>>◌, require}
use chunsik_bot.Base.Platform.{Platform}
use chunsik_bot.Routing.Contracts.{
  ProviderId, PolicyId, ProviderRegistrySnapshot, ProviderSelectionDecision,
}
use chunsik_bot.Routing.Plan.{
  ProviderBindingFailureCode, ProviderExecutionTarget, ExecutionTargetPurpose,
  ProviderBindingRegistry, matches_snapshot, combined_routing_configuration_digest,
}

pub record Decided (platform : Platform) (decision : ProviderSelectionDecision)
    (registry : ProviderRegistrySnapshot) (bindings : ProviderBindingRegistry)
    (input : ProviderExecutionPlanInput) (selected : ProviderId) (matched : PolicyId) : Type 0 where
  pub matched_id : is_routing_identifier matched ≡ true
  pub eligible_ids : all is_routing_identifier decision.eligible_provider_ids ≡ true
  pub policy_version : is_version decision.policy_version ≡ true
  pub registry_version : is_version decision.registry_version ≡ true
  pub registry_digest : is_sha256 decision.registry_configuration_digest ≡ true
  pub policy_digest : is_sha256 decision.policy_configuration_digest ≡ true
  pub digest : is_sha256 decision.configuration_digest ≡ true
  pub same_version : (decision.registry_version == registry.version) ≡ true
  pub same_digest : (decision.registry_configuration_digest == registry.configuration_digest) ≡ true
  pub matches : matches_snapshot bindings registry ≡ true
  pub combined :
      (decision.configuration_digest
        == combined_routing_configuration_digest platform decision.registry_configuration_digest
            decision.policy_configuration_digest)
      ≡ true
  pub profile_id : is_routing_identifier input.validation_profile ≡ true
  pub execution_id : is_routing_identifier input.execution_id ≡ true

pub check_decision-eq-ok :
    (platform : Platform) (decision : ProviderSelectionDecision)
    (registry : ProviderRegistrySnapshot) (bindings : ProviderBindingRegistry)
    (input : ProviderExecutionPlanInput) {selected : ProviderId} {matched : PolicyId}
    → check_decision platform decision registry bindings input ≡ ok (selected, matched)
    → Decided platform decision registry bindings input selected matched
unfolding check_decision
check_decision-eq-ok platform decision registry bindings input h = ground arith

-- A target of the plan, where there is one, is built from a binding.
abbrev pub Built :
    ProviderBindingRegistry → ExecutionTargetPurpose → Option ProviderExecutionTarget → Type 0
Built bindings purpose o =
    (target : ProviderExecutionTarget)
    → o ≡ some target
    → (id : ProviderId) × (target_of purpose id bindings ≡ some target)

target_if-Built :
    (purpose : ExecutionTargetPurpose) (o : Option ProviderId) (bindings : ProviderBindingRegistry)
    → Built bindings purpose (target_if purpose o bindings)
target_if-Built purpose none bindings target h = cc
target_if-Built purpose (some id) bindings target h = (id, ground (arith, h))

pub record AreBuilt (bindings : ProviderBindingRegistry) (t : ExecutionTargets) : Type 0 where
  pub primary :
      (id : ProviderId) × (target_of ExecutionTargetPurpose.primary id bindings
        ≡ some t.primary_target)
  pub fallback : Built bindings ExecutionTargetPurpose.fallback t.operational_fallback
  pub escalation : Built bindings ExecutionTargetPurpose.escalation t.semantic_escalation

pub choose_targets-eq-ok :
    (decision : ProviderSelectionDecision) (registry : ProviderRegistrySnapshot)
    (bindings : ProviderBindingRegistry) (profile : ValidationProfileDefinition)
    (selected : ProviderId) {t : ExecutionTargets}
    → choose_targets decision registry bindings profile selected ≡ ok t
    → AreBuilt bindings t
unfolding choose_targets
choose_targets-eq-ok decision registry bindings profile selected {t} h =
    helper (check_eligible registry decision.eligible_provider_ids)
      (target_of ExecutionTargetPurpose.primary selected bindings) refl h
  where
    candidates : List ProviderId
    candidates = executable_candidates decision.eligible_provider_ids selected bindings

    with_escalation : ProviderExecutionTarget → Option ProviderId → ExecutionTargets
    with_escalation primary_target escalation_id =
        let escalation = target_if ExecutionTargetPurpose.escalation escalation_id bindings in
        record {
          primary_target = primary_target;
          operational_fallback =
              target_if ExecutionTargetPurpose.fallback
                (find (λ candidate. not (is_provider escalation candidate)) candidates) bindings;
          semantic_escalation = escalation;
        }

    finished :
        (primary_target : ProviderExecutionTarget)
        → target_of ExecutionTargetPurpose.primary selected bindings ≡ some primary_target
        → (chosen : Planned (Option ProviderId))
        → (chosen >>= λ escalation_id. ok (with_escalation primary_target escalation_id)) ≡ ok t
        → AreBuilt bindings t
    finished primary_target e (err x) h = cc
    finished primary_target e (ok escalation_id) h =
        subst (AreBuilt bindings) (ok-injective _ refl h) (record {
          primary = (selected, e);
          fallback =
              target_if-Built ExecutionTargetPurpose.fallback
                (find
                  (λ candidate. not (
                    is_provider (target_if ExecutionTargetPurpose.escalation escalation_id bindings)
                      candidate))
                  candidates)
                bindings;
          escalation = target_if-Built ExecutionTargetPurpose.escalation escalation_id bindings;
        })

    helper :
        (eligible : Planned (Unit {0})) (found : Option ProviderExecutionTarget)
        → target_of ExecutionTargetPurpose.primary selected bindings ≡ found
        → (eligible
            >> (present_or found (
                  plan_error ProviderBindingFailureCode.provider_binding_not_found
                    "Selected Provider has no executable binding")
                >>= λ primary_target.
                    choose_escalation
                      (escalation_axis profile)
                      registry
                      profile
                      primary_target.provider_id
                      candidates
                    >>= λ escalation_id. ok (with_escalation primary_target escalation_id)))
          ≡ ok t
        → AreBuilt bindings t
    helper (err x) found e h = cc
    helper (ok u) none e h = cc
    helper (ok u) (some primary_target) e h =
        finished primary_target e
          (choose_escalation (escalation_axis profile) registry profile primary_target.provider_id
            candidates)
          h

-- What the last assertions have checked.
pub record AreAsserted (eligible : List ProviderId) (t : ExecutionTargets) : Type 0 where
  pub primary : contains eligible t.primary_target.provider_id ≡ true
  pub fallback :
      (target : ProviderExecutionTarget)
      → t.operational_fallback ≡ some target
      → contains eligible target.provider_id ≡ true
  pub escalation :
      (target : ProviderExecutionTarget)
      → t.semantic_escalation ≡ some target
      → contains eligible target.provider_id ≡ true
  pub fallback_differs : is_provider t.operational_fallback t.primary_target.provider_id ≡ false
  pub escalation_differs : is_provider t.semantic_escalation t.primary_target.provider_id ≡ false
  pub both_differ : same_provider t.operational_fallback t.semantic_escalation ≡ false

validate_target-eq-ok :
    (target : ProviderExecutionTarget) (expected : ExecutionTargetPurpose)
    (eligible : List ProviderId) (registry : ProviderRegistrySnapshot)
    (bindings : ProviderBindingRegistry) {u : Unit {0}}
    → validate_target target expected eligible registry bindings ≡ ok u
    → contains eligible target.provider_id ≡ true
unfolding validate_target
validate_target-eq-ok target expected eligible registry bindings h = ground arith

validate_optional-eq-ok :
    (o : Option ProviderExecutionTarget) (expected : ExecutionTargetPurpose)
    (eligible : List ProviderId) (registry : ProviderRegistrySnapshot)
    (bindings : ProviderBindingRegistry) {u : Unit {0}}
    → validate_optional o expected eligible registry bindings ≡ ok u
    → (target : ProviderExecutionTarget) → o ≡ some target
    → contains eligible target.provider_id ≡ true
unfolding validate_optional
validate_optional-eq-ok none expected eligible registry bindings h target e = cc
validate_optional-eq-ok (some other) expected eligible registry bindings h target e =
    subst (λ (t : ProviderExecutionTarget). contains eligible t.provider_id ≡ true)
      (some-injective e) (validate_target-eq-ok other expected eligible registry bindings h)

all_false :
    (a b c : Bool) → (not a && not b && not c) ≡ true → (a ≡ false) × (b ≡ false) × (c ≡ false)
all_false a b c h = ground arith

pub assert-eq-ok :
    (t : ExecutionTargets) (eligible : List ProviderId) (registry : ProviderRegistrySnapshot)
    (bindings : ProviderBindingRegistry) (profile : ValidationProfileDefinition) {u : Unit {0}}
    → assert_provider_execution_targets t eligible registry bindings profile ≡ ok u
    → AreAsserted eligible t
unfolding assert_provider_execution_targets
assert-eq-ok t eligible registry bindings profile {u} h =
    let (h1, rest1) = then-eq-ok first rest_after_first h in
    let (h2, rest2) = then-eq-ok second rest_after_second rest1 in
    let (h3, rest3) = then-eq-ok third rest_after_third rest2 in
    let (differ, rest4) =
      then-eq-ok unique (assert_stronger t.semantic_escalation t.primary_target registry profile)
        rest3 in
    let (a, b, c) =
      all_false _ _ _
        (require-eq-ok all_differ (mismatch "Execution targets must be unique") differ) in
    record {
      primary = validate_target-eq-ok _ _ _ _ _ h1;
      fallback = validate_optional-eq-ok _ _ _ _ _ h2;
      escalation = validate_optional-eq-ok _ _ _ _ _ h3;
      fallback_differs = a;
      escalation_differs = b;
      both_differ = c;
    }
  where
    first : Planned (Unit {0})
    first =
        validate_target t.primary_target ExecutionTargetPurpose.primary eligible registry bindings

    second : Planned (Unit {0})
    second =
        validate_optional t.operational_fallback ExecutionTargetPurpose.fallback eligible registry
          bindings

    third : Planned (Unit {0})
    third =
        validate_optional t.semantic_escalation ExecutionTargetPurpose.escalation eligible registry
          bindings

    all_differ : Bool
    all_differ =
        not (is_provider t.operational_fallback t.primary_target.provider_id)
        && not (is_provider t.semantic_escalation t.primary_target.provider_id)
        && not (same_provider t.operational_fallback t.semantic_escalation)

    unique : Planned (Unit {0})
    unique = require all_differ (mismatch "Execution targets must be unique")

    rest_after_third : Planned (Unit {0})
    rest_after_third =
        unique >> assert_stronger t.semantic_escalation t.primary_target registry profile

    rest_after_second : Planned (Unit {0})
    rest_after_second = third >> rest_after_third

    rest_after_first : Planned (Unit {0})
    rest_after_first = second >> rest_after_second
