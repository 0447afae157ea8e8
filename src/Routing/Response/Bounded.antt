-- ===== src/Routing/Response/Bounded.antt =====
-- provider-routing-gateway.ts with runtime-response-validator.ts and validation-profile-registry.ts: how
-- large an answer can be that the gateway passes on.
use chunsik_bot.Base.{◌≡◌, ap, subst, ◌∙◌, ◌+◌, ◌≤◌, ◌<◌, ℕ, String, Option, some, List, In, arith}
use chunsik_bot.Base.Result.{ok}
use chunsik_bot.Base.Json.Sizes.{byte_length}
use chunsik_bot.Base.Platform.{Platform}
use chunsik_bot.Base.Unicode.{Unicode}
use chunsik_bot.Domain.{IsoTimestamp}
use chunsik_bot.Routing.Plan.{ProviderBindingRegistry, ProviderExecutionPlan, DeadlineClass}
use chunsik_bot.Routing.Profile.{
  output_limit, ValidationProfileConfiguration, ValidationProfileDefinition, definition_of,
  normalize, new_profile_registry, resolve, max_profile_output_bytes,
}
use chunsik_bot.Routing.Profile.Lookup.{new_profile_registry-Resolves}
use chunsik_bot.Routing.Gateway.{
  AiRequest, AiExecutionResult, RuntimeValidationInputView, BoundedProviderOutput,
  ProviderRoutingValidationFacts, ProviderGatewayResult, ProviderGatewayTerminalStatus,
  DeadlineBudget, Environment,
}
use chunsik_bot.Routing.Gateway.Execution.{ExecutionState}
use chunsik_bot.Routing.Gateway.Run.{execute}
use chunsik_bot.Routing.Response.Validator.{canonical_output, response_validator}
use chunsik_bot.Routing.Response.Validator.Sizes.{artifacts_size, byte_count-covers}
use chunsik_bot.Routing.Response.Verdicts.{Broken}
use chunsik_bot.Routing.Response.Accepted.{new_gateway, bounded_output, execute-MeetsProfile}

normalize-bound :
    (platform : Platform) (c : ValidationProfileConfiguration) {d : ValidationProfileDefinition}
    → normalize platform c ≡ ok d
    → d.output_limit_bytes ≤ max_profile_output_bytes
unfolding normalize definition_of
normalize-bound platform c h = ground arith

-- Where the constructor made the registry, and the plan's profile asks for the limit on the output, the
-- gateway throws nothing. If its status is ACCEPTED, it has an output, and the bytes in UTF-8 of its
-- text and of the texts of its artifacts are together at most its size, which is within the limit of the
-- profile, and this is at most 1 MiB.
pub execute-IsWithinLimit :
    (platform : Platform) (u : Unicode) (iso_text : IsoTimestamp → String)
    (bindings : ProviderBindingRegistry) (cs : List ValidationProfileConfiguration)
    {profiles : List ValidationProfileDefinition} (deadline_version : String)
    (resolve_deadline : DeadlineClass → Option DeadlineBudget) (plan : ProviderExecutionPlan)
    (request : AiRequest) (facts : Option ProviderRoutingValidationFacts) {W : Type 0}
    (env : Environment W) (w : W) {profile : ValidationProfileDefinition}
    → new_profile_registry platform cs ≡ ok profiles
    → resolve profiles plan.validation_profile ≡ some profile
    → In output_limit profile.rules
    → (r : ProviderGatewayResult) × (st : ExecutionState) × (last : W) × (execute platform
          (new_gateway bindings profiles deadline_version resolve_deadline)
          (response_validator platform u iso_text profile)
          plan
          request
          facts
          env
          w
        ≡ some (r, st, last))
      × (r.status ≡ ProviderGatewayTerminalStatus.accepted
          → (output : BoundedProviderOutput) × (r.output ≡ some output)
            × (byte_length output.text + artifacts_size output.artifacts ≤ output.byte_count)
            × (output.byte_count ≤ profile.output_limit_bytes)
            × (profile.output_limit_bytes ≤ max_profile_output_bytes))
execute-IsWithinLimit platform u iso_text bindings cs {profiles} deadline_version resolve_deadline
      plan request facts env w {profile} built registered asks =
    let (r, st, last, ran, meets) =
      execute-MeetsProfile platform u iso_text bindings profiles deadline_version resolve_deadline
        plan request facts env w registered in
    let (c, among, normal, same) =
      (new_profile_registry-Resolves platform cs built).only plan.validation_profile profile
        registered in
    (
      r,
      st,
      last,
      ran,
      λ accepted.
          let met = meets accepted in
          (
            bounded_output platform u iso_text met.result,
            met.answered ∙ ap some met.passed.whole,
            byte_count-covers platform u iso_text (canonical_output met.result),
            within met.input met.result (met.kept output_limit asks) met.about.answer,
            normalize-bound platform c normal,
          ),
    )
  where
    le_of_not_broken : (limit size : ℕ) → ¬ (limit < size) → size ≤ limit
    le_of_not_broken limit size h = omega arith

    within :
        (input : RuntimeValidationInputView) (result : AiExecutionResult)
        → ¬ Broken platform u iso_text profile input output_limit
        → input.result ≡ result
        → (bounded_output platform u iso_text result).byte_count ≤ profile.output_limit_bytes
    within input result h same =
        subst (λ a. (bounded_output platform u iso_text a).byte_count ≤ profile.output_limit_bytes)
          same (le_of_not_broken _ _ h)
