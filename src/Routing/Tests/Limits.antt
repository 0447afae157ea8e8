-- ===== src/Routing/Tests/Limits.antt =====
-- A registry of one profile: what it resolves, and how large an answer can be under it.
use chunsik_bot.Base.{ℕ, ◌+◌, ◌≡◌, ◌≤◌, refl, none, some, [], ◌∷◌, inl, inr}
use chunsik_bot.Base.Json.{decimal}
use chunsik_bot.Base.Json.Sizes.{byte_length}
use chunsik_bot.Routing.Profile.{definition_of, max_profile_output_bytes}
use chunsik_bot.Routing.Profile.Lookup.{Resolves, new_profile_registry-Resolves}
use chunsik_bot.Routing.Gateway.{
  ProviderGatewayResult, ProviderGatewayTerminalStatus, BoundedProviderOutput,
  deadline_policy_version, budget_of,
}
use chunsik_bot.Routing.Gateway.Execution.{ExecutionState}
use chunsik_bot.Routing.Gateway.Run.{execute}
use chunsik_bot.Routing.Response.Validator.{response_validator}
use chunsik_bot.Routing.Response.Validator.Sizes.{artifacts_size}
use chunsik_bot.Routing.Response.Accepted.{new_gateway}
use chunsik_bot.Routing.Response.Bounded.{execute-IsWithinLimit}
use chunsik_bot.Routing.Tests.Gateway.{plan, request, gateway, environment}
use chunsik_bot.Routing.Tests.Response.{configuration, profile, registered}
use chunsik_bot.Routing.Tests.Planner.{profiled}
use chunsik_bot.Samples.{sample_platform, sample_unicode}

new_profile_registry-Resolves_example : Resolves sample_platform (configuration ∷ []) (profile ∷ [])
new_profile_registry-Resolves_example =
    new_profile_registry-Resolves sample_platform (configuration ∷ []) profiled

execute-IsWithinLimit_example :
    (r : ProviderGatewayResult) × (st : ExecutionState) × (last : ℕ) × (execute sample_platform
        (new_gateway gateway.bindings
          (profile ∷ [])
          deadline_policy_version
          (λ c. some (budget_of c)))
        (response_validator sample_platform sample_unicode decimal profile)
        plan
        request
        none
        environment
        0
      ≡ some (r, st, last))
    × (r.status ≡ ProviderGatewayTerminalStatus.accepted
        → (output : BoundedProviderOutput) × (r.output ≡ some output)
          × (byte_length output.text + artifacts_size output.artifacts ≤ output.byte_count)
          × (output.byte_count ≤ profile.output_limit_bytes)
          × (profile.output_limit_bytes ≤ max_profile_output_bytes))
unfolding definition_of
execute-IsWithinLimit_example =
    execute-IsWithinLimit sample_platform sample_unicode decimal gateway.bindings
      (configuration ∷ []) deadline_policy_version (λ c. some (budget_of c)) plan request none
      environment 0 profiled registered (inr (inl refl))
