-- ===== src/Routing/Response/Accepted.antt =====
-- runtime-response-validator.ts with provider-routing-gateway.ts: the gateway over a registry of
-- profiles, whose validator is this one.
use chunsik_bot.Base.{
  ◌≡◌, refl, ap, ◌∙◌, String, Option, some, List, [], ◌∷◌, map, get_or, string_eq, nat_eq, In,
  beq_refl,
}
use mathlib.Core.Option
use chunsik_bot.Base.Platform.{Platform}
use chunsik_bot.Base.Unicode.{Unicode}
use chunsik_bot.Domain.{IsoTimestamp}
use chunsik_bot.Routing.Failure.{ValidationDisposition}
use chunsik_bot.Routing.Plan.{ProviderBindingRegistry, ProviderExecutionPlan, DeadlineClass}
use chunsik_bot.Routing.Profile.{RuntimeValidationRule, ValidationProfileDefinition, resolve}
use chunsik_bot.Routing.Gateway.{
  AiRequest, AiExecutionResult, Artifact, BoundedProviderArtifact, BoundedProviderOutput,
  ProviderRoutingValidationFacts, ProviderRoutingGateway, ProviderGatewayResult,
  ProviderGatewayTerminalStatus, ValidationProfileView, DeadlineBudget, Environment,
  RuntimeValidationInputView,
}
use chunsik_bot.Routing.Gateway.Execution.{ExecutionState}
use chunsik_bot.Routing.Gateway.Loop.{validation_input}
use chunsik_bot.Routing.Gateway.Run.{execute}
use chunsik_bot.Routing.Gateway.Answers.{ProjectsAccepted}
use chunsik_bot.Routing.Gateway.Total.{IsAnswer}
use chunsik_bot.Routing.Gateway.Correct.{execute-IsBounded}
use chunsik_bot.Routing.Response.Validator.{
  safe_artifact, canonical_output, output_identity, validate, project_bounded_provider_output,
  response_validator,
}
use chunsik_bot.Routing.Gateway.Inputs.{IsAbout}
use chunsik_bot.Routing.Response.Verdicts.{Broken, validate_lem}

abbrev pub profile_view : ValidationProfileDefinition → ValidationProfileView
profile_view profile = record {
  version = profile.version;
  configuration_digest = profile.configuration_digest;
  escalation_enabled = profile.escalation_enabled;
}

-- `new ProviderRoutingGateway(bindings, profiles, deadlinePolicy, clock)`
abbrev pub new_gateway :
    ProviderBindingRegistry
    → List ValidationProfileDefinition
    → String
    → (DeadlineClass → Option DeadlineBudget)
    → ProviderRoutingGateway
new_gateway bindings profiles deadline_version resolve_deadline = record {
  bindings = bindings;
  resolve_profile = λ id. Option.map profile_view (resolve profiles id);
  deadline_version = deadline_version;
  resolve_deadline = resolve_deadline;
}

module _ (platform : Platform) (u : Unicode) (iso_text : IsoTimestamp → String) where
  -- What a gateway passes on of an answer.
  abbrev pub bounded_output : AiExecutionResult → BoundedProviderOutput
  bounded_output result = record {
    text = result.text;
    artifacts = map safe_artifact (get_or result.artifacts []);
    response_sha256 =
        (output_identity platform u iso_text (canonical_output result)).response_sha256;
    byte_count = (output_identity platform u iso_text (canonical_output result)).byte_count;
  }

  project-validate :
      (profile : ValidationProfileDefinition) (input : RuntimeValidationInputView)
      → (validate platform u iso_text profile input).disposition ≡ ValidationDisposition.accept
      → project_bounded_provider_output platform u iso_text input.result
          (validate platform u iso_text profile input)
        ≡ some (bounded_output input.result)
  unfolding project_bounded_provider_output validate
  project-validate profile input accepted = rw (
    accepted,
    beq_refl (output_identity platform u iso_text (canonical_output input.result)).response_sha256,
    beq_refl (output_identity platform u iso_text (canonical_output input.result)).byte_count,
  )

  response_validator-ProjectsAccepted :
      (profile : ValidationProfileDefinition)
      → ProjectsAccepted (response_validator platform u iso_text profile)
  unfolding response_validator
  response_validator-ProjectsAccepted profile input accepted =
      (bounded_output input.result, project-validate profile input accepted)

  -- What is passed on of an answer: its text, and its artifacts without their metadata, with the digest
  -- and the size that were validated.
  pub record PassesOn (result : AiExecutionResult) (output : BoundedProviderOutput) : Type 0 where
    pub text : output.text ≡ result.text
    pub titles :
        map (λ (a : BoundedProviderArtifact). a.title) output.artifacts
        ≡ map (λ (a : Artifact). a.title) (get_or result.artifacts [])
    pub contents :
        map (λ (a : BoundedProviderArtifact). a.content) output.artifacts
        ≡ map (λ (a : Artifact). a.content) (get_or result.artifacts [])
    pub whole : output ≡ bounded_output result

  bounded_output-PassesOn : (result : AiExecutionResult) → PassesOn result (bounded_output result)
  bounded_output-PassesOn result = record {
    text = refl;
    titles = titles (get_or result.artifacts []);
    contents = contents (get_or result.artifacts []);
    whole = refl;
  }
    where
      titles :
          (list : List Artifact)
          → map (λ (a : BoundedProviderArtifact). a.title) (map safe_artifact list)
            ≡ map (λ (a : Artifact). a.title) list
      titles [] = refl
      titles (a ∷ list) = ap (λ rest. a.title ∷ rest) (titles list)

      contents :
          (list : List Artifact)
          → map (λ (a : BoundedProviderArtifact). a.content) (map safe_artifact list)
            ≡ map (λ (a : Artifact). a.content) list
      contents [] = refl
      contents (a ∷ list) = ap (λ rest. a.content ∷ rest) (contents list)

  -- A result that passes on what a provider replied to the last request, and breaks no rule.
  pub record IsMet (profile : ValidationProfileDefinition) (plan : ProviderExecutionPlan)
      (request : AiRequest) (facts : Option ProviderRoutingValidationFacts) {W : Type 0}
      (env : Environment W) (r : ProviderGatewayResult) (st : ExecutionState) : Type 0 where
    pub result : AiExecutionResult
    pub replies : IsAnswer env request st.calls result
    pub input : RuntimeValidationInputView
    pub about : IsAbout plan request facts result input
    pub kept :
        (rule : RuntimeValidationRule)
        → In rule profile.rules
        → ¬ Broken platform u iso_text profile input rule
    pub output : BoundedProviderOutput
    pub answered : r.output ≡ some output
    pub passed : PassesOn result output

  pub execute-MeetsProfile :
      (bindings : ProviderBindingRegistry) (profiles : List ValidationProfileDefinition)
      (deadline_version : String) (resolve_deadline : DeadlineClass → Option DeadlineBudget)
      (plan : ProviderExecutionPlan) (request : AiRequest)
      (facts : Option ProviderRoutingValidationFacts) {W : Type 0} (env : Environment W) (w : W)
      {profile : ValidationProfileDefinition}
      → resolve profiles plan.validation_profile ≡ some profile
      → (r : ProviderGatewayResult) × (st : ExecutionState) × (last : W) × (execute platform
            (new_gateway bindings profiles deadline_version resolve_deadline)
            (response_validator platform u iso_text profile)
            plan
            request
            facts
            env
            w
          ≡ some (r, st, last))
        × (r.status ≡ ProviderGatewayTerminalStatus.accepted
            → IsMet profile plan request facts env r st)
  unfolding response_validator
  execute-MeetsProfile bindings profiles deadline_version resolve_deadline plan request facts env w
        {profile} registered =
      let (r, st, last, ran, bounded) =
        execute-IsBounded platform (new_gateway bindings profiles deadline_version resolve_deadline)
          (response_validator platform u iso_text profile) plan request facts env w
          (response_validator-ProjectsAccepted profile) in
      (
        r,
        st,
        last,
        ran,
        λ accepted.
            let (result, replies, about, verdict, reasons, projected, kept) =
              bounded.accepts accepted in
            record {
              result = result;
              replies = replies;
              input = validation_input plan request facts result;
              about = about;
              kept =
                  (validate_lem platform u iso_text profile
                      (validation_input plan request facts result)).0.0
                    verdict;
              output = bounded_output result;
              answered =
                  projected
                  ∙ project-validate profile (validation_input plan request facts result) verdict;
              passed = bounded_output-PassesOn result;
            },
      )
