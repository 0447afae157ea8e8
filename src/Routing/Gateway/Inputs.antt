-- ===== src/Routing/Gateway/Inputs.antt =====
-- provider-routing-gateway.ts: what an answer is validated against.
use chunsik_bot.Base.{◌≡◌, refl, String, Option, none, some, List, map, inl, inr, Option-cases}
use mathlib.Core.Option
use chunsik_bot.Routing.Plan.{ProviderExecutionPlan}
use chunsik_bot.Routing.Gateway.{
  AiRequest, AiExecutionResult, ContextFile, ProviderRoutingValidationFacts,
  RuntimeValidationInputView,
}
use chunsik_bot.Routing.Gateway.Loop.{validation_input}

-- The contents of the files that come with a request.
abbrev pub file_contents : AiRequest → Option (List String)
file_contents request =
    Option.map (λ files. map (λ (file : ContextFile). file.content) files) request.context_files

-- What an answer is validated by: the profile of the plan, the answer, the prompt of the request, and what the caller knows or,
-- where that has no corpus, the files of the request.
pub record IsAbout (plan : ProviderExecutionPlan) (request : AiRequest)
    (facts : Option ProviderRoutingValidationFacts) (result : AiExecutionResult)
    (input : RuntimeValidationInputView) : Type 0 where
  pub profile : input.validation_profile ≡ plan.validation_profile
  pub answer : input.result ≡ result
  pub prompt : input.prompt ≡ request.prompt
  pub known :
      (f : ProviderRoutingValidationFacts)
      → facts ≡ some f
      → (input.recency_fact ≡ f.recency_fact) × (input.current_user_turn ≡ f.current_user_turn)
  pub unknown : facts ≡ none → (input.recency_fact ≡ none) × (input.current_user_turn ≡ none)
  pub corpus :
      (f : ProviderRoutingValidationFacts) (c : Option (List String))
      → facts ≡ some f
      → f.context_corpus ≡ some c
      → input.context_corpus ≡ c
  pub files : facts ≡ none → input.context_corpus ≡ file_contents request
  pub unlisted :
      (f : ProviderRoutingValidationFacts)
      → facts ≡ some f
      → f.context_corpus ≡ none
      → input.context_corpus ≡ file_contents request

pub validation_input-IsAbout :
    (plan : ProviderExecutionPlan) (request : AiRequest)
    (facts : Option ProviderRoutingValidationFacts) (result : AiExecutionResult)
    → IsAbout plan request facts result (validation_input plan request facts result)
validation_input-IsAbout plan request facts result = record {
  profile = refl;
  answer = refl;
  prompt = refl;
  known = λ f e. rw e (refl, refl);
  unknown = λ e. rw e (refl, refl);
  corpus = λ f c e given. rw (e, given) refl;
  files = λ e. rw e listed;
  unlisted = λ f e absent. rw (e, absent) listed;
}
  where
    listed : (validation_input plan request none result).context_corpus ≡ file_contents request
    listed = elim (Option-cases request.context_files) [
      | inl unset ↦ rw unset refl
      | inr (files, given) ↦ rw given refl
    ]
