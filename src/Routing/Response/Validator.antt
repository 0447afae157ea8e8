-- ===== src/Routing/Response/Validator.antt =====
-- runtime-response-validator.ts: `validate` after the profile is resolved, and the projection of an
-- accepted answer. An answer has its type here, so `canonicalOutput` and with it the `catch` of
-- `validate` have nothing to throw. The text of a time is a parameter, since times are numbers here.
pub mod Sizes
use chunsik_bot.Base.{
  ℕ, String, Bool, true, false, not, ◌&&◌, ◌||◌, Option, none, some, List, [], ◌∷◌, ◌++◌, map, any,
  is_empty, get_or, if◌then◌else◌, ltb, ◌==◌, string_eq, nat_eq, Eq, discrete_eq,
}
use chunsik_bot.Base.Text.{codes}
use chunsik_bot.Base.Json.{Json, str, json_object, json_array, stringify}
use chunsik_bot.Base.Platform.{Platform}
use chunsik_bot.Base.Unicode.{Unicode, utf8_length, join_codes}
use chunsik_bot.Domain.{IsoTimestamp}
use chunsik_bot.Domain.Names.{artifact_kind_name}
use chunsik_bot.Routing.Failure.{
  is_accept, ValidationDisposition, ResponseValidationReasonCode, RuntimeValidationResult,
}
use chunsik_bot.Routing.Profile.{
  RuntimeValidationRule, non_empty, output_limit, prompt_leak, multi_entry_echo,
  secret_exposure_risk, recency_grounding, authority_semantic_scope, ValidationProfileDefinition,
  rule_contract_version,
}
use chunsik_bot.Routing.Gateway.{
  AiExecutionResult, Artifact, BoundedProviderArtifact, BoundedProviderOutput,
  RuntimeValidationInputView, ResponseValidator,
}
use chunsik_bot.Routing.Response.Words.{normalize_text}
use chunsik_bot.Routing.Response.Recency.{has_recency_grounding_violation}
use chunsik_bot.Routing.Response.Scans.{
  exposes_secret, has_authority_scope_violation, has_prompt_leak, echoes_entries,
}

unfoldable pub ResponseValidationReasonCode-discrete : Discrete ResponseValidationReasonCode
ResponseValidationReasonCode-discrete = hlevel

instance abbrev pub reason_eq : Eq ResponseValidationReasonCode
reason_eq = discrete_eq ResponseValidationReasonCode-discrete

abbrev pub safe_artifact : Artifact → BoundedProviderArtifact
safe_artifact a = record {
  id = a.id;
  kind = a.kind;
  title = a.title;
  created_at = a.created_at;
  task_id = a.task_id;
  task_run_id = a.task_run_id;
  content = a.content;
  mime_type = a.mime_type;
}

pub record CanonicalProviderOutput : Type 0 where
  pub text : String
  pub artifacts : List BoundedProviderArtifact

abbrev pub canonical_output : AiExecutionResult → CanonicalProviderOutput
canonical_output input = record {
  text = input.text;
  artifacts = map safe_artifact (get_or input.artifacts []);
}

-- The member that `...(value === undefined ? {} : { key: value })` adds.
abbrev optional_member : String → Option String → List (String × Json)
optional_member key none = []
optional_member key (some value) = (key, str value) ∷ []

-- The members of an artifact but for its time.
abbrev artifact_members : BoundedProviderArtifact → List (String × Json)
artifact_members a =
    ("id", str a.id)
    ∷ (optional_member "taskId" a.task_id
        ++ (optional_member "taskRunId" a.task_run_id
            ++ ("kind", str (artifact_kind_name a.kind))
              ∷ ("title", str a.title)
              ∷ (optional_member "content" a.content ++ optional_member "mimeType" a.mime_type)))

abbrev output_json :
    (BoundedProviderArtifact → List (String × Json)) → CanonicalProviderOutput → Json
output_json f output = json_object (
    ("text", str output.text)
    ∷ ("artifacts", json_array (map (λ a. json_object (f a)) output.artifacts))
    ∷ [])

pub record OutputIdentity : Type 0 where
  pub response_sha256 : String
  pub byte_count : ℕ

content_codes : BoundedProviderArtifact → List ℕ
content_codes a = codes (get_or a.content "")

-- The text and the contents of the artifacts, one to a line.
unfoldable pub searchable_output : CanonicalProviderOutput → List ℕ
unfolding content_codes
searchable_output output =
    join_codes (10 ∷ []) (codes output.text ∷ map content_codes output.artifacts)

unfoldable pub is_severe : ResponseValidationReasonCode → Bool
is_severe ResponseValidationReasonCode.prompt_leak = true
is_severe ResponseValidationReasonCode.multi_entry_echo = true
is_severe ResponseValidationReasonCode.secret_exposure_risk = true
is_severe ResponseValidationReasonCode.validator_internal_failure = true
is_severe _ = false

unfoldable pub is_semantic : ResponseValidationReasonCode → Bool
is_semantic ResponseValidationReasonCode.authority_scope_violation = true
is_semantic ResponseValidationReasonCode.recency_grounding_violation = true
is_semantic _ = false

unfoldable pub disposition_of : List ResponseValidationReasonCode → Bool → ValidationDisposition
unfolding is_severe is_semantic
disposition_of reasons escalation_enabled =
    if any is_severe reasons
    then ValidationDisposition.reject
    else if escalation_enabled && any is_semantic reasons
    then ValidationDisposition.escalate
    else if is_empty reasons
    then ValidationDisposition.accept
    else ValidationDisposition.reject

abbrev pub reason_if : Bool → ResponseValidationReasonCode → List ResponseValidationReasonCode
reason_if true code = code ∷ []
reason_if false code = []

abbrev pub text_codes : Option String → Option (List ℕ)
text_codes none = none
text_codes (some text) = some (codes text)

module _ (platform : Platform) (u : Unicode) (iso_text : IsoTimestamp → String) where
  abbrev stored_members : BoundedProviderArtifact → List (String × Json)
  stored_members a = artifact_members a ++ ("createdAt", str (iso_text a.created_at)) ∷ []

  unfoldable pub output_identity : CanonicalProviderOutput → OutputIdentity
  output_identity output = record {
    response_sha256 = platform.sha256 (stringify (output_json artifact_members output));
    byte_count = utf8_length (codes (stringify (output_json stored_members output)));
  }

  -- What one round of the loop over the rules adds to the reasons.
  unfoldable pub check_rule :
      ValidationProfileDefinition
      → RuntimeValidationInputView
      → RuntimeValidationRule
      → List ResponseValidationReasonCode
  check_rule profile input rule = elim rule [
    | non_empty ↦
        reason_if (is_empty (normalize_text u response)) ResponseValidationReasonCode.empty_output
    | output_limit ↦
        reason_if (ltb profile.output_limit_bytes identity.byte_count)
          ResponseValidationReasonCode.output_limit_violation
    | prompt_leak ↦
        reason_if (has_prompt_leak u (codes input.prompt) response)
          ResponseValidationReasonCode.prompt_leak
    | multi_entry_echo ↦
        reason_if (echoes_entries u response (map codes (get_or input.context_corpus [])))
          ResponseValidationReasonCode.multi_entry_echo
    | secret_exposure_risk ↦
        reason_if (exposes_secret response) ResponseValidationReasonCode.secret_exposure_risk
    | recency_grounding ↦
        reason_if
          (has_recency_grounding_violation u (text_codes input.recency_fact)
            (text_codes input.current_user_turn) response)
          ResponseValidationReasonCode.recency_grounding_violation
    | authority_semantic_scope ↦
        reason_if (has_authority_scope_violation response)
          ResponseValidationReasonCode.authority_scope_violation
  ]
    where
      response : List ℕ
      response = searchable_output (canonical_output input.result)

      identity : OutputIdentity
      identity = output_identity (canonical_output input.result)

  unfoldable pub reasons_of :
      ValidationProfileDefinition
      → RuntimeValidationInputView
      → List RuntimeValidationRule
      → List ResponseValidationReasonCode
  reasons_of profile input [] = []
  reasons_of profile input (rule ∷ rules) =
      check_rule profile input rule ++ reasons_of profile input rules

  unfoldable pub validate :
      ValidationProfileDefinition → RuntimeValidationInputView → RuntimeValidationResult
  validate profile input = record {
    disposition =
        disposition_of (reasons_of profile input profile.rules) profile.escalation_enabled;
    reason_codes = reasons_of profile input profile.rules;
    response_sha256 = (output_identity (canonical_output input.result)).response_sha256;
    byte_count = (output_identity (canonical_output input.result)).byte_count;
    profile_version = profile.version;
    rule_contract_version = rule_contract_version;
  }

  -- `projectBoundedProviderOutput`; `none` is an error that is thrown.
  unfoldable pub project_bounded_provider_output :
      AiExecutionResult → RuntimeValidationResult → Option BoundedProviderOutput
  project_bounded_provider_output result validation =
      if not (is_accept validation.disposition)
      then none
      else if not (identity.response_sha256 == validation.response_sha256)
          || not (identity.byte_count == validation.byte_count)
      then none
      else some (record {
        text = result.text;
        artifacts = map safe_artifact (get_or result.artifacts []);
        response_sha256 = identity.response_sha256;
        byte_count = identity.byte_count;
      })
    where
      identity : OutputIdentity
      identity = output_identity (canonical_output result)

  -- The validator of an execution whose profile is resolved to this one.
  unfoldable pub response_validator : ValidationProfileDefinition → ResponseValidator
  unfolding validate project_bounded_provider_output
  response_validator profile = record {
    validate = validate profile;
    project = project_bounded_provider_output;
  }
