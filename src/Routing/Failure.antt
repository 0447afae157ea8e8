-- ===== src/Routing/Failure.antt =====
-- runtime-response-validation-contracts.ts and routing-failure-classifier.ts: the failure matrix of
-- provider routing and the classification of provider and validation failures.
pub mod Laws
use mathlib.Core.Option
use chunsik_bot.Base.{
  ℕ, String, Bool, true, false, not, ◌&&◌, Option, none, some, List, [], ◌∷◌, find, if◌then◌else◌,
  ◌==◌, Eq, discrete_eq, get_or, is_empty,
}
use chunsik_bot.Domain.{AiFailureKind}

pub data ValidationDisposition : Type 0 where
  accept escalate reject : ValidationDisposition

pub data ResponseValidationReasonCode : Type 0 where
  empty_output output_limit_violation prompt_leak multi_entry_echo secret_exposure_risk
        recency_grounding_violation authority_scope_violation validator_internal_failure :
      ResponseValidationReasonCode

pub data RoutingFailureClass : Type 0 where
  configuration operational validation safety : RoutingFailureClass

pub data RoutingFailureProducerStatus : Type 0 where
  active producer_pending : RoutingFailureProducerStatus

pub data RoutingFailureCode : Type 0 where
  routing_configuration_mismatch binding_mismatch provider_binding_not_found provider_disabled
        unknown_validation_profile provider_unavailable provider_auth_required provider_timeout
        provider_execution_failed provider_spawn_failed empty_output output_limit_violation
        structural_validation_failed semantic_validation_failed semantic_validation_unresolved
        structural_validation_unresolved deadline_exhausted prompt_leak multi_entry_echo
        secret_exposure_risk containment_failure model_download_detected
        validator_internal_failure :
      RoutingFailureCode

unfoldable pub RoutingFailureCode-discrete : Discrete RoutingFailureCode
RoutingFailureCode-discrete = hlevel

unfoldable pub RoutingFailureClass-discrete : Discrete RoutingFailureClass
RoutingFailureClass-discrete = hlevel

instance abbrev pub failure_code_eq : Eq RoutingFailureCode
failure_code_eq = discrete_eq RoutingFailureCode-discrete

instance abbrev pub failure_class_eq : Eq RoutingFailureClass
failure_class_eq = discrete_eq RoutingFailureClass-discrete

-- `attemptConsumed` is 0, 1 or 'CONTEXTUAL'.
pub data AttemptConsumed : Type 0 where
  consumes : ℕ → AttemptConsumed
  contextual : AttemptConsumed

pub record RoutingFailurePolicy : Type 0 where
  pub code : RoutingFailureCode
  pub failure_class : RoutingFailureClass
  pub attempt_consumed : AttemptConsumed
  pub fallback_allowed : Bool
  pub escalation_allowed : Bool
  pub fail_closed : Bool
  pub human_review_candidate : Bool
  pub producer_status : RoutingFailureProducerStatus

abbrev configuration_policy : RoutingFailureCode → RoutingFailurePolicy
configuration_policy code = record {
  code = code;
  failure_class = RoutingFailureClass.configuration;
  attempt_consumed = consumes 0;
  fallback_allowed = false;
  escalation_allowed = false;
  fail_closed = true;
  human_review_candidate = false;
  producer_status = active;
}

abbrev operational_policy :
    RoutingFailureCode → Bool → RoutingFailureProducerStatus → RoutingFailurePolicy
operational_policy code fallback status = record {
  code = code;
  failure_class = RoutingFailureClass.operational;
  attempt_consumed = consumes 1;
  fallback_allowed = fallback;
  escalation_allowed = false;
  fail_closed = not fallback;
  human_review_candidate = false;
  producer_status = status;
}

abbrev validation_policy : RoutingFailureCode → RoutingFailureProducerStatus → RoutingFailurePolicy
validation_policy code status = record {
  code = code;
  failure_class = RoutingFailureClass.validation;
  attempt_consumed = consumes 1;
  fallback_allowed = false;
  escalation_allowed = true;
  fail_closed = false;
  human_review_candidate = false;
  producer_status = status;
}

abbrev safety_policy : RoutingFailureCode → RoutingFailureProducerStatus → RoutingFailurePolicy
safety_policy code status = record {
  code = code;
  failure_class = RoutingFailureClass.safety;
  attempt_consumed = consumes 1;
  fallback_allowed = false;
  escalation_allowed = false;
  fail_closed = true;
  human_review_candidate = true;
  producer_status = status;
}

abbrev terminal_unresolved_validation :
    RoutingFailureCode → RoutingFailureProducerStatus → RoutingFailurePolicy
terminal_unresolved_validation code status = record {
  code = code;
  failure_class = RoutingFailureClass.validation;
  attempt_consumed = consumes 1;
  fallback_allowed = false;
  escalation_allowed = false;
  fail_closed = false;
  human_review_candidate = true;
  producer_status = status;
}

abbrev contextual_deadline : RoutingFailurePolicy
contextual_deadline = record {
  code = deadline_exhausted;
  failure_class = RoutingFailureClass.operational;
  attempt_consumed = contextual;
  fallback_allowed = false;
  escalation_allowed = false;
  fail_closed = true;
  human_review_candidate = false;
  producer_status = active;
}

unfoldable pub failure_matrix : List RoutingFailurePolicy
failure_matrix =
    configuration_policy routing_configuration_mismatch
    ∷ configuration_policy binding_mismatch
    ∷ configuration_policy provider_binding_not_found
    ∷ configuration_policy provider_disabled
    ∷ configuration_policy unknown_validation_profile
    ∷ operational_policy provider_unavailable true active
    ∷ operational_policy provider_auth_required true active
    ∷ operational_policy provider_timeout true active
    ∷ operational_policy provider_execution_failed true active
    ∷ operational_policy provider_spawn_failed true producer_pending
    ∷ operational_policy RoutingFailureCode.empty_output true active
    ∷ operational_policy RoutingFailureCode.output_limit_violation false active
    ∷ validation_policy structural_validation_failed producer_pending
    ∷ validation_policy semantic_validation_failed active
    ∷ terminal_unresolved_validation semantic_validation_unresolved active
    ∷ terminal_unresolved_validation structural_validation_unresolved producer_pending
    ∷ contextual_deadline
    ∷ safety_policy RoutingFailureCode.prompt_leak active
    ∷ safety_policy RoutingFailureCode.multi_entry_echo active
    ∷ safety_policy RoutingFailureCode.secret_exposure_risk active
    ∷ safety_policy containment_failure producer_pending
    ∷ safety_policy model_download_detected producer_pending
    ∷ safety_policy RoutingFailureCode.validator_internal_failure active
    ∷ []

-- `none` is the thrown error "Routing failure code is absent from the matrix".
unfoldable pub failure_policy : RoutingFailureCode → Option RoutingFailurePolicy
unfolding failure_matrix RoutingFailureCode-discrete
failure_policy code = find (λ candidate. candidate.code == code) failure_matrix

-- The table PROVIDER_FAILURES.
unfoldable pub classify_provider_failure : AiFailureKind → RoutingFailureCode
classify_provider_failure AiFailureKind.unavailable = provider_unavailable
classify_provider_failure AiFailureKind.auth_required = provider_auth_required
classify_provider_failure AiFailureKind.timeout = provider_timeout
classify_provider_failure AiFailureKind.execution_failed = provider_execution_failed
classify_provider_failure AiFailureKind.empty_output = RoutingFailureCode.empty_output

-- The table REASONS, which has an entry for every reason code.
unfoldable pub reason_code : ResponseValidationReasonCode → RoutingFailureCode
reason_code prompt_leak = RoutingFailureCode.prompt_leak
reason_code multi_entry_echo = RoutingFailureCode.multi_entry_echo
reason_code secret_exposure_risk = RoutingFailureCode.secret_exposure_risk
reason_code validator_internal_failure = RoutingFailureCode.validator_internal_failure
reason_code empty_output = RoutingFailureCode.empty_output
reason_code output_limit_violation = RoutingFailureCode.output_limit_violation
reason_code authority_scope_violation = semantic_validation_failed
reason_code recency_grounding_violation = semantic_validation_failed

pub record RuntimeValidationResult : Type 0 where
  pub disposition : ValidationDisposition
  pub reason_codes : List ResponseValidationReasonCode
  pub response_sha256 : String
  pub byte_count : ℕ
  pub profile_version : String
  pub rule_contract_version : String

-- `find((code) => failurePolicy(code).failureClass === wanted)`; the outer `none` is a throw.
unfoldable pub find_of_class :
    RoutingFailureClass → List RoutingFailureCode → Option (Option RoutingFailureCode)
find_of_class wanted [] = some none
find_of_class wanted (code ∷ codes) = elim (failure_policy code) [
  | none ↦ none
  | some policy ↦
      let rest = find_of_class wanted codes in
      if policy.failure_class == wanted then some (some code) else rest
]

unfoldable pub mapped_codes : List ResponseValidationReasonCode → List RoutingFailureCode
unfolding reason_code
mapped_codes [] = []
mapped_codes (reason ∷ reasons) = reason_code reason ∷ mapped_codes reasons

abbrev pub is_accept : ValidationDisposition → Bool
is_accept accept = true
is_accept _ = false

-- The chain of `??` over the mapped codes: safety, then operational, then semantic, then structural.
unfoldable pub first_failure : List RoutingFailureCode → Option RoutingFailureCode
first_failure codes = elim (find_of_class RoutingFailureClass.safety codes) [
  | none ↦ none
  | some (some code) ↦ some code
  | some none ↦ elim (find_of_class RoutingFailureClass.operational codes) [
    | none ↦ none
    | some (some code) ↦ some code
    | some none ↦ some (
        get_or (find (λ code. code == semantic_validation_failed) codes)
          structural_validation_failed)
  ]
]

-- The outer `none` is a throw, the inner one the code's `null`.
unfoldable pub classify_validation_failure :
    RuntimeValidationResult → Option (Option RoutingFailureCode)
unfolding first_failure
classify_validation_failure v =
    if is_accept v.disposition && is_empty v.reason_codes
    then some none
    else Option.map some (first_failure (mapped_codes v.reason_codes))
