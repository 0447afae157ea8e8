-- ===== src/Routing/Tests/Response.antt =====
-- The validator on answers, and the gateway with it.
use chunsik_bot.Routing.Response.Words.{recency_hard_anchors, recency_keywords, normalize_text}
use chunsik_bot.Base.Unicode.{includes, runs_of, collapse_spaces, trim, utf16_length}
use chunsik_bot.Base.Regex.{test_codes}
use chunsik_bot.Base.{◌↔◌, ◌≡◌, refl, true, false, none, some, [], ◌∷◌, In}
use chunsik_bot.Base.Text.{codes}
use mathlib.Core.List.{Perm}
use mathlib.Core.List.Perm
use chunsik_bot.Base.Json.{decimal}
use chunsik_bot.Routing.Profile.{
  RuntimeValidationRule, non_empty, output_limit, secret_exposure_risk, normalize,
  ValidationProfileConfiguration, ValidationProfileDefinition, definition_of, resolve,
}
use chunsik_bot.Routing.Failure.{ValidationDisposition}
use chunsik_bot.Routing.Profile.Canonical.{normalize-perm}
use chunsik_bot.Routing.Gateway.{RuntimeValidationInputView}
use chunsik_bot.Routing.Gateway.Loop.{validation_input}
use chunsik_bot.Routing.Response.Scans.{
  exposes_secret, has_authority_scope_violation, has_prompt_leak,
}
use chunsik_bot.Routing.Response.Recency.{has_recency_grounding_violation}
use chunsik_bot.Routing.Response.Validator.{validate}
use chunsik_bot.Routing.Response.Verdicts.{Broken, validate_lem, SomeBroken, IsSemantic, IsSevere}
use chunsik_bot.Routing.Tests.Gateway.{plan, request}
use chunsik_bot.Samples.{sample_platform, sample_unicode}

abbrev pub configuration : ValidationProfileConfiguration
configuration = record {
  profile_id = "GENERAL_CHAT";
  version = "1.0.0";
  rules = non_empty ∷ output_limit ∷ secret_exposure_risk ∷ [];
  output_limit_bytes = 4096;
  escalation_enabled = false;
  escalation_reliability_axis = none;
  minimum_escalation_reliability = none;
}

abbrev pub profile : ValidationProfileDefinition
profile = definition_of sample_platform configuration configuration.rules

pub registered : resolve (profile ∷ []) plan.validation_profile ≡ some profile
unfolding resolve definition_of
registered = refl

abbrev hi : RuntimeValidationInputView
hi =
    validation_input plan request none
      (record { text = "hi"; artifacts = none; audit = none; raw = none })

swapped :
    Perm {A = RuntimeValidationRule} configuration.rules
      (output_limit ∷ non_empty ∷ secret_exposure_risk ∷ [])
swapped = Perm.swap output_limit non_empty (secret_exposure_risk ∷ [])

normalize-perm_example :
    normalize sample_platform
      (record configuration { rules = output_limit ∷ non_empty ∷ secret_exposure_risk ∷ [] })
    ≡ normalize sample_platform configuration
normalize-perm_example =
    normalize-perm sample_platform configuration
      (output_limit ∷ non_empty ∷ secret_exposure_risk ∷ []) swapped

finds_secret : exposes_secret (codes "the Password : hunter2hunter2") ≡ true
unfolding exposes_secret test_codes
finds_secret = refl

no_secret : exposes_secret (codes "no tokens here") ≡ false
unfolding exposes_secret test_codes
no_secret = refl

claims : has_authority_scope_violation (codes "I have verified it.") ≡ true
unfolding has_authority_scope_violation test_codes
claims = refl

guarded :
    has_authority_scope_violation (codes "I cannot verify that the site is running now.") ≡ false
unfolding has_authority_scope_violation test_codes
guarded = refl

ungrounded :
    has_recency_grounding_violation sample_unicode
      (some (codes "my dog Bobby likes cheese"))
      (some (codes "what did you say earlier"))
      (codes "I like trains")
    ≡ true
unfolding has_recency_grounding_violation utf16_length normalize_text trim collapse_spaces
    test_codes recency_keywords runs_of recency_hard_anchors
ungrounded = refl

grounded :
    has_recency_grounding_violation sample_unicode
      (some (codes "my dog Bobby likes cheese"))
      (some (codes "what did you say earlier"))
      (codes "your dog bobby likes cheese")
    ≡ false
unfolding has_recency_grounding_violation utf16_length normalize_text trim collapse_spaces
    test_codes recency_keywords runs_of recency_hard_anchors includes
grounded = refl

leaks :
    has_prompt_leak sample_unicode
      (codes "You are Quoky, be kind.")
      (codes "sure: you  are quoky, be KIND.")
    ≡ true
unfolding has_prompt_leak normalize_text trim collapse_spaces utf16_length includes
leaks = refl

validate_lem_example :
    (((validate sample_platform sample_unicode decimal profile hi).disposition
        ≡ ValidationDisposition.accept)
      ↔ ((rule : RuntimeValidationRule)
          → In rule profile.rules
          → ¬ Broken sample_platform sample_unicode decimal profile hi rule))
    × (((validate sample_platform sample_unicode decimal profile hi).disposition
          ≡ ValidationDisposition.accept)
        → (validate sample_platform sample_unicode decimal profile hi).reason_codes ≡ [])
    × (((validate sample_platform sample_unicode decimal profile hi).disposition
          ≡ ValidationDisposition.escalate)
        ↔ ((profile.escalation_enabled ≡ true)
            × SomeBroken sample_platform sample_unicode decimal profile hi IsSemantic profile.rules
            × (¬ SomeBroken sample_platform sample_unicode decimal profile hi IsSevere
                profile.rules)))
validate_lem_example = validate_lem sample_platform sample_unicode decimal profile hi
