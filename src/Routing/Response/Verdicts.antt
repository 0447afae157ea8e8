-- ===== src/Routing/Response/Verdicts.antt =====
-- runtime-response-validator.ts: `validate` beside the rules that an answer breaks.
use chunsik_bot.Base.{
  false_not_true, ℕ, ◌<◌, ◌≡◌, refl, subst, ◌↔◌, ◌⊎◌, inl, inr, String, Bool, true, false, ◌||◌,
  List, [], ◌∷◌, ◌++◌, map, any, is_empty, get_or, ltb, In, arith, Bool-cases,
}
use chunsik_bot.Base.Text.{codes}
use chunsik_bot.Base.Platform.{Platform}
use chunsik_bot.Base.Unicode.{Unicode}
use chunsik_bot.Domain.{IsoTimestamp}
use chunsik_bot.Routing.Failure.{ValidationDisposition, ResponseValidationReasonCode}
use chunsik_bot.Routing.Profile.{
  RuntimeValidationRule, non_empty, output_limit, prompt_leak, multi_entry_echo,
  secret_exposure_risk, recency_grounding, authority_semantic_scope, ValidationProfileDefinition,
}
use chunsik_bot.Routing.Gateway.{RuntimeValidationInputView}
use chunsik_bot.Routing.Response.Words.{normalize_text}
use chunsik_bot.Routing.Response.Recency.{has_recency_grounding_violation}
use chunsik_bot.Routing.Response.Scans.{
  exposes_secret, has_authority_scope_violation, has_prompt_leak, echoes_entries,
}
use chunsik_bot.Routing.Response.Validator.{
  canonical_output, searchable_output, output_identity, check_rule, reasons_of, disposition_of,
  is_severe, is_semantic, reason_if, text_codes, validate,
}

not_true : {b : Bool} → ¬ (b ≡ true) → b ≡ false
not_true {b} h = elim (Bool-cases b) [ inl t ↦ absurd (h t) | inr f ↦ f ]

-- The disposition, from which kinds of reasons there are.
abbrev Verdict : List ResponseValidationReasonCode → Bool → Type 0
Verdict reasons allowed =
    ((disposition_of reasons allowed ≡ ValidationDisposition.accept)
      ↔ (any (λ (code : ResponseValidationReasonCode). true) reasons ≡ false))
    × ((disposition_of reasons allowed ≡ ValidationDisposition.accept) → reasons ≡ [])
    × ((disposition_of reasons allowed ≡ ValidationDisposition.escalate)
        ↔ ((allowed ≡ true) × (any is_semantic reasons ≡ true) × (any is_severe reasons ≡ false)))

disposition_of_lem :
    (reasons : List ResponseValidationReasonCode) (allowed : Bool) → Verdict reasons allowed
unfolding disposition_of
disposition_of_lem [] true = ground arith
disposition_of_lem [] false = ground arith
disposition_of_lem (code ∷ codes) allowed = ground arith

or-eq-true_iff : (a b : Bool) → ((a || b) ≡ true) ↔ ((a ≡ true) ⊎ (b ≡ true))
or-eq-true_iff a b = ground arith

-- Rules whose breach is never sent on to another provider, and rules whose breach may be.
pub data IsSevere : RuntimeValidationRule → Type 0 where
  leak : IsSevere prompt_leak
  echo : IsSevere multi_entry_echo
  secret : IsSevere secret_exposure_risk

pub data IsSemantic : RuntimeValidationRule → Type 0 where
  recency : IsSemantic recency_grounding
  authority : IsSemantic authority_semantic_scope

module _ (platform : Platform) (u : Unicode) (iso_text : IsoTimestamp → String)
    (profile : ValidationProfileDefinition) (input : RuntimeValidationInputView) where
  abbrev pub response : List ℕ
  response = searchable_output (canonical_output input.result)

  -- What it is for the answer to break a rule.
  abbrev pub Broken : RuntimeValidationRule → Type 0
  Broken non_empty = normalize_text u response ≡ []
  Broken output_limit =
      profile.output_limit_bytes
      < (output_identity platform u iso_text (canonical_output input.result)).byte_count
  Broken prompt_leak = has_prompt_leak u (codes input.prompt) response ≡ true
  Broken multi_entry_echo =
      echoes_entries u response (map codes (get_or input.context_corpus [])) ≡ true
  Broken secret_exposure_risk = exposes_secret response ≡ true
  Broken recency_grounding =
      has_recency_grounding_violation u (text_codes input.recency_fact)
        (text_codes input.current_user_turn) response
      ≡ true
  Broken authority_semantic_scope = has_authority_scope_violation response ≡ true

  abbrev reason_of : RuntimeValidationRule → ResponseValidationReasonCode
  reason_of non_empty = ResponseValidationReasonCode.empty_output
  reason_of output_limit = ResponseValidationReasonCode.output_limit_violation
  reason_of prompt_leak = ResponseValidationReasonCode.prompt_leak
  reason_of multi_entry_echo = ResponseValidationReasonCode.multi_entry_echo
  reason_of secret_exposure_risk = ResponseValidationReasonCode.secret_exposure_risk
  reason_of recency_grounding = ResponseValidationReasonCode.recency_grounding_violation
  reason_of authority_semantic_scope = ResponseValidationReasonCode.authority_scope_violation

  -- A rule adds its reason when it is broken, and nothing else.
  abbrev Checked : RuntimeValidationRule → List ResponseValidationReasonCode → Type 0
  Checked rule reasons =
      (Broken rule × (reasons ≡ reason_of rule ∷ [])) ⊎ ((¬ Broken rule) × (reasons ≡ []))

  test-Checked :
      (rule : RuntimeValidationRule) (b : Bool)
      → (b ≡ true) ↔ Broken rule
      → Checked rule (reason_if b (reason_of rule))
  test-Checked rule true agrees = inl (agrees.0 refl, refl)
  test-Checked rule false agrees = inr (λ broken. cc (agrees.1 broken), refl)

  is_empty_iff : (cs : List ℕ) → (is_empty cs ≡ true) ↔ (cs ≡ [])
  is_empty_iff [] = (λ h. refl, λ h. refl)
  is_empty_iff (c ∷ cs) = (λ h. cc, λ h. cc)

  ltb_iff : (a b : ℕ) → (ltb a b ≡ true) ↔ (a < b)
  ltb_iff a b = ground arith

  check_rule-Checked :
      (rule : RuntimeValidationRule)
      → Checked rule (check_rule platform u iso_text profile input rule)
  unfolding check_rule
  check_rule-Checked non_empty = test-Checked non_empty _ (is_empty_iff _)
  check_rule-Checked output_limit = test-Checked output_limit _ (ltb_iff _ _)
  check_rule-Checked prompt_leak = test-Checked prompt_leak _ (λ h. h, λ h. h)
  check_rule-Checked multi_entry_echo = test-Checked multi_entry_echo _ (λ h. h, λ h. h)
  check_rule-Checked secret_exposure_risk = test-Checked secret_exposure_risk _ (λ h. h, λ h. h)
  check_rule-Checked recency_grounding = test-Checked recency_grounding _ (λ h. h, λ h. h)
  check_rule-Checked authority_semantic_scope =
      test-Checked authority_semantic_scope _ (λ h. h, λ h. h)

  -- The rules of a list that are broken and have a property.
  abbrev pub SomeBroken : (RuntimeValidationRule → Type 0) → List RuntimeValidationRule → Type 0
  SomeBroken P rules = (rule : RuntimeValidationRule) × In rule rules × P rule × Broken rule

  -- A test of the reasons holds when a broken rule has a reason that passes it.
  any-reasons_of_iff :
      (P : RuntimeValidationRule → Type 0) (test : ResponseValidationReasonCode → Bool)
      → ((rule : RuntimeValidationRule) → (test (reason_of rule) ≡ true) ↔ P rule)
      → (rules : List RuntimeValidationRule)
      → (any test (reasons_of platform u iso_text profile input rules) ≡ true) ↔ SomeBroken P rules
  unfolding reasons_of
  any-reasons_of_iff P test agrees [] = (λ h. cc, λ h. elim h.1 [ ])
  any-reasons_of_iff P test agrees (rule ∷ rules) =
      helper (check_rule platform u iso_text profile input rule) (check_rule-Checked rule)
        (any-reasons_of_iff P test agrees rules)
    where
      helper :
          (first : List ResponseValidationReasonCode)
          → Checked rule first
          → (any test (reasons_of platform u iso_text profile input rules) ≡ true)
            ↔ SomeBroken P rules
          → (any test (first ++ reasons_of platform u iso_text profile input rules) ≡ true)
            ↔ SomeBroken P (rule ∷ rules)
      helper first (inl (broken, e)) ih = rw e (
        (λ h. elim ((or-eq-true_iff _ _).0 h) [
          | inl t ↦ (rule, inl refl, (agrees rule).0 t, broken)
          | inr t ↦ let (other, m, p, b) = ih.0 t in (other, inr m, p, b)
        ]),
        (λ h. (or-eq-true_iff _ _).1 (elim h.1 [
          | inl s ↦ inl ((agrees rule).1 (subst P s h.2))
          | inr m ↦ inr (ih.1 (h.0, m, h.2, h.3))
        ])),
      )
      helper first (inr (kept, e)) ih = rw e (
        (λ h. let (other, m, p, b) = ih.0 h in (other, inr m, p, b)),
        (λ h. elim h.1 [
          | inl s ↦ absurd (kept (subst Broken s h.3))
          | inr m ↦ ih.1 (h.0, m, h.2, h.3)
        ]),
      )

  is_severe_iff :
      (rule : RuntimeValidationRule) → (is_severe (reason_of rule) ≡ true) ↔ IsSevere rule
  unfolding is_severe
  is_severe_iff prompt_leak = (λ h. leak, λ h. refl)
  is_severe_iff multi_entry_echo = (λ h. echo, λ h. refl)
  is_severe_iff secret_exposure_risk = (λ h. secret, λ h. refl)
  is_severe_iff non_empty = (λ h. cc, λ h. elim h [ ])
  is_severe_iff output_limit = (λ h. cc, λ h. elim h [ ])
  is_severe_iff recency_grounding = (λ h. cc, λ h. elim h [ ])
  is_severe_iff authority_semantic_scope = (λ h. cc, λ h. elim h [ ])

  is_semantic_iff :
      (rule : RuntimeValidationRule) → (is_semantic (reason_of rule) ≡ true) ↔ IsSemantic rule
  unfolding is_semantic
  is_semantic_iff recency_grounding = (λ h. recency, λ h. refl)
  is_semantic_iff authority_semantic_scope = (λ h. authority, λ h. refl)
  is_semantic_iff non_empty = (λ h. cc, λ h. elim h [ ])
  is_semantic_iff output_limit = (λ h. cc, λ h. elim h [ ])
  is_semantic_iff prompt_leak = (λ h. cc, λ h. elim h [ ])
  is_semantic_iff multi_entry_echo = (λ h. cc, λ h. elim h [ ])
  is_semantic_iff secret_exposure_risk = (λ h. cc, λ h. elim h [ ])

  abbrev pub Any : RuntimeValidationRule → Type 0
  Any rule = Unit {0}

  -- The verdict on an answer, from the rules of the profile that it breaks. It is ACCEPT exactly when
  -- no rule is broken, and then there is no reason. It is ESCALATE exactly when the profile allows it, a
  -- rule on the grounding or the authority of the answer is broken, and none on a leak, an echo or a
  -- secret.
  pub validate_lem :
      (((validate platform u iso_text profile input).disposition ≡ ValidationDisposition.accept)
        ↔ ((rule : RuntimeValidationRule) → In rule profile.rules → ¬ Broken rule))
      × (((validate platform u iso_text profile input).disposition ≡ ValidationDisposition.accept)
          → (validate platform u iso_text profile input).reason_codes ≡ [])
      × (((validate platform u iso_text profile input).disposition ≡ ValidationDisposition.escalate)
          ↔ ((profile.escalation_enabled ≡ true)
              × SomeBroken IsSemantic profile.rules
              × (¬ SomeBroken IsSevere profile.rules)))
  unfolding validate
  validate_lem = (
    (
      λ h rule m broken. cc ((found.1 (rule, m, tt, broken)), verdict.0.0 h),
      λ h. verdict.0.1 (not_true (λ t. let (rule, m, p, b) = found.0 t in h rule m b)),
    ),
    verdict.1,
    (
      λ h.
          let (allowed, t, f) = verdict.2.0 h in
          (allowed, semantic.0 t, λ s. false_not_true f (severe.1 s)),
      λ h. verdict.2.1 (h.0, semantic.1 h.1, not_true (λ t. h.2 (severe.0 t))),
    ),
  )
    where
      reasons : List ResponseValidationReasonCode
      reasons = reasons_of platform u iso_text profile input profile.rules

      verdict : Verdict reasons profile.escalation_enabled
      verdict = disposition_of_lem reasons profile.escalation_enabled

      found : (any (λ code. true) reasons ≡ true) ↔ SomeBroken Any profile.rules
      found = any-reasons_of_iff Any (λ code. true) (λ rule. (λ h. tt, λ h. refl)) profile.rules

      severe : (any is_severe reasons ≡ true) ↔ SomeBroken IsSevere profile.rules
      severe = any-reasons_of_iff IsSevere is_severe is_severe_iff profile.rules

      semantic : (any is_semantic reasons ≡ true) ↔ SomeBroken IsSemantic profile.rules
      semantic = any-reasons_of_iff IsSemantic is_semantic is_semantic_iff profile.rules
