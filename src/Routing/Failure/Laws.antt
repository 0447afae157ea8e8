-- ===== src/Routing/Failure/Laws.antt =====
-- routing-failure-classifier.ts: the lookup in the matrix, and the precedence of validation failures.
use chunsik_bot.Base.{
  ℕ, ◌≤◌, ◌≡◌, refl, ◌⊎◌, inl, inr, ◌↔◌, Bool, true, false, Option, none, some, List, [], ◌∷◌,
  arith, find, ◌==◌, nat_eq, In, All, is_empty, get_or, suc, Bool-cases, eq_of_beq, some-injective,
  none_not_some, false_not_true, subst, sym, ◌&&◌, if◌then◌else◌,
}
use chunsik_bot.Routing.Failure.{
  RoutingFailureClass, RoutingFailureCode, RoutingFailureCode-discrete,
  RoutingFailureClass-discrete, RoutingFailurePolicy, failure_policy, semantic_validation_failed,
  structural_validation_failed, ValidationDisposition, accept, ResponseValidationReasonCode,
  RuntimeValidationResult, find_of_class, reason_code, mapped_codes, first_failure,
  classify_validation_failure, is_accept, failure_class_eq, failure_code_eq,
}

-- Every code has a row of its own in the matrix, so the lookup throws for none.
pub failure_policy-total :
    (code : RoutingFailureCode)
    → (policy : RoutingFailurePolicy) × (failure_policy code ≡ some policy) × (policy.code ≡ code)
unfolding failure_policy
failure_policy-total RoutingFailureCode.binding_mismatch = (_, refl, refl)
failure_policy-total _ = (_, refl, refl)

abbrev class_of : RoutingFailureCode → RoutingFailureClass
class_of code = (failure_policy-total code).0.failure_class

-- Safety before operational, operational before semantic, semantic before all else.
abbrev pub precedence : RoutingFailureCode → ℕ
precedence RoutingFailureCode.prompt_leak = 3
precedence RoutingFailureCode.multi_entry_echo = 3
precedence RoutingFailureCode.secret_exposure_risk = 3
precedence RoutingFailureCode.containment_failure = 3
precedence RoutingFailureCode.model_download_detected = 3
precedence RoutingFailureCode.validator_internal_failure = 3
precedence RoutingFailureCode.provider_unavailable = 2
precedence RoutingFailureCode.provider_auth_required = 2
precedence RoutingFailureCode.provider_timeout = 2
precedence RoutingFailureCode.provider_execution_failed = 2
precedence RoutingFailureCode.provider_spawn_failed = 2
precedence RoutingFailureCode.empty_output = 2
precedence RoutingFailureCode.output_limit_violation = 2
precedence RoutingFailureCode.deadline_exhausted = 2
precedence RoutingFailureCode.semantic_validation_failed = 1
precedence _ = 0

-- A class of the matrix is a level of the precedence.
abbrev Agrees : RoutingFailureClass → ℕ → Type 0
Agrees wanted level =
    (code : RoutingFailureCode)
    → (policy : RoutingFailurePolicy) × (failure_policy code ≡ some policy)
      × ((policy.failure_class == wanted) ≡ (precedence code == level))

safety-Agrees : Agrees RoutingFailureClass.safety 3
unfolding failure_policy RoutingFailureClass-discrete
safety-Agrees RoutingFailureCode.binding_mismatch = (_, refl, refl)
safety-Agrees _ = (_, refl, refl)

operational-Agrees : Agrees RoutingFailureClass.operational 2
unfolding failure_policy RoutingFailureClass-discrete
operational-Agrees RoutingFailureCode.binding_mismatch = (_, refl, refl)
operational-Agrees _ = (_, refl, refl)

abbrev Found : Option (Option RoutingFailureCode) → ℕ → List RoutingFailureCode → Type 0
Found none level codes = ⊥
Found (some none) level codes = All (λ code. (precedence code == level) ≡ false) codes
Found (some (some found)) level codes = In found codes × (precedence found ≡ level)

Found-cons :
    (code : RoutingFailureCode) (codes : List RoutingFailureCode) (level : ℕ) (test : Bool)
    (rest : Option (Option RoutingFailureCode))
    → (precedence code == level) ≡ test
    → Found rest level codes
    → Found (if test then some (some code) else rest) level (code ∷ codes)
Found-cons code codes level true rest e h = (inl refl, (nat_eq.agrees _ _).0 e)
Found-cons code codes level false none e h = h
Found-cons code codes level false (some none) e h = (e, h)
Found-cons code codes level false (some (some found)) e h = (inr h.0, h.1)

find_of_class_lem :
    (wanted : RoutingFailureClass) (level : ℕ)
    → Agrees wanted level
    → (codes : List RoutingFailureCode) → Found (find_of_class wanted codes) level codes
unfolding find_of_class
find_of_class_lem wanted level agree [] = tt
find_of_class_lem wanted level agree (code ∷ codes) =
    let (policy, known, same) = agree code in
    let ih = find_of_class_lem wanted level agree codes in
    rw (known, find_of_class) (rw same (Found-cons code codes level _ _ refl ih))

-- The code that a failure is classified as: one of those given, of the greatest precedence, or the
-- generic structural failure where none of them has a precedence.
pub record IsFirst (codes : List RoutingFailureCode) (code : RoutingFailureCode) : Type 0 where
  pub listed : In code codes ⊎ (code ≡ structural_validation_failed)
  pub greatest : All (λ other. precedence other ≤ precedence code) codes

precedence-le : (code : RoutingFailureCode) → precedence code ≤ 3
precedence-le RoutingFailureCode.binding_mismatch = omega arith
precedence-le _ = omega arith

abbrev AllBelow : ℕ → List RoutingFailureCode → Type 0
AllBelow bound = All (λ other. precedence other ≤ bound)

AllBelow-top : (codes : List RoutingFailureCode) → AllBelow 3 codes
AllBelow-top [] = tt
AllBelow-top (code ∷ codes) = (precedence-le code, AllBelow-top codes)

AllBelow-pred :
    (k : ℕ) (codes : List RoutingFailureCode)
    → AllBelow (suc k) codes
    → All (λ code. (precedence code == suc k) ≡ false) codes
    → AllBelow k codes
AllBelow-pred k [] h n = tt
AllBelow-pred k (code ∷ codes) (h, hs) (n, ns) = (ground arith, AllBelow-pred k codes hs ns)

-- Below the operational level only the semantic failure has a precedence.
semantic_alone :
    (code : RoutingFailureCode)
    → precedence code ≤ 1
    → (code == semantic_validation_failed) ≡ false
    → precedence code ≤ 0
unfolding RoutingFailureCode-discrete
semantic_alone code h n = ground arith

abbrev semantic_or_structural : Option RoutingFailureCode → RoutingFailureCode
semantic_or_structural found = get_or found structural_validation_failed

abbrev find_semantic : List RoutingFailureCode → Option RoutingFailureCode
find_semantic codes = find (λ code. code == semantic_validation_failed) codes

IsFirst-semantic-cons :
    (code : RoutingFailureCode) (codes : List RoutingFailureCode) (test : Bool)
    → precedence code ≤ 1
    → AllBelow 1 codes
    → (code == semantic_validation_failed) ≡ test
    → IsFirst codes (semantic_or_structural (find_semantic codes))
    → IsFirst
        (code ∷ codes)
        (semantic_or_structural (if test then some code else find_semantic codes))
IsFirst-semantic-cons code codes true h hs e ih =
    let p : precedence code ≡ 1 = rw (eq_of_beq code semantic_validation_failed e) refl in
    record {
      listed = inl (inl refl);
      greatest = (omega arith, subst (λ k. AllBelow k codes) (sym p) hs);
    }
IsFirst-semantic-cons code codes false h hs e ih = record {
  listed = elim ih.listed [ inl m ↦ inl (inr m) | inr none_listed ↦ inr none_listed ];
  greatest = (omega (arith, semantic_alone code h e), ih.greatest);
}

IsFirst-semantic :
    (codes : List RoutingFailureCode)
    → AllBelow 1 codes
    → IsFirst codes (semantic_or_structural (find_semantic codes))
IsFirst-semantic [] h = record { listed = inr refl; greatest = tt }
IsFirst-semantic (code ∷ codes) (h, hs) =
    IsFirst-semantic-cons code codes _ h hs refl (IsFirst-semantic codes hs)

first_failure_lem :
    (codes : List RoutingFailureCode)
    → (code : RoutingFailureCode) × (first_failure codes ≡ some code) × IsFirst codes code
unfolding first_failure
first_failure_lem codes =
    helper (find_of_class RoutingFailureClass.safety codes)
      (find_of_class RoutingFailureClass.operational codes) refl refl
      (find_of_class_lem RoutingFailureClass.safety 3 safety-Agrees codes)
      (find_of_class_lem RoutingFailureClass.operational 2 operational-Agrees codes)
  where
    helper :
        (s o : Option (Option RoutingFailureCode))
        → find_of_class RoutingFailureClass.safety codes ≡ s
        → find_of_class RoutingFailureClass.operational codes ≡ o
        → Found s 3 codes
        → Found o 2 codes
        → (code : RoutingFailureCode) × (first_failure codes ≡ some code) × IsFirst codes code
    helper none o es eo fs fo = absurd fs
    helper (some (some code)) o es eo fs fo = (
      code,
      rw (es, first_failure),
      record { listed = inl fs.0; greatest = rw fs.1 (AllBelow-top codes) },
    )
    helper (some none) none es eo fs fo = absurd fo
    helper (some none) (some (some code)) es eo fs fo = (
      code,
      rw (es, eo, first_failure),
      record {
        listed = inl fo.0;
        greatest = rw fo.1 (AllBelow-pred 2 codes (AllBelow-top codes) fs);
      },
    )
    helper (some none) (some none) es eo fs fo = (
      get_or (find (λ code. code == semantic_validation_failed) codes) structural_validation_failed,
      rw (es, eo, first_failure),
      IsFirst-semantic codes
          (AllBelow-pred 1 codes (AllBelow-pred 2 codes (AllBelow-top codes) fs) fo),
    )

In-mapped_codes :
    (code : RoutingFailureCode) (reasons : List ResponseValidationReasonCode)
    → In code (mapped_codes reasons)
    → (reason : ResponseValidationReasonCode) × In reason reasons × (code ≡ reason_code reason)
unfolding mapped_codes
In-mapped_codes code [] m = elim m [ ]
In-mapped_codes code (reason ∷ reasons) (inl e) = (reason, inl refl, e)
In-mapped_codes code (reason ∷ reasons) (inr m) =
    let (found, listed, e) = In-mapped_codes code reasons m in (found, inr listed, e)

accepted_iff :
    (d : ValidationDisposition) (reasons : List ResponseValidationReasonCode)
    → ((is_accept d && is_empty reasons) ≡ true) ↔ ((d ≡ accept) × (reasons ≡ []))
accepted_iff d reasons = ground arith

-- Classifying a validation result never throws. It gives no failure exactly when the disposition is
-- ACCEPT and there is no reason code; otherwise it gives a code of the greatest precedence (safety,
-- operational, semantic, all others) among those that the reasons map to, or the structural failure.
pub classify_validation_failure_lem :
    (v : RuntimeValidationResult)
    → (result : Option RoutingFailureCode) × (classify_validation_failure v ≡ some result)
      × ((result ≡ none) ↔ ((v.disposition ≡ accept) × (v.reason_codes ≡ [])))
      × ((code : RoutingFailureCode)
          → result ≡ some code
          → IsFirst (mapped_codes v.reason_codes) code)
unfolding classify_validation_failure
classify_validation_failure_lem v =
    let (code, known, first) = first_failure_lem (mapped_codes v.reason_codes) in
    elim (Bool-cases (is_accept v.disposition && is_empty v.reason_codes)) [
      | inl good ↦ (
        none,
        rw (good, classify_validation_failure),
        (λ _. (accepted_iff v.disposition v.reason_codes).0 good, λ _. refl),
        λ other e. absurd (none_not_some e),
      )
      | inr bad ↦ (
        some code,
        rw (bad, known, classify_validation_failure),
        (
          λ e. absurd (none_not_some (sym e)),
          λ h. absurd (false_not_true bad ((accepted_iff v.disposition v.reason_codes).1 h)),
        ),
        λ other e. subst (IsFirst (mapped_codes v.reason_codes)) (some-injective e) first,
      )
    ]
