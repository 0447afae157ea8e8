-- ===== src/Continuation/Evidence/Identical.antt =====
-- continuation-containment-validation.ts: the comparisons of evidence against equality.
use chunsik_bot.Base.{
  ℕ, zero, suc, String, ◌≡◌, refl, sym, ap, get_or, ◌∙◌, true, Option, none, some, List, [], ◌∷◌,
  string_eq, list_eq, option_eq, eq_of_beq, arith, and-eq-true,
}
use chunsik_bot.Continuation.Evidence.{
  PreparedIdentity, ContainmentBinding, PostAttempt, ContainmentAudit,
}
use chunsik_bot.Continuation.Evidence.Audit.{
  binding_values, binding_identical, post_attempt_identical, attempts_identical,
  containment_evidence_identical,
}

-- The values of the keys determine the binding.
value_at : ℕ → List (Option String) → String
value_at n [] = ""
value_at zero (v ∷ vs) = get_or v ""
value_at (suc n) (v ∷ vs) = value_at n vs

identity_at : ℕ → List (Option String) → Option PreparedIdentity
unfolding value_at
identity_at n [] = none
identity_at (suc n) (v ∷ vs) = identity_at n vs
identity_at zero (none ∷ vs) = none
identity_at zero (some v ∷ vs) = some (record {
  provider_binding_digest = v;
  security_profile_id = value_at 0 vs;
  instance_identity_digest = value_at 1 vs;
  channel_a_verifier_version = value_at 2 vs;
  channel_b_verifier_version = value_at 3 vs;
})

of_values : List (Option String) → ContainmentBinding
unfolding value_at identity_at
of_values vs = record {
  prepared = identity_at 18 vs;
  execution_id = value_at 0 vs;
  task_run_id = value_at 1 vs;
  containment_policy_id = value_at 2 vs;
  containment_policy_version = value_at 3 vs;
  containment_policy_digest = value_at 4 vs;
  containment_binding_digest = value_at 5 vs;
  provider_id = value_at 6 vs;
  model_id = value_at 7 vs;
  model_digest = value_at 8 vs;
  image_digest = value_at 9 vs;
  runtime_family = value_at 10 vs;
  runtime_version = value_at 11 vs;
  security_profile_digest = value_at 12 vs;
  model_mount_identity_digest = value_at 13 vs;
  verifier_version = value_at 14 vs;
  channel_a_result_digest = value_at 15 vs;
  channel_b_result_digest = value_at 16 vs;
  preflight_disposition = value_at 17 vs;
}

of_values_back :
    (q : Option PreparedIdentity) (b : ContainmentBinding)
    → of_values (binding_values (record b { prepared = q })) ≡ record b { prepared = q }
unfolding of_values value_at identity_at
of_values_back none b = refl
of_values_back (some q) b = refl

pub binding_identical_sound : (a b : ContainmentBinding) → binding_identical a b ≡ true → a ≡ b
unfolding binding_identical
binding_identical_sound a b h =
    sym (of_values_back a.prepared a)
    ∙ ap of_values (eq_of_beq (binding_values a) (binding_values b) h)
    ∙ of_values_back b.prepared b

post_attempt_identical_sound : (a b : PostAttempt) → post_attempt_identical a b ≡ true → a ≡ b
unfolding post_attempt_identical
post_attempt_identical_sound a b h = ground (
  arith,
  eq_of_beq a.post_attempt_model_integrity b.post_attempt_model_integrity,
  eq_of_beq a.failure_code b.failure_code,
)

attempts_identical_sound : (a b : Option PostAttempt) → attempts_identical a b ≡ true → a ≡ b
unfolding attempts_identical
attempts_identical_sound none none h = refl
attempts_identical_sound none (some b) h = cc
attempts_identical_sound (some a) none h = cc
attempts_identical_sound (some a) (some b) h = ap some (post_attempt_identical_sound a b h)

pub audit_path :
    (a b : ContainmentAudit) → a.binding ≡ b.binding → a.post_attempt ≡ b.post_attempt → a ≡ b
audit_path a b p q = λ i. record { binding = p i; post_attempt = q i }

pub evidence_identical_sound :
    (a b : Option ContainmentAudit) → containment_evidence_identical a b ≡ true → a ≡ b
unfolding containment_evidence_identical
evidence_identical_sound none none h = refl
evidence_identical_sound none (some b) h = cc
evidence_identical_sound (some a) none h = cc
evidence_identical_sound (some a) (some b) h =
    let (same, rest) = and-eq-true _ _ h in
    ap some (
      audit_path a b (binding_identical_sound a.binding b.binding same)
        (attempts_identical_sound a.post_attempt b.post_attempt rest))
