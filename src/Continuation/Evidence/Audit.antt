-- ===== src/Continuation/Evidence/Audit.antt =====
-- continuation-containment-validation.ts: the projection of a whole audit, the data it is stored as,
-- and the comparisons by which the store tells evidence that is kept from evidence that is changed.
use chunsik_bot.Base.{
  String, Bool, true, false, ◌&&◌, Option, none, some, List, [], ◌∷◌, ◌++◌, ◌==◌, string_eq,
  list_eq, option_eq,
}
use chunsik_bot.Base.Platform.{Platform}
use chunsik_bot.Base.Optional.{◌>>=◌, ◌>>◌, guard}
use chunsik_bot.Base.Json.{Json, null, bool, str, Members, json_object}
use chunsik_bot.Base.Members.{lookup, has_keys}
use chunsik_bot.Continuation.Evidence.{
  PreparedIdentity, ContainmentBinding, PostAttempt, ContainmentAudit, containment_audit_schema,
}
use chunsik_bot.Continuation.Evidence.Snapshot.{
  text, object_of, project_binding, project_post_attempt,
}

unfoldable pub project_post : Members → Option (Option PostAttempt)
unfolding lookup project_post_attempt
project_post ms = elim (lookup "postAttempt" ms) [
  | none ↦ some none
  | some raw ↦ project_post_attempt raw >>= λ q. some (some q)
]

unfoldable pub snapshot_containment_audit :
    Platform → Json → String → String → Option ContainmentAudit
unfolding object_of has_keys text lookup project_binding project_post
snapshot_containment_audit p value execution_id task_run_id = do
  ms ← object_of value
  guard (has_keys ("schemaVersion" ∷ "binding" ∷ []) ("postAttempt" ∷ []) ms)
  schema_version ← text "schemaVersion" ms
  guard (schema_version == containment_audit_schema)
  raw ← lookup "binding" ms
  binding ← project_binding p raw execution_id task_run_id
  post_attempt ← project_post ms
  some (record { binding = binding; post_attempt = post_attempt })

-- The frozen records, as `JSON.stringify` writes them into a row.
abbrev pub identity_members : Option PreparedIdentity → List (String × Json)
identity_members none = []
identity_members (some q) =
    ("providerBindingDigest", str q.provider_binding_digest)
    ∷ ("securityProfileId", str q.security_profile_id)
    ∷ ("instanceIdentityDigest", str q.instance_identity_digest)
    ∷ ("channelAVerifierVersion", str q.channel_a_verifier_version)
    ∷ ("channelBVerifierVersion", str q.channel_b_verifier_version)
    ∷ []

abbrev pub fact_members : ContainmentBinding → List (String × Json)
fact_members b =
    ("executionId", str b.execution_id)
    ∷ ("taskRunId", str b.task_run_id)
    ∷ ("containmentPolicyId", str b.containment_policy_id)
    ∷ ("containmentPolicyVersion", str b.containment_policy_version)
    ∷ ("containmentPolicyDigest", str b.containment_policy_digest)
    ∷ ("containmentBindingDigest", str b.containment_binding_digest)
    ∷ ("providerId", str b.provider_id)
    ∷ ("modelId", str b.model_id)
    ∷ ("modelDigest", str b.model_digest)
    ∷ ("imageDigest", str b.image_digest)
    ∷ ("runtimeFamily", str b.runtime_family)
    ∷ ("runtimeVersion", str b.runtime_version)
    ∷ ("securityProfileDigest", str b.security_profile_digest)
    ∷ ("modelMountIdentityDigest", str b.model_mount_identity_digest)
    ∷ ("verifierVersion", str b.verifier_version)
    ∷ ("channelAResultDigest", str b.channel_a_result_digest)
    ∷ ("channelBResultDigest", str b.channel_b_result_digest)
    ∷ ("preflightDisposition", str b.preflight_disposition)
    ∷ ("modelIntegrityStatus", str "VERIFIED_AT_BIND")
    ∷ []

abbrev pub binding_members : ContainmentBinding → List (String × Json)
binding_members b = identity_members b.prepared ++ fact_members b

abbrev pub failure_json : Option String → Json
failure_json none = null
failure_json (some code) = str code

abbrev pub post_members : PostAttempt → List (String × Json)
post_members q =
    ("attemptBoundaryCrossed", bool true)
    ∷ ("postAttemptModelIntegrity", str q.post_attempt_model_integrity)
    ∷ ("failureCode", failure_json q.failure_code)
    ∷ []

abbrev pub attempt_members : Option PostAttempt → List (String × Json)
attempt_members none = []
attempt_members (some q) = ("postAttempt", json_object (post_members q)) ∷ []

unfoldable pub audit_json : ContainmentAudit → Json
audit_json audit = json_object (
    ("schemaVersion", str containment_audit_schema)
    ∷ ("binding", json_object (binding_members audit.binding))
    ∷ attempt_members audit.post_attempt)

-- The values of [...BINDING_KEYS, ...PREPARED_KEYS], the constant status left out.
abbrev pub identity_values : Option PreparedIdentity → List (Option String)
identity_values none = none ∷ none ∷ none ∷ none ∷ none ∷ []
identity_values (some q) =
    some q.provider_binding_digest
    ∷ some q.security_profile_id
    ∷ some q.instance_identity_digest
    ∷ some q.channel_a_verifier_version
    ∷ some q.channel_b_verifier_version
    ∷ []

abbrev pub binding_values : ContainmentBinding → List (Option String)
binding_values b =
    some b.execution_id
    ∷ some b.task_run_id
    ∷ some b.containment_policy_id
    ∷ some b.containment_policy_version
    ∷ some b.containment_policy_digest
    ∷ some b.containment_binding_digest
    ∷ some b.provider_id
    ∷ some b.model_id
    ∷ some b.model_digest
    ∷ some b.image_digest
    ∷ some b.runtime_family
    ∷ some b.runtime_version
    ∷ some b.security_profile_digest
    ∷ some b.model_mount_identity_digest
    ∷ some b.verifier_version
    ∷ some b.channel_a_result_digest
    ∷ some b.channel_b_result_digest
    ∷ some b.preflight_disposition
    ∷ identity_values b.prepared

unfoldable pub binding_identical : ContainmentBinding → ContainmentBinding → Bool
binding_identical a b = binding_values a == binding_values b

unfoldable pub post_attempt_identical : PostAttempt → PostAttempt → Bool
post_attempt_identical a b =
    a.post_attempt_model_integrity == b.post_attempt_model_integrity
    && a.failure_code == b.failure_code

unfoldable pub attempts_identical : Option PostAttempt → Option PostAttempt → Bool
unfolding post_attempt_identical
attempts_identical none none = true
attempts_identical (some a) (some b) = post_attempt_identical a b
attempts_identical _ _ = false

unfoldable pub containment_evidence_identical :
    Option ContainmentAudit → Option ContainmentAudit → Bool
unfolding binding_identical attempts_identical
containment_evidence_identical none none = true
containment_evidence_identical (some a) (some b) =
    binding_identical a.binding b.binding && attempts_identical a.post_attempt b.post_attempt
containment_evidence_identical _ _ = false

-- The weaker comparison, by which a post-attempt observation may be added.
unfoldable pub containment_evidence_preserved :
    Option ContainmentAudit → Option ContainmentAudit → Bool
unfolding binding_identical post_attempt_identical
containment_evidence_preserved none incoming = true
containment_evidence_preserved (some a) none = false
containment_evidence_preserved (some a) (some b) =
    binding_identical a.binding b.binding && elim a.post_attempt [
      | none ↦ true
      | some q ↦ elim b.post_attempt [ none ↦ false | some r ↦ post_attempt_identical q r ]
    ]
