-- ===== src/Continuation/Evidence.antt =====
-- core/src/ports/continuation-containment-audit.ts, core/src/application/containment-binding-digest.ts
-- and continuation-containment-validation.ts (under packages/): the evidence of containment, its
-- projection from stored or given data, and its comparison. A value of plain data has no accessors.
pub mod Snapshot
pub mod Audit
pub mod Stored
pub mod Identical
use chunsik_bot.Base.{
  ℕ, String, ◌≡◌, Bool, true, false, not, ◌&&◌, ◌||◌, Option, none, some, List, [], ◌∷◌, ◌++◌, leb,
  ltb, all, any, contains, is_some, if◌then◌else◌, ◌==◌, string_eq, nat_eq, length,
}
use chunsik_bot.Base.Text.{codes, is_routing_identifier, is_version, is_sha256}
use chunsik_bot.Base.Hash.{code_units}
use chunsik_bot.Base.Platform.{Platform}
use chunsik_bot.Base.Optional.{◌>>=◌, ◌>>◌, guard}
use chunsik_bot.Base.Json.{Json, null, bool, str, obj, Members, stringify, json_object}
use chunsik_bot.Base.Members.{lookup, has_keys, own_keys}

pub record PreparedIdentity : Type 0 where
  pub provider_binding_digest : String
  pub security_profile_id : String
  pub instance_identity_digest : String
  pub channel_a_verifier_version : String
  pub channel_b_verifier_version : String

-- `ContainmentBindingEvidence`: the five optional fields occur together, and `modelIntegrityStatus` has
-- the one value VERIFIED_AT_BIND.
pub record ContainmentBinding : Type 0 where
  pub prepared : Option PreparedIdentity
  pub execution_id : String
  pub task_run_id : String
  pub containment_policy_id : String
  pub containment_policy_version : String
  pub containment_policy_digest : String
  pub containment_binding_digest : String
  pub provider_id : String
  pub model_id : String
  pub model_digest : String
  pub image_digest : String
  pub runtime_family : String
  pub runtime_version : String
  pub security_profile_digest : String
  pub model_mount_identity_digest : String
  pub verifier_version : String
  pub channel_a_result_digest : String
  pub channel_b_result_digest : String
  pub preflight_disposition : String

-- `attemptBoundaryCrossed` has the one value true; no failure code is `null`.
pub record PostAttempt : Type 0 where
  pub post_attempt_model_integrity : String
  pub failure_code : Option String

pub record ContainmentAudit : Type 0 where
  pub binding : ContainmentBinding
  pub post_attempt : Option PostAttempt

abbrev pub containment_audit_schema : String
containment_audit_schema = "continuation-containment-audit-v1"

abbrev containment_runtime_families : List String
containment_runtime_families = "NONE" ∷ "CONTAINER_NO_NETWORK" ∷ "VM_NO_NIC" ∷ []

abbrev containment_preflight_dispositions : List String
containment_preflight_dispositions =
    "NOT_PERFORMED" ∷ "VERIFIED" ∷ "PREFLIGHT_FAILED" ∷ "UNAVAILABLE" ∷ []

abbrev containment_model_integrity_statuses : List String
containment_model_integrity_statuses =
    "VERIFIED_AT_BIND" ∷ "MATCHED" ∷ "MISMATCH" ∷ "NOT_REVERIFIED" ∷ "UNAVAILABLE" ∷ []

abbrev containment_audit_failure_codes : List String
containment_audit_failure_codes =
    "CONTAINMENT_UNAVAILABLE" ∷ "CONTAINMENT_CONFIGURATION_INVALID" ∷ "CONTAINMENT_PREFLIGHT_FAILED"
    ∷ "CONTAINMENT_BIND_FAILED" ∷ "MODEL_MISSING" ∷ "MODEL_DIGEST_MISMATCH"
    ∷ "PRIVATE_DAEMON_START_FAILED" ∷ "PRIVATE_DAEMON_NOT_READY" ∷ "CONTAINMENT_EVIDENCE_CONFLICT"
    ∷ "CONTAINMENT_FAILURE" ∷ "MODEL_DOWNLOAD_DETECTED" ∷ []

abbrev binding_keys : List String
binding_keys =
    "executionId" ∷ "taskRunId" ∷ "containmentPolicyId" ∷ "containmentPolicyVersion"
    ∷ "containmentPolicyDigest" ∷ "containmentBindingDigest" ∷ "providerId" ∷ "modelId"
    ∷ "modelDigest" ∷ "imageDigest" ∷ "runtimeFamily" ∷ "runtimeVersion" ∷ "securityProfileDigest"
    ∷ "modelMountIdentityDigest" ∷ "verifierVersion" ∷ "channelAResultDigest"
    ∷ "channelBResultDigest" ∷ "preflightDisposition" ∷ "modelIntegrityStatus" ∷ []

abbrev prepared_keys : List String
prepared_keys =
    "providerBindingDigest" ∷ "securityProfileId" ∷ "instanceIdentityDigest"
    ∷ "channelAVerifierVersion" ∷ "channelBVerifierVersion" ∷ []

-- `/^[^\u0000-\u001f\u007f]{1,256}$/`, which counts UTF-16 units
unfoldable is_opaque : String → Bool
is_opaque s =
    leb 1 (length (code_units (codes s)))
    && leb (length (code_units (codes s))) 256
    && all (λ c. not (ltb c 0x20 || c == 0x7f)) (code_units (codes s))

-- The canonical text whose SHA-256 is the digest of a prepared binding.
unfoldable pub containment_binding_digest :
    Platform → ContainmentBinding → PreparedIdentity → String
unfolding stringify
containment_binding_digest p b q = p.sha256 (
    stringify (
      json_object
        (("domain", str "quoky.r3.containment.binding.v1") ∷ ("shape", json_object shape) ∷ [])))
  where
    context : List (String × Json)
    context =
        ("executionId", str b.execution_id)
        ∷ ("taskRunId", str b.task_run_id)
        ∷ ("containmentPolicyId", str b.containment_policy_id)
        ∷ ("containmentPolicyVersion", str b.containment_policy_version)
        ∷ ("containmentPolicyDigest", str b.containment_policy_digest)
        ∷ ("runtimeFamily", str b.runtime_family)
        ∷ ("runtimeVersion", str b.runtime_version)
        ∷ ("modelMountIdentityDigest", str b.model_mount_identity_digest)
        ∷ []

    shape : List (String × Json)
    shape =
        ("schemaVersion", str "verified-containment-binding-v1")
        ∷ ("executionContext", json_object context)
        ∷ ("providerId", str b.provider_id)
        ∷ ("providerBindingDigest", str q.provider_binding_digest)
        ∷ ("securityProfileId", str q.security_profile_id)
        ∷ ("securityProfileDigest", str b.security_profile_digest)
        ∷ ("instanceIdentityDigest", str q.instance_identity_digest)
        ∷ ("expectedModelId", str b.model_id)
        ∷ ("expectedModelDigest", str b.model_digest)
        ∷ ("imageDigest", str b.image_digest)
        ∷ ("channelAVerifierVersion", str q.channel_a_verifier_version)
        ∷ ("channelBVerifierVersion", str q.channel_b_verifier_version)
        ∷ ("channelAResultDigest", str b.channel_a_result_digest)
        ∷ ("channelBResultDigest", str b.channel_b_result_digest)
        ∷ []
