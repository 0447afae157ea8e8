-- ===== src/Continuation/Evidence/Snapshot.antt =====
-- continuation-containment-validation.ts: the projection of evidence from plain data, which answers
-- `null` for anything malformed, and the data that the evidence is stored as.
use chunsik_bot.Base.{
  String, Bool, true, false, not, ◌&&◌, Option, none, some, List, [], ◌∷◌, any, contains, is_some,
  if◌then◌else◌, ◌==◌, string_eq,
}
use chunsik_bot.Base.Text.{is_routing_identifier, is_version, is_sha256}
use chunsik_bot.Base.Platform.{Platform}
use chunsik_bot.Base.Optional.{◌>>=◌, ◌>>◌, guard}
use chunsik_bot.Base.Json.{Json, null, bool, str, obj, Members}
use chunsik_bot.Base.Members.{lookup, has_keys}
use chunsik_bot.Continuation.Evidence.{
  PreparedIdentity, ContainmentBinding, PostAttempt, containment_runtime_families,
  containment_preflight_dispositions, containment_model_integrity_statuses,
  containment_audit_failure_codes, binding_keys, prepared_keys, is_opaque,
  containment_binding_digest,
}

-- An own property that is a text.
unfoldable pub text : String → Members → Option String
unfolding lookup
text key ms = elim (lookup key ms) [ some (str s) ↦ some s | _ ↦ none ]

unfoldable pub object_of : Json → Option Members
object_of (obj ms) = some ms
object_of _ = none

unfoldable pub read_identity : Members → Option PreparedIdentity
unfolding text
read_identity ms = do
  provider_binding_digest ← text "providerBindingDigest" ms
  security_profile_id ← text "securityProfileId" ms
  instance_identity_digest ← text "instanceIdentityDigest" ms
  channel_a_verifier_version ← text "channelAVerifierVersion" ms
  channel_b_verifier_version ← text "channelBVerifierVersion" ms
  some (record {
    provider_binding_digest = provider_binding_digest;
    security_profile_id = security_profile_id;
    instance_identity_digest = instance_identity_digest;
    channel_a_verifier_version = channel_a_verifier_version;
    channel_b_verifier_version = channel_b_verifier_version;
  })

-- One of the five keys calls for all of them.
unfoldable pub read_prepared : Members → Option (Option PreparedIdentity)
unfolding read_identity lookup
read_prepared ms =
    if any (λ key. is_some (lookup key ms)) prepared_keys
    then (read_identity ms >>= λ q. some (some q))
    else some none

unfoldable pub read_binding : Members → Option ContainmentBinding
unfolding read_prepared text
read_binding ms = do
  guard (has_keys binding_keys prepared_keys ms)
  prepared ← read_prepared ms
  execution_id ← text "executionId" ms
  task_run_id ← text "taskRunId" ms
  containment_policy_id ← text "containmentPolicyId" ms
  containment_policy_version ← text "containmentPolicyVersion" ms
  containment_policy_digest ← text "containmentPolicyDigest" ms
  containment_binding_digest ← text "containmentBindingDigest" ms
  provider_id ← text "providerId" ms
  model_id ← text "modelId" ms
  model_digest ← text "modelDigest" ms
  image_digest ← text "imageDigest" ms
  runtime_family ← text "runtimeFamily" ms
  runtime_version ← text "runtimeVersion" ms
  security_profile_digest ← text "securityProfileDigest" ms
  model_mount_identity_digest ← text "modelMountIdentityDigest" ms
  verifier_version ← text "verifierVersion" ms
  channel_a_result_digest ← text "channelAResultDigest" ms
  channel_b_result_digest ← text "channelBResultDigest" ms
  preflight_disposition ← text "preflightDisposition" ms
  model_integrity_status ← text "modelIntegrityStatus" ms
  guard (model_integrity_status == "VERIFIED_AT_BIND")
  some (record {
    prepared = prepared;
    execution_id = execution_id;
    task_run_id = task_run_id;
    containment_policy_id = containment_policy_id;
    containment_policy_version = containment_policy_version;
    containment_policy_digest = containment_policy_digest;
    containment_binding_digest = containment_binding_digest;
    provider_id = provider_id;
    model_id = model_id;
    model_digest = model_digest;
    image_digest = image_digest;
    runtime_family = runtime_family;
    runtime_version = runtime_version;
    security_profile_digest = security_profile_digest;
    model_mount_identity_digest = model_mount_identity_digest;
    verifier_version = verifier_version;
    channel_a_result_digest = channel_a_result_digest;
    channel_b_result_digest = channel_b_result_digest;
    preflight_disposition = preflight_disposition;
  })

unfoldable pub valid_identity : Platform → ContainmentBinding → PreparedIdentity → Bool
unfolding containment_binding_digest
valid_identity p b q =
    is_sha256 q.provider_binding_digest
    && is_routing_identifier q.security_profile_id
    && is_sha256 q.instance_identity_digest
    && is_version q.channel_a_verifier_version
    && is_version q.channel_b_verifier_version
    && not (q.channel_a_verifier_version == q.channel_b_verifier_version)
    && not (q.provider_binding_digest == b.containment_binding_digest)
    && b.preflight_disposition == "VERIFIED"
    && b.execution_id == b.task_run_id
    && containment_binding_digest p b q == b.containment_binding_digest

unfoldable pub valid_binding : Platform → String → String → ContainmentBinding → Bool
unfolding valid_identity is_opaque
valid_binding p execution_id task_run_id b =
    b.execution_id == execution_id
    && b.task_run_id == task_run_id
    && is_routing_identifier b.execution_id
    && is_routing_identifier b.task_run_id
    && is_routing_identifier b.containment_policy_id
    && is_version b.containment_policy_version
    && is_sha256 b.containment_policy_digest
    && is_sha256 b.containment_binding_digest
    && is_routing_identifier b.provider_id
    && is_opaque b.model_id
    && is_sha256 b.model_digest
    && is_sha256 b.image_digest
    && contains containment_runtime_families b.runtime_family
    && is_version b.runtime_version
    && is_sha256 b.security_profile_digest
    && is_sha256 b.model_mount_identity_digest
    && is_version b.verifier_version
    && is_sha256 b.channel_a_result_digest
    && is_sha256 b.channel_b_result_digest
    && contains containment_preflight_dispositions b.preflight_disposition
    && elim b.prepared [ none ↦ true | some q ↦ valid_identity p b q ]

unfoldable pub project_binding : Platform → Json → String → String → Option ContainmentBinding
unfolding object_of read_binding valid_binding
project_binding p raw execution_id task_run_id = do
  ms ← object_of raw
  b ← read_binding ms
  guard (valid_binding p execution_id task_run_id b)
  some b

-- A text of the list, or `null`.
unfoldable pub read_failure : Members → Option (Option String)
unfolding lookup
read_failure ms = elim (lookup "failureCode" ms) [
  | some null ↦ some none
  | some (str s) ↦ some (some s)
  | _ ↦ none
]

unfoldable pub valid_post : PostAttempt → Bool
valid_post q =
    contains containment_model_integrity_statuses q.post_attempt_model_integrity
    && elim q.failure_code [
      | none ↦ true
      | some code ↦ contains containment_audit_failure_codes code
    ]
    && not (q.post_attempt_model_integrity == "VERIFIED_AT_BIND")

unfoldable pub is_true : Option Json → Bool
is_true (some (bool true)) = true
is_true _ = false

abbrev pub post_keys : List String
post_keys = "attemptBoundaryCrossed" ∷ "postAttemptModelIntegrity" ∷ "failureCode" ∷ []

unfoldable pub project_post_attempt : Json → Option PostAttempt
unfolding object_of text read_failure valid_post is_true lookup
project_post_attempt raw = do
  ms ← object_of raw
  guard (has_keys post_keys [] ms)
  post_attempt_model_integrity ← text "postAttemptModelIntegrity" ms
  failure_code ← read_failure ms
  let q : PostAttempt = record {
    post_attempt_model_integrity = post_attempt_model_integrity;
    failure_code = failure_code;
  }
  guard (is_true (lookup "attemptBoundaryCrossed" ms) && valid_post q)
  some q
