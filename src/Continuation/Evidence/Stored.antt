-- ===== src/Continuation/Evidence/Stored.antt =====
-- continuation-containment-validation.ts: the projection of the data that projected evidence is stored as.
use chunsik_bot.Base.{
  String, ◌≡◌, refl, sym, ap, ◌∙◌, true, ◌&&◌, Option, none, some, [], ◌∷◌, ◌++◌, ◌==◌, string_eq,
  list_eq, option_eq, subst, and-eq-true, inl, inr, Option-cases, none_not_some, some-injective,
}
use chunsik_bot.Base.Platform.{Platform}
use chunsik_bot.Base.Optional.{◌>>=◌, bind-eq-some, guard-eq-some}
use chunsik_bot.Base.Json.{Json, Members, json_object}
use chunsik_bot.Base.Members.{lookup, own_keys, has_keys}
use chunsik_bot.Continuation.Evidence.{
  PreparedIdentity, ContainmentBinding, PostAttempt, ContainmentAudit, containment_audit_schema,
}
use chunsik_bot.Continuation.Evidence.Snapshot.{
  text, object_of, read_identity, read_prepared, read_binding, valid_binding, project_binding,
  read_failure, is_true, valid_post, project_post_attempt, post_keys,
}
use chunsik_bot.Continuation.Evidence.Audit.{
  project_post, snapshot_containment_audit, identity_members, fact_members, binding_members,
  post_members, audit_json,
}

read_binding_back :
    (q : Option PreparedIdentity) (b : ContainmentBinding)
    → (object_of (json_object (identity_members q ++ fact_members b)) >>= read_binding)
      ≡ some (record b { prepared = q })
unfolding object_of read_binding read_prepared read_identity text lookup has_keys own_keys
read_binding_back none b = refl
read_binding_back (some q) b = refl

-- What is projected is valid,
project_binding-valid :
    (p : Platform) (raw : Json) (execution_id task_run_id : String) {b : ContainmentBinding}
    → project_binding p raw execution_id task_run_id ≡ some b
    → valid_binding p execution_id task_run_id b ≡ true
unfolding project_binding
project_binding-valid p raw execution_id task_run_id e =
    let (ms, _, at_ms) = bind-eq-some (object_of raw) _ e in
    let (read, _, at_read) = bind-eq-some (read_binding ms) _ at_ms in
    let (valid, same) = guard-eq-some (valid_binding p execution_id task_run_id read) _ at_read in
    ap (valid_binding p execution_id task_run_id) (sym (some-injective same)) ∙ valid

-- and is read back from the data that it is written as.
project_binding-back :
    (p : Platform) (execution_id task_run_id : String) (b : ContainmentBinding)
    → valid_binding p execution_id task_run_id b ≡ true
    → project_binding p (json_object (binding_members b)) execution_id task_run_id ≡ some b
unfolding project_binding object_of
project_binding-back p execution_id task_run_id b valid =
    rw (read_binding_back b.prepared b, valid) refl

project_post_attempt-valid :
    (raw : Json) {q : PostAttempt} → project_post_attempt raw ≡ some q → valid_post q ≡ true
unfolding project_post_attempt
project_post_attempt-valid raw e =
    let (ms, _, at_ms) = bind-eq-some (object_of raw) _ e in
    let (_, at_keys) = guard-eq-some (has_keys post_keys [] ms) _ at_ms in
    let (status, _, at_status) = bind-eq-some (text "postAttemptModelIntegrity" ms) _ at_keys in
    let (code, _, at_code) = bind-eq-some (read_failure ms) _ at_status in
    let (valid, same) =
      guard-eq-some (is_true (lookup "attemptBoundaryCrossed" ms) && _) _ at_code in
    ap valid_post (sym (some-injective same)) ∙ (and-eq-true _ _ valid).1

project_post_attempt-back :
    (q : PostAttempt)
    → valid_post q ≡ true
    → project_post_attempt (json_object (post_members q)) ≡ some q
unfolding project_post_attempt object_of text lookup read_failure has_keys own_keys is_true
project_post_attempt-back q = helper q.failure_code
  where
    helper :
        (code : Option String)
        → valid_post (record q { failure_code = code }) ≡ true
        → project_post_attempt (json_object (post_members (record q { failure_code = code })))
          ≡ some (record q { failure_code = code })
    helper none valid = rw valid refl
    helper (some code) valid = rw valid refl

-- Evidence that a projection gave.
pub record IsProjected (p : Platform) (id : String) (audit : ContainmentAudit) : Type 0 where
  pub binding : valid_binding p id id audit.binding ≡ true
  pub attempt : (q : PostAttempt) → audit.post_attempt ≡ some q → valid_post q ≡ true

project_post-valid :
    (ms : Members) {found : Option PostAttempt}
    → project_post ms ≡ some found
    → (q : PostAttempt) → found ≡ some q
    → valid_post q ≡ true
unfolding project_post
project_post-valid ms e q is_q = elim (Option-cases (lookup "postAttempt" ms)) [
  | inl absent ↦ absurd (none_not_some (some-injective (rw (project_post, absent) at e) ∙ is_q))
  | inr (raw, given) ↦
      let (r, projected, same) =
        bind-eq-some (project_post_attempt raw) _ (rw (project_post, given) at e) in
      ap valid_post (sym (some-injective (some-injective same ∙ is_q)))
      ∙ project_post_attempt-valid raw projected
]

pub snapshot-IsProjected :
    (p : Platform) (value : Json) (id : String) {audit : ContainmentAudit}
    → snapshot_containment_audit p value id id ≡ some audit
    → IsProjected p id audit
unfolding snapshot_containment_audit
snapshot-IsProjected p value id {audit} e =
    let (ms, _, at_ms) = bind-eq-some (object_of value) _ e in
    let (_, at_keys) =
      guard-eq-some (has_keys ("schemaVersion" ∷ "binding" ∷ []) ("postAttempt" ∷ []) ms) _ at_ms in
    let (schema, _, at_schema) = bind-eq-some (text "schemaVersion" ms) _ at_keys in
    let (_, at_version) = guard-eq-some (schema == containment_audit_schema) _ at_schema in
    let (raw, _, at_raw) = bind-eq-some (lookup "binding" ms) _ at_version in
    let (b, bound, at_binding) = bind-eq-some (project_binding p raw id id) _ at_raw in
    let (q, posted, same) = bind-eq-some (project_post ms) _ at_binding in
    subst (IsProjected p id) (some-injective same) (record {
      binding = project_binding-valid p raw id id bound;
      attempt = project_post-valid ms posted;
    })

pub snapshot_back :
    (p : Platform) (id : String) (audit : ContainmentAudit)
    → IsProjected p id audit
    → snapshot_containment_audit p (audit_json audit) id id ≡ some audit
unfolding snapshot_containment_audit audit_json object_of has_keys own_keys text lookup project_post
snapshot_back p id audit proj = helper audit.post_attempt proj.attempt
  where
    helper :
        (o : Option PostAttempt)
        → ((q : PostAttempt) → o ≡ some q → valid_post q ≡ true)
        → snapshot_containment_audit p (audit_json (record audit { post_attempt = o })) id id
          ≡ some (record audit { post_attempt = o })
    helper none valid = rw (project_binding-back p id id audit.binding proj.binding) refl
    helper (some q) valid =
        rw
          (
            project_binding-back p id id audit.binding proj.binding,
            project_post_attempt-back q (valid q refl),
          )
          refl

-- What the projection accepts as evidence of a run is the same after it was written into a row and
-- projected again.
pub snapshot-audit_json :
    (p : Platform) (value : Json) (id : String) (audit : ContainmentAudit)
    → snapshot_containment_audit p value id id ≡ some audit
    → snapshot_containment_audit p (audit_json audit) id id ≡ some audit
snapshot-audit_json p value id audit e =
    snapshot_back p id audit (snapshot-IsProjected p value id e)
