-- ===== src/Delivery/Git/Approved.antt =====
-- git-manager.ts: what `commitFiles` and `pushApprovedCommit` hand to the provider.
use chunsik_bot.Base.{
  Bool, is_empty, not-eq-true, false_not_true, true, false, ◌≡◌, refl, ◌⊎◌, inl, inr, List, ◌∷◌,
  map, any, not, distinct, string_eq, arith,
}
use chunsik_bot.Base.Unicode.{trim_text}
use chunsik_bot.Base.Result.{ok, err}
use chunsik_bot.Base.Effect.{Outcome, returned, threw}
use chunsik_bot.Base.Effect.Steps.{check-either, call-last}
use chunsik_bot.Domain.{ApprovalStatus, approval_status_eq}
use chunsik_bot.Delivery.Names.{
  is_safe_push_remote, is_safe_push_branch, is_sha_shaped, is_valid_commit_message,
  is_unsafe_commit_path,
}
use chunsik_bot.Delivery.Git.{
  GitCommitResult, GitPushResult, GitFailure, Reply, GitEvent, files_committed, commit_pushed,
  GitProvider,
}
use chunsik_bot.Delivery.Git.Manager.{
  has_text, CommitInput, PushInput, commit_files, push_approved_commit,
}

negated : (b : Bool) → not b ≡ false → b ≡ false → ⊥
negated b n f = ground arith

-- A run ends with one call, whose reply it passes on.
abbrev pub Passes :
    {A : Type 0} → (Reply A → List GitEvent) → Outcome GitEvent GitFailure A → Type 0
Passes called (returned a later) = later ≡ called (ok a)
Passes called (threw e later) = later ≡ called (err e)

-- A run ends before any call.
abbrev pub Stops : {A : Type 0} → List GitEvent → Outcome GitEvent GitFailure A → Type 0
Stops history (returned a later) = ⊥
Stops history (threw e later) = later ≡ history

-- A run that calls the provider exactly when it is allowed to.
abbrev pub Gated :
    {A : Type 0}
    → Type 0
    → (Reply A → List GitEvent)
    → List GitEvent
    → Outcome GitEvent GitFailure A
    → Type 0
Gated Allowed called history outcome =
    ((¬ Allowed) × Stops history outcome) ⊎ (Allowed × Passes called outcome)

pub record CommitAllowed (input : CommitInput) : Type 0 where
  pub approved : input.approval_status ≡ ApprovalStatus.approved
  pub rooted : has_text input.root_path ≡ true
  pub some_file : is_empty input.files ≡ false
  pub safe_files : any is_unsafe_commit_path (map trim_text input.files) ≡ false
  pub distinct_files : distinct (map trim_text input.files) ≡ true
  pub valid_message : is_valid_commit_message input.message ≡ true

abbrev pub commit_called : CommitInput → List GitEvent → Reply GitCommitResult → List GitEvent
commit_called input history reply =
    files_committed input.root_path (map trim_text input.files) input.message reply ∷ history

-- A commit calls the provider exactly when it is approved, the root and the list of files are not empty,
-- the trimmed files are safe and distinct and the message is valid. It is then called once, with the
-- trimmed files, and the reply is passed on; otherwise the commit throws before any call.
pub commit_files_lem :
    (provider : GitProvider) (input : CommitInput) (history : List GitEvent)
    → Gated
        (CommitAllowed input)
        (commit_called input history)
        history
        (commit_files provider input history)
unfolding commit_files
commit_files_lem provider input history =
    check-either Q _ _ _ _
      (λ n. inl (λ a. cc (n, (approval_status_eq.agrees _ _).1 a.approved), refl))
      λ approved.
        check-either Q _ _ _ _ (λ n. inl (λ a. false_not_true n a.rooted, refl))
          λ rooted.
            check-either Q _ _ _ _ (λ n. inl (λ a. negated _ n a.some_file, refl))
              λ some_file.
                check-either Q _ _ _ _ (λ n. inl (λ a. negated _ n a.safe_files, refl))
                  λ safe.
                    check-either Q _ _ _ _ (λ n. inl (λ a. false_not_true n a.distinct_files, refl))
                      λ no_doubles.
                        check-either Q _ _ _ _
                          (λ n. inl (λ a. false_not_true n a.valid_message, refl))
                          λ valid.
                            let allowed : CommitAllowed input = record {
                              approved = (approval_status_eq.agrees _ _).0 approved;
                              rooted = rooted;
                              some_file = not-eq-true _ some_file;
                              safe_files = not-eq-true _ safe;
                              distinct_files = no_doubles;
                              valid_message = valid;
                            } in
                            call-last Q _ _ _ _ (λ e. inr (allowed, refl))
                              λ result. inr (allowed, refl)
  where
    Q : Outcome GitEvent GitFailure GitCommitResult → Type 0
    Q = Gated (CommitAllowed input) (commit_called input history) history

pub record PushAllowed (input : PushInput) : Type 0 where
  pub approved : input.approval_status ≡ ApprovalStatus.approved
  pub rooted : has_text input.root_path ≡ true
  pub safe_remote : is_safe_push_remote input.remote ≡ true
  pub safe_branch : is_safe_push_branch input.branch ≡ true
  pub sha_shaped : is_sha_shaped input.commit_hash ≡ true

abbrev pub push_called : PushInput → List GitEvent → Reply GitPushResult → List GitEvent
push_called input history reply =
    commit_pushed input.root_path input.remote input.branch input.commit_hash reply ∷ history

-- A push calls the provider exactly when it is approved, the root is not empty, the remote and the branch
-- are safe names and the commit has the shape of a hash. It is then called once with them, and the
-- reply is passed on; otherwise the push throws before any call.
pub push_approved_commit_lem :
    (provider : GitProvider) (input : PushInput) (history : List GitEvent)
    → Gated
        (PushAllowed input)
        (push_called input history)
        history
        (push_approved_commit provider input history)
unfolding push_approved_commit
push_approved_commit_lem provider input history =
    check-either Q _ _ _ _
      (λ n. inl (λ a. cc (n, (approval_status_eq.agrees _ _).1 a.approved), refl))
      λ approved.
        check-either Q _ _ _ _ (λ n. inl (λ a. false_not_true n a.rooted, refl))
          λ rooted.
            check-either Q _ _ _ _ (λ n. inl (λ a. false_not_true n a.safe_remote, refl))
              λ remote.
                check-either Q _ _ _ _ (λ n. inl (λ a. false_not_true n a.safe_branch, refl))
                  λ branch.
                    check-either Q _ _ _ _ (λ n. inl (λ a. false_not_true n a.sha_shaped, refl))
                      λ sha.
                        let allowed : PushAllowed input = record {
                          approved = (approval_status_eq.agrees _ _).0 approved;
                          rooted = rooted;
                          safe_remote = remote;
                          safe_branch = branch;
                          sha_shaped = sha;
                        } in
                        call-last Q _ _ _ _ (λ e. inr (allowed, refl)) λ result. inr (allowed, refl)
  where
    Q : Outcome GitEvent GitFailure GitPushResult → Type 0
    Q = Gated (PushAllowed input) (push_called input history) history
