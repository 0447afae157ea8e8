-- ===== src/Delivery/Hosting/Removed.antt =====
-- repository-hosting-manager.ts: what a run of `deleteRemoteBranch` has done when it ends.
use chunsik_bot.Base.{
  String, true, false, ◌≡◌, refl, ◌⊎◌, inl, inr, Option, none, some, List, ◌∷◌, ◌==◌, string_eq,
  arith,
}
use chunsik_bot.Base.Result.{ok, err}
use chunsik_bot.Base.Effect.{Outcome, returned, threw}
use chunsik_bot.Base.Effect.Steps.{check-then, call-then, given-and}
use chunsik_bot.Domain.{ApprovalStatus, approval_status_eq}
use chunsik_bot.Delivery.Hosting.{
  PullRequestState, PullRequestMergePreflight, RemoteCommit, RemoteBranchCleanupResult,
  HostingFailure, hosting_blocked, hosting_unverified, cleanup_blocked, cleanup_unverified,
  other_error, Reply, HostingEvent, preflight_asked, remote_branch_asked, remote_branch_deleted,
  mutations, RepositoryHostingProvider,
}
use chunsik_bot.Delivery.Hosting.Guards.{
  RemoteCleanupInput, cleanup_guards, approved_guards, is_same_ref, cleanup_verified,
}
use chunsik_bot.Delivery.Hosting.Manager.{
  is_merged, query_of_cleanup, removal_error, remove_checked, delete_remote_branch,
}

-- The branch is that of the pull request and not its base, and the provider said just before that the
-- pull request is merged at the expected commit.
pub record MayRemove (input : RemoteCleanupInput) (preflight : PullRequestMergePreflight)
    : Type 0 where
  pub approved : (input.approval_status == ApprovalStatus.approved) ≡ true
  pub of_request : (input.branch == input.expected_head_branch) ≡ true
  pub not_base : (input.branch == input.expected_base_branch) ≡ false
  pub not_main : (input.branch == "main") ≡ false
  pub same_ref : is_same_ref preflight.ref input.identity input.pull_request_ref ≡ true
  pub commit : (preflight.head_commit_hash == input.expected_commit_hash) ≡ true
  pub is_merged : preflight.state ≡ PullRequestState.merged

abbrev pub Absent : RemoteCleanupInput → List HostingEvent → List HostingEvent → Type 0
Absent input history later =
    (preflight : PullRequestMergePreflight) × MayRemove input preflight
    × (later
        ≡ remote_branch_asked input.identity input.branch (ok none)
          ∷ preflight_asked (query_of_cleanup input) (ok preflight)
          ∷ history)

-- The removal itself was tried: the branch was at the expected commit.
abbrev pub Attempted :
    RemoteCleanupInput
    → List HostingEvent
    → List HostingEvent
    → Reply RemoteBranchCleanupResult
    → Type 0
Attempted input history later reply =
    (preflight : PullRequestMergePreflight) × (remote : RemoteCommit) × MayRemove input preflight
    × (remote.commit_hash ≡ input.expected_commit_hash)
    × (later
        ≡ remote_branch_deleted input.identity input.branch input.expected_commit_hash reply
          ∷ remote_branch_asked input.identity input.branch (ok (some remote))
          ∷ preflight_asked (query_of_cleanup input) (ok preflight)
          ∷ history)

abbrev pub RemovalOutcome :
    RemoteCleanupInput
    → List HostingEvent
    → Outcome HostingEvent HostingFailure RemoteBranchCleanupResult
    → Type 0
RemovalOutcome input history (returned result later) =
    (result.branch ≡ input.branch)
    × ((Absent input history later × (result.deleted ≡ false) × (result.already_absent ≡ true))
        ⊎ (Attempted input history later (ok result) × (cleanup_verified result input ≡ true)))
RemovalOutcome input history (threw e later) =
    ((message : String) × (e ≡ cleanup_blocked message)
      × ((mutations later ≡ mutations history)
          ⊎ Attempted input history later (err (cleanup_blocked message))))
    ⊎ ((message : String) × (reply : Reply RemoteBranchCleanupResult) × (e
          ≡ cleanup_unverified message)
        × Attempted input history later reply)

removal_error-cases :
    (e : HostingFailure)
    → ((message : String) × (e ≡ cleanup_blocked message))
      ⊎ ((message : String) × (removal_error e ≡ cleanup_unverified message))
removal_error-cases (cleanup_blocked message) = inl (message, refl)
removal_error-cases (cleanup_unverified message) = inr (message, refl)
removal_error-cases (hosting_blocked message) = inr (_, refl)
removal_error-cases (hosting_unverified message) = inr (_, refl)
removal_error-cases (other_error message) = inr (_, refl)

may_remove :
    (kind : String) (input : RemoteCleanupInput) (preflight : PullRequestMergePreflight)
    → cleanup_guards kind input ≡ ok tt
    → is_same_ref preflight.ref input.identity input.pull_request_ref ≡ true
    → (preflight.head_commit_hash == input.expected_commit_hash) ≡ true
    → is_merged preflight.state ≡ true
    → MayRemove input preflight
unfolding cleanup_guards approved_guards
may_remove kind input preflight guarded same commit merged = ground arith

cleanup_verified-branch :
    (result : RemoteBranchCleanupResult) (input : RemoteCleanupInput)
    → cleanup_verified result input ≡ true
    → (result.branch == input.branch) ≡ true
unfolding cleanup_verified
cleanup_verified-branch result input h = ground arith

remove_checked_lem :
    (provider : RepositoryHostingProvider) (input : RemoteCleanupInput)
    (history : List HostingEvent) (preflight : PullRequestMergePreflight)
    (found : Option RemoteCommit)
    → MayRemove input preflight
    → RemovalOutcome input history (
        remove_checked provider input found (
          remote_branch_asked input.identity input.branch (ok found)
          ∷ preflight_asked (query_of_cleanup input) (ok preflight)
          ∷ history))
unfolding remove_checked
remove_checked_lem provider input history preflight none may =
    (refl, inl ((preflight, may, refl), refl, refl))
remove_checked_lem provider input history preflight (some remote) may =
    check-then Q _ _ _ _ (inl (_, refl, inl refl)) λ same.
      call-then Q _ _ _ _ _
        (λ e. elim (removal_error-cases e) [
          | inl (message, q) ↦ rw q (inl (message, refl, inr (tried same _)))
          | inr (message, q) ↦ inr (message, err e, q, tried same _)
        ])
        λ result. check-then Q _ _ _ _ (inr (_, ok result, refl, tried same _)) λ verified. (
          (string_eq.agrees _ _).0 (cleanup_verified-branch result input verified),
          inr (tried same _, verified),
        )
  where
    Q : Outcome HostingEvent HostingFailure RemoteBranchCleanupResult → Type 0
    Q = RemovalOutcome input history

    tried :
        (remote.commit_hash == input.expected_commit_hash) ≡ true
        → (reply : Reply RemoteBranchCleanupResult)
        → Attempted input history
            (remote_branch_deleted input.identity input.branch input.expected_commit_hash reply
              ∷ remote_branch_asked input.identity input.branch (ok (some remote))
              ∷ preflight_asked (query_of_cleanup input) (ok preflight)
              ∷ history)
            reply
    tried same reply = (preflight, remote, may, (string_eq.agrees _ _).0 same, refl)

-- A run of `deleteRemoteBranch` that returns is approved, its branch is the head of the pull request and
-- neither its base nor main, and the provider has said that the pull request is merged at the expected
-- commit. Either the branch was absent and nothing is changed, or it was at that commit, and one last call
-- was made to delete it, whose report is verified. A run that throws a Blocked error has changed nothing,
-- or the deleting call threw that error; any other error is Unverified, after that call.
pub delete_remote_branch_lem :
    (provider : RepositoryHostingProvider) (input : RemoteCleanupInput)
    (history : List HostingEvent)
    → RemovalOutcome input history (delete_remote_branch provider input history)
unfolding delete_remote_branch
delete_remote_branch_lem provider input history =
    given-and Q _ _ _ _ (λ _. inl (_, refl, inl refl))
      λ guarded.
        call-then Q _ _ _ _ _ (λ _. inl (_, refl, inl refl))
          λ preflight. check-then Q _ _ _ _ (inl (_, refl, inl refl)) λ attributable.
            check-then Q _ _ _ _ (inl (_, refl, inl refl)) λ merged.
              call-then Q _ _ _ _ _ (λ _. inl (_, refl, inl refl))
                λ found. remove_checked_lem provider input history preflight found (
                  may_remove provider.kind input preflight guarded (ground arith) (ground arith)
                    merged)
  where
    Q : Outcome HostingEvent HostingFailure RemoteBranchCleanupResult → Type 0
    Q = RemovalOutcome input history
