-- ===== src/Delivery/Hosting/Merged.antt =====
-- repository-hosting-manager.ts: what a run of `mergePullRequest` has done when it ends.
use chunsik_bot.Base.{
  String, true, false, ◌≡◌, refl, ◌⊎◌, inl, inr, List, ◌∷◌, ◌==◌, string_eq, arith, Bool-cases,
}
use chunsik_bot.Base.Result.{ok, err}
use chunsik_bot.Base.Effect.{Outcome, returned, threw}
use chunsik_bot.Base.Effect.Steps.{check-then, call-then, given-and}
use chunsik_bot.Domain.{ApprovalStatus, approval_status_eq}
use chunsik_bot.Delivery.Hosting.{
  PullRequestState, PullRequestMergeability, PullRequestMergePreflight, PullRequestMergeResult,
  HostingFailure, hosting_blocked, hosting_unverified, Reply, HostingEvent, preflight_asked,
  pull_request_merged, mutations, RepositoryHostingProvider,
}
use chunsik_bot.Delivery.Hosting.Guards.{
  MergeInput, merge_guards, approved_guards, is_same_ref, merge_verified,
}
use chunsik_bot.Delivery.Hosting.Manager.{
  is_merged, is_open, is_mergeable, merged_now, query_of_merge, merge_checked, merge_pull_request,
}

-- What the provider said just before is about the pull request that was approved, at its head.
pub record AsApproved (input : MergeInput) (preflight : PullRequestMergePreflight) : Type 0 where
  pub approved : (input.approval_status == ApprovalStatus.approved) ≡ true
  pub same_ref : is_same_ref preflight.ref input.identity input.pull_request_ref ≡ true
  pub head : preflight.head_branch ≡ input.expected_head_branch
  pub base : preflight.base_branch ≡ input.expected_base_branch
  pub sha : preflight.head_commit_hash ≡ input.expected_head_sha

-- The merge itself was tried: the pull request was open and mergeable.
abbrev pub Attempted :
    MergeInput → List HostingEvent → List HostingEvent → Reply PullRequestMergeResult → Type 0
Attempted input history later reply =
    (preflight : PullRequestMergePreflight) × AsApproved input preflight
    × (preflight.state ≡ PullRequestState.opened)
    × (preflight.mergeability ≡ PullRequestMergeability.mergeable)
    × (later
        ≡ pull_request_merged input.identity input.pull_request_ref input.expected_head_sha reply
          ∷ preflight_asked (query_of_merge input) (ok preflight)
          ∷ history)

abbrev pub MergeOutcome :
    MergeInput
    → List HostingEvent
    → Outcome HostingEvent HostingFailure PullRequestMergeResult
    → Type 0
MergeOutcome input history (returned result later) =
    (result.merged ≡ true)
    × (result.merged_head_sha ≡ input.expected_head_sha)
    × (((result.already_merged ≡ true)
          × (preflight : PullRequestMergePreflight) × AsApproved input preflight
          × (preflight.state ≡ PullRequestState.merged)
          × (later ≡ preflight_asked (query_of_merge input) (ok preflight) ∷ history))
        ⊎ ((result.already_merged ≡ false)
            × (reported : PullRequestMergeResult) × Attempted input history later (ok reported)
            × (result ≡ merged_now reported)))
MergeOutcome input history (threw e later) =
    ((message : String) × (e ≡ hosting_blocked message) × (mutations later ≡ mutations history))
    ⊎ ((message : String) × (reply : Reply PullRequestMergeResult) × (e
          ≡ hosting_unverified message)
        × Attempted input history later reply)

merge_guards-approved :
    (kind : String) (input : MergeInput)
    → merge_guards kind input ≡ ok tt
    → (input.approval_status == ApprovalStatus.approved) ≡ true
unfolding merge_guards approved_guards
merge_guards-approved kind input h = ground arith

merge_verified_sound :
    (result : PullRequestMergeResult) (input : MergeInput)
    → merge_verified result input ≡ true
    → (result.merged ≡ true) × ((result.merged_head_sha == input.expected_head_sha) ≡ true)
unfolding merge_verified
merge_verified_sound result input h = ground arith

is_merged_sound : (s : PullRequestState) → is_merged s ≡ true → s ≡ PullRequestState.merged
is_merged_sound s h = ground arith

is_open_sound : (s : PullRequestState) → is_open s ≡ true → s ≡ PullRequestState.opened
is_open_sound s h = ground arith

is_mergeable_sound :
    (m : PullRequestMergeability) → is_mergeable m ≡ true → m ≡ PullRequestMergeability.mergeable
is_mergeable_sound m h = ground arith

merge_checked_lem :
    (provider : RepositoryHostingProvider) (input : MergeInput) (history : List HostingEvent)
    (preflight : PullRequestMergePreflight)
    → AsApproved input preflight
    → MergeOutcome input history (
        merge_checked provider input preflight
          (preflight_asked (query_of_merge input) (ok preflight) ∷ history))
unfolding merge_checked
merge_checked_lem provider input history preflight good =
    elim (Bool-cases (is_merged preflight.state)) [
      | inl is ↦ rw is (refl, good.sha, inl (refl, preflight, good, is_merged_sound _ is, refl))
      | inr not_merged ↦ rw not_merged (
          check-then Q _ _ _ _ (inl (_, refl, refl)) λ opened.
            check-then Q _ _ _ _ (inl (_, refl, refl)) λ can.
              call-then Q _ _ _ _ _ (λ e. inr (_, err e, refl, tried opened can (err e)))
                λ result.
                  check-then Q _ _ _ _ (inr (_, ok result, refl, tried opened can (ok result)))
                    λ verified. (
                      (merge_verified_sound result input verified).0,
                      (string_eq.agrees _ _).0 (merge_verified_sound result input verified).1,
                      inr (refl, result, tried opened can (ok result), refl),
                    ))
    ]
  where
    Q : Outcome HostingEvent HostingFailure PullRequestMergeResult → Type 0
    Q = MergeOutcome input history

    tried :
        is_open preflight.state ≡ true
        → is_mergeable preflight.mergeability ≡ true
        → (reply : Reply PullRequestMergeResult)
        → Attempted input history
            (pull_request_merged input.identity input.pull_request_ref input.expected_head_sha reply
              ∷ preflight_asked (query_of_merge input) (ok preflight)
              ∷ history)
            reply
    tried opened can reply =
        (preflight, good, is_open_sound _ opened, is_mergeable_sound _ can, refl)

-- A run of `mergePullRequest` that returns is approved, and its result says that the pull request is
-- merged at the head that was approved: either the provider has just said so, and nothing is changed, or
-- it has just said that the pull request is open, mergeable and at that head, and is called once more to
-- merge it. A run that throws a Blocked error has changed nothing; any other error is Unverified, after
-- that call.
pub merge_pull_request_lem :
    (provider : RepositoryHostingProvider) (input : MergeInput) (history : List HostingEvent)
    → MergeOutcome input history (merge_pull_request provider input history)
unfolding merge_pull_request
merge_pull_request_lem provider input history =
    given-and Q _ _ _ _ (λ _. inl (_, refl, refl))
      λ guarded.
        call-then Q _ _ _ _ _ (λ _. inl (_, refl, refl))
          λ preflight. check-then Q _ _ _ _ (inl (_, refl, refl)) λ same.
            check-then Q _ _ _ _ (inl (_, refl, refl)) λ head.
              check-then Q _ _ _ _ (inl (_, refl, refl)) λ base.
                check-then Q _ _ _ _ (inl (_, refl, refl)) λ sha.
                  merge_checked_lem provider input history preflight (record {
                    approved = merge_guards-approved provider.kind input guarded;
                    same_ref = same;
                    head = (string_eq.agrees _ _).0 head;
                    base = (string_eq.agrees _ _).0 base;
                    sha = (string_eq.agrees _ _).0 sha;
                  })
  where
    Q : Outcome HostingEvent HostingFailure PullRequestMergeResult → Type 0
    Q = MergeOutcome input history
