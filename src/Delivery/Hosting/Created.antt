-- ===== src/Delivery/Hosting/Created.antt =====
-- repository-hosting-manager.ts: what a run of `createPullRequest` has done when it ends.
use chunsik_bot.Base.{
  String, true, false, ◌≡◌, refl, ◌⊎◌, inl, inr, Option, none, some, List, ◌∷◌, ◌==◌, string_eq,
  leb, arith,
}
use chunsik_bot.Base.Text.{codes}
use chunsik_bot.Base.Unicode.{utf16_length}
use chunsik_bot.Base.Result.{ok}
use chunsik_bot.Base.Effect.{Outcome, returned, threw}
use chunsik_bot.Base.Effect.Steps.{check-then, call-then, given-and}
use chunsik_bot.Domain.{ApprovalStatus, approval_status_eq}
use chunsik_bot.Delivery.Names.{is_safe_push_branch}
use chunsik_bot.Delivery.Hosting.{
  PullRequestResult, HostingFailure, hosting_blocked, hosting_unverified, Reply, HostingEvent,
  open_asked, pull_request_created, mutations, RepositoryHostingProvider,
}
use chunsik_bot.Delivery.Hosting.Identity.{
  is_safe_github_pull_request_url, normalize_pr_title, max_pr_title,
}
use chunsik_bot.Delivery.Hosting.Guards.{
  CreateInput, create_guards, assert_result_integrity, same_repository,
}
use chunsik_bot.Delivery.Hosting.Manager.{
  creation_input, with_reused, reuse_or_create, create_pull_request,
}

pub record CreateAllowed (input : CreateInput) : Type 0 where
  pub approved : (input.approval_status == ApprovalStatus.approved) ≡ true
  pub safe_head : is_safe_push_branch input.head_branch ≡ true
  pub safe_base : is_safe_push_branch input.base_branch ≡ true
  pub branches_differ : (input.head_branch == input.base_branch) ≡ false
  pub title_bounded :
      leb (utf16_length (codes (normalize_pr_title input.title))) max_pr_title ≡ true

create_guards-eq-ok :
    (kind : String) (input : CreateInput) → create_guards kind input ≡ ok tt → CreateAllowed input
unfolding create_guards
create_guards-eq-ok kind input h = ground arith

-- A pull request of the repository between the two branches at the expected commit.
pub record Matches (input : CreateInput) (result : PullRequestResult) : Type 0 where
  pub repository : same_repository result.provider result.owner result.repo input.identity ≡ true
  pub head : (result.pull_request_head_branch == input.head_branch) ≡ true
  pub base : (result.pull_request_base_branch == input.base_branch) ≡ true
  pub commit : (result.pull_request_commit_hash == input.expected_commit_hash) ≡ true
  pub address :
      is_safe_github_pull_request_url result.pull_request_url input.identity
        result.pull_request_number
      ≡ true

integrity-Matches :
    (input : CreateInput) (result : PullRequestResult)
    → assert_result_integrity result input.identity input.head_branch input.base_branch
        input.expected_commit_hash
      ≡ ok tt
    → Matches input result
unfolding assert_result_integrity
integrity-Matches input result h = ground arith

-- The pull request was created after none was found open.
abbrev pub Attempted :
    CreateInput → List HostingEvent → List HostingEvent → Reply PullRequestResult → Type 0
Attempted input history later reply =
    (earlier : List HostingEvent) × (later
      ≡ pull_request_created (creation_input input) reply
        ∷ open_asked input.identity input.head_branch input.base_branch (ok none)
        ∷ earlier)
    × (mutations earlier ≡ mutations history)

abbrev pub Reused : CreateInput → List HostingEvent → List HostingEvent → PullRequestResult → Type 0
Reused input history later existing =
    (earlier : List HostingEvent) × (later
      ≡ open_asked input.identity input.head_branch input.base_branch (ok (some existing))
        ∷ earlier)
    × (mutations earlier ≡ mutations history)

abbrev pub CreateOutcome :
    CreateInput → List HostingEvent → Outcome HostingEvent HostingFailure PullRequestResult → Type 0
CreateOutcome input history (returned result later) =
    CreateAllowed input
    × (reported : PullRequestResult) × Matches input reported
    × ((Reused input history later reported × (result ≡ with_reused true reported))
        ⊎ (Attempted input history later (ok reported) × (result ≡ with_reused false reported)))
CreateOutcome input history (threw e later) =
    ((message : String) × (e ≡ hosting_blocked message) × (mutations later ≡ mutations history))
    ⊎ (CreateAllowed input
        × (message : String) × (reply : Reply PullRequestResult) × (e ≡ hosting_unverified message)
        × Attempted input history later reply)

-- A run of `createPullRequest` that returns is approved and its names are safe; it passes on a report
-- about the right branches and commit, either of a pull request that was open already, nothing being
-- created, or of the one that it created by one last call after it found none open. A run that throws a
-- Blocked error has created nothing; any other error is Unverified, after that call.
pub create_pull_request_lem :
    (provider : RepositoryHostingProvider) (input : CreateInput) (history : List HostingEvent)
    → CreateOutcome input history (create_pull_request provider input history)
unfolding create_pull_request reuse_or_create
create_pull_request_lem provider input history =
    given-and Q _ _ _ _ (λ _. inl (_, refl, refl))
      λ guarded.
        call-then Q _ _ _ _ _ (λ _. inl (_, refl, refl))
          λ exists. check-then Q _ _ _ _ (inl (_, refl, refl)) λ _.
            call-then Q _ _ _ _ _ (λ _. inl (_, refl, refl))
              λ has_head. check-then Q _ _ _ _ (inl (_, refl, refl)) λ _.
                call-then Q _ _ _ _ _ (λ _. inl (_, refl, refl))
                  λ has_base. check-then Q _ _ _ _ (inl (_, refl, refl)) λ _.
                    call-then Q _ _ _ _ _ (λ _. inl (_, refl, refl))
                      λ existing.
                        choose existing _ (create_guards-eq-ok provider.kind input guarded) refl
  where
    Q : Outcome HostingEvent HostingFailure PullRequestResult → Type 0
    Q = CreateOutcome input history

    choose :
        (existing : Option PullRequestResult) (earlier : List HostingEvent)
        → CreateAllowed input
        → mutations earlier ≡ mutations history
        → Q (
            reuse_or_create provider input existing (
              open_asked input.identity input.head_branch input.base_branch (ok existing)
              ∷ earlier))
    choose (some existing) earlier allowed same =
        given-and Q _ _ _ _ (λ _. inl (_, refl, same))
          λ sound.
            (allowed, existing, integrity-Matches input existing sound, inl ((_, refl, same), refl))
    choose none earlier allowed same =
        call-then Q _ _ _ _ _ (λ _. inr (allowed, _, _, refl, (_, refl, same)))
          λ created.
            given-and Q _ _ _ _ (λ _. inr (allowed, _, _, refl, (_, refl, same)))
              λ sound. (
                allowed,
                created,
                integrity-Matches input created sound,
                inr ((_, refl, same), refl),
              )
