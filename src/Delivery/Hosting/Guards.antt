-- ===== src/Delivery/Hosting/Guards.antt =====
-- repository-hosting-manager.ts: what the operations check before they call the provider, in their
-- order, and what they check in its answers. Of an approval reference they read the status alone.
use chunsik_bot.Base.{
  ℕ, String, Bool, false, not, ◌&&◌, ◌||◌, Option, none, some, leb, ltb, is_empty, ◌==◌, string_eq,
  nat_eq,
}
use chunsik_bot.Base.Text.{codes}
use chunsik_bot.Base.Json.{◌⊕◌}
use chunsik_bot.Base.Unicode.{utf16_length}
use chunsik_bot.Base.Result.{Result, require, ◌>>◌}
use chunsik_bot.Domain.{ApprovalStatus, approval_status_eq}
use chunsik_bot.Domain.Names.{approval_status_name}
use chunsik_bot.Delivery.Names.{is_safe_push_branch, is_sha_shaped}
use chunsik_bot.Delivery.Hosting.{
  RepositoryIdentity, PullRequestRef, PullRequestResult, PullRequestMergeResult, PullRequestQuery,
  RemoteBranchCleanupResult,
}
use chunsik_bot.Delivery.Hosting.Identity.{
  is_supported_hosting_provider, is_safe_repo_owner, is_safe_repo_name, normalize_pr_title,
  is_safe_github_pull_request_url, max_pr_title, max_pr_body,
}

pub record CreateInput : Type 0 where
  pub identity : RepositoryIdentity
  pub head_branch : String
  pub base_branch : String
  pub title : String
  pub body : String
  pub expected_commit_hash : String
  pub approval_status : ApprovalStatus

pub record MergeInput : Type 0 where
  pub identity : RepositoryIdentity
  pub pull_request_ref : PullRequestRef
  pub expected_head_branch : String
  pub expected_base_branch : String
  pub expected_head_sha : String
  pub approval_status : ApprovalStatus

pub record RemoteCleanupInput : Type 0 where
  pub identity : RepositoryIdentity
  pub pull_request_ref : PullRequestRef
  pub expected_head_branch : String
  pub expected_base_branch : String
  pub branch : String
  pub expected_commit_hash : String
  pub approval_status : ApprovalStatus

-- A guard that fails has a message; the operation decides the class of the error.
abbrev pub Guards : Type 0
Guards = Result String (Unit {0})

unapproved : String → ApprovalStatus → String
unapproved what status =
    "repository hosting: "
    ⊕ what
    ⊕ " requires an APPROVED approval (got "
    ⊕ approval_status_name status
    ⊕ ")"

-- `Number.isSafeInteger(n) && n > 0`
unfoldable pub is_safe_number : ℕ → Bool
is_safe_number n = ltb 0 n && leb n 9007199254740991

abbrev pub same_repository : String → String → String → RepositoryIdentity → Bool
same_repository provider owner repo identity =
    provider == identity.provider && owner == identity.owner && repo == identity.repo

unfoldable pub create_guards : String → CreateInput → Guards
unfolding unapproved
create_guards kind input = do
  require (input.approval_status == ApprovalStatus.approved)
      (unapproved "PR creation" input.approval_status)
  require (kind == input.identity.provider)
      "repository hosting: provider kind does not match identity provider"
  require (is_supported_hosting_provider input.identity.provider)
      "repository hosting: unsupported hosting provider"
  require (is_safe_repo_owner input.identity.owner && is_safe_repo_name input.identity.repo)
      "repository hosting: unsafe repository identity"
  require (is_safe_push_branch input.head_branch) "repository hosting: unsafe head branch"
  require (is_safe_push_branch input.base_branch) "repository hosting: unsafe base branch"
  require (not (input.head_branch == input.base_branch))
      "repository hosting: head and base branch must differ"
  require (not (is_empty (codes (normalize_pr_title input.title))))
      "repository hosting: PR title is empty after normalization"
  require (leb (utf16_length (codes (normalize_pr_title input.title))) max_pr_title)
      "repository hosting: PR title exceeds bound"
  require (leb (utf16_length (codes input.body)) max_pr_body)
      "repository hosting: PR body exceeds bound"
  require (is_sha_shaped input.expected_commit_hash)
      "repository hosting: invalid expectedCommitHash"

-- The guards on the pull request that three operations are given.
unfoldable pub ref_guards : RepositoryIdentity → PullRequestRef → Guards
ref_guards identity handle = do
  require (is_safe_repo_owner identity.owner && is_safe_repo_name identity.repo)
      "repository hosting: unsafe repository identity"
  require (same_repository handle.provider handle.owner handle.repo identity)
      "repository hosting: pull request ref identity mismatch"
  require (is_safe_number handle.pull_request_number)
      "repository hosting: invalid pull request number"
  require
      (is_safe_github_pull_request_url handle.pull_request_url identity handle.pull_request_number)
      "repository hosting: invalid pull request URL"

unfoldable pub status_guards : String → PullRequestQuery → Guards
status_guards kind input = do
  require (kind == input.identity.provider) "repository hosting: provider kind mismatch"
  require (is_supported_hosting_provider input.identity.provider)
      "repository hosting: unsupported provider"
  ref_guards input.identity input.pull_request_ref
  require (is_safe_push_branch input.expected_head_branch) "repository hosting: unsafe head branch"
  require (is_safe_push_branch input.expected_base_branch) "repository hosting: unsafe base branch"
  require (is_sha_shaped input.expected_commit_hash)
      "repository hosting: invalid expectedCommitHash"

-- The first guards of an operation that changes a pull request or its branch.
unfoldable pub approved_guards :
    String → String → ApprovalStatus → RepositoryIdentity → PullRequestRef → Guards
unfolding unapproved
approved_guards what kind status identity handle = do
  require (status == ApprovalStatus.approved) (unapproved what status)
  require (kind == identity.provider)
      "repository hosting: provider kind does not match identity provider"
  require (is_supported_hosting_provider identity.provider)
      "repository hosting: unsupported hosting provider"
  ref_guards identity handle

unfoldable pub merge_guards : String → MergeInput → Guards
merge_guards kind input = do
  approved_guards "PR merge" kind input.approval_status input.identity input.pull_request_ref
  require (is_safe_push_branch input.expected_head_branch) "repository hosting: unsafe head branch"
  require (is_safe_push_branch input.expected_base_branch) "repository hosting: unsafe base branch"
  require (not (input.expected_head_branch == input.expected_base_branch))
      "repository hosting: head and base branch must differ"
  require (is_sha_shaped input.expected_head_sha) "repository hosting: invalid expectedHeadSha"

unfoldable pub cleanup_guards : String → RemoteCleanupInput → Guards
cleanup_guards kind input = do
  approved_guards "remote branch cleanup" kind input.approval_status input.identity
      input.pull_request_ref
  require (is_safe_push_branch input.expected_head_branch) "repository hosting: unsafe head branch"
  require (is_safe_push_branch input.expected_base_branch) "repository hosting: unsafe base branch"
  require (is_safe_push_branch input.branch) "repository hosting: unsafe target branch"
  require (input.branch == input.expected_head_branch)
      "repository hosting: target is not the PR head branch"
  require (not (input.branch == input.expected_base_branch || input.branch == "main"))
      "repository hosting: never deletes the base/default branch"
  require (is_sha_shaped input.expected_commit_hash)
      "repository hosting: invalid expectedCommitHash"

-- `assertResultIntegrity`
unfoldable pub assert_result_integrity :
    PullRequestResult → RepositoryIdentity → String → String → String → Guards
assert_result_integrity r identity head base expected = do
  require (same_repository r.provider r.owner r.repo identity)
      "repository hosting: result identity mismatch"
  require (r.pull_request_head_branch == head) "repository hosting: result head branch mismatch"
  require (r.pull_request_base_branch == base) "repository hosting: result base branch mismatch"
  require (ltb 0 r.pull_request_number) "repository hosting: result PR number invalid"
  require (is_sha_shaped r.pull_request_commit_hash)
      "repository hosting: result commit hash invalid"
  require (r.pull_request_commit_hash == expected)
      "repository hosting: result commit hash does not match expected"
  require (is_safe_github_pull_request_url r.pull_request_url identity r.pull_request_number)
      "repository hosting: result PR URL invalid"

-- An answer is about the pull request that was asked for.
unfoldable pub is_same_ref : PullRequestRef → RepositoryIdentity → PullRequestRef → Bool
is_same_ref answered identity asked =
    same_repository answered.provider answered.owner answered.repo identity
    && answered.pull_request_number == asked.pull_request_number
    && answered.pull_request_url == asked.pull_request_url

unfoldable pub merge_verified : PullRequestMergeResult → MergeInput → Bool
merge_verified result input =
    same_repository result.provider result.owner result.repo input.identity
    && result.pull_request_number == input.pull_request_ref.pull_request_number
    && result.pull_request_url == input.pull_request_ref.pull_request_url
    && result.merged
    && result.merged_head_sha == input.expected_head_sha

abbrev is_commit : Option String → String → Bool
is_commit none expected = false
is_commit (some commit) expected = commit == expected

unfoldable pub cleanup_verified : RemoteBranchCleanupResult → RemoteCleanupInput → Bool
cleanup_verified result input =
    same_repository result.provider result.owner result.repo input.identity
    && result.branch == input.branch
    && (result.deleted
          && not result.already_absent
          && is_commit result.deleted_commit_hash input.expected_commit_hash
        || not result.deleted && result.already_absent)
