-- ===== src/Delivery/Hosting/Manager.antt =====
-- repository-hosting-manager.ts: the operations of `RepositoryHostingManager`.
use chunsik_bot.Base.{
  String, Bool, true, false, ◌&&◌, Option, none, some, ◌==◌, string_eq, if◌then◌else◌,
}
use chunsik_bot.Base.Json.{◌⊕◌}
use chunsik_bot.Base.Effect.{◌>>=◌, ◌>>◌, return, check, call, given}
use chunsik_bot.Delivery.Hosting.{
  RepositoryIdentity, PullRequestCreationInput, PullRequestResult, PullRequestState,
  PullRequestMergeability, PullRequestMergePreflight, PullRequestMergeResult, PullRequestQuery,
  PullRequestStatusPreview, RemoteCommit, RemoteBranchCleanupResult, HostingFailure,
  hosting_blocked, hosting_unverified, cleanup_blocked, cleanup_unverified, other_error,
  repository_asked, branch_asked, open_asked, status_asked, preflight_asked, remote_branch_asked,
  pull_request_created, pull_request_merged, remote_branch_deleted, RepositoryHostingProvider,
  Hosting,
}
use chunsik_bot.Delivery.Hosting.Identity.{normalize_pr_title}
use chunsik_bot.Delivery.Hosting.Guards.{
  CreateInput, MergeInput, RemoteCleanupInput, create_guards, status_guards, merge_guards,
  cleanup_guards, assert_result_integrity, is_same_ref, merge_verified, cleanup_verified,
}

unfoldable pub state_name : PullRequestState → String
state_name PullRequestState.opened = "open"
state_name PullRequestState.closed = "closed"
state_name PullRequestState.merged = "merged"
state_name PullRequestState.unknown = "unknown"

abbrev pub is_merged : PullRequestState → Bool
is_merged PullRequestState.merged = true
is_merged _ = false

abbrev pub is_open : PullRequestState → Bool
is_open PullRequestState.opened = true
is_open _ = false

unfoldable pub mergeability_name : PullRequestMergeability → String
mergeability_name PullRequestMergeability.mergeable = "MERGEABLE"
mergeability_name PullRequestMergeability.blocked = "BLOCKED"
mergeability_name PullRequestMergeability.conflicting = "CONFLICTING"
mergeability_name PullRequestMergeability.undetermined = "UNKNOWN"
mergeability_name PullRequestMergeability.stale_head = "STALE_HEAD"

abbrev pub is_mergeable : PullRequestMergeability → Bool
is_mergeable PullRequestMergeability.mergeable = true
is_mergeable _ = false

-- The input that the provider gets, with the title normalised.
abbrev pub creation_input : CreateInput → PullRequestCreationInput
creation_input input = record {
  identity = input.identity;
  head_branch = input.head_branch;
  base_branch = input.base_branch;
  title = normalize_pr_title input.title;
  body = input.body;
  expected_commit_hash = input.expected_commit_hash;
}

-- `{ ...result, reused }`
abbrev pub with_reused : Bool → PullRequestResult → PullRequestResult
with_reused reused result = record {
  provider = result.provider;
  owner = result.owner;
  repo = result.repo;
  pull_request_number = result.pull_request_number;
  pull_request_url = result.pull_request_url;
  pull_request_head_branch = result.pull_request_head_branch;
  pull_request_base_branch = result.pull_request_base_branch;
  pull_request_commit_hash = result.pull_request_commit_hash;
  reused = reused;
}

-- `{ ...result, alreadyMerged: false }`
abbrev pub merged_now : PullRequestMergeResult → PullRequestMergeResult
merged_now result = record {
  provider = result.provider;
  owner = result.owner;
  repo = result.repo;
  pull_request_number = result.pull_request_number;
  pull_request_url = result.pull_request_url;
  merged = result.merged;
  merged_head_sha = result.merged_head_sha;
  merge_commit_hash = result.merge_commit_hash;
  already_merged = false;
}

abbrev pub query_of_merge : MergeInput → PullRequestQuery
query_of_merge input = record {
  identity = input.identity;
  pull_request_ref = input.pull_request_ref;
  expected_head_branch = input.expected_head_branch;
  expected_base_branch = input.expected_base_branch;
  expected_commit_hash = input.expected_head_sha;
}

abbrev pub query_of_cleanup : RemoteCleanupInput → PullRequestQuery
query_of_cleanup input = record {
  identity = input.identity;
  pull_request_ref = input.pull_request_ref;
  expected_head_branch = input.expected_head_branch;
  expected_base_branch = input.expected_base_branch;
  expected_commit_hash = input.expected_commit_hash;
}

-- The last `catch` of `deleteRemoteBranch`.
abbrev pub removal_error : HostingFailure → HostingFailure
removal_error (cleanup_blocked message) = cleanup_blocked message
removal_error (cleanup_unverified message) = cleanup_unverified message
removal_error _ =
    cleanup_unverified "repository hosting: remote branch deletion could not be completed/verified"

module _ (provider : RepositoryHostingProvider) where
  abbrev branch_exists : RepositoryIdentity → String → Hosting Bool
  branch_exists identity branch =
      call (provider.branch_exists identity branch) (branch_asked identity branch)
        (λ _. hosting_blocked "repository hosting: could not verify branch existence")

  -- `assertResultIntegrity` of an answer to a creation, whose error is thrown in a class.
  abbrev integrity :
      CreateInput → (String → HostingFailure) → PullRequestResult → Hosting (Unit {0})
  integrity input failure result = given failure (
      assert_result_integrity result input.identity input.head_branch input.base_branch
        input.expected_commit_hash)

  unfoldable pub reuse_or_create :
      CreateInput → Option PullRequestResult → Hosting PullRequestResult
  reuse_or_create input (some existing) = do
    integrity input hosting_blocked existing
    return (with_reused true existing)
  reuse_or_create input none = do
    created ←
        call (provider.create_pull_request (creation_input input))
          (pull_request_created (creation_input input))
          (λ _.
            hosting_unverified "repository hosting: PR creation could not be completed/verified")
    integrity input hosting_unverified created
    return (with_reused false created)

  unfoldable pub create_pull_request : CreateInput → Hosting PullRequestResult
  create_pull_request input = do
    given hosting_blocked (create_guards provider.kind input)
    exists ←
        call (provider.repository_exists input.identity) (repository_asked input.identity)
          (λ _. hosting_blocked "repository hosting: could not verify repository existence")
    check exists (hosting_blocked "repository hosting: repository not found on hosting provider")
    has_head ← branch_exists input.identity input.head_branch
    check has_head (hosting_blocked "repository hosting: head branch not found on hosting provider")
    has_base ← branch_exists input.identity input.base_branch
    check has_base (hosting_blocked "repository hosting: base branch not found on hosting provider")
    existing ←
        call (provider.find_open_pull_request input.identity input.head_branch input.base_branch)
          (open_asked input.identity input.head_branch input.base_branch)
          (λ _.
            hosting_blocked
              "repository hosting: could not determine existing pull requests; creation blocked")
    reuse_or_create input existing

  unfoldable pub get_pull_request_status : PullRequestQuery → Hosting PullRequestStatusPreview
  get_pull_request_status input = do
    given other_error (status_guards provider.kind input)
    preview ←
        call (provider.get_pull_request_status input) (status_asked input)
          (λ _. other_error "repository hosting: could not read pull request status")
    check (is_same_ref preview.ref input.identity input.pull_request_ref)
        (other_error "repository hosting: status result ref mismatch (stale/unattributable)")
    check (preview.head_branch == input.expected_head_branch)
        (other_error "repository hosting: status head mismatch (stale)")
    check (preview.base_branch == input.expected_base_branch)
        (other_error "repository hosting: status base mismatch (stale)")
    check (preview.head_commit_hash == input.expected_commit_hash)
        (other_error "repository hosting: status commit mismatch (stale)")
    return preview

  -- `mergePullRequest` once the pull request is known to be as approved.
  unfoldable pub merge_checked :
      MergeInput → PullRequestMergePreflight → Hosting PullRequestMergeResult
  merge_checked input preflight =
      if is_merged preflight.state
      then return (record {
        provider = input.identity.provider;
        owner = input.identity.owner;
        repo = input.identity.repo;
        pull_request_number = input.pull_request_ref.pull_request_number;
        pull_request_url = input.pull_request_ref.pull_request_url;
        merged = true;
        merged_head_sha = preflight.head_commit_hash;
        merge_commit_hash = none;
        already_merged = true;
      })
      else (do
        check (is_open preflight.state) (
            hosting_blocked (
              "repository hosting: PR is not open (state "
              ⊕ state_name preflight.state
              ⊕ "); merge not performed"))
        check (is_mergeable preflight.mergeability) (
            hosting_blocked (
              "repository hosting: PR is not mergeable ("
              ⊕ mergeability_name preflight.mergeability
              ⊕ "); merge not performed"))
        result ←
            call
              (provider.merge_pull_request input.identity input.pull_request_ref
                input.expected_head_sha)
              (pull_request_merged input.identity input.pull_request_ref input.expected_head_sha)
              (λ _.
                hosting_unverified "repository hosting: PR merge could not be completed/verified")
        check (merge_verified result input)
            (hosting_unverified "repository hosting: PR merge result could not be verified")
        return (merged_now result))

  unfoldable pub merge_pull_request : MergeInput → Hosting PullRequestMergeResult
  merge_pull_request input = do
    given hosting_blocked (merge_guards provider.kind input)
    preflight ←
        call (provider.get_merge_preflight (query_of_merge input))
          (preflight_asked (query_of_merge input))
          (λ _.
            hosting_blocked
              "repository hosting: could not read live PR merge state; merge not performed")
    check (is_same_ref preflight.ref input.identity input.pull_request_ref) (
        hosting_blocked
          "repository hosting: merge preflight ref mismatch (stale/unattributable); merge not performed")
    check (preflight.head_branch == input.expected_head_branch) (
        hosting_blocked
          "repository hosting: merge preflight head branch mismatch (stale); merge not performed")
    check (preflight.base_branch == input.expected_base_branch) (
        hosting_blocked
          "repository hosting: merge preflight base branch mismatch (stale); merge not performed")
    check (preflight.head_commit_hash == input.expected_head_sha) (
        hosting_blocked
          "repository hosting: merge preflight head SHA differs from approved head (stale); merge not performed")
    merge_checked input preflight

  unfoldable pub remove_checked :
      RemoteCleanupInput → Option RemoteCommit → Hosting RemoteBranchCleanupResult
  remove_checked input none = return (record {
    provider = input.identity.provider;
    owner = input.identity.owner;
    repo = input.identity.repo;
    branch = input.branch;
    deleted = false;
    already_absent = true;
    deleted_commit_hash = none;
  })
  remove_checked input (some remote) = do
    check (remote.commit_hash == input.expected_commit_hash) (
        cleanup_blocked
          "repository hosting: remote branch moved off the expected commit; remote branch not deleted")
    result ←
        call (provider.delete_remote_branch input.identity input.branch input.expected_commit_hash)
          (remote_branch_deleted input.identity input.branch input.expected_commit_hash)
          removal_error
    check (cleanup_verified result input) (
        cleanup_unverified
          "repository hosting: remote branch deletion result could not be verified")
    return result

  unfoldable pub delete_remote_branch : RemoteCleanupInput → Hosting RemoteBranchCleanupResult
  delete_remote_branch input = do
    given cleanup_blocked (cleanup_guards provider.kind input)
    preflight ←
        call (provider.get_merge_preflight (query_of_cleanup input))
          (preflight_asked (query_of_cleanup input))
          (λ _.
            cleanup_blocked
              "repository hosting: could not read live PR state; remote branch not deleted")
    check
        (is_same_ref preflight.ref input.identity input.pull_request_ref
          && preflight.head_branch == input.expected_head_branch
          && preflight.head_commit_hash == input.expected_commit_hash)
        (cleanup_blocked
          "repository hosting: PR state not attributable to the approved context; remote branch not deleted")
    check (is_merged preflight.state) (
        cleanup_blocked (
          "repository hosting: PR is not merged (state "
          ⊕ state_name preflight.state
          ⊕ "); remote branch not deleted"))
    remote ←
        call (provider.get_remote_branch_commit input.identity input.branch)
          (remote_branch_asked input.identity input.branch)
          (λ _.
            cleanup_blocked
              "repository hosting: could not read remote branch; remote branch not deleted")
    remove_checked input remote
