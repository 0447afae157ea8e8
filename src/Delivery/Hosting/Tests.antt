-- ===== src/Delivery/Hosting/Tests.antt =====
-- Runs of `RepositoryHostingManager` on a sample provider, and the instances of its laws.
use chunsik_bot.Base.{String, true, false, ◌≡◌, refl, Option, none, some, []}
use chunsik_bot.Base.Result.{ok}
use chunsik_bot.Base.Unicode.{trim_text, utf16_length, ends_with, includes}
use chunsik_bot.Base.Json.{decimal}
use chunsik_bot.Base.Effect.{Outcome, returned, threw, resume, ◌>>=◌, ◌>>◌, check, call, given}
use chunsik_bot.Domain.{ApprovalStatus, ApprovalStatus-discrete}
use chunsik_bot.Delivery.Names.{is_safe_push_branch, is_sha_shaped, has_control_char}
use chunsik_bot.Delivery.Hosting.{
  RepositoryIdentity, PullRequestResult, PullRequestRef, PullRequestState, PullRequestChecksState,
  PullRequestMergeability, PullRequestMergePreflight, PullRequestMergeResult, PullRequestQuery,
  PullRequestStatusPreview, RemoteBranchCleanupResult, HostingFailure, HostingEvent,
  RepositoryHostingProvider,
}
use chunsik_bot.Delivery.Hosting.Identity.{
  is_supported_hosting_provider, is_safe_repo_owner, is_safe_repo_name, looks_like_secret,
  is_safe_github_pull_request_url, pull_request_url_of, normalize_pr_title,
}
use chunsik_bot.Delivery.Hosting.Guards.{
  CreateInput, MergeInput, RemoteCleanupInput, create_guards, status_guards, merge_guards,
  cleanup_guards, approved_guards, ref_guards, is_safe_number, is_same_ref, merge_verified,
  cleanup_verified, assert_result_integrity,
}
use chunsik_bot.Delivery.Hosting.Manager.{
  create_pull_request, get_pull_request_status, merge_pull_request, delete_remote_branch,
  reuse_or_create, merge_checked, remove_checked,
}
use chunsik_bot.Delivery.Hosting.Created.{CreateOutcome, create_pull_request_lem}
use chunsik_bot.Delivery.Hosting.Status.{StatusOutcome, get_pull_request_status_lem}
use chunsik_bot.Delivery.Hosting.Merged.{MergeOutcome, merge_pull_request_lem}
use chunsik_bot.Delivery.Hosting.Removed.{RemovalOutcome, delete_remote_branch_lem}

abbrev identity : RepositoryIdentity
identity = record { provider = "github"; owner = "octo-cat"; repo = "bot.js" }

abbrev url : String
url = "https://github.com/octo-cat/bot.js/pull/12"

abbrev handle : PullRequestRef
handle = record {
  provider = "github";
  owner = "octo-cat";
  repo = "bot.js";
  pull_request_number = 12;
  pull_request_url = url;
}

abbrev pull_request : PullRequestResult
pull_request = record {
  provider = "github";
  owner = "octo-cat";
  repo = "bot.js";
  pull_request_number = 12;
  pull_request_url = url;
  pull_request_head_branch = "feature/x";
  pull_request_base_branch = "main";
  pull_request_commit_hash = "abcdef1";
  reused = true;
}

abbrev seen : PullRequestState → PullRequestMergePreflight
seen state = record {
  ref = handle;
  state = state;
  head_branch = "feature/x";
  base_branch = "main";
  head_commit_hash = "abcdef1";
  mergeability = PullRequestMergeability.mergeable;
  observed_at = "2026-01-01T00:00:00Z";
}

abbrev preview : PullRequestStatusPreview
preview = record {
  ref = handle;
  state = PullRequestState.opened;
  head_branch = "feature/x";
  base_branch = "main";
  head_commit_hash = "abcdef1";
  is_draft = none;
  checks = record {
    state = PullRequestChecksState.success;
    total_count = 1;
    success_count = 1;
    failure_count = 0;
    pending_count = 0;
  };
  reviews = none;
  observed_at = "2026-01-01T00:00:00Z";
}

abbrev merge_result : PullRequestMergeResult
merge_result = record {
  provider = "github";
  owner = "octo-cat";
  repo = "bot.js";
  pull_request_number = 12;
  pull_request_url = url;
  merged = true;
  merged_head_sha = "abcdef1";
  merge_commit_hash = none;
  already_merged = true;
}

abbrev removal : RemoteBranchCleanupResult
removal = record {
  provider = "github";
  owner = "octo-cat";
  repo = "bot.js";
  branch = "feature/x";
  deleted = true;
  already_absent = false;
  deleted_commit_hash = some "abcdef1";
}

-- A hosting service at which the pull request is in a state.
abbrev hosting : PullRequestState → RepositoryHostingProvider
hosting state = record {
  kind = "github";
  repository_exists = λ id history. ok true;
  branch_exists = λ id branch history. ok true;
  find_open_pull_request = λ id head base history. ok none;
  create_pull_request = λ input history. ok pull_request;
  get_pull_request_status = λ query history. ok preview;
  get_merge_preflight = λ query history. ok (seen state);
  merge_pull_request = λ id asked sha history. ok merge_result;
  get_remote_branch_commit = λ id branch history. ok (some (record { commit_hash = "abcdef1" }));
  delete_remote_branch = λ id branch commit history. ok removal;
}

abbrev create_input : CreateInput
create_input = record {
  identity = identity;
  head_branch = "feature/x";
  base_branch = "main";
  title = " Fix  it ";
  body = "";
  expected_commit_hash = "abcdef1";
  approval_status = ApprovalStatus.approved;
}

abbrev query : PullRequestQuery
query = record {
  identity = identity;
  pull_request_ref = handle;
  expected_head_branch = "feature/x";
  expected_base_branch = "main";
  expected_commit_hash = "abcdef1";
}

abbrev merge_input : MergeInput
merge_input = record {
  identity = identity;
  pull_request_ref = handle;
  expected_head_branch = "feature/x";
  expected_base_branch = "main";
  expected_head_sha = "abcdef1";
  approval_status = ApprovalStatus.approved;
}

abbrev removal_input : RemoteCleanupInput
removal_input = record {
  identity = identity;
  pull_request_ref = handle;
  expected_head_branch = "feature/x";
  expected_base_branch = "main";
  branch = "feature/x";
  expected_commit_hash = "abcdef1";
  approval_status = ApprovalStatus.approved;
}

-- The error of a run that throws one.
abbrev error_of : {A : Type 0} → Outcome HostingEvent HostingFailure A → Option HostingFailure
error_of (returned a later) = none
error_of (threw e later) = some e

opens : error_of (create_pull_request (hosting PullRequestState.opened) create_input []) ≡ none
unfolding create_pull_request reuse_or_create ◌>>=◌ ◌>>◌ resume call check given create_guards
    assert_result_integrity ApprovalStatus-discrete normalize_pr_title trim_text
    is_supported_hosting_provider is_safe_repo_owner is_safe_repo_name looks_like_secret
    utf16_length ends_with includes is_safe_push_branch has_control_char is_sha_shaped
    is_safe_github_pull_request_url pull_request_url_of decimal
opens = refl

reads : error_of (get_pull_request_status (hosting PullRequestState.opened) query []) ≡ none
unfolding get_pull_request_status ◌>>=◌ ◌>>◌ resume call check given status_guards ref_guards
    is_safe_number is_same_ref is_supported_hosting_provider is_safe_repo_owner is_safe_repo_name
    looks_like_secret utf16_length ends_with includes is_safe_push_branch has_control_char
    is_sha_shaped is_safe_github_pull_request_url pull_request_url_of decimal
reads = refl

merges : error_of (merge_pull_request (hosting PullRequestState.opened) merge_input []) ≡ none
unfolding merge_pull_request merge_checked ◌>>=◌ ◌>>◌ resume call check given merge_guards
    approved_guards ref_guards is_safe_number is_same_ref merge_verified ApprovalStatus-discrete
    is_supported_hosting_provider is_safe_repo_owner is_safe_repo_name looks_like_secret
    utf16_length ends_with includes is_safe_push_branch has_control_char is_sha_shaped
    is_safe_github_pull_request_url pull_request_url_of decimal
merges = refl

removes : error_of (delete_remote_branch (hosting PullRequestState.merged) removal_input []) ≡ none
unfolding delete_remote_branch remove_checked ◌>>=◌ ◌>>◌ resume call check given cleanup_guards
    approved_guards ref_guards is_safe_number is_same_ref cleanup_verified ApprovalStatus-discrete
    is_supported_hosting_provider is_safe_repo_owner is_safe_repo_name looks_like_secret
    utf16_length ends_with includes is_safe_push_branch has_control_char is_sha_shaped
    is_safe_github_pull_request_url pull_request_url_of decimal
removes = refl

create_pull_request_lem_example :
    CreateOutcome create_input []
      (create_pull_request (hosting PullRequestState.opened) create_input [])
create_pull_request_lem_example =
    create_pull_request_lem (hosting PullRequestState.opened) create_input []

get_pull_request_status_lem_example :
    StatusOutcome "github" query []
      (get_pull_request_status (hosting PullRequestState.opened) query [])
get_pull_request_status_lem_example =
    get_pull_request_status_lem (hosting PullRequestState.opened) query []

merge_pull_request_lem_example :
    MergeOutcome merge_input []
      (merge_pull_request (hosting PullRequestState.opened) merge_input [])
merge_pull_request_lem_example =
    merge_pull_request_lem (hosting PullRequestState.opened) merge_input []

delete_remote_branch_lem_example :
    RemovalOutcome removal_input []
      (delete_remote_branch (hosting PullRequestState.merged) removal_input [])
delete_remote_branch_lem_example =
    delete_remote_branch_lem (hosting PullRequestState.merged) removal_input []
