-- ===== src/Delivery/Git/Tests.antt =====
-- Runs of `GitManager` on a sample provider, and the instances of its laws.
use chunsik_bot.Base.{String, true, false, ◌≡◌, refl, Option, none, some, [], ◌∷◌}
use chunsik_bot.Base.Unicode.{trim_text, utf16_length, ends_with, includes}
use chunsik_bot.Base.Result.{ok, err}
use chunsik_bot.Base.Effect.{Outcome, returned, threw, resume, ◌>>=◌, ◌>>◌, check, present, call}
use chunsik_bot.Domain.{ApprovalStatus, ApprovalStatus-discrete}
use chunsik_bot.Delivery.Names.{
  is_safe_push_branch, is_safe_push_remote, is_sha_shaped, is_unsafe_commit_path,
  is_valid_commit_message, has_control_char,
}
use chunsik_bot.Delivery.Git.{
  repository_asked, info_asked, status_asked, local_ref_asked, remote_ref_asked, main_forwarded,
  GitStatus, RepositoryInfo, RefCommit, GitMainSyncResult, GitSyncMode, GitBranchCleanupResult,
  GitProvider, GitFailure, GitEvent, other_error,
}
use chunsik_bot.Delivery.Git.Manager.{
  CommitInput, PushInput, SyncInput, CleanupInput, commit_files, push_approved_commit, sync_main,
  sync_preflight, fast_forward, delete_merged_local_branch, cleanup_preflight, delete_branch,
  has_text,
}
use chunsik_bot.Delivery.Git.Approved.{
  Gated, commit_called, push_called, CommitAllowed, PushAllowed, commit_files_lem,
  push_approved_commit_lem,
}
use chunsik_bot.Delivery.Git.Progress.{IsWellFormed, IsReady, sync_main-returns}
use chunsik_bot.Delivery.Git.Sync.{SyncOutcome, sync_main_lem}
use chunsik_bot.Delivery.Git.Cleanup.{CleanupOutcome, delete_merged_local_branch_lem}

abbrev tidy : GitStatus
tidy = record {
  clean = true;
  branch = "feature/x";
  staged = [];
  unstaged = [];
  untracked = [];
  ahead = none;
  behind = none;
  upstream = none;
  is_detached = none;
  has_unmerged_paths = none;
}

abbrev tree : RepositoryInfo
tree = record {
  is_repository = true;
  root_path = "/repo";
  branch = "feature/x";
  head_sha = some "abcdef1";
  detached = false;
}

abbrev at : String → RefCommit
at commit = record { commit_hash = commit }

abbrev synced : GitMainSyncResult
synced = record {
  branch = "main";
  sync_mode = GitSyncMode.ref_only;
  working_tree_updated = false;
  synced_commit_hash = "abcdef1";
  previous_main_commit = "0000000";
  already_up_to_date = false;
}

abbrev removed : GitBranchCleanupResult
removed = record {
  branch = "feature/y";
  deleted = true;
  already_absent = false;
  deleted_commit_hash = some "0000000";
}

-- A provider at which every local branch is at the first commit, and main of the remote at the second.
abbrev sample_git : GitProvider
sample_git = record {
  is_repository = λ root history. ok true;
  info = λ root history. ok tree;
  status = λ root history. ok tidy;
  commit_files = λ root files message history.
      ok (record { commit_hash = "abcdef1"; committed_files = files; message = message });
  push_approved_commit = λ root remote branch commit history. err (other_error "no network");
  get_remote_ref_commit = λ root remote branch history. ok (at "abcdef1");
  get_local_ref_commit = λ root branch history. ok (some (at "0000000"));
  sync_main_fast_forward = λ root remote branch expected previous history. ok synced;
  is_ancestor = λ root ancestor descendant history. ok true;
  delete_merged_local_branch = λ root branch commit history. ok removed;
}

abbrev commit_input : CommitInput
commit_input = record {
  root_path = "/repo";
  files = " a.ts" ∷ "src/b.ts" ∷ [];
  message = "fix";
  approval_status = ApprovalStatus.approved;
}

abbrev push_input : PushInput
push_input = record {
  root_path = "/repo";
  remote = "origin";
  branch = "feature/x";
  commit_hash = "abcdef1";
  approval_status = ApprovalStatus.approved;
}

abbrev sync_input : SyncInput
sync_input = record {
  root_path = "/repo";
  remote = "origin";
  branch = "main";
  expected_remote_commit = "abcdef1";
}

abbrev cleanup_input : CleanupInput
cleanup_input = record {
  root_path = "/repo";
  branch = "feature/y";
  expected_main_commit = "0000000";
}

-- How a run ends, without its history.
abbrev ends_with_error : {A : Type 0} → Outcome GitEvent GitFailure A → Option GitFailure
ends_with_error (returned a later) = none
ends_with_error (threw e later) = some e

safe_branch : is_safe_push_branch "feature/x" ≡ true
unfolding is_safe_push_branch utf16_length ends_with includes has_control_char
safe_branch = refl

unsafe_branch : is_safe_push_branch "feature/x.lock" ≡ false
unfolding is_safe_push_branch utf16_length ends_with includes has_control_char
unsafe_branch = refl

traversal : is_unsafe_commit_path "a/../b" ≡ true
unfolding is_unsafe_commit_path trim_text
traversal = refl

committed : ends_with_error (commit_files sample_git commit_input []) ≡ none
unfolding commit_files ◌>>=◌ ◌>>◌ resume call check has_text trim_text is_unsafe_commit_path
    is_valid_commit_message utf16_length has_control_char ApprovalStatus-discrete
committed = refl

main_moved : ends_with_error (sync_main sample_git sync_input []) ≡ none
unfolding sync_main sync_preflight fast_forward ◌>>=◌ ◌>>◌ resume call check present has_text
    trim_text is_safe_push_remote is_safe_push_branch utf16_length ends_with includes
    has_control_char is_sha_shaped
main_moved = refl

branch_removed : ends_with_error (delete_merged_local_branch sample_git cleanup_input []) ≡ none
unfolding delete_merged_local_branch cleanup_preflight delete_branch ◌>>=◌ ◌>>◌ resume call check
    present has_text trim_text is_safe_push_branch utf16_length ends_with includes has_control_char
    is_sha_shaped
branch_removed = refl

commit_files_lem_example :
    Gated
      (CommitAllowed commit_input)
      (commit_called commit_input [])
      []
      (commit_files sample_git commit_input [])
commit_files_lem_example = commit_files_lem sample_git commit_input []

push_approved_commit_lem_example :
    Gated
      (PushAllowed push_input)
      (push_called push_input [])
      []
      (push_approved_commit sample_git push_input [])
push_approved_commit_lem_example = push_approved_commit_lem sample_git push_input []

sync_main_lem_example : SyncOutcome sync_input [] (sync_main sample_git sync_input [])
sync_main_lem_example = sync_main_lem sample_git sync_input []

delete_merged_local_branch_lem_example :
    CleanupOutcome cleanup_input [] (delete_merged_local_branch sample_git cleanup_input [])
delete_merged_local_branch_lem_example = delete_merged_local_branch_lem sample_git cleanup_input []

formed : IsWellFormed sync_input
unfolding has_text trim_text is_safe_push_remote is_safe_push_branch utf16_length ends_with includes
    has_control_char is_sha_shaped
formed = record { rooted = refl; safe_remote = refl; safe_branch = refl; sha_shaped = refl }

ready : IsReady sample_git sync_input tidy tree (at "0000000") (at "abcdef1") synced
ready = record {
  inside = λ history. refl;
  has_status = λ history. refl;
  has_info = λ history. refl;
  has_main = λ history. refl;
  has_tip = λ history. refl;
  moves = λ history. refl;
  is_clean = refl;
  no_untracked = refl;
  no_staged = refl;
  no_unstaged = refl;
  no_unmerged = refl;
  on_branch = refl;
  expected_tip = refl;
  expected_result = refl;
}

sync_main-returns_example :
    sync_main sample_git sync_input []
    ≡ returned synced (
        main_forwarded "/repo" "origin" "main" "abcdef1" "0000000" (ok synced)
        ∷ remote_ref_asked "/repo" "origin" "main" (ok (at "abcdef1"))
        ∷ local_ref_asked "/repo" "main" (ok (some (at "0000000")))
        ∷ info_asked "/repo" (ok tree)
        ∷ status_asked "/repo" (ok tidy)
        ∷ repository_asked "/repo" (ok true)
        ∷ [])
sync_main-returns_example =
    sync_main-returns sample_git sync_input tidy tree (at "0000000") (at "abcdef1") synced formed
      ready []
