-- ===== src/Delivery/Git/Manager.antt =====
-- git-manager.ts: the operations of `GitManager` that change a repository, with their guards in order. Of an
-- approval reference they read the status alone.
use chunsik_bot.Base.{
  String, Bool, true, false, not, ◌&&◌, ◌||◌, Option, none, some, List, map, any, distinct,
  is_empty, length, get_or, ◌==◌, string_eq,
}
use chunsik_bot.Base.Json.{◌⊕◌, decimal}
use chunsik_bot.Base.Unicode.{trim_text}
use chunsik_bot.Base.Effect.{◌>>=◌, ◌>>◌, return, present, check, call}
use chunsik_bot.Domain.{ApprovalStatus, approval_status_eq}
use chunsik_bot.Domain.Names.{approval_status_name}
use chunsik_bot.Delivery.Names.{
  is_safe_push_remote, is_safe_push_branch, is_sha_shaped, is_valid_commit_message,
  is_unsafe_commit_path,
}
use chunsik_bot.Delivery.Git.{
  GitStatus, RepositoryInfo, RefCommit, GitCommitResult, GitPushResult, GitMainSyncResult,
  GitBranchCleanupResult, GitFailure, main_sync_blocked, main_sync_unverified,
  branch_cleanup_blocked, branch_cleanup_unverified, workspace_not_safe, other_error,
  repository_asked, info_asked, status_asked, local_ref_asked, remote_ref_asked, ancestor_asked,
  files_committed, commit_pushed, main_forwarded, branch_deleted, GitProvider, Git,
}

pub record CommitInput : Type 0 where
  pub root_path : String
  pub files : List String
  pub message : String
  pub approval_status : ApprovalStatus

pub record PushInput : Type 0 where
  pub root_path : String
  pub remote : String
  pub branch : String
  pub commit_hash : String
  pub approval_status : ApprovalStatus

pub record SyncInput : Type 0 where
  pub root_path : String
  pub remote : String
  pub branch : String
  pub expected_remote_commit : String

pub record CleanupInput : Type 0 where
  pub root_path : String
  pub branch : String
  pub expected_main_commit : String

unfoldable pub has_text : String → Bool
has_text s = not (trim_text s == "")

-- The error of an operation without an approval.
abbrev pub refuse : String → ApprovalStatus → GitFailure
refuse operation status =
    other_error
      (operation ⊕ " requires an APPROVED approval (got " ⊕ approval_status_name status ⊕ ")")

-- The last `catch` of `syncMain`.
abbrev pub sync_error : GitFailure → GitFailure
sync_error (main_sync_blocked message) = main_sync_blocked message
sync_error (main_sync_unverified message) = main_sync_unverified message
sync_error _ = main_sync_unverified "git main sync: could not verify the local main synchronization"

-- The last `catch` of `deleteMergedLocalBranch`.
abbrev pub cleanup_error : GitFailure → GitFailure
cleanup_error (branch_cleanup_blocked message) = branch_cleanup_blocked message
cleanup_error (branch_cleanup_unverified message) = branch_cleanup_unverified message
cleanup_error _ =
    branch_cleanup_unverified "git branch cleanup: could not verify the branch deletion"

module _ (provider : GitProvider) where
  unfoldable pub commit_files : CommitInput → Git GitCommitResult
  commit_files input = do
    check (input.approval_status == ApprovalStatus.approved)
        (refuse "git commit" input.approval_status)
    check (has_text input.root_path) (other_error "git commit requires a rootPath")
    check (not (is_empty input.files)) (other_error "git commit requires at least one file")
    let cleaned = map trim_text input.files
    check (not (any is_unsafe_commit_path cleaned))
        (other_error "git commit rejects an unsafe file path")
    check (distinct cleaned) (other_error "git commit rejects duplicate files")
    check (is_valid_commit_message input.message)
        (other_error "git commit rejects an invalid message")
    call (provider.commit_files input.root_path cleaned input.message)
        (files_committed input.root_path cleaned input.message) (λ e. e)

  unfoldable pub push_approved_commit : PushInput → Git GitPushResult
  push_approved_commit input = do
    check (input.approval_status == ApprovalStatus.approved)
        (refuse "git push" input.approval_status)
    check (has_text input.root_path) (other_error "git push requires a rootPath")
    check (is_safe_push_remote input.remote) (other_error "git push rejects an unsafe remote")
    check (is_safe_push_branch input.branch) (other_error "git push rejects an unsafe branch")
    check (is_sha_shaped input.commit_hash) (other_error "git push rejects an invalid commitHash")
    call (provider.push_approved_commit input.root_path input.remote input.branch input.commit_hash)
        (commit_pushed input.root_path input.remote input.branch input.commit_hash) (λ e. e)

  -- The reads, whose errors are caught, but for that of the first.
  abbrev ask_repository : String → Git Bool
  ask_repository root = call (provider.is_repository root) (repository_asked root) (λ e. e)

  abbrev ask_status : String → GitFailure → Git GitStatus
  ask_status root failure = call (provider.status root) (status_asked root) (λ _. failure)

  abbrev ask_info : String → GitFailure → Git RepositoryInfo
  ask_info root failure = call (provider.info root) (info_asked root) (λ _. failure)

  abbrev ask_local_ref : String → String → GitFailure → Git (Option RefCommit)
  ask_local_ref root branch failure =
      call (provider.get_local_ref_commit root branch) (local_ref_asked root branch) (λ _. failure)

  -- The steps of `syncMain` before the change: what main was.
  unfoldable pub sync_preflight : SyncInput → Git RefCommit
  sync_preflight input = do
    check (has_text input.root_path) (main_sync_blocked "git main sync requires a rootPath")
    check (is_safe_push_remote input.remote)
        (main_sync_blocked "git main sync rejects an unsafe remote")
    check (is_safe_push_branch input.branch)
        (main_sync_blocked "git main sync rejects an unsafe branch")
    check (is_sha_shaped input.expected_remote_commit)
        (main_sync_blocked "git main sync rejects an invalid expected commit")
    inside ← ask_repository input.root_path
    check inside (main_sync_blocked "git main sync: not a git repository")
    let unread = main_sync_blocked "git main sync: could not read local repository state"
    status ← ask_status input.root_path unread
    info ← ask_info input.root_path unread
    check status.clean (main_sync_blocked "git main sync: working tree is not clean")
    check (is_empty status.untracked) (main_sync_blocked "git main sync: untracked files present")
    check (is_empty status.staged) (main_sync_blocked "git main sync: staged changes present")
    check (is_empty status.unstaged)
        (main_sync_blocked "git main sync: uncommitted changes present")
    check (not (get_or status.has_unmerged_paths false))
        (main_sync_blocked "git main sync: unmerged paths present")
    check (not (info.detached || get_or status.is_detached false))
        (main_sync_blocked "git main sync: HEAD is detached")
    local_ref ←
        ask_local_ref input.root_path input.branch
          (main_sync_blocked "git main sync: could not read local main")
    previous ← present local_ref (main_sync_blocked "git main sync: local main does not exist")
    tip ←
        call (provider.get_remote_ref_commit input.root_path input.remote input.branch)
          (remote_ref_asked input.root_path input.remote input.branch)
          (λ _. main_sync_blocked "git main sync: could not observe remote main; not synchronized")
    check (tip.commit_hash == input.expected_remote_commit) (
        main_sync_blocked
          "git main sync: remote main does not match the expected merge commit; not synchronized")
    return previous

  unfoldable pub fast_forward : SyncInput → RefCommit → Git GitMainSyncResult
  fast_forward input previous = do
    result ←
        call
          (provider.sync_main_fast_forward input.root_path input.remote input.branch
            input.expected_remote_commit previous.commit_hash)
          (main_forwarded input.root_path input.remote input.branch input.expected_remote_commit
            previous.commit_hash)
          sync_error
    check (result.synced_commit_hash == input.expected_remote_commit)
        (main_sync_unverified "git main sync: local main sync result could not be verified")
    return result

  unfoldable pub sync_main : SyncInput → Git GitMainSyncResult
  sync_main input = sync_preflight input >>= fast_forward input

  -- The steps of `deleteMergedLocalBranch` before the change: what the branch was, if it is there.
  unfoldable pub cleanup_preflight : CleanupInput → Git (Option RefCommit)
  cleanup_preflight input = do
    check (has_text input.root_path)
        (branch_cleanup_blocked "git branch cleanup requires a rootPath")
    check (is_safe_push_branch input.branch)
        (branch_cleanup_blocked "git branch cleanup rejects an unsafe branch")
    check (not (input.branch == "main"))
        (branch_cleanup_blocked "git branch cleanup never deletes main")
    check (is_sha_shaped input.expected_main_commit)
        (branch_cleanup_blocked "git branch cleanup rejects an invalid expected main commit")
    inside ← ask_repository input.root_path
    check inside (branch_cleanup_blocked "git branch cleanup: not a git repository")
    let unread = branch_cleanup_blocked "git branch cleanup: could not read local repository state"
    status ← ask_status input.root_path unread
    info ← ask_info input.root_path unread
    check (not (get_or status.has_unmerged_paths false))
        (branch_cleanup_blocked "git branch cleanup: unmerged paths present")
    check (not (info.branch == input.branch))
        (branch_cleanup_blocked "git branch cleanup: target branch is currently checked out")
    main_ref ←
        ask_local_ref input.root_path "main"
          (branch_cleanup_blocked "git branch cleanup: could not read local main")
    local_main ←
        present main_ref (branch_cleanup_blocked "git branch cleanup: local main does not exist")
    check (local_main.commit_hash == input.expected_main_commit)
        (branch_cleanup_blocked "git branch cleanup: local main moved since sync; not deleted")
    ask_local_ref input.root_path input.branch
        (branch_cleanup_blocked "git branch cleanup: could not read target branch")

  unfoldable pub delete_branch : CleanupInput → Option RefCommit → Git GitBranchCleanupResult
  delete_branch input none = return (record {
    branch = input.branch;
    deleted = false;
    already_absent = true;
    deleted_commit_hash = none;
  })
  delete_branch input (some target) = do
    merged ←
        call (provider.is_ancestor input.root_path target.commit_hash input.expected_main_commit)
          (ancestor_asked input.root_path target.commit_hash input.expected_main_commit)
          (λ _.
            branch_cleanup_blocked
              "git branch cleanup: could not determine merge status; not deleted")
    check merged (
        branch_cleanup_blocked
          "git branch cleanup: target branch is not merged into main; not deleted")
    result ←
        call (provider.delete_merged_local_branch input.root_path input.branch target.commit_hash)
          (branch_deleted input.root_path input.branch target.commit_hash) cleanup_error
    check (result.branch == input.branch && result.deleted) (
        branch_cleanup_unverified
          "git branch cleanup: branch deletion result could not be verified")
    return result

  unfoldable pub delete_merged_local_branch : CleanupInput → Git GitBranchCleanupResult
  delete_merged_local_branch input = cleanup_preflight input >>= delete_branch input

  -- Only reads: a tree with changes is an error.
  unfoldable pub require_clean : String → Git (Unit {0})
  require_clean root = do
    status ← call (provider.status root) (status_asked root) (λ e. e)
    check status.clean (
        workspace_not_safe (
          "branch "
          ⊕ status.branch
          ⊕ " has uncommitted changes ("
          ⊕ decimal (length status.unstaged)
          ⊕ " unstaged, "
          ⊕ decimal (length status.untracked)
          ⊕ " untracked)"))
