-- ===== src/Delivery/Git.antt =====
-- domain/git.ts, ports/git-provider.port.ts and the errors of git-manager.ts. The provider is the
-- environment: its answer to a call, a value or an error, is a function of the calls and answers before.
use chunsik_bot.Base.{ℕ, String, Bool, true, false, Option, List}
use chunsik_bot.Base.Result.{Result}
use chunsik_bot.Base.Effect.{Effect}
pub mod Manager
pub mod Discipline
pub mod Approved
pub mod Sync
pub mod Cleanup
pub mod Progress
mod Tests

pub record GitStatus : Type 0 where
  pub clean : Bool
  pub branch : String
  pub staged : List String
  pub unstaged : List String
  pub untracked : List String
  pub ahead : Option ℕ
  pub behind : Option ℕ
  pub upstream : Option String
  pub is_detached : Option Bool
  pub has_unmerged_paths : Option Bool

pub record GitCommitResult : Type 0 where
  pub commit_hash : String
  pub committed_files : List String
  pub message : String

pub record GitPushResult : Type 0 where
  pub remote : String
  pub branch : String
  pub upstream_ref : String
  pub commit_hash : String

pub data GitSyncMode : Type 0 where
  checked_out_main ref_only : GitSyncMode

pub record GitMainSyncResult : Type 0 where
  pub branch : String
  pub sync_mode : GitSyncMode
  pub working_tree_updated : Bool
  pub synced_commit_hash : String
  pub previous_main_commit : String
  pub already_up_to_date : Bool

pub record GitBranchCleanupResult : Type 0 where
  pub branch : String
  pub deleted : Bool
  pub already_absent : Bool
  pub deleted_commit_hash : Option String

pub record RepositoryInfo : Type 0 where
  pub is_repository : Bool
  pub root_path : String
  pub branch : String
  pub head_sha : Option String
  pub detached : Bool

-- `{ commitHash }`
pub record RefCommit : Type 0 where
  pub commit_hash : String

-- What is thrown, by its class.
pub data GitFailure : Type 0 where
  main_sync_blocked main_sync_unverified branch_cleanup_blocked branch_cleanup_unverified
        push_blocked workspace_not_safe other_error :
      String → GitFailure

abbrev pub Reply : Type 0 → Type 0
Reply = Result GitFailure

-- One call of the provider with its arguments and the answer.
pub data GitEvent : Type 0 where
  repository_asked : String → Reply Bool → GitEvent
  info_asked : String → Reply RepositoryInfo → GitEvent
  status_asked : String → Reply GitStatus → GitEvent
  local_ref_asked : String → String → Reply (Option RefCommit) → GitEvent
  remote_ref_asked : String → String → String → Reply RefCommit → GitEvent
  ancestor_asked : String → String → String → Reply Bool → GitEvent
  files_committed : String → List String → String → Reply GitCommitResult → GitEvent
  commit_pushed : String → String → String → String → Reply GitPushResult → GitEvent
  main_forwarded : String → String → String → String → String → Reply GitMainSyncResult → GitEvent
  branch_deleted : String → String → String → Reply GitBranchCleanupResult → GitEvent

abbrev pub Answering : Type 0 → Type 0
Answering A = List GitEvent → Reply A

pub record GitProvider : Type 0 where
  pub is_repository : String → Answering Bool
  pub info : String → Answering RepositoryInfo
  pub status : String → Answering GitStatus
  pub commit_files : String → List String → String → Answering GitCommitResult
  pub push_approved_commit : String → String → String → String → Answering GitPushResult
  pub get_remote_ref_commit : String → String → String → Answering RefCommit
  pub get_local_ref_commit : String → String → Answering (Option RefCommit)
  pub sync_main_fast_forward :
      String → String → String → String → String → Answering GitMainSyncResult
  pub is_ancestor : String → String → String → Answering Bool
  pub delete_merged_local_branch : String → String → String → Answering GitBranchCleanupResult

abbrev pub Git : Type 0 → Type 0
Git = Effect GitEvent GitFailure
