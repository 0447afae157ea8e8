-- ===== src/Delivery/Hosting.antt =====
-- domain/repository-hosting.ts and ports/repository-hosting-provider.port.ts. The provider is the
-- environment: its answer to a call is a function of the calls and answers before. The numbers of pull
-- requests and the counts of checks are natural, so the tests that they are integers and not negative
-- fall away; a provider's name is a text, so the tests of it stay.
use chunsik_bot.Base.{ℕ, suc, String, Bool, true, false, Option, List, [], ◌∷◌, if◌then◌else◌}
use chunsik_bot.Base.Result.{Result}
use chunsik_bot.Base.Effect.{Effect}
pub mod Identity
pub mod Guards
pub mod Manager
pub mod Created
pub mod Status
pub mod Merged
pub mod Removed
mod Tests

pub record RepositoryIdentity : Type 0 where
  pub provider : String
  pub owner : String
  pub repo : String

pub record PullRequestCreationInput : Type 0 where
  pub identity : RepositoryIdentity
  pub head_branch : String
  pub base_branch : String
  pub title : String
  pub body : String
  pub expected_commit_hash : String

pub record PullRequestResult : Type 0 where
  pub provider : String
  pub owner : String
  pub repo : String
  pub pull_request_number : ℕ
  pub pull_request_url : String
  pub pull_request_head_branch : String
  pub pull_request_base_branch : String
  pub pull_request_commit_hash : String
  pub reused : Bool

pub record PullRequestRef : Type 0 where
  pub provider : String
  pub owner : String
  pub repo : String
  pub pull_request_number : ℕ
  pub pull_request_url : String

pub data PullRequestState : Type 0 where
  opened closed merged unknown : PullRequestState

pub data PullRequestChecksState : Type 0 where
  success failure pending neutral skipped unknown : PullRequestChecksState

pub data PullRequestReviewState : Type 0 where
  approved changes_requested commented no_review unknown : PullRequestReviewState

pub data PullRequestMergeability : Type 0 where
  mergeable blocked conflicting undetermined stale_head : PullRequestMergeability

pub record PullRequestMergePreflight : Type 0 where
  pub ref : PullRequestRef
  pub state : PullRequestState
  pub head_branch : String
  pub base_branch : String
  pub head_commit_hash : String
  pub mergeability : PullRequestMergeability
  pub observed_at : String

-- `merged` is always true by its type, and is tested all the same.
pub record PullRequestMergeResult : Type 0 where
  pub provider : String
  pub owner : String
  pub repo : String
  pub pull_request_number : ℕ
  pub pull_request_url : String
  pub merged : Bool
  pub merged_head_sha : String
  pub merge_commit_hash : Option String
  pub already_merged : Bool

pub record RemoteBranchCleanupResult : Type 0 where
  pub provider : String
  pub owner : String
  pub repo : String
  pub branch : String
  pub deleted : Bool
  pub already_absent : Bool
  pub deleted_commit_hash : Option String

pub record CheckSummary : Type 0 where
  pub state : PullRequestChecksState
  pub total_count : ℕ
  pub success_count : ℕ
  pub failure_count : ℕ
  pub pending_count : ℕ

pub record ReviewSummary : Type 0 where
  pub state : PullRequestReviewState
  pub approved_count : Option ℕ
  pub changes_requested_count : Option ℕ

pub record PullRequestStatusPreview : Type 0 where
  pub ref : PullRequestRef
  pub state : PullRequestState
  pub head_branch : String
  pub base_branch : String
  pub head_commit_hash : String
  pub is_draft : Option Bool
  pub checks : CheckSummary
  pub reviews : Option ReviewSummary
  pub observed_at : String

-- `{ commitHash }`
pub record RemoteCommit : Type 0 where
  pub commit_hash : String

-- What is thrown, by its class.
pub data HostingFailure : Type 0 where
  hosting_blocked hosting_unverified cleanup_blocked cleanup_unverified other_error :
      String → HostingFailure

abbrev pub Reply : Type 0 → Type 0
Reply = Result HostingFailure

-- The pull request that a read is about, and what it is expected to be.
pub record PullRequestQuery : Type 0 where
  pub identity : RepositoryIdentity
  pub pull_request_ref : PullRequestRef
  pub expected_head_branch : String
  pub expected_base_branch : String
  pub expected_commit_hash : String

-- One call of the provider with its arguments and the answer.
pub data HostingEvent : Type 0 where
  repository_asked : RepositoryIdentity → Reply Bool → HostingEvent
  branch_asked : RepositoryIdentity → String → Reply Bool → HostingEvent
  open_asked :
      RepositoryIdentity → String → String → Reply (Option PullRequestResult) → HostingEvent
  status_asked : PullRequestQuery → Reply PullRequestStatusPreview → HostingEvent
  preflight_asked : PullRequestQuery → Reply PullRequestMergePreflight → HostingEvent
  remote_branch_asked : RepositoryIdentity → String → Reply (Option RemoteCommit) → HostingEvent
  pull_request_created : PullRequestCreationInput → Reply PullRequestResult → HostingEvent
  pull_request_merged :
      RepositoryIdentity → PullRequestRef → String → Reply PullRequestMergeResult → HostingEvent
  remote_branch_deleted :
      RepositoryIdentity → String → String → Reply RemoteBranchCleanupResult → HostingEvent

abbrev pub is_mutation : HostingEvent → Bool
is_mutation (pull_request_created input reply) = true
is_mutation (pull_request_merged identity handle sha reply) = true
is_mutation (remote_branch_deleted identity branch commit reply) = true
is_mutation _ = false

-- How many calls of a history change something at the hosting service.
abbrev pub mutations : List HostingEvent → ℕ
mutations [] = 0
mutations (event ∷ history) =
    let rest = mutations history in if is_mutation event then suc rest else rest

abbrev pub Answering : Type 0 → Type 0
Answering A = List HostingEvent → Reply A

pub record RepositoryHostingProvider : Type 0 where
  pub kind : String
  pub repository_exists : RepositoryIdentity → Answering Bool
  pub branch_exists : RepositoryIdentity → String → Answering Bool
  pub find_open_pull_request :
      RepositoryIdentity → String → String → Answering (Option PullRequestResult)
  pub create_pull_request : PullRequestCreationInput → Answering PullRequestResult
  pub get_pull_request_status : PullRequestQuery → Answering PullRequestStatusPreview
  pub get_merge_preflight : PullRequestQuery → Answering PullRequestMergePreflight
  pub merge_pull_request :
      RepositoryIdentity → PullRequestRef → String → Answering PullRequestMergeResult
  pub get_remote_branch_commit : RepositoryIdentity → String → Answering (Option RemoteCommit)
  pub delete_remote_branch :
      RepositoryIdentity → String → String → Answering RemoteBranchCleanupResult

abbrev pub Hosting : Type 0 → Type 0
Hosting = Effect HostingEvent HostingFailure
