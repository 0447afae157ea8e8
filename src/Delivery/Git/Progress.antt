-- ===== src/Delivery/Git/Progress.antt =====
-- git-manager.ts: `syncMain` moves main where nothing stands against it.
use chunsik_bot.Base.{
  true, false, ◌≡◌, refl, ap, ◌∙◌, some, List, ◌∷◌, ◌||◌, is_empty, get_or, ◌==◌, string_eq, not,
}
use chunsik_bot.Base.Result.{ok}
use chunsik_bot.Base.Effect.{returned, resume, ◌>>=◌}
use chunsik_bot.Base.Effect.Steps.{check-passes, present-gives, call-answers}
use chunsik_bot.Delivery.Names.{is_safe_push_remote, is_safe_push_branch, is_sha_shaped}
use chunsik_bot.Delivery.Git.{
  GitStatus, RepositoryInfo, RefCommit, GitMainSyncResult, GitEvent, repository_asked, info_asked,
  status_asked, local_ref_asked, remote_ref_asked, main_forwarded, GitProvider,
}
use chunsik_bot.Delivery.Git.Manager.{SyncInput, has_text, sync_preflight, fast_forward, sync_main}

-- The input is well formed.
pub record IsWellFormed (input : SyncInput) : Type 0 where
  pub rooted : has_text input.root_path ≡ true
  pub safe_remote : is_safe_push_remote input.remote ≡ true
  pub safe_branch : is_safe_push_branch input.branch ≡ true
  pub sha_shaped : is_sha_shaped input.expected_remote_commit ≡ true

-- A provider that answers every call, whenever it is asked, of a tree without changes.
pub record IsReady (provider : GitProvider) (input : SyncInput) (status : GitStatus)
    (info : RepositoryInfo) (previous tip : RefCommit) (result : GitMainSyncResult) : Type 0 where
  pub inside : (history : List GitEvent) → provider.is_repository input.root_path history ≡ ok true
  pub has_status : (history : List GitEvent) → provider.status input.root_path history ≡ ok status
  pub has_info : (history : List GitEvent) → provider.info input.root_path history ≡ ok info
  pub has_main :
      (history : List GitEvent)
      → provider.get_local_ref_commit input.root_path input.branch history ≡ ok (some previous)
  pub has_tip :
      (history : List GitEvent)
      → provider.get_remote_ref_commit input.root_path input.remote input.branch history ≡ ok tip
  pub moves :
      (history : List GitEvent)
      → provider.sync_main_fast_forward input.root_path input.remote input.branch
          input.expected_remote_commit previous.commit_hash history
        ≡ ok result
  pub is_clean : status.clean ≡ true
  pub no_untracked : is_empty status.untracked ≡ true
  pub no_staged : is_empty status.staged ≡ true
  pub no_unstaged : is_empty status.unstaged ≡ true
  pub no_unmerged : get_or status.has_unmerged_paths false ≡ false
  pub on_branch : (info.detached || get_or status.is_detached false) ≡ false
  pub expected_tip : (tip.commit_hash == input.expected_remote_commit) ≡ true
  pub expected_result : (result.synced_commit_hash == input.expected_remote_commit) ≡ true

sync_preflight-returns :
    (provider : GitProvider) (input : SyncInput) (status : GitStatus) (info : RepositoryInfo)
    (previous tip : RefCommit) (result : GitMainSyncResult)
    → IsWellFormed input
    → IsReady provider input status info previous tip result
    → (history : List GitEvent)
    → sync_preflight provider input history
      ≡ returned previous (
          remote_ref_asked input.root_path input.remote input.branch (ok tip)
          ∷ local_ref_asked input.root_path input.branch (ok (some previous))
          ∷ info_asked input.root_path (ok info)
          ∷ status_asked input.root_path (ok status)
          ∷ repository_asked input.root_path (ok true)
          ∷ history)
unfolding sync_preflight
sync_preflight-returns provider input status info previous tip result formed ready history =
    check-passes _ _ _ formed.rooted
    ∙ check-passes _ _ _ formed.safe_remote
    ∙ check-passes _ _ _ formed.safe_branch
    ∙ check-passes _ _ _ formed.sha_shaped
    ∙ call-answers _ _ _ _ _ (ready.inside _)
    ∙ check-passes _ _ _ refl
    ∙ call-answers _ _ _ _ _ (ready.has_status _)
    ∙ call-answers _ _ _ _ _ (ready.has_info _)
    ∙ check-passes _ _ _ ready.is_clean
    ∙ check-passes _ _ _ ready.no_untracked
    ∙ check-passes _ _ _ ready.no_staged
    ∙ check-passes _ _ _ ready.no_unstaged
    ∙ check-passes _ _ _ (ap not ready.no_unmerged)
    ∙ check-passes _ _ _ (ap not ready.on_branch)
    ∙ call-answers _ _ _ _ _ (ready.has_main _)
    ∙ present-gives _ _ _ _
    ∙ call-answers _ _ _ _ _ (ready.has_tip _)
    ∙ check-passes _ _ _ ready.expected_tip

-- Where the input is well formed and the provider answers every call, of a clean tree on a branch, with
-- the remote branch at the expected commit, and reports that main was moved there, `syncMain` returns
-- this report after exactly six calls, the last of which moves main from where it was read.
pub sync_main-returns :
    (provider : GitProvider) (input : SyncInput) (status : GitStatus) (info : RepositoryInfo)
    (previous tip : RefCommit) (result : GitMainSyncResult)
    → IsWellFormed input
    → IsReady provider input status info previous tip result
    → (history : List GitEvent)
    → sync_main provider input history
      ≡ returned result (
          main_forwarded input.root_path input.remote input.branch input.expected_remote_commit
            previous.commit_hash
            (ok result)
          ∷ remote_ref_asked input.root_path input.remote input.branch (ok tip)
          ∷ local_ref_asked input.root_path input.branch (ok (some previous))
          ∷ info_asked input.root_path (ok info)
          ∷ status_asked input.root_path (ok status)
          ∷ repository_asked input.root_path (ok true)
          ∷ history)
unfolding sync_main fast_forward ◌>>=◌ resume
sync_main-returns provider input status info previous tip result formed ready history =
    ap (λ outcome. resume outcome (fast_forward provider input))
      (sync_preflight-returns provider input status info previous tip result formed ready history)
    ∙ call-answers _ _ _ _ _ (ready.moves _)
    ∙ check-passes _ _ _ ready.expected_result
