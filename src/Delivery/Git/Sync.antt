-- ===== src/Delivery/Git/Sync.antt =====
-- git-manager.ts: what a run of `syncMain` has done when it ends, in each way it can end.
use chunsik_bot.Base.{
  String, true, false, ◌≡◌, refl, ◌⊎◌, inl, inr, some, List, ◌∷◌, ◌||◌, is_empty, get_or, string_eq,
  arith,
}
use chunsik_bot.Base.Result.{ok, err}
use chunsik_bot.Base.Effect.{Outcome, returned, threw, resume}
use chunsik_bot.Base.Effect.Steps.{check-then, present-then, call-then, bind-then}
use chunsik_bot.Delivery.Git.{
  GitStatus, RepositoryInfo, RefCommit, GitMainSyncResult, GitFailure, main_sync_blocked,
  main_sync_unverified, branch_cleanup_blocked, branch_cleanup_unverified, push_blocked,
  workspace_not_safe, other_error, Reply, GitEvent, repository_asked, info_asked, status_asked,
  local_ref_asked, remote_ref_asked, main_forwarded, GitProvider,
}
use chunsik_bot.Delivery.Git.Manager.{
  SyncInput, sync_error, sync_preflight, fast_forward, sync_main,
}
use chunsik_bot.Delivery.Git.Discipline.{mutations}
use chunsik_bot.Delivery.Names.{is_safe_push_remote, is_safe_push_branch}

-- The reads of a run that found everything in order: a working tree without changes, on a branch, and
-- the remote branch at the commit that is expected.
pub record Reads (input : SyncInput) (history later : List GitEvent) (previous : RefCommit)
    (status : GitStatus) (info : RepositoryInfo) (tip : RefCommit) : Type 0 where
  pub trace :
      later
      ≡ remote_ref_asked input.root_path input.remote input.branch (ok tip)
        ∷ local_ref_asked input.root_path input.branch (ok (some previous))
        ∷ info_asked input.root_path (ok info)
        ∷ status_asked input.root_path (ok status)
        ∷ repository_asked input.root_path (ok true)
        ∷ history
  pub is_clean : status.clean ≡ true
  pub no_untracked : is_empty status.untracked ≡ true
  pub no_staged : is_empty status.staged ≡ true
  pub no_unstaged : is_empty status.unstaged ≡ true
  pub no_unmerged : get_or status.has_unmerged_paths false ≡ false
  pub on_branch : (info.detached || get_or status.is_detached false) ≡ false
  pub tip_expected : tip.commit_hash ≡ input.expected_remote_commit
  pub safe_remote : is_safe_push_remote input.remote ≡ true
  pub safe_branch : is_safe_push_branch input.branch ≡ true

-- A run that ends before the change: what the first read threw, or an error that says so.
abbrev pub Unchanged : SyncInput → List GitEvent → GitFailure → List GitEvent → Type 0
Unchanged input history e later =
    (later ≡ repository_asked input.root_path (err e) ∷ history)
    ⊎ ((message : String) × (e ≡ main_sync_blocked message) × (mutations later ≡ mutations history))

sync_preflight-ends :
    (provider : GitProvider) (input : SyncInput) (history : List GitEvent)
    (Q : Outcome GitEvent GitFailure RefCommit → Type 0)
    → ((e : GitFailure) (later : List GitEvent)
        → Unchanged input history e later
        → Q (threw e later))
    → ((previous : RefCommit) (status : GitStatus) (info : RepositoryInfo) (tip : RefCommit)
          (later : List GitEvent)
        → Reads input history later previous status info tip
        → Q (returned previous later))
    → Q (sync_preflight provider input history)
unfolding sync_preflight
sync_preflight-ends provider input history Q stops goes_on =
    check-then Q _ _ _ _ (blocked refl) λ _. check-then Q _ _ _ _ (blocked refl) λ remote.
      check-then Q _ _ _ _ (blocked refl) λ branch. check-then Q _ _ _ _ (blocked refl) λ _.
        call-then Q _ _ _ _ _ (λ e. stops _ _ (inl refl))
          λ inside. check-then Q _ _ _ _ (blocked refl) λ is_inside.
            call-then Q _ _ _ _ _ (λ _. blocked refl)
              λ status.
                call-then Q _ _ _ _ _ (λ _. blocked refl)
                  λ info. check-then Q _ _ _ _ (blocked refl) λ is_clean.
                    check-then Q _ _ _ _ (blocked refl) λ no_untracked.
                      check-then Q _ _ _ _ (blocked refl) λ no_staged.
                        check-then Q _ _ _ _ (blocked refl) λ no_unstaged.
                          check-then Q _ _ _ _ (blocked refl) λ no_unmerged.
                            check-then Q _ _ _ _ (blocked refl) λ on_branch.
                              call-then Q _ _ _ _ _ (λ _. blocked refl)
                                λ found. present-then Q _ _ _ _ (blocked refl) λ previous is_found.
                                  call-then Q _ _ _ _ _ (λ _. blocked refl)
                                    λ tip. check-then Q _ _ _ _ (blocked refl) λ expected.
                                      goes_on previous status info tip _ (record {
                                        trace = cc;
                                        is_clean = is_clean;
                                        no_untracked = no_untracked;
                                        no_staged = no_staged;
                                        no_unstaged = no_unstaged;
                                        no_unmerged = ground arith;
                                        on_branch = ground arith;
                                        tip_expected = (string_eq.agrees _ _).0 expected;
                                        safe_remote = remote;
                                        safe_branch = branch;
                                      })
  where
    blocked :
        {message : String} {later : List GitEvent}
        → mutations later ≡ mutations history
        → Q (threw (main_sync_blocked message) later)
    blocked same = stops _ _ (inr (_, refl, same))

-- The change itself was tried, after the reads found everything in order.
abbrev pub Attempted : SyncInput → List GitEvent → List GitEvent → Reply GitMainSyncResult → Type 0
Attempted input history later reply =
    (previous : RefCommit) × (status : GitStatus) × (info : RepositoryInfo) × (tip : RefCommit)
    × (earlier : List GitEvent) × Reads input history earlier previous status info tip
    × (later
        ≡ main_forwarded input.root_path input.remote input.branch input.expected_remote_commit
            previous.commit_hash reply
          ∷ earlier)

abbrev pub SyncOutcome :
    SyncInput → List GitEvent → Outcome GitEvent GitFailure GitMainSyncResult → Type 0
SyncOutcome input history (returned result later) =
    Attempted input history later (ok result)
    × (result.synced_commit_hash ≡ input.expected_remote_commit)
SyncOutcome input history (threw e later) =
    Unchanged input history e later
    ⊎ ((message : String) × (e ≡ main_sync_blocked message)
        × Attempted input history later (err (main_sync_blocked message)))
    ⊎ ((message : String) × (reply : Reply GitMainSyncResult) × (e ≡ main_sync_unverified message)
        × Attempted input history later reply)

sync_error-cases :
    (e : GitFailure)
    → ((message : String) × (e ≡ main_sync_blocked message))
      ⊎ ((message : String) × (sync_error e ≡ main_sync_unverified message))
sync_error-cases (main_sync_blocked message) = inl (message, refl)
sync_error-cases (main_sync_unverified message) = inr (message, refl)
sync_error-cases (branch_cleanup_blocked message) = inr (_, refl)
sync_error-cases (branch_cleanup_unverified message) = inr (_, refl)
sync_error-cases (push_blocked message) = inr (_, refl)
sync_error-cases (workspace_not_safe message) = inr (_, refl)
sync_error-cases (other_error message) = inr (_, refl)

-- A run of `syncMain` that returns has made the reads, found the tree without changes and the remote
-- branch at the expected commit, and then made one last call, which reports that main is there. A run
-- that throws has thrown what the first read threw; or a Blocked error, having changed nothing or having
-- it from the call that moves main; or an Unverified error after that call.
pub sync_main_lem :
    (provider : GitProvider) (input : SyncInput) (history : List GitEvent)
    → SyncOutcome input history (sync_main provider input history)
unfolding sync_main fast_forward resume
sync_main_lem provider input history = bind-then Q _ _ _ (
    sync_preflight-ends provider input history Before (λ e later h. inl h)
      λ previous status info tip earlier reads.
        call-then Q _ _ _ _ _
          (λ e. inr (elim (sync_error-cases e) [
            | inl (message, q) ↦
                rw q (inl (message, refl, (previous, status, info, tip, earlier, reads, refl)))
            | inr (message, q) ↦
                inr (message, err e, q, (previous, status, info, tip, earlier, reads, refl))
          ]))
          λ result.
            check-then Q _ _ _ _
              (inr (inr (_, ok result, refl, (previous, status, info, tip, earlier, reads, refl))))
              λ synced. (
                (previous, status, info, tip, earlier, reads, refl),
                (string_eq.agrees _ _).0 synced,
              ))
  where
    Q : Outcome GitEvent GitFailure GitMainSyncResult → Type 0
    Q = SyncOutcome input history

    Before : Outcome GitEvent GitFailure RefCommit → Type 0
    Before outcome = Q (resume outcome (fast_forward provider input))
