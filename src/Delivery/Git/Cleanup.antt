-- ===== src/Delivery/Git/Cleanup.antt =====
-- git-manager.ts: what a run of `deleteMergedLocalBranch` has done when it ends, in each way it can end.
use chunsik_bot.Base.{
  String, Bool, true, false, ◌≡◌, refl, ◌⊎◌, inl, inr, Option, none, some, List, ◌∷◌, get_or, ◌==◌,
  string_eq, arith, and-eq-true,
}
use chunsik_bot.Base.Result.{ok, err}
use chunsik_bot.Base.Effect.{Outcome, returned, threw, resume}
use chunsik_bot.Base.Effect.Steps.{check-then, present-then, call-then, call-last, bind-then}
use chunsik_bot.Delivery.Git.{
  GitStatus, RepositoryInfo, RefCommit, GitBranchCleanupResult, GitFailure, main_sync_blocked,
  main_sync_unverified, branch_cleanup_blocked, branch_cleanup_unverified, push_blocked,
  workspace_not_safe, other_error, Reply, GitEvent, repository_asked, info_asked, status_asked,
  local_ref_asked, ancestor_asked, branch_deleted, GitProvider,
}
use chunsik_bot.Delivery.Git.Manager.{
  CleanupInput, cleanup_error, cleanup_preflight, delete_branch, delete_merged_local_branch,
}
use chunsik_bot.Delivery.Git.Discipline.{mutations}
use chunsik_bot.Delivery.Names.{is_safe_push_branch}

-- The reads of a run that found everything in order: the branch is not main and not checked out, and
-- main is where it was expected.
pub record Reads (input : CleanupInput) (history later : List GitEvent) (found : Option RefCommit)
    (status : GitStatus) (info : RepositoryInfo) (local_main : RefCommit) : Type 0 where
  pub trace :
      later
      ≡ local_ref_asked input.root_path input.branch (ok found)
        ∷ local_ref_asked input.root_path "main" (ok (some local_main))
        ∷ info_asked input.root_path (ok info)
        ∷ status_asked input.root_path (ok status)
        ∷ repository_asked input.root_path (ok true)
        ∷ history
  pub no_unmerged : get_or status.has_unmerged_paths false ≡ false
  pub not_current : (info.branch == input.branch) ≡ false
  pub main_expected : local_main.commit_hash ≡ input.expected_main_commit
  pub not_main : (input.branch == "main") ≡ false
  pub safe_branch : is_safe_push_branch input.branch ≡ true

-- A run that ends before the change: what the first read threw, or an error that says so.
abbrev pub Unchanged : CleanupInput → List GitEvent → GitFailure → List GitEvent → Type 0
Unchanged input history e later =
    (later ≡ repository_asked input.root_path (err e) ∷ history)
    ⊎ ((message : String) × (e ≡ branch_cleanup_blocked message)
        × (mutations later ≡ mutations history))

cleanup_preflight-ends :
    (provider : GitProvider) (input : CleanupInput) (history : List GitEvent)
    (Q : Outcome GitEvent GitFailure (Option RefCommit) → Type 0)
    → ((e : GitFailure) (later : List GitEvent)
        → Unchanged input history e later
        → Q (threw e later))
    → ((found : Option RefCommit) (status : GitStatus) (info : RepositoryInfo)
          (local_main : RefCommit) (later : List GitEvent)
        → Reads input history later found status info local_main
        → Q (returned found later))
    → Q (cleanup_preflight provider input history)
unfolding cleanup_preflight
cleanup_preflight-ends provider input history Q stops goes_on =
    check-then Q _ _ _ _ (blocked refl) λ _. check-then Q _ _ _ _ (blocked refl) λ safe.
      check-then Q _ _ _ _ (blocked refl) λ not_main. check-then Q _ _ _ _ (blocked refl) λ _.
        call-then Q _ _ _ _ _ (λ e. stops _ _ (inl refl))
          λ inside. check-then Q _ _ _ _ (blocked refl) λ is_inside.
            call-then Q _ _ _ _ _ (λ _. blocked refl)
              λ status.
                call-then Q _ _ _ _ _ (λ _. blocked refl)
                  λ info. check-then Q _ _ _ _ (blocked refl) λ no_unmerged.
                    check-then Q _ _ _ _ (blocked refl) λ not_current.
                      call-then Q _ _ _ _ _ (λ _. blocked refl)
                        λ main_ref. present-then Q _ _ _ _ (blocked refl) λ local_main is_main.
                          check-then Q _ _ _ _ (blocked refl) λ expected.
                            call-last Q _ _ _ _ (λ _. blocked refl)
                              λ found. goes_on found status info local_main _ (record {
                                trace = cc;
                                no_unmerged = ground arith;
                                not_current = ground arith;
                                main_expected = (string_eq.agrees _ _).0 expected;
                                not_main = ground arith;
                                safe_branch = safe;
                              })
  where
    blocked :
        {message : String} {later : List GitEvent}
        → mutations later ≡ mutations history
        → Q (threw (branch_cleanup_blocked message) later)
    blocked same = stops _ _ (inr (_, refl, same))

-- The change itself was tried: the branch is at a commit that main has, and only it is deleted.
abbrev pub Attempted :
    CleanupInput → List GitEvent → List GitEvent → Reply GitBranchCleanupResult → Type 0
Attempted input history later reply =
    (target : RefCommit) × (status : GitStatus) × (info : RepositoryInfo) × (local_main : RefCommit)
    × (earlier : List GitEvent) × Reads input history earlier (some target) status info local_main
    × (later
        ≡ branch_deleted input.root_path input.branch target.commit_hash reply
          ∷ ancestor_asked input.root_path target.commit_hash input.expected_main_commit (ok true)
          ∷ earlier)

-- The branch was not there.
abbrev pub Absent : CleanupInput → List GitEvent → List GitEvent → Type 0
Absent input history later =
    (status : GitStatus) × (info : RepositoryInfo) × (local_main : RefCommit) × Reads input history
      later none status info local_main

abbrev pub CleanupOutcome :
    CleanupInput → List GitEvent → Outcome GitEvent GitFailure GitBranchCleanupResult → Type 0
CleanupOutcome input history (returned result later) =
    (result.branch ≡ input.branch)
    × ((Attempted input history later (ok result) × (result.deleted ≡ true))
        ⊎ (Absent input history later × (result.deleted ≡ false) × (result.already_absent ≡ true)))
CleanupOutcome input history (threw e later) =
    Unchanged input history e later
    ⊎ ((message : String) × (e ≡ branch_cleanup_blocked message)
        × Attempted input history later (err (branch_cleanup_blocked message)))
    ⊎ ((message : String) × (reply : Reply GitBranchCleanupResult) × (e
          ≡ branch_cleanup_unverified message)
        × Attempted input history later reply)

cleanup_error-cases :
    (e : GitFailure)
    → ((message : String) × (e ≡ branch_cleanup_blocked message))
      ⊎ ((message : String) × (cleanup_error e ≡ branch_cleanup_unverified message))
cleanup_error-cases (branch_cleanup_blocked message) = inl (message, refl)
cleanup_error-cases (branch_cleanup_unverified message) = inr (message, refl)
cleanup_error-cases (main_sync_blocked message) = inr (_, refl)
cleanup_error-cases (main_sync_unverified message) = inr (_, refl)
cleanup_error-cases (push_blocked message) = inr (_, refl)
cleanup_error-cases (workspace_not_safe message) = inr (_, refl)
cleanup_error-cases (other_error message) = inr (_, refl)

delete_branch_lem :
    (provider : GitProvider) (input : CleanupInput) (history : List GitEvent)
    (found : Option RefCommit) (status : GitStatus) (info : RepositoryInfo) (local_main : RefCommit)
    (earlier : List GitEvent)
    → Reads input history earlier found status info local_main
    → CleanupOutcome input history (delete_branch provider input found earlier)
unfolding delete_branch
delete_branch_lem provider input history none status info local_main earlier reads =
    (refl, inr ((status, info, local_main, reads), refl, refl))
delete_branch_lem provider input history (some target) status info local_main earlier reads =
    call-then Q _ _ _ _ _ (λ _. inl (inr (_, refl, same)))
      λ merged. check-then Q _ _ _ _ (inl (inr (_, refl, same))) λ is_merged.
        call-then Q _ _ _ _ _
          (λ e. inr (elim (cleanup_error-cases e) [
            | inl (message, q) ↦ rw q (inl (message, refl, attempted is_merged _))
            | inr (message, q) ↦ inr (message, err e, q, attempted is_merged _)
          ]))
          λ result.
            check-then Q _ _ _ _ (inr (inr (_, ok result, refl, attempted is_merged _))) λ good. (
              (string_eq.agrees _ _).0 (and-eq-true _ _ good).0,
              inl (attempted is_merged _, (and-eq-true _ _ good).1),
            )
  where
    Q : Outcome GitEvent GitFailure GitBranchCleanupResult → Type 0
    Q = CleanupOutcome input history

    same : mutations earlier ≡ mutations history
    same = rw reads.trace refl

    attempted :
        {merged : Bool}
        → merged ≡ true
        → (reply : Reply GitBranchCleanupResult)
        → Attempted input history
            (branch_deleted input.root_path input.branch target.commit_hash reply
              ∷ ancestor_asked input.root_path target.commit_hash input.expected_main_commit
                  (ok merged)
              ∷ earlier)
            reply
    attempted is_merged reply = (target, status, info, local_main, earlier, reads, cc)

-- A run of `deleteMergedLocalBranch` that returns either found no such branch and changed nothing, or
-- made one last call, which reports the branch deleted, for the commit that it read and that the provider
-- calls an ancestor of main. The branch is not main and not checked out, and main was at the expected
-- commit. A run that throws has thrown what the first read threw; or a Blocked error, having changed
-- nothing or having it from the call that deletes; or an Unverified error after that call.
pub delete_merged_local_branch_lem :
    (provider : GitProvider) (input : CleanupInput) (history : List GitEvent)
    → CleanupOutcome input history (delete_merged_local_branch provider input history)
unfolding delete_merged_local_branch resume
delete_merged_local_branch_lem provider input history =
    bind-then (CleanupOutcome input history) _ _ _ (
      cleanup_preflight-ends provider input history
        (λ outcome. CleanupOutcome input history (resume outcome (delete_branch provider input)))
        (λ e later h. inl h)
        λ found status info local_main earlier reads.
          delete_branch_lem provider input history found status info local_main earlier reads)
