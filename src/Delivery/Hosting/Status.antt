-- ===== src/Delivery/Hosting/Status.antt =====
-- repository-hosting-manager.ts: what `getPullRequestStatus` passes on.
use chunsik_bot.Base.{String, true, ◌≡◌, refl, string_eq, List, ◌∷◌}
use chunsik_bot.Base.Result.{ok}
use chunsik_bot.Base.Effect.{Outcome, returned, threw}
use chunsik_bot.Base.Effect.Steps.{check-then, call-then, given-and}
use chunsik_bot.Delivery.Hosting.{
  PullRequestQuery, PullRequestStatusPreview, HostingFailure, other_error, HostingEvent,
  status_asked, mutations, RepositoryHostingProvider,
}
use chunsik_bot.Delivery.Hosting.Guards.{status_guards, is_same_ref}
use chunsik_bot.Delivery.Hosting.Manager.{get_pull_request_status}

-- A report about the pull request that was asked for, as it was expected to be.
pub record IsAbout (input : PullRequestQuery) (preview : PullRequestStatusPreview) : Type 0 where
  pub same_ref : is_same_ref preview.ref input.identity input.pull_request_ref ≡ true
  pub head : preview.head_branch ≡ input.expected_head_branch
  pub base : preview.base_branch ≡ input.expected_base_branch
  pub commit : preview.head_commit_hash ≡ input.expected_commit_hash

abbrev pub StatusOutcome :
    String
    → PullRequestQuery
    → List HostingEvent
    → Outcome HostingEvent HostingFailure PullRequestStatusPreview
    → Type 0
StatusOutcome kind input history (returned preview later) =
    (status_guards kind input ≡ ok tt)
    × IsAbout input preview
    × (later ≡ status_asked input (ok preview) ∷ history)
StatusOutcome kind input history (threw e later) =
    ((message : String) × (e ≡ other_error message)) × (mutations later ≡ mutations history)

-- A run of `getPullRequestStatus` changes nothing. When it returns, its guards passed and the report of
-- its only call is about the pull request that was asked for, between the expected branches at the
-- expected commit.
pub get_pull_request_status_lem :
    (provider : RepositoryHostingProvider) (input : PullRequestQuery) (history : List HostingEvent)
    → StatusOutcome provider.kind input history (get_pull_request_status provider input history)
unfolding get_pull_request_status
get_pull_request_status_lem provider input history =
    given-and Q _ _ _ _ (λ _. ((_, refl), refl))
      λ guarded.
        call-then Q _ _ _ _ _ (λ _. ((_, refl), refl))
          λ preview.
            check-then Q _ _ _ _ ((_, refl), refl)
              λ same.
                check-then Q _ _ _ _ ((_, refl), refl)
                  λ head.
                    check-then Q _ _ _ _ ((_, refl), refl)
                      λ base.
                        check-then Q _ _ _ _ ((_, refl), refl)
                          λ commit. (
                            guarded,
                            record {
                              same_ref = same;
                              head = (string_eq.agrees _ _).0 head;
                              base = (string_eq.agrees _ _).0 base;
                              commit = (string_eq.agrees _ _).0 commit;
                            },
                            refl,
                          )
  where
    Q : Outcome HostingEvent HostingFailure PullRequestStatusPreview → Type 0
    Q = StatusOutcome provider.kind input history
