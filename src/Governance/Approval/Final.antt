-- ===== src/Governance/Approval/Final.antt =====
-- approval-manager.ts: a decision is final.
use chunsik_bot.Base.{
  ◌≡◌, sym, ap, ◌∙◌, ◌≢◌, inl, inr, some, List, [], ◌∷◌, All, some-injective, string_eq,
}
use chunsik_bot.Domain.{EntityId, ApprovalStatus, approval_status_eq}
use chunsik_bot.Storage.{get}
use chunsik_bot.Storage.Laws.{get-save_other, get-id}
use chunsik_bot.Governance.Approval.{
  ApprovalRequest, approval_entity, new_request, request_for, decided, risk_request,
}
use chunsik_bot.Governance.Approval.Lifecycle.{
  decision_made, risk_requested, requested, ApprovalCall, answer, table_after, after_calls,
  request_for_risk-cases, decide-cases,
}

-- The id that a call draws for a new request.
abbrev pub Draws : ApprovalCall → EntityId → Type 0
Draws (requested plan by id ts) r = id ≡ r
Draws (risk_requested input id ts) r = id ≡ r
Draws (decision_made id d ts) r = ⊥

abbrev pub NeverDrawn : List ApprovalCall → EntityId → Type 0
NeverDrawn calls r = All (λ call. Draws call r → ⊥) calls

answer-keeps :
    (call : ApprovalCall) (table : List ApprovalRequest) (id : EntityId) (r : ApprovalRequest)
    → get id table ≡ some r
    → r.status ≢ ApprovalStatus.pending
    → (Draws call id → ⊥)
    → get id (table_after (answer call table) table) ≡ some r
unfolding answer request_for new_request
answer-keeps (requested plan by new ts) table id r found final fresh =
    get-save_other (new_request plan by new ts) table id (λ e. fresh (sym e)) ∙ found
answer-keeps (risk_requested input new ts) table id r found final fresh =
    elim (request_for_risk-cases input new ts table) [
      | inl (message, e) ↦ rw (e, answer) found
      | inr e ↦
          rw (e, answer)
            (get-save_other (risk_request input new ts) table id (λ s. fresh (sym s)) ∙ found)
    ]
answer-keeps (decision_made other d ts) table id r found final fresh =
    elim (decide-cases other d ts table) [
      | inl (message, e) ↦ rw (e, answer) found
      | inr (existing, there, waiting, e) ↦
          rw (e, answer)
            (get-save_other (decided existing d ts) table id
                (λ s. final (pending_there existing there waiting (s ∙ get-id other table there)))
              ∙ found)
    ]
  where
    pending_there :
        (existing : ApprovalRequest)
        → get other table ≡ some existing
        → existing.status ≡ ApprovalStatus.pending
        → id ≡ other
        → r.status ≡ ApprovalStatus.pending
    pending_there existing there waiting s =
        ap (λ (x : ApprovalRequest). x.status)
          (some-injective (sym found ∙ ap (λ k. get k table) s ∙ there))
        ∙ waiting

-- A request that is decided stays in the table as it is, whatever calls follow, where none of them
-- draws its id again.
pub after_calls-final :
    (calls : List ApprovalCall) (table : List ApprovalRequest) (id : EntityId) (r : ApprovalRequest)
    → get id table ≡ some r
    → r.status ≢ ApprovalStatus.pending
    → NeverDrawn calls id
    → get id (after_calls calls table) ≡ some r
unfolding after_calls
after_calls-final [] table id r found final fresh = found
after_calls-final (call ∷ calls) table id r found final (now, later) =
    after_calls-final calls (table_after (answer call table) table) id r
      (answer-keeps call table id r found final now) final later
