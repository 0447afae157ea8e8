-- ===== src/Continuation/Ledger/Ends.antt =====
-- storage-sqlite/src/index.ts (under packages/): terminalizePreservingSecurityEvidence, followed through
-- its guards to a step of the ledger.
use chunsik_bot.Base.{
  String, ◌≡◌, refl, sym, ap, ◌∙◌, subst, Bool, true, false, Option, none, some, Bool-cases, inl,
  inr, Option-cases, none_not_some, some-injective, ◌==◌, string_eq,
}
use chunsik_bot.Base.Platform.{Platform}
use chunsik_bot.Base.Json.{Json, Members, obj, end, member}
use chunsik_bot.Base.Members.{lookup, set_member, assign, lookup-set_same, lookup-delete}
use chunsik_bot.Domain.{EntityId}
use chunsik_bot.Storage
use chunsik_bot.Governance.Task.{TaskRun, task_run_entity}
use chunsik_bot.Continuation.Evidence.{ContainmentAudit}
use chunsik_bot.Continuation.Evidence.Audit.{snapshot_containment_audit, audit_json}
use chunsik_bot.Continuation.Evidence.Stored.{IsProjected, snapshot-IsProjected, snapshot_back}
use chunsik_bot.Continuation.Tables.{Tables, is_started, upsert_run}
use chunsik_bot.Continuation.Runs.{
  containment_audit_metadata_key, metadata_members, extract_containment_audit,
}
use chunsik_bot.Continuation.Runs.Contained.{
  TerminalizeRequest, TerminalStatus, is_uncertain, merged_metadata, metadata_or, terminal_run,
  end_unless, load_started_run_or_throw, terminalize_preserving_security_evidence,
  terminal_run_status,
}
use chunsik_bot.Continuation.Ledger.{view, Moves, closes}
use chunsik_bot.Continuation.Ledger.Saves.{extract_absent, extract_stored}
use chunsik_bot.Continuation.Ledger.Evidence.{load-IsLoaded, own_row}
use chunsik_bot.Continuation.Ledger.Writes.{
  Commits, Commits-same, Commits-Step, Commits-require, Commits-bind, Commits-begun,
  upsert_run-Step,
}

-- Evidence that a row holds has been projected.
pub extract-IsProjected :
    (p : Platform) (run : TaskRun) {audit : ContainmentAudit}
    → extract_containment_audit p run ≡ some audit
    → IsProjected p run.id audit
extract-IsProjected p run e =
    elim (Option-cases (lookup containment_audit_metadata_key (metadata_members run.metadata))) [
      | inl absent ↦ absurd (none_not_some (sym (extract_absent p run absent) ∙ e))
      | inr (raw, stored) ↦
          snapshot-IsProjected p raw run.id (sym (extract_stored p run raw stored) ∙ e)
    ]

metadata_or-set :
    (key : String) (v : Json) (ms : Members) (old : Option Json)
    → metadata_or (set_member key v ms) old ≡ some (obj (set_member key v ms))
unfolding metadata_or set_member
metadata_or-set key v end old = refl
metadata_or-set key v (member k w ms) old = elim (Bool-cases (k == key)) [
  | inl same ↦ rw same refl
  | inr other ↦ rw other refl
]

module _ (p : Platform) (run : TaskRun) (request : TerminalizeRequest) where
  -- Without evidence there is none after the end either, also where no metadata is written at all.
  no_evidence :
      (ms : Members) (ended : TaskRun)
      → ended.id ≡ run.id
      → ended.metadata ≡ metadata_or ms run.metadata
      → lookup containment_audit_metadata_key ms ≡ none
      → extract_containment_audit p run ≡ none
      → extract_containment_audit p ended ≡ none
  unfolding metadata_or metadata_members
  no_evidence end ended same_id same absent e =
      elim (Option-cases (lookup containment_audit_metadata_key (metadata_members run.metadata))) [
        | inl bare ↦ extract_absent p ended (as_before ∙ bare)
        | inr (raw, stored) ↦
            extract_stored p ended raw (as_before ∙ stored)
            ∙ ap (λ i. snapshot_containment_audit p raw i i) same_id
            ∙ sym (extract_stored p run raw stored)
            ∙ e
      ]
    where
      as_before :
          lookup containment_audit_metadata_key (metadata_members ended.metadata)
          ≡ lookup containment_audit_metadata_key (metadata_members run.metadata)
      as_before = ap (λ m. lookup containment_audit_metadata_key (metadata_members m)) same
  no_evidence (member k v ms) ended same_id same absent e =
      extract_absent p ended
        (ap (λ m. lookup containment_audit_metadata_key (metadata_members m)) same ∙ absent)

  pub terminal_evidence :
      (preserved : Option ContainmentAudit)
      → extract_containment_audit p run ≡ preserved
      → extract_containment_audit p (terminal_run run request preserved) ≡ preserved
  unfolding terminal_run merged_metadata
  terminal_evidence (some audit) e =
      extract_stored p (terminal_run run request (some audit)) (audit_json audit) (
        ap (λ m. lookup containment_audit_metadata_key (metadata_members m))
          (metadata_or-set containment_audit_metadata_key (audit_json audit) merged run.metadata)
        ∙ lookup-set_same containment_audit_metadata_key (audit_json audit) merged)
      ∙ snapshot_back p run.id audit (extract-IsProjected p run e)
    where
      merged : Members
      merged = assign (metadata_members run.metadata) (metadata_members request.metadata)
  terminal_evidence none e =
      no_evidence _ (terminal_run run request none) refl refl
        (lookup-delete containment_audit_metadata_key
          (assign (metadata_members run.metadata) (metadata_members request.metadata)))
        e

  terminal-Moves :
      is_started run.status ≡ true
      → is_uncertain (extract_containment_audit p run) ≡ false
      → Moves (view p run) (view p (terminal_run run request (extract_containment_audit p run)))
  unfolding terminal_run
  terminal-Moves opened certain =
      closes opened (closed request.terminal_status) (terminal_evidence _ refl) certain
    where
      closed : (status : TerminalStatus) → is_started (terminal_run_status status) ≡ false
      closed TerminalStatus.succeeded = refl
      closed TerminalStatus.failed = refl

  end_unless-Step :
      (db : Tables) (uncertain : Bool)
      → is_uncertain (extract_containment_audit p run) ≡ uncertain
      → Storage.get run.id db.runs ≡ some run
      → is_started run.status ≡ true
      → Commits p db (end_unless uncertain run (extract_containment_audit p run) request db)
  unfolding end_unless
  end_unless-Step db true is_so found opened = Commits-same p db _ _
  end_unless-Step db false is_so found opened = Commits-bind p db (upsert_run _ db.runs) _ λ rows e.
      Commits-Step p db _ _ (
        upsert_run-Step p db _ e (λ absent. absurd (none_not_some (sym absent ∙ found)))
          (λ old is_old start bound.
            subst
              (λ o.
                Moves (view p o)
                  (view p (terminal_run run request (extract_containment_audit p run))))
              (some-injective (sym found ∙ is_old)) (terminal-Moves opened is_so)))

pub terminalize-Step :
    (p : Platform) (db : Tables) (lock : Option String) (id : EntityId)
    (request : TerminalizeRequest)
    → Commits p db (terminalize_preserving_security_evidence p lock id request db)
unfolding terminalize_preserving_security_evidence
terminalize-Step p db lock id request = Commits-begun p db lock _ (
    Commits-bind p db (load_started_run_or_throw id db) _ λ run e.
      let loaded = load-IsLoaded id db e in
      Commits-require p db _ _ _
        λ allowed. end_unless-Step p run request db _ refl (own_row loaded) loaded.opened)
