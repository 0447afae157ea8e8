-- ===== src/Governance/Command/Gates.antt =====
-- command-execution-manager.ts: the gates of `run`, and what a run leaves behind.
use chunsik_bot.Base.{
  String, ◌≡◌, refl, sym, ap, ◌∙◌, ◌≢◌, ◌↔◌, ◌⊎◌, inl, inr, Bool, true, false, not, some, List, [],
  ◌∷◌, ◌++◌, arith, ◌==◌, string_eq, In, any, contains, contains_iff, Bool-cases, Option-cases,
  eq_of_beq, none_not_some, some-injective, subst,
}
use chunsik_bot.Base.Result.{Result, ok, err, require, bind-eq-ok, require-eq-ok}
use chunsik_bot.Domain.{RiskLevel, ApprovalStatus, approval_status_eq, CommandExecutionStatus}
use chunsik_bot.Governance.Risk.{requires_approval}
use chunsik_bot.Governance.Approval.{ApprovalRef}
use chunsik_bot.Governance.Execution.{RunCommandInput, CommandExecution, command_entity}
use chunsik_bot.Governance.Command.{
  check_gates, approval_gate, has_dangerous_args, is_node_eval_arg, is_critical, risk_of,
  RunnerReply, RunDraws, CommandWorld, CommandRunOptions, CommandRunResult, base_execution, running,
  run, finished, options_of, derive_status,
}
use chunsik_bot.Storage.{get, save}
use chunsik_bot.Storage.Laws.{get-save_same}

-- An approval that allows a command of this plan.
abbrev pub Authorizes : RunCommandInput → ApprovalRef → Type 0
Authorizes input approval =
    (approval.status ≡ ApprovalStatus.approved) × (approval.plan_ref.id ≡ input.plan_ref.id)

-- What the gates ask of a command.
pub record IsPermitted (allowed : List String) (input : RunCommandInput) : Type 0 where
  pub listed : In input.command allowed
  pub no_eval :
      input.command ≡ "node" → (arg : String) → In arg input.args → is_node_eval_arg arg ≡ false
  pub not_critical : risk_of input ≢ RiskLevel.critical
  pub authorized :
      risk_of input ≡ RiskLevel.high
      → (approval : ApprovalRef) × (input.approval ≡ some approval) × Authorizes input approval

any-false_iff :
    {A : Type 0} (p : A → Bool) (xs : List A)
    → (any p xs ≡ false) ↔ ((x : A) → In x xs → p x ≡ false)
any-false_iff p [] = (λ e x m. elim m [ ], λ h. refl)
any-false_iff {A} p (x ∷ xs) = (
  λ e y m. elim m [ inl s ↦ ap p s ∙ (split e).0 | inr l ↦ (any-false_iff p xs).0 (split e).1 y l ],
  λ h. join (h x (inl refl)) ((any-false_iff p xs).1 (λ y l. h y (inr l))),
)
  where
    split : any p (x ∷ xs) ≡ false → (p x ≡ false) × (any p xs ≡ false)
    split e = ground arith

    join : p x ≡ false → any p xs ≡ false → any p (x ∷ xs) ≡ false
    join e f = ground arith

dangerous_iff :
    (command : String) (args : List String)
    → (not (has_dangerous_args command args) ≡ true)
      ↔ (command ≡ "node" → (arg : String) → In arg args → is_node_eval_arg arg ≡ false)
unfolding has_dangerous_args
dangerous_iff command args = (
  λ e same. (any-false_iff is_node_eval_arg args).0 (safe e same),
  λ h. elim (Bool-cases (command == "node")) [
    | inl node ↦
        rw
          (
            node,
            (any-false_iff is_node_eval_arg args).1 (h (eq_of_beq command "node" node)),
            has_dangerous_args,
          )
          refl
    | inr other ↦ rw (other, has_dangerous_args) refl
  ],
)
  where
    safe :
        not (has_dangerous_args command args) ≡ true
        → command ≡ "node"
        → any is_node_eval_arg args ≡ false
    safe e same = ground (arith, string_eq.agrees command "node")

no_error : {message : String} → ◌≡◌ {A = Result String (Unit {0})} (err message) (ok tt) → ⊥
no_error e = cc

approval_gate_iff :
    (input : RunCommandInput) (risk : RiskLevel)
    → (approval_gate input risk ≡ ok tt)
      ↔ ((approval : ApprovalRef) × (input.approval ≡ some approval) × Authorizes input approval)
unfolding approval_gate
approval_gate_iff input risk = elim (Option-cases input.approval) [
  | inl missing ↦
      (λ e. absurd (no_error (rw missing at e)), λ h. absurd (none_not_some (sym missing ∙ h.1)))
  | inr (approval, given) ↦ (
    λ e.
        let (u, status, rest) =
          bind-eq-ok (require (approval.status == ApprovalStatus.approved) _) _ (rw given at e) in
        (
          approval,
          given,
          (
            eq_of_beq approval.status ApprovalStatus.approved (require-eq-ok _ _ status),
            eq_of_beq approval.plan_ref.id input.plan_ref.id (require-eq-ok _ _ rest),
          ),
        ),
    λ h.
        let same : h.0 ≡ approval = some-injective (sym h.1 ∙ given) in
        let (status, scope) = subst (Authorizes input) same h.2 in
        rw
          (
            given,
            (approval_status_eq.agrees approval.status ApprovalStatus.approved).1 status,
            (string_eq.agrees approval.plan_ref.id input.plan_ref.id).1 scope,
            approval_gate,
          )
          refl,
  )
]

critical_iff : (risk : RiskLevel) → (not (is_critical risk) ≡ true) ↔ (risk ≢ RiskLevel.critical)
critical_iff risk = ground arith

-- Of the risks that are not critical only the high one requires an approval.
approval_required :
    (risk : RiskLevel)
    → risk ≢ RiskLevel.critical
    → ((risk ≡ RiskLevel.high) × (requires_approval risk ≡ true))
      ⊎ ((risk ≢ RiskLevel.high) × (requires_approval risk ≡ false))
unfolding requires_approval
approval_required RiskLevel.low n = inr (λ e. cc, refl)
approval_required RiskLevel.medium n = inr (λ e. cc, refl)
approval_required RiskLevel.high n = inl (refl, refl)
approval_required RiskLevel.critical n = absurd (n refl)

check_gates_iff :
    (allowed : List String) (input : RunCommandInput)
    → (check_gates allowed input ≡ ok tt) ↔ IsPermitted allowed input
unfolding check_gates
check_gates_iff allowed input = (
  λ e.
      let (u, listed, e1) = bind-eq-ok (require (contains allowed input.command) _) _ e in
      let (v, safe, e2) =
        bind-eq-ok (require (not (has_dangerous_args input.command input.args)) _) _ e1 in
      let (w, mild, e3) = bind-eq-ok (require (not (is_critical (risk_of input))) _) _ e2 in
      let calm = (critical_iff (risk_of input)).0 (require-eq-ok _ _ mild) in
      record {
        listed = (contains_iff allowed input.command).0 (require-eq-ok _ _ listed);
        no_eval = (dangerous_iff input.command input.args).0 (require-eq-ok _ _ safe);
        not_critical = calm;
        authorized = λ high. elim (approval_required (risk_of input) calm) [
          | inl (_, needed) ↦ (approval_gate_iff input (risk_of input)).0 (rw needed at e3)
          | inr (low, _) ↦ absurd (low high)
        ];
      },
  λ v.
      let listed = (contains_iff allowed input.command).1 v.listed in
      let safe = (dangerous_iff input.command input.args).1 v.no_eval in
      let mild = (critical_iff (risk_of input)).1 v.not_critical in
      elim (approval_required (risk_of input) v.not_critical) [
        | inl (high, needed) ↦
            rw (listed, safe, mild, needed, check_gates)
              ((approval_gate_iff input (risk_of input)).1 (v.authorized high))
        | inr (low, needless) ↦ rw (listed, safe, mild, needless, check_gates) refl
      ],
)

unfoldable pub is_terminal : CommandExecutionStatus → Bool
is_terminal CommandExecutionStatus.succeeded = true
is_terminal CommandExecutionStatus.failed = true
is_terminal CommandExecutionStatus.timed_out = true
is_terminal _ = false

derive_status-terminal : (result : CommandRunResult) → is_terminal (derive_status result) ≡ true
unfolding is_terminal derive_status
derive_status-terminal result = ground arith

-- A refused command: an error, with nothing run and nothing recorded.
pub record IsRefused (allowed : List String) (input : RunCommandInput) (world : CommandWorld)
    (out : Result String CommandExecution × CommandWorld) : Type 0 where
  pub forbidden : IsPermitted allowed input → ⊥
  pub message : String
  pub outcome : out ≡ (err message, world)

-- A command that ran, once and as it was given, with its terminal record returned and stored.
pub record IsRun (runner : String → List String → CommandRunOptions → RunnerReply)
    (allowed : List String) (input : RunCommandInput) (draws : RunDraws) (world : CommandWorld)
    (out : Result String CommandExecution × CommandWorld) : Type 0 where
  pub permitted : IsPermitted allowed input
  pub answered : out.0 ≡ ok (finished runner input draws)
  pub stored : get draws.id out.1.executions ≡ some (finished runner input draws)
  pub terminal : is_terminal (finished runner input draws).status ≡ true
  pub ran_once :
      out.1.runs ≡ world.runs ++ (input.command, input.args, options_of runner input) ∷ []

-- Whatever the runner answers, and also when it throws: a command is either refused, and this happens
-- exactly when the gates do not permit it, or it runs exactly once, with the arguments given, and the
-- execution that is returned has a terminal status and is the one in the table.
pub run_lem :
    (runner : String → List String → CommandRunOptions → RunnerReply) (allowed : List String)
    (input : RunCommandInput) (draws : RunDraws) (world : CommandWorld)
    → IsRefused allowed input world (run runner allowed input draws world)
      ⊎ IsRun runner allowed input draws world (run runner allowed input draws world)
unfolding run finished base_execution
run_lem runner allowed input draws world = helper (check_gates allowed input) refl
  where
    helper :
        (gates : Result String (Unit {0}))
        → check_gates allowed input ≡ gates
        → IsRefused allowed input world (run runner allowed input draws world)
          ⊎ IsRun runner allowed input draws world (run runner allowed input draws world)
    helper (err message) e = inl (record {
      forbidden = λ v. no_error (sym e ∙ (check_gates_iff allowed input).1 v);
      message = message;
      outcome = rw (e, run) refl;
    })
    helper (ok u) e = inr (record {
      permitted = (check_gates_iff allowed input).0 e;
      answered = rw (e, run) refl;
      stored =
          rw (e, run)
            (get-save_same (finished runner input draws)
              (save (running (base_execution input draws)) world.executions));
      terminal = derive_status-terminal _;
      ran_once = rw (e, run) refl;
    })
