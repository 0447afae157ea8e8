-- ===== src/Lib.antt =====
-- The verification library of chunsik-bot, an assistant that runs tasks with several AI providers
-- under approval and audit. It models the decision logic of packages/core and the guarded tables
-- of packages/storage-sqlite.
--
-- The program routes each request to one of several AI providers. A policy engine
-- (packages/core/src/application/routing-policy-engine.ts) chooses among the registered providers:
-- Routing/Policy has the predicates and the ranking, Routing/Policy/Rules the validation of a
-- policy, Routing/Policy/Canonical the value that is digested, and Routing/Policy/Engine the
-- constructor (`new_engine`) and `select`. A state machine (routing-execution-state.ts,
-- Routing/Machine) admits the steps of one execution and records them. Failures are classified by
-- a matrix (runtime-response-validation-contracts.ts and routing-failure-classifier.ts,
-- Routing/Failure). The enumerations and records are those of provider-routing-contracts.ts
-- (Routing/Contracts) and of packages/core/src/domain (Domain).
--
-- The gateway (provider-routing-gateway.ts) executes a plan: Routing/Plan has the plan with its
-- digests and the bindings (provider-execution-plan.ts, provider-binding-registry.ts),
-- Routing/Bindings the constructor of the registry of bindings, Routing/Gateway the records,
-- Gateway/Checks the validation of the plan, Gateway/Execution one attempt and `finish`,
-- Gateway/Inputs what an answer is validated against, Gateway/Hops and Gateway/Loop one round of
-- the loop, and Gateway/Run the preflight, the loop and `execute`. The providers and the clock are
-- the environment, two functions of a hidden state, so an answer may depend on all that was called
-- before; a provider answers, throws an error of a kind, or throws something else. The list of
-- calls in the state is not in the program: it is there to count them. The validator is an
-- interface with the law that what it accepts has a projection. Times of the clock are whole
-- nanoseconds, as its source has them, and budgets whole milliseconds. The loop runs on fuel 3,
-- one more than MAX_PROVIDER_ATTEMPTS.
--
-- The validator (runtime-response-validator.ts) is Routing/Response: Response/Words has the words
-- of a text, Response/Recency and Response/Scans the rules with their patterns, and
-- Response/Validator `validate` and the projection, with Validator/Sizes on the measured size of
-- an answer; Response/Accepted fills the gateway's interface with it. The tables of Unicode
-- (normalisation, lower case, letters) and the text of a time are parameters. Routing/Profile is
-- validation-profile-registry.ts, the rules that a profile asks for. Routing/Planner has the
-- checks of the targets of a plan, and Planner/Create `ProviderExecutionPlanner.create`, which
-- makes of a selection the plan that the gateway executes.
--
-- Base has what the components share: Boolean tests, JavaScript's list methods, a stable sort, the
-- result of code that throws, JSON texts (their sizes in Base/Json/Sizes) and the regular
-- expressions of identifiers. The hash function and the collation of the platform are a parameter
-- (Base/Platform), with what the code relies on as named hypotheses. Enumerations are data types,
-- so a check that a text is one of an enumeration falls away, and counts are natural numbers, so
-- one that a count is a whole number from 0 on falls away too; `Object.freeze` and copies change
-- no value. The times of records are milliseconds.
--
-- What the program may do passes the gates of Governance. Governance/Risk is risk-policy.ts, with
-- the command patterns as regular expressions that are run (Base/Regex). Governance/Approval is
-- approval-manager.ts with approval-policy.ts. Governance/Command is command-execution-manager.ts,
-- whose runner (ports/command-runner.port.ts) is a parameter that answers or throws.
-- Governance/Receipt is execution-receipt-manager.ts; its recording is split at the point where
-- another recorder can come between the read and the insert. Governance/Task is the status machine
-- of task-manager.ts. The tables of packages/storage-sqlite/src/index.ts are lists of rows
-- (Storage); the errors of the database other than a violated constraint are not modelled. The ids
-- of `newId()` and the times of `now()` are arguments of the operations that draw them, and where
-- a theorem needs an id to be new it says so.
--
-- What the program changes outside is Delivery: Delivery/Git is git-manager.ts with the names that
-- may reach git (push-target.ts, commit-message.ts, Delivery/Names), Delivery/Hosting is
-- repository-hosting-manager.ts with domain/repository-hosting.ts. Their code is in the monad of
-- Base/Effect: it throws, and it calls a provider, which answers as a function of the calls and
-- answers before; the calls with their answers are recorded, the latest first, in a list that is
-- not in the program. Base/Effect/Steps has the rules by which a run is followed step by step. The
-- adapters that call git and the GitHub API are not modelled, and nothing is assumed of them.
--
-- The runs that continue a handed-over piece of work are Continuation. Continuation/Evidence is
-- core/src/application/continuation-containment-validation.ts with containment-binding-digest.ts
-- and core/src/ports/continuation-containment-audit.ts (under packages/): the evidence that a run
-- was contained, its projection from plain data (Evidence/Snapshot) and its comparisons
-- (Evidence/Audit). Continuation/Tables has the tables with the triggers and indexes of storage-
-- sqlite/src/migrations.ts, Continuation/Runs and Runs/Contained the methods of
-- SqliteTaskRunRepository in storage-sqlite/src/index.ts, Continuation/Admission continuation-
-- binding-repository.ts, and Continuation/Documents the rows as they are compared. Each method is
-- one transaction on the tables, which throws and is rolled back or commits; the driver may fail
-- to begin it. Continuation/Calls is sequences of such calls, with writes of other code to the
-- other tables between them. Continuation/Ledger is the abstract account of the runs that the
-- methods implement, and Ledger/Ordinals has the ordinals of the runs of a task.
--
-- The other loops are structural recursion on lists or texts; for the digits of a number in JSON
-- the counter is the number itself. Not modelled: the registration of providers and the services
-- that call the planner and the gateway, the life of a handoff before its admission, the
-- preparation of a containment, proposals and patches, and the deterministic planner, which are
-- left for later; the conversation runtime, the prompts, the connectors, the command-line tools,
-- and what is pure input and output.
pub mod Base
pub mod Continuation
pub mod Delivery
pub mod Domain
pub mod Governance
pub mod Routing
pub mod Samples
pub mod Storage
