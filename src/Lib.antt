-- ===== src/Lib.antt =====
-- A model of the core of the factory (src/nokinc_factory) and the theorems about it.
--
-- The factory runs work items through human gates, has artifacts made by one model and reviewed by
-- another, and records every step so that it can be replayed. Its parts here are these.
--
-- Review: one artifact under the review protocol ARP-1. A session is a seed, a ledger of attempts
--   and the state to which the ledger replays. `reserve_invocation` appends a call, which holds its
--   budget, and `complete_invocation` settles it by its receipt and report; `evaluate` decides.
--   Review.Artifact, Report, Session and Reason are src/nokinc_factory/domain/review.py,
--   review_report.py and review_session.py; Review.Validators their pydantic validators;
--   Review.Rules, Findings, Reducer, Policy and Persistence are
--   src/nokinc_factory/policy/review_rules.py, review_findings.py, review_reducer.py, review.py and
--   review_persistence.py, function by function under the source's names. A call that raises
--   returns `err`, with the reason of a `ReviewViolation`. Eligibility, Reserve, Ledger,
--   Settlement, Budget, Accounts, Charges, Shape, Closure, Delivery, Extension and Continuity hold
--   the theorems.
-- Store: the tables that hold the sessions, their audit chain and the parent budgets of work items,
--   src/nokinc_factory/adapters/postgres_review_store.py, postgres_review_admin.py and
--   postgres_review_schema.py with src/nokinc_factory/domain/review_budget.py. Store.Tables has the
--   rows, Rows what is done to them, Swap the worker's operations and Admin the administrator's; a
--   call is one transaction, and an error leaves the tables as they were. A document stands for its
--   JSON, whose length and whose seed's digest are parameters. Reached is the tables that any
--   sequence of operations leads to.
-- Orchestration: the coordinator that reserves, dispatches and settles calls,
--   src/nokinc_factory/application/review.py and review_result.py. What is injected into it (store,
--   executor, observer, authorizer, clock, source of ids) answers freely, so a program is the tree of
--   its calls, and its runs are all the sequences of calls and replies.
-- Release: signed release and deployment evidence and the promotion check,
--   src/nokinc_factory/policy/release_signing.py and release_bundle.py with
--   src/nokinc_factory/domain/identity.py. Ed25519 and the JSON of a model are parameters, Python's
--   base64 is written out.
-- Impact: the classification of a diff and the evidence that it invalidates,
--   src/nokinc_factory/policy/impact.py. Regular expressions and shell patterns are parameters, and a
--   set is a list that is read by membership.
-- Lifecycle: the states of a work item and the check of a transition,
--   src/nokinc_factory/domain/states.py. A run is a sequence of accepted transitions.
-- Authorization: authorizations, approvals, the two-person check and the revalidation before
--   execution, src/nokinc_factory/domain/authorization.py.
-- Evidence: red and green test evidence, src/nokinc_factory/domain/gate_evidence.py and
--   src/nokinc_factory/policy/baseline.py.
-- Delivery: the outbox, the inbox, the work items and their events of
--   src/nokinc_factory/adapters/postgres_workflow_store.py, a table as the list of its rows and a
--   call as one transaction on it.
-- Pricing: the rate card, the estimate and the context limits of
--   src/nokinc_factory/application/model_pricing.py. Prices is the published list, a price per token
--   for each model, to which the estimate is compared.
-- Prelude holds what they share, and Tests the concrete runs.
--
-- Representation. Identifiers, digests and texts that are only compared are numbers, and a time is a
-- number of microseconds, which makes exact the comparisons that the source makes on the floats of
-- `total_seconds()`. A dict is an association list in insertion order. SHA-256 of canonical JSON and
-- pydantic's decoding are parameters (the record Review.Digests, and arguments elsewhere); no
-- theorem assumes anything of them but of the key pair of Release, whose signatures are accepted. No
-- definition uses fuel: every loop of the source is a recursion on the list that it walks or on the
-- number of its rounds.
--
-- Not modelled: the string patterns and size limits of fields; SQL itself, with locks and the
-- row-level security of the database, so a table changes by whole transactions; the transport to
-- providers, GitHub, AWS and OIDC; subprocesses and files; the web application, the agents and the
-- chat; model qualification, stories, preflight and mobile checks; the rationale that a
-- classification writes.
pub mod Prelude
pub mod Review
pub mod Lifecycle
pub mod Authorization
pub mod Evidence
pub mod Delivery
pub mod Pricing
pub mod Store
pub mod Orchestration
pub mod Release
pub mod Impact
pub mod Tests
