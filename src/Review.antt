-- ===== src/Review.antt =====
-- The review protocol: the data (Artifact, Reason, Report, Session), what is taken from outside
-- (Digests), the operations (Validators, Rules, Findings, Reducer, Policy, Persistence), and the
-- proofs about them, src/nokinc_factory/domain/review*.py and src/nokinc_factory/policy/review*.py.
pub mod Artifact
pub mod Reason
pub mod Report
pub mod Session
pub mod Digests
pub mod Validators
pub mod Rules
pub mod Findings
pub mod Reducer
pub mod Policy
pub mod Persistence
pub mod Reserve
pub mod Ledger
pub mod Eligibility
pub mod Settlement
pub mod Budget
pub mod Accounts
pub mod Charges
pub mod Shape
pub mod Closure
pub mod Delivery
pub mod Extension
pub mod Continuity
