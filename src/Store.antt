-- ===== src/Store.antt =====
-- The durable store of review sessions and their parent budgets: the rows (Tables, Rows), the
-- worker's and the administrator's operations (Swap, Admin), what a commit writes (Commit), the
-- accounts (Sums, Accounts, Balance, Setup, Reached), concurrent writers and ceilings (Writers), and
-- the audit chain with its readers (Chain, Tips, Reading, Readers),
-- src/nokinc_factory/adapters/postgres_review_store.py, postgres_review_admin.py and
-- postgres_review_schema.py.
pub mod Tables
pub mod Rows
pub mod Swap
pub mod Admin
pub mod Sums
pub mod Accounts
pub mod Commit
pub mod Balance
pub mod Setup
pub mod Reached
pub mod Writers
pub mod Chain
pub mod Tips
pub mod Reading
pub mod Readers
