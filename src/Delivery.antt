-- ===== src/Delivery.antt =====
-- The tables of src/nokinc_factory/adapters/postgres_workflow_store.py: the rows and operations of the
-- outbox (Tables), its leases (Leases), its deduplication (Duplicates), the inbox (Inbox), the work
-- items with their events (Workflow), the numbers of a chain (Numbering), and the chains (Traces).
pub mod Tables
pub mod Leases
pub mod Duplicates
pub mod Inbox
pub mod Workflow
pub mod Numbering
pub mod Traces
