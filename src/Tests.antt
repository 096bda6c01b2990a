-- ===== src/Tests.antt =====
-- Concrete runs of the modelled operations, and the theorems applied to them.
pub mod Unit
mod Runs
mod Review
mod Lifecycle
mod Authorization
mod Evidence
mod Delivery
mod Pricing
mod Store
mod Orchestration
mod Release
mod Impact
