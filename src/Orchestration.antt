-- ===== src/Orchestration.antt =====
-- The coordinator of src/nokinc_factory/application/review.py: its calls (Programs), what an execution
-- returns (Returns), its steps (Steps), and what holds of every sequence of its calls (Guards, Counts)
-- and of what it keeps of a result (Outputs).
pub mod Programs
pub mod Returns
pub mod Steps
pub mod Guards
pub mod Counts
pub mod Outputs
