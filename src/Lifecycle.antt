-- ===== src/Lifecycle.antt =====
-- The work item lifecycle, src/nokinc_factory/domain/states.py: the states and the check of a
-- transition (States), which transitions it accepts (Check), and what a run of accepted transitions
-- has passed (Runs).
pub mod States
pub mod Check
pub mod Runs
