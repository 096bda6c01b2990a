-- ===== src/Evidence.antt =====
-- Red and green test evidence, src/nokinc_factory/domain/gate_evidence.py and
-- src/nokinc_factory/policy/baseline.py: the data and its validators (Suites), the decisions
-- (Baseline), and what a passing decision establishes (Verdicts).
pub mod Suites
pub mod Baseline
pub mod Verdicts
