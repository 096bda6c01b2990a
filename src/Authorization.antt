-- ===== src/Authorization.antt =====
-- Authorizations and human approvals, src/nokinc_factory/domain/authorization.py: the artefacts and
-- their checks (Checks), and what a check that passed establishes (Windows).
pub mod Checks
pub mod Windows
