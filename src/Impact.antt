-- ===== src/Impact.antt =====
-- The deterministic classification of a diff, policy/impact.py: its classes and the evidence that they
-- invalidate (Classes), its files (Changes), the classification (Classify), and what it promises
-- (Union).
pub mod Classes
pub mod Changes
pub mod Classify
pub mod Union
