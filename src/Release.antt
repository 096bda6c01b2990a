-- ===== src/Release.antt =====
-- Signed release and deployment evidence: its text encoding (Base64, Signing), its fields (Identity),
-- the promotion check (Promotion), and what holds of them (Roundtrip, Signed).
pub mod Base64
pub mod Roundtrip
pub mod Identity
pub mod Signing
pub mod Promotion
pub mod Signed
