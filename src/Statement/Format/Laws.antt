-- ===== src/Statement/Format/Laws.antt =====
-- Proofs on the format `ids`.
pub mod Identity
