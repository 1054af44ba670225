-- ===== src/Programs.antt =====
-- The programs under cmd/: how they start the parts, and how they end.
pub mod Host
pub mod Full
pub mod Rest
pub mod Releases
pub mod Race
