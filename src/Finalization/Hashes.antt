-- ===== src/Finalization/Hashes.antt =====
-- The identity of each kind of record.
pub mod Composite
pub mod Prime
