-- ===== src/Examples.antt =====
-- The theorems at concrete inputs.
pub mod Arithmetic
pub mod Wire
pub mod Consensus
pub mod Ledger
pub mod Node
pub mod Addresses
