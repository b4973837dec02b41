-- ===== src/Node.antt =====
-- src/node/sequential_node.cpp: the replayed state of the chain and its ledger.
pub mod Append
pub mod Candidates
pub mod Ledger
pub mod Metadata
pub mod Rewards
pub mod Settings
pub mod State
pub mod Shapes
pub mod Transactions
