-- ===== src/Governance.antt =====
-- The checks of src/protocol/records.cpp on the metadata of a record: the commit phase, the lottery,
-- the genesis configuration, endpoints, the economic policy, work bindings and applications.
pub mod Commit
pub mod Lottery
pub mod Metadata
pub mod Policy
