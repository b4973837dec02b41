-- ===== src/Finalization.antt =====
-- The quorum of src/core/consensus.cpp, and the record hashes, verifyRoundChangeCertificate,
-- verifyRecordFinalization and verifyValidatorEpochTransition of src/protocol/records.cpp.
pub mod Quorum
pub mod Identity
pub mod Hashes
pub mod Subject
pub mod Development
pub mod Locks
pub mod RoundChange
pub mod Verify
pub mod Votes
pub mod Safety
pub mod Epoch
pub mod EpochVotes
