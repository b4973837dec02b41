-- ===== src/Records.antt =====
-- include/primechain/protocol/records.hpp and src/protocol/records.cpp: the records of the chain,
-- their bytes, their hashes and the checks on them.
pub mod Types
pub mod Write
pub mod Serialize
pub mod Read
pub mod TransactionRead
pub mod TransactionDecode
pub mod RecordRead
pub mod RecordDecode
pub mod WellFormed
pub mod RoundTrip
pub mod Merkle
pub mod Addresses
