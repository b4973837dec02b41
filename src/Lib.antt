-- ===== src/Lib.antt =====
-- primechain: numbers in order, each proved prime or composite, with records that validators finalize.
--
-- Math models src/math/number_theory.cpp: isPrime and nextPrimeAfter (Prime), CompositeProof
-- with makeCompositeProof and verifyCompositeProof (Composite), mulMod and powMod (Modular), gcd
-- (Gcd), canonical factorisations with factorizeFromProofIndex (Factorization), and
-- verifyPrattProof (Pratt). A record's proof is of this arithmetic.
-- Codec models the ByteReader and the append functions of src/protocol/records.cpp; Records the
-- structs of include/primechain/protocol/records.hpp and their bytes: Types, Write and Serialize,
-- Read, RecordRead and the two Decode modules, with the round trips under RoundTrip; Merkle has the
-- transaction roots, and Addresses the addresses of pools, reserves and development keys.
-- Crypto models the addresses and signing payloads of src/crypto/signature.cpp and the hashes of
-- src/crypto/hash.cpp; Metadata and Packed have the payloads of metadata and the packed proofs.
-- SHA3-256 (OpenSSL) and ML-DSA-65 (mldsa-native) are another project's code: the functions of the
-- record Crypto, of which nothing is assumed.
-- Finalization models the quorum of src/core/consensus.cpp and, of src/protocol/records.cpp, the
-- record hashes (Hashes), verifyRoundChangeCertificate (RoundChange), the highest lock (Locks),
-- verifyDevelopmentFinalization (Development) and verifyRecordFinalization (Verify), and
-- verifyValidatorEpochTransition (Epoch); Subject is about subjectRecordHash of prime records.
-- Finalization reads the candidates that round changes carry with the decoders of Records and checks
-- signatures with Crypto.
-- Governance models the other checks of src/protocol/records.cpp on a record: commit-phase
-- certificates (Commit), the composite lottery (Lottery), the genesis configuration, endpoint
-- updates, applications and work bindings (Metadata) and economic policies (Policy).
-- Node models src/node/sequential_node.cpp. Ledger has balances_, total_supply_, account_nonces_ and
-- pending_composite_providers_ with credit and debit; Settings the other members that the ledger
-- reads; Shapes and Transactions applyTransactions, Rewards applyCompositeLedger and applyPrimeLedger,
-- Metadata and Candidates validateCompositeCandidate and validatePrimeCandidate, State the node's
-- members, and Append appendComposite and appendPrime. A member function that fails leaves what it had
-- written, so a step returns the state beside its result; the callers' restores are definitions of
-- their own. What RecordStore::append returns is an argument of Append. A std::map is a sorted list of
-- entries (Base.Dict). Examples runs the parts at concrete inputs.
--
-- A uint64 is a natural number whose wrap-around is written out where it can happen; a byte vector, a
-- string and a Hash256 are lists of numbers. A bool result with a `std::string& error` is a Result
-- with the same message; the caller's own message stands where the source drops the callee's.
-- Loops are structural recursion or run on fuel: trial division and the divisor search have the
-- number itself as fuel, which the divisor never passes; mulMod and powMod have 64 rounds for the 64
-- bits; the search for the next prime has 2 ^ 64 rounds; factorisation has the number, which each
-- proof's factors are below; a Merkle tree has the number of its leaves. gcd runs on the order of
-- the numbers.
--
-- Not modelled: the server, the miners, the wallet and the tools (sockets, threads, files and command
-- lines), the files under src/storage, of src/node/sequential_node.cpp the genesis, the loading and
-- replay of stored records and the snapshots, makePrattProof, the block engine of
-- src/core/consensus.cpp, and key generation and signing, which only call libraries.
pub mod Base
pub mod Math
pub mod Codec
pub mod Records
pub mod Crypto
pub mod Finalization
pub mod Governance
pub mod Node
pub mod Examples
