-- ===== src/Finalization/Hashes/Prime.antt =====
-- The identity of a prime record: subjectRecordHash, canonicalStoredRecordHash, candidateRecordHash
-- and finalizedRecordHash on PrimeRecordV0.
use primechain.Base.{false, if◌then◌else◌}
use primechain.Base.Text.{Bytes}
use primechain.Crypto.{Crypto}
use primechain.Records.Types.{PrimeRecordV0, empty_finalization}
use primechain.Records.Serialize.{
  serialize_prime_record, serialize_prime_record_internal,
  serialize_prime_record_without_finalization,
}
use primechain.Finalization.Identity.{uses_subject_record_identity}

module _ (crypto : Crypto) where
  open crypto use {sha3_256}

  unfoldable pub legacy_candidate_record_hash_without_finalization : PrimeRecordV0 → Bytes
  legacy_candidate_record_hash_without_finalization r =
      sha3_256 (serialize_prime_record_without_finalization r)

  unfoldable pub subject_record_hash : PrimeRecordV0 → Bytes
  subject_record_hash r =
      sha3_256 (
        serialize_prime_record_without_finalization
          (record r { finalized_by = empty_finalization }))

  unfoldable pub finalized_record_hash : PrimeRecordV0 → Bytes
  finalized_record_hash r = sha3_256 (serialize_prime_record r)

  unfoldable pub canonical_stored_record_hash : PrimeRecordV0 → Bytes
  canonical_stored_record_hash r =
      if uses_subject_record_identity r.version
      then subject_record_hash r
      else finalized_record_hash r

  unfoldable pub candidate_record_hash : PrimeRecordV0 → Bytes
  candidate_record_hash r =
      if uses_subject_record_identity r.version
      then subject_record_hash r
      else sha3_256 (serialize_prime_record_internal r false)
