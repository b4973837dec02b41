-- ===== src/Finalization/Hashes/Composite.antt =====
-- The identity of a composite record: subjectRecordHash, canonicalStoredRecordHash, candidateRecordHash
-- and finalizedRecordHash on CompositeRecordV0.
use primechain.Base.{◌≡◌, true, false, leb, if◌then◌else◌, ◌≤◌, arith}
use primechain.Base.Text.{Bytes}
use primechain.Crypto.{Crypto}
use primechain.Records.Types.{
  CompositeRecordV0, FinalizationProofV0, CompositeLotteryProofV1, empty_composite_lottery,
  empty_finalization,
}
use primechain.Records.Serialize.{
  serialize_composite_record, serialize_composite_record_internal,
  serialize_composite_record_without_finalization,
}
use primechain.Finalization.Identity.{uses_subject_record_identity}

module _ (crypto : Crypto) where
  open crypto use {sha3_256}

  unfoldable pub legacy_candidate_record_hash_without_finalization : CompositeRecordV0 → Bytes
  legacy_candidate_record_hash_without_finalization r =
      sha3_256 (serialize_composite_record_without_finalization r)

  unfoldable pub subject_record_hash : CompositeRecordV0 → Bytes
  subject_record_hash r = sha3_256 (
      serialize_composite_record_without_finalization (record r {
        composite_lottery = empty_composite_lottery;
        finalized_by = empty_finalization;
      }))

  unfoldable pub finalized_record_hash : CompositeRecordV0 → Bytes
  finalized_record_hash r = sha3_256 (serialize_composite_record r)

  unfoldable pub canonical_stored_record_hash : CompositeRecordV0 → Bytes
  canonical_stored_record_hash r =
      if uses_subject_record_identity r.version
      then subject_record_hash r
      else finalized_record_hash r

  unfoldable pub candidate_record_hash : CompositeRecordV0 → Bytes
  candidate_record_hash r =
      if uses_subject_record_identity r.version
      then subject_record_hash r
      else sha3_256 (serialize_composite_record_internal r false)

  -- From version 11 on, a composite record's stored hash is the hash its validators vote on, and
  -- neither its finalization proof nor its lottery proof changes it.
  pub composite_hash-finalization_independent :
      (r : CompositeRecordV0) (f : FinalizationProofV0) (l : CompositeLotteryProofV1)
      → 11 ≤ r.version
      → (canonical_stored_record_hash (record r { composite_lottery = l; finalized_by = f })
          ≡ canonical_stored_record_hash r)
        × (canonical_stored_record_hash r ≡ candidate_record_hash r)
  unfolding canonical_stored_record_hash candidate_record_hash subject_record_hash
      uses_subject_record_identity
  composite_hash-finalization_independent r f l h =
      let later : leb 11 r.version ≡ true = ground arith in (rw (later), rw (later))
