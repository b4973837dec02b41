-- ===== src/Finalization/Subject.antt =====
-- What subjectRecordHash of a prime record stands for: all of the record but its finalization.
use primechain.Base.{◌≡◌, refl, sym, ap, ◌∙◌, ◌↔◌, [], ◌++◌, append_assoc, true, arith}
use primechain.Base.Text.{Bytes, text}
use primechain.Base.Result.{ok}
use primechain.Crypto.{Crypto}
use primechain.Records.Types.{PrimeRecordV0, empty_finalization}
use primechain.Records.Write.{append_finalization_proof}
use primechain.Records.Serialize.{
  prime_sections, prime_metadata, serialize_prime_record, serialize_prime_record_internal,
  serialize_prime_record_without_finalization,
}
use primechain.Records.RecordDecode.{deserialize_prime_record}
use primechain.Records.WellFormed.{FitsFinalizationProof, FitsPrimeRecord}
use primechain.Records.RoundTrip.Whole.{deserialize-serialize_prime_record}
use primechain.Finalization.Hashes.Prime.{subject_record_hash}

-- The record that the hash is of: `subject.finalized_by = {}`.
abbrev pub subject_of : PrimeRecordV0 → PrimeRecordV0
subject_of r = record r { finalized_by = empty_finalization }

-- SHA3-256 tells two byte strings apart.
abbrev pub NoCollision : Crypto → Bytes → Bytes → Type 0
NoCollision crypto a b = crypto.sha3_256 a ≡ crypto.sha3_256 b → a ≡ b

prime_sections-tail :
    (r : PrimeRecordV0) (tail : Bytes) → prime_sections r tail ≡ prime_sections r [] ++ tail
unfolding prime_sections prime_metadata
prime_sections-tail r tail = simp (append_assoc)

empty_finalization-Fits : FitsFinalizationProof empty_finalization
unfolding text
empty_finalization-Fits = record {
  rule_fits = omega arith;
  round_change_count_fits = omega arith;
  round_changes_fit = tt;
  round_changes_absent = λ h. refl;
  vote_count_fits = omega arith;
  votes_fit = tt;
}

pub subject_of-Fits : (r : PrimeRecordV0) → FitsPrimeRecord r → FitsPrimeRecord (subject_of r)
subject_of-Fits r h = record {
  sections = record {
    version_fits = s.version_fits;
    batch_fits = s.batch_fits;
    transaction_count_fits = s.transaction_count_fits;
    transactions_fit = s.transactions_fit;
    epoch_fits = s.epoch_fits;
    epoch_absent = s.epoch_absent;
    endpoint_count_fits = s.endpoint_count_fits;
    endpoints_fit = s.endpoints_fit;
    endpoints_absent = s.endpoints_absent;
    policy_fits = s.policy_fits;
    policy_absent = s.policy_absent;
    application_count_fits = s.application_count_fits;
    applications_fit = s.applications_fit;
    applications_absent = s.applications_absent;
    work_binding_count_fits = s.work_binding_count_fits;
    work_bindings_fit = s.work_bindings_fit;
    work_bindings_absent = s.work_bindings_absent;
    finalization_fits = empty_finalization-Fits;
  };
  height_fits = h.height_fits;
  previous_record_hash_fits = h.previous_record_hash_fits;
  integer_fits = h.integer_fits;
  proof_fits = h.proof_fits;
  state_root_fits = h.state_root_fits;
  genesis_fits = h.genesis_fits;
  genesis_absent = h.genesis_absent;
}
  where
    open h use {sections as s}

-- The bytes without the finalization tell records with empty finalizations apart.
without_finalization-injective :
    (r r' : PrimeRecordV0)
    → FitsPrimeRecord r
    → FitsPrimeRecord r'
    → serialize_prime_record_without_finalization (subject_of r)
      ≡ serialize_prime_record_without_finalization (subject_of r')
    → subject_of r ≡ subject_of r'
unfolding serialize_prime_record_without_finalization serialize_prime_record
    serialize_prime_record_internal
without_finalization-injective r r' h h' same =
    let tail = append_finalization_proof empty_finalization true in
    let whole : serialize_prime_record (subject_of r) ≡ serialize_prime_record (subject_of r') =
      prime_sections-tail (subject_of r) tail
      ∙ ap (λ bytes. bytes ++ tail) same
      ∙ sym (prime_sections-tail (subject_of r') tail) in
    let read : ok (subject_of r) ≡ ok (subject_of r') =
      sym (deserialize-serialize_prime_record (subject_of r) (subject_of-Fits r h))
      ∙ ap deserialize_prime_record whole
      ∙ deserialize-serialize_prime_record (subject_of r') (subject_of-Fits r' h') in
    cc

-- Of two prime records within the wire format's bounds, whose hashed bytes SHA3-256 tells apart, the subject
-- hashes are equal exactly if the records agree in all but their finalizations.
pub subject_record_hash_iff :
    (crypto : Crypto) (r r' : PrimeRecordV0)
    → FitsPrimeRecord r
    → FitsPrimeRecord r'
    → NoCollision crypto
        (serialize_prime_record_without_finalization (subject_of r))
        (serialize_prime_record_without_finalization (subject_of r'))
    → (subject_record_hash crypto r ≡ subject_record_hash crypto r')
      ↔ (subject_of r ≡ subject_of r')
unfolding subject_record_hash
subject_record_hash_iff crypto r r' h h' apart = (
  λ same. without_finalization-injective r r' h h' (apart same),
  λ agree. ap (λ x. crypto.sha3_256 (serialize_prime_record_without_finalization x)) agree,
)
