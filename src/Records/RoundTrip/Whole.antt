-- ===== src/Records/RoundTrip/Whole.antt =====
-- Composite and prime records come back from their bytes, at every record version.
use Prim.Native.String.{String}
use primechain.Base.{
  ℕ, ◌^◌, ◌<◌, ◌≡◌, refl, true, false, inl, inr, some, List, [], ◌++◌, leb, ltb, ◌==◌, arith,
  append-nil, Bool-cases,
}
use primechain.Base.Text.{Bytes}
use primechain.Base.Result.{ok}
use primechain.Codec.{Reader, ◌>>=◌, pure, consumed, append_if, append_uint64, append_hash}
use primechain.Codec.Reads.{
  Reads, bind-Reads, last-Reads, read_uint64-Reads, read_hash-Reads, read_if-Reads,
}
use primechain.Codec.Stage
use primechain.Codec.Stage.{Parse, stage, finish}
use primechain.Records.Types.{
  TransactionBatchV0, TransactionV0, ValidatorEpochTransitionV1, FinalizationProofV0,
  ValidatorEndpointUpdateV1, CompositeRecordV0, PrimeRecordV0, empty_commit_phase,
  empty_validator_epoch, empty_economic_policy, empty_composite_lottery, empty_genesis_config,
}
use primechain.Records.WellFormed.{FitsSections, FitsCompositeRecord, FitsPrimeRecord}
use primechain.Records.Write.{
  append_finalization_proof, append_validator_endpoint_updates, append_economic_policy_update,
  append_validator_applications, append_validator_work_bindings, append_composite_lottery_proof,
  append_composite_proof, append_pratt_proof, append_transaction_batch, append_transaction_list,
  append_commit_phase_certificate, append_validator_epoch_transition, append_genesis_config,
  composite_record_tag, prime_record_tag,
}
use primechain.Records.Serialize.{
  has_commit_phase, composite_metadata, composite_sections, serialize_composite_record_internal,
  serialize_composite_record, prime_metadata, prime_sections, serialize_prime_record_internal,
  serialize_prime_record,
}
use primechain.Records.Read.{
  read_commit_phase_certificate, read_validator_epoch_transition, read_genesis_config,
  read_validator_applications, read_validator_work_bindings,
}
use primechain.Records.RecordRead.{
  Metadata, LotteryMetadata, read_finalization_only, read_with_endpoints, read_endpoints_or_not,
  read_metadata_sections, read_optional_metadata_and_finalization, read_lottery_metadata,
  read_plain_metadata, read_composite_metadata, read_composite_payload, to_the_end,
  read_prime_payload,
}
use primechain.Records.RecordDecode.{
  read_tag, deserialize_composite_record, deserialize_prime_record,
}
use primechain.Records.RoundTrip.{
  read_composite_proof-Reads, read_pratt_proof-Reads, read_transaction_batch-Reads,
  read_commit_phase_certificate-Reads, read_validator_epoch_transition-Reads,
  read_genesis_config-Reads, read_finalization_proof-Reads, read_validator_endpoint_updates-Reads,
  read_economic_policy_update-Reads, read_validator_applications-Reads,
  read_validator_work_bindings-Reads, read_composite_lottery_proof-Reads,
}
use primechain.Records.RoundTrip.Transactions.{read_transaction_list-Reads}

-- `p` reads exactly these bytes and leaves none.
record Consumes {ℓ} {A : Type ℓ} (p : Reader A) (bytes : Bytes) (a : A) : Type ℓ where
  run : p bytes ≡ some (a, [])

all-Consumes {ℓ} :
    {A : Type ℓ} {p : Reader A} {bytes : Bytes} {a : A} → Reads p bytes a → Consumes p bytes a
all-Consumes {bytes} h = record { run = rw append-nil at (h.run []) }

bind-Consumes {ℓ κ} :
    {A : Type ℓ} {B : Type κ} {p : Reader A} (f : A → Reader B) {first second : Bytes} {a : A}
    {b : B}
    → Reads p first a
    → Consumes (f a) second b
    → Consumes (p >>= f) (first ++ second) b
unfolding ◌>>=◌
bind-Consumes f {second} h k = record { run = rw (h.run second, ◌>>=◌) k.run }

last-Consumes {ℓ κ} :
    {A : Type ℓ} {B : Type κ} {p : Reader A} {bytes : Bytes} {a : A} (f : A → B)
    → Consumes p bytes a
    → Consumes (p >>= λ x. pure (f x)) bytes (f a)
unfolding ◌>>=◌ pure
last-Consumes f h = record { run = rw (h.run, ◌>>=◌) refl }

-- The bytes from the endpoints on; `lottery` stands in front of the finalization.
tail_bytes : ℕ → Metadata → Bytes → Bytes
tail_bytes version m lottery =
    append_if (leb 3 version) (append_validator_endpoint_updates m.endpoints)
    ++ (append_if (leb 4 version) (append_economic_policy_update m.policy version)
        ++ (append_if (leb 5 version) (append_validator_applications m.applications)
            ++ (append_if (leb 6 version) (append_validator_work_bindings m.work_bindings)
                ++ (lottery ++ append_finalization_proof m.finalization true))))

abbrev FitsMetadata :
    ℕ → Metadata → TransactionBatchV0 → List TransactionV0 → ValidatorEpochTransitionV1 → Type 0
FitsMetadata version m batch transactions epoch =
    FitsSections version batch transactions epoch m.endpoints m.policy m.applications
      m.work_bindings m.finalization

with_endpoints : List ValidatorEndpointUpdateV1 → FinalizationProofV0 → Metadata
with_endpoints endpoints finalization = record {
  endpoints = endpoints;
  policy = empty_economic_policy;
  applications = [];
  work_bindings = [];
  finalization = finalization;
}

module _ {version : ℕ} {batch : TransactionBatchV0} {transactions : List TransactionV0}
    {epoch : ValidatorEpochTransitionV1} {m : Metadata}
    (h : FitsMetadata version m batch transactions epoch) where
  finalization_only-Reads :
      ltb version 3 ≡ true
      → Reads read_finalization_only (append_finalization_proof m.finalization true) m
  unfolding read_finalization_only with_endpoints
  finalization_only-Reads low =
      let same : with_endpoints [] m.finalization ≡ m = ground (
        arith,
        h.endpoints_absent (ground arith),
        h.policy_absent (ground arith),
        h.applications_absent (ground arith),
        h.work_bindings_absent (ground arith),
      ) in
      rw same at (
        last-Reads (with_endpoints [])
          (read_finalization_proof-Reads m.finalization h.finalization_fits))

  with_endpoints-Reads :
      leb 4 version ≡ false
      → Reads read_with_endpoints
          (append_validator_endpoint_updates m.endpoints
            ++ append_finalization_proof m.finalization true)
          m
  unfolding read_with_endpoints with_endpoints
  with_endpoints-Reads low =
      let same : with_endpoints m.endpoints m.finalization ≡ m = ground (
        arith,
        h.policy_absent low,
        h.applications_absent (ground arith),
        h.work_bindings_absent (ground arith),
      ) in
      let plain : Reads read_with_endpoints
          (append_validator_endpoint_updates m.endpoints
            ++ append_finalization_proof m.finalization true)
          (with_endpoints m.endpoints m.finalization) =
        bind-Reads _
          (read_validator_endpoint_updates-Reads m.endpoints h.endpoint_count_fits h.endpoints_fit)
          (last-Reads (with_endpoints m.endpoints)
            (read_finalization_proof-Reads m.finalization h.finalization_fits)) in
      rw same at plain

  sections-Reads :
      Reads
        (read_metadata_sections version)
        (append_validator_endpoint_updates m.endpoints
          ++ (append_economic_policy_update m.policy version
              ++ (append_if (leb 5 version) (append_validator_applications m.applications)
                  ++ (append_if (leb 6 version) (append_validator_work_bindings m.work_bindings)
                      ++ append_finalization_proof m.finalization true))))
        m
  unfolding read_metadata_sections
  sections-Reads =
      bind-Reads _
        (read_validator_endpoint_updates-Reads m.endpoints h.endpoint_count_fits h.endpoints_fit)
        (bind-Reads _ (read_economic_policy_update-Reads version m.policy h.policy_fits) (
          bind-Reads _
            (read_if-Reads _ read_validator_applications [] _ m.applications
              (λ _.
                read_validator_applications-Reads m.applications h.application_count_fits
                  h.applications_fit)
              h.applications_absent)
            (bind-Reads _
              (read_if-Reads _ read_validator_work_bindings [] _ m.work_bindings
                (λ _.
                  read_validator_work_bindings-Reads m.work_bindings h.work_binding_count_fits
                    h.work_bindings_fit)
                h.work_bindings_absent)
              (last-Reads _ (read_finalization_proof-Reads m.finalization h.finalization_fits)))))

  -- At version 3 the attempt with endpoints reaches the end, so it is taken.
  optional-Consumes :
      Consumes (read_optional_metadata_and_finalization version) (tail_bytes version m []) m
  unfolding read_optional_metadata_and_finalization tail_bytes append_if read_endpoints_or_not
      consumed
  optional-Consumes = elim (Bool-cases (ltb version 3)) [
    | inl low ↦
        let three : leb 3 version ≡ false = ground arith in
        let four : leb 4 version ≡ false = ground arith in
        let five : leb 5 version ≡ false = ground arith in
        let six : leb 6 version ≡ false = ground arith in
        rw (low, three, four, five, six) (all-Consumes (finalization_only-Reads low))
    | inr high ↦ elim (Bool-cases (leb 4 version)) [
      | inl four ↦
          let three : leb 3 version ≡ true = ground arith in
          rw (high, three, four) (all-Consumes (unfold append_if in sections-Reads))
      | inr four ↦
          let three : leb 3 version ≡ true = ground arith in
          let five : leb 5 version ≡ false = ground arith in
          let six : leb 6 version ≡ false = ground arith in
          rw (high, three, four, five, six)
            (record {
              run = rw ((all-Consumes (with_endpoints-Reads four)).run, read_endpoints_or_not) refl;
            })
    ]
  ]

metadata_of_composite : CompositeRecordV0 → Metadata
metadata_of_composite r = record {
  endpoints = r.validator_endpoints;
  policy = r.economic_policy;
  applications = r.validator_applications;
  work_bindings = r.validator_work_bindings;
  finalization = r.finalized_by;
}

metadata_of_prime : PrimeRecordV0 → Metadata
metadata_of_prime r = record {
  endpoints = r.validator_endpoints;
  policy = r.economic_policy;
  applications = r.validator_applications;
  work_bindings = r.validator_work_bindings;
  finalization = r.finalized_by;
}

lottery_bytes : CompositeRecordV0 → Bytes
lottery_bytes r = append_if (leb 10 r.version) (append_composite_lottery_proof r.composite_lottery)

lottery_of : CompositeRecordV0 → LotteryMetadata
lottery_of r = record { metadata = metadata_of_composite r; lottery = r.composite_lottery }

with_no_lottery : Metadata → LotteryMetadata
with_no_lottery m = record { metadata = m; lottery = empty_composite_lottery }

-- The bytes of a composite record behind its tag.
payload_bytes : CompositeRecordV0 → Bytes
payload_bytes r =
    append_uint64 r.version
    ++ (append_uint64 r.height
        ++ (append_hash r.previous_record_hash
            ++ (append_uint64 r.integer
                ++ (append_composite_proof r.proof
                    ++ (append_transaction_batch r.tx_batch
                        ++ (append_transaction_list r.transactions
                            ++ (append_hash r.state_root
                                ++ (append_if (has_commit_phase r.version)
                                      (append_commit_phase_certificate r.commit_phase)
                                    ++ (append_if (leb 2 r.version) (
                                          append_validator_epoch_transition r.validator_epoch
                                            r.version)
                                        ++ tail_bytes r.version (metadata_of_composite r)
                                            (lottery_bytes r))))))))))

lottery_sections-Reads :
    (r : CompositeRecordV0)
    → FitsCompositeRecord r
    → Reads
        (read_lottery_metadata r.version)
        (append_validator_endpoint_updates r.validator_endpoints
          ++ (append_economic_policy_update r.economic_policy r.version
              ++ (append_validator_applications r.validator_applications
                  ++ (append_validator_work_bindings r.validator_work_bindings
                      ++ (append_composite_lottery_proof r.composite_lottery
                          ++ append_finalization_proof r.finalized_by true)))))
        (lottery_of r)
unfolding read_lottery_metadata lottery_of metadata_of_composite
lottery_sections-Reads r h =
    bind-Reads _
      (read_validator_endpoint_updates-Reads r.validator_endpoints s.endpoint_count_fits
        s.endpoints_fit)
      (bind-Reads _ (read_economic_policy_update-Reads r.version r.economic_policy s.policy_fits) (
        bind-Reads _
          (read_validator_applications-Reads r.validator_applications s.application_count_fits
            s.applications_fit)
          (bind-Reads _
            (read_validator_work_bindings-Reads r.validator_work_bindings s.work_binding_count_fits
              s.work_bindings_fit)
            (bind-Reads _ (read_composite_lottery_proof-Reads r.composite_lottery h.lottery_fits)
              (last-Reads _ (read_finalization_proof-Reads r.finalized_by s.finalization_fits))))))
  where
    open h use {sections as s}

lottery_metadata-Consumes :
    (r : CompositeRecordV0)
    → FitsCompositeRecord r
    → Consumes
        (read_composite_metadata r.version)
        (tail_bytes r.version (metadata_of_composite r) (lottery_bytes r))
        (lottery_of r)
unfolding read_composite_metadata read_plain_metadata lottery_bytes append_if tail_bytes
    metadata_of_composite with_no_lottery
lottery_metadata-Consumes r h = elim (Bool-cases (leb 10 r.version)) [
  | inl ten ↦
      let three : leb 3 r.version ≡ true = ground arith in
      let four : leb 4 r.version ≡ true = ground arith in
      let five : leb 5 r.version ≡ true = ground arith in
      let six : leb 6 r.version ≡ true = ground arith in
      rw (ten, three, four, five, six) (all-Consumes (lottery_sections-Reads r h))
  | inr before ↦
      let same : record { metadata = metadata_of_composite r; lottery = empty_composite_lottery }
          ≡ lottery_of r =
        unfold lottery_of in ground (arith, h.lottery_absent before) in
      rw before (rw same at (last-Consumes with_no_lottery (optional-Consumes h.sections)))
]

composite_payload-Consumes :
    (r : CompositeRecordV0)
    → FitsCompositeRecord r
    → Consumes read_composite_payload (payload_bytes r) r
unfolding read_composite_payload payload_bytes lottery_of metadata_of_composite
composite_payload-Consumes r h = bind-Consumes _ (read_uint64-Reads r.version s.version_fits) (
    bind-Consumes _ (read_uint64-Reads r.height h.height_fits) (
      bind-Consumes _ (read_hash-Reads r.previous_record_hash h.previous_record_hash_fits) (
        bind-Consumes _ (read_uint64-Reads r.integer h.integer_fits) (
          bind-Consumes _ (read_composite_proof-Reads r.proof h.proof_fits) (
            bind-Consumes _ (read_transaction_batch-Reads r.tx_batch s.batch_fits) (
              bind-Consumes _
                (read_transaction_list-Reads r.transactions s.transaction_count_fits
                  s.transactions_fit)
                (bind-Consumes _ (read_hash-Reads r.state_root h.state_root_fits) (
                  bind-Consumes _
                    (read_if-Reads _ read_commit_phase_certificate empty_commit_phase _
                      r.commit_phase
                      (λ _. read_commit_phase_certificate-Reads r.commit_phase h.commit_phase_fits)
                      h.commit_phase_absent)
                    (bind-Consumes _
                      (read_if-Reads _ (read_validator_epoch_transition r.version)
                        empty_validator_epoch _ r.validator_epoch
                        (λ _.
                          read_validator_epoch_transition-Reads r.version r.validator_epoch
                            s.epoch_fits)
                        s.epoch_absent)
                      (last-Consumes _ (lottery_metadata-Consumes r h)))))))))))
  where
    open h use {sections as s}

read_tag-append :
    (tag : ℕ) (bytes : Bytes)
    → tag < 2 ^ 64
    → read_tag tag (append_uint64 tag ++ bytes) ≡ some (tag, bytes)
unfolding read_tag ◌>>=◌ pure
read_tag-append tag bytes small = rw ((read_uint64-Reads tag small).run bytes, ◌>>=◌) (ground arith)

-- A payload behind its tag, read to its end, is the result.
tagged {ℓ} :
    {A : Type ℓ} (tag : ℕ) (a e x : String) (p : Reader A) {bytes : Bytes} {value : A}
    → tag < 2 ^ 64
    → Consumes p bytes value
    → finish x (Stage.◌>>=◌ (stage a (read_tag tag)) (λ _. stage e p)) (append_uint64 tag ++ bytes)
      ≡ ok value
unfolding finish Stage.◌>>=◌ stage consumed
tagged tag a e x p {bytes} small h =
    rw (read_tag-append tag bytes small, finish, Stage.◌>>=◌, stage) (rw (h.run, stage) refl)

-- The bytes of a whole composite record are its tag and its payload.
serialize-payload :
    (r : CompositeRecordV0)
    → serialize_composite_record r ≡ append_uint64 composite_record_tag ++ payload_bytes r
unfolding serialize_composite_record serialize_composite_record_internal composite_sections
    composite_metadata payload_bytes tail_bytes metadata_of_composite lottery_bytes
serialize-payload r = refl

-- A composite record of any version, whose numbers are uint64s, whose hashes have 32 bytes, whose lists
-- keep the reader's limits, and whose sections that its version leaves out hold their defaults, is decoded
-- from its bytes, finalization included.
pub deserialize-serialize_composite_record :
    (r : CompositeRecordV0)
    → FitsCompositeRecord r
    → deserialize_composite_record (serialize_composite_record r) ≡ ok r
unfolding deserialize_composite_record
deserialize-serialize_composite_record r h = rw (serialize-payload r) (
    tagged composite_record_tag "invalid composite record tag" "truncated composite record payload"
      "trailing bytes in composite record payload" read_composite_payload (omega arith)
      (composite_payload-Consumes r h))

prime_payload_bytes : PrimeRecordV0 → Bytes
prime_payload_bytes r =
    append_uint64 r.version
    ++ (append_uint64 r.height
        ++ (append_hash r.previous_record_hash
            ++ (append_uint64 r.integer
                ++ (append_pratt_proof r.proof
                    ++ (append_transaction_batch r.tx_batch
                        ++ (append_transaction_list r.transactions
                            ++ (append_hash r.state_root
                                ++ (append_if (r.height == 0)
                                      (append_genesis_config r.genesis_config r.version)
                                    ++ (append_if (leb 2 r.version) (
                                          append_validator_epoch_transition r.validator_epoch
                                            r.version)
                                        ++ tail_bytes r.version (metadata_of_prime r) [])))))))))

prime_payload-Consumes :
    (r : PrimeRecordV0) → FitsPrimeRecord r → Consumes read_prime_payload (prime_payload_bytes r) r
unfolding read_prime_payload prime_payload_bytes metadata_of_prime
prime_payload-Consumes r h = bind-Consumes _ (read_uint64-Reads r.version s.version_fits) (
    bind-Consumes _ (read_uint64-Reads r.height h.height_fits) (
      bind-Consumes _ (read_hash-Reads r.previous_record_hash h.previous_record_hash_fits) (
        bind-Consumes _ (read_uint64-Reads r.integer h.integer_fits) (
          bind-Consumes _ (read_pratt_proof-Reads r.proof h.proof_fits) (
            bind-Consumes _ (read_transaction_batch-Reads r.tx_batch s.batch_fits) (
              bind-Consumes _
                (read_transaction_list-Reads r.transactions s.transaction_count_fits
                  s.transactions_fit)
                (bind-Consumes _ (read_hash-Reads r.state_root h.state_root_fits) (
                  bind-Consumes _
                    (read_if-Reads _ (read_genesis_config r.version) empty_genesis_config _
                      r.genesis_config
                      (λ _. read_genesis_config-Reads r.version r.genesis_config h.genesis_fits)
                      h.genesis_absent)
                    (bind-Consumes _
                      (read_if-Reads _ (read_validator_epoch_transition r.version)
                        empty_validator_epoch _ r.validator_epoch
                        (λ _.
                          read_validator_epoch_transition-Reads r.version r.validator_epoch
                            s.epoch_fits)
                        s.epoch_absent)
                      (last-Consumes _ (optional-Consumes s)))))))))))
  where
    open h use {sections as s}

to_the_end-Consumes {ℓ} :
    {A : Type ℓ} {p : Reader A} {bytes : Bytes} {a : A}
    → Consumes p bytes a
    → Consumes (to_the_end p) bytes a
unfolding to_the_end consumed
to_the_end-Consumes h = record { run = rw (h.run, to_the_end) refl }

serialize-prime_payload :
    (r : PrimeRecordV0)
    → serialize_prime_record r ≡ append_uint64 prime_record_tag ++ prime_payload_bytes r
unfolding serialize_prime_record serialize_prime_record_internal prime_sections prime_metadata
    prime_payload_bytes tail_bytes metadata_of_prime
serialize-prime_payload r = refl

pub deserialize-serialize_prime_record :
    (r : PrimeRecordV0)
    → FitsPrimeRecord r
    → deserialize_prime_record (serialize_prime_record r) ≡ ok r
unfolding deserialize_prime_record
deserialize-serialize_prime_record r h = rw (serialize-prime_payload r) (
    tagged prime_record_tag "invalid prime record tag" "truncated prime record payload"
      "trailing bytes in prime record payload" (to_the_end read_prime_payload) (omega arith)
      (to_the_end-Consumes (prime_payload-Consumes r h)))
