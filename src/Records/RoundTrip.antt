-- ===== src/Records/RoundTrip.antt =====
-- Each section of a record reads back what was written of it.
pub mod Transactions
pub mod Whole
use primechain.Base.{
  ℕ, ◌^◌, ◌≤◌, ◌<◌, ◌≡◌, refl, ap, Bool, true, false, List, [], ◌∷◌, ◌++◌, length, All, All-map,
  leb, ltb, ◌==◌, if◌then◌else◌, arith, Bool-cases, inl, inr,
}
use primechain.Base.Text.{Bytes, eq_bytes}
use primechain.Codec.{
  Reader, append_uint64, append_hash, append_bytes, append_string, append_list, read_uint64,
  read_hash, read_string, read_list,
}
use primechain.Codec.Reads.{
  Reads, bind-Reads, last-Reads, read_uint64-Reads, read_hash-Reads, read_bytes-Reads,
  read_string-Reads, read_list-Reads, read_if-Reads,
}
use primechain.Records.Types.{
  Amount, TxInputV0, TxOutputV0, FeeSpecV0, TransactionV0, TransactionBatchV0, CompositeProofV0,
  PrimePowerV0, PrattPrimeProofV0, ValidatorVoteV0, CommitCertificateEntryV1, SignedVoteV1,
  CommitPhaseCertificateV1, RoundChangeVoteV1, FinalizationProofV0, CompositeLotteryProofV1,
  GenesisConfigV1, ValidatorEpochTransitionV1, ValidatorEndpointUpdateV1, ValidatorApplicationV1,
  ValidatorWorkBindingV1, EconomicPolicyUpdateV1, zero_hash, locked_round_finalization_rule,
}
use primechain.Records.WellFormed.{
  IsSized, FitsAmount, FitsCompositeProof, FitsPrimePower, FitsTransactionBatch, FitsValidatorVote,
  FitsCompositeLotteryProof, FitsCommitCertificateEntry, FitsSignedVote,
  FitsValidatorEndpointUpdate, FitsValidatorApplication, FitsValidatorWorkBinding,
  FitsPrattPrimeProof, FitsCommitPhaseCertificate, FitsGenesisConfig, FitsValidatorEpoch,
  FitsEconomicPolicy, FitsRoundChangeVote, FitsFinalizationProof,
}
use primechain.Records.Write.{
  append_amount, append_composite_proof, append_prime_power, append_transaction_batch,
  append_validator_vote, append_composite_lottery_proof, append_commit_certificate_entry,
  append_signed_vote, append_validator_endpoint_update, append_validator_application,
  append_validator_work_binding, append_pratt_proof, append_commit_phase_certificate,
  append_genesis_config, append_validator_epoch_transition, append_economic_policy_update,
  append_round_change_vote, append_locked_round_change_vote, append_round_change,
  append_finalization_proof, has_round_changes, append_validator_endpoint_updates,
  append_validator_applications, append_validator_work_bindings,
}
use primechain.Records.Read.{
  read_amount, read_composite_proof, read_prime_power, read_transaction_batch, read_validator_vote,
  read_composite_lottery_proof, read_commit_certificate_entry, read_signed_vote,
  read_validator_endpoint_update, read_validator_application, read_validator_work_binding,
  read_pratt_proof, read_commit_phase_certificate, read_genesis_config,
  read_validator_epoch_transition, read_economic_policy_update, read_round_change_vote,
  read_locked_round_change_vote, read_round_change, read_finalization_proof,
  read_validator_endpoint_updates, read_validator_applications, read_validator_work_bindings,
}

pub read_amount-Reads : (x : Amount) → FitsAmount x → Reads read_amount (append_amount x) x
unfolding read_amount append_amount
read_amount-Reads x h =
    bind-Reads _ (read_uint64-Reads x.numerator h.numerator_fits)
      (last-Reads _ (read_uint64-Reads x.denominator h.denominator_fits))

pub read_composite_proof-Reads :
    (x : CompositeProofV0)
    → FitsCompositeProof x
    → Reads read_composite_proof (append_composite_proof x) x
unfolding read_composite_proof append_composite_proof
read_composite_proof-Reads x h = bind-Reads _ (read_uint64-Reads x.g h.g_fits) (
    bind-Reads _ (read_uint64-Reads x.d h.d_fits) (
      bind-Reads _ (read_uint64-Reads x.e h.e_fits) (
        bind-Reads _ (read_string-Reads x.provider_address h.provider_address_fits)
          (last-Reads _ (read_bytes-Reads x.signature h.signature_fits)))))

pub read_prime_power-Reads :
    (x : PrimePowerV0) → FitsPrimePower x → Reads read_prime_power (append_prime_power x) x
unfolding read_prime_power append_prime_power
read_prime_power-Reads x h =
    bind-Reads _ (read_uint64-Reads x.prime h.prime_fits)
      (last-Reads _ (read_uint64-Reads x.exponent h.exponent_fits))

pub read_transaction_batch-Reads :
    (x : TransactionBatchV0)
    → FitsTransactionBatch x
    → Reads read_transaction_batch (append_transaction_batch x) x
unfolding read_transaction_batch append_transaction_batch
read_transaction_batch-Reads x h =
    bind-Reads _ (read_uint64-Reads x.transaction_count h.transaction_count_fits)
      (last-Reads _ (read_hash-Reads x.transaction_merkle_root h.transaction_merkle_root_fits))

pub read_validator_vote-Reads :
    (x : ValidatorVoteV0)
    → FitsValidatorVote x
    → Reads read_validator_vote (append_validator_vote x) x
unfolding read_validator_vote append_validator_vote
read_validator_vote-Reads x h =
    bind-Reads _ (read_string-Reads x.validator_address h.validator_address_fits) (
      bind-Reads _ (read_bytes-Reads x.public_key h.public_key_fits) (
        bind-Reads _ (read_hash-Reads x.record_hash h.record_hash_fits) (
          bind-Reads _ (read_uint64-Reads x.round h.round_fits)
            (last-Reads _ (read_bytes-Reads x.signature h.signature_fits)))))

pub read_composite_lottery_proof-Reads :
    (x : CompositeLotteryProofV1)
    → FitsCompositeLotteryProof x
    → Reads read_composite_lottery_proof (append_composite_lottery_proof x) x
unfolding read_composite_lottery_proof append_composite_lottery_proof
read_composite_lottery_proof-Reads x h = bind-Reads _ (read_uint64-Reads x.round h.round_fits) (
    bind-Reads _ (read_uint64-Reads x.win_bps h.win_bps_fits) (
      bind-Reads _ (read_hash-Reads x.subject_hash h.subject_hash_fits) (
        bind-Reads _ (read_string-Reads x.assigned_validator h.assigned_validator_fits) (
          bind-Reads _ (read_bytes-Reads x.public_key h.public_key_fits)
            (last-Reads _ (read_bytes-Reads x.signature h.signature_fits))))))

pub read_commit_certificate_entry-Reads :
    (x : CommitCertificateEntryV1)
    → FitsCommitCertificateEntry x
    → Reads read_commit_certificate_entry (append_commit_certificate_entry x) x
unfolding read_commit_certificate_entry append_commit_certificate_entry
read_commit_certificate_entry-Reads x h =
    bind-Reads _ (read_hash-Reads x.commitment_hash h.commitment_hash_fits) (
      bind-Reads _ (read_string-Reads x.provider_address h.provider_address_fits) (
        bind-Reads _ (read_bytes-Reads x.public_key h.public_key_fits)
          (last-Reads _ (read_bytes-Reads x.signature h.signature_fits))))

pub read_signed_vote-Reads :
    (x : SignedVoteV1) → FitsSignedVote x → Reads read_signed_vote (append_signed_vote x) x
unfolding read_signed_vote append_signed_vote
read_signed_vote-Reads x h =
    bind-Reads _ (read_string-Reads x.validator_address h.validator_address_fits) (
      bind-Reads _ (read_bytes-Reads x.public_key h.public_key_fits)
        (last-Reads _ (read_bytes-Reads x.signature h.signature_fits)))

pub read_validator_endpoint_update-Reads :
    (x : ValidatorEndpointUpdateV1)
    → FitsValidatorEndpointUpdate x
    → Reads read_validator_endpoint_update (append_validator_endpoint_update x) x
unfolding read_validator_endpoint_update append_validator_endpoint_update
read_validator_endpoint_update-Reads x h =
    bind-Reads _ (read_string-Reads x.validator_address h.validator_address_fits) (
      bind-Reads _ (read_string-Reads x.host h.host_fits) (
        bind-Reads _ (read_uint64-Reads x.port h.port_fits) (
          bind-Reads _ (read_uint64-Reads x.effective_integer h.effective_integer_fits) (
            bind-Reads _ (read_uint64-Reads x.sequence h.sequence_fits) (
              bind-Reads _ (read_bytes-Reads x.public_key h.public_key_fits)
                (last-Reads _ (read_bytes-Reads x.signature h.signature_fits)))))))

pub read_validator_application-Reads :
    (x : ValidatorApplicationV1)
    → FitsValidatorApplication x
    → Reads read_validator_application (append_validator_application x) x
unfolding read_validator_application append_validator_application
read_validator_application-Reads x h =
    bind-Reads _ (read_string-Reads x.candidate_address h.candidate_address_fits) (
      bind-Reads _ (read_string-Reads x.host h.host_fits) (
        bind-Reads _ (read_uint64-Reads x.port h.port_fits) (
          bind-Reads _ (read_uint64-Reads x.record_integer h.record_integer_fits) (
            bind-Reads _ (read_uint64-Reads x.sequence h.sequence_fits) (
              bind-Reads _ (read_uint64-Reads x.observed_successful h.observed_successful_fits) (
                bind-Reads _ (read_uint64-Reads x.observed_total h.observed_total_fits) (
                  bind-Reads _ (read_bytes-Reads x.public_key h.public_key_fits)
                    (last-Reads _ (read_bytes-Reads x.signature h.signature_fits)))))))))

pub read_validator_work_binding-Reads :
    (x : ValidatorWorkBindingV1)
    → FitsValidatorWorkBinding x
    → Reads read_validator_work_binding (append_validator_work_binding x) x
unfolding read_validator_work_binding append_validator_work_binding
read_validator_work_binding-Reads x h =
    bind-Reads _ (read_string-Reads x.candidate_address h.candidate_address_fits) (
      bind-Reads _ (read_string-Reads x.miner_address h.miner_address_fits) (
        bind-Reads _ (read_uint64-Reads x.record_integer h.record_integer_fits) (
          bind-Reads _ (read_uint64-Reads x.sequence h.sequence_fits) (
            bind-Reads _ (read_bytes-Reads x.miner_public_key h.miner_public_key_fits)
              (last-Reads _ (read_bytes-Reads x.miner_signature h.miner_signature_fits))))))

-- A list within its limit, of items that each read back.
items-Reads {ℓ κ} :
    {A : Type ℓ} {P : A → Type κ} (limit : ℕ) {p : Reader A} {w : A → Bytes}
    → ((x : A) → P x → Reads p (w x) x)
    → limit < 2 ^ 64
    → (xs : List A) → length xs ≤ limit
    → All P xs
    → Reads (read_list limit p) (append_list w xs) xs
items-Reads limit {p} {w} each small xs count fits =
    read_list-Reads limit p w xs count small (All-map each xs fits)

strings-Reads :
    (xs : List Bytes)
    → length xs ≤ 16
    → All IsSized xs
    → Reads (read_list 16 read_string) (append_list append_string xs) xs
strings-Reads = items-Reads 16 read_string-Reads (omega arith)

signed_votes-Reads :
    (xs : List SignedVoteV1)
    → length xs ≤ 16
    → All FitsSignedVote xs
    → Reads (read_list 16 read_signed_vote) (append_list append_signed_vote xs) xs
signed_votes-Reads = items-Reads 16 read_signed_vote-Reads (omega arith)

pub read_pratt_proof-Reads :
    (x : PrattPrimeProofV0)
    → FitsPrattPrimeProof x
    → Reads read_pratt_proof (append_pratt_proof x) x
unfolding read_pratt_proof append_pratt_proof
read_pratt_proof-Reads x h = bind-Reads _ (read_uint64-Reads x.p h.p_fits) (
    bind-Reads _ (read_uint64-Reads x.witness h.witness_fits) (
      bind-Reads _
        (items-Reads 1024 read_prime_power-Reads (omega arith) x.factors_of_p_minus_1
          h.factor_count_fits h.factors_fit)
        (bind-Reads _ (read_string-Reads x.provider_address h.provider_address_fits)
          (last-Reads _ (read_bytes-Reads x.signature h.signature_fits)))))

pub read_commit_phase_certificate-Reads :
    (x : CommitPhaseCertificateV1)
    → FitsCommitPhaseCertificate x
    → Reads read_commit_phase_certificate (append_commit_phase_certificate x) x
unfolding read_commit_phase_certificate append_commit_phase_certificate
read_commit_phase_certificate-Reads x h =
    bind-Reads _ (read_uint64-Reads x.integer h.integer_fits) (
      bind-Reads _ (read_hash-Reads x.snapshot_hash h.snapshot_hash_fits) (
        bind-Reads _ (strings-Reads x.validator_set h.validator_count_fits h.validators_fit) (
          bind-Reads _
            (items-Reads 1024 read_commit_certificate_entry-Reads (omega arith) x.commitments
              h.commitment_count_fits h.commitments_fit)
            (last-Reads _ (signed_votes-Reads x.votes h.vote_count_fits h.votes_fit)))))

pub read_genesis_config-Reads :
    (version : ℕ) (x : GenesisConfigV1)
    → FitsGenesisConfig version x
    → Reads (read_genesis_config version) (append_genesis_config x version) x
unfolding read_genesis_config append_genesis_config
read_genesis_config-Reads version x h =
    bind-Reads _ (strings-Reads x.validator_set h.validator_count_fits h.validators_fit) (
      last-Reads _ (
        read_if-Reads _ read_string [] _ x.genesis_message
          (λ _. read_string-Reads x.genesis_message h.message_fits) h.message_absent))

pub read_validator_epoch_transition-Reads :
    (version : ℕ) (x : ValidatorEpochTransitionV1)
    → FitsValidatorEpoch version x
    → Reads
        (read_validator_epoch_transition version)
        (append_validator_epoch_transition x version)
        x
unfolding read_validator_epoch_transition append_validator_epoch_transition
read_validator_epoch_transition-Reads version x h =
    bind-Reads _ (read_uint64-Reads x.epoch h.epoch_fits) (
      bind-Reads _
        (read_if-Reads _ read_hash zero_hash _ x.vote_previous_record_hash
          (λ _. read_hash-Reads x.vote_previous_record_hash h.anchor_hash_fits)
          (λ e. (h.anchor_absent e).0))
        (bind-Reads _
          (read_if-Reads _ read_uint64 0 _ x.vote_record_integer
            (λ _. read_uint64-Reads x.vote_record_integer h.anchor_integer_fits)
            (λ e. (h.anchor_absent e).1))
          (bind-Reads _ (read_uint64-Reads x.activation_integer h.activation_fits) (
            bind-Reads _
              (strings-Reads x.next_validator_set h.validator_count_fits h.validators_fit)
              (last-Reads _ (signed_votes-Reads x.votes h.vote_count_fits h.votes_fit))))))

pub read_economic_policy_update-Reads :
    (version : ℕ) (x : EconomicPolicyUpdateV1)
    → FitsEconomicPolicy version x
    → Reads (read_economic_policy_update version) (append_economic_policy_update x version) x
unfolding read_economic_policy_update append_economic_policy_update
read_economic_policy_update-Reads version x h =
    bind-Reads _ (read_uint64-Reads x.transfer_fee_micro_units h.fee_fits) (
      bind-Reads _
        (read_if-Reads _ read_uint64 0 _ x.validator_min_reserve_micro_units
          (λ _. read_uint64-Reads x.validator_min_reserve_micro_units h.reserve_fits)
          h.reserve_absent)
        (bind-Reads _ (read_uint64-Reads x.effective_integer h.effective_fits) (
          bind-Reads _ (read_uint64-Reads x.sequence h.sequence_fits) (
            last-Reads _ (
              items-Reads 64 read_signed_vote-Reads (omega arith) x.votes h.vote_count_fits
                h.votes_fit)))))

-- A legacy vote comes back with its lock members cleared.
unlocked : RoundChangeVoteV1 → RoundChangeVoteV1
unlocked x = record x {
  locked_round = 0;
  locked_candidate_kind = [];
  locked_candidate_hash = zero_hash;
  locked_candidate_payload = [];
}

read_round_change_vote-Reads :
    (rule : Bytes) (x : RoundChangeVoteV1)
    → FitsRoundChangeVote rule x
    → Reads read_round_change_vote (append_round_change_vote x) (unlocked x)
unfolding read_round_change_vote append_round_change_vote unlocked
read_round_change_vote-Reads rule x h =
    bind-Reads _ (read_string-Reads x.validator_address h.validator_address_fits) (
      bind-Reads _ (read_bytes-Reads x.public_key h.public_key_fits) (
        bind-Reads _ (read_hash-Reads x.previous_record_hash h.previous_record_hash_fits) (
          bind-Reads _ (read_uint64-Reads x.integer h.integer_fits) (
            bind-Reads _ (read_uint64-Reads x.new_round h.new_round_fits)
              (last-Reads _ (read_bytes-Reads x.signature h.signature_fits))))))

read_locked_round_change_vote-Reads :
    (rule : Bytes) (x : RoundChangeVoteV1)
    → FitsRoundChangeVote rule x
    → Reads read_locked_round_change_vote (append_locked_round_change_vote x) x
unfolding read_locked_round_change_vote append_locked_round_change_vote
read_locked_round_change_vote-Reads rule x h =
    bind-Reads _ (read_string-Reads x.validator_address h.validator_address_fits) (
      bind-Reads _ (read_bytes-Reads x.public_key h.public_key_fits) (
        bind-Reads _ (read_hash-Reads x.previous_record_hash h.previous_record_hash_fits) (
          bind-Reads _ (read_uint64-Reads x.integer h.integer_fits) (
            bind-Reads _ (read_uint64-Reads x.new_round h.new_round_fits) (
              bind-Reads _ (read_uint64-Reads x.locked_round h.locked_round_fits) (
                bind-Reads _
                  (read_string-Reads x.locked_candidate_kind h.locked_candidate_kind_fits)
                  (bind-Reads _
                    (read_hash-Reads x.locked_candidate_hash h.locked_candidate_hash_fits)
                    (bind-Reads _
                      (read_bytes-Reads x.locked_candidate_payload h.locked_candidate_payload_fits)
                      (last-Reads _ (read_bytes-Reads x.signature h.signature_fits))))))))))

read_round_change-Reads :
    (rule : Bytes) (x : RoundChangeVoteV1)
    → FitsRoundChangeVote rule x
    → Reads (read_round_change rule) (append_round_change rule x) x
unfolding read_round_change append_round_change
read_round_change-Reads rule x h =
    elim (Bool-cases (eq_bytes rule locked_round_finalization_rule)) [
      | inl locked ↦ rw locked (read_locked_round_change_vote-Reads rule x h)
      | inr legacy ↦
          let same : unlocked x ≡ x = unfold unlocked in ground (arith, h.lock_absent legacy) in
          rw legacy (rw same at (read_round_change_vote-Reads rule x h))
    ]

pub read_finalization_proof-Reads :
    (x : FinalizationProofV0)
    → FitsFinalizationProof x
    → Reads read_finalization_proof (append_finalization_proof x true) x
unfolding read_finalization_proof append_finalization_proof
read_finalization_proof-Reads x h = bind-Reads _ (read_string-Reads x.rule h.rule_fits) (
    bind-Reads _
      (read_if-Reads _ (read_list 16 (read_round_change x.rule)) [] _ x.round_changes
        (λ _.
          items-Reads 16 (read_round_change-Reads x.rule) (omega arith) x.round_changes
            h.round_change_count_fits h.round_changes_fit)
        h.round_changes_absent)
      (last-Reads _ (
        items-Reads 16 read_validator_vote-Reads (omega arith) x.votes h.vote_count_fits
          h.votes_fit)))

pub read_validator_endpoint_updates-Reads :
    (xs : List ValidatorEndpointUpdateV1)
    → length xs ≤ 64
    → All FitsValidatorEndpointUpdate xs
    → Reads read_validator_endpoint_updates (append_validator_endpoint_updates xs) xs
unfolding read_validator_endpoint_updates append_validator_endpoint_updates
read_validator_endpoint_updates-Reads =
    items-Reads 64 read_validator_endpoint_update-Reads (omega arith)

pub read_validator_applications-Reads :
    (xs : List ValidatorApplicationV1)
    → length xs ≤ 64
    → All FitsValidatorApplication xs
    → Reads read_validator_applications (append_validator_applications xs) xs
unfolding read_validator_applications append_validator_applications
read_validator_applications-Reads = items-Reads 64 read_validator_application-Reads (omega arith)

pub read_validator_work_bindings-Reads :
    (xs : List ValidatorWorkBindingV1)
    → length xs ≤ 64
    → All FitsValidatorWorkBinding xs
    → Reads read_validator_work_bindings (append_validator_work_bindings xs) xs
unfolding read_validator_work_bindings append_validator_work_bindings
read_validator_work_bindings-Reads = items-Reads 64 read_validator_work_binding-Reads (omega arith)
