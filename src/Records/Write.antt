-- ===== src/Records/Write.antt =====
-- The append functions of src/protocol/records.cpp and the serializers over them. `++` joins what
-- consecutive calls append to `out`.
use primechain.Base.{ℕ, Bool, true, ◌||◌, List, ◌++◌, leb, if◌then◌else◌}
use primechain.Base.Text.{Bytes, eq_bytes}
use primechain.Codec.{
  append_uint64, append_hash, append_bytes, append_string, append_list, append_if,
}
use primechain.Records.Types.{
  Amount, TxInputV0, TxOutputV0, FeeSpecV0, TransactionV0, TransactionBatchV0, CompositeProofV0,
  PrimePowerV0, PrattPrimeProofV0, ValidatorVoteV0, CommitCertificateEntryV1, SignedVoteV1,
  CommitPhaseCertificateV1, RoundChangeVoteV1, FinalizationProofV0, CompositeLotteryProofV1,
  GenesisConfigV1, ValidatorEpochTransitionV1, ValidatorEndpointUpdateV1, ValidatorApplicationV1,
  ValidatorWorkBindingV1, EconomicPolicyUpdateV1, round_finalization_rule,
  locked_round_finalization_rule,
}

abbrev pub genesis_message_record_version : ℕ
genesis_message_record_version = 11

abbrev pub future_validator_epoch_record_version : ℕ
future_validator_epoch_record_version = 14

abbrev pub composite_record_tag : ℕ
composite_record_tag = 1

abbrev pub prime_record_tag : ℕ
prime_record_tag = 2

unfoldable pub append_amount : Amount → Bytes
append_amount amount = append_uint64 amount.numerator ++ append_uint64 amount.denominator

unfoldable pub append_tx_input : TxInputV0 → Bytes
append_tx_input input = append_uint64 input.prime ++ append_amount input.amount

unfoldable pub append_tx_output : TxOutputV0 → Bytes
append_tx_output output =
    append_uint64 output.prime
    ++ (append_amount output.amount ++ append_string output.receiver_address)

unfoldable pub append_fee_spec : FeeSpecV0 → Bytes
append_fee_spec fee = append_uint64 fee.prime ++ append_amount fee.amount

unfoldable pub append_transaction_batch : TransactionBatchV0 → Bytes
append_transaction_batch batch =
    append_uint64 batch.transaction_count ++ append_hash batch.transaction_merkle_root

-- Without the signature the bytes are those of an empty one.
unfoldable pub serialize_transaction : TransactionV0 → Bool → Bytes
serialize_transaction tx include_signature =
    append_uint64 tx.version
    ++ (append_list append_tx_input tx.inputs
        ++ (append_list append_tx_output tx.outputs
            ++ (append_fee_spec tx.fee
                ++ (append_uint64 tx.nonce
                    ++ (append_string tx.sender_address
                        ++ (append_bytes tx.sender_public_key
                            ++ (if include_signature
                                then append_bytes tx.signature
                                else append_uint64 0)))))))

unfoldable pub append_transaction_list : List TransactionV0 → Bytes
append_transaction_list = append_list (λ tx. append_bytes (serialize_transaction tx true))

unfoldable pub append_composite_proof : CompositeProofV0 → Bytes
append_composite_proof proof =
    append_uint64 proof.g
    ++ (append_uint64 proof.d
        ++ (append_uint64 proof.e
            ++ (append_string proof.provider_address ++ append_bytes proof.signature)))

unfoldable pub append_prime_power : PrimePowerV0 → Bytes
append_prime_power factor = append_uint64 factor.prime ++ append_uint64 factor.exponent

unfoldable pub append_pratt_proof : PrattPrimeProofV0 → Bytes
append_pratt_proof proof =
    append_uint64 proof.p
    ++ (append_uint64 proof.witness
        ++ (append_list append_prime_power proof.factors_of_p_minus_1
            ++ (append_string proof.provider_address ++ append_bytes proof.signature)))

unfoldable pub append_validator_vote : ValidatorVoteV0 → Bytes
append_validator_vote vote =
    append_string vote.validator_address
    ++ (append_bytes vote.public_key
        ++ (append_hash vote.record_hash
            ++ (append_uint64 vote.round ++ append_bytes vote.signature)))

unfoldable pub append_round_change_vote : RoundChangeVoteV1 → Bytes
append_round_change_vote vote =
    append_string vote.validator_address
    ++ (append_bytes vote.public_key
        ++ (append_hash vote.previous_record_hash
            ++ (append_uint64 vote.integer
                ++ (append_uint64 vote.new_round ++ append_bytes vote.signature))))

unfoldable pub append_locked_round_change_vote : RoundChangeVoteV1 → Bytes
append_locked_round_change_vote vote =
    append_string vote.validator_address
    ++ (append_bytes vote.public_key
        ++ (append_hash vote.previous_record_hash
            ++ (append_uint64 vote.integer
                ++ (append_uint64 vote.new_round
                    ++ (append_uint64 vote.locked_round
                        ++ (append_string vote.locked_candidate_kind
                            ++ (append_hash vote.locked_candidate_hash
                                ++ (append_bytes vote.locked_candidate_payload
                                    ++ append_bytes vote.signature))))))))

unfoldable pub append_composite_lottery_proof : CompositeLotteryProofV1 → Bytes
append_composite_lottery_proof proof =
    append_uint64 proof.round
    ++ (append_uint64 proof.win_bps
        ++ (append_hash proof.subject_hash
            ++ (append_string proof.assigned_validator
                ++ (append_bytes proof.public_key ++ append_bytes proof.signature))))

-- `proof.rule == kRoundFinalizationRule || proof.rule == kLockedRoundFinalizationRule`
unfoldable pub has_round_changes : Bytes → Bool
has_round_changes rule =
    eq_bytes rule round_finalization_rule || eq_bytes rule locked_round_finalization_rule

unfoldable pub append_round_change : Bytes → RoundChangeVoteV1 → Bytes
append_round_change rule vote =
    if eq_bytes rule locked_round_finalization_rule
    then append_locked_round_change_vote vote
    else append_round_change_vote vote

unfoldable pub append_finalization_proof : FinalizationProofV0 → Bool → Bytes
append_finalization_proof proof include_votes =
    append_string proof.rule
    ++ (append_if (has_round_changes proof.rule)
          (append_list (append_round_change proof.rule) proof.round_changes)
        ++ (if include_votes
            then append_list append_validator_vote proof.votes
            else append_uint64 0))

unfoldable pub append_commit_certificate_entry : CommitCertificateEntryV1 → Bytes
append_commit_certificate_entry entry =
    append_hash entry.commitment_hash
    ++ (append_string entry.provider_address
        ++ (append_bytes entry.public_key ++ append_bytes entry.signature))

-- appendCommitCertificateVote, and the loop bodies for epoch and policy votes.
unfoldable pub append_signed_vote : SignedVoteV1 → Bytes
append_signed_vote vote =
    append_string vote.validator_address
    ++ (append_bytes vote.public_key ++ append_bytes vote.signature)

unfoldable pub append_commit_phase_certificate : CommitPhaseCertificateV1 → Bytes
append_commit_phase_certificate certificate =
    append_uint64 certificate.integer
    ++ (append_hash certificate.snapshot_hash
        ++ (append_list append_string certificate.validator_set
            ++ (append_list append_commit_certificate_entry certificate.commitments
                ++ append_list append_signed_vote certificate.votes)))

unfoldable pub append_genesis_config : GenesisConfigV1 → ℕ → Bytes
append_genesis_config config record_version =
    append_list append_string config.validator_set
    ++ append_if (leb genesis_message_record_version record_version)
        (append_string config.genesis_message)

unfoldable pub append_validator_epoch_transition : ValidatorEpochTransitionV1 → ℕ → Bytes
append_validator_epoch_transition transition record_version =
    let future = leb future_validator_epoch_record_version record_version in
    append_uint64 transition.epoch
    ++ (append_if future (append_hash transition.vote_previous_record_hash)
        ++ (append_if future (append_uint64 transition.vote_record_integer)
            ++ (append_uint64 transition.activation_integer
                ++ (append_list append_string transition.next_validator_set
                    ++ append_list append_signed_vote transition.votes))))

unfoldable pub append_validator_endpoint_update : ValidatorEndpointUpdateV1 → Bytes
append_validator_endpoint_update update =
    append_string update.validator_address
    ++ (append_string update.host
        ++ (append_uint64 update.port
            ++ (append_uint64 update.effective_integer
                ++ (append_uint64 update.sequence
                    ++ (append_bytes update.public_key ++ append_bytes update.signature)))))

unfoldable pub append_validator_endpoint_updates : List ValidatorEndpointUpdateV1 → Bytes
append_validator_endpoint_updates = append_list append_validator_endpoint_update

unfoldable pub append_validator_application : ValidatorApplicationV1 → Bytes
append_validator_application application =
    append_string application.candidate_address
    ++ (append_string application.host
        ++ (append_uint64 application.port
            ++ (append_uint64 application.record_integer
                ++ (append_uint64 application.sequence
                    ++ (append_uint64 application.observed_successful
                        ++ (append_uint64 application.observed_total
                            ++ (append_bytes application.public_key
                                ++ append_bytes application.signature)))))))

unfoldable pub append_validator_applications : List ValidatorApplicationV1 → Bytes
append_validator_applications = append_list append_validator_application

unfoldable pub append_validator_work_binding : ValidatorWorkBindingV1 → Bytes
append_validator_work_binding binding =
    append_string binding.candidate_address
    ++ (append_string binding.miner_address
        ++ (append_uint64 binding.record_integer
            ++ (append_uint64 binding.sequence
                ++ (append_bytes binding.miner_public_key
                    ++ append_bytes binding.miner_signature))))

unfoldable pub append_validator_work_bindings : List ValidatorWorkBindingV1 → Bytes
append_validator_work_bindings = append_list append_validator_work_binding

unfoldable pub append_economic_policy_update : EconomicPolicyUpdateV1 → ℕ → Bytes
append_economic_policy_update update record_version =
    append_uint64 update.transfer_fee_micro_units
    ++ (append_if (leb 7 record_version) (append_uint64 update.validator_min_reserve_micro_units)
        ++ (append_uint64 update.effective_integer
            ++ (append_uint64 update.sequence ++ append_list append_signed_vote update.votes)))
