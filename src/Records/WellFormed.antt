-- ===== src/Records/WellFormed.antt =====
-- The values that the wire format can carry: numbers below 2 ^ 64, hashes of 32 bytes, strings whose
-- length is a uint64, and lists within the decoder's limits.
use primechain.Base.{ℕ, ◌^◌, ◌≤◌, ◌<◌, ◌≡◌, true, false, List, [], length, All, leb, ◌==◌}
use primechain.Base.Text.{Bytes, eq_bytes}
use primechain.Records.Types.{
  Amount, TxInputV0, TxOutputV0, FeeSpecV0, TransactionV0, TransactionBatchV0, CompositeProofV0,
  PrimePowerV0, PrattPrimeProofV0, ValidatorVoteV0, CommitCertificateEntryV1, SignedVoteV1,
  CommitPhaseCertificateV1, RoundChangeVoteV1, FinalizationProofV0, CompositeLotteryProofV1,
  GenesisConfigV1, ValidatorEpochTransitionV1, ValidatorEndpointUpdateV1, ValidatorApplicationV1,
  ValidatorWorkBindingV1, EconomicPolicyUpdateV1, CompositeRecordV0, PrimeRecordV0, zero_hash,
  locked_round_finalization_rule, empty_commit_phase, empty_validator_epoch, empty_economic_policy,
  empty_composite_lottery, empty_genesis_config,
}
use primechain.Records.Write.{has_round_changes, serialize_transaction}
use primechain.Records.Serialize.{has_commit_phase}

abbrev pub IsUint64 : ℕ → Type 0
IsUint64 v = v < 2 ^ 64

abbrev pub IsHash : Bytes → Type 0
IsHash hash = length hash ≡ 32

abbrev pub IsSized : Bytes → Type 0
IsSized bytes = length bytes < 2 ^ 64

pub record FitsAmount (x : Amount) : Type 0 where
  pub numerator_fits : IsUint64 x.numerator
  pub denominator_fits : IsUint64 x.denominator

pub record FitsCompositeProof (x : CompositeProofV0) : Type 0 where
  pub g_fits : IsUint64 x.g
  pub d_fits : IsUint64 x.d
  pub e_fits : IsUint64 x.e
  pub provider_address_fits : IsSized x.provider_address
  pub signature_fits : IsSized x.signature

pub record FitsPrimePower (x : PrimePowerV0) : Type 0 where
  pub prime_fits : IsUint64 x.prime
  pub exponent_fits : IsUint64 x.exponent

pub record FitsTransactionBatch (x : TransactionBatchV0) : Type 0 where
  pub transaction_count_fits : IsUint64 x.transaction_count
  pub transaction_merkle_root_fits : IsHash x.transaction_merkle_root

pub record FitsValidatorVote (x : ValidatorVoteV0) : Type 0 where
  pub validator_address_fits : IsSized x.validator_address
  pub public_key_fits : IsSized x.public_key
  pub record_hash_fits : IsHash x.record_hash
  pub round_fits : IsUint64 x.round
  pub signature_fits : IsSized x.signature

pub record FitsCompositeLotteryProof (x : CompositeLotteryProofV1) : Type 0 where
  pub round_fits : IsUint64 x.round
  pub win_bps_fits : IsUint64 x.win_bps
  pub subject_hash_fits : IsHash x.subject_hash
  pub assigned_validator_fits : IsSized x.assigned_validator
  pub public_key_fits : IsSized x.public_key
  pub signature_fits : IsSized x.signature

pub record FitsCommitCertificateEntry (x : CommitCertificateEntryV1) : Type 0 where
  pub commitment_hash_fits : IsHash x.commitment_hash
  pub provider_address_fits : IsSized x.provider_address
  pub public_key_fits : IsSized x.public_key
  pub signature_fits : IsSized x.signature

pub record FitsSignedVote (x : SignedVoteV1) : Type 0 where
  pub validator_address_fits : IsSized x.validator_address
  pub public_key_fits : IsSized x.public_key
  pub signature_fits : IsSized x.signature

pub record FitsValidatorEndpointUpdate (x : ValidatorEndpointUpdateV1) : Type 0 where
  pub validator_address_fits : IsSized x.validator_address
  pub host_fits : IsSized x.host
  pub port_fits : IsUint64 x.port
  pub effective_integer_fits : IsUint64 x.effective_integer
  pub sequence_fits : IsUint64 x.sequence
  pub public_key_fits : IsSized x.public_key
  pub signature_fits : IsSized x.signature

pub record FitsValidatorApplication (x : ValidatorApplicationV1) : Type 0 where
  pub candidate_address_fits : IsSized x.candidate_address
  pub host_fits : IsSized x.host
  pub port_fits : IsUint64 x.port
  pub record_integer_fits : IsUint64 x.record_integer
  pub sequence_fits : IsUint64 x.sequence
  pub observed_successful_fits : IsUint64 x.observed_successful
  pub observed_total_fits : IsUint64 x.observed_total
  pub public_key_fits : IsSized x.public_key
  pub signature_fits : IsSized x.signature

pub record FitsValidatorWorkBinding (x : ValidatorWorkBindingV1) : Type 0 where
  pub candidate_address_fits : IsSized x.candidate_address
  pub miner_address_fits : IsSized x.miner_address
  pub record_integer_fits : IsUint64 x.record_integer
  pub sequence_fits : IsUint64 x.sequence
  pub miner_public_key_fits : IsSized x.miner_public_key
  pub miner_signature_fits : IsSized x.miner_signature

pub record FitsTxInput (x : TxInputV0) : Type 0 where
  pub prime_fits : IsUint64 x.prime
  pub amount_fits : FitsAmount x.amount

pub record FitsTxOutput (x : TxOutputV0) : Type 0 where
  pub prime_fits : IsUint64 x.prime
  pub amount_fits : FitsAmount x.amount
  pub receiver_address_fits : IsSized x.receiver_address

pub record FitsFeeSpec (x : FeeSpecV0) : Type 0 where
  pub prime_fits : IsUint64 x.prime
  pub amount_fits : FitsAmount x.amount

pub record FitsTransaction (x : TransactionV0) : Type 0 where
  pub version_fits : IsUint64 x.version
  pub input_count_fits : length x.inputs ≤ 1024
  pub inputs_fit : All FitsTxInput x.inputs
  pub output_count_fits : length x.outputs ≤ 1024
  pub outputs_fit : All FitsTxOutput x.outputs
  pub fee_fits : FitsFeeSpec x.fee
  pub nonce_fits : IsUint64 x.nonce
  pub sender_address_fits : IsSized x.sender_address
  pub sender_public_key_fits : IsSized x.sender_public_key
  pub signature_fits : IsSized x.signature

-- The list's items stand in byte strings of their own.
pub record FitsListed (x : TransactionV0) : Type 0 where
  pub transaction_fits : FitsTransaction x
  pub serialized_fits : IsSized (serialize_transaction x true)

pub record FitsPrattPrimeProof (x : PrattPrimeProofV0) : Type 0 where
  pub p_fits : IsUint64 x.p
  pub witness_fits : IsUint64 x.witness
  pub factor_count_fits : length x.factors_of_p_minus_1 ≤ 1024
  pub factors_fit : All FitsPrimePower x.factors_of_p_minus_1
  pub provider_address_fits : IsSized x.provider_address
  pub signature_fits : IsSized x.signature

pub record FitsCommitPhaseCertificate (x : CommitPhaseCertificateV1) : Type 0 where
  pub integer_fits : IsUint64 x.integer
  pub snapshot_hash_fits : IsHash x.snapshot_hash
  pub validator_count_fits : length x.validator_set ≤ 16
  pub validators_fit : All IsSized x.validator_set
  pub commitment_count_fits : length x.commitments ≤ 1024
  pub commitments_fit : All FitsCommitCertificateEntry x.commitments
  pub vote_count_fits : length x.votes ≤ 16
  pub votes_fit : All FitsSignedVote x.votes

-- Before version 11 the message is not on the wire.
pub record FitsGenesisConfig (version : ℕ) (x : GenesisConfigV1) : Type 0 where
  pub validator_count_fits : length x.validator_set ≤ 16
  pub validators_fit : All IsSized x.validator_set
  pub message_fits : IsSized x.genesis_message
  pub message_absent : leb 11 version ≡ false → x.genesis_message ≡ []

-- Before version 14 the vote anchor is not on the wire.
pub record FitsValidatorEpoch (version : ℕ) (x : ValidatorEpochTransitionV1) : Type 0 where
  pub epoch_fits : IsUint64 x.epoch
  pub anchor_hash_fits : IsHash x.vote_previous_record_hash
  pub anchor_integer_fits : IsUint64 x.vote_record_integer
  pub anchor_absent :
      leb 14 version ≡ false
      → (x.vote_previous_record_hash ≡ zero_hash) × (x.vote_record_integer ≡ 0)
  pub activation_fits : IsUint64 x.activation_integer
  pub validator_count_fits : length x.next_validator_set ≤ 16
  pub validators_fit : All IsSized x.next_validator_set
  pub vote_count_fits : length x.votes ≤ 16
  pub votes_fit : All FitsSignedVote x.votes

-- Before version 7 the reserve is not on the wire.
pub record FitsEconomicPolicy (version : ℕ) (x : EconomicPolicyUpdateV1) : Type 0 where
  pub fee_fits : IsUint64 x.transfer_fee_micro_units
  pub reserve_fits : IsUint64 x.validator_min_reserve_micro_units
  pub reserve_absent : leb 7 version ≡ false → x.validator_min_reserve_micro_units ≡ 0
  pub effective_fits : IsUint64 x.effective_integer
  pub sequence_fits : IsUint64 x.sequence
  pub vote_count_fits : length x.votes ≤ 64
  pub votes_fit : All FitsSignedVote x.votes

-- Only the locked-round rule puts the lock members on the wire.
pub record FitsRoundChangeVote (rule : Bytes) (x : RoundChangeVoteV1) : Type 0 where
  pub validator_address_fits : IsSized x.validator_address
  pub public_key_fits : IsSized x.public_key
  pub previous_record_hash_fits : IsHash x.previous_record_hash
  pub integer_fits : IsUint64 x.integer
  pub new_round_fits : IsUint64 x.new_round
  pub locked_round_fits : IsUint64 x.locked_round
  pub locked_candidate_kind_fits : IsSized x.locked_candidate_kind
  pub locked_candidate_hash_fits : IsHash x.locked_candidate_hash
  pub locked_candidate_payload_fits : IsSized x.locked_candidate_payload
  pub signature_fits : IsSized x.signature
  pub lock_absent :
      eq_bytes rule locked_round_finalization_rule ≡ false
      → (x.locked_round ≡ 0)
        × (x.locked_candidate_kind ≡ [])
        × (x.locked_candidate_hash ≡ zero_hash)
        × (x.locked_candidate_payload ≡ [])

-- Only the two round rules put round changes on the wire.
pub record FitsFinalizationProof (x : FinalizationProofV0) : Type 0 where
  pub rule_fits : IsSized x.rule
  pub round_change_count_fits : length x.round_changes ≤ 16
  pub round_changes_fit : All (FitsRoundChangeVote x.rule) x.round_changes
  pub round_changes_absent : has_round_changes x.rule ≡ false → x.round_changes ≡ []
  pub vote_count_fits : length x.votes ≤ 16
  pub votes_fit : All FitsValidatorVote x.votes

-- The sections that composite and prime records share. A section that the version does not put on
-- the wire holds its default.
pub record FitsSections (version : ℕ) (batch : TransactionBatchV0)
    (transactions : List TransactionV0) (epoch : ValidatorEpochTransitionV1)
    (endpoints : List ValidatorEndpointUpdateV1) (policy : EconomicPolicyUpdateV1)
    (applications : List ValidatorApplicationV1) (work_bindings : List ValidatorWorkBindingV1)
    (finalization : FinalizationProofV0) : Type 0 where
  pub version_fits : IsUint64 version
  pub batch_fits : FitsTransactionBatch batch
  pub transaction_count_fits : length transactions ≤ 10000
  pub transactions_fit : All FitsListed transactions
  pub epoch_fits : FitsValidatorEpoch version epoch
  pub epoch_absent : leb 2 version ≡ false → epoch ≡ empty_validator_epoch
  pub endpoint_count_fits : length endpoints ≤ 64
  pub endpoints_fit : All FitsValidatorEndpointUpdate endpoints
  pub endpoints_absent : leb 3 version ≡ false → endpoints ≡ []
  pub policy_fits : FitsEconomicPolicy version policy
  pub policy_absent : leb 4 version ≡ false → policy ≡ empty_economic_policy
  pub application_count_fits : length applications ≤ 64
  pub applications_fit : All FitsValidatorApplication applications
  pub applications_absent : leb 5 version ≡ false → applications ≡ []
  pub work_binding_count_fits : length work_bindings ≤ 64
  pub work_bindings_fit : All FitsValidatorWorkBinding work_bindings
  pub work_bindings_absent : leb 6 version ≡ false → work_bindings ≡ []
  pub finalization_fits : FitsFinalizationProof finalization

pub record FitsCompositeRecord (r : CompositeRecordV0) : Type 0 where
  pub sections :
      FitsSections r.version r.tx_batch r.transactions r.validator_epoch r.validator_endpoints
        r.economic_policy r.validator_applications r.validator_work_bindings r.finalized_by
  pub height_fits : IsUint64 r.height
  pub previous_record_hash_fits : IsHash r.previous_record_hash
  pub integer_fits : IsUint64 r.integer
  pub proof_fits : FitsCompositeProof r.proof
  pub state_root_fits : IsHash r.state_root
  pub commit_phase_fits : FitsCommitPhaseCertificate r.commit_phase
  pub commit_phase_absent : has_commit_phase r.version ≡ false → r.commit_phase ≡ empty_commit_phase
  pub lottery_fits : FitsCompositeLotteryProof r.composite_lottery
  pub lottery_absent : leb 10 r.version ≡ false → r.composite_lottery ≡ empty_composite_lottery

pub record FitsPrimeRecord (r : PrimeRecordV0) : Type 0 where
  pub sections :
      FitsSections r.version r.tx_batch r.transactions r.validator_epoch r.validator_endpoints
        r.economic_policy r.validator_applications r.validator_work_bindings r.finalized_by
  pub height_fits : IsUint64 r.height
  pub previous_record_hash_fits : IsHash r.previous_record_hash
  pub integer_fits : IsUint64 r.integer
  pub proof_fits : FitsPrattPrimeProof r.proof
  pub state_root_fits : IsHash r.state_root
  pub genesis_fits : FitsGenesisConfig r.version r.genesis_config
  pub genesis_absent : (r.height == 0) ≡ false → r.genesis_config ≡ empty_genesis_config
