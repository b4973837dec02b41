-- ===== src/Records/Types.antt =====
-- The structs of include/primechain/protocol/records.hpp. A Hash256 is its 32 bytes, a string and an
-- Address their bytes. `empty_…` is the value that `= {}` or a default member gives.
use primechain.Base.{ℕ, List, [], ◌∷◌}
use primechain.Base.Text.{Bytes, text}

pub record Amount : Type 0 where
  pub numerator : ℕ
  pub denominator : ℕ

pub record TxInputV0 : Type 0 where
  pub prime : ℕ
  pub amount : Amount

pub record TxOutputV0 : Type 0 where
  pub prime : ℕ
  pub amount : Amount
  pub receiver_address : Bytes

pub record FeeSpecV0 : Type 0 where
  pub prime : ℕ
  pub amount : Amount

pub record TransactionV0 : Type 0 where
  pub version : ℕ
  pub inputs : List TxInputV0
  pub outputs : List TxOutputV0
  pub fee : FeeSpecV0
  pub nonce : ℕ
  pub sender_address : Bytes
  pub sender_public_key : Bytes
  pub signature : Bytes

pub record TransactionBatchV0 : Type 0 where
  pub transaction_count : ℕ
  pub transaction_merkle_root : Bytes

pub record CompositeProofV0 : Type 0 where
  pub g : ℕ
  pub d : ℕ
  pub e : ℕ
  pub provider_address : Bytes
  pub signature : Bytes

pub record PrimePowerV0 : Type 0 where
  pub prime : ℕ
  pub exponent : ℕ

pub record PrattPrimeProofV0 : Type 0 where
  pub p : ℕ
  pub witness : ℕ
  pub factors_of_p_minus_1 : List PrimePowerV0
  pub provider_address : Bytes
  pub signature : Bytes

pub record ValidatorVoteV0 : Type 0 where
  pub validator_address : Bytes
  pub public_key : Bytes
  pub record_hash : Bytes
  pub round : ℕ
  pub signature : Bytes

pub record CommitCertificateEntryV1 : Type 0 where
  pub commitment_hash : Bytes
  pub provider_address : Bytes
  pub public_key : Bytes
  pub signature : Bytes

-- CommitCertificateVoteV1, ValidatorEpochVoteV1 and EconomicPolicyVoteV1 have the same members.
pub record SignedVoteV1 : Type 0 where
  pub validator_address : Bytes
  pub public_key : Bytes
  pub signature : Bytes

pub record CommitPhaseCertificateV1 : Type 0 where
  pub integer : ℕ
  pub snapshot_hash : Bytes
  pub validator_set : List Bytes
  pub commitments : List CommitCertificateEntryV1
  pub votes : List SignedVoteV1

pub record RoundChangeVoteV1 : Type 0 where
  pub validator_address : Bytes
  pub public_key : Bytes
  pub previous_record_hash : Bytes
  pub integer : ℕ
  pub new_round : ℕ
  pub locked_round : ℕ
  pub locked_candidate_kind : Bytes
  pub locked_candidate_hash : Bytes
  pub locked_candidate_payload : Bytes
  pub signature : Bytes

pub record FinalizationProofV0 : Type 0 where
  pub rule : Bytes
  pub round_changes : List RoundChangeVoteV1
  pub votes : List ValidatorVoteV0

pub record CompositeLotteryProofV1 : Type 0 where
  pub round : ℕ
  pub win_bps : ℕ
  pub subject_hash : Bytes
  pub assigned_validator : Bytes
  pub public_key : Bytes
  pub signature : Bytes

pub record GenesisConfigV1 : Type 0 where
  pub validator_set : List Bytes
  pub genesis_message : Bytes

pub record ValidatorEpochTransitionV1 : Type 0 where
  pub epoch : ℕ
  pub vote_previous_record_hash : Bytes
  pub vote_record_integer : ℕ
  pub activation_integer : ℕ
  pub next_validator_set : List Bytes
  pub votes : List SignedVoteV1

pub record ValidatorEndpointUpdateV1 : Type 0 where
  pub validator_address : Bytes
  pub host : Bytes
  pub port : ℕ
  pub effective_integer : ℕ
  pub sequence : ℕ
  pub public_key : Bytes
  pub signature : Bytes

pub record ValidatorApplicationV1 : Type 0 where
  pub candidate_address : Bytes
  pub host : Bytes
  pub port : ℕ
  pub record_integer : ℕ
  pub sequence : ℕ
  pub observed_successful : ℕ
  pub observed_total : ℕ
  pub public_key : Bytes
  pub signature : Bytes

pub record ValidatorWorkBindingV1 : Type 0 where
  pub candidate_address : Bytes
  pub miner_address : Bytes
  pub record_integer : ℕ
  pub sequence : ℕ
  pub miner_public_key : Bytes
  pub miner_signature : Bytes

pub record EconomicPolicyUpdateV1 : Type 0 where
  pub transfer_fee_micro_units : ℕ
  pub validator_min_reserve_micro_units : ℕ
  pub effective_integer : ℕ
  pub sequence : ℕ
  pub votes : List SignedVoteV1

pub record CompositeRecordV0 : Type 0 where
  pub version : ℕ
  pub height : ℕ
  pub previous_record_hash : Bytes
  pub integer : ℕ
  pub proof : CompositeProofV0
  pub tx_batch : TransactionBatchV0
  pub transactions : List TransactionV0
  pub state_root : Bytes
  pub commit_phase : CommitPhaseCertificateV1
  pub validator_epoch : ValidatorEpochTransitionV1
  pub validator_endpoints : List ValidatorEndpointUpdateV1
  pub economic_policy : EconomicPolicyUpdateV1
  pub validator_applications : List ValidatorApplicationV1
  pub validator_work_bindings : List ValidatorWorkBindingV1
  pub composite_lottery : CompositeLotteryProofV1
  pub finalized_by : FinalizationProofV0

pub record PrimeRecordV0 : Type 0 where
  pub version : ℕ
  pub height : ℕ
  pub previous_record_hash : Bytes
  pub integer : ℕ
  pub proof : PrattPrimeProofV0
  pub tx_batch : TransactionBatchV0
  pub transactions : List TransactionV0
  pub state_root : Bytes
  pub genesis_config : GenesisConfigV1
  pub validator_epoch : ValidatorEpochTransitionV1
  pub validator_endpoints : List ValidatorEndpointUpdateV1
  pub economic_policy : EconomicPolicyUpdateV1
  pub validator_applications : List ValidatorApplicationV1
  pub validator_work_bindings : List ValidatorWorkBindingV1
  pub finalized_by : FinalizationProofV0

-- Hash256{}
abbrev pub zero_hash : Bytes
zero_hash =
    0 ∷ 0 ∷ 0 ∷ 0 ∷ 0 ∷ 0 ∷ 0 ∷ 0 ∷ 0 ∷ 0 ∷ 0 ∷ 0 ∷ 0 ∷ 0 ∷ 0 ∷ 0 ∷ 0 ∷ 0 ∷ 0 ∷ 0 ∷ 0 ∷ 0 ∷ 0 ∷ 0
    ∷ 0 ∷ 0 ∷ 0 ∷ 0 ∷ 0 ∷ 0 ∷ 0 ∷ 0 ∷ []

abbrev pub development_finalization_rule : Bytes
development_finalization_rule = text "fixed-2-of-3-dev"

abbrev pub signed_finalization_rule : Bytes
signed_finalization_rule = text "fixed-2-of-3-mldsa65-v2"

abbrev pub round_finalization_rule : Bytes
round_finalization_rule = text "fixed-2-of-3-mldsa65-rounds-v3"

abbrev pub locked_round_finalization_rule : Bytes
locked_round_finalization_rule = text "fixed-2-of-3-mldsa65-rounds-locks-v4"

abbrev pub empty_commit_phase : CommitPhaseCertificateV1
empty_commit_phase = record {
  integer = 0;
  snapshot_hash = zero_hash;
  validator_set = [];
  commitments = [];
  votes = [];
}

abbrev pub empty_validator_epoch : ValidatorEpochTransitionV1
empty_validator_epoch = record {
  epoch = 0;
  vote_previous_record_hash = zero_hash;
  vote_record_integer = 0;
  activation_integer = 0;
  next_validator_set = [];
  votes = [];
}

abbrev pub empty_economic_policy : EconomicPolicyUpdateV1
empty_economic_policy = record {
  transfer_fee_micro_units = 0;
  validator_min_reserve_micro_units = 0;
  effective_integer = 0;
  sequence = 0;
  votes = [];
}

abbrev pub empty_composite_lottery : CompositeLotteryProofV1
empty_composite_lottery = record {
  round = 0;
  win_bps = 0;
  subject_hash = zero_hash;
  assigned_validator = [];
  public_key = [];
  signature = [];
}

abbrev pub empty_genesis_config : GenesisConfigV1
empty_genesis_config = record { validator_set = []; genesis_message = [] }

abbrev pub empty_finalization : FinalizationProofV0
empty_finalization = record { rule = development_finalization_rule; round_changes = []; votes = [] }
