-- ===== src/Records/RecordRead.antt =====
-- The stages of deserializeCompositeRecord and deserializePrimeRecord.
use primechain.Base.{ℕ, none, some, List, [], leb, ltb, ◌==◌, if◌then◌else◌}
use primechain.Codec.{
  Reader, ◌>>=◌, pure, consumed, read_uint64, read_hash, read_bytes, read_list, read_if,
}
use primechain.Codec.Stage.{accepted}
use primechain.Records.Types.{
  TransactionV0, FinalizationProofV0, CompositeLotteryProofV1, ValidatorEndpointUpdateV1,
  ValidatorApplicationV1, ValidatorWorkBindingV1, EconomicPolicyUpdateV1, CompositeRecordV0,
  PrimeRecordV0, empty_commit_phase, empty_validator_epoch, empty_economic_policy,
  empty_composite_lottery, empty_genesis_config,
}
use primechain.Records.Serialize.{has_commit_phase}
use primechain.Records.Read.{
  max_decoded_transactions, read_transaction_batch, read_composite_proof, read_pratt_proof,
  read_composite_lottery_proof, read_commit_phase_certificate, read_genesis_config,
  read_validator_epoch_transition, read_validator_endpoint_updates, read_validator_applications,
  read_validator_work_bindings, read_economic_policy_update, read_finalization_proof,
}
use primechain.Records.TransactionDecode.{deserialize_transaction}

unfoldable pub read_transaction : Reader TransactionV0
read_transaction = do bytes ← read_bytes; accepted (deserialize_transaction bytes)

unfoldable pub read_transaction_list : Reader (List TransactionV0)
read_transaction_list = read_list max_decoded_transactions read_transaction

-- The out-parameters of readOptionalMetadataAndFinalization.
pub record Metadata : Type 0 where
  pub endpoints : List ValidatorEndpointUpdateV1
  pub policy : EconomicPolicyUpdateV1
  pub applications : List ValidatorApplicationV1
  pub work_bindings : List ValidatorWorkBindingV1
  pub finalization : FinalizationProofV0

-- `version < 3`
unfoldable pub read_finalization_only : Reader Metadata
read_finalization_only = do
  finalization ← read_finalization_proof
  pure (record {
    endpoints = [];
    policy = empty_economic_policy;
    applications = [];
    work_bindings = [];
    finalization = finalization;
  })

unfoldable pub read_with_endpoints : Reader Metadata
read_with_endpoints = do
  endpoints ← read_validator_endpoint_updates
  finalization ← read_finalization_proof
  pure (record {
    endpoints = endpoints;
    policy = empty_economic_policy;
    applications = [];
    work_bindings = [];
    finalization = finalization;
  })

-- Version 3: the attempt with endpoints counts only if it consumes the whole input.
unfoldable pub read_endpoints_or_not : Reader Metadata
read_endpoints_or_not bytes = elim (read_with_endpoints bytes) [
  | none ↦ read_finalization_only bytes
  | some (metadata, rest) ↦
      if consumed rest then some (metadata, rest) else read_finalization_only bytes
]

-- Versions from 4 on: each section from its version on.
unfoldable pub read_metadata_sections : ℕ → Reader Metadata
read_metadata_sections version = do
  endpoints ← read_validator_endpoint_updates
  policy ← read_economic_policy_update version
  applications ← read_if (leb 5 version) read_validator_applications []
  work_bindings ← read_if (leb 6 version) read_validator_work_bindings []
  finalization ← read_finalization_proof
  pure (record {
    endpoints = endpoints;
    policy = policy;
    applications = applications;
    work_bindings = work_bindings;
    finalization = finalization;
  })

unfoldable pub read_optional_metadata_and_finalization : ℕ → Reader Metadata
read_optional_metadata_and_finalization version =
    if ltb version 3
    then read_finalization_only
    else if leb 4 version
    then read_metadata_sections version
    else read_endpoints_or_not

pub record LotteryMetadata : Type 0 where
  pub metadata : Metadata
  pub lottery : CompositeLotteryProofV1

-- `record.version >= 10`
unfoldable pub read_lottery_metadata : ℕ → Reader LotteryMetadata
read_lottery_metadata version = do
  endpoints ← read_validator_endpoint_updates
  policy ← read_economic_policy_update version
  applications ← read_validator_applications
  work_bindings ← read_validator_work_bindings
  lottery ← read_composite_lottery_proof
  finalization ← read_finalization_proof
  pure (record {
    metadata = record {
      endpoints = endpoints;
      policy = policy;
      applications = applications;
      work_bindings = work_bindings;
      finalization = finalization;
    };
    lottery = lottery;
  })

unfoldable pub read_plain_metadata : ℕ → Reader LotteryMetadata
read_plain_metadata version = do
  metadata ← read_optional_metadata_and_finalization version
  pure (record { metadata = metadata; lottery = empty_composite_lottery })

unfoldable pub read_composite_metadata : ℕ → Reader LotteryMetadata
read_composite_metadata version =
    if leb 10 version then read_lottery_metadata version else read_plain_metadata version

-- From the version to the metadata: every failure has one message.
unfoldable pub read_composite_payload : Reader CompositeRecordV0
read_composite_payload = do
  version ← read_uint64
  height ← read_uint64
  previous_record_hash ← read_hash
  integer ← read_uint64
  proof ← read_composite_proof
  tx_batch ← read_transaction_batch
  transactions ← read_transaction_list
  state_root ← read_hash
  commit_phase ← read_if (has_commit_phase version) read_commit_phase_certificate empty_commit_phase
  validator_epoch ←
      read_if (leb 2 version) (read_validator_epoch_transition version) empty_validator_epoch
  last ← read_composite_metadata version
  pure (record {
    version = version;
    height = height;
    previous_record_hash = previous_record_hash;
    integer = integer;
    proof = proof;
    tx_batch = tx_batch;
    transactions = transactions;
    state_root = state_root;
    commit_phase = commit_phase;
    validator_epoch = validator_epoch;
    validator_endpoints = last.metadata.endpoints;
    economic_policy = last.metadata.policy;
    validator_applications = last.metadata.applications;
    validator_work_bindings = last.metadata.work_bindings;
    composite_lottery = last.lottery;
    finalized_by = last.metadata.finalization;
  })

-- The metadata of a prime record, which must reach the end of the input.
unfoldable pub to_the_end {ℓ} : {A : Type ℓ} → Reader A → Reader A
to_the_end p bytes = elim (p bytes) [
  | none ↦ none
  | some (a, rest) ↦ if consumed rest then some (a, rest) else none
]

unfoldable pub read_prime_payload : Reader PrimeRecordV0
read_prime_payload = do
  version ← read_uint64
  height ← read_uint64
  previous_record_hash ← read_hash
  integer ← read_uint64
  proof ← read_pratt_proof
  tx_batch ← read_transaction_batch
  transactions ← read_transaction_list
  state_root ← read_hash
  genesis_config ← read_if (height == 0) (read_genesis_config version) empty_genesis_config
  validator_epoch ←
      read_if (leb 2 version) (read_validator_epoch_transition version) empty_validator_epoch
  last ← read_optional_metadata_and_finalization version
  pure (record {
    version = version;
    height = height;
    previous_record_hash = previous_record_hash;
    integer = integer;
    proof = proof;
    tx_batch = tx_batch;
    transactions = transactions;
    state_root = state_root;
    genesis_config = genesis_config;
    validator_epoch = validator_epoch;
    validator_endpoints = last.endpoints;
    economic_policy = last.policy;
    validator_applications = last.applications;
    validator_work_bindings = last.work_bindings;
    finalized_by = last.finalization;
  })
