-- ===== src/Records/Read.antt =====
-- The read functions of src/protocol/records.cpp over the sections of a record.
use primechain.Base.{ℕ, List, [], leb, if◌then◌else◌}
use primechain.Base.Text.{Bytes, eq_bytes}
use primechain.Codec.{
  Reader, ◌>>=◌, pure, read_uint64, read_hash, read_bytes, read_string, read_list, read_if,
}
use primechain.Records.Types.{
  Amount, TransactionBatchV0, CompositeProofV0, PrimePowerV0, PrattPrimeProofV0, ValidatorVoteV0,
  CommitCertificateEntryV1, SignedVoteV1, CommitPhaseCertificateV1, RoundChangeVoteV1,
  FinalizationProofV0, CompositeLotteryProofV1, GenesisConfigV1, ValidatorEpochTransitionV1,
  ValidatorEndpointUpdateV1, ValidatorApplicationV1, ValidatorWorkBindingV1, EconomicPolicyUpdateV1,
  locked_round_finalization_rule, zero_hash,
}
use primechain.Records.Write.{
  has_round_changes, genesis_message_record_version, future_validator_epoch_record_version,
}

abbrev pub max_decoded_pratt_factors : ℕ
max_decoded_pratt_factors = 1024

abbrev pub max_decoded_transactions : ℕ
max_decoded_transactions = 10000

abbrev pub max_decoded_tx_inputs : ℕ
max_decoded_tx_inputs = 1024

abbrev pub max_decoded_tx_outputs : ℕ
max_decoded_tx_outputs = 1024

abbrev pub max_decoded_validator_endpoint_updates : ℕ
max_decoded_validator_endpoint_updates = 64

abbrev pub max_decoded_validator_applications : ℕ
max_decoded_validator_applications = 64

abbrev pub max_decoded_validator_work_bindings : ℕ
max_decoded_validator_work_bindings = 64

abbrev pub max_decoded_economic_policy_votes : ℕ
max_decoded_economic_policy_votes = 64

unfoldable pub read_transaction_batch : Reader TransactionBatchV0
read_transaction_batch = do
  transaction_count ← read_uint64
  transaction_merkle_root ← read_hash
  pure (record {
    transaction_count = transaction_count;
    transaction_merkle_root = transaction_merkle_root;
  })

unfoldable pub read_amount : Reader Amount
read_amount = do
  numerator ← read_uint64
  denominator ← read_uint64
  pure (record { numerator = numerator; denominator = denominator })

unfoldable pub read_composite_proof : Reader CompositeProofV0
read_composite_proof = do
  g ← read_uint64
  d ← read_uint64
  e ← read_uint64
  provider_address ← read_string
  signature ← read_bytes
  pure (record { g = g; d = d; e = e; provider_address = provider_address; signature = signature })

unfoldable pub read_prime_power : Reader PrimePowerV0
read_prime_power = do
  prime ← read_uint64
  exponent ← read_uint64
  pure (record { prime = prime; exponent = exponent })

unfoldable pub read_pratt_proof : Reader PrattPrimeProofV0
read_pratt_proof = do
  p ← read_uint64
  witness ← read_uint64
  factors ← read_list max_decoded_pratt_factors read_prime_power
  provider_address ← read_string
  signature ← read_bytes
  pure (record {
    p = p;
    witness = witness;
    factors_of_p_minus_1 = factors;
    provider_address = provider_address;
    signature = signature;
  })

unfoldable pub read_validator_vote : Reader ValidatorVoteV0
read_validator_vote = do
  validator_address ← read_string
  public_key ← read_bytes
  record_hash ← read_hash
  round ← read_uint64
  signature ← read_bytes
  pure (record {
    validator_address = validator_address;
    public_key = public_key;
    record_hash = record_hash;
    round = round;
    signature = signature;
  })

unfoldable pub read_composite_lottery_proof : Reader CompositeLotteryProofV1
read_composite_lottery_proof = do
  round ← read_uint64
  win_bps ← read_uint64
  subject_hash ← read_hash
  assigned_validator ← read_string
  public_key ← read_bytes
  signature ← read_bytes
  pure (record {
    round = round;
    win_bps = win_bps;
    subject_hash = subject_hash;
    assigned_validator = assigned_validator;
    public_key = public_key;
    signature = signature;
  })

unfoldable pub read_commit_certificate_entry : Reader CommitCertificateEntryV1
read_commit_certificate_entry = do
  commitment_hash ← read_hash
  provider_address ← read_string
  public_key ← read_bytes
  signature ← read_bytes
  pure (record {
    commitment_hash = commitment_hash;
    provider_address = provider_address;
    public_key = public_key;
    signature = signature;
  })

unfoldable pub read_signed_vote : Reader SignedVoteV1
read_signed_vote = do
  validator_address ← read_string
  public_key ← read_bytes
  signature ← read_bytes
  pure (record {
    validator_address = validator_address;
    public_key = public_key;
    signature = signature;
  })

unfoldable pub read_commit_phase_certificate : Reader CommitPhaseCertificateV1
read_commit_phase_certificate = do
  integer ← read_uint64
  snapshot_hash ← read_hash
  validator_set ← read_list 16 read_string
  commitments ← read_list 1024 read_commit_certificate_entry
  votes ← read_list 16 read_signed_vote
  pure (record {
    integer = integer;
    snapshot_hash = snapshot_hash;
    validator_set = validator_set;
    commitments = commitments;
    votes = votes;
  })

unfoldable pub read_genesis_config : ℕ → Reader GenesisConfigV1
read_genesis_config record_version = do
  validator_set ← read_list 16 read_string
  genesis_message ← read_if (leb genesis_message_record_version record_version) read_string []
  pure (record { validator_set = validator_set; genesis_message = genesis_message })

unfoldable pub read_validator_epoch_transition : ℕ → Reader ValidatorEpochTransitionV1
read_validator_epoch_transition record_version = do
  let future = leb future_validator_epoch_record_version record_version
  epoch ← read_uint64
  vote_previous_record_hash ← read_if future read_hash zero_hash
  vote_record_integer ← read_if future read_uint64 0
  activation_integer ← read_uint64
  next_validator_set ← read_list 16 read_string
  votes ← read_list 16 read_signed_vote
  pure (record {
    epoch = epoch;
    vote_previous_record_hash = vote_previous_record_hash;
    vote_record_integer = vote_record_integer;
    activation_integer = activation_integer;
    next_validator_set = next_validator_set;
    votes = votes;
  })

unfoldable pub read_validator_endpoint_update : Reader ValidatorEndpointUpdateV1
read_validator_endpoint_update = do
  validator_address ← read_string
  host ← read_string
  port ← read_uint64
  effective_integer ← read_uint64
  sequence ← read_uint64
  public_key ← read_bytes
  signature ← read_bytes
  pure (record {
    validator_address = validator_address;
    host = host;
    port = port;
    effective_integer = effective_integer;
    sequence = sequence;
    public_key = public_key;
    signature = signature;
  })

unfoldable pub read_validator_endpoint_updates : Reader (List ValidatorEndpointUpdateV1)
read_validator_endpoint_updates =
    read_list max_decoded_validator_endpoint_updates read_validator_endpoint_update

unfoldable pub read_validator_application : Reader ValidatorApplicationV1
read_validator_application = do
  candidate_address ← read_string
  host ← read_string
  port ← read_uint64
  record_integer ← read_uint64
  sequence ← read_uint64
  observed_successful ← read_uint64
  observed_total ← read_uint64
  public_key ← read_bytes
  signature ← read_bytes
  pure (record {
    candidate_address = candidate_address;
    host = host;
    port = port;
    record_integer = record_integer;
    sequence = sequence;
    observed_successful = observed_successful;
    observed_total = observed_total;
    public_key = public_key;
    signature = signature;
  })

unfoldable pub read_validator_applications : Reader (List ValidatorApplicationV1)
read_validator_applications =
    read_list max_decoded_validator_applications read_validator_application

unfoldable pub read_validator_work_binding : Reader ValidatorWorkBindingV1
read_validator_work_binding = do
  candidate_address ← read_string
  miner_address ← read_string
  record_integer ← read_uint64
  sequence ← read_uint64
  miner_public_key ← read_bytes
  miner_signature ← read_bytes
  pure (record {
    candidate_address = candidate_address;
    miner_address = miner_address;
    record_integer = record_integer;
    sequence = sequence;
    miner_public_key = miner_public_key;
    miner_signature = miner_signature;
  })

unfoldable pub read_validator_work_bindings : Reader (List ValidatorWorkBindingV1)
read_validator_work_bindings =
    read_list max_decoded_validator_work_bindings read_validator_work_binding

unfoldable pub read_economic_policy_update : ℕ → Reader EconomicPolicyUpdateV1
read_economic_policy_update record_version = do
  transfer_fee ← read_uint64
  min_reserve ← read_if (leb 7 record_version) read_uint64 0
  effective_integer ← read_uint64
  sequence ← read_uint64
  votes ← read_list max_decoded_economic_policy_votes read_signed_vote
  pure (record {
    transfer_fee_micro_units = transfer_fee;
    validator_min_reserve_micro_units = min_reserve;
    effective_integer = effective_integer;
    sequence = sequence;
    votes = votes;
  })

-- The lock members of a legacy vote are cleared.
unfoldable pub read_round_change_vote : Reader RoundChangeVoteV1
read_round_change_vote = do
  validator_address ← read_string
  public_key ← read_bytes
  previous_record_hash ← read_hash
  integer ← read_uint64
  new_round ← read_uint64
  signature ← read_bytes
  pure (record {
    validator_address = validator_address;
    public_key = public_key;
    previous_record_hash = previous_record_hash;
    integer = integer;
    new_round = new_round;
    locked_round = 0;
    locked_candidate_kind = [];
    locked_candidate_hash = zero_hash;
    locked_candidate_payload = [];
    signature = signature;
  })

unfoldable pub read_locked_round_change_vote : Reader RoundChangeVoteV1
read_locked_round_change_vote = do
  validator_address ← read_string
  public_key ← read_bytes
  previous_record_hash ← read_hash
  integer ← read_uint64
  new_round ← read_uint64
  locked_round ← read_uint64
  locked_candidate_kind ← read_string
  locked_candidate_hash ← read_hash
  locked_candidate_payload ← read_bytes
  signature ← read_bytes
  pure (record {
    validator_address = validator_address;
    public_key = public_key;
    previous_record_hash = previous_record_hash;
    integer = integer;
    new_round = new_round;
    locked_round = locked_round;
    locked_candidate_kind = locked_candidate_kind;
    locked_candidate_hash = locked_candidate_hash;
    locked_candidate_payload = locked_candidate_payload;
    signature = signature;
  })

unfoldable pub read_round_change : Bytes → Reader RoundChangeVoteV1
read_round_change rule =
    if eq_bytes rule locked_round_finalization_rule
    then read_locked_round_change_vote
    else read_round_change_vote

unfoldable pub read_finalization_proof : Reader FinalizationProofV0
read_finalization_proof = do
  rule ← read_string
  round_changes ← read_if (has_round_changes rule) (read_list 16 (read_round_change rule)) []
  votes ← read_list 16 read_validator_vote
  pure (record { rule = rule; round_changes = round_changes; votes = votes })
