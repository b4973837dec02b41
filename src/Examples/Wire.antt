-- ===== src/Examples/Wire.antt =====
-- The round trips of the wire format at concrete records.
use primechain.Base.{◌≡◌, refl, true, [], ◌∷◌, arith}
use primechain.Base.Text.{text}
use primechain.Base.Result.{ok}
use primechain.Codec.{append_list, append_bytes, append_string, append_uint64, le_bytes}
use primechain.Records.Types.{
  Amount, TransactionV0, TransactionBatchV0, ValidatorVoteV0, FinalizationProofV0,
  CompositeRecordV0, PrimeRecordV0, zero_hash, development_finalization_rule, empty_commit_phase,
  empty_validator_epoch, empty_economic_policy, empty_composite_lottery,
}
use primechain.Records.Write.{
  serialize_transaction, append_tx_input, append_tx_output, append_fee_spec, append_amount,
}
use primechain.Records.Serialize.{serialize_composite_record}
use primechain.Records.TransactionDecode.{deserialize_transaction}
use primechain.Records.RecordDecode.{deserialize_composite_record}
use primechain.Records.WellFormed.{
  FitsAmount, FitsTransaction, FitsSections, FitsCompositeRecord, FitsPrimeRecord,
  FitsFinalizationProof, IsSized,
}
use primechain.Records.RoundTrip.Transactions.{deserialize-serialize_transaction}
use primechain.Records.RoundTrip.Whole.{deserialize-serialize_composite_record}

abbrev half : Amount
half = record { numerator = 1; denominator = 2 }

abbrev pub payment : TransactionV0
payment = record {
  version = 1;
  inputs = record { prime = 7; amount = half } ∷ [];
  outputs = record { prime = 7; amount = half; receiver_address = text "pcdev1_b" } ∷ [];
  fee = record { prime = 2; amount = record { numerator = 0; denominator = 1 } };
  nonce = 3;
  sender_address = text "pcdev1_a";
  sender_public_key = 1 ∷ (2 ∷ []);
  signature = 9 ∷ [];
}

half-FitsAmount : FitsAmount half
half-FitsAmount = record { numerator_fits = omega arith; denominator_fits = omega arith }

payment-FitsTransaction : FitsTransaction payment
unfolding text
payment-FitsTransaction = record {
  version_fits = omega arith;
  input_count_fits = omega arith;
  inputs_fit = (record { prime_fits = omega arith; amount_fits = half-FitsAmount }, tt);
  output_count_fits = omega arith;
  outputs_fit = (
    record {
      prime_fits = omega arith;
      amount_fits = half-FitsAmount;
      receiver_address_fits = omega arith;
    },
    tt,
  );
  fee_fits = record {
    prime_fits = omega arith;
    amount_fits = record { numerator_fits = omega arith; denominator_fits = omega arith };
  };
  nonce_fits = omega arith;
  sender_address_fits = omega arith;
  sender_public_key_fits = omega arith;
  signature_fits = omega arith;
}

deserialize-serialize_transaction_example :
    deserialize_transaction (serialize_transaction payment true) ≡ ok payment
deserialize-serialize_transaction_example =
    deserialize-serialize_transaction payment payment-FitsTransaction

abbrev vote : ValidatorVoteV0
vote = record {
  validator_address = text "pcdev1_validator_a";
  public_key = [];
  record_hash = zero_hash;
  round = 1;
  signature = zero_hash;
}

abbrev one_vote : FinalizationProofV0
one_vote = record { rule = development_finalization_rule; round_changes = []; votes = vote ∷ [] }

one_vote-FitsFinalizationProof : FitsFinalizationProof one_vote
unfolding text
one_vote-FitsFinalizationProof = record {
  rule_fits = omega arith;
  round_change_count_fits = omega arith;
  round_changes_fit = tt;
  round_changes_absent = λ _. refl;
  vote_count_fits = omega arith;
  votes_fit = (
    record {
      validator_address_fits = omega arith;
      public_key_fits = omega arith;
      record_hash_fits = refl;
      round_fits = omega arith;
      signature_fits = omega arith;
    },
    tt,
  );
}

abbrev batch : TransactionBatchV0
batch = record { transaction_count = 1; transaction_merkle_root = zero_hash }

payment_size : IsSized (serialize_transaction payment true)
unfolding serialize_transaction append_tx_input append_tx_output append_fee_spec append_amount
    append_list append_bytes append_string append_uint64 le_bytes text
payment_size = omega arith

payment_sections :
    FitsSections 13 batch
      (payment ∷ [])
      empty_validator_epoch
      []
      empty_economic_policy
      []
      []
      one_vote
payment_sections = record {
  version_fits = omega arith;
  batch_fits = record { transaction_count_fits = omega arith; transaction_merkle_root_fits = refl };
  transaction_count_fits = omega arith;
  transactions_fit =
      (record { transaction_fits = payment-FitsTransaction; serialized_fits = payment_size }, tt);
  epoch_fits = record {
    epoch_fits = omega arith;
    anchor_hash_fits = refl;
    anchor_integer_fits = omega arith;
    anchor_absent = λ _. (refl, refl);
    activation_fits = omega arith;
    validator_count_fits = omega arith;
    validators_fit = tt;
    vote_count_fits = omega arith;
    votes_fit = tt;
  };
  epoch_absent = λ _. refl;
  endpoint_count_fits = omega arith;
  endpoints_fit = tt;
  endpoints_absent = λ _. refl;
  policy_fits = record {
    fee_fits = omega arith;
    reserve_fits = omega arith;
    reserve_absent = λ _. refl;
    effective_fits = omega arith;
    sequence_fits = omega arith;
    vote_count_fits = omega arith;
    votes_fit = tt;
  };
  policy_absent = λ _. refl;
  application_count_fits = omega arith;
  applications_fit = tt;
  applications_absent = λ _. refl;
  work_binding_count_fits = omega arith;
  work_bindings_fit = tt;
  work_bindings_absent = λ _. refl;
  finalization_fits = one_vote-FitsFinalizationProof;
}

abbrev pub composite_nine : CompositeRecordV0
composite_nine = record {
  version = 13;
  height = 8;
  previous_record_hash = zero_hash;
  integer = 9;
  proof = record { g = 9; d = 3; e = 3; provider_address = text "pcdev1_miner"; signature = [] };
  tx_batch = batch;
  transactions = payment ∷ [];
  state_root = zero_hash;
  commit_phase = empty_commit_phase;
  validator_epoch = empty_validator_epoch;
  validator_endpoints = [];
  economic_policy = empty_economic_policy;
  validator_applications = [];
  validator_work_bindings = [];
  composite_lottery = empty_composite_lottery;
  finalized_by = one_vote;
}

composite_nine-FitsCompositeRecord : FitsCompositeRecord composite_nine
unfolding text
composite_nine-FitsCompositeRecord = record {
  sections = payment_sections;
  height_fits = omega arith;
  previous_record_hash_fits = refl;
  integer_fits = omega arith;
  proof_fits = record {
    g_fits = omega arith;
    d_fits = omega arith;
    e_fits = omega arith;
    provider_address_fits = omega arith;
    signature_fits = omega arith;
  };
  state_root_fits = refl;
  commit_phase_fits = record {
    integer_fits = omega arith;
    snapshot_hash_fits = refl;
    validator_count_fits = omega arith;
    validators_fit = tt;
    commitment_count_fits = omega arith;
    commitments_fit = tt;
    vote_count_fits = omega arith;
    votes_fit = tt;
  };
  commit_phase_absent = λ _. refl;
  lottery_fits = record {
    round_fits = omega arith;
    win_bps_fits = omega arith;
    subject_hash_fits = refl;
    assigned_validator_fits = omega arith;
    public_key_fits = omega arith;
    signature_fits = omega arith;
  };
  lottery_absent = λ _. refl;
}

deserialize-serialize_composite_record_example :
    deserialize_composite_record (serialize_composite_record composite_nine) ≡ ok composite_nine
deserialize-serialize_composite_record_example =
    deserialize-serialize_composite_record composite_nine composite_nine-FitsCompositeRecord

abbrev pub prime_seven : PrimeRecordV0
prime_seven = record {
  version = 13;
  height = 0;
  previous_record_hash = zero_hash;
  integer = 7;
  proof = record {
    p = 7;
    witness = 3;
    factors_of_p_minus_1 =
        record { prime = 2; exponent = 1 } ∷ (record { prime = 3; exponent = 1 } ∷ []);
    provider_address = text "pcdev1_miner";
    signature = [];
  };
  tx_batch = batch;
  transactions = payment ∷ [];
  state_root = zero_hash;
  genesis_config = record {
    validator_set = text "pcdev1_a" ∷ [];
    genesis_message = text "genesis";
  };
  validator_epoch = empty_validator_epoch;
  validator_endpoints = [];
  economic_policy = empty_economic_policy;
  validator_applications = [];
  validator_work_bindings = [];
  finalized_by = one_vote;
}

pub prime_seven-FitsPrimeRecord : FitsPrimeRecord prime_seven
unfolding text
prime_seven-FitsPrimeRecord = record {
  sections = payment_sections;
  height_fits = omega arith;
  previous_record_hash_fits = refl;
  integer_fits = omega arith;
  proof_fits = record {
    p_fits = omega arith;
    witness_fits = omega arith;
    factor_count_fits = omega arith;
    factors_fit = (
      record { prime_fits = omega arith; exponent_fits = omega arith },
      (record { prime_fits = omega arith; exponent_fits = omega arith }, tt),
    );
    provider_address_fits = omega arith;
    signature_fits = omega arith;
  };
  state_root_fits = refl;
  genesis_fits = record {
    validator_count_fits = omega arith;
    validators_fit = (omega arith, tt);
    message_fits = omega arith;
    message_absent = λ late. absurd (cc late);
  };
  genesis_absent = λ later. absurd (cc later);
}
