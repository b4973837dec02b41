-- ===== src/Examples/Node.antt =====
-- The theorems on appended records at concrete inputs: a development chain at the prime three, to which the
-- composite four and then the prime five are appended.
use primechain.Base.{ℕ, ◌+◌, ◌<◌, ◌^◌, ◌≡◌, refl, [], ◌∷◌, inl, arith, true}
use primechain.Base.Text.{Bytes}
use primechain.Base.Result.{err, Check, pass}
use primechain.Base.Dict.{number_order, bytes_order, asset_order}
use primechain.Records.Types.{
  ValidatorVoteV0, CompositeRecordV0, PrimeRecordV0, zero_hash, empty_genesis_config,
  empty_finalization, development_finalization_rule,
}
use primechain.Node.Ledger.{empty_ledger}
use primechain.Node.Rewards.{asset_micro_units}
use primechain.Node.Settings.{default_settings}
use primechain.Node.State.{SequentialNode, StoredRecord}
use primechain.Node.Append.Refusals.{append_composite-refused, append_prime-refused}
use primechain.Node.Append.Invariant.{IsNode, append_composite-IsNode, append_prime-IsNode}
use primechain.Base.Dict.{find, put, at, sum_where}
use primechain.Base.Text.{text, eq_bytes}
use primechain.Node.Ledger.{◌>>=◌, ◌>>◌, pure, check, credited, credit}
use primechain.Node.Ledger.Balance.{held}
use primechain.Node.Settings.{active_fee_pool_address}
use primechain.Node.Candidates.{
  validate_common, unauthorized_set, restore_ledger, try_ledger, check_composite_parts,
  check_prime_parts, check_composite_candidate, check_prime_candidate, apply_record,
  validate_composite_candidate, validate_prime_candidate,
}
use primechain.Node.Metadata.{
  validate_transaction_batch, has_validator_epoch_transition, has_economic_policy_update,
  check_kind, validate_record_metadata_version, check_metadata, to_math_pratt_proof,
  to_legacy_composite_proof, validate_prime_provider_signature,
  validate_composite_provider_signature,
}
use primechain.Node.Rewards.{
  apply_composite_ledger, credit_each, credit_discovery, credit_rewards, clear_pending,
  apply_prime_ledger,
}
use primechain.Node.Append.{
  note_validator_participation, reset_participants, enter_epoch, apply_economic_policy,
  advance_settings, finish_append, composite_vote_target, prime_vote_target, store_record,
  store_composite, store_prime, append_composite, append_prime,
}
use primechain.Node.State.{make_stored_composite_record}
use primechain.Node.Transactions.{
  prefix_error, credit_all, apply_each, pay_fees, apply_transactions,
}
use primechain.Records.Addresses.{is_protocol_address, validator_fee_pool_address}
use primechain.Records.Serialize.{
  composite_sections, serialize_composite_record_internal, serialize_composite_record,
  prime_sections, serialize_prime_record_internal,
}
use primechain.Records.Merkle.{legacy_flat_transaction_batch_root, transaction_batch_root}
use primechain.Codec.{le_bytes, append_uint64, append_hash, append_string}
use primechain.Finalization.Development.{
  is_development_address, contains, development_vote_signature, check_development_votes,
  verify_development_finalization,
}
use primechain.Finalization.Verify.{verify_record_finalization}
use primechain.Finalization.Identity.{uses_subject_record_identity}
use primechain.Finalization.Epoch.{is_absent_transition, verify_validator_epoch_transition}
use primechain.Finalization.RoundChange.{is_zero_hash}
use primechain.Finalization.Hashes.Composite
use primechain.Finalization.Hashes.Prime
use primechain.Math.Prime.{is_prime}
use primechain.Math.Pratt.{check_factors, is_product, verify_pratt_proof}
use primechain.Math.Modular.{mul_mod_loop, mul_mod, pow_mod_loop, pow_mod}
use primechain.Math.Gcd.{gcd}
use primechain.Math.Factorization.{
  canonical_loop, is_canonical_factorization, power_loop, product_loop, multiply_factorization,
}
use primechain.Governance.Commit.{verify_commit_phase_certificate}
use primechain.Governance.Lottery.{verify_composite_lottery_proof}
use primechain.Governance.Metadata.{
  verify_genesis_config, check_endpoint_updates, verify_validator_endpoint_updates,
  check_work_bindings, verify_validator_work_bindings, check_applications,
  verify_validator_applications,
}
use primechain.Governance.Policy.{is_absent_policy, verify_economic_policy_update}
use primechain.Math.Composite.{verify_composite_proof}
use primechain.Node.Append.Run.{Run, Run-IsNode}
use primechain.Examples.Wire.{composite_nine, prime_seven}
use primechain.Examples.Consensus.{toy}

-- The genesis left no ledger entries here, so that each sum is short.
abbrev at_three : SequentialNode
at_three = record {
  status = record {
    has_genesis = true;
    height = 1;
    frontier_integer = 3;
    latest_record_hash = zero_hash;
  };
  ledger = empty_ledger;
  settings = default_settings;
}

at_three-IsNode : IsNode at_three
unfolding held sum_where at find
at_three-IsNode = record {
  balanced = record { supply_held = λ q. refl; held_fits = λ q. omega arith };
  nonces_fit = λ address. omega arith;
  supply = λ q. inl refl;
  unminted = λ q above. refl;
  frontier = refl;
}

abbrev vote_of : Bytes → Bytes → ValidatorVoteV0
vote_of validator hash = record {
  validator_address = validator;
  public_key = [];
  record_hash = hash;
  round = 1;
  signature = development_vote_signature toy validator hash 1;
}

abbrev unsigned_four : CompositeRecordV0
unsigned_four = record composite_nine {
  version = 0;
  height = 2;
  integer = 4;
  proof = record { g = 4; d = 2; e = 2; provider_address = text "pcdev1_miner"; signature = [] };
  tx_batch = record { transaction_count = 0; transaction_merkle_root = zero_hash };
  transactions = [];
  finalized_by = empty_finalization;
}

abbrev four : CompositeRecordV0
four = record unsigned_four {
  finalized_by = record {
    rule = development_finalization_rule;
    round_changes = [];
    votes =
        vote_of (text "pcdev1_validator_a") (Composite.candidate_record_hash toy unsigned_four)
        ∷ (vote_of (text "pcdev1_validator_b") (Composite.candidate_record_hash toy unsigned_four)
            ∷ []);
  };
}

abbrev stores : StoredRecord → Check
stores stored = pass

abbrev disk_full : StoredRecord → Check
disk_full stored = err "failed to append record"

abbrev at_four : SequentialNode
at_four = (append_composite toy stores four at_three).1

four_appended : append_composite toy stores four at_three ≡ (pass, at_four)
unfolding find put at sum_where text eq_bytes ◌>>=◌ ◌>>◌ pure check credited credit held
    active_fee_pool_address validate_common unauthorized_set restore_ledger try_ledger
    check_composite_parts check_prime_parts check_composite_candidate check_prime_candidate
    apply_record validate_composite_candidate validate_prime_candidate validate_transaction_batch
    has_validator_epoch_transition has_economic_policy_update check_kind
    validate_record_metadata_version check_metadata to_math_pratt_proof to_legacy_composite_proof
    validate_prime_provider_signature validate_composite_provider_signature apply_composite_ledger
    credit_each credit_discovery credit_rewards clear_pending apply_prime_ledger
    note_validator_participation reset_participants enter_epoch apply_economic_policy
    advance_settings finish_append composite_vote_target prime_vote_target store_record
    store_composite store_prime append_composite append_prime make_stored_composite_record
    prefix_error credit_all apply_each pay_fees apply_transactions is_protocol_address
    validator_fee_pool_address composite_sections serialize_composite_record_internal
    serialize_composite_record prime_sections serialize_prime_record_internal
    legacy_flat_transaction_batch_root transaction_batch_root le_bytes append_uint64 append_hash
    append_string is_development_address contains development_vote_signature check_development_votes
    verify_development_finalization verify_record_finalization uses_subject_record_identity
    is_absent_transition verify_validator_epoch_transition is_zero_hash
    Composite.finalized_record_hash Composite.canonical_stored_record_hash
    Composite.candidate_record_hash Prime.finalized_record_hash Prime.canonical_stored_record_hash
    Prime.candidate_record_hash is_prime check_factors is_product verify_pratt_proof mul_mod_loop
    mul_mod pow_mod_loop pow_mod gcd canonical_loop is_canonical_factorization power_loop
    product_loop multiply_factorization verify_commit_phase_certificate
    verify_composite_lottery_proof verify_genesis_config check_endpoint_updates
    verify_validator_endpoint_updates check_work_bindings verify_validator_work_bindings
    check_applications verify_validator_applications is_absent_policy verify_economic_policy_update
    verify_composite_proof
four_appended = refl

append_composite-IsNode_example :
    IsNode at_four
    × (at_four.status.frontier_integer ≡ 4)
    × ((q : ℕ) → at q at_four.ledger.total_supply ≡ at q empty_ledger.total_supply)
append_composite-IsNode_example =
    append_composite-IsNode toy stores four at_three at_four at_three-IsNode (omega arith)
      four_appended

abbrev unstored : SequentialNode
unstored = (append_composite toy disk_full four at_three).1

four_refused :
    append_composite toy disk_full four at_three ≡ (err "failed to append record", unstored)
unfolding find put at sum_where text eq_bytes ◌>>=◌ ◌>>◌ pure check credited credit held
    active_fee_pool_address validate_common unauthorized_set restore_ledger try_ledger
    check_composite_parts check_prime_parts check_composite_candidate check_prime_candidate
    apply_record validate_composite_candidate validate_prime_candidate validate_transaction_batch
    has_validator_epoch_transition has_economic_policy_update check_kind
    validate_record_metadata_version check_metadata to_math_pratt_proof to_legacy_composite_proof
    validate_prime_provider_signature validate_composite_provider_signature apply_composite_ledger
    credit_each credit_discovery credit_rewards clear_pending apply_prime_ledger
    note_validator_participation reset_participants enter_epoch apply_economic_policy
    advance_settings finish_append composite_vote_target prime_vote_target store_record
    store_composite store_prime append_composite append_prime make_stored_composite_record
    prefix_error credit_all apply_each pay_fees apply_transactions is_protocol_address
    validator_fee_pool_address composite_sections serialize_composite_record_internal
    serialize_composite_record prime_sections serialize_prime_record_internal
    legacy_flat_transaction_batch_root transaction_batch_root le_bytes append_uint64 append_hash
    append_string is_development_address contains development_vote_signature check_development_votes
    verify_development_finalization verify_record_finalization uses_subject_record_identity
    is_absent_transition verify_validator_epoch_transition is_zero_hash
    Composite.finalized_record_hash Composite.canonical_stored_record_hash
    Composite.candidate_record_hash Prime.finalized_record_hash Prime.canonical_stored_record_hash
    Prime.candidate_record_hash is_prime check_factors is_product verify_pratt_proof mul_mod_loop
    mul_mod pow_mod_loop pow_mod gcd canonical_loop is_canonical_factorization power_loop
    product_loop multiply_factorization verify_commit_phase_certificate
    verify_composite_lottery_proof verify_genesis_config check_endpoint_updates
    verify_validator_endpoint_updates check_work_bindings verify_validator_work_bindings
    check_applications verify_validator_applications is_absent_policy verify_economic_policy_update
    verify_composite_proof
four_refused = refl

append_composite-refused_example : unstored ≡ at_three
append_composite-refused_example =
    append_composite-refused toy disk_full four at_three unstored "failed to append record"
      four_refused

four_below_limit : at_four.status.frontier_integer + 1 < 2 ^ 64
unfolding find put at sum_where text eq_bytes ◌>>=◌ ◌>>◌ pure check credited credit held
    active_fee_pool_address validate_common unauthorized_set restore_ledger try_ledger
    check_composite_parts check_prime_parts check_composite_candidate check_prime_candidate
    apply_record validate_composite_candidate validate_prime_candidate validate_transaction_batch
    has_validator_epoch_transition has_economic_policy_update check_kind
    validate_record_metadata_version check_metadata to_math_pratt_proof to_legacy_composite_proof
    validate_prime_provider_signature validate_composite_provider_signature apply_composite_ledger
    credit_each credit_discovery credit_rewards clear_pending apply_prime_ledger
    note_validator_participation reset_participants enter_epoch apply_economic_policy
    advance_settings finish_append composite_vote_target prime_vote_target store_record
    store_composite store_prime append_composite append_prime make_stored_composite_record
    prefix_error credit_all apply_each pay_fees apply_transactions is_protocol_address
    validator_fee_pool_address composite_sections serialize_composite_record_internal
    serialize_composite_record prime_sections serialize_prime_record_internal
    legacy_flat_transaction_batch_root transaction_batch_root le_bytes append_uint64 append_hash
    append_string is_development_address contains development_vote_signature check_development_votes
    verify_development_finalization verify_record_finalization uses_subject_record_identity
    is_absent_transition verify_validator_epoch_transition is_zero_hash
    Composite.finalized_record_hash Composite.canonical_stored_record_hash
    Composite.candidate_record_hash Prime.finalized_record_hash Prime.canonical_stored_record_hash
    Prime.candidate_record_hash is_prime check_factors is_product verify_pratt_proof mul_mod_loop
    mul_mod pow_mod_loop pow_mod gcd canonical_loop is_canonical_factorization power_loop
    product_loop multiply_factorization verify_commit_phase_certificate
    verify_composite_lottery_proof verify_genesis_config check_endpoint_updates
    verify_validator_endpoint_updates check_work_bindings verify_validator_work_bindings
    check_applications verify_validator_applications is_absent_policy verify_economic_policy_update
    verify_composite_proof
four_below_limit = omega arith

abbrev unsigned_five : PrimeRecordV0
unsigned_five = record prime_seven {
  version = 0;
  height = 3;
  previous_record_hash = at_four.status.latest_record_hash;
  integer = 5;
  proof = record {
    p = 5;
    witness = 2;
    factors_of_p_minus_1 = record { prime = 2; exponent = 2 } ∷ [];
    provider_address = text "pcdev1_miner";
    signature = [];
  };
  tx_batch = record { transaction_count = 0; transaction_merkle_root = zero_hash };
  transactions = [];
  genesis_config = empty_genesis_config;
  finalized_by = empty_finalization;
}

abbrev five : PrimeRecordV0
five = record unsigned_five {
  finalized_by = record {
    rule = development_finalization_rule;
    round_changes = [];
    votes =
        vote_of (text "pcdev1_validator_a") (Prime.candidate_record_hash toy unsigned_five)
        ∷ (vote_of (text "pcdev1_validator_b") (Prime.candidate_record_hash toy unsigned_five)
            ∷ []);
  };
}

abbrev at_five : SequentialNode
at_five = (append_prime toy stores five at_four).1

five_appended : append_prime toy stores five at_four ≡ (pass, at_five)
unfolding find put at sum_where text eq_bytes ◌>>=◌ ◌>>◌ pure check credited credit held
    active_fee_pool_address validate_common unauthorized_set restore_ledger try_ledger
    check_composite_parts check_prime_parts check_composite_candidate check_prime_candidate
    apply_record validate_composite_candidate validate_prime_candidate validate_transaction_batch
    has_validator_epoch_transition has_economic_policy_update check_kind
    validate_record_metadata_version check_metadata to_math_pratt_proof to_legacy_composite_proof
    validate_prime_provider_signature validate_composite_provider_signature apply_composite_ledger
    credit_each credit_discovery credit_rewards clear_pending apply_prime_ledger
    note_validator_participation reset_participants enter_epoch apply_economic_policy
    advance_settings finish_append composite_vote_target prime_vote_target store_record
    store_composite store_prime append_composite append_prime make_stored_composite_record
    prefix_error credit_all apply_each pay_fees apply_transactions is_protocol_address
    validator_fee_pool_address composite_sections serialize_composite_record_internal
    serialize_composite_record prime_sections serialize_prime_record_internal
    legacy_flat_transaction_batch_root transaction_batch_root le_bytes append_uint64 append_hash
    append_string is_development_address contains development_vote_signature check_development_votes
    verify_development_finalization verify_record_finalization uses_subject_record_identity
    is_absent_transition verify_validator_epoch_transition is_zero_hash
    Composite.finalized_record_hash Composite.canonical_stored_record_hash
    Composite.candidate_record_hash Prime.finalized_record_hash Prime.canonical_stored_record_hash
    Prime.candidate_record_hash is_prime check_factors is_product verify_pratt_proof mul_mod_loop
    mul_mod pow_mod_loop pow_mod gcd canonical_loop is_canonical_factorization power_loop
    product_loop multiply_factorization verify_commit_phase_certificate
    verify_composite_lottery_proof verify_genesis_config check_endpoint_updates
    verify_validator_endpoint_updates check_work_bindings verify_validator_work_bindings
    check_applications verify_validator_applications is_absent_policy verify_economic_policy_update
    verify_composite_proof
five_appended = refl

append_prime-IsNode_example :
    IsNode at_five
    × (at_five.status.frontier_integer ≡ at_four.status.frontier_integer + 1)
    × (at (at_four.status.frontier_integer + 1) at_five.ledger.total_supply ≡ asset_micro_units)
append_prime-IsNode_example =
    append_prime-IsNode toy stores five at_four at_five
      (append_composite-IsNode toy stores four at_three at_four at_three-IsNode (omega arith)
        four_appended).0
      four_below_limit five_appended

abbrev not_stored : SequentialNode
not_stored = (append_prime toy disk_full five at_four).1

five_refused : append_prime toy disk_full five at_four ≡ (err "failed to append record", not_stored)
unfolding find put at sum_where text eq_bytes ◌>>=◌ ◌>>◌ pure check credited credit held
    active_fee_pool_address validate_common unauthorized_set restore_ledger try_ledger
    check_composite_parts check_prime_parts check_composite_candidate check_prime_candidate
    apply_record validate_composite_candidate validate_prime_candidate validate_transaction_batch
    has_validator_epoch_transition has_economic_policy_update check_kind
    validate_record_metadata_version check_metadata to_math_pratt_proof to_legacy_composite_proof
    validate_prime_provider_signature validate_composite_provider_signature apply_composite_ledger
    credit_each credit_discovery credit_rewards clear_pending apply_prime_ledger
    note_validator_participation reset_participants enter_epoch apply_economic_policy
    advance_settings finish_append composite_vote_target prime_vote_target store_record
    store_composite store_prime append_composite append_prime make_stored_composite_record
    prefix_error credit_all apply_each pay_fees apply_transactions is_protocol_address
    validator_fee_pool_address composite_sections serialize_composite_record_internal
    serialize_composite_record prime_sections serialize_prime_record_internal
    legacy_flat_transaction_batch_root transaction_batch_root le_bytes append_uint64 append_hash
    append_string is_development_address contains development_vote_signature check_development_votes
    verify_development_finalization verify_record_finalization uses_subject_record_identity
    is_absent_transition verify_validator_epoch_transition is_zero_hash
    Composite.finalized_record_hash Composite.canonical_stored_record_hash
    Composite.candidate_record_hash Prime.finalized_record_hash Prime.canonical_stored_record_hash
    Prime.candidate_record_hash is_prime check_factors is_product verify_pratt_proof mul_mod_loop
    mul_mod pow_mod_loop pow_mod gcd canonical_loop is_canonical_factorization power_loop
    product_loop multiply_factorization verify_commit_phase_certificate
    verify_composite_lottery_proof verify_genesis_config check_endpoint_updates
    verify_validator_endpoint_updates check_work_bindings verify_validator_work_bindings
    check_applications verify_validator_applications is_absent_policy verify_economic_policy_update
    verify_composite_proof
five_refused = refl

append_prime-refused_example : not_stored ≡ at_four
append_prime-refused_example =
    append_prime-refused toy disk_full five at_four not_stored "failed to append record"
      five_refused

two_records : Run toy 2 at_three at_five
two_records =
    Run.composite stores four 1 at_three at_four at_five four_appended
      (Run.prime stores five 0 at_four at_five at_five five_appended (Run.stop at_five))

Run-IsNode_example : IsNode at_five × (at_five.status.frontier_integer ≡ 3 + 2)
Run-IsNode_example = Run-IsNode toy 2 at_three at_five at_three-IsNode (omega arith) two_records
