-- ===== src/Node/Append.antt =====
-- appendComposite and appendPrime of node/sequential_node.cpp. `append_stored` is what RecordStore::append
-- returns for a stored record.
pub mod Checked
pub mod Refusals
pub mod Stored
pub mod Invariant
pub mod Run
use primechain.Base.{
  ℕ, ◌+◌, ◌%◌, ◌^◌, Bool, true, false, not, ◌&&◌, ◌||◌, List, [], ◌∷◌, ◌++◌, map, leb, ◌==◌,
  if◌then◌else◌,
}
use primechain.Base.Text.{Bytes, eq_bytes}
use primechain.Base.Result.{Result, ok, err, Check, pass, refuse_if}
use primechain.Base.Dict.{put, number_order}
use primechain.Crypto.{Crypto, is_protocol_signature_address}
use primechain.Records.Types.{
  TransactionV0, FinalizationProofV0, ValidatorEpochTransitionV1, EconomicPolicyUpdateV1,
  CompositeRecordV0, PrimeRecordV0, locked_round_finalization_rule,
}
use primechain.Finalization.Hashes.Composite
use primechain.Finalization.Hashes.Prime
use primechain.Finalization.Verify.{verify_record_finalization}
use primechain.Node.Ledger.{Ledger, Step}
use primechain.Node.Metadata.{has_validator_epoch_transition, has_economic_policy_update}
use primechain.Node.Rewards.{apply_composite_ledger, apply_prime_ledger}
use primechain.Node.Settings.{
  Settings, has_fee_pool_distribution_v1, has_validator_reward_pool_distribution_v1,
  add_sorted_unique, active_fee_pool_address,
}
use primechain.Node.State.{
  SequentialNodeStatus, SequentialNode, StoredRecord, make_stored_composite_record,
  make_stored_prime_record,
}
use primechain.Node.Candidates.{
  validate_composite_candidate, validate_prime_candidate, apply_record,
}

abbrev pub subject_hash_record_version : ℕ
subject_hash_record_version = 11

-- The addresses whose votes a record carries, noted one by one.
unfoldable pub note_participants : Bool → List Bytes → List Bytes → List Bytes
note_participants note [] participants = participants
note_participants note (address ∷ addresses) participants = note_participants note addresses (
    if is_protocol_signature_address address && note
    then add_sorted_unique participants address
    else participants)

unfoldable pub finalization_voters : FinalizationProofV0 → List Bytes
finalization_voters proof =
    map (λ vote. vote.validator_address) proof.votes
    ++ map (λ change. change.validator_address) proof.round_changes

unfoldable pub composite_voters : CompositeRecordV0 → List Bytes
composite_voters r =
    map (λ vote. vote.validator_address) r.commit_phase.votes ++ finalization_voters r.finalized_by

-- noteValidatorParticipation
unfoldable pub note_validator_participation : List Bytes → Bool → Bool → Settings → Settings
note_validator_participation voters note_fee note_reward s = record s {
  fee_distribution_participants = note_participants note_fee voters s.fee_distribution_participants;
  validator_reward_distribution_participants =
      note_participants note_reward voters s.validator_reward_distribution_participants;
}

unfoldable pub reset_participants : Bool → Bool → Settings → Settings
reset_participants reset_fee reset_reward s = record s {
  fee_distribution_participants = if reset_fee then [] else s.fee_distribution_participants;
  validator_reward_distribution_participants =
      if reset_reward then [] else s.validator_reward_distribution_participants;
}

unfoldable pub enter_epoch : ValidatorEpochTransitionV1 → Settings → Settings
enter_epoch transition s =
    if has_validator_epoch_transition transition
    then record s {
      validator_sets_by_epoch =
          put transition.epoch transition.next_validator_set s.validator_sets_by_epoch;
      validator_set = transition.next_validator_set;
      validator_epoch = transition.epoch;
    }
    else s

-- `record_integer + 1` is computed on 64 bits.
unfoldable pub apply_economic_policy : EconomicPolicyUpdateV1 → ℕ → Settings → Check × Settings
apply_economic_policy update record_integer s =
    if not (has_economic_policy_update update)
    then (pass, s)
    else if (update.transfer_fee_micro_units == 0)
        || ((update.validator_min_reserve_micro_units == 0)
            || not (update.effective_integer == (record_integer + 1) % 2 ^ 64))
    then (err "economic policy update does not match active frontier", s)
    else (
      pass,
      record s {
        transfer_fee_micro_units = update.transfer_fee_micro_units;
        validator_min_reserve_micro_units = update.validator_min_reserve_micro_units;
      },
    )

unfoldable pub resets_fee : Settings → List TransactionV0 → ValidatorEpochTransitionV1 → Bool
resets_fee s transactions transition =
    has_fee_pool_distribution_v1 transactions (active_fee_pool_address s)
    || has_validator_epoch_transition transition

unfoldable pub resets_reward : List TransactionV0 → ValidatorEpochTransitionV1 → Bool
resets_reward transactions transition =
    has_validator_reward_pool_distribution_v1 transactions
    || has_validator_epoch_transition transition

-- What a stored record does to the settings, up to its policy.
unfoldable pub advance_settings :
    List Bytes → List TransactionV0 → ValidatorEpochTransitionV1 → Settings → Settings
advance_settings voters transactions transition s =
    let reset_fee = resets_fee s transactions transition in
    let reset_reward = resets_reward transactions transition in
    enter_epoch transition (
      note_validator_participation voters (not reset_fee) (not reset_reward)
        (reset_participants reset_fee reset_reward s))

-- What follows the store's append.
unfoldable pub finish_append :
    StoredRecord
    → List Bytes
    → List TransactionV0
    → ValidatorEpochTransitionV1
    → EconomicPolicyUpdateV1
    → SequentialNode
    → Check × SequentialNode
finish_append stored voters transactions transition policy node =
    let (valid, settings) =
      apply_economic_policy policy stored.integer
        (advance_settings voters transactions transition node.settings) in
    (
      valid,
      record node {
        status = record node.status {
          height = stored.height;
          frontier_integer = stored.integer;
          latest_record_hash = stored.record_hash;
        };
        settings = settings;
      },
    )

-- The eight members that are put back where the ledger or the store refuses.
unfoldable pub restore : SequentialNode → SequentialNode → SequentialNode
restore before after = record after {
  ledger = record after.ledger {
    balances = before.ledger.balances;
    total_supply = before.ledger.total_supply;
    account_nonces = before.ledger.account_nonces;
    pending_composite_providers = before.ledger.pending_composite_providers;
  };
  settings = record after.settings {
    transfer_fee_micro_units = before.settings.transfer_fee_micro_units;
    validator_min_reserve_micro_units = before.settings.validator_min_reserve_micro_units;
    fee_distribution_participants = before.settings.fee_distribution_participants;
    validator_reward_distribution_participants =
        before.settings.validator_reward_distribution_participants;
  };
}

-- Goes on with the node that a part of the function leaves, or ends there.
abbrev pub or_stop :
    Check × SequentialNode → (SequentialNode → Check × SequentialNode) → Check × SequentialNode
or_stop (ok t, node) rest = rest node
or_stop (err e, node) rest = (err e, node)

abbrev pub or_restore :
    SequentialNode
    → Check × SequentialNode
    → (SequentialNode → Check × SequentialNode)
    → Check × SequentialNode
or_restore before (ok t, node) rest = rest node
or_restore before (err e, node) rest = (err e, restore before node)

abbrev pub on_ledger : Step (Unit {0}) → SequentialNode → Check × SequentialNode
on_ledger step node =
    let (valid, ledger) = step node.ledger in (valid, record node { ledger = ledger })

module _ (crypto : Crypto) where
  -- finalizationVoteTargetHash of the records of both kinds.
  unfoldable pub composite_vote_target : CompositeRecordV0 → Bytes
  composite_vote_target r =
      if leb subject_hash_record_version r.version
      then Composite.subject_record_hash crypto r
      else if eq_bytes r.finalized_by.rule locked_round_finalization_rule
      then Composite.legacy_candidate_record_hash_without_finalization crypto r
      else Composite.candidate_record_hash crypto r

  unfoldable pub prime_vote_target : PrimeRecordV0 → Bytes
  prime_vote_target r =
      if leb subject_hash_record_version r.version
      then Prime.subject_record_hash crypto r
      else if eq_bytes r.finalized_by.rule locked_round_finalization_rule
      then Prime.legacy_candidate_record_hash_without_finalization crypto r
      else Prime.candidate_record_hash crypto r

  abbrev pub composite_finalized : CompositeRecordV0 → Settings → Check
  composite_finalized r s =
      verify_record_finalization crypto r.finalized_by (composite_vote_target r)
        r.previous_record_hash r.integer s.validator_set

  abbrev pub prime_finalized : PrimeRecordV0 → Settings → Check
  prime_finalized r s =
      verify_record_finalization crypto r.finalized_by (prime_vote_target r) r.previous_record_hash
        r.integer s.validator_set

module _ (crypto : Crypto) (append_stored : StoredRecord → Check) where
  -- The ledger's change, the store's append, and what follows it.
  unfoldable pub store_record :
      Step (Unit {0})
      → StoredRecord
      → List Bytes
      → List TransactionV0
      → ValidatorEpochTransitionV1
      → EconomicPolicyUpdateV1
      → SequentialNode
      → Check × SequentialNode
  store_record step stored voters transactions transition policy before =
      or_restore before (on_ledger step before) (λ changed.
        or_restore before (append_stored stored, changed)
          (finish_append stored voters transactions transition policy))

  unfoldable pub store_composite : CompositeRecordV0 → SequentialNode → Check × SequentialNode
  store_composite r node =
      store_record
        (apply_record crypto node.settings r.transactions r.integer (apply_composite_ledger r))
        (make_stored_composite_record crypto r) (composite_voters r) r.transactions
        r.validator_epoch r.economic_policy node

  unfoldable pub store_prime : PrimeRecordV0 → SequentialNode → Check × SequentialNode
  store_prime r node =
      store_record
        (apply_record crypto node.settings r.transactions r.integer
          (apply_prime_ledger node.settings r))
        (make_stored_prime_record crypto r) (finalization_voters r.finalized_by) r.transactions
        r.validator_epoch r.economic_policy node

  unfoldable pub append_composite : CompositeRecordV0 → SequentialNode → Check × SequentialNode
  append_composite r node =
      or_stop (validate_composite_candidate crypto r node)
        (λ node. or_stop (composite_finalized crypto r node.settings, node) (store_composite r))

  unfoldable pub append_prime : PrimeRecordV0 → SequentialNode → Check × SequentialNode
  append_prime r node =
      or_stop (validate_prime_candidate crypto r node)
        (λ node. or_stop (prime_finalized crypto r node.settings, node) (store_prime r))
