-- ===== src/Node/Settings.antt =====
-- The members of a SequentialNode that its ledger's operations read and do not write, and the kinds of
-- transaction that they tell apart.
use primechain.Base.{
  ℕ, Bool, true, false, ◌&&◌, ◌||◌, Option, none, some, List, [], ◌∷◌, is_empty, ◌==◌,
  if◌then◌else◌,
}
use primechain.Base.Text.{Bytes, eq_bytes, lt_bytes}
use primechain.Base.Dict.{Dict, find, number_order}
use primechain.Crypto.{is_protocol_signature_address}
use primechain.Records.Types.{TransactionV0}
use primechain.Records.Addresses.{
  is_protocol_validator_reward_pool_address, validator_fee_pool_address,
}
use primechain.Finalization.Quorum.{binary_search}

pub record Settings : Type 0 where
  pub validator_set : List Bytes
  pub validator_sets_by_epoch : Dict ℕ (List Bytes)
  pub validator_epoch : ℕ
  pub transfer_fee_micro_units : ℕ
  pub validator_min_reserve_micro_units : ℕ
  pub fee_distribution_participants : List Bytes
  pub validator_reward_distribution_participants : List Bytes

abbrev pub default_settings : Settings
default_settings = record {
  validator_set = [];
  validator_sets_by_epoch = [];
  validator_epoch = 0;
  transfer_fee_micro_units = 1;
  validator_min_reserve_micro_units = 5000000;
  fee_distribution_participants = [];
  validator_reward_distribution_participants = [];
}

unfoldable pub is_authenticated_transfer_v1 : TransactionV0 → Bool
is_authenticated_transfer_v1 tx =
    (tx.version == 2) && is_protocol_signature_address tx.sender_address

unfoldable pub is_validator_reserve_lock_v1 : TransactionV0 → Bool
is_validator_reserve_lock_v1 tx =
    (tx.version == 4) && is_protocol_signature_address tx.sender_address

unfoldable pub is_validator_reserve_unlock_v1 : TransactionV0 → Bool
is_validator_reserve_unlock_v1 tx =
    (tx.version == 8) && is_protocol_signature_address tx.sender_address

unfoldable pub is_fee_pool_distribution_v1 : TransactionV0 → Bytes → Bool
is_fee_pool_distribution_v1 tx active_fee_pool_address =
    (tx.version == 3) && eq_bytes tx.sender_address active_fee_pool_address

unfoldable pub is_validator_reward_pool_distribution_v1 : TransactionV0 → Bool
is_validator_reward_pool_distribution_v1 tx =
    (tx.version == 5) && is_protocol_validator_reward_pool_address tx.sender_address

unfoldable pub has_fee_pool_distribution_v1 : List TransactionV0 → Bytes → Bool
has_fee_pool_distribution_v1 [] active_fee_pool_address = false
has_fee_pool_distribution_v1 (tx ∷ transactions) active_fee_pool_address =
    is_fee_pool_distribution_v1 tx active_fee_pool_address
    || has_fee_pool_distribution_v1 transactions active_fee_pool_address

unfoldable pub has_validator_reward_pool_distribution_v1 : List TransactionV0 → Bool
has_validator_reward_pool_distribution_v1 [] = false
has_validator_reward_pool_distribution_v1 (tx ∷ transactions) =
    is_validator_reward_pool_distribution_v1 tx
    || has_validator_reward_pool_distribution_v1 transactions

-- std::find over the addresses.
unfoldable pub contains_address : List Bytes → Bytes → Bool
contains_address [] address = false
contains_address (x ∷ xs) address = eq_bytes x address || contains_address xs address

-- operator== of two vectors of addresses.
unfoldable pub same_addresses : List Bytes → List Bytes → Bool
same_addresses [] [] = true
same_addresses [] (y ∷ ys) = false
same_addresses (x ∷ xs) [] = false
same_addresses (x ∷ xs) (y ∷ ys) = eq_bytes x y && same_addresses xs ys

-- addSortedUnique: an insertion at std::lower_bound.
unfoldable pub add_sorted_unique : List Bytes → Bytes → List Bytes
add_sorted_unique [] address = address ∷ []
add_sorted_unique (x ∷ xs) address =
    if lt_bytes x address
    then x ∷ add_sorted_unique xs address
    else if eq_bytes x address
    then x ∷ xs
    else address ∷ (x ∷ xs)

-- validatorFeePoolAddress()
unfoldable pub active_fee_pool_address : Settings → Bytes
active_fee_pool_address s = validator_fee_pool_address s.validator_epoch

unfoldable pub participants_in : List Bytes → List Bytes → List Bytes
participants_in participants [] = []
participants_in participants (validator ∷ validators) =
    if binary_search participants validator
    then validator ∷ participants_in participants validators
    else participants_in participants validators

unfoldable pub eligible_validators_from_participants : List Bytes → List Bytes → List Bytes
eligible_validators_from_participants validator_set participants =
    let recipients = participants_in participants validator_set in
    if is_empty validator_set
    then []
    else if is_empty participants
    then validator_set
    else if is_empty recipients
    then validator_set
    else recipients

unfoldable pub fee_distribution_recipients : Settings → List Bytes
fee_distribution_recipients s =
    eligible_validators_from_participants s.validator_set s.fee_distribution_participants

or_nobody : Option (List Bytes) → List Bytes
or_nobody none = []
or_nobody (some validators) = validators

-- validatorRewardDistributionRecipientsForEpoch
unfoldable pub reward_recipients_for_epoch : Settings → ℕ → List Bytes
unfolding or_nobody
reward_recipients_for_epoch s epoch = or_nobody (find epoch s.validator_sets_by_epoch)
