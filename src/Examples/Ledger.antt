-- ===== src/Examples/Ledger.antt =====
-- The theorems on the ledger at concrete inputs: an address that holds a million units of the prime two and
-- pays some of them, and the reward of the prime seven.
use mathlib.Core.List.{Memᴰ}
use primechain.Base.{ℕ, is_empty, ◌≡◌, refl, false, [], ◌∷◌, arith}
use primechain.Base.Text.{Bytes}
use primechain.Base.Result.{pass}
use primechain.Base.Dict.{number_order, bytes_order, asset_order}
use primechain.Records.Types.{TransactionV0}
use primechain.Node.Ledger.{Ledger}
use primechain.Node.Ledger.Balance.{IsBalanced}
use primechain.Node.Settings.{default_settings}
use primechain.Node.Transactions.Applied.{NoncesFit}
use primechain.Node.Transactions.Nonces.{
  Sent, apply_transactions-conserves, apply_transactions-nonces, apply_transactions-replay,
}
use primechain.Node.Rewards.Minting.{Minted, apply_prime_ledger-mints}
use primechain.Node.Rewards.{apply_prime_ledger}
use primechain.Base.Dict.{find, put, at, sum_where}
use primechain.Base.Text.{text, eq_bytes, lt_bytes}
use primechain.Node.Ledger.{◌>>=◌, ◌>>◌, pure, check, checked_add, credited, credit, debited, debit}
use primechain.Node.Ledger.Balance.{held}
use primechain.Node.Settings.{
  is_authenticated_transfer_v1, is_validator_reserve_lock_v1, is_validator_reserve_unlock_v1,
  is_fee_pool_distribution_v1, is_validator_reward_pool_distribution_v1,
}
use primechain.Node.Shapes.{
  micro_units, validate_authenticated_transfer_shape, validate_validator_reserve_lock_shape,
  validate_validator_reserve_unlock_shape,
}
use primechain.Node.Transactions.{
  prefix_error, development_transaction_signature, verify_development_transaction_signature,
  validate_transaction_signature, add_units, add_checked, add_amount, sum_inputs, sum_outputs,
  add_fee, same_entries, require_same, balanced_debits, check_pools, check_shapes, check_nonce,
  check_fee, check_transaction, debit_all, credit_outputs, credit_all, set_nonce, debit_address,
  apply_transaction, apply_each, pay_fees, apply_transactions,
}
use primechain.Crypto.{to_hex, is_protocol_signature_address}
use primechain.Records.Addresses.{is_protocol_address, development_address_from_public_key}
use primechain.Codec.{le_bytes, append_uint64, append_string}
use primechain.Finalization.Development.{is_development_address}
use primechain.Examples.Wire.{prime_seven}
use primechain.Examples.Consensus.{toy}

abbrev alice_key : Bytes
alice_key = text "alice"

abbrev alice : Bytes
alice = development_address_from_public_key toy alice_key

abbrev bob : Bytes
bob = text "pcdev1_bob"

abbrev miner : Bytes
miner = text "pcdev1_miner"

abbrev unsigned_payment : TransactionV0
unsigned_payment = record {
  version = 0;
  inputs = record { prime = 2; amount = record { numerator = 500; denominator = 1 } } ∷ [];
  outputs =
      record {
        prime = 2;
        amount = record { numerator = 499; denominator = 1 };
        receiver_address = bob;
      }
      ∷ [];
  fee = record { prime = 2; amount = record { numerator = 1; denominator = 1 } };
  nonce = 1;
  sender_address = alice;
  sender_public_key = alice_key;
  signature = [];
}

abbrev alice_pays_bob : TransactionV0
alice_pays_bob = record unsigned_payment {
  signature = development_transaction_signature toy unsigned_payment;
}

-- Alice holds the prime two, and two composites wait for the next prime.
abbrev alice_ledger : Ledger
alice_ledger = record {
  balances = ((alice, 2), 1000000) ∷ [];
  total_supply = (2, 1000000) ∷ [];
  account_nonces = [];
  pending_composite_providers = miner ∷ (bob ∷ []);
}

alice_ledger-IsBalanced : IsBalanced alice_ledger
unfolding held sum_where at find
alice_ledger-IsBalanced = record { supply_held = λ q. ground arith; held_fits = λ q. ground arith }

alice_ledger-NoncesFit : NoncesFit alice_ledger
unfolding at find
alice_ledger-NoncesFit address = omega arith

seven_unminted : at 7 alice_ledger.total_supply ≡ 0
unfolding at find
seven_unminted = refl

miner_named : is_empty miner ≡ false
unfolding text
miner_named = refl

paid :
    apply_transactions toy default_settings (alice_pays_bob ∷ []) miner 4 alice_ledger
    ≡ (pass, (apply_transactions toy default_settings (alice_pays_bob ∷ []) miner 4 alice_ledger).1)
unfolding find put at sum_where text eq_bytes lt_bytes ◌>>=◌ ◌>>◌ pure check checked_add credited
    credit debited debit held is_authenticated_transfer_v1 is_validator_reserve_lock_v1
    is_validator_reserve_unlock_v1 is_fee_pool_distribution_v1
    is_validator_reward_pool_distribution_v1 micro_units validate_authenticated_transfer_shape
    validate_validator_reserve_lock_shape validate_validator_reserve_unlock_shape prefix_error
    development_transaction_signature verify_development_transaction_signature
    validate_transaction_signature add_units add_checked add_amount sum_inputs sum_outputs add_fee
    same_entries require_same balanced_debits check_pools check_shapes check_nonce check_fee
    check_transaction debit_all credit_outputs credit_all set_nonce debit_address apply_transaction
    apply_each pay_fees apply_transactions to_hex is_protocol_signature_address is_protocol_address
    development_address_from_public_key le_bytes append_uint64 append_string is_development_address
paid = refl

abbrev after_payment : Ledger
after_payment =
    (apply_transactions toy default_settings (alice_pays_bob ∷ []) miner 4 alice_ledger).1

apply_transactions-conserves_example :
    IsBalanced after_payment
    × ((q : ℕ) → at q after_payment.total_supply ≡ at q alice_ledger.total_supply)
apply_transactions-conserves_example =
    apply_transactions-conserves toy default_settings (alice_pays_bob ∷ []) miner 4 alice_ledger
      after_payment alice_ledger-IsBalanced alice_ledger-NoncesFit miner_named paid

apply_transactions-nonces_example :
    NoncesFit after_payment × Sent (alice_pays_bob ∷ []) alice_ledger after_payment
apply_transactions-nonces_example =
    apply_transactions-nonces toy default_settings (alice_pays_bob ∷ []) miner 4 alice_ledger
      after_payment alice_ledger-IsBalanced alice_ledger-NoncesFit paid

apply_transactions-replay_example : ¬ (
    apply_transactions toy default_settings (alice_pays_bob ∷ []) bob 5 after_payment
    ≡ (pass, after_payment))
apply_transactions-replay_example =
    apply_transactions-replay toy default_settings (alice_pays_bob ∷ []) miner 4 alice_ledger
      after_payment alice_pays_bob toy default_settings [] bob 5 after_payment
      alice_ledger-IsBalanced alice_ledger-NoncesFit paid (Memᴰ.head refl)

apply_prime_ledger-mints_example :
    (l : Ledger) × (apply_prime_ledger default_settings prime_seven alice_ledger ≡ (pass, l))
    × Minted 7 alice_ledger l
apply_prime_ledger-mints_example =
    apply_prime_ledger-mints default_settings prime_seven alice_ledger alice_ledger-IsBalanced
      seven_unminted
