-- ===== src/Node/Transactions.antt =====
-- SequentialNode::applyTransactions, with the signatures that it checks.
pub mod Sums
pub mod Conservation
pub mod Applied
pub mod Nonces
use Prim.Native.String.{String}
use Prim.Native.String
use primechain.Base.{
  ℕ, ◌+◌, ◌%◌, ◌^◌, Bool, true, false, not, ◌&&◌, ◌||◌, Option, none, some, List, [], ◌∷◌, ◌++◌,
  length, is_empty, leb, ltb, ◌==◌, if◌then◌else◌,
}
use primechain.Base.Text.{Bytes, text, eq_bytes}
use primechain.Base.Result.{Result, ok, err, Check, pass, refuse_if}
use primechain.Base.Result
use primechain.Base.Dict.{Dict, put, at, number_order, bytes_order, asset_order}
use primechain.Codec.{append_string, append_bytes}
use primechain.Crypto.{Crypto, is_protocol_signature_address, address_from_protocol_public_key}
use primechain.Crypto.Packed.{check_protocol_message_signature, transaction_signing_payload}
use primechain.Records.Types.{TxInputV0, TxOutputV0, FeeSpecV0, TransactionV0}
use primechain.Records.Write.{serialize_transaction}
use primechain.Records.Addresses.{
  is_protocol_address, development_address_from_public_key, validator_reserve_address,
  validator_reward_pool_epoch,
}
use primechain.Node.Ledger.{Ledger, Step, ◌>>=◌, ◌>>◌, pure, check, checked_add, credit, debit}
use primechain.Node.Settings.{
  Settings, is_validator_reserve_unlock_v1, is_fee_pool_distribution_v1,
  is_validator_reward_pool_distribution_v1, active_fee_pool_address, reward_recipients_for_epoch,
}
use primechain.Node.Shapes.{
  micro_units, front_input_prime, validate_authenticated_transfer_shape,
  validate_validator_reserve_lock_shape, validate_validator_reserve_unlock_shape,
  validate_validator_pool_distribution_shape,
}

unfoldable pub prefix_error {ℓ} : {A : Type ℓ} → String → Result A → Result A
prefix_error prefix (ok a) = ok a
prefix_error prefix (err e) = err (String.◌++◌ prefix e)

abbrev pub full_validator_reward_distribution_effective_integer : ℕ
full_validator_reward_distribution_effective_integer = 26488

module _ (crypto : Crypto) where
  open crypto use {sha3_256}

  unfoldable pub development_transaction_signature : TransactionV0 → Bytes
  development_transaction_signature tx = sha3_256 (
      append_string (text "primechain-dev-tx-signature-v0")
      ++ (append_bytes tx.sender_public_key ++ append_bytes (serialize_transaction tx false)))

  unfoldable pub verify_development_transaction_signature : TransactionV0 → Bool
  verify_development_transaction_signature tx =
      eq_bytes tx.sender_address (development_address_from_public_key crypto tx.sender_public_key)
      && eq_bytes tx.signature (development_transaction_signature tx)

  unfoldable pub verify_authenticated_transaction_signature : TransactionV0 → Check
  verify_authenticated_transaction_signature tx =
      Result.◌>>◌
        (refuse_if (not (is_protocol_signature_address tx.sender_address))
          "transaction sender is not an ML-DSA-65 address")
        (Result.◌>>◌
          (refuse_if
            (not (
              eq_bytes tx.sender_address
                (address_from_protocol_public_key crypto tx.sender_public_key)))
            "transaction sender address does not match public key")
          (check_protocol_message_signature crypto tx.sender_public_key
            (transaction_signing_payload (serialize_transaction tx false)) tx.signature))

  unfoldable pub validate_transaction_signature : TransactionV0 → Bytes → Bool → Check
  validate_transaction_signature tx active_fee_pool allow_development =
      if is_fee_pool_distribution_v1 tx active_fee_pool
        || is_validator_reward_pool_distribution_v1 tx
      then refuse_if (not (is_empty tx.sender_public_key) || not (is_empty tx.signature))
          "validator pool distribution must not be wallet-signed"
      else if is_protocol_signature_address tx.sender_address
      then Result.◌>>◌
          (refuse_if (not (tx.version == 2) && (not (tx.version == 4) && not (tx.version == 8)))
            "authenticated transaction requires version 2, validator reserve-lock version 4, or validator reserve-unlock version 8")
          (verify_authenticated_transaction_signature tx)
      else if allow_development
          && ((tx.version == 0) && verify_development_transaction_signature tx)
      then pass
      else err "transaction requires an authenticated ML-DSA-65 sender"

-- `checkedAdd(d[prime], *units)` on a map of the transaction.
unfoldable pub add_units : String → ℕ → Option ℕ → Dict ℕ ℕ → Result (Dict ℕ ℕ)
add_units overflow prime none d = err overflow
add_units overflow prime (some total) d = ok (put prime total d)

unfoldable pub add_checked : String → ℕ → ℕ → Dict ℕ ℕ → Result (Dict ℕ ℕ)
add_checked overflow prime units d = add_units overflow prime (checked_add (at prime d) units) d

unfoldable pub add_amount : String → String → ℕ → Option ℕ → Dict ℕ ℕ → Result (Dict ℕ ℕ)
add_amount invalid overflow prime none d = err invalid
add_amount invalid overflow prime (some units) d = add_checked overflow prime units d

unfoldable pub sum_inputs : List TxInputV0 → Dict ℕ ℕ → Result (Dict ℕ ℕ)
sum_inputs [] debits = ok debits
sum_inputs (input ∷ inputs) debits =
    Result.◌>>=◌
      (add_amount "transaction input amount must be positive integer micro-units"
        "transaction input amount overflow" input.prime (micro_units input.amount) debits)
      (sum_inputs inputs)

unfoldable pub sum_outputs : List TxOutputV0 → Dict ℕ ℕ → Result (Dict ℕ ℕ)
sum_outputs [] credits = ok credits
sum_outputs (output ∷ outputs) credits =
    Result.◌>>◌
      (refuse_if (not (is_protocol_address output.receiver_address)) "invalid receiver address")
      (Result.◌>>=◌
        (add_amount "transaction output amount must be positive integer micro-units"
          "transaction output amount overflow" output.prime (micro_units output.amount) credits)
        (sum_outputs outputs))

-- `tx.fee.amount.numerator != 0 && !checkedAdd(d[tx.fee.prime], tx.fee.amount.numerator)`
unfoldable pub add_fee : String → FeeSpecV0 → Dict ℕ ℕ → Result (Dict ℕ ℕ)
add_fee overflow fee d =
    if fee.amount.numerator == 0
    then ok d
    else add_checked overflow fee.prime fee.amount.numerator d

-- `debits != credits`
unfoldable pub same_entries : Dict ℕ ℕ → Dict ℕ ℕ → Bool
same_entries [] [] = true
same_entries [] (e ∷ d) = false
same_entries (e ∷ d) [] = false
same_entries ((k, v) ∷ d) ((j, w) ∷ d') = (k == j) && ((v == w) && same_entries d d')

unfoldable pub require_same : Dict ℕ ℕ → Dict ℕ ℕ → Result (Dict ℕ ℕ)
require_same debits credits =
    if same_entries debits credits
    then ok debits
    else err "transaction inputs must equal outputs plus fee for each prime asset"

-- The debits of a transaction whose inputs are its outputs and its fee.
unfoldable pub balanced_debits : TransactionV0 → Result (Dict ℕ ℕ)
balanced_debits tx = Result.◌>>=◌ (sum_inputs tx.inputs []) (λ debits.
    Result.◌>>=◌ (sum_outputs tx.outputs []) (λ outputs.
      Result.◌>>=◌ (add_fee "transaction fee amount overflow" tx.fee outputs)
        (require_same debits)))

module _ (s : Settings) where
  unfoldable pub check_reward_epoch : TransactionV0 → ℕ → Ledger → Option ℕ → Check
  check_reward_epoch tx validation_integer l none =
      err "validator reward pool distribution has invalid epoch address"
  check_reward_epoch tx validation_integer l (some epoch) =
      let reward_pool_validators = reward_recipients_for_epoch s epoch in
      Result.◌>>◌
        (refuse_if (is_empty reward_pool_validators)
          "validator reward pool distribution references unknown validator epoch")
        (validate_validator_pool_distribution_shape tx "validator reward pool"
          reward_pool_validators (at (tx.sender_address, front_input_prime tx.inputs) l.balances)
          (leb full_validator_reward_distribution_effective_integer validation_integer))

  unfoldable pub check_pools : TransactionV0 → ℕ → Ledger → Check
  check_pools tx validation_integer l =
      Result.◌>>◌
        (if is_fee_pool_distribution_v1 tx (active_fee_pool_address s)
          then validate_validator_pool_distribution_shape tx "fee pool" s.validator_set
              (at (active_fee_pool_address s, front_input_prime tx.inputs) l.balances) false
          else pass)
        (if is_validator_reward_pool_distribution_v1 tx
          then check_reward_epoch tx validation_integer l
              (validator_reward_pool_epoch tx.sender_address)
          else pass)

  unfoldable pub check_shapes : TransactionV0 → Check
  check_shapes tx =
      Result.◌>>◌ (validate_authenticated_transfer_shape tx s.transfer_fee_micro_units) (
        Result.◌>>◌ (validate_validator_reserve_lock_shape tx s.transfer_fee_micro_units)
          (validate_validator_reserve_unlock_shape tx s.validator_set s.transfer_fee_micro_units))

  -- `accountNonce(...) + 1` is computed on 64 bits, and 0 is refused.
  unfoldable pub check_nonce : TransactionV0 → Ledger → Check
  check_nonce tx l =
      let expected_nonce = (at tx.sender_address l.account_nonces + 1) % 2 ^ 64 in
      refuse_if ((expected_nonce == 0) || not (tx.nonce == expected_nonce)) (
        if is_fee_pool_distribution_v1 tx (active_fee_pool_address s)
          || is_validator_reward_pool_distribution_v1 tx
        then "validator pool distribution nonce must be the next pool nonce"
        else "transaction nonce must be the next sender nonce")

  unfoldable pub check_fee : TransactionV0 → Check
  check_fee tx =
      refuse_if
        (not (tx.fee.amount.denominator == 1)
          || (not (tx.fee.amount.numerator == 0) && ltb tx.fee.prime 2))
        "transaction fee must be integer micro-units of a valid prime asset"

  -- All that is checked before the ledger is written: the debits, or the first message.
  unfoldable pub check_transaction : Crypto → ℕ → TransactionV0 → Ledger → Result (Dict ℕ ℕ)
  check_transaction crypto validation_integer tx l =
      Result.◌>>◌
        (prefix_error "invalid transaction signature: " (
          validate_transaction_signature crypto tx (active_fee_pool_address s)
            (is_empty s.validator_set)))
        (Result.◌>>◌
          (refuse_if (is_empty tx.inputs || is_empty tx.outputs)
            "transaction must have inputs and outputs")
          (Result.◌>>◌ (check_pools tx validation_integer l) (
            Result.◌>>◌ (check_shapes tx)
              (Result.◌>>◌ (check_nonce tx l) (Result.◌>>◌ (check_fee tx) (balanced_debits tx))))))

unfoldable pub debit_all : Bytes → Dict ℕ ℕ → Step (Unit {0})
debit_all address [] = pure tt
debit_all address ((prime, units) ∷ debits) = debit address prime units >> debit_all address debits

unfoldable pub credit_outputs : List TxOutputV0 → Step (Unit {0})
credit_outputs [] = pure tt
credit_outputs (output ∷ outputs) =
    credit output.receiver_address output.prime output.amount.numerator >> credit_outputs outputs

unfoldable pub credit_all : Bytes → Dict ℕ ℕ → Step (Unit {0})
credit_all address [] = pure tt
credit_all address ((prime, units) ∷ fees) = credit address prime units >> credit_all address fees

-- `account_nonces_[tx.sender_address] = tx.nonce`
unfoldable pub set_nonce : Bytes → ℕ → Step (Unit {0})
set_nonce sender nonce l = (pass, record l { account_nonces = put sender nonce l.account_nonces })

unfoldable pub debit_address : TransactionV0 → Bytes
debit_address tx =
    if is_validator_reserve_unlock_v1 tx
    then validator_reserve_address tx.sender_address
    else tx.sender_address

-- The loop's body: the fees collected so far, with the transaction's own.
unfoldable pub apply_transaction :
    Crypto → Settings → ℕ → TransactionV0 → Dict ℕ ℕ → Step (Dict ℕ ℕ)
apply_transaction crypto s validation_integer tx collected_fees =
    check (check_transaction s crypto validation_integer tx) >>= λ debits.
    debit_all (debit_address tx) debits
    >> (credit_outputs tx.outputs
        >> (check (λ l. add_fee "transaction fee batch overflow" tx.fee collected_fees) >>= λ fees.
            set_nonce tx.sender_address tx.nonce >> pure fees))

unfoldable pub apply_each : Crypto → Settings → ℕ → List TransactionV0 → Dict ℕ ℕ → Step (Dict ℕ ℕ)
apply_each crypto s validation_integer [] collected_fees = pure collected_fees
apply_each crypto s validation_integer (tx ∷ transactions) collected_fees =
    apply_transaction crypto s validation_integer tx collected_fees
    >>= apply_each crypto s validation_integer transactions

unfoldable pub pay_fees : Bytes → Dict ℕ ℕ → Step (Unit {0})
pay_fees fee_recipient collected_fees =
    if is_empty fee_recipient then pure tt else credit_all fee_recipient collected_fees

unfoldable pub apply_transactions :
    Crypto → Settings → List TransactionV0 → Bytes → ℕ → Step (Unit {0})
apply_transactions crypto s transactions fee_recipient validation_integer =
    apply_each crypto s validation_integer transactions [] >>= pay_fees fee_recipient
