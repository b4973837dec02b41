-- ===== src/Node/Shapes.antt =====
-- The shapes that the kinds of transaction must have.
use Prim.Native.String.{String}
use Prim.Native.String
use primechain.Base.{
  ℕ, ◌+◌, ◌/◌, ◌%◌, Bool, not, ◌&&◌, ◌||◌, Option, none, some, List, [], ◌∷◌, length, is_empty, ltb,
  ◌==◌, if◌then◌else◌,
}
use primechain.Base.Text.{Bytes, eq_bytes}
use primechain.Base.Result.{Check, pass, err, refuse_if, ◌>>◌}
use primechain.Records.Types.{Amount, TxInputV0, TxOutputV0, TransactionV0}
use primechain.Records.Addresses.{is_protocol_validator_reserve_address}
use primechain.Node.Settings.{
  is_authenticated_transfer_v1, is_validator_reserve_lock_v1, is_validator_reserve_unlock_v1,
  contains_address,
}

unfoldable pub micro_units : Amount → Option ℕ
micro_units amount =
    if not (amount.denominator == 1) || (amount.numerator == 0) then none else some amount.numerator

-- `inputs.front()` and `outputs.front()`, where the list has one element at least.
unfoldable pub front_input_prime : List TxInputV0 → ℕ
front_input_prime [] = 0
front_input_prime (input ∷ inputs) = input.prime

unfoldable pub front_output_prime : List TxOutputV0 → ℕ
front_output_prime [] = 0
front_output_prime (output ∷ outputs) = output.prime

unfoldable pub front_receiver : List TxOutputV0 → Bytes
front_receiver [] = []
front_receiver (output ∷ outputs) = output.receiver_address

unfoldable pub not_one_to_one : TransactionV0 → Bool
not_one_to_one tx = not (length tx.inputs == 1) || not (length tx.outputs == 1)

unfoldable pub mixes_assets : TransactionV0 → Bool
mixes_assets tx =
    not (front_input_prime tx.inputs == front_output_prime tx.outputs)
    || not (tx.fee.prime == front_input_prime tx.inputs)

unfoldable pub has_other_fee : TransactionV0 → ℕ → Bool
has_other_fee tx transfer_fee_micro_units =
    not (tx.fee.amount.denominator == 1)
    || not (tx.fee.amount.numerator == transfer_fee_micro_units)

unfoldable pub validate_authenticated_transfer_shape : TransactionV0 → ℕ → Check
validate_authenticated_transfer_shape tx transfer_fee_micro_units =
    if not (is_authenticated_transfer_v1 tx)
    then pass
    else (refuse_if (not_one_to_one tx)
          "authenticated transfer v1 requires one input and one output"
        >> (refuse_if (mixes_assets tx)
              "authenticated transfer v1 fee must use the transferred prime asset"
            >> refuse_if (has_other_fee tx transfer_fee_micro_units)
                "authenticated transfer v1 fee must equal active protocol fee"))

unfoldable pub validate_validator_reserve_lock_shape : TransactionV0 → ℕ → Check
validate_validator_reserve_lock_shape tx transfer_fee_micro_units =
    if not (is_validator_reserve_lock_v1 tx)
    then pass
    else (refuse_if (not_one_to_one tx) "validator reserve lock requires one input and one output"
        >> (refuse_if (not (is_protocol_validator_reserve_address (front_receiver tx.outputs)))
              "validator reserve lock output must target a validator reserve address"
            >> (refuse_if (mixes_assets tx)
                  "validator reserve lock fee must use the locked prime asset"
                >> refuse_if (has_other_fee tx transfer_fee_micro_units)
                    "validator reserve lock fee must equal active protocol fee")))

unfoldable pub validate_validator_reserve_unlock_shape : TransactionV0 → List Bytes → ℕ → Check
validate_validator_reserve_unlock_shape tx active_validators transfer_fee_micro_units =
    if not (is_validator_reserve_unlock_v1 tx)
    then pass
    else (refuse_if (contains_address active_validators tx.sender_address)
          "active validator reserve cannot be unlocked"
        >> (refuse_if (not_one_to_one tx)
              "validator reserve unlock requires one input and one output"
            >> (refuse_if (mixes_assets tx)
                  "validator reserve unlock fee must use the unlocked prime asset"
                >> refuse_if (has_other_fee tx transfer_fee_micro_units)
                    "validator reserve unlock fee must equal active protocol fee")))

-- The inner loop: the validators behind the first one at the address, if it is found.
unfoldable pub find_receiver : List Bytes → Bytes → Option (List Bytes)
find_receiver [] receiver_address = none
find_receiver (validator ∷ validators) receiver_address =
    if eq_bytes validator receiver_address
    then some validators
    else find_receiver validators receiver_address

-- The loop over the outputs from index `i` on; `validators` are those from validator_index on.
unfoldable pub check_shares : String → ℕ → ℕ → ℕ → ℕ → List Bytes → List TxOutputV0 → Check
check_shares pool_name prime base_share remainder i validators [] = pass
check_shares pool_name prime base_share remainder i validators (output ∷ outputs) =
    elim (find_receiver validators output.receiver_address) [
      | none ↦
          err (String.◌++◌ pool_name " distribution output receiver is not an active validator")
      | some others ↦
          refuse_if
            (not (output.prime == prime)
              || (not (output.amount.denominator == 1)
                  || not
                      (output.amount.numerator == base_share + (if ltb i remainder then 1 else 0))))
            (String.◌++◌ pool_name
              " distribution outputs do not match deterministic validator split")
          >> check_shares pool_name prime base_share remainder (i + 1) others outputs
    ]

unfoldable pub check_distribution : String → TransactionV0 → List Bytes → ℕ → Bool → ℕ → Check
check_distribution pool_name tx active_validators pool_balance_micro_units
      require_full_validator_set distributed =
    refuse_if (not (distributed == pool_balance_micro_units))
      (String.◌++◌ pool_name " distribution must spend the full active pool balance")
    >> (refuse_if (is_empty tx.outputs)
          (String.◌++◌ pool_name " distribution is missing validator outputs")
        >> (refuse_if (ltb (length active_validators) (length tx.outputs))
              (String.◌++◌ pool_name " distribution has too many validator outputs")
            >> (refuse_if
                  (require_full_validator_set
                    && not (length tx.outputs == length active_validators))
                  (String.◌++◌ pool_name " distribution must include the full active validator set")
                >> check_shares pool_name (front_input_prime tx.inputs)
                    (distributed / length tx.outputs) (distributed % length tx.outputs) 0
                    active_validators tx.outputs)))

-- `microUnits(tx.inputs.front().amount)`
unfoldable pub front_micro_units : List TxInputV0 → Option ℕ
front_micro_units [] = none
front_micro_units (input ∷ inputs) = micro_units input.amount

unfoldable pub check_distributed : String → TransactionV0 → List Bytes → ℕ → Bool → Option ℕ → Check
check_distributed pool_name tx active_validators pool_balance_micro_units require_full_validator_set
      none =
    err (String.◌++◌ pool_name " distribution input must be positive integer micro-units")
check_distributed pool_name tx active_validators pool_balance_micro_units require_full_validator_set
      (some distributed) =
    check_distribution pool_name tx active_validators pool_balance_micro_units
      require_full_validator_set distributed

unfoldable pub validate_validator_pool_distribution_shape :
    TransactionV0 → String → List Bytes → ℕ → Bool → Check
validate_validator_pool_distribution_shape tx pool_name active_validators pool_balance_micro_units
      require_full_validator_set =
    refuse_if (is_empty active_validators)
      (String.◌++◌ pool_name " distribution requires eligible validator recipients")
    >> (refuse_if (not (is_empty tx.sender_public_key) || not (is_empty tx.signature))
          (String.◌++◌ pool_name " distribution must not carry a wallet signature")
        >> (refuse_if (not (length tx.inputs == 1))
              (String.◌++◌ pool_name " distribution must spend one asset")
            >> (refuse_if
                  (not (tx.fee.prime == front_input_prime tx.inputs)
                    || (not (tx.fee.amount.numerator == 0) || not (tx.fee.amount.denominator == 1)))
                  (String.◌++◌ pool_name
                    " distribution must have zero fee in the distributed asset")
                >> check_distributed pool_name tx active_validators pool_balance_micro_units
                    require_full_validator_set (front_micro_units tx.inputs))))
