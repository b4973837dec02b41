-- ===== src/Records/Addresses.antt =====
-- The kinds of address of src/protocol/records.cpp, and the epoch of a reward pool's address of
-- src/node/sequential_node.cpp.
pub mod Epochs
use primechain.Base.{
  ℕ, zero, suc, ◌+◌, ◌-◌, ◌*◌, ◌/◌, ◌%◌, ◌^◌, Bool, true, false, not, ◌&&◌, ◌||◌, Option, none,
  some, List, [], ◌∷◌, ◌++◌, length, take, drop, all_of, is_empty, leb, ltb, ◌==◌, if◌then◌else◌,
}
use primechain.Base.Text.{Bytes, text, eq_bytes}
use primechain.Crypto.{Crypto, to_hex, is_protocol_signature_address}
use primechain.Finalization.Development.{is_development_address}

abbrev pub is_digit : ℕ → Bool
is_digit ch = leb 48 ch && leb ch 57

-- `address.size() <= prefix.size() || address.compare(0, prefix.size(), prefix) != 0`
unfoldable pub lacks_prefix : Bytes → Bytes → Bool
lacks_prefix address prefix =
    leb (length address) (length prefix) || not (eq_bytes (take (length prefix) address) prefix)

abbrev pub fee_pool_prefix : Bytes
fee_pool_prefix = text "pcpool_validator_fees_epoch_"

abbrev pub reward_pool_prefix : Bytes
reward_pool_prefix = text "pcpool_validator_rewards_epoch_"

abbrev pub reserve_prefix : Bytes
reserve_prefix = text "pcreserve_validator_"

unfoldable pub is_protocol_fee_pool_address : Bytes → Bool
is_protocol_fee_pool_address address =
    if lacks_prefix address fee_pool_prefix
    then false
    else all_of is_digit (drop (length fee_pool_prefix) address)

unfoldable pub is_protocol_validator_reward_pool_address : Bytes → Bool
is_protocol_validator_reward_pool_address address =
    if lacks_prefix address reward_pool_prefix
    then false
    else all_of is_digit (drop (length reward_pool_prefix) address)

unfoldable pub validator_address_from_reserve_address : Bytes → Option Bytes
validator_address_from_reserve_address reserve_address =
    let validator_address = drop (length reserve_prefix) reserve_address in
    if lacks_prefix reserve_address reserve_prefix
    then none
    else if is_protocol_signature_address validator_address
    then some validator_address
    else none

has_value {ℓ} : {A : Type ℓ} → Option A → Bool
has_value none = false
has_value (some a) = true

unfoldable pub is_protocol_validator_reserve_address : Bytes → Bool
unfolding has_value
is_protocol_validator_reserve_address address =
    has_value (validator_address_from_reserve_address address)

unfoldable pub is_protocol_address : Bytes → Bool
is_protocol_address address =
    is_development_address address
    || (is_protocol_fee_pool_address address
        || (is_protocol_validator_reward_pool_address address
            || (is_protocol_validator_reserve_address address
                || is_protocol_signature_address address)))

-- std::to_string of a uint64, which has at most twenty digits.
unfoldable pub decimal_digits : ℕ → ℕ → Bytes
decimal_digits zero n = []
decimal_digits (suc fuel) n =
    let rest = decimal_digits fuel (n / 10) in
    if ltb n 10 then (48 + n) ∷ [] else rest ++ ((48 + n % 10) ∷ [])

unfoldable pub decimal : ℕ → Bytes
decimal n = decimal_digits 20 n

unfoldable pub validator_fee_pool_address : ℕ → Bytes
validator_fee_pool_address validator_epoch = fee_pool_prefix ++ decimal validator_epoch

unfoldable pub validator_reward_pool_address : ℕ → Bytes
validator_reward_pool_address validator_epoch = reward_pool_prefix ++ decimal validator_epoch

unfoldable pub validator_reserve_address : Bytes → Bytes
validator_reserve_address validator_address = reserve_prefix ++ validator_address

unfoldable pub development_address_from_public_key : Crypto → Bytes → Bytes
development_address_from_public_key crypto public_key =
    text "pcdev1_" ++ take 32 (to_hex (crypto.sha3_256 public_key))

unfoldable pub digits_value : ℕ → Bytes → ℕ
digits_value value [] = value
digits_value value (ch ∷ digits) = digits_value (10 * value + (ch - 48)) digits

-- std::isspace
abbrev pub is_blank : ℕ → Bool
is_blank ch = (ch == 32) || (leb 9 ch && leb ch 13)

unfoldable pub skip_blanks : Bytes → Bytes
skip_blanks [] = []
skip_blanks (ch ∷ rest) = let behind = skip_blanks rest in if is_blank ch then behind else ch ∷ rest

unfoldable pub unsigned_value : Bytes → Option ℕ
unsigned_value digits =
    if is_empty digits || not (all_of is_digit digits)
    then none
    else if ltb (digits_value 0 digits) (2 ^ 64)
    then some (digits_value 0 digits)
    else none

-- A minus sign negates on 64 bits.
unfoldable pub negated : Option ℕ → Option ℕ
negated none = none
negated (some value) = some ((2 ^ 64 - value) % 2 ^ 64)

unfoldable pub signed_value : Bytes → Option ℕ
signed_value [] = none
signed_value (ch ∷ digits) =
    if ch == 43
    then unsigned_value digits
    else if ch == 45
    then negated (unsigned_value digits)
    else unsigned_value (ch ∷ digits)

-- std::stoull where it reads the whole text: blanks and a sign in front of the digits are read too, and none
-- stands for a throw, above 2 ^ 64 - 1 or without a digit, and for `parsed` short of the end.
unfoldable pub stoull : Bytes → Option ℕ
stoull text = signed_value (skip_blanks text)

unfoldable pub validator_reward_pool_epoch : Bytes → Option ℕ
validator_reward_pool_epoch address =
    if lacks_prefix address reward_pool_prefix
    then none
    else stoull (drop (length reward_pool_prefix) address)
