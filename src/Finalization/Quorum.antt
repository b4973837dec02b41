-- ===== src/Finalization/Quorum.antt =====
-- requiredValidatorQuorum, and the validator sets and searches of records.cpp.
use primechain.Base.{
  ℕ, ◌+◌, ◌*◌, ◌/◌, ◌≤◌, ◌<◌, Bool, true, false, not, ◌&&◌, List, [], ◌∷◌, length, all_of, leb,
  ◌==◌, if◌then◌else◌, arith,
}
use primechain.Base.Text.{Bytes, eq_bytes, lt_bytes}
use primechain.Crypto.{is_protocol_signature_address}
use primechain.Base.{is_empty}

-- A vector's size is far below 2 ^ 63, so the product does not wrap.
unfoldable pub required_validator_quorum : ℕ → ℕ
required_validator_quorum validator_count =
    if validator_count == 0
    then 0
    else if validator_count == 1
    then 1
    else (validator_count * 2 + 2) / 3

unfoldable pub valid_validator_set_size : ℕ → Bool
valid_validator_set_size validator_count = leb 1 validator_count

unfoldable pub has_quorum_vote_count : ℕ → ℕ → Bool
has_quorum_vote_count vote_count validator_count =
    leb (required_validator_quorum validator_count) vote_count && leb vote_count validator_count

-- std::is_sorted
unfoldable pub is_sorted : List Bytes → Bool
is_sorted [] = true
is_sorted (x ∷ []) = true
is_sorted (x ∷ (y ∷ ys)) = not (lt_bytes y x) && is_sorted (y ∷ ys)

-- std::adjacent_find(...) == end()
unfoldable pub no_adjacent_equal : List Bytes → Bool
no_adjacent_equal [] = true
no_adjacent_equal (x ∷ []) = true
no_adjacent_equal (x ∷ (y ∷ ys)) = not (eq_bytes x y) && no_adjacent_equal (y ∷ ys)

unfoldable pub is_canonical_protocol_validator_set : List Bytes → Bool
is_canonical_protocol_validator_set validators =
    valid_validator_set_size (length validators)
    && (is_sorted validators
        && (no_adjacent_equal validators && all_of is_protocol_signature_address validators))

-- std::binary_search on a sorted range: the first element that is not below `value` is not above it.
unfoldable pub binary_search : List Bytes → Bytes → Bool
binary_search [] value = false
binary_search (x ∷ xs) value =
    if lt_bytes x value then binary_search xs value else not (lt_bytes value x)

-- `!previous.empty() && previous >= address`
unfoldable pub out_of_order : Bytes → Bytes → Bool
out_of_order previous address = not (is_empty previous) && not (lt_bytes previous address)

-- A quorum is the least count of two thirds, rounded up.
pub quorum_two_thirds :
    (n : ℕ)
    → (2 * n ≤ 3 * required_validator_quorum n)
      × (3 * required_validator_quorum n ≤ 2 * n + 2)
      × (required_validator_quorum n ≤ n)
unfolding required_validator_quorum
quorum_two_thirds n = ground arith

-- Two quorums of a nonempty set have more members together than the set.
pub quorums_overlap :
    (n : ℕ) → 0 < n → n < required_validator_quorum n + required_validator_quorum n
quorums_overlap n h = omega (arith, quorum_two_thirds n)
