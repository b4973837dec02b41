-- ===== src/Records/Addresses/Epochs.antt =====
-- The address of an epoch's reward pool names the epoch.
use primechain.Base.{
  ℕ, zero, suc, ◌+◌, ◌-◌, ◌*◌, ◌/◌, ◌%◌, ◌^◌, ◌<◌, ◌≡◌, refl, true, false, some, [], ◌∷◌, ◌++◌,
  length, all_of, take-append, drop-append, length-append, ltb, ◌==◌, lt→ltb, arith, Bool-cases,
  inl, inr,
}
use native.Mathlib.Nat.{pow-suc}
use primechain.Base.Text.{Bytes, eq_bytes_refl}
use primechain.Records.Addresses.{
  is_digit, lacks_prefix, reward_pool_prefix, decimal_digits, decimal,
  validator_reward_pool_address, digits_value, is_protocol_validator_reward_pool_address,
  validator_reward_pool_epoch, is_blank, skip_blanks, unsigned_value, signed_value, stoull,
}

digits_value-append :
    (value : ℕ) (digits : Bytes) (ch : ℕ)
    → digits_value value (digits ++ (ch ∷ [])) ≡ 10 * digits_value value digits + (ch - 48)
unfolding digits_value
digits_value-append value [] ch = refl
digits_value-append value (d ∷ digits) ch = digits_value-append (10 * value + (d - 48)) digits ch

all_digits-append :
    (xs : Bytes) (ch : ℕ)
    → all_of is_digit xs ≡ true
    → is_digit ch ≡ true
    → all_of is_digit (xs ++ (ch ∷ [])) ≡ true
all_digits-append [] ch h k = ground arith
all_digits-append (x ∷ xs) ch h k = ground (arith, all_digits-append xs ch)

-- What decimal_digits writes is read back.
record Decimal (digits : Bytes) (n : ℕ) : Type 0 where
  written : all_of is_digit digits ≡ true
  value : digits_value 0 digits ≡ n
  some_digit : 0 < length digits

one_digit : (n : ℕ) → n < 10 → Decimal ((48 + n) ∷ []) n
unfolding digits_value
one_digit n h = record { written = ground arith; value = omega arith; some_digit = omega arith }

last_digit :
    (digits : Bytes) (n : ℕ) → Decimal digits (n / 10) → Decimal (digits ++ ((48 + n % 10) ∷ [])) n
last_digit digits n d = record {
  written = all_digits-append digits (48 + n % 10) d.written (ground arith);
  value = omega (arith, digits_value-append 0 digits (48 + n % 10), d.value);
  some_digit = omega (arith, length-append digits ((48 + n % 10) ∷ []));
}

decimal_digits-Decimal : (fuel n : ℕ) → n < 10 ^ suc fuel → Decimal (decimal_digits (suc fuel) n) n
unfolding decimal_digits digits_value
decimal_digits-Decimal zero n h = elim (Bool-cases (ltb n 10)) [
  | inl one ↦ rw one (one_digit n (ground arith))
  | inr more ↦ absurd (ground arith)
]
decimal_digits-Decimal (suc fuel) n h = elim (Bool-cases (ltb n 10)) [
  | inl one ↦ rw one (one_digit n (ground arith))
  | inr more ↦ rw more (
      last_digit (decimal_digits (suc fuel) (n / 10)) n
        (decimal_digits-Decimal fuel (n / 10) (omega (arith, pow-suc 10 (suc fuel)))))
]

lacks_prefix-append :
    (prefix xs : Bytes) → 0 < length xs → lacks_prefix (prefix ++ xs) prefix ≡ false
unfolding lacks_prefix
lacks_prefix-append prefix xs h =
    rw (take-append prefix xs, eq_bytes_refl prefix, length-append prefix xs) (ground arith)

-- Digits have no blank and no sign in front of them.
stoull-digits :
    (digits : Bytes)
    → all_of is_digit digits ≡ true
    → 0 < length digits
    → digits_value 0 digits < 2 ^ 64
    → stoull digits ≡ some (digits_value 0 digits)
unfolding stoull skip_blanks signed_value unsigned_value
stoull-digits [] written present fits = absurd (omega arith)
stoull-digits (ch ∷ digits) written present fits =
    let no_blank : is_blank ch ≡ false = ground (arith, written) in
    let no_plus : (ch == 43) ≡ false = ground (arith, written) in
    let no_minus : (ch == 45) ≡ false = ground (arith, written) in
    let below : ltb (digits_value 0 (ch ∷ digits)) (2 ^ 64) ≡ true = lt→ltb _ _ fits in
    rw (no_blank, no_plus, no_minus, written, below) refl

-- The reward pool address of an epoch that is a uint64 is recognised as one, and its epoch is read back.
pub reward_pool_epoch-address :
    (epoch : ℕ)
    → epoch < 2 ^ 64
    → (is_protocol_validator_reward_pool_address (validator_reward_pool_address epoch) ≡ true)
      × (validator_reward_pool_epoch (validator_reward_pool_address epoch) ≡ some epoch)
unfolding is_protocol_validator_reward_pool_address validator_reward_pool_epoch
    validator_reward_pool_address decimal
reward_pool_epoch-address epoch h =
    let digits = decimal_digits 20 epoch in
    let d = decimal_digits-Decimal 19 epoch (omega arith) in
    let tail = drop-append reward_pool_prefix digits in
    let present = lacks_prefix-append reward_pool_prefix digits d.some_digit in
    let read = stoull-digits digits d.written d.some_digit (rw d.value h) in
    (rw (present, tail, d.written) refl, rw (present, tail, read, d.value) refl)
