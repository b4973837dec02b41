-- ===== src/Math/Prime.antt =====
-- isPrime and nextPrimeAfter of src/math/number_theory.cpp.
pub mod TrialDivision
pub mod Next
use primechain.Base.{
  ℕ, zero, suc, ◌+◌, ◌-◌, ◌*◌, ◌/◌, ◌%◌, ◌^◌, ◌≤◌, ◌<◌, ◌≡◌, refl, Bool, true, false, ◌||◌, ltb,
  leb, ◌==◌, if◌then◌else◌, arith,
}

-- `for (d = 5; d <= n / d; d += 6)`; `fuel` bounds the rounds.
unfoldable pub wheel_loop : ℕ → ℕ → ℕ → Bool
wheel_loop zero n d = false
wheel_loop (suc fuel) n d =
    let rest = wheel_loop fuel n (d + 6) in
    if leb d (n / d) then (if n % d == 0 || n % (d + 2) == 0 then false else rest) else true

-- The loop stops before `d` passes `n`, so `n` rounds are enough.
unfoldable pub is_prime : ℕ → Bool
is_prime n =
    if ltb n 2
    then false
    else if n == 2 || n == 3
    then true
    else if n % 2 == 0 || n % 3 == 0
    then false
    else wheel_loop n n 5

abbrev pub max_prime_value : ℕ
max_prime_value = 2 ^ 64 - 1

-- `while (candidate < max)`; 0 is the answer when no prime was found.
unfoldable pub next_prime_loop : ℕ → ℕ → ℕ
next_prime_loop zero candidate = 0
next_prime_loop (suc fuel) candidate =
    let rest = next_prime_loop fuel (candidate + 1) in
    if ltb candidate max_prime_value then (if is_prime candidate then candidate else rest) else 0

-- `n + 1` is computed on 64 bits.
unfoldable pub next_prime_after : ℕ → ℕ
next_prime_after n = if ltb n 2 then 2 else next_prime_loop (2 ^ 64) ((n + 1) % 2 ^ 64)
