-- ===== src/Math/Prime/Next.antt =====
-- nextPrimeAfter returns the least prime above its argument, or 0 where the search meets the end of
-- the 64-bit range.
use primechain.Base.{
  ℕ, zero, suc, ◌+◌, ◌%◌, ◌^◌, ◌≤◌, ◌<◌, ◌≡◌, refl, ◌⊎◌, inl, inr, false, ltb, ◌==◌, arith,
  Bool-cases,
}
use primechain.Math.Divides.{IsPrimeNumber}
use primechain.Math.Prime.{is_prime, next_prime_loop, next_prime_after, max_prime_value}
use primechain.Math.Prime.TrialDivision.{is_prime_iff}

-- `r` is the least prime at or above `from`, or it is 0 and there is none below the maximum.
abbrev pub IsLeastPrimeFrom : ℕ → ℕ → Type 0
IsLeastPrimeFrom from r =
    ((r ≡ 0) × ((m : ℕ) → from ≤ m → m < max_prime_value → ¬ IsPrimeNumber m))
    ⊎ (IsPrimeNumber r
        × (from ≤ r)
        × (r < max_prime_value)
        × ((m : ℕ) → from ≤ m → m < r → ¬ IsPrimeNumber m))

step_over : (c r : ℕ) → is_prime c ≡ false → IsLeastPrimeFrom (c + 1) r → IsLeastPrimeFrom c r
step_over c r composite (inl (e, none_above)) = inl (
  e,
  λ m h lt p. elim (Bool-cases (m == c)) [
    | inl same ↦ ground (arith, (is_prime_iff m).1 p)
    | inr other ↦ none_above m (ground arith) lt p
  ],
)
step_over c r composite (inr (prime, low, high, none_between)) = inr (
  prime,
  omega arith,
  high,
  λ m h lt p. elim (Bool-cases (m == c)) [
    | inl same ↦ ground (arith, (is_prime_iff m).1 p)
    | inr other ↦ none_between m (ground arith) lt p
  ],
)

next_prime_loop-least :
    (fuel c : ℕ) → max_prime_value ≤ c + fuel → IsLeastPrimeFrom c (next_prime_loop fuel c)
unfolding next_prime_loop
next_prime_loop-least zero c enough = inl (refl, λ m h lt p. absurd (omega arith))
next_prime_loop-least (suc fuel) c enough = elim (Bool-cases (ltb c max_prime_value)) [
  | inr past ↦ rw past (inl (refl, λ m h lt p. absurd (ground arith)))
  | inl inside ↦ elim (Bool-cases (is_prime c)) [
    | inl found ↦
        rw (inside, found)
          (inr
            ((is_prime_iff c).0 found, omega arith, ground arith, λ m h lt p. absurd (omega arith)))
    | inr composite ↦
        rw (inside, composite)
          (step_over c _ composite (next_prime_loop-least fuel (c + 1) (omega arith)))
  ]
]

-- Below the maximum of a uint64, nextPrimeAfter returns the least prime above its argument; it
-- returns 0 exactly when no prime lies between the argument and the maximum.
pub next_prime_after-least :
    (n : ℕ) → n < max_prime_value → IsLeastPrimeFrom (n + 1) (next_prime_after n)
unfolding next_prime_after
next_prime_after-least n h = elim (Bool-cases (ltb n 2)) [
  | inl low ↦ rw low (
      inr
        (prime_two, ground arith, omega arith, λ m lo hi p. absurd (omega (arith, p.at_least_two))))
  | inr high ↦ rw high (rw no_wrap (next_prime_loop-least (2 ^ 64) (n + 1) (omega arith)))
]
  where
    prime_two : IsPrimeNumber 2
    prime_two = record {
      at_least_two = omega arith;
      no_divisor = λ d lo hi m. absurd (omega arith);
    }

    no_wrap : (n + 1) % 2 ^ 64 ≡ n + 1
    no_wrap = omega arith
