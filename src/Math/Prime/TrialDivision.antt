-- ===== src/Math/Prime/TrialDivision.antt =====
-- The trial division of isPrime, which skips the multiples of 2 and 3, decides primality.
use primechain.Base.{
  ℕ, zero, suc, ◌+◌, ◌-◌, ◌*◌, ◌/◌, ◌%◌, ◌≤◌, ◌<◌, ◌≡◌, refl, ◌≢◌, ◌⊎◌, ◌↔◌, inl, inr, true, ltb,
  leb, ◌==◌, arith, Bool-cases, leb→le,
}
use primechain.Math.Divides.{IsPrimeNumber, mod-zero_trans, square-le, le-div_down, small_divisor}
use primechain.Math.Prime.{wheel_loop, is_prime}

-- When the loop from `d` passes, no number of the form d + 6k or d + 2 + 6k up to the root divides.
wheel_clear :
    (k fuel n d e : ℕ)
    → 0 < d
    → wheel_loop fuel n d ≡ true
    → (e ≡ d + 6 * k) ⊎ (e ≡ d + 2 + 6 * k)
    → e ≤ n / e
    → n % e ≢ 0
unfolding wheel_loop
wheel_clear zero zero n d e p h c le m = cc
wheel_clear zero (suc fuel) n d e p h c le m = ground (arith, le-div_down d e n)
wheel_clear (suc k) zero n d e p h c le m = cc
wheel_clear (suc k) (suc fuel) n d e p h c le m =
    ground (arith, le-div_down d e n, wheel_clear k fuel n (d + 6) e)

-- A divisor that the wheel does not visit is a multiple of 2 or 3.
wheel_class :
    (e : ℕ)
    → 2 ≤ e
    → (e % 2 ≡ 0) ⊎ ((e % 3 ≡ 0) ⊎ ((k : ℕ) × ((e ≡ 5 + 6 * k) ⊎ (e ≡ 5 + 2 + 6 * k))))
wheel_class e h = elim (Bool-cases (e % 2 == 0)) [
  | inl x ↦ inl (ground arith)
  | inr x ↦ elim (Bool-cases (e % 3 == 0)) [
    | inl y ↦ inr (inl (ground arith))
    | inr y ↦ elim (Bool-cases (e % 6 == 5)) [
      | inl z ↦ inr (inr (e / 6, inl (ground arith)))
      | inr z ↦ inr (inr (e / 6 - 1, inr (ground arith)))
    ]
  ]
]

no_small_divisor : (n e : ℕ) → is_prime n ≡ true → 2 ≤ e → e ≤ n / e → e < n → n % e ≢ 0
unfolding is_prime
no_small_divisor n e h two le below m = elim (wheel_class e two) [
  | inl even ↦ ground (arith, mod-zero_trans 2 e n even m, square-le e n)
  | inr (inl triple) ↦ ground (arith, mod-zero_trans 3 e n triple m, square-le e n)
  | inr (inr (k, c)) ↦ ground (arith, wheel_clear k n n 5 e, square-le e n)
]

is_prime_sound : (n : ℕ) → is_prime n ≡ true → IsPrimeNumber n
is_prime_sound n h = record {
  at_least_two = unfold is_prime in ground arith;
  no_divisor = λ d two below m.
      let (e, (le, root, div, lt)) = small_divisor n d two below m in
      no_small_divisor n e h le root lt div;
}

-- On a prime no test of the loop fires, and the loop ends before its fuel does.
wheel_passes :
    (fuel n d : ℕ)
    → IsPrimeNumber n
    → 5 ≤ d
    → d ≤ n + 1
    → n + 1 < d + fuel
    → wheel_loop fuel n d ≡ true
unfolding wheel_loop
wheel_passes zero n d prime five bound enough = absurd (omega arith)
wheel_passes (suc fuel) n d prime five bound enough = elim (Bool-cases (leb d (n / d))) [
  | inl go ↦
      let root : d * d ≤ n = square-le d n (omega arith) (leb→le _ _ go) in
      let wide : d + 6 ≤ n = grind arith in
      ground (
        arith,
        prime.no_divisor d (omega arith) (omega arith),
        prime.no_divisor (d + 2) (omega arith) (omega arith),
        wheel_passes fuel n (d + 6) prime (omega arith) (omega arith) (omega arith),
      )
  | inr stop ↦ ground arith
]

is_prime_complete : (n : ℕ) → IsPrimeNumber n → is_prime n ≡ true
unfolding is_prime
is_prime_complete n prime = elim (Bool-cases (ltb n 5)) [
  | inl low ↦ small n (ground arith) prime
  | inr high ↦ ground (
    arith,
    prime.at_least_two,
    prime.no_divisor 2 (omega arith) (ground arith),
    prime.no_divisor 3 (omega arith) (ground arith),
    wheel_passes n n 5 prime,
  )
]
  where
    small : (n : ℕ) → n < 5 → IsPrimeNumber n → is_prime n ≡ true
    small zero h p = absurd (omega (arith, p.at_least_two))
    small (suc zero) h p = absurd (omega (arith, p.at_least_two))
    small (suc (suc zero)) h p = refl
    small (suc (suc (suc zero))) h p = refl
    small (suc (suc (suc (suc zero)))) h p =
        absurd (p.no_divisor 2 (omega arith) (omega arith) refl)
    small (suc (suc (suc (suc (suc k))))) h p = absurd (omega arith)

-- isPrime answers true exactly on the primes.
pub is_prime_iff : (n : ℕ) → (is_prime n ≡ true) ↔ IsPrimeNumber n
is_prime_iff n = (is_prime_sound n, is_prime_complete n)
