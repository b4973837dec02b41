-- ===== src/Math/Divides.antt =====
-- The specification of a prime, and divisors of native numbers: what a trial division may skip.
use primechain.Base.{ℕ, zero, suc, ◌*◌, ◌/◌, ◌%◌, ◌≤◌, ◌<◌, ◌≡◌, ◌≢◌, arith, dec_lt}
use native.Mathlib.Nat.{
  le-div_iff_mul-le, mul-le-mul, le_refl, le_trans, mul-mod_left, div-mul_cancel,
  dvd_of_mod-eq-zero, mod-eq-zero_of_dvd, dvd_trans, mul_comm,
}

-- A prime has no divisor between 1 and itself.
pub record IsPrimeNumber (n : ℕ) : Type 0 where
  pub at_least_two : 2 ≤ n
  pub no_divisor : (d : ℕ) → 2 ≤ d → d < n → n % d ≢ 0

pub mod-zero_trans : (a b n : ℕ) → b % a ≡ 0 → n % b ≡ 0 → n % a ≡ 0
mod-zero_trans a b n h k =
    mod-eq-zero_of_dvd _ (dvd_trans a (dvd_of_mod-eq-zero _ h) (dvd_of_mod-eq-zero _ k))

-- The code's test `d <= n / d` for `d * d <= n`, which cannot overflow.
pub square-le : (d n : ℕ) → 0 < d → d ≤ n / d → d * d ≤ n
square-le d n p h = (le-div_iff_mul-le p).0 h

pub le-div_down : (d e n : ℕ) → 0 < d → d ≤ e → e ≤ n / e → d ≤ n / d
le-div_down d e n p de h =
    (le-div_iff_mul-le p).1 (le_trans (mul-le-mul de de) (square-le e n (omega arith) h))

-- The cofactor `q` of a divisor `d` above the square root.
cofactor_small :
    (n d q : ℕ) → q * d ≡ n → d < n → q < d → (2 ≤ q) × (q ≤ n / q) × (n % q ≡ 0) × (q < n)
cofactor_small n d zero e below lt = absurd (omega arith)
cofactor_small n d (suc zero) e below lt = absurd (omega arith)
cofactor_small n d (suc (suc k)) e below lt = (
  omega arith,
  (le-div_iff_mul-le (omega arith)).1 (rw (← e) (mul-le-mul (le_refl (suc (suc k))) (omega arith))),
  rw (← e) (rw (mul_comm (suc (suc k)) d) (mul-mod_left d (suc (suc k)))),
  omega arith,
)

-- A proper divisor, or its cofactor, lies at or below the square root.
pub small_divisor :
    (n d : ℕ)
    → 2 ≤ d
    → d < n
    → n % d ≡ 0
    → (e : ℕ) × ((2 ≤ e) × (e ≤ n / e) × (n % e ≡ 0) × (e < n))
small_divisor n d two below h = elim (dec_lt (n / d) d) [
  | no small ↦ (d, (two, omega arith, h, below))
  | yes large ↦
      (n / d, cofactor_small n d (n / d) (div-mul_cancel d (dvd_of_mod-eq-zero d h)) below large)
]
