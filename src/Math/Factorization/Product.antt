-- ===== src/Math/Factorization/Product.antt =====
-- multiplyFactorization computes the exact product of a canonical factorisation, or refuses.
use primechain.Base.{
  ℕ, zero, suc, ◌*◌, ◌/◌, ◌%◌, ◌^◌, ◌≤◌, ◌<◌, ◌≡◌, refl, sym, ◌⊎◌, ◌↔◌, inl, inr, true, false, ltb,
  arith, Bool-cases, none, some, List, [], ◌∷◌,
}
use primechain.Math.Factorization.{
  PrimePowerFactor, Factorization, canonical_loop, is_canonical_factorization, power_loop,
  product_loop, multiply_factorization,
}
use native.Mathlib.Nat.{
  pow-zero, pow-succ', mul-pos, le-div_iff_mul-le, le-mul_of_pos_right, le_trans, mul_assoc,
  mul-one, one-mul,
}
use primechain.Math.Prime.{max_prime_value}

-- The number that the prime powers stand for.
unfoldable pub product_of : List PrimePowerFactor → ℕ
product_of [] = 1
product_of (f ∷ rest) = f.prime ^ f.exponent * product_of rest

pub pow_pos : (x k : ℕ) → 0 < x → 0 < x ^ k
pow_pos x zero h = rw (pow-zero x) (omega arith)
pow_pos x (suc k) h = rw (pow-succ' x k) (mul-pos h (pow_pos x k h))

-- The guard lets a product pass exactly when it fits a uint64.
guard_fits :
    (product prime : ℕ)
    → 0 < prime
    → (product ≤ max_prime_value / prime) ↔ (product * prime ≤ max_prime_value)
guard_fits product prime p = le-div_iff_mul-le p

regroup : (product prime k : ℕ) → product * prime ^ suc k ≡ product * prime * prime ^ k
regroup product prime k = rw (pow-succ' prime k) (omega arith)

-- The loop multiplies exactly where the result fits a uint64, and refuses where it does not.
power_loop_lem :
    (k prime product : ℕ)
    → 0 < prime
    → 0 < product
    → product < 2 ^ 64
    → ((product * prime ^ k < 2 ^ 64) × (power_loop k prime product ≡ some (product * prime ^ k)))
      ⊎ ((2 ^ 64 ≤ product * prime ^ k) × (power_loop k prime product ≡ none))
unfolding power_loop
power_loop_lem zero prime product p q fits =
    let same : product * prime ^ 0 ≡ product = rw (pow-zero prime) (omega arith) in
    rw same (inl (fits, refl))
power_loop_lem (suc k) prime product p q fits =
    elim (Bool-cases (ltb (max_prime_value / prime) product)) [
      | inl over ↦
          let too_large : ¬ (product * prime ≤ max_prime_value) =
            λ h. absurd (ground (arith, (guard_fits product prime p).1 h)) in
          rw (over, regroup product prime k)
            (inr (
              le_trans (omega (arith, too_large))
                  (le-mul_of_pos_right (product * prime) (pow_pos prime k p)),
              refl,
            ))
      | inr room ↦
          let small : product * prime ≤ max_prime_value =
            (guard_fits product prime p).0 (ground arith) in
          let exact : product * prime % 2 ^ 64 ≡ product * prime = omega arith in
          rw (room, regroup product prime k, exact)
            (power_loop_lem k prime (product * prime) p (mul-pos q p) (omega arith))
    ]

pub canonical_positive :
    (previous : ℕ) (factors : List PrimePowerFactor)
    → canonical_loop previous factors ≡ true
    → 0 < product_of factors
unfolding canonical_loop product_of
canonical_positive previous [] h = omega arith
canonical_positive previous (f ∷ rest) h =
    mul-pos (pow_pos f.prime f.exponent (ground arith))
      (canonical_positive f.prime rest (ground arith))

product_loop_lem :
    (previous product : ℕ) (factors : List PrimePowerFactor)
    → canonical_loop previous factors ≡ true
    → 0 < product
    → product < 2 ^ 64
    → ((product * product_of factors < 2 ^ 64)
        × (product_loop factors product ≡ some (product * product_of factors)))
      ⊎ ((2 ^ 64 ≤ product * product_of factors) × (product_loop factors product ≡ none))
unfolding canonical_loop product_loop product_of
product_loop_lem previous product [] h q fits = rw (mul-one product) (inl (fits, refl))
product_loop_lem previous product (f ∷ rest) h q fits =
    let positive : 0 < f.prime = ground arith in
    elim (power_loop_lem f.exponent f.prime product positive q fits) [
      | inl (small, stepped) ↦
          rw (stepped, sym (mul_assoc product (f.prime ^ f.exponent) (product_of rest)))
            (product_loop_lem f.prime (product * f.prime ^ f.exponent) rest (ground arith)
              (mul-pos q (pow_pos f.prime f.exponent positive)) small)
      | inr (large, stopped) ↦
          rw (stopped, sym (mul_assoc product (f.prime ^ f.exponent) (product_of rest)))
            (inr (
              le_trans large (
                  le-mul_of_pos_right (product * f.prime ^ f.exponent)
                    (canonical_positive f.prime rest (ground arith))),
              refl,
            ))
    ]

-- multiplyFactorization refuses a factorisation that is not canonical; of a canonical one it
-- returns the exact product if that is a uint64, and refuses if it is not.
pub multiply_factorization-exact :
    (f : Factorization)
    → ((is_canonical_factorization f ≡ false) × (multiply_factorization f ≡ none))
      ⊎ ((is_canonical_factorization f ≡ true)
          × (((product_of f.factors < 2 ^ 64)
                × (multiply_factorization f ≡ some (product_of f.factors)))
              ⊎ ((2 ^ 64 ≤ product_of f.factors) × (multiply_factorization f ≡ none))))
unfolding multiply_factorization is_canonical_factorization
multiply_factorization-exact f = elim (Bool-cases (canonical_loop 0 f.factors)) [
  | inr refused ↦ rw refused (inl (refl, refl))
  | inl canonical ↦ rw canonical (
      inr (
        refl,
        rw one-mul at (product_loop_lem 0 1 f.factors canonical (omega arith) (omega arith)),
      ))
]
