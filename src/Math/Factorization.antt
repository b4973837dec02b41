-- ===== src/Math/Factorization.antt =====
-- Factorization: its canonical form, its product, its bytes, and factorizeFromProofIndex.
pub mod Product
pub mod Index
use primechain.Base.{
  ℕ, zero, suc, ◌+◌, ◌-◌, ◌*◌, ◌/◌, ◌%◌, ◌^◌, Bool, true, false, not, ◌||◌, ◌&&◌, ltb, leb, ◌==◌,
  if◌then◌else◌, Option, none, some, List, [], ◌∷◌,
}
use primechain.Math.Prime.{is_prime, max_prime_value}
use primechain.Math.Composite.{CompositeProof, verify_composite_proof}

pub record PrimePowerFactor : Type 0 where
  pub prime : ℕ
  pub exponent : ℕ

pub record Factorization : Type 0 where
  pub factors : List PrimePowerFactor

-- The loop of isCanonicalFactorization; `previous` is 0 before the first factor.
unfoldable pub canonical_loop : ℕ → List PrimePowerFactor → Bool
canonical_loop previous [] = true
canonical_loop previous (factor ∷ rest) =
    let later = canonical_loop factor.prime rest in
    if ltb factor.prime 2 || (factor.exponent == 0)
    then false
    else if not (is_prime factor.prime)
    then false
    else if not (previous == 0) && leb factor.prime previous
    then false
    else later

unfoldable pub is_canonical_factorization : Factorization → Bool
is_canonical_factorization factorization = canonical_loop 0 factorization.factors

-- `for (i = 0; i < exponent; ++i)`: the product, or none where the next one would overflow.
unfoldable pub power_loop : ℕ → ℕ → ℕ → Option ℕ
power_loop zero prime product = some product
power_loop (suc rounds) prime product =
    let rest = power_loop rounds prime (product * prime % 2 ^ 64) in
    if ltb (max_prime_value / prime) product then none else rest

product_after : (ℕ → Option ℕ) → Option ℕ → Option ℕ
product_after next none = none
product_after next (some product) = next product

unfoldable pub product_loop : List PrimePowerFactor → ℕ → Option ℕ
unfolding product_after
product_loop [] product = some product
product_loop (factor ∷ rest) product =
    product_after (product_loop rest) (power_loop factor.exponent factor.prime product)

unfoldable pub multiply_factorization : Factorization → Option ℕ
multiply_factorization factorization =
    if is_canonical_factorization factorization then product_loop factorization.factors 1 else none

-- std::map<PrimeValue, uint64_t>, ascending in its keys: `++factors[n]`.
unfoldable pub count_factor : ℕ → List PrimePowerFactor → List PrimePowerFactor
count_factor n [] = record { prime = n; exponent = 1 } ∷ []
count_factor n (f ∷ rest) =
    if ltb n f.prime
    then record { prime = n; exponent = 1 } ∷ (f ∷ rest)
    else if n == f.prime
    then record f { exponent = (f.exponent + 1) % 2 ^ 64 } ∷ rest
    else f ∷ count_factor n rest

-- addFactor: none where the code returns false. The factors of an accepted proof are below its
-- number, so `n` rounds are enough.
unfoldable pub add_factor :
    (ℕ → Option CompositeProof) → ℕ → ℕ → List PrimePowerFactor → Option (List PrimePowerFactor)
add_factor proofs zero n factors = none
add_factor proofs (suc fuel) n factors = elim (ltb n 2) [
  | true ↦ none
  | false ↦ elim (is_prime n) [
    | true ↦ some (count_factor n factors)
    | false ↦ elim (proofs n) [
      | none ↦ none
      | some proof ↦ elim (verify_composite_proof proof && (proof.m == n)) [
        | false ↦ none
        | true ↦ elim (add_factor proofs fuel proof.d factors) [
          | none ↦ none
          | some factors' ↦ add_factor proofs fuel proof.e factors'
        ]
      ]
    ]
  ]
]

unfoldable pub canonical_only : Factorization → Option Factorization
canonical_only out = if is_canonical_factorization out then some out else none

unfoldable pub factorize_from_proof_index : ℕ → (ℕ → Option CompositeProof) → Option Factorization
unfolding canonical_only
factorize_from_proof_index n proofs = if ltb n 2 then none else elim (add_factor proofs n n []) [
  | none ↦ none
  | some counts ↦ canonical_only (record { factors = counts })
]
