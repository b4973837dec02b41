-- ===== src/Math/Factorization/Index.antt =====
-- factorizeFromProofIndex over an index of composite proofs: what it returns is the canonical
-- factorisation of its number, and with a complete index it returns one.
use primechain.Base.{
  ℕ, zero, suc, ◌+◌, ◌*◌, ◌%◌, ◌^◌, ◌≤◌, ◌<◌, ◌≡◌, refl, ◌∙◌, ◌⊎◌, inl, inr, true, false, ltb, ◌==◌,
  ◌&&◌, arith, Bool-cases, Option-cases, Option, some, List, [], ◌∷◌, and-split, ==_iff, dec_lt,
}
use primechain.Math.Prime.{is_prime}
use primechain.Math.Prime.TrialDivision.{is_prime_iff}
use primechain.Math.Composite.{
  CompositeProof, verify_composite_proof, verify_composite_proof_iff, IsFactorisation,
  factors_below,
}
use primechain.Math.Factorization.{
  PrimePowerFactor, Factorization, canonical_loop, is_canonical_factorization, count_factor,
  add_factor, factorize_from_proof_index,
}
use primechain.Math.Factorization.Product.{product_of, pow_pos, canonical_positive}
use native.Mathlib.Nat.{
  pow-zero, pow-succ', pow-le-pow_left, pow-le-pow_right, le_trans, le-mul_of_pos_right,
  lt_of_le_of_lt, le_of_suc-le, le_of_eq, mul-le-mul_right, mul_assoc, mul_comm, mul_left_comm,
  mul-one,
}

le-mul_of_pos_left : (n : ℕ) {m : ℕ} → 0 < m → n ≤ m * n
le-mul_of_pos_left n {m} h = rw (mul_comm m n) (le-mul_of_pos_right n h)

exponent_bound : (x e rest : ℕ) → 2 ≤ x → 0 < rest → x ^ e * rest < 2 ^ 64 → e < 64
exponent_bound x e rest two positive fits = elim (dec_lt e 64) [
  | yes below ↦ below
  | no above ↦ absurd (
      omega (
        arith,
        le_trans (pow-le-pow_right {n = 2} (omega arith) {i = 64} {j = e} (omega arith))
            (le_trans (pow-le-pow_left two e) (le-mul_of_pos_right (x ^ e) positive)),
      ))
]

pow-one : (x : ℕ) → x ^ 1 ≡ x
pow-one x = pow-succ' x 0 ∙ rw (pow-zero x) (omega arith)

prime_ge_two : (n : ℕ) → is_prime n ≡ true → 2 ≤ n
prime_ge_two n h = ((is_prime_iff n).0 h).at_least_two

-- `++factors[n]` keeps the map canonical and multiplies what it stands for by `n`.
count_factor_lem :
    (previous n : ℕ) (factors : List PrimePowerFactor)
    → canonical_loop previous factors ≡ true
    → is_prime n ≡ true
    → (previous ≡ 0) ⊎ (previous < n)
    → product_of factors < 2 ^ 64
    → (canonical_loop previous (count_factor n factors) ≡ true)
      × (product_of (count_factor n factors) ≡ n * product_of factors)
unfolding canonical_loop count_factor product_of
count_factor_lem previous n [] h prime above fits =
    (ground (arith, prime_ge_two n prime), rw (pow-one n) refl)
count_factor_lem previous n (f ∷ rest) h prime above fits = elim (Bool-cases (ltb n f.prime)) [
  | inl before ↦ rw before (ground (arith, prime_ge_two n prime), rw (pow-one n) refl)
  | inr not_before ↦ elim (Bool-cases (n == f.prime)) [
    | inl same ↦
        let same_key : n ≡ f.prime = ground arith in
        let small : f.exponent < 64 =
          exponent_bound f.prime f.exponent (product_of rest) (ground arith)
            (canonical_positive f.prime rest (ground arith)) fits in
        let exact : (f.exponent + 1) % 2 ^ 64 ≡ suc f.exponent = omega arith in
        rw (not_before, same, exact, pow-succ' f.prime f.exponent)
          (ground arith, rw same_key (mul_assoc f.prime (f.prime ^ f.exponent) (product_of rest)))
    | inr other ↦
        let positive : 0 < f.prime ^ f.exponent = pow_pos f.prime f.exponent (ground arith) in
        let (kept, product) =
          count_factor_lem f.prime n rest (ground arith) prime (inr (ground arith))
            (lt_of_le_of_lt (le-mul_of_pos_left (product_of rest) positive) fits) in
        rw (not_before, other)
          (ground arith, rw product (mul_left_comm (f.prime ^ f.exponent) n (product_of rest)))
  ]
]

-- What addFactor has done to the map when it returns true.
abbrev Multiplied : ℕ → List PrimePowerFactor → List PrimePowerFactor → Type 0
Multiplied n factors factors' =
    (canonical_loop 0 factors' ≡ true) × (product_of factors' ≡ n * product_of factors)

-- How a call of addFactor has returned true.
abbrev Returned :
    (ℕ → Option CompositeProof) → ℕ → ℕ → List PrimePowerFactor → List PrimePowerFactor → Type 0
Returned proofs fuel n factors factors' =
    ((is_prime n ≡ true) × (factors' ≡ count_factor n factors))
    ⊎ ((p : CompositeProof) × (middle : List PrimePowerFactor) × (verify_composite_proof p ≡ true)
        × (p.m ≡ n)
        × (add_factor proofs fuel p.d factors ≡ some middle)
        × (add_factor proofs fuel p.e middle ≡ some factors'))

add_factor-Returned :
    (proofs : ℕ → Option CompositeProof) (fuel n : ℕ) (factors factors' : List PrimePowerFactor)
    → add_factor proofs (suc fuel) n factors ≡ some factors'
    → Returned proofs fuel n factors factors'
unfolding add_factor
add_factor-Returned proofs fuel n factors factors' e = elim (Bool-cases (ltb n 2)) [
  | inl low ↦ ground arith
  | inr high ↦ elim (Bool-cases (is_prime n)) [
    | inl prime ↦ inl (prime, ground arith)
    | inr composite ↦ elim (Option-cases (proofs n)) [
      | inl missing ↦ ground arith
      | inr (p, found) ↦ elim (Bool-cases (verify_composite_proof p && (p.m == n))) [
        | inr bad ↦ ground arith
        | inl good ↦ elim (Option-cases (add_factor proofs fuel p.d factors)) [
          | inl stuck ↦ ground arith
          | inr (middle, first) ↦ inr (
            p,
            middle,
            (and-split _ _ good).0,
            (==_iff _ _).0 (and-split _ _ good).1,
            first,
            ground arith,
          )
        ]
      ]
    ]
  ]
]

add_factor_lem :
    (proofs : ℕ → Option CompositeProof) (fuel n : ℕ) (factors factors' : List PrimePowerFactor)
    → canonical_loop 0 factors ≡ true
    → n * product_of factors < 2 ^ 64
    → add_factor proofs fuel n factors ≡ some factors'
    → Multiplied n factors factors'
add_factor_lem proofs zero n factors factors' h fits e = unfold add_factor in cc
add_factor_lem proofs (suc fuel) n factors factors' h fits e =
    elim (add_factor-Returned proofs fuel n factors factors' e) [
      | inl (prime, counted) ↦ rw counted (
          count_factor_lem 0 n factors h prime (inl refl)
            (lt_of_le_of_lt (le-mul_of_pos_left _ (le_of_suc-le (prime_ge_two n prime))) fits))
      | inr (p, middle, accepted, names, first, second) ↦
          let positive : 0 < product_of factors = canonical_positive 0 factors h in
          let bound : p.m < 2 ^ 64 =
            lt_of_le_of_lt (le_trans (le_of_eq names) (le-mul_of_pos_right n positive)) fits in
          let f : IsFactorisation p = (verify_composite_proof_iff p bound).0 accepted in
          let whole : p.d * p.e ≡ n = f.product ∙ names in
          let d_below : p.d ≤ n = omega (arith, factors_below p.d p.e f.d_large f.e_large, whole) in
          let (kept, product) =
            add_factor_lem proofs fuel p.d factors middle h
              (lt_of_le_of_lt (mul-le-mul_right (product_of factors) d_below) fits) first in
          let regrouped : p.e * product_of middle ≡ n * product_of factors =
            rw (product, ← whole) (omega arith) in
          let (kept', product') =
            add_factor_lem proofs fuel p.e middle factors' kept
              (lt_of_le_of_lt (le_of_eq regrouped) fits) second in
          (kept', product' ∙ regrouped)
    ]

product-nil : (n : ℕ) → n * product_of [] ≡ n
unfolding product_of
product-nil n = mul-one n

empty_canonical : canonical_loop 0 [] ≡ true
unfolding canonical_loop
empty_canonical = refl

factorized :
    (n : ℕ) (proofs : ℕ → Option CompositeProof) (f : Factorization)
    (counts : List PrimePowerFactor)
    → add_factor proofs n n [] ≡ some counts
    → factorize_from_proof_index n proofs ≡ some f
    → (is_canonical_factorization f ≡ true) × (f.factors ≡ counts)
unfolding factorize_from_proof_index
factorized n proofs f counts added e = ground arith

-- What factorizeFromProofIndex returns is canonical and multiplies to its number, whatever the
-- index holds.
pub factorize_sound :
    (n : ℕ) (proofs : ℕ → Option CompositeProof) (f : Factorization)
    → n < 2 ^ 64
    → factorize_from_proof_index n proofs ≡ some f
    → (is_canonical_factorization f ≡ true) × (product_of f.factors ≡ n)
unfolding factorize_from_proof_index
factorize_sound n proofs f bound e = elim (Option-cases (add_factor proofs n n [])) [
  | inl refused ↦ ground arith
  | inr (counts, added) ↦
      let (_, product) =
        add_factor_lem proofs n n [] counts empty_canonical
          (lt_of_le_of_lt (le_of_eq (product-nil n)) bound) added in
      let (canonical, same) = factorized n proofs f counts added e in
      (canonical, rw same (product ∙ product-nil n))
]

-- The index has an accepted proof for every composite number up to `n`.
abbrev pub IsComplete : ℕ → (ℕ → Option CompositeProof) → Type 0
IsComplete n proofs =
    (m : ℕ)
    → 4 ≤ m
    → m ≤ n
    → is_prime m ≡ false
    → (p : CompositeProof) × (proofs m ≡ some p) × (verify_composite_proof p ≡ true) × (p.m ≡ m)

composite_ge_four : (n : ℕ) → 2 ≤ n → is_prime n ≡ false → 4 ≤ n
composite_ge_four zero h c = absurd (omega arith)
composite_ge_four (suc zero) h c = absurd (omega arith)
composite_ge_four (suc (suc zero)) h c = unfold is_prime in cc
composite_ge_four (suc (suc (suc zero))) h c = unfold is_prime in cc
composite_ge_four (suc (suc (suc (suc n)))) h c = omega arith

add_factor-total :
    (proofs : ℕ → Option CompositeProof) (fuel n : ℕ) (factors : List PrimePowerFactor)
    → IsComplete fuel proofs
    → 2 ≤ n
    → n ≤ fuel
    → fuel < 2 ^ 64
    → (factors' : List PrimePowerFactor) × (add_factor proofs fuel n factors ≡ some factors')
unfolding add_factor
add_factor-total proofs zero n factors complete two enough bound = absurd (omega arith)
add_factor-total proofs (suc fuel) n factors complete two enough bound =
    elim (Bool-cases (is_prime n)) [
      | inl prime ↦ (count_factor n factors, ground arith)
      | inr composite ↦
          let (p, found, accepted, names) =
            complete n (composite_ge_four n two composite) enough composite in
          let f : IsFactorisation p = (verify_composite_proof_iff p (omega arith)).0 accepted in
          let small = factors_below p.d p.e f.d_large f.e_large in
          let smaller : IsComplete fuel proofs = λ m four le c. complete m four (omega arith) c in
          let (middle, first) =
            add_factor-total proofs fuel p.d factors smaller f.d_large
              (omega (arith, small, f.product)) (omega arith) in
          let (last, second) =
            add_factor-total proofs fuel p.e middle smaller f.e_large
              (omega (arith, small, f.product)) (omega arith) in
          (last, ground arith)
    ]

-- With an accepted proof in the index for every composite number up to `n`, every n from 2 on is
-- factorised: addFactor's recursion ends and finds each proof that it asks for.
pub factorize-total :
    (n : ℕ) (proofs : ℕ → Option CompositeProof)
    → 2 ≤ n
    → n < 2 ^ 64
    → IsComplete n proofs
    → (f : Factorization) × (factorize_from_proof_index n proofs ≡ some f)
unfolding factorize_from_proof_index is_canonical_factorization
factorize-total n proofs two bound complete =
    let (counts, added) = add_factor-total proofs n n [] complete two (omega arith) bound in
    let (canonical, _) =
      add_factor_lem proofs n n [] counts empty_canonical
        (lt_of_le_of_lt (le_of_eq (product-nil n)) bound) added in
    (record { factors = counts }, ground arith)
