-- ===== src/Math/Pratt.antt =====
-- PrattProof and verifyPrattProof of math/number_theory.cpp.
use primechain.Base.{
  ℕ, ◌-◌, ◌/◌, Bool, true, false, not, ◌&&◌, ◌||◌, Option, none, some, List, [], ◌∷◌, is_empty, ltb,
  leb, ◌==◌, if◌then◌else◌,
}
use primechain.Math.Modular.{pow_mod}
use primechain.Math.Gcd.{gcd}
use primechain.Math.Factorization.{
  PrimePowerFactor, Factorization, is_canonical_factorization, multiply_factorization,
}

pub record PrattProof : Type 0 where
  pub p : ℕ
  pub witness : ℕ
  pub factors_of_p_minus_1 : Factorization

-- The loop over the prime factors of `p - 1`.
unfoldable pub check_factors : ℕ → ℕ → List PrimePowerFactor → Bool
check_factors p witness [] = true
check_factors p witness (factor ∷ factors) =
    let residue = pow_mod witness ((p - 1) / factor.prime) p in
    let diff = if residue == 0 then p - 1 else residue - 1 in
    (gcd diff p == 1) && check_factors p witness factors

unfoldable pub is_product : ℕ → Option ℕ → Bool
is_product n none = false
is_product n (some product) = product == n

unfoldable pub verify_pratt_proof : PrattProof → Bool
verify_pratt_proof proof =
    if proof.p == 2
    then (proof.witness == 0) && is_empty proof.factors_of_p_minus_1.factors
    else if ltb proof.p 2 || (leb proof.witness 1 || leb proof.p proof.witness)
    then false
    else if not (is_canonical_factorization proof.factors_of_p_minus_1)
    then false
    else if not (is_product (proof.p - 1) (multiply_factorization proof.factors_of_p_minus_1))
    then false
    else if not (pow_mod proof.witness (proof.p - 1) proof.p == 1)
    then false
    else check_factors proof.p proof.witness proof.factors_of_p_minus_1.factors
