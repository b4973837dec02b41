-- ===== src/Examples/Arithmetic.antt =====
-- The theorems on src/math/number_theory.cpp at concrete inputs.
use primechain.Base.{
  ℕ, zero, suc, ◌+◌, ◌-◌, ◌*◌, ◌%◌, ◌^◌, ◌≤◌, ◌<◌, ◌≡◌, ◌≢◌, ◌⊎◌, ◌↔◌, refl, true, false, Option,
  none, some, [], ◌∷◌, arith,
}
use primechain.Math.Divides.{IsPrimeNumber}
use primechain.Math.Prime.{next_prime_loop, is_prime, wheel_loop, next_prime_after}
use primechain.Math.Prime.TrialDivision.{is_prime_iff}
use primechain.Math.Prime.Next.{IsLeastPrimeFrom, next_prime_after-least}
use primechain.Math.Composite.{
  CompositeProof, verify_composite_proof, make_composite_proof, IsFactorisation, IsProofFor,
  verify_composite_proof_iff, verify_composite_proof-not_prime, make_composite_proof_complete,
}
use primechain.Math.Modular.{mul_mod_loop, pow_mod_loop, mul_mod, pow_mod}
use primechain.Math.Modular.Exact.{mul_mod-exact, pow_mod-exact, mul_mod_wraps}
use primechain.Math.Gcd.{gcd, IsGcd, gcd-IsGcd}
use primechain.Math.Factorization.{
  Factorization, is_canonical_factorization, canonical_loop, multiply_factorization,
  factorize_from_proof_index, add_factor, count_factor, canonical_only,
}
use primechain.Math.Factorization.Product.{product_of, multiply_factorization-exact}
use primechain.Math.Factorization.Index.{IsComplete, factorize_sound, factorize-total}

is_prime_iff_example : (is_prime 8191 ≡ true) ↔ IsPrimeNumber 8191
is_prime_iff_example = is_prime_iff 8191

next_prime_after-least_example : IsLeastPrimeFrom (113 + 1) (next_prime_after 113)
next_prime_after-least_example = next_prime_after-least 113 (omega arith)

abbrev proof_of_six : CompositeProof
proof_of_six = record { m = 6; d = 2; e = 3; nonce = []; provider_address = []; signature = [] }

proof_of_six_accepted : verify_composite_proof proof_of_six ≡ true
unfolding verify_composite_proof
proof_of_six_accepted = refl

verify_composite_proof_iff_example :
    (verify_composite_proof proof_of_six ≡ true) ↔ IsFactorisation proof_of_six
verify_composite_proof_iff_example = verify_composite_proof_iff proof_of_six (omega arith)

verify_composite_proof-not_prime_example : is_prime 6 ≡ false
verify_composite_proof-not_prime_example =
    verify_composite_proof-not_prime proof_of_six (omega arith) proof_of_six_accepted

make_composite_proof_complete_example :
    ((make_composite_proof 91 [] ≡ none) × ((91 < 4) ⊎ IsPrimeNumber 91))
    ⊎ ((p : CompositeProof) × (make_composite_proof 91 [] ≡ some p) × IsProofFor 91 [] p)
make_composite_proof_complete_example = make_composite_proof_complete 91 [] (omega arith)

mul_mod-exact_example : mul_mod 70000 80000 65537 ≡ (70000 * 80000) % 65537
mul_mod-exact_example = mul_mod-exact 70000 80000 65537 (omega arith) (omega arith) (omega arith)

pow_mod-exact_example : pow_mod 3 65536 65537 ≡ 3 ^ 65536 % 65537
pow_mod-exact_example = pow_mod-exact 3 65536 65537 (omega arith) (omega arith) (omega arith)

mul_mod_wraps_example :
    mul_mod (18446744073709551557 - 1) 2 18446744073709551557
    ≢ ((18446744073709551557 - 1) * 2) % 18446744073709551557
mul_mod_wraps_example = mul_mod_wraps 18446744073709551557 (omega arith) (omega arith)

gcd-IsGcd_example : IsGcd 84 36 (gcd 84 36)
gcd-IsGcd_example = gcd-IsGcd 84 36

abbrev twelve : Factorization
twelve = record {
  factors = record { prime = 2; exponent = 2 } ∷ (record { prime = 3; exponent = 1 } ∷ []);
}

multiply_factorization-exact_example :
    ((is_canonical_factorization twelve ≡ false) × (multiply_factorization twelve ≡ none))
    ⊎ ((is_canonical_factorization twelve ≡ true)
        × (((product_of twelve.factors < 2 ^ 64)
              × (multiply_factorization twelve ≡ some (product_of twelve.factors)))
            ⊎ ((2 ^ 64 ≤ product_of twelve.factors) × (multiply_factorization twelve ≡ none))))
multiply_factorization-exact_example = multiply_factorization-exact twelve

-- An index that holds the proof of 6 alone.
abbrev index_of_six : ℕ → Option CompositeProof
index_of_six zero = none
index_of_six (suc zero) = none
index_of_six (suc (suc zero)) = none
index_of_six (suc (suc (suc zero))) = none
index_of_six (suc (suc (suc (suc zero)))) =
    some (record { m = 4; d = 2; e = 2; nonce = []; provider_address = []; signature = [] })
index_of_six (suc (suc (suc (suc (suc zero))))) = none
index_of_six (suc (suc (suc (suc (suc (suc n)))))) = some proof_of_six

abbrev six : Factorization
six = record {
  factors = record { prime = 2; exponent = 1 } ∷ (record { prime = 3; exponent = 1 } ∷ []);
}

six_factorized : factorize_from_proof_index 6 index_of_six ≡ some six
unfolding factorize_from_proof_index canonical_only add_factor count_factor verify_composite_proof
    is_prime wheel_loop is_canonical_factorization canonical_loop
six_factorized = refl

factorize_sound_example : (is_canonical_factorization six ≡ true) × (product_of six.factors ≡ 6)
factorize_sound_example = factorize_sound 6 index_of_six six (omega arith) six_factorized

index_of_six-IsComplete : IsComplete 6 index_of_six
unfolding is_prime wheel_loop verify_composite_proof
index_of_six-IsComplete zero low high composite = absurd (omega arith)
index_of_six-IsComplete (suc zero) low high composite = absurd (omega arith)
index_of_six-IsComplete (suc (suc zero)) low high composite = absurd (omega arith)
index_of_six-IsComplete (suc (suc (suc zero))) low high composite = absurd (omega arith)
index_of_six-IsComplete (suc (suc (suc (suc zero)))) low high composite = (_, refl, refl, refl)
index_of_six-IsComplete (suc (suc (suc (suc (suc zero))))) low high composite =
    absurd (cc composite)
index_of_six-IsComplete (suc (suc (suc (suc (suc (suc zero)))))) low high composite =
    (_, refl, refl, refl)
index_of_six-IsComplete (suc (suc (suc (suc (suc (suc (suc m))))))) low high composite =
    absurd (omega arith)

factorize-total_example : (f : Factorization) × (factorize_from_proof_index 6 index_of_six ≡ some f)
factorize-total_example =
    factorize-total 6 index_of_six (omega arith) (omega arith) index_of_six-IsComplete

test_primes : is_prime 97 ≡ true
unfolding is_prime wheel_loop
test_primes = refl

test_next : next_prime_after 89 ≡ 97
unfolding next_prime_after next_prime_loop is_prime wheel_loop
test_next = refl

test_mul_mod : mul_mod 123456789 987654321 1000007 ≡ 123456789 * 987654321 % 1000007
unfolding mul_mod mul_mod_loop
test_mul_mod = refl

test_pow_mod : pow_mod 3 100 101 ≡ 1
unfolding pow_mod pow_mod_loop mul_mod mul_mod_loop
test_pow_mod = refl
