-- ===== src/Math/Composite.antt =====
-- CompositeProof, makeCompositeProof and verifyCompositeProof.
use primechain.Base.{
  ℕ, zero, suc, ◌+◌, ◌*◌, ◌/◌, ◌%◌, ◌^◌, ◌≤◌, ◌<◌, ◌≡◌, refl, ◌≢◌, ◌⊎◌, ◌↔◌, inl, inr, Bool, true,
  false, ◌||◌, ◌&&◌, ltb, leb, ◌==◌, if◌then◌else◌, arith, Bool-cases, Option-cases, Option, some,
  none, [],
}
use primechain.Base.Text.{Bytes}
use primechain.Records.Types.{zero_hash}
use primechain.Math.Divides.{IsPrimeNumber, square-le, le-div_down, small_divisor}
use primechain.Math.Prime.{is_prime}
use primechain.Math.Prime.TrialDivision.{is_prime_iff}
use native.Mathlib.Nat.{
  mul-div_cancel', mul-mod_right, dvd_of_mod-eq-zero, mul-mod_right, le-div_iff_mul-le,
}

-- types.hpp; the members that no function of the model reads are kept as bytes.
pub record CompositeProof : Type 0 where
  pub m : ℕ
  pub d : ℕ
  pub e : ℕ
  pub nonce : Bytes
  pub provider_address : Bytes
  pub signature : Bytes

-- The product of two uint64 wraps; the quotient test in front of it rules that out.
unfoldable pub verify_composite_proof : CompositeProof → Bool
verify_composite_proof proof =
    if ltb proof.m 4 || leb proof.d 1 || leb proof.e 1
    then false
    else if leb proof.m proof.d || leb proof.m proof.e
    then false
    else (leb proof.d (proof.m / proof.e) && (proof.d * proof.e % 2 ^ 64 == proof.m))

-- `for (d = 2; d <= n / d; ++d)`: the first divisor, if the loop meets one.
unfoldable pub divisor_loop : ℕ → ℕ → ℕ → Option ℕ
divisor_loop zero n d = none
divisor_loop (suc fuel) n d =
    let rest = divisor_loop fuel n (d + 1) in
    if leb d (n / d) then (if n % d == 0 then some d else rest) else none

composite_proof_of : ℕ → Bytes → Option ℕ → Option CompositeProof
composite_proof_of n provider none = none
composite_proof_of n provider (some d) = some (record {
  m = n;
  d = d;
  e = n / d;
  nonce = zero_hash;
  provider_address = provider;
  signature = [];
})

unfoldable pub make_composite_proof : ℕ → Bytes → Option CompositeProof
unfolding composite_proof_of
make_composite_proof n provider =
    if ltb n 4 || is_prime n then none else composite_proof_of n provider (divisor_loop n n 2)

-- What a composite proof claims: a factorisation into two numbers above 1, as exact integers.
pub record IsFactorisation (proof : CompositeProof) : Type 0 where
  pub d_large : 1 < proof.d
  pub e_large : 1 < proof.e
  pub product : proof.d * proof.e ≡ proof.m

pub factors_below : (d e : ℕ) → 1 < d → 1 < e → (d < d * e) × (e < d * e) × (4 ≤ d * e)
factors_below d e hd he = (grind arith, grind arith, grind arith)

quotient_product : (d e m : ℕ) → 1 < e → (d ≤ m / e → d * e ≤ m) × (d * e ≤ m → d ≤ m / e)
quotient_product d e m h =
    (λ q. (le-div_iff_mul-le (omega arith)).0 q, λ q. (le-div_iff_mul-le (omega arith)).1 q)

verify_sound :
    (p : CompositeProof) → p.m < 2 ^ 64 → verify_composite_proof p ≡ true → IsFactorisation p
unfolding verify_composite_proof
verify_sound p bound h = ground (arith, quotient_product p.d p.e p.m)

verify_complete :
    (p : CompositeProof) → p.m < 2 ^ 64 → IsFactorisation p → verify_composite_proof p ≡ true
unfolding verify_composite_proof
verify_complete p bound f =
    ground (arith, quotient_product p.d p.e p.m, factors_below p.d p.e f.d_large f.e_large)

-- The check accepts exactly the factorisations of `m` into two factors above 1: on 64 bits no
-- product that wraps is accepted, and no factorisation is refused.
pub verify_composite_proof_iff :
    (p : CompositeProof) → p.m < 2 ^ 64 → (verify_composite_proof p ≡ true) ↔ IsFactorisation p
verify_composite_proof_iff p bound = (verify_sound p bound, verify_complete p bound)

-- The number of an accepted proof is not prime.
pub verify_composite_proof-not_prime :
    (p : CompositeProof) → p.m < 2 ^ 64 → verify_composite_proof p ≡ true → is_prime p.m ≡ false
verify_composite_proof-not_prime p bound h = elim (Bool-cases (is_prime p.m)) [
  | inr composite ↦ composite
  | inl prime ↦
      let f = verify_sound p bound h in
      let small = factors_below p.d p.e f.d_large f.e_large in
      absurd (
        ((is_prime_iff p.m).0 prime).no_divisor p.d (omega (arith, f.d_large))
          (omega (arith, small, f.product)) (rw (← f.product) (mul-mod_right p.d p.e)))
]

-- The loop stops at the least divisor from `d` on, as soon as there is one up to the root.
divisor_loop_finds :
    (fuel n d e : ℕ)
    → 0 < d
    → d ≤ e
    → e ≤ n / e
    → n % e ≡ 0
    → e < d + fuel
    → (f : ℕ) × ((divisor_loop fuel n d ≡ some f) × (d ≤ f) × (f ≤ e) × (n % f ≡ 0))
unfolding divisor_loop
divisor_loop_finds zero n d e p de root m enough = absurd (omega arith)
divisor_loop_finds (suc fuel) n d e p de root m enough = elim (Bool-cases (n % d == 0)) [
  | inl hit ↦ (d, (ground (arith, le-div_down d e n), omega arith, omega arith, ground arith))
  | inr miss ↦
      let (f, (found, low, high, div)) =
        divisor_loop_finds fuel n (d + 1) e (omega arith) (ground arith) root m (omega arith) in
      (f, (ground (arith, le-div_down d e n), omega arith, high, div))
]

divisor_loop_sound :
    (fuel n d f : ℕ) → divisor_loop fuel n d ≡ some f → (d ≤ f) × (f ≤ n / f) × (n % f ≡ 0)
unfolding divisor_loop
divisor_loop_sound zero n d f h = cc
divisor_loop_sound (suc fuel) n d f h = ground (arith, divisor_loop_sound fuel n (d + 1) f)

no_divisor_found : (n : ℕ) → 2 ≤ n → divisor_loop n n 2 ≡ none → IsPrimeNumber n
no_divisor_found n two h = record {
  at_least_two = two;
  no_divisor = λ d lo hi m.
      let (e, (le, root, div, lt)) = small_divisor n d lo hi m in
      let (f, (found, _, _, _)) =
        divisor_loop_finds n n 2 e (omega arith) le root div (omega arith) in
      cc;
}

-- What makeCompositeProof has made for `n`.
pub record IsProofFor (n : ℕ) (provider : Bytes) (p : CompositeProof) : Type 0 where
  pub names_n : p.m ≡ n
  pub pays_provider : p.provider_address ≡ provider
  pub accepted : verify_composite_proof p ≡ true
  pub least : (e : ℕ) → 2 ≤ e → e < p.d → n % e ≢ 0

proof_of_divisor :
    (n f : ℕ) (provider : Bytes)
    → n < 2 ^ 64
    → divisor_loop n n 2 ≡ some f
    → (p : CompositeProof) × ((composite_proof_of n provider (some f) ≡ some p)
        × IsProofFor n provider p)
unfolding composite_proof_of
proof_of_divisor n f provider bound h =
    let (two, root, div) = divisor_loop_sound n n 2 f h in
    let square : f * f ≤ n = square-le f n (omega arith) root in
    let product : f * (n / f) ≡ n = mul-div_cancel' f (dvd_of_mod-eq-zero f div) in
    (
      _,
      (
        refl,
        record {
          names_n = refl;
          pays_provider = refl;
          accepted =
              verify_complete _ bound
                (record { d_large = omega arith; e_large = omega arith; product = product });
          least = λ e lo hi m.
              let (g, (found, _, low, _)) =
                divisor_loop_finds n n 2 e (omega arith) lo
                  (le-div_down e f n (omega arith) (omega arith) root) m
                  (omega (arith, square, factors_below f f (omega arith) (omega arith))) in
              ground arith;
        },
      ),
    )

-- makeCompositeProof answers exactly for the composites: a number from 4 on that is not prime gets
-- a proof that the check accepts, over its least divisor, and any other number gets none.
pub make_composite_proof_complete :
    (n : ℕ) (provider : Bytes)
    → n < 2 ^ 64
    → ((make_composite_proof n provider ≡ none) × ((n < 4) ⊎ IsPrimeNumber n))
      ⊎ ((p : CompositeProof) × (make_composite_proof n provider ≡ some p)
          × IsProofFor n provider p)
unfolding make_composite_proof
make_composite_proof_complete n provider bound = elim (Bool-cases (ltb n 4)) [
  | inl low ↦ rw low (inl (refl, inl (ground arith)))
  | inr high ↦ elim (Bool-cases (is_prime n)) [
    | inl prime ↦ rw (high, prime) (inl (refl, inr ((is_prime_iff n).0 prime)))
    | inr composite ↦ elim (Option-cases (divisor_loop n n 2)) [
      | inl missing ↦ absurd (cc ((is_prime_iff n).1 (no_divisor_found n (ground arith) missing)))
      | inr (f, found) ↦
          let (p, (made, good)) = proof_of_divisor n f provider bound found in
          rw (high, composite, found) (inr (p, made, good))
    ]
  ]
]
