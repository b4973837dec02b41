-- ===== src/Math/Modular/Exact.antt =====
-- For moduli up to 2 ^ 63 the doublings of mulMod do not wrap, and mulMod and powMod are exact.
use primechain.Base.{
  ℕ, zero, suc, ◌+◌, ◌-◌, ◌*◌, ◌/◌, ◌%◌, ◌^◌, ◌≤◌, ◌<◌, ltb, ◌==◌, ◌≡◌, ◌≢◌, refl, sym, ap, ◌∙◌,
  arith, Bool-cases, inl, inr, if◌then◌else◌,
}
use primechain.Math.Modular.{mul_mod_loop, mul_mod, pow_mod_loop, pow_mod}
use native.Mathlib.Nat.{
  mod-lt, mod-eq_of_lt, mod-add-mod, add-mod-mod, mul-add-mod_self_left, div-add-mod, mul_comm,
  two-pow-succ, pow-succ', pow-zero, pow-suc, add-mod_right,
}
use mathlib.Core.Path.{◌≡⟨◌⟩◌, ◌∎}

-- Reducing a factor first does not change the remainder.
pub mul-mod_left : (a b m : ℕ) → (a % m * b) % m ≡ (a * b) % m
mul-mod_left a b m =
    (a % m * b) % m
    ≡⟨ sym (mul-add-mod_self_left m (a / m * b) (a % m * b)) ⟩ (m * (a / m * b) + a % m * b) % m
    ≡⟨ ap (λ (t : ℕ). t % m) (omega (arith, ap (λ (t : ℕ). t * b) (div-add-mod a m))) ⟩
      (a * b) % m ∎

next_result : ℕ → ℕ → ℕ → ℕ → ℕ
next_result result a b m = if b % 2 == 1 then (result + a) % 2 ^ 64 % m else result

next_factor : ℕ → ℕ → ℕ → ℕ
next_factor a b m = if ltb 0 (b / 2) then (a + a) % 2 ^ 64 % m else a

next_result_lem :
    (result a b m : ℕ)
    → m ≤ 2 ^ 63
    → result < m
    → a < m
    → (next_result result a b m ≡ (result + a * (b % 2)) % m) × (next_result result a b m < m)
unfolding next_result
next_result_lem result a b m small r lt = elim (Bool-cases (b % 2 == 1)) [
  | inl odd ↦
      let bit : b % 2 ≡ 1 = ground arith in
      let fits : (result + a) % 2 ^ 64 ≡ result + a = omega arith in
      rw (odd, bit, fits) (ap (λ (t : ℕ). (result + t) % m) (omega arith), mod-lt _ (omega arith))
  | inr even ↦
      let bit : b % 2 ≡ 0 = ground arith in
      rw (even, bit) (sym (mod-eq_of_lt r) ∙ ap (λ (t : ℕ). t % m) (omega arith), r)
]

next_factor_lem :
    (a b m : ℕ)
    → m ≤ 2 ^ 63
    → a < m
    → ((next_factor a b m * (b / 2)) % m ≡ ((a + a) * (b / 2)) % m) × (next_factor a b m < m)
unfolding next_factor
next_factor_lem a b m small lt = elim (Bool-cases (ltb 0 (b / 2))) [
  | inl more ↦
      let fits : (a + a) % 2 ^ 64 ≡ a + a = omega arith in
      rw (more, fits) (mul-mod_left (a + a) (b / 2) m, mod-lt _ (omega arith))
  | inr done ↦
      let none_left : b / 2 ≡ 0 = ground arith in
      rw (done, none_left) (ap (λ (t : ℕ). t % m) (omega arith), lt)
]

-- A round on the low bit and the rest of the multiplier.
round_sum :
    (result a b m : ℕ)
    → m ≤ 2 ^ 63
    → result < m
    → a < m
    → (next_result result a b m + next_factor a b m * (b / 2)) % m ≡ (result + a * b) % m
round_sum result a b m small r lt =
    let (r_eq, _) = next_result_lem result a b m small r lt in
    let (f_eq, _) = next_factor_lem a b m small lt in
    sym (add-mod-mod (next_result result a b m) (next_factor a b m * (b / 2)) m)
    ∙ rw (f_eq, r_eq)
        (add-mod-mod ((result + a * (b % 2)) % m) ((a + a) * (b / 2)) m
          ∙ mod-add-mod (result + a * (b % 2)) m ((a + a) * (b / 2))
          ∙ ap (λ (t : ℕ). t % m) (omega (arith, ap (λ (t : ℕ). a * t) (div-add-mod b 2))))

half_bits : (fuel b : ℕ) → b < 2 ^ suc fuel → b / 2 < 2 ^ fuel
half_bits fuel b h = omega (arith, two-pow-succ fuel)

mul_mod_loop-exact :
    (fuel result a b m : ℕ)
    → m ≤ 2 ^ 63
    → result < m
    → a < m
    → b < 2 ^ fuel
    → mul_mod_loop fuel result a b m ≡ (result + a * b) % m
unfolding mul_mod_loop next_result next_factor
mul_mod_loop-exact zero result a b m small r lt enough =
    let no_bits : b ≡ 0 = omega arith in
    rw no_bits (sym (mod-eq_of_lt r) ∙ ap (λ (t : ℕ). t % m) (omega arith))
mul_mod_loop-exact (suc fuel) result a b m small r lt enough = elim (Bool-cases (ltb 0 b)) [
  | inr done ↦
      let no_bits : b ≡ 0 = ground arith in
      rw no_bits (sym (mod-eq_of_lt r) ∙ ap (λ (t : ℕ). t % m) (omega arith))
  | inl more ↦ rw more (
      mul_mod_loop-exact fuel (next_result result a b m) (next_factor a b m) (b / 2) m small
        (next_result_lem result a b m small r lt).1 (next_factor_lem a b m small lt).1
        (half_bits fuel b enough)
      ∙ round_sum result a b m small r lt)
]

-- Up to the modulus 2 ^ 63 no sum of mulMod wraps, and it is the product modulo `m`.
pub mul_mod-exact : (a b m : ℕ) → 0 < m → m ≤ 2 ^ 63 → b < 2 ^ 64 → mul_mod a b m ≡ (a * b) % m
unfolding mul_mod
mul_mod-exact a b m pos small enough =
    mul_mod_loop-exact 64 0 (a % m) b m small (omega arith) (mod-lt a pos) (omega arith)
    ∙ ap (λ (t : ℕ). t % m) (omega arith)
    ∙ mul-mod_left a b m

times-pow_zero : (r x : ℕ) → r * x ^ 0 ≡ r
times-pow_zero r x = rw (pow-zero x) (omega arith)

pow-one : (x : ℕ) → x ^ 1 ≡ x
pow-one x = pow-suc x 0 ∙ rw (pow-zero x) (omega arith)

pow_split : (x e : ℕ) → x ^ e ≡ (x * x) ^ (e / 2) * x ^ (e % 2)
pow_split x zero = sym (times-pow_zero ((x * x) ^ 0) x ∙ pow-zero (x * x) ∙ sym (pow-zero x))
pow_split x (suc zero) = sym (mul_comm ((x * x) ^ 0) (x ^ 1) ∙ times-pow_zero (x ^ 1) (x * x))
pow_split x (suc (suc e)) =
    let half : suc (suc e) / 2 ≡ suc (e / 2) = omega arith in
    let bit : suc (suc e) % 2 ≡ e % 2 = omega arith in
    rw (half, bit, pow-succ' x (suc e), pow-succ' x e, pow-succ' (x * x) (e / 2))
      (omega (arith, ap (λ (t : ℕ). x * (x * t)) (pow_split x e)))

mul-mod_right' : (a b m : ℕ) → (a * (b % m)) % m ≡ (a * b) % m
mul-mod_right' a b m = rw (mul_comm a (b % m), mul_comm a b) (mul-mod_left b a m)

-- A base may be kept reduced.
pow-mod : (x e m : ℕ) → ((x % m) ^ e) % m ≡ (x ^ e) % m
pow-mod x zero m = rw (pow-zero (x % m), pow-zero x)
pow-mod x (suc e) m =
    rw (pow-succ' (x % m) e, pow-succ' x e)
      (mul-mod_left x ((x % m) ^ e) m
        ∙ sym (mul-mod_right' x ((x % m) ^ e) m)
        ∙ ap (λ (t : ℕ). (x * t) % m) (pow-mod x e m)
        ∙ mul-mod_right' x (x ^ e) m)

next_power : ℕ → ℕ → ℕ → ℕ → ℕ
next_power result base e m = if e % 2 == 1 then mul_mod result base m else result

next_base : ℕ → ℕ → ℕ → ℕ
next_base base e m = if ltb 0 (e / 2) then mul_mod base base m else base

next_power_lem :
    (result base e m : ℕ)
    → m ≤ 2 ^ 63
    → result < m
    → base < m
    → (next_power result base e m ≡ (result * base ^ (e % 2)) % m)
      × (next_power result base e m < m)
unfolding next_power
next_power_lem result base e m small r lt = elim (Bool-cases (e % 2 == 1)) [
  | inl odd ↦
      let bit : e % 2 ≡ 1 = ground arith in
      rw (odd, bit, mul_mod-exact result base m (omega arith) small (omega arith))
        (ap (λ (t : ℕ). (result * t) % m) (sym (pow-one base)), mod-lt _ (omega arith))
  | inr even ↦
      let bit : e % 2 ≡ 0 = ground arith in
      rw (even, bit) (sym (mod-eq_of_lt r) ∙ ap (λ (t : ℕ). t % m) (sym (times-pow_zero _ base)), r)
]

next_base_lem :
    (base e m : ℕ)
    → m ≤ 2 ^ 63
    → base < m
    → ((next_base base e m ^ (e / 2)) % m ≡ ((base * base) ^ (e / 2)) % m)
      × (next_base base e m < m)
unfolding next_base
next_base_lem base e m small lt = elim (Bool-cases (ltb 0 (e / 2))) [
  | inl more ↦
      rw (more, mul_mod-exact base base m (omega arith) small (omega arith))
        (pow-mod (base * base) (e / 2) m, mod-lt _ (omega arith))
  | inr done ↦
      let none_left : e / 2 ≡ 0 = ground arith in
      rw (done, none_left)
        (ap (λ (t : ℕ). t % m) (pow-zero base ∙ sym (pow-zero (base * base))), lt)
]

power_round :
    (result base e m : ℕ)
    → m ≤ 2 ^ 63
    → result < m
    → base < m
    → (next_power result base e m * next_base base e m ^ (e / 2)) % m ≡ (result * base ^ e) % m
power_round result base e m small r lt =
    let (r_eq, _) = next_power_lem result base e m small r lt in
    let (b_eq, _) = next_base_lem base e m small lt in
    sym (mul-mod_right' (next_power result base e m) (next_base base e m ^ (e / 2)) m)
    ∙ rw (b_eq, r_eq)
        (mul-mod_right' ((result * base ^ (e % 2)) % m) ((base * base) ^ (e / 2)) m
          ∙ mul-mod_left (result * base ^ (e % 2)) ((base * base) ^ (e / 2)) m
          ∙ ap (λ (t : ℕ). t % m) (omega (arith, ap (λ (t : ℕ). result * t) (pow_split base e))))

pow_mod_loop-exact :
    (fuel result base e m : ℕ)
    → m ≤ 2 ^ 63
    → result < m
    → base < m
    → e < 2 ^ fuel
    → pow_mod_loop fuel result base e m ≡ (result * base ^ e) % m
unfolding pow_mod_loop next_power next_base
pow_mod_loop-exact zero result base e m small r lt enough =
    let no_bits : e ≡ 0 = omega arith in
    rw no_bits (sym (mod-eq_of_lt r) ∙ ap (λ (t : ℕ). t % m) (sym (times-pow_zero _ base)))
pow_mod_loop-exact (suc fuel) result base e m small r lt enough = elim (Bool-cases (ltb 0 e)) [
  | inr done ↦
      let no_bits : e ≡ 0 = ground arith in
      rw no_bits (sym (mod-eq_of_lt r) ∙ ap (λ (t : ℕ). t % m) (sym (times-pow_zero _ base)))
  | inl more ↦ rw more (
      pow_mod_loop-exact fuel (next_power result base e m) (next_base base e m) (e / 2) m small
        (next_power_lem result base e m small r lt).1 (next_base_lem base e m small lt).1
        (half_bits fuel e enough)
      ∙ power_round result base e m small r lt)
]

-- Up to the modulus 2 ^ 63 powMod is the power modulo `m`, for every uint64 exponent.
pub pow_mod-exact :
    (base e m : ℕ) → 0 < m → m ≤ 2 ^ 63 → e < 2 ^ 64 → pow_mod base e m ≡ base ^ e % m
unfolding pow_mod
pow_mod-exact base e m pos small enough =
    pow_mod_loop-exact 64 (1 % m) (base % m) e m small (mod-lt 1 pos) (mod-lt base pos) enough
    ∙ mul-mod_left 1 ((base % m) ^ e) m
    ∙ ap (λ (t : ℕ). t % m) (omega arith)
    ∙ pow-mod base e m

-- Above 2 ^ 63 the doubling wraps: the double of m - 1 is wrong for every such modulus.
pub mul_mod_wraps : (m : ℕ) → 2 ^ 63 < m → m < 2 ^ 64 → mul_mod (m - 1) 2 m ≢ ((m - 1) * 2) % m
unfolding mul_mod mul_mod_loop
mul_mod_wraps m low high e =
    let top : (m - 1) % m ≡ m - 1 = mod-eq_of_lt (omega arith) in
    let double : (m - 1 + (m - 1)) % 2 ^ 64 ≡ 2 * m - 2 - 2 ^ 64 = omega arith in
    let small : (2 * m - 2 - 2 ^ 64) % m ≡ 2 * m - 2 - 2 ^ 64 = mod-eq_of_lt (omega arith) in
    let right : ((m - 1) * 2) % m ≡ m - 2 =
      ap (λ (t : ℕ). t % m) (omega arith) ∙ add-mod_right (m - 2) m ∙ mod-eq_of_lt (omega arith) in
    let value : mul_mod (m - 1) 2 m ≡ (0 + ((m - 1) % m + (m - 1) % m) % 2 ^ 64 % m) % 2 ^ 64 % m =
      refl in
    let got : mul_mod (m - 1) 2 m ≡ 2 * m - 2 - 2 ^ 64 =
      value ∙ rw (top, double, small) (ap (λ (t : ℕ). t % m) (omega arith) ∙ small) in
    omega (arith, got, right, e)
