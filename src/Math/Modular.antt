-- ===== src/Math/Modular.antt =====
-- mulMod and powMod: multiplication by doubling, and the binary power over it.
pub mod Exact
use primechain.Base.{
  ℕ, zero, suc, ◌+◌, ◌*◌, ◌/◌, ◌%◌, ◌^◌, Bool, true, false, ltb, ◌==◌, if◌then◌else◌, not, ◌≡◌,
  refl,
}

-- One round of `while (b > 0)`: the sums are uint64 additions, which wrap before `% mod`.
unfoldable pub mul_mod_loop : ℕ → ℕ → ℕ → ℕ → ℕ → ℕ
mul_mod_loop zero result a b m = result
mul_mod_loop (suc fuel) result a b m =
    let result' = if b % 2 == 1 then (result + a) % 2 ^ 64 % m else result in
    let b' = b / 2 in
    let a' = if ltb 0 b' then (a + a) % 2 ^ 64 % m else a in
    let rest = mul_mod_loop fuel result' a' b' m in if ltb 0 b then rest else result

-- `b` has at most 64 bits, so 64 rounds are enough.
unfoldable pub mul_mod : ℕ → ℕ → ℕ → ℕ
mul_mod a b m = mul_mod_loop 64 0 (a % m) b m

unfoldable pub pow_mod_loop : ℕ → ℕ → ℕ → ℕ → ℕ → ℕ
pow_mod_loop zero result base exponent m = result
pow_mod_loop (suc fuel) result base exponent m =
    let result' = if exponent % 2 == 1 then mul_mod result base m else result in
    let exponent' = exponent / 2 in
    let base' = if ltb 0 exponent' then mul_mod base base m else base in
    let rest = pow_mod_loop fuel result' base' exponent' m in
    if ltb 0 exponent then rest else result

unfoldable pub pow_mod : ℕ → ℕ → ℕ → ℕ
pow_mod base exponent m = pow_mod_loop 64 (1 % m) (base % m) exponent m
