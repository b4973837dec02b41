-- ===== src/Math/Gcd.antt =====
-- gcd: Euclid's loop, by recursion on the proof that its second argument falls.
use Prim.Native.Nat.{◌∣◌}
use primechain.Base.{ℕ, ◌%◌, ◌<◌, ◌≡◌, dec_lt, arith}
use primechain.Base.Order.{lt_wf}
use mathlib.Core.Logic.{dite, dif_pos, dif_neg}
use mathlib.Core.WellFounded.{Acc}
use native.Mathlib.Bridge.{le_prop}
use native.Mathlib.Nat.{mod-lt, dvd-mod_iff, dvd_refl, dvd-zero}

gcd_loop : (a b : ℕ) → Acc ◌<◌ b → ℕ
gcd_loop a b (Acc.intro _ smaller) =
    dite (dec_lt 0 b) (λ h. gcd_loop b (a % b) (smaller (a % b) (mod-lt a h))) (λ _. a)

unfoldable pub gcd : ℕ → ℕ → ℕ
unfolding gcd_loop lt_wf dec_lt
gcd a b = gcd_loop a b (lt_wf.apply b)

-- `g` is a common divisor that every common divisor divides.
pub record IsGcd (a b g : ℕ) : Type 0 where
  pub left : g ∣ a
  pub right : g ∣ b
  pub greatest : (d : ℕ) → d ∣ a → d ∣ b → d ∣ g

gcd_loop-IsGcd : (a b : ℕ) (w : Acc ◌<◌ b) → IsGcd a b (gcd_loop a b w)
unfolding gcd_loop
gcd_loop-IsGcd a b (Acc.intro _ smaller) = elim (dec_lt 0 b) [
  | yes h ↦
      let g = gcd_loop-IsGcd b (a % b) (smaller (a % b) (mod-lt a h)) in
      rw (dif_pos _ le_prop h) (record {
        left = (dvd-mod_iff _ g.left).0 g.right;
        right = g.left;
        greatest = λ d x y. g.greatest d y ((dvd-mod_iff d y).1 x);
      })
  | no h ↦
      let zero_b : b ≡ 0 = omega arith in
      rw (dif_neg _ h)
        (record { left = dvd_refl a; right = rw zero_b (dvd-zero a); greatest = λ d x y. x })
]

-- The loop returns the greatest common divisor.
pub gcd-IsGcd : (a b : ℕ) → IsGcd a b (gcd a b)
unfolding gcd
gcd-IsGcd a b = gcd_loop-IsGcd a b (lt_wf.apply b)
