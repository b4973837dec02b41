-- ===== src/Base/Result.antt =====
-- A C++ function that returns bool or std::optional and writes a std::string& error.
use Prim.Native.String.{String}
use mathlib.Core.Path.{◌≡◌, refl}
use mathlib.Core.Logic.{◌⊎◌, inl, inr}
use mathlib.Core.Bool.{Bool, true, false, not, ◌||◌}

pub data Result {ℓ} (A : Type ℓ) : Type ℓ where
  ok : A → Result A
  err : String → Result A

infixl 5 ◌>>=◌ ◌>>◌
abbrev pub ◌>>=◌ {ℓ κ} : {A : Type ℓ} {B : Type κ} → Result A → (A → Result B) → Result B
ok a >>= f = f a
err e >>= f = err e

-- A check passes, or returns false with its message.
abbrev pub Check : Type 0
Check = Result (Unit {0})

abbrev pub ◌>>◌ {ℓ} : {B : Type ℓ} → Check → Result B → Result B
ok a >> k = k
err e >> k = err e

abbrev pub pass : Check
pass = ok tt

-- `if (!b) { error = e; return false; }`
abbrev pub require : Bool → String → Check
require true e = pass
require false e = err e

-- `if (b) { error = e; return false; }`
abbrev pub refuse_if : Bool → String → Check
refuse_if true e = err e
refuse_if false e = pass

pub Result-cases {ℓ} :
    {A : Type ℓ} (r : Result A) → ((a : A) × (r ≡ ok a)) ⊎ ((e : String) × (r ≡ err e))
Result-cases (ok a) = inl (a, refl)
Result-cases (err e) = inr (e, refl)

-- What a passing conjunction of checks passed.
pub both_pass : (a b : Check) → (a >> b) ≡ pass → (a ≡ pass) × (b ≡ pass)
both_pass (ok t) b h = (refl, h)
both_pass (err e) b h = absurd (cc h)

pub refuse_if-pass : (b : Bool) (e : String) → refuse_if b e ≡ pass → b ≡ false
refuse_if-pass true e h = absurd (cc h)
refuse_if-pass false e h = refl

-- `if (!b)` and `if (!a || !b)`.
pub refuse_unless-pass : (b : Bool) (e : String) → refuse_if (not b) e ≡ pass → b ≡ true
refuse_unless-pass true e h = refl
refuse_unless-pass false e h = absurd (cc h)

pub refuse_unless_both-pass :
    (a b : Bool) (e : String) → refuse_if (not a || not b) e ≡ pass → (a ≡ true) × (b ≡ true)
refuse_unless_both-pass true true e h = (refl, refl)
refuse_unless_both-pass true false e h = absurd (cc h)
refuse_unless_both-pass false b e h = absurd (cc h)

pub bind-ok {ℓ κ} :
    {A : Type ℓ} {B : Type κ} (r : Result A) (f : A → Result B) (b : B)
    → (r >>= f) ≡ ok b
    → (a : A) × (r ≡ ok a) × (f a ≡ ok b)
bind-ok (ok a) f b h = (a, refl, h)
bind-ok (err e) f b h = absurd (cc h)
