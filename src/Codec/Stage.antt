-- ===== src/Codec/Stage.antt =====
-- The deserializers read in stages: the first one that fails returns std::nullopt with its message,
-- and bytes left at the end are refused.
use Prim.Native.String.{String}
use primechain.Base.{◌≡◌, refl, none, some, [], ◌++◌, if◌then◌else◌, append-nil, append_assoc}
use primechain.Base.Text.{Bytes}
use primechain.Base.Result.{Result, ok, err}
use primechain.Codec.{Reader, consumed}
use primechain.Codec.Reads.{Reads}

abbrev pub Parse {ℓ} : Type ℓ → Type ℓ
Parse A = Bytes → Result (A × Bytes)

infixl 5 ◌>>=◌
unfoldable pub ◌>>=◌ {ℓ κ} : {A : Type ℓ} {B : Type κ} → Parse A → (A → Parse B) → Parse B
◌>>=◌ p f bytes = elim (p bytes) [ err e ↦ err e | ok (a, rest) ↦ f a rest ]

unfoldable pub pure {ℓ} : {A : Type ℓ} → A → Parse A
pure a bytes = ok (a, bytes)

-- `if (!read(...)) { error = e; return std::nullopt; }`
unfoldable pub stage {ℓ} : {A : Type ℓ} → String → Reader A → Parse A
stage e p bytes = elim (p bytes) [ none ↦ err e | some r ↦ ok r ]

-- `if (!reader.consumed()) { error = e; return std::nullopt; }` at the end.
unfoldable pub finish {ℓ} : {A : Type ℓ} → String → Parse A → Bytes → Result A
finish e p bytes = elim (p bytes) [
  | err x ↦ err x
  | ok (a, rest) ↦ if consumed rest then ok a else err e
]

-- A result as the bool that a caller tests.
unfoldable pub accepted {ℓ} : {A : Type ℓ} → Result A → Reader A
accepted (ok a) bytes = some (a, bytes)
accepted (err e) bytes = none

pub record Parses {ℓ} {A : Type ℓ} (p : Parse A) (bytes : Bytes) (a : A) : Type ℓ where
  pub run : (rest : Bytes) → p (bytes ++ rest) ≡ ok (a, rest)

pub stage-Parses {ℓ} :
    {A : Type ℓ} (e : String) {p : Reader A} {bytes : Bytes} {a : A}
    → Reads p bytes a
    → Parses (stage e p) bytes a
unfolding stage
stage-Parses e h = record { run = λ rest. rw (h.run rest, stage) refl }

pub bind-Parses {ℓ κ} :
    {A : Type ℓ} {B : Type κ} {p : Parse A} (f : A → Parse B) {first second : Bytes} {a : A} {b : B}
    → Parses p first a
    → Parses (f a) second b
    → Parses (p >>= f) (first ++ second) b
unfolding ◌>>=◌
bind-Parses f {first} {second} h k = record {
  run =
      λ rest. rw (append_assoc first second rest) (rw (h.run (second ++ rest), ◌>>=◌) (k.run rest));
}

pub last-Parses {ℓ κ} :
    {A : Type ℓ} {B : Type κ} {p : Parse A} {bytes : Bytes} {a : A} (f : A → B)
    → Parses p bytes a
    → Parses (p >>= λ x. pure (f x)) bytes (f a)
unfolding ◌>>=◌ pure
last-Parses f h = record { run = λ rest. rw (h.run rest, ◌>>=◌) refl }

pub finish-ok {ℓ} :
    {A : Type ℓ} (e : String) {p : Parse A} {bytes : Bytes} {a : A}
    → Parses p bytes a
    → finish e p bytes ≡ ok a
unfolding finish consumed
finish-ok e {p} {bytes} {a} h =
    let whole : p bytes ≡ ok (a, []) = rw (append-nil bytes) at (h.run []) in
    rw (whole, finish) refl
