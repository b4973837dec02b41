-- ===== src/Codec/Reads.antt =====
-- Reading back what was written: `Reads p bytes a` says that `p`, where `bytes` come next, returns
-- `a` and stops right behind them.
use primechain.Base.{
  ℕ, zero, suc, ◌/◌, ◌^◌, ◌≤◌, ◌<◌, ◌≡◌, refl, ap, Bool, true, false, some, List, [], ◌∷◌, ◌++◌,
  length, concat_map, All, ltb, if◌then◌else◌, arith, take-append, drop-append, length-append,
  append_assoc,
}
use native.Mathlib.Nat.{pow-suc}
use primechain.Base.Text.{Bytes}
use primechain.Codec.{
  le_bytes, le_value, append_uint64, append_hash, append_bytes, append_string, Reader, ◌>>=◌, pure,
  fail, read_exactly, read_uint64, read_hash, read_bytes, read_string, read_many, read_count,
  read_list, append_list, read_if, append_if,
}

pub record Reads {ℓ} {A : Type ℓ} (p : Reader A) (bytes : Bytes) (a : A) : Type ℓ where
  pub run : (rest : Bytes) → p (bytes ++ rest) ≡ some (a, rest)

pub bind-Reads {ℓ κ} :
    {A : Type ℓ} {B : Type κ} {p : Reader A} (f : A → Reader B) {first second : Bytes} {a : A}
    {b : B}
    → Reads p first a
    → Reads (f a) second b
    → Reads (p >>= f) (first ++ second) b
unfolding ◌>>=◌
bind-Reads f {first} {second} h k = record {
  run =
      λ rest. rw (append_assoc first second rest) (rw (h.run (second ++ rest), ◌>>=◌) (k.run rest));
}

pub pure-Reads {ℓ} : {A : Type ℓ} (a : A) → Reads (pure a) [] a
unfolding pure
pure-Reads a = record { run = λ rest. refl }

-- The last field of a record.
pub last-Reads {ℓ κ} :
    {A : Type ℓ} {B : Type κ} {p : Reader A} {bytes : Bytes} {a : A} (f : A → B)
    → Reads p bytes a
    → Reads (p >>= λ x. pure (f x)) bytes (f a)
unfolding ◌>>=◌ pure
last-Reads f h = record { run = λ rest. rw (h.run rest, ◌>>=◌) refl }

read_exactly-Reads : (bytes : Bytes) → Reads (read_exactly (length bytes)) bytes bytes
unfolding read_exactly
read_exactly-Reads bytes = record {
  run = λ rest. rw (short rest, take-append bytes rest, drop-append bytes rest);
}
  where
    short : (rest : Bytes) → ltb (length (bytes ++ rest)) (length bytes) ≡ false
    short rest = ground (arith, length-append bytes rest)

pub length-le_bytes : (k v : ℕ) → length (le_bytes k v) ≡ k
unfolding le_bytes
length-le_bytes zero v = refl
length-le_bytes (suc k) v = ap suc (length-le_bytes k (v / 256))

pub le_value-le_bytes : (k v : ℕ) → v < 256 ^ k → le_value (le_bytes k v) ≡ v
unfolding le_bytes le_value
le_value-le_bytes zero v h = omega arith
le_value-le_bytes (suc k) v h =
    rw (le_value-le_bytes k (v / 256) (omega (arith, pow-suc 256 k))) (omega arith)

pub read_uint64-Reads : (v : ℕ) → v < 2 ^ 64 → Reads read_uint64 (append_uint64 v) v
unfolding read_uint64 append_uint64
read_uint64-Reads v h = record {
  run = λ rest.
      rw (first.run rest, read_uint64) (ap (λ (n : ℕ). some (n, rest)) (le_value-le_bytes 8 v h));
}
  where
    first : Reads (read_exactly 8) (le_bytes 8 v) (le_bytes 8 v)
    first = rw (length-le_bytes 8 v) at (read_exactly-Reads (le_bytes 8 v))

pub read_hash-Reads : (hash : Bytes) → length hash ≡ 32 → Reads read_hash (append_hash hash) hash
unfolding read_hash append_hash
read_hash-Reads hash h = rw h at (read_exactly-Reads hash)

pub read_bytes-Reads :
    (bytes : Bytes) → length bytes < 2 ^ 64 → Reads read_bytes (append_bytes bytes) bytes
unfolding read_bytes append_bytes
read_bytes-Reads bytes h =
    bind-Reads _ (read_uint64-Reads (length bytes) h) (read_exactly-Reads bytes)

pub read_string-Reads :
    (bytes : Bytes) → length bytes < 2 ^ 64 → Reads read_string (append_string bytes) bytes
unfolding read_bytes read_string append_string
read_string-Reads bytes h =
    bind-Reads _ (read_uint64-Reads (length bytes) h) (read_exactly-Reads bytes)

pub read_many-Reads {ℓ} :
    {A : Type ℓ} (p : Reader A) (w : A → Bytes) (xs : List A)
    → All (λ x. Reads p (w x) x) xs
    → Reads (read_many (length xs) p) (concat_map w xs) xs
unfolding read_many
read_many-Reads p w [] h = pure-Reads []
read_many-Reads p w (x ∷ xs) h =
    bind-Reads _ h.0 (last-Reads (λ ys. x ∷ ys) (read_many-Reads p w xs h.1))

pub read_count-Reads :
    (limit count : ℕ)
    → count ≤ limit
    → limit < 2 ^ 64
    → Reads (read_count limit) (append_uint64 count) count
unfolding read_count ◌>>=◌
read_count-Reads limit count fits small = record {
  run = λ rest. rw ((read_uint64-Reads count (omega arith)).run rest, ◌>>=◌) (within rest);
}
  where
    within :
        (rest : Bytes) → (if ltb limit count then fail else pure count) rest ≡ some (count, rest)
    within rest = unfold pure in ground arith

pub read_list-Reads {ℓ} :
    {A : Type ℓ} (limit : ℕ) (p : Reader A) (w : A → Bytes) (xs : List A)
    → length xs ≤ limit
    → limit < 2 ^ 64
    → All (λ x. Reads p (w x) x) xs
    → Reads (read_list limit p) (append_list w xs) xs
unfolding read_list append_list
read_list-Reads limit p w xs fits small h =
    bind-Reads _ (read_count-Reads limit (length xs) fits small) (read_many-Reads p w xs h)

pub read_if-Reads {ℓ} :
    {A : Type ℓ} (b : Bool) (p : Reader A) (default : A) (bytes : Bytes) (a : A)
    → (b ≡ true → Reads p bytes a)
    → (b ≡ false → a ≡ default)
    → Reads (read_if b p default) (append_if b bytes) a
unfolding read_if append_if
read_if-Reads true p default bytes a h k = h refl
read_if-Reads false p default bytes a h k = rw (k refl) (pure-Reads default)
