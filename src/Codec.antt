-- ===== src/Codec.antt =====
-- ByteReader and the append functions of src/protocol/records.cpp, which the other serializers of
-- the program repeat. A writer is modelled by the bytes that it appends to `out`. The state of a
-- ByteReader, `bytes_` and `offset_`, is the list of the bytes from `offset_` on; `none` is the
-- return value false, after which no caller reads the state again.
pub mod Reads
pub mod Stage
use Prim.Native.Nat.{min}
use primechain.Base.{
  ℕ, zero, suc, ◌+◌, ◌*◌, ◌/◌, ◌%◌, ◌^◌, ◌≡◌, refl, Bool, true, false, Option, none, some, List, [],
  ◌∷◌, ◌++◌, length, take, drop, concat_map, ltb, if◌then◌else◌, is_empty,
}
use primechain.Base.Text.{Bytes}

-- `out.push_back((value >> (i * 8)) & 0xff)` for the `k` lowest bytes, lowest first.
unfoldable pub le_bytes : ℕ → ℕ → Bytes
le_bytes zero value = []
le_bytes (suc k) value = (value % 256) ∷ le_bytes k (value / 256)

-- `value |= byte << (i * 8)`: the shifted bytes do not overlap, so the sum is the disjunction.
unfoldable pub le_value : Bytes → ℕ
le_value [] = 0
le_value (byte ∷ bytes) = byte + 256 * le_value bytes

unfoldable pub append_uint64 : ℕ → Bytes
append_uint64 value = le_bytes 8 value

unfoldable pub append_hash : Bytes → Bytes
append_hash hash = hash

unfoldable pub append_bytes : Bytes → Bytes
append_bytes bytes = append_uint64 (length bytes) ++ bytes

-- appendString and appendAddress.
unfoldable pub append_string : Bytes → Bytes
append_string value = append_uint64 (length value) ++ value

abbrev pub Reader {ℓ} : Type ℓ → Type ℓ
Reader A = Bytes → Option (A × Bytes)

infixl 5 ◌>>=◌
unfoldable pub ◌>>=◌ {ℓ κ} : {A : Type ℓ} {B : Type κ} → Reader A → (A → Reader B) → Reader B
◌>>=◌ p f bytes = elim (p bytes) [ none ↦ none | some (a, rest) ↦ f a rest ]

unfoldable pub pure {ℓ} : {A : Type ℓ} → A → Reader A
pure a bytes = some (a, bytes)

-- `if (!...) return false;`
unfoldable pub fail {ℓ} : {A : Type ℓ} → Reader A
fail bytes = none

-- The next `n` bytes, if so many remain.
unfoldable pub read_exactly : ℕ → Reader Bytes
read_exactly n bytes = if ltb (length bytes) n then none else some (take n bytes, drop n bytes)

value_of : Option (Bytes × Bytes) → Option (ℕ × Bytes)
value_of none = none
value_of (some (bytes, rest)) = some (le_value bytes, rest)

unfoldable pub read_uint64 : Reader ℕ
unfolding value_of
read_uint64 bytes = value_of (read_exactly 8 bytes)

unfoldable pub read_hash : Reader Bytes
read_hash = read_exactly 32

unfoldable pub read_bytes : Reader Bytes
read_bytes = do size ← read_uint64; read_exactly size

-- readString assigns the bytes of readBytes to a string.
unfoldable pub read_string : Reader Bytes
read_string = read_bytes

-- `for (i = 0; i < count; ++i) { X x; if (!read(x)) return false; xs.push_back(x); }`
unfoldable pub read_many {ℓ} : {A : Type ℓ} → ℕ → Reader A → Reader (List A)
read_many zero p = pure []
read_many (suc count) p = do x ← p; xs ← read_many count p; pure (x ∷ xs)

-- `if (!reader.readUint64(count) || count > limit) return false;`
unfoldable pub read_count : ℕ → Reader ℕ
read_count limit = do count ← read_uint64; (if ltb limit count then fail else pure count)

-- A counted list: the count is refused above `limit`.
unfoldable pub read_list {ℓ} : {A : Type ℓ} → ℕ → Reader A → Reader (List A)
read_list limit p = do count ← read_count limit; read_many count p

-- `appendUint64(out, xs.size()); for (x : xs) append(out, x);`
unfoldable pub append_list {ℓ} : {A : Type ℓ} → (A → Bytes) → List A → Bytes
append_list w xs = append_uint64 (length xs) ++ concat_map w xs

-- A section that is on the wire only under a condition; its default otherwise.
unfoldable pub read_if {ℓ} : {A : Type ℓ} → Bool → Reader A → A → Reader A
read_if b p default = if b then p else pure default

unfoldable pub append_if : Bool → Bytes → Bytes
append_if b bytes = if b then bytes else []

-- consumed()
unfoldable pub consumed : Bytes → Bool
consumed bytes = is_empty bytes
