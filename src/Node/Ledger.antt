-- ===== src/Node/Ledger.antt =====
-- The ledger of a SequentialNode: balances_, total_supply_, account_nonces_ and
-- pending_composite_providers_, with credit and debit. An operation that fails leaves what it had
-- written, so it returns the ledger beside its result.
pub mod Balance
pub mod Steps
use Prim.Native.String.{String}
use primechain.Base.{
  ℕ, ◌+◌, ◌-◌, ◌%◌, ◌^◌, Bool, Option, none, some, List, [], ◌∷◌, ltb, if◌then◌else◌,
}
use primechain.Base.Text.{Bytes}
use primechain.Base.Result.{Result, ok, err, Check, pass}
use primechain.Base.Dict.{Dict, Asset, find, put, at, number_order, bytes_order, asset_order}

pub record Ledger : Type 0 where
  pub balances : Dict Asset ℕ
  pub total_supply : Dict ℕ ℕ
  pub account_nonces : Dict Bytes ℕ
  pub pending_composite_providers : List Bytes

abbrev pub empty_ledger : Ledger
empty_ledger = record {
  balances = [];
  total_supply = [];
  account_nonces = [];
  pending_composite_providers = [];
}

-- A member function that returns false with its message, or goes on.
abbrev pub Step {ℓ} : Type ℓ → Type ℓ
Step A = Ledger → Result A × Ledger

-- The rest of the function runs where the first part went through.
abbrev pub go_on {ℓ κ} :
    {A : Type ℓ} {B : Type κ} → Result A × Ledger → (A → Step B) → Result B × Ledger
go_on (ok a, l) f = f a l
go_on (err e, l) f = (err e, l)

infixl 5 ◌>>=◌ ◌>>◌
unfoldable pub ◌>>=◌ {ℓ κ} : {A : Type ℓ} {B : Type κ} → Step A → (A → Step B) → Step B
◌>>=◌ m f l = go_on (m l) f

unfoldable pub ◌>>◌ {ℓ} : {B : Type ℓ} → Step (Unit {0}) → Step B → Step B
◌>>◌ m k l = go_on (m l) (λ t. k)

unfoldable pub pure {ℓ} : {A : Type ℓ} → A → Step A
pure a l = (ok a, l)

-- A check that reads the ledger at most.
unfoldable pub check {ℓ} : {A : Type ℓ} → (Ledger → Result A) → Step A
check c l = (c l, l)

abbrev pub max_uint64 : ℕ
max_uint64 = 2 ^ 64 - 1

-- checkedAdd: the sum, or none where it would overflow.
unfoldable pub checked_add : ℕ → ℕ → Option ℕ
checked_add total value = if ltb (max_uint64 - total) value then none else some (total + value)

unfoldable pub credited : Bytes → ℕ → ℕ → Ledger → Ledger
credited address prime micro_units l = record l {
  balances = put (address, prime) (at (address, prime) l.balances + micro_units) l.balances;
  total_supply = put prime (at prime l.total_supply + micro_units) l.total_supply;
}

-- `checkedAdd(balances_[{address, prime}], micro_units)` and then the same for total_supply_[prime]: operator[]
-- makes the entry, and the first sum stands, also where an addition fails.
unfoldable pub credit : Bytes → ℕ → ℕ → Step (Unit {0})
credit address prime micro_units l =
    let key : Asset = (address, prime) in
    let balance = at key l.balances in
    let supply = at prime l.total_supply in
    if ltb (max_uint64 - balance) micro_units
    then (err "credit amount overflow", record l { balances = put key balance l.balances })
    else if ltb (max_uint64 - supply) micro_units
    then (
      err "credit amount overflow",
      record l {
        balances = put key (balance + micro_units) l.balances;
        total_supply = put prime supply l.total_supply;
      },
    )
    else (pass, credited address prime micro_units l)

-- `total_supply_[prime] -= micro_units` on 64 bits.
unfoldable pub debited : Bytes → ℕ → ℕ → ℕ → Ledger → Ledger
debited address prime micro_units balance l = record l {
  balances = put (address, prime) (balance - micro_units) l.balances;
  total_supply =
      put prime ((at prime l.total_supply + 2 ^ 64 - micro_units) % 2 ^ 64) l.total_supply;
}

unfoldable pub debit : Bytes → ℕ → ℕ → Step (Unit {0})
debit address prime micro_units l = elim (find (address, prime) l.balances) [
  | none ↦ (err "insufficient balance", l)
  | some balance ↦
      if ltb balance micro_units
      then (err "insufficient balance", l)
      else (pass, debited address prime micro_units balance l)
]
