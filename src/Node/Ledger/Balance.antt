-- ===== src/Node/Ledger/Balance.antt =====
-- The supply of each prime is the sum of what the addresses hold.
use primechain.Base.{
  ℕ, ◌+◌, ◌-◌, ◌%◌, ◌^◌, ◌≤◌, ◌<◌, ◌≡◌, refl, sym, ap, Bool, false, some, ltb, ◌==◌, if◌then◌else◌,
  arith, inl, inr, Bool-cases, Option-cases, le→ltb_false,
}
use primechain.Base.Text.{Bytes}
use primechain.Base.Result.{pass}
use primechain.Base.Dict.{
  Asset, find, at, number_order, bytes_order, asset_order, sum_where, sum_where-put, at-sum_where,
  at-put, at-put_other, at_found,
}
use primechain.Node.Ledger.{Ledger, credit, credited, debited, debit, max_uint64}

abbrev pub is_of : ℕ → Asset → Bool
is_of prime key = key.1 == prime

-- What all addresses hold of a prime.
unfoldable pub held : ℕ → Ledger → ℕ
held prime l = sum_where (is_of prime) l.balances

-- The supply of every prime is what is held, and a uint64.
pub record IsBalanced (l : Ledger) : Type 0 where
  pub supply_held : (prime : ℕ) → at prime l.total_supply ≡ held prime l
  pub held_fits : (prime : ℕ) → held prime l < 2 ^ 64

-- What a credit or debit of `n` units of a prime adds to the supply of another.
abbrev pub units_at : ℕ → ℕ → ℕ → ℕ
units_at prime n q = if prime == q then n else 0

pub balance-held :
    (address : Bytes) (prime : ℕ) (l : Ledger) → at (address, prime) l.balances ≤ held prime l
unfolding held
balance-held address prime l = at-sum_where (is_of prime) (address, prime) l.balances (ground arith)

pub credited-held :
    (address : Bytes) (prime micro_units : ℕ) (l : Ledger) (q : ℕ)
    → held q (credited address prime micro_units l) ≡ held q l + units_at prime micro_units q
unfolding held credited
credited-held address prime micro_units l q =
    let moved =
      sum_where-put (is_of q) (address, prime) (at (address, prime) l.balances + micro_units)
        l.balances in
    ground (arith, moved)

pub credited-supply :
    (address : Bytes) (prime micro_units : ℕ) (l : Ledger) (q : ℕ)
    → at q (credited address prime micro_units l).total_supply
      ≡ at q l.total_supply + units_at prime micro_units q
unfolding credited
credited-supply address prime micro_units l q = ground (
  arith,
  at-put q (at q l.total_supply + micro_units) l.total_supply,
  at-put_other q prime (at prime l.total_supply + micro_units) l.total_supply,
)

pub credited-IsBalanced :
    (address : Bytes) (prime micro_units : ℕ) (l : Ledger)
    → IsBalanced l
    → held prime l + micro_units < 2 ^ 64
    → IsBalanced (credited address prime micro_units l)
credited-IsBalanced address prime micro_units l h fits = record {
  supply_held = λ q. omega (
    arith,
    credited-supply address prime micro_units l q,
    credited-held address prime micro_units l q,
    h.supply_held q,
  );
  held_fits = λ q. ground (arith, credited-held address prime micro_units l q, h.held_fits q);
}

pub credit-passes :
    (address : Bytes) (prime micro_units : ℕ) (l : Ledger)
    → IsBalanced l
    → held prime l + micro_units < 2 ^ 64
    → credit address prime micro_units l ≡ (pass, credited address prime micro_units l)
unfolding credit
credit-passes address prime micro_units l h fits =
    let low : ltb (max_uint64 - at (address, prime) l.balances) micro_units ≡ false =
      le→ltb_false _ _ (omega (arith, balance-held address prime l)) in
    let supply : ltb (max_uint64 - at prime l.total_supply) micro_units ≡ false =
      le→ltb_false _ _ (omega (arith, h.supply_held prime)) in
    rw (low, supply) refl

-- A credit that passed.
pub credit-inverts :
    (address : Bytes) (prime micro_units : ℕ) (l l' : Ledger)
    → IsBalanced l
    → credit address prime micro_units l ≡ (pass, l')
    → (l' ≡ credited address prime micro_units l) × (held prime l + micro_units < 2 ^ 64)
unfolding credit
credit-inverts address prime micro_units l l' h e =
    elim (Bool-cases (ltb (max_uint64 - at (address, prime) l.balances) micro_units)) [
      | inl over ↦ absurd (cc (ap (λ x. x.0) (rw over at e)))
      | inr low ↦ elim (Bool-cases (ltb (max_uint64 - at prime l.total_supply) micro_units)) [
        | inl over ↦ absurd (cc (ap (λ x. x.0) (rw (low, over) at e)))
        | inr fits ↦
            let moved : (pass, credited address prime micro_units l) ≡ (pass, l') =
              rw (low, fits) at e in
            (sym (ap (λ x. x.1) moved), ground (arith, h.supply_held prime, h.held_fits prime))
      ]
    ]

pub debited-held :
    (address : Bytes) (prime micro_units balance : ℕ) (l : Ledger) (q : ℕ)
    → find (address, prime) l.balances ≡ some balance
    → micro_units ≤ balance
    → held q (debited address prime micro_units balance l) + units_at prime micro_units q ≡ held q l
unfolding held debited
debited-held address prime micro_units balance l q found enough =
    let moved = sum_where-put (is_of q) (address, prime) (balance - micro_units) l.balances in
    ground (arith, moved, at_found (address, prime) balance l.balances found)

pub debited-supply :
    (address : Bytes) (prime micro_units balance : ℕ) (l : Ledger) (q : ℕ)
    → micro_units ≤ at prime l.total_supply
    → at prime l.total_supply < 2 ^ 64
    → at q (debited address prime micro_units balance l).total_supply + units_at prime micro_units q
      ≡ at q l.total_supply
unfolding debited
debited-supply address prime micro_units balance l q enough fits =
    let left = (at prime l.total_supply + 2 ^ 64 - micro_units) % 2 ^ 64 in
    ground (arith, at-put q left l.total_supply, at-put_other q prime left l.total_supply)

-- A debit that passed.
pub debit-inverts :
    (address : Bytes) (prime micro_units : ℕ) (l l' : Ledger)
    → debit address prime micro_units l ≡ (pass, l')
    → (balance : ℕ) × (find (address, prime) l.balances ≡ some balance)
      × (micro_units ≤ balance)
      × (l' ≡ debited address prime micro_units balance l)
unfolding debit
debit-inverts address prime micro_units l l' e =
    elim (Option-cases (find (address, prime) l.balances)) [
      | inl missing ↦ absurd (cc (ap (λ x. x.0) (rw (missing, debit) at e)))
      | inr (balance, found) ↦ elim (Bool-cases (ltb balance micro_units)) [
        | inl short ↦ absurd (cc (ap (λ x. x.0) (rw (found, debit, short) at e)))
        | inr enough ↦
            let moved : (pass, debited address prime micro_units balance l) ≡ (pass, l') =
              rw (found, debit, enough) at e in
            (balance, found, ground arith, sym (ap (λ x. x.1) moved))
      ]
    ]

pub debited-IsBalanced :
    (address : Bytes) (prime micro_units balance : ℕ) (l : Ledger)
    → IsBalanced l
    → find (address, prime) l.balances ≡ some balance
    → micro_units ≤ balance
    → IsBalanced (debited address prime micro_units balance l)
debited-IsBalanced address prime micro_units balance l h found enough =
    let key : Asset = (address, prime) in
    let owned : balance ≤ held prime l =
      omega (arith, balance-held address prime l, at_found key balance l.balances found) in
    let supply = h.supply_held prime in
    record {
      supply_held = λ q. omega (
        arith,
        debited-supply address prime micro_units balance l q (omega (arith, owned, supply))
            (omega (arith, supply, h.held_fits prime)),
        debited-held address prime micro_units balance l q found enough,
        h.supply_held q,
      );
      held_fits = λ q.
          omega
            (arith, debited-held address prime micro_units balance l q found enough, h.held_fits q);
    }
