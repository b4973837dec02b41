-- ===== src/Node/Transactions/Sums.antt =====
-- The sums of a transaction: what balanced_debits accepts.
use Prim.Native.String.{String}
use primechain.Base.{
  ℕ, ◌+◌, ◌-◌, ◌≡◌, refl, sym, true, not, ◌||◌, some, List, [], ◌∷◌, ltb, ◌==◌, arith, inl, inr,
  Bool-cases, Option-cases,
}
use primechain.Base.Result.{Result, ok, err, Check, pass, refuse_if, ◌>>=◌, ◌>>◌, bind-ok}
use primechain.Base.Dict.{Dict, put, at, number_order, sum_where, sum_where-put}
use primechain.Records.Types.{TxOutputV0, FeeSpecV0, TransactionV0, Amount}
use primechain.Records.Addresses.{is_protocol_address}
use primechain.Node.Ledger.{checked_add, max_uint64}
use primechain.Node.Ledger.Balance.{units_at}
use primechain.Node.Shapes.{micro_units}
use primechain.Node.Transactions.{
  add_units, add_checked, add_amount, sum_inputs, sum_outputs, add_fee, same_entries, require_same,
  balanced_debits,
}

-- The sum at a prime, of a map over the primes, of outputs and of a fee.
unfoldable pub sum_at : ℕ → Dict ℕ ℕ → ℕ
sum_at q d = sum_where (λ prime. prime == q) d

unfoldable pub outputs_at : ℕ → List TxOutputV0 → ℕ
outputs_at q [] = 0
outputs_at q (output ∷ outputs) =
    units_at output.prime output.amount.numerator q + outputs_at q outputs

abbrev pub fee_at : ℕ → FeeSpecV0 → ℕ
fee_at q fee = units_at fee.prime fee.amount.numerator q

-- A check in front of a result that is there has passed.
pub after_check {ℓ} :
    {B : Type ℓ} (c : Check) (r : Result B) (b : B) → (c >> r) ≡ ok b → (c ≡ pass) × (r ≡ ok b)
after_check (ok t) r b h = (refl, h)
after_check (err e) r b h = absurd (cc h)

pub add_checked-sum :
    (overflow : String) (prime units : ℕ) (d d' : Dict ℕ ℕ) (q : ℕ)
    → add_checked overflow prime units d ≡ ok d'
    → sum_at q d' ≡ sum_at q d + units_at prime units q
unfolding add_checked add_units checked_add sum_at
add_checked-sum overflow prime units d d' q h =
    elim (Bool-cases (ltb (max_uint64 - at prime d) units)) [
      | inl over ↦ absurd (cc (rw over at h))
      | inr fits ↦
          let same : put prime (at prime d + units) d ≡ d' = cc (rw fits at h) in
          rw (sym same)
            (ground (arith, sum_where-put (λ (p : ℕ). p == q) prime (at prime d + units) d))
    ]

-- An amount of micro-units is its numerator.
pub micro_units-numerator :
    (amount : Amount) (units : ℕ) → micro_units amount ≡ some units → units ≡ amount.numerator
unfolding micro_units
micro_units-numerator amount units h =
    elim (Bool-cases (not (amount.denominator == 1) || (amount.numerator == 0))) [
      | inl bad ↦ absurd (cc (rw bad at h))
      | inr good ↦ let moved : some amount.numerator ≡ some units = rw good at h in cc
    ]

pub add_amount-sum :
    (invalid overflow : String) (prime : ℕ) (amount : Amount) (d d' : Dict ℕ ℕ) (q : ℕ)
    → add_amount invalid overflow prime (micro_units amount) d ≡ ok d'
    → sum_at q d' ≡ sum_at q d + units_at prime amount.numerator q
unfolding add_amount
add_amount-sum invalid overflow prime amount d d' q h = elim (Option-cases (micro_units amount)) [
  | inl missing ↦ absurd (cc (rw missing at h))
  | inr (units, found) ↦
      let same = micro_units-numerator amount units found in
      rw (sym same) (add_checked-sum overflow prime units d d' q (rw found at h))
]

pub sum_outputs-sum :
    (outputs : List TxOutputV0) (d d' : Dict ℕ ℕ) (q : ℕ)
    → sum_outputs outputs d ≡ ok d'
    → sum_at q d' ≡ sum_at q d + outputs_at q outputs
unfolding sum_outputs outputs_at
sum_outputs-sum [] d d' q h = let same : d ≡ d' = cc in rw (sym same) (omega arith)
sum_outputs-sum (output ∷ outputs) d d' q h =
    let invalid : String = "transaction output amount must be positive integer micro-units" in
    let overflow : String = "transaction output amount overflow" in
    let added_to = add_amount invalid overflow output.prime (micro_units output.amount) d in
    let (_, rest) =
      after_check
        (refuse_if (not (is_protocol_address output.receiver_address)) "invalid receiver address")
        (added_to >>= sum_outputs outputs) d' h in
    let (middle, added, rest') = bind-ok added_to (sum_outputs outputs) d' rest in
    omega (
      arith,
      sum_outputs-sum outputs middle d' q rest',
      add_amount-sum invalid overflow output.prime output.amount d middle q added,
    )

pub add_fee-sum :
    (overflow : String) (fee : FeeSpecV0) (d d' : Dict ℕ ℕ) (q : ℕ)
    → add_fee overflow fee d ≡ ok d'
    → sum_at q d' ≡ sum_at q d + fee_at q fee
unfolding add_fee
add_fee-sum overflow fee d d' q h = elim (Bool-cases (fee.amount.numerator == 0)) [
  | inl zero ↦
      let same : ok d ≡ ok d' = rw zero at h in let eq : d ≡ d' = cc in rw (sym eq) (ground arith)
  | inr some_fee ↦ add_checked-sum overflow fee.prime fee.amount.numerator d d' q (rw some_fee at h)
]

-- Maps that compare equal are equal.
pub same_entries→eq : (d d' : Dict ℕ ℕ) → same_entries d d' ≡ true → d ≡ d'
unfolding same_entries
same_entries→eq [] [] h = refl
same_entries→eq [] (e ∷ d') h = absurd (ground arith)
same_entries→eq (e ∷ d) [] h = absurd (ground arith)
same_entries→eq ((k, v) ∷ d) ((j, w) ∷ d') h =
    let key : k ≡ j = ground arith in
    let value : v ≡ w = ground arith in
    let rest = same_entries→eq d d' (ground arith) in λ i. (key i, value i) ∷ rest i

-- What a transaction debits is what it pays out, with its fee.
pub balanced_debits-sum :
    (tx : TransactionV0) (debits : Dict ℕ ℕ) (q : ℕ)
    → balanced_debits tx ≡ ok debits
    → sum_at q debits ≡ outputs_at q tx.outputs + fee_at q tx.fee
unfolding balanced_debits require_same sum_at sum_where outputs_at
balanced_debits-sum tx debits q h =
    let charged_to = add_fee "transaction fee amount overflow" tx.fee in
    let (inputs, _, h1) =
      bind-ok (sum_inputs tx.inputs [])
        (λ d. sum_outputs tx.outputs [] >>= λ o. charged_to o >>= require_same d) debits h in
    let (outputs, summed, h2) =
      bind-ok (sum_outputs tx.outputs []) (λ o. charged_to o >>= require_same inputs) debits h1 in
    let (credits, charged, h3) = bind-ok (charged_to outputs) (require_same inputs) debits h2 in
    elim (Bool-cases (same_entries inputs credits)) [
      | inl same ↦
          let moved : ok inputs ≡ ok debits = rw same at h3 in
          let eq : inputs ≡ credits = same_entries→eq inputs credits same in
          let eq_debits : debits ≡ credits = cc in
          rw eq_debits (
            omega (
              arith,
              sum_outputs-sum tx.outputs [] outputs q summed,
              add_fee-sum "transaction fee amount overflow" tx.fee outputs credits q charged,
            ))
      | inr other ↦ absurd (cc (rw other at h3))
    ]
