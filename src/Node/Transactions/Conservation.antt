-- ===== src/Node/Transactions/Conservation.antt =====
-- What the loops of applyTransactions move: the units that a transaction debits go to its outputs and to
-- the fees.
use primechain.Base.{
  ℕ, ◌≡◌, refl, sym, ap, Bool-cases, inl, inr, ◌∙◌, false, List, [], ◌∷◌, is_empty, arith,
}
use primechain.Base.Text.{Bytes}
use primechain.Base.Result.{pass}
use primechain.Base.Dict.{Dict, number_order, bytes_order, asset_order, sum_where}
use primechain.Records.Types.{TxOutputV0}
use primechain.Node.Ledger.{Ledger, pure, credit, debit}
use primechain.Node.Ledger.Balance.{IsBalanced}
use primechain.Node.Ledger.Steps.{
  step_then-inverts, Moved, nothing, stay-Moved, credit-Moved, debit-Moved,
}
use primechain.Node.Transactions.{debit_all, credit_outputs, credit_all, pay_fees}
use primechain.Node.Transactions.Sums.{sum_at, outputs_at}

pub debit_all-Moved :
    (address : Bytes) (debits : Dict ℕ ℕ) (l l' : Ledger)
    → IsBalanced l
    → debit_all address debits l ≡ (pass, l')
    → Moved l l' (λ q. sum_at q debits) nothing
unfolding debit_all pure sum_at sum_where
debit_all-Moved address [] l l' balanced h = stay-Moved l l' balanced (ap (λ x. x.1) h)
debit_all-Moved address ((prime, units) ∷ debits) l l' balanced h =
    let (between, first, rest) =
      step_then-inverts (debit address prime units) (debit_all address debits) l l' tt h in
    let one = debit-Moved address prime units l between balanced first in
    let others = debit_all-Moved address debits between l' one.balanced rest in
    record {
      balanced = others.balanced;
      moved = λ q. omega (arith, one.moved q, others.moved q);
      nonces = others.nonces ∙ one.nonces;
    }

pub credit_all-Moved :
    (address : Bytes) (fees : Dict ℕ ℕ) (l l' : Ledger)
    → IsBalanced l
    → credit_all address fees l ≡ (pass, l')
    → Moved l l' nothing (λ q. sum_at q fees)
unfolding credit_all pure sum_at sum_where
credit_all-Moved address [] l l' balanced h = stay-Moved l l' balanced (ap (λ x. x.1) h)
credit_all-Moved address ((prime, units) ∷ fees) l l' balanced h =
    let (between, first, rest) =
      step_then-inverts (credit address prime units) (credit_all address fees) l l' tt h in
    let one = credit-Moved address prime units l between balanced first in
    let others = credit_all-Moved address fees between l' one.balanced rest in
    record {
      balanced = others.balanced;
      moved = λ q. omega (arith, one.moved q, others.moved q);
      nonces = others.nonces ∙ one.nonces;
    }

pub credit_outputs-Moved :
    (outputs : List TxOutputV0) (l l' : Ledger)
    → IsBalanced l
    → credit_outputs outputs l ≡ (pass, l')
    → Moved l l' nothing (λ q. outputs_at q outputs)
unfolding credit_outputs pure outputs_at
credit_outputs-Moved [] l l' balanced h = stay-Moved l l' balanced (ap (λ x. x.1) h)
credit_outputs-Moved (output ∷ outputs) l l' balanced h =
    let to = output.receiver_address in
    let (between, first, rest) =
      step_then-inverts (credit to output.prime output.amount.numerator) (credit_outputs outputs) l
        l' tt h in
    let one = credit-Moved to output.prime output.amount.numerator l between balanced first in
    let others = credit_outputs-Moved outputs between l' one.balanced rest in
    record {
      balanced = others.balanced;
      moved = λ q. omega (arith, one.moved q, others.moved q);
      nonces = others.nonces ∙ one.nonces;
    }

-- The fees go to the recipient, where there is one.
pub pay_fees-Moved :
    (recipient : Bytes) (fees : Dict ℕ ℕ) (l l' : Ledger)
    → IsBalanced l
    → is_empty recipient ≡ false
    → pay_fees recipient fees l ≡ (pass, l')
    → Moved l l' nothing (λ q. sum_at q fees)
unfolding pay_fees
pay_fees-Moved recipient fees l l' balanced someone h =
    credit_all-Moved recipient fees l l' balanced (rw someone at h)

-- With a recipient or without one, the payment leaves the ledger in balance and the nonces alone.
pub record Settled (l l' : Ledger) : Type 0 where
  pub balanced : IsBalanced l'
  pub nonces : l'.account_nonces ≡ l.account_nonces

pub pay_fees-Settled :
    (recipient : Bytes) (fees : Dict ℕ ℕ) (l l' : Ledger)
    → IsBalanced l
    → pay_fees recipient fees l ≡ (pass, l')
    → Settled l l'
unfolding pay_fees pure
pay_fees-Settled recipient fees l l' balanced h = elim (Bool-cases (is_empty recipient)) [
  | inl nobody ↦
      let still : l ≡ l' = ap (λ x. x.1) (rw nobody at h) in
      rw (sym still) record { balanced = balanced; nonces = refl }
  | inr someone ↦
      let paid = credit_all-Moved recipient fees l l' balanced (rw someone at h) in
      record { balanced = paid.balanced; nonces = paid.nonces }
]
