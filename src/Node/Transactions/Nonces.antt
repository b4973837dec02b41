-- ===== src/Node/Transactions/Nonces.antt =====
-- What applyTransactions does to the ledger: the supply of each prime, and the nonces of the senders.
use mathlib.Core.List.{Memᴰ}
use primechain.Base.{
  ℕ, ◌+◌, ◌≤◌, ◌≡◌, refl, sym, ap, false, List, [], ◌∷◌, is_empty, if◌then◌else◌, arith, inl, inr,
  Bool-cases,
}
use primechain.Base.Text.{Bytes, eq_bytes, eq_bytes→eq, eq_bytes_refl}
use primechain.Base.Result.{ok, pass}
use primechain.Base.Dict.{
  Dict, at, at-put, at-put_other, number_order, bytes_order, asset_order, sum_where,
}
use primechain.Crypto.{Crypto}
use primechain.Records.Types.{TransactionV0}
use primechain.Node.Ledger.{Ledger, pure}
use primechain.Node.Ledger.Balance.{held, IsBalanced}
use primechain.Node.Ledger.Steps.{step_bind-inverts}
use primechain.Node.Settings.{Settings}
use primechain.Node.Transactions.{apply_transaction, apply_each, pay_fees, apply_transactions}
use primechain.Node.Transactions.Sums.{sum_at}
use primechain.Node.Transactions.Conservation.{pay_fees-Moved, pay_fees-Settled}
use primechain.Node.Transactions.Applied.{NoncesFit, Applied, apply_transaction-Applied}

-- How many of the transactions an address sent.
unfoldable pub sent_by : Bytes → List TransactionV0 → ℕ
sent_by address [] = 0
sent_by address (tx ∷ transactions) =
    (if eq_bytes address tx.sender_address then 1 else 0) + sent_by address transactions

-- Between `l` and `l'` an address sent the transactions that are its own.
abbrev pub Sent : List TransactionV0 → Ledger → Ledger → Type 0
Sent transactions l l' =
    (address : Bytes)
    → at address l'.account_nonces ≡ at address l.account_nonces + sent_by address transactions

Applied-nonce :
    (tx : TransactionV0) (collected fees : Dict ℕ ℕ) (l l' : Ledger)
    → Applied tx collected fees l l'
    → Sent (tx ∷ []) l l'
unfolding sent_by
Applied-nonce tx collected fees l l' applied address =
    elim (Bool-cases (eq_bytes address tx.sender_address)) [
      | inl own ↦
          let same = eq_bytes→eq address tx.sender_address own in
          let (next, _) = applied.next in
          rw
            (
              applied.nonces,
              same,
              at-put tx.sender_address tx.nonce l.account_nonces,
              eq_bytes_refl tx.sender_address,
            )
            (omega (arith, next))
      | inr other ↦
          rw
            (
              applied.nonces,
              other,
              at-put_other address tx.sender_address tx.nonce l.account_nonces other,
            )
            (omega arith)
    ]

Applied-NoncesFit :
    (tx : TransactionV0) (collected fees : Dict ℕ ℕ) (l l' : Ledger)
    → Applied tx collected fees l l'
    → NoncesFit l
    → NoncesFit l'
Applied-NoncesFit tx collected fees l l' applied fit address =
    elim (Bool-cases (eq_bytes address tx.sender_address)) [
      | inl own ↦
          let same = eq_bytes→eq address tx.sender_address own in
          let (_, bound) = applied.next in
          rw (applied.nonces, same, at-put tx.sender_address tx.nonce l.account_nonces) bound
      | inr other ↦
          rw
            (applied.nonces, at-put_other address tx.sender_address tx.nonce l.account_nonces other)
            (fit address)
    ]

-- The loop over the transactions.
pub record AppliedEach (transactions : List TransactionV0) (collected fees : Dict ℕ ℕ)
    (l l' : Ledger) : Type 0 where
  pub balanced : IsBalanced l'
  pub fit : NoncesFit l'
  pub moved : (q : ℕ) → held q l' + sum_at q fees ≡ held q l + sum_at q collected
  pub sent : Sent transactions l l'
  pub used :
      (tx : TransactionV0)
      → Memᴰ tx transactions
      → tx.nonce ≤ at tx.sender_address l'.account_nonces

-- The nonce of a transaction that was applied is taken, also after the ones behind it.
used_each :
    (first : TransactionV0) (transactions : List TransactionV0) (l l1 l' : Ledger)
    → first.nonce ≡ at first.sender_address l.account_nonces + 1
    → Sent (first ∷ []) l l1
    → Sent transactions l1 l'
    → ((tx : TransactionV0)
        → Memᴰ tx transactions
        → tx.nonce ≤ at tx.sender_address l'.account_nonces)
    → (tx : TransactionV0) → Memᴰ tx (first ∷ transactions)
    → tx.nonce ≤ at tx.sender_address l'.account_nonces
unfolding sent_by
used_each first transactions l l1 l' next one others used tx (Memᴰ.head e) = rw e (
    ground (
      arith,
      one first.sender_address,
      others first.sender_address,
      eq_bytes_refl first.sender_address,
    ))
used_each first transactions l l1 l' next one others used tx (Memᴰ.tail m) = used tx m

pub apply_each-AppliedEach :
    (crypto : Crypto) (s : Settings) (validation_integer : ℕ) (transactions : List TransactionV0)
    (collected fees : Dict ℕ ℕ) (l l' : Ledger)
    → IsBalanced l
    → NoncesFit l
    → apply_each crypto s validation_integer transactions collected l ≡ (ok fees, l')
    → AppliedEach transactions collected fees l l'
unfolding apply_each pure sent_by
apply_each-AppliedEach crypto s validation_integer [] collected fees l l' balanced fit h =
    let result : ok collected ≡ ok fees = ap (λ x. x.0) h in
    let same : collected ≡ fees = cc in
    let still : l ≡ l' = ap (λ x. x.1) h in
    rw (sym still, sym same)
      record {
        balanced = balanced;
        fit = fit;
        moved = λ q. refl;
        sent = λ address. omega arith;
        used = λ tx m. elim m [ ];
      }
apply_each-AppliedEach crypto s validation_integer (tx ∷ transactions) collected fees l l' balanced
      fit h =
    let (between, l1, first, rest) =
      step_bind-inverts (apply_transaction crypto s validation_integer tx collected)
        (apply_each crypto s validation_integer transactions) l l' fees h in
    let one =
      apply_transaction-Applied crypto s validation_integer tx collected between l l1 balanced fit
        first in
    let fit1 = Applied-NoncesFit tx collected between l l1 one fit in
    let others =
      apply_each-AppliedEach crypto s validation_integer transactions between fees l1 l'
        one.balanced fit1 rest in
    let own = Applied-nonce tx collected between l l1 one in
    record {
      balanced = others.balanced;
      fit = others.fit;
      moved = λ q. omega (arith, one.moved q, others.moved q);
      sent = λ address. omega (arith, others.sent address, own address);
      used = used_each tx transactions l l1 l' one.next.0 own others.sent others.used;
    }

-- The parts of a call of applyTransactions that passed.
apply_transactions-inverts :
    (crypto : Crypto) (s : Settings) (transactions : List TransactionV0) (recipient : Bytes)
    (validation_integer : ℕ) (l l' : Ledger)
    → apply_transactions crypto s transactions recipient validation_integer l ≡ (pass, l')
    → (fees : Dict ℕ ℕ) × (between : Ledger) × (apply_each crypto s validation_integer transactions
          [] l
        ≡ (ok fees, between))
      × (pay_fees recipient fees between ≡ (pass, l'))
unfolding apply_transactions
apply_transactions-inverts crypto s transactions recipient validation_integer l l' h =
    step_bind-inverts (apply_each crypto s validation_integer transactions []) (pay_fees recipient)
      l l' tt h

-- Transactions that are applied to a ledger in balance whose nonces are uint64s, with a recipient for the
-- fees, leave it in balance and the supply of every prime as it was.
pub apply_transactions-conserves :
    (crypto : Crypto) (s : Settings) (transactions : List TransactionV0) (recipient : Bytes)
    (validation_integer : ℕ) (l l' : Ledger)
    → IsBalanced l
    → NoncesFit l
    → is_empty recipient ≡ false
    → apply_transactions crypto s transactions recipient validation_integer l ≡ (pass, l')
    → IsBalanced l' × ((q : ℕ) → at q l'.total_supply ≡ at q l.total_supply)
unfolding sum_at sum_where
apply_transactions-conserves crypto s transactions recipient validation_integer l l' balanced fit
      someone h =
    let (fees, between, each, rest) =
      apply_transactions-inverts crypto s transactions recipient validation_integer l l' h in
    let applied =
      apply_each-AppliedEach crypto s validation_integer transactions [] fees l between balanced fit
        each in
    let paid = pay_fees-Moved recipient fees between l' applied.balanced someone rest in
    (
      paid.balanced,
      λ q. omega (
        arith,
        applied.moved q,
        paid.moved q,
        balanced.supply_held q,
        paid.balanced.supply_held q,
      ),
    )

-- Transactions that are applied to a ledger in balance whose nonces are uint64s, with a recipient for the
-- fees or without one, raise the nonce of each address by the number of them that it sent; all are uint64s
-- still.
pub apply_transactions-nonces :
    (crypto : Crypto) (s : Settings) (transactions : List TransactionV0) (recipient : Bytes)
    (validation_integer : ℕ) (l l' : Ledger)
    → IsBalanced l
    → NoncesFit l
    → apply_transactions crypto s transactions recipient validation_integer l ≡ (pass, l')
    → NoncesFit l' × Sent transactions l l'
apply_transactions-nonces crypto s transactions recipient validation_integer l l' balanced fit h =
    let (fees, between, each, rest) =
      apply_transactions-inverts crypto s transactions recipient validation_integer l l' h in
    let applied =
      apply_each-AppliedEach crypto s validation_integer transactions [] fees l between balanced fit
        each in
    let paid = pay_fees-Settled recipient fees between l' applied.balanced rest in
    rw paid.nonces (applied.fit, applied.sent)

-- A transaction of a batch that was applied to a ledger in balance whose nonces are uint64s, with a recipient
-- for the fees or without one, cannot stand first in a batch that is applied to the ledger it left, whatever
-- the settings, the keys, the recipient and the integer.
pub apply_transactions-replay :
    (crypto : Crypto) (s : Settings) (transactions : List TransactionV0) (recipient : Bytes)
    (validation_integer : ℕ) (l l' : Ledger) (tx : TransactionV0) (crypto2 : Crypto) (s2 : Settings)
    (rest : List TransactionV0) (recipient2 : Bytes) (integer2 : ℕ) (l2 : Ledger)
    → IsBalanced l
    → NoncesFit l
    → apply_transactions crypto s transactions recipient validation_integer l ≡ (pass, l')
    → Memᴰ tx transactions
    → ¬ (apply_transactions crypto2 s2 (tx ∷ rest) recipient2 integer2 l' ≡ (pass, l2))
unfolding apply_each
apply_transactions-replay crypto s transactions recipient validation_integer l l' tx crypto2 s2 rest
      recipient2 integer2 l2 balanced fit h m again =
    let (fees, between, each, paying) =
      apply_transactions-inverts crypto s transactions recipient validation_integer l l' h in
    let applied =
      apply_each-AppliedEach crypto s validation_integer transactions [] fees l between balanced fit
        each in
    let paid = pay_fees-Settled recipient fees between l' applied.balanced paying in
    let fit' : NoncesFit l' = rw paid.nonces applied.fit in
    let (fees2, _, each2, _) =
      apply_transactions-inverts crypto2 s2 (tx ∷ rest) recipient2 integer2 l' l2 again in
    let (fees3, l3, first, _) =
      step_bind-inverts (apply_transaction crypto2 s2 integer2 tx [])
        (apply_each crypto2 s2 integer2 rest) l' _ fees2 each2 in
    let one =
      apply_transaction-Applied crypto2 s2 integer2 tx [] fees3 l' l3 paid.balanced fit' first in
    omega (arith, one.next.0, applied.used tx m, ap (at tx.sender_address) paid.nonces)
