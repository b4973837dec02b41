-- ===== src/Node/Transactions/Applied.antt =====
-- What one transaction that applyTransactions accepts does to the ledger.
use Prim.Native.String.{String}
use primechain.Base.{
  ℕ, ◌+◌, ◌%◌, ◌^◌, ◌<◌, ◌≡◌, sym, ap, ◌∙◌, not, ◌||◌, is_empty, ◌==◌, if◌then◌else◌, arith,
}
use primechain.Base.Text.{Bytes}
use primechain.Base.Result.{Result, ok, err, Check, pass, refuse_if, refuse_if-pass}
use primechain.Base.Result
use primechain.Base.Dict.{Dict, put, at, number_order, bytes_order, asset_order}
use primechain.Crypto.{Crypto}
use primechain.Records.Types.{TransactionV0}
use primechain.Node.Ledger.{Ledger, Step, ◌>>=◌, ◌>>◌, pure, check}
use primechain.Node.Ledger.Balance.{held, IsBalanced}
use primechain.Node.Ledger.Steps.{step_then-inverts, check-inverts, Moved, nothing}
use primechain.Node.Settings.{
  Settings, is_fee_pool_distribution_v1, is_validator_reward_pool_distribution_v1,
  active_fee_pool_address,
}
use primechain.Node.Transactions.{
  validate_transaction_signature, prefix_error, check_pools, check_shapes, check_nonce, check_fee,
  balanced_debits, check_transaction, debit_all, credit_outputs, add_fee, set_nonce, debit_address,
  apply_transaction,
}
use primechain.Node.Transactions.Sums.{
  sum_at, outputs_at, after_check, add_fee-sum, balanced_debits-sum,
}
use primechain.Node.Transactions.Conservation.{debit_all-Moved, credit_outputs-Moved}

-- Every nonce is a uint64.
abbrev pub NoncesFit : Ledger → Type 0
NoncesFit l = (address : Bytes) → at address l.account_nonces < 2 ^ 64

-- The checks that give the debits, and the nonce among them.
pub check_transaction-inverts :
    (s : Settings) (crypto : Crypto) (validation_integer : ℕ) (tx : TransactionV0) (l : Ledger)
    (debits : Dict ℕ ℕ)
    → check_transaction s crypto validation_integer tx l ≡ ok debits
    → (check_nonce s tx l ≡ pass) × (balanced_debits tx ≡ ok debits)
unfolding check_transaction
check_transaction-inverts s crypto validation_integer tx l debits h =
    let fee = Result.◌>>◌ (check_fee s tx) (balanced_debits tx) in
    let nonce = Result.◌>>◌ (check_nonce s tx l) fee in
    let shapes = Result.◌>>◌ (check_shapes s tx) nonce in
    let pools = Result.◌>>◌ (check_pools s tx validation_integer l) shapes in
    let signature = prefix_error "invalid transaction signature: " (
      validate_transaction_signature crypto tx (active_fee_pool_address s)
        (is_empty s.validator_set)) in
    let sides =
      refuse_if (is_empty tx.inputs || is_empty tx.outputs)
        "transaction must have inputs and outputs" in
    let (_, h1) = after_check signature (Result.◌>>◌ sides pools) debits h in
    let (_, h2) = after_check sides pools debits h1 in
    let (_, h3) = after_check (check_pools s tx validation_integer l) shapes debits h2 in
    let (_, h4) = after_check (check_shapes s tx) nonce debits h3 in
    let (next, h5) = after_check (check_nonce s tx l) fee debits h4 in
    let (_, h6) = after_check (check_fee s tx) (balanced_debits tx) debits h5 in (next, h6)

-- An accepted nonce is the one after the sender's last.
pub check_nonce-next :
    (s : Settings) (tx : TransactionV0) (l : Ledger)
    → NoncesFit l
    → check_nonce s tx l ≡ pass
    → (tx.nonce ≡ at tx.sender_address l.account_nonces + 1) × (tx.nonce < 2 ^ 64)
unfolding check_nonce
check_nonce-next s tx l fit h =
    let expected_nonce = (at tx.sender_address l.account_nonces + 1) % 2 ^ 64 in
    let message : String =
      if is_fee_pool_distribution_v1 tx (active_fee_pool_address s)
        || is_validator_reward_pool_distribution_v1 tx
      then "validator pool distribution nonce must be the next pool nonce"
      else "transaction nonce must be the next sender nonce" in
    let accepted =
      refuse_if-pass ((expected_nonce == 0) || not (tx.nonce == expected_nonce)) message h in
    ground (arith, fit tx.sender_address)

abbrev with_nonce : Bytes → ℕ → Ledger → Ledger
with_nonce sender nonce l = record l { account_nonces = put sender nonce l.account_nonces }

set_nonce-inverts {ℓ} :
    {A : Type ℓ} (sender : Bytes) (nonce : ℕ) (l l' : Ledger) (a b : A)
    → (set_nonce sender nonce >> pure a) l ≡ (ok b, l')
    → (a ≡ b) × (l' ≡ with_nonce sender nonce l)
unfolding set_nonce pure ◌>>◌
set_nonce-inverts sender nonce l l' a b h =
    let result : ok a ≡ ok b = ap (λ x. x.0) h in (cc, sym (ap (λ x. x.1) h))

-- The units that left the ledger are the fees, and the sender's nonce is the transaction's.
pub record Applied (tx : TransactionV0) (collected fees : Dict ℕ ℕ) (l l' : Ledger) : Type 0 where
  pub balanced : IsBalanced l'
  pub moved : (q : ℕ) → held q l' + sum_at q fees ≡ held q l + sum_at q collected
  pub next : (tx.nonce ≡ at tx.sender_address l.account_nonces + 1) × (tx.nonce < 2 ^ 64)
  pub nonces : l'.account_nonces ≡ put tx.sender_address tx.nonce l.account_nonces

-- The parts of an accepted transaction, put together.
parts_together :
    (crypto : Crypto) (s : Settings) (validation_integer : ℕ) (tx : TransactionV0)
    (debits collected all fees : Dict ℕ ℕ) (l l1 l2 l' : Ledger)
    → NoncesFit l
    → check_transaction s crypto validation_integer tx l ≡ ok debits
    → Moved l l1 (λ q. sum_at q debits) nothing
    → Moved l1 l2 nothing (λ q. outputs_at q tx.outputs)
    → add_fee "transaction fee batch overflow" tx.fee collected ≡ ok all
    → (set_nonce tx.sender_address tx.nonce >> pure all) l2 ≡ (ok fees, l')
    → Applied tx collected fees l l'
unfolding held
parts_together crypto s validation_integer tx debits collected all fees l l1 l2 l' fit checked taken
      paid charged h =
    let (next, sums) = check_transaction-inverts s crypto validation_integer tx l debits checked in
    let (same, written) = set_nonce-inverts tx.sender_address tx.nonce l2 l' all fees h in
    rw (written, sym same)
      record {
        balanced = record {
          supply_held = paid.balanced.supply_held;
          held_fits = paid.balanced.held_fits;
        };
        moved = λ q. omega (
          arith,
          balanced_debits-sum tx debits q sums,
          taken.moved q,
          paid.moved q,
          add_fee-sum "transaction fee batch overflow" tx.fee collected all q charged,
        );
        next = check_nonce-next s tx l fit next;
        nonces = ap (put tx.sender_address tx.nonce) (paid.nonces ∙ taken.nonces);
      }

pub apply_transaction-Applied :
    (crypto : Crypto) (s : Settings) (validation_integer : ℕ) (tx : TransactionV0)
    (collected fees : Dict ℕ ℕ) (l l' : Ledger)
    → IsBalanced l
    → NoncesFit l
    → apply_transaction crypto s validation_integer tx collected l ≡ (ok fees, l')
    → Applied tx collected fees l l'
unfolding apply_transaction
apply_transaction-Applied crypto s validation_integer tx collected fees l l' balanced fit h =
    let charge : Step (Dict ℕ ℕ) =
      check (λ l. add_fee "transaction fee batch overflow" tx.fee collected) in
    let finish : Dict ℕ ℕ → Step (Dict ℕ ℕ) =
      λ fees. set_nonce tx.sender_address tx.nonce >> pure fees in
    let pay : Step (Dict ℕ ℕ) = credit_outputs tx.outputs >> (charge >>= finish) in
    let (debits, checked, h0) =
      check-inverts (check_transaction s crypto validation_integer tx)
        (λ debits. debit_all (debit_address tx) debits >> pay) l l' fees h in
    let (l1, h1, r1) = step_then-inverts (debit_all (debit_address tx) debits) pay l l' fees h0 in
    let taken = debit_all-Moved (debit_address tx) debits l l1 balanced h1 in
    let (l2, h2, r2) =
      step_then-inverts (credit_outputs tx.outputs) (charge >>= finish) l1 l' fees r1 in
    let paid = credit_outputs-Moved tx.outputs l1 l2 taken.balanced h2 in
    let (all, charged, h3) =
      check-inverts (λ l. add_fee "transaction fee batch overflow" tx.fee collected) finish l2 l'
        fees r2 in
    parts_together crypto s validation_integer tx debits collected all fees l l1 l2 l' fit checked
      taken paid charged h3
