-- ===== src/Node/Append/Invariant.antt =====
-- What holds of a node after every record: the ledger is in balance, each prime up to the frontier has its
-- million units or none, and the frontier is two above the height.
use primechain.Base.{
  ℕ, ◌+◌, ◌^◌, ◌<◌, ◌≡◌, ◌≢◌, refl, sym, ap, subst, ◌∙◌, false, ◌⊎◌, List, is_empty, ◌==◌, arith,
  inl, inr, Bool-cases,
}
use primechain.Base.Text.{text}
use primechain.Base.Result.{Check, pass}
use primechain.Base.Dict.{at, number_order, bytes_order, asset_order}
use primechain.Crypto.{Crypto}
use primechain.Records.Types.{TransactionV0, CompositeRecordV0, PrimeRecordV0}
use primechain.Records.Addresses.{validator_fee_pool_address}
use primechain.Node.Ledger.{Ledger, Step}
use primechain.Node.Ledger.Balance.{held, IsBalanced}
use primechain.Node.Ledger.Steps.{step_then-inverts}
use primechain.Node.Settings.{Settings, active_fee_pool_address}
use primechain.Node.State.{
  SequentialNode, StoredRecord, make_stored_composite_record, make_stored_prime_record,
}
use primechain.Node.Rewards.{asset_micro_units, apply_composite_ledger, apply_prime_ledger}
use primechain.Node.Rewards.Minting.{Minted, apply_prime_ledger-Minted}
use primechain.Node.Transactions.{apply_transactions}
use primechain.Node.Transactions.Applied.{NoncesFit}
use primechain.Node.Transactions.Nonces.{apply_transactions-conserves, apply_transactions-nonces}
use primechain.Node.Candidates.{apply_record}
use primechain.Node.Append.Checked.{check_composite_candidate-passes, check_prime_candidate-passes}
use primechain.Node.Append.{
  append_composite, append_prime, store_composite, store_prime, composite_voters,
  finalization_voters,
}
use primechain.Node.Append.Stored.{
  store_record-stores, validate_common-next, append_composite-inverts, append_prime-inverts,
}

pub record IsNode (node : SequentialNode) : Type 0 where
  pub balanced : IsBalanced node.ledger
  pub nonces_fit : NoncesFit node.ledger
  pub supply :
      (prime : ℕ)
      → (at prime node.ledger.total_supply ≡ 0)
        ⊎ (at prime node.ledger.total_supply ≡ asset_micro_units)
  pub unminted :
      (prime : ℕ) → node.status.frontier_integer < prime → at prime node.ledger.total_supply ≡ 0
  pub frontier : node.status.frontier_integer ≡ node.status.height + 2

fee_pool-not_empty : (s : Settings) → is_empty (active_fee_pool_address s) ≡ false
unfolding active_fee_pool_address validator_fee_pool_address text
fee_pool-not_empty s = refl

-- The transactions of a record, and what its reward does behind them.
pub record AfterTransactions (l between : Ledger) : Type 0 where
  pub balanced : IsBalanced between
  pub nonces_fit : NoncesFit between
  pub same_supply : (q : ℕ) → at q between.total_supply ≡ at q l.total_supply

pub apply_record-inverts :
    (crypto : Crypto) (s : Settings) (transactions : List TransactionV0) (integer : ℕ)
    (reward : Step (Unit {0})) (l l' : Ledger)
    → IsBalanced l
    → NoncesFit l
    → apply_record crypto s transactions integer reward l ≡ (pass, l')
    → (between : Ledger) × AfterTransactions l between × (reward between ≡ (pass, l'))
unfolding apply_record
apply_record-inverts crypto s transactions integer reward l l' balanced fit h =
    let pool = active_fee_pool_address s in
    let (between, first, rest) =
      step_then-inverts (apply_transactions crypto s transactions pool integer) reward l l' tt h in
    let someone = fee_pool-not_empty s in
    let (balanced', same) =
      apply_transactions-conserves crypto s transactions pool integer l between balanced fit someone
        first in
    let (fit', _) =
      apply_transactions-nonces crypto s transactions pool integer l between balanced fit first in
    (between, record { balanced = balanced'; nonces_fit = fit'; same_supply = same }, rest)

-- The ledger after a composite record.
composite_ledger-IsNode :
    (r : CompositeRecordV0) (l between l' : Ledger)
    → AfterTransactions l between
    → apply_composite_ledger r between ≡ (pass, l')
    → AfterTransactions l l'
unfolding apply_composite_ledger held
composite_ledger-IsNode r l between l' after h =
    let same = ap (λ x. x.1) h in
    rw (sym same) record {
      balanced = record {
        supply_held = after.balanced.supply_held;
        held_fits = after.balanced.held_fits;
      };
      nonces_fit = after.nonces_fit;
      same_supply = after.same_supply;
    }

-- A ledger that a record has left: each supply is none or a million, and none above the frontier.
stored-IsNode :
    (node after : SequentialNode)
    → IsBalanced after.ledger
    → NoncesFit after.ledger
    → ((q : ℕ)
        → (at q after.ledger.total_supply ≡ 0)
          ⊎ (at q after.ledger.total_supply ≡ asset_micro_units))
    → ((q : ℕ) → node.status.frontier_integer + 1 < q → at q after.ledger.total_supply ≡ 0)
    → after.status.frontier_integer ≡ node.status.frontier_integer + 1
    → after.status.height ≡ node.status.height + 1
    → IsNode node
    → IsNode after
stored-IsNode node after balanced fit supply unminted frontier height h = record {
  balanced = balanced;
  nonces_fit = fit;
  supply = supply;
  unminted = λ q above. unminted q (omega (arith, above, frontier));
  frontier = omega (arith, h.frontier, frontier, height);
}

-- From a node in balance whose frontier is below the last uint64, a composite record that appendComposite
-- accepts leaves a node in balance, moves the frontier to the next integer and changes no supply.
pub append_composite-IsNode :
    (crypto : Crypto) (append_stored : StoredRecord → Check) (r : CompositeRecordV0)
    (node after : SequentialNode)
    → IsNode node
    → node.status.frontier_integer + 1 < 2 ^ 64
    → append_composite crypto append_stored r node ≡ (pass, after)
    → IsNode after
      × (after.status.frontier_integer ≡ node.status.frontier_integer + 1)
      × ((q : ℕ) → at q after.ledger.total_supply ≡ at q node.ledger.total_supply)
unfolding store_composite make_stored_composite_record
append_composite-IsNode crypto append_stored r node after h fits appended =
    let (checked, _, stored) =
      append_composite-inverts crypto append_stored r node after appended in
    let (common, _) = check_composite_candidate-passes crypto node.status node.settings r checked in
    let (height, integer, _) =
      validate_common-next node.status r.height r.integer r.previous_record_hash h.frontier fits
        common in
    let reward = apply_composite_ledger r in
    let (changed, _, new_height, new_frontier, _) =
      store_record-stores crypto append_stored
        (apply_record crypto node.settings r.transactions r.integer reward)
        (make_stored_composite_record crypto r) (composite_voters r) r.transactions
        r.validator_epoch r.economic_policy node after stored in
    let (between, done, rest) =
      apply_record-inverts crypto node.settings r.transactions r.integer reward node.ledger
        after.ledger h.balanced h.nonces_fit changed in
    let now = composite_ledger-IsNode r node.ledger between after.ledger done rest in
    (
      stored-IsNode node after now.balanced now.nonces_fit
          (λ q. rw (now.same_supply q) (h.supply q))
          (λ q above. now.same_supply q ∙ h.unminted q (omega (arith, above)))
          (new_frontier ∙ integer) (new_height ∙ height) h,
      new_frontier ∙ integer,
      now.same_supply,
    )

other_supply :
    (prime : ℕ) (l between l' : Ledger)
    → AfterTransactions l between
    → Minted prime between l'
    → (q : ℕ) → q ≢ prime
    → at q l'.total_supply ≡ at q l.total_supply
other_supply prime l between l' done now q other = now.others q other ∙ done.same_supply q

million_or_none :
    (prime : ℕ) (l between l' : Ledger)
    → AfterTransactions l between
    → Minted prime between l'
    → ((q : ℕ) → (at q l.total_supply ≡ 0) ⊎ (at q l.total_supply ≡ asset_micro_units))
    → (q : ℕ) → (at q l'.total_supply ≡ 0) ⊎ (at q l'.total_supply ≡ asset_micro_units)
million_or_none prime l between l' done now supply q = elim (Bool-cases (q == prime)) [
  | inl own ↦ let same : q ≡ prime = ground arith in inr (rw same now.minted)
  | inr other ↦ rw (other_supply prime l between l' done now q (ground arith)) (supply q)
]

-- From a node in balance whose frontier is below the last uint64, a prime record that appendPrime accepts
-- leaves a node in balance, moves the frontier to the next integer, and that integer's supply is then one
-- million units.
pub append_prime-IsNode :
    (crypto : Crypto) (append_stored : StoredRecord → Check) (r : PrimeRecordV0)
    (node after : SequentialNode)
    → IsNode node
    → node.status.frontier_integer + 1 < 2 ^ 64
    → append_prime crypto append_stored r node ≡ (pass, after)
    → IsNode after
      × (after.status.frontier_integer ≡ node.status.frontier_integer + 1)
      × (at (node.status.frontier_integer + 1) after.ledger.total_supply ≡ asset_micro_units)
unfolding store_prime make_stored_prime_record
append_prime-IsNode crypto append_stored r node after h fits appended =
    let (checked, _, stored) = append_prime-inverts crypto append_stored r node after appended in
    let (common, _) =
      check_prime_candidate-passes crypto node.status node.settings node.ledger r checked in
    let (height, integer, _) =
      validate_common-next node.status r.height r.integer r.previous_record_hash h.frontier fits
        common in
    let reward = apply_prime_ledger node.settings r in
    let (changed, _, new_height, new_frontier, _) =
      store_record-stores crypto append_stored
        (apply_record crypto node.settings r.transactions r.integer reward)
        (make_stored_prime_record crypto r) (finalization_voters r.finalized_by) r.transactions
        r.validator_epoch r.economic_policy node after stored in
    let (between, done, rest) =
      apply_record-inverts crypto node.settings r.transactions r.integer reward node.ledger
        after.ledger h.balanced h.nonces_fit changed in
    let new : at r.integer between.total_supply ≡ 0 =
      done.same_supply r.integer ∙ h.unminted r.integer (omega (arith, integer)) in
    let now =
      apply_prime_ledger-Minted node.settings r between after.ledger done.balanced new rest in
    let minted =
      subst (λ n. at n after.ledger.total_supply ≡ asset_micro_units) integer now.minted in
    (
      stored-IsNode node after now.balanced (rw now.nonces done.nonces_fit)
          (million_or_none r.integer node.ledger between after.ledger done now h.supply)
          (λ q above.
            other_supply r.integer node.ledger between after.ledger done now q
              (omega (arith, above, integer))
            ∙ h.unminted q (omega (arith, above)))
          (new_frontier ∙ integer) (new_height ∙ height) h,
      new_frontier ∙ integer,
      minted,
    )
