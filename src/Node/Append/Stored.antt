-- ===== src/Node/Append/Stored.antt =====
-- What an append that passed has done, part by part.
use primechain.Base.{ℕ, ◌+◌, ◌%◌, ◌^◌, ◌<◌, ◌≡◌, refl, sym, ap, subst, List, ◌==◌, arith}
use primechain.Base.Text.{Bytes, eq_bytes, eq_bytes→eq}
use primechain.Base.Result.{ok, err, Check, pass, refuse_unless-pass, both_pass}
use primechain.Base.Dict.{number_order, bytes_order, asset_order}
use primechain.Crypto.{Crypto}
use primechain.Records.Types.{
  TransactionV0, ValidatorEpochTransitionV1, EconomicPolicyUpdateV1, CompositeRecordV0,
  PrimeRecordV0,
}
use primechain.Node.Ledger.{Step}
use primechain.Node.State.{SequentialNodeStatus, SequentialNode, StoredRecord}
use primechain.Node.Rewards.{apply_composite_ledger, apply_prime_ledger}
use primechain.Node.Candidates.{
  validate_common, check_composite_candidate, check_prime_candidate, validate_composite_candidate,
  validate_prime_candidate, apply_record, try_ledger,
}
use primechain.Node.Append.Checked.{checked_first-keeps, checked_first-passes}
use primechain.Node.Append.{
  finish_append, or_stop, or_restore, on_ledger, store_record, append_composite, append_prime,
  store_composite, store_prime, composite_finalized, prime_finalized,
}

pub or_stop-passes :
    (x : Check × SequentialNode) (rest : SequentialNode → Check × SequentialNode)
    (after : SequentialNode)
    → or_stop x rest ≡ (pass, after)
    → (x.0 ≡ pass) × (rest x.1 ≡ (pass, after))
or_stop-passes (ok t, n) rest after h = (refl, h)
or_stop-passes (err e, n) rest after h = absurd (cc (ap (λ x. x.0) h))

pub or_restore-passes :
    (before : SequentialNode) (x : Check × SequentialNode)
    (rest : SequentialNode → Check × SequentialNode) (after : SequentialNode)
    → or_restore before x rest ≡ (pass, after)
    → (x.0 ≡ pass) × (rest x.1 ≡ (pass, after))
or_restore-passes before (ok t, n) rest after h = (refl, h)
or_restore-passes before (err e, n) rest after h = absurd (cc (ap (λ x. x.0) h))

-- A step that passed for a record that was stored: its ledger, and the status behind it.
pub store_record-stores :
    (crypto : Crypto) (append_stored : StoredRecord → Check) (step : Step (Unit {0}))
    (stored : StoredRecord) (voters : List Bytes) (transactions : List TransactionV0)
    (transition : ValidatorEpochTransitionV1) (policy : EconomicPolicyUpdateV1)
    (before after : SequentialNode)
    → store_record crypto append_stored step stored voters transactions transition policy before
      ≡ (pass, after)
    → (step before.ledger ≡ (pass, after.ledger))
      × (append_stored stored ≡ pass)
      × (after.status.height ≡ stored.height)
      × (after.status.frontier_integer ≡ stored.integer)
      × (after.status.latest_record_hash ≡ stored.record_hash)
unfolding store_record finish_append
store_record-stores crypto append_stored step stored voters transactions transition policy before
      after h =
    let finish = finish_append stored voters transactions transition policy in
    let (valid, h1) =
      or_restore-passes before (on_ledger step before)
        (λ changed. or_restore before (append_stored stored, changed) finish) after h in
    let (written, finished) =
      or_restore-passes before (append_stored stored, (on_ledger step before).1) finish after h1 in
    (
      λ i. (valid i, (ap (λ x. x.1.ledger) finished) i),
      written,
      sym (ap (λ x. x.1.status.height) finished),
      sym (ap (λ x. x.1.status.frontier_integer) finished),
      sym (ap (λ x. x.1.status.latest_record_hash) finished),
    )

-- The next record, where the frontier is below the last uint64.
pub validate_common-next :
    (status : SequentialNodeStatus) (height integer : ℕ) (previous_record_hash : Bytes)
    → status.frontier_integer ≡ status.height + 2
    → status.frontier_integer + 1 < 2 ^ 64
    → validate_common status height integer previous_record_hash ≡ pass
    → (height ≡ status.height + 1)
      × (integer ≡ status.frontier_integer + 1)
      × (previous_record_hash ≡ status.latest_record_hash)
unfolding validate_common
validate_common-next status height integer previous_record_hash frontier fits h =
    let (_, h1) = both_pass _ _ h in
    let (next, h2) = both_pass _ _ h1 in
    let (above, linked) = both_pass _ _ h2 in
    let next_height = refuse_unless-pass (height == (status.height + 1) % 2 ^ 64) _ next in
    let next_integer =
      refuse_unless-pass (integer == (status.frontier_integer + 1) % 2 ^ 64) _ above in
    (
      ground (arith, next_height, frontier, fits),
      ground (arith, next_integer, fits),
      eq_bytes→eq _ _
          (refuse_unless-pass (eq_bytes previous_record_hash status.latest_record_hash) _ linked),
    )

pub append_composite-inverts :
    (crypto : Crypto) (append_stored : StoredRecord → Check) (r : CompositeRecordV0)
    (node after : SequentialNode)
    → append_composite crypto append_stored r node ≡ (pass, after)
    → (check_composite_candidate crypto node.status node.settings r ≡ pass)
      × (composite_finalized crypto r node.settings ≡ pass)
      × (store_composite crypto append_stored r node ≡ (pass, after))
unfolding append_composite validate_composite_candidate
append_composite-inverts crypto append_stored r node after h =
    let checks = check_composite_candidate crypto node.status node.settings r in
    let change =
      apply_record crypto node.settings r.transactions r.integer (apply_composite_ledger r) in
    let finish : SequentialNode → Check × SequentialNode = λ node.
      or_stop (composite_finalized crypto r node.settings, node)
        (store_composite crypto append_stored r) in
    let (valid, h1) = or_stop-passes (validate_composite_candidate crypto r node) finish after h in
    let h2 : finish node ≡ (pass, after) =
      subst (λ n. finish n ≡ (pass, after)) (checked_first-keeps checks change node) h1 in
    let (final, stored) =
      or_stop-passes (composite_finalized crypto r node.settings, node)
        (store_composite crypto append_stored r) after h2 in
    (checked_first-passes checks (try_ledger change) node valid, final, stored)

pub append_prime-inverts :
    (crypto : Crypto) (append_stored : StoredRecord → Check) (r : PrimeRecordV0)
    (node after : SequentialNode)
    → append_prime crypto append_stored r node ≡ (pass, after)
    → (check_prime_candidate crypto node.status node.settings node.ledger r ≡ pass)
      × (prime_finalized crypto r node.settings ≡ pass)
      × (store_prime crypto append_stored r node ≡ (pass, after))
unfolding append_prime validate_prime_candidate
append_prime-inverts crypto append_stored r node after h =
    let checks = check_prime_candidate crypto node.status node.settings node.ledger r in
    let change =
      apply_record crypto node.settings r.transactions r.integer
        (apply_prime_ledger node.settings r) in
    let finish : SequentialNode → Check × SequentialNode = λ node.
      or_stop (prime_finalized crypto r node.settings, node) (store_prime crypto append_stored r) in
    let (valid, h1) = or_stop-passes (validate_prime_candidate crypto r node) finish after h in
    let h2 : finish node ≡ (pass, after) =
      subst (λ n. finish n ≡ (pass, after)) (checked_first-keeps checks change node) h1 in
    let (final, stored) =
      or_stop-passes (prime_finalized crypto r node.settings, node)
        (store_prime crypto append_stored r) after h2 in
    (checked_first-passes checks (try_ledger change) node valid, final, stored)
