-- ===== src/Node/Append/Refusals.antt =====
-- A record that is refused, or whose append fails, leaves the node as it was.
use Prim.Native.String.{String}
use primechain.Base.{◌≡◌, refl, sym, ap, ◌∙◌, List}
use primechain.Base.Text.{Bytes}
use primechain.Base.Result.{ok, err, Check, pass}
use primechain.Crypto.{Crypto}
use primechain.Records.Types.{
  TransactionV0, ValidatorEpochTransitionV1, EconomicPolicyUpdateV1, CompositeRecordV0,
  PrimeRecordV0,
}
use primechain.Node.Ledger.{Step}
use primechain.Node.Rewards.{apply_composite_ledger, apply_prime_ledger}
use primechain.Node.Settings.{Settings}
use primechain.Node.State.{
  SequentialNode, StoredRecord, make_stored_composite_record, make_stored_prime_record,
}
use primechain.Node.Candidates.{
  check_composite_candidate, check_prime_candidate, validate_composite_candidate,
  validate_prime_candidate, try_ledger, apply_record,
}
use primechain.Node.Append.{
  apply_economic_policy, finish_append, restore, or_stop, or_restore, on_ledger, store_record,
  append_composite, append_prime, store_composite, store_prime, composite_finalized,
  prime_finalized, composite_voters, finalization_voters,
}
use primechain.Node.Append.Checked.{
  verified_policy-applies, checked_first-keeps, checked_first-passes,
  check_composite_candidate-passes, check_prime_candidate-passes,
}

or_stop-keeps :
    (x : Check × SequentialNode) (rest : SequentialNode → Check × SequentialNode)
    (node after : SequentialNode) (e : String)
    → x.1 ≡ node
    → (x.0 ≡ pass → rest node ≡ (err e, after) → after ≡ node)
    → or_stop x rest ≡ (err e, after)
    → after ≡ node
or_stop-keeps (ok t, n) rest node after e same go h = go refl (rw same at h)
or_stop-keeps (err e', n) rest node after e same go h = sym (ap (λ x. x.1) h) ∙ same

or_restore-keeps :
    (x : Check × SequentialNode) (rest : SequentialNode → Check × SequentialNode)
    (before after : SequentialNode) (e : String)
    → restore before x.1 ≡ before
    → (x.0 ≡ pass → rest x.1 ≡ (err e, after) → after ≡ before)
    → or_restore before x rest ≡ (err e, after)
    → after ≡ before
or_restore-keeps (ok t, n) rest before after e same go h = go refl h
or_restore-keeps (err e', n) rest before after e same go h = sym (ap (λ x. x.1) h) ∙ same

store_record-keeps :
    (append_stored : StoredRecord → Check) (crypto : Crypto) (step : Step (Unit {0}))
    (stored : StoredRecord) (voters : List Bytes) (transactions : List TransactionV0)
    (transition : ValidatorEpochTransitionV1) (policy : EconomicPolicyUpdateV1)
    (before after : SequentialNode) (e : String)
    → ((s : Settings) → (apply_economic_policy policy stored.integer s).0 ≡ pass)
    → store_record crypto append_stored step stored voters transactions transition policy before
      ≡ (err e, after)
    → after ≡ before
unfolding store_record finish_append restore
store_record-keeps append_stored crypto step stored voters transactions transition policy before
      after e applies h =
    let finish = finish_append stored voters transactions transition policy in
    or_restore-keeps (on_ledger step before)
      (λ changed. or_restore before (append_stored stored, changed) finish) before after e refl
      (λ changed rest.
        or_restore-keeps (append_stored stored, (on_ledger step before).1) finish before after e
          refl (λ stored finished. absurd (cc (sym (applies _) ∙ ap (λ x. x.0) finished))) rest)
      h

-- Where appendComposite fails, whatever refused, the node is as it was.
pub append_composite-refused :
    (crypto : Crypto) (append_stored : StoredRecord → Check) (r : CompositeRecordV0)
    (node after : SequentialNode) (e : String)
    → append_composite crypto append_stored r node ≡ (err e, after)
    → after ≡ node
unfolding append_composite validate_composite_candidate make_stored_composite_record store_composite
append_composite-refused crypto append_stored r node after e h =
    let checks = check_composite_candidate crypto node.status node.settings r in
    let change =
      apply_record crypto node.settings r.transactions r.integer (apply_composite_ledger r) in
    let store = store_composite crypto append_stored r in
    or_stop-keeps (validate_composite_candidate crypto r node)
      (λ node. or_stop (composite_finalized crypto r node.settings, node) store) node after e
      (checked_first-keeps checks change node)
      (λ valid rest.
        or_stop-keeps (composite_finalized crypto r node.settings, node) store node after e refl
          (λ final.
            store_record-keeps append_stored crypto change (make_stored_composite_record crypto r)
              (composite_voters r) r.transactions r.validator_epoch r.economic_policy node after e
              (verified_policy-applies crypto r.economic_policy node.settings.validator_set
                r.previous_record_hash r.integer
                (check_composite_candidate-passes crypto node.status node.settings r
                  (checked_first-passes checks (try_ledger change) node valid)).1))
          rest)
      h

-- Where appendPrime fails, whatever refused, the node is as it was.
pub append_prime-refused :
    (crypto : Crypto) (append_stored : StoredRecord → Check) (r : PrimeRecordV0)
    (node after : SequentialNode) (e : String)
    → append_prime crypto append_stored r node ≡ (err e, after)
    → after ≡ node
unfolding append_prime validate_prime_candidate make_stored_prime_record store_prime
append_prime-refused crypto append_stored r node after e h =
    let checks = check_prime_candidate crypto node.status node.settings node.ledger r in
    let change =
      apply_record crypto node.settings r.transactions r.integer
        (apply_prime_ledger node.settings r) in
    let store = store_prime crypto append_stored r in
    or_stop-keeps (validate_prime_candidate crypto r node)
      (λ node. or_stop (prime_finalized crypto r node.settings, node) store) node after e
      (checked_first-keeps checks change node)
      (λ valid rest.
        or_stop-keeps (prime_finalized crypto r node.settings, node) store node after e refl
          (λ final.
            store_record-keeps append_stored crypto change (make_stored_prime_record crypto r)
              (finalization_voters r.finalized_by) r.transactions r.validator_epoch
              r.economic_policy node after e
              (verified_policy-applies crypto r.economic_policy node.settings.validator_set
                r.previous_record_hash r.integer
                (check_prime_candidate-passes crypto node.status node.settings node.ledger r
                  (checked_first-passes checks (try_ledger change) node valid)).1))
          rest)
      h
