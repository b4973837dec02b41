-- ===== src/Node/Candidates.antt =====
-- validateCommon, validateCompositeCandidate and validatePrimeCandidate of node/sequential_node.cpp.
use primechain.Base.{
  ℕ, ◌+◌, ◌%◌, ◌^◌, Bool, not, ◌&&◌, ◌||◌, List, is_empty, leb, ltb, ◌==◌, if◌then◌else◌,
}
use primechain.Base.Text.{Bytes, eq_bytes}
use primechain.Base.Result.{Check, ok, err, refuse_if, ◌>>◌}
use primechain.Base.Dict.{at, number_order}
use primechain.Crypto.{Crypto}
use primechain.Math.Composite.{verify_composite_proof}
use primechain.Math.Pratt.{verify_pratt_proof}
use primechain.Records.Types.{TransactionV0, CompositeRecordV0, PrimeRecordV0}
use primechain.Records.Addresses.{is_protocol_address}
use primechain.Governance.Commit.{verify_commit_phase_certificate}
use primechain.Governance.Lottery.{verify_composite_lottery_proof}
use primechain.Governance.Metadata.{verify_genesis_config}
use primechain.Node.Ledger.{Ledger, Step}
use primechain.Node.Ledger
use primechain.Node.Metadata.{
  validate_transaction_batch, check_metadata, to_math_pratt_proof, to_legacy_composite_proof,
  validate_prime_provider_signature, validate_composite_provider_signature,
}
use primechain.Node.Rewards.{apply_composite_ledger, apply_prime_ledger}
use primechain.Node.Settings.{Settings, same_addresses, active_fee_pool_address}
use primechain.Node.State.{SequentialNodeStatus, SequentialNode}
use primechain.Node.Transactions.{prefix_error, apply_transactions}

abbrev pub validator_reward_record_version : ℕ
validator_reward_record_version = 8

unfoldable pub validate_common : SequentialNodeStatus → ℕ → ℕ → Bytes → Check
validate_common status height integer previous_record_hash =
    refuse_if (not status.has_genesis) "genesis is not initialized"
    >> (refuse_if (not (height == (status.height + 1) % 2 ^ 64)) "record height is not next height"
        >> (refuse_if (not (integer == (status.frontier_integer + 1) % 2 ^ 64))
              "record integer is not next frontier integer"
            >> refuse_if (not (eq_bytes previous_record_hash status.latest_record_hash))
                "previous record hash mismatch"))

-- `validator_set_.empty() ? record.version != 0 : (record.version < 1 || ...)`
unfoldable pub unauthorized_set : Settings → CompositeRecordV0 → Bool
unauthorized_set s r =
    if is_empty s.validator_set
    then not (r.version == 0)
    else ltb r.version 1
      || (leb r.version validator_reward_record_version
          && not (same_addresses r.commit_phase.validator_set s.validator_set))

-- The four maps of the ledger are put back, whether the trial passes or fails.
unfoldable pub restore_ledger : Ledger → Ledger → Ledger
restore_ledger before after = record after {
  balances = before.balances;
  total_supply = before.total_supply;
  account_nonces = before.account_nonces;
  pending_composite_providers = before.pending_composite_providers;
}

unfoldable pub try_ledger : Step (Unit {0}) → SequentialNode → Check × SequentialNode
try_ledger step node =
    let (valid, after) = step node.ledger in
    (valid, record node { ledger = restore_ledger node.ledger after })

abbrev pub checked_first :
    Check → (SequentialNode → Check × SequentialNode) → SequentialNode → Check × SequentialNode
checked_first (ok t) rest node = rest node
checked_first (err e) rest node = (err e, node)

module _ (crypto : Crypto) where
  -- The proof of a composite record, its provider, its transactions' digest and its certificates.
  unfoldable pub check_composite_parts : Settings → CompositeRecordV0 → Check
  check_composite_parts s r =
      refuse_if (not (r.proof.g == r.integer)) "composite proof integer mismatch"
      >> (refuse_if (not (is_protocol_address r.proof.provider_address))
            "invalid composite provider address"
          >> (refuse_if (not (verify_composite_proof (to_legacy_composite_proof r.proof)))
                "invalid composite proof"
              >> (prefix_error "invalid composite provider signature: "
                    (validate_composite_provider_signature crypto r.proof)
                  >> (validate_transaction_batch crypto r.tx_batch r.transactions r.version
                      >> (verify_commit_phase_certificate crypto r
                          >> (verify_composite_lottery_proof crypto r s.validator_set
                              >> refuse_if (unauthorized_set s r)
                                  "composite certificate validator set is not authorized by genesis"))))))

  unfoldable pub check_prime_parts : Settings → PrimeRecordV0 → Check
  check_prime_parts s r =
      refuse_if (not (r.proof.p == r.integer)) "prime proof integer mismatch"
      >> (refuse_if (not (is_protocol_address r.proof.provider_address))
            "invalid prime provider address"
          >> (prefix_error "invalid prime provider signature: " (
                validate_prime_provider_signature crypto r.proof r.previous_record_hash
                  (is_empty s.validator_set))
              >> (refuse_if (not (verify_pratt_proof (to_math_pratt_proof r.proof)))
                    "invalid Pratt proof"
                  >> (validate_transaction_batch crypto r.tx_batch r.transactions r.version
                      >> verify_genesis_config r))))

  abbrev pub check_composite_metadata : Settings → CompositeRecordV0 → Check
  check_composite_metadata s r =
      check_metadata crypto s r.version r.validator_epoch r.validator_endpoints r.economic_policy
        r.validator_applications r.validator_work_bindings r.previous_record_hash r.integer

  abbrev pub check_prime_metadata : Settings → PrimeRecordV0 → Check
  check_prime_metadata s r =
      check_metadata crypto s r.version r.validator_epoch r.validator_endpoints r.economic_policy
        r.validator_applications r.validator_work_bindings r.previous_record_hash r.integer

  -- `totalSupplyMicroUnits(record.integer) != 0`
  abbrev pub check_unminted : Ledger → ℕ → Check
  check_unminted l integer =
      refuse_if (not (at integer l.total_supply == 0)) "prime asset already minted"

  -- What is checked of a record before its transactions are tried.
  unfoldable pub check_composite_candidate :
      SequentialNodeStatus → Settings → CompositeRecordV0 → Check
  check_composite_candidate status s r =
      validate_common status r.height r.integer r.previous_record_hash
      >> (check_composite_parts s r >> check_composite_metadata s r)

  unfoldable pub check_prime_candidate :
      SequentialNodeStatus → Settings → Ledger → PrimeRecordV0 → Check
  check_prime_candidate status s l r =
      validate_common status r.height r.integer r.previous_record_hash
      >> (check_prime_parts s r >> (check_prime_metadata s r >> check_unminted l r.integer))

  -- applyTransactions and then the ledger's part of the record.
  unfoldable pub apply_record :
      Settings → List TransactionV0 → ℕ → Step (Unit {0}) → Step (Unit {0})
  apply_record s transactions integer reward =
      Ledger.◌>>◌ (apply_transactions crypto s transactions (active_fee_pool_address s) integer)
        reward

  unfoldable pub validate_composite_candidate :
      CompositeRecordV0 → SequentialNode → Check × SequentialNode
  validate_composite_candidate r node =
      checked_first (check_composite_candidate node.status node.settings r)
        (try_ledger
          (apply_record node.settings r.transactions r.integer (apply_composite_ledger r)))
        node

  unfoldable pub validate_prime_candidate : PrimeRecordV0 → SequentialNode → Check × SequentialNode
  validate_prime_candidate r node =
      checked_first (check_prime_candidate node.status node.settings node.ledger r)
        (try_ledger (
          apply_record node.settings r.transactions r.integer (apply_prime_ledger node.settings r)))
        node
