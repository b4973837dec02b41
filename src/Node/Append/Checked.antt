-- ===== src/Node/Append/Checked.antt =====
-- What a candidate that was accepted has passed: it is the next record, and its policy verifies.
use primechain.Base.{
  ℕ, ◌+◌, ◌%◌, ◌^◌, ◌≡◌, refl, true, false, List, ◌==◌, arith, inl, inr, Bool-cases,
}
use primechain.Base.Text.{Bytes}
use primechain.Base.Result.{
  ok, err, Check, pass, refuse_if-pass, refuse_unless-pass, both_pass, ◌>>◌,
}
use primechain.Crypto.{Crypto}
use primechain.Records.Types.{
  ValidatorEpochTransitionV1, EconomicPolicyUpdateV1, CompositeRecordV0, PrimeRecordV0,
  ValidatorEndpointUpdateV1, ValidatorApplicationV1, ValidatorWorkBindingV1,
}
use primechain.Finalization.Epoch.{verify_validator_epoch_transition}
use primechain.Governance.Metadata.{
  verify_validator_endpoint_updates, verify_validator_applications, verify_validator_work_bindings,
}
use primechain.Governance.Policy.{
  is_absent_policy, verify_present_policy, verify_economic_policy_update,
}
use primechain.Node.Ledger.{Ledger, Step}
use primechain.Node.Metadata.{
  has_economic_policy_update, check_metadata, validate_record_metadata_version,
}
use primechain.Node.Settings.{Settings}
use primechain.Node.State.{SequentialNodeStatus, SequentialNode}
use primechain.Node.Candidates.{
  check_composite_candidate, check_prime_candidate, try_ledger, restore_ledger, checked_first,
  validate_common, check_composite_parts, check_prime_parts, check_composite_metadata,
  check_prime_metadata, check_unminted,
}
use primechain.Node.Append.{apply_economic_policy}

verified_policy-nonzero :
    (crypto : Crypto) (update : EconomicPolicyUpdateV1) (validator_set : List Bytes)
    (previous_record_hash : Bytes) (integer : ℕ)
    → verify_present_policy crypto update validator_set previous_record_hash integer ≡ pass
    → ((update.transfer_fee_micro_units == 0) ≡ false)
      × ((update.validator_min_reserve_micro_units == 0) ≡ false)
      × ((update.effective_integer == (integer + 1) % 2 ^ 64) ≡ true)
unfolding verify_present_policy
verified_policy-nonzero crypto update validator_set previous_record_hash integer h =
    let (_, h1) = both_pass _ _ h in
    let (fee, h2) = both_pass _ _ h1 in
    let (reserve, h3) = both_pass _ _ h2 in
    let (next, _) = both_pass _ _ h3 in
    (refuse_if-pass _ _ fee, refuse_if-pass _ _ reserve, refuse_unless-pass _ _ next)

-- A policy that verifies is one that the node applies.
pub verified_policy-applies :
    (crypto : Crypto) (update : EconomicPolicyUpdateV1) (validator_set : List Bytes)
    (previous_record_hash : Bytes) (integer : ℕ)
    → verify_economic_policy_update crypto update validator_set previous_record_hash integer ≡ pass
    → (s : Settings) → (apply_economic_policy update integer s).0 ≡ pass
unfolding verify_economic_policy_update is_absent_policy has_economic_policy_update
    apply_economic_policy
verified_policy-applies crypto update validator_set previous_record_hash integer h s =
    elim (Bool-cases (is_absent_policy update)) [
      | inl absent ↦
          let nothing : has_economic_policy_update update ≡ false = ground arith in rw nothing refl
      | inr present ↦
          let (fee, reserve, next) =
            verified_policy-nonzero crypto update validator_set previous_record_hash integer
              (rw present at h) in
          elim (Bool-cases (has_economic_policy_update update)) [
            | inl has ↦ rw (has, fee, reserve, next) refl
            | inr nothing ↦ rw nothing refl
          ]
    ]

pub checked_first-keeps :
    (c : Check) (step : Step (Unit {0})) (node : SequentialNode)
    → (checked_first c (try_ledger step) node).1 ≡ node
unfolding try_ledger restore_ledger
checked_first-keeps (ok t) step node = refl
checked_first-keeps (err e) step node = refl

pub checked_first-passes :
    (c : Check) (rest : SequentialNode → Check × SequentialNode) (node : SequentialNode)
    → (checked_first c rest node).0 ≡ pass
    → c ≡ pass
checked_first-passes (ok t) rest node h = refl
checked_first-passes (err e) rest node h = absurd (cc h)

check_metadata-policy :
    (crypto : Crypto) (s : Settings) (version : ℕ) (transition : ValidatorEpochTransitionV1)
    (endpoints : List ValidatorEndpointUpdateV1) (policy : EconomicPolicyUpdateV1)
    (applications : List ValidatorApplicationV1) (bindings : List ValidatorWorkBindingV1)
    (previous_record_hash : Bytes) (integer : ℕ)
    → check_metadata crypto s version transition endpoints policy applications bindings
        previous_record_hash integer
      ≡ pass
    → verify_economic_policy_update crypto policy s.validator_set previous_record_hash integer
      ≡ pass
unfolding check_metadata
check_metadata-policy crypto s version transition endpoints policy applications bindings
      previous_record_hash integer h =
    let set = s.validator_set in
    let of_policy = verify_economic_policy_update crypto policy set previous_record_hash integer in
    let last =
      verify_validator_applications crypto applications previous_record_hash integer
      >> verify_validator_work_bindings crypto bindings previous_record_hash integer in
    let of_endpoints =
      verify_validator_endpoint_updates crypto endpoints set previous_record_hash integer in
    let of_epoch =
      verify_validator_epoch_transition crypto transition set s.validator_epoch previous_record_hash
        integer in
    let of_version =
      validate_record_metadata_version version transition endpoints policy applications bindings in
    let (_, h1) = both_pass of_version (of_epoch >> (of_endpoints >> (of_policy >> last))) h in
    let (_, h2) = both_pass of_epoch (of_endpoints >> (of_policy >> last)) h1 in
    let (_, h3) = both_pass of_endpoints (of_policy >> last) h2 in
    let (verified, _) = both_pass of_policy last h3 in verified

-- The record is the next one, and its policy verifies.
pub check_composite_candidate-passes :
    (crypto : Crypto) (status : SequentialNodeStatus) (s : Settings) (r : CompositeRecordV0)
    → check_composite_candidate crypto status s r ≡ pass
    → (validate_common status r.height r.integer r.previous_record_hash ≡ pass)
      × (verify_economic_policy_update crypto r.economic_policy s.validator_set
            r.previous_record_hash r.integer
          ≡ pass)
unfolding check_composite_candidate
check_composite_candidate-passes crypto status s r h =
    let common = validate_common status r.height r.integer r.previous_record_hash in
    let parts = check_composite_parts crypto s r in
    let metadata = check_composite_metadata crypto s r in
    let (next, h1) = both_pass common (parts >> metadata) h in
    let (_, verified) = both_pass parts metadata h1 in
    (
      next,
      check_metadata-policy crypto s r.version r.validator_epoch r.validator_endpoints
          r.economic_policy r.validator_applications r.validator_work_bindings
          r.previous_record_hash r.integer verified,
    )

pub check_prime_candidate-passes :
    (crypto : Crypto) (status : SequentialNodeStatus) (s : Settings) (l : Ledger)
    (r : PrimeRecordV0)
    → check_prime_candidate crypto status s l r ≡ pass
    → (validate_common status r.height r.integer r.previous_record_hash ≡ pass)
      × (verify_economic_policy_update crypto r.economic_policy s.validator_set
            r.previous_record_hash r.integer
          ≡ pass)
unfolding check_prime_candidate
check_prime_candidate-passes crypto status s l r h =
    let common = validate_common status r.height r.integer r.previous_record_hash in
    let parts = check_prime_parts crypto s r in
    let metadata = check_prime_metadata crypto s r in
    let unminted = check_unminted crypto l r.integer in
    let (next, h1) = both_pass common (parts >> (metadata >> unminted)) h in
    let (_, h2) = both_pass parts (metadata >> unminted) h1 in
    let (verified, _) = both_pass metadata unminted h2 in
    (
      next,
      check_metadata-policy crypto s r.version r.validator_epoch r.validator_endpoints
          r.economic_policy r.validator_applications r.validator_work_bindings
          r.previous_record_hash r.integer verified,
    )
