-- ===== src/Node/Metadata.antt =====
-- The checks that a node makes on the parts of a record: its transaction batch, its metadata, and the
-- signature of its provider.
use primechain.Base.{
  ℕ, Bool, not, ◌&&◌, ◌||◌, List, length, map, is_empty, ltb, ◌==◌, if◌then◌else◌,
}
use primechain.Base.Text.{Bytes, eq_bytes}
use primechain.Base.Result.{Check, pass, err, refuse_if, ◌>>◌}
use primechain.Crypto.{Crypto, is_protocol_signature_address}
use primechain.Crypto.Packed.{
  verify_packed_prime_proof_authentication, verify_packed_composite_reveal_proof,
}
use primechain.Math.Composite.{CompositeProof}
use primechain.Math.Factorization.{PrimePowerFactor}
use primechain.Math.Pratt.{PrattProof}
use primechain.Records.Types.{
  TransactionV0, TransactionBatchV0, ValidatorEpochTransitionV1, ValidatorEndpointUpdateV1,
  EconomicPolicyUpdateV1, ValidatorApplicationV1, ValidatorWorkBindingV1, PrimePowerV0,
  PrattPrimeProofV0, CompositeProofV0,
}
use primechain.Records.Types.{zero_hash}
use primechain.Records.Addresses.{is_protocol_address}
use primechain.Records.Merkle.{transaction_batch_root}
use primechain.Finalization.Development.{is_development_address}
use primechain.Finalization.Epoch.{verify_validator_epoch_transition}
use primechain.Governance.Metadata.{
  verify_validator_endpoint_updates, verify_validator_applications, verify_validator_work_bindings,
}
use primechain.Governance.Policy.{verify_economic_policy_update}
use primechain.Node.Settings.{Settings}

unfoldable pub validate_transaction_batch :
    Crypto → TransactionBatchV0 → List TransactionV0 → ℕ → Check
validate_transaction_batch crypto batch transactions record_version =
    refuse_if (not (batch.transaction_count == length transactions))
      "transaction batch count mismatch"
    >> refuse_if
        (not (
          eq_bytes batch.transaction_merkle_root
            (transaction_batch_root crypto transactions record_version)))
        "transaction batch root mismatch"

unfoldable pub has_validator_epoch_transition : ValidatorEpochTransitionV1 → Bool
has_validator_epoch_transition transition =
    not (transition.epoch == 0)
    || (not (transition.activation_integer == 0)
        || (not (is_empty transition.next_validator_set) || not (is_empty transition.votes)))

unfoldable pub has_economic_policy_update : EconomicPolicyUpdateV1 → Bool
has_economic_policy_update update =
    not (update.transfer_fee_micro_units == 0)
    || (not (update.validator_min_reserve_micro_units == 0)
        || (not (update.effective_integer == 0)
            || (not (update.sequence == 0) || not (is_empty update.votes))))

-- The tests of one kind of metadata: it needs the version that has it, and that version needs it.
unfoldable pub check_kind : ℕ → Bool → ℕ → Check → Check → Check
check_kind version has least missing_version missing_kind =
    (if has && ltb version least then missing_version else pass)
    >> (if not has && (version == least) then missing_kind else pass)

unfoldable pub validate_record_metadata_version :
    ℕ
    → ValidatorEpochTransitionV1
    → List ValidatorEndpointUpdateV1
    → EconomicPolicyUpdateV1
    → List ValidatorApplicationV1
    → List ValidatorWorkBindingV1
    → Check
validate_record_metadata_version version transition endpoint_updates economic_policy
      validator_applications validator_work_bindings =
    check_kind version (has_validator_epoch_transition transition) 2
      (err "validator epoch transition requires record version 2 or newer")
      (err "version 2 record requires a validator epoch transition")
    >> (check_kind version (not (is_empty endpoint_updates)) 3
          (err "validator endpoint updates require record version 3 or newer")
          (err "version 3 record requires validator endpoint updates")
        >> (refuse_if (has_economic_policy_update economic_policy && ltb version 4)
              "economic policy update requires record version 4 or newer"
            >> (refuse_if
                  (not (has_economic_policy_update economic_policy)
                    && ((version == 4) || (version == 7)))
                  "economic policy record version requires an economic policy update"
                >> (refuse_if
                      (not (economic_policy.validator_min_reserve_micro_units == 0)
                        && ltb version 7)
                      "validator reserve policy requires record version 7 or newer"
                    >> (refuse_if
                          ((version == 7)
                            && (economic_policy.validator_min_reserve_micro_units == 0))
                          "version 7 record requires validator reserve policy"
                        >> (check_kind version (not (is_empty validator_applications)) 5
                              (err "validator applications require record version 5 or newer")
                              (err "version 5 record requires validator applications")
                            >> check_kind version (not (is_empty validator_work_bindings)) 6
                                (err "validator work bindings require record version 6 or newer")
                                (err "version 6 record requires validator work bindings")))))))

-- The metadata checks that the candidates of both kinds share, in their order.
unfoldable pub check_metadata :
    Crypto
    → Settings
    → ℕ
    → ValidatorEpochTransitionV1
    → List ValidatorEndpointUpdateV1
    → EconomicPolicyUpdateV1
    → List ValidatorApplicationV1
    → List ValidatorWorkBindingV1
    → Bytes
    → ℕ
    → Check
check_metadata crypto s version transition endpoints policy applications bindings
      previous_record_hash integer =
    validate_record_metadata_version version transition endpoints policy applications bindings
    >> (verify_validator_epoch_transition crypto transition s.validator_set s.validator_epoch
          previous_record_hash integer
        >> (verify_validator_endpoint_updates crypto endpoints s.validator_set previous_record_hash
              integer
            >> (verify_economic_policy_update crypto policy s.validator_set previous_record_hash
                  integer
                >> (verify_validator_applications crypto applications previous_record_hash integer
                    >> verify_validator_work_bindings crypto bindings previous_record_hash
                        integer))))

abbrev to_math_factor : PrimePowerV0 → PrimePowerFactor
to_math_factor factor = record { prime = factor.prime; exponent = factor.exponent }

unfoldable pub to_math_pratt_proof : PrattPrimeProofV0 → PrattProof
to_math_pratt_proof proof = record {
  p = proof.p;
  witness = proof.witness;
  factors_of_p_minus_1 = record { factors = map to_math_factor proof.factors_of_p_minus_1 };
}

unfoldable pub to_legacy_composite_proof : CompositeProofV0 → CompositeProof
to_legacy_composite_proof proof = record {
  m = proof.g;
  d = proof.d;
  e = proof.e;
  nonce = zero_hash;
  provider_address = proof.provider_address;
  signature = proof.signature;
}

abbrev factor_pair : PrimePowerV0 → ℕ × ℕ
factor_pair factor = (factor.prime, factor.exponent)

unfoldable pub prime_factor_pairs : PrattPrimeProofV0 → List (ℕ × ℕ)
prime_factor_pairs proof = map factor_pair proof.factors_of_p_minus_1

unfoldable pub validate_prime_provider_signature : Crypto → PrattPrimeProofV0 → Bytes → Bool → Check
validate_prime_provider_signature crypto proof previous_record_hash allow_development =
    if allow_development && (is_empty proof.signature && is_protocol_address proof.provider_address)
    then pass
    else (refuse_if (not (is_protocol_signature_address proof.provider_address))
          "unsupported prime provider address"
        >> verify_packed_prime_proof_authentication crypto previous_record_hash proof.p
            proof.witness (prime_factor_pairs proof) proof.provider_address proof.signature)

unfoldable pub validate_composite_provider_signature : Crypto → CompositeProofV0 → Check
validate_composite_provider_signature crypto proof =
    if is_development_address proof.provider_address
    then pass
    else (refuse_if (not (is_protocol_signature_address proof.provider_address))
          "unsupported composite provider address"
        >> verify_packed_composite_reveal_proof crypto proof.g proof.d proof.e
            proof.provider_address proof.signature)
