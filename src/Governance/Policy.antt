-- ===== src/Governance/Policy.antt =====
-- verifyEconomicPolicyUpdate.
use primechain.Base.{
  ℕ, ◌+◌, ◌%◌, ◌^◌, Bool, not, ◌&&◌, List, [], ◌∷◌, length, is_empty, ◌==◌, if◌then◌else◌,
}
use primechain.Base.Text.{Bytes, eq_bytes}
use primechain.Base.Result.{Check, pass, refuse_if, ◌>>◌}
use primechain.Crypto.{Crypto, address_from_protocol_public_key, verify_protocol_message_signature}
use primechain.Crypto.Payloads.{economic_policy_signing_payload}
use primechain.Records.Types.{EconomicPolicyUpdateV1, SignedVoteV1}
use primechain.Finalization.Quorum.{
  has_quorum_vote_count, is_canonical_protocol_validator_set, binary_search, out_of_order,
}

unfoldable pub is_absent_policy : EconomicPolicyUpdateV1 → Bool
is_absent_policy update =
    (update.transfer_fee_micro_units == 0)
    && ((update.validator_min_reserve_micro_units == 0)
        && ((update.effective_integer == 0) && ((update.sequence == 0) && is_empty update.votes)))

module _ (crypto : Crypto) where
  unfoldable pub check_policy_vote : List Bytes → Bytes → SignedVoteV1 → Check
  check_policy_vote current_validator_set signing_payload vote =
      refuse_if (not (binary_search current_validator_set vote.validator_address))
        "economic policy vote is outside current set"
      >> (refuse_if
            (not (
              eq_bytes vote.validator_address
                (address_from_protocol_public_key crypto vote.public_key)))
            "economic policy vote address mismatch"
          >> refuse_if
              (not (
                verify_protocol_message_signature crypto vote.public_key signing_payload
                  vote.signature))
              "invalid economic policy vote signature")

  unfoldable pub check_policy_votes :
      List Bytes → (Bytes → Bytes) → Bytes → List SignedVoteV1 → Check
  check_policy_votes current_validator_set payload previous_vote [] = pass
  check_policy_votes current_validator_set payload previous_vote (vote ∷ votes) =
      refuse_if (out_of_order previous_vote vote.validator_address)
        "economic policy votes are not canonical"
      >> (check_policy_vote current_validator_set (payload vote.validator_address) vote
          >> check_policy_votes current_validator_set payload vote.validator_address votes)

  unfoldable pub policy_payload : EconomicPolicyUpdateV1 → Bytes → ℕ → Bytes → Bytes
  policy_payload update previous_record_hash record_integer validator_address =
      economic_policy_signing_payload previous_record_hash record_integer
        update.transfer_fee_micro_units update.validator_min_reserve_micro_units
        update.effective_integer update.sequence validator_address

  -- `record_integer + 1` is computed on 64 bits.
  unfoldable pub verify_present_policy : EconomicPolicyUpdateV1 → List Bytes → Bytes → ℕ → Check
  verify_present_policy update current_validator_set previous_record_hash record_integer =
      refuse_if (not (is_canonical_protocol_validator_set current_validator_set))
        "economic policy requires an active canonical validator set"
      >> (refuse_if (update.transfer_fee_micro_units == 0)
            "economic policy transfer fee must be nonzero"
          >> (refuse_if (update.validator_min_reserve_micro_units == 0)
                "economic policy validator reserve must be nonzero"
              >> (refuse_if (not (update.effective_integer == (record_integer + 1) % 2 ^ 64))
                    "economic policy must activate at the next integer"
                  >> (refuse_if
                        (not (
                          has_quorum_vote_count (length update.votes)
                            (length current_validator_set)))
                        "economic policy votes do not meet validator quorum"
                      >> check_policy_votes current_validator_set
                          (policy_payload update previous_record_hash record_integer) []
                          update.votes))))

  unfoldable pub verify_economic_policy_update :
      EconomicPolicyUpdateV1 → List Bytes → Bytes → ℕ → Check
  verify_economic_policy_update update current_validator_set previous_record_hash record_integer =
      if is_absent_policy update
      then pass
      else verify_present_policy update current_validator_set previous_record_hash record_integer
