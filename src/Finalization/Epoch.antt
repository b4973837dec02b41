-- ===== src/Finalization/Epoch.antt =====
-- verifyValidatorEpochTransition.
use primechain.Base.{
  ℕ, ◌+◌, ◌%◌, ◌^◌, Bool, not, ◌&&◌, ◌||◌, List, [], ◌∷◌, length, is_empty, ◌==◌, if◌then◌else◌,
}
use primechain.Base.Text.{Bytes, eq_bytes}
use primechain.Base.Result.{Check, pass, refuse_if, ◌>>◌}
use primechain.Crypto.{Crypto, address_from_protocol_public_key, verify_protocol_message_signature}
use primechain.Crypto.Payloads.{validator_epoch_vote_signing_payload}
use primechain.Records.Types.{ValidatorEpochTransitionV1, SignedVoteV1}
use primechain.Finalization.Quorum.{
  has_quorum_vote_count, is_canonical_protocol_validator_set, binary_search, out_of_order,
}
use primechain.Finalization.RoundChange.{is_zero_hash}

unfoldable pub is_absent_transition : ValidatorEpochTransitionV1 → Bool
is_absent_transition transition =
    (transition.epoch == 0)
    && (is_zero_hash transition.vote_previous_record_hash
        && ((transition.vote_record_integer == 0)
            && ((transition.activation_integer == 0)
                && (is_empty transition.next_validator_set && is_empty transition.votes))))

unfoldable pub has_explicit_vote_anchor : ValidatorEpochTransitionV1 → Bool
has_explicit_vote_anchor transition =
    not (transition.vote_record_integer == 0)
    || not (is_zero_hash transition.vote_previous_record_hash)

unfoldable pub anchor_hash : ValidatorEpochTransitionV1 → Bytes → Bytes
anchor_hash transition previous_record_hash =
    if has_explicit_vote_anchor transition
    then transition.vote_previous_record_hash
    else previous_record_hash

unfoldable pub anchor_integer : ValidatorEpochTransitionV1 → ℕ → ℕ
anchor_integer transition record_integer =
    if has_explicit_vote_anchor transition then transition.vote_record_integer else record_integer

module _ (crypto : Crypto) where
  -- The loop's body, for one vote.
  unfoldable pub check_epoch_vote : List Bytes → Bytes → SignedVoteV1 → Check
  check_epoch_vote current_validator_set signing_payload vote =
      refuse_if (not (binary_search current_validator_set vote.validator_address))
        "validator epoch vote is outside current set"
      >> (refuse_if
            (not (
              eq_bytes vote.validator_address
                (address_from_protocol_public_key crypto vote.public_key)))
            "validator epoch vote address mismatch"
          >> refuse_if
              (not (
                verify_protocol_message_signature crypto vote.public_key signing_payload
                  vote.signature))
              "invalid validator epoch vote signature")

  -- `payload` gives the signing payload of a voter's address.
  unfoldable pub check_epoch_votes :
      List Bytes → (Bytes → Bytes) → Bytes → List SignedVoteV1 → Check
  check_epoch_votes current_validator_set payload previous_vote [] = pass
  check_epoch_votes current_validator_set payload previous_vote (vote ∷ votes) =
      refuse_if (out_of_order previous_vote vote.validator_address)
        "validator epoch votes are not canonical"
      >> (check_epoch_vote current_validator_set (payload vote.validator_address) vote
          >> check_epoch_votes current_validator_set payload vote.validator_address votes)

  unfoldable pub epoch_payload : ValidatorEpochTransitionV1 → Bytes → ℕ → Bytes → Bytes
  epoch_payload transition previous_record_hash record_integer validator_address =
      validator_epoch_vote_signing_payload (anchor_hash transition previous_record_hash)
        (anchor_integer transition record_integer) transition.epoch transition.activation_integer
        transition.next_validator_set validator_address

  -- `current_epoch + 1` and `record_integer + 1` are computed on 64 bits.
  unfoldable pub verify_present_transition :
      ValidatorEpochTransitionV1 → List Bytes → ℕ → Bytes → ℕ → Check
  verify_present_transition transition current_validator_set current_epoch previous_record_hash
        record_integer =
      refuse_if (not (is_canonical_protocol_validator_set current_validator_set))
        "validator epoch requires an active canonical validator set"
      >> (refuse_if (not (transition.epoch == (current_epoch + 1) % 2 ^ 64))
            "validator epoch number is not sequential"
          >> (refuse_if (not (anchor_integer transition record_integer == record_integer))
                "validator epoch vote anchor must match transition record"
              >> (refuse_if (not (transition.activation_integer == (record_integer + 1) % 2 ^ 64))
                    "validator epoch must activate at the next integer"
                  >> (refuse_if
                        (not (is_canonical_protocol_validator_set transition.next_validator_set))
                        "next validator set must contain canonical validator addresses"
                      >> (refuse_if
                            (not (
                              has_quorum_vote_count (length transition.votes)
                                (length current_validator_set)))
                            "validator epoch votes do not meet current validator quorum"
                          >> check_epoch_votes current_validator_set
                              (epoch_payload transition previous_record_hash record_integer) []
                              transition.votes)))))

  unfoldable pub verify_validator_epoch_transition :
      ValidatorEpochTransitionV1 → List Bytes → ℕ → Bytes → ℕ → Check
  verify_validator_epoch_transition transition current_validator_set current_epoch
        previous_record_hash record_integer =
      if is_absent_transition transition
      then pass
      else verify_present_transition transition current_validator_set current_epoch
          previous_record_hash record_integer
