-- ===== src/Finalization/Verify.antt =====
-- verifyRecordFinalization.
use primechain.Base.{ℕ, Bool, not, ◌||◌, List, [], ◌∷◌, length, is_empty, ◌==◌, if◌then◌else◌}
use primechain.Base.Text.{Bytes, eq_bytes}
use primechain.Base.Result.{Check, pass, refuse_if, ◌>>◌, ◌>>=◌}
use primechain.Crypto.{Crypto, address_from_protocol_public_key, verify_protocol_message_signature}
use primechain.Crypto.Payloads.{record_finalization_vote_signing_payload}
use primechain.Records.Types.{
  FinalizationProofV0, ValidatorVoteV0, signed_finalization_rule, round_finalization_rule,
  locked_round_finalization_rule,
}
use primechain.Finalization.Quorum.{
  has_quorum_vote_count, is_canonical_protocol_validator_set, binary_search, out_of_order,
}
use primechain.Finalization.Development.{verify_development_finalization}
use primechain.Finalization.Locks.{check_locks}
use primechain.Finalization.RoundChange.{verify_round_change_certificate}

-- `votes.front().round`: the callers have refused an empty list.
unfoldable pub front_round : List ValidatorVoteV0 → ℕ
front_round [] = 0
front_round (vote ∷ votes) = vote.round

unfoldable pub is_quorum_rule : Bytes → Bool
is_quorum_rule rule =
    eq_bytes rule signed_finalization_rule
    || (eq_bytes rule round_finalization_rule || eq_bytes rule locked_round_finalization_rule)

module _ (crypto : Crypto) where
  -- The loop's body, for one vote.
  unfoldable pub check_vote : Bytes → List Bytes → ℕ → ValidatorVoteV0 → Check
  check_vote candidate_hash validator_set round vote =
      refuse_if (not (binary_search validator_set vote.validator_address))
        "finalization vote is outside active validator set"
      >> refuse_if
          (not (
            eq_bytes vote.validator_address
              (address_from_protocol_public_key crypto vote.public_key)))
          "finalization vote address mismatch"
      >> refuse_if (not (eq_bytes vote.record_hash candidate_hash) || not (vote.round == round))
          "finalization vote target mismatch"
      >> refuse_if
          (not (
            verify_protocol_message_signature crypto vote.public_key
              (record_finalization_vote_signing_payload vote.record_hash vote.round
                vote.validator_address)
              vote.signature))
          "invalid finalization vote signature"

  unfoldable pub check_votes : Bytes → List Bytes → ℕ → Bytes → List ValidatorVoteV0 → Check
  check_votes candidate_hash validator_set round previous [] = pass
  check_votes candidate_hash validator_set round previous (vote ∷ votes) =
      refuse_if (out_of_order previous vote.validator_address)
        "finalization votes are not canonical"
      >> (check_vote candidate_hash validator_set round vote
          >> check_votes candidate_hash validator_set round vote.validator_address votes)

  -- What follows the certificate, of which it takes the round.
  unfoldable pub verify_votes : FinalizationProofV0 → Bytes → List Bytes → ℕ → Check
  verify_votes proof candidate_hash validator_set round =
      refuse_if (not (front_round proof.votes == round))
        "finalization votes do not match certified round"
      >> ((if eq_bytes proof.rule locked_round_finalization_rule
            then check_locks candidate_hash proof.round_changes
            else pass)
          >> check_votes candidate_hash validator_set round [] proof.votes)

  unfoldable pub verify_quorum_finalization :
      FinalizationProofV0 → Bytes → Bytes → ℕ → List Bytes → Check
  verify_quorum_finalization proof candidate_hash previous_record_hash integer validator_set =
      refuse_if (not (is_quorum_rule proof.rule)) "quorum records require ML-DSA-65 finalization"
      >> (refuse_if
            (not (is_canonical_protocol_validator_set validator_set)
              || not (has_quorum_vote_count (length proof.votes) (length validator_set)))
            "signed finalization requires validator-quorum votes from the active set"
          >> (verify_round_change_certificate crypto proof previous_record_hash integer
                validator_set
              >>= verify_votes proof candidate_hash validator_set))

  unfoldable pub verify_record_finalization :
      FinalizationProofV0 → Bytes → Bytes → ℕ → List Bytes → Check
  verify_record_finalization proof candidate_hash previous_record_hash integer validator_set =
      if is_empty validator_set
      then verify_development_finalization crypto proof candidate_hash
      else verify_quorum_finalization proof candidate_hash previous_record_hash integer
          validator_set
