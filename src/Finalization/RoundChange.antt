-- ===== src/Finalization/RoundChange.antt =====
-- verifyRoundChangeCertificate.
use Prim.Native.String.{String}
use primechain.Base.{
  ℕ, Bool, not, ◌&&◌, ◌||◌, List, [], ◌∷◌, length, is_empty, all_of, leb, ltb, ◌==◌, if◌then◌else◌,
}
use primechain.Base.Text.{Bytes, text, eq_bytes}
use primechain.Base.Result.{Result, ok, err, Check, pass, refuse_if, ◌>>◌, ◌>>=◌}
use primechain.Crypto.{Crypto, address_from_protocol_public_key, verify_protocol_message_signature}
use primechain.Crypto.Payloads.{
  round_change_vote_signing_payload, locked_round_change_vote_signing_payload,
}
use primechain.Records.Types.{
  FinalizationProofV0, RoundChangeVoteV1, CompositeRecordV0, PrimeRecordV0,
  signed_finalization_rule, round_finalization_rule, locked_round_finalization_rule,
}
use primechain.Records.RecordDecode.{deserialize_composite_record, deserialize_prime_record}
use primechain.Finalization.Quorum.{has_quorum_vote_count, binary_search, out_of_order}
use primechain.Finalization.Identity.{uses_subject_record_identity}
use primechain.Finalization.Hashes.Composite
use primechain.Finalization.Hashes.Prime

unfoldable pub is_zero_hash : Bytes → Bool
is_zero_hash hash = all_of (λ byte. byte == 0) hash

unfoldable pub carries_candidate_data : RoundChangeVoteV1 → Bool
carries_candidate_data change =
    not (is_empty change.locked_candidate_kind)
    || not (is_zero_hash change.locked_candidate_hash)
    || not (is_empty change.locked_candidate_payload)

-- `std::optional::has_value() == false` with the callers' own error text.
unfoldable pub or_error {ℓ} : {A : Type ℓ} → Result A → String → Result A
or_error (ok a) message = ok a
or_error (err e) message = err message

module _ (crypto : Crypto) where
  unfoldable pub locked_prime_hash : PrimeRecordV0 → Bytes
  locked_prime_hash locked =
      if uses_subject_record_identity locked.version
      then Prime.subject_record_hash crypto locked
      else Prime.legacy_candidate_record_hash_without_finalization crypto locked

  unfoldable pub locked_composite_hash : CompositeRecordV0 → Bytes
  locked_composite_hash locked =
      if uses_subject_record_identity locked.version
      then Composite.subject_record_hash crypto locked
      else Composite.legacy_candidate_record_hash_without_finalization crypto locked

  unfoldable pub prime_candidate_hash : Bytes → ℕ → PrimeRecordV0 → Result Bytes
  prime_candidate_hash previous_record_hash integer locked =
      refuse_if
        ((locked.height == 0)
          || not (eq_bytes locked.previous_record_hash previous_record_hash)
          || not (locked.integer == integer))
        "invalid locked prime candidate"
      >> ok (locked_prime_hash locked)

  unfoldable pub composite_candidate_hash : Bytes → ℕ → CompositeRecordV0 → Result Bytes
  composite_candidate_hash previous_record_hash integer locked =
      refuse_if
        (not (eq_bytes locked.previous_record_hash previous_record_hash)
          || not (locked.integer == integer))
        "invalid locked composite candidate"
      >> ok (locked_composite_hash locked)

  -- `computed_hash` of the candidate that a lock carries.
  unfoldable pub computed_candidate_hash : Bytes → ℕ → RoundChangeVoteV1 → Result Bytes
  computed_candidate_hash previous_record_hash integer change =
      if eq_bytes change.locked_candidate_kind (text "PRIME")
      then (or_error (deserialize_prime_record change.locked_candidate_payload)
            "invalid locked prime candidate"
          >>= prime_candidate_hash previous_record_hash integer)
      else (or_error (deserialize_composite_record change.locked_candidate_payload)
            "invalid locked composite candidate"
          >>= composite_candidate_hash previous_record_hash integer)

  unfoldable pub check_computed_hash : RoundChangeVoteV1 → Bytes → Check
  check_computed_hash change computed_hash =
      refuse_if (not (eq_bytes computed_hash change.locked_candidate_hash))
        "round-change lock candidate hash mismatch"

  unfoldable pub check_lock : Bytes → ℕ → RoundChangeVoteV1 → Check
  check_lock previous_record_hash integer change =
      if change.locked_round == 0
      then refuse_if (carries_candidate_data change)
          "empty round-change lock carries candidate data"
      else refuse_if
          (leb change.new_round change.locked_round
            || (not (eq_bytes change.locked_candidate_kind (text "PRIME"))
                && not (eq_bytes change.locked_candidate_kind (text "COMPOSITE")))
            || is_empty change.locked_candidate_payload)
          "invalid round-change lock target"
        >> (computed_candidate_hash previous_record_hash integer change
            >>= check_computed_hash change)

  unfoldable pub round_change_signing_payload : Bool → RoundChangeVoteV1 → Bytes
  round_change_signing_payload locked_round_rule change =
      if locked_round_rule
      then locked_round_change_vote_signing_payload change.previous_record_hash change.integer
          change.new_round change.locked_round change.locked_candidate_kind
          change.locked_candidate_hash change.locked_candidate_payload change.validator_address
      else round_change_vote_signing_payload change.previous_record_hash change.integer
          change.new_round change.validator_address

  -- The loop's body, for one vote.
  unfoldable pub check_round_change : Bool → Bytes → ℕ → List Bytes → ℕ → RoundChangeVoteV1 → Check
  check_round_change locked_round_rule previous_record_hash integer validator_set round change =
      refuse_if
        (not (binary_search validator_set change.validator_address)
          || not (
              eq_bytes change.validator_address
                (address_from_protocol_public_key crypto change.public_key))
          || not (eq_bytes change.previous_record_hash previous_record_hash)
          || not (change.integer == integer)
          || not (change.new_round == round))
        "round-change vote target mismatch"
      >> (if locked_round_rule
          then check_lock previous_record_hash integer change
          else refuse_if (not (change.locked_round == 0) || carries_candidate_data change)
              "legacy round-change vote carries lock data")
      >> refuse_if
          (not (
            verify_protocol_message_signature crypto change.public_key
              (round_change_signing_payload locked_round_rule change) change.signature))
          "invalid round-change vote signature"

  unfoldable pub check_round_changes :
      Bool → Bytes → ℕ → List Bytes → ℕ → Bytes → List RoundChangeVoteV1 → Check
  check_round_changes locked_round_rule previous_record_hash integer validator_set round previous
        [] =
      pass
  check_round_changes locked_round_rule previous_record_hash integer validator_set round previous
        (change ∷ changes) =
      refuse_if (out_of_order previous change.validator_address)
        "round-change votes are not canonical"
      >> check_round_change locked_round_rule previous_record_hash integer validator_set round
          change
      >> check_round_changes locked_round_rule previous_record_hash integer validator_set round
          change.validator_address changes

  unfoldable pub verify_later_rounds : FinalizationProofV0 → Bytes → ℕ → List Bytes → ℕ → Result ℕ
  verify_later_rounds proof previous_record_hash integer validator_set round =
      let locked_round_rule = eq_bytes proof.rule locked_round_finalization_rule in
      refuse_if
        ((not (eq_bytes proof.rule round_finalization_rule) && not locked_round_rule)
          || not (has_quorum_vote_count (length proof.round_changes) (length validator_set)))
        "later finalization rounds require a validator-quorum round-change certificate"
      >> refuse_if (ltb round 2) "round-change target must be at least two"
      >> check_round_changes locked_round_rule previous_record_hash integer validator_set round []
          proof.round_changes
      >> ok round

  -- The round that the certificate proves.
  unfoldable pub verify_round_change_certificate :
      FinalizationProofV0 → Bytes → ℕ → List Bytes → Result ℕ
  verify_round_change_certificate proof previous_record_hash integer validator_set =
      certificate proof.round_changes
    where
      certificate : List RoundChangeVoteV1 → Result ℕ
      certificate [] =
          refuse_if (not (eq_bytes proof.rule signed_finalization_rule))
            "round one must use the original signed-finalization rule"
          >> ok 1
      certificate (front ∷ changes) =
          verify_later_rounds proof previous_record_hash integer validator_set front.new_round
