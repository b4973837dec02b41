-- ===== src/Governance/Lottery.antt =====
-- assignedCompositeLotteryValidator and verifyCompositeLotteryProof.
use primechain.Base.{
  ℕ, ◌+◌, ◌*◌, ◌%◌, Bool, not, ◌&&◌, List, [], ◌∷◌, ◌++◌, length, take, get_or, is_empty, leb, ltb,
  ◌==◌, if◌then◌else◌,
}
use primechain.Base.Text.{Bytes, text, eq_bytes}
use primechain.Base.Result.{Result, ok, Check, pass, refuse_if, ◌>>◌, ◌>>=◌}
use primechain.Codec.{append_uint64, append_hash, append_string, append_list}
use primechain.Crypto.{Crypto, address_from_protocol_public_key, verify_protocol_message_signature}
use primechain.Crypto.Metadata.{composite_lottery_win_signing_payload}
use primechain.Records.Types.{CompositeLotteryProofV1, CompositeRecordV0}
use primechain.Finalization.Quorum.{is_canonical_protocol_validator_set}
use primechain.Finalization.RoundChange.{is_zero_hash}
use primechain.Finalization.Hashes.Composite

abbrev pub integer_composite_lottery_record_version : ℕ
integer_composite_lottery_record_version = 13

abbrev pub composite_lottery_disabled_from_integer : ℕ
composite_lottery_disabled_from_integer = 29306

-- `number = (number << 8) | byte`, highest byte first.
unfoldable pub big_endian : ℕ → Bytes → ℕ
big_endian number [] = number
big_endian number (byte ∷ bytes) = big_endian (256 * number + byte) bytes

unfoldable pub is_empty_lottery : CompositeLotteryProofV1 → Bool
is_empty_lottery lottery =
    (lottery.round == 0)
    && ((lottery.win_bps == 0)
        && (is_zero_hash lottery.subject_hash
            && (is_empty lottery.assigned_validator
                && (is_empty lottery.public_key && is_empty lottery.signature))))

module _ (crypto : Crypto) where
  open crypto use {sha3_256}

  unfoldable pub assignment_payload : CompositeRecordV0 → List Bytes → Bytes
  assignment_payload record' validator_set =
      (if leb integer_composite_lottery_record_version record'.version
        then append_string (text "primechain-composite-lottery-assignment-v2")
          ++ (append_hash record'.previous_record_hash ++ append_uint64 record'.integer)
        else append_string (text "primechain-composite-lottery-assignment-v1")
          ++ (append_hash record'.previous_record_hash
              ++ (append_uint64 record'.integer
                  ++ append_hash (Composite.subject_record_hash crypto record'))))
      ++ append_list append_string validator_set

  -- `validator_set[number % validator_set.size()]`: the index is in range, as the set is not empty.
  unfoldable pub assigned_composite_lottery_validator :
      CompositeRecordV0 → List Bytes → Result Bytes
  assigned_composite_lottery_validator record' validator_set =
      refuse_if (not (is_canonical_protocol_validator_set validator_set))
        "composite lottery requires canonical validator set"
      >> ok (
          get_or validator_set
            (big_endian 0 (take 8 (sha3_256 (assignment_payload record' validator_set)))
              % length validator_set)
            [])

  unfoldable pub check_assigned :
      CompositeRecordV0 → CompositeLotteryProofV1 → Bytes → Bytes → Check
  check_assigned record' lottery subject_hash assigned =
      refuse_if (not (eq_bytes lottery.assigned_validator assigned))
        "composite lottery assigned validator mismatch"
      >> (refuse_if
            (not (
              eq_bytes lottery.assigned_validator
                (address_from_protocol_public_key crypto lottery.public_key)))
            "composite lottery public key address mismatch"
          >> refuse_if
              (not (
                verify_protocol_message_signature crypto lottery.public_key
                  (composite_lottery_win_signing_payload record'.previous_record_hash
                    record'.integer subject_hash lottery.round lottery.win_bps
                    lottery.assigned_validator)
                  lottery.signature))
              "invalid composite lottery win signature")

  unfoldable pub check_lottery : CompositeRecordV0 → CompositeLotteryProofV1 → List Bytes → Check
  check_lottery record' lottery validator_set =
      let subject_hash = Composite.subject_record_hash crypto record' in
      refuse_if (ltb 10000 lottery.win_bps) "composite lottery win rate is invalid"
      >> (refuse_if (not (eq_bytes lottery.subject_hash subject_hash))
            "composite lottery subject hash mismatch"
          >> (assigned_composite_lottery_validator record' validator_set
              >>= check_assigned record' lottery subject_hash))

  unfoldable pub verify_composite_lottery_proof : CompositeRecordV0 → List Bytes → Check
  verify_composite_lottery_proof record' validator_set =
      if ltb record'.version 10
      then pass
      else if leb composite_lottery_disabled_from_integer record'.integer
      then refuse_if (not (is_empty_lottery record'.composite_lottery))
          "composite lottery must be empty after lottery disable activation"
      else if record'.composite_lottery.round == 0
      then refuse_if (not (is_empty_lottery record'.composite_lottery))
          "composite lottery round must be positive"
      else check_lottery record' record'.composite_lottery validator_set
