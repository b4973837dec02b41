-- ===== src/Governance/Commit.antt =====
-- commitPhaseSnapshotHash and verifyCommitPhaseCertificate.
use primechain.Base.{
  ℕ, Bool, false, not, ◌&&◌, ◌||◌, Option, none, some, List, [], ◌∷◌, ◌++◌, length, is_empty, leb,
  ltb, ◌==◌, if◌then◌else◌,
}
use primechain.Base.Text.{Bytes, text, eq_bytes, lt_bytes}
use primechain.Base.Result.{Check, pass, refuse_if, ◌>>◌}
use primechain.Codec.{append_uint64, append_string, append_list}
use primechain.Crypto.{Crypto, address_from_protocol_public_key, verify_protocol_message_signature}
use primechain.Crypto.Payloads.{composite_commit_signing_payload, commit_phase_vote_signing_payload}
use primechain.Crypto.Packed.{packed_composite_reveal_matches_commitment}
use primechain.Records.Types.{
  CommitCertificateEntryV1, CommitPhaseCertificateV1, SignedVoteV1, CompositeRecordV0,
}
use primechain.Records.Write.{append_commit_certificate_entry}
use primechain.Finalization.Quorum.{
  has_quorum_vote_count, is_canonical_protocol_validator_set, binary_search, out_of_order,
}

-- The entry `previous` stands in front of an entry that is not above it.
unfoldable pub entries_out_of_order :
    Option CommitCertificateEntryV1 → CommitCertificateEntryV1 → Bool
entries_out_of_order none commitment = false
entries_out_of_order (some previous) commitment =
    lt_bytes commitment.commitment_hash previous.commitment_hash
    || (eq_bytes previous.commitment_hash commitment.commitment_hash
        && not (lt_bytes previous.provider_address commitment.provider_address))

module _ (crypto : Crypto) where
  open crypto use {sha3_256}

  unfoldable pub commit_phase_snapshot_hash : ℕ → List CommitCertificateEntryV1 → Bytes
  commit_phase_snapshot_hash integer commitments = sha3_256 (
      append_string (text "primechain-commit-snapshot-v1")
      ++ (append_uint64 integer ++ append_list append_commit_certificate_entry commitments))

  unfoldable pub check_commitment : ℕ → CommitCertificateEntryV1 → Check
  check_commitment integer commitment =
      refuse_if
        (not (
          eq_bytes commitment.provider_address
            (address_from_protocol_public_key crypto commitment.public_key)))
        "embedded commitment address mismatch"
      >> refuse_if
          (not (
            verify_protocol_message_signature crypto commitment.public_key
              (composite_commit_signing_payload integer commitment.commitment_hash
                commitment.provider_address)
              commitment.signature))
          "invalid embedded commitment signature"

  unfoldable pub check_commitments :
      ℕ → Option CommitCertificateEntryV1 → List CommitCertificateEntryV1 → Check
  check_commitments integer previous [] = pass
  check_commitments integer previous (commitment ∷ commitments) =
      refuse_if (entries_out_of_order previous commitment) "embedded commitments are not canonical"
      >> (check_commitment integer commitment
          >> check_commitments integer (some commitment) commitments)

  unfoldable pub check_commit_vote : List Bytes → Bytes → SignedVoteV1 → Check
  check_commit_vote validator_set signing_payload vote =
      refuse_if (not (binary_search validator_set vote.validator_address))
        "commit-phase vote is outside validator set"
      >> (refuse_if
            (not (
              eq_bytes vote.validator_address
                (address_from_protocol_public_key crypto vote.public_key)))
            "commit-phase vote address mismatch"
          >> refuse_if
              (not (
                verify_protocol_message_signature crypto vote.public_key signing_payload
                  vote.signature))
              "invalid embedded commit-phase vote signature")

  unfoldable pub check_commit_votes :
      List Bytes → (Bytes → Bytes) → Bytes → List SignedVoteV1 → Check
  check_commit_votes validator_set payload previous_vote [] = pass
  check_commit_votes validator_set payload previous_vote (vote ∷ votes) =
      refuse_if (out_of_order previous_vote vote.validator_address)
        "commit-phase votes are not canonical"
      >> (check_commit_vote validator_set (payload vote.validator_address) vote
          >> check_commit_votes validator_set payload vote.validator_address votes)

  -- `commitments.front()`, which the certificate's check has refused to be missing.
  unfoldable pub check_winner : CompositeRecordV0 → List CommitCertificateEntryV1 → Check
  check_winner record' [] = pass
  check_winner record' (winner ∷ commitments) =
      refuse_if (not (eq_bytes winner.provider_address record'.proof.provider_address))
        "composite provider is not embedded commitment winner"
      >> packed_composite_reveal_matches_commitment crypto record'.integer record'.proof.d
          record'.proof.e record'.proof.provider_address record'.proof.signature
          winner.commitment_hash

  unfoldable pub check_certificate : CompositeRecordV0 → CommitPhaseCertificateV1 → Check
  check_certificate record' certificate =
      refuse_if (not (certificate.integer == record'.integer))
        "commit-phase certificate integer mismatch"
      >> (refuse_if (not (is_canonical_protocol_validator_set certificate.validator_set))
            "commit-phase validator set is not canonical"
          >> (refuse_if
                (is_empty certificate.commitments || ltb 1024 (length certificate.commitments))
                "invalid embedded commitment count"
              >> (check_commitments record'.integer none certificate.commitments
                  >> (refuse_if
                        (not (
                          eq_bytes certificate.snapshot_hash
                            (commit_phase_snapshot_hash record'.integer certificate.commitments)))
                        "commit-phase snapshot hash mismatch"
                      >> (refuse_if
                            (not (
                              has_quorum_vote_count (length certificate.votes)
                                (length certificate.validator_set)))
                            "commit-phase certificate does not meet validator quorum"
                          >> (check_commit_votes certificate.validator_set
                                (commit_phase_vote_signing_payload record'.integer
                                  certificate.snapshot_hash)
                                [] certificate.votes
                              >> check_winner record' certificate.commitments))))))

  -- The second test of the versions, 1 to 8, refuses none of those that pass the first.
  unfoldable pub verify_commit_phase_certificate : CompositeRecordV0 → Check
  verify_commit_phase_certificate record' =
      if record'.version == 0 || leb 9 record'.version
      then pass
      else check_certificate record' record'.commit_phase
