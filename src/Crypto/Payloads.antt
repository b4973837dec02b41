-- ===== src/Crypto/Payloads.antt =====
-- The signing payloads of src/crypto/signature.cpp.
use primechain.Base.{ℕ, List, ◌++◌}
use primechain.Base.Text.{Bytes, text}
use primechain.Codec.{append_uint64, append_hash, append_string, append_bytes, append_list}

unfoldable pub composite_commit_signing_payload : ℕ → Bytes → Bytes → Bytes
composite_commit_signing_payload integer commitment_hash provider_address =
    append_string (text "primechain-composite-commit-signature-mldsa65-v2")
    ++ (append_uint64 integer ++ (append_hash commitment_hash ++ append_string provider_address))

unfoldable pub commit_phase_vote_signing_payload : ℕ → Bytes → Bytes → Bytes
commit_phase_vote_signing_payload integer snapshot_hash validator_address =
    append_string (text "primechain-commit-phase-vote-mldsa65-v2")
    ++ (append_uint64 integer ++ (append_hash snapshot_hash ++ append_string validator_address))

unfoldable pub validator_epoch_vote_signing_payload : Bytes → ℕ → ℕ → ℕ → List Bytes → Bytes → Bytes
validator_epoch_vote_signing_payload previous_record_hash record_integer epoch activation_integer
      next_validator_set validator_address =
    append_string (text "primechain-validator-epoch-mldsa65-v2")
    ++ (append_hash previous_record_hash
        ++ (append_uint64 record_integer
            ++ (append_uint64 epoch
                ++ (append_uint64 activation_integer
                    ++ (append_list append_string next_validator_set
                        ++ append_string validator_address)))))

unfoldable pub economic_policy_signing_payload : Bytes → ℕ → ℕ → ℕ → ℕ → ℕ → Bytes → Bytes
economic_policy_signing_payload previous_record_hash record_integer fee reserve effective_integer
      sequence validator_address =
    append_string (text "primechain-economic-policy-mldsa65-v1")
    ++ (append_hash previous_record_hash
        ++ (append_uint64 record_integer
            ++ (append_uint64 fee
                ++ (append_uint64 reserve
                    ++ (append_uint64 effective_integer
                        ++ (append_uint64 sequence ++ append_string validator_address))))))

unfoldable pub record_finalization_vote_signing_payload : Bytes → ℕ → Bytes → Bytes
record_finalization_vote_signing_payload candidate_hash round validator_address =
    append_string (text "primechain-record-finalization-mldsa65-v2")
    ++ (append_hash candidate_hash ++ (append_uint64 round ++ append_string validator_address))

unfoldable pub round_change_vote_signing_payload : Bytes → ℕ → ℕ → Bytes → Bytes
round_change_vote_signing_payload previous_record_hash integer new_round validator_address =
    append_string (text "primechain-finalization-round-change-mldsa65-v2")
    ++ (append_hash previous_record_hash
        ++ (append_uint64 integer ++ (append_uint64 new_round ++ append_string validator_address)))

unfoldable pub locked_round_change_vote_signing_payload :
    Bytes → ℕ → ℕ → ℕ → Bytes → Bytes → Bytes → Bytes → Bytes
locked_round_change_vote_signing_payload previous_record_hash integer new_round locked_round kind
      hash payload validator_address =
    append_string (text "primechain-finalization-round-change-mldsa65-locks-v4")
    ++ (append_hash previous_record_hash
        ++ (append_uint64 integer
            ++ (append_uint64 new_round
                ++ (append_uint64 locked_round
                    ++ (append_string kind
                        ++ (append_hash hash
                            ++ (append_bytes payload ++ append_string validator_address)))))))
