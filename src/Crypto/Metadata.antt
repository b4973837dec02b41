-- ===== src/Crypto/Metadata.antt =====
-- The signing payloads of src/crypto/signature.cpp for validator metadata and the lottery.
use primechain.Base.{ℕ, ◌++◌}
use primechain.Base.Text.{Bytes, text}
use primechain.Codec.{append_uint64, append_hash, append_string}

unfoldable pub commit_phase_timeout_signing_payload : Bytes → ℕ → ℕ → ℕ → Bytes → Bytes
commit_phase_timeout_signing_payload previous_record_hash integer current_round new_round
      validator_address =
    append_string (text "primechain-commit-phase-timeout-mldsa65-v2")
    ++ (append_hash previous_record_hash
        ++ (append_uint64 integer
            ++ (append_uint64 current_round
                ++ (append_uint64 new_round ++ append_string validator_address))))

unfoldable pub validator_endpoint_signing_payload : Bytes → ℕ → Bytes → Bytes → ℕ → ℕ → ℕ → Bytes
validator_endpoint_signing_payload previous_record_hash record_integer validator_address host port
      effective_integer sequence =
    append_string (text "primechain-validator-endpoint-mldsa65-v1")
    ++ (append_hash previous_record_hash
        ++ (append_uint64 record_integer
            ++ (append_string validator_address
                ++ (append_string host
                    ++ (append_uint64 port
                        ++ (append_uint64 effective_integer ++ append_uint64 sequence))))))

unfoldable pub validator_application_signing_payload :
    Bytes → ℕ → Bytes → Bytes → ℕ → ℕ → ℕ → ℕ → Bytes
validator_application_signing_payload previous_record_hash record_integer candidate_address host
      port sequence observed_successful observed_total =
    append_string (text "primechain-validator-application-mldsa65-v1")
    ++ (append_hash previous_record_hash
        ++ (append_uint64 record_integer
            ++ (append_string candidate_address
                ++ (append_string host
                    ++ (append_uint64 port
                        ++ (append_uint64 sequence
                            ++ (append_uint64 observed_successful
                                ++ append_uint64 observed_total)))))))

unfoldable pub validator_work_binding_miner_signing_payload : Bytes → ℕ → Bytes → Bytes → ℕ → Bytes
validator_work_binding_miner_signing_payload previous_record_hash record_integer candidate_address
      miner_address sequence =
    append_string (text "primechain-validator-work-binding-miner-mldsa65-v1")
    ++ (append_hash previous_record_hash
        ++ (append_uint64 record_integer
            ++ (append_string candidate_address
                ++ (append_string miner_address ++ append_uint64 sequence))))

unfoldable pub composite_lottery_win_signing_payload : Bytes → ℕ → Bytes → ℕ → ℕ → Bytes → Bytes
composite_lottery_win_signing_payload previous_record_hash integer subject_hash round win_bps
      assigned_validator =
    append_string (text "primechain-composite-lottery-win-mldsa65-v1")
    ++ (append_hash previous_record_hash
        ++ (append_uint64 integer
            ++ (append_hash subject_hash
                ++ (append_uint64 round
                    ++ (append_uint64 win_bps ++ append_string assigned_validator)))))
