-- ===== src/Records/Serialize.antt =====
-- serializeCompositeRecord, serializePrimeRecord and their variants without votes and without the
-- finalization section.
use primechain.Base.{ℕ, Bool, true, ◌&&◌, [], ◌++◌, leb, ltb, ◌==◌}
use primechain.Base.Text.{Bytes}
use primechain.Codec.{append_uint64, append_hash, append_if}
use primechain.Records.Types.{CompositeRecordV0, PrimeRecordV0}
use primechain.Records.Write.{
  composite_record_tag, prime_record_tag, append_transaction_batch, append_transaction_list,
  append_composite_proof, append_pratt_proof, append_composite_lottery_proof,
  append_finalization_proof, append_commit_phase_certificate, append_genesis_config,
  append_validator_epoch_transition, append_validator_endpoint_updates,
  append_validator_applications, append_validator_work_bindings, append_economic_policy_update,
}

-- `record.version >= 1 && record.version < 9`
unfoldable pub has_commit_phase : ℕ → Bool
has_commit_phase version = leb 1 version && ltb version 9

-- The sections of a composite record from the validator epoch to the lottery, and what follows.
unfoldable pub composite_metadata : CompositeRecordV0 → Bytes → Bytes
composite_metadata r tail =
    append_if (has_commit_phase r.version) (append_commit_phase_certificate r.commit_phase)
    ++ (append_if (leb 2 r.version) (append_validator_epoch_transition r.validator_epoch r.version)
        ++ (append_if (leb 3 r.version) (append_validator_endpoint_updates r.validator_endpoints)
            ++ (append_if (leb 4 r.version)
                  (append_economic_policy_update r.economic_policy r.version)
                ++ (append_if (leb 5 r.version)
                      (append_validator_applications r.validator_applications)
                    ++ (append_if (leb 6 r.version)
                          (append_validator_work_bindings r.validator_work_bindings)
                        ++ (append_if (leb 10 r.version)
                              (append_composite_lottery_proof r.composite_lottery)
                            ++ tail))))))

unfoldable pub composite_sections : CompositeRecordV0 → Bytes → Bytes
composite_sections r tail =
    append_uint64 composite_record_tag
    ++ (append_uint64 r.version
        ++ (append_uint64 r.height
            ++ (append_hash r.previous_record_hash
                ++ (append_uint64 r.integer
                    ++ (append_composite_proof r.proof
                        ++ (append_transaction_batch r.tx_batch
                            ++ (append_transaction_list r.transactions
                                ++ (append_hash r.state_root ++ composite_metadata r tail))))))))

unfoldable pub serialize_composite_record_internal : CompositeRecordV0 → Bool → Bytes
serialize_composite_record_internal r include_votes =
    composite_sections r (append_finalization_proof r.finalized_by include_votes)

unfoldable pub serialize_composite_record : CompositeRecordV0 → Bytes
serialize_composite_record r = serialize_composite_record_internal r true

unfoldable pub serialize_composite_record_without_finalization : CompositeRecordV0 → Bytes
serialize_composite_record_without_finalization r = composite_sections r []

unfoldable pub prime_metadata : PrimeRecordV0 → Bytes → Bytes
prime_metadata r tail =
    append_if (r.height == 0) (append_genesis_config r.genesis_config r.version)
    ++ (append_if (leb 2 r.version) (append_validator_epoch_transition r.validator_epoch r.version)
        ++ (append_if (leb 3 r.version) (append_validator_endpoint_updates r.validator_endpoints)
            ++ (append_if (leb 4 r.version)
                  (append_economic_policy_update r.economic_policy r.version)
                ++ (append_if (leb 5 r.version)
                      (append_validator_applications r.validator_applications)
                    ++ (append_if (leb 6 r.version)
                          (append_validator_work_bindings r.validator_work_bindings)
                        ++ tail)))))

unfoldable pub prime_sections : PrimeRecordV0 → Bytes → Bytes
prime_sections r tail =
    append_uint64 prime_record_tag
    ++ (append_uint64 r.version
        ++ (append_uint64 r.height
            ++ (append_hash r.previous_record_hash
                ++ (append_uint64 r.integer
                    ++ (append_pratt_proof r.proof
                        ++ (append_transaction_batch r.tx_batch
                            ++ (append_transaction_list r.transactions
                                ++ (append_hash r.state_root ++ prime_metadata r tail))))))))

unfoldable pub serialize_prime_record_internal : PrimeRecordV0 → Bool → Bytes
serialize_prime_record_internal r include_votes =
    prime_sections r (append_finalization_proof r.finalized_by include_votes)

unfoldable pub serialize_prime_record : PrimeRecordV0 → Bytes
serialize_prime_record r = serialize_prime_record_internal r true

unfoldable pub serialize_prime_record_without_finalization : PrimeRecordV0 → Bytes
serialize_prime_record_without_finalization r = prime_sections r []
