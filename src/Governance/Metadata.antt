-- ===== src/Governance/Metadata.antt =====
-- verifyGenesisConfig, verifyValidatorEndpointUpdates, verifyValidatorWorkBindings and
-- verifyValidatorApplications.
use primechain.Base.{
  ℕ, Bool, false, not, ◌&&◌, ◌||◌, Option, none, some, List, [], ◌∷◌, length, is_empty, all_of, leb,
  ltb, ◌==◌, if◌then◌else◌,
}
use primechain.Base.Text.{Bytes, eq_bytes, lt_bytes}
use primechain.Base.Result.{Check, pass, refuse_if, ◌>>◌}
use primechain.Crypto.{
  Crypto, is_protocol_signature_address, address_from_protocol_public_key,
  verify_protocol_message_signature,
}
use primechain.Crypto.Metadata.{
  validator_endpoint_signing_payload, validator_application_signing_payload,
  validator_work_binding_miner_signing_payload,
}
use primechain.Records.Types.{
  PrimeRecordV0, GenesisConfigV1, ValidatorEndpointUpdateV1, ValidatorApplicationV1,
  ValidatorWorkBindingV1,
}
use primechain.Records.Write.{genesis_message_record_version}
use primechain.Finalization.Quorum.{
  is_canonical_protocol_validator_set, binary_search, out_of_order,
}

unfoldable pub check_anchored_genesis : ℕ → GenesisConfigV1 → Check
check_anchored_genesis version config =
    refuse_if (not (version == 1) && ltb version genesis_message_record_version)
      "unsupported genesis record version"
    >> (refuse_if ((version == 1) && not (is_empty config.genesis_message))
          "legacy anchored genesis cannot contain a genesis message"
        >> (refuse_if
              (leb genesis_message_record_version version && is_empty config.genesis_message)
              "genesis message is required"
            >> refuse_if (not (is_canonical_protocol_validator_set config.validator_set))
                "genesis validator set must contain canonical validator addresses"))

unfoldable pub verify_genesis_config : PrimeRecordV0 → Check
verify_genesis_config record' =
    if not (record'.height == 0)
    then refuse_if (not (is_empty record'.genesis_config.validator_set))
        "genesis configuration is only valid at height zero"
    else if record'.version == 0
    then refuse_if (not (is_empty record'.genesis_config.validator_set))
        "legacy genesis cannot contain validator configuration"
    else check_anchored_genesis record'.version record'.genesis_config

-- validValidatorEndpointHost
unfoldable pub valid_validator_endpoint_host : Bytes → Bool
valid_validator_endpoint_host host =
    if is_empty host || ltb 253 (length host)
    then false
    else all_of (λ ch. ltb 32 ch && ltb ch 127) host

unfoldable pub invalid_endpoint : Bytes → ℕ → Bool
invalid_endpoint host port =
    not (valid_validator_endpoint_host host) || ((port == 0) || ltb 65535 port)

-- `has_previous && previous_key >= key` on pairs of addresses.
unfoldable pub bindings_out_of_order : Option ValidatorWorkBindingV1 → ValidatorWorkBindingV1 → Bool
bindings_out_of_order none binding = false
bindings_out_of_order (some previous) binding = not (
    lt_bytes previous.candidate_address binding.candidate_address
    || (eq_bytes previous.candidate_address binding.candidate_address
        && lt_bytes previous.miner_address binding.miner_address))

module _ (crypto : Crypto) where
  unfoldable pub check_endpoint_update : List Bytes → Bytes → ℕ → ValidatorEndpointUpdateV1 → Check
  check_endpoint_update current_validator_set previous_record_hash record_integer update =
      refuse_if (not (binary_search current_validator_set update.validator_address))
        "validator endpoint update is outside current set"
      >> (refuse_if (invalid_endpoint update.host update.port) "invalid validator endpoint"
          >> (refuse_if (ltb update.effective_integer record_integer)
                "validator endpoint effective integer is stale"
              >> (refuse_if
                    (not (
                      eq_bytes update.validator_address
                        (address_from_protocol_public_key crypto update.public_key)))
                    "validator endpoint address mismatch"
                  >> refuse_if
                      (not (
                        verify_protocol_message_signature crypto update.public_key
                          (validator_endpoint_signing_payload previous_record_hash record_integer
                            update.validator_address update.host update.port
                            update.effective_integer update.sequence)
                          update.signature))
                      "invalid validator endpoint signature")))

  unfoldable pub check_endpoint_updates :
      List Bytes → Bytes → ℕ → Bytes → List ValidatorEndpointUpdateV1 → Check
  check_endpoint_updates current_validator_set previous_record_hash record_integer
        previous_validator [] =
      pass
  check_endpoint_updates current_validator_set previous_record_hash record_integer
        previous_validator (update ∷ updates) =
      refuse_if (out_of_order previous_validator update.validator_address)
        "validator endpoint updates are not canonical"
      >> (check_endpoint_update current_validator_set previous_record_hash record_integer update
          >> check_endpoint_updates current_validator_set previous_record_hash record_integer
              update.validator_address updates)

  unfoldable pub verify_validator_endpoint_updates :
      List ValidatorEndpointUpdateV1 → List Bytes → Bytes → ℕ → Check
  verify_validator_endpoint_updates updates current_validator_set previous_record_hash
        record_integer =
      check_endpoint_updates current_validator_set previous_record_hash record_integer [] updates

  unfoldable pub check_work_binding : Bytes → ℕ → ValidatorWorkBindingV1 → Check
  check_work_binding previous_record_hash record_integer binding =
      refuse_if
        (not (is_protocol_signature_address binding.candidate_address)
          || (not (is_protocol_signature_address binding.miner_address)
              || (not (
                    eq_bytes binding.miner_address
                      (address_from_protocol_public_key crypto binding.miner_public_key))
                  || not (binding.record_integer == record_integer))))
        "validator work binding address or record mismatch"
      >> refuse_if
          (not (
            verify_protocol_message_signature crypto binding.miner_public_key
              (validator_work_binding_miner_signing_payload previous_record_hash record_integer
                binding.candidate_address binding.miner_address binding.sequence)
              binding.miner_signature))
          "invalid validator work binding miner signature"

  unfoldable pub check_work_bindings :
      Bytes → ℕ → Option ValidatorWorkBindingV1 → List ValidatorWorkBindingV1 → Check
  check_work_bindings previous_record_hash record_integer previous [] = pass
  check_work_bindings previous_record_hash record_integer previous (binding ∷ bindings) =
      refuse_if (bindings_out_of_order previous binding) "validator work bindings are not canonical"
      >> (check_work_binding previous_record_hash record_integer binding
          >> check_work_bindings previous_record_hash record_integer (some binding) bindings)

  unfoldable pub verify_validator_work_bindings : List ValidatorWorkBindingV1 → Bytes → ℕ → Check
  verify_validator_work_bindings bindings previous_record_hash record_integer =
      check_work_bindings previous_record_hash record_integer none bindings

  unfoldable pub check_application : Bytes → ℕ → ValidatorApplicationV1 → Check
  check_application previous_record_hash record_integer application =
      refuse_if
        (not (is_protocol_signature_address application.candidate_address)
          || not (
              eq_bytes application.candidate_address
                (address_from_protocol_public_key crypto application.public_key)))
        "validator application address mismatch"
      >> (refuse_if
            (invalid_endpoint application.host application.port
              || not (application.record_integer == record_integer))
            "validator application does not match record metadata"
          >> refuse_if
              (not (
                verify_protocol_message_signature crypto application.public_key
                  (validator_application_signing_payload previous_record_hash record_integer
                    application.candidate_address application.host application.port
                    application.sequence application.observed_successful application.observed_total)
                  application.signature))
              "invalid validator application signature")

  unfoldable pub check_applications : Bytes → ℕ → Bytes → List ValidatorApplicationV1 → Check
  check_applications previous_record_hash record_integer previous_candidate [] = pass
  check_applications previous_record_hash record_integer previous_candidate
        (application ∷ applications) =
      refuse_if (out_of_order previous_candidate application.candidate_address)
        "validator applications are not canonical"
      >> (check_application previous_record_hash record_integer application
          >> check_applications previous_record_hash record_integer application.candidate_address
              applications)

  unfoldable pub verify_validator_applications : List ValidatorApplicationV1 → Bytes → ℕ → Check
  verify_validator_applications applications previous_record_hash record_integer =
      check_applications previous_record_hash record_integer [] applications
