-- ===== src/Crypto/Packed.antt =====
-- Transactions' and proofs' signatures of src/crypto/signature.cpp: their payloads, and the proofs
-- that hold a public key, a nonce and a signature in one byte vector.
pub mod RoundTrip
use primechain.Base.{
  ℕ, ◌+◌, Bool, not, ◌||◌, List, [], ◌∷◌, ◌++◌, length, take, drop, concat_map, ◌==◌, if◌then◌else◌,
}
use primechain.Base.Text.{Bytes, text, eq_bytes}
use primechain.Base.Result.{Check, pass, refuse_if, ◌>>◌}
use primechain.Codec.{le_value, append_uint64, append_hash, append_string}
use primechain.Crypto.{Crypto, address_from_protocol_public_key, composite_commitment}

unfoldable pub transaction_signing_payload : Bytes → Bytes
transaction_signing_payload unsigned_transaction =
    append_string (text "primechain-transaction-signature-mldsa65-v2")
    ++ (append_uint64 (length unsigned_transaction) ++ unsigned_transaction)

unfoldable pub prime_proof_signing_payload : Bytes → ℕ → ℕ → List (ℕ × ℕ) → Bytes → Bytes
prime_proof_signing_payload previous_record_hash prime witness factors provider_address =
    append_string (text "primechain-prime-proof-signature-mldsa65-v2")
    ++ (append_hash previous_record_hash
        ++ (append_uint64 prime
            ++ (append_uint64 witness
                ++ (append_uint64 (length factors)
                    ++ (concat_map (λ factor. append_uint64 factor.0 ++ append_uint64 factor.1)
                          factors
                        ++ append_string provider_address)))))

unfoldable pub composite_reveal_signing_payload : ℕ → ℕ → ℕ → ℕ → Bytes → Bytes
composite_reveal_signing_payload integer d e nonce provider_address =
    append_string (text "primechain-composite-reveal-signature-mldsa65-v2")
    ++ (append_uint64 integer
        ++ (append_uint64 d
            ++ (append_uint64 e ++ (append_uint64 nonce ++ append_string provider_address))))

unfoldable pub pack_prime_proof_authentication : Bytes → Bytes → Bytes
pack_prime_proof_authentication public_key signature = public_key ++ signature

unfoldable pub pack_composite_reveal_proof : Bytes → ℕ → Bytes → Bytes
pack_composite_reveal_proof public_key nonce signature =
    public_key ++ (append_uint64 nonce ++ signature)

module _ (crypto : Crypto) where
  open crypto use {public_key_size, signature_size, mldsa_verify}

  -- verifyProtocolMessageSignature with its messages.
  unfoldable pub check_protocol_message_signature : Bytes → Bytes → Bytes → Check
  check_protocol_message_signature public_key message signature =
      refuse_if
        (not (length public_key == public_key_size) || not (length signature == signature_size))
        "invalid ML-DSA-65 public key or signature size"
      >> refuse_if (not (mldsa_verify signature message public_key)) "invalid ML-DSA-65 signature"

  unfoldable pub packed_public_key : Bytes → Bytes
  packed_public_key packed_proof = take public_key_size packed_proof

  unfoldable pub packed_nonce : Bytes → ℕ
  packed_nonce packed_proof = le_value (take 8 (drop public_key_size packed_proof))

  unfoldable pub verify_packed_prime_proof_authentication :
      Bytes → ℕ → ℕ → List (ℕ × ℕ) → Bytes → Bytes → Check
  verify_packed_prime_proof_authentication previous_record_hash prime witness factors
        provider_address packed_proof =
      refuse_if (not (length packed_proof == public_key_size + signature_size))
        "invalid packed prime proof authentication size"
      >> (refuse_if
            (not (
              eq_bytes provider_address
                (address_from_protocol_public_key crypto (packed_public_key packed_proof))))
            "prime proof provider address mismatch"
          >> check_protocol_message_signature (packed_public_key packed_proof)
              (prime_proof_signing_payload previous_record_hash prime witness factors
                provider_address)
              (drop public_key_size packed_proof))

  unfoldable pub verify_packed_composite_reveal_proof : ℕ → ℕ → ℕ → Bytes → Bytes → Check
  verify_packed_composite_reveal_proof integer d e provider_address packed_proof =
      refuse_if (not (length packed_proof == public_key_size + 8 + signature_size))
        "invalid packed composite reveal proof size"
      >> (refuse_if
            (not (
              eq_bytes provider_address
                (address_from_protocol_public_key crypto (packed_public_key packed_proof))))
            "composite reveal proof address mismatch"
          >> check_protocol_message_signature (packed_public_key packed_proof)
              (composite_reveal_signing_payload integer d e (packed_nonce packed_proof)
                provider_address)
              (drop (public_key_size + 8) packed_proof))

  unfoldable pub packed_composite_reveal_matches_commitment :
      ℕ → ℕ → ℕ → Bytes → Bytes → Bytes → Check
  packed_composite_reveal_matches_commitment integer d e provider_address packed_proof
        expected_commitment =
      verify_packed_composite_reveal_proof integer d e provider_address packed_proof
      >> refuse_if
          (not (
            eq_bytes
              (composite_commitment crypto integer d e (packed_nonce packed_proof) provider_address)
              expected_commitment))
          "composite reveal does not match selected commitment"
