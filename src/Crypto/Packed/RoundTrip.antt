-- ===== src/Crypto/Packed/RoundTrip.antt =====
-- Packed composite reveals: what their verification reads is what was packed.
use primechain.Base.{
  ℕ, ◌+◌, ◌^◌, ◌<◌, ◌≡◌, sym, ◌∙◌, ◌++◌, length, take, drop, take-append, drop-append,
  drop-append_more, length-append, refl, arith, not, ◌==◌,
}
use primechain.Base.Text.{Bytes, eq_bytes}
use primechain.Codec.{le_bytes, append_uint64}
use primechain.Codec.Reads.{length-le_bytes, le_value-le_bytes}
use primechain.Base.Result.{Check, refuse_if, ◌>>◌}
use primechain.Crypto.{Crypto, address_from_protocol_public_key, composite_commitment}
use primechain.Crypto.Packed.{
  pack_composite_reveal_proof, packed_public_key, packed_nonce, check_protocol_message_signature,
  composite_reveal_signing_payload, verify_packed_composite_reveal_proof,
  packed_composite_reveal_matches_commitment,
}

-- The key, the nonce and the signature stand where they are read.
pack_composite_reveal_proof-reads :
    (crypto : Crypto) (public_key : Bytes) (nonce : ℕ) (signature : Bytes)
    → length public_key ≡ crypto.public_key_size
    → nonce < 2 ^ 64
    → (packed_public_key crypto (pack_composite_reveal_proof public_key nonce signature)
        ≡ public_key)
      × (packed_nonce crypto (pack_composite_reveal_proof public_key nonce signature) ≡ nonce)
      × (drop (crypto.public_key_size + 8) (pack_composite_reveal_proof public_key nonce signature)
          ≡ signature)
unfolding packed_public_key packed_nonce pack_composite_reveal_proof append_uint64
pack_composite_reveal_proof-reads crypto public_key nonce signature h fits =
    let body = le_bytes 8 nonce ++ signature in
    let head : take 8 body ≡ le_bytes 8 nonce =
      rw (length-le_bytes 8 nonce) at (take-append (le_bytes 8 nonce) signature) in
    let tail : drop 8 body ≡ signature =
      rw (length-le_bytes 8 nonce) at (drop-append (le_bytes 8 nonce) signature) in
    rw (sym h) (
      take-append public_key body,
      rw (drop-append public_key body, head) (le_value-le_bytes 8 nonce fits),
      drop-append_more public_key body 8 ∙ tail,
    )

-- What a packed reveal that has a key of the right length has to pass: a signature of the right length, of
-- its nonce among the rest, by the key of the provider's address.
abbrev pub check_reveal : Crypto → ℕ → ℕ → ℕ → Bytes → Bytes → ℕ → Bytes → Check
check_reveal crypto integer d e provider_address public_key nonce signature =
    refuse_if (not (length signature == crypto.signature_size))
      "invalid packed composite reveal proof size"
    >> (refuse_if
          (not (eq_bytes provider_address (address_from_protocol_public_key crypto public_key)))
          "composite reveal proof address mismatch"
        >> check_protocol_message_signature crypto public_key
            (composite_reveal_signing_payload integer d e nonce provider_address) signature)

pack_composite_reveal_proof-size :
    (crypto : Crypto) (public_key : Bytes) (nonce : ℕ) (signature : Bytes)
    → length public_key ≡ crypto.public_key_size
    → (length (pack_composite_reveal_proof public_key nonce signature)
        == crypto.public_key_size + 8 + crypto.signature_size)
      ≡ (length signature == crypto.signature_size)
unfolding pack_composite_reveal_proof append_uint64
pack_composite_reveal_proof-size crypto public_key nonce signature h = ground (
  arith,
  h,
  length-append public_key (le_bytes 8 nonce ++ signature),
  length-append (le_bytes 8 nonce) signature,
  length-le_bytes 8 nonce,
)

-- Of a packed composite reveal, with a key of the right length and a nonce that is a uint64, the verification
-- makes on every branch the checks of the key, the nonce and the signature that were packed, and the
-- commitment's match is that of the packed nonce.
pub verify_packed_composite_reveal_proof-pack :
    (crypto : Crypto) (public_key : Bytes) (nonce : ℕ) (signature : Bytes) (integer d e : ℕ)
    (provider_address expected_commitment : Bytes)
    → length public_key ≡ crypto.public_key_size
    → nonce < 2 ^ 64
    → let packed = pack_composite_reveal_proof public_key nonce signature in
      let checks = check_reveal crypto integer d e provider_address public_key nonce signature in
      (verify_packed_composite_reveal_proof crypto integer d e provider_address packed ≡ checks)
      × (packed_composite_reveal_matches_commitment crypto integer d e provider_address packed
            expected_commitment
          ≡ (checks
              >> refuse_if
                  (not (
                    eq_bytes
                      (composite_commitment crypto integer d e nonce provider_address)
                      expected_commitment))
                  "composite reveal does not match selected commitment"))
unfolding verify_packed_composite_reveal_proof packed_composite_reveal_matches_commitment
verify_packed_composite_reveal_proof-pack crypto public_key nonce signature integer d e
      provider_address expected_commitment h fits =
    let (key, number, signed) =
      pack_composite_reveal_proof-reads crypto public_key nonce signature h fits in
    let size = pack_composite_reveal_proof-size crypto public_key nonce signature h in
    (rw (size, key, number, signed) refl, rw (size, key, number, signed) refl)
