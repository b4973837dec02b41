-- ===== src/Crypto.antt =====
-- src/crypto/hash.cpp and the parts of src/crypto/signature.cpp that consensus calls. SHA3-256
-- (OpenSSL) and ML-DSA-65 (mldsa-native) are other projects' code: the record `Crypto` takes them
-- as functions, with the two sizes of the algorithm.
pub mod Payloads
pub mod Separation
pub mod Metadata
pub mod Packed
use primechain.Base.{
  ℕ, ◌+◌, ◌-◌, ◌/◌, ◌%◌, ◌≡◌, Bool, true, false, not, ◌&&◌, ◌||◌, List, [], ◌∷◌, ◌++◌, length, take,
  drop, all_of, leb, ltb, ◌==◌, if◌then◌else◌,
}
use primechain.Base.Text.{Bytes, text, eq_bytes}
use primechain.Codec.{append_uint64, append_string}

pub record Crypto : Type 0 where
  pub sha3_256 : Bytes → Bytes
  pub public_key_size : ℕ
  pub signature_size : ℕ
  -- signature, message, public key
  pub mldsa_verify : Bytes → Bytes → Bytes → Bool

hex_digit : ℕ → ℕ
hex_digit d = if ltb d 10 then 48 + d else 87 + d

unfoldable pub to_hex : Bytes → Bytes
unfolding hex_digit
to_hex [] = []
to_hex (byte ∷ hash) = hex_digit (byte / 16) ∷ (hex_digit (byte % 16) ∷ to_hex hash)

abbrev pub address_prefix : Bytes
address_prefix = text "pcpq1_"

is_hex_char : ℕ → Bool
is_hex_char ch = (leb 48 ch && leb ch 57) || (leb 97 ch && leb ch 102)

-- isProtocolSignatureAddress: the prefix and 40 lower-case hexadecimal digits.
unfoldable pub is_protocol_signature_address : Bytes → Bool
unfolding is_hex_char
is_protocol_signature_address address =
    if not (length address == 46) || not (eq_bytes (take 6 address) address_prefix)
    then false
    else all_of is_hex_char (drop 6 address)

module _ (crypto : Crypto) where
  open crypto use {sha3_256, public_key_size, signature_size, mldsa_verify}

  unfoldable pub address_from_protocol_public_key : Bytes → Bytes
  address_from_protocol_public_key public_key =
      address_prefix ++ take 40 (to_hex (sha3_256 public_key))

  -- verifyMessageSignature at ML-DSA-65; its error text is dropped by every caller modelled here.
  unfoldable pub verify_protocol_message_signature : Bytes → Bytes → Bytes → Bool
  verify_protocol_message_signature public_key message signature =
      if not (length public_key == public_key_size) || not (length signature == signature_size)
      then false
      else mldsa_verify signature message public_key

  unfoldable pub composite_commitment : ℕ → ℕ → ℕ → ℕ → Bytes → Bytes
  composite_commitment g d e nonce provider_address = sha3_256 (
      append_string (text "primechain-composite-commit-v1")
      ++ (append_uint64 g
          ++ (append_uint64 d
              ++ (append_uint64 e ++ (append_uint64 nonce ++ append_string provider_address)))))
