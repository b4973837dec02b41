-- ===== src/Finalization/Development.antt =====
-- The development network's finalization: isDevelopmentAddress, developmentVoteSignature and
-- verifyDevelopmentFinalization.
use primechain.Base.{
  ℕ, Bool, false, not, ◌&&◌, ◌||◌, List, [], ◌∷◌, ◌++◌, length, take, all_of, leb, ltb,
  if◌then◌else◌,
}
use primechain.Base.Text.{Bytes, text, eq_bytes}
use primechain.Base.Result.{Check, pass, refuse_if, ◌>>◌}
use primechain.Codec.{append_uint64, append_hash, append_string}
use primechain.Crypto.{Crypto}
use primechain.Records.Types.{FinalizationProofV0, ValidatorVoteV0, development_finalization_rule}

abbrev pub development_vote_domain : Bytes
development_vote_domain = text "primechain-dev-vote-v0"

unfoldable pub is_development_address : Bytes → Bool
is_development_address address =
    if leb (length address) 7 || ltb 64 (length address)
    then false
    else if not (eq_bytes (take 7 address) (text "pcdev1_"))
    then false
    else all_of (λ ch. leb 33 ch && leb ch 126) address

-- Whether a std::set holds the address.
unfoldable pub contains : List Bytes → Bytes → Bool
contains [] address = false
contains (x ∷ xs) address = eq_bytes x address || contains xs address

module _ (crypto : Crypto) where
  open crypto use {sha3_256}

  unfoldable pub development_vote_signature : Bytes → Bytes → ℕ → Bytes
  development_vote_signature validator_address record_hash round = sha3_256 (
      append_string development_vote_domain
      ++ (append_string validator_address ++ (append_hash record_hash ++ append_uint64 round)))

  unfoldable pub check_development_votes : Bytes → List Bytes → List ValidatorVoteV0 → Check
  check_development_votes candidate_hash seen_validators [] = pass
  check_development_votes candidate_hash seen_validators (vote ∷ votes) =
      refuse_if (not (is_development_address vote.validator_address))
        "invalid development validator address"
      >> refuse_if (contains seen_validators vote.validator_address)
          "duplicate development validator vote"
      >> refuse_if (not (eq_bytes vote.record_hash candidate_hash))
          "validator vote record hash mismatch"
      >> refuse_if
          (not (
            eq_bytes vote.signature
              (development_vote_signature vote.validator_address vote.record_hash vote.round)))
          "invalid development validator signature"
      >> check_development_votes candidate_hash (vote.validator_address ∷ seen_validators) votes

  unfoldable pub verify_development_finalization : FinalizationProofV0 → Bytes → Check
  verify_development_finalization proof candidate_hash =
      refuse_if (not (eq_bytes proof.rule development_finalization_rule))
        "unsupported finalization rule"
      >> refuse_if (ltb (length proof.votes) 2 || ltb 3 (length proof.votes))
          "development finalization requires 2 or 3 votes"
      >> check_development_votes candidate_hash [] proof.votes
