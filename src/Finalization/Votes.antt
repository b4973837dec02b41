-- ===== src/Finalization/Votes.antt =====
-- What the loops over sorted votes accept.
use primechain.Base.{
  ℕ, ◌≡◌, refl, true, false, List, [], ◌∷◌, map, All, All-at, is_empty, inl, inr, Bool-cases, arith,
}
use mathlib.Core.List.{Memᴰ}
use primechain.Base.Text.{Bytes, eq_bytes→eq, lt_bytes, lt_bytes_total}
use primechain.Base.Result.{
  pass, both_pass, refuse_if-pass, refuse_unless-pass, refuse_unless_both-pass,
}
use primechain.Base.Sublists.{Ascending}
use primechain.Crypto.{Crypto, address_from_protocol_public_key, verify_protocol_message_signature}
use primechain.Crypto.Payloads.{record_finalization_vote_signing_payload}
use primechain.Records.Types.{ValidatorVoteV0}
use primechain.Finalization.Quorum.{binary_search, out_of_order}
use primechain.Finalization.Verify.{check_vote, check_votes}

-- What the search finds is in the list, sorted or not.
pub binary_search-Mem :
    (xs : List Bytes) (value : Bytes) → binary_search xs value ≡ true → Memᴰ value xs
unfolding binary_search
binary_search-Mem [] value h = absurd (cc h)
binary_search-Mem (x ∷ xs) value h = elim (Bool-cases (lt_bytes x value)) [
  | inl below ↦ Memᴰ.tail (binary_search-Mem xs value (rw below at h))
  | inr above ↦ Memᴰ.head (lt_bytes_total value x (ground arith) above)
]

pub above_previous :
    (previous address : Bytes)
    → is_empty address ≡ false
    → out_of_order previous address ≡ false
    → lt_bytes previous address ≡ true
unfolding out_of_order lt_bytes
above_previous [] [] named h = absurd (cc named)
above_previous [] (x ∷ xs) named h = refl
above_previous (y ∷ ys) address named h = ground arith

-- A vote of a member of the set for the candidate, signed with the key of its address.
pub record GoodVote (crypto : Crypto) (candidate_hash : Bytes) (validator_set : List Bytes)
    (round : ℕ) (vote : ValidatorVoteV0) : Type 0 where
  pub member : Memᴰ vote.validator_address validator_set
  pub own_key : vote.validator_address ≡ address_from_protocol_public_key crypto vote.public_key
  pub for_candidate : vote.record_hash ≡ candidate_hash
  pub in_round : vote.round ≡ round
  pub signed :
      verify_protocol_message_signature crypto vote.public_key
        (record_finalization_vote_signing_payload vote.record_hash vote.round
          vote.validator_address)
        vote.signature
      ≡ true

module _ (crypto : Crypto) (candidate_hash : Bytes) (validator_set : List Bytes) (round : ℕ) where
  check_vote-GoodVote :
      (vote : ValidatorVoteV0)
      → check_vote crypto candidate_hash validator_set round vote ≡ pass
      → GoodVote crypto candidate_hash validator_set round vote
  unfolding check_vote
  check_vote-GoodVote vote h =
      let (first_three, signature) = both_pass _ _ h in
      let (first_two, target) = both_pass _ _ first_three in
      let (in_set, address) = both_pass _ _ first_two in
      let (same_hash, same_round) = refuse_unless_both-pass _ _ _ target in
      record {
        member =
            binary_search-Mem validator_set vote.validator_address (refuse_unless-pass _ _ in_set);
        own_key =
            eq_bytes→eq vote.validator_address
              (address_from_protocol_public_key crypto vote.public_key)
              (refuse_unless-pass _ _ address);
        for_candidate = eq_bytes→eq vote.record_hash candidate_hash same_hash;
        in_round = ground (arith, same_round);
        signed = refuse_unless-pass _ _ signature;
      }

  -- Votes that the loop accepts are good ones, with ascending addresses.
  pub check_votes-good :
      (previous : Bytes) (votes : List ValidatorVoteV0)
      → All (λ address. is_empty address ≡ false) validator_set
      → check_votes crypto candidate_hash validator_set round previous votes ≡ pass
      → All (GoodVote crypto candidate_hash validator_set round) votes
        × Ascending previous (map (λ vote. vote.validator_address) votes)
  unfolding check_votes
  check_votes-good previous [] nonempty h = (tt, tt)
  check_votes-good previous (vote ∷ votes) nonempty h =
      let (order, others) = both_pass _ _ h in
      let (this, rest) = both_pass _ _ others in
      let good = check_vote-GoodVote vote this in
      let (goods, ascending) = check_votes-good vote.validator_address votes nonempty rest in
      let named =
        All-at (λ address. is_empty address ≡ false) validator_set nonempty vote.validator_address
          good.member in
      (
        (good, goods),
        (
          above_previous previous vote.validator_address named (refuse_if-pass _ _ order),
          ascending,
        ),
      )
