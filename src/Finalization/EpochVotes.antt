-- ===== src/Finalization/EpochVotes.antt =====
-- What verifyValidatorEpochTransition accepts.
use Prim.Native.String.{String}
use primechain.Base.{
  not, ◌==◌, ℕ, ◌+◌, ◌%◌, ◌^◌, ◌≤◌, ◌≡◌, true, false, List, [], ◌∷◌, map, length, is_empty, All,
  All-at, arith,
}
use mathlib.Core.List.{Memᴰ}
use primechain.Base.Text.{Bytes, eq_bytes→eq}
use primechain.Base.Sublists.{Ascending}
use primechain.Base.Result.{pass, refuse_if, both_pass, refuse_if-pass, refuse_unless-pass}
use primechain.Crypto.{Crypto, address_from_protocol_public_key, verify_protocol_message_signature}
use primechain.Records.Types.{ValidatorEpochTransitionV1, SignedVoteV1}
use primechain.Finalization.Quorum.{
  required_validator_quorum, has_quorum_vote_count, is_canonical_protocol_validator_set,
}
use primechain.Finalization.Votes.{binary_search-Mem, above_previous}
use primechain.Finalization.Safety.{canonical_set}
use primechain.Finalization.Epoch.{
  is_absent_transition, anchor_integer, check_epoch_vote, check_epoch_votes, epoch_payload,
  verify_present_transition, verify_validator_epoch_transition,
}

-- A vote of a member of the set, whose key signed the payload for its address.
pub record GoodEpochVote (crypto : Crypto) (validator_set : List Bytes) (payload : Bytes → Bytes)
    (vote : SignedVoteV1) : Type 0 where
  pub member : Memᴰ vote.validator_address validator_set
  pub own_key : vote.validator_address ≡ address_from_protocol_public_key crypto vote.public_key
  pub signed :
      verify_protocol_message_signature crypto vote.public_key
        (payload vote.validator_address)
        vote.signature
      ≡ true

-- The next set is canonical and takes over at the next integer, as the next epoch, by a quorum of the current set.
pub record Handover (crypto : Crypto) (transition : ValidatorEpochTransitionV1)
    (current_validator_set : List Bytes) (current_epoch : ℕ) (previous_record_hash : Bytes)
    (record_integer : ℕ) : Type 0 where
  pub next_epoch : transition.epoch ≡ (current_epoch + 1) % 2 ^ 64
  pub next_integer : transition.activation_integer ≡ (record_integer + 1) % 2 ^ 64
  pub anchored : anchor_integer transition record_integer ≡ record_integer
  pub next_set : is_canonical_protocol_validator_set transition.next_validator_set ≡ true
  pub quorum : required_validator_quorum (length current_validator_set) ≤ length transition.votes
  pub ascending : Ascending [] (map (λ vote. vote.validator_address) transition.votes)
  pub good :
      All
        (GoodEpochVote crypto current_validator_set
          (epoch_payload crypto transition previous_record_hash record_integer))
        transition.votes

module _ (crypto : Crypto) (validator_set : List Bytes) (payload : Bytes → Bytes) where
  check_epoch_vote-GoodEpochVote :
      (vote : SignedVoteV1)
      → check_epoch_vote crypto validator_set (payload vote.validator_address) vote ≡ pass
      → GoodEpochVote crypto validator_set payload vote
  unfolding check_epoch_vote
  check_epoch_vote-GoodEpochVote vote h =
      let (in_set, others) = both_pass _ _ h in
      let (address, signature) = both_pass _ _ others in
      record {
        member =
            binary_search-Mem validator_set vote.validator_address (refuse_unless-pass _ _ in_set);
        own_key =
            eq_bytes→eq vote.validator_address
              (address_from_protocol_public_key crypto vote.public_key)
              (refuse_unless-pass _ _ address);
        signed = refuse_unless-pass _ _ signature;
      }

  check_epoch_votes-good :
      (previous : Bytes) (votes : List SignedVoteV1)
      → All (λ address. is_empty address ≡ false) validator_set
      → check_epoch_votes crypto validator_set payload previous votes ≡ pass
      → All (GoodEpochVote crypto validator_set payload) votes
        × Ascending previous (map (λ vote. vote.validator_address) votes)
  unfolding check_epoch_votes
  check_epoch_votes-good previous [] nonempty h = (tt, tt)
  check_epoch_votes-good previous (vote ∷ votes) nonempty h =
      let (order, others) = both_pass _ _ h in
      let (this, rest) = both_pass _ _ others in
      let good = check_epoch_vote-GoodEpochVote vote this in
      let (goods, ascending) = check_epoch_votes-good vote.validator_address votes nonempty rest in
      let named =
        All-at (λ address. is_empty address ≡ false) validator_set nonempty vote.validator_address
          good.member in
      (
        (good, goods),
        (
          above_previous previous vote.validator_address named (refuse_if-pass _ _ order),
          ascending,
        ),
      )

same_number : (a b : ℕ) (e : String) → refuse_if (not (a == b)) e ≡ pass → a ≡ b
same_number a b e h = let same = refuse_unless-pass (a == b) e h in ground arith

quorum_reached :
    (votes validators : ℕ)
    → has_quorum_vote_count votes validators ≡ true
    → required_validator_quorum validators ≤ votes
unfolding has_quorum_vote_count
quorum_reached votes validators h = ground arith

module _ (crypto : Crypto) (transition : ValidatorEpochTransitionV1)
    (current_validator_set : List Bytes) (current_epoch : ℕ) (previous_record_hash : Bytes)
    (record_integer : ℕ) where
  present-Handover :
      verify_present_transition crypto transition current_validator_set current_epoch
          previous_record_hash record_integer
        ≡ pass
      → Handover crypto transition current_validator_set current_epoch previous_record_hash
          record_integer
  unfolding verify_present_transition
  present-Handover h =
      let (canonical, after_canonical) = both_pass _ _ h in
      let (epoch, after_epoch) = both_pass _ _ after_canonical in
      let (anchor, after_anchor) = both_pass _ _ after_epoch in
      let (activation, after_activation) = both_pass _ _ after_anchor in
      let (next, after_next) = both_pass _ _ after_activation in
      let (quorum, votes) = both_pass _ _ after_next in
      let (_, named) = canonical_set current_validator_set (refuse_unless-pass _ _ canonical) in
      let (good, ascending) =
        check_epoch_votes-good crypto current_validator_set
          (epoch_payload crypto transition previous_record_hash record_integer) [] transition.votes
          named votes in
      record {
        next_epoch = same_number _ _ _ epoch;
        next_integer = same_number _ _ _ activation;
        anchored = same_number _ _ _ anchor;
        next_set = refuse_unless-pass _ _ next;
        quorum = quorum_reached _ _ (refuse_unless-pass _ _ quorum);
        ascending = ascending;
        good = good;
      }

  -- An accepted transition that is not the absent one hands over at the next integer, as the next
  -- epoch, to a canonical set for which a quorum of the current set signed.
  pub verify_validator_epoch_transition-Handover :
      is_absent_transition transition ≡ false
      → verify_validator_epoch_transition crypto transition current_validator_set current_epoch
          previous_record_hash record_integer
        ≡ pass
      → Handover crypto transition current_validator_set current_epoch previous_record_hash
          record_integer
  unfolding verify_validator_epoch_transition
  verify_validator_epoch_transition-Handover present h = present-Handover (rw present at h)
