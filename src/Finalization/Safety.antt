-- ===== src/Finalization/Safety.antt =====
-- What an accepted finalization of a validator set proves, and that two of them share a voter.
use primechain.Base.{
  ℕ, ◌≤◌, ◌<◌, ◌≡◌, refl, sym, ◌∙◌, true, false, List, [], ◌∷◌, map, length, length-map, All,
  All-at, All-map, All-map', Memᴰ-map, all_of-All, is_empty, inl, inr, Bool-cases, if◌then◌else◌,
  arith,
}
use mathlib.Core.List.{Memᴰ}
use primechain.Base.Text.{Bytes, eq_bytes, eq_bytes_refl, lt_bytes, lt_bytes_total}
use primechain.Base.Sublists.{Sub, Ascending, Ascending-Sub, Sub-common}
use primechain.Base.Result.{Check, pass, bind-ok, both_pass, refuse_unless_both-pass}
use primechain.Crypto.{Crypto, is_protocol_signature_address}
use primechain.Records.Types.{
  FinalizationProofV0, ValidatorVoteV0, RoundChangeVoteV1, locked_round_finalization_rule,
}
use primechain.Finalization.Quorum.{
  required_validator_quorum, has_quorum_vote_count, is_canonical_protocol_validator_set, is_sorted,
  no_adjacent_equal, quorums_overlap,
}
use primechain.Finalization.Locks.{check_locks, check_locks-highest}
use primechain.Finalization.RoundChange.{verify_round_change_certificate}
use primechain.Finalization.Verify.{
  verify_record_finalization, verify_quorum_finalization, verify_votes,
}
use primechain.Finalization.Votes.{GoodVote, check_votes-good}

address_named :
    (address : Bytes) → is_protocol_signature_address address ≡ true → is_empty address ≡ false
unfolding is_protocol_signature_address
address_named [] h = absurd (cc h)
address_named (x ∷ xs) h = refl

sorted-Ascending :
    (low : Bytes) (xs : List Bytes)
    → is_sorted (low ∷ xs) ≡ true
    → no_adjacent_equal (low ∷ xs) ≡ true
    → Ascending low xs
unfolding is_sorted no_adjacent_equal
sorted-Ascending low [] h k = tt
sorted-Ascending low (x ∷ xs) h k = (
  elim (Bool-cases (lt_bytes low x)) [
    | inl below ↦ below
    | inr not_below ↦
        let same : low ≡ x = lt_bytes_total low x not_below (ground arith) in
        absurd (cc (rw (sym same, eq_bytes_refl low) at k))
  ],
  sorted-Ascending x xs (ground arith) (ground arith),
)

above_empty : (x : Bytes) → is_empty x ≡ false → lt_bytes [] x ≡ true
unfolding lt_bytes
above_empty [] h = absurd (cc h)
above_empty (y ∷ ys) h = refl

-- A canonical set is strictly ascending and has no empty address.
pub canonical_set :
    (validator_set : List Bytes)
    → is_canonical_protocol_validator_set validator_set ≡ true
    → Ascending [] validator_set × All (λ address. is_empty address ≡ false) validator_set
unfolding is_canonical_protocol_validator_set
canonical_set [] h = (tt, tt)
canonical_set (x ∷ xs) h =
    let formed = all_of-All is_protocol_signature_address (x ∷ xs) (ground arith) in
    let named = All-map address_named (x ∷ xs) formed in
    ((above_empty x named.0, sorted-Ascending x xs (ground arith) (ground arith)), named)

-- What the checks establish: the certified round, a quorum of good votes in ascending order, and the lock rule.
pub record Finalized (crypto : Crypto) (candidate_hash : Bytes) (validator_set : List Bytes)
    (proof : FinalizationProofV0) : Type 0 where
  pub round : ℕ
  pub quorum : required_validator_quorum (length validator_set) ≤ length proof.votes
  pub good : All (GoodVote crypto candidate_hash validator_set round) proof.votes
  pub ascending : Ascending [] (map (λ vote. vote.validator_address) proof.votes)
  pub set_ascending : Ascending [] validator_set
  pub locks :
      proof.rule ≡ locked_round_finalization_rule
      → check_locks candidate_hash proof.round_changes ≡ pass

if_locked :
    (rule : Bytes) (c : Check)
    → (if eq_bytes rule locked_round_finalization_rule then c else pass) ≡ pass
    → rule ≡ locked_round_finalization_rule
    → c ≡ pass
if_locked rule c h e =
    let locked : eq_bytes rule locked_round_finalization_rule ≡ true =
      rw e (eq_bytes_refl locked_round_finalization_rule) in
    rw locked at h

module _ (crypto : Crypto) (proof : FinalizationProofV0)
    (candidate_hash previous_record_hash : Bytes) (integer : ℕ) (validator_set : List Bytes) where
  certified_Finalized :
      (round : ℕ)
      → is_canonical_protocol_validator_set validator_set ≡ true
      → has_quorum_vote_count (length proof.votes) (length validator_set) ≡ true
      → verify_votes crypto proof candidate_hash validator_set round ≡ pass
      → Finalized crypto candidate_hash validator_set proof
  unfolding verify_votes has_quorum_vote_count
  certified_Finalized round canonical quorum h =
      let enough : required_validator_quorum (length validator_set) ≤ length proof.votes =
        ground arith in
      let (same_round, others) = both_pass _ _ h in
      let (lock, votes) = both_pass _ _ others in
      let (set_ascending, named) = canonical_set validator_set canonical in
      let (good, ascending) =
        check_votes-good crypto candidate_hash validator_set round [] proof.votes named votes in
      record {
        round = round;
        quorum = enough;
        good = good;
        ascending = ascending;
        set_ascending = set_ascending;
        locks = if_locked proof.rule (check_locks candidate_hash proof.round_changes) lock;
      }

  -- An accepted finalization of a nonempty set has a quorum of members of the set, in ascending
  -- order, that signed the candidate in one round, and the lock rule holds under the lock rule's name.
  pub verify_record_finalization-Finalized :
      is_empty validator_set ≡ false
      → verify_record_finalization crypto proof candidate_hash previous_record_hash integer
          validator_set
        ≡ pass
      → Finalized crypto candidate_hash validator_set proof
  unfolding verify_record_finalization verify_quorum_finalization
  verify_record_finalization-Finalized set h =
      let quorum_checks : verify_quorum_finalization crypto proof candidate_hash
            previous_record_hash integer validator_set
          ≡ pass =
        rw set at h in
      let (rule, others) = both_pass _ _ quorum_checks in
      let (checks, rest) = both_pass _ _ others in
      let (canonical, quorum) = refuse_unless_both-pass _ _ _ checks in
      let (round, certified, voted) =
        bind-ok
          (verify_round_change_certificate crypto proof previous_record_hash integer validator_set)
          (verify_votes crypto proof candidate_hash validator_set) tt rest in
      certified_Finalized round canonical quorum voted

  -- Under the lock rule, an accepted finalization is of the candidate of the highest lock that its
  -- round-change votes report.
  pub verify_record_finalization-highest_lock :
      is_empty validator_set ≡ false
      → verify_record_finalization crypto proof candidate_hash previous_record_hash integer
          validator_set
        ≡ pass
      → proof.rule ≡ locked_round_finalization_rule
      → (change : RoundChangeVoteV1) → Memᴰ change proof.round_changes
      → 0 < change.locked_round
      → All (λ other. other.locked_round ≤ change.locked_round) proof.round_changes
      → change.locked_candidate_hash ≡ candidate_hash
  verify_record_finalization-highest_lock set h rule change at locked top =
      let final = verify_record_finalization-Finalized set h in
      check_locks-highest candidate_hash proof.round_changes (final.locks rule) change at locked top

-- Two votes of one validator, one for each candidate, signed with keys of its address.
pub SignedBoth : Crypto → List Bytes → Bytes → Bytes → ValidatorVoteV0 → ValidatorVoteV0 → Type 0
SignedBoth crypto validator_set a b v w =
    ((r : ℕ) × GoodVote crypto a validator_set r v)
    × ((r : ℕ) × GoodVote crypto b validator_set r w)
    × (v.validator_address ≡ w.validator_address)

Finalized-twice :
    (crypto : Crypto) (validator_set : List Bytes) (a b : Bytes) (p q : FinalizationProofV0)
    → 0 < length validator_set
    → Finalized crypto a validator_set p
    → Finalized crypto b validator_set q
    → (v w : ValidatorVoteV0) × Memᴰ v p.votes
      × Memᴰ w q.votes
      × SignedBoth crypto validator_set a b v w
unfolding SignedBoth
Finalized-twice crypto validator_set a b p q nonempty fp fq =
    let address : ValidatorVoteV0 → Bytes = λ vote. vote.validator_address in
    let (x, in_p, in_q) =
      Sub-common (map address p.votes) (map address q.votes) validator_set (voters a p fp)
        (voters b q fq)
        (omega (
          arith,
          fp.quorum,
          fq.quorum,
          quorums_overlap (length validator_set) nonempty,
          length-map address p.votes,
          length-map address q.votes,
        )) in
    let (v, at_v, name_v) = Memᴰ-map address p.votes x in_p in
    let (w, at_w, name_w) = Memᴰ-map address q.votes x in_q in
    (
      v,
      w,
      at_v,
      at_w,
      (
        (fp.round, All-at (GoodVote crypto a validator_set fp.round) p.votes fp.good v at_v),
        (fq.round, All-at (GoodVote crypto b validator_set fq.round) q.votes fq.good w at_w),
        sym name_v ∙ name_w,
      ),
    )
  where
    voters :
        (c : Bytes) (proof : FinalizationProofV0)
        → Finalized crypto c validator_set proof
        → Sub (map (λ vote. vote.validator_address) proof.votes) validator_set
    voters c proof f =
        Ascending-Sub [] (map (λ vote. vote.validator_address) proof.votes) [] validator_set
          f.ascending f.set_ascending
          (All-map' (λ x. Memᴰ x validator_set) (λ vote. vote.validator_address) proof.votes
            (All-map (λ vote good. good.member) proof.votes f.good))

-- Two accepted finalizations of one nonempty set, of whatever candidates, integers and rounds, have a
-- voter in common: a member of the set whose signatures for both candidates verify.
pub two_finalizations-share_voter :
    (crypto : Crypto) (validator_set : List Bytes) (p : FinalizationProofV0) (a previous_a : Bytes)
    (integer_a : ℕ) (q : FinalizationProofV0) (b previous_b : Bytes) (integer_b : ℕ)
    → is_empty validator_set ≡ false
    → verify_record_finalization crypto p a previous_a integer_a validator_set ≡ pass
    → verify_record_finalization crypto q b previous_b integer_b validator_set ≡ pass
    → (v w : ValidatorVoteV0) × Memᴰ v p.votes
      × Memᴰ w q.votes
      × SignedBoth crypto validator_set a b v w
two_finalizations-share_voter crypto validator_set p a previous_a integer_a q b previous_b integer_b
      set h k =
    Finalized-twice crypto validator_set a b p q (length_positive validator_set set)
      (verify_record_finalization-Finalized crypto p a previous_a integer_a validator_set set h)
      (verify_record_finalization-Finalized crypto q b previous_b integer_b validator_set set k)
  where
    length_positive : (xs : List Bytes) → is_empty xs ≡ false → 0 < length xs
    length_positive [] h = absurd (cc h)
    length_positive (x ∷ xs) h = omega arith
