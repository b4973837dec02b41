-- ===== src/Finalization/Locks.antt =====
-- The loop of verifyRecordFinalization that finds the highest lock of the round-change votes.
use primechain.Base.{
  Bool-cases, ℕ, ◌≤◌, ◌<◌, ◌≡◌, ◌∙◌, subst, refl, Bool, true, false, not, ◌&&◌, List, [], ◌∷◌, All,
  All-at, inl, inr, ltb, ◌==◌, if◌then◌else◌, arith,
}
use mathlib.Core.List.{Memᴰ}
use primechain.Base.Text.{Bytes, eq_bytes, eq_bytes→eq}
use primechain.Base.Result.{
  Result, ok, err, Check, pass, refuse_if, refuse_if-pass, Result-cases, ◌>>=◌,
}
use primechain.Records.Types.{RoundChangeVoteV1, zero_hash}

pub record HighestLock : Type 0 where
  pub highest_locked_round : ℕ
  pub highest_locked_hash : Bytes
  pub have_highest_lock : Bool

abbrev pub no_lock : HighestLock
no_lock = record {
  highest_locked_round = 0;
  highest_locked_hash = zero_hash;
  have_highest_lock = false;
}

unfoldable pub conflicting : HighestLock → RoundChangeVoteV1 → Bool
conflicting lock change =
    (change.locked_round == lock.highest_locked_round)
    && not (eq_bytes change.locked_candidate_hash lock.highest_locked_hash)

unfoldable pub raise_lock : HighestLock → RoundChangeVoteV1 → HighestLock
raise_lock lock change =
    if change.locked_round == 0
    then lock
    else if ltb lock.highest_locked_round change.locked_round
    then record {
      highest_locked_round = change.locked_round;
      highest_locked_hash = change.locked_candidate_hash;
      have_highest_lock = true;
    }
    else lock

-- Whether the loop's body returns false: the branch is the `else if`, after the `continue` and the first test.
unfoldable pub refuses_lock : HighestLock → RoundChangeVoteV1 → Bool
refuses_lock lock change =
    if change.locked_round == 0
    then false
    else if ltb lock.highest_locked_round change.locked_round
    then false
    else conflicting lock change

unfoldable pub find_highest_lock : HighestLock → List RoundChangeVoteV1 → Result HighestLock
find_highest_lock lock [] = ok lock
find_highest_lock lock (change ∷ changes) =
    let rest = find_highest_lock (raise_lock lock change) changes in
    if refuses_lock lock change then err "conflicting highest round-change locks" else rest

unfoldable pub check_against_lock : Bytes → HighestLock → Check
check_against_lock candidate_hash lock =
    refuse_if (lock.have_highest_lock && not (eq_bytes lock.highest_locked_hash candidate_hash))
      "finalized candidate does not match highest round-change lock"

unfoldable pub check_locks : Bytes → List RoundChangeVoteV1 → Check
check_locks candidate_hash changes =
    find_highest_lock no_lock changes >>= check_against_lock candidate_hash

-- A state of the loop that has a lock if its round is positive.
Marked : HighestLock → Type 0
Marked lock = 0 < lock.highest_locked_round → lock.have_highest_lock ≡ true

-- The lock is at or above the change's, and is the change's if their rounds agree.
Covers : HighestLock → RoundChangeVoteV1 → Type 0
Covers lock change =
    (change.locked_round ≤ lock.highest_locked_round)
    × (0 < change.locked_round
        → change.locked_round ≡ lock.highest_locked_round
        → change.locked_candidate_hash ≡ lock.highest_locked_hash)

-- A later lock is above an earlier one, or is that one.
Extends : HighestLock → HighestLock → Type 0
Extends early late =
    (early.highest_locked_round ≤ late.highest_locked_round)
    × (early.highest_locked_round ≡ late.highest_locked_round
        → early.highest_locked_hash ≡ late.highest_locked_hash)

Extends-trans : (a b c : HighestLock) → Extends a b → Extends b c → Extends a c
unfolding Extends
Extends-trans a b c h k = ground arith

step-Extends :
    (lock : HighestLock) (change : RoundChangeVoteV1)
    → refuses_lock lock change ≡ false
    → Extends lock (raise_lock lock change) × Covers (raise_lock lock change) change
unfolding Extends Covers raise_lock refuses_lock conflicting
step-Extends lock change h = elim (Bool-cases (change.locked_round == 0)) [
  | inl idle ↦ rw (idle) ((omega arith, λ e. refl), (ground arith, λ p q. absurd (ground arith)))
  | inr locks ↦ elim (Bool-cases (ltb lock.highest_locked_round change.locked_round)) [
    | inl higher ↦
        rw (locks, higher) ((ground arith, λ e. absurd (ground arith)), (omega arith, λ p e. refl))
    | inr not_higher ↦
        rw (locks, not_higher)
          (
            (omega arith, λ e. refl),
            (
              ground arith,
              λ p e.
                  eq_bytes→eq change.locked_candidate_hash lock.highest_locked_hash (ground arith),
            ),
          )
  ]
]

step-Marked :
    (lock : HighestLock) (change : RoundChangeVoteV1)
    → Marked lock
    → Marked (raise_lock lock change)
unfolding Marked raise_lock
step-Marked lock change m = elim (Bool-cases (change.locked_round == 0)) [
  | inl idle ↦ rw idle m
  | inr locks ↦ elim (Bool-cases (ltb lock.highest_locked_round change.locked_round)) [
    | inl higher ↦ rw (locks, higher) (λ _. refl)
    | inr not_higher ↦ rw (locks, not_higher) m
  ]
]

Covers-extend :
    (early late : HighestLock) (change : RoundChangeVoteV1)
    → Extends early late
    → Covers early change
    → Covers late change
unfolding Extends Covers
Covers-extend early late change h k = (
  omega (arith, h.0, k.0),
  λ p e. k.1 p (omega (arith, h.0, k.0)) ∙ h.1 (omega (arith, h.0, k.0)),
)

-- What the loop has found when it ends.
FoundHighest : HighestLock → List RoundChangeVoteV1 → HighestLock → Type 0
FoundHighest lock changes late = Extends lock late × All (Covers late) changes × Marked late

find_highest_lock-FoundHighest :
    (lock : HighestLock) (changes : List RoundChangeVoteV1) (late : HighestLock)
    → Marked lock
    → find_highest_lock lock changes ≡ ok late
    → FoundHighest lock changes late
unfolding find_highest_lock FoundHighest Extends
find_highest_lock-FoundHighest lock [] late m h =
    let same : lock ≡ late = cc in
    subst (FoundHighest lock []) same ((omega arith, λ e. refl), tt, m)
find_highest_lock-FoundHighest lock (change ∷ changes) late m h =
    elim (Bool-cases (refuses_lock lock change)) [
      | inl refused ↦ absurd (cc (rw refused at h))
      | inr kept ↦
          let (further, covered) = step-Extends lock change kept in
          let (extended, rest, marked) =
            find_highest_lock-FoundHighest (raise_lock lock change) changes late
              (step-Marked lock change m) (rw kept at h) in
          (
            Extends-trans lock (raise_lock lock change) late further extended,
            (Covers-extend (raise_lock lock change) late change extended covered, rest),
            marked,
          )
    ]

find_highest_lock-bound :
    (bound : ℕ) (lock : HighestLock) (changes : List RoundChangeVoteV1) (late : HighestLock)
    → lock.highest_locked_round ≤ bound
    → All (λ change. change.locked_round ≤ bound) changes
    → find_highest_lock lock changes ≡ ok late
    → late.highest_locked_round ≤ bound
unfolding find_highest_lock raise_lock
find_highest_lock-bound bound lock [] late below all h =
    let same : lock ≡ late = cc in subst (λ l. l.highest_locked_round ≤ bound) same below
find_highest_lock-bound bound lock (change ∷ changes) late below all h =
    elim (Bool-cases (refuses_lock lock change)) [
      | inl refused ↦ absurd (cc (rw refused at h))
      | inr kept ↦
          find_highest_lock-bound bound (raise_lock lock change) changes late
            (ground (arith, all.0)) all.1 (rw kept at h)
    ]

-- An accepted list of round changes: a lock no other lock is above is a lock on the finalized candidate.
pub check_locks-highest :
    (candidate_hash : Bytes) (changes : List RoundChangeVoteV1)
    → check_locks candidate_hash changes ≡ pass
    → (change : RoundChangeVoteV1) → Memᴰ change changes
    → 0 < change.locked_round
    → All (λ other. other.locked_round ≤ change.locked_round) changes
    → change.locked_candidate_hash ≡ candidate_hash
unfolding check_locks check_against_lock Marked Covers FoundHighest
check_locks-highest candidate_hash changes h change at locked top =
    elim (Result-cases (find_highest_lock no_lock changes)) [
      | inr (e, failed) ↦ absurd (cc (rw failed at h))
      | inl (late, found) ↦
          let (extended, covers, marked) =
            find_highest_lock-FoundHighest no_lock changes late (λ p. absurd (omega (arith, p)))
              found in
          let low =
            find_highest_lock-bound change.locked_round no_lock changes late (omega arith) top
              found in
          let (below, agrees) = All-at (Covers late) changes covers change at in
          let have = marked (omega (arith, locked, below)) in
          let kept = refuse_if-pass _ _ (rw found at h) in
          agrees locked (omega (arith, low, below))
          ∙ eq_bytes→eq late.highest_locked_hash candidate_hash (ground arith)
    ]
