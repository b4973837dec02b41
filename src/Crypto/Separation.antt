-- ===== src/Crypto/Separation.antt =====
-- The signing payloads of finalization bind every member, and those of the three votes differ.
use primechain.Base.{ℕ, ◌^◌, ◌<◌, ◌≡◌, ◌≢◌, ap, sym, ◌∙◌, some, [], ◌++◌, length, arith, append-nil}
use primechain.Base.Text.{Bytes, text}
use primechain.Codec.{Reader, append_string}
use primechain.Codec.Reads.{Reads, read_uint64-Reads, read_hash-Reads, read_string-Reads}
use primechain.Crypto.Payloads.{
  record_finalization_vote_signing_payload, round_change_vote_signing_payload,
  locked_round_change_vote_signing_payload,
}

-- Two writings that one reader reads agree in their values and in what follows.
Reads-split {ℓ} :
    {A : Type ℓ} {p : Reader A} {u v : Bytes} {a b : A} (x y : Bytes)
    → Reads p u a
    → Reads p v b
    → u ++ x ≡ v ++ y
    → (a ≡ b) × (x ≡ y)
Reads-split {p = p} x y h k e =
    let same : some (_, x) ≡ some (_, y) = sym (h.run x) ∙ (ap p e ∙ k.run y) in (cc same, cc same)

strings_split :
    (a b x y : Bytes)
    → length a < 2 ^ 64
    → length b < 2 ^ 64
    → append_string a ++ x ≡ append_string b ++ y
    → (a ≡ b) × (x ≡ y)
strings_split a b x y small_a small_b =
    Reads-split x y (read_string-Reads a small_a) (read_string-Reads b small_b)

-- A finalization vote's payload determines the hash, the round and the voter.
pub record_finalization_payload-injective :
    (hash hash' : Bytes) (round round' : ℕ) (address address' : Bytes)
    → length hash ≡ 32
    → length hash' ≡ 32
    → round < 2 ^ 64
    → round' < 2 ^ 64
    → length address < 2 ^ 64
    → length address' < 2 ^ 64
    → record_finalization_vote_signing_payload hash round address
      ≡ record_finalization_vote_signing_payload hash' round' address'
    → (hash ≡ hash') × (round ≡ round') × (address ≡ address')
unfolding record_finalization_vote_signing_payload text
record_finalization_payload-injective hash hash' round round' address address' h h' r r' a a' e =
    let domain = text "primechain-record-finalization-mldsa65-v2" in
    let (_, body) = strings_split domain domain _ _ (omega arith) (omega arith) e in
    let (same_hash, after_hash) =
      Reads-split _ _ (read_hash-Reads hash h) (read_hash-Reads hash' h') body in
    let (same_round, after_round) =
      Reads-split _ _ (read_uint64-Reads round r) (read_uint64-Reads round' r') after_hash in
    let (same_address, _) = strings_split address address' [] [] a a' (
      append-nil (append_string address)
      ∙ (after_round ∙ sym (append-nil (append_string address')))) in
    (same_hash, same_round, same_address)

-- No finalization vote's payload is one of a round change, and no round change's is one of a locked
-- round change: a signature made for one of the three says nothing on another.
pub vote_payloads-disjoint :
    (hash : Bytes) (round : ℕ) (address : Bytes) (hash' : Bytes) (integer' round' : ℕ)
    (address' : Bytes) (hash'' : Bytes) (integer'' round'' locked_round : ℕ)
    (kind candidate payload address'' : Bytes)
    → (record_finalization_vote_signing_payload hash round address
        ≢ round_change_vote_signing_payload hash' integer' round' address')
      × (record_finalization_vote_signing_payload hash round address
          ≢ locked_round_change_vote_signing_payload hash'' integer'' round'' locked_round kind
              candidate payload address'')
      × (round_change_vote_signing_payload hash' integer' round' address'
          ≢ locked_round_change_vote_signing_payload hash'' integer'' round'' locked_round kind
              candidate payload address'')
unfolding record_finalization_vote_signing_payload round_change_vote_signing_payload
    locked_round_change_vote_signing_payload text
vote_payloads-disjoint hash round address hash' integer' round' address' hash'' integer'' round''
      locked_round kind candidate payload address'' =
    let finalization = text "primechain-record-finalization-mldsa65-v2" in
    let change = text "primechain-finalization-round-change-mldsa65-v2" in
    let locked = text "primechain-finalization-round-change-mldsa65-locks-v4" in
    (
      λ e. domains finalization change _ _ (omega arith) (omega arith) (omega arith) e,
      λ e. domains finalization locked _ _ (omega arith) (omega arith) (omega arith) e,
      λ e. domains change locked _ _ (omega arith) (omega arith) (omega arith) e,
    )
  where
    domains :
        (a b x y : Bytes)
        → length a < 2 ^ 64
        → length b < 2 ^ 64
        → length a < length b
        → append_string a ++ x ≢ append_string b ++ y
    domains a b x y small_a small_b shorter e =
        absurd (omega (arith, shorter, ap length ((strings_split a b x y small_a small_b e).0)))
