-- ===== src/Records/Merkle.antt =====
-- The transaction roots: transactionHash, the flat root, the Merkle root and transactionBatchRoot.
use primechain.Base.{
  ℕ, zero, suc, ◌+◌, ◌%◌, ◌≤◌, ◌<◌, ◌≡◌, refl, sym, ap, ◌∙◌, true, false, List, [], ◌∷◌, ◌++◌, map,
  length, length-map, is_empty, ltb, leb, if◌then◌else◌, arith, Bool-cases, inl, inr, length-append,
}
use mathlib.Core.List.{map-append}
use primechain.Base.Text.{Bytes, text}
use primechain.Codec.{append_hash, append_string, append_list}
use primechain.Crypto.{Crypto}
use primechain.Records.Types.{TransactionV0, zero_hash}
use primechain.Records.Write.{serialize_transaction}

-- `level.front()`; the callers have refused an empty list.
unfoldable pub front_hash : List Bytes → Bytes
front_hash [] = zero_hash
front_hash (hash ∷ level) = hash

module _ (crypto : Crypto) where
  open crypto use {sha3_256}

  unfoldable pub transaction_hash : TransactionV0 → Bytes
  transaction_hash tx = sha3_256 (serialize_transaction tx true)

  unfoldable pub legacy_flat_transaction_batch_root : List TransactionV0 → Bytes
  legacy_flat_transaction_batch_root transactions =
      if is_empty transactions
      then zero_hash
      else sha3_256 (
          append_string (text "primechain-dev-tx-root-v0")
          ++ append_list (λ tx. append_hash (transaction_hash tx)) transactions)

  unfoldable pub merkle_leaf_hash : Bytes → Bytes
  merkle_leaf_hash tx_hash =
      sha3_256 (append_string (text "primechain-tx-merkle-leaf-v1") ++ append_hash tx_hash)

  unfoldable pub merkle_parent_hash : Bytes → Bytes → Bytes
  merkle_parent_hash left right = sha3_256 (
      append_string (text "primechain-tx-merkle-node-v1")
      ++ (append_hash left ++ append_hash right))

  -- One round of the loop: the last hash of an odd level is its own right neighbour.
  unfoldable pub next_merkle_level : List Bytes → List Bytes
  next_merkle_level [] = []
  next_merkle_level (left ∷ []) = merkle_parent_hash left left ∷ []
  next_merkle_level (left ∷ (right ∷ level)) =
      merkle_parent_hash left right ∷ next_merkle_level level

  -- `while (level.size() > 1)`
  unfoldable pub merkle_loop : ℕ → List Bytes → Bytes
  merkle_loop zero level = front_hash level
  merkle_loop (suc fuel) level =
      let rest = merkle_loop fuel (next_merkle_level level) in
      if ltb 1 (length level) then rest else front_hash level

  -- Each round shortens the level, so its length is enough rounds.
  unfoldable pub transaction_merkle_root : List TransactionV0 → Bytes
  transaction_merkle_root transactions =
      if is_empty transactions
      then zero_hash
      else merkle_loop (length transactions)
          (map (λ tx. merkle_leaf_hash (transaction_hash tx)) transactions)

  unfoldable pub transaction_batch_root : List TransactionV0 → ℕ → Bytes
  transaction_batch_root transactions record_version =
      if leb 12 record_version
      then transaction_merkle_root transactions
      else legacy_flat_transaction_batch_root transactions

  length-next_merkle_level :
      (level : List Bytes)
      → length (next_merkle_level level) + length (next_merkle_level level) ≤ length level + 1
  unfolding next_merkle_level
  length-next_merkle_level [] = omega arith
  length-next_merkle_level (left ∷ []) = omega arith
  length-next_merkle_level (left ∷ (right ∷ level)) = omega (arith, length-next_merkle_level level)

  -- Any two amounts of fuel that are enough give one root.
  merkle_loop-fuel :
      (f g : ℕ) (level : List Bytes)
      → length level ≤ f
      → length level ≤ g
      → merkle_loop f level ≡ merkle_loop g level
  unfolding merkle_loop
  merkle_loop-fuel zero zero level h k = refl
  merkle_loop-fuel zero (suc g) level h k = ground arith
  merkle_loop-fuel (suc f) zero level h k = ground arith
  merkle_loop-fuel (suc f) (suc g) level h k = elim (Bool-cases (ltb 1 (length level))) [
    | inl long ↦
        let fewer = length-next_merkle_level level in
        rw long (merkle_loop-fuel f g (next_merkle_level level) (ground arith) (ground arith))
    | inr short ↦ rw short refl
  ]

  next_merkle_level-duplicate :
      (level : List Bytes) (x : Bytes)
      → length level % 2 ≡ 0
      → next_merkle_level (level ++ (x ∷ [])) ≡ next_merkle_level (level ++ (x ∷ (x ∷ [])))
  unfolding next_merkle_level
  next_merkle_level-duplicate [] x h = refl
  next_merkle_level-duplicate (a ∷ []) x h = absurd (omega arith)
  next_merkle_level-duplicate (a ∷ (b ∷ level)) x h =
      ap (λ rest. merkle_parent_hash a b ∷ rest) (next_merkle_level-duplicate level x (omega arith))

  merkle_loop-round :
      (fuel : ℕ) (level : List Bytes)
      → 1 < length level
      → merkle_loop (suc fuel) level ≡ merkle_loop fuel (next_merkle_level level)
  unfolding merkle_loop
  merkle_loop-round fuel level h =
      let long : ltb 1 (length level) ≡ true = ground arith in rw long refl

  leaves : List TransactionV0 → List Bytes
  leaves transactions = map (λ tx. merkle_leaf_hash (transaction_hash tx)) transactions

  -- With enough rounds, the roots of an even level and one more hash, once and twice, are the same.
  root_duplicate :
      (f g : ℕ) (level : List Bytes) (x : Bytes)
      → 1 < length level
      → length level % 2 ≡ 0
      → length level + 2 ≤ f
      → length level + 2 ≤ g
      → merkle_loop f (level ++ (x ∷ [])) ≡ merkle_loop g (level ++ (x ∷ (x ∷ [])))
  root_duplicate f g level x many even h k =
      let once = length-append level (x ∷ []) in
      let twice = length-append level (x ∷ (x ∷ [])) in
      merkle_loop-fuel f (suc g) (level ++ (x ∷ [])) (omega (arith, once)) (omega (arith, once))
      ∙ (merkle_loop-round g (level ++ (x ∷ [])) (omega (arith, once))
          ∙ (ap (merkle_loop g) (next_merkle_level-duplicate level x even)
              ∙ (sym (merkle_loop-round g (level ++ (x ∷ (x ∷ []))) (omega (arith, twice)))
                  ∙ merkle_loop-fuel (suc g) g (level ++ (x ∷ (x ∷ []))) (omega (arith, twice))
                      (omega (arith, twice)))))

  is_empty-append :
      (xs : List TransactionV0) (y : TransactionV0) (ys : List TransactionV0)
      → is_empty (xs ++ (y ∷ ys)) ≡ false
  is_empty-append [] y ys = refl
  is_empty-append (x ∷ xs) y ys = refl

  -- Repeating the last transaction of an odd batch of at least three does not change its Merkle root.
  pub transaction_merkle_root-duplicate :
      (transactions : List TransactionV0) (tx : TransactionV0)
      → 1 < length transactions
      → length transactions % 2 ≡ 0
      → transaction_merkle_root (transactions ++ (tx ∷ []))
        ≡ transaction_merkle_root (transactions ++ (tx ∷ (tx ∷ [])))
  unfolding transaction_merkle_root leaves
  transaction_merkle_root-duplicate transactions tx many even =
      let leaf : TransactionV0 → Bytes = λ t. merkle_leaf_hash (transaction_hash t) in
      let size = length-map leaf transactions in
      let once = length-append transactions (tx ∷ []) in
      let twice = length-append transactions (tx ∷ (tx ∷ [])) in
      rw (is_empty-append transactions tx [], is_empty-append transactions tx (tx ∷ []))
        (ap (merkle_loop (length (transactions ++ (tx ∷ []))))
            (map-append leaf transactions (tx ∷ []))
          ∙ ((merkle_loop-fuel (length (transactions ++ (tx ∷ []))) (length transactions + 2)
                  (map leaf transactions ++ (leaf tx ∷ []))
                  (omega (arith, size, once, length-append (map leaf transactions) (leaf tx ∷ [])))
                  (omega (arith, size, length-append (map leaf transactions) (leaf tx ∷ [])))
                ∙ root_duplicate (length transactions + 2)
                    (length (transactions ++ (tx ∷ (tx ∷ [])))) (map leaf transactions) (leaf tx)
                    (omega (arith, size)) (omega (arith, size, even)) (omega (arith, size))
                    (omega (arith, size, twice)))
              ∙ sym (
                  ap (merkle_loop (length (transactions ++ (tx ∷ (tx ∷ [])))))
                    (map-append leaf transactions (tx ∷ (tx ∷ []))))))
