-- ===== src/Base/Dict.antt =====
-- std::map: a list of entries in the order of the keys, and the sums over it.
use primechain.Base.{
  ℕ, ◌+◌, ◌≤◌, ◌≡◌, refl, sym, Bool, true, false, ◌&&◌, ◌||◌, Option, none, some, List, [], ◌∷◌,
  ltb, ◌==◌, if◌then◌else◌, arith, inl, inr, Bool-cases,
}
use primechain.Base.Text.{
  Bytes, eq_bytes, eq_bytes→eq, eq_bytes_refl, lt_bytes, lt_bytes_irrefl, lt_bytes_trans,
}

-- operator< and the equality of keys.
pub record KeyOrder {ℓ} (K : Type ℓ) : Type ℓ where
  pub lt : K → K → Bool
  pub same : K → K → Bool
  pub same→eq : (a b : K) → same a b ≡ true → a ≡ b
  pub same_refl : (a : K) → same a a ≡ true
  pub lt_irrefl : (a : K) → lt a a ≡ false
  pub lt_trans : (a b c : K) → lt a b ≡ true → lt b c ≡ true → lt a c ≡ true

pub ltb_trans : (a b c : ℕ) → ltb a b ≡ true → ltb b c ≡ true → ltb a c ≡ true
ltb_trans a b c h k = ground arith

pub ltb_irrefl : (a : ℕ) → ltb a a ≡ false
ltb_irrefl a = ground arith

pub number_same→eq : (a b : ℕ) → (a == b) ≡ true → a ≡ b
number_same→eq a b h = ground arith

pub number_same_refl : (a : ℕ) → (a == a) ≡ true
number_same_refl a = ground arith

module _ {ℓ} {K : Type ℓ} ⦃o : KeyOrder K⦄ where
  -- Keys in order differ.
  pub before_other : (a b : K) → o.lt a b ≡ true → o.same a b ≡ false
  before_other a b h = elim (Bool-cases (o.same a b)) [
    | inr other ↦ other
    | inl hit ↦ absurd (cc (rw (o.same→eq a b hit) at h, o.lt_irrefl b))
  ]

instance abbrev pub number_order : KeyOrder ℕ
number_order = record {
  lt = ltb;
  same = ◌==◌;
  same→eq = number_same→eq;
  same_refl = number_same_refl;
  lt_irrefl = ltb_irrefl;
  lt_trans = ltb_trans;
}

instance abbrev pub bytes_order : KeyOrder Bytes
bytes_order = record {
  lt = lt_bytes;
  same = eq_bytes;
  same→eq = eq_bytes→eq;
  same_refl = eq_bytes_refl;
  lt_irrefl = lt_bytes_irrefl;
  lt_trans = lt_bytes_trans;
}

-- std::pair<Address, PrimeValue>, lexicographic.
abbrev pub Asset : Type 0
Asset = Bytes × ℕ

abbrev pub lt_asset : Asset → Asset → Bool
lt_asset (a, p) (b, q) = lt_bytes a b || (eq_bytes a b && ltb p q)

abbrev pub same_asset : Asset → Asset → Bool
same_asset (a, p) (b, q) = eq_bytes a b && (p == q)

pub same_asset→eq : (a b : Asset) → same_asset a b ≡ true → a ≡ b
same_asset→eq (a, p) (b, q) h =
    let address : a ≡ b = eq_bytes→eq a b (ground arith) in
    let prime : p ≡ q = ground arith in λ i. (address i, prime i)

pub same_asset_refl : (a : Asset) → same_asset a a ≡ true
same_asset_refl (a, p) = ground (arith, eq_bytes_refl a)

pub lt_asset_irrefl : (a : Asset) → lt_asset a a ≡ false
lt_asset_irrefl (a, p) = ground (arith, lt_bytes_irrefl a)

pub lt_asset_trans :
    (a b c : Asset) → lt_asset a b ≡ true → lt_asset b c ≡ true → lt_asset a c ≡ true
lt_asset_trans (a, p) (b, q) (c, r) h k =
    ground (arith, lt_bytes_trans a b c, eq_bytes→eq a b, eq_bytes→eq b c, eq_bytes_refl a)

instance abbrev pub asset_order : KeyOrder Asset
asset_order = record {
  lt = lt_asset;
  same = same_asset;
  same→eq = same_asset→eq;
  same_refl = same_asset_refl;
  lt_irrefl = lt_asset_irrefl;
  lt_trans = lt_asset_trans;
}

abbrev pub Dict {ℓ κ} : Type ℓ → Type κ → Type (ℓ ⊔ κ)
Dict K V = List (K × V)

module _ {ℓ κ} {K : Type ℓ} {V : Type κ} ⦃o : KeyOrder K⦄ where
  -- find: the search ends at the first greater key.
  unfoldable pub find : K → Dict K V → Option V
  find k [] = none
  find k ((j, v) ∷ d) = if o.same k j then some v else if o.lt k j then none else find k d

  -- `d[k] = v`
  unfoldable pub put : K → V → Dict K V → Dict K V
  put k v [] = (k, v) ∷ []
  put k v ((j, w) ∷ d) =
      if o.same k j
      then (k, v) ∷ d
      else if o.lt k j
      then (k, v) ∷ ((j, w) ∷ d)
      else (j, w) ∷ put k v d

  pub find-put : (k : K) (v : V) (d : Dict K V) → find k (put k v d) ≡ some v
  unfolding find put
  find-put k v [] = rw (o.same_refl k) refl
  find-put k v ((j, w) ∷ d) = elim (Bool-cases (o.same k j)) [
    | inl hit ↦ rw (hit, o.same_refl k) refl
    | inr miss ↦ elim (Bool-cases (o.lt k j)) [
      | inl before ↦ rw (miss, before, o.same_refl k) refl
      | inr after ↦ rw (miss, after) (rw (miss, after) (find-put k v d))
    ]
  ]

  -- Another key is not touched.
  pub find-put_other :
      (i k : K) (v : V) (d : Dict K V) → o.same i k ≡ false → find i (put k v d) ≡ find i d
  unfolding find put
  find-put_other i k v [] other = rw other (ground arith)
  find-put_other i k v ((j, w) ∷ d) other = elim (Bool-cases (o.same k j)) [
    | inl hit ↦ let same : k ≡ j = o.same→eq k j hit in rw (hit, sym same, other) refl
    | inr miss ↦ elim (Bool-cases (o.lt k j)) [
      | inl before ↦ elim (Bool-cases (o.lt i k)) [
        | inl early ↦
            let before_all : o.lt i j ≡ true = o.lt_trans i k j early before in
            rw (miss, before, other, early) (rw (before_other i j before_all, before_all) refl)
        | inr late ↦ rw (miss, before, other, late) refl
      ]
      | inr after ↦ rw (miss, after, find-put_other i k v d other) refl
    ]
  ]

-- operator[] on a map of uint64 that has no entry makes one of 0.
or_zero : Option ℕ → ℕ
or_zero none = 0
or_zero (some n) = n

module _ {ℓ} {K : Type ℓ} ⦃o : KeyOrder K⦄ where
  unfoldable pub at : K → Dict K ℕ → ℕ
  unfolding or_zero
  at k d = or_zero (find k d)

  pub at-put : (k : K) (v : ℕ) (d : Dict K ℕ) → at k (put k v d) ≡ v
  unfolding at
  at-put k v d = rw (find-put k v d) refl

  pub at-put_other :
      (i k : K) (v : ℕ) (d : Dict K ℕ) → o.same i k ≡ false → at i (put k v d) ≡ at i d
  unfolding at
  at-put_other i k v d h = rw (find-put_other i k v d h) refl

  pub at_found : (k : K) (v : ℕ) (d : Dict K ℕ) → find k d ≡ some v → at k d ≡ v
  unfolding at
  at_found k v d h = rw h refl

  -- The sum of the entries whose key passes.
  unfoldable pub sum_where : (K → Bool) → Dict K ℕ → ℕ
  sum_where p [] = 0
  sum_where p ((k, v) ∷ d) = (if p k then v else 0) + sum_where p d

  -- An entry put in takes the place of the one at its key.
  pub sum_where-put :
      (p : K → Bool) (k : K) (v : ℕ) (d : Dict K ℕ)
      → sum_where p (put k v d) + (if p k then at k d else 0)
        ≡ sum_where p d + (if p k then v else 0)
  unfolding sum_where put at find
  sum_where-put p k v [] = ground arith
  sum_where-put p k v ((j, w) ∷ d) = elim (Bool-cases (o.same k j)) [
    | inl hit ↦ rw (hit, sym (o.same→eq k j hit)) (ground arith)
    | inr miss ↦ elim (Bool-cases (o.lt k j)) [
      | inl before ↦ rw (miss, before) (ground arith)
      | inr after ↦ rw (miss, after) (omega (arith, sum_where-put p k v d))
    ]
  ]

  -- No entry is above the sum.
  pub at-sum_where : (p : K → Bool) (k : K) (d : Dict K ℕ) → p k ≡ true → at k d ≤ sum_where p d
  unfolding sum_where at find
  at-sum_where p k [] h = omega arith
  at-sum_where p k ((j, w) ∷ d) h = elim (Bool-cases (o.same k j)) [
    | inl hit ↦ rw (hit, sym (o.same→eq k j hit), h) (omega arith)
    | inr miss ↦ elim (Bool-cases (o.lt k j)) [
      | inl before ↦ rw (miss, before) (omega arith)
      | inr after ↦ rw (miss, after) (omega (arith, at-sum_where p k d h))
    ]
  ]
