-- ===== src/Base/Sublists.antt =====
-- Strictly ascending lists of bytes inside an ascending list, and the element that two of them share
-- when they are together longer than it.
use primechain.Base.{
  ◌+◌, ◌<◌, ◌≡◌, refl, sym, subst, true, List, [], ◌∷◌, length, All, All-map, All-at, inl, inr,
  arith,
}
use mathlib.Core.List.{Memᴰ}
use mathlib.Core.List.Memᴰ as Memᴰ
use primechain.Base.Text.{Bytes, lt_bytes, lt_bytes_irrefl, lt_bytes_trans}

-- Each element is above the one before it, the first above `low`.
abbrev pub Ascending : Bytes → List Bytes → Type 0
Ascending low [] = Unit {0}
Ascending low (x ∷ xs) = (lt_bytes low x ≡ true) × Ascending x xs

Above : Bytes → Bytes → Type 0
Above low x = lt_bytes low x ≡ true

pub data Sub : List Bytes → List Bytes → Type 0 where
  nil : Sub [] []
  keep : {z : Bytes} {xs zs : List Bytes} → Sub xs zs → Sub (z ∷ xs) (z ∷ zs)
  skip : {z : Bytes} {xs zs : List Bytes} → Sub xs zs → Sub xs (z ∷ zs)

Ascending-All : (low : Bytes) (xs : List Bytes) → Ascending low xs → All (Above low) xs
unfolding Above
Ascending-All low [] h = tt
Ascending-All low (x ∷ xs) h =
    (h.0, All-map (λ y above. lt_bytes_trans low x y h.0 above) xs (Ascending-All x xs h.1))

-- What is above the head of a list and in it is in its tail.
in_tail : (z : Bytes) (zs : List Bytes) (x : Bytes) → Above z x → Memᴰ x (z ∷ zs) → Memᴰ x zs
unfolding Above
in_tail z zs x above (Memᴰ.head e) =
    absurd (cc (subst (λ y. lt_bytes z y ≡ true) e above, lt_bytes_irrefl z))
in_tail z zs x above (Memᴰ.tail m) = m

All-in_tail :
    (z : Bytes) (zs xs : List Bytes)
    → All (Above z) xs
    → All (λ x. Memᴰ x (z ∷ zs)) xs
    → All (λ x. Memᴰ x zs) xs
All-in_tail z zs [] above members = tt
All-in_tail z zs (x ∷ xs) above members =
    (in_tail z zs x above.0 members.0, All-in_tail z zs xs above.1 members.1)

Sub-empty : (zs : List Bytes) → Sub [] zs
Sub-empty [] = nil
Sub-empty (z ∷ zs) = skip (Sub-empty zs)

pub Ascending-Sub :
    (low : Bytes) (xs : List Bytes) (first : Bytes) (zs : List Bytes)
    → Ascending low xs
    → Ascending first zs
    → All (λ x. Memᴰ x zs) xs
    → Sub xs zs
unfolding Above
Ascending-Sub low [] first zs h k members = Sub-empty zs
Ascending-Sub low (x ∷ xs) first [] h k members = elim members.0 [ ]
Ascending-Sub low (x ∷ xs) first (z ∷ zs) h k members = elim (Memᴰ.cases_cons members.0) [
  | inl same ↦
      let above : All (Above z) xs = subst (λ y. All (Above y) xs) same (Ascending-All x xs h.1) in
      subst (λ y. Sub (y ∷ xs) (z ∷ zs)) (sym same)
        (keep (Ascending-Sub x xs z zs h.1 k.1 (All-in_tail z zs xs above members.1)))
  | inr later ↦
      let over : lt_bytes z x ≡ true = All-at (Above z) zs (Ascending-All z zs k.1) x later in
      let above : All (Above z) xs =
        All-map (λ y up. lt_bytes_trans z x y over up) xs (Ascending-All x xs h.1) in
      skip (Ascending-Sub low (x ∷ xs) z zs h k.1 (later, All-in_tail z zs xs above members.1))
]

pub Sub-common :
    (xs ys zs : List Bytes)
    → Sub xs zs
    → Sub ys zs
    → length zs < length xs + length ys
    → (a : Bytes) × Memᴰ a xs × Memᴰ a ys
Sub-common _ _ _ nil nil h = absurd (omega arith)
Sub-common (z ∷ xs) (_ ∷ ys) (_ ∷ zs) (keep p) (keep q) h = (z, Memᴰ.head refl, Memᴰ.head refl)
Sub-common (z ∷ xs) ys (_ ∷ zs) (keep p) (skip q) h =
    let (a, in_xs, in_ys) = Sub-common xs ys zs p q (omega arith) in (a, Memᴰ.tail in_xs, in_ys)
Sub-common xs (z ∷ ys) (_ ∷ zs) (skip p) (keep q) h =
    let (a, in_xs, in_ys) = Sub-common xs ys zs p q (omega arith) in (a, in_xs, Memᴰ.tail in_ys)
Sub-common xs ys (_ ∷ zs) (skip p) (skip q) h = Sub-common xs ys zs p q (omega arith)
