-- ===== src/Sort/Stable.antt =====
-- `slice::sort_by`, the stable sort of Rust's standard library, and what it promises: every stable
-- sort by a total preorder gives the same list, so insertion, the simplest, stands for it.
use rust_cobol.Prelude.{
  suc, ◌≡◌, refl, ap, ◌∙◌, inl, inr, Bool, true, false, List, [], ◌∷◌, arith, if◌then◌else◌,
  Bool-cases, length,
}
use Prim.Native.Nat.{Ordering, eq, gt}
use mathlib.Core.List.{Perm}
use mathlib.Core.List.Perm
use rust_cobol.Sort.Order.{IsOrder}

abbrev pub is_gt : Ordering → Bool
is_gt gt = true
is_gt _ = false

abbrev pub is_eq : Ordering → Bool
is_eq eq = true
is_eq _ = false

module _ {ℓ} {A : Type ℓ} (cmp : A → A → Ordering) where
  -- Before the first element that is not less.
  unfoldable pub insert : A → List A → List A
  insert x [] = x ∷ []
  insert x (y ∷ ys) = let rest = insert x ys in if is_gt (cmp x y) then y ∷ rest else x ∷ y ∷ ys

  unfoldable pub sort_by : List A → List A
  unfolding insert
  sort_by [] = []
  sort_by (x ∷ xs) = insert x (sort_by xs)

  -- `x` is greater than no element of the list.
  abbrev pub Below : A → List A → Type 0
  Below x [] = Unit {0}
  Below x (y ∷ ys) = (is_gt (cmp x y) ≡ false) × Below x ys

  abbrev pub IsSorted : List A → Type 0
  IsSorted [] = Unit {0}
  IsSorted (x ∷ xs) = Below x xs × IsSorted xs

  -- The elements that compare equal to `k`, in their order.
  unfoldable pub equals : A → List A → List A
  equals k [] = []
  equals k (x ∷ xs) = let rest = equals k xs in if is_eq (cmp k x) then x ∷ rest else rest

  insert-Perm : (x : A) (ys : List A) → Perm (insert x ys) (x ∷ ys)
  unfolding insert
  insert-Perm x [] = Perm.refl (x ∷ [])
  insert-Perm x (y ∷ ys) = elim (Bool-cases (is_gt (cmp x y))) [
    | inl greater ↦
        rw (greater, insert) (Perm.trans (Perm.cons y (insert-Perm x ys)) (Perm.swap x y ys))
    | inr other ↦ rw (other, insert) (Perm.refl (x ∷ y ∷ ys))
  ]

  pub sort_by-Perm : (xs : List A) → Perm (sort_by xs) xs
  unfolding sort_by
  sort_by-Perm [] = Perm.refl []
  sort_by-Perm (x ∷ xs) = Perm.trans (insert-Perm x (sort_by xs)) (Perm.cons x (sort_by-Perm xs))

  insert-length : (x : A) (ys : List A) → length (insert x ys) ≡ suc (length ys)
  unfolding insert
  insert-length x [] = refl
  insert-length x (y ∷ ys) = ground (arith, insert-length x ys)

  pub length-sort_by : (xs : List A) → length (sort_by xs) ≡ length xs
  unfolding sort_by
  length-sort_by [] = refl
  length-sort_by (x ∷ xs) = insert-length x (sort_by xs) ∙ ap suc (length-sort_by xs)

module _ {ℓ} {A : Type ℓ} (cmp : A → A → Ordering) (o : IsOrder cmp) where
  not_gt_trans :
      (a b c : A) → is_gt (cmp a b) ≡ false → is_gt (cmp b c) ≡ false → is_gt (cmp a c) ≡ false
  not_gt_trans a b c h k = ground (
    arith,
    o.equal_left a b c,
    o.equal_left c b a,
    o.lt_trans a b c,
    o.swapped a b,
    o.swapped b c,
    o.swapped a c,
  )

  Below-le : (x y : A) (ys : List A) → is_gt (cmp x y) ≡ false → Below cmp y ys → Below cmp x ys
  Below-le x y [] h b = tt
  Below-le x y (z ∷ zs) h (first, rest) = (not_gt_trans x y z h first, Below-le x y zs h rest)

  Below-insert :
      (z x : A) (ys : List A)
      → is_gt (cmp z x) ≡ false
      → Below cmp z ys
      → Below cmp z (insert cmp x ys)
  unfolding insert
  Below-insert z x [] h b = (h, tt)
  Below-insert z x (y ∷ ys) h b = ground (arith, Below-insert z x ys h b.1)

  not_gt_back : (x y : A) → is_gt (cmp x y) ≡ true → is_gt (cmp y x) ≡ false
  not_gt_back x y h = ground (arith, o.swapped x y)

  insert-IsSorted : (x : A) (ys : List A) → IsSorted cmp ys → IsSorted cmp (insert cmp x ys)
  unfolding insert
  insert-IsSorted x [] s = (tt, tt)
  insert-IsSorted x (y ∷ ys) (below, sorted) = elim (Bool-cases (is_gt (cmp x y))) [
    | inl greater ↦
        rw (greater, insert)
          (Below-insert y x ys (not_gt_back x y greater) below, insert-IsSorted x ys sorted)
    | inr other ↦ rw (other, insert) ((other, Below-le x y ys other below), (below, sorted))
  ]

  pub sort_by-IsSorted : (xs : List A) → IsSorted cmp (sort_by cmp xs)
  unfolding sort_by
  sort_by-IsSorted [] = tt
  sort_by-IsSorted (x ∷ xs) = insert-IsSorted x (sort_by cmp xs) (sort_by-IsSorted xs)

  equal_not_gt :
      (k x y : A) → is_eq (cmp k x) ≡ true → is_eq (cmp k y) ≡ true → is_gt (cmp x y) ≡ false
  equal_not_gt k x y h e = ground (arith, o.equal_left k x y)

  equals-insert : (k x : A) (ys : List A) → equals cmp k (insert cmp x ys) ≡ equals cmp k (x ∷ ys)
  unfolding insert equals
  equals-insert k x [] = refl
  equals-insert k x (y ∷ ys) = ground (arith, equals-insert k x ys, equal_not_gt k x y)

  -- Stability: elements that compare equal keep their order.
  pub equals-sort_by : (k : A) (xs : List A) → equals cmp k (sort_by cmp xs) ≡ equals cmp k xs
  unfolding sort_by equals
  equals-sort_by k [] = refl
  equals-sort_by k (x ∷ xs) =
      equals-insert k x (sort_by cmp xs)
      ∙ ap (λ r. if is_eq (cmp k x) then x ∷ r else r) (equals-sort_by k xs)

  insert-Below : (x : A) (ys : List A) → Below cmp x ys → insert cmp x ys ≡ x ∷ ys
  unfolding insert
  insert-Below x [] b = refl
  insert-Below x (y ∷ ys) (first, rest) = rw (first, insert)

  -- A sorted list stays as it is.
  pub sort_by_self : (xs : List A) → IsSorted cmp xs → sort_by cmp xs ≡ xs
  unfolding sort_by
  sort_by_self [] s = refl
  sort_by_self (x ∷ xs) (below, sorted) =
      ap (insert cmp x) (sort_by_self xs sorted) ∙ insert-Below x xs below
