-- ===== src/Sort/Order.antt =====
-- Comparison functions that order their values, as `std::cmp::Ordering` reports it.
use rust_cobol.Prelude.{ℕ, ◌+◌, ◌≡◌, refl, ap, Bool, true, false, List, [], ◌∷◌, arith}
use rust_cobol.Prelude.Int.{ℤ, pos_part, neg_part}
use Prim.Native.Nat.{compare, Ordering, lt, eq, gt}

abbrev pub swap : Ordering → Ordering
swap lt = gt
swap eq = eq
swap gt = lt

-- `Ordering::reverse` where the flag is not set.
abbrev pub directed : Bool → Ordering → Ordering
directed true o = o
directed false o = swap o

-- The first comparison that tells two values apart decides.
abbrev pub then_with : Ordering → Ordering → Ordering
then_with lt o = lt
then_with eq o = o
then_with gt o = gt

-- A comparison is that of a total preorder: swapping the values swaps the outcome, equal values
-- compare alike with a third, and `lt` is transitive.
pub record IsOrder {ℓ} {A : Type ℓ} (cmp : A → A → Ordering) : Type ℓ where
  pub swapped : (a b : A) → cmp b a ≡ swap (cmp a b)
  pub equal_left : (a b c : A) → cmp a b ≡ eq → cmp a c ≡ cmp b c
  pub lt_trans : (a b c : A) → cmp a b ≡ lt → cmp b c ≡ lt → cmp a c ≡ lt

abbrev pub cmp_ℤ : ℤ → ℤ → Ordering
cmp_ℤ a b = compare (pos_part a + neg_part b) (pos_part b + neg_part a)

pub cmp_ℤ-IsOrder : IsOrder cmp_ℤ
cmp_ℤ-IsOrder = record {
  swapped = λ a b. ground arith;
  equal_left = λ a b c h. ground arith;
  lt_trans = λ a b c h k. ground arith;
}

-- Slices of bytes compare lexicographically.
unfoldable pub cmp_bytes : List ℕ → List ℕ → Ordering
cmp_bytes [] [] = eq
cmp_bytes [] (y ∷ ys) = lt
cmp_bytes (x ∷ xs) [] = gt
cmp_bytes (x ∷ xs) (y ∷ ys) = then_with (compare x y) (cmp_bytes xs ys)

cmp_bytes-swapped : (a b : List ℕ) → cmp_bytes b a ≡ swap (cmp_bytes a b)
unfolding cmp_bytes
cmp_bytes-swapped [] [] = refl
cmp_bytes-swapped [] (y ∷ ys) = refl
cmp_bytes-swapped (x ∷ xs) [] = refl
cmp_bytes-swapped (x ∷ xs) (y ∷ ys) = ground (arith, cmp_bytes-swapped xs ys)

cmp_bytes-equal : (a b : List ℕ) → cmp_bytes a b ≡ eq → a ≡ b
unfolding cmp_bytes
cmp_bytes-equal [] [] h = refl
cmp_bytes-equal [] (y ∷ ys) h = cc
cmp_bytes-equal (x ∷ xs) [] h = cc
cmp_bytes-equal (x ∷ xs) (y ∷ ys) h = ground (arith, cmp_bytes-equal xs ys)

cmp_bytes-lt_trans : (a b c : List ℕ) → cmp_bytes a b ≡ lt → cmp_bytes b c ≡ lt → cmp_bytes a c ≡ lt
unfolding cmp_bytes
cmp_bytes-lt_trans [] [] c h k = cc
cmp_bytes-lt_trans [] (y ∷ ys) [] h k = cc
cmp_bytes-lt_trans [] (y ∷ ys) (z ∷ zs) h k = refl
cmp_bytes-lt_trans (x ∷ xs) [] c h k = cc
cmp_bytes-lt_trans (x ∷ xs) (y ∷ ys) [] h k = cc
cmp_bytes-lt_trans (x ∷ xs) (y ∷ ys) (z ∷ zs) h k = ground (arith, cmp_bytes-lt_trans xs ys zs)

pub cmp_bytes-IsOrder : IsOrder cmp_bytes
cmp_bytes-IsOrder = record {
  swapped = cmp_bytes-swapped;
  equal_left = λ a b c h. ap (λ t. cmp_bytes t c) (cmp_bytes-equal a b h);
  lt_trans = cmp_bytes-lt_trans;
}

module _ {ℓ κ} {A : Type ℓ} {B : Type κ} where
  -- Comparing by a key.
  pub by_key-IsOrder :
      (f : A → B) (cmp : B → B → Ordering) → IsOrder cmp → IsOrder (λ a b. cmp (f a) (f b))
  by_key-IsOrder f cmp o = record {
    swapped = λ a b. o.swapped (f a) (f b);
    equal_left = λ a b c h. o.equal_left (f a) (f b) (f c) h;
    lt_trans = λ a b c h k. o.lt_trans (f a) (f b) (f c) h k;
  }

module _ {ℓ} {A : Type ℓ} where
  pub equal-IsOrder : IsOrder {A = A} (λ a b. eq)
  equal-IsOrder = record {
    swapped = λ a b. refl;
    equal_left = λ a b c h. refl;
    lt_trans = λ a b c h k. cc;
  }

  pub directed-IsOrder :
      (up : Bool) (cmp : A → A → Ordering) → IsOrder cmp → IsOrder (λ a b. directed up (cmp a b))
  directed-IsOrder up cmp o = record {
    swapped = λ a b. ground (arith, o.swapped a b);
    equal_left = λ a b c h. ground (arith, o.equal_left a b c);
    lt_trans = λ a b c h k.
        ground
          (arith, o.lt_trans a b c, o.lt_trans c b a, o.swapped a b, o.swapped b c, o.swapped a c);
  }

  pub then_with-IsOrder :
      (f g : A → A → Ordering) → IsOrder f → IsOrder g → IsOrder (λ a b. then_with (f a b) (g a b))
  then_with-IsOrder f g o p = record {
    swapped = λ a b. ground (arith, o.swapped a b, p.swapped a b);
    equal_left = λ a b c h. ground (arith, o.equal_left a b c, p.equal_left a b c);
    lt_trans = λ a b c h k. ground (
      arith,
      o.lt_trans a b c,
      p.lt_trans a b c,
      o.equal_left a b c,
      o.equal_left b c a,
      o.swapped a b,
      o.swapped b c,
      o.swapped a c,
    );
  }
