-- ===== src/Strings/Compare.antt =====
-- crates/cobol-runtime/src/string_ops.rs: alphanumeric fields compared as if padded with spaces.
use rust_cobol.Prelude.{
  ℕ, zero, suc, ◌≤◌, ◌≡◌, refl, List, [], ◌∷◌, map, arith, ltb, if◌then◌else◌, length, get_or,
}
use rust_cobol.Prelude.Int.{ℤ, pos, negsuc}
use Prim.Native.Nat.{Ordering, lt, eq, gt}
use rust_cobol.Sort.Order.{cmp_bytes}

-- One round of the loop: the two characters' weights, and the result of the later rounds.
abbrev round : ℕ → ℕ → ℤ → ℤ
round wa wb rest = if ltb wa wb then negsuc 0 else if ltb wb wa then pos 1 else rest

-- The loop over the longer length; `weight` gives each byte's place in the collating sequence.
unfoldable pub compare_weighted : (ℕ → ℕ) → List ℕ → List ℕ → ℤ
compare_weighted weight [] [] = pos 0
compare_weighted weight [] (y ∷ ys) = round (weight 32) (weight y) (compare_weighted weight [] ys)
compare_weighted weight (x ∷ xs) [] = round (weight x) (weight 32) (compare_weighted weight xs [])
compare_weighted weight (x ∷ xs) (y ∷ ys) =
    round (weight x) (weight y) (compare_weighted weight xs ys)

unfoldable pub cobol_compare_alphanumeric : List ℕ → List ℕ → ℤ
cobol_compare_alphanumeric a b = compare_weighted (λ c. c) a b

-- `weights` has 256 entries, one for each byte.
unfoldable pub cobol_compare_alphanumeric_collated : List ℕ → List ℕ → List ℕ → ℤ
cobol_compare_alphanumeric_collated weights a b = compare_weighted (λ c. get_or weights c 0) a b

-- A field padded with spaces to a length, where it is shorter.
unfoldable pub padded : ℕ → List ℕ → List ℕ
padded zero a = a
padded (suc n) [] = 32 ∷ padded n []
padded (suc n) (x ∷ xs) = x ∷ padded n xs

abbrev pub as_int : Ordering → ℤ
as_int lt = negsuc 0
as_int eq = pos 0
as_int gt = pos 1

compare_weighted_nil : (weight : ℕ → ℕ) → compare_weighted weight [] [] ≡ pos 0
unfolding compare_weighted
compare_weighted_nil weight = refl

-- The comparison is the lexicographic one of the weights of both fields, padded with spaces to any
-- one length that is at least their own.
pub compare_weighted-padded :
    (weight : ℕ → ℕ) (a b : List ℕ) (n : ℕ)
    → length a ≤ n
    → length b ≤ n
    → compare_weighted weight a b
      ≡ as_int (cmp_bytes (map weight (padded n a)) (map weight (padded n b)))
unfolding compare_weighted padded cmp_bytes
compare_weighted-padded weight [] [] zero h k = refl
compare_weighted-padded weight [] [] (suc n) h k =
    ground (arith, compare_weighted-padded weight [] [] n, compare_weighted_nil weight)
compare_weighted-padded weight [] (y ∷ ys) zero h k = absurd (omega arith)
compare_weighted-padded weight [] (y ∷ ys) (suc n) h k =
    ground (arith, compare_weighted-padded weight [] ys n)
compare_weighted-padded weight (x ∷ xs) [] zero h k = absurd (omega arith)
compare_weighted-padded weight (x ∷ xs) [] (suc n) h k =
    ground (arith, compare_weighted-padded weight xs [] n)
compare_weighted-padded weight (x ∷ xs) (y ∷ ys) zero h k = absurd (omega arith)
compare_weighted-padded weight (x ∷ xs) (y ∷ ys) (suc n) h k =
    ground (arith, compare_weighted-padded weight xs ys n)
