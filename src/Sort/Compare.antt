-- ===== src/Sort/Compare.antt =====
-- crates/cobol-runtime/src/sort_merge.rs, `compare_records`.
use rust_cobol.Prelude.{
  ℕ, ◌+◌, ◌-◌, min, ◌≡◌, ◌≢◌, ◌⊎◌, Bool, true, false, List, [], ◌∷◌, arith, ◌==◌, if◌then◌else◌,
  length, take, drop,
}
use Prim.Native.Nat.{compare, Ordering, lt, eq}
use rust_cobol.Sort.Order.{
  swap, directed, then_with, IsOrder, cmp_ℤ, cmp_ℤ-IsOrder, cmp_bytes, cmp_bytes-IsOrder,
  by_key-IsOrder, equal-IsOrder, directed-IsOrder, then_with-IsOrder,
}
use rust_cobol.Sort.Keys.{read_signed_le, read_unsigned_le, display_numeric_to_i64}

abbrev pub sort_key_alpha : ℕ
sort_key_alpha = 0

abbrev pub sort_key_signed_binary : ℕ
sort_key_signed_binary = 1

abbrev pub sort_key_unsigned_binary : ℕ
sort_key_unsigned_binary = 2

abbrev pub sort_key_display_numeric : ℕ
sort_key_display_numeric = 3

pub record SortKey : Type 0 where
  pub offset : ℕ
  pub length : ℕ
  pub ascending : Bool
  pub key_type : ℕ

-- A record is its bytes.
abbrev pub Record : Type 0
Record = List ℕ

-- The key's bytes, cut where the record ends.
unfoldable pub field : SortKey → Record → List ℕ
field key a =
    let start = min key.offset (length a) in
    let end = min (start + key.length) (length a) in take (end - start) (drop start a)

-- The match on the key's type.
unfoldable pub compare_fields : ℕ → List ℕ → List ℕ → Ordering
compare_fields key_type ka kb =
    if key_type == sort_key_signed_binary
    then cmp_ℤ (read_signed_le ka) (read_signed_le kb)
    else if key_type == sort_key_unsigned_binary
    then compare (read_unsigned_le ka) (read_unsigned_le kb)
    else if key_type == sort_key_display_numeric
    then cmp_ℤ (display_numeric_to_i64 ka) (display_numeric_to_i64 kb)
    else cmp_bytes ka kb

-- The loop over the keys ends at the first that tells the records apart.
unfoldable pub compare_records : Record → Record → List SortKey → Ordering
compare_records a b [] = eq
compare_records a b (key ∷ keys) =
    then_with (directed key.ascending (compare_fields key.key_type (field key a) (field key b)))
      (compare_records a b keys)

compare-IsOrder : IsOrder compare
compare-IsOrder = record {
  swapped = λ a b. ground arith;
  equal_left = λ a b c h. ground arith;
  lt_trans = λ a b c h k. ground arith;
}

-- A comparison that a test chooses.
if-IsOrder :
    (b : Bool) (f g : List ℕ → List ℕ → Ordering)
    → IsOrder f
    → IsOrder g
    → IsOrder (λ x y. if b then f x y else g x y)
if-IsOrder true f g o p = o
if-IsOrder false f g o p = p

compare_fields-IsOrder : (key_type : ℕ) → IsOrder (compare_fields key_type)
unfolding compare_fields
compare_fields-IsOrder key_type =
    if-IsOrder (key_type == sort_key_signed_binary) _ _
      (by_key-IsOrder read_signed_le cmp_ℤ cmp_ℤ-IsOrder)
      (if-IsOrder (key_type == sort_key_unsigned_binary) _ _
        (by_key-IsOrder read_unsigned_le compare compare-IsOrder)
        (if-IsOrder (key_type == sort_key_display_numeric) _ _
          (by_key-IsOrder display_numeric_to_i64 cmp_ℤ cmp_ℤ-IsOrder) cmp_bytes-IsOrder))

pub compare_records-IsOrder : (keys : List SortKey) → IsOrder (λ a b. compare_records a b keys)
unfolding compare_records
compare_records-IsOrder [] = equal-IsOrder
compare_records-IsOrder (key ∷ keys) =
    then_with-IsOrder
      (λ a b. directed key.ascending (compare_fields key.key_type (field key a) (field key b)))
      (λ a b. compare_records a b keys)
      (directed-IsOrder key.ascending
        (λ a b. compare_fields key.key_type (field key a) (field key b))
        (by_key-IsOrder (field key) (compare_fields key.key_type)
          (compare_fields-IsOrder key.key_type)))
      (compare_records-IsOrder keys)

-- For any keys, `compare_records` orders records as a total preorder: swapping two records swaps
-- the outcome, records that compare equal compare alike with a third, and `lt` is transitive.
pub compare_records_order :
    (keys : List SortKey) (a b c : Record)
    → let cmp : Record → Record → Ordering = λ x y. compare_records x y keys in
      (cmp b a ≡ swap (cmp a b))
      × ((cmp a b ≢ eq) ⊎ (cmp a c ≡ cmp b c))
      × ((cmp a b ≢ lt) ⊎ ((cmp b c ≢ lt) ⊎ (cmp a c ≡ lt)))
compare_records_order keys a b c =
    let o = compare_records-IsOrder keys in
    (o.swapped a b, ground (arith, o.equal_left a b c), ground (arith, o.lt_trans a b c))
