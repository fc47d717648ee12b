-- ===== src/Sort/Records.antt =====
-- crates/cobol-runtime/src/sort_merge.rs, `cobol_sort`: fixed-length records, one behind another.
use rust_cobol.Prelude.{
  take-append, drop-append, ℕ, zero, suc, ◌+◌, ◌*◌, ◌≤◌, ◌≡◌, refl, sym, ap, ◌∙◌, inl, inr, true,
  false, ◌||◌, List, [], ◌∷◌, ◌++◌, arith, leb, ◌==◌, if◌then◌else◌, leb→le, Bool-cases, length,
  take, drop, length-append, length-take, length-drop,
}
use Prim.Native.Nat.{Ordering}
use mathlib.Core.List.{Perm}
use rust_cobol.Sort.Compare.{SortKey, Record, compare_records, compare_records-IsOrder}
use rust_cobol.Sort.Stable.{
  is_gt, sort_by, insert, Below, IsSorted, equals, sort_by-Perm, sort_by-IsSorted, equals-sort_by,
  sort_by_self, length-sort_by,
}

-- `chunks_exact(n)` of a slice that holds `count` records.
unfoldable pub chunks : ℕ → ℕ → List ℕ → List Record
chunks zero n bytes = []
chunks (suc count) n bytes = take n bytes ∷ chunks count n (drop n bytes)

-- The comparison that `sort_by` is given.
abbrev pub by_keys : List SortKey → Record → Record → Ordering
by_keys keys a b = compare_records a b keys

-- The records written back over the buffer.
unfoldable pub write_back : List Record → List ℕ
write_back [] = []
write_back (r ∷ rs) = r ++ write_back rs

-- `bytes` is the slice of `record_count * record_len` bytes.
unfoldable pub cobol_sort : List ℕ → ℕ → ℕ → List SortKey → List ℕ
cobol_sort bytes record_count record_len keys =
    if leb record_count 1 || (record_len == 0 || length keys == 0)
    then bytes
    else write_back (sort_by (by_keys keys) (chunks record_count record_len bytes))

-- Every record has `n` bytes.
abbrev pub AllLong : ℕ → List Record → Type 0
AllLong n [] = Unit {0}
AllLong n (r ∷ rs) = (length r ≡ n) × AllLong n rs

insert-AllLong :
    (keys : List SortKey) (n : ℕ) (r : Record) (rs : List Record)
    → length r ≡ n
    → AllLong n rs
    → AllLong n (insert (by_keys keys) r rs)
unfolding insert
insert-AllLong keys n r [] h a = (h, tt)
insert-AllLong keys n r (x ∷ rs) h a = ground (arith, insert-AllLong keys n r rs h a.1)

pub sort_by-AllLong :
    (keys : List SortKey) (n : ℕ) (rs : List Record)
    → AllLong n rs
    → AllLong n (sort_by (by_keys keys) rs)
unfolding sort_by
sort_by-AllLong keys n [] a = tt
sort_by-AllLong keys n (r ∷ rs) a =
    insert-AllLong keys n r (sort_by (by_keys keys) rs) a.0 (sort_by-AllLong keys n rs a.1)

chunks-AllLong :
    (count n : ℕ) (bytes : List ℕ) → length bytes ≡ count * n → AllLong n (chunks count n bytes)
unfolding chunks
chunks-AllLong zero n bytes h = tt
chunks-AllLong (suc count) n bytes h =
    let e : suc count * n ≡ n + count * n = omega arith in
    (
      omega (arith, length-take n bytes, e),
      chunks-AllLong count n (drop n bytes) (omega (arith, length-drop n bytes, e)),
    )

pub chunks-write_back :
    (n : ℕ) (rs : List Record)
    → AllLong n rs
    → (chunks (length rs) n (write_back rs) ≡ rs) × (length (write_back rs) ≡ length rs * n)
unfolding chunks write_back
chunks-write_back n [] a = (refl, omega arith)
chunks-write_back n (r ∷ rs) (h, a) =
    let (cut, size) = chunks-write_back n rs a in
    (
      rw (← h) (
          rw (take-append r (write_back rs), drop-append r (write_back rs))
            (ap (λ t. r ∷ t) (rw h cut))),
      omega (arith, h, size, length-append r (write_back rs)),
    )

length-chunks : (count n : ℕ) (bytes : List ℕ) → length (chunks count n bytes) ≡ count
unfolding chunks
length-chunks zero n bytes = refl
length-chunks (suc count) n bytes = ap suc (length-chunks count n (drop n bytes))

-- Where the source returns at once, the records are in order already.
IsSorted-few :
    (bytes : List ℕ) (count n : ℕ) (keys : List SortKey)
    → count ≤ 1
    → IsSorted (by_keys keys) (chunks count n bytes)
unfolding chunks
IsSorted-few bytes zero n keys h = tt
IsSorted-few bytes (suc zero) n keys h = (tt, tt)
IsSorted-few bytes (suc (suc count)) n keys h = absurd (omega arith)

compare_self : (keys : List SortKey) (a : Record) → is_gt (compare_records a a keys) ≡ false
compare_self keys a = ground (arith, (compare_records-IsOrder keys).swapped a a)

Below-empty :
    (bytes : List ℕ) (count : ℕ) (keys : List SortKey)
    → Below (by_keys keys) [] (chunks count 0 bytes)
unfolding chunks
Below-empty bytes zero keys = tt
Below-empty bytes (suc count) keys = (compare_self keys [], Below-empty bytes count keys)

IsSorted-empty :
    (bytes : List ℕ) (count : ℕ) (keys : List SortKey)
    → IsSorted (by_keys keys) (chunks count 0 bytes)
unfolding chunks
IsSorted-empty bytes zero keys = tt
IsSorted-empty bytes (suc count) keys =
    (Below-empty bytes count keys, IsSorted-empty bytes count keys)

Below-no_keys : (r : Record) (rs : List Record) → Below (by_keys []) r rs
unfolding compare_records
Below-no_keys r [] = tt
Below-no_keys r (x ∷ rs) = (refl, Below-no_keys r rs)

IsSorted-no_keys : (rs : List Record) → IsSorted (by_keys []) rs
IsSorted-no_keys [] = tt
IsSorted-no_keys (r ∷ rs) = (Below-no_keys r rs, IsSorted-no_keys rs)

length_zero : (keys : List SortKey) → (length keys == 0) ≡ true → keys ≡ []
length_zero [] h = refl
length_zero (k ∷ ks) h = ground arith

trivially-IsSorted :
    (bytes : List ℕ) (record_count record_len : ℕ) (keys : List SortKey)
    → (leb record_count 1 || (record_len == 0 || length keys == 0)) ≡ true
    → IsSorted (by_keys keys) (chunks record_count record_len bytes)
trivially-IsSorted bytes record_count record_len keys h = elim (Bool-cases (leb record_count 1)) [
  | inl few ↦ IsSorted-few bytes record_count record_len keys (leb→le _ _ few)
  | inr many ↦ elim (Bool-cases (record_len == 0)) [
    | inl empty ↦
        let z : record_len ≡ 0 = ground arith in rw z (IsSorted-empty bytes record_count keys)
    | inr long ↦
        let none_left : keys ≡ [] = length_zero keys (ground arith) in
        rw none_left (IsSorted-no_keys (chunks record_count record_len bytes))
  ]
]

cobol_sort-chunks :
    (bytes : List ℕ) (record_count record_len : ℕ) (keys : List SortKey)
    → length bytes ≡ record_count * record_len
    → (chunks record_count record_len (cobol_sort bytes record_count record_len keys)
        ≡ sort_by (by_keys keys) (chunks record_count record_len bytes))
      × (length (cobol_sort bytes record_count record_len keys) ≡ length bytes)
unfolding cobol_sort
cobol_sort-chunks bytes record_count record_len keys h =
    let before = chunks record_count record_len bytes in
    let sorted = sort_by (by_keys keys) before in
    let o = compare_records-IsOrder keys in
    elim (Bool-cases (leb record_count 1 || (record_len == 0 || length keys == 0))) [
      | inl trivial ↦ rw trivial (
        sym (
            sort_by_self (by_keys keys) o before
              (trivially-IsSorted bytes record_count record_len keys trivial)),
        refl,
      )
      | inr real ↦
          let count : length sorted ≡ record_count =
            length-sort_by (by_keys keys) before ∙ length-chunks record_count record_len bytes in
          let (cut, size) = chunks-write_back record_len sorted (
            sort_by-AllLong keys record_len before
              (chunks-AllLong record_count record_len bytes h)) in
          rw real (
            ap (λ c. chunks c record_len (write_back sorted)) (sym count) ∙ cut,
            size ∙ ap (λ (c : ℕ). c * record_len) count ∙ sym h,
          )
    ]

-- `cobol_sort` on a buffer of `record_count` records of `record_len` bytes each: the records of the
-- buffer afterwards are those before it, in a stable sorted order. No record is greater than one
-- behind it, they are a permutation, records that compare equal to any `k` keep their order, and the
-- buffer keeps its length.
pub cobol_sort-sorts :
    (bytes : List ℕ) (record_count record_len : ℕ) (keys : List SortKey) (k : Record)
    → length bytes ≡ record_count * record_len
    → let out = cobol_sort bytes record_count record_len keys in
      let before = chunks record_count record_len bytes in
      let after = chunks record_count record_len out in
      IsSorted (by_keys keys) after
      × Perm after before
      × (equals (by_keys keys) k after ≡ equals (by_keys keys) k before)
      × (length out ≡ length bytes)
cobol_sort-sorts bytes record_count record_len keys k h =
    let before = chunks record_count record_len bytes in
    let o = compare_records-IsOrder keys in
    let (e, size) = cobol_sort-chunks bytes record_count record_len keys h in
    (
      rw e (sort_by-IsSorted (by_keys keys) o before),
      rw e (sort_by-Perm (by_keys keys) before),
      rw e (equals-sort_by (by_keys keys) o k before),
      size,
    )
