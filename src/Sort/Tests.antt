-- ===== src/Sort/Tests.antt =====
-- crates/cobol-runtime/src/sort_merge.rs: tests and instances at concrete inputs.
use rust_cobol.Prelude.{
  ◌≡◌, refl, ◌≢◌, ◌⊎◌, false, none, some, List, [], ◌∷◌, arith, ◌==◌, if◌then◌else◌, length,
}
use rust_cobol.Prelude.Text.{codes}
use Prim.Native.Nat.{Ordering, lt, eq}
use rust_cobol.Sort.Order.{swap}
use rust_cobol.Sort.Compare.{
  SortKey, Record, compare_records, sort_key_alpha, compare_records_order,
}
use rust_cobol.Sort.Stable.{sort_by, equals, IsSorted}
use rust_cobol.Sort.Records.{chunks, by_keys, cobol_sort, cobol_sort-sorts}
use rust_cobol.Sort.Buffer.{
  Buffers, fresh, init, buffer_at, sort, release_each, return_each, init-free,
}
use rust_cobol.Sort.Cycle.{delivered, sort_cycle}
use mathlib.Core.List.{Perm}

-- The first byte, descending.
abbrev by_first : List SortKey
by_first = record { offset = 0; length = 1; ascending = false; key_type = sort_key_alpha } ∷ []

compare_records_order_example :
    let cmp : Record → Record → Ordering = λ x y. compare_records x y by_first in
    (cmp (codes "b") (codes "a") ≡ swap (cmp (codes "a") (codes "b")))
    × ((cmp (codes "a") (codes "b") ≢ eq)
        ⊎ (cmp (codes "a") (codes "c") ≡ cmp (codes "b") (codes "c")))
    × ((cmp (codes "a") (codes "b") ≢ lt)
        ⊎ ((cmp (codes "b") (codes "c") ≢ lt) ⊎ (cmp (codes "a") (codes "c") ≡ lt)))
compare_records_order_example = compare_records_order by_first (codes "a") (codes "b") (codes "c")

cobol_sort-sorts_example :
    let out = cobol_sort (codes "a1b1a2") 3 2 by_first in
    let before = chunks 3 2 (codes "a1b1a2") in
    let after = chunks 3 2 out in
    IsSorted (by_keys by_first) after
    × Perm after before
    × (equals (by_keys by_first) (codes "a0") after ≡ equals (by_keys by_first) (codes "a0") before)
    × (length out ≡ 6)
cobol_sort-sorts_example = cobol_sort-sorts (codes "a1b1a2") 3 2 by_first (codes "a0") refl

abbrev one_slot : Buffers
one_slot = some (fresh 4) ∷ none ∷ []

init-free_example :
    let (s', id) = init one_slot 8 in
    (buffer_at one_slot id ≡ none)
    × (buffer_at s' 1 ≡ (if 1 == id then some (fresh 8) else buffer_at one_slot 1))
init-free_example = init-free one_slot 8 1 (omega arith)

abbrev released : List Record
released = codes "a1" ∷ codes "b1" ∷ codes "a2" ∷ []

sort_cycle_example :
    let (started, id) = init one_slot 2 in
    (sorted : Buffers) × (sort (release_each started id released) id by_first ≡ some sorted)
    × (return_each 4 2 sorted id ≡ delivered (sort_by (by_keys by_first) released) 4)
sort_cycle_example =
    sort_cycle one_slot released 2 by_first 4 (omega arith) (omega arith) (refl, (refl, (refl, tt)))
