-- ===== src/Strings/Tests.antt =====
-- crates/cobol-runtime/src/string_ops.rs: tests and instances at concrete inputs.
use rust_cobol.Prelude.{
  ℕ, ◌+◌, ◌-◌, ◌≤◌, ◌<◌, min, ◌≡◌, refl, ◌⊎◌, true, none, some, List, [], ◌∷◌, ◌++◌, map, arith,
  ltb, if◌then◌else◌, length, take, drop, replicate,
}
use rust_cobol.Prelude.Text.{Text, codes}
use rust_cobol.Prelude.Words.{u32}
use rust_cobol.Prelude.Int.{pos, negsuc}
use rust_cobol.Strings.Compare.{
  cobol_compare_alphanumeric, compare_weighted, padded, as_int, compare_weighted-padded,
}
use rust_cobol.Sort.Order.{cmp_bytes}
use rust_cobol.Strings.Move.{cobol_move_string, cobol_move_string_right, move_string_fills}
use rust_cobol.Strings.Inspect.{
  overwrite, cobol_inspect_tallying, cobol_inspect_replacing, cobol_inspect_converting,
}
use rust_cobol.Strings.Inspect.Cut.{cut, joined, none_contains, inspect-cut}
use rust_cobol.Strings.Concat.{
  StringSource, cobol_string_concat, text_of, overlay, effective, EndsAt, string_concat-overlay,
  effective_ends,
}
use rust_cobol.Strings.Zoned.{
  cobol_store_numeric_display, cobol_store_numeric_display_leading_sign,
  cobol_store_numeric_display_separate_sign, cobol_display_to_int64,
}
use rust_cobol.Strings.Zoned.RoundTrip.{display_to_int64-store}
use rust_cobol.Strings.Unstring.{UnstringTarget, Delimiters, unstring_from, cobol_unstring}
use rust_cobol.Strings.Unstring.Cutting.{IsUnstrung, unstring_from-IsUnstrung}
use rust_cobol.Strings.Unstring.Resume.{cobol_unstring-resume}

abbrev target : ℕ → UnstringTarget
target n = record { len = n; delimiter_len = some 1; wants_count = true; kind = 0 }

abbrev by_comma : Delimiters
by_comma = record { single_delim = some (codes ","); sources = []; collapse_all = true }

unstring_from-IsUnstrung_example :
    IsUnstrung by_comma
      (target 2 ∷ target 3 ∷ [])
      (codes "AB,,C")
      (unstring_from by_comma (target 2 ∷ target 3 ∷ []) (codes "AB,,C"))
unstring_from-IsUnstrung_example =
    unstring_from-IsUnstrung by_comma (target 2 ∷ target 3 ∷ []) (codes "AB,,C")

cobol_unstring-resume_example :
    let first = cobol_unstring (codes "AB,,C") (target 2 ∷ []) (some 1) none by_comma in
    (cobol_unstring (codes "AB,,C") (target 2 ∷ target 3 ∷ []) (some 1) none by_comma).received
    ≡ first.received
      ++ (cobol_unstring (codes "AB,,C") (target 3 ∷ []) first.pointer none by_comma).received
cobol_unstring-resume_example =
    cobol_unstring-resume (codes "AB,,C") (target 2 ∷ []) (target 3 ∷ []) 1 none none none by_comma
      (omega arith) (omega arith)

compare_weighted-padded_example :
    compare_weighted (λ c. c) (codes "AB") (codes "AB ")
    ≡ as_int
        (cmp_bytes (map (λ c. c) (padded 4 (codes "AB"))) (map (λ c. c) (padded 4 (codes "AB "))))
compare_weighted-padded_example =
    compare_weighted-padded (λ c. c) (codes "AB") (codes "AB ") 4 (omega arith) (omega arith)

compare_test : cobol_compare_alphanumeric (codes "AB") (codes "ABC") ≡ negsuc 0
unfolding cobol_compare_alphanumeric compare_weighted
compare_test = refl

move_string_fills_example :
    let src : Text = codes "ABC" in
    (length (cobol_move_string src 5) ≡ 5)
    × (length (cobol_move_string_right src 5) ≡ 5)
    × (((length src ≤ 5)
          × (cobol_move_string_right src 5 ≡ replicate (5 - length src) 32 ++ src)
          × (compare_weighted (λ c. c) (cobol_move_string src 5) src ≡ pos 0))
        ⊎ ((5 < length src)
            × (cobol_move_string src 5 ≡ take 5 src)
            × (cobol_move_string_right src 5 ≡ drop (length src - 5) src)))
move_string_fills_example = move_string_fills (λ c. c) (codes "ABC") 5

inspect-cut_example :
    let src : Text = codes "ABABCAB" in
    let (p, ps) = cut (length src) (codes "AB") src in
    (joined (codes "AB") p ps ≡ src)
    × (none_contains (codes "AB") p ps ≡ true)
    × (cobol_inspect_tallying 1 (codes "AB") src ≡ length ps)
    × (cobol_inspect_replacing 1 (codes "AB") (codes "XY") src
        ≡ joined (overwrite (codes "AB") (codes "XY")) p ps)
inspect-cut_example = inspect-cut b'A' (codes "B") (codes "XY") (codes "ABABCAB") (omega arith)

inspect_test : cobol_inspect_converting (codes "abc") (codes "ABC") (codes "a-cab") ≡ codes "A-CAB"
unfolding cobol_inspect_converting rust_cobol.Strings.Inspect.table_entry
inspect_test = refl

abbrev two_sources : List StringSource
two_sources =
    record { bytes = codes "AB CD"; delimiter = some (codes " ") }
    ∷ record { bytes = codes "EF"; delimiter = none }
    ∷ []

string_concat-overlay_example :
    let text = text_of two_sources in
    let room = length (codes "______") - (2 - 1) in
    cobol_string_concat two_sources (codes "______") 2 ≡ (
      if ltb room (length text) then 1 else 0,
      overlay (2 - 1) text (codes "______"),
      u32 (2 - 1 + min room (length text) + 1),
    )
string_concat-overlay_example = string_concat-overlay two_sources (codes "______") 2

effective_ends_example :
    EndsAt
      (codes " ")
      (codes "AB CD")
      (effective (record { bytes = codes "AB CD"; delimiter = some (codes " ") }))
    × (effective (record { bytes = codes "AB CD"; delimiter = some [] }) ≡ codes "AB CD")
    × (effective (record { bytes = codes "AB CD"; delimiter = none }) ≡ codes "AB CD")
effective_ends_example = effective_ends (codes "AB CD") [] b' '

display_to_int64-store_example :
    (cobol_display_to_int64 (cobol_store_numeric_display (negsuc 122) 4) ≡ negsuc 122)
    × (cobol_display_to_int64 (cobol_store_numeric_display_leading_sign (negsuc 122) 4)
        ≡ negsuc 122)
    × (cobol_display_to_int64 (cobol_store_numeric_display_separate_sign (negsuc 122) 5 0)
        ≡ negsuc 122)
display_to_int64-store_example = display_to_int64-store (negsuc 122) 4 0 (omega arith) (omega arith)

store_test : cobol_store_numeric_display (negsuc 122) 4 ≡ codes "012L"
unfolding cobol_store_numeric_display rust_cobol.Strings.Zoned.stored_backwards
    rust_cobol.Strings.Zoned.fill_digits rust_cobol.Strings.Zoned.overpunch
store_test = refl
