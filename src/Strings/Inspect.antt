-- ===== src/Strings/Inspect.antt =====
-- crates/cobol-runtime/src/string_ops.rs: INSPECT, its loops over the text that is left.
pub mod Cut
use rust_cobol.Prelude.{
  ℕ, zero, suc, ◌+◌, ◌-◌, ◌*◌, ◌/◌, ◌%◌, ◌^◌, ◌≤◌, ◌<◌, min, max, ◌≡◌, refl, sym, ap, ◌∙◌, ◌≢◌, ◌↔◌,
  ◌⊎◌, inl, inr, Bool, true, false, not, ◌&&◌, ◌||◌, Option, none, some, List, [], ◌∷◌, ◌++◌, map,
  arith, ltb, leb, ◌==◌, if◌then◌else◌, ltb→lt, lt→ltb, leb→le, Bool-cases, Option-cases, length,
  get_elem?, set, take, drop, replicate, length-append, get_or, length-set, get_elem?-set_self,
  get_elem?-set_ne, take-append-drop, length-take, length-drop, length-replicate, length-map,
  get_elem?-append_last, get_elem?-length,
}
use rust_cobol.Prelude.Text.{
  Text, codes, text_eq, is_ascii_digit, is_ascii_uppercase, is_ascii_lowercase,
  is_ascii_alphanumeric, is_ascii_whitespace, to_ascii_uppercase, to_ascii_lowercase, uppercase,
  text_eq_refl, eq_of_text_eq, parse_unsigned,
}
use rust_cobol.Prelude.Words.{
  u32, wrap_i32, wrap_i64, wrap_i128, wrap_i32_self, wrap_i64_self, wrap_i128_self,
}
use rust_cobol.Prelude.Int.{
  ℤ, pos, negsuc, pos_part, neg_part, sub_ℕ, ◌+ℤ◌, ◌-ℤ◌, ◌*ℤ◌, quot, ◌≤ℤ◌, ltb_ℤ, +ℤ_comm, *ℤ_comm,
  +ℤ_parts, -ℤ_parts, eq_of_parts, int_laws,
}
use mathlib.Core.List.{append_assoc, append-nil}

abbrev pub starts_with : List ℕ → List ℕ → Bool
starts_with [] src = true
starts_with (x ∷ xs) [] = false
starts_with (x ∷ xs) (y ∷ ys) = x == y && starts_with xs ys

-- The loop of `cobol_inspect_tallying`: from one position to the next, or past an occurrence.
unfoldable pub tally_from : ℕ → Bool → List ℕ → List ℕ → ℕ
tally_from zero leading key src = 0
tally_from (suc fuel) leading key [] = 0
tally_from (suc fuel) leading key (b ∷ bs) = elim (starts_with key (b ∷ bs)) [
  | true ↦ suc (tally_from fuel leading key (drop (length key) (b ∷ bs)))
  | false ↦ let rest = tally_from fuel leading key bs in if leading then 0 else rest
]

-- Mode 0 counts the characters, 2 the leading occurrences, any other all occurrences.
unfoldable pub cobol_inspect_tallying : ℕ → List ℕ → List ℕ → ℕ
cobol_inspect_tallying zero key src = length src
cobol_inspect_tallying (suc mode) [] src = 0
cobol_inspect_tallying (suc mode) (s ∷ key) src =
    u32 (tally_from (length src) (suc mode == 2) (s ∷ key) src)

-- The bytes of `key` overwritten by those of `replace`, as far as it goes.
abbrev pub overwrite : List ℕ → List ℕ → List ℕ
overwrite key replacement =
    let rep_len = min (length key) (length replacement) in
    take rep_len replacement ++ drop rep_len key

-- The loop of `cobol_inspect_replacing`.
unfoldable pub replace_from : ℕ → ℕ → List ℕ → List ℕ → List ℕ → List ℕ
replace_from zero mode key replacement src = src
replace_from (suc fuel) mode key replacement [] = []
replace_from (suc fuel) mode key replacement (b ∷ bs) = elim (starts_with key (b ∷ bs)) [
  | true ↦ overwrite key replacement ++ elim (mode == 3) [
    | true ↦ drop (length key) (b ∷ bs)
    | false ↦ replace_from fuel mode key replacement (drop (length key) (b ∷ bs))
  ]
  | false ↦ elim (mode == 2) [
    | true ↦ b ∷ bs
    | false ↦ b ∷ replace_from fuel mode key replacement bs
  ]
]

-- Mode 0 replaces the characters, 2 the leading occurrences, 3 the first and any other all.
unfoldable pub cobol_inspect_replacing : ℕ → List ℕ → List ℕ → List ℕ → List ℕ
cobol_inspect_replacing zero key [] src = src
cobol_inspect_replacing zero key (r ∷ replacement) src = map (λ b. r) src
cobol_inspect_replacing (suc mode) [] replacement src = src
cobol_inspect_replacing (suc mode) (s ∷ key) replacement src =
    replace_from (length src) (suc mode) (s ∷ key) replacement src

-- The translation table after the pairs of FROM and TO are entered, as the entry of one byte.
unfoldable pub table_entry : List ℕ → List ℕ → ℕ → ℕ → ℕ
table_entry [] to entry b = entry
table_entry (f ∷ from) [] entry b = entry
table_entry (f ∷ from) (t ∷ to) entry b = table_entry from to (if f == b then t else entry) b

unfoldable pub cobol_inspect_converting : List ℕ → List ℕ → List ℕ → List ℕ
cobol_inspect_converting from to src = map (λ b. table_entry from to b b) src
