-- ===== src/Strings/Zoned.antt =====
-- crates/cobol-runtime/src/string_ops.rs: numbers in DISPLAY fields, with embedded and separate signs.
pub mod Fields
pub mod RoundTrip
use rust_cobol.Prelude.{
  ℕ, zero, suc, ◌+◌, ◌-◌, ◌*◌, ◌/◌, ◌%◌, ◌^◌, ◌≤◌, ◌<◌, min, max, ◌≡◌, refl, sym, ap, ◌∙◌, ◌≢◌, ◌↔◌,
  ◌⊎◌, inl, inr, Bool, true, false, not, ◌&&◌, ◌||◌, Option, none, some, List, [], ◌∷◌, ◌++◌, map,
  arith, ltb, leb, ◌==◌, if◌then◌else◌, ltb→lt, lt→ltb, leb→le, Bool-cases, Option-cases, length,
  get_elem?, set, take, drop, replicate, length-append, get_or, length-set, get_elem?-set_self,
  get_elem?-set_ne, take-append-drop, length-take, length-drop, length-replicate, length-map,
  get_elem?-append_last, get_elem?-length,
}
use rust_cobol.Prelude.Text.{
  Text, codes, text_eq, is_ascii_digit, is_ascii_uppercase, is_ascii_lowercase,
  is_ascii_alphanumeric, is_ascii_whitespace, to_ascii_uppercase, to_ascii_lowercase, uppercase,
  text_eq_refl, eq_of_text_eq, parse_unsigned,
}
use rust_cobol.Prelude.Words.{
  u32, i64_max, saturating_digit, wrap_i32, wrap_i64, wrap_i128, wrap_i32_self, wrap_i64_self,
  wrap_i128_self,
}
use rust_cobol.Prelude.Int.{
  ℤ, pos, negsuc, pos_part, neg_part, sub_ℕ, ◌+ℤ◌, ◌-ℤ◌, ◌*ℤ◌, quot, ◌≤ℤ◌, ltb_ℤ, +ℤ_comm, *ℤ_comm,
  +ℤ_parts, -ℤ_parts, eq_of_parts, int_laws,
}
use mathlib.Core.List.{reverse}
use rust_cobol.Decimal.Convert.{unsigned_abs}

-- The loop over the slots from the last to the first; the field is filled with zeros before.
unfoldable pub fill_digits : ℕ → ℕ → List ℕ
fill_digits zero n = []
fill_digits (suc slots) n =
    let rest = fill_digits slots (n / 10) in
    (b'0' + n % 10) ∷ (if n / 10 == 0 then replicate slots b'0' else rest)

-- The embedded minus sign of a digit.
unfoldable pub overpunch : ℕ → ℕ
overpunch c = if c == b'0' then b'}' else if leb b'1' c && leb c b'9' then b'J' + (c - b'1') else c

abbrev pub on_head : (ℕ → ℕ) → List ℕ → List ℕ
on_head f [] = []
on_head f (b ∷ bs) = f b ∷ bs

abbrev is_negative : ℤ → Bool
is_negative v = ltb_ℤ v (pos 0)

-- The field read backwards, with the sign on its last byte.
unfoldable pub stored_backwards : ℤ → ℕ → List ℕ
stored_backwards value dst_len =
    let digits = fill_digits dst_len (unsigned_abs value) in
    if is_negative value then on_head overpunch digits else digits

unfoldable pub cobol_store_numeric_display : ℤ → ℕ → List ℕ
cobol_store_numeric_display value dst_len = reverse (stored_backwards value dst_len)

unfoldable pub cobol_store_numeric_display_leading_sign : ℤ → ℕ → List ℕ
cobol_store_numeric_display_leading_sign value dst_len =
    let stored = cobol_store_numeric_display (wrap_i64 (pos (unsigned_abs value))) dst_len in
    if is_negative value then on_head overpunch stored else stored

-- `position` is 0 for a leading sign.
unfoldable pub cobol_store_numeric_display_separate_sign : ℤ → ℕ → ℕ → List ℕ
cobol_store_numeric_display_separate_sign value zero position = []
cobol_store_numeric_display_separate_sign value (suc digit_len) position =
    let sign = if is_negative value then b'-' else b'+' in
    let digits = reverse (fill_digits digit_len (unsigned_abs value)) in
    if position == 0 then sign ∷ digits else digits ++ sign ∷ []

-- The number read so far.
pub record Reading : Type 0 where
  pub negative : Bool
  pub value : ℕ
  pub saw_digit : Bool

-- A byte as a digit and the sign that it carries, if any; `edge` says whether it is the first or the
-- last of the field. `none` is the early return of 0.
unfoldable pub zoned_digit : Bool → ℕ → Option (ℕ × Option Bool)
zoned_digit edge b =
    if is_ascii_digit b
    then some (b - b'0', none)
    else if not edge
    then none
    else if b == b'{'
    then some (0, some false)
    else if leb b'A' b && leb b b'I'
    then some (b - b'A' + 1, some false)
    else if b == b'}'
    then some (0, some true)
    else if leb b'J' b && leb b b'R'
    then some (b - b'J' + 1, some true)
    else none

abbrev sign_or : Bool → Option Bool → Bool
sign_or negative none = negative
sign_or negative (some s) = s

abbrev pub is_empty : List ℕ → Bool
is_empty [] = true
is_empty (b ∷ bs) = false

unfoldable pub read_digits : Bool → Reading → List ℕ → Option Reading
read_digits first r [] = some r
read_digits first r (b ∷ bs) = elim (zoned_digit (first || is_empty bs) b) [
  | none ↦ none
  | some (digit, sign) ↦
      read_digits false
        (record {
          negative = sign_or r.negative sign;
          value = saturating_digit r.value digit;
          saw_digit = true;
        })
        bs
]

abbrev pub reading_value : Option Reading → ℤ
reading_value none = pos 0
reading_value (some r) =
    if not r.saw_digit then pos 0 else if r.negative then sub_ℕ 0 r.value else pos r.value

unfoldable pub skip_spaces : List ℕ → List ℕ
skip_spaces [] = []
skip_spaces (b ∷ bs) = let rest = skip_spaces bs in if b == b' ' then rest else b ∷ bs

abbrev is_sign : ℕ → Bool
is_sign b = b == b'+' || b == b'-'

-- What is left of the field, read backwards, after a leading sign.
unfoldable pub without_trailing_sign : Bool → List ℕ → ℤ
without_trailing_sign negative [] =
    reading_value
      (read_digits true (record { negative = negative; value = 0; saw_digit = false }) [])
without_trailing_sign negative (c ∷ cs) =
    if is_sign c
    then reading_value (
        read_digits true (record { negative = c == b'-'; value = 0; saw_digit = false })
          (reverse cs))
    else reading_value (
        read_digits true (record { negative = negative; value = 0; saw_digit = false })
          (reverse (c ∷ cs)))

unfoldable pub without_leading_sign : List ℕ → ℤ
without_leading_sign [] = pos 0
without_leading_sign (c ∷ cs) =
    if is_sign c
    then without_trailing_sign (c == b'-') (reverse cs)
    else without_trailing_sign false (reverse (c ∷ cs))

unfoldable pub cobol_display_to_int64 : List ℕ → ℤ
cobol_display_to_int64 src =
    without_leading_sign (reverse (skip_spaces (reverse (skip_spaces src))))
