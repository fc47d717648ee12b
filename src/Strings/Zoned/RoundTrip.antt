-- ===== src/Strings/Zoned/RoundTrip.antt =====
-- crates/cobol-runtime/src/string_ops.rs: a number stored in a DISPLAY field is read back.
use rust_cobol.Prelude.{
  ℕ, suc, ◌+◌, ◌-◌, ◌^◌, ◌≤◌, ◌<◌, ◌≡◌, refl, sym, ap, ◌∙◌, inl, inr, Bool, true, false, some, List,
  [], ◌∷◌, ◌++◌, arith, ◌==◌, if◌then◌else◌, Bool-cases,
}
use rust_cobol.Prelude.Text.{is_ascii_digit}
use rust_cobol.Prelude.Words.{wrap_i64, wrap_i64_self}
use rust_cobol.Prelude.Int.{ℤ, pos, sub_ℕ}
use rust_cobol.Prelude.Words.{i64_max, saturating_digit}
use mathlib.Core.List.{reverse, reverse-append}
use rust_cobol.Decimal.Convert.{unsigned_abs}
use rust_cobol.Strings.Class.{all}
use rust_cobol.Strings.Zoned.{
  fill_digits, overpunch, on_head, stored_backwards, cobol_store_numeric_display,
  cobol_store_numeric_display_leading_sign, cobol_store_numeric_display_separate_sign, is_empty,
  read_digits, reading_value, cobol_display_to_int64, is_negative, is_sign,
}
use rust_cobol.Strings.Zoned.Fields.{
  fill_digits-value, fill_digits-digits, fold_digits, fold_digits-reverse, fold_digits-append,
  read_digits-append, read_digits-digits, zoned_digit-overpunch, all-reverse, plain_field,
  digits_plain, leading_field, trailing_field, folded, blank, is_plain, or_true,
}

-- A value of a sign and a magnitude.
abbrev signed : Bool → ℕ → ℤ
signed negative v = if negative then sub_ℕ 0 v else pos v

signed_abs : (v : ℤ) → signed (is_negative v) (unsigned_abs v) ≡ v
signed_abs v = ground arith

overpunch_plain : (b : ℕ) → is_ascii_digit b ≡ true → is_plain (overpunch b) ≡ true
unfolding overpunch
overpunch_plain b h = ground (arith, h)

-- A field of digits with an embedded minus sign on its first or on its last digit.
overpunched_first :
    (c : ℕ) (cs : List ℕ)
    → all is_ascii_digit (c ∷ cs) ≡ true
    → cobol_display_to_int64 (overpunch c ∷ cs) ≡ sub_ℕ 0 (fold_digits 0 (c ∷ cs))
unfolding read_digits fold_digits
overpunched_first c cs h =
    let digit : is_ascii_digit c ≡ true = ground (arith, h) in
    let rest : all is_ascii_digit cs ≡ true = ground (arith, h) in
    plain_field (overpunch c ∷ cs) (ground (arith, overpunch_plain c digit, digits_plain cs rest))
    ∙ rw (zoned_digit-overpunch c digit, read_digits)
        (ap reading_value (
          read_digits-digits cs false
            (record { negative = true; value = saturating_digit 0 (c - b'0'); saw_digit = true })
            rest))

overpunched_last :
    (b : ℕ) (bs : List ℕ)
    → all is_ascii_digit (b ∷ bs) ≡ true
    → cobol_display_to_int64 (reverse (overpunch b ∷ bs))
      ≡ sub_ℕ 0 (fold_digits 0 (reverse (b ∷ bs)))
unfolding read_digits fold_digits
overpunched_last b bs h =
    let digit : is_ascii_digit b ≡ true = ground (arith, h) in
    let rest : all is_ascii_digit (reverse bs) ≡ true =
      all-reverse is_ascii_digit bs ∙ ground (arith, h) in
    plain_field (reverse (overpunch b ∷ bs)) (
      all-reverse is_plain (overpunch b ∷ bs)
      ∙ ground (arith, overpunch_plain b digit, digits_plain bs, h))
    ∙ ap (λ x. reading_value (read_digits true (blank false) x))
        (reverse-append (overpunch b ∷ []) bs)
    ∙ ap reading_value (read_digits-append (reverse bs) (overpunch b ∷ []) true (blank false) rest)
    ∙ rw (or_true (is_empty (reverse bs)), zoned_digit-overpunch b digit, read_digits) refl
    ∙ ap (λ x. sub_ℕ 0 x)
        (sym (fold_digits-append (reverse bs) (b ∷ []) 0)
          ∙ ap (λ x. fold_digits 0 x) (sym (reverse-append (b ∷ []) bs)))

negative_abs : (v : ℤ) → is_negative v ≡ true → sub_ℕ 0 (unsigned_abs v) ≡ v
negative_abs v h = ground (arith, h)

read_first :
    (v : ℤ) (ds : List ℕ)
    → is_negative v ≡ true
    → all is_ascii_digit ds ≡ true
    → fold_digits 0 ds ≡ unsigned_abs v
    → cobol_display_to_int64 (on_head overpunch ds) ≡ v
read_first v [] h d e = absurd (unfold fold_digits in ground (arith, h, e))
read_first v (c ∷ cs) h d e = overpunched_first c cs d ∙ ap (λ x. sub_ℕ 0 x) e ∙ negative_abs v h

read_last :
    (v : ℤ) (ds : List ℕ)
    → is_negative v ≡ true
    → all is_ascii_digit ds ≡ true
    → fold_digits 0 (reverse ds) ≡ unsigned_abs v
    → cobol_display_to_int64 (reverse (on_head overpunch ds)) ≡ v
read_last v [] h d e = absurd (unfold fold_digits in ground (arith, h, e))
read_last v (b ∷ bs) h d e = overpunched_last b bs d ∙ ap (λ x. sub_ℕ 0 x) e ∙ negative_abs v h

stored_positive : (k n : ℕ) → stored_backwards (pos k) n ≡ fill_digits n k
unfolding stored_backwards
stored_positive k n =
    let plain : is_negative (pos k) ≡ false = ground arith in
    let same : k + 0 ≡ k = omega arith in rw (plain, same) refl

-- The field of `n` digits of a number that it has room for.
module _ (v : ℤ) (n : ℕ) (small : unsigned_abs v ≤ i64_max) (room : unsigned_abs v < 10 ^ n) where
  digits : List ℕ
  digits = fill_digits n (unsigned_abs v)

  digits_digits : all is_ascii_digit (reverse digits) ≡ true
  unfolding digits
  digits_digits = all-reverse is_ascii_digit digits ∙ fill_digits-digits n (unsigned_abs v)

  digits_value : fold_digits 0 (reverse digits) ≡ unsigned_abs v
  unfolding digits
  digits_value =
      fold_digits-reverse digits ∙ omega (arith, small, fill_digits-value n (unsigned_abs v) room)

  -- The digits with a sign, as they are read.
  read_signed :
      (negative : Bool)
      → reading_value (read_digits true (blank negative) (reverse digits))
        ≡ signed negative (unsigned_abs v)
  read_signed negative =
      ap reading_value (read_digits-digits (reverse digits) true (blank negative) digits_digits)
      ∙ go (reverse digits) digits_value
    where
      go :
          (ds : List ℕ)
          → fold_digits 0 ds ≡ unsigned_abs v
          → reading_value (some (folded (blank negative) ds)) ≡ signed negative (unsigned_abs v)
      go [] e = unfold fold_digits in ground (arith, e)
      go (d ∷ ds) e = ground (arith, e)

  read_separate_leading :
      (s : ℕ)
      → is_sign s ≡ true
      → cobol_display_to_int64 (s ∷ reverse digits) ≡ signed (s == b'-') (unsigned_abs v)
  read_separate_leading s h =
      leading_field s (reverse digits) h digits_digits ∙ read_signed (s == b'-')

  read_separate_trailing :
      (s : ℕ)
      → is_sign s ≡ true
      → cobol_display_to_int64 (reverse digits ++ s ∷ []) ≡ signed (s == b'-') (unsigned_abs v)
  read_separate_trailing s h =
      trailing_field s (reverse digits) h digits_digits ∙ read_signed (s == b'-')

  read_unsigned : cobol_display_to_int64 (reverse digits) ≡ pos (unsigned_abs v)
  read_unsigned =
      plain_field (reverse digits) (digits_plain (reverse digits) digits_digits) ∙ read_signed false

  read_stored : cobol_display_to_int64 (cobol_store_numeric_display v n) ≡ v
  unfolding cobol_store_numeric_display stored_backwards digits
  read_stored = elim (Bool-cases (is_negative v)) [
    | inl negative ↦
        rw negative
          (read_last v digits negative (fill_digits-digits n (unsigned_abs v)) digits_value)
    | inr other ↦ rw other (read_unsigned ∙ ground (arith, other))
  ]

  stored_abs : cobol_store_numeric_display (wrap_i64 (pos (unsigned_abs v))) n ≡ reverse digits
  unfolding cobol_store_numeric_display digits
  stored_abs =
      rw (wrap_i64_self (pos (unsigned_abs v)) (omega (arith, small)) (omega arith))
        (ap reverse (stored_positive (unsigned_abs v) n))

  read_leading : cobol_display_to_int64 (cobol_store_numeric_display_leading_sign v n) ≡ v
  unfolding cobol_store_numeric_display_leading_sign
  read_leading = rw stored_abs (elim (Bool-cases (is_negative v)) [
    | inl negative ↦ rw negative (read_first v (reverse digits) negative digits_digits digits_value)
    | inr other ↦ rw other (read_unsigned ∙ ground (arith, other))
  ])

  sign_of_value : signed ((if is_negative v then b'-' else b'+') == b'-') (unsigned_abs v) ≡ v
  sign_of_value = ground arith

  read_separate :
      (position : ℕ)
      → cobol_display_to_int64 (cobol_store_numeric_display_separate_sign v (suc n) position) ≡ v
  unfolding cobol_store_numeric_display_separate_sign digits
  read_separate position =
      let s : ℕ = if is_negative v then b'-' else b'+' in
      let sign : is_sign s ≡ true = ground arith in
      elim (Bool-cases (position == 0)) [
        | inl first ↦ rw first (read_separate_leading s sign ∙ sign_of_value)
        | inr last ↦ rw last (read_separate_trailing s sign ∙ sign_of_value)
      ]

-- A number whose absolute value has at most `n` digits and fits an i64 is read back from a field of
-- `n` digits with the sign embedded in the last digit, and with it embedded in the first, and from a
-- field of `n` digits and a separate sign before or behind them.
pub display_to_int64-store :
    (v : ℤ) (n position : ℕ)
    → unsigned_abs v ≤ i64_max
    → unsigned_abs v < 10 ^ n
    → (cobol_display_to_int64 (cobol_store_numeric_display v n) ≡ v)
      × (cobol_display_to_int64 (cobol_store_numeric_display_leading_sign v n) ≡ v)
      × (cobol_display_to_int64 (cobol_store_numeric_display_separate_sign v (suc n) position) ≡ v)
display_to_int64-store v n position small room =
    (read_stored v n small room, read_leading v n small room, read_separate v n small room position)
