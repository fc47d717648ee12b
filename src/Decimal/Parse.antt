-- ===== src/Decimal/Parse.antt =====
-- crates/cobol-runtime/src/decimal.rs, `cobol_decimal_from_string`: decimals from text.
pub mod Print
use rust_cobol.Prelude.{
  ℕ, ◌+◌, ◌-◌, ◌*◌, ◌^◌, ◌≤◌, ◌<◌, min, ◌≡◌, refl, sym, ap, ◌∙◌, ◌⊎◌, inl, inr, Bool, true, false,
  not, ◌&&◌, ◌||◌, Option, none, some, List, [], ◌∷◌, ◌++◌, map, arith, ◌==◌, if◌then◌else◌, length,
}
use rust_cobol.Prelude.Text.{
  Text, is_ascii_digit, is_ascii_uppercase, is_ascii_whitespace, to_ascii_uppercase, uppercase,
}
use rust_cobol.Prelude.Words.{wrap_i32, i64_max, saturating_digit}
use rust_cobol.Prelude.Int.{ℤ, pos, sub_ℕ, ltb_ℤ}
use mathlib.Core.List.{reverse, reverse-append, reverse-reverse, append_assoc, append-nil}
use rust_cobol.Decimal.Core.{CobolDecimal}

-- The two trimming loops; the second is the first on the text read backwards.
trim_start : Text → Text
trim_start [] = []
trim_start (c ∷ cs) = let rest = trim_start cs in if is_ascii_whitespace c then rest else c ∷ cs

trim : Text → Text
unfolding trim_start
trim t = reverse (trim_start (reverse (trim_start t)))

starts_with : Text → Text → Bool
starts_with [] t = true
starts_with (p ∷ ps) [] = false
starts_with (p ∷ ps) (c ∷ cs) = p == c && starts_with ps cs

-- `ends_with`, with the suffix given backwards, on the upper-case text.
ends_with_upper : Text → Text → Bool
unfolding starts_with
ends_with_upper backwards t = starts_with backwards (uppercase (reverse t))

-- The loop's variables.
pub record Parsed : Type 0 where
  pub value : ℕ
  pub scale : ℕ
  pub total_digits : ℕ
  pub seen_dot : Bool

-- The characters that the loop passes over, other than letters.
is_skipped : ℕ → Bool
is_skipped b =
    b == 32
    || (b == 9
        || (b == 13
            || (b == 10 || (b == b'+' || (b == b'-' || (b == b',' || (b == b'$' || b == b'/')))))))

-- One round: `none` is the early return on a character that no number has.
step : Parsed → ℕ → Option Parsed
unfolding saturating_digit is_skipped
step s b =
    if is_ascii_digit b
    then some (record s {
      value = saturating_digit s.value (b - b'0');
      total_digits = s.total_digits + 1;
      scale = if s.seen_dot then s.scale + 1 else s.scale;
    })
    else if b == b'.' && not s.seen_dot
    then some (record s { seen_dot = true })
    else if is_skipped b
    then some s
    else if is_ascii_uppercase (to_ascii_uppercase b)
    then some s
    else none

loop : Parsed → Text → Option Parsed
loop s [] = some s
loop s (b ∷ bs) = elim (step s b) [ none ↦ none | some s' ↦ loop s' bs ]

abbrev begin : Parsed
begin = record { value = 0; scale = 0; total_digits = 0; seen_dot = false }

-- What an empty or malformed text gives.
abbrev pub zero_decimal : CobolDecimal
zero_decimal = record { value = pos 0; scale = pos 0; size = pos 1; is_signed = false }

abbrev pub negate : Bool → ℕ → ℤ
negate negative value = if negative then sub_ℕ 0 value else pos value

finish : Bool → Bool → Option Parsed → CobolDecimal
finish negative is_signed none = zero_decimal
finish negative is_signed (some s) = record {
  value = negate negative s.value;
  scale = wrap_i32 (pos s.scale);
  size = (let size = wrap_i32 (pos s.total_digits) in if ltb_ℤ size (pos 1) then pos 1 else size);
  is_signed = is_signed;
}

-- The text without its surrounding white space, `c` being its first character.
from_trimmed : ℕ → Text → CobolDecimal
from_trimmed c cs =
    let minus = c == b'-' in
    let plus = c == b'+' in
    let trailing =
      ends_with_upper (b'-' ∷ []) (c ∷ cs) || ends_with_upper (b'R' ∷ b'C' ∷ []) (c ∷ cs) in
    let debit = ends_with_upper (b'B' ∷ b'D' ∷ []) (c ∷ cs) in
    finish (minus || trailing) (minus || (plus || (trailing || debit)))
      (loop begin (if minus || plus then cs else c ∷ cs))

from_text : Text → CobolDecimal
from_text [] = zero_decimal
from_text (c ∷ cs) = from_trimmed c cs

unfoldable pub from_string : Text → CobolDecimal
unfolding from_text from_trimmed ends_with_upper step loop finish trim
from_string t = from_text (trim t)
