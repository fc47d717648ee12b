-- ===== src/Picture/Scan.antt =====
-- crates/cobol-sema/src/picture_analyzer.rs, the loop of `analyze` over the expanded picture.
use rust_cobol.Prelude.{
  ℕ, ◌+◌, Bool, true, false, ◌||◌, Option, none, some, [], ◌∷◌, ◌==◌, if◌then◌else◌,
}
use rust_cobol.Prelude.Text.{Text, to_ascii_uppercase}
use rust_cobol.Prelude.Words.{u32}

-- The arms of the match on the upper-case character; `$` and `W` share one, and so do the
-- insertion characters `, . B 0 /`.
pub data Symbol : Type 0 where
  nine x a n one s v p z star plus minus currency insertion c d other : Symbol

unfoldable pub symbol : ℕ → Symbol
symbol ch =
    if ch == b'9'
    then nine
    else if ch == b'X'
    then x
    else if ch == b'A'
    then a
    else if ch == b'N'
    then n
    else if ch == b'1'
    then one
    else if ch == b'S'
    then s
    else if ch == b'V'
    then v
    else if ch == b'P'
    then p
    else if ch == b'Z'
    then z
    else if ch == b'*'
    then star
    else if ch == b'+'
    then plus
    else if ch == b'-'
    then minus
    else if ch == b'$' || ch == b'W'
    then currency
    else if ch == b',' || (ch == b'.' || (ch == b'B' || (ch == b'0' || ch == b'/')))
    then insertion
    else if ch == b'C'
    then c
    else if ch == b'D'
    then d
    else other

-- The loop's variables.
pub record Counters : Type 0 where
  pub digit_count : ℕ
  pub alpha_count : ℕ
  pub alphanumeric_count : ℕ
  pub national_count : ℕ
  pub boolean_count : ℕ
  pub decimal_positions : ℕ
  pub is_signed : Bool
  pub has_decimal : Bool
  pub is_edited : Bool
  pub edit_z_count : ℕ
  pub edit_star_count : ℕ
  pub edit_plus_count : ℕ
  pub edit_minus_count : ℕ
  pub edit_dollar_count : ℕ
  pub edit_misc_count : ℕ

unfoldable pub start : Counters
start = record {
  digit_count = 0;
  alpha_count = 0;
  alphanumeric_count = 0;
  national_count = 0;
  boolean_count = 0;
  decimal_positions = 0;
  is_signed = false;
  has_decimal = false;
  is_edited = false;
  edit_z_count = 0;
  edit_star_count = 0;
  edit_plus_count = 0;
  edit_minus_count = 0;
  edit_dollar_count = 0;
  edit_misc_count = 0;
}

-- `if has_decimal { decimal_positions += 1; }`
decimal : Counters → ℕ
decimal k = if k.has_decimal then u32 (k.decimal_positions + 1) else k.decimal_positions

-- One round, on a character other than the first of `CR` or `DB`.
unfoldable pub step : Symbol → Counters → Counters
unfolding decimal
step nine k = record k { digit_count = u32 (k.digit_count + 1); decimal_positions = decimal k }
step x k = record k { alphanumeric_count = u32 (k.alphanumeric_count + 1) }
step a k = record k { alpha_count = u32 (k.alpha_count + 1) }
step n k = record k { national_count = u32 (k.national_count + 1) }
step one k = record k { boolean_count = u32 (k.boolean_count + 1) }
step s k = record k { is_signed = true }
step v k = record k { has_decimal = true }
step p k = record k { decimal_positions = decimal k }
step z k = record k {
  edit_z_count = u32 (k.edit_z_count + 1);
  is_edited = true;
  decimal_positions = decimal k;
}
step star k = record k {
  edit_star_count = u32 (k.edit_star_count + 1);
  is_edited = true;
  decimal_positions = decimal k;
}
step plus k = record k {
  edit_plus_count = u32 (k.edit_plus_count + 1);
  is_edited = true;
  decimal_positions = decimal k;
}
step minus k = record k {
  edit_minus_count = u32 (k.edit_minus_count + 1);
  is_edited = true;
  decimal_positions = decimal k;
}
step currency k = record k { edit_dollar_count = u32 (k.edit_dollar_count + 1); is_edited = true }
step insertion k = record k { edit_misc_count = u32 (k.edit_misc_count + 1); is_edited = true }
step c k = k
step d k = k
step other k = k

-- The character that must follow for `CR` and `DB` to count.
second_of : Symbol → Option ℕ
second_of c = some b'R'
second_of d = some b'B'
second_of _ = none

unfoldable pub is_pair : ℕ → ℕ → Bool
unfolding second_of symbol
is_pair ch next = elim (second_of (symbol (to_ascii_uppercase ch))) [
  | none ↦ false
  | some e ↦ to_ascii_uppercase next == e
]

-- `CR` and `DB` count as two insertion characters, and both are passed over.
unfoldable pub pair_step : Counters → Counters
pair_step k = record k { edit_misc_count = u32 (k.edit_misc_count + 2); is_edited = true }

unfoldable pub scan : Counters → Text → Counters
scan k [] = k
scan k (ch ∷ []) = step (symbol (to_ascii_uppercase ch)) k
scan k (ch ∷ next ∷ rest) = elim (is_pair ch next) [
  | true ↦ scan (pair_step k) rest
  | false ↦ scan (step (symbol (to_ascii_uppercase ch)) k) (next ∷ rest)
]
