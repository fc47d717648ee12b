-- ===== src/Sort/Keys.antt =====
-- crates/cobol-runtime/src/sort_merge.rs: the value of a key field in a record.
use rust_cobol.Prelude.{
  ℕ, ◌+◌, ◌-◌, ◌*◌, ◌/◌, ◌%◌, ◌^◌, Bool, false, ◌&&◌, ◌||◌, List, [], ◌∷◌, ltb, ◌==◌, if◌then◌else◌,
  length,
}
use rust_cobol.Prelude.Text.{is_ascii_digit}
use rust_cobol.Prelude.Words.{wrap_i64}
use rust_cobol.Prelude.Int.{ℤ, pos, ◌-ℤ◌}
use Prim.Native.Nat.{bit_or}
use mathlib.Core.List.{reverse}
use rust_cobol.Prelude.Words.{of_pattern}

-- Two's complement, least byte first: the number of the pattern.
unfoldable pub le_sum : List ℕ → ℕ
le_sum [] = 0
le_sum (b ∷ bs) = b + 256 * le_sum bs

-- The generic loop, `val |= b << (i * 8)`; a release build takes the shift modulo 64.
le_or : ℕ → ℕ → List ℕ → ℕ
le_or i val [] = val
le_or i val (b ∷ bs) = le_or (i + 1) (bit_or val (b * 2 ^ (i * 8 % 64) % 2 ^ 64)) bs

-- A width that has a machine integer.
is_word : ℕ → Bool
is_word n = n == 1 || (n == 2 || (n == 4 || n == 8))

-- `val |= !0 << bits` where the sign bit is set; `val` is then below 2^bits.
sign_extended : ℕ → ℕ → ℕ
sign_extended bits val =
    if ltb 0 bits && (ltb bits 64 && (val / 2 ^ (bits - 1) % 2 == 1))
    then val + (2 ^ 64 - 2 ^ bits)
    else val

unfoldable pub read_signed_le : List ℕ → ℤ
unfolding le_sum le_or is_word sign_extended
read_signed_le bytes =
    let n = length bytes in
    if is_word n
    then of_pattern (2 ^ (8 * n - 1)) (le_sum bytes)
    else of_pattern (2 ^ 63) (sign_extended (n * 8) (le_or 0 0 bytes))

unfoldable pub read_unsigned_le : List ℕ → ℕ
unfolding le_sum le_or is_word
read_unsigned_le bytes = if is_word (length bytes) then le_sum bytes else le_or 0 0 bytes

-- The two loops over the spaces around a number.
skip_spaces : List ℕ → List ℕ
skip_spaces [] = []
skip_spaces (c ∷ cs) = let rest = skip_spaces cs in if c == 32 then rest else c ∷ cs

trim_spaces : List ℕ → List ℕ
unfolding skip_spaces
trim_spaces bytes = reverse (skip_spaces (reverse (skip_spaces bytes)))

is_sign : ℕ → Bool
is_sign c = c == b'+' || c == b'-'

-- The digit loop, in 64-bit two's complement patterns.
digits_from : ℕ → List ℕ → ℕ
digits_from value [] = value
digits_from value (b ∷ bs) =
    digits_from (if is_ascii_digit b then (value * 10 + (b - b'0')) % 2 ^ 64 else value) bs

signed_value : Bool → List ℕ → ℤ
unfolding digits_from
signed_value negative bytes =
    let value = of_pattern (2 ^ 63) (digits_from 0 bytes) in
    if negative then wrap_i64 (pos 0 -ℤ value) else value

-- What is left behind a leading sign; the list is the rest of the field read backwards.
trailing_sign : Bool → List ℕ → ℤ
unfolding is_sign signed_value
trailing_sign negative [] = signed_value negative []
trailing_sign negative (c ∷ cs) =
    if is_sign c
    then signed_value (c == b'-') (reverse cs)
    else signed_value negative (reverse (c ∷ cs))

leading_sign : List ℕ → ℤ
unfolding trailing_sign
leading_sign [] = pos 0
leading_sign (c ∷ cs) =
    if is_sign c
    then trailing_sign (c == b'-') (reverse cs)
    else trailing_sign false (reverse (c ∷ cs))

unfoldable pub display_numeric_to_i64 : List ℕ → ℤ
unfolding leading_sign trim_spaces
display_numeric_to_i64 bytes = leading_sign (trim_spaces bytes)
