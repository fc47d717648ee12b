-- ===== src/Decimal/Bounds.antt =====
-- crates/cobol-runtime/src/decimal.rs: what every result satisfies, whatever the operands.
use rust_cobol.Prelude.{
  ℕ, zero, suc, ◌^◌, ◌<◌, ◌≡◌, ◌⊎◌, inl, inr, Bool, true, arith, Bool-cases, Option, none, some,
  if◌then◌else◌,
}
use rust_cobol.Prelude.Int.{ℤ, pos, pos_part, neg_part, ◌≤ℤ◌}
use native.Mathlib.Nat.{pow-suc}
use rust_cobol.Decimal.Core.{
  CobolDecimal, clamp_to_size, add, sub, mul, finish, div, eqb_ℤ, div_panics, numerator_of,
  align_scales, Aligned,
}

-- The value has at most `size` digits and no sign that its field has no room for. From 19 digits
-- on the i64 itself is the bound.
pub record Fits (value size : ℤ) (is_signed : Bool) : Type 0 where
  pub empty : (pos 1 ≤ℤ size) ⊎ (value ≡ pos 0)
  pub digits :
      ((size ≤ℤ pos 0) ⊎ (pos 19 ≤ℤ size))
      ⊎ ((pos_part value < 10 ^ pos_part size) × (neg_part value < 10 ^ pos_part size))
  pub unsigned : (is_signed ≡ true) ⊎ (neg_part value ≡ 0)

pub pow10_pos : (n : ℕ) → 0 < 10 ^ n
pow10_pos zero = omega arith
pow10_pos (suc n) = omega (arith, pow10_pos n, pow-suc 10 n)

clamp_to_size-Fits :
    (v size : ℤ) (is_signed : Bool) → Fits (clamp_to_size v size is_signed) size is_signed
unfolding clamp_to_size
clamp_to_size-Fits v size is_signed = ground (arith, pow10_pos (pos_part size))

zero-Fits : (size : ℤ) (is_signed : Bool) → Fits (pos 0) size is_signed
zero-Fits size is_signed = ground (arith, pow10_pos (pos_part size))

abbrev pub FitsDecimal : CobolDecimal → Type 0
FitsDecimal r = Fits r.value r.size r.is_signed

-- What a division gives; it has nothing to give only where the quotient of i128 panics.
abbrev pub FitsQuotient : Aligned → Option CobolDecimal → Type 0
FitsQuotient al none = div_panics (numerator_of al) al.bv ≡ true
FitsQuotient al (some r) = FitsDecimal r

quotient-FitsQuotient :
    (al : Aligned) (r : CobolDecimal)
    → FitsDecimal r
    → FitsQuotient al (if div_panics (numerator_of al) al.bv then none else some r)
quotient-FitsQuotient al r h = elim (Bool-cases (div_panics (numerator_of al) al.bv)) [
  | inl panics ↦ rw panics panics
  | inr fine ↦ rw fine h
]

div-Fits : (a b : CobolDecimal) → FitsQuotient (align_scales a b) (div a b)
unfolding div
div-Fits a b = elim (Bool-cases (eqb_ℤ b.value (pos 0))) [
  | inl zero_divisor ↦ rw (zero_divisor, div) (zero-Fits a.size a.is_signed)
  | inr other ↦
      rw (other, div) (quotient-FitsQuotient (align_scales a b) _ (clamp_to_size-Fits _ _ _))
]

-- Whatever the operands, the result of an addition, subtraction or multiplication fits its field: a
-- result size of 1 to 18 digits bounds the value by that many digits, a size of 0 or less leaves 0,
-- and an unsigned result is never negative. So does a quotient, that by zero included; a division
-- panics only where the aligned divisor is -1 and the scaled dividend the least i128, or where an
-- aligned divisor is 0.
pub arithmetic-Fits :
    (a b : CobolDecimal)
    → FitsDecimal (add a b)
      × FitsDecimal (sub a b)
      × FitsDecimal (mul a b)
      × FitsQuotient (align_scales a b) (div a b)
unfolding add sub mul finish
arithmetic-Fits a b =
    (clamp_to_size-Fits _ _ _, clamp_to_size-Fits _ _ _, clamp_to_size-Fits _ _ _, div-Fits a b)
