-- ===== src/Decimal/Tests.antt =====
-- crates/cobol-runtime/src/decimal.rs: tests and instances at concrete inputs.
use rust_cobol.Prelude.{
  ◌+◌, ◌*◌, ◌^◌, ◌≤◌, ◌<◌, ◌≡◌, refl, ◌⊎◌, inl, inr, true, none, [], ◌∷◌, arith,
}
use rust_cobol.Prelude.Text.{codes}
use rust_cobol.Prelude.Words.{wrap_i32}
use rust_cobol.Prelude.Int.{pos, negsuc, pos_part, neg_part, ◌+ℤ◌, ◌-ℤ◌, ◌*ℤ◌}
use rust_cobol.Decimal.Core.{align_scales, CobolDecimal, add, sub, mul, div, cmp, sum_size}
use rust_cobol.Decimal.Bounds.{FitsDecimal, FitsQuotient, arithmetic-Fits}
use rust_cobol.Decimal.Exact.{IsPlain, HasRoom, rescaled, add-exact, sub-exact}
use rust_cobol.Decimal.Order.{sign_of, cmp-common_scale}
use rust_cobol.Decimal.Convert.{unsigned_abs, to_int64, to_int64-truncates}
use rust_cobol.Decimal.Parse.{from_string, negate}
use rust_cobol.Decimal.Parse.Print.{print, number_from, from_string-print}

-- 12.50 and -0.375
abbrev price : CobolDecimal
price = record { value = pos 1250; scale = pos 2; size = pos 4; is_signed = true }

abbrev discount : CobolDecimal
discount = record { value = negsuc 374; scale = pos 3; size = pos 4; is_signed = true }

price-IsPlain : IsPlain price 2
price-IsPlain = record {
  scale_lem = refl;
  scale_le = omega arith;
  value_fits = (omega arith, omega arith);
}

discount-IsPlain : IsPlain discount 3
discount-IsPlain = record {
  scale_lem = refl;
  scale_le = omega arith;
  value_fits = (omega arith, omega arith);
}

arithmetic-Fits_example :
    FitsDecimal (add price discount)
    × FitsDecimal (sub price discount)
    × FitsDecimal (mul price discount)
    × FitsQuotient (align_scales price discount) (div price discount)
arithmetic-Fits_example = arithmetic-Fits price discount

-- The least i128 by -1 panics.
div_overflow :
    div
      (record { value = pos (2 ^ 51); scale = pos 0; size = pos 18; is_signed = true })
      (record { value = negsuc 0; scale = pos 38; size = pos 18; is_signed = true })
    ≡ none
unfolding div align_scales rust_cobol.Decimal.Core.pow10_i128 rust_cobol.Prelude.Words.wrap_i128
    ◌*ℤ◌ wrap_i32 ◌-ℤ◌
div_overflow = refl

sum_room : HasRoom price discount (pos 3) (rescaled price.value 2 3 +ℤ rescaled discount.value 3 3)
unfolding sum_size wrap_i32 ◌*ℤ◌ ◌+ℤ◌ ◌-ℤ◌
sum_room = record {
  some_digit = omega arith;
  in_i64 = (omega arith, omega arith);
  in_digits = inr (omega arith, omega arith);
  in_sign = inl refl;
}

difference_room :
    HasRoom price discount (pos 3) (rescaled price.value 2 3 -ℤ rescaled discount.value 3 3)
unfolding sum_size wrap_i32 ◌*ℤ◌ ◌+ℤ◌ ◌-ℤ◌
difference_room = record {
  some_digit = omega arith;
  in_i64 = (omega arith, omega arith);
  in_digits = inr (omega arith, omega arith);
  in_sign = inl refl;
}

add-exact_example :
    ((add price discount).value ≡ rescaled price.value 2 3 +ℤ rescaled discount.value 3 3)
    × ((add price discount).scale ≡ pos 3)
add-exact_example = add-exact price discount 2 3 price-IsPlain discount-IsPlain sum_room

sub-exact_example :
    ((sub price discount).value ≡ rescaled price.value 2 3 -ℤ rescaled discount.value 3 3)
    × ((sub price discount).scale ≡ pos 3)
sub-exact_example = sub-exact price discount 2 3 price-IsPlain discount-IsPlain difference_room

cmp-common_scale_example :
    cmp price discount ≡ sign_of (rescaled price.value 2 4) (rescaled discount.value 3 4)
cmp-common_scale_example =
    cmp-common_scale price discount 2 3 4 price-IsPlain discount-IsPlain (omega arith) (omega arith)

to_int64-truncates_example :
    let n = to_int64 discount in
    (unsigned_abs n * 10 ^ 3 ≤ 375)
    × (375 < (unsigned_abs n + 1) * 10 ^ 3)
    × ((neg_part discount.value ≡ 0) ⊎ (pos_part n ≡ 0))
    × ((pos_part discount.value ≡ 0) ⊎ (neg_part n ≡ 0))
to_int64-truncates_example = to_int64-truncates discount 3 refl (omega arith)

from_string-print_example :
    from_string (print true 1 (2 ∷ []) (5 ∷ 0 ∷ []))
    ≡ record { value = negate true 1250; scale = pos 2; size = pos 4; is_signed = true }
unfolding number_from
from_string-print_example =
    from_string-print true 1 (2 ∷ []) (5 ∷ 0 ∷ []) (omega arith, (omega arith, tt))
      (omega arith, (omega arith, tt)) (omega arith) (omega arith)

minus_text :
    from_string (codes "  -12.50 ")
    ≡ record { value = negsuc 1249; scale = pos 2; size = pos 4; is_signed = true }
unfolding from_string wrap_i32
minus_text = refl

credit_text :
    from_string (codes "$1,234.5CR")
    ≡ record { value = negsuc 12344; scale = pos 1; size = pos 5; is_signed = true }
unfolding from_string wrap_i32
credit_text = refl
