-- ===== src/Decimal/Exact.antt =====
-- crates/cobol-runtime/src/decimal.rs: the arithmetic against exact decimal numbers, where neither
-- alignment nor clamping loses digits.
use rust_cobol.Prelude.{
  ℕ, ◌-◌, ◌*◌, ◌^◌, ◌≤◌, ◌<◌, max, ◌≡◌, refl, ◌⊎◌, inl, inr, Bool, true, ◌||◌, arith,
}
use rust_cobol.Prelude.Words.{wrap_i32, wrap_i128, wrap_i64_self, wrap_i128_self}
use rust_cobol.Prelude.Int.{ℤ, pos, pos_part, neg_part, ◌+ℤ◌, ◌-ℤ◌, ◌*ℤ◌, ◌≤ℤ◌}
use rust_cobol.Decimal.Core.{
  CobolDecimal, align_scales, clamp_to_size, sum_size, finish, add, sub, sub_i32, as_u32,
  pow10_i128,
}
use rust_cobol.Decimal.Powers.{pow10_i128-exact, pow10-le}

abbrev pub IsI64 : ℤ → Type 0
IsI64 v = (pos_part v < 2 ^ 63) × (neg_part v ≤ 2 ^ 63)

pub *ℤ-pos :
    (v : ℤ) (f : ℕ)
    → (pos_part (v *ℤ pos f) ≡ pos_part v * f) × (neg_part (v *ℤ pos f) ≡ neg_part v * f)
unfolding ◌*ℤ◌
*ℤ-pos v f = ground arith

mul_le : (m f p q : ℕ) → m ≤ p → f ≤ q → m * f ≤ p * q
mul_le m f p q h k = grind arith

scaled_fits :
    (v : ℤ) (f : ℕ)
    → IsI64 v
    → f ≤ 10 ^ 18
    → (pos_part (v *ℤ pos f) ≤ 2 ^ 63 * 10 ^ 18) × (neg_part (v *ℤ pos f) ≤ 2 ^ 63 * 10 ^ 18)
scaled_fits v f (h, k) w =
    let (p, n) = *ℤ-pos v f in
    (
      omega (arith, p, mul_le (pos_part v) f (2 ^ 63) (10 ^ 18) (omega arith) w),
      omega (arith, n, mul_le (neg_part v) f (2 ^ 63) (10 ^ 18) k w),
    )

*ℤ-one : (v : ℤ) → v *ℤ pos 1 ≡ v
unfolding ◌*ℤ◌
*ℤ-one v = ground arith

-- The factor of the alignment.
factor_lem :
    (big small : ℕ)
    → small ≤ big
    → big ≤ 18
    → (pow10_i128 (as_u32 (sub_i32 (pos big) (pos small))) ≡ 10 ^ (big - small))
      × (10 ^ (big - small) ≤ 10 ^ 18)
factor_lem big small h w =
    let diff : as_u32 (sub_i32 (pos big) (pos small)) ≡ big - small =
      unfold wrap_i32 ◌-ℤ◌ in ground arith in
    (rw diff (pow10_i128-exact (big - small) (omega arith)), pow10-le (big - small) (omega arith))

-- A decimal as the compiler makes it: a scale `s` of 0 to 18 digits.
pub record IsPlain (d : CobolDecimal) (s : ℕ) : Type 0 where
  pub scale_lem : d.scale ≡ pos s
  pub scale_le : s ≤ 18
  pub value_fits : IsI64 d.value

-- The value at scale `m`, of a decimal of scale `s`.
abbrev pub rescaled : ℤ → ℕ → ℕ → ℤ
rescaled v s m = v *ℤ pos (10 ^ (m - s))

wrap_scaled : (v : ℤ) (f : ℕ) → IsI64 v → f ≤ 10 ^ 18 → wrap_i128 (v *ℤ pos f) ≡ v *ℤ pos f
wrap_scaled v f h w =
    let (p, n) = scaled_fits v f h w in
    wrap_i128_self (v *ℤ pos f) (omega (arith, p)) (omega (arith, n))

rescaled_self : (v : ℤ) (s m : ℕ) → m ≡ s → rescaled v s m ≡ v
rescaled_self v s m e = let z : m - s ≡ 0 = omega arith in rw z (*ℤ-one v)

widened :
    (v big_scale small_scale : ℤ) (big small m : ℕ)
    → IsI64 v
    → big_scale ≡ pos big
    → small_scale ≡ pos small
    → small ≤ big
    → big ≤ 18
    → m ≡ big
    → wrap_i128 (v *ℤ pos (pow10_i128 (as_u32 (sub_i32 big_scale small_scale))))
      ≡ rescaled v small m
widened v bs ss big small m h eb es le w em =
    let (exact, bound) = factor_lem big small le w in
    rw (eb, es, em) (rw exact (wrap_scaled v (10 ^ (big - small)) h bound))

-- Two such decimals are brought to the larger scale with no digit lost.
pub align_scales-exact :
    (a b : CobolDecimal) (sa sb : ℕ)
    → IsPlain a sa
    → IsPlain b sb
    → ((align_scales a b).av ≡ rescaled a.value sa (max sa sb))
      × ((align_scales a b).bv ≡ rescaled b.value sb (max sa sb))
      × ((align_scales a b).scale ≡ pos (max sa sb))
unfolding align_scales
align_scales-exact a b sa sb pa pb = elim (ℕ-order sa sb) [
  | inl same ↦ ground (
    arith,
    pa.scale_lem,
    pb.scale_lem,
    rescaled_self a.value sa (max sa sb) (omega arith),
    rescaled_self b.value sb (max sa sb) (omega arith),
  )
  | inr (inl less) ↦ ground (
    arith,
    pa.scale_lem,
    pb.scale_lem,
    widened a.value b.scale a.scale sb sa (max sa sb) pa.value_fits pb.scale_lem pa.scale_lem
        (omega arith) pb.scale_le (omega arith),
    rescaled_self b.value sb (max sa sb) (omega arith),
  )
  | inr (inr more) ↦ ground (
    arith,
    pa.scale_lem,
    pb.scale_lem,
    widened b.value a.scale b.scale sa sb (max sa sb) pb.value_fits pa.scale_lem pb.scale_lem
        (omega arith) pa.scale_le (omega arith),
    rescaled_self a.value sa (max sa sb) (omega arith),
  )
]
  where
    ℕ-order : (m n : ℕ) → (m ≡ n) ⊎ ((m < n) ⊎ (n < m))
    ℕ-order m n = ground arith

-- The field of a sum at scale `scale` has room for the integer `s`: it has a digit at least, `s` fits
-- an i64, the digits of the field where there are at most 18, and its sign.
pub record HasRoom (a b : CobolDecimal) (scale s : ℤ) : Type 0 where
  pub some_digit : pos 1 ≤ℤ sum_size a b scale
  pub in_i64 : IsI64 s
  pub in_digits :
      (pos 19 ≤ℤ sum_size a b scale)
      ⊎ ((pos_part s < 10 ^ pos_part (sum_size a b scale))
          × (neg_part s < 10 ^ pos_part (sum_size a b scale)))
  pub in_sign : ((a.is_signed || b.is_signed) ≡ true) ⊎ (neg_part s ≡ 0)

clamp_to_size_self :
    (v size : ℤ) (is_signed : Bool)
    → pos 1 ≤ℤ size
    → (pos 19 ≤ℤ size) ⊎ ((pos_part v < 10 ^ pos_part size) × (neg_part v < 10 ^ pos_part size))
    → (is_signed ≡ true) ⊎ (neg_part v ≡ 0)
    → clamp_to_size v size is_signed ≡ v
unfolding clamp_to_size
clamp_to_size_self v size is_signed h d u = ground arith

finish-exact :
    (a b : CobolDecimal) (scale s : ℤ)
    → HasRoom a b scale s
    → (finish a b scale (wrap_i128 s)).value ≡ s
unfolding finish
finish-exact a b scale s h =
    let (p, n) = h.in_i64 in
    rw (wrap_i128_self s (omega arith) (omega arith)) (
      rw (wrap_i64_self s p n) (
        clamp_to_size_self s (sum_size a b scale) (a.is_signed || b.is_signed) h.some_digit
          h.in_digits h.in_sign))

-- Addition of two decimals of scales 0 to 18 is exact: if the field of the result has room for the
-- sum of the values, taken at the larger scale, the result has that scale and that value.
pub add-exact :
    (a b : CobolDecimal) (sa sb : ℕ)
    → IsPlain a sa
    → IsPlain b sb
    → HasRoom a b
        (pos (max sa sb))
        (rescaled a.value sa (max sa sb) +ℤ rescaled b.value sb (max sa sb))
    → let m = max sa sb in
      let sum = rescaled a.value sa m +ℤ rescaled b.value sb m in
      ((add a b).value ≡ sum) × ((add a b).scale ≡ pos m)
unfolding add
add-exact a b sa sb pa pb room =
    let (av, bv, scale) = align_scales-exact a b sa sb pa pb in
    rw (av, bv, scale) (finish-exact a b (pos (max sa sb)) _ room, unfold finish in refl)

-- Subtraction of two decimals of scales 0 to 18 is exact: if the field of the result has room for the
-- difference of the values, taken at the larger scale, the result has that scale and that value.
pub sub-exact :
    (a b : CobolDecimal) (sa sb : ℕ)
    → IsPlain a sa
    → IsPlain b sb
    → HasRoom a b
        (pos (max sa sb))
        (rescaled a.value sa (max sa sb) -ℤ rescaled b.value sb (max sa sb))
    → let m = max sa sb in
      let difference = rescaled a.value sa m -ℤ rescaled b.value sb m in
      ((sub a b).value ≡ difference) × ((sub a b).scale ≡ pos m)
unfolding sub
sub-exact a b sa sb pa pb room =
    let (av, bv, scale) = align_scales-exact a b sa sb pa pb in
    rw (av, bv, scale) (finish-exact a b (pos (max sa sb)) _ room, unfold finish in refl)
