-- ===== src/Decimal/Core.antt =====
-- crates/cobol-runtime/src/decimal.rs: the record, scale alignment, clamping and the arithmetic
-- operations. Machine integers are integers that wrap into their width, as in a release build.
use rust_cobol.Prelude.{
  ℕ, ◌-◌, ◌%◌, ◌^◌, Bool, not, ◌&&◌, ◌||◌, Option, none, some, List, [], ◌∷◌, ◌++◌, ltb,
  if◌then◌else◌, get_elem?,
}
use rust_cobol.Prelude.Words.{wrap_i32, wrap_i64, wrap_i128}
use rust_cobol.Prelude.Int.{ℤ, pos, negsuc, pos_part, ◌+ℤ◌, ◌-ℤ◌, ◌*ℤ◌, quot, ltb_ℤ}

pub record CobolDecimal : Type 0 where
  pub value : ℤ  -- i64
  pub scale : ℤ  -- i32
  pub size : ℤ  -- i32
  pub is_signed : Bool

-- `10_i64.saturating_pow(exp)` and `10_i128.saturating_pow(exp)`
unfoldable pub saturating_pow10 : ℕ → ℕ → ℕ
saturating_pow10 limit exp = if ltb (10 ^ exp) limit then 10 ^ exp else limit

abbrev pub or_else : Option ℕ → ℕ → ℕ
or_else none d = d
or_else (some a) d = a

abbrev pub pow10_i64_table : List ℕ
pow10_i64_table =
    1 ∷ 10 ∷ 100 ∷ 1_000 ∷ 10_000 ∷ 100_000 ∷ 1_000_000 ∷ 10_000_000 ∷ 100_000_000 ∷ 1_000_000_000
    ∷ 10_000_000_000 ∷ 100_000_000_000 ∷ 1_000_000_000_000 ∷ 10_000_000_000_000
    ∷ 100_000_000_000_000 ∷ 1_000_000_000_000_000 ∷ 10_000_000_000_000_000 ∷ 100_000_000_000_000_000
    ∷ 1_000_000_000_000_000_000 ∷ []

-- The rows of the table of i128 from 10^19 on.
abbrev pub pow10_i128_upper : List ℕ
pow10_i128_upper =
    10_000_000_000_000_000_000 ∷ 100_000_000_000_000_000_000 ∷ 1_000_000_000_000_000_000_000
    ∷ 10_000_000_000_000_000_000_000 ∷ 100_000_000_000_000_000_000_000
    ∷ 1_000_000_000_000_000_000_000_000 ∷ 10_000_000_000_000_000_000_000_000
    ∷ 100_000_000_000_000_000_000_000_000 ∷ 1_000_000_000_000_000_000_000_000_000
    ∷ 10_000_000_000_000_000_000_000_000_000 ∷ 100_000_000_000_000_000_000_000_000_000
    ∷ 1_000_000_000_000_000_000_000_000_000_000 ∷ 10_000_000_000_000_000_000_000_000_000_000
    ∷ 100_000_000_000_000_000_000_000_000_000_000 ∷ 1_000_000_000_000_000_000_000_000_000_000_000
    ∷ 10_000_000_000_000_000_000_000_000_000_000_000
    ∷ 100_000_000_000_000_000_000_000_000_000_000_000
    ∷ 1_000_000_000_000_000_000_000_000_000_000_000_000
    ∷ 10_000_000_000_000_000_000_000_000_000_000_000_000
    ∷ 100_000_000_000_000_000_000_000_000_000_000_000_000 ∷ []

abbrev pub pow10_i128_table : List ℕ
pow10_i128_table = pow10_i64_table ++ pow10_i128_upper

unfoldable pub pow10_i64 : ℕ → ℕ
unfolding saturating_pow10
pow10_i64 exp = or_else (get_elem? pow10_i64_table exp) (saturating_pow10 (2 ^ 63 - 1) exp)

unfoldable pub pow10_i128 : ℕ → ℕ
unfolding saturating_pow10
pow10_i128 exp = or_else (get_elem? pow10_i128_table exp) (saturating_pow10 (2 ^ 127 - 1) exp)

abbrev pub max_ℤ : ℤ → ℤ → ℤ
max_ℤ a b = if ltb_ℤ a b then b else a

-- The arithmetic of i32, i64 and i128.
abbrev pub add_i32 : ℤ → ℤ → ℤ
add_i32 a b = wrap_i32 (a +ℤ b)

abbrev pub sub_i32 : ℤ → ℤ → ℤ
sub_i32 a b = wrap_i32 (a -ℤ b)

-- `as u32` of an i32
abbrev pub as_u32 : ℤ → ℕ
as_u32 (pos n) = n % 2 ^ 32
as_u32 (negsuc n) = 2 ^ 32 - 1 - n % 2 ^ 32

pub record Aligned : Type 0 where
  pub av : ℤ
  pub bv : ℤ
  pub scale : ℤ

abbrev pub eqb_ℤ : ℤ → ℤ → Bool
eqb_ℤ a b = not (ltb_ℤ a b) && not (ltb_ℤ b a)

unfoldable pub align_scales : CobolDecimal → CobolDecimal → Aligned
align_scales a b =
    if eqb_ℤ a.scale b.scale
    then record { av = a.value; bv = b.value; scale = a.scale }
    else if ltb_ℤ a.scale b.scale
    then record {
      av = wrap_i128 (a.value *ℤ pos (pow10_i128 (as_u32 (sub_i32 b.scale a.scale))));
      bv = b.value;
      scale = b.scale;
    }
    else record {
      av = a.value;
      bv = wrap_i128 (b.value *ℤ pos (pow10_i128 (as_u32 (sub_i32 a.scale b.scale))));
      scale = a.scale;
    }

-- `i64::clamp`
clamp : ℤ → ℤ → ℤ → ℤ
clamp v lo hi = if ltb_ℤ v lo then lo else if ltb_ℤ hi v then hi else v

-- `10_i64.pow(size as u32) - 1`, for the sizes 1 to 18 at which it is called.
abbrev max_of_size : ℤ → ℕ
max_of_size size = 10 ^ pos_part size - 1

unfoldable pub clamp_to_size : ℤ → ℤ → Bool → ℤ
unfolding clamp ◌-ℤ◌
clamp_to_size value size is_signed =
    if not (ltb_ℤ (pos 0) size)
    then pos 0
    else if not (ltb_ℤ size (pos 19))
    then (if not is_signed && ltb_ℤ value (pos 0) then pos 0 else value)
    else if not is_signed && ltb_ℤ value (pos 0)
    then pos 0
    else if is_signed
    then clamp value (pos 0 -ℤ pos (max_of_size size)) (pos (max_of_size size))
    else clamp value (pos 0) (pos (max_of_size size))

-- The size of a sum: each operand's size grows by the digits that the alignment adds.
unfoldable pub sum_size : CobolDecimal → CobolDecimal → ℤ → ℤ
sum_size a b scale =
    let a_adjusted = add_i32 a.size (max_ℤ (sub_i32 scale a.scale) (pos 0)) in
    let b_adjusted = add_i32 b.size (max_ℤ (sub_i32 scale b.scale) (pos 0)) in
    max_ℤ a_adjusted b_adjusted

-- What both `add` and `sub` do with the raw i128 result.
unfoldable pub finish : CobolDecimal → CobolDecimal → ℤ → ℤ → CobolDecimal
finish a b scale raw = record {
  value = clamp_to_size (wrap_i64 raw) (sum_size a b scale) (a.is_signed || b.is_signed);
  scale = scale;
  size = sum_size a b scale;
  is_signed = a.is_signed || b.is_signed;
}

unfoldable pub add : CobolDecimal → CobolDecimal → CobolDecimal
add a b = let al = align_scales a b in finish a b al.scale (wrap_i128 (al.av +ℤ al.bv))

unfoldable pub sub : CobolDecimal → CobolDecimal → CobolDecimal
sub a b = let al = align_scales a b in finish a b al.scale (wrap_i128 (al.av -ℤ al.bv))

unfoldable pub mul : CobolDecimal → CobolDecimal → CobolDecimal
mul a b =
    let raw = wrap_i128 (a.value *ℤ b.value) in
    let combined_scale = add_i32 a.scale b.scale in
    let target_scale = max_ℤ a.scale b.scale in
    let excess = sub_i32 combined_scale target_scale in
    let truncated =
      if ltb_ℤ (pos 0) excess
      then wrap_i64 (quot raw (pos (pow10_i128 (as_u32 excess))))
      else wrap_i64 raw in
    record {
      value = clamp_to_size truncated (max_ℤ a.size b.size) (a.is_signed || b.is_signed);
      scale = target_scale;
      size = max_ℤ a.size b.size;
      is_signed = a.is_signed || b.is_signed;
    }

-- The quotients that panic in every build: by 0, and of the least i128 by -1.
abbrev pub div_panics : ℤ → ℤ → Bool
div_panics numerator bv =
    eqb_ℤ bv (pos 0) || (eqb_ℤ numerator (negsuc (2 ^ 127 - 1)) && eqb_ℤ bv (negsuc 0))

-- The i128 that is divided.
abbrev pub numerator_of : Aligned → ℤ
numerator_of al = wrap_i128 (al.av *ℤ pos (pow10_i128 (as_u32 al.scale)))

-- Division by a decimal of value 0 gives 0 (the caller sees to the size error). `none` is a panic of
-- the division.
unfoldable pub div : CobolDecimal → CobolDecimal → Option CobolDecimal
div a b =
    let al = align_scales a b in
    let numerator = numerator_of al in
    let raw = wrap_i64 (quot numerator al.bv) in
    if eqb_ℤ b.value (pos 0)
    then some (record { value = pos 0; scale = a.scale; size = a.size; is_signed = a.is_signed })
    else if div_panics numerator al.bv
    then none
    else some (record {
      value = clamp_to_size raw (max_ℤ a.size b.size) (a.is_signed || b.is_signed);
      scale = al.scale;
      size = max_ℤ a.size b.size;
      is_signed = a.is_signed || b.is_signed;
    })

-- `cmp`'s result, -1, 0 or 1.
unfoldable pub cmp : CobolDecimal → CobolDecimal → ℤ
cmp a b =
    let al = align_scales a b in
    if ltb_ℤ al.av al.bv then negsuc 0 else if ltb_ℤ al.bv al.av then pos 1 else pos 0
