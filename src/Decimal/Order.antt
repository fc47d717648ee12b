-- ===== src/Decimal/Order.antt =====
-- crates/cobol-runtime/src/decimal.rs: the arithmetic against exact decimal numbers.
use rust_cobol.Prelude.{
  ℕ, zero, suc, ◌+◌, ◌-◌, ◌*◌, ◌^◌, ◌≤◌, ◌<◌, max, ◌≡◌, sym, ◌↔◌, Bool, ◌||◌, arith, ltb,
  if◌then◌else◌,
}
use rust_cobol.Prelude.Int.{
  ℤ, pos, negsuc, pos_part, neg_part, ◌-ℤ◌, ◌*ℤ◌, ltb_ℤ, +ℤ_comm, *ℤ_comm, eq_of_parts,
}
use native.Mathlib.Nat.{pow-suc, mul_assoc}
use rust_cobol.Decimal.Bounds.{pow10_pos}
use rust_cobol.Decimal.Exact.{IsPlain, rescaled, align_scales-exact, *ℤ-pos}
use rust_cobol.Decimal.Core.{
  CobolDecimal, align_scales, sum_size, finish, add, mul, cmp, max_ℤ, add_i32, sub_i32,
}

add-comm_aligned :
    (a b : CobolDecimal)
    → let p = align_scales a b in
      let q = align_scales b a in (p.av ≡ q.bv) × (p.bv ≡ q.av) × (p.scale ≡ q.scale)
unfolding align_scales
add-comm_aligned a b = ground arith

max_ℤ-comm : (a b : ℤ) → max_ℤ a b ≡ max_ℤ b a
max_ℤ-comm a b = ground arith

or_comm : (a b : Bool) → (a || b) ≡ (b || a)
or_comm a b = ground arith

sum_size_comm : (a b : CobolDecimal) (scale : ℤ) → sum_size a b scale ≡ sum_size b a scale
unfolding sum_size
sum_size_comm a b scale =
    max_ℤ-comm (add_i32 a.size (max_ℤ (sub_i32 scale a.scale) (pos 0)))
      (add_i32 b.size (max_ℤ (sub_i32 scale b.scale) (pos 0)))

finish_comm : (a b : CobolDecimal) (scale raw : ℤ) → finish a b scale raw ≡ finish b a scale raw
unfolding finish
finish_comm a b scale raw = rw (sum_size_comm a b scale, or_comm a.is_signed b.is_signed)

add-comm_fields : (a b : CobolDecimal) → add a b ≡ add b a
unfolding add
add-comm_fields a b =
    let (av, bv, scale) = add-comm_aligned a b in
    rw (av, bv, scale, +ℤ_comm (align_scales b a).bv (align_scales b a).av) (finish_comm a b _ _)

mul-comm_fields : (a b : CobolDecimal) → mul a b ≡ mul b a
unfolding mul
mul-comm_fields a b = rw (
  *ℤ_comm a.value b.value,
  +ℤ_comm a.scale b.scale,
  max_ℤ-comm a.scale b.scale,
  max_ℤ-comm a.size b.size,
  or_comm a.is_signed b.is_signed,
)

cmp_antisymm : (a b : CobolDecimal) → cmp b a ≡ pos 0 -ℤ cmp a b
unfolding cmp ◌-ℤ◌
cmp_antisymm a b = ground (arith, add-comm_aligned a b)

-- The order of the operands: addition and multiplication do not depend on it, in any field of the
-- result, and a comparison the other way round has the opposite outcome.
pub operands_comm :
    (a b : CobolDecimal) → (add a b ≡ add b a) × (mul a b ≡ mul b a) × (cmp b a ≡ pos 0 -ℤ cmp a b)
operands_comm a b = (add-comm_fields a b, mul-comm_fields a b, cmp_antisymm a b)

pow10_add : (i j : ℕ) → 10 ^ (i + j) ≡ 10 ^ i * 10 ^ j
pow10_add i zero = let e : i + 0 ≡ i = omega arith in rw e (omega arith)
pow10_add i (suc j) =
    let e : i + suc j ≡ suc (i + j) = omega arith in
    rw (e, pow-suc 10 (i + j), pow-suc 10 j, pow10_add i j) (mul_assoc (10 ^ i) (10 ^ j) 10)

*ℤ-pos_assoc : (v : ℤ) (f g : ℕ) → v *ℤ pos f *ℤ pos g ≡ v *ℤ pos (f * g)
*ℤ-pos_assoc v f g =
    let (p, n) = *ℤ-pos v f in
    let (p', n') = *ℤ-pos (v *ℤ pos f) g in
    let (p'', n'') = *ℤ-pos v (f * g) in
    eq_of_parts _ _ (
      grind (arith, p, n, p', n', p'', n'', mul_assoc (pos_part v) f g, mul_assoc (neg_part v) f g))

rescaled-rescaled :
    (v : ℤ) (s m k : ℕ) → s ≤ m → m ≤ k → rescaled v s k ≡ rescaled (rescaled v s m) m k
rescaled-rescaled v s m k h w =
    let e : k - s ≡ m - s + (k - m) = omega arith in
    rw (e, pow10_add (m - s) (k - m)) (sym (*ℤ-pos_assoc v (10 ^ (m - s)) (10 ^ (k - m))))

lt-mul : (x y f : ℕ) → 0 < f → (x * f < y * f) ↔ (x < y)
lt-mul x y f h = (λ k. grind (arith, k), λ k. grind (arith, k))

ltb-mul : (x y f : ℕ) → 0 < f → ltb (x * f) (y * f) ≡ ltb x y
ltb-mul x y f h = ground (arith, lt-mul x y f h)

ltb_ℤ-scaled : (x y : ℤ) (f : ℕ) → 0 < f → ltb_ℤ (x *ℤ pos f) (y *ℤ pos f) ≡ ltb_ℤ x y
ltb_ℤ-scaled x y f h =
    let (px, nx) = *ℤ-pos x f in
    let (py, ny) = *ℤ-pos y f in
    let e : pos_part (x *ℤ pos f) + neg_part (y *ℤ pos f) ≡ (pos_part x + neg_part y) * f =
      omega (arith, px, ny) in
    let e' : pos_part (y *ℤ pos f) + neg_part (x *ℤ pos f) ≡ (pos_part y + neg_part x) * f =
      omega (arith, py, nx) in
    rw (e, e') (ltb-mul (pos_part x + neg_part y) (pos_part y + neg_part x) f h)

-- The sign of a comparison of two integers, as `cmp` reports it.
abbrev pub sign_of : ℤ → ℤ → ℤ
sign_of x y = if ltb_ℤ x y then negsuc 0 else if ltb_ℤ y x then pos 1 else pos 0

-- The comparison of two decimals of scales 0 to 18 is the comparison of their values at any common
-- scale `k`, so it orders decimals as the numbers that they stand for.
pub cmp-common_scale :
    (a b : CobolDecimal) (sa sb k : ℕ)
    → IsPlain a sa
    → IsPlain b sb
    → sa ≤ k
    → sb ≤ k
    → cmp a b ≡ sign_of (rescaled a.value sa k) (rescaled b.value sb k)
unfolding cmp
cmp-common_scale a b sa sb k pa pb ha hb =
    let m = max sa sb in
    let (av, bv, _) = align_scales-exact a b sa sb pa pb in
    let f = 10 ^ (k - m) in
    let x = rescaled a.value sa m in
    let y = rescaled b.value sb m in
    let ea = rescaled-rescaled a.value sa m k (omega arith) (omega arith) in
    let eb = rescaled-rescaled b.value sb m k (omega arith) (omega arith) in
    let up = ltb_ℤ-scaled x y f (pow10_pos (k - m)) in
    let down = ltb_ℤ-scaled y x f (pow10_pos (k - m)) in rw (av, bv, ea, eb, up, down)
