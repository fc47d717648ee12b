-- ===== src/Decimal/Convert.antt =====
-- crates/cobol-runtime/src/decimal.rs: decimals from and to machine integers.
use rust_cobol.Prelude.{
  ℕ, zero, suc, ◌+◌, ◌*◌, ◌/◌, ◌^◌, ◌≤◌, ◌<◌, ◌≡◌, refl, ap, ◌⊎◌, inl, inr, true, arith, ltb, ◌==◌,
  if◌then◌else◌, ltb→lt, Bool-cases,
}
use rust_cobol.Prelude.Int.{ℤ, pos, negsuc, pos_part, neg_part, quot, ltb_ℤ}
use native.Mathlib.Nat.{pow-suc, div-add-mod, mod-lt}
use rust_cobol.Decimal.Core.{CobolDecimal, pow10_i64, as_u32}
use rust_cobol.Decimal.Powers.{pow10-saturated, pow10-le}
use rust_cobol.Decimal.Bounds.{pow10_pos}

-- The loop of `count_digits`; a u64 has at most 20 digits, so 20 rounds are enough.
count_loop : ℕ → ℕ → ℕ → ℕ
count_loop zero v count = count
count_loop (suc fuel) v count =
    let rest = count_loop fuel (v / 10) (count + 1) in if ltb 0 v then rest else count

unfoldable pub count_digits : ℕ → ℕ
unfolding count_loop
count_digits n = if n == 0 then 1 else count_loop 20 n 0

-- `unsigned_abs`
abbrev pub unsigned_abs : ℤ → ℕ
unsigned_abs v = pos_part v + neg_part v

unfoldable pub from_int : ℤ → ℤ → CobolDecimal
from_int value scale = record {
  value = value;
  scale = scale;
  size = pos (count_digits (unsigned_abs value));
  is_signed = ltb_ℤ value (pos 0);
}

unfoldable pub to_int64 : CobolDecimal → ℤ
to_int64 d =
    if ltb_ℤ (pos 0) d.scale then quot d.value (pos (pow10_i64 (as_u32 d.scale))) else d.value

-- What the loop counts: `d` further digits, the number of digits of `v`.
count_loop-digits :
    (fuel v count : ℕ)
    → v < 10 ^ fuel
    → (d : ℕ) × (count_loop fuel v count ≡ count + d) × (v < 10 ^ d) × ((10 ^ d ≤ 10 * v) ⊎ (d ≡ 0))
unfolding count_loop
count_loop-digits zero v count h = (0, omega arith, h, inr refl)
count_loop-digits (suc fuel) v count h = elim (Bool-cases (ltb 0 v)) [
  | inl more ↦
      let (d, e, up, low) =
        count_loop-digits fuel (v / 10) (count + 1) (omega (arith, pow-suc 10 fuel)) in
      (
        suc d,
        rw more (omega (arith, e)),
        omega (arith, up, pow-suc 10 d),
        inl (ten_le d v (ltb→lt 0 v more) low),
      )
  | inr done ↦ (0, rw done (omega arith), ground arith, inr refl)
]
  where
    ten_le : (d v : ℕ) → 0 < v → (10 ^ d ≤ 10 * (v / 10)) ⊎ (d ≡ 0) → 10 ^ suc d ≤ 10 * v
    ten_le d v p (inl low) = omega (arith, low, pow-suc 10 d)
    ten_le d v p (inr e) = rw e (omega arith)

count_digits-bounds :
    (n : ℕ)
    → n < 10 ^ 20
    → (n < 10 ^ count_digits n)
      × ((10 ^ count_digits n ≤ 10 * n) ⊎ ((n ≡ 0) × (count_digits n ≡ 1)))
unfolding count_digits
count_digits-bounds n h = elim (Bool-cases (n == 0)) [
  | inl none_left ↦ let z : n ≡ 0 = ground arith in rw z (omega arith, inr (refl, refl))
  | inr more ↦
      let (d, e, up, low) = count_loop-digits 20 n 0 h in
      let e' : count_loop 20 n 0 ≡ d = omega (arith, e) in
      rw (more, e') (up, inl (at_least n d (ground arith) low up))
]
  where
    at_least : (m d : ℕ) → 0 < m → (10 ^ d ≤ 10 * m) ⊎ (d ≡ 0) → m < 10 ^ d → 10 ^ d ≤ 10 * m
    at_least m d p (inl low) up = low
    at_least m d p (inr z) up = rw z (omega arith)

unsigned_abs-zero : (v : ℤ) → unsigned_abs v ≡ 0 → v ≡ pos 0
unsigned_abs-zero v h = ground arith

-- The size that `from_int` gives an i64 is its number of decimal digits: the absolute value has no
-- more digits, and it has that many unless it is 0, which has size 1. The value and the scale are
-- kept, and the field is signed exactly for a negative value.
pub from_int-size :
    (v scale : ℤ)
    → unsigned_abs v ≤ 2 ^ 63
    → let r = from_int v scale in
      (r.value ≡ v)
      × (r.scale ≡ scale)
      × (unsigned_abs v < 10 ^ pos_part r.size)
      × ((10 ^ pos_part r.size ≤ 10 * unsigned_abs v) ⊎ ((v ≡ pos 0) × (r.size ≡ pos 1)))
      × (r.is_signed ≡ ltb 0 (neg_part v))
unfolding from_int
from_int-size v scale h =
    let (up, low) = count_digits-bounds (unsigned_abs v) (omega arith) in
    (refl, refl, up, exact low, ground arith)
  where
    exact :
        (10 ^ count_digits (unsigned_abs v) ≤ 10 * unsigned_abs v)
          ⊎ ((unsigned_abs v ≡ 0) × (count_digits (unsigned_abs v) ≡ 1))
        → (10 ^ count_digits (unsigned_abs v) ≤ 10 * unsigned_abs v)
          ⊎ ((v ≡ pos 0) × (pos (count_digits (unsigned_abs v)) ≡ pos 1))
    exact (inl low) = inl low
    exact (inr (z, one)) = inr (unsigned_abs-zero v z, ap pos one)

pow10_i64-exact : (s : ℕ) → s ≤ 18 → pow10_i64 s ≡ 10 ^ s
pow10_i64-exact s h = ground (arith, (pow10-saturated s).0, pow10-le s h)

quot-pos :
    (v : ℤ) (f : ℕ)
    → (unsigned_abs (quot v (pos f)) ≡ unsigned_abs v / f)
      × ((neg_part v ≡ 0) ⊎ (pos_part (quot v (pos f)) ≡ 0))
      × ((pos_part v ≡ 0) ⊎ (neg_part (quot v (pos f)) ≡ 0))
unfolding quot
quot-pos (pos n) f = let e : n + 0 ≡ n = omega arith in rw e (omega arith, inl refl, inr refl)
quot-pos (negsuc n) f =
    let e : 0 + suc n ≡ suc n = omega arith in rw e (ground arith, ground arith, inl refl)

division : (a f : ℕ) → 0 < f → (a / f * f ≤ a) × (a < (a / f + 1) * f)
division a f h =
    let e = div-add-mod a f in let r = mod-lt a h in (omega (arith, e, r), omega (arith, e, r))

to_int64-quot :
    (d : CobolDecimal) (s : ℕ)
    → d.scale ≡ pos (suc s)
    → suc s ≤ 18
    → to_int64 d ≡ quot d.value (pos (10 ^ suc s))
unfolding to_int64
to_int64-quot d s e h =
    let small : as_u32 d.scale ≡ suc s = ground arith in
    let positive : ltb_ℤ (pos 0) d.scale ≡ true = ground arith in
    rw (positive, small, pow10_i64-exact (suc s) h)

-- Towards zero: with `n` the integer part of a decimal of scale 0 to 18, the absolute value lies from
-- `n` to below `n + 1` units of 10^scale, and the sign is kept unless `n` is 0.
pub to_int64-truncates :
    (d : CobolDecimal) (s : ℕ)
    → d.scale ≡ pos s
    → s ≤ 18
    → let n = to_int64 d in
      (unsigned_abs n * 10 ^ s ≤ unsigned_abs d.value)
      × (unsigned_abs d.value < (unsigned_abs n + 1) * 10 ^ s)
      × ((neg_part d.value ≡ 0) ⊎ (pos_part n ≡ 0))
      × ((pos_part d.value ≡ 0) ⊎ (neg_part n ≡ 0))
to_int64-truncates d zero e h =
    unfold to_int64 in rw e (omega arith, omega arith, ground arith, ground arith)
to_int64-truncates d (suc s) e h =
    let (size, np, pn) = quot-pos d.value (10 ^ suc s) in
    let (low, up) = division (unsigned_abs d.value) (10 ^ suc s) (pow10_pos (suc s)) in
    rw (to_int64-quot d s e h) (rw size low, rw size up, np, pn)
