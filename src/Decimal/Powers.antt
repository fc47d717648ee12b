-- ===== src/Decimal/Powers.antt =====
-- crates/cobol-runtime/src/decimal.rs: the tables of powers of ten.
use rust_cobol.Prelude.{
  ℕ, ◌-◌, ◌^◌, ◌≤◌, ◌<◌, ◌≡◌, refl, ap, inl, inr, true, arith, ltb, leb, ◌==◌, if◌then◌else◌,
  ltb→lt, leb→le, Bool-cases, get_elem?-length,
}
use rust_cobol.Prelude.Range.{every_below, every_below-at}
use rust_cobol.Decimal.Core.{
  pow10_i64, pow10_i128, pow10_i64_table, pow10_i128_table, or_else, saturating_pow10,
}

-- A power of ten, or the greatest value of the type where that is less.
abbrev pub saturated : ℕ → ℕ → ℕ
saturated limit exp = if ltb (10 ^ exp) limit then 10 ^ exp else limit

-- The loop of `saturating_pow10` above the table.
table_i64 : every_below 19 (λ e. pow10_i64 e == saturated (2 ^ 63 - 1) e) ≡ true
unfolding every_below pow10_i64
table_i64 = refl

table_i128 : every_below 39 (λ e. pow10_i128 e == saturated (2 ^ 127 - 1) e) ≡ true
unfolding every_below pow10_i128
table_i128 = refl

table_exact : every_below 39 (λ e. pow10_i128 e == 10 ^ e) ≡ true
unfolding every_below pow10_i128
table_exact = refl

table_small : every_below 19 (λ e. leb (10 ^ e) (10 ^ 18)) ≡ true
unfolding every_below
table_small = refl

eq_of_== : (a b : ℕ) → (a == b) ≡ true → a ≡ b
eq_of_== a b h = ground arith

-- The tables and the fallback behind them agree with a saturating power at every exponent.
pub pow10-saturated :
    (exp : ℕ)
    → (pow10_i64 exp ≡ saturated (2 ^ 63 - 1) exp) × (pow10_i128 exp ≡ saturated (2 ^ 127 - 1) exp)
unfolding pow10_i64 pow10_i128
pow10-saturated exp = (
  elim (Bool-cases (ltb exp 19)) [
    | inl inside ↦ eq_of_== _ _ (every_below-at 19 _ exp table_i64 (ltb→lt _ _ inside))
    | inr behind ↦
        ap (λ o. or_else o (saturating_pow10 (2 ^ 63 - 1) exp))
          (get_elem?-length pow10_i64_table exp (ground arith))
  ],
  elim (Bool-cases (ltb exp 39)) [
    | inl inside ↦ eq_of_== _ _ (every_below-at 39 _ exp table_i128 (ltb→lt _ _ inside))
    | inr behind ↦
        ap (λ o. or_else o (saturating_pow10 (2 ^ 127 - 1) exp))
          (get_elem?-length pow10_i128_table exp (ground arith))
  ],
)

-- Up to 10^38 an i128 holds the power itself.
pub pow10_i128-exact : (exp : ℕ) → exp < 39 → pow10_i128 exp ≡ 10 ^ exp
pow10_i128-exact exp h = eq_of_== _ _ (every_below-at 39 _ exp table_exact h)

pub pow10-le : (exp : ℕ) → exp ≤ 18 → 10 ^ exp ≤ 10 ^ 18
pow10-le exp h = leb→le _ _ (every_below-at 19 _ exp table_small (omega arith))
