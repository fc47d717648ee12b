-- ===== src/Prelude/Words.antt =====
-- Machine integers: unsigned words are numbers cut by `%`, signed ones are integers wrapped into
-- their range, as Rust's `as` casts and its release arithmetic do.
use Prim.Native.Nat.{ℕ, ◌+◌, ◌-◌, ◌*◌, ◌%◌, ◌^◌, ◌≤◌, ◌<◌, min}
use mathlib.Core.Path.{◌≡◌}
use native.Mathlib.Omega.{arith}
use rust_cobol.Prelude.Tests.{ltb, if◌then◌else◌}
use rust_cobol.Prelude.Int.{ℤ, pos, negsuc, pos_part, neg_part}

-- `as u32` of a number.
abbrev pub u32 : ℕ → ℕ
u32 n = n % 2 ^ 32

-- The integer of a two's complement pattern below 2 ^ (w + 1), `half` being 2 ^ w.
abbrev pub of_pattern : ℕ → ℕ → ℤ
of_pattern half p = if ltb p half then pos p else negsuc (half + half - p - 1)

-- The pattern of an integer.
abbrev pub to_pattern : ℕ → ℤ → ℕ
to_pattern full (pos n) = n % full
to_pattern full (negsuc n) = full - 1 - n % full

unfoldable pub wrap_i32 : ℤ → ℤ
wrap_i32 z = of_pattern (2 ^ 31) (to_pattern (2 ^ 32) z)

unfoldable pub wrap_i64 : ℤ → ℤ
wrap_i64 z = of_pattern (2 ^ 63) (to_pattern (2 ^ 64) z)

unfoldable pub wrap_i128 : ℤ → ℤ
wrap_i128 z = of_pattern (2 ^ 127) (to_pattern (2 ^ 128) z)

pub wrap_i32_self : (z : ℤ) → pos_part z < 2 ^ 31 → neg_part z ≤ 2 ^ 31 → wrap_i32 z ≡ z
unfolding wrap_i32
wrap_i32_self z h k = ground arith

pub wrap_i64_self : (z : ℤ) → pos_part z < 2 ^ 63 → neg_part z ≤ 2 ^ 63 → wrap_i64 z ≡ z
unfolding wrap_i64
wrap_i64_self z h k = ground arith

pub wrap_i128_self : (z : ℤ) → pos_part z < 2 ^ 127 → neg_part z ≤ 2 ^ 127 → wrap_i128 z ≡ z
unfolding wrap_i128
wrap_i128_self z h k = ground arith

abbrev pub i64_max : ℕ
i64_max = 2 ^ 63 - 1

-- `saturating_mul(10).saturating_add(digit)` of an i64 of 0 or more.
unfoldable pub saturating_digit : ℕ → ℕ → ℕ
saturating_digit value digit = min i64_max (min i64_max (value * 10) + digit)
