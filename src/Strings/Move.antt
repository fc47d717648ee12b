-- ===== src/Strings/Move.antt =====
-- crates/cobol-runtime/src/string_ops.rs: MOVE between alphanumeric fields.
use rust_cobol.Prelude.{
  ℕ, zero, suc, ◌-◌, ◌≤◌, ◌<◌, min, ◌≡◌, refl, ap, ◌⊎◌, inl, inr, List, [], ◌∷◌, ◌++◌, arith, leb,
  leb→le, Bool-cases, length, take, drop, replicate, length-append, length-take, length-drop,
  length-replicate,
}
use rust_cobol.Prelude.Int.{pos}
use mathlib.Core.List.{append-nil}
use rust_cobol.Strings.Compare.{compare_weighted}

-- The destination of `n` bytes after the move.
unfoldable pub cobol_move_string : List ℕ → ℕ → List ℕ
cobol_move_string src n =
    let copy_len = min (length src) n in take copy_len src ++ replicate (n - copy_len) 32

unfoldable pub cobol_move_string_right : List ℕ → ℕ → List ℕ
cobol_move_string_right src n =
    let copy_len = min (length src) n in
    let pad_len = n - copy_len in replicate pad_len 32 ++ take copy_len (drop (length src - n) src)

compare_spaces : (weight : ℕ → ℕ) (n : ℕ) → compare_weighted weight (replicate n 32) [] ≡ pos 0
unfolding compare_weighted
compare_spaces weight zero = refl
compare_spaces weight (suc n) = ground (arith, compare_spaces weight n)

compare-append_spaces :
    (weight : ℕ → ℕ) (src : List ℕ) (n : ℕ)
    → compare_weighted weight (src ++ replicate n 32) src ≡ pos 0
unfolding compare_weighted
compare-append_spaces weight [] n = compare_spaces weight n
compare-append_spaces weight (x ∷ xs) n = ground (arith, compare-append_spaces weight xs n)

take_all : (src : List ℕ) (n : ℕ) → length src ≤ n → take n src ≡ src
take_all [] zero h = refl
take_all [] (suc n) h = refl
take_all (x ∷ xs) zero h = absurd (omega arith)
take_all (x ∷ xs) (suc n) h = ap (λ t. x ∷ t) (take_all xs n (omega arith))

move_short :
    (src : List ℕ) (n : ℕ)
    → length src ≤ n
    → (cobol_move_string src n ≡ src ++ replicate (n - length src) 32)
      × (cobol_move_string_right src n ≡ replicate (n - length src) 32 ++ src)
unfolding cobol_move_string cobol_move_string_right
move_short src n h =
    let m : min (length src) n ≡ length src = omega arith in
    let d : length src - n ≡ 0 = omega arith in
    rw (m, d, take_all src (length src) (omega arith)) (refl, refl)

move_long :
    (src : List ℕ) (n : ℕ)
    → n ≤ length src
    → (cobol_move_string src n ≡ take n src)
      × (cobol_move_string_right src n ≡ drop (length src - n) src)
unfolding cobol_move_string cobol_move_string_right
move_long src n h =
    let m : min (length src) n ≡ n = omega arith in
    let z : n - n ≡ 0 = omega arith in
    rw (m, z)
      (
        append-nil (take n src),
        take_all (drop (length src - n) src) n (omega (arith, length-drop (length src - n) src)),
      )

-- Both moves fill a field of `n` bytes. A text that fits stands at its left or right end with spaces
-- beside it, and of one that does not fit the left or right end is kept. Moved to the left, a text
-- that fits compares equal to its field, in every collating sequence.
pub move_string_fills :
    (weight : ℕ → ℕ) (src : List ℕ) (n : ℕ)
    → (length (cobol_move_string src n) ≡ n)
      × (length (cobol_move_string_right src n) ≡ n)
      × (((length src ≤ n)
            × (cobol_move_string_right src n ≡ replicate (n - length src) 32 ++ src)
            × (compare_weighted weight (cobol_move_string src n) src ≡ pos 0))
          ⊎ ((n < length src)
              × (cobol_move_string src n ≡ take n src)
              × (cobol_move_string_right src n ≡ drop (length src - n) src)))
move_string_fills weight src n = elim (Bool-cases (leb (length src) n)) [
  | inl fits ↦
      let h : length src ≤ n = leb→le (length src) n fits in
      let (left, right) = move_short src n h in
      rw (left, right)
        (
          omega (
            arith,
            h,
            length-append src (replicate {A = ℕ} (n - length src) 32),
            length-replicate {A = ℕ} (n - length src) 32,
          ),
          omega (
            arith,
            h,
            length-append (replicate {A = ℕ} (n - length src) 32) src,
            length-replicate {A = ℕ} (n - length src) 32,
          ),
          inl (h, refl, compare-append_spaces weight src (n - length src)),
        )
  | inr long ↦
      let h : n < length src = ground (arith, long) in
      let (left, right) = move_long src n (omega arith) in
      rw (left, right)
        (
          omega (arith, length-take n src),
          omega (arith, length-drop (length src - n) src),
          inr (h, refl, refl),
        )
]
