-- ===== src/Picture/Point.antt =====
-- crates/cobol-sema/src/picture_analyzer.rs: where `analyze` takes the decimal point from.
use rust_cobol.Prelude.{
  ℕ, ◌≡◌, refl, sym, ◌≢◌, inl, inr, Bool, true, false, ◌||◌, [], ◌∷◌, arith, ◌==◌, Bool-cases,
}
use rust_cobol.Prelude.Text.{Text, to_ascii_uppercase}
use rust_cobol.Common.Span.{Span}
use rust_cobol.Picture.Expand.{expand}
use rust_cobol.Picture.Scan.{Counters, Symbol, symbol, start, step, is_pair, pair_step, scan}
use rust_cobol.Picture.Analyze.{analyze}

-- Some character is the symbol `V`, in either case.
unfoldable pub has_v : Text → Bool
has_v [] = false
has_v (ch ∷ cs) = to_ascii_uppercase ch == b'V' || has_v cs

symbol_v : (ch : ℕ) → symbol ch ≡ Symbol.v → (ch == b'V') ≡ true
unfolding symbol
symbol_v ch h = ground arith

-- No decimal point has been seen.
record NoPoint (k : Counters) : Type 0 where
  unseen : k.has_decimal ≡ false
  zero_positions : k.decimal_positions ≡ 0

step-NoPoint : (sym : Symbol) (k : Counters) → NoPoint k → sym ≢ Symbol.v → NoPoint (step sym k)
unfolding step
step-NoPoint sym k h ne = ground arith

symbol-ne-v : (ch : ℕ) → (ch == b'V') ≡ false → symbol ch ≢ Symbol.v
symbol-ne-v ch h e = cc (h, symbol_v ch e)

scan-NoPoint : (cs : Text) (k : Counters) → NoPoint k → has_v cs ≡ false → NoPoint (scan k cs)
unfolding scan has_v
scan-NoPoint [] k h n = h
scan-NoPoint (ch ∷ []) k h n =
    step-NoPoint (symbol (to_ascii_uppercase ch)) k h
      (symbol-ne-v (to_ascii_uppercase ch) (ground arith))
scan-NoPoint (ch ∷ next ∷ rest) k h n =
    let single =
      scan-NoPoint (next ∷ rest) (step (symbol (to_ascii_uppercase ch)) k)
        (step-NoPoint (symbol (to_ascii_uppercase ch)) k h
          (symbol-ne-v (to_ascii_uppercase ch) (ground arith)))
        (ground arith) in
    elim (Bool-cases (is_pair ch next)) [
      | inl pair ↦
          rw (pair, scan)
            (scan-NoPoint rest (pair_step k)
              (unfold pair_step in record { unseen = h.unseen; zero_positions = h.zero_positions })
              (ground arith))
      | inr alone ↦ rw (alone, scan) single
    ]

-- Only `V` starts the decimal positions: a picture without it has none, also where a `.` stands for
-- the decimal point, as in `ZZZ.ZZ`.
pub analyze-decimal_positions :
    (pic_str : Text) (span : Span)
    → has_v (expand pic_str) ≡ false
    → (analyze pic_str span).decimal_positions ≡ 0
unfolding analyze start
analyze-decimal_positions pic_str span h =
    let r : NoPoint (scan start (expand pic_str)) =
      scan-NoPoint (expand pic_str) start (record { unseen = refl; zero_positions = refl }) h in
    r.zero_positions
