-- ===== src/Lexer/Lines.antt =====
-- crates/cobol-lexer/src/source_reader.rs: the lines cover the source, in order.
use rust_cobol.Prelude.{
  ℕ, suc, ◌+◌, ◌^◌, ◌≤◌, ◌<◌, ◌≡◌, refl, sym, ap, ◌∙◌, inl, inr, Bool, true, false, List, [], ◌∷◌,
  ◌++◌, arith, ltb, ◌==◌, Bool-cases, length, length-append,
}
use rust_cobol.Lexer.Reader.{
  SourceFormat, SourceLine, columns, split_lines, onto_first, line_at, read_lines,
  without_empty_last, read_source, fixed, free, variable_format,
}

-- The texts of the lines, one behind the other.
unfoldable pub raw_text : List SourceLine → List ℕ
raw_text [] = []
raw_text (l ∷ ls) = l.raw ++ raw_text ls

-- The lines are numbered from `number`, each starts where the one before it ends, the first at
-- `offset`, and the content of each lies within its text.
abbrev pub ArePlaced : ℕ → ℕ → List SourceLine → Type 0
ArePlaced number offset [] = Unit {0}
ArePlaced number offset (l ∷ ls) =
    (l.line_number ≡ number)
    × (l.global_offset ≡ offset)
    × (l.content_start ≤ l.content_end)
    × (l.content_end ≤ length l.raw)
    × ArePlaced (number + 1) (offset + length l.raw) ls

join_lines : List (List ℕ) → List ℕ
join_lines [] = []
join_lines (l ∷ []) = l
join_lines (l ∷ m ∷ ls) = l ++ 10 ∷ join_lines (m ∷ ls)

join_lines-onto_first :
    (b : ℕ) (ls : List (List ℕ)) → join_lines (onto_first b ls) ≡ b ∷ join_lines ls
unfolding join_lines
join_lines-onto_first b [] = refl
join_lines-onto_first b (l ∷ []) = refl
join_lines-onto_first b (l ∷ m ∷ ls) = refl

split_lines-cons : (s : List ℕ) → (l : List ℕ) × ((ls : List (List ℕ)) × (split_lines s ≡ l ∷ ls))
unfolding split_lines
split_lines-cons [] = ([], ([], refl))
split_lines-cons (b ∷ bs) = elim (Bool-cases (b == 10)) [
  | inl newline ↦ ([], (split_lines bs, rw (newline, split_lines) refl))
  | inr other ↦
      let (l, rest) = split_lines-cons bs in
      let (ls, e) = rest in (b ∷ l, (ls, rw (other, e, split_lines) refl))
]

join_lines-split_lines : (s : List ℕ) → join_lines (split_lines s) ≡ s
unfolding split_lines join_lines
join_lines-split_lines [] = refl
join_lines-split_lines (b ∷ bs) =
    let (l, rest) = split_lines-cons bs in
    let (ls, e) = rest in
    let joined : join_lines (l ∷ ls) ≡ bs = ap join_lines (sym e) ∙ join_lines-split_lines bs in
    elim (Bool-cases (b == 10)) [
      | inl newline ↦ rw (newline, e, split_lines) (ground (arith, newline, joined))
      | inr other ↦
          rw (other, e, split_lines) (join_lines-onto_first b (l ∷ ls) ∙ ap (λ x. b ∷ x) joined)
    ]

columns_fit :
    (format : SourceFormat) (l : List ℕ)
    → let (indicator, content_start, content_end) = columns format l in
      (content_start ≤ content_end) × (content_end ≤ length l)
unfolding columns
columns_fit fixed l = ground arith
columns_fit variable_format l = ground arith
columns_fit free l = ground arith

module _ (format : SourceFormat) (total number offset : ℕ) (l : List ℕ)
    (small : total < 2 ^ 32) where
  read_lines-more :
      (ls : List (List ℕ))
      → offset + length l < total
      → read_lines format total number offset (l ∷ ls)
        ≡ line_at format number offset l true
          ∷ read_lines format total (number + 1) (offset + length (l ++ 10 ∷ [])) ls
  unfolding read_lines
  read_lines-more ls h =
      let more : ltb (offset + length l) total ≡ true = ground (arith, h) in
      rw (more, read_lines)
        (ap (λ o. line_at format number offset l true ∷ read_lines format total (number + 1) o ls)
          (omega (arith, h, small, length-append l (10 ∷ []))))

  read_lines-last :
      offset + length l ≡ total
      → read_lines format total number offset (l ∷ []) ≡ line_at format number offset l false ∷ []
  unfolding read_lines
  read_lines-last h =
      let last : ltb (offset + length l) total ≡ false = ground (arith, h) in
      rw (last, read_lines) refl

  line_at_placed :
      (has_newline : Bool)
      → let r = line_at format number offset l has_newline in
        (r.line_number ≡ number)
        × (r.global_offset ≡ offset)
        × (r.content_start ≤ r.content_end)
        × (r.content_end ≤ length r.raw)
  unfolding line_at
  line_at_placed true =
      let (starts, ends) = columns_fit format l in
      (refl, refl, starts, omega (arith, ends, length-append l (10 ∷ [])))
  line_at_placed false = let (starts, ends) = columns_fit format l in (refl, refl, starts, ends)

append_nil : (l : List ℕ) → l ++ [] ≡ l
append_nil [] = refl
append_nil (x ∷ xs) = ap (λ r. x ∷ r) (append_nil xs)

append_newline : (l r : List ℕ) → (l ++ 10 ∷ []) ++ r ≡ l ++ 10 ∷ r
append_newline [] r = refl
append_newline (x ∷ xs) r = ap (λ t. x ∷ t) (append_newline xs r)

Covers : List SourceLine → ℕ → ℕ → List ℕ → Type 0
Covers ls number offset text = (raw_text ls ≡ text) × ArePlaced number offset ls

read_lines_cover :
    (format : SourceFormat) (total number offset : ℕ) (l : List ℕ) (ls : List (List ℕ))
    → total < 2 ^ 32
    → offset + length (join_lines (l ∷ ls)) ≡ total
    → Covers (read_lines format total number offset (l ∷ ls)) number offset (join_lines (l ∷ ls))
unfolding Covers join_lines raw_text line_at
read_lines_cover format total number offset l [] small h =
    let (n, o, starts, ends) = line_at_placed format total number offset l small false in
    rw (read_lines-last format total number offset l small h)
      (append_nil l, (n, o, starts, ends, tt))
read_lines_cover format total number offset l (m ∷ ls) small h =
    let longer : length (l ++ 10 ∷ join_lines (m ∷ ls))
        ≡ length l + suc (length (join_lines (m ∷ ls))) =
      length-append l (10 ∷ join_lines (m ∷ ls)) in
    let (n, o, starts, ends) = line_at_placed format total number offset l small true in
    let (text, placed) =
      read_lines_cover format total (number + 1) (offset + length (l ++ 10 ∷ [])) m ls small
        (omega (arith, h, longer, length-append l (10 ∷ []))) in
    rw (read_lines-more format total number offset l small (m ∷ ls) (omega (arith, h, longer))) (
      ap (λ r. (l ++ 10 ∷ []) ++ r) text ∙ append_newline l (join_lines (m ∷ ls)),
      (n, o, starts, ends, placed),
    )

empty_of_length : (l : List ℕ) → (length l == 0) ≡ true → l ≡ []
empty_of_length [] h = refl
empty_of_length (x ∷ xs) h = absurd (ground (arith, h))

without_empty_last-Covers :
    (ls : List SourceLine) (number offset : ℕ) (text : List ℕ)
    → Covers ls number offset text
    → Covers (without_empty_last ls) number offset text
unfolding Covers without_empty_last raw_text
without_empty_last-Covers [] number offset text h = h
without_empty_last-Covers (l ∷ []) number offset text (e, p) =
    elim (Bool-cases (length l.raw == 0)) [
      | inl empty ↦
          rw (empty, without_empty_last)
            (sym (append_nil l.raw ∙ empty_of_length l.raw empty) ∙ e, tt)
      | inr other ↦ rw (other, without_empty_last) (e, p)
    ]
without_empty_last-Covers (l ∷ m ∷ ls) number offset text (e, (n, o, starts, ends, placed)) =
    let (rest, kept) =
      without_empty_last-Covers (m ∷ ls) (number + 1) (offset + length l.raw) (raw_text (m ∷ ls))
        (refl, placed) in
    (ap (λ r. l.raw ++ r) rest ∙ e, (n, o, starts, ends, kept))

-- In each format the lines of a source of less than 2^32 bytes cover it: their texts, one behind the
-- other, are the source, they are numbered from 1, each starts at the offset where the one before
-- it ends, and the content of each lies within its text.
pub read_source-covers :
    (source : List ℕ) (format : SourceFormat)
    → length source < 2 ^ 32
    → (raw_text (read_source source format) ≡ source) × ArePlaced 1 0 (read_source source format)
unfolding read_source Covers
read_source-covers source format h =
    let (l, rest) = split_lines-cons source in
    let (ls, e) = rest in
    let joined : join_lines (l ∷ ls) ≡ source =
      ap join_lines (sym e) ∙ join_lines-split_lines source in
    let covered : Covers (read_lines format (length source) 1 0 (l ∷ ls)) 1 0
        (join_lines (l ∷ ls)) =
      read_lines_cover format (length source) 1 0 l ls h (omega (arith, ap length joined)) in
    let (text, placed) =
      without_empty_last-Covers (read_lines format (length source) 1 0 (l ∷ ls)) 1 0
        (join_lines (l ∷ ls)) covered in
    rw e (text ∙ joined, placed)
