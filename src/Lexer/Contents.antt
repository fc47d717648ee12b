-- ===== src/Lexer/Contents.antt =====
-- crates/cobol-lexer/src/lexer.rs: the contents of the lines of an ASCII source.
use rust_cobol.Prelude.{
  ℕ, ◌+◌, ◌-◌, ◌≡◌, refl, inl, inr, Bool, true, false, ◌&&◌, ◌||◌, Option, none, some, List, [],
  ◌∷◌, arith, ltb, ◌==◌, Bool-cases, length, take, drop, either,
}
use rust_cobol.Prelude.Text.{is_char_boundary}
use rust_cobol.Prelude.Range.{and-left, and-right}
use rust_cobol.Lexer.Ascii.{IsAscii, drop-IsAscii, char_boundary_ascii}
use rust_cobol.Lexer.Reader.{
  SourceFormat, SourceLine, slice, content_text, is_comment, is_blank, trim_start, split_lines,
  onto_first, line_at, read_lines, without_empty_last, read_source,
}
use rust_cobol.Lexer.Segments.{
  ContentSegment, add_line, is_kept, next_segments, add_lines, configuration_lines, onto_lines,
}
use rust_cobol.Lexer.Plain.{AllAscii, append-IsAscii, take-IsAscii, add_line-AllAscii}

-- Of each line.
unfoldable AreAscii : List (List ℕ) → Type 0
AreAscii [] = Unit {0}
AreAscii (l ∷ ls) = IsAscii l × AreAscii ls

unfoldable pub LinesAscii : List SourceLine → Type 0
LinesAscii [] = Unit {0}
LinesAscii (l ∷ ls) = IsAscii l.raw × LinesAscii ls

onto_first-AreAscii :
    (b : ℕ) (ls : List (List ℕ)) → ltb b 0x80 ≡ true → AreAscii ls → AreAscii (onto_first b ls)
unfolding AreAscii
onto_first-AreAscii b [] h k = (ground (arith, h), tt)
onto_first-AreAscii b (l ∷ ls) h (p, k) = (ground (arith, h, p), k)

split_lines-AreAscii : (source : List ℕ) → IsAscii source → AreAscii (split_lines source)
unfolding AreAscii split_lines
split_lines-AreAscii [] h = (refl, tt)
split_lines-AreAscii (b ∷ bs) h =
    let rest = split_lines-AreAscii bs (and-right (ltb b 0x80) _ h) in
    either AreAscii (b == 10) {x = [] ∷ split_lines bs} {y = onto_first b (split_lines bs)}
      (refl, rest) (onto_first-AreAscii b (split_lines bs) (and-left (ltb b 0x80) _ h) rest)

line_at-IsAscii :
    (format : SourceFormat) (number offset : ℕ) (l : List ℕ) (has_newline : Bool)
    → IsAscii l
    → IsAscii (line_at format number offset l has_newline).raw
unfolding line_at
line_at-IsAscii format number offset l true h = append-IsAscii l (10 ∷ []) h refl
line_at-IsAscii format number offset l false h = h

read_lines-LinesAscii :
    (format : SourceFormat) (total number offset : ℕ) (ls : List (List ℕ))
    → AreAscii ls
    → LinesAscii (read_lines format total number offset ls)
unfolding read_lines AreAscii LinesAscii
read_lines-LinesAscii format total number offset [] h = tt
read_lines-LinesAscii format total number offset (l ∷ ls) (p, h) = (
  line_at-IsAscii format number offset l (ltb (offset + length l) total) p,
  read_lines-LinesAscii format total (number + 1) _ ls h,
)

without_empty_last-LinesAscii :
    (ls : List SourceLine) → LinesAscii ls → LinesAscii (without_empty_last ls)
unfolding without_empty_last LinesAscii
without_empty_last-LinesAscii [] h = h
without_empty_last-LinesAscii (l ∷ []) h =
    either LinesAscii (length l.raw == 0) {x = []} {y = l ∷ []} tt h
without_empty_last-LinesAscii (l ∷ m ∷ ls) (p, h) = (p, without_empty_last-LinesAscii (m ∷ ls) h)

pub read_source-LinesAscii :
    (source : List ℕ) (format : SourceFormat)
    → IsAscii source
    → LinesAscii (read_source source format)
unfolding read_source
read_source-LinesAscii source format h =
    without_empty_last-LinesAscii (read_lines format (length source) 1 0 (split_lines source)) (
      read_lines-LinesAscii format (length source) 1 0 (split_lines source)
        (split_lines-AreAscii source h))

-- The slice for the content goes through, and gives ASCII.
content_text-some :
    (l : SourceLine)
    → IsAscii l.raw
    → (text : List ℕ) × ((content_text l ≡ some text) × IsAscii text)
unfolding content_text slice
content_text-some l h =
    let from =
      char_boundary_ascii (drop l.content_start l.raw) (drop-IsAscii l.content_start l.raw h) in
    let to = char_boundary_ascii (drop l.content_end l.raw) (drop-IsAscii l.content_end l.raw h) in
    let fine : ((l.content_start == 0 || is_char_boundary (drop l.content_start l.raw))
          && (l.content_end == 0 || is_char_boundary (drop l.content_end l.raw)))
        ≡ true =
      ground (arith, from, to) in
    (
      take (l.content_end - l.content_start) (drop l.content_start l.raw),
      (
        rw fine refl,
        take-IsAscii (l.content_end - l.content_start) (drop l.content_start l.raw)
            (drop-IsAscii l.content_start l.raw h),
      ),
    )

unfoldable pub GoodSegments : Option (List ContentSegment) → Type 0
GoodSegments none = ⊥
GoodSegments (some segments) = AllAscii segments

next_segments-Good :
    (include_debug_lines : Bool) (l : SourceLine) (segments : List ContentSegment)
    → IsAscii l.raw
    → AllAscii segments
    → GoodSegments (next_segments include_debug_lines l segments)
unfolding next_segments GoodSegments is_blank
next_segments-Good include_debug_lines l segments h a =
    let (text, found) = content_text-some l h in
    let (e, plain) = found in
    let blank = length (trim_start text) == 0 in
    let kept = is_kept include_debug_lines l blank in
    elim (Bool-cases (is_comment l)) [
      | inl comment ↦ rw comment a
      | inr other ↦
          rw (other, e)
            (either AllAscii kept {x = add_line l text segments} {y = segments}
              (add_line-AllAscii l text segments plain a) a)
    ]

pub add_lines-Good :
    (include_debug_lines : Bool) (ls : List SourceLine) (segments : List ContentSegment)
    → LinesAscii ls
    → AllAscii segments
    → GoodSegments (add_lines include_debug_lines ls segments)
unfolding add_lines LinesAscii GoodSegments
add_lines-Good include_debug_lines [] segments h a = a
add_lines-Good include_debug_lines (l ∷ ls) segments (p, h) a =
    go (next_segments include_debug_lines l segments)
      (next_segments-Good include_debug_lines l segments p a)
      (λ after g. add_lines-Good include_debug_lines ls after h g)
  where
    go :
        (o : Option (List ContentSegment))
        → GoodSegments o
        → ((after : List ContentSegment)
            → AllAscii after
            → GoodSegments (add_lines include_debug_lines ls after))
        → GoodSegments
            (elim o [ none ↦ none | some after ↦ add_lines include_debug_lines ls after ])
    go none g later = g
    go (some after) g later = later after g

unfoldable pub HasTexts : Option (List (List ℕ)) → Type 0
HasTexts none = ⊥
HasTexts (some texts) = Unit {0}

pub configuration_lines-HasTexts :
    (ls : List SourceLine) → LinesAscii ls → HasTexts (configuration_lines ls)
unfolding HasTexts LinesAscii
configuration_lines-HasTexts [] h = tt
configuration_lines-HasTexts (l ∷ ls) (p, h) =
    let rest = configuration_lines ls in
    let later = configuration_lines-HasTexts ls h in
    let (text, found) = content_text-some l p in
    let (e, plain) = found in
    elim (Bool-cases (is_comment l)) [
      | inl comment ↦ rw comment later
      | inr other ↦ rw (other, e) (onto text rest later)
    ]
  where
    onto :
        (text : List ℕ) (rest : Option (List (List ℕ)))
        → HasTexts rest
        → HasTexts (onto_lines (some text) rest)
    onto text none r = r
    onto text (some texts) r = tt
