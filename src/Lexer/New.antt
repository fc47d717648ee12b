-- ===== src/Lexer/New.antt =====
-- crates/cobol-lexer/src/lexer.rs: a new lexer, with the offset in the source of each byte.
use rust_cobol.Prelude.{
  Bool, Option, none, some, ℕ, suc, ◌+◌, ◌-◌, ◌*◌, ◌<◌, ◌≡◌, refl, ap, true, false, List, [], ◌∷◌,
  ◌++◌, arith, leb, if◌then◌else◌, length, length-append,
}
use rust_cobol.Prelude.Words.{u32}
use rust_cobol.Lexer.Reader.{SourceFormat, read_source}
use rust_cobol.Lexer.Segments.{ContentSegment, build_segments, source_has_debugging_mode}
use rust_cobol.Lexer.Tokens.{Lexer, Run, panicked, lex_all}
use mathlib.Core.Option
use rust_cobol.Lexer.Progress.{IsValid}
use rust_cobol.Lexer.Run.{IsLexed, lex_all-IsLexed}

-- The continuation that begins at a byte, if one does: the ones after it, its offset and start.
abbrev pub enter : ℕ → List (ℕ × ℕ) → ℕ → ℕ → List (ℕ × ℕ) × ℕ × ℕ
enter j [] base start = ([], base, start)
enter j (c ∷ cs) base start = if leb c.0 j then (cs, c.1, c.0) else (c ∷ cs, base, start)

-- The loop over the bytes of a segment, from the byte `j` on.
unfoldable pub segment_offsets : List ℕ → ℕ → List (ℕ × ℕ) → ℕ → ℕ → List ℕ
segment_offsets [] j conts base start = []
segment_offsets (b ∷ bs) j conts base start =
    let (conts', base', start') = enter j conts base start in
    u32 (base' + u32 (j - start')) ∷ segment_offsets bs (j + 1) conts' base' start'

abbrev end_behind : ContentSegment → List (ℕ × ℕ) → ℕ
end_behind prev [] = u32 (prev.global_offset + u32 (length prev.text))
end_behind prev (c ∷ []) = u32 (c.1 + u32 (length prev.text - c.0))
end_behind prev (c ∷ d ∷ cs) = end_behind prev (d ∷ cs)

-- The offset of the line break behind a segment.
unfoldable pub prev_end : ContentSegment → ℕ
prev_end prev = end_behind prev prev.cont_offsets

abbrev offsets_of : ContentSegment → List ℕ
offsets_of s = segment_offsets s.text 0 s.cont_offsets s.global_offset 0

-- The content and the offset map of the segments behind one of them.
unfoldable pub flatten_after : ContentSegment → List ContentSegment → List ℕ × List ℕ
flatten_after prev [] = ([], [])
flatten_after prev (s ∷ segments) =
    let later = flatten_after s segments in
    (10 ∷ (s.text ++ later.0), prev_end prev ∷ (offsets_of s ++ later.1))

unfoldable pub flatten : List ContentSegment → List ℕ × List ℕ
flatten [] = ([], [])
flatten (s ∷ segments) =
    let later = flatten_after s segments in (s.text ++ later.0, offsets_of s ++ later.1)

-- The lexer over the content of some segments.
unfoldable pub lexer_of : ℕ → List ContentSegment → Lexer
lexer_of file_id segments =
    let flat = flatten segments in
    record {
      file_id = file_id;
      offset_map = flat.1;
      before = [];
      rest = flat.0;
      picture_mode = false;
      at_statement_start = true;
    }

-- None is a panic, of the slice for the content of a line.
unfoldable pub new : List ℕ → ℕ → SourceFormat → Option Lexer
new source file_id format =
    let lines = read_source source format in
    elim (source_has_debugging_mode lines) [
      | none ↦ none
      | some debugging ↦
          Option.map (λ segments. lexer_of file_id segments) (build_segments lines debugging)
    ]

segment_offsets-length :
    (text : List ℕ) (j : ℕ) (conts : List (ℕ × ℕ)) (base start : ℕ)
    → length (segment_offsets text j conts base start) ≡ length text
unfolding segment_offsets
segment_offsets-length [] j conts base start = refl
segment_offsets-length (b ∷ bs) j conts base start =
    let e = enter j conts base start in ap suc (segment_offsets-length bs (j + 1) e.0 e.1 e.2)

flatten_after-length :
    (prev : ContentSegment) (segments : List ContentSegment)
    → length (flatten_after prev segments).1 ≡ length (flatten_after prev segments).0
unfolding flatten_after
flatten_after-length prev [] = refl
flatten_after-length prev (s ∷ segments) =
    let later = flatten_after s segments in
    omega (
      arith,
      length-append s.text later.0,
      length-append (offsets_of s) later.1,
      segment_offsets-length s.text 0 s.cont_offsets s.global_offset 0,
      flatten_after-length s segments,
    )

flatten-length :
    (segments : List ContentSegment) → length (flatten segments).1 ≡ length (flatten segments).0
unfolding flatten
flatten-length [] = refl
flatten-length (s ∷ segments) =
    let later = flatten_after s segments in
    omega (
      arith,
      length-append s.text later.0,
      length-append (offsets_of s) later.1,
      segment_offsets-length s.text 0 s.cont_offsets s.global_offset 0,
      flatten_after-length s segments,
    )

pub lexer_of-IsValid :
    (file_id : ℕ) (segments : List ContentSegment) → IsValid (lexer_of file_id segments)
unfolding lexer_of
lexer_of-IsValid file_id segments = omega (arith, flatten-length segments)

-- What becomes of a source: `Lexer::new` and `lex_all` on what it gives.
unfoldable pub lex_new : Option Lexer → Run
lex_new none = panicked
lex_new (some l) = lex_all (2 * length l.rest + 1) l

unfoldable pub lex_source : List ℕ → ℕ → SourceFormat → Run
lex_source source file_id format = lex_new (new source file_id format)

-- The content that is lexed.
abbrev pub content_of : Option Lexer → List ℕ
content_of none = []
content_of (some l) = l.rest

lex_lexer_of :
    (file_id : ℕ) (o : Option (List ContentSegment))
    → let l = Option.map (λ segments. lexer_of file_id segments) o in
      IsLexed (content_of l) (lex_new l)
unfolding lex_new lexer_of
lex_lexer_of file_id none = tt
lex_lexer_of file_id (some segments) =
    let l = lexer_of file_id segments in
    lex_all-IsLexed (2 * length l.rest + 1) l (lexer_of-IsValid file_id segments) (enough l.rest)
  where
    enough : (rest : List ℕ) → 2 * length rest + 0 < 2 * length rest + 1
    enough rest = omega arith

-- Lexing any source ends, within two rounds for each byte of its content and one more, in a panic
-- or in tokens. The tokens end with the end of the source, which no token before it is; each stands
-- for its text, up to case, and together with the gaps before them, of white space and at most one
-- word IS, they make up the whole content, in order.
pub lex_source-IsLexed :
    (source : List ℕ) (file_id : ℕ) (format : SourceFormat)
    → IsLexed (content_of (new source file_id format)) (lex_source source file_id format)
unfolding lex_source new
lex_source-IsLexed source file_id format =
    go (source_has_debugging_mode (read_source source format))
  where
    go :
        (o : Option Bool)
        → let l : Option Lexer = elim o [
          | none ↦ none
          | some debugging ↦
              Option.map
                (λ segments. lexer_of file_id segments)
                (build_segments (read_source source format) debugging)
        ] in
          IsLexed (content_of l) (lex_new l)
    go none = unfold lex_new in tt
    go (some debugging) =
        lex_lexer_of file_id (build_segments (read_source source format) debugging)
