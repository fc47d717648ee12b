-- ===== src/Lexer/Total.antt =====
-- crates/cobol-lexer/src/lexer.rs: lexing a whole source, and that ASCII does not panic.
use rust_cobol.Prelude.{
  ℕ, ◌+◌, ◌*◌, ◌≡◌, ◌⊎◌, inl, inr, Bool, false, Option, none, some, List, [], ltb, Bool-cases,
  length,
}
use mathlib.Core.Option
use mathlib.Core.List.{reverse}
use rust_cobol.Strings.Class.{all}
use rust_cobol.Lexer.Ascii.{IsAscii, IsCalm, lex_all-IsCalm, run_tokens}
use rust_cobol.Lexer.Reader.{SourceFormat, SourceLine, read_source}
use rust_cobol.Lexer.Segments.{
  ContentSegment, add_lines, build_segments, configuration_lines, source_has_debugging_mode,
  debugging_in,
}
use rust_cobol.Lexer.Tokens.{Token, Lexer, Run, lexed}
use rust_cobol.Lexer.Progress.{IsValid}
use rust_cobol.Lexer.Run.{IsLexed}
use rust_cobol.Lexer.New.{
  lexer_of, new, lexer_of-IsValid, lex_new, lex_source, content_of, lex_source-IsLexed,
}
use rust_cobol.Lexer.Plain.{reverse-AllAscii, flatten-IsAscii}
use rust_cobol.Lexer.Contents.{
  LinesAscii, read_source-LinesAscii, GoodSegments, add_lines-Good, HasTexts,
  configuration_lines-HasTexts,
}

-- `Lexer::new` gives a lexer over ASCII.
GoodLexer : Option Lexer → Type 0
GoodLexer none = ⊥
GoodLexer (some l) = IsValid l × IsAscii l.rest

build_segments-GoodLexer :
    (file_id : ℕ) (ls : List SourceLine) (include_debug_lines : Bool)
    → LinesAscii ls
    → GoodLexer
        (Option.map (λ segments. lexer_of file_id segments) (build_segments ls include_debug_lines))
unfolding build_segments GoodLexer GoodSegments lexer_of
build_segments-GoodLexer file_id ls include_debug_lines h =
    go (add_lines include_debug_lines ls []) (add_lines-Good include_debug_lines ls [] h tt)
  where
    go :
        (o : Option (List ContentSegment))
        → GoodSegments o
        → GoodLexer (
            Option.map
              (λ segments. lexer_of file_id segments)
              (Option.map (λ segments. reverse segments) o))
    go none g = g
    go (some segments) g = (
      lexer_of-IsValid file_id (reverse segments),
      flatten-IsAscii (reverse segments) (reverse-AllAscii segments g),
    )

new-GoodLexer :
    (source : List ℕ) (file_id : ℕ) (format : SourceFormat)
    → IsAscii source
    → GoodLexer (new source file_id format)
unfolding new source_has_debugging_mode HasTexts
new-GoodLexer source file_id format h =
    go (configuration_lines lines) (configuration_lines-HasTexts lines ascii_lines)
  where
    lines : List SourceLine
    lines = read_source source format

    ascii_lines : LinesAscii lines
    ascii_lines = read_source-LinesAscii source format h

    go :
        (o : Option (List (List ℕ)))
        → HasTexts o
        → GoodLexer (elim (Option.map debugging_in o) [
          | none ↦ none
          | some debugging ↦
              Option.map (λ segments. lexer_of file_id segments) (build_segments lines debugging)
        ])
    go none g = absurd g
    go (some texts) g = build_segments-GoodLexer file_id lines (debugging_in texts) ascii_lines

lex_new-IsCalm : (o : Option Lexer) → GoodLexer o → IsCalm (lex_new o)
unfolding GoodLexer lex_new
lex_new-IsCalm none g = g
lex_new-IsCalm (some l) (valid, h) = lex_all-IsCalm (2 * length l.rest + 1) l valid h

abbrev pub is_ascii : List ℕ → Bool
is_ascii source = all (λ b. ltb b 0x80) source

-- Lexing any source, `Lexer::new` and `lex_all` on what it gives, ends, within two rounds for each
-- byte of its content and one more, in tokens, or in a panic, which takes a byte that is not ASCII in
-- the source. The tokens end with the end of the source, which no token before it is; each stands for
-- its text, up to case, and together with the gaps before them, of white space and at most one word
-- IS, they make up the whole content, in order.
pub lex_source-tokens :
    (source : List ℕ) (file_id : ℕ) (format : SourceFormat)
    → let run = lex_source source file_id format in
      IsLexed (content_of (new source file_id format)) run
      × (((ts : List Token) × (run ≡ lexed ts)) ⊎ (is_ascii source ≡ false))
lex_source-tokens source file_id format =
    let covered = lex_source-IsLexed source file_id format in
    (
      covered,
      elim (Bool-cases (is_ascii source)) [
        | inl plain ↦ inl (
            calm (content_of (new source file_id format)) (lex_source source file_id format) covered
              (unfold lex_source in
                lex_new-IsCalm (new source file_id format)
                  (new-GoodLexer source file_id format plain)))
        | inr other ↦ inr other
      ],
    )
  where
    calm :
        (rest : List ℕ) (run : Run)
        → IsLexed rest run
        → IsCalm run
        → (ts : List Token) × (run ≡ lexed ts)
    calm rest run c k = let (ts, found) = run_tokens rest run c k in (ts, found.0)
