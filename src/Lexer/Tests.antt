-- ===== src/Lexer/Tests.antt =====
-- crates/cobol-lexer/src: tests and instances at concrete inputs.
use rust_cobol.Prelude.{
  ◌⊎◌, some, Option, ℕ, ◌≡◌, refl, Bool, true, false, List, [], ◌∷◌, ◌++◌, map, arith,
}
use rust_cobol.Prelude.Text.{codes}
use rust_cobol.Lexer.Reader.{
  slice, fixed, free, read_source, content_text, is_comment, is_debug, is_blank, sequence_area,
  trim_start, columns, column_indicator, free_indicator, normalize_fixed_indicator, split_lines,
  line_at, read_lines, without_empty_last,
}
use rust_cobol.Lexer.Lines.{raw_text, ArePlaced, read_source-covers}
use rust_cobol.Prelude.{◌+◌, none}
use rust_cobol.Lexer.Kinds.{TokenKind}
use rust_cobol.Lexer.Keywords.{from_keyword, is_eof, is_keyword, from_keyword-keyword}
use rust_cobol.Lexer.Tokens.{Token, Lexer, Run, lexed, next_token, lex_all, is_char_boundary}
use rust_cobol.Lexer.Progress.{Result}
use rust_cobol.Lexer.Step.{IsStep, next_token-IsStep}
use rust_cobol.Lexer.Run.{IsLexed, Covers}
use rust_cobol.Lexer.Ascii.{lex_all-ascii, next_token-panics}
use rust_cobol.Lexer.Literal.{escape, Gives, next_token-literal, next_token-unterminated}
use rust_cobol.Lexer.New.{new, lex_source, content_of}
use rust_cobol.Lexer.Total.{is_ascii, lex_source-tokens}

-- A line of code and a comment, each with its newline.
abbrev two_lines : List ℕ
two_lines = codes "000100 MOVE" ++ 10 ∷ codes "000200*NOTE" ++ 10 ∷ []

read_source-covers_example :
    (raw_text (read_source two_lines fixed) ≡ two_lines)
    × ArePlaced 1 0 (read_source two_lines fixed)
read_source-covers_example = read_source-covers two_lines fixed (omega arith)

two_lines_read :
    map {B = Option (List ℕ) × Bool}
      (λ l. (content_text l, is_comment l))
      (read_source two_lines fixed)
    ≡ (some (codes "MOVE"), false) ∷ (some (codes "NOTE"), true) ∷ []
unfolding read_source without_empty_last read_lines line_at columns column_indicator
    normalize_fixed_indicator split_lines content_text rust_cobol.Lexer.Reader.slice
    is_char_boundary is_comment
two_lines_read = refl

-- A debug line, its sequence number, and that it is no continuation.
debug_line :
    map {B = Bool × Option (List ℕ)}
      (λ l. (is_debug l, sequence_area l))
      (read_source (codes "000300D") fixed)
    ≡ (true, some (codes "000300")) ∷ []
unfolding read_source without_empty_last read_lines line_at columns column_indicator
    normalize_fixed_indicator split_lines is_debug sequence_area rust_cobol.Lexer.Reader.slice
    is_char_boundary
debug_line = refl

free_comment : map is_comment (read_source (codes "  *> note") free) ≡ true ∷ []
unfolding read_source without_empty_last read_lines line_at columns free_indicator trim_start
    split_lines is_comment
free_comment = refl

-- An ideographic space is white space.
blank_line : map is_blank (read_source (0xe3 ∷ 0x80 ∷ 0x80 ∷ 32 ∷ []) free) ≡ some true ∷ []
unfolding read_source without_empty_last read_lines line_at columns free_indicator trim_start
    split_lines is_blank content_text rust_cobol.Lexer.Reader.slice is_char_boundary
blank_line = refl

-- A lexer at the start of a text, with the offset map of a source that is the text.
abbrev counted : ℕ → List ℕ → List ℕ
counted n [] = []
counted n (b ∷ bs) = n ∷ counted (n + 1) bs

abbrev at_start : List ℕ → Lexer
at_start text = record {
  file_id = 1;
  offset_map = counted 0 text;
  before = [];
  rest = text;
  picture_mode = false;
  at_statement_start = true;
}

next_token-IsStep_example :
    Result (IsStep (at_start (codes " 01 A."))) (next_token (at_start (codes " 01 A.")))
next_token-IsStep_example = next_token-IsStep (at_start (codes " 01 A.")) refl

lex_source-tokens_example :
    let run = lex_source two_lines 1 fixed in
    IsLexed (content_of (new two_lines 1 fixed)) run
    × (((ts : List Token) × (run ≡ lexed ts)) ⊎ (is_ascii two_lines ≡ false))
lex_source-tokens_example = lex_source-tokens two_lines 1 fixed

-- A character of two bytes over the end of the content's columns.
straddling : slice 7 8 (codes "       " ++ 0xc3 ∷ 0xa9 ∷ []) ≡ none
unfolding slice is_char_boundary
straddling = refl

lex_all-ascii_example :
    (ts : List Token) × ((lex_all 40 (at_start (codes "01 A PIC X(3).")) ≡ lexed ts)
      × Covers (codes "01 A PIC X(3).") ts)
lex_all-ascii_example = lex_all-ascii (at_start (codes "01 A PIC X(3).")) 40 refl refl (omega arith)

next_token-panics_example : next_token (at_start (0xc3 ∷ 0xa9 ∷ [])) ≡ none
next_token-panics_example =
    next_token-panics (at_start (0xc3 ∷ 0xa9 ∷ [])) 0xc3 0xa9 [] refl refl (omega arith)
      (omega arith, omega arith)

next_token-literal_example :
    Gives
      (at_start (codes "'it''s' TO"))
      TokenKind.string_literal
      (39 ∷ (escape 39 (codes "it's") ++ 39 ∷ []))
      (codes " TO")
next_token-literal_example =
    next_token-literal (at_start (codes "'it''s' TO")) 39 (codes "it's") (codes " TO") refl refl
      refl refl (unfold escape in refl) refl (unfold is_char_boundary in refl)

next_token-unterminated_example :
    Gives (at_start (codes "'it" ++ 10 ∷ codes "A")) TokenKind.error (codes "'it") (10 ∷ codes "A")
next_token-unterminated_example =
    next_token-unterminated (at_start (codes "'it" ++ 10 ∷ codes "A")) 39 (codes "it") (codes "A")
      refl refl refl refl refl refl

-- The kinds of the tokens of a run.
abbrev kinds : Run → List TokenKind
kinds (lexed ts) = map (λ t. t.kind) ts
kinds r = []

data_description :
    kinds (lex_all 40 (at_start (codes "01 A PIC IS X(3).")))
    ≡ TokenKind.level_number ∷ TokenKind.identifier ∷ TokenKind.pic ∷ TokenKind.picture_string
      ∷ TokenKind.period ∷ TokenKind.eof ∷ []
unfolding lex_all next_token rust_cobol.Lexer.Tokens.token_at
    rust_cobol.Lexer.Tokens.skip_whitespace rust_cobol.Lexer.Tokens.skip_horizontal_whitespace
    rust_cobol.Lexer.Tokens.advance rust_cobol.Lexer.Scan.count_while
    rust_cobol.Lexer.Tokens.lexeme_at rust_cobol.Lexer.Tokens.level_or_number
    rust_cobol.Lexer.Scan.level_length rust_cobol.Lexer.Scan.is_level
    rust_cobol.Lexer.Tokens.lex_word rust_cobol.Lexer.Tokens.word_lexeme
    rust_cobol.Lexer.Tokens.lex_operator rust_cobol.Lexer.Scan.operator
    rust_cobol.Lexer.Scan.trimmed_length from_keyword rust_cobol.Lexer.Keywords.entry_of
    rust_cobol.Lexer.Keywords.keywords rust_cobol.Lexer.Tokens.emit
    rust_cobol.Lexer.Tokens.make_token is_char_boundary rust_cobol.Lexer.Tokens.make_eof
    rust_cobol.Lexer.Tokens.picture_token rust_cobol.Lexer.Tokens.lex_picture_string
    rust_cobol.Lexer.Tokens.skip_is rust_cobol.Lexer.Scan.starts_with_ignore_case
    rust_cobol.Lexer.Scan.picture_length
data_description = refl
