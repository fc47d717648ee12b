-- ===== src/Lexer/Segments.antt =====
-- crates/cobol-lexer/src/lexer.rs: the content of the lines, with continuation lines joined.
use rust_cobol.Prelude.{
  ℕ, zero, suc, ◌+◌, ◌-◌, min, Bool, true, false, not, ◌&&◌, ◌||◌, Option, none, some, List, [],
  ◌∷◌, ◌++◌, ltb, ◌==◌, if◌then◌else◌, length, take, drop,
}
use rust_cobol.Prelude.Text.{Text, codes, uppercase}
use rust_cobol.Prelude.Words.{u32}
use mathlib.Core.List.{reverse}
use mathlib.Core.Option
use rust_cobol.Strings.Concat.{position_of}
use rust_cobol.Lexer.Scan.{count_while, next_is}
use rust_cobol.Lexer.Reader.{
  SourceLine, content_text, is_comment, is_continuation, is_debug, is_blank, trim_start,
}

unfoldable pub ends_inside_string : ℕ → Bool → List ℕ → Bool
ends_inside_string quote in_string [] = in_string
ends_inside_string quote in_string (b ∷ []) = if b == quote then not in_string else in_string
ends_inside_string quote in_string (b ∷ c ∷ bs) =
    let doubled = ends_inside_string quote in_string bs in
    let other = ends_inside_string quote in_string (c ∷ bs) in
    let turned = ends_inside_string quote (not in_string) (c ∷ bs) in
    if b == quote then (if in_string && c == quote then doubled else turned) else other

-- A continuation is where it begins in the text, and its offset in the source.
pub record ContentSegment : Type 0 where
  pub text : List ℕ
  pub global_offset : ℕ
  pub cont_offsets : List (ℕ × ℕ)

-- `trim_end`: up to where only white space is left.
unfoldable pub trim_end : List ℕ → List ℕ
trim_end [] = []
trim_end (b ∷ bs) =
    let rest = trim_end bs in if length (trim_start (b ∷ bs)) == 0 then [] else b ∷ rest

-- `copied().last()` and the bytes before it.
abbrev pub last_is : (ℕ → Bool) → List ℕ → Bool
last_is test [] = false
last_is test (b ∷ []) = test b
last_is test (b ∷ c ∷ bs) = last_is test (c ∷ bs)

abbrev pub without_last : List ℕ → List ℕ
without_last [] = []
without_last (b ∷ []) = []
without_last (b ∷ c ∷ bs) = b ∷ without_last (c ∷ bs)

-- The segment with a continuation's text behind it.
abbrev pub continued : ContentSegment → List ℕ → List ℕ → ℕ → ContentSegment
continued prev text appended global = record prev {
  text = text ++ appended;
  cont_offsets = prev.cont_offsets ++ (length text, global) ∷ [];
}

-- A literal is continued; `skip` is the number of bytes up to its opening quote and with it.
unfoldable pub continue_string : ContentSegment → ℕ → List ℕ → ℕ → ℕ → ContentSegment
continue_string prev quote cont_text skip cont_global =
    let trimmed = trim_end prev.text in
    let trailing_spaces = length prev.text - length trimmed in
    let dropped_prev_quote =
      last_is (λ b. b == quote) trimmed && ends_inside_string quote false (without_last trimmed) in
    let kept =
      if dropped_prev_quote
      then without_last trimmed
      else if ltb 0 (length trimmed) && ends_inside_string quote false trimmed
      then prev.text
      else if trailing_spaces == 1
      then trimmed ++ b' ' ∷ []
      else trimmed in
    let appended = drop skip cont_text in
    let continued_quote_run = count_while (λ b. b == quote) appended in
    let text =
      if dropped_prev_quote && next_is (λ b. b == quote) appended && continued_quote_run == 1
      then kept ++ quote ∷ []
      else kept in
    continued prev text appended (u32 (cont_global + skip))

unfoldable pub continue_words : ContentSegment → List ℕ → ℕ → ContentSegment
continue_words prev cont_text cont_global =
    let trimmed = trim_end prev.text in
    let cont_trimmed = trim_start cont_text in
    let leading_spaces = length cont_text - length cont_trimmed in
    let text =
      if leading_spaces == 1 && ltb 0 (length trimmed) && ltb 0 (length cont_trimmed)
      then trimmed ++ b' ' ∷ []
      else trimmed in
    continued prev text cont_trimmed (u32 (cont_global + leading_spaces))

-- The first byte that is no space decides; here it is the head of the last argument.
unfoldable pub continue_at : ContentSegment → List ℕ → ℕ → ℕ → List ℕ → ContentSegment
continue_at prev cont_text skip cont_global [] = continue_words prev cont_text cont_global
continue_at prev cont_text skip cont_global (b ∷ bs) =
    if b == b'"' || b == 39
    then continue_string prev b cont_text (skip + 1) cont_global
    else continue_words prev cont_text cont_global

abbrev content_offset : SourceLine → ℕ
content_offset line = u32 (line.global_offset + u32 line.content_start)

-- `cont_text` is the content of the line.
unfoldable pub continue_segment : ContentSegment → SourceLine → List ℕ → ContentSegment
continue_segment prev line cont_text =
    let skip = count_while (λ b. b == b' ') cont_text in
    continue_at prev cont_text skip (content_offset line) (drop skip cont_text)

unfoldable pub new_segment : SourceLine → List ℕ → ContentSegment
new_segment line text = record {
  text = text;
  global_offset = content_offset line;
  cont_offsets = [];
}

-- One line with its content; the segments stand with the last one first.
unfoldable pub add_line : SourceLine → List ℕ → List ContentSegment → List ContentSegment
add_line line text [] = if is_continuation line then [] else new_segment line text ∷ []
add_line line text (prev ∷ segments) =
    if is_continuation line
    then continue_segment prev line text ∷ segments
    else new_segment line text ∷ prev ∷ segments

-- The filter, of a line that is no comment.
unfoldable pub is_kept : Bool → SourceLine → Bool → Bool
is_kept include_debug_lines line blank = not blank && (include_debug_lines || not (is_debug line))

-- A line that is no comment, with its content, where taking that does not panic.
abbrev pub add_kept :
    Bool
    → SourceLine
    → List ContentSegment
    → Option Bool
    → Option (List ℕ)
    → Option (List ContentSegment)
add_kept include_debug_lines line segments none text = none
add_kept include_debug_lines line segments (some blank) none = none
add_kept include_debug_lines line segments (some blank) (some text) =
    some (if is_kept include_debug_lines line blank then add_line line text segments else segments)

unfoldable pub next_segments :
    Bool → SourceLine → List ContentSegment → Option (List ContentSegment)
next_segments include_debug_lines line segments =
    if is_comment line
    then some segments
    else add_kept include_debug_lines line segments (is_blank line) (content_text line)

unfoldable pub add_lines :
    Bool → List SourceLine → List ContentSegment → Option (List ContentSegment)
add_lines include_debug_lines [] segments = some segments
add_lines include_debug_lines (line ∷ lines) segments =
    elim (next_segments include_debug_lines line segments) [
      | none ↦ none
      | some after ↦ add_lines include_debug_lines lines after
    ]

unfoldable pub build_segments : List SourceLine → Bool → Option (List ContentSegment)
build_segments lines include_debug_lines =
    Option.map (λ segments. reverse segments) (add_lines include_debug_lines lines [])

-- `source_has_debugging_mode`: the text of the lines, joined by spaces, in upper case.
abbrev pub onto_lines : Option (List ℕ) → Option (List Text) → Option (List Text)
onto_lines none rest = none
onto_lines (some text) rest = Option.map (λ texts. uppercase text ∷ texts) rest

abbrev pub configuration_lines : List SourceLine → Option (List Text)
configuration_lines [] = some []
configuration_lines (line ∷ lines) =
    let rest = configuration_lines lines in
    if is_comment line then rest else onto_lines (content_text line) rest

abbrev joined_text : List Text → Text
joined_text [] = []
joined_text (text ∷ []) = text
joined_text (text ∷ next ∷ texts) = text ++ b' ' ∷ joined_text (next ∷ texts)

abbrev nearer : Option ℕ → ℕ → ℕ
nearer none end = end
nearer (some zero) end = end
nearer (some (suc n)) end = min (suc n) end

abbrev is_found : Option ℕ → Bool
is_found none = false
is_found (some n) = true

abbrev debugging_within : Text → Option ℕ → Bool
debugging_within text none = false
debugging_within text (some source_start) =
    let tail = drop source_start text in
    let source_end = nearer (position_of (codes "OBJECT-COMPUTER") tail) (
      nearer (position_of (codes "SPECIAL-NAMES") tail) (
        nearer (position_of (codes "INPUT-OUTPUT") tail) (
          nearer (position_of (codes "DATA DIVISION") tail)
            (nearer (position_of (codes "PROCEDURE DIVISION") tail) (length tail))))) in
    is_found (position_of (codes "WITH DEBUGGING MODE") (take source_end tail))

abbrev pub debugging_in : List Text → Bool
debugging_in texts =
    let text = joined_text texts in
    debugging_within text (position_of (codes "SOURCE-COMPUTER") text)

unfoldable pub source_has_debugging_mode : List SourceLine → Option Bool
source_has_debugging_mode lines = Option.map debugging_in (configuration_lines lines)
