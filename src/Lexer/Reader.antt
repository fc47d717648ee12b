-- ===== src/Lexer/Reader.antt =====
-- crates/cobol-lexer/src/source_reader.rs: a source text, as UTF-8 bytes, split into lines.
use rust_cobol.Prelude.{
  ℕ, ◌+◌, ◌-◌, min, Bool, true, false, ◌&&◌, ◌||◌, Option, none, some, List, [], ◌∷◌, ◌++◌, ltb,
  leb, ◌==◌, if◌then◌else◌, length, take, drop, get_or,
}
use rust_cobol.Prelude.Words.{u32}
use rust_cobol.Prelude.Text.{is_char_boundary}
use mathlib.Core.Option

-- crates/cobol-common/src/source_format.rs
pub data SourceFormat : Type 0 where
  fixed free variable_format : SourceFormat

pub record SourceLine : Type 0 where
  pub line_number : ℕ
  pub raw : List ℕ
  pub indicator : ℕ
  pub content_start : ℕ
  pub content_end : ℕ
  pub global_offset : ℕ
  pub format : SourceFormat

-- `&raw[from..to]`; none is the panic of a slice that begins or ends inside a character.
unfoldable pub slice : ℕ → ℕ → List ℕ → Option (List ℕ)
slice from to raw =
    if (from == 0 || is_char_boundary (drop from raw))
      && (to == 0 || is_char_boundary (drop to raw))
    then some (take (to - from) (drop from raw))
    else none

unfoldable pub content_text : SourceLine → Option (List ℕ)
content_text l = slice l.content_start l.content_end l.raw

unfoldable pub is_comment : SourceLine → Bool
is_comment l = l.indicator == b'*' || l.indicator == b'/'

unfoldable pub is_continuation : SourceLine → Bool
is_continuation l = l.indicator == b'-'

unfoldable pub is_debug : SourceLine → Bool
is_debug l = l.indicator == b'D' || l.indicator == b'd'

-- The characters that `trim` takes for white space, by their UTF-8 bytes.
abbrev pub white_1 : ℕ → Bool
white_1 a = (leb 9 a && leb a 13) || a == 32

abbrev pub white_2 : ℕ → ℕ → Bool
white_2 a b = a == 0xc2 && (b == 0x85 || b == 0xa0)

abbrev pub white_3 : ℕ → ℕ → ℕ → Bool
white_3 a b c =
    (a == 0xe1 && (b == 0x9a && c == 0x80))
    || ((a == 0xe2
          && (b == 0x80 && ((leb 0x80 c && leb c 0x8a) || (c == 0xa8 || (c == 0xa9 || c == 0xaf)))))
        || ((a == 0xe2 && (b == 0x81 && c == 0x9f)) || (a == 0xe3 && (b == 0x80 && c == 0x80))))

unfoldable pub trim_start : List ℕ → List ℕ
trim_start [] = []
trim_start (a ∷ []) = if white_1 a then [] else a ∷ []
trim_start (a ∷ b ∷ []) = elim (white_1 a) [
  | true ↦ trim_start (b ∷ [])
  | false ↦ if white_2 a b then [] else a ∷ b ∷ []
]
trim_start (a ∷ b ∷ c ∷ r) = elim (white_1 a) [
  | true ↦ trim_start (b ∷ c ∷ r)
  | false ↦ elim (white_2 a b) [
    | true ↦ trim_start (c ∷ r)
    | false ↦ elim (white_3 a b c) [ true ↦ trim_start r | false ↦ a ∷ b ∷ c ∷ r ]
  ]
]

unfoldable pub is_blank : SourceLine → Option Bool
is_blank l = Option.map (λ text. length (trim_start text) == 0) (content_text l)

unfoldable pub sequence_area : SourceLine → Option (List ℕ)
sequence_area l = elim l.format [
  | fixed ↦ slice 0 (min 6 (length l.raw)) l.raw
  | free ↦ some []
  | variable_format ↦ slice 0 (min 6 (length l.raw)) l.raw
]

unfoldable pub normalize_fixed_indicator : ℕ → Option ℕ
normalize_fixed_indicator ch =
    if ch == b'T' || ch == b't'
    then some b' '
    else if ch == b'U' || ch == b'u'
    then some b'*'
    else if ch == b' '
        || (ch == b'*'
            || (ch == b'/' || (ch == b'-' || (ch == b'D' || (ch == b'd' || ch == b'$')))))
    then some ch
    else none

abbrev or_star : Option ℕ → ℕ
or_star none = b'*'
or_star (some c) = c

-- The indicator of a line in the formats with columns.
unfoldable pub column_indicator : List ℕ → ℕ
column_indicator raw_line =
    or_star
      (normalize_fixed_indicator (if leb 7 (length raw_line) then get_or raw_line 6 0 else b' '))

abbrev starts_comment : List ℕ → Bool
starts_comment [] = false
starts_comment (a ∷ []) = false
starts_comment (a ∷ b ∷ r) = a == b'*' && b == b'>'

unfoldable pub free_indicator : List ℕ → ℕ
free_indicator raw_line = if starts_comment (trim_start raw_line) then b'*' else b' '

-- What the three parsers make of one line: the indicator and where the content starts and ends.
unfoldable pub columns : SourceFormat → List ℕ → ℕ × ℕ × ℕ
columns fixed l = (column_indicator l, min 7 (length l), min 72 (length l))
columns variable_format l = (column_indicator l, min 7 (length l), length l)
columns free l = (free_indicator l, 0, length l)

-- `split('\n')`
abbrev pub onto_first : ℕ → List (List ℕ) → List (List ℕ)
onto_first b [] = (b ∷ []) ∷ []
onto_first b (l ∷ ls) = (b ∷ l) ∷ ls

unfoldable pub split_lines : List ℕ → List (List ℕ)
split_lines [] = [] ∷ []
split_lines (b ∷ bs) = if b == 10 then [] ∷ split_lines bs else onto_first b (split_lines bs)

unfoldable pub line_at : SourceFormat → ℕ → ℕ → List ℕ → Bool → SourceLine
line_at format number offset raw_line has_newline =
    let (indicator, content_start, content_end) = columns format raw_line in
    record {
      line_number = number;
      raw = if has_newline then raw_line ++ 10 ∷ [] else raw_line;
      indicator = indicator;
      content_start = content_start;
      content_end = content_end;
      global_offset = offset;
      format = format;
    }

-- The loop over the lines; `total` is the length of the source.
unfoldable pub read_lines : SourceFormat → ℕ → ℕ → ℕ → List (List ℕ) → List SourceLine
read_lines format total number offset [] = []
read_lines format total number offset (raw_line ∷ rest) =
    let has_newline = ltb (offset + length raw_line) total in
    let after = u32 (offset + u32 (length raw_line)) in
    line_at format number offset raw_line has_newline
    ∷ read_lines format total (number + 1) (if has_newline then u32 (after + 1) else after) rest

-- The empty line that a final newline leaves is taken off.
unfoldable pub without_empty_last : List SourceLine → List SourceLine
without_empty_last [] = []
without_empty_last (l ∷ []) = if length l.raw == 0 then [] else l ∷ []
without_empty_last (l ∷ m ∷ ls) = l ∷ without_empty_last (m ∷ ls)

-- `SourceReader::new`, with the parser of the format.
unfoldable pub read_source : List ℕ → SourceFormat → List SourceLine
read_source source format =
    without_empty_last (read_lines format (length source) 1 0 (split_lines source))
