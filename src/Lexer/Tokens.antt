-- ===== src/Lexer/Tokens.antt =====
-- crates/cobol-lexer/src/lexer.rs: the lexer over its flattened content, which is UTF-8. The content
-- stands as the bytes before the position, the last one first, and those from it on.
use rust_cobol.Prelude.{
  ℕ, zero, suc, ◌+◌, Bool, true, false, not, ◌&&◌, ◌||◌, Option, none, some, List, [], ◌∷◌, ltb,
  leb, ◌==◌, if◌then◌else◌, length, take, drop, get_or,
}
unfoldable pub use rust_cobol.Prelude.Text.{is_char_boundary}
use rust_cobol.Prelude.Text.{
  Text, codes, is_ascii_digit, is_ascii_whitespace, to_ascii_uppercase, uppercase,
}
use rust_cobol.Prelude.Words.{u32}
use rust_cobol.Common.Span.{Span}
use rust_cobol.Lexer.Kinds.{TokenKind}
use rust_cobol.Lexer.Keywords.{from_keyword, is_eof, is_pic}
use rust_cobol.Lexer.Scan.{
  is_ascii_alphabetic, count_while, is_word_byte, is_blank_byte, trimmed_length, next_is,
  literal_length, picture_length, integer_length, continues_word, fraction_length, level_length,
  starts_with_ignore_case, should_treat_as_sign, operator,
}

pub record Token : Type 0 where
  pub kind : TokenKind
  pub text : Text
  pub span : Span

pub record Lexer : Type 0 where
  pub file_id : ℕ
  pub offset_map : List ℕ
  pub before : List ℕ
  pub rest : List ℕ
  pub picture_mode : Bool
  pub at_statement_start : Bool

abbrev pub position : Lexer → ℕ
position l = length l.before

-- The bytes of a text put before the position one by one.
abbrev pub onto : List ℕ → List ℕ → List ℕ
onto [] before = before
onto (b ∷ bs) before = onto bs (b ∷ before)

-- `self.pos += n`
unfoldable pub advance : ℕ → Lexer → Lexer
advance n l = record l { before = onto (take n l.rest) l.before; rest = drop n l.rest }

unfoldable pub skip_whitespace : Lexer → Lexer
skip_whitespace l = advance (count_while is_ascii_whitespace l.rest) l

unfoldable pub skip_horizontal_whitespace : Lexer → Lexer
skip_horizontal_whitespace l = advance (count_while is_blank_byte l.rest) l

abbrev last_offset : List ℕ → ℕ
last_offset [] = 0
last_offset (o ∷ []) = o
last_offset (o ∷ p ∷ os) = last_offset (p ∷ os)

unfoldable pub make_eof : Lexer → Token
make_eof l =
    let map = l.offset_map in
    let offset =
      if length map == 0
      then 0
      else if ltb (position l) (length map)
      then get_or map (position l) 0
      else u32 (last_offset map + 1) in
    record {
      kind = TokenKind.eof;
      text = [];
      span = record { start = offset; end = offset; file_id = l.file_id };
    }

-- What a lexing function decides: the kind of the token, how many bytes it takes, whether its text
-- is turned to upper case, and the flags that are left.
pub record Lexeme : Type 0 where
  pub kind : TokenKind
  pub length : ℕ
  pub upper : Bool
  pub picture_mode : Bool
  pub at_statement_start : Bool

-- `make_token` and `make_token_upper`, with the position already behind the token.
unfoldable pub make_token : Lexer → Lexeme → Token
make_token l x =
    let map = l.offset_map in
    let start = position l in
    let end = start + x.length in
    let raw = take x.length l.rest in
    let global_start = get_or map start 0 in
    if leb (length map) start then make_eof (advance x.length l) else record {
      kind = x.kind;
      text = if x.upper then uppercase raw else raw;
      span = record {
        start = global_start;
        end =
            if ltb 0 end && leb end (length map)
            then (if ltb end (length map) then get_or map end 0 else u32 (last_offset map + 1))
            else global_start;
        file_id = l.file_id;
      };
    }

-- The token of a lexeme and the lexer behind it; none is a panic.
unfoldable pub emit : Lexer → Lexeme → Option (Token × Lexer)
emit l x =
    if is_char_boundary (drop x.length l.rest)
    then some (
      make_token l x,
      record (advance x.length l) {
        picture_mode = x.picture_mode;
        at_statement_start = x.at_statement_start;
      },
    )
    else none

-- A lexeme whose bytes stay as they are, and which leaves the flags as they are.
abbrev pub plain : Lexer → TokenKind → ℕ → Lexeme
plain l kind n = record {
  kind = kind;
  length = n;
  upper = false;
  picture_mode = l.picture_mode;
  at_statement_start = l.at_statement_start;
}

-- A word that is no keyword is an identifier.
abbrev pub get_kind : Option TokenKind → TokenKind
get_kind none = TokenKind.identifier
get_kind (some kind) = kind

-- The lexeme of a word of `n` bytes, with what the keyword table says of it.
unfoldable pub word_lexeme : Lexer → ℕ → Option TokenKind → Lexeme
word_lexeme l n keyword = record {
  kind = get_kind keyword;
  length = n;
  upper = true;
  picture_mode = l.picture_mode || is_pic (get_kind keyword);
  at_statement_start = false;
}

unfoldable pub lex_word : Lexer → Lexeme
lex_word l =
    let n = trimmed_length (take (count_while is_word_byte l.rest) l.rest) in
    word_lexeme l n (from_keyword (take n l.rest))

-- The number, or the word, that starts a text.
unfoldable pub number_at : Lexer → List ℕ → Lexeme
number_at l text =
    let has_sign = next_is (λ b. b == b'+' || b == b'-') text in
    let n = integer_length has_sign text in
    let after = drop n text in
    let fraction = fraction_length after in
    if not has_sign && continues_word after
    then record (plain l TokenKind.identifier
        (trimmed_length (take (n + count_while is_word_byte after) text))) {
          at_statement_start = false;
        }
    else if fraction == 0
    then plain l TokenKind.integer_literal n
    else plain l TokenKind.decimal_literal (n + fraction)

unfoldable pub lex_number : Lexer → Lexeme
lex_number l = number_at l l.rest

unfoldable pub lex_string_literal : Lexer → ℕ → List ℕ → Lexeme
lex_string_literal l quote inside =
    let (n, closed) = literal_length quote inside in
    plain l (if closed then TokenKind.string_literal else TokenKind.error) (1 + n)

unfoldable pub prefix_kind : ℕ → TokenKind
prefix_kind ch =
    let upper_prefix = to_ascii_uppercase ch in
    if upper_prefix == b'X'
    then TokenKind.hex_literal
    else if upper_prefix == b'B'
    then TokenKind.boolean_literal
    else if upper_prefix == b'N'
    then TokenKind.national_literal
    else TokenKind.error

-- Behind the prefix stand the quote and what is inside.
unfoldable pub lex_prefixed_literal : Lexer → ℕ → List ℕ → Lexeme
lex_prefixed_literal l ch [] = plain l TokenKind.error 1
lex_prefixed_literal l ch (quote ∷ inside) =
    let (n, closed) = literal_length quote inside in
    plain l (if closed then prefix_kind ch else TokenKind.error) (2 + n)

abbrev pub is_quote : ℕ → Bool
is_quote b = b == b'"' || b == 39

abbrev pub is_prefix : ℕ → Bool
is_prefix ch =
    to_ascii_uppercase ch == b'X' || to_ascii_uppercase ch == b'B' || to_ascii_uppercase ch == b'N'

-- `try_lex_operator`, and what follows it.
unfoldable pub lex_operator : Lexer → ℕ → List ℕ → Lexeme
lex_operator l ch next =
    if ch == b'.'
    then (if next_is is_ascii_digit next
        then lex_number l
        else record (plain l TokenKind.period 1) { at_statement_start = true })
    else elim (operator ch next) [
      | some (kind, n) ↦ plain l kind n
      | none ↦ if is_ascii_alphabetic ch then lex_word l else plain l TokenKind.error 1
    ]

abbrev pub level : Lexer → ℕ → Option ℕ
level l ch = if is_ascii_digit ch && l.at_statement_start then level_length l.rest else none

-- A level number where there is one, else a number, an operator or a word.
unfoldable pub level_or_number : Lexer → ℕ → List ℕ → Option ℕ → Lexeme
level_or_number l ch next (some n) = record (plain l TokenKind.level_number n) {
  at_statement_start = false;
}
level_or_number l ch next none =
    if is_ascii_digit ch
    then lex_number l
    else if (ch == b'+' || ch == b'-')
        && next_is is_ascii_digit next
        && should_treat_as_sign l.before
    then lex_number l
    else lex_operator l ch next

-- `next_token` at a byte that is no white space, outside the picture mode.
unfoldable pub lexeme_at : Lexer → ℕ → List ℕ → Lexeme
lexeme_at l ch next =
    if is_prefix ch && next_is is_quote next
    then lex_prefixed_literal l ch next
    else if is_quote ch
    then lex_string_literal l ch next
    else level_or_number l ch next (level l ch)

unfoldable pub lex_picture_string : Lexer → Option (Token × Lexer)
lex_picture_string l =
    let m = skip_horizontal_whitespace l in
    let n = picture_length m.rest in
    if length m.rest == 0
    then some (make_eof m, m)
    else emit m (plain m (if n == 0 then TokenKind.error else TokenKind.picture_string) n)

-- Behind the optional word IS.
unfoldable pub skip_is : Lexer → Lexer
skip_is l =
    let after = drop 2 l.rest in
    if starts_with_ignore_case (codes "IS") l.rest
      && (length after == 0 || next_is is_ascii_whitespace after)
    then skip_whitespace (advance 2 l)
    else l

-- The word IS is looked for in a slice of two bytes.
unfoldable pub picture_token : Lexer → Option (Token × Lexer)
picture_token l =
    let m = skip_whitespace (record l { picture_mode = false }) in
    if leb 2 (length m.rest) && not (is_char_boundary (drop 2 m.rest))
    then none
    else lex_picture_string (skip_is m)

unfoldable pub token_at : Lexer → List ℕ → Option (Token × Lexer)
token_at l [] = some (make_eof l, l)
token_at l (ch ∷ next) = if l.picture_mode then picture_token l else emit l (lexeme_at l ch next)

unfoldable pub next_token : Lexer → Option (Token × Lexer)
next_token l = let m = skip_whitespace l in token_at m m.rest

pub data Run : Type 0 where
  lexed : List Token → Run
  panicked : Run
  out_of_fuel : Run

abbrev pub with_token : Token → Run → Run
with_token t (lexed ts) = lexed (t ∷ ts)
with_token t panicked = panicked
with_token t out_of_fuel = out_of_fuel

unfoldable pub lex_all : ℕ → Lexer → Run
lex_all zero l = out_of_fuel
lex_all (suc fuel) l = elim (next_token l) [
  | none ↦ panicked
  | some (t, m) ↦ elim (is_eof t.kind) [
    | true ↦ lexed (t ∷ [])
    | false ↦ with_token t (lex_all fuel m)
  ]
]
