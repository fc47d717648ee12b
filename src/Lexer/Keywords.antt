-- ===== src/Lexer/Keywords.antt =====
-- crates/cobol-lexer/src/token.rs: the keywords, looked up without regard to case.
mod First
mod Second
use rust_cobol.Prelude.{Bool, true, false, Option, none, some, List, [], ◌∷◌, ◌++◌, if◌then◌else◌}
use rust_cobol.Prelude.{◌≡◌, refl, ap, ◌∙◌, sym, ◌&&◌, not, arith, Bool-cases, inl, inr}
use rust_cobol.Prelude.Text.{Text, text_eq, uppercase}
use rust_cobol.Prelude.Range.{and-left, and-right}
use mathlib.Core.Option.{some-injective}
use rust_cobol.Lexer.Kinds.{TokenKind}
use rust_cobol.Lexer.Keywords.First.{first_words}
use rust_cobol.Lexer.Keywords.Second.{second_words}

-- The arms of the match.
unfoldable pub keywords : List (Text × TokenKind)
keywords = first_words ++ second_words

unfoldable pub entry_of : Text → List (Text × TokenKind) → Option TokenKind
entry_of word [] = none
entry_of word (e ∷ es) = if text_eq word e.0 then some e.1 else entry_of word es

-- The words that the lexer looks up are ASCII.
unfoldable pub from_keyword : Text → Option TokenKind
from_keyword word = entry_of (uppercase word) keywords

unfoldable pub is_keyword : TokenKind → Bool
is_keyword kind = elim kind [
  | TokenKind.integer_literal ↦ false
  | TokenKind.decimal_literal ↦ false
  | TokenKind.string_literal ↦ false
  | TokenKind.hex_literal ↦ false
  | TokenKind.boolean_literal ↦ false
  | TokenKind.national_literal ↦ false
  | TokenKind.picture_string ↦ false
  | TokenKind.identifier ↦ false
  | TokenKind.period ↦ false
  | TokenKind.comma ↦ false
  | TokenKind.semicolon ↦ false
  | TokenKind.left_paren ↦ false
  | TokenKind.right_paren ↦ false
  | TokenKind.colon ↦ false
  | TokenKind.plus ↦ false
  | TokenKind.minus ↦ false
  | TokenKind.star ↦ false
  | TokenKind.slash ↦ false
  | TokenKind.double_star ↦ false
  | TokenKind.equals ↦ false
  | TokenKind.greater_than ↦ false
  | TokenKind.less_than ↦ false
  | TokenKind.greater_equal ↦ false
  | TokenKind.less_equal ↦ false
  | TokenKind.not_equal ↦ false
  | TokenKind.double_colon ↦ false
  | TokenKind.equal_greater ↦ false
  | TokenKind.level_number ↦ false
  | TokenKind.eof ↦ false
  | TokenKind.newline ↦ false
  | TokenKind.error ↦ false
  | TokenKind.compiler_directive ↦ false
  | _ ↦ true
]

abbrev pub is_eof : TokenKind → Bool
is_eof kind = elim kind [ TokenKind.eof ↦ true | _ ↦ false ]

abbrev pub is_pic : TokenKind → Bool
is_pic kind = elim kind [ TokenKind.pic ↦ true | _ ↦ false ]

-- The first entry of a word is in the table.
abbrev every_kind : (TokenKind → Bool) → List (Text × TokenKind) → Bool
every_kind test [] = true
every_kind test (e ∷ es) = test e.1 && every_kind test es

entry_of-every :
    (test : TokenKind → Bool) (word : Text) (es : List (Text × TokenKind)) (kind : TokenKind)
    → every_kind test es ≡ true
    → entry_of word es ≡ some kind
    → test kind ≡ true
unfolding entry_of
entry_of-every test word [] kind h e = cc
entry_of-every test word (x ∷ es) kind h e = elim (Bool-cases (text_eq word x.0)) [
  | inl same ↦
      let found : entry_of word (x ∷ es) ≡ some x.1 = rw same refl in
      ap test (some-injective kind x.1 (sym e ∙ found)) ∙ and-left (test x.1) (every_kind test es) h
  | inr other ↦
      let later : entry_of word (x ∷ es) ≡ entry_of word es = rw other refl in
      entry_of-every test word es kind (and-right (test x.1) (every_kind test es) h) (sym later ∙ e)
]

-- The kind that the table gives a word is that of a keyword, never of a literal, an identifier, an
-- operator or the end of the source.
pub from_keyword-keyword :
    (word : Text) (kind : TokenKind) → from_keyword word ≡ some kind → is_keyword kind ≡ true
unfolding from_keyword keywords is_keyword
from_keyword-keyword word kind e = entry_of-every is_keyword (uppercase word) keywords kind refl e

pub from_keyword-not_eof :
    (word : Text) (kind : TokenKind) → from_keyword word ≡ some kind → is_eof kind ≡ false
unfolding from_keyword keywords
from_keyword-not_eof word kind e = elim (Bool-cases (is_eof kind)) [
  | inl eof ↦
      absurd (cc (eof, entry_of-every (λ k. not (is_eof k)) (uppercase word) keywords kind refl e))
  | inr other ↦ other
]
