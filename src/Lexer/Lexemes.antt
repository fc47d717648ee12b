-- ===== src/Lexer/Lexemes.antt =====
-- crates/cobol-lexer/src/lexer.rs: each lexeme takes a byte at least.
use rust_cobol.Prelude.{
  either, ℕ, zero, suc, ◌+◌, ◌≤◌, min, ◌≡◌, refl, sym, ◌⊎◌, inl, inr, Bool, true, false, not, ◌&&◌,
  ◌||◌, Option, none, some, List, [], ◌∷◌, arith, ltb, ◌==◌, if◌then◌else◌, Bool-cases, length,
  take, drop,
}
use rust_cobol.Prelude.Text.{Text, is_ascii_digit, to_ascii_uppercase}
use rust_cobol.Lexer.Kinds.{TokenKind}
use rust_cobol.Lexer.Keywords.{from_keyword, is_eof, from_keyword-not_eof}
use rust_cobol.Lexer.Scan.{
  is_ascii_alphabetic, count_while, is_word_byte, trimmed_length, next_is, literal_length,
  continues_word, fraction_length, is_level, level_length, should_treat_as_sign, operator,
}
use mathlib.Core.Path.{subst}
use rust_cobol.Lexer.Tokens.{
  get_kind, word_lexeme, level_or_number, is_prefix, level, number_at, Lexer, Lexeme, plain,
  lex_word, lex_number, lex_string_literal, lex_prefixed_literal, prefix_kind, is_quote,
  lex_operator, lexeme_at,
}

trimmed_length-cons : (b : ℕ) (bs : List ℕ) → (b == b'-') ≡ false → 1 ≤ trimmed_length (b ∷ bs)
unfolding trimmed_length
trimmed_length-cons b bs h = ground (arith, h)

word_length :
    (b : ℕ) (bs : List ℕ) (n : ℕ)
    → (b == b'-') ≡ false
    → 1 ≤ n
    → 1 ≤ trimmed_length (take n (b ∷ bs))
word_length b bs zero h k = absurd (omega arith)
word_length b bs (suc n) h k = trimmed_length-cons b (take n bs) h

-- A lexeme that takes a byte at least and is no end of the source.
abbrev pub IsLexeme : Lexeme → Type 0
IsLexeme x = (1 ≤ x.length) × (is_eof x.kind ≡ false)

count_while-cons :
    (test : ℕ → Bool) (b : ℕ) (bs : List ℕ) → test b ≡ true → 1 ≤ count_while test (b ∷ bs)
unfolding count_while
count_while-cons test b bs h = rw (h, count_while) (omega arith)

get_kind-not_eof :
    (word : Text) (o : Option TokenKind) → from_keyword word ≡ o → is_eof (get_kind o) ≡ false
get_kind-not_eof word none e = refl
get_kind-not_eof word (some kind) e = from_keyword-not_eof word kind e

lex_word-IsLexeme :
    (l : Lexer) (b : ℕ) (bs : List ℕ)
    → l.rest ≡ b ∷ bs
    → is_ascii_alphabetic b ≡ true
    → IsLexeme (lex_word l)
unfolding lex_word word_lexeme
lex_word-IsLexeme l b bs e h =
    let n = trimmed_length (take (count_while is_word_byte l.rest) l.rest) in
    (
      subst (λ r. 1 ≤ trimmed_length (take (count_while is_word_byte r) r)) (sym e)
          (word_length b bs (count_while is_word_byte (b ∷ bs)) (ground (arith, h))
            (count_while-cons is_word_byte b bs (ground (arith, h)))),
      get_kind-not_eof (take n l.rest) (from_keyword (take n l.rest)) refl,
    )

abbrev is_sign_byte : ℕ → Bool
is_sign_byte b = b == b'+' || b == b'-'

-- A number starts with a digit, a sign, or a period before a digit.
abbrev StartsNumber : ℕ → List ℕ → Type 0
StartsNumber b bs =
    (is_ascii_digit b ≡ true)
    ⊎ ((is_sign_byte b ≡ true) ⊎ (((b == b'.') ≡ true) × (next_is is_ascii_digit bs ≡ true)))

number_at-IsLexeme :
    (l : Lexer) (b : ℕ) (bs : List ℕ) → StartsNumber b bs → IsLexeme (number_at l (b ∷ bs))
unfolding number_at
number_at-IsLexeme l b bs (inl digit) =
    let n = count_while is_ascii_digit (b ∷ bs) in
    let some_digit : 1 ≤ n = count_while-cons is_ascii_digit b bs digit in
    let unsigned : is_sign_byte b ≡ false = ground (arith, digit) in
    let start : (b == b'-') ≡ false = ground (arith, digit) in
    elim (Bool-cases (continues_word (drop n (b ∷ bs)))) [
      | inl word ↦
          rw (unsigned, word)
            (
              word_length b bs (n + count_while is_word_byte (drop n (b ∷ bs))) start
                  (omega (arith, some_digit)),
              refl,
            )
      | inr number ↦
          rw (unsigned, number)
            (elim (Bool-cases (fraction_length (drop n (b ∷ bs)) == 0)) [
              | inl whole ↦ rw whole (some_digit, refl)
              | inr decimal ↦ rw decimal (omega (arith, some_digit), refl)
            ])
    ]
number_at-IsLexeme l b bs (inr (inl sign)) =
    let n = suc (count_while is_ascii_digit bs) in
    rw sign (elim (Bool-cases (fraction_length (drop n (b ∷ bs)) == 0)) [
      | inl whole ↦ rw whole (omega arith, refl)
      | inr decimal ↦ rw decimal (omega arith, refl)
    ])
number_at-IsLexeme l b bs (inr (inr (period, digit))) =
    let unsigned : is_sign_byte b ≡ false = ground (arith, period) in
    let no_digit : count_while is_ascii_digit (b ∷ bs) ≡ 0 =
      unfold count_while in ground (arith, period) in
    let no_word : continues_word (b ∷ bs) ≡ false = ground (arith, period) in
    let fraction : fraction_length (b ∷ bs) ≡ suc (count_while is_ascii_digit bs) =
      ground (arith, period, digit) in
    let more : (suc (count_while is_ascii_digit bs) == 0) ≡ false = ground arith in
    rw (unsigned, no_digit, no_word, fraction, more) (omega arith, refl)

abbrev IsOperator : Option (TokenKind × ℕ) → Type 0
IsOperator none = Unit {0}
IsOperator (some (kind, n)) = (1 ≤ n) × (is_eof kind ≡ false)

operator-IsOperator : (ch : ℕ) (next : List ℕ) → IsOperator (operator ch next)
unfolding operator
operator-IsOperator ch next =
    let follows : ℕ → Bool = λ c. next_is (λ b. b == c) next in
    let one : 1 ≤ 1 = omega arith in
    let two : 1 ≤ 2 = omega arith in
    either IsOperator (ch == b'(') (one, refl)
      (either IsOperator (ch == b')') (one, refl)
        (either IsOperator (ch == b'+') (one, refl)
          (either IsOperator (ch == b'-') (one, refl)
            (either IsOperator (ch == b'*')
              (either IsOperator (follows b'*') (two, refl) (one, refl))
              (either IsOperator (ch == b'/') (one, refl)
                (either IsOperator (ch == b'=')
                  (either IsOperator (follows b'>') (two, refl) (one, refl))
                  (either IsOperator (ch == b'>')
                    (either IsOperator (follows b'=') (two, refl) (one, refl))
                    (either IsOperator (ch == b'<')
                      (either IsOperator (follows b'=') (two, refl)
                        (either IsOperator (follows b'>') (two, refl) (one, refl)))
                      (either IsOperator (ch == b',') (one, refl)
                        (either IsOperator (ch == b';') (one, refl)
                          (either IsOperator (ch == b':')
                            (either IsOperator (follows b':') (two, refl) (one, refl)) tt)))))))))))

lex_operator-IsLexeme :
    (l : Lexer) (b : ℕ) (bs : List ℕ) → l.rest ≡ b ∷ bs → IsLexeme (lex_operator l b bs)
unfolding lex_operator lex_number
lex_operator-IsLexeme l b bs e = elim (Bool-cases (b == b'.')) [
  | inl period ↦ rw period (elim (Bool-cases (next_is is_ascii_digit bs)) [
    | inl digit ↦ rw digit (
        subst (λ r. IsLexeme (number_at l r)) (sym e)
          (number_at-IsLexeme l b bs (inr (inr (period, digit)))))
    | inr other ↦ rw other (omega arith, refl)
  ])
  | inr other ↦ rw other (go (operator b bs) (operator-IsOperator b bs))
]
  where
    word_or_error :
        IsLexeme (if is_ascii_alphabetic b then lex_word l else plain l TokenKind.error 1)
    word_or_error = elim (Bool-cases (is_ascii_alphabetic b)) [
      | inl letter ↦ rw letter (lex_word-IsLexeme l b bs e letter)
      | inr other ↦ rw other (omega arith, refl)
    ]

    go :
        (o : Option (TokenKind × ℕ))
        → IsOperator o
        → IsLexeme (elim o [
          | some (kind, n) ↦ plain l kind n
          | none ↦ if is_ascii_alphabetic b then lex_word l else plain l TokenKind.error 1
        ])
    go none h = word_or_error
    go (some (kind, n)) h = h

prefix_kind-not_eof : (ch : ℕ) → is_eof (prefix_kind ch) ≡ false
unfolding prefix_kind
prefix_kind-not_eof ch =
    either (λ k. is_eof k ≡ false) (to_ascii_uppercase ch == b'X') refl
      (either (λ k. is_eof k ≡ false) (to_ascii_uppercase ch == b'B') refl
        (either (λ k. is_eof k ≡ false) (to_ascii_uppercase ch == b'N') refl refl))

literal-IsLexeme :
    (l : Lexer) (b : ℕ) (bs : List ℕ)
    → IsLexeme (lex_string_literal l b bs) × IsLexeme (lex_prefixed_literal l b bs)
unfolding lex_string_literal lex_prefixed_literal
literal-IsLexeme l b [] = ((omega arith, unfold literal_length in refl), (omega arith, refl))
literal-IsLexeme l b (c ∷ bs) = (
  (omega arith, either (λ k. is_eof k ≡ false) (literal_length b (c ∷ bs)).1 refl refl),
  (
    omega arith,
    either (λ k. is_eof k ≡ false) (literal_length c bs).1 (prefix_kind-not_eof b) refl,
  ),
)

abbrev IsLevel : Option ℕ → Type 0
IsLevel none = Unit {0}
IsLevel (some n) = 1 ≤ n

at_least_one : (n : ℕ) → (ltb 2 n || n == 0) ≡ false → 1 ≤ n
at_least_one n h = ground (arith, h)

level_length-IsLevel : (text : List ℕ) → IsLevel (level_length text)
unfolding level_length
level_length-IsLevel text =
    let n = min 3 (count_while is_ascii_digit text) in
    let after = drop n text in
    elim (Bool-cases (ltb 2 n || n == 0)) [
      | inl none' ↦ rw none' tt
      | inr few ↦
          let some_digit : 1 ≤ n = at_least_one n few in
          rw few (
            either IsLevel
              (not (length after == 0)
                && not (next_is (λ b. b == b' ' || b == 9 || b == b'.') after))
              tt (either IsLevel (is_level (take n text)) some_digit tt))
    ]

level-IsLevel : (l : Lexer) (b : ℕ) → IsLevel (level l b)
level-IsLevel l b =
    either IsLevel (is_ascii_digit b && l.at_statement_start) (level_length-IsLevel l.rest) tt

level-IsLexeme :
    (l : Lexer) (b : ℕ) (bs : List ℕ)
    → l.rest ≡ b ∷ bs
    → (o : Option ℕ) → IsLevel o
    → IsLexeme (level_or_number l b bs o)
unfolding level_or_number lex_number
level-IsLexeme l b bs e (some n) h = (h, refl)
level-IsLexeme l b bs e none h = elim (Bool-cases (is_ascii_digit b)) [
  | inl digit ↦ rw digit (number (inl digit))
  | inr other ↦ rw other (go (Bool-cases (is_sign_byte b)))
]
  where
    number : StartsNumber b bs → IsLexeme (number_at l l.rest)
    number start = subst (λ r. IsLexeme (number_at l r)) (sym e) (number_at-IsLexeme l b bs start)

    go :
        ((is_sign_byte b ≡ true) ⊎ (is_sign_byte b ≡ false))
        → IsLexeme (
            if is_sign_byte b && next_is is_ascii_digit bs && should_treat_as_sign l.before
            then number_at l l.rest
            else lex_operator l b bs)
    go (inl sign) =
        either IsLexeme
          (is_sign_byte b && next_is is_ascii_digit bs && should_treat_as_sign l.before)
          (number (inr (inl sign))) (lex_operator-IsLexeme l b bs e)
    go (inr other) = rw other (lex_operator-IsLexeme l b bs e)

pub lexeme_at-IsLexeme :
    (l : Lexer) (b : ℕ) (bs : List ℕ) → l.rest ≡ b ∷ bs → IsLexeme (lexeme_at l b bs)
unfolding lexeme_at
lexeme_at-IsLexeme l b bs e =
    either IsLexeme (is_prefix b && next_is is_quote bs) (literal-IsLexeme l b bs).1 (
      either IsLexeme (is_quote b) (literal-IsLexeme l b bs).0
        (level-IsLexeme l b bs e (level l b) (level-IsLevel l b)))
