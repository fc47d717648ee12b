-- ===== src/Lexer/Literal.antt =====
-- crates/cobol-lexer/src/lexer.rs: literals, quoted and cut off by the end of a line.
use rust_cobol.Prelude.{
  take-append, drop-append, choose, if_false, ℕ, ◌+◌, ◌<◌, ◌≡◌, refl, sym, ap, ◌∙◌, inl, inr, true,
  false, not, ◌&&◌, Option, none, some, List, [], ◌∷◌, ◌++◌, arith, ◌==◌, if◌then◌else◌, Bool-cases,
  length, take, drop, length-append,
}
use rust_cobol.Prelude.Text.{Text, uppercase}
use mathlib.Core.List.{append_assoc}
use rust_cobol.Prelude.Range.{and-right}
use rust_cobol.Strings.Class.{all}
use rust_cobol.Lexer.Kinds.{TokenKind}
use rust_cobol.Lexer.Scan.{next_is, literal_length}
use rust_cobol.Lexer.Tokens.{
  Token, Lexer, Lexeme, is_char_boundary, emit, plain, lexeme_at, lex_string_literal, picture_token,
  token_at, next_token, is_quote, is_prefix, level_or_number, level, lex_prefixed_literal,
}
use rust_cobol.Lexer.Progress.{IsValid, Result, IsEmitted, emit-IsEmitted}
use rust_cobol.Lexer.Ascii.{nothing_white, HasToken}

-- A text with each quote in it doubled, as it stands in a literal.
unfoldable pub escape : ℕ → List ℕ → List ℕ
escape quote [] = []
escape quote (b ∷ bs) =
    let rest = escape quote bs in if b == quote then quote ∷ quote ∷ rest else b ∷ rest

abbrev pub HasNoBreak : List ℕ → Type 0
HasNoBreak text = all (λ b. not (b == 10)) text ≡ true

literal_length-cons :
    (quote c : ℕ) (t : List ℕ)
    → (c == 10) ≡ false
    → (c == quote) ≡ false
    → literal_length quote (c ∷ t) ≡ (1 + (literal_length quote t).0, (literal_length quote t).1)
unfolding literal_length
literal_length-cons quote c [] h k = rw (h, k) refl
literal_length-cons quote c (d ∷ t) h k = rw (h, k) refl

literal_length-end :
    (quote : ℕ) (after : List ℕ)
    → (quote == 10) ≡ false
    → next_is (λ b. b == quote) after ≡ false
    → literal_length quote (quote ∷ after) ≡ (1, true)
unfolding literal_length
literal_length-end quote [] h k = ground (arith, h)
literal_length-end quote (d ∷ t) h k = ground (arith, h, k)

literal_length-doubled :
    (quote : ℕ) (t : List ℕ)
    → (quote == 10) ≡ false
    → literal_length quote (quote ∷ quote ∷ t)
      ≡ (2 + (literal_length quote t).0, (literal_length quote t).1)
unfolding literal_length
literal_length-doubled quote t h =
    let same : (quote == quote) ≡ true = ground arith in rw (h, same) refl

literal_length-escape :
    (quote : ℕ) (text after : List ℕ)
    → (quote == 10) ≡ false
    → HasNoBreak text
    → next_is (λ b. b == quote) after ≡ false
    → literal_length quote (escape quote text ++ quote ∷ after)
      ≡ (length (escape quote text) + 1, true)
unfolding escape
literal_length-escape quote [] after h clear k = literal_length-end quote after h k
literal_length-escape quote (b ∷ bs) after h clear k =
    let rest = literal_length-escape quote bs after h (and-right (not (b == 10)) _ clear) k in
    elim (Bool-cases (b == quote)) [
      | inl same ↦ rw same (
          literal_length-doubled quote (escape quote bs ++ quote ∷ after) h
          ∙ ap (λ p. (2 + p.0, p.1)) rest
          ∙ ap (λ n. (n, true)) (omega arith))
      | inr other ↦ rw other (
          literal_length-cons quote b (escape quote bs ++ quote ∷ after) (ground (arith, clear))
            other
          ∙ ap (λ p. (1 + p.0, p.1)) rest
          ∙ ap (λ n. (n, true)) (omega arith))
    ]

literal_length_break :
    (quote : ℕ) (text after : List ℕ)
    → all (λ b. not (b == quote)) text ≡ true
    → HasNoBreak text
    → literal_length quote (text ++ 10 ∷ after) ≡ (length text, false)
literal_length_break quote [] [] h clear = unfold literal_length in refl
literal_length_break quote [] (b ∷ after) h clear = unfold literal_length in refl
literal_length_break quote (b ∷ bs) after h clear =
    literal_length-cons quote b (bs ++ 10 ∷ after) (ground (arith, clear)) (ground (arith, h))
    ∙ ap (λ p. (1 + p.0, p.1))
        (literal_length_break quote bs after (and-right (not (b == quote)) _ h)
          (and-right (not (b == 10)) _ clear))
    ∙ ap (λ n. (n, false)) (omega arith)

string_token :
    (l : Lexer) (quote : ℕ) (inside : List ℕ)
    → l.rest ≡ quote ∷ inside
    → l.picture_mode ≡ false
    → is_quote quote ≡ true
    → next_token l ≡ emit l (lex_string_literal l quote inside)
unfolding next_token token_at lexeme_at
string_token l quote inside e off q =
    let no_prefix : (is_prefix quote && next_is is_quote inside) ≡ false = ground (arith, q) in
    ap (λ k. token_at k k.rest) (nothing_white l quote inside e (ground (arith, q)))
    ∙ ap (λ r. token_at l r) e
    ∙ if_false l.picture_mode (picture_token l) (emit l (lexeme_at l quote inside)) off
    ∙ ap (λ x. emit l x)
        (if_false (is_prefix quote && next_is is_quote inside) (lex_prefixed_literal l quote inside)
            (if is_quote quote
              then lex_string_literal l quote inside
              else level_or_number l quote inside (level l quote))
            no_prefix
          ∙ choose (λ x. x ≡ lex_string_literal l quote inside) (is_quote quote) (λ on. refl)
              (λ no'. absurd (cc (q, no'))))

-- The token that comes out, of a kind and with a text, and what is left behind it.
abbrev pub Gives : Lexer → TokenKind → Text → List ℕ → Type 0
Gives l kind text after =
    (t : Token) × ((m : Lexer) × ((next_token l ≡ some (t, m))
        × (t.kind ≡ kind)
        × (t.text ≡ text)
        × (m.rest ≡ after)))

emit-HasToken_boundary :
    (l : Lexer) (x : Lexeme) → is_char_boundary (drop x.length l.rest) ≡ true → HasToken (emit l x)
unfolding emit
emit-HasToken_boundary l x h = rw h tt

emit-Gives :
    (l : Lexer) (x : Lexeme) (raw after : List ℕ)
    → IsValid l
    → 0 < length l.rest
    → next_token l ≡ emit l x
    → l.rest ≡ raw ++ after
    → x.length ≡ length raw
    → x.upper ≡ false
    → is_char_boundary after ≡ true
    → Gives l x.kind raw after
emit-Gives l x raw after valid more next whole size lower boundary =
    let left : drop x.length l.rest ≡ after =
      ap (λ n. drop n l.rest) size ∙ ap (drop (length raw)) whole ∙ drop-append raw after in
    let taken : take x.length l.rest ≡ raw =
      ap (λ n. take n l.rest) size ∙ ap (take (length raw)) whole ∙ take-append raw after in
    go left taken (emit l x) next (emit-IsEmitted l x valid more)
      (emit-HasToken_boundary l x (ap is_char_boundary left ∙ boundary))
  where
    go :
        drop x.length l.rest ≡ after
        → take x.length l.rest ≡ raw
        → (r : Option (Token × Lexer)) → next_token l ≡ r
        → Result (IsEmitted l x) r
        → HasToken r
        → Gives l x.kind raw after
    go left taken none e emitted has = absurd has
    go left taken (some (t, m)) e (rest, kind, text, mode, v) has = (
      t,
      (
        m,
        (
          e,
          kind,
          text
              ∙ if_false x.upper (uppercase (take x.length l.rest)) (take x.length l.rest) lower
              ∙ taken,
          rest ∙ left,
        ),
      ),
    )

-- For a lexer whose offset map is complete and that expects no picture: a text between quotes, with
-- each quote in it doubled and without a line break, is one string literal, which takes it whole,
-- whatever character but another quote stands behind it.
pub next_token-literal :
    (l : Lexer) (quote : ℕ) (text after : List ℕ)
    → IsValid l
    → l.picture_mode ≡ false
    → is_quote quote ≡ true
    → HasNoBreak text
    → l.rest ≡ (quote ∷ escape quote text) ++ (quote ∷ after)
    → next_is (λ b. b == quote) after ≡ false
    → is_char_boundary after ≡ true
    → Gives l TokenKind.string_literal (quote ∷ (escape quote text ++ quote ∷ [])) after
unfolding lex_string_literal
next_token-literal l quote text after valid off q clear e behind boundary =
    let inside = escape quote text ++ quote ∷ after in
    let no_break : (quote == 10) ≡ false = ground (arith, q) in
    let raw : Text = quote ∷ (escape quote text ++ quote ∷ []) in
    let lexeme : lex_string_literal l quote inside
        ≡ plain l TokenKind.string_literal (1 + (length (escape quote text) + 1)) =
      ap (λ p. plain l (if p.1 then TokenKind.string_literal else TokenKind.error) (1 + p.0))
        (literal_length-escape quote text after no_break clear behind) in
    emit-Gives l (plain l TokenKind.string_literal (1 + (length (escape quote text) + 1))) raw after
      valid (omega (arith, ap length e))
      (string_token l quote inside e off q ∙ ap (λ x. emit l x) lexeme)
      (e ∙ ap (λ r. quote ∷ r) (sym (append_assoc (escape quote text) (quote ∷ []) after)))
      (omega (arith, length-append (escape quote text) (quote ∷ []))) refl boundary

-- For a lexer whose offset map is complete and that expects no picture: a literal without a quote
-- inside that the end of the line cuts off is one error token, which takes it up to the line break.
pub next_token-unterminated :
    (l : Lexer) (quote : ℕ) (text after : List ℕ)
    → IsValid l
    → l.picture_mode ≡ false
    → is_quote quote ≡ true
    → HasNoBreak text
    → all (λ b. not (b == quote)) text ≡ true
    → l.rest ≡ (quote ∷ text) ++ (10 ∷ after)
    → Gives l TokenKind.error (quote ∷ text) (10 ∷ after)
unfolding lex_string_literal
next_token-unterminated l quote text after valid off q clear plain' e =
    let inside = text ++ 10 ∷ after in
    let lexeme : lex_string_literal l quote inside ≡ plain l TokenKind.error (1 + length text) =
      ap (λ p. plain l (if p.1 then TokenKind.string_literal else TokenKind.error) (1 + p.0))
        (literal_length_break quote text after plain' clear) in
    emit-Gives l (plain l TokenKind.error (1 + length text)) (quote ∷ text) (10 ∷ after) valid
      (omega (arith, ap length e)) (string_token l quote inside e off q ∙ ap (λ x. emit l x) lexeme)
      e (omega arith) refl (unfold is_char_boundary in refl)
