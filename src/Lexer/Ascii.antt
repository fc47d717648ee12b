-- ===== src/Lexer/Ascii.antt =====
-- crates/cobol-lexer/src/lexer.rs: ASCII content is lexed, and what other content panics.
use rust_cobol.Prelude.{
  either, choose, if_false, ℕ, zero, suc, ◌+◌, ◌*◌, ◌≤◌, ◌<◌, ◌≡◌, refl, sym, ap, ◌∙◌, Bool, true,
  false, not, ◌&&◌, ◌||◌, Option, none, some, List, [], ◌∷◌, ◌++◌, arith, ltb, leb, ◌==◌,
  if◌then◌else◌, length, take, drop,
}
use rust_cobol.Prelude.Text.{codes, is_ascii_digit, is_ascii_whitespace}
use rust_cobol.Prelude.Range.{and-right}
use rust_cobol.Strings.Class.{all}
use rust_cobol.Strings.Zoned.Fields.{all-append}
use rust_cobol.Lexer.Kinds.{TokenKind}
use rust_cobol.Lexer.Keywords.{is_eof}
use rust_cobol.Lexer.Scan.{
  is_ascii_alphabetic, count_while, is_blank_byte, next_is, picture_length, starts_with_ignore_case,
  operator,
}
use rust_cobol.Lexer.Tokens.{
  Token, onto, is_prefix, is_quote, Lexer, Lexeme, advance, skip_whitespace,
  skip_horizontal_whitespace, is_char_boundary, emit, plain, lexeme_at, level_or_number,
  lex_operator, lex_picture_string, skip_is, picture_token, token_at, next_token, Run, lexed,
  panicked, out_of_fuel, with_token, lex_all,
}
use rust_cobol.Lexer.Progress.{IsValid, Result}
use rust_cobol.Lexer.Step.{IsStep, next_token-IsStep}
use rust_cobol.Lexer.Run.{Covers, IsLexed, lex_all-IsLexed}

abbrev pub IsAscii : List ℕ → Type 0
IsAscii text = all (λ b. ltb b 0x80) text ≡ true

pub drop-IsAscii : (n : ℕ) (text : List ℕ) → IsAscii text → IsAscii (drop n text)
drop-IsAscii zero text h = h
drop-IsAscii (suc n) [] h = h
drop-IsAscii (suc n) (b ∷ bs) h = drop-IsAscii n bs (and-right (ltb b 0x80) _ h)

pub char_boundary_ascii : (text : List ℕ) → IsAscii text → is_char_boundary text ≡ true
unfolding is_char_boundary
char_boundary_ascii [] h = refl
char_boundary_ascii (b ∷ bs) h = ground (arith, h)

-- There is no panic.
abbrev pub HasToken : Option (Token × Lexer) → Type 0
HasToken none = ⊥
HasToken (some r) = Unit {0}

emit-HasToken : (l : Lexer) (x : Lexeme) → IsAscii l.rest → HasToken (emit l x)
unfolding emit
emit-HasToken l x h =
    rw (char_boundary_ascii (drop x.length l.rest) (drop-IsAscii x.length l.rest h)) tt

advance-IsAscii : (n : ℕ) (l : Lexer) → IsAscii l.rest → IsAscii (advance n l).rest
unfolding advance
advance-IsAscii n l h = drop-IsAscii n l.rest h

white-IsAscii : (l : Lexer) → IsAscii l.rest → IsAscii (skip_whitespace l).rest
unfolding skip_whitespace
white-IsAscii l h = advance-IsAscii (count_while is_ascii_whitespace l.rest) l h

skip_is-IsAscii : (l : Lexer) → IsAscii l.rest → IsAscii (skip_is l).rest
unfolding skip_is
skip_is-IsAscii l h =
    let after = drop 2 l.rest in
    either {A = Lexer} (λ m. IsAscii m.rest)
      (starts_with_ignore_case (codes "IS") l.rest
        && (length after == 0 || next_is is_ascii_whitespace after))
      (white-IsAscii (advance 2 l) (advance-IsAscii 2 l h)) h

picture_string-HasToken : (l : Lexer) → IsAscii l.rest → HasToken (lex_picture_string l)
unfolding lex_picture_string skip_horizontal_whitespace
picture_string-HasToken l h =
    let m = advance (count_while is_blank_byte l.rest) l in
    let n = picture_length m.rest in
    either HasToken (length m.rest == 0) tt (
      emit-HasToken m (plain m (if n == 0 then TokenKind.error else TokenKind.picture_string) n)
        (advance-IsAscii (count_while is_blank_byte l.rest) l h))

picture_token-HasToken : (l : Lexer) → IsAscii l.rest → HasToken (picture_token l)
unfolding picture_token
picture_token-HasToken l h =
    let m = skip_whitespace (record l { picture_mode = false }) in
    let ascii : IsAscii m.rest = white-IsAscii (record l { picture_mode = false }) h in
    choose HasToken (leb 2 (length m.rest) && not (is_char_boundary (drop 2 m.rest)))
      (λ middle. absurd (
        cc (
          and-right (leb 2 (length m.rest)) _ middle,
          char_boundary_ascii (drop 2 m.rest) (drop-IsAscii 2 m.rest ascii),
        )))
      (λ fine. picture_string-HasToken (skip_is m) (skip_is-IsAscii m ascii))

next_token-HasToken : (l : Lexer) → IsAscii l.rest → HasToken (next_token l)
unfolding next_token token_at
next_token-HasToken l h = go (skip_whitespace l).rest
  where
    go : (rest : List ℕ) → HasToken (token_at (skip_whitespace l) rest)
    go [] = tt
    go (b ∷ bs) =
        let k = skip_whitespace l in
        either HasToken k.picture_mode (picture_token-HasToken k (white-IsAscii l h))
          (emit-HasToken k (lexeme_at k b bs) (white-IsAscii l h))

step-IsAscii : (l m : Lexer) (t : Token) → IsStep l t m → IsAscii l.rest → IsAscii m.rest
step-IsAscii l m t (gap, (raw, (e, g, taken, v))) h =
    let ascii : ℕ → Bool = λ b. ltb b 0x80 in
    let whole : all ascii (gap ++ (raw ++ m.rest)) ≡ true = ap (λ r. all ascii r) (sym e) ∙ h in
    and-right (all ascii raw) (all ascii m.rest) (
      sym (all-append ascii raw m.rest)
      ∙ and-right (all ascii gap) (all ascii (raw ++ m.rest))
          (sym (all-append ascii gap (raw ++ m.rest)) ∙ whole))

abbrev pub IsCalm : Run → Type 0
IsCalm panicked = ⊥
IsCalm (lexed ts) = Unit {0}
IsCalm out_of_fuel = Unit {0}

with_token-IsCalm : (t : Token) (r : Run) → IsCalm r → IsCalm (with_token t r)
with_token-IsCalm t (lexed ts) h = tt
with_token-IsCalm t panicked h = h
with_token-IsCalm t out_of_fuel h = tt

pub lex_all-IsCalm : (fuel : ℕ) (l : Lexer) → IsValid l → IsAscii l.rest → IsCalm (lex_all fuel l)
unfolding lex_all
lex_all-IsCalm zero l valid h = tt
lex_all-IsCalm (suc fuel) l valid h =
    go (λ m v a. lex_all-IsCalm fuel m v a) (next_token l) (next_token-IsStep l valid)
      (next_token-HasToken l h)
  where
    Later : Type 0
    Later = (m : Lexer) → IsValid m → IsAscii m.rest → IsCalm (lex_all fuel m)

    after :
        (t : Token) (m : Lexer) (eof : Bool)
        → IsCalm (lex_all fuel m)
        → IsCalm (elim eof [ true ↦ lexed (t ∷ []) | false ↦ with_token t (lex_all fuel m) ])
    after t m true later = tt
    after t m false later = with_token-IsCalm t (lex_all fuel m) later

    go :
        Later
        → (r : Option (Token × Lexer)) → Result (IsStep l) r
        → HasToken r
        → IsCalm (elim r [
          | none ↦ panicked
          | some (t, m) ↦ elim (is_eof t.kind) [
            | true ↦ lexed (t ∷ [])
            | false ↦ with_token t (lex_all fuel m)
          ]
        ])
    go later none step calm = absurd calm
    go later (some (t, m)) step calm =
        after t m (is_eof t.kind) (later m (((step.1).1).3) (step-IsAscii l m t step h))

pub run_tokens :
    (rest : List ℕ) (r : Run)
    → IsLexed rest r
    → IsCalm r
    → (ts : List Token) × ((r ≡ lexed ts) × Covers rest ts)
run_tokens rest (lexed ts) c calm = (ts, (refl, c))
run_tokens rest panicked c calm = absurd calm
run_tokens rest out_of_fuel c calm = absurd c

-- A lexer whose offset map is complete turns ASCII content into tokens, given two rounds for each
-- byte that is left and two more: the last token, and no other, is the end of the source, and with
-- the gaps between them, of white space and at most one word IS, the tokens, up to case, make up the
-- content in order.
pub lex_all-ascii :
    (l : Lexer) (fuel : ℕ)
    → IsValid l
    → IsAscii l.rest
    → 2 * length l.rest + 2 ≤ fuel
    → (ts : List Token) × ((lex_all fuel l ≡ lexed ts) × Covers l.rest ts)
lex_all-ascii l fuel valid h enough =
    run_tokens l.rest (lex_all fuel l) (lex_all-IsLexed fuel l valid (ground (arith, enough)))
      (lex_all-IsCalm fuel l valid h)

pub nothing_white :
    (l : Lexer) (b : ℕ) (bs : List ℕ)
    → l.rest ≡ b ∷ bs
    → is_ascii_whitespace b ≡ false
    → skip_whitespace l ≡ l
unfolding skip_whitespace advance count_while
nothing_white l b bs e h =
    let none' : count_while is_ascii_whitespace (b ∷ bs) ≡ 0 = rw h refl in
    let count : count_while is_ascii_whitespace l.rest ≡ 0 =
      ap (count_while is_ascii_whitespace) e ∙ none' in
    ap (λ n. record l { before = onto (take n l.rest) l.before; rest = drop n l.rest }) count

operator-high : (b : ℕ) (next : List ℕ) → 0x80 ≤ b → operator b next ≡ none
unfolding operator
operator-high b next high = ground (arith, high)

lexeme_at-high :
    (l : Lexer) (b : ℕ) (next : List ℕ) → 0x80 ≤ b → lexeme_at l b next ≡ plain l TokenKind.error 1
unfolding lexeme_at level_or_number lex_operator
lexeme_at-high l b next high =
    let no_digit : is_ascii_digit b ≡ false = ground (arith, high) in
    let no_prefix : (is_prefix b && next_is is_quote next) ≡ false = ground (arith, high) in
    let no_quote : is_quote b ≡ false = ground (arith, high) in
    let no_sign : (b == b'+' || b == b'-') ≡ false = ground (arith, high) in
    let no_period : (b == b'.') ≡ false = ground (arith, high) in
    let no_letter : is_ascii_alphabetic b ≡ false = ground (arith, high) in
    rw (no_prefix, no_quote, no_digit)
      (rw (no_digit, no_sign, no_period, operator-high b next high, no_letter) refl)

-- Outside a picture a byte that is not ASCII, with a continuation byte behind it, is taken alone
-- for an error token, and the slice for the token's text, which ends inside the character, panics.
pub next_token-panics :
    (l : Lexer) (b c : ℕ) (bs : List ℕ)
    → l.rest ≡ b ∷ c ∷ bs
    → l.picture_mode ≡ false
    → 0x80 ≤ b
    → (0x80 ≤ c) × (c < 0xc0)
    → next_token l ≡ none
unfolding next_token token_at emit is_char_boundary
next_token-panics l b c bs e off high (from, below) =
    let inside : is_char_boundary (c ∷ bs) ≡ false = ground (arith, from, below) in
    let middle : is_char_boundary (drop 1 l.rest) ≡ false =
      ap (λ r. is_char_boundary (drop 1 r)) e ∙ inside in
    ap (λ k. token_at k k.rest) (nothing_white l b (c ∷ bs) e (ground (arith, high)))
    ∙ ap (λ r. token_at l r) e
    ∙ if_false l.picture_mode (picture_token l) (emit l (lexeme_at l b (c ∷ bs))) off
    ∙ ap (λ x. emit l x) (lexeme_at-high l b (c ∷ bs) high)
    ∙ if_false (is_char_boundary (drop 1 l.rest)) _ none middle
