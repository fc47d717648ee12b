-- ===== src/Lexer/Step.antt =====
-- crates/cobol-lexer/src/lexer.rs: a token and the white space before it are what the lexer takes.
use rust_cobol.Prelude.{
  either, choose, ℕ, ◌≤◌, ◌<◌, min, ◌≡◌, refl, sym, ap, ◌∙◌, ◌⊎◌, inl, inr, Bool, true, false, not,
  ◌&&◌, ◌||◌, List, [], ◌∷◌, ◌++◌, arith, leb, ◌==◌, if◌then◌else◌, length, take, drop,
  take-append-drop, length-take,
}
use rust_cobol.Prelude.Text.{codes, is_ascii_whitespace, uppercase}
use mathlib.Core.Path.{subst}
use rust_cobol.Lexer.Kinds.{TokenKind}
use rust_cobol.Lexer.Keywords.{is_eof}
use rust_cobol.Lexer.Scan.{next_is, picture_length, starts_with_ignore_case}
use rust_cobol.Lexer.Tokens.{
  Token, Lexer, Lexeme, advance, skip_whitespace, skip_horizontal_whitespace, make_eof,
  is_char_boundary, emit, plain, lexeme_at, lex_picture_string, skip_is, picture_token, token_at,
  next_token,
}
use rust_cobol.Lexer.Lexemes.{lexeme_at-IsLexeme}
use rust_cobol.Lexer.Progress.{IsValid, Result, Result-map, IsEmitted, emit-IsEmitted}
use rust_cobol.Lexer.Gaps.{
  IsSpace, IsGap, Skips, skip_whitespace-Skips, skip_horizontal_whitespace-Skips, Skips-trans,
  skip_is-Skips, Skips-IsGap,
}

-- The token is the end of the source, with nothing left; or its text is what it takes, or that in
-- upper case, and it takes a byte at least or ends the picture mode.
abbrev pub IsTaken : Lexer → List ℕ → Token → Lexer → Type 0
IsTaken l raw t m =
    ((is_eof t.kind ≡ true) × (raw ≡ []) × (m.rest ≡ []))
    ⊎ ((is_eof t.kind ≡ false)
        × ((t.text ≡ raw) ⊎ (t.text ≡ uppercase raw))
        × ((1 ≤ length raw) ⊎ ((l.picture_mode ≡ true) × (m.picture_mode ≡ false))))

abbrev pub IsStep : Lexer → Token → Lexer → Type 0
IsStep l t m =
    (gap : List ℕ) × ((raw : List ℕ) × ((l.rest ≡ gap ++ (raw ++ m.rest))
        × IsGap l.picture_mode gap
        × IsTaken l raw t m
        × IsValid m))

-- Behind a gap the token of a lexeme is a step.
emitted-IsStep :
    (l k : Lexer) (x : Lexeme) (gap : List ℕ)
    → l.rest ≡ gap ++ k.rest
    → IsGap l.picture_mode gap
    → is_eof x.kind ≡ false
    → ((1 ≤ min x.length (length k.rest)) ⊎ ((l.picture_mode ≡ true) × (x.picture_mode ≡ false)))
    → (t : Token) (m : Lexer) → IsEmitted k x t m
    → IsStep l t m
emitted-IsStep l k x gap e g kind progress t m (rest, same, text, mode, v) = (
  gap,
  (
    take x.length k.rest,
    (
      e
          ∙ ap (λ r. gap ++ r)
              (sym (take-append-drop x.length k.rest)
                ∙ ap (λ r. take x.length k.rest ++ r) (sym rest)),
      g,
      inr (ap is_eof same ∙ kind, which x.upper text, moved progress),
      v,
    ),
  ),
)
  where
    which :
        (upper : Bool)
        → t.text ≡ (if upper then uppercase (take x.length k.rest) else take x.length k.rest)
        → (t.text ≡ take x.length k.rest) ⊎ (t.text ≡ uppercase (take x.length k.rest))
    which true h = inr h
    which false h = inl h

    moved :
        ((1 ≤ min x.length (length k.rest)) ⊎ ((l.picture_mode ≡ true) × (x.picture_mode ≡ false)))
        → ((1 ≤ length (take x.length k.rest))
            ⊎ ((l.picture_mode ≡ true) × (m.picture_mode ≡ false)))
    moved (inl h) = inl (omega (arith, h, length-take x.length k.rest))
    moved (inr (p, q)) = inr (p, mode ∙ q)

make_eof-IsStep :
    (l k : Lexer) (gap : List ℕ)
    → l.rest ≡ gap ++ k.rest
    → IsGap l.picture_mode gap
    → k.rest ≡ []
    → IsValid k
    → IsStep l (make_eof k) k
unfolding make_eof
make_eof-IsStep l k gap e g done v = (gap, ([], (e, g, inl (refl, refl, done), v)))

List-cases : (a : List ℕ) → (a ≡ []) ⊎ ((b : ℕ) × ((bs : List ℕ) × (a ≡ b ∷ bs)))
List-cases [] = inl refl
List-cases (b ∷ bs) = inr (b, (bs, refl))

horizontal_picture_mode : (l : Lexer) → (skip_horizontal_whitespace l).picture_mode ≡ l.picture_mode
unfolding skip_horizontal_whitespace advance
horizontal_picture_mode l = refl

white_picture_mode : (l : Lexer) → (skip_whitespace l).picture_mode ≡ l.picture_mode
unfolding skip_whitespace advance
white_picture_mode l = refl

is_picture_mode : (l : Lexer) → (skip_is l).picture_mode ≡ l.picture_mode
unfolding skip_is advance
is_picture_mode l =
    let after = drop 2 l.rest in
    either {A = Lexer} (λ m. m.picture_mode ≡ l.picture_mode)
      (starts_with_ignore_case (codes "IS") l.rest
        && (length after == 0 || next_is is_ascii_whitespace after))
      (white_picture_mode (advance 2 l)) refl

lex_picture_string-IsStep :
    (l k : Lexer)
    → l.picture_mode ≡ true
    → k.picture_mode ≡ false
    → Skips (IsGap true) l k
    → Result (IsStep l) (lex_picture_string k)
unfolding lex_picture_string
lex_picture_string-IsStep l k on off skips =
    let m = skip_horizontal_whitespace k in
    let n = picture_length m.rest in
    let (gap, there) = Skips-IsGap l k m skips (skip_horizontal_whitespace-Skips k (skips.1).2) in
    let (e, g, v) = there in
    let gap_ok : IsGap l.picture_mode gap = subst (λ b. IsGap b gap) (sym on) g in
    elim (List-cases m.rest) [
      | inl done ↦
          let ends : length m.rest == 0 ≡ true = ap (λ r. length r == 0) done in
          rw ends (make_eof-IsStep l m gap e gap_ok done v)
      | inr (b, (bs, more)) ↦
          let goes_on : length m.rest == 0 ≡ false = ap (λ r. length r == 0) more ∙ ground arith in
          let x : Lexeme =
            plain m (if n == 0 then TokenKind.error else TokenKind.picture_string) n in
          rw goes_on (
            Result-map (IsEmitted m x) (IsStep l) (emit m x)
              (emitted-IsStep l m x gap e gap_ok (either (λ c. is_eof c ≡ false) (n == 0) refl refl)
                (inr (on, horizontal_picture_mode k ∙ off)))
              (emit-IsEmitted m x v (subst (λ r. 0 < length r) (sym more) (omega arith))))
    ]

picture_token-IsStep :
    (l k : Lexer)
    → l.picture_mode ≡ true
    → IsValid k
    → Skips IsSpace l k
    → Result (IsStep l) (picture_token k)
unfolding picture_token
picture_token-IsStep l k on v skips =
    let off = record k { picture_mode = false } in
    let m = skip_whitespace off in
    let behind : Skips IsSpace l m = Skips-trans l off m skips (skip_whitespace-Skips off v) in
    either (Result (IsStep l)) (leb 2 (length m.rest) && not (is_char_boundary (drop 2 m.rest))) tt
      (lex_picture_string-IsStep l (skip_is m) on (is_picture_mode m ∙ white_picture_mode off)
        (skip_is-Skips l m (behind.1).2 behind))

-- What comes next in a content whose offset map is complete is a token or a panic. The token takes
-- the white space before it (before a picture also the word IS), and its own bytes, which are its
-- text up to case. It is the end of the source with nothing left, or it takes a byte at least or
-- ends the picture mode. The offset map stays complete.
pub next_token-IsStep : (l : Lexer) → IsValid l → Result (IsStep l) (next_token l)
unfolding next_token token_at
next_token-IsStep l valid = go (skip_whitespace l).rest refl
  where
    go :
        (rest : List ℕ)
        → (skip_whitespace l).rest ≡ rest
        → Result (IsStep l) (token_at (skip_whitespace l) rest)
    go [] done =
        let k = skip_whitespace l in
        let (gap, (e, g, v)) = skip_whitespace-Skips l valid in
        make_eof-IsStep l k gap e (inl g) done v
    go (b ∷ bs) more =
        let k = skip_whitespace l in
        let (gap, (e, g, v)) = skip_whitespace-Skips l valid in
        let x = lexeme_at k b bs in
        let (takes, kind) = lexeme_at-IsLexeme k b bs more in
        let some_bytes : 0 < length k.rest = subst (λ r. 0 < length r) (sym more) (omega arith) in
        choose (Result (IsStep l)) k.picture_mode
          (λ on.
            picture_token-IsStep l k (sym (white_picture_mode l) ∙ on) v
              (skip_whitespace-Skips l valid))
          (λ off.
            Result-map (IsEmitted k x) (IsStep l) (emit k x)
              (emitted-IsStep l k x gap e (inl g) kind (inl (omega (arith, takes, some_bytes))))
              (emit-IsEmitted k x v some_bytes))
