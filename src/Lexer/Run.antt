-- ===== src/Lexer/Run.antt =====
-- crates/cobol-lexer/src/lexer.rs: `lex_all` ends and covers the content.
use rust_cobol.Prelude.{
  ℕ, zero, suc, ◌+◌, ◌*◌, ◌<◌, ◌≡◌, refl, sym, ap, ◌∙◌, ◌⊎◌, inl, inr, Bool, true, false, Option,
  none, some, List, [], ◌∷◌, ◌++◌, arith, if◌then◌else◌, length, length-append,
}
use rust_cobol.Prelude.Text.{uppercase}
use mathlib.Core.Path.{subst}
use mathlib.Core.List.{append-nil}
use rust_cobol.Lexer.Keywords.{is_eof}
use rust_cobol.Lexer.Tokens.{
  Token, Lexer, Run, lexed, panicked, out_of_fuel, with_token, next_token, lex_all,
}
use rust_cobol.Lexer.Progress.{IsValid, Result}
use rust_cobol.Lexer.Gaps.{IsGap}
use rust_cobol.Lexer.Step.{IsStep, next_token-IsStep}

-- The tokens and the gaps before them make up a text; the last token, and no other, is the end of
-- the source.
abbrev pub Covers : List ℕ → List Token → Type 0
Covers rest [] = ⊥
Covers rest (t ∷ []) = (is_eof t.kind ≡ true) × IsGap true rest
Covers rest (t ∷ u ∷ ts) =
    (is_eof t.kind ≡ false)
    × ((gap : List ℕ) × ((raw : List ℕ) × ((later : List ℕ) × ((rest ≡ gap ++ (raw ++ later))
              × IsGap true gap
              × ((t.text ≡ raw) ⊎ (t.text ≡ uppercase raw))
              × Covers later (u ∷ ts)))))

abbrev pub IsLexed : List ℕ → Run → Type 0
IsLexed rest (lexed ts) = Covers rest ts
IsLexed rest panicked = Unit {0}
IsLexed rest out_of_fuel = ⊥

-- The rounds that are left: two for each byte, as a token may take none where a picture is missing.
abbrev pub rounds : Lexer → ℕ
rounds l = 2 * length l.rest + (if l.picture_mode then 1 else 0)

any-IsGap : (picture_mode : Bool) (gap : List ℕ) → IsGap picture_mode gap → IsGap true gap
any-IsGap picture_mode gap (inl space) = inl space
any-IsGap picture_mode gap (inr (mode, found)) = inr (refl, found)

last-Covers :
    (l m : Lexer) (t : Token) → is_eof t.kind ≡ true → IsStep l t m → Covers l.rest (t ∷ [])
last-Covers l m t end (gap, (raw, (e, g, inl (eof, none', done), v))) = (
  end,
  subst (λ r. IsGap true r)
      (sym (e ∙ ap (λ r. gap ++ (r ++ m.rest)) none' ∙ ap (λ r. gap ++ r) done ∙ append-nil gap))
      (any-IsGap l.picture_mode gap g),
)
last-Covers l m t end (gap, (raw, (e, g, inr (other, text, progress), v))) =
    absurd (cc (end, other))

more-Covers :
    (l m : Lexer) (t : Token) (ts : List Token)
    → is_eof t.kind ≡ false
    → IsStep l t m
    → Covers m.rest ts
    → Covers l.rest (t ∷ ts)
more-Covers l m t [] other step c = absurd c
more-Covers l m t (u ∷ ts) other (gap, (raw, (e, g, inl (eof, none', done), v))) c =
    absurd (cc (eof, other))
more-Covers l m t (u ∷ ts) other (gap, (raw, (e, g, inr (kind, text, progress), v))) c =
    (other, (gap, (raw, (m.rest, (e, any-IsGap l.picture_mode gap g, text, c)))))

fewer_rounds :
    (l m : Lexer) (t : Token) → is_eof t.kind ≡ false → IsStep l t m → rounds m < rounds l
fewer_rounds l m t other (gap, (raw, (e, g, inl (eof, none', done), v))) = absurd (cc (eof, other))
fewer_rounds l m t other (gap, (raw, (e, g, inr (kind, text, inl some_bytes), v))) =
    let total : length l.rest ≡ length gap + (length raw + length m.rest) =
      ap length e
      ∙ length-append gap (raw ++ m.rest)
      ∙ ap (λ n. length gap + n) (length-append raw m.rest) in
    ground (arith, total, some_bytes)
fewer_rounds l m t other (gap, (raw, (e, g, inr (kind, text, inr (on, off)), v))) =
    let total : length l.rest ≡ length gap + (length raw + length m.rest) =
      ap length e
      ∙ length-append gap (raw ++ m.rest)
      ∙ ap (λ n. length gap + n) (length-append raw m.rest) in
    rw (on, off) (omega (arith, total))

with_token-IsLexed :
    (l m : Lexer) (t : Token) (r : Run)
    → is_eof t.kind ≡ false
    → IsStep l t m
    → IsLexed m.rest r
    → IsLexed l.rest (with_token t r)
with_token-IsLexed l m t (lexed ts) other step c = more-Covers l m t ts other step c
with_token-IsLexed l m t panicked other step c = tt
with_token-IsLexed l m t out_of_fuel other step c = c

pub lex_all-IsLexed :
    (fuel : ℕ) (l : Lexer) → IsValid l → rounds l < fuel → IsLexed l.rest (lex_all fuel l)
unfolding lex_all
lex_all-IsLexed zero l valid enough = absurd (omega arith)
lex_all-IsLexed (suc fuel) l valid enough =
    go (λ m v less. lex_all-IsLexed fuel m v less) (next_token l) (next_token-IsStep l valid)
  where
    Later : Type 0
    Later = (m : Lexer) → IsValid m → rounds m < fuel → IsLexed m.rest (lex_all fuel m)

    after :
        Later
        → (t : Token) (m : Lexer) (eof : Bool) → is_eof t.kind ≡ eof
        → IsStep l t m
        → IsLexed l.rest
            (elim eof [ true ↦ lexed (t ∷ []) | false ↦ with_token t (lex_all fuel m) ])
    after later t m true e step = last-Covers l m t e step
    after later t m false e step =
        with_token-IsLexed l m t (lex_all fuel m) e step
          (later m (((step.1).1).3) (omega (arith, fewer_rounds l m t e step, enough)))

    go :
        Later
        → (r : Option (Token × Lexer)) → Result (IsStep l) r
        → IsLexed l.rest (elim r [
          | none ↦ panicked
          | some (t, m) ↦ elim (is_eof t.kind) [
            | true ↦ lexed (t ∷ [])
            | false ↦ with_token t (lex_all fuel m)
          ]
        ])
    go later none h = tt
    go later (some (t, m)) step = after later t m (is_eof t.kind) refl step
