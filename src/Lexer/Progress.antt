-- ===== src/Lexer/Progress.antt =====
-- crates/cobol-lexer/src/lexer.rs: what one token takes of the content.
use rust_cobol.Prelude.{
  ℕ, ◌+◌, ◌<◌, ◌≡◌, refl, sym, inl, inr, Bool, true, false, Option, none, some, List, [], ◌∷◌, ◌++◌,
  arith, leb, if◌then◌else◌, Bool-cases, length, take, drop, take-append-drop, length-take,
  length-drop,
}
use rust_cobol.Prelude.Text.{uppercase}
use rust_cobol.Strings.Class.{all}
use rust_cobol.Lexer.Scan.{count_while}
use rust_cobol.Lexer.Tokens.{
  Token, Lexer, Lexeme, onto, advance, make_token, is_char_boundary, emit,
}

-- The offset map has an entry for each byte of the content.
abbrev pub IsValid : Lexer → Type 0
IsValid l = length l.offset_map ≡ length l.before + length l.rest

-- What holds of the token and the lexer behind it, where there is no panic.
abbrev pub Result : (Token → Lexer → Type 0) → Option (Token × Lexer) → Type 0
Result p none = Unit {0}
Result p (some (t, m)) = p t m

pub Result-map :
    (p q : Token → Lexer → Type 0) (r : Option (Token × Lexer))
    → ((t : Token) (m : Lexer) → p t m → q t m)
    → Result p r
    → Result q r
Result-map p q none f h = tt
Result-map p q (some (t, m)) f h = f t m h

length-onto : (a b : List ℕ) → length (onto a b) ≡ length a + length b
length-onto [] b = omega arith
length-onto (x ∷ a) b = omega (arith, length-onto a (x ∷ b))

pub advance-IsValid : (n : ℕ) (l : Lexer) → IsValid l → IsValid (advance n l)
unfolding advance
advance-IsValid n l h =
    omega
      (arith, h, length-onto (take n l.rest) l.before, length-take n l.rest, length-drop n l.rest)

pub advance_rest : (n : ℕ) (l : Lexer) → l.rest ≡ take n l.rest ++ (advance n l).rest
unfolding advance
advance_rest n l = sym (take-append-drop n l.rest)

pub all-take_count : (test : ℕ → Bool) (a : List ℕ) → all test (take (count_while test a) a) ≡ true
unfolding count_while
all-take_count test [] = refl
all-take_count test (b ∷ bs) = elim (Bool-cases (test b)) [
  | inl passes ↦ rw (passes, count_while) (ground (arith, passes, all-take_count test bs))
  | inr fails ↦ rw (fails, count_while) refl
]

-- The token of a lexeme.
abbrev pub IsEmitted : Lexer → Lexeme → Token → Lexer → Type 0
IsEmitted l x t m =
    (m.rest ≡ drop x.length l.rest)
    × (t.kind ≡ x.kind)
    × (t.text ≡ (if x.upper then uppercase (take x.length l.rest) else take x.length l.rest))
    × (m.picture_mode ≡ x.picture_mode)
    × IsValid m

pub emit-IsEmitted :
    (l : Lexer) (x : Lexeme) → IsValid l → 0 < length l.rest → Result (IsEmitted l x) (emit l x)
unfolding emit make_token
emit-IsEmitted l x valid more = elim (Bool-cases (is_char_boundary (drop x.length l.rest))) [
  | inl boundary ↦
      let inside : leb (length l.offset_map) (length l.before) ≡ false =
        ground (arith, valid, more) in
      rw (boundary, inside)
        (
          unfold advance in refl,
          refl,
          refl,
          refl,
          unfold advance in advance-IsValid x.length l valid,
        )
  | inr middle ↦ rw middle tt
]
