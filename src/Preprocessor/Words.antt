-- ===== src/Preprocessor/Words.antt =====
-- crates/cobol-preprocessor/src/replacer.rs: the loop of the replacement finds the places of a word.
use rust_cobol.Prelude.{
  ℕ, zero, suc, ◌+◌, ◌≤◌, ◌≡◌, refl, sym, ap, ◌∙◌, inl, inr, true, false, ◌&&◌, Option, none, some,
  [], ◌∷◌, ◌++◌, arith, Bool-cases, length, take, drop, length-drop,
}
use rust_cobol.Prelude.Text.{Text, uppercase, is_char_boundary}
use mathlib.Core.List.{append_assoc}
use rust_cobol.Prelude.{drop-drop, choose}
use rust_cobol.Strings.Inspect.{starts_with}
use rust_cobol.Strings.Unstring.Found.{is_at, position_of-is_at}
use rust_cobol.Lexer.Ascii.{IsAscii, drop-IsAscii, char_boundary_ascii}
use rust_cobol.Strings.Concat.{position_of, next}
use rust_cobol.Preprocessor.Replacer.{
  bounds, first_byte, before_at, prefixed, replace_words_from, replace_whole_word,
}
use rust_cobol.Preprocessor.Places.{
  stands, by_places, by_places-other, by_places-here, by_places-fuel,
}

abbrev from_match : ℕ → Option ℕ → Text → Text → Text → Option ℕ → Text
from_match fuel before old new text none = text
from_match fuel before old new text (some i) =
    take i text ++ by_places fuel (before_at before text i) old new (drop i text)

from_match-next :
    (fuel : ℕ) (before : Option ℕ) (o : ℕ) (old new : Text) (b : ℕ) (bs : Text) (q : Option ℕ)
    → length bs ≤ fuel
    → b ∷ from_match fuel (some b) (o ∷ old) new bs q
      ≡ from_match (suc fuel) before (o ∷ old) new (b ∷ bs) (next q)
from_match-next fuel before o old new b bs none h = refl
from_match-next fuel before o old new b bs (some i) h =
    ap (λ r. b ∷ (take i bs ++ r))
      (by_places-fuel fuel (suc fuel) (before_at (some b) bs i) o old new (drop i bs)
        (omega (arith, length-drop i bs, h)) (omega (arith, length-drop i bs, h)))

-- Up to the first place where the old word is found nothing changes.
by_places-found :
    (fuel : ℕ) (before : Option ℕ) (o : ℕ) (old new text : Text)
    → length text ≤ fuel
    → by_places fuel before (o ∷ old) new text
      ≡ from_match fuel before
          (o ∷ old)
          new
          text
          (position_of (uppercase (o ∷ old)) (uppercase text))
unfolding by_places position_of
by_places-found zero before o old new [] h = refl
by_places-found (suc fuel) before o old new [] h = refl
by_places-found zero before o old new (b ∷ bs) h = absurd (omega arith)
by_places-found (suc fuel) before o old new (b ∷ bs) h =
    let key : Text = uppercase (o ∷ old) in
    choose
      (λ p.
        by_places (suc fuel) before (o ∷ old) new (b ∷ bs)
        ≡ from_match (suc fuel) before (o ∷ old) new (b ∷ bs) p)
      (starts_with key (uppercase (b ∷ bs))) (λ here. refl)
      (λ other.
        let not_here : stands before (o ∷ old) (b ∷ bs) ≡ false = ground (arith, other) in
        by_places-other fuel before o old new b bs not_here
        ∙ ap (λ r. b ∷ r) (by_places-found fuel (some b) o old new bs (omega arith))
        ∙ from_match-next fuel before o old new b bs (position_of key (uppercase bs)) (omega arith))

before_at-add :
    (before : Option ℕ) (text : Text) (i n : ℕ)
    → before_at before text (i + n) ≡ before_at (before_at before text i) (drop i text) n
before_at-add before text zero n = let e : 0 + n ≡ n = omega arith in ap (before_at before text) e
before_at-add before [] (suc i) zero =
    let e : suc i + 0 ≡ suc i = omega arith in ap (before_at before []) e
before_at-add before [] (suc i) (suc n) = ap (before_at before []) (later i n)
  where
    later : (i n : ℕ) → suc i + suc n ≡ suc (i + suc n)
    later i n = omega arith
before_at-add before (b ∷ bs) (suc i) n =
    let e : suc i + n ≡ suc (i + n) = omega arith in
    ap (before_at before (b ∷ bs)) e ∙ before_at-add (some b) bs i n

take-next :
    (text : Text) (i b : ℕ) (bs : Text)
    → drop i text ≡ b ∷ bs
    → take (i + 1) text ≡ take i text ++ b ∷ []
take-next [] zero b bs h = cc
take-next [] (suc i) b bs h = cc
take-next (c ∷ text) zero b bs h = ground (arith, h)
take-next (c ∷ text) (suc i) b bs h =
    let e : suc i + 1 ≡ suc (i + 1) = omega arith in
    ap (λ n. take n (c ∷ text)) e ∙ ap (λ r. c ∷ r) (take-next text i b bs h)

drop-uppercase : (i : ℕ) (text : Text) → drop i (uppercase text) ≡ uppercase (drop i text)
drop-uppercase zero text = refl
drop-uppercase (suc i) [] = refl
drop-uppercase (suc i) (b ∷ bs) = drop-uppercase i bs

-- One round at a place where the old word is found.
abbrev round : ℕ → Option ℕ → Text → Text → Text → ℕ → Option Text
round fuel before old new text i =
    elim (bounds (before_at before text i) && bounds (first_byte (drop (i + length old) text))) [
      | true ↦ prefixed (take i text ++ new) (
          replace_words_from fuel (before_at before text (i + length old)) old new
            (drop (i + length old) text))
      | false ↦ elim (is_char_boundary (drop (i + 1) text)) [
        | true ↦
            prefixed (take (i + 1) text)
              (replace_words_from fuel (before_at before text (i + 1)) old new (drop (i + 1) text))
        | false ↦ none
      ]
    ]

-- What the round after it makes of the text is known.
abbrev Later : ℕ → Text → Text → Type 0
Later fuel old new =
    (before : Option ℕ) (text : Text)
    → length text ≤ fuel
    → IsAscii text
    → replace_words_from fuel before old new text ≡ some (by_places fuel before old new text)

shorter : (text : Text) (n fuel : ℕ) → length text ≤ suc fuel → 1 ≤ n → length (drop n text) ≤ fuel
shorter text n fuel h k = omega (arith, length-drop n text, h, k)

round-by_places :
    (fuel : ℕ) (before : Option ℕ) (o : ℕ) (old new text : Text) (i b : ℕ) (bs : Text)
    → length text ≤ suc fuel
    → IsAscii text
    → Later fuel (o ∷ old) new
    → drop i text ≡ b ∷ bs
    → starts_with (uppercase (o ∷ old)) (uppercase (b ∷ bs)) ≡ true
    → round fuel before (o ∷ old) new text i
      ≡ some (take i text ++ by_places (suc fuel) (before_at before text i) (o ∷ old) new (b ∷ bs))
round-by_places fuel before o old new text i b bs h ascii later e found =
    let n = length (o ∷ old) in
    let B = before_at before text i in
    let behind : drop (i + n) text ≡ drop (length old) bs = drop-drop i n text ∙ ap (drop n) e in
    let bounded = bounds B && bounds (first_byte (drop (i + n) text)) in
    elim (Bool-cases bounded) [
      | inl alone ↦
          let here : stands B (o ∷ old) (b ∷ bs) ≡ true =
            rw found (ap (λ r. bounds B && bounds (first_byte r)) (sym behind) ∙ alone) in
          rw (alone, round)
            (ap (prefixed (take i text ++ new)) (
                later (before_at before text (i + n)) (drop (i + n) text)
                  (shorter text (i + n) fuel h (omega arith)) (drop-IsAscii (i + n) text ascii))
              ∙ ap some (
                  append_assoc (take i text) new _
                  ∙ ap (λ r. take i text ++ (new ++ r))
                      (ap (λ r. by_places fuel (before_at before text (i + n)) (o ∷ old) new r)
                          behind
                        ∙ ap (λ q. by_places fuel q (o ∷ old) new (drop (length old) bs))
                            (before_at-add before text i n ∙ ap (λ r. before_at B r n) e))
                  ∙ ap (λ r. take i text ++ r) (sym (by_places-here fuel B o old new b bs here))))
      | inr other ↦
          let not_here : stands B (o ∷ old) (b ∷ bs) ≡ false =
            rw found (ap (λ r. bounds B && bounds (first_byte r)) (sym behind) ∙ other) in
          let next_text : drop (i + 1) text ≡ bs = drop-drop i 1 text ∙ ap (drop 1) e in
          let next_before : before_at before text (i + 1) ≡ some b =
            before_at-add before text i 1 ∙ ap (λ r. before_at B r 1) e in
          let rest_ascii = drop-IsAscii (i + 1) text ascii in
          rw (other, char_boundary_ascii (drop (i + 1) text) rest_ascii, round)
            (ap (prefixed (take (i + 1) text)) (
                later (before_at before text (i + 1)) (drop (i + 1) text)
                  (shorter text (i + 1) fuel h (omega arith)) rest_ascii)
              ∙ ap some (
                  ap
                    (λ r.
                      r
                      ++ by_places fuel (before_at before text (i + 1)) (o ∷ old) new
                          (drop (i + 1) text))
                    (take-next text i b bs e)
                  ∙ append_assoc (take i text) (b ∷ []) _
                  ∙ ap (λ r. take i text ++ (b ∷ r))
                      (ap (λ r. by_places fuel (before_at before text (i + 1)) (o ∷ old) new r)
                          next_text
                        ∙ ap (λ q. by_places fuel q (o ∷ old) new bs) next_before)
                  ∙ ap (λ r. take i text ++ r)
                      (sym (by_places-other fuel B o old new b bs not_here))))
    ]

-- The loop finds the places where the old word stands alone, and only them.
pub replace_words_from-by_places :
    (fuel : ℕ) (before : Option ℕ) (o : ℕ) (old new text : Text)
    → length text ≤ fuel
    → IsAscii text
    → replace_words_from fuel before (o ∷ old) new text
      ≡ some (by_places fuel before (o ∷ old) new text)
unfolding replace_words_from
replace_words_from-by_places zero before o old new text h ascii = unfold by_places in refl
replace_words_from-by_places (suc fuel) before o old new text h ascii =
    go
      (λ before' text' h' ascii'.
        replace_words_from-by_places fuel before' o old new text' h' ascii')
      (position_of key (uppercase text)) refl
  where
    key : Text
    key = uppercase (o ∷ old)

    Goal : Option ℕ → Type 0
    Goal p =
        elim p [ none ↦ some text | some i ↦ round fuel before (o ∷ old) new text i ]
        ≡ some (by_places (suc fuel) before (o ∷ old) new text)

    at_match :
        Later fuel (o ∷ old) new
        → (i : ℕ) (t : Text) → drop i text ≡ t
        → position_of key (uppercase text) ≡ some i
        → starts_with key (uppercase t) ≡ true
        → Goal (some i)
    at_match later i [] e p found = cc
    at_match later i (b ∷ bs) e p found =
        round-by_places fuel before o old new text i b bs h ascii later e found
        ∙ ap some (
            sym (
              by_places-found (suc fuel) before o old new text h
              ∙ ap (from_match (suc fuel) before (o ∷ old) new text) p
              ∙ ap
                  (λ r.
                    take i text ++ by_places (suc fuel) (before_at before text i) (o ∷ old) new r)
                  e))

    go : Later fuel (o ∷ old) new → (p : Option ℕ) → position_of key (uppercase text) ≡ p → Goal p
    go later none e = ap some (
        sym (
          by_places-found (suc fuel) before o old new text h
          ∙ ap (from_match (suc fuel) before (o ∷ old) new text) e))
    go later (some i) e = at_match later i (drop i text) refl e (
        ap (starts_with key) (sym (drop-uppercase i text))
        ∙ ap (is_at key (uppercase text)) (sym e)
        ∙ position_of-is_at key (uppercase text))

-- In a text of ASCII, replacing a word that is not empty goes through without a panic and replaces
-- it, from left to right, at each place where it stands alone, whatever its case, and changes nothing
-- else. It stands alone where the ends of the text or bytes other than letters, digits, `-` and `_`
-- bound it. Rounds beyond one for each byte make no difference.
pub replace_whole_word-by_places :
    (text : Text) (o : ℕ) (old new : Text) (fuel : ℕ)
    → length text ≤ fuel
    → IsAscii text
    → replace_whole_word text (o ∷ old) new ≡ some (by_places fuel none (o ∷ old) new text)
unfolding replace_whole_word
replace_whole_word-by_places text o old new fuel h ascii =
    replace_words_from-by_places (length text) none o old new text (omega arith) ascii
    ∙ ap some (by_places-fuel (length text) fuel none o old new text (omega arith) h)
