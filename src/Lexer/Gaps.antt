-- ===== src/Lexer/Gaps.antt =====
-- crates/cobol-lexer/src/lexer.rs: the white space that the lexer goes over before a token.
use rust_cobol.Prelude.{
  ℕ, ◌≡◌, refl, sym, ap, ◌∙◌, ◌⊎◌, inl, inr, Bool, true, not, ◌&&◌, ◌||◌, List, ◌++◌, arith, ltb,
  ◌==◌, Bool-cases, length, take, drop,
}
use rust_cobol.Prelude.Text.{Text, codes, is_ascii_whitespace, uppercase, eq_of_text_eq}
use mathlib.Core.List.{append_assoc}
use rust_cobol.Strings.Class.{all, all_mono}
use rust_cobol.Prelude.Range.{and-left, and-right}
use rust_cobol.Strings.Zoned.Fields.{all-append}
use rust_cobol.Lexer.Scan.{count_while, is_blank_byte, next_is, starts_with_ignore_case}
use rust_cobol.Lexer.Tokens.{Lexer, advance, skip_whitespace, skip_horizontal_whitespace, skip_is}
use rust_cobol.Lexer.Progress.{IsValid, advance-IsValid, advance_rest, all-take_count}

abbrev pub IsSpace : List ℕ → Type 0
IsSpace gap = all is_ascii_whitespace gap ≡ true

-- What may stand before a token: white space, and before a picture also the word IS.
abbrev pub IsGap : Bool → List ℕ → Type 0
IsGap picture_mode gap =
    IsSpace gap
    ⊎ ((picture_mode ≡ true)
        × ((first : List ℕ) × ((word : List ℕ) × ((last : List ℕ) × ((gap ≡ first ++ (word ++ last))
                  × IsSpace first
                  × (uppercase word ≡ codes "IS")
                  × IsSpace last)))))

-- The lexer has gone over a gap, of white space or of any kind.
abbrev pub Skips : (List ℕ → Type 0) → Lexer → Lexer → Type 0
Skips p l m = (gap : List ℕ) × ((l.rest ≡ gap ++ m.rest) × p gap × IsValid m)

pub skip_whitespace-Skips : (l : Lexer) → IsValid l → Skips IsSpace l (skip_whitespace l)
unfolding skip_whitespace
skip_whitespace-Skips l h =
    let n = count_while is_ascii_whitespace l.rest in
    (
      take n l.rest,
      (advance_rest n l, all-take_count is_ascii_whitespace l.rest, advance-IsValid n l h),
    )

pub skip_horizontal_whitespace-Skips :
    (l : Lexer) → IsValid l → Skips IsSpace l (skip_horizontal_whitespace l)
unfolding skip_horizontal_whitespace
skip_horizontal_whitespace-Skips l h =
    let n = count_while is_blank_byte l.rest in
    (
      take n l.rest,
      (
        advance_rest n l,
        ground (
          arith,
          all-take_count is_blank_byte l.rest,
          all_mono is_blank_byte is_ascii_whitespace (take n l.rest) (λ b. ground arith),
        ),
        advance-IsValid n l h,
      ),
    )

pub append-IsSpace : (a b : List ℕ) → IsSpace a → IsSpace b → IsSpace (a ++ b)
append-IsSpace a b s t = rw (all-append is_ascii_whitespace a b) (ground (arith, s, t))

pub Skips-trans : (l m k : Lexer) → Skips IsSpace l m → Skips IsSpace m k → Skips IsSpace l k
Skips-trans l m k (a, (e, s, v)) (b, (f, t, w)) =
    (a ++ b, (e ∙ ap (λ r. a ++ r) f ∙ sym (append_assoc a b k.rest), append-IsSpace a b s t, w))

pub starts_with_ignore_case-eq :
    (target text : Text)
    → starts_with_ignore_case target text ≡ true
    → uppercase (take (length target) text) ≡ uppercase target
unfolding starts_with_ignore_case
starts_with_ignore_case-eq target text h =
    eq_of_text_eq (uppercase (take (length target) text)) (uppercase target)
      (and-right (not (ltb (length text) (length target))) _ h)

pub skip_is-Skips : (l k : Lexer) → IsValid k → Skips IsSpace l k → Skips (IsGap true) l (skip_is k)
unfolding skip_is
skip_is-Skips l k v (a, (e, s, w)) =
    let after = drop 2 k.rest in
    let ends = length after == 0 || next_is is_ascii_whitespace after in
    elim (Bool-cases (starts_with_ignore_case (codes "IS") k.rest && ends)) [
      | inl found ↦
          let (b, behind) = skip_whitespace-Skips (advance 2 k) (advance-IsValid 2 k v) in
          let (f, t, u) = behind in
          let word : uppercase (take 2 k.rest) ≡ codes "IS" =
            starts_with_ignore_case-eq (codes "IS") k.rest
              (and-left (starts_with_ignore_case (codes "IS") k.rest) ends found) in
          rw found (
            a ++ (take 2 k.rest ++ b),
            (
              e
                  ∙ ap (λ r. a ++ r)
                      (advance_rest 2 k
                        ∙ ap (λ r. take 2 k.rest ++ r) f
                        ∙ sym (append_assoc (take 2 k.rest) b (skip_whitespace (advance 2 k)).rest))
                  ∙ sym (append_assoc a (take 2 k.rest ++ b) (skip_whitespace (advance 2 k)).rest),
              inr (refl, (a, (take 2 k.rest, (b, (refl, s, word, t))))),
              u,
            ),
          )
      | inr other ↦ rw other (a, (e, inl s, w))
    ]

pub append-IsGap : (a b : List ℕ) → IsGap true a → IsSpace b → IsGap true (a ++ b)
append-IsGap a b (inl s) t = inl (append-IsSpace a b s t)
append-IsGap a b (inr (_, (first, (word, (last, (e, s, w, u)))))) t = inr (
  refl,
  (
    first,
    (
      word,
      (
        last ++ b,
        (
          ap (λ r. r ++ b) e
              ∙ append_assoc first (word ++ last) b
              ∙ ap (λ r. first ++ r) (append_assoc word last b),
          s,
          w,
          append-IsSpace last b u t,
        ),
      ),
    ),
  ),
)

pub Skips-IsGap :
    (l m k : Lexer) → Skips (IsGap true) l m → Skips IsSpace m k → Skips (IsGap true) l k
Skips-IsGap l m k (a, (e, s, v)) (b, (f, t, w)) =
    (a ++ b, (e ∙ ap (λ r. a ++ r) f ∙ sym (append_assoc a b k.rest), append-IsGap a b s t, w))
