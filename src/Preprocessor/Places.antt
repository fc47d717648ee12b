-- ===== src/Preprocessor/Places.antt =====
-- crates/cobol-preprocessor/src/replacer.rs: the places of a text where a word stands alone.
use rust_cobol.Prelude.{
  ℕ, zero, suc, ◌≤◌, ◌≡◌, refl, ap, inl, inr, Bool, true, false, ◌&&◌, Option, some, [], ◌∷◌, ◌++◌,
  arith, Bool-cases, length, drop, length-drop,
}
use rust_cobol.Prelude.Text.{Text, uppercase}
use rust_cobol.Strings.Inspect.{starts_with}
use rust_cobol.Preprocessor.Replacer.{bounds, first_byte, before_at}

-- Whether the old word stands here, alone.
abbrev pub stands : Option ℕ → Text → Text → Bool
stands before old text =
    starts_with (uppercase old) (uppercase text)
    && (bounds before && bounds (first_byte (drop (length old) text)))

-- The text read place by place, in as many rounds as are given: where the old word stands alone it
-- is replaced and reading goes on behind it, and any other byte stays.
unfoldable pub by_places : ℕ → Option ℕ → Text → Text → Text → Text
by_places zero before old new text = text
by_places (suc fuel) before old new [] = []
by_places (suc fuel) before old new (b ∷ bs) = elim (stands before old (b ∷ bs)) [
  | true ↦
      new
      ++ by_places fuel (before_at before (b ∷ bs) (length old)) old new
          (drop (length old) (b ∷ bs))
  | false ↦ b ∷ by_places fuel (some b) old new bs
]

pub by_places-other :
    (fuel : ℕ) (before : Option ℕ) (o : ℕ) (old new : Text) (b : ℕ) (bs : Text)
    → stands before (o ∷ old) (b ∷ bs) ≡ false
    → by_places (suc fuel) before (o ∷ old) new (b ∷ bs)
      ≡ b ∷ by_places fuel (some b) (o ∷ old) new bs
unfolding by_places
by_places-other fuel before o old new b bs h = rw (h, by_places) refl

pub by_places-here :
    (fuel : ℕ) (before : Option ℕ) (o : ℕ) (old new : Text) (b : ℕ) (bs : Text)
    → stands before (o ∷ old) (b ∷ bs) ≡ true
    → by_places (suc fuel) before (o ∷ old) new (b ∷ bs)
      ≡ new
        ++ by_places fuel
            (before_at before (b ∷ bs) (length (o ∷ old)))
            (o ∷ old)
            new
            (drop (length old) bs)
unfolding by_places
by_places-here fuel before o old new b bs h = rw (h, by_places) refl

-- Enough rounds are as good as more.
pub by_places-fuel :
    (f g : ℕ) (before : Option ℕ) (o : ℕ) (old new text : Text)
    → length text ≤ f
    → length text ≤ g
    → by_places f before (o ∷ old) new text ≡ by_places g before (o ∷ old) new text
unfolding by_places
by_places-fuel zero zero before o old new text h k = refl
by_places-fuel zero (suc g) before o old new [] h k = refl
by_places-fuel zero (suc g) before o old new (b ∷ bs) h k = absurd (omega arith)
by_places-fuel (suc f) zero before o old new [] h k = refl
by_places-fuel (suc f) zero before o old new (b ∷ bs) h k = absurd (omega arith)
by_places-fuel (suc f) (suc g) before o old new [] h k = refl
by_places-fuel (suc f) (suc g) before o old new (b ∷ bs) h k =
    elim (Bool-cases (stands before (o ∷ old) (b ∷ bs))) [
      | inl here ↦
          rw (here, by_places)
            (ap (λ r. new ++ r)
              (by_places-fuel f g (before_at before (b ∷ bs) (length (o ∷ old))) o old new
                (drop (length old) bs) (omega (arith, length-drop (length old) bs))
                (omega (arith, length-drop (length old) bs))))
      | inr other ↦
          rw (other, by_places)
            (ap (λ r. b ∷ r) (by_places-fuel f g (some b) o old new bs (omega arith) (omega arith)))
    ]
