-- ===== src/Preprocessor/Replacer.antt =====
-- crates/cobol-preprocessor/src/replacer.rs: whole words replaced, without regard to case.
use rust_cobol.Prelude.{
  ℕ, zero, suc, ◌+◌, Bool, true, false, not, ◌&&◌, ◌||◌, Option, none, some, List, [], ◌∷◌, ◌++◌,
  ◌==◌, length, take, drop,
}
use rust_cobol.Prelude.Text.{Text, is_ascii_alphanumeric, uppercase, is_char_boundary}
use rust_cobol.Strings.Concat.{position_of}

abbrev pub is_cobol_word_char : ℕ → Bool
is_cobol_word_char b = is_ascii_alphanumeric b || b == b'-' || b == b'_'

-- Whether a byte bounds a word; none stands for an end of the text.
abbrev pub bounds : Option ℕ → Bool
bounds none = true
bounds (some b) = not (is_cobol_word_char b)

abbrev pub first_byte : List ℕ → Option ℕ
first_byte [] = none
first_byte (b ∷ bs) = some b

-- The byte before what is left after `n` bytes of it.
abbrev pub before_at : Option ℕ → List ℕ → ℕ → Option ℕ
before_at before text zero = before
before_at before [] (suc n) = before
before_at before (b ∷ bs) (suc n) = before_at (some b) bs n

abbrev pub prefixed : Text → Option Text → Option Text
prefixed copied none = none
prefixed copied (some rest) = some (copied ++ rest)

-- The loop: `before` is the byte before the position, and `text` what is left. `none` is the panic of
-- a slice that ends inside a character, where the word starts with one of several bytes.
unfoldable pub replace_words_from : ℕ → Option ℕ → Text → Text → Text → Option Text
replace_words_from zero before old new text = some text
replace_words_from (suc fuel) before old new text =
    elim (position_of (uppercase old) (uppercase text)) [
      | none ↦ some text
      | some found ↦
          let match_end = found + length old in
          elim (bounds (before_at before text found) && bounds (first_byte (drop match_end text))) [
            | true ↦ prefixed (take found text ++ new) (
                replace_words_from fuel (before_at before text match_end) old new
                  (drop match_end text))
            | false ↦ elim (is_char_boundary (drop (found + 1) text)) [
              | true ↦ prefixed (take (found + 1) text) (
                  replace_words_from fuel (before_at before text (found + 1)) old new
                    (drop (found + 1) text))
              | false ↦ none
            ]
          ]
    ]

unfoldable pub replace_whole_word : Text → Text → Text → Option Text
replace_whole_word text [] new = some text
replace_whole_word text (o ∷ old) new = replace_words_from (length text) none (o ∷ old) new text
