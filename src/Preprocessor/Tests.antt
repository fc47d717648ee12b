-- ===== src/Preprocessor/Tests.antt =====
-- crates/cobol-preprocessor/src/replacer.rs: tests and instances at concrete inputs.
use rust_cobol.Prelude.{◌≡◌, refl, none, some, [], ◌∷◌, arith}
use rust_cobol.Prelude.Text.{codes}
use rust_cobol.Preprocessor.Replacer.{replace_words_from, replace_whole_word}
use rust_cobol.Preprocessor.Places.{by_places}
use rust_cobol.Preprocessor.Words.{replace_whole_word-by_places}

replace_whole_word-by_places_example :
    replace_whole_word (codes "A TAG TAG-1 tag.") (codes "TAG") (codes "X")
    ≡ some (by_places 20 none (codes "TAG") (codes "X") (codes "A TAG TAG-1 tag."))
replace_whole_word-by_places_example =
    replace_whole_word-by_places (codes "A TAG TAG-1 tag.") b'T' (codes "AG") (codes "X") 20
      (omega arith) refl

replaced :
    replace_whole_word (codes "A TAG TAG-1 tag.") (codes "TAG") (codes "X")
    ≡ some (codes "A X TAG-1 X.")
unfolding replace_whole_word replace_words_from rust_cobol.Strings.Concat.position_of
    rust_cobol.Prelude.Text.is_char_boundary
replaced = refl

-- Of a word that starts with a character of two bytes and does not stand alone the slice panics.
sliced_inside : replace_whole_word (b'X' ∷ 195 ∷ 169 ∷ []) (195 ∷ 169 ∷ []) (codes "Y") ≡ none
unfolding replace_whole_word replace_words_from rust_cobol.Strings.Concat.position_of
    rust_cobol.Prelude.Text.is_char_boundary
sliced_inside = refl
