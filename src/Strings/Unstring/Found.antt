-- ===== src/Strings/Unstring/Found.antt =====
-- crates/cobol-runtime/src/string_ops.rs: at the place of a match stands the delimiter.
use rust_cobol.Prelude.{
  ℕ, ◌≡◌, refl, Bool, true, Option, none, some, List, [], ◌∷◌, ltb, drop, either, choose,
}
use rust_cobol.Strings.Inspect.{starts_with}
use rust_cobol.Strings.Concat.{find_delimiter, position_of, next}
use rust_cobol.Strings.Unstring.{Match, nearer, best_of, find_unstring_delimiter}

abbrev pub is_at : List ℕ → List ℕ → Option ℕ → Bool
is_at delim bytes none = true
is_at delim bytes (some i) = starts_with delim (drop i bytes)

is_at-next :
    (delim : List ℕ) (b : ℕ) (bs : List ℕ) (o : Option ℕ)
    → is_at delim bs o ≡ true
    → is_at delim (b ∷ bs) (next o) ≡ true
is_at-next delim b bs none h = refl
is_at-next delim b bs (some i) h = h

pub position_of-is_at : (delim bytes : List ℕ) → is_at delim bytes (position_of delim bytes) ≡ true
unfolding position_of
position_of-is_at delim [] = refl
position_of-is_at delim (b ∷ bs) =
    choose (λ o. is_at delim (b ∷ bs) o ≡ true) (starts_with delim (b ∷ bs)) (λ here. here)
      (λ other. is_at-next delim b bs (position_of delim bs) (position_of-is_at delim bs))

find_delimiter-is_at :
    (bytes delim : List ℕ) → is_at delim bytes (find_delimiter bytes delim) ≡ true
unfolding find_delimiter
find_delimiter-is_at bytes [] = refl
find_delimiter-is_at bytes (d ∷ delim) = position_of-is_at (d ∷ delim) bytes

abbrev pub is_match : List ℕ → Match → Bool
is_match bytes none = true
is_match bytes (some m) = starts_with m.1 (drop m.0 bytes)

nearer-is_match :
    (bytes : List ℕ) (best : Match) (delim : List ℕ) (o : Option ℕ)
    → is_match bytes best ≡ true
    → is_at delim bytes o ≡ true
    → is_match bytes (nearer best delim o) ≡ true
nearer-is_match bytes best delim none h k = h
nearer-is_match bytes none delim (some i) h k = k
nearer-is_match bytes (some b) delim (some i) h k =
    either (λ m. is_match bytes m ≡ true) (ltb i b.0) k h

best_of-is_match :
    (bytes : List ℕ) (best : Match) (sources : List (List ℕ))
    → is_match bytes best ≡ true
    → is_match bytes (best_of bytes best sources) ≡ true
unfolding best_of
best_of-is_match bytes best [] h = h
best_of-is_match bytes best (delim ∷ sources) h =
    best_of-is_match bytes (nearer best delim (find_delimiter bytes delim)) sources (
      nearer-is_match bytes best delim (find_delimiter bytes delim) h
        (find_delimiter-is_at bytes delim))

pub found-is_match :
    (bytes : List ℕ) (single_delim : Option (List ℕ)) (sources : List (List ℕ))
    → is_match bytes (find_unstring_delimiter bytes single_delim sources) ≡ true
unfolding find_unstring_delimiter
found-is_match bytes none sources = best_of-is_match bytes none sources refl
found-is_match bytes (some delim) sources =
    best_of-is_match bytes (nearer none delim (find_delimiter bytes delim)) sources (
      nearer-is_match bytes none delim (find_delimiter bytes delim) refl
        (find_delimiter-is_at bytes delim))
