-- ===== src/Strings/Unstring/Fields.antt =====
-- crates/cobol-runtime/src/string_ops.rs: UNSTRING cuts its source at the delimiters.
use rust_cobol.Prelude.{
  ℕ, zero, suc, ◌≤◌, ◌≡◌, refl, sym, ap, ◌∙◌, inl, inr, Bool, true, false, not, ◌&&◌, Option, none,
  some, List, [], ◌∷◌, ◌++◌, arith, leb, leb→le, Bool-cases, take, drop, take-append-drop,
}
use rust_cobol.Strings.Inspect.{starts_with}
use rust_cobol.Strings.Inspect.Cut.{contains, starts_with-append}
use rust_cobol.Strings.Concat.{find_delimiter, position_of, position_of_ends, up_to}
use rust_cobol.Strings.Unstring.{
  Match, nearer, best_of, single_match, find_unstring_delimiter, Delimiters,
}

contains-append : (key a b : List ℕ) → contains key a ≡ true → contains key (a ++ b) ≡ true
unfolding contains
contains-append [] [] [] h = refl
contains-append [] [] (x ∷ b) h = refl
contains-append (k ∷ key) [] b h = cc
contains-append key (x ∷ a) b h = elim (Bool-cases (starts_with key (x ∷ a))) [
  | inl here ↦ rw (starts_with-append key (x ∷ a) b here) refl
  | inr not_here ↦
      let later : contains key a ≡ true = ground (arith, h, not_here) in
      ground (arith, contains-append key a b later)
]

-- A text that the field must not contain: no delimiter that is not empty does it.
abbrev pub is_absent : List ℕ → List ℕ → Bool
is_absent field [] = true
is_absent field (d ∷ delim) = not (contains (d ∷ delim) field)

abbrev pub all_absent : List ℕ → List (List ℕ) → Bool
all_absent field [] = true
all_absent field (delim ∷ sources) = is_absent field delim && all_absent field sources

-- The place of a match is not behind another.
abbrev not_behind : Match → Option ℕ → Bool
not_behind found none = true
not_behind none (some j) = false
not_behind (some m) (some j) = leb m.0 j

place : Match → Option ℕ
place none = none
place (some m) = some m.0

nearer-first :
    (best : Match) (delim : List ℕ) (o : Option ℕ) (j : Option ℕ)
    → not_behind best j ≡ true
    → not_behind (nearer best delim o) j ≡ true
nearer-first best delim none j h = h
nearer-first none delim (some i) none h = refl
nearer-first none delim (some i) (some j) h = cc
nearer-first (some b) delim (some i) none h = refl
nearer-first (some b) delim (some i) (some j) h = ground (arith, h)

nearer-second :
    (best : Match) (delim : List ℕ) (o : Option ℕ) → not_behind (nearer best delim o) o ≡ true
nearer-second best delim none = refl
nearer-second none delim (some i) = ground arith
nearer-second (some b) delim (some i) = ground arith

best_of-first :
    (bytes : List ℕ) (best : Match) (sources : List (List ℕ)) (j : Option ℕ)
    → not_behind best j ≡ true
    → not_behind (best_of bytes best sources) j ≡ true
unfolding best_of
best_of-first bytes best [] j h = h
best_of-first bytes best (delim ∷ sources) j h =
    best_of-first bytes (nearer best delim (find_delimiter bytes delim)) sources j
      (nearer-first best delim (find_delimiter bytes delim) j h)

-- The bytes up to a match, or all of them.
abbrev pub up_to_match : List ℕ → Match → List ℕ
up_to_match bytes none = bytes
up_to_match bytes (some m) = take m.0 bytes

take-prefix : (bytes : List ℕ) (i j : ℕ) → i ≤ j → (r : List ℕ) × (take j bytes ≡ take i bytes ++ r)
take-prefix bytes zero j h = (take j bytes, refl)
take-prefix bytes (suc i) zero h = absurd (omega arith)
take-prefix [] (suc i) (suc j) h = ([], refl)
take-prefix (b ∷ bs) (suc i) (suc j) h =
    let (r, e) = take-prefix bs i j (omega arith) in (r, ap (λ t. b ∷ t) e)

contains-append_false : (key a b : List ℕ) → contains key (a ++ b) ≡ false → contains key a ≡ false
contains-append_false key a b h = elim (Bool-cases (contains key a)) [
  | inl yes' ↦ absurd (cc (h, contains-append key a b yes'))
  | inr no' ↦ no'
]

up_to_match-none :
    (delim bytes : List ℕ) (found : Match) (o : Option ℕ)
    → not_behind found o ≡ true
    → contains delim (up_to bytes o) ≡ false
    → contains delim (up_to_match bytes found) ≡ false
up_to_match-none delim bytes none none h c = c
up_to_match-none delim bytes none (some j) h c = cc
up_to_match-none delim bytes (some m) none h c =
    contains-append_false delim (take m.0 bytes) (drop m.0 bytes)
      (ap (contains delim) (take-append-drop m.0 bytes) ∙ c)
up_to_match-none delim bytes (some m) (some j) h c =
    let (r, e) = take-prefix bytes m.0 j (leb→le m.0 j h) in
    contains-append_false delim (take m.0 bytes) r (ap (contains delim) (sym e) ∙ c)

absent_up_to :
    (bytes delim : List ℕ) (found : Match)
    → not_behind found (find_delimiter bytes delim) ≡ true
    → is_absent (up_to_match bytes found) delim ≡ true
unfolding find_delimiter
absent_up_to bytes [] found h = refl
absent_up_to bytes (d ∷ delim) found h = ap not (
    up_to_match-none (d ∷ delim) bytes found (position_of (d ∷ delim) bytes) h
      (position_of_ends d delim bytes).0)

best_of-all_absent :
    (bytes : List ℕ) (best : Match) (sources : List (List ℕ))
    → all_absent (up_to_match bytes (best_of bytes best sources)) sources ≡ true
unfolding best_of
best_of-all_absent bytes best [] = refl
best_of-all_absent bytes best (delim ∷ sources) =
    let o = find_delimiter bytes delim in
    let first = nearer best delim o in
    ground (
      arith,
      absent_up_to bytes delim (best_of bytes first sources)
          (best_of-first bytes first sources o (nearer-second best delim o)),
      best_of-all_absent bytes first sources,
    )

-- The delimiters that are given one by one.
abbrev pub all_delimiters : Delimiters → List (List ℕ)
all_delimiters d = elim d.single_delim [ none ↦ d.sources | some delim ↦ delim ∷ d.sources ]

-- No delimiter is found within the bytes up to the match.
pub found_absent :
    (bytes : List ℕ) (d : Delimiters)
    → all_absent
        (up_to_match bytes (find_unstring_delimiter bytes d.single_delim d.sources))
        (all_delimiters d)
      ≡ true
unfolding find_unstring_delimiter
found_absent bytes d = go d.single_delim
  where
    go :
        (single_delim : Option (List ℕ))
        → all_absent
            (up_to_match bytes (best_of bytes (single_match bytes single_delim) d.sources))
            (elim single_delim [ none ↦ d.sources | some delim ↦ delim ∷ d.sources ])
          ≡ true
    go none = best_of-all_absent bytes none d.sources
    go (some delim) =
        let o = find_delimiter bytes delim in
        let first = nearer none delim o in
        ground (
          arith,
          absent_up_to bytes delim (best_of bytes first d.sources)
              (best_of-first bytes first d.sources o (nearer-second none delim o)),
          best_of-all_absent bytes first d.sources,
        )
