-- ===== src/Strings/Unstring/First.antt =====
-- crates/cobol-runtime/src/string_ops.rs: which delimiter UNSTRING finds: of those that start at the
-- first place where any does, the one that is given first.
use rust_cobol.Prelude.{
  ℕ, suc, ◌≡◌, refl, sym, ap, ◌∙◌, inl, inr, Option, none, some, List, [], ◌∷◌, arith, ltb,
  if◌then◌else◌, Bool-cases,
}
use rust_cobol.Strings.Inspect.{starts_with}
use rust_cobol.Strings.Concat.{
  find_delimiter, position_of, position_of-found, position_of-next, next,
}
use rust_cobol.Strings.Unstring.{
  Match, nearer, best_of, single_match, find_unstring_delimiter, Delimiters,
}
use rust_cobol.Strings.Unstring.Fields.{all_delimiters}

-- The delimiter that stands at the start of the bytes; an empty one stands nowhere.
unfoldable pub delimiter_at : List (List ℕ) → List ℕ → Option (List ℕ)
delimiter_at [] bytes = none
delimiter_at ([] ∷ sources) bytes = delimiter_at sources bytes
delimiter_at ((d ∷ delim) ∷ sources) bytes =
    if starts_with (d ∷ delim) bytes then some (d ∷ delim) else delimiter_at sources bytes

abbrev one_later : Match → Match
one_later none = none
one_later (some (place, delim)) = some (suc place, delim)

abbrev here_or : Option (List ℕ) → Match → Match
here_or none later = one_later later
here_or (some delim) later = some (0, delim)

-- Place by place.
unfoldable pub first_delimiter : List (List ℕ) → List ℕ → Match
first_delimiter sources [] = none
first_delimiter sources (b ∷ bs) =
    here_or (delimiter_at sources (b ∷ bs)) (first_delimiter sources bs)

-- The nearer of two matches, the first where they are at one place.
abbrev nearer_match : Match → Match → Match
nearer_match best none = best
nearer_match none (some m) = some m
nearer_match (some b) (some m) = if ltb m.0 b.0 then some m else some b

abbrev alone : List ℕ → Option ℕ → Match
alone delim none = none
alone delim (some place) = some (place, delim)

nearer-nearer_match :
    (best : Match) (delim : List ℕ) (o : Option ℕ)
    → nearer best delim o ≡ nearer_match best (alone delim o)
nearer-nearer_match best delim none = refl
nearer-nearer_match none delim (some i) = refl
nearer-nearer_match (some b) delim (some i) = refl

nearer_match_assoc :
    (a b c : Match) → nearer_match (nearer_match a b) c ≡ nearer_match a (nearer_match b c)
nearer_match_assoc a b none = refl
nearer_match_assoc a none (some z) = refl
nearer_match_assoc none (some y) (some z) = ground arith
nearer_match_assoc (some x) (some y) (some z) = ground arith

one_later-nearer_match :
    (a b : Match) → nearer_match (one_later a) (one_later b) ≡ one_later (nearer_match a b)
one_later-nearer_match a none = refl
one_later-nearer_match none (some b) = refl
one_later-nearer_match (some a) (some b) = ground arith

nearer_match-here :
    (a : Match) (o : Option (List ℕ)) (m : Match)
    → nearer_match (one_later a) (here_or o m) ≡ here_or o (nearer_match a m)
nearer_match-here a none m = one_later-nearer_match a m
nearer_match-here none (some e) m = refl
nearer_match-here (some a) (some e) m = ground arith

alone-next : (delim : List ℕ) (o : Option ℕ) → alone delim (next o) ≡ one_later (alone delim o)
alone-next delim none = refl
alone-next delim (some i) = refl

nearer_match-zero :
    (delim : List ℕ) (m : Match) → nearer_match (some (0, delim)) m ≡ some (0, delim)
nearer_match-zero delim none = refl
nearer_match-zero delim (some m) = ground arith

-- One more delimiter, given before the others.
first_delimiter-more :
    (delim : List ℕ) (sources : List (List ℕ)) (bytes : List ℕ)
    → nearer_match (alone delim (find_delimiter bytes delim)) (first_delimiter sources bytes)
      ≡ first_delimiter (delim ∷ sources) bytes
unfolding find_delimiter first_delimiter delimiter_at
first_delimiter-more [] sources [] = refl
first_delimiter-more (d ∷ delim) sources [] = unfold position_of in refl
first_delimiter-more [] sources (b ∷ bs) =
    nearer_match-none (here_or (delimiter_at sources (b ∷ bs)) (first_delimiter sources bs))
    ∙ ap (here_or (delimiter_at sources (b ∷ bs)))
        (sym (nearer_match-none (first_delimiter sources bs)) ∙ first_delimiter-more [] sources bs)
  where
    nearer_match-none : (m : Match) → nearer_match none m ≡ m
    nearer_match-none none = refl
    nearer_match-none (some m) = refl
first_delimiter-more (d ∷ delim) sources (b ∷ bs) =
    let key = d ∷ delim in
    let later = first_delimiter sources bs in
    elim (Bool-cases (starts_with key (b ∷ bs))) [
      | inl found ↦
          ap (λ o. nearer_match (alone key o) (here_or (delimiter_at sources (b ∷ bs)) later))
            (position_of-found key b bs found)
          ∙ nearer_match-zero key (here_or (delimiter_at sources (b ∷ bs)) later)
          ∙ rw found refl
      | inr other ↦
          ap (λ o. nearer_match (alone key o) (here_or (delimiter_at sources (b ∷ bs)) later))
            (position_of-next key b bs other)
          ∙ ap (λ m. nearer_match m (here_or (delimiter_at sources (b ∷ bs)) later))
              (alone-next key (position_of key bs))
          ∙ nearer_match-here (alone key (position_of key bs)) (delimiter_at sources (b ∷ bs)) later
          ∙ ap (here_or (delimiter_at sources (b ∷ bs)))
              (first_delimiter-more (d ∷ delim) sources bs)
          ∙ rw other refl
    ]

first_delimiter-nil : (bytes : List ℕ) → first_delimiter [] bytes ≡ none
unfolding first_delimiter delimiter_at
first_delimiter-nil [] = refl
first_delimiter-nil (b ∷ bs) = ap one_later (first_delimiter-nil bs)

best_of-first_delimiter :
    (bytes : List ℕ) (best : Match) (sources : List (List ℕ))
    → best_of bytes best sources ≡ nearer_match best (first_delimiter sources bytes)
unfolding best_of
best_of-first_delimiter bytes best [] = sym (ap (nearer_match best) (first_delimiter-nil bytes))
best_of-first_delimiter bytes best (delim ∷ sources) =
    let o = find_delimiter bytes delim in
    best_of-first_delimiter bytes (nearer best delim o) sources
    ∙ ap (λ m. nearer_match m (first_delimiter sources bytes)) (nearer-nearer_match best delim o)
    ∙ nearer_match_assoc best (alone delim o) (first_delimiter sources bytes)
    ∙ ap (nearer_match best) (first_delimiter-more delim sources bytes)

pub find_unstring_delimiter-first :
    (bytes : List ℕ) (d : Delimiters)
    → find_unstring_delimiter bytes d.single_delim d.sources
      ≡ first_delimiter (all_delimiters d) bytes
unfolding find_unstring_delimiter
find_unstring_delimiter-first bytes d = go d.single_delim
  where
    nearer_match-none : (m : Match) → nearer_match none m ≡ m
    nearer_match-none none = refl
    nearer_match-none (some m) = refl

    go :
        (single_delim : Option (List ℕ))
        → best_of bytes (single_match bytes single_delim) d.sources
          ≡ first_delimiter
              (elim single_delim [ none ↦ d.sources | some delim ↦ delim ∷ d.sources ])
              bytes
    go none =
        best_of-first_delimiter bytes none d.sources
        ∙ nearer_match-none (first_delimiter d.sources bytes)
    go (some delim) =
        let o = find_delimiter bytes delim in
        best_of-first_delimiter bytes (nearer none delim o) d.sources
        ∙ ap (λ m. nearer_match m (first_delimiter d.sources bytes))
            (nearer-nearer_match none delim o)
        ∙ ap (λ m. nearer_match m (first_delimiter d.sources bytes))
            (nearer_match-none (alone delim o))
        ∙ first_delimiter-more delim d.sources bytes
