-- ===== src/Strings/Unstring/Cutting.antt =====
-- crates/cobol-runtime/src/string_ops.rs: UNSTRING gives each target what stands between delimiters.
use rust_cobol.Prelude.{
  ℕ, zero, suc, min, ◌≡◌, refl, sym, ap, ◌∙◌, ◌⊎◌, inl, inr, Bool, true, false, not, ◌&&◌, Option,
  none, some, List, [], ◌∷◌, ◌++◌, ltb, ◌==◌, Bool-cases, length, take, drop, take-append-drop,
  ◌||◌, ◌≤◌, arith, length-drop, if◌then◌else◌,
}
use mathlib.Core.Path.{subst}
use mathlib.Core.List.{append_assoc, append-nil}
use rust_cobol.Prelude.{choose}
use rust_cobol.Strings.Inspect.{starts_with}
use rust_cobol.Strings.Inspect.Cut.{starts_with-split}
use rust_cobol.Strings.Unstring.{
  UnstringTarget, Match, find_unstring_delimiter, receive, skip_repeats, skip_delimiter, Delimiters,
  has_delimiter, given, field_end, Split, unstring_from, delimiter_bytes,
}
use rust_cobol.Strings.Unstring.Found.{is_match, found-is_match}
use rust_cobol.Strings.Unstring.First.{first_delimiter, find_unstring_delimiter-first}
use rust_cobol.Strings.Unstring.Fields.{all_absent, all_delimiters, up_to_match, found_absent}

-- A delimiter some times over.
unfoldable pub repeated : ℕ → List ℕ → List ℕ
repeated zero delim = []
repeated (suc n) delim = delim ++ repeated n delim

skip_repeats_lem :
    (fuel : ℕ) (delim rest : List ℕ)
    → (n : ℕ) × (rest ≡ repeated n delim ++ skip_repeats fuel delim rest)
unfolding skip_repeats repeated
skip_repeats_lem zero delim rest = (0, refl)
skip_repeats_lem (suc fuel) delim rest = elim (Bool-cases (starts_with delim rest)) [
  | inl again ↦
      let (n, e) = skip_repeats_lem fuel delim (drop (length delim) rest) in
      rw (again, skip_repeats)
        (
          suc n,
          starts_with-split delim rest again
              ∙ ap (λ r. delim ++ r) e
              ∙ sym (
                  append_assoc delim (repeated n delim)
                    (skip_repeats fuel delim (drop (length delim) rest))),
        )
  | inr other ↦ rw (other, skip_repeats) (0, refl)
]

-- No more repetitions follow.
skip_repeats_end :
    (fuel : ℕ) (delim rest : List ℕ)
    → length rest ≤ fuel
    → (length delim == 0) ≡ false
    → starts_with delim (skip_repeats fuel delim rest) ≡ false
unfolding skip_repeats
skip_repeats_end fuel [] rest h k = cc
skip_repeats_end zero (d ∷ delim) [] h k = refl
skip_repeats_end zero (d ∷ delim) (r ∷ rest) h k = absurd (omega arith)
skip_repeats_end (suc fuel) (d ∷ delim) rest h k =
    elim (Bool-cases (starts_with (d ∷ delim) rest)) [
      | inl again ↦
          rw (again, skip_repeats)
            (skip_repeats_end fuel (d ∷ delim) (drop (length (d ∷ delim)) rest)
              (omega (arith, h, length-drop (length (d ∷ delim)) rest)) k)
      | inr other ↦ rw (other, skip_repeats) other
    ]

-- How often the delimiter stands behind the field: as often as it can where repetitions count once
-- (an empty one has none), and otherwise once.
abbrev pub IsSkipped : Bool → Match → ℕ → List ℕ → Type 0
IsSkipped collapse none n rest' = n ≡ 0
IsSkipped collapse (some m) n rest' =
    if collapse && not (length m.1 == 0) then (1 ≤ n) × (starts_with m.1 rest' ≡ false) else n ≡ 1

skip_delimiter_lem :
    (collapse : Bool) (found : Match) (bytes : List ℕ) (end : ℕ)
    → (found ≡ none) ⊎ (starts_with (delimiter_bytes found) (drop end bytes) ≡ true)
    → let rest' = skip_delimiter collapse found (drop end bytes) in
      (n : ℕ) × (drop end bytes ≡ repeated n (delimiter_bytes found) ++ rest')
      × IsSkipped collapse found n rest'
unfolding repeated
skip_delimiter_lem collapse none bytes end h = (0, refl, refl)
skip_delimiter_lem collapse (some m) bytes end (inl h) = absurd (cc h)
skip_delimiter_lem collapse (some m) bytes end (inr h) =
    let after = drop (length m.1) (drop end bytes) in
    let whole : drop end bytes ≡ m.1 ++ after = starts_with-split m.1 (drop end bytes) h in
    let (n, e) = skip_repeats_lem (length after) m.1 after in
    elim (Bool-cases (collapse && not (length m.1 == 0))) [
      | inl all ↦ rw all (
        suc n,
        whole
            ∙ ap (λ r. m.1 ++ r) e
            ∙ sym (append_assoc m.1 (repeated n m.1) (skip_repeats (length after) m.1 after)),
        (
          omega arith,
          skip_repeats_end (length after) m.1 after (omega arith) (ground (arith, all)),
        ),
      )
      | inr one ↦ rw one (1, whole ∙ ap (λ r. r ++ after) (sym (append-nil m.1)), refl)
    ]

-- The field: up to the delimiter that was found, the whole rest where none of the given ones is in
-- it, and as much as the target takes where none is given.
abbrev pub field_of : Delimiters → UnstringTarget → Match → List ℕ → List ℕ
field_of d tgt (some m) rest = take m.0 rest
field_of d tgt none rest = if has_delimiter d then rest else take tgt.len rest

-- What the targets receive, one after the other, as long as something is left. The delimiter of each
-- is the first that is found, the field contains none, and behind it stands the delimiter. A field
-- that is longer than its target overflows.
abbrev pub IsUnstrung : Delimiters → List UnstringTarget → List ℕ → Split → Type 0
IsUnstrung d [] rest s = (s.received ≡ []) × (s.rest ≡ rest) × (s.overflow ≡ false)
IsUnstrung d (tgt ∷ targets) rest s =
    ((rest ≡ []) × (s.received ≡ []) × (s.rest ≡ []) × (s.overflow ≡ false))
    ⊎ ((field : List ℕ) × ((found : Match) × ((n : ℕ) × ((rest' : List ℕ) × ((later : Split) × ((1
                    ≤ length rest)
                  × (found ≡ first_delimiter (all_delimiters d) rest)
                  × (field ≡ field_of d tgt found rest)
                  × (all_absent field (all_delimiters d) ≡ true)
                  × (rest ≡ field ++ (repeated n (delimiter_bytes found) ++ rest'))
                  × IsSkipped d.collapse_all found n rest'
                  × (s.received ≡ receive tgt field found ∷ later.received)
                  × (s.rest ≡ later.rest)
                  × (s.overflow ≡ (ltb tgt.len (length field) || later.overflow))
                  × IsUnstrung d targets rest' later))))))

take_whole : (bytes : List ℕ) → take (length bytes) bytes ≡ bytes
take_whole [] = refl
take_whole (b ∷ bs) = ap (λ r. b ∷ r) (take_whole bs)

no_delimiters :
    (single_delim : Option (List ℕ)) (sources : List (List ℕ))
    → given single_delim sources ≡ false
    → elim single_delim [ none ↦ sources | some delim ↦ delim ∷ sources ] ≡ []
no_delimiters none [] h = refl
no_delimiters none (s ∷ sources) h = cc
no_delimiters (some delim) sources h = cc

field_absent :
    (d : Delimiters) (tgt : UnstringTarget) (bytes : List ℕ) (found : Match)
    → all_absent (up_to_match bytes found) (all_delimiters d) ≡ true
    → all_absent (take (field_end d tgt found bytes) bytes) (all_delimiters d) ≡ true
field_absent d tgt bytes (some m) h = h
field_absent d tgt bytes none h =
    choose (λ n. all_absent (take n bytes) (all_delimiters d) ≡ true) (has_delimiter d)
      (λ some'. subst (λ r. all_absent r (all_delimiters d) ≡ true) (sym (take_whole bytes)) h)
      (λ none'.
        ap (all_absent (take (min tgt.len (length bytes)) bytes))
          (no_delimiters d.single_delim d.sources none'))

at_end :
    (d : Delimiters) (tgt : UnstringTarget) (bytes : List ℕ) (found : Match)
    → is_match bytes found ≡ true
    → (found ≡ none)
      ⊎ (starts_with (delimiter_bytes found) (drop (field_end d tgt found bytes) bytes) ≡ true)
at_end d tgt bytes none h = inl refl
at_end d tgt bytes (some m) h = inr h

take-min : (n : ℕ) (bytes : List ℕ) → take (min n (length bytes)) bytes ≡ take n bytes
take-min zero bytes =
    let e : min zero (length bytes) ≡ zero = omega arith in ap (λ k. take k bytes) e
take-min (suc n) [] = let e : min (suc n) 0 ≡ zero = omega arith in ap (λ k. take {A = ℕ} k []) e
take-min (suc n) (b ∷ bs) =
    let e : min (suc n) (suc (length bs)) ≡ suc (min n (length bs)) = omega arith in
    ap (λ k. take k (b ∷ bs)) e ∙ ap (λ r. b ∷ r) (take-min n bs)

field_end-field_of :
    (d : Delimiters) (tgt : UnstringTarget) (found : Match) (bytes : List ℕ)
    → take (field_end d tgt found bytes) bytes ≡ field_of d tgt found bytes
field_end-field_of d tgt (some m) bytes = refl
field_end-field_of d tgt none bytes = elim (Bool-cases (has_delimiter d)) [
  | inl given' ↦ rw given' (take_whole bytes)
  | inr none' ↦ rw none' (take-min tgt.len bytes)
]

-- UNSTRING gives its targets, in order, the fields of the source while something is left of it. A
-- field ends at the first place where a delimiter starts (of several there the one that is given
-- first counts), is all that is left where there is none, and has the length of its target where no
-- delimiter is given. It contains no delimiter, and with what is skipped behind it, the delimiter
-- once or with ALL as often as it stands there, and the rest it makes up the source; a field that is
-- longer than its target is an overflow.
pub unstring_from-IsUnstrung :
    (d : Delimiters) (targets : List UnstringTarget) (src : List ℕ)
    → IsUnstrung d targets src (unstring_from d targets src)
unfolding unstring_from
unstring_from-IsUnstrung d [] src = (refl, refl, refl)
unstring_from-IsUnstrung d (tgt ∷ targets) [] = inl (refl, refl, refl, refl)
unstring_from-IsUnstrung d (tgt ∷ targets) (b ∷ bs) =
    let bytes : List ℕ = b ∷ bs in
    let found = find_unstring_delimiter bytes d.single_delim d.sources in
    let end = field_end d tgt found bytes in
    let rest' = skip_delimiter d.collapse_all found (drop end bytes) in
    let (n, e, skipped) =
      skip_delimiter_lem d.collapse_all found bytes end
        (at_end d tgt bytes found (found-is_match bytes d.single_delim d.sources)) in
    inr (
      take end bytes,
      (
        found,
        (
          n,
          (
            rest',
            (
              unstring_from d targets rest',
              (
                omega arith,
                find_unstring_delimiter-first bytes d,
                field_end-field_of d tgt found bytes,
                field_absent d tgt bytes found (found_absent bytes d),
                sym (take-append-drop end bytes) ∙ ap (λ r. take end bytes ++ r) e,
                skipped,
                refl,
                refl,
                refl,
                unstring_from-IsUnstrung d targets rest',
              ),
            ),
          ),
        ),
      ),
    )
