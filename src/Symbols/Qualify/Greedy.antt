-- ===== src/Symbols/Qualify/Greedy.antt =====
-- crates/cobol-sema/src/symbol_table.rs: the search for qualifiers among the ancestors.
use rust_cobol.Prelude.{
  ℕ, zero, suc, ◌+◌, ◌≡◌, refl, sym, ap, ◌∙◌, ◌↔◌, inl, inr, true, List, [], ◌∷◌, arith,
  if◌then◌else◌, Bool-cases, Option-cases, drop,
}
use rust_cobol.Prelude.Text.{Text}
use rust_cobol.Symbols.Types.{Symbol, SymbolTable}
use rust_cobol.Symbols.Qualify.{
  eq_ignore_ascii_case, build_ancestor_chain, position, matches_from, matches_qualifiers, Qualifies,
  done, named, between,
}

drop-nil : (m : ℕ) → drop {A = Symbol} m [] ≡ []
drop-nil zero = refl
drop-nil (suc m) = refl

drop-drop : (k j m : ℕ) (xs : List Symbol) → m ≡ k + j → drop m xs ≡ drop j (drop k xs)
drop-drop zero j m xs e = ap (λ i. drop i xs) (omega arith)
drop-drop (suc k) j m [] e = drop-nil m ∙ sym (drop-nil j)
drop-drop (suc k) j zero (x ∷ xs) e = absurd (omega arith)
drop-drop (suc k) j (suc m) (x ∷ xs) e = drop-drop k j m xs (omega arith)

matches_from-drop :
    (k j : ℕ) (ancestors : List Symbol) (qs : List Text)
    → matches_from (k + j) ancestors qs ≡ matches_from j (drop k ancestors) qs
unfolding matches_from
matches_from-drop k j ancestors [] = refl
matches_from-drop k j ancestors (q ∷ qs) =
    elim (Option-cases (position q (drop j (drop k ancestors)))) [
      | inl missing ↦ rw (drop-drop k j (k + j) ancestors refl, missing, matches_from) refl
      | inr (n, e) ↦
          rw (drop-drop k j (k + j) ancestors refl, e, matches_from)
            (ap (λ i. matches_from i ancestors qs) (omega arith)
              ∙ matches_from-drop k (j + (n + 1)) ancestors qs)
    ]

matches_from-cons :
    (a : Symbol) (ancestors : List Symbol) (q : Text) (qs : List Text)
    → matches_from 0 (a ∷ ancestors) (q ∷ qs) ≡ (
        if eq_ignore_ascii_case a.name q
        then matches_from 0 ancestors qs
        else matches_from 0 ancestors (q ∷ qs))
unfolding matches_from position
matches_from-cons a ancestors q qs = elim (Bool-cases (eq_ignore_ascii_case a.name q)) [
  | inl same ↦ rw (same, matches_from) (matches_from-drop 1 0 (a ∷ ancestors) qs)
  | inr other ↦ elim (Option-cases (position q ancestors)) [
    | inl missing ↦ rw (other, missing, matches_from) refl
    | inr (n, e) ↦
        rw (other, e, matches_from)
          (ap (λ i. matches_from i (a ∷ ancestors) qs) (omega arith)
            ∙ matches_from-drop 1 (n + 1) (a ∷ ancestors) qs
            ∙ ap (λ i. matches_from i ancestors qs) (omega arith))
  ]
]

Qualifies-tail :
    (ancestors : List Symbol) (q : Text) (qs : List Text)
    → Qualifies ancestors (q ∷ qs)
    → Qualifies ancestors qs
Qualifies-tail _ q qs (named a ancestors _ _ e r) = between a ancestors qs r
Qualifies-tail _ q qs (between a ancestors _ r) =
    between a ancestors qs (Qualifies-tail ancestors q qs r)

matches_from_sound :
    (ancestors : List Symbol) (qs : List Text)
    → matches_from 0 ancestors qs ≡ true
    → Qualifies ancestors qs
unfolding matches_from position
matches_from_sound ancestors [] e = done ancestors
matches_from_sound [] (q ∷ qs) e = absurd (cc (e))
matches_from_sound (a ∷ ancestors) (q ∷ qs) e = elim (Bool-cases (eq_ignore_ascii_case a.name q)) [
  | inl same ↦
      named a ancestors q qs same
        (matches_from_sound ancestors qs (cc (e, same, matches_from-cons a ancestors q qs)))
  | inr other ↦
      between a ancestors (q ∷ qs)
        (matches_from_sound ancestors (q ∷ qs) (cc (e, other, matches_from-cons a ancestors q qs)))
]

matches_from_complete :
    (ancestors : List Symbol) (qs : List Text)
    → Qualifies ancestors qs
    → matches_from 0 ancestors qs ≡ true
unfolding matches_from
matches_from_complete ancestors [] r = refl
matches_from_complete [] (q ∷ qs) r = elim r [ ]
matches_from_complete (a ∷ ancestors) (q ∷ qs) (named _ _ _ _ e r) =
    rw (matches_from-cons a ancestors q qs, e) (matches_from_complete ancestors qs r)
matches_from_complete (a ∷ ancestors) (q ∷ qs) (between _ _ _ r) =
    elim (Bool-cases (eq_ignore_ascii_case a.name q)) [
      | inl same ↦
          rw (matches_from-cons a ancestors q qs, same)
            (matches_from_complete ancestors qs (Qualifies-tail ancestors q qs r))
      | inr other ↦
          rw (matches_from-cons a ancestors q qs, other)
            (matches_from_complete ancestors (q ∷ qs) r)
    ]

-- The greedy search from each ancestor to the next accepts exactly the qualifiers that name
-- ancestors of the symbol from the inside out, whatever stands between them.
pub matches_qualifiers-Qualifies :
    (t : SymbolTable) (qualifiers : List Text) (symbol : Symbol)
    → (matches_qualifiers t qualifiers symbol ≡ true)
      ↔ Qualifies (build_ancestor_chain t symbol) qualifiers
unfolding matches_qualifiers
matches_qualifiers-Qualifies t qualifiers symbol = (
  matches_from_sound (build_ancestor_chain t symbol) qualifiers,
  matches_from_complete (build_ancestor_chain t symbol) qualifiers,
)
