-- ===== src/Strings/Inspect/Cut.antt =====
-- crates/cobol-runtime/src/string_ops.rs: TALLYING and REPLACING ALL cut a text at the same places.
use rust_cobol.Prelude.{
  ℕ, zero, suc, ◌^◌, ◌≤◌, ◌<◌, ◌≡◌, refl, sym, ap, ◌∙◌, inl, inr, Bool, true, false, not, ◌&&◌,
  ◌||◌, List, [], ◌∷◌, ◌++◌, arith, Bool-cases, length, drop, length-drop,
}
use mathlib.Core.List.{append-nil}
use rust_cobol.Strings.Inspect.{
  starts_with, tally_from, replace_from, overwrite, cobol_inspect_tallying, cobol_inspect_replacing,
}

-- The pieces of a text between the occurrences of a key, found from left to right: the first piece
-- and the others.
unfoldable pub cut : ℕ → List ℕ → List ℕ → List ℕ × List (List ℕ)
cut zero key src = (src, [])
cut (suc fuel) key [] = ([], [])
cut (suc fuel) key (b ∷ bs) = elim (starts_with key (b ∷ bs)) [
  | true ↦ let r = cut fuel key (drop (length key) (b ∷ bs)) in ([], r.0 ∷ r.1)
  | false ↦ let r = cut fuel key bs in (b ∷ r.0, r.1)
]

-- Pieces put together with a text between each two of them.
unfoldable pub joined : List ℕ → List ℕ → List (List ℕ) → List ℕ
joined between p [] = p
joined between p (q ∷ qs) = p ++ (between ++ joined between q qs)

unfoldable pub contains : List ℕ → List ℕ → Bool
contains key [] = starts_with key []
contains key (b ∷ bs) = starts_with key (b ∷ bs) || contains key bs

unfoldable pub none_contains : List ℕ → List ℕ → List (List ℕ) → Bool
none_contains key p [] = not (contains key p)
none_contains key p (q ∷ qs) = not (contains key p) && none_contains key q qs

pub starts_with-split :
    (key src : List ℕ) → starts_with key src ≡ true → src ≡ key ++ drop (length key) src
starts_with-split [] src h = refl
starts_with-split (x ∷ xs) [] h = cc
starts_with-split (x ∷ xs) (y ∷ ys) h = ground (arith, starts_with-split xs ys, h)

pub starts_with-append :
    (key p q : List ℕ) → starts_with key p ≡ true → starts_with key (p ++ q) ≡ true
starts_with-append [] p q h = refl
starts_with-append (x ∷ xs) [] q h = cc
starts_with-append (x ∷ xs) (y ∷ ys) q h = ground (arith, starts_with-append xs ys q, h)

joined-cons :
    (between p : List ℕ) (qs : List (List ℕ)) (b : ℕ)
    → joined between (b ∷ p) qs ≡ b ∷ joined between p qs
unfolding joined
joined-cons between p [] b = refl
joined-cons between p (q ∷ qs) b = refl

-- The first piece is what the text starts with.
joined-first :
    (between p : List ℕ) (qs : List (List ℕ)) → (r : List ℕ) × (joined between p qs ≡ p ++ r)
unfolding joined
joined-first between p [] = ([], sym (append-nil p))
joined-first between p (q ∷ qs) = (between ++ joined between q qs, refl)

none_contains-cons :
    (key p : List ℕ) (qs : List (List ℕ)) (b : ℕ)
    → starts_with key (b ∷ p) ≡ false
    → none_contains key p qs ≡ true
    → none_contains key (b ∷ p) qs ≡ true
unfolding none_contains contains
none_contains-cons key p [] b h k = ground (arith, h, k)
none_contains-cons key p (q ∷ qs) b h k = ground (arith, h, k)

none_contains-nil :
    (s : ℕ) (key : List ℕ) (q : List ℕ) (qs : List (List ℕ))
    → none_contains (s ∷ key) q qs ≡ true
    → none_contains (s ∷ key) [] (q ∷ qs) ≡ true
unfolding none_contains contains
none_contains-nil s key q qs h = h

abbrev IsCut : List ℕ → List ℕ → List ℕ × List (List ℕ) → Type 0
IsCut key src r = (joined key r.0 r.1 ≡ src) × (none_contains key r.0 r.1 ≡ true)

pub starts_with-append_false :
    (key p q : List ℕ) → starts_with key (p ++ q) ≡ false → starts_with key p ≡ false
starts_with-append_false key p q h = elim (Bool-cases (starts_with key p)) [
  | inl yes' ↦ absurd (cc (h, starts_with-append key p q yes'))
  | inr no' ↦ no'
]

not_at_piece :
    (fuel s : ℕ) (key bs : List ℕ) (b : ℕ)
    → joined (s ∷ key) (cut fuel (s ∷ key) bs).0 (cut fuel (s ∷ key) bs).1 ≡ bs
    → starts_with (s ∷ key) (b ∷ bs) ≡ false
    → starts_with (s ∷ key) (b ∷ (cut fuel (s ∷ key) bs).0) ≡ false
not_at_piece fuel s key bs b j other =
    let (r, e) = joined-first (s ∷ key) (cut fuel (s ∷ key) bs).0 (cut fuel (s ∷ key) bs).1 in
    starts_with-append_false (s ∷ key) (b ∷ (cut fuel (s ∷ key) bs).0) r
      (ap (λ t. starts_with (s ∷ key) (b ∷ t)) (sym e ∙ j) ∙ other)

cut-IsCut :
    (fuel s : ℕ) (key src : List ℕ)
    → length src ≤ fuel
    → IsCut (s ∷ key) src (cut fuel (s ∷ key) src)
unfolding cut joined none_contains contains
cut-IsCut zero s key [] h = (refl, refl)
cut-IsCut zero s key (b ∷ bs) h = absurd (omega arith)
cut-IsCut (suc fuel) s key [] h = (refl, refl)
cut-IsCut (suc fuel) s key (b ∷ bs) h = elim (Bool-cases (starts_with (s ∷ key) (b ∷ bs))) [
  | inl found ↦
      let (j, n) =
        cut-IsCut fuel s key (drop (length key) bs) (omega (arith, length-drop (length key) bs)) in
      rw (found, cut)
        (ap (λ r. s ∷ (key ++ r)) j ∙ sym (starts_with-split (s ∷ key) (b ∷ bs) found), n)
  | inr other ↦
      let (j, n) = cut-IsCut fuel s key bs (omega arith) in
      rw (other, cut)
        (
          joined-cons (s ∷ key) (cut fuel (s ∷ key) bs).0 (cut fuel (s ∷ key) bs).1 b
              ∙ ap (λ r. b ∷ r) j,
          none_contains-cons (s ∷ key) (cut fuel (s ∷ key) bs).0 (cut fuel (s ∷ key) bs).1 b
              (not_at_piece fuel s key bs b j other) n,
        )
]

cut_few : (fuel s : ℕ) (key src : List ℕ) → length (cut fuel (s ∷ key) src).1 ≤ fuel
unfolding cut
cut_few zero s key src = omega arith
cut_few (suc fuel) s key [] = omega arith
cut_few (suc fuel) s key (b ∷ bs) = elim (Bool-cases (starts_with (s ∷ key) (b ∷ bs))) [
  | inl found ↦ rw (found, cut) (omega (arith, cut_few fuel s key (drop (length key) bs)))
  | inr other ↦ rw (other, cut) (omega (arith, cut_few fuel s key bs))
]

tally_from-cut :
    (fuel : ℕ) (key src : List ℕ) → tally_from fuel false key src ≡ length (cut fuel key src).1
unfolding tally_from cut
tally_from-cut zero key src = refl
tally_from-cut (suc fuel) key [] = refl
tally_from-cut (suc fuel) key (b ∷ bs) = elim (Bool-cases (starts_with key (b ∷ bs))) [
  | inl found ↦
      rw (found, tally_from, cut) (ap suc (tally_from-cut fuel key (drop (length key) (b ∷ bs))))
  | inr other ↦ rw (other, tally_from, cut) (tally_from-cut fuel key bs)
]

replace_from-cut :
    (fuel : ℕ) (key replacement src : List ℕ)
    → replace_from fuel 1 key replacement src
      ≡ joined (overwrite key replacement) (cut fuel key src).0 (cut fuel key src).1
unfolding replace_from cut joined
replace_from-cut zero key replacement src = refl
replace_from-cut (suc fuel) key replacement [] = refl
replace_from-cut (suc fuel) key replacement (b ∷ bs) =
    elim (Bool-cases (starts_with key (b ∷ bs))) [
      | inl found ↦
          rw (found, replace_from, cut)
            (ap (λ r. overwrite key replacement ++ r)
              (replace_from-cut fuel key replacement (drop (length key) (b ∷ bs))))
      | inr other ↦
          rw (other, replace_from, cut)
            (ap (λ r. b ∷ r) (replace_from-cut fuel key replacement bs)
              ∙ sym (
                  joined-cons (overwrite key replacement) (cut fuel key bs).0 (cut fuel key bs).1
                    b))
    ]

-- TALLYING ALL and REPLACING ALL go by the same cut of a text, of less than 2^32 bytes: there are
-- pieces, none of which contains the key, that give the text when they are put together with the
-- key between them, the tally counts the places between two pieces, and the replaced text is the
-- same pieces with the overwritten key between them.
pub inspect-cut :
    (s : ℕ) (key replacement src : List ℕ)
    → length src < 2 ^ 32
    → let (p, ps) = cut (length src) (s ∷ key) src in
      (joined (s ∷ key) p ps ≡ src)
      × (none_contains (s ∷ key) p ps ≡ true)
      × (cobol_inspect_tallying 1 (s ∷ key) src ≡ length ps)
      × (cobol_inspect_replacing 1 (s ∷ key) replacement src
          ≡ joined (overwrite (s ∷ key) replacement) p ps)
unfolding cobol_inspect_tallying cobol_inspect_replacing
inspect-cut s key replacement src h =
    let (j, n) = cut-IsCut (length src) s key src (omega arith) in
    (
      j,
      n,
      omega (arith, h, tally_from-cut (length src) (s ∷ key) src, cut_few (length src) s key src),
      replace_from-cut (length src) (s ∷ key) replacement src,
    )
