-- ===== src/Strings/Unstring/Resume.antt =====
-- crates/cobol-runtime/src/string_ops.rs: UNSTRING goes on where its POINTER says.
use rust_cobol.Prelude.{
  ℕ, zero, suc, ◌+◌, ◌-◌, ◌^◌, ◌<◌, ◌≡◌, refl, sym, ap, ◌∙◌, inl, inr, true, Option, some, List, [],
  ◌∷◌, ◌++◌, arith, leb, leb→le, length, take, drop, length-append, take-append-drop,
}
use rust_cobol.Prelude.Words.{u32}
use mathlib.Core.List.{append_assoc}
use rust_cobol.Prelude.{choose, drop-append}
use rust_cobol.Strings.Unstring.{
  find_unstring_delimiter, field_end, receive, skip_delimiter, UnstringTarget, Delimiters, Split,
  unstring_from, Unstrung, cobol_unstring, start_of, delimiter_bytes,
}
use rust_cobol.Strings.Unstring.Cutting.{IsUnstrung, repeated, unstring_from-IsUnstrung}

unstring_from_nil :
    (d : Delimiters) (targets : List UnstringTarget) → (unstring_from d targets []).received ≡ []
unfolding unstring_from
unstring_from_nil d [] = refl
unstring_from_nil d (t ∷ ts) = refl

unstring_from-append :
    (d : Delimiters) (a b : List UnstringTarget) (src : List ℕ)
    → (unstring_from d (a ++ b) src).received
      ≡ (unstring_from d a src).received
        ++ (unstring_from d b (unstring_from d a src).rest).received
unfolding unstring_from
unstring_from-append d [] b src = refl
unstring_from-append d (t ∷ a) b [] = sym (unstring_from_nil d b)
unstring_from-append d (t ∷ a) b (c ∷ cs) =
    let found = find_unstring_delimiter (c ∷ cs) d.single_delim d.sources in
    let end = field_end d t found (c ∷ cs) in
    ap (λ r. receive t (take end (c ∷ cs)) found ∷ r)
      (unstring_from-append d a b (skip_delimiter d.collapse_all found (drop end (c ∷ cs))))

-- What is left is the end of the source.
suffix :
    (d : Delimiters) (targets : List UnstringTarget) (src : List ℕ) (s : Split)
    → IsUnstrung d targets src s
    → (taken : List ℕ) × (src ≡ taken ++ s.rest)
suffix d [] src s (none', rest, fits) = ([], sym rest)
suffix d (t ∷ targets) src s (inl (empty, none', rest, fits)) = ([], empty ∙ sym rest)
suffix d (t ∷ targets) src s
      (inr (
        field,
        (
          found,
          (
            n,
            (
              rest',
              (later, (more, first, cut, absent, whole, skipped, received, rest, over, behind)),
            ),
          ),
        ),
      )) =
    let (taken, e) = suffix d targets rest' later behind in
    let gap = repeated n (delimiter_bytes found) in
    (
      field ++ (gap ++ taken),
      whole
          ∙ ap (λ r. field ++ (gap ++ r)) (e ∙ ap (λ r. taken ++ r) (sym rest))
          ∙ ap (λ r. field ++ r) (sym (append_assoc gap taken s.rest))
          ∙ sym (append_assoc field (gap ++ taken) s.rest),
    )

drop_to : (taken rest : List ℕ) → drop (length (taken ++ rest) - length rest) (taken ++ rest) ≡ rest
drop_to taken rest =
    ap (λ n. drop n (taken ++ rest)) (omega (arith, length-append taken rest))
    ∙ drop-append taken rest

-- The new place in the source is where the rest starts.
drop-rest :
    (d : Delimiters) (targets : List UnstringTarget) (src : List ℕ) (start : ℕ)
    → let rest = (unstring_from d targets (drop start src)).rest in
      drop (length src - length rest) src ≡ rest
drop-rest d targets src start =
    let s = unstring_from d targets (drop start src) in
    let (taken, e) =
      suffix d targets (drop start src) s (unstring_from-IsUnstrung d targets (drop start src)) in
    let whole : src ≡ (take start src ++ taken) ++ s.rest =
      sym (take-append-drop start src)
      ∙ ap (λ r. take start src ++ r) e
      ∙ sym (append_assoc (take start src) taken s.rest) in
    ap (λ x. drop (length x - length s.rest) x) whole ∙ drop_to (take start src ++ taken) s.rest

received_from :
    (src : List ℕ) (targets : List UnstringTarget) (pointer tallying : Option ℕ) (d : Delimiters)
    → (cobol_unstring src targets pointer tallying d).received
      ≡ (unstring_from d targets (drop (start_of pointer) src)).received
unfolding cobol_unstring
received_from src targets pointer tallying d =
    choose
      (λ (u : Unstrung).
        u.received ≡ (unstring_from d targets (drop (start_of pointer) src)).received)
      (leb (length src) (start_of pointer))
      (λ past. sym (
        ap (λ r. (unstring_from d targets r).received) (drop_past (start_of pointer) src past)
        ∙ unstring_from_nil d targets))
      (λ inside. refl)
  where
    drop_past : (n : ℕ) (a : List ℕ) → leb (length a) n ≡ true → drop n a ≡ []
    drop_past zero [] h = refl
    drop_past (suc n) [] h = refl
    drop_past zero (x ∷ a) h = absurd (omega (arith, leb→le (suc (length a)) 0 h))
    drop_past (suc n) (x ∷ a) h = drop_past n a (ground (arith, h))

new_pointer :
    (src : List ℕ) (a : List UnstringTarget) (p : ℕ) (t : Option ℕ) (d : Delimiters)
    → p - 1 < length src
    → (cobol_unstring src a (some p) t d).pointer
      ≡ some (u32 (length src - length (unstring_from d a (drop (p - 1) src)).rest + 1))
unfolding cobol_unstring
new_pointer src a p t d inside =
    let rest = (unstring_from d a (drop (p - 1) src)).rest in
    choose (λ (u : Unstrung). u.pointer ≡ some (u32 (length src - length rest + 1)))
      (leb (length src) (p - 1))
      (λ past. absurd (omega (arith, inside, leb→le (length src) (p - 1) past))) (λ within. refl)

-- UNSTRING into some targets and then, from the POINTER that it leaves, into others gives them what
-- one UNSTRING into all of them gives, on a source shorter than 2^32 - 1 bytes and from a POINTER
-- within it.
pub cobol_unstring-resume :
    (src : List ℕ) (a b : List UnstringTarget) (p : ℕ) (t t' t'' : Option ℕ) (d : Delimiters)
    → length src + 1 < 2 ^ 32
    → p - 1 < length src
    → let first = cobol_unstring src a (some p) t d in
      (cobol_unstring src (a ++ b) (some p) t'' d).received
      ≡ first.received ++ (cobol_unstring src b first.pointer t' d).received
cobol_unstring-resume src a b p t t' t'' d short inside =
    let s = unstring_from d a (drop (p - 1) src) in
    let first = cobol_unstring src a (some p) t d in
    let pos = length src - length s.rest in
    received_from src (a ++ b) (some p) t'' d
    ∙ unstring_from-append d a b (drop (p - 1) src)
    ∙ ap (λ r. r ++ (unstring_from d b s.rest).received) (sym (received_from src a (some p) t d))
    ∙ ap (λ r. first.received ++ r)
        (ap (λ r. (unstring_from d b r).received) (sym (drop-rest d a src (p - 1)))
          ∙ sym (
              received_from src b first.pointer t' d
              ∙ ap (λ q. (unstring_from d b (drop (start_of q) src)).received)
                  (new_pointer src a p t d inside)
              ∙ ap (λ n. (unstring_from d b (drop n src)).received) (back src s.rest short)))
  where
    back :
        (src rest : List ℕ)
        → length src + 1 < 2 ^ 32
        → u32 (length src - length rest + 1) - 1 ≡ length src - length rest
    back src rest h = omega (arith, h)
