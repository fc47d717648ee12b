-- ===== src/Strings/Concat.antt =====
-- crates/cobol-runtime/src/string_ops.rs: the STRING statement.
use rust_cobol.Prelude.{
  ℕ, zero, suc, ◌+◌, ◌-◌, ◌≤◌, ◌<◌, min, ◌≡◌, refl, sym, ap, ◌∙◌, ◌⊎◌, inl, inr, Bool, true, false,
  ◌||◌, Option, none, some, List, [], ◌∷◌, ◌++◌, arith, ltb, leb, if◌then◌else◌, Bool-cases, length,
  set, take, length-set,
}
use rust_cobol.Prelude.Words.{u32}
use mathlib.Core.Path.{subst}
use rust_cobol.Strings.Inspect.{starts_with}
use rust_cobol.Strings.Inspect.Cut.{contains, starts_with-append_false}

-- `CobolStringSource`; no delimiter stands for DELIMITED BY SIZE.
pub record StringSource : Type 0 where
  pub bytes : List ℕ
  pub delimiter : Option (List ℕ)

abbrev pub next : Option ℕ → Option ℕ
next none = none
next (some n) = some (suc n)

-- `windows(delim.len()).position(|w| w == delim)`, of a delimiter that is not empty.
unfoldable pub position_of : List ℕ → List ℕ → Option ℕ
position_of delim [] = none
position_of delim (b ∷ bs) =
    if starts_with delim (b ∷ bs) then some 0 else next (position_of delim bs)

unfoldable pub find_delimiter : List ℕ → List ℕ → Option ℕ
find_delimiter bytes [] = none
find_delimiter bytes (d ∷ delim) = position_of (d ∷ delim) bytes

abbrev pub up_to : List ℕ → Option ℕ → List ℕ
up_to bytes none = bytes
up_to bytes (some n) = take n bytes

-- The data of a source up to its delimiter.
unfoldable pub effective : StringSource → List ℕ
effective s = elim s.delimiter [
  | none ↦ s.bytes
  | some delim ↦ up_to s.bytes (find_delimiter s.bytes delim)
]

-- The destination, the next position in it, from 0, and whether it was full.
pub record Output : Type 0 where
  pub position : ℕ
  pub bytes : List ℕ
  pub overflow : Bool

-- The loop over the bytes of one source.
unfoldable pub put_bytes : List ℕ → ℕ → List ℕ → Output
put_bytes [] position dst = record { position = position; bytes = dst; overflow = false }
put_bytes (b ∷ bs) position dst =
    let rest = put_bytes bs (position + 1) (set dst position b) in
    if leb (length dst) position
    then record { position = position; bytes = dst; overflow = true }
    else rest

-- The loop over the sources, which the first overflow ends.
unfoldable pub put_sources : List StringSource → ℕ → List ℕ → Output
put_sources [] position dst = record { position = position; bytes = dst; overflow = false }
put_sources (s ∷ ss) position dst =
    let r = put_bytes (effective s) position dst in
    let rest = put_sources ss r.position r.bytes in if r.overflow then r else rest

-- The return code, the destination and the pointer, which counts from 1.
unfoldable pub cobol_string_concat : List StringSource → List ℕ → ℕ → ℕ × List ℕ × ℕ
cobol_string_concat sources dst pointer =
    let r = put_sources sources (pointer - 1) dst in
    (if r.overflow then 1 else 0, r.bytes, u32 (r.position + 1))

-- What all sources send, one behind the other.
unfoldable pub text_of : List StringSource → List ℕ
text_of [] = []
text_of (s ∷ ss) = effective s ++ text_of ss

-- A text laid over a field from a position on, as far as the field reaches.
unfoldable pub overlay : ℕ → List ℕ → List ℕ → List ℕ
overlay position text [] = []
overlay (suc position) text (d ∷ dst) = d ∷ overlay position text dst
overlay zero [] (d ∷ dst) = d ∷ dst
overlay zero (t ∷ text) (d ∷ dst) = t ∷ overlay zero text dst

put_bytes-append :
    (a b : List ℕ) (position : ℕ) (dst : List ℕ)
    → put_bytes (a ++ b) position dst ≡ (
        if (put_bytes a position dst).overflow
        then put_bytes a position dst
        else put_bytes b (put_bytes a position dst).position (put_bytes a position dst).bytes)
unfolding put_bytes
put_bytes-append [] b position dst = refl
put_bytes-append (x ∷ a) b position dst = elim (Bool-cases (leb (length dst) position)) [
  | inl full ↦ rw full refl
  | inr room ↦ rw room (put_bytes-append a b (position + 1) (set dst position x))
]

put_sources-text_of :
    (ss : List StringSource) (position : ℕ) (dst : List ℕ)
    → put_sources ss position dst ≡ put_bytes (text_of ss) position dst
unfolding put_sources text_of put_bytes
put_sources-text_of [] position dst = refl
put_sources-text_of (s ∷ ss) position dst =
    let joined : put_bytes (effective s ++ text_of ss) position dst ≡ (
        if (put_bytes (effective s) position dst).overflow
        then put_bytes (effective s) position dst
        else put_bytes (text_of ss) (put_bytes (effective s) position dst).position
            (put_bytes (effective s) position dst).bytes) =
      put_bytes-append (effective s) (text_of ss) position dst in
    rw joined (elim (Bool-cases (put_bytes (effective s) position dst).overflow) [
      | inl full ↦ rw full refl
      | inr room ↦ rw room (
          put_sources-text_of ss (put_bytes (effective s) position dst).position
            (put_bytes (effective s) position dst).bytes)
    ])

overlay-nil : (position : ℕ) (dst : List ℕ) → overlay position [] dst ≡ dst
unfolding overlay
overlay-nil position [] = refl
overlay-nil (suc position) (d ∷ dst) = ap (λ r. d ∷ r) (overlay-nil position dst)
overlay-nil zero (d ∷ dst) = refl

overlay_past :
    (position : ℕ) (text dst : List ℕ) → length dst ≤ position → overlay position text dst ≡ dst
unfolding overlay
overlay_past position text [] h = refl
overlay_past (suc position) text (d ∷ dst) h =
    ap (λ r. d ∷ r) (overlay_past position text dst (omega arith))
overlay_past zero text (d ∷ dst) h = absurd (omega arith)

overlay-set :
    (position b : ℕ) (bs dst : List ℕ)
    → position < length dst
    → overlay (suc position) bs (set dst position b) ≡ overlay position (b ∷ bs) dst
unfolding overlay
overlay-set position b bs [] h = refl
overlay-set (suc position) b bs (d ∷ dst) h =
    ap (λ r. d ∷ r) (overlay-set position b bs dst (omega arith))
overlay-set zero b bs (d ∷ dst) h = refl

put_bytes-overlay :
    (text : List ℕ) (position : ℕ) (dst : List ℕ)
    → put_bytes text position dst ≡ record {
      position = position + min (length dst - position) (length text);
      bytes = overlay position text dst;
      overflow = ltb (length dst - position) (length text);
    }
unfolding put_bytes
put_bytes-overlay [] position dst = ground (arith, overlay-nil position dst)
put_bytes-overlay (b ∷ bs) position dst = elim (Bool-cases (leb (length dst) position)) [
  | inl full ↦ rw full (ground (arith, full, overlay_past position (b ∷ bs) dst))
  | inr room ↦ rw room (
      ground (
        arith,
        room,
        put_bytes-overlay bs (position + 1) (set dst position b),
        overlay-set position b bs dst,
        length-set dst position b,
      ))
]

-- STRING lays the data of all its sources, one behind the other, over the destination from the
-- pointer on: what is before the pointer and behind the data stays, the return code is 1 exactly
-- when the data reach beyond the destination, and the pointer, a u32, moves past what was written.
pub string_concat-overlay :
    (sources : List StringSource) (dst : List ℕ) (pointer : ℕ)
    → let text = text_of sources in
      let position = pointer - 1 in
      let room = length dst - position in
      cobol_string_concat sources dst pointer ≡ (
        if ltb room (length text) then 1 else 0,
        overlay position text dst,
        u32 (position + min room (length text) + 1),
      )
unfolding cobol_string_concat
string_concat-overlay sources dst pointer =
    rw (put_sources-text_of sources (pointer - 1) dst)
      (rw (put_bytes-overlay (text_of sources) (pointer - 1) dst) refl)

pub position_of-found :
    (delim : List ℕ) (b : ℕ) (bs : List ℕ)
    → starts_with delim (b ∷ bs) ≡ true
    → position_of delim (b ∷ bs) ≡ some 0
unfolding position_of
position_of-found delim b bs h = rw h

pub position_of-next :
    (delim : List ℕ) (b : ℕ) (bs : List ℕ)
    → starts_with delim (b ∷ bs) ≡ false
    → position_of delim (b ∷ bs) ≡ next (position_of delim bs)
unfolding position_of
position_of-next delim b bs h = rw h

up_to-next : (b : ℕ) (bs : List ℕ) (o : Option ℕ) → up_to (b ∷ bs) (next o) ≡ b ∷ up_to bs o
up_to-next b bs none = refl
up_to-next b bs (some n) = refl

-- An occurrence starts before the place `n`.
unfoldable pub occurs_before : ℕ → List ℕ → List ℕ → Bool
occurs_before zero delim bytes = false
occurs_before (suc n) delim [] = false
occurs_before (suc n) delim (b ∷ bs) = starts_with delim (b ∷ bs) || occurs_before n delim bs

abbrev pub EndsAt : List ℕ → List ℕ → List ℕ → Type 0
EndsAt delim bytes eff =
    (contains delim eff ≡ false)
    × (occurs_before (length eff) delim bytes ≡ false)
    × ((r : List ℕ) × ((bytes ≡ eff ++ r) × ((r ≡ []) ⊎ (starts_with delim r ≡ true))))

pub position_of_ends :
    (d : ℕ) (delim bytes : List ℕ)
    → EndsAt (d ∷ delim) bytes (up_to bytes (position_of (d ∷ delim) bytes))
unfolding position_of contains occurs_before
position_of_ends d delim [] = (refl, refl, ([], (refl, inl refl)))
position_of_ends d delim (b ∷ bs) = elim (Bool-cases (starts_with (d ∷ delim) (b ∷ bs))) [
  | inl found ↦
      subst (λ o. EndsAt (d ∷ delim) (b ∷ bs) (up_to (b ∷ bs) o))
        (sym (position_of-found (d ∷ delim) b bs found)) (refl, refl, (b ∷ bs, (refl, inr found)))
  | inr other ↦
      let (clear, first, tail) = position_of_ends d delim bs in
      let (r, split) = tail in
      let (e, rest) = split in
      subst (λ x. EndsAt (d ∷ delim) (b ∷ bs) x)
        (sym (
          ap (λ o. up_to (b ∷ bs) o) (position_of-next (d ∷ delim) b bs other)
          ∙ up_to-next b bs (position_of (d ∷ delim) bs)))
        (
          ground (
            arith,
            clear,
            starts_with-append_false (d ∷ delim) (b ∷ up_to bs (position_of (d ∷ delim) bs)) r
                (ap (λ t. starts_with (d ∷ delim) (b ∷ t)) (sym e) ∙ other),
          ),
          ground (arith, other, first),
          (r, (ap (λ t. b ∷ t) e, rest)),
        )
]

-- What a source DELIMITED BY a text sends ends where the first occurrence of the text starts, no
-- other starting before it, or is all of the source where there is none, and does not contain the
-- text; a source without a delimiter, or
-- with an empty one, sends all of its bytes.
pub effective_ends :
    (bytes delim : List ℕ) (d : ℕ)
    → EndsAt (d ∷ delim) bytes (effective (record { bytes = bytes; delimiter = some (d ∷ delim) }))
      × (effective (record { bytes = bytes; delimiter = some [] }) ≡ bytes)
      × (effective (record { bytes = bytes; delimiter = none }) ≡ bytes)
unfolding effective find_delimiter
effective_ends bytes delim d = (position_of_ends d delim bytes, refl, refl)
