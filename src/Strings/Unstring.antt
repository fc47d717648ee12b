-- ===== src/Strings/Unstring.antt =====
-- crates/cobol-runtime/src/string_ops.rs: the UNSTRING statement.
pub mod Fields
pub mod First
pub mod Found
pub mod Cutting
pub mod Resume
use rust_cobol.Prelude.{
  ℕ, zero, suc, ◌+◌, ◌-◌, ◌*◌, ◌/◌, ◌%◌, ◌^◌, ◌≤◌, ◌<◌, min, max, ◌≡◌, refl, sym, ap, ◌∙◌, ◌≢◌, ◌↔◌,
  ◌⊎◌, inl, inr, Bool, true, false, not, ◌&&◌, ◌||◌, Option, none, some, List, [], ◌∷◌, ◌++◌, map,
  arith, ltb, leb, ◌==◌, if◌then◌else◌, ltb→lt, lt→ltb, leb→le, Bool-cases, Option-cases, length,
  get_elem?, set, take, drop, replicate, length-append, get_or, length-set, get_elem?-set_self,
  get_elem?-set_ne, take-append-drop, length-take, length-drop, length-replicate, length-map,
  get_elem?-append_last, get_elem?-length,
}
use rust_cobol.Prelude.Text.{
  Text, codes, text_eq, is_ascii_digit, is_ascii_uppercase, is_ascii_lowercase,
  is_ascii_alphanumeric, is_ascii_whitespace, to_ascii_uppercase, to_ascii_lowercase, uppercase,
  text_eq_refl, eq_of_text_eq, parse_unsigned,
}
use rust_cobol.Prelude.Words.{
  u32, wrap_i32, wrap_i64, wrap_i128, wrap_i32_self, wrap_i64_self, wrap_i128_self,
}
use rust_cobol.Prelude.Int.{
  ℤ, pos, negsuc, pos_part, neg_part, sub_ℕ, ◌+ℤ◌, ◌-ℤ◌, ◌*ℤ◌, quot, ◌≤ℤ◌, ltb_ℤ, +ℤ_comm, *ℤ_comm,
  +ℤ_parts, -ℤ_parts, eq_of_parts, int_laws,
}
use rust_cobol.Strings.Inspect.{starts_with}
use rust_cobol.Strings.Concat.{find_delimiter}
use rust_cobol.Strings.Zoned.{cobol_display_to_int64}

-- `CobolUnstringTarget`, with what the caller asks for; every buffer is filled whole.
pub record UnstringTarget : Type 0 where
  pub len : ℕ
  pub delimiter_len : Option ℕ
  pub wants_count : Bool
  pub kind : ℕ

pub data Moved : Type 0 where
  text : List ℕ → Moved
  number : ℤ → Moved

-- What a target, its delimiter and its count receive.
pub record Received : Type 0 where
  pub value : Moved
  pub delimiter : Option (List ℕ)
  pub count : Option ℕ

abbrev pub Match : Type 0
Match = Option (ℕ × List ℕ)

-- One more delimiter, with the place where it is found.
abbrev pub nearer : Match → List ℕ → Option ℕ → Match
nearer best delim none = best
nearer none delim (some idx) = some (idx, delim)
nearer (some b) delim (some idx) = if ltb idx b.0 then some (idx, delim) else some b

unfoldable pub best_of : List ℕ → Match → List (List ℕ) → Match
best_of bytes best [] = best
best_of bytes best (delim ∷ sources) =
    best_of bytes (nearer best delim (find_delimiter bytes delim)) sources

abbrev pub single_match : List ℕ → Option (List ℕ) → Match
single_match bytes none = none
single_match bytes (some delim) = nearer none delim (find_delimiter bytes delim)

-- `single_delim` and the bytes of the delimiter sources.
unfoldable pub find_unstring_delimiter : List ℕ → Option (List ℕ) → List (List ℕ) → Match
find_unstring_delimiter bytes single_delim sources =
    best_of bytes (single_match bytes single_delim) sources

-- The field's data moved to the target.
unfoldable pub move_field : UnstringTarget → List ℕ → Moved
move_field tgt field =
    let copy_len = min (length field) tgt.len in
    let right = drop (length field - copy_len) field in
    if tgt.kind == 1
    then text (replicate (tgt.len - copy_len) 32 ++ right)
    else if tgt.kind == 2
    then number (cobol_display_to_int64 right)
    else text (take copy_len field ++ replicate (tgt.len - copy_len) 32)

abbrev pub delimiter_bytes : Match → List ℕ
delimiter_bytes none = []
delimiter_bytes (some m) = m.1

abbrev filled : ℕ → List ℕ → List ℕ
filled n bytes = let d_copy = min (length bytes) n in take d_copy bytes ++ replicate (n - d_copy) 32

abbrev delimiter_field : Match → Option ℕ → Option (List ℕ)
delimiter_field found none = none
delimiter_field found (some n) = some (filled n (delimiter_bytes found))

unfoldable pub receive : UnstringTarget → List ℕ → Match → Received
receive tgt field found = record {
  value = move_field tgt field;
  delimiter = delimiter_field found tgt.delimiter_len;
  count = if tgt.wants_count then some (u32 (length field)) else none;
}

-- `collapse_all`: past the repetitions of a delimiter.
unfoldable pub skip_repeats : ℕ → List ℕ → List ℕ → List ℕ
skip_repeats zero delim rest = rest
skip_repeats (suc fuel) delim rest = elim (starts_with delim rest) [
  | true ↦ skip_repeats fuel delim (drop (length delim) rest)
  | false ↦ rest
]

abbrev pub skip_delimiter : Bool → Match → List ℕ → List ℕ
skip_delimiter collapse none rest = rest
skip_delimiter collapse (some m) rest =
    let after = drop (length m.1) rest in
    if collapse && not (length m.1 == 0) then skip_repeats (length after) m.1 after else after

-- The delimiters of the statement, and whether repetitions of one count once.
pub record Delimiters : Type 0 where
  pub single_delim : Option (List ℕ)
  pub sources : List (List ℕ)
  pub collapse_all : Bool

abbrev pub given : Option (List ℕ) → List (List ℕ) → Bool
given none [] = false
given none (s ∷ sources) = true
given (some d) sources = true

abbrev pub has_delimiter : Delimiters → Bool
has_delimiter d = given d.single_delim d.sources

abbrev pub field_end : Delimiters → UnstringTarget → Match → List ℕ → ℕ
field_end d tgt (some m) rest = m.0
field_end d tgt none rest = if has_delimiter d then length rest else min tgt.len (length rest)

-- What the targets received, what is left of the source, and whether a field was cut.
pub record Split : Type 0 where
  pub received : List Received
  pub rest : List ℕ
  pub overflow : Bool

-- The loop over the targets, which ends where nothing is left.
unfoldable pub unstring_from : Delimiters → List UnstringTarget → List ℕ → Split
unstring_from d [] rest = record { received = []; rest = rest; overflow = false }
unstring_from d (tgt ∷ targets) [] = record { received = []; rest = []; overflow = false }
unstring_from d (tgt ∷ targets) (b ∷ bs) =
    let found = find_unstring_delimiter (b ∷ bs) d.single_delim d.sources in
    let end = field_end d tgt found (b ∷ bs) in
    let field = take end (b ∷ bs) in
    let later = unstring_from d targets (skip_delimiter d.collapse_all found (drop end (b ∷ bs))) in
    record {
      received = receive tgt field found ∷ later.received;
      rest = later.rest;
      overflow = ltb tgt.len (length field) || later.overflow;
    }

-- The return code, what the targets receive, and the new values of POINTER and TALLYING.
pub record Unstrung : Type 0 where
  pub code : ℕ
  pub received : List Received
  pub pointer : Option ℕ
  pub tallying : Option ℕ

abbrev pub start_of : Option ℕ → ℕ
start_of none = 0
start_of (some p) = p - 1

abbrev updated : Option ℕ → ℕ → Option ℕ
updated none n = none
updated (some old) n = some n

abbrev added : Option ℕ → ℕ → Option ℕ
added none n = none
added (some old) n = some (u32 (old + n))

unfoldable pub cobol_unstring :
    List ℕ → List UnstringTarget → Option ℕ → Option ℕ → Delimiters → Unstrung
cobol_unstring src targets pointer tallying d =
    let start = start_of pointer in
    let s = unstring_from d targets (drop start src) in
    let pos = length src - length s.rest in
    if leb (length src) start
    then record { code = 1; received = []; pointer = pointer; tallying = tallying }
    else record {
      code = if s.overflow || ltb pos (length src) then 1 else 0;
      received = s.received;
      pointer = updated pointer (u32 (pos + 1));
      tallying = added tallying (u32 (length s.received));
    }
