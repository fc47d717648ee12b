-- ===== src/Common/Standard.antt =====
-- crates/cobol-common/src/cobol_standard.rs: the language standards and their order.
use rust_cobol.Prelude.{
  ℕ, ◌≡◌, refl, ap, sym, ◌∙◌, Bool, true, not, ◌&&◌, ◌||◌, Option, none, some, List, [], ◌∷◌, ◌++◌,
  map, arith, leb, ◌==◌, if◌then◌else◌,
}
use rust_cobol.Prelude.Text.{Text, codes, text_eq, to_ascii_lowercase}

pub data CobolStandard : Type 0 where
  cobol85 cobol2002 cobol2014 cobol2023 : CobolStandard

abbrev pub default : CobolStandard
default = cobol2023

-- `char::is_whitespace`: the Unicode property White_Space.
is_whitespace : ℕ → Bool
is_whitespace c =
    (leb 9 c && leb c 13)
    || (c == 32 || (c == 0x85 || (c == 0xa0 || (c == 0x1680 || (leb 0x2000 c && leb c 0x200a)))))
    || (c == 0x2028 || (c == 0x2029 || (c == 0x202f || (c == 0x205f || c == 0x3000))))

-- The characters that `parse_cli` drops.
unfoldable pub is_dropped : ℕ → Bool
unfolding is_whitespace
is_dropped c = c == b'-' || (c == b'_' || is_whitespace c)

filter_kept : Text → Text
filter_kept [] = []
filter_kept (c ∷ cs) = if is_dropped c then filter_kept cs else c ∷ filter_kept cs

normalized : Text → Text
unfolding filter_kept is_whitespace
normalized value = map to_ascii_lowercase (filter_kept value)

one_of : Text → List Text → Bool
one_of t [] = Bool.false
one_of t (x ∷ xs) = text_eq t x || one_of t xs

-- The arms of the match, in order.
match_name : Text → Option CobolStandard
unfolding one_of
match_name t =
    if one_of t (codes "85" ∷ codes "cobol85" ∷ codes "cobol1985" ∷ codes "1985" ∷ [])
    then some cobol85
    else if one_of t (codes "2002" ∷ codes "cobol2002" ∷ [])
    then some cobol2002
    else if one_of t (codes "2014" ∷ codes "cobol2014" ∷ [])
    then some cobol2014
    else if one_of t (codes "2023" ∷ codes "cobol2023" ∷ [])
    then some cobol2023
    else none

unfoldable pub parse_cli : Text → Option CobolStandard
unfolding normalized match_name
parse_cli value = match_name (normalized value)

unfoldable pub as_cli_str : CobolStandard → Text
as_cli_str cobol85 = codes "cobol85"
as_cli_str cobol2002 = codes "cobol2002"
as_cli_str cobol2014 = codes "cobol2014"
as_cli_str cobol2023 = codes "cobol2023"

rank : CobolStandard → ℕ
rank cobol85 = 85
rank cobol2002 = 102
rank cobol2014 = 114
rank cobol2023 = 123

unfoldable pub allows : CobolStandard → CobolStandard → Bool
unfolding rank
allows s required = leb (rank required) (rank s)

filter_kept-insert :
    (xs ys : Text) (c : ℕ)
    → is_dropped c ≡ true
    → filter_kept (xs ++ c ∷ ys) ≡ filter_kept (xs ++ ys)
unfolding filter_kept
filter_kept-insert [] ys c h = rw h
filter_kept-insert (x ∷ xs) ys c h = rw (filter_kept-insert xs ys c h)

-- A text with a `-`, a `_` or a white space character put in anywhere parses as the text without it.
pub parse_cli-insert :
    (xs ys : Text) (c : ℕ) → is_dropped c ≡ true → parse_cli (xs ++ c ∷ ys) ≡ parse_cli (xs ++ ys)
unfolding parse_cli
parse_cli-insert xs ys c h = rw (filter_kept-insert xs ys c h)

parse_cli-as_cli_str_plain : (s : CobolStandard) → parse_cli (as_cli_str s) ≡ some s
unfolding parse_cli as_cli_str is_dropped
parse_cli-as_cli_str_plain cobol85 = refl
parse_cli-as_cli_str_plain cobol2002 = refl
parse_cli-as_cli_str_plain cobol2014 = refl
parse_cli-as_cli_str_plain cobol2023 = refl

-- Every standard's command-line name parses back to it, and so does the name with one dash,
-- underscore or white space character `c` put in after any beginning `xs` of it.
pub parse_cli-as_cli_str :
    (s : CobolStandard) (xs ys : Text) (c : ℕ)
    → as_cli_str s ≡ xs ++ ys
    → is_dropped c ≡ true
    → (parse_cli (as_cli_str s) ≡ some s) × (parse_cli (xs ++ c ∷ ys) ≡ some s)
parse_cli-as_cli_str s xs ys c h d = (
  parse_cli-as_cli_str_plain s,
  parse_cli-insert xs ys c d ∙ ap parse_cli (sym h) ∙ parse_cli-as_cli_str_plain s,
)

-- `==`, as `#[derive(PartialEq)]` gives it.
abbrev pub standard_eq : CobolStandard → CobolStandard → Bool
standard_eq cobol85 cobol85 = true
standard_eq cobol2002 cobol2002 = true
standard_eq cobol2014 cobol2014 = true
standard_eq cobol2023 cobol2023 = true
standard_eq _ _ = Bool.false

-- The standards are totally ordered by `allows`: it is total, transitive, and holds both ways only
-- between a standard and itself.
pub allows_order :
    (a b c : CobolStandard)
    → ((allows a b || allows b a) ≡ true)
      × ((allows a b && allows b c && not (allows a c)) ≡ Bool.false)
      × ((allows a b && allows b a) ≡ standard_eq a b)
unfolding allows
allows_order a b c = (ground arith, ground arith, ground arith)
