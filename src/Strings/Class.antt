-- ===== src/Strings/Class.antt =====
-- crates/cobol-runtime/src/string_ops.rs: the class conditions.
use rust_cobol.Prelude.{
  ℕ, min, max, ◌≡◌, refl, Bool, true, false, not, ◌&&◌, ◌||◌, List, [], ◌∷◌, arith, ltb, leb, ◌==◌,
  if◌then◌else◌, length,
}
use rust_cobol.Prelude.Text.{codes, is_ascii_digit, is_ascii_uppercase, is_ascii_lowercase}

-- The loop of `cobol_is_numeric`; `first` says whether the position is the first one.
numeric_from : Bool → Bool → Bool → List ℕ → Bool
numeric_from first has_digit has_decimal [] = has_digit
numeric_from first has_digit has_decimal (b ∷ bs) =
    let last = length bs == 0 in
    let digit = is_ascii_digit b in
    let rest = numeric_from false (has_digit || digit) (has_decimal || b == b'.') bs in
    if digit
    then rest
    else if b == b'+' || b == b'-'
    then (if not first && not last then false else rest)
    else if b == b'.'
    then (if has_decimal then false else rest)
    else if b == b' '
    then rest
    else false

unfoldable pub cobol_is_numeric : List ℕ → Bool
unfolding numeric_from
cobol_is_numeric [] = false
cobol_is_numeric (b ∷ bs) = numeric_from true false false (b ∷ bs)

abbrev pub all : (ℕ → Bool) → List ℕ → Bool
all p [] = true
all p (b ∷ bs) = p b && all p bs

-- The tests that look at each byte alone; an empty field has no class.
abbrev all_of : (ℕ → Bool) → List ℕ → Bool
all_of p [] = false
all_of p (b ∷ bs) = all p (b ∷ bs)

unfoldable pub cobol_is_numeric_strict : List ℕ → Bool
cobol_is_numeric_strict bytes = all_of is_ascii_digit bytes

unfoldable pub cobol_is_alphabetic : List ℕ → Bool
cobol_is_alphabetic bytes =
    all_of (λ b. is_ascii_uppercase b || is_ascii_lowercase b || b == b' ') bytes

unfoldable pub cobol_is_alphabetic_lower : List ℕ → Bool
cobol_is_alphabetic_lower bytes = all_of (λ b. is_ascii_lowercase b || b == b' ') bytes

unfoldable pub cobol_is_alphabetic_upper : List ℕ → Bool
cobol_is_alphabetic_upper bytes = all_of (λ b. is_ascii_uppercase b || b == b' ') bytes

-- Whether a byte lies in one of the ranges, `chunks_exact(2)` of the list, either end first.
in_ranges : List ℕ → ℕ → Bool
in_ranges [] b = false
in_ranges (low ∷ []) b = false
in_ranges (low ∷ high ∷ ranges) b =
    (leb (min low high) b && leb b (max low high)) || in_ranges ranges b

unfoldable pub cobol_is_custom_class : List ℕ → List ℕ → Bool
unfolding in_ranges
cobol_is_custom_class ranges bytes =
    if ltb (length ranges) 2 then false else all_of (in_ranges ranges) bytes

numeric_from_strict :
    (first has_digit has_decimal : Bool) (bs : List ℕ)
    → all is_ascii_digit bs ≡ true
    → (has_digit || not (length bs == 0)) ≡ true
    → numeric_from first has_digit has_decimal bs ≡ true
unfolding numeric_from
numeric_from_strict first has_digit has_decimal [] h n = ground (arith, n)
numeric_from_strict first has_digit has_decimal (b ∷ bs) h n =
    ground (arith, numeric_from_strict false true has_decimal bs, h)

pub all_mono :
    (p q : ℕ → Bool) (bs : List ℕ)
    → ((b : ℕ) → (not (p b) || q b) ≡ true)
    → (not (all p bs) || all q bs) ≡ true
all_mono p q [] h = refl
all_mono p q (b ∷ bs) h = ground (arith, h b, all_mono p q bs h)

all_eq : (p q : ℕ → Bool) (bs : List ℕ) → ((b : ℕ) → p b ≡ q b) → all p bs ≡ all q bs
all_eq p q [] h = refl
all_eq p q (b ∷ bs) h = ground (arith, h b, all_eq p q bs h)

-- A field of digits is numeric in the wider sense too, a lower-case or upper-case one is alphabetic,
-- and the digits are the custom class of the range 0 to 9, written in either order.
pub class_inclusions :
    (bytes : List ℕ)
    → ((not (cobol_is_numeric_strict bytes) || cobol_is_numeric bytes) ≡ true)
      × ((not (cobol_is_alphabetic_lower bytes) || cobol_is_alphabetic bytes) ≡ true)
      × ((not (cobol_is_alphabetic_upper bytes) || cobol_is_alphabetic bytes) ≡ true)
      × (cobol_is_custom_class (codes "09") bytes ≡ cobol_is_numeric_strict bytes)
      × (cobol_is_custom_class (codes "90") bytes ≡ cobol_is_numeric_strict bytes)
unfolding cobol_is_numeric_strict cobol_is_numeric cobol_is_alphabetic cobol_is_alphabetic_lower
    cobol_is_alphabetic_upper cobol_is_custom_class
class_inclusions [] = (refl, refl, refl, refl, refl)
class_inclusions (b ∷ bs) = (
  ground (arith, numeric_from_strict true false false (b ∷ bs)),
  all_mono (λ c. is_ascii_lowercase c || c == b' ')
      (λ c. is_ascii_uppercase c || is_ascii_lowercase c || c == b' ') (b ∷ bs) (λ c. ground arith),
  all_mono (λ c. is_ascii_uppercase c || c == b' ')
      (λ c. is_ascii_uppercase c || is_ascii_lowercase c || c == b' ') (b ∷ bs) (λ c. ground arith),
  all_eq (in_ranges (codes "09")) is_ascii_digit (b ∷ bs) (λ c. ground arith),
  all_eq (in_ranges (codes "90")) is_ascii_digit (b ∷ bs) (λ c. ground arith),
)
