-- ===== src/Strings/Zoned/Fields.antt =====
-- crates/cobol-runtime/src/string_ops.rs: what the reader makes of DISPLAY fields of digits and signs.
use rust_cobol.Prelude.{
  ℕ, zero, suc, ◌+◌, ◌-◌, ◌*◌, ◌/◌, ◌^◌, ◌<◌, min, ◌≡◌, refl, sym, ap, ◌∙◌, Bool, true, false, not,
  ◌&&◌, ◌||◌, none, some, List, [], ◌∷◌, ◌++◌, arith, ◌==◌, replicate,
}
use rust_cobol.Prelude.Text.{is_ascii_digit}
use rust_cobol.Prelude.Words.{i64_max, saturating_digit}
use mathlib.Core.List.{append-nil, reverse, reverse-append, reverse-reverse}
use rust_cobol.Strings.Class.{all, all_mono}
use rust_cobol.Strings.Zoned.{
  fill_digits, overpunch, Reading, zoned_digit, is_empty, read_digits, reading_value, skip_spaces,
  without_trailing_sign, without_leading_sign, cobol_display_to_int64, is_sign,
}

-- The number that a list of digits stands for, read backwards.
unfoldable pub value_backwards : List ℕ → ℕ
value_backwards [] = 0
value_backwards (b ∷ bs) = (b - b'0') + 10 * value_backwards bs

value_backwards-zeros : (n : ℕ) → value_backwards (replicate n b'0') ≡ 0
unfolding value_backwards
value_backwards-zeros zero = refl
value_backwards-zeros (suc n) = omega (arith, value_backwards-zeros n)

pow10_suc : (k : ℕ) → 10 ^ suc k ≡ 10 * 10 ^ k
pow10_suc k = omega arith

pub fill_digits-value : (k n : ℕ) → n < 10 ^ k → value_backwards (fill_digits k n) ≡ n
unfolding fill_digits value_backwards
fill_digits-value zero n h = omega (arith, h)
fill_digits-value (suc k) n h =
    ground (arith, fill_digits-value k (n / 10), value_backwards-zeros k, smaller)
  where
    smaller : n / 10 < 10 ^ k
    smaller = omega (arith, pow10_suc k, h)

all-replicate : (k : ℕ) → all is_ascii_digit (replicate k b'0') ≡ true
all-replicate zero = refl
all-replicate (suc k) = all-replicate k

pub fill_digits-digits : (k n : ℕ) → all is_ascii_digit (fill_digits k n) ≡ true
unfolding fill_digits
fill_digits-digits zero n = refl
fill_digits-digits (suc k) n = ground (arith, fill_digits-digits k (n / 10), all-replicate k)

-- The digit loop on digits alone.
unfoldable pub fold_digits : ℕ → List ℕ → ℕ
fold_digits value [] = value
fold_digits value (b ∷ bs) = fold_digits (saturating_digit value (b - b'0')) bs

pub fold_digits-append :
    (a b : List ℕ) (v : ℕ) → fold_digits v (a ++ b) ≡ fold_digits (fold_digits v a) b
unfolding fold_digits
fold_digits-append [] b v = refl
fold_digits-append (x ∷ a) b v = fold_digits-append a b (saturating_digit v (x - b'0'))

pub fold_digits-reverse :
    (ds : List ℕ) → fold_digits 0 (reverse ds) ≡ min i64_max (value_backwards ds)
unfolding fold_digits value_backwards saturating_digit
fold_digits-reverse [] = omega arith
fold_digits-reverse (d ∷ ds) =
    ap (λ x. fold_digits 0 x) (reverse-append (d ∷ []) ds)
    ∙ fold_digits-append (reverse ds) (d ∷ []) 0
    ∙ omega (arith, fold_digits-reverse ds)

abbrev pub folded : Reading → List ℕ → Reading
folded r a = record {
  negative = r.negative;
  value = fold_digits r.value a;
  saw_digit = r.saw_digit || not (is_empty a);
}

zoned_digit-digit :
    (edge : Bool) (b : ℕ) → is_ascii_digit b ≡ true → zoned_digit edge b ≡ some (b - b'0', none)
unfolding zoned_digit
zoned_digit-digit edge b h = rw h

and_true : (b : Bool) → (b && true) ≡ b
and_true true = refl
and_true false = refl

and_false : (b : Bool) → (b && false) ≡ false
and_false true = refl
and_false false = refl

or_false : (b : Bool) → (b || false) ≡ b
or_false true = refl
or_false false = refl

pub or_true : (b : Bool) → (b || true) ≡ true
or_true true = refl
or_true false = refl

pub read_digits-append :
    (a b : List ℕ) (first : Bool) (r : Reading)
    → all is_ascii_digit a ≡ true
    → read_digits first r (a ++ b) ≡ read_digits (first && is_empty a) (folded r a) b
unfolding read_digits fold_digits
read_digits-append [] b first r h = rw (and_true first, or_false r.saw_digit) refl
read_digits-append (x ∷ a) b first r h =
    let digit : is_ascii_digit x ≡ true = ground (arith, h) in
    let digits : all is_ascii_digit a ≡ true = ground (arith, h) in
    rw
      (
        zoned_digit-digit (first || is_empty (a ++ b)) x digit,
        and_false first,
        or_true r.saw_digit,
        read_digits,
      )
      (read_digits-append a b false
        (record {
          negative = r.negative;
          value = saturating_digit r.value (x - b'0');
          saw_digit = true;
        })
        digits)

pub read_digits-digits :
    (a : List ℕ) (first : Bool) (r : Reading)
    → all is_ascii_digit a ≡ true
    → read_digits first r a ≡ some (folded r a)
unfolding read_digits
read_digits-digits a first r h =
    ap (λ x. read_digits first r x) (sym (append-nil a)) ∙ read_digits-append a [] first r h

-- A digit with an embedded minus sign, at an edge of the field.
pub zoned_digit-overpunch :
    (b : ℕ) → is_ascii_digit b ≡ true → zoned_digit true (overpunch b) ≡ some (b - b'0', some true)
unfolding zoned_digit overpunch
zoned_digit-overpunch b h = ground (arith, h)

abbrev pub blank : Bool → Reading
blank negative = record { negative = negative; value = 0; saw_digit = false }

pub all-append : (p : ℕ → Bool) (a b : List ℕ) → all p (a ++ b) ≡ (all p a && all p b)
all-append p [] b = refl
all-append p (x ∷ a) b = ground (arith, all-append p a b)

pub all-reverse : (p : ℕ → Bool) (a : List ℕ) → all p (reverse a) ≡ all p a
all-reverse p [] = refl
all-reverse p (x ∷ a) =
    ap (λ r. all p r) (reverse-append (x ∷ []) a)
    ∙ all-append p (reverse a) (x ∷ [])
    ∙ ground (arith, all-reverse p a)

-- The bytes that are no spaces, and those that are no signs either.
abbrev pub no_space : ℕ → Bool
no_space b = not (b == b' ')

abbrev pub is_plain : ℕ → Bool
is_plain b = no_space b && not (is_sign b)

skip_spaces-no_space : (a : List ℕ) → all no_space a ≡ true → skip_spaces a ≡ a
unfolding skip_spaces
skip_spaces-no_space [] h = refl
skip_spaces-no_space (b ∷ bs) h = ground (arith, h)

pub all_imp :
    (p q : ℕ → Bool) (a : List ℕ)
    → ((b : ℕ) → (not (p b) || q b) ≡ true)
    → all p a ≡ true
    → all q a ≡ true
all_imp p q a h k = ground (arith, all_mono p q a h, k)

without_trailing_sign-plain :
    (negative : Bool) (b : List ℕ)
    → all is_plain b ≡ true
    → without_trailing_sign negative b
      ≡ reading_value (read_digits true (blank negative) (reverse b))
unfolding without_trailing_sign
without_trailing_sign-plain negative [] h = refl
without_trailing_sign-plain negative (c ∷ cs) h =
    let plain : is_sign c ≡ false = ground (arith, h) in rw plain refl

-- The field without the spaces around it, where it has none.
to_int64-no_space :
    (f : List ℕ) → all no_space f ≡ true → cobol_display_to_int64 f ≡ without_leading_sign f
unfolding cobol_display_to_int64
to_int64-no_space f h =
    rw
      (
        skip_spaces-no_space f h,
        skip_spaces-no_space (reverse f) (all-reverse no_space f ∙ h),
        reverse-reverse f,
      )
      refl

pub plain_field :
    (f : List ℕ)
    → all is_plain f ≡ true
    → cobol_display_to_int64 f ≡ reading_value (read_digits true (blank false) f)
unfolding without_leading_sign
plain_field f h = to_int64-no_space f (all_imp is_plain no_space f (λ b. ground arith) h) ∙ go f h
  where
    go :
        (f : List ℕ)
        → all is_plain f ≡ true
        → without_leading_sign f ≡ reading_value (read_digits true (blank false) f)
    go [] h = unfold read_digits in refl
    go (c ∷ cs) h =
        let plain : is_sign c ≡ false = ground (arith, h) in
        rw plain (
          without_trailing_sign-plain false (reverse (c ∷ cs)) (all-reverse is_plain (c ∷ cs) ∙ h)
          ∙ ap (λ x. reading_value (read_digits true (blank false) x)) (reverse-reverse (c ∷ cs)))

pub digits_plain : (a : List ℕ) → all is_ascii_digit a ≡ true → all is_plain a ≡ true
digits_plain a h = all_imp is_ascii_digit is_plain a (λ b. ground arith) h

pub leading_field :
    (s : ℕ) (x : List ℕ)
    → is_sign s ≡ true
    → all is_ascii_digit x ≡ true
    → cobol_display_to_int64 (s ∷ x) ≡ reading_value (read_digits true (blank (s == b'-')) x)
unfolding without_leading_sign
leading_field s x h d =
    to_int64-no_space (s ∷ x)
      (ground (arith, h, all_imp is_ascii_digit no_space x (λ b. ground arith) d))
    ∙ rw h (
        without_trailing_sign-plain (s == b'-') (reverse x)
          (all-reverse is_plain x ∙ digits_plain x d)
        ∙ ap (λ y. reading_value (read_digits true (blank (s == b'-')) y)) (reverse-reverse x))

pub trailing_field :
    (s : ℕ) (x : List ℕ)
    → is_sign s ≡ true
    → all is_ascii_digit x ≡ true
    → cobol_display_to_int64 (x ++ s ∷ []) ≡ reading_value (read_digits true (blank (s == b'-')) x)
unfolding without_leading_sign without_trailing_sign
trailing_field s [] h d = leading_field s [] h refl
trailing_field s (c ∷ cs) h d =
    let digit : is_sign c ≡ false = ground (arith, d) in
    to_int64-no_space ((c ∷ cs) ++ s ∷ []) (
      all-append no_space (c ∷ cs) (s ∷ [])
      ∙ ground (arith, h, all_imp is_ascii_digit no_space (c ∷ cs) (λ b. ground arith) d))
    ∙ rw digit (
        ap (λ y. without_trailing_sign false y) (reverse-append (c ∷ cs) (s ∷ []))
        ∙ rw h (
            ap (λ y. reading_value (read_digits true (blank (s == b'-')) y))
              (reverse-reverse (c ∷ cs))))
