-- ===== src/Decimal/Parse/Print.antt =====
-- crates/cobol-runtime/src/decimal.rs, `cobol_decimal_from_string`: printed decimals read back.
use rust_cobol.Prelude.{
  ℕ, ◌+◌, ◌*◌, ◌^◌, ◌≤◌, ◌<◌, ◌≡◌, refl, sym, ap, ◌∙◌, ◌⊎◌, inl, inr, Bool, true, false, ◌||◌, some,
  List, [], ◌∷◌, ◌++◌, map, arith, ◌==◌, if◌then◌else◌, length,
}
use rust_cobol.Prelude.Text.{Text, is_ascii_whitespace}
use rust_cobol.Prelude.Words.{i64_max, wrap_i32}
use rust_cobol.Prelude.Int.{pos}
use mathlib.Core.List.{reverse, reverse-append, reverse-reverse, append_assoc, append-nil}
use rust_cobol.Decimal.Parse.{
  trim_start, trim, ends_with_upper, Parsed, step, loop, begin, negate, finish, from_trimmed,
  from_text, from_string,
}

-- The text of a digit list, and the number that the digits stand for.
abbrev pub digit_text : List ℕ → Text
digit_text = map (λ d. b'0' + d)

unfoldable pub number_from : ℕ → List ℕ → ℕ
number_from acc [] = acc
number_from acc (d ∷ ds) = number_from (acc * 10 + d) ds

abbrev pub AreDigits : List ℕ → Type 0
AreDigits [] = Unit {0}
AreDigits (d ∷ ds) = (d ≤ 9) × AreDigits ds

-- A decimal as it is written: an optional minus sign, a digit and more digits, a point, and digits.
unfoldable pub print : Bool → ℕ → List ℕ → List ℕ → Text
print negative d is fs =
    let body = digit_text (d ∷ is) ++ b'.' ∷ digit_text fs in if negative then b'-' ∷ body else body

number_from-le : (acc : ℕ) (ds : List ℕ) → acc ≤ number_from acc ds
unfolding number_from
number_from-le acc [] = omega arith
number_from-le acc (d ∷ ds) = omega (arith, number_from-le (acc * 10 + d) ds)

-- The loop's variables behind the digits `ds`.
abbrev after_digits : Parsed → List ℕ → Parsed
after_digits s ds = record s {
  value = number_from s.value ds;
  total_digits = s.total_digits + length ds;
  scale = if s.seen_dot then s.scale + length ds else s.scale;
}

step-digit :
    (s : Parsed) (d : ℕ)
    → d ≤ 9
    → s.value * 10 + d ≤ i64_max
    → step s (b'0' + d) ≡ some (after_digits s (d ∷ []))
unfolding step number_from
step-digit s d h w = ground arith

after_digits-nil : (s : Parsed) → s ≡ after_digits s []
unfolding number_from
after_digits-nil s = ground arith

after_digits-cons :
    (s : Parsed) (d : ℕ) (ds : List ℕ)
    → after_digits (after_digits s (d ∷ [])) ds ≡ after_digits s (d ∷ ds)
unfolding number_from
after_digits-cons s d ds = ground arith

loop-step : (s s' : Parsed) (c : ℕ) (cs : Text) → step s c ≡ some s' → loop s (c ∷ cs) ≡ loop s' cs
unfolding loop
loop-step s s' c cs h = rw (h, loop)

loop-digits :
    (ds : List ℕ) (s : Parsed) (rest : Text)
    → AreDigits ds
    → number_from s.value ds ≤ i64_max
    → loop s (digit_text ds ++ rest) ≡ loop (after_digits s ds) rest
loop-digits [] s rest h w = ap (λ p. loop p rest) (after_digits-nil s)
loop-digits (d ∷ ds) s rest (digit, digits) w =
    let w' : number_from (s.value * 10 + d) ds ≤ i64_max = unfold number_from in w in
    let s' = after_digits s (d ∷ []) in
    let e : s'.value ≡ s.value * 10 + d = unfold number_from in refl in
    loop-step s s' (b'0' + d) (digit_text ds ++ rest)
      (step-digit s d digit (omega (arith, w', number_from-le (s.value * 10 + d) ds)))
    ∙ loop-digits ds s' rest digits (rw e w')
    ∙ ap (λ p. loop p rest) (after_digits-cons s d ds)

number_from-append :
    (acc : ℕ) (xs ys : List ℕ) → number_from acc (xs ++ ys) ≡ number_from (number_from acc xs) ys
unfolding number_from
number_from-append acc [] ys = refl
number_from-append acc (x ∷ xs) ys = number_from-append (acc * 10 + x) xs ys

-- Digits, a point and digits.
abbrev body_text : List ℕ → List ℕ → Text
body_text is fs = digit_text is ++ b'.' ∷ digit_text fs

loop-body :
    (is fs : List ℕ)
    → AreDigits is
    → AreDigits fs
    → number_from 0 (is ++ fs) ≤ i64_max
    → loop begin (body_text is fs)
      ≡ some (record {
        value = number_from 0 (is ++ fs);
        scale = length fs;
        total_digits = length is + length fs;
        seen_dot = true;
      })
loop-body is fs hi hf w =
    let e = number_from-append 0 is fs in
    let s = after_digits begin is in
    let s' = record s { seen_dot = true } in
    loop-digits is begin (b'.' ∷ digit_text fs) hi
      (omega (arith, e, w, number_from-le (number_from 0 is) fs))
    ∙ loop-step s s' b'.' (digit_text fs) (unfold step in refl)
    ∙ ap (loop s') (sym (append-nil (digit_text fs)))
    ∙ loop-digits fs s' [] hf (omega (arith, e, w))
    ∙ unfold loop in ap some (ground (arith, e))

-- The last character of a text that ends in a point or digit, and digits.
last_lem :
    (fs : List ℕ) (u : Text) (x : ℕ)
    → AreDigits fs
    → b'.' ≤ x
    → x ≤ b'9'
    → (h : ℕ) × (r : Text) × (reverse (u ++ x ∷ digit_text fs) ≡ h ∷ r) × (b'.' ≤ h) × (h ≤ b'9')
last_lem [] u x hf lo hi = (x, reverse u, reverse-append u (x ∷ []), lo, hi)
last_lem (d ∷ fs) u x (digit, digits) lo hi =
    let (h, r, e, lo', hi') =
      last_lem fs (u ++ x ∷ []) (b'0' + d) digits (omega arith) (omega arith) in
    (h, r, ap reverse (sym (append_assoc u (x ∷ []) ((b'0' + d) ∷ digit_text fs))) ∙ e, lo', hi')

trim_start-kept : (c : ℕ) (cs : Text) → is_ascii_whitespace c ≡ false → trim_start (c ∷ cs) ≡ c ∷ cs
unfolding trim_start
trim_start-kept c cs h = rw h

-- A text that begins and ends with a character of a number is not trimmed.
trim-kept :
    (c : ℕ) (cs : Text) (h : ℕ) (r : Text)
    → is_ascii_whitespace c ≡ false
    → reverse (c ∷ cs) ≡ h ∷ r
    → is_ascii_whitespace h ≡ false
    → trim (c ∷ cs) ≡ c ∷ cs
unfolding trim
trim-kept c cs h r first e last =
    ap (λ t. reverse (trim_start (reverse t))) (trim_start-kept c cs first)
    ∙ ap (λ t. reverse (trim_start t)) e
    ∙ ap reverse (trim_start-kept h r last ∙ sym e)
    ∙ reverse-reverse (c ∷ cs)

-- Such a text has no trailing sign.
ends_with_upper-number :
    (p : ℕ) (ps t : Text) (h : ℕ) (r : Text)
    → reverse t ≡ h ∷ r
    → b'.' ≤ h
    → h ≤ b'9'
    → (p < b'.') ⊎ (b'9' < p)
    → ends_with_upper (p ∷ ps) t ≡ false
unfolding ends_with_upper
ends_with_upper-number p ps t h r e lo hi out = rw e (ground arith)

no_trailing_sign :
    (t : Text) (h : ℕ) (r : Text)
    → reverse t ≡ h ∷ r
    → b'.' ≤ h
    → h ≤ b'9'
    → (ends_with_upper (b'-' ∷ []) t ≡ false)
      × (ends_with_upper (b'R' ∷ b'C' ∷ []) t ≡ false)
      × (ends_with_upper (b'B' ∷ b'D' ∷ []) t ≡ false)
no_trailing_sign t h r e lo hi = (
  ends_with_upper-number b'-' [] t h r e lo hi (inl (omega arith)),
  ends_with_upper-number b'R' (b'C' ∷ []) t h r e lo hi (inr (omega arith)),
  ends_with_upper-number b'B' (b'D' ∷ []) t h r e lo hi (inr (omega arith)),
)

finish-parsed :
    (negative : Bool) (value scale digits : ℕ) (seen : Bool)
    → scale < 2 ^ 31
    → 0 < digits
    → digits < 2 ^ 31
    → finish negative negative
        (some (record { value = value; scale = scale; total_digits = digits; seen_dot = seen }))
      ≡ record {
        value = negate negative value;
        scale = pos scale;
        size = pos digits;
        is_signed = negative;
      }
unfolding finish wrap_i32
finish-parsed negative value scale digits seen hs one hd = ground arith

from_string-trimmed :
    (c : ℕ) (cs : Text) (h : ℕ) (r : Text)
    → is_ascii_whitespace c ≡ false
    → reverse (c ∷ cs) ≡ h ∷ r
    → is_ascii_whitespace h ≡ false
    → from_string (c ∷ cs) ≡ from_trimmed c cs
unfolding from_string
from_string-trimmed c cs h r first e last = ap from_text (trim-kept c cs h r first e last)

-- A text whose first and last characters belong to a number, without a trailing sign.
from_string-number :
    (c : ℕ) (cs : Text) (h : ℕ) (r : Text)
    → is_ascii_whitespace c ≡ false
    → reverse (c ∷ cs) ≡ h ∷ r
    → b'.' ≤ h
    → h ≤ b'9'
    → from_string (c ∷ cs) ≡ (
        let sign = c == b'-' || c == b'+' in
        finish (c == b'-') sign (loop begin (if sign then cs else c ∷ cs)))
unfolding from_trimmed
from_string-number c cs h r first e lo hi =
    let (minus, credit, debit) = no_trailing_sign (c ∷ cs) h r e lo hi in
    from_string-trimmed c cs h r first e (ground arith) ∙ rw (minus, credit, debit) (ground arith)

-- Reading back a printed decimal: an optional `-`, at least one digit, a point and any digits give
-- the signed number that all the digits stand for, the digits behind the point as the scale and all
-- digits as the size, if the number fits an i64 and the digits number less than 2^31.
pub from_string-print :
    (negative : Bool) (d : ℕ) (is fs : List ℕ)
    → AreDigits (d ∷ is)
    → AreDigits fs
    → number_from 0 ((d ∷ is) ++ fs) ≤ i64_max
    → length (d ∷ is) + length fs < 2 ^ 31
    → from_string (print negative d is fs) ≡ record {
      value = negate negative (number_from 0 ((d ∷ is) ++ fs));
      scale = pos (length fs);
      size = pos (length (d ∷ is) + length fs);
      is_signed = negative;
    }
unfolding print
from_string-print true d is fs hd hf w l =
    let cs = body_text (d ∷ is) fs in
    let (h, r, e, lo, hi) =
      last_lem fs (b'-' ∷ digit_text (d ∷ is)) b'.' hf (omega arith) (omega arith) in
    from_string-number b'-' cs h r refl e lo hi
    ∙ ap (finish true true) (loop-body (d ∷ is) fs hd hf w)
    ∙ finish-parsed true (number_from 0 ((d ∷ is) ++ fs)) (length fs) (length (d ∷ is) + length fs)
        true (omega arith) (omega arith) l
from_string-print false d is fs hd hf w l =
    let cs = digit_text is ++ b'.' ∷ digit_text fs in
    let c = b'0' + d in
    let (h, r, e, lo, hi) = last_lem fs (digit_text (d ∷ is)) b'.' hf (omega arith) (omega arith) in
    let digit : d ≤ 9 = hd.0 in
    from_string-number c cs h r (ground arith) e lo hi
    ∙ unsigned digit
    ∙ ap (finish false false) (loop-body (d ∷ is) fs hd hf w)
    ∙ finish-parsed false (number_from 0 ((d ∷ is) ++ fs)) (length fs) (length (d ∷ is) + length fs)
        true (omega arith) (omega arith) l
  where
    unsigned :
        d ≤ 9
        → (let c = b'0' + d in
            let cs = digit_text is ++ b'.' ∷ digit_text fs in
            let sign = c == b'-' || c == b'+' in
            finish (c == b'-') sign (loop begin (if sign then cs else c ∷ cs)))
          ≡ finish false false (loop begin (body_text (d ∷ is) fs))
    unsigned h =
        let e : ((b'0' + d) == b'-') ≡ false = ground arith in
        let e' : ((b'0' + d) == b'+') ≡ false = ground arith in rw (e, e')
