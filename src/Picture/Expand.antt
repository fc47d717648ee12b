-- ===== src/Picture/Expand.antt =====
-- crates/cobol-sema/src/picture_analyzer.rs, `expand`: repetition factors such as `9(5)`.
use rust_cobol.Prelude.{
  ℕ, zero, suc, ◌^◌, ◌≤◌, ◌<◌, ◌≡◌, refl, ap, inl, inr, Bool, false, ◌||◌, Option, none, some, [],
  ◌∷◌, ◌++◌, arith, ◌==◌, if◌then◌else◌, Option-cases, length, replicate, length-append,
}
use rust_cobol.Prelude.Text.{Text, parse_unsigned}

-- The inner loop: the characters up to `)`, and what follows it.
gather : Text → Text × Text
gather [] = ([], [])
gather (x ∷ xs) = let (num, rest) = gather xs in if x == b')' then ([], xs) else (x ∷ num, rest)

-- `chars[i + 1] == '('`, with what follows the bracket.
abbrev pub after_open : Text → Option Text
after_open [] = none
after_open (c ∷ cs) = if c == b'(' then some cs else none

-- `parse::<u32>().unwrap_or(1)`
unfoldable pub count_of : Text → ℕ
count_of num = elim (parse_unsigned (2 ^ 32) num) [ none ↦ 1 | some n ↦ n ]

-- The outer loop, on fuel: each round takes at least one character away.
expand_loop : ℕ → Text → Text
expand_loop zero cs = []
expand_loop (suc fuel) [] = []
expand_loop (suc fuel) (c ∷ cs) = elim (after_open cs) [
  | none ↦ c ∷ expand_loop fuel cs
  | some inner ↦ replicate (count_of (gather inner).0) c ++ expand_loop fuel (gather inner).1
]

unfoldable pub expand : Text → Text
unfolding expand_loop gather count_of
expand pic_str = expand_loop (length pic_str) pic_str

gather-shorter : (cs : Text) → length (gather cs).1 ≤ length cs
unfolding gather
gather-shorter [] = omega arith
gather-shorter (x ∷ xs) = ground (arith, gather-shorter xs)

after_open-shorter : (cs inner : Text) → after_open cs ≡ some inner → length inner < length cs
after_open-shorter [] inner h = cc
after_open-shorter (c ∷ cs) inner h = ground arith

-- Fuel for every character is enough: more changes nothing.
expand_loop-fuel :
    (f g : ℕ) (cs : Text) → length cs ≤ f → length cs ≤ g → expand_loop f cs ≡ expand_loop g cs
unfolding expand_loop
expand_loop-fuel zero zero cs h k = refl
expand_loop-fuel zero (suc g) [] h k = refl
expand_loop-fuel zero (suc g) (c ∷ cs) h k = absurd (omega arith)
expand_loop-fuel (suc f) zero [] h k = refl
expand_loop-fuel (suc f) zero (c ∷ cs) h k = absurd (omega arith)
expand_loop-fuel (suc f) (suc g) [] h k = refl
expand_loop-fuel (suc f) (suc g) (c ∷ cs) h k = elim (Option-cases (after_open cs)) [
  | inl plain ↦
      rw (plain, expand_loop)
        (ap (λ r. c ∷ r) (expand_loop-fuel f g cs (omega arith) (omega arith)))
  | inr (inner, e) ↦
      let s : length inner < length cs = after_open-shorter cs inner e in
      rw (e, expand_loop)
        (ap (λ r. replicate (count_of (gather inner).0) c ++ r)
          (expand_loop-fuel f g (gather inner).1 (omega (arith, gather-shorter inner))
            (omega (arith, gather-shorter inner))))
]

-- No character of the text closes a bracket.
abbrev pub has_close : Text → Bool
has_close [] = false
has_close (x ∷ xs) = x == b')' || has_close xs

gather-close : (num rest : Text) → has_close num ≡ false → gather (num ++ b')' ∷ rest) ≡ (num, rest)
unfolding gather
gather-close [] rest h = refl
gather-close (x ∷ num) rest h = ground (arith, gather-close num rest)

length-repeat : (num rest : Text) → length rest ≤ length (num ++ b')' ∷ rest)
length-repeat num rest = omega (arith, length-append num (b')' ∷ rest))

-- A character that no `(` follows stands for itself.
pub expand-plain :
    (c : ℕ) (rest : Text) → after_open rest ≡ none → expand (c ∷ rest) ≡ c ∷ expand rest
unfolding expand
expand-plain c rest plain = rw (plain, expand_loop)

-- `c(num)` stands for as many `c` as the numeral `num`, a u32, says, and for one where `num` is no
-- such numeral; what follows the bracket is expanded in its turn.
pub expand-repeat :
    (c : ℕ) (num rest : Text)
    → has_close num ≡ false
    → expand (c ∷ b'(' ∷ num ++ b')' ∷ rest) ≡ replicate (count_of num) c ++ expand rest
unfolding expand
expand-repeat c num rest h =
    rw (gather-close num rest h, expand_loop)
      (ap (λ r. replicate (count_of num) c ++ r)
        (expand_loop-fuel (length (b'(' ∷ num ++ b')' ∷ rest)) (length rest) rest
          (omega (arith, length-repeat num rest)) (omega arith)))
