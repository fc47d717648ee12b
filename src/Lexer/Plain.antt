-- ===== src/Lexer/Plain.antt =====
-- crates/cobol-lexer/src/lexer.rs: the content that is made of ASCII lines.
use rust_cobol.Prelude.{
  ℕ, zero, suc, ◌+◌, ◌-◌, ◌≡◌, refl, sym, Bool, true, false, ◌&&◌, ◌||◌, List, [], ◌∷◌, ◌++◌, arith,
  ltb, ◌==◌, if◌then◌else◌, length, take, drop, either,
}
use mathlib.Core.Path.{subst}
use mathlib.Core.List.{reverse, reverse-append}
use rust_cobol.Prelude.Range.{and-left, and-right}
use rust_cobol.Strings.Zoned.Fields.{all-append}
use rust_cobol.Lexer.Scan.{count_while, next_is}
use rust_cobol.Lexer.Ascii.{IsAscii, drop-IsAscii}
use rust_cobol.Lexer.Reader.{SourceLine, trim_start, white_1, white_2, white_3, is_continuation}
use rust_cobol.Lexer.Segments.{
  ContentSegment, trim_end, without_last, last_is, ends_inside_string, continue_string,
  continue_words, continue_at, continue_segment, new_segment, add_line,
}
use rust_cobol.Lexer.New.{flatten, flatten_after}

abbrev ascii : ℕ → Bool
ascii b = ltb b 0x80

cons-IsAscii : (b : ℕ) (bs : List ℕ) → ascii b ≡ true → IsAscii bs → IsAscii (b ∷ bs)
cons-IsAscii b bs h k = ground (arith, h, k)

pub append-IsAscii : (a b : List ℕ) → IsAscii a → IsAscii b → IsAscii (a ++ b)
append-IsAscii a b h k = ground (arith, all-append ascii a b, h, k)

pub take-IsAscii : (n : ℕ) (text : List ℕ) → IsAscii text → IsAscii (take n text)
take-IsAscii zero text h = refl
take-IsAscii (suc n) [] h = refl
take-IsAscii (suc n) (b ∷ bs) h =
    cons-IsAscii b (take n bs) (and-left (ascii b) _ h)
      (take-IsAscii n bs (and-right (ascii b) _ h))

pick : (b : Bool) (x y : List ℕ) → IsAscii x → IsAscii y → IsAscii (elim b [ true ↦ x | false ↦ y ])
pick true x y h k = h
pick false x y h k = k

either_text : (b : Bool) (x y : List ℕ) → IsAscii x → IsAscii y → IsAscii (if b then x else y)
either_text b x y h k = either IsAscii b {x = x} {y = y} h k

tail-IsAscii : (b : ℕ) (bs : List ℕ) → IsAscii (b ∷ bs) → IsAscii bs
tail-IsAscii b bs h = and-right (ascii b) _ h

trim_start-IsAscii : (text : List ℕ) → IsAscii text → IsAscii (trim_start text)
unfolding trim_start
trim_start-IsAscii [] h = h
trim_start-IsAscii (a ∷ []) h = either_text (white_1 a) [] (a ∷ []) refl h
trim_start-IsAscii (a ∷ b ∷ []) h =
    pick (white_1 a) (trim_start (b ∷ [])) (if white_2 a b then [] else a ∷ b ∷ [])
      (trim_start-IsAscii (b ∷ []) (tail-IsAscii a (b ∷ []) h))
      (either_text (white_2 a b) [] (a ∷ b ∷ []) refl h)
trim_start-IsAscii (a ∷ b ∷ c ∷ r) h =
    let h1 = tail-IsAscii a (b ∷ c ∷ r) h in
    let h2 = tail-IsAscii b (c ∷ r) h1 in
    let text = a ∷ b ∷ c ∷ r in
    let third = elim (white_3 a b c) as (λ x. List ℕ) [ true ↦ trim_start r | false ↦ text ] in
    let second = elim (white_2 a b) as (λ x. List ℕ) [
      | true ↦ trim_start (c ∷ r)
      | false ↦ third
    ] in
    pick (white_1 a) (trim_start (b ∷ c ∷ r)) second (trim_start-IsAscii (b ∷ c ∷ r) h1) (
      pick (white_2 a b) (trim_start (c ∷ r)) third (trim_start-IsAscii (c ∷ r) h2)
        (pick (white_3 a b c) (trim_start r) text (trim_start-IsAscii r (tail-IsAscii c r h2)) h))

trim_end-IsAscii : (text : List ℕ) → IsAscii text → IsAscii (trim_end text)
unfolding trim_end
trim_end-IsAscii [] h = h
trim_end-IsAscii (b ∷ bs) h =
    either_text (length (trim_start (b ∷ bs)) == 0) [] (b ∷ trim_end bs) refl (
      cons-IsAscii b (trim_end bs) (and-left (ascii b) _ h)
        (trim_end-IsAscii bs (tail-IsAscii b bs h)))

without_last-IsAscii : (text : List ℕ) → IsAscii text → IsAscii (without_last text)
without_last-IsAscii [] h = h
without_last-IsAscii (b ∷ []) h = refl
without_last-IsAscii (b ∷ c ∷ bs) h =
    cons-IsAscii b (without_last (c ∷ bs)) (and-left (ascii b) _ h)
      (without_last-IsAscii (c ∷ bs) (tail-IsAscii b (c ∷ bs) h))

continue_string-IsAscii :
    (prev : ContentSegment) (quote : ℕ) (cont_text : List ℕ) (skip cont_global : ℕ)
    → IsAscii prev.text
    → ascii quote ≡ true
    → IsAscii cont_text
    → IsAscii (continue_string prev quote cont_text skip cont_global).text
unfolding continue_string
continue_string-IsAscii prev quote cont_text skip cont_global h q k =
    let trimmed = trim_end prev.text in
    let t = trim_end-IsAscii prev.text h in
    let dropped =
      last_is (λ b. b == quote) trimmed && ends_inside_string quote false (without_last trimmed) in
    let one_space = length prev.text - length trimmed == 1 in
    let spaced = if one_space then trimmed ++ b' ' ∷ [] else trimmed in
    let inside = ltb 0 (length trimmed) && ends_inside_string quote false trimmed in
    let whole = if inside then prev.text else spaced in
    let kept = if dropped then without_last trimmed else whole in
    let appended = drop skip cont_text in
    let run = count_while (λ b. b == quote) appended in
    quoted (dropped && next_is (λ b. b == quote) appended && run == 1) kept appended
      (either_text dropped (without_last trimmed) whole (without_last-IsAscii trimmed t) (
        either_text inside prev.text spaced h (
          either_text one_space (trimmed ++ b' ' ∷ []) trimmed
            (append-IsAscii trimmed (b' ' ∷ []) t refl) t)))
      (drop-IsAscii skip cont_text k)
  where
    quoted :
        (b : Bool) (kept appended : List ℕ)
        → IsAscii kept
        → IsAscii appended
        → IsAscii ((if b then kept ++ quote ∷ [] else kept) ++ appended)
    quoted true kept appended h' k' =
        append-IsAscii (kept ++ quote ∷ []) appended
          (append-IsAscii kept (quote ∷ []) h' (cons-IsAscii quote [] q refl)) k'
    quoted false kept appended h' k' = append-IsAscii kept appended h' k'

continue_words-IsAscii :
    (prev : ContentSegment) (cont_text : List ℕ) (cont_global : ℕ)
    → IsAscii prev.text
    → IsAscii cont_text
    → IsAscii (continue_words prev cont_text cont_global).text
unfolding continue_words
continue_words-IsAscii prev cont_text cont_global h k =
    let trimmed = trim_end prev.text in
    let t = trim_end-IsAscii prev.text h in
    let tail = trim_start cont_text in
    let one_space =
      length cont_text - length tail == 1 && ltb 0 (length trimmed) && ltb 0 (length tail) in
    append-IsAscii (if one_space then trimmed ++ b' ' ∷ [] else trimmed) tail
      (either_text one_space (trimmed ++ b' ' ∷ []) trimmed
        (append-IsAscii trimmed (b' ' ∷ []) t refl) t)
      (trim_start-IsAscii cont_text k)

continue_at-IsAscii :
    (prev : ContentSegment) (cont_text : List ℕ) (skip cont_global : ℕ) (rest : List ℕ)
    → IsAscii prev.text
    → IsAscii cont_text
    → IsAscii rest
    → IsAscii (continue_at prev cont_text skip cont_global rest).text
unfolding continue_at
continue_at-IsAscii prev cont_text skip cont_global [] h k r =
    continue_words-IsAscii prev cont_text cont_global h k
continue_at-IsAscii prev cont_text skip cont_global (b ∷ bs) h k r =
    let quoted = continue_string prev b cont_text (skip + 1) cont_global in
    let words = continue_words prev cont_text cont_global in
    either (λ (s : ContentSegment). IsAscii s.text) (b == b'"' || b == 39) {x = quoted} {y = words}
      (continue_string-IsAscii prev b cont_text (skip + 1) cont_global h (and-left (ascii b) _ r) k)
      (continue_words-IsAscii prev cont_text cont_global h k)

-- Of each segment.
abbrev pub AllAscii : List ContentSegment → Type 0
AllAscii [] = Unit {0}
AllAscii (s ∷ segments) = IsAscii s.text × AllAscii segments

either_segments :
    (b : Bool) (x y : List ContentSegment) → AllAscii x → AllAscii y → AllAscii (if b then x else y)
either_segments b x y h k = either AllAscii b {x = x} {y = y} h k

continue_segment-IsAscii :
    (prev : ContentSegment) (line : SourceLine) (text : List ℕ)
    → IsAscii prev.text
    → IsAscii text
    → IsAscii (continue_segment prev line text).text
unfolding continue_segment
continue_segment-IsAscii prev line text p h =
    let skip = count_while (λ b. b == b' ') text in
    continue_at-IsAscii prev text skip _ (drop skip text) p h (drop-IsAscii skip text h)

pub add_line-AllAscii :
    (line : SourceLine) (text : List ℕ) (segments : List ContentSegment)
    → IsAscii text
    → AllAscii segments
    → AllAscii (add_line line text segments)
unfolding add_line new_segment
add_line-AllAscii line text [] h a =
    either_segments (is_continuation line) [] (new_segment line text ∷ []) tt (h, tt)
add_line-AllAscii line text (prev ∷ segments) h (p, a) =
    either_segments (is_continuation line) (continue_segment prev line text ∷ segments)
      (new_segment line text ∷ prev ∷ segments) (continue_segment-IsAscii prev line text p h, a)
      (h, (p, a))

append-AllAscii : (a b : List ContentSegment) → AllAscii a → AllAscii b → AllAscii (a ++ b)
append-AllAscii [] b h k = k
append-AllAscii (s ∷ a) b (p, h) k = (p, append-AllAscii a b h k)

pub reverse-AllAscii : (a : List ContentSegment) → AllAscii a → AllAscii (reverse a)
reverse-AllAscii [] h = h
reverse-AllAscii (s ∷ a) (p, h) =
    subst AllAscii (sym (reverse-append (s ∷ []) a))
      (append-AllAscii (reverse a) (s ∷ []) (reverse-AllAscii a h) (p, tt))

flatten_after-IsAscii :
    (prev : ContentSegment) (segments : List ContentSegment)
    → AllAscii segments
    → IsAscii (flatten_after prev segments).0
unfolding flatten_after
flatten_after-IsAscii prev [] h = refl
flatten_after-IsAscii prev (s ∷ segments) (p, h) =
    cons-IsAscii 10 (s.text ++ (flatten_after s segments).0) refl
      (append-IsAscii s.text (flatten_after s segments).0 p (flatten_after-IsAscii s segments h))

pub flatten-IsAscii :
    (segments : List ContentSegment) → AllAscii segments → IsAscii (flatten segments).0
unfolding flatten
flatten-IsAscii [] h = refl
flatten-IsAscii (s ∷ segments) (p, h) =
    append-IsAscii s.text (flatten_after s segments).0 p (flatten_after-IsAscii s segments h)
