-- ===== src/Picture/Analyze/Bounds.antt =====
-- crates/cobol-sema/src/picture_analyzer.rs: the loop of `analyze` against the storage positions.
use rust_cobol.Prelude.{
  ℕ, ◌+◌, ◌^◌, ◌≤◌, ◌<◌, ◌≡◌, refl, sym, ◌∙◌, ◌⊎◌, inl, inr, Bool, true, false, not, ◌&&◌, [], ◌∷◌,
  arith, ltb, Bool-cases, length,
}
use rust_cobol.Prelude.Text.{Text, to_ascii_uppercase}
use rust_cobol.Common.Span.{Span}
use rust_cobol.Picture.Expand.{expand}
use rust_cobol.Picture.Scan.{Counters, Symbol, symbol, start, step, is_pair, pair_step, scan}
use rust_cobol.Picture.Category.{
  PictureCategory, PictureCounts, determine_category, Zeros, determine_category-Zeros, IsConsistent,
  is_edited_category, numeric, alphabetic, numeric_edited, alphanumeric_edited, national_edited,
}
use rust_cobol.Picture.Analyze.{total_edit_numeric, counts, size_of, analyze}

-- How many character positions a symbol takes in storage.
abbrev pub weight : Symbol → ℕ
weight Symbol.s = 0
weight Symbol.v = 0
weight Symbol.p = 0
weight Symbol.c = 0
weight Symbol.d = 0
weight Symbol.other = 0
weight _ = 1

-- The storage positions of an expanded picture.
unfoldable pub width : Text → ℕ
width [] = 0
width (ch ∷ []) = weight (symbol (to_ascii_uppercase ch))
width (ch ∷ next ∷ rest) = elim (is_pair ch next) [
  | true ↦ 2 + width rest
  | false ↦ weight (symbol (to_ascii_uppercase ch)) + width (next ∷ rest)
]

abbrev is_scaling : Symbol → ℕ
is_scaling Symbol.p = 1
is_scaling _ = 0

-- The scaling positions `P` of an expanded picture.
unfoldable pub scalings : Text → ℕ
scalings [] = 0
scalings (ch ∷ cs) = is_scaling (symbol (to_ascii_uppercase ch)) + scalings cs

abbrev edit_sum : Counters → ℕ
edit_sum k =
    k.edit_z_count + k.edit_star_count + k.edit_plus_count + k.edit_minus_count
    + k.edit_dollar_count + k.edit_misc_count

abbrev total : Counters → ℕ
total k =
    k.digit_count
    + k.alpha_count
    + k.alphanumeric_count
    + k.national_count
    + k.boolean_count
    + edit_sum k

-- What holds of the counters when `q` scaling positions have been seen.
record Inv (q : ℕ) (k : Counters) : Type 0 where
  edited : k.is_edited ≡ ltb 0 (edit_sum k)
  decimals : k.decimal_positions ≤ k.digit_count + edit_sum k + q
  fits : total k + q < 2 ^ 32

step-Inv :
    (sym : Symbol) (q : ℕ) (k : Counters)
    → total k + q + 1 < 2 ^ 32
    → Inv q k
    → Inv (q + is_scaling sym) (step sym k) × (total (step sym k) ≡ total k + weight sym)
unfolding step
step-Inv sym q k w h = ground arith

pair_step-Inv :
    (q : ℕ) (k : Counters)
    → total k + q + 2 < 2 ^ 32
    → Inv q k
    → Inv q (pair_step k) × (total (pair_step k) ≡ total k + 2)
unfolding pair_step
pair_step-Inv q k w h = ground arith

-- What the loop over `cs` leaves in `r`, from counters `k` for which `Inv q` holds.
record ScanResult (q : ℕ) (k : Counters) (cs : Text) (r : Counters) : Type 0 where
  edited : r.is_edited ≡ ltb 0 (edit_sum r)
  decimals : r.decimal_positions ≤ r.digit_count + edit_sum r + (q + scalings cs)
  sum : total r ≡ total k + width cs
  bounded : total r ≤ total k + length cs

weight_le : (sym : Symbol) → weight sym + is_scaling sym ≤ 1
weight_le sym = ground arith

module _ (ch next : ℕ) (rest : Text) where
  scan-pair :
      (k : Counters) → is_pair ch next ≡ true → scan k (ch ∷ next ∷ rest) ≡ scan (pair_step k) rest
  unfolding scan
  scan-pair k e = rw (e, scan)

  scan-single :
      (k : Counters)
      → is_pair ch next ≡ false
      → scan k (ch ∷ next ∷ rest) ≡ scan (step (symbol (to_ascii_uppercase ch)) k) (next ∷ rest)
  unfolding scan
  scan-single k e = rw (e, scan)

  width-pair : is_pair ch next ≡ true → width (ch ∷ next ∷ rest) ≡ 2 + width rest
  unfolding width
  width-pair e = rw (e, width)

  width-single :
      is_pair ch next ≡ false
      → width (ch ∷ next ∷ rest) ≡ weight (symbol (to_ascii_uppercase ch)) + width (next ∷ rest)
  unfolding width
  width-single e = rw (e, width)

scalings-cons :
    (ch : ℕ) (cs : Text)
    → scalings (ch ∷ cs) ≡ is_scaling (symbol (to_ascii_uppercase ch)) + scalings cs
unfolding scalings
scalings-cons ch cs = refl

scan-ScanResult :
    (cs : Text) (q : ℕ) (k : Counters)
    → total k + q + length cs < 2 ^ 32
    → Inv q k
    → ScanResult q k cs (scan k cs)
scan-ScanResult [] q k w h =
    unfold scan width scalings in
    record { edited = h.edited; decimals = omega arith; sum = omega arith; bounded = omega arith }
scan-ScanResult (ch ∷ []) q k w h =
    let sym = symbol (to_ascii_uppercase ch) in
    let (inv, sum) = step-Inv sym q k (omega arith) h in
    unfold scan width scalings in
    record {
      edited = inv.edited;
      decimals = omega (arith, inv.decimals);
      sum = sum;
      bounded = omega (arith, sum, weight_le sym);
    }
scan-ScanResult (ch ∷ next ∷ rest) q k w h = elim (Bool-cases (is_pair ch next)) [
  | inl pair ↦
      let (inv, sum) = pair_step-Inv q k (omega arith) h in
      let r = scan-ScanResult rest q (pair_step k) (omega (arith, sum)) inv in
      rw (scan-pair ch next rest k pair) (record {
        edited = r.edited;
        decimals =
            omega (arith, r.decimals, scalings-cons ch (next ∷ rest), scalings-cons next rest);
        sum = omega (arith, r.sum, sum, width-pair ch next rest pair);
        bounded = omega (arith, r.bounded, sum);
      })
  | inr single ↦
      let sym = symbol (to_ascii_uppercase ch) in
      let (inv, sum) = step-Inv sym q k (omega arith) h in
      let r =
        scan-ScanResult (next ∷ rest) (q + is_scaling sym) (step sym k)
          (omega (arith, sum, weight_le sym)) inv in
      rw (scan-single ch next rest k single) (record {
        edited = r.edited;
        decimals = omega (arith, r.decimals, scalings-cons ch (next ∷ rest));
        sum = omega (arith, r.sum, sum, width-single ch next rest single);
        bounded = omega (arith, r.bounded, sum, weight_le sym);
      })
]

-- The categories that count every position of the picture.
abbrev pub counts_all : PictureCategory → Bool
counts_all PictureCategory.national = false
counts_all national_edited = false
counts_all PictureCategory.boolean = false
counts_all _ = true

start-Inv : Inv 0 start
unfolding start
start-Inv = ground arith

abbrev count_sum : PictureCounts → ℕ
count_sum c =
    c.digit + c.alpha + c.alphanumeric + c.national + c.boolean + c.edit_numeric + c.edit_misc

size_of-eq :
    (cat : PictureCategory) (c : PictureCounts)
    → count_sum c < 2 ^ 32
    → Zeros cat c
    → counts_all cat ≡ true
    → size_of cat c ≡ count_sum c
unfolding size_of
size_of-eq numeric c w e a = omega arith
size_of-eq alphabetic c w e a = omega arith
size_of-eq PictureCategory.alphanumeric c w e a = omega arith
size_of-eq numeric_edited c w e a = omega arith
size_of-eq alphanumeric_edited c w e a = omega arith
size_of-eq PictureCategory.national c w e a = cc
size_of-eq national_edited c w e a = cc
size_of-eq PictureCategory.boolean c w e a = cc

size_of-le :
    (cat : PictureCategory) (c : PictureCounts) → count_sum c < 2 ^ 32 → size_of cat c ≤ count_sum c
unfolding size_of
size_of-le cat c w = ground arith

counts_lem :
    (k : Counters)
    → k.is_edited ≡ ltb 0 (edit_sum k)
    → total k < 2 ^ 32
    → IsConsistent (counts k)
      × (count_sum (counts k) ≡ total k)
      × ((counts k).edit_numeric + (counts k).edit_misc ≡ edit_sum k)
unfolding counts
counts_lem k e w =
    let small : total_edit_numeric k + k.edit_misc_count ≡ edit_sum k =
      unfold total_edit_numeric in omega arith in
    (rw (small, e), omega (arith, small), small)

abbrev pub is_boolean : PictureCategory → Bool
is_boolean PictureCategory.boolean = true
is_boolean _ = false

edited_flag :
    (c : PictureCounts)
    → IsConsistent c
    → is_edited_category (determine_category c)
      ≡ (c.is_edited && not (is_boolean (determine_category c)))
unfolding determine_category
edited_flag c h = ground arith

-- What `analyze` says of a picture of less than 2^32 expanded characters. The category is an edited
-- one exactly when some character edits and the picture is not boolean. The size is the number of
-- storage positions, where `S`, `V`, `P` and unknown characters take none and `CR` and `DB` take two,
-- unless the category is national or boolean, and is never more than that. The decimal positions
-- are at most the storage positions and the positions of `P`.
pub analyze_lem :
    (pic_str : Text) (span : Span)
    → length (expand pic_str) < 2 ^ 32
    → let c = analyze pic_str span in
      (is_edited_category c.category ≡ (c.is_edited && not (is_boolean c.category)))
      × ((counts_all c.category ≡ false) ⊎ (c.size ≡ width (expand pic_str)))
      × (c.size ≤ width (expand pic_str))
      × (c.decimal_positions ≤ width (expand pic_str) + scalings (expand pic_str))
unfolding analyze
analyze_lem pic_str span w =
    let cs = expand pic_str in
    let k = scan start cs in
    let r = scan-ScanResult cs 0 start (unfold start in omega arith) start-Inv in
    let bounded : total k ≤ length cs = unfold start in omega (arith, r.bounded) in
    let (consistent, sum, edits) = counts_lem k r.edited (omega (arith, bounded)) in
    let sum' : count_sum (counts k) ≡ width cs = unfold start in omega (arith, sum, r.sum) in
    let fits : count_sum (counts k) < 2 ^ 32 = omega (arith, sum, bounded) in
    let cat = determine_category (counts k) in
    (
      edited_flag (counts k) consistent,
      elim (Bool-cases (counts_all cat)) [
        | inl every ↦ inr (
            size_of-eq cat (counts k) fits (determine_category-Zeros (counts k) consistent cat refl)
              every
            ∙ sum')
        | inr some_kinds ↦ inl some_kinds
      ],
      omega (arith, size_of-le cat (counts k) fits, sum'),
      omega (arith, r.decimals, sum, sum'),
    )
