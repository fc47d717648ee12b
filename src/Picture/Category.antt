-- ===== src/Picture/Category.antt =====
-- crates/cobol-sema/src/picture_analyzer.rs, `determine_category`, and the category of
-- crates/cobol-ast/src/picture.rs.
use rust_cobol.Prelude.{
  ℕ, ◌+◌, ◌<◌, ◌≡◌, ◌≢◌, ◌↔◌, Bool, true, false, ◌&&◌, ◌||◌, arith, ltb, ◌==◌, if◌then◌else◌,
}

pub data PictureCategory : Type 0 where
  alphabetic alphanumeric alphanumeric_edited numeric numeric_edited : PictureCategory
  national national_edited boolean : PictureCategory

pub record PictureCounts : Type 0 where
  pub digit : ℕ
  pub alpha : ℕ
  pub alphanumeric : ℕ
  pub national : ℕ
  pub boolean : ℕ
  pub is_edited : Bool
  pub edit_numeric : ℕ
  pub edit_misc : ℕ

-- The part that follows `if c.is_edited`.
unedited_category : PictureCounts → PictureCategory
unedited_category c =
    if ltb 0 c.alphanumeric
    then PictureCategory.alphanumeric
    else if ltb 0 c.digit && ltb 0 c.alpha
    then PictureCategory.alphanumeric
    else if ltb 0 c.digit
    then numeric
    else if ltb 0 c.alpha
    then alphabetic
    else PictureCategory.alphanumeric

-- Inside `if c.is_edited`; when no test holds the code falls through.
edited_category : PictureCounts → PictureCategory
unfolding unedited_category
edited_category c =
    if ltb 0 c.alpha || ltb 0 c.alphanumeric
    then alphanumeric_edited
    else if ltb 0 c.digit || ltb 0 c.edit_numeric
    then numeric_edited
    else if ltb 0 c.edit_misc
    then alphanumeric_edited
    else unedited_category c

unfoldable pub determine_category : PictureCounts → PictureCategory
unfolding edited_category unedited_category
determine_category c =
    if ltb 0 c.boolean
    then PictureCategory.boolean
    else if ltb 0 c.national
    then (if c.is_edited then national_edited else PictureCategory.national)
    else if c.is_edited
    then edited_category c
    else unedited_category c

-- The categories whose data is stored with insertion characters.
abbrev pub is_edited_category : PictureCategory → Bool
is_edited_category alphanumeric_edited = true
is_edited_category numeric_edited = true
is_edited_category national_edited = true
is_edited_category _ = false

-- The flag and the counters agree on whether the picture edits.
abbrev pub IsConsistent : PictureCounts → Type 0
IsConsistent c = c.is_edited ≡ ltb 0 (c.edit_numeric + c.edit_misc)

-- With consistent counters an edited picture without boolean positions has an edited category, and
-- no other picture has one: the fall-through of the edited branch is never taken.
pub determine_category-edited :
    (c : PictureCounts)
    → IsConsistent c
    → is_edited_category (determine_category c) ≡ (c.is_edited && (c.boolean == 0))
unfolding determine_category
determine_category-edited c h = ground arith

-- A picture is numeric exactly when it has digits, no editing and no position of another kind.
pub determine_category-numeric :
    (c : PictureCounts)
    → IsConsistent c
    → (determine_category c ≡ numeric) ↔ (
        (0 < c.digit)
        × (c.alpha ≡ 0)
        × (c.alphanumeric ≡ 0)
        × (c.national ≡ 0)
        × (c.boolean ≡ 0)
        × (c.is_edited ≡ false))
unfolding determine_category
determine_category-numeric c h = (λ e. ground arith, λ e. ground arith)

pub boolean-ne :
    (c : PictureCounts) → determine_category c ≢ PictureCategory.boolean → c.boolean ≡ 0
unfolding determine_category
boolean-ne c h = ground arith

-- The counters that are zero under a category that counts every position.
abbrev pub Zeros : PictureCategory → PictureCounts → Type 0
Zeros numeric c =
    (c.alpha + c.alphanumeric + c.national + c.boolean + c.edit_numeric + c.edit_misc ≡ 0)
Zeros alphabetic c =
    (c.digit + c.alphanumeric + c.national + c.boolean + c.edit_numeric + c.edit_misc ≡ 0)
Zeros PictureCategory.alphanumeric c = (c.national + c.boolean + c.edit_numeric + c.edit_misc ≡ 0)
Zeros numeric_edited c = (c.alpha + c.alphanumeric + c.national + c.boolean ≡ 0)
Zeros alphanumeric_edited c = (c.national + c.boolean ≡ 0)
Zeros _ c = Unit {0}

module _ (c : PictureCounts) (h : IsConsistent c) where
  Zeros-numeric : determine_category c ≡ numeric → Zeros numeric c
  unfolding determine_category
  Zeros-numeric e = ground arith

  Zeros-alphabetic : determine_category c ≡ alphabetic → Zeros alphabetic c
  unfolding determine_category
  Zeros-alphabetic e = ground arith

  Zeros-alphanumeric :
      determine_category c ≡ PictureCategory.alphanumeric → Zeros PictureCategory.alphanumeric c
  unfolding determine_category
  Zeros-alphanumeric e = ground arith

  Zeros-numeric_edited : determine_category c ≡ numeric_edited → Zeros numeric_edited c
  unfolding determine_category
  Zeros-numeric_edited e = ground arith

  Zeros-alphanumeric_edited :
      determine_category c ≡ alphanumeric_edited → Zeros alphanumeric_edited c
  unfolding determine_category
  Zeros-alphanumeric_edited e = ground arith

  pub determine_category-Zeros : (cat : PictureCategory) → determine_category c ≡ cat → Zeros cat c
  determine_category-Zeros numeric e = Zeros-numeric e
  determine_category-Zeros alphabetic e = Zeros-alphabetic e
  determine_category-Zeros PictureCategory.alphanumeric e = Zeros-alphanumeric e
  determine_category-Zeros numeric_edited e = Zeros-numeric_edited e
  determine_category-Zeros alphanumeric_edited e = Zeros-alphanumeric_edited e
  determine_category-Zeros PictureCategory.national e = tt
  determine_category-Zeros national_edited e = tt
  determine_category-Zeros PictureCategory.boolean e = tt
