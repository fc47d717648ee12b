-- ===== src/Picture/Analyze.antt =====
-- crates/cobol-sema/src/picture_analyzer.rs, `analyze`: the clause that a PICTURE string stands for.
pub mod Bounds
use rust_cobol.Prelude.{
  ℕ, ◌+◌, ◌^◌, ◌≤◌, ◌<◌, ◌≡◌, refl, sym, ◌∙◌, ◌⊎◌, inl, inr, Bool, true, false, not, ◌&&◌, [], ◌∷◌,
  arith, ltb, Bool-cases, length,
}
use rust_cobol.Prelude.Text.{Text, to_ascii_uppercase}
use rust_cobol.Prelude.Words.{u32}
use rust_cobol.Common.Span.{Span}
use rust_cobol.Picture.Expand.{expand}
use rust_cobol.Picture.Scan.{Counters, Symbol, symbol, start, step, is_pair, pair_step, scan}
use rust_cobol.Picture.Category.{
  PictureCategory, PictureCounts, determine_category, Zeros, determine_category-Zeros, IsConsistent,
  is_edited_category, numeric, alphabetic, numeric_edited, alphanumeric_edited, national_edited,
}

pub record PictureClause : Type 0 where
  pub raw_string : Text
  pub category : PictureCategory
  pub size : ℕ
  pub decimal_positions : ℕ
  pub is_signed : Bool
  pub is_edited : Bool
  pub span : Span

total_edit_numeric : Counters → ℕ
total_edit_numeric k = u32 (
    k.edit_z_count + k.edit_star_count + k.edit_plus_count + k.edit_minus_count
    + k.edit_dollar_count)

unfoldable pub counts : Counters → PictureCounts
unfolding total_edit_numeric
counts k = record {
  digit = k.digit_count;
  alpha = k.alpha_count;
  alphanumeric = k.alphanumeric_count;
  national = k.national_count;
  boolean = k.boolean_count;
  is_edited = k.is_edited;
  edit_numeric = total_edit_numeric k;
  edit_misc = k.edit_misc_count;
}

-- The match on the category.
size_of : PictureCategory → PictureCounts → ℕ
size_of numeric c = c.digit
size_of alphabetic c = c.alpha
size_of PictureCategory.alphanumeric c = u32 (c.digit + c.alpha + c.alphanumeric)
size_of numeric_edited c = u32 (c.digit + c.edit_numeric + c.edit_misc)
size_of alphanumeric_edited c =
    u32 (c.digit + c.alpha + c.alphanumeric + c.edit_numeric + c.edit_misc)
size_of PictureCategory.national c = c.national
size_of national_edited c = u32 (c.national + c.edit_misc)
size_of PictureCategory.boolean c = c.boolean

unfoldable pub analyze : Text → Span → PictureClause
unfolding size_of counts
analyze pic_str span =
    let k = scan start (expand pic_str) in
    let category = determine_category (counts k) in
    record {
      raw_string = pic_str;
      category = category;
      size = size_of category (counts k);
      decimal_positions = k.decimal_positions;
      is_signed = k.is_signed;
      is_edited = k.is_edited;
      span = span;
    }
