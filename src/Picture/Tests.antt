-- ===== src/Picture/Tests.antt =====
-- crates/cobol-sema/src/picture_analyzer.rs: tests and instances at concrete inputs.
use rust_cobol.Prelude.{◌+◌, ◌≤◌, ◌≡◌, refl, ◌⊎◌, true, false, not, ◌&&◌, arith}
use rust_cobol.Prelude.Text.{codes, parse_unsigned}
use rust_cobol.Common.Span.{Span}
use rust_cobol.Picture.Expand.{expand, count_of}
use rust_cobol.Picture.Category.{
  PictureCounts, PictureCategory, IsConsistent, determine_category, is_edited_category,
}
use rust_cobol.Picture.Scan.{start, step, symbol, is_pair, pair_step}
use rust_cobol.Picture.Scan
use rust_cobol.Picture.Analyze.{analyze, counts}
use rust_cobol.Picture.Analyze.Bounds.{width, scalings, is_boolean, counts_all, analyze_lem}
use rust_cobol.Picture.Point.{has_v, analyze-decimal_positions}

abbrev here : Span
here = record { start = 0; end = 9; file_id = 0 }

-- The counters of `ZZ9`.
abbrev edited_counts : PictureCounts
edited_counts = record {
  digit = 1;
  alpha = 0;
  alphanumeric = 0;
  national = 0;
  boolean = 0;
  is_edited = true;
  edit_numeric = 2;
  edit_misc = 0;
}

-- The counters of `9(5)`.
abbrev plain_counts : PictureCounts
plain_counts = record {
  digit = 5;
  alpha = 0;
  alphanumeric = 0;
  national = 0;
  boolean = 0;
  is_edited = false;
  edit_numeric = 0;
  edit_misc = 0;
}

edited_counts-IsConsistent : IsConsistent edited_counts
edited_counts-IsConsistent = refl

plain_counts-IsConsistent : IsConsistent plain_counts
plain_counts-IsConsistent = refl

-- A signed number of five digits, two of them behind the point, takes five positions.
analyze_signed :
    let c = analyze (codes "S9(3)V99") here in
    (c.category ≡ PictureCategory.numeric)
    × (c.size ≡ 5)
    × (c.decimal_positions ≡ 2)
    × (c.is_signed ≡ true)
unfolding analyze start step symbol Scan.scan is_pair pair_step expand counts determine_category
    parse_unsigned count_of
analyze_signed = (refl, refl, refl, refl)

analyze_lem_example :
    let c = analyze (codes "S9(3)V99") here in
    (is_edited_category c.category ≡ (c.is_edited && not (is_boolean c.category)))
    × ((counts_all c.category ≡ false) ⊎ (c.size ≡ width (expand (codes "S9(3)V99"))))
    × (c.size ≤ width (expand (codes "S9(3)V99")))
    × (c.decimal_positions
        ≤ width (expand (codes "S9(3)V99")) + scalings (expand (codes "S9(3)V99")))
unfolding expand parse_unsigned count_of
analyze_lem_example = analyze_lem (codes "S9(3)V99") here (omega arith)

analyze-decimal_positions_example : (analyze (codes "ZZZ.ZZ") here).decimal_positions ≡ 0
unfolding expand has_v
analyze-decimal_positions_example = analyze-decimal_positions (codes "ZZZ.ZZ") here refl
