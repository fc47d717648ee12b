-- ===== src/Common/Tests.antt =====
-- crates/cobol-common: tests and instances at concrete inputs.
use rust_cobol.Prelude.{ℕ, ◌≡◌, refl, some, List, [], ◌∷◌, ◌++◌, arith, take}
use rust_cobol.Prelude.Text.{Text, codes}
use rust_cobol.Common.Span.{Span}
use rust_cobol.Common.Source.{
  line_col, scan, line_count, newlines, line_col-scan, line_count-newlines,
}
use rust_cobol.Common.Source
use rust_cobol.Common.SourceMap.{add_file, add_files, get_file, empty, id-get_file}

abbrev left_span : Span
left_span = record { start = 3; end = 8; file_id = 1 }

abbrev right_span : Span
right_span = record { start = 6; end = 12; file_id = 1 }

abbrev two_lines : Text
two_lines = codes "ab" ++ 10 ∷ codes "cd"

line_col-scan_example :
    line_col (Source.new 0 (codes "a.cob") two_lines) 4 ≡ scan (take 4 two_lines) (1, 1)
line_col-scan_example = line_col-scan 0 (codes "a.cob") two_lines 4 (omega arith)

-- The `d` of the second line.
scan_second_line : scan (take 4 two_lines) (1, 1) ≡ (2, 2)
unfolding scan
scan_second_line = refl

abbrev inputs : List (Text × List ℕ)
inputs = (codes "a.cob", two_lines) ∷ (codes "b.cob", codes "x") ∷ []

second_file : get_file (add_files empty inputs) 1 ≡ some (Source.new 1 (codes "b.cob") (codes "x"))
unfolding get_file add_files add_file
second_file = refl

id-get_file_example : (Source.new 1 (codes "b.cob") (codes "x")).id ≡ 1
id-get_file_example =
    id-get_file inputs 1 (Source.new 1 (codes "b.cob") (codes "x")) (omega arith) second_file
