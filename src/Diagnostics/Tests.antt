-- ===== src/Diagnostics/Tests.antt =====
-- crates/cobol-diagnostics: tests and instances at concrete inputs.
use rust_cobol.Prelude.{◌≡◌, true, List, [], ◌∷◌, length}
use rust_cobol.Prelude.Text.{codes}
use rust_cobol.Diagnostics.Diagnostic.{Diagnostic, of_severity, error, warning, info}
use rust_cobol.Diagnostics.Reporter.{
  WarningLevel, with_warning_level, report_all, error_count, warning_count, has_errors,
  report_all-counts,
}

abbrev reported : List Diagnostic
reported =
    of_severity warning (codes "W1") (codes "unused")
    ∷ of_severity error (codes "E1") (codes "unknown")
    ∷ of_severity info (codes "I1") (codes "note")
    ∷ []

report_all-counts_example :
    let r = report_all (with_warning_level WarningLevel.error_level) reported in
    (error_count r ≡ 2) × (warning_count r ≡ 0) × (length r.diagnostics ≡ 3) × (has_errors r ≡ true)
unfolding of_severity
report_all-counts_example = report_all-counts WarningLevel.error_level reported
