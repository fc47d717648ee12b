-- ===== src/Diagnostics/Reporter.antt =====
-- crates/cobol-diagnostics/src/reporter.rs: the collection of diagnostics under a warning level.
use rust_cobol.Prelude.{
  ℕ, ◌+◌, ◌≡◌, refl, Bool, false, not, ◌&&◌, ◌||◌, List, [], ◌∷◌, ◌++◌, arith, ltb, if◌then◌else◌,
  length, length-append,
}
use rust_cobol.Prelude.Text.{Text, codes}
use rust_cobol.Diagnostics.Diagnostic.{
  Severity, Diagnostic, severity_eq, error, warning, info, hint,
}

pub data WarningLevel : Type 0 where
  all default none_level error_level : WarningLevel

pub record DiagnosticReporter : Type 0 where
  pub diagnostics : List Diagnostic
  pub warning_level : WarningLevel

abbrev pub with_warning_level : WarningLevel → DiagnosticReporter
with_warning_level level = record { diagnostics = []; warning_level = level }

unfoldable pub new : DiagnosticReporter
new = with_warning_level default

unfoldable pub set_warning_level : DiagnosticReporter → WarningLevel → DiagnosticReporter
set_warning_level r level = record r { warning_level = level }

-- `self.diagnostics.push(diagnostic)`
abbrev push : DiagnosticReporter → Diagnostic → DiagnosticReporter
push r d = record r { diagnostics = r.diagnostics ++ d ∷ [] }

abbrev promotion_note : Text
promotion_note = codes "this warning is promoted to an error due to -Werror"

promoted : Diagnostic → Diagnostic
promoted d = record {
  severity = error;
  code = d.code;
  message = d.message;
  labels = d.labels;
  notes = d.notes ++ promotion_note ∷ [];
}

-- The arms of `report`.
report_at : WarningLevel → DiagnosticReporter → Diagnostic → DiagnosticReporter
unfolding promoted
report_at none_level r d = if severity_eq d.severity error then push r d else r
report_at error_level r d = if severity_eq d.severity warning then push r (promoted d) else push r d
report_at default r d =
    if not (severity_eq d.severity hint) && not (severity_eq d.severity info) then push r d else r
report_at all r d = push r d

unfoldable pub report : DiagnosticReporter → Diagnostic → DiagnosticReporter
unfolding report_at
report r d = report_at r.warning_level r d

count_severity : Severity → List Diagnostic → ℕ
count_severity s [] = 0
count_severity s (d ∷ ds) = (if severity_eq d.severity s then 1 else 0) + count_severity s ds

any_error : List Diagnostic → Bool
any_error [] = false
any_error (d ∷ ds) = severity_eq d.severity error || any_error ds

unfoldable pub has_errors : DiagnosticReporter → Bool
unfolding any_error
has_errors r = any_error r.diagnostics

unfoldable pub error_count : DiagnosticReporter → ℕ
unfolding count_severity
error_count r = count_severity error r.diagnostics

unfoldable pub warning_count : DiagnosticReporter → ℕ
unfolding count_severity
warning_count r = count_severity warning r.diagnostics

unfoldable pub take_diagnostics : DiagnosticReporter → DiagnosticReporter × List Diagnostic
take_diagnostics r = (record r { diagnostics = [] }, r.diagnostics)

-- A compilation's reports, one after another.
unfoldable pub report_all : DiagnosticReporter → List Diagnostic → DiagnosticReporter
report_all r [] = r
report_all r (d ∷ ds) = report_all (report r d) ds

count_severity-append :
    (s : Severity) (xs ys : List Diagnostic)
    → count_severity s (xs ++ ys) ≡ count_severity s xs + count_severity s ys
unfolding count_severity
count_severity-append s [] ys = omega arith
count_severity-append s (x ∷ xs) ys = omega (arith, count_severity-append s xs ys)

any_error-count : (ds : List Diagnostic) → any_error ds ≡ ltb 0 (count_severity error ds)
unfolding any_error count_severity
any_error-count [] = refl
any_error-count (d ∷ ds) = ground (arith, any_error-count ds)

-- A run has errors exactly when it counts at least one.
pub has_errors-error_count : (r : DiagnosticReporter) → has_errors r ≡ ltb 0 (error_count r)
unfolding has_errors error_count
has_errors-error_count r = any_error-count r.diagnostics

-- What a level makes of one severity: how many errors and how many warnings it collects.
abbrev pub errors_of : WarningLevel → Severity → ℕ
errors_of level error = 1
errors_of error_level warning = 1
errors_of level _ = 0

abbrev pub warnings_of : WarningLevel → Severity → ℕ
warnings_of all warning = 1
warnings_of default warning = 1
warnings_of level _ = 0

abbrev pub total_of : (Severity → ℕ) → List Diagnostic → ℕ
total_of weight [] = 0
total_of weight (d ∷ ds) = weight d.severity + total_of weight ds

-- The diagnostics kept at a level.
abbrev pub kept_of : WarningLevel → Severity → ℕ
kept_of none_level error = 1
kept_of none_level _ = 0
kept_of default hint = 0
kept_of default info = 0
kept_of level _ = 1

report_counts :
    (level : WarningLevel) (r : DiagnosticReporter) (d : Diagnostic)
    → r.warning_level ≡ level
    → ((report r d).warning_level ≡ level)
      × (error_count (report r d) ≡ error_count r + errors_of level d.severity)
      × (warning_count (report r d) ≡ warning_count r + warnings_of level d.severity)
      × (length (report r d).diagnostics ≡ length r.diagnostics + kept_of level d.severity)
unfolding report error_count warning_count
report_counts level r d e = ground (
  arith,
  count_severity-append error r.diagnostics (d ∷ []),
  count_severity-append error r.diagnostics (promoted d ∷ []),
  count_severity-append warning r.diagnostics (d ∷ []),
  count_severity-append warning r.diagnostics (promoted d ∷ []),
  length-append r.diagnostics (d ∷ []),
  length-append r.diagnostics (promoted d ∷ []),
)

report_all-counts_from :
    (level : WarningLevel) (ds : List Diagnostic) (r : DiagnosticReporter)
    → r.warning_level ≡ level
    → let r' = report_all r ds in
      (error_count r' ≡ error_count r + total_of (errors_of level) ds)
      × (warning_count r' ≡ warning_count r + total_of (warnings_of level) ds)
      × (length r'.diagnostics ≡ length r.diagnostics + total_of (kept_of level) ds)
unfolding report_all
report_all-counts_from level [] r e = (omega arith, omega arith, omega arith)
report_all-counts_from level (d ∷ ds) r e =
    let (same, errors, warnings, kept) = report_counts level r d e in
    let (errors', warnings', kept') = report_all-counts_from level ds (report r d) same in
    (omega (arith, errors, errors'), omega (arith, warnings, warnings'), omega (arith, kept, kept'))

-- What a level does to a whole run of reports: the errors counted are the reported errors, and under
-- the error level also the reported warnings; warnings are counted under the levels `all` and
-- `default` alone; infos and hints are kept under `all` and the error level alone.
pub report_all-counts :
    (level : WarningLevel) (ds : List Diagnostic)
    → let r = report_all (with_warning_level level) ds in
      (error_count r ≡ total_of (errors_of level) ds)
      × (warning_count r ≡ total_of (warnings_of level) ds)
      × (length r.diagnostics ≡ total_of (kept_of level) ds)
      × (has_errors r ≡ ltb 0 (total_of (errors_of level) ds))
unfolding error_count warning_count
report_all-counts level ds =
    let r = report_all (with_warning_level level) ds in
    let (errors, warnings, kept) =
      report_all-counts_from level ds (with_warning_level level) refl in
    ground (arith, errors, warnings, kept, has_errors-error_count r)
