-- ===== src/Diagnostics/Diagnostic.antt =====
-- crates/cobol-diagnostics/src/diagnostic.rs: a message with severity, code, labels and notes.
use rust_cobol.Prelude.{Bool, true, false, List, [], ◌∷◌, ◌++◌}
use rust_cobol.Prelude.Text.{Text}
use rust_cobol.Common.Span.{Span}

pub data Severity : Type 0 where
  error warning info hint : Severity

-- `==`, as `#[derive(PartialEq)]` gives it.
abbrev pub severity_eq : Severity → Severity → Bool
severity_eq error error = true
severity_eq warning warning = true
severity_eq info info = true
severity_eq hint hint = true
severity_eq _ _ = false

pub record Label : Type 0 where
  pub span : Span
  pub message : Text

pub record Diagnostic : Type 0 where
  pub severity : Severity
  pub code : Text
  pub message : Text
  pub labels : List Label
  pub notes : List Text

-- `Diagnostic::error`, `warning` and `info`: the same body at each severity.
unfoldable pub of_severity : Severity → Text → Text → Diagnostic
of_severity severity code message = record {
  severity = severity;
  code = code;
  message = message;
  labels = [];
  notes = [];
}

unfoldable pub with_label : Diagnostic → Span → Text → Diagnostic
with_label d span message = record d {
  labels = d.labels ++ record { span = span; message = message } ∷ [];
}

unfoldable pub with_span : Diagnostic → Span → Diagnostic
with_span d span = record d { labels = d.labels ++ record { span = span; message = [] } ∷ [] }

unfoldable pub with_note : Diagnostic → Text → Diagnostic
with_note d note = record d { notes = d.notes ++ note ∷ [] }

abbrev pub is_error : Diagnostic → Bool
is_error d = severity_eq d.severity error
