-- ===== src/Diagnostics.antt =====
-- crates/cobol-diagnostics: the messages of a compilation and the reporter that collects them.
pub mod Diagnostic
pub mod Reporter
mod Tests
