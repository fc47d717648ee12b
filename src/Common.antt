-- ===== src/Common.antt =====
-- crates/cobol-common: positions in source text, the files of a compilation, language standards.
pub mod Span
pub mod Standard
pub mod Source
pub mod SourceMap
mod Tests
