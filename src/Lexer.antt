-- ===== src/Lexer.antt =====
-- crates/cobol-lexer/src: the lines of a source and their columns, and the tokens.
pub mod Reader
pub mod Lines
pub mod Kinds
pub mod Keywords
pub mod Scan
pub mod Tokens
pub mod Lexemes
pub mod Progress
pub mod Gaps
pub mod Step
pub mod Run
pub mod Ascii
pub mod Literal
pub mod Segments
pub mod New
pub mod Plain
pub mod Contents
pub mod Total
mod Tests
