-- ===== src/Preprocessor.antt =====
-- crates/cobol-preprocessor/src: the replacement of words.
pub mod Replacer
pub mod Places
pub mod Words
mod Tests
