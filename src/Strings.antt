-- ===== src/Strings.antt =====
-- crates/cobol-runtime/src/string_ops.rs: the fields of alphanumeric statements.
pub mod Compare
pub mod Class
pub mod Move
pub mod Inspect
pub mod Concat
pub mod Unstring
pub mod Zoned
mod Tests
