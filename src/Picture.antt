-- ===== src/Picture.antt =====
-- crates/cobol-sema/src/picture_analyzer.rs and crates/cobol-ast/src/picture.rs: what a PICTURE
-- string says of a data item.
pub mod Expand
pub mod Scan
pub mod Category
pub mod Analyze
pub mod Point
mod Tests
