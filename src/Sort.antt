-- ===== src/Sort.antt =====
-- crates/cobol-runtime/src/sort_merge.rs: sorting of fixed-length records by keys, and the buffers of
-- the SORT statement's INPUT and OUTPUT PROCEDURE.
pub mod Order
pub mod Keys
pub mod Compare
pub mod Stable
pub mod Buffer
pub mod Cycle
pub mod Records
mod Tests
