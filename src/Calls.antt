-- ===== src/Calls.antt =====
-- crates/cobol-runtime/src/program.rs: CALL and GOBACK.
pub mod Program
mod Tests
