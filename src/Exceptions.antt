-- ===== src/Exceptions.antt =====
-- crates/cobol-runtime/src/exception.rs: exceptions and their handlers.
pub mod Handlers
pub mod Nesting
mod Tests
