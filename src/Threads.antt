-- ===== src/Threads.antt =====
-- crates/cobol-runtime/src/threading.rs: the mutexes of COBOL threads.
pub mod Mutex
pub mod Exclusion
mod Tests
