-- ===== src/Symbols.antt =====
-- crates/cobol-sema/src/symbol_table.rs: scopes, symbols and COBOL's qualified names.
pub mod Types
pub mod Table
pub mod Scopes
pub mod Lookup
pub mod Qualify
mod Tests
