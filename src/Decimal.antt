-- ===== src/Decimal.antt =====
-- crates/cobol-runtime/src/decimal.rs: fixed-point decimals as scaled integers.
pub mod Core
pub mod Powers
pub mod Bounds
pub mod Exact
pub mod Order
pub mod Convert
pub mod Parse
mod Tests
