-- ===== src/Defi.antt =====
-- crates/qv-defi: the constant-product pool and the price oracle.
pub mod Amm
pub mod Oracle
