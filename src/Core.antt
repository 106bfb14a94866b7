-- ===== src/Core.antt =====
-- crates/qv-core: the types that the other parts share.
pub mod Tx
pub mod SigHash
pub mod Coinbase
pub mod Monetary
pub mod Block
