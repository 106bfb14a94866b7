-- ===== src/Storage.antt =====
-- crates/qv-storage: the store of unspent outputs.
pub mod Utxo
