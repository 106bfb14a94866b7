-- ===== src/Tests.antt =====
-- Runs of the development's definitions on concrete inputs.
pub mod Toy
pub mod Script
pub mod Machine
pub mod Ledger
pub mod Accused
pub mod Chain
pub mod Pool
pub mod Store
pub mod Oracle
