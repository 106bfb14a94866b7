-- ===== src/Consensus.antt =====
-- crates/qv-consensus: rewards, the stake snapshot, and the chain with its fork choice.
pub mod Rewards
pub mod Stake
pub mod Chain
pub mod Selection
