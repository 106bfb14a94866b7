-- ===== src/Lib.antt =====
-- QuantumVault, an L1 chain with post-quantum signatures: its script machine, its ledger rules (minting,
-- rewards, stake, the store of unspent outputs), its choice and finality of chains, and its
-- constant-product pools.
--
-- An output of a transaction is locked by a script. To spend it, the ledger calls `validate_script`
-- (crates/qv-script/src/script.rs) with the bytes of the witness and of the locking script. They
-- are decoded into instructions (crates/qv-script/src/opcode.rs), which a stack machine runs
-- (crates/qv-script/src/interpreter.rs) while a meter charges for them
-- (crates/qv-script/src/gas.rs). The machine reads the transaction (crates/qv-core) and calls
-- hashes and signature checks (crates/qv-crypto). A block is paid by the rules of
-- crates/qv-consensus/src/rewards.rs, from the parameters of crates/qv-core/src/params.rs, and the
-- stake of an epoch is counted by crates/qv-consensus/src/stake.rs. A node indexes the headers of
-- blocks, chooses its tip and finalizes blocks in crates/qv-consensus/src/chain_state.rs, where it
-- also compares whole chains and answers a peer's locator. The outputs of accepted blocks are kept by
-- crates/qv-storage/src/utxo_store.rs, which undoes a block on a reorganisation, behind the structural
-- checks of crates/qv-core/src/block.rs. The pools of crates/qv-defi/src/amm.rs live in outputs with a
-- datum, and their arithmetic stands apart from the other parts.
--
-- Base has the shared names: lists over the native numbers, `Outcome` (a result, an error, a panic
-- or no end), bytes, and 64-bit words; an `i64` is its bit pattern, and every operation has its
-- wrap-around or its saturation written out.
--
-- Crypto: `verify`, `PqcPublicKey::from_bytes`, `PqcSignature::from_bytes` of
--   crates/qv-crypto/src/pqc_sign.rs and the hashes of hash.rs. The digests, the lengths and the
--   ML-DSA verifier are other crates: they are the fields of the record `Crypto`, and `IsLawful`
--   says that a digest has 32 bytes.
-- Core.Tx, Core.SigHash: the transaction of crates/qv-core/src/transaction.rs, `id` and `sighash`;
--   bincode is the parameter `Serializer`.
-- Core.Coinbase: `validate_coinbase_structure`, and `Amount::checked_sum` of
--   crates/qv-core/src/types.rs; Accepted is about them.
-- Core.Monetary: `MonetaryParams` of crates/qv-core/src/params.rs.
-- Core.Block: `Block`, `BlockHeader`, `validate_structure` and `merkle_root_of` of
--   crates/qv-core/src/block.rs (a level of n hashes has about half as many above it, so n + 1 rounds
--   are enough fuel), and `Transaction::validate_structure`. A search for equal neighbours in a
--   sorted list is a search for equal members.
-- Script.Opcode: `OpCode`, `from_byte`, `to_byte`, `mnemonic`; Codes is about the two tables.
-- Script.Instruction, Script.Decode: `Instruction::encode`, `encode_instructions` and
--   `decode_script`. The loop has the script's length as fuel, since each round takes a byte.
--   RoundTrip and Total are about them.
-- Script.Gas: `gas_cost` and `GasMeter`; Budget is about its two counters.
-- Script.Interpreter: Value (values and errors), Context, and the arms of the loop of
--   `execute_instructions`: Stack (stack moves), Arith, Signatures (`checksig_pqc`,
--   `checkmultisig_pqc`, the hashes), Introspect (reads and covenant assertions), Bytestrings. Step
--   has the loop: `step` charges and dispatches, `run` is the loop, `finish` is what follows it. The
--   stack's top is the head of a list, and so is the innermost condition.
--   Safety is about what every operation keeps, Metering about gas, Structured about conditionals:
--   there a nested program has a meaning without a stack of conditions. MultiSig, Panic and Wide are
--   about the multi-signature, its allocation, and 128-bit products.
-- Script.Validate: `validate_script`, `validate_script_with_gas` and `compile`.
-- Script.Templates: `ScriptBuilder` and `p2pkh_pqc` of crates/qv-script/src/templates.rs;
--   SingleOwner runs its instructions, and SingleOwner.Spend is about spending.
-- Consensus.Rewards: `block_subsidy`, `cumulative_emission` (on 65 rounds of fuel: a 64-bit reward
--   is 0 after 64 halvings), `total_block_reward`; Supply is about them, with the schedule as a sum
--   over heights. Share is `distribute_reward`, and Share.Conserved is about it.
-- Consensus.Stake: `StakePool`, `Delegation`, `StakeDistribution::new`, `snapshot` and the queries. A
--   `BTreeMap` is an association list with each key once, in the order of insertion, since no
--   modelled operation shows the order. Totals, Keys and Snapshot are about them.
-- Consensus.Chain: `ChainState` with `genesis`, `add_block`, `is_ancestor`, `advance_finality` and
--   `record_equivocation`. A hash is the number that its bytes write, a map a list with the newest
--   binding first. A walk along parents has a round of fuel for each entry and one more: each
--   parent came earlier. Walk relates the walks to paths in the tree, Step says what an accepted
--   block has done, Sound has the reachable states and the invariant; Invariant, Total, Finality,
--   Progress, Evidence and Accused are about them. Listing has `ancestors`, `canonical_chain` and
--   `chain_density`, and Canonical is about the second.
-- Consensus.Selection: `maxvalid_bg`, `build_locator` (fuel: the chain's length, as each round lowers
--   the index) and `select_headers_for_locator`; Agreement, Built, Short and Locator are
--   about them.
-- Storage.Utxo: `UtxoStore` as three maps, with the loops of `apply_block`; Blocks has `apply_block`
--   and `revert_block`. Maps is about batches, Staged and Revert about the loops, Restored about
--   both calls together, Live about the coinbase heights.
-- Defi.Amm: `PoolDatum`, `apply_swap`, `compute_swap_output`, `compute_add_liquidity`,
--   `compute_remove_liquidity` and `sqrt_u128` (n + 1 rounds of fuel: the estimate falls in each).
--   Swap, Liquidity, Sqrt and Datum are about them.
-- Defi.Oracle: `PriceObservation`, `OracleWindow`, `aggregate_median`, `compute_twap` and
--   `detect_manipulation`, with the cast to 16 bits; Median, Accepted, Twap and Guard are
--   about them.
-- Tests: runs on concrete inputs.
--
-- Not modelled: the other script templates, the disassembler, floating-point display, key
-- generation and signing, snapshots of the store, slots, epochs and leader election, the mempool,
-- lending and intents, privacy, the network, the node, the miner and the wallet. What bincode
-- writes is read back, and the key-value backend does not fail. `Vec::with_capacity` and the
-- `extend_from_slice` of `Cat` panic in the model where the bytes exceed `isize::MAX`, and a slice
-- of the script out of range panics; running out of memory below that is not modelled.
mod Base
pub mod Crypto
pub mod Core
pub mod Consensus
pub mod Defi
pub mod Storage
pub mod Script
pub mod Tests
