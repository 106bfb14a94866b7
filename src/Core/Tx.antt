-- ===== src/Core/Tx.antt =====
-- crates/qv-core/src/transaction.rs and types.rs: transactions. The newtypes over bytes and over
-- `u64` (`Script`, `Datum`, `Witness`, `TxId`, `Amount`, `Slot`) are their contents.
use l1_chain.Base.{ℕ, Option, List, [], map}
use l1_chain.Crypto.{Crypto, sha3_256}
use mathlib.Core.Option

-- `OutPoint`
pub record OutPoint : Type 0 where
  pub tx_id : List ℕ
  pub index : ℕ

-- `TxInput`
pub record TxInput : Type 0 where
  pub prev_output : OutPoint
  pub witness : List ℕ

-- `StealthInfo`
pub record StealthInfo : Type 0 where
  pub ephemeral_pubkey : List ℕ
  pub kyber_level : ℕ
  pub view_tag : ℕ

-- `TxOutput`
pub record TxOutput : Type 0 where
  pub value : ℕ
  pub locking_script : List ℕ
  pub datum : Option (List ℕ)
  pub stealth_info : Option StealthInfo

-- `ValidityInterval`
pub record ValidityInterval : Type 0 where
  pub not_before : Option ℕ
  pub not_after : Option ℕ

-- `Transaction`
pub record Transaction : Type 0 where
  pub version : ℕ
  pub inputs : List TxInput
  pub outputs : List TxOutput
  pub validity_interval : ValidityInterval
  pub lock_time : ℕ
  pub fee : ℕ

-- `bincode::serialize`, of another crate; `none` is its error.
abbrev pub Serializer : Type 0
Serializer = Transaction → Option (List ℕ)

-- The loop of `sighash`: every witness is emptied.
abbrev pub without_witness : TxInput → TxInput
without_witness i = record i { witness = [] }

abbrev pub bare : Transaction → Transaction
bare tx = record tx { inputs = map without_witness tx.inputs }

-- `Transaction::id`
unfoldable pub id : Crypto → Serializer → Transaction → Option (List ℕ)
id c serialize tx = Option.map (sha3_256 c) (serialize tx)

-- `Transaction::sighash`
unfoldable pub sighash : Crypto → Serializer → Transaction → Option (List ℕ)
sighash c serialize tx = Option.map (sha3_256 c) (serialize (bare tx))
