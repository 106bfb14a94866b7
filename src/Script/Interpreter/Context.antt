-- ===== src/Script/Interpreter/Context.antt =====
-- `Context` of crates/qv-script/src/interpreter.rs: what a script can read of its transaction.
use mathlib.Core.Option.{get_or}
use l1_chain.Base.{ℕ, List, replicate}
use l1_chain.Crypto.{Crypto, sha3_256}
use l1_chain.Core.Tx.{Transaction, TxOutput, Serializer, id, sighash}

pub record Context : Type 0 where
  pub tx : Transaction
  pub resolved_inputs : List TxOutput
  pub current_slot : ℕ
  pub tx_hash : List ℕ
  pub sig_hash : List ℕ
  pub locking_script_hash : List ℕ

-- `[0u8; 32]`
abbrev pub no_hash : List ℕ
no_hash = replicate 32 0

-- `Context::new`
unfoldable pub new_context : Crypto → Serializer → Transaction → List TxOutput → ℕ → Context
unfolding id sighash
new_context c serialize tx resolved_inputs current_slot = record {
  tx = tx;
  resolved_inputs = resolved_inputs;
  current_slot = current_slot;
  tx_hash = get_or (id c serialize tx) no_hash;
  sig_hash = get_or (sighash c serialize tx) no_hash;
  locking_script_hash = no_hash;
}

-- `Context::with_locking_script`
unfoldable pub with_locking_script : Crypto → Context → List ℕ → Context
with_locking_script c ctx script = record ctx { locking_script_hash = sha3_256 c script }
