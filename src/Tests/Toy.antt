-- ===== src/Tests/Toy.antt =====
-- Concrete data for the tests: a cryptography in which a key of one byte signs everything by
-- itself twice, and a transaction.
use l1_chain.Base.{ℕ, zero, suc, [], ◌∷◌, ◌++◌, none, some, replicate, refl, arith, ◌<◌, suc}
use l1_chain.Base.Bytes.{IsBytes, bytes_eq}
use l1_chain.Crypto.{Crypto, IsLawful}
use l1_chain.Core.Tx.{Transaction, TxOutput, TxInput, Serializer}
use l1_chain.Script.Interpreter.Context.{Context, no_hash}
use l1_chain.Script.Interpreter.Safety.{IsContext, IsOutput}

abbrev pub toy_crypto : Crypto
toy_crypto = record {
  sha3_digest = λ d. replicate 32 7;
  blake3_digest = λ d. replicate 32 8;
  verifying_key_len = λ l. 1;
  signature_len = λ l. 2;
  ml_dsa_verify = λ l pk msg sig. bytes_eq (pk ++ pk) sig;
}

replicate-IsBytes : (n b : ℕ) → b < 256 → IsBytes (replicate n b)
replicate-IsBytes zero b h = tt
replicate-IsBytes (suc n) b h = (h, replicate-IsBytes n b h)

pub toy_crypto-IsLawful : IsLawful toy_crypto
toy_crypto-IsLawful = record {
  sha3_len = λ d. refl;
  sha3_bytes = λ d. replicate-IsBytes 32 7 (omega arith);
  blake3_len = λ d. refl;
  blake3_bytes = λ d. replicate-IsBytes 32 8 (omega arith);
}

abbrev pub toy_output : TxOutput
toy_output = record {
  value = 90;
  locking_script = 1 ∷ [];
  datum = some (4 ∷ []);
  stealth_info = none;
}

abbrev pub toy_input : TxInput
toy_input = record { prev_output = record { tx_id = replicate 32 1; index = 0 }; witness = 9 ∷ [] }

abbrev pub toy_tx : Transaction
toy_tx = record {
  version = 1;
  inputs = toy_input ∷ [];
  outputs = toy_output ∷ [];
  validity_interval = record { not_before = none; not_after = none };
  lock_time = 0;
  fee = 3;
}

abbrev pub toy_serializer : Serializer
toy_serializer tx = some (1 ∷ 2 ∷ [])

abbrev pub toy_context : Context
toy_context = record {
  tx = toy_tx;
  resolved_inputs = toy_output ∷ [];
  current_slot = 12;
  tx_hash = no_hash;
  sig_hash = no_hash;
  locking_script_hash = no_hash;
}

toy_output-IsOutput : IsOutput toy_output
toy_output-IsOutput = record {
  value = omega arith;
  script = (omega arith, tt);
  datum = (omega arith, tt);
}

pub toy_context-IsContext : IsContext toy_context
toy_context-IsContext = record {
  outputs = (toy_output-IsOutput, tt);
  inputs = (toy_output-IsOutput, tt);
  fee = omega arith;
  slot = omega arith;
  tx_hash = replicate-IsBytes 32 0 (omega arith);
  sig_hash = replicate-IsBytes 32 0 (omega arith);
  script_hash = replicate-IsBytes 32 0 (omega arith);
}
