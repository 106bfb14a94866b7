-- ===== src/Script/Templates.antt =====
-- crates/qv-script/src/templates.rs: the builder of scripts, and the script of a single owner.
pub mod SingleOwner
use l1_chain.Base.{ℕ, List, [], ◌∷◌, ◌++◌, ◌==◌, if◌then◌else◌}
use l1_chain.Crypto.{Crypto, sha3_256}
use l1_chain.Script.Opcode.{
  OpCode, op0, op1, dup, hash_sha3, eq, verify, sig_hash, rot, check_sig_pqc,
}
use l1_chain.Script.Instruction
use l1_chain.Script.Instruction.{Instruction, simple, encode_instructions}

-- `ScriptBuilder`
pub record ScriptBuilder : Type 0 where
  pub instructions : List Instruction

-- `ScriptBuilder::new`
abbrev pub empty_builder : ScriptBuilder
empty_builder = record { instructions = [] }

-- `ScriptBuilder::instruction`
abbrev pub instruction : ScriptBuilder → Instruction → ScriptBuilder
instruction b i = record { instructions = b.instructions ++ (i ∷ []) }

-- `ScriptBuilder::op`
abbrev pub op : ScriptBuilder → OpCode → ScriptBuilder
op b o = instruction b (simple o)

-- `ScriptBuilder::push_int`, of the bit pattern of an `i64`
abbrev pub push_int : ScriptBuilder → ℕ → ScriptBuilder
push_int b n =
    if n == 0
    then op b op0
    else if n == 1
    then op b op1
    else instruction b (Instruction.push_integer n)

-- `ScriptBuilder::push_bytes`
abbrev pub push_bytes : ScriptBuilder → List ℕ → ScriptBuilder
push_bytes b d = instruction b (Instruction.push_bytes d)

-- `ScriptBuilder::build`
abbrev pub build : ScriptBuilder → List ℕ
build b = encode_instructions b.instructions

-- `p2pkh_pqc`, before it is built
abbrev pub p2pkh_builder : List ℕ → ScriptBuilder
p2pkh_builder hash =
    let opened = op (op empty_builder dup) hash_sha3 in
    let checked = op (op (push_bytes opened hash) eq) verify in
    op (op (op (op checked sig_hash) rot) rot) check_sig_pqc

unfoldable pub p2pkh_pqc : List ℕ → List ℕ
p2pkh_pqc hash = build (p2pkh_builder hash)

-- `pubkey_hash`
unfoldable pub pubkey_hash : Crypto → List ℕ → List ℕ
pubkey_hash c key = sha3_256 c key
