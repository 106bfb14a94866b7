-- ===== src/Script/Gas.antt =====
-- crates/qv-script/src/gas.rs: the price of each opcode, and the meter.
pub mod Budget
use l1_chain.Base.{ℕ, ◌+◌, ◌-◌, ◌%◌, Bool, true, false, leb, if◌then◌else◌}
use l1_chain.Base.Word.{word}
use l1_chain.Script.Opcode.{
  OpCode, op0, op1, push1, push2, push4, push_int, dup, swap, drop, pick, roll, over, rot, dup2,
  add, sub, mul, div, modulo, neg, abs, min, max, mul_u128, eq, neq, lt, gt, le, ge, not, and, or,
  ge_u128, op_if, op_else, end_if, verify, return, check_sig_pqc, check_multi_sig_pqc, hash_sha3,
  hash_blake3, read_input_value, read_output_value, read_output_script, read_output_datum, tx_hash,
  read_input_datum, self_script_hash, slot_number, input_count, output_count, tx_fee, sig_hash,
  assert_output_script_hash, assert_datum_hash, assert_value, cat, slice, len, bytes_to_int, nop,
}

-- `gas_cost`
unfoldable pub gas_cost : OpCode → ℕ
gas_cost op0 = 1
gas_cost op1 = 1
gas_cost push1 = 10
gas_cost push2 = 10
gas_cost push4 = 10
gas_cost push_int = 10
gas_cost dup = 2
gas_cost swap = 2
gas_cost drop = 1
gas_cost pick = 2
gas_cost roll = 2
gas_cost over = 2
gas_cost rot = 2
gas_cost dup2 = 2
gas_cost add = 5
gas_cost sub = 5
gas_cost mul = 5
gas_cost div = 5
gas_cost modulo = 5
gas_cost neg = 5
gas_cost abs = 5
gas_cost min = 5
gas_cost max = 5
gas_cost mul_u128 = 15
gas_cost eq = 2
gas_cost neq = 2
gas_cost lt = 2
gas_cost gt = 2
gas_cost le = 2
gas_cost ge = 2
gas_cost not = 2
gas_cost and = 2
gas_cost or = 2
gas_cost ge_u128 = 15
gas_cost op_if = 2
gas_cost op_else = 2
gas_cost end_if = 2
gas_cost verify = 2
gas_cost return = 2
gas_cost check_sig_pqc = 500
gas_cost check_multi_sig_pqc = 2000
gas_cost hash_sha3 = 50
gas_cost hash_blake3 = 50
gas_cost read_input_value = 10
gas_cost read_output_value = 10
gas_cost read_output_script = 10
gas_cost read_output_datum = 10
gas_cost tx_hash = 10
gas_cost read_input_datum = 10
gas_cost self_script_hash = 10
gas_cost slot_number = 10
gas_cost input_count = 10
gas_cost output_count = 10
gas_cost tx_fee = 10
gas_cost sig_hash = 10
gas_cost assert_output_script_hash = 20
gas_cost assert_datum_hash = 20
gas_cost assert_value = 20
gas_cost cat = 10
gas_cost slice = 10
gas_cost len = 10
gas_cost bytes_to_int = 10
gas_cost nop = 1

abbrev pub default_gas_limit : ℕ
default_gas_limit = 100000

abbrev pub multisig_per_key_cost : ℕ
multisig_per_key_cost = 500

-- `GasMeter`
pub record GasMeter : Type 0 where
  pub remaining : ℕ
  pub consumed : ℕ

-- `GasMeter::new`
abbrev pub meter : ℕ → GasMeter
meter limit = record { remaining = limit; consumed = 0 }

-- `GasMeter::consume`: whether there was enough, and the meter after it
unfoldable pub consume : GasMeter → ℕ → Bool × GasMeter
consume m amount =
    if leb amount m.remaining
    then (
      true,
      record { remaining = m.remaining - amount; consumed = (m.consumed + amount) % word },
    )
    else (false, m)

-- `GasMeter::charge`
unfoldable pub charge : GasMeter → OpCode → Bool × GasMeter
charge m op = consume m (gas_cost op)
