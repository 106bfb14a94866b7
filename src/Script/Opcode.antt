-- ===== src/Script/Opcode.antt =====
-- crates/qv-script/src/opcode.rs, the instruction set: `OpCode`, its byte codes, its mnemonics
-- and its length limits.
pub mod Codes
use l1_chain.Base.{ℕ, Bool, true, false, String, ◌==◌, if◌then◌else◌}
use l1_chain.Base.Outcome.{Outcome, ok, err}

-- `OpCode`. `Mod`, `If` and `Else` are spelled `modulo`, `op_if` and `op_else`.
pub data OpCode : Type 0 where
  op0 op1 push1 push2 push4 push_int : OpCode
  dup swap drop pick roll over : OpCode
  rot dup2 add sub mul div : OpCode
  modulo neg abs min max mul_u128 : OpCode
  eq neq lt gt le ge : OpCode
  not and or ge_u128 op_if op_else : OpCode
  end_if verify return check_sig_pqc check_multi_sig_pqc hash_sha3 : OpCode
  hash_blake3 read_input_value read_output_value read_output_script read_output_datum tx_hash :
      OpCode
  read_input_datum self_script_hash slot_number input_count output_count tx_fee : OpCode
  sig_hash assert_output_script_hash assert_datum_hash assert_value cat slice : OpCode
  len bytes_to_int nop : OpCode

-- `OpcodeError`
pub data OpcodeError : Type 0 where
  unknown_opcode : ℕ → OpcodeError
  unexpected_end : ℕ → ℕ → OpcodeError
  zero_push : OpcodeError
  script_too_large : ℕ → ℕ → OpcodeError

abbrev pub max_script_size : ℕ
max_script_size = 16384

abbrev pub max_stack_depth : ℕ
max_stack_depth = 1024

-- `OpCode::from_byte`
unfoldable pub from_byte : ℕ → Outcome OpcodeError OpCode
from_byte b =
    if b == 0x00
    then ok op0
    else if b == 0x01
    then ok op1
    else if b == 0x02
    then ok push1
    else if b == 0x03
    then ok push2
    else if b == 0x04
    then ok push4
    else if b == 0x05
    then ok push_int
    else if b == 0x10
    then ok dup
    else if b == 0x11
    then ok swap
    else if b == 0x12
    then ok drop
    else if b == 0x13
    then ok pick
    else if b == 0x14
    then ok roll
    else if b == 0x15
    then ok over
    else if b == 0x16
    then ok rot
    else if b == 0x17
    then ok dup2
    else if b == 0x20
    then ok add
    else if b == 0x21
    then ok sub
    else if b == 0x22
    then ok mul
    else if b == 0x23
    then ok div
    else if b == 0x24
    then ok modulo
    else if b == 0x25
    then ok neg
    else if b == 0x26
    then ok abs
    else if b == 0x27
    then ok min
    else if b == 0x28
    then ok max
    else if b == 0x29
    then ok mul_u128
    else if b == 0x30
    then ok eq
    else if b == 0x31
    then ok neq
    else if b == 0x32
    then ok lt
    else if b == 0x33
    then ok gt
    else if b == 0x34
    then ok le
    else if b == 0x35
    then ok ge
    else if b == 0x36
    then ok not
    else if b == 0x37
    then ok and
    else if b == 0x38
    then ok or
    else if b == 0x39
    then ok ge_u128
    else if b == 0x40
    then ok op_if
    else if b == 0x41
    then ok op_else
    else if b == 0x42
    then ok end_if
    else if b == 0x43
    then ok verify
    else if b == 0x44
    then ok return
    else if b == 0x50
    then ok check_sig_pqc
    else if b == 0x51
    then ok check_multi_sig_pqc
    else if b == 0x52
    then ok hash_sha3
    else if b == 0x53
    then ok hash_blake3
    else if b == 0x60
    then ok read_input_value
    else if b == 0x61
    then ok read_output_value
    else if b == 0x62
    then ok read_output_script
    else if b == 0x63
    then ok read_output_datum
    else if b == 0x64
    then ok tx_hash
    else if b == 0x65
    then ok slot_number
    else if b == 0x66
    then ok input_count
    else if b == 0x67
    then ok output_count
    else if b == 0x68
    then ok tx_fee
    else if b == 0x69
    then ok sig_hash
    else if b == 0x6a
    then ok read_input_datum
    else if b == 0x6b
    then ok self_script_hash
    else if b == 0x70
    then ok assert_output_script_hash
    else if b == 0x71
    then ok assert_datum_hash
    else if b == 0x72
    then ok assert_value
    else if b == 0x80
    then ok cat
    else if b == 0x81
    then ok slice
    else if b == 0x82
    then ok len
    else if b == 0x83
    then ok bytes_to_int
    else if b == 0xff
    then ok nop
    else err (unknown_opcode b)

-- The discriminants, which `OpCode::to_byte` returns.
unfoldable pub to_byte : OpCode → ℕ
to_byte op0 = 0x00
to_byte op1 = 0x01
to_byte push1 = 0x02
to_byte push2 = 0x03
to_byte push4 = 0x04
to_byte push_int = 0x05
to_byte dup = 0x10
to_byte swap = 0x11
to_byte drop = 0x12
to_byte pick = 0x13
to_byte roll = 0x14
to_byte over = 0x15
to_byte rot = 0x16
to_byte dup2 = 0x17
to_byte add = 0x20
to_byte sub = 0x21
to_byte mul = 0x22
to_byte div = 0x23
to_byte modulo = 0x24
to_byte neg = 0x25
to_byte abs = 0x26
to_byte min = 0x27
to_byte max = 0x28
to_byte mul_u128 = 0x29
to_byte eq = 0x30
to_byte neq = 0x31
to_byte lt = 0x32
to_byte gt = 0x33
to_byte le = 0x34
to_byte ge = 0x35
to_byte not = 0x36
to_byte and = 0x37
to_byte or = 0x38
to_byte ge_u128 = 0x39
to_byte op_if = 0x40
to_byte op_else = 0x41
to_byte end_if = 0x42
to_byte verify = 0x43
to_byte return = 0x44
to_byte check_sig_pqc = 0x50
to_byte check_multi_sig_pqc = 0x51
to_byte hash_sha3 = 0x52
to_byte hash_blake3 = 0x53
to_byte read_input_value = 0x60
to_byte read_output_value = 0x61
to_byte read_output_script = 0x62
to_byte read_output_datum = 0x63
to_byte tx_hash = 0x64
to_byte read_input_datum = 0x6a
to_byte self_script_hash = 0x6b
to_byte slot_number = 0x65
to_byte input_count = 0x66
to_byte output_count = 0x67
to_byte tx_fee = 0x68
to_byte sig_hash = 0x69
to_byte assert_output_script_hash = 0x70
to_byte assert_datum_hash = 0x71
to_byte assert_value = 0x72
to_byte cat = 0x80
to_byte slice = 0x81
to_byte len = 0x82
to_byte bytes_to_int = 0x83
to_byte nop = 0xff

-- `OpCode::mnemonic`
unfoldable pub mnemonic : OpCode → String
mnemonic op0 = "OP_0"
mnemonic op1 = "OP_1"
mnemonic push1 = "PUSH1"
mnemonic push2 = "PUSH2"
mnemonic push4 = "PUSH4"
mnemonic push_int = "PUSH_INT"
mnemonic dup = "DUP"
mnemonic swap = "SWAP"
mnemonic drop = "DROP"
mnemonic pick = "PICK"
mnemonic roll = "ROLL"
mnemonic over = "OVER"
mnemonic rot = "ROT"
mnemonic dup2 = "DUP2"
mnemonic add = "ADD"
mnemonic sub = "SUB"
mnemonic mul = "MUL"
mnemonic div = "DIV"
mnemonic modulo = "MOD"
mnemonic neg = "NEG"
mnemonic abs = "ABS"
mnemonic min = "MIN"
mnemonic max = "MAX"
mnemonic mul_u128 = "MUL_U128"
mnemonic eq = "EQ"
mnemonic neq = "NEQ"
mnemonic lt = "LT"
mnemonic gt = "GT"
mnemonic le = "LE"
mnemonic ge = "GE"
mnemonic not = "NOT"
mnemonic and = "AND"
mnemonic or = "OR"
mnemonic ge_u128 = "GE_U128"
mnemonic op_if = "IF"
mnemonic op_else = "ELSE"
mnemonic end_if = "ENDIF"
mnemonic verify = "VERIFY"
mnemonic return = "RETURN"
mnemonic check_sig_pqc = "CHECKSIG_PQC"
mnemonic check_multi_sig_pqc = "CHECKMULTISIG_PQC"
mnemonic hash_sha3 = "HASH_SHA3"
mnemonic hash_blake3 = "HASH_BLAKE3"
mnemonic read_input_value = "READ_INPUT_VALUE"
mnemonic read_output_value = "READ_OUTPUT_VALUE"
mnemonic read_output_script = "READ_OUTPUT_SCRIPT"
mnemonic read_output_datum = "READ_OUTPUT_DATUM"
mnemonic tx_hash = "TX_HASH"
mnemonic read_input_datum = "READ_INPUT_DATUM"
mnemonic self_script_hash = "SELF_SCRIPT_HASH"
mnemonic slot_number = "SLOT_NUMBER"
mnemonic input_count = "INPUT_COUNT"
mnemonic output_count = "OUTPUT_COUNT"
mnemonic tx_fee = "TX_FEE"
mnemonic sig_hash = "SIG_HASH"
mnemonic assert_output_script_hash = "ASSERT_OUTPUT_SCRIPT_HASH"
mnemonic assert_datum_hash = "ASSERT_DATUM_HASH"
mnemonic assert_value = "ASSERT_VALUE"
mnemonic cat = "CAT"
mnemonic slice = "SLICE"
mnemonic len = "LEN"
mnemonic bytes_to_int = "BYTES_TO_INT"
mnemonic nop = "NOP"

-- `OpCode::is_push`
unfoldable pub is_push : OpCode → Bool
is_push push1 = true
is_push push2 = true
is_push push4 = true
is_push push_int = true
is_push _ = false
