-- ===== src/Script/Interpreter/Step.antt =====
-- The loop of `execute_instructions` in crates/qv-script/src/interpreter.rs. The last element of
-- `exec_stack` is the head of the list here too.
use l1_chain.Base.{
  ℕ, ◌%◌, Bool, true, false, not, ◌&&◌, ◌||◌, List, [], ◌∷◌, length, drop, ltb, if◌then◌else◌,
  reverse,
}
use l1_chain.Base.Word.{
  word, wrapping_add, wrapping_sub, wrapping_mul, wrapping_div, wrapping_rem, wrapping_neg,
  wrapping_abs, signed_min, signed_max, signed_lt, signed_le,
}
use l1_chain.Base.Outcome.{ok, err, ◌>>=◌}
use l1_chain.Crypto.{Crypto, sha3_256, blake3}
use l1_chain.Script.Opcode.{
  OpCode, op0, op1, push1, push2, push4, push_int, dup, swap, pick, roll, over, rot, dup2, add, sub,
  mul, div, modulo, neg, abs, min, max, mul_u128, eq, neq, lt, gt, le, ge, and, or, ge_u128, op_if,
  op_else, end_if, verify, return, check_sig_pqc, check_multi_sig_pqc, hash_sha3, hash_blake3,
  read_input_value, read_output_value, read_output_script, read_output_datum, tx_hash,
  read_input_datum, self_script_hash, slot_number, input_count, output_count, tx_fee, sig_hash,
  assert_output_script_hash, assert_datum_hash, assert_value, cat, slice, len, bytes_to_int, nop,
}
use l1_chain.Script.Instruction.{Instruction}
use l1_chain.Script.Decode.{decode_script}
use l1_chain.Script.Gas.{GasMeter, charge}
use l1_chain.Script.Interpreter.Value.{
  Value, int, bytes, Script, is_truthy, value_eq, out_of_gas, returned, unbalanced_conditional,
  from_decoder,
}
use l1_chain.Script.Interpreter.Context.{Context}
use l1_chain.Script.Interpreter.Stack.{
  Stack, push, pop, bin_int_op, cmp_int_op, dup_op, swap_op, drop_op, pick_op, roll_op, over_op,
  rot_op, dup2_op, push_int_op,
}
use l1_chain.Script.Interpreter.Arith.{
  div_op, unary_op, mul_u128_op, ge_u128_op, value_op, values_differ, both_truthy, either_truthy,
  not_op, verify_op,
}
use l1_chain.Script.Interpreter.Signatures.{check_sig_op, check_multi_sig_op, hash_op}
use l1_chain.Script.Interpreter.Introspect.{
  read_op, value_of, script_of, datum_of, script_hash_matches, datum_hash_matches, assert_hash_op,
  assert_value_op,
}
use l1_chain.Script.Interpreter.Bytestrings.{cat_op, slice_op, len_op, bytes_to_int_op}

-- The second `match`, for the opcodes that leave the gas alone. `If`, `Else`, `EndIf` and
-- `CheckMultiSigPqc` are handled before it, and their clauses are not reached.
unfoldable pub stack_effect : Crypto → Context → OpCode → List ℕ → Stack → Script Stack
stack_effect c ctx op0 d st = push st (int 0)
stack_effect c ctx op1 d st = push st (int 1)
stack_effect c ctx push1 d st = push st (bytes d)
stack_effect c ctx push2 d st = push st (bytes d)
stack_effect c ctx push4 d st = push st (bytes d)
stack_effect c ctx push_int d st = push_int_op d st
stack_effect c ctx dup d st = dup_op st
stack_effect c ctx swap d st = swap_op st
stack_effect c ctx OpCode.drop d st = drop_op st
stack_effect c ctx pick d st = pick_op st
stack_effect c ctx roll d st = roll_op st
stack_effect c ctx over d st = over_op st
stack_effect c ctx rot d st = rot_op st
stack_effect c ctx dup2 d st = dup2_op st
stack_effect c ctx add d st = bin_int_op wrapping_add st
stack_effect c ctx sub d st = bin_int_op wrapping_sub st
stack_effect c ctx mul d st = bin_int_op wrapping_mul st
stack_effect c ctx div d st = div_op wrapping_div st
stack_effect c ctx modulo d st = div_op wrapping_rem st
stack_effect c ctx neg d st = unary_op wrapping_neg st
stack_effect c ctx abs d st = unary_op wrapping_abs st
stack_effect c ctx min d st = bin_int_op signed_min st
stack_effect c ctx max d st = bin_int_op signed_max st
stack_effect c ctx mul_u128 d st = mul_u128_op st
stack_effect c ctx eq d st = value_op value_eq st
stack_effect c ctx neq d st = value_op values_differ st
stack_effect c ctx lt d st = cmp_int_op signed_lt st
stack_effect c ctx gt d st = cmp_int_op (λ a b. signed_lt b a) st
stack_effect c ctx le d st = cmp_int_op signed_le st
stack_effect c ctx ge d st = cmp_int_op (λ a b. signed_le b a) st
stack_effect c ctx ge_u128 d st = ge_u128_op st
stack_effect c ctx OpCode.not d st = not_op st
stack_effect c ctx and d st = value_op both_truthy st
stack_effect c ctx or d st = value_op either_truthy st
stack_effect c ctx verify d st = verify_op st
stack_effect c ctx return d st = err returned
stack_effect c ctx check_sig_pqc d st = check_sig_op c st
stack_effect c ctx hash_sha3 d st = hash_op (sha3_256 c) st
stack_effect c ctx hash_blake3 d st = hash_op (blake3 c) st
stack_effect c ctx read_input_value d st = read_op value_of ctx.resolved_inputs st
stack_effect c ctx read_output_value d st = read_op value_of ctx.tx.outputs st
stack_effect c ctx read_output_script d st = read_op script_of ctx.tx.outputs st
stack_effect c ctx read_output_datum d st = read_op datum_of ctx.tx.outputs st
stack_effect c ctx read_input_datum d st = read_op datum_of ctx.resolved_inputs st
stack_effect c ctx self_script_hash d st = push st (bytes ctx.locking_script_hash)
stack_effect c ctx tx_hash d st = push st (bytes ctx.tx_hash)
stack_effect c ctx sig_hash d st = push st (bytes ctx.sig_hash)
stack_effect c ctx slot_number d st = push st (int ctx.current_slot)
stack_effect c ctx input_count d st = push st (int (length ctx.tx.inputs % word))
stack_effect c ctx output_count d st = push st (int (length ctx.tx.outputs % word))
stack_effect c ctx tx_fee d st = push st (int ctx.tx.fee)
stack_effect c ctx assert_output_script_hash d st =
    assert_hash_op (script_hash_matches c) "output script hash mismatch" ctx.tx.outputs st
stack_effect c ctx assert_datum_hash d st =
    assert_hash_op (datum_hash_matches c) "datum hash mismatch" ctx.tx.outputs st
stack_effect c ctx assert_value d st = assert_value_op ctx.tx.outputs st
stack_effect c ctx cat d st = cat_op st
stack_effect c ctx slice d st = slice_op st
stack_effect c ctx len d st = len_op st
stack_effect c ctx bytes_to_int d st = bytes_to_int_op st
stack_effect c ctx nop d st = ok st
stack_effect c ctx op_if d st = ok st
stack_effect c ctx op_else d st = ok st
stack_effect c ctx end_if d st = ok st
stack_effect c ctx check_multi_sig_pqc d st = ok st

-- The local variables of the loop, and the meter.
pub record Machine : Type 0 where
  pub stack : Stack
  pub exec_stack : List Bool
  pub gas : GasMeter

abbrev pub all_true : List Bool → Bool
all_true [] = true
all_true (b ∷ bs) = b && all_true bs

-- The closure `executing`
abbrev pub executing : Machine → Bool
executing m = all_true m.exec_stack

-- `parent_exec`
abbrev pub parent_executing : List Bool → Bool
parent_executing es = ltb (length es) 2 || (all_true (drop 2 es) && all_true (drop 1 es))

abbrev pub flip_top : Bool → List Bool → Script (List Bool)
flip_top parent [] = err (unbalanced_conditional "ELSE without IF")
flip_top parent (top ∷ es) = ok ((if parent then not top else top) ∷ es)

abbrev pub pop_branch : List Bool → Script (List Bool)
pop_branch [] = err (unbalanced_conditional "ENDIF without IF")
pop_branch (top ∷ es) = ok es

unfoldable pub if_op : Machine → Script Machine
unfolding pop is_truthy
if_op m =
    if executing m
    then (pop m.stack >>= λ (cond, st).
        ok (record m { stack = st; exec_stack = is_truthy cond ∷ m.exec_stack }))
    else ok (record m { exec_stack = false ∷ m.exec_stack })

unfoldable pub else_op : Machine → Script Machine
else_op m = flip_top (parent_executing m.exec_stack) m.exec_stack >>= λ es.
    ok (record m { exec_stack = es })

unfoldable pub end_if_op : Machine → Script Machine
end_if_op m = pop_branch m.exec_stack >>= λ es. ok (record m { exec_stack = es })

-- An opcode that is not skipped
unfoldable pub run_op : Crypto → Context → OpCode → List ℕ → Machine → Script Machine
run_op c ctx check_multi_sig_pqc d m =
    check_multi_sig_op c m.stack m.gas >>= λ (st, gas). ok (record m { stack = st; gas = gas })
run_op c ctx op d m = stack_effect c ctx op d m.stack >>= λ st. ok (record m { stack = st })

-- The body of the loop behind the gas charge
unfoldable pub dispatch : Crypto → Context → OpCode → List ℕ → Machine → Script Machine
dispatch c ctx op_if d m = if_op m
dispatch c ctx op_else d m = else_op m
dispatch c ctx end_if d m = end_if_op m
dispatch c ctx op d m = if executing m then run_op c ctx op d m else ok m

unfoldable pub step : Crypto → Context → Instruction → Machine → Script Machine
step c ctx i m =
    let (paid, gas) = charge m.gas i.op in
    if paid then dispatch c ctx i.op i.inline (record m { gas = gas }) else err out_of_gas

unfoldable pub run : Crypto → Context → List Instruction → Machine → Script Machine
run c ctx [] m = ok m
run c ctx (i ∷ is) m = step c ctx i m >>= λ m. run c ctx is m

-- `ExecResult`
pub record ExecResult : Type 0 where
  pub success : Bool
  pub gas_used : ℕ
  pub final_stack : List Value

abbrev pub top_is_truthy : Stack → Bool
top_is_truthy [] = false
top_is_truthy (v ∷ st) = is_truthy v

-- What follows the loop
abbrev pub finish : Machine → Script ExecResult
finish m = elim m.exec_stack [
  | [] ↦ ok (record {
    success = top_is_truthy m.stack;
    gas_used = m.gas.consumed;
    final_stack = reverse m.stack;
  })
  | b ∷ es ↦ err (unbalanced_conditional "unterminated IF block")
]

abbrev pub start : GasMeter → Machine
start gas = record { stack = []; exec_stack = []; gas = gas }

unfoldable pub execute_instructions :
    Crypto → Context → List Instruction → GasMeter → Script ExecResult
execute_instructions c ctx is gas = run c ctx is (start gas) >>= λ m. finish m

unfoldable pub execute : Crypto → Context → List ℕ → GasMeter → Script ExecResult
execute c ctx script gas =
    from_decoder (decode_script script) >>= λ is. execute_instructions c ctx is gas
