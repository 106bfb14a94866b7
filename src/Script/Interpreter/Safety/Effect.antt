-- ===== src/Script/Interpreter/Safety/Effect.antt =====
-- Every opcode of the second `match` keeps the stack valid.
use l1_chain.Base.{ℕ, ◌%◌, List, length, arith}
use l1_chain.Base.Bytes.{IsBytes}
use l1_chain.Base.Word.{
  word, wrapping_add, wrapping_sub, wrapping_mul, wrapping_div, wrapping_rem, wrapping_neg,
  wrapping_abs, signed_min, signed_max, signed_lt, signed_le, wrapping_add-lt, wrapping_sub-lt,
  wrapping_mul-lt, wrapping_div-lt, wrapping_rem-lt, wrapping_neg-lt, wrapping_abs-lt,
  signed_min-lt, signed_max-lt,
}
use l1_chain.Crypto.{Crypto, IsLawful, sha3_256, blake3}
use l1_chain.Script.Opcode.{
  OpCode, op0, op1, push1, push2, push4, push_int, dup, swap, pick, roll, over, rot, dup2, add, sub,
  mul, div, modulo, neg, abs, min, max, mul_u128, eq, neq, lt, gt, le, ge, and, or, ge_u128, op_if,
  op_else, end_if, verify, return, check_sig_pqc, check_multi_sig_pqc, hash_sha3, hash_blake3,
  read_input_value, read_output_value, read_output_script, read_output_datum, tx_hash,
  read_input_datum, self_script_hash, slot_number, input_count, output_count, tx_fee, sig_hash,
  assert_output_script_hash, assert_datum_hash, assert_value, cat, slice, len, bytes_to_int, nop,
}
use l1_chain.Script.Decode.RoundTrip.{Fits}
use l1_chain.Script.Interpreter.Value.{int, bytes, value_eq}
use l1_chain.Script.Interpreter.Context.{Context}
use l1_chain.Script.Interpreter.Stack.{Stack}
use l1_chain.Script.Interpreter.Arith.{values_differ, both_truthy, either_truthy}
use l1_chain.Script.Interpreter.Introspect.{
  value_of, script_of, datum_of, script_hash_matches, datum_hash_matches,
}
use l1_chain.Script.Interpreter.Step.{stack_effect}
use l1_chain.Script.Interpreter.Safety.{IsStack, IsContext, Safe}
use l1_chain.Script.Interpreter.Safety.Moves.{
  push-Safe, bin_int_op-Safe, cmp_int_op-Safe, dup_op-Safe, swap_op-Safe, drop_op-Safe,
  pick_op-Safe, roll_op-Safe, over_op-Safe, rot_op-Safe, dup2_op-Safe, push_int_op-Safe,
}
use l1_chain.Script.Interpreter.Safety.Ops.{
  div_op-Safe, unary_op-Safe, mul_u128_op-Safe, ge_u128_op-Safe, value_op-Safe, not_op-Safe,
  verify_op-Safe, cat_op-Safe, slice_op-Safe, len_op-Safe, bytes_to_int_op-Safe,
}
use l1_chain.Script.Interpreter.Safety.Reads.{
  read_op-Safe, assert_hash_op-Safe, assert_value_op-Safe, hash_op-Safe, check_sig_op-Safe,
}

-- The multi-signature and the concatenation are the opcodes that may panic.
abbrev pub Covers : Type 0 → OpCode → Type 0
Covers X check_multi_sig_pqc = X
Covers X cat = X
Covers X _ = Unit

module _ (X : Type 0) (c : Crypto) (l : IsLawful c) (ctx : Context) (k : IsContext ctx) where
  pub stack_effect-Safe :
      (op : OpCode) (d : List ℕ) (st : Stack)
      → Fits op d
      → IsBytes d
      → Covers X op
      → IsStack st
      → Safe X IsStack (stack_effect c ctx op d st)
  unfolding stack_effect
  stack_effect-Safe op0 d st f b x s = push-Safe X st (int 0) s (omega arith)
  stack_effect-Safe op1 d st f b x s = push-Safe X st (int 1) s (omega arith)
  stack_effect-Safe push1 d st f b x s = push-Safe X st (bytes d) s b
  stack_effect-Safe push2 d st f b x s = push-Safe X st (bytes d) s b
  stack_effect-Safe push4 d st f b x s = push-Safe X st (bytes d) s b
  stack_effect-Safe push_int d st f b x s = push_int_op-Safe X d st f b s
  stack_effect-Safe dup d st f b x s = dup_op-Safe X st s
  stack_effect-Safe swap d st f b x s = swap_op-Safe X st s
  stack_effect-Safe OpCode.drop d st f b x s = drop_op-Safe X st s
  stack_effect-Safe pick d st f b x s = pick_op-Safe X st s
  stack_effect-Safe roll d st f b x s = roll_op-Safe X st s
  stack_effect-Safe over d st f b x s = over_op-Safe X st s
  stack_effect-Safe rot d st f b x s = rot_op-Safe X st s
  stack_effect-Safe dup2 d st f b x s = dup2_op-Safe X st s
  stack_effect-Safe add d st f b x s =
      bin_int_op-Safe X wrapping_add st (λ x y _ _. wrapping_add-lt x y) s
  stack_effect-Safe sub d st f b x s =
      bin_int_op-Safe X wrapping_sub st (λ x y _ _. wrapping_sub-lt x y) s
  stack_effect-Safe mul d st f b x s =
      bin_int_op-Safe X wrapping_mul st (λ x y _ _. wrapping_mul-lt x y) s
  stack_effect-Safe div d st f b x s = div_op-Safe X wrapping_div st wrapping_div-lt s
  stack_effect-Safe modulo d st f b x s = div_op-Safe X wrapping_rem st wrapping_rem-lt s
  stack_effect-Safe neg d st f b x s = unary_op-Safe X wrapping_neg st (λ x _. wrapping_neg-lt x) s
  stack_effect-Safe abs d st f b x s = unary_op-Safe X wrapping_abs st wrapping_abs-lt s
  stack_effect-Safe min d st f b x s = bin_int_op-Safe X signed_min st signed_min-lt s
  stack_effect-Safe max d st f b x s = bin_int_op-Safe X signed_max st signed_max-lt s
  stack_effect-Safe mul_u128 d st f b x s = mul_u128_op-Safe X st s
  stack_effect-Safe eq d st f b x s = value_op-Safe X value_eq st s
  stack_effect-Safe neq d st f b x s = value_op-Safe X values_differ st s
  stack_effect-Safe lt d st f b x s = cmp_int_op-Safe X signed_lt st s
  stack_effect-Safe gt d st f b x s = cmp_int_op-Safe X (λ x y. signed_lt y x) st s
  stack_effect-Safe le d st f b x s = cmp_int_op-Safe X signed_le st s
  stack_effect-Safe ge d st f b x s = cmp_int_op-Safe X (λ x y. signed_le y x) st s
  stack_effect-Safe OpCode.not d st f b x s = not_op-Safe X st s
  stack_effect-Safe and d st f b x s = value_op-Safe X both_truthy st s
  stack_effect-Safe or d st f b x s = value_op-Safe X either_truthy st s
  stack_effect-Safe ge_u128 d st f b x s = ge_u128_op-Safe X st s
  stack_effect-Safe op_if d st f b x s = s
  stack_effect-Safe op_else d st f b x s = s
  stack_effect-Safe end_if d st f b x s = s
  stack_effect-Safe verify d st f b x s = verify_op-Safe X st s
  stack_effect-Safe return d st f b x s = tt
  stack_effect-Safe check_sig_pqc d st f b x s = check_sig_op-Safe X c st s
  stack_effect-Safe check_multi_sig_pqc d st f b x s = s
  stack_effect-Safe hash_sha3 d st f b x s = hash_op-Safe X (sha3_256 c) st l.sha3_bytes s
  stack_effect-Safe hash_blake3 d st f b x s = hash_op-Safe X (blake3 c) st l.blake3_bytes s
  stack_effect-Safe read_input_value d st f b x s =
      read_op-Safe X value_of ctx.resolved_inputs st (λ o h. h.value) k.inputs s
  stack_effect-Safe read_output_value d st f b x s =
      read_op-Safe X value_of ctx.tx.outputs st (λ o h. h.value) k.outputs s
  stack_effect-Safe read_output_script d st f b x s =
      read_op-Safe X script_of ctx.tx.outputs st (λ o h. h.script) k.outputs s
  stack_effect-Safe read_output_datum d st f b x s =
      read_op-Safe X datum_of ctx.tx.outputs st (λ o h. h.datum) k.outputs s
  stack_effect-Safe tx_hash d st f b x s = push-Safe X st (bytes ctx.tx_hash) s k.tx_hash
  stack_effect-Safe read_input_datum d st f b x s =
      read_op-Safe X datum_of ctx.resolved_inputs st (λ o h. h.datum) k.inputs s
  stack_effect-Safe self_script_hash d st f b x s =
      push-Safe X st (bytes ctx.locking_script_hash) s k.script_hash
  stack_effect-Safe slot_number d st f b x s = push-Safe X st (int ctx.current_slot) s k.slot
  stack_effect-Safe input_count d st f b x s =
      push-Safe X st (int (length ctx.tx.inputs % word)) s (omega arith)
  stack_effect-Safe output_count d st f b x s =
      push-Safe X st (int (length ctx.tx.outputs % word)) s (omega arith)
  stack_effect-Safe tx_fee d st f b x s = push-Safe X st (int ctx.tx.fee) s k.fee
  stack_effect-Safe sig_hash d st f b x s = push-Safe X st (bytes ctx.sig_hash) s k.sig_hash
  stack_effect-Safe assert_output_script_hash d st f b x s =
      assert_hash_op-Safe X (script_hash_matches c) "output script hash mismatch" ctx.tx.outputs st
        k.outputs s
  stack_effect-Safe assert_datum_hash d st f b x s =
      assert_hash_op-Safe X (datum_hash_matches c) "datum hash mismatch" ctx.tx.outputs st k.outputs
        s
  stack_effect-Safe assert_value d st f b x s = assert_value_op-Safe X ctx.tx.outputs st k.outputs s
  stack_effect-Safe cat d st f b x s = cat_op-Safe X st x s
  stack_effect-Safe slice d st f b x s = slice_op-Safe X st s
  stack_effect-Safe len d st f b x s = len_op-Safe X st s
  stack_effect-Safe bytes_to_int d st f b x s = bytes_to_int_op-Safe X st s
  stack_effect-Safe nop d st f b x s = s
