-- ===== src/Script/Interpreter/Panic.antt =====
-- The panic that `execute-Returns` leaves out: `CheckMultiSigPqc` reserves room for as many
-- signatures as the script asks for, before it looks at the stack.
use l1_chain.Base.{
  ℕ, ◌+◌, ◌*◌, ◌^◌, ◌-◌, ◌≤◌, ◌<◌, ◌≡◌, refl, ap, ◌∙◌, List, [], ◌∷◌, ◌++◌, length, All, lt→ltb,
  arith, length-append, All-append,
}
use l1_chain.Base.Bytes.{IsBytes, from_le-to_le, length-to_le}
use l1_chain.Base.Word.{word, saturating_mul}
use l1_chain.Base.Outcome.{ok, panic}
use l1_chain.Crypto.{Crypto}
use l1_chain.Core.Tx.{Transaction, TxOutput, Serializer}
use l1_chain.Script.Opcode.{max_script_size, check_multi_sig_pqc}
use l1_chain.Script.Instruction.{
  Instruction, simple, push_integer, encode, payload, encode_instructions,
  encode_instructions-append,
}
use l1_chain.Script.Decode.{decode_script}
use l1_chain.Script.Decode.RoundTrip.{
  IsWellFormed, decode_script-encode_instructions, encode_instructions-decode_script,
}
use l1_chain.Script.Gas.{charge, consume, gas_cost, meter, default_gas_limit}
use l1_chain.Script.Interpreter.Context.{Context}
use l1_chain.Script.Interpreter.Stack.{pop_int, push_int_op}
use l1_chain.Script.Interpreter.Signatures.{check_multi_sig_op, multi_sig_body, pop_many}
use l1_chain.Script.Interpreter.Step.{
  stack_effect, run_op, dispatch, step, run, start, execute_instructions, execute,
}
use l1_chain.Script.Validate.{validate_script}

-- A witness that asks for a multi-signature of no keys and `m` signatures
abbrev pub request : ℕ → List Instruction
request m = push_integer m ∷ push_integer 0 ∷ simple check_multi_sig_pqc ∷ []

module _ (c : Crypto) (ctx : Context) (m : ℕ) (large : 2 ^ 63 - 1 < m * 24) (low : m < word) where
  run-request :
      (is : List Instruction)
      → run c ctx (request m ++ is) (start (meter default_gas_limit)) ≡ panic
  unfolding run step dispatch run_op stack_effect push_int_op charge consume gas_cost
      check_multi_sig_op multi_sig_body pop_many pop_int saturating_mul
  run-request is = rw (from_le-to_le 8 m low, lt→ltb (2 ^ 63 - 1) (m * 24) large)

request-IsWellFormed : (m : ℕ) → All IsWellFormed (request m)
request-IsWellFormed m = (length-to_le 8 m, (refl, (refl, tt)))

length-request : (m : ℕ) → length (encode_instructions (request m)) ≡ 19
unfolding encode_instructions encode payload
length-request m = refl

decode-request :
    (m : ℕ) (locking_script : List ℕ) (is : List Instruction)
    → IsBytes locking_script
    → decode_script locking_script ≡ ok is
    → length locking_script + 19 ≤ max_script_size
    → decode_script (encode_instructions (request m) ++ locking_script) ≡ ok (request m ++ is)
decode-request m locking_script is h e short =
    let (fits, written) = encode_instructions-decode_script locking_script is h e in
    let whole : encode_instructions (request m ++ is)
        ≡ encode_instructions (request m) ++ locking_script =
      encode_instructions-append (request m) is
      ∙ ap (λ (l : List ℕ). encode_instructions (request m) ++ l) written in
    let size : length (encode_instructions (request m ++ is)) ≡ 19 + length locking_script =
      rw whole (
        length-append (encode_instructions (request m)) locking_script
        ∙ ap (λ (n : ℕ). n + length locking_script) (length-request m)) in
    rw (← whole) (
      decode_script-encode_instructions (request m ++ is)
        (All-append IsWellFormed (request m) is (request-IsWellFormed m) fits)
        (omega (arith, size, short)))

-- Take any locking script that decodes and leaves room for 19 bytes, and any number `m` of
-- signatures of which `m` vectors do not fit into an address space. The witness that asks for a
-- multi-signature of no keys and `m` signatures makes the validation panic, whatever the
-- transaction, the inputs and the slot.
pub validate_script-request :
    (c : Crypto) (serialize : Serializer) (m : ℕ) (locking_script : List ℕ) (is : List Instruction)
    (tx : Transaction) (inputs : List TxOutput) (slot : ℕ)
    → 2 ^ 63 - 1 < m * 24
    → m < word
    → IsBytes locking_script
    → decode_script locking_script ≡ ok is
    → length locking_script + 19 ≤ max_script_size
    → validate_script c serialize locking_script (encode_instructions (request m)) tx inputs slot
      ≡ panic
unfolding validate_script execute execute_instructions
validate_script-request c serialize m locking_script is tx inputs slot large low h e short =
    rw (decode-request m locking_script is h e short) (rw (run-request c _ m large low is))
