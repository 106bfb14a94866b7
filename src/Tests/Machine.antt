-- ===== src/Tests/Machine.antt =====
-- Runs of the stack machine.
use mathlib.Core.Option.{get_or}
use l1_chain.Base.Bytes.{bytes_eq}
use l1_chain.Core.Tx.{sighash}
use l1_chain.Script.Interpreter.Context.{no_hash}
use l1_chain.Script.Templates.{p2pkh_pqc}
use l1_chain.Script.Templates.SingleOwner.Spend.{owner_witness, validate_script-p2pkh_pqc}
use l1_chain.Base.{
  if◌then◌else◌, replicate, ℕ, List, [], ◌∷◌, ◌≡◌, ◌≤◌, ◌<◌, ◌^◌, refl, arith, All, true, subst,
  sym, ◌∙◌, ◌≢◌,
}
use l1_chain.Base.Word.{wrapping_add}
use l1_chain.Base.Outcome.{err, ok, panic, Returns, ◌>>=◌, ok_inj}
use l1_chain.Script.Opcode.{op0, op1, add, op_if, op_else, end_if, from_byte, check_multi_sig_pqc}
use l1_chain.Script.Instruction.{Instruction, simple, encode_instructions}
use l1_chain.Script.Decode.{decode_script, decode_loop, read_inline}
use l1_chain.Script.Gas.{meter, charge, consume, gas_cost}
use l1_chain.Script.Gas.Budget.{total_cost}
use l1_chain.Script.Validate.{validate_script}
use l1_chain.Script.Interpreter.Value.{verify_failed, int, from_bool}
use l1_chain.Script.Interpreter.Stack.{push, bin_int_op}
use l1_chain.Script.Interpreter.Signatures.{checkmultisig_pqc, count_valid, mark_key, checksig_pqc}
use l1_chain.Script.Interpreter.Step.{
  ExecResult, execute, execute_instructions, run, step, dispatch, run_op, stack_effect, if_op,
  else_op, end_if_op,
}
use l1_chain.Script.Interpreter.Safety.Execute.{
  IsResult, AllTame, execute-IsResult, execute-Returns,
}
use l1_chain.Script.Interpreter.Metering.{execute_instructions-gas_used}
use l1_chain.Script.Interpreter.Metering.Exact.{execute_instructions-gas_used_exact}
use l1_chain.Script.Interpreter.MultiSig.{signers, checkmultisig_pqc-signers}
use l1_chain.Script.Interpreter.Panic.{request, validate_script-request}
use l1_chain.Script.Interpreter.Structured.{
  Program, done, plain, either, flatten, with_exec, meaning,
}
use l1_chain.Script.Interpreter.Structured.Refine.{run-flatten}
use l1_chain.Tests.Toy.{
  toy_crypto, toy_crypto-IsLawful, toy_context, toy_context-IsContext, toy_tx, toy_output,
  toy_serializer,
}

-- `1 IF 1 1 ADD ELSE 0 ENDIF`
abbrev code : List ℕ
code = 1 ∷ 0x40 ∷ 1 ∷ 1 ∷ 0x20 ∷ 0x41 ∷ 0 ∷ 0x42 ∷ []

abbrev listing : List Instruction
listing =
    simple op1
    ∷ simple op_if
    ∷ simple op1
    ∷ simple op1
    ∷ simple add
    ∷ simple op_else
    ∷ simple op0
    ∷ simple end_if
    ∷ []

abbrev result : ExecResult
result = record { success = true; gas_used = 15; final_stack = int 2 ∷ [] }

decode_code : decode_script code ≡ ok listing
unfolding decode_script decode_loop from_byte read_inline
decode_code = refl

run_listing : execute_instructions toy_crypto toy_context listing (meter 100) ≡ ok result
unfolding execute_instructions run step charge consume gas_cost dispatch run_op stack_effect push
    if_op bin_int_op else_op end_if_op wrapping_add
run_listing = refl

run_code : execute toy_crypto toy_context code (meter 100) ≡ ok result
unfolding execute
run_code = rw decode_code run_listing

abbrev IsCode : Type 0
IsCode = All (λ b. b < 256) code

code-IsCode : IsCode
code-IsCode = (
  omega arith,
  (
    omega arith,
    (omega arith, (omega arith, (omega arith, (omega arith, (omega arith, (omega arith, tt)))))),
  ),
)

execute-IsResult_example : IsResult result
execute-IsResult_example =
    execute-IsResult toy_crypto toy_crypto-IsLawful toy_context toy_context-IsContext code
      (meter 100) result code-IsCode (omega arith) run_code

listing-AllTame : AllTame listing
listing-AllTame = (
  ((λ e. cc), (λ e. cc)),
  (
    ((λ e. cc), (λ e. cc)),
    (
      ((λ e. cc), (λ e. cc)),
      (
        ((λ e. cc), (λ e. cc)),
        (
          ((λ e. cc), (λ e. cc)),
          (((λ e. cc), (λ e. cc)), (((λ e. cc), (λ e. cc)), (((λ e. cc), (λ e. cc)), tt))),
        ),
      ),
    ),
  ),
)

code-AllTame : (is : List Instruction) → decode_script code ≡ ok is → AllTame is
code-AllTame is e = subst AllTame (ok_inj (sym decode_code ∙ e)) listing-AllTame

listing-has_no_multi_sig : All (λ i. i.op ≢ check_multi_sig_pqc) listing
listing-has_no_multi_sig = (
  (λ e. cc),
  ((λ e. cc), ((λ e. cc), ((λ e. cc), ((λ e. cc), ((λ e. cc), ((λ e. cc), ((λ e. cc), tt))))))),
)

execute-Returns_example : Returns (execute toy_crypto toy_context code (meter 100))
execute-Returns_example =
    execute-Returns toy_crypto toy_crypto-IsLawful toy_context toy_context-IsContext code
      (meter 100) code-IsCode (omega arith) code-AllTame

execute_instructions-gas_used_example : (total_cost listing ≤ 15) × (15 ≤ 100)
execute_instructions-gas_used_example =
    execute_instructions-gas_used toy_crypto toy_context listing 100 result (omega arith)
      run_listing

execute_instructions-gas_used_exact_example : 15 ≡ total_cost listing
execute_instructions-gas_used_exact_example =
    execute_instructions-gas_used_exact toy_crypto toy_context listing 100 result (omega arith)
      listing-has_no_multi_sig run_listing

-- The same program, nested
abbrev nested : Program
nested = plain (simple op1) tt (
    either (plain (simple op1) tt (plain (simple op1) tt (plain (simple add) tt done)))
      (plain (simple op0) tt done) done)

flatten-nested : flatten nested ≡ listing
flatten-nested = refl

run-flatten_example :
    run toy_crypto toy_context listing (with_exec [] ([], meter 100))
    ≡ (meaning toy_crypto toy_context nested ([], meter 100) >>= λ s. ok (with_exec [] s))
run-flatten_example = run-flatten toy_crypto toy_context nested [] ([], meter 100) refl

abbrev keys : List (List ℕ)
keys = (1 ∷ []) ∷ (2 ∷ []) ∷ (3 ∷ []) ∷ []

abbrev sigs : List (List ℕ)
sigs = (3 ∷ 3 ∷ []) ∷ (1 ∷ 1 ∷ []) ∷ []

two_of_three : checkmultisig_pqc toy_crypto keys sigs [] 2 ≡ true
unfolding checkmultisig_pqc count_valid mark_key checksig_pqc
two_of_three = refl

checkmultisig_pqc-signers_example : (2 ≤ signers toy_crypto [] sigs keys) × (2 ≤ 2)
checkmultisig_pqc-signers_example = checkmultisig_pqc-signers toy_crypto keys sigs [] 2 two_of_three

decode_one : decode_script (1 ∷ []) ≡ ok (simple op1 ∷ [])
unfolding decode_script decode_loop from_byte read_inline
decode_one = refl

validate_script-request_example :
    validate_script toy_crypto toy_serializer
      (1 ∷ [])
      (encode_instructions (request (2 ^ 62)))
      toy_tx
      (toy_output ∷ [])
      5
    ≡ panic
validate_script-request_example =
    validate_script-request toy_crypto toy_serializer (2 ^ 62) (1 ∷ []) (simple op1 ∷ []) toy_tx
      (toy_output ∷ []) 5 (omega arith) (omega arith) (omega arith, tt) decode_one (omega arith)

validate_script-p2pkh_pqc_example :
    let accepted =
      checksig_pqc toy_crypto
        (5 ∷ [])
        (5 ∷ 5 ∷ [])
        (get_or (sighash toy_crypto toy_serializer toy_tx) no_hash) in
    validate_script toy_crypto toy_serializer
      (p2pkh_pqc (replicate 32 7))
      (encode_instructions (owner_witness (5 ∷ 5 ∷ []) (5 ∷ [])))
      toy_tx
      (toy_output ∷ [])
      5
    ≡ (if bytes_eq (replicate 32 7) (replicate 32 7)
        then ok
            (record { success = accepted; gas_used = 600; final_stack = from_bool accepted ∷ [] })
        else err verify_failed)
validate_script-p2pkh_pqc_example =
    validate_script-p2pkh_pqc toy_crypto toy_serializer (5 ∷ 5 ∷ []) (5 ∷ []) (replicate 32 7)
      toy_tx (toy_output ∷ []) 5 (omega arith) (omega arith) (omega arith) refl
