-- ===== src/Script/Templates/SingleOwner.antt =====
-- crates/qv-script/src/templates.rs, `p2pkh_pqc`: what the machine does with its instructions.
pub mod Spend
use mathlib.Core.Option.{get_or}
use l1_chain.Base.{
  length-append, le→leb, ◌%◌, ℕ, ◌+◌, ◌-◌, ◌≤◌, ◌<◌, ◌^◌, ◌≡◌, refl, List, [], ◌∷◌, ◌++◌, length,
  All, arith, leb, Bool, true, false, Bool-cases, inl, inr, if◌then◌else◌, ◌∙◌,
}
use l1_chain.Base.Bytes.{bytes_eq}
use l1_chain.Base.Word.{word}
use l1_chain.Base.Outcome.{ok, err, ◌>>=◌}
use l1_chain.Crypto.{Crypto, sha3_256}
use l1_chain.Core.Tx.{sighash, Transaction, TxOutput, Serializer}
use l1_chain.Script.Opcode.{
  max_script_size, max_stack_depth, dup, hash_sha3, eq, verify, sig_hash, rot, check_sig_pqc,
}
use l1_chain.Script.Instruction.{
  Instruction, simple, push_bytes, encode_instructions, encode, payload, encode_instructions-append,
}
use l1_chain.Script.Decode.{decode_script}
use l1_chain.Script.Decode.RoundTrip.{IsWellFormed, Fits, decode_script-encode_instructions}
use l1_chain.Script.Gas.{GasMeter, meter, charge, consume, gas_cost, default_gas_limit}
use l1_chain.Script.Validate.{validate_script}
use l1_chain.Script.Interpreter.Value.{
  Value, int, bytes, Script, from_bool, verify_failed, is_truthy, value_eq,
}
use l1_chain.Script.Interpreter.Context.{no_hash, Context, new_context, with_locking_script}
use l1_chain.Script.Interpreter.Stack.{rot_op, Stack, push, dup_op}
use l1_chain.Script.Interpreter.Arith.{value_op, verify_op}
use l1_chain.Script.Interpreter.Signatures.{check_sig_op, checksig_pqc, hash_op}
use l1_chain.Script.Interpreter.Step.{
  Machine, ExecResult, step, run, dispatch, run_op, stack_effect, execute, execute_instructions,
  finish, start,
}
use l1_chain.Script.Templates.{p2pkh_pqc, p2pkh_builder}

pub push_bytes-IsWellFormed :
    (d : List ℕ) → 0 < length d → length d < 2 ^ 32 → IsWellFormed (push_bytes d)
unfolding push_bytes
push_bytes-IsWellFormed d pos low = elim (Bool-cases (leb (length d) 255)) [
  | inl e ↦ rw e (pos, ground (arith, e))
  | inr e ↦ rw e (elim (Bool-cases (leb (length d) 65535)) [
    | inl f ↦ rw f (pos, ground (arith, f))
    | inr f ↦ rw f (pos, low)
  ])
]

-- A machine where no condition is open
abbrev machine : Stack → ℕ → ℕ → Machine
machine st left used = record {
  stack = st;
  exec_stack = [];
  gas = record { remaining = left; consumed = used };
}

-- What a push does there
step-push_bytes :
    (c : Crypto) (ctx : Context) (d : List ℕ) (st : Stack) (left used : ℕ)
    → length st < 1024
    → 10 ≤ left
    → used < 1000
    → step c ctx (push_bytes d) (machine st left used)
      ≡ ok (machine (bytes d ∷ st) (left - 10) (used + 10))
unfolding step dispatch run_op stack_effect charge consume gas_cost push push_bytes
step-push_bytes c ctx d st left used room pos low =
    let paid = le→leb 10 left pos in
    let fits : (used + 10) % word ≡ used + 10 = omega arith in
    let deep : leb max_stack_depth (length st) ≡ false = ground arith in
    elim (Bool-cases (leb (length d) 255)) [
      | inl e ↦ rw e (rw paid (rw fits (rw deep refl)))
      | inr e ↦ rw e (elim (Bool-cases (leb (length d) 65535)) [
        | inl f ↦ rw f (rw paid (rw fits (rw deep refl)))
        | inr f ↦ rw f (rw paid (rw fits (rw deep refl)))
      ])
    ]

module _ (c : Crypto) (ctx : Context) (sig pk hash : List ℕ) where
  run-hashed :
      (is : List Instruction)
      → run c ctx
          (simple dup ∷ simple hash_sha3 ∷ is)
          (machine (bytes pk ∷ bytes sig ∷ []) 99980 20)
        ≡ run c ctx is (machine (bytes (sha3_256 c pk) ∷ bytes pk ∷ bytes sig ∷ []) 99928 72)
  unfolding run step dispatch run_op stack_effect charge consume gas_cost push dup_op hash_op
  run-hashed is = refl

  -- The witness, and the locking script up to the hash
  run-opened :
      (is : List Instruction)
      → run c ctx
          (push_bytes sig ∷ push_bytes pk ∷ simple dup ∷ simple hash_sha3 ∷ push_bytes hash ∷ is)
          (start (meter default_gas_limit))
        ≡ run c ctx is
            (machine (bytes hash ∷ bytes (sha3_256 c pk) ∷ bytes pk ∷ bytes sig ∷ []) 99918 82)
  unfolding run
  run-opened is =
      rw (step-push_bytes c ctx sig [] 100000 0 (omega arith) (omega arith) (omega arith)) (
        rw
          (step-push_bytes c ctx pk (bytes sig ∷ []) 99990 10 (omega arith) (omega arith)
            (omega arith))
          (run-hashed (push_bytes hash ∷ is)
            ∙ rw
                (step-push_bytes c ctx hash (bytes (sha3_256 c pk) ∷ bytes pk ∷ bytes sig ∷ [])
                  99928 72 (omega arith) (omega arith) (omega arith))
                refl))

  abbrev verdict : Bool
  verdict = checksig_pqc c pk sig ctx.sig_hash

  -- The locking script from the comparison on
  run-closed :
      (found : List ℕ)
      → run c ctx
          (simple eq
            ∷ simple verify
            ∷ simple sig_hash
            ∷ simple rot
            ∷ simple rot
            ∷ simple check_sig_pqc
            ∷ [])
          (machine (bytes hash ∷ bytes found ∷ bytes pk ∷ bytes sig ∷ []) 99918 82)
        ≡ (if bytes_eq found hash
            then ok (machine (from_bool verdict ∷ []) 99400 600)
            else err verify_failed)
  unfolding run step dispatch run_op stack_effect charge consume gas_cost push value_op verify_op
      rot_op check_sig_op value_eq
  run-closed found = elim (Bool-cases (bytes_eq found hash)) [
    | inl e ↦ rw e refl
    | inr e ↦ rw e refl
  ]

  -- Running the instructions of the witness and of the locking script
  pub execute-p2pkh :
      execute_instructions c ctx
        (push_bytes sig ∷ push_bytes pk ∷ (p2pkh_builder hash).instructions)
        (meter default_gas_limit)
      ≡ (if bytes_eq (sha3_256 c pk) hash
          then ok
              (record { success = verdict; gas_used = 600; final_stack = from_bool verdict ∷ [] })
          else err verify_failed)
  unfolding execute_instructions is_truthy
  execute-p2pkh = rw (run-opened _) (
      rw (run-closed (sha3_256 c pk)) (elim (Bool-cases (bytes_eq (sha3_256 c pk) hash)) [
        | inl e ↦ rw e (elim (Bool-cases verdict) [ inl v ↦ rw v refl | inr v ↦ rw v refl ])
        | inr e ↦ rw e refl
      ]))
