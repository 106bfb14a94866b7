-- ===== src/Script/Interpreter/Safety/Execute.antt =====
-- What `execute` promises for every byte string.
use l1_chain.Base.{
  ℕ, ◌≤◌, ◌<◌, ◌≡◌, ◌≢◌, refl, subst, List, [], ◌∷◌, Bool, length, All, All-reverse, length-reverse,
  All-append_split, arith, reverse,
}
use l1_chain.Base.Bytes.{IsBytes}
use l1_chain.Base.Word.{max_u64}
use l1_chain.Base.Outcome.{Outcome, ok, err, panic, diverge, Returns, ◌>>=◌}
use l1_chain.Crypto.{Crypto, IsLawful}
use l1_chain.Script.Opcode.{
  OpCode, OpcodeError, op0, push1, push2, push4, push_int, check_multi_sig_pqc, cat,
  max_stack_depth,
}
use l1_chain.Script.Instruction.{Instruction, payload, encode, encode_instructions}
use l1_chain.Script.Decode.{decode_script}
use l1_chain.Script.Decode.RoundTrip.{Fits, IsWellFormed, encode_instructions-decode_script}
use l1_chain.Script.Decode.Total.{decode_script-Returns}
use l1_chain.Script.Gas.{GasMeter}
use l1_chain.Script.Interpreter.Value.{Script, from_decoder, unbalanced_conditional}
use l1_chain.Script.Interpreter.Context.{Context}
use l1_chain.Script.Interpreter.Step.{
  Machine, ExecResult, finish, start, run, execute_instructions, execute, top_is_truthy,
}
use l1_chain.Script.Interpreter.Safety.{IsValue, IsStack, IsContext, Safe, Safe-bind}
use l1_chain.Script.Interpreter.Safety.Effect.{Covers}
use l1_chain.Script.Interpreter.Safety.Run.{IsRunnable, run-Safe}

-- A final stack of at most 1024 values, each of them in range
abbrev pub IsResult : ExecResult → Type 0
IsResult r = (length r.final_stack ≤ max_stack_depth) × All IsValue r.final_stack

payload-IsBytes : (op : OpCode) (d : List ℕ) → Fits op d → IsBytes (payload op d) → IsBytes d
unfolding payload
payload-IsBytes push1 d f h = h.1
payload-IsBytes push2 d f h = h.1.1
payload-IsBytes push4 d f h = h.1.1.1.1
payload-IsBytes push_int d f h = h
payload-IsBytes op0 d f h = rw f tt
payload-IsBytes _ d f h = rw f tt

IsRunnable-encode :
    (X : Type 0) (is : List Instruction)
    → All IsWellFormed is
    → IsBytes (encode_instructions is)
    → All (λ i. Covers X i.op) is
    → All (IsRunnable X) is
unfolding encode_instructions encode
IsRunnable-encode X [] f h x = tt
IsRunnable-encode X (i ∷ is) f h x =
    let parts =
      All-append_split (λ b. b < 256) (payload i.op i.inline) (encode_instructions is) h.1 in
    ((f.0, payload-IsBytes i.op i.inline f.0 parts.0, x.0), IsRunnable-encode X is f.1 parts.1 x.1)

finish-Safe : (X : Type 0) (m : Machine) → IsStack m.stack → Safe X IsResult (finish m)
finish-Safe X m s = go m.exec_stack
  where
    go :
        (es : List Bool)
        → Safe X IsResult (elim es [
          | [] ↦ ok (record {
            success = top_is_truthy m.stack;
            gas_used = m.gas.consumed;
            final_stack = reverse m.stack;
          })
          | b ∷ bs ↦ err (unbalanced_conditional "unterminated IF block")
        ])
    go [] = (rw (length-reverse m.stack) s.0, All-reverse IsValue m.stack s.1)
    go (b ∷ bs) = tt

module _ (X : Type 0) (c : Crypto) (l : IsLawful c) (ctx : Context) (k : IsContext ctx) where
  execute_instructions-Safe :
      (is : List Instruction) (gas : GasMeter)
      → All (IsRunnable X) is
      → gas.remaining ≤ max_u64
      → Safe X IsResult (execute_instructions c ctx is gas)
  unfolding execute_instructions
  execute_instructions-Safe is gas r low =
      Safe-bind X (λ m. IsStack m.stack) IsResult (run c ctx is (start gas)) _
        (run-Safe X c l ctx k is (start gas) r (omega arith, tt) low) λ m h. finish-Safe X m h

  execute-Safe :
      (script : List ℕ) (gas : GasMeter)
      → IsBytes script
      → ((is : List Instruction) → decode_script script ≡ ok is → All (λ i. Covers X i.op) is)
      → gas.remaining ≤ max_u64
      → Safe X IsResult (execute c ctx script gas)
  unfolding execute
  execute-Safe script gas h x low = go (decode_script script) refl (decode_script-Returns script h)
    where
      go :
          (r : Outcome OpcodeError (List Instruction))
          → decode_script script ≡ r
          → Returns r
          → Safe X IsResult (from_decoder r >>= λ is. execute_instructions c ctx is gas)
      go (ok is) e t =
          let (fits, written) = encode_instructions-decode_script script is h e in
          execute_instructions-Safe is gas
            (IsRunnable-encode X is fits (rw (← written) at h) (x is e)) low
      go (err o) e t = tt
      go panic e t = absurd t
      go diverge e t = t

covered : (op : OpCode) → Covers Unit op
covered check_multi_sig_pqc = tt
covered cat = tt
covered _ = tt

Covers-Unit : (is : List Instruction) → All (λ i. Covers Unit i.op) is
Covers-Unit [] = tt
Covers-Unit (i ∷ is) = (covered i.op, Covers-Unit is)

-- Neither a multi-signature nor a concatenation: no other instruction may panic.
abbrev pub IsTame : OpCode → Type 0
IsTame op = (op ≢ check_multi_sig_pqc) × (op ≢ cat)

other : (op : OpCode) → IsTame op → Covers ⊥ op
other check_multi_sig_pqc h = h.0 refl
other cat h = h.1 refl
other _ h = tt

abbrev pub AllTame : List Instruction → Type 0
AllTame = All (λ i. IsTame i.op)

Covers-none : (is : List Instruction) → AllTame is → All (λ i. Covers ⊥ i.op) is
Covers-none [] h = tt
Covers-none (i ∷ is) h = (other i.op h.0, Covers-none is h.1)

Safe-IsResult :
    (X : Type 0) (m : Script ExecResult) (r : ExecResult)
    → Safe X IsResult m
    → m ≡ ok r
    → IsResult r
Safe-IsResult X m r h e = subst (Safe X IsResult) e h

Safe-Returns : (m : Script ExecResult) → Safe ⊥ IsResult m → Returns m
Safe-Returns (ok r) h = tt
Safe-Returns (err e) h = tt
Safe-Returns panic h = h
Safe-Returns diverge h = h

module _ (c : Crypto) (l : IsLawful c) (ctx : Context) (k : IsContext ctx) where
  -- For hash functions that return bytes and a context of values in range: whatever the bytes of a
  -- script are, if its execution under a budget that a `u64` holds returns a result, the final
  -- stack has at most 1024 elements, each integer on it is a 64-bit pattern, and each byte string
  -- holds bytes.
  pub execute-IsResult :
      (script : List ℕ) (gas : GasMeter) (r : ExecResult)
      → IsBytes script
      → gas.remaining ≤ max_u64
      → execute c ctx script gas ≡ ok r
      → IsResult r
  execute-IsResult script gas r h low e =
      Safe-IsResult Unit (execute c ctx script gas) r
        (execute-Safe Unit c l ctx k script gas h (λ is _. Covers-Unit is) low) e

  -- For hash functions that return bytes and a context of values in range: if no instruction that a
  -- byte string decodes to is `CheckMultiSigPqc` or `Cat`, its execution under a budget that a
  -- `u64` holds ends with a result or with an error, and does not panic.
  pub execute-Returns :
      (script : List ℕ) (gas : GasMeter)
      → IsBytes script
      → gas.remaining ≤ max_u64
      → ((is : List Instruction) → decode_script script ≡ ok is → AllTame is)
      → Returns (execute c ctx script gas)
  execute-Returns script gas h low x =
      Safe-Returns (execute c ctx script gas)
        (execute-Safe ⊥ c l ctx k script gas h (λ is e. Covers-none is (x is e)) low)
