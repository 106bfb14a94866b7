-- ===== src/Script/Interpreter/Safety/Run.antt =====
-- A whole run keeps the machine valid, and panics only in a multi-signature or a
-- concatenation.
use l1_chain.Base.{ℕ, ◌<◌, ◌≤◌, Bool, List, [], ◌∷◌, All, leb, Bool-cases, inl, inr, arith}
use l1_chain.Base.Bytes.{IsBytes}
use l1_chain.Base.Word.{max_u64}
use l1_chain.Crypto.{Crypto, IsLawful}
use l1_chain.Script.Opcode.{OpCode, op_if, op_else, end_if, check_multi_sig_pqc}
use l1_chain.Script.Instruction.{Instruction}
use l1_chain.Script.Decode.RoundTrip.{Fits}
use l1_chain.Script.Gas.{consume, charge, gas_cost}
use l1_chain.Script.Interpreter.Context.{Context}
use l1_chain.Script.Interpreter.Stack.{pop}
use l1_chain.Script.Interpreter.Signatures.{check_multi_sig_op}
use l1_chain.Script.Interpreter.Step.{
  Machine, stack_effect, executing, if_op, else_op, end_if_op, flip_top, pop_branch, run_op,
  dispatch, step, run, parent_executing,
}
use l1_chain.Script.Interpreter.Safety.{IsStack, IsContext, Safe, Safe-bind}
use l1_chain.Script.Interpreter.Safety.Moves.{IsPopped, pop-Safe}
use l1_chain.Script.Interpreter.Safety.Reads.{check_multi_sig_op-Safe}
use l1_chain.Script.Gas.Budget.{gas_cost-pos}
use l1_chain.Script.Interpreter.Safety.Effect.{Covers, stack_effect-Safe}

-- An instruction as the decoder makes it, of an opcode that may be run
abbrev pub IsRunnable : Type 0 → Instruction → Type 0
IsRunnable X i = Fits i.op i.inline × IsBytes i.inline × Covers X i.op

-- The meter holds less than `u64::MAX`, as it does once an opcode has been charged.
abbrev pub IsMachine : Machine → Type 0
IsMachine m = IsStack m.stack × (m.gas.remaining < max_u64)

module _ (X : Type 0) (c : Crypto) (l : IsLawful c) (ctx : Context) (k : IsContext ctx) where
  flip_top-Safe : (parent : Bool) (es : List Bool) → Safe X (λ _. Unit) (flip_top parent es)
  flip_top-Safe parent [] = tt
  flip_top-Safe parent (top ∷ es) = tt

  pop_branch-Safe : (es : List Bool) → Safe X (λ _. Unit) (pop_branch es)
  pop_branch-Safe [] = tt
  pop_branch-Safe (top ∷ es) = tt

  run_op-Safe :
      (op : OpCode) (d : List ℕ) (m : Machine)
      → Fits op d
      → IsBytes d
      → Covers X op
      → m.gas.remaining < max_u64
      → IsStack m.stack
      → Safe X IsMachine (run_op c ctx op d m)
  unfolding run_op
  run_op-Safe check_multi_sig_pqc d m f b x low s =
      Safe-bind X _ IsMachine (check_multi_sig_op c m.stack m.gas) _
        (check_multi_sig_op-Safe X c m.stack m.gas x low s) λ p h. (h.0, omega (arith, h.1, low))
  run_op-Safe op d m f b x low s =
      Safe-bind X IsStack IsMachine (stack_effect c ctx op d m.stack) _
        (stack_effect-Safe X c l ctx k op d m.stack f b x s) λ st h. (h, low)

  if_op-Safe : (m : Machine) → IsMachine m → Safe X IsMachine (if_op m)
  unfolding if_op
  if_op-Safe m h = elim (Bool-cases (executing m)) [
    | inl live ↦ rw live (
        Safe-bind X IsPopped IsMachine (pop m.stack) _ (pop-Safe X m.stack h.0) λ p hp. (hp.1, h.1))
    | inr skipped ↦ rw skipped h
  ]

  else_op-Safe : (m : Machine) → IsMachine m → Safe X IsMachine (else_op m)
  unfolding else_op
  else_op-Safe m h =
      let es = m.exec_stack in
      Safe-bind X (λ _. Unit) IsMachine (flip_top (parent_executing es) es) _
        (flip_top-Safe (parent_executing es) es) λ _ _. h

  end_if_op-Safe : (m : Machine) → IsMachine m → Safe X IsMachine (end_if_op m)
  unfolding end_if_op
  end_if_op-Safe m h =
      Safe-bind X (λ _. Unit) IsMachine (pop_branch m.exec_stack) _ (pop_branch-Safe m.exec_stack)
        λ _ _. h

  dispatch-Safe :
      (op : OpCode) (d : List ℕ) (m : Machine)
      → Fits op d
      → IsBytes d
      → Covers X op
      → IsMachine m
      → Safe X IsMachine (dispatch c ctx op d m)
  unfolding dispatch
  dispatch-Safe op_if d m f b x h = if_op-Safe m h
  dispatch-Safe op_else d m f b x h = else_op-Safe m h
  dispatch-Safe end_if d m f b x h = end_if_op-Safe m h
  dispatch-Safe op d m f b x h = elim (Bool-cases (executing m)) [
    | inl live ↦ rw live (run_op-Safe op d m f b x h.1 h.0)
    | inr skipped ↦ rw skipped h
  ]

  step-Safe :
      (i : Instruction) (m : Machine)
      → IsRunnable X i
      → IsStack m.stack
      → m.gas.remaining ≤ max_u64
      → Safe X IsMachine (step c ctx i m)
  unfolding step charge consume
  step-Safe i m (f, b, x) s low = elim (Bool-cases (leb (gas_cost i.op) m.gas.remaining)) [
    | inl paid ↦ rw paid (dispatch-Safe i.op i.inline _ f b x (s, omega (arith, gas_cost-pos i.op)))
    | inr short ↦ rw short tt
  ]

  -- From a valid stack and any budget that a `u64` holds, the run keeps the stack valid, and it
  -- panics only if it may.
  pub run-Safe :
      (is : List Instruction) (m : Machine)
      → All (IsRunnable X) is
      → IsStack m.stack
      → m.gas.remaining ≤ max_u64
      → Safe X (λ m'. IsStack m'.stack) (run c ctx is m)
  unfolding run
  run-Safe [] m r s low = s
  run-Safe (i ∷ is) m r s low =
      Safe-bind X IsMachine _ (step c ctx i m) _ (step-Safe i m r.0 s low)
        λ m' h. run-Safe is m' r.1 h.0 (omega (arith, h.1))
