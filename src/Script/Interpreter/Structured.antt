-- ===== src/Script/Interpreter/Structured.antt =====
-- Structured programs: the meaning of `IF … ELSE … ENDIF` without a stack of conditions, and that
-- the machine implements it.
pub mod Single
pub mod Skip
pub mod Refine
use l1_chain.Base.{ℕ, Bool, true, false, List, [], ◌∷◌, ◌++◌, if◌then◌else◌}
use l1_chain.Base.Outcome.{ok, err, ◌>>=◌}
use l1_chain.Crypto.{Crypto}
use l1_chain.Script.Opcode.{OpCode, op_if, op_else, end_if}
use l1_chain.Script.Instruction.{Instruction, simple}
use l1_chain.Script.Gas.{GasMeter, charge}
use l1_chain.Script.Interpreter.Value.{Script, is_truthy, out_of_gas}
use l1_chain.Script.Interpreter.Context.{Context}
use l1_chain.Script.Interpreter.Stack.{Stack, pop}
use l1_chain.Script.Interpreter.Step.{Machine, run_op}

-- Not one of the three opcodes of conditionals
abbrev pub IsPlain : OpCode → Type 0
IsPlain op_if = ⊥
IsPlain op_else = ⊥
IsPlain end_if = ⊥
IsPlain _ = Unit

-- A well-nested program; `either` has an ELSE, and `when` has none.
pub data Program : Type 0 where
  done : Program
  plain : (i : Instruction) → IsPlain i.op → Program → Program
  either : Program → Program → Program → Program
  when : Program → Program → Program

abbrev pub flatten : Program → List Instruction
flatten done = []
flatten (plain i h p) = i ∷ flatten p
flatten (either a b p) =
    simple op_if ∷ (flatten a ++ simple op_else ∷ (flatten b ++ simple end_if ∷ flatten p))
flatten (when a p) = simple op_if ∷ (flatten a ++ simple end_if ∷ flatten p)

-- A machine that has no conditions: the stack and the meter
abbrev pub Plain : Type 0
Plain = Stack × GasMeter

abbrev pub pay : OpCode → Plain → Script Plain
pay op (st, gas) = let (paid, gas) = charge gas op in if paid then ok (st, gas) else err out_of_gas

-- The skipped instructions are paid for.
abbrev pub pay_all : List Instruction → Plain → Script Plain
pay_all [] s = ok s
pay_all (i ∷ is) s = pay i.op s >>= λ s. pay_all is s

abbrev pub with_exec : List Bool → Plain → Machine
with_exec es (st, gas) = record { stack = st; exec_stack = es; gas = gas }

abbrev pub forget : Machine → Plain
forget m = (m.stack, m.gas)

-- An opcode neither reads nor writes the conditions.
abbrev pub plain_op : Crypto → Context → Instruction → Plain → Script Plain
plain_op c ctx i s =
    pay i.op s >>= λ s. run_op c ctx i.op i.inline (with_exec [] s) >>= λ m. ok (forget m)

abbrev pub condition : Plain → Script (Bool × Plain)
condition (st, gas) = pop st >>= λ (v, st). ok (is_truthy v, (st, gas))

-- The meaning: the condition is popped, one branch is run, the other is paid for.
abbrev pub meaning : Crypto → Context → Program → Plain → Script Plain
meaning c ctx done s = ok s
meaning c ctx (plain i h p) s = plain_op c ctx i s >>= λ s. meaning c ctx p s
meaning c ctx (either a b p) s = pay op_if s >>= λ s. condition s >>= λ (holds, s). elim holds [
  | true ↦ meaning c ctx a s >>= λ s.
      pay op_else s >>= λ s. pay_all (flatten b) s >>= λ s. pay end_if s >>= λ s. meaning c ctx p s
  | false ↦ pay_all (flatten a) s >>= λ s.
      pay op_else s >>= λ s. meaning c ctx b s >>= λ s. pay end_if s >>= λ s. meaning c ctx p s
]
meaning c ctx (when a p) s = pay op_if s >>= λ s. condition s >>= λ (holds, s). elim holds [
  | true ↦ meaning c ctx a s >>= λ s. pay end_if s >>= λ s. meaning c ctx p s
  | false ↦ pay_all (flatten a) s >>= λ s. pay end_if s >>= λ s. meaning c ctx p s
]
