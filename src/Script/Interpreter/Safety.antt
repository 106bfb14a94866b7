-- ===== src/Script/Interpreter/Safety.antt =====
-- What every operation of the machine keeps, and that it does not panic.
pub mod Moves
pub mod Ops
pub mod Reads
pub mod Effect
pub mod Run
pub mod Execute
use l1_chain.Base.{ℕ, ◌≤◌, ◌<◌, List, [], ◌∷◌, length, All}
use mathlib.Core.Option.{get_or}
use l1_chain.Base.Bytes.{IsBytes}
use l1_chain.Base.Word.{word}
use l1_chain.Base.Outcome.{Outcome, ok, err, panic, diverge, ◌>>=◌}
use l1_chain.Core.Tx.{TxOutput}
use l1_chain.Script.Opcode.{max_stack_depth}
use l1_chain.Script.Interpreter.Value.{Value, int, bytes, Script}
use l1_chain.Script.Interpreter.Context.{Context}
use l1_chain.Script.Interpreter.Stack.{Stack}

-- An integer is a 64-bit pattern, and a byte string holds bytes.
abbrev pub IsValue : Value → Type 0
IsValue (int n) = n < word
IsValue (bytes b) = IsBytes b

abbrev pub IsStack : Stack → Type 0
IsStack st = (length st ≤ max_stack_depth) × All IsValue st

pub record IsOutput (o : TxOutput) : Type 0 where
  pub value : o.value < word
  pub script : IsBytes o.locking_script
  pub datum : IsBytes (get_or o.datum [])

pub record IsContext (ctx : Context) : Type 0 where
  pub outputs : All IsOutput ctx.tx.outputs
  pub inputs : All IsOutput ctx.resolved_inputs
  pub fee : ctx.tx.fee < word
  pub slot : ctx.current_slot < word
  pub tx_hash : IsBytes ctx.tx_hash
  pub sig_hash : IsBytes ctx.sig_hash
  pub script_hash : IsBytes ctx.locking_script_hash

-- What the call returns with `Ok` satisfies `P`; it panics only if `X`, and it ends.
abbrev pub Safe {ℓ} : Type 0 → {A : Type ℓ} → (A → Type 0) → Script A → Type 0
Safe X P (ok a) = P a
Safe X P (err e) = Unit
Safe X P panic = X
Safe X P diverge = ⊥

module _ {ℓ κ} {A : Type ℓ} {B : Type κ} (X : Type 0) (P : A → Type 0) (Q : B → Type 0) where
  pub Safe-bind :
      (m : Script A) (f : A → Script B)
      → Safe X P m
      → ((a : A) → P a → Safe X Q (f a))
      → Safe X Q (m >>= f)
  Safe-bind (ok a) f h k = k a h
  Safe-bind (err e) f h k = tt
  Safe-bind panic f h k = h
  Safe-bind diverge f h k = h
