-- ===== src/Script/Interpreter/Structured/Refine.antt =====
-- The machine runs a structured program as its meaning says.
use l1_chain.Base.{◌≡◌, refl, Bool, true, false, List, [], ◌∷◌}
use l1_chain.Base.Outcome.{ok, ◌>>=◌}
use l1_chain.Crypto.{Crypto}
use l1_chain.Script.Opcode.{op_else, end_if}
use l1_chain.Script.Instruction.{simple}
use l1_chain.Script.Interpreter.Context.{Context}
use l1_chain.Script.Interpreter.Step.{all_true, run}
use l1_chain.Script.Interpreter.Structured.{
  Program, done, plain, either, when, flatten, Plain, pay, pay_all, with_exec, plain_op, meaning,
}
use l1_chain.Script.Interpreter.Structured.Single.{
  Runs, Runs-append, Runs-nil, Runs-plain, Runs-if, Runs-else, Runs-end_if,
}
use l1_chain.Script.Interpreter.Structured.Skip.{skip}

module _ (c : Crypto) (ctx : Context) where
  program-Runs :
      (p : Program) (es : List Bool)
      → all_true es ≡ true
      → Runs c ctx es (flatten p) (meaning c ctx p) es
  program-Runs done es h = Runs-nil c ctx es
  program-Runs (plain i k p) es h =
      Runs-append c ctx es es es (i ∷ []) (flatten p) (plain_op c ctx i) (meaning c ctx p)
        (Runs-plain c ctx i es k h) (program-Runs p es h)
  program-Runs (either a b p) es h =
      Runs-if c ctx es es _ _ _ h
        (Runs-append c ctx (true ∷ es) (true ∷ es) es (flatten a) _ (meaning c ctx a) _
          (program-Runs a (true ∷ es) h)
          (Runs-append c ctx (true ∷ es) (false ∷ es) es (simple op_else ∷ []) _ (pay op_else) _
            (Runs-else c ctx true es h)
            (Runs-append c ctx (false ∷ es) (false ∷ es) es (flatten b) _ (pay_all (flatten b)) _
              (skip c ctx b (false ∷ es) refl)
              (Runs-append c ctx (false ∷ es) es es (simple end_if ∷ []) _ (pay end_if) _
                (Runs-end_if c ctx false es) (program-Runs p es h)))))
        (Runs-append c ctx (false ∷ es) (false ∷ es) es (flatten a) _ (pay_all (flatten a)) _
          (skip c ctx a (false ∷ es) refl)
          (Runs-append c ctx (false ∷ es) (true ∷ es) es (simple op_else ∷ []) _ (pay op_else) _
            (Runs-else c ctx false es h)
            (Runs-append c ctx (true ∷ es) (true ∷ es) es (flatten b) _ (meaning c ctx b) _
              (program-Runs b (true ∷ es) h)
              (Runs-append c ctx (true ∷ es) es es (simple end_if ∷ []) _ (pay end_if) _
                (Runs-end_if c ctx true es) (program-Runs p es h)))))
  program-Runs (when a p) es h =
      Runs-if c ctx es es _ _ _ h
        (Runs-append c ctx (true ∷ es) (true ∷ es) es (flatten a) _ (meaning c ctx a) _
          (program-Runs a (true ∷ es) h)
          (Runs-append c ctx (true ∷ es) es es (simple end_if ∷ []) _ (pay end_if) _
            (Runs-end_if c ctx true es) (program-Runs p es h)))
        (Runs-append c ctx (false ∷ es) (false ∷ es) es (flatten a) _ (pay_all (flatten a)) _
          (skip c ctx a (false ∷ es) refl)
          (Runs-append c ctx (false ∷ es) es es (simple end_if ∷ []) _ (pay end_if) _
            (Runs-end_if c ctx false es) (program-Runs p es h)))

  -- Where every enclosing condition holds, running the instructions of a well-nested program does
  -- to the stack and the gas what the program means, errors included, and leaves the conditions as
  -- they were.
  pub run-flatten :
      (p : Program) (es : List Bool) (s : Plain)
      → all_true es ≡ true
      → run c ctx (flatten p) (with_exec es s) ≡ (meaning c ctx p s >>= λ s. ok (with_exec es s))
  run-flatten p es s h = program-Runs p es h s
