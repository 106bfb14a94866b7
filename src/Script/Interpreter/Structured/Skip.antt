-- ===== src/Script/Interpreter/Structured/Skip.antt =====
-- The branch that is not taken.
use l1_chain.Base.{◌≡◌, refl, sym, ◌∙◌, ap, Bool, false, List, [], ◌∷◌, ◌++◌}
use l1_chain.Base.Outcome.{ok, ◌>>=◌, bind_assoc, bind_cong}
use l1_chain.Crypto.{Crypto}
use l1_chain.Script.Opcode.{op_if, op_else, end_if}
use l1_chain.Script.Instruction.{Instruction, simple}
use l1_chain.Script.Interpreter.Value.{Script}
use l1_chain.Script.Interpreter.Context.{Context}
use l1_chain.Script.Interpreter.Step.{all_true}
use l1_chain.Script.Interpreter.Structured.{
  Program, done, plain, either, when, flatten, Plain, pay, pay_all, with_exec,
}
use l1_chain.Script.Interpreter.Structured.Single.{
  Runs, Runs-append, Runs-nil, Runs-plain_skipped, Runs-if_skipped, Runs-else_skipped, Runs-end_if,
}

module _ (c : Crypto) (ctx : Context) where
  pay_all-append :
      (xs ys : List Instruction) (s : Plain)
      → pay_all (xs ++ ys) s ≡ (pay_all xs s >>= λ s. pay_all ys s)
  pay_all-append [] ys s = refl
  pay_all-append (x ∷ xs) ys s =
      bind_cong (pay x.op s) _ _ (pay_all-append xs ys) ∙ sym (bind_assoc (pay x.op s) _ _)

  -- Two skipped runs, one after the other
  skip-append :
      (es es1 es2 : List Bool) (xs ys : List Instruction)
      → Runs c ctx es xs (pay_all xs) es1
      → Runs c ctx es1 ys (pay_all ys) es2
      → Runs c ctx es (xs ++ ys) (pay_all (xs ++ ys)) es2
  skip-append es es1 es2 xs ys hx hy s =
      Runs-append c ctx es es1 es2 xs ys (pay_all xs) (pay_all ys) hx hy s
      ∙ ap (λ (r : Script Plain). r >>= λ s. ok (with_exec es2 s)) (sym (pay_all-append xs ys s))

  skip-cons :
      (es es1 es2 : List Bool) (i : Instruction) (ys : List Instruction)
      → Runs c ctx es (i ∷ []) (pay i.op) es1
      → Runs c ctx es1 ys (pay_all ys) es2
      → Runs c ctx es (i ∷ ys) (pay_all (i ∷ ys)) es2
  skip-cons es es1 es2 i ys hi hy =
      Runs-append c ctx es es1 es2 (i ∷ []) ys (pay i.op) (pay_all ys) hi hy

  -- While a condition fails, a program is paid for and does nothing else.
  pub skip :
      (p : Program) (es : List Bool)
      → all_true es ≡ false
      → Runs c ctx es (flatten p) (pay_all (flatten p)) es
  skip done es h = Runs-nil c ctx es
  skip (plain i k p) es h =
      skip-cons es es es i (flatten p) (Runs-plain_skipped c ctx i es k h) (skip p es h)
  skip (either a b p) es h =
      skip-cons es (false ∷ es) es (simple op_if) _ (Runs-if_skipped c ctx es h) (
        skip-append (false ∷ es) (false ∷ es) es (flatten a) _ (skip a (false ∷ es) refl) (
          skip-cons (false ∷ es) (false ∷ es) es (simple op_else) _
            (Runs-else_skipped c ctx false es h)
            (skip-append (false ∷ es) (false ∷ es) es (flatten b) _ (skip b (false ∷ es) refl) (
              skip-cons (false ∷ es) es es (simple end_if) _ (Runs-end_if c ctx false es)
                (skip p es h)))))
  skip (when a p) es h =
      skip-cons es (false ∷ es) es (simple op_if) _ (Runs-if_skipped c ctx es h) (
        skip-append (false ∷ es) (false ∷ es) es (flatten a) _ (skip a (false ∷ es) refl) (
          skip-cons (false ∷ es) es es (simple end_if) _ (Runs-end_if c ctx false es)
            (skip p es h)))
