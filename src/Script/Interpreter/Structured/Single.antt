-- ===== src/Script/Interpreter/Structured/Single.antt =====
-- Runs that start and end under given conditions, and the single steps among them.
use l1_chain.Base.{
  ℕ, ◌≡◌, refl, sym, ◌∙◌, ap, Bool, true, false, not, List, [], ◌∷◌, ◌++◌, if◌then◌else◌,
  Bool-cases, inl, inr, arith,
}
use l1_chain.Base.Outcome.{ok, err, panic, diverge, ◌>>=◌, bind_assoc, bind_cong, bind_ok}
use l1_chain.Crypto.{Crypto}
use l1_chain.Script.Opcode.{OpCode, op_if, op_else, end_if, check_multi_sig_pqc}
use l1_chain.Script.Instruction.{Instruction, simple}
use l1_chain.Script.Gas.{GasMeter, charge}
use l1_chain.Script.Interpreter.Value.{Script, is_truthy, Value}
use l1_chain.Script.Interpreter.Context.{Context}
use l1_chain.Script.Interpreter.Stack.{Stack, pop}
use l1_chain.Script.Interpreter.Signatures.{check_multi_sig_op}
use l1_chain.Script.Interpreter.Step.{
  Machine, all_true, executing, stack_effect, if_op, else_op, end_if_op, run_op, dispatch, step,
  run, parent_executing,
}
use l1_chain.Script.Interpreter.Structured.{
  IsPlain, Plain, pay, with_exec, forget, plain_op, condition,
}

module _ (c : Crypto) (ctx : Context) where
  pub run-append :
      (xs ys : List Instruction) (m : Machine)
      → run c ctx (xs ++ ys) m ≡ (run c ctx xs m >>= λ m. run c ctx ys m)
  unfolding run
  run-append [] ys m = refl
  run-append (x ∷ xs) ys m =
      bind_cong (step c ctx x m) _ _ (run-append xs ys) ∙ sym (bind_assoc (step c ctx x m) _ _)

  -- The instructions turn the conditions `es` into `es'`, and do `f` to the rest of the machine.
  abbrev pub Runs : List Bool → List Instruction → (Plain → Script Plain) → List Bool → Type 0
  Runs es is f es' =
      (s : Plain) → run c ctx is (with_exec es s) ≡ (f s >>= λ s. ok (with_exec es' s))

  pub Runs-append :
      (es es1 es2 : List Bool) (xs ys : List Instruction) (f g : Plain → Script Plain)
      → Runs es xs f es1
      → Runs es1 ys g es2
      → Runs es (xs ++ ys) (λ s. f s >>= g) es2
  Runs-append es es1 es2 xs ys f g hf hg s =
      run-append xs ys (with_exec es s)
      ∙ ap (λ (r : Script Machine). r >>= λ m. run c ctx ys m) (hf s)
      ∙ bind_assoc (f s) _ _
      ∙ bind_cong (f s) _ _ hg
      ∙ sym (bind_assoc (f s) g _)

  pub Runs-nil : (es : List Bool) → Runs es [] (λ s. ok s) es
  unfolding run
  Runs-nil es s = refl

  run-single : (i : Instruction) (m : Machine) → run c ctx (i ∷ []) m ≡ step c ctx i m
  unfolding run
  run-single i m = bind_ok (step c ctx i m)

  -- An opcode of conditionals is charged and then acts on the conditions.
  step_after_charge :
      (i : Instruction) (es es' : List Bool) (f : Plain → Script Plain)
      → ((s : Plain)
          → dispatch c ctx i.op i.inline (with_exec es s) ≡ (f s >>= λ s. ok (with_exec es' s)))
      → Runs es (i ∷ []) (λ s. pay i.op s >>= f) es'
  unfolding step
  step_after_charge i es es' f h s =
      run-single i (with_exec es s) ∙ (elim (Bool-cases (charge s.1 i.op).0) [
        | inl paid ↦ rw paid (h (s.0, (charge s.1 i.op).1))
        | inr short ↦ rw short
      ])

  dispatch-plain :
      (op : OpCode) (d : List ℕ) (m : Machine)
      → IsPlain op
      → dispatch c ctx op d m ≡ (if executing m then run_op c ctx op d m else ok m)
  unfolding dispatch
  dispatch-plain op_if d m h = absurd h
  dispatch-plain op_else d m h = absurd h
  dispatch-plain end_if d m h = absurd h
  dispatch-plain _ d m h = refl

  frame {ℓ} :
      {B : Type ℓ} (r : Script B) (f : B → Plain) (es : List Bool)
      → (r >>= λ b. ok (with_exec es (f b))) ≡ (
          r >>= (λ b. ok (with_exec [] (f b))) >>= (λ m. ok (forget m)) >>= λ s.
          ok (with_exec es s))
  frame (ok b) f es = refl
  frame (err e) f es = refl
  frame panic f es = refl
  frame diverge f es = refl

  run_op-frame :
      (op : OpCode) (d : List ℕ) (s : Plain) (es : List Bool)
      → run_op c ctx op d (with_exec es s)
        ≡ (run_op c ctx op d (with_exec [] s) >>= (λ m. ok (forget m)) >>= λ s. ok (with_exec es s))
  unfolding run_op
  run_op-frame check_multi_sig_pqc d s es = frame (check_multi_sig_op c s.0 s.1) (λ p. p) es
  run_op-frame op d s es = frame (stack_effect c ctx op d s.0) (λ st. (st, s.1)) es

  pub Runs-plain :
      (i : Instruction) (es : List Bool)
      → IsPlain i.op
      → all_true es ≡ true
      → Runs es (i ∷ []) (plain_op c ctx i) es
  Runs-plain i es h live = step_after_charge i es es _ λ s.
      dispatch-plain i.op i.inline (with_exec es s) h ∙ rw live (run_op-frame i.op i.inline s es)

  pub Runs-plain_skipped :
      (i : Instruction) (es : List Bool)
      → IsPlain i.op
      → all_true es ≡ false
      → Runs es (i ∷ []) (pay i.op) es
  Runs-plain_skipped i es h skipped s =
      step_after_charge i es es (λ s. ok s)
        (λ s. dispatch-plain i.op i.inline (with_exec es s) h ∙ rw skipped) s
      ∙ ap (λ (r : Script Plain). r >>= λ s. ok (with_exec es s)) (bind_ok (pay i.op s))

  pub Runs-if :
      (es es' : List Bool) (rest : List Instruction) (f g : Plain → Script Plain)
      → all_true es ≡ true
      → Runs (true ∷ es) rest f es'
      → Runs (false ∷ es) rest g es'
      → Runs es
          (simple op_if ∷ rest)
          (λ s. pay op_if s >>= λ s.
            condition s >>= λ (holds, s). elim holds [ true ↦ f s | false ↦ g s ])
          es'
  unfolding step dispatch if_op run
  Runs-if es es' rest f g live hf hg s = elim (Bool-cases (charge s.1 op_if).0) [
    | inr short ↦ rw short
    | inl paid ↦ rw (paid, live) (if_case (pop s.0) (charge s.1 op_if).1)
  ]
    where
      if_case :
          (r : Script (Value × Stack)) (gas : GasMeter)
          → (r
              >>= (λ (cond, st).
                  ok (record { stack = st; exec_stack = is_truthy cond ∷ es; gas = gas }))
              >>= λ m. run c ctx rest m)
            ≡ (r
                >>= (λ (v, st). ok (is_truthy v, (st, gas)))
                >>= (λ (holds, s). elim holds [ true ↦ f s | false ↦ g s ])
                >>= λ s. ok (with_exec es' s))
      if_case (ok (v, st)) gas = elim (Bool-cases (is_truthy v)) [
        | inl holds ↦ rw holds (hf (st, gas))
        | inr fails ↦ rw fails (hg (st, gas))
      ]
      if_case (err e) gas = refl
      if_case panic gas = refl
      if_case diverge gas = refl

  -- Where the enclosing conditions fail, `IF` pushes a false one and leaves the stack alone.
  pub Runs-if_skipped :
      (es : List Bool) → all_true es ≡ false → Runs es (simple op_if ∷ []) (pay op_if) (false ∷ es)
  unfolding dispatch if_op
  Runs-if_skipped es skipped s =
      step_after_charge (simple op_if) es (false ∷ es) (λ s. ok s) (λ s. rw skipped) s
      ∙ ap (λ (r : Script Plain). r >>= λ s. ok (with_exec (false ∷ es) s)) (bind_ok (pay op_if s))

  parent_live : (b : Bool) (es : List Bool) → all_true es ≡ true → parent_executing (b ∷ es) ≡ true
  parent_live b [] live = refl
  parent_live b (e ∷ es) live = ground (arith, live)

  parent_skipped :
      (b : Bool) (es : List Bool) → all_true es ≡ false → parent_executing (b ∷ es) ≡ false
  parent_skipped b [] skipped = cc
  parent_skipped b (e ∷ es) skipped = ground (arith, skipped)

  pub Runs-else :
      (b : Bool) (es : List Bool)
      → all_true es ≡ true
      → Runs (b ∷ es) (simple op_else ∷ []) (pay op_else) (not b ∷ es)
  unfolding dispatch else_op
  Runs-else b es live s =
      step_after_charge (simple op_else) (b ∷ es) (not b ∷ es) (λ s. ok s)
        (λ s. rw (parent_live b es live)) s
      ∙ ap (λ (r : Script Plain). r >>= λ s. ok (with_exec (not b ∷ es) s))
          (bind_ok (pay op_else s))

  pub Runs-else_skipped :
      (b : Bool) (es : List Bool)
      → all_true es ≡ false
      → Runs (b ∷ es) (simple op_else ∷ []) (pay op_else) (b ∷ es)
  unfolding dispatch else_op
  Runs-else_skipped b es skipped s =
      step_after_charge (simple op_else) (b ∷ es) (b ∷ es) (λ s. ok s)
        (λ s. rw (parent_skipped b es skipped)) s
      ∙ ap (λ (r : Script Plain). r >>= λ s. ok (with_exec (b ∷ es) s)) (bind_ok (pay op_else s))

  pub Runs-end_if : (b : Bool) (es : List Bool) → Runs (b ∷ es) (simple end_if ∷ []) (pay end_if) es
  unfolding dispatch end_if_op
  Runs-end_if b es s =
      step_after_charge (simple end_if) (b ∷ es) es (λ s. ok s) (λ s. refl) s
      ∙ ap (λ (r : Script Plain). r >>= λ s. ok (with_exec es s)) (bind_ok (pay end_if s))
