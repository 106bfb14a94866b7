-- ===== src/Script/Interpreter/Metering.antt =====
-- The gas that a run consumes.
pub mod Exact
use l1_chain.Base.{
  ℕ, ◌+◌, ◌≤◌, ◌<◌, ◌≡◌, ◌≢◌, refl, List, [], ◌∷◌, All, Bool-cases, inl, inr, arith, ◌∙◌,
}
use l1_chain.Base.Word.{word, saturating_mul}
use l1_chain.Base.Outcome.{
  ok, err, panic, diverge, Ensures, Ensures-bind, >>=-eq-ok, Ensures-ok, Ensures-imp,
}
use l1_chain.Crypto.{Crypto}
use l1_chain.Script.Opcode.{OpCode, op_if, op_else, end_if, check_multi_sig_pqc}
use l1_chain.Script.Instruction.{Instruction}
use l1_chain.Script.Gas.{GasMeter, consume, charge, gas_cost, meter, multisig_per_key_cost}
use l1_chain.Script.Gas.Budget.{budget, consume-budget, consume-paid, total_cost}
use l1_chain.Script.Interpreter.Value.{Script}
use l1_chain.Script.Interpreter.Context.{Context}
use l1_chain.Script.Interpreter.Stack.{Stack, pop, pop_int}
use l1_chain.Script.Interpreter.Signatures.{check_multi_sig_op, multi_sig_body}
use l1_chain.Script.Interpreter.Step.{
  Machine, ExecResult, executing, stack_effect, if_op, else_op, end_if_op, run_op, dispatch, step,
  run, start, finish, execute_instructions, flip_top, pop_branch, parent_executing,
}

-- The budget stays, and what was consumed stays consumed.
abbrev Spends : GasMeter → GasMeter → Type 0
Spends g g' = (budget g' ≡ budget g) × (g.consumed ≤ g'.consumed)

pub finish-gas_used : (m : Machine) (r : ExecResult) → finish m ≡ ok r → r.gas_used ≡ m.gas.consumed
finish-gas_used m r e = ground (arith, e)

module _ (c : Crypto) (ctx : Context) where
  check_multi_sig_op-gas :
      (st : Stack) (g : GasMeter)
      → budget g < word
      → Ensures (λ p. Spends g p.1) (check_multi_sig_op c st g)
  unfolding check_multi_sig_op
  check_multi_sig_op-gas st g low =
      Ensures-bind (λ p. Spends g p.1) (pop_int st) _
        λ n _.
          let price = saturating_mul multisig_per_key_cost n.0 in
          elim (Bool-cases (consume g price).0) [
            | inl paid ↦ rw paid (
                Ensures-bind (λ p. Spends g p.1) (multi_sig_body c n.0 n.1) _
                  λ st' _.
                    (consume-budget g price low, omega (arith, consume-paid g price low paid)))
            | inr short ↦ rw short tt
          ]

  pub if_op-gas : (m : Machine) → Ensures (λ m'. m'.gas ≡ m.gas) (if_op m)
  unfolding if_op
  if_op-gas m = elim (Bool-cases (executing m)) [
    | inl live ↦ rw live (Ensures-bind (λ m'. m'.gas ≡ m.gas) (pop m.stack) _ λ p _. refl)
    | inr skipped ↦ rw skipped refl
  ]

  pub else_op-gas : (m : Machine) → Ensures (λ m'. m'.gas ≡ m.gas) (else_op m)
  unfolding else_op
  else_op-gas m =
      Ensures-bind (λ m'. m'.gas ≡ m.gas) (flip_top (parent_executing m.exec_stack) m.exec_stack) _
        λ es _. refl

  pub end_if_op-gas : (m : Machine) → Ensures (λ m'. m'.gas ≡ m.gas) (end_if_op m)
  unfolding end_if_op
  end_if_op-gas m = Ensures-bind (λ m'. m'.gas ≡ m.gas) (pop_branch m.exec_stack) _ λ es _. refl

  pub run_op-gas :
      (op : OpCode) (d : List ℕ) (m : Machine)
      → op ≢ check_multi_sig_pqc
      → Ensures (λ m'. m'.gas ≡ m.gas) (run_op c ctx op d m)
  unfolding run_op
  run_op-gas check_multi_sig_pqc d m h = absurd (h refl)
  run_op-gas op d m h =
      Ensures-bind (λ m'. m'.gas ≡ m.gas) (stack_effect c ctx op d m.stack) _ λ st _. refl

  run_op-Spends :
      (op : OpCode) (d : List ℕ) (m : Machine)
      → budget m.gas < word
      → Ensures (λ m'. Spends m.gas m'.gas) (run_op c ctx op d m)
  unfolding run_op
  run_op-Spends check_multi_sig_pqc d m low =
      Ensures-bind (λ m'. Spends m.gas m'.gas) (check_multi_sig_op c m.stack m.gas) _
        λ p e.
          Ensures-ok (λ p. Spends m.gas p.1) (check_multi_sig_op c m.stack m.gas) p
            (check_multi_sig_op-gas m.stack m.gas low) e
  run_op-Spends op d m low =
      Ensures-bind (λ m'. Spends m.gas m'.gas) (stack_effect c ctx op d m.stack) _
        λ st _. (refl, omega arith)

  same-Spends :
      (m : Machine) (r : Script Machine)
      → Ensures (λ m'. m'.gas ≡ m.gas) r
      → Ensures (λ m'. Spends m.gas m'.gas) r
  same-Spends m (ok m') h = rw h (refl, omega arith)
  same-Spends m (err e) h = tt
  same-Spends m panic h = tt
  same-Spends m diverge h = tt

  dispatch-Spends :
      (op : OpCode) (d : List ℕ) (m : Machine)
      → budget m.gas < word
      → Ensures (λ m'. Spends m.gas m'.gas) (dispatch c ctx op d m)
  unfolding dispatch
  dispatch-Spends op_if d m low = same-Spends m (if_op m) (if_op-gas m)
  dispatch-Spends op_else d m low = same-Spends m (else_op m) (else_op-gas m)
  dispatch-Spends end_if d m low = same-Spends m (end_if_op m) (end_if_op-gas m)
  dispatch-Spends op d m low = elim (Bool-cases (executing m)) [
    | inl live ↦ rw live (run_op-Spends op d m low)
    | inr skipped ↦ rw skipped (refl, omega arith)
  ]

  -- The machine's budget is kept, and at least `price` is consumed.
  abbrev Pays : ℕ → Machine → Machine → Type 0
  Pays price m m' = (budget m'.gas ≡ budget m.gas) × (m.gas.consumed + price ≤ m'.gas.consumed)

  step-Pays :
      (i : Instruction) (m : Machine)
      → budget m.gas < word
      → Ensures (Pays (gas_cost i.op) m) (step c ctx i m)
  unfolding step charge
  step-Pays i m low =
      let price = gas_cost i.op in
      let g = (consume m.gas price).1 in
      let kept = consume-budget m.gas price low in
      elim (Bool-cases (consume m.gas price).0) [
        | inl paid ↦ rw paid (
            Ensures-imp (λ m'. Spends g m'.gas) (Pays price m) _
              (λ m' h. (h.0 ∙ kept, omega (arith, h.1, consume-paid m.gas price low paid)))
              (dispatch-Spends i.op i.inline (record m { gas = g }) (omega (arith, kept, low))))
        | inr short ↦ rw short tt
      ]

  pub run-Pays :
      (is : List Instruction) (m : Machine)
      → budget m.gas < word
      → Ensures (Pays (total_cost is) m) (run c ctx is m)
  unfolding run
  run-Pays [] m low = (refl, omega arith)
  run-Pays (i ∷ is) m low = Ensures-bind (Pays (total_cost (i ∷ is)) m) (step c ctx i m) _ λ m1 e.
      let first = Ensures-ok (Pays (gas_cost i.op) m) (step c ctx i m) m1 (step-Pays i m low) e in
      Ensures-imp (Pays (total_cost is) m1) (Pays (total_cost (i ∷ is)) m) (run c ctx is m1)
        (λ m2 h. (h.0 ∙ first.0, omega (arith, h.1, first.1)))
        (run-Pays is m1 (omega (arith, first.0, low)))

  -- When executing instructions under a limit that a `u64` holds returns a result, it has used at
  -- least the sum of the prices of all instructions, skipped ones included, and at most the limit.
  pub execute_instructions-gas_used :
      (is : List Instruction) (limit : ℕ) (r : ExecResult)
      → limit < word
      → execute_instructions c ctx is (meter limit) ≡ ok r
      → (total_cost is ≤ r.gas_used) × (r.gas_used ≤ limit)
  unfolding execute_instructions
  execute_instructions-gas_used is limit r low e =
      let (m, ran, done) = >>=-eq-ok (run c ctx is (start (meter limit))) _ e in
      let paid =
        Ensures-ok (Pays (total_cost is) (start (meter limit))) _ m
          (run-Pays is (start (meter limit)) (omega arith)) ran in
      let used = finish-gas_used m r done in
      (omega (arith, paid.1, used), omega (arith, paid.0, used))
