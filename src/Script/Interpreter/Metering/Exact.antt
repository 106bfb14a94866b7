-- ===== src/Script/Interpreter/Metering/Exact.antt =====
-- The gas that a run without a multi-signature consumes.
use l1_chain.Base.{
  ℕ, ◌+◌, ◌<◌, ◌≡◌, ◌≢◌, refl, List, [], ◌∷◌, All, Bool-cases, inl, inr, arith, ◌∙◌,
}
use l1_chain.Base.Word.{word}
use l1_chain.Base.Outcome.{ok, Ensures, Ensures-bind, >>=-eq-ok, Ensures-ok, Ensures-imp}
use l1_chain.Crypto.{Crypto}
use l1_chain.Script.Opcode.{OpCode, op_if, op_else, end_if, check_multi_sig_pqc}
use l1_chain.Script.Instruction.{Instruction}
use l1_chain.Script.Gas.{consume, charge, gas_cost, meter}
use l1_chain.Script.Gas.Budget.{budget, consume-budget, consume-paid, total_cost}
use l1_chain.Script.Interpreter.Context.{Context}
use l1_chain.Script.Interpreter.Step.{
  Machine, ExecResult, executing, dispatch, step, run, start, execute_instructions,
}
use l1_chain.Script.Interpreter.Metering.{
  finish-gas_used, if_op-gas, else_op-gas, end_if_op-gas, run_op-gas,
}

module _ (c : Crypto) (ctx : Context) where
  dispatch-gas :
      (op : OpCode) (d : List ℕ) (m : Machine)
      → op ≢ check_multi_sig_pqc
      → Ensures (λ m'. m'.gas ≡ m.gas) (dispatch c ctx op d m)
  unfolding dispatch
  dispatch-gas op_if d m h = if_op-gas c ctx m
  dispatch-gas op_else d m h = else_op-gas c ctx m
  dispatch-gas end_if d m h = end_if_op-gas c ctx m
  dispatch-gas op d m h = elim (Bool-cases (executing m)) [
    | inl live ↦ rw live (run_op-gas c ctx op d m h)
    | inr skipped ↦ rw skipped refl
  ]

  -- Without a multi-signature exactly the price is consumed.
  abbrev PaysExactly : ℕ → Machine → Machine → Type 0
  PaysExactly price m m' =
      (budget m'.gas ≡ budget m.gas) × (m'.gas.consumed ≡ m.gas.consumed + price)

  step-PaysExactly :
      (i : Instruction) (m : Machine)
      → budget m.gas < word
      → i.op ≢ check_multi_sig_pqc
      → Ensures (PaysExactly (gas_cost i.op) m) (step c ctx i m)
  unfolding step charge
  step-PaysExactly i m low plain =
      let price = gas_cost i.op in
      let g = (consume m.gas price).1 in
      elim (Bool-cases (consume m.gas price).0) [
        | inl paid ↦ rw paid (
            Ensures-imp (λ m'. m'.gas ≡ g) (PaysExactly price m) _
              (λ m' h. rw h (consume-budget m.gas price low, (consume-paid m.gas price low paid).1))
              (dispatch-gas i.op i.inline (record m { gas = g }) plain))
        | inr short ↦ rw short tt
      ]

  pub run-PaysExactly :
      (is : List Instruction) (m : Machine)
      → budget m.gas < word
      → All (λ i. i.op ≢ check_multi_sig_pqc) is
      → Ensures (PaysExactly (total_cost is) m) (run c ctx is m)
  unfolding run
  run-PaysExactly [] m low plain = (refl, omega arith)
  run-PaysExactly (i ∷ is) m low plain =
      Ensures-bind (PaysExactly (total_cost (i ∷ is)) m) (step c ctx i m) _ λ m1 e.
        let first =
          Ensures-ok (PaysExactly (gas_cost i.op) m) (step c ctx i m) m1
            (step-PaysExactly i m low plain.0) e in
        Ensures-imp (PaysExactly (total_cost is) m1) (PaysExactly (total_cost (i ∷ is)) m)
          (run c ctx is m1) (λ m2 h. (h.0 ∙ first.0, omega (arith, h.1, first.1)))
          (run-PaysExactly is m1 (omega (arith, first.0, low)) plain.1)

  -- If no instruction is `CheckMultiSigPqc`, and executing the instructions under a limit that a
  -- `u64` holds returns a result, it has used exactly the sum of the prices of all instructions.
  pub execute_instructions-gas_used_exact :
      (is : List Instruction) (limit : ℕ) (r : ExecResult)
      → limit < word
      → All (λ i. i.op ≢ check_multi_sig_pqc) is
      → execute_instructions c ctx is (meter limit) ≡ ok r
      → r.gas_used ≡ total_cost is
  unfolding execute_instructions
  execute_instructions-gas_used_exact is limit r low plain e =
      let (m, ran, done) = >>=-eq-ok (run c ctx is (start (meter limit))) _ e in
      let paid =
        Ensures-ok (PaysExactly (total_cost is) (start (meter limit))) _ m
          (run-PaysExactly is (start (meter limit)) (omega arith) plain) ran in
      let used = finish-gas_used m r done in omega (arith, paid.1, used)
