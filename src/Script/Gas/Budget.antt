-- ===== src/Script/Gas/Budget.antt =====
-- The meter of gas.rs: what is consumed and what remains.
use l1_chain.Base.{ℕ, ◌+◌, ◌≤◌, ◌<◌, ◌≡◌, true, List, [], ◌∷◌, arith}
use l1_chain.Base.Word.{word}
use l1_chain.Script.Opcode.{OpCode, op0}
use l1_chain.Script.Instruction.{Instruction}
use l1_chain.Script.Gas.{GasMeter, gas_cost, consume}

-- Every opcode costs something.
pub gas_cost-pos : (op : OpCode) → 0 < gas_cost op
unfolding gas_cost
gas_cost-pos op0 = omega arith
gas_cost-pos _ = omega arith

-- The budget that a meter was made with
abbrev pub budget : GasMeter → ℕ
budget m = m.remaining + m.consumed

-- If the budget fits into a `u64`, consuming leaves it as it was: what is paid moves from one
-- counter to the other.
pub consume-budget :
    (m : GasMeter) (amount : ℕ) → budget m < word → budget (consume m amount).1 ≡ budget m
unfolding consume
consume-budget m amount h = ground arith

pub consume-paid :
    (m : GasMeter) (amount : ℕ)
    → budget m < word
    → (consume m amount).0 ≡ true
    → (amount ≤ m.remaining) × ((consume m amount).1.consumed ≡ m.consumed + amount)
unfolding consume
consume-paid m amount h e = ground arith

-- The price of a list of instructions, whether they are skipped or not
abbrev pub total_cost : List Instruction → ℕ
total_cost [] = 0
total_cost (i ∷ is) = gas_cost i.op + total_cost is
