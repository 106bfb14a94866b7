-- ===== src/Script/Interpreter/Wide.antt =====
-- crates/qv-script/src/interpreter.rs, `MulU128` and `GeU128`: products compared without overflow.
use native.Mathlib.Nat.{mul-le-mul}
use l1_chain.Base.{ℕ, ◌*◌, ◌≤◌, ◌<◌, ◌≡◌, arith, ◌∷◌, length, leb, ◌^◌, ◌-◌, List, ◌∙◌, ap}
use l1_chain.Base.Bytes.{to_le, from_le, from_le-to_le, length-to_le}
use l1_chain.Base.Word.{word}
use l1_chain.Base.Outcome.{ok, ◌>>=◌}
use l1_chain.Script.Opcode.{max_stack_depth}
use l1_chain.Script.Interpreter.Value.{Value, int, bytes, from_bool}
use l1_chain.Script.Interpreter.Stack.{Stack, push, pop, pop_int, pop_bytes}
use l1_chain.Script.Interpreter.Arith.{mul_u128_op, ge_u128_op}

product-lt : (a b : ℕ) → a < word → b < word → a * b < 256 ^ 16
product-lt a b h k =
    let bound : a * b ≤ (word - 1) * (word - 1) =
      mul-le-mul {n₂ = word - 1} {m₂ = word - 1} (omega arith) (omega arith) in
    omega arith

push-room : (st : Stack) (v : Value) → length st < max_stack_depth → push st v ≡ ok (v ∷ st)
unfolding push
push-room st v h = ground arith

mul_u128_op-eq :
    (st : Stack) (a b : ℕ)
    → length st < max_stack_depth
    → mul_u128_op (int b ∷ int a ∷ st) ≡ ok (bytes (to_le 16 (a * b)) ∷ st)
unfolding mul_u128_op pop_int pop
mul_u128_op-eq st a b h = push-room st (bytes (to_le 16 (a * b))) h

ge_u128_op-eq :
    (st : Stack) (xs ys : List ℕ)
    → length xs ≡ 16
    → length ys ≡ 16
    → length st < max_stack_depth
    → ge_u128_op (bytes ys ∷ bytes xs ∷ st) ≡ ok (from_bool (leb (from_le ys) (from_le xs)) ∷ st)
unfolding ge_u128_op pop_bytes pop
ge_u128_op-eq st xs ys h k room =
    rw h (rw k (push-room st (from_bool (leb (from_le ys) (from_le xs))) room))

-- For 64-bit numbers `a`, `b`, `d` and `e` on a stack with room for them, `MulU128` on the first
-- two, `MulU128` on the last two and `GeU128` leave 1 if `d * e ≤ a * b` as natural numbers, and 0
-- otherwise.
ge_u128_op-mul_u128_op :
    (st : Stack) (a b d e : ℕ)
    → a < word
    → b < word
    → d < word
    → e < word
    → length st ≤ 1020
    → (mul_u128_op (int b ∷ int a ∷ st) >>= λ st. mul_u128_op (int e ∷ int d ∷ st) >>= ge_u128_op)
      ≡ ok (from_bool (leb (d * e) (a * b)) ∷ st)
ge_u128_op-mul_u128_op st a b d e ha hb hd he room =
    let left = from_le-to_le 16 (a * b) (product-lt a b ha hb) in
    let right = from_le-to_le 16 (d * e) (product-lt d e hd he) in
    let test =
      ge_u128_op-eq st (to_le 16 (a * b)) (to_le 16 (d * e)) (length-to_le 16 (a * b))
        (length-to_le 16 (d * e)) (omega arith) in
    rw (mul_u128_op-eq st a b (omega arith)) (
      rw (mul_u128_op-eq (bytes (to_le 16 (a * b)) ∷ st) d e (omega arith))
        (test ∙ ap (λ x. ok (from_bool x ∷ st)) (ap (leb _) left ∙ ap (λ y. leb y (a * b)) right)))
