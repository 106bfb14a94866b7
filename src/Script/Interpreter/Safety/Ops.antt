-- ===== src/Script/Interpreter/Safety/Ops.antt =====
-- The arithmetic and data opcodes keep the stack valid and do not panic.
use l1_chain.Base.{
  ℕ, ◌-◌, ◌*◌, ◌≤◌, ◌<◌, Bool, not, ◌&&◌, ◌||◌, List, length, leb, ltb, ◌==◌, Bool-cases, inl, inr,
  arith, drop, All-take, All-drop, All-append, ◌^◌, ◌+◌,
}
use native.Mathlib.Nat.{pow-le-pow_right, lt_of_lt_of_le}
use l1_chain.Base.Bytes.{IsBytes, to_le, to_le-IsBytes, from_le-lt, from_le}
use l1_chain.Base.Word.{word, saturating_add}
use l1_chain.Script.Interpreter.Value.{Value, int, bytes, from_bool, is_truthy}
use l1_chain.Script.Interpreter.Stack.{Stack, pop, pop_int, pop_bytes}
use l1_chain.Script.Interpreter.Arith.{
  div_op, unary_op, mul_u128_op, ge_u128_op, value_op, not_op, verify_op,
}
use l1_chain.Script.Interpreter.Bytestrings.{
  extended, cat_op, slice_op, len_op, bytes_to_int_op, value_len, slice_of,
}
use l1_chain.Script.Interpreter.Safety.{IsStack, Safe, Safe-bind}
use l1_chain.Script.Interpreter.Safety.Moves.{
  IsInt, IsPopped, IsPoppedBytes, push-Safe, pop-Safe, pop_int-Safe, pop_bytes-Safe,
  from_bool-IsValue,
}

short_bytes-lt : (d : List ℕ) → IsBytes d → length d ≤ 8 → from_le d < word
short_bytes-lt d h short =
    lt_of_lt_of_le (from_le-lt d h) (pow-le-pow_right {n = 256} (omega arith) short)

module _ (X : Type 0) where
  pub div_op-Safe :
      (f : ℕ → ℕ → ℕ) (st : Stack)
      → ((a b : ℕ) → a < word → f a b < word)
      → IsStack st
      → Safe X IsStack (div_op f st)
  unfolding div_op
  div_op-Safe f st low s = Safe-bind X IsInt IsStack (pop_int st) _ (pop_int-Safe X st s) λ b hb.
      Safe-bind X IsInt IsStack (pop_int b.1) _ (pop_int-Safe X b.1 hb.1) λ a ha.
        elim (Bool-cases (b.0 == 0)) [
          | inl null ↦ rw null tt
          | inr other ↦ rw other (push-Safe X a.1 (int (f a.0 b.0)) ha.1 (low a.0 b.0 ha.0))
        ]

  pub unary_op-Safe :
      (f : ℕ → ℕ) (st : Stack)
      → ((a : ℕ) → a < word → f a < word)
      → IsStack st
      → Safe X IsStack (unary_op f st)
  unfolding unary_op
  unary_op-Safe f st low s =
      Safe-bind X IsInt IsStack (pop_int st) _ (pop_int-Safe X st s)
        λ a ha. push-Safe X a.1 (int (f a.0)) ha.1 (low a.0 ha.0)

  pub mul_u128_op-Safe : (st : Stack) → IsStack st → Safe X IsStack (mul_u128_op st)
  unfolding mul_u128_op
  mul_u128_op-Safe st s = Safe-bind X IsInt IsStack (pop_int st) _ (pop_int-Safe X st s) λ b hb.
      Safe-bind X IsInt IsStack (pop_int b.1) _ (pop_int-Safe X b.1 hb.1)
        λ a ha. push-Safe X a.1 (bytes (to_le 16 (a.0 * b.0))) ha.1 (to_le-IsBytes 16 (a.0 * b.0))

  pub ge_u128_op-Safe : (st : Stack) → IsStack st → Safe X IsStack (ge_u128_op st)
  unfolding ge_u128_op
  ge_u128_op-Safe st s =
      Safe-bind X IsPoppedBytes IsStack (pop_bytes st) _ (pop_bytes-Safe X st s) λ b hb.
        Safe-bind X IsPoppedBytes IsStack (pop_bytes b.1) _ (pop_bytes-Safe X b.1 hb.1) λ a ha.
          elim (Bool-cases (not (length a.0 == 16) || not (length b.0 == 16))) [
            | inl bad ↦ rw bad tt
            | inr good ↦ rw good (
                push-Safe X a.1 (from_bool (leb (from_le b.0) (from_le a.0))) ha.1
                  (from_bool-IsValue X (leb (from_le b.0) (from_le a.0))))
          ]

  pub value_op-Safe :
      (f : Value → Value → Bool) (st : Stack) → IsStack st → Safe X IsStack (value_op f st)
  unfolding value_op
  value_op-Safe f st s = Safe-bind X IsPopped IsStack (pop st) _ (pop-Safe X st s) λ b hb.
      Safe-bind X IsPopped IsStack (pop b.1) _ (pop-Safe X b.1 hb.1)
        λ a ha. push-Safe X a.1 (from_bool (f a.0 b.0)) ha.1 (from_bool-IsValue X (f a.0 b.0))

  pub not_op-Safe : (st : Stack) → IsStack st → Safe X IsStack (not_op st)
  unfolding not_op
  not_op-Safe st s = Safe-bind X IsPopped IsStack (pop st) _ (pop-Safe X st s) λ a ha.
      push-Safe X a.1 (from_bool (not (is_truthy a.0))) ha.1
        (from_bool-IsValue X (not (is_truthy a.0)))

  pub verify_op-Safe : (st : Stack) → IsStack st → Safe X IsStack (verify_op st)
  unfolding verify_op
  verify_op-Safe st s =
      Safe-bind X IsPopped IsStack (pop st) _ (pop-Safe X st s)
        λ a ha. elim (Bool-cases (is_truthy a.0)) [ inl yes' ↦ rw yes' ha.1 | inr no' ↦ rw no' tt ]

  extended-Safe : (a b : List ℕ) → X → IsBytes a → IsBytes b → Safe X IsBytes (extended a b)
  unfolding extended
  extended-Safe a b x ha hb = elim (Bool-cases (ltb (2 ^ 63 - 1) (length a + length b))) [
    | inl over ↦ rw over x
    | inr fits ↦ rw fits (All-append (λ x. x < 256) a b ha hb)
  ]

  pub cat_op-Safe : (st : Stack) → X → IsStack st → Safe X IsStack (cat_op st)
  unfolding cat_op
  cat_op-Safe st x s =
      Safe-bind X IsPoppedBytes IsStack (pop_bytes st) _ (pop_bytes-Safe X st s) λ b hb.
        Safe-bind X IsPoppedBytes IsStack (pop_bytes b.1) _ (pop_bytes-Safe X b.1 hb.1) λ a ha.
          Safe-bind X IsBytes IsStack (extended a.0 b.0) _ (extended-Safe a.0 b.0 x ha.0 hb.0)
            λ out h. push-Safe X a.1 (bytes out) ha.1 h

  -- `start` is a 64-bit number, so the saturating sum is not below it.
  slice_of-Safe :
      (d : List ℕ) (start count : ℕ)
      → start < word
      → IsBytes d
      → Safe X IsBytes (slice_of d start (saturating_add start count))
  unfolding saturating_add
  slice_of-Safe d start count low h = elim (Bool-cases (ltb (saturating_add start count) start)) [
    | inl past ↦ absurd (ground (arith, past))
    | inr fine ↦ rw fine (
        All-take (λ b. b < 256) (saturating_add start count - start) (drop start d)
          (All-drop (λ b. b < 256) start d h))
  ]

  pub slice_op-Safe : (st : Stack) → IsStack st → Safe X IsStack (slice_op st)
  unfolding slice_op
  slice_op-Safe st s = Safe-bind X IsInt IsStack (pop_int st) _ (pop_int-Safe X st s) λ n hn.
      Safe-bind X IsInt IsStack (pop_int n.1) _ (pop_int-Safe X n.1 hn.1) λ i hi.
        Safe-bind X IsPoppedBytes IsStack (pop_bytes i.1) _ (pop_bytes-Safe X i.1 hi.1) λ d hd.
          elim (Bool-cases (ltb (length d.0) (saturating_add i.0 n.0))) [
            | inl out ↦ rw out tt
            | inr inside ↦ rw inside (
                Safe-bind X IsBytes IsStack (slice_of d.0 i.0 (saturating_add i.0 n.0)) _
                  (slice_of-Safe d.0 i.0 n.0 hi.0 hd.0)
                  λ part h. push-Safe X d.1 (bytes part) hd.1 h)
          ]

  value_len-lt : (v : Value) → value_len v < word
  value_len-lt (int n) = omega arith
  value_len-lt (bytes b) = omega arith

  pub len_op-Safe : (st : Stack) → IsStack st → Safe X IsStack (len_op st)
  unfolding len_op
  len_op-Safe st s =
      Safe-bind X IsPopped IsStack (pop st) _ (pop-Safe X st s)
        λ a ha. push-Safe X a.1 (int (value_len a.0)) ha.1 (value_len-lt a.0)

  pub bytes_to_int_op-Safe : (st : Stack) → IsStack st → Safe X IsStack (bytes_to_int_op st)
  unfolding bytes_to_int_op
  bytes_to_int_op-Safe st s = Safe-bind X IsInt IsStack (pop_int st) _ (pop_int-Safe X st s) λ n hn.
      Safe-bind X IsPoppedBytes IsStack (pop_bytes n.1) _ (pop_bytes-Safe X n.1 hn.1) λ d hd.
        elim (Bool-cases (not (leb 1 n.0 && leb n.0 8))) [
          | inl out ↦ rw out tt
          | inr inside ↦ rw inside (elim (Bool-cases (not (length d.0 == n.0))) [
            | inl other ↦ rw other tt
            | inr same ↦ rw same (
                push-Safe X d.1 (int (from_le d.0)) hd.1
                  (short_bytes-lt d.0 hd.0 (ground (arith, inside, same))))
          ])
        ]
