-- ===== src/Script/Interpreter/Safety/Moves.antt =====
-- The stack's helpers and the opcodes that move values.
use l1_chain.Base.{
  ℕ, zero, suc, ◌<◌, ◌≡◌, refl, Bool, List, [], ◌∷◌, length, All, leb, ltb, Bool-cases, inl, inr,
  arith, take, All-take, length-take, ap,
}
use l1_chain.Base.Bytes.{IsBytes, to_le-IsBytes, from_le-lt, from_le}
use l1_chain.Base.Word.{word}
use l1_chain.Base.Outcome.{◌>>=◌}
use l1_chain.Script.Opcode.{max_stack_depth}
use l1_chain.Script.Interpreter.Value.{Value, int, bytes, Script, from_bool}
use l1_chain.Script.Interpreter.Stack.{
  Stack, push, pop, peek, pop_int, pop_bytes, bin_int_op, cmp_int_op, index, remove, dup_op,
  swap_op, drop_op, pick_op, roll_op, over_op, rot_op, dup2_op, push_int_op, in_stack,
}
use l1_chain.Script.Interpreter.Safety.{IsValue, IsStack, Safe, Safe-bind}

abbrev pub IsPopped : Value × Stack → Type 0
IsPopped (v, st) = IsValue v × IsStack st

abbrev pub IsInt : ℕ × Stack → Type 0
IsInt (n, st) = (n < word) × IsStack st

abbrev pub IsPoppedBytes : List ℕ × Stack → Type 0
IsPoppedBytes (b, st) = IsBytes b × IsStack st

pub IsStack-tail : (v : Value) (st : Stack) → IsStack (v ∷ st) → IsStack st
IsStack-tail v st s = (omega (arith, s.0), s.1.1)

module _ (X : Type 0) where
  pub push-Safe : (st : Stack) (v : Value) → IsStack st → IsValue v → Safe X IsStack (push st v)
  unfolding push
  push-Safe st v s h = elim (Bool-cases (leb max_stack_depth (length st))) [
    | inl full ↦ rw full tt
    | inr room ↦ rw room (ground (arith, room), (h, s.1))
  ]

  pub pop-Safe : (st : Stack) → IsStack st → Safe X IsPopped (pop st)
  unfolding pop
  pop-Safe [] s = tt
  pop-Safe (v ∷ st) s = (s.1.0, IsStack-tail v st s)

  pub peek-Safe : (st : Stack) → IsStack st → Safe X IsValue (peek st)
  unfolding peek
  peek-Safe [] s = tt
  peek-Safe (v ∷ st) s = s.1.0

  pub pop_int-Safe : (st : Stack) → IsStack st → Safe X IsInt (pop_int st)
  unfolding pop_int
  pop_int-Safe [] s = tt
  pop_int-Safe (int n ∷ st) s = (s.1.0, IsStack-tail (int n) st s)
  pop_int-Safe (bytes b ∷ st) s = tt

  pub pop_bytes-Safe : (st : Stack) → IsStack st → Safe X IsPoppedBytes (pop_bytes st)
  unfolding pop_bytes
  pop_bytes-Safe [] s = tt
  pop_bytes-Safe (int n ∷ st) s = (to_le-IsBytes 8 n, IsStack-tail (int n) st s)
  pop_bytes-Safe (bytes b ∷ st) s = (s.1.0, IsStack-tail (bytes b) st s)

  pub index-Safe : (st : Stack) (n : ℕ) → IsStack st → n < length st → Safe X IsValue (index st n)
  unfolding index
  index-Safe [] n s h = absurd (omega arith)
  index-Safe (v ∷ st) zero s h = s.1.0
  index-Safe (v ∷ st) (suc n) s h = index-Safe st n (IsStack-tail v st s) (omega arith)

  -- Taking an element out leaves the others, and room for one more.
  remove-Safe :
      (st : Stack) (n : ℕ)
      → All IsValue st
      → n < length st
      → Safe X (λ p. IsValue p.0 × All IsValue p.1 × (suc (length p.1) ≡ length st)) (remove st n)
  unfolding remove
  remove-Safe [] n s h = absurd (omega arith)
  remove-Safe (v ∷ st) zero s h = (s.0, s.1, refl)
  remove-Safe (v ∷ st) (suc n) s h =
      Safe-bind X _ _ (remove st n) _ (remove-Safe st n s.1 (omega arith))
        λ p (val, vals, len). (val, (s.0, vals), ap suc len)

  pub bin_int_op-Safe :
      (f : ℕ → ℕ → ℕ) (st : Stack)
      → ((a b : ℕ) → a < word → b < word → f a b < word)
      → IsStack st
      → Safe X IsStack (bin_int_op f st)
  unfolding bin_int_op
  bin_int_op-Safe f st low s = Safe-bind X IsInt IsStack (pop_int st) _ (pop_int-Safe st s) λ b hb.
      Safe-bind X IsInt IsStack (pop_int b.1) _ (pop_int-Safe b.1 hb.1)
        λ a ha. push-Safe a.1 (int (f a.0 b.0)) ha.1 (low a.0 b.0 ha.0 hb.0)

  pub from_bool-IsValue : (b : Bool) → IsValue (from_bool b)
  from_bool-IsValue b = ground arith

  pub cmp_int_op-Safe :
      (f : ℕ → ℕ → Bool) (st : Stack) → IsStack st → Safe X IsStack (cmp_int_op f st)
  unfolding cmp_int_op
  cmp_int_op-Safe f st s = Safe-bind X IsInt IsStack (pop_int st) _ (pop_int-Safe st s) λ b hb.
      Safe-bind X IsInt IsStack (pop_int b.1) _ (pop_int-Safe b.1 hb.1)
        λ a ha. push-Safe a.1 (from_bool (f a.0 b.0)) ha.1 (from_bool-IsValue (f a.0 b.0))

  in_stack-Safe :
      (n : ℕ) (st : Stack) (m : Script Stack)
      → (n < length st → Safe X IsStack m)
      → Safe X IsStack (in_stack n st m)
  in_stack-Safe n st m k = elim (Bool-cases (leb (length st) n)) [
    | inl out ↦ rw out tt
    | inr inside ↦ rw inside (k (ground (arith, inside)))
  ]

  pub dup_op-Safe : (st : Stack) → IsStack st → Safe X IsStack (dup_op st)
  unfolding dup_op
  dup_op-Safe st s =
      Safe-bind X IsValue IsStack (peek st) _ (peek-Safe st s) λ a ha. push-Safe st a s ha

  pub swap_op-Safe : (st : Stack) → IsStack st → Safe X IsStack (swap_op st)
  unfolding swap_op
  swap_op-Safe st s = Safe-bind X IsPopped IsStack (pop st) _ (pop-Safe st s) λ b hb.
      Safe-bind X IsPopped IsStack (pop b.1) _ (pop-Safe b.1 hb.1) λ a ha.
        Safe-bind X IsStack IsStack (push a.1 b.0) _ (push-Safe a.1 b.0 ha.1 hb.0)
          λ st' h. push-Safe st' a.0 h ha.0

  pub drop_op-Safe : (st : Stack) → IsStack st → Safe X IsStack (drop_op st)
  unfolding drop_op
  drop_op-Safe st s = Safe-bind X IsPopped IsStack (pop st) _ (pop-Safe st s) λ a ha. ha.1

  pub pick_op-Safe : (st : Stack) → IsStack st → Safe X IsStack (pick_op st)
  unfolding pick_op
  pick_op-Safe st s = Safe-bind X IsInt IsStack (pop_int st) _ (pop_int-Safe st s) λ n hn.
      in_stack-Safe n.0 n.1 _ λ inside.
        Safe-bind X IsValue IsStack (index n.1 n.0) _ (index-Safe n.1 n.0 hn.1 inside)
          λ v hv. push-Safe n.1 v hn.1 hv

  remove-push-Safe :
      (st : Stack) (n : ℕ)
      → IsStack st
      → n < length st
      → Safe X IsStack (remove st n >>= λ (v, rest). push rest v)
  remove-push-Safe st n s inside =
      Safe-bind X _ IsStack (remove st n) _ (remove-Safe st n s.1 inside)
        λ p (val, vals, len). push-Safe p.1 p.0 (omega (arith, len, s.0), vals) val

  pub roll_op-Safe : (st : Stack) → IsStack st → Safe X IsStack (roll_op st)
  unfolding roll_op
  roll_op-Safe st s =
      Safe-bind X IsInt IsStack (pop_int st) _ (pop_int-Safe st s)
        λ n hn. in_stack-Safe n.0 n.1 _ λ inside. remove-push-Safe n.1 n.0 hn.1 inside

  pub over_op-Safe : (st : Stack) → IsStack st → Safe X IsStack (over_op st)
  unfolding over_op
  over_op-Safe st s = elim (Bool-cases (ltb (length st) 2)) [
    | inl short ↦ rw short tt
    | inr long ↦ rw long (
        Safe-bind X IsValue IsStack (index st 1) _ (index-Safe st 1 s (ground (arith, long)))
          λ v hv. push-Safe st v s hv)
  ]

  pub rot_op-Safe : (st : Stack) → IsStack st → Safe X IsStack (rot_op st)
  unfolding rot_op
  rot_op-Safe st s = elim (Bool-cases (ltb (length st) 3)) [
    | inl short ↦ rw short tt
    | inr long ↦ rw long (remove-push-Safe st 2 s (ground (arith, long)))
  ]

  pub dup2_op-Safe : (st : Stack) → IsStack st → Safe X IsStack (dup2_op st)
  unfolding dup2_op
  dup2_op-Safe st s = elim (Bool-cases (ltb (length st) 2)) [
    | inl short ↦ rw short tt
    | inr long ↦ rw long (
        Safe-bind X IsValue IsStack (index st 1) _ (index-Safe st 1 s (ground (arith, long)))
          λ a ha.
            Safe-bind X IsValue IsStack (index st 0) _ (index-Safe st 0 s (ground (arith, long)))
              λ b hb.
                Safe-bind X IsStack IsStack (push st a) _ (push-Safe st a s ha)
                  λ st' h. push-Safe st' b h hb)
  ]

  pub push_int_op-Safe :
      (d : List ℕ) (st : Stack)
      → length d ≡ 8
      → IsBytes d
      → IsStack st
      → Safe X IsStack (push_int_op d st)
  unfolding push_int_op
  push_int_op-Safe d st eight byte s =
      let low = from_le-lt (take 8 d) (All-take (λ b. b < 256) 8 d byte) in
      let len : length (take 8 d) ≡ 8 = omega (arith, length-take 8 d, eight) in
      rw eight (push-Safe st (int (from_le (take 8 d))) s (rw len at low))
