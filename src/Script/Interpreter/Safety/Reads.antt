-- ===== src/Script/Interpreter/Safety/Reads.antt =====
-- The introspection, covenant, hash and signature opcodes keep the stack valid. They do not panic,
-- but for the multi-signature, whose capacity may be too large.
use l1_chain.Base.{
  ℕ, zero, suc, ◌*◌, ◌-◌, ◌^◌, ◌≤◌, ◌<◌, Bool, true, false, String, List, [], ◌∷◌, none, some,
  length, All, get_elem?, leb, ltb, Bool-cases, inl, inr, arith, min,
}
use l1_chain.Base.Bytes.{IsBytes}
use l1_chain.Base.Word.{saturating_mul, max_u64}
use l1_chain.Base.Outcome.{ok, panic}
use l1_chain.Crypto.{Crypto}
use l1_chain.Core.Tx.{TxOutput}
use l1_chain.Script.Gas.{GasMeter, consume}
use l1_chain.Script.Interpreter.Value.{Value, bytes, Script, from_bool}
use l1_chain.Script.Interpreter.Stack.{Stack, pop_int, pop_bytes}
use l1_chain.Script.Interpreter.Introspect.{
  output_at, read_op, require, assert_hash_op, assert_value_op,
}
use l1_chain.Script.Interpreter.Signatures.{
  check_sig_op, hash_op, checksig_pqc, pop_many, with_capacity, multi_sig_body, check_multi_sig_op,
  checkmultisig_pqc,
}
use l1_chain.Script.Interpreter.Safety.{IsValue, IsStack, IsOutput, Safe, Safe-bind}
use l1_chain.Script.Interpreter.Safety.Moves.{
  IsInt, IsPoppedBytes, push-Safe, pop_int-Safe, pop_bytes-Safe, from_bool-IsValue,
}

module _ (X : Type 0) where
  outputs_in_range :
      (outputs : List TxOutput) (i : ℕ)
      → All IsOutput outputs
      → i < length outputs
      → Safe X IsOutput (elim (get_elem? outputs i) [ none ↦ panic | some o ↦ ok o ])
  outputs_in_range [] i h lt = absurd (omega arith)
  outputs_in_range (o ∷ os) zero h lt = h.0
  outputs_in_range (o ∷ os) (suc i) h lt = outputs_in_range os i h.1 (omega arith)

  output_at-Safe :
      (outputs : List TxOutput) (i : ℕ)
      → All IsOutput outputs
      → Safe X IsOutput (output_at outputs i)
  unfolding output_at
  output_at-Safe outputs i h = elim (Bool-cases (leb (length outputs) i)) [
    | inl out ↦ rw out tt
    | inr inside ↦ rw inside (outputs_in_range outputs i h (ground (arith, inside)))
  ]

  pub read_op-Safe :
      (f : TxOutput → Value) (outputs : List TxOutput) (st : Stack)
      → ((o : TxOutput) → IsOutput o → IsValue (f o))
      → All IsOutput outputs
      → IsStack st
      → Safe X IsStack (read_op f outputs st)
  unfolding read_op
  read_op-Safe f outputs st val h s =
      Safe-bind X IsInt IsStack (pop_int st) _ (pop_int-Safe X st s) λ i hi.
        Safe-bind X IsOutput IsStack (output_at outputs i.0) _ (output_at-Safe outputs i.0 h)
          λ o ho. push-Safe X i.1 (f o) hi.1 (val o ho)

  require-Safe :
      (holds : Bool) (what : String) (st : Stack)
      → IsStack st
      → Safe X IsStack (require holds what st)
  require-Safe true what st s = s
  require-Safe false what st s = tt

  pub assert_hash_op-Safe :
      (test : List ℕ → TxOutput → Bool) (what : String) (outputs : List TxOutput) (st : Stack)
      → All IsOutput outputs
      → IsStack st
      → Safe X IsStack (assert_hash_op test what outputs st)
  unfolding assert_hash_op
  assert_hash_op-Safe test what outputs st h s =
      Safe-bind X IsPoppedBytes IsStack (pop_bytes st) _ (pop_bytes-Safe X st s) λ b hb.
        Safe-bind X IsInt IsStack (pop_int b.1) _ (pop_int-Safe X b.1 hb.1) λ i hi.
          Safe-bind X IsOutput IsStack (output_at outputs i.0) _ (output_at-Safe outputs i.0 h)
            λ o ho. require-Safe (test b.0 o) what i.1 hi.1

  pub assert_value_op-Safe :
      (outputs : List TxOutput) (st : Stack)
      → All IsOutput outputs
      → IsStack st
      → Safe X IsStack (assert_value_op outputs st)
  unfolding assert_value_op
  assert_value_op-Safe outputs st h s =
      Safe-bind X IsInt IsStack (pop_int st) _ (pop_int-Safe X st s) λ b hb.
        Safe-bind X IsInt IsStack (pop_int b.1) _ (pop_int-Safe X b.1 hb.1) λ i hi.
          Safe-bind X IsOutput IsStack (output_at outputs i.0) _ (output_at-Safe outputs i.0 h)
            λ o ho. require-Safe _ "output value mismatch" i.1 hi.1

  pub hash_op-Safe :
      (f : List ℕ → List ℕ) (st : Stack)
      → ((d : List ℕ) → IsBytes (f d))
      → IsStack st
      → Safe X IsStack (hash_op f st)
  unfolding hash_op
  hash_op-Safe f st digest s =
      Safe-bind X IsPoppedBytes IsStack (pop_bytes st) _ (pop_bytes-Safe X st s)
        λ d hd. push-Safe X d.1 (bytes (f d.0)) hd.1 (digest d.0)

  pub check_sig_op-Safe :
      (c : Crypto) (st : Stack) → IsStack st → Safe X IsStack (check_sig_op c st)
  unfolding check_sig_op
  check_sig_op-Safe c st s =
      Safe-bind X IsPoppedBytes IsStack (pop_bytes st) _ (pop_bytes-Safe X st s) λ pk hpk.
        Safe-bind X IsPoppedBytes IsStack (pop_bytes pk.1) _ (pop_bytes-Safe X pk.1 hpk.1)
          λ sig hsig.
            Safe-bind X IsPoppedBytes IsStack (pop_bytes sig.1) _ (pop_bytes-Safe X sig.1 hsig.1)
              λ msg hmsg.
                push-Safe X msg.1 (from_bool (checksig_pqc c pk.0 sig.0 msg.0)) hmsg.1
                  (from_bool-IsValue X (checksig_pqc c pk.0 sig.0 msg.0))

  pop_many-Safe : (n : ℕ) (st : Stack) → IsStack st → Safe X (λ p. IsStack p.1) (pop_many n st)
  unfolding pop_many
  pop_many-Safe zero st s = s
  pop_many-Safe (suc n) st s =
      Safe-bind X IsPoppedBytes _ (pop_bytes st) _ (pop_bytes-Safe X st s) λ b hb.
        Safe-bind X (λ p. IsStack p.1) _ (pop_many n b.1) _ (pop_many-Safe n b.1 hb.1) λ bs h. h

  with_capacity-Safe :
      (n : ℕ) (m : Script Stack)
      → (2 ^ 63 - 1 < n * 24 → X)
      → Safe X IsStack m
      → Safe X IsStack (with_capacity n m)
  with_capacity-Safe n m large h = elim (Bool-cases (ltb (2 ^ 63 - 1) (n * 24))) [
    | inl over ↦ rw over (large (ground (arith, over)))
    | inr fits ↦ rw fits h
  ]

  multi_sig_body-Safe :
      (c : Crypto) (n : ℕ) (st : Stack)
      → n * 24 ≤ 2 ^ 63 - 1
      → X
      → IsStack st
      → Safe X IsStack (multi_sig_body c n st)
  unfolding multi_sig_body
  multi_sig_body-Safe c n st few x s =
      with_capacity-Safe n _ (λ over. absurd (omega arith))
        (Safe-bind X (λ p. IsStack p.1) IsStack (pop_many n st) _ (pop_many-Safe n st s)
          λ pks hp. Safe-bind X IsInt IsStack (pop_int pks.1) _ (pop_int-Safe X pks.1 hp) λ m hm.
            with_capacity-Safe m.0 _ (λ over. x)
              (Safe-bind X (λ p. IsStack p.1) IsStack (pop_many m.0 m.1) _
                (pop_many-Safe m.0 m.1 hm.1)
                λ sigs hs.
                  Safe-bind X IsPoppedBytes IsStack (pop_bytes sigs.1) _
                    (pop_bytes-Safe X sigs.1 hs)
                    λ msg hmsg.
                      push-Safe X msg.1 (from_bool (checkmultisig_pqc c pks.0 sigs.0 msg.0 m.0))
                        hmsg.1 (from_bool-IsValue X (checkmultisig_pqc c pks.0 sigs.0 msg.0 m.0))))

  -- The charge for the keys keeps their number small.
  pub check_multi_sig_op-Safe :
      (c : Crypto) (st : Stack) (gas : GasMeter)
      → X
      → gas.remaining < max_u64
      → IsStack st
      → Safe X (λ p. IsStack p.0 × (p.1.remaining ≤ gas.remaining)) (check_multi_sig_op c st gas)
  unfolding check_multi_sig_op consume saturating_mul
  check_multi_sig_op-Safe c st gas x budget s =
      Safe-bind X IsInt _ (pop_int st) _ (pop_int-Safe X st s) λ n hn.
        elim (Bool-cases (leb (min (500 * n.0) max_u64) gas.remaining)) [
          | inl paid ↦ rw paid (
              Safe-bind X IsStack _ (multi_sig_body c n.0 n.1) _
                (multi_sig_body-Safe c n.0 n.1 (ground (arith, paid)) x hn.1)
                λ st' h. (h, omega arith))
          | inr short ↦ rw short tt
        ]
