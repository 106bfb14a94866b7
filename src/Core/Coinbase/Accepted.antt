-- ===== src/Core/Coinbase/Accepted.antt =====
-- crates/qv-core/src/transaction.rs: which coinbase transactions have the right structure.
use l1_chain.Base.{
  if◌then◌else◌, ℕ, ◌+◌, ◌≤◌, ◌<◌, ◌≡◌, refl, List, [], ◌∷◌, map, Option, none, some, leb, ◌==◌,
  Bool-cases, inl, inr, arith, ◌↔◌, not, ◌∙◌, ap, le→leb, true, false,
}
use l1_chain.Base.Outcome.{◌>>=◌, ok, err, Outcome}
use l1_chain.Base.Word.{max_u64}
use l1_chain.Core.Tx.{Transaction, TxOutput}
use l1_chain.Core.Coinbase.{
  checked_add, checked_fold, checked_sum, is_empty, validate_coinbase_structure, output_overflow,
  TransactionError, coinbase_has_inputs, coinbase_height_mismatch, no_outputs,
}

-- The exact sum of the values
abbrev pub total : List ℕ → ℕ
total [] = 0
total (x ∷ xs) = x + total xs

checked_fold-some :
    (xs : List ℕ) (acc : ℕ) → acc + total xs ≤ max_u64 → checked_fold acc xs ≡ some (acc + total xs)
unfolding checked_fold checked_add
checked_fold-some [] acc h = ap some (omega arith)
checked_fold-some (x ∷ xs) acc h =
    rw (le→leb (acc + x) max_u64 (omega arith), checked_fold)
      (checked_fold-some xs (acc + x) (omega arith) ∙ ap some (omega arith))

checked_fold-none :
    (xs : List ℕ) (acc : ℕ) → acc ≤ max_u64 → max_u64 < acc + total xs → checked_fold acc xs ≡ none
unfolding checked_fold checked_add
checked_fold-none [] acc h big = absurd (omega arith)
checked_fold-none (x ∷ xs) acc h big = elim (Bool-cases (leb (acc + x) max_u64)) [
  | inl e ↦ rw (e, checked_fold) (checked_fold-none xs (acc + x) (ground (arith, e)) (omega arith))
  | inr e ↦ rw (e, checked_fold) refl
]

-- What a coinbase transaction at a height is
pub record IsCoinbase (tx : Transaction) (height : ℕ) : Type 0 where
  pub inputs : is_empty tx.inputs ≡ true
  pub outputs : is_empty tx.outputs ≡ false
  pub sum : total (map (λ (o : TxOutput). o.value) tx.outputs) ≤ max_u64
  pub time : tx.lock_time ≡ height

-- The tests that do not add
abbrev other_tests :
    Transaction → ℕ → Outcome {0, 0} TransactionError Unit → Outcome {0, 0} TransactionError Unit
other_tests tx height rest =
    if not (is_empty tx.inputs)
    then err coinbase_has_inputs
    else if is_empty tx.outputs
    then err no_outputs
    else rest

-- What follows the sum of the outputs
abbrev with_sum : Transaction → ℕ → Option ℕ → Outcome {0, 0} TransactionError Unit
with_sum tx height r = other_tests tx height (
    elim r as (λ x. Outcome TransactionError ℕ) [ none ↦ err output_overflow | some sum ↦ ok sum ]
    >>= λ sum.
        if tx.lock_time == height
        then ok tt
        else err (coinbase_height_mismatch height tx.lock_time))

structure-fits :
    (tx : Transaction) (height : ℕ)
    → total (map (λ (o : TxOutput). o.value) tx.outputs) ≤ max_u64
    → validate_coinbase_structure tx height
      ≡ other_tests tx height (
          if tx.lock_time == height
          then ok tt
          else err (coinbase_height_mismatch height tx.lock_time))
unfolding validate_coinbase_structure checked_sum
structure-fits tx height fits =
    ap (with_sum tx height)
      (checked_fold-some (map (λ (o : TxOutput). o.value) tx.outputs) 0 (omega (arith, fits)))

structure-overflow :
    (tx : Transaction) (height : ℕ)
    → max_u64 < total (map (λ (o : TxOutput). o.value) tx.outputs)
    → validate_coinbase_structure tx height ≡ other_tests tx height (err output_overflow)
unfolding validate_coinbase_structure checked_sum
structure-overflow tx height big = ap (with_sum tx height) (
    checked_fold-none (map (λ (o : TxOutput). o.value) tx.outputs) 0 (omega arith)
      (omega (arith, big)))

-- At every height `validate_coinbase_structure` accepts a transaction if and only if it has no
-- inputs and at least one output, the exact sum of its outputs' values has 64 bits, and its lock
-- time is the height.
pub validate_coinbase_structure-IsCoinbase :
    (tx : Transaction) (height : ℕ)
    → (validate_coinbase_structure tx height ≡ ok tt) ↔ IsCoinbase tx height
validate_coinbase_structure-IsCoinbase tx height =
    elim (Bool-cases (leb (total (map (λ (o : TxOutput). o.value) tx.outputs)) max_u64)) [
      | inl e ↦
          let fits = structure-fits tx height (ground (arith, e)) in
          (
            (λ h. record {
              inputs = ground (arith, fits, h);
              outputs = ground (arith, fits, h);
              sum = ground (arith, e);
              time = ground (arith, fits, h);
            }),
            λ k. rw fits (rw k.inputs (rw k.outputs (ground (arith, k.time)))),
          )
      | inr e ↦
          let big = structure-overflow tx height (ground (arith, e)) in
          ((λ h. ground (arith, big, h)), λ k. ground (arith, k.sum, e))
    ]
