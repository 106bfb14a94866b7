-- ===== src/Core/Coinbase.antt =====
-- crates/qv-core/src/transaction.rs, `validate_coinbase_structure`, and the checked sums of
-- crates/qv-core/src/types.rs.
pub mod Accepted
use l1_chain.Base.{
  ℕ, ◌+◌, List, [], ◌∷◌, Option, none, some, String, map, leb, ◌==◌, if◌then◌else◌, Bool, not, true,
  false,
}
use l1_chain.Base.Outcome.{Outcome, ok, err, ◌>>=◌}
use l1_chain.Base.Word.{max_u64}
use l1_chain.Core.Tx.{Transaction, TxOutput, TxInput}

-- `TransactionError`
pub data TransactionError : Type 0 where
  no_inputs no_outputs duplicate_input output_overflow coinbase_has_inputs : TransactionError
  coinbase_height_mismatch : ℕ → ℕ → TransactionError
  encode decode : String → TransactionError

-- `Amount::checked_add`
unfoldable pub checked_add : ℕ → ℕ → Option ℕ
checked_add a b = if leb (a + b) max_u64 then some (a + b) else none

-- The fold of `Amount::checked_sum`
unfoldable pub checked_fold : ℕ → List ℕ → Option ℕ
unfolding checked_add
checked_fold acc [] = some acc
checked_fold acc (x ∷ xs) = elim (checked_add acc x) [
  | none ↦ none
  | some sum ↦ checked_fold sum xs
]

-- `Amount::checked_sum`
unfoldable pub checked_sum : List ℕ → Option ℕ
checked_sum xs = checked_fold 0 xs

-- `is_empty`
abbrev pub is_empty {ℓ} : {A : Type ℓ} → List A → Bool
is_empty [] = true
is_empty (x ∷ xs) = false

-- `.ok_or(TransactionError::OutputOverflow)?`
abbrev pub sum_outputs : List TxOutput → Outcome TransactionError ℕ
sum_outputs outputs = elim (checked_sum (map (λ o. o.value) outputs)) [
  | none ↦ err output_overflow
  | some sum ↦ ok sum
]

-- `Transaction::validate_coinbase_structure`
unfoldable pub validate_coinbase_structure : Transaction → ℕ → Outcome {0, 0} TransactionError Unit
unfolding checked_sum
validate_coinbase_structure tx height =
    if not (is_empty tx.inputs)
    then err coinbase_has_inputs
    else if is_empty tx.outputs
    then err no_outputs
    else (sum_outputs tx.outputs >>= λ sum.
        if tx.lock_time == height
        then ok tt
        else err (coinbase_height_mismatch height tx.lock_time))
