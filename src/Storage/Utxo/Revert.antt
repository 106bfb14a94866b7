-- ===== src/Storage/Utxo/Revert.antt =====
-- crates/qv-storage/src/utxo_store.rs: `revert_block` undoes `apply_block`.
use mathlib.Core.List.{append-nil, append_assoc}
use l1_chain.Base.{
  ℕ, suc, ◌≡◌, List, [], ◌∷◌, ◌++◌, Bool, true, false, Bool-cases, inl, inr, none, refl, ap, ◌∙◌,
  sym, subst, All, All-append, All-append_split, if◌then◌else◌, the,
}
use l1_chain.Base.Outcome.{ok, ◌>>=◌, >>=-eq-ok, ok_inj}
use l1_chain.Core.Tx.{OutPoint, Transaction, Serializer}
use l1_chain.Crypto.{Crypto}
use l1_chain.Storage.Utxo.{
  Result, UtxoStore, Staging, consume_inputs, produce_outputs, output_points, tx_id_of, is_coinbase,
  apply_transaction, apply_transactions,
}
use l1_chain.Storage.Utxo.Blocks.{revert_points}
use l1_chain.Storage.Utxo.Staged.{IsStaged, consume_inputs-Keeps, produce_outputs-Keeps}

abbrev pub New : UtxoStore → List OutPoint → Type 0
New s os = All (λ o. s.entries o ≡ none) os

-- One transaction: its outputs join those made so far, and those of a coinbase the coinbase list.
record Applied (c : Crypto) (serialize : Serializer) (s : UtxoStore) (height : ℕ) (index : ℕ)
    (tx : Transaction) (outs : List OutPoint) (st : Staging) (st' : Staging) : Type 0 where
  i : List ℕ
  os : List OutPoint
  has_tx_id : tx_id_of c serialize tx ≡ ok i
  points : output_points i 0 tx.outputs ≡ ok os
  staged : IsStaged s (outs ++ os) st'
  coinbase :
      st'.coinbase_outpoints
      ≡ st.coinbase_outpoints ++ (if is_coinbase height index tx then os else [])

New-if : (s : UtxoStore) (b : Bool) (os : List OutPoint) → New s os → New s (if b then os else [])
New-if s true os h = h
New-if s false os h = tt

module _ (c : Crypto) (serialize : Serializer) (s : UtxoStore) (height : ℕ) where
  listed_coinbase :
      (index : ℕ) (tx : Transaction) (i : List ℕ) (os outs : List OutPoint) (st st2 st' : Staging)
      → tx_id_of c serialize tx ≡ ok i
      → output_points i 0 tx.outputs ≡ ok os
      → IsStaged s (outs ++ os) st2
      → st2.coinbase_outpoints ≡ st.coinbase_outpoints
      → the (Result Staging) (
          if is_coinbase height index tx
          then (output_points i 0 tx.outputs >>= λ l.
              ok (record st2 { coinbase_outpoints = st2.coinbase_outpoints ++ l }))
          else ok st2)
        ≡ ok st'
      → Applied c serialize s height index tx outs st st'
  listed_coinbase index tx i os outs st st2 st' tx_id points h2 kept_list last =
      elim (Bool-cases (is_coinbase height index tx)) [
        | inl is_cb ↦
            let full = record st2 { coinbase_outpoints = st2.coinbase_outpoints ++ os } in
            let same : full ≡ st' = ok_inj (rw points at (rw is_cb at last)) in
            record {
              i = i;
              os = os;
              has_tx_id = tx_id;
              points = points;
              staged = subst (IsStaged s (outs ++ os)) same (record {
                spent_held = h2.spent_held;
                outs_new = h2.outs_new;
                staged_in = h2.staged_in;
              });
              coinbase =
                  sym (ap (λ (x : Staging). x.coinbase_outpoints) same)
                  ∙ ap (λ l. l ++ os) kept_list
                  ∙ ap (λ (b : Bool). st.coinbase_outpoints ++ (if b then os else [])) (sym is_cb);
            }
        | inr not_cb ↦
            let same : st2 ≡ st' = ok_inj (rw not_cb at last) in
            record {
              i = i;
              os = os;
              has_tx_id = tx_id;
              points = points;
              staged = subst (IsStaged s (outs ++ os)) same h2;
              coinbase =
                  sym (ap (λ (x : Staging). x.coinbase_outpoints) same)
                  ∙ kept_list
                  ∙ sym (append-nil st.coinbase_outpoints)
                  ∙ ap (λ (b : Bool). st.coinbase_outpoints ++ (if b then os else [])) (sym not_cb);
            }
      ]

  apply_transaction-Applied :
      (index : ℕ) (tx : Transaction) (outs : List OutPoint) (st st' : Staging)
      → IsStaged s outs st
      → apply_transaction c serialize s height index tx st ≡ ok st'
      → Applied c serialize s height index tx outs st st'
  unfolding apply_transaction
  apply_transaction-Applied index tx outs st st' h made =
      let (st1, consumed, later) = >>=-eq-ok (consume_inputs s tx.inputs st) _ made in
      let (h1, same1) = consume_inputs-Keeps s outs tx.inputs st st1 h consumed in
      let (i, tx_id, rest) = >>=-eq-ok (tx_id_of c serialize tx) _ later in
      let (st2, produced, last) = >>=-eq-ok (produce_outputs s i 0 tx.outputs st1) _ rest in
      let (os, points, (h2, same2)) =
        produce_outputs-Keeps s i 0 tx.outputs outs st1 st2 h1 produced in
      listed_coinbase index tx i os outs st st2 st' tx_id points h2 (same2 ∙ same1) last

  -- The loop of `apply_block`, against that of `revert_block`
  pub apply_transactions-listed :
      (index : ℕ) (txs : List Transaction) (outs : List OutPoint) (st st' : Staging)
      → IsStaged s outs st
      → apply_transactions c serialize s height index txs st ≡ ok st'
      → (made_outs : List OutPoint) × (coinbase : List OutPoint) × (revert_points c serialize height
            index txs
          ≡ ok (made_outs, coinbase))
        × IsStaged s (outs ++ made_outs) st'
        × (st'.coinbase_outpoints ≡ st.coinbase_outpoints ++ coinbase)
        × New s coinbase
  unfolding apply_transactions revert_points
  apply_transactions-listed index [] outs st st' h made =
      let same : st ≡ st' = ok_inj made in
      (
        [],
        [],
        refl,
        subst (IsStaged s (outs ++ [])) same
            (subst (λ l. IsStaged s l st) (sym (append-nil outs)) h),
        ap (λ (x : Staging). x.coinbase_outpoints) (sym same)
            ∙ sym (append-nil st.coinbase_outpoints),
        tt,
      )
  apply_transactions-listed index (tx ∷ txs) outs st st' h made =
      let (mid, first, rest) =
        >>=-eq-ok (apply_transaction c serialize s height index tx st)
          (λ x. apply_transactions c serialize s height (suc index) txs x) made in
      let one = apply_transaction-Applied index tx outs st mid h first in
      let (more, coinbase, listed, h', cbs, new) =
        apply_transactions-listed (suc index) txs (outs ++ one.os) mid st' one.staged rest in
      let here_cb = if is_coinbase height index tx then one.os else [] in
      let new_here : New s one.os = (All-append_split _ outs one.os one.staged.outs_new).1 in
      (
        one.os ++ more,
        here_cb ++ coinbase,
        rw (one.has_tx_id) (rw (one.points) (rw listed refl)),
        subst (λ l. IsStaged s l st') (append_assoc outs one.os more) h',
        cbs
            ∙ ap (λ l. l ++ coinbase) one.coinbase
            ∙ append_assoc st.coinbase_outpoints here_cb coinbase,
        All-append _ here_cb coinbase (New-if s (is_coinbase height index tx) one.os new_here) new,
      )
