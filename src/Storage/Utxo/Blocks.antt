-- ===== src/Storage/Utxo/Blocks.antt =====
-- crates/qv-storage/src/utxo_store.rs: `apply_block` and `revert_block`.
use l1_chain.Base.{ℕ, suc, List, [], ◌∷◌, ◌++◌, if◌then◌else◌, none, some}
use l1_chain.Base.Outcome.{Outcome, ok, err, panic, diverge, ◌>>=◌}
use l1_chain.Core.Block.{Block, BlockError, HeaderSerializer, block_hash, validate_block}
use l1_chain.Core.Tx.{OutPoint, TxOutput, Transaction, Serializer}
use l1_chain.Crypto.{Crypto}
use l1_chain.Storage.Utxo.{
  Result, StorageError, bad_block, undo_not_found, UndoLog, UtxoStore, PointMap, put_all,
  delete_all, write_undo, keys, has_point, Staging, apply_transactions, output_points, tx_id_of,
  is_coinbase,
}

-- `?` on a result of `qv-core`
unfoldable pub lift_block {ℓ} :
    {A : Type ℓ} → Outcome {0, ℓ} BlockError A → Outcome {0, ℓ} StorageError A
lift_block (ok a) = ok a
lift_block (err e) = err (bad_block e)
lift_block panic = panic
lift_block diverge = diverge

-- The creation heights on record of the outputs that a block spends
unfoldable pub heights_of : PointMap ℕ → List (OutPoint × TxOutput) → List (OutPoint × ℕ)
heights_of f [] = []
heights_of f ((o, out) ∷ spent) = elim (f o) [
  | none ↦ heights_of f spent
  | some h ↦ (o, h) ∷ heights_of f spent
]

-- The records for the coinbase outputs that survive the block
unfoldable pub live_heights : ℕ → List (OutPoint × TxOutput) → List OutPoint → List (OutPoint × ℕ)
unfolding has_point
live_heights height staged [] = []
live_heights height staged (o ∷ os) =
    let rest = live_heights height staged os in
    if has_point (keys staged) o then (o, height) ∷ rest else rest

-- The batch that `apply_block` writes
unfoldable pub commit_block : UtxoStore → ℕ → List ℕ → Staging → UtxoStore
unfolding put_all delete_all write_undo heights_of live_heights
commit_block s height hash st =
    let spent_heights = heights_of s.heights st.spent in
    record {
      entries = put_all st.staged_new (delete_all (keys st.spent) s.entries);
      heights =
          put_all (live_heights height st.staged_new st.coinbase_outpoints)
            (delete_all (keys spent_heights) s.heights);
      undo =
          write_undo s.undo hash
            (some (record { spent = st.spent; spent_coinbase_heights = spent_heights }));
    }

abbrev pub no_staging : Staging
no_staging = record { spent = []; consumed = []; staged_new = []; coinbase_outpoints = [] }

-- `apply_block`
unfoldable pub apply_block :
    Crypto → Serializer → HeaderSerializer → UtxoStore → Block → Result UtxoStore
unfolding lift_block commit_block apply_transactions
apply_block c serialize header_bytes s b = lift_block (validate_block c serialize b) >>= λ checked.
    apply_transactions c serialize s b.header.height 0 b.transactions no_staging >>= λ st.
    lift_block (block_hash c header_bytes b) >>= λ hash. ok (commit_block s b.header.height hash st)

-- The loop of `revert_block`: the outpoints of all outputs, and those with a coinbase height
unfoldable pub revert_points :
    Crypto → Serializer → ℕ → ℕ → List Transaction → Result (List OutPoint × List OutPoint)
unfolding tx_id_of output_points is_coinbase
revert_points c serialize height index [] = ok ([], [])
revert_points c serialize height index (tx ∷ txs) = tx_id_of c serialize tx >>= λ i.
    output_points i 0 tx.outputs >>= λ os.
    revert_points c serialize height (suc index) txs >>= λ (outs, coinbase).
    ok (os ++ outs, (if is_coinbase height index tx then os else []) ++ coinbase)

-- The batch that `revert_block` writes
unfoldable pub undo_block : UtxoStore → List ℕ → UndoLog → List OutPoint → List OutPoint → UtxoStore
unfolding put_all delete_all write_undo
undo_block s hash u outs coinbase = record {
  entries = put_all u.spent (delete_all outs s.entries);
  heights = put_all u.spent_coinbase_heights (delete_all coinbase s.heights);
  undo = write_undo s.undo hash none;
}

-- `revert_block`
unfoldable pub revert_block :
    Crypto → Serializer → HeaderSerializer → UtxoStore → Block → Result UtxoStore
unfolding lift_block revert_points undo_block
revert_block c serialize header_bytes s b = lift_block (block_hash c header_bytes b) >>= λ hash.
    elim (s.undo hash) [
      | none ↦ err undo_not_found
      | some u ↦ revert_points c serialize b.header.height 0 b.transactions >>= λ (outs, coinbase).
          ok (undo_block s hash u outs coinbase)
    ]
