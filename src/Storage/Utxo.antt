-- ===== src/Storage/Utxo.antt =====
-- crates/qv-storage/src/utxo_store.rs: the store of unspent outputs, block by block. The records of
-- the key-value store stand under prefixes that tell outputs, coinbase heights and undo logs apart,
-- so the store is three maps; a map is a function from keys. What `encode` wrote `decode` reads back,
-- and the backend does not fail. A `BTreeSet` and a staged `BTreeMap` are lists.
pub mod Blocks
pub mod Maps
pub mod Staged
pub mod Revert
pub mod Restored
pub mod Live
use l1_chain.Base.{
  ℕ, zero, suc, ◌+◌, ◌^◌, List, [], ◌∷◌, ◌++◌, Bool, true, false, ◌||◌, ◌&&◌, not, ltb, ◌==◌,
  if◌then◌else◌, Option, none, some, map,
}
use l1_chain.Base.Bytes.{bytes_eq}
use l1_chain.Base.Outcome.{Outcome, ok, err, panic, diverge, ◌>>=◌}
use l1_chain.Core.Block.{
  Block, BlockError, HeaderSerializer, block_hash, outpoint_eq, validate_block,
}
use l1_chain.Core.Coinbase.{is_empty}
use l1_chain.Core.Tx.{OutPoint, TxInput, TxOutput, Transaction, Serializer, id}
use l1_chain.Crypto.{Crypto}

-- `StorageError`: an encoding that failed, `NotFound` and `AlreadyExists` as the places raise them
pub data StorageError : Type 0 where
  bad_block : BlockError → StorageError
  bad_id : StorageError
  double_spend : StorageError
  input_not_found : StorageError
  outpoint_collision : StorageError
  outpoint_exists : StorageError
  index_overflow : StorageError
  undo_not_found : StorageError

abbrev pub Result : Type 0 → Type 0
Result A = Outcome {0, 0} StorageError A

pub record UndoLog : Type 0 where
  pub spent : List (OutPoint × TxOutput)
  pub spent_coinbase_heights : List (OutPoint × ℕ)

abbrev pub PointMap : Type 0 → Type 0
PointMap V = OutPoint → Option V

pub record UtxoStore : Type 0 where
  pub entries : PointMap TxOutput
  pub heights : PointMap ℕ
  pub undo : List ℕ → Option UndoLog

-- `put` and `delete` of one key
unfoldable pub write : {V : Type 0} → PointMap V → OutPoint → Option V → PointMap V
write f k v o = if outpoint_eq k o then v else f o

-- The writes of a batch, in order
unfoldable pub put_all : {V : Type 0} → List (OutPoint × V) → PointMap V → PointMap V
unfolding write
put_all [] f = f
put_all ((k, v) ∷ kvs) f = put_all kvs (write f k (some v))

unfoldable pub delete_all : {V : Type 0} → List OutPoint → PointMap V → PointMap V
unfolding write
delete_all [] f = f
delete_all (k ∷ ks) f = delete_all ks (write f k none)

unfoldable pub write_undo :
    (List ℕ → Option UndoLog) → List ℕ → Option UndoLog → List ℕ → Option UndoLog
write_undo f k v h = if bytes_eq k h then v else f h

-- `UtxoStore::insert`
unfoldable pub insert_utxo : UtxoStore → OutPoint → TxOutput → Result UtxoStore
unfolding write
insert_utxo s o out = elim (s.entries o) [
  | none ↦ ok (record s { entries = write s.entries o (some out) })
  | some old ↦ err outpoint_exists
]

-- `UtxoStore::remove`
unfoldable pub remove_utxo : UtxoStore → OutPoint → UtxoStore × Option TxOutput
unfolding write
remove_utxo s o = elim (s.entries o) [
  | none ↦ (s, none)
  | some out ↦ (record s { entries = write s.entries o none }, some out)
]

-- `contains` of a set of outpoints
unfoldable pub has_point : List OutPoint → OutPoint → Bool
has_point [] o = false
has_point (p ∷ ps) o = outpoint_eq p o || has_point ps o

abbrev pub keys : {V : Type 0} → List (OutPoint × V) → List OutPoint
keys kvs = map (λ kv. kv.0) kvs

-- `staged_new.remove(&outpoint)`
unfoldable pub unstage : List (OutPoint × TxOutput) → OutPoint → List (OutPoint × TxOutput)
unstage [] o = []
unstage ((k, v) ∷ kvs) o =
    let rest = unstage kvs o in if outpoint_eq k o then rest else (k, v) ∷ rest

-- The variables of `apply_block` that its loop changes
pub record Staging : Type 0 where
  pub spent : List (OutPoint × TxOutput)
  pub consumed : List OutPoint
  pub staged_new : List (OutPoint × TxOutput)
  pub coinbase_outpoints : List OutPoint

-- One round of `consume_inputs`
unfoldable pub consume_input : UtxoStore → Staging → OutPoint → Result Staging
unfolding has_point unstage
consume_input s st o =
    if has_point st.consumed o
    then err double_spend
    else if has_point (keys st.staged_new) o
    then ok (record st { consumed = o ∷ st.consumed; staged_new = unstage st.staged_new o })
    else elim (s.entries o) [
      | none ↦ err input_not_found
      | some out ↦ ok (record st { consumed = o ∷ st.consumed; spent = st.spent ++ (o, out) ∷ [] })
    ]

-- `consume_inputs`
unfoldable pub consume_inputs : UtxoStore → List TxInput → Staging → Result Staging
unfolding consume_input
consume_inputs s [] st = ok st
consume_inputs s (i ∷ is) st = consume_input s st i.prev_output >>= λ st'. consume_inputs s is st'

-- `OutPoint::new(tx_id, u32::try_from(idx)?)`
unfoldable pub output_point : List ℕ → ℕ → Result OutPoint
output_point i idx =
    if ltb idx (2 ^ 32) then ok (record { tx_id = i; index = idx }) else err index_overflow

-- One round of `produce_outputs`
unfoldable pub produce_output : UtxoStore → Staging → OutPoint → TxOutput → Result Staging
unfolding has_point
produce_output s st o out =
    if has_point st.consumed o || has_point (keys st.staged_new) o
    then err outpoint_collision
    else elim (s.entries o) [
      | some old ↦ err outpoint_collision
      | none ↦ ok (record st { staged_new = (o, out) ∷ st.staged_new })
    ]

-- The loop of `produce_outputs`
unfoldable pub produce_outputs : UtxoStore → List ℕ → ℕ → List TxOutput → Staging → Result Staging
unfolding output_point produce_output
produce_outputs s i idx [] st = ok st
produce_outputs s i idx (out ∷ outs) st = output_point i idx >>= λ o.
    produce_output s st o out >>= λ st'. produce_outputs s i (suc idx) outs st'

-- The outpoints of the outputs of a transaction, as both `apply_block` and `revert_block` list them
unfoldable pub output_points : List ℕ → ℕ → List TxOutput → Result (List OutPoint)
unfolding output_point
output_points i idx [] = ok []
output_points i idx (out ∷ outs) =
    output_point i idx >>= λ o. output_points i (suc idx) outs >>= λ os. ok (o ∷ os)

-- `tx.id()?`
unfoldable pub tx_id_of : Crypto → Serializer → Transaction → Result (List ℕ)
unfolding id
tx_id_of c serialize tx = elim (id c serialize tx) [ none ↦ err bad_id | some i ↦ ok i ]

-- Whether a transaction is a coinbase whose outputs get heights
unfoldable pub is_coinbase : ℕ → ℕ → Transaction → Bool
is_coinbase height index tx = (index == 0) && (ltb 0 height && is_empty tx.inputs)

-- One round of the loop of `apply_block`
unfoldable pub apply_transaction :
    Crypto → Serializer → UtxoStore → ℕ → ℕ → Transaction → Staging → Result Staging
unfolding consume_inputs produce_outputs output_points tx_id_of is_coinbase
apply_transaction c serialize s height index tx st = consume_inputs s tx.inputs st >>= λ st1.
    tx_id_of c serialize tx >>= λ i. produce_outputs s i 0 tx.outputs st1 >>= λ st2.
    if is_coinbase height index tx
    then (output_points i 0 tx.outputs >>= λ os.
        ok (record st2 { coinbase_outpoints = st2.coinbase_outpoints ++ os }))
    else ok st2

-- The loop of `apply_block`
unfoldable pub apply_transactions :
    Crypto → Serializer → UtxoStore → ℕ → ℕ → List Transaction → Staging → Result Staging
unfolding apply_transaction
apply_transactions c serialize s height index [] st = ok st
apply_transactions c serialize s height index (tx ∷ txs) st =
    apply_transaction c serialize s height index tx st >>= λ st'.
    apply_transactions c serialize s height (suc index) txs st'
