-- ===== src/Tests/Store.antt =====
-- A run of the store of unspent outputs: a block that spends a coinbase output, and its undoing.
use l1_chain.Core.Coinbase.{checked_fold}
use l1_chain.Base.{[], ◌∷◌, ◌≡◌, refl, inl, inr, some, none, replicate, if◌then◌else◌, Bool-cases}
use l1_chain.Base.Outcome.{ok, err}
use l1_chain.Core.Block.{
  Block, BlockHeader, HeaderSerializer, outpoint_eq, validate_block, block_hash,
}
use l1_chain.Core.Tx.{OutPoint}
use l1_chain.Storage.Utxo.{UtxoStore, Staging, input_not_found}
use l1_chain.Storage.Utxo.Blocks.{apply_block, revert_block, commit_block}
use l1_chain.Storage.Utxo.Restored.{HeightsLive, apply_block-revert_block}
use l1_chain.Storage.Utxo.Live.{apply_block-HeightsLive}
use l1_chain.Tests.Toy.{toy_crypto, toy_serializer, toy_tx, toy_output}

abbrev spent_point : OutPoint
spent_point = record { tx_id = replicate 32 1; index = 0 }

abbrev store : UtxoStore
store = record {
  entries = λ o. if outpoint_eq spent_point o then some toy_output else none;
  heights = λ o. if outpoint_eq spent_point o then some 2 else none;
  undo = λ h. none;
}

abbrev no_store : UtxoStore
no_store = record { entries = λ o. none; heights = λ o. none; undo = λ h. none }

abbrev toy_header : BlockHeader
toy_header = record {
  version = 1;
  prev_hash = [];
  height = 5;
  slot = 8;
  timestamp = 0;
  merkle_root = replicate 32 7;
  utxo_commitment = [];
  vrf_proof = [];
  kes_sig = [];
  producer_key_hash = [];
}

abbrev toy_block : Block
toy_block = record { header = toy_header; transactions = toy_tx ∷ [] }

abbrev header_bytes : HeaderSerializer
header_bytes h = some (5 ∷ [])

store-HeightsLive : HeightsLive store
store-HeightsLive o h = elim (Bool-cases (outpoint_eq spent_point o)) [
  | inl hit ↦ let found : some toy_output ≡ none = rw hit at h in cc
  | inr miss ↦ rw miss refl
]

missing :
    apply_block toy_crypto toy_serializer header_bytes no_store toy_block ≡ err input_not_found
unfolding apply_block validate_block checked_fold
missing = refl

abbrev made_point : OutPoint
made_point = record { tx_id = replicate 32 7; index = 0 }

abbrev toy_staging : Staging
toy_staging = record {
  spent = (spent_point, toy_output) ∷ [];
  consumed = spent_point ∷ [];
  staged_new = (made_point, toy_output) ∷ [];
  coinbase_outpoints = [];
}

applied :
    apply_block toy_crypto toy_serializer header_bytes store toy_block
    ≡ ok (commit_block store 5 (replicate 32 7) toy_staging)
unfolding apply_block validate_block checked_fold block_hash
applied = refl

apply_block-revert_block_example :
    (s'' : UtxoStore) × (revert_block toy_crypto toy_serializer header_bytes
        (commit_block store 5 (replicate 32 7) toy_staging)
        toy_block
      ≡ ok s'')
    × ((o : OutPoint) → s''.entries o ≡ store.entries o)
    × ((o : OutPoint) → s''.heights o ≡ store.heights o)
apply_block-revert_block_example =
    apply_block-revert_block toy_crypto toy_serializer header_bytes store
      (commit_block store 5 (replicate 32 7) toy_staging) toy_block store-HeightsLive applied

apply_block-HeightsLive_example : HeightsLive (commit_block store 5 (replicate 32 7) toy_staging)
apply_block-HeightsLive_example =
    apply_block-HeightsLive toy_crypto toy_serializer header_bytes store
      (commit_block store 5 (replicate 32 7) toy_staging) toy_block store-HeightsLive applied
