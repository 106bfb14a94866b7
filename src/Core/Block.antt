-- ===== src/Core/Block.antt =====
-- crates/qv-core/src/block.rs: blocks, their structural checks and the Merkle root; and
-- `Transaction::validate_structure` of crates/qv-core/src/transaction.rs. A sorted list has two equal
-- neighbours exactly if the list has two equal members, so the checks for duplicates look for
-- those. The source of a `TransactionError` is kept without the index of its transaction.
use l1_chain.Base.{
  ℕ, zero, suc, List, [], ◌∷◌, ◌++◌, Bool, false, ◌||◌, ◌&&◌, ◌==◌, if◌then◌else◌, Option, none,
  some, length, replicate,
}
use l1_chain.Base.Bytes.{bytes_eq}
use l1_chain.Base.Outcome.{Outcome, ok, err, diverge, ◌>>=◌}
use l1_chain.Core.Coinbase.{
  TransactionError, is_empty, sum_outputs, validate_coinbase_structure, no_inputs, no_outputs,
  duplicate_input,
}
use l1_chain.Core.Tx.{OutPoint, TxInput, Transaction, Serializer, id}
use l1_chain.Crypto.{Crypto, sha3_256}

-- `invalid_id` is `InvalidTransaction` where the encoding of the transaction failed.
pub data BlockError : Type 0 where
  encode_failed : BlockError
  invalid_transaction : TransactionError → BlockError
  invalid_id : BlockError
  duplicate_tx : BlockError
  merkle_root_mismatch : BlockError

pub record BlockHeader : Type 0 where
  pub version : ℕ
  pub prev_hash : List ℕ
  pub height : ℕ
  pub slot : ℕ
  pub timestamp : ℕ
  pub merkle_root : List ℕ
  pub utxo_commitment : List ℕ
  pub vrf_proof : List ℕ
  pub kes_sig : List ℕ
  pub producer_key_hash : List ℕ

pub record Block : Type 0 where
  pub header : BlockHeader
  pub transactions : List Transaction

-- `bincode::serialize` of a header, of another crate; `none` is its error.
abbrev pub HeaderSerializer : Type 0
HeaderSerializer = BlockHeader → Option (List ℕ)

-- `Block::hash`, by `BlockHeader::hash`
unfoldable pub block_hash : Crypto → HeaderSerializer → Block → Outcome {0, 0} BlockError (List ℕ)
block_hash c serialize b = elim (serialize b.header) [
  | none ↦ err encode_failed
  | some bytes ↦ ok (sha3_256 c bytes)
]

-- `==` on `OutPoint`
abbrev pub outpoint_eq : OutPoint → OutPoint → Bool
outpoint_eq a b = bytes_eq a.tx_id b.tx_id && (a.index == b.index)

-- Whether two inputs spend one output
unfoldable pub spends : List TxInput → OutPoint → Bool
spends [] o = false
spends (i ∷ is) o = outpoint_eq i.prev_output o || spends is o

unfoldable pub has_duplicate_input : List TxInput → Bool
unfolding spends
has_duplicate_input [] = false
has_duplicate_input (i ∷ is) = spends is i.prev_output || has_duplicate_input is

-- `Transaction::validate_structure`
unfoldable pub validate_transaction : Transaction → Outcome {0, 0} TransactionError Unit
unfolding has_duplicate_input
validate_transaction tx =
    if is_empty tx.inputs
    then err no_inputs
    else if is_empty tx.outputs
    then err no_outputs
    else if has_duplicate_input tx.inputs
    then err duplicate_input
    else (sum_outputs tx.outputs >>= λ sum. ok tt)

-- The check of one transaction in `Block::validate_structure`
unfoldable pub check_transaction : ℕ → ℕ → Transaction → Outcome {0, 0} TransactionError Unit
unfolding validate_transaction validate_coinbase_structure
check_transaction height index tx =
    if is_empty tx.inputs
    then (if height == 0
        then (if is_empty tx.outputs then err no_outputs else ok tt)
        else if index == 0
        then validate_coinbase_structure tx height
        else err no_inputs)
    else validate_transaction tx

unfoldable pub invalid_in_block {ℓ} :
    {A : Type ℓ} → Outcome TransactionError A → Outcome BlockError A
invalid_in_block (ok a) = ok a
invalid_in_block (err e) = err (invalid_transaction e)
invalid_in_block _ = diverge

-- The loop of `Block::validate_structure`, which collects the ids
unfoldable pub collect_ids :
    Crypto → Serializer → ℕ → ℕ → List Transaction → Outcome {0, 0} BlockError (List (List ℕ))
unfolding check_transaction invalid_in_block id
collect_ids c serialize height index [] = ok []
collect_ids c serialize height index (tx ∷ txs) =
    invalid_in_block (check_transaction height index tx) >>= λ checked. elim (id c serialize tx) [
      | none ↦ err invalid_id
      | some i ↦ collect_ids c serialize height (suc index) txs >>= λ ids. ok (i ∷ ids)
    ]

unfoldable pub has_id : List (List ℕ) → List ℕ → Bool
has_id [] i = false
has_id (j ∷ js) i = bytes_eq j i || has_id js i

unfoldable pub has_duplicate_id : List (List ℕ) → Bool
unfolding has_id
has_duplicate_id [] = false
has_duplicate_id (i ∷ is) = has_id is i || has_duplicate_id is

-- One round of the loop of `merkle_root_of`: pairs are hashed, a last odd one with itself.
unfoldable pub next_level : Crypto → List (List ℕ) → List (List ℕ)
next_level c [] = []
next_level c (a ∷ []) = sha3_256 c (a ++ a) ∷ []
next_level c (a ∷ b ∷ rest) = sha3_256 c (a ++ b) ∷ next_level c rest

-- The loop of `merkle_root_of`, on fuel
unfoldable pub merkle_loop : Crypto → ℕ → List (List ℕ) → Outcome {0, 0} BlockError (List ℕ)
unfolding next_level
merkle_loop c zero level = diverge
merkle_loop c (suc fuel) [] = ok (replicate 32 0)
merkle_loop c (suc fuel) (a ∷ []) = ok a
merkle_loop c (suc fuel) (a ∷ b ∷ rest) = merkle_loop c fuel (next_level c (a ∷ b ∷ rest))

-- `merkle_root_of`
unfoldable pub merkle_root_of : Crypto → List (List ℕ) → Outcome {0, 0} BlockError (List ℕ)
unfolding merkle_loop
merkle_root_of c ids = merkle_loop c (suc (length ids)) ids

-- `Block::validate_structure`
unfoldable pub validate_block : Crypto → Serializer → Block → Outcome {0, 0} BlockError Unit
unfolding collect_ids has_duplicate_id merkle_root_of
validate_block c serialize b = collect_ids c serialize b.header.height 0 b.transactions >>= λ ids.
    if has_duplicate_id ids
    then err duplicate_tx
    else (merkle_root_of c ids >>= λ computed.
        if bytes_eq computed b.header.merkle_root then ok tt else err merkle_root_mismatch)
