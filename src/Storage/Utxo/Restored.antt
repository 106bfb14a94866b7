-- ===== src/Storage/Utxo/Restored.antt =====
-- crates/qv-storage/src/utxo_store.rs: `revert_block` restores what `apply_block` changed.
use l1_chain.Base.{
  ℕ, ◌≡◌, List, [], ◌∷◌, true, false, Bool-cases, inl, inr, Option, none, some, refl, ap, ◌∙◌, sym,
  subst, All, Option-cases,
}
use l1_chain.Base.Outcome.{ok, >>=-eq-ok, ok_inj}
use l1_chain.Consensus.Stake.Totals.{bytes_eq_refl}
use l1_chain.Core.Block.{Block, HeaderSerializer, validate_block, block_hash, outpoint_eq}
use l1_chain.Core.Tx.{OutPoint, TxOutput, Serializer}
use l1_chain.Crypto.{Crypto}
use l1_chain.Storage.Utxo.{
  UtxoStore, UndoLog, PointMap, Staging, has_point, keys, put_all, delete_all, write_undo,
  apply_transactions,
}
use l1_chain.Storage.Utxo.Blocks.{
  lift_block, heights_of, live_heights, commit_block, no_staging, apply_block, revert_points,
  undo_block, revert_block,
}
use l1_chain.Storage.Utxo.Maps.{
  or_false, outpoint_eq-eq, put_all-agree, put_all-member, put_all-other, delete_all-agree,
  delete_all-member, delete_all-other,
}
use l1_chain.Storage.Utxo.Staged.{IsStaged}
use l1_chain.Storage.Utxo.Revert.{New, apply_transactions-listed}

-- A coinbase height is on record only for an output that is there.
abbrev pub HeightsLive : UtxoStore → Type 0
HeightsLive s = (o : OutPoint) → s.entries o ≡ none → s.heights o ≡ none

-- Deleting what `g` lacks and putting back what it holds undoes a batch that touched nothing else.
restore :
    {V : Type 0} (g : PointMap V) (o : OutPoint) (old made : List (OutPoint × V))
    (removed : List OutPoint)
    → All (λ (kv : OutPoint × V). g kv.0 ≡ some kv.1) old
    → All (λ k. g k ≡ none) removed
    → (has_point removed o ≡ false → has_point (keys made) o ≡ false)
    → put_all old (delete_all removed (put_all made (delete_all (keys old) g))) o ≡ g o
restore g o old made removed held new inside =
    let batch = put_all made (delete_all (keys old) g) in
    elim (Bool-cases (has_point (keys old) o)) [
      | inl spent ↦ put_all-member g o old (delete_all removed batch) held spent
      | inr kept ↦
          put_all-agree g o old (delete_all removed batch) held
            (elim (Bool-cases (has_point removed o)) [
              | inl out ↦ delete_all-member g o removed batch new out
              | inr other ↦ delete_all-agree g o removed batch new (
                  put_all-other o made (delete_all (keys old) g) (inside other)
                  ∙ delete_all-other o (keys old) g kept)
            ])
    ]

heights_of-held :
    (f : PointMap ℕ) (spent : List (OutPoint × TxOutput))
    → All (λ (kv : OutPoint × ℕ). f kv.0 ≡ some kv.1) (heights_of f spent)
unfolding heights_of
heights_of-held f [] = tt
heights_of-held f ((o, out) ∷ spent) = elim (Option-cases (f o)) [
  | inl nothing ↦ rw (nothing, heights_of) (heights_of-held f spent)
  | inr (h, found) ↦ rw (found, heights_of) (found, heights_of-held f spent)
]

live_heights-inside :
    (height : ℕ) (staged : List (OutPoint × TxOutput)) (os : List OutPoint) (o : OutPoint)
    → has_point os o ≡ false
    → has_point (keys (live_heights height staged os)) o ≡ false
unfolding live_heights has_point
live_heights-inside height staged [] o h = refl
live_heights-inside height staged (p ∷ os) o h =
    let (here_, later) = or_false (outpoint_eq p o) (has_point os o) h in
    let rest = live_heights-inside height staged os o later in
    elim (Bool-cases (has_point (keys staged) p)) [
      | inl live ↦ rw (live, live_heights) (rw here_ rest)
      | inr dead ↦ rw (dead, live_heights) rest
    ]

staged-inside :
    (outs : List OutPoint) (staged : List (OutPoint × TxOutput)) (o : OutPoint)
    → All (λ (p : OutPoint × TxOutput). has_point outs p.0 ≡ true) staged
    → has_point outs o ≡ false
    → has_point (keys staged) o ≡ false
unfolding has_point
staged-inside outs [] o h other = refl
staged-inside outs ((k, v) ∷ staged) o h other = elim (Bool-cases (outpoint_eq k o)) [
  | inl hit ↦
      let same : has_point outs o ≡ true =
        ap (has_point outs) (sym (outpoint_eq-eq k o hit)) ∙ h.0 in
      cc
  | inr miss ↦ rw miss (staged-inside outs staged o h.1 other)
]

All-HeightsLive :
    (s : UtxoStore) (os : List OutPoint)
    → HeightsLive s
    → New s os
    → All (λ o. s.heights o ≡ none) os
All-HeightsLive s [] live h = tt
All-HeightsLive s (o ∷ os) live h = (live o h.0, All-HeightsLive s os live h.1)

write_undo_hit :
    (f : List ℕ → Option UndoLog) (k : List ℕ) (v : Option UndoLog) → write_undo f k v k ≡ v
unfolding write_undo
write_undo_hit f k v = rw (bytes_eq_refl k) refl

-- `revert_block` succeeds on `x`, and every output and every coinbase height is as in `s`.
abbrev pub Restores :
    Crypto → Serializer → HeaderSerializer → Block → UtxoStore → UtxoStore → Type 0
Restores c serialize header_bytes b s x =
    (s'' : UtxoStore) × (revert_block c serialize header_bytes x b ≡ ok s'')
    × ((o : OutPoint) → s''.entries o ≡ s.entries o)
    × ((o : OutPoint) → s''.heights o ≡ s.heights o)

revert_block-known :
    (c : Crypto) (serialize : Serializer) (header_bytes : HeaderSerializer) (x : UtxoStore)
    (b : Block) (hash : List ℕ) (u : UndoLog) (outs coinbase : List OutPoint)
    → lift_block (block_hash c header_bytes b) ≡ ok hash
    → x.undo hash ≡ some u
    → revert_points c serialize b.header.height 0 b.transactions ≡ ok (outs, coinbase)
    → revert_block c serialize header_bytes x b ≡ ok (undo_block x hash u outs coinbase)
unfolding revert_block
revert_block-known c serialize header_bytes x b hash u outs coinbase hashed found points =
    rw hashed (rw (found, revert_block) (rw points refl))

commit_block-Restores :
    (c : Crypto) (serialize : Serializer) (header_bytes : HeaderSerializer) (s : UtxoStore)
    (b : Block) (hash : List ℕ) (st : Staging) (outs coinbase : List OutPoint)
    → HeightsLive s
    → lift_block (block_hash c header_bytes b) ≡ ok hash
    → revert_points c serialize b.header.height 0 b.transactions ≡ ok (outs, coinbase)
    → IsStaged s outs st
    → st.coinbase_outpoints ≡ coinbase
    → New s coinbase
    → Restores c serialize header_bytes b s (commit_block s b.header.height hash st)
unfolding commit_block undo_block
commit_block-Restores c serialize header_bytes s b hash st outs coinbase live hashed points h listed
      new =
    let height = b.header.height in
    let spent_heights = heights_of s.heights st.spent in
    let u : UndoLog = record { spent = st.spent; spent_coinbase_heights = spent_heights } in
    (
      undo_block (commit_block s height hash st) hash u outs coinbase,
      revert_block-known c serialize header_bytes (commit_block s height hash st) b hash u outs
          coinbase hashed (write_undo_hit s.undo hash (some u)) points,
      λ o.
          restore s.entries o st.spent st.staged_new outs h.spent_held h.outs_new
            (staged-inside outs st.staged_new o h.staged_in),
      λ o.
          restore s.heights o spent_heights
            (live_heights height st.staged_new st.coinbase_outpoints) coinbase
            (heights_of-held s.heights st.spent) (All-HeightsLive s coinbase live new)
            (λ other.
              live_heights-inside height st.staged_new st.coinbase_outpoints o
                (ap (λ l. has_point l o) listed ∙ other)),
    )

-- Where coinbase heights are on record for present outputs only, and `apply_block` has accepted a
-- block, `revert_block` of the block on the new state succeeds, and every output and every coinbase
-- height is as it was before.
pub apply_block-revert_block :
    (c : Crypto) (serialize : Serializer) (header_bytes : HeaderSerializer) (s s' : UtxoStore)
    (b : Block)
    → HeightsLive s
    → apply_block c serialize header_bytes s b ≡ ok s'
    → (s'' : UtxoStore) × (revert_block c serialize header_bytes s' b ≡ ok s'')
      × ((o : OutPoint) → s''.entries o ≡ s.entries o)
      × ((o : OutPoint) → s''.heights o ≡ s.heights o)
unfolding apply_block
apply_block-revert_block c serialize header_bytes s s' b live made =
    let (checked, valid, rest) = >>=-eq-ok (lift_block (validate_block c serialize b)) _ made in
    let (st, applied, last) =
      >>=-eq-ok (apply_transactions c serialize s b.header.height 0 b.transactions no_staging) _
        rest in
    let (hash, hashed, done) = >>=-eq-ok (lift_block (block_hash c header_bytes b)) _ last in
    let (outs, coinbase, points, h, listed, new) =
      apply_transactions-listed c serialize s b.header.height 0 b.transactions [] no_staging st
        (record { spent_held = tt; outs_new = tt; staged_in = tt }) applied in
    subst (Restores c serialize header_bytes b s) (ok_inj done) (
      commit_block-Restores c serialize header_bytes s b hash st outs coinbase live hashed points h
        listed new)
