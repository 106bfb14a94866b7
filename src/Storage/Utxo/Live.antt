-- ===== src/Storage/Utxo/Live.antt =====
-- crates/qv-storage/src/utxo_store.rs: coinbase heights are on record for present outputs only.
use l1_chain.Base.{
  ℕ, ◌≡◌, List, [], ◌∷◌, true, false, Bool-cases, inl, inr, none, some, refl, ap, ◌∙◌, sym, subst,
  Option-cases,
}
use l1_chain.Base.Outcome.{ok, >>=-eq-ok, ok_inj}
use l1_chain.Core.Block.{Block, HeaderSerializer, validate_block, block_hash, outpoint_eq}
use l1_chain.Core.Tx.{OutPoint, TxOutput, Serializer}
use l1_chain.Crypto.{Crypto}
use l1_chain.Storage.Utxo.{
  UtxoStore, PointMap, Staging, has_point, keys, put_all, delete_all, write, apply_transactions,
}
use l1_chain.Storage.Utxo.Blocks.{
  lift_block, heights_of, live_heights, commit_block, no_staging, apply_block,
}
use l1_chain.Storage.Utxo.Maps.{outpoint_eq-eq, put_all-other, delete_all-other}
use l1_chain.Storage.Utxo.Restored.{HeightsLive}

module _ {V : Type 0} (o : OutPoint) where
  put_all-none :
      (kvs : List (OutPoint × V)) (f : PointMap V)
      → put_all kvs f o ≡ none
      → (has_point (keys kvs) o ≡ false) × (f o ≡ none)
  unfolding put_all has_point write
  put_all-none [] f h = (refl, h)
  put_all-none ((k, v) ∷ kvs) f h =
      let (later, now) = put_all-none kvs (write f k (some v)) h in
      elim (Bool-cases (outpoint_eq k o)) [
        | inl hit ↦ let clash : some v ≡ none = rw (hit, write) at now in cc
        | inr miss ↦ (rw miss later, rw (miss, write) at now)
      ]

  -- A deleted key, and one that was not there, is not there.
  delete_all-absent : (ks : List OutPoint) (f : PointMap V) → f o ≡ none → delete_all ks f o ≡ none
  unfolding delete_all write
  delete_all-absent [] f h = h
  delete_all-absent (k ∷ ks) f h =
      delete_all-absent ks (write f k none) (elim (Bool-cases (outpoint_eq k o)) [
        | inl hit ↦ rw (hit, write) refl
        | inr miss ↦ rw (miss, write) h
      ])

  delete_all-hit :
      (ks : List OutPoint) (f : PointMap V) → has_point ks o ≡ true → delete_all ks f o ≡ none
  unfolding delete_all has_point write
  delete_all-hit [] f h = cc
  delete_all-hit (k ∷ ks) f h = elim (Bool-cases (outpoint_eq k o)) [
    | inl hit ↦ delete_all-absent ks (write f k none) (rw (hit, write) refl)
    | inr miss ↦ delete_all-hit ks (write f k none) (rw miss at h)
  ]

-- A spent output with a height on record is among those whose heights are deleted.
heights_of-listed :
    (f : PointMap ℕ) (spent : List (OutPoint × TxOutput)) (o : OutPoint) (h : ℕ)
    → has_point (keys spent) o ≡ true
    → f o ≡ some h
    → has_point (keys (heights_of f spent)) o ≡ true
unfolding heights_of has_point
heights_of-listed f [] o h member found = cc
heights_of-listed f ((k, out) ∷ spent) o h member found = elim (Bool-cases (outpoint_eq k o)) [
  | inl hit ↦
      let at : f k ≡ some h = ap f (outpoint_eq-eq k o hit) ∙ found in
      rw (at, heights_of) (rw hit refl)
  | inr miss ↦
      let rest = heights_of-listed f spent o h (rw miss at member) found in
      elim (Option-cases (f k)) [
        | inl nothing ↦ rw (nothing, heights_of) rest
        | inr (g, at) ↦ rw (at, heights_of) (rw miss rest)
      ]
]

-- Heights are written for staged outputs only.
live_heights-staged :
    (height : ℕ) (staged : List (OutPoint × TxOutput)) (os : List OutPoint) (o : OutPoint)
    → has_point (keys staged) o ≡ false
    → has_point (keys (live_heights height staged os)) o ≡ false
unfolding live_heights has_point
live_heights-staged height staged [] o h = refl
live_heights-staged height staged (p ∷ os) o h =
    let rest = live_heights-staged height staged os o h in
    elim (Bool-cases (has_point (keys staged) p)) [
      | inr dead ↦ rw (dead, live_heights) rest
      | inl live ↦
          rw (live, live_heights)
            (elim (Bool-cases (outpoint_eq p o)) [
              | inr miss ↦ rw miss rest
              | inl hit ↦
                  let clash : has_point (keys staged) o ≡ true =
                    ap (has_point (keys staged)) (sym (outpoint_eq-eq p o hit)) ∙ live in
                  cc
            ])
    ]

heights_deleted :
    (s : UtxoStore) (spent : List (OutPoint × TxOutput)) (o : OutPoint)
    → HeightsLive s
    → delete_all (keys spent) s.entries o ≡ none
    → delete_all (keys (heights_of s.heights spent)) s.heights o ≡ none
heights_deleted s spent o live gone =
    let ks = keys (heights_of s.heights spent) in
    elim (Option-cases (s.heights o)) [
      | inl nothing ↦ delete_all-absent o ks s.heights nothing
      | inr (h, found) ↦ elim (Bool-cases (has_point (keys spent) o)) [
        | inl member ↦
            delete_all-hit o ks s.heights (heights_of-listed s.heights spent o h member found)
        | inr other ↦
            let absent = live o (sym (delete_all-other o (keys spent) s.entries other) ∙ gone) in
            delete_all-absent o ks s.heights absent
      ]
    ]

commit_block-HeightsLive :
    (s : UtxoStore) (height : ℕ) (hash : List ℕ) (st : Staging)
    → HeightsLive s
    → HeightsLive (commit_block s height hash st)
unfolding commit_block
commit_block-HeightsLive s height hash st live o gone =
    let (unstaged, deleted) =
      put_all-none o st.staged_new (delete_all (keys st.spent) s.entries) gone in
    let made = live_heights height st.staged_new st.coinbase_outpoints in
    put_all-other o made (delete_all (keys (heights_of s.heights st.spent)) s.heights)
      (live_heights-staged height st.staged_new st.coinbase_outpoints o unstaged)
    ∙ heights_deleted s st.spent o live deleted

-- If no coinbase height is on record for an absent output, an accepted apply_block leaves it so.
pub apply_block-HeightsLive :
    (c : Crypto) (serialize : Serializer) (header_bytes : HeaderSerializer) (s s' : UtxoStore)
    (b : Block)
    → HeightsLive s
    → apply_block c serialize header_bytes s b ≡ ok s'
    → HeightsLive s'
unfolding apply_block
apply_block-HeightsLive c serialize header_bytes s s' b live made =
    let (checked, valid, rest) = >>=-eq-ok (lift_block (validate_block c serialize b)) _ made in
    let (st, applied, last) =
      >>=-eq-ok (apply_transactions c serialize s b.header.height 0 b.transactions no_staging) _
        rest in
    let (hash, hashed, done) = >>=-eq-ok (lift_block (block_hash c header_bytes b)) _ last in
    subst HeightsLive (ok_inj done) (commit_block-HeightsLive s b.header.height hash st live)
