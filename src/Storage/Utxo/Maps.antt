-- ===== src/Storage/Utxo/Maps.antt =====
-- crates/qv-storage/src/utxo_store.rs: what a batch of writes leaves at a key, against a map `g`.
use mathlib.Core.Bool.{and-eq-true_iff}
use l1_chain.Base.{
  ◌≡◌, arith, List, [], ◌∷◌, Bool, true, false, ◌||◌, Bool-cases, inl, inr, Option, none, some,
  refl, ap, ◌∙◌, sym, All, ◌==◌,
}
use l1_chain.Base.Bytes.{bytes_eq}
use l1_chain.Consensus.Stake.Totals.{bytes_eq-eq}
use l1_chain.Core.Block.{outpoint_eq}
use l1_chain.Core.Tx.{OutPoint}
use l1_chain.Storage.Utxo.{PointMap, write, put_all, delete_all, has_point, keys}

pub outpoint_eq-eq : (a b : OutPoint) → outpoint_eq a b ≡ true → a ≡ b
outpoint_eq-eq a b h =
    let (ids, indexes) = (and-eq-true_iff (bytes_eq a.tx_id b.tx_id) (a.index == b.index)).0 h in
    let same_index : a.index ≡ b.index = ground (arith, indexes) in
    let same_id : a.tx_id ≡ b.tx_id = bytes_eq-eq a.tx_id b.tx_id ids in cc

pub or_false : (a b : Bool) → (a || b) ≡ false → (a ≡ false) × (b ≡ false)
or_false true b h = cc
or_false false b h = (refl, h)

write-miss :
    {V : Type 0} (f : PointMap V) (k : OutPoint) (v : Option V) (o : OutPoint)
    → outpoint_eq k o ≡ false
    → write f k v o ≡ f o
unfolding write
write-miss f k v o miss = rw (miss, write) refl

module _ {V : Type 0} (g : PointMap V) (o : OutPoint) where
  write-hit :
      (f : PointMap V) (k : OutPoint) (v : Option V)
      → g k ≡ v
      → outpoint_eq k o ≡ true
      → write f k v o ≡ g o
  unfolding write
  write-hit f k v held hit = rw (hit, write) (sym held ∙ ap g (outpoint_eq-eq k o hit))

  write-agree :
      (f : PointMap V) (k : OutPoint) (v : Option V) → g k ≡ v → f o ≡ g o → write f k v o ≡ g o
  unfolding write
  write-agree f k v held same = elim (Bool-cases (outpoint_eq k o)) [
    | inl hit ↦ write-hit f k v held hit
    | inr miss ↦ write-miss f k v o miss ∙ same
  ]

  -- Writes of what `g` holds keep agreement with `g`.
  pub put_all-agree :
      (kvs : List (OutPoint × V)) (f : PointMap V)
      → All (λ kv. g kv.0 ≡ some kv.1) kvs
      → f o ≡ g o
      → put_all kvs f o ≡ g o
  unfolding put_all
  put_all-agree [] f held same = same
  put_all-agree ((k, v) ∷ kvs) f held same =
      put_all-agree kvs (write f k (some v)) held.1 (write-agree f k (some v) held.0 same)

  pub put_all-member :
      (kvs : List (OutPoint × V)) (f : PointMap V)
      → All (λ kv. g kv.0 ≡ some kv.1) kvs
      → has_point (keys kvs) o ≡ true
      → put_all kvs f o ≡ g o
  unfolding put_all has_point
  put_all-member [] f held member = cc
  put_all-member ((k, v) ∷ kvs) f held member = elim (Bool-cases (outpoint_eq k o)) [
    | inl hit ↦ put_all-agree kvs (write f k (some v)) held.1 (write-hit f k (some v) held.0 hit)
    | inr miss ↦ put_all-member kvs (write f k (some v)) held.1 (rw miss at member)
  ]

  pub delete_all-agree :
      (ks : List OutPoint) (f : PointMap V)
      → All (λ k. g k ≡ none) ks
      → f o ≡ g o
      → delete_all ks f o ≡ g o
  unfolding delete_all
  delete_all-agree [] f held same = same
  delete_all-agree (k ∷ ks) f held same =
      delete_all-agree ks (write f k none) held.1 (write-agree f k none held.0 same)

  pub delete_all-member :
      (ks : List OutPoint) (f : PointMap V)
      → All (λ k. g k ≡ none) ks
      → has_point ks o ≡ true
      → delete_all ks f o ≡ g o
  unfolding delete_all has_point
  delete_all-member [] f held member = cc
  delete_all-member (k ∷ ks) f held member = elim (Bool-cases (outpoint_eq k o)) [
    | inl hit ↦ delete_all-agree ks (write f k none) held.1 (write-hit f k none held.0 hit)
    | inr miss ↦ delete_all-member ks (write f k none) held.1 (rw miss at member)
  ]

module _ {V : Type 0} (o : OutPoint) where
  -- Writes to other keys change nothing.
  pub put_all-other :
      (kvs : List (OutPoint × V)) (f : PointMap V)
      → has_point (keys kvs) o ≡ false
      → put_all kvs f o ≡ f o
  unfolding put_all has_point
  put_all-other [] f other = refl
  put_all-other ((k, v) ∷ kvs) f other =
      put_all-other kvs (write f k (some v)) (or_false _ _ other).1
      ∙ write-miss f k (some v) o (or_false _ _ other).0

  pub delete_all-other :
      (ks : List OutPoint) (f : PointMap V) → has_point ks o ≡ false → delete_all ks f o ≡ f o
  unfolding delete_all has_point
  delete_all-other [] f other = refl
  delete_all-other (k ∷ ks) f other =
      delete_all-other ks (write f k none) (or_false _ _ other).1
      ∙ write-miss f k none o (or_false _ _ other).0
