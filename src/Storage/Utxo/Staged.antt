-- ===== src/Storage/Utxo/Staged.antt =====
-- crates/qv-storage/src/utxo_store.rs: what `apply_block` has collected when its loop ends.
use mathlib.Core.List.{append-nil, append_assoc}
use l1_chain.Base.{
  ℕ, suc, ◌≡◌, arith, List, [], ◌∷◌, ◌++◌, true, ◌||◌, Bool-cases, inl, inr, none, some, refl, ◌∙◌,
  sym, subst, All, All-append, Option-cases,
}
use l1_chain.Base.Outcome.{ok, ◌>>=◌, >>=-eq-ok, ok_inj}
use l1_chain.Consensus.Stake.Totals.{bytes_eq_refl}
use l1_chain.Core.Block.{outpoint_eq}
use l1_chain.Core.Tx.{OutPoint, TxInput, TxOutput}
use l1_chain.Storage.Utxo.{
  UtxoStore, Staging, has_point, keys, unstage, consume_input, consume_inputs, produce_output,
  produce_outputs, output_point, output_points,
}

-- The spent outputs are those of the store, the outputs made so far are new to it, and what is
-- staged is among them.
pub record IsStaged (s : UtxoStore) (outs : List OutPoint) (st : Staging) : Type 0 where
  pub spent_held : All (λ (p : OutPoint × TxOutput). s.entries p.0 ≡ some p.1) st.spent
  pub outs_new : All (λ o. s.entries o ≡ none) outs
  pub staged_in : All (λ (p : OutPoint × TxOutput). has_point outs p.0 ≡ true) st.staged_new

outpoint_eq_refl : (o : OutPoint) → outpoint_eq o o ≡ true
outpoint_eq_refl o = ground (arith, bytes_eq_refl o.tx_id)

pub has_point-append_left :
    (os ps : List OutPoint) (o : OutPoint) → has_point os o ≡ true → has_point (os ++ ps) o ≡ true
unfolding has_point
has_point-append_left [] ps o h = cc
has_point-append_left (p ∷ os) ps o h = ground (arith, has_point-append_left os ps o)

has_point-last : (os : List OutPoint) (o : OutPoint) → has_point (os ++ o ∷ []) o ≡ true
unfolding has_point
has_point-last [] o = rw (outpoint_eq_refl o) refl
has_point-last (p ∷ os) o = ground (arith, has_point-last os o)

All-unstage :
    (P : OutPoint × TxOutput → Type 0) (kvs : List (OutPoint × TxOutput)) (o : OutPoint)
    → All P kvs
    → All P (unstage kvs o)
unfolding unstage
All-unstage P [] o h = tt
All-unstage P ((k, v) ∷ kvs) o h = elim (Bool-cases (outpoint_eq k o)) [
  | inl hit ↦ rw hit (All-unstage P kvs o h.1)
  | inr miss ↦ rw miss (h.0, All-unstage P kvs o h.1)
]

All-widen :
    (kvs : List (OutPoint × TxOutput)) (os ps : List OutPoint)
    → All (λ (p : OutPoint × TxOutput). has_point os p.0 ≡ true) kvs
    → All (λ (p : OutPoint × TxOutput). has_point (os ++ ps) p.0 ≡ true) kvs
All-widen [] os ps h = tt
All-widen ((k, v) ∷ kvs) os ps h = (has_point-append_left os ps k h.0, All-widen kvs os ps h.1)

-- The state of the loop was kept by a step that touches no coinbase list.
abbrev pub Keeps : UtxoStore → List OutPoint → Staging → Staging → Type 0
Keeps s outs st st' = IsStaged s outs st' × (st'.coinbase_outpoints ≡ st.coinbase_outpoints)

consume_input-Keeps :
    (s : UtxoStore) (outs : List OutPoint) (st st' : Staging) (o : OutPoint)
    → IsStaged s outs st
    → consume_input s st o ≡ ok st'
    → Keeps s outs st st'
unfolding consume_input
consume_input-Keeps s outs st st' o h made = elim (Bool-cases (has_point st.consumed o)) [
  | inl again ↦ absurd (ground arith)
  | inr new ↦ elim (Bool-cases (has_point (keys st.staged_new) o)) [
    | inl staged ↦
        let same : record st { consumed = o ∷ st.consumed; staged_new = unstage st.staged_new o }
            ≡ st' =
          ok_inj (rw staged at (rw new at made)) in
        subst (Keeps s outs st) same (
          record {
            spent_held = h.spent_held;
            outs_new = h.outs_new;
            staged_in = All-unstage _ st.staged_new o h.staged_in;
          },
          refl,
        )
    | inr stored ↦ elim (Option-cases (s.entries o)) [
      | inl missing ↦ absurd (ground arith)
      | inr (out, found) ↦
          let same : record st { consumed = o ∷ st.consumed; spent = st.spent ++ (o, out) ∷ [] }
              ≡ st' =
            ok_inj (rw (found, consume_input) at (rw stored at (rw new at made))) in
          subst (Keeps s outs st) same (
            record {
              spent_held = All-append _ st.spent ((o, out) ∷ []) h.spent_held (found, tt);
              outs_new = h.outs_new;
              staged_in = h.staged_in;
            },
            refl,
          )
    ]
  ]
]

pub consume_inputs-Keeps :
    (s : UtxoStore) (outs : List OutPoint) (is : List TxInput) (st st' : Staging)
    → IsStaged s outs st
    → consume_inputs s is st ≡ ok st'
    → Keeps s outs st st'
unfolding consume_inputs
consume_inputs-Keeps s outs [] st st' h made = subst (Keeps s outs st) (ok_inj made) (h, refl)
consume_inputs-Keeps s outs (i ∷ is) st st' h made =
    let (mid, first, rest) =
      >>=-eq-ok (consume_input s st i.prev_output) (λ x. consume_inputs s is x) made in
    let (h1, same1) = consume_input-Keeps s outs st mid i.prev_output h first in
    let (h2, same2) = consume_inputs-Keeps s outs is mid st' h1 rest in (h2, same2 ∙ same1)

produce_output-Keeps :
    (s : UtxoStore) (outs : List OutPoint) (st st' : Staging) (o : OutPoint) (out : TxOutput)
    → IsStaged s outs st
    → produce_output s st o out ≡ ok st'
    → Keeps s (outs ++ o ∷ []) st st'
unfolding produce_output
produce_output-Keeps s outs st st' o out h made =
    elim (Bool-cases (has_point st.consumed o || has_point (keys st.staged_new) o)) [
      | inl taken ↦ absurd (ground arith)
      | inr free ↦ elim (Option-cases (s.entries o)) [
        | inr (old, found) ↦ absurd (ground arith)
        | inl new ↦
            let same : record st { staged_new = (o, out) ∷ st.staged_new } ≡ st' =
              ok_inj (rw (new, produce_output) at (rw free at made)) in
            subst (Keeps s (outs ++ o ∷ []) st) same (
              record {
                spent_held = h.spent_held;
                outs_new = All-append _ outs (o ∷ []) h.outs_new (new, tt);
                staged_in =
                    (has_point-last outs o, All-widen st.staged_new outs (o ∷ []) h.staged_in);
              },
              refl,
            )
      ]
    ]

pub produce_outputs-Keeps :
    (s : UtxoStore) (i : List ℕ) (idx : ℕ) (xs : List TxOutput) (outs : List OutPoint)
    (st st' : Staging)
    → IsStaged s outs st
    → produce_outputs s i idx xs st ≡ ok st'
    → (os : List OutPoint) × (output_points i idx xs ≡ ok os) × Keeps s (outs ++ os) st st'
unfolding produce_outputs output_points
produce_outputs-Keeps s i idx [] outs st st' h made = (
  [],
  refl,
  subst (Keeps s (outs ++ []) st) (ok_inj made)
      (subst (λ os. IsStaged s os st) (sym (append-nil outs)) h, refl),
)
produce_outputs-Keeps s i idx (x ∷ xs) outs st st' h made =
    let (o, point, later) =
      >>=-eq-ok (output_point i idx)
        (λ o. produce_output s st o x >>= λ mid. produce_outputs s i (suc idx) xs mid) made in
    let (mid, first, rest) =
      >>=-eq-ok (produce_output s st o x) (λ mid. produce_outputs s i (suc idx) xs mid) later in
    let (h1, same1) = produce_output-Keeps s outs st mid o x h first in
    let (os, points, (h2, same2)) =
      produce_outputs-Keeps s i (suc idx) xs (outs ++ o ∷ []) mid st' h1 rest in
    (
      o ∷ os,
      rw point (rw points refl),
      (subst (λ l. IsStaged s l st') (append_assoc outs (o ∷ []) os) h2, same2 ∙ same1),
    )
