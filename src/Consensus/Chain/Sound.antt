-- ===== src/Consensus/Chain/Sound.antt =====
-- crates/qv-consensus/src/chain_state.rs: the invariant of the states that `genesis` and accepted
-- calls of `add_block` lead to, and that calls on them return.
use l1_chain.Base.{
  ℕ, suc, ◌+◌, ◌<◌, ◌≡◌, arith, List, ◌∷◌, Bool, true, false, inl, inr, length, some, ap, subst,
  sym, ◌⊎◌, ◌∙◌, the, ◌-◌, some_inj,
}
use l1_chain.Base.Outcome.{ok}
use l1_chain.Consensus.Chain.{
  final_loop, ChainEntry, ChainState, get_entry, is_ancestor, set_final, add_block, genesis_chain,
}
use l1_chain.Consensus.Chain.Walk.{rank, get_entry-grow, ParentPath, Ordered}
use l1_chain.Consensus.Chain.Step.{
  indexed, record_equivocation-kept, add_block-Accepted, Better, NotBetter, Idle, choose_tip-Chosen,
  Advanced, stays, moves, advance_finality-Advanced,
}

-- The states of a node: `genesis`, and every accepted block after it
pub data Reach (k : ℕ) : ChainState → Type 0 where
  start : Reach k (genesis_chain k)
  add :
      {s s' : ChainState}
      → Reach k s
      → (e : ChainEntry) (b : Bool) → add_block s e ≡ ok (b, s')
      → Reach k s'

-- No known block is better than the tip.
abbrev pub IsBest : ChainState → ChainEntry → Type 0
IsBest s t =
    (h : ℕ) (e : ChainEntry) → get_entry s.entries h ≡ some e → NotBetter e.height h t.height s.tip

pub record IsSound (s : ChainState) : Type 0 where
  pub ordered : Ordered s.entries
  pub zero_known : 0 < rank s.entries 0
  pub best : (t : ChainEntry) × (get_entry s.entries s.tip ≡ some t) × IsBest s t
  pub final_known :
      (f : ChainEntry) × (get_entry s.entries s.final_hash ≡ some f) × (f.height ≡ s.final_height)

-- The finalized point stayed, or moved up on the walk from the new block `e`.
pub data FinalStep (s : ChainState) (e : ChainEntry) (s' : ChainState) : Type 0 where
  kept :
      s'.final_hash ≡ s.final_hash
      → s'.final_height ≡ s.final_height
      → (s'.tip ≡ s.tip) ⊎ Idle (record s { entries = e ∷ s.entries; tip = e.hash }) e
      → FinalStep s e s'
  moved :
      (f : ChainEntry)
      → get_entry (e ∷ s.entries) s'.final_hash ≡ some f
      → f.height ≡ s'.final_height
      → s.final_height < s'.final_height
      → s'.final_height + s.k_finality ≡ e.height
      → ParentPath (e ∷ s.entries) s'.final_hash s'.final_height e.hash
      → FinalStep s e s'

-- What an accepted block does to a sound state
pub record Added (s : ChainState) (e : ChainEntry) (b : Bool) (s' : ChainState) : Type 0 where
  pub fresh : rank s.entries e.hash ≡ 0
  pub parent_known : 0 < rank s.entries e.parent_hash
  pub descends : is_ancestor s s.final_hash e.parent_hash ≡ ok true
  pub entries_eq : s'.entries ≡ e ∷ s.entries
  pub k_eq : s'.k_finality ≡ s.k_finality
  pub producers_eq : s'.slot_producers ≡ (indexed s e).slot_producers
  pub equivocations_eq : s'.equivocations ≡ (indexed s e).equivocations
  pub final_step : FinalStep s e s'
  pub tip_step :
      (t : ChainEntry) × (get_entry s.entries s.tip ≡ some t)
      × (((b ≡ true) × (s'.tip ≡ e.hash) × Better e.height e.hash t.height s.tip)
          ⊎ ((b ≡ false) × (s'.tip ≡ s.tip) × NotBetter e.height e.hash t.height s.tip))

pub get_entry_self : (e : ChainEntry) (es : List ChainEntry) → get_entry (e ∷ es) e.hash ≡ some e
unfolding get_entry
get_entry_self e es = ground arith

Idle-moved :
    (s n : ChainState) (e t : ChainEntry)
    → n.entries ≡ e ∷ s.entries
    → n.k_finality ≡ s.k_finality
    → n.final_height ≡ s.final_height
    → t ≡ e
    → Idle (record n { tip = e.hash }) t
    → Idle (record s { entries = e ∷ s.entries; tip = e.hash }) e
Idle-moved s n e t es ks hs same (inl near) =
    inl (omega (arith, ap (λ (x : ChainEntry). x.height) same))
Idle-moved s n e t es ks hs same (inr none_found) = inr (
    ap (λ x. final_loop (suc (length x)) x (e.height - s.k_finality) e.hash) (sym es)
    ∙ ap (λ x. final_loop (suc (length n.entries)) n.entries x e.hash)
        (the (e.height - s.k_finality ≡ t.height - n.k_finality)
          (omega (arith, ap (λ (x : ChainEntry). x.height) same)))
    ∙ none_found)

-- The finalized point behind `advance_finality`, in terms of the state before the block
Advanced-FinalStep :
    (s n : ChainState) (e : ChainEntry) (s' : ChainState)
    → n.entries ≡ e ∷ s.entries
    → n.k_finality ≡ s.k_finality
    → n.final_hash ≡ s.final_hash
    → n.final_height ≡ s.final_height
    → Advanced (record n { tip = e.hash }) s'
    → FinalStep s e s'
      × (s'.entries ≡ e ∷ s.entries)
      × (s'.k_finality ≡ s.k_finality)
      × (s'.tip ≡ e.hash)
      × (s'.slot_producers ≡ n.slot_producers)
      × (s'.equivocations ≡ n.equivocations)
unfolding set_final
Advanced-FinalStep s n e s' es ks fs hs (stays t gt idle same) =
    let tip_entry : t ≡ e =
      some_inj (sym gt ∙ ap (λ x. get_entry x e.hash) es ∙ get_entry_self e s.entries) in
    (
      kept (ap (λ (x : ChainState). x.final_hash) same ∙ fs)
          (ap (λ (x : ChainState). x.final_height) same ∙ hs)
          (inr (Idle-moved s n e t es ks hs tip_entry idle)),
      ap (λ (x : ChainState). x.entries) same ∙ es,
      ap (λ (x : ChainState). x.k_finality) same ∙ ks,
      ap (λ (x : ChainState). x.tip) same,
      ap (λ (x : ChainState). x.slot_producers) same,
      ap (λ (x : ChainState). x.equivocations) same,
    )
Advanced-FinalStep s n e s' es ks fs hs (moves t a f target gt at up p ga ha same) =
    let hash : s'.final_hash ≡ f = ap (λ (x : ChainState). x.final_hash) same in
    let height : s'.final_height ≡ target = ap (λ (x : ChainState). x.final_height) same in
    let tip_entry : t ≡ e =
      some_inj (sym gt ∙ ap (λ x. get_entry x e.hash) es ∙ get_entry_self e s.entries) in
    (
      moved a (ap (get_entry (e ∷ s.entries)) hash ∙ ap (λ x. get_entry x f) (sym es) ∙ ga)
          (ha ∙ sym height) (omega arith)
          (ap (λ x. x + s.k_finality) height
            ∙ ap (λ x. target + x) (sym ks)
            ∙ at
            ∙ ap (λ (x : ChainEntry). x.height) tip_entry)
          (subst (λ x. ParentPath (e ∷ s.entries) x s'.final_height e.hash) (sym hash)
            (subst (λ x. ParentPath (e ∷ s.entries) f x e.hash) (sym height)
              (subst (λ x. ParentPath x f target e.hash) es p))),
      ap (λ (x : ChainState). x.entries) same ∙ es,
      ap (λ (x : ChainState). x.k_finality) same ∙ ks,
      ap (λ (x : ChainState). x.tip) same,
      ap (λ (x : ChainState). x.slot_producers) same,
      ap (λ (x : ChainState). x.equivocations) same,
    )

module _ (s : ChainState) (e : ChainEntry) (b : Bool) (s' : ChainState) (sound : IsSound s) where
  not_zero :
      rank s.entries e.hash ≡ 0
      → (e.hash ≡ 0)
        ⊎ ((0 < rank s.entries e.parent_hash)
            × (is_ancestor s s.final_hash e.parent_hash ≡ ok true))
      → (0 < rank s.entries e.parent_hash) × (is_ancestor s s.final_hash e.parent_hash ≡ ok true)
  not_zero fresh (inl z) = absurd (omega (arith, sound.zero_known, ap (rank s.entries) z))
  not_zero fresh (inr known) = known

  pub add_block-Added : add_block s e ≡ ok (b, s') → Added s e b s'
  add_block-Added made =
      let acc = add_block-Accepted s e b s' made in
      let n = indexed s e in
      let (es, ts, ks, fs, hs) =
        record_equivocation-kept (record s { entries = e ∷ s.entries }) e.slot e.producer_key_hash
          e.hash in
      let (known, descends) = not_zero acc.fresh acc.linked in
      let (t, gt, best) = sound.best in
      let (t', gt', chosen) = choose_tip-Chosen n e.height e.hash b s' acc.chosen in
      let same_tip : t' ≡ t = some_inj (
        sym gt'
        ∙ ap (λ x. get_entry x n.tip) es
        ∙ ap (get_entry (e ∷ s.entries)) ts
        ∙ get_entry-grow e s.entries s.tip t acc.fresh gt) in
      let height : t'.height ≡ t.height = ap (λ (x : ChainEntry). x.height) same_tip in
      elim chosen [
        | inl (yes_, better, advance) ↦
            let (final, es', ks', ts', ps', qs') =
              Advanced-FinalStep s n e s' es ks fs hs
                (advance_finality-Advanced (record n { tip = e.hash }) s' advance) in
            record {
              fresh = acc.fresh;
              parent_known = known;
              descends = descends;
              entries_eq = es';
              k_eq = ks';
              producers_eq = ps';
              equivocations_eq = qs';
              final_step = final;
              tip_step = (t, gt, inl (yes_, ts', ground (arith, better)));
            }
        | inr (no_, worse, same) ↦ record {
          fresh = acc.fresh;
          parent_known = known;
          descends = descends;
          entries_eq = ap (λ (x : ChainState). x.entries) same ∙ es;
          k_eq = ap (λ (x : ChainState). x.k_finality) same ∙ ks;
          producers_eq = ap (λ (x : ChainState). x.slot_producers) same;
          equivocations_eq = ap (λ (x : ChainState). x.equivocations) same;
          final_step =
              kept (ap (λ (x : ChainState). x.final_hash) same ∙ fs)
                (ap (λ (x : ChainState). x.final_height) same ∙ hs)
                (inl (ap (λ (x : ChainState). x.tip) same ∙ ts));
          tip_step =
              (t, gt, inr (no_, ap (λ (x : ChainState). x.tip) same ∙ ts, ground (arith, worse)));
        }
      ]
