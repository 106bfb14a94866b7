-- ===== src/Consensus/Chain/Progress.antt =====
-- crates/qv-consensus/src/chain_state.rs: where every block is one higher than its parent, the
-- finalized point keeps up with the tip.
use l1_chain.Base.{
  ℕ, zero, suc, ◌+◌, ◌-◌, ◌≤◌, ◌<◌, ◌≡◌, ◌≢◌, arith, List, ◌∷◌, inl, inr, length, some, none, refl,
  ap, subst, sym, ◌∙◌, some_inj, ◌⊎◌, Bool-cases, ◌==◌, ltb,
}
use l1_chain.Base.Outcome.{ok}
use l1_chain.Consensus.Chain.{
  ChainEntry, ChainState, get_entry, final_loop, genesis_chain, genesis_entry,
}
use l1_chain.Consensus.Chain.Walk.{rank, rank_pos, Ordered, get_entry-grow}
use l1_chain.Consensus.Chain.Sound.{
  Reach, start, add, FinalStep, kept, moved, add_block-Added, get_entry_self,
}
use l1_chain.Consensus.Chain.Invariant.{Reach-IsSound, get_entry-cons}
use l1_chain.Consensus.Chain.Finality.{final_height_step}

-- Every known block is a root of height 0, or one higher than its parent, which is known.
abbrev pub Counted : List ChainEntry → Type 0
Counted es =
    (h : ℕ) (e : ChainEntry)
    → get_entry es h ≡ some e
    → ((e.parent_hash ≡ h) × (e.height ≡ 0))
      ⊎ ((p : ChainEntry) × (get_entry es e.parent_hash ≡ some p) × (e.height ≡ suc p.height))

-- The walk of `advance_finality` meets every height down to 1.
final_loop-found :
    (fuel : ℕ) (es : List ChainEntry) (target d : ℕ) (e : ChainEntry)
    → Counted es
    → get_entry es d ≡ some e
    → 0 < target
    → target ≤ e.height
    → final_loop fuel es target d ≢ ok none
unfolding final_loop
final_loop-found zero es target d e counted g pos le = λ h. cc
final_loop-found (suc fuel) es target d e counted g pos le = λ h.
    elim (Bool-cases (e.height == target)) [
      | inl hit ↦ absurd (ground arith)
      | inr miss ↦ elim (counted d e g) [
        | inl (root, bottom) ↦ absurd (ground arith)
        | inr (p, gp, above) ↦
            let rest =
              final_loop-found fuel es target e.parent_hash p counted gp pos
                (ground (arith, miss)) in
            absurd (rest (ground arith))
      ]
    ]

Counted-older :
    (x : ChainEntry) (es : List ChainEntry)
    → rank es x.hash ≡ 0
    → Ordered es
    → Counted (x ∷ es)
    → Counted es
Counted-older x es fresh sorted counted h e g =
    elim (counted h e (get_entry-grow x es h e fresh g)) [
      | inl root ↦ inl root
      | inr (p, gp, above) ↦ elim (get_entry-cons x es e.parent_hash p gp) [
        | inr old ↦ inr (p, old, above)
        | inl (at, same) ↦ elim (sorted h e g) [
          | inl self ↦
              let known = rank_pos es h e g in absurd (omega (arith, ap (rank es) (at ∙ self)))
          | inr (known, before) ↦ absurd (omega (arith, ap (rank es) at))
        ]
      ]
    ]

pub k_finality_lem : {k : ℕ} {s : ChainState} → Reach k s → s.k_finality ≡ k
unfolding genesis_chain
k_finality_lem start = refl
k_finality_lem (add {s} {s'} r e b made) =
    (add_block-Added s e b s' (Reach-IsSound r) made).k_eq ∙ k_finality_lem r

-- The new tip is at most `k` blocks above the new finalized point.
keeps_up :
    {s : ChainState} {e : ChainEntry} {s' : ChainState}
    → s'.tip ≢ s.tip
    → Counted (e ∷ s.entries)
    → FinalStep s e s'
    → e.height ≤ s'.final_height + s.k_finality
keeps_up {s} {e} {s'} new counted (moved f g at higher deep path) = omega arith
keeps_up {s} {e} {s'} new counted (kept hash height (inl stayed)) = absurd (new stayed)
keeps_up {s} {e} {s'} new counted (kept hash height (inr (inl near))) = omega arith
keeps_up {s} {e} {s'} new counted (kept hash height (inr (inr nothing))) =
    elim (Bool-cases (ltb s.k_finality e.height)) [
      | inr low ↦ ground arith
      | inl long ↦ absurd (
          final_loop-found (suc (suc (length s.entries))) (e ∷ s.entries) (e.height - s.k_finality)
            e.hash e counted (get_entry_self e s.entries) (ground arith) (omega arith) nothing)
    ]

-- In a reachable state in which every block but the root is one higher than its parent, the tip is
-- at most `k` blocks above the finalized block: finality follows the tip.
pub final_height-tip :
    {k : ℕ} {s : ChainState}
    → Reach k s
    → Counted s.entries
    → (t : ChainEntry) → get_entry s.entries s.tip ≡ some t
    → t.height ≤ s.final_height + k
unfolding genesis_chain get_entry
final_height-tip {k} start counted t g =
    let same : genesis_entry ≡ t = some_inj g in
    omega (arith, ap (λ (x : ChainEntry). x.height) same)
final_height-tip {k} (add {s} {s'} r e b made) counted t g =
    let sound = Reach-IsSound r in
    let step = add_block-Added s e b s' sound made in
    let counted' = subst Counted step.entries_eq counted in
    let (t₀, g₀, chosen) = step.tip_step in
    let ks = k_finality_lem r in
    let g' = ap (λ es. get_entry es s'.tip) (sym step.entries_eq) ∙ g in
    elim chosen [
      | inl (changed, at, better) ↦
          let same : e ≡ t =
            some_inj
              (sym (get_entry_self e s.entries) ∙ ap (get_entry (e ∷ s.entries)) (sym at) ∙ g') in
          let new : s'.tip ≢ s.tip = λ q.
            let known = rank_pos s.entries s.tip t₀ g₀ in
            absurd (omega (arith, ap (rank s.entries) (sym at ∙ q), step.fresh)) in
          omega
            (arith, keeps_up new counted' step.final_step, ap (λ (x : ChainEntry). x.height) same)
      | inr (unchanged, at, worse) ↦
          let same : t₀ ≡ t = some_inj (
            sym (get_entry-grow e s.entries s.tip t₀ step.fresh g₀)
            ∙ ap (get_entry (e ∷ s.entries)) (sym at)
            ∙ g') in
          let before =
            final_height-tip r (Counted-older e s.entries step.fresh sound.ordered counted') t₀
              g₀ in
          omega
            (arith, before, final_height_step sound step, ap (λ (x : ChainEntry). x.height) same)
    ]
