-- ===== src/Consensus/Chain/Invariant.antt =====
-- crates/qv-consensus/src/chain_state.rs: every accepted block keeps the invariant, and every call
-- of `add_block` on a reachable state returns.
use l1_chain.Base.{
  ℕ, suc, ◌<◌, ◌≡◌, arith, List, ◌∷◌, Bool, Bool-cases, inl, inr, ◌==◌, length, some, refl, ap,
  subst, sym, ◌⊎◌, ◌∙◌, some_inj,
}
use l1_chain.Consensus.Chain.{ChainEntry, ChainState, get_entry, genesis_chain, genesis_entry}
use l1_chain.Consensus.Chain.Walk.{rank, rank_pos, rank-le, get_entry-grow, Ordered}
use l1_chain.Consensus.Chain.Sound.{
  Reach, start, add, IsBest, IsSound, kept, moved, Added, add_block-Added, get_entry_self,
}

rank_self : (x : ChainEntry) (es : List ChainEntry) → rank (x ∷ es) x.hash ≡ suc (length es)
unfolding rank
rank_self x es = ground arith

rank-grow :
    (x : ChainEntry) (es : List ChainEntry) (h : ℕ)
    → rank es x.hash ≡ 0
    → 0 < rank es h
    → rank (x ∷ es) h ≡ rank es h
unfolding rank
rank-grow x es h fresh known = elim (Bool-cases (x.hash == h)) [
  | inl same ↦ let eq : x.hash ≡ h = ground (arith, same) in absurd (omega (arith, ap (rank es) eq))
  | inr other ↦ rw other refl
]

-- A look-up in the longer list finds the new block or what it found before.
pub get_entry-cons :
    (x : ChainEntry) (es : List ChainEntry) (h : ℕ) (e : ChainEntry)
    → get_entry (x ∷ es) h ≡ some e
    → ((x.hash ≡ h) × (e ≡ x)) ⊎ (get_entry es h ≡ some e)
unfolding get_entry
get_entry-cons x es h e g = elim (Bool-cases (x.hash == h)) [
  | inl same ↦ inl (ground (arith, same), some_inj (sym (rw same at g)))
  | inr other ↦ inr (rw other at g)
]

pub Ordered-grow :
    (x : ChainEntry) (es : List ChainEntry)
    → rank es x.hash ≡ 0
    → 0 < rank es x.parent_hash
    → Ordered es
    → Ordered (x ∷ es)
Ordered-grow x es fresh known sorted h e g = elim (get_entry-cons x es h e g) [
  | inl (at, same) ↦
      let parent : e.parent_hash ≡ x.parent_hash = ap (λ (y : ChainEntry). y.parent_hash) same in
      let place : rank (x ∷ es) e.parent_hash ≡ rank es x.parent_hash =
        ap (rank (x ∷ es)) parent ∙ rank-grow x es x.parent_hash fresh known in
      let top : rank (x ∷ es) h ≡ suc (length es) = ap (rank (x ∷ es)) (sym at) ∙ rank_self x es in
      inr (omega arith, omega (arith, rank-le es x.parent_hash))
  | inr old ↦ elim (sorted h e old) [
    | inl root ↦ inl root
    | inr (later, before) ↦
        let place = rank-grow x es e.parent_hash fresh later in
        let place' = rank-grow x es h fresh (rank_pos es h e old) in inr (omega arith, omega arith)
  ]
]

module _ {s : ChainState} {e : ChainEntry} {b : Bool} {s' : ChainState} where
  look_up :
      Added s e b s'
      → (h : ℕ) (x : ChainEntry) → get_entry s'.entries h ≡ some x
      → ((e.hash ≡ h) × (x ≡ e)) ⊎ (get_entry s.entries h ≡ some x)
  look_up step h x g =
      get_entry-cons e s.entries h x (ap (λ es. get_entry es h) (sym step.entries_eq) ∙ g)

  look_up_new :
      Added s e b s'
      → (h : ℕ) (x : ChainEntry) → get_entry (e ∷ s.entries) h ≡ some x
      → s'.tip ≡ h
      → get_entry s'.entries s'.tip ≡ some x
  look_up_new step h x g at =
      ap (λ es. get_entry es s'.tip) step.entries_eq ∙ ap (get_entry (e ∷ s.entries)) at ∙ g

  IsBest-step :
      IsSound s
      → Added s e b s'
      → (t : ChainEntry) × (get_entry s'.entries s'.tip ≡ some t) × IsBest s' t
  IsBest-step sound step =
      let (t, gt, all) = sound.best in
      let (t', gt', chosen) = step.tip_step in
      let height : t'.height ≡ t.height =
        ap (λ (x : ChainEntry). x.height) (some_inj (sym gt' ∙ gt)) in
      elim chosen [
        | inl (changed, at, better) ↦ (
          e,
          look_up_new step e.hash e (get_entry_self e s.entries) at,
          λ h x g. elim (look_up step h x g) [
            | inl (same, entry) ↦ inr (ap (λ (y : ChainEntry). y.height) entry, omega arith)
            | inr old ↦ ground (arith, all h x old, better)
          ],
        )
        | inr (stayed, at, worse) ↦ (
          t,
          look_up_new step s.tip t (get_entry-grow e s.entries s.tip t step.fresh gt) at,
          λ h x g. elim (look_up step h x g) [
            | inl (same, entry) ↦
                let level : x.height ≡ e.height = ap (λ (y : ChainEntry). y.height) entry in
                ground (arith, worse)
            | inr old ↦ ground (arith, all h x old)
          ],
        )
      ]

  final_step_known :
      IsSound s
      → Added s e b s'
      → (f : ChainEntry) × (get_entry s'.entries s'.final_hash ≡ some f)
        × (f.height ≡ s'.final_height)
  final_step_known sound step = elim step.final_step [
    | kept hash height idle ↦
        let (f, g, at) = sound.final_known in
        (
          f,
          ap (λ x. get_entry x s'.final_hash) step.entries_eq
              ∙ ap (get_entry (e ∷ s.entries)) hash
              ∙ get_entry-grow e s.entries s.final_hash f step.fresh g,
          at ∙ sym height,
        )
    | moved f g at higher deep path ↦
        (f, ap (λ x. get_entry x s'.final_hash) step.entries_eq ∙ g, at)
  ]

  pub Added-IsSound : IsSound s → Added s e b s' → IsSound s'
  Added-IsSound sound step = record {
    ordered =
        subst Ordered (sym step.entries_eq)
          (Ordered-grow e s.entries step.fresh step.parent_known sound.ordered);
    zero_known = omega (
      arith,
      ap (λ x. rank x 0) step.entries_eq,
      rank-grow e s.entries 0 step.fresh sound.zero_known,
      sound.zero_known,
    );
    best = IsBest-step sound step;
    final_known = final_step_known sound step;
  }

genesis_chain-IsSound : (k : ℕ) → IsSound (genesis_chain k)
unfolding genesis_chain get_entry rank
genesis_chain-IsSound k = record {
  ordered = λ h e g. inl (ground arith);
  zero_known = omega arith;
  best = (genesis_entry, refl, λ h e g. ground arith);
  final_known = (genesis_entry, refl, refl);
}

-- In every state that `genesis` and accepted blocks lead to, a block's parent was accepted before
-- it, the tip is known and no known block is better than it (higher, or as high with a smaller
-- hash), and the finalized block is known with the finalized height.
pub Reach-IsSound : {k : ℕ} {s : ChainState} → Reach k s → IsSound s
Reach-IsSound {k} start = genesis_chain-IsSound k
Reach-IsSound (add {s} {s'} r e b made) =
    Added-IsSound (Reach-IsSound r) (add_block-Added s e b s' (Reach-IsSound r) made)
