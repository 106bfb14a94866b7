-- ===== src/Consensus/Chain/Total.antt =====
-- crates/qv-consensus/src/chain_state.rs: `add_block` and `is_final` on a reachable state return;
-- no walk goes round in circles and the tip is never missing.
use l1_chain.Base.{
  ℕ, suc, ◌-◌, ◌<◌, ◌≡◌, arith, ◌∷◌, false, Bool-cases, inl, inr, ◌==◌, length, some, refl, ap,
  subst, sym, Option-cases, ◌∙◌, leb, ltb, not, ◌&&◌, ◌||◌,
}
use l1_chain.Base.Outcome.{ok, Returns}
use l1_chain.Consensus.Chain.{
  ChainEntry, ChainState, get_entry, contains_entry, is_ancestor, set_final, advance_finality,
  choose_tip, insert_block, tip_height, tip_entry, add_block, zero_hash,
}
use l1_chain.Consensus.Chain.Walk.{
  rank, rank-le, Ordered, ancestor_loop-Returns, final_loop-Returns, Decided, get_entry-grow,
}
use l1_chain.Consensus.Chain.Step.{indexed, record_equivocation-kept, contains_entry-rank}
use l1_chain.Consensus.Chain.Sound.{Reach, IsSound, get_entry_self}
use l1_chain.Consensus.Chain.Invariant.{Reach-IsSound, Ordered-grow}

pub is_ancestor-Decided :
    (s : ChainState) (a d : ℕ) → Ordered s.entries → Decided (is_ancestor s a d)
unfolding is_ancestor
is_ancestor-Decided s a d sorted = elim (Option-cases (get_entry s.entries a)) [
  | inl unknown ↦ (false, rw (unknown, is_ancestor))
  | inr (e, g) ↦
      rw (g, is_ancestor)
        (ancestor_loop-Returns (suc (length s.entries)) s.entries a e.height d sorted
          (omega (arith, rank-le s.entries d)))
]

module _ (s : ChainState) (t : ChainEntry) (sorted : Ordered s.entries)
    (known : get_entry s.entries s.tip ≡ some t) where
  advance_finality-Returns : (s' : ChainState) × (advance_finality s ≡ ok s')
  unfolding advance_finality tip_height tip_entry
  advance_finality-Returns =
      rw (known, tip_height, tip_entry)
        (elim (Bool-cases (ltb t.height s.k_finality)) [
          | inl short ↦ (s, rw short refl)
          | inr long ↦ elim (Bool-cases (leb (t.height - s.k_finality) s.final_height)) [
            | inl old ↦ (s, rw long (rw old refl))
            | inr due ↦
                let (found, done) =
                  final_loop-Returns (suc (length s.entries)) s.entries (t.height - s.k_finality)
                    s.tip sorted (omega (arith, rank-le s.entries s.tip)) in
                (set_final s found, rw long (rw due (rw done refl)))
          ]
        ])

choose_tip-Returns :
    (s : ChainState) (t x : ChainEntry) (height h : ℕ)
    → Ordered s.entries
    → get_entry s.entries s.tip ≡ some t
    → get_entry s.entries h ≡ some x
    → Returns (choose_tip s height h)
unfolding choose_tip tip_height tip_entry
choose_tip-Returns s t x height h sorted known new =
    rw (known, tip_height, tip_entry)
      (elim (Bool-cases (ltb t.height height || ((height == t.height) && ltb h s.tip))) [
        | inl better ↦
            let (s', done) = advance_finality-Returns (record s { tip = h }) x sorted new in
            rw better (rw done tt)
        | inr worse ↦ rw worse tt
      ])

insert_block-Returns :
    (s : ChainState) (e : ChainEntry)
    → IsSound s
    → rank s.entries e.hash ≡ 0
    → 0 < rank s.entries e.parent_hash
    → Returns (insert_block s e)
unfolding insert_block
insert_block-Returns s e sound fresh parent =
    let (es, ts, ks, fs, hs) =
      record_equivocation-kept (record s { entries = e ∷ s.entries }) e.slot e.producer_key_hash
        e.hash in
    let n = indexed s e in
    let (t, gt, best) = sound.best in
    choose_tip-Returns n t e e.height e.hash
      (subst Ordered (sym es) (Ordered-grow e s.entries fresh parent sound.ordered))
      (ap (λ x. get_entry x n.tip) es
        ∙ ap (get_entry (e ∷ s.entries)) ts
        ∙ get_entry-grow e s.entries s.tip t fresh gt)
      (ap (λ x. get_entry x e.hash) es ∙ get_entry_self e s.entries)

-- On every reachable state `add_block` returns, with an answer or with an error, whatever the new
-- entry is: the walks to the finalized block end, and looking up the tip does not panic.
pub add_block-Returns :
    {k : ℕ} {s : ChainState} → Reach k s → (e : ChainEntry) → Returns (add_block s e)
unfolding add_block
add_block-Returns {k} {s} r e =
    let sound = Reach-IsSound r in
    elim (Bool-cases (not (contains_entry s.entries e.parent_hash) && not (e.hash == zero_hash))) [
      | inl orphan ↦ rw orphan tt
      | inr parent ↦ rw parent (elim (Bool-cases (contains_entry s.entries e.hash)) [
        | inl known ↦ rw known tt
        | inr new ↦ rw new (elim (Bool-cases (e.hash == zero_hash)) [
          | inl z ↦
              let at : e.hash ≡ 0 = ground (arith, z) in
              absurd (
                ground (
                  arith,
                  contains_entry-rank s.entries e.hash,
                  sound.zero_known,
                  ap (rank s.entries) at,
                ))
          | inr other ↦
              let fresh : rank s.entries e.hash ≡ 0 =
                ground (arith, contains_entry-rank s.entries e.hash) in
              let later : 0 < rank s.entries e.parent_hash =
                ground (arith, contains_entry-rank s.entries e.parent_hash) in
              let (d, dec) = is_ancestor-Decided s s.final_hash e.parent_hash sound.ordered in
              rw other (
                rw dec (elim (Bool-cases d) [
                  | inl yes_ ↦ rw yes_ (insert_block-Returns s e sound fresh later)
                  | inr no_ ↦ rw no_ tt
                ]))
        ])
      ])
    ]
