-- ===== src/Consensus/Chain/Canonical.antt =====
-- crates/qv-consensus/src/chain_state.rs: `canonical_chain` is the way from genesis to the tip.
use l1_chain.Base.{
  ℕ, zero, suc, ◌≤◌, ◌<◌, ◌≡◌, ◌*◌, ◌^◌, ◌-◌, arith, List, [], ◌∷◌, Bool-cases, inl, inr, ◌==◌,
  length, Option, reverse, some, none, refl, ap, subst, sym, ◌∙◌, some_inj, ltb, false, the,
}
use mathlib.Core.List.{reverse_aux}
use l1_chain.Base.Outcome.{Outcome, ok}
use l1_chain.Consensus.Chain.{
  ChainEntry, ChainError, ChainState, genesis_entry, genesis_chain, new_chain, get_entry,
}
use l1_chain.Consensus.Chain.Walk.{rank, rank_pos, rank-le, get_of_rank, get_entry-hash, Ordered}
use l1_chain.Consensus.Chain.Sound.{Reach, start, add, add_block-Added}
use l1_chain.Consensus.Chain.Invariant.{Reach-IsSound, get_entry-cons}
use l1_chain.Consensus.Chain.Listing.{ancestors_loop, ancestors, canonical_chain}

-- The known blocks of the list follow the block `e` by parent links, up to the one with hash `tip`.
pub data Climbs (es : List ChainEntry) (tip : ℕ) : ChainEntry → List ChainEntry → Type 0 where
  top : {e : ChainEntry} → e.hash ≡ tip → Climbs es tip e []
  next :
      {e x : ChainEntry} {xs : List ChainEntry}
      → get_entry es x.hash ≡ some x
      → x.parent_hash ≡ e.hash
      → Climbs es tip x xs
      → Climbs es tip e (x ∷ xs)

-- The parent links lead from the block with hash `d` over the list to a block that is its own parent.
data Falls (es : List ChainEntry) : ℕ → List ChainEntry → Type 0 where
  root :
      {d : ℕ} {e : ChainEntry} → get_entry es d ≡ some e → e.parent_hash ≡ d → Falls es d (e ∷ [])
  down :
      {d : ℕ} {e : ChainEntry} {xs : List ChainEntry}
      → get_entry es d ≡ some e
      → Falls es e.parent_hash xs
      → Falls es d (e ∷ xs)

ancestors_loop-Falls :
    (count : ℕ) (es : List ChainEntry) (d : ℕ)
    → Ordered es
    → 0 < rank es d
    → rank es d ≤ count
    → Falls es d (ancestors_loop count es d)
unfolding ancestors_loop
ancestors_loop-Falls zero es d sorted known enough = absurd (omega arith)
ancestors_loop-Falls (suc count) es d sorted known enough =
    let (e, g) = get_of_rank es d known in
    rw (g, ancestors_loop)
      (elim (Bool-cases (d == e.parent_hash)) [
        | inl same ↦ rw same (root g (ground (arith, same)))
        | inr other ↦ rw other (elim (sorted d e g) [
          | inl self ↦ absurd (ground (arith, self, other))
          | inr (older, before) ↦
              down g (ancestors_loop-Falls count es e.parent_hash sorted older (omega arith))
        ])
      ])

-- A list that starts at a block of its own parent, and climbs to the tip
abbrev Rises : List ChainEntry → ℕ → List ChainEntry → Type 0
Rises es tip c =
    (g : ChainEntry) × (xs : List ChainEntry) × (c ≡ g ∷ xs)
    × (get_entry es g.hash ≡ some g)
    × (g.parent_hash ≡ g.hash)
    × Climbs es tip g xs

Falls-Rises :
    {es : List ChainEntry} {d : ℕ} {xs : List ChainEntry} (tip : ℕ) (done : List ChainEntry)
    → Falls es d xs
    → ((e : ChainEntry) → e.hash ≡ d → Climbs es tip e done)
    → Rises es tip (reverse_aux xs done)
Falls-Rises {es} tip done (root {d} {e} g self) above =
    let at = get_entry-hash es d e g in
    (e, done, refl, ap (get_entry es) at ∙ g, self ∙ sym at, above e at)
Falls-Rises {es} tip done (down {d} {e} {xs} g falls) above =
    let at = get_entry-hash es d e g in
    Falls-Rises tip (e ∷ done) falls
      (λ x is_parent. next (ap (get_entry es) at ∙ g) (sym is_parent) (above e at))

-- Only genesis is its own parent.
abbrev Rooted : List ChainEntry → Type 0
Rooted es =
    (h : ℕ) (e : ChainEntry) → get_entry es h ≡ some e → e.parent_hash ≡ h → e ≡ genesis_entry

Reach-Rooted : {k : ℕ} {s : ChainState} → Reach k s → Rooted s.entries
unfolding genesis_chain new_chain get_entry
Reach-Rooted start h e g self = elim (Bool-cases (0 == h)) [
  | inl hit ↦ some_inj (sym (rw hit at g))
  | inr miss ↦
      let gone : ◌≡◌ {A = Option ChainEntry} none (some e) = rw miss at g in
      absurd (ground (arith, gone))
]
Reach-Rooted (add {s} {s'} r b t made) h e g self =
    let step = add_block-Added s b t s' (Reach-IsSound r) made in
    elim (get_entry-cons b s.entries h e (ap (λ x. get_entry x h) (sym step.entries_eq) ∙ g)) [
      | inr old ↦ Reach-Rooted r h e old self
      | inl (at, is_b) ↦
          let parent : b.parent_hash ≡ b.hash =
            ap (λ (x : ChainEntry). x.parent_hash) (sym is_b) ∙ self ∙ sym at in
          absurd (omega (arith, step.parent_known, step.fresh, ap (rank s.entries) parent))
    ]

reverse-Rises :
    {es : List ChainEntry} {xs : List ChainEntry} (tip : ℕ)
    → Falls es tip xs
    → Rises es tip (reverse xs)
reverse-Rises tip falls = Falls-Rises tip [] falls (λ e at. top at)

-- In every state that `genesis` and accepted blocks lead to, if references to all known blocks fit
-- in memory's 2 ^ 63 - 1 bytes, canonical_chain returns a list that begins with genesis and goes on
-- with known blocks, each the child of the one before it, up to the tip.
pub canonical_chain-Climbs :
    {k : ℕ} {s : ChainState}
    → Reach k s
    → length s.entries * 8 ≤ 2 ^ 63 - 1
    → (xs : List ChainEntry) × (canonical_chain s ≡ ok (genesis_entry ∷ xs))
      × Climbs s.entries s.tip genesis_entry xs
unfolding canonical_chain ancestors
canonical_chain-Climbs {k} {s} r fits =
    let sound = Reach-IsSound r in
    let (t, gt, best) = sound.best in
    let (g, xs, at, known, self, climbs) = reverse-Rises s.tip (
      ancestors_loop-Falls (length s.entries) s.entries s.tip sound.ordered
        (rank_pos s.entries s.tip t gt) (rank-le s.entries s.tip)) in
    let origin : g ≡ genesis_entry = Reach-Rooted r g.hash g known self in
    let room : ltb (2 ^ 63 - 1) (length s.entries * 8) ≡ false = ground (arith, fits) in
    (
      xs,
      rw room (
          ap (λ x. the (Outcome {0, 0} ChainError (List ChainEntry)) (ok x))
            (at ∙ ap (λ x. x ∷ xs) origin)),
      subst (λ x. Climbs s.entries s.tip x xs) origin climbs,
    )
