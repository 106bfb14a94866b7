-- ===== src/Consensus/Selection/Locator.antt =====
-- crates/qv-consensus/src/chain_state.rs: the block locator of one node, and the hashes that
-- another answers it with.
use l1_chain.Base.{
  ◌^◌, ◌+◌, ℕ, zero, suc, ◌-◌, ◌≤◌, ◌≡◌, arith, List, [], ◌∷◌, true, Bool-cases, inl, inr, some,
  length, get_elem?, take, drop, map, refl, ◌==◌, Option-cases, ap, sym, ◌∙◌, All, All-get_elem?,
  some_inj, subst, none,
}
use l1_chain.Base.Word.{max_u64}
use l1_chain.Consensus.Selection.Short.{build_locator_short}
use l1_chain.Consensus.Chain.{ChainEntry, zero_hash}
use l1_chain.Consensus.Selection.{
  build_locator, position, start_index, collect_hashes, select_headers_for_locator,
}
use l1_chain.Consensus.Selection.Built.{HashOf, Holds, Dense, build_locator-Pushed}

position-some :
    (chain : List ChainEntry) (h i : ℕ)
    → position chain h ≡ some i
    → (x : ChainEntry) × (get_elem? chain i ≡ some x) × (x.hash ≡ h)
unfolding position
position-some [] h i g = cc
position-some (e ∷ es) h i g = elim (Bool-cases (e.hash == h)) [
  | inl same ↦
      let at : 0 ≡ i = some_inj (rw same at g) in
      (e, ap (get_elem? (e ∷ es)) (sym at), ground (arith, same))
  | inr other ↦ elim (Option-cases (position es h)) [
    | inl unknown ↦ absurd (ground (arith, other))
    | inr (j, gj) ↦
        let at : suc j ≡ i = ground (arith, other, gj) in
        let (x, gx, hx) = position-some es h j gj in (x, ap (get_elem? (e ∷ es)) (sym at) ∙ gx, hx)
  ]
]

position_known :
    (chain : List ChainEntry) (h : ℕ) → HashOf chain h → (i : ℕ) × (position chain h ≡ some i)
unfolding position
position_known [] h (j, x, g, at) = absurd (ground (arith, g))
position_known (e ∷ es) h (zero, x, g, at) =
    let same : e ≡ x = some_inj g in
    let hit : (e.hash == h) ≡ true = ground (arith, at, ap (λ (y : ChainEntry). y.hash) same) in
    (0, rw hit refl)
position_known (e ∷ es) h (suc j, x, g, at) =
    let (i, gi) = position_known es h (j, x, g, at) in
    elim (Bool-cases (e.hash == h)) [
      | inl hit ↦ (0, rw hit refl)
      | inr miss ↦ (suc i, rw miss (rw gi refl))
    ]

start_index-hit :
    (chain : List ChainEntry) (h : ℕ) (hs : List ℕ) (i : ℕ)
    → position chain h ≡ some i
    → start_index chain (h ∷ hs) ≡ suc i
unfolding start_index
start_index-hit chain h hs i g = rw (g, start_index) refl

-- The first hash of the locator that is on the chain, the first block with it, and where the
-- answer starts
pub record Meets (chain : List ChainEntry) (hs : List ℕ) (i n : ℕ) (x : ChainEntry) : Type 0 where
  pub listed : get_elem? hs i ≡ some x.hash
  pub found : get_elem? chain n ≡ some x
  pub newer_unknown : All (λ h. ¬ HashOf chain h) (take i hs)

position-none : (chain : List ChainEntry) (h : ℕ) → position chain h ≡ none → ¬ HashOf chain h
position-none chain h g known = let (i, g') = position_known chain h known in cc

Holds-later :
    (chain : List ChainEntry) (h₀ : ℕ) (hs : List ℕ) (h : ℕ)
    → Holds h (h₀ ∷ hs)
    → ¬ HashOf chain h₀
    → HashOf chain h
    → Holds h hs
Holds-later chain h₀ hs h (zero, at) absent common =
    absurd (absent (subst (HashOf chain) (sym (some_inj at)) common))
Holds-later chain h₀ hs h (suc i, at) absent common = (i, at)

-- Where the locator has a hash of the chain, the answer starts behind the first one that it has.
start_index-Meets :
    (chain : List ChainEntry) (hs : List ℕ) (h : ℕ)
    → Holds h hs
    → HashOf chain h
    → (i : ℕ) × (n : ℕ) × (x : ChainEntry) × (start_index chain hs ≡ suc n) × Meets chain hs i n x
unfolding start_index
start_index-Meets chain [] h (i, at) common = cc
start_index-Meets chain (h₀ ∷ hs) h at common = elim (Option-cases (position chain h₀)) [
  | inl unknown ↦
      let absent = position-none chain h₀ unknown in
      let (i, n, x, start, m) =
        start_index-Meets chain hs h (Holds-later chain h₀ hs h at absent common) common in
      (
        suc i,
        n,
        x,
        rw (unknown, start_index) start,
        record { listed = m.listed; found = m.found; newer_unknown = (absent, m.newer_unknown) },
      )
  | inr (n, g) ↦
      let (x, gx, hx) = position-some chain h₀ n g in
      (
        0,
        n,
        x,
        start_index-hit chain h₀ hs n g,
        record { listed = ap (λ y. some y) (sym hx); found = gx; newer_unknown = tt },
      )
]

collect_hashes-take :
    (es : List ChainEntry) (room : ℕ)
    → collect_hashes es zero_hash room ≡ take room (map (λ (x : ChainEntry). x.hash) es)
unfolding collect_hashes
collect_hashes-take [] zero = refl
collect_hashes-take [] (suc room) = refl
collect_hashes-take (e ∷ es) zero = refl
collect_hashes-take (e ∷ es) (suc room) = ap (λ hs. e.hash ∷ hs) (collect_hashes-take es room)

-- A node asks with the locator of its chain, whose positions have 64 bits, and a node whose chain
-- has the same genesis hash answers without a stop hash. The locator is built; it begins with the
-- hashes of the newest ten blocks, or of all, in order, and it has at most 11 hashes more than its
-- chain's length can be halved. The answer is the hashes of the blocks that follow, in order and up
-- to the maximum, the block with the first hash of the locator that is on the answering node's chain:
-- no hash before it in the locator is.
pub select_headers-build_locator :
    (e : ChainEntry) (es : List ChainEntry) (f : ChainEntry) (fs : List ChainEntry) (max : ℕ)
    → f.hash ≡ e.hash
    → length es ≤ max_u64
    → (hs : List ℕ) × (i : ℕ) × (n : ℕ) × (x : ChainEntry) × (build_locator (e ∷ es) ≡ some hs)
      × Dense (e ∷ es) (length es) 10 hs
      × (2 ^ (length hs - 11) ≤ length es + 1)
      × Meets (f ∷ fs) hs i n x
      × HashOf (e ∷ es) x.hash
      × (select_headers_for_locator (f ∷ fs) hs zero_hash max
          ≡ take max (map (λ (y : ChainEntry). y.hash) (drop (suc n) (f ∷ fs))))
unfolding select_headers_for_locator
select_headers-build_locator e es f fs max same narrow =
    let (hs, built, p) = build_locator-Pushed e es in
    let (i, n, x, start, m) = start_index-Meets (f ∷ fs) hs e.hash p.holds (0, f, refl, same) in
    (
      hs,
      i,
      n,
      x,
      built,
      p.dense,
      build_locator_short e es hs built narrow,
      m,
      All-get_elem? (HashOf (e ∷ es)) hs i x.hash p.known m.listed,
      rw start (collect_hashes-take (drop n fs) max),
    )
