-- ===== src/Consensus/Selection/Built.antt =====
-- crates/qv-consensus/src/chain_state.rs: the locator that `build_locator` makes.
use mathlib.Core.List.{append_assoc}
use l1_chain.Base.{
  ℕ, zero, suc, ◌-◌, ◌≤◌, ◌<◌, ◌≡◌, arith, List, [], ◌∷◌, ◌++◌, Bool-cases, inl, inr, some, length,
  get_elem?, refl, ltb, ◌==◌, ap, sym, ◌∙◌, All, some_inj, the, subst, ◌+◌, length-append,
}
use l1_chain.Base.Word.{saturating_mul}
use l1_chain.Consensus.Chain.{ChainEntry}
use l1_chain.Consensus.Selection.{push_hash, locator_loop, build_locator}
use l1_chain.Consensus.Selection.Agreement.{get_elem?-known}

-- The hash is that of a block of the chain.
abbrev pub HashOf : List ChainEntry → ℕ → Type 0
HashOf chain h = (j : ℕ) × (x : ChainEntry) × (get_elem? chain j ≡ some x) × (x.hash ≡ h)

abbrev pub Holds : ℕ → List ℕ → Type 0
Holds h hs = (i : ℕ) × (get_elem? hs i ≡ some h)

-- The list begins with the hashes of the blocks at `idx`, `idx - 1` and so on, `k` of them or as many
-- as there are.
abbrev pub Dense : List ChainEntry → ℕ → ℕ → List ℕ → Type 0
Dense chain idx zero hs = Unit
Dense chain idx (suc k) [] = ⊥
Dense chain zero (suc k) (h ∷ hs) = (x : ChainEntry) × (get_elem? chain 0 ≡ some x) × (x.hash ≡ h)
Dense chain (suc idx) (suc k) (h ∷ hs) =
    ((x : ChainEntry) × (get_elem? chain (suc idx) ≡ some x) × (x.hash ≡ h)) × Dense chain idx k hs

-- What the rounds from `idx` down push: the hash at `idx` first, genesis among them, and only
-- hashes of the chain; `room` of them without a gap
pub record Pushed (chain : List ChainEntry) (genesis idx room : ℕ) (hs : List ℕ) : Type 0 where
  pub first : (x : ChainEntry) × (get_elem? chain idx ≡ some x) × (get_elem? hs 0 ≡ some x.hash)
  pub holds : Holds genesis hs
  pub known : All (HashOf chain) hs
  pub dense : Dense chain idx room hs

Pushed-cons :
    (e : ChainEntry) (es : List ChainEntry) (idx room : ℕ) (x : ChainEntry) (next room' : ℕ)
    (hs : List ℕ)
    → get_elem? (e ∷ es) idx ≡ some x
    → Dense (e ∷ es) idx room (x.hash ∷ hs)
    → Pushed (e ∷ es) e.hash next room' hs
    → Pushed (e ∷ es) e.hash idx room (x.hash ∷ hs)
Pushed-cons e es idx room x next room' hs g near p =
    let (i, at) = p.holds in
    record {
      first = (x, g, refl);
      holds = (suc i, at);
      known = ((idx, x, g, refl), p.known);
      dense = near;
    }

Dense-cons :
    (chain : List ChainEntry) (idx room : ℕ) (x : ChainEntry) (hs : List ℕ)
    → get_elem? chain idx ≡ some x
    → 0 < idx
    → 0 < room
    → Dense chain (idx - 1) (room - 1) hs
    → Dense chain idx room (x.hash ∷ hs)
Dense-cons chain zero room x hs g pos some_room d = absurd (omega arith)
Dense-cons chain (suc idx) zero x hs g pos some_room d = absurd (omega arith)
Dense-cons chain (suc idx) (suc room) x hs g pos some_room d = (
  (x, g, refl),
  subst (λ k. Dense chain idx k hs) (the (suc room - 1 ≡ room) (omega arith))
      (subst (λ k. Dense chain k (suc room - 1) hs) (the (suc idx - 1 ≡ idx) (omega arith)) d),
)

Dense-last :
    (chain : List ChainEntry) (idx room : ℕ) (x : ChainEntry) (hs : List ℕ)
    → get_elem? chain idx ≡ some x
    → room ≤ 1
    → Dense chain idx room (x.hash ∷ hs)
Dense-last chain idx zero x hs g few = tt
Dense-last chain zero (suc room) x hs g few = (x, g, refl)
Dense-last chain (suc idx) (suc zero) x hs g few = ((x, g, refl), tt)
Dense-last chain (suc idx) (suc (suc room)) x hs g few = absurd (omega arith)

Dense-bottom :
    (chain : List ChainEntry) (idx room : ℕ) (x : ChainEntry) (hs : List ℕ)
    → get_elem? chain idx ≡ some x
    → idx ≡ 0
    → Dense chain idx room (x.hash ∷ hs)
Dense-bottom chain idx zero x hs g at = tt
Dense-bottom chain zero (suc room) x hs g at = (x, g, refl)
Dense-bottom chain (suc idx) (suc room) x hs g at = absurd (omega arith)

locator_loop-Pushed :
    (fuel : ℕ) (e : ChainEntry) (es : List ChainEntry) (idx stride : ℕ) (locator : List ℕ)
    (x : ChainEntry)
    → get_elem? (e ∷ es) idx ≡ some x
    → idx < fuel
    → idx ≤ length es
    → 0 < stride
    → (hs : List ℕ) × (locator_loop fuel (e ∷ es) idx stride locator ≡ some (locator ++ hs))
      × Pushed (e ∷ es) e.hash idx (10 - length locator) hs
unfolding locator_loop saturating_mul push_hash
locator_loop-Pushed zero e es idx stride locator x g enough inside pos = absurd (omega arith)
locator_loop-Pushed (suc fuel) e es idx stride locator x g enough inside pos =
    let pushed : List ℕ = locator ++ x.hash ∷ [] in
    let size : length pushed ≡ length locator + 1 = length-append locator (x.hash ∷ []) in
    rw (g, push_hash)
      (elim (Bool-cases (idx == 0)) [
        | inl bottom ↦
            let first_entry : e ≡ x =
              some_inj (ap (get_elem? (e ∷ es)) (the (0 ≡ idx) (ground arith)) ∙ g) in
            rw bottom (
              x.hash ∷ [],
              refl,
              record {
                first = (x, g, refl);
                holds = (0, ap (λ (y : ChainEntry). some y.hash) (sym first_entry));
                known = ((idx, x, g, refl), tt);
                dense = Dense-bottom (e ∷ es) idx (10 - length locator) x [] g (ground arith);
              },
            )
        | inr higher ↦ rw higher (elim (Bool-cases (ltb (length pushed) 10)) [
          | inl dense ↦
              let (y, gy) = get_elem?-known (e ∷ es) (idx - 1) (omega arith) in
              let (hs, done, p) =
                locator_loop-Pushed fuel e es (idx - 1) stride pushed y gy (ground arith)
                  (omega arith) pos in
              rw dense (
                x.hash ∷ hs,
                done ∙ ap (λ l. some l) (append_assoc locator (x.hash ∷ []) hs),
                Pushed-cons e es idx (10 - length locator) x (idx - 1) (10 - length pushed) hs g
                    (Dense-cons (e ∷ es) idx (10 - length locator) x hs g (ground (arith, higher))
                      (ground (arith, dense))
                      (subst (λ k. Dense (e ∷ es) (idx - 1) k hs)
                        (the (10 - length pushed ≡ 10 - length locator - 1) (omega arith)) p.dense))
                    p,
              )
          | inr sparse ↦
              let (y, gy) = get_elem?-known (e ∷ es) (idx - stride) (omega arith) in
              let (hs, done, p) =
                locator_loop-Pushed fuel e es (idx - stride) (saturating_mul stride 2) pushed y gy
                  (ground arith) (omega arith) (omega arith) in
              rw sparse (
                x.hash ∷ hs,
                done ∙ ap (λ l. some l) (append_assoc locator (x.hash ∷ []) hs),
                Pushed-cons e es idx (10 - length locator) x (idx - stride) (10 - length pushed) hs
                    g
                    (Dense-last (e ∷ es) idx (10 - length locator) x hs g (ground (arith, sparse)))
                    p,
              )
        ])
      ])

-- The locator of a chain is built: it begins with the hash of the tip, holds that of genesis, and
-- holds only hashes of the chain, the newest ten without a gap.
pub build_locator-Pushed :
    (e : ChainEntry) (es : List ChainEntry)
    → (hs : List ℕ) × (build_locator (e ∷ es) ≡ some hs) × Pushed (e ∷ es) e.hash (length es) 10 hs
unfolding build_locator
build_locator-Pushed e es =
    let (x, g) = get_elem?-known (e ∷ es) (length es) (omega arith) in
    locator_loop-Pushed (suc (length es)) e es (length es) 1 [] x g (omega arith) (omega arith)
      (omega arith)
