-- ===== src/Consensus/Chain/Step.antt =====
-- crates/qv-consensus/src/chain_state.rs: what an accepted call of `add_block` has done.
use l1_chain.Base.{
  ℕ, suc, ◌+◌, ◌-◌, ◌≤◌, ◌<◌, ◌≡◌, arith, List, ◌∷◌, Bool, true, false, Bool-cases, inl, inr, ◌==◌,
  ◌&&◌, ◌||◌, not, leb, ltb, if◌then◌else◌, length, some, none, refl, ap, sym, ◌⊎◌, Option-cases,
  ◌∙◌, the,
}
use l1_chain.Base.Outcome.{Outcome, ok, err, ◌>>=◌, >>=-eq-ok, ok_inj}
use l1_chain.Consensus.Chain.{
  ChainEntry, ChainError, ChainState, get_entry, contains_entry, tip_entry, tip_height, is_ancestor,
  final_loop, set_final, advance_finality, record_equivocation, choose_tip, insert_block, add_block,
  zero_hash,
}
use l1_chain.Consensus.Chain.Walk.{
  rank, rank-none, rank_pos, ParentPath, Ordered, ancestor_loop-ParentPath,
  ParentPath-ancestor_loop, final_loop-ParentPath, rank-le,
}

-- The state behind step 4 of `add_block`
abbrev pub indexed : ChainState → ChainEntry → ChainState
indexed s e =
    record_equivocation (record s { entries = e ∷ s.entries }) e.slot e.producer_key_hash e.hash

-- `record_equivocation` writes nothing but its two indexes.
pub record_equivocation-kept :
    (s : ChainState) (slot producer h : ℕ)
    → let s' = record_equivocation s slot producer h in
      (s'.entries ≡ s.entries)
      × (s'.tip ≡ s.tip)
      × (s'.k_finality ≡ s.k_finality)
      × (s'.final_hash ≡ s.final_hash)
      × (s'.final_height ≡ s.final_height)
unfolding record_equivocation
record_equivocation-kept s slot producer h = ground arith

-- A known block with all its ancestors above height `t` up to `a`: what `is_ancestor` tells
pub is_ancestor-ParentPath :
    (s : ChainState) (a d : ℕ)
    → is_ancestor s a d ≡ ok true
    → (e : ChainEntry) × (get_entry s.entries a ≡ some e) × ParentPath s.entries a e.height d
unfolding is_ancestor
is_ancestor-ParentPath s a d h = elim (Option-cases (get_entry s.entries a)) [
  | inl unknown ↦ absurd (ground arith)
  | inr (e, g) ↦ (
    e,
    g,
    ancestor_loop-ParentPath (suc (length s.entries)) s.entries a e.height d (ground arith),
  )
]

pub ParentPath-is_ancestor :
    (s : ChainState) (a d : ℕ) (e : ChainEntry)
    → Ordered s.entries
    → get_entry s.entries a ≡ some e
    → ParentPath s.entries a e.height d
    → is_ancestor s a d ≡ ok true
unfolding is_ancestor
ParentPath-is_ancestor s a d e sorted g p =
    rw (g, is_ancestor)
      (ParentPath-ancestor_loop (suc (length s.entries)) sorted p
        (omega (arith, rank-le s.entries d)))

-- What an accepted block has passed, and what is left to do for it
pub record Accepted (s : ChainState) (e : ChainEntry) (b : Bool) (s' : ChainState) : Type 0 where
  pub fresh : rank s.entries e.hash ≡ 0
  pub linked :
      (e.hash ≡ 0)
      ⊎ ((0 < rank s.entries e.parent_hash) × (is_ancestor s s.final_hash e.parent_hash ≡ ok true))
  pub chosen : choose_tip (indexed s e) e.height e.hash ≡ ok (b, s')

pub contains_entry-rank : (es : List ChainEntry) (h : ℕ) → contains_entry es h ≡ ltb 0 (rank es h)
unfolding contains_entry
contains_entry-rank es h = elim (Option-cases (get_entry es h)) [
  | inl g ↦ rw (g, contains_entry) (rw (rank-none es h g) refl)
  | inr (e, g) ↦ let known = rank_pos es h e g in rw (g, contains_entry) (ground arith)
]

pub add_block-Accepted :
    (s : ChainState) (e : ChainEntry) (b : Bool) (s' : ChainState)
    → add_block s e ≡ ok (b, s')
    → Accepted s e b s'
unfolding add_block insert_block
add_block-Accepted s e b s' h =
    elim (Bool-cases (not (contains_entry s.entries e.parent_hash) && not (e.hash == zero_hash))) [
      | inl orphan ↦ absurd (ground arith)
      | inr parent ↦ elim (Bool-cases (contains_entry s.entries e.hash)) [
        | inl known ↦ absurd (ground arith)
        | inr new ↦
            let fresh : rank s.entries e.hash ≡ 0 =
              ground (arith, contains_entry-rank s.entries e.hash) in
            elim (Bool-cases (e.hash == zero_hash)) [
              | inl z ↦ record { fresh = fresh; linked = inl (ground arith); chosen = ground arith }
              | inr other ↦
                  let (d, dec, rest) =
                    >>=-eq-ok (is_ancestor s s.final_hash e.parent_hash)
                      (λ descends. if descends then insert_block s e else err _)
                      (rw (parent, new, other) at h) in
                  elim (Bool-cases d) [
                    | inl yes_ ↦ record {
                      fresh = fresh;
                      linked = inr (
                        ground (arith, contains_entry-rank s.entries e.parent_hash),
                        dec ∙ ap (λ x. ok x) yes_,
                      );
                      chosen = ground arith;
                    }
                    | inr no_ ↦ absurd (ground arith)
                  ]
            ]
      ]
    ]

-- The block is better than the best one so far, by height and then by hash.
abbrev pub Better : ℕ → ℕ → ℕ → ℕ → Type 0
Better height h best tip = (best < height) ⊎ ((height ≡ best) × (h < tip))

abbrev pub NotBetter : ℕ → ℕ → ℕ → ℕ → Type 0
NotBetter height h best tip = (height < best) ⊎ ((height ≡ best) × (tip ≤ h))

abbrev pub Chosen : ChainState → ℕ → ℕ → Bool → ChainState → ChainEntry → Type 0
Chosen s height h b s' t =
    ((b ≡ true)
      × Better height h t.height s.tip
      × (advance_finality (record s { tip = h }) ≡ ok s'))
    ⊎ ((b ≡ false) × NotBetter height h t.height s.tip × (s' ≡ s))

pub choose_tip-Chosen :
    (s : ChainState) (height h : ℕ) (b : Bool) (s' : ChainState)
    → choose_tip s height h ≡ ok (b, s')
    → (t : ChainEntry) × (get_entry s.entries s.tip ≡ some t) × Chosen s height h b s' t
unfolding choose_tip
choose_tip-Chosen s height h b s' made = elim (Option-cases (get_entry s.entries s.tip)) [
  | inl g ↦ absurd (ground arith)
  | inr (t, g) ↦
      let opened : ◌≡◌ {A = Outcome {0, 0} ChainError (Bool × ChainState)}
          (if ltb t.height height || ((height == t.height) && ltb h s.tip)
            then (advance_finality (record s { tip = h }) >>= λ moved. ok (true, moved))
            else ok (false, s))
          (ok (b, s')) =
        rw (g, choose_tip, tip_height, tip_entry) at made in
      elim (Bool-cases (ltb t.height height || ((height == t.height) && ltb h s.tip))) [
        | inl better ↦
            let (moved, step, same) =
              >>=-eq-ok (advance_finality (record s { tip = h }))
                (λ x. the (Outcome {0, 0} ChainError (Bool × ChainState)) (ok (true, x)))
                (rw better at opened) in
            let pairs : (true, moved) ≡ (b, s') = ok_inj same in
            let changed : b ≡ true = sym (ap (λ (x : Bool × ChainState). x.0) pairs) in
            let to : moved ≡ s' = ap (λ (x : Bool × ChainState). x.1) pairs in
            (t, g, inl (changed, ground arith, step ∙ ap (λ x. ok x) to))
        | inr worse ↦
            let same : ◌≡◌ {A = Outcome {0, 0} ChainError (Bool × ChainState)} (ok (false, s))
                (ok (b, s')) =
              rw worse at opened in
            (t, g, inr (cc, ground arith, cc))
      ]
]

-- Why the finalized point stays: it is near enough to the tip, or the walk found no block.
abbrev pub Idle : ChainState → ChainEntry → Type 0
Idle s t =
    (t.height ≤ s.final_height + s.k_finality)
    ⊎ (final_loop (suc (length s.entries)) s.entries (t.height - s.k_finality) s.tip ≡ ok none)

-- The finalized point moved up to the target on the walk from the tip, or nothing changed.
pub data Advanced (s s' : ChainState) : Type 0 where
  stays : (t : ChainEntry) → get_entry s.entries s.tip ≡ some t → Idle s t → s' ≡ s → Advanced s s'
  moves :
      (t e : ChainEntry) (f target : ℕ)
      → get_entry s.entries s.tip ≡ some t
      → target + s.k_finality ≡ t.height
      → s.final_height < target
      → ParentPath s.entries f target s.tip
      → get_entry s.entries f ≡ some e
      → e.height ≡ target
      → s' ≡ set_final s (some (f, target))
      → Advanced s s'

pub advance_finality-Advanced : (s s' : ChainState) → advance_finality s ≡ ok s' → Advanced s s'
unfolding advance_finality
advance_finality-Advanced s s' made = elim (Option-cases (get_entry s.entries s.tip)) [
  | inl g ↦ absurd (ground arith)
  | inr (t, g) ↦ elim (Bool-cases (ltb t.height s.k_finality)) [
    | inl short ↦ stays t g (inl (ground arith)) (ground arith)
    | inr long ↦ elim (Bool-cases (leb (t.height - s.k_finality) s.final_height)) [
      | inl old ↦ stays t g (inl (ground arith)) (ground arith)
      | inr due ↦
          let (found, walk, same) =
            >>=-eq-ok
              (final_loop (suc (length s.entries)) s.entries (t.height - s.k_finality) s.tip)
              (λ x. ok (set_final s x))
              (rw (due, advance_finality) at
                (rw (long, advance_finality) at
                  (rw (g, advance_finality, tip_height, tip_entry) at made))) in
          let target = t.height - s.k_finality in
          elim (Option-cases found) [
            | inl nothing ↦
                stays t g (inr (walk ∙ ap (λ x. ok x) nothing))
                  (sym (ok_inj same) ∙ ap (set_final s) nothing)
            | inr ((f, height), something) ↦
                let (at_target, p, e, ge, he) =
                  final_loop-ParentPath (suc (length s.entries)) s.entries target s.tip f height
                    (walk ∙ ap (λ x. ok x) something) in
                moves t e f target g (ground arith) (ground arith) p ge he (
                  sym (ok_inj same)
                  ∙ ap (set_final s) something
                  ∙ ap (λ x. set_final s (some (f, x))) at_target)
          ]
    ]
  ]
]
