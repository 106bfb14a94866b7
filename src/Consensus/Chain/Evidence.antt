-- ===== src/Consensus/Chain/Evidence.antt =====
-- crates/qv-consensus/src/chain_state.rs: the evidence against producers that made two blocks for a
-- slot.
use l1_chain.Base.{
  ℕ, ◌≡◌, ◌≢◌, arith, List, ◌∷◌, ◌&&◌, Bool-cases, inl, inr, ◌==◌, none, some, refl, ap, ◌∙◌, sym,
  subst, ◌⊎◌, some_inj,
}
use l1_chain.Consensus.Chain.{
  ChainEntry, EquivocationProof, Produced, get_entry, first_block, proof_of,
}
use l1_chain.Consensus.Chain.Walk.{rank, get_entry-grow}
use l1_chain.Consensus.Chain.Sound.{get_entry_self}
use l1_chain.Consensus.Chain.Invariant.{get_entry-cons}

-- A known block of the producer for the slot
abbrev pub Made : List ChainEntry → ℕ → ℕ → ℕ → Type 0
Made es slot producer h =
    (x : ChainEntry) × (get_entry es h ≡ some x)
    × (x.slot ≡ slot)
    × (x.producer_key_hash ≡ producer)

-- A proof names two different known blocks of its producer for its slot.
abbrev pub Proves : List ChainEntry → ℕ → ℕ → EquivocationProof → Type 0
Proves es slot producer p =
    (p.first ≢ p.second)
    × (p.slot ≡ slot)
    × (p.producer_key_hash ≡ producer)
    × Made es slot producer p.first
    × Made es slot producer p.second

abbrev pub HasProof : List EquivocationProof → ℕ → ℕ → Type 0
HasProof qs slot producer = (p : EquivocationProof) × (proof_of qs slot producer ≡ some p)

pub record Evidence (es : List ChainEntry) (ps : List Produced) (qs : List EquivocationProof)
    : Type 0 where
  pub firsts :
      (slot producer h : ℕ) → first_block ps slot producer ≡ some h → Made es slot producer h
  pub listed :
      (h : ℕ) (x : ChainEntry)
      → get_entry es h ≡ some x
      → h ≢ 0
      → (f : ℕ) × (first_block ps x.slot x.producer_key_hash ≡ some f)
        × ((f ≡ h) ⊎ HasProof qs x.slot x.producer_key_hash)
  pub proofs :
      (slot producer : ℕ) (p : EquivocationProof)
      → proof_of qs slot producer ≡ some p
      → Proves es slot producer p

pub Made-grow :
    (e : ChainEntry) (es : List ChainEntry) (slot producer h : ℕ)
    → rank es e.hash ≡ 0
    → Made es slot producer h
    → Made (e ∷ es) slot producer h
Made-grow e es slot producer h fresh (x, g, a, b) = (x, get_entry-grow e es h x fresh g, a, b)

first_block-cons :
    (q : Produced) (ps : List Produced) (slot producer h : ℕ)
    → first_block (q ∷ ps) slot producer ≡ some h
    → ((q.slot ≡ slot) × (q.producer ≡ producer) × (q.block ≡ h))
      ⊎ (first_block ps slot producer ≡ some h)
unfolding first_block
first_block-cons q ps slot producer h g =
    elim (Bool-cases ((q.slot == slot) && (q.producer == producer))) [
      | inl hit ↦ inl (ground (arith, hit), ground (arith, hit), some_inj (rw hit at g))
      | inr miss ↦ inr (rw miss at g)
    ]

first_block_self :
    (q : Produced) (ps : List Produced) → first_block (q ∷ ps) q.slot q.producer ≡ some q.block
unfolding first_block
first_block_self q ps = ground arith

first_block-grow :
    (q : Produced) (ps : List Produced) (slot producer f : ℕ)
    → first_block ps q.slot q.producer ≡ none
    → first_block ps slot producer ≡ some f
    → first_block (q ∷ ps) slot producer ≡ some f
unfolding first_block
first_block-grow q ps slot producer f new g =
    elim (Bool-cases ((q.slot == slot) && (q.producer == producer))) [
      | inl hit ↦
          let same_slot : q.slot ≡ slot = ground (arith, hit) in
          let same_producer : q.producer ≡ producer = ground (arith, hit) in
          let clash : first_block ps slot producer ≡ none =
            ap (λ t. first_block ps t producer) (sym same_slot)
            ∙ ap (first_block ps q.slot) (sym same_producer)
            ∙ new in
          cc
      | inr miss ↦ rw miss g
    ]

pub proof_of-cons :
    (q : EquivocationProof) (qs : List EquivocationProof) (slot producer : ℕ)
    (p : EquivocationProof)
    → proof_of (q ∷ qs) slot producer ≡ some p
    → ((q.slot ≡ slot) × (q.producer_key_hash ≡ producer) × (q ≡ p))
      ⊎ (proof_of qs slot producer ≡ some p)
unfolding proof_of
proof_of-cons q qs slot producer p g =
    elim (Bool-cases ((q.slot == slot) && (q.producer_key_hash == producer))) [
      | inl hit ↦ inl (ground (arith, hit), ground (arith, hit), some_inj (rw hit at g))
      | inr miss ↦ inr (rw miss at g)
    ]

pub HasProof-cons :
    (q : EquivocationProof) (qs : List EquivocationProof) (slot producer : ℕ)
    → HasProof qs slot producer
    → HasProof (q ∷ qs) slot producer
unfolding proof_of
HasProof-cons q qs slot producer (p, g) =
    elim (Bool-cases ((q.slot == slot) && (q.producer_key_hash == producer))) [
      | inl hit ↦ (q, rw hit refl)
      | inr miss ↦ (p, rw miss g)
    ]

pub HasProof-self :
    (q : EquivocationProof) (qs : List EquivocationProof)
    → HasProof (q ∷ qs) q.slot q.producer_key_hash
unfolding proof_of
HasProof-self q qs = (q, ground arith)

-- The new block is the first of its producer for its slot.
pub Evidence-first :
    (e : ChainEntry) (es : List ChainEntry) (ps : List Produced) (qs : List EquivocationProof)
    → rank es e.hash ≡ 0
    → first_block ps e.slot e.producer_key_hash ≡ none
    → Evidence es ps qs
    → Evidence
        (e ∷ es)
        (record { slot = e.slot; producer = e.producer_key_hash; block = e.hash } ∷ ps)
        qs
Evidence-first e es ps qs fresh new v =
    let q : Produced = record { slot = e.slot; producer = e.producer_key_hash; block = e.hash } in
    record {
      firsts = λ slot producer h g. elim (first_block-cons q ps slot producer h g) [
        | inl (a, b, at) ↦ (e, ap (get_entry (e ∷ es)) (sym at) ∙ get_entry_self e es, a, b)
        | inr old ↦ Made-grow e es slot producer h fresh (v.firsts slot producer h old)
      ];
      listed = λ h x g apart. elim (get_entry-cons e es h x g) [
        | inl (at, is_e) ↦ (
          e.hash,
          subst (λ (y : ChainEntry). first_block (q ∷ ps) y.slot y.producer_key_hash ≡ some e.hash)
              (sym is_e) (first_block_self q ps),
          inl at,
        )
        | inr old ↦
            let (f, gf, why) = v.listed h x old apart in
            (f, first_block-grow q ps x.slot x.producer_key_hash f new gf, why)
      ];
      proofs = λ slot producer p g.
          let (apart, a, b, m1, m2) = v.proofs slot producer p g in
          (
            apart,
            a,
            b,
            Made-grow e es slot producer p.first fresh m1,
            Made-grow e es slot producer p.second fresh m2,
          );
    }

-- The producer already has a block for the slot, and a proof is on record.
pub Evidence-again :
    (e : ChainEntry) (es : List ChainEntry) (ps : List Produced) (qs qs' : List EquivocationProof)
    (f : ℕ)
    → rank es e.hash ≡ 0
    → first_block ps e.slot e.producer_key_hash ≡ some f
    → Evidence es ps qs
    → HasProof qs' e.slot e.producer_key_hash
    → ((slot producer : ℕ) → HasProof qs slot producer → HasProof qs' slot producer)
    → ((slot producer : ℕ) (p : EquivocationProof)
        → proof_of qs' slot producer ≡ some p
        → Proves (e ∷ es) slot producer p)
    → Evidence (e ∷ es) ps qs'
Evidence-again e es ps qs qs' f fresh first v proven kept_proofs proves = record {
  firsts = λ slot producer h g. Made-grow e es slot producer h fresh (v.firsts slot producer h g);
  listed = λ h x g apart. elim (get_entry-cons e es h x g) [
    | inl (at, is_e) ↦ (
      f,
      subst (λ (y : ChainEntry). first_block ps y.slot y.producer_key_hash ≡ some f) (sym is_e)
          first,
      inr (subst (λ (y : ChainEntry). HasProof qs' y.slot y.producer_key_hash) (sym is_e) proven),
    )
    | inr old ↦
        let (f', gf, why) = v.listed h x old apart in
        (
          f',
          gf,
          elim why [
            | inl is_first ↦ inl is_first
            | inr has ↦ inr (kept_proofs x.slot x.producer_key_hash has)
          ],
        )
  ];
  proofs = proves;
}
