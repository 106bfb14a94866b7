-- ===== src/Consensus/Chain/Accused.antt =====
-- crates/qv-consensus/src/chain_state.rs: evidence is on record against a producer exactly if it has
-- made two known blocks for a slot.
use l1_chain.Base.{
  ℕ, ◌≡◌, ◌≢◌, arith, ◌∷◌, false, Bool-cases, inl, inr, ◌==◌, Option, none, some, refl, ap, ◌∙◌,
  sym, subst, Option-cases, some_inj,
}
use l1_chain.Consensus.Chain.{
  ChainEntry, ChainState, EquivocationProof, get_entry, first_block, proof_of, add_proof,
  record_equivocation, genesis_chain, new_chain,
}
use l1_chain.Consensus.Chain.Walk.{rank, rank_pos}
use l1_chain.Consensus.Chain.Step.{indexed}
use l1_chain.Consensus.Chain.Sound.{Reach, start, add, add_block-Added, get_entry_self}
use l1_chain.Consensus.Chain.Invariant.{Reach-IsSound}
use l1_chain.Consensus.Chain.Evidence.{
  Proves, HasProof, Evidence, Made-grow, proof_of-cons, HasProof-cons, HasProof-self,
  Evidence-first, Evidence-again,
}

-- The proof that `record_equivocation` adds
proof_for : ChainEntry → ℕ → EquivocationProof
proof_for e f = record {
  slot = e.slot;
  producer_key_hash = e.producer_key_hash;
  first = f;
  second = e.hash;
}

module _ (s : ChainState) (e : ChainEntry) (fresh : rank s.entries e.hash ≡ 0)
    (v : Evidence s.entries s.slot_producers s.equivocations) where
  proof_for-Proves :
      (f : ℕ)
      → first_block s.slot_producers e.slot e.producer_key_hash ≡ some f
      → (f ≢ e.hash) × Proves (e ∷ s.entries) e.slot e.producer_key_hash (proof_for e f)
  unfolding proof_for
  proof_for-Proves f first =
      let made = v.firsts e.slot e.producer_key_hash f first in
      let (x, g, a, b) = made in
      let apart : f ≢ e.hash = λ q.
        let known = rank_pos s.entries f x g in absurd (omega (arith, ap (rank s.entries) q)) in
      (
        apart,
        (
          apart,
          refl,
          refl,
          Made-grow e s.entries e.slot e.producer_key_hash f fresh made,
          (e, get_entry_self e s.entries, refl, refl),
        ),
      )

  old_proofs :
      (slot producer : ℕ) (p : EquivocationProof)
      → proof_of s.equivocations slot producer ≡ some p
      → Proves (e ∷ s.entries) slot producer p
  old_proofs slot producer p g =
      let (apart, a, b, m1, m2) = v.proofs slot producer p g in
      (
        apart,
        a,
        b,
        Made-grow e s.entries slot producer p.first fresh m1,
        Made-grow e s.entries slot producer p.second fresh m2,
      )

  added_proof :
      (f : ℕ)
      → first_block s.slot_producers e.slot e.producer_key_hash ≡ some f
      → Evidence (e ∷ s.entries) s.slot_producers (add_proof s.equivocations (proof_for e f))
  unfolding add_proof proof_for
  added_proof f first = elim (Option-cases (proof_of s.equivocations e.slot e.producer_key_hash)) [
    | inr (p, known) ↦
        rw (known, add_proof)
          (Evidence-again e s.entries s.slot_producers s.equivocations s.equivocations f fresh first
            v (p, known) (λ slot producer h. h) old_proofs)
    | inl nothing ↦
        let q = proof_for e f in
        rw (nothing, add_proof)
          (Evidence-again e s.entries s.slot_producers s.equivocations (q ∷ s.equivocations) f fresh
            first v (HasProof-self q s.equivocations) (HasProof-cons q s.equivocations)
            (λ slot producer p g. elim (proof_of-cons q s.equivocations slot producer p g) [
              | inr old ↦ old_proofs slot producer p old
              | inl (a, b, at) ↦ subst (Proves (e ∷ s.entries) slot producer) at (
                  subst (λ t. Proves (e ∷ s.entries) t producer q) a
                    (subst (λ t. Proves (e ∷ s.entries) e.slot t q) b (proof_for-Proves f first).1))
            ]))
  ]

  indexed-Evidence :
      Evidence (e ∷ s.entries) (indexed s e).slot_producers (indexed s e).equivocations
  unfolding record_equivocation proof_for
  indexed-Evidence = elim (Option-cases (first_block s.slot_producers e.slot e.producer_key_hash)) [
    | inl new ↦
        rw (new, record_equivocation)
          (Evidence-first e s.entries s.slot_producers s.equivocations fresh new v)
    | inr (f, first) ↦
        let apart : (f == e.hash) ≡ false = ground (arith, (proof_for-Proves f first).0) in
        rw (first, record_equivocation) (rw (apart, record_equivocation) (added_proof f first))
  ]

genesis-Evidence :
    (k : ℕ)
    → Evidence
        (genesis_chain k).entries
        (genesis_chain k).slot_producers
        (genesis_chain k).equivocations
unfolding genesis_chain new_chain first_block proof_of get_entry
genesis-Evidence k = record {
  firsts = λ slot producer h g. absurd (ground (arith, g));
  listed = λ h x g apart. elim (Bool-cases (0 == h)) [
    | inl hit ↦ absurd (ground (arith, hit, apart))
    | inr miss ↦
        let gone : ◌≡◌ {A = Option ChainEntry} none (some x) = rw miss at g in
        absurd (ground (arith, gone))
  ];
  proofs = λ slot producer p g. absurd (ground (arith, g));
}

Reach-Evidence :
    {k : ℕ} {s : ChainState} → Reach k s → Evidence s.entries s.slot_producers s.equivocations
Reach-Evidence {k} start = genesis-Evidence k
Reach-Evidence (add {s} {s'} r e b made) =
    let step = add_block-Added s e b s' (Reach-IsSound r) made in
    let v = indexed-Evidence s e step.fresh (Reach-Evidence r) in
    subst (λ x. Evidence x s'.slot_producers s'.equivocations) (sym step.entries_eq)
      (subst (λ x. Evidence (e ∷ s.entries) x s'.equivocations) (sym step.producers_eq)
        (subst (λ x. Evidence (e ∷ s.entries) (indexed s e).slot_producers x)
          (sym step.equivocations_eq) v))

-- In every state that `genesis` and accepted blocks lead to, an equivocation proof on record for a
-- slot and a producer names two different known blocks of that producer for that slot.
pub proof_of-Proves :
    {k : ℕ} {s : ChainState}
    → Reach k s
    → (slot producer : ℕ) (p : EquivocationProof) → proof_of s.equivocations slot producer ≡ some p
    → Proves s.entries slot producer p
proof_of-Proves r = (Reach-Evidence r).proofs

recorded :
    {k : ℕ} {s : ChainState}
    → Reach k s
    → (slot producer : ℕ) → HasProof s.equivocations slot producer
    → (p : EquivocationProof) × (proof_of s.equivocations slot producer ≡ some p)
      × Proves s.entries slot producer p
recorded r slot producer (p, g) = (p, g, proof_of-Proves r slot producer p g)

-- In every state that `genesis` and accepted blocks lead to, when two known blocks with different
-- hashes other than zero have the same slot and producer, an equivocation proof is on record for
-- them, and it names two different known blocks of that producer for that slot.
pub proof_of-blocks :
    {k : ℕ} {s : ChainState}
    → Reach k s
    → (h1 h2 : ℕ) (x1 x2 : ChainEntry) → get_entry s.entries h1 ≡ some x1
    → get_entry s.entries h2 ≡ some x2
    → h1 ≢ 0
    → h2 ≢ 0
    → h1 ≢ h2
    → x1.slot ≡ x2.slot
    → x1.producer_key_hash ≡ x2.producer_key_hash
    → (p : EquivocationProof) × (proof_of s.equivocations x1.slot x1.producer_key_hash ≡ some p)
      × Proves s.entries x1.slot x1.producer_key_hash p
proof_of-blocks {k} {s} r h1 h2 x1 x2 g1 g2 n1 n2 apart slot producer =
    let v = Reach-Evidence r in
    let (f1, first1, why1) = v.listed h1 x1 g1 n1 in
    let (f2, first2, why2) = v.listed h2 x2 g2 n2 in
    let back : x2.slot ≡ x1.slot = sym slot in
    let back_producer : x2.producer_key_hash ≡ x1.producer_key_hash = sym producer in
    let same : f1 ≡ f2 = some_inj (
      sym first1
      ∙ ap (λ t. first_block s.slot_producers t x1.producer_key_hash) slot
      ∙ ap (first_block s.slot_producers x2.slot) producer
      ∙ first2) in
    elim why1 [
      | inr found ↦ recorded r x1.slot x1.producer_key_hash found
      | inl is_h1 ↦ elim why2 [
        | inl is_h2 ↦ absurd (apart (sym is_h1 ∙ same ∙ is_h2))
        | inr found ↦ recorded r x1.slot x1.producer_key_hash (
            subst (λ t. HasProof s.equivocations t x1.producer_key_hash) back
              (subst (λ t. HasProof s.equivocations x2.slot t) back_producer found))
      ]
    ]
