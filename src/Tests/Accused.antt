-- ===== src/Tests/Accused.antt =====
-- A producer with two blocks for one slot, and the canonical chain behind them.
use l1_chain.Base.{List, ℕ, [], ◌∷◌, ◌≡◌, refl, arith, true, false, some}
use l1_chain.Base.Outcome.{ok}
use l1_chain.Consensus.Chain.{
  ChainEntry, ChainState, EquivocationProof, genesis_chain, genesis_entry, add_block, get_entry,
  proof_of,
}
use l1_chain.Consensus.Chain.Sound.{Reach, start, add}
use l1_chain.Consensus.Chain.Evidence.{Proves}
use l1_chain.Consensus.Chain.Listing.{canonical_chain, chain_density}
use l1_chain.Consensus.Chain.Canonical.{Climbs, canonical_chain-Climbs}
use l1_chain.Consensus.Chain.Accused.{proof_of-Proves, proof_of-blocks}

abbrev twin : ℕ → ChainEntry
twin h = record { hash = h; parent_hash = 0; height = 1; slot = 4; producer_key_hash = 9 }

abbrev honest_state : ChainState
honest_state = record {
  entries = twin 5 ∷ genesis_entry ∷ [];
  tip = 5;
  k_finality = 1;
  final_hash = 0;
  final_height = 0;
  slot_producers = record { slot = 4; producer = 9; block = 5 } ∷ [];
  equivocations = [];
}

abbrev the_proof : EquivocationProof
the_proof = record { slot = 4; producer_key_hash = 9; first = 5; second = 6 }

abbrev accused_state : ChainState
accused_state = record {
  entries = twin 6 ∷ twin 5 ∷ genesis_entry ∷ [];
  tip = 5;
  k_finality = 1;
  final_hash = 0;
  final_height = 0;
  slot_producers = record { slot = 4; producer = 9; block = 5 } ∷ [];
  equivocations = the_proof ∷ [];
}

first_twin : add_block (genesis_chain 1) (twin 5) ≡ ok (true, honest_state)
unfolding add_block genesis_chain
first_twin = refl

second_twin : add_block honest_state (twin 6) ≡ ok (false, accused_state)
unfolding add_block
second_twin = refl

reached : Reach 1 accused_state
reached = add (add start (twin 5) true first_twin) (twin 6) false second_twin

on_record : proof_of accused_state.equivocations 4 9 ≡ some the_proof
unfolding proof_of
on_record = refl

known5 : get_entry accused_state.entries 5 ≡ some (twin 5)
unfolding get_entry
known5 = refl

known6 : get_entry accused_state.entries 6 ≡ some (twin 6)
unfolding get_entry
known6 = refl

proof_of-Proves_example : Proves accused_state.entries 4 9 the_proof
proof_of-Proves_example = proof_of-Proves reached 4 9 the_proof on_record

proof_of-blocks_example :
    (p : EquivocationProof) × (proof_of accused_state.equivocations 4 9 ≡ some p)
    × Proves accused_state.entries 4 9 p
proof_of-blocks_example =
    proof_of-blocks reached 5 6 (twin 5) (twin 6) known5 known6 (omega arith) (omega arith)
      (omega arith) refl refl

both_listed : canonical_chain accused_state ≡ ok (genesis_entry ∷ twin 5 ∷ [])
unfolding canonical_chain
both_listed = refl

dense : chain_density accused_state 6 100 ≡ ok 1
unfolding chain_density
dense = refl

canonical_chain-Climbs_example :
    (xs : List ChainEntry) × (canonical_chain accused_state ≡ ok (genesis_entry ∷ xs))
    × Climbs accused_state.entries accused_state.tip genesis_entry xs
canonical_chain-Climbs_example = canonical_chain-Climbs reached (omega arith)
