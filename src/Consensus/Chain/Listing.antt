-- ===== src/Consensus/Chain/Listing.antt =====
-- crates/qv-consensus/src/chain_state.rs: the operations of `ChainState` that list blocks. The
-- capacity that `ancestors` asks for is in references of 8 bytes.
use l1_chain.Base.{
  ℕ, zero, suc, ◌-◌, ◌*◌, ◌^◌, List, [], ◌∷◌, ltb, ◌==◌, if◌then◌else◌, none, some, length, reverse,
}
use l1_chain.Base.Outcome.{Outcome, ok, panic, ◌>>=◌}
use l1_chain.Consensus.Chain.{ChainEntry, ChainError, ChainState, get_entry}

-- The loop of `ancestors`
unfoldable pub ancestors_loop : ℕ → List ChainEntry → ℕ → List ChainEntry
unfolding get_entry
ancestors_loop zero es current = []
ancestors_loop (suc count) es current = elim (get_entry es current) [
  | none ↦ []
  | some e ↦ if current == e.parent_hash then e ∷ [] else e ∷ ancestors_loop count es e.parent_hash
]

-- `ChainState::ancestors`
unfoldable pub ancestors : ChainState → ℕ → ℕ → Outcome ChainError (List ChainEntry)
unfolding ancestors_loop
ancestors s h count =
    if ltb (2 ^ 63 - 1) (count * 8) then panic else ok (ancestors_loop count s.entries h)

-- `ChainState::canonical_chain`
unfoldable pub canonical_chain : ChainState → Outcome ChainError (List ChainEntry)
unfolding ancestors
canonical_chain s = ancestors s s.tip (length s.entries) >>= λ chain. ok (reverse chain)

-- `filter(|e| e.slot > min_slot).count()`
unfoldable pub count_after : ℕ → List ChainEntry → ℕ
count_after min_slot [] = 0
count_after min_slot (e ∷ es) =
    let rest = count_after min_slot es in if ltb min_slot e.slot then suc rest else rest

-- `ChainState::chain_density`
unfoldable pub chain_density : ChainState → ℕ → ℕ → Outcome ChainError ℕ
unfolding get_entry ancestors count_after
chain_density s tip_hash window = elim (get_entry s.entries tip_hash) [
  | none ↦ ok 0
  | some e ↦ ancestors s tip_hash window >>= λ found. ok (count_after (e.slot - window) found)
]
