-- ===== src/Consensus/Chain.antt =====
-- crates/qv-consensus/src/chain_state.rs: the block index with fork choice and finality. A 32-byte
-- hash is the number that its bytes write, the most significant first: `==` and `<` are the same on
-- both. A `BTreeMap` is a list in which the newest binding of a key comes first. The walks along the
-- parent links run on fuel, one round for each entry and one more.
pub mod Walk
pub mod Step
pub mod Sound
pub mod Invariant
pub mod Total
pub mod Finality
pub mod Progress
pub mod Evidence
pub mod Accused
pub mod Listing
pub mod Canonical
use l1_chain.Base.{
  ℕ, zero, suc, ◌-◌, List, [], ◌∷◌, Bool, true, false, ◌&&◌, ◌||◌, not, ltb, leb, ◌==◌,
  if◌then◌else◌, Option, none, some, length,
}
use l1_chain.Base.Outcome.{Outcome, ok, err, panic, diverge, ◌>>=◌}

pub record ChainEntry : Type 0 where
  pub hash : ℕ
  pub parent_hash : ℕ
  pub height : ℕ
  pub slot : ℕ
  pub producer_key_hash : ℕ

-- Its key in the map, `(slot, producer_key_hash)`, is in its fields.
pub record EquivocationProof : Type 0 where
  pub slot : ℕ
  pub producer_key_hash : ℕ
  pub first : ℕ
  pub second : ℕ

pub data ChainError : Type 0 where
  unknown_parent : ℕ → ChainError
  duplicate_block : ℕ → ChainError
  conflicts_with_finalized : ℕ → ℕ → ChainError

-- An entry of `slot_producers`: the key `(slot, producer)` and the first block for it
pub record Produced : Type 0 where
  pub slot : ℕ
  pub producer : ℕ
  pub block : ℕ

-- `entries` is keyed by the entries' own hashes.
pub record ChainState : Type 0 where
  pub entries : List ChainEntry
  pub tip : ℕ
  pub k_finality : ℕ
  pub final_hash : ℕ
  pub final_height : ℕ
  pub slot_producers : List Produced
  pub equivocations : List EquivocationProof

-- `BlockHash::ZERO`
abbrev pub zero_hash : ℕ
zero_hash = 0

-- `ChainState::new`
unfoldable pub new_chain : ChainEntry → ℕ → ChainState
new_chain genesis k = record {
  entries = genesis ∷ [];
  tip = genesis.hash;
  k_finality = k;
  final_hash = genesis.hash;
  final_height = genesis.height;
  slot_producers = [];
  equivocations = [];
}

abbrev pub genesis_entry : ChainEntry
genesis_entry = record {
  hash = zero_hash;
  parent_hash = zero_hash;
  height = 0;
  slot = 0;
  producer_key_hash = zero_hash;
}

-- `ChainState::genesis`, of `params.k_finality`
unfoldable pub genesis_chain : ℕ → ChainState
unfolding new_chain
genesis_chain k = new_chain genesis_entry k

-- `self.entries.get(hash)`
unfoldable pub get_entry : List ChainEntry → ℕ → Option ChainEntry
get_entry [] h = none
get_entry (e ∷ es) h = if e.hash == h then some e else get_entry es h

-- `self.entries.contains_key(hash)`
unfoldable pub contains_entry : List ChainEntry → ℕ → Bool
unfolding get_entry
contains_entry es h = elim (get_entry es h) [ none ↦ false | some e ↦ true ]

-- `ChainState::tip`; `expect` panics.
unfoldable pub tip_entry : ChainState → Outcome ChainError ChainEntry
unfolding get_entry
tip_entry s = elim (get_entry s.entries s.tip) [ none ↦ panic | some e ↦ ok e ]

-- `ChainState::tip_height`
unfoldable pub tip_height : ChainState → Outcome ChainError ℕ
unfolding tip_entry
tip_height s = tip_entry s >>= λ e. ok e.height

-- The loop of `is_ancestor`
unfoldable pub ancestor_loop : ℕ → List ChainEntry → ℕ → ℕ → ℕ → Outcome ChainError Bool
unfolding get_entry
ancestor_loop zero es ancestor target_height current = diverge
ancestor_loop (suc fuel) es ancestor target_height current =
    if current == ancestor then ok true else elim (get_entry es current) [
      | none ↦ ok false
      | some e ↦
          let rest = ancestor_loop fuel es ancestor target_height e.parent_hash in
          if leb e.height target_height
          then ok false
          else if current == e.parent_hash
          then ok false
          else rest
    ]

-- `ChainState::is_ancestor`
unfoldable pub is_ancestor : ChainState → ℕ → ℕ → Outcome ChainError Bool
unfolding get_entry ancestor_loop
is_ancestor s ancestor descendant = elim (get_entry s.entries ancestor) [
  | none ↦ ok false
  | some e ↦ ancestor_loop (suc (length s.entries)) s.entries ancestor e.height descendant
]

-- `ChainState::is_final`
unfoldable pub is_final : ChainState → ℕ → Outcome ChainError Bool
unfolding is_ancestor
is_final s h = is_ancestor s h s.final_hash

-- The loop of `advance_finality`: `some` is its `break`, `none` its `return`.
unfoldable pub final_loop : ℕ → List ChainEntry → ℕ → ℕ → Outcome ChainError (Option (ℕ × ℕ))
unfolding get_entry
final_loop zero es target current = diverge
final_loop (suc fuel) es target current = elim (get_entry es current) [
  | none ↦ ok none
  | some e ↦
      let rest = final_loop fuel es target e.parent_hash in
      if e.height == target
      then ok (some (current, e.height))
      else if ltb e.height target || current == e.parent_hash
      then ok none
      else rest
]

unfoldable pub set_final : ChainState → Option (ℕ × ℕ) → ChainState
set_final s none = s
set_final s (some (h, height)) = record s { final_hash = h; final_height = height }

-- `ChainState::advance_finality`
unfoldable pub advance_finality : ChainState → Outcome ChainError ChainState
unfolding tip_height final_loop set_final
advance_finality s = tip_height s >>= λ height.
    if ltb height s.k_finality
    then ok s
    else if leb (height - s.k_finality) s.final_height
    then ok s
    else (final_loop (suc (length s.entries)) s.entries (height - s.k_finality) s.tip >>= λ found.
        ok (set_final s found))

-- `self.slot_producers.get(&key)`
unfoldable pub first_block : List Produced → ℕ → ℕ → Option ℕ
first_block [] slot producer = none
first_block (p ∷ ps) slot producer =
    if (p.slot == slot) && (p.producer == producer)
    then some p.block
    else first_block ps slot producer

-- `self.equivocations.get(&key)`
unfoldable pub proof_of : List EquivocationProof → ℕ → ℕ → Option EquivocationProof
proof_of [] slot producer = none
proof_of (p ∷ ps) slot producer =
    if (p.slot == slot) && (p.producer_key_hash == producer)
    then some p
    else proof_of ps slot producer

-- `self.equivocations.entry(key).or_insert_with(...)`
unfoldable pub add_proof : List EquivocationProof → EquivocationProof → List EquivocationProof
unfolding proof_of
add_proof ps p = elim (proof_of ps p.slot p.producer_key_hash) [ none ↦ p ∷ ps | some q ↦ ps ]

-- `ChainState::record_equivocation`
unfoldable pub record_equivocation : ChainState → ℕ → ℕ → ℕ → ChainState
unfolding first_block add_proof
record_equivocation s slot producer h = elim (first_block s.slot_producers slot producer) [
  | none ↦ record s {
    slot_producers = record { slot = slot; producer = producer; block = h } ∷ s.slot_producers;
  }
  | some f ↦ if f == h then s else record s {
    equivocations =
        add_proof s.equivocations
          (record { slot = slot; producer_key_hash = producer; first = f; second = h });
  }
]

-- Steps 5 and 6 of `add_block`, for the height and the hash of the new block
unfoldable pub choose_tip : ChainState → ℕ → ℕ → Outcome ChainError (Bool × ChainState)
unfolding tip_height advance_finality
choose_tip s height h = tip_height s >>= λ best.
    if ltb best height || ((height == best) && ltb h s.tip)
    then (advance_finality (record s { tip = h }) >>= λ s'. ok (true, s'))
    else ok (false, s)

-- Steps 4 to 6 of `add_block`
unfoldable pub insert_block : ChainState → ChainEntry → Outcome ChainError (Bool × ChainState)
unfolding record_equivocation choose_tip
insert_block s e =
    choose_tip
      (record_equivocation (record s { entries = e ∷ s.entries }) e.slot e.producer_key_hash e.hash)
      e.height e.hash

-- `ChainState::add_block`
unfoldable pub add_block : ChainState → ChainEntry → Outcome ChainError (Bool × ChainState)
unfolding contains_entry is_ancestor insert_block
add_block s e =
    if not (contains_entry s.entries e.parent_hash) && not (e.hash == zero_hash)
    then err (unknown_parent e.parent_hash)
    else if contains_entry s.entries e.hash
    then err (duplicate_block e.hash)
    else if e.hash == zero_hash
    then insert_block s e
    else (is_ancestor s s.final_hash e.parent_hash >>= λ descends.
        if descends
        then insert_block s e
        else err (conflicts_with_finalized s.final_height e.height))
