-- ===== src/Tests/Chain.antt =====
-- Runs of the chain state and of the choice between chains.
use l1_chain.Base.{
  ◌^◌, ℕ, suc, List, [], ◌∷◌, ◌≡◌, ◌≤◌, ◌+◌, ◌-◌, refl, arith, true, inl, inr, some, length,
  get_elem?, take, drop, map, sym, ◌≢◌, ap, ◌∙◌,
}
use l1_chain.Base.Outcome.{ok, err, Returns}
use l1_chain.Base.Word.{saturating_add}
use l1_chain.Consensus.Chain.{
  ChainEntry, ChainState, genesis_chain, genesis_entry, add_block, is_final, get_entry, zero_hash,
  conflicts_with_finalized, duplicate_block,
}
use l1_chain.Consensus.Chain.Sound.{Reach, start, add, IsSound}
use l1_chain.Consensus.Chain.Invariant.{Reach-IsSound, get_entry-cons}
use l1_chain.Consensus.Chain.Total.{add_block-Returns}
use l1_chain.Consensus.Chain.Finality.{same, more, is_final-Extends, is_final_unique}
use l1_chain.Consensus.Chain.Progress.{Counted, final_height-tip}
use l1_chain.Consensus.Selection.{
  count_in_window, density_in_window, common_prefix_len, build_locator, select_headers_for_locator,
}
use l1_chain.Consensus.Selection.Agreement.{
  selected, density, by_length, maxvalid_bg-shallow, maxvalid_bg-deep,
}
use l1_chain.Consensus.Selection.Built.{HashOf, Dense}
use l1_chain.Consensus.Selection.Locator.{Meets, select_headers-build_locator}

abbrev block : ℕ → ℕ → ℕ → ℕ → ChainEntry
block h parent height slot = record {
  hash = h;
  parent_hash = parent;
  height = height;
  slot = slot;
  producer_key_hash = 9;
}

abbrev first_state : ChainState
first_state = record {
  entries = block 5 0 1 1 ∷ genesis_entry ∷ [];
  tip = 5;
  k_finality = 1;
  final_hash = 0;
  final_height = 0;
  slot_producers = record { slot = 1; producer = 9; block = 5 } ∷ [];
  equivocations = [];
}

abbrev second_state : ChainState
second_state = record {
  entries = block 7 5 2 2 ∷ block 5 0 1 1 ∷ genesis_entry ∷ [];
  tip = 7;
  k_finality = 1;
  final_hash = 5;
  final_height = 1;
  slot_producers =
      record { slot = 2; producer = 9; block = 7 }
      ∷ record { slot = 1; producer = 9; block = 5 }
      ∷ [];
  equivocations = [];
}

first_added : add_block (genesis_chain 1) (block 5 0 1 1) ≡ ok (true, first_state)
unfolding add_block genesis_chain
first_added = refl

second_added : add_block first_state (block 7 5 2 2) ≡ ok (true, second_state)
unfolding add_block
second_added = refl

-- A second block on genesis conflicts with the finalized one.
conflict : add_block second_state (block 6 0 9 3) ≡ err (conflicts_with_finalized 1 9)
unfolding add_block
conflict = refl

known_again : add_block second_state (block 5 0 1 1) ≡ err (duplicate_block 5)
unfolding add_block
known_again = refl

first_reached : Reach 1 first_state
first_reached = add start (block 5 0 1 1) true first_added

second_reached : Reach 1 second_state
second_reached = add first_reached (block 7 5 2 2) true second_added

Reach-IsSound_example : IsSound second_state
Reach-IsSound_example = Reach-IsSound second_reached

add_block-Returns_example : Returns (add_block second_state (block 6 0 9 3))
add_block-Returns_example = add_block-Returns second_reached (block 6 0 9 3)

genesis_is_final : is_final first_state 0 ≡ ok true
unfolding is_final
genesis_is_final = refl

is_final-Extends_example :
    (is_final second_state 0 ≡ ok true) × (first_state.final_height ≤ second_state.final_height)
is_final-Extends_example =
    is_final-Extends first_reached (more same (block 7 5 2 2) true second_added) 0 genesis_is_final

genesis_stays_final : is_final second_state 0 ≡ ok true
unfolding is_final
genesis_stays_final = refl

first_known : get_entry first_state.entries 0 ≡ some genesis_entry
unfolding get_entry
first_known = refl

second_known : get_entry second_state.entries 0 ≡ some genesis_entry
unfolding get_entry
second_known = refl

is_final_unique_example : ◌≡◌ {A = ℕ} 0 0
is_final_unique_example =
    is_final_unique first_reached (more same (block 7 5 2 2) true second_added) 0 0 genesis_entry
      genesis_entry first_known second_known refl genesis_is_final genesis_stays_final

tip_known : get_entry second_state.entries second_state.tip ≡ some (block 7 5 2 2)
unfolding get_entry
tip_known = refl

parent_known : get_entry second_state.entries 5 ≡ some (block 5 0 1 1)
unfolding get_entry
parent_known = refl

genesis_only :
    (h : ℕ) (e : ChainEntry)
    → get_entry (genesis_entry ∷ []) h ≡ some e
    → (e ≡ genesis_entry) × (h ≡ 0)
unfolding get_entry
genesis_only h e g = ground arith

second_state-Counted : Counted second_state.entries
second_state-Counted h e g = elim (get_entry-cons (block 7 5 2 2) _ h e g) [
  | inl (at, is_b) ↦ inr (
    block 5 0 1 1,
    ap (λ (x : ChainEntry). get_entry second_state.entries x.parent_hash) is_b ∙ parent_known,
    ap (λ (x : ChainEntry). x.height) is_b,
  )
  | inr older ↦ elim (get_entry-cons (block 5 0 1 1) _ h e older) [
    | inl (at, is_a) ↦ inr (
      genesis_entry,
      ap (λ (x : ChainEntry). get_entry second_state.entries x.parent_hash) is_a ∙ second_known,
      ap (λ (x : ChainEntry). x.height) is_a,
    )
    | inr oldest ↦
        let (is_g, zero_) = genesis_only h e oldest in
        inl (
          ap (λ (x : ChainEntry). x.parent_hash) is_g ∙ sym zero_,
          ap (λ (x : ChainEntry). x.height) is_g,
        )
  ]
]

final_height-tip_example : (block 7 5 2 2).height ≤ second_state.final_height + 1
final_height-tip_example =
    final_height-tip second_reached second_state-Counted (block 7 5 2 2) tip_known

abbrev left : List ChainEntry
left = genesis_entry ∷ block 5 0 1 3 ∷ []

abbrev right : List ChainEntry
right = genesis_entry ∷ block 6 0 1 40 ∷ block 8 6 2 50 ∷ []

one_shared : common_prefix_len left right ≡ 1
unfolding common_prefix_len
one_shared = refl

maxvalid_bg-shallow_example :
    (selected left right 2 10 ≡ selected right left 2 10)
    × (length left ≤ length (selected left right 2 10))
    × (length right ≤ length (selected left right 2 10))
maxvalid_bg-shallow_example =
    maxvalid_bg-shallow left right 2 10 (omega (arith, one_shared)) (omega (arith, one_shared))
      (omega (arith, one_shared)) (by_length (λ h. absurd (omega arith)))

left_shared : get_elem? left (common_prefix_len left right - 1) ≡ some genesis_entry
unfolding common_prefix_len
left_shared = refl

right_shared : get_elem? right (common_prefix_len left right - 1) ≡ some genesis_entry
unfolding common_prefix_len
right_shared = refl

denser :
    density left (common_prefix_len left right) 0 10
    ≢ density right (common_prefix_len left right) 0 10
unfolding common_prefix_len density_in_window count_in_window saturating_add
denser h = absurd (omega arith)

maxvalid_bg-deep_example :
    (selected left right 0 10 ≡ selected right left 0 10)
    × (density left (common_prefix_len left right) 0 10
        ≤ density (selected left right 0 10) (common_prefix_len left right) 0 10)
    × (density right (common_prefix_len left right) 0 10
        ≤ density (selected left right 0 10) (common_prefix_len left right) 0 10)
maxvalid_bg-deep_example =
    maxvalid_bg-deep left right 0 10 genesis_entry genesis_entry (omega (arith, one_shared))
      left_shared right_shared refl (omega (arith, one_shared)) (omega (arith, one_shared)) denser

left_adopted : select_headers_for_locator right (5 ∷ 0 ∷ []) zero_hash 5 ≡ 6 ∷ 8 ∷ []
unfolding select_headers_for_locator
left_adopted = refl

select_headers-build_locator_example :
    (hs : List ℕ) × (i : ℕ) × (n : ℕ) × (x : ChainEntry) × (build_locator left ≡ some hs)
    × Dense left 1 10 hs
    × (2 ^ (length hs - 11) ≤ 2)
    × Meets right hs i n x
    × HashOf left x.hash
    × (select_headers_for_locator right hs zero_hash 5
        ≡ take 5 (map (λ (y : ChainEntry). y.hash) (drop (suc n) right)))
select_headers-build_locator_example =
    select_headers-build_locator genesis_entry (block 5 0 1 3 ∷ []) genesis_entry
      (block 6 0 1 40 ∷ block 8 6 2 50 ∷ []) 5 refl (omega arith)
