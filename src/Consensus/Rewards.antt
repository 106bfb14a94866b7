-- ===== src/Consensus/Rewards.antt =====
-- crates/qv-consensus/src/rewards.rs: the subsidy schedule and the total reward of a block.
pub mod Supply
pub mod Share
use l1_chain.Base.{ℕ, zero, suc, ◌+◌, ◌-◌, ◌/◌, ◌^◌, min, leb, ◌==◌, if◌then◌else◌, Bool, List}
use l1_chain.Base.Outcome.{Outcome, ok, panic, diverge, ◌>>=◌}
use l1_chain.Base.Word.{saturating_add, saturating_mul}
use l1_chain.Core.Monetary.{MonetaryParams}

-- `RewardError`; a pool's id is the bytes of its hash.
pub data RewardError : Type 0 where
  overflow : RewardError
  pool_not_found : List ℕ → RewardError

abbrev pub Reward : Type 0 → Type 0
Reward = Outcome RewardError

-- `block_subsidy`; `u64::saturating_div` by 0 panics.
unfoldable pub block_subsidy : ℕ → MonetaryParams → Reward ℕ
block_subsidy height m =
    if m.halving_interval_blocks == 0
    then panic
    else let halvings = height / m.halving_interval_blocks in
      if leb 64 halvings then ok 0 else ok (m.initial_block_reward / 2 ^ halvings)

-- The loop of `cumulative_emission`, on fuel: `total`, `reward` and `remaining`
unfoldable pub emission_loop : ℕ → ℕ → ℕ → ℕ → ℕ → Reward ℕ
unfolding saturating_add saturating_mul
emission_loop zero interval total reward remaining = diverge
emission_loop (suc fuel) interval total reward remaining =
    let blocks = min remaining interval in
    let sum = saturating_add total (saturating_mul blocks reward) in
    let rest = emission_loop fuel interval sum (reward / 2) (remaining - blocks) in
    if reward == 0 then ok total else if remaining - blocks == 0 then ok sum else rest

-- `cumulative_emission`; a reward of 64 bits is 0 after 64 halvings.
unfoldable pub cumulative_emission : ℕ → MonetaryParams → Reward ℕ
unfolding saturating_add
cumulative_emission height m =
    emission_loop 65 m.halving_interval_blocks 0 m.initial_block_reward (saturating_add height 1)
    >>= λ total. ok (min total m.total_supply)

-- `is_emission_exhausted`
unfoldable pub is_emission_exhausted : ℕ → MonetaryParams → Reward Bool
is_emission_exhausted height m =
    cumulative_emission height m >>= λ total. ok (leb m.total_supply total)

-- `total_block_reward`
unfoldable pub total_block_reward : ℕ → ℕ → MonetaryParams → Reward ℕ
unfolding saturating_add
total_block_reward height fees m = block_subsidy height m >>= λ raw_subsidy.
    (if height == 0 then ok 0 else cumulative_emission (height - 1) m) >>= λ prev_emission.
    let room = m.total_supply - prev_emission in ok (saturating_add (min raw_subsidy room) fees)
