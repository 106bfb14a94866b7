-- ===== src/Consensus/Rewards/Share.antt =====
-- crates/qv-consensus/src/rewards.rs, `distribute_reward`.
pub mod Conserved
use l1_chain.Base.{
  ℕ, ◌+◌, ◌-◌, ◌*◌, ◌/◌, ◌^◌, min, ltb, ◌==◌, ◌&&◌, if◌then◌else◌, List, [], ◌∷◌, Option, none,
  some,
}
use l1_chain.Base.Outcome.{Outcome, ok}
use l1_chain.Base.Word.{saturating_add, max_u64}
use l1_chain.Consensus.Stake.{StakePool}
use l1_chain.Consensus.Rewards.{Reward}

pub record RewardShare : Type 0 where
  pub recipient : List ℕ
  pub amount : ℕ

-- `checked_mul` and `checked_div` of `u128`
unfoldable pub checked_mul : ℕ → ℕ → Option ℕ
checked_mul a b = if ltb (a * b) (2 ^ 128) then some (a * b) else none

unfoldable pub checked_div : Option ℕ → ℕ → Option ℕ
checked_div none d = none
checked_div (some n) d = if d == 0 then none else some (n / d)

-- `.map(|v| v.min(u64::MAX as u128) as u64).unwrap_or(0)`
unfoldable pub clamped : Option ℕ → ℕ
clamped none = 0
clamped (some v) = min v max_u64

-- `a * num / den`, as both splits compute it
abbrev pub portion : ℕ → ℕ → ℕ → ℕ
portion a num den = clamped (checked_div (checked_mul a num) den)

-- `margin_share`
unfoldable pub margin_share : StakePool → ℕ → ℕ
margin_share pool after_cost =
    if ltb 0 pool.margin_den then portion after_cost pool.margin_num pool.margin_den else 0

-- `total_delegated`
unfoldable pub sum_stakes : List (List ℕ × ℕ) → ℕ → ℕ
sum_stakes [] acc = acc
sum_stakes ((id, stake) ∷ rest) acc = sum_stakes rest (saturating_add acc stake)

-- The loop over the delegators, with `distributed`
unfoldable pub deal : ℕ → ℕ → List (List ℕ × ℕ) → ℕ → List RewardShare × ℕ
deal pot total_delegated [] distributed = ([], distributed)
deal pot total_delegated ((id, stake) ∷ rest) distributed =
    let share = portion pot stake total_delegated in
    let (shares, sum) = deal pot total_delegated rest (saturating_add distributed share) in
    (record { recipient = id; amount = share } ∷ shares, sum)

-- Behind the margin: `operator_total` and `delegator_pool`
unfoldable pub split : ℕ → ℕ → List (List ℕ × ℕ) → ℕ × List RewardShare
split operator_total pot stakes =
    let total_delegated = sum_stakes stakes 0 in
    let (shares, distributed) =
      if ltb 0 total_delegated && ltb 0 pot then deal pot total_delegated stakes 0 else ([], 0) in
    (saturating_add operator_total (pot - distributed), shares)

-- `distribute_reward`; it has no path to an error.
unfoldable pub distribute_reward : ℕ → StakePool → List (List ℕ × ℕ) → Reward (ℕ × List RewardShare)
distribute_reward total pool stakes =
    let cost = min pool.fixed_cost total in
    let after_cost = total - cost in
    let margin = margin_share pool after_cost in
    if total == 0
    then ok (0, [])
    else ok (split (saturating_add cost margin) (after_cost - margin) stakes)
