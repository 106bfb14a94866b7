-- ===== src/Consensus/Rewards/Supply/Cap.antt =====
-- crates/qv-consensus/src/rewards.rs: the sum of the subsidies and the supply cap.
use l1_chain.Base.{
  ℕ, zero, suc, ◌+◌, ◌-◌, ◌≤◌, ◌<◌, ◌≡◌, min, arith, ◌∙◌, ◌/◌, ◌==◌, sym, refl, Bool-cases, ap, leb,
  inl, the, false, inr,
}
use l1_chain.Base.Outcome.{ok, ◌>>=◌}
use l1_chain.Base.Word.{max_u64, saturating_add, saturating_add-eq}
use l1_chain.Core.Monetary.{MonetaryParams}
use l1_chain.Consensus.Rewards.{block_subsidy, cumulative_emission, total_block_reward, Reward}
use l1_chain.Consensus.Rewards.Supply.Loop.{emission_loop-issued}
use l1_chain.Consensus.Rewards.Supply.{IsU64, issued, scheduled, issued-last, exhausted}

-- For 64-bit parameters with a positive interval and a height below `u64::MAX`,
-- `cumulative_emission` returns, and it returns the sum of what the schedule
-- `initial_reward >> (h / interval)` issues at the heights up to and including the given one, cut
-- down to the total supply.
pub cumulative_emission-issued :
    (m : MonetaryParams) (height : ℕ)
    → IsU64 m
    → 0 < m.halving_interval_blocks
    → height < max_u64
    → cumulative_emission height m ≡ ok (min (issued m 0 (suc height)) m.total_supply)
unfolding cumulative_emission
cumulative_emission-issued m height u pos h =
    let n : saturating_add height 1 ≡ suc height =
      saturating_add-eq height 1 (omega arith) ∙ omega arith in
    rw n (rw (emission_loop-issued m (suc height) pos u.1) (ap ok (omega (arith, u.0))))

-- For 64-bit parameters with a positive interval, `block_subsidy` returns, and it returns
-- `initial_reward >> (h / interval)`, at every height.
block_subsidy-scheduled :
    (m : MonetaryParams) (height : ℕ)
    → IsU64 m
    → 0 < m.halving_interval_blocks
    → block_subsidy height m ≡ ok (scheduled m height)
unfolding block_subsidy
block_subsidy-scheduled m height u pos =
    elim (Bool-cases (leb 64 (height / m.halving_interval_blocks))) [
      | inl e ↦
          rw (the ((m.halving_interval_blocks == 0) ≡ false) (ground arith))
            (rw e (ap ok (sym (exhausted m.initial_block_reward _ u.1 (ground arith)))))
      | inr e ↦ rw (the ((m.halving_interval_blocks == 0) ≡ false) (ground arith)) (rw e refl)
    ]

-- What a block mints, behind `prev` minted before it
total_block_reward-scheduled :
    (m : MonetaryParams) (n : ℕ)
    → IsU64 m
    → 0 < m.halving_interval_blocks
    → n < max_u64
    → total_block_reward n 0 m
      ≡ ok (min (scheduled m n) (m.total_supply - min (issued m 0 n) m.total_supply))
unfolding total_block_reward
total_block_reward-scheduled m zero u pos h =
    rw (block_subsidy-scheduled m 0 u pos)
      (ap ok (saturating_add-eq _ 0 (omega (arith, u.0)) ∙ omega arith))
total_block_reward-scheduled m (suc n) u pos h = rw (block_subsidy-scheduled m (suc n) u pos) (
    rw (the ((suc n == 0) ≡ false) (ground arith)) (
      rw (the (suc n - 1 ≡ n) (omega arith)) (
        rw (cumulative_emission-issued m n u pos (omega arith))
          (ap ok (saturating_add-eq _ 0 (omega (arith, u.0)) ∙ omega arith)))))

-- The sum of the total rewards of the first `n` blocks when no block has fees
abbrev pub minted : MonetaryParams → ℕ → Reward ℕ
minted m zero = ok 0
minted m (suc n) = minted m n >>= λ sum. total_block_reward n 0 m >>= λ r. ok (sum + r)

-- For 64-bit parameters with a positive interval, and at most `u64::MAX` blocks: without fees, the
-- total rewards of the first `n` blocks add up to what the schedule issues for them, cut down to
-- the total supply; no block panics.
pub minted-issued :
    (m : MonetaryParams) (n : ℕ)
    → IsU64 m
    → 0 < m.halving_interval_blocks
    → n ≤ max_u64
    → minted m n ≡ ok (min (issued m 0 n) m.total_supply)
unfolding total_block_reward
minted-issued m zero u pos h = ap ok (omega arith)
minted-issued m (suc n) u pos h =
    let last = issued-last m n in
    rw (minted-issued m n u pos (omega arith))
      (rw (total_block_reward-scheduled m n u pos (omega arith)) (ap ok (omega arith)))
