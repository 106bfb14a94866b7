-- ===== src/Consensus/Rewards/Supply/Loop.antt =====
-- crates/qv-consensus/src/rewards.rs: the loop of `cumulative_emission`.
use l1_chain.Base.{
  ℕ, zero, suc, ◌+◌, ◌-◌, ◌*◌, ◌/◌, ◌^◌, ◌≤◌, ◌<◌, ◌≡◌, min, arith, Bool-cases, ◌==◌, inl, inr, the,
  ap, ◌∙◌, sym, subst,
}
use l1_chain.Base.Outcome.{ok}
use l1_chain.Base.Word.{saturating_add, saturating_mul, saturating_add-le, max_u64}
use l1_chain.Core.Monetary.{MonetaryParams}
use l1_chain.Consensus.Rewards.{emission_loop}
use l1_chain.Consensus.Rewards.Supply.{
  issued, half, halvings_left, issued-vanished, issued-first, issued-next,
}

loop_done :
    (m : MonetaryParams) (k total n : ℕ)
    → 0 < m.halving_interval_blocks
    → total ≤ max_u64
    → m.initial_block_reward / 2 ^ k ≡ 0
    → total ≡ min (total + issued m (k * m.halving_interval_blocks) n) max_u64
loop_done m k total n pos t h =
    rw (the (k * m.halving_interval_blocks ≡ k * m.halving_interval_blocks + 0) (omega arith))
      (omega (arith, issued-vanished m k n 0 pos h))

loop_last :
    (m : MonetaryParams) (k total n : ℕ)
    → n ≤ m.halving_interval_blocks
    → saturating_add total
        (saturating_mul (min n m.halving_interval_blocks) (m.initial_block_reward / 2 ^ k))
      ≡ min (total + issued m (k * m.halving_interval_blocks) n) max_u64
unfolding saturating_add saturating_mul
loop_last m k total n h =
    rw (issued-first m k n h) rw (the (min n m.halving_interval_blocks ≡ n) (omega arith))
      (omega arith)

loop_more :
    (m : MonetaryParams) (k total n : ℕ)
    → m.halving_interval_blocks ≤ n
    → min
        (saturating_add total
            (saturating_mul m.halving_interval_blocks (m.initial_block_reward / 2 ^ k))
          + issued m (suc k * m.halving_interval_blocks) (n - m.halving_interval_blocks))
        max_u64
      ≡ min (total + issued m (k * m.halving_interval_blocks) n) max_u64
unfolding saturating_add saturating_mul
loop_more m k total n h =
    let next = issued-next m k (n - m.halving_interval_blocks) in
    let same : m.halving_interval_blocks + (n - m.halving_interval_blocks) ≡ n = omega arith in
    omega (
      arith,
      subst
          (λ x.
            issued m (k * m.halving_interval_blocks) x
            ≡ m.halving_interval_blocks * (m.initial_block_reward / 2 ^ k)
              + issued m (suc k * m.halving_interval_blocks) (n - m.halving_interval_blocks))
          same next,
    )

-- The loop's invariant, before its round `k`
emission_loop-eq :
    (m : MonetaryParams) (fuel k total n : ℕ)
    → 0 < m.halving_interval_blocks
    → m.initial_block_reward ≤ max_u64
    → total ≤ max_u64
    → k ≤ 64
    → 65 ≤ k + fuel
    → emission_loop fuel m.halving_interval_blocks total (m.initial_block_reward / 2 ^ k) n
      ≡ ok (min (total + issued m (k * m.halving_interval_blocks) n) max_u64)
unfolding emission_loop
emission_loop-eq m zero k total n pos small t le enough = absurd (omega arith)
emission_loop-eq m (suc fuel) k total n pos small t le enough =
    let interval = m.halving_interval_blocks in
    let reward = m.initial_block_reward / 2 ^ k in
    let sum = saturating_add total (saturating_mul interval reward) in
    elim (Bool-cases (reward == 0)) [
      | inl e ↦ rw e (ap ok (loop_done m k total n pos t (ground arith)))
      | inr e ↦ rw e (elim (Bool-cases (n - min n interval == 0)) [
        | inl f ↦ rw f (ap ok (loop_last m k total n (ground arith)))
        | inr f ↦
            let le' : suc k ≤ 64 = halvings_left m.initial_block_reward k small le (ground arith) in
            let rest =
              emission_loop-eq m fuel (suc k) sum (n - interval) pos small
                (saturating_add-le total (saturating_mul interval reward)) le' (omega arith) in
            rw f (
              rw (the (min n interval ≡ interval) (ground arith)) (
                rw (half m.initial_block_reward k)
                  (rest ∙ ap ok (loop_more m k total n (ground arith)))))
      ])
    ]

-- The whole loop
pub emission_loop-issued :
    (m : MonetaryParams) (n : ℕ)
    → 0 < m.halving_interval_blocks
    → m.initial_block_reward ≤ max_u64
    → emission_loop 65 m.halving_interval_blocks 0 m.initial_block_reward n
      ≡ ok (min (issued m 0 n) max_u64)
emission_loop-issued m n pos small =
    let all = emission_loop-eq m 65 0 0 n pos small (omega arith) (omega arith) (omega arith) in
    let start : m.initial_block_reward / 2 ^ 0 ≡ m.initial_block_reward = omega arith in
    let first : 0 * m.halving_interval_blocks ≡ 0 = omega arith in
    let sum : 0 + issued m (0 * m.halving_interval_blocks) n
        ≡ issued m (0 * m.halving_interval_blocks) n =
      omega arith in
    ap (λ r. emission_loop 65 m.halving_interval_blocks 0 r n) (sym start)
    ∙ all
    ∙ ap (λ x. ok (min x max_u64)) (sum ∙ ap (λ a. issued m a n) first)
