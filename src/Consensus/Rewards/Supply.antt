-- ===== src/Consensus/Rewards/Supply.antt =====
-- crates/qv-consensus/src/rewards.rs: what the schedule mints, block by block and in all.
pub mod Loop
pub mod Cap
use native.Mathlib.Nat.{
  div-div-eq-div-mul, pow-suc, one-le-pow, lt-div-mul-add, div-eq_of_lt, mul-add-div_right,
  zero-div, div-le_self, pow-le-pow_right, div-lt_iff_lt-mul,
}
use l1_chain.Base.{
  ℕ, zero, suc, ◌+◌, ◌-◌, ◌*◌, ◌/◌, ◌^◌, ◌≤◌, ◌<◌, ◌≡◌, refl, min, arith, Bool-cases, ◌==◌, inl,
  inr, ap, subst, ◌∙◌, ◌≢◌, sym, the,
}
use l1_chain.Base.Outcome.{Outcome, ok, ◌>>=◌}
use l1_chain.Base.Word.{saturating_add, saturating_mul, max_u64, saturating_add-le}
use l1_chain.Core.Monetary.{MonetaryParams, validate}
use l1_chain.Consensus.Rewards.{
  block_subsidy, emission_loop, cumulative_emission, total_block_reward, Reward,
}

-- The fields that the rewards read are 64-bit numbers.
abbrev pub IsU64 : MonetaryParams → Type 0
IsU64 m =
    (m.total_supply ≤ max_u64)
    × (m.initial_block_reward ≤ max_u64)
    × (m.halving_interval_blocks ≤ max_u64)

-- `initial_reward >> (h / halving_interval)`
abbrev pub scheduled : MonetaryParams → ℕ → ℕ
scheduled m h = m.initial_block_reward / 2 ^ (h / m.halving_interval_blocks)

-- What `n` blocks from height `a` on mint by the schedule
abbrev pub issued : MonetaryParams → ℕ → ℕ → ℕ
issued m a zero = 0
issued m a (suc n) = scheduled m a + issued m (suc a) n

pub issued-add :
    (m : MonetaryParams) (a n k : ℕ) → issued m a (n + k) ≡ issued m a n + issued m (a + n) k
issued-add m a zero k =
    rw (the (0 + k ≡ k) (omega arith)) rw (the (a + 0 ≡ a) (omega arith)) (omega arith)
issued-add m a (suc n) k =
    rw (the (suc n + k ≡ suc (n + k)) (omega arith)) rw (the (a + suc n ≡ suc a + n) (omega arith))
      (omega (arith, issued-add m (suc a) n k))

pub issued-last : (m : MonetaryParams) (n : ℕ) → issued m 0 (suc n) ≡ issued m 0 n + scheduled m n
issued-last m n =
    ap (issued m 0) (the (suc n ≡ n + 1) (omega arith))
    ∙ issued-add m 0 n 1
    ∙ ap (λ x. issued m 0 n + x)
        (the (scheduled m (0 + n) + 0 ≡ scheduled m (0 + n)) (omega arith)
          ∙ ap (scheduled m) (the (0 + n ≡ n) (omega arith)))

pub half : (r k : ℕ) → r / 2 ^ k / 2 ≡ r / 2 ^ suc k
half r k = rw (pow-suc 2 k) (div-div-eq-div-mul r (2 ^ k) 2)

pow-pos : (k : ℕ) → 0 < 2 ^ k
pow-pos k = omega (arith, one-le-pow k 2 (omega arith))

scheduled-at :
    (m : MonetaryParams) (k i : ℕ)
    → 0 < m.halving_interval_blocks
    → scheduled m (k * m.halving_interval_blocks + i)
      ≡ m.initial_block_reward / 2 ^ (k + i / m.halving_interval_blocks)
scheduled-at m k i pos = ap (λ e. m.initial_block_reward / 2 ^ e) (mul-add-div_right pos k i)

-- Within one interval every block mints the same.
issued-interval :
    (m : MonetaryParams) (k n i : ℕ)
    → i + n ≤ m.halving_interval_blocks
    → issued m (k * m.halving_interval_blocks + i) n ≡ n * (m.initial_block_reward / 2 ^ k)
issued-interval m k zero i h = omega arith
issued-interval m k (suc n) i h =
    rw (scheduled-at m k i (omega arith)) rw
      (div-eq_of_lt (the (i < m.halving_interval_blocks) (omega arith))) rw
      (the (k + 0 ≡ k) (omega arith)) rw
      (the (suc (k * m.halving_interval_blocks + i) ≡ k * m.halving_interval_blocks + suc i)
        (omega arith))
      (grind (arith, issued-interval m k n (suc i) (omega arith)))

below : (r k : ℕ) → r / 2 ^ k ≡ 0 → r < 2 ^ k
below r k h =
    let one : r / 2 ^ k < 1 = omega arith in omega (arith, (div-lt_iff_lt-mul (pow-pos k)).0 one)

vanished : (r k j : ℕ) → r / 2 ^ k ≡ 0 → r / 2 ^ (k + j) ≡ 0
vanished r k j h =
    let more : 2 ^ k ≤ 2 ^ (k + j) = pow-le-pow_right (omega arith) (omega arith) in
    div-eq_of_lt (omega (arith, below r k h, more))

-- After 64 halvings, nothing of a 64-bit reward is left.
pub exhausted : (r k : ℕ) → r ≤ max_u64 → 64 ≤ k → r / 2 ^ k ≡ 0
exhausted r k h le =
    let more : 2 ^ 64 ≤ 2 ^ k = pow-le-pow_right (omega arith) le in div-eq_of_lt (omega arith)

pub halvings_left : (r k : ℕ) → r ≤ max_u64 → k ≤ 64 → r / 2 ^ k ≢ 0 → suc k ≤ 64
halvings_left r k h le pos = elim (Bool-cases (k == 64)) [
  | inl e ↦ absurd (pos (rw (the (k ≡ 64) (ground arith)) (div-eq_of_lt (omega arith))))
  | inr e ↦ ground arith
]

pub issued-vanished :
    (m : MonetaryParams) (k n i : ℕ)
    → 0 < m.halving_interval_blocks
    → m.initial_block_reward / 2 ^ k ≡ 0
    → issued m (k * m.halving_interval_blocks + i) n ≡ 0
issued-vanished m k zero i pos h = refl
issued-vanished m k (suc n) i pos h =
    rw (scheduled-at m k i pos) rw
      (vanished m.initial_block_reward k (i / m.halving_interval_blocks) h) rw
      (the (suc (k * m.halving_interval_blocks + i) ≡ k * m.halving_interval_blocks + suc i)
        (omega arith))
      (omega (arith, issued-vanished m k n (suc i) pos h))

-- At the start of an interval
pub issued-first :
    (m : MonetaryParams) (k n : ℕ)
    → n ≤ m.halving_interval_blocks
    → issued m (k * m.halving_interval_blocks) n ≡ n * (m.initial_block_reward / 2 ^ k)
issued-first m k n h =
    rw (the (k * m.halving_interval_blocks ≡ k * m.halving_interval_blocks + 0) (omega arith))
      (issued-interval m k n 0 (omega arith))

pub issued-next :
    (m : MonetaryParams) (k d : ℕ)
    → issued m (k * m.halving_interval_blocks) (m.halving_interval_blocks + d)
      ≡ m.halving_interval_blocks * (m.initial_block_reward / 2 ^ k)
        + issued m (suc k * m.halving_interval_blocks) d
issued-next m k d =
    rw (issued-add m (k * m.halving_interval_blocks) m.halving_interval_blocks d) rw
      (issued-first m k m.halving_interval_blocks (omega arith)) rw
      (the
        (suc k * m.halving_interval_blocks
          ≡ k * m.halving_interval_blocks + m.halving_interval_blocks)
        (omega arith))
      refl
