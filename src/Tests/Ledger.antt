-- ===== src/Tests/Ledger.antt =====
-- Runs of the rules of the ledger: rewards, stake and coinbase transactions.
use l1_chain.Core.Coinbase.{coinbase_height_mismatch, validate_coinbase_structure, checked_fold}
use l1_chain.Core.Coinbase.Accepted.{IsCoinbase, validate_coinbase_structure-IsCoinbase}
use l1_chain.Base.{
  ◌↔◌, ℕ, List, [], ◌∷◌, ◌≡◌, ◌≤◌, ◌+◌, min, refl, arith, true, false, if◌then◌else◌,
}
use l1_chain.Base.Outcome.{ok, err}
use l1_chain.Base.Word.{max_u64, saturating_add}
use l1_chain.Core.Tx.{Transaction}
use l1_chain.Core.Monetary.{mainnet, MonetaryParams}
use l1_chain.Core.Monetary
use l1_chain.Consensus.Stake
use l1_chain.Consensus.Stake.{
  StakePool, Delegation, Stakes, StakeDistribution, new, snapshot, pool_stake, relative_stake,
  is_active,
}
use l1_chain.Consensus.Stake.Totals.{sum_all, sum_for, new-totals}
use l1_chain.Consensus.Stake.Snapshot.{pledged, delegated_to, snapshot-pool_stake}
use l1_chain.Consensus.Rewards.{
  block_subsidy, cumulative_emission, total_block_reward, is_emission_exhausted, emission_loop,
}
use l1_chain.Consensus.Rewards.Supply.{issued}
use l1_chain.Consensus.Rewards.Supply.Cap.{minted, cumulative_emission-issued, minted-issued}
use l1_chain.Consensus.Rewards.Share.{
  RewardShare, distribute_reward, split, sum_stakes, margin_share, clamped, checked_div,
  checked_mul, deal,
}
use l1_chain.Consensus.Rewards.Share.Conserved.{amounts, distribute_reward-conserved}
use l1_chain.Tests.Toy.{toy_tx}

-- A short schedule: 3 blocks of 4, 3 of 2, 3 of 1, and a cap of 19
abbrev short : MonetaryParams
short = record {
  total_supply = 19;
  initial_block_reward = 4;
  halving_interval_blocks = 3;
  min_fee_per_byte = 1;
}

short-validate : Monetary.validate short ≡ ok tt
unfolding Monetary.validate
short-validate = refl

mainnet-validate : Monetary.validate mainnet ≡ ok tt
unfolding Monetary.validate
mainnet-validate = refl

mainnet-second : block_subsidy 210000 mainnet ≡ ok 2500000000
unfolding block_subsidy
mainnet-second = refl

short-emission : cumulative_emission 4 short ≡ ok 16
unfolding cumulative_emission emission_loop
short-emission = refl

short-exhausted : is_emission_exhausted 8 short ≡ ok true
unfolding is_emission_exhausted cumulative_emission emission_loop
short-exhausted = refl

-- The block that meets the cap mints what is left, and gets its fees.
short-last : total_block_reward 7 5 short ≡ ok 5
unfolding total_block_reward cumulative_emission block_subsidy emission_loop
short-last = refl

cumulative_emission-issued_example : cumulative_emission 8 short ≡ ok (min (issued short 0 9) 19)
cumulative_emission-issued_example =
    cumulative_emission-issued short 8 (omega arith, omega arith, omega arith) (omega arith)
      (omega arith)

minted-issued_example : minted short 8 ≡ ok (min (issued short 0 8) 19)
minted-issued_example =
    minted-issued short 8 (omega arith, omega arith, omega arith) (omega arith) (omega arith)

abbrev id_a : List ℕ
id_a = 1 ∷ 1 ∷ []

abbrev id_b : List ℕ
id_b = 1 ∷ 2 ∷ []

abbrev pool_a : StakePool
pool_a = record {
  id = id_a;
  vrf_key = [];
  kes_key = [];
  pledge = 10;
  margin_num = 5;
  margin_den = 100;
  fixed_cost = 34;
  active = true;
}

abbrev pool_b : StakePool
pool_b = record pool_a { id = id_b; active = false }

abbrev delegators : List (List ℕ × ℕ)
delegators = (id_a, 2) ∷ (id_b, 5) ∷ []

-- 34 and 5 of 100 go to the operator, and 1 of the rounding.
shares :
    distribute_reward 134 pool_a delegators
    ≡ ok (
      40,
      record { recipient = id_a; amount = 27 } ∷ record { recipient = id_b; amount = 67 } ∷ [],
    )
unfolding distribute_reward split saturating_add sum_stakes margin_share clamped checked_div
    checked_mul deal
shares = refl

pool_a-validate : Stake.validate pool_a ≡ ok tt
unfolding Stake.validate
pool_a-validate = refl

distribute_reward-conserved_example :
    (r : ℕ × List RewardShare) × (distribute_reward 134 pool_a delegators ≡ ok r)
    × (r.0 + amounts r.1 ≡ 134)
    × (34 ≤ r.0)
distribute_reward-conserved_example =
    distribute_reward-conserved 134 pool_a delegators pool_a-validate (omega arith) (omega arith)

abbrev entries : Stakes
entries = (id_a, 10) ∷ (id_b, 0) ∷ (id_b, 7) ∷ (id_a, 3) ∷ []

abbrev built : StakeDistribution
built = record { epoch = 2; pool_stakes = (id_a, 13) ∷ (id_b, 7) ∷ []; total_stake = 20 }

new-built : new 2 entries ≡ ok built
unfolding new Stake.collect Stake.add_stake
new-built = refl

new-totals_example :
    (d : StakeDistribution) × (new 2 entries ≡ ok d)
    × (d.total_stake ≡ 20)
    × (sum_all d.pool_stakes ≡ d.total_stake)
    × ((q : List ℕ) → pool_stake d q ≡ sum_for q entries)
new-totals_example = new-totals 2 entries (omega arith)

abbrev delegations : List Delegation
delegations =
    record { delegator_id = []; pool_id = id_a; amount = 3 }
    ∷ record { delegator_id = []; pool_id = id_b; amount = 8 }
    ∷ []

-- A delegation to an inactive pool is skipped.
snapshot_two :
    snapshot 2 (pool_a ∷ pool_b ∷ []) delegations
    ≡ ok (record { epoch = 2; pool_stakes = (id_a, 13) ∷ []; total_stake = 13 })
unfolding snapshot new Stake.collect Stake.add_delegations is_active Stake.add_stake
    Stake.add_pledges
snapshot_two = refl

snapshot-pool_stake_example :
    pool_stake (record { epoch = 2; pool_stakes = (id_a, 13) ∷ []; total_stake = 13 }) id_a
    ≡ min
        (pledged id_a (pool_a ∷ pool_b ∷ [])
          + (if is_active (pool_a ∷ pool_b ∷ []) id_a then delegated_to id_a delegations else 0))
        max_u64
snapshot-pool_stake_example =
    snapshot-pool_stake 2 (pool_a ∷ pool_b ∷ []) delegations
      (record { epoch = 2; pool_stakes = (id_a, 13) ∷ []; total_stake = 13 })
      (omega arith, (omega arith, tt)) (omega arith, (omega arith, tt)) snapshot_two id_a

abbrev coinbase : Transaction
coinbase = record toy_tx { inputs = []; lock_time = 7 }

coinbase_rejected : validate_coinbase_structure coinbase 8 ≡ err (coinbase_height_mismatch 8 7)
unfolding validate_coinbase_structure checked_fold
coinbase_rejected = refl

validate_coinbase_structure-IsCoinbase_example :
    (validate_coinbase_structure coinbase 7 ≡ ok tt) ↔ IsCoinbase coinbase 7
validate_coinbase_structure-IsCoinbase_example = validate_coinbase_structure-IsCoinbase coinbase 7
