-- ===== src/Consensus/Stake.antt =====
-- crates/qv-consensus/src/stake.rs: stake pools, and the snapshot of the stake of an epoch. A
-- `PoolId` is the bytes of its hash.
pub mod Totals
pub mod Keys
pub mod Snapshot
use l1_chain.Base.{
  ℕ, ◌+◌, ◌≤◌, List, [], ◌∷◌, Bool, true, false, ◌&&◌, ◌||◌, not, ltb, leb, ◌==◌, if◌then◌else◌,
  Option, none, some, length,
}
use l1_chain.Base.Bytes.{bytes_eq}
use l1_chain.Base.Outcome.{Outcome, ok, err, ◌>>=◌}
use l1_chain.Base.Word.{saturating_add, max_u64}
use l1_chain.Crypto.{Crypto, sha3_256}

pub record StakePool : Type 0 where
  pub id : List ℕ
  pub vrf_key : List ℕ
  pub kes_key : List ℕ
  pub pledge : ℕ
  pub margin_num : ℕ
  pub margin_den : ℕ
  pub fixed_cost : ℕ
  pub active : Bool

-- `StakeError`
pub data StakeError : Type 0 where
  pool_already_registered : List ℕ → StakeError
  pool_not_found : List ℕ → StakeError
  zero_delegation : StakeError
  invalid_margin : ℕ → ℕ → StakeError
  overflow : StakeError

-- `PoolId::from_vrf_key`
abbrev pub pool_id_from_vrf_key : Crypto → List ℕ → List ℕ
pool_id_from_vrf_key c key = sha3_256 c key

-- `StakePool::validate`
unfoldable pub validate : StakePool → Outcome {0, 0} StakeError Unit
validate p =
    if (p.margin_den == 0) || ltb p.margin_den p.margin_num
    then err (invalid_margin p.margin_num p.margin_den)
    else ok tt

pub record Delegation : Type 0 where
  pub delegator_id : List ℕ
  pub pool_id : List ℕ
  pub amount : ℕ

-- `BTreeMap<PoolId, u64>`, its entries in the order in which their keys came
abbrev pub Stakes : Type 0
Stakes = List (List ℕ × ℕ)

pub record StakeDistribution : Type 0 where
  pub epoch : ℕ
  pub pool_stakes : Stakes
  pub total_stake : ℕ

-- `entry(pid).and_modify(|s| *s = s.saturating_add(val)).or_insert(val)`
unfoldable pub add_stake : Stakes → List ℕ → ℕ → Stakes
unfolding saturating_add
add_stake [] pid val = (pid, val) ∷ []
add_stake ((k, s) ∷ rest) pid val =
    let others = add_stake rest pid val in
    if bytes_eq k pid then (k, saturating_add s val) ∷ rest else (k, s) ∷ others

-- `get(pool).copied().unwrap_or(0)`
unfoldable pub stake_of : Stakes → List ℕ → ℕ
stake_of [] pid = 0
stake_of ((k, s) ∷ rest) pid = if bytes_eq k pid then s else stake_of rest pid

-- The loop of `StakeDistribution::new`, over the entries, with `pool_stakes` and `total`
unfoldable pub collect : Stakes → Stakes → ℕ → Outcome {0, 0} StakeError (Stakes × ℕ)
collect [] stakes total = ok (stakes, total)
collect ((pid, val) ∷ entries) stakes total =
    let skipped = collect entries stakes total in
    let counted = collect entries (add_stake stakes pid val) (total + val) in
    if val == 0 then skipped else if leb (total + val) max_u64 then counted else err overflow

-- `StakeDistribution::new`
unfoldable pub new : ℕ → Stakes → Outcome {0, 0} StakeError StakeDistribution
new e entries = collect entries [] 0 >>= λ (stakes, total).
    ok (record { epoch = e; pool_stakes = stakes; total_stake = total })

-- The pledges of the active pools
unfoldable pub add_pledges : List StakePool → Stakes → Stakes
add_pledges [] stakes = stakes
add_pledges (p ∷ pools) stakes =
    add_pledges pools (if p.active then add_stake stakes p.id p.pledge else stakes)

-- Whether `active_pools` contains the id
unfoldable pub is_active : List StakePool → List ℕ → Bool
is_active [] pid = false
is_active (p ∷ pools) pid = (p.active && bytes_eq p.id pid) || is_active pools pid

-- The delegations to known active pools
unfoldable pub add_delegations : List StakePool → List Delegation → Stakes → Stakes
add_delegations pools [] stakes = stakes
add_delegations pools (d ∷ ds) stakes =
    add_delegations pools ds
      (if is_active pools d.pool_id then add_stake stakes d.pool_id d.amount else stakes)

-- `StakeDistribution::snapshot`
unfoldable pub snapshot :
    ℕ → List StakePool → List Delegation → Outcome {0, 0} StakeError StakeDistribution
snapshot e pools ds = new e (add_delegations pools ds (add_pledges pools []))

-- `StakeDistribution::pool_stake`
unfoldable pub pool_stake : StakeDistribution → List ℕ → ℕ
pool_stake d pid = stake_of d.pool_stakes pid

-- `StakeDistribution::relative_stake`
unfoldable pub relative_stake : StakeDistribution → List ℕ → ℕ × ℕ
relative_stake d pid =
    let s = pool_stake d pid in
    if (d.total_stake == 0) || (s == 0) then (0, 1) else (s, d.total_stake)

-- `StakeDistribution::pool_count`
unfoldable pub pool_count : StakeDistribution → ℕ
pool_count d = length d.pool_stakes

-- `StakeDistribution::is_empty`
unfoldable pub is_empty : StakeDistribution → Bool
is_empty d = d.total_stake == 0

-- `StakeDistribution::pool_for_vrf_key`, behind the hash of the key
unfoldable pub find_pool : List StakePool → List ℕ → Option (List ℕ)
find_pool [] candidate = none
find_pool (p ∷ pools) candidate =
    if bytes_eq p.id candidate && p.active then some p.id else find_pool pools candidate

unfoldable pub pool_for_vrf_key : Crypto → List StakePool → List ℕ → Option (List ℕ)
pool_for_vrf_key c pools key = find_pool pools (pool_id_from_vrf_key c key)
