-- ===== src/Consensus/Stake/Snapshot.antt =====
-- crates/qv-consensus/src/stake.rs, `StakeDistribution::snapshot`: the stake of each pool.
use l1_chain.Base.{
  ℕ, ◌+◌, ◌≤◌, ◌≡◌, min, arith, List, [], ◌∷◌, Bool, true, false, Bool-cases, ◌&&◌, inl, inr,
  if◌then◌else◌, All, ◌∙◌,
}
use l1_chain.Base.Bytes.{bytes_eq}
use l1_chain.Base.Outcome.{ok}
use l1_chain.Base.Word.{saturating_add, max_u64}
use l1_chain.Consensus.Stake.{
  StakePool, Delegation, Stakes, StakeDistribution, add_stake, stake_of, add_pledges, is_active,
  add_delegations, snapshot, pool_stake,
}
use l1_chain.Consensus.Stake.Keys.{stake_of-Single, add_pledges-Single, add_delegations-Single}
use l1_chain.Consensus.Stake.Totals.{
  sum_all, bytes_eq-eq, bytes_eq_refl, stake_of-add, new-totals, new-pool_stake, sum_all-add_le,
}

-- The pledges of the active pools with this id
abbrev pub pledged : List ℕ → List StakePool → ℕ
pledged pid [] = 0
pledged pid (p ∷ pools) =
    (if p.active && bytes_eq p.id pid then p.pledge else 0) + pledged pid pools

-- What is delegated to this id
abbrev pub delegated_to : List ℕ → List Delegation → ℕ
delegated_to pid [] = 0
delegated_to pid (d ∷ ds) = (if bytes_eq d.pool_id pid then d.amount else 0) + delegated_to pid ds

-- A sum that is cut to 64 bits at every step
add_if-stake_of :
    (b : Bool) (stakes : Stakes) (pid q : List ℕ) (val : ℕ)
    → val ≤ max_u64
    → stake_of stakes q ≤ max_u64
    → stake_of (if b then add_stake stakes pid val else stakes) q
      ≡ min (stake_of stakes q + (if b && bytes_eq pid q then val else 0)) max_u64
unfolding saturating_add
add_if-stake_of true stakes pid q val v h = ground (arith, stake_of-add stakes pid q val v)
add_if-stake_of false stakes pid q val v h = omega arith

-- The stake that the pledges leave a pool with
stake_of-add_pledges :
    (pools : List StakePool) (stakes : Stakes) (q : List ℕ)
    → All (λ p. p.pledge ≤ max_u64) pools
    → stake_of stakes q ≤ max_u64
    → stake_of (add_pledges pools stakes) q ≡ min (stake_of stakes q + pledged q pools) max_u64
unfolding add_pledges
stake_of-add_pledges [] stakes q small h = omega arith
stake_of-add_pledges (p ∷ pools) stakes q small h =
    let first = add_if-stake_of p.active stakes p.id q p.pledge small.0 h in
    let rest =
      stake_of-add_pledges pools (if p.active then add_stake stakes p.id p.pledge else stakes) q
        small.1 (omega (arith, first)) in
    omega (arith, first, rest)

-- Whether a delegation counts is asked of its own pool.
active-swap :
    (pools : List StakePool) (pid q : List ℕ) (n rest : ℕ)
    → (if is_active pools pid && bytes_eq pid q then n else 0)
        + (if is_active pools q then rest else 0)
      ≡ (if is_active pools q then (if bytes_eq pid q then n else 0) + rest else 0)
active-swap pools pid q n rest = elim (Bool-cases (bytes_eq pid q)) [
  | inl e ↦ rw (bytes_eq-eq pid q e) (rw (bytes_eq_refl q) (ground arith))
  | inr e ↦ rw e (ground arith)
]

stake_of-add_delegations :
    (pools : List StakePool) (ds : List Delegation) (stakes : Stakes) (q : List ℕ)
    → All (λ d. d.amount ≤ max_u64) ds
    → stake_of stakes q ≤ max_u64
    → stake_of (add_delegations pools ds stakes) q
      ≡ min (stake_of stakes q + (if is_active pools q then delegated_to q ds else 0)) max_u64
unfolding add_delegations
stake_of-add_delegations pools [] stakes q small h = ground arith
stake_of-add_delegations pools (d ∷ ds) stakes q small h =
    let active = is_active pools d.pool_id in
    let first = add_if-stake_of active stakes d.pool_id q d.amount small.0 h in
    let rest =
      stake_of-add_delegations pools ds
        (if active then add_stake stakes d.pool_id d.amount else stakes) q small.1
        (omega (arith, first)) in
    let swap = active-swap pools d.pool_id q d.amount (delegated_to q ds) in
    omega (arith, first, rest, swap)

-- When every pledge and every delegation has 64 bits and `StakeDistribution::snapshot` returns a
-- distribution, the stake of each pool is the pledges of the active pools with its id and, if
-- there is one, what is delegated to the id, cut to 64 bits.
pub snapshot-pool_stake :
    (e : ℕ) (pools : List StakePool) (ds : List Delegation) (d : StakeDistribution)
    → All (λ p. p.pledge ≤ max_u64) pools
    → All (λ x. x.amount ≤ max_u64) ds
    → snapshot e pools ds ≡ ok d
    → (q : List ℕ)
    → pool_stake d q
      ≡ min (pledged q pools + (if is_active pools q then delegated_to q ds else 0)) max_u64
unfolding snapshot stake_of
snapshot-pool_stake e pools ds d ps ws h q =
    let first = stake_of-add_pledges pools [] q ps (omega arith) in
    let second =
      stake_of-add_delegations pools ds (add_pledges pools []) q ws (omega (arith, first)) in
    let single = add_delegations-Single pools ds _ (add_pledges-Single pools [] tt) in
    let held = new-pool_stake e _ d h q ∙ stake_of-Single _ q single in
    omega (arith, first, second, held)

-- All pledges, and all delegations
abbrev pub all_pledges : List StakePool → ℕ
all_pledges [] = 0
all_pledges (p ∷ pools) = p.pledge + all_pledges pools

abbrev pub all_delegated : List Delegation → ℕ
all_delegated [] = 0
all_delegated (d ∷ ds) = d.amount + all_delegated ds

sum_all-add_if :
    (b : Bool) (stakes : Stakes) (pid : List ℕ) (val : ℕ)
    → sum_all (if b then add_stake stakes pid val else stakes) ≤ sum_all stakes + val
sum_all-add_if true stakes pid val = sum_all-add_le stakes pid val
sum_all-add_if false stakes pid val = omega arith

sum_all-add_pledges :
    (pools : List StakePool) (stakes : Stakes)
    → sum_all (add_pledges pools stakes) ≤ sum_all stakes + all_pledges pools
unfolding add_pledges
sum_all-add_pledges [] stakes = omega arith
sum_all-add_pledges (p ∷ pools) stakes = omega (
  arith,
  sum_all-add_pledges pools (if p.active then add_stake stakes p.id p.pledge else stakes),
  sum_all-add_if p.active stakes p.id p.pledge,
)

sum_all-add_delegations :
    (pools : List StakePool) (ds : List Delegation) (stakes : Stakes)
    → sum_all (add_delegations pools ds stakes) ≤ sum_all stakes + all_delegated ds
unfolding add_delegations
sum_all-add_delegations pools [] stakes = omega arith
sum_all-add_delegations pools (d ∷ ds) stakes = omega (
  arith,
  sum_all-add_delegations pools ds
      (if is_active pools d.pool_id then add_stake stakes d.pool_id d.amount else stakes),
  sum_all-add_if (is_active pools d.pool_id) stakes d.pool_id d.amount,
)

-- When all pledges and all delegations add up to a 64-bit number, `StakeDistribution::snapshot`
-- returns a distribution, and its total stake is the sum of the stakes it holds.
snapshot-returns :
    (e : ℕ) (pools : List StakePool) (ds : List Delegation)
    → all_pledges pools + all_delegated ds ≤ max_u64
    → (d : StakeDistribution) × (snapshot e pools ds ≡ ok d)
      × (sum_all d.pool_stakes ≡ d.total_stake)
unfolding snapshot
snapshot-returns e pools ds fits =
    let pledges = sum_all-add_pledges pools [] in
    let more = sum_all-add_delegations pools ds (add_pledges pools []) in
    let (d, done, total, sum, each) =
      new-totals e (add_delegations pools ds (add_pledges pools []))
        (omega (arith, pledges, more)) in
    (d, done, sum)
