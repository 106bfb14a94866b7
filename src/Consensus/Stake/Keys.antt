-- ===== src/Consensus/Stake/Keys.antt =====
-- crates/qv-consensus/src/stake.rs: the keys of the map that `snapshot` fills are distinct.
use l1_chain.Base.{
  ℕ, ◌+◌, ◌≡◌, arith, List, [], ◌∷◌, Bool, true, false, Bool-cases, inl, inr, refl, if◌then◌else◌,
  ap, subst, ◌∙◌,
}
use l1_chain.Base.Bytes.{bytes_eq}
use l1_chain.Consensus.Stake.{
  StakePool, Delegation, Stakes, add_stake, stake_of, add_pledges, is_active, add_delegations,
}
use l1_chain.Consensus.Stake.Totals.{sum_for, bytes_eq-eq, bytes_eq_refl, bytes_eq-other}

-- No pool stands in the map twice.
abbrev pub Single : Stakes → Type 0
Single [] = Unit
Single (s ∷ stakes) = (sum_for s.0 stakes ≡ 0) × Single stakes

bytes_eq_flip : (k q : List ℕ) → bytes_eq k q ≡ false → bytes_eq q k ≡ false
bytes_eq_flip k q e = bytes_eq-other k q k e (bytes_eq_refl k)

sum_for-add_other :
    (stakes : Stakes) (pid q : List ℕ) (val : ℕ)
    → bytes_eq pid q ≡ false
    → sum_for q (add_stake stakes pid val) ≡ sum_for q stakes
unfolding add_stake
sum_for-add_other [] pid q val h = rw h (omega arith)
sum_for-add_other ((k, s) ∷ rest) pid q val h = elim (Bool-cases (bytes_eq k pid)) [
  | inl e ↦ rw e (rw (bytes_eq-eq k pid e) (rw h refl))
  | inr e ↦
      rw e (ap (λ t. (if bytes_eq k q then s else 0) + t) (sum_for-add_other rest pid q val h))
]

add_stake-Single :
    (stakes : Stakes) (pid : List ℕ) (val : ℕ) → Single stakes → Single (add_stake stakes pid val)
unfolding add_stake
add_stake-Single [] pid val h = (refl, tt)
add_stake-Single ((k, s) ∷ rest) pid val h = elim (Bool-cases (bytes_eq k pid)) [
  | inl e ↦ rw e h
  | inr e ↦ rw e (
    sum_for-add_other rest pid k val (bytes_eq_flip k pid e) ∙ h.0,
    add_stake-Single rest pid val h.1,
  )
]

pub stake_of-Single :
    (stakes : Stakes) (q : List ℕ) → Single stakes → sum_for q stakes ≡ stake_of stakes q
unfolding stake_of
stake_of-Single [] q h = refl
stake_of-Single ((k, s) ∷ rest) q h = elim (Bool-cases (bytes_eq k q)) [
  | inl e ↦
      let others = subst (λ z. sum_for z rest ≡ 0) (bytes_eq-eq k q e) h.0 in rw e (omega arith)
  | inr e ↦ rw e (omega (arith, stake_of-Single rest q h.1))
]

add_if-Single :
    (b : Bool) (stakes : Stakes) (pid : List ℕ) (val : ℕ)
    → Single stakes
    → Single (if b then add_stake stakes pid val else stakes)
add_if-Single true stakes pid val h = add_stake-Single stakes pid val h
add_if-Single false stakes pid val h = h

pub add_pledges-Single :
    (pools : List StakePool) (stakes : Stakes) → Single stakes → Single (add_pledges pools stakes)
unfolding add_pledges
add_pledges-Single [] stakes h = h
add_pledges-Single (p ∷ pools) stakes h =
    add_pledges-Single pools _ (add_if-Single p.active stakes p.id p.pledge h)

pub add_delegations-Single :
    (pools : List StakePool) (ds : List Delegation) (stakes : Stakes)
    → Single stakes
    → Single (add_delegations pools ds stakes)
unfolding add_delegations
add_delegations-Single pools [] stakes h = h
add_delegations-Single pools (d ∷ ds) stakes h =
    add_delegations-Single pools ds _
      (add_if-Single (is_active pools d.pool_id) stakes d.pool_id d.amount h)
