-- ===== src/Consensus/Rewards/Share/Conserved.antt =====
-- crates/qv-consensus/src/rewards.rs, `distribute_reward`: what it pays out in all.
use native.Mathlib.Nat.{div-mul-le_self, mul-le-mul_left, mul-le-mul_right, le_of_mul-le-mul_right}
use l1_chain.Base.{
  ℕ, ◌+◌, ◌-◌, ◌*◌, ◌/◌, ◌^◌, ◌≤◌, ◌<◌, ◌≡◌, min, arith, List, [], ◌∷◌, Bool-cases, ltb, ◌==◌, ◌&&◌,
  inl, inr, refl, lt→ltb, ◌∙◌,
}
use l1_chain.Base.Outcome.{ok}
use l1_chain.Base.Word.{saturating_add, max_u64, saturating_add-eq}
use l1_chain.Consensus.Stake.{StakePool, validate}
use l1_chain.Consensus.Rewards.Share.{
  RewardShare, checked_mul, checked_div, clamped, portion, margin_share, sum_stakes, deal, split,
  distribute_reward,
}

-- The sum of the shares
abbrev pub amounts : List RewardShare → ℕ
amounts [] = 0
amounts (s ∷ shares) = s.amount + amounts shares

-- The sum of the delegators' stakes, not cut to 64 bits
abbrev pub delegated : List (List ℕ × ℕ) → ℕ
delegated [] = 0
delegated (s ∷ stakes) = s.1 + delegated stakes

portion-le : (a num den : ℕ) → portion a num den * den ≤ a * num
unfolding checked_mul checked_div clamped
portion-le a num den = elim (Bool-cases (ltb (a * num) (2 ^ 128))) [
  | inl e ↦ rw e (elim (Bool-cases (den == 0)) [
    | inl f ↦ rw f (grind arith)
    | inr f ↦ rw f (
        let less : min (a * num / den) max_u64 ≤ a * num / den = omega arith in
        omega (arith, mul-le-mul_right den less, div-mul-le_self (a * num) den))
  ])
  | inr e ↦ rw e (grind arith)
]

-- What `StakePool::validate` has checked
validate-margin :
    (pool : StakePool)
    → validate pool ≡ ok tt
    → (0 < pool.margin_den) × (pool.margin_num ≤ pool.margin_den)
unfolding validate
validate-margin pool h = (ground arith, ground arith)

margin_share-le : (pool : StakePool) (a : ℕ) → validate pool ≡ ok tt → margin_share pool a ≤ a
unfolding margin_share validate
margin_share-le pool a h =
    let (pos, le) = validate-margin pool h in
    let all = mul-le-mul_left a le in
    rw (lt→ltb 0 pool.margin_den pos) (
      le_of_mul-le-mul_right (omega (arith, portion-le a pool.margin_num pool.margin_den, all)) pos)

sum_stakes-eq :
    (stakes : List (List ℕ × ℕ)) (acc : ℕ)
    → acc ≤ max_u64
    → sum_stakes stakes acc ≡ min (acc + delegated stakes) max_u64
unfolding sum_stakes saturating_add
sum_stakes-eq [] acc h = omega arith
sum_stakes-eq ((id, stake) ∷ rest) acc h =
    omega (arith, sum_stakes-eq rest (min (acc + stake) max_u64) (omega arith))

deal-bound :
    (pot total : ℕ) (stakes : List (List ℕ × ℕ)) (distributed : ℕ)
    → distributed ≤ max_u64
    → let r = deal pot total stakes distributed in
      (amounts r.0 * total ≤ pot * delegated stakes)
      × (r.1 ≡ min (distributed + amounts r.0) max_u64)
unfolding deal saturating_add
deal-bound pot total [] d h = (omega arith, omega arith)
deal-bound pot total ((id, stake) ∷ rest) d h =
    let (few, sum) =
      deal-bound pot total rest (min (d + portion pot stake total) max_u64) (omega arith) in
    (grind (arith, portion-le pot stake total), omega (arith, sum))

split-conserved :
    (operator_total pot : ℕ) (stakes : List (List ℕ × ℕ))
    → delegated stakes ≤ max_u64
    → operator_total + pot ≤ max_u64
    → let r = split operator_total pot stakes in
      (r.0 + amounts r.1 ≡ operator_total + pot) × (operator_total ≤ r.0)
unfolding split saturating_add
split-conserved op pot stakes small fits =
    let total : sum_stakes stakes 0 ≡ delegated stakes =
      sum_stakes-eq stakes 0 (omega arith) ∙ omega arith in
    rw total (elim (Bool-cases (ltb 0 (delegated stakes) && ltb 0 pot)) [
      | inl e ↦
          let (few, sum) = deal-bound pot (delegated stakes) stakes 0 (omega arith) in
          let fair : amounts (deal pot (delegated stakes) stakes 0).0 ≤ pot =
            le_of_mul-le-mul_right few (ground arith) in
          rw e (omega arith, omega arith)
      | inr e ↦ rw e (omega arith, omega arith)
    ])

-- For a valid pool, a 64-bit reward, and stakes whose sum has 64 bits: `distribute_reward`
-- returns, the operator's reward and the delegators' shares add up to the total reward exactly,
-- and the operator gets at least the fixed cost, or all of a reward that is below it.
pub distribute_reward-conserved :
    (total : ℕ) (pool : StakePool) (stakes : List (List ℕ × ℕ))
    → validate pool ≡ ok tt
    → total ≤ max_u64
    → delegated stakes ≤ max_u64
    → (r : ℕ × List RewardShare) × (distribute_reward total pool stakes ≡ ok r)
      × (r.0 + amounts r.1 ≡ total)
      × (min pool.fixed_cost total ≤ r.0)
unfolding distribute_reward
distribute_reward-conserved total pool stakes valid fits small = elim (Bool-cases (total == 0)) [
  | inl e ↦ rw e ((0, []), refl, ground arith, ground arith)
  | inr e ↦
      let cost = min pool.fixed_cost total in
      let margin = margin_share pool (total - cost) in
      let le = margin_share-le pool (total - cost) valid in
      let op : saturating_add cost margin ≡ cost + margin =
        saturating_add-eq cost margin (omega (arith, le)) in
      let (sum, more) =
        split-conserved (cost + margin) (total - cost - margin) stakes small (omega (arith, le)) in
      rw e (
        rw op (
          split (cost + margin) (total - cost - margin) stakes,
          refl,
          omega (arith, sum, le),
          omega (arith, more),
        ))
]
