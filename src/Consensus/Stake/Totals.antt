-- ===== src/Consensus/Stake/Totals.antt =====
-- crates/qv-consensus/src/stake.rs: what a snapshot holds for each pool and in all.
use mathlib.Core.Bool.{and-eq-true_iff}
use l1_chain.Base.{
  ◌||◌, ℕ, ◌+◌, ◌*◌, ◌≤◌, ◌<◌, ◌≡◌, arith, List, [], ◌∷◌, true, false, Bool-cases, the, leb, ◌==◌,
  inl, inr, refl, if◌then◌else◌, ==_refl, ◌∙◌, ap, le→leb, subst, sym,
}
use l1_chain.Base.Bytes.{bytes_eq}
use l1_chain.Base.Outcome.{ok, err, ok_inj}
use l1_chain.Base.Word.{saturating_add, max_u64, saturating_add-eq}
use l1_chain.Consensus.Stake.{
  Stakes, StakeDistribution, add_stake, stake_of, collect, new, pool_stake, relative_stake,
  overflow,
}

-- The sum of all the stakes, not cut to 64 bits
abbrev pub sum_all : Stakes → ℕ
sum_all [] = 0
sum_all (s ∷ stakes) = s.1 + sum_all stakes

-- The sum of the stakes of one pool, by all its entries
abbrev pub sum_for : List ℕ → Stakes → ℕ
sum_for pid [] = 0
sum_for pid (s ∷ stakes) = (if bytes_eq s.0 pid then s.1 else 0) + sum_for pid stakes

pub bytes_eq-eq : (a b : List ℕ) → bytes_eq a b ≡ true → a ≡ b
bytes_eq-eq [] [] h = refl
bytes_eq-eq [] (y ∷ ys) h = cc
bytes_eq-eq (x ∷ xs) [] h = cc
bytes_eq-eq (x ∷ xs) (y ∷ ys) h =
    let (heads, tails) = (and-eq-true_iff (x == y) (bytes_eq xs ys)).0 h in
    let same : x ≡ y = ground (arith, heads) in
    ap (λ z. z ∷ xs) same ∙ ap (λ zs. y ∷ zs) (bytes_eq-eq xs ys tails)

pub bytes_eq_refl : (a : List ℕ) → bytes_eq a a ≡ true
bytes_eq_refl [] = refl
bytes_eq_refl (x ∷ xs) = rw (==_refl x) (bytes_eq_refl xs)

pub bytes_eq-other :
    (k pid q : List ℕ) → bytes_eq k pid ≡ false → bytes_eq k q ≡ true → bytes_eq pid q ≡ false
bytes_eq-other k pid q e f = elim (Bool-cases (bytes_eq pid q)) [
  | inl g ↦
      let same : bytes_eq k pid ≡ true =
        rw (bytes_eq-eq k q f) (rw (bytes_eq-eq pid q g) (bytes_eq_refl q)) in
      cc
  | inr g ↦ g
]

-- The stake of a pool behind an addition that does not saturate
pub stake_of-add :
    (stakes : Stakes) (pid q : List ℕ) (val : ℕ)
    → val ≤ max_u64
    → stake_of (add_stake stakes pid val) q
      ≡ (if bytes_eq pid q then saturating_add (stake_of stakes q) val else stake_of stakes q)
unfolding stake_of add_stake
stake_of-add [] pid q val h =
    rw (the (saturating_add 0 val ≡ val) (saturating_add-eq 0 val (omega arith) ∙ omega arith)) refl
stake_of-add ((k, s) ∷ rest) pid q val h = elim (Bool-cases (bytes_eq k pid)) [
  | inl e ↦ rw⁻¹ (bytes_eq-eq k pid e) (
      rw (bytes_eq_refl k)
        (elim (Bool-cases (bytes_eq k q)) [ inl f ↦ rw f refl | inr f ↦ rw f refl ]))
  | inr e ↦ rw e (elim (Bool-cases (bytes_eq k q)) [
    | inl f ↦ rw f (rw (bytes_eq-other k pid q e f) refl)
    | inr f ↦ rw f (stake_of-add rest pid q val h)
  ])
]

sum_all-add :
    (stakes : Stakes) (pid : List ℕ) (val : ℕ)
    → sum_all stakes + val ≤ max_u64
    → sum_all (add_stake stakes pid val) ≡ sum_all stakes + val
unfolding add_stake saturating_add
sum_all-add [] pid val h = omega arith
sum_all-add ((k, s) ∷ rest) pid val h = ground (arith, sum_all-add rest pid val (omega arith))

pub sum_all-add_le :
    (stakes : Stakes) (pid : List ℕ) (val : ℕ)
    → sum_all (add_stake stakes pid val) ≤ sum_all stakes + val
unfolding add_stake saturating_add
sum_all-add_le [] pid val = omega arith
sum_all-add_le ((k, s) ∷ rest) pid val = ground (arith, sum_all-add_le rest pid val)

stake_of-le : (stakes : Stakes) (pid : List ℕ) → stake_of stakes pid ≤ sum_all stakes
unfolding stake_of
stake_of-le [] pid = omega arith
stake_of-le ((k, s) ∷ rest) pid = ground (arith, stake_of-le rest pid)

collect-totals :
    (entries stakes : Stakes) (total : ℕ)
    → sum_all stakes ≡ total
    → total + sum_all entries ≤ max_u64
    → (r : Stakes × ℕ) × (collect entries stakes total ≡ ok r)
      × (r.1 ≡ total + sum_all entries)
      × (sum_all r.0 ≡ r.1)
      × ((q : List ℕ) → stake_of r.0 q ≡ stake_of stakes q + sum_for q entries)
unfolding collect
collect-totals [] stakes total h fits = ((stakes, total), refl, omega arith, h, λ q. omega arith)
collect-totals ((pid, val) ∷ entries) stakes total h fits = elim (Bool-cases (val == 0)) [
  | inl e ↦
      let (r, done, all, sum, each) = collect-totals entries stakes total h (omega arith) in
      rw e (r, done, ground arith, sum, λ q. ground (arith, each q))
  | inr e ↦
      let (r, done, all, sum, each) =
        collect-totals entries (add_stake stakes pid val) (total + val)
          (sum_all-add stakes pid val (omega arith) ∙ ap (λ t. t + val) h) (omega arith) in
      rw e (
        rw (le→leb (total + val) max_u64 (omega arith)) (
          r,
          done,
          omega (arith, all),
          sum,
          λ q. ground (
            arith,
            each q,
            stake_of-add stakes pid q val (omega arith),
            saturating_add-eq (stake_of stakes q) val (omega (arith, h, stake_of-le stakes q)),
          ),
        ))
]

collect-overflow :
    (entries stakes : Stakes) (total : ℕ)
    → total ≤ max_u64
    → max_u64 < total + sum_all entries
    → collect entries stakes total ≡ err overflow
unfolding collect
collect-overflow [] stakes total t big = absurd (omega arith)
collect-overflow ((pid, val) ∷ entries) stakes total t big = elim (Bool-cases (val == 0)) [
  | inl e ↦ rw e (collect-overflow entries stakes total t (ground arith))
  | inr e ↦ rw e (elim (Bool-cases (leb (total + val) max_u64)) [
    | inl f ↦ rw f (collect-overflow entries _ (total + val) (ground arith) (omega arith))
    | inr f ↦ rw f refl
  ])
]

-- When the stakes of the entries add up to a 64-bit number, `StakeDistribution::new` returns a
-- distribution whose total is that sum and also the sum of the stakes it holds, and whose stake of
-- each pool is the sum of that pool's entries.
pub new-totals :
    (e : ℕ) (entries : Stakes)
    → sum_all entries ≤ max_u64
    → (d : StakeDistribution) × (new e entries ≡ ok d)
      × (d.total_stake ≡ sum_all entries)
      × (sum_all d.pool_stakes ≡ d.total_stake)
      × ((q : List ℕ) → pool_stake d q ≡ sum_for q entries)
unfolding new pool_stake stake_of
new-totals e entries fits =
    let (r, done, all, sum, each) = collect-totals entries [] 0 refl (omega arith) in
    rw done (
      record { epoch = e; pool_stakes = r.0; total_stake = r.1 },
      refl,
      omega arith,
      sum,
      λ q. each q ∙ omega arith,
    )

-- When the stakes of the entries add up to more than 64 bits hold, `StakeDistribution::new` fails
-- with `Overflow`.
new-overflow : (e : ℕ) (entries : Stakes) → max_u64 < sum_all entries → new e entries ≡ err overflow
unfolding new
new-overflow e entries big = rw (collect-overflow entries [] 0 (omega arith) (omega arith)) refl

-- What `new` has returned
new-held :
    (e : ℕ) (entries : Stakes) (d : StakeDistribution)
    → new e entries ≡ ok d
    → (sum_all d.pool_stakes ≡ d.total_stake) × ((q : List ℕ) → pool_stake d q ≡ sum_for q entries)
new-held e entries d h = elim (Bool-cases (leb (sum_all entries) max_u64)) [
  | inl fits ↦
      let (d', done, total, sum, each) = new-totals e entries (ground (arith, fits)) in
      subst
        (λ x.
          (sum_all x.pool_stakes ≡ x.total_stake)
          × ((q : List ℕ) → pool_stake x q ≡ sum_for q entries))
        (ok_inj (sym done ∙ h)) (sum, each)
  | inr big ↦ let failed = new-overflow e entries (ground (arith, big)) in cc
]

pub new-pool_stake :
    (e : ℕ) (entries : Stakes) (d : StakeDistribution)
    → new e entries ≡ ok d
    → (q : List ℕ) → pool_stake d q ≡ sum_for q entries
new-pool_stake e entries d h = (new-held e entries d h).1

-- The fraction of the stake that a pool holds: `relative_stake` of a distribution that
-- `StakeDistribution::new` returned is a fraction of at most 1 with a positive denominator, and its
-- numerator times the total stake is the pool's stake times its denominator.
relative_stake-fraction :
    (e : ℕ) (entries : Stakes) (d : StakeDistribution) (q : List ℕ)
    → new e entries ≡ ok d
    → let f = relative_stake d q in
      (f.0 ≤ f.1) × (0 < f.1) × (f.0 * d.total_stake ≡ pool_stake d q * f.1)
unfolding relative_stake pool_stake
relative_stake-fraction e entries d q h =
    let sum = (new-held e entries d h).0 in
    let le = stake_of-le d.pool_stakes q in
    elim (Bool-cases ((d.total_stake == 0) || (stake_of d.pool_stakes q == 0))) [
      | inl f ↦
          let empty : stake_of d.pool_stakes q ≡ 0 = ground arith in
          rw f (omega arith, omega arith, omega arith)
      | inr f ↦ rw f (omega arith, ground arith, omega arith)
    ]
