-- ===== src/Defi/Oracle/Accepted.antt =====
-- crates/qv-defi/src/oracle.rs: which prices `aggregate_median` accepts.
use native.Mathlib.Nat.{div-mul-le_self, lt-div-mul-add, mul-le-mul}
use l1_chain.Base.{
  ℕ, suc, ◌+◌, ◌-◌, ◌*◌, ◌/◌, ◌^◌, ◌≤◌, ◌<◌, ◌≡◌, arith, List, [], ◌∷◌, true, false, ltb, leb, ◌==◌,
  ◌||◌, refl, the, Bool-cases, inl, inr, ◌⊎◌, if◌then◌else◌, length, get_elem?, take, some, All,
  All-get_elem?, min,
}
use l1_chain.Base.Outcome.{Outcome, ok, err}
use l1_chain.Defi.Oracle.{
  OracleError, manipulation_detected, sort_prices, check_prices, deviation_bps, aggregate_median,
}
use l1_chain.Defi.Oracle.Guard.{deviation_bps-near}
use l1_chain.Defi.Oracle.Median.{
  tally, length-sort_prices, tally-sort_prices, sort_prices-Sorted, All-sort_prices,
  get_elem?-found, tally-below, tally-above,
}

-- How far apart two prices are
abbrev pub spread : ℕ → ℕ → ℕ
spread p m = (p - m) + (m - p)

-- The price is less than `max_dev + 1` basis points of the lower one away from the median.
abbrev pub Near : ℕ → ℕ → ℕ → Type 0
Near max_dev m p = spread p m * 10000 < (max_dev + 1) * min p m

abbrev pub Far : ℕ → ℕ → ℕ → Type 0
Far max_dev m p = (max_dev + 1) * min p m ≤ spread p m * 10000

-- The price is between the two bounds.
abbrev pub Within : ℕ → ℕ → ℕ → Type 0
Within low high p = (low ≤ p) × (p ≤ high)

over_limit : (a low max_dev : ℕ) → 0 < low → ltb max_dev (a / low) ≡ true → (max_dev + 1) * low ≤ a
over_limit a low max_dev pos over =
    let product : (max_dev + 1) * low ≤ a / low * low =
      mul-le-mul (the (max_dev + 1 ≤ a / low) (ground (arith, over)))
        (the (low ≤ low) (omega arith)) in
    omega (arith, div-mul-le_self a low)

under_limit :
    (a low max_dev : ℕ) → 0 < low → ltb max_dev (a / low) ≡ false → a < (max_dev + 1) * low
under_limit a low max_dev pos under =
    let product : (a / low + 1) * low ≤ (max_dev + 1) * low =
      mul-le-mul (the (a / low + 1 ≤ max_dev + 1) (ground (arith, under)))
        (the (low ≤ low) (omega arith)) in
    let top : a < a / low * low + low = lt-div-mul-add pos in omega arith

-- What the loop over the prices returns: all are near the median, or the first that is not gives the
-- error.
abbrev pub Judged : ℕ → ℕ → List ℕ → Outcome {0, 0} OracleError Unit → Type 0
Judged max_dev m ps r =
    ((r ≡ ok tt) × All (Near max_dev m) ps)
    ⊎ ((i : ℕ) × (p : ℕ) × (get_elem? ps i ≡ some p)
        × All (Near max_dev m) (take i ps)
        × Far max_dev m p
        × (r ≡ err (manipulation_detected (spread p m * 10000 / min p m))))

module _ (low high m max_dev : ℕ) (pos : 0 < low) (fits : high * 10000 < 2 ^ 128)
    (narrow : high * 10000 < 75536 * low) (inside : Within low high m) where
  -- The deviation of one price, as the loop computes it
  deviation_bps-spread :
      (p : ℕ)
      → Within low high p
      → (let lower = if ltb p m then p else m in
          let upper = if ltb p m then m else p in
          if lower == 0 then 10000 else deviation_bps 10000 lower upper)
        ≡ spread p m * 10000 / min p m
  deviation_bps-spread p within = elim (Bool-cases (ltb p m)) [
    | inl below ↦
        let some_price : (p == 0) ≡ false = ground (arith, within) in
        let lower : min p m ≡ p = ground (arith, below) in
        let gap : spread p m ≡ m - p = ground (arith, below) in
        rw below (
          rw some_price (
            rw lower
              (rw gap (deviation_bps-near p m (omega arith) (omega arith) (omega arith) 10000))))
    | inr above ↦
        let some_price : (m == 0) ≡ false = ground (arith, inside) in
        let lower : min p m ≡ m = ground (arith, above) in
        let gap : spread p m ≡ p - m = ground (arith, above) in
        rw above (
          rw some_price (
            rw lower
              (rw gap (deviation_bps-near m p (omega arith) (omega arith) (omega arith) 10000))))
  ]

  check_prices-Judged :
      (ps : List ℕ) → All (Within low high) ps → Judged max_dev m ps (check_prices m max_dev ps)
  unfolding check_prices
  check_prices-Judged [] all = inl (refl, tt)
  check_prices-Judged (p ∷ ps) (within, all) =
      let judged : ((p == 0) || (m == 0)) ≡ false = ground (arith, within, inside) in
      let lowest : 0 < min p m = ground (arith, within, inside) in
      rw judged (
        rw (deviation_bps-spread p within)
          (elim (Bool-cases (ltb max_dev (spread p m * 10000 / min p m))) [
            | inl over ↦ rw over (
                inr (
                  0,
                  p,
                  refl,
                  tt,
                  over_limit (spread p m * 10000) (min p m) max_dev lowest over,
                  refl,
                ))
            | inr under ↦
                let near = under_limit (spread p m * 10000) (min p m) max_dev lowest under in
                rw under (elim (check_prices-Judged ps all) [
                  | inl (passed, rest) ↦ inl (passed, (near, rest))
                  | inr (i, q, g, before, far, failed) ↦
                      inr (suc i, q, g, (near, before), far, failed)
                ])
          ]))

-- For at least 3 prices between two bounds, the lower positive, the upper less than 7.5536 times the
-- lower and its product with 10000 of 128 bits, aggregate_median takes a median: at least half of
-- the prices are at or below it, and at least half at or above it. If every price is less than
-- max_dev + 1 basis points of the lower one of the two away from it, aggregate_median returns it;
-- otherwise it fails with the deviation of the first price that is not.
pub aggregate_median-Judged :
    (ps : List ℕ) (low high max_dev : ℕ)
    → 3 ≤ length ps
    → 0 < low
    → high * 10000 < 2 ^ 128
    → high * 10000 < 75536 * low
    → All (Within low high) ps
    → (m : ℕ) × (length ps ≤ tally (λ t. leb t m) ps * 2)
      × (length ps ≤ tally (λ t. leb m t) ps * 2)
      × (((aggregate_median ps max_dev ≡ ok m) × All (Near max_dev m) ps)
          ⊎ ((i : ℕ) × (p : ℕ) × (get_elem? ps i ≡ some p)
              × All (Near max_dev m) (take i ps)
              × Far max_dev m p
              × (aggregate_median ps max_dev
                  ≡ err (manipulation_detected (spread p m * 10000 / min p m)))))
unfolding aggregate_median
aggregate_median-Judged ps low high max_dev enough pos fits narrow all =
    let xs = sort_prices ps in
    let i = length xs / 2 in
    let sizes = length-sort_prices ps in
    let half : i * 2 ≤ length xs = div-mul-le_self (length xs) 2 in
    let rest : length xs < i * 2 + 2 = lt-div-mul-add (omega arith) in
    let (m, g) = get_elem?-found xs i (omega arith) in
    let below = tally-below xs i m (sort_prices-Sorted ps) g in
    let above = tally-above xs i m (sort_prices-Sorted ps) g in
    let below_same = tally-sort_prices (λ t. leb t m) ps in
    let above_same = tally-sort_prices (λ t. leb m t) ps in
    let long : ltb (length ps) 3 ≡ false = ground (arith, enough) in
    let inside =
      All-get_elem? (Within low high) xs i m (All-sort_prices (Within low high) ps all) g in
    (
      m,
      omega arith,
      omega arith,
      elim (check_prices-Judged low high m max_dev pos fits narrow inside ps all) [
        | inl (good, near) ↦ inl (rw long (rw g (rw good refl)), near)
        | inr (j, p, at, before, far, bad) ↦
            inr (j, p, at, before, far, rw long (rw g (rw bad refl)))
      ],
    )
