-- ===== src/Defi/Oracle/Twap.antt =====
-- crates/qv-defi/src/oracle.rs: the time-weighted average lies between the prices.
use native.Mathlib.Nat.{mul-le-mul, div-mul-le_self, lt-div-mul-add}
use l1_chain.Base.{
  ℕ, ◌+◌, ◌-◌, ◌*◌, ◌/◌, ◌^◌, ◌≤◌, ◌<◌, ◌≡◌, arith, List, [], ◌∷◌, false, ltb, leb, ◌==◌, refl, the,
  Bool-cases, inl, inr,
}
use l1_chain.Base.Outcome.{ok}
use l1_chain.Base.Word.{max_u64}
use l1_chain.Defi.Oracle.{PriceObservation, twap_loop, compute_twap}

-- The slots do not go down.
abbrev pub Ascending : PriceObservation → List PriceObservation → Type 0
Ascending o [] = Unit
Ascending o (p ∷ ps) = (o.slot ≤ p.slot) × Ascending p ps

-- All prices, but the last one's, which has no weight, lie between the two.
abbrev pub Between : ℕ → ℕ → PriceObservation → List PriceObservation → Type 0
Between low high o [] = Unit
Between low high o (p ∷ ps) = ((low ≤ o.price_q64) × (o.price_q64 ≤ high)) × Between low high p ps

abbrev pub last_slot : PriceObservation → List PriceObservation → ℕ
last_slot o [] = o.slot
last_slot o (p ∷ ps) = last_slot p ps

last_slot-ge :
    (o : PriceObservation) (ps : List PriceObservation) → Ascending o ps → o.slot ≤ last_slot o ps
last_slot-ge o [] up = omega arith
last_slot-ge o (p ∷ ps) (first, rest) = let later = last_slot-ge p ps rest in omega arith

-- The sums after one more observation
weighted :
    (low high price time sum dt : ℕ)
    → low * time ≤ sum
    → sum ≤ high * time
    → low ≤ price
    → price ≤ high
    → (low * (time + dt) ≤ sum + price * dt) × (sum + price * dt ≤ high * (time + dt))
weighted low high price time sum dt above below cheap dear =
    let a : low * dt ≤ price * dt = mul-le-mul cheap (the (dt ≤ dt) (omega arith)) in
    let b : price * dt ≤ high * dt = mul-le-mul dear (the (dt ≤ dt) (omega arith)) in
    let c : low * (time + dt) ≡ low * time + low * dt = grind arith in
    let d : high * (time + dt) ≡ high * time + high * dt = grind arith in (omega arith, omega arith)

module _ (low high span : ℕ) (narrow : span ≤ max_u64) (fits : high * span < 2 ^ 128) where
  twap_loop-average :
      (sum time : ℕ) (o : PriceObservation) (ps : List PriceObservation)
      → low * time ≤ sum
      → sum ≤ high * time
      → Ascending o ps
      → Between low high o ps
      → time + (last_slot o ps - o.slot) ≤ span
      → (sum' time' : ℕ) × (twap_loop sum time o ps ≡ ok (sum', time'))
        × (time' ≡ time + (last_slot o ps - o.slot))
        × (low * time' ≤ sum')
        × (sum' ≤ high * time')
  unfolding twap_loop
  twap_loop-average sum time o [] above below up between within =
      (sum, time, refl, omega arith, above, below)
  twap_loop-average sum time o (p ∷ ps) above below (first, up) ((cheap, dear), between) within =
      let dt = p.slot - o.slot in
      let later = last_slot-ge p ps up in
      let (above', below') = weighted low high o.price_q64 time sum dt above below cheap dear in
      let room : high * (time + dt) ≤ high * span =
        mul-le-mul (the (high ≤ high) (omega arith)) (the (time + dt ≤ span) (omega arith)) in
      let t1 : ltb p.slot o.slot ≡ false = ground (arith, first) in
      let t2 : ltb (2 ^ 128 - 1) (o.price_q64 * dt) ≡ false = ground (arith, below', room, fits) in
      let t3 : ltb (2 ^ 128 - 1) (sum + o.price_q64 * dt) ≡ false =
        ground (arith, below', room, fits) in
      let t4 : ltb max_u64 (time + dt) ≡ false = ground (arith, within, later, first, narrow) in
      let (sum', time', run, at, a, b) =
        twap_loop-average (sum + o.price_q64 * dt) (time + dt) p ps above' below' up between
          (omega arith) in
      (sum', time', rw t1 (rw t2 (rw t3 (rw t4 run))), omega arith, a, b)

average_between :
    (low high sum time : ℕ)
    → low * time ≤ sum
    → sum ≤ high * time
    → 0 < time
    → (low ≤ sum / time) × (sum / time ≤ high)
average_between low high sum time above below pos = (
  elim (Bool-cases (leb low (sum / time))) [
    | inl le ↦ ground (arith, le)
    | inr gt ↦
        let product : (sum / time + 1) * time ≤ low * time =
          mul-le-mul (the (sum / time + 1 ≤ low) (ground (arith, gt)))
            (the (time ≤ time) (omega arith)) in
        let top : sum < sum / time * time + time = lt-div-mul-add pos in absurd (omega arith)
  ],
  elim (Bool-cases (leb (sum / time) high)) [
    | inl le ↦ ground (arith, le)
    | inr gt ↦
        let product : (high + 1) * time ≤ sum / time * time =
          mul-le-mul (the (high + 1 ≤ sum / time) (ground (arith, gt)))
            (the (time ≤ time) (omega arith)) in
        absurd (omega (arith, div-mul-le_self sum time))
  ],
)

-- For observations whose slots do not go down and span a positive number of slots of 64 bits,
-- compute_twap returns; if all prices, but the last one's, which has no weight, lie between two
-- bounds, so does the average, the product of the upper bound and the span having 128 bits.
pub compute_twap-average :
    (low high : ℕ) (o p : PriceObservation) (ps : List PriceObservation)
    → Ascending o (p ∷ ps)
    → Between low high o (p ∷ ps)
    → o.slot < last_slot p ps
    → last_slot p ps ≤ max_u64
    → high * (last_slot p ps - o.slot) < 2 ^ 128
    → (t : ℕ) × (compute_twap (o ∷ p ∷ ps) ≡ ok t) × (low ≤ t) × (t ≤ high)
unfolding compute_twap
compute_twap-average low high o p ps up between positive narrow fits =
    let (sum, time, run, at, above, below) =
      twap_loop-average low high (last_slot p ps - o.slot) (omega arith) fits 0 0 o (p ∷ ps)
        (omega arith) (omega arith) up between (omega arith) in
    let some_time : (time == 0) ≡ false = ground (arith, at, positive) in
    let bounds = average_between low high sum time above below (omega (arith, at, positive)) in
    (sum / time, rw run (rw some_time refl), bounds.0, bounds.1)
