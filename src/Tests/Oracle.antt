-- ===== src/Tests/Oracle.antt =====
-- Runs of the price oracle.
use l1_chain.Base.{
  ℕ, ◌+◌, ◌*◌, ◌≤◌, ◌<◌, ◌≡◌, ◌-◌, ◌⊎◌, ◌/◌, arith, [], ◌∷◌, refl, leb, get_elem?, take, All, some,
  min,
}
use l1_chain.Base.Outcome.{ok, err}
use l1_chain.Defi.Oracle.{
  PriceObservation, OracleWindow, manipulation_detected, add_observation, prices, aggregate_median,
  compute_twap, detect_manipulation,
}
use l1_chain.Defi.Oracle.Twap.{compute_twap-average}
use l1_chain.Defi.Oracle.Guard.{detect_manipulation-jump, detect_manipulation-near}
use l1_chain.Defi.Oracle.Median.{tally}
use l1_chain.Defi.Oracle.Accepted.{Near, Far, spread, aggregate_median-Judged}

abbrev seen : ℕ → ℕ → PriceObservation
seen price slot = record {
  pool_id = [];
  price_q64 = price;
  slot = slot;
  signer_pool_id = [];
  signature = [];
}

abbrev full_window : OracleWindow
full_window = record { pool_id = []; max_size = 2; observations = seen 5 1 ∷ seen 6 2 ∷ [] }

oldest_evicted : prices (add_observation full_window (seen 7 3)) ≡ 6 ∷ 7 ∷ []
unfolding prices add_observation
oldest_evicted = refl

weighted_average : compute_twap (seen 100 10 ∷ seen 200 30 ∷ seen 900 40 ∷ []) ≡ ok 133
unfolding compute_twap
weighted_average = refl

upper_middle : aggregate_median (250 ∷ 100 ∷ 200 ∷ 150 ∷ []) 10000 ≡ ok 200
unfolding aggregate_median
upper_middle = refl

-- The loop over the prices cuts the deviation as well.
median_jump : aggregate_median (625 ∷ 4721 ∷ 625 ∷ []) 0 ≡ ok 625
unfolding aggregate_median
median_jump = refl

compute_twap-average_example :
    (t : ℕ) × (compute_twap (seen 100 10 ∷ seen 200 30 ∷ seen 900 40 ∷ []) ≡ ok t)
    × (100 ≤ t)
    × (t ≤ 200)
compute_twap-average_example =
    compute_twap-average 100 200 (seen 100 10) (seen 200 30) (seen 900 40 ∷ [])
      (omega arith, (omega arith, tt))
      ((omega arith, omega arith), ((omega arith, omega arith), tt)) (omega arith) (omega arith)
      (omega arith)

detect_manipulation-jump_example :
    (detect_manipulation 1250 9442 500 ≡ ok tt) × (detect_manipulation 9442 1250 500 ≡ ok tt)
detect_manipulation-jump_example = detect_manipulation-jump 2 500 (omega arith) (omega arith)

detect_manipulation-near_example :
    ((detect_manipulation 1000 1051 500 ≡ ok tt)
      × (detect_manipulation 1051 1000 500 ≡ ok tt)
      × ((1051 - 1000) * 10000 < (500 + 1) * 1000))
    ⊎ ((detect_manipulation 1000 1051 500
          ≡ err (manipulation_detected ((1051 - 1000) * 10000 / 1000)))
        × (detect_manipulation 1051 1000 500
            ≡ err (manipulation_detected ((1051 - 1000) * 10000 / 1000)))
        × ((500 + 1) * 1000 ≤ (1051 - 1000) * 10000))
detect_manipulation-near_example =
    detect_manipulation-near 1000 1051 500 (omega arith) (omega arith) (omega arith) (omega arith)

aggregate_median-Judged_example :
    (m : ℕ) × (3 ≤ tally (λ t. leb t m) (100 ∷ 105 ∷ 99 ∷ []) * 2)
    × (3 ≤ tally (λ t. leb m t) (100 ∷ 105 ∷ 99 ∷ []) * 2)
    × (((aggregate_median (100 ∷ 105 ∷ 99 ∷ []) 300 ≡ ok m)
          × All (Near 300 m) (100 ∷ 105 ∷ 99 ∷ []))
        ⊎ ((i : ℕ) × (p : ℕ) × (get_elem? (100 ∷ 105 ∷ 99 ∷ []) i ≡ some p)
            × All (Near 300 m) (take i (100 ∷ 105 ∷ 99 ∷ []))
            × Far 300 m p
            × (aggregate_median (100 ∷ 105 ∷ 99 ∷ []) 300
                ≡ err (manipulation_detected (spread p m * 10000 / min p m)))))
aggregate_median-Judged_example =
    aggregate_median-Judged (100 ∷ 105 ∷ 99 ∷ []) 99 105 300 (omega arith) (omega arith)
      (omega arith) (omega arith)
      ((omega arith, omega arith), ((omega arith, omega arith), ((omega arith, omega arith), tt)))

outlier : aggregate_median (100 ∷ 105 ∷ 99 ∷ []) 300 ≡ err (manipulation_detected 500)
unfolding aggregate_median
outlier = refl
