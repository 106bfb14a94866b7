-- ===== src/Defi/Oracle.antt =====
-- crates/qv-defi/src/oracle.rs: price observations, their window, the median, the time-weighted
-- average and the guard against manipulation. `sort_unstable` is an insertion sort: equal prices
-- are the same.
pub mod Twap
pub mod Guard
pub mod Median
pub mod Accepted
use l1_chain.Base.{
  ℕ, suc, ◌+◌, ◌-◌, ◌*◌, ◌/◌, ◌%◌, ◌^◌, List, [], ◌∷◌, ◌++◌, Bool, ◌||◌, ltb, leb, ◌==◌,
  if◌then◌else◌, Option, none, some, length, drop, map, get_elem?,
}
use l1_chain.Base.Outcome.{Outcome, ok, err, panic, ◌>>=◌}
use l1_chain.Base.Word.{max_u64}

pub data OracleError : Type 0 where
  insufficient_observations : ℕ → ℕ → OracleError
  empty_window : OracleError
  manipulation_detected : ℕ → OracleError
  invalid_signature : OracleError
  zero_duration : OracleError
  overflow : OracleError

pub record PriceObservation : Type 0 where
  pub pool_id : List ℕ
  pub price_q64 : ℕ
  pub slot : ℕ
  pub signer_pool_id : List ℕ
  pub signature : List ℕ

-- `PriceObservation::validate`
unfoldable pub validate : PriceObservation → ℕ → ℕ → Outcome {0, 0} OracleError Unit
validate o current_slot max_slot_age =
    if ltb current_slot o.slot
    then err invalid_signature
    else if ltb max_slot_age (current_slot - o.slot)
    then err invalid_signature
    else ok tt

pub record OracleWindow : Type 0 where
  pub pool_id : List ℕ
  pub max_size : ℕ
  pub observations : List PriceObservation

-- `OracleWindow::add_observation`
unfoldable pub add_observation : OracleWindow → PriceObservation → OracleWindow
add_observation w o =
    let kept =
      if leb w.max_size (length w.observations) then drop 1 w.observations else w.observations in
    record w { observations = kept ++ (o ∷ []) }

-- `OracleWindow::prices`
unfoldable pub prices : OracleWindow → List ℕ
prices w = map (λ (o : PriceObservation). o.price_q64) w.observations

unfoldable pub insert_price : ℕ → List ℕ → List ℕ
insert_price p [] = p ∷ []
insert_price p (q ∷ qs) = if leb p q then p ∷ q ∷ qs else q ∷ insert_price p qs

-- `sorted.sort_unstable()`
unfoldable pub sort_prices : List ℕ → List ℕ
unfolding insert_price
sort_prices [] = []
sort_prices (p ∷ ps) = insert_price p (sort_prices ps)

-- `checked_mul(10_000).and_then(checked_div).unwrap_or(default) as u16`
unfoldable pub deviation_bps : ℕ → ℕ → ℕ → ℕ
deviation_bps default low high =
    (if ltb (2 ^ 128 - 1) ((high - low) * 10000)
      then default
      else if low == 0
      then default
      else ((high - low) * 10000) / low)
    % 2 ^ 16

-- The loop of `aggregate_median`
unfoldable pub check_prices : ℕ → ℕ → List ℕ → Outcome {0, 0} OracleError Unit
unfolding deviation_bps
check_prices median max_dev [] = ok tt
check_prices median max_dev (p ∷ ps) =
    let rest = check_prices median max_dev ps in
    if (p == 0) || (median == 0)
    then rest
    else (let low = if ltb p median then p else median in
        let high = if ltb p median then median else p in
        let deviation = if low == 0 then 10000 else deviation_bps 10000 low high in
        if ltb max_dev deviation then err (manipulation_detected deviation) else rest)

-- `aggregate_median`
unfoldable pub aggregate_median : List ℕ → ℕ → Outcome {0, 0} OracleError ℕ
unfolding sort_prices check_prices
aggregate_median ps max_dev =
    if ltb (length ps) 3
    then err (insufficient_observations (length ps) 3)
    else (let sorted = sort_prices ps in
        elim (get_elem? sorted (length sorted / 2)) [
          | none ↦ panic
          | some median ↦ check_prices median max_dev ps >>= λ _. ok median
        ])

-- The loop of `compute_twap`: the sums so far, and the first of the next two observations
unfoldable pub twap_loop :
    ℕ → ℕ → PriceObservation → List PriceObservation → Outcome {0, 0} OracleError (ℕ × ℕ)
twap_loop sum_price_time sum_time o [] = ok (sum_price_time, sum_time)
twap_loop sum_price_time sum_time o (p ∷ ps) =
    let dt = p.slot - o.slot in
    if ltb p.slot o.slot
    then err overflow
    else if ltb (2 ^ 128 - 1) (o.price_q64 * dt)
    then err overflow
    else if ltb (2 ^ 128 - 1) (sum_price_time + o.price_q64 * dt)
    then err overflow
    else if ltb max_u64 (sum_time + dt)
    then err overflow
    else twap_loop (sum_price_time + o.price_q64 * dt) (sum_time + dt) p ps

-- `compute_twap`
unfoldable pub compute_twap : List PriceObservation → Outcome {0, 0} OracleError ℕ
unfolding twap_loop
compute_twap [] = err empty_window
compute_twap (o ∷ []) = ok o.price_q64
compute_twap (o ∷ p ∷ ps) = twap_loop 0 0 o (p ∷ ps) >>= λ (sum_price_time, sum_time).
    if sum_time == 0 then err zero_duration else ok (sum_price_time / sum_time)

-- `detect_manipulation`
unfoldable pub detect_manipulation : ℕ → ℕ → ℕ → Outcome {0, 0} OracleError Unit
unfolding deviation_bps
detect_manipulation prev current max_dev =
    if (prev == 0) || (current == 0)
    then ok tt
    else (let low = if ltb prev current then prev else current in
        let high = if ltb prev current then current else prev in
        let deviation = deviation_bps 10001 low high in
        if ltb max_dev deviation then err (manipulation_detected deviation) else ok tt)
