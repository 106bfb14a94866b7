-- ===== src/Defi/Oracle/Guard.antt =====
-- crates/qv-defi/src/oracle.rs: what the guard against manipulation accepts. The deviation in basis
-- points is cut to 16 bits.
use native.Mathlib.Nat.{
  mul-div_cancel_left, mod-eq_of_lt, lt-div-mul-add, div-mul-le_self, mul-le-mul,
}
use l1_chain.Base.{
  ℕ, ◌+◌, ◌-◌, ◌*◌, ◌/◌, ◌^◌, ◌≤◌, ◌<◌, ◌≡◌, arith, true, false, ltb, ◌==◌, refl, the, ap, sym, ◌∙◌,
  Bool-cases, inl, inr, ◌⊎◌, if◌then◌else◌,
}
use l1_chain.Base.Outcome.{Outcome, ok, err}
use l1_chain.Defi.Oracle.{OracleError, manipulation_detected, deviation_bps, detect_manipulation}

-- A deviation of 65536 basis points is cut to none.
deviation_bps-jump :
    (default q : ℕ)
    → 0 < q
    → q * 40960000 < 2 ^ 128
    → deviation_bps default (625 * q) (4721 * q) ≡ 0
unfolding deviation_bps
deviation_bps-jump default q pos fits =
    let small : ltb (2 ^ 128 - 1) ((4721 * q - 625 * q) * 10000) ≡ false = ground (arith, fits) in
    let some_price : (625 * q == 0) ≡ false = ground (arith, pos) in
    let product : (4721 * q - 625 * q) * 10000 ≡ (625 * q) * 65536 = omega arith in
    let whole : (4721 * q - 625 * q) * 10000 / (625 * q) ≡ 65536 =
      ap (λ t. t / (625 * q)) product ∙ mul-div_cancel_left 65536 (omega arith) in
    rw small (rw some_price (rw whole refl))

-- Between a price that is a positive multiple of 625 and 7.5536 times that price, 65536 basis points
-- above it, detect_manipulation returns without an error in both directions, whatever deviation is
-- allowed, if 10000 times their difference fits in 128 bits.
pub detect_manipulation-jump :
    (q max_dev : ℕ)
    → 0 < q
    → q * 40960000 < 2 ^ 128
    → (detect_manipulation (625 * q) (4721 * q) max_dev ≡ ok tt)
      × (detect_manipulation (4721 * q) (625 * q) max_dev ≡ ok tt)
unfolding detect_manipulation
detect_manipulation-jump q max_dev pos fits =
    let up : ltb (625 * q) (4721 * q) ≡ true = ground (arith, pos) in
    let down : ltb (4721 * q) (625 * q) ≡ false = ground (arith, pos) in
    let low_price : (625 * q == 0) ≡ false = ground (arith, pos) in
    let high_price : (4721 * q == 0) ≡ false = ground (arith, pos) in
    let none_seen = deviation_bps-jump 10001 q pos fits in
    let open_guard : ltb max_dev 0 ≡ false = ground arith in
    (
      rw low_price (rw high_price (rw up (rw none_seen (rw open_guard refl)))),
      rw low_price (rw high_price (rw down (rw none_seen (rw open_guard refl)))),
    )

module _ (low high : ℕ) (pos : 0 < low) (fits : high * 10000 < 2 ^ 128)
    (near : high * 10000 < 75536 * low) where
  quotient_below : (high - low) * 10000 / low < 2 ^ 16
  quotient_below = elim (Bool-cases (ltb ((high - low) * 10000 / low) (2 ^ 16))) [
    | inl less ↦ ground (arith, less)
    | inr more ↦
        let at_least : 65536 ≤ (high - low) * 10000 / low = ground (arith, more) in
        let product : 65536 * low ≤ (high - low) * 10000 / low * low =
          mul-le-mul at_least (the (low ≤ low) (omega arith)) in
        absurd (omega (arith, div-mul-le_self ((high - low) * 10000) low))
  ]

  pub deviation_bps-near :
      (default : ℕ) → deviation_bps default low high ≡ (high - low) * 10000 / low
  unfolding deviation_bps
  deviation_bps-near default =
      let small : ltb (2 ^ 128 - 1) ((high - low) * 10000) ≡ false = ground (arith, fits) in
      let some_price : (low == 0) ≡ false = ground (arith, pos) in
      rw small (rw some_price (mod-eq_of_lt quotient_below))

  -- The guard in both directions, with the deviation written out
  detect_manipulation-deviation :
      (max_dev : ℕ) (answer : Outcome {0, 0} OracleError Unit)
      → low ≤ high
      → answer ≡ (
          if ltb max_dev ((high - low) * 10000 / low)
          then err (manipulation_detected ((high - low) * 10000 / low))
          else ok tt)
      → (detect_manipulation low high max_dev ≡ answer)
        × (detect_manipulation high low max_dev ≡ answer)
  unfolding detect_manipulation
  detect_manipulation-deviation max_dev answer ordered known =
      let low_price : (low == 0) ≡ false = ground (arith, pos) in
      let high_price : (high == 0) ≡ false = ground (arith, pos) in
      let down : ltb high low ≡ false = ground (arith, ordered) in
      let seen = deviation_bps-near 10001 in
      (
        elim (Bool-cases (ltb low high)) [
          | inl up ↦ rw low_price (rw high_price (rw up (rw seen (sym known))))
          | inr level ↦
              let same : high ≡ low = ground (arith, ordered, level) in
              rw low_price (
                rw high_price (
                  rw level (
                    ap
                      (λ t.
                        the (Outcome {0, 0} OracleError Unit)
                          (if ltb max_dev t then err (manipulation_detected t) else ok tt))
                      (ap (λ t. deviation_bps 10001 t low) same
                        ∙ ap (λ t. deviation_bps 10001 low t) (sym same)
                        ∙ seen)
                    ∙ sym known)))
        ],
        rw low_price (rw high_price (rw down (rw seen (sym known)))),
      )

-- For positive prices whose products with 10000 fit in 128 bits, the higher less than 7.5536 times
-- the lower, detect_manipulation accepts the two prices in both orders if their difference is less
-- than max_dev + 1 basis points of the lower one, and otherwise fails in both orders with the
-- deviation.
pub detect_manipulation-near :
    (low high max_dev : ℕ)
    → 0 < low
    → low ≤ high
    → high * 10000 < 2 ^ 128
    → high * 10000 < 75536 * low
    → ((detect_manipulation low high max_dev ≡ ok tt)
        × (detect_manipulation high low max_dev ≡ ok tt)
        × ((high - low) * 10000 < (max_dev + 1) * low))
      ⊎ ((detect_manipulation low high max_dev
            ≡ err (manipulation_detected ((high - low) * 10000 / low)))
          × (detect_manipulation high low max_dev
              ≡ err (manipulation_detected ((high - low) * 10000 / low)))
          × ((max_dev + 1) * low ≤ (high - low) * 10000))
detect_manipulation-near low high max_dev pos ordered fits near =
    let q = (high - low) * 10000 / low in
    elim (Bool-cases (ltb max_dev q)) [
      | inl over ↦
          let (a, b) =
            detect_manipulation-deviation low high pos fits near max_dev
              (err (manipulation_detected q)) ordered (rw over refl) in
          let product : (max_dev + 1) * low ≤ q * low =
            mul-le-mul (the (max_dev + 1 ≤ q) (ground (arith, over)))
              (the (low ≤ low) (omega arith)) in
          inr (a, b, omega (arith, div-mul-le_self ((high - low) * 10000) low))
      | inr under ↦
          let (a, b) =
            detect_manipulation-deviation low high pos fits near max_dev (ok tt) ordered
              (rw under refl) in
          let product : (q + 1) * low ≤ (max_dev + 1) * low =
            mul-le-mul (the (q + 1 ≤ max_dev + 1) (ground (arith, under)))
              (the (low ≤ low) (omega arith)) in
          let top : (high - low) * 10000 < q * low + low = lt-div-mul-add pos in
          inl (a, b, omega arith)
    ]
