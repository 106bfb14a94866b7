-- ===== src/Defi/Amm/Liquidity.antt =====
-- crates/qv-defi/src/amm.rs: liquidity is added and removed in proportion to the reserves.
use native.Mathlib.Nat.{div-mul-le_self, mul-le-mul, lt-div-mul-add}
use l1_chain.Base.{
  ℕ, ◌+◌, ◌-◌, ◌*◌, ◌/◌, ◌%◌, ◌^◌, ◌≤◌, ◌<◌, ◌≡◌, arith, false, Bool-cases, inl, inr, ltb, leb,
  ◌==◌, ◌||◌, refl, the, subst, min, ◌⊎◌,
}
use l1_chain.Base.Outcome.{ok}
use l1_chain.Base.Word.{max_u64}
use l1_chain.Defi.Amm.{
  PoolDatum, mul_u128, div_u128, lp_issued, compute_add_liquidity, compute_remove_liquidity,
  dummy_datum,
}
use l1_chain.Defi.Amm.Sqrt.{sqrt_u128-floor}
use l1_chain.Defi.Amm.Swap.{add_u64-fits, sub_u64-fits}

mul_u128-fits : (a b : ℕ) → a ≤ max_u64 → b ≤ max_u64 → mul_u128 a b ≡ ok (a * b)
unfolding mul_u128
mul_u128-fits a b ha hb = let product : a * b ≤ max_u64 * max_u64 = mul-le-mul ha hb in ground arith

div_u128-pos : (a b : ℕ) → 0 < b → div_u128 a b ≡ ok (a / b)
unfolding div_u128
div_u128-pos a b h = ground arith

-- A share of at most the whole
share-le : (r burned total : ℕ) → 0 < total → burned ≤ total → r * burned / total ≤ r
share-le r burned total pos le =
    let low = div-mul-le_self (r * burned) total in
    let top : r * burned ≤ r * total = mul-le-mul (the (r ≤ r) (omega arith)) le in
    elim (Bool-cases (leb (r * burned / total) r)) [
      | inl fine ↦ ground (arith, fine)
      | inr over ↦
          let more : (r + 1) * total ≤ r * burned / total * total =
            mul-le-mul (the (r + 1 ≤ r * burned / total) (ground (arith, over)))
              (the (total ≤ total) (omega arith)) in
          let split : (r + 1) * total ≡ r * total + total = grind arith in absurd (omega arith)
    ]

-- For 64-bit numbers, when some tokens but no more than the total are burned,
-- `compute_remove_liquidity` succeeds: each amount is the reserve's share rounded down, the amounts
-- come out of the reserves and the burned tokens out of the total.
pub compute_remove_liquidity-share :
    (ra rb total burned : ℕ)
    → ra ≤ max_u64
    → rb ≤ max_u64
    → total ≤ max_u64
    → 0 < burned
    → burned ≤ total
    → (a : ℕ) × (b : ℕ) × (d : PoolDatum) × (compute_remove_liquidity ra rb total burned
        ≡ ok (a, b, d))
      × (a * total ≤ ra * burned)
      × (ra * burned < a * total + total)
      × (b * total ≤ rb * burned)
      × (rb * burned < b * total + total)
      × (d.reserve_a + a ≡ ra)
      × (d.reserve_b + b ≡ rb)
      × (d.lp_total + burned ≡ total)
unfolding compute_remove_liquidity dummy_datum
compute_remove_liquidity-share ra rb total burned ha hb ht pos le =
    let a = ra * burned / total in
    let b = rb * burned / total in
    let pos_total : 0 < total = omega arith in
    let la = share-le ra burned total pos_total le in
    let lb = share-le rb burned total pos_total le in
    let guards : ((total == 0) || (burned == 0)) ≡ false = ground arith in
    let fits : (ltb max_u64 a || ltb max_u64 b) ≡ false = ground (arith, la, lb) in
    (
      a,
      b,
      dummy_datum (ra - a) (rb - b) (total - burned),
      rw guards (
          rw (the (ltb total burned ≡ false) (ground arith)) (
            rw (mul_u128-fits ra burned ha (omega arith)) (
              rw (div_u128-pos (ra * burned) total pos_total) (
                rw (mul_u128-fits rb burned hb (omega arith)) (
                  rw (div_u128-pos (rb * burned) total pos_total) (
                    rw fits (
                      rw (sub_u64-fits ra a la)
                        (rw (sub_u64-fits rb b lb) (rw (sub_u64-fits total burned le) refl))))))))),
      div-mul-le_self (ra * burned) total,
      lt-div-mul-add pos_total,
      div-mul-le_self (rb * burned) total,
      lt-div-mul-add pos_total,
      omega arith,
      omega arith,
      omega arith,
    )

-- Adding to a pool that has tokens, for 64-bit numbers, positive reserves and amounts: where the new
-- reserves and the new total fit into 64 bits, `compute_add_liquidity` succeeds, adds the amounts
-- to the reserves, and issues at most the share of either amount in its reserve, one of the two
-- shares rounded down.
pub compute_add_liquidity-share :
    (ra rb total aa ab : ℕ)
    → 0 < total
    → 0 < ra
    → 0 < rb
    → 0 < aa
    → 0 < ab
    → ra + aa ≤ max_u64
    → rb + ab ≤ max_u64
    → total + min (total * aa / ra) (total * ab / rb) ≤ max_u64
    → (lp : ℕ) × (d : PoolDatum) × (compute_add_liquidity ra rb total aa ab ≡ ok (lp, d))
      × (lp * ra ≤ total * aa)
      × (lp * rb ≤ total * ab)
      × ((total * aa < lp * ra + ra) ⊎ (total * ab < lp * rb + rb))
      × (d.reserve_a ≡ ra + aa)
      × (d.reserve_b ≡ rb + ab)
      × (d.lp_total ≡ total + lp)
unfolding compute_add_liquidity lp_issued dummy_datum
compute_add_liquidity-share ra rb total aa ab pt pra prb paa pab fa fb ft =
    let sa = total * aa / ra in
    let sb = total * ab / rb in
    let lp = min sa sb in
    let guards : ((aa == 0) || (ab == 0)) ≡ false = ground arith in
    let some_total : (total == 0) ≡ false = ground arith in
    let fits : ltb max_u64 lp ≡ false = ground (arith, ft) in
    let le_a : lp * ra ≤ sa * ra =
      mul-le-mul (the (lp ≤ sa) (omega arith)) (the (ra ≤ ra) (omega arith)) in
    let le_b : lp * rb ≤ sb * rb =
      mul-le-mul (the (lp ≤ sb) (omega arith)) (the (rb ≤ rb) (omega arith)) in
    let high_a : total * aa < sa * ra + ra = lt-div-mul-add pra in
    let high_b : total * ab < sb * rb + rb = lt-div-mul-add prb in
    (
      lp,
      dummy_datum (ra + aa) (rb + ab) (total + lp),
      rw guards (
          rw some_total (
            rw (mul_u128-fits total aa (omega arith) (omega arith)) (
              rw (div_u128-pos (total * aa) ra pra) (
                rw (mul_u128-fits total ab (omega arith) (omega arith)) (
                  rw (div_u128-pos (total * ab) rb prb) (
                    rw fits (
                      rw (add_u64-fits ra aa fa)
                        (rw (add_u64-fits rb ab fb) (rw (add_u64-fits total lp ft) refl))))))))),
      omega (arith, div-mul-le_self (total * aa) ra),
      omega (arith, div-mul-le_self (total * ab) rb),
      elim (Bool-cases (leb sa sb)) [
        | inl le ↦
            inl (subst (λ m. total * aa < m * ra + ra) (the (sa ≡ lp) (ground (arith, le))) high_a)
        | inr gt ↦
            inr (subst (λ m. total * ab < m * rb + rb) (the (sb ≡ lp) (ground (arith, gt))) high_b)
      ],
      refl,
      refl,
      refl,
    )

-- The first deposit, for positive 64-bit amounts: `compute_add_liquidity` on a pool with no tokens
-- whose new reserves fit into 64 bits succeeds, and issues the integer square root of the product
-- of the amounts.
pub compute_add_liquidity-first :
    (ra rb aa ab : ℕ)
    → 0 < aa
    → 0 < ab
    → ra + aa ≤ max_u64
    → rb + ab ≤ max_u64
    → (lp : ℕ) × (d : PoolDatum) × (compute_add_liquidity ra rb 0 aa ab ≡ ok (lp, d))
      × (lp * lp ≤ aa * ab)
      × (aa * ab < (lp + 1) * (lp + 1))
      × (d.reserve_a ≡ ra + aa)
      × (d.reserve_b ≡ rb + ab)
      × (d.lp_total ≡ lp)
unfolding compute_add_liquidity lp_issued dummy_datum
compute_add_liquidity-first ra rb aa ab pa pb fa fb =
    let (r, done, low, high) = sqrt_u128-floor (aa * ab) in
    let guards : ((aa == 0) || (ab == 0)) ≡ false = ground arith in
    let product : aa * ab ≤ max_u64 * max_u64 =
      mul-le-mul (the (aa ≤ max_u64) (omega arith)) (the (ab ≤ max_u64) (omega arith)) in
    let small : r ≤ max_u64 = elim (Bool-cases (leb r max_u64)) [
      | inl fine ↦ ground (arith, fine)
      | inr over ↦
          let big : 2 ^ 64 ≤ r = ground (arith, over) in
          let square : 2 ^ 64 * 2 ^ 64 ≤ r * r = mul-le-mul big big in absurd (omega arith)
    ] in
    let cut : r % 2 ^ 64 ≡ r = omega arith in
    (
      r,
      dummy_datum (ra + aa) (rb + ab) r,
      rw guards (
          rw (mul_u128-fits aa ab (omega arith) (omega arith)) (
            rw done (
              rw cut (
                rw (add_u64-fits ra aa fa) (
                  rw (add_u64-fits rb ab fb) (
                    rw (add_u64-fits 0 r (omega arith))
                      (rw (the (0 + r ≡ r) (omega arith)) refl))))))),
      low,
      high,
      refl,
      refl,
      refl,
    )
