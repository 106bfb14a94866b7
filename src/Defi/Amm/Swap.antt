-- ===== src/Defi/Amm/Swap.antt =====
-- crates/qv-defi/src/amm.rs: a swap never lowers the product of the reserves.
use native.Mathlib.Nat.{div-mul-le_self, mul-le-mul, lt-div-mul-add}
use l1_chain.Base.{
  ℕ, ◌+◌, ◌-◌, ◌*◌, ◌/◌, ◌≤◌, ◌<◌, ◌≡◌, arith, Bool-cases, inl, inr, ltb, leb, refl, the, ap, ◌∙◌,
  sym, subst, some, some_inj, ◌⊎◌,
}
use l1_chain.Base.Outcome.{ok, err}
use l1_chain.Base.Word.{max_u64}
use l1_chain.Defi.Amm.{
  PoolDatum, SwapDirection, a_to_b, b_to_a, pool_invariant, apply_swap, swap_reserves, overflow,
  add_u64, sub_u64, compute_swap_output, output_of,
}

-- The net amount that a swap puts against the fee
abbrev pub fee_of : ℕ → ℕ → ℕ
fee_of amount_in fee_bps = amount_in * fee_bps / 10000

fee_of-le : (amount_in fee_bps : ℕ) → fee_bps ≤ 10000 → fee_of amount_in fee_bps ≤ amount_in
fee_of-le amount_in fee_bps h =
    let le : amount_in * fee_bps ≤ amount_in * 10000 =
      mul-le-mul (the (amount_in ≤ amount_in) (omega arith)) h in
    omega arith

-- A product over a difference, in terms that are linear in the products
split_product : (s y out z : ℕ) → y ≡ out + z → s * y ≡ out * s + s * z
split_product s y out z e = rw e (grind arith)

-- The constant-product division: what goes out keeps the product, and one more would not.
module _ (x y net out : ℕ) (px : 0 < x) (py : 0 < y) (division : out ≡ y * net / (x + net)) where
  low : out * (x + net) ≤ y * net
  low = rw division (div-mul-le_self (y * net) (x + net))

  high : y * net < out * (x + net) + (x + net)
  high = rw division (lt-div-mul-add (the (0 < x + net) (omega arith)))

  whole : (x + net) * y ≡ x * y + y * net
  whole = grind arith

  out-lt : out < y
  out-lt = elim (Bool-cases (ltb out y)) [
    | inl lt ↦ ground (arith, lt)
    | inr ge ↦
        let le : y * (x + net) ≤ out * (x + net) =
          mul-le-mul (the (y ≤ out) (ground (arith, ge))) (the (x + net ≤ x + net) (omega arith)) in
        let swapped : y * (x + net) ≡ x * y + y * net = grind arith in
        let some_product : 1 * 1 ≤ x * y = mul-le-mul px py in absurd (omega (arith, low))
  ]

  product-le : x * y ≤ (x + net) * (y - out)
  product-le =
      let parts = split_product (x + net) y out (y - out) (omega (arith, out-lt)) in
      omega (arith, whole, low)

  product-lt : (x + net) * (y - (out + 1)) < x * y
  product-lt =
      let parts = split_product (x + net) y out (y - out) (omega (arith, out-lt)) in
      let one_more : (x + net) * (y - out) ≡ 1 * (x + net) + (x + net) * (y - (out + 1)) =
        split_product (x + net) (y - out) 1 (y - (out + 1)) (omega (arith, out-lt)) in
      omega (arith, whole, high)

output_of-some :
    (x y net fee : ℕ)
    → 0 < x
    → 0 < y
    → x ≤ max_u64
    → y ≤ max_u64
    → net ≤ max_u64
    → output_of x y net fee ≡ some (y * net / (x + net), fee)
unfolding output_of
output_of-some x y net fee px py bx by_ bn =
    let product : y * net ≤ max_u64 * max_u64 = mul-le-mul by_ bn in
    let out = out-lt x y net (y * net / (x + net)) px py refl in ground arith

pub compute_swap_output-product :
    (x y amount_in fee_bps : ℕ)
    → 0 < x
    → 0 < y
    → 0 < amount_in
    → x ≤ max_u64
    → y ≤ max_u64
    → amount_in ≤ max_u64
    → fee_bps ≤ 10000
    → (out : ℕ) × (fee : ℕ) × (compute_swap_output x y amount_in fee_bps ≡ some (out, fee))
      × (fee ≡ amount_in * fee_bps / 10000)
      × (fee ≤ amount_in)
      × (out < y)
      × (x * y ≤ (x + (amount_in - fee)) * (y - out))
      × ((x + (amount_in - fee)) * (y - (out + 1)) < x * y)
unfolding compute_swap_output
compute_swap_output-product x y amount_in fee_bps px py pa bx by_ ba bf =
    let fee = fee_of amount_in fee_bps in
    let fee_le = fee_of-le amount_in fee_bps bf in
    let net = amount_in - fee in
    let out = y * net / (x + net) in
    let fits : amount_in * fee_bps ≤ max_u64 * 10000 = mul-le-mul ba bf in
    let result = output_of-some x y net fee px py bx by_ (omega arith) in
    (
      out,
      fee,
      ground (arith, result),
      refl,
      fee_le,
      out-lt x y net out px py refl,
      product-le x y net out px py refl,
      product-lt x y net out px py refl,
    )

-- The reserve that a swap adds to, and the one that it takes from
abbrev pub reserve_in : PoolDatum → SwapDirection → ℕ
reserve_in d a_to_b = d.reserve_a
reserve_in d b_to_a = d.reserve_b

abbrev pub reserve_out : PoolDatum → SwapDirection → ℕ
reserve_out d a_to_b = d.reserve_b
reserve_out d b_to_a = d.reserve_a

-- A pool whose reserves are positive 64-bit numbers and whose fee `validate` accepts
pub record IsPool (d : PoolDatum) : Type 0 where
  pub a_pos : 0 < d.reserve_a
  pub b_pos : 0 < d.reserve_b
  pub a_fits : d.reserve_a ≤ max_u64
  pub b_fits : d.reserve_b ≤ max_u64
  pub fee_fits : d.fee_bps ≤ 10000

pub add_u64-fits : (a b : ℕ) → a + b ≤ max_u64 → add_u64 a b ≡ ok (a + b)
unfolding add_u64
add_u64-fits a b h = ground arith

add_u64-overflow : (a b : ℕ) → max_u64 < a + b → add_u64 a b ≡ err overflow
unfolding add_u64
add_u64-overflow a b h = ground arith

pub sub_u64-fits : (a b : ℕ) → b ≤ a → sub_u64 a b ≡ ok (a - b)
unfolding sub_u64
sub_u64-fits a b h = ground arith

-- What a quoted output means for the reserves, with the whole amount added
quoted_product :
    (x y amount_in fee_bps out fee : ℕ)
    → 0 < x
    → 0 < y
    → 0 < amount_in
    → x ≤ max_u64
    → y ≤ max_u64
    → amount_in ≤ max_u64
    → fee_bps ≤ 10000
    → compute_swap_output x y amount_in fee_bps ≡ some (out, fee)
    → (out < y) × (x * y ≤ (x + amount_in) * (y - out))
quoted_product x y amount_in fee_bps out fee px py pa bx by_ ba bf quoted =
    let (out', fee', quoted', e, fee_le, lt, keeps, tight) =
      compute_swap_output-product x y amount_in fee_bps px py pa bx by_ ba bf in
    let same : out' ≡ out = ap (λ (p : ℕ × ℕ). p.0) (some_inj (sym quoted' ∙ quoted)) in
    let more : (x + (amount_in - fee')) * (y - out') ≤ (x + amount_in) * (y - out') =
      mul-le-mul (the (x + (amount_in - fee') ≤ x + amount_in) (omega arith))
        (the (y - out' ≤ y - out') (omega arith)) in
    subst (λ o. (o < y) × (x * y ≤ (x + amount_in) * (y - o))) same (lt, omega arith)

-- A swap of a positive 64-bit amount on a pool, with the output that `compute_swap_output` gives:
-- where the new reserve fits into 64 bits, `apply_swap` succeeds, adds the amount to the one reserve
-- and takes the output from the other, leaves a pool, and does not lower the invariant; where it
-- does not fit, `apply_swap` fails with `Overflow` and leaves the datum as it was.
pub apply_swap-pool_invariant :
    (d : PoolDatum) (dir : SwapDirection) (amount_in out fee : ℕ)
    → IsPool d
    → 0 < amount_in
    → amount_in ≤ max_u64
    → compute_swap_output (reserve_in d dir) (reserve_out d dir) amount_in d.fee_bps
      ≡ some (out, fee)
    → ((reserve_in d dir + amount_in ≤ max_u64)
        × ((apply_swap d dir amount_in out).1 ≡ ok tt)
        × (reserve_in (apply_swap d dir amount_in out).0 dir ≡ reserve_in d dir + amount_in)
        × (reserve_out (apply_swap d dir amount_in out).0 dir + out ≡ reserve_out d dir)
        × IsPool (apply_swap d dir amount_in out).0
        × (pool_invariant d ≤ pool_invariant (apply_swap d dir amount_in out).0))
      ⊎ ((max_u64 < reserve_in d dir + amount_in)
          × (apply_swap d dir amount_in out ≡ (d, err overflow)))
unfolding apply_swap swap_reserves pool_invariant
apply_swap-pool_invariant d a_to_b amount_in out fee pool pos fits quoted =
    let (lt, keeps) =
      quoted_product d.reserve_a d.reserve_b amount_in d.fee_bps out fee pool.a_pos pool.b_pos pos
        pool.a_fits pool.b_fits fits pool.fee_fits quoted in
    elim (Bool-cases (leb (d.reserve_a + amount_in) max_u64)) [
      | inl small ↦
          let le : d.reserve_a + amount_in ≤ max_u64 = ground (arith, small) in
          rw (add_u64-fits d.reserve_a amount_in le) (
            rw (sub_u64-fits d.reserve_b out (omega arith)) (
              inl (
                le,
                refl,
                refl,
                omega arith,
                record {
                  a_pos = omega arith;
                  b_pos = omega arith;
                  a_fits = omega arith;
                  b_fits = omega arith;
                  fee_fits = pool.fee_fits;
                },
                omega arith,
              )))
      | inr big ↦
          let gt : max_u64 < d.reserve_a + amount_in = ground (arith, big) in
          rw (add_u64-overflow d.reserve_a amount_in gt) (inr (gt, refl))
    ]
apply_swap-pool_invariant d b_to_a amount_in out fee pool pos fits quoted =
    let (lt, keeps) =
      quoted_product d.reserve_b d.reserve_a amount_in d.fee_bps out fee pool.b_pos pool.a_pos pos
        pool.b_fits pool.a_fits fits pool.fee_fits quoted in
    let swap : d.reserve_b * d.reserve_a ≡ d.reserve_a * d.reserve_b = grind arith in
    let swap' : (d.reserve_b + amount_in) * (d.reserve_a - out)
        ≡ (d.reserve_a - out) * (d.reserve_b + amount_in) =
      grind arith in
    elim (Bool-cases (leb (d.reserve_b + amount_in) max_u64)) [
      | inl small ↦
          let le : d.reserve_b + amount_in ≤ max_u64 = ground (arith, small) in
          rw (add_u64-fits d.reserve_b amount_in le) (
            rw (sub_u64-fits d.reserve_a out (omega arith)) (
              inl (
                le,
                refl,
                refl,
                omega arith,
                record {
                  a_pos = omega arith;
                  b_pos = omega arith;
                  a_fits = omega arith;
                  b_fits = omega arith;
                  fee_fits = pool.fee_fits;
                },
                omega arith,
              )))
      | inr big ↦
          let gt : max_u64 < d.reserve_b + amount_in = ground (arith, big) in
          rw (add_u64-overflow d.reserve_b amount_in gt) (inr (gt, refl))
    ]
