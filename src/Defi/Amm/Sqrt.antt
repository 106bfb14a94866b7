-- ===== src/Defi/Amm/Sqrt.antt =====
-- crates/qv-defi/src/amm.rs: `sqrt_u128` ends with the integer square root.
use native.Mathlib.Nat.{lt-mul-div-succ, div-mul-le_self, mul-le-mul, div_self}
use l1_chain.Base.{
  ℕ, zero, suc, ◌+◌, ◌-◌, ◌*◌, ◌/◌, ◌≤◌, ◌<◌, ◌≡◌, arith, Bool-cases, inl, inr, ltb, leb, ◌==◌,
  refl, the, ap, sym, subst,
}
use l1_chain.Base.Outcome.{ok}
use l1_chain.Defi.Amm.{sqrt_loop, sqrt_u128}

square_gap : (a d : ℕ) → 4 * (a * (a + d)) ≤ (a + (a + d)) * (a + (a + d))
square_gap a d = grind arith

-- The square of a sum is at least four times the product.
four_products : (a b : ℕ) → 4 * (a * b) ≤ (a + b) * (a + b)
four_products a b = elim (Bool-cases (leb a b)) [
  | inl le ↦ let split : b ≡ a + (b - a) = ground (arith, le) in rw split (square_gap a (b - a))
  | inr gt ↦
      let split : a ≡ b + (a - b) = ground (arith, gt) in
      rw split (grind (arith, square_gap b (a - b)))
]

newton_step : (n x y : ℕ) → 0 < x → y ≡ (x + n / x) / 2 → n < (y + 1) * (y + 1)
newton_step n x y pos e =
    let q = n / x in
    let below : n < x * (q + 1) = lt-mul-div-succ n pos in
    let mean : x + (q + 1) ≤ 2 * (y + 1) = omega arith in
    let squares : (x + (q + 1)) * (x + (q + 1)) ≤ (2 * (y + 1)) * (2 * (y + 1)) =
      mul-le-mul mean mean in
    let four : 4 * (x * (q + 1)) ≤ (2 * (y + 1)) * (2 * (y + 1)) =
      omega (arith, four_products x (q + 1)) in
    let same : (2 * (y + 1)) * (2 * (y + 1)) ≡ 4 * ((y + 1) * (y + 1)) = grind arith in omega arith

sqrt_loop-floor :
    (fuel n x y : ℕ)
    → 0 < n
    → 0 < x
    → x < fuel
    → n < (x + 1) * (x + 1)
    → y ≡ (x + n / x) / 2
    → (r : ℕ) × (sqrt_loop fuel n x y ≡ ok r) × (r * r ≤ n) × (n < (r + 1) * (r + 1))
unfolding sqrt_loop
sqrt_loop-floor zero n x y some_n pos enough above e = absurd (omega arith)
sqrt_loop-floor (suc fuel) n x y some_n pos enough above e = elim (Bool-cases (ltb y x)) [
  | inl falls ↦
      let next = newton_step n x y pos e in
      let y_pos : 0 < y = elim (Bool-cases (y == 0)) [
        | inl z ↦
            let at : y ≡ 0 = ground (arith, z) in
            absurd (
              omega
                (arith, the (n < (0 + 1) * (0 + 1)) (subst (λ t. n < (t + 1) * (t + 1)) at next)))
        | inr p ↦ ground (arith, p)
      ] in
      rw falls (sqrt_loop-floor fuel n y ((y + n / y) / 2) some_n y_pos (ground arith) next refl)
  | inr stays ↦
      let le : x ≤ n / x = ground (arith, stays) in
      let square : x * x ≤ n / x * x = mul-le-mul le (the (x ≤ x) (omega arith)) in
      rw stays (x, refl, omega (arith, square, div-mul-le_self n x), above)
]

-- `sqrt_u128` ends, and its result is the largest number whose square is at most `n`.
pub sqrt_u128-floor :
    (n : ℕ) → (r : ℕ) × (sqrt_u128 n ≡ ok r) × (r * r ≤ n) × (n < (r + 1) * (r + 1))
unfolding sqrt_u128
sqrt_u128-floor n = elim (Bool-cases (n == 0)) [
  | inl z ↦ let at : n ≡ 0 = ground (arith, z) in rw z (0, refl, omega arith, omega arith)
  | inr p ↦
      let pos : 0 < n = ground (arith, p) in
      rw p (
        sqrt_loop-floor (suc n) n n ((n + 1) / 2) pos pos (omega arith) (grind arith)
          (the ((n + 1) / 2 ≡ (n + n / n) / 2) (ap (λ q. (n + q) / 2) (sym (div_self pos)))))
]
