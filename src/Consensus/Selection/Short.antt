-- ===== src/Consensus/Selection/Short.antt =====
-- crates/qv-consensus/src/chain_state.rs: the locator is logarithmic in the length of the chain.
use native.Mathlib.Nat.{pow-suc, pow-le-pow_right, mul-le-mul}
use l1_chain.Base.{
  ℕ, zero, suc, ◌+◌, ◌-◌, ◌*◌, ◌^◌, ◌≤◌, ◌<◌, ◌≡◌, arith, List, [], ◌∷◌, ◌++◌, Bool-cases, inl, inr,
  some, length, refl, ltb, leb, ◌==◌, ap, sym, ◌∙◌, some_inj, the, length-append, min, subst, false,
  true,
}
use l1_chain.Base.Word.{max_u64, saturating_mul}
use l1_chain.Consensus.Chain.{ChainEntry}
use l1_chain.Consensus.Selection.{push_hash, locator_loop, build_locator}
use l1_chain.Consensus.Selection.Agreement.{get_elem?-known}

-- A stride that doubles reaches the bottom in as many rounds as it can be doubled.
doubled :
    (idx stride k : ℕ)
    → 0 < stride
    → idx ≤ max_u64
    → stride < idx
    → saturating_mul stride 2 * 2 ^ k ≤ idx - stride + saturating_mul stride 2
    → stride * 2 ^ suc k ≤ idx + stride
unfolding saturating_mul
doubled idx stride k pos inside far h = elim (Bool-cases (leb (stride * 2) max_u64)) [
  | inl fits ↦
      let whole : min (stride * 2) max_u64 ≡ stride * 2 = ground (arith, fits) in
      let h' : stride * 2 * 2 ^ k ≤ idx - stride + stride * 2 = rw whole at h in
      let same : stride * 2 ^ suc k ≡ stride * 2 * 2 ^ k = rw (pow-suc 2 k) (grind arith) in
      omega arith
  | inr over ↦
      let cut : min (stride * 2) max_u64 ≡ max_u64 = ground (arith, over) in
      let h' : max_u64 * 2 ^ k ≤ idx - stride + max_u64 = rw cut at h in
      elim (Bool-cases (k == 0)) [
        | inl none_left ↦ let at : k ≡ 0 = ground (arith, none_left) in rw at (omega arith)
        | inr more ↦
            let two : 2 ^ 1 ≤ 2 ^ k =
              pow-le-pow_right (omega arith) (the (1 ≤ k) (ground (arith, more))) in
            let product : max_u64 * 2 ≤ max_u64 * 2 ^ k =
              mul-le-mul (the (max_u64 ≤ max_u64) (omega arith)) two in
            absurd (omega arith)
      ]
]

-- How many hashes the rounds with growing strides push
pub record Rounds (idx stride before after : ℕ) : Type 0 where
  pub pushed : ℕ
  pub total : after ≡ before + pushed
  pub some_pushed : 0 < pushed
  pub bottom : idx ≡ 0 → pushed ≡ 1
  pub few : stride * 2 ^ (pushed - 2) ≤ idx + stride

Rounds-suc :
    (idx stride before after : ℕ)
    → 0 < stride
    → idx ≤ max_u64
    → 0 < idx
    → Rounds (idx - stride) (saturating_mul stride 2) (before + 1) after
    → Rounds idx stride before after
Rounds-suc idx stride before after pos inside some_left r =
    let p = r.pushed in
    record {
      pushed = suc p;
      total = omega (arith, r.total);
      some_pushed = omega arith;
      bottom = λ z. absurd (omega (arith, z));
      few = elim (Bool-cases (leb p 1)) [
        | inl one_left ↦ let at : suc p - 2 ≡ 0 = ground (arith, one_left) in rw at (omega arith)
        | inr more ↦
            let far : stride < idx = elim (Bool-cases (idx - stride == 0)) [
              | inl z ↦ absurd (ground (arith, more, r.bottom (ground (arith, z))))
              | inr left ↦ ground (arith, left)
            ] in
            let at : suc p - 2 ≡ suc (p - 2) = ground (arith, more) in
            rw at (doubled idx stride (p - 2) pos inside far r.few)
      ];
    }

module _ (e : ChainEntry) (es : List ChainEntry) where
  locator_loop-Rounds :
      (fuel idx stride : ℕ) (locator r : List ℕ)
      → locator_loop fuel (e ∷ es) idx stride locator ≡ some r
      → 9 ≤ length locator
      → 0 < stride
      → stride ≤ max_u64
      → idx ≤ length es
      → idx ≤ max_u64
      → Rounds idx stride (length locator) (length r)
  unfolding locator_loop saturating_mul push_hash
  locator_loop-Rounds zero idx stride locator r run dense pos cut inside narrow = cc
  locator_loop-Rounds (suc fuel) idx stride locator r run dense pos cut inside narrow =
      let (x, g) = get_elem?-known (e ∷ es) idx (omega arith) in
      let pushed : List ℕ = locator ++ x.hash ∷ [] in
      let size : length pushed ≡ length locator + 1 = length-append locator (x.hash ∷ []) in
      let opened = rw (g, push_hash) at run in
      elim (Bool-cases (idx == 0)) [
        | inl bottom ↦
            let at : pushed ≡ r = some_inj (rw bottom at opened) in
            let z : idx ≡ 0 = ground (arith, bottom) in
            record {
              pushed = 1;
              total = sym (ap length at) ∙ size;
              some_pushed = omega arith;
              bottom = λ _. refl;
              few = omega arith;
            }
        | inr higher ↦
            let sparse : ltb (length pushed) 10 ≡ false = ground (arith, size, dense) in
            let rest = rw sparse at (rw higher at opened) in
            Rounds-suc idx stride (length locator) (length r) pos narrow (ground (arith, higher)) (
              subst (λ n. Rounds (idx - stride) (saturating_mul stride 2) n (length r)) size
                (locator_loop-Rounds fuel (idx - stride) (saturating_mul stride 2) pushed r rest
                  (omega arith) (omega arith) (omega arith) (omega arith) (omega arith)))
      ]

  locator_loop_short :
      (fuel idx : ℕ) (locator r : List ℕ)
      → locator_loop fuel (e ∷ es) idx 1 locator ≡ some r
      → length locator ≤ 9
      → idx ≤ length es
      → idx ≤ max_u64
      → 2 ^ (length r - 11) ≤ idx + 1
  unfolding locator_loop push_hash
  locator_loop_short zero idx locator r run dense inside narrow = cc
  locator_loop_short (suc fuel) idx locator r run dense inside narrow =
      let (x, g) = get_elem?-known (e ∷ es) idx (omega arith) in
      let pushed : List ℕ = locator ++ x.hash ∷ [] in
      let size : length pushed ≡ length locator + 1 = length-append locator (x.hash ∷ []) in
      let opened = rw (g, push_hash) at run in
      elim (Bool-cases (length locator == 9)) [
        | inl full ↦
            let r' =
              locator_loop-Rounds (suc fuel) idx 1 locator r run (ground (arith, full))
                (omega arith) (omega arith) inside narrow in
            let left : length r - 11 ≡ r'.pushed - 2 = ground (arith, full, r'.total) in
            rw left (omega (arith, r'.few))
        | inr room ↦ elim (Bool-cases (idx == 0)) [
          | inl bottom ↦
              let at : pushed ≡ r = some_inj (rw bottom at opened) in
              let left : length r - 11 ≡ 0 = omega (arith, ap length at) in rw left (omega arith)
          | inr higher ↦
              let near : ltb (length pushed) 10 ≡ true = ground (arith, size, room, dense) in
              let rest = rw near at (rw higher at opened) in
              let ih =
                locator_loop_short fuel (idx - 1) pushed r rest (ground (arith, size, room, dense))
                  (omega arith) (omega arith) in
              omega (arith, ih)
        ]
      ]

  -- The locator has at most 11 hashes more than the number of blocks can be halved.
  pub build_locator_short :
      (hs : List ℕ)
      → build_locator (e ∷ es) ≡ some hs
      → length es ≤ max_u64
      → 2 ^ (length hs - 11) ≤ length es + 1
  unfolding build_locator
  build_locator_short hs built narrow =
      locator_loop_short (suc (length es)) (length es) [] hs built (omega arith) (omega arith)
        narrow
