-- ===== src/Defi/Oracle/Median.antt =====
-- crates/qv-defi/src/oracle.rs: the place of the median in the sorted prices.
use l1_chain.Base.{
  ℕ, zero, suc, ◌+◌, ◌≤◌, ◌<◌, ◌≡◌, arith, List, [], ◌∷◌, Bool, true, leb, refl, ap, subst, ◌∙◌,
  Bool-cases, inl, inr, if◌then◌else◌, length, get_elem?, some, some_inj, All, All-get_elem?,
}
use l1_chain.Defi.Oracle.{insert_price, sort_prices}

-- How many elements pass the test
abbrev pub tally : (ℕ → Bool) → List ℕ → ℕ
tally f [] = 0
tally f (x ∷ xs) = if f x then suc (tally f xs) else tally f xs

abbrev pub Sorted : List ℕ → Type 0
Sorted [] = Unit
Sorted (x ∷ xs) = All (λ y. x ≤ y) xs × Sorted xs

tally-insert_price :
    (f : ℕ → Bool) (p : ℕ) (qs : List ℕ) → tally f (insert_price p qs) ≡ tally f (p ∷ qs)
unfolding insert_price
tally-insert_price f p [] = refl
tally-insert_price f p (q ∷ qs) = elim (Bool-cases (leb p q)) [
  | inl le ↦ rw le refl
  | inr gt ↦
      let ih = tally-insert_price f p qs in
      rw gt (elim (Bool-cases (f q)) [
        | inl yes_q ↦ rw yes_q (elim (Bool-cases (f p)) [
          | inl yes_p ↦ let h = rw yes_p at ih in rw yes_p (ap suc h)
          | inr no_p ↦ let h = rw no_p at ih in rw no_p (ap suc h)
        ])
        | inr no_q ↦ rw no_q ih
      ])
]

pub tally-sort_prices : (f : ℕ → Bool) (ps : List ℕ) → tally f (sort_prices ps) ≡ tally f ps
unfolding sort_prices
tally-sort_prices f [] = refl
tally-sort_prices f (p ∷ ps) =
    tally-insert_price f p (sort_prices ps)
    ∙ ap (λ t. if f p then suc t else t) (tally-sort_prices f ps)

length-insert_price : (p : ℕ) (qs : List ℕ) → length (insert_price p qs) ≡ suc (length qs)
unfolding insert_price
length-insert_price p [] = refl
length-insert_price p (q ∷ qs) = ground (arith, length-insert_price p qs)

pub length-sort_prices : (ps : List ℕ) → length (sort_prices ps) ≡ length ps
unfolding sort_prices
length-sort_prices [] = refl
length-sort_prices (p ∷ ps) =
    length-insert_price p (sort_prices ps) ∙ ap suc (length-sort_prices ps)

All-insert_price :
    (P : ℕ → Type 0) (p : ℕ) (qs : List ℕ) → P p → All P qs → All P (insert_price p qs)
unfolding insert_price
All-insert_price P p [] h all = (h, tt)
All-insert_price P p (q ∷ qs) h (first, rest) = elim (Bool-cases (leb p q)) [
  | inl small ↦ rw small (h, (first, rest))
  | inr large ↦ rw large (first, All-insert_price P p qs h rest)
]

All-weaken : (x y : ℕ) (qs : List ℕ) → x ≤ y → All (λ z. y ≤ z) qs → All (λ z. x ≤ z) qs
All-weaken x y [] le all = tt
All-weaken x y (q ∷ qs) le (first, rest) = (omega arith, All-weaken x y qs le rest)

insert_price-Sorted : (p : ℕ) (qs : List ℕ) → Sorted qs → Sorted (insert_price p qs)
unfolding insert_price
insert_price-Sorted p [] sorted = (tt, tt)
insert_price-Sorted p (q ∷ qs) (above, sorted) = elim (Bool-cases (leb p q)) [
  | inl small ↦
      let le : p ≤ q = ground (arith, small) in
      rw small ((le, All-weaken p q qs le above), (above, sorted))
  | inr large ↦
      let le : q ≤ p = ground (arith, large) in
      rw large (All-insert_price (λ y. q ≤ y) p qs le above, insert_price-Sorted p qs sorted)
]

pub sort_prices-Sorted : (ps : List ℕ) → Sorted (sort_prices ps)
unfolding sort_prices
sort_prices-Sorted [] = tt
sort_prices-Sorted (p ∷ ps) = insert_price-Sorted p (sort_prices ps) (sort_prices-Sorted ps)

pub get_elem?-found : (xs : List ℕ) (i : ℕ) → i < length xs → (x : ℕ) × (get_elem? xs i ≡ some x)
get_elem?-found [] i less = absurd (omega arith)
get_elem?-found (x ∷ xs) zero less = (x, refl)
get_elem?-found (x ∷ xs) (suc i) less = get_elem?-found xs i (omega arith)

tally-All : (m : ℕ) (xs : List ℕ) → All (λ y. m ≤ y) xs → tally (λ t. leb m t) xs ≡ length xs
tally-All m [] all = refl
tally-All m (x ∷ xs) (le, all) =
    let passes : leb m x ≡ true = ground (arith, le) in rw passes (ap suc (tally-All m xs all))

-- In a sorted list the elements up to a place are at most the one there.
pub tally-below :
    (xs : List ℕ) (i m : ℕ) → Sorted xs → get_elem? xs i ≡ some m → i < tally (λ t. leb t m) xs
tally-below [] i m sorted g = cc
tally-below (x ∷ xs) zero m sorted g =
    let same : x ≡ m = some_inj g in
    let passes : leb x m ≡ true = ground (arith, same) in rw passes (omega arith)
tally-below (x ∷ xs) (suc i) m (above, sorted) g =
    let le : x ≤ m = All-get_elem? (λ y. x ≤ y) xs i m above g in
    let passes : leb x m ≡ true = ground (arith, le) in
    let ih = tally-below xs i m sorted g in rw passes (omega arith)

pub tally-above :
    (xs : List ℕ) (i m : ℕ)
    → Sorted xs
    → get_elem? xs i ≡ some m
    → length xs ≤ i + tally (λ t. leb m t) xs
tally-above [] i m sorted g = cc
tally-above (x ∷ xs) zero m (above, sorted) g =
    let same : x ≡ m = some_inj g in
    let passes : leb m x ≡ true = ground (arith, same) in
    let all = tally-All m xs (subst (λ t. All (λ y. t ≤ y) xs) same above) in
    rw passes (omega arith)
tally-above (x ∷ xs) (suc i) m (above, sorted) g =
    let ih = tally-above xs i m sorted g in
    elim (Bool-cases (leb m x)) [
      | inl passes ↦ rw passes (omega arith)
      | inr misses ↦ rw misses (omega arith)
    ]

pub All-sort_prices : (P : ℕ → Type 0) (ps : List ℕ) → All P ps → All P (sort_prices ps)
unfolding sort_prices
All-sort_prices P [] all = tt
All-sort_prices P (p ∷ ps) (first, rest) =
    All-insert_price P p (sort_prices ps) first (All-sort_prices P ps rest)
