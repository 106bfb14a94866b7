-- ===== src/Consensus/Selection/Agreement.antt =====
-- crates/qv-consensus/src/chain_state.rs: two nodes that compare their chains agree on one.
use l1_chain.Base.{
  ℕ, zero, suc, ◌+◌, ◌-◌, ◌≤◌, ◌<◌, ◌≡◌, ◌≢◌, arith, List, [], ◌∷◌, Bool-cases, inl, inr, ◌⊎◌,
  if◌then◌else◌, some, length, get_elem?, refl, ltb, ap, sym, ◌∙◌, subst,
}
use l1_chain.Base.Word.{saturating_add}
use l1_chain.Consensus.Chain.{ChainEntry}
use l1_chain.Consensus.Selection.{
  keep_local, adopt_candidate, common_prefix_len, density_in_window, last_entry, longer_chain,
  prefer_from, maxvalid_bg,
}

-- The chain that a node with `local` holds after it has compared it with `candidate`
abbrev pub selected : List ChainEntry → List ChainEntry → ℕ → ℕ → List ChainEntry
selected local candidate k s = elim (maxvalid_bg local candidate k s) [
  | keep_local ↦ local
  | adopt_candidate ↦ candidate
]

common_prefix_len_comm : (a b : List ChainEntry) → common_prefix_len a b ≡ common_prefix_len b a
unfolding common_prefix_len
common_prefix_len_comm [] [] = refl
common_prefix_len_comm [] (y ∷ b) = refl
common_prefix_len_comm (x ∷ a) [] = refl
common_prefix_len_comm (x ∷ a) (y ∷ b) = ground (arith, common_prefix_len_comm a b)

common_prefix_len-le : (a b : List ChainEntry) → common_prefix_len a b ≤ length a
unfolding common_prefix_len
common_prefix_len-le [] b = omega arith
common_prefix_len-le (x ∷ a) [] = omega arith
common_prefix_len-le (x ∷ a) (y ∷ b) = ground (arith, common_prefix_len-le a b)

pub get_elem?-known :
    (xs : List ChainEntry) (i : ℕ) → i < length xs → (e : ChainEntry) × (get_elem? xs i ≡ some e)
get_elem?-known [] i h = absurd (omega arith)
get_elem?-known (x ∷ xs) zero h = (x, refl)
get_elem?-known (x ∷ xs) (suc i) h = get_elem?-known xs i (omega arith)

-- The chains differ in length or in the hash of their last block.
pub data Differ (a b : List ChainEntry) : Type 0 where
  by_length : length a ≢ length b → Differ a b
  by_tip :
      (x y : ChainEntry)
      → last_entry a ≡ some x
      → last_entry b ≡ some y
      → x.hash ≢ y.hash
      → Differ a b

maxvalid_bg-short :
    (a b : List ChainEntry) (k s : ℕ)
    → 0 < common_prefix_len a b
    → length a ≤ common_prefix_len a b + k
    → maxvalid_bg a b k s ≡ longer_chain a b
unfolding maxvalid_bg prefer_from
maxvalid_bg-short a b k s shared shallow =
    let le = common_prefix_len-le a b in
    let (e, g) = get_elem?-known a (common_prefix_len a b - 1) (omega arith) in
    rw (g, prefer_from) (ground arith)

longer_chain-one :
    (a b : List ChainEntry)
    → Differ a b
    → ((longer_chain a b ≡ keep_local)
        × (longer_chain b a ≡ adopt_candidate)
        × (length b ≤ length a))
      ⊎ ((longer_chain a b ≡ adopt_candidate)
          × (longer_chain b a ≡ keep_local)
          × (length a ≤ length b))
unfolding longer_chain
longer_chain-one a b (by_length d) = elim (Bool-cases (ltb (length a) (length b))) [
  | inl l ↦ inr (ground arith, ground arith, ground arith)
  | inr m ↦ inl (ground arith, ground arith, ground arith)
]
longer_chain-one a b (by_tip x y ga gb d) = elim (Bool-cases (ltb (length a) (length b))) [
  | inl l ↦ inr (ground arith, ground arith, ground arith)
  | inr m ↦ elim (Bool-cases (ltb (length b) (length a))) [
    | inl l ↦ inl (ground arith, ground arith, ground arith)
    | inr n ↦ elim (Bool-cases (ltb y.hash x.hash)) [
      | inl lower ↦ inr (ground arith, ground arith, ground arith)
      | inr higher ↦ inl (ground arith, ground arith, ground arith)
    ]
  ]
]

-- Two nodes whose chains share a prefix, diverge by at most `k` blocks each, and differ in length or
-- in the hash of the last block, select the same chain by comparing them, the one with the other's
-- as its candidate, and the selected chain is as long as either.
pub maxvalid_bg-shallow :
    (a b : List ChainEntry) (k s : ℕ)
    → 0 < common_prefix_len a b
    → length a ≤ common_prefix_len a b + k
    → length b ≤ common_prefix_len a b + k
    → Differ a b
    → (selected a b k s ≡ selected b a k s)
      × (length a ≤ length (selected a b k s))
      × (length b ≤ length (selected a b k s))
maxvalid_bg-shallow a b k s shared near_a near_b differ =
    let comm = common_prefix_len_comm a b in
    let ab = maxvalid_bg-short a b k s shared near_a in
    let ba = maxvalid_bg-short b a k s (omega arith) (omega arith) in
    elim (longer_chain-one a b differ) [
      | inl (keep, adopt, le) ↦
          rw (ab ∙ keep, selected) (rw (ba ∙ adopt, selected) (refl, omega arith, omega arith))
      | inr (adopt, keep, le) ↦
          rw (ab ∙ adopt, selected) (rw (ba ∙ keep, selected) (refl, omega arith, omega arith))
    ]

-- The density that a deep fork goes by, behind the last common block `x`
abbrev pub density : List ChainEntry → ℕ → ℕ → ℕ → ℕ
density a common slot s = density_in_window a common slot (saturating_add slot s)

maxvalid_bg-long :
    (a b : List ChainEntry) (k s : ℕ) (x : ChainEntry)
    → 0 < common_prefix_len a b
    → get_elem? a (common_prefix_len a b - 1) ≡ some x
    → common_prefix_len a b + k < length a
    → maxvalid_bg a b k s ≡ (
        if ltb
          (density a (common_prefix_len a b) x.slot s)
          (density b (common_prefix_len a b) x.slot s)
        then adopt_candidate
        else keep_local)
unfolding maxvalid_bg prefer_from
maxvalid_bg-long a b k s x shared g deep = rw (g, prefer_from) (ground arith)

-- Two nodes whose chains share a prefix whose last block has one slot in both, diverge by more than
-- `k` blocks each, and have different numbers of blocks in the `s` slots behind the fork, select
-- the same chain by comparing them, the denser one.
pub maxvalid_bg-deep :
    (a b : List ChainEntry) (k s : ℕ) (x y : ChainEntry)
    → let c = common_prefix_len a b in
      0 < c
      → get_elem? a (c - 1) ≡ some x
      → get_elem? b (c - 1) ≡ some y
      → x.slot ≡ y.slot
      → c + k < length a
      → c + k < length b
      → density a c x.slot s ≢ density b c x.slot s
      → (selected a b k s ≡ selected b a k s)
        × (density a c x.slot s ≤ density (selected a b k s) c x.slot s)
        × (density b c x.slot s ≤ density (selected a b k s) c x.slot s)
maxvalid_bg-deep a b k s x y shared ga gb slots deep_a deep_b differ =
    let c = common_prefix_len a b in
    let comm = common_prefix_len_comm a b in
    let ab = maxvalid_bg-long a b k s x shared ga deep_a in
    let ba =
      maxvalid_bg-long b a k s y (omega arith) (ap (λ n. get_elem? b (n - 1)) (sym comm) ∙ gb)
        (omega arith) in
    let ba' : maxvalid_bg b a k s ≡ (
        if ltb (density b c x.slot s) (density a c x.slot s) then adopt_candidate else keep_local) =
      subst
        (λ slot.
          maxvalid_bg b a k s
          ≡ (if ltb (density b c slot s) (density a c slot s) then adopt_candidate else keep_local))
        (sym slots)
        (subst
          (λ n. maxvalid_bg b a k s ≡ (
            if ltb (density b n y.slot s) (density a n y.slot s)
            then adopt_candidate
            else keep_local))
          (sym comm) ba) in
    elim (Bool-cases (ltb (density a c x.slot s) (density b c x.slot s))) [
      | inl less ↦
          let keep : maxvalid_bg b a k s ≡ keep_local = ground arith in
          let adopt : maxvalid_bg a b k s ≡ adopt_candidate = ground arith in
          rw (adopt, selected) (rw (keep, selected) (refl, ground arith, ground arith))
      | inr more ↦
          let keep : maxvalid_bg a b k s ≡ keep_local = ground arith in
          let adopt : maxvalid_bg b a k s ≡ adopt_candidate = ground arith in
          rw (keep, selected) (rw (adopt, selected) (refl, ground arith, ground arith))
    ]
