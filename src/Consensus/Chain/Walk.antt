-- ===== src/Consensus/Chain/Walk.antt =====
-- crates/qv-consensus/src/chain_state.rs: the walks along the parent links, of `is_ancestor` and of
-- `advance_finality`, against paths in the tree of blocks.
use l1_chain.Base.{
  ℕ, zero, suc, Bool, Option, false, leb, ltb, ◌≤◌, ◌<◌, ◌≡◌, ◌≢◌, arith, List, [], ◌∷◌, true,
  Bool-cases, inl, inr, ◌==◌, if◌then◌else◌, length, some, none, refl, ap, subst, sym, ◌⊎◌,
  Option-cases,
}
use l1_chain.Base.Outcome.{ok, Outcome}
use l1_chain.Consensus.Chain.{ChainError, ChainEntry, get_entry, ancestor_loop, final_loop}

-- The place of a block counted from the oldest, from 1; 0 if it is unknown
unfoldable pub rank : List ChainEntry → ℕ → ℕ
rank [] h = 0
rank (e ∷ es) h = if e.hash == h then suc (length es) else rank es h

-- Every known block is its own parent, or its parent came before it.
abbrev pub Ordered : List ChainEntry → Type 0
Ordered es =
    (h : ℕ) (e : ChainEntry)
    → get_entry es h ≡ some e
    → (e.parent_hash ≡ h) ⊎ ((0 < rank es e.parent_hash) × (rank es e.parent_hash < rank es h))

-- The walk ended, with an answer.
abbrev pub Decided : Outcome ChainError Bool → Type 0
Decided r = (answer : Bool) × (r ≡ ok answer)

-- The parent links lead from the block to `a`, and every block before `a` is higher than `t`.
pub data ParentPath (es : List ChainEntry) (a : ℕ) (t : ℕ) : ℕ → Type 0 where
  here : {d : ℕ} → d ≡ a → ParentPath es a t d
  up :
      {d : ℕ} (e : ChainEntry)
      → get_entry es d ≡ some e
      → t < e.height
      → d ≢ e.parent_hash
      → ParentPath es a t e.parent_hash
      → ParentPath es a t d

pub get_entry-hash :
    (es : List ChainEntry) (h : ℕ) (e : ChainEntry) → get_entry es h ≡ some e → e.hash ≡ h
unfolding get_entry
get_entry-hash [] h e g = cc
get_entry-hash (x ∷ es) h e g = ground (arith, get_entry-hash es h e)

pub rank-le : (es : List ChainEntry) (h : ℕ) → rank es h ≤ length es
unfolding rank
rank-le [] h = omega arith
rank-le (x ∷ es) h = ground (arith, rank-le es h)

pub rank_pos :
    (es : List ChainEntry) (h : ℕ) (e : ChainEntry) → get_entry es h ≡ some e → 0 < rank es h
unfolding rank get_entry
rank_pos [] h e g = cc
rank_pos (x ∷ es) h e g = ground (arith, rank_pos es h e)

pub rank-none : (es : List ChainEntry) (h : ℕ) → get_entry es h ≡ none → rank es h ≡ 0
unfolding rank get_entry
rank-none [] h g = refl
rank-none (x ∷ es) h g = ground (arith, rank-none es h)

pub get_of_rank :
    (es : List ChainEntry) (h : ℕ) → 0 < rank es h → (e : ChainEntry) × (get_entry es h ≡ some e)
unfolding rank get_entry
get_of_rank [] h r = absurd (omega arith)
get_of_rank (x ∷ es) h r = elim (Bool-cases (x.hash == h)) [
  | inl same ↦ (x, rw same)
  | inr other ↦ let (e, g) = get_of_rank es h (ground (arith, other)) in (e, rw other g)
]

-- A new block changes no look-up that found something.
pub get_entry-grow :
    (x : ChainEntry) (es : List ChainEntry) (h : ℕ) (e : ChainEntry)
    → rank es x.hash ≡ 0
    → get_entry es h ≡ some e
    → get_entry (x ∷ es) h ≡ some e
unfolding get_entry
get_entry-grow x es h e fresh g = elim (Bool-cases (x.hash == h)) [
  | inl same ↦
      let known = rank_pos es h e g in
      let eq : x.hash ≡ h = ground (arith, same) in absurd (omega (arith, ap (rank es) eq))
  | inr other ↦ rw other g
]

pub ParentPath-grow :
    (x : ChainEntry) (es : List ChainEntry) (a t d : ℕ)
    → rank es x.hash ≡ 0
    → ParentPath es a t d
    → ParentPath (x ∷ es) a t d
ParentPath-grow x es a t d fresh (here e) = here e
ParentPath-grow x es a t d fresh (up e g higher apart p) =
    up e (get_entry-grow x es d e fresh g) higher apart
      (ParentPath-grow x es a t e.parent_hash fresh p)

pub ParentPath-weaken :
    {es : List ChainEntry} {a t d : ℕ} (u : ℕ) → u ≤ t → ParentPath es a t d → ParentPath es a u d
ParentPath-weaken u le (here e) = here e
ParentPath-weaken u le (up e g higher apart p) =
    up e g (omega arith) apart (ParentPath-weaken u le p)

pub ParentPath-append :
    {es : List ChainEntry} {a b t d : ℕ}
    → ParentPath es b t d
    → ParentPath es a t b
    → ParentPath es a t d
ParentPath-append {es} {a} {b} {t} {d} (here e) q = subst (λ x. ParentPath es a t x) (sym e) q
ParentPath-append (up e g higher apart p) q = up e g higher apart (ParentPath-append p q)

-- Of two blocks on the walk from `d`, the higher one comes first.
pub ParentPath-split :
    {es : List ChainEntry} {a b t u d : ℕ} (e : ChainEntry)
    → get_entry es a ≡ some e
    → e.height ≤ t
    → t < u
    → ParentPath es b u d
    → ParentPath es a t d
    → ParentPath es a t b
ParentPath-split {es} {a} {b} {t} {u} {d} e g low lt (here same) q =
    subst (λ x. ParentPath es a t x) same q
ParentPath-split {es} {a} {b} {t} {u} {d} e g low lt (up f gf higher apart p) (here same) =
    let same_entry : f ≡ e = ground (arith, gf, g, ap (get_entry es) same) in
    absurd (omega (arith, ap (λ (x : ChainEntry). x.height) same_entry))
ParentPath-split {es} {a} {b} {t} {u} {d} e g low lt (up f gf higher apart p)
      (up f' gf' h' apart' q) =
    let same_entry : f' ≡ f = cc in
    ParentPath-split e g low lt p
      (subst (λ (x : ChainEntry). ParentPath es a t x.parent_hash) same_entry q)

pub ancestor_loop-ParentPath :
    (fuel : ℕ) (es : List ChainEntry) (a t d : ℕ)
    → ancestor_loop fuel es a t d ≡ ok true
    → ParentPath es a t d
unfolding ancestor_loop
ancestor_loop-ParentPath zero es a t d h = cc
ancestor_loop-ParentPath (suc fuel) es a t d h = elim (Bool-cases (d == a)) [
  | inl same ↦ here (ground (arith, same))
  | inr other ↦ elim (Option-cases (get_entry es d)) [
    | inl unknown ↦ absurd (ground arith)
    | inr (e, g) ↦
        let higher : t < e.height = ground arith in
        let apart : d ≢ e.parent_hash = ground arith in
        let rest : ancestor_loop fuel es a t e.parent_hash ≡ ok true = ground arith in
        up e g higher apart (ancestor_loop-ParentPath fuel es a t e.parent_hash rest)
  ]
]

pub ParentPath-ancestor_loop :
    {es : List ChainEntry} {a t d : ℕ} (fuel : ℕ)
    → Ordered es
    → ParentPath es a t d
    → rank es d < fuel
    → ancestor_loop fuel es a t d ≡ ok true
unfolding ancestor_loop
ParentPath-ancestor_loop zero sorted p enough = absurd (omega arith)
ParentPath-ancestor_loop {es} {a} {t} {d} (suc fuel) sorted (here e) enough = ground arith
ParentPath-ancestor_loop {es} {a} {t} {d} (suc fuel) sorted (up e g higher apart p) enough =
    let older : rank es e.parent_hash < fuel = elim (sorted d e g) [
      | inl same ↦ absurd (apart (sym same))
      | inr before ↦ omega arith
    ] in
    let rest = ParentPath-ancestor_loop fuel sorted p older in ground arith

-- With fuel for every block the walk of `is_ancestor` ends.
pub ancestor_loop-Returns :
    (fuel : ℕ) (es : List ChainEntry) (a t d : ℕ)
    → Ordered es
    → rank es d < fuel
    → Decided (ancestor_loop fuel es a t d)
unfolding ancestor_loop
ancestor_loop-Returns zero es a t d sorted enough = absurd (omega arith)
ancestor_loop-Returns (suc fuel) es a t d sorted enough = elim (Bool-cases (d == a)) [
  | inl same ↦ rw same (true, refl)
  | inr other ↦ rw other (elim (Option-cases (get_entry es d)) [
    | inl unknown ↦ (false, rw unknown)
    | inr (e, g) ↦ rw g (elim (Bool-cases (leb e.height t)) [
      | inl low ↦ rw low (false, refl)
      | inr high ↦ rw high (elim (Bool-cases (d == e.parent_hash)) [
        | inl root ↦ rw root (false, refl)
        | inr apart ↦
            let older : rank es e.parent_hash < fuel = elim (sorted d e g) [
              | inl same ↦ absurd (ground arith)
              | inr before ↦ omega arith
            ] in
            rw apart (ancestor_loop-Returns fuel es a t e.parent_hash sorted older)
      ])
    ])
  ])
]

-- What the walk of `advance_finality` breaks with: the block at the target height on the path
pub final_loop-ParentPath :
    (fuel : ℕ) (es : List ChainEntry) (target d f height : ℕ)
    → final_loop fuel es target d ≡ ok (some (f, height))
    → (height ≡ target)
      × (ParentPath es f target d)
      × (e : ChainEntry) × (get_entry es f ≡ some e)
      × (e.height ≡ target)
unfolding final_loop
final_loop-ParentPath zero es target d f height h = cc
final_loop-ParentPath (suc fuel) es target d f height h = elim (Option-cases (get_entry es d)) [
  | inl unknown ↦ absurd (ground arith)
  | inr (e, g) ↦ elim (Bool-cases (e.height == target)) [
    | inl found ↦
        let same : d ≡ f = ground arith in
        (ground arith, here same, e, subst (λ x. get_entry es x ≡ some e) same g, ground arith)
    | inr other ↦
        let higher : target < e.height = ground arith in
        let apart : d ≢ e.parent_hash = ground arith in
        let rest : final_loop fuel es target e.parent_hash ≡ ok (some (f, height)) = ground arith in
        let (same, p, fe, gf, hf) =
          final_loop-ParentPath fuel es target e.parent_hash f height rest in
        (same, up e g higher apart p, fe, gf, hf)
  ]
]

pub final_loop-Returns :
    (fuel : ℕ) (es : List ChainEntry) (target d : ℕ)
    → Ordered es
    → rank es d < fuel
    → (found : Option (ℕ × ℕ)) × (final_loop fuel es target d ≡ ok found)
unfolding final_loop
final_loop-Returns zero es target d sorted enough = absurd (omega arith)
final_loop-Returns (suc fuel) es target d sorted enough = elim (Option-cases (get_entry es d)) [
  | inl unknown ↦ (none, rw (unknown, final_loop))
  | inr (e, g) ↦
      rw (g, final_loop)
        (elim (Bool-cases (e.height == target)) [
          | inl hit ↦ rw hit (some (d, e.height), refl)
          | inr miss ↦ rw miss (elim (Bool-cases (ltb e.height target)) [
            | inl low ↦ rw low (none, refl)
            | inr high ↦ rw high (elim (Bool-cases (d == e.parent_hash)) [
              | inl root ↦ rw root (none, refl)
              | inr apart ↦
                  let older : rank es e.parent_hash < fuel = elim (sorted d e g) [
                    | inl same ↦ absurd (ground arith)
                    | inr before ↦ omega arith
                  ] in
                  rw apart (final_loop-Returns fuel es target e.parent_hash sorted older)
            ])
          ])
        ])
]
