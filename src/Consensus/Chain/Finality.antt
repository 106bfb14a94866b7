-- ===== src/Consensus/Chain/Finality.antt =====
-- crates/qv-consensus/src/chain_state.rs: finality is sticky.
use l1_chain.Base.{
  ℕ, ◌≤◌, ◌≡◌, arith, List, ◌∷◌, Bool, true, some, ap, subst, sym, ◌∙◌, some_inj, ◌≢◌,
}
use l1_chain.Base.Outcome.{ok}
use l1_chain.Consensus.Chain.{ChainEntry, ChainState, get_entry, is_final, add_block}
use l1_chain.Consensus.Chain.Walk.{
  rank, ParentPath, here, up, ParentPath-grow, ParentPath-weaken, ParentPath-append,
  ParentPath-split, get_entry-grow,
}
use l1_chain.Consensus.Chain.Step.{is_ancestor-ParentPath, ParentPath-is_ancestor}
use l1_chain.Consensus.Chain.Sound.{
  Reach, add, IsSound, kept, moved, Added, add_block-Added, get_entry_self,
}
use l1_chain.Consensus.Chain.Invariant.{Reach-IsSound, Added-IsSound}

-- A state and what further accepted blocks make of it
pub data Extends (s : ChainState) : ChainState → Type 0 where
  same : Extends s s
  more :
      {t u : ChainState}
      → Extends s t
      → (e : ChainEntry) (b : Bool) → add_block t e ≡ ok (b, u)
      → Extends s u

pub Extends-Reach : {k : ℕ} {s t : ChainState} → Reach k s → Extends s t → Reach k t
Extends-Reach r same = r
Extends-Reach r (more x e b made) = add (Extends-Reach r x) e b made

-- The end of a path is at least as high as the bound, and no lower than the block before it.
ParentPath-height :
    {es : List ChainEntry} {a d : ℕ} (e f : ChainEntry)
    → get_entry es a ≡ some e
    → get_entry es d ≡ some f
    → ParentPath es a e.height d
    → e.height ≤ f.height
ParentPath-height {es} e f ge gf (here at) =
    let eq : e ≡ f = some_inj (sym ge ∙ ap (get_entry es) (sym at) ∙ gf) in
    omega (arith, ap (λ (x : ChainEntry). x.height) eq)
ParentPath-height {es} e f ge gf (up x gx higher apart p) =
    let eq : x ≡ f = some_inj (sym gx ∙ gf) in omega (arith, ap (λ (y : ChainEntry). y.height) eq)

module _ {s : ChainState} {e : ChainEntry} {b : Bool} {s' : ChainState} (sound : IsSound s)
    (step : Added s e b s') where
  -- The old finalized block is on the way from the new one.
  final_above :
      (f : ChainEntry)
      → get_entry s.entries s.final_hash ≡ some f
      → ParentPath (e ∷ s.entries) s.final_hash f.height s'.final_hash
  final_above f gf =
      let (f', gf', at) = sound.final_known in
      let low : f.height ≡ s.final_height =
        ap (λ (x : ChainEntry). x.height) (some_inj (sym gf ∙ gf')) ∙ at in
      elim step.final_step [
        | kept hash height idle ↦ here hash
        | moved g gg top higher deep path ↦
            let (f₀, gf₀, below) =
              is_ancestor-ParentPath s s.final_hash e.parent_hash step.descends in
            let level : f₀.height ≡ f.height =
              ap (λ (x : ChainEntry). x.height) (some_inj (sym gf₀ ∙ gf)) in
            let apart : e.hash ≢ e.parent_hash =
              λ q. absurd (omega (arith, ap (rank s.entries) q, step.fresh, step.parent_known)) in
            let whole : ParentPath (e ∷ s.entries) s.final_hash f.height e.hash =
              up e (get_entry_self e s.entries) (omega arith) apart (
                ParentPath-grow e s.entries s.final_hash f.height e.parent_hash step.fresh
                  (subst (λ x. ParentPath s.entries s.final_hash x e.parent_hash) level below)) in
            ParentPath-split f (get_entry-grow e s.entries s.final_hash f step.fresh gf)
              (omega arith) (omega arith) path whole
      ]

  is_final_step : (h : ℕ) → is_final s h ≡ ok true → is_final s' h ≡ ok true
  unfolding is_final
  is_final_step h final =
      let (x, gx, p) = is_ancestor-ParentPath s h s.final_hash final in
      let (f, gf, at) = sound.final_known in
      let above = ParentPath-weaken x.height (ParentPath-height x f gx gf p) (final_above f gf) in
      let whole =
        ParentPath-append above
          (ParentPath-grow e s.entries h x.height s.final_hash step.fresh p) in
      ParentPath-is_ancestor s' h s'.final_hash x (Added-IsSound sound step).ordered
        (ap (λ es. get_entry es h) step.entries_eq ∙ get_entry-grow e s.entries h x step.fresh gx)
        (subst (λ es. ParentPath es h x.height s'.final_hash) (sym step.entries_eq) whole)

  pub final_height_step : s.final_height ≤ s'.final_height
  final_height_step = elim step.final_step [
    | kept hash height idle ↦ omega arith
    | moved g gg top higher deep path ↦ omega arith
  ]

  -- A known block stays as it is.
  get_entry_step :
      (h : ℕ) (x : ChainEntry) → get_entry s.entries h ≡ some x → get_entry s'.entries h ≡ some x
  get_entry_step h x g =
      ap (λ es. get_entry es h) step.entries_eq ∙ get_entry-grow e s.entries h x step.fresh g

-- A block that is final in a reachable state is final in every state that further accepted blocks
-- lead to, whatever their heights are, and the finalized height never goes down.
pub is_final-Extends :
    {k : ℕ} {s t : ChainState}
    → Reach k s
    → Extends s t
    → (h : ℕ) → is_final s h ≡ ok true
    → (is_final t h ≡ ok true) × (s.final_height ≤ t.final_height)
is_final-Extends r same h final = (final, omega arith)
is_final-Extends r (more {t} {u} x e b made) h final =
    let sound = Reach-IsSound (Extends-Reach r x) in
    let step = add_block-Added t e b u sound made in
    let (before, low) = is_final-Extends r x h final in
    (is_final_step sound step h before, omega (arith, final_height_step sound step))

get_entry-Extends :
    {k : ℕ} {s t : ChainState}
    → Reach k s
    → Extends s t
    → (h : ℕ) (x : ChainEntry) → get_entry s.entries h ≡ some x
    → get_entry t.entries h ≡ some x
get_entry-Extends r same h x g = g
get_entry-Extends r (more {t} {u} y e b made) h x g =
    let sound = Reach-IsSound (Extends-Reach r y) in
    get_entry_step sound (add_block-Added t e b u sound made) h x (get_entry-Extends r y h x g)

-- Of two blocks on one path the bounds decide which is nearer; at one height they are the same.
ParentPath-same_height :
    {es : List ChainEntry} {a c t d : ℕ} (x y : ChainEntry)
    → get_entry es a ≡ some x
    → get_entry es c ≡ some y
    → x.height ≡ t
    → y.height ≡ t
    → ParentPath es a t d
    → ParentPath es c t d
    → a ≡ c
ParentPath-same_height x y gx gy hx hy (here p) (here q) = sym p ∙ q
ParentPath-same_height {es} x y gx gy hx hy (here p) (up w gw higher apart rest) =
    let eq : w ≡ x = some_inj (sym gw ∙ ap (get_entry es) p ∙ gx) in
    absurd (omega (arith, ap (λ (z : ChainEntry). z.height) eq))
ParentPath-same_height {es} x y gx gy hx hy (up w gw higher apart rest) (here q) =
    let eq : w ≡ y = some_inj (sym gw ∙ ap (get_entry es) q ∙ gy) in
    absurd (omega (arith, ap (λ (z : ChainEntry). z.height) eq))
ParentPath-same_height {es} {a} {c} {t} {d} x y gx gy hx hy (up w gw h1 a1 p) (up v gv h2 a2 q) =
    let eq : v ≡ w = some_inj (sym gv ∙ gw) in
    ParentPath-same_height x y gx gy hx hy p
      (subst (λ (z : ChainEntry). ParentPath es c t z.parent_hash) eq q)

-- Two blocks of one height are never both final: not in one reachable state, and not when the
-- first is final in one state and the second in a later one.
pub is_final_unique :
    {k : ℕ} {s t : ChainState}
    → Reach k s
    → Extends s t
    → (a c : ℕ) (x y : ChainEntry) → get_entry s.entries a ≡ some x
    → get_entry t.entries c ≡ some y
    → x.height ≡ y.height
    → is_final s a ≡ ok true
    → is_final t c ≡ ok true
    → a ≡ c
unfolding is_final
is_final_unique {k} {s} {t} r ext a c x y gx gy level first second =
    let later = (is_final-Extends r ext a first).0 in
    let gx' = get_entry-Extends r ext a x gx in
    let (x', gx'', p) = is_ancestor-ParentPath t a t.final_hash later in
    let (y', gy', q) = is_ancestor-ParentPath t c t.final_hash second in
    let hx : x'.height ≡ y.height =
      ap (λ (z : ChainEntry). z.height) (some_inj (sym gx'' ∙ gx')) ∙ level in
    let hy : y'.height ≡ y.height = ap (λ (z : ChainEntry). z.height) (some_inj (sym gy' ∙ gy)) in
    ParentPath-same_height x' y' gx'' gy' hx hy
      (subst (λ n. ParentPath t.entries a n t.final_hash) hx p)
      (subst (λ n. ParentPath t.entries c n t.final_hash) hy q)
