-- ===== src/Script/Interpreter/MultiSig.antt =====
-- crates/qv-script/src/interpreter.rs, `checkmultisig_pqc`: what its count is a bound of.
use l1_chain.Base.{
  ℕ, suc, ◌+◌, ◌≤◌, ◌≡◌, refl, ap, Bool, true, false, List, [], ◌∷◌, Option, none, some, length,
  All, if◌then◌else◌, Bool-cases, inl, inr, arith, map,
}
use l1_chain.Crypto.{Crypto}
use l1_chain.Script.Interpreter.Signatures.{
  checksig_pqc, mark_key, count_valid, unused, checkmultisig_pqc,
}

module _ (c : Crypto) (msg : List ℕ) where
  -- Some signature of the list verifies under the key.
  abbrev pub signed_by : List (List ℕ) → List ℕ → Bool
  signed_by [] pk = false
  signed_by (sig ∷ sigs) pk = if checksig_pqc c pk sig msg then true else signed_by sigs pk

  -- The number of keys, by their positions, under which some signature verifies
  abbrev pub signers : List (List ℕ) → List (List ℕ) → ℕ
  signers sigs [] = 0
  signers sigs (pk ∷ pks) = if signed_by sigs pk then suc (signers sigs pks) else signers sigs pks

  -- Every signature of the list is one of `all`.
  abbrev Known : List (List ℕ) → List (List ℕ) → Type 0
  Known all =
      All (λ sig. (pk : List ℕ) → checksig_pqc c pk sig msg ≡ true → signed_by all pk ≡ true)

  Known-more : (sig : List ℕ) (all sigs : List (List ℕ)) → Known all sigs → Known (sig ∷ all) sigs
  Known-more sig all [] h = tt
  Known-more sig all (s ∷ sigs) h =
      ((λ pk e. ground (arith, h.0 pk e)), Known-more sig all sigs h.1)

  Known-self : (all : List (List ℕ)) → Known all all
  Known-self [] = tt
  Known-self (sig ∷ all) = ((λ pk e. rw e refl), Known-more sig all all (Known-self all))

abbrev marked : List (List ℕ × Bool) → ℕ
marked [] = 0
marked (k ∷ keys) = if k.1 then suc (marked keys) else marked keys

abbrev key_of : List ℕ × Bool → List ℕ
key_of k = k.0

module _ (c : Crypto) (msg : List ℕ) (all : List (List ℕ)) where
  -- Every used key has a signature.
  abbrev Backed : List (List ℕ × Bool) → Type 0
  Backed = All (λ k. k.1 ≡ true → signed_by c msg all k.0 ≡ true)

  abbrev AfterMark : List (List ℕ × Bool) → Option (List (List ℕ × Bool)) → Type 0
  AfterMark keys none = Unit
  AfterMark keys (some keys') =
      (marked keys' ≡ suc (marked keys)) × (map key_of keys' ≡ map key_of keys) × Backed keys'

  AfterMark-cons :
      (k : List ℕ × Bool) (keys : List (List ℕ × Bool)) (r : Option (List (List ℕ × Bool)))
      → (k.1 ≡ true → signed_by c msg all k.0 ≡ true)
      → AfterMark keys r
      → AfterMark (k ∷ keys) (elim r [ none ↦ none | some rest ↦ some (k ∷ rest) ])
  AfterMark-cons k keys none b h = tt
  AfterMark-cons (pk, true) keys (some keys') b h = (ap suc h.0, ap (λ l. pk ∷ l) h.1, (b, h.2))
  AfterMark-cons (pk, false) keys (some keys') b h = (h.0, ap (λ l. pk ∷ l) h.1, (b, h.2))

  mark_key-AfterMark :
      (sig : List ℕ) (keys : List (List ℕ × Bool))
      → ((pk : List ℕ) → checksig_pqc c pk sig msg ≡ true → signed_by c msg all pk ≡ true)
      → Backed keys
      → AfterMark keys (mark_key c sig msg keys)
  unfolding mark_key
  mark_key-AfterMark sig [] known b = tt
  mark_key-AfterMark sig ((pk, true) ∷ keys) known b =
      AfterMark-cons (pk, true) keys _ b.0 (mark_key-AfterMark sig keys known b.1)
  mark_key-AfterMark sig ((pk, false) ∷ keys) known b =
      elim (Bool-cases (checksig_pqc c pk sig msg)) [
        | inl e ↦ rw e (refl, refl, ((λ _. known pk e), b.1))
        | inr e ↦
            rw e (AfterMark-cons (pk, false) keys _ b.0 (mark_key-AfterMark sig keys known b.1))
      ]

  -- What the outer loop has done
  abbrev Counted : ℕ → List (List ℕ × Bool) → ℕ → List (List ℕ × Bool) × ℕ → Type 0
  Counted todo keys count r =
      (r.1 + marked keys ≡ count + marked r.0)
      × (r.1 ≤ count + todo)
      × (map key_of r.0 ≡ map key_of keys)
      × Backed r.0

  Counted-step :
      (sigs : List (List ℕ)) (keys : List (List ℕ × Bool)) (count : ℕ)
      (r : Option (List (List ℕ × Bool)))
      → ((ks : List (List ℕ × Bool)) (n : ℕ)
          → Backed ks
          → Counted (length sigs) ks n (count_valid c msg sigs ks n))
      → Backed keys
      → AfterMark keys r
      → Counted (suc (length sigs)) keys count (elim r [
        | none ↦ count_valid c msg sigs keys count
        | some keys' ↦ count_valid c msg sigs keys' (count + 1)
      ])
  Counted-step sigs keys count none rec b h =
      let (p, q, r, s) = rec keys count b in (p, omega arith, r, s)
  Counted-step sigs keys count (some keys') rec b h =
      let (p, q, r, s) = rec keys' (count + 1) h.2 in
      (grind (arith, h.0), omega arith, cc (r, h.1), s)

  count_valid-Counted :
      (sigs : List (List ℕ)) (keys : List (List ℕ × Bool)) (count : ℕ)
      → Known c msg all sigs
      → Backed keys
      → Counted (length sigs) keys count (count_valid c msg sigs keys count)
  unfolding count_valid
  count_valid-Counted [] keys count k b = (refl, omega arith, refl, b)
  count_valid-Counted (sig ∷ sigs) keys count k b =
      Counted-step sigs keys count _ (λ ks n. count_valid-Counted sigs ks n k.1) b
        (mark_key-AfterMark sig keys k.0 b)

  marked-signers :
      (keys : List (List ℕ × Bool))
      → Backed keys
      → marked keys ≤ signers c msg all (map key_of keys)
  marked-signers [] b = omega arith
  marked-signers ((pk, true) ∷ keys) b = rw (b.0 refl) (ground (arith, marked-signers keys b.1))
  marked-signers ((pk, false) ∷ keys) b = ground (arith, marked-signers keys b.1)

  unused-Backed : (pks : List (List ℕ)) → Backed (unused c pks)
  unfolding unused
  unused-Backed [] = tt
  unused-Backed (pk ∷ pks) = ((λ e. cc), unused-Backed pks)

unused-marked : (c : Crypto) (pks : List (List ℕ)) → marked (unused c pks) ≡ 0
unfolding unused
unused-marked c [] = refl
unused-marked c (pk ∷ pks) = unused-marked c pks

unused-key_of : (c : Crypto) (pks : List (List ℕ)) → map key_of (unused c pks) ≡ pks
unfolding unused
unused-key_of c [] = refl
unused-key_of c (pk ∷ pks) = ap (λ l. pk ∷ l) (unused-key_of c pks)

count_valid-bound :
    (c : Crypto) (pks sigs : List (List ℕ)) (msg : List ℕ)
    → let n = (count_valid c msg sigs (unused c pks) 0).1 in
      (n ≤ signers c msg sigs pks) × (n ≤ length sigs)
count_valid-bound c pks sigs msg =
    let (p, q, r, s) =
      count_valid-Counted c msg sigs sigs (unused c pks) 0 (Known-self c msg sigs)
        (unused-Backed c msg sigs pks) in
    let m = marked-signers c msg sigs _ s in
    let same : signers c msg sigs (map key_of (count_valid c msg sigs (unused c pks) 0).0)
        ≡ signers c msg sigs pks =
      ap (signers c msg sigs) (cc (r, unused-key_of c pks)) in
    (omega (arith, p, unused-marked c pks, m, same), omega arith)

-- When `checkmultisig_pqc` returns `true`, at least `threshold` of the keys, counted by their
-- positions, each verify some signature of the list, and the list has at least `threshold`
-- signatures.
pub checkmultisig_pqc-signers :
    (c : Crypto) (pks sigs : List (List ℕ)) (msg : List ℕ) (threshold : ℕ)
    → checkmultisig_pqc c pks sigs msg threshold ≡ true
    → (threshold ≤ signers c msg sigs pks) × (threshold ≤ length sigs)
unfolding checkmultisig_pqc
checkmultisig_pqc-signers c pks sigs msg t e =
    let (few, enough) = count_valid-bound c pks sigs msg in (ground arith, ground arith)
