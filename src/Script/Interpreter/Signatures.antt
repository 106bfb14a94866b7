-- ===== src/Script/Interpreter/Signatures.antt =====
-- The signature opcodes of crates/qv-script/src/interpreter.rs.
use l1_chain.Base.{
  ℕ, zero, suc, ◌+◌, ◌-◌, ◌*◌, ◌^◌, Bool, true, false, ◌||◌, List, [], ◌∷◌, Option, none, some,
  length, leb, ltb, if◌then◌else◌,
}
use l1_chain.Base.Word.{saturating_mul}
use l1_chain.Base.Outcome.{Outcome, ok, err, panic, ◌>>=◌}
use l1_chain.Crypto.{
  Crypto, DilithiumLevel, level2, level3, level5, CryptoError, public_key_from_bytes,
  signature_from_bytes, verify_pqc,
}
use l1_chain.Script.Gas.{GasMeter, consume, multisig_per_key_cost}
use l1_chain.Script.Interpreter.Value.{bytes, Script, from_bool, out_of_gas}
use l1_chain.Script.Interpreter.Stack.{Stack, push, pop_int, pop_bytes}

-- `matches!(…, Ok(true))`
abbrev pub is_ok_true : Outcome CryptoError Bool → Bool
is_ok_true (ok b) = b
is_ok_true _ = false

module _ (c : Crypto) where
  -- One round of the loop of `checksig_pqc`
  unfoldable pub checksig_at : DilithiumLevel → List ℕ → List ℕ → List ℕ → Bool
  unfolding public_key_from_bytes signature_from_bytes verify_pqc
  checksig_at level pk_bytes sig_bytes msg = is_ok_true (
      public_key_from_bytes c level pk_bytes >>= λ pk.
      signature_from_bytes c level sig_bytes >>= λ sig. verify_pqc c pk msg sig)

  -- Level 3 first, then 2, then 5
  unfoldable pub checksig_pqc : List ℕ → List ℕ → List ℕ → Bool
  unfolding checksig_at
  checksig_pqc pk sig msg =
      checksig_at level3 pk sig msg
      || (checksig_at level2 pk sig msg || checksig_at level5 pk sig msg)

  -- A key of the multi-signature and its entry of `used`
  -- The inner loop of `checkmultisig_pqc`: mark the first unused key that verifies the signature.
  unfoldable pub mark_key : List ℕ → List ℕ → List (List ℕ × Bool) → Option (List (List ℕ × Bool))
  mark_key sig msg [] = none
  mark_key sig msg ((pk, true) ∷ keys) = elim (mark_key sig msg keys) [
    | none ↦ none
    | some rest ↦ some ((pk, true) ∷ rest)
  ]
  mark_key sig msg ((pk, false) ∷ keys) =
      if checksig_pqc pk sig msg
      then some ((pk, true) ∷ keys)
      else elim (mark_key sig msg keys) [ none ↦ none | some rest ↦ some ((pk, false) ∷ rest) ]

  -- The outer loop: the keys, and `valid_count`
  unfoldable pub count_valid :
      List ℕ → List (List ℕ) → List (List ℕ × Bool) → ℕ → List (List ℕ × Bool) × ℕ
  count_valid msg [] keys count = (keys, count)
  count_valid msg (sig ∷ sigs) keys count = elim (mark_key sig msg keys) [
    | none ↦ count_valid msg sigs keys count
    | some keys' ↦ count_valid msg sigs keys' (count + 1)
  ]

  unfoldable pub unused : List (List ℕ) → List (List ℕ × Bool)
  unused [] = []
  unused (pk ∷ pks) = (pk, false) ∷ unused pks

  unfoldable pub checkmultisig_pqc : List (List ℕ) → List (List ℕ) → List ℕ → ℕ → Bool
  unfolding unused
  checkmultisig_pqc pks sigs msg threshold =
      if ltb (length pks) threshold || ltb (length sigs) threshold
      then false
      else leb threshold (count_valid msg sigs (unused pks) 0).1

-- `for _ in 0..n { out.push(pop_bytes(stack)?) }`
unfoldable pub pop_many : ℕ → Stack → Script (List (List ℕ) × Stack)
pop_many zero st = ok ([], st)
pop_many (suc n) st = pop_bytes st >>= λ (b, st). pop_many n st >>= λ (bs, st). ok (b ∷ bs, st)

-- `Vec::<Vec<u8>>::with_capacity(n)`: a `Vec<u8>` takes 24 bytes, and a capacity of more than
-- `isize::MAX` bytes panics.
abbrev pub with_capacity {ℓ} : {A : Type ℓ} → ℕ → Script A → Script A
with_capacity n m = if ltb (2 ^ 63 - 1) (n * 24) then panic else m

unfoldable pub check_sig_op : Crypto → Stack → Script Stack
unfolding pop_bytes push
check_sig_op c st = pop_bytes st >>= λ (pk, st). pop_bytes st >>= λ (sig, st).
    pop_bytes st >>= λ (msg, st). push st (from_bool (checksig_pqc c pk sig msg))

-- Behind the charge for the keys
unfoldable pub multi_sig_body : Crypto → ℕ → Stack → Script Stack
multi_sig_body c n_keys st = with_capacity n_keys (
    pop_many n_keys st >>= λ (pks, st). pop_int st >>= λ (m_sigs, st). with_capacity m_sigs (
      pop_many m_sigs st >>= λ (sigs, st).
      pop_bytes st >>= λ (msg, st). push st (from_bool (checkmultisig_pqc c pks sigs msg m_sigs))))

unfoldable pub check_multi_sig_op : Crypto → Stack → GasMeter → Script (Stack × GasMeter)
check_multi_sig_op c st gas = pop_int st >>= λ (n_keys, st).
    let (paid, gas) = consume gas (saturating_mul multisig_per_key_cost n_keys) in
    if paid then (multi_sig_body c n_keys st >>= λ st. ok (st, gas)) else err out_of_gas

-- `HashSha3` and `HashBlake3`, by the hash
unfoldable pub hash_op : (List ℕ → List ℕ) → Stack → Script Stack
unfolding pop_bytes push
hash_op h st = pop_bytes st >>= λ (d, st). push st (bytes (h d))
