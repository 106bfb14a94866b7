-- ===== src/Script/Templates/SingleOwner/Spend.antt =====
-- crates/qv-script/src/templates.rs, `p2pkh_pqc`: what it takes to spend an output that it locks.
use mathlib.Core.Option.{get_or}
use l1_chain.Base.{
  length-append, ℕ, ◌+◌, ◌≤◌, ◌<◌, ◌≡◌, refl, List, [], ◌∷◌, ◌++◌, length, arith, leb, Bool-cases,
  inl, inr, if◌then◌else◌,
}
use l1_chain.Base.Bytes.{bytes_eq}
use l1_chain.Base.Outcome.{ok, err}
use l1_chain.Crypto.{Crypto, sha3_256}
use l1_chain.Core.Tx.{sighash, Transaction, TxOutput, Serializer}
use l1_chain.Script.Opcode.{dup, hash_sha3, eq, verify, sig_hash, rot, check_sig_pqc}
use l1_chain.Script.Instruction.{
  Instruction, simple, push_bytes, encode_instructions, encode, payload, encode_instructions-append,
}
use l1_chain.Script.Decode.{decode_script}
use l1_chain.Script.Decode.RoundTrip.{decode_script-encode_instructions}
use l1_chain.Script.Validate.{validate_script}
use l1_chain.Script.Interpreter.Value.{from_bool, verify_failed}
use l1_chain.Script.Interpreter.Context.{no_hash, new_context, with_locking_script}
use l1_chain.Script.Interpreter.Signatures.{checksig_pqc}
use l1_chain.Script.Interpreter.Step.{execute}
use l1_chain.Script.Templates.{p2pkh_pqc, p2pkh_builder}
use l1_chain.Script.Templates.SingleOwner.{push_bytes-IsWellFormed, execute-p2pkh}

push_bytes-length : (d : List ℕ) → length (encode (push_bytes d)) ≤ length d + 5
unfolding encode push_bytes payload
push_bytes-length d = elim (Bool-cases (leb (length d) 255)) [
  | inl e ↦ rw e (omega arith)
  | inr e ↦ rw e (elim (Bool-cases (leb (length d) 65535)) [
    | inl f ↦ rw f (omega arith)
    | inr f ↦ rw f (omega arith)
  ])
]

-- The script of a signature and a key, as a wallet writes the witness
abbrev pub owner_witness : List ℕ → List ℕ → List Instruction
owner_witness sig pk = push_bytes sig ∷ push_bytes pk ∷ []

length-push :
    (d : List ℕ) (is : List Instruction)
    → length (encode_instructions (push_bytes d ∷ is))
      ≤ length d + 5 + length (encode_instructions is)
unfolding encode_instructions
length-push d is =
    omega
      (arith, push_bytes-length d, length-append (encode (push_bytes d)) (encode_instructions is))

length-simple :
    (is : List Instruction)
    → length (encode_instructions (simple dup ∷ simple hash_sha3 ∷ is))
      ≡ 2 + length (encode_instructions is)
unfolding encode_instructions encode payload
length-simple is = omega arith

-- The locking script behind the hash
abbrev ending : List Instruction
ending =
    simple eq
    ∷ simple verify
    ∷ simple sig_hash
    ∷ simple rot
    ∷ simple rot
    ∷ simple check_sig_pqc
    ∷ []

length-ending : length (encode_instructions ending) ≡ 6
unfolding encode_instructions encode payload
length-ending = refl

decode-p2pkh :
    (sig pk hash : List ℕ)
    → 0 < length sig
    → 0 < length pk
    → length sig + length pk ≤ 16000
    → length hash ≡ 32
    → decode_script
        (encode_instructions (owner_witness sig pk ++ (p2pkh_builder hash).instructions))
      ≡ ok (owner_witness sig pk ++ (p2pkh_builder hash).instructions)
decode-p2pkh sig pk hash hs hp room len =
    decode_script-encode_instructions _
      (
        push_bytes-IsWellFormed sig hs (omega arith),
        (
          push_bytes-IsWellFormed pk hp (omega arith),
          (
            refl,
            (
              refl,
              (
                push_bytes-IsWellFormed hash (omega arith) (omega arith),
                (refl, (refl, (refl, (refl, (refl, (refl, tt)))))),
              ),
            ),
          ),
        ),
      )
      (omega (
        arith,
        length-push sig (push_bytes pk ∷ simple dup ∷ simple hash_sha3 ∷ push_bytes hash ∷ ending),
        length-push pk (simple dup ∷ simple hash_sha3 ∷ push_bytes hash ∷ ending),
        length-simple (push_bytes hash ∷ ending),
        length-push hash ending,
        length-ending,
      ))

-- Take a nonempty signature and a nonempty key that together leave room for the locking script, and
-- a hash of 32 bytes. `validate_script` of `p2pkh_pqc` of the hash, with the witness that pushes the
-- signature and the key, fails with `VerifyFailed` if the hash is not that of the key; otherwise it
-- returns, has used 600 gas, and succeeds if and only if `checksig_pqc` accepts the signature under
-- the key for the `sighash` of the transaction.
pub validate_script-p2pkh_pqc :
    (c : Crypto) (serialize : Serializer) (sig pk hash : List ℕ) (tx : Transaction)
    (inputs : List TxOutput) (slot : ℕ)
    → 0 < length sig
    → 0 < length pk
    → length sig + length pk ≤ 16000
    → length hash ≡ 32
    → let accepted = checksig_pqc c pk sig (get_or (sighash c serialize tx) no_hash) in
      validate_script c serialize
        (p2pkh_pqc hash)
        (encode_instructions (owner_witness sig pk))
        tx
        inputs
        slot
      ≡ (if bytes_eq (sha3_256 c pk) hash
          then ok
              (record { success = accepted; gas_used = 600; final_stack = from_bool accepted ∷ [] })
          else err verify_failed)
unfolding validate_script execute p2pkh_pqc new_context with_locking_script sighash
validate_script-p2pkh_pqc c serialize sig pk hash tx inputs slot hs hp room len =
    rw (← encode_instructions-append (owner_witness sig pk) (p2pkh_builder hash).instructions) (
      rw (decode-p2pkh sig pk hash hs hp room len) (
        execute-p2pkh c
          (with_locking_script c (new_context c serialize tx inputs slot) (p2pkh_pqc hash)) sig pk
          hash))
