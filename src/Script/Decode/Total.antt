-- ===== src/Script/Decode/Total.antt =====
-- `decode_script` ends on every byte string, without a panic.
use l1_chain.Base.{
  ℕ, zero, suc, ◌≤◌, ◌<◌, List, [], ◌∷◌, length, ltb, ◌==◌, arith, inl, inr, Bool-cases,
  All-append_split,
}
use l1_chain.Base.Bytes.{IsBytes, from_le}
use l1_chain.Base.Outcome.{Returns, Returns-bind}
use l1_chain.Script.Opcode.{OpCode, op0, push1, push2, push4, push_int, from_byte, max_script_size}
use l1_chain.Script.Opcode.Codes.{from_byte-Returns}
use l1_chain.Script.Instruction.{payload}
use l1_chain.Script.Decode.{read_bytes, read_push, read_inline, decode_loop, decode_script}
use l1_chain.Script.Decode.RoundTrip.{read_inline-eq-ok}

read_bytes-Returns : (n : ℕ) (rest : List ℕ) → Returns (read_bytes n rest)
unfolding read_bytes
read_bytes-Returns n rest = elim (Bool-cases (ltb (length rest) n)) [
  | inl short ↦ rw short tt
  | inr long ↦ rw long tt
]

read_push-Returns : (k : ℕ) (rest : List ℕ) → Returns (read_push k rest)
unfolding read_push
read_push-Returns k rest = Returns-bind (read_bytes k rest) _ (read_bytes-Returns k rest) λ p _.
    elim (Bool-cases (from_le p.0 == 0)) [
      | inl empty ↦ rw empty tt
      | inr some ↦ rw some (read_bytes-Returns (from_le p.0) p.1)
    ]

read_inline-Returns : (op : OpCode) (rest : List ℕ) → Returns (read_inline op rest)
unfolding read_inline
read_inline-Returns push1 rest = read_push-Returns 1 rest
read_inline-Returns push2 rest = read_push-Returns 2 rest
read_inline-Returns push4 rest = read_push-Returns 4 rest
read_inline-Returns push_int rest = read_bytes-Returns 8 rest
read_inline-Returns op0 rest = tt
read_inline-Returns _ rest = tt

decode_loop-Returns :
    (fuel : ℕ) (script : List ℕ)
    → IsBytes script
    → length script ≤ fuel
    → Returns (decode_loop fuel script)
unfolding decode_loop
decode_loop-Returns zero [] bytes enough = tt
decode_loop-Returns zero (byte ∷ rest) bytes enough = absurd (omega arith)
decode_loop-Returns (suc fuel) [] bytes enough = tt
decode_loop-Returns (suc fuel) (byte ∷ rest) bytes enough =
    Returns-bind (from_byte byte) _ (from_byte-Returns byte bytes.0) λ op _.
      Returns-bind (read_inline op rest) _ (read_inline-Returns op rest) λ p e.
        let (fits, written, shorter) = read_inline-eq-ok op rest p.0 p.1 bytes.1 e in
        let parts = All-append_split (λ b. b < 256) (payload op p.0) p.1 (rw written bytes.1) in
        Returns-bind (decode_loop fuel p.1) _ (decode_loop-Returns fuel p.1 parts.1 (omega arith))
          λ tail _. tt

-- On every byte string `decode_script` returns instructions or an error: it ends, and no slice of the
-- script is out of range, which would panic.
pub decode_script-Returns : (script : List ℕ) → IsBytes script → Returns (decode_script script)
unfolding decode_script
decode_script-Returns script bytes = elim (Bool-cases (ltb max_script_size (length script))) [
  | inl big ↦ rw big tt
  | inr small ↦ rw small (decode_loop-Returns (length script) script bytes (omega arith))
]
