-- ===== src/Script/Decode/RoundTrip.antt =====
-- `decode_script` and `encode_instructions` are inverse to one another.
use native.Mathlib.Nat.{mod-eq_of_lt}
use l1_chain.Base.{
  ℕ, zero, suc, ◌^◌, ◌≤◌, ◌<◌, ◌≡◌, ◌≢◌, refl, List, [], ◌∷◌, ◌++◌, length, All, take-append,
  drop-append, take-append-drop, length-append, length-take, length-drop, arith, All-append_split,
  subst,
}
use l1_chain.Base.Bytes.{
  IsBytes, from_le, to_le, from_le-to_le, length-to_le, to_le-from_le, from_le-lt,
}
use l1_chain.Base.Outcome.{ok, >>=-eq-ok, ok_inj}
use l1_chain.Script.Opcode.{
  OpCode, op0, push1, push2, push4, push_int, from_byte, to_byte, max_script_size,
}
use l1_chain.Script.Opcode.Codes.{from_byte-to_byte, to_byte-from_byte}
use l1_chain.Script.Instruction.{Instruction, payload, encode, encode_instructions}
use l1_chain.Script.Decode.{read_bytes, read_push, read_inline, decode_loop, decode_script}

-- The data that an opcode can carry: of a length that its length prefix can hold and that is not
-- 0, eight bytes for an integer, and none for any other opcode.
abbrev pub Fits : OpCode → List ℕ → Type 0
Fits push1 d = (0 < length d) × (length d < 2 ^ 8)
Fits push2 d = (0 < length d) × (length d < 2 ^ 16)
Fits push4 d = (0 < length d) × (length d < 2 ^ 32)
Fits push_int d = length d ≡ 8
Fits _ d = d ≡ []

abbrev pub IsWellFormed : Instruction → Type 0
IsWellFormed i = Fits i.op i.inline

read_bytes-append : (xs ys : List ℕ) → read_bytes (length xs) (xs ++ ys) ≡ ok (xs, ys)
unfolding read_bytes
read_bytes-append xs ys =
    rw (length-append xs ys, take-append xs ys, drop-append xs ys) (ground arith)

read_push-payload :
    (k : ℕ) (d rest : List ℕ)
    → 0 < length d
    → length d < 256 ^ k
    → read_push k (to_le k (length d) ++ (d ++ rest)) ≡ ok (d, rest)
unfolding read_push
read_push-payload k d rest pos small =
    let header : read_bytes k (to_le k (length d) ++ (d ++ rest))
        ≡ ok (to_le k (length d), d ++ rest) =
      rw (length-to_le k (length d)) at (read_bytes-append (to_le k (length d)) (d ++ rest)) in
    rw (header, from_le-to_le k (length d) small) (ground (arith, read_bytes-append d rest))

read_inline-payload :
    (op : OpCode) (d rest : List ℕ)
    → Fits op d
    → read_inline op (payload op d ++ rest) ≡ ok (d, rest)
unfolding read_inline payload
read_inline-payload push1 d rest f = read_push-payload 1 d rest f.0 f.1
read_inline-payload push2 d rest f = rw (mod-eq_of_lt f.1) (read_push-payload 2 d rest f.0 f.1)
read_inline-payload push4 d rest f = rw (mod-eq_of_lt f.1) (read_push-payload 4 d rest f.0 f.1)
read_inline-payload push_int d rest f = rw f at (read_bytes-append d rest)
read_inline-payload op0 d rest f = rw f
read_inline-payload _ d rest f = rw f

-- Whatever follows, an encoded instruction is read back whole.
decode_loop-encode :
    (is : List Instruction) (fuel : ℕ)
    → All IsWellFormed is
    → length (encode_instructions is) ≤ fuel
    → decode_loop fuel (encode_instructions is) ≡ ok is
unfolding decode_loop encode_instructions encode
decode_loop-encode [] fuel f enough = refl
decode_loop-encode (i ∷ is) zero f enough = absurd (omega arith)
decode_loop-encode (i ∷ is) (suc fuel) f enough =
    let room : length (encode_instructions is) ≤ fuel =
      omega (arith, length-append (payload i.op i.inline) (encode_instructions is)) in
    rw (
      from_byte-to_byte i.op,
      read_inline-payload i.op i.inline (encode_instructions is) f.0,
      decode_loop-encode is fuel f.1 room,
    )

-- Encoding a list of well-formed instructions that fits into a script and decoding the bytes gives
-- the list back.
pub decode_script-encode_instructions :
    (is : List Instruction)
    → All IsWellFormed is
    → length (encode_instructions is) ≤ max_script_size
    → decode_script (encode_instructions is) ≡ ok is
unfolding decode_script
decode_script-encode_instructions is f small =
    ground (arith, decode_loop-encode is (length (encode_instructions is)) f (omega arith))

read_bytes-eq-ok :
    (n : ℕ) (rest d behind : List ℕ)
    → read_bytes n rest ≡ ok (d, behind)
    → (length d ≡ n) × (d ++ behind ≡ rest) × (length behind ≤ length rest)
unfolding read_bytes
read_bytes-eq-ok n rest d behind e =
    ground (arith, length-take n rest, length-drop n rest, take-append-drop n rest)

read_push-eq-ok :
    (k : ℕ) (rest d behind : List ℕ)
    → IsBytes rest
    → read_push k rest ≡ ok (d, behind)
    → (0 < length d)
      × (length d < 256 ^ k)
      × (to_le k (length d) ++ (d ++ behind) ≡ rest)
      × (length behind ≤ length rest)
unfolding read_push
read_push-eq-ok k rest d behind bytes e =
    let (p, first, second) = >>=-eq-ok (read_bytes k rest) _ e in
    let (k-len, k-rest, shorter) = read_bytes-eq-ok k rest p.0 p.1 first in
    let nonzero : (from_le p.0 ≢ 0) × (read_bytes (from_le p.0) p.1 ≡ ok (d, behind)) =
      (ground (arith, second), ground (arith, second)) in
    let (d-len, d-rest, shorter') = read_bytes-eq-ok (from_le p.0) p.1 d behind nonzero.1 in
    let header = All-append_split (λ b. b < 256) p.0 p.1 (rw k-rest bytes) in
    let prefix : to_le k (length d) ≡ p.0 = rw (d-len, ← k-len) (to_le-from_le p.0 header.0) in
    (
      omega (arith, nonzero.0, d-len),
      rw (d-len, ← k-len) (from_le-lt p.0 header.0),
      rw (prefix, d-rest) k-rest,
      omega (arith, shorter, shorter'),
    )

pub read_inline-eq-ok :
    (op : OpCode) (rest d behind : List ℕ)
    → IsBytes rest
    → read_inline op rest ≡ ok (d, behind)
    → Fits op d × (payload op d ++ behind ≡ rest) × (length behind ≤ length rest)
unfolding read_inline payload
read_inline-eq-ok push1 rest d behind bytes e =
    let (pos, small, whole, shorter) = read_push-eq-ok 1 rest d behind bytes e in
    ((pos, small), whole, shorter)
read_inline-eq-ok push2 rest d behind bytes e =
    let (pos, small, whole, shorter) = read_push-eq-ok 2 rest d behind bytes e in
    ((pos, small), rw (mod-eq_of_lt small) whole, shorter)
read_inline-eq-ok push4 rest d behind bytes e =
    let (pos, small, whole, shorter) = read_push-eq-ok 4 rest d behind bytes e in
    ((pos, small), rw (mod-eq_of_lt small) whole, shorter)
read_inline-eq-ok push_int rest d behind bytes e = read_bytes-eq-ok 8 rest d behind e
read_inline-eq-ok op0 rest d behind bytes e = (cc, cc, ground (arith, e))
read_inline-eq-ok _ rest d behind bytes e = (cc, cc, ground (arith, e))

-- The instructions are well formed, and the script is their encoding.
abbrev Decodes : List ℕ → List Instruction → Type 0
Decodes script is = All IsWellFormed is × (encode_instructions is ≡ script)

Decodes-cons :
    (byte : ℕ) (op : OpCode) (d behind rest : List ℕ) (tail : List Instruction)
    → to_byte op ≡ byte
    → Fits op d
    → payload op d ++ behind ≡ rest
    → Decodes behind tail
    → Decodes (byte ∷ rest) (record { op = op; inline = d } ∷ tail)
unfolding encode_instructions encode
Decodes-cons byte op d behind rest tail code fits written (tail-fits, tail-written) =
    ((fits, tail-fits), rw (tail-written, code, written))

decode_loop-eq-ok :
    (fuel : ℕ) (script : List ℕ) (is : List Instruction)
    → IsBytes script
    → decode_loop fuel script ≡ ok is
    → Decodes script is
unfolding decode_loop encode_instructions
decode_loop-eq-ok zero [] is bytes e = subst (Decodes []) (ok_inj e) (tt, refl)
decode_loop-eq-ok zero (byte ∷ rest) is bytes e = cc
decode_loop-eq-ok (suc fuel) [] is bytes e = subst (Decodes []) (ok_inj e) (tt, refl)
decode_loop-eq-ok (suc fuel) (byte ∷ rest) is bytes e =
    let (op, byte-op, rest-ok) = >>=-eq-ok (from_byte byte) _ e in
    let (p, inline-ok, tail-ok) = >>=-eq-ok (read_inline op rest) _ rest-ok in
    let (tail, loop-ok, whole) = >>=-eq-ok (decode_loop fuel p.1) _ tail-ok in
    let (fits, written, _) = read_inline-eq-ok op rest p.0 p.1 bytes.1 inline-ok in
    let parts = All-append_split (λ b. b < 256) (payload op p.0) p.1 (rw written bytes.1) in
    let code = to_byte-from_byte byte op bytes.0 byte-op in
    subst (Decodes (byte ∷ rest)) (ok_inj whole) (
      Decodes-cons byte op p.0 p.1 rest tail code fits written
        (decode_loop-eq-ok fuel p.1 tail parts.1 loop-ok))

-- A script of bytes that decodes is the encoding of what it decodes to, and each of the
-- instructions is well formed.
pub encode_instructions-decode_script :
    (script : List ℕ) (is : List Instruction)
    → IsBytes script
    → decode_script script ≡ ok is
    → All IsWellFormed is × (encode_instructions is ≡ script)
unfolding decode_script
encode_instructions-decode_script script is bytes e =
    decode_loop-eq-ok (length script) script is bytes (ground (arith, e))
