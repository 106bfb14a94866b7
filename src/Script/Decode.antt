-- ===== src/Script/Decode.antt =====
-- crates/qv-script/src/opcode.rs, `decode_script`. The loop's state is the part of the script from
-- `pos` on, so `script.len() - pos` is its length.
pub mod RoundTrip
pub mod Total
use l1_chain.Base.{
  ℕ, zero, suc, ◌<◌, List, [], ◌∷◌, length, take, drop, leb, ltb, ◌==◌, if◌then◌else◌,
}
use l1_chain.Base.Bytes.{from_le}
use l1_chain.Base.Outcome.{Outcome, ok, err, panic, diverge, ◌>>=◌}
use l1_chain.Script.Opcode.{
  OpCode, push1, push2, push4, push_int, OpcodeError, unexpected_end, zero_push, script_too_large,
  max_script_size, from_byte,
}
use l1_chain.Script.Instruction.{Instruction}

-- `script[pos..pos + n]`, or `n` reads of one byte, and what is behind; out of range it panics.
unfoldable pub slice_bytes : ℕ → List ℕ → Outcome OpcodeError (List ℕ × List ℕ)
slice_bytes n rest = if ltb (length rest) n then panic else ok (take n rest, drop n rest)

-- The test of what is left, and the slice that it guards
unfoldable pub read_bytes : ℕ → List ℕ → Outcome OpcodeError (List ℕ × List ℕ)
unfolding slice_bytes
read_bytes n rest =
    if ltb (length rest) n then err (unexpected_end n (length rest)) else slice_bytes n rest

-- A length of `k` bytes, which must not be 0, and as many bytes of data.
unfoldable pub read_push : ℕ → List ℕ → Outcome OpcodeError (List ℕ × List ℕ)
read_push k rest = read_bytes k rest >>= λ (header, behind).
    let len = from_le header in if len == 0 then err zero_push else read_bytes len behind

-- The inline data of an opcode and what stands behind it.
unfoldable pub read_inline : OpCode → List ℕ → Outcome OpcodeError (List ℕ × List ℕ)
read_inline push1 rest = read_push 1 rest
read_inline push2 rest = read_push 2 rest
read_inline push4 rest = read_push 4 rest
read_inline push_int rest = read_bytes 8 rest
read_inline _ rest = ok ([], rest)

-- The `while` loop; each round takes a byte at least, so the script's length is fuel enough.
unfoldable pub decode_loop : ℕ → List ℕ → Outcome OpcodeError (List Instruction)
decode_loop fuel [] = ok []
decode_loop zero (byte ∷ rest) = diverge
decode_loop (suc fuel) (byte ∷ rest) = from_byte byte >>= λ op.
    read_inline op rest >>= λ (d, behind).
    decode_loop fuel behind >>= λ is. ok (record { op = op; inline = d } ∷ is)

unfoldable pub decode_script : List ℕ → Outcome OpcodeError (List Instruction)
decode_script script =
    if ltb max_script_size (length script)
    then err (script_too_large (length script) max_script_size)
    else decode_loop (length script) script
