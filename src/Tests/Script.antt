-- ===== src/Tests/Script.antt =====
-- Runs of the script's encoder and decoder.
use l1_chain.Base.{ℕ, List, [], ◌∷◌, ◌≡◌, ◌≤◌, refl, arith, length, All}
use l1_chain.Base.Outcome.{ok, err, Returns}
use l1_chain.Script.Opcode.{dup, zero_push, unexpected_end, from_byte, to_byte}
use l1_chain.Script.Instruction.{
  Instruction, simple, push_bytes, encode_instructions, encode, payload,
}
use l1_chain.Script.Decode.{decode_script, decode_loop, read_inline, read_push, read_bytes}
use l1_chain.Script.Decode.RoundTrip.{
  IsWellFormed, decode_script-encode_instructions, encode_instructions-decode_script,
}
use l1_chain.Script.Decode.Total.{decode_script-Returns}

abbrev code : List ℕ
code = 2 ∷ 2 ∷ 9 ∷ 8 ∷ 16 ∷ []

abbrev listing : List Instruction
listing = push_bytes (9 ∷ 8 ∷ []) ∷ simple dup ∷ []

encode_listing : encode_instructions listing ≡ code
unfolding encode_instructions encode to_byte payload push_bytes
encode_listing = refl

decode_code : decode_script code ≡ ok listing
unfolding decode_script decode_loop from_byte read_inline read_push read_bytes push_bytes
decode_code = refl

-- The data is missing.
decode_short : decode_script (2 ∷ 5 ∷ 9 ∷ []) ≡ err (unexpected_end 5 1)
unfolding decode_script decode_loop from_byte read_inline read_push read_bytes
decode_short = refl

-- `push_bytes` of nothing is written, but not read back.
decode_empty : decode_script (encode_instructions (push_bytes [] ∷ [])) ≡ err zero_push
unfolding decode_script encode_instructions encode payload push_bytes decode_loop from_byte to_byte
    read_inline read_push read_bytes
decode_empty = refl

listing-IsWellFormed : All IsWellFormed listing
unfolding push_bytes
listing-IsWellFormed = ((omega arith, omega arith), (refl, tt))

listing-length : length (encode_instructions listing) ≤ 16384
unfolding encode_instructions encode payload push_bytes
listing-length = omega arith

decode_script-encode_instructions_example : decode_script (encode_instructions listing) ≡ ok listing
decode_script-encode_instructions_example =
    decode_script-encode_instructions listing listing-IsWellFormed listing-length

encode_instructions-decode_script_example :
    All IsWellFormed listing × (encode_instructions listing ≡ code)
encode_instructions-decode_script_example =
    encode_instructions-decode_script code listing
      (omega arith, (omega arith, (omega arith, (omega arith, (omega arith, tt))))) decode_code

decode_script-Returns_example : Returns (decode_script code)
decode_script-Returns_example =
    decode_script-Returns code
      (omega arith, (omega arith, (omega arith, (omega arith, (omega arith, tt)))))
