-- ===== src/Script/Instruction.antt =====
-- crates/qv-script/src/opcode.rs, `Instruction` and its wire format.
use mathlib.Core.List.{append_assoc}
use l1_chain.Base.{ℕ, ◌^◌, ◌%◌, List, [], ◌∷◌, ◌++◌, length, leb, if◌then◌else◌, ◌≡◌, sym, refl}
use l1_chain.Base.Bytes.{to_le}
use l1_chain.Script.Opcode.{OpCode, push1, push2, push4, push_int, to_byte}

-- A decoded opcode and the data that stands behind it in the script.
pub record Instruction : Type 0 where
  pub op : OpCode
  pub inline : List ℕ

-- `Instruction::simple`
abbrev pub simple : OpCode → Instruction
simple op = record { op = op; inline = [] }

-- `Instruction::push_bytes`
unfoldable pub push_bytes : List ℕ → Instruction
push_bytes d = record {
  op = if leb (length d) 255 then push1 else if leb (length d) 65535 then push2 else push4;
  inline = d;
}

-- `Instruction::push_int`, of the bit pattern of an `i64`
abbrev pub push_integer : ℕ → Instruction
push_integer n = record { op = push_int; inline = to_le 8 n }

-- What `Instruction::encode` writes behind the opcode's byte; `as u8` and so on drop the high bits.
unfoldable pub payload : OpCode → List ℕ → List ℕ
payload push1 d = (length d % 2 ^ 8) ∷ d
payload push2 d = to_le 2 (length d % 2 ^ 16) ++ d
payload push4 d = to_le 4 (length d % 2 ^ 32) ++ d
payload push_int d = d
payload _ d = []

-- `Instruction::encode`: the bytes that it appends
unfoldable pub encode : Instruction → List ℕ
encode i = to_byte i.op ∷ payload i.op i.inline

-- `encode_instructions`
unfoldable pub encode_instructions : List Instruction → List ℕ
encode_instructions [] = []
encode_instructions (i ∷ is) = encode i ++ encode_instructions is

pub encode_instructions-append :
    (xs ys : List Instruction)
    → encode_instructions (xs ++ ys) ≡ encode_instructions xs ++ encode_instructions ys
unfolding encode_instructions
encode_instructions-append [] ys = refl
encode_instructions-append (x ∷ xs) ys =
    rw (encode_instructions-append xs ys) (sym (append_assoc (encode x) _ _))
