-- ===== src/Script/Opcode/Codes.antt =====
-- The byte codes of opcode.rs: `from_byte` and `to_byte` are inverse to one another.
use l1_chain.Base.{
  ℕ, if◌then◌else◌, zero, suc, ◌<◌, ◌≡◌, refl, Bool, true, false, ◌==◌, arith, Bool-cases, inl, inr,
}
use l1_chain.Base.Outcome.{Outcome, ok, err, panic, diverge, Returns}
use l1_chain.Script.Opcode.{OpCode, op0, OpcodeError, unknown_opcode, from_byte, to_byte}

-- Every opcode is read back from its byte.
pub from_byte-to_byte : (op : OpCode) → from_byte (to_byte op) ≡ ok op
unfolding from_byte to_byte
from_byte-to_byte op0 = refl
from_byte-to_byte _ = refl

pub to_byte-lt : (op : OpCode) → to_byte op < 256
unfolding to_byte
to_byte-lt op0 = omega arith
to_byte-lt _ = omega arith

-- A test of bytes that is passed by every byte, as a run over all of them shows
module _ (test : ℕ → Bool) where
  passed : ℕ → Bool
  passed zero = true
  passed (suc k) = if test k then passed k else false

  passed-at : (k : ℕ) → passed k ≡ true → (b : ℕ) → b < k → test b ≡ true
  unfolding passed
  passed-at zero run b low = absurd (omega arith)
  passed-at (suc k) run b low = elim (Bool-cases (b == k)) [
    | inl e ↦
        let same : b ≡ k = ground (arith, e) in
        let now : test k ≡ true = ground (arith, run) in rw same now
    | inr e ↦ passed-at k (ground (arith, run)) b (ground (arith, e))
  ]

abbrev agrees : ℕ → Outcome OpcodeError OpCode → Bool
agrees b (ok op) = to_byte op == b
agrees b (err (unknown_opcode c)) = c == b
agrees b _ = false

agrees_table : passed (λ b. agrees b (from_byte b)) 256 ≡ true
unfolding passed from_byte to_byte
agrees_table = refl

agrees-ok :
    (b : ℕ) (r : Outcome OpcodeError OpCode) (op : OpCode)
    → agrees b r ≡ true
    → r ≡ ok op
    → to_byte op ≡ b
agrees-ok b (ok o) op h e = ground (arith, e)
agrees-ok b (err x) op h e = cc
agrees-ok b panic op h e = cc
agrees-ok b diverge op h e = cc

-- An opcode that a byte decodes to is written as that byte: no two bytes are read as one opcode.
pub to_byte-from_byte : (b : ℕ) (op : OpCode) → b < 256 → from_byte b ≡ ok op → to_byte op ≡ b
to_byte-from_byte b op h e =
    agrees-ok b (from_byte b) op (passed-at (λ x. agrees x (from_byte x)) 256 agrees_table b h) e

agrees-Returns : (b : ℕ) (r : Outcome OpcodeError OpCode) → agrees b r ≡ true → Returns r
agrees-Returns b (ok op) h = tt
agrees-Returns b (err e) h = tt
agrees-Returns b panic h = cc
agrees-Returns b diverge h = cc

pub from_byte-Returns : (b : ℕ) → b < 256 → Returns (from_byte b)
from_byte-Returns b h =
    agrees-Returns b (from_byte b) (passed-at (λ x. agrees x (from_byte x)) 256 agrees_table b h)
