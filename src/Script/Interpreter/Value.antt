-- ===== src/Script/Interpreter/Value.antt =====
-- The values of the machine (`Value` of crates/qv-script/src/opcode.rs) and the errors of
-- crates/qv-script/src/interpreter.rs.
use l1_chain.Base.{ℕ, Bool, false, not, String, List, ◌==◌, if◌then◌else◌, length}
use l1_chain.Base.Bytes.{bytes_eq, to_le}
use l1_chain.Base.Outcome.{Outcome, ok, err, panic, diverge}
use l1_chain.Script.Opcode.{OpcodeError}

-- `Value`; an `int` is the bit pattern of an `i64`.
pub data Value : Type 0 where
  int : ℕ → Value
  bytes : List ℕ → Value

-- `ScriptError`
pub data ScriptError : Type 0 where
  out_of_gas stack_underflow type_error division_by_zero verify_failed returned : ScriptError
  slice_out_of_bounds : ScriptError
  stack_overflow : ℕ → ScriptError
  index_out_of_range : ℕ → ℕ → ScriptError
  covenant_failed malformed_crypto unbalanced_conditional : String → ScriptError
  opcode : OpcodeError → ScriptError

-- The results of the machine's operations.
abbrev pub Script {ℓ} : Type ℓ → Type ℓ
Script A = Outcome ScriptError A

-- `Value::is_truthy`
unfoldable pub is_truthy : Value → Bool
is_truthy (int n) = not (n == 0)
is_truthy (bytes b) = not (length b == 0)

-- `Value::to_canonical_bytes`
unfoldable pub to_canonical_bytes : Value → List ℕ
to_canonical_bytes (int n) = to_le 8 n
to_canonical_bytes (bytes b) = b

-- `From<bool> for Value`
abbrev pub from_bool : Bool → Value
from_bool b = int (if b then 1 else 0)

-- `==` on values
unfoldable pub value_eq : Value → Value → Bool
value_eq (int a) (int b) = a == b
value_eq (int a) (bytes b) = false
value_eq (bytes a) (int b) = false
value_eq (bytes a) (bytes b) = bytes_eq a b

-- `?` on the decoder's result: `#[from] OpcodeError`
abbrev pub from_decoder {ℓ} : {A : Type ℓ} → Outcome OpcodeError A → Script A
from_decoder (ok a) = ok a
from_decoder (err e) = err (opcode e)
from_decoder panic = panic
from_decoder diverge = diverge
