-- ===== src/Script/Interpreter/Introspect.antt =====
-- The introspection and covenant opcodes of crates/qv-script/src/interpreter.rs.
use mathlib.Core.Option.{get_or}
use l1_chain.Base.{
  ℕ, Bool, false, String, List, [], none, some, length, get_elem?, leb, ◌==◌, if◌then◌else◌,
}
use l1_chain.Base.Bytes.{bytes_eq}
use l1_chain.Base.Outcome.{ok, err, panic, ◌>>=◌}
use l1_chain.Crypto.{Crypto, sha3_256}
use l1_chain.Core.Tx.{TxOutput}
use l1_chain.Script.Interpreter.Value.{
  Value, int, bytes, Script, index_out_of_range, covenant_failed,
}
use l1_chain.Script.Interpreter.Stack.{Stack, push, pop_int, pop_bytes}

-- `if i >= count { return Err(IndexOutOfRange) }`, then `outputs[i]`, which panics out of range
unfoldable pub output_at : List TxOutput → ℕ → Script TxOutput
output_at outputs i =
    if leb (length outputs) i
    then err (index_out_of_range i (length outputs))
    else elim (get_elem? outputs i) [ none ↦ panic | some o ↦ ok o ]

-- `ReadInputValue`, `ReadOutputValue`, `ReadOutputScript`, `ReadOutputDatum` and `ReadInputDatum`:
-- an index, and what is read of the output there
unfoldable pub read_op : (TxOutput → Value) → List TxOutput → Stack → Script Stack
unfolding pop_int push
read_op f outputs st = pop_int st >>= λ (i, st). output_at outputs i >>= λ o. push st (f o)

abbrev pub value_of : TxOutput → Value
value_of o = int o.value

abbrev pub script_of : TxOutput → Value
script_of o = bytes o.locking_script

-- No datum reads as no bytes.
abbrev pub datum_of : TxOutput → Value
datum_of o = bytes (get_or o.datum [])

-- The three covenant assertions: a hash or a value, an index, and the test on the output
unfoldable pub script_hash_matches : Crypto → List ℕ → TxOutput → Bool
script_hash_matches c hash o = bytes_eq (sha3_256 c o.locking_script) hash

unfoldable pub datum_hash_matches : Crypto → List ℕ → TxOutput → Bool
datum_hash_matches c hash o = elim o.datum [ none ↦ false | some d ↦ bytes_eq (sha3_256 c d) hash ]

abbrev pub require : Bool → String → Stack → Script Stack
require holds what st = if holds then ok st else err (covenant_failed what)

unfoldable pub assert_hash_op :
    (List ℕ → TxOutput → Bool) → String → List TxOutput → Stack → Script Stack
unfolding pop_bytes pop_int
assert_hash_op test what outputs st = pop_bytes st >>= λ (hash, st).
    pop_int st >>= λ (i, st). output_at outputs i >>= λ o. require (test hash o) what st

unfoldable pub assert_value_op : List TxOutput → Stack → Script Stack
unfolding pop_int
assert_value_op outputs st = pop_int st >>= λ (expected, st). pop_int st >>= λ (i, st).
    output_at outputs i >>= λ o. require (o.value == expected) "output value mismatch" st
