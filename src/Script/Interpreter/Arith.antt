-- ===== src/Script/Interpreter/Arith.antt =====
-- The arithmetic, comparison and logic opcodes of crates/qv-script/src/interpreter.rs, as far as
-- they are not a call of `bin_int_op` or `cmp_int_op`.
use l1_chain.Base.{ℕ, ◌*◌, Bool, not, ◌&&◌, ◌||◌, length, leb, ◌==◌, if◌then◌else◌}
use l1_chain.Base.Bytes.{to_le, from_le}
use l1_chain.Base.Outcome.{ok, err, ◌>>=◌}
use l1_chain.Script.Interpreter.Value.{
  Value, int, bytes, Script, from_bool, is_truthy, value_eq, type_error, division_by_zero,
  verify_failed,
}
use l1_chain.Script.Interpreter.Stack.{Stack, push, pop, pop_int, pop_bytes}

-- `Div` and `Mod`, by the operation
unfoldable pub div_op : (ℕ → ℕ → ℕ) → Stack → Script Stack
unfolding pop_int push
div_op f st = pop_int st >>= λ (b, st).
    pop_int st >>= λ (a, st). if b == 0 then err division_by_zero else push st (int (f a b))

-- `Neg` and `Abs`
unfoldable pub unary_op : (ℕ → ℕ) → Stack → Script Stack
unfolding pop_int push
unary_op f st = pop_int st >>= λ (a, st). push st (int (f a))

-- `MulU128`: the product of two `u64` fits into 128 bits, so the multiplication does not wrap.
unfoldable pub mul_u128_op : Stack → Script Stack
unfolding pop_int push
mul_u128_op st =
    pop_int st >>= λ (b, st). pop_int st >>= λ (a, st). push st (bytes (to_le 16 (a * b)))

unfoldable pub ge_u128_op : Stack → Script Stack
unfolding pop_bytes push
ge_u128_op st = pop_bytes st >>= λ (b, st). pop_bytes st >>= λ (a, st).
    if not (length a == 16) || not (length b == 16)
    then err type_error
    else push st (from_bool (leb (from_le b) (from_le a)))

-- `Eq`, `Neq`, `And` and `Or`: two values, and a truth value from them
unfoldable pub value_op : (Value → Value → Bool) → Stack → Script Stack
unfolding pop push
value_op f st = pop st >>= λ (b, st). pop st >>= λ (a, st). push st (from_bool (f a b))

unfoldable pub values_differ : Value → Value → Bool
unfolding value_eq
values_differ a b = not (value_eq a b)

unfoldable pub both_truthy : Value → Value → Bool
unfolding is_truthy
both_truthy a b = is_truthy a && is_truthy b

unfoldable pub either_truthy : Value → Value → Bool
unfolding is_truthy
either_truthy a b = is_truthy a || is_truthy b

unfoldable pub not_op : Stack → Script Stack
unfolding pop push is_truthy
not_op st = pop st >>= λ (a, st). push st (from_bool (not (is_truthy a)))

unfoldable pub verify_op : Stack → Script Stack
unfolding pop is_truthy
verify_op st = pop st >>= λ (a, st). if is_truthy a then ok st else err verify_failed
