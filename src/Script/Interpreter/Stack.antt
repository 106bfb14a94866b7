-- ===== src/Script/Interpreter/Stack.antt =====
-- The stack of crates/qv-script/src/interpreter.rs, its helpers and the opcodes that only move
-- values. The list's head is the top, the last element of the `Vec`: `stack[len - 1 - n]` is
-- element `n`.
use l1_chain.Base.{
  ℕ, zero, suc, Bool, List, [], ◌∷◌, none, some, length, get_elem?, leb, ltb, if◌then◌else◌, take,
}
use l1_chain.Base.Bytes.{to_le, from_le}
use l1_chain.Base.Outcome.{ok, err, panic, ◌>>=◌}
use l1_chain.Script.Opcode.{max_stack_depth}
use l1_chain.Script.Interpreter.Value.{
  Value, int, bytes, Script, from_bool, stack_underflow, stack_overflow, type_error,
}

abbrev pub Stack : Type 0
Stack = List Value

unfoldable pub push : Stack → Value → Script Stack
push st v =
    if leb max_stack_depth (length st) then err (stack_overflow max_stack_depth) else ok (v ∷ st)

unfoldable pub pop : Stack → Script (Value × Stack)
pop [] = err stack_underflow
pop (v ∷ st) = ok (v, st)

unfoldable pub peek : Stack → Script Value
peek [] = err stack_underflow
peek (v ∷ st) = ok v

abbrev pub expect_int : Value × Stack → Script (ℕ × Stack)
expect_int (int n, st) = ok (n, st)
expect_int (bytes b, st) = err type_error

abbrev pub as_bytes : Value × Stack → List ℕ × Stack
as_bytes (int n, st) = (to_le 8 n, st)
as_bytes (bytes b, st) = (b, st)

unfoldable pub pop_int : Stack → Script (ℕ × Stack)
unfolding pop
pop_int st = pop st >>= λ top. expect_int top

-- An integer is read as its eight bytes.
unfoldable pub pop_bytes : Stack → Script (List ℕ × Stack)
unfolding pop
pop_bytes st = pop st >>= λ top. ok (as_bytes top)

unfoldable pub bin_int_op : (ℕ → ℕ → ℕ) → Stack → Script Stack
unfolding pop_int push
bin_int_op f st = pop_int st >>= λ (b, st). pop_int st >>= λ (a, st). push st (int (f a b))

unfoldable pub cmp_int_op : (ℕ → ℕ → Bool) → Stack → Script Stack
unfolding pop_int push
cmp_int_op f st = pop_int st >>= λ (b, st). pop_int st >>= λ (a, st). push st (from_bool (f a b))

-- `stack[i]` counted from the top, and `stack.remove`: both panic outside the stack.
unfoldable pub index : Stack → ℕ → Script Value
index st n = elim (get_elem? st n) [ none ↦ panic | some v ↦ ok v ]

unfoldable pub remove : Stack → ℕ → Script (Value × Stack)
remove [] n = panic
remove (v ∷ st) zero = ok (v, st)
remove (v ∷ st) (suc n) = remove st n >>= λ (w, rest). ok (w, v ∷ rest)

-- `if n >= len { return Err(StackUnderflow) }`
abbrev pub in_stack : {A : Type 0} → ℕ → Stack → Script A → Script A
in_stack n st m = if leb (length st) n then err stack_underflow else m

unfoldable pub dup_op : Stack → Script Stack
unfolding peek push
dup_op st = peek st >>= λ a. push st a

unfoldable pub swap_op : Stack → Script Stack
unfolding pop push
swap_op st = pop st >>= λ (b, st). pop st >>= λ (a, st). push st b >>= λ st. push st a

unfoldable pub drop_op : Stack → Script Stack
unfolding pop
drop_op st = pop st >>= λ (a, st). ok st

unfoldable pub pick_op : Stack → Script Stack
unfolding pop_int index push
pick_op st = pop_int st >>= λ (n, st). in_stack n st (index st n >>= λ v. push st v)

unfoldable pub roll_op : Stack → Script Stack
unfolding pop_int remove push
roll_op st = pop_int st >>= λ (n, st). in_stack n st (remove st n >>= λ (v, st). push st v)

unfoldable pub over_op : Stack → Script Stack
unfolding index push
over_op st = if ltb (length st) 2 then err stack_underflow else (index st 1 >>= λ v. push st v)

unfoldable pub rot_op : Stack → Script Stack
unfolding remove push
rot_op st =
    if ltb (length st) 3 then err stack_underflow else (remove st 2 >>= λ (v, st). push st v)

unfoldable pub dup2_op : Stack → Script Stack
unfolding index push
dup2_op st =
    if ltb (length st) 2
    then err stack_underflow
    else (index st 1 >>= λ a. index st 0 >>= λ b. push st a >>= λ st. push st b)

-- `PushInt`: `instr.data[..8]` panics on fewer than eight bytes.
unfoldable pub push_int_op : List ℕ → Stack → Script Stack
unfolding push
push_int_op d st = if ltb (length d) 8 then panic else push st (int (from_le (take 8 d)))
