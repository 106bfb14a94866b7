-- ===== src/Script/Interpreter/Bytestrings.antt =====
-- The data opcodes of crates/qv-script/src/interpreter.rs.
use l1_chain.Base.{
  ℕ, ◌+◌, ◌^◌, ◌-◌, ◌%◌, ◌&&◌, not, List, ◌++◌, length, take, drop, leb, ltb, ◌==◌, if◌then◌else◌,
}
use l1_chain.Base.Bytes.{from_le}
use l1_chain.Base.Word.{word, saturating_add}
use l1_chain.Base.Outcome.{ok, err, panic, ◌>>=◌}
use l1_chain.Script.Interpreter.Value.{Value, int, bytes, Script, type_error, slice_out_of_bounds}
use l1_chain.Script.Interpreter.Stack.{Stack, push, pop, pop_int, pop_bytes}

-- `extend_from_slice` panics where the bytes would be more than `isize::MAX`.
unfoldable pub extended : List ℕ → List ℕ → Script (List ℕ)
extended a b = if ltb (2 ^ 63 - 1) (length a + length b) then panic else ok (a ++ b)

unfoldable pub cat_op : Stack → Script Stack
unfolding pop_bytes extended push
cat_op st = pop_bytes st >>= λ (b, st).
    pop_bytes st >>= λ (a, st). extended a b >>= λ out. push st (bytes out)

-- `&data[start..end]`, with `end` at most the length; it panics if `start` is past `end`.
abbrev pub slice_of : List ℕ → ℕ → ℕ → Script (List ℕ)
slice_of d start end = if ltb end start then panic else ok (take (end - start) (drop start d))

unfoldable pub slice_op : Stack → Script Stack
unfolding pop_int pop_bytes push
slice_op st = pop_int st >>= λ (count, st). pop_int st >>= λ (start, st).
    pop_bytes st >>= λ (d, st).
    let end = saturating_add start count in
    if ltb (length d) end
    then err slice_out_of_bounds
    else (slice_of d start end >>= λ part. push st (bytes part))

abbrev pub value_len : Value → ℕ
value_len (int n) = 8
value_len (bytes b) = length b % word

unfoldable pub len_op : Stack → Script Stack
unfolding pop push
len_op st = pop st >>= λ (a, st). push st (int (value_len a))

-- The range `1..=8` holds no negative number, so it is read on the pattern; bytes above `n` are 0.
unfoldable pub bytes_to_int_op : Stack → Script Stack
unfolding pop_int pop_bytes push
bytes_to_int_op st = pop_int st >>= λ (n, st). pop_bytes st >>= λ (d, st).
    if not (leb 1 n && leb n 8)
    then err type_error
    else if not (length d == n)
    then err type_error
    else push st (int (from_le d))
