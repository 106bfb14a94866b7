-- ===== src/Base/Word.antt =====
-- Rust's 64-bit integers. An `i64` is its bit pattern, a number below 2 ^ 64, so `as u64`,
-- `as i64` and `as usize` change nothing, and a negative value is a pattern from 2 ^ 63 on.
use l1_chain.Base.{
  ℕ, ◌+◌, ◌-◌, ◌*◌, ◌/◌, ◌%◌, ◌^◌, ◌≤◌, ◌<◌, Bool, ltb, leb, if◌then◌else◌, arith, min, ◌≡◌,
}
use native.Mathlib.Nat.{mod-le, div-le_self}

-- the number of 64-bit patterns
abbrev pub word : ℕ
word = 2 ^ 64

abbrev pub max_u64 : ℕ
max_u64 = 2 ^ 64 - 1

unfoldable pub wrapping_add : ℕ → ℕ → ℕ
wrapping_add a b = (a + b) % word

unfoldable pub wrapping_sub : ℕ → ℕ → ℕ
wrapping_sub a b = (a + word - b) % word

unfoldable pub wrapping_mul : ℕ → ℕ → ℕ
wrapping_mul a b = (a * b) % word

unfoldable pub wrapping_neg : ℕ → ℕ
wrapping_neg a = (word - a) % word

unfoldable pub is_negative : ℕ → Bool
is_negative a = leb (2 ^ 63) a

-- `unsigned_abs`
unfoldable pub magnitude : ℕ → ℕ
unfolding is_negative
magnitude a = if is_negative a then word - a else a

unfoldable pub wrapping_abs : ℕ → ℕ
unfolding is_negative wrapping_neg
wrapping_abs a = if is_negative a then wrapping_neg a else a

-- Truncated towards zero; `i64::MIN / -1` wraps to `i64::MIN`.
unfoldable pub wrapping_div : ℕ → ℕ → ℕ
wrapping_div a b =
    let q = magnitude a / magnitude b in
    if is_negative a
    then (if is_negative b then q else wrapping_neg q)
    else if is_negative b
    then wrapping_neg q
    else q

-- The remainder has the sign of the dividend.
unfoldable pub wrapping_rem : ℕ → ℕ → ℕ
wrapping_rem a b = let r = magnitude a % magnitude b in if is_negative a then wrapping_neg r else r

-- `<` on `i64`: the patterns with the sign bit flipped are in the order of the values.
unfoldable pub signed_key : ℕ → ℕ
signed_key a = (a + 2 ^ 63) % word

unfoldable pub signed_lt : ℕ → ℕ → Bool
unfolding signed_key
signed_lt a b = ltb (signed_key a) (signed_key b)

unfoldable pub signed_le : ℕ → ℕ → Bool
unfolding signed_key
signed_le a b = leb (signed_key a) (signed_key b)

-- `core::cmp::min` and `core::cmp::max` on `i64`
unfoldable pub signed_min : ℕ → ℕ → ℕ
unfolding signed_le
signed_min a b = if signed_le a b then a else b

unfoldable pub signed_max : ℕ → ℕ → ℕ
unfolding signed_le
signed_max a b = if signed_le a b then b else a

-- Saturating and checked operations on `u64`
unfoldable pub saturating_add : ℕ → ℕ → ℕ
saturating_add a b = min (a + b) max_u64

unfoldable pub saturating_mul : ℕ → ℕ → ℕ
saturating_mul a b = min (a * b) max_u64

-- Every operation returns a 64-bit pattern.
pub wrapping_add-lt : (a b : ℕ) → wrapping_add a b < word
unfolding wrapping_add
wrapping_add-lt a b = omega arith

pub wrapping_sub-lt : (a b : ℕ) → wrapping_sub a b < word
unfolding wrapping_sub
wrapping_sub-lt a b = omega arith

pub wrapping_mul-lt : (a b : ℕ) → wrapping_mul a b < word
unfolding wrapping_mul
wrapping_mul-lt a b = omega arith

pub wrapping_neg-lt : (a : ℕ) → wrapping_neg a < word
unfolding wrapping_neg
wrapping_neg-lt a = omega arith

pub wrapping_abs-lt : (a : ℕ) → a < word → wrapping_abs a < word
unfolding wrapping_abs
wrapping_abs-lt a h = ground (arith, wrapping_neg-lt a)

magnitude-le : (a : ℕ) → a < word → magnitude a ≤ 2 ^ 63
unfolding magnitude
magnitude-le a h = ground arith

pub wrapping_div-lt : (a b : ℕ) → a < word → wrapping_div a b < word
unfolding wrapping_div
wrapping_div-lt a b h = ground (
  arith,
  magnitude-le a h,
  div-le_self (magnitude a) (magnitude b),
  wrapping_neg-lt (magnitude a / magnitude b),
)

pub wrapping_rem-lt : (a b : ℕ) → a < word → wrapping_rem a b < word
unfolding wrapping_rem
wrapping_rem-lt a b h = ground (
  arith,
  magnitude-le a h,
  mod-le (magnitude a) (magnitude b),
  wrapping_neg-lt (magnitude a % magnitude b),
)

pub signed_min-lt : (a b : ℕ) → a < word → b < word → signed_min a b < word
unfolding signed_min
signed_min-lt a b h k = ground arith

pub signed_max-lt : (a b : ℕ) → a < word → b < word → signed_max a b < word
unfolding signed_max
signed_max-lt a b h k = ground arith

pub saturating_add-le : (a b : ℕ) → saturating_add a b ≤ max_u64
unfolding saturating_add
saturating_add-le a b = omega arith

pub saturating_add-eq : (a b : ℕ) → a + b ≤ max_u64 → saturating_add a b ≡ a + b
unfolding saturating_add
saturating_add-eq a b h = omega arith
