-- ===== src/Defi/Amm.antt =====
-- crates/qv-defi/src/amm.rs: pools, swaps and liquidity. A token id is its 32 bytes. What is cast to
-- `u64` has passed a test against `u64::MAX` or is at most a `u64`, so the casts change nothing.
pub mod Sqrt
pub mod Swap
pub mod Liquidity
pub mod Datum
use l1_chain.Base.{
  ℕ, zero, suc, ◌+◌, ◌-◌, ◌*◌, ◌/◌, ◌^◌, List, [], ◌∷◌, ◌++◌, Bool, true, false, ◌||◌, ltb, leb,
  ◌==◌, not, if◌then◌else◌, Option, none, some, length, take, drop, min, replicate, ◌%◌,
}
use l1_chain.Base.Bytes.{to_le, from_le}
use l1_chain.Base.Outcome.{Outcome, ok, err, diverge, ◌>>=◌}
use l1_chain.Base.Word.{max_u64}

-- `AmmError`; a pool id is always `Hash256::ZERO`, and a message is left out.
pub data AmmError : Type 0 where
  insufficient_liquidity : AmmError
  datum_error : AmmError
  lp_token_mismatch : ℕ → ℕ → AmmError
  overflow : AmmError
  invalid_fee : ℕ → AmmError

pub record PoolDatum : Type 0 where
  pub token_a_id : List ℕ
  pub token_b_id : List ℕ
  pub reserve_a : ℕ
  pub reserve_b : ℕ
  pub lp_total : ℕ
  pub fee_bps : ℕ

-- `PoolDatum::validate`
unfoldable pub validate_pool : PoolDatum → Outcome {0, 0} AmmError Unit
validate_pool d = if ltb 10000 d.fee_bps then err (invalid_fee d.fee_bps) else ok tt

-- `PoolDatum::invariant`, a saturating product of 128 bits
unfoldable pub pool_invariant : PoolDatum → ℕ
pool_invariant d = min (d.reserve_a * d.reserve_b) (2 ^ 128 - 1)

abbrev pub pool_datum_len : ℕ
pool_datum_len = 90

-- `PoolDatum::to_canonical_bytes`
unfoldable pub pool_to_bytes : PoolDatum → List ℕ
pool_to_bytes d =
    d.token_a_id
    ++ (d.token_b_id
        ++ (to_le 8 d.reserve_a
            ++ (to_le 8 d.reserve_b ++ (to_le 8 d.lp_total ++ to_le 2 d.fee_bps))))

-- `bytes.get(offset..offset + n)` into an array of `n` bytes
unfoldable pub read_field : List ℕ → ℕ → ℕ → Outcome {0, 0} AmmError (List ℕ)
read_field bytes offset n =
    if leb (offset + n) (length bytes) then ok (take n (drop offset bytes)) else err datum_error

-- `PoolDatum::from_canonical_bytes`
unfoldable pub pool_from_bytes : List ℕ → Outcome {0, 0} AmmError PoolDatum
unfolding read_field
pool_from_bytes bytes =
    if not (length bytes == pool_datum_len)
    then err datum_error
    else (read_field bytes 0 32 >>= λ a. read_field bytes 32 32 >>= λ b.
        read_field bytes 64 8 >>= λ ra. read_field bytes 72 8 >>= λ rb.
        read_field bytes 80 8 >>= λ lp. read_field bytes 88 2 >>= λ fee. ok (record {
          token_a_id = a;
          token_b_id = b;
          reserve_a = from_le ra;
          reserve_b = from_le rb;
          lp_total = from_le lp;
          fee_bps = from_le fee;
        }))

pub data SwapDirection : Type 0 where
  a_to_b : SwapDirection
  b_to_a : SwapDirection

-- `checked_add`, `checked_sub` of `u64` and `checked_mul`, `checked_div` of `u128`, each with
-- `.ok_or(AmmError::Overflow)?`
unfoldable pub add_u64 : ℕ → ℕ → Outcome {0, 0} AmmError ℕ
add_u64 a b = if leb (a + b) max_u64 then ok (a + b) else err overflow

unfoldable pub sub_u64 : ℕ → ℕ → Outcome {0, 0} AmmError ℕ
sub_u64 a b = if leb b a then ok (a - b) else err overflow

unfoldable pub mul_u128 : ℕ → ℕ → Outcome {0, 0} AmmError ℕ
mul_u128 a b = if ltb (a * b) (2 ^ 128) then ok (a * b) else err overflow

unfoldable pub div_u128 : ℕ → ℕ → Outcome {0, 0} AmmError ℕ
div_u128 a b = if b == 0 then err overflow else ok (a / b)

-- The two updates of `apply_swap`; where the second fails, the first has been made.
unfoldable pub swap_reserves :
    PoolDatum
    → (PoolDatum → ℕ → PoolDatum)
    → Outcome {0, 0} AmmError ℕ
    → Outcome {0, 0} AmmError ℕ
    → (PoolDatum → ℕ → PoolDatum)
    → PoolDatum × Outcome {0, 0} AmmError Unit
swap_reserves d set_in (ok r) (ok r') set_out = (set_out (set_in d r) r', ok tt)
swap_reserves d set_in (ok r) _ set_out = (set_in d r, err overflow)
swap_reserves d set_in _ _ set_out = (d, err overflow)

abbrev pub set_a : PoolDatum → ℕ → PoolDatum
set_a d r = record d { reserve_a = r }

abbrev pub set_b : PoolDatum → ℕ → PoolDatum
set_b d r = record d { reserve_b = r }

-- `PoolState::apply_swap`, with the datum that it leaves behind
unfoldable pub apply_swap :
    PoolDatum → SwapDirection → ℕ → ℕ → PoolDatum × Outcome {0, 0} AmmError Unit
unfolding add_u64 sub_u64 swap_reserves
apply_swap d a_to_b amount_in amount_out =
    swap_reserves d set_a (add_u64 d.reserve_a amount_in) (sub_u64 d.reserve_b amount_out) set_b
apply_swap d b_to_a amount_in amount_out =
    swap_reserves d set_b (add_u64 d.reserve_b amount_in) (sub_u64 d.reserve_a amount_out) set_a

-- `compute_swap_output`, from the net amount and the fee on
unfoldable pub output_of : ℕ → ℕ → ℕ → ℕ → Option (ℕ × ℕ)
output_of reserve_in reserve_out net fee =
    if not (ltb (reserve_out * net) (2 ^ 128)) || not (ltb (reserve_in + net) (2 ^ 128))
    then none
    else if reserve_in + net == 0
    then none
    else if ltb max_u64 (reserve_out * net / (reserve_in + net))
    then none
    else some (reserve_out * net / (reserve_in + net), fee)

-- `compute_swap_output`
unfoldable pub compute_swap_output : ℕ → ℕ → ℕ → ℕ → Option (ℕ × ℕ)
unfolding output_of
compute_swap_output reserve_in reserve_out amount_in fee_bps =
    if (reserve_in == 0) || ((reserve_out == 0) || (amount_in == 0))
    then none
    else if not (ltb (amount_in * fee_bps) (2 ^ 128))
    then none
    else (let fee = amount_in * fee_bps / 10000 in
        if ltb amount_in fee then none else output_of reserve_in reserve_out (amount_in - fee) fee)

-- The loop of `sqrt_u128`, on fuel
unfoldable pub sqrt_loop : ℕ → ℕ → ℕ → ℕ → Outcome {0, 0} AmmError ℕ
sqrt_loop zero n x y = diverge
sqrt_loop (suc fuel) n x y =
    let rest = sqrt_loop fuel n y ((y + n / y) / 2) in if ltb y x then rest else ok x

-- `sqrt_u128`
unfoldable pub sqrt_u128 : ℕ → Outcome {0, 0} AmmError ℕ
unfolding sqrt_loop
sqrt_u128 n = if n == 0 then ok 0 else sqrt_loop (suc n) n n ((n + 1) / 2)

-- `Hash256::ZERO`
abbrev pub zero_id : List ℕ
zero_id = replicate 32 0

-- The datum that the liquidity operations return, with the reserves and the total
unfoldable pub dummy_datum : ℕ → ℕ → ℕ → PoolDatum
dummy_datum a b lp = record {
  token_a_id = zero_id;
  token_b_id = zero_id;
  reserve_a = a;
  reserve_b = b;
  lp_total = lp;
  fee_bps = 30;
}

-- `lp_issued` of `compute_add_liquidity`; the first branch casts `as u64`, which cuts to 64 bits.
unfoldable pub lp_issued : ℕ → ℕ → ℕ → ℕ → ℕ → Outcome {0, 0} AmmError ℕ
unfolding mul_u128 div_u128 sqrt_u128
lp_issued reserve_a reserve_b total amount_a amount_b =
    if total == 0
    then (mul_u128 amount_a amount_b >>= λ product. sqrt_u128 product >>= λ r. ok (r % 2 ^ 64))
    else (mul_u128 total amount_a >>= λ na. div_u128 na reserve_a >>= λ share_a.
        mul_u128 total amount_b >>= λ nb. div_u128 nb reserve_b >>= λ share_b.
        if ltb max_u64 (min share_a share_b) then err overflow else ok (min share_a share_b))

-- `compute_add_liquidity`
unfoldable pub compute_add_liquidity : ℕ → ℕ → ℕ → ℕ → ℕ → Outcome {0, 0} AmmError (ℕ × PoolDatum)
unfolding lp_issued add_u64 dummy_datum
compute_add_liquidity reserve_a reserve_b total amount_a amount_b =
    if (amount_a == 0) || (amount_b == 0)
    then err insufficient_liquidity
    else (lp_issued reserve_a reserve_b total amount_a amount_b >>= λ lp.
        add_u64 reserve_a amount_a >>= λ a.
        add_u64 reserve_b amount_b >>= λ b. add_u64 total lp >>= λ l. ok (lp, dummy_datum a b l))

-- `compute_remove_liquidity`
unfoldable pub compute_remove_liquidity :
    ℕ → ℕ → ℕ → ℕ → Outcome {0, 0} AmmError (ℕ × ℕ × PoolDatum)
unfolding mul_u128 div_u128 sub_u64 dummy_datum
compute_remove_liquidity reserve_a reserve_b total burned =
    if (total == 0) || (burned == 0)
    then err insufficient_liquidity
    else if ltb total burned
    then err (lp_token_mismatch total burned)
    else (mul_u128 reserve_a burned >>= λ na. div_u128 na total >>= λ amount_a.
        mul_u128 reserve_b burned >>= λ nb. div_u128 nb total >>= λ amount_b.
        if ltb max_u64 amount_a || ltb max_u64 amount_b
        then err overflow
        else (sub_u64 reserve_a amount_a >>= λ a. sub_u64 reserve_b amount_b >>= λ b.
            sub_u64 total burned >>= λ l. ok (amount_a, amount_b, dummy_datum a b l)))
