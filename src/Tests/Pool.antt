-- ===== src/Tests/Pool.antt =====
-- Runs of the pool's swaps, liquidity and encoding.
use l1_chain.Base.{ℕ, List, ◌≡◌, ◌≤◌, ◌<◌, ◌+◌, ◌*◌, refl, arith, some, length, replicate, ◌⊎◌}
use l1_chain.Base.Outcome.{ok, err}
use l1_chain.Base.Bytes.{IsBytes}
use l1_chain.Base.Word.{max_u64}
use l1_chain.Defi.Amm.{
  PoolDatum, a_to_b, overflow, compute_swap_output, apply_swap, pool_invariant,
  compute_add_liquidity, compute_remove_liquidity, pool_to_bytes, pool_from_bytes, sqrt_u128,
}
use l1_chain.Defi.Amm.Swap.{apply_swap-pool_invariant, IsPool, reserve_in, reserve_out}
use l1_chain.Defi.Amm.Liquidity.{compute_add_liquidity-share, compute_remove_liquidity-share}
use l1_chain.Defi.Amm.Datum.{
  FitsDatum, pool_from_bytes-pool_to_bytes, pool_to_bytes-pool_from_bytes,
}

abbrev pool : PoolDatum
pool = record {
  token_a_id = replicate 32 1;
  token_b_id = replicate 32 2;
  reserve_a = 10000;
  reserve_b = 20000;
  lp_total = 500;
  fee_bps = 30;
}

pool-IsPool : IsPool pool
pool-IsPool = record {
  a_pos = omega arith;
  b_pos = omega arith;
  a_fits = omega arith;
  b_fits = omega arith;
  fee_fits = omega arith;
}

root : sqrt_u128 99 ≡ ok 9
unfolding sqrt_u128
root = refl

quote : compute_swap_output 10000 20000 1000 30 ≡ some (1813, 3)
unfolding compute_swap_output
quote = refl

apply_swap-pool_invariant_example :
    ((reserve_in pool a_to_b + 1000 ≤ max_u64)
      × ((apply_swap pool a_to_b 1000 1813).1 ≡ ok tt)
      × (reserve_in (apply_swap pool a_to_b 1000 1813).0 a_to_b ≡ reserve_in pool a_to_b + 1000)
      × (reserve_out (apply_swap pool a_to_b 1000 1813).0 a_to_b + 1813 ≡ reserve_out pool a_to_b)
      × IsPool (apply_swap pool a_to_b 1000 1813).0
      × (pool_invariant pool ≤ pool_invariant (apply_swap pool a_to_b 1000 1813).0))
    ⊎ ((max_u64 < reserve_in pool a_to_b + 1000)
        × (apply_swap pool a_to_b 1000 1813 ≡ (pool, err overflow)))
apply_swap-pool_invariant_example =
    apply_swap-pool_invariant pool a_to_b 1000 1813 3 pool-IsPool (omega arith) (omega arith) quote

compute_add_liquidity-share_example :
    (lp : ℕ) × (d : PoolDatum) × (compute_add_liquidity 10000 20000 500 100 300 ≡ ok (lp, d))
    × (lp * 10000 ≤ 500 * 100)
    × (lp * 20000 ≤ 500 * 300)
    × ((500 * 100 < lp * 10000 + 10000) ⊎ (500 * 300 < lp * 20000 + 20000))
    × (d.reserve_a ≡ 10000 + 100)
    × (d.reserve_b ≡ 20000 + 300)
    × (d.lp_total ≡ 500 + lp)
compute_add_liquidity-share_example =
    compute_add_liquidity-share 10000 20000 500 100 300 (omega arith) (omega arith) (omega arith)
      (omega arith) (omega arith) (omega arith) (omega arith) (omega arith)

compute_remove_liquidity-share_example :
    (a : ℕ) × (b : ℕ) × (d : PoolDatum) × (compute_remove_liquidity 10000 20000 500 7
      ≡ ok (a, b, d))
    × (a * 500 ≤ 10000 * 7)
    × (10000 * 7 < a * 500 + 500)
    × (b * 500 ≤ 20000 * 7)
    × (20000 * 7 < b * 500 + 500)
    × (d.reserve_a + a ≡ 10000)
    × (d.reserve_b + b ≡ 20000)
    × (d.lp_total + 7 ≡ 500)
compute_remove_liquidity-share_example =
    compute_remove_liquidity-share 10000 20000 500 7 (omega arith) (omega arith) (omega arith)
      (omega arith) (omega arith)

pool-FitsDatum : FitsDatum pool
pool-FitsDatum = record {
  a_len = refl;
  b_len = refl;
  ra_fits = omega arith;
  rb_fits = omega arith;
  lp_fits = omega arith;
  fee_fits = omega arith;
}

pool_from_bytes-pool_to_bytes_example :
    (pool_from_bytes (pool_to_bytes pool) ≡ ok pool) × (length (pool_to_bytes pool) ≡ 90)
pool_from_bytes-pool_to_bytes_example = pool_from_bytes-pool_to_bytes pool pool-FitsDatum

abbrev raw : List ℕ
raw = replicate 90 3

abbrev raw_datum : PoolDatum
raw_datum = record {
  token_a_id = replicate 32 3;
  token_b_id = replicate 32 3;
  reserve_a = 0x0303030303030303;
  reserve_b = 0x0303030303030303;
  lp_total = 0x0303030303030303;
  fee_bps = 0x0303;
}

raw-IsBytes : IsBytes raw
raw-IsBytes = omega arith

raw_read : pool_from_bytes raw ≡ ok raw_datum
unfolding pool_from_bytes
raw_read = refl

pool_to_bytes-pool_from_bytes_example : (length raw ≡ 90) × (pool_to_bytes raw_datum ≡ raw)
pool_to_bytes-pool_from_bytes_example =
    pool_to_bytes-pool_from_bytes raw raw_datum raw-IsBytes raw_read
