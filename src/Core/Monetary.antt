-- ===== src/Core/Monetary.antt =====
-- crates/qv-core/src/params.rs, `MonetaryParams`; an `Amount` is the number it wraps.
use l1_chain.Base.{ℕ, ◌*◌, ltb, ◌==◌, if◌then◌else◌, String}
use l1_chain.Base.Outcome.{Outcome, ok, err}

-- `ParamsError`
pub data ParamsError : Type 0 where
  parse invalid : String → ParamsError

pub record MonetaryParams : Type 0 where
  pub total_supply : ℕ
  pub initial_block_reward : ℕ
  pub halving_interval_blocks : ℕ
  pub min_fee_per_byte : ℕ

-- `MonetaryParams::mainnet`
abbrev pub mainnet : MonetaryParams
mainnet = record {
  total_supply = 21000000 * 100000000;
  initial_block_reward = 50 * 100000000;
  halving_interval_blocks = 210000;
  min_fee_per_byte = 1;
}

-- `MonetaryParams::validate`
unfoldable pub validate : MonetaryParams → Outcome {0, 0} ParamsError Unit
validate p =
    if p.total_supply == 0
    then err (invalid "total_supply must be > 0")
    else if ltb p.total_supply p.initial_block_reward
    then err (invalid "initial_block_reward must not exceed total_supply")
    else if p.halving_interval_blocks == 0
    then err (invalid "halving_interval_blocks must be > 0")
    else ok tt
