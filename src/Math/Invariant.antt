-- ===== src/Math/Invariant.antt =====
-- program/src/math.rs: `InvariantToken` and `InvariantPool`, the proportional exchange between the two
-- tokens of the pool and between a token and the shares of the pool.
pub mod Laws
use raydium_amm_mod.Base.{ℕ, Option, some}
use raydium_amm_mod.Error.{Result, ok, ◌>>=◌, unwrap}
use raydium_amm_mod.Checked.{mul, div, cast}
use raydium_amm_mod.Math.Ceil.{checked_ceil_div}

pub data RoundDirection : Type 0 where
  floor : RoundDirection
  ceiling : RoundDirection

pub record InvariantToken : Type 0 where
  pub token_coin : ℕ
  pub token_pc : ℕ

pub record InvariantPool : Type 0 where
  pub token_input : ℕ
  pub token_total : ℕ

-- The body that the four exchanges share: `value * factor / divisor` in `U128`, as `u64`.
unfoldable pub exchange : ℕ → ℕ → ℕ → RoundDirection → Result (Option ℕ)
exchange value factor divisor RoundDirection.floor = do
  product ← mul 128 value factor
  quotient ← div product divisor
  narrowed ← cast 64 quotient
  ok (some narrowed)
exchange value factor divisor RoundDirection.ceiling = do
  product ← mul 128 value factor
  (quotient, _) ← unwrap (checked_ceil_div product divisor)
  narrowed ← cast 64 quotient
  ok (some narrowed)

unfoldable pub exchange_coin_to_pc : InvariantToken → ℕ → RoundDirection → Result (Option ℕ)
exchange_coin_to_pc self token_coin round_direction =
    exchange token_coin self.token_pc self.token_coin round_direction

unfoldable pub exchange_pc_to_coin : InvariantToken → ℕ → RoundDirection → Result (Option ℕ)
exchange_pc_to_coin self token_pc round_direction =
    exchange token_pc self.token_coin self.token_pc round_direction

unfoldable pub exchange_pool_to_token : InvariantPool → ℕ → RoundDirection → Result (Option ℕ)
exchange_pool_to_token self token_total_amount round_direction =
    exchange token_total_amount self.token_input self.token_total round_direction

unfoldable pub exchange_token_to_pool : InvariantPool → ℕ → RoundDirection → Result (Option ℕ)
exchange_token_to_pool self pool_total_amount round_direction =
    exchange pool_total_amount self.token_input self.token_total round_direction
