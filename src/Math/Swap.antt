-- ===== src/Math/Swap.antt =====
-- program/src/math.rs: `Calculator::swap_token_amount_base_in` and `swap_token_amount_base_out`, the
-- constant-product quotes.
pub mod Laws
pub mod RoundTrip
use raydium_amm_mod.Base.{ℕ}
use raydium_amm_mod.Error.{Result, ok, ◌>>=◌, unwrap}
use raydium_amm_mod.Checked.{add, mul, sub, div}
use raydium_amm_mod.Math.Ceil.{checked_ceil_div}

pub data SwapDirection : Type 0 where
  pc2coin : SwapDirection
  coin2pc : SwapDirection

unfoldable pub swap_token_amount_base_in : ℕ → ℕ → ℕ → SwapDirection → Result ℕ
swap_token_amount_base_in amount_in total_pc total_coin SwapDirection.coin2pc = do
  denominator ← add 128 total_coin amount_in
  product ← mul 128 total_pc amount_in
  div product denominator
swap_token_amount_base_in amount_in total_pc total_coin SwapDirection.pc2coin = do
  denominator ← add 128 total_pc amount_in
  product ← mul 128 total_coin amount_in
  div product denominator

unfoldable pub swap_token_amount_base_out : ℕ → ℕ → ℕ → SwapDirection → Result ℕ
swap_token_amount_base_out amount_out total_pc total_coin SwapDirection.coin2pc = do
  denominator ← sub total_pc amount_out
  product ← mul 128 total_coin amount_out
  (amount_in, _) ← unwrap (checked_ceil_div product denominator)
  ok amount_in
swap_token_amount_base_out amount_out total_pc total_coin SwapDirection.pc2coin = do
  denominator ← sub total_coin amount_out
  product ← mul 128 total_pc amount_out
  (amount_in, _) ← unwrap (checked_ceil_div product denominator)
  ok amount_in
