-- ===== src/Pool/Swap/Quote.antt =====
-- program/src/processor.rs: the amounts of `process_swap_base_in` and `process_swap_base_out`, from the
-- totals to the checks on the limits of the user.
pub mod Laws
pub mod Success
use raydium_amm_mod.Base.{ℕ, ◌||◌, ltb, ◌==◌}
use raydium_amm_mod.Error.{AmmError, Result, ok, err, ◌>>=◌, ◌>>◌, unwrap, fail_if}
use raydium_amm_mod.Checked.{mul, sub, cast}
use raydium_amm_mod.Math.Ceil.{checked_ceil_div}
use raydium_amm_mod.Math.Swap.{SwapDirection, swap_token_amount_base_in, swap_token_amount_base_out}
use raydium_amm_mod.State.Fees.{Fees}

-- What the user pays in, what is paid out, and the fee that is part of what is paid in.
pub record SwapAmounts : Type 0 where
  pub amount_in : ℕ
  pub amount_out : ℕ
  pub swap_fee : ℕ

-- `swap_fee`, rounded up.
unfoldable pub base_in_fee : Fees → ℕ → Result ℕ
base_in_fee fees amount_in = do
  scaled ← mul 128 amount_in fees.swap_fee_numerator
  (swap_fee, _) ← unwrap (checked_ceil_div scaled fees.swap_fee_denominator)
  ok swap_fee

unfoldable pub quote_base_in : Fees → ℕ → ℕ → ℕ → ℕ → ℕ → SwapDirection → Result SwapAmounts
unfolding base_in_fee
quote_base_in fees user_amount amount_in minimum_amount_out total_pc total_coin swap_direction = do
  fail_if (ltb user_amount amount_in) AmmError.insufficient_funds
  swap_fee ← base_in_fee fees amount_in
  swap_in_after_deduct_fee ← sub amount_in swap_fee
  out ← swap_token_amount_base_in swap_in_after_deduct_fee total_pc total_coin swap_direction
  swap_amount_out ← cast 64 out
  fail_if (ltb swap_amount_out minimum_amount_out) AmmError.exceeded_slippage
  fail_if (swap_amount_out == 0 || amount_in == 0) AmmError.invalid_input
  ok (record { amount_in = amount_in; amount_out = swap_amount_out; swap_fee = swap_fee })

-- `swap_in_after_add_fee`: the payment of which the fee leaves `swap_in_before_add_fee`.
unfoldable pub add_fee : Fees → ℕ → Result ℕ
add_fee fees swap_in_before_add_fee = do
  scaled ← mul 128 swap_in_before_add_fee fees.swap_fee_denominator
  rest ← sub fees.swap_fee_denominator fees.swap_fee_numerator
  (with_fee, _) ← unwrap (checked_ceil_div scaled rest)
  cast 64 with_fee

unfoldable pub quote_base_out : Fees → ℕ → ℕ → ℕ → ℕ → ℕ → SwapDirection → Result SwapAmounts
unfolding add_fee
quote_base_out fees user_amount max_amount_in amount_out total_pc total_coin swap_direction = do
  swap_in_before_add_fee ← swap_token_amount_base_out amount_out total_pc total_coin swap_direction
  swap_in_after_add_fee ← add_fee fees swap_in_before_add_fee
  before ← cast 64 swap_in_before_add_fee
  swap_fee ← sub swap_in_after_add_fee before
  fail_if (ltb user_amount swap_in_after_add_fee) AmmError.insufficient_funds
  fail_if (ltb max_amount_in swap_in_after_add_fee) AmmError.exceeded_slippage
  fail_if (swap_in_after_add_fee == 0 || amount_out == 0) AmmError.invalid_input
  ok (record { amount_in = swap_in_after_add_fee; amount_out = amount_out; swap_fee = swap_fee })
