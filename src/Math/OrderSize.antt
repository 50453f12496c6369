-- ===== src/Math/OrderSize.antt =====
-- program/src/math.rs: `Calculator::get_max_buy_size_at_price` and `get_max_sell_size_at_price`, the sizes of
-- the orders that the pool places at a price.
pub mod Laws
use raydium_amm_mod.Base.{ℕ, ◌-◌}
use raydium_amm_mod.Error.{Result, ◌>>=◌}
use raydium_amm_mod.Checked.{add, mul, div}
use raydium_amm_mod.State.Fees.{Fees}
use raydium_amm_mod.State.AmmInfo.{AmmInfo}
use raydium_amm_mod.Math.Decimals.{expect, to_u64}

unfoldable pub get_max_buy_size_at_price : ℕ → ℕ → ℕ → AmmInfo → Result ℕ
get_max_buy_size_at_price price x y amm = do
  with_fee ← add 64 amm.fees.trade_fee_denominator amm.fees.trade_fee_numerator
  product ← mul 128 price with_fee
  price_with_fee ← div product amm.fees.trade_fee_denominator
  scaled ← mul 128 x amm.sys_decimal_value
  max_size ← div scaled price_with_fee
  expect (to_u64 (max_size - y))

unfoldable pub get_max_sell_size_at_price : ℕ → ℕ → ℕ → AmmInfo → Result ℕ
get_max_sell_size_at_price price x y amm = do
  product ← mul 128 price amm.fees.trade_fee_denominator
  with_fee ← add 64 amm.fees.trade_fee_denominator amm.fees.trade_fee_numerator
  price_with_fee ← div product with_fee
  scaled ← mul 128 x amm.sys_decimal_value
  second_part ← div scaled price_with_fee
  expect (to_u64 (y - second_part))
