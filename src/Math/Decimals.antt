-- ===== src/Math/Decimals.antt =====
-- program/src/math.rs: conversions of `Calculator` between the decimals and lot sizes of the pool and
-- those of the market.
pub mod Laws
use raydium_amm_mod.Base.{ℕ, ◌≡◌, refl, Option, none, some}
use raydium_amm_mod.Word.{narrow, words}
use raydium_amm_mod.Error.{AmmError, amm, Result, ok, err, ◌>>=◌, unwrap, ok_or, panicked}
use raydium_amm_mod.Checked.{mul, div, pow, cast}
use raydium_amm_mod.Math.Ceil.{checked_ceil_div}

unfoldable pub to_u128 : ℕ → Result ℕ
to_u128 val = ok val

unfoldable pub to_u64 : ℕ → Result ℕ
unfolding words
to_u64 val = ok_or (narrow 64 val) AmmError.conversion_failure

-- `Result::unwrap`
abbrev pub expect {ℓ} : {A : Type ℓ} → Result A → Result A
expect (ok a) = ok a
expect (err e) = err panicked

unfoldable pub calc_x_power : ℕ → ℕ → ℕ → ℕ → Result ℕ
calc_x_power last_x last_y current_x current_y = do
  last_k ← mul 256 last_x last_y
  scaled ← mul 256 last_k current_x
  div scaled current_y

unfoldable pub normalize_decimal : ℕ → ℕ → ℕ → Result ℕ
normalize_decimal val native_decimal sys_decimal_value = do
  ret_mut ← mul 128 val sys_decimal_value
  ten ← pow 128 10 native_decimal
  ret ← div ret_mut ten
  expect (to_u64 ret)

unfoldable pub restore_decimal : ℕ → ℕ → ℕ → Result ℕ
restore_decimal val native_decimal sys_decimal_value = do
  ten ← pow 128 10 native_decimal
  ret_mut ← mul 128 val ten
  div ret_mut sys_decimal_value

unfoldable pub normalize_decimal_v2 : ℕ → ℕ → ℕ → Result ℕ
normalize_decimal_v2 val native_decimal sys_decimal_value = do
  ret_mut ← mul 128 val sys_decimal_value
  ten ← pow 128 10 native_decimal
  div ret_mut ten

unfoldable pub floor_lot : ℕ → ℕ → Result ℕ
floor_lot val lot_size = do unit ← div val lot_size; mul 64 unit lot_size

unfoldable pub ceil_lot : ℕ → ℕ → Result ℕ
ceil_lot val lot_size = do
  (unit, _) ← unwrap (checked_ceil_div val lot_size)
  unit' ← expect (to_u64 unit)
  mul 64 unit' lot_size

unfoldable pub convert_out_pc_lot_size : ℕ → ℕ → ℕ → ℕ → ℕ → Result ℕ
convert_out_pc_lot_size pc_decimals coin_decimals pc_lot_size coin_lot_size sys_decimal_value = do
  lots ← mul 128 pc_lot_size coin_lot_size
  pc_ten ← pow 128 10 pc_decimals
  numerator ← mul 128 lots pc_ten
  coin_ten ← pow 128 10 coin_decimals
  denominator ← mul 128 sys_decimal_value coin_ten
  native ← div numerator denominator
  expect (to_u64 native)

unfoldable pub convert_in_pc_lot_size : ℕ → ℕ → ℕ → ℕ → ℕ → Result ℕ
convert_in_pc_lot_size pc_decimals coin_decimals pc_lot_size coin_lot_size sys_decimal_value = do
  scaled ← mul 128 pc_lot_size sys_decimal_value
  coin_ten ← pow 128 10 coin_decimals
  numerator ← mul 128 scaled coin_ten
  pc_ten ← pow 128 10 pc_decimals
  denominator ← mul 128 coin_lot_size pc_ten
  native ← div numerator denominator
  expect (to_u64 native)

unfoldable pub convert_in_price : ℕ → ℕ → Result ℕ
convert_in_price val pc_lot_size = mul 64 val pc_lot_size

unfoldable pub convert_price_out : ℕ → ℕ → Result ℕ
convert_price_out val pc_lot_size = div val pc_lot_size

unfoldable pub convert_in_vol : ℕ → ℕ → ℕ → ℕ → Result ℕ
convert_in_vol val coin_decimal coin_lot_size sys_decimal_value = do
  lots ← mul 128 val coin_lot_size
  scaled ← mul 128 lots sys_decimal_value
  ten ← pow 128 10 coin_decimal
  volume ← div scaled ten
  expect (to_u64 volume)

unfoldable pub convert_vol_out : ℕ → ℕ → ℕ → ℕ → Result ℕ
convert_vol_out val coin_decimal coin_lot_size sys_decimal_value = do
  ten ← pow 128 10 coin_decimal
  numerator ← mul 128 val ten
  denominator ← mul 128 coin_lot_size sys_decimal_value
  volume ← div numerator denominator
  expect (to_u64 volume)
