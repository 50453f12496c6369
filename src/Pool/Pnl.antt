-- ===== src/Pool/Pnl.antt =====
-- program/src/processor.rs: `Processor::calc_take_pnl`, which sets aside the part of the pool's growth
-- that its owner takes as profit. `integer_sqrt` is the square root of the `uint` crate on `U256`.
pub mod Laws
use raydium_amm_mod.Base.{ℕ, ◌&&◌, leb, ◌!=◌, if◌then◌else◌}
use raydium_amm_mod.Error.{AmmError, Result, ok, err, amm as custom, ◌>>=◌}
use raydium_amm_mod.Checked.{add, mul, sub, div, cast}
use raydium_amm_mod.Math.Decimals.{restore_decimal, calc_x_power}
use raydium_amm_mod.State.Fees.{Fees}
use raydium_amm_mod.State.AmmInfo.{AmmInfo, StateData, TargetOrders}

-- What the function returns, and what it leaves in its `&mut` arguments.
pub record PnlResult : Type 0 where
  pub delta_x : ℕ
  pub delta_y : ℕ
  pub amm : AmmInfo
  pub total_pc : ℕ
  pub total_coin : ℕ

-- `diff * pnl_numerator / pnl_denominator` in `U128`.
unfoldable pub pnl_share : Fees → ℕ → Result ℕ
pnl_share fees diff = do scaled ← mul 128 diff fees.pnl_numerator; div scaled fees.pnl_denominator

-- Steps 2 and 3: move the profit from the totals to what is still to be paid out.
unfoldable pub take_pnl : AmmInfo → ℕ → ℕ → ℕ → ℕ → ℕ → ℕ → ℕ → ℕ → Result PnlResult
take_pnl amm total_pc total_coin delta_x delta_y diff_pc diff_coin pc_pnl coin_pnl = do
  diff_pc' ← cast 64 diff_pc
  total_pnl_pc ← add 64 amm.state_data.total_pnl_pc diff_pc'
  diff_coin' ← cast 64 diff_coin
  total_pnl_coin ← add 64 amm.state_data.total_pnl_coin diff_coin'
  need_take_pnl_pc ← add 64 amm.state_data.need_take_pnl_pc pc_pnl
  need_take_pnl_coin ← add 64 amm.state_data.need_take_pnl_coin coin_pnl
  total_pc' ← sub total_pc pc_pnl
  total_coin' ← sub total_coin coin_pnl
  ok (record {
    delta_x = delta_x;
    delta_y = delta_y;
    amm = record amm {
      state_data = record (amm.state_data) {
        total_pnl_pc = total_pnl_pc;
        total_pnl_coin = total_pnl_coin;
        need_take_pnl_pc = need_take_pnl_pc;
        need_take_pnl_coin = need_take_pnl_coin;
      };
    };
    total_pc = total_pc';
    total_coin = total_coin';
  })

module _ (integer_sqrt : ℕ → ℕ) where
  -- `x2` and `y2`: the reserves at the last product and the present price.
  unfoldable pub reserves_at_last_k : ℕ → ℕ → ℕ → ℕ → Result (ℕ × ℕ)
  reserves_at_last_k calc_pnl_x calc_pnl_y x1 y1 = do
    x2_power ← calc_x_power calc_pnl_x calc_pnl_y x1 y1
    let x2 = integer_sqrt x2_power
    scaled ← mul 256 x2 y1
    y2 ← div scaled x1
    ok (x2, y2)

  unfoldable pub calc_growth : TargetOrders → AmmInfo → ℕ → ℕ → ℕ → ℕ → Result PnlResult
  calc_growth target amm total_pc total_coin x1 y1 = do
    (x2, y2) ← reserves_at_last_k target.calc_pnl_x target.calc_pnl_y x1 y1
    x_grown ← sub x1 x2
    diff_x ← cast 128 x_grown
    y_grown ← sub y1 y2
    diff_y ← cast 128 y_grown
    delta_x ← pnl_share amm.fees diff_x
    delta_y ← pnl_share amm.fees diff_y
    diff_pc ← restore_decimal diff_x amm.pc_decimals amm.sys_decimal_value
    diff_coin ← restore_decimal diff_y amm.coin_decimals amm.sys_decimal_value
    pc_share ← pnl_share amm.fees diff_pc
    pc_pnl ← cast 64 pc_share
    coin_share ← pnl_share amm.fees diff_coin
    coin_pnl ← cast 64 coin_share
    if pc_pnl != 0 && coin_pnl != 0
        then take_pnl amm total_pc total_coin delta_x delta_y diff_pc diff_coin pc_pnl coin_pnl
        else ok (record {
          delta_x = 0;
          delta_y = 0;
          amm = amm;
          total_pc = total_pc;
          total_coin = total_coin;
        })

  unfoldable pub calc_take_pnl : TargetOrders → AmmInfo → ℕ → ℕ → ℕ → ℕ → Result PnlResult
  calc_take_pnl target amm total_pc total_coin x1 y1 = do
    calc_pc ← restore_decimal target.calc_pnl_x amm.pc_decimals amm.sys_decimal_value
    calc_coin ← restore_decimal target.calc_pnl_y amm.coin_decimals amm.sys_decimal_value
    pool_k ← mul 128 total_pc total_coin
    calc_k ← mul 128 calc_pc calc_coin
    if leb calc_k pool_k
        then calc_growth target amm total_pc total_coin x1 y1
        else err (custom AmmError.calc_pnl_error)
