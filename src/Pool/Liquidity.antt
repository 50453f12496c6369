-- ===== src/Pool/Liquidity.antt =====
-- program/src/processor.rs: what `process_deposit`, `process_withdraw` and `process_withdrawpnl` repeat:
-- the checks of the mints, the totals of the pool, and the profit that is set aside before the shares are
-- counted.
pub mod Setup
pub mod Deposit
pub mod Withdraw
pub mod WithdrawPnl
use raydium_amm_mod.Base.{ℕ, Bool, true, false, Option, none, some, ltb, ◌==◌, ◌!=◌, ◌||◌}
use raydium_amm_mod.Error.{AmmError, Result, ok, err, ◌>>=◌, ◌>>◌, fail_if, ok_or}
use raydium_amm_mod.Math.Decimals.{normalize_decimal_v2}
use raydium_amm_mod.Math.Vault.{
  calc_total_without_take_pnl, calc_total_without_take_pnl_no_orderbook,
}
use raydium_amm_mod.State.AmmInfo.{AmmInfo, StateData, TargetOrders}
use raydium_amm_mod.Pool.Runtime.{Runtime, TokenAccount, MarketState}
use raydium_amm_mod.Pool.Orders.{load_serum_market_order}
use raydium_amm_mod.Pool.Pnl.{PnlResult, calc_take_pnl}

-- The two vaults, and the user's account of either token.
pub record PoolHoldings : Type 0 where
  pub coin_vault : TokenAccount
  pub pc_vault : TokenAccount
  pub user_coin : TokenAccount
  pub user_pc : TokenAccount

-- The keys of the accounts that the totals are read from.
pub record BookKeys : Type 0 where
  pub market : ℕ
  pub open_orders : ℕ
  pub authority : ℕ
  pub event_queue : ℕ

unfoldable pub check_mints : MarketState → PoolHoldings → Result (Unit {0})
check_mints market_state h = do
  fail_if
      (market_state.coin_mint != h.coin_vault.mint || market_state.coin_mint != h.user_coin.mint)
      AmmError.invalid_coin_mint
  fail_if (market_state.pc_mint != h.pc_vault.mint || market_state.pc_mint != h.user_pc.mint)
      AmmError.invalid_pc_mint
  ok tt

-- `.ok_or(AmmError::CalculationExRateFailure)?`
abbrev pub rate : Result (Option ℕ) → Result ℕ
rate exchanged = exchanged >>= λ m. ok_or m AmmError.calculation_ex_rate_failure

-- Whether a minimum is given that `n` falls short of.
abbrev pub falls_short : Option ℕ → ℕ → Bool
falls_short none n = false
falls_short (some minimum) n = ltb n minimum

-- The totals, and what is set aside of them.
pub record Growth : Type 0 where
  pub x1 : ℕ
  pub y1 : ℕ
  pub pnl : PnlResult

module _ (r : Runtime) where
  open r use {Ledger, load_event_queue, integer_sqrt}

  -- The totals of pc and coin; the first argument is `enable_orderbook`.
  unfoldable pub pool_totals : Bool → BookKeys → AmmInfo → PoolHoldings → Ledger → Result (ℕ × ℕ)
  unfolding check_mints
  pool_totals true k amm h ledger = do
    fail_if (k.market != amm.market) AmmError.invalid_market
    fail_if (k.open_orders != amm.open_orders) AmmError.invalid_open_orders
    (market_state, open_orders) ←
        load_serum_market_order r ledger k.market k.open_orders k.authority amm false
    check_mints market_state h
    calc_total_without_take_pnl h.pc_vault.amount h.coin_vault.amount open_orders.native_pc_total
        open_orders.native_coin_total amm.state_data.need_take_pnl_pc
        amm.state_data.need_take_pnl_coin (load_event_queue ledger market_state k.event_queue)
        k.open_orders
  pool_totals false k amm h ledger =
      calc_total_without_take_pnl_no_orderbook h.pc_vault.amount h.coin_vault.amount
        amm.state_data.need_take_pnl_pc amm.state_data.need_take_pnl_coin

  unfoldable pub set_aside : TargetOrders → AmmInfo → ℕ → ℕ → Result Growth
  set_aside target amm total_pc total_coin = do
    x1 ← normalize_decimal_v2 total_pc amm.pc_decimals amm.sys_decimal_value
    y1 ← normalize_decimal_v2 total_coin amm.coin_decimals amm.sys_decimal_value
    pnl ← calc_take_pnl integer_sqrt target amm total_pc total_coin x1 y1
    ok (record { x1 = x1; y1 = y1; pnl = pnl })
