-- ===== src/Pool/Liquidity/Withdraw/Book.antt =====
-- program/src/processor.rs: the part of `process_withdraw` that reads the market, takes the pool's orders
-- out of it and settles, and the instruction as a whole.
use raydium_amm_mod.Base.{ℕ, ◌%◌, Bool, true, false, some, List, [], map, ◌!=◌}
use raydium_amm_mod.Error.{AmmError, Result, ok, ◌>>=◌, ◌>>◌, fail_if, require}
use raydium_amm_mod.Math.Vault.{
  calc_total_without_take_pnl, calc_total_without_take_pnl_no_orderbook,
}
use raydium_amm_mod.State.AmmInfo.{AmmInfo, TargetOrders}
use raydium_amm_mod.Pool.Runtime.{Runtime, AccountInfo, Cancellation, Settlement, Instruction}
use raydium_amm_mod.Pool.Orders.{load_serum_market_order, get_amm_orders, cancel_batches}
use raydium_amm_mod.Pool.CancelOrders.{both_batches}
use raydium_amm_mod.Pool.Swap.{load_amm_checked}
use raydium_amm_mod.Pool.SetParams.{load_target_checked}
use raydium_amm_mod.Pool.Liquidity.{PoolHoldings, check_mints}
use raydium_amm_mod.Pool.Liquidity.Withdraw.{
  WithdrawInstruction, WithdrawAccounts, withdraw_accounts, check_referrer, check_withdraw,
  withdraw_growth, execute_withdraw,
}

abbrev withdraw_cancellation : WithdrawAccounts → Cancellation
withdraw_cancellation a = record {
  dex_program = a.market_program.key;
  market = a.market.key;
  bids = a.market_bids.key;
  asks = a.market_asks.key;
  open_orders = a.amm_open_orders.key;
  open_orders_owner = a.amm_authority.key;
  event_q = a.market_event_q.key;
  client_order_ids = [];
}

abbrev withdraw_settlement : WithdrawAccounts → ℕ → Settlement
withdraw_settlement a referrer = record {
  dex_program = a.market_program.key;
  market = a.market.key;
  open_orders = a.amm_open_orders.key;
  owner = a.amm_authority.key;
  coin_vault = a.market_coin_vault.key;
  pc_vault = a.market_pc_vault.key;
  coin_wallet = a.amm_coin_vault.key;
  pc_wallet = a.amm_pc_vault.key;
  vault_signer = a.market_vault_signer.key;
  spl_token_program = a.token_program.key;
  referrer_pc_wallet = some referrer;
}

module _ (r : Runtime) where
  open r use {Ledger, invoke_signed, load_bids_checked, load_asks_checked, load_event_queue}

  -- The totals of pc and coin, and the ledger after the settlement. The vaults in `h` and the open orders
  -- are those from before it; the event queue is read after it.
  unfoldable pub withdraw_totals :
      Bool → WithdrawAccounts → AmmInfo → PoolHoldings → ℕ → Ledger → Result ((ℕ × ℕ) × Ledger)
  unfolding check_mints
  withdraw_totals true a amm h referrer ledger = do
    fail_if (a.market.key != amm.market) AmmError.invalid_market
    fail_if (a.market_program.key != amm.market_program) AmmError.invalid_market_program
    fail_if (a.amm_open_orders.key != amm.open_orders) AmmError.invalid_open_orders
    (market_state, open_orders) ←
        load_serum_market_order r ledger a.market.key a.amm_open_orders.key a.amm_authority.key amm
          false
    bids_orders ← load_bids_checked ledger market_state a.market_bids.key
    asks_orders ← load_asks_checked ledger market_state a.market_asks.key
    let found = get_amm_orders open_orders bids_orders asks_orders
    batches ←
        both_batches (map (λ o. o.client_order_id) found.0) (map (λ o. o.client_order_id) found.1)
          [] 0
    cancelled ← cancel_batches r (withdraw_cancellation a) (amm.nonce % 256) batches ledger
    settled ←
        invoke_signed (Instruction.settle_funds (withdraw_settlement a referrer))
          (some (amm.nonce % 256)) cancelled
    check_mints market_state h
    totals ←
        calc_total_without_take_pnl h.pc_vault.amount h.coin_vault.amount
          open_orders.native_pc_total open_orders.native_coin_total amm.state_data.need_take_pnl_pc
          amm.state_data.need_take_pnl_coin
          (load_event_queue settled market_state a.market_event_q.key) a.amm_open_orders.key
    ok (totals, settled)
  withdraw_totals false a amm h referrer ledger = do
    totals ←
        calc_total_without_take_pnl_no_orderbook h.pc_vault.amount h.coin_vault.amount
          amm.state_data.need_take_pnl_pc amm.state_data.need_take_pnl_coin
    ok (totals, ledger)

  -- The instruction on the data of the pool's account, of the target orders, and the ledger. The first
  -- argument is the key of `config_feature::referrer_pc_wallet`.
  unfoldable pub process_withdraw :
      ℕ
      → ℕ
      → List AccountInfo
      → WithdrawInstruction
      → AmmInfo
      → TargetOrders
      → Ledger
      → Result (AmmInfo × TargetOrders × Ledger)
  process_withdraw referrer_id program_id accounts withdraw stored stored_target ledger = do
    a ← withdraw_accounts accounts
    referrer ← check_referrer r referrer_id a a.referrer_pc_wallet ledger
    require a.source_lp_owner.is_signer AmmError.invalid_sign_account
    amm ← load_amm_checked program_id a.amm_account stored
    target ← load_target_checked program_id a.amm_target_orders a.amm_account.key stored_target
    (enable_orderbook, h) ← check_withdraw r program_id a withdraw amm ledger
    ((total_pc, total_coin), settled) ← withdraw_totals enable_orderbook a amm h referrer ledger
    g ← withdraw_growth r target amm total_pc total_coin
    execute_withdraw r a withdraw g.pnl.amm target h g settled
