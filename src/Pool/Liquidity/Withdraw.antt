-- ===== src/Pool/Liquidity/Withdraw.antt =====
-- program/src/processor.rs: `Processor::process_withdraw`, which burns shares and pays out both tokens in
-- the proportion of the pool.
pub mod Book
pub mod Payment
pub mod Laws
use raydium_amm_mod.Base.{
  ℕ, ◌%◌, Bool, true, false, not, Option, none, some, List, length, ltb, ◌==◌, ◌!=◌, ◌&&◌, ◌||◌,
  if◌then◌else◌,
}
use raydium_amm_mod.Error.{AmmError, Result, ok, err, ◌>>=◌, ◌>>◌, fail_if, require}
use raydium_amm_mod.Checked.{sub}
use raydium_amm_mod.Math.Decimals.{normalize_decimal_v2}
use raydium_amm_mod.Math.Invariant.{RoundDirection, InvariantPool, exchange_pool_to_token}
use raydium_amm_mod.State.AmmStatus
use raydium_amm_mod.State.AmmInfo.{AmmInfo, TargetOrders}
use raydium_amm_mod.Pool.Runtime.{
  Runtime, AccountInfo, TokenAccount, Clock, next_account_info, unpack_token_account, unpack_mint,
  authority_id, token_transfer_with_authority, token_burn,
}
use raydium_amm_mod.Pool.Pnl.{PnlResult}
use raydium_amm_mod.Pool.Liquidity.{PoolHoldings, Growth, rate, set_aside}

pub record WithdrawInstruction : Type 0 where
  pub amount : ℕ
  pub min_coin_amount : Option ℕ
  pub min_pc_amount : Option ℕ

pub record WithdrawAccounts : Type 0 where
  pub token_program : AccountInfo
  pub amm_account : AccountInfo
  pub amm_authority : AccountInfo
  pub amm_open_orders : AccountInfo
  pub amm_target_orders : AccountInfo
  pub amm_lp_mint : AccountInfo
  pub amm_coin_vault : AccountInfo
  pub amm_pc_vault : AccountInfo
  pub market_program : AccountInfo
  pub market : AccountInfo
  pub market_coin_vault : AccountInfo
  pub market_pc_vault : AccountInfo
  pub market_vault_signer : AccountInfo
  pub user_source_lp : AccountInfo
  pub user_dest_coin : AccountInfo
  pub user_dest_pc : AccountInfo
  pub source_lp_owner : AccountInfo
  pub market_event_q : AccountInfo
  pub market_bids : AccountInfo
  pub market_asks : AccountInfo
  pub referrer_pc_wallet : Option AccountInfo

-- The accounts in order: two that are not used after the vaults where there are 22 or 23, and a referrer
-- at the end where there are 21 or 23.
unfoldable pub withdraw_accounts : List AccountInfo → Result WithdrawAccounts
withdraw_accounts accounts = do
  let count = length accounts
  fail_if (count != 20 && count != 21 && count != 22 && count != 23) AmmError.wrong_accounts_number
  (token_program, rest) ← next_account_info accounts
  (amm_account, rest) ← next_account_info rest
  (amm_authority, rest) ← next_account_info rest
  (amm_open_orders, rest) ← next_account_info rest
  (amm_target_orders, rest) ← next_account_info rest
  (amm_lp_mint, rest) ← next_account_info rest
  (amm_coin_vault, rest) ← next_account_info rest
  (amm_pc_vault, rest) ← next_account_info rest
  rest ←
      (if count == 22 || count == 23
        then next_account_info rest
          >>= (λ (_, after). next_account_info after)
          >>= (λ (_, after). ok after)
        else ok rest)
  (market_program, rest) ← next_account_info rest
  (market, rest) ← next_account_info rest
  (market_coin_vault, rest) ← next_account_info rest
  (market_pc_vault, rest) ← next_account_info rest
  (market_vault_signer, rest) ← next_account_info rest
  (user_source_lp, rest) ← next_account_info rest
  (user_dest_coin, rest) ← next_account_info rest
  (user_dest_pc, rest) ← next_account_info rest
  (source_lp_owner, rest) ← next_account_info rest
  (market_event_q, rest) ← next_account_info rest
  (market_bids, rest) ← next_account_info rest
  (market_asks, rest) ← next_account_info rest
  referrer ←
      (if count == 21 || count == 23
        then next_account_info rest >>= (λ (last, _). ok (some last))
        else ok none)
  ok (record {
    token_program = token_program;
    amm_account = amm_account;
    amm_authority = amm_authority;
    amm_open_orders = amm_open_orders;
    amm_target_orders = amm_target_orders;
    amm_lp_mint = amm_lp_mint;
    amm_coin_vault = amm_coin_vault;
    amm_pc_vault = amm_pc_vault;
    market_program = market_program;
    market = market;
    market_coin_vault = market_coin_vault;
    market_pc_vault = market_pc_vault;
    market_vault_signer = market_vault_signer;
    user_source_lp = user_source_lp;
    user_dest_coin = user_dest_coin;
    user_dest_pc = user_dest_pc;
    source_lp_owner = source_lp_owner;
    market_event_q = market_event_q;
    market_bids = market_bids;
    market_asks = market_asks;
    referrer_pc_wallet = referrer;
  })

pub record WithdrawAmounts : Type 0 where
  pub coin_amount : ℕ
  pub pc_amount : ℕ

-- The amounts for the totals of pc and coin.
unfoldable pub quote_withdraw : ℕ → ℕ → ℕ → ℕ → Result WithdrawAmounts
quote_withdraw amount lp total_pc total_coin = do
  coin_amount ← rate (
      exchange_pool_to_token (record { token_input = amount; token_total = lp }) total_coin
        RoundDirection.floor)
  pc_amount ← rate (
      exchange_pool_to_token (record { token_input = amount; token_total = lp }) total_pc
        RoundDirection.floor)
  ok (record { coin_amount = coin_amount; pc_amount = pc_amount })

-- The minimums count only where both are given.
abbrev pub misses_minimums : WithdrawInstruction → WithdrawAmounts → Bool
misses_minimums withdraw s = below withdraw.min_coin_amount withdraw.min_pc_amount
  where
    below : Option ℕ → Option ℕ → Bool
    below (some min_coin) (some min_pc) = ltb s.coin_amount min_coin || ltb s.pc_amount min_pc
    below _ _ = false

unfoldable pub lower_target : ℕ → ℕ → ℕ → AmmInfo → ℕ → Result ℕ
lower_target reserve amount decimals amm delta = do
  shrunk ← normalize_decimal_v2 amount decimals amm.sys_decimal_value
  lowered ← sub reserve shrunk
  sub lowered delta

module _ (r : Runtime) where
  open r use {Ledger, spl_token_id, get_clock}

  -- The referrer, where one is given under a key other than `Pubkey::default()`; else the pool's vault.
  unfoldable pub check_referrer : ℕ → WithdrawAccounts → Option AccountInfo → Ledger → Result ℕ
  check_referrer referrer_id a none ledger = ok a.amm_pc_vault.key
  check_referrer referrer_id a (some referrer) ledger =
      if referrer.key != 0
      then (do
        referrer_pc_token ← unpack_token_account r ledger referrer a.token_program.key
        fail_if (referrer_pc_token.owner != referrer_id) AmmError.invalid_owner
        ok referrer.key)
      else ok referrer.key

  -- The checks that come before the totals, from the status on.
  unfoldable pub check_withdraw :
      ℕ → WithdrawAccounts → WithdrawInstruction → AmmInfo → Ledger → Result (Bool × PoolHoldings)
  check_withdraw program_id a withdraw amm ledger = do
    status ← AmmStatus.from_u64 amm.status
    require (AmmStatus.withdraw_permission status) AmmError.invalid_status
    authority ← authority_id r program_id (amm.nonce % 256)
    fail_if (a.amm_authority.key != authority) AmmError.invalid_program_address
    let enable_orderbook = AmmStatus.orderbook_permission status
    fail_if (a.token_program.key != spl_token_id) AmmError.invalid_spl_token_program
    fail_if (a.amm_coin_vault.key != amm.coin_vault || a.user_dest_coin.key == amm.coin_vault)
        AmmError.invalid_coin_vault
    fail_if (a.amm_pc_vault.key != amm.pc_vault || a.user_dest_pc.key == amm.pc_vault)
        AmmError.invalid_pc_vault
    fail_if (a.amm_target_orders.key != amm.target_orders) AmmError.invalid_target_orders
    fail_if (a.amm_lp_mint.key != amm.lp_mint) AmmError.invalid_pool_mint
    coin_vault ← unpack_token_account r ledger a.amm_coin_vault a.token_program.key
    pc_vault ← unpack_token_account r ledger a.amm_pc_vault a.token_program.key
    user_coin ← unpack_token_account r ledger a.user_dest_coin a.token_program.key
    user_pc ← unpack_token_account r ledger a.user_dest_pc a.token_program.key
    supply ← unpack_mint r ledger a.amm_lp_mint a.token_program.key
    source_lp ← unpack_token_account r ledger a.user_source_lp a.token_program.key
    fail_if (source_lp.mint != a.amm_lp_mint.key) AmmError.invalid_token_lp
    fail_if (ltb source_lp.amount withdraw.amount) AmmError.insufficient_funds
    fail_if (ltb supply withdraw.amount || not (ltb withdraw.amount amm.lp_amount))
        AmmError.not_allow_zero_lp
    ok (
      enable_orderbook,
      record {
        coin_vault = coin_vault;
        pc_vault = pc_vault;
        user_coin = user_coin;
        user_pc = user_pc;
      },
    )

  -- No profit is set aside while the pool is for withdrawals only.
  unfoldable pub withdraw_growth : TargetOrders → AmmInfo → ℕ → ℕ → Result Growth
  withdraw_growth target amm total_pc total_coin =
      if amm.status != AmmStatus.into_u64 AmmStatus.withdraw_only
      then set_aside r target amm total_pc total_coin
      else (do
        x1 ← normalize_decimal_v2 total_pc amm.pc_decimals amm.sys_decimal_value
        y1 ← normalize_decimal_v2 total_coin amm.coin_decimals amm.sys_decimal_value
        ok (record {
          x1 = x1;
          y1 = y1;
          pnl = record {
            delta_x = 0;
            delta_y = 0;
            amm = amm;
            total_pc = total_pc;
            total_coin = total_coin;
          };
        }))

  -- The three calls of the token program.
  unfoldable pub pay_withdraw :
      WithdrawAccounts → AmmInfo → ℕ → WithdrawAmounts → Ledger → Result Ledger
  pay_withdraw a amm amount s ledger = do
    ledger₁ ←
        token_transfer_with_authority r a.token_program.key a.amm_coin_vault.key
          a.user_dest_coin.key a.amm_authority.key (amm.nonce % 256) s.coin_amount ledger
    ledger₂ ←
        token_transfer_with_authority r a.token_program.key a.amm_pc_vault.key a.user_dest_pc.key
          a.amm_authority.key (amm.nonce % 256) s.pc_amount ledger₁
    token_burn r a.token_program.key a.user_source_lp.key a.amm_lp_mint.key a.source_lp_owner.key
        amount ledger₂

  -- From the quote on: `amm` is the pool's account with the profit set aside.
  unfoldable pub execute_withdraw :
      WithdrawAccounts
      → WithdrawInstruction
      → AmmInfo
      → TargetOrders
      → PoolHoldings
      → Growth
      → Ledger
      → Result (AmmInfo × TargetOrders × Ledger)
  execute_withdraw a withdraw amm target h g ledger = do
    s ← quote_withdraw withdraw.amount amm.lp_amount g.pnl.total_pc g.pnl.total_coin
    fail_if (withdraw.amount == 0 || s.coin_amount == 0 || s.pc_amount == 0) AmmError.invalid_input
    fail_if (not (ltb s.coin_amount h.coin_vault.amount && ltb s.pc_amount h.pc_vault.amount))
        AmmError.take_pnl_error
    fail_if (misses_minimums withdraw s) AmmError.exceeded_slippage
    ledger' ← pay_withdraw a amm withdraw.amount s ledger
    lp_amount ← sub amm.lp_amount withdraw.amount
    calc_pnl_x ← lower_target g.x1 s.pc_amount amm.pc_decimals amm g.pnl.delta_x
    calc_pnl_y ← lower_target g.y1 s.coin_amount amm.coin_decimals amm g.pnl.delta_y
    clock ← get_clock
    ok (
      record amm { lp_amount = lp_amount; recent_epoch = clock.epoch },
      record target { calc_pnl_x = calc_pnl_x; calc_pnl_y = calc_pnl_y },
      ledger',
    )
