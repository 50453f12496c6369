-- ===== src/Pool/Liquidity/Deposit.antt =====
-- program/src/processor.rs: `Processor::process_deposit`, which takes both tokens in the proportion of
-- the pool and mints shares for them.
pub mod Quote
pub mod Payment
pub mod Laws
use raydium_amm_mod.Base.{
  ℕ, ◌%◌, Bool, Option, List, length, ltb, ◌==◌, ◌!=◌, ◌&&◌, ◌||◌, if◌then◌else◌,
}
use raydium_amm_mod.Error.{AmmError, Result, ok, err, ◌>>=◌, ◌>>◌, fail_if, require}
use raydium_amm_mod.Checked.{add, sub}
use raydium_amm_mod.Math.Decimals.{normalize_decimal_v2}
use raydium_amm_mod.Math.Invariant.{
  RoundDirection, InvariantToken, InvariantPool, exchange_coin_to_pc, exchange_pc_to_coin,
  exchange_token_to_pool,
}
use raydium_amm_mod.State.AmmStatus
use raydium_amm_mod.State.AmmInfo.{AmmInfo, TargetOrders}
use raydium_amm_mod.Pool.Runtime.{
  Runtime, AccountInfo, Clock, next_account_info, unpack_token_account, authority_id,
  token_transfer, token_mint_to,
}
use raydium_amm_mod.Pool.Swap.{load_amm_checked}
use raydium_amm_mod.Pool.SetParams.{load_target_checked}
use raydium_amm_mod.Pool.Liquidity.{
  PoolHoldings, BookKeys, Growth, rate, falls_short, pool_totals, set_aside,
}

pub record DepositInstruction : Type 0 where
  pub max_coin_amount : ℕ
  pub max_pc_amount : ℕ
  pub base_side : ℕ
  pub other_amount_min : Option ℕ

pub record DepositAccounts : Type 0 where
  pub token_program : AccountInfo
  pub amm_account : AccountInfo
  pub amm_authority : AccountInfo
  pub amm_open_orders : AccountInfo
  pub amm_target_orders : AccountInfo
  pub amm_lp_mint : AccountInfo
  pub amm_coin_vault : AccountInfo
  pub amm_pc_vault : AccountInfo
  pub market : AccountInfo
  pub user_source_coin : AccountInfo
  pub user_source_pc : AccountInfo
  pub user_dest_lp : AccountInfo
  pub source_owner : AccountInfo
  pub market_event_queue : AccountInfo

unfoldable pub deposit_accounts : List AccountInfo → Result DepositAccounts
deposit_accounts accounts = do
  let count = length accounts
  fail_if (count != 14 && count != 15) AmmError.wrong_accounts_number
  (token_program, rest) ← next_account_info accounts
  (amm_account, rest) ← next_account_info rest
  (amm_authority, rest) ← next_account_info rest
  (amm_open_orders, rest) ← next_account_info rest
  (amm_target_orders, rest) ← next_account_info rest
  (amm_lp_mint, rest) ← next_account_info rest
  (amm_coin_vault, rest) ← next_account_info rest
  (amm_pc_vault, rest) ← next_account_info rest
  (market, rest) ← next_account_info rest
  (user_source_coin, rest) ← next_account_info rest
  (user_source_pc, rest) ← next_account_info rest
  (user_dest_lp, rest) ← next_account_info rest
  (source_owner, rest) ← next_account_info rest
  (market_event_queue, _) ← next_account_info rest
  ok (record {
    token_program = token_program;
    amm_account = amm_account;
    amm_authority = amm_authority;
    amm_open_orders = amm_open_orders;
    amm_target_orders = amm_target_orders;
    amm_lp_mint = amm_lp_mint;
    amm_coin_vault = amm_coin_vault;
    amm_pc_vault = amm_pc_vault;
    market = market;
    user_source_coin = user_source_coin;
    user_source_pc = user_source_pc;
    user_dest_lp = user_dest_lp;
    source_owner = source_owner;
    market_event_queue = market_event_queue;
  })

abbrev pub deposit_keys : DepositAccounts → BookKeys
deposit_keys a = record {
  market = a.market.key;
  open_orders = a.amm_open_orders.key;
  authority = a.amm_authority.key;
  event_queue = a.market_event_queue.key;
}

pub record DepositAmounts : Type 0 where
  pub deduct_pc : ℕ
  pub deduct_coin : ℕ
  pub mint_lp : ℕ

-- The amounts for `lp` shares and the totals of pc and coin, by the side that is fixed.
unfoldable pub deposit_base_coin : DepositInstruction → ℕ → ℕ → ℕ → Result DepositAmounts
deposit_base_coin deposit lp total_pc total_coin = do
  deduct_pc ← rate (
      exchange_coin_to_pc (record { token_coin = total_coin; token_pc = total_pc })
        deposit.max_coin_amount RoundDirection.ceiling)
  fail_if (ltb deposit.max_pc_amount deduct_pc) AmmError.exceeded_slippage
  fail_if (falls_short deposit.other_amount_min deduct_pc) AmmError.exceeded_slippage
  mint_lp ← rate (
      exchange_token_to_pool
        (record { token_input = deposit.max_coin_amount; token_total = total_coin }) lp
        RoundDirection.floor)
  ok (record { deduct_pc = deduct_pc; deduct_coin = deposit.max_coin_amount; mint_lp = mint_lp })

unfoldable pub deposit_base_pc : DepositInstruction → ℕ → ℕ → ℕ → Result DepositAmounts
deposit_base_pc deposit lp total_pc total_coin = do
  deduct_coin ← rate (
      exchange_pc_to_coin (record { token_coin = total_coin; token_pc = total_pc })
        deposit.max_pc_amount RoundDirection.ceiling)
  fail_if (ltb deposit.max_coin_amount deduct_coin) AmmError.exceeded_slippage
  fail_if (falls_short deposit.other_amount_min deduct_coin) AmmError.exceeded_slippage
  mint_lp ← rate (
      exchange_token_to_pool
        (record { token_input = deposit.max_pc_amount; token_total = total_pc }) lp
        RoundDirection.floor)
  ok (record { deduct_pc = deposit.max_pc_amount; deduct_coin = deduct_coin; mint_lp = mint_lp })

unfoldable pub quote_deposit : DepositInstruction → ℕ → ℕ → ℕ → Result DepositAmounts
quote_deposit deposit lp total_pc total_coin =
    if deposit.base_side == 0
    then deposit_base_coin deposit lp total_pc total_coin
    else deposit_base_pc deposit lp total_pc total_coin

-- `target_orders.calc_pnl_x` and `calc_pnl_y` after the deposit of `amount`.
unfoldable pub raise_target : ℕ → ℕ → ℕ → AmmInfo → ℕ → Result ℕ
raise_target reserve amount decimals amm delta = do
  grown ← normalize_decimal_v2 amount decimals amm.sys_decimal_value
  raised ← add 128 reserve grown
  sub raised delta

module _ (r : Runtime) where
  open r use {Ledger, spl_token_id, get_clock}

  -- The checks that come before the totals, from the signature on, and the accounts that they lead to.
  unfoldable pub check_deposit :
      ℕ → DepositAccounts → DepositInstruction → AmmInfo → Ledger → Result (Bool × PoolHoldings)
  check_deposit program_id a deposit amm ledger = do
    fail_if (deposit.max_coin_amount == 0 || deposit.max_pc_amount == 0) AmmError.invalid_input
    require a.source_owner.is_signer AmmError.invalid_sign_account
    status ← AmmStatus.from_u64 amm.status
    require (AmmStatus.deposit_permission status) AmmError.invalid_status
    authority ← authority_id r program_id (amm.nonce % 256)
    fail_if (a.amm_authority.key != authority) AmmError.invalid_program_address
    let enable_orderbook = AmmStatus.orderbook_permission status
    fail_if (a.token_program.key != spl_token_id) AmmError.invalid_spl_token_program
    fail_if (a.amm_coin_vault.key != amm.coin_vault || a.user_source_coin.key == amm.coin_vault)
        AmmError.invalid_coin_vault
    fail_if (a.amm_pc_vault.key != amm.pc_vault || a.user_source_pc.key == amm.pc_vault)
        AmmError.invalid_pc_vault
    fail_if (a.amm_lp_mint.key != amm.lp_mint) AmmError.invalid_pool_mint
    fail_if (a.amm_target_orders.key != amm.target_orders) AmmError.invalid_target_orders
    coin_vault ← unpack_token_account r ledger a.amm_coin_vault a.token_program.key
    pc_vault ← unpack_token_account r ledger a.amm_pc_vault a.token_program.key
    user_coin ← unpack_token_account r ledger a.user_source_coin a.token_program.key
    user_pc ← unpack_token_account r ledger a.user_source_pc a.token_program.key
    ok (
      enable_orderbook,
      record {
        coin_vault = coin_vault;
        pc_vault = pc_vault;
        user_coin = user_coin;
        user_pc = user_pc;
      },
    )

  -- The three calls of the token program.
  unfoldable pub pay_deposit : DepositAccounts → AmmInfo → DepositAmounts → Ledger → Result Ledger
  pay_deposit a amm s ledger = do
    ledger₁ ←
        token_transfer r a.token_program.key a.user_source_coin.key a.amm_coin_vault.key
          a.source_owner.key s.deduct_coin ledger
    ledger₂ ←
        token_transfer r a.token_program.key a.user_source_pc.key a.amm_pc_vault.key
          a.source_owner.key s.deduct_pc ledger₁
    token_mint_to r a.token_program.key a.amm_lp_mint.key a.user_dest_lp.key a.amm_authority.key
        (amm.nonce % 256) s.mint_lp ledger₂

  -- From the quote on: `amm` is the pool's account with the profit set aside.
  unfoldable pub execute_deposit :
      DepositAccounts
      → DepositInstruction
      → AmmInfo
      → TargetOrders
      → PoolHoldings
      → Growth
      → Ledger
      → Result (AmmInfo × TargetOrders × Ledger)
  execute_deposit a deposit amm target h g ledger = do
    fail_if (amm.lp_amount == 0) AmmError.not_allow_zero_lp
    s ← quote_deposit deposit amm.lp_amount g.pnl.total_pc g.pnl.total_coin
    fail_if (ltb h.user_coin.amount s.deduct_coin || ltb h.user_pc.amount s.deduct_pc)
        AmmError.insufficient_funds
    fail_if (s.mint_lp == 0 || s.deduct_coin == 0 || s.deduct_pc == 0) AmmError.invalid_input
    ledger' ← pay_deposit a amm s ledger
    lp_amount ← add 64 amm.lp_amount s.mint_lp
    calc_pnl_x ← raise_target g.x1 s.deduct_pc amm.pc_decimals amm g.pnl.delta_x
    calc_pnl_y ← raise_target g.y1 s.deduct_coin amm.coin_decimals amm g.pnl.delta_y
    clock ← get_clock
    ok (
      record amm { lp_amount = lp_amount; recent_epoch = clock.epoch },
      record target { calc_pnl_x = calc_pnl_x; calc_pnl_y = calc_pnl_y },
      ledger',
    )

  -- The instruction on the data of the pool's account, of the target orders, and the ledger.
  unfoldable pub process_deposit :
      ℕ
      → List AccountInfo
      → DepositInstruction
      → AmmInfo
      → TargetOrders
      → Ledger
      → Result (AmmInfo × TargetOrders × Ledger)
  process_deposit program_id accounts deposit stored stored_target ledger = do
    a ← deposit_accounts accounts
    amm ← load_amm_checked program_id a.amm_account stored
    (enable_orderbook, h) ← check_deposit program_id a deposit amm ledger
    target ← load_target_checked program_id a.amm_target_orders a.amm_account.key stored_target
    (total_pc, total_coin) ← pool_totals r enable_orderbook (deposit_keys a) amm h ledger
    g ← set_aside r target amm total_pc total_coin
    execute_deposit a deposit g.pnl.amm target h g ledger
