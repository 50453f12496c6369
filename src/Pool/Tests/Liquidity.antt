-- ===== src/Pool/Tests/Liquidity.antt =====
-- A deposit, a withdrawal and a payout of profit of program/src/processor.rs, run on a small token program.
use raydium_amm_mod.Base.{
  ℕ, refl, arith, none, some, List, [], ◌∷◌, map, ◌++◌, ◌==◌, false, if◌then◌else◌,
}
use raydium_amm_mod.Word.{words}
use raydium_amm_mod.Checked.{add, mul, sub, div, pow, cast}
use raydium_amm_mod.Error.{Result, ok, err}
use raydium_amm_mod.Math.Ceil.{checked_ceil_div}
use raydium_amm_mod.Math.Decimals.{normalize_decimal_v2, restore_decimal, calc_x_power}
use raydium_amm_mod.Math.Invariant.{
  exchange, exchange_coin_to_pc, exchange_pc_to_coin, exchange_pool_to_token,
  exchange_token_to_pool,
}
use raydium_amm_mod.Math.Vault.{calc_total_without_take_pnl_no_orderbook}
use raydium_amm_mod.State.AmmStatus
use raydium_amm_mod.State.AmmConfig
use raydium_amm_mod.State.AmmConfig.{AmmConfig}
use raydium_amm_mod.State.AmmInfo.{AmmInfo, TargetOrders}
use raydium_amm_mod.Pool.Runtime.{
  AccountInfo, unpack_token_account, unpack_mint, authority_id, token_transfer,
  token_transfer_with_authority, token_mint_to, token_burn,
}
use raydium_amm_mod.Pool.Tokens.{IsPool}
use raydium_amm_mod.Pool.Pnl.{pnl_share, take_pnl, reserves_at_last_k, calc_growth, calc_take_pnl}
use raydium_amm_mod.Pool.Swap.{load_amm_checked}
use raydium_amm_mod.Pool.SetParams.{load_target_checked}
use raydium_amm_mod.Pool.Liquidity.{pool_totals, set_aside}
use raydium_amm_mod.Pool.Liquidity.Deposit.{
  DepositInstruction, DepositAmounts, deposit_accounts, deposit_base_coin, deposit_base_pc,
  quote_deposit, raise_target, check_deposit, pay_deposit, execute_deposit, process_deposit,
}
use raydium_amm_mod.Pool.Liquidity.Deposit.Laws.{IsDeposit, process_deposit-IsDeposit}
use raydium_amm_mod.Pool.Liquidity.Withdraw.{
  WithdrawInstruction, WithdrawAmounts, withdraw_accounts, quote_withdraw, lower_target,
  check_referrer, check_withdraw, withdraw_growth, pay_withdraw, execute_withdraw,
}
use raydium_amm_mod.Pool.Liquidity.Withdraw.Book.{withdraw_totals, process_withdraw}
use raydium_amm_mod.Pool.Liquidity.Withdraw.Laws.{IsWithdraw, process_withdraw-IsWithdraw}
use raydium_amm_mod.Pool.Liquidity.WithdrawPnl.{
  WithdrawPnlAccounts, withdrawpnl_accounts, check_referrer_owner, check_pnl_owner,
  check_withdrawpnl, check_pnl_mints, pay_pnl, execute_withdrawpnl, process_withdrawpnl,
}
use raydium_amm_mod.Pool.Liquidity.WithdrawPnl.Laws.{PaysOut, process_withdrawpnl-PaysOut}
use raydium_amm_mod.Pool.Book.Calls.{
  PoolState, Program, Trading, Call, Calls, Quiet, IsReady, book_of,
}
use raydium_amm_mod.Pool.Book.Serve.{Request}
use raydium_amm_mod.Pool.Book.Value.{NoLess}
use raydium_amm_mod.Pool.Book.Simulation.{RefinesAll, Calls-Refines, Quiet-NoLess}
use raydium_amm_mod.Pool.Tests.World.{Balances, runtime, laws, pool, account, balances}
use raydium_amm_mod.Pool.Tests.Orders.{target}

-- The accounts of the user hold enough of either token, and of shares.
abbrev funded : Balances
funded k =
    if k == 20 then 50_000 else if k == 21 then 200_000 else if k == 22 then 500 else balances k

-- The last profit was taken at 1900000 of pc and 950000 of coin.
abbrev last_target : TargetOrders
last_target = record target { calc_pnl_x = 1_900_000; calc_pnl_y = 950_000 }

abbrev target_account : AccountInfo
target_account = record { key = 7; owner = 1; is_signer = false; data_len = 2208 }

abbrev config_account : AccountInfo
config_account = record { key = 41; owner = 1; is_signer = false; data_len = 544 }

abbrev config : AmmConfig
config = record { pnl_owner = 40; cancel_owner = 42; create_pool_fee = 0 }

abbrev deposit_list : List AccountInfo
deposit_list =
    account 1
    ∷ account 2
    ∷ account 3
    ∷ account 4
    ∷ target_account
    ∷ map account (2 ∷ 10 ∷ 11 ∷ 5 ∷ 20 ∷ 21 ∷ 22 ∷ 23 ∷ 32 ∷ [])

abbrev withdraw_list : List AccountInfo
withdraw_list =
    account 1
    ∷ account 2
    ∷ account 3
    ∷ account 4
    ∷ target_account
    ∷ map account (2 ∷ 10 ∷ 11 ∷ 6 ∷ 5 ∷ 33 ∷ 34 ∷ 35 ∷ 22 ∷ 20 ∷ 21 ∷ 23 ∷ 32 ∷ 30 ∷ 31 ∷ [])

abbrev pnl_list : List AccountInfo
pnl_list =
    account 1 ∷ account 2 ∷ config_account ∷ map account (3 ∷ 4 ∷ 10 ∷ 11 ∷ 20 ∷ 21 ∷ 40 ∷ [])
    ++ (target_account ∷ map account (6 ∷ 5 ∷ 32 ∷ 33 ∷ 34 ∷ 35 ∷ []))

abbrev some_deposit : DepositInstruction
some_deposit = record {
  max_coin_amount = 10_000;
  max_pc_amount = 21_000;
  base_side = 0;
  other_amount_min = some 19_000;
}

abbrev some_withdraw : WithdrawInstruction
some_withdraw = record { amount = 100; min_coin_amount = some 90_000; min_pc_amount = some 90_000 }

abbrev result_of : Result (AmmInfo × TargetOrders × Balances) → AmmInfo × TargetOrders × Balances
result_of (ok after) = after
result_of (err e) = (pool, target, balances)

abbrev state_of : AmmInfo × TargetOrders × Balances → PoolState runtime
state_of s = record { amm = s.0; target = s.1; ledger = s.2 }

abbrev before : PoolState runtime
before = record { amm = pool; target = last_target; ledger = funded }

abbrev after_deposit : PoolState runtime
after_deposit =
    state_of
      (result_of (process_deposit runtime 1 deposit_list some_deposit pool last_target funded))

abbrev after_withdraw : PoolState runtime
after_withdraw =
    state_of (
      result_of (process_withdraw runtime 50 1 withdraw_list some_withdraw pool last_target funded))

abbrev after_pnl : PoolState runtime
after_pnl =
    state_of
      (result_of (process_withdrawpnl runtime 50 40 1 pnl_list config pool last_target funded))

-- All that the three instructions run, to be unfolded at once.
unfoldable liquidity_run : ℕ
unfolding process_deposit deposit_accounts check_deposit quote_deposit deposit_base_coin
    deposit_base_pc raise_target pay_deposit execute_deposit process_withdraw withdraw_accounts
    check_referrer check_withdraw withdraw_growth quote_withdraw lower_target pay_withdraw
    execute_withdraw withdraw_totals process_withdrawpnl withdrawpnl_accounts check_referrer_owner
    check_pnl_owner check_withdrawpnl check_pnl_mints pay_pnl execute_withdrawpnl load_amm_checked
    load_target_checked AmmConfig.load_checked pool_totals set_aside pnl_share take_pnl
    reserves_at_last_k calc_growth calc_take_pnl unpack_token_account unpack_mint authority_id
    token_transfer token_transfer_with_authority token_mint_to token_burn checked_ceil_div
    normalize_decimal_v2 restore_decimal calc_x_power exchange exchange_coin_to_pc
    exchange_pc_to_coin exchange_pool_to_token exchange_token_to_pool
    calc_total_without_take_pnl_no_orderbook words add mul sub div pow cast AmmStatus.from_u64
    AmmStatus.into_u64 AmmStatus.deposit_permission AmmStatus.withdraw_permission
    AmmStatus.orderbook_permission
liquidity_run = 0

vaults : IsPool runtime pool funded
vaults = record {
  coin = refl;
  pc = refl;
  apart = omega arith;
  coin_not_lp = omega arith;
  pc_not_lp = omega arith;
}

process_deposit-IsDeposit_example :
    (s : DepositAmounts) × IsDeposit runtime some_deposit s pool funded after_deposit.amm
      after_deposit.ledger
unfolding liquidity_run
process_deposit-IsDeposit_example =
    process_deposit-IsDeposit runtime laws 1 deposit_list some_deposit pool last_target funded refl
      refl vaults refl

process_withdraw-IsWithdraw_example :
    (s : WithdrawAmounts) × IsWithdraw runtime some_withdraw s pool funded after_withdraw.amm
      after_withdraw.ledger
unfolding liquidity_run
process_withdraw-IsWithdraw_example =
    process_withdraw-IsWithdraw runtime laws 50 1 withdraw_list some_withdraw pool last_target
      funded refl refl vaults refl

abbrev pnl_accounts : WithdrawPnlAccounts
pnl_accounts = record {
  token_program = account 1;
  amm_account = account 2;
  amm_config = config_account;
  amm_authority = account 3;
  amm_open_orders = account 4;
  amm_coin_vault = account 10;
  amm_pc_vault = account 11;
  user_pnl_coin = account 20;
  user_pnl_pc = account 21;
  pnl_owner = account 40;
  amm_target_orders = target_account;
  market_program = account 6;
  market = account 5;
  market_event_queue = account 32;
  referrer_pc_wallet = none;
}

process_withdrawpnl-PaysOut_example :
    PaysOut runtime 40 config pnl_accounts last_target pool funded after_pnl.amm after_pnl.ledger
unfolding liquidity_run
process_withdrawpnl-PaysOut_example =
    process_withdrawpnl-PaysOut runtime laws 50 40 1 pnl_list config pool last_target funded
      pnl_accounts refl refl vaults refl (omega arith) (omega arith) refl

-- 40 is the owner of the program, and 50 that of the referrer's account.
abbrev program : Program
program = record { id = 1; amm_owner = 40; referrer = 50 }

ready : IsReady runtime pool funded
unfolding liquidity_run
ready = record {
  status = AmmStatus.waiting_trade;
  read = refl;
  no_book = refl;
  fee = ground arith;
  fee_fits = omega arith;
  pool = vaults;
}

-- A deposit, and then the payout of the profit.
abbrev after_both : PoolState runtime
after_both = state_of (
    result_of (
      process_withdrawpnl runtime 50 40 1 pnl_list config after_deposit.amm after_deposit.target
        after_deposit.ledger))

Calls-Refines_example :
    RefinesAll runtime (Request.withdrawpnl ∷ Request.deposit some_deposit ∷ []) before after_both
unfolding liquidity_run
Calls-Refines_example = Calls-Refines runtime laws program {s = before} {s' = after_both} ready (
    Calls.then_call {m = after_deposit}
      (Calls.then_call Calls.none_yet
        (Call.trading (Trading.deposit deposit_list some_deposit refl)))
      (Call.withdrawpnl pnl_list config pnl_accounts refl (omega arith) (omega arith) refl))

-- With the last profit taken just now, nothing is set aside.
abbrev fresh_target : TargetOrders
fresh_target = record target { calc_pnl_x = 2_000_000; calc_pnl_y = 1_000_000 }

abbrev fresh : PoolState runtime
fresh = record { amm = pool; target = fresh_target; ledger = funded }

abbrev after_quiet : PoolState runtime
after_quiet =
    state_of
      (result_of (process_deposit runtime 1 deposit_list some_deposit pool fresh_target funded))

Quiet-NoLess_example : NoLess (book_of runtime fresh) (book_of runtime after_quiet)
unfolding liquidity_run
Quiet-NoLess_example =
    Quiet-NoLess runtime laws program {s = fresh} {s' = after_quiet} ready (omega arith)
      (Quiet.then_trading Quiet.none_yet (Trading.deposit deposit_list some_deposit refl) refl refl)
