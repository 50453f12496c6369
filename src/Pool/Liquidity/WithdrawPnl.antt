-- ===== src/Pool/Liquidity/WithdrawPnl.antt =====
-- program/src/processor.rs: `Processor::process_withdrawpnl`, which pays out the profit that was set aside.
pub mod Payment
pub mod Laws
use raydium_amm_mod.Base.{
  ℕ, ◌%◌, Bool, true, false, not, Option, none, some, List, length, leb, ◌==◌, ◌!=◌, ◌&&◌, ◌||◌,
  if◌then◌else◌,
}
use raydium_amm_mod.Error.{AmmError, Result, ok, err, ◌>>=◌, ◌>>◌, fail_if}
use raydium_amm_mod.Checked.{sub}
use raydium_amm_mod.State.AmmStatus
use raydium_amm_mod.State.AmmConfig
use raydium_amm_mod.State.AmmConfig.{AmmConfig}
use raydium_amm_mod.State.AmmInfo.{AmmInfo, StateData, TargetOrders}
use raydium_amm_mod.Pool.Runtime.{
  Runtime, AccountInfo, TokenAccount, Clock, next_account_info, unpack_token_account, authority_id,
  token_transfer_with_authority,
}
use raydium_amm_mod.Pool.Swap.{load_amm_checked}
use raydium_amm_mod.Pool.SetParams.{load_target_checked}
use raydium_amm_mod.Pool.Liquidity.{PoolHoldings, BookKeys, Growth, pool_totals, set_aside}

pub record WithdrawPnlAccounts : Type 0 where
  pub token_program : AccountInfo
  pub amm_account : AccountInfo
  pub amm_config : AccountInfo
  pub amm_authority : AccountInfo
  pub amm_open_orders : AccountInfo
  pub amm_coin_vault : AccountInfo
  pub amm_pc_vault : AccountInfo
  pub user_pnl_coin : AccountInfo
  pub user_pnl_pc : AccountInfo
  pub pnl_owner : AccountInfo
  pub amm_target_orders : AccountInfo
  pub market_program : AccountInfo
  pub market : AccountInfo
  pub market_event_queue : AccountInfo
  pub referrer_pc_wallet : Option AccountInfo

-- The accounts in order: three that are not used, and a referrer at the end where there are 18.
unfoldable pub withdrawpnl_accounts : List AccountInfo → Result WithdrawPnlAccounts
withdrawpnl_accounts accounts = do
  let count = length accounts
  fail_if (count != 17 && count != 18) AmmError.wrong_accounts_number
  (token_program, rest) ← next_account_info accounts
  (amm_account, rest) ← next_account_info rest
  (amm_config, rest) ← next_account_info rest
  (amm_authority, rest) ← next_account_info rest
  (amm_open_orders, rest) ← next_account_info rest
  (amm_coin_vault, rest) ← next_account_info rest
  (amm_pc_vault, rest) ← next_account_info rest
  (user_pnl_coin, rest) ← next_account_info rest
  (user_pnl_pc, rest) ← next_account_info rest
  (pnl_owner, rest) ← next_account_info rest
  (amm_target_orders, rest) ← next_account_info rest
  (market_program, rest) ← next_account_info rest
  (market, rest) ← next_account_info rest
  (market_event_queue, rest) ← next_account_info rest
  (_, rest) ← next_account_info rest
  (_, rest) ← next_account_info rest
  (_, rest) ← next_account_info rest
  referrer ←
      (if count == 18 then next_account_info rest >>= (λ (last, _). ok (some last)) else ok none)
  ok (record {
    token_program = token_program;
    amm_account = amm_account;
    amm_config = amm_config;
    amm_authority = amm_authority;
    amm_open_orders = amm_open_orders;
    amm_coin_vault = amm_coin_vault;
    amm_pc_vault = amm_pc_vault;
    user_pnl_coin = user_pnl_coin;
    user_pnl_pc = user_pnl_pc;
    pnl_owner = pnl_owner;
    amm_target_orders = amm_target_orders;
    market_program = market_program;
    market = market;
    market_event_queue = market_event_queue;
    referrer_pc_wallet = referrer;
  })

abbrev pub withdrawpnl_keys : WithdrawPnlAccounts → BookKeys
withdrawpnl_keys a = record {
  market = a.market.key;
  open_orders = a.amm_open_orders.key;
  authority = a.amm_authority.key;
  event_queue = a.market_event_queue.key;
}

-- The account with nothing owed any more.
abbrev pub paid_out : AmmInfo → ℕ → AmmInfo
paid_out amm epoch = record amm {
  state_data = record (amm.state_data) { need_take_pnl_coin = 0; need_take_pnl_pc = 0 };
  recent_epoch = epoch;
}

module _ (r : Runtime) where
  open r use {Ledger, spl_token_id, find_config_address, get_clock}

  unfoldable pub check_referrer_owner :
      ℕ → WithdrawPnlAccounts → Option AccountInfo → Ledger → Result (Unit {0})
  check_referrer_owner referrer_id a none ledger = ok tt
  check_referrer_owner referrer_id a (some referrer) ledger = do
    referrer_pc_token ← unpack_token_account r ledger referrer a.token_program.key
    fail_if (referrer_pc_token.owner != referrer_id) AmmError.invalid_owner
    ok tt

  -- Who may take the profit: the owner of the program, or the one that the configuration names.
  unfoldable pub check_pnl_owner : ℕ → ℕ → WithdrawPnlAccounts → AmmConfig → Result (Unit {0})
  check_pnl_owner owner_id program_id a config = do
    fail_if (find_config_address program_id != a.amm_config.key || a.amm_config.owner != program_id)
        AmmError.invalid_config_account
    loaded ← AmmConfig.load_checked program_id a.amm_config.owner a.amm_config.data_len config
    fail_if
        (not a.pnl_owner.is_signer
          || (a.pnl_owner.key != owner_id && a.pnl_owner.key != loaded.pnl_owner))
        AmmError.invalid_sign_account
    ok tt

  -- The checks that come after that of the signature, and the token accounts that they lead to.
  unfoldable pub check_withdrawpnl : WithdrawPnlAccounts → AmmInfo → Ledger → Result PoolHoldings
  check_withdrawpnl a amm ledger = do
    fail_if (amm.status == AmmStatus.into_u64 AmmStatus.uninitialized) AmmError.invalid_status
    fail_if (a.market.key != amm.market) AmmError.invalid_market
    fail_if (a.amm_coin_vault.key != amm.coin_vault) AmmError.invalid_coin_vault
    fail_if (a.amm_pc_vault.key != amm.pc_vault) AmmError.invalid_pc_vault
    fail_if (a.token_program.key != spl_token_id) AmmError.invalid_spl_token_program
    fail_if (a.market_program.key != amm.market_program) AmmError.invalid_market_program
    fail_if (a.amm_open_orders.key != amm.open_orders) AmmError.invalid_open_orders
    fail_if (a.amm_target_orders.key != amm.target_orders) AmmError.invalid_target_orders
    coin_vault ← unpack_token_account r ledger a.amm_coin_vault a.token_program.key
    pc_vault ← unpack_token_account r ledger a.amm_pc_vault a.token_program.key
    user_coin ← unpack_token_account r ledger a.user_pnl_coin a.token_program.key
    user_pc ← unpack_token_account r ledger a.user_pnl_pc a.token_program.key
    ok (record {
      coin_vault = coin_vault;
      pc_vault = pc_vault;
      user_coin = user_coin;
      user_pc = user_pc;
    })

  unfoldable pub check_pnl_mints : AmmInfo → PoolHoldings → Result (Unit {0})
  check_pnl_mints amm h = do
    fail_if (h.coin_vault.mint != amm.coin_vault_mint || h.user_coin.mint != amm.coin_vault_mint)
        AmmError.invalid_coin_mint
    fail_if (h.pc_vault.mint != amm.pc_vault_mint || h.user_pc.mint != amm.pc_vault_mint)
        AmmError.invalid_pc_mint
    ok tt

  -- The two transfers of what is owed.
  unfoldable pub pay_pnl : WithdrawPnlAccounts → AmmInfo → Ledger → Result Ledger
  pay_pnl a amm ledger = do
    ledger₁ ←
        token_transfer_with_authority r a.token_program.key a.amm_coin_vault.key a.user_pnl_coin.key
          a.amm_authority.key (amm.nonce % 256) amm.state_data.need_take_pnl_coin ledger
    token_transfer_with_authority r a.token_program.key a.amm_pc_vault.key a.user_pnl_pc.key
        a.amm_authority.key (amm.nonce % 256) amm.state_data.need_take_pnl_pc ledger₁

  -- From the growth on: `amm` is the pool's account with the profit set aside.
  unfoldable pub execute_withdrawpnl :
      WithdrawPnlAccounts
      → AmmInfo
      → TargetOrders
      → PoolHoldings
      → Growth
      → Ledger
      → Result (AmmInfo × TargetOrders × Ledger)
  execute_withdrawpnl a amm target h g ledger = do
    fail_if
        (not (
          leb amm.state_data.need_take_pnl_coin h.coin_vault.amount
          && leb amm.state_data.need_take_pnl_pc h.pc_vault.amount))
        AmmError.take_pnl_error
    ledger' ← pay_pnl a amm ledger
    calc_pnl_x ← sub g.x1 g.pnl.delta_x
    calc_pnl_y ← sub g.y1 g.pnl.delta_y
    clock ← get_clock
    ok (
      paid_out amm clock.epoch,
      record target { calc_pnl_x = calc_pnl_x; calc_pnl_y = calc_pnl_y },
      ledger',
    )

  -- The instruction on the data of the configuration, of the pool's account, of the target orders, and the
  -- ledger. The first two arguments are the keys of `config_feature::referrer_pc_wallet` and
  -- `config_feature::amm_owner`.
  unfoldable pub process_withdrawpnl :
      ℕ
      → ℕ
      → ℕ
      → List AccountInfo
      → AmmConfig
      → AmmInfo
      → TargetOrders
      → Ledger
      → Result (AmmInfo × TargetOrders × Ledger)
  process_withdrawpnl referrer_id owner_id program_id accounts config stored stored_target ledger =
      do
        a ← withdrawpnl_accounts accounts
        check_referrer_owner referrer_id a a.referrer_pc_wallet ledger
        amm ← load_amm_checked program_id a.amm_account stored
        authority ← authority_id r program_id (amm.nonce % 256)
        fail_if (a.amm_authority.key != authority) AmmError.invalid_program_address
        fail_if (a.amm_account.owner != program_id) AmmError.invalid_owner
        status ← AmmStatus.from_u64 amm.status
        let enable_orderbook = AmmStatus.orderbook_permission status
        check_pnl_owner owner_id program_id a config
        h ← check_withdrawpnl a amm ledger
        target ← load_target_checked program_id a.amm_target_orders a.amm_account.key stored_target
        check_pnl_mints amm h
        (total_pc, total_coin) ← pool_totals r enable_orderbook (withdrawpnl_keys a) amm h ledger
        g ← set_aside r target amm total_pc total_coin
        execute_withdrawpnl a g.pnl.amm target h g ledger
