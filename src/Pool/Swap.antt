-- ===== src/Pool/Swap.antt =====
-- program/src/processor.rs: what `process_swap_base_in` and `process_swap_base_out` share, since the two
-- functions repeat the same text: the accounts, their checks, the status, the totals and the direction.
pub mod Quote
pub mod Setup
pub mod Execute
pub mod Outcome
pub mod Run
pub mod Mints
pub mod BaseIn
pub mod BaseOut
use raydium_amm_mod.Base.{
  ℕ, ◌+◌, ◌%◌, Bool, true, false, not, List, [], ◌∷◌, length, ltb, leb, ◌==◌, ◌!=◌, ◌&&◌, ◌||◌,
  if◌then◌else◌,
}
use raydium_amm_mod.Error.{AmmError, Result, ok, err, amm as custom, ◌>>=◌, ◌>>◌, fail_if, require}
use raydium_amm_mod.Math.Swap.{SwapDirection}
use raydium_amm_mod.Math.Vault.{
  calc_total_without_take_pnl, calc_total_without_take_pnl_no_orderbook,
}
use raydium_amm_mod.State.AmmStatus
use raydium_amm_mod.State.AmmStatus.{AmmStatus}
use raydium_amm_mod.State.AmmInfo.{AmmInfo, StateData}
use raydium_amm_mod.Pool.Runtime.{
  Runtime, AccountInfo, TokenAccount, LeafNode, Clock, next_account_info, unpack_token_account,
  authority_id, amm_info_size,
}
use raydium_amm_mod.Pool.Orders.{load_serum_market_order, get_amm_orders}

pub record SwapAccounts : Type 0 where
  pub token_program : AccountInfo
  pub amm_account : AccountInfo
  pub amm_authority : AccountInfo
  pub amm_open_orders : AccountInfo
  pub amm_coin_vault : AccountInfo
  pub amm_pc_vault : AccountInfo
  pub market_program : AccountInfo
  pub market : AccountInfo
  pub market_bids : AccountInfo
  pub market_asks : AccountInfo
  pub market_event_queue : AccountInfo
  pub market_coin_vault : AccountInfo
  pub market_pc_vault : AccountInfo
  pub market_vault_signer : AccountInfo
  pub user_source : AccountInfo
  pub user_destination : AccountInfo
  pub user_source_owner : AccountInfo

-- The accounts in order; with 18 of them the fifth is the target orders account, which is not used.
unfoldable pub swap_accounts : List AccountInfo → Result SwapAccounts
swap_accounts accounts = do
  let count = length accounts
  fail_if (count != 17 && count != 18) AmmError.wrong_accounts_number
  (token_program, rest) ← next_account_info accounts
  (amm_account, rest) ← next_account_info rest
  (amm_authority, rest) ← next_account_info rest
  (amm_open_orders, rest) ← next_account_info rest
  rest ← (if count == 18 then next_account_info rest >>= (λ (_, after). ok after) else ok rest)
  (amm_coin_vault, rest) ← next_account_info rest
  (amm_pc_vault, rest) ← next_account_info rest
  (market_program, rest) ← next_account_info rest
  (market, rest) ← next_account_info rest
  (market_bids, rest) ← next_account_info rest
  (market_asks, rest) ← next_account_info rest
  (market_event_queue, rest) ← next_account_info rest
  (market_coin_vault, rest) ← next_account_info rest
  (market_pc_vault, rest) ← next_account_info rest
  (market_vault_signer, rest) ← next_account_info rest
  (user_source, rest) ← next_account_info rest
  (user_destination, rest) ← next_account_info rest
  (user_source_owner, _) ← next_account_info rest
  ok (record {
    token_program = token_program;
    amm_account = amm_account;
    amm_authority = amm_authority;
    amm_open_orders = amm_open_orders;
    amm_coin_vault = amm_coin_vault;
    amm_pc_vault = amm_pc_vault;
    market_program = market_program;
    market = market;
    market_bids = market_bids;
    market_asks = market_asks;
    market_event_queue = market_event_queue;
    market_coin_vault = market_coin_vault;
    market_pc_vault = market_pc_vault;
    market_vault_signer = market_vault_signer;
    user_source = user_source;
    user_destination = user_destination;
    user_source_owner = user_source_owner;
  })

-- `AmmInfo::load_mut_checked`, on the data `amm` of the account.
unfoldable pub load_amm_checked : ℕ → AccountInfo → AmmInfo → Result AmmInfo
load_amm_checked program_id account amm = do
  fail_if (account.owner != program_id) AmmError.invalid_amm_account_owner
  fail_if (account.data_len != amm_info_size) AmmError.expected_account
  fail_if (amm.status == AmmStatus.into_u64 AmmStatus.uninitialized) AmmError.invalid_status
  ok amm

pub record Holdings : Type 0 where
  pub coin_vault : TokenAccount
  pub pc_vault : TokenAccount
  pub user_source : TokenAccount
  pub user_destination : TokenAccount

pub record Totals : Type 0 where
  pub total_pc : ℕ
  pub total_coin : ℕ
  pub bids : List LeafNode
  pub asks : List LeafNode

module _ (r : Runtime) where
  open r use {
    Ledger, spl_token_id, get_clock, load_bids_checked, load_asks_checked, load_event_queue,
  }

  -- The checks on the accounts, and the token accounts that they lead to.
  unfoldable pub check_swap_accounts : ℕ → SwapAccounts → AmmInfo → Ledger → Result Holdings
  check_swap_accounts program_id a amm ledger = do
    require a.user_source_owner.is_signer AmmError.invalid_sign_account
    fail_if (a.token_program.key != spl_token_id) AmmError.invalid_spl_token_program
    authority ← authority_id r program_id (amm.nonce % 256)
    fail_if (a.amm_authority.key != authority) AmmError.invalid_program_address
    fail_if (a.amm_coin_vault.key != amm.coin_vault) AmmError.invalid_coin_vault
    fail_if (a.amm_pc_vault.key != amm.pc_vault) AmmError.invalid_pc_vault
    fail_if (a.user_source.key == amm.pc_vault || a.user_source.key == amm.coin_vault)
        AmmError.invalid_user_token
    fail_if (a.user_destination.key == amm.pc_vault || a.user_destination.key == amm.coin_vault)
        AmmError.invalid_user_token
    coin_vault ← unpack_token_account r ledger a.amm_coin_vault a.token_program.key
    pc_vault ← unpack_token_account r ledger a.amm_pc_vault a.token_program.key
    user_source ← unpack_token_account r ledger a.user_source a.token_program.key
    user_destination ← unpack_token_account r ledger a.user_destination a.token_program.key
    ok (record {
      coin_vault = coin_vault;
      pc_vault = pc_vault;
      user_source = user_source;
      user_destination = user_destination;
    })

  -- The status that a swap leaves: time may open a pool for trading.
  unfoldable pub update_swap_status : AmmInfo → Result AmmInfo
  update_swap_status amm = do
    status ← AmmStatus.from_u64 amm.status
    if not (AmmStatus.swap_permission status)
        then (do
          clock ← get_clock
          if amm.status == AmmStatus.into_u64 AmmStatus.order_book_only
                && leb amm.state_data.orderbook_to_init_time clock.unix_timestamp
              then ok (record amm { status = AmmStatus.into_u64 AmmStatus.initialized })
              else err (custom AmmError.invalid_status))
        else if amm.status == AmmStatus.into_u64 AmmStatus.waiting_trade
        then (do
          clock ← get_clock
          if ltb clock.unix_timestamp amm.state_data.pool_open_time
              then err (custom AmmError.invalid_status)
              else ok (record amm { status = AmmStatus.into_u64 AmmStatus.swap_only }))
        else ok amm

  unfoldable pub swap_totals : SwapAccounts → AmmInfo → Holdings → Bool → Ledger → Result Totals
  swap_totals a amm h true ledger = do
    fail_if (a.amm_open_orders.key != amm.open_orders) AmmError.invalid_open_orders
    fail_if (a.market_program.key != amm.market_program) AmmError.invalid_market_program
    fail_if (a.market.key != amm.market) AmmError.invalid_market
    (market_state, open_orders) ←
        load_serum_market_order r ledger a.market.key a.amm_open_orders.key a.amm_authority.key amm
          false
    bids_orders ← load_bids_checked ledger market_state a.market_bids.key
    asks_orders ← load_asks_checked ledger market_state a.market_asks.key
    let found = get_amm_orders open_orders bids_orders asks_orders
    (total_pc, total_coin) ←
        calc_total_without_take_pnl h.pc_vault.amount h.coin_vault.amount
          open_orders.native_pc_total open_orders.native_coin_total amm.state_data.need_take_pnl_pc
          amm.state_data.need_take_pnl_coin
          (load_event_queue ledger market_state a.market_event_queue.key) a.amm_open_orders.key
    ok (record { total_pc = total_pc; total_coin = total_coin; bids = found.0; asks = found.1 })
  swap_totals a amm h false ledger = do
    (total_pc, total_coin) ←
        calc_total_without_take_pnl_no_orderbook h.pc_vault.amount h.coin_vault.amount
          amm.state_data.need_take_pnl_pc amm.state_data.need_take_pnl_coin
    ok (record { total_pc = total_pc; total_coin = total_coin; bids = []; asks = [] })

-- The direction of the swap, from the mints of the user's accounts.
unfoldable pub find_direction : Holdings → Result SwapDirection
find_direction h =
    if h.user_source.mint == h.coin_vault.mint && h.user_destination.mint == h.pc_vault.mint
    then ok SwapDirection.coin2pc
    else if h.user_source.mint == h.pc_vault.mint && h.user_destination.mint == h.coin_vault.mint
    then ok SwapDirection.pc2coin
    else err (custom AmmError.invalid_user_token)
