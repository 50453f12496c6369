-- ===== src/Pool/AdminCancel.antt =====
-- program/src/processor.rs: `Processor::process_admin_cancel_orders`, with which an administrator takes all
-- of a pool's orders and funds out of the market.
pub mod Laws
use raydium_amm_mod.Base.{
  ℕ, ◌%◌, Bool, true, false, not, ◌||◌, ◌&&◌, Option, none, some, List, [], ◌∷◌, length, ◌==◌, ◌!=◌,
  if◌then◌else◌,
}
use raydium_amm_mod.Error.{AmmError, Result, ok, ◌>>=◌, ◌>>◌, fail_if}
use raydium_amm_mod.State.AmmStatus
use raydium_amm_mod.State.AmmStatus.{AmmStatus}
use raydium_amm_mod.State.AmmConfig
use raydium_amm_mod.State.AmmConfig.{AmmConfig}
use raydium_amm_mod.State.AmmInfo.{AmmInfo}
use raydium_amm_mod.Pool.Runtime.{
  Runtime, AccountInfo, Instruction, Cancellation, Settlement, next_account_info, authority_id,
  unpack_token_account,
}
use raydium_amm_mod.Pool.Orders.{load_serum_market_order}
use raydium_amm_mod.Pool.CancelOrders.{do_cancel_amm_orders}
use raydium_amm_mod.Pool.Swap.{load_amm_checked}

pub record AdminCancelAccounts : Type 0 where
  pub token_program : AccountInfo
  pub amm_account : AccountInfo
  pub amm_authority : AccountInfo
  pub amm_open_orders : AccountInfo
  pub amm_target_orders : AccountInfo
  pub amm_coin_vault : AccountInfo
  pub amm_pc_vault : AccountInfo
  pub amm_owner : AccountInfo
  pub amm_config : AccountInfo
  pub market_program : AccountInfo
  pub market : AccountInfo
  pub market_coin_vault : AccountInfo
  pub market_pc_vault : AccountInfo
  pub market_vault_signer : AccountInfo
  pub market_event_queue : AccountInfo
  pub market_bids : AccountInfo
  pub market_asks : AccountInfo
  pub srm_token_account : Option AccountInfo
  pub referrer_pc_wallet : Option AccountInfo

-- The accounts behind the seventeen that are always given, of `count` in all.
unfoldable pub optional_accounts :
    ℕ → List AccountInfo → Result (Option AccountInfo × Option AccountInfo)
optional_accounts count rest =
    if count == 18
    then (do (srm_token, _) ← next_account_info rest; ok (some srm_token, none))
    else if count == 19
    then (do
      (srm_token, rest) ← next_account_info rest
      (referrer_pc, _) ← next_account_info rest
      ok (some srm_token, some referrer_pc))
    else ok (none, none)

unfoldable pub admin_cancel_accounts : List AccountInfo → Result AdminCancelAccounts
admin_cancel_accounts accounts = do
  fail_if (length accounts != 17 && length accounts != 18 && length accounts != 19)
      AmmError.wrong_accounts_number
  (token_program, rest) ← next_account_info accounts
  (amm_account, rest) ← next_account_info rest
  (amm_authority, rest) ← next_account_info rest
  (amm_open_orders, rest) ← next_account_info rest
  (amm_target_orders, rest) ← next_account_info rest
  (amm_coin_vault, rest) ← next_account_info rest
  (amm_pc_vault, rest) ← next_account_info rest
  (amm_owner, rest) ← next_account_info rest
  (amm_config, rest) ← next_account_info rest
  (market_program, rest) ← next_account_info rest
  (market, rest) ← next_account_info rest
  (market_coin_vault, rest) ← next_account_info rest
  (market_pc_vault, rest) ← next_account_info rest
  (market_vault_signer, rest) ← next_account_info rest
  (market_event_queue, rest) ← next_account_info rest
  (market_bids, rest) ← next_account_info rest
  (market_asks, rest) ← next_account_info rest
  (srm_token_account, referrer_pc_wallet) ← optional_accounts (length accounts) rest
  ok (record {
    token_program = token_program;
    amm_account = amm_account;
    amm_authority = amm_authority;
    amm_open_orders = amm_open_orders;
    amm_target_orders = amm_target_orders;
    amm_coin_vault = amm_coin_vault;
    amm_pc_vault = amm_pc_vault;
    amm_owner = amm_owner;
    amm_config = amm_config;
    market_program = market_program;
    market = market;
    market_coin_vault = market_coin_vault;
    market_pc_vault = market_pc_vault;
    market_vault_signer = market_vault_signer;
    market_event_queue = market_event_queue;
    market_bids = market_bids;
    market_asks = market_asks;
    srm_token_account = srm_token_account;
    referrer_pc_wallet = referrer_pc_wallet;
  })

-- The keys that the program fixes: those of `config_feature::amm_owner` and
-- `config_feature::referrer_pc_wallet`, and of the mints `srm_token` and `msrm_token`.
pub record FixedKeys : Type 0 where
  pub amm_owner : ℕ
  pub referrer_pc_wallet : ℕ
  pub srm_token : ℕ
  pub msrm_token : ℕ

abbrev wallet_key : Option AccountInfo → Option ℕ
wallet_key none = none
wallet_key (some wallet) = some wallet.key

-- What is handed to `invoke_dex_settle_funds`, and to `do_cancel_amm_orders`.
abbrev pub admin_settlement : AdminCancelAccounts → Settlement
admin_settlement a = record {
  dex_program = a.market_program.key;
  market = a.market.key;
  open_orders = a.amm_open_orders.key;
  owner = a.amm_authority.key;
  coin_vault = a.market_coin_vault.key;
  pc_vault = a.market_pc_vault.key;
  coin_wallet = a.amm_coin_vault.key;
  pc_wallet = a.amm_pc_vault.key;
  vault_signer = a.market_vault_signer.key;
  spl_token_program = a.token_program.key;
  referrer_pc_wallet = wallet_key a.referrer_pc_wallet;
}

abbrev pub admin_cancellation : AdminCancelAccounts → Cancellation
admin_cancellation a = record {
  dex_program = a.market_program.key;
  market = a.market.key;
  bids = a.market_bids.key;
  asks = a.market_asks.key;
  open_orders = a.amm_open_orders.key;
  open_orders_owner = a.amm_authority.key;
  event_q = a.market_event_queue.key;
  client_order_ids = [];
}

module _ (r : Runtime) (keys : FixedKeys) where
  open r use {Ledger, spl_token_id, find_config_address, invoke_signed}

  unfoldable pub check_admin : ℕ → AdminCancelAccounts → AmmInfo → AmmConfig → Result (Unit {0})
  check_admin program_id a amm stored_config = do
    authority ← authority_id r program_id (amm.nonce % 256)
    fail_if (a.amm_authority.key != authority) AmmError.invalid_program_address
    fail_if (a.amm_account.owner != program_id) AmmError.invalid_owner
    fail_if (find_config_address program_id != a.amm_config.key) AmmError.invalid_config_account
    amm_config ←
        AmmConfig.load_checked program_id a.amm_config.owner a.amm_config.data_len stored_config
    fail_if
        (not a.amm_owner.is_signer
          || (a.amm_owner.key != keys.amm_owner && a.amm_owner.key != amm_config.cancel_owner))
        AmmError.invalid_sign_account
    ok tt

  unfoldable pub check_market_keys : AdminCancelAccounts → AmmInfo → Result (Unit {0})
  check_market_keys a amm = do
    fail_if (amm.status == AmmStatus.into_u64 AmmStatus.uninitialized) AmmError.invalid_status
    fail_if (a.market_program.key != amm.market_program) AmmError.invalid_market_program
    fail_if (a.market.key != amm.market) AmmError.invalid_market
    fail_if (a.amm_open_orders.key != amm.open_orders) AmmError.invalid_open_orders
    fail_if (amm.coin_vault != a.amm_coin_vault.key) AmmError.invalid_coin_vault
    fail_if (amm.pc_vault != a.amm_pc_vault.key) AmmError.invalid_pc_vault
    fail_if (amm.target_orders != a.amm_target_orders.key) AmmError.invalid_target_orders
    ok tt

  unfoldable pub check_srm : AccountInfo → Option AccountInfo → Ledger → Result (Unit {0})
  check_srm authority none ledger = ok tt
  check_srm authority (some srm_token_account) ledger = do
    srm_token ← unpack_token_account r ledger srm_token_account spl_token_id
    fail_if (authority.key != srm_token.owner) AmmError.invalid_owner
    fail_if (srm_token.mint != keys.srm_token && srm_token.mint != keys.msrm_token)
        AmmError.invalid_srm_mint
    ok tt

  unfoldable pub check_referrer_pc : AmmInfo → Option AccountInfo → Ledger → Result (Unit {0})
  check_referrer_pc amm none ledger = ok tt
  check_referrer_pc amm (some referrer_pc) ledger = do
    referrer_pc_token ← unpack_token_account r ledger referrer_pc spl_token_id
    fail_if (referrer_pc_token.owner != keys.referrer_pc_wallet) AmmError.invalid_owner
    fail_if (referrer_pc_token.mint != amm.pc_vault_mint) AmmError.invalid_refer_pc_mint
    ok tt

  -- The settlement is left out where the market holds no free funds.
  unfoldable pub settle_free : AdminCancelAccounts → AmmInfo → Ledger → Result Ledger
  settle_free a amm cancelled = do
    (_, open_orders) ←
        load_serum_market_order r cancelled a.market.key a.amm_open_orders.key a.amm_authority.key
          amm true
    if open_orders.native_coin_free == 0 && open_orders.native_pc_free == 0
        then ok cancelled
        else invoke_signed (Instruction.settle_funds (admin_settlement a)) (some (amm.nonce % 256))
            cancelled

  unfoldable pub process_admin_cancel_orders :
      ℕ → List AccountInfo → AmmInfo → AmmConfig → Ledger → Result Ledger
  process_admin_cancel_orders program_id accounts stored stored_config ledger = do
    a ← admin_cancel_accounts accounts
    fail_if (a.token_program.key != spl_token_id) AmmError.invalid_spl_token_program
    amm ← load_amm_checked program_id a.amm_account stored
    check_admin program_id a amm stored_config
    check_market_keys a amm
    check_srm a.amm_authority a.srm_token_account ledger
    check_referrer_pc amm a.referrer_pc_wallet ledger
    cancelled ← do_cancel_amm_orders r amm (admin_cancellation a) ledger
    settle_free a amm cancelled
