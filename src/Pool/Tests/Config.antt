-- ===== src/Pool/Tests/Config.antt =====
-- The configuration changed, and orders cancelled by an administrator, with program/src/processor.rs.
use raydium_amm_mod.Base.{
  ◌+◌, ◌-◌, ◌*◌, ◌^◌, ℕ, ◌≡◌, refl, true, inl, inr, arith, some, none, List, [], ◌∷◌, ◌++◌, map,
}
use raydium_amm_mod.Error.{ok, err, panicked}
use raydium_amm_mod.State.AmmConfig
use raydium_amm_mod.State.AmmConfig.{AmmConfig}
use raydium_amm_mod.Instruction.{ConfigArgs}
use raydium_amm_mod.Pool.Runtime.{Runtime, AccountInfo, authority_id, unpack_token_account}
use raydium_amm_mod.Pool.Config.{apply_config, process_update_config}
use raydium_amm_mod.Pool.Config.Laws.{SignedBy, SetsOne, process_update_config-SetsOne}
use raydium_amm_mod.State.AmmStatus
use raydium_amm_mod.Pool.Orders.{
  load_serum_market_order, insert_by, sort_onto, collect_orders, get_amm_orders, cancel_batches,
}
use raydium_amm_mod.Pool.CancelOrders.{put_id, end_round, both_batches, do_cancel_amm_orders}
use raydium_amm_mod.Pool.Swap.{load_amm_checked}
use raydium_amm_mod.Pool.Config.Success.{process_update_config_returns}
use raydium_amm_mod.Pool.AdminCancel.{
  FixedKeys, optional_accounts, admin_cancel_accounts, check_admin, check_market_keys, check_srm,
  check_referrer_pc, settle_free, process_admin_cancel_orders,
}
use raydium_amm_mod.Pool.AdminCancel.Laws.{IsWithdrawn, process_admin_cancel_orders-IsWithdrawn}
use raydium_amm_mod.Pool.Tests.World.{runtime, pool, account, balances}

-- An account of the program whose data is a configuration.
abbrev config_account : ℕ → AccountInfo
config_account key = record { key = key; owner = 1; is_signer = true; data_len = 544 }

-- 40 is the key of the owner of the program, 41 that of the configuration.
abbrev config_accounts : List AccountInfo
config_accounts = map config_account (40 ∷ 41 ∷ [])

abbrev stored : AmmConfig
stored = record { pnl_owner = 7; cancel_owner = 8; create_pool_fee = 9 }

-- The owner that may cancel orders is set to the key 12.
abbrev set_cancel_owner : ConfigArgs
set_cancel_owner = record { param = 1; owner = some 12; create_pool_fee = none }

unfoldable config_run : ℕ
unfolding process_update_config apply_config AmmConfig.load_checked
config_run = 0

set_without_owner :
    process_update_config runtime 40 1 config_accounts
      (record set_cancel_owner { owner = none })
      stored
    ≡ err panicked
unfolding config_run
set_without_owner = refl

process_update_config-SetsOne_example :
    SignedBy 40 config_accounts
    × SetsOne set_cancel_owner stored (record stored { cancel_owner = 12 })
unfolding config_run
process_update_config-SetsOne_example =
    process_update_config-SetsOne runtime 40 1 config_accounts set_cancel_owner stored refl

process_update_config_returns_example :
    (config : AmmConfig) × (process_update_config runtime 40 1 config_accounts set_cancel_owner
        stored
      ≡ ok config)
    × SetsOne set_cancel_owner stored config
process_update_config_returns_example =
    process_update_config_returns runtime 1 (config_account 40) (config_account 41) []
      set_cancel_owner stored refl (refl, refl, refl) (inr (inl (refl, 12, refl, λ e. omega arith)))

abbrev fixed_keys : FixedKeys
fixed_keys = record { amm_owner = 40; referrer_pc_wallet = 50; srm_token = 51; msrm_token = 52 }

-- The eighth account, 8, is the owner that the configuration names; the pool has four of coin in the market.
abbrev cancel_accounts : List AccountInfo
cancel_accounts =
    map account (1 ∷ 2 ∷ 3 ∷ 4 ∷ 7 ∷ 10 ∷ 11 ∷ 8 ∷ [])
    ++ (config_account 41 ∷ map account (6 ∷ 5 ∷ 33 ∷ 34 ∷ 35 ∷ 32 ∷ 30 ∷ 31 ∷ []))

unfoldable cancel_run : ℕ
unfolding process_admin_cancel_orders admin_cancel_accounts optional_accounts check_admin
    check_market_keys check_srm check_referrer_pc settle_free load_amm_checked
    AmmConfig.load_checked AmmStatus.into_u64 load_serum_market_order do_cancel_amm_orders
    both_batches end_round put_id get_amm_orders collect_orders sort_onto insert_by cancel_batches
    authority_id unpack_token_account
cancel_run = 0

-- Three orders of the pool: two bids, the second of them higher, and an ask.
abbrev trading_runtime : Runtime
trading_runtime = record runtime {
  load_open_orders = λ l k m o p. ok (record {
    market = m;
    owner = o;
    native_pc_total = 0;
    native_coin_total = 0;
    native_coin_free = 4;
    native_pc_free = 0;
    free_slot_bits = 2 ^ 128 - 8;
    is_bid_bits = 3;
    orders = λ i. 100 + i;
  });
  load_bids_checked = λ l m k. ok (λ key. some (record { price = key; client_order_id = 7 * key }));
  load_asks_checked = λ l m k. ok (λ key. some (record { price = key; client_order_id = 9 * key }));
}

process_admin_cancel_orders-IsWithdrawn_example :
    IsWithdrawn trading_runtime fixed_keys cancel_accounts pool stored balances balances
unfolding cancel_run
process_admin_cancel_orders-IsWithdrawn_example =
    process_admin_cancel_orders-IsWithdrawn trading_runtime fixed_keys 1 cancel_accounts pool stored
      balances refl
