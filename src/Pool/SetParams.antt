-- ===== src/Pool/SetParams.antt =====
-- program/src/processor.rs: `Processor::process_set_params`, with which the program's owner sets one
-- parameter of a pool. The owner's key is that of the program's configuration.
pub mod Apply
pub mod Laws
pub mod Owner
use raydium_amm_mod.Base.{
  ℕ, ◌%◌, Bool, true, false, not, ◌||◌, ◌&&◌, Option, none, some, List, [], ◌∷◌, ltb, leb, ◌==◌,
  ◌!=◌, if◌then◌else◌,
}
use raydium_amm_mod.Error.{
  AmmError, Result, ok, err, amm as custom, ◌>>=◌, ◌>>◌, fail_if, require, ok_or,
}
use raydium_amm_mod.Math.Decimals.{expect}
use raydium_amm_mod.Math.Vault.{calc_exact_vault_in_serum}
use raydium_amm_mod.State.Fees.{Fees, validate, ten_thousand}
use raydium_amm_mod.State.AmmStatus
use raydium_amm_mod.State.AmmState
use raydium_amm_mod.State.AmmState.{AmmState}
use raydium_amm_mod.State.AmmParams
use raydium_amm_mod.State.AmmParams.{AmmParams}
use raydium_amm_mod.State.AmmResetFlag
use raydium_amm_mod.State.AmmResetFlag.{AmmResetFlag}
use raydium_amm_mod.State.AmmInfo.{AmmInfo, StateData, TargetOrders}
use raydium_amm_mod.Pool.Runtime.{
  Runtime, AccountInfo, Clock, Instruction, Cancellation, Settlement, next_account_info,
  authority_id,
}
use raydium_amm_mod.Pool.Orders.{load_serum_market_order}
use raydium_amm_mod.Pool.CancelOrders.{do_cancel_amm_orders}
use raydium_amm_mod.Pool.Swap.{load_amm_checked}

pub record LastOrderDistance : Type 0 where
  pub last_order_numerator : ℕ
  pub last_order_denominator : ℕ

pub record SetParamsInstruction : Type 0 where
  pub param : ℕ
  pub value : Option ℕ
  pub new_pubkey : Option ℕ
  pub fees : Option Fees
  pub last_order_distance : Option LastOrderDistance

pub record SetParamsAccounts : Type 0 where
  pub token_program : AccountInfo
  pub amm_account : AccountInfo
  pub amm_authority : AccountInfo
  pub amm_open_orders : AccountInfo
  pub amm_target_orders : AccountInfo
  pub amm_coin_vault : AccountInfo
  pub amm_pc_vault : AccountInfo
  pub market_program : AccountInfo
  pub market : AccountInfo
  pub market_coin_vault : AccountInfo
  pub market_pc_vault : AccountInfo
  pub market_vault_signer : AccountInfo
  pub market_event_q : AccountInfo
  pub market_bids : AccountInfo
  pub market_asks : AccountInfo
  pub amm_owner : AccountInfo
  -- The accounts behind those, of which one parameter reads the next.
  pub rest : List AccountInfo

unfoldable pub set_params_accounts : List AccountInfo → Result SetParamsAccounts
set_params_accounts accounts = do
  (token_program, rest) ← next_account_info accounts
  (amm_account, rest) ← next_account_info rest
  (amm_authority, rest) ← next_account_info rest
  (amm_open_orders, rest) ← next_account_info rest
  (amm_target_orders, rest) ← next_account_info rest
  (amm_coin_vault, rest) ← next_account_info rest
  (amm_pc_vault, rest) ← next_account_info rest
  (market_program, rest) ← next_account_info rest
  (market, rest) ← next_account_info rest
  (market_coin_vault, rest) ← next_account_info rest
  (market_pc_vault, rest) ← next_account_info rest
  (market_vault_signer, rest) ← next_account_info rest
  (market_event_q, rest) ← next_account_info rest
  (market_bids, rest) ← next_account_info rest
  (market_asks, rest) ← next_account_info rest
  (amm_owner, rest) ← next_account_info rest
  ok (record {
    token_program = token_program;
    amm_account = amm_account;
    amm_authority = amm_authority;
    amm_open_orders = amm_open_orders;
    amm_target_orders = amm_target_orders;
    amm_coin_vault = amm_coin_vault;
    amm_pc_vault = amm_pc_vault;
    market_program = market_program;
    market = market;
    market_coin_vault = market_coin_vault;
    market_pc_vault = market_pc_vault;
    market_vault_signer = market_vault_signer;
    market_event_q = market_event_q;
    market_bids = market_bids;
    market_asks = market_asks;
    amm_owner = amm_owner;
    rest = rest;
  })

-- `TargetOrders::load_mut_checked`, on the data `target` of the account, of 2208 bytes.
unfoldable pub load_target_checked : ℕ → AccountInfo → ℕ → TargetOrders → Result TargetOrders
load_target_checked program_id account owner target = do
  fail_if (account.owner != program_id) AmmError.invalid_target_account_owner
  fail_if (account.data_len != 2208) AmmError.expected_account
  fail_if (target.owner != owner) AmmError.invalid_target_owner
  ok target

-- The two accounts that a parameter changes, and `set_valid`.
pub record ParamResult : Type 0 where
  pub amm : AmmInfo
  pub target : TargetOrders
  pub set_valid : Bool

module _ (r : Runtime) where
  open r use {Ledger, spl_token_id, invoke_signed, get_clock, load_event_queue}

  -- The guard of `AmmParams::Status`: the pool has nothing left in the market.
  unfoldable pub require_empty_market : SetParamsAccounts → AmmInfo → Ledger → Result (Unit {0})
  require_empty_market a amm ledger = do
    (market_state, open_orders) ←
        load_serum_market_order r ledger a.market.key a.amm_open_orders.key a.amm_authority.key amm
          false
    (shared_pc, shared_coin) ← expect (
        calc_exact_vault_in_serum open_orders.native_pc_total open_orders.native_coin_total
          (load_event_queue ledger market_state a.market_event_q.key) a.amm_open_orders.key)
    fail_if (shared_pc != 0 || shared_coin != 0) AmmError.invalid_input
    ok tt
