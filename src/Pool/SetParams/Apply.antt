-- ===== src/Pool/SetParams/Apply.antt =====
-- program/src/processor.rs: what `process_set_params` does for each parameter, and the whole instruction.
use raydium_amm_mod.Base.{
  ℕ, ◌%◌, Bool, true, false, not, ◌||◌, ◌&&◌, Option, none, some, List, [], ltb, leb, ◌!=◌,
  if◌then◌else◌,
}
use raydium_amm_mod.Error.{
  AmmError, Result, ok, err, amm as custom, ◌>>=◌, ◌>>◌, fail_if, require, ok_or,
}
use raydium_amm_mod.State.Fees.{validate, ten_thousand}
use raydium_amm_mod.State.AmmStatus.{valid_status}
use raydium_amm_mod.State.AmmState
use raydium_amm_mod.State.AmmState.{AmmState, valid_state}
use raydium_amm_mod.State.AmmParams
use raydium_amm_mod.State.AmmParams.{AmmParams}
use raydium_amm_mod.State.AmmResetFlag
use raydium_amm_mod.State.AmmResetFlag.{AmmResetFlag}
use raydium_amm_mod.State.AmmInfo.{AmmInfo, TargetOrders}
use raydium_amm_mod.Pool.Runtime.{
  Runtime, AccountInfo, Instruction, next_account_info, authority_id,
}
use raydium_amm_mod.Pool.Orders.{load_serum_market_order}
use raydium_amm_mod.Pool.CancelOrders.{do_cancel_amm_orders}
use raydium_amm_mod.Pool.Swap.{load_amm_checked}
use raydium_amm_mod.Pool.SetParams.{
  SetParamsInstruction, SetParamsAccounts, set_params_accounts, load_target_checked, ParamResult,
  require_empty_market,
}

-- `match setparams.value { Some(a) => a, None => return Err(InvalidInput) }`
abbrev pub given {ℓ} : {A : Type ℓ} → Option A → Result A
given m = ok_or m AmmError.invalid_input

-- The pool's account changes where the value is valid.
abbrev pub change : Bool → AmmInfo → AmmInfo → TargetOrders → ParamResult
change valid after before target =
    if valid
    then record { amm = after; target = target; set_valid = true }
    else record { amm = before; target = target; set_valid = false }

unfoldable pub apply_param :
    (r : Runtime)
    → ℕ
    → SetParamsAccounts
    → AmmParams
    → SetParamsInstruction
    → AmmInfo
    → TargetOrders
    → r.Ledger
    → Result ParamResult
apply_param r program_id a AmmParams.status set amm target ledger = do
  require_empty_market r a amm ledger
  value ← given set.value
  ok (change (valid_status value) (record amm { status = value }) amm target)
apply_param r program_id a AmmParams.state set amm target ledger = do
  value ← given set.value
  ok (change (valid_state value) (record amm { state = value }) amm target)
apply_param r program_id a AmmParams.order_num set amm target ledger = do
  value ← given set.value
  fail_if (ltb 10 value) AmmError.invalid_input
  ok (change true (record amm { order_num = value }) amm target)
apply_param r program_id a AmmParams.depth set amm target ledger = do
  value ← given set.value
  ok (change (ltb 0 value && ltb value 100) (record amm { depth = value }) amm target)
apply_param r program_id a AmmParams.amount_wave set amm target ledger = do
  value ← given set.value
  ok (change true (record amm { amount_wave = value }) amm target)
apply_param r program_id a AmmParams.min_price_multiplier set amm target ledger = do
  value ← given set.value
  ok (
      change (ltb value amm.max_price_multiplier) (record amm { min_price_multiplier = value }) amm
        target)
apply_param r program_id a AmmParams.max_price_multiplier set amm target ledger = do
  value ← given set.value
  ok (
      change (ltb amm.max_price_multiplier value) (record amm { max_price_multiplier = value }) amm
        target)
apply_param r program_id a AmmParams.vol_max_cut_ratio set amm target ledger = do
  value ← given set.value
  ok (change (leb value ten_thousand) (record amm { vol_max_cut_ratio = value }) amm target)
apply_param r program_id a AmmParams.seperate set amm target ledger = do
  value ← given set.value
  ok (
      change (leb value ten_thousand)
        (record amm { fees = record (amm.fees) { min_separate_numerator = value } }) amm target)
apply_param r program_id a AmmParams.fees set amm target ledger = do
  fees ← given set.fees
  validate fees
  ok (change true (record amm { fees = fees }) amm target)
apply_param r program_id a AmmParams.amm_owner set amm target ledger = do
  new_pubkey ← given set.new_pubkey
  ok (change true (record amm { amm_owner = new_pubkey }) amm target)
apply_param r program_id a AmmParams.set_open_time set amm target ledger = do
  value ← given set.value
  ok (
      change true (record amm { state_data = record (amm.state_data) { pool_open_time = value } })
        amm target)
apply_param r program_id a AmmParams.last_order_distance set amm target ledger = do
  loaded ← load_target_checked program_id a.amm_target_orders a.amm_account.key target
  distance ← given set.last_order_distance
  ok (
      change true amm amm (record loaded {
        last_order_numerator = distance.last_order_numerator;
        last_order_denominator = distance.last_order_denominator;
      }))
apply_param r program_id a AmmParams.init_order_depth set amm target ledger =
    ok (change true (record amm { order_num = 7; depth = 3 }) amm target)
apply_param r program_id a AmmParams.set_switch_time set amm target ledger = do
  value ← given set.value
  ok (
      change true
        (record amm { state_data = record (amm.state_data) { orderbook_to_init_time = value } }) amm
        target)
apply_param r program_id a AmmParams.clear_open_time set amm target ledger = ok (
    change true
      (record amm {
        state_data = record (amm.state_data) { pool_open_time = 0; orderbook_to_init_time = 0 };
      })
      amm target)
apply_param r program_id a AmmParams.update_open_order set amm target ledger = do
  (new_open_orders, _) ← next_account_info a.rest
  let updated = record amm { open_orders = new_open_orders.key }
  load_serum_market_order r ledger a.market.key new_open_orders.key a.amm_authority.key updated
        false
      >>= (λ loaded. ok (change true updated amm target))
apply_param r program_id a AmmParams.min_size set amm target ledger =
    err (custom AmmError.invalid_input)

module _ (r : Runtime) (amm_owner_id : ℕ) where
  open r use {Ledger, spl_token_id, invoke_signed, get_clock}

  unfoldable pub check_set_params : ℕ → SetParamsAccounts → AmmInfo → Result (Unit {0})
  check_set_params program_id a amm = do
    authority ← authority_id r program_id (amm.nonce % 256)
    fail_if (a.amm_authority.key != authority) AmmError.invalid_program_address
    fail_if (a.amm_account.owner != program_id) AmmError.invalid_owner
    fail_if (not a.amm_owner.is_signer || a.amm_owner.key != amm_owner_id)
        AmmError.invalid_sign_account
    fail_if (a.market_program.key != amm.market_program) AmmError.invalid_market_program
    fail_if (a.market.key != amm.market) AmmError.invalid_market
    fail_if (a.amm_open_orders.key != amm.open_orders) AmmError.invalid_open_orders
    fail_if (amm.coin_vault != a.amm_coin_vault.key) AmmError.invalid_coin_vault
    fail_if (amm.pc_vault != a.amm_pc_vault.key) AmmError.invalid_pc_vault
    fail_if (amm.target_orders != a.amm_target_orders.key) AmmError.invalid_target_orders
    ok tt

  -- The orders are cancelled and the market settled before any parameter is set.
  unfoldable pub withdraw_from_market : SetParamsAccounts → AmmInfo → Ledger → Result Ledger
  withdraw_from_market a amm ledger = do
    cancelled ←
        do_cancel_amm_orders r amm
          (record {
            dex_program = a.market_program.key;
            market = a.market.key;
            bids = a.market_bids.key;
            asks = a.market_asks.key;
            open_orders = a.amm_open_orders.key;
            open_orders_owner = a.amm_authority.key;
            event_q = a.market_event_q.key;
            client_order_ids = [];
          })
          ledger
    invoke_signed
        (Instruction.settle_funds (record {
          dex_program = a.market_program.key;
          market = a.market.key;
          open_orders = a.amm_open_orders.key;
          owner = a.amm_authority.key;
          coin_vault = a.market_coin_vault.key;
          pc_vault = a.market_pc_vault.key;
          coin_wallet = a.amm_coin_vault.key;
          pc_wallet = a.amm_pc_vault.key;
          vault_signer = a.market_vault_signer.key;
          spl_token_program = a.token_program.key;
          referrer_pc_wallet = none;
        }))
        (some (amm.nonce % 256)) cancelled

  unfoldable pub process_set_params :
      ℕ
      → List AccountInfo
      → SetParamsInstruction
      → AmmInfo
      → TargetOrders
      → Ledger
      → Result (AmmInfo × TargetOrders × Ledger)
  process_set_params program_id accounts set stored target ledger = do
    a ← set_params_accounts accounts
    fail_if (a.token_program.key != spl_token_id) AmmError.invalid_spl_token_program
    amm ← load_amm_checked program_id a.amm_account stored
    check_set_params program_id a amm
    settled ← withdraw_from_market a amm ledger
    param ← AmmParams.from_u64 set.param
    done ← apply_param r program_id a param set amm target settled
    require done.set_valid AmmError.invalid_params_set
    clock ← get_clock
    ok (
      record (done.amm) {
        state = AmmState.into_u64 AmmState.cancel_all_orders_state;
        reset_flag = AmmResetFlag.into_u64 AmmResetFlag.reset_yes;
        recent_epoch = clock.epoch;
      },
      done.target,
      settled,
    )
