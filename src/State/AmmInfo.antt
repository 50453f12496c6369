-- ===== src/State/AmmInfo.antt =====
-- program/src/state.rs: `TargetOrders`, `StateData` and `AmmInfo`. Paddings are left out; a key is the
-- number that its 32 bytes spell.
pub mod Laws
use raydium_amm_mod.Base.{
  ℕ, ◌+◌, ◌-◌, ◌%◌, ◌^◌, ◌≤◌, ◌<◌, ◌≡◌, arith, Option, none, some, List, ltb, leb, ◌==◌, ◌!=◌,
  if◌then◌else◌,
}
use raydium_amm_mod.Error.{AmmError, Result, ok, err, amm, ◌>>=◌, ◌>>◌, unwrap, fail_if}
use raydium_amm_mod.Checked.{mul, div, pow}
use raydium_amm_mod.Math.Decimals.{to_u64, convert_in_pc_lot_size, expect}
use raydium_amm_mod.State.Fees.{Fees}
use raydium_amm_mod.State.Fees
use raydium_amm_mod.State.AmmStatus
use raydium_amm_mod.State.AmmStatus.{AmmStatus}
use raydium_amm_mod.State.AmmState
use raydium_amm_mod.State.AmmState.{AmmState}
use raydium_amm_mod.State.AmmResetFlag
use raydium_amm_mod.State.AmmResetFlag.{AmmResetFlag}

pub record TargetOrder : Type 0 where
  pub price : ℕ
  pub vol : ℕ

pub record TargetOrders : Type 0 where
  pub owner : ℕ
  pub buy_orders : List TargetOrder
  pub target_x : ℕ
  pub target_y : ℕ
  pub plan_x_buy : ℕ
  pub plan_y_buy : ℕ
  pub plan_x_sell : ℕ
  pub plan_y_sell : ℕ
  pub placed_x : ℕ
  pub placed_y : ℕ
  pub calc_pnl_x : ℕ
  pub calc_pnl_y : ℕ
  pub sell_orders : List TargetOrder
  pub replace_buy_client_id : List ℕ
  pub replace_sell_client_id : List ℕ
  pub last_order_numerator : ℕ
  pub last_order_denominator : ℕ
  pub plan_orders_cur : ℕ
  pub place_orders_cur : ℕ
  pub valid_buy_order_num : ℕ
  pub valid_sell_order_num : ℕ
  pub free_slot_bits : ℕ

-- `TargetOrders::check_init`. The key of all zeros is `Pubkey::default()`.
unfoldable pub check_init : TargetOrders → ℕ → ℕ → ℕ → Result TargetOrders
check_init self x y owner = do
  fail_if (self.owner != 0) AmmError.already_in_use
  ok (record self {
    owner = owner;
    last_order_numerator = 0;
    last_order_denominator = 0;
    plan_orders_cur = 0;
    place_orders_cur = 0;
    valid_buy_order_num = 0;
    valid_sell_order_num = 0;
    target_x = 0;
    target_y = 0;
    plan_x_buy = 0;
    plan_y_buy = 0;
    plan_x_sell = 0;
    plan_y_sell = 0;
    placed_x = 0;
    placed_y = 0;
    calc_pnl_x = x;
    calc_pnl_y = y;
    free_slot_bits = 2 ^ 128 - 1;
  })

pub record StateData : Type 0 where
  pub need_take_pnl_coin : ℕ
  pub need_take_pnl_pc : ℕ
  pub total_pnl_pc : ℕ
  pub total_pnl_coin : ℕ
  pub pool_open_time : ℕ
  pub orderbook_to_init_time : ℕ
  pub swap_coin_in_amount : ℕ
  pub swap_pc_out_amount : ℕ
  pub swap_acc_pc_fee : ℕ
  pub swap_pc_in_amount : ℕ
  pub swap_coin_out_amount : ℕ
  pub swap_acc_coin_fee : ℕ

unfoldable pub initialize_data : StateData → ℕ → Result StateData
initialize_data self open_time = ok (record self {
  need_take_pnl_coin = 0;
  need_take_pnl_pc = 0;
  total_pnl_pc = 0;
  total_pnl_coin = 0;
  pool_open_time = open_time;
  orderbook_to_init_time = 0;
  swap_coin_in_amount = 0;
  swap_pc_out_amount = 0;
  swap_acc_pc_fee = 0;
  swap_pc_in_amount = 0;
  swap_coin_out_amount = 0;
  swap_acc_coin_fee = 0;
})

pub record AmmInfo : Type 0 where
  pub status : ℕ
  pub nonce : ℕ
  pub order_num : ℕ
  pub depth : ℕ
  pub coin_decimals : ℕ
  pub pc_decimals : ℕ
  pub state : ℕ
  pub reset_flag : ℕ
  pub min_size : ℕ
  pub vol_max_cut_ratio : ℕ
  pub amount_wave : ℕ
  pub coin_lot_size : ℕ
  pub pc_lot_size : ℕ
  pub min_price_multiplier : ℕ
  pub max_price_multiplier : ℕ
  pub sys_decimal_value : ℕ
  pub fees : Fees
  pub state_data : StateData
  pub coin_vault : ℕ
  pub pc_vault : ℕ
  pub coin_vault_mint : ℕ
  pub pc_vault_mint : ℕ
  pub lp_mint : ℕ
  pub open_orders : ℕ
  pub market : ℕ
  pub market_program : ℕ
  pub target_orders : ℕ
  pub amm_owner : ℕ
  pub lp_amount : ℕ
  pub client_order_id : ℕ
  pub recent_epoch : ℕ

-- `temp_value_numerator` over `temp_value_denominator`: a lot of coin in lots of pc.
unfoldable pub lot_ratio : ℕ → ℕ → ℕ → ℕ → Result ℕ
lot_ratio coin_decimals pc_decimals coin_lot_size pc_lot_size = do
  pc_ten ← pow 128 10 pc_decimals
  numerator ← mul 128 coin_lot_size pc_ten
  coin_ten ← pow 128 10 coin_decimals
  denominator ← mul 128 pc_lot_size coin_ten
  div numerator denominator

-- The value to which amounts are normalised: a power of ten, or the lot ratio where that is no smaller.
unfoldable pub choose_sys_decimal : ℕ → ℕ → ℕ → ℕ → Result ℕ
choose_sys_decimal coin_decimals pc_decimals coin_lot_size pc_lot_size = do
  power ← (if ltb coin_decimals pc_decimals then pow 64 10 pc_decimals else pow 64 10 coin_decimals)
  ratio ← lot_ratio coin_decimals pc_decimals coin_lot_size pc_lot_size
  if leb power ratio then expect (to_u64 ratio) else ok power

unfoldable pub choose_min_size : ℕ → ℕ → ℕ → Result ℕ
choose_min_size coin_decimals coin_lot_size sys_decimal_value = do
  scaled ← mul 128 coin_lot_size sys_decimal_value
  ten ← pow 128 10 coin_decimals
  min_size ← div scaled ten
  if ltb min_size (2 ^ 64 - 1) then to_u64 min_size else ok 0

-- `AmmInfo::initialize`; `recent_epoch` is what the clock gives, `none` where it fails.
unfoldable pub initialize : AmmInfo → ℕ → ℕ → ℕ → ℕ → ℕ → ℕ → Option ℕ → Result AmmInfo
unfolding choose_sys_decimal choose_min_size lot_ratio
initialize self nonce open_time coin_decimals pc_decimals coin_lot_size pc_lot_size clock = do
  fees ← Fees.initialize self.fees
  state_data ← initialize_data self.state_data open_time
  sys_decimal_value ← choose_sys_decimal coin_decimals pc_decimals coin_lot_size pc_lot_size
  min_size ← choose_min_size coin_decimals coin_lot_size sys_decimal_value
  wave ← mul 64 sys_decimal_value 5
  amount_wave ← div wave 1000
  internal_pc_lot_size ←
      convert_in_pc_lot_size pc_decimals coin_decimals pc_lot_size coin_lot_size sys_decimal_value
  epoch ← unwrap clock
  ok (record self {
    fees = fees;
    state_data = state_data;
    status = AmmStatus.into_u64 AmmStatus.uninitialized;
    nonce = nonce;
    order_num = 7;
    depth = 3;
    coin_decimals = coin_decimals;
    pc_decimals = pc_decimals;
    state = AmmState.into_u64 AmmState.idle_state;
    reset_flag = AmmResetFlag.into_u64 AmmResetFlag.reset_no;
    sys_decimal_value = sys_decimal_value;
    min_size = min_size;
    vol_max_cut_ratio = 500;
    amount_wave = amount_wave;
    coin_lot_size = coin_lot_size;
    pc_lot_size = internal_pc_lot_size;
    min_price_multiplier = 1;
    max_price_multiplier = 1_000_000_000;
    client_order_id = 0;
    recent_epoch = epoch;
  })

-- `wrapping_add(1)`, and 1 in place of 0.
unfoldable pub incr_client_order_id : AmmInfo → AmmInfo × ℕ
incr_client_order_id self =
    let next = (self.client_order_id + 1) % 2 ^ 64 in
    let id = if next == 0 then next + 1 else next in (record self { client_order_id = id }, id)
