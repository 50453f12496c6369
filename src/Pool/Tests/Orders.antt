-- ===== src/Pool/Tests/Orders.antt =====
-- Order ids and profit of program/src/processor.rs at concrete values.
use raydium_amm_mod.Base.{
  ℕ, ◌*◌, ◌^◌, ◌≤◌, ◌<◌, ◌≡◌, ◌≢◌, refl, arith, [], ◌∷◌, ◌==◌, if◌then◌else◌,
}
use raydium_amm_mod.Word.{words}
use raydium_amm_mod.Checked.{add, mul, sub, div, pow, cast}
use raydium_amm_mod.State.AmmInfo.Laws.{incr_client_order_id_lem}
use raydium_amm_mod.Math.Decimals.{restore_decimal, calc_x_power, to_u64}
use raydium_amm_mod.Math.OrderSize.{get_max_buy_size_at_price, get_max_sell_size_at_price}
use raydium_amm_mod.Math.OrderSize.Laws.{
  IsQuotient, IsBuySize, IsSellSize, get_max_buy_size_at_price-IsBuySize,
  get_max_sell_size_at_price-IsSellSize,
}
use raydium_amm_mod.Pool.Pnl.{
  PnlResult, pnl_share, take_pnl, reserves_at_last_k, calc_growth, calc_take_pnl,
}
use raydium_amm_mod.Pool.Pnl.Laws.{Moves, calc_take_pnl-Moves}
use raydium_amm_mod.Pool.Orders.{order_batches}
use raydium_amm_mod.Pool.Orders.Batches.{Cancels, order_batches-Cancels}
use raydium_amm_mod.State.AmmInfo.{TargetOrders, incr_client_order_id}
use raydium_amm_mod.Error.{AmmError, Failure, ok, err}
use raydium_amm_mod.Pool.Tests.World.{pool_data, pool}

order_batches-Cancels_example :
    Cancels
      (3 ∷ 5 ∷ 7 ∷ 9 ∷ 11 ∷ 13 ∷ 15 ∷ 17 ∷ 19 ∷ [])
      (order_batches (3 ∷ 5 ∷ 7 ∷ 9 ∷ 11 ∷ 13 ∷ 15 ∷ 17 ∷ 19 ∷ []) [] 0)
order_batches-Cancels_example = order_batches-Cancels (3 ∷ 5 ∷ 7 ∷ 9 ∷ 11 ∷ 13 ∷ 15 ∷ 17 ∷ 19 ∷ [])

incr_client_order_id_lem_example :
    (0 < (incr_client_order_id pool).1)
    × ((incr_client_order_id pool).1 < 2 ^ 64)
    × ((incr_client_order_id pool).1 ≢ 0)
    × ((incr_client_order_id pool).0
        ≡ record pool { client_order_id = (incr_client_order_id pool).1 })
incr_client_order_id_lem_example = incr_client_order_id_lem pool (omega arith)

-- The target orders of a pool whose last profit was taken at 2000 of pc and 1000 of coin.
abbrev pub target : TargetOrders
target = record {
  owner = 2;
  buy_orders = [];
  target_x = 0;
  target_y = 0;
  plan_x_buy = 0;
  plan_y_buy = 0;
  plan_x_sell = 0;
  plan_y_sell = 0;
  placed_x = 0;
  placed_y = 0;
  calc_pnl_x = 2_000;
  calc_pnl_y = 1_000;
  sell_orders = [];
  replace_buy_client_id = [];
  replace_sell_client_id = [];
  last_order_numerator = 0;
  last_order_denominator = 0;
  plan_orders_cur = 0;
  place_orders_cur = 0;
  valid_buy_order_num = 0;
  valid_sell_order_num = 0;
  free_slot_bits = 0;
}

-- The square root of the last product at the present price: 2000 * 1000 * 4000 / 1000.
abbrev root : ℕ → ℕ
root n = if n == 8_000_000 then 2_828 else 0

calc_take_pnl-Moves_example :
    (4_000 * 1_000 < 2_000 * 1_000
      → calc_take_pnl root target pool 4_000 1_000 4_000 1_000
        ≡ err (Failure.amm AmmError.calc_pnl_error))
    × ((r : PnlResult)
        → calc_take_pnl root target pool 4_000 1_000 4_000 1_000 ≡ ok r
        → (2_000 * 1_000 ≤ 4_000 * 1_000) × Moves pool 4_000 1_000 4_000 1_000 r)
unfolding restore_decimal mul div pow words
calc_take_pnl-Moves_example =
    calc_take_pnl-Moves root target pool 4_000 1_000 4_000 1_000 refl refl (omega arith)
      (omega arith)

abbrev pnl_after : PnlResult
pnl_after = record {
  delta_x = 140;
  delta_y = 35;
  amm = record pool {
    state_data = record pool_data {
      total_pnl_pc = 1172;
      total_pnl_coin = 293;
      need_take_pnl_pc = 190;
      need_take_pnl_coin = 135;
    };
  };
  total_pc = 3_860;
  total_coin = 965;
}

calc_take_pnl_run : calc_take_pnl root target pool 4_000 1_000 4_000 1_000 ≡ ok pnl_after
unfolding calc_take_pnl calc_growth reserves_at_last_k take_pnl pnl_share calc_x_power
    restore_decimal add mul sub div pow cast words
calc_take_pnl_run = refl

get_max_buy_size_at_price-IsBuySize_example :
    (price_with_fee : ℕ) × IsQuotient (2_000_000 * 10_025) 10_000 price_with_fee
    × IsBuySize price_with_fee (1_000_000 * 1_000_000) 400_000 98753
unfolding get_max_buy_size_at_price to_u64 add mul div words
get_max_buy_size_at_price-IsBuySize_example =
    get_max_buy_size_at_price-IsBuySize 2_000_000 1_000_000 400_000 pool refl

get_max_sell_size_at_price-IsSellSize_example :
    (price_with_fee : ℕ) × IsQuotient (2_000_000 * 10_000) 10_025 price_with_fee
    × IsSellSize price_with_fee (1_000_000 * 1_000_000) 600_000 98750
unfolding get_max_sell_size_at_price to_u64 add mul div words
get_max_sell_size_at_price-IsSellSize_example =
    get_max_sell_size_at_price-IsSellSize 2_000_000 1_000_000 600_000 pool refl
