-- ===== src/Math/Tests.antt =====
-- The calculations of program/src/math.rs at concrete amounts.
use raydium_amm_mod.Base.{
  ℕ, ◌+◌, ◌-◌, ◌*◌, ◌^◌, ◌≤◌, ◌<◌, ◌≡◌, refl, arith, true, some, List, [], ◌∷◌,
}
use raydium_amm_mod.Error.{ok}
use raydium_amm_mod.Word.{words}
use raydium_amm_mod.Checked.{add, mul, sub, div, pow}
use raydium_amm_mod.Math.Ceil.{checked_ceil_div, IsCeil, checked_ceil_div_large}
use raydium_amm_mod.Math.Decimals.{normalize_decimal_v2, restore_decimal, floor_lot}
use raydium_amm_mod.Math.Decimals.Laws.{restore-normalize, floor_lot_lem}
use raydium_amm_mod.Math.Fibonacci.{fibonacci, fibonacci-eq-fibs}
use raydium_amm_mod.Math.Invariant.{RoundDirection, exchange_pool_to_token, exchange_token_to_pool}
use raydium_amm_mod.Math.Invariant.Laws.{pool, deposit_withdraw_le, withdraw_keeps_value}
use raydium_amm_mod.Math.Swap.{SwapDirection, swap_token_amount_base_in, swap_token_amount_base_out}
use raydium_amm_mod.Math.Swap.Laws.{
  IsBestOut, IsExactOut, swap_token_amount_base_in-IsBestOut, swap_token_amount_base_out-IsExactOut,
}
use raydium_amm_mod.Math.Swap.RoundTrip.{swap_round_trip}
use raydium_amm_mod.Math.Vault.{
  Event, EventView, Side, apply_event, replay, calc_exact_vault_in_serum, add_less_pnl,
  calc_total_without_take_pnl,
}
use raydium_amm_mod.Math.Vault.Laws.{
  pc_paid, pc_received, coin_paid, coin_received, sum_own, calc_total_without_take_pnl_conserves,
}

checked_ceil_div_large_example :
    (q r : ℕ) × (checked_ceil_div 10 3 ≡ some (q, r)) × IsCeil 10 3 q × (10 ≤ q * r) × (r ≤ 3)
checked_ceil_div_large_example =
    checked_ceil_div_large 10 3 (omega arith) (omega arith) (omega arith)

swap_token_amount_base_in-IsBestOut_example :
    (out : ℕ) × (swap_token_amount_base_in 100 5000 1000 SwapDirection.coin2pc ≡ ok out)
    × IsBestOut 1000 5000 100 out
swap_token_amount_base_in-IsBestOut_example =
    swap_token_amount_base_in-IsBestOut 100 5000 1000 SwapDirection.coin2pc (omega arith)
      (omega arith) (omega arith) (omega arith)

swap_token_amount_base_out-IsExactOut_example :
    (amount_in : ℕ) × (swap_token_amount_base_out 70 5000 1000 SwapDirection.pc2coin ≡ ok amount_in)
    × IsExactOut 5000 1000 70 amount_in
swap_token_amount_base_out-IsExactOut_example =
    swap_token_amount_base_out-IsExactOut 70 5000 1000 SwapDirection.pc2coin (omega arith)
      (omega arith) (omega arith)

-- Selling 70 coins costs 377 of pc: 5000 * 70 / 930 is 376.3.
swap_round_trip_example :
    (out : ℕ) × (swap_token_amount_base_in 377 5000 1000 SwapDirection.pc2coin ≡ ok out)
    × (70 ≤ out)
unfolding swap_token_amount_base_out checked_ceil_div sub mul words
swap_round_trip_example =
    swap_round_trip 70 5000 1000 SwapDirection.pc2coin (omega arith) (omega arith) (omega arith)
      refl (omega arith) (omega arith)

-- A queue with a buy of the pool, a fill of another owner, and an order that left the book.
abbrev events : List Event
events =
    record { owner = 4; view = some (EventView.fill Side.bid true 30 7) }
    ∷ record { owner = 9; view = some (EventView.fill Side.ask true 1 1) }
    ∷ record { owner = 4; view = some EventView.out }
    ∷ []

calc_total_without_take_pnl_conserves_example :
    (1058 + 12 + sum_own pc_paid 4 events ≡ 1000 + 100 + sum_own pc_received 4 events)
    × (2054 + 3 + sum_own coin_paid 4 events ≡ 2000 + 50 + sum_own coin_received 4 events)
unfolding calc_total_without_take_pnl calc_exact_vault_in_serum replay apply_event add_less_pnl
    words add sub
calc_total_without_take_pnl_conserves_example =
    calc_total_without_take_pnl_conserves 1000 2000 100 50 12 3 events 4 refl

fibonacci-eq-fibs_example : fibonacci 7 ≡ ok (0 ∷ 1 ∷ 2 ∷ 3 ∷ 5 ∷ 8 ∷ 13 ∷ [])
fibonacci-eq-fibs_example = fibonacci-eq-fibs 7 (omega arith)

deposit_withdraw_le_example :
    (minted paid : ℕ) × (exchange_token_to_pool (pool 333 1000) 500 RoundDirection.floor
      ≡ ok (some minted))
    × (exchange_pool_to_token (pool minted (500 + minted)) (1000 + 333) RoundDirection.floor
        ≡ ok (some paid))
    × (paid ≤ 333)
    × (1000 * (500 + minted) ≤ (1000 + 333) * 500)
deposit_withdraw_le_example =
    deposit_withdraw_le 1000 500 333 (omega arith) (omega arith) (omega arith) (omega arith)
      (omega arith)

withdraw_keeps_value_example :
    (paid : ℕ) × (exchange_pool_to_token (pool 77 500) 1000 RoundDirection.floor ≡ ok (some paid))
    × (paid ≤ 1000)
    × (1000 * (500 - 77) ≤ (1000 - paid) * 500)
withdraw_keeps_value_example =
    withdraw_keeps_value 1000 500 77 (omega arith) (omega arith) (omega arith)

restore-normalize_example :
    (123_456_000 ≤ 123_456_789)
    × (123_456_789 * 1000 < (123_456 + 1) * 10 ^ 6)
    × (123_456 * 10 ^ 6 < (123_456_000 + 1) * 1000)
unfolding normalize_decimal_v2 restore_decimal mul div pow words
restore-normalize_example = restore-normalize 123_456_789 6 1000 refl refl

floor_lot_lem_example :
    (units r : ℕ) × (floor_lot 1234 100 ≡ ok r) × (r ≡ units * 100) × (r ≤ 1234) × (1234 < r + 100)
floor_lot_lem_example = floor_lot_lem 1234 100 (omega arith) (omega arith)
