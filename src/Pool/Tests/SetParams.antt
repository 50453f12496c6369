-- ===== src/Pool/Tests/SetParams.antt =====
-- Parameters set with program/src/processor.rs, and the orders that are cancelled first.
use raydium_amm_mod.Base.{ℕ, ◌≡◌, refl, arith, none, some, List, [], ◌∷◌, map}
use raydium_amm_mod.Word.{words}
use raydium_amm_mod.Checked.{add, sub}
use raydium_amm_mod.Error.{Result, ok, err}
use raydium_amm_mod.Math.Vault.{apply_event, replay, calc_exact_vault_in_serum}
use raydium_amm_mod.State.AmmStatus
use raydium_amm_mod.State.AmmStatus.{valid_status}
use raydium_amm_mod.State.AmmState
use raydium_amm_mod.State.AmmParams
use raydium_amm_mod.State.AmmResetFlag
use raydium_amm_mod.State.AmmInfo.{AmmInfo, TargetOrders}
use raydium_amm_mod.Pool.Runtime.{AccountInfo, authority_id}
use raydium_amm_mod.Pool.Orders.{
  load_serum_market_order, insert_by, sort_onto, collect_orders, get_amm_orders, cancel_batches,
}
use raydium_amm_mod.Pool.Orders.Batches.{Cancels}
use raydium_amm_mod.Pool.CancelOrders.{put_id, end_round, both_batches, do_cancel_amm_orders}
use raydium_amm_mod.Pool.CancelOrders.Laws.{interleave, both_batches-Cancels}
use raydium_amm_mod.Pool.Swap.{load_amm_checked}
use raydium_amm_mod.Pool.SetParams.{
  SetParamsInstruction, set_params_accounts, load_target_checked, require_empty_market,
}
use raydium_amm_mod.Pool.SetParams.Apply.{
  apply_param, check_set_params, withdraw_from_market, process_set_params,
}
use raydium_amm_mod.Pool.SetParams.Owner.{IsParamSet, process_set_params-IsParamSet}
use raydium_amm_mod.Pool.Tests.World.{Balances, runtime, pool, account, balances}
use raydium_amm_mod.Pool.Tests.Orders.{target}

both_batches-Cancels_example :
    (batches : List (List ℕ)) × (both_batches (1 ∷ 2 ∷ 3 ∷ []) (4 ∷ 5 ∷ 6 ∷ 7 ∷ 8 ∷ 9 ∷ []) [] 0
      ≡ ok batches)
    × Cancels (interleave (1 ∷ 2 ∷ 3 ∷ []) (4 ∷ 5 ∷ 6 ∷ 7 ∷ 8 ∷ 9 ∷ [])) batches
both_batches-Cancels_example = both_batches-Cancels (1 ∷ 2 ∷ 3 ∷ []) (4 ∷ 5 ∷ 6 ∷ 7 ∷ 8 ∷ 9 ∷ [])

-- The status is set to `SwapOnly`.
abbrev set_status : SetParamsInstruction
set_status = record {
  param = 0;
  value = some 6;
  new_pubkey = none;
  fees = none;
  last_order_distance = none;
}

-- The accounts of the instruction; 40 is the key of the program's owner.
abbrev owner_accounts : List AccountInfo
owner_accounts =
    map account (1 ∷ 2 ∷ 3 ∷ 4 ∷ 7 ∷ 10 ∷ 11 ∷ 6 ∷ 5 ∷ 33 ∷ 34 ∷ 35 ∷ 32 ∷ 30 ∷ 31 ∷ 40 ∷ [])

abbrev result_of : Result (AmmInfo × TargetOrders × Balances) → AmmInfo × TargetOrders × Balances
result_of (ok after) = after
result_of (err e) = (pool, target, balances)

abbrev after_set : AmmInfo × TargetOrders × Balances
after_set =
    result_of (process_set_params runtime 40 1 owner_accounts set_status pool target balances)

unfoldable set_params_run : ℕ
unfolding process_set_params set_params_accounts load_amm_checked check_set_params
    withdraw_from_market apply_param require_empty_market load_target_checked
    load_serum_market_order do_cancel_amm_orders both_batches end_round put_id get_amm_orders
    collect_orders sort_onto insert_by cancel_batches calc_exact_vault_in_serum replay apply_event
    authority_id words add sub AmmStatus.valid_status AmmStatus.into_u64 AmmState.into_u64
    AmmParams.from_u64 AmmResetFlag.into_u64
set_params_run = 0

process_set_params-IsParamSet_example : IsParamSet 40 owner_accounts pool after_set.0
unfolding set_params_run
process_set_params-IsParamSet_example =
    process_set_params-IsParamSet runtime 40 1 owner_accounts set_status pool target balances
      (record { fee = omega arith; status = refl; orders = omega arith }) refl
