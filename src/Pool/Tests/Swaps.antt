-- ===== src/Pool/Tests/Swaps.antt =====
-- Swaps of program/src/processor.rs, run on a small token program.
use raydium_amm_mod.Base.{ℕ, ◌≡◌, refl, arith, some}
use raydium_amm_mod.Word.{words}
use raydium_amm_mod.Checked.{add, mul, sub, div, cast}
use raydium_amm_mod.Math.Ceil.{checked_ceil_div}
use raydium_amm_mod.Math.Swap.{SwapDirection, swap_token_amount_base_in, swap_token_amount_base_out}
use raydium_amm_mod.Math.Vault.{calc_total_without_take_pnl_no_orderbook}
use raydium_amm_mod.State.AmmStatus
use raydium_amm_mod.Pool.Swap.{
  swap_accounts, load_amm_checked, check_swap_accounts, update_swap_status, swap_totals,
  find_direction,
}
use raydium_amm_mod.Pool.Swap.Setup.{StatusStep, update_swap_status-StatusStep}
use raydium_amm_mod.Pool.Swap.Quote.Laws.{
  BaseInOutcome, quote_base_in-BaseInOutcome, swap_token_amount_base_out-panics,
}
use raydium_amm_mod.Pool.Swap.Run.{run_swap, swap_loaded}
use raydium_amm_mod.Pool.Swap.Quote.{quote_base_in, quote_base_out, base_in_fee, add_fee}
use raydium_amm_mod.Pool.Swap.Execute.{release_funds, pay, record_swap, execute_swap}
use raydium_amm_mod.State.AmmInfo.{AmmInfo}
use raydium_amm_mod.Pool.Swap.BaseIn.{SwapInstructionBaseIn, process_swap_base_in}
use raydium_amm_mod.Pool.Swap.BaseIn.Laws.{SwapsBaseIn, process_swap_base_in-IsSwap}
use raydium_amm_mod.Pool.Swap.BaseOut.{
  settle_coin_vault, SwapInstructionBaseOut, process_swap_base_out,
}
use raydium_amm_mod.Pool.Swap.BaseOut.Laws.{SwapsBaseOut, process_swap_base_out-IsSwap}
use raydium_amm_mod.Error.{Failure, Result, ok, err}
use raydium_amm_mod.Pool.Runtime.{
  unpack_token_account, authority_id, token_transfer, token_transfer_with_authority,
}
use raydium_amm_mod.Pool.Tests.World.{
  Balances, runtime, transfer_laws, pool_fees, pool_data, pool, accounts, balances,
}

abbrev result_of : Result (AmmInfo × Balances) → AmmInfo × Balances
result_of (ok after) = after
result_of (err e) = (pool, balances)

-- All that a swap runs, to be unfolded at once.
unfoldable swap_run : ℕ
unfolding process_swap_base_in process_swap_base_out run_swap swap_loaded swap_accounts
    load_amm_checked check_swap_accounts update_swap_status swap_totals find_direction quote_base_in
    quote_base_out base_in_fee add_fee settle_coin_vault release_funds pay record_swap execute_swap
    unpack_token_account authority_id token_transfer token_transfer_with_authority checked_ceil_div
    swap_token_amount_base_in swap_token_amount_base_out calc_total_without_take_pnl_no_orderbook
    words add mul sub div cast AmmStatus.from_u64 AmmStatus.into_u64 AmmStatus.swap_permission
    AmmStatus.orderbook_permission
swap_run = 0

abbrev swap_in : SwapInstructionBaseIn
swap_in = record { amount_in = 10_000; minimum_amount_out = 19_000 }

abbrev after_in : AmmInfo × Balances
after_in = result_of (process_swap_base_in runtime 1 accounts swap_in pool balances)

process_swap_base_in-IsSwap_example :
    SwapsBaseIn runtime swap_in pool balances after_in.0 after_in.1
unfolding swap_run
process_swap_base_in-IsSwap_example =
    process_swap_base_in-IsSwap runtime transfer_laws 1 accounts swap_in pool balances refl refl
      (ground arith) (omega arith) (omega arith) (omega arith) refl

abbrev swap_out : SwapInstructionBaseOut
swap_out = record { max_amount_in = 10_000; amount_out = 15_000 }

abbrev after_out : AmmInfo × Balances
after_out = result_of (process_swap_base_out runtime 1 accounts swap_out pool balances)

process_swap_base_out-IsSwap_example :
    SwapsBaseOut runtime swap_out pool balances after_out.0 after_out.1
unfolding swap_run
process_swap_base_out-IsSwap_example =
    process_swap_base_out-IsSwap runtime transfer_laws 1 accounts swap_out pool balances refl refl
      (ground arith) (omega arith) refl

quote_base_in-BaseInOutcome_example :
    BaseInOutcome pool_fees 50_000 10_000 19_000 1_000_000 2_000_000
      (quote_base_in pool_fees 50_000 10_000 19_000 2_000_000 1_000_000 SwapDirection.coin2pc)
quote_base_in-BaseInOutcome_example =
    quote_base_in-BaseInOutcome pool_fees 50_000 10_000 19_000 2_000_000 1_000_000
      SwapDirection.coin2pc (omega arith) (omega arith) (omega arith) (omega arith) (omega arith)
      (omega arith)

swap_token_amount_base_out-panics_example :
    swap_token_amount_base_out 1_000_000 2_000_000 1_000_000 SwapDirection.pc2coin
    ≡ err Failure.panicked
swap_token_amount_base_out-panics_example =
    swap_token_amount_base_out-panics 1_000_000 2_000_000 1_000_000 SwapDirection.pc2coin
      (omega arith)

update_swap_status-StatusStep_example :
    (record pool { status = 6 } ≡ record pool { status = 6 }) × StatusStep pool_data (some 100) 7 6
unfolding swap_run
update_swap_status-StatusStep_example = update_swap_status-StatusStep runtime pool refl
