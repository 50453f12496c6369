-- ===== src/Pool/Swap/BaseOut/Laws.antt =====
-- What a successful `process_swap_base_out` of program/src/processor.rs has done.
use raydium_amm_mod.Base.{ℕ, ◌-◌, ◌*◌, ◌≤◌, ◌<◌, ◌≡◌, ◌≢◌, false, List}
use raydium_amm_mod.Error.{ok}
use raydium_amm_mod.Math.Ceil.{IsCeil}
use raydium_amm_mod.Math.Swap.{SwapDirection}
use raydium_amm_mod.Math.Swap.Laws.{reserve_in, reserve_out, IsLeastIn}
use raydium_amm_mod.State.AmmStatus
use raydium_amm_mod.State.AmmStatus.{AmmStatus}
use raydium_amm_mod.State.AmmInfo.{AmmInfo}
use raydium_amm_mod.Pool.Runtime.{Runtime, AccountInfo, TransferLaws}
use raydium_amm_mod.Pool.Swap.Quote.{SwapAmounts}
use raydium_amm_mod.Pool.Swap.Quote.Success.{quote_base_out-eq-ok}
use raydium_amm_mod.Pool.Swap.Outcome.{IsSwap, balance, free_pc, free_coin}
use raydium_amm_mod.Pool.Swap.Run.{run_swap-Swapped}
use raydium_amm_mod.Pool.Swap.BaseOut.{
  SwapInstructionBaseOut, settle_coin_vault, quote_of_base_out, process_swap_base_out,
}

-- The swap that a success of the instruction stands for.
abbrev pub SwapsBaseOut :
    (r : Runtime) → SwapInstructionBaseOut → AmmInfo → r.Ledger → AmmInfo → r.Ledger → Type 0
SwapsBaseOut r swap stored ledger amm ledger' =
    (direction : SwapDirection) × (s : SwapAmounts) × IsSwap r direction s stored ledger amm ledger'
    × (s.amount_out ≡ swap.amount_out)
    × (s.amount_in ≤ swap.max_amount_in)
    × IsLeastIn (reserve_in direction (free_pc r stored ledger) (free_coin r stored ledger))
        (reserve_out direction (free_pc r stored ledger) (free_coin r stored ledger))
        swap.amount_out (s.amount_in - s.swap_fee)
    × IsCeil ((s.amount_in - s.swap_fee) * stored.fees.swap_fee_denominator)
        (stored.fees.swap_fee_denominator - stored.fees.swap_fee_numerator) s.amount_in

-- Under the laws of transfers, without an order book, with two vaults and a fee below one, a successful `process_swap_base_out` is a
-- swap (`IsSwap`) that pays out exactly the output asked for and takes at most the maximum. What it takes
-- before the fee is the least for which the product of what the depositors held does not fall, and the fee
-- is added to it rounded up.
pub process_swap_base_out-IsSwap :
    (r : Runtime) (laws : TransferLaws r) (program_id : ℕ) (accounts : List AccountInfo)
    (swap : SwapInstructionBaseOut) (stored : AmmInfo) (ledger : r.Ledger) {status : AmmStatus}
    {amm : AmmInfo} {ledger' : r.Ledger}
    → AmmStatus.from_u64 stored.status ≡ ok status
    → AmmStatus.orderbook_permission status ≡ false
    → stored.pc_vault ≢ stored.coin_vault
    → stored.fees.swap_fee_numerator < stored.fees.swap_fee_denominator
    → process_swap_base_out r program_id accounts swap stored ledger ≡ ok (amm, ledger')
    → SwapsBaseOut r swap stored ledger amm ledger'
unfolding process_swap_base_out
process_swap_base_out-IsSwap r laws program_id accounts swap stored ledger read closed apart hf e =
    let (direction, s, payer, done, hp, hc, quoted) =
      run_swap-Swapped r laws (quote_of_base_out swap) settle_coin_vault program_id accounts stored
        ledger read closed
        (λ user_amount pc coin direction s hp hc q.
          (quote_base_out-eq-ok stored.fees user_amount swap.max_amount_in swap.amount_out pc coin
            direction hf hp hc q).0)
        apart e in
    let (_, same, enough, _, least, ceil) =
      quote_base_out-eq-ok stored.fees (balance r ledger payer) swap.max_amount_in swap.amount_out
        (free_pc r stored ledger) (free_coin r stored ledger) direction hf hp hc quoted in
    (direction, s, done, same, enough, least, ceil)
