-- ===== src/Pool/Swap/BaseIn/Laws.antt =====
-- What a successful `process_swap_base_in` of program/src/processor.rs has done.
use raydium_amm_mod.Base.{ℕ, ◌-◌, ◌^◌, ◌≤◌, ◌<◌, ◌≡◌, ◌≢◌, false, List}
use raydium_amm_mod.Error.{ok}
use raydium_amm_mod.Math.Swap.{SwapDirection}
use raydium_amm_mod.Math.Swap.Laws.{reserve_in, reserve_out, IsBestOut}
use raydium_amm_mod.State.AmmStatus
use raydium_amm_mod.State.AmmStatus.{AmmStatus}
use raydium_amm_mod.State.AmmInfo.{AmmInfo}
use raydium_amm_mod.Pool.Runtime.{Runtime, AccountInfo, TransferLaws}
use raydium_amm_mod.Pool.Swap.Quote.{SwapAmounts}
use raydium_amm_mod.Pool.Swap.Quote.Laws.{IsBaseInFee}
use raydium_amm_mod.Pool.Swap.Quote.Success.{quote_base_in-eq-ok}
use raydium_amm_mod.Pool.Swap.Outcome.{IsSwap, balance, free_pc, free_coin}
use raydium_amm_mod.Pool.Swap.Run.{run_swap-Swapped}
use raydium_amm_mod.Pool.Swap.BaseIn.{SwapInstructionBaseIn, quote_of_base_in, process_swap_base_in}

-- The swap that a success of the instruction stands for.
abbrev pub SwapsBaseIn :
    (r : Runtime) → SwapInstructionBaseIn → AmmInfo → r.Ledger → AmmInfo → r.Ledger → Type 0
SwapsBaseIn r swap stored ledger amm ledger' =
    (direction : SwapDirection) × (s : SwapAmounts) × IsSwap r direction s stored ledger amm ledger'
    × (s.amount_in ≡ swap.amount_in)
    × (swap.minimum_amount_out ≤ s.amount_out)
    × IsBestOut (reserve_in direction (free_pc r stored ledger) (free_coin r stored ledger))
        (reserve_out direction (free_pc r stored ledger) (free_coin r stored ledger))
        (swap.amount_in - s.swap_fee) s.amount_out
    × IsBaseInFee stored.fees swap.amount_in s.swap_fee

-- Under the laws of transfers, without an order book, with two vaults, a fee below one, and the fee and the
-- payment in `u64`, a successful `process_swap_base_in` is a swap (`IsSwap`) of exactly the payment asked
-- for. Its fee is that of the pool's fees, rounded up where it comes to one unit and to the nearest number
-- below that. It pays out at least the minimum, and the most, after that fee, for which the product of what
-- the depositors held does not fall.
pub process_swap_base_in-IsSwap :
    (r : Runtime) (laws : TransferLaws r) (program_id : ℕ) (accounts : List AccountInfo)
    (swap : SwapInstructionBaseIn) (stored : AmmInfo) (ledger : r.Ledger) {status : AmmStatus}
    {amm : AmmInfo} {ledger' : r.Ledger}
    → AmmStatus.from_u64 stored.status ≡ ok status
    → AmmStatus.orderbook_permission status ≡ false
    → stored.pc_vault ≢ stored.coin_vault
    → stored.fees.swap_fee_numerator < stored.fees.swap_fee_denominator
    → stored.fees.swap_fee_denominator < 2 ^ 64
    → swap.amount_in < 2 ^ 64
    → process_swap_base_in r program_id accounts swap stored ledger ≡ ok (amm, ledger')
    → SwapsBaseIn r swap stored ledger amm ledger'
unfolding process_swap_base_in
process_swap_base_in-IsSwap r laws program_id accounts swap stored ledger read closed apart hf hd ha
      e =
    let (direction, s, payer, done, hp, hc, quoted) =
      run_swap-Swapped r laws (quote_of_base_in swap) (λ direction a. a.market_coin_vault.key)
        program_id accounts stored ledger read closed
        (λ user_amount pc coin direction s hp hc q.
          (quote_base_in-eq-ok stored.fees user_amount swap.amount_in swap.minimum_amount_out pc
            coin direction hf hd ha hp hc q).0)
        apart e in
    let (_, same, enough, best, fee) =
      quote_base_in-eq-ok stored.fees (balance r ledger payer) swap.amount_in
        swap.minimum_amount_out (free_pc r stored ledger) (free_coin r stored ledger) direction hf
        hd ha hp hc quoted in
    (direction, s, done, same, enough, best, fee)
