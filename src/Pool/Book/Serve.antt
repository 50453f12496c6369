-- ===== src/Pool/Book/Serve.antt =====
-- How the book answers a request of program/src/processor.rs, and a sequence of them.
use raydium_amm_mod.Base.{◌+◌, ◌-◌, ◌*◌, ◌≤◌, ◌<◌, ◌≡◌, false, List, [], ◌∷◌}
use raydium_amm_mod.State.Fees.{Fees}
use raydium_amm_mod.Math.Ceil.{IsCeil}
use raydium_amm_mod.Math.Swap.{SwapDirection}
use raydium_amm_mod.Math.Swap.Laws.{reserve_in, reserve_out, IsBestOut, IsLeastIn}
use raydium_amm_mod.Pool.Swap.Quote.{SwapAmounts}
use raydium_amm_mod.Pool.Swap.Quote.Laws.{IsBaseInFee}
use raydium_amm_mod.Pool.Swap.BaseIn.{SwapInstructionBaseIn}
use raydium_amm_mod.Pool.Swap.BaseOut.{SwapInstructionBaseOut}
use raydium_amm_mod.Pool.Liquidity.Deposit.{DepositInstruction, DepositAmounts}
use raydium_amm_mod.Pool.Liquidity.Deposit.Quote.{IsAgreed}
use raydium_amm_mod.Pool.Liquidity.Withdraw.{WithdrawInstruction, WithdrawAmounts, misses_minimums}
use raydium_amm_mod.Pool.Liquidity.Withdraw.Laws.{IsPart}
use raydium_amm_mod.Pool.Book.{Book, Profit}

pub data Request : Type 0 where
  swap_base_in : SwapInstructionBaseIn → Request
  swap_base_out : SwapInstructionBaseOut → Request
  deposit : DepositInstruction → Request
  withdraw : WithdrawInstruction → Request
  withdrawpnl : Request

-- The book after a trade: what is paid comes in, with its fee, and what is bought goes out.
abbrev pub traded : SwapDirection → SwapAmounts → Book → Book
traded SwapDirection.coin2pc s b = record b {
  coin = b.coin + s.amount_in;
  pc = b.pc - s.amount_out;
}
traded SwapDirection.pc2coin s b = record b {
  pc = b.pc + s.amount_in;
  coin = b.coin - s.amount_out;
}

-- Something is left of either side, and the product has not fallen.
abbrev pub Trades : SwapDirection → SwapAmounts → Book → Book → Type 0
Trades direction s b b' =
    (b' ≡ traded direction s b) × (b.pc * b.coin ≤ b'.pc * b'.coin) × (0 < b'.pc) × (0 < b'.coin)

-- The payment asked for is traded: what its fee leaves buys the most under which the product does not fall.
abbrev pub ServesBaseIn : Fees → SwapInstructionBaseIn → Book → Book → Type 0
ServesBaseIn f swap b b' =
    (direction : SwapDirection) × (s : SwapAmounts) × Trades direction s b b'
    × (s.amount_in ≡ swap.amount_in)
    × (swap.minimum_amount_out ≤ s.amount_out)
    × IsBestOut (reserve_in direction b.pc b.coin) (reserve_out direction b.pc b.coin)
        (swap.amount_in - s.swap_fee) s.amount_out
    × IsBaseInFee f swap.amount_in s.swap_fee

-- The output asked for is traded, for the least payment before the fee under which the product does not fall.
abbrev pub ServesBaseOut : Fees → SwapInstructionBaseOut → Book → Book → Type 0
ServesBaseOut f swap b b' =
    (direction : SwapDirection) × (s : SwapAmounts) × Trades direction s b b'
    × (s.amount_out ≡ swap.amount_out)
    × (s.amount_in ≤ swap.max_amount_in)
    × IsLeastIn (reserve_in direction b.pc b.coin) (reserve_out direction b.pc b.coin)
        swap.amount_out (s.amount_in - s.swap_fee)
    × IsCeil ((s.amount_in - s.swap_fee) * f.swap_fee_denominator)
        (f.swap_fee_denominator - f.swap_fee_numerator) s.amount_in

-- After the profit, what is agreed on comes in, and its shares are made.
abbrev pub ServesDeposit : Fees → DepositInstruction → Book → Book → Type 0
ServesDeposit f d b b' =
    (m : Book) × Profit f b m
    × (s : DepositAmounts) × (0 < m.lp)
    × IsAgreed d m.lp m.pc m.coin s
    × (b' ≡ record m {
      pc = m.pc + s.deduct_pc;
      coin = m.coin + s.deduct_coin;
      lp = m.lp + s.mint_lp;
    })

-- After the profit, the shares asked for leave with exactly their part of either side, and some stay.
abbrev pub ServesWithdraw : Fees → WithdrawInstruction → Book → Book → Type 0
ServesWithdraw f w b b' =
    (m : Book) × Profit f b m
    × (s : WithdrawAmounts) × (w.amount < m.lp)
    × IsPart w.amount m.lp m.pc s.pc_amount
    × IsPart w.amount m.lp m.coin s.coin_amount
    × (misses_minimums w s ≡ false)
    × (b'
        ≡ record m { pc = m.pc - s.pc_amount; coin = m.coin - s.coin_amount; lp = m.lp - w.amount })

-- After the profit, what is owed is settled, and the depositors' side stays.
abbrev pub ServesPayout : Fees → Book → Book → Type 0
ServesPayout f b b' = (m : Book) × Profit f b m × (b' ≡ record m { owed_pc = 0; owed_coin = 0 })

abbrev pub Serves : Fees → Request → Book → Book → Type 0
Serves f (Request.swap_base_in swap) b b' = ServesBaseIn f swap b b'
Serves f (Request.swap_base_out swap) b b' = ServesBaseOut f swap b b'
Serves f (Request.deposit d) b b' = ServesDeposit f d b b'
Serves f (Request.withdraw w) b b' = ServesWithdraw f w b b'
Serves f Request.withdrawpnl b b' = ServesPayout f b b'

-- Requests, the last one first, answered one after the other.
abbrev pub ServesAll : Fees → List Request → Book → Book → Type 0
ServesAll f [] b b' = b' ≡ b
ServesAll f (q ∷ before) b b' = (m : Book) × ServesAll f before b m × Serves f q m b'
