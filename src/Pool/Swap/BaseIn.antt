-- ===== src/Pool/Swap/BaseIn.antt =====
-- program/src/processor.rs: `Processor::process_swap_base_in`.
pub mod Laws
use raydium_amm_mod.Base.{ℕ, List}
use raydium_amm_mod.Error.{Result}
use raydium_amm_mod.State.AmmInfo.{AmmInfo}
use raydium_amm_mod.Pool.Runtime.{Runtime, AccountInfo}
use raydium_amm_mod.Pool.Swap.Quote.{quote_base_in}
use raydium_amm_mod.Pool.Swap.Run.{Quote, run_swap}

pub record SwapInstructionBaseIn : Type 0 where
  pub amount_in : ℕ
  pub minimum_amount_out : ℕ

abbrev pub quote_of_base_in : SwapInstructionBaseIn → Quote
quote_of_base_in swap fees user_amount total_pc total_coin direction =
    quote_base_in fees user_amount swap.amount_in swap.minimum_amount_out total_pc total_coin
      direction

unfoldable pub process_swap_base_in :
    (r : Runtime)
    → ℕ
    → List AccountInfo
    → SwapInstructionBaseIn
    → AmmInfo
    → r.Ledger
    → Result (AmmInfo × r.Ledger)
process_swap_base_in r program_id accounts swap stored ledger =
    run_swap r program_id (quote_of_base_in swap) (λ direction a. a.market_coin_vault.key) accounts
      stored ledger
