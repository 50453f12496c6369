-- ===== src/Pool/Swap/BaseOut.antt =====
-- program/src/processor.rs: `Processor::process_swap_base_out`.
pub mod Laws
use raydium_amm_mod.Base.{ℕ, List}
use raydium_amm_mod.Error.{Result}
use raydium_amm_mod.Math.Swap.{SwapDirection}
use raydium_amm_mod.State.AmmInfo.{AmmInfo}
use raydium_amm_mod.Pool.Runtime.{Runtime, AccountInfo}
use raydium_amm_mod.Pool.Swap.{SwapAccounts}
use raydium_amm_mod.Pool.Swap.Quote.{quote_base_out}
use raydium_amm_mod.Pool.Swap.Run.{Quote, run_swap}

pub record SwapInstructionBaseOut : Type 0 where
  pub max_amount_in : ℕ
  pub amount_out : ℕ

-- The account that the settlement names as the market's coin vault: from pc to coin the code passes the
-- asks account in that place.
unfoldable pub settle_coin_vault : SwapDirection → SwapAccounts → ℕ
settle_coin_vault SwapDirection.coin2pc a = a.market_coin_vault.key
settle_coin_vault SwapDirection.pc2coin a = a.market_asks.key

abbrev pub quote_of_base_out : SwapInstructionBaseOut → Quote
quote_of_base_out swap fees user_amount total_pc total_coin direction =
    quote_base_out fees user_amount swap.max_amount_in swap.amount_out total_pc total_coin direction

unfoldable pub process_swap_base_out :
    (r : Runtime)
    → ℕ
    → List AccountInfo
    → SwapInstructionBaseOut
    → AmmInfo
    → r.Ledger
    → Result (AmmInfo × r.Ledger)
process_swap_base_out r program_id accounts swap stored ledger =
    run_swap r program_id (quote_of_base_out swap) settle_coin_vault accounts stored ledger
