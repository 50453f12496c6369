-- ===== src/Pool/Book/Refine.antt =====
-- The deposits, withdrawals, payouts and swaps of program/src/processor.rs are steps of the book.
use raydium_amm_mod.Base.{ℕ, ◌+◌, ◌-◌, ◌≤◌, ◌≡◌, ◌∙◌, refl, ap, arith}
use raydium_amm_mod.Math.Swap.{SwapDirection}
use raydium_amm_mod.State.AmmInfo.{AmmInfo}
use raydium_amm_mod.Pool.Runtime.{Runtime}
use raydium_amm_mod.Pool.Tokens.{amount_at}
use raydium_amm_mod.Pool.Swap.Outcome.{recorded-need, IsSwap, balance, free_pc, free_coin}
use raydium_amm_mod.Pool.Swap.Quote.{SwapAmounts}
use raydium_amm_mod.Pool.Liquidity.Setup.{SharesKept-SameKeys}
use raydium_amm_mod.Pool.Liquidity.Deposit.{DepositInstruction, DepositAmounts}
use raydium_amm_mod.Pool.Liquidity.Deposit.Quote.{IsAgreed-IsFair}
use raydium_amm_mod.Pool.Liquidity.Deposit.Laws.{IsDeposit}
use raydium_amm_mod.Pool.Liquidity.Withdraw.{WithdrawInstruction, WithdrawAmounts}
use raydium_amm_mod.Pool.Liquidity.Withdraw.Laws.{IsWithdraw}
use raydium_amm_mod.Pool.Liquidity.WithdrawPnl.Laws.{IsPayout}
use raydium_amm_mod.Pool.Book.{Book, Step, Profit}
use raydium_amm_mod.Pool.Book.Serve.{Trades, ServesDeposit, ServesWithdraw, ServesPayout}
use raydium_amm_mod.Pool.Liquidity.Setup.{IsTaken, IsTaken-grows, IsTaken-le}

-- The book of a pool's account and a ledger.
abbrev pub book : (r : Runtime) → AmmInfo → r.Ledger → Book
book r amm l = record {
  pc = free_pc r amm l;
  coin = free_coin r amm l;
  owed_pc = amm.state_data.need_take_pnl_pc;
  owed_coin = amm.state_data.need_take_pnl_coin;
  lp = amm.lp_amount;
}

-- Two books with equal entries.
same_book :
    (b : Book) {pc coin owed_pc owed_coin lp : ℕ}
    → b.pc ≡ pc
    → b.coin ≡ coin
    → b.owed_pc ≡ owed_pc
    → b.owed_coin ≡ owed_coin
    → b.lp ≡ lp
    → b ≡ record { pc = pc; coin = coin; owed_pc = owed_pc; owed_coin = owed_coin; lp = lp }
same_book b e₁ e₂ e₃ e₄ e₅ = rw (← e₁, ← e₂, ← e₃, ← e₄, ← e₅) refl

-- The book once the profit is set aside, on the ledger from before.
abbrev aside_book : (r : Runtime) → AmmInfo → r.Ledger → (owed_pc owed_coin : ℕ) → Book
aside_book r amm l owed_pc owed_coin = record {
  pc = amount_at r l amm.pc_vault - owed_pc;
  coin = amount_at r l amm.coin_vault - owed_coin;
  owed_pc = owed_pc;
  owed_coin = owed_coin;
  lp = amm.lp_amount;
}

-- Setting profit aside, while the vaults cover it.
set_aside-Profit :
    (r : Runtime) (amm : AmmInfo) (l : r.Ledger) (owed_pc owed_coin sum_pc sum_coin : ℕ)
    → IsTaken amm.fees
        (free_pc r amm l)
        amm.state_data.total_pnl_pc
        sum_pc
        amm.state_data.need_take_pnl_pc
        owed_pc
    → IsTaken amm.fees
        (free_coin r amm l)
        amm.state_data.total_pnl_coin
        sum_coin
        amm.state_data.need_take_pnl_coin
        owed_coin
    → owed_pc ≤ amount_at r l amm.pc_vault
    → owed_coin ≤ amount_at r l amm.coin_vault
    → Profit amm.fees (book r amm l) (aside_book r amm l owed_pc owed_coin)
set_aside-Profit r amm l owed_pc owed_coin sum_pc sum_coin taken_pc taken_coin covers_pc
      covers_coin =
    let need_pc = amm.state_data.need_take_pnl_pc in
    let need_coin = amm.state_data.need_take_pnl_coin in
    let more_pc : need_pc ≤ owed_pc = IsTaken-grows taken_pc in
    let more_coin : need_coin ≤ owed_coin = IsTaken-grows taken_coin in
    Profit.profit (owed_pc - need_pc) (owed_coin - need_coin)
      (IsTaken-le amm.fees (free_pc r amm l) amm.state_data.total_pnl_pc sum_pc need_pc owed_pc
        taken_pc)
      (IsTaken-le amm.fees (free_coin r amm l) amm.state_data.total_pnl_coin sum_coin need_coin
        owed_coin taken_coin)
      (omega arith) (omega arith)
      (same_book (aside_book r amm l owed_pc owed_coin) (omega arith) (omega arith) (omega arith)
        (omega arith) refl)

module _ (r : Runtime) where
  quiet_at :
      (amm : AmmInfo) (l : r.Ledger) {owed_pc owed_coin : ℕ} {b : Book}
      → owed_pc ≡ amm.state_data.need_take_pnl_pc
      → owed_coin ≡ amm.state_data.need_take_pnl_coin
      → Step (aside_book r amm l owed_pc owed_coin) b
      → Step (book r amm l) b
  quiet_at amm l pc coin s = rw (← pc, ← coin) s

module _ (r : Runtime) (amm amm' : AmmInfo) (l l' : r.Ledger) where
  IsDeposit-Step :
      (d : DepositInstruction) (s : DepositAmounts)
      → IsDeposit r d s amm l amm' l'
      → Step
          (aside_book r amm l amm'.state_data.need_take_pnl_pc amm'.state_data.need_take_pnl_coin)
          (book r amm' l')
  IsDeposit-Step d s done =
      let keys = SharesKept-SameKeys amm amm' done.kept in
      let owed_pc = amm'.state_data.need_take_pnl_pc in
      let owed_coin = amm'.state_data.need_take_pnl_coin in
      let fair =
        IsAgreed-IsFair d amm.lp_amount (amount_at r l amm.pc_vault - owed_pc)
          (amount_at r l amm.coin_vault - owed_coin) s done.agreed in
      let pc_after = ap (amount_at r l') keys.pc_vault ∙ done.pc_came in
      let coin_after = ap (amount_at r l') keys.coin_vault ∙ done.coin_came in
      let pc_covered = done.pc_covered in
      let coin_covered = done.coin_covered in
      Step.join s.deduct_pc s.deduct_coin s.mint_lp done.some_shares fair.pc_fair fair.coin_fair
        (same_book (book r amm' l') (omega arith) (omega arith) refl refl done.minted)

  pub IsDeposit-Serves :
      (d : DepositInstruction) (s : DepositAmounts)
      → IsDeposit r d s amm l amm' l'
      → ServesDeposit amm.fees d (book r amm l) (book r amm' l')
  IsDeposit-Serves d s done =
      let keys = SharesKept-SameKeys amm amm' done.kept in
      let owed_pc = amm'.state_data.need_take_pnl_pc in
      let owed_coin = amm'.state_data.need_take_pnl_coin in
      let pc_after = ap (amount_at r l') keys.pc_vault ∙ done.pc_came in
      let coin_after = ap (amount_at r l') keys.coin_vault ∙ done.coin_came in
      let pc_covered = done.pc_covered in
      let coin_covered = done.coin_covered in
      (
        aside_book r amm l owed_pc owed_coin,
        set_aside-Profit r amm l owed_pc owed_coin amm'.state_data.total_pnl_pc
            amm'.state_data.total_pnl_coin done.pc_taken done.coin_taken pc_covered coin_covered,
        s,
        done.some_shares,
        done.agreed,
        same_book (book r amm' l') (omega arith) (omega arith) refl refl done.minted,
      )

  -- Where nothing was set aside, it is a single step.
  pub IsDeposit-quiet :
      (d : DepositInstruction) (s : DepositAmounts)
      → amm'.state_data.need_take_pnl_pc ≡ amm.state_data.need_take_pnl_pc
      → amm'.state_data.need_take_pnl_coin ≡ amm.state_data.need_take_pnl_coin
      → IsDeposit r d s amm l amm' l'
      → Step (book r amm l) (book r amm' l')
  IsDeposit-quiet d s pc coin done = quiet_at r amm l pc coin (IsDeposit-Step d s done)

  IsWithdraw-Step :
      (w : WithdrawInstruction) (s : WithdrawAmounts)
      → IsWithdraw r w s amm l amm' l'
      → Step
          (aside_book r amm l amm'.state_data.need_take_pnl_pc amm'.state_data.need_take_pnl_coin)
          (book r amm' l')
  IsWithdraw-Step w s done =
      let keys = SharesKept-SameKeys amm amm' done.kept in
      let owed_pc = amm'.state_data.need_take_pnl_pc in
      let owed_coin = amm'.state_data.need_take_pnl_coin in
      let pc_after = ap (λ (k : ℕ). amount_at r l' k + s.pc_amount) keys.pc_vault ∙ done.pc_went in
      let coin_after =
        ap (λ (k : ℕ). amount_at r l' k + s.coin_amount) keys.coin_vault ∙ done.coin_went in
      let burnt = done.burnt in
      let left = done.shares_left in
      Step.leave s.pc_amount s.coin_amount w.amount (omega arith) done.pc_part.0 done.coin_part.0
        (same_book (book r amm' l') (omega arith) (omega arith) refl refl (omega arith))

  pub IsWithdraw-Serves :
      (w : WithdrawInstruction) (s : WithdrawAmounts)
      → IsWithdraw r w s amm l amm' l'
      → ServesWithdraw amm.fees w (book r amm l) (book r amm' l')
  IsWithdraw-Serves w s done =
      let keys = SharesKept-SameKeys amm amm' done.kept in
      let owed_pc = amm'.state_data.need_take_pnl_pc in
      let owed_coin = amm'.state_data.need_take_pnl_coin in
      let pc_after = ap (λ (k : ℕ). amount_at r l' k + s.pc_amount) keys.pc_vault ∙ done.pc_went in
      let coin_after =
        ap (λ (k : ℕ). amount_at r l' k + s.coin_amount) keys.coin_vault ∙ done.coin_went in
      let burnt = done.burnt in
      let left = done.shares_left in
      (
        aside_book r amm l owed_pc owed_coin,
        set_aside-Profit r amm l owed_pc owed_coin amm'.state_data.total_pnl_pc
            amm'.state_data.total_pnl_coin done.pc_taken done.coin_taken done.pc_covered
            done.coin_covered,
        s,
        omega arith,
        done.pc_part,
        done.coin_part,
        done.minimums,
        same_book (book r amm' l') (omega arith) (omega arith) refl refl (omega arith),
      )

  pub IsWithdraw-quiet :
      (w : WithdrawInstruction) (s : WithdrawAmounts)
      → amm'.state_data.need_take_pnl_pc ≡ amm.state_data.need_take_pnl_pc
      → amm'.state_data.need_take_pnl_coin ≡ amm.state_data.need_take_pnl_coin
      → IsWithdraw r w s amm l amm' l'
      → Step (book r amm l) (book r amm' l')
  IsWithdraw-quiet w s pc coin done = quiet_at r amm l pc coin (IsWithdraw-Step w s done)

  pub IsPayout-Serves :
      (owed_pc owed_coin : ℕ)
      → IsPayout r owed_pc owed_coin amm l amm' l'
      → ServesPayout amm.fees (book r amm l) (book r amm' l')
  IsPayout-Serves owed_pc owed_coin done =
      let pc_vault = ap (λ (x : AmmInfo). x.pc_vault) done.kept in
      let coin_vault = ap (λ (x : AmmInfo). x.coin_vault) done.kept in
      let pc_after = ap (λ (k : ℕ). amount_at r l' k + owed_pc) pc_vault ∙ done.pc_went in
      let coin_after = ap (λ (k : ℕ). amount_at r l' k + owed_coin) coin_vault ∙ done.coin_went in
      let pc_paid = ap (λ (x : AmmInfo). x.state_data.need_take_pnl_pc) done.kept in
      let coin_paid = ap (λ (x : AmmInfo). x.state_data.need_take_pnl_coin) done.kept in
      (
        aside_book r amm l owed_pc owed_coin,
        set_aside-Profit r amm l owed_pc owed_coin amm'.state_data.total_pnl_pc
            amm'.state_data.total_pnl_coin done.pc_taken done.coin_taken (omega arith)
            (omega arith),
        same_book (book r amm' l') (omega arith) (omega arith) pc_paid coin_paid
            (ap (λ (x : AmmInfo). x.lp_amount) done.kept),
      )

  pub IsSwap-Trades :
      (direction : SwapDirection) (s : SwapAmounts)
      → IsSwap r direction s amm l amm' l'
      → Trades direction s (book r amm l) (book r amm' l')
  IsSwap-Trades SwapDirection.coin2pc s done =
      let (owed_pc, owed_coin) =
        recorded-need SwapDirection.coin2pc s amm.state_data amm'.state_data done.recorded in
      let pc_after =
        ap (λ (k : ℕ). balance r l' k + s.amount_out) (ap (λ (x : AmmInfo). x.pc_vault) done.kept)
        ∙ done.went in
      let coin_after =
        ap (balance r l') (ap (λ (x : AmmInfo). x.coin_vault) done.kept) ∙ done.came in
      let pc_covered = done.pc_covered in
      let coin_covered = done.coin_covered in
      (
        same_book (book r amm' l') (omega arith) (omega arith) owed_pc owed_coin
            (ap (λ (x : AmmInfo). x.lp_amount) done.kept),
        done.product_kept,
        done.pc_left,
        done.coin_left,
      )
  IsSwap-Trades SwapDirection.pc2coin s done =
      let (owed_pc, owed_coin) =
        recorded-need SwapDirection.pc2coin s amm.state_data amm'.state_data done.recorded in
      let coin_after =
        ap (λ (k : ℕ). balance r l' k + s.amount_out) (ap (λ (x : AmmInfo). x.coin_vault) done.kept)
        ∙ done.went in
      let pc_after = ap (balance r l') (ap (λ (x : AmmInfo). x.pc_vault) done.kept) ∙ done.came in
      let pc_covered = done.pc_covered in
      let coin_covered = done.coin_covered in
      (
        same_book (book r amm' l') (omega arith) (omega arith) owed_pc owed_coin
            (ap (λ (x : AmmInfo). x.lp_amount) done.kept),
        done.product_kept,
        done.pc_left,
        done.coin_left,
      )

  pub IsSwap-Step :
      (direction : SwapDirection) (s : SwapAmounts)
      → IsSwap r direction s amm l amm' l'
      → Step (book r amm l) (book r amm' l')
  IsSwap-Step direction s done =
      let (owed_pc, owed_coin) =
        recorded-need direction s amm.state_data amm'.state_data done.recorded in
      Step.trade (free_pc r amm' l') (free_coin r amm' l') done.product_kept done.pc_left
        done.coin_left
        (same_book (book r amm' l') refl refl owed_pc owed_coin
          (ap (λ (x : AmmInfo). x.lp_amount) done.kept))
