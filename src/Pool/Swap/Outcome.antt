-- ===== src/Pool/Swap/Outcome.antt =====
-- What a swap of program/src/processor.rs without an order book leaves, whichever amount it fixes.
use native.Mathlib.Nat.{mul_comm, mul-le-mul_right, le_trans}
use raydium_amm_mod.Base.{ℕ, ◌+◌, ◌-◌, ◌*◌, ◌≤◌, ◌<◌, ◌≡◌, ◌≢◌, ◌∙◌, sym, ap, arith, false}
use raydium_amm_mod.Error.{ok}
use raydium_amm_mod.Math.Swap.{SwapDirection}
use raydium_amm_mod.Math.Swap.Laws.{reserve_in, reserve_out}
use raydium_amm_mod.State.Fees.{Fees}
use raydium_amm_mod.State.AmmInfo.{AmmInfo, StateData}
use raydium_amm_mod.Pool.Runtime.{Runtime, TransferLaws, amount_of}
use raydium_amm_mod.Pool.Swap.{SwapAccounts, Holdings, Totals}
use raydium_amm_mod.Pool.Swap.Setup.{StatusStep, time_of, IsChecked}
use raydium_amm_mod.Pool.Swap.Quote.{SwapAmounts}
use raydium_amm_mod.Pool.Swap.Quote.Success.{IsQuote}
use raydium_amm_mod.Pool.Swap.Execute.{total_out, pay, execute_swap}
use raydium_amm_mod.Pool.Swap.Execute.Laws.{IsRecorded, pay-eq-ok, execute_swap-eq-ok}

module _ (r : Runtime) where
  abbrev pub balance : r.Ledger → ℕ → ℕ
  balance l k = amount_of (r.unpack_account l k)

  -- What the pool's depositors hold: the vault less the profit that is still to be paid out.
  abbrev pub free_pc : AmmInfo → r.Ledger → ℕ
  free_pc amm l = balance l amm.pc_vault - amm.state_data.need_take_pnl_pc

  abbrev pub free_coin : AmmInfo → r.Ledger → ℕ
  free_coin amm l = balance l amm.coin_vault - amm.state_data.need_take_pnl_coin

-- The vaults that a swap pays into and out of.
abbrev pub key_in : SwapDirection → AmmInfo → ℕ
key_in SwapDirection.coin2pc amm = amm.coin_vault
key_in SwapDirection.pc2coin amm = amm.pc_vault

abbrev pub key_out : SwapDirection → AmmInfo → ℕ
key_out SwapDirection.coin2pc amm = amm.pc_vault
key_out SwapDirection.pc2coin amm = amm.coin_vault

-- The swap of `s` takes the pool from `amm` and `l` to `amm'` and `l'`: the vaults change by the two
-- amounts, the product of what the depositors hold does not fall, neither side is emptied, the statistics
-- are kept, the status moves as `StatusStep` says, and nothing else of the pool's account changes but the epoch.
pub record IsSwap (r : Runtime) (direction : SwapDirection) (s : SwapAmounts) (amm : AmmInfo)
    (l : r.Ledger) (amm' : AmmInfo) (l' : r.Ledger) : Type 0 where
  pub came : balance r l' (key_in direction amm) ≡ balance r l (key_in direction amm) + s.amount_in
  pub went :
      balance r l' (key_out direction amm) + s.amount_out ≡ balance r l (key_out direction amm)
  pub pc_covered : amm.state_data.need_take_pnl_pc ≤ balance r l amm.pc_vault
  pub coin_covered : amm.state_data.need_take_pnl_coin ≤ balance r l amm.coin_vault
  pub product_kept : free_pc r amm l * free_coin r amm l ≤ free_pc r amm' l' * free_coin r amm' l'
  pub pc_left : 0 < free_pc r amm' l'
  pub coin_left : 0 < free_coin r amm' l'
  pub recorded : IsRecorded direction s amm.state_data amm'.state_data
  pub status_moved : StatusStep amm.state_data (time_of r.get_clock) amm.status amm'.status
  pub kept : amm' ≡ record amm {
    status = amm'.status;
    state_data = amm'.state_data;
    recent_epoch = amm'.recent_epoch;
  }

-- The fee stays in the pool, so that the product grows by at least what the quote keeps.
product_with_fee :
    (x y paid fee out n m vin vout vin' vout' : ℕ)
    → x + n ≡ vin
    → y + m ≡ vout
    → vin' ≡ vin + paid
    → vout' + out ≡ vout
    → out < y
    → x * y ≤ (x + (paid - fee)) * (y - out)
    → (vin - n) * (vout - m) ≤ (vin' - n) * (vout' - m)
product_with_fee x y paid fee out n m vin vout vin' vout' e₁ e₂ e₃ e₄ lt kept =
    let before_in : vin - n ≡ x = omega arith in
    let before_out : vout - m ≡ y = omega arith in
    let after_in : vin' - n ≡ x + paid = omega arith in
    let after_out : vout' - m ≡ y - out = omega arith in
    rw (before_in, before_out, after_in, after_out)
      (le_trans kept
        (mul-le-mul_right {m = x + (paid - fee)} {n = x + paid} (y - out) (omega arith)))

pub recorded-need :
    (direction : SwapDirection) (s : SwapAmounts) (d d' : StateData)
    → IsRecorded direction s d d'
    → (d'.need_take_pnl_pc ≡ d.need_take_pnl_pc) × (d'.need_take_pnl_coin ≡ d.need_take_pnl_coin)
recorded-need SwapDirection.coin2pc s d d' e =
    (ap (λ (x : StateData). x.need_take_pnl_pc) e, ap (λ (x : StateData). x.need_take_pnl_coin) e)
recorded-need SwapDirection.pc2coin s d d' e =
    (ap (λ (x : StateData). x.need_take_pnl_pc) e, ap (λ (x : StateData). x.need_take_pnl_coin) e)

-- The vaults after `execute_swap`, by the pool's keys.
execute-balances :
    (r : Runtime) (laws : TransferLaws r) (direction : SwapDirection) (a : SwapAccounts)
    (amm : AmmInfo) (l : r.Ledger) (h : Holdings) (s : SwapAmounts) {l' : r.Ledger}
    → amm.pc_vault ≢ amm.coin_vault
    → IsChecked r l a amm h
    → pay r direction a amm s l ≡ ok l'
    → (balance r l' (key_in direction amm) ≡ balance r l (key_in direction amm) + s.amount_in)
      × (balance r l' (key_out direction amm) + s.amount_out ≡ balance r l (key_out direction amm))
execute-balances r laws SwapDirection.coin2pc a amm l h s {l'} apart c paid =
    let coin = c.coin_key in
    let pc = c.pc_key in
    let (came, went) =
      pay-eq-ok r laws SwapDirection.coin2pc a amm s l (λ e. c.source_not_coin (e ∙ coin))
        (λ e. c.source_not_pc (e ∙ pc)) (λ e. c.destination_not_coin (e ∙ coin))
        (λ e. c.destination_not_pc (e ∙ pc)) (λ e. apart (sym pc ∙ sym e ∙ coin)) paid in
    (rw (← coin) came, rw (← pc) went)
execute-balances r laws SwapDirection.pc2coin a amm l h s {l'} apart c paid =
    let coin = c.coin_key in
    let pc = c.pc_key in
    let (came, went) =
      pay-eq-ok r laws SwapDirection.pc2coin a amm s l (λ e. c.source_not_pc (e ∙ pc))
        (λ e. c.source_not_coin (e ∙ coin)) (λ e. c.destination_not_pc (e ∙ pc))
        (λ e. c.destination_not_coin (e ∙ coin)) (λ e. apart (sym pc ∙ e ∙ coin)) paid in
    (rw (← pc) came, rw (← coin) went)

kept_coin2pc :
    (r : Runtime) (amm amm' : AmmInfo) (l l' : r.Ledger) (t : Totals) (s : SwapAmounts)
    → t.total_pc + amm.state_data.need_take_pnl_pc ≡ balance r l amm.pc_vault
    → t.total_coin + amm.state_data.need_take_pnl_coin ≡ balance r l amm.coin_vault
    → (amm'.pc_vault ≡ amm.pc_vault) × (amm'.coin_vault ≡ amm.coin_vault)
    → amm'.state_data.need_take_pnl_pc ≡ amm.state_data.need_take_pnl_pc
    → amm'.state_data.need_take_pnl_coin ≡ amm.state_data.need_take_pnl_coin
    → balance r l' amm.coin_vault ≡ balance r l amm.coin_vault + s.amount_in
    → balance r l' amm.pc_vault + s.amount_out ≡ balance r l amm.pc_vault
    → s.amount_out < t.total_pc
    → 0 < s.amount_in
    → t.total_coin * t.total_pc
      ≤ (t.total_coin + (s.amount_in - s.swap_fee)) * (t.total_pc - s.amount_out)
    → (free_pc r amm l * free_coin r amm l ≤ free_pc r amm' l' * free_coin r amm' l')
      × (0 < free_pc r amm' l')
      × (0 < free_coin r amm' l')
kept_coin2pc r amm amm' l l' t s e₁ e₂ (pc, coin) n_pc n_coin came went lt some_in kept =
    let need_pc = amm.state_data.need_take_pnl_pc in
    let need_coin = amm.state_data.need_take_pnl_coin in
    let grown =
      product_with_fee t.total_coin t.total_pc s.amount_in s.swap_fee s.amount_out need_coin need_pc
        (balance r l amm.coin_vault) (balance r l amm.pc_vault) (balance r l' amm.coin_vault)
        (balance r l' amm.pc_vault) e₂ e₁ came went lt kept in
    rw (pc, coin, n_pc, n_coin)
      (
        rw
            (
              mul_comm (balance r l amm.pc_vault - need_pc)
                  (balance r l amm.coin_vault - need_coin),
              mul_comm (balance r l' amm.pc_vault - need_pc)
                  (balance r l' amm.coin_vault - need_coin),
            )
            grown,
        omega arith,
        omega arith,
      )

kept_pc2coin :
    (r : Runtime) (amm amm' : AmmInfo) (l l' : r.Ledger) (t : Totals) (s : SwapAmounts)
    → t.total_pc + amm.state_data.need_take_pnl_pc ≡ balance r l amm.pc_vault
    → t.total_coin + amm.state_data.need_take_pnl_coin ≡ balance r l amm.coin_vault
    → (amm'.pc_vault ≡ amm.pc_vault) × (amm'.coin_vault ≡ amm.coin_vault)
    → amm'.state_data.need_take_pnl_pc ≡ amm.state_data.need_take_pnl_pc
    → amm'.state_data.need_take_pnl_coin ≡ amm.state_data.need_take_pnl_coin
    → balance r l' amm.pc_vault ≡ balance r l amm.pc_vault + s.amount_in
    → balance r l' amm.coin_vault + s.amount_out ≡ balance r l amm.coin_vault
    → s.amount_out < t.total_coin
    → 0 < s.amount_in
    → t.total_pc * t.total_coin
      ≤ (t.total_pc + (s.amount_in - s.swap_fee)) * (t.total_coin - s.amount_out)
    → (free_pc r amm l * free_coin r amm l ≤ free_pc r amm' l' * free_coin r amm' l')
      × (0 < free_pc r amm' l')
      × (0 < free_coin r amm' l')
kept_pc2coin r amm amm' l l' t s e₁ e₂ (pc, coin) n_pc n_coin came went lt some_in kept =
    rw (pc, coin, n_pc, n_coin)
      (
        product_with_fee t.total_pc t.total_coin s.amount_in s.swap_fee s.amount_out
            amm.state_data.need_take_pnl_pc amm.state_data.need_take_pnl_coin
            (balance r l amm.pc_vault) (balance r l amm.coin_vault) (balance r l' amm.pc_vault)
            (balance r l' amm.coin_vault) e₁ e₂ came went lt kept,
        omega arith,
        omega arith,
      )

swap-product :
    (r : Runtime) (direction : SwapDirection) (amm amm' : AmmInfo) (l l' : r.Ledger) (t : Totals)
    (s : SwapAmounts) {f : Fees} {user_amount : ℕ}
    → t.total_pc + amm.state_data.need_take_pnl_pc ≡ balance r l amm.pc_vault
    → t.total_coin + amm.state_data.need_take_pnl_coin ≡ balance r l amm.coin_vault
    → (amm'.pc_vault ≡ amm.pc_vault) × (amm'.coin_vault ≡ amm.coin_vault)
    → amm'.state_data.need_take_pnl_pc ≡ amm.state_data.need_take_pnl_pc
    → amm'.state_data.need_take_pnl_coin ≡ amm.state_data.need_take_pnl_coin
    → balance r l' (key_in direction amm) ≡ balance r l (key_in direction amm) + s.amount_in
    → balance r l' (key_out direction amm) + s.amount_out ≡ balance r l (key_out direction amm)
    → s.amount_out < total_out direction t
    → IsQuote f user_amount
        (reserve_in direction t.total_pc t.total_coin)
        (reserve_out direction t.total_pc t.total_coin)
        s
    → (free_pc r amm l * free_coin r amm l ≤ free_pc r amm' l' * free_coin r amm' l')
      × (0 < free_pc r amm' l')
      × (0 < free_coin r amm' l')
swap-product r SwapDirection.coin2pc amm amm' l l' t s e₁ e₂ keys n_pc n_coin came went below q =
    kept_coin2pc r amm amm' l l' t s e₁ e₂ keys n_pc n_coin came went below q.in_pos q.product_kept
swap-product r SwapDirection.pc2coin amm amm' l l' t s e₁ e₂ keys n_pc n_coin came went below q =
    kept_pc2coin r amm amm' l l' t s e₁ e₂ keys n_pc n_coin came went below q.in_pos q.product_kept

-- The parts of a swap, put together.
pub execute_swap-IsSwap :
    (r : Runtime) (laws : TransferLaws r) (direction : SwapDirection) (a : SwapAccounts)
    (amm : AmmInfo) (status : ℕ) (l : r.Ledger) (h : Holdings) (t : Totals) (s : SwapAmounts)
    (settle_with : ℕ) {amm' : AmmInfo} {l' : r.Ledger}
    → amm.pc_vault ≢ amm.coin_vault
    → IsChecked r l a amm h
    → StatusStep amm.state_data (time_of r.get_clock) amm.status status
    → t.total_pc + amm.state_data.need_take_pnl_pc ≡ h.pc_vault.amount
    → t.total_coin + amm.state_data.need_take_pnl_coin ≡ h.coin_vault.amount
    → IsQuote amm.fees h.user_source.amount
        (reserve_in direction t.total_pc t.total_coin)
        (reserve_out direction t.total_pc t.total_coin)
        s
    → execute_swap r direction a (record amm { status = status }) h t false s settle_with l
      ≡ ok (amm', l')
    → IsSwap r direction s amm l amm' l'
unfolding pay
execute_swap-IsSwap r laws direction a amm status l h t s settle_with {amm'} {l'} apart c moved
      total_pc total_coin q e =
    let (below, paid, recorded, kept) =
      execute_swap-eq-ok r direction a (record amm { status = status }) h t s settle_with l e in
    let (came, went) = execute-balances r laws direction a amm l h s apart c paid in
    let (n_pc, n_coin) = recorded-need direction s amm.state_data amm'.state_data recorded in
    let keys : (amm'.pc_vault ≡ amm.pc_vault) × (amm'.coin_vault ≡ amm.coin_vault) =
      (ap (λ (x : AmmInfo). x.pc_vault) kept, ap (λ (x : AmmInfo). x.coin_vault) kept) in
    let status_is : amm'.status ≡ status = ap (λ (x : AmmInfo). x.status) kept in
    let (product, pc_left, coin_left) =
      swap-product r direction amm amm' l l' t s (total_pc ∙ sym c.pc_amount)
        (total_coin ∙ sym c.coin_amount) keys n_pc n_coin came went below q in
    record {
      came = came;
      went = went;
      pc_covered = omega (arith, total_pc ∙ sym c.pc_amount);
      coin_covered = omega (arith, total_coin ∙ sym c.coin_amount);
      product_kept = product;
      pc_left = pc_left;
      coin_left = coin_left;
      recorded = recorded;
      status_moved = rw status_is moved;
      kept =
          kept
          ∙ ap
              (λ (n : ℕ). record amm {
                status = n;
                state_data = amm'.state_data;
                recent_epoch = amm'.recent_epoch;
              })
              (sym status_is);
    }
