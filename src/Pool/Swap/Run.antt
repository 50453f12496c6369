-- ===== src/Pool/Swap/Run.antt =====
-- program/src/processor.rs: the course that `process_swap_base_in` and `process_swap_base_out` both take.
-- They differ in the quote, and in the account that the settlement names as the market's coin vault.
use raydium_amm_mod.Base.{ℕ, ◌+◌, ◌^◌, ◌<◌, ◌≡◌, ◌≢◌, ◌∙◌, sym, ap, arith, false, List}
use raydium_amm_mod.Error.{Result, ok, ◌>>=◌, >>=-eq-ok}
use raydium_amm_mod.Math.Swap.{SwapDirection}
use raydium_amm_mod.Math.Swap.Laws.{reserve_in, reserve_out}
use raydium_amm_mod.State.Fees.{Fees}
use raydium_amm_mod.State.AmmStatus
use raydium_amm_mod.State.AmmStatus.{AmmStatus}
use raydium_amm_mod.State.AmmInfo.{AmmInfo}
use raydium_amm_mod.Pool.Runtime.{Runtime, AccountInfo, TransferLaws}
use raydium_amm_mod.Pool.Swap.{
  SwapAccounts, Holdings, Totals, swap_accounts, load_amm_checked, check_swap_accounts,
  update_swap_status, swap_totals, find_direction,
}
use raydium_amm_mod.Pool.Swap.Setup.{
  StatusStep, IsChecked, time_of, load_amm_checked-eq-ok, update_swap_status-StatusStep,
  check_swap_accounts-IsChecked, swap_totals-eq-ok,
}
use raydium_amm_mod.Pool.Swap.Quote.{SwapAmounts}
use raydium_amm_mod.Pool.Swap.Quote.Success.{IsQuote}
use raydium_amm_mod.Pool.Swap.Execute.{execute_swap}
use raydium_amm_mod.Pool.Swap.Outcome.{IsSwap, balance, free_pc, free_coin, execute_swap-IsSwap}

-- The quote, by the fees, the user's balance, the totals of pc and coin, and the direction.
abbrev pub Quote : Type 0
Quote = Fees → ℕ → ℕ → ℕ → SwapDirection → Result SwapAmounts

-- From the pool's account on.
unfoldable pub swap_loaded :
    (r : Runtime)
    → ℕ
    → Quote
    → (SwapDirection → SwapAccounts → ℕ)
    → SwapAccounts
    → AmmInfo
    → r.Ledger
    → Result (AmmInfo × r.Ledger)
swap_loaded r program_id quote settle_with a loaded ledger = do
  status ← AmmStatus.from_u64 loaded.status
  let enable_orderbook = AmmStatus.orderbook_permission status
  h ← check_swap_accounts r program_id a loaded ledger
  amm ← update_swap_status r loaded
  t ← swap_totals r a amm h enable_orderbook ledger
  direction ← find_direction h
  s ← quote amm.fees h.user_source.amount t.total_pc t.total_coin direction
  execute_swap r direction a amm h t enable_orderbook s (settle_with direction a) ledger

-- The instruction on the data of the pool's account and the ledger; it returns both as it leaves them.
unfoldable pub run_swap :
    (r : Runtime)
    → ℕ
    → Quote
    → (SwapDirection → SwapAccounts → ℕ)
    → List AccountInfo
    → AmmInfo
    → r.Ledger
    → Result (AmmInfo × r.Ledger)
unfolding swap_loaded
run_swap r program_id quote settle_with accounts stored ledger = do
  a ← swap_accounts accounts
  loaded ← load_amm_checked program_id a.amm_account stored
  swap_loaded r program_id quote settle_with a loaded ledger

-- A quote is sound where what it returns is a quote between the reserves of the pool.
abbrev pub IsSound : Fees → Quote → Type 0
IsSound f quote =
    (user_amount pc coin : ℕ) (direction : SwapDirection) (s : SwapAmounts)
    → pc < 2 ^ 64
    → coin < 2 ^ 64
    → quote f user_amount pc coin direction ≡ ok s
    → IsQuote f user_amount (reserve_in direction pc coin) (reserve_out direction pc coin) s

-- What a swap has done, with the quote that it ran on.
abbrev pub Swapped : (r : Runtime) → Quote → AmmInfo → r.Ledger → AmmInfo → r.Ledger → Type 0
Swapped r quote amm l amm' l' =
    (direction : SwapDirection) × (s : SwapAmounts) × (payer : ℕ) × IsSwap r direction s amm l amm'
      l'
    × (free_pc r amm l < 2 ^ 64)
    × (free_coin r amm l < 2 ^ 64)
    × (quote amm.fees (balance r l payer) (free_pc r amm l) (free_coin r amm l) direction ≡ ok s)

module _ (r : Runtime) (laws : TransferLaws r) (quote : Quote)
    (settle_with : SwapDirection → SwapAccounts → ℕ) where
  swap_at :
      (a : SwapAccounts) (amm mid : AmmInfo) (l : r.Ledger) (h : Holdings) (t : Totals)
      (direction : SwapDirection) (s : SwapAmounts) {amm' : AmmInfo} {l' : r.Ledger}
      → IsSound amm.fees quote
      → amm.pc_vault ≢ amm.coin_vault
      → IsChecked r l a amm h
      → mid ≡ record amm { status = mid.status }
      → StatusStep amm.state_data (time_of r.get_clock) amm.status mid.status
      → swap_totals r a mid h false l ≡ ok t
      → quote mid.fees h.user_source.amount t.total_pc t.total_coin direction ≡ ok s
      → execute_swap r direction a mid h t false s (settle_with direction a) l ≡ ok (amm', l')
      → Swapped r quote amm l amm' l'
  swap_at a amm mid l h t direction s sound apart c same moved totals quoted run =
      let need_pc = ap (λ (x : AmmInfo). x.state_data.need_take_pnl_pc) same in
      let need_coin = ap (λ (x : AmmInfo). x.state_data.need_take_pnl_coin) same in
      let (total_pc, total_coin) = swap_totals-eq-ok r a mid h l totals in
      let total_pc' : t.total_pc + amm.state_data.need_take_pnl_pc ≡ h.pc_vault.amount =
        omega arith in
      let total_coin' : t.total_coin + amm.state_data.need_take_pnl_coin ≡ h.coin_vault.amount =
        omega arith in
      let pc_is : free_pc r amm l ≡ t.total_pc = omega (arith, c.pc_amount) in
      let coin_is : free_coin r amm l ≡ t.total_coin = omega (arith, c.coin_amount) in
      let pc_fits : t.total_pc < 2 ^ 64 = omega (arith, laws.fits l amm.pc_vault, c.pc_amount) in
      let coin_fits : t.total_coin < 2 ^ 64 =
        omega (arith, laws.fits l amm.coin_vault, c.coin_amount) in
      let quoted' : quote amm.fees h.user_source.amount t.total_pc t.total_coin direction ≡ ok s =
        ap (λ (x : AmmInfo). quote x.fees h.user_source.amount t.total_pc t.total_coin direction)
          (sym same)
        ∙ quoted in
      let run' =
        ap (λ (x : AmmInfo). execute_swap r direction a x h t false s (settle_with direction a) l)
          (sym same)
        ∙ run in
      (
        direction,
        s,
        a.user_source.key,
        execute_swap-IsSwap r laws direction a amm mid.status l h t s (settle_with direction a)
            apart c moved total_pc' total_coin'
            (sound h.user_source.amount t.total_pc t.total_coin direction s pc_fits coin_fits
              quoted')
            run',
        omega arith,
        omega arith,
        rw (pc_is, coin_is, c.source_amount) quoted',
      )

  swap_loaded-Swapped :
      (program_id : ℕ) (a : SwapAccounts) (amm : AmmInfo) (l : r.Ledger) {status : AmmStatus}
      {amm' : AmmInfo} {l' : r.Ledger}
      → AmmStatus.from_u64 amm.status ≡ ok status
      → AmmStatus.orderbook_permission status ≡ false
      → IsSound amm.fees quote
      → amm.pc_vault ≢ amm.coin_vault
      → swap_loaded r program_id quote settle_with a amm l ≡ ok (amm', l')
      → Swapped r quote amm l amm' l'
  unfolding swap_loaded
  swap_loaded-Swapped program_id a amm l read closed sound apart e =
      let (h, checked, e) =
        >>=-eq-ok (check_swap_accounts r program_id a amm l) _ (rw (read, closed) at e) in
      let (mid, updated, e) = >>=-eq-ok (update_swap_status r amm) _ e in
      let (t, totals, e) = >>=-eq-ok (swap_totals r a mid h false l) _ e in
      let (direction, _, e) = >>=-eq-ok (find_direction h) _ e in
      let (s, quoted, e) =
        >>=-eq-ok (quote mid.fees h.user_source.amount t.total_pc t.total_coin direction) _ e in
      let (same, moved) = update_swap_status-StatusStep r amm updated in
      swap_at a amm mid l h t direction s sound apart
        (check_swap_accounts-IsChecked r program_id a amm l checked) same moved totals quoted e

  -- Without an order book, a run on a sound quote that succeeds is a swap.
  pub run_swap-Swapped :
      (program_id : ℕ) (accounts : List AccountInfo) (stored : AmmInfo) (ledger : r.Ledger)
      {status : AmmStatus} {amm : AmmInfo} {ledger' : r.Ledger}
      → AmmStatus.from_u64 stored.status ≡ ok status
      → AmmStatus.orderbook_permission status ≡ false
      → IsSound stored.fees quote
      → stored.pc_vault ≢ stored.coin_vault
      → run_swap r program_id quote settle_with accounts stored ledger ≡ ok (amm, ledger')
      → Swapped r quote stored ledger amm ledger'
  unfolding run_swap
  run_swap-Swapped program_id accounts stored ledger read closed sound apart e =
      let (a, _, e) = >>=-eq-ok (swap_accounts accounts) _ e in
      let (loaded, load, e) = >>=-eq-ok (load_amm_checked program_id a.amm_account stored) _ e in
      let (same, _) = load_amm_checked-eq-ok program_id a.amm_account stored load in
      swap_loaded-Swapped program_id a stored ledger read closed sound apart
        (ap (λ (x : AmmInfo). swap_loaded r program_id quote settle_with a x ledger) (sym same) ∙ e)
