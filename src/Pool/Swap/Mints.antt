-- ===== src/Pool/Swap/Mints.antt =====
-- A swap of program/src/processor.rs changes no mint, so that the pool's vaults keep holding its tokens.
use raydium_amm_mod.Base.{ℕ, ◌%◌, ◌≡◌, ◌∙◌, ap, false, some, none, List}
use raydium_amm_mod.Error.{ok, >>=-eq-ok}
use raydium_amm_mod.Math.Swap.{SwapDirection}
use raydium_amm_mod.State.AmmStatus
use raydium_amm_mod.State.AmmStatus.{AmmStatus}
use raydium_amm_mod.State.AmmInfo.{AmmInfo}
use raydium_amm_mod.Pool.Runtime.{
  Runtime, AccountInfo, token_transfer, token_transfer_with_authority,
}
use raydium_amm_mod.Pool.Tokens.{TokenLaws, IsPool, transfer-IsPool}
use raydium_amm_mod.Pool.Swap.{
  SwapAccounts, swap_accounts, load_amm_checked, check_swap_accounts, update_swap_status,
  swap_totals, find_direction,
}
use raydium_amm_mod.Pool.Swap.Setup.{load_amm_checked-eq-ok}
use raydium_amm_mod.Pool.Swap.Quote.{SwapAmounts}
use raydium_amm_mod.Pool.Swap.Execute.{vault_in, vault_out, pay}
use raydium_amm_mod.Pool.Swap.Execute.Laws.{execute_swap-eq-ok}
use raydium_amm_mod.Pool.Swap.Run.{Quote, swap_loaded, run_swap}

module _ (r : Runtime) (laws : TokenLaws r) (amm : AmmInfo) where
  pay-IsPool :
      (direction : SwapDirection) (a : SwapAccounts) (mid : AmmInfo) (s : SwapAmounts)
      (l : r.Ledger) {l' : r.Ledger}
      → IsPool r amm l
      → pay r direction a mid s l ≡ ok l'
      → IsPool r amm l'
  unfolding pay token_transfer token_transfer_with_authority
  pay-IsPool direction a mid s l {l'} p e =
      let (m, came, went) =
        >>=-eq-ok
          (token_transfer r a.token_program.key a.user_source.key (vault_in direction a)
            a.user_source_owner.key s.amount_in l)
          _ e in
      transfer-IsPool r laws m l' a.token_program.key (vault_out direction a) a.user_destination.key
        a.amm_authority.key s.amount_out (some (mid.nonce % 256)) amm went
        (transfer-IsPool r laws l m a.token_program.key a.user_source.key (vault_in direction a)
          a.user_source_owner.key s.amount_in none amm came p)

  module _ (quote : Quote) (settle_with : SwapDirection → SwapAccounts → ℕ) (program_id : ℕ)
      {status : AmmStatus} where
    swap_loaded-IsPool :
        (a : SwapAccounts) (loaded : AmmInfo) (l : r.Ledger) {amm' : AmmInfo} {l' : r.Ledger}
        → AmmStatus.from_u64 loaded.status ≡ ok status
        → AmmStatus.orderbook_permission status ≡ false
        → IsPool r amm l
        → swap_loaded r program_id quote settle_with a loaded l ≡ ok (amm', l')
        → IsPool r amm l'
    unfolding swap_loaded
    swap_loaded-IsPool a loaded l read closed p e =
        let (h, _, e) =
          >>=-eq-ok (check_swap_accounts r program_id a loaded l) _ (rw (read, closed) at e) in
        let (mid, _, e) = >>=-eq-ok (update_swap_status r loaded) _ e in
        let (t, _, e) = >>=-eq-ok (swap_totals r a mid h false l) _ e in
        let (direction, _, e) = >>=-eq-ok (find_direction h) _ e in
        let (s, _, e) =
          >>=-eq-ok (quote mid.fees h.user_source.amount t.total_pc t.total_coin direction) _ e in
        let (_, paid, _, _) =
          execute_swap-eq-ok r direction a mid h t s (settle_with direction a) l e in
        pay-IsPool direction a mid s l p paid

    -- Without an order book, a swap that succeeds leaves the vaults with the pool's tokens.
    pub run_swap-IsPool :
        (accounts : List AccountInfo) (stored : AmmInfo) (l : r.Ledger) {amm' : AmmInfo}
        {l' : r.Ledger}
        → AmmStatus.from_u64 stored.status ≡ ok status
        → AmmStatus.orderbook_permission status ≡ false
        → IsPool r amm l
        → run_swap r program_id quote settle_with accounts stored l ≡ ok (amm', l')
        → IsPool r amm l'
    unfolding run_swap
    run_swap-IsPool accounts stored l read closed p e =
        let (a, _, e) = >>=-eq-ok (swap_accounts accounts) _ e in
        let (loaded, load, e) = >>=-eq-ok (load_amm_checked program_id a.amm_account stored) _ e in
        let (same, _) = load_amm_checked-eq-ok program_id a.amm_account stored load in
        swap_loaded-IsPool a loaded l
          (ap (λ (x : AmmInfo). AmmStatus.from_u64 x.status) same ∙ read) closed p e
