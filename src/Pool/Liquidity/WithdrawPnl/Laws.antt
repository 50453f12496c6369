-- ===== src/Pool/Liquidity/WithdrawPnl/Laws.antt =====
-- What a successful `process_withdrawpnl` of program/src/processor.rs has done.
use raydium_amm_mod.Base.{
  ℕ, ◌+◌, ◌-◌, ◌%◌, arith, ◌≡◌, ◌≢◌, ◌∙◌, refl, sym, ap, Bool, false, not, List, leb, ◌!=◌, ◌&&◌,
}
use raydium_amm_mod.Error.{AmmError, ok, >>=-eq-ok, fail_if-eq-ok, ok-injective}
use raydium_amm_mod.Checked.{sub}
use raydium_amm_mod.State.AmmStatus
use raydium_amm_mod.State.AmmStatus.{AmmStatus}
use raydium_amm_mod.State.AmmConfig.{AmmConfig}
use raydium_amm_mod.State.AmmInfo.{AmmInfo, TargetOrders}
use raydium_amm_mod.Pool.Runtime.{Runtime, AccountInfo, authority_id}
use raydium_amm_mod.Pool.Tokens.{TokenLaws, IsPool, SameKeys-IsPool, amount_at}
use raydium_amm_mod.Pool.Swap.{load_amm_checked}
use raydium_amm_mod.Pool.Swap.Setup.{load_amm_checked-eq-ok}
use raydium_amm_mod.Pool.SetParams.{load_target_checked}
use raydium_amm_mod.Pool.Liquidity.{PoolHoldings, Growth, pool_totals, set_aside}
use raydium_amm_mod.Pool.Liquidity.Setup.{
  IsTaken, IsAside, Moves-IsAside, IsAside-SameKeys, pool_totals-eq-ok, set_aside-Moves,
}
use raydium_amm_mod.Pool.Liquidity.WithdrawPnl.{
  WithdrawPnlAccounts, withdrawpnl_accounts, withdrawpnl_keys, paid_out, check_referrer_owner,
  check_pnl_owner, check_withdrawpnl, check_pnl_mints, pay_pnl, execute_withdrawpnl,
  process_withdrawpnl,
}
use raydium_amm_mod.Pool.Liquidity.WithdrawPnl.Payment.{
  MayTakePnl, check_pnl_owner-MayTakePnl, check_withdrawpnl-IsChecked, IsPaid, pay_pnl-IsPaid,
}

-- The payout takes the pool from `amm` and `l` to `amm'` and `l'`: exactly what is owed has left the vaults,
-- which is what was owed and, on each side, the owner's part of the growth that is added to the sum of
-- profit. Nothing is owed any more, and nothing else changes of the pool's account but the epoch.
pub record IsPayout (r : Runtime) (owed_pc owed_coin : ℕ) (amm : AmmInfo) (l : r.Ledger)
    (amm' : AmmInfo) (l' : r.Ledger) : Type 0 where
  pub coin_went : amount_at r l' amm.coin_vault + owed_coin ≡ amount_at r l amm.coin_vault
  pub pc_went : amount_at r l' amm.pc_vault + owed_pc ≡ amount_at r l amm.pc_vault
  pub pc_taken :
      IsTaken amm.fees
        (amount_at r l amm.pc_vault - amm.state_data.need_take_pnl_pc)
        amm.state_data.total_pnl_pc
        amm'.state_data.total_pnl_pc
        amm.state_data.need_take_pnl_pc
        owed_pc
  pub coin_taken :
      IsTaken amm.fees
        (amount_at r l amm.coin_vault - amm.state_data.need_take_pnl_coin)
        amm.state_data.total_pnl_coin
        amm'.state_data.total_pnl_coin
        amm.state_data.need_take_pnl_coin
        owed_coin
  pub pool : IsPool r amm' l'
  pub kept : amm' ≡ record amm {
    recent_epoch = amm'.recent_epoch;
    state_data = record (amm.state_data) {
      total_pnl_pc = amm'.state_data.total_pnl_pc;
      total_pnl_coin = amm'.state_data.total_pnl_coin;
      need_take_pnl_pc = 0;
      need_take_pnl_coin = 0;
    };
  }

execute_withdrawpnl-eq-ok :
    (r : Runtime) (a : WithdrawPnlAccounts) (mid : AmmInfo) (target : TargetOrders)
    (h : PoolHoldings) (g : Growth) (l : r.Ledger) {amm' : AmmInfo} {target' : TargetOrders}
    {l' : r.Ledger}
    → execute_withdrawpnl r a mid target h g l ≡ ok (amm', target', l')
    → (pay_pnl r a mid l ≡ ok l') × (amm' ≡ paid_out mid amm'.recent_epoch)
unfolding execute_withdrawpnl
execute_withdrawpnl-eq-ok r a mid target h g l e =
    let (_, e) =
      fail_if-eq-ok
        (not (
          leb mid.state_data.need_take_pnl_coin h.coin_vault.amount
          && leb mid.state_data.need_take_pnl_pc h.pc_vault.amount))
        AmmError.take_pnl_error e in
    let (paid_l, paid, e) = >>=-eq-ok (pay_pnl r a mid l) _ e in
    let (x, _, e) = >>=-eq-ok (sub g.x1 g.pnl.delta_x) _ e in
    let (y, _, e) = >>=-eq-ok (sub g.y1 g.pnl.delta_y) _ e in
    let (clock, _, e) = >>=-eq-ok r.get_clock _ e in
    let same = ok-injective e in
    let amm_is = ap (λ (p : AmmInfo × TargetOrders × r.Ledger). p.0) same in
    let ledger_is = ap (λ (p : AmmInfo × TargetOrders × r.Ledger). p.2) same in
    (paid ∙ ap ok ledger_is, rw (← amm_is) refl)

-- The account with the profit set aside, seen from the one that is stored.
finished :
    (r : Runtime) (amm : AmmInfo) (l : r.Ledger) (g : Growth) {amm' : AmmInfo} {l' : r.Ledger}
    → IsAside r l amm g
    → amm' ≡ paid_out g.pnl.amm amm'.recent_epoch
    → IsPaid r g.pnl.amm l l'
    → IsPayout r g.pnl.amm.state_data.need_take_pnl_pc g.pnl.amm.state_data.need_take_pnl_coin amm l
        amm' l'
finished r amm l g {amm'} {l'} aside same paid =
    let keys = IsAside-SameKeys r l amm g aside in
    let d = g.pnl.amm.state_data in
    record {
      coin_went =
          ap (λ (k : ℕ). amount_at r l' k + d.need_take_pnl_coin) (sym keys.coin_vault)
          ∙ paid.coin_went
          ∙ ap (amount_at r l) keys.coin_vault;
      pc_went =
          ap (λ (k : ℕ). amount_at r l' k + d.need_take_pnl_pc) (sym keys.pc_vault)
          ∙ paid.pc_went
          ∙ ap (amount_at r l) keys.pc_vault;
      pc_taken = rw (ap (λ (x : AmmInfo). x.state_data.total_pnl_pc) same) aside.pc_taken;
      coin_taken = rw (ap (λ (x : AmmInfo). x.state_data.total_pnl_coin) same) aside.coin_taken;
      pool =
          SameKeys-IsPool r l' g.pnl.amm amm'
            (record {
              coin_vault = ap (λ (x : AmmInfo). x.coin_vault) same;
              pc_vault = ap (λ (x : AmmInfo). x.pc_vault) same;
              coin_vault_mint = ap (λ (x : AmmInfo). x.coin_vault_mint) same;
              pc_vault_mint = ap (λ (x : AmmInfo). x.pc_vault_mint) same;
              lp_mint = ap (λ (x : AmmInfo). x.lp_mint) same;
            })
            paid.pool;
      kept =
          same
          ∙ ap (λ (x : AmmInfo). paid_out x amm'.recent_epoch) aside.moves_kept
          ∙ ap
              (λ (x : AmmInfo). record amm {
                recent_epoch = amm'.recent_epoch;
                state_data = record (amm.state_data) {
                  total_pnl_pc = x.state_data.total_pnl_pc;
                  total_pnl_coin = x.state_data.total_pnl_coin;
                  need_take_pnl_pc = 0;
                  need_take_pnl_coin = 0;
                };
              })
              (sym same);
    }

-- What is owed once the profit is set aside, at what the vaults hold beyond what was owed.
abbrev pub PaysOwed :
    (r : Runtime) (target : TargetOrders) (amm : AmmInfo) (l : r.Ledger) (amm' : AmmInfo)
    (l' : r.Ledger)
    → Type 0
PaysOwed r target amm l amm' l' =
    (g : Growth) × (set_aside r target amm
        (amount_at r l amm.pc_vault - amm.state_data.need_take_pnl_pc)
        (amount_at r l amm.coin_vault - amm.state_data.need_take_pnl_coin)
      ≡ ok g)
    × IsPayout r g.pnl.amm.state_data.need_take_pnl_pc g.pnl.amm.state_data.need_take_pnl_coin amm l
        amm' l'

-- The payout, by the one who may take the profit.
abbrev pub PaysOut :
    (r : Runtime) (owner_id : ℕ) (config : AmmConfig) (a : WithdrawPnlAccounts)
    (target : TargetOrders) (amm : AmmInfo) (l : r.Ledger) (amm' : AmmInfo) (l' : r.Ledger)
    → Type 0
PaysOut r owner_id config a target amm l amm' l' =
    MayTakePnl owner_id config a × PaysOwed r target amm l amm' l'

load_target_checked-eq-ok :
    (program_id : ℕ) (account : AccountInfo) (owner : ℕ) (stored : TargetOrders)
    {loaded : TargetOrders}
    → load_target_checked program_id account owner stored ≡ ok loaded
    → stored ≡ loaded
unfolding load_target_checked
load_target_checked-eq-ok program_id account owner stored h =
    let (_, h) =
      fail_if-eq-ok (account.owner != program_id) AmmError.invalid_target_account_owner h in
    let (_, h) = fail_if-eq-ok (account.data_len != 2208) AmmError.expected_account h in
    let (_, h) = fail_if-eq-ok (stored.owner != owner) AmmError.invalid_target_owner h in
    ok-injective h

-- From the account that is loaded on.
from_loaded :
    (r : Runtime) (laws : TokenLaws r) (a : WithdrawPnlAccounts) (stored loaded : AmmInfo)
    (stored_target target : TargetOrders) (h : PoolHoldings) (g : Growth) (l : r.Ledger)
    (total_pc total_coin : ℕ) {book : Bool} {amm' : AmmInfo} {target' : TargetOrders}
    {l' : r.Ledger}
    → loaded ≡ stored
    → stored_target ≡ target
    → book ≡ false
    → IsPool r stored l
    → a.user_pnl_coin.key ≢ stored.coin_vault
    → a.user_pnl_pc.key ≢ stored.pc_vault
    → check_withdrawpnl r a loaded l ≡ ok h
    → pool_totals r book (withdrawpnl_keys a) loaded h l ≡ ok (total_pc, total_coin)
    → set_aside r target loaded total_pc total_coin ≡ ok g
    → execute_withdrawpnl r a g.pnl.amm target h g l ≡ ok (amm', target', l')
    → PaysOwed r stored_target stored l amm' l'
from_loaded r laws a stored loaded stored_target target h g l total_pc total_coin same same_target
      no_book p not_coin not_pc checked totals grown e =
    let c = check_withdrawpnl-IsChecked r a stored l (rw same at checked) in
    let totals = rw (same, no_book) at totals in
    let grown = rw same at grown in
    let (pc_is, coin_is) = pool_totals-eq-ok r (withdrawpnl_keys a) stored h l totals in
    let aside =
      Moves-IsAside r l stored total_pc total_coin g (pc_is ∙ sym c.pc_amount)
        (coin_is ∙ sym c.coin_amount) (set_aside-Moves r target stored total_pc total_coin grown) in
    let keys = IsAside-SameKeys r l stored g aside in
    let (paid, after) = execute_withdrawpnl-eq-ok r a g.pnl.amm target h g l e in
    let done =
      pay_pnl-IsPaid r laws a g.pnl.amm l (SameKeys-IsPool r l stored g.pnl.amm keys p)
        (c.coin_key ∙ sym keys.coin_vault) (c.pc_key ∙ sym keys.pc_vault)
        (λ at_coin. not_coin (at_coin ∙ keys.coin_vault)) (λ at_pc. not_pc (at_pc ∙ keys.pc_vault))
        paid in
    let free_pc : total_pc ≡ amount_at r l stored.pc_vault - stored.state_data.need_take_pnl_pc =
      omega (arith, pc_is, c.pc_amount) in
    let free_coin : total_coin
        ≡ amount_at r l stored.coin_vault - stored.state_data.need_take_pnl_coin =
      omega (arith, coin_is, c.coin_amount) in
    (g, rw (← free_pc, ← free_coin, same_target) grown, finished r stored l g aside after done)

-- Under the laws of the token program, for a pool without an order book whose vaults hold its two tokens,
-- and a payee that is not the vaults, a successful `process_withdrawpnl` was signed by the program's owner
-- or the one that the configuration names. The profit is set aside at what the vaults hold beyond what was
-- owed, and exactly what is then owed has left the vaults: what was owed and, on each side, the owner's part,
-- rounded down, of the growth that is added to the sum of profit, which is at most what the side held.
-- Nothing is owed any more, and nothing else of the pool's account changes but the epoch.
pub process_withdrawpnl-PaysOut :
    (r : Runtime) (laws : TokenLaws r) (referrer_id owner_id program_id : ℕ)
    (accounts : List AccountInfo) (config : AmmConfig) (stored : AmmInfo)
    (stored_target : TargetOrders) (ledger : r.Ledger) (a : WithdrawPnlAccounts)
    {status : AmmStatus} {amm : AmmInfo} {target : TargetOrders} {ledger' : r.Ledger}
    → AmmStatus.from_u64 stored.status ≡ ok status
    → AmmStatus.orderbook_permission status ≡ false
    → IsPool r stored ledger
    → withdrawpnl_accounts accounts ≡ ok a
    → a.user_pnl_coin.key ≢ stored.coin_vault
    → a.user_pnl_pc.key ≢ stored.pc_vault
    → process_withdrawpnl r referrer_id owner_id program_id accounts config stored stored_target
        ledger
      ≡ ok (amm, target, ledger')
    → PaysOut r owner_id config a stored_target stored ledger amm ledger'
unfolding process_withdrawpnl
process_withdrawpnl-PaysOut r laws referrer_id owner_id program_id accounts config stored
      stored_target ledger a read closed p named not_coin not_pc e =
    let e = rw named at e in
    let (_, _, e) =
      >>=-eq-ok (check_referrer_owner r referrer_id a a.referrer_pc_wallet ledger) _ e in
    let (loaded, load, e) = >>=-eq-ok (load_amm_checked program_id a.amm_account stored) _ e in
    let (loaded_is, _) = load_amm_checked-eq-ok program_id a.amm_account stored load in
    let (authority, _, e) = >>=-eq-ok (authority_id r program_id (loaded.nonce % 256)) _ e in
    let (_, e) =
      fail_if-eq-ok (a.amm_authority.key != authority) AmmError.invalid_program_address e in
    let (_, e) = fail_if-eq-ok (a.amm_account.owner != program_id) AmmError.invalid_owner e in
    let (status', read', e) = >>=-eq-ok (AmmStatus.from_u64 loaded.status) _ e in
    let status_is =
      ok-injective
        (sym read' ∙ ap (λ (x : AmmInfo). AmmStatus.from_u64 x.status) loaded_is ∙ read) in
    let no_book = ap AmmStatus.orderbook_permission status_is ∙ closed in
    let (_, may, e) = >>=-eq-ok (check_pnl_owner r owner_id program_id a config) _ e in
    let (h, checked, e) = >>=-eq-ok (check_withdrawpnl r a loaded ledger) _ e in
    let (target, load_target, e) =
      >>=-eq-ok (load_target_checked program_id a.amm_target_orders a.amm_account.key stored_target)
        _ e in
    let (_, _, e) = >>=-eq-ok (check_pnl_mints r loaded h) _ e in
    let ((total_pc, total_coin), totals, e) =
      >>=-eq-ok
        (pool_totals r (AmmStatus.orderbook_permission status') (withdrawpnl_keys a) loaded h
          ledger)
        _ e in
    let (g, grown, e) = >>=-eq-ok (set_aside r target loaded total_pc total_coin) _ e in
    (
      check_pnl_owner-MayTakePnl r owner_id program_id a config may,
      from_loaded r laws a stored loaded stored_target target h g ledger total_pc total_coin
          loaded_is
          (load_target_checked-eq-ok program_id a.amm_target_orders a.amm_account.key stored_target
            load_target)
          no_book p not_coin not_pc checked totals grown e,
    )
