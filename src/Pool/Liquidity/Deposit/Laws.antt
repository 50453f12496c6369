-- ===== src/Pool/Liquidity/Deposit/Laws.antt =====
-- What a successful `process_deposit` of program/src/processor.rs has done.
use raydium_amm_mod.Base.{
  ℕ, ◌+◌, ◌-◌, ◌≤◌, ◌<◌, ◌≡◌, ◌∙◌, refl, sym, ap, arith, Bool, false, List, ltb, ◌==◌, ◌||◌,
}
use raydium_amm_mod.Error.{AmmError, ok, >>=-eq-ok, fail_if-eq-ok, ok-injective}
use raydium_amm_mod.Checked.{add, add-eq-ok}
use raydium_amm_mod.State.AmmStatus
use raydium_amm_mod.State.AmmStatus.{AmmStatus}
use raydium_amm_mod.State.AmmInfo.{AmmInfo, TargetOrders}
use raydium_amm_mod.Pool.Runtime.{Runtime, AccountInfo}
use raydium_amm_mod.Pool.Tokens.{TokenLaws, IsPool, amount_at, SameKeys-IsPool}
use raydium_amm_mod.Pool.Swap.{load_amm_checked}
use raydium_amm_mod.Pool.Swap.Setup.{load_amm_checked-eq-ok}
use raydium_amm_mod.Pool.SetParams.{load_target_checked}
use raydium_amm_mod.Pool.Liquidity.{PoolHoldings, Growth, pool_totals, set_aside}
use raydium_amm_mod.Pool.Liquidity.Setup.{
  three_nonzero, shares-SameKeys, IsChecked-keys, pool_totals-eq-ok, set_aside-Moves, IsAside,
  Moves-IsAside, IsAside-SameKeys, IsAside-lp, IsTaken, SharesKept, shares-SharesKept,
}
use raydium_amm_mod.Pool.Liquidity.Deposit.{
  DepositInstruction, DepositAccounts, DepositAmounts, deposit_accounts, deposit_keys,
  quote_deposit, raise_target, check_deposit, pay_deposit, execute_deposit, process_deposit,
}
use raydium_amm_mod.Pool.Liquidity.Deposit.Quote.{IsAgreed, quote_deposit-IsAgreed}
use raydium_amm_mod.Pool.Liquidity.Deposit.Payment.{
  DepositChecked, check_deposit-DepositChecked, IsPaid, pay_deposit-IsPaid,
}

-- The deposit of `s` takes the pool from `amm` and `l` to `amm'` and `l'`: the two amounts are in the
-- vaults, the shares are counted, the owner's profit (`IsTaken`) has been set aside before, the amounts are
-- those that `IsAgreed` says for the totals without that profit, and nothing else of the pool's account changes.
pub record IsDeposit (r : Runtime) (d : DepositInstruction) (s : DepositAmounts) (amm : AmmInfo)
    (l : r.Ledger) (amm' : AmmInfo) (l' : r.Ledger) : Type 0 where
  pub coin_came : amount_at r l' amm.coin_vault ≡ amount_at r l amm.coin_vault + s.deduct_coin
  pub pc_came : amount_at r l' amm.pc_vault ≡ amount_at r l amm.pc_vault + s.deduct_pc
  pub minted : amm'.lp_amount ≡ amm.lp_amount + s.mint_lp
  pub some_coin : 0 < s.deduct_coin
  pub some_pc : 0 < s.deduct_pc
  pub some_lp : 0 < s.mint_lp
  pub some_shares : 0 < amm.lp_amount
  pub pc_aside : amm.state_data.need_take_pnl_pc ≤ amm'.state_data.need_take_pnl_pc
  pub coin_aside : amm.state_data.need_take_pnl_coin ≤ amm'.state_data.need_take_pnl_coin
  pub pc_taken :
      IsTaken amm.fees
        (amount_at r l amm.pc_vault - amm.state_data.need_take_pnl_pc)
        amm.state_data.total_pnl_pc
        amm'.state_data.total_pnl_pc
        amm.state_data.need_take_pnl_pc
        amm'.state_data.need_take_pnl_pc
  pub coin_taken :
      IsTaken amm.fees
        (amount_at r l amm.coin_vault - amm.state_data.need_take_pnl_coin)
        amm.state_data.total_pnl_coin
        amm'.state_data.total_pnl_coin
        amm.state_data.need_take_pnl_coin
        amm'.state_data.need_take_pnl_coin
  pub pc_covered : amm'.state_data.need_take_pnl_pc ≤ amount_at r l amm.pc_vault
  pub coin_covered : amm'.state_data.need_take_pnl_coin ≤ amount_at r l amm.coin_vault
  pub agreed :
      IsAgreed d amm.lp_amount
        (amount_at r l amm.pc_vault - amm'.state_data.need_take_pnl_pc)
        (amount_at r l amm.coin_vault - amm'.state_data.need_take_pnl_coin)
        s
  pub pool : IsPool r amm' l'
  pub kept : SharesKept amm amm'

≢0→pos : (n : ℕ) → (n == 0) ≡ false → 0 < n
≢0→pos n h = ground arith

-- What the second half does to the account that it is given, `mid`.
execute_deposit-eq-ok :
    (r : Runtime) (a : DepositAccounts) (d : DepositInstruction) (mid : AmmInfo)
    (target : TargetOrders) (h : PoolHoldings) (g : Growth) (l : r.Ledger) {amm' : AmmInfo}
    {target' : TargetOrders} {l' : r.Ledger}
    → execute_deposit r a d mid target h g l ≡ ok (amm', target', l')
    → (s : DepositAmounts) × (quote_deposit d mid.lp_amount g.pnl.total_pc g.pnl.total_coin ≡ ok s)
      × (pay_deposit r a mid s l ≡ ok l')
      × ((0 < s.mint_lp) × (0 < s.deduct_coin) × (0 < s.deduct_pc))
      × (0 < mid.lp_amount)
      × (amm'
          ≡ record mid { lp_amount = mid.lp_amount + s.mint_lp; recent_epoch = amm'.recent_epoch })
unfolding execute_deposit
execute_deposit-eq-ok r a d mid target h g l e =
    let (shares, e) = fail_if-eq-ok (mid.lp_amount == 0) AmmError.not_allow_zero_lp e in
    let (s, quoted, e) =
      >>=-eq-ok (quote_deposit d mid.lp_amount g.pnl.total_pc g.pnl.total_coin) _ e in
    let (_, e) =
      fail_if-eq-ok (ltb h.user_coin.amount s.deduct_coin || ltb h.user_pc.amount s.deduct_pc)
        AmmError.insufficient_funds e in
    let (some_all, e) =
      fail_if-eq-ok (s.mint_lp == 0 || s.deduct_coin == 0 || s.deduct_pc == 0)
        AmmError.invalid_input e in
    let (paid_l, paid, e) = >>=-eq-ok (pay_deposit r a mid s l) _ e in
    let (lp, sum, e) = >>=-eq-ok (add 64 mid.lp_amount s.mint_lp) _ e in
    let (x, _, e) =
      >>=-eq-ok (raise_target g.x1 s.deduct_pc mid.pc_decimals mid g.pnl.delta_x) _ e in
    let (y, _, e) =
      >>=-eq-ok (raise_target g.y1 s.deduct_coin mid.coin_decimals mid g.pnl.delta_y) _ e in
    let (clock, _, e) = >>=-eq-ok r.get_clock _ e in
    let same = ok-injective e in
    let amm_is = ap (λ (p : AmmInfo × TargetOrders × r.Ledger). p.0) same in
    let ledger_is = ap (λ (p : AmmInfo × TargetOrders × r.Ledger). p.2) same in
    (
      s,
      quoted,
      paid ∙ ap ok ledger_is,
      three_nonzero s.mint_lp s.deduct_coin s.deduct_pc some_all,
      ≢0→pos mid.lp_amount shares,
      rw (← amm_is, ← (add-eq-ok 64 mid.lp_amount s.mint_lp sum).0) refl,
    )

IsAgreed-at :
    (d : DepositInstruction) (s : DepositAmounts) {lp lp' pc pc' coin coin' : ℕ}
    → lp ≡ lp'
    → pc ≡ pc'
    → coin ≡ coin'
    → IsAgreed d lp pc coin s
    → IsAgreed d lp' pc' coin' s
IsAgreed-at d s same_lp same_pc same_coin agreed = rw (← same_lp, ← same_pc, ← same_coin) agreed

-- The account with the profit set aside, seen from the one that is stored.
finished :
    (r : Runtime) (d : DepositInstruction) (s : DepositAmounts) (amm : AmmInfo) (l : r.Ledger)
    (g : Growth) {amm' : AmmInfo} {l' : r.Ledger}
    → IsAside r l amm g
    → (0 < s.mint_lp) × (0 < s.deduct_coin) × (0 < s.deduct_pc)
    → 0 < g.pnl.amm.lp_amount
    → amm' ≡ record (g.pnl.amm) {
      lp_amount = g.pnl.amm.lp_amount + s.mint_lp;
      recent_epoch = amm'.recent_epoch;
    }
    → IsPaid r g.pnl.amm s l l'
    → IsAgreed d g.pnl.amm.lp_amount g.pnl.total_pc g.pnl.total_coin s
    → IsDeposit r d s amm l amm' l'
finished r d s amm l g {amm'} {l'} aside (lp, coin, pc) shares same paid agreed =
    let keys = IsAside-SameKeys r l amm g aside in
    let lp_is = IsAside-lp r l amm g aside in
    let kept = shares-SharesKept r l amm g (g.pnl.amm.lp_amount + s.mint_lp) aside same in
    let need_pc : amm'.state_data.need_take_pnl_pc ≡ g.pnl.amm.state_data.need_take_pnl_pc =
      ap (λ (x : AmmInfo). x.state_data.need_take_pnl_pc) same in
    let need_coin : amm'.state_data.need_take_pnl_coin ≡ g.pnl.amm.state_data.need_take_pnl_coin =
      ap (λ (x : AmmInfo). x.state_data.need_take_pnl_coin) same in
    let pc_is = aside.pc_is in
    let coin_is = aside.coin_is in
    record {
      coin_came =
          ap (amount_at r l') (sym keys.coin_vault)
          ∙ paid.coin_came
          ∙ ap (λ (k : ℕ). amount_at r l k + s.deduct_coin) keys.coin_vault;
      pc_came =
          ap (amount_at r l') (sym keys.pc_vault)
          ∙ paid.pc_came
          ∙ ap (λ (k : ℕ). amount_at r l k + s.deduct_pc) keys.pc_vault;
      minted = ap (λ (x : AmmInfo). x.lp_amount) same ∙ ap (λ (n : ℕ). n + s.mint_lp) lp_is;
      some_coin = coin;
      some_pc = pc;
      some_lp = lp;
      some_shares = rw (← lp_is) shares;
      pc_aside = rw need_pc aside.pc_aside;
      coin_aside = rw need_coin aside.coin_aside;
      pc_taken = rw (need_pc, ap (λ (x : AmmInfo). x.state_data.total_pnl_pc) same) aside.pc_taken;
      coin_taken =
          rw (need_coin, ap (λ (x : AmmInfo). x.state_data.total_pnl_coin) same) aside.coin_taken;
      pc_covered = omega arith;
      coin_covered = omega arith;
      agreed = IsAgreed-at d s lp_is (omega arith) (omega arith) agreed;
      pool =
          SameKeys-IsPool r l' g.pnl.amm amm'
            (shares-SameKeys g.pnl.amm (g.pnl.amm.lp_amount + s.mint_lp) same) paid.pool;
      kept = kept;
    }

-- The second half, on totals that the vaults hold.
execute_deposit-IsDeposit :
    (r : Runtime) (laws : TokenLaws r) (a : DepositAccounts) (d : DepositInstruction)
    (amm : AmmInfo) (target : TargetOrders) (h : PoolHoldings) (g : Growth) (l : r.Ledger)
    {amm' : AmmInfo} {target' : TargetOrders} {l' : r.Ledger}
    → IsPool r amm l
    → DepositChecked r l a amm h
    → IsAside r l amm g
    → execute_deposit r a d g.pnl.amm target h g l ≡ ok (amm', target', l')
    → (s : DepositAmounts) × IsDeposit r d s amm l amm' l'
execute_deposit-IsDeposit r laws a d amm target h g l {amm'} {target'} {l'} p c aside e =
    let mid = g.pnl.amm in
    let keys = IsAside-SameKeys r l amm g aside in
    let (s, quoted, paid, (lp, coin, pc), shares, same) =
      execute_deposit-eq-ok r a d mid target h g l e in
    let pc_is = aside.pc_is in
    let coin_is = aside.coin_is in
    let pc_lt = laws.transfers.fits l amm.pc_vault in
    let coin_lt = laws.transfers.fits l amm.coin_vault in
    let agreed =
      quote_deposit-IsAgreed d mid.lp_amount g.pnl.total_pc g.pnl.total_coin
        (omega (arith, pc_is, pc_lt)) (omega (arith, coin_is, coin_lt)) pc coin quoted in
    let done =
      pay_deposit-IsPaid r laws a mid s l (SameKeys-IsPool r l amm mid keys p)
        (IsChecked-keys r l a.amm_coin_vault.key a.amm_pc_vault.key a.amm_lp_mint.key
          a.user_source_coin.key a.user_source_pc.key amm mid h keys c)
        paid in
    (s, finished r d s amm l g aside (lp, coin, pc) shares same done agreed)

-- From the account that is loaded on.
from_loaded :
    (r : Runtime) (laws : TokenLaws r) (program_id : ℕ) (a : DepositAccounts)
    (d : DepositInstruction) (stored loaded : AmmInfo) (target : TargetOrders) (h : PoolHoldings)
    (g : Growth) (l : r.Ledger) (total_pc total_coin : ℕ) {book : Bool} {status : AmmStatus}
    {amm' : AmmInfo} {target' : TargetOrders} {l' : r.Ledger}
    → loaded ≡ stored
    → AmmStatus.from_u64 stored.status ≡ ok status
    → AmmStatus.orderbook_permission status ≡ false
    → IsPool r stored l
    → check_deposit r program_id a d loaded l ≡ ok (book, h)
    → pool_totals r book (deposit_keys a) loaded h l ≡ ok (total_pc, total_coin)
    → set_aside r target loaded total_pc total_coin ≡ ok g
    → execute_deposit r a d g.pnl.amm target h g l ≡ ok (amm', target', l')
    → (s : DepositAmounts) × IsDeposit r d s stored l amm' l'
from_loaded r laws program_id a d stored loaded target h g l total_pc total_coin {book} same read
      closed p checked totals grown e =
    let checked = rw same at checked in
    let totals = rw same at totals in
    let grown = rw same at grown in
    let (book_is, c) = check_deposit-DepositChecked r program_id a d stored l read checked in
    let no_book : book ≡ false = book_is ∙ closed in
    let (pc_is, coin_is) = pool_totals-eq-ok r (deposit_keys a) stored h l (rw no_book at totals) in
    let moved = set_aside-Moves r target stored total_pc total_coin grown in
    execute_deposit-IsDeposit r laws a d stored target h g l p c
      (Moves-IsAside r l stored total_pc total_coin g (pc_is ∙ sym c.pc_amount)
        (coin_is ∙ sym c.coin_amount) moved)
      e

-- Under the laws of the token program, for a pool without an order book whose vaults hold its two tokens,
-- a successful `process_deposit` is a deposit (`IsDeposit`).
pub process_deposit-IsDeposit :
    (r : Runtime) (laws : TokenLaws r) (program_id : ℕ) (accounts : List AccountInfo)
    (d : DepositInstruction) (stored : AmmInfo) (stored_target : TargetOrders) (ledger : r.Ledger)
    {status : AmmStatus} {amm : AmmInfo} {target : TargetOrders} {ledger' : r.Ledger}
    → AmmStatus.from_u64 stored.status ≡ ok status
    → AmmStatus.orderbook_permission status ≡ false
    → IsPool r stored ledger
    → process_deposit r program_id accounts d stored stored_target ledger
      ≡ ok (amm, target, ledger')
    → (s : DepositAmounts) × IsDeposit r d s stored ledger amm ledger'
unfolding process_deposit
process_deposit-IsDeposit r laws program_id accounts d stored stored_target ledger read closed p e =
    let (a, _, e) = >>=-eq-ok (deposit_accounts accounts) _ e in
    let (loaded, load, e) = >>=-eq-ok (load_amm_checked program_id a.amm_account stored) _ e in
    let (loaded_is, _) = load_amm_checked-eq-ok program_id a.amm_account stored load in
    let ((book, h), checked, e) = >>=-eq-ok (check_deposit r program_id a d loaded ledger) _ e in
    let (target, _, e) =
      >>=-eq-ok (load_target_checked program_id a.amm_target_orders a.amm_account.key stored_target)
        _ e in
    let ((total_pc, total_coin), totals, e) =
      >>=-eq-ok (pool_totals r book (deposit_keys a) loaded h ledger) _ e in
    let (g, grown, e) = >>=-eq-ok (set_aside r target loaded total_pc total_coin) _ e in
    from_loaded r laws program_id a d stored loaded target h g ledger total_pc total_coin loaded_is
      read closed p checked totals grown e
