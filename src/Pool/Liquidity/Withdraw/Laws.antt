-- ===== src/Pool/Liquidity/Withdraw/Laws.antt =====
-- What a successful `process_withdraw` of program/src/processor.rs has done.
use native.Mathlib.Nat.{div-mul-le_self, lt-mul-div-succ, mul_comm}
use raydium_amm_mod.Base.{
  ℕ, ◌+◌, ◌-◌, ◌*◌, ◌/◌, ◌≤◌, ◌<◌, ◌≡◌, ◌∙◌, refl, sym, ap, arith, Bool, false, not, List, ltb,
  ◌==◌, ◌&&◌, ◌||◌,
}
use raydium_amm_mod.Error.{AmmError, ok, >>=-eq-ok, fail_if-eq-ok, require-eq-ok, ok-injective}
use raydium_amm_mod.Checked.{sub, sub-eq-ok}
use raydium_amm_mod.Math.Invariant.{RoundDirection, exchange, exchange_pool_to_token}
use raydium_amm_mod.State.AmmStatus
use raydium_amm_mod.State.AmmStatus.{AmmStatus}
use raydium_amm_mod.State.AmmInfo.{AmmInfo, TargetOrders}
use raydium_amm_mod.Pool.Runtime.{Runtime, AccountInfo}
use raydium_amm_mod.Pool.Tokens.{TokenLaws, IsPool, amount_at, SameKeys-IsPool}
use raydium_amm_mod.Pool.Swap.{load_amm_checked}
use raydium_amm_mod.Pool.Swap.Setup.{load_amm_checked-eq-ok}
use raydium_amm_mod.Pool.SetParams.{load_target_checked}
use raydium_amm_mod.Math.Vault.{calc_total_without_take_pnl_no_orderbook}
use raydium_amm_mod.Pool.Liquidity.{PoolHoldings, Growth, rate}
use raydium_amm_mod.Pool.Liquidity.Setup.{
  three_nonzero, no_orderbook-eq-ok, IsAside, IsAside-SameKeys, IsAside-lp, IsTaken, SharesKept,
  shares-SharesKept, shares-SameKeys, IsChecked-keys,
}
use raydium_amm_mod.Pool.Liquidity.Deposit.Quote.{exchange_floor-eq-ok}
use raydium_amm_mod.Pool.Liquidity.Withdraw.{
  WithdrawInstruction, WithdrawAccounts, WithdrawAmounts, withdraw_accounts, quote_withdraw,
  misses_minimums, lower_target, check_referrer, check_withdraw, withdraw_growth, pay_withdraw,
  execute_withdraw,
}
use raydium_amm_mod.Pool.Liquidity.Withdraw.Book.{withdraw_totals, process_withdraw}
use raydium_amm_mod.Pool.Liquidity.Withdraw.Payment.{
  WithdrawChecked, check_withdraw-WithdrawChecked, IsPaid, pay_withdraw-IsPaid,
  withdraw_growth-IsAside,
}

-- `paid` is the part of `total` that `amount` of `lp` shares stand for, rounded down.
abbrev pub IsPart : ℕ → ℕ → ℕ → ℕ → Type 0
IsPart amount lp total paid = (paid * lp ≤ total * amount) × (total * amount < (paid + 1) * lp)

part :
    (amount lp total : ℕ) {paid : ℕ}
    → rate (exchange total amount lp RoundDirection.floor) ≡ ok paid
    → IsPart amount lp total paid
part amount lp total {paid} e =
    let (paid_is, pos, _) = exchange_floor-eq-ok total amount lp e in
    let most = lt-mul-div-succ (total * amount) pos in
    (
      rw paid_is (div-mul-le_self (total * amount) lp),
      rw paid_is (omega (arith, most, mul_comm lp (total * amount / lp + 1))),
    )

quote_withdraw-IsPart :
    (amount lp pc coin : ℕ) {s : WithdrawAmounts}
    → quote_withdraw amount lp pc coin ≡ ok s
    → IsPart amount lp coin s.coin_amount × IsPart amount lp pc s.pc_amount
unfolding quote_withdraw exchange_pool_to_token
quote_withdraw-IsPart amount lp pc coin {s} h =
    let (paid_coin, e₁, h) = >>=-eq-ok (rate (exchange coin amount lp RoundDirection.floor)) _ h in
    let (paid_pc, e₂, h) = >>=-eq-ok (rate (exchange pc amount lp RoundDirection.floor)) _ h in
    rw (← ok-injective h) (part amount lp coin e₁, part amount lp pc e₂)

-- The withdrawal of `s` takes the pool from `amm` and `l` to `amm'` and `l'`: the two amounts have left
-- the vaults, the shares are counted, the owner's profit (`IsTaken`) has been set aside before, each amount is the
-- part of the total without that profit that the shares stand for, and nothing else of the pool's account changes.
pub record IsWithdraw (r : Runtime) (w : WithdrawInstruction) (s : WithdrawAmounts) (amm : AmmInfo)
    (l : r.Ledger) (amm' : AmmInfo) (l' : r.Ledger) : Type 0 where
  pub coin_went : amount_at r l' amm.coin_vault + s.coin_amount ≡ amount_at r l amm.coin_vault
  pub pc_went : amount_at r l' amm.pc_vault + s.pc_amount ≡ amount_at r l amm.pc_vault
  pub burnt : amm'.lp_amount + w.amount ≡ amm.lp_amount
  pub some_lp : 0 < w.amount
  pub some_coin : 0 < s.coin_amount
  pub some_pc : 0 < s.pc_amount
  pub shares_left : 0 < amm'.lp_amount
  pub minimums : misses_minimums w s ≡ false
  pub pc_aside : amm.state_data.need_take_pnl_pc ≤ amm'.state_data.need_take_pnl_pc
  pub coin_aside : amm.state_data.need_take_pnl_coin ≤ amm'.state_data.need_take_pnl_coin
  pub pc_taken :
      IsTaken amm.fees
        (amount_at r l amm.pc_vault - amm.state_data.need_take_pnl_pc)
        amm.state_data.total_pnl_pc
        amm'.state_data.total_pnl_pc
        amm.state_data.need_take_pnl_pc
        amm'.state_data.need_take_pnl_pc
  pub coin_taken :
      IsTaken amm.fees
        (amount_at r l amm.coin_vault - amm.state_data.need_take_pnl_coin)
        amm.state_data.total_pnl_coin
        amm'.state_data.total_pnl_coin
        amm.state_data.need_take_pnl_coin
        amm'.state_data.need_take_pnl_coin
  pub pc_covered : amm'.state_data.need_take_pnl_pc ≤ amount_at r l amm.pc_vault
  pub coin_covered : amm'.state_data.need_take_pnl_coin ≤ amount_at r l amm.coin_vault
  pub coin_part :
      IsPart w.amount amm.lp_amount
        (amount_at r l amm.coin_vault - amm'.state_data.need_take_pnl_coin)
        s.coin_amount
  pub pc_part :
      IsPart w.amount amm.lp_amount
        (amount_at r l amm.pc_vault - amm'.state_data.need_take_pnl_pc)
        s.pc_amount
  pub pool : IsPool r amm' l'
  pub kept : SharesKept amm amm'

-- What the second half does to the account that it is given, `mid`.
execute_withdraw-eq-ok :
    (r : Runtime) (a : WithdrawAccounts) (w : WithdrawInstruction) (mid : AmmInfo)
    (target : TargetOrders) (h : PoolHoldings) (g : Growth) (l : r.Ledger) {amm' : AmmInfo}
    {target' : TargetOrders} {l' : r.Ledger}
    → execute_withdraw r a w mid target h g l ≡ ok (amm', target', l')
    → (s : WithdrawAmounts) × (quote_withdraw w.amount mid.lp_amount g.pnl.total_pc g.pnl.total_coin
        ≡ ok s)
      × (pay_withdraw r a mid w.amount s l ≡ ok l')
      × ((0 < w.amount) × (0 < s.coin_amount) × (0 < s.pc_amount))
      × (misses_minimums w s ≡ false)
      × (w.amount ≤ mid.lp_amount)
      × (amm'
          ≡ record mid { lp_amount = mid.lp_amount - w.amount; recent_epoch = amm'.recent_epoch })
unfolding execute_withdraw
execute_withdraw-eq-ok r a w mid target h g l e =
    let (s, quoted, e) =
      >>=-eq-ok (quote_withdraw w.amount mid.lp_amount g.pnl.total_pc g.pnl.total_coin) _ e in
    let (some_all, e) =
      fail_if-eq-ok (w.amount == 0 || s.coin_amount == 0 || s.pc_amount == 0) AmmError.invalid_input
        e in
    let (_, e) =
      fail_if-eq-ok
        (not (ltb s.coin_amount h.coin_vault.amount && ltb s.pc_amount h.pc_vault.amount))
        AmmError.take_pnl_error e in
    let (minimums, e) = fail_if-eq-ok (misses_minimums w s) AmmError.exceeded_slippage e in
    let (paid_l, paid, e) = >>=-eq-ok (pay_withdraw r a mid w.amount s l) _ e in
    let (lp, rest, e) = >>=-eq-ok (sub mid.lp_amount w.amount) _ e in
    let (x, _, e) =
      >>=-eq-ok (lower_target g.x1 s.pc_amount mid.pc_decimals mid g.pnl.delta_x) _ e in
    let (y, _, e) =
      >>=-eq-ok (lower_target g.y1 s.coin_amount mid.coin_decimals mid g.pnl.delta_y) _ e in
    let (clock, _, e) = >>=-eq-ok r.get_clock _ e in
    let same = ok-injective e in
    let amm_is = ap (λ (p : AmmInfo × TargetOrders × r.Ledger). p.0) same in
    let ledger_is = ap (λ (p : AmmInfo × TargetOrders × r.Ledger). p.2) same in
    let (rest_is, le) = sub-eq-ok mid.lp_amount w.amount rest in
    let lp_is : lp ≡ mid.lp_amount - w.amount = omega (arith, rest_is) in
    (
      s,
      quoted,
      paid ∙ ap ok ledger_is,
      three_nonzero w.amount s.coin_amount s.pc_amount some_all,
      minimums,
      le,
      rw (← amm_is, ← lp_is) refl,
    )

IsPart-at :
    (amount paid : ℕ) {lp lp' total total' : ℕ}
    → lp ≡ lp'
    → total ≡ total'
    → IsPart amount lp total paid
    → IsPart amount lp' total' paid
IsPart-at amount paid same_lp same_total p = rw (← same_lp, ← same_total) p

-- The account with the profit set aside, seen from the one that is stored.
finished :
    (r : Runtime) (w : WithdrawInstruction) (s : WithdrawAmounts) (amm : AmmInfo) (l : r.Ledger)
    (g : Growth) {amm' : AmmInfo} {l' : r.Ledger}
    → IsAside r l amm g
    → (0 < w.amount) × (0 < s.coin_amount) × (0 < s.pc_amount)
    → misses_minimums w s ≡ false
    → w.amount < amm.lp_amount
    → amm' ≡ record (g.pnl.amm) {
      lp_amount = g.pnl.amm.lp_amount - w.amount;
      recent_epoch = amm'.recent_epoch;
    }
    → IsPaid r g.pnl.amm s l l'
    → IsPart w.amount g.pnl.amm.lp_amount g.pnl.total_coin s.coin_amount
    → IsPart w.amount g.pnl.amm.lp_amount g.pnl.total_pc s.pc_amount
    → IsWithdraw r w s amm l amm' l'
finished r w s amm l g {amm'} {l'} aside (lp, coin, pc) minimums short same paid coin_part pc_part =
    let keys = IsAside-SameKeys r l amm g aside in
    let lp_is = IsAside-lp r l amm g aside in
    let lp_left : amm'.lp_amount ≡ g.pnl.amm.lp_amount - w.amount =
      ap (λ (x : AmmInfo). x.lp_amount) same in
    let need_pc : amm'.state_data.need_take_pnl_pc ≡ g.pnl.amm.state_data.need_take_pnl_pc =
      ap (λ (x : AmmInfo). x.state_data.need_take_pnl_pc) same in
    let need_coin : amm'.state_data.need_take_pnl_coin ≡ g.pnl.amm.state_data.need_take_pnl_coin =
      ap (λ (x : AmmInfo). x.state_data.need_take_pnl_coin) same in
    let pc_is = aside.pc_is in
    let coin_is = aside.coin_is in
    record {
      coin_went =
          ap (λ (k : ℕ). amount_at r l' k + s.coin_amount) (sym keys.coin_vault)
          ∙ paid.coin_went
          ∙ ap (amount_at r l) keys.coin_vault;
      pc_went =
          ap (λ (k : ℕ). amount_at r l' k + s.pc_amount) (sym keys.pc_vault)
          ∙ paid.pc_went
          ∙ ap (amount_at r l) keys.pc_vault;
      burnt = omega arith;
      some_lp = lp;
      some_coin = coin;
      some_pc = pc;
      shares_left = omega arith;
      minimums = minimums;
      pc_aside = rw need_pc aside.pc_aside;
      coin_aside = rw need_coin aside.coin_aside;
      pc_taken = rw (need_pc, ap (λ (x : AmmInfo). x.state_data.total_pnl_pc) same) aside.pc_taken;
      coin_taken =
          rw (need_coin, ap (λ (x : AmmInfo). x.state_data.total_pnl_coin) same) aside.coin_taken;
      pc_covered = omega arith;
      coin_covered = omega arith;
      coin_part = IsPart-at w.amount s.coin_amount lp_is (omega arith) coin_part;
      pc_part = IsPart-at w.amount s.pc_amount lp_is (omega arith) pc_part;
      pool =
          SameKeys-IsPool r l' g.pnl.amm amm'
            (shares-SameKeys g.pnl.amm (g.pnl.amm.lp_amount - w.amount) same) paid.pool;
      kept = shares-SharesKept r l amm g (g.pnl.amm.lp_amount - w.amount) aside same;
    }

withdraw_totals-eq-ok :
    (r : Runtime) (a : WithdrawAccounts) (amm : AmmInfo) (h : PoolHoldings) (referrer : ℕ)
    (l : r.Ledger) {total : ℕ × ℕ} {l' : r.Ledger}
    → withdraw_totals r false a amm h referrer l ≡ ok (total, l')
    → (total.0 + amm.state_data.need_take_pnl_pc ≡ h.pc_vault.amount)
      × (total.1 + amm.state_data.need_take_pnl_coin ≡ h.coin_vault.amount)
      × (l' ≡ l)
unfolding withdraw_totals
withdraw_totals-eq-ok r a amm h referrer l {total} {l'} e =
    let (totals, found, e) =
      >>=-eq-ok
        (calc_total_without_take_pnl_no_orderbook h.pc_vault.amount h.coin_vault.amount
          amm.state_data.need_take_pnl_pc amm.state_data.need_take_pnl_coin)
        _ e in
    let same = ok-injective e in
    let totals_is : totals ≡ total = ap (λ (p : (ℕ × ℕ) × r.Ledger). p.0) same in
    let (pc_is, coin_is) =
      no_orderbook-eq-ok h.pc_vault.amount h.coin_vault.amount amm.state_data.need_take_pnl_pc
        amm.state_data.need_take_pnl_coin found in
    (
      ap (λ (p : ℕ × ℕ). p.0 + amm.state_data.need_take_pnl_pc) (sym totals_is) ∙ pc_is,
      ap (λ (p : ℕ × ℕ). p.1 + amm.state_data.need_take_pnl_coin) (sym totals_is) ∙ coin_is,
      sym (ap (λ (p : (ℕ × ℕ) × r.Ledger). p.1) same),
    )

-- The second half, on totals that the vaults hold.
execute_withdraw-IsWithdraw :
    (r : Runtime) (laws : TokenLaws r) (a : WithdrawAccounts) (w : WithdrawInstruction)
    (amm : AmmInfo) (target : TargetOrders) (h : PoolHoldings) (g : Growth) (l : r.Ledger)
    {amm' : AmmInfo} {target' : TargetOrders} {l' : r.Ledger}
    → IsPool r amm l
    → w.amount < amm.lp_amount
    → WithdrawChecked r l a amm h
    → IsAside r l amm g
    → execute_withdraw r a w g.pnl.amm target h g l ≡ ok (amm', target', l')
    → (s : WithdrawAmounts) × IsWithdraw r w s amm l amm' l'
execute_withdraw-IsWithdraw r laws a w amm target h g l p short c aside e =
    let mid = g.pnl.amm in
    let keys = IsAside-SameKeys r l amm g aside in
    let (s, quoted, paid, some_all, minimums, _, same) =
      execute_withdraw-eq-ok r a w mid target h g l e in
    let (coin_part, pc_part) =
      quote_withdraw-IsPart w.amount mid.lp_amount g.pnl.total_pc g.pnl.total_coin quoted in
    let done =
      pay_withdraw-IsPaid r laws a mid w.amount s l (SameKeys-IsPool r l amm mid keys p)
        (IsChecked-keys r l a.amm_coin_vault.key a.amm_pc_vault.key a.amm_lp_mint.key
          a.user_dest_coin.key a.user_dest_pc.key amm mid h keys c)
        paid in
    (s, finished r w s amm l g aside some_all minimums short same done coin_part pc_part)

-- From the account that is loaded on.
from_loaded :
    (r : Runtime) (laws : TokenLaws r) (program_id referrer : ℕ) (a : WithdrawAccounts)
    (w : WithdrawInstruction) (stored loaded : AmmInfo) (target : TargetOrders) (h : PoolHoldings)
    (g : Growth) (l settled : r.Ledger) (total_pc total_coin : ℕ) {book : Bool} {status : AmmStatus}
    {amm' : AmmInfo} {target' : TargetOrders} {l' : r.Ledger}
    → loaded ≡ stored
    → AmmStatus.from_u64 stored.status ≡ ok status
    → AmmStatus.orderbook_permission status ≡ false
    → IsPool r stored l
    → check_withdraw r program_id a w loaded l ≡ ok (book, h)
    → withdraw_totals r book a loaded h referrer l ≡ ok ((total_pc, total_coin), settled)
    → withdraw_growth r target loaded total_pc total_coin ≡ ok g
    → execute_withdraw r a w g.pnl.amm target h g settled ≡ ok (amm', target', l')
    → (s : WithdrawAmounts) × IsWithdraw r w s stored l amm' l'
from_loaded r laws program_id referrer a w stored loaded target h g l settled total_pc total_coin
      {book} same read closed p checked totals grown e =
    let checked = rw same at checked in
    let totals = rw same at totals in
    let grown = rw same at grown in
    let (book_is, short, c) =
      check_withdraw-WithdrawChecked r program_id a w stored l read checked in
    let no_book : book ≡ false = book_is ∙ closed in
    let (pc_is, coin_is, unsettled) =
      withdraw_totals-eq-ok r a stored h referrer l (rw no_book at totals) in
    execute_withdraw-IsWithdraw r laws a w stored target h g l p short c
      (withdraw_growth-IsAside r l target stored total_pc total_coin (pc_is ∙ sym c.pc_amount)
        (coin_is ∙ sym c.coin_amount) grown)
      (rw unsettled at e)

-- Under the laws of the token program, for a pool without an order book whose vaults hold its two tokens,
-- a successful `process_withdraw` is a withdrawal (`IsWithdraw`).
pub process_withdraw-IsWithdraw :
    (r : Runtime) (laws : TokenLaws r) (referrer_id program_id : ℕ) (accounts : List AccountInfo)
    (w : WithdrawInstruction) (stored : AmmInfo) (stored_target : TargetOrders) (ledger : r.Ledger)
    {status : AmmStatus} {amm : AmmInfo} {target : TargetOrders} {ledger' : r.Ledger}
    → AmmStatus.from_u64 stored.status ≡ ok status
    → AmmStatus.orderbook_permission status ≡ false
    → IsPool r stored ledger
    → process_withdraw r referrer_id program_id accounts w stored stored_target ledger
      ≡ ok (amm, target, ledger')
    → (s : WithdrawAmounts) × IsWithdraw r w s stored ledger amm ledger'
unfolding process_withdraw
process_withdraw-IsWithdraw r laws referrer_id program_id accounts w stored stored_target ledger
      read closed p e =
    let (a, _, e) = >>=-eq-ok (withdraw_accounts accounts) _ e in
    let (referrer, _, e) =
      >>=-eq-ok (check_referrer r referrer_id a a.referrer_pc_wallet ledger) _ e in
    let (_, e) = require-eq-ok a.source_lp_owner.is_signer AmmError.invalid_sign_account e in
    let (loaded, load, e) = >>=-eq-ok (load_amm_checked program_id a.amm_account stored) _ e in
    let (loaded_is, _) = load_amm_checked-eq-ok program_id a.amm_account stored load in
    let (target, _, e) =
      >>=-eq-ok (load_target_checked program_id a.amm_target_orders a.amm_account.key stored_target)
        _ e in
    let ((book, h), checked, e) = >>=-eq-ok (check_withdraw r program_id a w loaded ledger) _ e in
    let (((total_pc, total_coin), settled), totals, e) =
      >>=-eq-ok (withdraw_totals r book a loaded h referrer ledger) _ e in
    let (g, grown, e) = >>=-eq-ok (withdraw_growth r target loaded total_pc total_coin) _ e in
    from_loaded r laws program_id referrer a w stored loaded target h g ledger settled total_pc
      total_coin loaded_is read closed p checked totals grown e
