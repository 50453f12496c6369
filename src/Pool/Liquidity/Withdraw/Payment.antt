-- ===== src/Pool/Liquidity/Withdraw/Payment.antt =====
-- The checks and the payments of `process_withdraw`, program/src/processor.rs.
use raydium_amm_mod.Base.{
  ℕ, ◌+◌, ◌%◌, ◌<◌, ◌≡◌, ◌∙◌, refl, sym, ap, arith, Bool, false, not, some, ltb, ◌==◌, ◌!=◌, ◌||◌,
  Bool-cases, inl, inr,
}
use raydium_amm_mod.Error.{AmmError, ok, >>=-eq-ok, fail_if-eq-ok, require-eq-ok, ok-injective}
use raydium_amm_mod.Math.Decimals.{normalize_decimal_v2}
use raydium_amm_mod.State.AmmStatus
use raydium_amm_mod.State.AmmStatus.{AmmStatus}
use raydium_amm_mod.State.AmmInfo.{AmmInfo, TargetOrders}
use raydium_amm_mod.Pool.Runtime.{
  Runtime, unpack_token_account, unpack_mint, authority_id, token_transfer_with_authority,
  amount_of,
}
use raydium_amm_mod.Pool.Tokens.{
  TokenLaws, IsPool, amount_at, unpack_token_account-eq-ok, transfer_out, transfer-IsPool,
  token_burn-IsUntouched,
}
use raydium_amm_mod.Pool.Liquidity.{PoolHoldings, Growth}
use raydium_amm_mod.Pool.Liquidity.Setup.{
  IsAside, Moves-IsAside, IsChecked, IsChecked-at, vault_keys, set_aside-Moves,
}
use raydium_amm_mod.Pool.Swap.Setup.{equal_keys}
use raydium_amm_mod.Pool.Liquidity.Withdraw.{
  WithdrawInstruction, WithdrawAccounts, WithdrawAmounts, check_withdraw, withdraw_growth,
  pay_withdraw,
}

-- The accounts that `check_withdraw` lets through.
abbrev pub WithdrawChecked :
    (r : Runtime) → r.Ledger → WithdrawAccounts → AmmInfo → PoolHoldings → Type 0
WithdrawChecked r l a amm h =
    IsChecked r l a.amm_coin_vault.key a.amm_pc_vault.key a.amm_lp_mint.key a.user_dest_coin.key
      a.user_dest_pc.key amm h

short_of : (supply amount lp : ℕ) → (ltb supply amount || not (ltb amount lp)) ≡ false → amount < lp
short_of supply amount lp h = ground arith

pub check_withdraw-WithdrawChecked :
    (r : Runtime) (program_id : ℕ) (a : WithdrawAccounts) (w : WithdrawInstruction) (amm : AmmInfo)
    (l : r.Ledger) {status : AmmStatus} {book : Bool} {h : PoolHoldings}
    → AmmStatus.from_u64 amm.status ≡ ok status
    → check_withdraw r program_id a w amm l ≡ ok (book, h)
    → (book ≡ AmmStatus.orderbook_permission status)
      × (w.amount < amm.lp_amount)
      × WithdrawChecked r l a amm h
unfolding check_withdraw
check_withdraw-WithdrawChecked r program_id a w amm l {status} {book} {h} read e =
    let (status', read', e) = >>=-eq-ok (AmmStatus.from_u64 amm.status) _ e in
    let (_, e) = require-eq-ok (AmmStatus.withdraw_permission status') AmmError.invalid_status e in
    let (authority, _, e) = >>=-eq-ok (authority_id r program_id (amm.nonce % 256)) _ e in
    let (_, e) =
      fail_if-eq-ok (a.amm_authority.key != authority) AmmError.invalid_program_address e in
    let (_, e) =
      fail_if-eq-ok (a.token_program.key != r.spl_token_id) AmmError.invalid_spl_token_program e in
    let (coin, e) =
      fail_if-eq-ok
        (a.amm_coin_vault.key != amm.coin_vault || a.user_dest_coin.key == amm.coin_vault)
        AmmError.invalid_coin_vault e in
    let (pc, e) =
      fail_if-eq-ok (a.amm_pc_vault.key != amm.pc_vault || a.user_dest_pc.key == amm.pc_vault)
        AmmError.invalid_pc_vault e in
    let (_, e) =
      fail_if-eq-ok (a.amm_target_orders.key != amm.target_orders) AmmError.invalid_target_orders
        e in
    let (lp, e) = fail_if-eq-ok (a.amm_lp_mint.key != amm.lp_mint) AmmError.invalid_pool_mint e in
    let program = a.token_program.key in
    let (coin_vault, e₁, e) = >>=-eq-ok (unpack_token_account r l a.amm_coin_vault program) _ e in
    let (pc_vault, e₂, e) = >>=-eq-ok (unpack_token_account r l a.amm_pc_vault program) _ e in
    let (_, _, e) = >>=-eq-ok (unpack_token_account r l a.user_dest_coin program) _ e in
    let (_, _, e) = >>=-eq-ok (unpack_token_account r l a.user_dest_pc program) _ e in
    let (supply, _, e) = >>=-eq-ok (unpack_mint r l a.amm_lp_mint program) _ e in
    let (source, _, e) = >>=-eq-ok (unpack_token_account r l a.user_source_lp program) _ e in
    let (_, e) = fail_if-eq-ok (source.mint != a.amm_lp_mint.key) AmmError.invalid_token_lp e in
    let (_, e) = fail_if-eq-ok (ltb source.amount w.amount) AmmError.insufficient_funds e in
    let (short, e) =
      fail_if-eq-ok (ltb supply w.amount || not (ltb w.amount amm.lp_amount))
        AmmError.not_allow_zero_lp e in
    let (coin_key, not_coin) =
      vault_keys a.amm_coin_vault.key amm.coin_vault a.user_dest_coin.key coin in
    let (pc_key, not_pc) = vault_keys a.amm_pc_vault.key amm.pc_vault a.user_dest_pc.key pc in
    let same = ok-injective e in
    let coin_at = unpack_token_account-eq-ok r l a.amm_coin_vault program e₁ in
    let pc_at = unpack_token_account-eq-ok r l a.amm_pc_vault program e₂ in
    (
      ap (λ (p : Bool × PoolHoldings). p.0) (sym same)
          ∙ ap AmmStatus.orderbook_permission (ok-injective (sym read' ∙ read)),
      short_of supply w.amount amm.lp_amount short,
      IsChecked-at r l a.amm_coin_vault.key a.amm_pc_vault.key a.amm_lp_mint.key
          a.user_dest_coin.key a.user_dest_pc.key amm (ap (λ (p : Bool × PoolHoldings). p.1) same)
          (record {
            coin_key = coin_key;
            pc_key = pc_key;
            lp_key = equal_keys a.amm_lp_mint.key amm.lp_mint lp;
            not_coin = not_coin;
            not_pc = not_pc;
            coin_amount = ap (amount_at r l) (sym coin_key) ∙ ap amount_of coin_at;
            pc_amount = ap (amount_at r l) (sym pc_key) ∙ ap amount_of pc_at;
          }),
    )

-- The payments out of the two vaults.
pub record IsPaid (r : Runtime) (amm : AmmInfo) (s : WithdrawAmounts) (l l' : r.Ledger)
    : Type 0 where
  pub coin_went : amount_at r l' amm.coin_vault + s.coin_amount ≡ amount_at r l amm.coin_vault
  pub pc_went : amount_at r l' amm.pc_vault + s.pc_amount ≡ amount_at r l amm.pc_vault
  pub pool : IsPool r amm l'

pub pay_withdraw-IsPaid :
    (r : Runtime) (laws : TokenLaws r) (a : WithdrawAccounts) (amm : AmmInfo) (amount : ℕ)
    (s : WithdrawAmounts) (l : r.Ledger) {l' : r.Ledger} {h : PoolHoldings}
    → IsPool r amm l
    → WithdrawChecked r l a amm h
    → pay_withdraw r a amm amount s l ≡ ok l'
    → IsPaid r amm s l l'
unfolding pay_withdraw token_transfer_with_authority
pay_withdraw-IsPaid r laws a amm amount s l {l'} p c e =
    let program = a.token_program.key in
    let owner = a.amm_authority.key in
    let nonce = amm.nonce % 256 in
    let coin = a.user_dest_coin.key in
    let pc = a.user_dest_pc.key in
    let (l₁, e₁, e) =
      >>=-eq-ok
        (token_transfer_with_authority r program a.amm_coin_vault.key coin owner nonce s.coin_amount
          l)
        _ e in
    let (l₂, e₂, e₃) =
      >>=-eq-ok
        (token_transfer_with_authority r program a.amm_pc_vault.key pc owner nonce s.pc_amount l₁) _
        e in
    let e₁ = rw c.coin_key at e₁ in
    let e₂ = rw c.pc_key at e₂ in
    let e₃ = rw c.lp_key at e₃ in
    let p₁ =
      transfer-IsPool r laws l l₁ program amm.coin_vault coin owner s.coin_amount (some nonce) amm
        e₁ p in
    let p₂ =
      transfer-IsPool r laws l₁ l₂ program amm.pc_vault pc owner s.pc_amount (some nonce) amm e₂
        p₁ in
    let (coin₁, pc₁) =
      transfer_out r laws l l₁ program amm.coin_vault coin owner s.coin_amount (some nonce)
        amm.pc_vault e₁ c.not_coin p.coin p.pc p.apart in
    let (pc₂, coin₂) =
      transfer_out r laws l₁ l₂ program amm.pc_vault pc owner s.pc_amount (some nonce)
        amm.coin_vault e₂ c.not_pc p₁.pc p₁.coin (λ same. p.apart (sym same)) in
    let u =
      token_burn-IsUntouched r laws amm l₂ l' program a.user_source_lp.key a.source_lp_owner.key
        amount e₃ p₂ in
    record {
      coin_went = ap (λ (n : ℕ). n + s.coin_amount) (u.coin ∙ coin₂) ∙ coin₁;
      pc_went = ap (λ (n : ℕ). n + s.pc_amount) u.pc ∙ pc₂ ∙ pc₁;
      pool = u.pool;
    }

-- Either profit is set aside or, where only withdrawals are permitted, none.
pub withdraw_growth-IsAside :
    (r : Runtime) (l : r.Ledger) (target : TargetOrders) (amm : AmmInfo) (total_pc total_coin : ℕ)
    {g : Growth}
    → total_pc + amm.state_data.need_take_pnl_pc ≡ amount_at r l amm.pc_vault
    → total_coin + amm.state_data.need_take_pnl_coin ≡ amount_at r l amm.coin_vault
    → withdraw_growth r target amm total_pc total_coin ≡ ok g
    → IsAside r l amm g
unfolding withdraw_growth
withdraw_growth-IsAside r l target amm total_pc total_coin pc_is coin_is e =
    elim (Bool-cases (amm.status != AmmStatus.into_u64 AmmStatus.withdraw_only)) [
      | inl open_ ↦
          Moves-IsAside r l amm total_pc total_coin _ pc_is coin_is
            (set_aside-Moves r target amm total_pc total_coin (rw open_ at e))
      | inr closed ↦
          let e = rw closed at e in
          let (x1, _, e) =
            >>=-eq-ok (normalize_decimal_v2 total_pc amm.pc_decimals amm.sys_decimal_value) _ e in
          let (y1, _, e) =
            >>=-eq-ok (normalize_decimal_v2 total_coin amm.coin_decimals amm.sys_decimal_value) _
              e in
          rw (← ok-injective e) (record {
            moves_kept = refl;
            pc_aside = omega arith;
            coin_aside = omega arith;
            pc_taken = inl (refl, refl);
            coin_taken = inl (refl, refl);
            pc_is = pc_is;
            coin_is = coin_is;
          })
    ]
