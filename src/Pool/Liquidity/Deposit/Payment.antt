-- ===== src/Pool/Liquidity/Deposit/Payment.antt =====
-- The checks and the payments of `process_deposit`, program/src/processor.rs.
use raydium_amm_mod.Base.{ℕ, ◌+◌, ◌%◌, ◌≡◌, ◌∙◌, sym, ap, Bool, none, ◌==◌, ◌!=◌, ◌||◌}
use raydium_amm_mod.Error.{AmmError, ok, >>=-eq-ok, fail_if-eq-ok, require-eq-ok, ok-injective}
use raydium_amm_mod.State.AmmStatus
use raydium_amm_mod.State.AmmStatus.{AmmStatus}
use raydium_amm_mod.State.AmmInfo.{AmmInfo}
use raydium_amm_mod.Pool.Runtime.{
  Runtime, unpack_token_account, authority_id, token_transfer, amount_of,
}
use raydium_amm_mod.Pool.Tokens.{
  TokenLaws, IsPool, amount_at, unpack_token_account-eq-ok, transfer_in, transfer-IsPool,
  token_mint_to-IsUntouched,
}
use raydium_amm_mod.Pool.Swap.Setup.{equal_keys}
use raydium_amm_mod.Pool.Liquidity.{PoolHoldings}
use raydium_amm_mod.Pool.Liquidity.Setup.{IsChecked, IsChecked-at, vault_keys}
use raydium_amm_mod.Pool.Liquidity.Deposit.{
  DepositInstruction, DepositAccounts, DepositAmounts, check_deposit, pay_deposit,
}

-- The accounts that `check_deposit` lets through.
abbrev pub DepositChecked :
    (r : Runtime) → r.Ledger → DepositAccounts → AmmInfo → PoolHoldings → Type 0
DepositChecked r l a amm h =
    IsChecked r l a.amm_coin_vault.key a.amm_pc_vault.key a.amm_lp_mint.key a.user_source_coin.key
      a.user_source_pc.key amm h

pub check_deposit-DepositChecked :
    (r : Runtime) (program_id : ℕ) (a : DepositAccounts) (d : DepositInstruction) (amm : AmmInfo)
    (l : r.Ledger) {status : AmmStatus} {book : Bool} {h : PoolHoldings}
    → AmmStatus.from_u64 amm.status ≡ ok status
    → check_deposit r program_id a d amm l ≡ ok (book, h)
    → (book ≡ AmmStatus.orderbook_permission status) × DepositChecked r l a amm h
unfolding check_deposit
check_deposit-DepositChecked r program_id a d amm l {status} {book} {h} read e =
    let (_, e) =
      fail_if-eq-ok (d.max_coin_amount == 0 || d.max_pc_amount == 0) AmmError.invalid_input e in
    let (_, e) = require-eq-ok a.source_owner.is_signer AmmError.invalid_sign_account e in
    let (status', read', e) = >>=-eq-ok (AmmStatus.from_u64 amm.status) _ e in
    let (_, e) = require-eq-ok (AmmStatus.deposit_permission status') AmmError.invalid_status e in
    let (authority, _, e) = >>=-eq-ok (authority_id r program_id (amm.nonce % 256)) _ e in
    let (_, e) =
      fail_if-eq-ok (a.amm_authority.key != authority) AmmError.invalid_program_address e in
    let (_, e) =
      fail_if-eq-ok (a.token_program.key != r.spl_token_id) AmmError.invalid_spl_token_program e in
    let (coin, e) =
      fail_if-eq-ok
        (a.amm_coin_vault.key != amm.coin_vault || a.user_source_coin.key == amm.coin_vault)
        AmmError.invalid_coin_vault e in
    let (pc, e) =
      fail_if-eq-ok (a.amm_pc_vault.key != amm.pc_vault || a.user_source_pc.key == amm.pc_vault)
        AmmError.invalid_pc_vault e in
    let (lp, e) = fail_if-eq-ok (a.amm_lp_mint.key != amm.lp_mint) AmmError.invalid_pool_mint e in
    let (_, e) =
      fail_if-eq-ok (a.amm_target_orders.key != amm.target_orders) AmmError.invalid_target_orders
        e in
    let program = a.token_program.key in
    let (coin_vault, e₁, e) = >>=-eq-ok (unpack_token_account r l a.amm_coin_vault program) _ e in
    let (pc_vault, e₂, e) = >>=-eq-ok (unpack_token_account r l a.amm_pc_vault program) _ e in
    let (_, _, e) = >>=-eq-ok (unpack_token_account r l a.user_source_coin program) _ e in
    let (_, _, e) = >>=-eq-ok (unpack_token_account r l a.user_source_pc program) _ e in
    let (coin_key, not_coin) =
      vault_keys a.amm_coin_vault.key amm.coin_vault a.user_source_coin.key coin in
    let (pc_key, not_pc) = vault_keys a.amm_pc_vault.key amm.pc_vault a.user_source_pc.key pc in
    let same = ok-injective e in
    let coin_at = unpack_token_account-eq-ok r l a.amm_coin_vault program e₁ in
    let pc_at = unpack_token_account-eq-ok r l a.amm_pc_vault program e₂ in
    (
      ap (λ (p : Bool × PoolHoldings). p.0) (sym same)
          ∙ ap AmmStatus.orderbook_permission (ok-injective (sym read' ∙ read)),
      IsChecked-at r l a.amm_coin_vault.key a.amm_pc_vault.key a.amm_lp_mint.key
          a.user_source_coin.key a.user_source_pc.key amm
          (ap (λ (p : Bool × PoolHoldings). p.1) same)
          (record {
            coin_key = coin_key;
            pc_key = pc_key;
            lp_key = equal_keys a.amm_lp_mint.key amm.lp_mint lp;
            not_coin = not_coin;
            not_pc = not_pc;
            coin_amount = ap (amount_at r l) (sym coin_key) ∙ ap amount_of coin_at;
            pc_amount = ap (amount_at r l) (sym pc_key) ∙ ap amount_of pc_at;
          }),
    )

-- The payments into the two vaults.
pub record IsPaid (r : Runtime) (amm : AmmInfo) (s : DepositAmounts) (l l' : r.Ledger)
    : Type 0 where
  pub coin_came : amount_at r l' amm.coin_vault ≡ amount_at r l amm.coin_vault + s.deduct_coin
  pub pc_came : amount_at r l' amm.pc_vault ≡ amount_at r l amm.pc_vault + s.deduct_pc
  pub pool : IsPool r amm l'

pub pay_deposit-IsPaid :
    (r : Runtime) (laws : TokenLaws r) (a : DepositAccounts) (amm : AmmInfo) (s : DepositAmounts)
    (l : r.Ledger) {l' : r.Ledger} {h : PoolHoldings}
    → IsPool r amm l
    → DepositChecked r l a amm h
    → pay_deposit r a amm s l ≡ ok l'
    → IsPaid r amm s l l'
unfolding pay_deposit token_transfer
pay_deposit-IsPaid r laws a amm s l {l'} p c e =
    let program = a.token_program.key in
    let owner = a.source_owner.key in
    let (l₁, e₁, e) =
      >>=-eq-ok
        (token_transfer r program a.user_source_coin.key a.amm_coin_vault.key owner s.deduct_coin l)
        _ e in
    let (l₂, e₂, e₃) =
      >>=-eq-ok
        (token_transfer r program a.user_source_pc.key a.amm_pc_vault.key owner s.deduct_pc l₁) _
        e in
    let e₁ = rw c.coin_key at e₁ in
    let e₂ = rw c.pc_key at e₂ in
    let e₃ = rw c.lp_key at e₃ in
    let p₁ =
      transfer-IsPool r laws l l₁ program a.user_source_coin.key amm.coin_vault owner s.deduct_coin
        none amm e₁ p in
    let p₂ =
      transfer-IsPool r laws l₁ l₂ program a.user_source_pc.key amm.pc_vault owner s.deduct_pc none
        amm e₂ p₁ in
    let (coin₁, pc₁) =
      transfer_in r laws l l₁ program a.user_source_coin.key amm.coin_vault owner s.deduct_coin none
        amm.pc_vault e₁ c.not_coin p.coin p.pc p.apart in
    let (pc₂, coin₂) =
      transfer_in r laws l₁ l₂ program a.user_source_pc.key amm.pc_vault owner s.deduct_pc none
        amm.coin_vault e₂ c.not_pc p₁.pc p₁.coin (λ same. p.apart (sym same)) in
    let u =
      token_mint_to-IsUntouched r laws amm l₂ l' program a.user_dest_lp.key a.amm_authority.key
        (amm.nonce % 256) s.mint_lp e₃ p₂ in
    record {
      coin_came = u.coin ∙ coin₂ ∙ coin₁;
      pc_came = u.pc ∙ pc₂ ∙ ap (λ (n : ℕ). n + s.deduct_pc) pc₁;
      pool = u.pool;
    }
