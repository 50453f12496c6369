-- ===== src/Pool/Liquidity/WithdrawPnl/Payment.antt =====
-- The checks and the payments of `process_withdrawpnl`, program/src/processor.rs.
use raydium_amm_mod.Base.{
  ℕ, ◌+◌, ◌%◌, ◌≡◌, ◌≢◌, ◌∙◌, refl, sym, ap, Bool, true, false, not, some, ◌==◌, ◌!=◌, ◌&&◌, ◌||◌,
  inl, inr, ◌⊎◌, Bool-cases, ==→≡,
}
use raydium_amm_mod.Error.{AmmError, ok, >>=-eq-ok, fail_if-eq-ok, ok-injective}
use raydium_amm_mod.State.AmmStatus
use raydium_amm_mod.State.AmmStatus.{AmmStatus}
use raydium_amm_mod.State.AmmConfig
use raydium_amm_mod.State.AmmConfig.{AmmConfig}
use raydium_amm_mod.State.AmmInfo.{AmmInfo}
use raydium_amm_mod.Pool.Runtime.{
  Runtime, unpack_token_account, token_transfer_with_authority, amount_of,
}
use raydium_amm_mod.Pool.Tokens.{
  TokenLaws, IsPool, amount_at, unpack_token_account-eq-ok, transfer_out, transfer-IsPool,
}
use raydium_amm_mod.Pool.Swap.Setup.{equal_keys}
use raydium_amm_mod.Pool.Liquidity.{PoolHoldings}
use raydium_amm_mod.Pool.Liquidity.WithdrawPnl.{
  WithdrawPnlAccounts, check_pnl_owner, check_withdrawpnl, pay_pnl,
}

-- Who has signed: the owner of the program, or the one that the configuration names.
abbrev pub MayTakePnl : ℕ → AmmConfig → WithdrawPnlAccounts → Type 0
MayTakePnl owner_id config a =
    (a.pnl_owner.is_signer ≡ true)
    × ((a.pnl_owner.key ≡ owner_id) ⊎ (a.pnl_owner.key ≡ config.pnl_owner))

pub signer_of :
    (signed : Bool) (key owner_id pnl_owner : ℕ)
    → (not signed || (key != owner_id && key != pnl_owner)) ≡ false
    → (signed ≡ true) × ((key ≡ owner_id) ⊎ (key ≡ pnl_owner))
signer_of false key owner_id pnl_owner h = cc
signer_of true key owner_id pnl_owner h = elim (Bool-cases (key == owner_id)) [
  | inl owner ↦ (refl, inl (==→≡ key owner_id owner))
  | inr other ↦ (refl, inr (equal_keys key pnl_owner (rw other at h)))
]

pub check_pnl_owner-MayTakePnl :
    (r : Runtime) (owner_id program_id : ℕ) (a : WithdrawPnlAccounts) (config : AmmConfig)
    → check_pnl_owner r owner_id program_id a config ≡ ok tt
    → MayTakePnl owner_id config a
unfolding check_pnl_owner AmmConfig.load_checked
check_pnl_owner-MayTakePnl r owner_id program_id a config e =
    let (_, e) =
      fail_if-eq-ok
        (r.find_config_address program_id != a.amm_config.key || a.amm_config.owner != program_id)
        AmmError.invalid_config_account e in
    let (loaded, load, e) =
      >>=-eq-ok (AmmConfig.load_checked program_id a.amm_config.owner a.amm_config.data_len config)
        _ e in
    let (_, load) = fail_if-eq-ok (a.amm_config.owner != program_id) AmmError.invalid_owner load in
    let (_, load) = fail_if-eq-ok (a.amm_config.data_len != 544) AmmError.expected_account load in
    let (may, _) =
      fail_if-eq-ok
        (not a.pnl_owner.is_signer
          || (a.pnl_owner.key != owner_id && a.pnl_owner.key != loaded.pnl_owner))
        AmmError.invalid_sign_account e in
    signer_of a.pnl_owner.is_signer a.pnl_owner.key owner_id config.pnl_owner (
      ap
        (λ (x : AmmConfig).
          not a.pnl_owner.is_signer
          || (a.pnl_owner.key != owner_id && a.pnl_owner.key != x.pnl_owner))
        (ok-injective load)
      ∙ may)

-- The vaults that `check_withdrawpnl` lets through.
pub record IsChecked (r : Runtime) (l : r.Ledger) (a : WithdrawPnlAccounts) (amm : AmmInfo)
    (h : PoolHoldings) : Type 0 where
  pub coin_key : a.amm_coin_vault.key ≡ amm.coin_vault
  pub pc_key : a.amm_pc_vault.key ≡ amm.pc_vault
  pub coin_amount : amount_at r l amm.coin_vault ≡ h.coin_vault.amount
  pub pc_amount : amount_at r l amm.pc_vault ≡ h.pc_vault.amount

IsChecked-at :
    (r : Runtime) (l : r.Ledger) (a : WithdrawPnlAccounts) (amm : AmmInfo) {h h' : PoolHoldings}
    → h ≡ h'
    → IsChecked r l a amm h
    → IsChecked r l a amm h'
IsChecked-at r l a amm same c = rw (← same) c

pub check_withdrawpnl-IsChecked :
    (r : Runtime) (a : WithdrawPnlAccounts) (amm : AmmInfo) (l : r.Ledger) {h : PoolHoldings}
    → check_withdrawpnl r a amm l ≡ ok h
    → IsChecked r l a amm h
unfolding check_withdrawpnl
check_withdrawpnl-IsChecked r a amm l {h} e =
    let (_, e) =
      fail_if-eq-ok (amm.status == AmmStatus.into_u64 AmmStatus.uninitialized)
        AmmError.invalid_status e in
    let (_, e) = fail_if-eq-ok (a.market.key != amm.market) AmmError.invalid_market e in
    let (coin, e) =
      fail_if-eq-ok (a.amm_coin_vault.key != amm.coin_vault) AmmError.invalid_coin_vault e in
    let (pc, e) = fail_if-eq-ok (a.amm_pc_vault.key != amm.pc_vault) AmmError.invalid_pc_vault e in
    let (_, e) =
      fail_if-eq-ok (a.token_program.key != r.spl_token_id) AmmError.invalid_spl_token_program e in
    let (_, e) =
      fail_if-eq-ok (a.market_program.key != amm.market_program) AmmError.invalid_market_program
        e in
    let (_, e) =
      fail_if-eq-ok (a.amm_open_orders.key != amm.open_orders) AmmError.invalid_open_orders e in
    let (_, e) =
      fail_if-eq-ok (a.amm_target_orders.key != amm.target_orders) AmmError.invalid_target_orders
        e in
    let program = a.token_program.key in
    let (coin_vault, e₁, e) = >>=-eq-ok (unpack_token_account r l a.amm_coin_vault program) _ e in
    let (pc_vault, e₂, e) = >>=-eq-ok (unpack_token_account r l a.amm_pc_vault program) _ e in
    let (_, _, e) = >>=-eq-ok (unpack_token_account r l a.user_pnl_coin program) _ e in
    let (_, _, e) = >>=-eq-ok (unpack_token_account r l a.user_pnl_pc program) _ e in
    let coin_key = equal_keys a.amm_coin_vault.key amm.coin_vault coin in
    let pc_key = equal_keys a.amm_pc_vault.key amm.pc_vault pc in
    let coin_at = unpack_token_account-eq-ok r l a.amm_coin_vault program e₁ in
    let pc_at = unpack_token_account-eq-ok r l a.amm_pc_vault program e₂ in
    IsChecked-at r l a amm (ok-injective e) (record {
      coin_key = coin_key;
      pc_key = pc_key;
      coin_amount = ap (amount_at r l) (sym coin_key) ∙ ap amount_of coin_at;
      pc_amount = ap (amount_at r l) (sym pc_key) ∙ ap amount_of pc_at;
    })

-- The two transfers, for an account `mid` that names the same vaults.
pub record IsPaid (r : Runtime) (mid : AmmInfo) (l l' : r.Ledger) : Type 0 where
  pub coin_went :
      amount_at r l' mid.coin_vault + mid.state_data.need_take_pnl_coin
      ≡ amount_at r l mid.coin_vault
  pub pc_went :
      amount_at r l' mid.pc_vault + mid.state_data.need_take_pnl_pc ≡ amount_at r l mid.pc_vault
  pub pool : IsPool r mid l'

pub pay_pnl-IsPaid :
    (r : Runtime) (laws : TokenLaws r) (a : WithdrawPnlAccounts) (mid : AmmInfo) (l : r.Ledger)
    {l' : r.Ledger}
    → IsPool r mid l
    → a.amm_coin_vault.key ≡ mid.coin_vault
    → a.amm_pc_vault.key ≡ mid.pc_vault
    → a.user_pnl_coin.key ≢ mid.coin_vault
    → a.user_pnl_pc.key ≢ mid.pc_vault
    → pay_pnl r a mid l ≡ ok l'
    → IsPaid r mid l l'
unfolding pay_pnl token_transfer_with_authority
pay_pnl-IsPaid r laws a mid l {l'} p coin_key pc_key not_coin not_pc e =
    let program = a.token_program.key in
    let owner = a.amm_authority.key in
    let nonce = mid.nonce % 256 in
    let coin = a.user_pnl_coin.key in
    let pc = a.user_pnl_pc.key in
    let d = mid.state_data in
    let (l₁, e₁, e₂) =
      >>=-eq-ok
        (token_transfer_with_authority r program a.amm_coin_vault.key coin owner nonce
          d.need_take_pnl_coin l)
        _ e in
    let e₁ = rw coin_key at e₁ in
    let e₂ = rw pc_key at e₂ in
    let p₁ =
      transfer-IsPool r laws l l₁ program mid.coin_vault coin owner d.need_take_pnl_coin
        (some nonce) mid e₁ p in
    let p₂ =
      transfer-IsPool r laws l₁ l' program mid.pc_vault pc owner d.need_take_pnl_pc (some nonce) mid
        e₂ p₁ in
    let (coin₁, pc₁) =
      transfer_out r laws l l₁ program mid.coin_vault coin owner d.need_take_pnl_coin (some nonce)
        mid.pc_vault e₁ not_coin p.coin p.pc p.apart in
    let (pc₂, coin₂) =
      transfer_out r laws l₁ l' program mid.pc_vault pc owner d.need_take_pnl_pc (some nonce)
        mid.coin_vault e₂ not_pc p₁.pc p₁.coin (λ same. p.apart (sym same)) in
    record {
      coin_went = ap (λ (n : ℕ). n + d.need_take_pnl_coin) coin₂ ∙ coin₁;
      pc_went = pc₂ ∙ pc₁;
      pool = p₂;
    }
