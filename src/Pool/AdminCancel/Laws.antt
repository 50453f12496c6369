-- ===== src/Pool/AdminCancel/Laws.antt =====
-- What a successful `process_admin_cancel_orders` of program/src/processor.rs has done.
use raydium_amm_mod.Base.{
  ℕ, ◌<◌, ◌+◌, false, ◌%◌, ◌≡◌, ap, ◌∙◌, true, not, ◌==◌, ◌!=◌, ◌||◌, ◌&&◌, Option, none, some,
  List, inl, inr, ◌⊎◌, Bool-cases, arith,
}
use raydium_amm_mod.Error.{AmmError, ok, >>=-eq-ok, fail_if-eq-ok, ok-injective}
use raydium_amm_mod.State.AmmStatus
use raydium_amm_mod.State.AmmStatus.{AmmStatus}
use raydium_amm_mod.State.AmmConfig
use raydium_amm_mod.State.AmmConfig.{AmmConfig}
use raydium_amm_mod.State.AmmInfo.{AmmInfo}
use raydium_amm_mod.Pool.Runtime.{
  Runtime, AccountInfo, TokenAccount, Instruction, MarketState, OpenOrders, authority_id,
  unpack_token_account,
}
use raydium_amm_mod.Pool.Tokens.{unpack_token_account-eq-ok}
use raydium_amm_mod.Pool.Orders.{load_serum_market_order}
use raydium_amm_mod.Pool.CancelOrders.{do_cancel_amm_orders}
use raydium_amm_mod.Pool.CancelOrders.Laws.{CancelsOwn, do_cancel_amm_orders-CancelsOwn}
use raydium_amm_mod.Pool.Swap.{load_amm_checked}
use raydium_amm_mod.Pool.Swap.Setup.{equal_keys, load_amm_checked-eq-ok}
use raydium_amm_mod.Pool.Liquidity.WithdrawPnl.Payment.{signer_of}
use raydium_amm_mod.Pool.AdminCancel.{
  AdminCancelAccounts, FixedKeys, admin_cancel_accounts, admin_settlement, admin_cancellation,
  check_admin, check_market_keys, check_srm, check_referrer_pc, settle_free,
  process_admin_cancel_orders,
}

-- Who has signed: the owner of the program, or the one that the configuration names.
abbrev pub MayCancel : FixedKeys → AmmConfig → AccountInfo → Type 0
MayCancel keys config admin =
    (admin.is_signer ≡ true) × ((admin.key ≡ keys.amm_owner) ⊎ (admin.key ≡ config.cancel_owner))

-- A referrer that is given is an account of pc of the one whom the program fixes.
abbrev pub PaysReferrer :
    (r : Runtime) → FixedKeys → AmmInfo → r.Ledger → Option AccountInfo → Type 0
PaysReferrer r keys amm l none = Unit
PaysReferrer r keys amm l (some wallet) =
    (token : TokenAccount) × (r.unpack_account l wallet.key ≡ some token)
    × (token.owner ≡ keys.referrer_pc_wallet)
    × (token.mint ≡ amm.pc_vault_mint)

-- Either nothing is free in the market and the ledger stays, or something is and the market settles.
abbrev pub SettlesFree :
    (r : Runtime) → AdminCancelAccounts → AmmInfo → r.Ledger → r.Ledger → Type 0
SettlesFree r a amm l l' =
    (market_state : MarketState) × (open_orders : OpenOrders) × (load_serum_market_order r l
        a.market.key a.amm_open_orders.key a.amm_authority.key amm true
      ≡ ok (market_state, open_orders))
    × (((open_orders.native_coin_free ≡ 0) × (open_orders.native_pc_free ≡ 0) × (l ≡ l'))
        ⊎ ((0 < open_orders.native_coin_free + open_orders.native_pc_free)
            × (r.invoke_signed (Instruction.settle_funds (admin_settlement a))
                  (some (amm.nonce % 256)) l
                ≡ ok l')))

pub record IsWithdrawn (r : Runtime) (keys : FixedKeys) (accounts : List AccountInfo)
    (amm : AmmInfo) (config : AmmConfig) (l l' : r.Ledger) : Type 0 where
  pub a : AdminCancelAccounts
  pub found : admin_cancel_accounts accounts ≡ ok a
  pub admin : MayCancel keys config a.amm_owner
  pub coin_wallet : amm.coin_vault ≡ a.amm_coin_vault.key
  pub pc_wallet : amm.pc_vault ≡ a.amm_pc_vault.key
  pub referrer : PaysReferrer r keys amm l a.referrer_pc_wallet
  pub cancelled : r.Ledger
  pub cancels : CancelsOwn r amm (admin_cancellation a) l cancelled
  pub settles : SettlesFree r a amm cancelled l'

check_admin-MayCancel :
    (r : Runtime) (keys : FixedKeys) (program_id : ℕ) (a : AdminCancelAccounts) (amm : AmmInfo)
    (config : AmmConfig)
    → check_admin r keys program_id a amm config ≡ ok tt
    → MayCancel keys config a.amm_owner
unfolding check_admin AmmConfig.load_checked
check_admin-MayCancel r keys program_id a amm config h =
    let (authority, _, h) = >>=-eq-ok (authority_id r program_id (amm.nonce % 256)) _ h in
    let (_, h) =
      fail_if-eq-ok (a.amm_authority.key != authority) AmmError.invalid_program_address h in
    let (_, h) = fail_if-eq-ok (a.amm_account.owner != program_id) AmmError.invalid_owner h in
    let (_, h) =
      fail_if-eq-ok (r.find_config_address program_id != a.amm_config.key)
        AmmError.invalid_config_account h in
    let (loaded, load, h) =
      >>=-eq-ok (AmmConfig.load_checked program_id a.amm_config.owner a.amm_config.data_len config)
        _ h in
    let (_, load) = fail_if-eq-ok (a.amm_config.owner != program_id) AmmError.invalid_owner load in
    let (_, load) = fail_if-eq-ok (a.amm_config.data_len != 544) AmmError.expected_account load in
    let (may, _) =
      fail_if-eq-ok
        (not a.amm_owner.is_signer
          || (a.amm_owner.key != keys.amm_owner && a.amm_owner.key != loaded.cancel_owner))
        AmmError.invalid_sign_account h in
    signer_of a.amm_owner.is_signer a.amm_owner.key keys.amm_owner config.cancel_owner (
      ap
        (λ (x : AmmConfig).
          not a.amm_owner.is_signer
          || (a.amm_owner.key != keys.amm_owner && a.amm_owner.key != x.cancel_owner))
        (ok-injective load)
      ∙ may)

check_market_keys-eq-ok :
    (r : Runtime) (keys : FixedKeys) (a : AdminCancelAccounts) (amm : AmmInfo)
    → check_market_keys r keys a amm ≡ ok tt
    → (amm.coin_vault ≡ a.amm_coin_vault.key) × (amm.pc_vault ≡ a.amm_pc_vault.key)
unfolding check_market_keys
check_market_keys-eq-ok r keys a amm h =
    let (_, h) =
      fail_if-eq-ok (amm.status == AmmStatus.into_u64 AmmStatus.uninitialized)
        AmmError.invalid_status h in
    let (_, h) =
      fail_if-eq-ok (a.market_program.key != amm.market_program) AmmError.invalid_market_program
        h in
    let (_, h) = fail_if-eq-ok (a.market.key != amm.market) AmmError.invalid_market h in
    let (_, h) =
      fail_if-eq-ok (a.amm_open_orders.key != amm.open_orders) AmmError.invalid_open_orders h in
    let (coin, h) =
      fail_if-eq-ok (amm.coin_vault != a.amm_coin_vault.key) AmmError.invalid_coin_vault h in
    let (pc, h) = fail_if-eq-ok (amm.pc_vault != a.amm_pc_vault.key) AmmError.invalid_pc_vault h in
    (
      equal_keys amm.coin_vault a.amm_coin_vault.key coin,
      equal_keys amm.pc_vault a.amm_pc_vault.key pc,
    )

check_referrer_pc-PaysReferrer :
    (r : Runtime) (keys : FixedKeys) (amm : AmmInfo) (wallet : Option AccountInfo) (l : r.Ledger)
    → check_referrer_pc r keys amm wallet l ≡ ok tt
    → PaysReferrer r keys amm l wallet
unfolding check_referrer_pc
check_referrer_pc-PaysReferrer r keys amm none l h = tt
check_referrer_pc-PaysReferrer r keys amm (some wallet) l h =
    let (token, found, h) = >>=-eq-ok (unpack_token_account r l wallet r.spl_token_id) _ h in
    let (owner, h) =
      fail_if-eq-ok (token.owner != keys.referrer_pc_wallet) AmmError.invalid_owner h in
    let (mint, _) =
      fail_if-eq-ok (token.mint != amm.pc_vault_mint) AmmError.invalid_refer_pc_mint h in
    (
      token,
      unpack_token_account-eq-ok r l wallet r.spl_token_id found,
      equal_keys token.owner keys.referrer_pc_wallet owner,
      equal_keys token.mint amm.pc_vault_mint mint,
    )

both_zero : (m n : ℕ) → (m == 0 && n == 0) ≡ true → (m ≡ 0) × (n ≡ 0)
both_zero m n h = (ground arith, ground arith)

some_free : (m n : ℕ) → (m == 0 && n == 0) ≡ false → 0 < m + n
some_free m n h = ground arith

settle_free-SettlesFree :
    (r : Runtime) (keys : FixedKeys) (a : AdminCancelAccounts) (amm : AmmInfo) (l : r.Ledger)
    {l' : r.Ledger}
    → settle_free r keys a amm l ≡ ok l'
    → SettlesFree r a amm l l'
unfolding settle_free
settle_free-SettlesFree r keys a amm l h =
    let ((market_state, orders), loaded, h) =
      >>=-eq-ok
        (load_serum_market_order r l a.market.key a.amm_open_orders.key a.amm_authority.key amm
          true)
        _ h in
    (
      market_state,
      orders,
      loaded,
      elim (Bool-cases (orders.native_coin_free == 0 && orders.native_pc_free == 0)) [
        | inl empty ↦
            let (coin, pc) = both_zero orders.native_coin_free orders.native_pc_free empty in
            inl (coin, pc, ok-injective (rw empty at h))
        | inr free ↦
            inr (some_free orders.native_coin_free orders.native_pc_free free, rw free at h)
      ],
    )

rests_on_stored :
    {r : Runtime} {keys : FixedKeys} {accounts : List AccountInfo} {amm stored : AmmInfo}
    {config : AmmConfig} {l l' : r.Ledger}
    → amm ≡ stored
    → IsWithdrawn r keys accounts amm config l l'
    → IsWithdrawn r keys accounts stored config l l'
rests_on_stored same withdrawn = rw (← same) withdrawn

-- A successful `process_admin_cancel_orders` was signed by the owner of the program or the one that the
-- configuration names for this. One call of the market for each array of eight sends the ids of exactly the
-- pool's own orders that stand in its book, the highest bid, the lowest ask, the next bid and so on, with
-- zeros only at the end. Then, unless nothing is free, the market settles into the pool's own vaults, with a
-- referrer only if that is an account of pc of the one that the program fixes.
pub process_admin_cancel_orders-IsWithdrawn :
    (r : Runtime) (keys : FixedKeys) (program_id : ℕ) (accounts : List AccountInfo)
    (stored : AmmInfo) (config : AmmConfig) (l : r.Ledger) {l' : r.Ledger}
    → process_admin_cancel_orders r keys program_id accounts stored config l ≡ ok l'
    → IsWithdrawn r keys accounts stored config l l'
unfolding process_admin_cancel_orders
process_admin_cancel_orders-IsWithdrawn r keys program_id accounts stored config l {l'} e =
    let (a, found, e) = >>=-eq-ok (admin_cancel_accounts accounts) _ e in
    let (_, e) =
      fail_if-eq-ok (a.token_program.key != r.spl_token_id) AmmError.invalid_spl_token_program e in
    let (amm, load, e) = >>=-eq-ok (load_amm_checked program_id a.amm_account stored) _ e in
    let (_, admin, e) = >>=-eq-ok (check_admin r keys program_id a amm config) _ e in
    let (_, market, e) = >>=-eq-ok (check_market_keys r keys a amm) _ e in
    let (_, _, e) = >>=-eq-ok (check_srm r keys a.amm_authority a.srm_token_account l) _ e in
    let (_, referrer, e) = >>=-eq-ok (check_referrer_pc r keys amm a.referrer_pc_wallet l) _ e in
    let (cancelled, cancel, settle) =
      >>=-eq-ok (do_cancel_amm_orders r amm (admin_cancellation a) l) _ e in
    let (coin_wallet, pc_wallet) = check_market_keys-eq-ok r keys a amm market in
    let (same, _) = load_amm_checked-eq-ok program_id a.amm_account stored load in
    rests_on_stored same (record {
      a = a;
      found = found;
      admin = check_admin-MayCancel r keys program_id a amm config admin;
      coin_wallet = coin_wallet;
      pc_wallet = pc_wallet;
      referrer = check_referrer_pc-PaysReferrer r keys amm a.referrer_pc_wallet l referrer;
      cancelled = cancelled;
      cancels = do_cancel_amm_orders-CancelsOwn r amm (admin_cancellation a) l cancel;
      settles = settle_free-SettlesFree r keys a amm cancelled settle;
    })
