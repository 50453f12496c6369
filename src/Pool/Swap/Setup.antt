-- ===== src/Pool/Swap/Setup.antt =====
-- What the first half of a swap of program/src/processor.rs has established when it succeeds.
use raydium_amm_mod.Base.{
  ℕ, ◌+◌, ◌%◌, ◌≡◌, ◌≢◌, refl, sym, ap, arith, true, false, none, some, ltb, leb, ◌==◌, ◌!=◌, ◌&&◌,
  ◌||◌, ==→≡, ◌≤◌, Option, inl, inr, leb→le, ltb→le, Bool-cases, Option-cases,
}
use raydium_amm_mod.Error.{
  AmmError, Result, ok, err, >>=-eq-ok, fail_if-eq-ok, require-eq-ok, ok-injective, err-ne-ok,
}
use raydium_amm_mod.Word.{words}
use raydium_amm_mod.Math.Vault.{calc_total_without_take_pnl_no_orderbook}
use raydium_amm_mod.State.AmmStatus
use raydium_amm_mod.State.AmmStatus.{AmmStatus, into_u64-from_u64}
use raydium_amm_mod.State.AmmInfo.{AmmInfo, StateData}
use raydium_amm_mod.Pool.Runtime.{
  Runtime, AccountInfo, TokenAccount, Clock, unpack_token_account, authority_id, amount_of,
  amm_info_size,
}
use raydium_amm_mod.Pool.Swap.{
  SwapAccounts, load_amm_checked, Holdings, Totals, check_swap_accounts, update_swap_status,
  swap_totals,
}

pub load_amm_checked-eq-ok :
    (program_id : ℕ) (account : AccountInfo) (stored : AmmInfo) {loaded : AmmInfo}
    → load_amm_checked program_id account stored ≡ ok loaded
    → (loaded ≡ stored) × (account.owner ≡ program_id)
unfolding load_amm_checked
load_amm_checked-eq-ok program_id account stored h =
    let (owned, h) =
      fail_if-eq-ok (account.owner != program_id) AmmError.invalid_amm_account_owner h in
    let (_, h) = fail_if-eq-ok (account.data_len != amm_info_size) AmmError.expected_account h in
    let (_, h) =
      fail_if-eq-ok (stored.status == AmmStatus.into_u64 AmmStatus.uninitialized)
        AmmError.invalid_status h in
    (sym (ok-injective h), ground arith)

-- How a swap at time `now` moves the status: trading goes on, a pool that waits for trade opens once its
-- time has come, and a pool with an order book only is initialized once its time has come.
pub data StatusStep (d : StateData) (now : Option ℕ) : ℕ → ℕ → Type 0 where
  goes_on :
      (status : AmmStatus)
      → AmmStatus.swap_permission status ≡ true
      → status ≢ AmmStatus.waiting_trade
      → StatusStep d now (AmmStatus.into_u64 status) (AmmStatus.into_u64 status)
  opens :
      (time : ℕ)
      → now ≡ some time
      → d.pool_open_time ≤ time
      → StatusStep d now
          (AmmStatus.into_u64 AmmStatus.waiting_trade)
          (AmmStatus.into_u64 AmmStatus.swap_only)
  initializes :
      (time : ℕ)
      → now ≡ some time
      → d.orderbook_to_init_time ≤ time
      → StatusStep d now
          (AmmStatus.into_u64 AmmStatus.order_book_only)
          (AmmStatus.into_u64 AmmStatus.initialized)

abbrev pub time_of : Result Clock → Option ℕ
time_of (ok clock) = some clock.unix_timestamp
time_of (err e) = none

initializes_when :
    (d : StateData) (n : ℕ) {time : Result Clock} {clock : Clock}
    → time ≡ ok clock
    → (n == AmmStatus.into_u64 AmmStatus.order_book_only
        && leb d.orderbook_to_init_time clock.unix_timestamp)
      ≡ true
    → StatusStep d (time_of time) n (AmmStatus.into_u64 AmmStatus.initialized)
initializes_when d n {clock} now due =
    rw (==→≡ n (AmmStatus.into_u64 AmmStatus.order_book_only) (ground arith))
      (StatusStep.initializes clock.unix_timestamp (ap time_of now) (leb→le _ _ (ground arith)))

opens_when :
    (d : StateData) (n : ℕ) {time : Result Clock} {clock : Clock}
    → time ≡ ok clock
    → (n == AmmStatus.into_u64 AmmStatus.waiting_trade) ≡ true
    → ltb clock.unix_timestamp d.pool_open_time ≡ false
    → StatusStep d (time_of time) n (AmmStatus.into_u64 AmmStatus.swap_only)
opens_when d n {clock} now waiting due =
    rw (==→≡ n (AmmStatus.into_u64 AmmStatus.waiting_trade) waiting)
      (StatusStep.opens clock.unix_timestamp (ap time_of now) (ltb→le _ _ due))

goes_on_when :
    (d : StateData) (now : Option ℕ) (n : ℕ) (status : AmmStatus)
    → AmmStatus.into_u64 status ≡ n
    → AmmStatus.swap_permission status ≡ true
    → (n == AmmStatus.into_u64 AmmStatus.waiting_trade) ≡ false
    → StatusStep d now n n
goes_on_when d now n status same open_ trading = rw (← same) (
    StatusStep.goes_on status open_
      (λ waiting. let e = ap AmmStatus.into_u64 waiting in ground arith))

-- Of the pool's account the check of the status changes the status alone, and that by one of the steps of
-- `StatusStep`.
pub update_swap_status-StatusStep :
    (r : Runtime) (amm : AmmInfo) {after : AmmInfo}
    → update_swap_status r amm ≡ ok after
    → (after ≡ record amm { status = after.status })
      × StatusStep amm.state_data (time_of r.get_clock) amm.status after.status
unfolding update_swap_status
update_swap_status-StatusStep r amm {after} h =
    let (status, read, h) = >>=-eq-ok (AmmStatus.from_u64 amm.status) _ h in
    let number = into_u64-from_u64 amm.status read in
    elim (Bool-cases (AmmStatus.swap_permission status)) [
      | inr closed ↦
          let (clock, now, h) = >>=-eq-ok r.get_clock _ (rw closed at h) in
          elim (Bool-cases (
            amm.status == AmmStatus.into_u64 AmmStatus.order_book_only
            && leb amm.state_data.orderbook_to_init_time clock.unix_timestamp)) [
              | inl due ↦
                  rw (← ok-injective (rw due at h))
                    (refl, initializes_when amm.state_data amm.status now due)
              | inr early ↦ absurd (err-ne-ok (rw early at h))
            ]
      | inl open_ ↦ elim (Bool-cases (amm.status == AmmStatus.into_u64 AmmStatus.waiting_trade)) [
        | inr trading ↦ rw (← ok-injective (rw (open_, trading) at h)) (
          refl,
          goes_on_when amm.state_data (time_of r.get_clock) amm.status status number open_ trading,
        )
        | inl waiting ↦
            let (clock, now, h) = >>=-eq-ok r.get_clock _ (rw (open_, waiting) at h) in
            elim (Bool-cases (ltb clock.unix_timestamp amm.state_data.pool_open_time)) [
              | inl early ↦ absurd (err-ne-ok (rw early at h))
              | inr due ↦
                  rw (← ok-injective (rw due at h))
                    (refl, opens_when amm.state_data amm.status now waiting due)
            ]
      ]
    ]

unpack_token_account-eq-ok :
    (r : Runtime) (l : r.Ledger) (account : AccountInfo) (program : ℕ) {found : TokenAccount}
    → unpack_token_account r l account program ≡ ok found
    → amount_of (r.unpack_account l account.key) ≡ found.amount
unfolding unpack_token_account
unpack_token_account-eq-ok r l account program {found} h =
    let (_, h) = fail_if-eq-ok (account.owner != program) AmmError.invalid_spl_token_program h in
    elim (Option-cases (r.unpack_account l account.key)) [
      | inl missing ↦ absurd (err-ne-ok (rw missing at h))
      | inr (some_found, there) ↦
          rw there (ap (λ (t : TokenAccount). t.amount) (ok-injective (rw there at h)))
    ]

-- The accounts that `check_swap_accounts` lets through: the vaults are the pool's, the user's accounts are
-- not, and the user signed.
pub record IsChecked (r : Runtime) (ledger : r.Ledger) (a : SwapAccounts) (amm : AmmInfo)
    (h : Holdings) : Type 0 where
  pub signed : a.user_source_owner.is_signer ≡ true
  pub coin_key : a.amm_coin_vault.key ≡ amm.coin_vault
  pub pc_key : a.amm_pc_vault.key ≡ amm.pc_vault
  pub source_not_coin : a.user_source.key ≢ amm.coin_vault
  pub source_not_pc : a.user_source.key ≢ amm.pc_vault
  pub destination_not_coin : a.user_destination.key ≢ amm.coin_vault
  pub destination_not_pc : a.user_destination.key ≢ amm.pc_vault
  pub coin_amount : amount_of (r.unpack_account ledger amm.coin_vault) ≡ h.coin_vault.amount
  pub pc_amount : amount_of (r.unpack_account ledger amm.pc_vault) ≡ h.pc_vault.amount
  pub source_amount : amount_of (r.unpack_account ledger a.user_source.key) ≡ h.user_source.amount

pub equal_keys : (a b : ℕ) → (a != b) ≡ false → a ≡ b
equal_keys a b h = ground arith

other_keys : (k a b : ℕ) → (k == a || k == b) ≡ false → (k ≢ a) × (k ≢ b)
other_keys k a b h = (λ e. ground arith, λ e. ground arith)

pub at_key :
    (r : Runtime) (l : r.Ledger) {k k' n : ℕ}
    → k ≡ k'
    → amount_of (r.unpack_account l k) ≡ n
    → amount_of (r.unpack_account l k') ≡ n
at_key r l same e = rw (← same) e

pub check_swap_accounts-IsChecked :
    (r : Runtime) (program_id : ℕ) (a : SwapAccounts) (amm : AmmInfo) (ledger : r.Ledger)
    {h : Holdings}
    → check_swap_accounts r program_id a amm ledger ≡ ok h
    → IsChecked r ledger a amm h
unfolding check_swap_accounts
check_swap_accounts-IsChecked r program_id a amm ledger {h} e =
    let (signed, e) = require-eq-ok a.user_source_owner.is_signer AmmError.invalid_sign_account e in
    let (_, e) =
      fail_if-eq-ok (a.token_program.key != r.spl_token_id) AmmError.invalid_spl_token_program e in
    let (authority, _, e) = >>=-eq-ok (authority_id r program_id (amm.nonce % 256)) _ e in
    let (_, e) =
      fail_if-eq-ok (a.amm_authority.key != authority) AmmError.invalid_program_address e in
    let (coin, e) =
      fail_if-eq-ok (a.amm_coin_vault.key != amm.coin_vault) AmmError.invalid_coin_vault e in
    let (pc, e) = fail_if-eq-ok (a.amm_pc_vault.key != amm.pc_vault) AmmError.invalid_pc_vault e in
    let (source, e) =
      fail_if-eq-ok (a.user_source.key == amm.pc_vault || a.user_source.key == amm.coin_vault)
        AmmError.invalid_user_token e in
    let (destination, e) =
      fail_if-eq-ok
        (a.user_destination.key == amm.pc_vault || a.user_destination.key == amm.coin_vault)
        AmmError.invalid_user_token e in
    let program = a.token_program.key in
    let (coin_vault, e₁, e) =
      >>=-eq-ok (unpack_token_account r ledger a.amm_coin_vault program) _ e in
    let (pc_vault, e₂, e) = >>=-eq-ok (unpack_token_account r ledger a.amm_pc_vault program) _ e in
    let (user_source, e₃, e) =
      >>=-eq-ok (unpack_token_account r ledger a.user_source program) _ e in
    let (user_destination, e₄, e) =
      >>=-eq-ok (unpack_token_account r ledger a.user_destination program) _ e in
    let not_source = other_keys a.user_source.key amm.pc_vault amm.coin_vault source in
    let not_destination =
      other_keys a.user_destination.key amm.pc_vault amm.coin_vault destination in
    let coin_key = equal_keys a.amm_coin_vault.key amm.coin_vault coin in
    let pc_key = equal_keys a.amm_pc_vault.key amm.pc_vault pc in
    let coin_is =
      at_key r ledger coin_key (unpack_token_account-eq-ok r ledger a.amm_coin_vault program e₁) in
    let pc_is =
      at_key r ledger pc_key (unpack_token_account-eq-ok r ledger a.amm_pc_vault program e₂) in
    let source_is = unpack_token_account-eq-ok r ledger a.user_source program e₃ in
    rw (← ok-injective e) (record {
      signed = signed;
      coin_key = coin_key;
      pc_key = pc_key;
      source_not_coin = not_source.1;
      source_not_pc = not_source.0;
      destination_not_coin = not_destination.1;
      destination_not_pc = not_destination.0;
      coin_amount = coin_is;
      pc_amount = pc_is;
      source_amount = source_is;
    })

-- Without an order book the totals are the vaults less the profit that is still to be paid out.
pub swap_totals-eq-ok :
    (r : Runtime) (a : SwapAccounts) (amm : AmmInfo) (h : Holdings) (ledger : r.Ledger) {t : Totals}
    → swap_totals r a amm h false ledger ≡ ok t
    → (t.total_pc + amm.state_data.need_take_pnl_pc ≡ h.pc_vault.amount)
      × (t.total_coin + amm.state_data.need_take_pnl_coin ≡ h.coin_vault.amount)
unfolding swap_totals calc_total_without_take_pnl_no_orderbook words
swap_totals-eq-ok r a amm h ledger e = ground arith
