-- ===== src/Pool/SetParams/Owner.antt =====
-- Who can set parameters with program/src/processor.rs, and the pool that a success leaves.
use raydium_amm_mod.Base.{ℕ, ◌%◌, ◌≡◌, refl, ap, arith, Bool, true, false, not, ◌||◌, List, ◌!=◌}
use raydium_amm_mod.Error.{AmmError, ok, >>=-eq-ok, fail_if-eq-ok, require-eq-ok, ok-injective}
use raydium_amm_mod.State.AmmState
use raydium_amm_mod.State.AmmState.{AmmState}
use raydium_amm_mod.State.AmmParams
use raydium_amm_mod.State.AmmResetFlag
use raydium_amm_mod.State.AmmResetFlag.{AmmResetFlag}
use raydium_amm_mod.State.AmmInfo.{AmmInfo, TargetOrders}
use raydium_amm_mod.Pool.Runtime.{Runtime, AccountInfo, authority_id}
use raydium_amm_mod.Pool.Swap.{load_amm_checked}
use raydium_amm_mod.Pool.Swap.Setup.{load_amm_checked-eq-ok}
use raydium_amm_mod.Pool.SetParams.{SetParamsInstruction, SetParamsAccounts, set_params_accounts}
use raydium_amm_mod.Pool.SetParams.Apply.{
  apply_param, check_set_params, withdraw_from_market, process_set_params,
}
use raydium_amm_mod.Pool.SetParams.Laws.{IsSound, Keeps, apply_param-Keeps}

signed :
    (signer : Bool) (key id : ℕ) → (not signer || key != id) ≡ false → (signer ≡ true) × (key ≡ id)
signed signer key id h = (ground arith, ground arith)

check_set_params-eq-ok :
    (r : Runtime) (amm_owner_id program_id : ℕ) (a : SetParamsAccounts) (amm : AmmInfo)
    {done : Unit {0}}
    → check_set_params r amm_owner_id program_id a amm ≡ ok done
    → (a.amm_owner.is_signer ≡ true) × (a.amm_owner.key ≡ amm_owner_id)
unfolding check_set_params
check_set_params-eq-ok r id program_id a amm h =
    let (authority, _, h) = >>=-eq-ok (authority_id r program_id (amm.nonce % 256)) _ h in
    let (_, h) =
      fail_if-eq-ok (a.amm_authority.key != authority) AmmError.invalid_program_address h in
    let (_, h) = fail_if-eq-ok (a.amm_account.owner != program_id) AmmError.invalid_owner h in
    let (by_owner, _) =
      fail_if-eq-ok (not a.amm_owner.is_signer || a.amm_owner.key != id)
        AmmError.invalid_sign_account h in
    signed a.amm_owner.is_signer a.amm_owner.key id by_owner

-- The sixteenth account signed and is the program's owner; the pool is sound, in the state that cancels all
-- orders, with its orders to be reset; its vaults, mints, shares, nonce, lots, decimals and all statistics
-- and profits are as they were.
pub record IsParamSet (amm_owner_id : ℕ) (accounts : List AccountInfo) (amm amm' : AmmInfo)
    : Type 0 where
  pub a : SetParamsAccounts
  pub found : set_params_accounts accounts ≡ ok a
  pub signer : a.amm_owner.is_signer ≡ true
  pub owner : a.amm_owner.key ≡ amm_owner_id
  pub sound : IsSound amm'
  pub state : amm'.state ≡ AmmState.into_u64 AmmState.cancel_all_orders_state
  pub reset : amm'.reset_flag ≡ AmmResetFlag.into_u64 AmmResetFlag.reset_yes
  pub kept : amm' ≡ record amm {
    status = amm'.status;
    state = amm'.state;
    reset_flag = amm'.reset_flag;
    order_num = amm'.order_num;
    depth = amm'.depth;
    amount_wave = amm'.amount_wave;
    min_price_multiplier = amm'.min_price_multiplier;
    max_price_multiplier = amm'.max_price_multiplier;
    vol_max_cut_ratio = amm'.vol_max_cut_ratio;
    fees = amm'.fees;
    amm_owner = amm'.amm_owner;
    open_orders = amm'.open_orders;
    recent_epoch = amm'.recent_epoch;
    state_data = record (amm.state_data) {
      pool_open_time = amm'.state_data.pool_open_time;
      orderbook_to_init_time = amm'.state_data.orderbook_to_init_time;
    };
  }

-- The end of the instruction, on what the parameter has changed.
finished :
    (id : ℕ) (accounts : List AccountInfo) (a : SetParamsAccounts) (amm after : AmmInfo) (epoch : ℕ)
    → set_params_accounts accounts ≡ ok a
    → (a.amm_owner.is_signer ≡ true) × (a.amm_owner.key ≡ id)
    → IsSound amm
    → Keeps amm after
    → IsParamSet id accounts amm (record after {
      state = AmmState.into_u64 AmmState.cancel_all_orders_state;
      reset_flag = AmmResetFlag.into_u64 AmmResetFlag.reset_yes;
      recent_epoch = epoch;
    })
finished id accounts a amm after epoch found (signer, owner) sound keeps =
    let s = keeps.sound sound in
    record {
      a = a;
      found = found;
      signer = signer;
      owner = owner;
      sound = record { fee = s.fee; status = s.status; orders = s.orders };
      state = refl;
      reset = refl;
      kept =
          ap
            (λ (x : AmmInfo). record x {
              state = AmmState.into_u64 AmmState.cancel_all_orders_state;
              reset_flag = AmmResetFlag.into_u64 AmmResetFlag.reset_yes;
              recent_epoch = epoch;
            })
            keeps.kept;
    }

Keeps-from : {amm stored after : AmmInfo} → amm ≡ stored → Keeps amm after → Keeps stored after
Keeps-from same keeps = rw (← same) keeps

settled_by :
    (r : Runtime) (id program_id : ℕ) (accounts : List AccountInfo) (set : SetParamsInstruction)
    (stored : AmmInfo) (target : TargetOrders) (l : r.Ledger) {amm : AmmInfo}
    {target' : TargetOrders} {l' : r.Ledger}
    → process_set_params r id program_id accounts set stored target l ≡ ok (amm, target', l')
    → (a : SetParamsAccounts) × (after : AmmInfo) × (epoch : ℕ) × (set_params_accounts accounts
        ≡ ok a)
      × (a.amm_owner.is_signer ≡ true)
      × (a.amm_owner.key ≡ id)
      × Keeps stored after
      × (record after {
        state = AmmState.into_u64 AmmState.cancel_all_orders_state;
        reset_flag = AmmResetFlag.into_u64 AmmResetFlag.reset_yes;
        recent_epoch = epoch;
      }
          ≡ amm)
unfolding process_set_params
settled_by r id program_id accounts set stored target l e =
    let (a, found, e) = >>=-eq-ok (set_params_accounts accounts) _ e in
    let (_, e) =
      fail_if-eq-ok (a.token_program.key != r.spl_token_id) AmmError.invalid_spl_token_program e in
    let (amm, load, e) = >>=-eq-ok (load_amm_checked program_id a.amm_account stored) _ e in
    let (_, checked, e) = >>=-eq-ok (check_set_params r id program_id a amm) _ e in
    let (settled, _, e) = >>=-eq-ok (withdraw_from_market r id a amm l) _ e in
    let (param, _, e) = >>=-eq-ok (AmmParams.from_u64 set.param) _ e in
    let (done, applied, e) =
      >>=-eq-ok (apply_param r program_id a param set amm target settled) _ e in
    let (_, e) = require-eq-ok done.set_valid AmmError.invalid_params_set e in
    let (clock, _, e) = >>=-eq-ok r.get_clock _ e in
    let (same, _) = load_amm_checked-eq-ok program_id a.amm_account stored load in
    let (signer, owner) = check_set_params-eq-ok r id program_id a amm checked in
    let keeps : Keeps stored done.amm =
      Keeps-from same (apply_param-Keeps r program_id a param set amm target settled applied) in
    (
      a,
      done.amm,
      clock.epoch,
      found,
      signer,
      owner,
      keeps,
      ap (λ (x : AmmInfo × TargetOrders × r.Ledger). x.0) (ok-injective e),
    )

-- Only with the signature of the program's owner does `process_set_params` succeed. It leaves a sound pool
-- sound: its swap fee below one, its status valid, at most ten orders. The pool is to cancel all orders and
-- to reset them, and its vaults, mints, shares, nonce, lots, decimals, statistics and profits are as they
-- were.
pub process_set_params-IsParamSet :
    (r : Runtime) (amm_owner_id program_id : ℕ) (accounts : List AccountInfo)
    (set : SetParamsInstruction) (stored : AmmInfo) (target : TargetOrders) (ledger : r.Ledger)
    {amm : AmmInfo} {target' : TargetOrders} {ledger' : r.Ledger}
    → IsSound stored
    → process_set_params r amm_owner_id program_id accounts set stored target ledger
      ≡ ok (amm, target', ledger')
    → IsParamSet amm_owner_id accounts stored amm
process_set_params-IsParamSet r id program_id accounts set stored target ledger sound e =
    let (a, after, epoch, found, signer, owner, keeps, same) =
      settled_by r id program_id accounts set stored target ledger e in
    rw (← same) (finished id accounts a stored after epoch found (signer, owner) sound keeps)
