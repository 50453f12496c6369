-- ===== src/Error.antt =====
-- program/src/error.rs: the errors of the program, and how an instruction ends. An instruction either
-- returns a value, returns an error, or panics (an `unwrap` on `None`, an arithmetic overflow under
-- `overflow-checks = true`, an index out of range). The runtime discards every change of a failed
-- instruction, so a failure carries no state.
use raydium_amm_mod.Base.{◌≡◌, refl, ap, ℕ, Bool, true, false, Option, none, some}

pub data AmmError : Type 0 where
  already_in_use invalid_program_address expected_mint expected_account invalid_coin_vault :
      AmmError
  invalid_pc_vault invalid_token_lp invalid_dest_token_coin invalid_dest_token_pc : AmmError
  invalid_pool_mint invalid_open_orders invalid_market invalid_market_program : AmmError
  invalid_target_orders account_need_writeable account_need_read_only invalid_coin_mint : AmmError
  invalid_pc_mint invalid_owner invalid_supply invalid_delegate invalid_sign_account : AmmError
  invalid_status invalid_instruction wrong_accounts_number invalid_target_account_owner : AmmError
  invalid_target_owner invalid_amm_account_owner invalid_params_set invalid_input : AmmError
  exceeded_slippage calculation_ex_rate_failure checked_sub_overflow checked_add_overflow : AmmError
  checked_mul_overflow checked_div_overflow checked_empty_funds calc_pnl_error : AmmError
  invalid_spl_token_program take_pnl_error insufficient_funds conversion_failure : AmmError
  invalid_user_token invalid_srm_mint invalid_srm_token too_many_open_orders : AmmError
  order_at_slot_is_placed invalid_sys_program_address invalid_fee repeat_create_amm : AmmError
  not_allow_zero_lp invalid_close_authority invalid_freeze_authority invalid_refer_pc_mint :
      AmmError
  invalid_config_account repeat_create_config_account market_lot_size_is_too_large : AmmError
  init_lp_amount_too_less unknown_amm_error : AmmError

-- `amm` is an error of the program's own, `program` another `ProgramError` by its number.
pub data Failure : Type 0 where
  amm : AmmError → Failure
  program : ℕ → Failure
  panicked : Failure

pub data Result {ℓ} (A : Type ℓ) : Type ℓ where
  ok : A → Result A
  err : Failure → Result A

infixl 5 ◌>>=◌ ◌>>◌
abbrev pub ◌>>=◌ {ℓ κ} : {A : Type ℓ} {B : Type κ} → Result A → (A → Result B) → Result B
ok a >>= f = f a
err e >>= f = err e

abbrev pub ◌>>◌ {ℓ κ} : {A : Type ℓ} {B : Type κ} → Result A → Result B → Result B
m >> k = m >>= λ _. k

-- `return Err(e)` under a condition.
abbrev pub fail_if : Bool → AmmError → Result (Unit {0})
fail_if true e = err (amm e)
fail_if false e = ok tt

-- `check_assert_eq!` and guards that must hold.
abbrev pub require : Bool → AmmError → Result (Unit {0})
require true e = ok tt
require false e = err (amm e)

-- `Option::unwrap`
abbrev pub unwrap {ℓ} : {A : Type ℓ} → Option A → Result A
unwrap none = err panicked
unwrap (some a) = ok a

-- `Option::ok_or`
abbrev pub ok_or {ℓ} : {A : Type ℓ} → Option A → AmmError → Result A
ok_or none e = err (amm e)
ok_or (some a) e = ok a

-- Where a chain succeeds, so did its first step, and then the rest.
module _ {ℓ κ} {A : Type ℓ} {B : Type κ} where
  pub >>=-eq-ok :
      (step : Result A) (rest : A → Result B) {out : B}
      → (step >>= rest) ≡ ok out
      → (mid : A) × (step ≡ ok mid) × (rest mid ≡ ok out)
  >>=-eq-ok (err failure) rest succeeds = cc
  >>=-eq-ok (ok mid) rest succeeds = (mid, refl, succeeds)

ok-or_else {ℓ} : {A : Type ℓ} → A → Result A → A
ok-or_else a (ok b) = b
ok-or_else a (err e) = a

pub ok-injective {ℓ} : {A : Type ℓ} {a b : A} → ok a ≡ ok b → a ≡ b
unfolding ok-or_else
ok-injective {a} h = ap (ok-or_else a) h

pub err-ne-ok {ℓ} : {A : Type ℓ} {e : Failure} {a : A} → ¬ (err e ≡ ok a)
err-ne-ok h = cc

-- A guard that let the rest run did not hold.
pub fail_if-eq-ok {ℓ} :
    {A : Type ℓ} (b : Bool) (e : AmmError) {k : Result A} {a : A}
    → (fail_if b e >> k) ≡ ok a
    → (b ≡ false) × (k ≡ ok a)
fail_if-eq-ok true e h = cc
fail_if-eq-ok false e h = (refl, h)

pub require-eq-ok {ℓ} :
    {A : Type ℓ} (b : Bool) (e : AmmError) {k : Result A} {a : A}
    → (require b e >> k) ≡ ok a
    → (b ≡ true) × (k ≡ ok a)
require-eq-ok true e h = (refl, h)
require-eq-ok false e h = cc
