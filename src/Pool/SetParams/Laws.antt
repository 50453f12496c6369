-- ===== src/Pool/SetParams/Laws.antt =====
-- What setting a parameter, in program/src/processor.rs, can and cannot change of a pool.
use raydium_amm_mod.Base.{
  ℕ, ◌≤◌, ◌<◌, ◌≡◌, refl, arith, Bool, true, false, ◌&&◌, Option, ltb, leb, ltb→le,
}
use raydium_amm_mod.Error.{
  AmmError, Result, ok, ◌>>=◌, >>=-eq-ok, fail_if-eq-ok, ok-injective, err-ne-ok,
}
use raydium_amm_mod.State.Fees.{validate, validate-IsValid, ten_thousand}
use raydium_amm_mod.State.AmmStatus.{valid_status}
use raydium_amm_mod.State.AmmState.{valid_state}
use raydium_amm_mod.State.AmmParams.{AmmParams}
use raydium_amm_mod.State.AmmInfo.{AmmInfo, TargetOrders}
use raydium_amm_mod.Pool.Runtime.{Runtime, next_account_info}
use raydium_amm_mod.Pool.Orders.{load_serum_market_order}
use raydium_amm_mod.Pool.SetParams.{
  SetParamsInstruction, SetParamsAccounts, load_target_checked, ParamResult, require_empty_market,
}
use raydium_amm_mod.Pool.SetParams.Apply.{given, change, apply_param}

-- A pool that the other instructions can run on: the swap fee is below one, the status is one that
-- `valid_status` accepts, and there are no more orders than `MAX_ORDER_LIMIT`.
pub record IsSound (amm : AmmInfo) : Type 0 where
  pub fee : amm.fees.swap_fee_numerator < amm.fees.swap_fee_denominator
  pub status : valid_status amm.status ≡ true
  pub orders : amm.order_num ≤ 10

-- What a parameter may change, and that a sound pool stays sound.
pub record Keeps (amm amm' : AmmInfo) : Type 0 where
  pub sound : IsSound amm → IsSound amm'
  pub kept : amm' ≡ record amm {
    status = amm'.status;
    state = amm'.state;
    order_num = amm'.order_num;
    depth = amm'.depth;
    amount_wave = amm'.amount_wave;
    min_price_multiplier = amm'.min_price_multiplier;
    max_price_multiplier = amm'.max_price_multiplier;
    vol_max_cut_ratio = amm'.vol_max_cut_ratio;
    fees = amm'.fees;
    amm_owner = amm'.amm_owner;
    open_orders = amm'.open_orders;
    state_data = record (amm.state_data) {
      pool_open_time = amm'.state_data.pool_open_time;
      orderbook_to_init_time = amm'.state_data.orderbook_to_init_time;
    };
  }

Keeps-self : (amm : AmmInfo) → Keeps amm amm
Keeps-self amm = record { sound = λ s. s; kept = refl }

change-Keeps :
    (valid : Bool) (after before : AmmInfo) (target : TargetOrders)
    → (valid ≡ true → Keeps before after)
    → Keeps before (change valid after before target).amm
change-Keeps true after before target k = k refl
change-Keeps false after before target k = Keeps-self before

-- A parameter that is a number: what it changes is known once the number is given.
given-Keeps :
    (amm : AmmInfo) (m : Option ℕ) (f : ℕ → Result ParamResult) {done : ParamResult}
    → (given m >>= f) ≡ ok done
    → ((value : ℕ) → f value ≡ ok done → Keeps amm done.amm)
    → Keeps amm done.amm
given-Keeps amm m f h k = let (value, _, rest) = >>=-eq-ok (given m) f h in k value rest

set-Keeps :
    (amm after : AmmInfo) (valid : Bool) (target : TargetOrders) {done : ParamResult}
    → ok (change valid after amm target) ≡ ok done
    → (valid ≡ true → Keeps amm after)
    → Keeps amm done.amm
set-Keeps amm after valid target h k = rw (← ok-injective h) (change-Keeps valid after amm target k)

-- A change of fields that soundness does not read.
module _ (amm : AmmInfo) where
  rebuilt :
      (after : AmmInfo)
      → after.fees ≡ amm.fees
      → after.status ≡ amm.status
      → after.order_num ≡ amm.order_num
      → IsSound amm
      → IsSound after
  rebuilt after f s o h = record {
    fee = rw f h.fee;
    status = rw s h.status;
    orders = rw o h.orders;
  }

pub apply_param-Keeps :
    (r : Runtime) (program_id : ℕ) (a : SetParamsAccounts) (param : AmmParams)
    (set : SetParamsInstruction) (amm : AmmInfo) (target : TargetOrders) (l : r.Ledger)
    {done : ParamResult}
    → apply_param r program_id a param set amm target l ≡ ok done
    → Keeps amm done.amm
unfolding apply_param
apply_param-Keeps r p a AmmParams.status set amm target l h =
    let (_, _, h) = >>=-eq-ok (require_empty_market r a amm l) _ h in
    given-Keeps amm set.value _ h (λ value e.
      set-Keeps amm (record amm { status = value }) (valid_status value) target e
        (λ valid. record {
          sound = λ s. record { fee = s.fee; status = valid; orders = s.orders };
          kept = refl;
        }))
apply_param-Keeps r p a AmmParams.state set amm target l h =
    given-Keeps amm set.value _ h (λ value e.
      set-Keeps amm (record amm { state = value }) (valid_state value) target e
        (λ _. record { sound = rebuilt amm _ refl refl refl; kept = refl }))
apply_param-Keeps r p a AmmParams.order_num set amm target l h =
    given-Keeps amm set.value _ h (λ value e.
      let (few, e) = fail_if-eq-ok (ltb 10 value) AmmError.invalid_input e in
      set-Keeps amm (record amm { order_num = value }) true target e
        (λ _. record {
          sound = λ s. record { fee = s.fee; status = s.status; orders = ltb→le 10 value few };
          kept = refl;
        }))
apply_param-Keeps r p a AmmParams.depth set amm target l h =
    given-Keeps amm set.value _ h (λ value e.
      set-Keeps amm (record amm { depth = value }) (ltb 0 value && ltb value 100) target e
        (λ _. record { sound = rebuilt amm _ refl refl refl; kept = refl }))
apply_param-Keeps r p a AmmParams.amount_wave set amm target l h =
    given-Keeps amm set.value _ h (λ value e.
      set-Keeps amm (record amm { amount_wave = value }) true target e
        (λ _. record { sound = rebuilt amm _ refl refl refl; kept = refl }))
apply_param-Keeps r p a AmmParams.min_price_multiplier set amm target l h =
    given-Keeps amm set.value _ h (λ value e.
      set-Keeps amm (record amm { min_price_multiplier = value })
        (ltb value amm.max_price_multiplier) target e
        (λ _. record { sound = rebuilt amm _ refl refl refl; kept = refl }))
apply_param-Keeps r p a AmmParams.max_price_multiplier set amm target l h =
    given-Keeps amm set.value _ h (λ value e.
      set-Keeps amm (record amm { max_price_multiplier = value })
        (ltb amm.max_price_multiplier value) target e
        (λ _. record { sound = rebuilt amm _ refl refl refl; kept = refl }))
apply_param-Keeps r p a AmmParams.vol_max_cut_ratio set amm target l h =
    given-Keeps amm set.value _ h (λ value e.
      set-Keeps amm (record amm { vol_max_cut_ratio = value }) (leb value ten_thousand) target e
        (λ _. record { sound = rebuilt amm _ refl refl refl; kept = refl }))
apply_param-Keeps r p a AmmParams.seperate set amm target l h =
    given-Keeps amm set.value _ h (λ value e.
      set-Keeps amm (record amm { fees = record (amm.fees) { min_separate_numerator = value } })
        (leb value ten_thousand) target e
        (λ _. record {
          sound = λ s. record { fee = s.fee; status = s.status; orders = s.orders };
          kept = refl;
        }))
apply_param-Keeps r p a AmmParams.fees set amm target l h =
    let (fees, _, h) = >>=-eq-ok (given set.fees) _ h in
    let (_, accepted, h) = >>=-eq-ok (validate fees) _ h in
    let valid = (validate-IsValid fees).1 accepted in
    set-Keeps amm (record amm { fees = fees }) true target h
      (λ _. record {
        sound = λ s. record { fee = valid.swap_fee; status = s.status; orders = s.orders };
        kept = refl;
      })
apply_param-Keeps r p a AmmParams.amm_owner set amm target l h =
    given-Keeps amm set.new_pubkey _ h (λ value e.
      set-Keeps amm (record amm { amm_owner = value }) true target e
        (λ _. record { sound = rebuilt amm _ refl refl refl; kept = refl }))
apply_param-Keeps r p a AmmParams.set_open_time set amm target l h =
    given-Keeps amm set.value _ h (λ value e.
      set-Keeps amm (record amm { state_data = record (amm.state_data) { pool_open_time = value } })
        true target e (λ _. record { sound = rebuilt amm _ refl refl refl; kept = refl }))
apply_param-Keeps r p a AmmParams.last_order_distance set amm target l h =
    let (loaded, _, h) =
      >>=-eq-ok (load_target_checked p a.amm_target_orders a.amm_account.key target) _ h in
    let (distance, _, h) = >>=-eq-ok (given set.last_order_distance) _ h in
    rw (← ok-injective h) (Keeps-self amm)
apply_param-Keeps r p a AmmParams.init_order_depth set amm target l h =
    set-Keeps amm (record amm { order_num = 7; depth = 3 }) true target h
      (λ _. record {
        sound = λ s. record { fee = s.fee; status = s.status; orders = omega arith };
        kept = refl;
      })
apply_param-Keeps r p a AmmParams.set_switch_time set amm target l h =
    given-Keeps amm set.value _ h (λ value e.
      set-Keeps amm
        (record amm { state_data = record (amm.state_data) { orderbook_to_init_time = value } })
        true target e (λ _. record { sound = rebuilt amm _ refl refl refl; kept = refl }))
apply_param-Keeps r p a AmmParams.clear_open_time set amm target l h =
    set-Keeps amm
      (record amm {
        state_data = record (amm.state_data) { pool_open_time = 0; orderbook_to_init_time = 0 };
      })
      true target h (λ _. record { sound = rebuilt amm _ refl refl refl; kept = refl })
apply_param-Keeps r p a AmmParams.update_open_order set amm target l h =
    let ((new_open_orders, _), _, h) = >>=-eq-ok (next_account_info a.rest) _ h in
    let updated = record amm { open_orders = new_open_orders.key } in
    let (_, _, h) =
      >>=-eq-ok
        (load_serum_market_order r l a.market.key new_open_orders.key a.amm_authority.key updated
          false)
        _ h in
    set-Keeps amm updated true target h
      (λ _. record { sound = rebuilt amm updated refl refl refl; kept = refl })
apply_param-Keeps r p a AmmParams.min_size set amm target l h = absurd (err-ne-ok h)
