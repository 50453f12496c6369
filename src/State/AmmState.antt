-- ===== src/State/AmmState.antt =====
-- program/src/state.rs: `AmmState`, the order-book state machine of the pool.
use raydium_amm_mod.Base.{ℕ, ◌≡◌, refl, Bool, ◌==◌, ◌||◌, if◌then◌else◌}
use raydium_amm_mod.Error.{Result, ok, err, panicked}

pub data AmmState : Type 0 where
  invlid_state : AmmState
  idle_state : AmmState
  cancel_all_orders_state : AmmState
  plan_orders_state : AmmState
  cancel_order_state : AmmState
  place_orders_state : AmmState
  purge_order_state : AmmState

-- A number out of range reaches `unreachable!()`.
unfoldable pub from_u64 : ℕ → Result AmmState
from_u64 value =
    if value == 0
    then ok AmmState.invlid_state
    else if value == 1
    then ok AmmState.idle_state
    else if value == 2
    then ok AmmState.cancel_all_orders_state
    else if value == 3
    then ok AmmState.plan_orders_state
    else if value == 4
    then ok AmmState.cancel_order_state
    else if value == 5
    then ok AmmState.place_orders_state
    else if value == 6
    then ok AmmState.purge_order_state
    else err panicked

unfoldable pub into_u64 : AmmState → ℕ
into_u64 AmmState.invlid_state = 0
into_u64 AmmState.idle_state = 1
into_u64 AmmState.cancel_all_orders_state = 2
into_u64 AmmState.plan_orders_state = 3
into_u64 AmmState.cancel_order_state = 4
into_u64 AmmState.place_orders_state = 5
into_u64 AmmState.purge_order_state = 6

unfoldable pub valid_state : ℕ → Bool
valid_state state =
    state == 0 || state == 1 || state == 2 || state == 3 || state == 4 || state == 5 || state == 6

-- Every value survives the way to its number and back.
pub from_u64-into_u64 : (s : AmmState) → from_u64 (into_u64 s) ≡ ok s
unfolding from_u64 into_u64
from_u64-into_u64 AmmState.invlid_state = refl
from_u64-into_u64 AmmState.idle_state = refl
from_u64-into_u64 AmmState.cancel_all_orders_state = refl
from_u64-into_u64 AmmState.plan_orders_state = refl
from_u64-into_u64 AmmState.cancel_order_state = refl
from_u64-into_u64 AmmState.place_orders_state = refl
from_u64-into_u64 AmmState.purge_order_state = refl
