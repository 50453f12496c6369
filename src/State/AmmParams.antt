-- ===== src/State/AmmParams.antt =====
-- program/src/state.rs: `AmmParams`, the parameters that the administrator sets.
use raydium_amm_mod.Base.{ℕ, ◌≡◌, refl, ◌==◌, if◌then◌else◌}
use raydium_amm_mod.Error.{Result, ok, err, panicked}

pub data AmmParams : Type 0 where
  status : AmmParams
  state : AmmParams
  order_num : AmmParams
  depth : AmmParams
  amount_wave : AmmParams
  min_price_multiplier : AmmParams
  max_price_multiplier : AmmParams
  min_size : AmmParams
  vol_max_cut_ratio : AmmParams
  fees : AmmParams
  amm_owner : AmmParams
  set_open_time : AmmParams
  last_order_distance : AmmParams
  init_order_depth : AmmParams
  set_switch_time : AmmParams
  clear_open_time : AmmParams
  seperate : AmmParams
  update_open_order : AmmParams

-- A number out of range reaches `unreachable!()`.
unfoldable pub from_u64 : ℕ → Result AmmParams
from_u64 value =
    if value == 0
    then ok AmmParams.status
    else if value == 1
    then ok AmmParams.state
    else if value == 2
    then ok AmmParams.order_num
    else if value == 3
    then ok AmmParams.depth
    else if value == 4
    then ok AmmParams.amount_wave
    else if value == 5
    then ok AmmParams.min_price_multiplier
    else if value == 6
    then ok AmmParams.max_price_multiplier
    else if value == 7
    then ok AmmParams.min_size
    else if value == 8
    then ok AmmParams.vol_max_cut_ratio
    else if value == 9
    then ok AmmParams.fees
    else if value == 10
    then ok AmmParams.amm_owner
    else if value == 11
    then ok AmmParams.set_open_time
    else if value == 12
    then ok AmmParams.last_order_distance
    else if value == 13
    then ok AmmParams.init_order_depth
    else if value == 14
    then ok AmmParams.set_switch_time
    else if value == 15
    then ok AmmParams.clear_open_time
    else if value == 16
    then ok AmmParams.seperate
    else if value == 17
    then ok AmmParams.update_open_order
    else err panicked

unfoldable pub into_u64 : AmmParams → ℕ
into_u64 AmmParams.status = 0
into_u64 AmmParams.state = 1
into_u64 AmmParams.order_num = 2
into_u64 AmmParams.depth = 3
into_u64 AmmParams.amount_wave = 4
into_u64 AmmParams.min_price_multiplier = 5
into_u64 AmmParams.max_price_multiplier = 6
into_u64 AmmParams.min_size = 7
into_u64 AmmParams.vol_max_cut_ratio = 8
into_u64 AmmParams.fees = 9
into_u64 AmmParams.amm_owner = 10
into_u64 AmmParams.set_open_time = 11
into_u64 AmmParams.last_order_distance = 12
into_u64 AmmParams.init_order_depth = 13
into_u64 AmmParams.set_switch_time = 14
into_u64 AmmParams.clear_open_time = 15
into_u64 AmmParams.seperate = 16
into_u64 AmmParams.update_open_order = 17

-- Every value survives the way to its number and back.
pub from_u64-into_u64 : (s : AmmParams) → from_u64 (into_u64 s) ≡ ok s
unfolding from_u64 into_u64
from_u64-into_u64 AmmParams.status = refl
from_u64-into_u64 AmmParams.state = refl
from_u64-into_u64 AmmParams.order_num = refl
from_u64-into_u64 AmmParams.depth = refl
from_u64-into_u64 AmmParams.amount_wave = refl
from_u64-into_u64 AmmParams.min_price_multiplier = refl
from_u64-into_u64 AmmParams.max_price_multiplier = refl
from_u64-into_u64 AmmParams.min_size = refl
from_u64-into_u64 AmmParams.vol_max_cut_ratio = refl
from_u64-into_u64 AmmParams.fees = refl
from_u64-into_u64 AmmParams.amm_owner = refl
from_u64-into_u64 AmmParams.set_open_time = refl
from_u64-into_u64 AmmParams.last_order_distance = refl
from_u64-into_u64 AmmParams.init_order_depth = refl
from_u64-into_u64 AmmParams.set_switch_time = refl
from_u64-into_u64 AmmParams.clear_open_time = refl
from_u64-into_u64 AmmParams.seperate = refl
from_u64-into_u64 AmmParams.update_open_order = refl
