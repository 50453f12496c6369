-- ===== src/State/SimulateParams.antt =====
-- program/src/state.rs: `SimulateParams`, what a simulated transaction asks for.
use raydium_amm_mod.Base.{ℕ, ◌≡◌, refl, ◌==◌, if◌then◌else◌}
use raydium_amm_mod.Error.{Result, ok, err, panicked}

pub data SimulateParams : Type 0 where
  pool_info : SimulateParams
  swap_base_in_info : SimulateParams
  swap_base_out_info : SimulateParams
  run_crank_info : SimulateParams

-- A number out of range reaches `unreachable!()`.
unfoldable pub from_u64 : ℕ → Result SimulateParams
from_u64 value =
    if value == 0
    then ok SimulateParams.pool_info
    else if value == 1
    then ok SimulateParams.swap_base_in_info
    else if value == 2
    then ok SimulateParams.swap_base_out_info
    else if value == 3
    then ok SimulateParams.run_crank_info
    else err panicked

unfoldable pub into_u64 : SimulateParams → ℕ
into_u64 SimulateParams.pool_info = 0
into_u64 SimulateParams.swap_base_in_info = 1
into_u64 SimulateParams.swap_base_out_info = 2
into_u64 SimulateParams.run_crank_info = 3

-- Every value survives the way to its number and back.
pub from_u64-into_u64 : (s : SimulateParams) → from_u64 (into_u64 s) ≡ ok s
unfolding from_u64 into_u64
from_u64-into_u64 SimulateParams.pool_info = refl
from_u64-into_u64 SimulateParams.swap_base_in_info = refl
from_u64-into_u64 SimulateParams.swap_base_out_info = refl
from_u64-into_u64 SimulateParams.run_crank_info = refl
