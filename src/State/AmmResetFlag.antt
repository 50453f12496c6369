-- ===== src/State/AmmResetFlag.antt =====
-- program/src/state.rs: `AmmResetFlag`, whether the next round of orders is reset.
use raydium_amm_mod.Base.{ℕ, ◌≡◌, refl, ◌==◌, if◌then◌else◌}
use raydium_amm_mod.Error.{Result, ok, err, panicked}

pub data AmmResetFlag : Type 0 where
  reset_yes : AmmResetFlag
  reset_no : AmmResetFlag

-- A number out of range reaches `unreachable!()`.
unfoldable pub from_u64 : ℕ → Result AmmResetFlag
from_u64 value =
    if value == 0
    then ok AmmResetFlag.reset_yes
    else if value == 1
    then ok AmmResetFlag.reset_no
    else err panicked

unfoldable pub into_u64 : AmmResetFlag → ℕ
into_u64 AmmResetFlag.reset_yes = 0
into_u64 AmmResetFlag.reset_no = 1

-- Every value survives the way to its number and back.
pub from_u64-into_u64 : (s : AmmResetFlag) → from_u64 (into_u64 s) ≡ ok s
unfolding from_u64 into_u64
from_u64-into_u64 AmmResetFlag.reset_yes = refl
from_u64-into_u64 AmmResetFlag.reset_no = refl
