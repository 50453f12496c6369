-- ===== src/State/AmmConfig.antt =====
-- program/src/state.rs: `AmmConfig`, the one account of the program's configuration, less its paddings.
use raydium_amm_mod.Base.{ℕ, ◌!=◌}
use raydium_amm_mod.Error.{AmmError, Result, ok, ◌>>◌, fail_if}

pub record AmmConfig : Type 0 where
  pub pnl_owner : ℕ
  pub cancel_owner : ℕ
  pub create_pool_fee : ℕ

-- `load_checked` and `load_mut_checked`, on the owner and the length of the account and its data, of 544
-- bytes.
unfoldable pub load_checked : ℕ → ℕ → ℕ → AmmConfig → Result AmmConfig
load_checked program_id owner data_len config = do
  fail_if (owner != program_id) AmmError.invalid_owner
  fail_if (data_len != 544) AmmError.expected_account
  ok config
