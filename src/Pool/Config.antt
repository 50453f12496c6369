-- ===== src/Pool/Config.antt =====
-- program/src/processor.rs: `Processor::process_update_config`, with which the owner of the program changes the
-- configuration.
pub mod Laws
pub mod Success
use raydium_amm_mod.Base.{ℕ, ◌==◌, ◌!=◌, ◌||◌, not, List, if◌then◌else◌}
use raydium_amm_mod.Error.{AmmError, Result, ok, err, amm as custom, ◌>>=◌, ◌>>◌, fail_if, unwrap}
use raydium_amm_mod.State.AmmConfig
use raydium_amm_mod.State.AmmConfig.{AmmConfig}
use raydium_amm_mod.Instruction.{ConfigArgs}
use raydium_amm_mod.Pool.Runtime.{Runtime, AccountInfo, next_account_info}

-- `match config_args.param`
unfoldable pub apply_config : ConfigArgs → AmmConfig → Result AmmConfig
apply_config args config =
    if args.param == 0
    then (do
      pnl_owner ← unwrap args.owner
      fail_if (pnl_owner == 0) AmmError.invalid_input
      ok (record config { pnl_owner = pnl_owner }))
    else if args.param == 1
    then (do
      cancel_owner ← unwrap args.owner
      fail_if (cancel_owner == 0) AmmError.invalid_input
      ok (record config { cancel_owner = cancel_owner }))
    else if args.param == 2
    then (do
      create_pool_fee ← unwrap args.create_pool_fee
      ok (record config { create_pool_fee = create_pool_fee }))
    else err (custom AmmError.invalid_input)

-- On the data of the configuration's account. The first argument is the key of `config_feature::amm_owner`.
unfoldable pub process_update_config :
    Runtime → ℕ → ℕ → List AccountInfo → ConfigArgs → AmmConfig → Result AmmConfig
process_update_config r owner_id program_id accounts args stored = do
  (admin, rest) ← next_account_info accounts
  (amm_config, _) ← next_account_info rest
  fail_if (not admin.is_signer || owner_id != admin.key) AmmError.invalid_sign_account
  fail_if (r.find_config_address program_id != amm_config.key || amm_config.owner != program_id)
      AmmError.invalid_config_account
  config ← AmmConfig.load_checked program_id amm_config.owner amm_config.data_len stored
  apply_config args config
