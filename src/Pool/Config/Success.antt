-- ===== src/Pool/Config/Success.antt =====
-- When `process_update_config` of program/src/processor.rs succeeds.
use raydium_amm_mod.Base.{
  ℕ, ◌≡◌, ◌≢◌, refl, sym, true, false, ◌!=◌, ≢→==, some, List, ◌∷◌, inl, inr, ◌⊎◌, arith,
}
use raydium_amm_mod.Error.{ok}
use raydium_amm_mod.State.AmmConfig
use raydium_amm_mod.State.AmmConfig.{AmmConfig}
use raydium_amm_mod.Instruction.{ConfigArgs}
use raydium_amm_mod.Pool.Runtime.{Runtime, AccountInfo}
use raydium_amm_mod.Pool.Config.{apply_config, process_update_config}
use raydium_amm_mod.Pool.Config.Laws.{SetsOne, process_update_config-SetsOne}

-- The parameter is known, and what it needs is given.
abbrev pub IsUpdate : ConfigArgs → Type 0
IsUpdate args =
    ((args.param ≡ 0) × (key : ℕ) × (args.owner ≡ some key) × (key ≢ 0))
    ⊎ (((args.param ≡ 1) × (key : ℕ) × (args.owner ≡ some key) × (key ≢ 0))
        ⊎ ((args.param ≡ 2) × (fee : ℕ) × (args.create_pool_fee ≡ some fee)))

apply_config-eq-ok :
    (args : ConfigArgs) (config : AmmConfig)
    → IsUpdate args
    → (config' : AmmConfig) × (apply_config args config ≡ ok config')
unfolding apply_config
apply_config-eq-ok args config (inl (param, key, owner, some_key)) =
    (record config { pnl_owner = key }, rw (param, owner, ≢→== key 0 some_key))
apply_config-eq-ok args config (inr (inl (param, key, owner, some_key))) =
    (record config { cancel_owner = key }, rw (param, owner, ≢→== key 0 some_key))
apply_config-eq-ok args config (inr (inr (param, fee, given))) =
    (record config { create_pool_fee = fee }, rw (param, given))

-- The account holds the configuration of the program.
abbrev pub HoldsConfig : Runtime → ℕ → AccountInfo → Type 0
HoldsConfig r program_id account =
    (account.key ≡ r.find_config_address program_id)
    × (account.owner ≡ program_id)
    × (account.data_len ≡ 544)

not_other : (a b : ℕ) → a ≡ b → (a != b) ≡ false
not_other a b e = ground arith

-- Where the owner of the program has signed, the second account holds the configuration, and the parameter is
-- known with what it needs, process_update_config succeeds, with one entry set.
pub process_update_config_returns :
    (r : Runtime) (program_id : ℕ) (admin amm_config : AccountInfo) (rest : List AccountInfo)
    (args : ConfigArgs) (stored : AmmConfig)
    → admin.is_signer ≡ true
    → HoldsConfig r program_id amm_config
    → IsUpdate args
    → (config : AmmConfig) × (process_update_config r admin.key program_id
          (admin ∷ amm_config ∷ rest)
          args
          stored
        ≡ ok config)
      × SetsOne args stored config
process_update_config_returns r program_id admin amm_config rest args stored signed
      (key, owner, len) update =
    let (config, applied) = apply_config-eq-ok args stored update in
    let done : process_update_config r admin.key program_id (admin ∷ amm_config ∷ rest) args stored
        ≡ ok config =
      unfold process_update_config AmmConfig.load_checked in
      rw (
        signed,
        not_other admin.key admin.key refl,
        not_other (r.find_config_address program_id) amm_config.key (sym key),
        not_other amm_config.owner program_id owner,
        not_other amm_config.data_len 544 len,
        applied,
      ) in
    (
      config,
      done,
      (process_update_config-SetsOne r admin.key program_id (admin ∷ amm_config ∷ rest) args stored
          done).1,
    )
