-- ===== src/Pool/Config/Laws.antt =====
-- What a successful `process_update_config` of program/src/processor.rs has done.
use raydium_amm_mod.Base.{
  ℕ, ◌≡◌, ◌≢◌, refl, ap, ◌∙◌, Bool, true, false, not, ◌==◌, ◌!=◌, ◌||◌, ==→≡, Option, none, some,
  List, ◌∷◌, [], inl, inr, ◌⊎◌, Bool-cases, arith,
}
use raydium_amm_mod.Error.{AmmError, ok, unwrap, >>=-eq-ok, fail_if-eq-ok, ok-injective, err-ne-ok}
use raydium_amm_mod.State.AmmConfig
use raydium_amm_mod.State.AmmConfig.{AmmConfig}
use raydium_amm_mod.Instruction.{ConfigArgs}
use raydium_amm_mod.Pool.Runtime.{Runtime, AccountInfo, next_account_info}
use raydium_amm_mod.Pool.Swap.Setup.{equal_keys}
use raydium_amm_mod.Pool.Config.{apply_config, process_update_config}

-- One entry of the configuration is the one given, no owner is the key of zeros, and the rest is kept.
abbrev pub SetsOne : ConfigArgs → AmmConfig → AmmConfig → Type 0
SetsOne args config config' =
    ((args.param ≡ 0)
      × (args.owner ≡ some config'.pnl_owner)
      × (config'.pnl_owner ≢ 0)
      × (config' ≡ record config { pnl_owner = config'.pnl_owner }))
    ⊎ (((args.param ≡ 1)
          × (args.owner ≡ some config'.cancel_owner)
          × (config'.cancel_owner ≢ 0)
          × (config' ≡ record config { cancel_owner = config'.cancel_owner }))
        ⊎ ((args.param ≡ 2)
            × (args.create_pool_fee ≡ some config'.create_pool_fee)
            × (config' ≡ record config { create_pool_fee = config'.create_pool_fee })))

-- The first account is the owner of the program, who has signed.
abbrev pub SignedBy : ℕ → List AccountInfo → Type 0
SignedBy owner_id accounts =
    (admin : AccountInfo) × (rest : List AccountInfo) × (accounts ≡ admin ∷ rest)
    × (admin.is_signer ≡ true)
    × (owner_id ≡ admin.key)

unwrap-eq-ok : (m : Option ℕ) {n : ℕ} → unwrap m ≡ ok n → m ≡ some n
unwrap-eq-ok none h = absurd (err-ne-ok h)
unwrap-eq-ok (some a) h = ap some (ok-injective h)

not_zero : (n : ℕ) → (n == 0) ≡ false → n ≢ 0
not_zero n h e = ground arith

apply_config-SetsOne :
    (args : ConfigArgs) (config : AmmConfig) {config' : AmmConfig}
    → apply_config args config ≡ ok config'
    → SetsOne args config config'
unfolding apply_config
apply_config-SetsOne args config h = elim (Bool-cases (args.param == 0)) [
  | inl pnl ↦
      let (key, given, h) = >>=-eq-ok (unwrap args.owner) _ (rw pnl at h) in
      let (some_key, h) = fail_if-eq-ok (key == 0) AmmError.invalid_input h in
      rw (← ok-injective h)
        (inl (==→≡ args.param 0 pnl, unwrap-eq-ok args.owner given, not_zero key some_key, refl))
  | inr not_pnl ↦ elim (Bool-cases (args.param == 1)) [
    | inl cancel ↦
        let (key, given, h) = >>=-eq-ok (unwrap args.owner) _ (rw (not_pnl, cancel) at h) in
        let (some_key, h) = fail_if-eq-ok (key == 0) AmmError.invalid_input h in
        rw (← ok-injective h) (
          inr (
            inl (
              ==→≡ args.param 1 cancel,
              unwrap-eq-ok args.owner given,
              not_zero key some_key,
              refl,
            )))
    | inr not_cancel ↦ elim (Bool-cases (args.param == 2)) [
      | inl fee ↦
          let (amount, given, h) =
            >>=-eq-ok (unwrap args.create_pool_fee) _ (rw (not_pnl, not_cancel, fee) at h) in
          rw (← ok-injective h)
            (inr (inr (==→≡ args.param 2 fee, unwrap-eq-ok args.create_pool_fee given, refl)))
      | inr none_of ↦ absurd (err-ne-ok (rw (not_pnl, not_cancel, none_of) at h))
    ]
  ]
]

signer_is :
    (signed : Bool) (owner_id key : ℕ)
    → (not signed || owner_id != key) ≡ false
    → (signed ≡ true) × (owner_id ≡ key)
signer_is true owner_id key h = (refl, equal_keys owner_id key h)
signer_is false owner_id key h = cc

-- A successful `process_update_config` was signed by the program's owner, and sets the one entry that its
-- parameter names to the value given, never an owner to the key of zeros.
pub process_update_config-SetsOne :
    (r : Runtime) (owner_id program_id : ℕ) (accounts : List AccountInfo) (args : ConfigArgs)
    (stored : AmmConfig) {config : AmmConfig}
    → process_update_config r owner_id program_id accounts args stored ≡ ok config
    → SignedBy owner_id accounts × SetsOne args stored config
unfolding process_update_config AmmConfig.load_checked
process_update_config-SetsOne r owner_id program_id [] args stored h = absurd (err-ne-ok h)
process_update_config-SetsOne r owner_id program_id (admin ∷ rest) args stored h =
    let ((amm_config, _), _, h) = >>=-eq-ok (next_account_info rest) _ h in
    let (signed, h) =
      fail_if-eq-ok (not admin.is_signer || owner_id != admin.key) AmmError.invalid_sign_account
        h in
    let (_, h) =
      fail_if-eq-ok
        (r.find_config_address program_id != amm_config.key || amm_config.owner != program_id)
        AmmError.invalid_config_account h in
    let (config, load, h) =
      >>=-eq-ok (AmmConfig.load_checked program_id amm_config.owner amm_config.data_len stored) _
        h in
    let (_, load) = fail_if-eq-ok (amm_config.owner != program_id) AmmError.invalid_owner load in
    let (_, load) = fail_if-eq-ok (amm_config.data_len != 544) AmmError.expected_account load in
    let (is_signer, is_owner) = signer_is admin.is_signer owner_id admin.key signed in
    (
      (admin, rest, refl, is_signer, is_owner),
      apply_config-SetsOne args stored
          (ap (λ (c : AmmConfig). apply_config args c) (ok-injective load) ∙ h),
    )
