-- ===== src/Instruction/Pack.antt =====
-- program/src/instruction.rs: `AmmInstruction::pack`.
use raydium_amm_mod.Base.{ℕ, ◌==◌, ◌||◌, Option, none, some, List, [], ◌∷◌, if◌then◌else◌}
use raydium_amm_mod.Error.{Result, ok, err, ◌>>=◌}
use raydium_amm_mod.State.Fees.{pack_into_slice}
use raydium_amm_mod.State.Fees.Bytes.{bytes_onto, u64_bytes}
use raydium_amm_mod.State.AmmParams
use raydium_amm_mod.State.AmmParams.{AmmParams}
use raydium_amm_mod.State.SimulateParams
use raydium_amm_mod.State.SimulateParams.{SimulateParams}
use raydium_amm_mod.Pool.SetParams.{SetParamsInstruction}
use raydium_amm_mod.Pool.Swap.BaseIn.{SwapInstructionBaseIn}
use raydium_amm_mod.Pool.Swap.BaseOut.{SwapInstructionBaseOut}
use raydium_amm_mod.Instruction.{
  SimulateInstruction, ConfigArgs, AmmInstruction, invalid_instruction_data,
}

-- A value that must be given.
abbrev pub needed {ℓ} : {A : Type ℓ} → Option A → Result A
needed none = err invalid_instruction_data
needed (some a) = ok a

-- `[0u8; Fees::LEN]`
abbrev pub fees_slice : List ℕ
fees_slice = bytes_onto 64 0 []

unfoldable pub pack_set_params : AmmParams → SetParamsInstruction → Result (List ℕ)
pack_set_params AmmParams.amm_owner set = do
  new_pubkey ← needed set.new_pubkey
  ok (bytes_onto 32 new_pubkey [])
pack_set_params AmmParams.fees set = do fees ← needed set.fees; pack_into_slice fees fees_slice
pack_set_params AmmParams.last_order_distance set = do
  distance ← needed set.last_order_distance
  ok (u64_bytes distance.last_order_numerator (u64_bytes distance.last_order_denominator []))
pack_set_params _ set = do value ← needed set.value; ok (u64_bytes value [])

abbrev pub pack_swap_base_in : SwapInstructionBaseIn → List ℕ
pack_swap_base_in swap = u64_bytes swap.amount_in (u64_bytes swap.minimum_amount_out [])

abbrev pub pack_swap_base_out : SwapInstructionBaseOut → List ℕ
pack_swap_base_out swap = u64_bytes swap.max_amount_in (u64_bytes swap.amount_out [])

unfoldable pub pack_simulate : SimulateParams → SimulateInstruction → Result (List ℕ)
pack_simulate SimulateParams.swap_base_in_info simulate = do
  swap ← needed simulate.swap_base_in_value
  ok (pack_swap_base_in swap)
pack_simulate SimulateParams.swap_base_out_info simulate = do
  swap ← needed simulate.swap_base_out_value
  ok (pack_swap_base_out swap)
pack_simulate _ simulate = ok []

-- The key of all zeros is `Pubkey::default()`.
unfoldable pub pack_config : ConfigArgs → Result (List ℕ)
pack_config args =
    if args.param == 0 || args.param == 1
    then (do
      owner ← needed args.owner
      if owner == 0 then err invalid_instruction_data else ok (bytes_onto 32 owner []))
    else if args.param == 2
    then (do fee ← needed args.create_pool_fee; ok (u64_bytes fee []))
    else err invalid_instruction_data

abbrev pub optional_u64 : Option ℕ → List ℕ
optional_u64 none = []
optional_u64 (some n) = u64_bytes n []

-- The minimums are written where both are given.
abbrev pub both_minimums : Option ℕ → Option ℕ → List ℕ
both_minimums (some coin) (some pc) = u64_bytes coin (u64_bytes pc [])
both_minimums _ _ = []

unfoldable pub pack : AmmInstruction → Result (List ℕ)
unfolding pack_set_params pack_simulate pack_config
pack (AmmInstruction.initialize i) = ok (0 ∷ bytes_onto 1 i.nonce (u64_bytes i.open_time []))
pack (AmmInstruction.initialize2 i) = ok (
    1
    ∷ bytes_onto 1 i.nonce
        (u64_bytes i.open_time (u64_bytes i.init_pc_amount (u64_bytes i.init_coin_amount []))))
pack (AmmInstruction.monitor_step i) = ok (
    2
    ∷ bytes_onto 2 i.plan_order_limit
        (bytes_onto 2 i.place_order_limit (bytes_onto 2 i.cancel_order_limit [])))
pack (AmmInstruction.deposit i) = ok (
    3
    ∷ u64_bytes i.max_coin_amount
        (u64_bytes i.max_pc_amount (u64_bytes i.base_side (optional_u64 i.other_amount_min))))
pack (AmmInstruction.withdraw i) =
    ok (4 ∷ u64_bytes i.amount (both_minimums i.min_coin_amount i.min_pc_amount))
pack AmmInstruction.migrate_to_open_book = ok (5 ∷ [])
pack (AmmInstruction.set_params i) = do
  which ← AmmParams.from_u64 i.param
  rest ← pack_set_params which i
  ok (6 ∷ bytes_onto 1 i.param rest)
pack AmmInstruction.withdraw_pnl = ok (7 ∷ [])
pack (AmmInstruction.withdraw_srm amount) = ok (8 ∷ u64_bytes amount [])
pack (AmmInstruction.swap_base_in swap) = ok (9 ∷ pack_swap_base_in swap)
pack (AmmInstruction.pre_initialize nonce) = ok (10 ∷ bytes_onto 1 nonce [])
pack (AmmInstruction.swap_base_out swap) = ok (11 ∷ pack_swap_base_out swap)
pack (AmmInstruction.simulate_info i) = do
  which ← SimulateParams.from_u64 i.param
  rest ← pack_simulate which i
  ok (12 ∷ bytes_onto 1 i.param rest)
pack (AmmInstruction.admin_cancel_orders limit) = ok (13 ∷ bytes_onto 2 limit [])
pack AmmInstruction.create_config_account = ok (14 ∷ [])
pack (AmmInstruction.update_config_account args) = do
  rest ← pack_config args
  ok (15 ∷ bytes_onto 1 args.param rest)
