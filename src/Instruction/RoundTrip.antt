-- ===== src/Instruction/RoundTrip.antt =====
-- An instruction of program/src/instruction.rs that a client can mean is read back from its bytes.
use raydium_amm_mod.Base.{refl, arith, []}
use raydium_amm_mod.State.SimulateParams
use raydium_amm_mod.State.SimulateParams.{SimulateParams}
use raydium_amm_mod.Instruction.{
  AmmInstruction, unpack_swap_base_in, unpack_swap_base_out, unpack_simulate, unpack_config,
  unpack_deposit, unpack_withdraw, unpack_monitor_step, unpack_initialize, unpack_initialize2,
  unpack_tag, unpack,
}
use raydium_amm_mod.Instruction.Pack.{pack_simulate, pack_config, pack}
use raydium_amm_mod.Instruction.Reading.{read_u8, read_u16, read_u64}
use raydium_amm_mod.Instruction.Encodable.{IsEncodable, RoundTrips}
use raydium_amm_mod.Instruction.Params.{
  set_value-RoundTrips, set_fees-RoundTrips, set_owner-RoundTrips, set_distance-RoundTrips,
  config_owner-RoundTrips,
}

-- Every instruction that can be meant is packed without an error, and unpacked from its bytes.
pub pack-RoundTrips : (i : AmmInstruction) → IsEncodable i → RoundTrips i
unfolding pack unpack unpack_tag unpack_initialize unpack_initialize2 unpack_monitor_step
    unpack_deposit unpack_withdraw unpack_swap_base_in unpack_swap_base_out unpack_simulate
    pack_simulate unpack_config pack_config SimulateParams.from_u64
pack-RoundTrips _ (IsEncodable.initialize nonce time h₁ h₂) =
    (_, refl, rw (read_u8 nonce _ h₁, read_u64 time _ h₂) refl)
pack-RoundTrips _ (IsEncodable.initialize2 nonce time pc coin h₁ h₂ h₃ h₄) = (
  _,
  refl,
  rw (read_u8 nonce _ h₁, read_u64 time _ h₂, read_u64 pc _ h₃, read_u64 coin _ h₄) refl,
)
pack-RoundTrips _ (IsEncodable.monitor_step plan place cancel h₁ h₂ h₃) =
    (_, refl, rw (read_u16 plan _ h₁, read_u16 place _ h₂, read_u16 cancel _ h₃) refl)
pack-RoundTrips _ (IsEncodable.deposit coin pc base h₁ h₂ h₃) =
    (_, refl, rw (read_u64 coin _ h₁, read_u64 pc _ h₂, read_u64 base _ h₃) refl)
pack-RoundTrips _ (IsEncodable.deposit_min coin pc base least h₁ h₂ h₃ h₄) = (
  _,
  refl,
  rw (read_u64 coin _ h₁, read_u64 pc _ h₂, read_u64 base _ h₃, read_u64 least _ h₄) refl,
)
pack-RoundTrips _ (IsEncodable.withdraw amount h₁) = (_, refl, rw (read_u64 amount _ h₁) refl)
pack-RoundTrips _ (IsEncodable.withdraw_min amount coin pc h₁ h₂ h₃) =
    (_, refl, rw (read_u64 amount _ h₁, read_u64 coin _ h₂, read_u64 pc _ h₃) refl)
pack-RoundTrips _ IsEncodable.migrate_to_open_book = (_, refl, refl)
pack-RoundTrips _ (IsEncodable.withdraw_srm amount h₁) = (_, refl, rw (read_u64 amount _ h₁) refl)
pack-RoundTrips _ IsEncodable.withdraw_pnl = (_, refl, refl)
pack-RoundTrips _ (IsEncodable.swap_base_in amount least h₁ h₂) =
    (_, refl, rw (read_u64 amount _ h₁, read_u64 least _ h₂) refl)
pack-RoundTrips _ (IsEncodable.pre_initialize nonce h₁) = (_, refl, rw (read_u8 nonce _ h₁) refl)
pack-RoundTrips _ (IsEncodable.swap_base_out most amount h₁ h₂) =
    (_, refl, rw (read_u64 most _ h₁, read_u64 amount _ h₂) refl)
pack-RoundTrips _ (IsEncodable.admin_cancel_orders limit h₁) =
    (_, refl, rw (read_u16 limit _ h₁) refl)
pack-RoundTrips _ IsEncodable.create_config_account = (_, refl, refl)
pack-RoundTrips _ (IsEncodable.set_value which param value e c h₁ h₂) =
    set_value-RoundTrips which param value e c h₁ h₂
pack-RoundTrips _ (IsEncodable.set_owner key h₁) = set_owner-RoundTrips key h₁
pack-RoundTrips _ (IsEncodable.set_fees fees fits) = set_fees-RoundTrips fees fits
pack-RoundTrips _ (IsEncodable.set_distance num den h₁ h₂) = set_distance-RoundTrips num den h₁ h₂
pack-RoundTrips _ IsEncodable.simulate_pool = (_, refl, rw (read_u8 0 [] (omega arith)) refl)
pack-RoundTrips _ IsEncodable.simulate_crank = (_, refl, rw (read_u8 3 [] (omega arith)) refl)
pack-RoundTrips _ (IsEncodable.simulate_in amount least h₁ h₂) =
    (_, refl, rw (read_u8 1 _ (omega arith), read_u64 amount _ h₁, read_u64 least _ h₂) refl)
pack-RoundTrips _ (IsEncodable.simulate_out most amount h₁ h₂) =
    (_, refl, rw (read_u8 2 _ (omega arith), read_u64 most _ h₁, read_u64 amount _ h₂) refl)
pack-RoundTrips _ (IsEncodable.config_fee fee h₁) =
    (_, refl, rw (read_u8 2 _ (omega arith), read_u64 fee _ h₁) refl)
pack-RoundTrips _ (IsEncodable.config_owner param owner lt pos h₁) =
    config_owner-RoundTrips param owner lt pos h₁
