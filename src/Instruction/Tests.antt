-- ===== src/Instruction/Tests.antt =====
-- An instruction as bytes, program/src/instruction.rs.
use raydium_amm_mod.Base.{arith, some}
use raydium_amm_mod.Instruction.{AmmInstruction}
use raydium_amm_mod.Instruction.Encodable.{IsEncodable, RoundTrips}
use raydium_amm_mod.Instruction.RoundTrip.{pack-RoundTrips}

abbrev some_instruction : AmmInstruction
some_instruction = AmmInstruction.deposit (record {
  max_coin_amount = 10_000;
  max_pc_amount = 21_000;
  base_side = 0;
  other_amount_min = some 19_000;
})

pack-RoundTrips_example : RoundTrips some_instruction
pack-RoundTrips_example = pack-RoundTrips some_instruction (
    IsEncodable.deposit_min 10_000 21_000 0 19_000 (omega arith) (omega arith) (omega arith)
      (omega arith))
