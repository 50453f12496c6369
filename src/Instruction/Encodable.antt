-- ===== src/Instruction/Encodable.antt =====
-- The instructions of program/src/instruction.rs that have a form as bytes.
use raydium_amm_mod.Base.{ℕ, ◌^◌, ◌<◌, ◌≡◌, true, none, some, List}
use raydium_amm_mod.Error.{ok}
use raydium_amm_mod.State.Fees.{Fees, Fits}
use raydium_amm_mod.State.AmmParams
use raydium_amm_mod.State.AmmParams.{AmmParams}
use raydium_amm_mod.Instruction.{AmmInstruction, unpack}
use raydium_amm_mod.Instruction.Pack.{pack}
use raydium_amm_mod.Instruction.Reading.{carries_u64}

-- The instructions that have a form as bytes: every number fits its width, and of the optional fields
-- those are given that the parameter asks for.
pub data IsEncodable : AmmInstruction → Type 0 where
  initialize :
      (nonce open_time : ℕ)
      → nonce < 2 ^ 8
      → open_time < 2 ^ 64
      → IsEncodable (AmmInstruction.initialize (record { nonce = nonce; open_time = open_time }))
  initialize2 :
      (nonce open_time init_pc init_coin : ℕ)
      → nonce < 2 ^ 8
      → open_time < 2 ^ 64
      → init_pc < 2 ^ 64
      → init_coin < 2 ^ 64
      → IsEncodable (
          AmmInstruction.initialize2 (record {
            nonce = nonce;
            open_time = open_time;
            init_pc_amount = init_pc;
            init_coin_amount = init_coin;
          }))
  monitor_step :
      (plan place cancel : ℕ)
      → plan < 2 ^ 16
      → place < 2 ^ 16
      → cancel < 2 ^ 16
      → IsEncodable (
          AmmInstruction.monitor_step (record {
            plan_order_limit = plan;
            place_order_limit = place;
            cancel_order_limit = cancel;
          }))
  deposit :
      (max_coin max_pc base_side : ℕ)
      → max_coin < 2 ^ 64
      → max_pc < 2 ^ 64
      → base_side < 2 ^ 64
      → IsEncodable (
          AmmInstruction.deposit (record {
            max_coin_amount = max_coin;
            max_pc_amount = max_pc;
            base_side = base_side;
            other_amount_min = none;
          }))
  deposit_min :
      (max_coin max_pc base_side minimum : ℕ)
      → max_coin < 2 ^ 64
      → max_pc < 2 ^ 64
      → base_side < 2 ^ 64
      → minimum < 2 ^ 64
      → IsEncodable (
          AmmInstruction.deposit (record {
            max_coin_amount = max_coin;
            max_pc_amount = max_pc;
            base_side = base_side;
            other_amount_min = some minimum;
          }))
  withdraw :
      (amount : ℕ)
      → amount < 2 ^ 64
      → IsEncodable (
          AmmInstruction.withdraw
            (record { amount = amount; min_coin_amount = none; min_pc_amount = none }))
  withdraw_min :
      (amount coin pc : ℕ)
      → amount < 2 ^ 64
      → coin < 2 ^ 64
      → pc < 2 ^ 64
      → IsEncodable (
          AmmInstruction.withdraw
            (record { amount = amount; min_coin_amount = some coin; min_pc_amount = some pc }))
  migrate_to_open_book : IsEncodable AmmInstruction.migrate_to_open_book
  set_value :
      (which : AmmParams) (param value : ℕ)
      → AmmParams.from_u64 param ≡ ok which
      → carries_u64 which ≡ true
      → param < 2 ^ 8
      → value < 2 ^ 64
      → IsEncodable (
          AmmInstruction.set_params (record {
            param = param;
            value = some value;
            new_pubkey = none;
            fees = none;
            last_order_distance = none;
          }))
  set_owner :
      (new_pubkey : ℕ)
      → new_pubkey < 256 ^ 32
      → IsEncodable (
          AmmInstruction.set_params (record {
            param = 10;
            value = none;
            new_pubkey = some new_pubkey;
            fees = none;
            last_order_distance = none;
          }))
  set_fees :
      (fees : Fees)
      → Fits fees
      → IsEncodable (
          AmmInstruction.set_params (record {
            param = 9;
            value = none;
            new_pubkey = none;
            fees = some fees;
            last_order_distance = none;
          }))
  set_distance :
      (numerator denominator : ℕ)
      → numerator < 2 ^ 64
      → denominator < 2 ^ 64
      → IsEncodable (
          AmmInstruction.set_params (record {
            param = 12;
            value = none;
            new_pubkey = none;
            fees = none;
            last_order_distance =
                some (record {
                  last_order_numerator = numerator;
                  last_order_denominator = denominator;
                });
          }))
  withdraw_pnl : IsEncodable AmmInstruction.withdraw_pnl
  withdraw_srm : (amount : ℕ) → amount < 2 ^ 64 → IsEncodable (AmmInstruction.withdraw_srm amount)
  swap_base_in :
      (amount_in minimum : ℕ)
      → amount_in < 2 ^ 64
      → minimum < 2 ^ 64
      → IsEncodable (
          AmmInstruction.swap_base_in
            (record { amount_in = amount_in; minimum_amount_out = minimum }))
  pre_initialize : (nonce : ℕ) → nonce < 2 ^ 8 → IsEncodable (AmmInstruction.pre_initialize nonce)
  swap_base_out :
      (maximum amount_out : ℕ)
      → maximum < 2 ^ 64
      → amount_out < 2 ^ 64
      → IsEncodable (
          AmmInstruction.swap_base_out
            (record { max_amount_in = maximum; amount_out = amount_out }))
  simulate_pool : IsEncodable (
      AmmInstruction.simulate_info
        (record { param = 0; swap_base_in_value = none; swap_base_out_value = none }))
  simulate_crank : IsEncodable (
      AmmInstruction.simulate_info
        (record { param = 3; swap_base_in_value = none; swap_base_out_value = none }))
  simulate_in :
      (amount_in minimum : ℕ)
      → amount_in < 2 ^ 64
      → minimum < 2 ^ 64
      → IsEncodable (
          AmmInstruction.simulate_info (record {
            param = 1;
            swap_base_in_value =
                some (record { amount_in = amount_in; minimum_amount_out = minimum });
            swap_base_out_value = none;
          }))
  simulate_out :
      (maximum amount_out : ℕ)
      → maximum < 2 ^ 64
      → amount_out < 2 ^ 64
      → IsEncodable (
          AmmInstruction.simulate_info (record {
            param = 2;
            swap_base_in_value = none;
            swap_base_out_value =
                some (record { max_amount_in = maximum; amount_out = amount_out });
          }))
  admin_cancel_orders :
      (limit : ℕ) → limit < 2 ^ 16 → IsEncodable (AmmInstruction.admin_cancel_orders limit)
  create_config_account : IsEncodable AmmInstruction.create_config_account
  config_fee :
      (fee : ℕ)
      → fee < 2 ^ 64
      → IsEncodable (
          AmmInstruction.update_config_account
            (record { param = 2; owner = none; create_pool_fee = some fee }))
  config_owner :
      (param owner : ℕ)
      → param < 2
      → 0 < owner
      → owner < 256 ^ 32
      → IsEncodable (
          AmmInstruction.update_config_account
            (record { param = param; owner = some owner; create_pool_fee = none }))

abbrev pub RoundTrips : AmmInstruction → Type 0
RoundTrips i = (bytes : List ℕ) × (pack i ≡ ok bytes) × (unpack bytes ≡ ok i)
