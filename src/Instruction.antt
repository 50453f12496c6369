-- ===== src/Instruction.antt =====
-- program/src/instruction.rs: `AmmInstruction`, and its form as bytes. A byte is a number below 256, and a
-- public key the number that its 32 bytes spell.
pub mod Pack
pub mod Reading
pub mod Encodable
pub mod Params
pub mod RoundTrip
pub mod Tests
use raydium_amm_mod.Base.{
  ℕ, ◌==◌, ◌||◌, Option, none, some, List, [], ◌∷◌, length, leb, if◌then◌else◌,
}
use raydium_amm_mod.Error.{Result, ok, err, program, panicked, Failure, ◌>>=◌}
use raydium_amm_mod.State.Fees.{Fees, unpack_from_slice}
use raydium_amm_mod.State.Fees.Bytes.{of_bytes, drop}
use raydium_amm_mod.State.AmmParams
use raydium_amm_mod.State.AmmParams.{AmmParams}
use raydium_amm_mod.State.SimulateParams
use raydium_amm_mod.State.SimulateParams.{SimulateParams}
use raydium_amm_mod.Pool.SetParams.{SetParamsInstruction, LastOrderDistance}
use raydium_amm_mod.Pool.Swap.BaseIn.{SwapInstructionBaseIn}
use raydium_amm_mod.Pool.Swap.BaseOut.{SwapInstructionBaseOut}
use raydium_amm_mod.Pool.Liquidity.Deposit.{DepositInstruction}
use raydium_amm_mod.Pool.Liquidity.Withdraw.{WithdrawInstruction}

pub record InitializeInstruction : Type 0 where
  pub nonce : ℕ
  pub open_time : ℕ

pub record InitializeInstruction2 : Type 0 where
  pub nonce : ℕ
  pub open_time : ℕ
  pub init_pc_amount : ℕ
  pub init_coin_amount : ℕ

pub record MonitorStepInstruction : Type 0 where
  pub plan_order_limit : ℕ
  pub place_order_limit : ℕ
  pub cancel_order_limit : ℕ

pub record SimulateInstruction : Type 0 where
  pub param : ℕ
  pub swap_base_in_value : Option SwapInstructionBaseIn
  pub swap_base_out_value : Option SwapInstructionBaseOut

pub record ConfigArgs : Type 0 where
  pub param : ℕ
  pub owner : Option ℕ
  pub create_pool_fee : Option ℕ

-- The constructors of records with a single field have that field.
pub data AmmInstruction : Type 0 where
  initialize : InitializeInstruction → AmmInstruction
  initialize2 : InitializeInstruction2 → AmmInstruction
  monitor_step : MonitorStepInstruction → AmmInstruction
  deposit : DepositInstruction → AmmInstruction
  withdraw : WithdrawInstruction → AmmInstruction
  migrate_to_open_book : AmmInstruction
  set_params : SetParamsInstruction → AmmInstruction
  withdraw_pnl : AmmInstruction
  withdraw_srm : (amount : ℕ) → AmmInstruction
  swap_base_in : SwapInstructionBaseIn → AmmInstruction
  pre_initialize : (nonce : ℕ) → AmmInstruction
  swap_base_out : SwapInstructionBaseOut → AmmInstruction
  simulate_info : SimulateInstruction → AmmInstruction
  admin_cancel_orders : (limit : ℕ) → AmmInstruction
  create_config_account : AmmInstruction
  update_config_account : ConfigArgs → AmmInstruction

-- `ProgramError::InvalidInstructionData`, for which 1 stands.
abbrev pub invalid_instruction_data : Failure
invalid_instruction_data = program 1

-- `unpack_u8`, `unpack_u16` and `unpack_u64`, by the number of bytes.
unfoldable pub unpack_uint : ℕ → List ℕ → Result (ℕ × List ℕ)
unpack_uint width input =
    if leb width (length input)
    then ok (of_bytes width input, drop width input)
    else err invalid_instruction_data

abbrev pub unpack_u8 : List ℕ → Result (ℕ × List ℕ)
unpack_u8 = unpack_uint 1

abbrev pub unpack_u16 : List ℕ → Result (ℕ × List ℕ)
unpack_u16 = unpack_uint 2

abbrev pub unpack_u64 : List ℕ → Result (ℕ × List ℕ)
unpack_u64 = unpack_uint 8

-- The parameters that carry a `u64`.
unfoldable pub unpack_value : ℕ → List ℕ → Result AmmInstruction
unpack_value param rest = do
  (value, _) ← unpack_u64 rest
  ok (
      AmmInstruction.set_params (record {
        param = param;
        value = some value;
        new_pubkey = none;
        fees = none;
        last_order_distance = none;
      }))

-- The fees are read from the first 64 bytes.
unfoldable pub unpack_set_params : AmmParams → ℕ → List ℕ → Result AmmInstruction
unpack_set_params AmmParams.amm_owner param rest =
    if leb 32 (length rest)
    then ok (
        AmmInstruction.set_params (record {
          param = param;
          value = none;
          new_pubkey = some (of_bytes 32 rest);
          fees = none;
          last_order_distance = none;
        }))
    else err invalid_instruction_data
unpack_set_params AmmParams.fees param rest =
    if leb 64 (length rest)
    then (do
      fees ← unpack_from_slice rest
      ok (
          AmmInstruction.set_params (record {
            param = param;
            value = none;
            new_pubkey = none;
            fees = some fees;
            last_order_distance = none;
          })))
    else err invalid_instruction_data
unpack_set_params AmmParams.last_order_distance param rest =
    if leb 16 (length rest)
    then (do
      (last_order_numerator, rest) ← unpack_u64 rest
      (last_order_denominator, _) ← unpack_u64 rest
      ok (
          AmmInstruction.set_params (record {
            param = param;
            value = none;
            new_pubkey = none;
            fees = none;
            last_order_distance = some (record {
              last_order_numerator = last_order_numerator;
              last_order_denominator = last_order_denominator;
            });
          })))
    else err invalid_instruction_data
unpack_set_params _ param rest = unpack_value param rest

unfoldable pub unpack_swap_base_in : List ℕ → Result SwapInstructionBaseIn
unpack_swap_base_in rest = do
  (amount_in, rest) ← unpack_u64 rest
  (minimum_amount_out, _) ← unpack_u64 rest
  ok (record { amount_in = amount_in; minimum_amount_out = minimum_amount_out })

unfoldable pub unpack_swap_base_out : List ℕ → Result SwapInstructionBaseOut
unpack_swap_base_out rest = do
  (max_amount_in, rest) ← unpack_u64 rest
  (amount_out, _) ← unpack_u64 rest
  ok (record { max_amount_in = max_amount_in; amount_out = amount_out })

unfoldable pub unpack_simulate : SimulateParams → ℕ → List ℕ → Result AmmInstruction
unpack_simulate SimulateParams.swap_base_in_info param rest = do
  swap ← unpack_swap_base_in rest
  ok (
      AmmInstruction.simulate_info
        (record { param = param; swap_base_in_value = some swap; swap_base_out_value = none }))
unpack_simulate SimulateParams.swap_base_out_info param rest = do
  swap ← unpack_swap_base_out rest
  ok (
      AmmInstruction.simulate_info
        (record { param = param; swap_base_in_value = none; swap_base_out_value = some swap }))
unpack_simulate _ param rest = ok (
    AmmInstruction.simulate_info
      (record { param = param; swap_base_in_value = none; swap_base_out_value = none }))

-- `array_ref` panics on fewer than 32 bytes.
unfoldable pub unpack_config : ℕ → List ℕ → Result AmmInstruction
unpack_config param rest =
    if param == 0 || param == 1
    then (if leb 32 (length rest)
        then ok (
            AmmInstruction.update_config_account
              (record { param = param; owner = some (of_bytes 32 rest); create_pool_fee = none }))
        else err panicked)
    else if param == 2
    then (do
      (create_pool_fee, _) ← unpack_u64 rest
      ok (
          AmmInstruction.update_config_account
            (record { param = param; owner = none; create_pool_fee = some create_pool_fee })))
    else err invalid_instruction_data

unfoldable pub unpack_deposit : List ℕ → Result AmmInstruction
unpack_deposit rest = do
  (max_coin_amount, rest) ← unpack_u64 rest
  (max_pc_amount, rest) ← unpack_u64 rest
  (base_side, rest) ← unpack_u64 rest
  other_amount_min ←
      (if leb 8 (length rest) then unpack_u64 rest >>= (λ (n, _). ok (some n)) else ok none)
  ok (
      AmmInstruction.deposit (record {
        max_coin_amount = max_coin_amount;
        max_pc_amount = max_pc_amount;
        base_side = base_side;
        other_amount_min = other_amount_min;
      }))

unfoldable pub unpack_withdraw : List ℕ → Result AmmInstruction
unpack_withdraw rest = do
  (amount, rest) ← unpack_u64 rest
  if leb 16 (length rest)
      then (do
        (min_coin_amount, rest) ← unpack_u64 rest
        (min_pc_amount, _) ← unpack_u64 rest
        ok (
            AmmInstruction.withdraw (record {
              amount = amount;
              min_coin_amount = some min_coin_amount;
              min_pc_amount = some min_pc_amount;
            })))
      else ok (
          AmmInstruction.withdraw
            (record { amount = amount; min_coin_amount = none; min_pc_amount = none }))

unfoldable pub unpack_monitor_step : List ℕ → Result AmmInstruction
unpack_monitor_step rest = do
  (plan_order_limit, rest) ← unpack_u16 rest
  (place_order_limit, rest) ← unpack_u16 rest
  (cancel_order_limit, _) ← unpack_u16 rest
  ok (
      AmmInstruction.monitor_step (record {
        plan_order_limit = plan_order_limit;
        place_order_limit = place_order_limit;
        cancel_order_limit = cancel_order_limit;
      }))

unfoldable pub unpack_initialize : List ℕ → Result AmmInstruction
unpack_initialize rest = do
  (nonce, rest) ← unpack_u8 rest
  (open_time, _) ← unpack_u64 rest
  ok (AmmInstruction.initialize (record { nonce = nonce; open_time = open_time }))

unfoldable pub unpack_initialize2 : List ℕ → Result AmmInstruction
unpack_initialize2 rest = do
  (nonce, rest) ← unpack_u8 rest
  (open_time, rest) ← unpack_u64 rest
  (init_pc_amount, rest) ← unpack_u64 rest
  (init_coin_amount, _) ← unpack_u64 rest
  ok (
      AmmInstruction.initialize2 (record {
        nonce = nonce;
        open_time = open_time;
        init_pc_amount = init_pc_amount;
        init_coin_amount = init_coin_amount;
      }))

-- The arm of each tag.
unfoldable pub unpack_tag : ℕ → List ℕ → Result AmmInstruction
unpack_tag tag rest =
    if tag == 0
    then unpack_initialize rest
    else if tag == 1
    then unpack_initialize2 rest
    else if tag == 2
    then unpack_monitor_step rest
    else if tag == 3
    then unpack_deposit rest
    else if tag == 4
    then unpack_withdraw rest
    else if tag == 5
    then ok AmmInstruction.migrate_to_open_book
    else if tag == 6
    then (do
      (param, rest) ← unpack_u8 rest
      which ← AmmParams.from_u64 param
      unpack_set_params which param rest)
    else if tag == 7
    then ok AmmInstruction.withdraw_pnl
    else if tag == 8
    then (do (amount, _) ← unpack_u64 rest; ok (AmmInstruction.withdraw_srm amount))
    else if tag == 9
    then (do swap ← unpack_swap_base_in rest; ok (AmmInstruction.swap_base_in swap))
    else if tag == 10
    then (do (nonce, _) ← unpack_u8 rest; ok (AmmInstruction.pre_initialize nonce))
    else if tag == 11
    then (do swap ← unpack_swap_base_out rest; ok (AmmInstruction.swap_base_out swap))
    else if tag == 12
    then (do
      (param, rest) ← unpack_u8 rest
      which ← SimulateParams.from_u64 param
      unpack_simulate which param rest)
    else if tag == 13
    then (do (limit, _) ← unpack_u16 rest; ok (AmmInstruction.admin_cancel_orders limit))
    else if tag == 14
    then ok AmmInstruction.create_config_account
    else if tag == 15
    then (do (param, rest) ← unpack_u8 rest; unpack_config param rest)
    else err invalid_instruction_data

unfoldable pub unpack : List ℕ → Result AmmInstruction
unfolding unpack_tag
unpack [] = err invalid_instruction_data
unpack (tag ∷ rest) = unpack_tag tag rest
