-- ===== src/State/Tests.antt =====
-- The types of program/src/state.rs at concrete values.
use raydium_amm_mod.Base.{ℕ, zero, suc, ◌≡◌, ◌≢◌, refl, arith, true, List, [], ◌∷◌}
use raydium_amm_mod.Error.{AmmError, Failure, amm, ok, err}
use raydium_amm_mod.State.Fees.{
  Fees, Fits, IsValid, validate, initialize, pack_into_slice, unpack_from_slice, validate-IsValid,
  initialize-IsValid, unpack-pack,
}
use raydium_amm_mod.State.AmmStatus
use raydium_amm_mod.State.AmmStatus.{AmmStatus, valid_status_reads, permissions_nest}

abbrev some_fees : Fees
some_fees = record {
  min_separate_numerator = 5;
  min_separate_denominator = 10_000;
  trade_fee_numerator = 25;
  trade_fee_denominator = 10_000;
  pnl_numerator = 12;
  pnl_denominator = 100;
  swap_fee_numerator = 30;
  swap_fee_denominator = 20_000;
}

validate-IsValid_example :
    (IsValid some_fees → validate some_fees ≡ ok tt)
    × (validate some_fees ≡ ok tt → IsValid some_fees)
    × ((e : Failure) → validate some_fees ≡ err e → e ≡ amm AmmError.invalid_fee)
validate-IsValid_example = validate-IsValid some_fees

initialize-IsValid_example :
    (g : Fees) × (initialize some_fees ≡ ok g) × (validate g ≡ ok tt) × Fits g
initialize-IsValid_example = initialize-IsValid some_fees

abbrev nines : ℕ → List ℕ
nines zero = []
nines (suc n) = 9 ∷ nines n

unpack-pack_example :
    (bytes : List ℕ) × (pack_into_slice some_fees (nines 70) ≡ ok bytes)
    × (unpack_from_slice bytes ≡ ok some_fees)
unpack-pack_example = unpack-pack some_fees (nines 70) (omega arith) (omega arith)

valid_status_reads_example :
    (s : AmmStatus) × (AmmStatus.from_u64 6 ≡ ok s)
    × (AmmStatus.into_u64 s ≡ 6)
    × (s ≢ AmmStatus.uninitialized)
unfolding AmmStatus.valid_status
valid_status_reads_example = valid_status_reads 6 refl

permissions_nest_example :
    (AmmStatus.swap_permission AmmStatus.swap_only ≡ true
      → AmmStatus.deposit_permission AmmStatus.swap_only ≡ true)
    × (AmmStatus.orderbook_permission AmmStatus.swap_only ≡ true
        → AmmStatus.deposit_permission AmmStatus.swap_only ≡ true)
    × (AmmStatus.deposit_permission AmmStatus.swap_only ≡ true
        → AmmStatus.withdraw_permission AmmStatus.swap_only ≡ true)
    × (AmmStatus.swap_permission AmmStatus.swap_only ≡ true
        → AmmStatus.orderbook_permission AmmStatus.swap_only ≡ true
        → AmmStatus.swap_only ≡ AmmStatus.initialized)
permissions_nest_example = permissions_nest AmmStatus.swap_only
