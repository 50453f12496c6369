-- ===== src/Instruction/Params.antt =====
-- The instructions of program/src/instruction.rs whose form depends on a parameter.
use raydium_amm_mod.Base.{
  ℕ, zero, suc, ◌^◌, ◌<◌, ◌≡◌, refl, ap, arith, Bool-cases, inl, inr, ltb, ltb→le, true, none, some,
  List, [], ◌∷◌, length, leb, le→leb, ≢→==,
}
use raydium_amm_mod.Error.{ok, err-ne-ok}
use raydium_amm_mod.State.Fees.{Fees, Fits, unpack-pack, unpack_from_slice}
use raydium_amm_mod.State.Fees.Bytes.{bytes_onto, u64_bytes}
use raydium_amm_mod.State.AmmParams
use raydium_amm_mod.State.AmmParams.{AmmParams}
use raydium_amm_mod.Pool.SetParams.{SetParamsInstruction}
use raydium_amm_mod.Instruction.{
  AmmInstruction, unpack_value, unpack_set_params, unpack_config, unpack_tag, unpack,
}
use raydium_amm_mod.Instruction.Pack.{fees_slice, pack_set_params, pack_config, pack}
use raydium_amm_mod.Instruction.Reading.{
  of_bytes-bytes_onto, carries_u64, unpack_set_params-value, pack_set_params-value, read_u8,
  read_u64,
}
use raydium_amm_mod.Instruction.Encodable.{RoundTrips}

abbrev value_set : ℕ → ℕ → SetParamsInstruction
value_set param value = record {
  param = param;
  value = some value;
  new_pubkey = none;
  fees = none;
  last_order_distance = none;
}

pub set_value-RoundTrips :
    (which : AmmParams) (param value : ℕ)
    → AmmParams.from_u64 param ≡ ok which
    → carries_u64 which ≡ true
    → param < 2 ^ 8
    → value < 2 ^ 64
    → RoundTrips (
        AmmInstruction.set_params (record {
          param = param;
          value = some value;
          new_pubkey = none;
          fees = none;
          last_order_distance = none;
        }))
unfolding pack unpack unpack_tag unpack_value
set_value-RoundTrips which param value e c h₁ h₂ = (
  6 ∷ bytes_onto 1 param (u64_bytes value []),
  rw (e, pack_set_params-value which (value_set param value) {value = value} c refl) refl,
  rw
      (
        read_u8 param (u64_bytes value []) h₁,
        e,
        unpack_set_params-value which param (u64_bytes value []) c,
        read_u64 value [] h₂,
      )
      refl,
)

long_enough :
    (bytes : List ℕ) {f : Fees} → unpack_from_slice bytes ≡ ok f → leb 64 (length bytes) ≡ true
unfolding unpack_from_slice
long_enough bytes h = elim (Bool-cases (ltb (length bytes) 64)) [
  | inl short ↦ absurd (err-ne-ok (rw short at h))
  | inr long ↦ le→leb 64 (length bytes) (ltb→le (length bytes) 64 long)
]

pub set_fees-RoundTrips :
    (fees : Fees)
    → Fits fees
    → RoundTrips (
        AmmInstruction.set_params (record {
          param = 9;
          value = none;
          new_pubkey = none;
          fees = some fees;
          last_order_distance = none;
        }))
unfolding pack unpack unpack_tag unpack_set_params pack_set_params AmmParams.from_u64
set_fees-RoundTrips fees fits =
    let (bytes, packed, unpacked) = unpack-pack fees fees_slice fits (omega arith) in
    (
      6 ∷ bytes_onto 1 9 bytes,
      rw packed refl,
      rw (read_u8 9 bytes (omega arith), long_enough bytes unpacked, unpacked) refl,
    )

pub set_owner-RoundTrips :
    (key : ℕ)
    → key < 256 ^ 32
    → RoundTrips (
        AmmInstruction.set_params (record {
          param = 10;
          value = none;
          new_pubkey = some key;
          fees = none;
          last_order_distance = none;
        }))
unfolding pack unpack unpack_tag unpack_set_params pack_set_params AmmParams.from_u64
set_owner-RoundTrips key h = (
  6 ∷ bytes_onto 1 10 (bytes_onto 32 key []),
  refl,
  rw (read_u8 10 (bytes_onto 32 key []) (omega arith)) (
      ap
        (λ (k : ℕ). ok (
          AmmInstruction.set_params (record {
            param = 10;
            value = none;
            new_pubkey = some k;
            fees = none;
            last_order_distance = none;
          })))
        (of_bytes-bytes_onto 32 key [] h)),
)

pub set_distance-RoundTrips :
    (numerator denominator : ℕ)
    → numerator < 2 ^ 64
    → denominator < 2 ^ 64
    → RoundTrips (
        AmmInstruction.set_params (record {
          param = 12;
          value = none;
          new_pubkey = none;
          fees = none;
          last_order_distance =
              some
                (record { last_order_numerator = numerator; last_order_denominator = denominator });
        }))
unfolding pack unpack unpack_tag unpack_set_params pack_set_params AmmParams.from_u64
set_distance-RoundTrips num den h₁ h₂ = (
  6 ∷ bytes_onto 1 12 (u64_bytes num (u64_bytes den [])),
  refl,
  rw
      (
        read_u8 12 (u64_bytes num (u64_bytes den [])) (omega arith),
        read_u64 num _ h₁,
        read_u64 den _ h₂,
      )
      refl,
)

pub config_owner-RoundTrips :
    (param owner : ℕ)
    → param < 2
    → 0 < owner
    → owner < 256 ^ 32
    → RoundTrips (
        AmmInstruction.update_config_account
          (record { param = param; owner = some owner; create_pool_fee = none }))
unfolding pack unpack unpack_tag unpack_config pack_config
config_owner-RoundTrips zero owner lt pos h = (
  15 ∷ bytes_onto 1 0 (bytes_onto 32 owner []),
  rw (≢→== owner 0 (omega arith)) refl,
  rw (read_u8 0 (bytes_onto 32 owner []) (omega arith)) (
      ap
        (λ (k : ℕ). ok (
          AmmInstruction.update_config_account
            (record { param = 0; owner = some k; create_pool_fee = none })))
        (of_bytes-bytes_onto 32 owner [] h)),
)
config_owner-RoundTrips (suc zero) owner lt pos h = (
  15 ∷ bytes_onto 1 1 (bytes_onto 32 owner []),
  rw (≢→== owner 0 (omega arith)) refl,
  rw (read_u8 1 (bytes_onto 32 owner []) (omega arith)) (
      ap
        (λ (k : ℕ). ok (
          AmmInstruction.update_config_account
            (record { param = 1; owner = some k; create_pool_fee = none })))
        (of_bytes-bytes_onto 32 owner [] h)),
)
config_owner-RoundTrips (suc (suc n)) owner lt pos h = absurd (omega arith)
