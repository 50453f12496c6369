-- ===== src/Instruction/Reading.antt =====
-- Reading back the numbers that an instruction is made of, program/src/instruction.rs.
use native.Mathlib.Nat.{div-add-mod, div-lt_iff_lt-mul}
use raydium_amm_mod.Base.{
  ℕ, zero, suc, ◌+◌, ◌/◌, ◌^◌, ◌≤◌, ◌<◌, ◌≡◌, refl, arith, Bool, true, false, some, List, [],
  length, leb, le→leb,
}
use raydium_amm_mod.Error.{ok}
use raydium_amm_mod.State.Fees.Bytes.{bytes_onto, of_bytes, drop, u64_bytes}
use raydium_amm_mod.State.AmmParams.{AmmParams}
use raydium_amm_mod.Pool.SetParams.{SetParamsInstruction}
use raydium_amm_mod.Instruction.{unpack_uint, unpack_value, unpack_set_params}
use raydium_amm_mod.Instruction.Pack.{pack_set_params}

pub of_bytes-bytes_onto :
    (k n : ℕ) (rest : List ℕ) → n < 256 ^ k → of_bytes k (bytes_onto k n rest) ≡ n
of_bytes-bytes_onto zero n rest h = omega arith
of_bytes-bytes_onto (suc k) n rest h =
    let below : n / 256 < 256 ^ k =
      (div-lt_iff_lt-mul {k = 256} {x = n} {y = 256 ^ k} (omega arith)).1 (omega arith) in
    let high = of_bytes-bytes_onto k (n / 256) rest below in
    rw high (omega (arith, div-add-mod n 256))

drop-bytes_onto : (k n : ℕ) (rest : List ℕ) → drop k (bytes_onto k n rest) ≡ rest
drop-bytes_onto zero n rest = refl
drop-bytes_onto (suc k) n rest = drop-bytes_onto k (n / 256) rest

length-bytes_onto : (k n : ℕ) (rest : List ℕ) → length (bytes_onto k n rest) ≡ k + length rest
length-bytes_onto zero n rest = omega arith
length-bytes_onto (suc k) n rest = omega (arith, length-bytes_onto k (n / 256) rest)

-- A number that fits its bytes is read back, and what follows is left.
unpack_uint-bytes_onto :
    (k n : ℕ) (rest : List ℕ) → n < 256 ^ k → unpack_uint k (bytes_onto k n rest) ≡ ok (n, rest)
unfolding unpack_uint
unpack_uint-bytes_onto k n rest h =
    let long =
      le→leb k (length (bytes_onto k n rest)) (omega (arith, length-bytes_onto k n rest)) in
    rw (long, of_bytes-bytes_onto k n rest h, drop-bytes_onto k n rest) refl

enough_bytes :
    (m k n : ℕ) (rest : List ℕ) → m ≤ k + length rest → leb m (length (bytes_onto k n rest)) ≡ true
enough_bytes m k n rest h =
    le→leb m (length (bytes_onto k n rest)) (omega (arith, length-bytes_onto k n rest))

unfoldable pub carries_u64 : AmmParams → Bool
carries_u64 AmmParams.amm_owner = false
carries_u64 AmmParams.fees = false
carries_u64 AmmParams.last_order_distance = false
carries_u64 _ = true

pub unpack_set_params-value :
    (which : AmmParams) (param : ℕ) (rest : List ℕ)
    → carries_u64 which ≡ true
    → unpack_set_params which param rest ≡ unpack_value param rest
unfolding carries_u64 unpack_set_params
unpack_set_params-value AmmParams.amm_owner param rest h = cc
unpack_set_params-value AmmParams.fees param rest h = cc
unpack_set_params-value AmmParams.last_order_distance param rest h = cc
unpack_set_params-value _ param rest h = refl

pub pack_set_params-value :
    (which : AmmParams) (set : SetParamsInstruction) {value : ℕ}
    → carries_u64 which ≡ true
    → set.value ≡ some value
    → pack_set_params which set ≡ ok (u64_bytes value [])
unfolding carries_u64 pack_set_params
pack_set_params-value which set h e = ground arith

module _ (n : ℕ) (rest : List ℕ) where
  pub read_u8 : n < 2 ^ 8 → unpack_uint 1 (bytes_onto 1 n rest) ≡ ok (n, rest)
  read_u8 h = unpack_uint-bytes_onto 1 n rest (omega arith)

  pub read_u16 : n < 2 ^ 16 → unpack_uint 2 (bytes_onto 2 n rest) ≡ ok (n, rest)
  read_u16 h = unpack_uint-bytes_onto 2 n rest (omega arith)

  pub read_u64 : n < 2 ^ 64 → unpack_uint 8 (u64_bytes n rest) ≡ ok (n, rest)
  read_u64 h = unpack_uint-bytes_onto 8 n rest (omega arith)
