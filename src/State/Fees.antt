-- ===== src/State/Fees.antt =====
-- program/src/state.rs: `Fees`, its validation and its 64-byte form.
pub mod Bytes
use raydium_amm_mod.Base.{
  ℕ, zero, suc, ◌+◌, ◌^◌, ◌≤◌, ◌<◌, ◌≡◌, refl, arith, Bool, ◌||◌, List, [], ◌∷◌, ◌++◌, length, ltb,
  leb, ◌==◌, le→ltb, ap, if◌then◌else◌,
}
use raydium_amm_mod.Error.{AmmError, Failure, Result, ok, err, amm, panicked, ◌>>=◌, ◌>>◌, require}
use Bytes.{u64_bytes, u64_of_bytes, u64_of_bytes-u64_bytes, drop}

abbrev pub ten_thousand : ℕ
ten_thousand = 10_000

pub record Fees : Type 0 where
  pub min_separate_numerator : ℕ
  pub min_separate_denominator : ℕ
  pub trade_fee_numerator : ℕ
  pub trade_fee_denominator : ℕ
  pub pnl_numerator : ℕ
  pub pnl_denominator : ℕ
  pub swap_fee_numerator : ℕ
  pub swap_fee_denominator : ℕ

unfoldable pub validate_fraction : ℕ → ℕ → Result (Unit {0})
validate_fraction numerator denominator =
    if leb denominator numerator || denominator == 0 then err (amm AmmError.invalid_fee) else ok tt

unfoldable pub validate : Fees → Result (Unit {0})
unfolding validate_fraction
validate self = do
  validate_fraction self.min_separate_numerator self.min_separate_denominator
  validate_fraction self.trade_fee_numerator self.trade_fee_denominator
  validate_fraction self.pnl_numerator self.pnl_denominator
  validate_fraction self.swap_fee_numerator self.swap_fee_denominator
  ok tt

unfoldable pub initialize : Fees → Result Fees
initialize self = ok (record self {
  min_separate_numerator = 5;
  min_separate_denominator = ten_thousand;
  trade_fee_numerator = 25;
  trade_fee_denominator = ten_thousand;
  pnl_numerator = 12;
  pnl_denominator = 100;
  swap_fee_numerator = 25;
  swap_fee_denominator = ten_thousand;
})

-- The eight fields in order, in front of the rest of a buffer.
unfoldable pub fee_bytes : Fees → List ℕ → List ℕ
fee_bytes self rest = u64_bytes self.min_separate_numerator (
    u64_bytes self.min_separate_denominator (
      u64_bytes self.trade_fee_numerator (
        u64_bytes self.trade_fee_denominator (
          u64_bytes self.pnl_numerator (
            u64_bytes self.pnl_denominator
              (u64_bytes self.swap_fee_numerator (u64_bytes self.swap_fee_denominator rest)))))))

unfoldable pub read_fees : List ℕ → Fees
read_fees input = record {
  min_separate_numerator = u64_of_bytes input;
  min_separate_denominator = u64_of_bytes (drop 8 input);
  trade_fee_numerator = u64_of_bytes (drop 16 input);
  trade_fee_denominator = u64_of_bytes (drop 24 input);
  pnl_numerator = u64_of_bytes (drop 32 input);
  pnl_denominator = u64_of_bytes (drop 40 input);
  swap_fee_numerator = u64_of_bytes (drop 48 input);
  swap_fee_denominator = u64_of_bytes (drop 56 input);
}

-- The first 64 bytes of the output are overwritten; a shorter output panics.
unfoldable pub pack_into_slice : Fees → List ℕ → Result (List ℕ)
unfolding fee_bytes
pack_into_slice self output =
    if ltb (length output) 64 then err panicked else ok (fee_bytes self (drop 64 output))

unfoldable pub unpack_from_slice : List ℕ → Result Fees
unfolding read_fees
unpack_from_slice input = if ltb (length input) 64 then err panicked else ok (read_fees input)

-- The four fractions are below one.
pub record IsValid (f : Fees) : Type 0 where
  pub min_separate : f.min_separate_numerator < f.min_separate_denominator
  pub trade_fee : f.trade_fee_numerator < f.trade_fee_denominator
  pub pnl : f.pnl_numerator < f.pnl_denominator
  pub swap_fee : f.swap_fee_numerator < f.swap_fee_denominator

-- Every field is a `u64`.
pub record Fits (f : Fees) : Type 0 where
  pub min_separate_numerator : f.min_separate_numerator < 2 ^ 64
  pub min_separate_denominator : f.min_separate_denominator < 2 ^ 64
  pub trade_fee_numerator : f.trade_fee_numerator < 2 ^ 64
  pub trade_fee_denominator : f.trade_fee_denominator < 2 ^ 64
  pub pnl_numerator : f.pnl_numerator < 2 ^ 64
  pub pnl_denominator : f.pnl_denominator < 2 ^ 64
  pub swap_fee_numerator : f.swap_fee_numerator < 2 ^ 64
  pub swap_fee_denominator : f.swap_fee_denominator < 2 ^ 64

-- `validate` accepts exactly the fees whose four fractions are below one, and refuses all others with
-- `InvalidFee`. It does not ask for what the comment on `trade_fee_denominator` demands, that this be equal
-- to `min_separate_denominator`.
pub validate-IsValid :
    (f : Fees)
    → (IsValid f → validate f ≡ ok tt)
      × (validate f ≡ ok tt → IsValid f)
      × ((e : Failure) → validate f ≡ err e → e ≡ amm AmmError.invalid_fee)
unfolding validate
validate-IsValid f = (λ v. ground arith, λ h. ground arith, λ e h. ground arith)

-- The default fees are accepted by `validate` and fit their fields.
pub initialize-IsValid :
    (f : Fees) → (g : Fees) × (initialize f ≡ ok g) × (validate g ≡ ok tt) × Fits g
unfolding initialize
initialize-IsValid f =
    let g : Fees = record {
      min_separate_numerator = 5;
      min_separate_denominator = ten_thousand;
      trade_fee_numerator = 25;
      trade_fee_denominator = ten_thousand;
      pnl_numerator = 12;
      pnl_denominator = 100;
      swap_fee_numerator = 25;
      swap_fee_denominator = ten_thousand;
    } in
    (g, refl, (validate-IsValid g).0 (omega arith), omega arith)

length-fee_bytes : (f : Fees) (rest : List ℕ) → 64 ≤ length (fee_bytes f rest)
unfolding fee_bytes
length-fee_bytes f rest = omega arith

read_fees-fee_bytes : (f : Fees) (rest : List ℕ) → Fits f → read_fees (fee_bytes f rest) ≡ f
unfolding read_fees fee_bytes
read_fees-fee_bytes f rest fits = λ i. record {
  min_separate_numerator =
      u64_of_bytes-u64_bytes f.min_separate_numerator rest fits.min_separate_numerator i;
  min_separate_denominator =
      u64_of_bytes-u64_bytes f.min_separate_denominator rest fits.min_separate_denominator i;
  trade_fee_numerator =
      u64_of_bytes-u64_bytes f.trade_fee_numerator rest fits.trade_fee_numerator i;
  trade_fee_denominator =
      u64_of_bytes-u64_bytes f.trade_fee_denominator rest fits.trade_fee_denominator i;
  pnl_numerator = u64_of_bytes-u64_bytes f.pnl_numerator rest fits.pnl_numerator i;
  pnl_denominator = u64_of_bytes-u64_bytes f.pnl_denominator rest fits.pnl_denominator i;
  swap_fee_numerator = u64_of_bytes-u64_bytes f.swap_fee_numerator rest fits.swap_fee_numerator i;
  swap_fee_denominator =
      u64_of_bytes-u64_bytes f.swap_fee_denominator rest fits.swap_fee_denominator i;
}

-- Fees that fit their fields are read back from the bytes that were written, whatever a buffer of at
-- least 64 bytes held.
pub unpack-pack :
    (f : Fees) (output : List ℕ)
    → Fits f
    → 64 ≤ length output
    → (bytes : List ℕ) × (pack_into_slice f output ≡ ok bytes) × (unpack_from_slice bytes ≡ ok f)
unpack-pack f output fits long =
    let rest = drop 64 output in
    (
      fee_bytes f rest,
      unfold pack_into_slice in rw (le→ltb (length output) 64 long),
      unfold unpack_from_slice in
          rw (le→ltb (length (fee_bytes f rest)) 64 (length-fee_bytes f rest))
            (ap ok (read_fees-fee_bytes f rest fits)),
    )
