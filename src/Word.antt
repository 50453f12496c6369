-- ===== src/Word.antt =====
-- Fixed-width unsigned arithmetic: Rust's `u64` and `u128`, and the `U128` and `U256` that
-- program/src/math.rs makes with `construct_uint!`. A value is a natural number below 2 ^ w; `none`
-- is the `None` of a checked operation.
use native.Mathlib.Nat.{mul-le-mul}
use raydium_amm_mod.Base.{
  ℕ, ◌+◌, ◌-◌, ◌*◌, ◌/◌, ◌%◌, ◌^◌, ◌≤◌, ◌<◌, ◌≡◌, Option, none, some, arith, ltb, leb, ◌==◌,
  if◌then◌else◌,
}

unfoldable pub checked_add : ℕ → ℕ → ℕ → Option ℕ
checked_add w a b = if ltb (a + b) (2 ^ w) then some (a + b) else none

unfoldable pub checked_mul : ℕ → ℕ → ℕ → Option ℕ
checked_mul w a b = if ltb (a * b) (2 ^ w) then some (a * b) else none

unfoldable pub checked_sub : ℕ → ℕ → Option ℕ
checked_sub a b = if leb b a then some (a - b) else none

unfoldable pub checked_div : ℕ → ℕ → Option ℕ
checked_div a b = if b == 0 then none else some (a / b)

unfoldable pub checked_rem : ℕ → ℕ → Option ℕ
checked_rem a b = if b == 0 then none else some (a % b)

unfoldable pub checked_pow : ℕ → ℕ → ℕ → Option ℕ
checked_pow w a n = if ltb (a ^ n) (2 ^ w) then some (a ^ n) else none

-- `as_u64`, `as_u128`, `try_into`: `none` where the value does not fit.
unfoldable pub narrow : ℕ → ℕ → Option ℕ
narrow w a = if ltb a (2 ^ w) then some a else none

unfoldable pub saturating_sub : ℕ → ℕ → ℕ
saturating_sub a b = if leb b a then a - b else 0

-- A name for all of the operations, for the `unfolding` line of a run.
unfoldable pub words : ℕ
unfolding checked_add checked_mul checked_sub checked_div checked_rem checked_pow narrow
    saturating_sub
words = 0

pub checked_add-eq-some :
    (w a b : ℕ) {c : ℕ} → checked_add w a b ≡ some c → (c ≡ a + b) × (c < 2 ^ w)
unfolding checked_add
checked_add-eq-some w a b h = ground arith

pub checked_mul-eq-some :
    (w a b : ℕ) {c : ℕ} → checked_mul w a b ≡ some c → (c ≡ a * b) × (c < 2 ^ w)
unfolding checked_mul
checked_mul-eq-some w a b h = ground arith

pub checked_sub-eq-some : (a b : ℕ) {c : ℕ} → checked_sub a b ≡ some c → (c ≡ a - b) × (b ≤ a)
unfolding checked_sub
checked_sub-eq-some a b h = ground arith

pub checked_div-eq-some : (a b : ℕ) {c : ℕ} → checked_div a b ≡ some c → (c ≡ a / b) × (0 < b)
unfolding checked_div
checked_div-eq-some a b h = ground arith

pub narrow-eq-some : (w a : ℕ) {c : ℕ} → narrow w a ≡ some c → (c ≡ a) × (a < 2 ^ w)
unfolding narrow
narrow-eq-some w a h = ground arith

pub checked_mul-some : (w a b : ℕ) → a * b < 2 ^ w → checked_mul w a b ≡ some (a * b)
unfolding checked_mul
checked_mul-some w a b h = ground arith

pub checked_add-some : (w a b : ℕ) → a + b < 2 ^ w → checked_add w a b ≡ some (a + b)
unfolding checked_add
checked_add-some w a b h = ground arith

pub checked_sub-some : (a b : ℕ) → b ≤ a → checked_sub a b ≡ some (a - b)
unfolding checked_sub
checked_sub-some a b h = ground arith

pub checked_div-some : (a b : ℕ) → 0 < b → checked_div a b ≡ some (a / b)
unfolding checked_div
checked_div-some a b h = ground arith

pub narrow-some : (w a : ℕ) → a < 2 ^ w → narrow w a ≡ some a
unfolding narrow
narrow-some w a h = ground arith

pub checked_rem-some : (a b : ℕ) → 0 < b → checked_rem a b ≡ some (a % b)
unfolding checked_rem
checked_rem-some a b h = ground arith

pub checked_pow-some : (w a n : ℕ) → a ^ n < 2 ^ w → checked_pow w a n ≡ some (a ^ n)
unfolding checked_pow
checked_pow-some w a n h = ground arith

-- A product of two 64-bit values fits in 128 bits.
pub mul64-lt : (a b : ℕ) → a < 2 ^ 64 → b < 2 ^ 64 → a * b < 2 ^ 128
mul64-lt a b ha hb = omega (
  arith,
  mul-le-mul {n₁ = a} {m₁ = b} {n₂ = 2 ^ 64 - 1} {m₂ = 2 ^ 64 - 1} (omega arith) (omega arith),
)
