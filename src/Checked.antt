-- ===== src/Checked.antt =====
-- Arithmetic that panics where it does not fit: a checked operation under `unwrap`, and the operators
-- `+ - * /` themselves, which the release profile compiles with overflow checks.
use raydium_amm_mod.Base.{ℕ, ◌+◌, ◌-◌, ◌*◌, ◌/◌, ◌^◌, ◌≤◌, ◌<◌, ◌≡◌, arith}
use raydium_amm_mod.Word.{
  checked_add, checked_mul, checked_sub, checked_div, checked_pow, narrow, words,
}
use raydium_amm_mod.Error.{Result, ok, unwrap}

unfoldable pub add : ℕ → ℕ → ℕ → Result ℕ
unfolding words
add w a b = unwrap (checked_add w a b)

unfoldable pub mul : ℕ → ℕ → ℕ → Result ℕ
unfolding words
mul w a b = unwrap (checked_mul w a b)

unfoldable pub sub : ℕ → ℕ → Result ℕ
unfolding words
sub a b = unwrap (checked_sub a b)

unfoldable pub div : ℕ → ℕ → Result ℕ
unfolding words
div a b = unwrap (checked_div a b)

unfoldable pub pow : ℕ → ℕ → ℕ → Result ℕ
unfolding words
pow w a n = unwrap (checked_pow w a n)

-- `as_u64`, `as_u128`
unfoldable pub cast : ℕ → ℕ → Result ℕ
unfolding words
cast w a = unwrap (narrow w a)

pub add-ok : (w a b : ℕ) → a + b < 2 ^ w → add w a b ≡ ok (a + b)
unfolding add
add-ok w a b h = ground arith

pub mul-ok : (w a b : ℕ) → a * b < 2 ^ w → mul w a b ≡ ok (a * b)
unfolding mul
mul-ok w a b h = ground arith

pub sub-ok : (a b : ℕ) → b ≤ a → sub a b ≡ ok (a - b)
unfolding sub
sub-ok a b h = ground arith

pub div-ok : (a b : ℕ) → 0 < b → div a b ≡ ok (a / b)
unfolding div
div-ok a b h = ground arith

pub pow-ok : (w a n : ℕ) → a ^ n < 2 ^ w → pow w a n ≡ ok (a ^ n)
unfolding pow
pow-ok w a n h = ground arith

pub cast-ok : (w a : ℕ) → a < 2 ^ w → cast w a ≡ ok a
unfolding cast
cast-ok w a h = ground arith

pub add-eq-ok : (w a b : ℕ) {c : ℕ} → add w a b ≡ ok c → (c ≡ a + b) × (c < 2 ^ w)
unfolding add
add-eq-ok w a b h = ground arith

pub mul-eq-ok : (w a b : ℕ) {c : ℕ} → mul w a b ≡ ok c → (c ≡ a * b) × (c < 2 ^ w)
unfolding mul
mul-eq-ok w a b h = ground arith

pub sub-eq-ok : (a b : ℕ) {c : ℕ} → sub a b ≡ ok c → (a ≡ c + b) × (b ≤ a)
unfolding sub
sub-eq-ok a b h = ground arith

pub div-eq-ok : (a b : ℕ) {c : ℕ} → div a b ≡ ok c → (c ≡ a / b) × (0 < b)
unfolding div
div-eq-ok a b h = ground arith

pub pow-eq-ok : (w a n : ℕ) {c : ℕ} → pow w a n ≡ ok c → (c ≡ a ^ n) × (c < 2 ^ w)
unfolding pow
pow-eq-ok w a n h = ground arith

pub cast-eq-ok : (w a : ℕ) {c : ℕ} → cast w a ≡ ok c → (c ≡ a) × (a < 2 ^ w)
unfolding cast
cast-eq-ok w a h = ground arith
