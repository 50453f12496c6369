-- ===== src/Math/Decimals/Laws.antt =====
-- Rounding in the conversions of `Calculator`, program/src/math.rs.
use native.Mathlib.Nat.{div-mul-le_self, lt-mul-div-succ, le_of_mul-le-mul_right}
use raydium_amm_mod.Base.{ℕ, ◌+◌, ◌*◌, ◌/◌, ◌^◌, ◌≤◌, ◌<◌, ◌≡◌, refl, ap, ◌∙◌, arith}
use raydium_amm_mod.Error.{ok, >>=-eq-ok}
use raydium_amm_mod.Checked.{mul, pow, mul-eq-ok, div-eq-ok, pow-eq-ok, mul-ok, div-ok}
use raydium_amm_mod.Math.Decimals.{normalize_decimal_v2, restore_decimal, floor_lot}

restored :
    (val ten system n back : ℕ)
    → 0 < ten
    → 0 < system
    → n ≡ val * system / ten
    → back ≡ n * ten / system
    → (back ≤ val) × (val * system < (n + 1) * ten) × (n * ten < (back + 1) * system)
restored val ten system n back pos pos' n_is back_is =
    let lower : n * ten ≤ val * system = rw n_is (div-mul-le_self (val * system) ten) in
    let lower' : back * system ≤ n * ten = rw back_is (div-mul-le_self (n * ten) system) in
    let upper : val * system < ten * (n + 1) = rw n_is (lt-mul-div-succ (val * system) pos) in
    let upper' : n * ten < system * (back + 1) = rw back_is (lt-mul-div-succ (n * ten) pos') in
    (
      le_of_mul-le-mul_right {m = back} {n = val} {k = system} (omega arith) pos',
      omega arith,
      omega arith,
    )

pub restore_decimal-le :
    (val decimals system : ℕ) {n : ℕ}
    → restore_decimal val decimals system ≡ ok n
    → (n * system ≤ val * 10 ^ decimals) × (0 < system)
unfolding restore_decimal
restore_decimal-le val decimals system h =
    let (ten, power, h) = >>=-eq-ok (pow 128 10 decimals) _ h in
    let (raised, times, h) = >>=-eq-ok (mul 128 val ten) _ h in
    let ten_is = (pow-eq-ok 128 10 decimals power).0 in
    let raised_is = (mul-eq-ok 128 val ten times).0 ∙ ap (λ (b : ℕ). val * b) ten_is in
    let (n_is, pos) = div-eq-ok raised system h in
    rw (n_is, ← raised_is) (div-mul-le_self raised system, pos)

pub normalize_decimal_v2-le :
    (val decimals system : ℕ) {n : ℕ}
    → normalize_decimal_v2 val decimals system ≡ ok n
    → n * 10 ^ decimals ≤ val * system
unfolding normalize_decimal_v2
normalize_decimal_v2-le val decimals system h =
    let (scaled, times, h) = >>=-eq-ok (mul 128 val system) _ h in
    let (ten, power, h) = >>=-eq-ok (pow 128 10 decimals) _ h in
    let ten_is = (pow-eq-ok 128 10 decimals power).0 in
    let scaled_is = (mul-eq-ok 128 val system times).0 in
    rw ((div-eq-ok scaled ten h).0, ← ten_is, ← scaled_is) (div-mul-le_self scaled ten)

-- Where both succeed, restoring what was normalised gives back no more than there was, and loses less than a unit of the
-- normalised amount.
pub restore-normalize :
    (val decimals system : ℕ) {n back : ℕ}
    → normalize_decimal_v2 val decimals system ≡ ok n
    → restore_decimal n decimals system ≡ ok back
    → (back ≤ val)
      × (val * system < (n + 1) * 10 ^ decimals)
      × (n * 10 ^ decimals < (back + 1) * system)
unfolding normalize_decimal_v2 restore_decimal
restore-normalize val decimals system {n} {back} h k =
    let (scaled, e₁, h) = >>=-eq-ok (mul 128 val system) _ h in
    let (ten, e₂, h) = >>=-eq-ok (pow 128 10 decimals) _ h in
    let (ten', e₃, k) = >>=-eq-ok (pow 128 10 decimals) _ k in
    let (raised, e₄, k) = >>=-eq-ok (mul 128 n ten') _ k in
    let scaled_is = mul-eq-ok 128 val system e₁ in
    let ten_is = pow-eq-ok 128 10 decimals e₂ in
    let ten_is' = pow-eq-ok 128 10 decimals e₃ in
    let raised_is = mul-eq-ok 128 n ten' e₄ in
    let (n_is, pos) = div-eq-ok scaled ten h in
    let (back_is, pos') = div-eq-ok raised system k in
    restored val (10 ^ decimals) system n back (omega (arith, pos)) pos'
      (n_is ∙ ap (λ (a : ℕ). a / ten) scaled_is.0 ∙ ap (λ (b : ℕ). val * system / b) ten_is.0)
      (back_is ∙ ap (λ (a : ℕ). a / system) (raised_is.0 ∙ ap (λ (b : ℕ). n * b) ten_is'.0))

-- For an amount in `u64` and a positive lot, rounding down to lots never panics and gives a whole number of lots, at most the amount, and within a lot of it.
pub floor_lot_lem :
    (val lot : ℕ)
    → val < 2 ^ 64
    → 0 < lot
    → (units r : ℕ) × (floor_lot val lot ≡ ok r) × (r ≡ units * lot) × (r ≤ val) × (val < r + lot)
unfolding floor_lot
floor_lot_lem val lot h pos = (
  val / lot,
  val / lot * lot,
  rw (div-ok val lot pos, mul-ok 64 (val / lot) lot (omega (arith, div-mul-le_self val lot))),
  refl,
  div-mul-le_self val lot,
  omega (arith, lt-mul-div-succ val pos),
)
