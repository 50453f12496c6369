-- ===== src/Math/OrderSize/Laws.antt =====
-- The sizes of orders of program/src/math.rs against the value of the reserves at the price with the fee.
use raydium_amm_mod.Base.{ℕ, ◌+◌, ◌-◌, ◌*◌, ◌≤◌, ◌<◌, ◌≡◌, inl, inr, ◌⊎◌, Bool-cases, leb, arith}
use raydium_amm_mod.Error.{ok, >>=-eq-ok}
use raydium_amm_mod.Checked.{add, mul, div, add-eq-ok, mul-eq-ok, div-eq-ok}
use raydium_amm_mod.State.AmmInfo.{AmmInfo}
use raydium_amm_mod.Math.Decimals.{expect, to_u64}
use raydium_amm_mod.Math.OrderSize.{get_max_buy_size_at_price, get_max_sell_size_at_price}
use native.Mathlib.Nat.{div-mul-le_self, lt-mul-div-succ, mul-le-mul_right}

-- `q` is the quotient of `a` by `b`, rounded down.
abbrev pub IsQuotient : ℕ → ℕ → ℕ → Type 0
IsQuotient a b q = (0 < b) × (q * b ≤ a) × (a < (q + 1) * b)

div-IsQuotient : (a b : ℕ) {c : ℕ} → div a b ≡ ok c → IsQuotient a b c
div-IsQuotient a b h =
    let (is, pos) = div-eq-ok a b h in
    rw is (pos, div-mul-le_self a b, omega (arith, lt-mul-div-succ a pos))

expect-to_u64 : (n : ℕ) {m : ℕ} → expect (to_u64 n) ≡ ok m → m ≡ n
unfolding to_u64
expect-to_u64 n h = ground arith

-- `y` with `size` more is the most that is worth at most `value`, unless `y` alone is worth more or as much.
abbrev pub IsBuySize : ℕ → ℕ → ℕ → ℕ → Type 0
IsBuySize price value y size =
    ((size ≡ 0) ⊎ ((size + y) * price ≤ value)) × (value < (size + y + 1) * price)

-- `y` less `size` is the most that is worth at most `value`, unless all of `y` is worth no more.
abbrev pub IsSellSize : ℕ → ℕ → ℕ → ℕ → Type 0
IsSellSize price value y size =
    (size ≤ y) × ((y - size) * price ≤ value) × ((size ≡ 0) ⊎ (value < (y - size + 1) * price))

more_units : (price value q y : ℕ) → q ≤ y → value < (q + 1) * price → value < (y + 1) * price
more_units price value q y h lt =
    grind (arith, mul-le-mul_right {m = q + 1} {n = y + 1} price (omega arith))

fewer_units : (price value q y : ℕ) → y ≤ q → q * price ≤ value → y * price ≤ value
fewer_units price value q y h le = grind (arith, mul-le-mul_right {m = y} {n = q} price h)

quotient_buys : (price value y q : ℕ) → IsQuotient value price q → IsBuySize price value y (q - y)
quotient_buys price value y q (pos, le, lt) = elim (Bool-cases (leb y q)) [
  | inl below ↦ let e : q - y + y ≡ q = ground arith in (inr (rw e le), rw e lt)
  | inr above ↦ (
    inl (ground arith),
    (let e : q - y + y ≡ y = ground arith in rw e (more_units price value q y (ground arith) lt)),
  )
]

quotient_sells : (price value y q : ℕ) → IsQuotient value price q → IsSellSize price value y (y - q)
quotient_sells price value y q (pos, le, lt) = elim (Bool-cases (leb q y)) [
  | inl below ↦ let e : y - (y - q) ≡ q = ground arith in (omega arith, rw e le, inr (rw e lt))
  | inr above ↦ (
    omega arith,
    (let e : y - (y - q) ≡ y = ground arith in
        rw e (fewer_units price value q y (ground arith) le)),
    inl (ground arith),
  )
]

-- Where get_max_buy_size_at_price succeeds, it returns the size that, added to `y`, is the most that is worth at
-- most `x`, in the units of the system, at the price with the trade fee added, which is rounded down; it
-- returns 0 where no such size is positive.
pub get_max_buy_size_at_price-IsBuySize :
    (price x y : ℕ) (amm : AmmInfo) {size : ℕ}
    → get_max_buy_size_at_price price x y amm ≡ ok size
    → (price_with_fee : ℕ) × IsQuotient
        (price * (amm.fees.trade_fee_denominator + amm.fees.trade_fee_numerator))
        amm.fees.trade_fee_denominator
        price_with_fee
      × IsBuySize price_with_fee (x * amm.sys_decimal_value) y size
unfolding get_max_buy_size_at_price
get_max_buy_size_at_price-IsBuySize price x y amm h =
    let (with_fee, fee, h) =
      >>=-eq-ok (add 64 amm.fees.trade_fee_denominator amm.fees.trade_fee_numerator) _ h in
    let (product, times, h) = >>=-eq-ok (mul 128 price with_fee) _ h in
    let (price_with_fee, priced, h) = >>=-eq-ok (div product amm.fees.trade_fee_denominator) _ h in
    let (scaled, scale, h) = >>=-eq-ok (mul 128 x amm.sys_decimal_value) _ h in
    let (max_size, bought, h) = >>=-eq-ok (div scaled price_with_fee) _ h in
    let (fee_is, _) =
      add-eq-ok 64 amm.fees.trade_fee_denominator amm.fees.trade_fee_numerator fee in
    let (times_is, _) = mul-eq-ok 128 price with_fee times in
    let (scale_is, _) = mul-eq-ok 128 x amm.sys_decimal_value scale in
    (
      price_with_fee,
      rw (← fee_is, ← times_is) (div-IsQuotient product amm.fees.trade_fee_denominator priced),
      rw (expect-to_u64 (max_size - y) h, ← scale_is)
          (quotient_buys price_with_fee scaled y max_size
            (div-IsQuotient scaled price_with_fee bought)),
    )

-- Where get_max_sell_size_at_price succeeds, it returns the size that, taken off `y`, leaves the most that is
-- worth at most `x`, in the units of the system, at the price with the trade fee taken off, which is rounded
-- down; it returns 0 where all of `y` is worth no more.
pub get_max_sell_size_at_price-IsSellSize :
    (price x y : ℕ) (amm : AmmInfo) {size : ℕ}
    → get_max_sell_size_at_price price x y amm ≡ ok size
    → (price_with_fee : ℕ) × IsQuotient
        (price * amm.fees.trade_fee_denominator)
        (amm.fees.trade_fee_denominator + amm.fees.trade_fee_numerator)
        price_with_fee
      × IsSellSize price_with_fee (x * amm.sys_decimal_value) y size
unfolding get_max_sell_size_at_price
get_max_sell_size_at_price-IsSellSize price x y amm h =
    let (product, times, h) = >>=-eq-ok (mul 128 price amm.fees.trade_fee_denominator) _ h in
    let (with_fee, fee, h) =
      >>=-eq-ok (add 64 amm.fees.trade_fee_denominator amm.fees.trade_fee_numerator) _ h in
    let (price_with_fee, priced, h) = >>=-eq-ok (div product with_fee) _ h in
    let (scaled, scale, h) = >>=-eq-ok (mul 128 x amm.sys_decimal_value) _ h in
    let (second_part, kept, h) = >>=-eq-ok (div scaled price_with_fee) _ h in
    let (fee_is, _) =
      add-eq-ok 64 amm.fees.trade_fee_denominator amm.fees.trade_fee_numerator fee in
    let (times_is, _) = mul-eq-ok 128 price amm.fees.trade_fee_denominator times in
    let (scale_is, _) = mul-eq-ok 128 x amm.sys_decimal_value scale in
    (
      price_with_fee,
      rw (← fee_is, ← times_is) (div-IsQuotient product with_fee priced),
      rw (expect-to_u64 (y - second_part) h, ← scale_is)
          (quotient_sells price_with_fee scaled y second_part
            (div-IsQuotient scaled price_with_fee kept)),
    )
