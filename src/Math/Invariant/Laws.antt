-- ===== src/Math/Invariant/Laws.antt =====
-- Deposits and withdrawals at the exchange rates of the pool never dilute the other holders.
use native.Mathlib.Nat.{div-mul-le_self, le_of_mul-le-mul_right, mul_comm, mul-sub, mul-le-mul_left}
use raydium_amm_mod.Base.{ℕ, ◌+◌, ◌-◌, ◌*◌, ◌/◌, ◌^◌, ◌≤◌, ◌<◌, ◌≡◌, arith, some}
use raydium_amm_mod.Word.{mul64-lt}
use raydium_amm_mod.Error.{ok}
use raydium_amm_mod.Checked.{mul-ok, div-ok, cast-ok}
use raydium_amm_mod.Math.Invariant.{
  RoundDirection, exchange, exchange_pool_to_token, exchange_token_to_pool, InvariantPool,
}

pub exchange_floor :
    (value factor divisor : ℕ)
    → value < 2 ^ 64
    → factor < 2 ^ 64
    → 0 < divisor
    → value * factor / divisor < 2 ^ 64
    → exchange value factor divisor RoundDirection.floor ≡ ok (some (value * factor / divisor))
unfolding exchange
exchange_floor v f d hv hf pos fits =
    rw (mul-ok 128 v f (mul64-lt v f hv hf), div-ok (v * f) d pos, cast-ok 64 (v * f / d) fits)

abbrev pub pool : ℕ → ℕ → InvariantPool
pool input total = record { token_input = input; token_total = total }

back_le : (t l d m a : ℕ) → 0 < l → m * t ≤ l * d → a * (l + m) ≤ (t + d) * m → a ≤ d
back_le t l d m a pos h k =
    le_of_mul-le-mul_right {m = a} {n = d} {k = l + m} (omega (arith, mul_comm l d, mul_comm t m))
      (omega arith)

-- With a total and a supply that are positive, and amounts and shares that fit `u64` before and after, a
-- deposit of `deposit` tokens mints shares, and the shares minted buy back at most the deposit; the
-- value of the shares that others hold does not fall.
pub deposit_withdraw_le :
    (total supply deposit : ℕ)
    → 0 < total
    → 0 < supply
    → total + deposit < 2 ^ 64
    → supply < 2 ^ 64
    → supply + supply * deposit / total < 2 ^ 64
    → (minted paid : ℕ) × (exchange_token_to_pool (pool deposit total) supply RoundDirection.floor
        ≡ ok (some minted))
      × (exchange_pool_to_token
            (pool minted (supply + minted))
            (total + deposit)
            RoundDirection.floor
          ≡ ok (some paid))
      × (paid ≤ deposit)
      × (total * (supply + minted) ≤ (total + deposit) * supply)
unfolding exchange_token_to_pool exchange_pool_to_token
deposit_withdraw_le t l d ht hl ft fl fm =
    let m : ℕ = l * d / t in
    let minted : m * t ≤ l * d = div-mul-le_self (l * d) t in
    let a : ℕ = (t + d) * m / (l + m) in
    let paid : a * (l + m) ≤ (t + d) * m = div-mul-le_self ((t + d) * m) (l + m) in
    let back : a ≤ d = back_le t l d m a hl minted paid in
    (
      m,
      a,
      exchange_floor l d t fl (omega arith) ht (omega arith),
      exchange_floor (t + d) m (l + m) ft (omega arith) (omega arith) (omega arith),
      back,
      omega (arith, mul_comm t m, mul_comm l d),
    )

-- With amounts in `u64`, a withdrawal of shares short of the whole supply never panics, pays out at most the total, and does
-- not lower the value of the shares that stay.
pub withdraw_keeps_value :
    (total supply burnt : ℕ)
    → total < 2 ^ 64
    → supply < 2 ^ 64
    → burnt < supply
    → (paid : ℕ) × (exchange_pool_to_token (pool burnt supply) total RoundDirection.floor
        ≡ ok (some paid))
      × (paid ≤ total)
      × (total * (supply - burnt) ≤ (total - paid) * supply)
unfolding exchange_pool_to_token
withdraw_keeps_value t l w ft fl lt =
    let a : ℕ = t * w / l in
    let paid : a * l ≤ t * w = div-mul-le_self (t * w) l in
    let below : t * w ≤ t * l = mul-le-mul_left {m = w} {n = l} t (omega arith) in
    let fits : a ≤ t = le_of_mul-le-mul_right {m = a} {n = t} {k = l} (omega arith) (omega arith) in
    (
      a,
      exchange_floor t w l ft (omega arith) (omega arith) (omega arith),
      fits,
      rw (mul-sub t l w, mul_comm (t - a) l, mul-sub l t a)
          (omega (arith, mul_comm l a, mul_comm l t)),
    )
