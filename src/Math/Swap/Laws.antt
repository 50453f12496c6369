-- ===== src/Math/Swap/Laws.antt =====
-- The quotes keep the constant product.
use native.Mathlib.Nat.{
  div-mul-le_self, lt-mul-div-succ, mul-add, mul-sub, le_of_mul-le-mul_right, mul-le-mul_left,
  mul-le-mul_right, zero-mul,
}
use native.Mathlib.Decide.{dec_lt}
use raydium_amm_mod.Base.{
  ℕ, ◌+◌, ◌-◌, ◌*◌, ◌/◌, ◌^◌, ◌≤◌, ◌<◌, ◌≡◌, refl, arith, ap, ◌∙◌, ◌≢◌, inl, inr, Bool-cases, leb,
  leb→le,
}
use raydium_amm_mod.Word.{mul64-lt}
use raydium_amm_mod.Error.{ok, ◌>>=◌, unwrap}
use raydium_amm_mod.Checked.{add, mul, sub, div, add-ok, mul-ok, sub-ok, div-ok}
use raydium_amm_mod.Math.Ceil.{
  checked_ceil_div, checked_ceil_div_large, checked_ceil_div_small, IsCeil,
}
use raydium_amm_mod.Math.Swap.{SwapDirection, swap_token_amount_base_in, swap_token_amount_base_out}

-- The side of the pool that is paid into, and the side that is paid out of.
abbrev pub reserve_in : SwapDirection → ℕ → ℕ → ℕ
reserve_in SwapDirection.coin2pc pc coin = coin
reserve_in SwapDirection.pc2coin pc coin = pc

abbrev pub reserve_out : SwapDirection → ℕ → ℕ → ℕ
reserve_out SwapDirection.coin2pc pc coin = pc
reserve_out SwapDirection.pc2coin pc coin = coin

ceil-ne-zero : (a b q : ℕ) → 0 < b → b ≤ a → IsCeil a b q → q ≢ 0
ceil-ne-zero a b q pos le ceil z = let e : q * b ≡ 0 = rw (z, zero-mul) in omega arith

-- The largest payment from `y` for `amount_in` into `x` under which the product does not fall.
abbrev pub IsBestOut : ℕ → ℕ → ℕ → ℕ → Type 0
IsBestOut x y amount_in out =
    (out ≤ y)
    × (x * y ≤ (x + amount_in) * (y - out))
    × ((better : ℕ) → out < better → better ≤ y → (x + amount_in) * (y - better) < x * y)

-- The least payment into `x` for which paying `o` from `y` keeps the product from falling.
abbrev pub IsLeastIn : ℕ → ℕ → ℕ → ℕ → Type 0
IsLeastIn x y o amount_in =
    (x * y ≤ (x + amount_in) * (y - o))
    × ((less : ℕ) → less < amount_in → (x + less) * (y - o) < x * y)

floor-IsBestOut :
    (x y d q : ℕ) → 0 < x + d → q * (x + d) ≤ y * d → y * d < (x + d) * (q + 1) → IsBestOut x y d q
floor-IsBestOut x y d q pos lower upper = (
  le_of_mul-le-mul_right {m = q} {n = y} {k = x + d} (omega arith) pos,
  rw (mul-sub (x + d) y q) (omega arith),
  λ better more fits. rw (mul-sub (x + d) y better) (
      omega (
        arith,
        mul-le-mul_left {m = q + 1} {n = better} (x + d) (omega arith),
        mul-le-mul_left (x + d) fits,
      )),
)

ceil-IsLeastIn : (x y o q : ℕ) → o < y → IsCeil (x * o) (y - o) q → IsLeastIn x y o q
ceil-IsLeastIn x y o q lt (covered, tight) =
    let whole : x * y ≡ x * (y - o) + x * o =
      ap (λ (t : ℕ). x * t) (let e : y ≡ y - o + o = omega arith in e) ∙ mul-add x (y - o) o in
    (
      rw whole (omega arith),
      λ less below.
          rw whole (omega (arith, mul-le-mul_right {m = less + 1} {n = q} (y - o) (omega arith))),
    )

-- Rounding a quotient below one to the nearest number gives 1 only where 1 is the exact ceiling.
one-IsLeastIn : (x y o : ℕ) → o < y → x * o < y - o → y - o ≤ x * o * 2 → IsLeastIn x y o 1
one-IsLeastIn x y o lt small near = ceil-IsLeastIn x y o 1 lt (omega arith, omega arith)

base_in_at :
    (x y d : ℕ)
    → x < 2 ^ 64
    → y < 2 ^ 64
    → d < 2 ^ 64
    → 0 < x + d
    → (out : ℕ) × ((add 128 x d >>= λ denominator.
          mul 128 y d >>= λ product. div product denominator)
        ≡ ok out)
      × IsBestOut x y d out
base_in_at x y d hx hy hd pos = (
  y * d / (x + d),
  rw (
    add-ok 128 x d (omega arith),
    mul-ok 128 y d (mul64-lt y d hy hd),
    div-ok (y * d) (x + d) pos,
  ),
  floor-IsBestOut x y d (y * d / (x + d)) pos (div-mul-le_self (y * d) (x + d))
      (lt-mul-div-succ (y * d) pos),
)

-- With reserves and amount in `u64`, and the amount and the reserve it is paid into not both zero, the
-- quote never panics, and is the best price for the user that
-- does not let the product of the reserves fall.
pub swap_token_amount_base_in-IsBestOut :
    (amount_in pc coin : ℕ) (direction : SwapDirection)
    → amount_in < 2 ^ 64
    → pc < 2 ^ 64
    → coin < 2 ^ 64
    → 0 < reserve_in direction pc coin + amount_in
    → (out : ℕ) × (swap_token_amount_base_in amount_in pc coin direction ≡ ok out)
      × IsBestOut (reserve_in direction pc coin) (reserve_out direction pc coin) amount_in out
unfolding swap_token_amount_base_in
swap_token_amount_base_in-IsBestOut d pc coin SwapDirection.coin2pc hd hp hc pos =
    base_in_at coin pc d hc hp hd pos
swap_token_amount_base_in-IsBestOut d pc coin SwapDirection.pc2coin hd hp hc pos =
    base_in_at pc coin d hp hc hd pos

-- The quote for an exact output: rounded up where the quotient is at least one, to the nearest
-- number below.
abbrev pub IsExactOut : ℕ → ℕ → ℕ → ℕ → Type 0
IsExactOut x y o amount_in =
    (0 < amount_in → IsLeastIn x y o amount_in)
    × (amount_in ≡ 0 → x * o * 2 < y - o)
    × (x * o * 2 < y - o → amount_in ≡ 0)

base_out_at :
    (x y o : ℕ)
    → x < 2 ^ 64
    → y < 2 ^ 64
    → o < y
    → (amount_in : ℕ) × ((sub y o >>= λ denominator. mul 128 x o >>= λ product.
          unwrap (checked_ceil_div product denominator) >>= λ (q, _). ok q)
        ≡ ok amount_in)
      × IsExactOut x y o amount_in
base_out_at x y o hx hy lt =
    let fits : x * o < 2 ^ 128 = mul64-lt x o hx (omega arith) in
    let first = sub-ok y o (omega arith) in
    let second = mul-ok 128 x o fits in
    elim (dec_lt (x * o) (y - o)) [
      | yes small ↦ elim (Bool-cases (leb (y - o) (x * o * 2))) [
        | inl near ↦ (
          1,
          rw (first, second, checked_ceil_div_small (x * o) (y - o) small (omega arith), near),
          (
            λ _. one-IsLeastIn x y o lt small (leb→le _ _ near),
            λ e. absurd (omega arith),
            λ h. absurd (omega (arith, leb→le _ _ near)),
          ),
        )
        | inr far ↦ (
          0,
          rw (first, second, checked_ceil_div_small (x * o) (y - o) small (omega arith), far),
          (λ h. absurd (omega arith), λ _. ground arith, λ _. refl),
        )
      ]
      | no large ↦
          let (q, r, e, ceil, _, _) =
            checked_ceil_div_large (x * o) (y - o) (omega arith) (omega arith) fits in
          (
            q,
            rw (first, second, e),
            (
              λ _. ceil-IsLeastIn x y o q lt ceil,
              λ z. absurd (ceil-ne-zero (x * o) (y - o) q (omega arith) (omega arith) ceil z),
              λ h. absurd (omega arith),
            ),
          )
    ]

-- With reserves in `u64`, for an output below the reserve it is paid from, the quote never panics. A positive quote is the
-- least payment that does not let the product fall; a quote of zero comes exactly where the exact
-- price is below one half.
pub swap_token_amount_base_out-IsExactOut :
    (amount_out pc coin : ℕ) (direction : SwapDirection)
    → pc < 2 ^ 64
    → coin < 2 ^ 64
    → amount_out < reserve_out direction pc coin
    → (amount_in : ℕ) × (swap_token_amount_base_out amount_out pc coin direction ≡ ok amount_in)
      × IsExactOut
          (reserve_in direction pc coin)
          (reserve_out direction pc coin)
          amount_out
          amount_in
unfolding swap_token_amount_base_out
swap_token_amount_base_out-IsExactOut o pc coin SwapDirection.coin2pc hp hc lt =
    base_out_at coin pc o hc hp lt
swap_token_amount_base_out-IsExactOut o pc coin SwapDirection.pc2coin hp hc lt =
    base_out_at pc coin o hp hc lt
