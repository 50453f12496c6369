-- ===== src/Pool/Swap/Quote/Laws.antt =====
-- What the quotes of a swap promise, on every branch.
use native.Mathlib.Nat.{mul-le-mul_left, lt_of_mul-lt-mul_right, zero-mul}
use native.Mathlib.Decide.{dec_lt}
use raydium_amm_mod.Base.{
  ℕ, zero, suc, true, ◌+◌, ◌-◌, ◌*◌, ◌^◌, ◌≤◌, ◌<◌, ◌≡◌, ◌⊎◌, inl, inr, refl, arith, ◌||◌, ltb, leb,
  leb→le, ltb→lt, ltb→le, ◌==◌, Bool-cases,
}
use raydium_amm_mod.Word.{mul64-lt}
use raydium_amm_mod.Error.{AmmError, Result, ok, err, amm as custom, panicked, ◌>>◌, fail_if}
use raydium_amm_mod.Checked.{mul, sub, mul-ok, sub-ok, cast-ok}
use raydium_amm_mod.Math.Ceil.{
  checked_ceil_div, IsCeil, checked_ceil_div_large, checked_ceil_div_small,
}
use raydium_amm_mod.Math.Swap.{SwapDirection, swap_token_amount_base_out}
use raydium_amm_mod.Math.Swap.Laws.{
  reserve_in, reserve_out, IsBestOut, swap_token_amount_base_in-IsBestOut,
}
use raydium_amm_mod.State.Fees.{Fees}
use raydium_amm_mod.Pool.Swap.Quote.{SwapAmounts, base_in_fee, quote_base_in}

fee_le : (amount num den q : ℕ) → num < den → 0 < amount → q * den < amount * num + den → q ≤ amount
fee_le amount num den q lt pos h =
    let room : amount * num + amount ≤ amount * den =
      omega (arith, mul-le-mul_left {m = num + 1} {n = den} amount (omega arith)) in
    let below : q * den < (amount + 1) * den = omega arith in
    let short : q < amount + 1 = lt_of_mul-lt-mul_right den below in omega arith

some_paid : (amount num : ℕ) → 0 < amount * num → 0 < amount
some_paid zero num h = absurd (let e : 0 * num ≡ 0 = zero-mul num in omega arith)
some_paid (suc n) num h = omega arith

-- The fee of a payment: rounded up where it comes to one unit, and to the nearest number below that.
abbrev pub IsBaseInFee : Fees → ℕ → ℕ → Type 0
IsBaseInFee f amount fee =
    (f.swap_fee_denominator ≤ amount * f.swap_fee_numerator
      → IsCeil (amount * f.swap_fee_numerator) f.swap_fee_denominator fee)
    × (amount * f.swap_fee_numerator < f.swap_fee_denominator
        → f.swap_fee_denominator ≤ amount * f.swap_fee_numerator * 2
        → fee ≡ 1)
    × (amount * f.swap_fee_numerator * 2 < f.swap_fee_denominator → fee ≡ 0)

-- Under fees below one the fee is at most the payment.
pub base_in_fee_lem :
    (f : Fees) (amount : ℕ)
    → f.swap_fee_numerator < f.swap_fee_denominator
    → f.swap_fee_denominator < 2 ^ 64
    → amount < 2 ^ 64
    → (fee : ℕ) × (base_in_fee f amount ≡ ok fee) × (fee ≤ amount) × IsBaseInFee f amount fee
unfolding base_in_fee
base_in_fee_lem f amount lt hd ha =
    let num = f.swap_fee_numerator in
    let den = f.swap_fee_denominator in
    let fits : amount * num < 2 ^ 128 = mul64-lt amount num ha (omega arith) in
    let first = mul-ok 128 amount num fits in
    elim (dec_lt (amount * num) den) [
      | yes small ↦ elim (Bool-cases (leb den (amount * num * 2))) [
        | inl near ↦ (
          1,
          rw (first, checked_ceil_div_small (amount * num) den small (omega arith), near),
          some_paid amount num (omega (arith, leb→le _ _ near)),
          (λ h. absurd (omega arith), λ h k. refl, λ h. absurd (omega (arith, leb→le _ _ near))),
        )
        | inr far ↦ (
          0,
          rw (first, checked_ceil_div_small (amount * num) den small (omega arith), far),
          omega arith,
          (λ h. absurd (omega arith), λ h k. absurd (ground arith), λ h. refl),
        )
      ]
      | no large ↦
          let (q, rest, e, ceil, _, _) =
            checked_ceil_div_large (amount * num) den (omega arith) (omega arith) fits in
          (
            q,
            rw (first, e),
            fee_le amount num den q lt (some_paid amount num (omega arith)) ceil.1,
            (λ h. ceil, λ h k. absurd (omega arith), λ h. absurd (omega arith)),
          )
    ]

-- What `quote_base_in` returns where the fee of `amount_in` is `fee`, and the rest buys `out`.
abbrev pub BaseInAnswer : ℕ → ℕ → ℕ → ℕ → ℕ → Result SwapAmounts → Type 0
BaseInAnswer user_amount amount_in minimum fee out (ok s) =
    (s ≡ record { amount_in = amount_in; amount_out = out; swap_fee = fee })
    × (amount_in ≤ user_amount)
    × (minimum ≤ out)
    × (0 < out)
    × (0 < amount_in)
BaseInAnswer user_amount amount_in minimum fee out (err e) =
    ((e ≡ custom AmmError.insufficient_funds) × (user_amount < amount_in))
    ⊎ (((e ≡ custom AmmError.exceeded_slippage) × (amount_in ≤ user_amount) × (out < minimum))
        ⊎ ((e ≡ custom AmmError.invalid_input)
            × (amount_in ≤ user_amount)
            × (minimum ≤ out)
            × ((out ≡ 0) ⊎ (amount_in ≡ 0))))

-- The answer for a payment of `amount_in` into `x` against `y`.
abbrev pub BaseInOutcome : Fees → ℕ → ℕ → ℕ → ℕ → ℕ → Result SwapAmounts → Type 0
BaseInOutcome f user_amount amount_in minimum x y answer =
    (fee out : ℕ) × IsBaseInFee f amount_in fee
    × (fee ≤ amount_in)
    × IsBestOut x y (amount_in - fee) out
    × BaseInAnswer user_amount amount_in minimum fee out answer

either_zero : (a b : ℕ) → (a == 0 || b == 0) ≡ true → (a ≡ 0) ⊎ (b ≡ 0)
either_zero zero b h = inl refl
either_zero (suc a) b h = inr (ground arith)

answer_at :
    (user_amount amount_in minimum fee out : ℕ)
    → amount_in ≤ user_amount
    → BaseInAnswer user_amount amount_in minimum fee out (
        fail_if (ltb out minimum) AmmError.exceeded_slippage
        >> (fail_if (out == 0 || amount_in == 0) AmmError.invalid_input
            >> ok (record { amount_in = amount_in; amount_out = out; swap_fee = fee })))
answer_at user_amount amount_in minimum fee out rich = elim (Bool-cases (ltb out minimum)) [
  | inl slipped ↦ rw slipped (inr (inl (refl, rich, ltb→lt _ _ slipped)))
  | inr enough ↦ elim (Bool-cases (out == 0 || amount_in == 0)) [
    | inl nothing ↦
        rw (enough, nothing)
          (inr (inr (refl, rich, ltb→le _ _ enough, either_zero out amount_in nothing)))
    | inr something ↦
        rw (enough, something) (refl, rich, ltb→le _ _ enough, ground arith, ground arith)
  ]
]

reserve_out-lt :
    (direction : SwapDirection) (pc coin : ℕ) {n : ℕ}
    → pc < n
    → coin < n
    → reserve_out direction pc coin < n
reserve_out-lt SwapDirection.coin2pc pc coin hp hc = hp
reserve_out-lt SwapDirection.pc2coin pc coin hp hc = hc

-- With a fee below one, amounts in `u64` and something in the reserve that is paid into, the quote never
-- panics. The fee is that of the payment, and the rest would buy the most under which the product of the
-- reserves does not fall. The quote refuses with `InsufficientFunds` exactly where the user does not hold
-- the payment, then with `ExceededSlippage` exactly where the output is below the minimum, then with
-- `InvalidInput` exactly where the output or the payment is nothing; otherwise it returns the payment, that
-- output and that fee.
pub quote_base_in-BaseInOutcome :
    (f : Fees) (user_amount amount_in minimum pc coin : ℕ) (direction : SwapDirection)
    → f.swap_fee_numerator < f.swap_fee_denominator
    → f.swap_fee_denominator < 2 ^ 64
    → amount_in < 2 ^ 64
    → pc < 2 ^ 64
    → coin < 2 ^ 64
    → 0 < reserve_in direction pc coin
    → BaseInOutcome f user_amount amount_in minimum
        (reserve_in direction pc coin)
        (reserve_out direction pc coin)
        (quote_base_in f user_amount amount_in minimum pc coin direction)
unfolding quote_base_in
quote_base_in-BaseInOutcome f user_amount amount_in minimum pc coin direction hf hd ha hp hc pos =
    let (fee, fee_eq, le, is_fee) = base_in_fee_lem f amount_in hf hd ha in
    let (out, out_eq, best) =
      swap_token_amount_base_in-IsBestOut (amount_in - fee) pc coin direction (omega arith) hp hc
        (omega arith) in
    let top = reserve_out-lt direction pc coin hp hc in
    (
      fee,
      out,
      is_fee,
      le,
      best,
      elim (Bool-cases (ltb user_amount amount_in)) [
        | inl poor ↦ rw poor (inl (refl, ltb→lt _ _ poor))
        | inr rich ↦
            rw
              (
                rich,
                fee_eq,
                sub-ok amount_in fee le,
                out_eq,
                cast-ok 64 out (omega (arith, best.0)),
              )
              (answer_at user_amount amount_in minimum fee out (ltb→le _ _ rich))
      ],
    )

-- An output that is not below its reserve panics in the quote, before any check of the instruction.
pub swap_token_amount_base_out-panics :
    (amount_out pc coin : ℕ) (direction : SwapDirection)
    → reserve_out direction pc coin ≤ amount_out
    → swap_token_amount_base_out amount_out pc coin direction ≡ err panicked
unfolding swap_token_amount_base_out
swap_token_amount_base_out-panics o pc coin SwapDirection.coin2pc le =
    unfold sub mul checked_ceil_div in ground arith
swap_token_amount_base_out-panics o pc coin SwapDirection.pc2coin le =
    unfold sub mul checked_ceil_div in ground arith
