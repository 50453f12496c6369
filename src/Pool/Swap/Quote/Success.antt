-- ===== src/Pool/Swap/Quote/Success.antt =====
-- What is known of the amounts once a quote of program/src/processor.rs has returned them.
use native.Mathlib.Nat.{mul-le-mul_right, zero-mul}
use native.Mathlib.Decide.{dec_lt}
use raydium_amm_mod.Base.{
  ℕ, zero, suc, ◌+◌, ◌-◌, ◌*◌, ◌^◌, ◌≤◌, ◌<◌, ◌≡◌, ◌∙◌, refl, sym, ap, arith, false, ◌||◌, ltb, leb,
  lt→leb, ltb→le, ◌==◌, if◌then◌else◌,
}
use raydium_amm_mod.Error.{AmmError, ok, unwrap, >>=-eq-ok, fail_if-eq-ok, ok-injective, err-ne-ok}
use raydium_amm_mod.Checked.{add, mul, sub, div, cast, mul-eq-ok, sub-eq-ok, cast-eq-ok}
use raydium_amm_mod.Math.Ceil.{
  checked_ceil_div, IsCeil, checked_ceil_div_large, checked_ceil_div_small,
}
use raydium_amm_mod.Math.Swap.{SwapDirection, swap_token_amount_base_in, swap_token_amount_base_out}
use raydium_amm_mod.Math.Swap.Laws.{
  reserve_in, reserve_out, IsBestOut, IsLeastIn, IsExactOut, swap_token_amount_base_in-IsBestOut,
  swap_token_amount_base_out-IsExactOut,
}
use raydium_amm_mod.State.Fees.{Fees}
use raydium_amm_mod.Pool.Swap.Quote.{
  SwapAmounts, base_in_fee, quote_base_in, add_fee, quote_base_out,
}
use raydium_amm_mod.Pool.Swap.Quote.Laws.{
  IsBaseInFee, base_in_fee_lem, swap_token_amount_base_out-panics,
}

-- A payment of nothing into nothing divides by zero.
swap_token_amount_base_in-panics :
    (amount_in pc coin : ℕ) (direction : SwapDirection)
    → reserve_in direction pc coin + amount_in ≡ 0
    → (out : ℕ) → ¬ (swap_token_amount_base_in amount_in pc coin direction ≡ ok out)
unfolding swap_token_amount_base_in
swap_token_amount_base_in-panics d pc coin SwapDirection.coin2pc e out h =
    unfold add sub mul div in ground arith
swap_token_amount_base_in-panics d pc coin SwapDirection.pc2coin e out h =
    unfold add sub mul div in ground arith

swap_token_amount_base_in-eq-ok :
    (amount_in pc coin : ℕ) (direction : SwapDirection) {out : ℕ}
    → amount_in < 2 ^ 64
    → pc < 2 ^ 64
    → coin < 2 ^ 64
    → swap_token_amount_base_in amount_in pc coin direction ≡ ok out
    → IsBestOut (reserve_in direction pc coin) (reserve_out direction pc coin) amount_in out
swap_token_amount_base_in-eq-ok d pc coin direction {out} hd hp hc h =
    elim (dec_lt 0 (reserve_in direction pc coin + d)) [
      | yes pos ↦
          let (out', e, best) =
            swap_token_amount_base_in-IsBestOut d pc coin direction hd hp hc pos in
          rw (ok-injective (sym h ∙ e)) best
      | no zero_in ↦
          absurd (swap_token_amount_base_in-panics d pc coin direction (omega arith) out h)
    ]

swap_token_amount_base_out-eq-ok :
    (amount_out pc coin : ℕ) (direction : SwapDirection) {amount_in : ℕ}
    → pc < 2 ^ 64
    → coin < 2 ^ 64
    → swap_token_amount_base_out amount_out pc coin direction ≡ ok amount_in
    → (amount_out < reserve_out direction pc coin)
      × IsExactOut
          (reserve_in direction pc coin)
          (reserve_out direction pc coin)
          amount_out
          amount_in
swap_token_amount_base_out-eq-ok o pc coin direction {amount_in} hp hc h =
    elim (dec_lt o (reserve_out direction pc coin)) [
      | yes below ↦
          let (amount', e, least) =
            swap_token_amount_base_out-IsExactOut o pc coin direction hp hc below in
          (below, rw (ok-injective (sym h ∙ e)) least)
      | no above ↦ absurd (
          err-ne-ok (sym (swap_token_amount_base_out-panics o pc coin direction (omega arith)) ∙ h))
    ]

-- The user pays `amount_in` into `x`, of which `swap_fee` is the fee, and is paid `amount_out` from `y`.
pub record IsQuote (f : Fees) (user_amount x y : ℕ) (s : SwapAmounts) : Type 0 where
  pub held : s.amount_in ≤ user_amount
  pub out_pos : 0 < s.amount_out
  pub in_pos : 0 < s.amount_in
  pub fee_le : s.swap_fee ≤ s.amount_in
  pub out_le : s.amount_out ≤ y
  pub product_kept : x * y ≤ (x + (s.amount_in - s.swap_fee)) * (y - s.amount_out)

nonzero : (a b : ℕ) → (a == 0 || b == 0) ≡ false → (0 < a) × (0 < b)
nonzero a b h = (ground arith, ground arith)

-- A quote that `quote_base_in` returns is for the payment asked for, meets the minimum, and pays out the
-- best price, after the fee of the payment, under which the product does not fall.
pub quote_base_in-eq-ok :
    (f : Fees) (user_amount amount_in minimum pc coin : ℕ) (direction : SwapDirection)
    {s : SwapAmounts}
    → f.swap_fee_numerator < f.swap_fee_denominator
    → f.swap_fee_denominator < 2 ^ 64
    → amount_in < 2 ^ 64
    → pc < 2 ^ 64
    → coin < 2 ^ 64
    → quote_base_in f user_amount amount_in minimum pc coin direction ≡ ok s
    → IsQuote f user_amount (reserve_in direction pc coin) (reserve_out direction pc coin) s
      × (s.amount_in ≡ amount_in)
      × (minimum ≤ s.amount_out)
      × IsBestOut
          (reserve_in direction pc coin)
          (reserve_out direction pc coin)
          (amount_in - s.swap_fee)
          s.amount_out
      × IsBaseInFee f amount_in s.swap_fee
unfolding quote_base_in
quote_base_in-eq-ok f user_amount amount_in minimum pc coin direction {s} hf hd ha hp hc h =
    let (fee, fee_eq, le, is_fee) = base_in_fee_lem f amount_in hf hd ha in
    let (rich, h) = fail_if-eq-ok (ltb user_amount amount_in) AmmError.insufficient_funds h in
    let (fee', e, h) = >>=-eq-ok (base_in_fee f amount_in) _ h in
    let same_fee : fee' ≡ fee = ok-injective (sym e ∙ fee_eq) in
    let (rest, paid, h) = >>=-eq-ok (sub amount_in fee') _ h in
    let (out, quoted, h) = >>=-eq-ok (swap_token_amount_base_in rest pc coin direction) _ h in
    let (out', fits, h) = >>=-eq-ok (cast 64 out) _ h in
    let (enough, h) = fail_if-eq-ok (ltb out' minimum) AmmError.exceeded_slippage h in
    let (something, h) = fail_if-eq-ok (out' == 0 || amount_in == 0) AmmError.invalid_input h in
    let rest_eq : rest ≡ amount_in - fee' = omega (arith, sub-eq-ok amount_in fee' paid) in
    let out_eq : out ≡ out' = omega (arith, cast-eq-ok 64 out fits) in
    let best : IsBestOut (reserve_in direction pc coin) (reserve_out direction pc coin)
        (amount_in - fee') out' =
      rw (← rest_eq, ← out_eq)
        (swap_token_amount_base_in-eq-ok rest pc coin direction (omega arith) hp hc quoted) in
    let some_moved = nonzero out' amount_in something in
    rw (← ok-injective h) (
      record {
        held = ltb→le _ _ rich;
        out_pos = some_moved.0;
        in_pos = some_moved.1;
        fee_le = omega arith;
        out_le = best.0;
        product_kept = best.1;
      },
      refl,
      ltb→le _ _ enough,
      best,
      rw same_fee is_fee,
    )

ceil_div_zero :
    (rest : ℕ) {pair : ℕ × ℕ} → 0 < rest → unwrap (checked_ceil_div 0 rest) ≡ ok pair → pair.0 ≡ 0
ceil_div_zero rest {pair} some_left h =
    let e = checked_ceil_div_small 0 rest some_left (omega arith) in
    let first : pair.0 ≡ (if leb rest (0 * 2) then 1 else 0) =
      ap (λ (p : ℕ × ℕ). p.0) (ok-injective (sym h ∙ ap unwrap e)) in
    first ∙ rw (lt→leb rest (0 * 2) (omega arith))

division-IsCeil :
    (a b : ℕ) {pair : ℕ × ℕ}
    → 0 < b
    → b ≤ a
    → a < 2 ^ 128
    → unwrap (checked_ceil_div a b) ≡ ok pair
    → IsCeil a b pair.0
division-IsCeil a b pos le lt h =
    let (q, r, e, ceil, _, _) = checked_ceil_div_large a b pos le lt in
    rw (ok-injective (sym h ∙ ap unwrap e)) ceil

IsCeil-cong : {a a' b b' q q' : ℕ} → a ≡ a' → b ≡ b' → q ≡ q' → IsCeil a b q → IsCeil a' b' q'
IsCeil-cong same_a same_b same_q ceil = rw (← same_a, ← same_b, ← same_q) ceil

-- The fee is added by a division that rounds up.
add_fee-eq-ok :
    (f : Fees) (before : ℕ) {after : ℕ}
    → f.swap_fee_numerator < f.swap_fee_denominator
    → 0 < before
    → add_fee f before ≡ ok after
    → IsCeil (before * f.swap_fee_denominator) (f.swap_fee_denominator - f.swap_fee_numerator) after
unfolding add_fee
add_fee-eq-ok f before {after} hf pos h =
    let num = f.swap_fee_numerator in
    let den = f.swap_fee_denominator in
    let (scaled, scaled_eq, h) = >>=-eq-ok (mul 128 before den) _ h in
    let (rest, rest_eq, h) = >>=-eq-ok (sub den num) _ h in
    let (pair, up, h) = >>=-eq-ok (unwrap (checked_ceil_div scaled rest)) _ h in
    let (scaled_is, scaled_lt) = mul-eq-ok 128 before den scaled_eq in
    let rest_is : rest ≡ den - num = omega (arith, sub-eq-ok den num rest_eq) in
    let large : den ≤ before * den =
      omega (arith, mul-le-mul_right {m = 1} {n = before} den (omega arith)) in
    let after_is : pair.0 ≡ after = omega (arith, cast-eq-ok 64 pair.0 h) in
    IsCeil-cong scaled_is rest_is after_is
      (division-IsCeil scaled rest (omega arith) (omega arith) scaled_lt up)

-- Nothing before the fee is nothing after it.
add_fee-pos :
    (f : Fees) (before : ℕ) {after : ℕ}
    → f.swap_fee_numerator < f.swap_fee_denominator
    → 0 < after
    → add_fee f before ≡ ok after
    → 0 < before
unfolding add_fee
add_fee-pos f (suc before) hf pos h = omega arith
add_fee-pos f zero {after} hf pos h =
    let num = f.swap_fee_numerator in
    let den = f.swap_fee_denominator in
    let (scaled, scaled_eq, h) = >>=-eq-ok (mul 128 0 den) _ h in
    let (rest, rest_eq, h) = >>=-eq-ok (sub den num) _ h in
    let (pair, up, h) = >>=-eq-ok (unwrap (checked_ceil_div scaled rest)) _ h in
    let nothing : scaled ≡ 0 = (mul-eq-ok 128 0 den scaled_eq).0 ∙ zero-mul den in
    let up' : unwrap (checked_ceil_div 0 rest) ≡ ok pair =
      ap (λ (t : ℕ). unwrap (checked_ceil_div t rest)) (sym nothing) ∙ up in
    let after_is : pair.0 ≡ after = omega (arith, cast-eq-ok 64 pair.0 h) in
    absurd (omega (arith, ceil_div_zero rest (omega (arith, sub-eq-ok den num rest_eq)) up'))

-- A quote that `quote_base_out` returns is for the output asked for, below its reserve, and meets the
-- maximum. What is paid before the fee, if it is not zero, is the least payment under which the product
-- does not fall, and the fee is added to it rounded up.
pub quote_base_out-eq-ok :
    (f : Fees) (user_amount maximum amount_out pc coin : ℕ) (direction : SwapDirection)
    {s : SwapAmounts}
    → f.swap_fee_numerator < f.swap_fee_denominator
    → pc < 2 ^ 64
    → coin < 2 ^ 64
    → quote_base_out f user_amount maximum amount_out pc coin direction ≡ ok s
    → IsQuote f user_amount (reserve_in direction pc coin) (reserve_out direction pc coin) s
      × (s.amount_out ≡ amount_out)
      × (s.amount_in ≤ maximum)
      × (amount_out < reserve_out direction pc coin)
      × IsLeastIn
          (reserve_in direction pc coin)
          (reserve_out direction pc coin)
          amount_out
          (s.amount_in - s.swap_fee)
      × IsCeil
          ((s.amount_in - s.swap_fee) * f.swap_fee_denominator)
          (f.swap_fee_denominator - f.swap_fee_numerator)
          s.amount_in
unfolding quote_base_out
quote_base_out-eq-ok f user_amount maximum amount_out pc coin direction {s} hf hp hc h =
    let (before, quoted, h) =
      >>=-eq-ok (swap_token_amount_base_out amount_out pc coin direction) _ h in
    let (after, added, h) = >>=-eq-ok (add_fee f before) _ h in
    let (before', fits, h) = >>=-eq-ok (cast 64 before) _ h in
    let (fee, rest, h) = >>=-eq-ok (sub after before') _ h in
    let (rich, h) = fail_if-eq-ok (ltb user_amount after) AmmError.insufficient_funds h in
    let (enough, h) = fail_if-eq-ok (ltb maximum after) AmmError.exceeded_slippage h in
    let (something, h) = fail_if-eq-ok (after == 0 || amount_out == 0) AmmError.invalid_input h in
    let some_moved = nonzero after amount_out something in
    let fee_is = sub-eq-ok after before' rest in
    let before_is = cast-eq-ok 64 before fits in
    let net : after - fee ≡ before = omega arith in
    let (below, base_out) =
      swap_token_amount_base_out-eq-ok amount_out pc coin direction hp hc quoted in
    let pos : 0 < before = add_fee-pos f before hf some_moved.0 added in
    let least : IsLeastIn (reserve_in direction pc coin) (reserve_out direction pc coin) amount_out
        (after - fee) =
      rw net (base_out.0 pos) in
    rw (← ok-injective h) (
      record {
        held = ltb→le _ _ rich;
        out_pos = some_moved.1;
        in_pos = some_moved.0;
        fee_le = omega arith;
        out_le = omega arith;
        product_kept = least.0;
      },
      refl,
      ltb→le _ _ enough,
      below,
      least,
      rw net (add_fee-eq-ok f before hf pos added),
    )
