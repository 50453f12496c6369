-- ===== src/Math/Swap/RoundTrip.antt =====
-- The two quotes against each other.
use native.Mathlib.Decide.{dec_lt}
use raydium_amm_mod.Base.{ℕ, ◌^◌, ◌≤◌, ◌<◌, ◌≡◌, arith, sym, ◌∙◌}
use raydium_amm_mod.Error.{ok, ok-injective}
use raydium_amm_mod.Math.Swap.{SwapDirection, swap_token_amount_base_in, swap_token_amount_base_out}
use raydium_amm_mod.Math.Swap.Laws.{
  reserve_in, reserve_out, IsBestOut, IsLeastIn, swap_token_amount_base_in-IsBestOut,
  swap_token_amount_base_out-IsExactOut,
}

-- Paying the least price for `o` buys at least `o`.
best-of-least : (x y o d out : ℕ) → o ≤ y → IsLeastIn x y o d → IsBestOut x y d out → o ≤ out
best-of-least x y o d out le (kept, _) (_, _, best) = elim (dec_lt out o) [
  | yes short ↦ absurd (omega (arith, best o short le))
  | no enough ↦ omega arith
]

-- With reserves and amounts in `u64`, and an output below its reserve, whoever pays in what the exact-output quote asks, and a positive amount, is quoted by the
-- exact-input quote at least the output that was asked for.
pub swap_round_trip :
    (amount_out pc coin : ℕ) (direction : SwapDirection) {amount_in : ℕ}
    → pc < 2 ^ 64
    → coin < 2 ^ 64
    → amount_out < reserve_out direction pc coin
    → swap_token_amount_base_out amount_out pc coin direction ≡ ok amount_in
    → 0 < amount_in
    → amount_in < 2 ^ 64
    → (out : ℕ) × (swap_token_amount_base_in amount_in pc coin direction ≡ ok out)
      × (amount_out ≤ out)
swap_round_trip o pc coin direction {amount_in} hp hc lt quoted pos fits =
    let (asked, asked_eq, base_out) =
      swap_token_amount_base_out-IsExactOut o pc coin direction hp hc lt in
    let same : asked ≡ amount_in = ok-injective (sym asked_eq ∙ quoted) in
    let (out, out_eq, best) =
      swap_token_amount_base_in-IsBestOut amount_in pc coin direction fits hp hc (omega arith) in
    (
      out,
      out_eq,
      best-of-least (reserve_in direction pc coin) (reserve_out direction pc coin) o amount_in out
          (omega arith) ((rw same at base_out).0 pos) best,
    )
