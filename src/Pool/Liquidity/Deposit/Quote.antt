-- ===== src/Pool/Liquidity/Deposit/Quote.antt =====
-- The amounts of a deposit, program/src/processor.rs: what is minted is never worth more than what is paid.
use native.Mathlib.Nat.{
  div-mul-le_self, lt-mul-div-succ, le_of_mul-le-mul_right, mul_comm, mul_assoc, mul-le-mul_right,
  mul-le-mul_left,
}
use raydium_amm_mod.Base.{
  ℕ, ◌+◌, ◌*◌, ◌/◌, ◌^◌, ◌≤◌, ◌<◌, ◌≡◌, ◌≢◌, ◌∙◌, sym, ap, arith, false, Option, none, some, inl,
  inr, ◌⊎◌, Bool-cases, ltb, leb, ◌==◌, refl, ltb→le, ==→≡, if◌then◌else◌,
}
use raydium_amm_mod.Error.{
  AmmError, Result, ok, err, unwrap, >>=-eq-ok, fail_if-eq-ok, ok-injective,
}
use raydium_amm_mod.Checked.{mul, div, cast, mul-eq-ok, div-eq-ok, cast-eq-ok}
use raydium_amm_mod.Math.Ceil.{
  IsCeil, checked_ceil_div, checked_ceil_div_large, checked_ceil_div_small,
}
use raydium_amm_mod.Math.Invariant.{
  RoundDirection, exchange, exchange_coin_to_pc, exchange_pc_to_coin, exchange_token_to_pool,
}
use raydium_amm_mod.Pool.Liquidity.{rate, falls_short}
use raydium_amm_mod.Pool.Liquidity.Deposit.{
  DepositInstruction, DepositAmounts, deposit_base_coin, deposit_base_pc, quote_deposit,
}

small_round_up : (a b q : ℕ) → a < b → q ≡ (if leb b (a * 2) then 1 else 0) → 0 < q → IsCeil a b q
small_round_up a b q lt same some_q = elim (Bool-cases (leb b (a * 2))) [
  | inl half ↦ let one : q ≡ 1 = rw half at same in rw one (omega arith, ground arith)
  | inr less ↦ let nothing : q ≡ 0 = rw less at same in absurd (omega arith)
]

-- A positive quotient of `checked_ceil_div` is rounded up, also where the dividend is the smaller.
positive_quotient-IsCeil :
    (a b : ℕ) {pair : ℕ × ℕ}
    → 0 < b
    → b < 2 ^ 64
    → a < 2 ^ 128
    → unwrap (checked_ceil_div a b) ≡ ok pair
    → 0 < pair.0
    → IsCeil a b pair.0
positive_quotient-IsCeil a b {pair} pos fits lt h some_q = elim (Bool-cases (leb b a)) [
  | inl large ↦
      let (q, rest, e, up, _, _) = checked_ceil_div_large a b pos (ground arith) lt in
      rw (ok-injective (sym h ∙ ap unwrap e)) up
  | inr small ↦
      let less : a < b = ground arith in
      let e = checked_ceil_div_small a b less (omega arith) in
      let same : pair.0 ≡ (if leb b (a * 2) then 1 else 0) =
        ap (λ (p : ℕ × ℕ). p.0) (ok-injective (sym h ∙ ap unwrap e)) in
      small_round_up a b pair.0 less same some_q
]

rate-eq-ok : (m : Result (Option ℕ)) {n : ℕ} → rate m ≡ ok n → m ≡ ok (some n)
rate-eq-ok (err e) h = cc
rate-eq-ok (ok none) h = cc
rate-eq-ok (ok (some a)) h = ap (λ (n : ℕ). ok (some n)) (ok-injective h)

some_ok-injective : {a b : ℕ} → ok (some a) ≡ ok (some b) → a ≡ b
some_ok-injective h = cc

pub exchange_floor-eq-ok :
    (value factor divisor : ℕ) {n : ℕ}
    → rate (exchange value factor divisor RoundDirection.floor) ≡ ok n
    → (n ≡ value * factor / divisor) × (0 < divisor) × (n < 2 ^ 64)
unfolding exchange
exchange_floor-eq-ok v f d {n} h =
    let h = rate-eq-ok (exchange v f d RoundDirection.floor) h in
    let (product, e₁, h) = >>=-eq-ok (mul 128 v f) _ h in
    let (quotient, e₂, h) = >>=-eq-ok (div product d) _ h in
    let (narrowed, e₃, h) = >>=-eq-ok (cast 64 quotient) _ h in
    let (product_is, _) = mul-eq-ok 128 v f e₁ in
    let (quotient_is, pos) = div-eq-ok product d e₂ in
    let (narrowed_is, fits) = cast-eq-ok 64 quotient e₃ in
    let n_is : n ≡ quotient = sym (some_ok-injective h) ∙ narrowed_is in
    (n_is ∙ quotient_is ∙ ap (λ (p : ℕ). p / d) product_is, pos, rw n_is fits)

exchange_up-eq-ok :
    (value factor divisor : ℕ) {n : ℕ}
    → rate (exchange value factor divisor RoundDirection.ceiling) ≡ ok n
    → 0 < divisor
    → divisor < 2 ^ 64
    → 0 < n
    → IsCeil (value * factor) divisor n
unfolding exchange
exchange_up-eq-ok v f d {n} h pos lt some_n =
    let h = rate-eq-ok (exchange v f d RoundDirection.ceiling) h in
    let (product, e₁, h) = >>=-eq-ok (mul 128 v f) _ h in
    let (pair, e₂, h) = >>=-eq-ok (unwrap (checked_ceil_div product d)) _ h in
    let (narrowed, e₃, h) = >>=-eq-ok (cast 64 pair.0) _ h in
    let (product_is, product_lt) = mul-eq-ok 128 v f e₁ in
    let (narrowed_is, _) = cast-eq-ok 64 pair.0 e₃ in
    let n_is : pair.0 ≡ n = sym narrowed_is ∙ some_ok-injective h in
    rw (← n_is, ← product_is)
      (positive_quotient-IsCeil product d pos lt product_lt e₂ (rw n_is some_n))

-- Of a deposit that fixes `fixed` tokens of a total, what is due of the other token is rounded up, and the
-- shares that are minted are rounded down.
pub record IsProportional (lp fixed total other other_total mint_lp : ℕ) : Type 0 where
  pub other_ceil : IsCeil (fixed * other_total) total other
  pub mint_floor : mint_lp * total ≤ lp * fixed
  pub mint_most : lp * fixed < (mint_lp + 1) * total
  -- Nor is the other side diluted.
  pub other_floor : mint_lp * other_total ≤ lp * other

no_dilution :
    (lp fixed total other other_total mint_lp : ℕ)
    → 0 < total
    → fixed * other_total ≤ other * total
    → mint_lp * total ≤ lp * fixed
    → mint_lp * other_total ≤ lp * other
no_dilution lp fixed total other other_total mint_lp pos due minted =
    let first = mul-le-mul_right {m = mint_lp * total} {n = lp * fixed} other_total minted in
    let second = mul-le-mul_left {m = fixed * other_total} {n = other * total} lp due in
    le_of_mul-le-mul_right {m = mint_lp * other_total} {n = lp * other} {k = total}
      (omega (
        arith,
        first,
        second,
        mul_assoc mint_lp total other_total,
        mul_comm total other_total,
        mul_assoc mint_lp other_total total,
        mul_assoc lp fixed other_total,
        mul_assoc lp other total,
      ))
      pos

proportional :
    (lp fixed total other other_total mint_lp : ℕ)
    → total < 2 ^ 64
    → 0 < other
    → rate (exchange fixed other_total total RoundDirection.ceiling) ≡ ok other
    → rate (exchange lp fixed total RoundDirection.floor) ≡ ok mint_lp
    → IsProportional lp fixed total other other_total mint_lp
proportional lp fixed total other other_total mint_lp lt some_other due minted =
    let (mint_is, pos, _) = exchange_floor-eq-ok lp fixed total minted in
    let ceil = exchange_up-eq-ok fixed other_total total due pos lt some_other in
    let most = lt-mul-div-succ (lp * fixed) pos in
    let least : mint_lp * total ≤ lp * fixed = rw mint_is (div-mul-le_self (lp * fixed) total) in
    record {
      other_ceil = ceil;
      mint_floor = least;
      mint_most = rw mint_is (omega (arith, most, mul_comm total (lp * fixed / total + 1)));
      other_floor = no_dilution lp fixed total other other_total mint_lp pos ceil.0 least;
    }

-- What a deposit for `lp` shares and the totals of pc and coin agrees to: the side that is fixed is taken
-- whole, the other in proportion, within its maximum and not short of a given minimum.
abbrev pub IsAgreed : DepositInstruction → ℕ → ℕ → ℕ → DepositAmounts → Type 0
IsAgreed d lp pc coin s =
    ((d.base_side ≡ 0)
      × (s.deduct_coin ≡ d.max_coin_amount)
      × (s.deduct_pc ≤ d.max_pc_amount)
      × (falls_short d.other_amount_min s.deduct_pc ≡ false)
      × IsProportional lp s.deduct_coin coin s.deduct_pc pc s.mint_lp)
    ⊎ ((d.base_side ≢ 0)
        × (s.deduct_pc ≡ d.max_pc_amount)
        × (s.deduct_coin ≤ d.max_coin_amount)
        × (falls_short d.other_amount_min s.deduct_coin ≡ false)
        × IsProportional lp s.deduct_pc pc s.deduct_coin coin s.mint_lp)

deposit_base_coin-eq-ok :
    (d : DepositInstruction) (lp pc coin : ℕ) {s : DepositAmounts}
    → coin < 2 ^ 64
    → 0 < s.deduct_pc
    → deposit_base_coin d lp pc coin ≡ ok s
    → (s.deduct_coin ≡ d.max_coin_amount)
      × (s.deduct_pc ≤ d.max_pc_amount)
      × (falls_short d.other_amount_min s.deduct_pc ≡ false)
      × IsProportional lp s.deduct_coin coin s.deduct_pc pc s.mint_lp
unfolding deposit_base_coin exchange_coin_to_pc exchange_token_to_pool
deposit_base_coin-eq-ok d lp pc coin {s} lt some_pc h =
    let (due, e₁, h) =
      >>=-eq-ok (rate (exchange d.max_coin_amount pc coin RoundDirection.ceiling)) _ h in
    let (enough, h) = fail_if-eq-ok (ltb d.max_pc_amount due) AmmError.exceeded_slippage h in
    let (least, h) =
      fail_if-eq-ok (falls_short d.other_amount_min due) AmmError.exceeded_slippage h in
    let (mint, e₂, h) =
      >>=-eq-ok (rate (exchange lp d.max_coin_amount coin RoundDirection.floor)) _ h in
    let same = ok-injective h in
    let due_is : due ≡ s.deduct_pc = ap (λ (x : DepositAmounts). x.deduct_pc) same in
    let part = proportional lp d.max_coin_amount coin due pc mint lt (rw due_is some_pc) e₁ e₂ in
    rw (← same) (refl, ltb→le d.max_pc_amount due enough, least, part)

deposit_base_pc-eq-ok :
    (d : DepositInstruction) (lp pc coin : ℕ) {s : DepositAmounts}
    → pc < 2 ^ 64
    → 0 < s.deduct_coin
    → deposit_base_pc d lp pc coin ≡ ok s
    → (s.deduct_pc ≡ d.max_pc_amount)
      × (s.deduct_coin ≤ d.max_coin_amount)
      × (falls_short d.other_amount_min s.deduct_coin ≡ false)
      × IsProportional lp s.deduct_pc pc s.deduct_coin coin s.mint_lp
unfolding deposit_base_pc exchange_pc_to_coin exchange_token_to_pool
deposit_base_pc-eq-ok d lp pc coin {s} lt some_coin h =
    let (due, e₁, h) =
      >>=-eq-ok (rate (exchange d.max_pc_amount coin pc RoundDirection.ceiling)) _ h in
    let (enough, h) = fail_if-eq-ok (ltb d.max_coin_amount due) AmmError.exceeded_slippage h in
    let (least, h) =
      fail_if-eq-ok (falls_short d.other_amount_min due) AmmError.exceeded_slippage h in
    let (mint, e₂, h) =
      >>=-eq-ok (rate (exchange lp d.max_pc_amount pc RoundDirection.floor)) _ h in
    let same = ok-injective h in
    let due_is : due ≡ s.deduct_coin = ap (λ (x : DepositAmounts). x.deduct_coin) same in
    let part = proportional lp d.max_pc_amount pc due coin mint lt (rw due_is some_coin) e₁ e₂ in
    rw (← same) (refl, ltb→le d.max_coin_amount due enough, least, part)

pub quote_deposit-IsAgreed :
    (d : DepositInstruction) (lp pc coin : ℕ) {s : DepositAmounts}
    → pc < 2 ^ 64
    → coin < 2 ^ 64
    → 0 < s.deduct_pc
    → 0 < s.deduct_coin
    → quote_deposit d lp pc coin ≡ ok s
    → IsAgreed d lp pc coin s
unfolding quote_deposit
quote_deposit-IsAgreed d lp pc coin {s} hp hc some_pc some_coin h =
    elim (Bool-cases (d.base_side == 0)) [
      | inl base_coin ↦
          let (a, b, c, p) = deposit_base_coin-eq-ok d lp pc coin hc some_pc (rw base_coin at h) in
          inl (==→≡ d.base_side 0 base_coin, a, b, c, p)
      | inr base_pc ↦
          let (a, b, c, p) = deposit_base_pc-eq-ok d lp pc coin hp some_coin (rw base_pc at h) in
          inr ((λ e. ground arith), a, b, c, p)
    ]

-- Whichever side is fixed: the limits hold, and the shares that others hold are not diluted.
pub record IsFair (d : DepositInstruction) (lp pc coin : ℕ) (s : DepositAmounts) : Type 0 where
  pub pc_max : s.deduct_pc ≤ d.max_pc_amount
  pub coin_max : s.deduct_coin ≤ d.max_coin_amount
  pub pc_fair : s.mint_lp * pc ≤ lp * s.deduct_pc
  pub coin_fair : s.mint_lp * coin ≤ lp * s.deduct_coin

pub IsAgreed-IsFair :
    (d : DepositInstruction) (lp pc coin : ℕ) (s : DepositAmounts)
    → IsAgreed d lp pc coin s
    → IsFair d lp pc coin s
IsAgreed-IsFair d lp pc coin s (inl (_, fixed, below, _, p)) = record {
  pc_max = below;
  coin_max = omega arith;
  pc_fair = p.other_floor;
  coin_fair = p.mint_floor;
}
IsAgreed-IsFair d lp pc coin s (inr (_, fixed, below, _, p)) = record {
  pc_max = omega arith;
  coin_max = below;
  pc_fair = p.mint_floor;
  coin_fair = p.other_floor;
}
