-- ===== src/Math/Ceil.antt =====
-- program/src/math.rs: the trait `CheckedCeilDiv`, whose implementations for `u128` and `U128` are
-- the same text over two types of 128 bits.
use raydium_amm_mod.Base.{
  ℕ, ◌+◌, ◌*◌, ◌/◌, ◌%◌, ◌^◌, ◌≤◌, ◌<◌, ◌≡◌, Option, none, some, arith, ltb, leb, ◌==◌,
  if◌then◌else◌, inl, inr, Bool-cases, ≢→==, ltb→lt, false,
}
use native.Mathlib.Nat.{
  div-eq_of_lt, div-add-mod, div-add-mod', mod-lt, lt-mul-div-succ, div-lt_iff_lt-mul,
  le-div_iff_mul-le, le-mul_of_pos_right,
}
use raydium_amm_mod.Word.{
  checked_add, checked_mul, checked_div, checked_rem, checked_div-some, checked_rem-some,
  checked_add-some, checked_mul-some,
}

-- The `?` operator on options.
infixl 5 ◌>>=◌
abbrev ◌>>=◌ {ℓ κ} : {A : Type ℓ} {B : Type κ} → Option A → (A → Option B) → Option B
none >>= f = none
some a >>= f = f a

unfoldable pub checked_ceil_div : ℕ → ℕ → Option (ℕ × ℕ)
checked_ceil_div a rhs = do
  quotient ← checked_div a rhs
  if quotient == 0
      then checked_mul 128 a 2 >>= (λ double. some (if leb rhs double then 1 else 0, 0))
      else checked_rem a rhs >>= λ remainder.
          if ltb 0 remainder
          then checked_add 128 quotient 1 >>= (λ up. checked_div a up >>= λ rhs'.
              checked_rem a up >>= λ remainder'.
              if ltb 0 remainder'
              then checked_add 128 rhs' 1 >>= (λ rhs''. some (up, rhs''))
              else some (up, rhs'))
          else some (quotient, rhs)

-- The least number of whole units of `b` that covers `a`.
abbrev pub IsCeil : ℕ → ℕ → ℕ → Type 0
IsCeil a b q = (a ≤ q * b) × (q * b < a + b)

-- The roundings of a division, without the machine arithmetic.
round_up-IsCeil : (a b : ℕ) → 0 < b → 0 < a % b → IsCeil a b (a / b + 1)
round_up-IsCeil a b pos more = grind (arith, div-add-mod' a b, mod-lt a pos)

exact-IsCeil : (a b : ℕ) → 0 < b → a % b ≡ 0 → IsCeil a b (a / b)
exact-IsCeil a b pos none_left = omega (arith, div-add-mod' a b)

le-mul-div-add : (a q : ℕ) → 0 < q → a ≤ q * (a / q + 1)
le-mul-div-add a q pos = omega (arith, lt-mul-div-succ a pos)

le-mul-div : (a q : ℕ) → a % q ≡ 0 → a ≤ q * (a / q)
le-mul-div a q none_left = omega (arith, div-add-mod a q)

-- With the quotient rounded up, the divisor needed falls.
div-round_up-lt : (a b : ℕ) → 0 < b → a / (a / b + 1) < b
div-round_up-lt a b pos =
    (div-lt_iff_lt-mul {k = a / b + 1} {x = a} {y = b} (omega arith)).1 (lt-mul-div-succ a pos)

div-fits : (a b : ℕ) {n : ℕ} → 0 < b → a < n → 0 < a % b → a / b + 1 < n
div-fits a b pos lt more = omega (arith, div-add-mod' a b, le-mul_of_pos_right (a / b) pos)

-- Where the divisor is positive and at most a dividend in `u128`, the division succeeds, its quotient is rounded up
-- exactly, and the divisor that it returns still covers the dividend and is no larger.
pub checked_ceil_div_large :
    (a b : ℕ)
    → 0 < b
    → b ≤ a
    → a < 2 ^ 128
    → (q r : ℕ) × (checked_ceil_div a b ≡ some (q, r)) × IsCeil a b q × (a ≤ q * r) × (r ≤ b)
unfolding checked_ceil_div
checked_ceil_div_large a b pos le lt =
    let first : 0 < a / b = (le-div_iff_mul-le pos).1 (omega arith) in
    let head = checked_div-some a b pos in
    let apart : ((a / b) == 0) ≡ false = ≢→== (a / b) 0 (omega arith) in
    let rest = checked_rem-some a b pos in
    let head' = checked_div-some a (a / b + 1) (omega arith) in
    let rest' = checked_rem-some a (a / b + 1) (omega arith) in
    let lower = div-round_up-lt a b pos in
    elim (Bool-cases (ltb 0 (a % b))) [
      | inl more ↦
          let ceil = round_up-IsCeil a b pos (ltb→lt _ _ more) in
          let up = checked_add-some 128 (a / b) 1 (div-fits a b pos lt (ltb→lt _ _ more)) in
          elim (Bool-cases (ltb 0 (a % (a / b + 1)))) [
            | inl more' ↦ (
              a / b + 1,
              a / (a / b + 1) + 1,
              rw (
                head,
                apart,
                rest,
                more,
                up,
                head',
                rest',
                more',
                checked_add-some 128 (a / (a / b + 1)) 1
                    (div-fits a (a / b + 1) (omega arith) lt (ltb→lt _ _ more')),
              ),
              ceil,
              le-mul-div-add a (a / b + 1) (omega arith),
              omega arith,
            )
            | inr none_left ↦ (
              a / b + 1,
              a / (a / b + 1),
              rw (head, apart, rest, more, up, head', rest', none_left),
              ceil,
              le-mul-div a (a / b + 1) (ground arith),
              omega arith,
            )
          ]
      | inr none_left ↦
          let ceil = exact-IsCeil a b pos (ground arith) in
          (a / b, b, rw (head, apart, rest, none_left), ceil, ceil.0, omega arith)
    ]

pub checked_ceil_div_small :
    (a b : ℕ)
    → a < b
    → a < 2 ^ 127
    → checked_ceil_div a b ≡ some (if leb b (a * 2) then 1 else 0, 0)
unfolding checked_ceil_div
checked_ceil_div_small a b le lt =
    rw (checked_div-some a b (omega arith), div-eq_of_lt le, checked_mul-some 128 a 2 (omega arith))
