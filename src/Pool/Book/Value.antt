-- ===== src/Pool/Book/Value.antt =====
-- The worth of a share: as long as no profit is set aside, the product of the two tokens per squared share
-- does not fall.
use native.Mathlib.Nat.{mul-le-mul, mul-le-mul_right, le_of_mul-le-mul_right, mul-sub, mul_comm}
use raydium_amm_mod.Base.{ℕ, ◌+◌, ◌-◌, ◌*◌, ◌≤◌, ◌<◌, ◌≡◌, arith}
use raydium_amm_mod.Pool.Book.{Book, Step, Steps}

-- A share of `b'` is worth no less than one of `b`.
abbrev pub NoLess : Book → Book → Type 0
NoLess b b' = (b.pc * b.coin) * (b'.lp * b'.lp) ≤ (b'.pc * b'.coin) * (b.lp * b.lp)

-- Squares of products, with the factors of either token brought together.
regroup : (a b c d : ℕ) → (a * b) * (c * d) ≡ (a * c) * (b * d)
regroup a b c d = omega arith

-- It is enough that neither token falls by the share.
by_sides :
    (x y l x' y' l' : ℕ)
    → l' * x ≤ l * x'
    → l' * y ≤ l * y'
    → (x * y) * (l' * l') ≤ (x' * y') * (l * l)
by_sides x y l x' y' l' h k =
    let both = mul-le-mul h k in
    omega (
      arith,
      both,
      regroup l' x l' y,
      regroup l x' l y',
      mul_comm (x * y) (l' * l'),
      mul_comm (x' * y') (l * l),
    )

joined : (x l dx dl : ℕ) → dl * x ≤ l * dx → (l + dl) * x ≤ l * (x + dx)
joined x l dx dl h = omega arith

left_ : (x l dx dl : ℕ) → dl < l → dx * l ≤ x * dl → (l - dl) * x ≤ l * (x - dx)
left_ x l dx dl lt h =
    rw (mul-sub l x dx, mul_comm (l - dl) x, mul-sub x l dl)
      (omega (arith, mul_comm l x, mul_comm l dx))

trans3 : (a b c p q s : ℕ) → 0 < q → a * q ≤ b * p → b * s ≤ c * q → a * s ≤ c * p
trans3 a b c p q s pos h k =
    le_of_mul-le-mul_right {m = a * s} {n = c * p} {k = q}
      (omega (
        arith,
        mul-le-mul_right {m = a * q} {n = b * p} s h,
        mul-le-mul_right {m = b * s} {n = c * q} p k,
      ))
      pos

-- Every step keeps the worth of a share.
Step-NoLess : (b b' : Book) → Step b b' → NoLess b b'
Step-NoLess b b' (Step.trade pc coin kept _ _ e) =
    rw e (mul-le-mul_right {m = b.pc * b.coin} {n = pc * coin} (b.lp * b.lp) kept)
Step-NoLess b b' (Step.join pc coin lp _ pays_pc pays_coin e) = rw e (
    by_sides b.pc b.coin b.lp (b.pc + pc) (b.coin + coin) (b.lp + lp)
      (joined b.pc b.lp pc lp pays_pc) (joined b.coin b.lp coin lp pays_coin))
Step-NoLess b b' (Step.leave pc coin lp short gets_pc gets_coin e) = rw e (
    by_sides b.pc b.coin b.lp (b.pc - pc) (b.coin - coin) (b.lp - lp)
      (left_ b.pc b.lp pc lp short gets_pc) (left_ b.coin b.lp coin lp short gets_coin))
Step-NoLess b b' (Step.payout e) = rw e (omega arith)

Step-shares_left : (b b' : Book) → 0 < b.lp → Step b b' → 0 < b'.lp
Step-shares_left b b' pos (Step.trade _ _ _ _ _ e) = rw e pos
Step-shares_left b b' pos (Step.join _ _ lp _ _ _ e) = rw e (omega arith)
Step-shares_left b b' pos (Step.leave _ _ lp short _ _ e) = rw e (omega arith)
Step-shares_left b b' pos (Step.payout e) = rw e pos

Steps-shares_left : {b b' : Book} → 0 < b.lp → Steps b b' → 0 < b'.lp
Steps-shares_left pos Steps.here = pos
Steps-shares_left pos (Steps.step {m} {b'} before s) =
    Step-shares_left m b' (Steps-shares_left pos before) s

-- From a book with shares, however many trades, deposits, withdrawals and payouts follow each other, as
-- long as no profit is set aside, a share of the last book is worth no less than one of the first.
pub Steps-NoLess : {b b' : Book} → 0 < b.lp → Steps b b' → NoLess b b'
Steps-NoLess pos Steps.here = omega arith
Steps-NoLess {b} pos (Steps.step {m} {b'} before s) =
    let left = Steps-shares_left pos before in
    trans3 (b.pc * b.coin) (m.pc * m.coin) (b'.pc * b'.coin) (b.lp * b.lp) (m.lp * m.lp)
      (b'.lp * b'.lp) (mul-le-mul {n₁ = 1} {m₁ = 1} left left) (Steps-NoLess pos before)
      (Step-NoLess m b' s)
