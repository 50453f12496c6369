-- ===== src/Math/Fibonacci.antt =====
-- program/src/math.rs: `Calculator::fibonacci`, the spacing of the pool's limit orders.
use native.Mathlib.Nat.{two-pow-succ, pow-le-pow_right, add-zero}
use raydium_amm_mod.Base.{
  ℕ, zero, suc, ◌+◌, ◌-◌, ◌^◌, ◌≤◌, ◌<◌, ◌≡◌, refl, arith, List, [], ◌∷◌, ◌++◌, get_elem?, ◌==◌,
  if◌then◌else◌, ≢→==, some, ap, ◌∙◌,
}
use raydium_amm_mod.Error.{Result, ok, ◌>>=◌, unwrap}
use raydium_amm_mod.Checked.{add, add-ok}

-- The body of the loop: what is pushed in round `i`.
unfoldable pub next_fibonacci : ℕ → List ℕ → Result ℕ
next_fibonacci i fb = if i == 0 then ok 0 else if i == 1 then ok 1 else if i == 2 then ok 2 else (do
  last ← unwrap (get_elem? fb (i - 1))
  before ← unwrap (get_elem? fb (i - 2))
  add 64 last before)

-- `for i in 0..order_num`, with `left` rounds to go.
unfoldable pub fibonacci_from : ℕ → ℕ → List ℕ → Result (List ℕ)
fibonacci_from zero i fb = ok fb
fibonacci_from (suc left) i fb =
    next_fibonacci i fb >>= λ ret. fibonacci_from left (i + 1) (fb ++ (ret ∷ []))

unfoldable pub fibonacci : ℕ → Result (List ℕ)
unfolding fibonacci_from next_fibonacci
fibonacci order_num = fibonacci_from order_num 0 []

-- The sequence by its recurrence.
abbrev pub fib : ℕ → ℕ
fib zero = 0
fib (suc zero) = 1
fib (suc (suc zero)) = 2
fib (suc (suc (suc n))) = fib (suc (suc n)) + fib (suc n)

-- Its first `n` members.
abbrev pub fibs_from : ℕ → ℕ → List ℕ
fibs_from zero i = []
fibs_from (suc n) i = fib i ∷ fibs_from n (i + 1)

fib-le-pow : (n : ℕ) → fib n ≤ 2 ^ n
fib-le-pow zero = omega arith
fib-le-pow (suc zero) = omega arith
fib-le-pow (suc (suc zero)) = omega arith
fib-le-pow (suc (suc (suc n))) = omega (
  arith,
  fib-le-pow (suc (suc n)),
  fib-le-pow (suc n),
  two-pow-succ (suc n),
  two-pow-succ (suc (suc n)),
)

fib-lt : (n : ℕ) → n ≤ 63 → fib n < 2 ^ 64
fib-lt n h = omega (arith, fib-le-pow n, pow-le-pow_right {n = 2} (omega arith) {i = n} {j = 63} h)

get_elem?-fibs_from : (n i k : ℕ) → k < n → get_elem? (fibs_from n i) k ≡ some (fib (i + k))
get_elem?-fibs_from zero i k h = elim h [ ]
get_elem?-fibs_from (suc n) i zero h = rw (add-zero i)
get_elem?-fibs_from (suc n) i (suc k) h =
    get_elem?-fibs_from n (i + 1) k (omega arith) ∙ ap (λ j. some (fib j)) (omega arith)

fibs_from-snoc : (n i : ℕ) → fibs_from n i ++ (fib (i + n) ∷ []) ≡ fibs_from (suc n) i
fibs_from-snoc zero i = rw (add-zero i)
fibs_from-snoc (suc n) i =
    ap (λ l. fib i ∷ l)
      (ap (λ j. fibs_from n (i + 1) ++ (fib j ∷ [])) (omega arith) ∙ fibs_from-snoc n (i + 1))

fibs_from-snoc_zero : (i : ℕ) → fibs_from i 0 ++ (fib i ∷ []) ≡ fibs_from (i + 1) 0
fibs_from-snoc_zero i =
    ap (λ j. fibs_from i 0 ++ (fib j ∷ [])) {x = i} {y = 0 + i} (omega arith)
    ∙ fibs_from-snoc i 0
    ∙ ap (λ j. fibs_from j 0) {x = suc i} {y = i + 1} (omega arith)

next_fibonacci_sum :
    (n : ℕ) (fb : List ℕ)
    → get_elem? fb (suc (suc n)) ≡ some (fib (suc (suc n)))
    → get_elem? fb (suc n) ≡ some (fib (suc n))
    → fib (suc (suc (suc n))) < 2 ^ 64
    → next_fibonacci (suc (suc (suc n))) fb ≡ ok (fib (suc (suc (suc n))))
unfolding next_fibonacci
next_fibonacci_sum n fb last before fits =
    let i = suc (suc (suc n)) in
    let down : i - 1 ≡ suc (suc n) = omega arith in
    let down' : i - 2 ≡ suc n = omega arith in
    rw (
      ≢→== i 0 (omega arith),
      ≢→== i 1 (omega arith),
      ≢→== i 2 (omega arith),
      down,
      last,
      down',
      before,
      add-ok 64 (fib (suc (suc n))) (fib (suc n)) fits,
    )

next_fibonacci_lem : (i : ℕ) → i ≤ 63 → next_fibonacci i (fibs_from i 0) ≡ ok (fib i)
unfolding next_fibonacci
next_fibonacci_lem zero h = refl
next_fibonacci_lem (suc zero) h = refl
next_fibonacci_lem (suc (suc zero)) h = refl
next_fibonacci_lem (suc (suc (suc n))) h =
    let i = suc (suc (suc n)) in
    next_fibonacci_sum n (fibs_from i 0)
      (get_elem?-fibs_from i 0 (suc (suc n)) (omega arith)
        ∙ ap (λ j. some (fib j)) {x = 0 + suc (suc n)} {y = suc (suc n)} (omega arith))
      (get_elem?-fibs_from i 0 (suc n) (omega arith)
        ∙ ap (λ j. some (fib j)) {x = 0 + suc n} {y = suc n} (omega arith))
      (fib-lt i h)

fibonacci_from_lem :
    (left i : ℕ)
    → i + left ≤ 64
    → fibonacci_from left i (fibs_from i 0) ≡ ok (fibs_from (i + left) 0)
unfolding fibonacci_from
fibonacci_from_lem zero i h = rw (add-zero i)
fibonacci_from_lem (suc left) i h =
    rw (next_fibonacci_lem i (omega arith), fibs_from-snoc_zero i)
      (fibonacci_from_lem left (i + 1) (omega arith) ∙ ap (λ j. ok (fibs_from j 0)) (omega arith))

-- For up to 64 orders the loop reads inside the vector, never overflows, and pushes the first
-- members of the sequence in order.
pub fibonacci-eq-fibs :
    (order_num : ℕ) → order_num ≤ 64 → fibonacci order_num ≡ ok (fibs_from order_num 0)
unfolding fibonacci
fibonacci-eq-fibs n h =
    fibonacci_from_lem n 0 (omega arith) ∙ ap (λ j. ok (fibs_from j 0)) (omega arith)
