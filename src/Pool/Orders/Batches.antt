-- ===== src/Pool/Orders/Batches.antt =====
-- The batches in which the swaps of program/src/processor.rs cancel orders.
use raydium_amm_mod.Base.{
  ℕ, zero, suc, ◌+◌, ◌≤◌, ◌<◌, ◌≡◌, ◌∙◌, refl, sym, ap, arith, false, List, [], ◌∷◌, ◌++◌, ◌-◌,
  length, length-append, ◌==◌, ≢→==, ==→≡, Bool-cases, inl, inr,
}
use mathlib.Core.List.{append-nil, append_assoc}
use raydium_amm_mod.Pool.Orders.{zeros, pad, order_batches}

abbrev pub concat : List (List ℕ) → List ℕ
concat [] = []
concat (ids ∷ batches) = ids ++ concat batches

-- Every batch fills its array of eight.
abbrev pub AllEight : List (List ℕ) → Type 0
AllEight [] = Unit
AllEight (ids ∷ batches) = (length ids ≡ 8) × AllEight batches

length-pad : (n : ℕ) (ids : List ℕ) → length (pad n ids) ≡ n
length-pad zero ids = refl
length-pad (suc n) [] = ap suc (length-pad n [])
length-pad (suc n) (id ∷ ids) = ap suc (length-pad n ids)

pad-nil : (n : ℕ) → pad n [] ≡ zeros n
pad-nil zero = refl
pad-nil (suc n) = ap (λ (t : List ℕ). 0 ∷ t) (pad-nil n)

-- Padding appends zeros.
pad-append : (n : ℕ) (ids : List ℕ) → length ids ≤ n → pad n ids ≡ ids ++ zeros (n - length ids)
pad-append n [] h = pad-nil n ∙ ap zeros (let z : n ≡ n - 0 = omega arith in z)
pad-append zero (id ∷ ids) h = absurd (omega arith)
pad-append (suc n) (id ∷ ids) h =
    ap (λ (t : List ℕ). id ∷ t) (pad-append n ids (omega arith))
    ∙ ap (λ (k : ℕ). id ∷ (ids ++ zeros k))
        (let z : n - length ids ≡ suc n - suc (length ids) = omega arith in z)

-- The batches hold the ids in order, and fewer than eight zeros behind them.
abbrev pub Cancels : List ℕ → List (List ℕ) → Type 0
Cancels ids batches = AllEight batches × (n : ℕ) × (n < 8) × (concat batches ≡ ids ++ zeros n)

batches_end :
    (filled : List ℕ) (count : ℕ)
    → length filled ≡ count
    → count < 8
    → Cancels filled (order_batches [] filled count)
unfolding order_batches
batches_end [] count e lt = rw (← e) (tt, 0, omega arith, refl)
batches_end (id ∷ ids) count e lt =
    let partial : (count == 0) ≡ false = ≢→== count 0 (λ z. ground arith) in
    rw partial (
      (length-pad 8 (id ∷ ids), tt),
      8 - length (id ∷ ids),
      omega arith,
      append-nil (pad 8 (id ∷ ids)) ∙ pad-append 8 (id ∷ ids) (omega arith),
    )

batches_from :
    (ids filled : List ℕ) (count : ℕ)
    → length filled ≡ count
    → count < 8
    → Cancels (filled ++ ids) (order_batches ids filled count)
unfolding order_batches
batches_from [] filled count e lt = rw (append-nil filled) (batches_end filled count e lt)
batches_from (id ∷ ids) filled count e lt =
    let filled' = filled ++ (id ∷ []) in
    let longer : length filled' ≡ count + 1 = omega (arith, length-append filled (id ∷ [])) in
    let joined : filled ++ (id ∷ ids) ≡ filled' ++ ids = sym (append_assoc filled (id ∷ []) ids) in
    elim (Bool-cases ((count + 1) == 8)) [
      | inr room ↦
          rw (room, joined)
            (batches_from ids filled' (count + 1) longer
              (let apart = ==→≡ (count + 1) 8 in ground arith))
      | inl full ↦
          let full' : length filled' ≡ 8 = longer ∙ ==→≡ (count + 1) 8 full in
          let (eight, n, lt', rest) = batches_from ids [] 0 refl (omega arith) in
          let whole : pad 8 filled' ≡ filled' =
            pad-append 8 filled' (omega arith)
            ∙ ap (λ (k : ℕ). filled' ++ zeros k) (let z : 8 - length filled' ≡ 0 = omega arith in z)
            ∙ append-nil filled' in
          rw (full, joined)
            (
              (length-pad 8 filled', eight),
              n,
              lt',
              ap (λ (t : List ℕ). t ++ concat (order_batches ids [] 0)) whole
                  ∙ ap (λ (t : List ℕ). filled' ++ t) rest
                  ∙ sym (append_assoc filled' ids (zeros n)),
            )
    ]

-- The batches that a swap cancels hold every id once and in order, in arrays of eight, with fewer than eight
-- zeros at the end.
pub order_batches-Cancels : (ids : List ℕ) → Cancels ids (order_batches ids [] 0)
order_batches-Cancels ids = batches_from ids [] 0 refl (omega arith)
