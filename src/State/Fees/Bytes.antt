-- ===== src/State/Fees/Bytes.antt =====
-- `u64::to_le_bytes` and `u64::from_le_bytes` over lists of bytes.
use raydium_amm_mod.Base.{ℕ, zero, suc, ◌+◌, ◌*◌, ◌/◌, ◌%◌, ◌^◌, ◌<◌, ◌≡◌, arith, List, [], ◌∷◌}

module _ {ℓ} {A : Type ℓ} where
  abbrev pub drop : ℕ → List A → List A
  drop zero xs = xs
  drop (suc n) [] = []
  drop (suc n) (x ∷ xs) = drop n xs

-- The `k` low bytes of a number, lowest first, in front of a list.
abbrev pub bytes_onto : ℕ → ℕ → List ℕ → List ℕ
bytes_onto zero n rest = rest
bytes_onto (suc k) n rest = n % 256 ∷ bytes_onto k (n / 256) rest

abbrev pub of_bytes : ℕ → List ℕ → ℕ
of_bytes zero bytes = 0
of_bytes (suc k) [] = 0
of_bytes (suc k) (b ∷ bytes) = b + 256 * of_bytes k bytes

abbrev pub u64_bytes : ℕ → List ℕ → List ℕ
u64_bytes = bytes_onto 8

abbrev pub u64_of_bytes : List ℕ → ℕ
u64_of_bytes = of_bytes 8

pub u64_of_bytes-u64_bytes :
    (n : ℕ) (rest : List ℕ) → n < 2 ^ 64 → u64_of_bytes (u64_bytes n rest) ≡ n
u64_of_bytes-u64_bytes n rest h = omega arith
