-- ===== src/Pool/Book.antt =====
-- What the instructions of program/src/processor.rs promise, without accounts: a book of the two tokens
-- that the shares stand for, of what is owed to the owner, and of the number of shares.
pub mod Serve
pub mod Value
pub mod Calls
pub mod Refine
pub mod Simulation
use raydium_amm_mod.Base.{ℕ, ◌+◌, ◌-◌, ◌*◌, ◌≤◌, ◌<◌, ◌≡◌}
use raydium_amm_mod.State.Fees.{Fees}

pub record Book : Type 0 where
  pub pc : ℕ
  pub coin : ℕ
  pub owed_pc : ℕ
  pub owed_coin : ℕ
  pub lp : ℕ

-- A trade does not lower the product and empties no side. Who joins pays no less than the shares are
-- worth, who leaves gets no more, and never all shares leave. A payout settles what is owed.
pub data Step (b b' : Book) : Type 0 where
  trade :
      (pc coin : ℕ)
      → b.pc * b.coin ≤ pc * coin
      → 0 < pc
      → 0 < coin
      → b' ≡ record b { pc = pc; coin = coin }
      → Step b b'
  join :
      (pc coin lp : ℕ)
      → 0 < b.lp
      → lp * b.pc ≤ b.lp * pc
      → lp * b.coin ≤ b.lp * coin
      → b' ≡ record b { pc = b.pc + pc; coin = b.coin + coin; lp = b.lp + lp }
      → Step b b'
  leave :
      (pc coin lp : ℕ)
      → lp < b.lp
      → pc * b.lp ≤ b.pc * lp
      → coin * b.lp ≤ b.coin * lp
      → b' ≡ record b { pc = b.pc - pc; coin = b.coin - coin; lp = b.lp - lp }
      → Step b b'
  payout : b' ≡ record b { owed_pc = 0; owed_coin = 0 } → Step b b'

-- Profit is set aside: tokens of either side become owed, at most the owner's part of what the side holds.
pub data Profit (f : Fees) (b b' : Book) : Type 0 where
  profit :
      (pc coin : ℕ)
      → pc * f.pnl_denominator ≤ b.pc * f.pnl_numerator
      → coin * f.pnl_denominator ≤ b.coin * f.pnl_numerator
      → pc ≤ b.pc
      → coin ≤ b.coin
      → b' ≡ record b {
        pc = b.pc - pc;
        coin = b.coin - coin;
        owed_pc = b.owed_pc + pc;
        owed_coin = b.owed_coin + coin;
      }
      → Profit f b b'

-- A sequence of steps during which no profit is set aside.
pub data Steps (b : Book) : Book → Type 0 where
  here : Steps b b
  step : {m b' : Book} → Steps b m → Step m b' → Steps b b'
