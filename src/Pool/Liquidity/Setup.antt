-- ===== src/Pool/Liquidity/Setup.antt =====
-- What the steps that the three instructions share have established when they succeed.
use raydium_amm_mod.Base.{
  inl, inr, ◌⊎◌, ℕ, ◌+◌, ◌-◌, ◌*◌, ◌^◌, ◌≤◌, ◌<◌, ◌≡◌, ◌≢◌, ◌==◌, ◌!=◌, ◌||◌, ◌∙◌, sym, ap, arith,
  false,
}
use raydium_amm_mod.Error.{ok, >>=-eq-ok, ok-injective}
use raydium_amm_mod.Word.{words}
use raydium_amm_mod.Math.Decimals.{normalize_decimal_v2}
use raydium_amm_mod.Math.Decimals.Laws.{normalize_decimal_v2-le}
use raydium_amm_mod.State.Fees.{Fees}
use native.Mathlib.Nat.{le_of_mul-le-mul_right, mul-le-mul_right, zero-mul, le_trans}
use raydium_amm_mod.Math.Vault.{calc_total_without_take_pnl_no_orderbook}
use raydium_amm_mod.State.AmmInfo.{AmmInfo, TargetOrders}
use raydium_amm_mod.Pool.Runtime.{Runtime}
use raydium_amm_mod.Pool.Tokens.{amount_at, SameKeys}
use raydium_amm_mod.Pool.Pnl.{calc_take_pnl}
use raydium_amm_mod.Pool.Pnl.Laws.{IsShare, IsProfit, Moves, calc_take_pnl-eq-ok}
use raydium_amm_mod.Pool.Liquidity.{PoolHoldings, BookKeys, Growth, pool_totals, set_aside}

pub no_orderbook-eq-ok :
    (pc_amount coin_amount need_pc need_coin : ℕ) {total : ℕ × ℕ}
    → calc_total_without_take_pnl_no_orderbook pc_amount coin_amount need_pc need_coin ≡ ok total
    → (total.0 + need_pc ≡ pc_amount) × (total.1 + need_coin ≡ coin_amount)
unfolding calc_total_without_take_pnl_no_orderbook words
no_orderbook-eq-ok pc_amount coin_amount need_pc need_coin e = ground arith

pub pool_totals-eq-ok :
    (r : Runtime) (k : BookKeys) (amm : AmmInfo) (h : PoolHoldings) (l : r.Ledger) {total : ℕ × ℕ}
    → pool_totals r false k amm h l ≡ ok total
    → (total.0 + amm.state_data.need_take_pnl_pc ≡ h.pc_vault.amount)
      × (total.1 + amm.state_data.need_take_pnl_coin ≡ h.coin_vault.amount)
unfolding pool_totals
pool_totals-eq-ok r k amm h l e =
    no_orderbook-eq-ok h.pc_vault.amount h.coin_vault.amount amm.state_data.need_take_pnl_pc
      amm.state_data.need_take_pnl_coin e

pub set_aside-Moves :
    (r : Runtime) (target : TargetOrders) (amm : AmmInfo) (total_pc total_coin : ℕ) {g : Growth}
    → set_aside r target amm total_pc total_coin ≡ ok g
    → Moves amm total_pc total_coin g.x1 g.y1 g.pnl
      × (g.x1 * 10 ^ amm.pc_decimals ≤ total_pc * amm.sys_decimal_value)
      × (g.y1 * 10 ^ amm.coin_decimals ≤ total_coin * amm.sys_decimal_value)
unfolding set_aside
set_aside-Moves r target amm total_pc total_coin e =
    let (x1, x_units, e) =
      >>=-eq-ok (normalize_decimal_v2 total_pc amm.pc_decimals amm.sys_decimal_value) _ e in
    let (y1, y_units, e) =
      >>=-eq-ok (normalize_decimal_v2 total_coin amm.coin_decimals amm.sys_decimal_value) _ e in
    let (pnl, moved, e) =
      >>=-eq-ok (calc_take_pnl r.integer_sqrt target amm total_pc total_coin x1 y1) _ e in
    rw (← ok-injective e) (
      calc_take_pnl-eq-ok r.integer_sqrt target amm total_pc total_coin x1 y1 moved,
      normalize_decimal_v2-le total_pc amm.pc_decimals amm.sys_decimal_value x_units,
      normalize_decimal_v2-le total_coin amm.coin_decimals amm.sys_decimal_value y_units,
    )

-- A growth of at most `held` is added to the sum of profit, and the owner's part of it, rounded down, to what
-- is owed.
pub record TakesShare (f : Fees) (held sum sum' owed owed' : ℕ) : Type 0 where
  pub sum_grows : sum ≤ sum'
  pub grown_le : sum' - sum ≤ held
  pub owed_grows : owed ≤ owed'
  pub share : IsShare f (sum' - sum) (owed' - owed)

-- Profit taken on one side, which holds `held`, or none.
abbrev pub IsTaken : Fees → (held sum sum' owed owed' : ℕ) → Type 0
IsTaken f held sum sum' owed owed' =
    ((sum' ≡ sum) × (owed' ≡ owed)) ⊎ TakesShare f held sum sum' owed owed'

IsProfit-IsTaken :
    (f : Fees) (decimals system units held sum sum' owed owed' : ℕ)
    → units * 10 ^ decimals ≤ held * system
    → IsProfit f decimals system units sum sum' owed owed'
    → IsTaken f held sum sum' owed owed'
IsProfit-IsTaken f decimals system units held sum sum' owed owed' le p = inr (record {
  sum_grows = p.sum_grows;
  grown_le =
      le_of_mul-le-mul_right {m = sum' - sum} {n = held} {k = system} (le_trans p.grown_le le)
        p.units;
  owed_grows = p.owed_grows;
  share = p.share;
})

pub IsTaken-grows :
    {f : Fees} {held sum sum' owed owed' : ℕ} → IsTaken f held sum sum' owed owed' → owed ≤ owed'
IsTaken-grows (inl (_, same)) = omega arith
IsTaken-grows (inr t) = t.owed_grows

-- What becomes owed is at most the owner's part of what the side holds.
pub IsTaken-le :
    (f : Fees) (held sum sum' owed owed' : ℕ)
    → IsTaken f held sum sum' owed owed'
    → (owed' - owed) * f.pnl_denominator ≤ held * f.pnl_numerator
IsTaken-le f held sum sum' owed owed' (inl (_, same)) =
    let nothing : owed' - owed ≡ 0 = omega arith in
    rw nothing (omega (arith, zero-mul f.pnl_denominator))
IsTaken-le f held sum sum' owed owed' (inr t) =
    le_trans t.share.0 (mul-le-mul_right {m = sum' - sum} {n = held} f.pnl_numerator t.grown_le)

-- The profit of the owner, set aside: the keys are kept, and what is owed is covered by the vaults, which
-- hold it and the totals.
pub record IsAside (r : Runtime) (l : r.Ledger) (amm : AmmInfo) (g : Growth) : Type 0 where
  pub moves_kept : g.pnl.amm ≡ record amm {
    state_data = record (amm.state_data) {
      total_pnl_pc = g.pnl.amm.state_data.total_pnl_pc;
      total_pnl_coin = g.pnl.amm.state_data.total_pnl_coin;
      need_take_pnl_pc = g.pnl.amm.state_data.need_take_pnl_pc;
      need_take_pnl_coin = g.pnl.amm.state_data.need_take_pnl_coin;
    };
  }
  pub pc_aside : amm.state_data.need_take_pnl_pc ≤ g.pnl.amm.state_data.need_take_pnl_pc
  pub coin_aside : amm.state_data.need_take_pnl_coin ≤ g.pnl.amm.state_data.need_take_pnl_coin
  pub pc_taken :
      IsTaken amm.fees
        (amount_at r l amm.pc_vault - amm.state_data.need_take_pnl_pc)
        amm.state_data.total_pnl_pc
        g.pnl.amm.state_data.total_pnl_pc
        amm.state_data.need_take_pnl_pc
        g.pnl.amm.state_data.need_take_pnl_pc
  pub coin_taken :
      IsTaken amm.fees
        (amount_at r l amm.coin_vault - amm.state_data.need_take_pnl_coin)
        amm.state_data.total_pnl_coin
        g.pnl.amm.state_data.total_pnl_coin
        amm.state_data.need_take_pnl_coin
        g.pnl.amm.state_data.need_take_pnl_coin
  pub pc_is : g.pnl.total_pc + g.pnl.amm.state_data.need_take_pnl_pc ≡ amount_at r l amm.pc_vault
  pub coin_is :
      g.pnl.total_coin + g.pnl.amm.state_data.need_take_pnl_coin ≡ amount_at r l amm.coin_vault

pub Moves-IsAside :
    (r : Runtime) (l : r.Ledger) (amm : AmmInfo) (total_pc total_coin : ℕ) (g : Growth)
    → total_pc + amm.state_data.need_take_pnl_pc ≡ amount_at r l amm.pc_vault
    → total_coin + amm.state_data.need_take_pnl_coin ≡ amount_at r l amm.coin_vault
    → Moves amm total_pc total_coin g.x1 g.y1 g.pnl
      × (g.x1 * 10 ^ amm.pc_decimals ≤ total_pc * amm.sys_decimal_value)
      × (g.y1 * 10 ^ amm.coin_decimals ≤ total_coin * amm.sys_decimal_value)
    → IsAside r l amm g
Moves-IsAside r l amm total_pc total_coin g pc_is coin_is (m, x_units, y_units) =
    let free_pc : total_pc ≡ amount_at r l amm.pc_vault - amm.state_data.need_take_pnl_pc =
      omega arith in
    let free_coin : total_coin ≡ amount_at r l amm.coin_vault - amm.state_data.need_take_pnl_coin =
      omega arith in
    let d = g.pnl.amm.state_data in
    record {
      pc_taken = rw (← free_pc) (
          IsProfit-IsTaken amm.fees amm.pc_decimals amm.sys_decimal_value g.x1 total_pc
            amm.state_data.total_pnl_pc d.total_pnl_pc amm.state_data.need_take_pnl_pc
            d.need_take_pnl_pc x_units m.pc_profit);
      coin_taken = rw (← free_coin) (
          IsProfit-IsTaken amm.fees amm.coin_decimals amm.sys_decimal_value g.y1 total_coin
            amm.state_data.total_pnl_coin d.total_pnl_coin amm.state_data.need_take_pnl_coin
            d.need_take_pnl_coin y_units m.coin_profit);
      moves_kept = m.kept;
      pc_aside = m.pc_grows;
      coin_aside = m.coin_grows;
      pc_is = m.pc_kept ∙ pc_is;
      coin_is = m.coin_kept ∙ coin_is;
    }

module _ (r : Runtime) (l : r.Ledger) (amm : AmmInfo) (g : Growth) where
  pub IsAside-SameKeys : IsAside r l amm g → SameKeys amm g.pnl.amm
  IsAside-SameKeys s = record {
    coin_vault = ap (λ (x : AmmInfo). x.coin_vault) s.moves_kept;
    pc_vault = ap (λ (x : AmmInfo). x.pc_vault) s.moves_kept;
    coin_vault_mint = ap (λ (x : AmmInfo). x.coin_vault_mint) s.moves_kept;
    pc_vault_mint = ap (λ (x : AmmInfo). x.pc_vault_mint) s.moves_kept;
    lp_mint = ap (λ (x : AmmInfo). x.lp_mint) s.moves_kept;
  }

  pub IsAside-lp : IsAside r l amm g → g.pnl.amm.lp_amount ≡ amm.lp_amount
  IsAside-lp s = ap (λ (x : AmmInfo). x.lp_amount) s.moves_kept

-- What a deposit or a withdrawal may change of the pool's account.
abbrev pub SharesKept : AmmInfo → AmmInfo → Type 0
SharesKept amm amm' = amm' ≡ record amm {
  lp_amount = amm'.lp_amount;
  recent_epoch = amm'.recent_epoch;
  state_data = record (amm.state_data) {
    total_pnl_pc = amm'.state_data.total_pnl_pc;
    total_pnl_coin = amm'.state_data.total_pnl_coin;
    need_take_pnl_pc = amm'.state_data.need_take_pnl_pc;
    need_take_pnl_coin = amm'.state_data.need_take_pnl_coin;
  };
}

pub SharesKept-SameKeys : (amm amm' : AmmInfo) → SharesKept amm amm' → SameKeys amm amm'
SharesKept-SameKeys amm amm' kept = record {
  coin_vault = ap (λ (x : AmmInfo). x.coin_vault) kept;
  pc_vault = ap (λ (x : AmmInfo). x.pc_vault) kept;
  coin_vault_mint = ap (λ (x : AmmInfo). x.coin_vault_mint) kept;
  pc_vault_mint = ap (λ (x : AmmInfo). x.pc_vault_mint) kept;
  lp_mint = ap (λ (x : AmmInfo). x.lp_mint) kept;
}

pub shares-SameKeys :
    (mid : AmmInfo) (lp : ℕ) {amm' : AmmInfo}
    → amm' ≡ record mid { lp_amount = lp; recent_epoch = amm'.recent_epoch }
    → SameKeys mid amm'
shares-SameKeys mid lp same = record {
  coin_vault = ap (λ (x : AmmInfo). x.coin_vault) same;
  pc_vault = ap (λ (x : AmmInfo). x.pc_vault) same;
  coin_vault_mint = ap (λ (x : AmmInfo). x.coin_vault_mint) same;
  pc_vault_mint = ap (λ (x : AmmInfo). x.pc_vault_mint) same;
  lp_mint = ap (λ (x : AmmInfo). x.lp_mint) same;
}

-- New shares on the account with the profit set aside.
pub shares-SharesKept :
    (r : Runtime) (l : r.Ledger) (amm : AmmInfo) (g : Growth) (lp : ℕ) {amm' : AmmInfo}
    → IsAside r l amm g
    → amm' ≡ record (g.pnl.amm) { lp_amount = lp; recent_epoch = amm'.recent_epoch }
    → SharesKept amm amm'
shares-SharesKept r l amm g lp {amm'} s same =
    same
    ∙ ap (λ (x : AmmInfo). record x { lp_amount = lp; recent_epoch = amm'.recent_epoch })
        s.moves_kept
    ∙ ap
        (λ (x : AmmInfo). record amm {
          lp_amount = x.lp_amount;
          recent_epoch = amm'.recent_epoch;
          state_data = record (amm.state_data) {
            total_pnl_pc = x.state_data.total_pnl_pc;
            total_pnl_coin = x.state_data.total_pnl_coin;
            need_take_pnl_pc = x.state_data.need_take_pnl_pc;
            need_take_pnl_coin = x.state_data.need_take_pnl_coin;
          };
        })
        (sym same)

-- The accounts that the checks let through, by their keys: the vaults and the shares are the pool's, the
-- user's accounts are not the vaults, and the vaults hold what was read.
pub record IsChecked (r : Runtime) (l : r.Ledger) (coin_vault pc_vault lp user_coin user_pc : ℕ)
    (amm : AmmInfo) (h : PoolHoldings) : Type 0 where
  pub coin_key : coin_vault ≡ amm.coin_vault
  pub pc_key : pc_vault ≡ amm.pc_vault
  pub lp_key : lp ≡ amm.lp_mint
  pub not_coin : user_coin ≢ amm.coin_vault
  pub not_pc : user_pc ≢ amm.pc_vault
  pub coin_amount : amount_at r l amm.coin_vault ≡ h.coin_vault.amount
  pub pc_amount : amount_at r l amm.pc_vault ≡ h.pc_vault.amount

module _ (r : Runtime) (l : r.Ledger) (coin_vault pc_vault lp user_coin user_pc : ℕ) where
  pub IsChecked-at :
      (amm : AmmInfo) {h h' : PoolHoldings}
      → h ≡ h'
      → IsChecked r l coin_vault pc_vault lp user_coin user_pc amm h
      → IsChecked r l coin_vault pc_vault lp user_coin user_pc amm h'
  IsChecked-at amm same c = rw (← same) c

  -- The same, for an account that names the same vaults.
  pub IsChecked-keys :
      (amm amm' : AmmInfo) (h : PoolHoldings)
      → SameKeys amm amm'
      → IsChecked r l coin_vault pc_vault lp user_coin user_pc amm h
      → IsChecked r l coin_vault pc_vault lp user_coin user_pc amm' h
  IsChecked-keys amm amm' h k c = record {
    coin_key = c.coin_key ∙ sym k.coin_vault;
    pc_key = c.pc_key ∙ sym k.pc_vault;
    lp_key = c.lp_key ∙ sym k.lp_mint;
    not_coin = λ e. c.not_coin (e ∙ k.coin_vault);
    not_pc = λ e. c.not_pc (e ∙ k.pc_vault);
    coin_amount = ap (amount_at r l) k.coin_vault ∙ c.coin_amount;
    pc_amount = ap (amount_at r l) k.pc_vault ∙ c.pc_amount;
  }

pub vault_keys :
    (k vault user : ℕ) → (k != vault || user == vault) ≡ false → (k ≡ vault) × (user ≢ vault)
vault_keys k vault user h = (ground arith, λ e. ground arith)

pub three_nonzero : (a b c : ℕ) → (a == 0 || b == 0 || c == 0) ≡ false → (0 < a) × (0 < b) × (0 < c)
three_nonzero a b c h = (ground arith, ground arith, ground arith)
