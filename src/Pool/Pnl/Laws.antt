-- ===== src/Pool/Pnl/Laws.antt =====
-- Taking profit moves tokens from the pool's totals to what is owed to its owner, and nothing else.
use raydium_amm_mod.Base.{
  ℕ, ◌+◌, ◌-◌, ◌*◌, ◌^◌, ◌≤◌, ◌<◌, ◌≡◌, inl, inr, refl, arith, Bool-cases, ◌&&◌, leb, leb→le,
  lt→leb, ◌!=◌, if◌then◌else◌,
}
use raydium_amm_mod.Error.{AmmError, ok, err, amm as custom, >>=-eq-ok, ok-injective, err-ne-ok}
use raydium_amm_mod.Checked.{
  add, sub, mul, cast, add-eq-ok, sub-eq-ok, mul-eq-ok, div-eq-ok, cast-eq-ok, mul-ok,
}
use native.Mathlib.Nat.{div-mul-le_self, lt-mul-div-succ, mul-le-mul_right, zero-mul}
use raydium_amm_mod.Math.Decimals.{restore_decimal}
use raydium_amm_mod.Math.Decimals.Laws.{restore_decimal-le}
use raydium_amm_mod.State.Fees.{Fees}
use raydium_amm_mod.State.AmmInfo.{AmmInfo, TargetOrders}
use raydium_amm_mod.Pool.Pnl.{
  PnlResult, reserves_at_last_k, take_pnl, calc_growth, calc_take_pnl, pnl_share,
}

-- The owner's part of a growth, rounded down.
abbrev pub IsShare : Fees → ℕ → ℕ → Type 0
IsShare f grown share =
    (share * f.pnl_denominator ≤ grown * f.pnl_numerator)
    × (grown * f.pnl_numerator < (share + 1) * f.pnl_denominator)

-- One side of a profit: of the growth that the sum of profit records, the owner's part becomes owed. The
-- growth, in the units of the system, is at most what the side holds.
pub record IsProfit (f : Fees) (decimals system held sum sum' owed owed' : ℕ) : Type 0 where
  pub units : 0 < system
  pub sum_grows : sum ≤ sum'
  pub owed_grows : owed ≤ owed'
  pub share : IsShare f (sum' - sum) (owed' - owed)
  pub grown_le : (sum' - sum) * system ≤ held * 10 ^ decimals

-- The tokens of either side are in the total or owed, before as after; `x1` and `y1` are the totals in the
-- units of the system.
pub record Moves (amm : AmmInfo) (total_pc total_coin x1 y1 : ℕ) (r : PnlResult) : Type 0 where
  pub pc_kept :
      r.total_pc + r.amm.state_data.need_take_pnl_pc ≡ total_pc + amm.state_data.need_take_pnl_pc
  pub coin_kept :
      r.total_coin + r.amm.state_data.need_take_pnl_coin
      ≡ total_coin + amm.state_data.need_take_pnl_coin
  pub pc_grows : amm.state_data.need_take_pnl_pc ≤ r.amm.state_data.need_take_pnl_pc
  pub coin_grows : amm.state_data.need_take_pnl_coin ≤ r.amm.state_data.need_take_pnl_coin
  pub pc_profit :
      IsProfit amm.fees amm.pc_decimals amm.sys_decimal_value x1 amm.state_data.total_pnl_pc
        r.amm.state_data.total_pnl_pc amm.state_data.need_take_pnl_pc
        r.amm.state_data.need_take_pnl_pc
  pub coin_profit :
      IsProfit amm.fees amm.coin_decimals amm.sys_decimal_value y1 amm.state_data.total_pnl_coin
        r.amm.state_data.total_pnl_coin amm.state_data.need_take_pnl_coin
        r.amm.state_data.need_take_pnl_coin
  pub kept : r.amm ≡ record amm {
    state_data = record (amm.state_data) {
      total_pnl_pc = r.amm.state_data.total_pnl_pc;
      total_pnl_coin = r.amm.state_data.total_pnl_coin;
      need_take_pnl_pc = r.amm.state_data.need_take_pnl_pc;
      need_take_pnl_coin = r.amm.state_data.need_take_pnl_coin;
    };
  }

-- The growth of one side, of which `share` is the owner's part.
record IsGrowth (f : Fees) (decimals system held grown share : ℕ) : Type 0 where
  some_parts : 0 < f.pnl_denominator
  units : 0 < system
  part : IsShare f grown share
  within : grown * system ≤ held * 10 ^ decimals

pnl_share-IsShare :
    (f : Fees) (diff : ℕ) {share : ℕ}
    → pnl_share f diff ≡ ok share
    → (0 < f.pnl_denominator) × IsShare f diff share
unfolding pnl_share
pnl_share-IsShare f diff h =
    let (scaled, times, h) = >>=-eq-ok (mul 128 diff f.pnl_numerator) _ h in
    let (share_is, pos) = div-eq-ok scaled f.pnl_denominator h in
    let scaled_is = (mul-eq-ok 128 diff f.pnl_numerator times).0 in
    (
      pos,
      rw (share_is, ← scaled_is)
          (div-mul-le_self scaled f.pnl_denominator, omega (arith, lt-mul-div-succ scaled pos)),
    )

side-IsGrowth :
    (f : Fees) (decimals system held grown diff share : ℕ) {pnl : ℕ}
    → grown ≤ held
    → restore_decimal grown decimals system ≡ ok diff
    → pnl_share f diff ≡ ok share
    → cast 64 share ≡ ok pnl
    → IsGrowth f decimals system held diff pnl
side-IsGrowth f decimals system held grown diff share {pnl} le restored shared fits =
    let (pos, part) = pnl_share-IsShare f diff shared in
    let below = restore_decimal-le grown decimals system restored in
    let more = mul-le-mul_right {m = grown} {n = held} (10 ^ decimals) le in
    record {
      some_parts = pos;
      units = below.1;
      part = rw ((cast-eq-ok 64 share fits).0) part;
      within = omega arith;
    }

added-IsProfit :
    (f : Fees) (decimals system held sum owed grown share : ℕ) {sum' owed' : ℕ}
    → IsGrowth f decimals system held grown share
    → sum' ≡ sum + grown
    → owed' ≡ owed + share
    → IsProfit f decimals system held sum sum' owed owed'
added-IsProfit f decimals system held sum owed grown share {sum'} {owed'} g sum_is owed_is =
    let by : sum' - sum ≡ grown = omega arith in
    let by' : owed' - owed ≡ share = omega arith in
    record {
      units = g.units;
      sum_grows = omega arith;
      owed_grows = omega arith;
      share = rw (by, by') g.part;
      grown_le = rw by g.within;
    }

same-IsProfit :
    (f : Fees) (decimals system held sum owed : ℕ)
    → 0 < f.pnl_denominator
    → 0 < system
    → IsProfit f decimals system held sum sum owed owed
same-IsProfit f decimals system held sum owed pos units =
    let nothing : sum - sum ≡ 0 = omega arith in
    let nothing' : owed - owed ≡ 0 = omega arith in
    record {
      units = units;
      sum_grows = omega arith;
      owed_grows = omega arith;
      share =
          rw (nothing, nothing')
            (
              omega (arith, zero-mul f.pnl_denominator, zero-mul f.pnl_numerator),
              omega (arith, zero-mul f.pnl_numerator),
            );
      grown_le = rw nothing (omega (arith, zero-mul system));
    }

take_pnl-Moves :
    (amm : AmmInfo) (total_pc total_coin x1 y1 dx dy diff_pc diff_coin pc_pnl coin_pnl : ℕ)
    {r : PnlResult}
    → IsGrowth amm.fees amm.pc_decimals amm.sys_decimal_value x1 diff_pc pc_pnl
    → IsGrowth amm.fees amm.coin_decimals amm.sys_decimal_value y1 diff_coin coin_pnl
    → take_pnl amm total_pc total_coin dx dy diff_pc diff_coin pc_pnl coin_pnl ≡ ok r
    → Moves amm total_pc total_coin x1 y1 r
unfolding take_pnl
take_pnl-Moves amm total_pc total_coin x1 y1 dx dy diff_pc diff_coin pc_pnl coin_pnl {r} pc_grows
      coin_grows h =
    let (diff_pc', pc_fits, h) = >>=-eq-ok (cast 64 diff_pc) _ h in
    let (_, sum_pc, h) = >>=-eq-ok (add 64 amm.state_data.total_pnl_pc diff_pc') _ h in
    let (diff_coin', coin_fits, h) = >>=-eq-ok (cast 64 diff_coin) _ h in
    let (_, sum_coin, h) = >>=-eq-ok (add 64 amm.state_data.total_pnl_coin diff_coin') _ h in
    let (_, need_pc, h) = >>=-eq-ok (add 64 amm.state_data.need_take_pnl_pc pc_pnl) _ h in
    let (_, need_coin, h) = >>=-eq-ok (add 64 amm.state_data.need_take_pnl_coin coin_pnl) _ h in
    let (_, less_pc, h) = >>=-eq-ok (sub total_pc pc_pnl) _ h in
    let (_, less_coin, h) = >>=-eq-ok (sub total_coin coin_pnl) _ h in
    let same = ok-injective h in
    rw (← same) (
      let e₁ = add-eq-ok 64 amm.state_data.need_take_pnl_pc pc_pnl need_pc in
      let e₂ = add-eq-ok 64 amm.state_data.need_take_pnl_coin coin_pnl need_coin in
      let e₃ = sub-eq-ok total_pc pc_pnl less_pc in
      let e₄ = sub-eq-ok total_coin coin_pnl less_coin in
      let s₁ = add-eq-ok 64 amm.state_data.total_pnl_pc diff_pc' sum_pc in
      let s₂ = add-eq-ok 64 amm.state_data.total_pnl_coin diff_coin' sum_coin in
      let d₁ = cast-eq-ok 64 diff_pc pc_fits in
      let d₂ = cast-eq-ok 64 diff_coin coin_fits in
      record {
        pc_kept = omega arith;
        coin_kept = omega arith;
        pc_profit =
            added-IsProfit amm.fees amm.pc_decimals amm.sys_decimal_value x1
              amm.state_data.total_pnl_pc amm.state_data.need_take_pnl_pc diff_pc pc_pnl pc_grows
              (omega arith) e₁.0;
        coin_profit =
            added-IsProfit amm.fees amm.coin_decimals amm.sys_decimal_value y1
              amm.state_data.total_pnl_coin amm.state_data.need_take_pnl_coin diff_coin coin_pnl
              coin_grows (omega arith) e₂.0;
        pc_grows = omega arith;
        coin_grows = omega arith;
        kept = refl;
      })

growth_at :
    (amm : AmmInfo) (total_pc total_coin x1 y1 dx dy diff_pc diff_coin pc_pnl coin_pnl : ℕ)
    {r : PnlResult}
    → IsGrowth amm.fees amm.pc_decimals amm.sys_decimal_value x1 diff_pc pc_pnl
    → IsGrowth amm.fees amm.coin_decimals amm.sys_decimal_value y1 diff_coin coin_pnl
    → (if pc_pnl != 0 && coin_pnl != 0
        then take_pnl amm total_pc total_coin dx dy diff_pc diff_coin pc_pnl coin_pnl
        else ok (record {
          delta_x = 0;
          delta_y = 0;
          amm = amm;
          total_pc = total_pc;
          total_coin = total_coin;
        }))
      ≡ ok r
    → Moves amm total_pc total_coin x1 y1 r
growth_at amm total_pc total_coin x1 y1 dx dy diff_pc diff_coin pc_pnl coin_pnl pc_grows coin_grows
      h =
    elim (Bool-cases (pc_pnl != 0 && coin_pnl != 0)) [
      | inl some_pnl ↦
          take_pnl-Moves amm total_pc total_coin x1 y1 dx dy diff_pc diff_coin pc_pnl coin_pnl
            pc_grows coin_grows (rw some_pnl at h)
      | inr no_pnl ↦ rw (← ok-injective (rw no_pnl at h)) (record {
        pc_kept = refl;
        coin_kept = refl;
        pc_profit =
            same-IsProfit amm.fees amm.pc_decimals amm.sys_decimal_value x1
              amm.state_data.total_pnl_pc amm.state_data.need_take_pnl_pc pc_grows.some_parts
              pc_grows.units;
        coin_profit =
            same-IsProfit amm.fees amm.coin_decimals amm.sys_decimal_value y1
              amm.state_data.total_pnl_coin amm.state_data.need_take_pnl_coin pc_grows.some_parts
              pc_grows.units;
        pc_grows = omega arith;
        coin_grows = omega arith;
        kept = refl;
      })
    ]

calc_growth-Moves :
    (integer_sqrt : ℕ → ℕ) (target : TargetOrders) (amm : AmmInfo) (total_pc total_coin x1 y1 : ℕ)
    {r : PnlResult}
    → calc_growth integer_sqrt target amm total_pc total_coin x1 y1 ≡ ok r
    → Moves amm total_pc total_coin x1 y1 r
unfolding calc_growth
calc_growth-Moves integer_sqrt target amm total_pc total_coin x1 y1 h =
    let ((x2, y2), _, h) =
      >>=-eq-ok (reserves_at_last_k integer_sqrt target.calc_pnl_x target.calc_pnl_y x1 y1) _ h in
    let (x_grown, less_x, h) = >>=-eq-ok (sub x1 x2) _ h in
    let (diff_x, fits_x, h) = >>=-eq-ok (cast 128 x_grown) _ h in
    let (y_grown, less_y, h) = >>=-eq-ok (sub y1 y2) _ h in
    let (diff_y, fits_y, h) = >>=-eq-ok (cast 128 y_grown) _ h in
    let (delta_x, _, h) = >>=-eq-ok (pnl_share amm.fees diff_x) _ h in
    let (delta_y, _, h) = >>=-eq-ok (pnl_share amm.fees diff_y) _ h in
    let (diff_pc, restored_pc, h) =
      >>=-eq-ok (restore_decimal diff_x amm.pc_decimals amm.sys_decimal_value) _ h in
    let (diff_coin, restored_coin, h) =
      >>=-eq-ok (restore_decimal diff_y amm.coin_decimals amm.sys_decimal_value) _ h in
    let (pc_share, shared_pc, h) = >>=-eq-ok (pnl_share amm.fees diff_pc) _ h in
    let (pc_pnl, fits_pc, h) = >>=-eq-ok (cast 64 pc_share) _ h in
    let (coin_share, shared_coin, h) = >>=-eq-ok (pnl_share amm.fees diff_coin) _ h in
    let (coin_pnl, fits_coin, h) = >>=-eq-ok (cast 64 coin_share) _ h in
    let x_le : diff_x ≤ x1 = omega (arith, sub-eq-ok x1 x2 less_x, cast-eq-ok 128 x_grown fits_x) in
    let y_le : diff_y ≤ y1 = omega (arith, sub-eq-ok y1 y2 less_y, cast-eq-ok 128 y_grown fits_y) in
    growth_at amm total_pc total_coin x1 y1 delta_x delta_y diff_pc diff_coin pc_pnl coin_pnl
      (side-IsGrowth amm.fees amm.pc_decimals amm.sys_decimal_value x1 diff_x diff_pc pc_share x_le
        restored_pc shared_pc fits_pc)
      (side-IsGrowth amm.fees amm.coin_decimals amm.sys_decimal_value y1 diff_y diff_coin coin_share
        y_le restored_coin shared_coin fits_coin)
      h

-- Let the restored amounts of the last profit be computed without a panic, and both products fit 128 bits.
-- Where the product of the totals has fallen below that of the last profit, `calc_take_pnl` refuses;
-- otherwise what it returns has moved tokens of each side from the totals to what is owed, namely the owner's
-- part, rounded down, of the growth that it adds to the sum of profit, which is at most the side's total in
-- the units of the system, and has changed nothing else of the pool's account.
pub calc_take_pnl-Moves :
    (integer_sqrt : ℕ → ℕ) (target : TargetOrders) (amm : AmmInfo) (total_pc total_coin x1 y1 : ℕ)
    {calc_pc calc_coin : ℕ}
    → restore_decimal target.calc_pnl_x amm.pc_decimals amm.sys_decimal_value ≡ ok calc_pc
    → restore_decimal target.calc_pnl_y amm.coin_decimals amm.sys_decimal_value ≡ ok calc_coin
    → total_pc * total_coin < 2 ^ 128
    → calc_pc * calc_coin < 2 ^ 128
    → (total_pc * total_coin < calc_pc * calc_coin
        → calc_take_pnl integer_sqrt target amm total_pc total_coin x1 y1
          ≡ err (custom AmmError.calc_pnl_error))
      × ((r : PnlResult)
          → calc_take_pnl integer_sqrt target amm total_pc total_coin x1 y1 ≡ ok r
          → (calc_pc * calc_coin ≤ total_pc * total_coin) × Moves amm total_pc total_coin x1 y1 r)
unfolding calc_take_pnl
calc_take_pnl-Moves integer_sqrt target amm total_pc total_coin x1 y1 {calc_pc} {calc_coin} e₁ e₂
      fits₁ fits₂ =
    let pool_k = mul-ok 128 total_pc total_coin fits₁ in
    let calc_k = mul-ok 128 calc_pc calc_coin fits₂ in
    (
      λ fallen.
          rw (e₁, e₂, pool_k, calc_k, lt→leb (calc_pc * calc_coin) (total_pc * total_coin) fallen),
      λ r h. elim (Bool-cases (leb (calc_pc * calc_coin) (total_pc * total_coin))) [
        | inl grown ↦ (
          leb→le _ _ grown,
          calc_growth-Moves integer_sqrt target amm total_pc total_coin x1 y1
              (rw (e₁, e₂, pool_k, calc_k, grown) at h),
        )
        | inr fallen ↦ absurd (err-ne-ok (rw (e₁, e₂, pool_k, calc_k, fallen) at h))
      ],
    )

-- The same, without a word on what is refused.
pub calc_take_pnl-eq-ok :
    (integer_sqrt : ℕ → ℕ) (target : TargetOrders) (amm : AmmInfo) (total_pc total_coin x1 y1 : ℕ)
    {r : PnlResult}
    → calc_take_pnl integer_sqrt target amm total_pc total_coin x1 y1 ≡ ok r
    → Moves amm total_pc total_coin x1 y1 r
unfolding calc_take_pnl
calc_take_pnl-eq-ok integer_sqrt target amm total_pc total_coin x1 y1 h =
    let (calc_pc, _, h) =
      >>=-eq-ok (restore_decimal target.calc_pnl_x amm.pc_decimals amm.sys_decimal_value) _ h in
    let (calc_coin, _, h) =
      >>=-eq-ok (restore_decimal target.calc_pnl_y amm.coin_decimals amm.sys_decimal_value) _ h in
    let (pool_k, _, h) = >>=-eq-ok (mul 128 total_pc total_coin) _ h in
    let (calc_k, _, h) = >>=-eq-ok (mul 128 calc_pc calc_coin) _ h in
    elim (Bool-cases (leb calc_k pool_k)) [
      | inl grown ↦
          calc_growth-Moves integer_sqrt target amm total_pc total_coin x1 y1 (rw grown at h)
      | inr fallen ↦ absurd (err-ne-ok (rw fallen at h))
    ]
