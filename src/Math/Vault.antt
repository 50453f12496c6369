-- ===== src/Math/Vault.antt =====
-- program/src/math.rs: what the pool owns. `calc_exact_vault_in_serum` replays the market's event queue
-- on the balances of the pool's open-orders account, and the two `calc_total_without_take_pnl` functions
-- add the vaults and take off the profit that is still to be paid out. `Event` and `EventView` are the
-- part of the market's types that the code reads.
pub mod Laws
use raydium_amm_mod.Base.{
  ℕ, Bool, true, false, Option, none, some, List, [], ◌∷◌, ◌!=◌, if◌then◌else◌,
}
use raydium_amm_mod.Word.{checked_add, checked_sub, words}
use raydium_amm_mod.Error.{AmmError, Result, ok, ◌>>=◌, unwrap, ok_or}
use raydium_amm_mod.Checked.{add, sub}

pub data Side : Type 0 where
  bid : Side
  ask : Side

pub data EventView : Type 0 where
  fill : (side : Side) (maker : Bool) (native_qty_paid native_qty_received : ℕ) → EventView
  out : EventView

-- `owner` is a key; `view` is `as_view()`, `none` where that fails.
pub record Event : Type 0 where
  pub owner : ℕ
  pub view : Option EventView

-- The effect of one of the pool's own events on the pair (pc, coin).
unfoldable pub apply_event : EventView → ℕ × ℕ → Result (ℕ × ℕ)
apply_event (EventView.fill Side.bid true paid received) (pc, coin) = do
  pc' ← sub pc paid
  coin' ← add 64 coin received
  ok (pc', coin')
apply_event (EventView.fill Side.ask true paid received) (pc, coin) = do
  coin' ← sub coin paid
  pc' ← add 64 pc received
  ok (pc', coin')
apply_event _ totals = ok totals

-- The loop over the queue; an event of another owner is passed over.
unfoldable pub replay : ℕ → List Event → ℕ × ℕ → Result (ℕ × ℕ)
replay amm_open_key [] totals = ok totals
replay amm_open_key (event ∷ events) totals =
    let skip = replay amm_open_key events totals in
    let own = (do
      view ← unwrap event.view
      totals' ← apply_event view totals
      replay amm_open_key events totals') in
    if event.owner != amm_open_key then skip else own

-- `event_q` is what `load_event_queue_mut` returns, `none` where it fails.
unfoldable pub calc_exact_vault_in_serum : ℕ → ℕ → Option (List Event) → ℕ → Result (ℕ × ℕ)
unfolding replay apply_event
calc_exact_vault_in_serum native_pc_total native_coin_total event_q amm_open_key = do
  events ← unwrap event_q
  replay amm_open_key events (native_pc_total, native_coin_total)

-- `amount.checked_add(in_serum).ok_or(..)?.checked_sub(need).ok_or(..)?`
unfoldable pub add_less_pnl : ℕ → ℕ → ℕ → Result ℕ
unfolding words
add_less_pnl amount in_serum need_take_pnl = do
  sum ← ok_or (checked_add 64 amount in_serum) AmmError.checked_add_overflow
  ok_or (checked_sub sum need_take_pnl) AmmError.checked_sub_overflow

unfoldable pub calc_total_without_take_pnl :
    ℕ → ℕ → ℕ → ℕ → ℕ → ℕ → Option (List Event) → ℕ → Result (ℕ × ℕ)
unfolding calc_exact_vault_in_serum
calc_total_without_take_pnl pc_amount coin_amount native_pc_total native_coin_total need_take_pnl_pc
      need_take_pnl_coin event_q amm_open_key =
    do
      (pc_in_serum, coin_in_serum) ←
          calc_exact_vault_in_serum native_pc_total native_coin_total event_q amm_open_key
      total_pc ← add_less_pnl pc_amount pc_in_serum need_take_pnl_pc
      total_coin ← add_less_pnl coin_amount coin_in_serum need_take_pnl_coin
      ok (total_pc, total_coin)

unfoldable pub calc_total_without_take_pnl_no_orderbook : ℕ → ℕ → ℕ → ℕ → Result (ℕ × ℕ)
unfolding words
calc_total_without_take_pnl_no_orderbook pc_amount coin_amount need_take_pnl_pc need_take_pnl_coin =
    do
      total_pc ← ok_or (checked_sub pc_amount need_take_pnl_pc) AmmError.checked_sub_overflow
      total_coin ← ok_or (checked_sub coin_amount need_take_pnl_coin) AmmError.checked_sub_overflow
      ok (total_pc, total_coin)
