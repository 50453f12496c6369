-- ===== src/Math/Vault/Laws.antt =====
-- Replaying the event queue conserves what the fills say was paid and received.
use raydium_amm_mod.Base.{
  ℕ, ◌+◌, ◌≡◌, ap, arith, true, none, some, List, [], ◌∷◌, ◌==◌, if◌then◌else◌, inl, inr,
  Bool-cases, Option-cases,
}
use raydium_amm_mod.Error.{ok, ◌>>=◌, >>=-eq-ok, err-ne-ok, ok-injective}
use raydium_amm_mod.Checked.{add, sub}
use raydium_amm_mod.Math.Vault.{
  Side, EventView, Event, apply_event, replay, add_less_pnl, calc_total_without_take_pnl,
}

-- What one event takes from the pc side and from the coin side, and what it brings.
abbrev pub pc_paid : EventView → ℕ
pc_paid (EventView.fill Side.bid true paid received) = paid
pc_paid _ = 0

abbrev pub pc_received : EventView → ℕ
pc_received (EventView.fill Side.ask true paid received) = received
pc_received _ = 0

abbrev pub coin_paid : EventView → ℕ
coin_paid (EventView.fill Side.ask true paid received) = paid
coin_paid _ = 0

abbrev pub coin_received : EventView → ℕ
coin_received (EventView.fill Side.bid true paid received) = received
coin_received _ = 0

-- The sum of a quantity over the events of one owner.
abbrev pub sum_own : (EventView → ℕ) → ℕ → List Event → ℕ
sum_own f key [] = 0
sum_own f key (e ∷ es) =
    (if e.owner == key then elim e.view [ none ↦ 0 | some v ↦ f v ] else 0) + sum_own f key es

apply_event_lem :
    (v : EventView) (pc coin : ℕ) {pc' coin' : ℕ}
    → apply_event v (pc, coin) ≡ ok (pc', coin')
    → (pc' + pc_paid v ≡ pc + pc_received v) × (coin' + coin_paid v ≡ coin + coin_received v)
unfolding apply_event add sub
apply_event_lem (EventView.fill Side.bid true p r) pc coin h = ground arith
apply_event_lem (EventView.fill Side.ask true p r) pc coin h = ground arith
apply_event_lem _ pc coin h = ground arith

-- A run over the queue changes each side by what the pool's own maker fills paid and received.
pub replay_conserves :
    (key : ℕ) (es : List Event) (pc coin : ℕ) {pc' coin' : ℕ}
    → replay key es (pc, coin) ≡ ok (pc', coin')
    → (pc' + sum_own pc_paid key es ≡ pc + sum_own pc_received key es)
      × (coin' + sum_own coin_paid key es ≡ coin + sum_own coin_received key es)
unfolding replay
replay_conserves key [] pc coin h = ground arith
replay_conserves key (e ∷ es) pc coin h = elim (Bool-cases (e.owner == key)) [
  | inr other ↦ rw other (omega (arith, replay_conserves key es pc coin (rw other at h)))
  | inl own ↦ elim (Option-cases e.view) [
    | inl unreadable ↦ absurd (err-ne-ok (rw (own, unreadable) at h))
    | inr (v, seen) ↦
        let h' : (apply_event v (pc, coin) >>= replay key es) ≡ ok _ = rw (own, seen) at h in
        let ((pc₁, coin₁), first, rest) = >>=-eq-ok (apply_event v (pc, coin)) (replay key es) h' in
        rw (own, seen)
          (omega (arith, apply_event_lem v pc coin first, replay_conserves key es pc₁ coin₁ rest))
  ]
]

add_less_pnl_lem :
    (amount in_serum need : ℕ) {total : ℕ}
    → add_less_pnl amount in_serum need ≡ ok total
    → total + need ≡ amount + in_serum
unfolding add_less_pnl
add_less_pnl_lem a b c h = ground arith

-- The totals count every token once: vault, market and fills on one side, the total, the fills' payments
-- and the profit still to be paid out on the other.
pub calc_total_without_take_pnl_conserves :
    (pc_amount coin_amount native_pc native_coin need_pc need_coin : ℕ) (es : List Event) (key : ℕ)
    {total_pc total_coin : ℕ}
    → calc_total_without_take_pnl pc_amount coin_amount native_pc native_coin need_pc need_coin
        (some es)
        key
      ≡ ok (total_pc, total_coin)
    → (total_pc + need_pc + sum_own pc_paid key es
        ≡ pc_amount + native_pc + sum_own pc_received key es)
      × (total_coin + need_coin + sum_own coin_paid key es
          ≡ coin_amount + native_coin + sum_own coin_received key es)
unfolding calc_total_without_take_pnl
calc_total_without_take_pnl_conserves a b c d e f es key h =
    let ((pc', coin'), run, h₁) = >>=-eq-ok (replay key es (c, d)) _ h in
    let (pc, sum_pc, h₂) = >>=-eq-ok (add_less_pnl a pc' e) _ h₁ in
    let (coin, sum_coin, h₃) = >>=-eq-ok (add_less_pnl b coin' f) _ h₂ in
    let same = ok-injective h₃ in
    omega (
      arith,
      replay_conserves key es c d run,
      add_less_pnl_lem a pc' e sum_pc,
      add_less_pnl_lem b coin' f sum_coin,
      ap (λ (p : ℕ × ℕ). p.0) same,
      ap (λ (p : ℕ × ℕ). p.1) same,
    )
