-- ===== src/State/AmmInfo/Laws.antt =====
-- The client order ids that the pool of program/src/state.rs hands out, and its first state.
use raydium_amm_mod.Base.{
  ◌+◌, ◌%◌, ◌^◌, ◌<◌, ◌≡◌, ◌≢◌, refl, arith, ◌==◌, ==→≡, ≡→==, Bool-cases, inl, inr,
}
use raydium_amm_mod.State.AmmInfo.{AmmInfo, incr_client_order_id}

-- From a last id in `u64`, the id that is handed out is positive, fits `u64` and differs from the last; it is
-- stored, and nothing else of the account changes.
pub incr_client_order_id_lem :
    (amm : AmmInfo)
    → amm.client_order_id < 2 ^ 64
    → (0 < (incr_client_order_id amm).1)
      × ((incr_client_order_id amm).1 < 2 ^ 64)
      × ((incr_client_order_id amm).1 ≢ amm.client_order_id)
      × ((incr_client_order_id amm).0
          ≡ record amm { client_order_id = (incr_client_order_id amm).1 })
unfolding incr_client_order_id
incr_client_order_id_lem amm h =
    let last = amm.client_order_id in
    elim (Bool-cases (((last + 1) % 2 ^ 64) == 0)) [
      | inl wrapped ↦ rw wrapped (
          let z : (last + 1) % 2 ^ 64 ≡ 0 = ==→≡ ((last + 1) % 2 ^ 64) 0 wrapped in
          (omega arith, omega arith, λ e. absurd (omega arith), refl))
      | inr further ↦ rw further (
          let z : (last + 1) % 2 ^ 64 ≢ 0 = λ e. (let y = ≡→== ((last + 1) % 2 ^ 64) 0 e in cc) in
          (omega arith, omega arith, λ e. absurd (omega arith), refl))
    ]
