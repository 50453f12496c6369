-- ===== src/Pool/CancelOrders.antt =====
-- program/src/processor.rs: `Processor::do_cancel_amm_orders`, which cancels all of the pool's own orders,
-- the best of either side first, through one array of eight ids.
pub mod Laws
use raydium_amm_mod.Base.{
  ℕ, ◌+◌, ◌%◌, List, [], ◌∷◌, ◌++◌, ltb, ◌==◌, ◌!=◌, false, if◌then◌else◌, map,
}
use raydium_amm_mod.Error.{Result, ok, err, panicked, ◌>>=◌}
use raydium_amm_mod.State.AmmInfo.{AmmInfo}
use raydium_amm_mod.Pool.Runtime.{Runtime, LeafNode, Cancellation}
use raydium_amm_mod.Pool.Orders.{pad, load_serum_market_order, get_amm_orders, cancel_batches}

-- `order_ids[count] = id; count += 1`: a write past the array panics.
unfoldable pub put_id : ℕ → List ℕ → ℕ → Result (List ℕ × ℕ)
put_id id order_ids count =
    if ltb count 8 then ok (order_ids ++ (id ∷ []), count + 1) else err panicked

-- The end of a round, before the rounds to come: a full array is pushed and begun anew.
unfoldable pub end_round :
    (List ℕ → ℕ → Result (List (List ℕ))) → List ℕ → ℕ → Result (List (List ℕ))
end_round rounds order_ids count =
    if count == 8
    then rounds [] 0 >>= (λ batches. ok (pad 8 order_ids ∷ batches))
    else rounds order_ids count

-- `for i in 0..max(bids.len(), asks.len())`, on the ids of the orders from `i` on.
unfoldable pub both_batches : List ℕ → List ℕ → List ℕ → ℕ → Result (List (List ℕ))
both_batches [] [] order_ids count = ok (if count != 0 then pad 8 order_ids ∷ [] else [])
both_batches (bid ∷ bids) [] order_ids count = do
  (order_ids, count) ← put_id bid order_ids count
  end_round (both_batches bids []) order_ids count
both_batches [] (ask ∷ asks) order_ids count = do
  (order_ids, count) ← put_id ask order_ids count
  end_round (both_batches [] asks) order_ids count
both_batches (bid ∷ bids) (ask ∷ asks) order_ids count = do
  (order_ids, count) ← put_id bid order_ids count
  (order_ids, count) ← put_id ask order_ids count
  end_round (both_batches bids asks) order_ids count

-- `accounts` names the accounts of the cancellation, and the pool's authority as its owner.
unfoldable pub do_cancel_amm_orders :
    (r : Runtime) → AmmInfo → Cancellation → r.Ledger → Result r.Ledger
unfolding both_batches end_round put_id
do_cancel_amm_orders r amm accounts ledger = do
  (market_state, open_orders) ←
      load_serum_market_order r ledger accounts.market accounts.open_orders
        accounts.open_orders_owner amm false
  bids_orders ← r.load_bids_checked ledger market_state accounts.bids
  asks_orders ← r.load_asks_checked ledger market_state accounts.asks
  let found = get_amm_orders open_orders bids_orders asks_orders
  batches ←
      both_batches (map (λ o. o.client_order_id) found.0) (map (λ o. o.client_order_id) found.1) []
        0
  cancel_batches r accounts (amm.nonce % 256) batches ledger
