-- ===== src/Pool/Orders.antt =====
-- program/src/processor.rs: the pool's own orders in the market (`load_serum_market_order`,
-- `get_amm_orders`) and their cancellation in batches of eight.
pub mod Batches
pub mod Own
use raydium_amm_mod.Base.{
  ℕ, zero, suc, ◌+◌, ◌/◌, ◌%◌, ◌^◌, Bool, true, false, Option, none, some, List, [], ◌∷◌, ◌++◌, ltb,
  ◌==◌, ◌!=◌, if◌then◌else◌, map,
}
use raydium_amm_mod.Error.{AmmError, Result, ok, err, amm as custom, ◌>>=◌, ◌>>◌, fail_if, require}
use raydium_amm_mod.State.AmmInfo.{AmmInfo}
use raydium_amm_mod.Pool.Runtime.{
  Runtime, MarketState, OpenOrders, LeafNode, Slab, Cancellation, Instruction,
}

unfoldable pub load_serum_market_order :
    (r : Runtime) → r.Ledger → ℕ → ℕ → ℕ → AmmInfo → Bool → Result (MarketState × OpenOrders)
load_serum_market_order r ledger market_key open_orders_key authority_key amm allow_disabled = do
  market_state ← r.load_market ledger market_key amm.market_program allow_disabled
  open_orders ←
      r.load_open_orders ledger open_orders_key market_key authority_key amm.market_program
  fail_if (open_orders.market != market_key) AmmError.invalid_market
  fail_if (open_orders.owner != authority_key) AmmError.invalid_owner
  fail_if (open_orders_key != amm.open_orders) AmmError.invalid_open_orders
  ok (market_state, open_orders)

abbrev pub bit : ℕ → ℕ → Bool
bit bits i = (bits / 2 ^ i) % 2 == 1

-- `u128::count_zeros` over the `n` low bits.
abbrev pub count_zeros : ℕ → ℕ → ℕ
count_zeros zero bits = 0
count_zeros (suc n) bits = (if bits % 2 == 0 then 1 else 0) + count_zeros n (bits / 2)

-- The stable sort of `sort_by`: an element goes behind all that are not after it.
unfoldable pub insert_by : (LeafNode → LeafNode → Bool) → LeafNode → List LeafNode → List LeafNode
insert_by before x [] = x ∷ []
insert_by before x (y ∷ ys) = if before x y then x ∷ (y ∷ ys) else y ∷ insert_by before x ys

unfoldable pub sort_onto :
    (LeafNode → LeafNode → Bool) → List LeafNode → List LeafNode → List LeafNode
sort_onto before sorted [] = sorted
sort_onto before sorted (x ∷ xs) = sort_onto before (insert_by before x sorted) xs

abbrev pub push_found : Option LeafNode → List LeafNode → List LeafNode
push_found none found = found
push_found (some leaf) found = found ++ (leaf ∷ [])

-- `for i in 0..128`, with `left` slots to go, on the orders found so far.
unfoldable pub collect_orders :
    OpenOrders → Slab → Slab → ℕ → ℕ → List LeafNode → List LeafNode → List LeafNode × List LeafNode
collect_orders open_orders bids asks zero i bid_orders ask_orders = (bid_orders, ask_orders)
collect_orders open_orders bids asks (suc left) i bid_orders ask_orders =
    let occupied = if bit open_orders.free_slot_bits i then false else true in
    let is_bid = bit open_orders.is_bid_bits i in
    let key = open_orders.orders i in
    collect_orders open_orders bids asks left (i + 1)
      (if occupied
        then (if is_bid then push_found (bids key) bid_orders else bid_orders)
        else bid_orders)
      (if occupied
        then (if is_bid then ask_orders else push_found (asks key) ask_orders)
        else ask_orders)

unfoldable pub get_amm_orders : OpenOrders → Slab → Slab → List LeafNode × List LeafNode
unfolding collect_orders sort_onto insert_by
get_amm_orders open_orders bids asks =
    let found = collect_orders open_orders bids asks 128 0 [] [] in
    let (bid_orders, ask_orders) =
      if count_zeros 128 open_orders.free_slot_bits == 0 then ([], []) else found in
    (
      sort_onto (λ a b. ltb b.price a.price) [] bid_orders,
      sort_onto (λ a b. ltb a.price b.price) [] ask_orders,
    )

-- The array `[0u64; 8]` with its first places filled.
abbrev pub zeros : ℕ → List ℕ
zeros zero = []
zeros (suc n) = 0 ∷ zeros n

abbrev pub pad : ℕ → List ℕ → List ℕ
pad zero ids = []
pad (suc n) [] = 0 ∷ pad n []
pad (suc n) (id ∷ ids) = id ∷ pad n ids

-- `order_ids` holds `count` ids; a full array is pushed and begun anew, and a partial one at the end.
unfoldable pub order_batches : List ℕ → List ℕ → ℕ → List (List ℕ)
order_batches [] order_ids count = if count != 0 then pad 8 order_ids ∷ [] else []
order_batches (id ∷ ids) order_ids count =
    let filled = order_ids ++ (id ∷ []) in
    let pushed = pad 8 filled ∷ order_batches ids [] 0 in
    let kept = order_batches ids filled (count + 1) in if count + 1 == 8 then pushed else kept

module _ (r : Runtime) where
  open r use {Ledger, invoke_signed}

  -- One `invoke_dex_cancel_orders_by_client_order_ids` for each batch.
  unfoldable pub cancel_batches : Cancellation → ℕ → List (List ℕ) → Ledger → Result Ledger
  cancel_batches accounts nonce [] ledger = ok ledger
  cancel_batches accounts nonce (ids ∷ batches) ledger =
      invoke_signed (Instruction.cancel_orders (record accounts { client_order_ids = ids }))
        (some nonce) ledger
      >>= cancel_batches accounts nonce batches
