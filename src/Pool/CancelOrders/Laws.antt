-- ===== src/Pool/CancelOrders/Laws.antt =====
-- The one array of `do_cancel_amm_orders`, program/src/processor.rs, is never written past its end.
use raydium_amm_mod.Base.{
  ℕ, ◌+◌, ◌<◌, ◌≡◌, refl, arith, false, List, [], ◌∷◌, ◌++◌, lt→ltb, ◌==◌, ≢→==, ==→≡, Bool-cases,
  inl, inr, ap, sym, ◌∙◌, ◌%◌, map, true, some,
}
use raydium_amm_mod.Error.{Result, ok, ok-injective, ◌>>=◌, >>=-eq-ok}
use raydium_amm_mod.State.AmmInfo.{AmmInfo}
use raydium_amm_mod.Pool.Runtime.{
  Runtime, Instruction, MarketState, OpenOrders, LeafNode, Slab, Cancellation,
}
use raydium_amm_mod.Pool.Orders.{
  order_batches, load_serum_market_order, get_amm_orders, cancel_batches,
}
use raydium_amm_mod.Pool.Orders.Own.{IsSide, BestBid, BestAsk, get_amm_orders-IsSide}
use raydium_amm_mod.Pool.Orders.Batches.{Cancels, order_batches-Cancels}
use raydium_amm_mod.Pool.CancelOrders.{put_id, end_round, both_batches, do_cancel_amm_orders}

-- The best bid, the best ask, the next bid, and so on, to the end of the longer side.
abbrev pub interleave : List ℕ → List ℕ → List ℕ
interleave [] asks = asks
interleave (bid ∷ bids) [] = bid ∷ bids
interleave (bid ∷ bids) (ask ∷ asks) = bid ∷ ask ∷ interleave bids asks

put_id-lt :
    (id : ℕ) (order_ids : List ℕ) (count : ℕ)
    → count < 8
    → put_id id order_ids count ≡ ok (order_ids ++ (id ∷ []), count + 1)
unfolding put_id
put_id-lt id order_ids count lt = rw (lt→ltb count 8 lt)

-- A round of one id, where the rounds to come are those of `order_batches`.
one_round :
    (rounds : List ℕ → ℕ → Result (List (List ℕ))) (id : ℕ) (ids order_ids : List ℕ) (count : ℕ)
    → count < 8
    → ((kept : List ℕ) (n : ℕ) → n < 8 → rounds kept n ≡ ok (order_batches ids kept n))
    → (put_id id order_ids count >>= λ (order_ids', count'). end_round rounds order_ids' count')
      ≡ ok (order_batches (id ∷ ids) order_ids count)
unfolding end_round order_batches
one_round rounds id ids order_ids count lt rest = elim (Bool-cases ((count + 1) == 8)) [
  | inl full ↦ rw (put_id-lt id order_ids count lt, full, rest [] 0 (omega arith))
  | inr room ↦ rw (
    put_id-lt id order_ids count lt,
    room,
    rest (order_ids ++ (id ∷ [])) (count + 1) (let apart = ==→≡ (count + 1) 8 in ground arith),
  )
]

bids_batches :
    (bids order_ids : List ℕ) (count : ℕ)
    → count < 8
    → both_batches bids [] order_ids count ≡ ok (order_batches bids order_ids count)
unfolding both_batches
bids_batches [] order_ids count lt = unfold order_batches in refl
bids_batches (bid ∷ bids) order_ids count lt =
    one_round (both_batches bids []) bid bids order_ids count lt (bids_batches bids)

asks_batches :
    (asks order_ids : List ℕ) (count : ℕ)
    → count < 8
    → both_batches [] asks order_ids count ≡ ok (order_batches asks order_ids count)
unfolding both_batches
asks_batches [] order_ids count lt = unfold order_batches in refl
asks_batches (ask ∷ asks) order_ids count lt =
    one_round (both_batches [] asks) ask asks order_ids count lt (asks_batches asks)

-- While both sides last, the array holds an even number of ids.
even_batches :
    (bids asks order_ids : List ℕ) (count half : ℕ)
    → count ≡ half + half
    → half < 4
    → both_batches bids asks order_ids count
      ≡ ok (order_batches (interleave bids asks) order_ids count)
unfolding both_batches end_round order_batches
even_batches [] asks order_ids count half e lt = asks_batches asks order_ids count (omega arith)
even_batches (bid ∷ bids) [] order_ids count half e lt =
    bids_batches (bid ∷ bids) order_ids count (omega arith)
even_batches (bid ∷ bids) (ask ∷ asks) order_ids count half e lt =
    let order_ids' = order_ids ++ (bid ∷ []) in
    let first = put_id-lt bid order_ids count (omega arith) in
    let second = put_id-lt ask order_ids' (count + 1) (omega arith) in
    let odd : ((count + 1) == 8) ≡ false = ≢→== (count + 1) 8 (λ z. omega arith) in
    elim (Bool-cases ((count + 1 + 1) == 8)) [
      | inl full ↦ rw (first, second, odd, full, even_batches bids asks [] 0 0 refl (omega arith))
      | inr room ↦ rw (
        first,
        second,
        odd,
        room,
        even_batches bids asks (order_ids' ++ (ask ∷ [])) (count + 1 + 1) (half + 1) (omega arith)
            (let apart = ==→≡ (count + 1 + 1) 8 in ground arith),
      )
    ]

-- However many orders either side has, the one array is never written past its end, and the batches hold
-- the ids of both sides once, the best of either side first, in arrays of eight with fewer than eight zeros
-- at the end.
pub both_batches-Cancels :
    (bids asks : List ℕ)
    → (batches : List (List ℕ)) × (both_batches bids asks [] 0 ≡ ok batches)
      × Cancels (interleave bids asks) batches
both_batches-Cancels bids asks = (
  order_batches (interleave bids asks) [] 0,
  even_batches bids asks [] 0 0 refl (omega arith),
  order_batches-Cancels (interleave bids asks),
)

-- One call of the market's program for each batch, in order, signed for the pool.
abbrev pub Sends : (r : Runtime) → Cancellation → ℕ → List (List ℕ) → r.Ledger → r.Ledger → Type 0
Sends r accounts nonce [] l l' = l ≡ l'
Sends r accounts nonce (ids ∷ batches) l l' =
    (m : r.Ledger) × (r.invoke_signed
        (Instruction.cancel_orders (record accounts { client_order_ids = ids })) (some nonce) l
      ≡ ok m)
    × Sends r accounts nonce batches m l'

cancel_batches-Sends :
    (r : Runtime) (accounts : Cancellation) (nonce : ℕ) (batches : List (List ℕ)) (l : r.Ledger)
    {l' : r.Ledger}
    → cancel_batches r accounts nonce batches l ≡ ok l'
    → Sends r accounts nonce batches l l'
unfolding cancel_batches
cancel_batches-Sends r accounts nonce [] l h = ok-injective h
cancel_batches-Sends r accounts nonce (ids ∷ batches) l h =
    let (m, sent, h) =
      >>=-eq-ok
        (r.invoke_signed (Instruction.cancel_orders (record accounts { client_order_ids = ids }))
          (some nonce) l)
        _ h in
    (m, sent, cancel_batches-Sends r accounts nonce batches m h)

-- `after` is the ledger once the ids of exactly the pool's own orders in the market have been sent to be
-- cancelled, the best of either side first, in arrays of eight.
pub record CancelsOwn (r : Runtime) (amm : AmmInfo) (accounts : Cancellation)
    (before after : r.Ledger) : Type 0 where
  pub market_state : MarketState
  pub open_orders : OpenOrders
  pub loaded :
      load_serum_market_order r before accounts.market accounts.open_orders
        accounts.open_orders_owner amm false
      ≡ ok (market_state, open_orders)
  pub bids : Slab
  pub asks : Slab
  pub bids_loaded : r.load_bids_checked before market_state accounts.bids ≡ ok bids
  pub asks_loaded : r.load_asks_checked before market_state accounts.asks ≡ ok asks
  pub bid_orders : List LeafNode
  pub ask_orders : List LeafNode
  pub own_bids : IsSide BestBid open_orders bids true bid_orders
  pub own_asks : IsSide BestAsk open_orders asks false ask_orders
  pub batches : List (List ℕ)
  pub cancels :
      Cancels
        (interleave
          (map (λ o. o.client_order_id) bid_orders)
          (map (λ o. o.client_order_id) ask_orders))
        batches
  pub sent : Sends r accounts (amm.nonce % 256) batches before after

pub do_cancel_amm_orders-CancelsOwn :
    (r : Runtime) (amm : AmmInfo) (accounts : Cancellation) (l : r.Ledger) {l' : r.Ledger}
    → do_cancel_amm_orders r amm accounts l ≡ ok l'
    → CancelsOwn r amm accounts l l'
unfolding do_cancel_amm_orders
do_cancel_amm_orders-CancelsOwn r amm accounts l h =
    let ((market_state, open_orders), loaded, h) =
      >>=-eq-ok
        (load_serum_market_order r l accounts.market accounts.open_orders accounts.open_orders_owner
          amm false)
        _ h in
    let (bids, bids_loaded, h) = >>=-eq-ok (r.load_bids_checked l market_state accounts.bids) _ h in
    let (asks, asks_loaded, h) = >>=-eq-ok (r.load_asks_checked l market_state accounts.asks) _ h in
    let found = get_amm_orders open_orders bids asks in
    let sides = get_amm_orders-IsSide open_orders bids asks in
    let bid_ids = map (λ (o : LeafNode). o.client_order_id) found.0 in
    let ask_ids = map (λ (o : LeafNode). o.client_order_id) found.1 in
    let (sent_batches, are, sent) = >>=-eq-ok (both_batches bid_ids ask_ids [] 0) _ h in
    let (batches, equal, cancels) = both_batches-Cancels bid_ids ask_ids in
    record {
      market_state = market_state;
      open_orders = open_orders;
      loaded = loaded;
      bids = bids;
      asks = asks;
      bids_loaded = bids_loaded;
      asks_loaded = asks_loaded;
      bid_orders = found.0;
      ask_orders = found.1;
      own_bids = sides.0;
      own_asks = sides.1;
      batches = batches;
      cancels = cancels;
      sent = cancel_batches-Sends r accounts (amm.nonce % 256) batches l (
          ap (λ (b : List (List ℕ)). cancel_batches r accounts (amm.nonce % 256) b l)
            (ok-injective (sym equal ∙ are))
          ∙ sent);
    }
