-- ===== src/Pool/Orders/Own.antt =====
-- The orders that `get_amm_orders` of program/src/processor.rs finds are the pool's own, the best first.
use native.Mathlib.Nat.{div-div-eq-div-mul, pow-succ', le_trans}
use mathlib.Core.List.{Perm, perm_middle, append_assoc, append-nil}
use mathlib.Core.List.Perm
use raydium_amm_mod.Base.{
  ℕ, zero, suc, ◌+◌, ◌*◌, ◌/◌, ◌%◌, ◌^◌, ◌≤◌, ◌≡◌, refl, sym, ap, ◌∙◌, arith, Bool, true, false,
  Option, none, some, List, [], ◌∷◌, ◌++◌, ltb, ◌==◌, if◌then◌else◌, Bool-cases, inl, inr, ==→≡,
}
use raydium_amm_mod.Pool.Runtime.{OpenOrders, LeafNode, Slab}
use raydium_amm_mod.Pool.Orders.{
  bit, count_zeros, push_found, insert_by, sort_onto, collect_orders, get_amm_orders,
}

abbrev in_book : Option LeafNode → List LeafNode
in_book none = []
in_book (some leaf) = leaf ∷ []

-- The order of slot `i` of the pool, where it is one of the side and still stands in the book.
abbrev pub own_order : OpenOrders → Slab → Bool → ℕ → List LeafNode
own_order open_orders slab is_bid i =
    if bit open_orders.free_slot_bits i
    then []
    else if bit open_orders.is_bid_bits i
    then (if is_bid then in_book (slab (open_orders.orders i)) else [])
    else (if is_bid then [] else in_book (slab (open_orders.orders i)))

-- The orders of `n` slots, from slot `i` on.
abbrev pub own_orders : OpenOrders → Slab → Bool → ℕ → ℕ → List LeafNode
own_orders open_orders slab is_bid zero i = []
own_orders open_orders slab is_bid (suc n) i =
    own_order open_orders slab is_bid i ++ own_orders open_orders slab is_bid n (i + 1)

abbrev AllOf : (LeafNode → Type 0) → List LeafNode → Type 0
AllOf P [] = Unit
AllOf P (x ∷ xs) = P x × AllOf P xs

-- Every order stands in the relation to all behind it.
abbrev pub IsOrdered : (LeafNode → LeafNode → Type 0) → List LeafNode → Type 0
IsOrdered R [] = Unit
IsOrdered R (x ∷ xs) = AllOf (R x) xs × IsOrdered R xs

-- Exactly the pool's own orders of a side, each as often as it has a slot, in the order of `R`.
abbrev pub IsSide :
    (LeafNode → LeafNode → Type 0) → OpenOrders → Slab → Bool → List LeafNode → Type 0
IsSide R open_orders slab is_bid found =
    Perm found (own_orders open_orders slab is_bid 128 0) × IsOrdered R found

insert-perm :
    (before : LeafNode → LeafNode → Bool) (x : LeafNode) (ys : List LeafNode)
    → Perm (insert_by before x ys) (x ∷ ys)
unfolding insert_by
insert-perm before x [] = Perm.refl (x ∷ [])
insert-perm before x (y ∷ ys) = elim (Bool-cases (before x y)) [
  | inl first ↦ rw first (Perm.refl (x ∷ y ∷ ys))
  | inr later ↦ rw later (Perm.trans (Perm.cons y (insert-perm before x ys)) (Perm.swap x y ys))
]

sort-perm :
    (before : LeafNode → LeafNode → Bool) (sorted xs : List LeafNode)
    → Perm (sort_onto before sorted xs) (xs ++ sorted)
unfolding sort_onto
sort-perm before sorted [] = Perm.refl sorted
sort-perm before sorted (x ∷ xs) =
    Perm.trans (sort-perm before (insert_by before x sorted) xs)
      (Perm.trans (Perm.append_left xs (insert-perm before x sorted)) (perm_middle xs sorted))

module _ (R : LeafNode → LeafNode → Type 0) (before : LeafNode → LeafNode → Bool)
    (here : (x y : LeafNode) → before x y ≡ true → R x y)
    (there : (x y : LeafNode) → before x y ≡ false → R y x)
    (onward : (x y z : LeafNode) → R x y → R y z → R x z) where
  insert-all :
      (P : LeafNode → Type 0) (x : LeafNode) (ys : List LeafNode)
      → P x
      → AllOf P ys
      → AllOf P (insert_by before x ys)
  unfolding insert_by
  insert-all P x [] px all = (px, tt)
  insert-all P x (y ∷ ys) px (py, all) = elim (Bool-cases (before x y)) [
    | inl first ↦ (let both : AllOf P (x ∷ y ∷ ys) = (px, (py, all)) in rw first both)
    | inr later ↦
        (let both : AllOf P (y ∷ insert_by before x ys) = (py, insert-all P x ys px all) in
          rw later both)
  ]

  all-onward : (x y : LeafNode) (zs : List LeafNode) → R x y → AllOf (R y) zs → AllOf (R x) zs
  all-onward x y [] xy all = tt
  all-onward x y (z ∷ zs) xy (yz, all) = (onward x y z xy yz, all-onward x y zs xy all)

  insert-IsOrdered :
      (x : LeafNode) (ys : List LeafNode) → IsOrdered R ys → IsOrdered R (insert_by before x ys)
  unfolding insert_by
  insert-IsOrdered x [] ordered = (tt, tt)
  insert-IsOrdered x (y ∷ ys) (all, ordered) = elim (Bool-cases (before x y)) [
    | inl first ↦
        let xy = here x y first in
        let both : IsOrdered R (x ∷ y ∷ ys) = ((xy, all-onward x y ys xy all), (all, ordered)) in
        rw first both
    | inr later ↦
        let both : IsOrdered R (y ∷ insert_by before x ys) =
          (insert-all (R y) x ys (there x y later) all, insert-IsOrdered x ys ordered) in
        rw later both
  ]

  sort-IsOrdered :
      (sorted xs : List LeafNode) → IsOrdered R sorted → IsOrdered R (sort_onto before sorted xs)
  unfolding sort_onto
  sort-IsOrdered sorted [] ordered = ordered
  sort-IsOrdered sorted (x ∷ xs) ordered =
      sort-IsOrdered (insert_by before x sorted) xs (insert-IsOrdered x sorted ordered)

pushed :
    (leaf : Option LeafNode) (found : List LeafNode) → push_found leaf found ≡ found ++ in_book leaf
pushed none found = sym (append-nil found)
pushed (some leaf) found = refl

bid_slot :
    (o : OpenOrders) (slab : Slab) (i : ℕ) (found : List LeafNode)
    → (if (if bit o.free_slot_bits i then false else true)
        then (if bit o.is_bid_bits i then push_found (slab (o.orders i)) found else found)
        else found)
      ≡ found ++ own_order o slab true i
bid_slot o slab i found = elim (Bool-cases (bit o.free_slot_bits i)) [
  | inl free ↦ rw free (sym (append-nil found))
  | inr taken ↦ elim (Bool-cases (bit o.is_bid_bits i)) [
    | inl bid ↦ rw (taken, bid) (pushed (slab (o.orders i)) found)
    | inr ask ↦ rw (taken, ask) (sym (append-nil found))
  ]
]

ask_slot :
    (o : OpenOrders) (slab : Slab) (i : ℕ) (found : List LeafNode)
    → (if (if bit o.free_slot_bits i then false else true)
        then (if bit o.is_bid_bits i then found else push_found (slab (o.orders i)) found)
        else found)
      ≡ found ++ own_order o slab false i
ask_slot o slab i found = elim (Bool-cases (bit o.free_slot_bits i)) [
  | inl free ↦ rw free (sym (append-nil found))
  | inr taken ↦ elim (Bool-cases (bit o.is_bid_bits i)) [
    | inl bid ↦ rw (taken, bid) (sym (append-nil found))
    | inr ask ↦ rw (taken, ask) (pushed (slab (o.orders i)) found)
  ]
]

-- The two sides are collected in the order of the slots.
collect-own :
    (o : OpenOrders) (bids asks : Slab) (n i : ℕ) (bid_orders ask_orders : List LeafNode)
    → collect_orders o bids asks n i bid_orders ask_orders
      ≡ (bid_orders ++ own_orders o bids true n i, ask_orders ++ own_orders o asks false n i)
unfolding collect_orders
collect-own o bids asks zero i bid_orders ask_orders =
    rw (append-nil bid_orders, append-nil ask_orders)
collect-own o bids asks (suc n) i bid_orders ask_orders = rw (
  bid_slot o bids i bid_orders,
  ask_slot o asks i ask_orders,
  collect-own o bids asks n (i + 1) (bid_orders ++ own_order o bids true i)
      (ask_orders ++ own_order o asks false i),
  append_assoc bid_orders (own_order o bids true i) (own_orders o bids true n (i + 1)),
  append_assoc ask_orders (own_order o asks false i) (own_orders o asks false n (i + 1)),
)

low_bit :
    (b rest : ℕ) → (if b % 2 == 0 then 1 else 0) + rest ≡ 0 → ((b % 2 == 1) ≡ true) × (rest ≡ 0)
low_bit b rest h = elim (Bool-cases (b % 2 == 0)) [
  | inl zero_bit ↦ absurd (let none_left : 1 + rest ≡ 0 = rw zero_bit at h in omega arith)
  | inr one_bit ↦ (ground arith, (let rest_left : 0 + rest ≡ 0 = rw one_bit at h in omega arith))
]

next_bits : (bits i : ℕ) → bits / 2 ^ i / 2 ≡ bits / 2 ^ (i + 1)
next_bits bits i =
    let next : suc i ≡ i + 1 = omega arith in
    let power : 2 ^ i * 2 ≡ 2 ^ (i + 1) =
      omega (arith, pow-succ' 2 i, ap (λ (k : ℕ). 2 ^ k) next) in
    div-div-eq-div-mul bits (2 ^ i) 2 ∙ ap (λ (n : ℕ). bits / n) power

-- Where every slot is free, there are no orders.
all_free :
    (o : OpenOrders) (slab : Slab) (is_bid : Bool) (n i : ℕ)
    → count_zeros n (o.free_slot_bits / 2 ^ i) ≡ 0
    → own_orders o slab is_bid n i ≡ []
all_free o slab is_bid zero i h = refl
all_free o slab is_bid (suc n) i h =
    let (free, rest) =
      low_bit (o.free_slot_bits / 2 ^ i) (count_zeros n (o.free_slot_bits / 2 ^ i / 2)) h in
    let rest' : count_zeros n (o.free_slot_bits / 2 ^ (i + 1)) ≡ 0 =
      ap (count_zeros n) (sym (next_bits o.free_slot_bits i)) ∙ rest in
    rw (free, all_free o slab is_bid n (i + 1) rest')

-- The highest bid, and the lowest ask, stand first.
abbrev pub BestBid : LeafNode → LeafNode → Type 0
BestBid x y = y.price ≤ x.price

abbrev pub BestAsk : LeafNode → LeafNode → Type 0
BestAsk x y = x.price ≤ y.price

-- What is found is sorted onto nothing.
found-own :
    (o : OpenOrders) (bids asks : Slab)
    → (if count_zeros 128 o.free_slot_bits == 0
        then ([], [])
        else collect_orders o bids asks 128 0 [] [])
      ≡ (own_orders o bids true 128 0, own_orders o asks false 128 0)
found-own o bids asks = elim (Bool-cases (count_zeros 128 o.free_slot_bits == 0)) [
  | inl free ↦
      let whole : o.free_slot_bits / 2 ^ 0 ≡ o.free_slot_bits = omega arith in
      let no_orders : count_zeros 128 (o.free_slot_bits / 2 ^ 0) ≡ 0 =
        ap (count_zeros 128) whole ∙ ==→≡ (count_zeros 128 o.free_slot_bits) 0 free in
      rw (free, all_free o bids true 128 0 no_orders, all_free o asks false 128 0 no_orders)
  | inr some_taken ↦ rw some_taken (collect-own o bids asks 128 0 [] [])
]

sort-IsSide :
    (R : LeafNode → LeafNode → Type 0) (before : LeafNode → LeafNode → Bool) (o : OpenOrders)
    (slab : Slab) (is_bid : Bool)
    → ((x y : LeafNode) → before x y ≡ true → R x y)
    → ((x y : LeafNode) → before x y ≡ false → R y x)
    → ((x y z : LeafNode) → R x y → R y z → R x z)
    → IsSide R o slab is_bid (sort_onto before [] (own_orders o slab is_bid 128 0))
sort-IsSide R before o slab is_bid here there onward =
    let found = own_orders o slab is_bid 128 0 in
    (
      Perm.trans (sort-perm before [] found) (rw (append-nil found) (Perm.refl found)),
      sort-IsOrdered R before here there onward [] found tt,
    )

-- `get_amm_orders` finds exactly the pool's own orders of either side, the highest bid and the lowest ask
-- first.
pub get_amm_orders-IsSide :
    (o : OpenOrders) (bids asks : Slab)
    → IsSide BestBid o bids true (get_amm_orders o bids asks).0
      × IsSide BestAsk o asks false (get_amm_orders o bids asks).1
unfolding get_amm_orders
get_amm_orders-IsSide o bids asks = rw (found-own o bids asks) (
  sort-IsSide BestBid (λ a b. ltb b.price a.price) o bids true (λ x y h. ground arith)
      (λ x y h. ground arith) (λ x y z h k. le_trans k h),
  sort-IsSide BestAsk (λ a b. ltb a.price b.price) o asks false (λ x y h. ground arith)
      (λ x y h. ground arith) (λ x y z h k. le_trans h k),
)
