-- ===== src/State/AmmStatus.antt =====
-- program/src/state.rs: `AmmStatus`, which operations the pool permits.
use raydium_amm_mod.Base.{
  ℕ, zero, suc, ◌≢◌, ◌≡◌, refl, arith, Bool, true, false, ◌==◌, ◌||◌, if◌then◌else◌,
}
use raydium_amm_mod.Error.{Result, ok, err, panicked}

pub data AmmStatus : Type 0 where
  uninitialized : AmmStatus
  initialized : AmmStatus
  disabled : AmmStatus
  withdraw_only : AmmStatus
  liquidity_only : AmmStatus
  order_book_only : AmmStatus
  swap_only : AmmStatus
  waiting_trade : AmmStatus

-- A number out of range reaches `unreachable!()`.
unfoldable pub from_u64 : ℕ → Result AmmStatus
from_u64 value =
    if value == 0
    then ok AmmStatus.uninitialized
    else if value == 1
    then ok AmmStatus.initialized
    else if value == 2
    then ok AmmStatus.disabled
    else if value == 3
    then ok AmmStatus.withdraw_only
    else if value == 4
    then ok AmmStatus.liquidity_only
    else if value == 5
    then ok AmmStatus.order_book_only
    else if value == 6
    then ok AmmStatus.swap_only
    else if value == 7
    then ok AmmStatus.waiting_trade
    else err panicked

unfoldable pub into_u64 : AmmStatus → ℕ
into_u64 AmmStatus.uninitialized = 0
into_u64 AmmStatus.initialized = 1
into_u64 AmmStatus.disabled = 2
into_u64 AmmStatus.withdraw_only = 3
into_u64 AmmStatus.liquidity_only = 4
into_u64 AmmStatus.order_book_only = 5
into_u64 AmmStatus.swap_only = 6
into_u64 AmmStatus.waiting_trade = 7

unfoldable pub valid_status : ℕ → Bool
valid_status status =
    status == 1
    || status == 2
    || status == 3
    || status == 4
    || status == 5
    || status == 6
    || status == 7

unfoldable pub deposit_permission : AmmStatus → Bool
deposit_permission AmmStatus.uninitialized = false
deposit_permission AmmStatus.initialized = true
deposit_permission AmmStatus.disabled = false
deposit_permission AmmStatus.withdraw_only = false
deposit_permission AmmStatus.liquidity_only = true
deposit_permission AmmStatus.order_book_only = true
deposit_permission AmmStatus.swap_only = true
deposit_permission AmmStatus.waiting_trade = true

unfoldable pub withdraw_permission : AmmStatus → Bool
withdraw_permission AmmStatus.uninitialized = false
withdraw_permission AmmStatus.initialized = true
withdraw_permission AmmStatus.disabled = false
withdraw_permission AmmStatus.withdraw_only = true
withdraw_permission AmmStatus.liquidity_only = true
withdraw_permission AmmStatus.order_book_only = true
withdraw_permission AmmStatus.swap_only = true
withdraw_permission AmmStatus.waiting_trade = true

unfoldable pub swap_permission : AmmStatus → Bool
swap_permission AmmStatus.uninitialized = false
swap_permission AmmStatus.initialized = true
swap_permission AmmStatus.disabled = false
swap_permission AmmStatus.withdraw_only = false
swap_permission AmmStatus.liquidity_only = false
swap_permission AmmStatus.order_book_only = false
swap_permission AmmStatus.swap_only = true
swap_permission AmmStatus.waiting_trade = true

unfoldable pub orderbook_permission : AmmStatus → Bool
orderbook_permission AmmStatus.uninitialized = false
orderbook_permission AmmStatus.initialized = true
orderbook_permission AmmStatus.disabled = false
orderbook_permission AmmStatus.withdraw_only = false
orderbook_permission AmmStatus.liquidity_only = false
orderbook_permission AmmStatus.order_book_only = true
orderbook_permission AmmStatus.swap_only = false
orderbook_permission AmmStatus.waiting_trade = false

-- A number that `valid_status` accepts is read by `from_u64` without a panic, as a status that has this
-- number and is not `uninitialized`.
pub valid_status_reads :
    (n : ℕ)
    → valid_status n ≡ true
    → (s : AmmStatus) × (from_u64 n ≡ ok s) × (into_u64 s ≡ n) × (s ≢ AmmStatus.uninitialized)
unfolding valid_status from_u64 into_u64
valid_status_reads zero h = absurd (ground arith)
valid_status_reads (suc zero) h = (AmmStatus.initialized, refl, refl, ground arith)
valid_status_reads (suc (suc zero)) h = (AmmStatus.disabled, refl, refl, ground arith)
valid_status_reads (suc (suc (suc zero))) h = (AmmStatus.withdraw_only, refl, refl, ground arith)
valid_status_reads (suc (suc (suc (suc zero)))) h =
    (AmmStatus.liquidity_only, refl, refl, ground arith)
valid_status_reads (suc (suc (suc (suc (suc zero))))) h =
    (AmmStatus.order_book_only, refl, refl, ground arith)
valid_status_reads (suc (suc (suc (suc (suc (suc zero)))))) h =
    (AmmStatus.swap_only, refl, refl, ground arith)
valid_status_reads (suc (suc (suc (suc (suc (suc (suc zero))))))) h =
    (AmmStatus.waiting_trade, refl, refl, ground arith)
valid_status_reads (suc (suc (suc (suc (suc (suc (suc (suc n)))))))) h = absurd (ground arith)

-- A number that `from_u64` reads is the number of the status read.
pub into_u64-from_u64 : (n : ℕ) {s : AmmStatus} → from_u64 n ≡ ok s → into_u64 s ≡ n
unfolding from_u64 into_u64
into_u64-from_u64 n h = ground arith

-- How the permissions nest: trading and the order book both need deposits, deposits need withdrawals,
-- and only `initialized` grants both trading and the order book.
pub permissions_nest :
    (s : AmmStatus)
    → (swap_permission s ≡ true → deposit_permission s ≡ true)
      × (orderbook_permission s ≡ true → deposit_permission s ≡ true)
      × (deposit_permission s ≡ true → withdraw_permission s ≡ true)
      × (swap_permission s ≡ true → orderbook_permission s ≡ true → s ≡ AmmStatus.initialized)
unfolding swap_permission orderbook_permission deposit_permission withdraw_permission
permissions_nest s = ground arith

-- Every value survives the way to its number and back.
pub from_u64-into_u64 : (s : AmmStatus) → from_u64 (into_u64 s) ≡ ok s
unfolding from_u64 into_u64
from_u64-into_u64 AmmStatus.uninitialized = refl
from_u64-into_u64 AmmStatus.initialized = refl
from_u64-into_u64 AmmStatus.disabled = refl
from_u64-into_u64 AmmStatus.withdraw_only = refl
from_u64-into_u64 AmmStatus.liquidity_only = refl
from_u64-into_u64 AmmStatus.order_book_only = refl
from_u64-into_u64 AmmStatus.swap_only = refl
from_u64-into_u64 AmmStatus.waiting_trade = refl
