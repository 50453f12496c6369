-- ===== src/Pool/Book/Calls.antt =====
-- Sequences of instructions of program/src/processor.rs on one pool without an order book, and the book
-- that they refine.
use raydium_amm_mod.Base.{ℕ, ◌^◌, ◌<◌, ◌≡◌, ◌≢◌, ◌∙◌, refl, ap, false, List, [], ◌∷◌, Option}
use mathlib.Core.Bool.{true≢false}
use raydium_amm_mod.Error.{ok, ok-injective}
use raydium_amm_mod.State.AmmStatus
use raydium_amm_mod.State.AmmStatus.{AmmStatus}
use raydium_amm_mod.State.AmmConfig.{AmmConfig}
use raydium_amm_mod.State.AmmInfo.{AmmInfo, StateData, TargetOrders}
use raydium_amm_mod.Pool.Runtime.{Runtime, AccountInfo}
use raydium_amm_mod.Pool.Tokens.{IsPool, SameKeys-IsPool}
use raydium_amm_mod.Pool.Swap.Setup.{StatusStep}
use raydium_amm_mod.Pool.Swap.Outcome.{IsSwap}
use raydium_amm_mod.Math.Swap.{SwapDirection}
use raydium_amm_mod.Pool.Swap.Quote.{SwapAmounts}
use raydium_amm_mod.Pool.Swap.BaseIn.{SwapInstructionBaseIn, process_swap_base_in}
use raydium_amm_mod.Pool.Swap.BaseOut.{SwapInstructionBaseOut, process_swap_base_out}
use raydium_amm_mod.Pool.Liquidity.Deposit.{DepositInstruction, process_deposit}
use raydium_amm_mod.Pool.Liquidity.Withdraw.{WithdrawInstruction}
use raydium_amm_mod.Pool.Liquidity.Withdraw.Book.{process_withdraw}
use raydium_amm_mod.Pool.Liquidity.WithdrawPnl.{
  WithdrawPnlAccounts, withdrawpnl_accounts, process_withdrawpnl,
}
use raydium_amm_mod.Pool.Book.{Book}
use raydium_amm_mod.Pool.Book.Serve.{Request}
use raydium_amm_mod.Pool.Book.Refine.{book}

-- The data of the pool's account and of the target orders, and the ledger.
pub record PoolState (r : Runtime) : Type 0 where
  pub amm : AmmInfo
  pub target : TargetOrders
  pub ledger : r.Ledger

abbrev pub book_of : (r : Runtime) → PoolState r → Book
book_of r s = book r s.amm s.ledger

-- The keys that the instructions are run with.
pub record Program : Type 0 where
  pub id : ℕ
  pub amm_owner : ℕ
  pub referrer : ℕ

-- A swap, deposit or withdrawal that succeeds. A payment of a swap is a `u64`.
pub data Trading (r : Runtime) (p : Program) (s s' : PoolState r) : Type 0 where
  swap_base_in :
      (accounts : List AccountInfo) (swap : SwapInstructionBaseIn)
      → swap.amount_in < 2 ^ 64
      → process_swap_base_in r p.id accounts swap s.amm s.ledger ≡ ok (s'.amm, s'.ledger)
      → Trading r p s s'
  swap_base_out :
      (accounts : List AccountInfo) (swap : SwapInstructionBaseOut)
      → process_swap_base_out r p.id accounts swap s.amm s.ledger ≡ ok (s'.amm, s'.ledger)
      → Trading r p s s'
  deposit :
      (accounts : List AccountInfo) (d : DepositInstruction)
      → process_deposit r p.id accounts d s.amm s.target s.ledger
        ≡ ok (s'.amm, s'.target, s'.ledger)
      → Trading r p s s'
  withdraw :
      (accounts : List AccountInfo) (w : WithdrawInstruction)
      → process_withdraw r p.referrer p.id accounts w s.amm s.target s.ledger
        ≡ ok (s'.amm, s'.target, s'.ledger)
      → Trading r p s s'

-- An instruction that succeeds, the payout of profit among them; profit is not paid to the vaults.
pub data Call (r : Runtime) (p : Program) (s s' : PoolState r) : Type 0 where
  trading : Trading r p s s' → Call r p s s'
  withdrawpnl :
      (accounts : List AccountInfo) (config : AmmConfig) (a : WithdrawPnlAccounts)
      → withdrawpnl_accounts accounts ≡ ok a
      → a.user_pnl_coin.key ≢ s.amm.coin_vault
      → a.user_pnl_pc.key ≢ s.amm.pc_vault
      → process_withdrawpnl r p.referrer p.amm_owner p.id accounts config s.amm s.target s.ledger
        ≡ ok (s'.amm, s'.target, s'.ledger)
      → Call r p s s'

pub data Calls (r : Runtime) (p : Program) (s : PoolState r) : PoolState r → Type 0 where
  none_yet : Calls r p s s
  then_call : {m s' : PoolState r} → Calls r p s m → Call r p m s' → Calls r p s s'

-- What is asked for by a call, and by a sequence of calls, the last one first.
abbrev pub asked_by : {r : Runtime} {p : Program} {s s' : PoolState r} → Trading r p s s' → Request
asked_by (Trading.swap_base_in _ swap _ _) = Request.swap_base_in swap
asked_by (Trading.swap_base_out _ swap _) = Request.swap_base_out swap
asked_by (Trading.deposit _ d _) = Request.deposit d
asked_by (Trading.withdraw _ w _) = Request.withdraw w

abbrev pub request_of : {r : Runtime} {p : Program} {s s' : PoolState r} → Call r p s s' → Request
request_of (Call.trading t) = asked_by t
request_of (Call.withdrawpnl _ _ _ _ _ _ _) = Request.withdrawpnl

abbrev pub requests :
    {r : Runtime} {p : Program} {s s' : PoolState r} → Calls r p s s' → List Request
requests Calls.none_yet = []
requests (Calls.then_call before call) = request_of call ∷ requests before

-- Swaps, deposits and withdrawals during which no profit is set aside.
pub data Quiet (r : Runtime) (p : Program) (s : PoolState r) : PoolState r → Type 0 where
  none_yet : Quiet r p s s
  then_trading :
      {m s' : PoolState r}
      → Quiet r p s m
      → Trading r p m s'
      → s'.amm.state_data.need_take_pnl_pc ≡ m.amm.state_data.need_take_pnl_pc
      → s'.amm.state_data.need_take_pnl_coin ≡ m.amm.state_data.need_take_pnl_coin
      → Quiet r p s s'

-- A pool without an order book, with fees below one, whose vaults hold its tokens.
pub record IsReady (r : Runtime) (amm : AmmInfo) (l : r.Ledger) : Type 0 where
  pub status : AmmStatus
  pub read : AmmStatus.from_u64 amm.status ≡ ok status
  pub no_book : AmmStatus.orderbook_permission status ≡ false
  pub fee : amm.fees.swap_fee_numerator < amm.fees.swap_fee_denominator
  pub fee_fits : amm.fees.swap_fee_denominator < 2 ^ 64
  pub pool : IsPool r amm l

-- Readiness for an account that has the same status and fees.
pub same_terms :
    (r : Runtime) (amm amm' : AmmInfo) (l l' : r.Ledger)
    → amm'.status ≡ amm.status
    → amm'.fees ≡ amm.fees
    → IsPool r amm' l'
    → IsReady r amm l
    → IsReady r amm' l'
same_terms r amm amm' l l' status fees pool ready = record {
  status = ready.status;
  read = ap AmmStatus.from_u64 status ∙ ready.read;
  no_book = ready.no_book;
  fee = rw fees ready.fee;
  fee_fits = rw fees ready.fee_fits;
  pool = pool;
}

-- A step of the status does not bring an order book.
StatusStep-no_book :
    {d : StateData} {now : Option ℕ} {n n' : ℕ} {status : AmmStatus}
    → AmmStatus.from_u64 n ≡ ok status
    → AmmStatus.orderbook_permission status ≡ false
    → StatusStep d now n n'
    → (status' : AmmStatus) × (AmmStatus.from_u64 n' ≡ ok status')
      × (AmmStatus.orderbook_permission status' ≡ false)
unfolding AmmStatus.from_u64 AmmStatus.into_u64 AmmStatus.orderbook_permission
StatusStep-no_book {status = status} read closed (StatusStep.goes_on _ _ _) = (status, read, closed)
StatusStep-no_book read closed (StatusStep.opens _ _ _) = (AmmStatus.swap_only, refl, refl)
StatusStep-no_book read closed (StatusStep.initializes _ _ _) =
    absurd (true≢false (ap AmmStatus.orderbook_permission (ok-injective read) ∙ closed))

-- A swap leaves a pool ready, where its vaults hold the tokens.
pub IsSwap-IsReady :
    (r : Runtime) (direction : SwapDirection) (s : SwapAmounts) (amm amm' : AmmInfo)
    (l l' : r.Ledger)
    → IsSwap r direction s amm l amm' l'
    → IsPool r amm l'
    → IsReady r amm l
    → IsReady r amm' l'
IsSwap-IsReady r direction s amm amm' l l' done pool ready =
    let (status, read, closed) = StatusStep-no_book ready.read ready.no_book done.status_moved in
    let fees : amm'.fees ≡ amm.fees = ap (λ (x : AmmInfo). x.fees) done.kept in
    record {
      status = status;
      read = read;
      no_book = closed;
      fee = rw fees ready.fee;
      fee_fits = rw fees ready.fee_fits;
      pool =
          SameKeys-IsPool r l' amm amm'
            (record {
              coin_vault = ap (λ (x : AmmInfo). x.coin_vault) done.kept;
              pc_vault = ap (λ (x : AmmInfo). x.pc_vault) done.kept;
              coin_vault_mint = ap (λ (x : AmmInfo). x.coin_vault_mint) done.kept;
              pc_vault_mint = ap (λ (x : AmmInfo). x.pc_vault_mint) done.kept;
              lp_mint = ap (λ (x : AmmInfo). x.lp_mint) done.kept;
            })
            pool;
    }
