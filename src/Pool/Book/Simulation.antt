-- ===== src/Pool/Book/Simulation.antt =====
-- The instructions of program/src/processor.rs refine the book: it answers them one by one, in any sequence.
use raydium_amm_mod.Base.{◌^◌, ◌<◌, ◌≡◌, ap, refl, ◌∙◌, List}
use raydium_amm_mod.Error.{ok}
use raydium_amm_mod.State.AmmInfo.{AmmInfo}
use raydium_amm_mod.Pool.Runtime.{Runtime, AccountInfo}
use raydium_amm_mod.Pool.Tokens.{TokenLaws, IsPool, vaults_apart}
use raydium_amm_mod.Pool.Swap.Outcome.{IsSwap}
use raydium_amm_mod.Math.Swap.{SwapDirection}
use raydium_amm_mod.Pool.Swap.Quote.{SwapAmounts}
use raydium_amm_mod.Pool.Swap.Mints.{run_swap-IsPool}
use raydium_amm_mod.Pool.Swap.BaseIn.{quote_of_base_in, SwapInstructionBaseIn, process_swap_base_in}
use raydium_amm_mod.Pool.Swap.BaseIn.Laws.{process_swap_base_in-IsSwap}
use raydium_amm_mod.Pool.Swap.BaseOut.{
  quote_of_base_out, settle_coin_vault, SwapInstructionBaseOut, process_swap_base_out,
}
use raydium_amm_mod.Pool.Swap.BaseOut.Laws.{process_swap_base_out-IsSwap}
use raydium_amm_mod.Pool.Liquidity.Setup.{SharesKept}
use raydium_amm_mod.Pool.Liquidity.Deposit.Laws.{process_deposit-IsDeposit}
use raydium_amm_mod.Pool.Liquidity.Withdraw.Laws.{process_withdraw-IsWithdraw}
use raydium_amm_mod.Pool.Liquidity.WithdrawPnl.Laws.{process_withdrawpnl-PaysOut}
use raydium_amm_mod.Pool.Book.{Book, Step, Steps}
use raydium_amm_mod.State.Fees.{Fees}
use raydium_amm_mod.Pool.Book.Serve.{Request, Serves, ServesAll}
use raydium_amm_mod.Pool.Book.Value.{NoLess, Steps-NoLess}
use raydium_amm_mod.Pool.Book.Refine.{
  IsDeposit-Serves, IsWithdraw-Serves, IsPayout-Serves, IsSwap-Trades, IsSwap-Step, IsDeposit-quiet,
  IsWithdraw-quiet,
}
use raydium_amm_mod.Pool.Book.Calls.{
  PoolState, book_of, Program, Trading, Call, Calls, asked_by, request_of, requests, Quiet, IsReady,
  same_terms, IsSwap-IsReady,
}

-- What an instruction that is asked for does on a ready pool: the book answers the request, and the pool is
-- ready with the same fees. Where nothing is set aside, the answer is a single step.
abbrev Refines : (r : Runtime) → Request → PoolState r → PoolState r → Type 0
Refines r q s s' =
    IsReady r s'.amm s'.ledger
    × (s'.amm.fees ≡ s.amm.fees)
    × Serves s.amm.fees q (book_of r s) (book_of r s')

-- The same of a sequence of requests, the last one first.
abbrev pub RefinesAll : (r : Runtime) → List Request → PoolState r → PoolState r → Type 0
RefinesAll r qs s s' =
    IsReady r s'.amm s'.ledger
    × (s'.amm.fees ≡ s.amm.fees)
    × ServesAll s.amm.fees qs (book_of r s) (book_of r s')

abbrev IsQuiet : (r : Runtime) → PoolState r → PoolState r → Type 0
IsQuiet r s s' =
    (s'.amm.state_data.need_take_pnl_pc ≡ s.amm.state_data.need_take_pnl_pc)
    × (s'.amm.state_data.need_take_pnl_coin ≡ s.amm.state_data.need_take_pnl_coin)

abbrev RefinesQuietly : (r : Runtime) → Request → PoolState r → PoolState r → Type 0
RefinesQuietly r q s s' = Refines r q s s' × (IsQuiet r s s' → Step (book_of r s) (book_of r s'))

module _ (r : Runtime) (laws : TokenLaws r) (p : Program) (s s' : PoolState r)
    (ready : IsReady r s.amm s.ledger) where
  -- A swap is a single step in any case.
  swapped :
      (q : Request) (direction : SwapDirection) (amounts : SwapAmounts)
      → IsSwap r direction amounts s.amm s.ledger s'.amm s'.ledger
      → IsPool r s.amm s'.ledger
      → Serves s.amm.fees q (book_of r s) (book_of r s')
      → RefinesQuietly r q s s'
  swapped q direction amounts done pool served = (
    (
      IsSwap-IsReady r direction amounts s.amm s'.amm s.ledger s'.ledger done pool ready,
      ap (λ (x : AmmInfo). x.fees) done.kept,
      served,
    ),
    λ _. IsSwap-Step r s.amm s'.amm s.ledger s'.ledger direction amounts done,
  )

  swap_base_in-Refines :
      (accounts : List AccountInfo) (swap : SwapInstructionBaseIn)
      → swap.amount_in < 2 ^ 64
      → process_swap_base_in r p.id accounts swap s.amm s.ledger ≡ ok (s'.amm, s'.ledger)
      → RefinesQuietly r (Request.swap_base_in swap) s s'
  unfolding process_swap_base_in
  swap_base_in-Refines accounts swap fits e =
      let (direction, amounts, done, same, enough, best, fee) =
        process_swap_base_in-IsSwap r laws.transfers p.id accounts swap s.amm s.ledger ready.read
          ready.no_book (vaults_apart r s.ledger s.amm ready.pool) ready.fee ready.fee_fits fits
          e in
      swapped (Request.swap_base_in swap) direction amounts done
        (run_swap-IsPool r laws s.amm (quote_of_base_in swap)
          (λ direction a. a.market_coin_vault.key) p.id accounts s.amm s.ledger ready.read
          ready.no_book ready.pool e)
        (
          direction,
          amounts,
          IsSwap-Trades r s.amm s'.amm s.ledger s'.ledger direction amounts done,
          same,
          enough,
          best,
          fee,
        )

  swap_base_out-Refines :
      (accounts : List AccountInfo) (swap : SwapInstructionBaseOut)
      → process_swap_base_out r p.id accounts swap s.amm s.ledger ≡ ok (s'.amm, s'.ledger)
      → RefinesQuietly r (Request.swap_base_out swap) s s'
  unfolding process_swap_base_out
  swap_base_out-Refines accounts swap e =
      let (direction, amounts, done, same, enough, least, ceil) =
        process_swap_base_out-IsSwap r laws.transfers p.id accounts swap s.amm s.ledger ready.read
          ready.no_book (vaults_apart r s.ledger s.amm ready.pool) ready.fee e in
      swapped (Request.swap_base_out swap) direction amounts done
        (run_swap-IsPool r laws s.amm (quote_of_base_out swap) settle_coin_vault p.id accounts s.amm
          s.ledger ready.read ready.no_book ready.pool e)
        (
          direction,
          amounts,
          IsSwap-Trades r s.amm s'.amm s.ledger s'.ledger direction amounts done,
          same,
          enough,
          least,
          ceil,
        )

  -- Readiness after a deposit or a withdrawal.
  after_shares : SharesKept s.amm s'.amm → IsPool r s'.amm s'.ledger → IsReady r s'.amm s'.ledger
  after_shares kept pool =
      same_terms r s.amm s'.amm s.ledger s'.ledger (ap (λ (x : AmmInfo). x.status) kept)
        (ap (λ (x : AmmInfo). x.fees) kept) pool ready

  Trading-Refines : (t : Trading r p s s') → RefinesQuietly r (asked_by t) s s'
  Trading-Refines (Trading.swap_base_in accounts swap fits e) =
      swap_base_in-Refines accounts swap fits e
  Trading-Refines (Trading.swap_base_out accounts swap e) = swap_base_out-Refines accounts swap e
  Trading-Refines (Trading.deposit accounts d e) =
      let (amounts, done) =
        process_deposit-IsDeposit r laws p.id accounts d s.amm s.target s.ledger ready.read
          ready.no_book ready.pool e in
      (
        (
          after_shares done.kept done.pool,
          ap (λ (x : AmmInfo). x.fees) done.kept,
          IsDeposit-Serves r s.amm s'.amm s.ledger s'.ledger d amounts done,
        ),
        λ (pc, coin). IsDeposit-quiet r s.amm s'.amm s.ledger s'.ledger d amounts pc coin done,
      )
  Trading-Refines (Trading.withdraw accounts w e) =
      let (amounts, done) =
        process_withdraw-IsWithdraw r laws p.referrer p.id accounts w s.amm s.target s.ledger
          ready.read ready.no_book ready.pool e in
      (
        (
          after_shares done.kept done.pool,
          ap (λ (x : AmmInfo). x.fees) done.kept,
          IsWithdraw-Serves r s.amm s'.amm s.ledger s'.ledger w amounts done,
        ),
        λ (pc, coin). IsWithdraw-quiet r s.amm s'.amm s.ledger s'.ledger w amounts pc coin done,
      )

  -- Every call, by the theorem of its instruction.
  Call-Refines : (call : Call r p s s') → Refines r (request_of call) s s'
  Call-Refines (Call.trading t) = (Trading-Refines t).0
  Call-Refines (Call.withdrawpnl accounts config a named not_coin not_pc e) =
      let (_, paid) =
        process_withdrawpnl-PaysOut r laws p.referrer p.amm_owner p.id accounts config s.amm
          s.target s.ledger a ready.read ready.no_book ready.pool named not_coin not_pc e in
      let (g, _, done) = paid in
      let owed_pc = g.pnl.amm.state_data.need_take_pnl_pc in
      let owed_coin = g.pnl.amm.state_data.need_take_pnl_coin in
      (
        same_terms r s.amm s'.amm s.ledger s'.ledger (ap (λ (x : AmmInfo). x.status) done.kept)
            (ap (λ (x : AmmInfo). x.fees) done.kept) done.pool ready,
        ap (λ (x : AmmInfo). x.fees) done.kept,
        IsPayout-Serves r s.amm s'.amm s.ledger s'.ledger owed_pc owed_coin done,
      )

Serves-at : {f f' : Fees} (q : Request) (b b' : Book) → f ≡ f' → Serves f q b b' → Serves f' q b b'
Serves-at q b b' same served = rw (← same) served

-- Under the laws of the token program: from a pool that is ready, whatever instructions succeed one after
-- the other, the pool is ready again with the same fees, and its book has answered the requests in order. A
-- request to swap is answered by a trade of exactly the payment or the output asked for, at the best price
-- after the fee; a deposit by exactly what is agreed on, a withdrawal by exactly its part, each after a profit
-- of at most the owner's part of either side; and a payout by such a profit, and by settling what is owed.
pub Calls-Refines :
    (r : Runtime) (laws : TokenLaws r) (p : Program) {s s' : PoolState r}
    → IsReady r s.amm s.ledger
    → (calls : Calls r p s s') → RefinesAll r (requests calls) s s'
Calls-Refines r laws p ready Calls.none_yet = (ready, refl, refl)
Calls-Refines r laws p {s} ready (Calls.then_call {m} {s'} before call) =
    let (ready', fees, served) = Calls-Refines r laws p ready before in
    let (ready'', fees', last) = Call-Refines r laws p m s' ready' call in
    (
      ready'',
      fees' ∙ fees,
      (book_of r m, served, Serves-at (request_of call) (book_of r m) (book_of r s') fees last),
    )

Quiet-Steps :
    (r : Runtime) (laws : TokenLaws r) (p : Program) {s s' : PoolState r}
    → IsReady r s.amm s.ledger
    → Quiet r p s s'
    → IsReady r s'.amm s'.ledger × Steps (book_of r s) (book_of r s')
Quiet-Steps r laws p ready Quiet.none_yet = (ready, Steps.here)
Quiet-Steps r laws p ready (Quiet.then_trading {m} {s'} before t pc coin) =
    let (ready', steps) = Quiet-Steps r laws p ready before in
    let ((ready'', _, _), one) = Trading-Refines r laws p m s' ready' t in
    (ready'', Steps.step steps (one (pc, coin)))

-- Under the laws of the token program: from a pool that is ready and has shares, after any sequence of
-- successful swaps, deposits and withdrawals during which no profit is set aside, the product of what the
-- depositors hold, per squared share, has not fallen.
pub Quiet-NoLess :
    (r : Runtime) (laws : TokenLaws r) (p : Program) {s s' : PoolState r}
    → IsReady r s.amm s.ledger
    → 0 < s.amm.lp_amount
    → Quiet r p s s'
    → NoLess (book_of r s) (book_of r s')
Quiet-NoLess r laws p ready shares quiet = Steps-NoLess shares (Quiet-Steps r laws p ready quiet).1
