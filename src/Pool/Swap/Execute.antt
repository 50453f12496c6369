-- ===== src/Pool/Swap/Execute.antt =====
-- program/src/processor.rs: the second half of a swap, which cancels the orders that stand in the way,
-- settles the market where the vault is short, moves the tokens and keeps the statistics. Both
-- instructions repeat it; they differ in the account that they settle with.
pub mod Laws
use raydium_amm_mod.Base.{
  ℕ, ◌%◌, Bool, true, false, Option, some, List, [], ◌∷◌, map, ltb, leb, if◌then◌else◌,
}
use raydium_amm_mod.Error.{AmmError, Result, ok, err, ◌>>=◌, ◌>>◌, fail_if}
use raydium_amm_mod.Checked.{add}
use raydium_amm_mod.Math.Swap.{SwapDirection}
use raydium_amm_mod.State.AmmInfo.{AmmInfo, StateData}
use raydium_amm_mod.Pool.Runtime.{
  Runtime, AccountInfo, LeafNode, Clock, Instruction, Cancellation, Settlement, token_transfer,
  token_transfer_with_authority,
}
use raydium_amm_mod.Pool.Orders.{order_batches, cancel_batches}
use raydium_amm_mod.Pool.Swap.{SwapAccounts, Holdings, Totals}
use raydium_amm_mod.Pool.Swap.Quote.{SwapAmounts}

abbrev pub client_ids : List LeafNode → List ℕ
client_ids = map (λ order. order.client_order_id)

-- The orders that the swap would trade against: buys for coin to pc, sells for pc to coin.
abbrev pub opposing_orders : SwapDirection → Totals → List LeafNode
opposing_orders SwapDirection.coin2pc t = t.bids
opposing_orders SwapDirection.pc2coin t = t.asks

abbrev pub total_out : SwapDirection → Totals → ℕ
total_out SwapDirection.coin2pc t = t.total_pc
total_out SwapDirection.pc2coin t = t.total_coin

abbrev pub vault_in : SwapDirection → SwapAccounts → ℕ
vault_in SwapDirection.coin2pc a = a.amm_coin_vault.key
vault_in SwapDirection.pc2coin a = a.amm_pc_vault.key

abbrev pub vault_out : SwapDirection → SwapAccounts → ℕ
vault_out SwapDirection.coin2pc a = a.amm_pc_vault.key
vault_out SwapDirection.pc2coin a = a.amm_coin_vault.key

abbrev pub vault_out_amount : SwapDirection → Holdings → ℕ
vault_out_amount SwapDirection.coin2pc h = h.pc_vault.amount
vault_out_amount SwapDirection.pc2coin h = h.coin_vault.amount

abbrev pub cancellation : SwapAccounts → Cancellation
cancellation a = record {
  dex_program = a.market_program.key;
  market = a.market.key;
  bids = a.market_bids.key;
  asks = a.market_asks.key;
  open_orders = a.amm_open_orders.key;
  open_orders_owner = a.amm_authority.key;
  event_q = a.market_event_queue.key;
  client_order_ids = [];
}

abbrev pub settlement : SwapAccounts → ℕ → Settlement
settlement a coin_vault = record {
  dex_program = a.market_program.key;
  market = a.market.key;
  open_orders = a.amm_open_orders.key;
  owner = a.amm_authority.key;
  coin_vault = coin_vault;
  pc_vault = a.market_pc_vault.key;
  coin_wallet = a.amm_coin_vault.key;
  pc_wallet = a.amm_pc_vault.key;
  vault_signer = a.market_vault_signer.key;
  spl_token_program = a.token_program.key;
  referrer_pc_wallet = some a.amm_pc_vault.key;
}

-- `update state_data data` and the accumulated fee.
unfoldable pub record_swap : SwapDirection → SwapAmounts → StateData → Result StateData
record_swap SwapDirection.coin2pc s d = do
  coin_in ← add 128 d.swap_coin_in_amount s.amount_in
  pc_out ← add 128 d.swap_pc_out_amount s.amount_out
  coin_fee ← add 64 d.swap_acc_coin_fee s.swap_fee
  ok (record d {
    swap_coin_in_amount = coin_in;
    swap_pc_out_amount = pc_out;
    swap_acc_coin_fee = coin_fee;
  })
record_swap SwapDirection.pc2coin s d = do
  pc_in ← add 128 d.swap_pc_in_amount s.amount_in
  coin_out ← add 128 d.swap_coin_out_amount s.amount_out
  pc_fee ← add 64 d.swap_acc_pc_fee s.swap_fee
  ok (record d {
    swap_pc_in_amount = pc_in;
    swap_coin_out_amount = coin_out;
    swap_acc_pc_fee = pc_fee;
  })

module _ (r : Runtime) where
  open r use {Ledger, invoke_signed, get_clock}

  -- `settle_with` is the market's coin vault that is named in the settlement.
  unfoldable pub release_funds :
      SwapDirection → SwapAccounts → AmmInfo → Holdings → Totals → ℕ → ℕ → Ledger → Result Ledger
  release_funds direction a amm h t amount_out settle_with ledger = do
    ledger' ←
        cancel_batches r (cancellation a) (amm.nonce % 256)
          (order_batches (client_ids (opposing_orders direction t)) [] 0) ledger
    if ltb (vault_out_amount direction h) amount_out
        then invoke_signed (Instruction.settle_funds (settlement a settle_with))
            (some (amm.nonce % 256)) ledger'
        else ok ledger'

  -- The payment in, signed by the user, then the payment out, signed by the pool.
  unfoldable pub pay : SwapDirection → SwapAccounts → AmmInfo → SwapAmounts → Ledger → Result Ledger
  pay direction a amm s ledger = do
    ledger' ←
        token_transfer r a.token_program.key a.user_source.key (vault_in direction a)
          a.user_source_owner.key s.amount_in ledger
    token_transfer_with_authority r a.token_program.key (vault_out direction a)
        a.user_destination.key a.amm_authority.key (amm.nonce % 256) s.amount_out ledger'

  unfoldable pub execute_swap :
      SwapDirection
      → SwapAccounts
      → AmmInfo
      → Holdings
      → Totals
      → Bool
      → SwapAmounts
      → ℕ
      → Ledger
      → Result (AmmInfo × Ledger)
  unfolding release_funds pay record_swap
  execute_swap direction a amm h t enable_orderbook s settle_with ledger = do
    fail_if (leb (total_out direction t) s.amount_out) AmmError.insufficient_funds
    ledger₁ ←
        (if enable_orderbook
          then release_funds direction a amm h t s.amount_out settle_with ledger
          else ok ledger)
    ledger₂ ← pay direction a amm s ledger₁
    state_data ← record_swap direction s amm.state_data
    clock ← get_clock
    ok (record amm { state_data = state_data; recent_epoch = clock.epoch }, ledger₂)
