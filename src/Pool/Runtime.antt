-- ===== src/Pool/Runtime.antt =====
-- What the instructions of program/src/processor.rs take from outside the repository: the accounts that
-- other programs own (the ledger), the calls into those programs, the clock, and the order book of the
-- market. program/src/invokers.rs builds the calls; `Instruction` lists those that are modelled, by the
-- accounts and amounts that the called program reads.
use raydium_amm_mod.Base.{ℕ, ◌+◌, ◌^◌, ◌<◌, ◌≡◌, ◌≢◌, Bool, Option, none, some, List, [], ◌∷◌, ◌!=◌}
use raydium_amm_mod.Error.{AmmError, program, Result, ok, err, ◌>>◌, fail_if, ok_or}
use raydium_amm_mod.Math.Vault.{Event}

-- `AccountInfo`, less its data.
pub record AccountInfo : Type 0 where
  pub key : ℕ
  pub owner : ℕ
  pub is_signer : Bool
  pub data_len : ℕ

-- `spl_token::state::Account`, the fields that are read.
pub record TokenAccount : Type 0 where
  pub mint : ℕ
  pub owner : ℕ
  pub amount : ℕ

pub record Clock : Type 0 where
  pub epoch : ℕ
  pub unix_timestamp : ℕ

-- A leaf of a side of the order book.
pub record LeafNode : Type 0 where
  pub price : ℕ
  pub client_order_id : ℕ

-- `find_by_key`, with the leaf that its handle leads to.
abbrev pub Slab : Type 0
Slab = ℕ → Option LeafNode

pub record MarketState : Type 0 where
  pub coin_mint : ℕ
  pub pc_mint : ℕ
  pub bids : ℕ
  pub asks : ℕ
  pub event_q : ℕ

pub record OpenOrders : Type 0 where
  pub market : ℕ
  pub owner : ℕ
  pub native_pc_total : ℕ
  pub native_coin_total : ℕ
  pub native_coin_free : ℕ
  pub native_pc_free : ℕ
  pub free_slot_bits : ℕ
  pub is_bid_bits : ℕ
  pub orders : ℕ → ℕ

-- The accounts of a settlement, in the order of `invoke_dex_settle_funds`.
pub record Settlement : Type 0 where
  pub dex_program : ℕ
  pub market : ℕ
  pub open_orders : ℕ
  pub owner : ℕ
  pub coin_vault : ℕ
  pub pc_vault : ℕ
  pub coin_wallet : ℕ
  pub pc_wallet : ℕ
  pub vault_signer : ℕ
  pub spl_token_program : ℕ
  pub referrer_pc_wallet : Option ℕ

pub record Cancellation : Type 0 where
  pub dex_program : ℕ
  pub market : ℕ
  pub bids : ℕ
  pub asks : ℕ
  pub open_orders : ℕ
  pub open_orders_owner : ℕ
  pub event_q : ℕ
  pub client_order_ids : List ℕ

pub data Instruction : Type 0 where
  transfer : (token_program source destination authority amount : ℕ) → Instruction
  mint_to : (token_program mint destination authority amount : ℕ) → Instruction
  burn : (token_program account mint authority amount : ℕ) → Instruction
  cancel_orders : Cancellation → Instruction
  settle_funds : Settlement → Instruction

-- Sizes of the accounts, from the layout of their structs.
abbrev pub amm_info_size : ℕ
amm_info_size = 752

pub record Runtime : Type 1 where
  pub Ledger : Type 0
  -- `invoke_signed`; `some nonce` signs with the seeds of the pool's authority.
  pub invoke_signed : Instruction → Option ℕ → Ledger → Result Ledger
  -- `spl_token::state::Account::unpack` on the data of a key.
  pub unpack_account : Ledger → ℕ → Option TokenAccount
  -- The supply that `spl_token::state::Mint::unpack` reads.
  pub mint_supply : Ledger → ℕ → Option ℕ
  pub spl_token_id : ℕ
  -- `Pubkey::create_program_address` with `AUTHORITY_AMM` and a nonce.
  pub create_program_address : ℕ → ℕ → Option ℕ
  -- `Pubkey::find_program_address` with `AMM_CONFIG_SEED`
  pub find_config_address : ℕ → ℕ
  pub get_clock : Result Clock
  pub integer_sqrt : ℕ → ℕ
  -- `Market::load_checked` and `OpenOrders::load_checked`
  pub load_market : Ledger → ℕ → ℕ → Bool → Result MarketState
  pub load_open_orders : Ledger → ℕ → ℕ → ℕ → ℕ → Result OpenOrders
  pub load_bids_checked : Ledger → MarketState → ℕ → Result Slab
  pub load_asks_checked : Ledger → MarketState → ℕ → Result Slab
  pub load_event_queue : Ledger → MarketState → ℕ → Option (List Event)

-- `next_account_info`: 0 stands for `NotEnoughAccountKeys`.
abbrev pub next_account_info : List AccountInfo → Result (AccountInfo × List AccountInfo)
next_account_info [] = err (program 0)
next_account_info (a ∷ rest) = ok (a, rest)

module _ (r : Runtime) where
  open r use {Ledger, invoke_signed, unpack_account, mint_supply, create_program_address}

  -- `Processor::unpack_token_account`
  unfoldable pub unpack_token_account : Ledger → AccountInfo → ℕ → Result TokenAccount
  unpack_token_account ledger account token_program = do
    fail_if (account.owner != token_program) AmmError.invalid_spl_token_program
    ok_or (unpack_account ledger account.key) AmmError.expected_account

  -- `Processor::unpack_mint`, of which the callers read the supply.
  unfoldable pub unpack_mint : Ledger → AccountInfo → ℕ → Result ℕ
  unpack_mint ledger account token_program = do
    fail_if (account.owner != token_program) AmmError.invalid_spl_token_program
    ok_or (mint_supply ledger account.key) AmmError.expected_mint

  -- `Processor::authority_id`
  unfoldable pub authority_id : ℕ → ℕ → Result ℕ
  authority_id program_id nonce =
      ok_or (create_program_address program_id nonce) AmmError.invalid_program_address

  -- `Invokers::token_transfer`
  unfoldable pub token_transfer : ℕ → ℕ → ℕ → ℕ → ℕ → Ledger → Result Ledger
  token_transfer token_program source destination owner amount =
      invoke_signed (Instruction.transfer token_program source destination owner amount) none

  -- `Invokers::token_transfer_with_authority`
  unfoldable pub token_transfer_with_authority : ℕ → ℕ → ℕ → ℕ → ℕ → ℕ → Ledger → Result Ledger
  token_transfer_with_authority token_program source destination authority nonce amount =
      invoke_signed (Instruction.transfer token_program source destination authority amount)
        (some nonce)

  -- `Invokers::token_mint_to`
  unfoldable pub token_mint_to : ℕ → ℕ → ℕ → ℕ → ℕ → ℕ → Ledger → Result Ledger
  token_mint_to token_program mint destination authority nonce amount =
      invoke_signed (Instruction.mint_to token_program mint destination authority amount)
        (some nonce)

  -- `Invokers::token_burn`
  unfoldable pub token_burn : ℕ → ℕ → ℕ → ℕ → ℕ → Ledger → Result Ledger
  token_burn token_program burn_account mint owner burn_amount =
      invoke_signed (Instruction.burn token_program burn_account mint owner burn_amount) none

-- The balance of a token account; 0 where there is none.
abbrev pub amount_of : Option TokenAccount → ℕ
amount_of none = 0
amount_of (some a) = a.amount

-- Documented behaviour of the token program: a transfer that succeeds between two accounts moves the
-- amount, and touches no other balance; a balance is a `u64`.
pub record TransferLaws (r : Runtime) : Type 0 where
  pub moves :
      (l l' : r.Ledger) (program source destination authority amount : ℕ) (signer : Option ℕ)
      → r.invoke_signed (Instruction.transfer program source destination authority amount) signer l
        ≡ ok l'
      → source ≢ destination
      → (amount_of (r.unpack_account l' source) + amount ≡ amount_of (r.unpack_account l source))
        × (amount_of (r.unpack_account l' destination)
            ≡ amount_of (r.unpack_account l destination) + amount)
  pub others :
      (l l' : r.Ledger) (program source destination authority amount : ℕ) (signer : Option ℕ)
      (k : ℕ)
      → r.invoke_signed (Instruction.transfer program source destination authority amount) signer l
        ≡ ok l'
      → k ≢ source
      → k ≢ destination
      → r.unpack_account l' k ≡ r.unpack_account l k
  pub fits : (l : r.Ledger) (k : ℕ) → amount_of (r.unpack_account l k) < 2 ^ 64
