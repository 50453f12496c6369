-- ===== src/Lib.antt =====
-- The Raydium AMM program (program/src): a constant-product pool of two tokens, `coin` and `pc`, that may
-- also rest its liquidity as limit orders in a market of another program.
--
-- The parts and the files that model them:
--
-- Error, Word, Checked: program/src/error.rs (`AmmError`), the machine arithmetic of Rust, and its
-- panicking form. A panic is the error `panicked`, so that "never panics" is a statement of its own. An
-- integer of w bits is a natural number, and each operation tests its result against 2 ^ w.
-- Math: program/src/math.rs. Math/Ceil is the trait `CheckedCeilDiv`, Math/Swap the two quotes of
-- `Calculator`, Math/Vault what the pool owns (vaults, market and event queue), Math/Decimals the
-- conversions of decimals and lots, Math/Fibonacci the spacing of orders, Math/OrderSize their sizes, Math/Invariant the exchange of
-- shares (`InvariantPool`, `InvariantToken`).
-- State: program/src/state.rs. State/AmmInfo holds the records of the pool's accounts and their
-- initialisation, State/Fees the fees and their bytes, and one file each the enumerations that are stored
-- as numbers.
-- Pool: program/src/processor.rs. Pool/Pnl is `calc_take_pnl`, Pool/Orders the pool's own orders and
-- their cancellation, Pool/Swap the two swap instructions: their accounts, checks, status, totals and
-- direction in Pool/Swap, the amounts in Pool/Swap/Quote, the transfers and the bookkeeping in
-- Pool/Swap/Execute, the whole course in Pool/Swap/Run, and the two instructions in Pool/Swap/BaseIn and
-- Pool/Swap/BaseOut. Pool/CancelOrders is `do_cancel_amm_orders`, and Pool/SetParams
-- `process_set_params`: its accounts and guards, each parameter (Pool/SetParams/Apply), and what it keeps.
-- Pool/Config is `process_update_config`, on the record of State/AmmConfig, and Pool/AdminCancel
-- `process_admin_cancel_orders`.
-- Pool/Liquidity holds what `process_deposit`, `process_withdraw` and `process_withdrawpnl` share, and a
-- module for each: the instruction, its quote or market part, its checks and payments, and its theorem.
--
-- Pool/Book is the specification that these instructions and the swaps share: a book of two tokens, what
-- is owed to the owner and the shares, and the steps that it may take (`Step`, `Profit`). Pool/Book/Serve
-- says how it answers a request (`Serves`), Pool/Book/Value is about the book alone, Pool/Book/Calls the
-- sequences of instructions, Pool/Book/Refine what one instruction does to the book, Pool/Book/Simulation
-- the refinement.
--
-- Instruction: program/src/instruction.rs, `AmmInstruction` with `unpack`, and `pack` in Instruction/Pack.
-- Instruction/Encodable says which instructions have a form as bytes.
--
-- What is outside the repository is a field of the record `Runtime` (Pool/Runtime): the ledger of accounts
-- that other programs own, the calls into the token program and the market (built by
-- program/src/invokers.rs), the clock, the square root, and the market's data. `TransferLaws` states what
-- the theorems use of the token program: a transfer that succeeds between two accounts moves its amount and
-- touches no other balance, and balances are `u64`. `TokenLaws` (Pool/Tokens) adds that a transfer is
-- between accounts of one mint and keeps all mints, and that minting and burning touch only an account of
-- the mint. `IsPool` says that the vaults hold the pool's two tokens, and that these and the shares have
-- three different mints. Pool/Tests/World gives a small token program of which these laws hold.
-- A key is a number; an instruction takes the pool's account and the ledger, and returns both.
--
-- Loops are structural recursion on lists or on the number of rounds left, which the code fixes beforehand,
-- so that no fuel is needed: 128 order slots, and `order_num` rounds in `fibonacci`, where 64 rounds are the
-- bound up to which the sum of two members stays in `u64` by the estimate 2 ^ n.
--
-- Not modelled: the initialisation and migration instructions, the creation of the configuration, the order plan
-- (`process_monitor_step`), the simulations, the logs (program/src/log.rs), the builders of account lists
-- (program/src/instruction.rs), the program under tradium, and template, a copy of another project. Of
-- swaps, deposits and withdrawals with an order book the definitions are complete, while the theorems on
-- the vaults are for pools without one, since a settlement is the work of the market's program.
pub mod Base
pub mod Error
pub mod Word
pub mod Checked
pub mod Math
pub mod State
pub mod Pool
pub mod Instruction
