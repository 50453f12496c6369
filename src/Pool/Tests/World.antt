-- ===== src/Pool/Tests/World.antt =====
-- A small token program, of which the laws of transfers hold, and a pool that is open for swaps, for runs
-- of program/src/processor.rs.
use raydium_amm_mod.Base.{
  ℕ, ◌+◌, ◌-◌, ◌%◌, ◌/◌, ◌^◌, zero, suc, ◌≤◌, ◌<◌, ◌≡◌, ◌≢◌, ◌∙◌, refl, sym, ap, arith, true,
  Option, none, some, List, [], ◌∷◌, map, ltb, leb, ◌==◌, ◌!=◌, inl, inr, Bool-cases, ≢→==, ≡→==,
  if◌then◌else◌,
}
use native.Mathlib.Nat.{mod-lt}
use raydium_amm_mod.State.Fees.{Fees}
use raydium_amm_mod.State.AmmInfo.{AmmInfo, StateData}
use raydium_amm_mod.Error.{Failure, Result, ok, err, ok-injective, err-ne-ok}
use raydium_amm_mod.Pool.Runtime.{Runtime, AccountInfo, TokenAccount, Instruction, TransferLaws}
use raydium_amm_mod.Pool.Tokens.{TokenLaws}
use raydium_amm_mod.Pool.Swap.Setup.{equal_keys}

abbrev pub Balances : Type 0
Balances = ℕ → ℕ

-- A balance is kept modulo 2 ^ 64, and the mint of a key is its last digit.
abbrev token_at : Balances → ℕ → Option TokenAccount
token_at l k = some (record { mint = k % 10; owner = 9; amount = l k % 2 ^ 64 })

abbrev moved : Balances → ℕ → ℕ → ℕ → Balances
moved l source destination amount k =
    if k == source
    then l source % 2 ^ 64 - amount
    else if k == destination
    then l destination % 2 ^ 64 + amount
    else l k

abbrev set_balance : Balances → ℕ → ℕ → Balances
set_balance l k n k' = if k' == k then n else l k'

abbrev invoke : Instruction → Option ℕ → Balances → Result Balances
invoke (Instruction.transfer _ source destination _ amount) signer l =
    if (source % 10) != (destination % 10)
    then err (Failure.program 3)
    else if ltb (l source % 2 ^ 64) amount
    then err (Failure.program 1)
    else if leb (2 ^ 64) (l destination % 2 ^ 64 + amount)
    then err (Failure.program 2)
    else ok (moved l source destination amount)
invoke (Instruction.mint_to _ mint destination _ amount) signer l =
    if (destination % 10) != mint
    then err (Failure.program 3)
    else ok (set_balance l destination (l destination + amount))
invoke (Instruction.burn _ account mint _ amount) signer l =
    if (account % 10) != mint
    then err (Failure.program 3)
    else ok (set_balance l account (l account - amount))
invoke _ signer l = ok l

-- Newton's iteration towards the square root of `n`.
abbrev newton : ℕ → ℕ → ℕ → ℕ
newton zero n x = x
newton (suc rounds) n x = newton rounds n ((x + n / x) / 2)

abbrev pub runtime : Runtime
runtime = record {
  Ledger = Balances;
  invoke_signed = invoke;
  unpack_account = token_at;
  spl_token_id = 1;
  create_program_address = λ program_id nonce. some 3;
  find_config_address = λ program_id. 41;
  mint_supply = λ l k. some 1000;
  get_clock = ok (record { epoch = 5; unix_timestamp = 100 });
  integer_sqrt = λ n. newton 40 n (n / 2 + 1);
  load_market =
      λ l k p b. ok (record { coin_mint = 0; pc_mint = 1; bids = 30; asks = 31; event_q = 32 });
  load_open_orders = λ l k m o p. ok (record {
    market = m;
    owner = o;
    native_pc_total = 0;
    native_coin_total = 0;
    native_coin_free = 4;
    native_pc_free = 0;
    free_slot_bits = 2 ^ 128 - 1;
    is_bid_bits = 0;
    orders = λ i. 0;
  });
  load_bids_checked = λ l m k. ok (λ key. none);
  load_asks_checked = λ l m k. ok (λ key. none);
  load_event_queue = λ l m k. some [];
}

transfer_is :
    (l : Balances) (program source destination authority amount : ℕ) (signer : Option ℕ)
    {l' : Balances}
    → invoke (Instruction.transfer program source destination authority amount) signer l ≡ ok l'
    → ((source % 10) ≡ (destination % 10))
      × (amount ≤ l source % 2 ^ 64)
      × (l destination % 2 ^ 64 + amount < 2 ^ 64)
      × (moved l source destination amount ≡ l')
transfer_is l p source destination a amount signer h =
    elim (Bool-cases ((source % 10) != (destination % 10))) [
      | inl other ↦ absurd (err-ne-ok (rw other at h))
      | inr one_mint ↦ elim (Bool-cases (ltb (l source % 2 ^ 64) amount)) [
        | inl poor ↦ absurd (err-ne-ok (rw (one_mint, poor) at h))
        | inr rich ↦ elim (Bool-cases (leb (2 ^ 64) (l destination % 2 ^ 64 + amount))) [
          | inl full ↦ absurd (err-ne-ok (rw (one_mint, rich, full) at h))
          | inr fits ↦ (
            equal_keys (source % 10) (destination % 10) one_mint,
            ground arith,
            ground arith,
            ok-injective (rw (one_mint, rich, fits) at h),
          )
        ]
      ]
    ]

lookup_moved_source :
    (l : Balances) (source destination amount : ℕ)
    → moved l source destination amount source ≡ l source % 2 ^ 64 - amount
lookup_moved_source l source destination amount = rw (≡→== source source refl)

lookup_moved_destination :
    (l : Balances) (source destination amount : ℕ)
    → source ≢ destination
    → moved l source destination amount destination ≡ l destination % 2 ^ 64 + amount
lookup_moved_destination l source destination amount apart =
    rw (≢→== destination source (λ e. apart (sym e)), ≡→== destination destination refl)

lookup_moved_other :
    (l : Balances) (source destination amount k : ℕ)
    → k ≢ source
    → k ≢ destination
    → moved l source destination amount k ≡ l k
lookup_moved_other l source destination amount k n m = rw (≢→== k source n, ≢→== k destination m)

pub transfer_laws : TransferLaws runtime
transfer_laws = record {
  moves = λ l l' program source destination authority amount signer h apart.
      let (_, enough, room, is) =
        transfer_is l program source destination authority amount signer h in
      let left : l' source ≡ l source % 2 ^ 64 - amount =
        sym (ap (λ (x : Balances). x source) is)
        ∙ lookup_moved_source l source destination amount in
      let gained : l' destination ≡ l destination % 2 ^ 64 + amount =
        sym (ap (λ (x : Balances). x destination) is)
        ∙ lookup_moved_destination l source destination amount apart in
      (rw left (omega arith), rw gained (omega arith));
  others = λ l l' program source destination authority amount signer k h n m.
      let (_, _, _, is) = transfer_is l program source destination authority amount signer h in
      let same : l' k ≡ l k =
        sym (ap (λ (x : Balances). x k) is)
        ∙ lookup_moved_other l source destination amount k n m in
      ap (λ (n : ℕ). some (record { mint = k % 10; owner = 9; amount = n % 2 ^ 64 })) same;
  fits = λ l k. mod-lt (l k) (omega arith);
}

set_is :
    (l : Balances) (changed mint : ℕ) (n : ℕ) {l' : Balances}
    → (if (changed % 10) != mint then err (Failure.program 3) else ok (set_balance l changed n))
      ≡ ok l'
    → ((changed % 10) ≡ mint) × ((k : ℕ) → k ≢ changed → token_at l' k ≡ token_at l k)
set_is l changed mint n {l'} h = elim (Bool-cases ((changed % 10) != mint)) [
  | inl other ↦ absurd (err-ne-ok (rw other at h))
  | inr one_mint ↦ (
    equal_keys (changed % 10) mint one_mint,
    λ k apart.
        let same : l' k ≡ l k =
          sym (ap (λ (x : Balances). x k) (ok-injective (rw one_mint at h)))
          ∙ rw (≢→== k changed apart) in
        ap (λ (n : ℕ). some (record { mint = k % 10; owner = 9; amount = n % 2 ^ 64 })) same,
  )
]

pub laws : TokenLaws runtime
laws = record {
  transfers = transfer_laws;
  same_mint = λ l l' program source destination authority amount signer h.
      ap some (transfer_is l program source destination authority amount signer h).0;
  keeps_mints = λ l l' program source destination authority amount signer k h. refl;
  minted = λ l l' program mint destination authority amount signer h.
      let (is, others) = set_is l destination mint (l destination + amount) h in
      (ap some is, others);
  burnt = λ l l' program account mint authority amount signer h.
      let (is, others) = set_is l account mint (l account - amount) h in (ap some is, others);
}

-- A pool that is open for swaps, with its vaults at 10 and 11.
abbrev pub pool_fees : Fees
pool_fees = record {
  min_separate_numerator = 5;
  min_separate_denominator = 10_000;
  trade_fee_numerator = 25;
  trade_fee_denominator = 10_000;
  pnl_numerator = 12;
  pnl_denominator = 100;
  swap_fee_numerator = 25;
  swap_fee_denominator = 10_000;
}

abbrev pub pool_data : StateData
pool_data = record {
  need_take_pnl_coin = 100;
  need_take_pnl_pc = 50;
  total_pnl_pc = 0;
  total_pnl_coin = 0;
  pool_open_time = 10;
  orderbook_to_init_time = 0;
  swap_coin_in_amount = 0;
  swap_pc_out_amount = 0;
  swap_acc_pc_fee = 0;
  swap_pc_in_amount = 0;
  swap_coin_out_amount = 0;
  swap_acc_coin_fee = 0;
}

abbrev pub pool : AmmInfo
pool = record {
  status = 7;
  nonce = 254;
  order_num = 7;
  depth = 3;
  coin_decimals = 6;
  pc_decimals = 6;
  state = 1;
  reset_flag = 0;
  min_size = 1;
  vol_max_cut_ratio = 500;
  amount_wave = 5000;
  coin_lot_size = 1;
  pc_lot_size = 1;
  min_price_multiplier = 1;
  max_price_multiplier = 1_000_000_000;
  sys_decimal_value = 1_000_000;
  fees = pool_fees;
  state_data = pool_data;
  coin_vault = 10;
  pc_vault = 11;
  coin_vault_mint = 0;
  pc_vault_mint = 1;
  lp_mint = 2;
  open_orders = 4;
  market = 5;
  market_program = 6;
  target_orders = 7;
  amm_owner = 8;
  lp_amount = 1000;
  client_order_id = 0;
  recent_epoch = 0;
}

abbrev pub account : ℕ → AccountInfo
account key = record { key = key; owner = 1; is_signer = true; data_len = 752 }

-- The pool's account stands at 2, its authority at 3, and the user's accounts at 20 and 21.
abbrev pub accounts : List AccountInfo
accounts =
    map account (1 ∷ 2 ∷ 3 ∷ 4 ∷ 10 ∷ 11 ∷ 6 ∷ 5 ∷ 30 ∷ 31 ∷ 32 ∷ 33 ∷ 34 ∷ 35 ∷ 20 ∷ 21 ∷ 22 ∷ [])

abbrev pub balances : Balances
balances k =
    if k == 10 then 1_000_100 else if k == 11 then 2_000_050 else if k == 20 then 50_000 else 7
