-- ===== src/Pool/Swap/Execute/Laws.antt =====
-- What the second half of a swap of program/src/processor.rs has done when it succeeds.
use raydium_amm_mod.Base.{
  ℕ, ◌+◌, ◌%◌, ◌<◌, ◌≡◌, ◌≢◌, ◌∙◌, refl, sym, ap, arith, false, none, some, leb,
}
use raydium_amm_mod.Error.{AmmError, ok, >>=-eq-ok, fail_if-eq-ok, ok-injective}
use raydium_amm_mod.Checked.{add, add-eq-ok}
use raydium_amm_mod.Math.Swap.{SwapDirection}
use raydium_amm_mod.State.AmmInfo.{AmmInfo, StateData}
use raydium_amm_mod.Pool.Runtime.{
  Runtime, TransferLaws, token_transfer, token_transfer_with_authority, amount_of,
}
use raydium_amm_mod.Pool.Swap.{SwapAccounts, Holdings, Totals}
use raydium_amm_mod.Pool.Swap.Quote.{SwapAmounts}
use raydium_amm_mod.Pool.Swap.Execute.{
  total_out, vault_in, vault_out, record_swap, pay, execute_swap,
}

-- The statistics after a swap from `coin` to `pc`, or from `pc` to `coin`: what came in, what went out and
-- the fee are added, and all else is as it was.
abbrev pub IsRecorded : SwapDirection → SwapAmounts → StateData → StateData → Type 0
IsRecorded SwapDirection.coin2pc s d d' = d' ≡ record d {
  swap_coin_in_amount = d.swap_coin_in_amount + s.amount_in;
  swap_pc_out_amount = d.swap_pc_out_amount + s.amount_out;
  swap_acc_coin_fee = d.swap_acc_coin_fee + s.swap_fee;
}
IsRecorded SwapDirection.pc2coin s d d' = d' ≡ record d {
  swap_pc_in_amount = d.swap_pc_in_amount + s.amount_in;
  swap_coin_out_amount = d.swap_coin_out_amount + s.amount_out;
  swap_acc_pc_fee = d.swap_acc_pc_fee + s.swap_fee;
}

pub record_swap-IsRecorded :
    (direction : SwapDirection) (s : SwapAmounts) (d : StateData) {d' : StateData}
    → record_swap direction s d ≡ ok d'
    → IsRecorded direction s d d'
unfolding record_swap
record_swap-IsRecorded SwapDirection.coin2pc s d h =
    let (coin_in, e₁, h) = >>=-eq-ok (add 128 d.swap_coin_in_amount s.amount_in) _ h in
    let (pc_out, e₂, h) = >>=-eq-ok (add 128 d.swap_pc_out_amount s.amount_out) _ h in
    let (coin_fee, e₃, h) = >>=-eq-ok (add 64 d.swap_acc_coin_fee s.swap_fee) _ h in
    rw (
      ← ok-injective h,
      (add-eq-ok 128 d.swap_coin_in_amount s.amount_in e₁).0,
      (add-eq-ok 128 d.swap_pc_out_amount s.amount_out e₂).0,
      (add-eq-ok 64 d.swap_acc_coin_fee s.swap_fee e₃).0,
    )
record_swap-IsRecorded SwapDirection.pc2coin s d h =
    let (pc_in, e₁, h) = >>=-eq-ok (add 128 d.swap_pc_in_amount s.amount_in) _ h in
    let (coin_out, e₂, h) = >>=-eq-ok (add 128 d.swap_coin_out_amount s.amount_out) _ h in
    let (pc_fee, e₃, h) = >>=-eq-ok (add 64 d.swap_acc_pc_fee s.swap_fee) _ h in
    rw (
      ← ok-injective h,
      (add-eq-ok 128 d.swap_pc_in_amount s.amount_in e₁).0,
      (add-eq-ok 128 d.swap_coin_out_amount s.amount_out e₂).0,
      (add-eq-ok 64 d.swap_acc_pc_fee s.swap_fee e₃).0,
    )

-- The two payments: into one vault, and out of the other.
pub pay-eq-ok :
    (r : Runtime) (laws : TransferLaws r) (direction : SwapDirection) (a : SwapAccounts)
    (amm : AmmInfo) (s : SwapAmounts) (l : r.Ledger) {l' : r.Ledger}
    → a.user_source.key ≢ vault_in direction a
    → a.user_source.key ≢ vault_out direction a
    → a.user_destination.key ≢ vault_in direction a
    → a.user_destination.key ≢ vault_out direction a
    → vault_in direction a ≢ vault_out direction a
    → pay r direction a amm s l ≡ ok l'
    → (amount_of (r.unpack_account l' (vault_in direction a))
        ≡ amount_of (r.unpack_account l (vault_in direction a)) + s.amount_in)
      × (amount_of (r.unpack_account l' (vault_out direction a)) + s.amount_out
          ≡ amount_of (r.unpack_account l (vault_out direction a)))
unfolding pay token_transfer token_transfer_with_authority
pay-eq-ok r laws direction a amm s l {l'} n₁ n₂ n₃ n₄ apart h =
    let (mid, paid_in, paid_out) =
      >>=-eq-ok
        (token_transfer r a.token_program.key a.user_source.key (vault_in direction a)
          a.user_source_owner.key s.amount_in l)
        _ h in
    let (_, came) =
      laws.moves l mid a.token_program.key a.user_source.key (vault_in direction a)
        a.user_source_owner.key s.amount_in none paid_in n₁ in
    let (went, _) =
      laws.moves mid l' a.token_program.key (vault_out direction a) a.user_destination.key
        a.amm_authority.key s.amount_out (some (amm.nonce % 256)) paid_out (λ e. n₄ (sym e)) in
    let still_in =
      laws.others mid l' a.token_program.key (vault_out direction a) a.user_destination.key
        a.amm_authority.key s.amount_out (some (amm.nonce % 256)) (vault_in direction a) paid_out
        apart (λ e. n₃ (sym e)) in
    let still_out =
      laws.others l mid a.token_program.key a.user_source.key (vault_in direction a)
        a.user_source_owner.key s.amount_in none (vault_out direction a) paid_in (λ e. n₂ (sym e))
        (λ e. apart (sym e)) in
    (ap amount_of still_in ∙ came, went ∙ ap amount_of still_out)

-- Without an order book the second half of a swap is the two payments, the statistics and the epoch, for
-- an output below the total.
pub execute_swap-eq-ok :
    (r : Runtime) (direction : SwapDirection) (a : SwapAccounts) (amm : AmmInfo) (h : Holdings)
    (t : Totals) (s : SwapAmounts) (settle_with : ℕ) (l : r.Ledger) {amm' : AmmInfo} {l' : r.Ledger}
    → execute_swap r direction a amm h t false s settle_with l ≡ ok (amm', l')
    → (s.amount_out < total_out direction t)
      × (pay r direction a amm s l ≡ ok l')
      × IsRecorded direction s amm.state_data amm'.state_data
      × (amm' ≡ record amm { state_data = amm'.state_data; recent_epoch = amm'.recent_epoch })
unfolding execute_swap
execute_swap-eq-ok r direction a amm h t s settle_with l {amm'} {l'} e =
    let (below, e) =
      fail_if-eq-ok (leb (total_out direction t) s.amount_out) AmmError.insufficient_funds e in
    let (paid_l, paid, e) = >>=-eq-ok (pay r direction a amm s l) _ e in
    let (d, recorded, e) = >>=-eq-ok (record_swap direction s amm.state_data) _ e in
    let (clock, _, e) = >>=-eq-ok r.get_clock _ e in
    let same = ok-injective e in
    let amm_is = ap (λ (p : AmmInfo × r.Ledger). p.0) same in
    let ledger_is = ap (λ (p : AmmInfo × r.Ledger). p.1) same in
    (
      ground arith,
      paid ∙ ap ok ledger_is,
      rw (← amm_is) (record_swap-IsRecorded direction s amm.state_data recorded),
      rw (← amm_is) refl,
    )
