-- ===== src/Pool/Tokens.antt =====
-- What the pool relies on in the token program, and what follows for the pool's two vaults: payments,
-- shares that are minted and shares that are burnt (program/src/invokers.rs).
use raydium_amm_mod.Base.{
  ℕ, ◌+◌, ◌≡◌, ◌≢◌, ◌∙◌, sym, ap, Option, none, some, inl, inr, Option-cases, ◌!=◌,
}
use raydium_amm_mod.Error.{AmmError, ok, fail_if-eq-ok, err-ne-ok, ok-injective}
use raydium_amm_mod.State.AmmInfo.{AmmInfo}
use raydium_amm_mod.Pool.Runtime.{
  Runtime, AccountInfo, TokenAccount, unpack_token_account, Instruction, TransferLaws, amount_of,
  token_mint_to, token_burn,
}

abbrev pub mint_of : Option TokenAccount → Option ℕ
mint_of none = none
mint_of (some a) = some a.mint

module _ (r : Runtime) where
  abbrev pub mint_at : r.Ledger → ℕ → Option ℕ
  mint_at l k = mint_of (r.unpack_account l k)

  abbrev pub amount_at : r.Ledger → ℕ → ℕ
  amount_at l k = amount_of (r.unpack_account l k)

pub unpack_token_account-eq-ok :
    (r : Runtime) (l : r.Ledger) (account : AccountInfo) (program : ℕ) {found : TokenAccount}
    → unpack_token_account r l account program ≡ ok found
    → r.unpack_account l account.key ≡ some found
unfolding unpack_token_account
unpack_token_account-eq-ok r l account program {found} h =
    let (_, h) = fail_if-eq-ok (account.owner != program) AmmError.invalid_spl_token_program h in
    elim (Option-cases (r.unpack_account l account.key)) [
      | inl missing ↦ absurd (err-ne-ok (rw missing at h))
      | inr (some_found, there) ↦ there ∙ ap some (ok-injective (rw there at h))
    ]

-- Documented behaviour of the token program, beyond `TransferLaws`: a transfer is between accounts of one
-- mint and changes no mint, tokens are minted to an account of the mint and burnt from one, and neither
-- touches another account.
pub record TokenLaws (r : Runtime) : Type 0 where
  pub transfers : TransferLaws r
  pub same_mint :
      (l l' : r.Ledger) (program source destination authority amount : ℕ) (signer : Option ℕ)
      → r.invoke_signed (Instruction.transfer program source destination authority amount) signer l
        ≡ ok l'
      → mint_at r l source ≡ mint_at r l destination
  pub keeps_mints :
      (l l' : r.Ledger) (program source destination authority amount : ℕ) (signer : Option ℕ)
      (k : ℕ)
      → r.invoke_signed (Instruction.transfer program source destination authority amount) signer l
        ≡ ok l'
      → mint_at r l' k ≡ mint_at r l k
  pub minted :
      (l l' : r.Ledger) (program mint destination authority amount : ℕ) (signer : Option ℕ)
      → r.invoke_signed (Instruction.mint_to program mint destination authority amount) signer l
        ≡ ok l'
      → (mint_at r l destination ≡ some mint)
        × ((k : ℕ) → k ≢ destination → r.unpack_account l' k ≡ r.unpack_account l k)
  pub burnt :
      (l l' : r.Ledger) (program account mint authority amount : ℕ) (signer : Option ℕ)
      → r.invoke_signed (Instruction.burn program account mint authority amount) signer l ≡ ok l'
      → (mint_at r l account ≡ some mint)
        × ((k : ℕ) → k ≢ account → r.unpack_account l' k ≡ r.unpack_account l k)

-- The vaults hold the pool's two tokens, and these and the shares are three different ones.
pub record IsPool (r : Runtime) (amm : AmmInfo) (l : r.Ledger) : Type 0 where
  pub coin : mint_at r l amm.coin_vault ≡ some amm.coin_vault_mint
  pub pc : mint_at r l amm.pc_vault ≡ some amm.pc_vault_mint
  pub apart : amm.coin_vault_mint ≢ amm.pc_vault_mint
  pub coin_not_lp : amm.coin_vault_mint ≢ amm.lp_mint
  pub pc_not_lp : amm.pc_vault_mint ≢ amm.lp_mint

-- Two states of a pool's account that name the same vaults and tokens.
pub record SameKeys (amm amm' : AmmInfo) : Type 0 where
  pub coin_vault : amm'.coin_vault ≡ amm.coin_vault
  pub pc_vault : amm'.pc_vault ≡ amm.pc_vault
  pub coin_vault_mint : amm'.coin_vault_mint ≡ amm.coin_vault_mint
  pub pc_vault_mint : amm'.pc_vault_mint ≡ amm.pc_vault_mint
  pub lp_mint : amm'.lp_mint ≡ amm.lp_mint

pub SameKeys-IsPool :
    (r : Runtime) (l : r.Ledger) (amm amm' : AmmInfo)
    → SameKeys amm amm'
    → IsPool r amm l
    → IsPool r amm' l
SameKeys-IsPool r l amm amm' k p = record {
  coin = ap (mint_at r l) k.coin_vault ∙ p.coin ∙ ap some (sym k.coin_vault_mint);
  pc = ap (mint_at r l) k.pc_vault ∙ p.pc ∙ ap some (sym k.pc_vault_mint);
  apart = λ e. p.apart (sym k.coin_vault_mint ∙ e ∙ k.pc_vault_mint);
  coin_not_lp = λ e. p.coin_not_lp (sym k.coin_vault_mint ∙ e ∙ k.lp_mint);
  pc_not_lp = λ e. p.pc_not_lp (sym k.pc_vault_mint ∙ e ∙ k.lp_mint);
}

some-injective {ℓ} : {A : Type ℓ} {a b : A} → some a ≡ some b → a ≡ b
some-injective h = cc

module _ (r : Runtime) (l : r.Ledger) where
  -- Accounts of different mints are different.
  pub mints_tell :
      (k k' : ℕ) {m m' : ℕ} → mint_at r l k ≡ some m → mint_at r l k' ≡ some m' → m ≢ m' → k ≢ k'
  mints_tell k k' e e' n same = n (some-injective (sym e ∙ ap (mint_at r l) same ∙ e'))

  pub vaults_apart : (amm : AmmInfo) → IsPool r amm l → amm.pc_vault ≢ amm.coin_vault
  vaults_apart amm p same = mints_tell amm.coin_vault amm.pc_vault p.coin p.pc p.apart (sym same)

module _ (r : Runtime) (laws : TokenLaws r) (l l' : r.Ledger)
    (program source destination authority amount : ℕ) (signer : Option ℕ) where
  abbrev Transfers : Type 0
  Transfers =
      r.invoke_signed (Instruction.transfer program source destination authority amount) signer l
      ≡ ok l'

  -- A transfer does not touch an account of another mint.
  transfer_elsewhere :
      (k : ℕ) {m m' : ℕ}
      → Transfers
      → mint_at r l source ≡ some m
      → mint_at r l k ≡ some m'
      → m ≢ m'
      → amount_at r l' k ≡ amount_at r l k
  transfer_elsewhere k h e e' n =
      let same = laws.same_mint l l' program source destination authority amount signer h in
      ap amount_of (
        laws.transfers.others l l' program source destination authority amount signer k h
          (λ at_source. mints_tell r l source k e e' n (sym at_source))
          (λ at_destination. mints_tell r l destination k (sym same ∙ e) e' n (sym at_destination)))

  pub transfer-IsPool : (amm : AmmInfo) → Transfers → IsPool r amm l → IsPool r amm l'
  transfer-IsPool amm h p =
      let kept =
        λ (k : ℕ). laws.keeps_mints l l' program source destination authority amount signer k h in
      record {
        coin = kept amm.coin_vault ∙ p.coin;
        pc = kept amm.pc_vault ∙ p.pc;
        apart = p.apart;
        coin_not_lp = p.coin_not_lp;
        pc_not_lp = p.pc_not_lp;
      }

  -- A payment into a vault, seen from that vault and from the other one.
  pub transfer_in :
      (other : ℕ) {m m' : ℕ}
      → Transfers
      → source ≢ destination
      → mint_at r l destination ≡ some m
      → mint_at r l other ≡ some m'
      → m ≢ m'
      → (amount_at r l' destination ≡ amount_at r l destination + amount)
        × (amount_at r l' other ≡ amount_at r l other)
  transfer_in other h apart e e' n =
      let (_, came) =
        laws.transfers.moves l l' program source destination authority amount signer h apart in
      let same = laws.same_mint l l' program source destination authority amount signer h in
      (came, transfer_elsewhere other h (same ∙ e) e' n)

  -- A payment out of a vault.
  pub transfer_out :
      (other : ℕ) {m m' : ℕ}
      → Transfers
      → destination ≢ source
      → mint_at r l source ≡ some m
      → mint_at r l other ≡ some m'
      → m ≢ m'
      → (amount_at r l' source + amount ≡ amount_at r l source)
        × (amount_at r l' other ≡ amount_at r l other)
  transfer_out other h apart e e' n =
      let (went, _) =
        laws.transfers.moves l l' program source destination authority amount signer h
          (λ same. apart (sym same)) in
      (went, transfer_elsewhere other h e e' n)

-- What a change of the shares leaves of the pool's vaults: both as they were.
pub record IsUntouched (r : Runtime) (amm : AmmInfo) (l l' : r.Ledger) : Type 0 where
  pub coin : amount_at r l' amm.coin_vault ≡ amount_at r l amm.coin_vault
  pub pc : amount_at r l' amm.pc_vault ≡ amount_at r l amm.pc_vault
  pub pool : IsPool r amm l'

module _ (r : Runtime) (laws : TokenLaws r) (amm : AmmInfo) (l l' : r.Ledger) where
  -- An account of the shares is neither of the vaults.
  shares_elsewhere :
      (account : ℕ)
      → mint_at r l account ≡ some amm.lp_mint
      → ((k : ℕ) → k ≢ account → r.unpack_account l' k ≡ r.unpack_account l k)
      → IsPool r amm l
      → IsUntouched r amm l l'
  shares_elsewhere account shares others p =
      let coin =
        others amm.coin_vault (mints_tell r l amm.coin_vault account p.coin shares p.coin_not_lp) in
      let pc = others amm.pc_vault (mints_tell r l amm.pc_vault account p.pc shares p.pc_not_lp) in
      record {
        coin = ap amount_of coin;
        pc = ap amount_of pc;
        pool = record {
          coin = ap mint_of coin ∙ p.coin;
          pc = ap mint_of pc ∙ p.pc;
          apart = p.apart;
          coin_not_lp = p.coin_not_lp;
          pc_not_lp = p.pc_not_lp;
        };
      }

  pub token_mint_to-IsUntouched :
      (program destination authority nonce amount : ℕ)
      → token_mint_to r program amm.lp_mint destination authority nonce amount l ≡ ok l'
      → IsPool r amm l
      → IsUntouched r amm l l'
  unfolding token_mint_to
  token_mint_to-IsUntouched program destination authority nonce amount h p =
      let (shares, others) =
        laws.minted l l' program amm.lp_mint destination authority amount (some nonce) h in
      shares_elsewhere destination shares others p

  pub token_burn-IsUntouched :
      (program account owner amount : ℕ)
      → token_burn r program account amm.lp_mint owner amount l ≡ ok l'
      → IsPool r amm l
      → IsUntouched r amm l l'
  unfolding token_burn
  token_burn-IsUntouched program account owner amount h p =
      let (shares, others) = laws.burnt l l' program account amm.lp_mint owner amount none h in
      shares_elsewhere account shares others p
