-- ===== src/Its/Tokens/Custody.antt =====
-- What the service holds, and what it has sent and received (`take_token` and
-- `handle_give_token_transfer` of programs/solana-axelar-its/src/instructions).
use axelar_amplifier_solana.Its.Tokens.{
  CpiAuthority, supports_mint_extensions, validate_mint_extension, give_by, whole, take_by,
  TokenAccounts, TokenProgram, Tokens, is_minting, transfer_to, transfer_with_fee_to,
}
use axelar_amplifier_solana.Its.State.{
  lock_unlock, lock_unlock_fee, mint_burn, mint_burn_from, native_interchain_token,
  TokenManagerType,
}
use axelar_amplifier_solana.Prelude.{
  none, refl, Option, arith, false, true, ◌-◌, ◌≤◌, ok, some, ℕ, ◌+◌, ◌≡◌, ◌≢◌,
}

-- What the token program does. A burn lowers the balance and the supply, a mint raises them, a
-- transfer moves an amount between two accounts if the mint has no fee, and one with a fee credits
-- the amount less the fee.
pub record TokenLaws (tp : TokenProgram) : Type 0 where
  pub burn_lowers :
      (t t' : Tokens) (authority : CpiAuthority) (mint from amount : ℕ)
      → tp.burn t authority mint from amount ≡ some t'
      → (t'.supply mint + amount ≡ t.supply mint) × (t'.amount from + amount ≡ t.amount from)
  pub mint_raises :
      (t t' : Tokens) (authority : CpiAuthority) (mint to amount : ℕ)
      → tp.mint_to t authority mint to amount ≡ some t'
      → (t'.supply mint ≡ t.supply mint + amount) × (t'.amount to ≡ t.amount to + amount)
  pub transfer_moves :
      (t t' : Tokens) (authority : CpiAuthority) (mint from to amount decimals : ℕ)
      → from ≢ to
      → tp.epoch_fee mint ≡ none
      → tp.transfer_checked t authority mint from to amount decimals ≡ some t'
      → (t'.amount from + amount ≡ t.amount from) × (t'.amount to ≡ t.amount to + amount)
  pub fee_transfer_moves :
      (t t' : Tokens) (authority : CpiAuthority) (mint from to amount decimals fee : ℕ)
      → from ≢ to
      → tp.transfer_checked_with_fee t authority mint from to amount decimals fee ≡ some t'
      → (t'.amount from + amount ≡ t.amount from) × (t'.amount to + fee ≡ t.amount to + amount)

module _ (tp : TokenProgram) (laws : TokenLaws tp) where
  -- A mint whose extensions are valid for the type lock_unlock has no fee.
  pub validate_mint_extension_no_fee :
      (ty : TokenManagerType) (token_mint : ℕ)
      → validate_mint_extension tp ty token_mint ≡ ok tt
      → ty ≡ lock_unlock
      → tp.epoch_fee token_mint ≡ none
  unfolding validate_mint_extension supports_mint_extensions
  validate_mint_extension_no_fee ty token_mint h e = ground arith

  called_transfer :
      (t : Tokens) (authority : CpiAuthority) (mint from to amount credited : ℕ) (t' : Tokens)
      → transfer_to tp t authority mint from to amount ≡ ok (credited, t')
      → (decimals : ℕ) × (tp.decimals mint ≡ some decimals)
        × (tp.transfer_checked t authority mint from to amount decimals ≡ some t')
        × (credited ≡ amount)
  unfolding transfer_to
  called_transfer t authority mint from to amount credited t' h = ground arith

  called_fee_transfer :
      (t : Tokens) (authority : CpiAuthority) (mint from to amount credited : ℕ) (t' : Tokens)
      → transfer_with_fee_to tp t authority mint from to amount ≡ ok (credited, t')
      → (calculate_epoch_fee : ℕ → Option ℕ) × (tp.epoch_fee mint ≡ some calculate_epoch_fee)
        × (fee : ℕ) × (calculate_epoch_fee amount ≡ some fee)
        × (decimals : ℕ) × (tp.decimals mint ≡ some decimals)
        × (tp.transfer_checked_with_fee t authority mint from to amount decimals fee ≡ some t')
        × (fee ≤ amount)
        × (credited ≡ amount - fee)
  unfolding transfer_with_fee_to
  called_fee_transfer t authority mint from to amount credited t' h = ground arith

  -- A transfer debits the amount and credits what it returns, which is no more.
  abbrev Moved : Tokens → (from to amount credited : ℕ) → Tokens → Type 0
  Moved t from to amount credited t' =
      (t'.amount from + amount ≡ t.amount from)
      × (t'.amount to ≡ t.amount to + credited)
      × (credited ≤ amount)

  transfer_to-Moved :
      (t : Tokens) (authority : CpiAuthority) (mint from to amount credited : ℕ) (t' : Tokens)
      → from ≢ to
      → tp.epoch_fee mint ≡ none
      → transfer_to tp t authority mint from to amount ≡ ok (credited, t')
      → Moved t from to amount credited t'
  transfer_to-Moved t authority mint from to amount credited t' apart no_fee h =
      let (d, e, call, same) = called_transfer t authority mint from to amount credited t' h in
      let (out, in_) = laws.transfer_moves t t' authority mint from to amount d apart no_fee call in
      (out, omega arith, omega arith)

  transfer_with_fee_to-Moved :
      (t : Tokens) (authority : CpiAuthority) (mint from to amount credited : ℕ) (t' : Tokens)
      → from ≢ to
      → transfer_with_fee_to tp t authority mint from to amount ≡ ok (credited, t')
      → Moved t from to amount credited t'
  transfer_with_fee_to-Moved t authority mint from to amount credited t' apart h =
      let (f, e, fee, e', d, e'', call, small, rest) =
        called_fee_transfer t authority mint from to amount credited t' h in
      let (out, in_) =
        laws.fee_transfer_moves t t' authority mint from to amount d fee apart call in
      (out, omega arith, omega arith)

  -- What is taken is burned or added to the account of the manager.
  abbrev pub Taken : TokenManagerType → Tokens → TokenAccounts → ℕ → Tokens → Type 0
  Taken ty t a credited t' =
      (is_minting ty ≡ true → t'.supply a.token_mint + credited ≡ t.supply a.token_mint)
      × (is_minting ty ≡ false
          → t'.amount a.token_manager_ata ≡ t.amount a.token_manager_ata + credited)

  -- What is given is minted or taken from the account of the manager.
  abbrev pub Gave : TokenManagerType → Tokens → TokenAccounts → ℕ → Tokens → Type 0
  Gave ty t a amount t' =
      (is_minting ty ≡ true → t'.supply a.token_mint ≡ t.supply a.token_mint + amount)
      × (is_minting ty ≡ false
          → t'.amount a.token_manager_ata + amount ≡ t.amount a.token_manager_ata)

  whole_lem :
      (call : Option Tokens) (amount credited : ℕ) (t' : Tokens)
      → whole call amount ≡ ok (credited, t')
      → (call ≡ some t') × (credited ≡ amount)
  whole_lem call amount credited t' h = ground arith

  burned :
      (t : Tokens) (authority : CpiAuthority) (mint from amount credited : ℕ) (t' : Tokens)
      → whole (tp.burn t authority mint from amount) amount ≡ ok (credited, t')
      → t'.supply mint + credited ≡ t.supply mint
  burned t authority mint from amount credited t' h =
      let (call, same) = whole_lem (tp.burn t authority mint from amount) amount credited t' h in
      let (lower, debit) = laws.burn_lowers t t' authority mint from amount call in omega arith

  minted :
      (t : Tokens) (authority : CpiAuthority) (mint to amount credited : ℕ) (t' : Tokens)
      → whole (tp.mint_to t authority mint to amount) amount ≡ ok (credited, t')
      → t'.supply mint ≡ t.supply mint + amount
  minted t authority mint to amount credited t' h =
      let (call, same) = whole_lem (tp.mint_to t authority mint to amount) amount credited t' h in
      (laws.mint_raises t t' authority mint to amount call).0

  pub take_by-Taken :
      (ty : TokenManagerType) (t : Tokens) (a : TokenAccounts) (amount credited : ℕ) (t' : Tokens)
      → a.user_account ≢ a.token_manager_ata
      → (ty ≡ lock_unlock → tp.epoch_fee a.token_mint ≡ none)
      → take_by tp ty t a amount ≡ ok (credited, t')
      → Taken ty t a credited t'
  unfolding take_by
  take_by-Taken native_interchain_token t a amount credited t' apart no_fee h =
      (λ e. burned t a.authority a.token_mint a.user_account amount credited t' h, λ e. cc)
  take_by-Taken mint_burn_from t a amount credited t' apart no_fee h =
      (λ e. burned t a.authority a.token_mint a.user_account amount credited t' h, λ e. cc)
  take_by-Taken mint_burn t a amount credited t' apart no_fee h =
      (λ e. burned t a.authority a.token_mint a.user_account amount credited t' h, λ e. cc)
  take_by-Taken lock_unlock t a amount credited t' apart no_fee h = (
    λ e. cc,
    λ e.
        (transfer_to-Moved t a.authority a.token_mint a.user_account a.token_manager_ata amount
          credited t' apart (no_fee refl) h).1,
  )
  take_by-Taken lock_unlock_fee t a amount credited t' apart no_fee h = (
    λ e. cc,
    λ e.
        (transfer_with_fee_to-Moved t a.authority a.token_mint a.user_account a.token_manager_ata
          amount credited t' apart h).1,
  )

  pub give_by-Gave :
      (ty : TokenManagerType) (t : Tokens) (a : TokenAccounts) (amount credited : ℕ) (t' : Tokens)
      → a.token_manager_ata ≢ a.user_account
      → (ty ≡ lock_unlock → tp.epoch_fee a.token_mint ≡ none)
      → give_by tp ty t a amount ≡ ok (credited, t')
      → Gave ty t a amount t'
  unfolding give_by
  give_by-Gave native_interchain_token t a amount credited t' apart no_fee h =
      (λ e. minted t a.authority a.token_mint a.user_account amount credited t' h, λ e. cc)
  give_by-Gave mint_burn_from t a amount credited t' apart no_fee h =
      (λ e. minted t a.authority a.token_mint a.user_account amount credited t' h, λ e. cc)
  give_by-Gave mint_burn t a amount credited t' apart no_fee h =
      (λ e. minted t a.authority a.token_mint a.user_account amount credited t' h, λ e. cc)
  give_by-Gave lock_unlock t a amount credited t' apart no_fee h = (
    λ e. cc,
    λ e.
        (transfer_to-Moved t a.authority a.token_mint a.token_manager_ata a.user_account amount
          credited t' apart (no_fee refl) h).0,
  )
  give_by-Gave lock_unlock_fee t a amount credited t' apart no_fee h = (
    λ e. cc,
    λ e.
        (transfer_with_fee_to-Moved t a.authority a.token_mint a.token_manager_ata a.user_account
          amount credited t' apart h).0,
  )

  credited_by_mint :
      (t : Tokens) (authority : CpiAuthority) (mint to amount credited : ℕ) (t' : Tokens)
      → whole (tp.mint_to t authority mint to amount) amount ≡ ok (credited, t')
      → t'.amount to ≡ t.amount to + credited
  credited_by_mint t authority mint to amount credited t' h =
      let (call, same) = whole_lem (tp.mint_to t authority mint to amount) amount credited t' h in
      let (raised, more) = laws.mint_raises t t' authority mint to amount call in omega arith

  -- The receiver is credited what the call returns.
  pub give_by_credits :
      (ty : TokenManagerType) (t : Tokens) (a : TokenAccounts) (amount credited : ℕ) (t' : Tokens)
      → a.token_manager_ata ≢ a.user_account
      → (ty ≡ lock_unlock → tp.epoch_fee a.token_mint ≡ none)
      → give_by tp ty t a amount ≡ ok (credited, t')
      → t'.amount a.user_account ≡ t.amount a.user_account + credited
  unfolding give_by
  give_by_credits native_interchain_token t a amount credited t' apart no_fee h =
      credited_by_mint t a.authority a.token_mint a.user_account amount credited t' h
  give_by_credits mint_burn_from t a amount credited t' apart no_fee h =
      credited_by_mint t a.authority a.token_mint a.user_account amount credited t' h
  give_by_credits mint_burn t a amount credited t' apart no_fee h =
      credited_by_mint t a.authority a.token_mint a.user_account amount credited t' h
  give_by_credits lock_unlock t a amount credited t' apart no_fee h =
      (transfer_to-Moved t a.authority a.token_mint a.token_manager_ata a.user_account amount
        credited t' apart (no_fee refl) h).1
  give_by_credits lock_unlock_fee t a amount credited t' apart no_fee h =
      (transfer_with_fee_to-Moved t a.authority a.token_mint a.token_manager_ata a.user_account
        amount credited t' apart h).1
