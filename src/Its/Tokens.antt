-- ===== src/Its/Tokens.antt =====
-- How the service takes tokens from a sender and gives them to a receiver: `take_token` of
-- programs/solana-axelar-its/src/instructions/interchain_token/interchain_transfer.rs,
-- `handle_give_token_transfer`, `validate_token_manager_type` and `get_fee_and_decimals` of
-- instructions/gmp/interchain_transfer.rs.
pub mod Custody
pub mod Backing
use axelar_amplifier_solana.Its.Flow.{
  token_manager_mint_extension_mismatch, ItsResult, inbound, outbound, track_token_flow, ItsError,
}
use axelar_amplifier_solana.Prelude.{
  is_none, Bool, Option, custom, false, invalid_account_data, not, ok, ok_or, panicked, program,
  require, true, ℕ, ℤ, ◌>>=◌, ◌>>◌, ◌||◌,
}
use axelar_amplifier_solana.Its.State.{
  TokenManager, TokenManagerType, lock_unlock, lock_unlock_fee, mint_burn, mint_burn_from,
  native_interchain_token,
}
use axelar_amplifier_solana.Std.Anchor.{is_address, u64_checked_sub}

-- The balances of the token accounts and the supplies of the mints.
pub record Tokens : Type 0 where
  pub amount : ℕ → ℕ
  pub supply : ℕ → ℕ

-- The authority of a call of the token program, and whether it signs it: as a signer of the
-- instruction, or by the seeds that the service signs with.
pub record CpiAuthority : Type 0 where
  pub key : ℕ
  pub signs : Bool

-- The token program, which the service calls, and what it reads of a mint: its authority and
-- decimals, and the fee on an amount where the mint has a fee. The arguments of a call are the
-- authority, the mint, the account that is debited, the one that is credited, and the amount; then the
-- decimals and the fee. Where a call fails the runtime ends the transaction.
pub record TokenProgram : Type 0 where
  pub burn : Tokens → CpiAuthority → (mint from amount : ℕ) → Option Tokens
  pub mint_to : Tokens → CpiAuthority → (mint to amount : ℕ) → Option Tokens
  pub transfer_checked : Tokens → CpiAuthority → (mint from to amount decimals : ℕ) → Option Tokens
  pub transfer_checked_with_fee :
      Tokens → CpiAuthority → (mint from to amount decimals fee : ℕ) → Option Tokens
  pub mint_authority : ℕ → Option (Option ℕ)
  pub decimals : ℕ → Option ℕ
  pub epoch_fee : ℕ → Option (ℕ → Option ℕ)

-- The accounts of a transfer: `user_account` is the sender's or the receiver's, `token_manager_ata`
-- the one of the token manager; `authority` is that of the call that moves, burns or mints.
pub record TokenAccounts : Type 0 where
  pub token_manager_pda : ℕ
  pub token_mint : ℕ
  pub user_account : ℕ
  pub token_manager_ata : ℕ
  pub authority : CpiAuthority

-- Whether the manager burns and mints.
abbrev pub is_minting : TokenManagerType → Bool
is_minting native_interchain_token = true
is_minting mint_burn_from = true
is_minting mint_burn = true
is_minting lock_unlock = false
is_minting lock_unlock_fee = false

-- The result of a call that burns or mints the whole amount.
abbrev pub whole : Option Tokens → ℕ → ItsResult (ℕ × Tokens)
whole call amount = do t' ← ok_or call panicked; ok (amount, t')

module _ (tp : TokenProgram) where
  -- `Type::supports_mint_extensions`, of a mint that has a fee or not.
  unfoldable pub supports_mint_extensions : TokenManagerType → ℕ → Bool
  supports_mint_extensions native_interchain_token token_mint = true
  supports_mint_extensions mint_burn_from token_mint = true
  supports_mint_extensions lock_unlock token_mint = is_none (tp.epoch_fee token_mint)
  supports_mint_extensions lock_unlock_fee token_mint = not (is_none (tp.epoch_fee token_mint))
  supports_mint_extensions mint_burn token_mint = true

  -- `Type::validate_mint_extension`
  unfoldable pub validate_mint_extension : TokenManagerType → ℕ → ItsResult (Unit {0})
  validate_mint_extension ty token_mint =
      require (supports_mint_extensions ty token_mint)
        (custom token_manager_mint_extension_mismatch)

  unfoldable pub validate_token_manager_type :
      TokenManagerType → (token_mint token_manager_pda : ℕ) → ItsResult (Unit {0})
  validate_token_manager_type ty token_mint token_manager_pda = do
    mint_authority ← ok_or (tp.mint_authority token_mint) (program invalid_account_data)
    require (not (is_minting ty) || is_address mint_authority token_manager_pda)
        (custom ItsError.invalid_instruction_data)

  abbrev pub get_mint_decimals : ℕ → ItsResult ℕ
  get_mint_decimals token_mint = ok_or (tp.decimals token_mint) (program invalid_account_data)

  abbrev pub get_fee_and_decimals : ℕ → ℕ → ItsResult (ℕ × ℕ)
  get_fee_and_decimals token_mint amount = do
    calculate_epoch_fee ← ok_or (tp.epoch_fee token_mint) (program invalid_account_data)
    fee ← ok_or (calculate_epoch_fee amount) (custom ItsError.arithmetic_overflow)
    decimals ← get_mint_decimals token_mint
    ok (fee, decimals)

  -- A transfer to or from the account of the manager; the result is what the receiver gets.
  unfoldable pub transfer_to :
      Tokens → CpiAuthority → (mint from to amount : ℕ) → ItsResult (ℕ × Tokens)
  transfer_to t authority mint from to amount = do
    decimals ← get_mint_decimals mint
    t' ← ok_or (tp.transfer_checked t authority mint from to amount decimals) panicked
    ok (amount, t')

  unfoldable pub transfer_with_fee_to :
      Tokens → CpiAuthority → (mint from to amount : ℕ) → ItsResult (ℕ × Tokens)
  transfer_with_fee_to t authority mint from to amount = do
    (fee, decimals) ← get_fee_and_decimals mint amount
    t' ← ok_or (tp.transfer_checked_with_fee t authority mint from to amount decimals fee) panicked
    rest ← ok_or (u64_checked_sub amount fee) (custom ItsError.arithmetic_overflow)
    ok (rest, t')

  -- The `match` of `take_token`
  unfoldable pub take_by : TokenManagerType → Tokens → TokenAccounts → ℕ → ItsResult (ℕ × Tokens)
  take_by lock_unlock t a amount =
      transfer_to t a.authority a.token_mint a.user_account a.token_manager_ata amount
  take_by lock_unlock_fee t a amount =
      transfer_with_fee_to t a.authority a.token_mint a.user_account a.token_manager_ata amount
  take_by native_interchain_token t a amount =
      whole (tp.burn t a.authority a.token_mint a.user_account amount) amount
  take_by mint_burn_from t a amount =
      whole (tp.burn t a.authority a.token_mint a.user_account amount) amount
  take_by mint_burn t a amount =
      whole (tp.burn t a.authority a.token_mint a.user_account amount) amount

  unfoldable pub take_token :
      ℤ → TokenManager → Tokens → TokenAccounts → ℕ → ItsResult (ℕ × Tokens × TokenManager)
  take_token now manager t a amount = do
    validate_token_manager_type manager.ty a.token_mint a.token_manager_pda
    (transferred_amount, t') ← take_by manager.ty t a amount
    flow_slot ← track_token_flow manager.flow_slot now transferred_amount outbound
    ok (transferred_amount, t', record manager { flow_slot = flow_slot })

  -- The `match` of `handle_give_token_transfer`
  unfoldable pub give_by : TokenManagerType → Tokens → TokenAccounts → ℕ → ItsResult (ℕ × Tokens)
  give_by lock_unlock t a amount =
      transfer_to t a.authority a.token_mint a.token_manager_ata a.user_account amount
  give_by lock_unlock_fee t a amount =
      transfer_with_fee_to t a.authority a.token_mint a.token_manager_ata a.user_account amount
  give_by native_interchain_token t a amount =
      whole (tp.mint_to t a.authority a.token_mint a.user_account amount) amount
  give_by mint_burn_from t a amount =
      whole (tp.mint_to t a.authority a.token_mint a.user_account amount) amount
  give_by mint_burn t a amount =
      whole (tp.mint_to t a.authority a.token_mint a.user_account amount) amount

  unfoldable pub handle_give_token_transfer :
      ℤ → TokenManager → Tokens → TokenAccounts → ℕ → ItsResult (ℕ × Tokens × TokenManager)
  handle_give_token_transfer now manager t a amount = do
    flow_slot ← track_token_flow manager.flow_slot now amount inbound
    (transferred_amount, t') ← give_by manager.ty t a amount
    ok (transferred_amount, t', record manager { flow_slot = flow_slot })
