-- ===== src/Its/Tests/Tokens.antt =====
-- A token program that only keeps balances and supplies, and transfers of a locked token.
use axelar_amplifier_solana.Its.Tokens.{
  CpiAuthority, TokenAccounts, TokenProgram, Tokens, give_by, handle_give_token_transfer,
  is_minting, take_by, take_token, transfer_with_fee_to, validate_token_manager_type,
}
use axelar_amplifier_solana.Its.Flow.{ItsResult, track_token_flow}
use axelar_amplifier_solana.Its.State.{TokenManager, init_account, lock_unlock_fee}
use axelar_amplifier_solana.Its.Tokens.Backing.{
  IsBacked, Transfers, Transfers-IsBacked, incoming, no_transfer, of_user, outgoing,
}
use axelar_amplifier_solana.Its.Tokens.Custody.{TokenLaws}
use axelar_amplifier_solana.Std.Lamports.{with_balance}
use axelar_amplifier_solana.Prelude.{
  not, true, ◌||◌, Option, arith, err, if◌then◌else◌, ltb, none, ok, pos, refl, some, ℕ, ◌+◌, ◌-◌,
  ◌≡◌, ◌≢◌,
}

-- Moves what is debited of one account, of which so much is credited to another.
abbrev move : Tokens → CpiAuthority → (from to debited credited : ℕ) → Option Tokens
move t authority from to debited credited =
    if not authority.signs || ltb (t.amount from) debited
    then none
    else (let rest = with_balance t.amount from (t.amount from - debited) in
        some (record t { amount = with_balance rest to (rest to + credited) }))

abbrev plain_burn : Tokens → CpiAuthority → (mint from amount : ℕ) → Option Tokens
plain_burn t authority mint from amount =
    if not authority.signs || ltb (t.amount from) amount || ltb (t.supply mint) amount
    then none
    else some (record {
      amount = with_balance t.amount from (t.amount from - amount);
      supply = with_balance t.supply mint (t.supply mint - amount);
    })

abbrev plain_mint : Tokens → CpiAuthority → (mint to amount : ℕ) → Option Tokens
plain_mint t authority mint to amount =
    if not authority.signs
    then none
    else some (record {
      amount = with_balance t.amount to (t.amount to + amount);
      supply = with_balance t.supply mint (t.supply mint + amount);
    })

-- A fee of one token, which is not credited.
abbrev pub plain_tokens : TokenProgram
plain_tokens = record {
  burn = plain_burn;
  mint_to = plain_mint;
  transfer_checked =
      λ t authority mint from to amount decimals. move t authority from to amount amount;
  transfer_checked_with_fee = λ t authority mint from to amount decimals fee.
      if ltb amount fee then none else move t authority from to amount (amount - fee);
  mint_authority = λ mint. some none;
  decimals = λ mint. some 9;
  epoch_fee = λ mint. some (λ amount. some 1);
}

plain_burn_lem :
    (t t' : Tokens) (authority : CpiAuthority) (mint from amount : ℕ)
    → plain_burn t authority mint from amount ≡ some t'
    → (t'.supply mint + amount ≡ t.supply mint) × (t'.amount from + amount ≡ t.amount from)
plain_burn_lem t t' authority mint from amount h = ground arith

plain_mint_lem :
    (t t' : Tokens) (authority : CpiAuthority) (mint to amount : ℕ)
    → plain_mint t authority mint to amount ≡ some t'
    → (t'.supply mint ≡ t.supply mint + amount) × (t'.amount to ≡ t.amount to + amount)
plain_mint_lem t t' authority mint to amount h = ground arith

fee_lem :
    (t t' : Tokens) (authority : CpiAuthority) (from to amount fee : ℕ)
    → from ≢ to
    → (if ltb amount fee then none else move t authority from to amount (amount - fee)) ≡ some t'
    → (t'.amount from + amount ≡ t.amount from) × (t'.amount to + fee ≡ t.amount to + amount)
fee_lem t t' authority from to amount fee apart h = ground arith

move_lem :
    (t t' : Tokens) (authority : CpiAuthority) (from to debited credited : ℕ)
    → from ≢ to
    → move t authority from to debited credited ≡ some t'
    → (t'.amount from + debited ≡ t.amount from) × (t'.amount to ≡ t.amount to + credited)
move_lem t t' authority from to debited credited apart h = ground arith

pub plain_tokens-TokenLaws : TokenLaws plain_tokens
plain_tokens-TokenLaws = record {
  burn_lowers =
      λ t t' authority mint from amount h. plain_burn_lem t t' authority mint from amount h;
  mint_raises = λ t t' authority mint to amount h. plain_mint_lem t t' authority mint to amount h;
  transfer_moves = λ t t' authority mint from to amount decimals apart no_fee h.
      move_lem t t' authority from to amount amount apart h;
  fee_transfer_moves = λ t t' authority mint from to amount decimals fee apart h.
      fee_lem t t' authority from to amount fee apart h;
}

abbrev signing : ℕ → CpiAuthority
signing key = record { key = key; signs = true }

abbrev accounts : TokenAccounts
accounts = record {
  token_manager_pda = 1;
  token_mint = 2;
  user_account = 3;
  token_manager_ata = 4;
  authority = signing 3;
}

abbrev pub locking : TokenManager
locking = init_account lock_unlock_fee 5 2 4 0

abbrev pub tokens_0 : Tokens
tokens_0 = record { amount = λ a. 100; supply = λ a. 1000 }

abbrev result : ItsResult (ℕ × Tokens × TokenManager) → ℕ × Tokens × TokenManager
result (ok r) = r
result (err e) = (0, tokens_0, locking)

abbrev sent_1 : ℕ × Tokens × TokenManager
sent_1 = result (take_token plain_tokens (pos 0) locking tokens_0 accounts 10)

step_1 :
    take_token plain_tokens (pos 0) locking tokens_0 (of_user accounts 3 (signing 3)) 10 ≡ ok sent_1
unfolding take_token validate_token_manager_type take_by transfer_with_fee_to track_token_flow
step_1 = refl

abbrev received_2 : ℕ × Tokens × TokenManager
received_2 = result (
    handle_give_token_transfer plain_tokens (pos 0) sent_1.2 sent_1.1
      (of_user accounts 6 (signing 1)) 5)

step_2 :
    handle_give_token_transfer plain_tokens
      (pos 0)
      sent_1.2
      sent_1.1
      (of_user accounts 6 (signing 1))
      5
    ≡ ok received_2
unfolding take_token validate_token_manager_type take_by transfer_with_fee_to track_token_flow
    handle_give_token_transfer give_by
step_2 = refl

transfers : Transfers plain_tokens accounts locking tokens_0 9 5 received_2.2 received_2.1
unfolding take_token validate_token_manager_type take_by transfer_with_fee_to track_token_flow
    handle_give_token_transfer give_by
transfers =
    incoming 9 0 sent_1.2 sent_1.1 (pos 0) 6 (signing 1) 5 received_2.0 received_2.1 received_2.2 5
      (outgoing 0 0 locking tokens_0 (pos 0) 3 (signing 3) 10 sent_1.0 sent_1.1 sent_1.2 9
        no_transfer (omega arith) step_1 refl)
      (omega arith) step_2 refl

Transfers-IsBacked_example :
    (received_2.2.ty ≡ locking.ty)
    × IsBacked (is_minting locking.ty) accounts 9 5 tokens_0 received_2.1
Transfers-IsBacked_example =
    Transfers-IsBacked plain_tokens plain_tokens-TokenLaws accounts locking tokens_0 9 5
      received_2.2 received_2.1 (λ e. cc) transfers
