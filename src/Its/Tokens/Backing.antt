-- ===== src/Its/Tokens/Backing.antt =====
-- Transfers of one token, in any order (`take_token` and `handle_give_token_transfer` of
-- programs/solana-axelar-its/src/instructions).
use axelar_amplifier_solana.Its.State.{lock_unlock, TokenManager}
use axelar_amplifier_solana.Its.Tokens.{
  CpiAuthority, is_minting, give_by, take_by, TokenProgram, Tokens, TokenAccounts, take_token,
  handle_give_token_transfer,
}
use axelar_amplifier_solana.Its.Tokens.Custody.{give_by-Gave, take_by-Taken, TokenLaws}
use axelar_amplifier_solana.Prelude.{
  none, refl, ◌∙◌, Bool, arith, false, ok, true, ℕ, ℤ, ◌+◌, ◌≡◌, ◌≢◌,
}

abbrev pub of_user : TokenAccounts → ℕ → CpiAuthority → TokenAccounts
of_user a user authority = record a { user_account = user; authority = authority }

-- From the manager `m₀` and the tokens `t₀`, transfers that sent and received so much. The account
-- of the sender or the receiver is not the one of the manager.
pub data Transfers (tp : TokenProgram) (a : TokenAccounts) (manager_0 : TokenManager) (t_0 : Tokens)
    : ℕ → ℕ → TokenManager → Tokens → Type 0 where
  no_transfer : Transfers tp a manager_0 t_0 0 0 manager_0 t_0
  outgoing :
      (sent received : ℕ) (manager : TokenManager) (t : Tokens) (now : ℤ) (user : ℕ)
      (authority : CpiAuthority) (amount credited : ℕ) (t' : Tokens) (manager' : TokenManager)
      (total : ℕ)
      → Transfers tp a manager_0 t_0 sent received manager t
      → user ≢ a.token_manager_ata
      → take_token tp now manager t (of_user a user authority) amount ≡ ok (credited, t', manager')
      → total ≡ sent + credited
      → Transfers tp a manager_0 t_0 total received manager' t'
  incoming :
      (sent received : ℕ) (manager : TokenManager) (t : Tokens) (now : ℤ) (user : ℕ)
      (authority : CpiAuthority) (amount credited : ℕ) (t' : Tokens) (manager' : TokenManager)
      (total : ℕ)
      → Transfers tp a manager_0 t_0 sent received manager t
      → a.token_manager_ata ≢ user
      → handle_give_token_transfer tp now manager t (of_user a user authority) amount
        ≡ ok (credited, t', manager')
      → total ≡ received + amount
      → Transfers tp a manager_0 t_0 sent total manager' t'

-- Of a token that is burned and minted, the supply has changed by what was received less what was
-- sent; of one that is locked, the balance of the manager by what was sent less what was received.
abbrev pub IsBacked : Bool → TokenAccounts → (sent received : ℕ) → Tokens → Tokens → Type 0
IsBacked true a sent received t_0 t =
    t.supply a.token_mint + sent ≡ t_0.supply a.token_mint + received
IsBacked false a sent received t_0 t =
    t.amount a.token_manager_ata + received ≡ t_0.amount a.token_manager_ata + sent

module _ (tp : TokenProgram) (laws : TokenLaws tp) where
  pub taken :
      (now : ℤ) (manager : TokenManager) (t : Tokens) (a : TokenAccounts) (amount credited : ℕ)
      (t' : Tokens) (manager' : TokenManager)
      → take_token tp now manager t a amount ≡ ok (credited, t', manager')
      → (take_by tp manager.ty t a amount ≡ ok (credited, t')) × (manager'.ty ≡ manager.ty)
  unfolding take_token
  taken now manager t a amount credited t' manager' h = ground arith

  pub given :
      (now : ℤ) (manager : TokenManager) (t : Tokens) (a : TokenAccounts) (amount credited : ℕ)
      (t' : Tokens) (manager' : TokenManager)
      → handle_give_token_transfer tp now manager t a amount ≡ ok (credited, t', manager')
      → (give_by tp manager.ty t a amount ≡ ok (credited, t')) × (manager'.ty ≡ manager.ty)
  unfolding handle_give_token_transfer
  given now manager t a amount credited t' manager' h = ground arith

  pub more_sent :
      (b : Bool) (a : TokenAccounts) (sent received credited total : ℕ) (t_0 t t' : Tokens)
      → IsBacked b a sent received t_0 t
      → (b ≡ true → t'.supply a.token_mint + credited ≡ t.supply a.token_mint)
      → (b ≡ false → t'.amount a.token_manager_ata ≡ t.amount a.token_manager_ata + credited)
      → total ≡ sent + credited
      → IsBacked b a total received t_0 t'
  more_sent true a sent received credited total t_0 t t' h m l e = let step = m refl in omega arith
  more_sent false a sent received credited total t_0 t t' h m l e = let step = l refl in omega arith

  pub more_received :
      (b : Bool) (a : TokenAccounts) (sent received amount total : ℕ) (t_0 t t' : Tokens)
      → IsBacked b a sent received t_0 t
      → (b ≡ true → t'.supply a.token_mint ≡ t.supply a.token_mint + amount)
      → (b ≡ false → t'.amount a.token_manager_ata + amount ≡ t.amount a.token_manager_ata)
      → total ≡ received + amount
      → IsBacked b a sent total t_0 t'
  more_received true a sent received amount total t_0 t t' h m l e =
      let step = m refl in omega arith
  more_received false a sent received amount total t_0 t t' h m l e =
      let step = l refl in omega arith

  pub none-IsBacked : (b : Bool) (a : TokenAccounts) (t : Tokens) → IsBacked b a 0 0 t t
  none-IsBacked true a t = refl
  none-IsBacked false a t = refl

  -- After any transfers of a token, which has no fee if its manager is of type lock_unlock, the
  -- type of its manager is what it was, and the tokens back the transfers: if the manager burns
  -- and mints, the supply and what was sent make up the first supply and what was received; if it
  -- locks, its balance and what was received make up the first balance and what was sent, which is
  -- what the manager was credited.
  pub Transfers-IsBacked :
      (a : TokenAccounts) (manager_0 : TokenManager) (t_0 : Tokens) (sent received : ℕ)
      (manager : TokenManager) (t : Tokens)
      → (manager_0.ty ≡ lock_unlock → tp.epoch_fee a.token_mint ≡ none)
      → Transfers tp a manager_0 t_0 sent received manager t
      → (manager.ty ≡ manager_0.ty) × IsBacked (is_minting manager_0.ty) a sent received t_0 t
  Transfers-IsBacked a manager_0 t_0 _ _ _ _ no_fee no_transfer =
      (refl, none-IsBacked (is_minting manager_0.ty) a t_0)
  Transfers-IsBacked a manager_0 t_0 _ _ _ _ no_fee
        (outgoing sent received manager t now user authority amount credited t' manager' total
          before apart h e) =
      let (same, backed) =
        Transfers-IsBacked a manager_0 t_0 sent received manager t no_fee before in
      let (by, same_type) =
        taken now manager t (of_user a user authority) amount credited t' manager' h in
      let m =
        take_by-Taken tp laws manager_0.ty t (of_user a user authority) amount credited t' apart
          no_fee (rw same at by) in
      (
        same_type ∙ same,
        more_sent (is_minting manager_0.ty) a sent received credited total t_0 t t' backed m.0 m.1
            e,
      )
  Transfers-IsBacked a manager_0 t_0 _ _ _ _ no_fee
        (incoming sent received manager t now user authority amount credited t' manager' total
          before apart h e) =
      let (same, backed) =
        Transfers-IsBacked a manager_0 t_0 sent received manager t no_fee before in
      let (by, same_type) =
        given now manager t (of_user a user authority) amount credited t' manager' h in
      let m =
        give_by-Gave tp laws manager_0.ty t (of_user a user authority) amount credited t' apart
          no_fee (rw same at by) in
      (
        same_type ∙ same,
        more_received (is_minting manager_0.ty) a sent received amount total t_0 t t' backed m.0 m.1
            e,
      )
