-- ===== src/Its/Inbound/Received.antt =====
-- What an incoming transfer gives
-- (programs/solana-axelar-its/src/instructions/gmp/interchain_transfer.rs).
use axelar_amplifier_solana.Its.Tokens.{is_minting, Tokens, handle_give_token_transfer}
use axelar_amplifier_solana.Its.Inbound.{
  execute_payload, give_tokens, invoke_destination_program, call_with, given_store,
  execute_interchain_transfer_handler,
}
use axelar_amplifier_solana.Its.Chains.{InterchainTokenService}
use axelar_amplifier_solana.Its.State.{
  interchain_transfer_received, lock_unlock, ItsStore, TokenManager, load_service,
}
use axelar_amplifier_solana.Prelude.{
  List, Option, refl, subst, ap, sym, none, ◌+◌, ◌∷◌, ◌≢◌, [], arith, false, ok, some, true, ℕ, ℤ,
  ◌≡◌,
}
use axelar_amplifier_solana.Its.Outbound.{data_hash_of}
use axelar_amplifier_solana.Its.Tokens.Backing.{IsBacked, given, more_received, none-IsBacked}
use axelar_amplifier_solana.Its.Tokens.Custody.{TokenLaws, give_by-Gave, give_by_credits}
use axelar_amplifier_solana.Std.Hashing.{command_id}
use axelar_amplifier_solana.Its.Inbound.Accounts.{
  accounts_eq, ExecuteInterchainTransferAccounts, InboundEnv, InboundWorld, ReceivedArguments,
  check_destination_authority, check_inbound_accounts, expected_authority, given_accounts,
}
use axelar_amplifier_solana.Gateway.Payload.{AxelarMessagePayload}
use axelar_amplifier_solana.Gateway.Payload.Codec.{decode}

module _ (env : InboundEnv) where
  -- The steps that give the tokens of an incoming transfer.
  record Given (now : ℤ) (w : InboundWorld) (a : ExecuteInterchainTransferAccounts)
      (args : ReceivedArguments) (given : ℕ × Tokens × TokenManager) : Type 0 where
    pub manager : TokenManager
    pub accounts_checked : check_inbound_accounts env w.its a args ≡ ok manager
    pub authority :
        a.destination_token_authority ≡ expected_authority env a.destination a.destination_owner
    pub token_given :
        handle_give_token_transfer env.hub.token_program now manager w.tokens
          (given_accounts env a manager)
          args.amount
        ≡ ok given

  give_tokens-Given :
      (now : ℤ) (w : InboundWorld) (a : ExecuteInterchainTransferAccounts)
      (args : ReceivedArguments) (given : ℕ × Tokens × TokenManager)
      → give_tokens env now w a args ≡ ok given
      → Given now w a args given
  unfolding give_tokens check_destination_authority
  give_tokens-Given now w a args given h = ground arith

  -- The tokens are given first, then the destination is called.
  record Parts (now : ℤ) (w : InboundWorld) (a : ExecuteInterchainTransferAccounts)
      (args : ReceivedArguments) (w' : InboundWorld) : Type 0 where
    pub given : ℕ × Tokens × TokenManager
    pub tokens_given : give_tokens env now w a args ≡ ok given
    pub tokens_after : Tokens
    pub called_last : call_with env a args given.0 given.1 ≡ ok tokens_after
    pub result_is :
        record { its = given_store env w.its a args given.0 given.2; tokens = tokens_after } ≡ w'

  execute_interchain_transfer_handler-Parts :
      (now : ℤ) (w : InboundWorld) (a : ExecuteInterchainTransferAccounts)
      (args : ReceivedArguments) (w' : InboundWorld)
      → execute_interchain_transfer_handler env now w a args ≡ ok w'
      → Parts now w a args w'
  unfolding execute_interchain_transfer_handler
  execute_interchain_transfer_handler-Parts now w a args w' h = ground arith

  -- The checks that matter here.
  record Checked (st : ItsStore) (a : ExecuteInterchainTransferAccounts) (args : ReceivedArguments)
      (manager : TokenManager) : Type 0 where
    pub root_signs : a.its_root_is_signer ≡ true
    pub its : InterchainTokenService
    pub its_at : st.services a.its_root_pda ≡ some its
    pub not_paused : its.paused ≡ false
    pub destination : a.destination ≡ args.destination_address
    pub manager_at : st.managers a.token_manager_pda ≡ some manager
    pub destination_ata :
        env.hub.associated_token_address a.destination_token_authority a.token_mint
        ≡ a.destination_ata

  check_inbound_accounts-Checked :
      (st : ItsStore) (a : ExecuteInterchainTransferAccounts) (args : ReceivedArguments)
      (manager : TokenManager)
      → check_inbound_accounts env st a args ≡ ok manager
      → Checked st a args manager
  unfolding check_inbound_accounts load_service
  check_inbound_accounts-Checked st a args manager h = ground arith

  -- The destination is called with its payload and the accounts that the payload names.
  pub record Invoked (a : ExecuteInterchainTransferAccounts) (args : ReceivedArguments) (amount : ℕ)
      (t t' : Tokens) : Type 0 where
    pub payload : AxelarMessagePayload
    pub payload_decoded : decode env.bo env.abi args.payload_data ≡ ok payload
    pub accounts_there : accounts_eq payload.solana_accounts a.remaining_accounts ≡ true
    pub destination_called :
        env.invoke a.destination
          (execute_payload env a args amount payload.payload_without_accounts)
          payload.solana_accounts
          t
        ≡ some t'

  -- Without data the tokens stay, otherwise the destination is called with them.
  abbrev pub Called :
      ExecuteInterchainTransferAccounts → ReceivedArguments → ℕ → List ℕ → Tokens → Tokens → Type 0
  Called a args amount [] t t' = t' ≡ t
  Called a args amount (b ∷ bs) t t' = Invoked a args amount t t'

  invoke_destination_program-Invoked :
      (a : ExecuteInterchainTransferAccounts) (args : ReceivedArguments)
      (interchain_transfer_execute : Option ℕ) (amount : ℕ) (t t' : Tokens)
      → invoke_destination_program env a args interchain_transfer_execute amount t ≡ ok t'
      → Invoked a args amount t t'
  unfolding invoke_destination_program
  invoke_destination_program-Invoked a args none amount t t' h = cc
  invoke_destination_program-Invoked a args (some address) amount t t' h = ground arith

  call_with-Called :
      (a : ExecuteInterchainTransferAccounts) (args : ReceivedArguments) (amount : ℕ) (l : List ℕ)
      (t t' : Tokens)
      → args.payload_data ≡ l
      → call_with env a args amount t ≡ ok t'
      → Called a args amount l t t'
  unfolding call_with
  call_with-Called a args amount [] t t' e h = ground arith
  call_with-Called a args amount (b ∷ bs) t t' e h =
      invoke_destination_program-Invoked a args a.interchain_transfer_execute amount t t'
        (ground arith)

  -- The receiver's account is the one of the destination, and the tokens that it is given are
  -- backed.
  pub record Received (w : InboundWorld) (a : ExecuteInterchainTransferAccounts)
      (args : ReceivedArguments) (w' : InboundWorld) : Type 0 where
    pub root_signs : a.its_root_is_signer ≡ true
    pub its : InterchainTokenService
    pub its_at : w.its.services a.its_root_pda ≡ some its
    pub not_paused : its.paused ≡ false
    pub destination_ata :
        env.hub.associated_token_address
          (expected_authority env args.destination_address a.destination_owner)
          a.token_mint
        ≡ a.destination_ata
    pub manager : TokenManager
    pub manager_at : w.its.managers a.token_manager_pda ≡ some manager
    pub amount : ℕ
    pub given : Tokens
    pub credited : given.amount a.destination_ata ≡ w.tokens.amount a.destination_ata + amount
    pub backed :
        IsBacked (is_minting manager.ty) (given_accounts env a manager) 0 args.amount w.tokens given
    pub called_with_given : Called a args amount args.payload_data given w'.tokens
    pub event :
        w'.its.events
        ≡ interchain_transfer_received
            (command_id env.hub.its_env.rt args.message)
            args.token_id
            args.source_chain
            args.source_address
            args.destination_address
            a.destination_ata
            amount
            (data_hash_of env.hub.its_env.rt (some args.payload_data))
          ∷ w.its.events

  -- If an incoming transfer succeeds, the mint has no fee where the manager is of type lock_unlock, and
  -- the receiver's account is not the one of the manager, then the root of the service signs, the
  -- service is not paused, and the receiver's account is the associated one of the destination address,
  -- or of its PDA if a loader owns it; this account is credited the amount of the event, and the amount
  -- of the message is minted or leaves the manager. Without data these are the tokens afterwards;
  -- otherwise they are what the destination makes of them, which is called with the amount of the event
  -- and the payload decoded from the data, whose accounts are those of the instruction.
  pub execute_interchain_transfer_handler-Received :
      (laws : TokenLaws env.hub.token_program) (now : ℤ) (w : InboundWorld)
      (a : ExecuteInterchainTransferAccounts) (args : ReceivedArguments) (w' : InboundWorld)
      → a.token_manager_ata ≢ a.destination_ata
      → ((manager : TokenManager)
          → w.its.managers a.token_manager_pda ≡ some manager
          → manager.ty ≡ lock_unlock
          → env.hub.token_program.epoch_fee a.token_mint ≡ none)
      → execute_interchain_transfer_handler env now w a args ≡ ok w'
      → Received w a args w'
  execute_interchain_transfer_handler-Received laws now w a args w' apart no_fee h =
      let tp = env.hub.token_program in
      let x = execute_interchain_transfer_handler-Parts now w a args w' h in
      let g = give_tokens-Given now w a args x.given x.tokens_given in
      let accounts = given_accounts env a g.manager in
      let c = check_inbound_accounts-Checked w.its a args g.manager g.accounts_checked in
      let (by, same_type) =
        given tp laws now g.manager w.tokens accounts args.amount x.given.0 x.given.1 x.given.2
          g.token_given in
      let no_fee_here = no_fee g.manager c.manager_at in
      let m =
        give_by-Gave tp laws g.manager.ty w.tokens accounts args.amount x.given.0 x.given.1 apart
          no_fee_here by in
      let holder = g.authority in
      let same = c.destination in
      record {
        root_signs = c.root_signs;
        its = c.its;
        its_at = c.its_at;
        not_paused = c.not_paused;
        destination_ata = rw same at (rw holder at c.destination_ata);
        manager = g.manager;
        manager_at = c.manager_at;
        amount = x.given.0;
        given = x.given.1;
        credited =
            give_by_credits tp laws g.manager.ty w.tokens accounts args.amount x.given.0 x.given.1
              apart no_fee_here by;
        backed =
            more_received tp laws (is_minting g.manager.ty) accounts 0 0 args.amount args.amount
              w.tokens w.tokens x.given.1
              (none-IsBacked tp laws (is_minting g.manager.ty) accounts w.tokens) m.0 m.1
              (omega arith);
        called_with_given =
            subst (Called a args x.given.0 args.payload_data x.given.1)
              (ap (λ (r : InboundWorld). r.tokens) x.result_is)
              (call_with-Called a args x.given.0 args.payload_data x.given.1 x.tokens_after refl
                x.called_last);
        event = ap (λ (r : InboundWorld). r.its.events) (sym x.result_is);
      }
