-- ===== src/Its/Inbound.antt =====
-- Incoming transfers: `execute_interchain_transfer_handler` of
-- programs/solana-axelar-its/src/instructions/gmp/interchain_transfer.rs.
pub mod Accounts
pub mod Received
use axelar_amplifier_solana.Its.Inbound.Accounts.{
  ExecuteInterchainTransferAccounts, ReceivedArguments, AxelarExecuteWithInterchainTokenPayload,
  InboundWorld, InboundEnv, given_accounts, account_eq, accounts_eq, InboundError, InboundResult,
  of_service, decoded, interchain_transfer_execute_seeds, expected_authority,
  check_destination_authority, check_inbound_accounts, service_failed, payload_failed,
}
use axelar_amplifier_solana.Its.Tokens.{
  TokenAccounts, Tokens, handle_give_token_transfer, validate_token_manager_type,
}
use axelar_amplifier_solana.Its.Flow.{
  ItsError, ItsResult, interchain_transfer_execute_pda_missing, invalid_amount,
  invalid_destination_address_account, invalid_destination_token_authority,
  token_mint_token_manager_missmatch,
}
use axelar_amplifier_solana.Its.Outbound.{data_hash_of}
use axelar_amplifier_solana.Its.Hub.{HubEnv}
use axelar_amplifier_solana.Its.State.{
  ItsStore, TokenManager, interchain_transfer_received, load_service, token_manager_seeds,
}
use axelar_amplifier_solana.Std.Runtime.{Slice}
use axelar_amplifier_solana.Std.Hashing.{codes, command_id}
use axelar_amplifier_solana.Std.Anchor.{is_address, check_pda, check_signer, load_account}
use axelar_amplifier_solana.Std.Types.{Message}
use axelar_amplifier_solana.Gateway.Env.{GatewayError, GResult}
use axelar_amplifier_solana.Gateway.Payload.{Abi, AxelarMessagePayload, Borsh, SolanaAccountRepr}
use axelar_amplifier_solana.Gateway.Payload.Codec.{decode}
use axelar_amplifier_solana.Prelude.{
  Error, Result, ◌++◌, Bool, List, Option, ProgramError, [], anchor, any, constraint_seeds,
  constraint_token, custom, err, false, if◌then◌else◌, length, none, not, ok, ok_or, panicked,
  program, require, some, true, update, ℕ, ℤ, ◌&&◌, ◌==◌, ◌>>=◌, ◌>>◌, ◌∷◌,
}
use axelar_amplifier_solana.Its.Tokens.Backing.{given}

module _ (env : InboundEnv) where
  abbrev pub execute_payload :
      ExecuteInterchainTransferAccounts
      → ReceivedArguments
      → (amount : ℕ) → List ℕ
      → AxelarExecuteWithInterchainTokenPayload
  execute_payload a args amount payload_data = record {
    command_id = command_id env.hub.its_env.rt args.message;
    source_chain = args.source_chain;
    source_address = args.source_address;
    token_id = args.token_id;
    token_mint = a.token_mint;
    amount = amount;
    payload_data = payload_data;
  }

  unfoldable pub invoke_destination_program :
      ExecuteInterchainTransferAccounts
      → ReceivedArguments
      → Option ℕ
      → (transferred_amount : ℕ) → Tokens
      → InboundResult Tokens
  invoke_destination_program a args none transferred_amount t =
      err (custom (service_failed interchain_transfer_execute_pda_missing))
  invoke_destination_program a args (some interchain_transfer_execute) transferred_amount t = do
    destination_payload ← decoded (decode env.bo env.abi args.payload_data)
    require (length destination_payload.solana_accounts == length a.remaining_accounts)
        (program ProgramError.not_enough_account_keys)
    require (accounts_eq destination_payload.solana_accounts a.remaining_accounts)
        (custom (service_failed ItsError.invalid_account_data))
    ok_or
        (env.invoke a.destination
          (execute_payload a args transferred_amount destination_payload.payload_without_accounts)
          destination_payload.solana_accounts t)
        panicked

  unfoldable pub call_with :
      ExecuteInterchainTransferAccounts
      → ReceivedArguments
      → (transferred_amount : ℕ) → Tokens
      → InboundResult Tokens
  call_with a args transferred_amount t =
      let call =
        invoke_destination_program a args a.interchain_transfer_execute transferred_amount t in
      if length args.payload_data == 0 then ok t else call

  -- The service once the tokens are given.
  abbrev pub given_store :
      ItsStore
      → ExecuteInterchainTransferAccounts
      → ReceivedArguments
      → (transferred_amount : ℕ) → TokenManager
      → ItsStore
  given_store st a args transferred_amount manager = record st {
    managers = update st.managers a.token_manager_pda manager;
    events =
        interchain_transfer_received (command_id env.hub.its_env.rt args.message) args.token_id
          args.source_chain args.source_address args.destination_address a.destination_ata
          transferred_amount (data_hash_of env.hub.its_env.rt (some args.payload_data))
        ∷ st.events;
  }

  -- The handler up to the event: the constraints, and the tokens that are given.
  unfoldable pub give_tokens :
      ℤ
      → InboundWorld
      → ExecuteInterchainTransferAccounts
      → ReceivedArguments
      → ItsResult (ℕ × Tokens × TokenManager)
  give_tokens now w a args = do
    manager ← check_inbound_accounts env w.its a args
    require (not (args.amount == 0)) (custom invalid_amount)
    check_destination_authority env a
    validate_token_manager_type env.hub.token_program manager.ty a.token_mint a.token_manager_pda
    handle_give_token_transfer env.hub.token_program now manager w.tokens
        (given_accounts env a manager) args.amount

  unfoldable pub execute_interchain_transfer_handler :
      ℤ
      → InboundWorld
      → ExecuteInterchainTransferAccounts
      → ReceivedArguments
      → InboundResult InboundWorld
  execute_interchain_transfer_handler now w a args = do
    given ← of_service (give_tokens now w a args)
    tokens ← call_with a args given.0 given.1
    ok (record { its = given_store w.its a args given.0 given.2; tokens = tokens })
