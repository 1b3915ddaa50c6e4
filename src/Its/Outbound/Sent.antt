-- ===== src/Its/Outbound/Sent.antt =====
-- What an outgoing transfer takes and what the message says
-- (programs/solana-axelar-its/src/instructions/interchain_token/interchain_transfer.rs and gmp.rs).
use axelar_amplifier_solana.Gateway.State
use axelar_amplifier_solana.Its.Hub.{
  interchain_transfer, send_to_hub_message, HubMessage, gateway_called, send_to_hub, HubEnv,
  HubWorld, GmpAccounts,
}
use axelar_amplifier_solana.Its.Chains.{
  is_trusted_chain, InterchainTokenService, its_hub_chain_name,
}
use axelar_amplifier_solana.Std.Hashing.{keccak}
use axelar_amplifier_solana.Gateway.Env.{GResult}
use axelar_amplifier_solana.Gateway.Config.{call_contract}
use axelar_amplifier_solana.Gateway.State.{call_contract_event}
use axelar_amplifier_solana.Prelude.{false, true, ℤ, ◌≢◌, List, arith, err, ok, some, ℕ, ◌∷◌, ◌≡◌}
use axelar_amplifier_solana.Its.Tokens.{is_minting, Tokens, take_token}
use axelar_amplifier_solana.Its.Outbound.{
  taken_world, InterchainTransferAccounts, TransferArguments, check_transfer_accounts,
  process_outbound_transfer, source_of, to_gmp_accounts, token_accounts, transfer_message,
}
use axelar_amplifier_solana.Its.State.{TokenManager}
use axelar_amplifier_solana.Its.Tokens.Backing.{IsBacked}

module _ (env : HubEnv) where
  -- The gateway was called with the payload.
  pub record HubCall (w : HubWorld) (its_hub_address : List ℕ) (message : HubMessage)
      (w' : HubWorld) : Type 0 where
    pub payload : List ℕ
    pub serialized : env.to_vec message ≡ some payload
    pub gateway_events :
        w'.gateway.events
        ≡ call_contract_event env.its_env.id
            (keccak env.gateway_env.rt payload)
            its_hub_chain_name
            its_hub_address
            payload
          ∷ w.gateway.events
    pub its_kept : w'.its ≡ w.its
    pub tokens_kept : w'.tokens ≡ w.tokens

  gateway_called-ok :
      (r : GResult State.Store) (st : State.Store) → gateway_called r ≡ ok st → r ≡ ok st
  gateway_called-ok (ok s) st h = cc
  gateway_called-ok (err e) st h = cc

  pub send_to_hub_sound :
      (w : HubWorld) (a : GmpAccounts) (its_hub_address : List ℕ) (message : HubMessage)
      (gas_value : ℕ) (w' : HubWorld)
      → send_to_hub env w a its_hub_address message gas_value ≡ ok w'
      → HubCall w its_hub_address message w'
  unfolding send_to_hub call_contract
  send_to_hub_sound w a its_hub_address message gas_value w' h = ground arith

  module _ (system_program : ℕ) where
    -- The steps of a transfer that succeeds.
    pub record Steps (now : ℤ) (w : HubWorld) (a : InterchainTransferAccounts)
        (args : TransferArguments) (w' : HubWorld) : Type 0 where
      pub checked : InterchainTokenService × TokenManager
      pub accounts_checked : check_transfer_accounts env system_program w.its a args ≡ ok checked
      pub positive : args.amount ≢ 0
      pub source_address : ℕ
      pub source_found :
          source_of env system_program a args.caller_program_id args.caller_pda_seeds
          ≡ ok source_address
      pub processed :
          process_outbound_transfer env system_program now w a args checked.0 checked.1
            source_address
          ≡ ok w'

    pub record Processed (now : ℤ) (w : HubWorld) (a : InterchainTransferAccounts)
        (args : TransferArguments) (its : InterchainTokenService) (manager : TokenManager)
        (source_address : ℕ) (w' : HubWorld) : Type 0 where
      pub credited : ℕ × Tokens × TokenManager
      pub token_taken :
          take_token env.token_program now manager w.tokens (token_accounts a) args.amount
          ≡ ok credited
      pub sent :
          send_to_hub env
            (taken_world env system_program w a args source_address credited)
            (to_gmp_accounts a)
            its.its_hub_address
            (send_to_hub_message args.destination_chain (
              interchain_transfer
                (transfer_message env system_program args source_address credited.0)))
            args.gas_value
          ≡ ok w'

    -- The amount that was burned or locked is the amount of the message that the gateway was given.
    pub record Sent (w : HubWorld) (a : InterchainTransferAccounts) (args : TransferArguments)
        (w' : HubWorld) : Type 0 where
      pub its : InterchainTokenService
      pub its_at : w.its.services a.its_root_pda ≡ some its
      pub not_paused : its.paused ≡ false
      pub trusted : is_trusted_chain its args.destination_chain ≡ true
      pub authority_signs : a.authority_is_signer ≡ true
      pub manager : TokenManager
      pub manager_at : w.its.managers a.token_manager_pda ≡ some manager
      pub amount : ℕ
      pub backed : IsBacked (is_minting manager.ty) (token_accounts a) amount 0 w.tokens w'.tokens
      pub source_address : ℕ
      pub source_found :
          source_of env system_program a args.caller_program_id args.caller_pda_seeds
          ≡ ok source_address
      pub payload : List ℕ
      pub serialized :
          env.to_vec (
            send_to_hub_message args.destination_chain (
              interchain_transfer (transfer_message env system_program args source_address amount)))
          ≡ some payload
      pub gateway_events :
          w'.gateway.events
          ≡ call_contract_event env.its_env.id
              (keccak env.gateway_env.rt payload)
              its_hub_chain_name
              its.its_hub_address
              payload
            ∷ w.gateway.events
