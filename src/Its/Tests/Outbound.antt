-- ===== src/Its/Tests/Outbound.antt =====
-- A transfer of a locked token to a trusted chain.
use axelar_amplifier_solana.Its.Tests.{its_env, manager_pda}
use axelar_amplifier_solana.Its.Tests.{root_pda as its_root_pda}
use axelar_amplifier_solana.Gateway.Tests.{
  env, root_pda as gateway_root_pda, st1 as gateway_store, program_run, address_of,
}
use axelar_amplifier_solana.Gas.{pay_gas, treasury_seeds}
use axelar_amplifier_solana.Its.Tokens.{
  take_by, take_token, transfer_with_fee_to, validate_token_manager_type,
}
use axelar_amplifier_solana.Its.Flow.{ItsResult, track_token_flow}
use axelar_amplifier_solana.Its.Outbound.{
  InterchainTransferAccounts, TransferArguments, check_transfer_accounts,
  interchain_transfer_handler, process_outbound_transfer, source_of,
}
use axelar_amplifier_solana.Its.Chains.{InterchainTokenService, has_chain, is_trusted_chain}
use axelar_amplifier_solana.Its.Hub.{HubEnv, HubWorld, send_to_hub, send_to_hub_wrap}
use axelar_amplifier_solana.Its.State.{load_service}
use axelar_amplifier_solana.Its.Tests.Tokens.{locking, plain_tokens, tokens_0}
use axelar_amplifier_solana.Its.Outbound.Sent.{Sent}
use axelar_amplifier_solana.Std.Lamports.Instances.{plain_system}
use axelar_amplifier_solana.Gateway.Config.{call_contract}
use axelar_amplifier_solana.Gateway.State.{call_contract_seeds}
use axelar_amplifier_solana.Prelude.{
  if◌then◌else◌, ◌==◌, [], err, false, none, ok, pos, refl, some, true, update, ℕ, ◌∷◌, ◌≡◌,
}

abbrev signing_pda : ℕ
signing_pda = address_of call_contract_seeds

abbrev pub hub_env : HubEnv
hub_env = record {
  its_env = its_env;
  token_program = plain_tokens;
  token_account = update (update (λ a. none) 3 (2, 8)) 4 (2, manager_pda);
  associated_token_address = λ authority mint. if authority == manager_pda then 4 else authority;
  system = plain_system;
  gas_id = 1;
  operators_id = 2;
  operators = λ a. none;
  gateway_env = env;
  to_vec = λ message. some (0 ∷ []);
  to_bytes = λ key. key ∷ [];
}

abbrev treasury_address : ℕ
treasury_address = address_of treasury_seeds

abbrev pub service : InterchainTokenService
service = record {
  its_hub_address = 2 ∷ [];
  chain_name = 1 ∷ [];
  paused = false;
  trusted_chains = (3 ∷ []) ∷ [];
  bump = 0;
}

abbrev pub world : HubWorld
world = record {
  its = record {
    services = update (λ a. none) its_root_pda service;
    managers = update (λ a. none) manager_pda locking;
    user_roles = λ a. none;
    events = [];
  };
  tokens = tokens_0;
  gas = record {
    lamports = λ a. 100;
    treasuries = update (λ a. none) treasury_address (record { bump = 0 });
    events = [];
  };
  gateway = gateway_store;
}

abbrev accounts : InterchainTransferAccounts
accounts = record {
  payer = 9;
  payer_is_signer = true;
  authority = 8;
  authority_is_signer = true;
  authority_owner = 0;
  gateway_root_pda = gateway_root_pda;
  call_contract_signing_pda = signing_pda;
  gas_treasury = treasury_address;
  its_root_pda = its_root_pda;
  token_manager_pda = manager_pda;
  token_mint = 2;
  authority_token_account = 3;
  token_manager_ata = 4;
}

abbrev arguments : TransferArguments
arguments = record {
  token_id = 5;
  destination_chain = 3 ∷ [];
  destination_address = 6 ∷ [];
  amount = 10;
  gas_value = 7;
  caller_program_id = none;
  caller_pda_seeds = none;
  payload_data = none;
}

abbrev or_world : ItsResult HubWorld → HubWorld
or_world (ok w) = w
or_world (err e) = world

abbrev world_1 : HubWorld
world_1 = or_world (interchain_transfer_handler hub_env 0 (pos 0) world accounts arguments)

unfoldable transfer_run : Unit {0}
unfolding interchain_transfer_handler check_transfer_accounts load_service is_trusted_chain
    has_chain source_of process_outbound_transfer take_token validate_token_manager_type take_by
    transfer_with_fee_to track_token_flow send_to_hub_wrap send_to_hub pay_gas call_contract
    program_run
transfer_run = tt

-- The fee of one is not in the message, and the manager has the rest.
credited_1 : world_1.tokens.amount 4 ≡ 109
unfolding transfer_run
credited_1 = refl
