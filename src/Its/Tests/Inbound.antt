-- ===== src/Its/Tests/Inbound.antt =====
-- A transfer of a locked token to a program, which spends what it is given.
use axelar_amplifier_solana.Its.Tests.{manager_pda}
use axelar_amplifier_solana.Its.Tests.{root_pda as its_root_pda}
use axelar_amplifier_solana.Its.Tests.Outbound.{hub_env, world}
use axelar_amplifier_solana.Gateway.Tests.{message, address_of}
use axelar_amplifier_solana.Its.Tokens.{
  give_by, handle_give_token_transfer, transfer_with_fee_to, validate_token_manager_type,
}
use axelar_amplifier_solana.Its.Flow.{track_token_flow}
use axelar_amplifier_solana.Its.Inbound.{
  invoke_destination_program, execute_interchain_transfer_handler, call_with, give_tokens,
}
use axelar_amplifier_solana.Its.Inbound.Accounts.{
  interchain_transfer_execute_seeds, ExecuteInterchainTransferAccounts, InboundEnv, InboundWorld,
  ReceivedArguments, check_destination_authority, check_inbound_accounts, expected_authority,
  InboundResult,
}
use axelar_amplifier_solana.Its.State.{TokenManager, load_service, lock_unlock}
use axelar_amplifier_solana.Its.Tests.Tokens.{plain_tokens, plain_tokens-TokenLaws}
use axelar_amplifier_solana.Its.Inbound.Received.{
  Received, execute_interchain_transfer_handler-Received,
}
use axelar_amplifier_solana.Std.Hashing.{codes, command_id}
use axelar_amplifier_solana.Gateway.Payload.Instances.{read_all, plain_abi, plain_borsh}
use axelar_amplifier_solana.Prelude.{
  from_le_bytes, ℕ, ◌-◌, [], arith, err, none, ok, pos, refl, some, true, ◌∷◌, ◌≡◌,
}
use axelar_amplifier_solana.Std.Runtime.{Slice}
use axelar_amplifier_solana.Std.Lamports.{with_balance}
use axelar_amplifier_solana.Gateway.Payload.{read_account, decode_borsh, scheme_from_u8}
use axelar_amplifier_solana.Gateway.Payload.Codec.{decode}

abbrev token_authority : ℕ
token_authority = address_of (Slice.bytes (codes "axelar-its-token-authority") ∷ [])

abbrev inbound_env : InboundEnv
inbound_env = record {
  hub = hub_env;
  bo = plain_borsh;
  abi = plain_abi;
  bpf_loaders = 11 ∷ [];
  invoke = λ destination payload metas t. some (record t {
    amount = with_balance t.amount token_authority (t.amount token_authority - payload.amount);
  });
}

abbrev held : InboundWorld
held = record { its = world.its; tokens = world.tokens }

abbrev accounts : ExecuteInterchainTransferAccounts
accounts = record {
  payer_is_signer = true;
  its_root_pda = its_root_pda;
  its_root_is_signer = true;
  destination = 6;
  destination_owner = 11;
  destination_token_authority = token_authority;
  destination_ata = token_authority;
  token_mint = 2;
  token_manager_pda = manager_pda;
  token_manager_ata = 4;
  interchain_transfer_execute = some (address_of (interchain_transfer_execute_seeds 6));
  remaining_accounts = [];
}

-- In borsh, a payload of one byte without accounts.
abbrev arguments : ReceivedArguments
arguments = record {
  message = message;
  source_chain = 3 ∷ [];
  source_address = 7 ∷ [];
  destination_address = 6;
  token_id = 5;
  amount = 10;
  payload_data = 0 ∷ 1 ∷ 0 ∷ 0 ∷ 0 ∷ 9 ∷ 0 ∷ 0 ∷ 0 ∷ 0 ∷ [];
}

abbrev or_held : InboundResult InboundWorld → InboundWorld
or_held (ok w) = w
or_held (err e) = held

abbrev held_1 : InboundWorld
held_1 = or_held (execute_interchain_transfer_handler inbound_env (pos 0) held accounts arguments)

unfoldable received_run : Unit {0}
unfolding execute_interchain_transfer_handler give_tokens check_inbound_accounts load_service
    check_destination_authority expected_authority validate_token_manager_type call_with
    handle_give_token_transfer give_by transfer_with_fee_to track_token_flow command_id
    invoke_destination_program decode decode_borsh scheme_from_u8 read_all read_account
    from_le_bytes
received_run = tt

received_1 :
    execute_interchain_transfer_handler inbound_env (pos 0) held accounts arguments ≡ ok held_1
unfolding received_run
received_1 = refl

spent_1 : held_1.tokens.amount token_authority ≡ 100
unfolding received_run
spent_1 = refl

no_fee :
    (m : TokenManager)
    → held.its.managers manager_pda ≡ some m
    → m.ty ≡ lock_unlock
    → plain_tokens.epoch_fee 2 ≡ none
no_fee m found e = ground arith

execute_interchain_transfer_handler-Received_example :
    Received inbound_env held accounts arguments held_1
execute_interchain_transfer_handler-Received_example =
    execute_interchain_transfer_handler-Received inbound_env plain_tokens-TokenLaws (pos 0) held
      accounts arguments held_1 (omega arith) no_fee received_1
