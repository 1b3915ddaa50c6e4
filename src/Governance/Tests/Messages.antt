-- ===== src/Governance/Tests/Messages.antt =====
-- The message of the gateway's run schedules a proposal.
use axelar_amplifier_solana.Governance.Tests.{params, config_pda, gov, st1, proposal}
use axelar_amplifier_solana.Gateway.Tests.{
  address_of, message, message_pda, program_run, root_pda, st4, validate_accounts, env,
}
use axelar_amplifier_solana.Governance.Gmp.{
  load_governance_config, Decoders, GmpAccounts, GmpResult, GovernanceCommandPayload,
  calculate_gmp_context, dispatch, ensure_authorized_gmp_command, process,
  schedule_time_lock_proposal, execute, World,
}
use axelar_amplifier_solana.Gateway.Executable.{check_executable_accounts, validate_message_raw}
use axelar_amplifier_solana.Governance.{
  GovernanceConfig, is_free, calculate_hash, proposal_seeds, validate_config,
}
use axelar_amplifier_solana.Governance.Config.{initialize_config}
use axelar_amplifier_solana.Governance.Proposals.{
  proposal_space, at_least_default_eta_delay, schedule_timelock_proposal,
}
use axelar_amplifier_solana.Prelude.{
  arith, none, update, ◌<◌, ◌^◌, [], err, ok, pos, refl, replicate, some, to_le_bytes, true, ℕ, ◌∷◌,
  ◌≡◌,
}
use axelar_amplifier_solana.Std.Lamports.{Balances}
use axelar_amplifier_solana.Std.Instances.{plain_runtime}
use axelar_amplifier_solana.Gateway.State.{IncomingMessage, executed}
use axelar_amplifier_solana.Gateway.Messages.{incoming_message}
use axelar_amplifier_solana.Governance.Gmp.Liveness.{execute_schedule_succeeds}
use axelar_amplifier_solana.Governance.Gmp.Messages.{
  Authorized, execute-Authorized, execute-schedules, execute_once,
}
use axelar_amplifier_solana.Governance.Proposals.Effect.{scheduled_proposal}

abbrev command : GovernanceCommandPayload
command = record {
  command = schedule_time_lock_proposal;
  target = replicate 32 0;
  call_data = [];
  native_value = 0;
  eta = 9000;
}

-- Every payload is the scheduling of the proposal.
abbrev plain_decoders : Decoders
plain_decoders = record {
  abi_decode = λ payload. some command;
  try_from_slice = λ call_data. some (proposal.call_data);
  pubkey = λ text. 7;
}

abbrev gmp_hash : ℕ
gmp_hash = calculate_hash gov 7 proposal.call_data (to_le_bytes 32 0)

abbrev accounts : GmpAccounts
accounts = record {
  executable = record {
    incoming_message_pda = message_pda;
    signing_pda = validate_accounts.caller;
    gateway_root_pda = root_pda;
  };
  payer = 3;
  payer_is_signer = true;
  governance_config = config_pda;
  proposal_pda = address_of (proposal_seeds gmp_hash);
  operator_proposal_pda = 0;
}

abbrev world : World
world = record { gateway = st4; governance = st1 }

abbrev result : GmpResult World → World
result (ok w) = w
result (err e) = world

abbrev world' : World
world' = result (execute gov plain_decoders env (pos 1000) world accounts message (0 ∷ []))

executed_message :
    execute gov plain_decoders env (pos 1000) world accounts message (0 ∷ []) ≡ ok world'
unfolding program_run execute check_executable_accounts ensure_authorized_gmp_command
    validate_message_raw process calculate_gmp_context to_le_bytes calculate_hash dispatch
    schedule_timelock_proposal at_least_default_eta_delay initialize_config validate_config
executed_message = refl

execute-Authorized_example :
    Authorized gov plain_decoders env world accounts message (0 ∷ []) world'
execute-Authorized_example =
    execute-Authorized gov plain_decoders env (pos 1000) world accounts message (0 ∷ []) world'
      executed_message

execute_once_example :
    ¬ (execute gov plain_decoders env (pos 2000) world' accounts message (1 ∷ []) ≡ ok world)
execute_once_example =
    execute_once gov plain_decoders env (pos 1000) (pos 2000) world accounts accounts message
      message (0 ∷ []) (1 ∷ []) world' world' world executed_message refl refl

abbrev stored_config : GovernanceConfig
stored_config = record {
  bump = 0;
  chain_hash = params.chain_hash;
  address_hash = params.address_hash;
  minimum_proposal_eta_delay = params.minimum_proposal_eta_delay;
  operator = params.operator;
}

context : calculate_gmp_context gov plain_decoders (0 ∷ []) ≡ ok (command, gmp_hash)
unfolding calculate_gmp_context
context = refl

execute-schedules_example :
    (config : GovernanceConfig) × (st1.configs config_pda ≡ some config)
    × ((gov.rt.find_program_address (proposal_seeds gmp_hash) 1).0 ≡ accounts.proposal_pda)
    × (st1.proposals accounts.proposal_pda ≡ none)
    × (command.eta < 2 ^ 64)
    × (world'.governance.proposals
        ≡ update st1.proposals accounts.proposal_pda
            (scheduled_proposal gov (pos 1000) config gmp_hash command.eta))
execute-schedules_example =
    execute-schedules gov plain_decoders env (pos 1000) world accounts message (0 ∷ []) world'
      command gmp_hash executed_message context refl

abbrev incoming : IncomingMessage
incoming = incoming_message env 0 message

stored_4 : st4.messages message_pda ≡ some incoming
unfolding program_run
stored_4 = refl

checked : check_executable_accounts env 1 st4 accounts.executable message ≡ ok tt
unfolding program_run check_executable_accounts
checked = refl

loaded : load_governance_config gov plain_decoders st1 accounts ≡ ok stored_config
unfolding initialize_config validate_config
loaded = refl

authorized : ensure_authorized_gmp_command plain_runtime stored_config message ≡ ok tt
unfolding ensure_authorized_gmp_command
authorized = refl

free : is_free st1 accounts.proposal_pda ≡ true
unfolding initialize_config validate_config calculate_hash to_le_bytes
free = refl

abbrev lamports : Balances
lamports = world'.governance.lamports

pays : gov.system.create_account st1.lamports 3 accounts.proposal_pda proposal_space ≡ some lamports
unfolding program_run execute check_executable_accounts ensure_authorized_gmp_command
    validate_message_raw process calculate_gmp_context to_le_bytes calculate_hash dispatch
    schedule_timelock_proposal at_least_default_eta_delay initialize_config validate_config
pays = refl

execute_schedule_succeeds_example :
    (w : World) × (execute gov plain_decoders env (pos 1000) world accounts message (0 ∷ []) ≡ ok w)
    × (w.governance.proposals accounts.proposal_pda
        ≡ some (scheduled_proposal gov (pos 1000) stored_config gmp_hash command.eta))
    × (w.gateway.messages message_pda ≡ some (record incoming { status = executed }))
execute_schedule_succeeds_example =
    execute_schedule_succeeds gov plain_decoders env (pos 1000) world accounts message (0 ∷ [])
      incoming stored_config command gmp_hash lamports checked stored_4 refl refl refl refl loaded
      authorized context refl (omega arith) refl free pays (omega arith)
