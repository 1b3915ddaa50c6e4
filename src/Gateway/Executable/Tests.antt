-- ===== src/Gateway/Executable/Tests.antt =====
-- The message of the gateway's run, executed by its destination.
use axelar_amplifier_solana.Gateway.State.{IncomingMessage, Store, executed}
use axelar_amplifier_solana.Gateway.Tests.{
  env, message, message_pda, program_run, root_pda, st4, validate_accounts,
}
use axelar_amplifier_solana.Gateway.Executable.{
  AxelarExecuteAccounts, XResult, check_executable_accounts, validate_message_raw,
}
use axelar_amplifier_solana.Gateway.Messages.{incoming_message}
use axelar_amplifier_solana.Gateway.Executable.Effect.{
  Executed, validate_message_raw-Executed, validate_message_raw_succeeds,
}
use axelar_amplifier_solana.Prelude.{[], err, ok, refl, some, ◌∷◌, ◌≡◌}

abbrev client_accounts : AxelarExecuteAccounts
client_accounts = record {
  incoming_message_pda = message_pda;
  signing_pda = validate_accounts.caller;
  gateway_root_pda = root_pda;
}

abbrev result : XResult Store → Store
result (ok st) = st
result (err e) = st4

abbrev executed_store : Store
executed_store = result (validate_message_raw env 1 st4 client_accounts message (0 ∷ []))

executed_raw : validate_message_raw env 1 st4 client_accounts message (0 ∷ []) ≡ ok executed_store
unfolding program_run validate_message_raw
executed_raw = refl

validate_message_raw-Executed_example :
    Executed env 1 st4 client_accounts message (0 ∷ []) executed_store
validate_message_raw-Executed_example =
    validate_message_raw-Executed env 1 st4 client_accounts message (0 ∷ []) executed_store
      executed_raw

abbrev approved_message : IncomingMessage
approved_message = incoming_message env 0 message

checked : check_executable_accounts env 1 st4 client_accounts message ≡ ok tt
unfolding program_run check_executable_accounts
checked = refl

stored_4 : st4.messages message_pda ≡ some approved_message
unfolding program_run
stored_4 = refl

validate_message_raw_succeeds_example :
    (st' : Store) × (validate_message_raw env 1 st4 client_accounts message (0 ∷ []) ≡ ok st')
    × (st'.messages message_pda ≡ some (record approved_message { status = executed }))
validate_message_raw_succeeds_example =
    validate_message_raw_succeeds env 1 st4 client_accounts message (0 ∷ []) approved_message
      checked stored_4 refl refl refl refl
