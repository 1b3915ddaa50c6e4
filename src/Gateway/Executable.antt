-- ===== src/Gateway/Executable.antt =====
-- The interface by which a program receives a message
-- (programs/solana-axelar-gateway/src/executable.rs). The program is the client of the gateway, which
-- it calls to have the message marked as executed.
pub mod Effect
mod Tests
use axelar_amplifier_solana.Gateway.Messages
use axelar_amplifier_solana.Gateway.State.{
  Store, config_seeds, is_some_eq, message_seeds, validate_message_seeds,
}
use axelar_amplifier_solana.Std.Runtime.{Slice}
use axelar_amplifier_solana.Std.Hashing.{command_id, keccak}
use axelar_amplifier_solana.Std.Anchor.{check_pda, load_account}
use axelar_amplifier_solana.Std.Types.{Message}
use axelar_amplifier_solana.Gateway.Env.{Env, GResult, GatewayError}
use axelar_amplifier_solana.Gateway.Payload.{
  Abi, AxelarMessagePayload, Borsh, EncodingScheme, SolanaAccountRepr,
}
use axelar_amplifier_solana.Gateway.Messages.{ValidateMessageAccounts}
use axelar_amplifier_solana.Gateway.Payload.Codec.{encode}
use axelar_amplifier_solana.Prelude.{
  Bool, Error, List, Result, [], custom, drop, err, leb, length, ok, panicked, require, ℕ, ◌++◌,
  ◌==◌, ◌>>=◌, ◌>>◌, ◌∷◌,
}

pub data ExecutableError : Type 0 where
  invalid_payload_hash : ExecutableError
  invalid_accounts : ExecutableError
  encoding_failed : Error GatewayError → ExecutableError

abbrev pub XResult : Type 0 → Type 0
XResult = Result ExecutableError

-- `AxelarExecuteAccounts` of `executable_accounts!`; the event authority and the address of the
-- gateway are constants.
pub record AxelarExecuteAccounts : Type 0 where
  pub incoming_message_pda : ℕ
  pub signing_pda : ℕ
  pub gateway_root_pda : ℕ

-- The index of the first account of the client program.
abbrev pub execute_program_accounts_start_index : ℕ
execute_program_accounts_start_index = 5

-- `payload.encode()?`
abbrev pub encoding : GResult (List ℕ) → XResult (List ℕ)
encoding (ok encoded) = ok encoded
encoding (err e) = err (custom (encoding_failed e))

-- A call of another program that fails ends the transaction.
abbrev pub called : GResult Store → XResult Store
called (ok st) = ok st
called (err e) = err panicked

-- `client` is the address of the program that receives the message.
module _ (env : Env) (client : ℕ) where
  -- Whether `invoke_signed` with the seeds of the signing PDA signs for an account.
  abbrev pub is_signed_pda : Message → ℕ → ℕ → Bool
  is_signed_pda message bump address =
      is_some_eq
        (env.rt.create_program_address
          (validate_message_seeds (command_id env.rt message) ++ Slice.byte bump ∷ []) client)
        address

  -- What Anchor checks of the accounts before the handler of the client.
  unfoldable pub check_executable_accounts :
      Store → AxelarExecuteAccounts → Message → XResult (Unit {0})
  check_executable_accounts st accounts message = do
    incoming ← load_account st.messages accounts.incoming_message_pda
    config ← load_account st.config accounts.gateway_root_pda
    check_pda env.rt env.id (message_seeds (command_id env.rt message)) incoming.bump
        accounts.incoming_message_pda
    check_pda env.rt client (validate_message_seeds (command_id env.rt message))
        incoming.signing_pda_bump accounts.signing_pda
    check_pda env.rt env.id config_seeds config.bump accounts.gateway_root_pda

  abbrev pub gateway_accounts : AxelarExecuteAccounts → Message → ℕ → ValidateMessageAccounts
  gateway_accounts accounts message bump = record {
    incoming_message_pda = accounts.incoming_message_pda;
    caller = accounts.signing_pda;
    caller_is_signer = is_signed_pda message bump accounts.signing_pda;
    gateway_root_pda = accounts.gateway_root_pda;
  }

  unfoldable pub validate_message_raw :
      Store → AxelarExecuteAccounts → Message → List ℕ → XResult Store
  validate_message_raw st accounts message payload = do
    require (keccak env.rt payload == message.payload_hash) (custom invalid_payload_hash)
    incoming ← load_account st.messages accounts.incoming_message_pda
    called (
        Messages.validate_message env st
          (gateway_accounts accounts message incoming.signing_pda_bump) message)

  module _ (bo : Borsh) (abi : Abi) where
    -- The accounts of the client follow those of the interface.
    unfoldable pub validate_message :
        Store
        → AxelarExecuteAccounts
        → List SolanaAccountRepr
        → Message
        → List ℕ
        → EncodingScheme
        → XResult Store
    validate_message st accounts account_metas message payload_without_accounts encoding_scheme = do
      require (leb execute_program_accounts_start_index (length account_metas)) panicked
      let payload : AxelarMessagePayload = record {
        payload_without_accounts = payload_without_accounts;
        solana_accounts = drop execute_program_accounts_start_index account_metas;
        encoding_scheme = encoding_scheme;
      }
      encoded ← encoding (encode bo abi payload)
      validate_message_raw st accounts message encoded
