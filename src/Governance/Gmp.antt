-- ===== src/Governance/Gmp.antt =====
-- Governance messages from the other chain
-- (programs/solana-axelar-governance/src/instructions/process_gmp.rs, payload_conversions.rs).

pub mod Effect
pub mod Messages
pub mod Liveness
use axelar_amplifier_solana.Gateway.State
use axelar_amplifier_solana.Gateway.Env.{Env}
use axelar_amplifier_solana.Governance.{
  ExecuteProposalCallData, GovEnv, GovResult, GovernanceConfig, calculate_hash, governance_seeds,
  unauthorized_address, unauthorized_chain, GovernanceError, Store,
}
use axelar_amplifier_solana.Std.Runtime.{Runtime, Slice}
use axelar_amplifier_solana.Governance.Proposals.{
  ApproveAccounts, CancelAccounts, CancelOperatorAccounts, approve_operator_proposal,
  cancel_operator_proposal, ScheduleAccounts, schedule_timelock_proposal, cancel_timelock_proposal,
}
use axelar_amplifier_solana.Gateway.Executable.{
  AxelarExecuteAccounts, ExecutableError, check_executable_accounts, validate_message_raw,
}
use axelar_amplifier_solana.Std.Hashing.{keccak}
use axelar_amplifier_solana.Std.Anchor.{check_pda, check_signer, is_address, load_account, u64_max}
use axelar_amplifier_solana.Std.Types.{Message}
use axelar_amplifier_solana.Prelude.{
  Bool, Error, List, Option, ProgramError, Result, [], anchor, custom, err, leb, length, ok, ok_or,
  panicked, program, require, to_le_bytes, update, ℕ, ℤ, ◌++◌, ◌==◌, ◌>>=◌, ◌>>◌, ◌∷◌,
}

-- governance_gmp::GovernanceCommand, of which the source matches these.
pub data GovernanceCommand : Type 0 where
  schedule_time_lock_proposal : GovernanceCommand
  cancel_time_lock_proposal : GovernanceCommand
  approve_operator : GovernanceCommand
  cancel_operator_approval : GovernanceCommand
  other_command : GovernanceCommand

-- governance_gmp::GovernanceCommandPayload; `eta` and `native_value` are U256 numbers.
pub record GovernanceCommandPayload : Type 0 where
  pub command : GovernanceCommand
  pub target : List ℕ
  pub call_data : List ℕ
  pub native_value : ℕ
  pub eta : ℕ

-- The decoders that the source calls: `abi_decode` of the payload, `try_from_slice` of the call data,
-- and the key of 32 bytes.
pub record Decoders : Type 0 where
  pub abi_decode : List ℕ → Option GovernanceCommandPayload
  pub try_from_slice : List ℕ → Option ExecuteProposalCallData
  pub pubkey : List ℕ → ℕ

-- `payload_conversions.rs`
abbrev pub decode_payload : Decoders → List ℕ → GovResult GovernanceCommandPayload
decode_payload dec raw_payload =
    ok_or (dec.abi_decode raw_payload) (program ProgramError.invalid_argument)

abbrev pub decode_payload_target : Decoders → List ℕ → GovResult ℕ
decode_payload_target dec payload_target_addr = do
  require (length payload_target_addr == 32) (program ProgramError.invalid_argument)
  ok (dec.pubkey payload_target_addr)

abbrev pub decode_payload_call_data : Decoders → List ℕ → GovResult ExecuteProposalCallData
decode_payload_call_data dec call_data =
    ok_or (dec.try_from_slice call_data) (program ProgramError.invalid_argument)

-- `extract_proposal_data`, of which the other fields are those of the payload.
abbrev pub extract_eta : GovernanceCommandPayload → GovResult ℕ
extract_eta cmd_payload = do
  require (leb cmd_payload.eta u64_max) (custom GovernanceError.invalid_instruction_data)
  ok cmd_payload.eta

-- The accounts of `Execute`.
pub record GmpAccounts : Type 0 where
  pub executable : AxelarExecuteAccounts
  pub payer : ℕ
  pub payer_is_signer : Bool
  pub governance_config : ℕ
  pub proposal_pda : ℕ
  pub operator_proposal_pda : ℕ

-- The gateway and the program together.
pub record World : Type 0 where
  pub gateway : State.Store
  pub governance : Store

unfoldable pub ensure_authorized_gmp_command :
    Runtime → GovernanceConfig → Message → GovResult (Unit {0})
ensure_authorized_gmp_command rt config message = do
  require (keccak rt message.source_address == config.address_hash) (custom unauthorized_address)
  require (keccak rt message.cc_id.chain == config.chain_hash) (custom unauthorized_chain)

-- The accounts of the scheduling that the program calls.
abbrev pub schedule_accounts : GmpAccounts → Bool → ScheduleAccounts
schedule_accounts a signs = record {
  governance_config = a.governance_config;
  governance_config_is_signer = signs;
  payer = a.payer;
  payer_is_signer = a.payer_is_signer;
  proposal_pda = a.proposal_pda;
}

-- The error of a receiver's code, or the program's own.
pub data GmpError : Type 0 where
  executable_error : ExecutableError → GmpError
  governance_error : GovernanceError → GmpError

abbrev pub GmpResult : Type 0 → Type 0
GmpResult = Result GmpError

abbrev pub lift_error : {E : Type 0} → (E → GmpError) → Error E → Error GmpError
lift_error f (custom e) = custom (f e)
lift_error f (anchor e) = anchor e
lift_error f (program e) = program e
lift_error f panicked = panicked

abbrev pub lift : {E A : Type 0} → (E → GmpError) → Result E A → GmpResult A
lift f (ok a) = ok a
lift f (err e) = err (lift_error f e)

-- An instruction of the program that is called; if it fails the transaction ends.
abbrev pub self_called : GovResult Store → GovResult Store
self_called (ok st) = ok st
self_called (err e) = err panicked

module _ (env : GovEnv) (dec : Decoders) where
  unfoldable pub calculate_gmp_context : List ℕ → GovResult (GovernanceCommandPayload × ℕ)
  calculate_gmp_context payload = do
    cmd_payload ← decode_payload dec payload
    target ← decode_payload_target dec cmd_payload.target
    call_data ← decode_payload_call_data dec cmd_payload.call_data
    ok (cmd_payload, calculate_hash env target call_data (to_le_bytes 32 cmd_payload.native_value))

  -- Each command calls an instruction of the program itself; `signs` is whether the configuration
  -- signs the call.
  unfoldable pub dispatch :
      GovernanceCommand
      → ℤ
      → Store
      → GmpAccounts
      → Bool
      → ℕ
      → GovernanceCommandPayload
      → GovResult Store
  dispatch schedule_time_lock_proposal now st a signs proposal_hash p = do
    eta ← extract_eta p
    self_called (
        schedule_timelock_proposal env now st (schedule_accounts a signs) proposal_hash eta
          (to_le_bytes 32 p.native_value) p.target p.call_data)
  dispatch cancel_time_lock_proposal now st a signs proposal_hash p = do
    eta ← extract_eta p
    let accounts : CancelAccounts = record {
      governance_config = a.governance_config;
      governance_config_is_signer = signs;
      proposal_pda = a.proposal_pda;
    }
    self_called (
        cancel_timelock_proposal env st accounts proposal_hash eta (to_le_bytes 32 p.native_value)
          p.target p.call_data)
  dispatch approve_operator now st a signs proposal_hash p = do
    eta ← extract_eta p
    let accounts : ApproveAccounts = record {
      governance_config = a.governance_config;
      governance_config_is_signer = signs;
      payer = a.payer;
      payer_is_signer = a.payer_is_signer;
      proposal_pda = a.proposal_pda;
      operator_proposal_pda = a.operator_proposal_pda;
    }
    self_called (
        approve_operator_proposal env st accounts proposal_hash (to_le_bytes 32 p.native_value)
          p.target p.call_data)
  dispatch cancel_operator_approval now st a signs proposal_hash p = do
    eta ← extract_eta p
    let accounts : CancelOperatorAccounts = record {
      governance_config = a.governance_config;
      governance_config_is_signer = signs;
      proposal_pda = a.proposal_pda;
      operator_proposal_pda = a.operator_proposal_pda;
    }
    self_called (
        cancel_operator_proposal env st accounts proposal_hash (to_le_bytes 32 p.native_value)
          p.target p.call_data)
  dispatch other_command now st a signs proposal_hash p =
      err (custom GovernanceError.invalid_instruction_data)

  abbrev pub load_governance_config : Store → GmpAccounts → GovResult GovernanceConfig
  load_governance_config st a = do
    check_signer a.payer_is_signer
    config ← load_account st.configs a.governance_config
    check_pda env.rt env.id governance_seeds config.bump a.governance_config
    ok config

  -- Whether `invoke_signed` with the seeds of the configuration signs for an account.
  abbrev pub is_signed_config : GovernanceConfig → ℕ → Bool
  is_signed_config config address =
      is_address
        (env.rt.create_program_address (governance_seeds ++ Slice.byte config.bump ∷ []) env.id)
        address

  -- On exit Anchor writes back the configuration as it was loaded.
  unfoldable pub process : ℤ → Store → GmpAccounts → GovernanceConfig → List ℕ → GovResult Store
  process now st a config payload = do
    context ← calculate_gmp_context payload
    st' ←
        dispatch context.0.command now st a (is_signed_config config a.governance_config) context.1
          context.0
    ok (record st' { configs = update st'.configs a.governance_config config })

  -- `gw` is what the gateway is run with.
  unfoldable pub execute : Env → ℤ → World → GmpAccounts → Message → List ℕ → GmpResult World
  execute gw now w a message payload = do
    lift executable_error (check_executable_accounts gw env.id w.gateway a.executable message)
    config ← lift governance_error (load_governance_config w.governance a)
    lift governance_error (ensure_authorized_gmp_command env.rt config message)
    gateway ←
        lift executable_error
          (validate_message_raw gw env.id w.gateway a.executable message payload)
    governance ← lift governance_error (process now w.governance a config payload)
    ok (record { gateway = gateway; governance = governance })
