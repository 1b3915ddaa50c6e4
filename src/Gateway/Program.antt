-- ===== src/Gateway/Program.antt =====
-- The instructions of the gateway (programs/solana-axelar-gateway/src/lib.rs), and what can be
-- reached from the empty program by executing them.
pub mod Lifecycle
pub mod Provenance
pub mod Authority
pub mod Epochs
pub mod Rotations
use axelar_amplifier_solana.Gateway.Config
use axelar_amplifier_solana.Gateway.Verification
use axelar_amplifier_solana.Gateway.Messages
use axelar_amplifier_solana.Gateway.Rotation
use axelar_amplifier_solana.Std.U256.{IsU256}
use axelar_amplifier_solana.Std.Types.{
  MerklizedMessage, Message, PayloadType, SigningVerifierSetInfo,
}
use axelar_amplifier_solana.Gateway.Rotation.{RotateSignersAccounts}
use axelar_amplifier_solana.Gateway.Verification.{SessionAccounts}
use axelar_amplifier_solana.Gateway.Env.{Env, GResult}
use axelar_amplifier_solana.Gateway.Config.{
  CallContractAccounts, InitializeConfigAccounts, InitializeConfigParams,
  TransferOperatorshipAccounts,
}
use axelar_amplifier_solana.Gateway.State.{Chain, Store}
use axelar_amplifier_solana.Gateway.Messages.{ApproveMessageAccounts, ValidateMessageAccounts}
use axelar_amplifier_solana.Gateway.Session.Collected.{IsLeaf}
use axelar_amplifier_solana.Prelude.{List, [], none, ok, ℕ, ◌≡◌}

pub data Instruction : Type 0 where
  initialize_config : InitializeConfigAccounts → InitializeConfigParams → Instruction
  initialize_payload_verification_session : SessionAccounts → ℕ → PayloadType → Instruction
  verify_signature : SessionAccounts → ℕ → SigningVerifierSetInfo → Instruction
  approve_message : ApproveMessageAccounts → MerklizedMessage → ℕ → Instruction
  validate_message : ValidateMessageAccounts → Message → Instruction
  rotate_signers : RotateSignersAccounts → ℕ → Instruction
  transfer_operatorship : TransferOperatorshipAccounts → Instruction
  call_contract : CallContractAccounts → List ℕ → List ℕ → List ℕ → ℕ → Instruction

-- Arguments that have the types of the source: a u128 is below 2 ^ 128, a u64 below 2 ^ 64.
abbrev pub IsTyped : Instruction → Type 0
IsTyped (initialize_config accounts params) = IsU256 params.previous_verifier_retention
IsTyped (verify_signature accounts root info) = IsLeaf info.leaf
IsTyped _ = Unit

module _ (env : Env) where
  unfoldable pub execute : Chain → Store → Instruction → GResult Store
  execute chain st (initialize_config accounts params) =
      Config.initialize_config env chain st accounts params
  execute chain st (initialize_payload_verification_session accounts root payload_type) =
      Verification.initialize_payload_verification_session env st accounts root payload_type
  execute chain st (verify_signature accounts root info) =
      Verification.verify_signature env st accounts root info
  execute chain st (approve_message accounts message root) =
      Messages.approve_message env st accounts message root
  execute chain st (validate_message accounts message) =
      Messages.validate_message env st accounts message
  execute chain st (rotate_signers accounts root) =
      Rotation.rotate_signers env chain st accounts root
  execute chain st (transfer_operatorship accounts) =
      Config.transfer_operatorship env chain st accounts
  execute chain st (call_contract accounts destination_chain address payload bump) =
      Config.call_contract env st accounts destination_chain address payload bump

  -- Instructions that fail are rolled back, so a run consists of those that succeed.
  pub data Run (st : Store) : Store → Type 0 where
    here : Run st st
    step :
        {st' st'' : Store}
        → Run st st'
        → (chain : Chain) (instruction : Instruction) → IsTyped instruction
        → execute chain st' instruction ≡ ok st''
        → Run st st''

-- The program before its first instruction.
abbrev pub empty_store : Store
empty_store = record {
  config = λ address. none;
  trackers = λ address. none;
  sessions = λ address. none;
  messages = λ address. none;
  events = [];
}
