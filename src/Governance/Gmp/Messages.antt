-- ===== src/Governance/Gmp/Messages.antt =====
-- The governance program and the gateway together: which messages have a command run, and that they
-- have it run (programs/solana-axelar-governance/src/instructions/process_gmp.rs).
use axelar_amplifier_solana.Governance.{
  governance_seeds, proposal_seeds, GovEnv, GovernanceConfig, Store,
}
use axelar_amplifier_solana.Std.Runtime.{Slice}
use axelar_amplifier_solana.Std.Hashing.{keccak}
use axelar_amplifier_solana.Std.Types.{Message}
use axelar_amplifier_solana.Gateway.Env.{Env}
use axelar_amplifier_solana.Governance.Gmp.{
  dispatch, schedule_accounts, Decoders, GmpAccounts, GovernanceCommandPayload, World,
  calculate_gmp_context, execute, is_signed_config, schedule_time_lock_proposal,
}
use axelar_amplifier_solana.Gateway.State.{IncomingMessage}
use axelar_amplifier_solana.Gateway.Executable.Effect.{Executed, validate_message_raw-Executed}
use axelar_amplifier_solana.Governance.Gmp.Effect.{process_sound, execute_sound}
use axelar_amplifier_solana.Governance.Proposals.Effect.{
  schedule_timelock_proposal_sound, scheduled_proposal,
}
use axelar_amplifier_solana.Prelude.{
  Bool, ok_inj, to_le_bytes, List, [], ap, arith, none, ok, some, some_inj, sym, true, update, ℕ, ℤ,
  ◌++◌, ◌<◌, ◌^◌, ◌∙◌, ◌∷◌, ◌≡◌,
}
use axelar_amplifier_solana.Governance.Proposals.{schedule_timelock_proposal}

module _ (env : GovEnv) (dec : Decoders) (gw : Env) where
  -- The message comes from the address and the chain that the configuration has, and was approved by
  -- the verifiers for this program with this payload; now it is executed.
  pub record Authorized (w : World) (a : GmpAccounts) (message : Message) (payload : List ℕ)
      (w' : World) : Type 0 where
    pub config : GovernanceConfig
    pub config_at : w.governance.configs a.governance_config ≡ some config
    pub from_address : keccak env.rt message.source_address ≡ config.address_hash
    pub from_chain : keccak env.rt message.cc_id.chain ≡ config.chain_hash
    pub message_executed : Executed gw env.id w.gateway a.executable message payload w'.gateway

  -- If the governance program processes a message, the message comes from the address and the chain
  -- of the configuration, the gateway has approved it for the program with that payload, and it is
  -- executed afterwards.
  pub execute-Authorized :
      (now : ℤ) (w : World) (a : GmpAccounts) (message : Message) (payload : List ℕ) (w' : World)
      → execute env dec gw now w a message payload ≡ ok w'
      → Authorized w a message payload w'
  execute-Authorized now w a message payload w' h =
      let f = execute_sound env dec gw now w a message payload w' h in
      record {
        config = f.config;
        config_at = f.config_at;
        from_address = f.from_address;
        from_chain = f.from_chain;
        message_executed =
            validate_message_raw-Executed gw env.id w.gateway a.executable message payload
              w'.gateway f.validated;
      }

  -- A message that the governance program has processed is not processed again, in any later world
  -- whose gateway has the message's account as it was left, with any accounts and any payload.
  pub execute_once :
      (now later : ℤ) (w : World) (a b : GmpAccounts) (message message' : Message)
      (payload payload' : List ℕ) (w' v v' : World)
      → execute env dec gw now w a message payload ≡ ok w'
      → v.gateway.messages a.executable.incoming_message_pda
        ≡ w'.gateway.messages a.executable.incoming_message_pda
      → b.executable.incoming_message_pda ≡ a.executable.incoming_message_pda
      → ¬ (execute env dec gw later v b message' payload' ≡ ok v')
  execute_once now later w a b message message' payload payload' w' v v' first same pda second =
      let f = (execute-Authorized now w a message payload w' first).message_executed in
      let g = (execute-Authorized later v b message' payload' v' second).message_executed in
      let at : v.gateway.messages a.executable.incoming_message_pda ≡ some (g.incoming) =
        rw pda at (g.incoming_at) in
      let same_incoming = some_inj _ _ (sym at ∙ same ∙ f.now_executed) in
      omega (arith, g.was_approved, ap (λ (m : IncomingMessage). m.status) same_incoming)

  -- The configuration signs every call that the program makes of itself.
  is_signed_config_lem :
      (config : GovernanceConfig) (address : ℕ)
      → env.rt.create_program_address (governance_seeds ++ Slice.byte config.bump ∷ []) env.id
        ≡ some address
      → is_signed_config env dec config address ≡ true
  is_signed_config_lem config address e = ground arith

  dispatch_schedule :
      (now : ℤ) (st : Store) (a : GmpAccounts) (signs : Bool) (proposal_hash : ℕ)
      (p : GovernanceCommandPayload) (st' : Store)
      → dispatch env dec p.command now st a signs proposal_hash p ≡ ok st'
      → p.command ≡ schedule_time_lock_proposal
      → (p.eta < 2 ^ 64)
        × (schedule_timelock_proposal env now st
              (schedule_accounts a signs)
              proposal_hash
              p.eta
              (to_le_bytes 32 p.native_value)
              p.target
              p.call_data
            ≡ ok st')
  unfolding dispatch
  dispatch_schedule now st a signs proposal_hash p st' h command = ground arith

  -- If the message of a scheduling is processed, the account of the proposal is the one of the hash of
  -- the decoded call, it was free, and it holds the time of the message, which fits in a u64, or the
  -- minimum where that is later.
  pub execute-schedules :
      (now : ℤ) (w : World) (a : GmpAccounts) (message : Message) (payload : List ℕ) (w' : World)
      (p : GovernanceCommandPayload) (proposal_hash : ℕ)
      → execute env dec gw now w a message payload ≡ ok w'
      → calculate_gmp_context env dec payload ≡ ok (p, proposal_hash)
      → p.command ≡ schedule_time_lock_proposal
      → (config : GovernanceConfig) × (w.governance.configs a.governance_config ≡ some config)
        × ((env.rt.find_program_address (proposal_seeds proposal_hash) env.id).0 ≡ a.proposal_pda)
        × (w.governance.proposals a.proposal_pda ≡ none)
        × (p.eta < 2 ^ 64)
        × (w'.governance.proposals
            ≡ update w.governance.proposals a.proposal_pda
                (scheduled_proposal env now config proposal_hash p.eta))
  execute-schedules now w a message payload w' p proposal_hash h context command =
      let f = execute_sound env dec gw now w a message payload w' h in
      let g =
        process_sound env dec gw now w.governance a f.config payload w'.governance f.processed in
      let same : g.context ≡ (p, proposal_hash) = ok_inj _ _ (sym (g.decoded) ∙ context) in
      let (fits, e) =
        dispatch_schedule now w.governance a (is_signed_config env dec f.config a.governance_config)
          proposal_hash p g.returned (rw same at (g.dispatched)) command in
      let s =
        schedule_timelock_proposal_sound env now w.governance _ proposal_hash p.eta _ _ _ g.returned
          e in
      (
        s.config,
        s.by_governance.config_at,
        s.hashed,
        s.no_proposal,
        fits,
        g.proposals_stored ∙ s.written,
      )
