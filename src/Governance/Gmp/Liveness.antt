-- ===== src/Governance/Gmp/Liveness.antt =====
-- A scheduling that arrives is carried out
-- (programs/solana-axelar-governance/src/instructions/process_gmp.rs).
use axelar_amplifier_solana.Governance.{
  is_free, proposal_scheduled, proposal_seeds, GovEnv, GovernanceConfig, Store,
}
use axelar_amplifier_solana.Std.Lamports.{Balances}
use axelar_amplifier_solana.Governance.Proposals.{
  as_u64, at_least_default_eta_delay, proposal_space, schedule_timelock_proposal,
}
use axelar_amplifier_solana.Governance.Gmp.{
  World, calculate_gmp_context, dispatch, ensure_authorized_gmp_command, execute, process,
  schedule_time_lock_proposal, Decoders, GmpAccounts, GovernanceCommandPayload, is_signed_config,
  load_governance_config, schedule_accounts,
}
use axelar_amplifier_solana.Governance.Proposals.Effect.{final_eta, scheduled_proposal}
use axelar_amplifier_solana.Prelude.{
  List, refl, update_self, arith, ok, some, to_le_bytes, true, update, ℕ, ℤ, ◌+◌, ◌<◌, ◌^◌, ◌∷◌,
  ◌≡◌,
}
use axelar_amplifier_solana.Std.Hashing.{hash_message, keccak}
use axelar_amplifier_solana.Std.Types.{Message}
use axelar_amplifier_solana.Gateway.Env.{Env}
use axelar_amplifier_solana.Gateway.State
use axelar_amplifier_solana.Gateway.State.{IncomingMessage, approved, executed}
use axelar_amplifier_solana.Gateway.Executable.{check_executable_accounts, validate_message_raw}
use axelar_amplifier_solana.Gateway.Executable.Effect.{validate_message_raw_succeeds}

module _ (env : GovEnv) (dec : Decoders) where
  abbrev pub scheduled_store :
      ℤ → Store → GmpAccounts → GovernanceConfig → GovernanceCommandPayload → ℕ → Balances → Store
  scheduled_store now st a config p proposal_hash lamports = record st {
    lamports = lamports;
    proposals =
        update st.proposals a.proposal_pda (scheduled_proposal env now config proposal_hash p.eta);
    events =
        proposal_scheduled proposal_hash p.target p.call_data (to_le_bytes 32 p.native_value)
          (final_eta now config p.eta)
        ∷ st.events;
  }

  -- The scheduling of a free account.
  schedule_succeeds :
      (now : ℤ) (st : Store) (a : GmpAccounts) (config : GovernanceConfig)
      (p : GovernanceCommandPayload) (proposal_hash : ℕ) (lamports : Balances)
      → load_governance_config env dec st a ≡ ok config
      → (env.rt.find_program_address (proposal_seeds proposal_hash) env.id).0 ≡ a.proposal_pda
      → is_free st a.proposal_pda ≡ true
      → env.system.create_account st.lamports a.payer a.proposal_pda proposal_space ≡ some lamports
      → as_u64 now + config.minimum_proposal_eta_delay < 2 ^ 64
      → schedule_timelock_proposal env now st
          (schedule_accounts a (is_signed_config env dec config a.governance_config))
          proposal_hash
          p.eta
          (to_le_bytes 32 p.native_value)
          p.target
          p.call_data
        ≡ ok (scheduled_store now st a config p proposal_hash lamports)
  unfolding schedule_timelock_proposal at_least_default_eta_delay
  schedule_succeeds now st a config p proposal_hash lamports l f free c b = ground arith

  -- The command of a payload that schedules is run, and the configuration written back.
  process_succeeds :
      (now : ℤ) (st : Store) (a : GmpAccounts) (config : GovernanceConfig) (payload : List ℕ)
      (p : GovernanceCommandPayload) (proposal_hash : ℕ) (st' : Store)
      → calculate_gmp_context env dec payload ≡ ok (p, proposal_hash)
      → p.command ≡ schedule_time_lock_proposal
      → p.eta < 2 ^ 64
      → schedule_timelock_proposal env now st
          (schedule_accounts a (is_signed_config env dec config a.governance_config))
          proposal_hash
          p.eta
          (to_le_bytes 32 p.native_value)
          p.target
          p.call_data
        ≡ ok st'
      → process env dec now st a config payload
        ≡ ok (record st' { configs = update st'.configs a.governance_config config })
  unfolding process dispatch
  process_succeeds now st a config payload p proposal_hash st' c command fits e = ground arith

  module _ (gw : Env) where
    execute_of_parts :
        (now : ℤ) (w : World) (a : GmpAccounts) (message : Message) (payload : List ℕ)
        (config : GovernanceConfig) (gateway : State.Store) (governance : Store)
        → check_executable_accounts gw env.id w.gateway a.executable message ≡ ok tt
        → load_governance_config env dec w.governance a ≡ ok config
        → ensure_authorized_gmp_command env.rt config message ≡ ok tt
        → validate_message_raw gw env.id w.gateway a.executable message payload ≡ ok gateway
        → process env dec now w.governance a config payload ≡ ok governance
        → execute env dec gw now w a message payload
          ≡ ok (record { gateway = gateway; governance = governance })
    unfolding execute
    execute_of_parts now w a message payload config gateway governance c l u v p =
        rw (c, l, u, v, p) refl

    -- A message that schedules, approved by the gateway for the program and from the address and the
    -- chain of the configuration, is processed: if its accounts are right, the account of the proposal
    -- is free and can be paid, and the times fit in a u64, the proposal is there afterwards and the
    -- message is executed.
    pub execute_schedule_succeeds :
        (now : ℤ) (w : World) (a : GmpAccounts) (message : Message) (payload : List ℕ)
        (incoming : IncomingMessage) (config : GovernanceConfig) (p : GovernanceCommandPayload)
        (proposal_hash : ℕ) (lamports : Balances)
        → check_executable_accounts gw env.id w.gateway a.executable message ≡ ok tt
        → w.gateway.messages a.executable.incoming_message_pda ≡ some incoming
        → incoming.status ≡ approved
        → incoming.message_hash ≡ hash_message gw.rt gw.digest message
        → gw.rt.pubkey_from_str message.destination_address ≡ some env.id
        → keccak gw.rt payload ≡ message.payload_hash
        → load_governance_config env dec w.governance a ≡ ok config
        → ensure_authorized_gmp_command env.rt config message ≡ ok tt
        → calculate_gmp_context env dec payload ≡ ok (p, proposal_hash)
        → p.command ≡ schedule_time_lock_proposal
        → p.eta < 2 ^ 64
        → (env.rt.find_program_address (proposal_seeds proposal_hash) env.id).0 ≡ a.proposal_pda
        → is_free w.governance a.proposal_pda ≡ true
        → env.system.create_account w.governance.lamports a.payer a.proposal_pda proposal_space
          ≡ some lamports
        → as_u64 now + config.minimum_proposal_eta_delay < 2 ^ 64
        → (w' : World) × (execute env dec gw now w a message payload ≡ ok w')
          × (w'.governance.proposals a.proposal_pda
              ≡ some (scheduled_proposal env now config proposal_hash p.eta))
          × (w'.gateway.messages a.executable.incoming_message_pda
              ≡ some (record incoming { status = executed }))
    execute_schedule_succeeds now w a message payload incoming config p proposal_hash lamports
          accounts at was_approved same destination hash loaded authorized context command fits
          found free pays bound =
        let (gateway, validated, now_executed) =
          validate_message_raw_succeeds gw env.id w.gateway a.executable message payload incoming
            accounts at was_approved same destination hash in
        let s =
          schedule_succeeds now w.governance a config p proposal_hash lamports loaded found free
            pays bound in
        let q =
          process_succeeds now w.governance a config payload p proposal_hash _ context command fits
            s in
        (
          _,
          execute_of_parts now w a message payload config gateway _ accounts loaded authorized
              validated q,
          update_self w.governance.proposals a.proposal_pda
              (scheduled_proposal env now config proposal_hash p.eta),
          now_executed,
        )
