-- ===== src/Governance/Lifecycle/Messages.antt =====
-- The execution of a message is a step of the program
-- (programs/solana-axelar-governance/src/instructions/process_gmp.rs).
use axelar_amplifier_solana.Governance.{GovEnv, GovResult, GovernanceConfig, Store}
use axelar_amplifier_solana.Governance.Lifecycle.{
  History, Step, approval_cancelled, cancelled, operator_approved, received, scheduled,
}
use axelar_amplifier_solana.Governance.Gmp.{
  calculate_gmp_context, Decoders, GmpAccounts, GovernanceCommand, GovernanceCommandPayload, World,
  approve_operator, cancel_operator_approval, cancel_time_lock_proposal, dispatch, execute,
  extract_eta, is_signed_config, other_command, process, schedule_accounts,
  schedule_time_lock_proposal, self_called,
}
use axelar_amplifier_solana.Std.Types.{Message}
use axelar_amplifier_solana.Gateway.Env.{Env}
use axelar_amplifier_solana.Governance.Gmp.Effect.{execute_sound}
use axelar_amplifier_solana.Prelude.{
  ok_inj, >>=-ok, Bool, List, Map, Option, err, ok, to_le_bytes, update, ℕ, ℤ, ◌≡◌,
}
use axelar_amplifier_solana.Its.Inbound.Accounts.{decoded}

module _ (env : GovEnv) (program_data : Map (Option ℕ)) (dec : Decoders) (now : ℤ)
    (past : History) where
  abbrev Stepped : Store → Store → Type 0
  Stepped st st' = (past' : History) × Step env program_data now past st past' st'

  self_called_ok : (r : GovResult Store) (st : Store) → self_called r ≡ ok st → r ≡ ok st
  self_called_ok (ok s) st h = cc
  self_called_ok (err e) st h = cc

  -- What a command calls.
  dispatch-Stepped :
      (command : GovernanceCommand) (st : Store) (a : GmpAccounts) (signs : Bool)
      (proposal_hash : ℕ) (p : GovernanceCommandPayload) (returned : Store)
      → dispatch env dec command now st a signs proposal_hash p ≡ ok returned
      → Stepped st returned
  unfolding dispatch
  dispatch-Stepped schedule_time_lock_proposal st a signs hash p returned h =
      let (eta, _, e) = >>=-ok (extract_eta p) _ returned h in
      (
        _,
        scheduled past st (schedule_accounts a signs) hash eta (to_le_bytes 32 p.native_value)
            p.target p.call_data returned (self_called_ok _ returned e),
      )
  dispatch-Stepped cancel_time_lock_proposal st a signs hash p returned h =
      let (eta, _, e) = >>=-ok (extract_eta p) _ returned h in
      (
        past,
        cancelled past st _ hash eta (to_le_bytes 32 p.native_value) p.target p.call_data returned
            (self_called_ok _ returned e),
      )
  dispatch-Stepped approve_operator st a signs hash p returned h =
      let (eta, _, e) = >>=-ok (extract_eta p) _ returned h in
      (
        past,
        operator_approved past st _ hash (to_le_bytes 32 p.native_value) p.target p.call_data
            returned (self_called_ok _ returned e),
      )
  dispatch-Stepped cancel_operator_approval st a signs hash p returned h =
      let (eta, _, e) = >>=-ok (extract_eta p) _ returned h in
      (
        past,
        approval_cancelled past st _ hash (to_le_bytes 32 p.native_value) p.target p.call_data
            returned (self_called_ok _ returned e),
      )
  dispatch-Stepped other_command st a signs hash p returned h = cc

  -- The command is run, then the configuration is written back.
  record Written (st : Store) (a : GmpAccounts) (config : GovernanceConfig) (payload : List ℕ)
      (st' : Store) : Type 0 where
    pub context : GovernanceCommandPayload × ℕ
    pub returned : Store
    pub dispatched :
        dispatch env dec context.0.command now st a
          (is_signed_config env dec config a.governance_config)
          context.1
          context.0
        ≡ ok returned
    pub written :
        record returned { configs = update returned.configs a.governance_config config } ≡ st'

  process-Written :
      (st : Store) (a : GmpAccounts) (config : GovernanceConfig) (payload : List ℕ) (st' : Store)
      → process env dec now st a config payload ≡ ok st'
      → Written st a config payload st'
  unfolding process
  process-Written st a config payload st' h =
      let (context, decoded, h1) = >>=-ok (calculate_gmp_context env dec payload) _ st' h in
      let (returned, dispatched, h2) =
        >>=-ok
          (dispatch env dec context.0.command now st a
            (is_signed_config env dec config a.governance_config) context.1 context.0)
          _ st' h1 in
      record {
        context = context;
        returned = returned;
        dispatched = dispatched;
        written = ok_inj _ st' h2;
      }

  -- If the execution of a message succeeds, it is a step of the program, so that what holds of all
  -- steps and of all runs holds of it.
  pub execute-Stepped :
      (gw : Env) (w : World) (a : GmpAccounts) (message : Message) (payload : List ℕ) (w' : World)
      → execute env dec gw now w a message payload ≡ ok w'
      → (past' : History) × Step env program_data now past w.governance past' w'.governance
  execute-Stepped gw w a message payload w' h =
      let f = execute_sound env dec gw now w a message payload w' h in
      let g = process-Written w.governance a f.config payload w'.governance f.processed in
      let (past', s) =
        dispatch-Stepped g.context.0.command w.governance a
          (is_signed_config env dec f.config a.governance_config) g.context.1 g.context.0 g.returned
          g.dispatched in
      (
        past',
        received past w.governance a.governance_config f.config past' g.returned w'.governance
            f.config_at g.written s,
      )
