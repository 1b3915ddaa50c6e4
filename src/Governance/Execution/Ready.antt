-- ===== src/Governance/Execution/Ready.antt =====
-- The execution of a proposal whose time has come
-- (programs/solana-axelar-governance/src/instructions/execute_timelock_proposal.rs).
use axelar_amplifier_solana.Governance.{
  ExecutableProposal, ExecuteProposalData, close_to, governance_seeds, hash_from_data,
  proposal_executed, proposal_seeds, GovEnv, Store, GovernanceConfig,
}
use axelar_amplifier_solana.Governance.Execution.{
  check_governance_config_presence, check_target_program_presence, execute_proposal_cpi,
  execute_proposal, ExecuteAccounts,
}
use axelar_amplifier_solana.Std.Runtime.{Slice}
use axelar_amplifier_solana.Std.Lamports.{Balances}
use axelar_amplifier_solana.Governance.Execution.Effect.{execute_proposal_sound}
use axelar_amplifier_solana.Prelude.{
  List, [], arith, erase, none, ok, some, sym, u64_try_from, update, update_self, ℕ, ℤ, ◌++◌, ◌∙◌,
  ◌∷◌, ◌≡◌, ◌≤◌,
}

module _ (env : GovEnv) where
  -- An execution that succeeds leaves the configuration at its account as it was before, whatever the
  -- call of the proposal has made of it.
  pub execute_proposal_keeps_config :
      (now : ℤ) (st : Store) (accounts : ExecuteAccounts) (remaining_accounts : List ℕ)
      (p : ExecuteProposalData) (st' : Store)
      → execute_proposal env now st accounts remaining_accounts p ≡ ok st'
      → st'.configs accounts.governance_config ≡ st.configs accounts.governance_config
  execute_proposal_keeps_config now st accounts remaining_accounts p st' h =
      let f = execute_proposal_sound env now st accounts remaining_accounts p st' h in
      rw (f.configs_stored)
        (update_self (f.returned.configs) accounts.governance_config (f.config) ∙ sym (f.config_at))

  -- A proposal whose time has come is executed and gone, if the addresses are the right ones, the
  -- accounts name the configuration and the target, the call succeeds, and the lamports of the
  -- proposal's account fit.
  pub execute_proposal_succeeds :
      (now : ℤ) (st : Store) (accounts : ExecuteAccounts) (remaining_accounts : List ℕ)
      (p : ExecuteProposalData) (config : GovernanceConfig) (proposal : ExecutableProposal)
      (timestamp : ℕ) (returned : Store) (lamports : Balances)
      → st.configs accounts.governance_config ≡ some config
      → env.rt.create_program_address (governance_seeds ++ Slice.byte config.bump ∷ []) env.id
        ≡ some accounts.governance_config
      → st.proposals accounts.proposal_pda ≡ some proposal
      → env.rt.create_program_address
          (proposal_seeds (hash_from_data env p) ++ Slice.byte proposal.bump ∷ [])
          env.id
        ≡ some accounts.proposal_pda
      → u64_try_from now ≡ some timestamp
      → proposal.eta ≤ timestamp
      → check_governance_config_presence accounts.governance_config remaining_accounts
          p.call_data.solana_accounts
        ≡ ok tt
      → check_target_program_presence remaining_accounts p.target_address ≡ ok tt
      → execute_proposal_cpi env st p remaining_accounts accounts.governance_config ≡ ok returned
      → close_to returned.lamports accounts.proposal_pda accounts.governance_config ≡ ok lamports
      → (st' : Store) × (execute_proposal env now st accounts remaining_accounts p ≡ ok st')
        × (st'.proposals accounts.proposal_pda ≡ none)
  unfolding execute_proposal
  execute_proposal_succeeds now st accounts remaining_accounts p config proposal timestamp returned
        lamports c ca q qa t ready g tp call close =
      (
        record returned {
          lamports = lamports;
          configs = update returned.configs accounts.governance_config config;
          proposals = erase returned.proposals accounts.proposal_pda;
          events =
              proposal_executed (hash_from_data env p) p.target_address p.call_data.call_data
                p.native_value proposal.eta
              ∷ returned.events;
        },
        ground arith,
        ground arith,
      )
