-- ===== src/Governance/Execution/Effect.antt =====
-- What the execution of a proposal has checked, and what it leaves behind
-- (programs/solana-axelar-governance/src/instructions).
use axelar_amplifier_solana.Governance.{
  GovResult, ExecutableProposal, ExecuteProposalData, GovEnv, GovernanceConfig, OperatorProposal,
  Store, hash_from_data, operator_proposal_seeds, proposal_seeds,
}
use axelar_amplifier_solana.Std.Runtime.{Slice}
use axelar_amplifier_solana.Governance.Execution.{
  checked_from_u256_le_bytes_to_u64, pay_native_value, ExecuteAccounts, ExecuteOperatorAccounts,
  execute_operator_proposal, execute_proposal, execute_proposal_cpi, invocation_of,
}
use axelar_amplifier_solana.Prelude.{
  ok_or, panicked, ◌>>=◌, >>=-ok, ok_or-ok, List, [], arith, erase, ok, some, true, u64_try_from,
  update, ℕ, ℤ, ◌++◌, ◌∷◌, ◌≡◌, ◌≤◌,
}
use axelar_amplifier_solana.Std.Lamports.{Balances}

module _ (env : GovEnv) where
  -- A proposal whose time has come: it is gone afterwards, and the configuration is what it was.
  pub record TimelockExecution (now : ℤ) (st : Store) (accounts : ExecuteAccounts)
      (remaining_accounts : List ℕ) (p : ExecuteProposalData) (st' : Store) : Type 0 where
    pub config : GovernanceConfig
    pub proposal : ExecutableProposal
    pub returned : Store
    pub timestamp : ℕ
    pub config_at : st.configs accounts.governance_config ≡ some config
    pub proposal_at : st.proposals accounts.proposal_pda ≡ some proposal
    pub hashed :
        env.rt.create_program_address
          (proposal_seeds (hash_from_data env p) ++ Slice.byte proposal.bump ∷ [])
          env.id
        ≡ some accounts.proposal_pda
    pub time_valid : u64_try_from now ≡ some timestamp
    pub ready : proposal.eta ≤ timestamp
    pub called :
        execute_proposal_cpi env st p remaining_accounts accounts.governance_config ≡ ok returned
    pub configs_stored : st'.configs ≡ update returned.configs accounts.governance_config config
    pub proposals_stored : st'.proposals ≡ erase returned.proposals accounts.proposal_pda
    pub operator_proposals_stored : st'.operator_proposals ≡ returned.operator_proposals

  pub execute_proposal_sound :
      (now : ℤ) (st : Store) (accounts : ExecuteAccounts) (remaining_accounts : List ℕ)
      (p : ExecuteProposalData) (st' : Store)
      → execute_proposal env now st accounts remaining_accounts p ≡ ok st'
      → TimelockExecution now st accounts remaining_accounts p st'
  unfolding execute_proposal
  execute_proposal_sound now st accounts remaining_accounts p st' h = ground arith

  -- A proposal that was approved for the operator, who signs.
  pub record OperatorExecution (st : Store) (accounts : ExecuteOperatorAccounts)
      (remaining_accounts : List ℕ) (p : ExecuteProposalData) (st' : Store) : Type 0 where
    pub config : GovernanceConfig
    pub proposal : ExecutableProposal
    pub marker : OperatorProposal
    pub returned : Store
    pub config_at : st.configs accounts.governance_config ≡ some config
    pub proposal_at : st.proposals accounts.proposal_pda ≡ some proposal
    pub marker_at : st.operator_proposals accounts.operator_pda_marker_account ≡ some marker
    pub hashed :
        env.rt.create_program_address
          (proposal_seeds (hash_from_data env p) ++ Slice.byte proposal.bump ∷ [])
          env.id
        ≡ some accounts.proposal_pda
    pub marker_found :
        (env.rt.find_program_address (operator_proposal_seeds (hash_from_data env p)) env.id).0
        ≡ accounts.operator_pda_marker_account
    pub is_operator : accounts.operator ≡ config.operator
    pub operator_signs : accounts.operator_is_signer ≡ true
    pub called :
        execute_proposal_cpi env st p remaining_accounts accounts.governance_config ≡ ok returned
    pub configs_stored : st'.configs ≡ update returned.configs accounts.governance_config config
    pub proposals_stored : st'.proposals ≡ erase returned.proposals accounts.proposal_pda
    pub operator_proposals_stored :
        st'.operator_proposals
        ≡ erase returned.operator_proposals accounts.operator_pda_marker_account

  pub execute_operator_proposal_sound :
      (st : Store) (accounts : ExecuteOperatorAccounts) (remaining_accounts : List ℕ)
      (p : ExecuteProposalData) (st' : Store)
      → execute_operator_proposal env st accounts remaining_accounts p ≡ ok st'
      → OperatorExecution st accounts remaining_accounts p st'
  unfolding execute_operator_proposal
  execute_operator_proposal_sound st accounts remaining_accounts p st' h = ground arith

  -- The target is called with the accounts of the program as they were, but for the lamports that
  -- the proposal sends.
  pub execute_proposal_cpi_sound :
      (st : Store) (p : ExecuteProposalData) (remaining_accounts : List ℕ) (governance_config : ℕ)
      (st' : Store)
      → execute_proposal_cpi env st p remaining_accounts governance_config ≡ ok st'
      → (lamports : Balances) × (env.invoke
            (record st { lamports = lamports })
            (invocation_of env p)
          ≡ some st')
  unfolding execute_proposal_cpi
  execute_proposal_cpi_sound st p remaining_accounts governance_config st' h =
      let pay : ℕ → GovResult Balances = λ native_value.
        pay_native_value st.lamports p remaining_accounts native_value governance_config in
      let call : Balances → GovResult Store = λ lamports.
        ok_or (env.invoke (record st { lamports = lamports }) (invocation_of env p)) panicked in
      let (native_value, e1, h1) =
        >>=-ok (checked_from_u256_le_bytes_to_u64 p.native_value) (λ n. pay n >>= call) st' h in
      let (lamports, e2, h2) = >>=-ok (pay native_value) call st' h1 in
      (
        lamports,
        ok_or-ok (env.invoke (record st { lamports = lamports }) (invocation_of env p)) panicked st'
            h2,
      )
