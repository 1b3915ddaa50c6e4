-- ===== src/Governance/Proposals/Effect.antt =====
-- What the instructions on proposals have checked, and what they leave behind
-- (programs/solana-axelar-governance/src/instructions/gmp).
use axelar_amplifier_solana.Governance.{
  ExecutableProposal, governance_seeds, operator_proposal, operator_proposal_seeds, proposal_seeds,
  GovEnv, GovernanceConfig, Store,
}
use axelar_amplifier_solana.Std.Runtime.{Slice}
use axelar_amplifier_solana.Governance.Proposals.{
  ApproveAccounts, CancelAccounts, CancelOperatorAccounts, approve_operator_proposal, as_u64,
  at_least_default_eta_delay, cancel_operator_proposal, cancel_timelock_proposal,
  schedule_timelock_proposal, ScheduleAccounts,
}
use axelar_amplifier_solana.Prelude.{
  Bool, List, [], arith, erase, if◌then◌else◌, ltb, none, ok, some, true, update, ℕ, ℤ, ◌++◌, ◌+◌,
  ◌<◌, ◌^◌, ◌∷◌, ◌≡◌,
}

-- The later one of the time that was asked for and the minimum.
abbrev pub final_eta : ℤ → GovernanceConfig → ℕ → ℕ
final_eta now config eta =
    if ltb eta (as_u64 now + config.minimum_proposal_eta_delay)
    then as_u64 now + config.minimum_proposal_eta_delay
    else eta

module _ (env : GovEnv) where
  -- The configuration of the program signed, which only the program itself can have it do.
  pub record ByGovernance (st : Store) (address : ℕ) (is_signer : Bool) (config : GovernanceConfig)
      : Type 0 where
    pub config_at : st.configs address ≡ some config
    pub config_signs : is_signer ≡ true
    pub config_address :
        env.rt.create_program_address (governance_seeds ++ Slice.byte config.bump ∷ []) env.id
        ≡ some address

  -- The proposal that is set up.
  abbrev pub scheduled_proposal : ℤ → GovernanceConfig → ℕ → ℕ → ExecutableProposal
  scheduled_proposal now config proposal_hash eta = record {
    eta = final_eta now config eta;
    bump = (env.rt.find_program_address (proposal_seeds proposal_hash) env.id).1;
    managed_bump = (env.rt.find_program_address (operator_proposal_seeds proposal_hash) env.id).1;
  }

  pub record Scheduled (now : ℤ) (st : Store) (accounts : ScheduleAccounts) (proposal_hash eta : ℕ)
      (st' : Store) : Type 0 where
    pub config : GovernanceConfig
    pub by_governance :
        ByGovernance st accounts.governance_config accounts.governance_config_is_signer config
    pub no_proposal : st.proposals accounts.proposal_pda ≡ none
    pub hashed :
        (env.rt.find_program_address (proposal_seeds proposal_hash) env.id).0
        ≡ accounts.proposal_pda
    pub no_overflow : as_u64 now + config.minimum_proposal_eta_delay < 2 ^ 64
    pub written :
        st'.proposals
        ≡ update st.proposals accounts.proposal_pda
            (scheduled_proposal now config proposal_hash eta)
    pub configs_kept : st'.configs ≡ st.configs
    pub operator_proposals_kept : st'.operator_proposals ≡ st.operator_proposals

  pub schedule_timelock_proposal_sound :
      (now : ℤ) (st : Store) (accounts : ScheduleAccounts) (proposal_hash eta : ℕ)
      (native_value target call_data : List ℕ) (st' : Store)
      → schedule_timelock_proposal env now st accounts proposal_hash eta native_value target
          call_data
        ≡ ok st'
      → Scheduled now st accounts proposal_hash eta st'
  unfolding schedule_timelock_proposal at_least_default_eta_delay
  schedule_timelock_proposal_sound now st accounts proposal_hash eta native_value target call_data
        st' h =
      ground arith

  pub record Cancelled (st : Store) (accounts : CancelAccounts) (proposal_hash eta : ℕ)
      (st' : Store) : Type 0 where
    pub config : GovernanceConfig
    pub by_governance :
        ByGovernance st accounts.governance_config accounts.governance_config_is_signer config
    pub proposal : ExecutableProposal
    pub proposal_at : st.proposals accounts.proposal_pda ≡ some proposal
    pub same_eta : eta ≡ proposal.eta
    pub written : st'.proposals ≡ erase st.proposals accounts.proposal_pda
    pub configs_kept : st'.configs ≡ st.configs
    pub operator_proposals_kept : st'.operator_proposals ≡ st.operator_proposals

  pub cancel_timelock_proposal_sound :
      (st : Store) (accounts : CancelAccounts) (proposal_hash eta : ℕ)
      (native_value target call_data : List ℕ) (st' : Store)
      → cancel_timelock_proposal env st accounts proposal_hash eta native_value target call_data
        ≡ ok st'
      → Cancelled st accounts proposal_hash eta st'
  unfolding cancel_timelock_proposal
  cancel_timelock_proposal_sound st accounts proposal_hash eta native_value target call_data st' h =
      ground arith

  pub record Approved (st : Store) (accounts : ApproveAccounts) (proposal_hash : ℕ) (st' : Store)
      : Type 0 where
    pub config : GovernanceConfig
    pub by_governance :
        ByGovernance st accounts.governance_config accounts.governance_config_is_signer config
    pub proposal : ExecutableProposal
    pub proposal_at : st.proposals accounts.proposal_pda ≡ some proposal
    pub not_approved : st.operator_proposals accounts.operator_proposal_pda ≡ none
    pub hashed :
        (env.rt.find_program_address (operator_proposal_seeds proposal_hash) env.id).0
        ≡ accounts.operator_proposal_pda
    pub written :
        st'.operator_proposals
        ≡ update st.operator_proposals accounts.operator_proposal_pda operator_proposal
    pub configs_kept : st'.configs ≡ st.configs
    pub proposals_kept : st'.proposals ≡ st.proposals

  pub approve_operator_proposal_sound :
      (st : Store) (accounts : ApproveAccounts) (proposal_hash : ℕ)
      (native_value target call_data : List ℕ) (st' : Store)
      → approve_operator_proposal env st accounts proposal_hash native_value target call_data
        ≡ ok st'
      → Approved st accounts proposal_hash st'
  unfolding approve_operator_proposal
  approve_operator_proposal_sound st accounts proposal_hash native_value target call_data st' h =
      ground arith

  pub record OperatorCancelled (st : Store) (accounts : CancelOperatorAccounts) (st' : Store)
      : Type 0 where
    pub config : GovernanceConfig
    pub by_governance :
        ByGovernance st accounts.governance_config accounts.governance_config_is_signer config
    pub proposal : ExecutableProposal
    pub proposal_at : st.proposals accounts.proposal_pda ≡ some proposal
    pub written :
        st'.operator_proposals ≡ erase st.operator_proposals accounts.operator_proposal_pda
    pub configs_kept : st'.configs ≡ st.configs
    pub proposals_kept : st'.proposals ≡ st.proposals

  pub cancel_operator_proposal_sound :
      (st : Store) (accounts : CancelOperatorAccounts) (proposal_hash : ℕ)
      (native_value target call_data : List ℕ) (st' : Store)
      → cancel_operator_proposal env st accounts proposal_hash native_value target call_data
        ≡ ok st'
      → OperatorCancelled st accounts st'
  unfolding cancel_operator_proposal
  cancel_operator_proposal_sound st accounts proposal_hash native_value target call_data st' h =
      ground arith
