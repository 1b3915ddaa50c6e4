-- ===== src/Governance/Config/Effect.antt =====
-- What the instructions on the configuration have checked, and what they leave behind
-- (programs/solana-axelar-governance/src/instructions).
use axelar_amplifier_solana.Governance.{
  GovernanceConfigInit, GovernanceConfigUpdate, governance_seeds, is_valid_delay, or_else,
  update_fields, validate_config, GovEnv, GovernanceConfig, Store,
}
use axelar_amplifier_solana.Governance.Config.{
  UpdateConfigAccounts, WithdrawTokensAccounts, config_space, update_config, withdraw_tokens,
  InitializeConfigAccounts, TransferOperatorshipAccounts, initialize_config, transfer_operatorship,
}
use axelar_amplifier_solana.Prelude.{Map, Option, arith, none, ok, some, true, update, ℕ, ◌≡◌, ◌⊎◌}

-- The proposals are as they were.
pub record ProposalsKept (st st' : Store) : Type 0 where
  pub proposals_kept : st'.proposals ≡ st.proposals
  pub operator_proposals_kept : st'.operator_proposals ≡ st.operator_proposals

module _ (env : GovEnv) where
  pub record Initialized (program_data : Map (Option ℕ)) (st : Store)
      (accounts : InitializeConfigAccounts) (params : GovernanceConfigInit) (st' : Store)
      : Type 0 where
    pub upgrade_authority_signs : accounts.upgrade_authority_is_signer ≡ true
    pub is_upgrade_authority :
        program_data accounts.program_data ≡ some (some accounts.upgrade_authority)
    pub no_config : st.configs accounts.governance_config ≡ none
    pub valid_delay : is_valid_delay params.minimum_proposal_eta_delay ≡ true
    pub written :
        st'.configs
        ≡ update st.configs accounts.governance_config (record {
          bump = (env.rt.find_program_address governance_seeds env.id).1;
          chain_hash = params.chain_hash;
          address_hash = params.address_hash;
          minimum_proposal_eta_delay = params.minimum_proposal_eta_delay;
          operator = params.operator;
        })
    pub others_kept : ProposalsKept st st'

  pub initialize_config_sound :
      (program_data : Map (Option ℕ)) (st : Store) (accounts : InitializeConfigAccounts)
      (params : GovernanceConfigInit) (st' : Store)
      → initialize_config env program_data st accounts params ≡ ok st'
      → Initialized program_data st accounts params st'
  unfolding initialize_config validate_config
  initialize_config_sound program_data st accounts params st' h = ground arith

  pub record Updated (st : Store) (accounts : UpdateConfigAccounts)
      (changes : GovernanceConfigUpdate) (st' : Store) : Type 0 where
    pub config : GovernanceConfig
    pub config_at : st.configs accounts.governance_config ≡ some config
    pub is_operator : config.operator ≡ accounts.operator
    pub operator_signs : accounts.operator_is_signer ≡ true
    pub valid_delay :
        is_valid_delay
          (or_else changes.minimum_proposal_eta_delay config.minimum_proposal_eta_delay)
        ≡ true
    pub written :
        st'.configs
        ≡ update st.configs accounts.governance_config (record config {
          chain_hash = or_else changes.chain_hash config.chain_hash;
          address_hash = or_else changes.address_hash config.address_hash;
          minimum_proposal_eta_delay =
              or_else changes.minimum_proposal_eta_delay config.minimum_proposal_eta_delay;
        })
    pub others_kept : ProposalsKept st st'

  pub update_config_sound :
      (st : Store) (accounts : UpdateConfigAccounts) (changes : GovernanceConfigUpdate)
      (st' : Store)
      → update_config env st accounts changes ≡ ok st'
      → Updated st accounts changes st'
  unfolding update_config update_fields validate_config
  update_config_sound st accounts changes st' h = ground arith

  -- The operator signs, or no operator is given and the configuration itself signs.
  pub record Transferred (st : Store) (accounts : TransferOperatorshipAccounts) (new_operator : ℕ)
      (st' : Store) : Type 0 where
    pub config : GovernanceConfig
    pub config_at : st.configs accounts.governance_config ≡ some config
    pub by_operator_or_governance :
        (accounts.operator_account ≡ some (config.operator, true))
        ⊎ ((accounts.operator_account ≡ none) × (accounts.governance_config_is_signer ≡ true))
    pub written :
        st'.configs
        ≡ update st.configs accounts.governance_config (record config { operator = new_operator })
    pub others_kept : ProposalsKept st st'

  pub transfer_operatorship_sound :
      (st : Store) (accounts : TransferOperatorshipAccounts) (new_operator : ℕ) (st' : Store)
      → transfer_operatorship env st accounts new_operator ≡ ok st'
      → Transferred st accounts new_operator st'
  unfolding transfer_operatorship
  transfer_operatorship_sound st accounts new_operator st' h = ground arith

  pub record Withdrawn (st : Store) (accounts : WithdrawTokensAccounts) (amount : ℕ) (st' : Store)
      : Type 0 where
    pub config_signs : accounts.governance_config_is_signer ≡ true
    pub stays_exempt :
        env.system.is_exempt (st'.lamports accounts.governance_config) config_space ≡ true
    pub configs_kept : st'.configs ≡ st.configs
    pub others_kept : ProposalsKept st st'

  pub withdraw_tokens_sound :
      (st : Store) (accounts : WithdrawTokensAccounts) (amount : ℕ) (st' : Store)
      → withdraw_tokens env st accounts amount ≡ ok st'
      → Withdrawn st accounts amount st'
  unfolding withdraw_tokens
  withdraw_tokens_sound st accounts amount st' h = ground arith
