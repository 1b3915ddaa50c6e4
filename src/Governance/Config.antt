-- ===== src/Governance/Config.antt =====
-- The instructions on the configuration: initialize_config.rs, update_config.rs,
-- transfer_operatorship.rs and withdraw_tokens.rs of
-- programs/solana-axelar-governance/src/instructions.
pub mod Effect
use axelar_amplifier_solana.Governance.{
  GovernanceError, GovEnv, GovResult, GovernanceConfig, GovernanceConfigInit,
  GovernanceConfigUpdate, Store, governance_seeds, invalid_upgrade_authority, is_free, not_operator,
  operatorship_transferred, update_fields, validate_config,
}
use axelar_amplifier_solana.Prelude.{
  is_none, not, ◌||◌, Bool, Map, Option, [], anchor, constraint_seeds, constraint_signer, custom,
  invalid_account_data, none, ok, ok_or, panicked, program, require, some, true, update, ℕ, ◌+◌,
  ◌==◌, ◌>>=◌, ◌>>◌, ◌∷◌,
}
use axelar_amplifier_solana.Std.Runtime.{Slice}
use axelar_amplifier_solana.Std.Anchor.{check_pda, check_signer, init_pda, is_address, load_account}
use axelar_amplifier_solana.Std.Lamports.{transfer_lamports}

pub record InitializeConfigAccounts : Type 0 where
  pub payer : ℕ
  pub payer_is_signer : Bool
  pub upgrade_authority : ℕ
  pub upgrade_authority_is_signer : Bool
  pub program_data : ℕ
  pub governance_config : ℕ

pub record UpdateConfigAccounts : Type 0 where
  pub operator : ℕ
  pub operator_is_signer : Bool
  pub governance_config : ℕ

-- `operator_account` is an optional signer.
pub record TransferOperatorshipAccounts : Type 0 where
  pub operator_account : Option (ℕ × Bool)
  pub governance_config : ℕ
  pub governance_config_is_signer : Bool

pub record WithdrawTokensAccounts : Type 0 where
  pub governance_config : ℕ
  pub governance_config_is_signer : Bool
  pub receiver : ℕ

-- `GovernanceConfig::INIT_SPACE` and the discriminator.
abbrev pub config_space : ℕ
config_space = 8 + (1 + 32 + 32 + 4 + 32)

abbrev operator_matches : Option (ℕ × Bool) → GovernanceConfig → Bool
operator_matches none config = true
operator_matches (some (key, is_signer)) config = key == config.operator

abbrev optional_signs : Option (ℕ × Bool) → Bool
optional_signs none = true
optional_signs (some (key, is_signer)) = is_signer

-- `program_data` holds the upgrade authority of each program data account.
module _ (env : GovEnv) (program_data : Map (Option ℕ)) where
  unfoldable pub initialize_config :
      Store → InitializeConfigAccounts → GovernanceConfigInit → GovResult Store
  unfolding validate_config
  initialize_config st accounts params = do
    check_signer accounts.payer_is_signer
    check_signer accounts.upgrade_authority_is_signer
    authority ← load_account program_data accounts.program_data
    bump ←
        init_pda env.rt env.id (is_free st accounts.governance_config) governance_seeds
          accounts.governance_config
    lamports ←
        ok_or
          (env.system.create_account st.lamports accounts.payer accounts.governance_config
            config_space)
          panicked
    require
        ((env.rt.find_program_address (Slice.array env.id ∷ []) env.bpf_loader_upgradeable).0
          == accounts.program_data)
        (anchor constraint_seeds)
    require (is_address authority accounts.upgrade_authority) (custom invalid_upgrade_authority)
    let config : GovernanceConfig = record {
      bump = bump;
      chain_hash = params.chain_hash;
      address_hash = params.address_hash;
      minimum_proposal_eta_delay = params.minimum_proposal_eta_delay;
      operator = params.operator;
    }
    validate_config config
    ok (record st {
      lamports = lamports;
      configs = update st.configs accounts.governance_config config;
    })

module _ (env : GovEnv) where
  -- `bump` without a value: the address is the one that is found.
  unfoldable pub update_config :
      Store → UpdateConfigAccounts → GovernanceConfigUpdate → GovResult Store
  unfolding update_fields validate_config
  update_config st accounts params = do
    check_signer accounts.operator_is_signer
    config ← load_account st.configs accounts.governance_config
    require (config.operator == accounts.operator) (custom not_operator)
    require ((env.rt.find_program_address governance_seeds env.id).0 == accounts.governance_config)
        (anchor constraint_seeds)
    config' ← update_fields config params
    ok (record st { configs = update st.configs accounts.governance_config config' })

  unfoldable pub transfer_operatorship : Store → TransferOperatorshipAccounts → ℕ → GovResult Store
  transfer_operatorship st accounts new_operator = do
    check_signer (optional_signs accounts.operator_account)
    config ← load_account st.configs accounts.governance_config
    require (operator_matches accounts.operator_account config)
        (custom GovernanceError.missing_required_signature)
    check_pda env.rt env.id governance_seeds config.bump accounts.governance_config
    require (not (is_none accounts.operator_account) || accounts.governance_config_is_signer)
        (custom GovernanceError.missing_required_signature)
    ok (record st {
      configs =
          update st.configs accounts.governance_config (record config { operator = new_operator });
      events = operatorship_transferred config.operator new_operator ∷ st.events;
    })

  unfoldable pub withdraw_tokens : Store → WithdrawTokensAccounts → ℕ → GovResult Store
  withdraw_tokens st accounts amount = do
    config ← load_account st.configs accounts.governance_config
    check_pda env.rt env.id governance_seeds config.bump accounts.governance_config
    require accounts.governance_config_is_signer (anchor constraint_signer)
    lamports ← transfer_lamports st.lamports accounts.governance_config accounts.receiver amount
    require (env.system.is_exempt (lamports accounts.governance_config) config_space)
        (program invalid_account_data)
    ok (record st { lamports = lamports })
