-- ===== src/Governance/Execution.antt =====
-- The execution of proposals: execute_timelock_proposal.rs and execute_operator_proposal.rs of
-- programs/solana-axelar-governance/src/instructions.
pub mod Effect
pub mod Value
pub mod Ready
use axelar_amplifier_solana.Governance.{
  ExecuteProposalData, GovEnv, GovResult, Invocation, SolanaAccountMetadata, Store, close_to,
  governance_config_missing, governance_seeds, hash_from_data, invalid_native_value,
  invalid_target_program, missing_native_value_receiver, operator_proposal_executed,
  operator_proposal_seeds, proposal_executed, proposal_not_ready, proposal_seeds,
  target_account_not_found, unauthorized_operator,
}
use axelar_amplifier_solana.Std.Lamports.{Balances, transfer_lamports}
use axelar_amplifier_solana.Std.Anchor.{check_pda, check_signer, load_account}
use axelar_amplifier_solana.Prelude.{
  Bool, List, Option, anchor, any, constraint_seeds, custom, drop, erase, from_le_bytes,
  if◌then◌else◌, leb, not, ok, ok_or, panicked, require, take, u64_try_from, update, ℕ, ℤ, ◌==◌,
  ◌>>=◌, ◌>>◌, ◌∷◌,
}
use axelar_amplifier_solana.Gas.Accounting.{paid}

pub record ExecuteAccounts : Type 0 where
  pub governance_config : ℕ
  pub proposal_pda : ℕ

pub record ExecuteOperatorAccounts : Type 0 where
  pub governance_config : ℕ
  pub proposal_pda : ℕ
  pub operator : ℕ
  pub operator_is_signer : Bool
  pub operator_pda_marker_account : ℕ

abbrev contains_key : List ℕ → ℕ → Bool
contains_key accounts key = any (λ account. account == key) accounts

-- The remaining accounts of the instruction are given by their keys.
abbrev pub check_governance_config_presence :
    ℕ → List ℕ → List SolanaAccountMetadata → GovResult (Unit {0})
check_governance_config_presence key remaining_accounts solana_accounts = do
  require (contains_key remaining_accounts key) (custom governance_config_missing)
  require (any (λ (metadata : SolanaAccountMetadata). metadata.pubkey == key) solana_accounts)
      (custom governance_config_missing)

abbrev pub check_target_program_presence : List ℕ → ℕ → GovResult (Unit {0})
check_target_program_presence remaining_accounts target_program =
    require (contains_key remaining_accounts target_program) (custom invalid_target_program)

unfoldable pub checked_from_u256_le_bytes_to_u64 : List ℕ → GovResult ℕ
checked_from_u256_le_bytes_to_u64 le_u256 = do
  require (not (any (λ byte. not (byte == 0)) (drop 8 le_u256))) (custom invalid_native_value)
  ok (from_le_bytes (take 8 le_u256))

unfoldable pub manual_lamport_transfer :
    Balances → Option SolanaAccountMetadata → List ℕ → ℕ → ℕ → GovResult Balances
manual_lamport_transfer balances receiver remaining_accounts native_value governance_config = do
  target ← ok_or receiver (custom missing_native_value_receiver)
  require (contains_key remaining_accounts target.pubkey) (custom target_account_not_found)
  transfer_lamports balances governance_config target.pubkey native_value

-- `if native_value_u64 > 0`
abbrev pub pay_native_value : Balances → ExecuteProposalData → List ℕ → ℕ → ℕ → GovResult Balances
pay_native_value balances p remaining_accounts native_value governance_config =
    let paid : GovResult Balances =
      manual_lamport_transfer balances p.call_data.solana_native_value_receiver_account
        remaining_accounts native_value governance_config in
    if native_value == 0 then ok balances else paid

module _ (env : GovEnv) where
  -- The flags of an account meta are those of the metadata, in all four cases of
  -- `get_account_metadata`.
  abbrev pub invocation_of : ExecuteProposalData → Invocation
  invocation_of p = record {
    program_id = p.target_address;
    accounts = p.call_data.solana_accounts;
    call_data = p.call_data.call_data;
  }

  -- A call that fails ends the transaction.
  unfoldable pub execute_proposal_cpi : Store → ExecuteProposalData → List ℕ → ℕ → GovResult Store
  execute_proposal_cpi st p remaining_accounts governance_config = do
    native_value ← checked_from_u256_le_bytes_to_u64 p.native_value
    lamports ← pay_native_value st.lamports p remaining_accounts native_value governance_config
    ok_or (env.invoke (record st { lamports = lamports }) (invocation_of p)) panicked

  -- The checks and the call that both ways of executing share.
  abbrev run_proposal : Store → ExecuteProposalData → List ℕ → ℕ → GovResult Store
  run_proposal st p remaining_accounts governance_config = do
    check_governance_config_presence governance_config remaining_accounts
        p.call_data.solana_accounts
    check_target_program_presence remaining_accounts p.target_address
    execute_proposal_cpi st p remaining_accounts governance_config

  -- On exit Anchor writes back the configuration as it was loaded, and closes the proposal.
  unfoldable pub execute_proposal :
      ℤ → Store → ExecuteAccounts → List ℕ → ExecuteProposalData → GovResult Store
  execute_proposal now st accounts remaining_accounts p = do
    config ← load_account st.configs accounts.governance_config
    proposal ← load_account st.proposals accounts.proposal_pda
    check_pda env.rt env.id governance_seeds config.bump accounts.governance_config
    check_pda env.rt env.id (proposal_seeds (hash_from_data env p)) proposal.bump
        accounts.proposal_pda
    timestamp ← ok_or (u64_try_from now) panicked
    require (leb proposal.eta timestamp) (custom proposal_not_ready)
    st' ← run_proposal st p remaining_accounts accounts.governance_config
    lamports ← close_to st'.lamports accounts.proposal_pda accounts.governance_config
    ok (record st' {
      lamports = lamports;
      configs = update st'.configs accounts.governance_config config;
      proposals = erase st'.proposals accounts.proposal_pda;
      events =
          proposal_executed (hash_from_data env p) p.target_address p.call_data.call_data
            p.native_value proposal.eta
          ∷ st'.events;
    })

  unfoldable pub execute_operator_proposal :
      Store → ExecuteOperatorAccounts → List ℕ → ExecuteProposalData → GovResult Store
  execute_operator_proposal st accounts remaining_accounts p = do
    config ← load_account st.configs accounts.governance_config
    proposal ← load_account st.proposals accounts.proposal_pda
    check_signer accounts.operator_is_signer
    marker ← load_account st.operator_proposals accounts.operator_pda_marker_account
    check_pda env.rt env.id governance_seeds config.bump accounts.governance_config
    check_pda env.rt env.id (proposal_seeds (hash_from_data env p)) proposal.bump
        accounts.proposal_pda
    require (accounts.operator == config.operator) (custom unauthorized_operator)
    require
        ((env.rt.find_program_address (operator_proposal_seeds (hash_from_data env p)) env.id).0
          == accounts.operator_pda_marker_account)
        (anchor constraint_seeds)
    st' ← run_proposal st p remaining_accounts accounts.governance_config
    rest ← close_to st'.lamports accounts.proposal_pda accounts.governance_config
    lamports ← close_to rest accounts.operator_pda_marker_account accounts.governance_config
    ok (record st' {
      lamports = lamports;
      configs = update st'.configs accounts.governance_config config;
      proposals = erase st'.proposals accounts.proposal_pda;
      operator_proposals = erase st'.operator_proposals accounts.operator_pda_marker_account;
      events =
          operator_proposal_executed (hash_from_data env p) p.target_address p.call_data.call_data
            p.native_value
          ∷ st'.events;
    })
