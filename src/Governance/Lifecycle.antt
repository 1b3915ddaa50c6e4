-- ===== src/Governance/Lifecycle.antt =====
-- The runs of the governance program: every instruction, in any order, with the calls that the
-- proposals make (programs/solana-axelar-governance/src/lib.rs).
pub mod Timely
pub mod Delay
pub mod Removal
pub mod Machine
pub mod Messages
use axelar_amplifier_solana.Governance.{
  ExecuteProposalData, GovernanceConfigInit, GovernanceConfigUpdate, GovEnv, GovernanceConfig,
  Store,
}
use axelar_amplifier_solana.Governance.Config.{
  UpdateConfigAccounts, WithdrawTokensAccounts, update_config, withdraw_tokens,
  InitializeConfigAccounts, TransferOperatorshipAccounts, initialize_config, transfer_operatorship,
}
use axelar_amplifier_solana.Governance.Execution.{
  ExecuteAccounts, ExecuteOperatorAccounts, execute_operator_proposal, execute_proposal_cpi,
  execute_proposal,
}
use axelar_amplifier_solana.Governance.Proposals.{
  ApproveAccounts, CancelAccounts, CancelOperatorAccounts, ScheduleAccounts,
  approve_operator_proposal, as_u64, cancel_operator_proposal, cancel_timelock_proposal,
  schedule_timelock_proposal,
}
use axelar_amplifier_solana.Prelude.{some, update, List, Map, Option, [], none, ok, ℕ, ℤ, ◌∷◌, ◌≡◌}
use axelar_amplifier_solana.Gas.Accounting.{paid}

-- The accounts of the program are as they were; the lamports and the events may have changed.
pub record Untouched (st st' : Store) : Type 0 where
  pub configs_kept : st'.configs ≡ st.configs
  pub proposals_kept : st'.proposals ≡ st.proposals
  pub operator_proposals_kept : st'.operator_proposals ≡ st.operator_proposals

-- The schedulings so far, each with its time and the account of its proposal.
abbrev pub History : Type 0
History = List (ℕ × ℕ)

-- An instruction at the time `now`, with the schedulings before and after. The call of a proposal
-- either goes to another program, which the runtime keeps from changing the accounts of this one, or
-- is an instruction of this program itself. A message runs an instruction of this program and then
-- writes the configuration back (Messages).
pub data Step (env : GovEnv) (program_data : Map (Option ℕ)) (now : ℤ)
    : History → Store → History → Store → Type 0 where
  initialized :
      (past : History) (st : Store) (accounts : InitializeConfigAccounts)
      (params : GovernanceConfigInit) (st' : Store)
      → initialize_config env program_data st accounts params ≡ ok st'
      → Step env program_data now past st past st'
  updated :
      (past : History) (st : Store) (accounts : UpdateConfigAccounts)
      (changes : GovernanceConfigUpdate) (st' : Store)
      → update_config env st accounts changes ≡ ok st'
      → Step env program_data now past st past st'
  transferred :
      (past : History) (st : Store) (accounts : TransferOperatorshipAccounts) (new_operator : ℕ)
      (st' : Store)
      → transfer_operatorship env st accounts new_operator ≡ ok st'
      → Step env program_data now past st past st'
  withdrawn :
      (past : History) (st : Store) (accounts : WithdrawTokensAccounts) (amount : ℕ) (st' : Store)
      → withdraw_tokens env st accounts amount ≡ ok st'
      → Step env program_data now past st past st'
  scheduled :
      (past : History) (st : Store) (accounts : ScheduleAccounts) (proposal_hash eta : ℕ)
      (native_value target call_data : List ℕ) (st' : Store)
      → schedule_timelock_proposal env now st accounts proposal_hash eta native_value target
          call_data
        ≡ ok st'
      → Step env program_data now past st ((as_u64 now, accounts.proposal_pda) ∷ past) st'
  cancelled :
      (past : History) (st : Store) (accounts : CancelAccounts) (proposal_hash eta : ℕ)
      (native_value target call_data : List ℕ) (st' : Store)
      → cancel_timelock_proposal env st accounts proposal_hash eta native_value target call_data
        ≡ ok st'
      → Step env program_data now past st past st'
  operator_approved :
      (past : History) (st : Store) (accounts : ApproveAccounts) (proposal_hash : ℕ)
      (native_value target call_data : List ℕ) (st' : Store)
      → approve_operator_proposal env st accounts proposal_hash native_value target call_data
        ≡ ok st'
      → Step env program_data now past st past st'
  approval_cancelled :
      (past : History) (st : Store) (accounts : CancelOperatorAccounts) (proposal_hash : ℕ)
      (native_value target call_data : List ℕ) (st' : Store)
      → cancel_operator_proposal env st accounts proposal_hash native_value target call_data
        ≡ ok st'
      → Step env program_data now past st past st'
  executed_foreign :
      (past : History) (st : Store) (accounts : ExecuteAccounts) (remaining_accounts : List ℕ)
      (p : ExecuteProposalData) (returned st' : Store)
      → execute_proposal env now st accounts remaining_accounts p ≡ ok st'
      → execute_proposal_cpi env st p remaining_accounts accounts.governance_config ≡ ok returned
      → Untouched st returned
      → Step env program_data now past st past st'
  executed_own :
      (past : History) (st : Store) (accounts : ExecuteAccounts) (remaining_accounts : List ℕ)
      (p : ExecuteProposalData) (paid : Store) (past' : History) (returned st' : Store)
      → execute_proposal env now st accounts remaining_accounts p ≡ ok st'
      → execute_proposal_cpi env st p remaining_accounts accounts.governance_config ≡ ok returned
      → Untouched st paid
      → Step env program_data now past paid past' returned
      → Step env program_data now past st past' st'
  operated_foreign :
      (past : History) (st : Store) (accounts : ExecuteOperatorAccounts)
      (remaining_accounts : List ℕ) (p : ExecuteProposalData) (returned st' : Store)
      → execute_operator_proposal env st accounts remaining_accounts p ≡ ok st'
      → execute_proposal_cpi env st p remaining_accounts accounts.governance_config ≡ ok returned
      → Untouched st returned
      → Step env program_data now past st past st'
  operated_own :
      (past : History) (st : Store) (accounts : ExecuteOperatorAccounts)
      (remaining_accounts : List ℕ) (p : ExecuteProposalData) (paid : Store) (past' : History)
      (returned st' : Store)
      → execute_operator_proposal env st accounts remaining_accounts p ≡ ok st'
      → execute_proposal_cpi env st p remaining_accounts accounts.governance_config ≡ ok returned
      → Untouched st paid
      → Step env program_data now past paid past' returned
      → Step env program_data now past st past' st'
  received :
      (past : History) (st : Store) (governance_config : ℕ) (config : GovernanceConfig)
      (past' : History) (returned st' : Store)
      → st.configs governance_config ≡ some config
      → record returned { configs = update returned.configs governance_config config } ≡ st'
      → Step env program_data now past st past' returned
      → Step env program_data now past st past' st'

-- What can be reached from a program without accounts, with times that need not grow.
pub data Reached (env : GovEnv) (program_data : Map (Option ℕ)) : History → Store → Type 0 where
  start :
      (st : Store)
      → ((a : ℕ) → st.configs a ≡ none)
      → ((a : ℕ) → st.proposals a ≡ none)
      → Reached env program_data [] st
  step :
      (now : ℤ) (past past' : History) (st st' : Store)
      → Reached env program_data past st
      → Step env program_data now past st past' st'
      → Reached env program_data past' st'
