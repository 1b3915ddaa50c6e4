-- ===== src/Governance/Lifecycle/Removal.antt =====
-- Why a proposal can go (the instructions of programs/solana-axelar-governance/src that cancel and
-- execute proposals).
use axelar_amplifier_solana.Governance.{
  ExecuteProposalData, GovEnv, GovernanceConfig, OperatorProposal, Store, hash_from_data,
  operator_proposal_seeds, proposal_seeds, ExecutableProposal,
}
use axelar_amplifier_solana.Governance.Lifecycle.{
  received, History, Step, approval_cancelled, cancelled, executed_foreign, executed_own,
  initialized, operated_foreign, operated_own, operator_approved, scheduled, transferred, updated,
  withdrawn,
}
use axelar_amplifier_solana.Std.Runtime.{Slice}
use axelar_amplifier_solana.Governance.Proposals.{CancelAccounts}
use axelar_amplifier_solana.Governance.Execution.{ExecuteAccounts, ExecuteOperatorAccounts}
use axelar_amplifier_solana.Governance.Proposals.Effect.{ByGovernance}
use axelar_amplifier_solana.Prelude.{
  Map, Option, [], some, true, u64_try_from, ℕ, ℤ, ◌++◌, ◌∷◌, ◌≡◌, ◌≤◌, ◌⊎◌,
}

-- The cancellation names the account of the proposal and its time, and governance signs it.
pub record ByCancellation (env : GovEnv) (st : Store) (accounts : CancelAccounts) (eta : ℕ) (a : ℕ)
    (q : ExecutableProposal) : Type 0 where
  pub cancels : accounts.proposal_pda ≡ a
  pub config : GovernanceConfig
  pub by_governance :
      ByGovernance env st accounts.governance_config accounts.governance_config_is_signer config
  pub same_eta : eta ≡ q.eta

-- The execution names the account of the proposal, whose time has come.
pub record ByTime (now : ℤ) (accounts : ExecuteAccounts) (a : ℕ) (q : ExecutableProposal)
    : Type 0 where
  pub executes : accounts.proposal_pda ≡ a
  pub timestamp : ℕ
  pub time_valid : u64_try_from now ≡ some timestamp
  pub ready : q.eta ≤ timestamp

-- The execution names the account of the proposal, and the operator of the store, who signs, was given
-- the approval of governance for this proposal.
pub record ByOperator (env : GovEnv) (st : Store) (accounts : ExecuteOperatorAccounts)
    (p : ExecuteProposalData) (a : ℕ) (q : ExecutableProposal) : Type 0 where
  pub executes : accounts.proposal_pda ≡ a
  pub config : GovernanceConfig
  pub config_at : st.configs accounts.governance_config ≡ some config
  pub is_operator : accounts.operator ≡ config.operator
  pub operator_signs : accounts.operator_is_signer ≡ true
  pub marker : OperatorProposal
  pub marker_at : st.operator_proposals accounts.operator_pda_marker_account ≡ some marker
  pub marker_of_proposal :
      (env.rt.find_program_address (operator_proposal_seeds (hash_from_data env p)) env.id).0
      ≡ accounts.operator_pda_marker_account
  pub proposal_of_data :
      env.rt.create_program_address
        (proposal_seeds (hash_from_data env p) ++ Slice.byte q.bump ∷ [])
        env.id
      ≡ some a

-- Why an instruction can take the proposal `q` at the account `a` away: it cancels it, it executes it
-- when its time has come or for the operator, or it executes a proposal or a message that calls such an
-- instruction.
abbrev pub Removes :
    (env : GovEnv) (program_data : Map (Option ℕ)) (now : ℤ) {past past' : History} {st st' : Store}
    → Step env program_data now past st past' st'
    → ℕ
    → ExecutableProposal
    → Type 0
Removes env d now (initialized past st x params st' e) a q = ⊥
Removes env d now (updated past st x changes st' e) a q = ⊥
Removes env d now (transferred past st x new_operator st' e) a q = ⊥
Removes env d now (withdrawn past st x amount st' e) a q = ⊥
Removes env d now (scheduled past st x proposal_hash eta native_value target call_data st' e) a q =
    ⊥
Removes env d now (cancelled past st x proposal_hash eta native_value target call_data st' e) a q =
    ByCancellation env st x eta a q
Removes env d now (operator_approved past st x proposal_hash native_value target call_data st' e) a
      q =
    ⊥
Removes env d now (approval_cancelled past st x proposal_hash native_value target call_data st' e) a
      q =
    ⊥
Removes env d now (executed_foreign past st x r p returned st' e c u) a q = ByTime now x a q
Removes env d now (executed_own past st x r p before_call past' returned st' e c u s) a q =
    ByTime now x a q ⊎ Removes env d now s a q
Removes env d now (operated_foreign past st x r p returned st' e c u) a q =
    ByOperator env st x p a q
Removes env d now (operated_own past st x r p before_call past' returned st' e c u s) a q =
    ByOperator env st x p a q ⊎ Removes env d now s a q
Removes env d now (received past st k config past' returned st' at e s) a q =
    Removes env d now s a q
