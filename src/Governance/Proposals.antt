-- ===== src/Governance/Proposals.antt =====
-- The instructions on proposals that only the program itself can call, since the configuration has to
-- sign them (programs/solana-axelar-governance/src/instructions/gmp).
pub mod Effect
use axelar_amplifier_solana.Governance.{
  ExecutableProposal, GovEnv, GovResult, GovernanceConfig, GovernanceError, Store, close_to,
  governance_seeds, is_free, operator_proposal, operator_proposal_approved,
  operator_proposal_cancelled, operator_proposal_seeds, proposal_cancelled, proposal_scheduled,
  proposal_seeds,
}
use axelar_amplifier_solana.Std.Anchor.{
  check_pda, check_signer, init_pda, load_account, u64_checked_add,
}
use axelar_amplifier_solana.Prelude.{
  Bool, List, anchor, constraint_signer, custom, erase, if◌then◌else◌, ltb, negsuc, ok, ok_or,
  panicked, pos, require, update, ℕ, ℤ, ◌%◌, ◌+◌, ◌-◌, ◌==◌, ◌>>=◌, ◌>>◌, ◌^◌, ◌∷◌,
}

pub record ScheduleAccounts : Type 0 where
  pub governance_config : ℕ
  pub governance_config_is_signer : Bool
  pub payer : ℕ
  pub payer_is_signer : Bool
  pub proposal_pda : ℕ

pub record CancelAccounts : Type 0 where
  pub governance_config : ℕ
  pub governance_config_is_signer : Bool
  pub proposal_pda : ℕ

pub record ApproveAccounts : Type 0 where
  pub governance_config : ℕ
  pub governance_config_is_signer : Bool
  pub payer : ℕ
  pub payer_is_signer : Bool
  pub proposal_pda : ℕ
  pub operator_proposal_pda : ℕ

pub record CancelOperatorAccounts : Type 0 where
  pub governance_config : ℕ
  pub governance_config_is_signer : Bool
  pub proposal_pda : ℕ
  pub operator_proposal_pda : ℕ

-- The discriminator and the fields.
abbrev pub proposal_space : ℕ
proposal_space = 8 + (8 + 1 + 1)

-- `unix_timestamp as u64`
abbrev pub as_u64 : ℤ → ℕ
as_u64 (pos n) = n % 2 ^ 64
as_u64 (negsuc n) = 2 ^ 64 - 1 - n % 2 ^ 64

unfoldable pub at_least_default_eta_delay : ℤ → ℕ → ℕ → GovResult ℕ
at_least_default_eta_delay now proposal_time min_eta_delay = do
  minimum_proposal_eta ←
      ok_or (u64_checked_add (as_u64 now) min_eta_delay)
        (custom GovernanceError.arithmetic_overflow)
  ok (if ltb proposal_time minimum_proposal_eta then minimum_proposal_eta else proposal_time)

module _ (env : GovEnv) where
  -- The constraints on the configuration, which has to sign.
  abbrev check_config : GovernanceConfig → ℕ → Bool → GovResult (Unit {0})
  check_config config address is_signer = do
    check_pda env.rt env.id governance_seeds config.bump address
    require is_signer (anchor constraint_signer)

  unfoldable pub schedule_timelock_proposal :
      ℤ → Store → ScheduleAccounts → ℕ → ℕ → List ℕ → List ℕ → List ℕ → GovResult Store
  unfolding at_least_default_eta_delay
  schedule_timelock_proposal now st accounts proposal_hash eta native_value target call_data = do
    config ← load_account st.configs accounts.governance_config
    check_signer accounts.payer_is_signer
    bump ←
        init_pda env.rt env.id (is_free st accounts.proposal_pda) (proposal_seeds proposal_hash)
          accounts.proposal_pda
    lamports ←
        ok_or
          (env.system.create_account st.lamports accounts.payer accounts.proposal_pda
            proposal_space)
          panicked
    check_config config accounts.governance_config accounts.governance_config_is_signer
    let managed_bump =
        (env.rt.find_program_address (operator_proposal_seeds proposal_hash) env.id).1
    final_eta ← at_least_default_eta_delay now eta config.minimum_proposal_eta_delay
    let proposal : ExecutableProposal = record {
      eta = final_eta;
      bump = bump;
      managed_bump = managed_bump;
    }
    ok (record st {
      lamports = lamports;
      proposals = update st.proposals accounts.proposal_pda proposal;
      events = proposal_scheduled proposal_hash target call_data native_value final_eta ∷ st.events;
    })

  unfoldable pub cancel_timelock_proposal :
      Store → CancelAccounts → ℕ → ℕ → List ℕ → List ℕ → List ℕ → GovResult Store
  cancel_timelock_proposal st accounts proposal_hash eta native_value target call_data = do
    config ← load_account st.configs accounts.governance_config
    proposal ← load_account st.proposals accounts.proposal_pda
    check_config config accounts.governance_config accounts.governance_config_is_signer
    check_pda env.rt env.id (proposal_seeds proposal_hash) proposal.bump accounts.proposal_pda
    require (eta == proposal.eta) (custom GovernanceError.invalid_argument)
    lamports ← close_to st.lamports accounts.proposal_pda accounts.governance_config
    ok (record st {
      lamports = lamports;
      proposals = erase st.proposals accounts.proposal_pda;
      events = proposal_cancelled proposal_hash target call_data native_value eta ∷ st.events;
    })

  unfoldable pub approve_operator_proposal :
      Store → ApproveAccounts → ℕ → List ℕ → List ℕ → List ℕ → GovResult Store
  approve_operator_proposal st accounts proposal_hash native_value target call_data = do
    check_signer accounts.payer_is_signer
    config ← load_account st.configs accounts.governance_config
    proposal ← load_account st.proposals accounts.proposal_pda
    bump ←
        init_pda env.rt env.id (is_free st accounts.operator_proposal_pda)
          (operator_proposal_seeds proposal_hash) accounts.operator_proposal_pda
    lamports ←
        ok_or
          (env.system.create_account st.lamports accounts.payer accounts.operator_proposal_pda 8)
          panicked
    check_config config accounts.governance_config accounts.governance_config_is_signer
    check_pda env.rt env.id (proposal_seeds proposal_hash) proposal.bump accounts.proposal_pda
    require (proposal.managed_bump == bump) (custom GovernanceError.invalid_argument)
    ok (record st {
      lamports = lamports;
      operator_proposals =
          update st.operator_proposals accounts.operator_proposal_pda operator_proposal;
      events = operator_proposal_approved proposal_hash target call_data native_value ∷ st.events;
    })

  unfoldable pub cancel_operator_proposal :
      Store → CancelOperatorAccounts → ℕ → List ℕ → List ℕ → List ℕ → GovResult Store
  cancel_operator_proposal st accounts proposal_hash native_value target call_data = do
    config ← load_account st.configs accounts.governance_config
    proposal ← load_account st.proposals accounts.proposal_pda
    marker ← load_account st.operator_proposals accounts.operator_proposal_pda
    check_config config accounts.governance_config accounts.governance_config_is_signer
    check_pda env.rt env.id (proposal_seeds proposal_hash) proposal.bump accounts.proposal_pda
    check_pda env.rt env.id (operator_proposal_seeds proposal_hash) proposal.managed_bump
        accounts.operator_proposal_pda
    lamports ← close_to st.lamports accounts.operator_proposal_pda accounts.governance_config
    ok (record st {
      lamports = lamports;
      operator_proposals = erase st.operator_proposals accounts.operator_proposal_pda;
      events = operator_proposal_cancelled proposal_hash target call_data native_value ∷ st.events;
    })
