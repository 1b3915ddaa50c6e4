-- ===== src/Governance.antt =====
-- The program `solana-axelar-governance` (programs/solana-axelar-governance/src): its accounts, its
-- configuration (state/governance_config.rs), its proposals (state/proposal.rs) and events.
pub mod Config
pub mod Proposals
pub mod Execution
pub mod Gmp
pub mod Lifecycle
mod Tests
use axelar_amplifier_solana.Std.Runtime.{Runtime, Slice}
use axelar_amplifier_solana.Std.Hashing.{codes}
use axelar_amplifier_solana.Std.U128.{new}
use axelar_amplifier_solana.Std.Anchor.{u64_checked_add, u64_checked_sub}
use axelar_amplifier_solana.Prelude.{
  Bool, List, Map, Option, Result, [], custom, insufficient_funds, is_none, leb, ltb, none, not, ok,
  ok_or, panicked, program, require, some, ℕ, ◌&&◌, ◌>>=◌, ◌>>◌, ◌∷◌,
}
use axelar_amplifier_solana.Std.Lamports.{Balances, System, with_balance}

-- errors.rs
pub data GovernanceError : Type 0 where
  invalid_upgrade_authority : GovernanceError
  invalid_argument : GovernanceError
  not_operator : GovernanceError
  arithmetic_overflow : GovernanceError
  unauthorized_chain : GovernanceError
  unauthorized_address : GovernanceError
  invalid_instruction_data : GovernanceError
  proposal_not_ready : GovernanceError
  invalid_target_program : GovernanceError
  target_account_not_found : GovernanceError
  missing_native_value_receiver : GovernanceError
  invalid_native_value : GovernanceError
  unauthorized_operator : GovernanceError
  missing_required_signature : GovernanceError
  governance_config_missing : GovernanceError

abbrev pub GovResult : Type 0 → Type 0
GovResult = Result GovernanceError

pub record GovernanceConfig : Type 0 where
  pub bump : ℕ
  pub chain_hash : ℕ
  pub address_hash : ℕ
  pub minimum_proposal_eta_delay : ℕ
  pub operator : ℕ

pub record GovernanceConfigInit : Type 0 where
  pub chain_hash : ℕ
  pub address_hash : ℕ
  pub minimum_proposal_eta_delay : ℕ
  pub operator : ℕ

pub record GovernanceConfigUpdate : Type 0 where
  pub chain_hash : Option ℕ
  pub address_hash : Option ℕ
  pub minimum_proposal_eta_delay : Option ℕ

pub record ExecutableProposal : Type 0 where
  pub eta : ℕ
  pub bump : ℕ
  pub managed_bump : ℕ

-- `OperatorProposal {}`
pub data OperatorProposal : Type 0 where
  operator_proposal : OperatorProposal

pub record SolanaAccountMetadata : Type 0 where
  pub pubkey : ℕ
  pub is_signer : Bool
  pub is_writable : Bool

pub record ExecuteProposalCallData : Type 0 where
  pub solana_accounts : List SolanaAccountMetadata
  pub solana_native_value_receiver_account : Option SolanaAccountMetadata
  pub call_data : List ℕ

-- `native_value` is the 32 bytes of a number, the lowest one first.
pub record ExecuteProposalData : Type 0 where
  pub target_address : ℕ
  pub call_data : ExecuteProposalCallData
  pub native_value : List ℕ

-- events.rs; the fields are the hash, the target, the call data, the native value and the eta.
pub data GovernanceEvent : Type 0 where
  proposal_scheduled : ℕ → List ℕ → List ℕ → List ℕ → ℕ → GovernanceEvent
  operator_proposal_approved : ℕ → List ℕ → List ℕ → List ℕ → GovernanceEvent
  operator_proposal_cancelled : ℕ → List ℕ → List ℕ → List ℕ → GovernanceEvent
  proposal_cancelled : ℕ → List ℕ → List ℕ → List ℕ → ℕ → GovernanceEvent
  proposal_executed : ℕ → ℕ → List ℕ → List ℕ → ℕ → GovernanceEvent
  operator_proposal_executed : ℕ → ℕ → List ℕ → List ℕ → GovernanceEvent
  operatorship_transferred : (old_operator new_operator : ℕ) → GovernanceEvent

-- The balances, the accounts that the program owns, and the events so far, the last one first.
pub record Store : Type 0 where
  pub lamports : Balances
  pub configs : Map GovernanceConfig
  pub proposals : Map ExecutableProposal
  pub operator_proposals : Map OperatorProposal
  pub events : List GovernanceEvent

-- A call of the target of a proposal, which the configuration signs.
pub record Invocation : Type 0 where
  pub program_id : ℕ
  pub accounts : List SolanaAccountMetadata
  pub call_data : List ℕ

-- What the program is run with. `invoke` is what a target makes of the store, if it succeeds;
-- `accounts_ser` and `receiver_ser` are the serializations that the hash of a proposal is made of.
pub record GovEnv : Type 0 where
  pub rt : Runtime
  pub system : System
  pub id : ℕ
  pub bpf_loader_upgradeable : ℕ
  pub invoke : Store → Invocation → Option Store
  pub accounts_ser : List SolanaAccountMetadata → List ℕ
  pub receiver_ser : Option SolanaAccountMetadata → List ℕ

abbrev pub governance_seeds : List Slice
governance_seeds = Slice.bytes (codes "governance") ∷ []

abbrev pub proposal_seeds : ℕ → List Slice
proposal_seeds proposal_hash = Slice.bytes (codes "proposal") ∷ Slice.array proposal_hash ∷ []

abbrev pub operator_proposal_seeds : ℕ → List Slice
operator_proposal_seeds proposal_hash =
    Slice.bytes (codes "operator-managed-proposal") ∷ Slice.array proposal_hash ∷ []

abbrev pub is_free : Store → ℕ → Bool
is_free st address =
    is_none (st.configs address)
    && (is_none (st.proposals address) && is_none (st.operator_proposals address))

-- `ExecutableProposal::calculate_hash`
unfoldable pub calculate_hash : GovEnv → ℕ → ExecuteProposalCallData → List ℕ → ℕ
calculate_hash env target call native_value = env.rt.hashv (
    Slice.array target
    ∷ Slice.bytes (env.accounts_ser call.solana_accounts)
    ∷ Slice.bytes (env.receiver_ser call.solana_native_value_receiver_account)
    ∷ Slice.bytes call.call_data
    ∷ Slice.bytes native_value
    ∷ [])

-- `ExecutableProposal::hash_from_data`
abbrev pub hash_from_data : GovEnv → ExecuteProposalData → ℕ
hash_from_data env p = calculate_hash env p.target_address p.call_data p.native_value

-- `VALID_PROPOSAL_DELAY_RANGE`
abbrev pub is_valid_delay : ℕ → Bool
is_valid_delay delay = leb 3600 delay && leb delay 86400

unfoldable pub validate_config : GovernanceConfig → GovResult (Unit {0})
validate_config config =
    require (is_valid_delay config.minimum_proposal_eta_delay) (custom invalid_argument)

abbrev pub or_else : Option ℕ → ℕ → ℕ
or_else none old = old
or_else (some new) old = new

-- `GovernanceConfig::update`
unfoldable pub update_fields :
    GovernanceConfig → GovernanceConfigUpdate → GovResult GovernanceConfig
update_fields config changes = do
  let config' : GovernanceConfig = record config {
    chain_hash = or_else changes.chain_hash config.chain_hash;
    address_hash = or_else changes.address_hash config.address_hash;
    minimum_proposal_eta_delay =
        or_else changes.minimum_proposal_eta_delay config.minimum_proposal_eta_delay;
  }
  validate_config config'
  ok config'

-- `#[account(close = …)]`: the lamports of the account go to the configuration.
abbrev pub close_to : Balances → ℕ → ℕ → GovResult Balances
close_to balances account to = do
  sum ← ok_or (u64_checked_add (balances to) (balances account)) panicked
  ok (with_balance (with_balance balances to sum) account 0)
