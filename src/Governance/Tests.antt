-- ===== src/Governance/Tests.antt =====
-- A run of the governance program and the gateway over concrete parameters.
pub mod Messages
use axelar_amplifier_solana.Governance.Lifecycle.Removal.{Removes}
use axelar_amplifier_solana.Gateway.Tests.{address_of}
use axelar_amplifier_solana.Governance.{
  invalid_native_value, ExecuteProposalData, GovResult, GovernanceConfigInit, calculate_hash,
  governance_seeds, hash_from_data, proposal_seeds, validate_config, GovEnv, Store,
}
use axelar_amplifier_solana.Governance.Config.{InitializeConfigAccounts, initialize_config}
use axelar_amplifier_solana.Governance.Lifecycle.{
  Step, executed_foreign, History, Reached, start, step, initialized, scheduled,
}
use axelar_amplifier_solana.Std.Runtime.{Slice}
use axelar_amplifier_solana.Std.Hashing.{keccak}
use axelar_amplifier_solana.Std.Instances.{plain_runtime}
use axelar_amplifier_solana.Std.Lamports.Instances.{plain_system}
use axelar_amplifier_solana.Governance.Proposals.{
  ScheduleAccounts, at_least_default_eta_delay, schedule_timelock_proposal,
}
use axelar_amplifier_solana.Governance.Execution.{
  ExecuteAccounts, checked_from_u256_le_bytes_to_u64, execute_proposal, execute_proposal_cpi,
}
use axelar_amplifier_solana.Governance.Lifecycle.Timely.{Since}
use axelar_amplifier_solana.Governance.Lifecycle.Delay.{Reached-Timely, execute_proposal-Since}
use axelar_amplifier_solana.Prelude.{
  custom, if◌then◌else◌, length, ltb, to_le_bytes, to_le_bytes-AreBytes, ◌^◌, Map, Option, [], err,
  from_le_bytes, none, ok, pos, refl, some, true, u64_try_from, ℕ, ◌∷◌, ◌≡◌,
}
use axelar_amplifier_solana.Governance.Execution.Value.{checked_from_u256_le_bytes_to_u64_lem}
use axelar_amplifier_solana.Governance.Execution.Ready.{execute_proposal_keeps_config}
use axelar_amplifier_solana.Governance.Lifecycle.Machine.{Move, Step-Moves}

-- A call of a target changes nothing.
abbrev pub gov : GovEnv
gov = record {
  rt = plain_runtime;
  system = plain_system;
  id = 1;
  bpf_loader_upgradeable = 2;
  invoke = λ st call. some st;
  accounts_ser = λ accounts. [];
  receiver_ser = λ receiver. [];
}

abbrev pub program_data : Map (Option ℕ)
program_data address = some (some 9)

abbrev pub empty : Store
empty = record {
  lamports = λ a. 1000000;
  configs = λ a. none;
  proposals = λ a. none;
  operator_proposals = λ a. none;
  events = [];
}

abbrev pub config_pda : ℕ
config_pda = address_of governance_seeds

abbrev pub params : GovernanceConfigInit
params = record {
  chain_hash = keccak plain_runtime (1 ∷ []);
  address_hash = keccak plain_runtime [];
  minimum_proposal_eta_delay = 3600;
  operator = 8;
}

abbrev pub initialize_accounts : InitializeConfigAccounts
initialize_accounts = record {
  payer = 3;
  payer_is_signer = true;
  upgrade_authority = 9;
  upgrade_authority_is_signer = true;
  program_data = address_of (Slice.array 1 ∷ []);
  governance_config = config_pda;
}

abbrev pub result : GovResult Store → Store
result (ok st) = st
result (err e) = empty

abbrev pub st1 : Store
st1 = result (initialize_config gov program_data empty initialize_accounts params)

-- The proposal calls the program 7 with nothing.
abbrev pub proposal : ExecuteProposalData
proposal = record {
  target_address = 7;
  call_data = record {
    solana_accounts = record { pubkey = config_pda; is_signer = true; is_writable = true } ∷ [];
    solana_native_value_receiver_account = none;
    call_data = [];
  };
  native_value = 0 ∷ [];
}

abbrev pub proposal_hash : ℕ
proposal_hash = hash_from_data gov proposal

abbrev pub schedule : ScheduleAccounts
schedule = record {
  governance_config = config_pda;
  governance_config_is_signer = true;
  payer = 3;
  payer_is_signer = true;
  proposal_pda = address_of (proposal_seeds proposal_hash);
}

abbrev pub st2 : Store
st2 = result (schedule_timelock_proposal gov (pos 1000) st1 schedule proposal_hash 0 [] [] [])

abbrev pub execute_accounts : ExecuteAccounts
execute_accounts = record { governance_config = config_pda; proposal_pda = schedule.proposal_pda }

abbrev pub st3 : Store
st3 = result (execute_proposal gov (pos 4600) st2 execute_accounts (7 ∷ config_pda ∷ []) proposal)

pub step_1 : initialize_config gov program_data empty initialize_accounts params ≡ ok st1
unfolding initialize_config validate_config
step_1 = refl

pub step_2 :
    schedule_timelock_proposal gov (pos 1000) st1 schedule proposal_hash 0 [] [] [] ≡ ok st2
unfolding initialize_config validate_config schedule_timelock_proposal at_least_default_eta_delay
    calculate_hash
step_2 = refl

pub step_3 :
    execute_proposal gov (pos 4600) st2 execute_accounts (7 ∷ config_pda ∷ []) proposal ≡ ok st3
unfolding initialize_config validate_config schedule_timelock_proposal at_least_default_eta_delay
    calculate_hash execute_proposal execute_proposal_cpi checked_from_u256_le_bytes_to_u64
    from_le_bytes
step_3 = refl

pub reached_1 : Reached gov program_data [] st1
reached_1 =
    step (pos 0) [] [] empty st1 (start empty (λ a. refl) (λ a. refl))
      (initialized [] empty initialize_accounts params st1 step_1)

abbrev pub past : History
past = (1000, schedule.proposal_pda) ∷ []

pub reached_2 : Reached gov program_data past st2
reached_2 =
    step (pos 1000) [] past st1 st2 reached_1
      (scheduled [] st1 schedule proposal_hash 0 [] [] [] st2 step_2)

called_3 : execute_proposal_cpi gov st2 proposal (7 ∷ config_pda ∷ []) config_pda ≡ ok st2
unfolding execute_proposal_cpi checked_from_u256_le_bytes_to_u64 from_le_bytes
called_3 = refl

length_32 : length (to_le_bytes 32 700) ≡ 32
unfolding to_le_bytes
length_32 = refl

execute_proposal-Since_example :
    (timestamp : ℕ) × (u64_try_from (pos 4600) ≡ some timestamp)
    × Since schedule.proposal_pda timestamp past
execute_proposal-Since_example =
    execute_proposal-Since gov program_data (pos 4600) past st2 execute_accounts
      (7 ∷ config_pda ∷ []) proposal st3 reached_2 step_3

executed_3 : Step gov program_data (pos 4600) past st2 past st3
executed_3 =
    executed_foreign past st2 execute_accounts (7 ∷ config_pda ∷ []) proposal st2 st3 step_3
      called_3
      (record { configs_kept = refl; proposals_kept = refl; operator_proposals_kept = refl })

Step-Moves_example :
    Move
      (pos 4600)
      (Removes gov program_data (pos 4600) executed_3 schedule.proposal_pda)
      (st2.proposals schedule.proposal_pda)
      (st3.proposals schedule.proposal_pda)
Step-Moves_example =
    Step-Moves gov program_data schedule.proposal_pda (pos 4600) past past st2 st3 executed_3
      (Reached-Timely gov program_data past st2 reached_2)

execute_proposal_keeps_config_example : st3.configs config_pda ≡ st2.configs config_pda
execute_proposal_keeps_config_example =
    execute_proposal_keeps_config gov (pos 4600) st2 execute_accounts (7 ∷ config_pda ∷ []) proposal
      st3 step_3

checked_from_u256_le_bytes_to_u64_lem_example :
    checked_from_u256_le_bytes_to_u64 (to_le_bytes 32 700) ≡ (
      if ltb (from_le_bytes (to_le_bytes 32 700)) (2 ^ 64)
      then ok (from_le_bytes (to_le_bytes 32 700))
      else err (custom invalid_native_value))
checked_from_u256_le_bytes_to_u64_lem_example =
    checked_from_u256_le_bytes_to_u64_lem (to_le_bytes 32 700) (to_le_bytes-AreBytes 32 700)
      length_32
