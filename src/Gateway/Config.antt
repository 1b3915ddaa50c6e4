-- ===== src/Gateway/Config.antt =====
-- `initialize_config`, `transfer_operatorship` and `call_contract`
-- (programs/solana-axelar-gateway/src/instructions).
pub mod Effect
use axelar_amplifier_solana.Std.U256.{U256, from_u64}
use axelar_amplifier_solana.Std.Runtime.{Slice}
use axelar_amplifier_solana.Std.Hashing.{keccak}
use axelar_amplifier_solana.Gateway.Env.{
  Env, GResult, invalid_operator_or_authority_account, invalid_signing_pda, invalid_timestamp,
  invalid_upgrade_authority,
}
use axelar_amplifier_solana.Gateway.State.{
  tracker_of, Chain, GatewayConfig, Store, VerifierSetTracker, call_contract_event, check_init,
  check_seeds, config_seeds, create_call_contract_pda, is_some_eq, load, operatorship_transferred,
  tracker_seeds,
}
use axelar_amplifier_solana.Prelude.{
  Bool, List, Option, [], account_already_in_use, account_not_initialized, anchor, constraint_seeds,
  account_not_signer, custom, err, if◌then◌else◌, invalid_instruction_data, none, not, ok, ok_or,
  program, require, some, u64_try_from, update, ℕ, ◌==◌, ◌>>=◌, ◌>>◌, ◌||◌, ◌∷◌,
}
use axelar_amplifier_solana.Gateway.Messages.{signing_pda_bump}

pub record InitializeConfigParams : Type 0 where
  pub domain_separator : ℕ
  pub initial_verifier_set_hash : ℕ
  pub minimum_rotation_delay : ℕ
  pub operator : ℕ
  pub previous_verifier_retention : U256

-- `upgrade_authority` is a signer.
pub record InitializeConfigAccounts : Type 0 where
  pub upgrade_authority : ℕ
  pub program_data : ℕ
  pub gateway_root_pda : ℕ
  pub verifier_set_tracker_pda : ℕ

-- `program_data`: the account at the loader's address for this program, and its upgrade authority.
abbrev load_program_data : Env → Chain → ℕ → GResult (Option ℕ)
load_program_data env chain program_data = do
  authority ← ok_or (chain.program_data program_data) (anchor account_not_initialized)
  require
      ((env.rt.find_program_address (Slice.array env.id ∷ []) env.bpf_loader_upgradeable).0
        == program_data)
      (anchor constraint_seeds)
  ok authority

abbrev pub initial_config : ℕ → ℕ → InitializeConfigParams → GatewayConfig
initial_config bump now params = record {
  current_epoch = from_u64 1;
  previous_verifier_set_retention = params.previous_verifier_retention;
  minimum_rotation_delay = params.minimum_rotation_delay;
  last_rotation_timestamp = now;
  operator = params.operator;
  domain_separator = params.domain_separator;
  bump = bump;
}

module _ (env : Env) (chain : Chain) where
  unfoldable pub initialize_config :
      Store → InitializeConfigAccounts → InitializeConfigParams → GResult Store
  unfolding check_init
  initialize_config st accounts params = do
    config_bump ← check_init env st config_seeds accounts.gateway_root_pda
    tracker_bump ←
        check_init env st (tracker_seeds params.initial_verifier_set_hash)
          accounts.verifier_set_tracker_pda
    authority ← load_program_data env chain accounts.program_data
    require (is_some_eq authority accounts.upgrade_authority) (custom invalid_upgrade_authority)
    -- One account cannot be created twice.
    require (not (accounts.gateway_root_pda == accounts.verifier_set_tracker_pda))
        (anchor account_already_in_use)
    now ← ok_or (u64_try_from chain.unix_timestamp) (custom invalid_timestamp)
    let config = initial_config config_bump now params
    let tracker = tracker_of tracker_bump (from_u64 1) params.initial_verifier_set_hash
    ok (record st {
      config = update st.config accounts.gateway_root_pda config;
      trackers = update st.trackers accounts.verifier_set_tracker_pda tracker;
    })

pub record TransferOperatorshipAccounts : Type 0 where
  pub gateway_root_pda : ℕ
  pub operator_or_upgrade_authority : ℕ
  pub program_data : ℕ
  pub new_operator : ℕ

module _ (env : Env) (chain : Chain) where
  unfoldable pub transfer_operatorship : Store → TransferOperatorshipAccounts → GResult Store
  unfolding check_seeds
  transfer_operatorship st accounts = do
    config ← load st.config accounts.gateway_root_pda
    check_seeds env config_seeds config.bump accounts.gateway_root_pda
    authority ← load_program_data env chain accounts.program_data
    let signer = accounts.operator_or_upgrade_authority
    require ((config.operator == signer) || is_some_eq authority signer)
        (custom invalid_operator_or_authority_account)
    require (not (accounts.new_operator == config.operator)) (program invalid_instruction_data)
    ok (record st {
      config =
          update st.config accounts.gateway_root_pda
            (record config { operator = accounts.new_operator });
      events = operatorship_transferred accounts.new_operator ∷ st.events;
    })

-- `signing_pda` is an optional signer; a signer whose flag is clear is refused by Anchor.
pub record CallContractAccounts : Type 0 where
  pub caller : ℕ
  pub caller_is_signer : Bool
  pub signing_pda : Option (ℕ × Bool)
  pub gateway_root_pda : ℕ

-- `Option<Signer>`
abbrev pub optional_signer : Option (ℕ × Bool) → GResult (Option ℕ)
optional_signer none = ok none
optional_signer (some (key, is_signer)) =
    if is_signer then ok (some key) else err (anchor account_not_signer)

-- The `if` of `call_contract_handler`: a direct signer passes, a program needs its signing PDA.
check_caller : Env → CallContractAccounts → Option ℕ → ℕ → GResult (Unit {0})
unfolding create_call_contract_pda
check_caller env accounts signing_pda signing_pda_bump =
    let as_program : GResult (Unit {0}) = (do
      expected ← create_call_contract_pda env signing_pda_bump accounts.caller
      pda ← ok_or signing_pda (custom invalid_signing_pda)
      require (pda == expected) (custom invalid_signing_pda)) in
    if accounts.caller_is_signer then ok tt else as_program

module _ (env : Env) where
  unfoldable pub call_contract :
      Store → CallContractAccounts → List ℕ → List ℕ → List ℕ → ℕ → GResult Store
  unfolding check_seeds check_caller
  call_contract st accounts destination_chain destination_contract_address payload
        signing_pda_bump =
      do
        signing_pda ← optional_signer accounts.signing_pda
        config ← load st.config accounts.gateway_root_pda
        check_seeds env config_seeds config.bump accounts.gateway_root_pda
        check_caller env accounts signing_pda signing_pda_bump
        let payload_hash = keccak env.rt payload
        ok (record st {
          events =
              call_contract_event accounts.caller payload_hash destination_chain
                destination_contract_address payload
              ∷ st.events;
        })
