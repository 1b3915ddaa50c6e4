-- ===== src/Gateway/Config/Effect.antt =====
-- When the instructions of `Config` succeed, and what they then change (initialize_config.rs,
-- transfer_operatorship.rs and call_contract.rs).
use axelar_amplifier_solana.Std.Runtime.{Slice}
use axelar_amplifier_solana.Std.U256.{from_u64}
use axelar_amplifier_solana.Std.Hashing.{keccak}
use axelar_amplifier_solana.Gateway.Env.{Env}
use axelar_amplifier_solana.Gateway.Config.{
  CallContractAccounts, InitializeConfigAccounts, InitializeConfigParams,
  TransferOperatorshipAccounts, call_contract, initial_config, initialize_config,
  transfer_operatorship,
}
use axelar_amplifier_solana.Gateway.State.{
  Chain, GatewayConfig, Store, call_contract_event, call_contract_seeds, config_seeds, is_free,
  tracker_of, tracker_seeds,
}
use axelar_amplifier_solana.Prelude.{
  List, [], arith, ok, some, true, u64_try_from, update, ℕ, ◌++◌, ◌∷◌, ◌≡◌, ◌⊎◌,
}

module _ (env : Env) (chain : Chain) where
  open env use {rt, id}

  pub record Initialization (st : Store) (accounts : InitializeConfigAccounts)
      (params : InitializeConfigParams) (st' : Store) : Type 0 where
    pub now : ℕ
    pub config_free : is_free st accounts.gateway_root_pda ≡ true
    pub tracker_free : is_free st accounts.verifier_set_tracker_pda ≡ true
    pub config_found : (rt.find_program_address config_seeds id).0 ≡ accounts.gateway_root_pda
    pub tracker_found :
        (rt.find_program_address (tracker_seeds params.initial_verifier_set_hash) id).0
        ≡ accounts.verifier_set_tracker_pda
    pub authority_signed :
        chain.program_data accounts.program_data ≡ some (some accounts.upgrade_authority)
    pub clock : u64_try_from chain.unix_timestamp ≡ some now
    pub config_stored :
        st'.config
        ≡ update st.config accounts.gateway_root_pda
            (initial_config (rt.find_program_address config_seeds id).1 now params)
    pub tracker_stored :
        st'.trackers
        ≡ update st.trackers accounts.verifier_set_tracker_pda (
            tracker_of
              (rt.find_program_address (tracker_seeds params.initial_verifier_set_hash) id).1
              (from_u64 1)
              params.initial_verifier_set_hash)
    pub sessions_same : st'.sessions ≡ st.sessions
    pub messages_same : st'.messages ≡ st.messages

  pub initialize_config_sound :
      (st : Store) (accounts : InitializeConfigAccounts) (params : InitializeConfigParams)
      (st' : Store)
      → initialize_config env chain st accounts params ≡ ok st'
      → Initialization st accounts params st'
  unfolding initialize_config
  initialize_config_sound st accounts params st' h = ground arith

  pub record Transfer (st : Store) (accounts : TransferOperatorshipAccounts) (st' : Store)
      : Type 0 where
    pub config : GatewayConfig
    pub config_at : st.config accounts.gateway_root_pda ≡ some config
    pub authorised :
        (config.operator ≡ accounts.operator_or_upgrade_authority)
        ⊎ (chain.program_data accounts.program_data
            ≡ some (some accounts.operator_or_upgrade_authority))
    pub config_stored :
        st'.config
        ≡ update st.config accounts.gateway_root_pda
            (record config { operator = accounts.new_operator })
    pub trackers_same : st'.trackers ≡ st.trackers
    pub sessions_same : st'.sessions ≡ st.sessions
    pub messages_same : st'.messages ≡ st.messages

  -- A transfer of the operatorship that succeeds is authorised by the operator or the upgrade
  -- authority, and changes nothing but the operator of the configuration.
  pub transfer_operatorship_sound :
      (st : Store) (accounts : TransferOperatorshipAccounts) (st' : Store)
      → transfer_operatorship env chain st accounts ≡ ok st'
      → Transfer st accounts st'
  unfolding transfer_operatorship
  transfer_operatorship_sound st accounts st' h = ground arith

-- A call changes no account: it logs one event, with the hash of the payload.
pub record Call (env : Env) (st : Store) (accounts : CallContractAccounts)
    (destination_chain address payload : List ℕ) (bump : ℕ) (st' : Store) : Type 0 where
  pub authorised :
      (accounts.caller_is_signer ≡ true)
      ⊎ ((pda : ℕ) × (accounts.signing_pda ≡ some (pda, true))
          × (env.rt.create_program_address
                (call_contract_seeds ++ Slice.byte bump ∷ [])
                accounts.caller
              ≡ some pda))
  pub unchanged : st' ≡ record st {
    events =
        call_contract_event accounts.caller
          (keccak env.rt payload)
          destination_chain
          address
          payload
        ∷ st.events;
  }

-- A call that succeeds is authorised: its caller signs, or the PDA of the calling program does. It
-- changes no account and logs one event with the hash of the payload.
pub call_contract_sound :
    (env : Env) (st : Store) (accounts : CallContractAccounts)
    (destination_chain address payload : List ℕ) (bump : ℕ) (st' : Store)
    → call_contract env st accounts destination_chain address payload bump ≡ ok st'
    → Call env st accounts destination_chain address payload bump st'
unfolding call_contract
call_contract_sound env st accounts destination_chain address payload bump st' h = ground arith
