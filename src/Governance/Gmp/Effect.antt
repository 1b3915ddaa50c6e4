-- ===== src/Governance/Gmp/Effect.antt =====
-- What a governance message has to be, and what it leaves behind
-- (programs/solana-axelar-governance/src/instructions/process_gmp.rs).
use axelar_amplifier_solana.Governance.{governance_seeds, GovEnv, GovernanceConfig, Store}
use axelar_amplifier_solana.Gateway.Executable.{validate_message_raw}
use axelar_amplifier_solana.Std.Runtime.{Slice}
use axelar_amplifier_solana.Std.Hashing.{keccak}
use axelar_amplifier_solana.Std.Types.{Message}
use axelar_amplifier_solana.Gateway.Env.{Env}
use axelar_amplifier_solana.Governance.Gmp.{
  is_signed_config, process, Decoders, GmpAccounts, GovernanceCommandPayload, World,
  calculate_gmp_context, dispatch, ensure_authorized_gmp_command, execute,
}
use axelar_amplifier_solana.Prelude.{List, [], arith, ok, some, update, ℕ, ℤ, ◌++◌, ◌∷◌, ◌≡◌}

module _ (env : GovEnv) (dec : Decoders) (gw : Env) where
  -- A command that was run on the proposal that the payload hashes to; the configuration signed.
  pub record Dispatched (now : ℤ) (st : Store) (a : GmpAccounts) (config : GovernanceConfig)
      (payload : List ℕ) (st' : Store) : Type 0 where
    pub context : GovernanceCommandPayload × ℕ
    pub decoded : calculate_gmp_context env dec payload ≡ ok context
    pub returned : Store
    pub dispatched :
        dispatch env dec context.0.command now st a
          (is_signed_config env dec config a.governance_config)
          context.1
          context.0
        ≡ ok returned
    pub configs_stored : st'.configs ≡ update returned.configs a.governance_config config
    pub proposals_stored : st'.proposals ≡ returned.proposals
    pub operator_proposals_stored : st'.operator_proposals ≡ returned.operator_proposals

  pub process_sound :
      (now : ℤ) (st : Store) (a : GmpAccounts) (config : GovernanceConfig) (payload : List ℕ)
      (st' : Store)
      → process env dec now st a config payload ≡ ok st'
      → Dispatched now st a config payload st'
  unfolding process
  process_sound now st a config payload st' h = ground arith

  -- The message comes from the address and the chain of the configuration, the gateway has had it
  -- executed, and the command of its payload has been run on the proposal that the payload hashes to.
  pub record Processed (now : ℤ) (w : World) (a : GmpAccounts) (message : Message)
      (payload : List ℕ) (w' : World) : Type 0 where
    pub config : GovernanceConfig
    pub config_at : w.governance.configs a.governance_config ≡ some config
    pub config_address :
        env.rt.create_program_address (governance_seeds ++ Slice.byte config.bump ∷ []) env.id
        ≡ some a.governance_config
    pub from_address : keccak env.rt message.source_address ≡ config.address_hash
    pub from_chain : keccak env.rt message.cc_id.chain ≡ config.chain_hash
    pub validated :
        validate_message_raw gw env.id w.gateway a.executable message payload ≡ ok (w'.gateway)
    pub processed : process env dec now w.governance a config payload ≡ ok (w'.governance)

  pub execute_sound :
      (now : ℤ) (w : World) (a : GmpAccounts) (message : Message) (payload : List ℕ) (w' : World)
      → execute env dec gw now w a message payload ≡ ok w'
      → Processed now w a message payload w'
  unfolding execute ensure_authorized_gmp_command
  execute_sound now w a message payload w' h = ground arith
