-- ===== src/Its/Hub.antt =====
-- Messages to the hub (programs/solana-axelar-its/src/gmp.rs and encoding.rs). The service is a client
-- of the gas service and of the gateway.
use axelar_amplifier_solana.Gateway.State
use axelar_amplifier_solana.Gateway.Config.{CallContractAccounts, call_contract}
use axelar_amplifier_solana.Gateway.Env.{Env, GResult}
use axelar_amplifier_solana.Gas
use axelar_amplifier_solana.Gas.{GasResult}
use axelar_amplifier_solana.Its.Flow.{ItsResult, serialization_error, ItsError}
use axelar_amplifier_solana.Its.Tokens.{TokenProgram, Tokens}
use axelar_amplifier_solana.Operators.{OperatorAccount}
use axelar_amplifier_solana.Its.Chains.{its_hub_chain_name}
use axelar_amplifier_solana.Its.State.{ItsEnv, ItsStore}
use axelar_amplifier_solana.Std.Runtime.{Slice}
use axelar_amplifier_solana.Std.Hashing.{keccak}
use axelar_amplifier_solana.Std.Lamports.{System}
use axelar_amplifier_solana.Std.Anchor.{is_address}
use axelar_amplifier_solana.Gateway.State.{call_contract_seeds}
use axelar_amplifier_solana.Prelude.{
  Bool, List, Map, Option, [], custom, err, false, if◌then◌else◌, not, ok, ok_or, panicked, require,
  some, true, ℕ, ◌++◌, ◌==◌, ◌>>=◌, ◌>>◌, ◌∷◌,
}

pub record InterchainTransfer : Type 0 where
  pub token_id : ℕ
  pub source_address : List ℕ
  pub destination_address : List ℕ
  pub amount : ℕ
  pub payload_data : Option (List ℕ)

pub record DeployInterchainToken : Type 0 where
  pub token_id : ℕ
  pub name : List ℕ
  pub symbol : List ℕ
  pub decimals : ℕ
  pub minter : Option (List ℕ)

pub record LinkToken : Type 0 where
  pub token_id : ℕ
  pub token_manager_type : ℕ
  pub source_token_address : List ℕ
  pub destination_token_address : List ℕ
  pub params : Option (List ℕ)

pub record RegisterTokenMetadata : Type 0 where
  pub decimals : ℕ
  pub token_address : List ℕ

-- `Message` of encoding.rs
pub data ItsMessage : Type 0 where
  interchain_transfer : InterchainTransfer → ItsMessage
  deploy_interchain_token : DeployInterchainToken → ItsMessage
  link_token : LinkToken → ItsMessage

pub data HubMessage : Type 0 where
  send_to_hub_message : (destination_chain : List ℕ) → ItsMessage → HubMessage
  receive_from_hub : (source_chain : List ℕ) → ItsMessage → HubMessage
  register_token_metadata : RegisterTokenMetadata → HubMessage

-- The service, the tokens, the gas service and the gateway.
pub record HubWorld : Type 0 where
  pub its : ItsStore
  pub tokens : Tokens
  pub gas : Gas.Store
  pub gateway : State.Store

-- What the service is run with: its own parameters, the token program with what it knows of token
-- accounts (the mint and the authority of each, and the address of an associated one), the gas service
-- and the gateway with theirs, `borsh::to_vec` of a message, and the bytes of a key.
pub record HubEnv : Type 0 where
  pub its_env : ItsEnv
  pub token_program : TokenProgram
  pub token_account : Map (ℕ × ℕ)
  pub associated_token_address : (authority mint : ℕ) → ℕ
  pub system : System
  pub gas_id : ℕ
  pub operators_id : ℕ
  pub operators : Map OperatorAccount
  pub gateway_env : Env
  pub to_vec : HubMessage → Option (List ℕ)
  pub to_bytes : ℕ → List ℕ

-- `GMPAccounts`, without the programs
pub record GmpAccounts : Type 0 where
  pub payer : ℕ
  pub payer_is_signer : Bool
  pub gateway_root_pda : ℕ
  pub call_contract_signing_pda : ℕ
  pub gas_treasury : ℕ

abbrev pub is_received : HubMessage → Bool
is_received (receive_from_hub source_chain message) = true
is_received (send_to_hub_message destination_chain message) = false
is_received (register_token_metadata metadata) = false

-- A call of another program that fails ends the transaction.
abbrev pub gas_called : GasResult Gas.Store → ItsResult Gas.Store
gas_called (ok st) = ok st
gas_called (err e) = err panicked

abbrev pub gateway_called : GResult State.Store → ItsResult State.Store
gateway_called (ok st) = ok st
gateway_called (err e) = err panicked

module _ (env : HubEnv) where
  -- `if gas_value > 0`
  abbrev pub pay_for_gas :
      Gas.Store
      → GmpAccounts
      → (its_hub_address : List ℕ) → (payload_hash gas_value : ℕ) → ItsResult Gas.Store
  pay_for_gas gas a its_hub_address payload_hash gas_value =
      let paid : ItsResult Gas.Store = gas_called (
        Gas.pay_gas env.its_env.rt env.system env.gas_id env.operators_id env.operators gas
          (record {
            sender = a.payer;
            sender_is_signer = a.payer_is_signer;
            treasury = a.gas_treasury;
          })
          its_hub_chain_name its_hub_address payload_hash gas_value a.payer) in
      if gas_value == 0 then ok gas else paid

  -- The signing PDA signs by `new_with_signer`.
  abbrev pub call_contract_accounts : GmpAccounts → ℕ → CallContractAccounts
  call_contract_accounts a bump = record {
    caller = env.its_env.id;
    caller_is_signer = false;
    signing_pda = some (
      a.call_contract_signing_pda,
      is_address
          (env.its_env.rt.create_program_address (call_contract_seeds ++ Slice.byte bump ∷ [])
            env.its_env.id)
          a.call_contract_signing_pda,
    );
    gateway_root_pda = a.gateway_root_pda;
  }

  unfoldable pub send_to_hub :
      HubWorld → GmpAccounts → (its_hub_address : List ℕ) → HubMessage → ℕ → ItsResult HubWorld
  send_to_hub w a its_hub_address message gas_value = do
    require (not (is_received message)) (custom ItsError.invalid_instruction_data)
    payload ← ok_or (env.to_vec message) (custom serialization_error)
    gas ← pay_for_gas w.gas a its_hub_address (keccak env.its_env.rt payload) gas_value
    let signing_pda = env.its_env.rt.find_program_address call_contract_seeds env.its_env.id
    require (signing_pda.0 == a.call_contract_signing_pda) (custom ItsError.invalid_account_data)
    gateway ← gateway_called (
        call_contract env.gateway_env w.gateway (call_contract_accounts a signing_pda.1)
          its_hub_chain_name its_hub_address payload signing_pda.1)
    ok (record w { gas = gas; gateway = gateway })

  unfoldable pub send_to_hub_wrap :
      HubWorld
      → GmpAccounts
      → (its_hub_address : List ℕ) → ItsMessage
      → (destination_chain : List ℕ) → ℕ
      → ItsResult HubWorld
  send_to_hub_wrap w a its_hub_address message destination_chain gas_value =
      send_to_hub w a its_hub_address (send_to_hub_message destination_chain message) gas_value
