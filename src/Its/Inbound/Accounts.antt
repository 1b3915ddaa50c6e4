-- ===== src/Its/Inbound/Accounts.antt =====
-- The accounts and the arguments of an incoming transfer, and the constraints on them
-- (`ExecuteInterchainTransfer` and `check_destination_authority` of
-- programs/solana-axelar-its/src/instructions/gmp/interchain_transfer.rs).
use axelar_amplifier_solana.Its.Tokens.{TokenAccounts, Tokens}
use axelar_amplifier_solana.Its.Flow.{
  ItsError, ItsResult, invalid_destination_address_account, invalid_destination_token_authority,
  token_mint_token_manager_missmatch,
}
use axelar_amplifier_solana.Its.Hub.{HubEnv}
use axelar_amplifier_solana.Its.State.{ItsStore, TokenManager, load_service, token_manager_seeds}
use axelar_amplifier_solana.Std.Runtime.{Slice}
use axelar_amplifier_solana.Std.Hashing.{codes}
use axelar_amplifier_solana.Std.Anchor.{is_address, check_pda, check_signer, load_account}
use axelar_amplifier_solana.Std.Types.{Message}
use axelar_amplifier_solana.Gateway.Env.{GatewayError, GResult}
use axelar_amplifier_solana.Gateway.Payload.{Abi, AxelarMessagePayload, Borsh, SolanaAccountRepr}
use axelar_amplifier_solana.Prelude.{
  Error, Result, ◌++◌, Bool, List, Option, [], anchor, any, constraint_seeds, constraint_token,
  custom, err, false, if◌then◌else◌, none, not, ok, panicked, program, require, some, true, ℕ, ◌&&◌,
  ◌==◌, ◌>>=◌, ◌>>◌, ◌∷◌,
}

-- `destination_owner` is the program that owns the destination.
pub record ExecuteInterchainTransferAccounts : Type 0 where
  pub payer_is_signer : Bool
  pub its_root_pda : ℕ
  pub its_root_is_signer : Bool
  pub destination : ℕ
  pub destination_owner : ℕ
  pub destination_token_authority : ℕ
  pub destination_ata : ℕ
  pub token_mint : ℕ
  pub token_manager_pda : ℕ
  pub token_manager_ata : ℕ
  pub interchain_transfer_execute : Option ℕ
  pub remaining_accounts : List SolanaAccountRepr

-- The arguments of the instruction.
pub record ReceivedArguments : Type 0 where
  pub message : Message
  pub source_chain : List ℕ
  pub source_address : List ℕ
  pub destination_address : ℕ
  pub token_id : ℕ
  pub amount : ℕ
  pub payload_data : List ℕ

pub record AxelarExecuteWithInterchainTokenPayload : Type 0 where
  pub command_id : ℕ
  pub source_chain : List ℕ
  pub source_address : List ℕ
  pub token_id : ℕ
  pub token_mint : ℕ
  pub amount : ℕ
  pub payload_data : List ℕ

-- The service and the tokens.
pub record InboundWorld : Type 0 where
  pub its : ItsStore
  pub tokens : Tokens

-- What else an incoming transfer is run with: the codecs of payloads, the loaders of programs
-- (`is_bpf_loader_owned`), and what a destination makes of the tokens when it is called with its
-- accounts. A destination cannot call the service, which is on the stack of calls.
pub record InboundEnv : Type 0 where
  pub hub : HubEnv
  pub bo : Borsh
  pub abi : Abi
  pub bpf_loaders : List ℕ
  pub invoke :
      (destination : ℕ)
      → AxelarExecuteWithInterchainTokenPayload
      → List SolanaAccountRepr
      → Tokens
      → Option Tokens

-- The token manager signs by its seeds.
abbrev pub given_accounts :
    InboundEnv → ExecuteInterchainTransferAccounts → TokenManager → TokenAccounts
given_accounts env a manager = record {
  token_manager_pda = a.token_manager_pda;
  token_mint = a.token_mint;
  user_account = a.destination_ata;
  token_manager_ata = a.token_manager_ata;
  authority = record {
    key = a.token_manager_pda;
    signs =
        is_address
          (env.hub.its_env.rt.create_program_address
            (token_manager_seeds a.its_root_pda manager.token_id ++ Slice.byte manager.bump ∷ [])
            env.hub.its_env.id)
          a.token_manager_pda;
  };
}

abbrev flag_eq : Bool → Bool → Bool
flag_eq true b = b
flag_eq false b = not b

abbrev pub account_eq : SolanaAccountRepr → SolanaAccountRepr → Bool
account_eq a b =
    a.pubkey == b.pubkey && (flag_eq a.is_signer b.is_signer && flag_eq a.is_writable b.is_writable)

-- `destination_accounts.eq(&remaining_metas)`
abbrev pub accounts_eq : List SolanaAccountRepr → List SolanaAccountRepr → Bool
accounts_eq [] [] = true
accounts_eq [] (b ∷ bs) = false
accounts_eq (a ∷ rest) [] = false
accounts_eq (a ∷ rest) (b ∷ bs) = account_eq a b && accounts_eq rest bs

-- What an incoming transfer fails with: an error of the service, or one of the decoder of the payload.
pub data InboundError : Type 0 where
  service_failed : ItsError → InboundError
  payload_failed : Error GatewayError → InboundError

abbrev pub InboundResult : Type 0 → Type 0
InboundResult = Result InboundError

abbrev pub of_service : {A : Type 0} → ItsResult A → InboundResult A
of_service (ok x) = ok x
of_service (err (custom e)) = err (custom (service_failed e))
of_service (err (anchor e)) = err (anchor e)
of_service (err (program e)) = err (program e)
of_service (err panicked) = err panicked

-- `AxelarMessagePayload::decode(data)?`
abbrev pub decoded : GResult AxelarMessagePayload → InboundResult AxelarMessagePayload
decoded (ok payload) = ok payload
decoded (err e) = err (custom (payload_failed e))

abbrev pub interchain_transfer_execute_seeds : ℕ → List Slice
interchain_transfer_execute_seeds destination =
    Slice.bytes (codes "interchain-transfer-execute") ∷ Slice.array destination ∷ []

module _ (env : InboundEnv) where
  -- Who has to own the account that is credited: the destination, or its PDA if it is a program.
  unfoldable pub expected_authority : (destination owner : ℕ) → ℕ
  expected_authority destination owner =
      if any (λ loader. owner == loader) env.bpf_loaders
      then (env.hub.its_env.rt.find_program_address
          (Slice.bytes (codes "axelar-its-token-authority") ∷ []) destination).0
      else destination

  unfoldable pub check_destination_authority :
      ExecuteInterchainTransferAccounts → ItsResult (Unit {0})
  check_destination_authority a =
      require
        (a.destination_token_authority == expected_authority a.destination a.destination_owner)
        (custom invalid_destination_token_authority)

  -- An associated token account, by its address, mint and authority.
  abbrev check_associated : ℕ × ℕ → (address authority mint : ℕ) → ItsResult (Unit {0})
  check_associated (m, holder) address authority mint = do
    require (m == mint && holder == authority) (anchor constraint_token)
    require (env.hub.associated_token_address authority mint == address) (anchor constraint_token)

  -- `init_if_needed`: an account that is not there is created at its associated address.
  abbrev init_associated : Option (ℕ × ℕ) → (address authority mint : ℕ) → ItsResult (Unit {0})
  init_associated none address authority mint =
      require (env.hub.associated_token_address authority mint == address) panicked
  init_associated (some held) address authority mint = check_associated held address authority mint

  abbrev check_execute_pda : Option ℕ → ℕ → ItsResult (Unit {0})
  check_execute_pda none destination = ok tt
  check_execute_pda (some address) destination =
      require
        ((env.hub.its_env.rt.find_program_address (interchain_transfer_execute_seeds destination)
            env.hub.its_env.id).0
          == address)
        (anchor constraint_seeds)

  -- The constraints on the accounts of the instruction; the result is the token manager.
  unfoldable pub check_inbound_accounts :
      ItsStore → ExecuteInterchainTransferAccounts → ReceivedArguments → ItsResult TokenManager
  check_inbound_accounts st a args = do
    check_signer a.payer_is_signer
    check_signer a.its_root_is_signer
    its ← load_service env.hub.its_env st a.its_root_pda
    require (not its.paused) (custom ItsError.paused)
    require (a.destination == args.destination_address) (custom invalid_destination_address_account)
    manager ← load_account st.managers a.token_manager_pda
    init_associated (env.hub.token_account a.destination_ata) a.destination_ata
        a.destination_token_authority a.token_mint
    check_pda env.hub.its_env.rt env.hub.its_env.id
        (token_manager_seeds a.its_root_pda args.token_id) manager.bump a.token_manager_pda
    require (manager.token_address == a.token_mint) (custom token_mint_token_manager_missmatch)
    held ← load_account env.hub.token_account a.token_manager_ata
    check_associated held a.token_manager_ata a.token_manager_pda a.token_mint
    check_execute_pda a.interchain_transfer_execute a.destination
    ok manager
