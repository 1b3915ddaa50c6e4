-- ===== src/Its/Outbound.antt =====
-- Outgoing transfers
-- (programs/solana-axelar-its/src/instructions/interchain_token/interchain_transfer.rs).
pub mod Sent
use axelar_amplifier_solana.Its.Flow.{
  ItsResult, caller_not_user_account, inconsistent_source_id_and_pda_seeds, invalid_amount,
  invalid_destination_address, token_mint_token_manager_missmatch, untrusted_destination_chain,
  ItsError,
}
use axelar_amplifier_solana.Its.Hub.{
  interchain_transfer, send_to_hub_wrap, HubEnv, HubWorld, GmpAccounts, InterchainTransfer,
}
use axelar_amplifier_solana.Std.Runtime.{Runtime, Slice}
use axelar_amplifier_solana.Its.Tokens.{Tokens, take_token, TokenAccounts}
use axelar_amplifier_solana.Its.State.{
  ItsStore, interchain_transfer_sent, load_service, token_manager_seeds, TokenManager,
}
use axelar_amplifier_solana.Its.Chains.{InterchainTokenService, is_trusted_chain}
use axelar_amplifier_solana.Std.Hashing.{keccak}
use axelar_amplifier_solana.Std.Anchor.{check_pda, check_signer, load_account}
use axelar_amplifier_solana.Prelude.{
  Bool, List, Option, [], anchor, constraint_token, custom, err, length, map, none, not, ok,
  require, some, update, ℕ, ℤ, ◌&&◌, ◌==◌, ◌>>=◌, ◌>>◌, ◌∷◌,
}

-- `authority_owner` is the program that owns the authority's account.
pub record InterchainTransferAccounts : Type 0 where
  pub payer : ℕ
  pub payer_is_signer : Bool
  pub authority : ℕ
  pub authority_is_signer : Bool
  pub authority_owner : ℕ
  pub gateway_root_pda : ℕ
  pub call_contract_signing_pda : ℕ
  pub gas_treasury : ℕ
  pub its_root_pda : ℕ
  pub token_manager_pda : ℕ
  pub token_mint : ℕ
  pub authority_token_account : ℕ
  pub token_manager_ata : ℕ

-- The arguments of the instruction.
pub record TransferArguments : Type 0 where
  pub token_id : ℕ
  pub destination_chain : List ℕ
  pub destination_address : List ℕ
  pub amount : ℕ
  pub gas_value : ℕ
  pub caller_program_id : Option ℕ
  pub caller_pda_seeds : Option (List (List ℕ))
  pub payload_data : Option (List ℕ)

abbrev pub to_gmp_accounts : InterchainTransferAccounts → GmpAccounts
to_gmp_accounts a = record {
  payer = a.payer;
  payer_is_signer = a.payer_is_signer;
  gateway_root_pda = a.gateway_root_pda;
  call_contract_signing_pda = a.call_contract_signing_pda;
  gas_treasury = a.gas_treasury;
}

abbrev pub token_accounts : InterchainTransferAccounts → TokenAccounts
token_accounts a = record {
  token_manager_pda = a.token_manager_pda;
  token_mint = a.token_mint;
  user_account = a.authority_token_account;
  token_manager_ata = a.token_manager_ata;
  authority = record { key = a.authority; signs = a.authority_is_signer };
}

-- `data.filter(|d| !d.is_empty()).map(hash)`
abbrev pub data_hash_of : Runtime → Option (List ℕ) → Option ℕ
data_hash_of rt none = none
data_hash_of rt (some []) = none
data_hash_of rt (some (b ∷ bs)) = some (keccak rt (b ∷ bs))

module _ (env : HubEnv) (system_program : ℕ) where
  -- A token account with its mint and its authority.
  abbrev check_token_account : ℕ → ℕ → ℕ → ItsResult (Unit {0})
  check_token_account address mint authority = do
    (m, holder) ← load_account env.token_account address
    require (m == mint && holder == authority) (anchor constraint_token)

  -- The constraints on the accounts of the instruction; the results are the configuration and the
  -- token manager.
  unfoldable pub check_transfer_accounts :
      ItsStore
      → InterchainTransferAccounts
      → TransferArguments
      → ItsResult (InterchainTokenService × TokenManager)
  check_transfer_accounts st a args = do
    check_signer a.payer_is_signer
    check_signer a.authority_is_signer
    its ← load_service env.its_env st a.its_root_pda
    require (not its.paused) (custom ItsError.paused)
    require (is_trusted_chain its args.destination_chain) (custom untrusted_destination_chain)
    manager ← load_account st.managers a.token_manager_pda
    check_pda env.its_env.rt env.its_env.id (token_manager_seeds a.its_root_pda args.token_id)
        manager.bump a.token_manager_pda
    require (manager.token_address == a.token_mint) (custom token_mint_token_manager_missmatch)
    check_token_account a.authority_token_account a.token_mint a.authority
    check_token_account a.token_manager_ata a.token_mint a.token_manager_pda
    require (env.associated_token_address a.token_manager_pda a.token_mint == a.token_manager_ata)
        (anchor constraint_token)
    ok (its, manager)

  -- A program that calls names itself and the seeds of its PDA, which is the authority; otherwise the
  -- authority is a user's account.
  unfoldable pub source_of :
      InterchainTransferAccounts → Option ℕ → Option (List (List ℕ)) → ItsResult ℕ
  source_of a (some source_id) (some pda_seeds) = do
    require
        ((env.its_env.rt.find_program_address (map Slice.bytes pda_seeds) source_id).0
          == a.authority)
        (custom ItsError.invalid_account_data)
    ok source_id
  source_of a none none = do
    require (a.authority_owner == system_program) (custom caller_not_user_account)
    ok a.authority
  source_of a (some source_id) none = err (custom inconsistent_source_id_and_pda_seeds)
  source_of a none (some pda_seeds) = err (custom inconsistent_source_id_and_pda_seeds)

  abbrev pub transfer_message : TransferArguments → (source_address amount : ℕ) → InterchainTransfer
  transfer_message args source_address amount = record {
    token_id = args.token_id;
    source_address = env.to_bytes source_address;
    destination_address = args.destination_address;
    amount = amount;
    payload_data = args.payload_data;
  }

  -- The world once the tokens are taken: the amount, the tokens and the manager afterwards.
  abbrev pub taken_world :
      HubWorld
      → InterchainTransferAccounts
      → TransferArguments
      → (source_address : ℕ) → ℕ × Tokens × TokenManager
      → HubWorld
  taken_world w a args source_address (amount, tokens, manager) = record w {
    its = record (w.its) {
      managers = update w.its.managers a.token_manager_pda manager;
      events =
          interchain_transfer_sent args.token_id source_address a.authority_token_account
            args.destination_chain args.destination_address amount
            (data_hash_of env.its_env.rt args.payload_data)
          ∷ w.its.events;
    };
    tokens = tokens;
  }

  unfoldable pub process_outbound_transfer :
      ℤ
      → HubWorld
      → InterchainTransferAccounts
      → TransferArguments
      → InterchainTokenService
      → TokenManager
      → (source_address : ℕ) → ItsResult HubWorld
  process_outbound_transfer now w a args its manager source_address = do
    taken_tokens ← take_token env.token_program now manager w.tokens (token_accounts a) args.amount
    send_to_hub_wrap env (taken_world w a args source_address taken_tokens) (to_gmp_accounts a)
        its.its_hub_address
        (interchain_transfer (transfer_message args source_address taken_tokens.0))
        args.destination_chain args.gas_value

  unfoldable pub interchain_transfer_handler :
      ℤ → HubWorld → InterchainTransferAccounts → TransferArguments → ItsResult HubWorld
  interchain_transfer_handler now w a args = do
    (its, manager) ← check_transfer_accounts w.its a args
    require (not (args.amount == 0)) (custom invalid_amount)
    require (not (length args.destination_address == 0)) (custom invalid_destination_address)
    source_address ← source_of a args.caller_program_id args.caller_pda_seeds
    process_outbound_transfer now w a args its manager source_address
