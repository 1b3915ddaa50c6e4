-- ===== src/Its/Admin.antt =====
-- The instructions on the configuration of the interchain token service: initialize.rs,
-- set_pause_status.rs, set_trusted_chain.rs, and remove_trusted_chain.rs of
-- programs/solana-axelar-its/src/instructions/config.
pub mod Effect
use axelar_amplifier_solana.Std.Runtime.{Slice}
use axelar_amplifier_solana.Its.Flow.{
  ItsResult, missing_operator_role, trusted_chain_already_set, trusted_chain_not_set, ItsError,
}
use axelar_amplifier_solana.Its.Chains
use axelar_amplifier_solana.Its.Chains.{add_trusted_chain, is_trusted_chain, new_service}
use axelar_amplifier_solana.Its.State.{
  ItsEnv, ItsStore, is_free_account, its_seeds, load_roles, load_service, roles_bump,
  trusted_chain_removed, trusted_chain_set, user_roles_seeds,
}
use axelar_amplifier_solana.Its.Roles.{UserRoles, operator_role}
use axelar_amplifier_solana.Std.Anchor.{check_signer, init_pda, is_address, load_account}
use axelar_amplifier_solana.Prelude.{
  if◌then◌else◌, Bool, List, Option, [], anchor, constraint_seeds, custom, is_none, none, not, ok,
  require, some, update, ℕ, ◌&&◌, ◌==◌, ◌>>=◌, ◌>>◌, ◌∷◌,
}

pub record InitializeAccounts : Type 0 where
  pub payer : ℕ
  pub payer_is_signer : Bool
  pub program_data : ℕ
  pub its_root_pda : ℕ
  pub operator : ℕ
  pub operator_is_signer : Bool
  pub user_roles_account : ℕ

pub record SetPauseStatusAccounts : Type 0 where
  pub payer : ℕ
  pub payer_is_signer : Bool
  pub program_data : ℕ
  pub its_root_pda : ℕ

-- `SetTrustedChain` and `RemoveTrustedChain`
pub record TrustedChainAccounts : Type 0 where
  pub payer : ℕ
  pub payer_is_signer : Bool
  pub user_roles : Option ℕ
  pub program_data : Option ℕ
  pub its_root_pda : ℕ

module _ (env : ItsEnv) where
  -- The payer is the upgrade authority of the program.
  abbrev pub check_upgrade_authority : ℕ → ℕ → ItsResult (Unit {0})
  check_upgrade_authority address payer = do
    authority ← load_account env.program_data address
    require
        ((env.rt.find_program_address (Slice.array env.id ∷ []) env.bpf_loader_upgradeable).0
          == address)
        (anchor constraint_seeds)
    require (is_address authority payer) (custom ItsError.invalid_account_data)

  unfoldable pub initialize : ItsStore → InitializeAccounts → List ℕ → List ℕ → ItsResult ItsStore
  initialize st a chain_name its_hub_address = do
    check_signer a.payer_is_signer
    check_signer a.operator_is_signer
    check_upgrade_authority a.program_data a.payer
    bump ← init_pda env.rt env.id (is_free_account st a.its_root_pda) its_seeds a.its_root_pda
    roles_bump ←
        init_pda env.rt env.id
          (is_free_account st a.user_roles_account && not (a.user_roles_account == a.its_root_pda))
          (user_roles_seeds a.its_root_pda a.operator) a.user_roles_account
    let roles : UserRoles = record { roles = operator_role; bump = roles_bump }
    ok (record st {
      services = update st.services a.its_root_pda (new_service bump chain_name its_hub_address);
      user_roles = update st.user_roles a.user_roles_account roles;
    })

  unfoldable pub set_pause_status : ItsStore → SetPauseStatusAccounts → Bool → ItsResult ItsStore
  set_pause_status st a status = do
    check_signer a.payer_is_signer
    its ← load_service env st a.its_root_pda
    check_upgrade_authority a.program_data a.payer
    require (if status then not its.paused else its.paused) (custom ItsError.invalid_argument)
    ok (record st { services = update st.services a.its_root_pda (record its { paused = status }) })

  -- An account that is given has to be right.
  abbrev optional : Option ℕ → (ℕ → ItsResult (Unit {0})) → ItsResult (Unit {0})
  optional none check = ok tt
  optional (some address) check = check address

  abbrev check_operator_roles : ItsStore → ℕ → ℕ → ℕ → ItsResult (Unit {0})
  check_operator_roles st its_root_pda payer address = do
    load_roles env st address its_root_pda payer operator_role missing_operator_role
    ok tt

  -- The constraints on the payer of `SetTrustedChain` and `RemoveTrustedChain`.
  unfoldable pub check_chain_authority : ItsStore → TrustedChainAccounts → ItsResult (Unit {0})
  check_chain_authority st a = do
    check_signer a.payer_is_signer
    require (not (is_none a.user_roles && is_none a.program_data))
        (custom ItsError.missing_required_signature)
    optional a.user_roles (λ address. check_operator_roles st a.its_root_pda a.payer address)
    optional a.program_data (λ address. check_upgrade_authority address a.payer)

  unfoldable pub set_trusted_chain : ItsStore → TrustedChainAccounts → List ℕ → ItsResult ItsStore
  set_trusted_chain st a chain_name = do
    its ← load_service env st a.its_root_pda
    check_chain_authority st a
    require (not (is_trusted_chain its chain_name)) (custom trusted_chain_already_set)
    ok (record st {
      services = update st.services a.its_root_pda (add_trusted_chain its chain_name);
      events = trusted_chain_set chain_name ∷ st.events;
    })

  unfoldable pub remove_trusted_chain :
      ItsStore → TrustedChainAccounts → List ℕ → ItsResult ItsStore
  remove_trusted_chain st a chain_name = do
    its ← load_service env st a.its_root_pda
    check_chain_authority st a
    require (is_trusted_chain its chain_name) (custom trusted_chain_not_set)
    ok (record st {
      services = update st.services a.its_root_pda (Chains.remove_trusted_chain its chain_name);
      events = trusted_chain_removed chain_name ∷ st.events;
    })
