-- ===== src/Its/State.antt =====
-- The accounts of the interchain token service, and the checks that its instructions share
-- (programs/solana-axelar-its/src/state and events.rs).
use axelar_amplifier_solana.Its.Flow.{FlowState, ItsError, ItsResult, new_flow_state}
use axelar_amplifier_solana.Its.Chains.{InterchainTokenService}
use axelar_amplifier_solana.Its.Roles.{UserRoles, contains, has_roles}
use axelar_amplifier_solana.Std.Runtime.{Runtime, Slice}
use axelar_amplifier_solana.Std.Hashing.{codes}
use axelar_amplifier_solana.Std.Anchor.{check_pda, load_account}
use axelar_amplifier_solana.Prelude.{
  Bool, List, Map, Option, [], anchor, constraint_seeds, custom, erase, if◌then◌else◌, is_none,
  none, ok, require, update, ℕ, ◌&&◌, ◌==◌, ◌>>=◌, ◌>>◌, ◌∷◌,
}

-- `Type` of token_manager.rs
pub data TokenManagerType : Type 0 where
  native_interchain_token : TokenManagerType
  mint_burn_from : TokenManagerType
  lock_unlock : TokenManagerType
  lock_unlock_fee : TokenManagerType
  mint_burn : TokenManagerType

pub record TokenManager : Type 0 where
  pub ty : TokenManagerType
  pub token_id : ℕ
  pub token_address : ℕ
  pub associated_token_account : ℕ
  pub flow_slot : FlowState
  pub bump : ℕ

-- `TokenManager::init_account`
abbrev pub init_account : TokenManagerType → ℕ → ℕ → ℕ → ℕ → TokenManager
init_account ty token_id token_address associated_token_account bump = record {
  ty = ty;
  token_id = token_id;
  token_address = token_address;
  associated_token_account = associated_token_account;
  flow_slot = new_flow_state none 0;
  bump = bump;
}

pub data ItsEvent : Type 0 where
  trusted_chain_set : List ℕ → ItsEvent
  trusted_chain_removed : List ℕ → ItsEvent
  flow_limit_set : (token_id operator : ℕ) → Option ℕ → ItsEvent
  interchain_transfer_sent :
      (token_id source_address source_token_account : ℕ)
      (destination_chain destination_address : List ℕ) (amount : ℕ) (data_hash : Option ℕ)
      → ItsEvent
  interchain_transfer_received :
      (command_id token_id : ℕ) (source_chain source_address : List ℕ)
      (destination_address destination_token_account amount : ℕ) (data_hash : Option ℕ)
      → ItsEvent

-- The accounts that the program owns, and the events so far, the last one first.
pub record ItsStore : Type 0 where
  pub services : Map InterchainTokenService
  pub managers : Map TokenManager
  pub user_roles : Map UserRoles
  pub events : List ItsEvent

-- What the program is run with; `program_data` holds the upgrade authority of each program data
-- account.
pub record ItsEnv : Type 0 where
  pub rt : Runtime
  pub id : ℕ
  pub bpf_loader_upgradeable : ℕ
  pub program_data : Map (Option ℕ)

abbrev pub its_seeds : List Slice
its_seeds = Slice.bytes (codes "interchain-token-service") ∷ []

abbrev pub token_manager_seeds : ℕ → ℕ → List Slice
token_manager_seeds its_root_pda token_id =
    Slice.bytes (codes "token-manager") ∷ Slice.array its_root_pda ∷ Slice.array token_id ∷ []

abbrev pub user_roles_seeds : ℕ → ℕ → List Slice
user_roles_seeds resource user =
    Slice.bytes (codes "user-roles") ∷ Slice.array resource ∷ Slice.array user ∷ []

abbrev pub is_free_account : ItsStore → ℕ → Bool
is_free_account st a =
    is_none (st.services a) && (is_none (st.managers a) && is_none (st.user_roles a))

module _ (env : ItsEnv) where
  unfoldable pub load_service : ItsStore → ℕ → ItsResult InterchainTokenService
  load_service st its_root_pda = do
    its ← load_account st.services its_root_pda
    check_pda env.rt env.id its_seeds its.bump its_root_pda
    ok its

  unfoldable pub load_manager : ItsStore → ℕ → ℕ → ItsResult TokenManager
  load_manager st its_root_pda address = do
    manager ← load_account st.managers address
    check_pda env.rt env.id (token_manager_seeds its_root_pda manager.token_id) manager.bump address
    ok manager

  -- The roles of a user on a resource, of which one is required.
  unfoldable pub load_roles : ItsStore → ℕ → ℕ → ℕ → ℕ → ItsError → ItsResult UserRoles
  load_roles st address resource user role missing = do
    r ← load_account st.user_roles address
    check_pda env.rt env.id (user_roles_seeds resource user) r.bump address
    require (contains r role) (custom missing)
    ok r

  -- `init_if_needed`: the roles that are there, or none, with the bump that is found.
  unfoldable pub init_roles_if_needed : ItsStore → ℕ → ℕ → ℕ → ItsResult UserRoles
  init_roles_if_needed st address resource user = do
    require ((env.rt.find_program_address (user_roles_seeds resource user) env.id).0 == address)
        (anchor constraint_seeds)
    let fresh : UserRoles = record { roles = 0; bump = 0 }
    if is_free_account st address then ok fresh else load_account st.user_roles address

  -- `ctx.bumps`
  abbrev pub roles_bump : ℕ → ℕ → ℕ
  roles_bump resource user = (env.rt.find_program_address (user_roles_seeds resource user) env.id).1

-- An account without roles is closed.
abbrev pub write_or_close : Map UserRoles → ℕ → UserRoles → Map UserRoles
write_or_close m address r = if has_roles r then update m address r else erase m address
