-- ===== src/Its/Authority.antt =====
-- The instructions that move roles: transfer_operatorship.rs of
-- programs/solana-axelar-its/src/instructions/config, transfer_token_manager_operatorship.rs and the
-- flow limiters of instructions/token_manager, and transfer_interchain_token_mintership.rs of
-- instructions/interchain_token.
pub mod Effect
pub mod Transfer
use axelar_amplifier_solana.Its.Flow.{
  ItsResult, missing_flow_limiter_role, missing_minter_role, missing_operator_role, ItsError,
}
use axelar_amplifier_solana.Its.State.{
  ItsEnv, ItsStore, init_roles_if_needed, load_manager, load_roles, load_service, roles_bump,
  write_or_close,
}
use axelar_amplifier_solana.Its.Roles.{
  UserRoles, contains, flow_limiter_role, insert, minter_role, operator_role, remove,
}
use axelar_amplifier_solana.Std.Anchor.{check_signer}
use axelar_amplifier_solana.Prelude.{Bool, custom, not, ok, require, update, ℕ, ◌==◌, ◌>>=◌, ◌>>◌}

-- The accounts of a user who gives a role on a resource to another user.
pub record TransferRoleAccounts : Type 0 where
  pub origin_user_account : ℕ
  pub origin_is_signer : Bool
  pub origin_roles_account : ℕ
  pub destination_user_account : ℕ
  pub destination_roles_account : ℕ

-- `AddTokenManagerFlowLimiter` and `RemoveTokenManagerFlowLimiter`
pub record FlowLimiterAccounts : Type 0 where
  pub authority_user_account : ℕ
  pub authority_is_signer : Bool
  pub authority_roles_account : ℕ
  pub its_root_pda : ℕ
  pub token_manager_pda : ℕ
  pub target_user_account : ℕ
  pub target_roles_account : ℕ

module _ (env : ItsEnv) where
  -- What the three handlers have in common: the constraints on the two users and their roles, the
  -- role that goes from the one to the other, and the account without roles that is closed.
  unfoldable pub transfer_role :
      ItsStore → TransferRoleAccounts → ℕ → ℕ → ItsError → ItsResult ItsStore
  transfer_role st a resource role missing = do
    check_signer a.origin_is_signer
    origin_roles ←
        load_roles env st a.origin_roles_account resource a.origin_user_account role missing
    require (not (a.destination_user_account == a.origin_user_account))
        (custom ItsError.invalid_argument)
    destination_roles ←
        init_roles_if_needed env st a.destination_roles_account resource a.destination_user_account
    let given : UserRoles = record (insert destination_roles role) {
      bump = roles_bump env resource a.destination_user_account;
    }
    ok (record st {
      user_roles =
          update (write_or_close st.user_roles a.origin_roles_account (remove origin_roles role))
            a.destination_roles_account given;
    })

  unfoldable pub transfer_operatorship : ItsStore → TransferRoleAccounts → ℕ → ItsResult ItsStore
  transfer_operatorship st a resource_account = do
    load_service env st resource_account
    transfer_role st a resource_account operator_role missing_operator_role

  unfoldable pub transfer_token_manager_operatorship :
      ItsStore → TransferRoleAccounts → ℕ → ℕ → ItsResult ItsStore
  transfer_token_manager_operatorship st a its_root_pda token_manager_account = do
    load_service env st its_root_pda
    load_manager env st its_root_pda token_manager_account
    transfer_role st a token_manager_account operator_role missing_operator_role

  unfoldable pub transfer_interchain_token_mintership :
      ItsStore → TransferRoleAccounts → ℕ → ℕ → ItsResult ItsStore
  transfer_interchain_token_mintership st a its_root_pda token_manager_account = do
    load_service env st its_root_pda
    load_manager env st its_root_pda token_manager_account
    transfer_role st a token_manager_account minter_role missing_minter_role

  -- The constraints on the authority, who is an operator of the token manager.
  abbrev check_authority : ItsStore → FlowLimiterAccounts → ItsResult (Unit {0})
  check_authority st a = do
    check_signer a.authority_is_signer
    load_service env st a.its_root_pda
    load_manager env st a.its_root_pda a.token_manager_pda
    load_roles env st a.authority_roles_account a.token_manager_pda a.authority_user_account
        operator_role missing_operator_role
    ok tt

  unfoldable pub add_token_manager_flow_limiter :
      ItsStore → FlowLimiterAccounts → ItsResult ItsStore
  add_token_manager_flow_limiter st a = do
    check_authority st a
    target_roles ←
        init_roles_if_needed env st a.target_roles_account a.token_manager_pda a.target_user_account
    require (not (contains target_roles flow_limiter_role)) (custom ItsError.invalid_argument)
    let given : UserRoles = record (insert target_roles flow_limiter_role) {
      bump = roles_bump env a.token_manager_pda a.target_user_account;
    }
    ok (record st { user_roles = update st.user_roles a.target_roles_account given })

  unfoldable pub remove_token_manager_flow_limiter :
      ItsStore → FlowLimiterAccounts → ItsResult ItsStore
  remove_token_manager_flow_limiter st a = do
    check_authority st a
    target_roles ←
        load_roles env st a.target_roles_account a.token_manager_pda a.target_user_account
          flow_limiter_role missing_flow_limiter_role
    ok (record st {
      user_roles =
          write_or_close st.user_roles a.target_roles_account
            (remove target_roles flow_limiter_role);
    })
