-- ===== src/Its/Limits/Effect.antt =====
-- Who sets the flow limit of a token manager
-- (set_flow_limit.rs and set_token_manager_flow_limit.rs of
-- programs/solana-axelar-its/src/instructions).
use axelar_amplifier_solana.Its.Flow.{missing_flow_limiter_role, missing_operator_role}
use axelar_amplifier_solana.Its.Limits.{
  SetFlowLimitAccounts, SetTokenManagerFlowLimitAccounts, set_flow_limit,
  set_token_manager_flow_limit, with_flow_limit,
}
use axelar_amplifier_solana.Its.State.{
  load_service, ItsEnv, ItsStore, TokenManager, load_manager, load_roles,
}
use axelar_amplifier_solana.Its.Roles.{UserRoles, flow_limiter_role, operator_role}
use axelar_amplifier_solana.Prelude.{Option, arith, ok, some, true, update, ℕ, ◌≡◌}
use axelar_amplifier_solana.Its.Chains.{InterchainTokenService}

module _ (env : ItsEnv) where
  pub load_manager_sound :
      (st : ItsStore) (its_root_pda address : ℕ) (manager : TokenManager)
      → load_manager env st its_root_pda address ≡ ok manager
      → st.managers address ≡ some manager
  unfolding load_manager
  load_manager_sound st its_root_pda address manager h = ground arith

  -- The operator of the service, or a flow limiter of the manager, signs.
  pub record SetByOperator (st : ItsStore) (a : SetFlowLimitAccounts) (flow_limit : Option ℕ)
      (st' : ItsStore) : Type 0 where
    pub service : InterchainTokenService
    pub service_loaded : load_service env st a.its_root_pda ≡ ok service
    pub roles : UserRoles
    pub roles_loaded :
        load_roles env st a.its_roles_pda a.its_root_pda a.operator operator_role
          missing_operator_role
        ≡ ok roles
    pub operator_signs : a.operator_is_signer ≡ true
    pub manager : TokenManager
    pub manager_loaded : load_manager env st a.its_root_pda a.token_manager_pda ≡ ok manager
    pub written :
        st'.managers ≡ update st.managers a.token_manager_pda (with_flow_limit manager flow_limit)
    pub roles_kept : st'.user_roles ≡ st.user_roles

  pub set_flow_limit_sound :
      (st : ItsStore) (a : SetFlowLimitAccounts) (flow_limit : Option ℕ) (st' : ItsStore)
      → set_flow_limit env st a flow_limit ≡ ok st'
      → SetByOperator st a flow_limit st'
  unfolding set_flow_limit
  set_flow_limit_sound st a flow_limit st' h = ground arith

  pub record SetByLimiter (st : ItsStore) (a : SetTokenManagerFlowLimitAccounts)
      (flow_limit : Option ℕ) (st' : ItsStore) : Type 0 where
    pub roles : UserRoles
    pub roles_loaded :
        load_roles env st a.flow_limiter_roles_pda a.token_manager_pda a.flow_limiter
          flow_limiter_role missing_flow_limiter_role
        ≡ ok roles
    pub limiter_signs : a.flow_limiter_is_signer ≡ true
    pub manager : TokenManager
    pub manager_loaded : load_manager env st a.its_root_pda a.token_manager_pda ≡ ok manager
    pub written :
        st'.managers ≡ update st.managers a.token_manager_pda (with_flow_limit manager flow_limit)
    pub roles_kept : st'.user_roles ≡ st.user_roles

  pub set_token_manager_flow_limit_sound :
      (st : ItsStore) (a : SetTokenManagerFlowLimitAccounts) (flow_limit : Option ℕ)
      (st' : ItsStore)
      → set_token_manager_flow_limit env st a flow_limit ≡ ok st'
      → SetByLimiter st a flow_limit st'
  unfolding set_token_manager_flow_limit
  set_token_manager_flow_limit_sound st a flow_limit st' h = ground arith
