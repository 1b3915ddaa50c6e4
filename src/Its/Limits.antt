-- ===== src/Its/Limits.antt =====
-- The instructions that set the flow limit of a token manager: set_flow_limit.rs of
-- programs/solana-axelar-its/src/instructions/config and set_token_manager_flow_limit.rs of
-- instructions/token_manager.
pub mod Effect
use axelar_amplifier_solana.Its.Flow.{
  ItsResult, missing_flow_limiter_role, missing_operator_role, ItsError,
}
use axelar_amplifier_solana.Its.State.{
  ItsEnv, ItsStore, TokenManager, flow_limit_set, load_manager, load_roles, load_service,
}
use axelar_amplifier_solana.Its.Roles.{flow_limiter_role, operator_role}
use axelar_amplifier_solana.Std.Anchor.{check_signer}
use axelar_amplifier_solana.Prelude.{
  Bool, Option, custom, false, none, not, ok, require, some, true, update, ℕ, ◌==◌, ◌>>=◌, ◌>>◌,
  ◌∷◌,
}

pub record SetFlowLimitAccounts : Type 0 where
  pub operator : ℕ
  pub operator_is_signer : Bool
  pub its_root_pda : ℕ
  pub its_roles_pda : ℕ
  pub token_manager_pda : ℕ

pub record SetTokenManagerFlowLimitAccounts : Type 0 where
  pub flow_limiter : ℕ
  pub flow_limiter_is_signer : Bool
  pub its_root_pda : ℕ
  pub token_manager_pda : ℕ
  pub flow_limiter_roles_pda : ℕ

abbrev option_eq : Option ℕ → Option ℕ → Bool
option_eq none none = true
option_eq none (some b) = false
option_eq (some a) none = false
option_eq (some a) (some b) = a == b

abbrev pub with_flow_limit : TokenManager → Option ℕ → TokenManager
with_flow_limit manager flow_limit = record manager {
  flow_slot = record (manager.flow_slot) { flow_limit = flow_limit };
}

module _ (env : ItsEnv) where
  unfoldable pub set_flow_limit : ItsStore → SetFlowLimitAccounts → Option ℕ → ItsResult ItsStore
  set_flow_limit st a flow_limit = do
    check_signer a.operator_is_signer
    load_service env st a.its_root_pda
    load_roles env st a.its_roles_pda a.its_root_pda a.operator operator_role missing_operator_role
    manager ← load_manager env st a.its_root_pda a.token_manager_pda
    require (not (option_eq manager.flow_slot.flow_limit flow_limit))
        (custom ItsError.invalid_argument)
    ok (record st {
      managers = update st.managers a.token_manager_pda (with_flow_limit manager flow_limit);
      events = flow_limit_set manager.token_id a.operator flow_limit ∷ st.events;
    })

  unfoldable pub set_token_manager_flow_limit :
      ItsStore → SetTokenManagerFlowLimitAccounts → Option ℕ → ItsResult ItsStore
  set_token_manager_flow_limit st a flow_limit = do
    check_signer a.flow_limiter_is_signer
    load_service env st a.its_root_pda
    manager ← load_manager env st a.its_root_pda a.token_manager_pda
    load_roles env st a.flow_limiter_roles_pda a.token_manager_pda a.flow_limiter flow_limiter_role
        missing_flow_limiter_role
    ok (record st {
      managers = update st.managers a.token_manager_pda (with_flow_limit manager flow_limit);
      events = flow_limit_set manager.token_id a.flow_limiter flow_limit ∷ st.events;
    })
