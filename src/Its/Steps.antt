-- ===== src/Its/Steps.antt =====
-- The instructions of the interchain token service on its configuration, its roles and its limits
-- (programs/solana-axelar-its/src/instructions).
pub mod Grants
pub mod FlowLimits
use axelar_amplifier_solana.Its.Flow.{ItsError}
use axelar_amplifier_solana.Its.Admin.{
  InitializeAccounts, SetPauseStatusAccounts, TrustedChainAccounts, check_upgrade_authority,
  initialize, remove_trusted_chain, set_pause_status, set_trusted_chain,
}
use axelar_amplifier_solana.Its.Authority.{
  FlowLimiterAccounts, TransferRoleAccounts, add_token_manager_flow_limiter,
  remove_token_manager_flow_limiter,
}
use axelar_amplifier_solana.Its.Limits.{
  SetFlowLimitAccounts, SetTokenManagerFlowLimitAccounts, set_flow_limit,
  set_token_manager_flow_limit,
}
use axelar_amplifier_solana.Its.State.{ItsEnv, ItsStore}
use axelar_amplifier_solana.Its.Roles.{bit_and, contains, operator_role}
use axelar_amplifier_solana.Its.Roles.Laws.{Role, flow_limiter_of, has_role, minter_of, operator_of}
use axelar_amplifier_solana.Its.Authority.Effect.{ByHolder, role_at, same_role}
use axelar_amplifier_solana.Its.Authority.Transfer.{Transferred, Transferred-role_at}
use axelar_amplifier_solana.Prelude.{Bool, List, Option, arith, false, ok, refl, sym, true, ℕ, ◌≡◌}

pub data ItsStep (env : ItsEnv) (st st' : ItsStore) : Type 0 where
  service_initialized :
      (a : InitializeAccounts) (chain_name its_hub_address : List ℕ)
      → initialize env st a chain_name its_hub_address ≡ ok st'
      → ItsStep env st st'
  pause_status_set :
      (a : SetPauseStatusAccounts) (status : Bool)
      → set_pause_status env st a status ≡ ok st'
      → ItsStep env st st'
  chain_set :
      (a : TrustedChainAccounts) (chain_name : List ℕ)
      → set_trusted_chain env st a chain_name ≡ ok st'
      → ItsStep env st st'
  chain_removed :
      (a : TrustedChainAccounts) (chain_name : List ℕ)
      → remove_trusted_chain env st a chain_name ≡ ok st'
      → ItsStep env st st'
  role_transferred :
      (a : TransferRoleAccounts) (p : Role) → Transferred env st a st' p → ItsStep env st st'
  limiter_added :
      (a : FlowLimiterAccounts)
      → add_token_manager_flow_limiter env st a ≡ ok st'
      → ItsStep env st st'
  limiter_removed :
      (a : FlowLimiterAccounts)
      → remove_token_manager_flow_limiter env st a ≡ ok st'
      → ItsStep env st st'
  limit_set :
      (a : SetFlowLimitAccounts) (flow_limit : Option ℕ)
      → set_flow_limit env st a flow_limit ≡ ok st'
      → ItsStep env st st'
  manager_limit_set :
      (a : SetTokenManagerFlowLimitAccounts) (flow_limit : Option ℕ)
      → set_token_manager_flow_limit env st a flow_limit ≡ ok st'
      → ItsStep env st st'
