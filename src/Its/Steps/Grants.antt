-- ===== src/Its/Steps/Grants.antt =====
-- How accounts come to hold roles (programs/solana-axelar-its/src/instructions).
use axelar_amplifier_solana.Its.Admin.{check_upgrade_authority}
use axelar_amplifier_solana.Its.State.{user_roles_seeds, ItsEnv, ItsStore}
use axelar_amplifier_solana.Its.Steps.{
  ItsStep, chain_removed, chain_set, limit_set, limiter_added, limiter_removed, manager_limit_set,
  pause_status_set, role_transferred, service_initialized,
}
use axelar_amplifier_solana.Its.Roles.{operator_role}
use axelar_amplifier_solana.Its.Roles.Laws.{mask, Role, flow_limiter_of, operator_of}
use axelar_amplifier_solana.Its.Authority.Effect.{ByHolder}
use axelar_amplifier_solana.Prelude.{ok, true, ℕ, ◌≡◌}

-- Why an instruction can make the account at the address hold the role `q`: it initializes the service,
-- the account is the operator's, and the upgrade authority of the program signs; it transfers the role
-- and the user who holds it signs; or it adds a flow limiter, whose account it is, and an operator of
-- the token manager signs.
abbrev pub Grant : (env : ItsEnv) (st st' : ItsStore) → ItsStep env st st' → ℕ → Role → Type 0
Grant env st st' (service_initialized a n i h) address q =
    (check_upgrade_authority env a.program_data a.payer ≡ ok tt)
    × (a.payer_is_signer ≡ true)
    × (address ≡ a.user_roles_account)
    × (q ≡ operator_of)
Grant env st st' (role_transferred a p t) address q =
    (resource : ℕ) × ByHolder env st a.origin_roles_account resource a.origin_user_account
      a.origin_is_signer (mask q)
    × (address ≡ a.destination_roles_account)
    × ((env.rt.find_program_address (user_roles_seeds resource a.destination_user_account) env.id).0
        ≡ address)
    × (p ≡ q)
Grant env st st' (limiter_added a h) address q =
    ByHolder env st a.authority_roles_account a.token_manager_pda a.authority_user_account
      a.authority_is_signer operator_role
    × (address ≡ a.target_roles_account)
    × (q ≡ flow_limiter_of)
Grant env st st' (pause_status_set a s h) address q = ⊥
Grant env st st' (chain_set a c h) address q = ⊥
Grant env st st' (chain_removed a c h) address q = ⊥
Grant env st st' (limiter_removed a h) address q = ⊥
Grant env st st' (limit_set a l h) address q = ⊥
Grant env st st' (manager_limit_set a l h) address q = ⊥
