-- ===== src/Its/Tests.antt =====
-- The service initialized, its operator changed and a limit set.
pub mod Tokens
pub mod Outbound
pub mod Inbound
use axelar_amplifier_solana.Gateway.Tests.{address_of}
use axelar_amplifier_solana.Its.Admin.{InitializeAccounts, initialize}
use axelar_amplifier_solana.Its.Steps.{ItsStep, limit_set}
use axelar_amplifier_solana.Its.Authority.{
  TransferRoleAccounts, transfer_operatorship, transfer_role,
}
use axelar_amplifier_solana.Its.Flow.{ItsResult}
use axelar_amplifier_solana.Its.Limits.{SetFlowLimitAccounts, set_flow_limit}
use axelar_amplifier_solana.Its.State.{
  ItsEnv, ItsStore, TokenManager, init_account, init_roles_if_needed, its_seeds, load_manager,
  load_roles, load_service, mint_burn, token_manager_seeds, user_roles_seeds,
}
use axelar_amplifier_solana.Its.Roles.{
  bit_and, bit_not, bit_or, contains, insert, operator_role, remove,
}
use axelar_amplifier_solana.Its.Steps.FlowLimits.{ItsStep-Kept, Kept}
use axelar_amplifier_solana.Its.Roles.Laws.{operator_of}
use axelar_amplifier_solana.Its.Authority.Effect.{ByHolder, role_at}
use axelar_amplifier_solana.Its.Authority.Transfer.{
  Transferred, Transferred-role_at, after_transfer, operatorship,
}
use axelar_amplifier_solana.Std.Runtime.{Slice}
use axelar_amplifier_solana.Std.Instances.{plain_runtime}
use axelar_amplifier_solana.Prelude.{[], err, none, ok, refl, some, true, update, ℕ, ◌∷◌, ◌≡◌}

abbrev pub its_env : ItsEnv
its_env = record {
  rt = plain_runtime;
  id = 1;
  bpf_loader_upgradeable = 2;
  program_data = λ address. some (some 9);
}

abbrev nothing : ItsStore
nothing = record { services = λ a. none; managers = λ a. none; user_roles = λ a. none; events = [] }

abbrev pub root_pda : ℕ
root_pda = address_of its_seeds

abbrev roles_pda : ℕ → ℕ
roles_pda user = address_of (user_roles_seeds root_pda user)

abbrev initialize_accounts : InitializeAccounts
initialize_accounts = record {
  payer = 9;
  payer_is_signer = true;
  program_data = address_of (Slice.array 1 ∷ []);
  its_root_pda = root_pda;
  operator = 8;
  operator_is_signer = true;
  user_roles_account = roles_pda 8;
}

abbrev result : ItsResult ItsStore → ItsStore
result (ok st) = st
result (err e) = nothing

abbrev st1 : ItsStore
st1 = result (initialize its_env nothing initialize_accounts (1 ∷ []) (2 ∷ []))

abbrev transfer_accounts : TransferRoleAccounts
transfer_accounts = record {
  origin_user_account = 8;
  origin_is_signer = true;
  origin_roles_account = roles_pda 8;
  destination_user_account = 7;
  destination_roles_account = roles_pda 7;
}

abbrev st2 : ItsStore
st2 = result (transfer_operatorship its_env st1 transfer_accounts root_pda)

step_2 : transfer_operatorship its_env st1 transfer_accounts root_pda ≡ ok st2
unfolding initialize transfer_operatorship transfer_role load_roles load_service
    init_roles_if_needed contains insert remove bit_and bit_or bit_not
step_2 = refl

transferred : Transferred its_env st1 transfer_accounts st2 operator_of
transferred = operatorship operator_of root_pda refl step_2

Transferred-role_at_example :
    (resource : ℕ) × ByHolder its_env st1 (roles_pda 8) resource 8 true operator_role
    × (role_at st2 (roles_pda 7) operator_of
        ≡ after_transfer
            (role_at st1)
            (roles_pda 8)
            (roles_pda 7)
            operator_of
            (roles_pda 7)
            operator_of)
Transferred-role_at_example =
    Transferred-role_at its_env st1 transfer_accounts st2 operator_of (roles_pda 7) operator_of
      transferred

abbrev pub manager_pda : ℕ
manager_pda = address_of (token_manager_seeds root_pda 5)

abbrev manager : TokenManager
manager = init_account mint_burn 5 6 4 0

abbrev with_manager : ItsStore
with_manager = record st1 { managers = update st1.managers manager_pda manager }

abbrev limit_accounts : SetFlowLimitAccounts
limit_accounts = record {
  operator = 8;
  operator_is_signer = true;
  its_root_pda = root_pda;
  its_roles_pda = roles_pda 8;
  token_manager_pda = manager_pda;
}

abbrev st3 : ItsStore
st3 = result (set_flow_limit its_env with_manager limit_accounts (some 100))

step_3 : set_flow_limit its_env with_manager limit_accounts (some 100) ≡ ok st3
unfolding initialize set_flow_limit load_roles load_service load_manager contains bit_and
step_3 = refl

manager_at : with_manager.managers manager_pda ≡ some manager
unfolding initialize
manager_at = refl

limited_3 : ItsStep its_env with_manager st3
limited_3 = limit_set limit_accounts (some 100) step_3

ItsStep-Kept_example :
    (manager' : TokenManager) × (st3.managers manager_pda ≡ some manager')
    × Kept its_env with_manager st3 limited_3 manager_pda manager manager'
ItsStep-Kept_example =
    ItsStep-Kept its_env with_manager st3 manager_pda manager limited_3 manager_at
