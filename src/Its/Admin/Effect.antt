-- ===== src/Its/Admin/Effect.antt =====
-- What the instructions on the configuration have checked, and what they leave behind
-- (programs/solana-axelar-its/src/instructions/config).
use axelar_amplifier_solana.Its.Admin.{
  SetPauseStatusAccounts, TrustedChainAccounts, check_upgrade_authority, set_pause_status,
  set_trusted_chain, InitializeAccounts, initialize,
}
use axelar_amplifier_solana.Its.Admin.{remove_trusted_chain}
use axelar_amplifier_solana.Its.State.{ItsEnv, ItsStore, roles_bump}
use axelar_amplifier_solana.Its.Roles.{operator_role}
use axelar_amplifier_solana.Prelude.{Bool, List, arith, ok, true, update, ℕ, ◌≡◌}

-- Roles and token managers are as they were.
pub record RolesKept (st st' : ItsStore) : Type 0 where
  pub roles_kept : st'.user_roles ≡ st.user_roles
  pub managers_kept : st'.managers ≡ st.managers

module _ (env : ItsEnv) where
  pub record ServiceInitialized (st : ItsStore) (a : InitializeAccounts) (st' : ItsStore)
      : Type 0 where
    pub by_upgrade_authority : check_upgrade_authority env a.program_data a.payer ≡ ok tt
    pub payer_signs : a.payer_is_signer ≡ true
    pub roles_written :
        st'.user_roles
        ≡ update st.user_roles a.user_roles_account
            (record { roles = operator_role; bump = roles_bump env a.its_root_pda a.operator })
    pub managers_kept : st'.managers ≡ st.managers

  pub initialize_sound :
      (st : ItsStore) (a : InitializeAccounts) (chain_name its_hub_address : List ℕ)
      (st' : ItsStore)
      → initialize env st a chain_name its_hub_address ≡ ok st'
      → ServiceInitialized st a st'
  unfolding initialize
  initialize_sound st a chain_name its_hub_address st' h = ground arith

  pub set_pause_status_keeps :
      (st : ItsStore) (a : SetPauseStatusAccounts) (status : Bool) (st' : ItsStore)
      → set_pause_status env st a status ≡ ok st'
      → RolesKept st st'
  unfolding set_pause_status
  set_pause_status_keeps st a status st' h = ground arith

  pub set_trusted_chain_keeps :
      (st : ItsStore) (a : TrustedChainAccounts) (chain_name : List ℕ) (st' : ItsStore)
      → set_trusted_chain env st a chain_name ≡ ok st'
      → RolesKept st st'
  unfolding set_trusted_chain
  set_trusted_chain_keeps st a chain_name st' h = ground arith

  pub remove_trusted_chain_keeps :
      (st : ItsStore) (a : TrustedChainAccounts) (chain_name : List ℕ) (st' : ItsStore)
      → remove_trusted_chain env st a chain_name ≡ ok st'
      → RolesKept st st'
  unfolding remove_trusted_chain
  remove_trusted_chain_keeps st a chain_name st' h = ground arith
