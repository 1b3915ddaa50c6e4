-- ===== src/Its/Authority/Effect.antt =====
-- Which roles an instruction takes and gives (programs/solana-axelar-its/src/instructions).
use axelar_amplifier_solana.Std.Runtime.{Slice}
use axelar_amplifier_solana.Its.Flow.{missing_flow_limiter_role, missing_operator_role, ItsError}
use axelar_amplifier_solana.Its.Authority.{
  FlowLimiterAccounts, add_token_manager_flow_limiter, remove_token_manager_flow_limiter,
  TransferRoleAccounts, transfer_role,
}
use axelar_amplifier_solana.Its.State.{
  load_roles, ItsEnv, ItsStore, init_roles_if_needed, roles_bump, user_roles_seeds, write_or_close,
}
use axelar_amplifier_solana.Its.Roles.{
  flow_limiter_role, operator_role, UserRoles, contains, insert, remove,
}
use axelar_amplifier_solana.Its.Roles.Laws.{Role, has_role, mask}
use axelar_amplifier_solana.Prelude.{
  Bool, Option, [], arith, false, none, ok, some, true, update, ℕ, ◌++◌, ◌==◌, ◌∷◌, ◌≡◌, ◌≢◌, ◌⊎◌,
}

-- Whether the account at an address holds a role.
abbrev pub holds : Option UserRoles → Role → Bool
holds none p = false
holds (some r) p = has_role r p

abbrev pub role_at : ItsStore → ℕ → Role → Bool
role_at st address p = holds (st.user_roles address) p

abbrev pub same_role : Role → Role → Bool
same_role p q = mask p == mask q

module _ (env : ItsEnv) where
  -- A user with a role on a resource, who signs.
  pub record ByHolder (st : ItsStore) (address resource user : ℕ) (user_is_signer : Bool) (role : ℕ)
      : Type 0 where
    pub holder_roles : UserRoles
    pub roles_at : st.user_roles address ≡ some holder_roles
    pub has_it : contains holder_roles role ≡ true
    pub user_signs : user_is_signer ≡ true
    pub address_of_user :
        env.rt.create_program_address
          (user_roles_seeds resource user ++ Slice.byte holder_roles.bump ∷ [])
          env.id
        ≡ some address

  -- The roles of an account that may have been made for the instruction.
  pub record FoundRoles (st : ItsStore) (address resource user : ℕ) (r : UserRoles) : Type 0 where
    pub found : (env.rt.find_program_address (user_roles_seeds resource user) env.id).0 ≡ address
    pub there_or_fresh :
        (st.user_roles address ≡ some r)
        ⊎ ((st.user_roles address ≡ none) × (r ≡ record { roles = 0; bump = 0 }))

  pub init_roles_if_needed_sound :
      (st : ItsStore) (address resource user : ℕ) (r : UserRoles)
      → init_roles_if_needed env st address resource user ≡ ok r
      → FoundRoles st address resource user r
  unfolding init_roles_if_needed
  init_roles_if_needed_sound st address resource user r h = ground arith

  pub load_roles_sound :
      (st : ItsStore) (address resource user role : ℕ) (missing : ItsError) (r : UserRoles)
      → load_roles env st address resource user role missing ≡ ok r
      → (st.user_roles address ≡ some r)
        × (contains r role ≡ true)
        × (env.rt.create_program_address
              (user_roles_seeds resource user ++ Slice.byte r.bump ∷ [])
              env.id
            ≡ some address)
  unfolding load_roles
  load_roles_sound st address resource user role missing r h = ground arith

  pub load_roles-ByHolder :
      (st : ItsStore) (address resource user : ℕ) (user_is_signer : Bool) (role : ℕ)
      (missing : ItsError) (r : UserRoles)
      → load_roles env st address resource user role missing ≡ ok r
      → user_is_signer ≡ true
      → ByHolder st address resource user user_is_signer role
  load_roles-ByHolder st address resource user user_is_signer role missing r h s =
      let (at, has, found) = load_roles_sound st address resource user role missing r h in
      record {
        holder_roles = r;
        roles_at = at;
        has_it = has;
        user_signs = s;
        address_of_user = found;
      }

  pub record Given (st : ItsStore) (a : TransferRoleAccounts) (resource role : ℕ)
      (missing : ItsError) (st' : ItsStore) : Type 0 where
    pub origin_roles : UserRoles
    pub origin_loaded :
        load_roles env st a.origin_roles_account resource a.origin_user_account role missing
        ≡ ok origin_roles
    pub origin_signs : a.origin_is_signer ≡ true
    pub other_user : a.destination_user_account ≢ a.origin_user_account
    pub destination_roles : UserRoles
    pub destination_loaded :
        init_roles_if_needed env st a.destination_roles_account resource a.destination_user_account
        ≡ ok destination_roles
    pub written :
        st'.user_roles
        ≡ update
            (write_or_close st.user_roles a.origin_roles_account (remove origin_roles role))
            a.destination_roles_account
            (record (insert destination_roles role) {
              bump = roles_bump env resource a.destination_user_account;
            })
    pub managers_kept : st'.managers ≡ st.managers

  pub transfer_role_sound :
      (st : ItsStore) (a : TransferRoleAccounts) (resource role : ℕ) (missing : ItsError)
      (st' : ItsStore)
      → transfer_role env st a resource role missing ≡ ok st'
      → Given st a resource role missing st'
  unfolding transfer_role
  transfer_role_sound st a resource role missing st' h = ground arith

  -- An operator of the token manager signs.
  pub record ByAuthority (st : ItsStore) (a : FlowLimiterAccounts) : Type 0 where
    pub authority_roles : UserRoles
    pub authority_loaded :
        load_roles env st a.authority_roles_account a.token_manager_pda a.authority_user_account
          operator_role missing_operator_role
        ≡ ok authority_roles
    pub authority_signs : a.authority_is_signer ≡ true

  pub record LimiterAdded (st : ItsStore) (a : FlowLimiterAccounts) (st' : ItsStore) : Type 0 where
    pub by_authority : ByAuthority st a
    pub target_roles : UserRoles
    pub target_loaded :
        init_roles_if_needed env st a.target_roles_account a.token_manager_pda a.target_user_account
        ≡ ok target_roles
    pub written :
        st'.user_roles
        ≡ update st.user_roles a.target_roles_account
            (record (insert target_roles flow_limiter_role) {
              bump = roles_bump env a.token_manager_pda a.target_user_account;
            })
    pub managers_kept : st'.managers ≡ st.managers

  pub add_token_manager_flow_limiter_sound :
      (st : ItsStore) (a : FlowLimiterAccounts) (st' : ItsStore)
      → add_token_manager_flow_limiter env st a ≡ ok st'
      → LimiterAdded st a st'
  unfolding add_token_manager_flow_limiter
  add_token_manager_flow_limiter_sound st a st' h = ground arith

  pub record LimiterRemoved (st : ItsStore) (a : FlowLimiterAccounts) (st' : ItsStore)
      : Type 0 where
    pub by_authority : ByAuthority st a
    pub target_roles : UserRoles
    pub target_loaded :
        load_roles env st a.target_roles_account a.token_manager_pda a.target_user_account
          flow_limiter_role missing_flow_limiter_role
        ≡ ok target_roles
    pub written :
        st'.user_roles
        ≡ write_or_close st.user_roles a.target_roles_account
            (remove target_roles flow_limiter_role)
    pub managers_kept : st'.managers ≡ st.managers

  pub remove_token_manager_flow_limiter_sound :
      (st : ItsStore) (a : FlowLimiterAccounts) (st' : ItsStore)
      → remove_token_manager_flow_limiter env st a ≡ ok st'
      → LimiterRemoved st a st'
  unfolding remove_token_manager_flow_limiter
  remove_token_manager_flow_limiter_sound st a st' h = ground arith
